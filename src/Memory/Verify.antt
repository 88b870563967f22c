-- ===== src/Memory/Verify.antt =====
-- `_verify_records` and the loading of a memory in src/fieldtrue/memory.py.
use inbar.Prelude.{
  ℕ, suc, String, Option, none, some, List, [], ◌∷◌, ◌++◌, Bool, true, false, ◌&&◌, ◌||◌, not,
  string_discrete, ℕ_discrete, dec_mem, Result, ok, Check, ◌>>=◌, ◌>>◌, raise_if, require, forbid,
  length,
}
use inbar.Memory.{
  MissionId, fieldtrue, inbar_mission, ResearchMemoryRecord, Primitives, MemoryError,
  not_contiguous, duplicate_event_id, correction_not_earlier, link_not_earlier,
  predecessor_mismatch, hash_mismatch, legacy_resumed,
}
use inbar.Memory.Validate.{validate_record}

-- `MEMORY_GENESIS_HASH`
abbrev pub memory_genesis_hash : String
memory_genesis_hash = "0000000000000000000000000000000000000000000000000000000000000000"

-- The local variables of the loop; the set of identifiers in order of insertion.
pub record Scan : Type 0 where
  pub previous : String
  pub identifiers : List String
  pub inbar_identity_started : Bool

abbrev pub start : Scan
start = record { previous = memory_genesis_hash; identifiers = []; inbar_identity_started = false }

abbrev pub is_inbar : MissionId → Bool
is_inbar fieldtrue = false
is_inbar inbar_mission = true

abbrev pub check_correction : Option String → List String → Check MemoryError
check_correction none identifiers = ok tt
check_correction (some target) identifiers =
    require (dec_mem string_discrete target identifiers) correction_not_earlier

-- `set(record.links.values()) - identifiers` is empty.
unfoldable pub check_links : List (String × String) → List String → Check MemoryError
check_links [] identifiers = ok tt
check_links ((key, target) ∷ links) identifiers = do
  require (dec_mem string_discrete target identifiers) link_not_earlier
  check_links links identifiers

module _ {Float : Type 0} (prims : Primitives Float) where
  abbrev pub advance : Scan → ResearchMemoryRecord Float → Scan
  advance s r = record {
    previous = r.event_hash;
    identifiers = s.identifiers ++ r.event_id ∷ [];
    inbar_identity_started = s.inbar_identity_started || is_inbar r.mission_id;
  }

  -- One round of the loop.
  unfoldable pub verify_record : Scan → ℕ → ResearchMemoryRecord Float → Result MemoryError Scan
  verify_record s sequence r = do
    require (ℕ_discrete r.sequence sequence) not_contiguous
    forbid (dec_mem string_discrete r.event_id s.identifiers) duplicate_event_id
    check_correction r.corrects_event_id s.identifiers
    check_links r.links s.identifiers
    require (string_discrete r.previous_event_hash s.previous) predecessor_mismatch
    require (string_discrete (prims.record_digest r.record_body) r.event_hash) hash_mismatch
    raise_if (not (is_inbar r.mission_id) && s.inbar_identity_started) legacy_resumed
    ok (advance s r)

  unfoldable pub verify_loop :
      Scan → ℕ → List (ResearchMemoryRecord Float) → Result MemoryError Scan
  verify_loop s sequence [] = ok s
  verify_loop s sequence (r ∷ rs) = do
    s' ← verify_record s sequence r
    verify_loop s' (suc sequence) rs

  unfoldable pub verify_records :
      List (ResearchMemoryRecord Float) → Result MemoryError (ℕ × String)
  verify_records records = do s ← verify_loop start 0 records; ok (length records, s.previous)

  -- `_parse_memory` validates each line's record.
  unfoldable pub validate_all : List (ResearchMemoryRecord Float) → Check MemoryError
  validate_all [] = ok tt
  validate_all (r ∷ rs) = do validate_record prims r; validate_all rs

  -- `load_memory_records_bytes`, from the values on the lines.
  unfoldable pub load_memory_records :
      List (ResearchMemoryRecord Float) → Result MemoryError (List (ResearchMemoryRecord Float))
  load_memory_records records = do validate_all records; _ ← verify_records records; ok records
