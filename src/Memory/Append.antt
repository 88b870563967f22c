-- ===== src/Memory/Append.antt =====
-- `append_memory` of src/fieldtrue/memory.py.
use inbar.Prelude.{
  ℕ, ◌+◌, String, Option, List, [], ◌∷◌, ◌++◌, Bool, not, ltb, string_discrete, dec_mem, ◌==◌,
  Result, ok, err, ◌>>=◌, ◌>>◌, raise_if, forbid, length,
}
use inbar.Domain.{Timestamp, in_utc}
use inbar.Json.{Fields}
use inbar.Memory.{
  EpistemicPhase, MemoryActor, MemoryEventType, MemoryStatus, MemoryEvidenceRef, AccessClass, v2,
  inbar_mission, RecordBody, ResearchMemoryRecord, Primitives, MemoryError, naive_timestamp,
  duplicate_event_id, unavailable, changed_while_read, changed_while_appended, byte_limit,
  malformed_line, append_incomplete, write_failed,
}
use inbar.Memory.Validate.{validate_record}
use inbar.Memory.Verify.{memory_genesis_hash, verify_records, load_memory_records, check_correction}
use inbar.Memory.Spec.{event_ids, last_hash}

-- `_MAX_MEMORY_BYTES`
abbrev pub max_memory_bytes : ℕ
max_memory_bytes = 16_777_216

-- The arguments of `append_memory`; the clock has been read into the times.
pub record Request (Float : Type 0) : Type 0 where
  pub event_id : String
  pub stage : String
  pub epistemic_phase : EpistemicPhase
  pub actor : MemoryActor
  pub event_type : MemoryEventType
  pub status : MemoryStatus
  pub summary : String
  pub payload : Fields
  pub source_commit : String
  pub evidence : List MemoryEvidenceRef
  pub links : List (String × String)
  pub access : AccessClass
  pub manual_minutes : Float
  pub cost_usd : String
  pub recurrence_key : Option String
  pub engine_requirement : Option String
  pub corrects_event_id : Option String
  pub occurred_at : Timestamp
  pub recorded_at : Timestamp

-- The file: the records on its lines, the bytes behind the last line, where a write broke off, and its
-- size in bytes. A missing file is the empty one.
pub record MemoryFile (Float : Type 0) : Type 0 where
  pub records : List (ResearchMemoryRecord Float)
  pub tail : List ℕ
  pub size : ℕ

-- What the operating system reports while a file is read: it opens as a regular file with one link,
-- and it does not change.
pub record Observations : Type 0 where
  pub opens : Bool
  pub stable_read : Bool

-- What becomes of the write: it is made and the file is found as it was left; fewer bytes than the
-- line has are taken, or an error of the system breaks it off behind some bytes; the line is written
-- and the flush or the sync raises; or at the last look the file is another one, or is not there to
-- be looked at, and the name stands for `other`.
pub data Ending (Float : Type 0) : Type 0 where
  settled unsynced : Ending Float
  short broken : List ℕ → Ending Float
  changed gone : MemoryFile Float → Ending Float

module _ {Float : Type 0} (prims : Primitives Float) where
  abbrev pub new_body : Request Float → ℕ → String → RecordBody Float
  new_body request sequence previous = record {
    schema_version = v2;
    mission_id = inbar_mission;
    sequence = sequence;
    event_id = request.event_id;
    occurred_at = request.occurred_at;
    recorded_at = request.recorded_at;
    stage = request.stage;
    epistemic_phase = request.epistemic_phase;
    actor = request.actor;
    event_type = request.event_type;
    status = request.status;
    summary = request.summary;
    payload = request.payload;
    evidence = request.evidence;
    links = request.links;
    access = request.access;
    source_commit = request.source_commit;
    manual_minutes = request.manual_minutes;
    cost_usd = request.cost_usd;
    recurrence_key = request.recurrence_key;
    engine_requirement = request.engine_requirement;
    corrects_event_id = request.corrects_event_id;
    previous_event_hash = previous;
  }

  -- The hash is that of the dictionary, whose times `canonical_json` writes in UTC; the record has the
  -- times that were given.
  abbrev pub sealed_record : RecordBody Float → ResearchMemoryRecord Float
  sealed_record body = record {
    record_body = body;
    event_hash = prims.record_digest (record body {
      occurred_at = in_utc body.occurred_at;
      recorded_at = in_utc body.recorded_at;
    });
  }

  -- `records[-1].event_hash if records else MEMORY_GENESIS_HASH`
  abbrev pub new_record :
      Request Float → List (ResearchMemoryRecord Float) → ResearchMemoryRecord Float
  new_record request records =
      sealed_record (new_body request (length records) (last_hash memory_genesis_hash records))

  -- From the loaded records to the record to append.
  unfoldable pub build :
      Request Float
      → ℕ
      → List (ResearchMemoryRecord Float)
      → Result MemoryError (ResearchMemoryRecord Float)
  build request size records = do
    forbid (dec_mem string_discrete request.event_id (event_ids records)) duplicate_event_id
    check_correction request.corrects_event_id (event_ids records)
    raise_if (not request.occurred_at.aware) naive_timestamp
    raise_if (not request.recorded_at.aware) naive_timestamp
    let r = new_record request records
    validate_record prims r
    _ ← verify_records prims (records ++ r ∷ [])
    raise_if (ltb max_memory_bytes (size + prims.line_length r)) byte_limit
    ok r

  -- `load_memory_records_bytes`: a text that does not end with its last line is refused.
  abbrev pub load_file : MemoryFile Float → Result MemoryError (List (ResearchMemoryRecord Float))
  load_file file = do
    raise_if (not (length file.tail == 0)) malformed_line
    load_memory_records prims file.records

  -- Everything up to the write.
  unfoldable pub prepare :
      Observations
      → Request Float
      → MemoryFile Float
      → Result MemoryError (ResearchMemoryRecord Float)
  prepare seen request file = do
    raise_if (not seen.opens) unavailable
    raise_if (ltb max_memory_bytes file.size) byte_limit
    raise_if (not seen.stable_read) changed_while_read
    records ← load_file file
    build request file.size records

  abbrev pub grown : MemoryFile Float → ResearchMemoryRecord Float → MemoryFile Float
  grown file r = record {
    records = file.records ++ r ∷ [];
    tail = [];
    size = file.size + prims.line_length r;
  }

  -- The file, which ended with a line, behind a write that broke off.
  abbrev pub torn : MemoryFile Float → List ℕ → MemoryFile Float
  torn file bytes = record { records = file.records; tail = bytes; size = file.size + length bytes }

  -- The write and the checks behind it. What was written stays, whatever is raised.
  abbrev pub write_line :
      Ending Float
      → MemoryFile Float
      → ResearchMemoryRecord Float
      → Result MemoryError (ResearchMemoryRecord Float) × MemoryFile Float
  write_line settled file r = (ok r, grown file r)
  write_line unsynced file r = (err write_failed, grown file r)
  write_line (short bytes) file r = (err append_incomplete, torn file bytes)
  write_line (broken bytes) file r = (err write_failed, torn file bytes)
  write_line (changed other) file r = (err changed_while_appended, other)
  write_line (gone other) file r = (err changed_while_read, other)

  unfoldable pub append_memory :
      Ending Float
      → Observations
      → Request Float
      → MemoryFile Float
      → Result MemoryError (ResearchMemoryRecord Float) × MemoryFile Float
  append_memory ending seen request file = elim (prepare seen request file) [
    | err e ↦ (err e, file)
    | ok r ↦ write_line ending file r
  ]
