-- ===== src/Memory/Read.antt =====
-- `_read_memory_file`, `verify_memory` and `verify_memory_prefix` of src/fieldtrue/memory.py.
use inbar.Prelude.{
  ℕ, String, Option, none, some, List, [], ◌∷◌, Bool, true, false, not, ltb, length, Result, ok,
  err, Check, ◌>>=◌, ◌>>◌, raise_if, require, ℕ_discrete,
}
use inbar.Memory.{
  ResearchMemoryRecord, Primitives, MemoryError, unavailable, missing, byte_limit,
  changed_while_read, not_a_prefix,
}
use inbar.Memory.Verify.{memory_genesis_hash}
use inbar.Memory.Spec.{last_hash}
use inbar.Memory.Append.{MemoryFile, Observations, load_file, max_memory_bytes}

-- Equality of bytes.
pub bytes_discrete : Discrete (List ℕ)
bytes_discrete = hlevel ℕ_discrete

module _ {Float : Type 0} (prims : Primitives Float) where
  -- The file is there, and can be read.
  unfoldable pub read_present :
      Observations → MemoryFile Float → Result MemoryError (MemoryFile Float)
  read_present seen file = do
    raise_if (not seen.opens) unavailable
    raise_if (ltb max_memory_bytes file.size) byte_limit
    raise_if (not seen.stable_read) changed_while_read
    ok file

  unfoldable pub read_memory_file :
      (missing_ok : Bool)
      → Observations
      → Option (MemoryFile Float)
      → Result MemoryError (Option (MemoryFile Float))
  read_memory_file true seen none = ok none
  read_memory_file false seen none = err missing
  read_memory_file missing_ok seen (some file) = do read ← read_present seen file; ok (some read)

  abbrev verified_data : Option (MemoryFile Float) → Result MemoryError (ℕ × String)
  verified_data none = ok (0, memory_genesis_hash)
  verified_data (some file) = do
    records ← load_file prims file
    ok (length records, last_hash memory_genesis_hash records)

  unfoldable pub verify_memory :
      Observations → Option (MemoryFile Float) → Result MemoryError (ℕ × String)
  verify_memory seen file = do data_read ← read_memory_file true seen file; verified_data data_read

  -- The base file's last piece, where it has no end of line: it is a line of the current file only if
  -- that one breaks off there in the same way.
  abbrev pub check_tail : List ℕ → List (ResearchMemoryRecord Float) → List ℕ → Check MemoryError
  check_tail [] current current_tail = ok tt
  check_tail (b ∷ bytes) [] current_tail =
      require (bytes_discrete (b ∷ bytes) current_tail) not_a_prefix
  check_tail (b ∷ bytes) (c ∷ current) current_tail = err not_a_prefix

  -- Python's test on the split lines: `current[: len(base)] == base`.
  abbrev pub check_prefix :
      Discrete (ResearchMemoryRecord Float)
      → List (ResearchMemoryRecord Float)
      → List ℕ
      → List (ResearchMemoryRecord Float)
      → List ℕ
      → Check MemoryError
  check_prefix d [] tail current current_tail = check_tail tail current current_tail
  check_prefix d (b ∷ base) tail [] current_tail = err not_a_prefix
  check_prefix d (b ∷ base) tail (c ∷ current) current_tail = do
    require (d b c) not_a_prefix
    check_prefix d base tail current current_tail

  -- The two files that were read, which are there.
  abbrev pub compared :
      Discrete (ResearchMemoryRecord Float)
      → Option (MemoryFile Float)
      → Option (MemoryFile Float)
      → Result MemoryError (ℕ × ℕ)
  compared d none current = err missing
  compared d (some base) none = err missing
  compared d (some base) (some current) = do
    check_prefix d base.records base.tail current.records current.tail
    base_records ← load_file prims base
    current_records ← load_file prims current
    ok (length base_records, length current_records)

  unfoldable pub verify_memory_prefix :
      Discrete (ResearchMemoryRecord Float)
      → (seen_base seen_current : Observations) → (base current : Option (MemoryFile Float))
      → Result MemoryError (ℕ × ℕ)
  verify_memory_prefix d seen_base seen_current base current = do
    base_data ← read_memory_file false seen_base base
    current_data ← read_memory_file false seen_current current
    compared d base_data current_data
