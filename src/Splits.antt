-- ===== src/Splits.antt =====
-- The data of src/fieldtrue/splits.py: units, assignments and the lock of a group split.
mod Tests
pub mod UnionFind
pub mod Components
pub mod Lock
pub mod Freeze
pub mod Forest
pub mod Union
pub mod Together
pub mod Separate
use inbar.Prelude.{same_text, ℕ, String, List, Bool, true, false, if◌then◌else◌, string_discrete}

pub record SplitUnit : Type 0 where
  pub incident_id : String
  pub hardware_family : String
  pub hardware_id : String
  pub mission_id : String
  pub fault_family : String
  pub evidence_hash : String
  pub truth_hash : String

pub data SplitName : Type 0 where
  train validation test : SplitName

pub record SplitAssignment : Type 0 where
  pub incident_id : String
  pub split : SplitName
  pub component_id : String

pub record SplitCounts : Type 0 where
  pub train_count : ℕ
  pub validation_count : ℕ
  pub test_count : ℕ

-- The schema version admits one value and is left out.
pub record SplitLock : Type 0 where
  pub seed : String
  pub holdout_dimensions : List String
  pub corpus_hash : String
  pub assignments : List SplitAssignment
  pub split_counts : SplitCounts

-- SHA-256 of the canonical JSON of a corpus and of a component's incidents, and of the text by which
-- components are ordered, as the code points of its hexadecimal digits.
pub record Digests : Type 0 where
  pub corpus_hash : List SplitUnit → String
  pub component_id : List String → String
  pub component_key : String → List String → List ℕ

pub data SplitError : Type 0 where
  empty_corpus bad_dimensions bad_fractions duplicate_incidents infeasible : SplitError
  malformed_lock duplicate_assignments duplicate_dimensions unsupported_dimensions : SplitError
  empty_split wrong_counts wrong_corpus not_covered across_splits wrong_component leak : SplitError

-- `str(getattr(unit, dimension))`, for the four dimensions that are allowed.
unfoldable pub value_of : String → SplitUnit → String
value_of dimension unit =
    if same_text dimension "hardware_family"
    then unit.hardware_family
    else (if same_text dimension "hardware_id"
        then unit.hardware_id
        else (if same_text dimension "mission_id" then unit.mission_id else unit.fault_family))

abbrev pub unit_id : SplitUnit → String
unit_id unit = unit.incident_id

abbrev pub same_split : SplitName → SplitName → Bool
same_split train train = true
same_split validation validation = true
same_split test test = true
same_split _ _ = false
