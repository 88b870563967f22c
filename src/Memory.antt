-- ===== src/Memory.antt =====
-- The data of src/fieldtrue/memory.py: research-memory records and what the module takes from
-- hashlib, urllib and str.
pub mod Sensitive
pub mod Evidence
pub mod Validate
pub mod Anchors
pub mod Conditions
pub mod Verify
pub mod Spec
pub mod Refinement
pub mod Append
pub mod Growth
pub mod Binding
pub mod Read
pub mod Reload
mod Tests
use inbar.Prelude.{ℕ, String, Option, List, Bool, string_discrete, ℕ_discrete}
use inbar.Domain.{ℤ-discrete, Timestamp}
use inbar.Json.{Fields, Fields-discrete}

pub data MemoryEventType : Type 0 where
  source decision protocol execution finding failure correction resource : MemoryEventType
  manual_work handoff naming : MemoryEventType

pub data EpistemicPhase : Type 0 where
  prospective exploratory retrospective : EpistemicPhase

pub data MemoryStatus : Type 0 where
  pending recorded pass negative null_result blocked invalid void interrupted superseded :
      MemoryStatus

pub data AccessClass : Type 0 where
  public internal restricted : AccessClass

pub data LabelAccess : Type 0 where
  no_labels development sealed_heldout : LabelAccess

pub record MemoryActor : Type 0 where
  pub kind : String
  pub actor_id : String

pub record MemoryEvidenceRef : Type 0 where
  pub role : String
  pub uri : String
  pub sha256 : Option String
  pub git_commit : Option String
  pub media_type : String
  pub access : AccessClass
  pub label_access : LabelAccess

pub data SchemaVersion : Type 0 where
  v1 v2 : SchemaVersion

pub data MissionId : Type 0 where
  fieldtrue inbar_mission : MissionId

-- The fields that `_record_body` keeps: all but `event_hash`. `Float` is Python's float.
pub record RecordBody (Float : Type 0) : Type 0 where
  pub schema_version : SchemaVersion
  pub mission_id : MissionId
  pub sequence : ℕ
  pub event_id : String
  pub occurred_at : Timestamp
  pub recorded_at : Timestamp
  pub stage : String
  pub epistemic_phase : EpistemicPhase
  pub actor : MemoryActor
  pub event_type : MemoryEventType
  pub status : MemoryStatus
  pub summary : String
  pub payload : Fields
  pub evidence : List MemoryEvidenceRef
  pub links : List (String × String)
  pub access : AccessClass
  pub source_commit : String
  pub manual_minutes : Float
  pub cost_usd : String
  pub recurrence_key : Option String
  pub engine_requirement : Option String
  pub corrects_event_id : Option String
  pub previous_event_hash : String

pub record ResearchMemoryRecord (Float : Type 0) : Type 0 where
  pub record_body : RecordBody Float
  pub open record_body use *
  pub event_hash : String

-- The parts of a URL that `urlsplit` returns and the module reads.
pub record SplitUrl : Type 0 where
  pub scheme : String
  pub hostname : Option String
  pub username : Option String
  pub password : Option String

-- What is computed outside the module: SHA-256 of the canonical JSON of a body's dump, in which the
-- times stand with their offsets, the length of a record's line, `urlsplit`, `str.casefold` and the order of floats.
pub record Primitives (Float : Type 0) : Type 0 where
  pub record_digest : RecordBody Float → String
  pub line_length : ResearchMemoryRecord Float → ℕ
  pub urlsplit : String → SplitUrl
  pub casefold : String → String
  pub is_negative : Float → Bool

pub data MemoryError : Type 0 where
  not_https credentials_in_uri query_or_fragment needs_content_hash commit_on_external : MemoryError
  unsafe_path needs_git_commit needs_anchor sealed_public malformed_evidence : MemoryError
  identity_mismatch naive_timestamp recorded_too_early needs_corrects only_corrections : MemoryError
  needs_recurrence_key missing_payload_field sensitive_field malformed_record : MemoryError
  not_contiguous duplicate_event_id correction_not_earlier link_not_earlier : MemoryError
  predecessor_mismatch hash_mismatch legacy_resumed : MemoryError
  unavailable missing changed_while_read changed_while_appended : MemoryError
  byte_limit not_a_prefix malformed_line append_incomplete write_failed : MemoryError

pub RecordBody-discrete : {Float : Type 0} → Discrete Float → Discrete (RecordBody Float)
RecordBody-discrete d = hlevel (d, ℕ_discrete, string_discrete, Fields-discrete, ℤ-discrete)

pub ResearchMemoryRecord-discrete :
    {Float : Type 0} → Discrete Float → Discrete (ResearchMemoryRecord Float)
ResearchMemoryRecord-discrete d = hlevel (RecordBody-discrete d, string_discrete)
