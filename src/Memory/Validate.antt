-- ===== src/Memory/Validate.antt =====
-- The validator of ResearchMemoryRecord in src/fieldtrue/memory.py.
use inbar.Prelude.{
  String, Option, none, some, List, [], ◌∷◌, Bool, true, false, ◌&&◌, not, ◌==◌, codes, length,
  is_hex, is_identifier, is_git_object_id, is_cost, string_discrete, dec_mem, dec_lt, ok, Check,
  ◌>>◌, raise_if, require, forbid,
}
use inbar.Json.{object, keys}
use inbar.Memory.{
  MemoryEventType, source, decision, protocol, execution, finding, failure, correction, resource,
  manual_work, handoff, naming, SchemaVersion, v1, v2, MissionId, fieldtrue, inbar_mission,
  MemoryEvidenceRef, ResearchMemoryRecord, Primitives, MemoryError, identity_mismatch,
  naive_timestamp, recorded_too_early, needs_corrects, only_corrections, needs_recurrence_key,
  missing_payload_field, malformed_record,
}
use inbar.Memory.Sensitive.{reject_sensitive_payload_keys}
use inbar.Memory.Evidence.{is_none, validate_evidence}

-- `_REQUIRED_PAYLOAD_FIELDS`
abbrev pub required_payload_fields : MemoryEventType → List String
required_payload_fields source = "source" ∷ []
required_payload_fields decision = "decision" ∷ []
required_payload_fields protocol = "protocol" ∷ []
required_payload_fields execution = "action" ∷ "outcome" ∷ []
required_payload_fields finding = "finding" ∷ []
required_payload_fields failure = "failure" ∷ []
required_payload_fields correction = "old" ∷ "corrected" ∷ []
required_payload_fields resource = "resource" ∷ []
required_payload_fields manual_work = "task" ∷ []
required_payload_fields handoff = "state" ∷ "next_action" ∷ []
required_payload_fields naming = "candidate" ∷ "verdict" ∷ []

-- `required - set(payload)` is empty.
unfoldable pub check_required : List String → List String → Check MemoryError
check_required [] present = ok tt
check_required (f ∷ fs) present = do
  require (dec_mem string_discrete f present) missing_payload_field
  check_required fs present

abbrev pub is_correction : MemoryEventType → Bool
is_correction correction = true
is_correction _ = false

abbrev pub is_manual_work : MemoryEventType → Bool
is_manual_work manual_work = true
is_manual_work _ = false

-- `identity_versions`
abbrev pub identity_matches : SchemaVersion → MissionId → Bool
identity_matches v1 fieldtrue = true
identity_matches v2 inbar_mission = true
identity_matches _ _ = false

abbrev pub identifier_option : Option String → Bool
identifier_option none = true
identifier_option (some s) = is_identifier s

unfoldable pub identifier_links : List (String × String) → Bool
identifier_links [] = true
identifier_links ((k, v) ∷ links) = is_identifier k && is_identifier v && identifier_links links

abbrev pub actor_kinds : List String
actor_kinds = "human" ∷ "agent" ∷ "system" ∷ []

module _ {Float : Type 0} (prims : Primitives Float) where
  -- The patterns of the fields.
  unfoldable pub well_formed : ResearchMemoryRecord Float → Bool
  unfolding identifier_links
  well_formed r =
      is_identifier r.event_id
      && not (length (codes r.stage) == 0)
      && is_identifier r.actor.actor_id
      && not (length (codes r.summary) == 0)
      && identifier_links r.links
      && is_git_object_id r.source_commit
      && not (prims.is_negative r.manual_minutes)
      && is_cost r.cost_usd
      && identifier_option r.recurrence_key
      && identifier_option r.corrects_event_id
      && is_hex 64 r.previous_event_hash
      && is_hex 64 r.event_hash

  unfoldable pub validate_all_evidence : List MemoryEvidenceRef → Check MemoryError
  validate_all_evidence [] = ok tt
  validate_all_evidence (e ∷ es) = do validate_evidence prims.urlsplit e; validate_all_evidence es

  -- `ResearchMemoryRecord.model_validate`
  unfoldable pub validate_record : ResearchMemoryRecord Float → Check MemoryError
  validate_record r = do
    raise_if (not (well_formed r)) malformed_record
    require (dec_mem string_discrete r.actor.kind actor_kinds) malformed_record
    validate_all_evidence r.evidence
    raise_if (not (identity_matches r.schema_version r.mission_id)) identity_mismatch
    raise_if (not r.occurred_at.aware) naive_timestamp
    raise_if (not r.recorded_at.aware) naive_timestamp
    forbid (dec_lt r.recorded_at.instant r.occurred_at.instant) recorded_too_early
    raise_if (is_correction r.event_type && is_none r.corrects_event_id) needs_corrects
    raise_if (not (is_correction r.event_type) && not (is_none r.corrects_event_id))
        only_corrections
    raise_if (is_manual_work r.event_type && is_none r.recurrence_key) needs_recurrence_key
    check_required (required_payload_fields r.event_type) (keys r.payload)
    reject_sensitive_payload_keys prims.casefold (object r.payload)
