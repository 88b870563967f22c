-- ===== src/Memory/Tests.antt =====
-- Runs of the research memory at small inputs, and the theorems at those inputs.
use inbar.Prelude.{
  ℕ, String, none, some, [], ◌∷◌, ◌≡◌, ◌≢◌, ◌⊎◌, ◌↔◌, refl, true, false, ok, err, is_hex,
  is_identifier, is_git_object_id, is_cost, if◌then◌else◌, ◌==◌, ◌%◌, string_discrete, ℕ_discrete,
  dec_lt,
}
use inbar.Domain.{pos, Timestamp}
use inbar.Json.{Fields, object, text, field, end}
use inbar.Memory.{
  decision, prospective, recorded, MemoryEvidenceRef, public, no_labels, sealed_heldout, Primitives,
  ResearchMemoryRecord, ResearchMemoryRecord-discrete, v2, inbar_mission, append_incomplete,
  malformed_line, missing, missing_payload_field, duplicate_event_id, sensitive_field,
}
use inbar.Memory.Sensitive.{
  is_sensitive, reject_sensitive_payload_keys, reject_fields, reject_items, Verdict, Occurs,
  reject_sensitive_payload_keys_lem,
}
use inbar.Memory.Evidence.{
  validate_evidence, check_evidence_fields, check_external, check_repository, is_unsafe_path,
  IsRepositoryAnchor, IsExternalAnchor, validate_evidence_anchors,
}
use inbar.Memory.Validate.{validate_record, well_formed, validate_all_evidence, check_required}
use inbar.Memory.Conditions.{IsValidRecord, validate_record_iff}
use inbar.Memory.Verify.{
  verify_records, verify_loop, verify_record, check_links, load_memory_records, validate_all,
}
use inbar.Memory.Spec.{IsMemory}
use inbar.Memory.Refinement.{verify_records_lem}
use inbar.Memory.Append.{
  Request, MemoryFile, Observations, settled, short, append_memory, prepare, build,
}
use inbar.Memory.Growth.{Outcome, append_memory_outcomes}
use inbar.Memory.Read.{verify_memory, verify_memory_prefix, read_memory_file, read_present}
use inbar.Memory.Reload.{IsContinued, verify_memory_prefix_lem, append-verify_memory}

abbrev ones : String
ones = "1111111111111111111111111111111111111111111111111111111111111111"

abbrev twos : String
twos = "2222222222222222222222222222222222222222222222222222222222222222"

abbrev commit : String
commit = "aaaaaaaaaaaaaaaaaaaaaaaaaaaaaaaaaaaaaaaa"

-- A record takes one byte here, and the digest of a body tells even places from odd ones.
abbrev toy : Primitives ℕ
toy = record {
  record_digest = λ b. if b.sequence % 2 == 0 then ones else twos;
  line_length = λ r. 1;
  urlsplit = λ u. record { scheme = ""; hostname = none; username = none; password = none };
  casefold = λ s. s;
  is_negative = λ m. false;
}

abbrev in_repository : MemoryEvidenceRef
in_repository = record {
  role = "source";
  uri = "docs/plan.md";
  sha256 = none;
  git_commit = some commit;
  media_type = "text/markdown";
  access = public;
  label_access = no_labels;
}

abbrev at_time : ℕ → Timestamp
at_time n = record { aware = true; instant = n; offset = pos 0 }

abbrev ask : String → Fields → Request ℕ
ask event_id payload = record {
  event_id = event_id;
  stage = "planning";
  epistemic_phase = prospective;
  actor = record { kind = "human"; actor_id = "owner" };
  event_type = decision;
  status = recorded;
  summary = "A decision";
  payload = payload;
  source_commit = commit;
  evidence = in_repository ∷ [];
  links = [];
  access = public;
  manual_minutes = 0;
  cost_usd = "0.25";
  recurrence_key = none;
  engine_requirement = none;
  corrects_event_id = none;
  occurred_at = at_time 10;
  recorded_at = at_time 11;
}

abbrev decided : Fields
decided = field "decision" (text "go") end

abbrev calm : Observations
calm = record { opens = true; stable_read = true }

abbrev empty_file : MemoryFile ℕ
empty_file = record { records = []; tail = []; size = 0 }

program : Unit {0}
unfolding append_memory prepare build verify_memory_prefix read_memory_file read_present
    load_memory_records validate_all validate_record well_formed validate_all_evidence
    check_required verify_records verify_loop verify_record check_links validate_evidence
    check_evidence_fields check_external check_repository is_unsafe_path is_sensitive
    reject_sensitive_payload_keys reject_fields reject_items is_hex is_identifier is_git_object_id
    is_cost string_discrete ℕ_discrete dec_lt
program = tt

abbrev first : ResearchMemoryRecord ℕ
first = record {
  record_body = record {
    schema_version = v2;
    mission_id = inbar_mission;
    sequence = 0;
    event_id = "event-1";
    occurred_at = at_time 10;
    recorded_at = at_time 11;
    stage = "planning";
    epistemic_phase = prospective;
    actor = record { kind = "human"; actor_id = "owner" };
    event_type = decision;
    status = recorded;
    summary = "A decision";
    payload = decided;
    evidence = in_repository ∷ [];
    links = [];
    access = public;
    source_commit = commit;
    manual_minutes = 0;
    cost_usd = "0.25";
    recurrence_key = none;
    engine_requirement = none;
    corrects_event_id = none;
    previous_event_hash = "0000000000000000000000000000000000000000000000000000000000000000";
  };
  event_hash = ones;
}

abbrev one_record : MemoryFile ℕ
one_record = record { records = first ∷ []; tail = []; size = 1 }

append-first :
    append_memory toy settled calm (ask "event-1" decided) empty_file ≡ (ok first, one_record)
unfolding program
append-first = refl

append_refused :
    (append_memory toy settled calm (ask "event-1" decided) one_record
      ≡ (err duplicate_event_id, one_record))
    × (append_memory toy settled calm (ask "event-2" end) one_record
        ≡ (err missing_payload_field, one_record))
    × (append_memory toy settled calm
          (ask "event-2" (field "api_token" (text "x") decided))
          one_record
        ≡ (err sensitive_field, one_record))
unfolding program
append_refused = (refl, refl, refl)

-- A write that breaks off behind one byte leaves a file that no longer loads.
append_broken :
    (append_memory toy (short (123 ∷ [])) calm (ask "event-1" decided) empty_file
      ≡ (err append_incomplete, record { records = []; tail = 123 ∷ []; size = 1 }))
    × ((append_memory toy settled calm
          (ask "event-1" decided)
          (record { records = []; tail = 123 ∷ []; size = 1 })).0
        ≡ err malformed_line)
unfolding program
append_broken = (refl, refl)

-- A missing base file is refused, an empty one is continued by every file that loads.
base_missing :
    verify_memory_prefix toy
      (ResearchMemoryRecord-discrete ℕ_discrete)
      calm
      calm
      none
      (some one_record)
    ≡ err missing
unfolding program
base_missing = refl

prefix_accepted :
    verify_memory_prefix toy
      (ResearchMemoryRecord-discrete ℕ_discrete)
      calm
      calm
      (some empty_file)
      (some one_record)
    ≡ ok (0, 1)
unfolding program
prefix_accepted = refl

verify_records_lem_example :
    ((v : ℕ × String)
      → verify_records toy (first ∷ []) ≡ ok v
      → IsMemory toy (first ∷ []) × (v ≡ (1, ones)))
    × (IsMemory toy (first ∷ []) → verify_records toy (first ∷ []) ≡ ok (1, ones))
verify_records_lem_example = verify_records_lem toy (first ∷ [])

verify_memory_prefix_lem_example :
    (verify_memory_prefix toy
        (ResearchMemoryRecord-discrete ℕ_discrete)
        calm
        calm
        (some empty_file)
        (some one_record)
      ≡ ok (0, 1))
    ↔ IsContinued toy
        (ResearchMemoryRecord-discrete ℕ_discrete)
        calm
        calm
        (some empty_file)
        (some one_record)
        (0, 1)
verify_memory_prefix_lem_example =
    verify_memory_prefix_lem toy (ResearchMemoryRecord-discrete ℕ_discrete) calm calm
      (some empty_file) (some one_record) (0, 1)

append_memory_outcomes_example :
    Outcome toy settled
      (ask "event-1" decided)
      empty_file
      (append_memory toy settled calm (ask "event-1" decided) empty_file)
append_memory_outcomes_example =
    append_memory_outcomes toy settled calm (ask "event-1" decided) empty_file

validate_record_iff_example : (validate_record toy first ≡ ok tt) ↔ IsValidRecord toy first
validate_record_iff_example = validate_record_iff toy first

reject_sensitive_payload_keys_lem_example :
    Verdict
      (λ s. s)
      (reject_sensitive_payload_keys (λ s. s) (object decided))
      (λ k. Occurs k (object decided))
reject_sensitive_payload_keys_lem_example =
    reject_sensitive_payload_keys_lem (λ s. s) (object decided)

evidence_valid : validate_evidence toy.urlsplit in_repository ≡ ok tt
unfolding program
evidence_valid = refl

validate_evidence_anchors_example :
    (IsRepositoryAnchor in_repository
      ⊎ IsExternalAnchor in_repository (toy.urlsplit in_repository.uri))
    × (in_repository.label_access ≡ sealed_heldout → in_repository.access ≢ public)
validate_evidence_anchors_example =
    validate_evidence_anchors toy.urlsplit in_repository evidence_valid

append-verify_memory_example : verify_memory toy calm (some one_record) ≡ ok (1, ones)
append-verify_memory_example =
    append-verify_memory toy settled calm calm (ask "event-1" decided) empty_file one_record first
      append-first refl refl
