-- ===== src/Memory/Conditions.antt =====
-- Which records the validator of ResearchMemoryRecord in src/fieldtrue/memory.py accepts.
use inbar.Prelude.{
  String, Option, none, some, List, [], ◌∷◌, Bool, true, false, ◌≡◌, ◌≢◌, ◌⊎◌, inl, inr, ◌↔◌, ◌≤◌,
  ◌<◌, refl, arith, ◌&&◌, not, ◌==◌, codes, length, is_hex, is_identifier, is_git_object_id,
  is_cost, string_discrete, dec_mem, dec_lt, Mem, All, ok, raise_if, then-eq-ok, require-eq-ok,
  require_holds, forbid_holds, Bool-cases,
}
use inbar.Json.{object, Fields, keys}
use inbar.Memory.{
  MemoryEventType, correction, manual_work, SchemaVersion, v1, v2, MissionId, fieldtrue,
  inbar_mission, MemoryEvidenceRef, ResearchMemoryRecord, Primitives, recorded_too_early,
  missing_payload_field, malformed_record,
}
use inbar.Memory.Sensitive.{
  reject_sensitive_payload_keys, reject_sensitive_payload_keys_lem, Occurs, is_sensitive,
}
use inbar.Memory.Evidence.{is_none, validate_evidence}
use inbar.Memory.Anchors.{IsEvidence, validate_evidence_iff}
use inbar.Memory.Validate.{
  well_formed, validate_all_evidence, check_required, required_payload_fields, is_correction,
  is_manual_work, identity_matches, identifier_option, identifier_links, actor_kinds,
  validate_record,
}

-- Every field of the record has its form.
pub record HasForm {Float : Type 0} (prims : Primitives Float) (r : ResearchMemoryRecord Float)
    : Type 0 where
  pub event : is_identifier r.event_id ≡ true
  pub stage : 0 < length (codes r.stage)
  pub actor_id : is_identifier r.actor.actor_id ≡ true
  pub summary : 0 < length (codes r.summary)
  pub links : All (λ l. (is_identifier l.0 ≡ true) × (is_identifier l.1 ≡ true)) r.links
  pub commit : is_git_object_id r.source_commit ≡ true
  pub minutes : prims.is_negative r.manual_minutes ≡ false
  pub cost : is_cost r.cost_usd ≡ true
  pub recurrence : (k : String) → r.recurrence_key ≡ some k → is_identifier k ≡ true
  pub corrected : (k : String) → r.corrects_event_id ≡ some k → is_identifier k ≡ true
  pub previous_hash : is_hex 64 r.previous_event_hash ≡ true
  pub hash : is_hex 64 r.event_hash ≡ true

-- What a valid record promises, in the terms of its fields.
pub record IsValidRecord {Float : Type 0} (prims : Primitives Float)
    (r : ResearchMemoryRecord Float) : Type 0 where
  pub form : HasForm prims r
  pub actor_kind : Mem r.actor.kind actor_kinds
  pub anchored : All (IsEvidence prims.urlsplit) r.evidence
  pub identity :
      ((r.schema_version ≡ v1) × (r.mission_id ≡ fieldtrue))
      ⊎ ((r.schema_version ≡ v2) × (r.mission_id ≡ inbar_mission))
  pub occurred_aware : r.occurred_at.aware ≡ true
  pub recorded_aware : r.recorded_at.aware ≡ true
  pub recorded_after : r.occurred_at.instant ≤ r.recorded_at.instant
  pub corrects : (r.event_type ≡ correction) ↔ (r.corrects_event_id ≢ none)
  pub recurs : r.event_type ≡ manual_work → r.recurrence_key ≢ none
  pub payload_fields : All (λ f. Mem f (keys r.payload)) (required_payload_fields r.event_type)
  pub no_secret : (k : String) → Occurs k (object r.payload) → is_sensitive prims.casefold k ≡ false

identifier_option_lem :
    (o : Option String)
    → (identifier_option o ≡ true) ↔ ((k : String) → o ≡ some k → is_identifier k ≡ true)
identifier_option_lem none = (λ _ k e. cc, λ _. refl)
identifier_option_lem (some s) = (λ h k e. cc, λ f. f s refl)

identifier_links_lem :
    (links : List (String × String))
    → (identifier_links links ≡ true)
      ↔ All (λ l. (is_identifier l.0 ≡ true) × (is_identifier l.1 ≡ true)) links
unfolding identifier_links
identifier_links_lem [] = (λ _. tt, λ _. refl)
identifier_links_lem ((k, v) ∷ links) = (
  λ h.
      let rest : identifier_links links ≡ true = ground arith in
      ((ground arith, ground arith), (identifier_links_lem links).0 rest),
  λ h. rw (h.0.0, h.0.1) ((identifier_links_lem links).1 h.1),
)

identity_lem :
    (s : SchemaVersion) (m : MissionId)
    → (identity_matches s m ≡ true)
      ↔ (((s ≡ v1) × (m ≡ fieldtrue)) ⊎ ((s ≡ v2) × (m ≡ inbar_mission)))
identity_lem v1 fieldtrue = (λ _. inl (refl, refl), λ _. refl)
identity_lem v1 inbar_mission = (λ h. cc, λ h. ground arith)
identity_lem v2 fieldtrue = (λ h. cc, λ h. ground arith)
identity_lem v2 inbar_mission = (λ _. inr (refl, refl), λ _. refl)

is_none_lem : (o : Option String) → (is_none o ≡ false) ↔ (o ≢ none)
is_none_lem none = (λ h. cc, λ n. absurd (n refl))
is_none_lem (some s) = (λ _ e. cc, λ _. refl)

not_both : {b : Bool} → b ≡ true → b ≡ false → ⊥
not_both p q = cc

is_correction_lem : (t : MemoryEventType) → (is_correction t ≡ true) ↔ (t ≡ correction)
is_correction_lem t = (λ h. ground arith, λ e. rw e refl)

is_manual_work_lem : (t : MemoryEventType) → (is_manual_work t ≡ true) ↔ (t ≡ manual_work)
is_manual_work_lem t = (λ h. ground arith, λ e. rw e refl)

required_each :
    (fs present : List String) → (check_required fs present ≡ ok tt) ↔ All (λ f. Mem f present) fs
unfolding check_required
required_each [] present = (λ _. tt, λ _. refl)
required_each (f ∷ fs) present = (
  λ h.
      let (one, rest) = require-eq-ok (dec_mem string_discrete f present) missing_payload_field h in
      (one, (required_each fs present).0 rest),
  λ h.
      rw (require_holds (dec_mem string_discrete f present) missing_payload_field h.0)
        ((required_each fs present).1 h.1),
)

module _ {Float : Type 0} (prims : Primitives Float) where
  validate_all-IsEvidence :
      (es : List MemoryEvidenceRef)
      → (validate_all_evidence prims es ≡ ok tt) ↔ All (IsEvidence prims.urlsplit) es
  unfolding validate_all_evidence
  validate_all-IsEvidence [] = (λ _. tt, λ _. refl)
  validate_all-IsEvidence (e ∷ es) = (
    λ h.
        let (one, rest) = then-eq-ok (validate_evidence prims.urlsplit e) h in
        ((validate_evidence_iff prims.urlsplit e).0 one, (validate_all-IsEvidence es).0 rest),
    λ h. rw ((validate_evidence_iff prims.urlsplit e).1 h.0) ((validate_all-IsEvidence es).1 h.1),
  )

  no_secret_iff :
      (fs : Fields)
      → (reject_sensitive_payload_keys prims.casefold (object fs) ≡ ok tt)
        ↔ ((k : String) → Occurs k (object fs) → is_sensitive prims.casefold k ≡ false)
  no_secret_iff fs = elim (reject_sensitive_payload_keys_lem prims.casefold (object fs)) [
    | inl (returned, clean) ↦ (λ _. clean, λ _. returned)
    | inr (raised, (k, o, bad)) ↦ (λ h. cc, λ h. cc (h k o))
  ]

  form_iff : (r : ResearchMemoryRecord Float) → (well_formed prims r ≡ true) ↔ HasForm prims r
  unfolding well_formed
  form_iff r = (
    λ h.
        let links : identifier_links r.links ≡ true = ground arith in
        let recurrence : identifier_option r.recurrence_key ≡ true = ground arith in
        let corrected : identifier_option r.corrects_event_id ≡ true = ground arith in
        record {
          event = ground arith;
          stage = ground arith;
          actor_id = ground arith;
          summary = ground arith;
          links = (identifier_links_lem r.links).0 links;
          commit = ground arith;
          minutes = ground arith;
          cost = ground arith;
          recurrence = (identifier_option_lem r.recurrence_key).0 recurrence;
          corrected = (identifier_option_lem r.corrects_event_id).0 corrected;
          previous_hash = ground arith;
          hash = ground arith;
        },
    λ f.
        let stage : (length (codes r.stage) == 0) ≡ false = ground (arith, f.stage) in
        let summary : (length (codes r.summary) == 0) ≡ false = ground (arith, f.summary) in
        rw
          (
            f.event,
            stage,
            f.actor_id,
            summary,
            (identifier_links_lem r.links).1 f.links,
            f.commit,
            f.minutes,
            f.cost,
            (identifier_option_lem r.recurrence_key).1 f.recurrence,
            (identifier_option_lem r.corrects_event_id).1 f.corrected,
            f.previous_hash,
            f.hash,
          )
          refl,
  )

  corrects_iff :
      (r : ResearchMemoryRecord Float)
      → (is_correction r.event_type ≡ not (is_none r.corrects_event_id))
        ↔ ((r.event_type ≡ correction) ↔ (r.corrects_event_id ≢ none))
  corrects_iff r =
      let (to, from) = is_correction_lem r.event_type in
      let (there, back) = is_none_lem r.corrects_event_id in
      (
        λ h. (λ e. there (ground (arith, from e)), λ n. to (ground (arith, back n))),
        λ k. elim (Bool-cases (is_correction r.event_type)) [
          | inl yes_it ↦ ground (arith, back (k.0 (to yes_it)))
          | inr no_it ↦ elim (Bool-cases (is_none r.corrects_event_id)) [
            | inl absent ↦ ground arith
            | inr present ↦ absurd (not_both (from (k.1 (there present))) no_it)
          ]
        ],
      )

  recurs_back :
      (r : ResearchMemoryRecord Float)
      → (r.event_type ≡ manual_work → r.recurrence_key ≢ none)
      → (is_manual_work r.event_type && is_none r.recurrence_key) ≡ false
  recurs_back r k = elim (Bool-cases (is_manual_work r.event_type)) [
    | inl yes_it ↦
        ground
          (arith, (is_none_lem r.recurrence_key).1 (k ((is_manual_work_lem r.event_type).0 yes_it)))
    | inr no_it ↦ ground arith
  ]

  validate_record-IsValidRecord :
      (r : ResearchMemoryRecord Float) → validate_record prims r ≡ ok tt → IsValidRecord prims r
  unfolding validate_record
  validate_record-IsValidRecord r h =
      let (_, shaped) = then-eq-ok (raise_if (not (well_formed prims r)) malformed_record) h in
      let (kind, _) =
        require-eq-ok (dec_mem string_discrete r.actor.kind actor_kinds) malformed_record shaped in
      let form : well_formed prims r ≡ true = ground arith in
      let evidence : validate_all_evidence prims r.evidence ≡ ok tt = ground arith in
      let identity : identity_matches r.schema_version r.mission_id ≡ true = ground arith in
      let corrects : is_correction r.event_type ≡ not (is_none r.corrects_event_id) =
        ground arith in
      let recurs : is_manual_work r.event_type ≡ true → is_none r.recurrence_key ≡ false =
        λ m. ground arith in
      let required : check_required (required_payload_fields r.event_type) (keys r.payload)
          ≡ ok tt =
        ground arith in
      let secret : reject_sensitive_payload_keys prims.casefold (object r.payload) ≡ ok tt =
        ground arith in
      record {
        form = (form_iff r).0 form;
        actor_kind = kind;
        anchored = (validate_all-IsEvidence r.evidence).0 evidence;
        identity = (identity_lem r.schema_version r.mission_id).0 identity;
        occurred_aware = ground arith;
        recorded_aware = ground arith;
        recorded_after = ground arith;
        corrects = (corrects_iff r).0 corrects;
        recurs =
            λ e. (is_none_lem r.recurrence_key).0 (recurs ((is_manual_work_lem r.event_type).1 e));
        payload_fields =
            (required_each (required_payload_fields r.event_type) (keys r.payload)).0 required;
        no_secret = (no_secret_iff r.payload).0 secret;
      }

  IsValidRecord-validate_record :
      (r : ResearchMemoryRecord Float) → IsValidRecord prims r → validate_record prims r ≡ ok tt
  unfolding validate_record
  IsValidRecord-validate_record r v =
      rw
        (
          (form_iff r).1 v.form,
          require_holds (dec_mem string_discrete r.actor.kind actor_kinds) malformed_record
              v.actor_kind,
          (validate_all-IsEvidence r.evidence).1 v.anchored,
          (identity_lem r.schema_version r.mission_id).1 v.identity,
          v.occurred_aware,
          v.recorded_aware,
          forbid_holds (dec_lt r.recorded_at.instant r.occurred_at.instant) recorded_too_early
              (omega (arith, v.recorded_after)),
        )
        (ground (
          arith,
          (corrects_iff r).1 v.corrects,
          recurs_back r v.recurs,
          (required_each (required_payload_fields r.event_type) (keys r.payload)).1
              v.payload_fields,
          (no_secret_iff r.payload).1 v.no_secret,
        ))

  -- A record validates exactly if every field has its form, each evidence is in form and anchored in
  -- one of the two ways, the version and the mission are one of the two pairs, the times are aware and
  -- in order, it names what it corrects exactly if it is a correction, manual work has a recurrence
  -- key, the payload has the fields that the type requires, and no key in it is sensitive at any depth.
  pub validate_record_iff :
      (r : ResearchMemoryRecord Float) → (validate_record prims r ≡ ok tt) ↔ IsValidRecord prims r
  validate_record_iff r = (validate_record-IsValidRecord r, IsValidRecord-validate_record r)
