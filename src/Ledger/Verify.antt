-- ===== src/Ledger/Verify.antt =====
-- `_verify_event`, `_verify_events` and `verify_ledger` of src/fieldtrue/receipts.py.
use inbar.Prelude.{
  ℕ, suc, String, Option, none, some, List, [], ◌∷◌, dec_mem, dec_lt, ℕ_discrete, string_discrete,
  Result, Check, ok, err, ◌>>=◌, ◌>>◌, raise_if, require, forbid, not, length, ite,
}
use inbar.Runtime.{RuntimeIdentity, RuntimeIdentity-discrete}
use inbar.Ledger.Lifecycle.{successors, event_types}
use inbar.Ledger.{
  LedgerEvent, LedgerHead, LedgerFiles, LedgerVerification, Primitives, LedgerError, genesis_hash,
  empty_digest, sequence_mismatch, previous_hash_mismatch, payload_hash_mismatch,
  event_hash_mismatch, event_signature_mismatch, signer_changed, run_changed, not_monotonic,
  must_begin_with_run_started, lifecycle_violation, unknown_type, duplicate_type,
  needs_adjudication, empty_ledger, head_mismatch, untrusted_signer, head_signer_mismatch,
  head_signature_mismatch, missing_file, malformed_line,
}

-- The local variables of the loop in `_verify_events`. `previous_type` is the type of
-- `events[sequence - 1]`, absent at sequence 0.
pub record Scan : Type 0 where
  pub previous : String
  pub signer : Option String
  pub run_id : Option String
  pub runtime : Option RuntimeIdentity
  pub previous_timestamp : Option ℕ
  pub previous_type : Option String
  pub seen_types : List String

abbrev pub start : Scan
start = record {
  previous = genesis_hash;
  signer = none;
  run_id = none;
  runtime = none;
  previous_timestamp = none;
  previous_type = none;
  seen_types = [];
}

-- The first event sets a value, and every later one must agree with it.
abbrev pub check_same : {A : Type 0} → Discrete A → Option A → A → LedgerError → Check LedgerError
check_same d none a e = ok tt
check_same d (some first) a e = require (d a first) e

abbrev pub or_first : {A : Type 0} → Option A → A → A
or_first none a = a
or_first (some first) a = first

abbrev pub check_time : Option ℕ → ℕ → Check LedgerError
check_time none now = ok tt
check_time (some before) now = forbid (dec_lt now before) not_monotonic

abbrev pub check_lifecycle : Option String → String → Check LedgerError
check_lifecycle none t = require (string_discrete t "run-started") must_begin_with_run_started
check_lifecycle (some before) t =
    require (dec_mem string_discrete t (successors before)) lifecycle_violation

abbrev pub check_completion : String → List String → Check LedgerError
check_completion t seen =
    ite (string_discrete t "run-completed")
      (require (dec_mem string_discrete "readiness-adjudicated" seen) needs_adjudication) (ok tt)

abbrev pub or_empty : Option String → String
or_empty none = empty_digest
or_empty (some signer) = signer

-- `path.is_file()`, and the parsed contents.
abbrev pub present : {A : Type 0} → Option A → Result LedgerError A
present none = err missing_file
present (some a) = ok a

module _ {Payload SigningKey : Type 0} (prims : Primitives Payload SigningKey) where
  unfoldable pub verify_event : LedgerEvent Payload → ℕ → String → Check LedgerError
  verify_event event expected_sequence expected_previous = do
    require (ℕ_discrete event.sequence expected_sequence) sequence_mismatch
    require (string_discrete event.previous_event_hash expected_previous) previous_hash_mismatch
    require (string_discrete (prims.payload_digest event.payload) event.payload_hash)
        payload_hash_mismatch
    require (string_discrete (prims.body_digest event.event_body) event.event_hash)
        event_hash_mismatch
    raise_if (not (prims.verify event.signer_public_key event.event_hash event.signature))
        event_signature_mismatch

  -- What one round of the loop leaves in the local variables.
  abbrev pub advance : Scan → LedgerEvent Payload → Scan
  advance s event = record {
    previous = event.event_hash;
    signer = some (or_first s.signer event.signer_public_key);
    run_id = some (or_first s.run_id event.run_id);
    runtime = some (or_first s.runtime event.runtime);
    previous_timestamp = some event.timestamp.instant;
    previous_type = some event.event_type;
    seen_types = event.event_type ∷ s.seen_types;
  }

  unfoldable pub verify_step : Scan → ℕ → LedgerEvent Payload → Result LedgerError Scan
  verify_step s sequence event = do
    verify_event event sequence s.previous
    check_same string_discrete s.signer event.signer_public_key signer_changed
    check_same string_discrete s.run_id event.run_id run_changed
    check_same RuntimeIdentity-discrete s.runtime event.runtime run_changed
    check_time s.previous_timestamp event.timestamp.instant
    check_lifecycle s.previous_type event.event_type
    require (dec_mem string_discrete event.event_type event_types) unknown_type
    forbid (dec_mem string_discrete event.event_type s.seen_types) duplicate_type
    check_completion event.event_type s.seen_types
    ok (advance s event)

  unfoldable pub verify_loop : Scan → ℕ → List (LedgerEvent Payload) → Result LedgerError Scan
  verify_loop s sequence [] = ok s
  verify_loop s sequence (event ∷ events) = do
    s' ← verify_step s sequence event
    verify_loop s' (suc sequence) events

  unfoldable pub verify_events : List (LedgerEvent Payload) → Result LedgerError (String × String)
  verify_events events = do s ← verify_loop start 0 events; ok (s.previous, or_empty s.signer)

  -- `head.event_count != len(events) or …`: both parts raise the same error.
  unfoldable pub check_head :
      LedgerHead
      → List (LedgerEvent Payload)
      → String
      → String × String
      → Result LedgerError LedgerVerification
  check_head head events expected_signer_public_key (last_hash, signer) = do
    require (ℕ_discrete head.event_count (length events)) head_mismatch
    require (string_discrete head.head_hash last_hash) head_mismatch
    require (string_discrete signer expected_signer_public_key) untrusted_signer
    require (string_discrete head.signer_public_key expected_signer_public_key) untrusted_signer
    require (string_discrete head.signer_public_key signer) head_signer_mismatch
    raise_if
        (not (prims.verify head.signer_public_key (prims.head_bytes head.head_body) head.signature))
        head_signature_mismatch
    ok (record {
      event_count = length events;
      head_hash = last_hash;
      signer_public_key = head.signer_public_key;
    })

  abbrev pub nonempty : List (LedgerEvent Payload) → Check LedgerError
  nonempty [] = err empty_ledger
  nonempty (_ ∷ _) = ok tt

  unfoldable pub verify_ledger :
      LedgerFiles Payload → String → Result LedgerError LedgerVerification
  verify_ledger files expected_signer_public_key = do
    events ← present files.ledger
    head ← present files.head
    raise_if files.torn malformed_line
    nonempty events
    result ← verify_events events
    check_head head events expected_signer_public_key result
