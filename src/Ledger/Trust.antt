-- ===== src/Ledger/Trust.antt =====
-- What `verify_ledger` establishes, and that `append` keeps it.
use inbar.Prelude.{
  ◌+◌, ◌<◌, String, some, List, [], ◌∷◌, ◌++◌, ◌≡◌, refl, arith, true, ok, bind-eq-ok, then-eq-ok,
  raise_if, not, length, false, ◌⊎◌,
}
use inbar.Ledger.{
  LedgerEvent, LedgerFiles, LedgerHead, LedgerVerification, LedgerError, Primitives, genesis_hash,
  naive_timestamp, malformed_event, write_failed,
}
use inbar.Ledger.Verify.{verify_events, check_head, verify_ledger}
use inbar.Ledger.Spec.{IsLedger, last_hash, signer_of}
use inbar.Ledger.Refinement.{verify_events_lem}
use inbar.Ledger.Append.{
  utc_body, Writes, all_written, line_lost, line_torn, line_unsynced, head_failed, head_unsynced,
  Request, append, prepare, existing, new_head, check_signer, signed_event, new_body, well_formed,
}

abbrev pub stored :
    {Payload : Type 0} → List (LedgerEvent Payload) → LedgerHead → LedgerFiles Payload
stored events head = record { ledger = some events; head = some head; torn = false }

module _ {Payload SigningKey : Type 0} (prims : Primitives Payload SigningKey) where
  -- The head counts the events, names the last hash, and the one signer of both is `key`.
  pub record IsTrusted (key : String) (events : List (LedgerEvent Payload)) (head : LedgerHead)
      : Type 0 where
    pub is_ledger : IsLedger prims events
    pub nonempty : 0 < length events
    pub counted : head.event_count ≡ length events
    pub last : head.head_hash ≡ last_hash genesis_hash events
    pub events_signer : signer_of events ≡ key
    pub head_signer : head.signer_public_key ≡ key
    pub signed : prims.verify key (prims.head_bytes head.head_body) head.signature ≡ true

  abbrev pub verdict : String → List (LedgerEvent Payload) → LedgerVerification
  verdict key events = record {
    event_count = length events;
    head_hash = last_hash genesis_hash events;
    signer_public_key = key;
  }

  verify_ledger-IsTrusted :
      (events : List (LedgerEvent Payload)) (head : LedgerHead) (key : String)
      (v : LedgerVerification)
      → verify_ledger prims (stored events head) key ≡ ok v
      → IsTrusted key events head × (v ≡ verdict key events)
  unfolding verify_ledger check_head
  verify_ledger-IsTrusted [] head key v h = cc
  verify_ledger-IsTrusted (e ∷ es) head key v h =
      let (r, verified, checked) = bind-eq-ok (verify_events prims (e ∷ es)) _ h in
      let (is_ledger, same) = (verify_events_lem prims (e ∷ es)).0 r verified in
      (
        record {
          is_ledger = is_ledger;
          nonempty = omega arith;
          counted = ground arith;
          last = ground arith;
          events_signer = ground arith;
          head_signer = ground arith;
          signed = ground arith;
        },
        ground arith,
      )

module _ {Payload SigningKey : Type 0} (prims : Primitives Payload SigningKey)
    (key : SigningKey) where
  -- What `prepare` found before it let an event through.
  pub record IsPrepared (request : Request Payload) (events : List (LedgerEvent Payload))
      (event : LedgerEvent Payload) : Type 0 where
    pub before : IsLedger prims events
    pub grown : IsLedger prims (events ++ event ∷ [])
    pub keyed : check_signer prims key events (signer_of events) ≡ ok tt
    pub signed : event.signer_public_key ≡ prims.public_key key
    pub hash : event.event_hash ≡ prims.body_digest (utc_body prims key event.event_body)
    pub time : event.timestamp ≡ request.timestamp

  pub prepare-IsPrepared :
      (request : Request Payload) (events : List (LedgerEvent Payload))
      (event : LedgerEvent Payload)
      → prepare prims key request events ≡ ok event
      → IsPrepared request events event
  unfolding prepare
  prepare-IsPrepared request events event h =
      let (last, verified, checked) = bind-eq-ok (verify_events prims events) _ h in
      let (keyed, timed) = then-eq-ok (check_signer prims key events last.1) checked in
      let (_, shaped) = then-eq-ok (raise_if (not request.timestamp.aware) naive_timestamp) timed in
      let made = signed_event prims key (new_body prims key request (length events) last.0) in
      let (_, appended) = then-eq-ok (raise_if (not (well_formed made)) malformed_event) shaped in
      let (r, again, done) = bind-eq-ok (verify_events prims (events ++ made ∷ [])) _ appended in
      let (before, same) = (verify_events_lem prims events).0 last verified in
      let one : made ≡ event = ground arith in
      record {
        before = before;
        grown = rw (← one) ((verify_events_lem prims (events ++ made ∷ [])).0 r again).0;
        keyed = rw same at keyed;
        signed = rw (← one);
        hash = rw (← one) refl;
        time = rw (← one) refl;
      }

  pub append-eq-ok :
      (writes : Writes) (request : Request Payload) (files files' : LedgerFiles Payload)
      (event : LedgerEvent Payload)
      → append prims key writes request files ≡ (ok event, files')
      → (prepare prims key request (existing files) ≡ ok event)
        × (files'
            ≡ stored
                (existing files ++ event ∷ [])
                (new_head prims key (length (existing files) + 1) event.event_hash))
  unfolding append
  append-eq-ok all_written request files files' event h = ground arith
  append-eq-ok line_lost request files files' event h = absurd (ground arith)
  append-eq-ok line_torn request files files' event h = absurd (ground arith)
  append-eq-ok line_unsynced request files files' event h = absurd (ground arith)
  append-eq-ok head_failed request files files' event h = absurd (ground arith)
  append-eq-ok head_unsynced request files files' event h = absurd (ground arith)

  -- The files behind an append that raised
  abbrev pub KeepsEvents : LedgerFiles Payload → LedgerFiles Payload → LedgerError → Type 0
  KeepsEvents files files' e =
      ((existing files' ≡ existing files) × (files'.head ≡ files.head))
      ⊎ ((event : LedgerEvent Payload) × (existing files' ≡ existing files ++ event ∷ [])
          × IsLedger prims (existing files')
          × (files'.torn ≡ false)
          × (e ≡ write_failed))
