-- ===== src/Ledger/Growth.antt =====
-- When `append` accepts: an event that may follow is appended, whatever came before it.
use inbar.Prelude.{
  ℕ, suc, ap, ◌≢◌, false, ◌+◌, ◌≤◌, List, [], ◌∷◌, ◌++◌, ◌≡◌, refl, sym, ◌∙◌, arith, true, ok,
  length, is_hex, is_identifier, require_holds, string_discrete,
}
use inbar.Runtime.{require_observed_provenance}
use inbar.Chain.{Collision}
use inbar.Domain.{pos, Timestamp, in_utc_same}
use inbar.Ledger.Trust.{append-eq-ok, prepare-IsPrepared}
use inbar.Ledger.{EventBody, LedgerEvent, LedgerFiles, Primitives, IsSound, genesis_hash}
use inbar.Ledger.Lifecycle.{Edge}
use inbar.Ledger.Spec.{IsAuthentic, Follows, IsTail, IsLedger, last_hash, signer_of}
use inbar.Ledger.Refinement.{verify_events_lem}
use inbar.Ledger.Append.{
  Writes, all_written, utc_body, Request, append, prepare, existing, check_signer, signed_event,
  new_body, well_formed, is_hex_option,
}
use inbar.Ledger.Binding.{last_event, last_event_facts, last_hash-last_event}

module _ {Payload SigningKey : Type 0} (prims : Primitives Payload SigningKey) where
  IsTail-append :
      (es : List (LedgerEvent Payload)) (first before e : LedgerEvent Payload) (n m : ℕ)
      → m ≡ n + length es
      → IsTail prims first n before es
      → IsAuthentic prims m (last_hash before.event_hash es) e
      → Follows prims first (last_event prims before es) e
      → IsTail prims first n before (es ++ e ∷ [])
  IsTail-append [] first before e n m at h authentic follows =
      let here : m ≡ n = omega arith in (rw here at authentic, follows, tt)
  IsTail-append (x ∷ xs) first before e n m at (a, f, rest) authentic follows =
      (a, f, IsTail-append xs first x e (suc n) m (omega arith) rest authentic follows)

  -- The hash that an event names as its predecessor's is a digest.
  last_hash_hex :
      IsSound prims
      → (events : List (LedgerEvent Payload)) → IsLedger prims events
      → is_hex 64 (last_hash genesis_hash events) ≡ true
  unfolding is_hex
  last_hash_hex sound [] h = refl
  last_hash_hex sound (e ∷ es) (authentic, begins, tail) =
      let (_, hashed) =
        last_event_facts prims es e e 1 (omega (arith, authentic.placed)) authentic.hashed tail in
      rw (last_hash-last_event prims e es, ← hashed) (sound.body_digest_hex _)

module _ {Payload SigningKey : Type 0} (prims : Primitives Payload SigningKey)
    (key : SigningKey) where
  -- The request is well formed and continues the run of `events`.
  abbrev pub MayFollow : Request Payload → List (LedgerEvent Payload) → Type 0
  MayFollow request [] = request.event_type ≡ "run-started"
  MayFollow request (e ∷ es) =
      (e.signer_public_key ≡ prims.public_key key)
      × (request.run_id ≡ e.run_id)
      × (request.runtime ≡ e.runtime)
      × ((last_event prims e es).timestamp.instant ≤ request.timestamp.instant)
      × Edge (last_event prims e es).event_type request.event_type

  pub record IsWellFormed (request : Request Payload) : Type 0 where
    pub observed_runtime : require_observed_provenance request.runtime ≡ ok tt
    pub aware : request.timestamp.aware ≡ true
    pub utc : request.timestamp.offset ≡ pos 0
    pub run_identifier : is_identifier request.run_id ≡ true
    pub type_identifier : is_identifier request.event_type ≡ true
    pub approval : is_hex_option request.approval_receipt_hash ≡ true

  abbrev pub made : Request Payload → List (LedgerEvent Payload) → LedgerEvent Payload
  made request events =
      signed_event prims key
        (new_body prims key request (length events) (last_hash genesis_hash events))

  utc_body-same :
      (body : EventBody Payload) → body.timestamp.offset ≡ pos 0 → utc_body prims key body ≡ body
  utc_body-same body h =
      ap (λ (t : Timestamp). record body { timestamp = t }) (in_utc_same body.timestamp h)

  made-IsAuthentic :
      (request : Request Payload) (events : List (LedgerEvent Payload))
      → IsSound prims
      → IsWellFormed request
      → IsAuthentic prims (length events) (last_hash genesis_hash events) (made request events)
  made-IsAuthentic request events sound w = record {
    placed = refl;
    chained = refl;
    payload_hashed = refl;
    hashed = ap prims.body_digest (sym (utc_body-same (made request events).event_body w.utc));
    signed = sound.verify_sign key _;
  }

  grown-IsLedger :
      (request : Request Payload) (events : List (LedgerEvent Payload))
      → IsSound prims
      → IsWellFormed request
      → IsLedger prims events
      → MayFollow request events
      → IsLedger prims (events ++ made request events ∷ [])
  grown-IsLedger request [] sound w h begins = (made-IsAuthentic request [] sound w, begins, tt)
  grown-IsLedger request (e ∷ es) sound w (a, b, tail) (signer, run, runtime, time, edge) = (
    a,
    b,
    IsTail-append prims es e e (made request (e ∷ es)) 1 (length (e ∷ es)) (omega arith) tail
        (made-IsAuthentic request (e ∷ es) sound w)
        (record {
          one_signer = sym signer;
          one_run = run;
          one_runtime = runtime;
          not_earlier = time;
          edge = edge;
        }),
  )

  made-well_formed :
      (request : Request Payload) (events : List (LedgerEvent Payload))
      → IsSound prims
      → IsWellFormed request
      → IsLedger prims events
      → well_formed (made request events) ≡ true
  unfolding well_formed
  made-well_formed request events sound w h = ground (
    arith,
    sound.payload_digest_hex request.payload,
    sound.body_digest_hex (
        utc_body prims key
          (new_body prims key request (length events) (last_hash genesis_hash events))),
    sound.public_key_hex key,
    sound.sign_hex key (
        prims.body_digest (
          utc_body prims key
            (new_body prims key request (length events) (last_hash genesis_hash events)))),
    last_hash_hex prims sound events h,
  )

  same_signer :
      (request : Request Payload) (events : List (LedgerEvent Payload))
      → MayFollow request events
      → check_signer prims key events (signer_of events) ≡ ok tt
  same_signer request [] h = refl
  same_signer request (e ∷ es) h = require_holds (string_discrete _ _) _ (sym h.0)

  prepare_accepts :
      (request : Request Payload) (events : List (LedgerEvent Payload))
      → IsSound prims
      → IsWellFormed request
      → IsLedger prims events
      → MayFollow request events
      → prepare prims key request events ≡ ok (made request events)
  unfolding prepare
  prepare_accepts request events sound w h may =
      rw
        (
          (verify_events_lem prims events).1 h,
          same_signer request events may,
          made-well_formed request events sound w h,
          (verify_events_lem prims (events ++ made request events ∷ [])).1
              (grown-IsLedger request events sound w h may),
        )
        (rw w.aware refl)

  -- A well-formed request with a time in UTC that continues a valid, whole ledger along the lifecycle is
  -- never refused: if all writes are made, the event is returned, and the files hold the ledger with
  -- that event behind it.
  pub append_accepts :
      (request : Request Payload) (files : LedgerFiles Payload)
      → IsSound prims
      → IsWellFormed request
      → files.torn ≡ false
      → IsLedger prims (existing files)
      → MayFollow request (existing files)
      → ((append prims key all_written request files).0 ≡ ok (made request (existing files)))
        × (existing (append prims key all_written request files).1
            ≡ existing files ++ made request (existing files) ∷ [])
  unfolding append
  append_accepts request files sound w whole h may =
      ground (arith, prepare_accepts request (existing files) sound w h may, w.observed_runtime)

  last_event-append :
      (before : LedgerEvent Payload) (es : List (LedgerEvent Payload)) (e : LedgerEvent Payload)
      → last_event prims before (es ++ e ∷ []) ≡ e
  last_event-append before [] e = refl
  last_event-append before (x ∷ es) e = last_event-append x es e

  last-hashed :
      (events : List (LedgerEvent Payload)) (event : LedgerEvent Payload)
      → IsLedger prims (events ++ event ∷ [])
      → prims.body_digest event.event_body ≡ event.event_hash
  last-hashed [] event h = h.0.hashed
  last-hashed (e ∷ es) event (authentic, begins, tail) =
      let (_, hashed) =
        last_event_facts prims (es ++ event ∷ []) e e 1 (omega (arith, authentic.placed))
          authentic.hashed tail in
      rw (last_event-append e es event) at hashed

  -- An append for an aware time whose offset is not that of UTC returns only if SHA-256 collides on two
  -- event bodies.
  append_offset :
      (writes : Writes) (request : Request Payload) (files files' : LedgerFiles Payload)
      (event : LedgerEvent Payload)
      → request.timestamp.offset ≢ pos 0
      → append prims key writes request files ≡ (ok event, files')
      → Collision prims.body_digest
  append_offset writes request files files' event apart h =
      let (prepared, _) = append-eq-ok prims key writes request files files' event h in
      let p = prepare-IsPrepared prims key request (existing files) event prepared in
      let body = event.event_body in
      let moved : body ≢ utc_body prims key body = λ e. apart (
        ap (λ (t : Timestamp). t.offset) (sym p.time)
        ∙ ap (λ (b : EventBody Payload). b.timestamp.offset) e) in
      (body, utc_body prims key body, moved, last-hashed (existing files) event p.grown ∙ p.hash)
