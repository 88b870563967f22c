-- ===== src/Ledger/Refinement.antt =====
-- `_verify_events` accepts exactly the ledgers of the specification.
use inbar.Prelude.{
  ℕ, suc, String, List, [], ◌∷◌, some, ◌≡◌, ◌≤◌, refl, arith, All, Mem, Mem-cases, ok, bind-eq-ok,
  require_holds, forbid_holds, string_discrete, dec_lt, dec_mem, if_pos, if_neg, ◌<◌, sym, ◌∙◌, ◌≢◌,
}
use text.Mathlib.TextEquality.{eq_iff}
use native.Mathlib.Bridge.{le_prop}
use mathlib.Core.List.{not-mem-nil, mem-cons_self}
use inbar.Ledger.Lifecycle.{Edge, rank, Edge-rank-lt, Edge-completed, Edge-known, event_types}
use inbar.Runtime.{RuntimeIdentity-discrete}
use inbar.Ledger.{
  LedgerEvent, Primitives, genesis_hash, signer_changed, run_changed, not_monotonic,
  lifecycle_violation, unknown_type, duplicate_type, must_begin_with_run_started,
}
use inbar.Ledger.Verify.{
  Scan, start, verify_event, verify_step, verify_loop, verify_events, check_completion,
}
use inbar.Ledger.Spec.{IsAuthentic, Follows, IsTail, IsLedger, last_hash, signer_of}

completion_holds :
    (t : String) (seen : List String)
    → (t ≡ "run-completed" → Mem "readiness-adjudicated" seen)
    → check_completion t seen ≡ ok tt
completion_holds t seen h = elim (string_discrete t "run-completed") [
  | yes e ↦ rw (if_pos _ e) (require_holds (dec_mem string_discrete _ _) _ (h e))
  | no n ↦ rw (if_neg _ n)
]

run-started_ne_completed : ◌≢◌ {A = String} "run-started" "run-completed"
run-started_ne_completed e = ground (arith, eq_iff "run-started" "run-completed")

module _ {Payload SigningKey : Type 0} (prims : Primitives Payload SigningKey) where
  verify_event-IsAuthentic :
      (e : LedgerEvent Payload) (n : ℕ) (p : String)
      → verify_event prims e n p ≡ ok tt
      → IsAuthentic prims n p e
  unfolding verify_event
  verify_event-IsAuthentic e n p h = record {
    placed = ground arith;
    chained = ground arith;
    payload_hashed = ground arith;
    hashed = ground arith;
    signed = ground arith;
  }

  IsAuthentic-verify_event :
      (e : LedgerEvent Payload) (n : ℕ) (p : String)
      → IsAuthentic prims n p e
      → verify_event prims e n p ≡ ok tt
  unfolding verify_event
  IsAuthentic-verify_event e n p h = ground arith

  -- The local variables after `before`, in the run that `first` began.
  abbrev after : LedgerEvent Payload → LedgerEvent Payload → List String → Scan
  after first before seen = record {
    previous = before.event_hash;
    signer = some first.signer_public_key;
    run_id = some first.run_id;
    runtime = some first.runtime;
    previous_timestamp = some before.timestamp.instant;
    previous_type = some before.event_type;
    seen_types = seen;
  }

  step_accepts :
      (first before e : LedgerEvent Payload) (seen : List String) (n : ℕ) {s : Scan}
      → verify_step prims (after first before seen) n e ≡ ok s
      → IsAuthentic prims n before.event_hash e
        × Follows prims first before e
        × (s ≡ after first e (e.event_type ∷ seen))
  unfolding verify_step
  step_accepts first before e seen n h =
      ground (arith, verify_event-IsAuthentic e n before.event_hash)

  step_complete :
      (first before e : LedgerEvent Payload) (seen : List String) (n : ℕ)
      → IsAuthentic prims n before.event_hash e
      → Follows prims first before e
      → Mem e.event_type event_types
      → ¬ Mem e.event_type seen
      → (e.event_type ≡ "run-completed" → Mem "readiness-adjudicated" seen)
      → verify_step prims (after first before seen) n e ≡ ok (after first e (e.event_type ∷ seen))
  unfolding verify_step
  step_complete first before e seen n authentic follows known new adjudicated = simp (
    IsAuthentic-verify_event e n before.event_hash authentic,
    require_holds (string_discrete _ _) signer_changed follows.one_signer,
    require_holds (string_discrete _ _) run_changed follows.one_run,
    require_holds (RuntimeIdentity-discrete _ _) run_changed follows.one_runtime,
    forbid_holds (dec_lt _ _) not_monotonic not_before,
    require_holds (dec_mem string_discrete _ _) lifecycle_violation follows.edge,
    require_holds (dec_mem string_discrete _ _) unknown_type known,
    forbid_holds (dec_mem string_discrete _ _) duplicate_type new,
    completion_holds e.event_type seen adjudicated,
  )
    where
      not_before : ¬ (e.timestamp.instant < before.timestamp.instant)
      not_before = omega (arith, follows.not_earlier)

-- The types seen so far stand at or before the last one.
abbrev Seen : String → List String → Type 0
Seen t seen = Mem t seen × All (λ u. rank u ≤ rank t) seen

All-mem :
    (n : ℕ) (t : String) (seen : List String) → All (λ u. rank u ≤ n) seen → Mem t seen → rank t ≤ n
All-mem n t [] h m = absurd (not-mem-nil m)
All-mem n t (u ∷ us) h m = Mem-cases le_prop m (λ e. rw e h.0) (All-mem n t us h.1)

All-weaken :
    (n k : ℕ) (seen : List String) → n ≤ k → All (λ u. rank u ≤ n) seen → All (λ u. rank u ≤ k) seen
All-weaken n k [] le h = tt
All-weaken n k (u ∷ us) le h = (omega arith, All-weaken n k us le h.1)

Edge-new : (a b : String) (seen : List String) → Edge a b → Seen a seen → ¬ Mem b seen
Edge-new a b seen edge h m = omega (arith, Edge-rank-lt a b edge, All-mem (rank a) b seen h.1 m)

Edge-adjudicated :
    (a b : String) (seen : List String)
    → Edge a b
    → Seen a seen
    → b ≡ "run-completed"
    → Mem "readiness-adjudicated" seen
Edge-adjudicated a b seen edge h e = rw (Edge-completed a (rw e at edge)) at h.0

Edge-Seen : (a b : String) (seen : List String) → Edge a b → Seen a seen → Seen b (b ∷ seen)
Edge-Seen a b seen edge h = (
  mem-cons_self,
  (omega arith, All-weaken (rank a) (rank b) seen (omega (arith, Edge-rank-lt a b edge)) h.1),
)

module _ {Payload SigningKey : Type 0} (prims : Primitives Payload SigningKey) where
  loop_accepts :
      (es : List (LedgerEvent Payload)) (first before : LedgerEvent Payload) (seen : List String)
      (n : ℕ) (s : Scan)
      → verify_loop prims (after prims first before seen) n es ≡ ok s
      → IsTail prims first n before es
        × (s.previous ≡ last_hash before.event_hash es)
        × (s.signer ≡ some first.signer_public_key)
  unfolding verify_loop
  loop_accepts [] first before seen n s h = ground arith
  loop_accepts (e ∷ es) first before seen n s h =
      let (s', stepped, rest) =
        bind-eq-ok (verify_step prims (after prims first before seen) n e) _ h in
      let (authentic, follows, same) = step_accepts prims first before e seen n stepped in
      let (tail, last, signer) =
        loop_accepts es first e (e.event_type ∷ seen) (suc n) s (rw same at rest) in
      ((authentic, follows, tail), last, signer)

  loop_complete :
      (es : List (LedgerEvent Payload)) (first before : LedgerEvent Payload) (seen : List String)
      (n : ℕ)
      → IsTail prims first n before es
      → Seen before.event_type seen
      → (s : Scan) × (verify_loop prims (after prims first before seen) n es ≡ ok s)
        × (s.previous ≡ last_hash before.event_hash es)
        × (s.signer ≡ some first.signer_public_key)
  unfolding verify_loop
  loop_complete [] first before seen n h k = (after prims first before seen, refl, refl, refl)
  loop_complete (e ∷ es) first before seen n (authentic, follows, rest) k =
      rw
        (step_complete prims first before e seen n authentic follows
          (Edge-known before.event_type e.event_type follows.edge)
          (Edge-new before.event_type e.event_type seen follows.edge k)
          (Edge-adjudicated before.event_type e.event_type seen follows.edge k))
        (loop_complete es first e (e.event_type ∷ seen) (suc n) rest
          (Edge-Seen before.event_type e.event_type seen follows.edge k))

  first_accepts :
      (e : LedgerEvent Payload) {s : Scan}
      → verify_step prims start 0 e ≡ ok s
      → IsAuthentic prims 0 genesis_hash e
        × (e.event_type ≡ "run-started")
        × (s ≡ after prims e e (e.event_type ∷ []))
  unfolding verify_step
  first_accepts e h = ground (arith, verify_event-IsAuthentic prims e 0 genesis_hash)

  first_complete :
      (e : LedgerEvent Payload)
      → IsAuthentic prims 0 genesis_hash e
      → e.event_type ≡ "run-started"
      → verify_step prims start 0 e ≡ ok (after prims e e (e.event_type ∷ []))
  unfolding verify_step
  first_complete e authentic begins = simp (
    IsAuthentic-verify_event prims e 0 genesis_hash authentic,
    require_holds (string_discrete _ _) must_begin_with_run_started begins,
    require_holds (dec_mem string_discrete e.event_type event_types) unknown_type
        (rw begins mem-cons_self),
    completion_holds e.event_type []
        (λ ends. absurd (run-started_ne_completed (sym begins ∙ ends))),
  )

  verify_events_accepts :
      (e : LedgerEvent Payload) (es : List (LedgerEvent Payload)) (r : String × String)
      → verify_events prims (e ∷ es) ≡ ok r
      → IsLedger prims (e ∷ es) × (r ≡ (last_hash e.event_hash es, e.signer_public_key))
  unfolding verify_events verify_loop
  verify_events_accepts e es r h =
      let (s, looped, done) = bind-eq-ok (verify_loop prims start 0 (e ∷ es)) _ h in
      let (s', stepped, rest) = bind-eq-ok (verify_step prims start 0 e) _ looped in
      let (authentic, begins, same) = first_accepts e stepped in
      let (tail, last, signer) = loop_accepts es e e (e.event_type ∷ []) 1 s (rw same at rest) in
      ((authentic, begins, tail), ground arith)

  verify_events_complete :
      (e : LedgerEvent Payload) (es : List (LedgerEvent Payload))
      → IsLedger prims (e ∷ es)
      → verify_events prims (e ∷ es) ≡ ok (last_hash e.event_hash es, e.signer_public_key)
  unfolding verify_events verify_loop
  verify_events_complete e es (authentic, begins, tail) =
      let (s, looped, last, signer) =
        loop_complete es e e (e.event_type ∷ []) 1 tail (mem-cons_self, (omega arith, tt)) in
      rw (first_complete e authentic begins) (rw looped (ground arith))

  -- `_verify_events` returns exactly on the ledgers of the specification, with the hash of the last
  -- event and the signer. In particular the guards against an unknown type, a repeated type and a
  -- completion without adjudication refuse nothing that the lifecycle table lets through.
  pub verify_events_lem :
      (events : List (LedgerEvent Payload))
      → ((r : String × String)
          → verify_events prims events ≡ ok r
          → IsLedger prims events × (r ≡ (last_hash genesis_hash events, signer_of events)))
        × (IsLedger prims events
            → verify_events prims events ≡ ok (last_hash genesis_hash events, signer_of events))
  unfolding verify_events verify_loop
  verify_events_lem [] = (λ r h. (tt, cc), λ _. refl)
  verify_events_lem (e ∷ es) = (verify_events_accepts e es, verify_events_complete e es)
