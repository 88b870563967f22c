-- ===== src/Ledger/Tests.antt =====
-- Runs of the ledger at small inputs, and the theorems at those inputs.
use mathlib.Core.List.{mem-cons_self}
use inbar.Domain.{pos}
use inbar.Prelude.{
  ℕ, String, none, some, [], ◌∷◌, map, ◌≡◌, ◌⊎◌, refl, arith, Bool, true, false, ok, err, is_hex,
  is_identifier, if◌then◌else◌, ◌==◌, ◌%◌, string_discrete, ℕ_discrete, dec_lt, is_git_object_id,
}
use inbar.Chain.{Collision}
use inbar.Runtime.{
  RuntimeIdentity, RuntimeIdentity-discrete, ProvenanceState-discrete, observed_v1,
  require_observed_provenance,
}
use inbar.Ledger.{LedgerEvent, LedgerFiles, Primitives, IsSound, lifecycle_violation, not_monotonic}
use inbar.Ledger.Lifecycle.{successors}
use inbar.Ledger.Verify.{
  verify_events, verify_loop, verify_step, verify_event, check_head, verify_ledger,
}
use inbar.Ledger.Append.{all_written, Request, append, prepare, existing, well_formed, new_head}
use inbar.Ledger.Refinement.{verify_events_lem}
use inbar.Ledger.Spec.{IsLedger}
use inbar.Ledger.Trust.{stored}
use inbar.Ledger.Binding.{head_hash_binds}
use inbar.Ledger.Growth.{made, MayFollow, IsWellFormed, append_accepts}

abbrev ones : String
ones = "1111111111111111111111111111111111111111111111111111111111111111"

abbrev twos : String
twos = "2222222222222222222222222222222222222222222222222222222222222222"

abbrev commit : String
commit = "aaaaaaaaaaaaaaaaaaaaaaaaaaaaaaaaaaaaaaaa"

abbrev here : RuntimeIdentity
here = record {
  git_commit = commit;
  git_tree = commit;
  repository_dirty = false;
  dirty_state_hash = ones;
  lockfile_hash = ones;
  python_version = "3.12";
  platform = "linux";
  command = "inbar" ∷ [];
  provenance_state = observed_v1;
  python_interpreter_provenance_sha256 = some ones;
  startup_provenance_sha256 = some ones;
  environment_provenance_sha256 = some ones;
  fieldtrue_source_sha256 = some ones;
  loaded_module_closure_sha256 = some ones;
  dependency_closure_sha256 = some ones;
}

-- Payloads are numbers here, and the digest of a body tells even places from odd ones.
abbrev toy : Primitives ℕ Unit
toy = record {
  payload_digest = λ v. ones;
  body_digest = λ b. if b.sequence % 2 == 0 then ones else twos;
  head_bytes = λ b. "head";
  public_key = λ k. twos;
  sign = λ k m.
      "33333333333333333333333333333333333333333333333333333333333333333333333333333333333333333333333333333333333333333333333333333333";
  verify = λ k m s. true;
}

digest_hex : (b : Bool) → is_hex 64 (if b then ones else twos) ≡ true
unfolding is_hex
digest_hex true = refl
digest_hex false = refl

toy-IsSound : IsSound toy
unfolding is_hex
toy-IsSound = record {
  payload_digest_hex = λ v. refl;
  body_digest_hex = λ b. digest_hex (b.sequence % 2 == 0);
  public_key_hex = λ k. refl;
  sign_hex = λ k m. refl;
  verify_sign = λ k m. refl;
}

abbrev ask : String → ℕ → Request ℕ
ask event_type now = record {
  run_id = "run-1";
  event_type = event_type;
  payload = 7;
  runtime = here;
  approval_receipt_hash = none;
  timestamp = record { aware = true; instant = now; offset = pos 0 };
}

abbrev empty_files : LedgerFiles ℕ
empty_files = record { ledger = none; head = none; torn = false }

-- One line that opens all that a run computes with.
program : Unit {0}
unfolding append prepare well_formed verify_events verify_loop verify_step verify_event check_head
    verify_ledger successors is_hex is_identifier require_observed_provenance is_git_object_id
    string_discrete ℕ_discrete dec_lt RuntimeIdentity-discrete ProvenanceState-discrete
program = tt

abbrev first : LedgerEvent ℕ
first = made toy tt (ask "run-started" 10) []

abbrev second : LedgerEvent ℕ
second = made toy tt (ask "sources-verified" 10) (first ∷ [])

abbrev one_event : LedgerFiles ℕ
one_event = stored (first ∷ []) (new_head toy tt 1 ones)

abbrev two_events : LedgerFiles ℕ
two_events = stored (first ∷ second ∷ []) (new_head toy tt 2 twos)

append-first : append toy tt all_written (ask "run-started" 10) empty_files ≡ (ok first, one_event)
unfolding program
append-first = refl

-- A run cannot skip to its end, and a clock that went back is refused.
append_refused :
    (append toy tt all_written (ask "run-completed" 20) one_event
      ≡ (err lifecycle_violation, one_event))
    × (append toy tt all_written (ask "sources-verified" 9) one_event
        ≡ (err not_monotonic, one_event))
unfolding program
append_refused = (refl, refl)

two_verified : verify_events toy (first ∷ second ∷ []) ≡ ok (twos, twos)
unfolding program
two_verified = refl

two_IsLedger : IsLedger toy (first ∷ second ∷ [])
two_IsLedger = ((verify_events_lem toy (first ∷ second ∷ [])).0 (twos, twos) two_verified).0

verify_events_lem_example :
    ((r : String × String)
      → verify_events toy (first ∷ second ∷ []) ≡ ok r
      → IsLedger toy (first ∷ second ∷ []) × (r ≡ (twos, twos)))
    × (IsLedger toy (first ∷ second ∷ [])
        → verify_events toy (first ∷ second ∷ []) ≡ ok (twos, twos))
verify_events_lem_example = verify_events_lem toy (first ∷ second ∷ [])

head_hash_binds_example :
    (map (λ (x : LedgerEvent ℕ). x.event_body) (first ∷ second ∷ [])
      ≡ map (λ (x : LedgerEvent ℕ). x.event_body) (first ∷ second ∷ []))
    ⊎ Collision toy.body_digest
head_hash_binds_example =
    head_hash_binds toy ℕ_discrete first first (second ∷ []) (second ∷ []) twos twos twos
      two_verified two_verified

ask-IsWellFormed : IsWellFormed toy tt (ask "sources-verified" 10)
unfolding program
ask-IsWellFormed = record {
  observed_runtime = refl;
  aware = refl;
  utc = refl;
  run_identifier = refl;
  type_identifier = refl;
  approval = refl;
}

one_IsLedger : IsLedger toy (first ∷ [])
one_IsLedger = (two_IsLedger.0, two_IsLedger.1, tt)

may_follow : MayFollow toy tt (ask "sources-verified" 10) (first ∷ [])
unfolding successors string_discrete
may_follow = (refl, refl, refl, omega arith, mem-cons_self)

append_accepts_example :
    ((append toy tt all_written (ask "sources-verified" 10) one_event).0 ≡ ok second)
    × (existing (append toy tt all_written (ask "sources-verified" 10) one_event).1
        ≡ first ∷ second ∷ [])
append_accepts_example =
    append_accepts toy tt (ask "sources-verified" 10) one_event toy-IsSound ask-IsWellFormed refl
      one_IsLedger may_follow

-- An hour east of UTC, under a digest that does not read the offset
abbrev ask_east : Request ℕ
ask_east = record (ask "sources-verified" 10) {
  timestamp = record { aware = true; instant = 10; offset = pos 3_600_000_000 };
}

append-east : append toy tt all_written ask_east one_event ≡ (
  ok (made toy tt ask_east (first ∷ [])),
  stored (first ∷ made toy tt ask_east (first ∷ []) ∷ []) (new_head toy tt 2 twos),
)
unfolding program
append-east = refl
