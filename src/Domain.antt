-- ===== src/Domain.antt =====
-- Values that several files of src/fieldtrue share.
use inbar.Prelude.{ℕ, Bool, ◌≡◌, refl, sym, ap, ℕ_discrete}

-- Python's `int`, over the native numbers.
pub data ℤ : Type 0 where
  pos : ℕ → ℤ
  negsuc : ℕ → ℤ

unfoldable pub ℤ-discrete : Discrete ℤ
ℤ-discrete (pos m) (pos n) = elim (ℕ_discrete m n) [
  | yes e ↦ yes (ap pos e)
  | no d ↦ no (λ e. d cc)
]
ℤ-discrete (pos m) (negsuc n) = no (λ e. cc)
ℤ-discrete (negsuc m) (pos n) = no (λ e. cc)
ℤ-discrete (negsuc m) (negsuc n) = elim (ℕ_discrete m n) [
  | yes e ↦ yes (ap negsuc e)
  | no d ↦ no (λ e. d cc)
]

-- A Python `datetime`: whether it carries an offset, that offset from UTC in microseconds, and its
-- instant in microseconds.
pub record Timestamp : Type 0 where
  pub aware : Bool
  pub instant : ℕ
  pub offset : ℤ

-- `value.astimezone(UTC)`, of an aware `datetime`
abbrev pub in_utc : Timestamp → Timestamp
in_utc t = record { aware = t.aware; instant = t.instant; offset = pos 0 }

pub in_utc_same : (t : Timestamp) → t.offset ≡ pos 0 → in_utc t ≡ t
in_utc_same t h =
    ap (λ (o : ℤ). record { aware = t.aware; instant = t.instant; offset = o }) (sym h)

pub data ExecutionAuthority : Type 0 where
  replay simulator testbed : ExecutionAuthority

unfoldable pub ExecutionAuthority-discrete : Discrete ExecutionAuthority
ExecutionAuthority-discrete replay replay = yes refl
ExecutionAuthority-discrete replay simulator = no (λ e. cc)
ExecutionAuthority-discrete replay testbed = no (λ e. cc)
ExecutionAuthority-discrete simulator replay = no (λ e. cc)
ExecutionAuthority-discrete simulator simulator = yes refl
ExecutionAuthority-discrete simulator testbed = no (λ e. cc)
ExecutionAuthority-discrete testbed replay = no (λ e. cc)
ExecutionAuthority-discrete testbed simulator = no (λ e. cc)
ExecutionAuthority-discrete testbed testbed = yes refl
