-- ===== src/Prelude/Errors.antt =====
-- Exceptions as values: a call returns, or raises.
use mathlib.Core.Path.{◌≡◌, refl}
use mathlib.Core.Logic.{◌↔◌, ◌⊎◌, inl, inr}
use mathlib.Core.Bool.{Bool, true, false}

pub data Result {ℓ κ} (X : Type ℓ) (A : Type κ) : Type (ℓ ⊔ κ) where
  err : X → Result X A
  ok : A → Result X A

-- A validation: it returns nothing, or raises.
abbrev pub Check {ℓ} : Type ℓ → Type ℓ
Check X = Result X (Unit {0})

-- The statements after a call run only if it returns.
infixl 5 ◌>>=◌ ◌>>◌
abbrev pub ◌>>=◌ {ℓ κ μ} :
    {X : Type ℓ} {A : Type κ} {B : Type μ} → Result X A → (A → Result X B) → Result X B
◌>>=◌ call rest = elim call [ err x ↦ err x | ok a ↦ rest a ]

abbrev pub ◌>>◌ {ℓ κ} : {X : Type ℓ} {B : Type κ} → Check X → Result X B → Result X B
◌>>◌ call rest = elim call [ err x ↦ err x | ok _ ↦ rest ]

-- `if condition: raise e`
abbrev pub raise_if {ℓ} : {E : Type ℓ} → Bool → E → Check E
raise_if true e = err e
raise_if false e = ok tt

-- `if not P: raise e` and `if P: raise e`, for a decision of `P`
abbrev pub require {ℓ κ} : {E : Type ℓ} {P : Type κ} → Dec P → E → Check E
require (yes p) e = ok tt
require (no n) e = err e

abbrev pub forbid {ℓ κ} : {E : Type ℓ} {P : Type κ} → Dec P → E → Check E
forbid (yes p) e = err e
forbid (no n) e = ok tt

-- A block that returned has had its first call return.
pub bind-eq-ok {ℓ κ μ} :
    {X : Type ℓ} {A : Type κ} {B : Type μ} (call : Result X A) (rest : A → Result X B) {r : B}
    → (call >>= rest) ≡ ok r
    → (a : A) × (call ≡ ok a) × (rest a ≡ ok r)
bind-eq-ok (err x) rest e = cc
bind-eq-ok (ok a) rest e = (a, refl, e)

pub then-eq-ok {ℓ κ} :
    {E : Type ℓ} {B : Type κ} (m : Check E) {k : Result E B} {b : B}
    → (m >> k) ≡ ok b
    → (m ≡ ok tt) × (k ≡ ok b)
then-eq-ok (ok tt) h = (refl, h)
then-eq-ok (err e) h = cc

-- A guard that passed leaves its condition behind.
pub require-eq-ok {ℓ κ μ} :
    {E : Type ℓ} {P : Type κ} {B : Type μ} (d : Dec P) (e : E) {k : Result E B} {b : B}
    → (require d e >> k) ≡ ok b
    → P × (k ≡ ok b)
require-eq-ok (yes p) e h = (p, h)
require-eq-ok (no n) e h = cc

pub forbid-eq-ok {ℓ κ μ} :
    {E : Type ℓ} {P : Type κ} {B : Type μ} (d : Dec P) (e : E) {k : Result E B} {b : B}
    → (forbid d e >> k) ≡ ok b
    → (¬ P) × (k ≡ ok b)
forbid-eq-ok (yes p) e h = cc
forbid-eq-ok (no n) e h = (n, h)

pub require_iff {ℓ κ} : {X : Type ℓ} {P : Type κ} (d : Dec P) (x : X) → (require d x ≡ ok tt) ↔ P
require_iff (yes p) x = (λ _. p, λ _. refl)
require_iff (no n) x = (λ h. cc, λ p. absurd (n p))

pub require_holds {ℓ κ} : {E : Type ℓ} {P : Type κ} (d : Dec P) (e : E) → P → require d e ≡ ok tt
require_holds (yes p) e h = refl
require_holds (no n) e h = absurd (n h)

pub forbid_holds {ℓ κ} : {E : Type ℓ} {P : Type κ} (d : Dec P) (e : E) → ¬ P → forbid d e ≡ ok tt
forbid_holds (yes p) e h = absurd (h p)
forbid_holds (no n) e h = refl

-- A computation returns or raises.
pub Result-cases {ℓ κ} :
    {E : Type ℓ} {A : Type κ} (x : Result E A) → ((a : A) × (x ≡ ok a)) ⊎ ((e : E) × (x ≡ err e))
Result-cases (ok a) = inl (a, refl)
Result-cases (err e) = inr (e, refl)
