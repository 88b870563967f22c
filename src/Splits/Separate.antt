-- ===== src/Splits/Separate.antt =====
-- A lock that validates, and a split that freezes, leaks no held-out value between two splits:
-- src/fieldtrue/splits.py.
use mathlib.Core.List.{not-mem-nil, mem-cons_self, mem-cons_of_mem, Mem-prop}
use inbar.Prelude.{
  same_text, String, true, false, not, ◌&&◌, List, [], ◌∷◌, map, Mem, Mem-cases, some, Option-cases,
  length, ltb, ◌≡◌, refl, subst, is_in, is_subset, all_distinct, Bool-cases, inl, inr, All, ok,
  bind-eq-ok, then-eq-ok, raise_if, string_discrete, dec_mem, arith,
}
use inbar.Sorting.{sort}
use inbar.Splits.{
  SplitUnit, SplitName, train, validation, test, SplitAssignment, SplitLock, Digests, leak,
  wrong_corpus, not_covered, infeasible, wrong_counts, empty_split, bad_fractions,
  duplicate_incidents, value_of, unit_id, same_split,
}
use inbar.Splits.Components.{components}
use inbar.Splits.Freeze.{SplitFloats, Fractions, bad_parts, locked, freeze_group_split}
use inbar.Splits.Lock.{
  assigned_id, is_count, has_empty_split, unit_less, unit_of, check_components, values_in, overlap,
  leaks, check_dimensions, validate_lock_model, validate_split_lock,
}

is_in-Mem : (x : String) (ys : List String) → Mem x ys → is_in x ys ≡ true
is_in-Mem x ys m =
    elim (dec_mem string_discrete x ys) as (λ d. elim d [ yes _ ↦ true | no _ ↦ false ] ≡ true) [
      | yes _ ↦ refl
      | no n ↦ absurd (n m)
    ]

-- Lists without overlap have no common element.
overlap-apart : (x : String) (xs ys : List String) → overlap xs ys ≡ false → Mem x xs → Mem x ys → ⊥
unfolding overlap
overlap-apart x [] ys h m k = not-mem-nil m
overlap-apart x (z ∷ xs) ys h m k =
    Mem-cases (λ a b. absurd a) m
      (λ e. let here : is_in z ys ≡ true = is_in-Mem z ys (rw (← e) k) in ground arith)
      (λ later. overlap-apart x xs ys (ground arith) later k)

same_split_refl : (s : SplitName) → same_split s s ≡ true
same_split_refl train = refl
same_split_refl validation = refl
same_split_refl test = refl

-- The value of an assigned unit is among the values of its split.
values_in-Mem :
    (dimension : String) (units : List SplitUnit) (assignments : List SplitAssignment)
    (a : SplitAssignment) (u : SplitUnit)
    → Mem a assignments
    → unit_of a.incident_id units ≡ some u
    → Mem (value_of dimension u) (values_in dimension a.split units assignments)
unfolding values_in
values_in-Mem dimension units [] a u m found = absurd (not-mem-nil m)
values_in-Mem dimension units (b ∷ assignments) a u m found =
    Mem-cases Mem-prop m
      (λ e.
        let same : unit_of b.incident_id units ≡ some u = rw (← e) found in
        rw (values_in, same, e, same_split_refl b.split) mem-cons_self)
      (λ later.
        let rest = values_in-Mem dimension units assignments a u later found in
        elim (Option-cases (unit_of b.incident_id units)) [
          | inl absent ↦ rw (values_in, absent) rest
          | inr (v, present) ↦ elim (Bool-cases (same_split b.split a.split)) [
            | inl y ↦ rw (values_in, present, y) (mem-cons_of_mem (value_of dimension v) rest)
            | inr n ↦ rw (values_in, present, n) rest
          ]
        ])

same_unless_apart : (s t : SplitName) → (same_split s t ≡ false → ⊥) → s ≡ t
same_unless_apart train train f = refl
same_unless_apart train validation f = absurd (f refl)
same_unless_apart train test f = absurd (f refl)
same_unless_apart validation train f = absurd (f refl)
same_unless_apart validation validation f = refl
same_unless_apart validation test f = absurd (f refl)
same_unless_apart test train f = absurd (f refl)
same_unless_apart test validation f = absurd (f refl)
same_unless_apart test test f = refl

module _ (dimension : String) (units : List SplitUnit) (assignments : List SplitAssignment) where
  leaks-apart :
      (x : String) (s t : SplitName)
      → leaks units assignments dimension ≡ false
      → same_split s t ≡ false
      → Mem x (values_in dimension s units assignments)
      → Mem x (values_in dimension t units assignments)
      → ⊥
  leaks-apart x train train h e m k = cc
  leaks-apart x train validation h e m k = overlap-apart x _ _ (ground arith) m k
  leaks-apart x train test h e m k = overlap-apart x _ _ (ground arith) m k
  leaks-apart x validation train h e m k = overlap-apart x _ _ (ground arith) k m
  leaks-apart x validation validation h e m k = cc
  leaks-apart x validation test h e m k = overlap-apart x _ _ (ground arith) m k
  leaks-apart x test train h e m k = overlap-apart x _ _ (ground arith) k m
  leaks-apart x test validation h e m k = overlap-apart x _ _ (ground arith) k m
  leaks-apart x test test h e m k = cc

module _ (units : List SplitUnit) (assignments : List SplitAssignment) (a b : SplitAssignment)
    (u v : SplitUnit) (ma : Mem a assignments) (mb : Mem b assignments)
    (fa : unit_of a.incident_id units ≡ some u) (fb : unit_of b.incident_id units ≡ some v) where
  one_split :
      (dimension : String)
      → leaks units assignments dimension ≡ false
      → value_of dimension u ≡ value_of dimension v
      → a.split ≡ b.split
  one_split dimension clean same =
      let mine = values_in-Mem dimension units assignments a u ma fa in
      let theirs = values_in-Mem dimension units assignments b v mb fb in
      same_unless_apart a.split b.split (λ apart.
        leaks-apart dimension units assignments (value_of dimension u) a.split b.split clean apart
          mine (rw same theirs))

  check_dimensions-All :
      (dimensions : List String)
      → check_dimensions units assignments dimensions ≡ ok tt
      → All (λ d. value_of d u ≡ value_of d v → a.split ≡ b.split) dimensions
  unfolding check_dimensions
  check_dimensions-All [] h = tt
  check_dimensions-All (d ∷ dimensions) h =
      let (_, rest) = then-eq-ok (raise_if (leaks units assignments d) leak) h in
      let clean : leaks units assignments d ≡ false =
        elim (Bool-cases (leaks units assignments d)) [
          | inl bad ↦ cc (rw bad at h)
          | inr good ↦ good
        ] in
      (one_split d clean, check_dimensions-All dimensions rest)

-- If a lock validates for a corpus, then any two of its assignments whose units have the same value in a
-- held-out dimension are to the same split.
pub validate_split_lock-All :
    (digests : Digests) (lock : SplitLock) (units : List SplitUnit) (a b : SplitAssignment)
    (u v : SplitUnit)
    → Mem a lock.assignments
    → Mem b lock.assignments
    → unit_of a.incident_id units ≡ some u
    → unit_of b.incident_id units ≡ some v
    → validate_split_lock digests lock units ≡ ok tt
    → All (λ d. value_of d u ≡ value_of d v → a.split ≡ b.split) lock.holdout_dimensions
unfolding validate_split_lock
validate_split_lock-All digests lock units a b u v ma mb fa fb h =
    let (_, h1) =
      then-eq-ok
        (raise_if (not (same_text (digests.corpus_hash (sort unit_less [] units)) lock.corpus_hash))
          wrong_corpus)
        h in
    let (_, h2) =
      then-eq-ok
        (raise_if
          (not (
            is_subset (map assigned_id lock.assignments) (map unit_id units)
            && is_subset (map unit_id units) (map assigned_id lock.assignments)))
          not_covered)
        h1 in
    let (found, _, h3) = bind-eq-ok (components units lock.holdout_dimensions) _ h2 in
    let (_, h4) = then-eq-ok (raise_if (ltb (length found) 3) infeasible) h3 in
    let (_, h5) = then-eq-ok (check_components digests lock.assignments found) h4 in
    let (_, h6) =
      then-eq-ok (raise_if (not (is_count lock.split_counts lock.assignments)) wrong_counts) h5 in
    let (_, h7) = then-eq-ok (raise_if (has_empty_split lock.assignments) empty_split) h6 in
    check_dimensions-All units lock.assignments a b u v ma mb fa fb lock.holdout_dimensions h7

module _ {Float : Type 0} (floats : SplitFloats Float) (digests : Digests) where
  freeze_group_split-validates :
      (units : List SplitUnit) (seed : String) (dimensions : List String)
      (fractions : Fractions Float) (lock : SplitLock)
      → freeze_group_split floats digests units seed dimensions fractions ≡ ok lock
      → (validate_split_lock digests lock units ≡ ok tt) × (lock.holdout_dimensions ≡ dimensions)
  unfolding freeze_group_split locked
  freeze_group_split-validates units seed dimensions fractions lock h =
      let (_, h1) = then-eq-ok (raise_if (bad_parts floats digests fractions) bad_fractions) h in
      let (_, h2) =
        then-eq-ok (raise_if (not (all_distinct (map unit_id units))) duplicate_incidents) h1 in
      let (found, _, h3) = bind-eq-ok (components units dimensions) _ h2 in
      let (_, h4) = then-eq-ok (raise_if (ltb (length found) 3) infeasible) h3 in
      let made = locked floats digests units seed dimensions fractions found in
      let (_, h5) = then-eq-ok (validate_lock_model made) h4 in
      let (valid, h6) = then-eq-ok (validate_split_lock digests made units) h5 in
      let same : made ≡ lock = cc h6 in
      (
        subst (λ l. validate_split_lock digests l units ≡ ok tt) same valid,
        subst (λ l. l.holdout_dimensions ≡ dimensions) same refl,
      )

  -- If a group split of a corpus freezes, for any floats and digests, then any two assignments of the
  -- lock whose units have the same value in a dimension that was to be held out are to the same split.
  pub freeze_group_split-All :
      (units : List SplitUnit) (seed : String) (dimensions : List String)
      (fractions : Fractions Float) (lock : SplitLock) (a b : SplitAssignment) (u v : SplitUnit)
      → freeze_group_split floats digests units seed dimensions fractions ≡ ok lock
      → Mem a lock.assignments
      → Mem b lock.assignments
      → unit_of a.incident_id units ≡ some u
      → unit_of b.incident_id units ≡ some v
      → All (λ d. value_of d u ≡ value_of d v → a.split ≡ b.split) dimensions
  freeze_group_split-All units seed dimensions fractions lock a b u v h ma mb fa fb =
      let (valid, same) = freeze_group_split-validates units seed dimensions fractions lock h in
      subst (All (λ d. value_of d u ≡ value_of d v → a.split ≡ b.split)) same
        (validate_split_lock-All digests lock units a b u v ma mb fa fb valid)
