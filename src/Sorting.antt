-- ===== src/Sorting.antt =====
-- Python's stable sort, and the order of its texts.
use inbar.Prelude.{
  ℕ, ltb, ◌==◌, ◌||◌, ◌&&◌, List, [], ◌∷◌, Bool, true, false, ◌≡◌, ◌≢◌, refl, if◌then◌else◌, All,
  Bool-cases, inl, inr, arith,
}

-- `str` is compared by code points.
unfoldable pub codes_less : List ℕ → List ℕ → Bool
codes_less [] [] = false
codes_less [] (d ∷ ds) = true
codes_less (c ∷ cs) [] = false
codes_less (c ∷ cs) (d ∷ ds) = ltb c d || (c == d) && codes_less cs ds

pub codes_less-irreflexive : (cs : List ℕ) → codes_less cs cs ≡ false
unfolding codes_less
codes_less-irreflexive [] = refl
codes_less-irreflexive (c ∷ cs) = ground (arith, codes_less-irreflexive cs)

pub codes_less-transitive :
    (xs ys zs : List ℕ)
    → codes_less xs ys ≡ true
    → codes_less ys zs ≡ true
    → codes_less xs zs ≡ true
unfolding codes_less
codes_less-transitive [] [] zs h k = cc
codes_less-transitive [] (b ∷ ys) [] h k = cc
codes_less-transitive [] (b ∷ ys) (c ∷ zs) h k = refl
codes_less-transitive (a ∷ xs) [] zs h k = cc
codes_less-transitive (a ∷ xs) (b ∷ ys) [] h k = cc
codes_less-transitive (a ∷ xs) (b ∷ ys) (c ∷ zs) h k =
    ground (arith, codes_less-transitive xs ys zs)

module _ {A : Type 0} (precedes : A → A → Bool) where
  -- Behind those that do not come later.
  unfoldable pub insert : A → List A → List A
  insert x [] = x ∷ []
  insert x (y ∷ ys) = let rest = insert x ys in if precedes x y then x ∷ y ∷ ys else y ∷ rest

  unfoldable pub sort : List A → List A → List A
  sort sorted [] = sorted
  sort sorted (x ∷ xs) = sort (insert x sorted) xs

  insert-All : (P : A → Type 0) (x : A) (ys : List A) → P x → All P ys → All P (insert x ys)
  unfolding insert
  insert-All P x [] p h = (p, tt)
  insert-All P x (y ∷ ys) p (q, h) = elim (Bool-cases (precedes x y)) [
    | inl b ↦ rw b (p, (q, h))
    | inr b ↦ rw b (q, insert-All P x ys p h)
  ]

  -- Sorting keeps what all elements satisfy.
  pub sort-All :
      (P : A → Type 0) (sorted xs : List A) → All P sorted → All P xs → All P (sort sorted xs)
  unfolding sort
  sort-All P sorted [] h k = h
  sort-All P sorted (x ∷ xs) h (p, k) =
      sort-All P (insert x sorted) xs (insert-All P x sorted p h) k

  insert-All-back : (P : A → Type 0) (x : A) (ys : List A) → All P (insert x ys) → P x × All P ys
  unfolding insert
  insert-All-back P x [] (p, h) = (p, tt)
  insert-All-back P x (y ∷ ys) h = elim (Bool-cases (precedes x y)) [
    | inl b ↦ rw b at h
    | inr b ↦
        let (q, rest) : P y × All P (insert x ys) = rw b at h in
        let (p, others) = insert-All-back P x ys rest in (p, (q, others))
  ]

  -- What all elements of the sorted list satisfy, all elements satisfied before.
  pub sort-All-back :
      (P : A → Type 0) (sorted xs : List A) → All P (sort sorted xs) → All P sorted × All P xs
  unfolding sort
  sort-All-back P sorted [] h = (h, tt)
  sort-All-back P sorted (x ∷ xs) h =
      let (first, rest) = sort-All-back P (insert x sorted) xs h in
      let (p, old) = insert-All-back P x sorted first in (old, (p, rest))

  -- No element of `zs` precedes the first of the sorted list.
  abbrev LeastOf : List A → List A → Type 0
  LeastOf [] zs = zs ≡ []
  LeastOf (y ∷ ys) zs = All (λ z. precedes z y ≡ false) zs

  module _ (irreflexive : (x : A) → precedes x x ≡ false)
      (transitive : (x y z : A)
        → precedes x y ≡ true
        → precedes y z ≡ true
        → precedes x z ≡ true) where
    lower :
        (x y : A) (zs : List A)
        → precedes x y ≡ true
        → All (λ z. precedes z y ≡ false) zs
        → All (λ z. precedes z x ≡ false) zs
    lower x y [] b h = tt
    lower x y (z ∷ zs) b (n, h) = (
      elim (Bool-cases (precedes z x)) [ inl c ↦ absurd (cc (transitive z x y c b)) | inr c ↦ c ],
      lower x y zs b h,
    )

    LeastOf-insert : (x : A) (ys zs : List A) → LeastOf ys zs → LeastOf (insert x ys) (x ∷ zs)
    unfolding insert
    LeastOf-insert x [] zs h = rw h (irreflexive x, tt)
    LeastOf-insert x (y ∷ ys) zs h = elim (Bool-cases (precedes x y)) [
      | inl b ↦ rw b (irreflexive x, lower x y zs b h)
      | inr b ↦ rw b (b, h)
    ]

    -- No element precedes the first of the sorted list.
    pub sort-first :
        (sorted zs xs : List A) (y : A) (ys : List A)
        → LeastOf sorted zs
        → sort sorted xs ≡ y ∷ ys
        → All (λ z. precedes z y ≡ false) zs × All (λ z. precedes z y ≡ false) xs
    unfolding sort
    sort-first sorted zs [] y ys h e = (rw e at h, tt)
    sort-first sorted zs (x ∷ xs) y ys h e =
        let ((first, old), rest) =
          sort-first (insert x sorted) (x ∷ zs) xs y ys (LeastOf-insert x sorted zs h) e in
        (old, (first, rest))

insert-nonempty :
    {A : Type 0} (precedes : A → A → Bool) (x : A) (ys : List A) → insert precedes x ys ≢ []
unfolding insert
insert-nonempty precedes x [] e = cc
insert-nonempty precedes x (y ∷ ys) e = elim (Bool-cases (precedes x y)) [
  | inl b ↦ cc (rw b at e)
  | inr b ↦ cc (rw b at e)
]

-- Only nothing sorts to nothing.
pub sort-empty :
    {A : Type 0} (precedes : A → A → Bool) (sorted xs : List A)
    → sort precedes sorted xs ≡ []
    → (sorted ≡ []) × (xs ≡ [])
unfolding sort
sort-empty precedes sorted [] h = (h, refl)
sort-empty precedes sorted (x ∷ xs) h =
    absurd
      (insert-nonempty precedes x sorted (sort-empty precedes (insert precedes x sorted) xs h).0)
