-- ===== src/Tree/Best.antt =====
-- The split that `_fit_element` of src/fieldtrue/shortcut_v2_tree.py chooses is the best one.
use mathlib.Core.List.{mem-cons_self, mem-cons_of_mem}
use inbar.Prelude.{
  ℕ, ◌+◌, ◌*◌, ◌<◌, List, [], ◌∷◌, map, Mem, true, false, ◌≡◌, refl, sym, ◌∙◌, arith, ok,
  bind-eq-ok, then-eq-ok, Option, none, some, Bool-cases, inl, inr, ◌⊎◌, All, raise_if, ◌==◌, ◌||◌,
}
use inbar.Rational.{Fraction, fraction, add, multiply, fraction-IsValue}
use inbar.Tree.{Hashes, ClassCount, TreePredicate, empty_child}
use inbar.Tree.Counts.{total, counter}
use inbar.Tree.Gini.{exact_gini, weighted_gini, exact_gini-IsValue}
use inbar.Tree.Fit.{
  TrainingExample, example_target, Candidate, precedes, better, divide, is_admissible, score_of,
  consider, best_split,
}
use inbar.Tree.Order.{precedes-irreflexive, precedes-transitive}

product_pos : (a b : ℕ) → 0 < a → 0 < b → 0 < a * b
product_pos a b ha hb = grind arith

add_pos : (a b : Fraction) → 0 < a.denominator → 0 < b.denominator → 0 < (add a b).denominator
unfolding add
add_pos a b ha hb = (fraction-IsValue _ _ (product_pos _ _ ha hb)).1

multiply_pos :
    (a b : Fraction) → 0 < a.denominator → 0 < b.denominator → 0 < (multiply a b).denominator
unfolding multiply
multiply_pos a b ha hb = (fraction-IsValue _ _ (product_pos _ _ ha hb)).1

fraction_pos : (n d : ℕ) → 0 < d → 0 < (fraction n d).denominator
fraction_pos n d h = (fraction-IsValue n d h).1

weighted_gini_pos :
    (cs ds : List ClassCount) (f : Fraction) → weighted_gini cs ds ≡ ok f → 0 < f.denominator
unfolding weighted_gini
weighted_gini_pos cs ds f h =
    let (guarded, h1) = then-eq-ok (raise_if ((total cs == 0) || (total ds == 0)) empty_child) h in
    let (g, first, h2) = bind-eq-ok (exact_gini cs) _ h1 in
    let (k, second, h3) = bind-eq-ok (exact_gini ds) _ h2 in
    let some_counted : 0 < total cs + total ds = ground arith in
    let positive =
      multiply_pos (add (multiply (fraction (total cs) 1) g) (multiply (fraction (total ds) 1) k))
        (fraction 1 (total cs + total ds))
        (add_pos _ _
          (multiply_pos _ _ (fraction_pos (total cs) 1 (omega arith))
            (exact_gini-IsValue cs g first).1)
          (multiply_pos _ _ (fraction_pos (total ds) 1 (omega arith))
            (exact_gini-IsValue ds k second).1))
        (fraction_pos 1 (total cs + total ds) some_counted) in
    let same : multiply
          (add (multiply (fraction (total cs) 1) g) (multiply (fraction (total ds) 1) k))
          (fraction 1 (total cs + total ds))
        ≡ f =
      cc h3 in
    rw (← same) positive

module _ (hashes : Hashes) (examples : List TrainingExample) where
  -- A split that the loop may take: its parts are those of its predicate and each has at least two
  -- incidents, and its score is theirs.
  pub record IsCandidate (c : Candidate hashes) : Type 0 where
    pub divided : divide hashes c.predicate examples ≡ ok c.parts
    pub admissible : is_admissible hashes c.parts ≡ true
    pub scored : score_of hashes c.parts ≡ ok c.score

  IsCandidate-pos : (c : Candidate hashes) → IsCandidate c → 0 < c.score.denominator
  unfolding score_of
  IsCandidate-pos c h =
      weighted_gini_pos (counter [] (map example_target c.parts.false_examples))
        (counter [] (map example_target c.parts.true_examples)) c.score h.scored

  -- `c` does not come before the best.
  abbrev pub IsBeaten : Candidate hashes → Option (Candidate hashes) → Type 0
  IsBeaten c none = ⊥
  IsBeaten c (some best) = precedes hashes c best ≡ false

  abbrev AllSome : (Candidate hashes → Type 0) → Option (Candidate hashes) → Type 0
  AllSome Q none = Unit
  AllSome Q (some best) = Q best

  -- A round leaves the best alone if the predicate is no candidate, else it compares the two.
  consider-cases :
      (p : TreePredicate) (best next : Option (Candidate hashes))
      → consider hashes examples p best ≡ ok next
      → ((next ≡ best) × ((c : Candidate hashes) → c.predicate ≡ p → ¬ IsCandidate c))
        ⊎ ((made : Candidate hashes) × (made.predicate ≡ p)
            × IsCandidate made
            × (next ≡ better hashes made best))
  unfolding consider
  consider-cases p best next h =
      let (parts, split, h1) = bind-eq-ok (divide hashes p examples) _ h in
      elim (Bool-cases (is_admissible hashes parts)) [
        | inr small ↦
            let same = rw small at h1 in
            inl (
              cc same,
              (λ c e k.
                  let mine = k.divided in
                  let mine' : divide hashes p examples ≡ ok c.parts = rw e at mine in
                  let parts_same : c.parts ≡ parts = cc (mine', split) in
                  let fine = k.admissible in
                  let fine' : is_admissible hashes parts ≡ true = rw parts_same at fine in
                  cc (fine', small)),
            )
        | inl large ↦
            let h2 = rw large at h1 in
            let (score, scored, h3) = bind-eq-ok (score_of hashes parts) _ h2 in
            inr (
              record { score = score; predicate = p; parts = parts },
              refl,
              record { divided = split; admissible = large; scored = scored },
              cc h3,
            )
      ]

  IsBeaten-better :
      (c made : Candidate hashes) (best : Option (Candidate hashes))
      → IsCandidate c
      → IsCandidate made
      → AllSome IsCandidate best
      → IsBeaten c best
      → IsBeaten c (better hashes made best)
  IsBeaten-better c made none hc hm hb beaten = absurd beaten
  IsBeaten-better c made (some best) hc hm hb beaten =
      elim (Bool-cases (precedes hashes made best)) [
        | inr later ↦ rw later beaten
        | inl first ↦ rw first (elim (Bool-cases (precedes hashes c made)) [
          | inr n ↦ n
          | inl y ↦
              let through =
                precedes-transitive hashes c made best (IsCandidate-pos c hc)
                  (IsCandidate-pos made hm) (IsCandidate-pos best hb) y first in
              cc (through, beaten)
        ])
      ]

  AllSome-better :
      (Q : Candidate hashes → Type 0) (made : Candidate hashes) (best : Option (Candidate hashes))
      → Q made
      → AllSome Q best
      → AllSome Q (better hashes made best)
  AllSome-better Q made none q h = q
  AllSome-better Q made (some best) q h = elim (Bool-cases (precedes hashes made best)) [
    | inl first ↦ rw first q
    | inr later ↦ rw later h
  ]

  best_split-AllSome :
      (Q : Candidate hashes → Type 0) (ps : List TreePredicate) (best o : Option (Candidate hashes))
      → best_split hashes examples ps best ≡ ok o
      → All (λ p. (c : Candidate hashes) → c.predicate ≡ p → IsCandidate c → Q c) ps
      → AllSome Q best
      → AllSome Q o
  unfolding best_split
  best_split-AllSome Q [] best o h all q = let same : best ≡ o = cc h in rw (← same) q
  best_split-AllSome Q (p ∷ ps) best o h (this, all) q =
      let (next, round, h1) = bind-eq-ok (consider hashes examples p best) _ h in
      best_split-AllSome Q ps next o h1 all (elim (consider-cases p best next round) [
        | inl (same, none_made) ↦ rw same q
        | inr (made, e, is, same) ↦ rw same (AllSome-better Q made best (this made e is) q)
      ])

  best_split-IsBeaten :
      (c : Candidate hashes) (ps : List TreePredicate) (best o : Option (Candidate hashes))
      → best_split hashes examples ps best ≡ ok o
      → IsCandidate c
      → AllSome IsCandidate best
      → IsBeaten c best
      → IsBeaten c o
  unfolding best_split
  best_split-IsBeaten c [] best o h hc hb beaten = let same : best ≡ o = cc h in rw (← same) beaten
  best_split-IsBeaten c (p ∷ ps) best o h hc hb beaten =
      let (next, round, h1) = bind-eq-ok (consider hashes examples p best) _ h in
      elim (consider-cases p best next round) [
        | inl (same, none_made) ↦
            best_split-IsBeaten c ps next o h1 hc (rw same hb) (rw same beaten)
        | inr (made, e, is, same) ↦
            best_split-IsBeaten c ps next o h1 hc
              (rw same (AllSome-better IsCandidate made best is hb))
              (rw same (IsBeaten-better c made best hc is hb beaten))
      ]

  IsBeaten-level :
      (c made : Candidate hashes) (best : Option (Candidate hashes))
      → ((d : Candidate hashes) → precedes hashes made d ≡ precedes hashes c d)
      → precedes hashes c made ≡ false
      → IsBeaten c (better hashes made best)
  IsBeaten-level c made none level itself = itself
  IsBeaten-level c made (some best) level itself = elim (Bool-cases (precedes hashes made best)) [
    | inl first ↦ rw first itself
    | inr later ↦ rw later (sym (level best) ∙ later)
  ]

  made-IsBeaten :
      (c made : Candidate hashes) (best : Option (Candidate hashes))
      → c.predicate ≡ made.predicate
      → IsCandidate c
      → IsCandidate made
      → IsBeaten c (better hashes made best)
  made-IsBeaten c made best e hc hm =
      let mine = hc.divided in
      let mine' : divide hashes made.predicate examples ≡ ok c.parts = rw (← e) mine in
      let theirs = hm.divided in
      let parts_same : c.parts ≡ made.parts = cc (mine', theirs) in
      let score = hc.scored in
      let score' : score_of hashes made.parts ≡ ok c.score = rw (← parts_same) score in
      let their_score = hm.scored in
      let score_same : c.score ≡ made.score = cc (score', their_score) in
      let level : (d : Candidate hashes) → precedes hashes made d ≡ precedes hashes c d =
        λ d. rw (e, score_same) refl in
      IsBeaten-level c made best level (sym (level made) ∙ precedes-irreflexive hashes made)

  -- Every candidate has been compared with the best.
  pub best_split-least :
      (ps : List TreePredicate) (best o : Option (Candidate hashes))
      → best_split hashes examples ps best ≡ ok o
      → AllSome IsCandidate best
      → All (λ p. (c : Candidate hashes) → c.predicate ≡ p → IsCandidate c → IsBeaten c o) ps
  unfolding best_split
  best_split-least [] best o h hb = tt
  best_split-least (p ∷ ps) best o h hb =
      let (next, round, h1) = bind-eq-ok (consider hashes examples p best) _ h in
      elim (consider-cases p best next round) [
        | inl (same, none_made) ↦
            (λ c e hc. absurd (none_made c e hc), best_split-least ps next o h1 (rw same hb))
        | inr (made, e, is, same) ↦
            let next_is : AllSome IsCandidate next =
              rw same (AllSome-better IsCandidate made best is hb) in
            (
              λ c e' hc.
                  best_split-IsBeaten c ps next o h1 hc next_is
                    (rw same (made-IsBeaten c made best (e' ∙ sym e) hc is)),
              best_split-least ps next o h1 next_is,
            )
      ]

  places :
      (Q : TreePredicate → Type 0) (ps : List TreePredicate)
      → ((p : TreePredicate) → Mem p ps → Q p)
      → All Q ps
  places Q [] h = tt
  places Q (p ∷ ps) h = (h p mem-cons_self, places Q ps (λ q m. h q (mem-cons_of_mem p m)))

  -- The best of a list of predicates is a candidate of one of them, and no candidate of any of them
  -- comes before it; there is none only if no predicate has a candidate.
  abbrev pub IsBestOf : List TreePredicate → Option (Candidate hashes) → Type 0
  IsBestOf ps o =
      AllSome (λ c. Mem c.predicate ps × IsCandidate c) o
      × All (λ p. (c : Candidate hashes) → c.predicate ≡ p → IsCandidate c → IsBeaten c o) ps

  pub best_split-IsBestOf :
      (ps : List TreePredicate) (o : Option (Candidate hashes))
      → best_split hashes examples ps none ≡ ok o
      → IsBestOf ps o
  best_split-IsBestOf ps o h = (
    best_split-AllSome (λ c. Mem c.predicate ps × IsCandidate c) ps none o h
        (places _ ps (λ p m c e is. (rw e m, is))) tt,
    best_split-least ps none o h tt,
  )
