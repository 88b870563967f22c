-- ===== src/Canonical/Order.antt =====
-- The order in which sets and mappings are iterated, in src/fieldtrue/canonical.py.
use inbar.Prelude.{ℕ, List, [], ◌∷◌, ◌≡◌, refl, sym, ap, subst, ◌∙◌, true, ok, bind-eq-ok}
use inbar.Sorting.{codes_less, insert, sort}
use inbar.Canonical.{
  Normal, array, object, Items, nil, cons, Fields, field, text_key, other_key, Value, model,
  mapping, set_value, sequence, Values, value, Entries, entry,
}
use inbar.Canonical.Encode.{
  dumps, sort_items, normalize, normalize_values, normalize_entries, canonical_json,
}
use inbar.Canonical.Same.{
  SameValue, same, in_model, in_enum, in_mapping, in_set, in_sequence, SameSequence, none_left,
  one_more, SameSet, no_member, member, other_way, then_set, SameEntries, no_entry, same_key,
  swapped, then_entries, values_inverse, values_ok, entries_inverse, entries_ok,
}
use inbar.Canonical.Injective.{canonical_json-dumps, canonical_json-inverse}
use inbar.Canonical.Compose.{
  texts, texts-sort_items, dumps-array, dumps-object, join, join_pairs, pairs, sort_pairs,
  insert-swap, insert_pair-swap,
}

-- What two values in the relation have in common, once the first is normalized
abbrev SameDumps : Value → Normal → Type 0
SameDumps w j = (k : Normal) × (normalize w ≡ ok k) × (dumps j ≡ dumps k)

abbrev SameTexts : Values → Items → Type 0
SameTexts ws xs = (ys : Items) × (normalize_values ws ≡ ok ys) × (texts xs ≡ texts ys)

abbrev SameSorted : Values → Items → Type 0
SameSorted ws xs =
    (ys : Items) × (normalize_values ws ≡ ok ys)
    × ((ts : List (List ℕ)) → sort codes_less ts (texts xs) ≡ sort codes_less ts (texts ys))

abbrev SamePairs : Entries → Fields → Type 0
SamePairs fs xs =
    (ys : Fields) × (normalize_entries fs ≡ ok ys) × (sort_pairs (pairs xs) ≡ sort_pairs (pairs ys))

model_dumps : (w : Value) (j : Normal) → SameDumps w j → SameDumps (model w) j
unfolding normalize
model_dumps w j h = h

set_dumps :
    (ws : Values) (xs : Items)
    → SameSorted ws xs
    → SameDumps (set_value ws) (array (sort_items nil xs))
unfolding normalize
set_dumps ws xs (ys, n, e) =
    let sorted_alike = texts-sort_items nil xs ∙ (e [] ∙ sym (texts-sort_items nil ys)) in
    (
      array (sort_items nil ys),
      rw n refl,
      dumps-array (sort_items nil xs)
          ∙ (ap (λ ts. b'[' ∷ join true ts) sorted_alike ∙ sym (dumps-array (sort_items nil ys))),
    )

sequence_dumps : (ws : Values) (xs : Items) → SameTexts ws xs → SameDumps (sequence ws) (array xs)
unfolding normalize
sequence_dumps ws xs (ys, n, e) = (
  array ys,
  rw n refl,
  dumps-array xs ∙ (ap (λ ts. b'[' ∷ join true ts) e ∙ sym (dumps-array ys)),
)

mapping_dumps : (fs : Entries) (xs : Fields) → SamePairs fs xs → SameDumps (mapping fs) (object xs)
unfolding normalize
mapping_dumps fs xs (ys, n, e) = (
  object ys,
  rw n refl,
  dumps-object xs ∙ (ap (λ ps. b'{' ∷ join_pairs true ps) e ∙ sym (dumps-object ys)),
)

mutual
  unfolding normalize sort sort_pairs

  normalize-SameDumps :
      {v w : Value} → SameValue v w → (j : Normal) → normalize v ≡ ok j → SameDumps w j
  normalize-SameDumps (same v) j n = (j, n, refl)
  normalize-SameDumps (in_model s) j n = normalize-SameDumps s j n
  normalize-SameDumps (in_enum s) j n = normalize-SameDumps s j n
  normalize-SameDumps (in_mapping {es} {fs} s) j n =
      let (xs, m, e) = bind-eq-ok (normalize_entries es) (λ xs. ok (object xs)) n in
      let all : object xs ≡ j = cc e in
      subst (SameDumps (mapping fs)) all (mapping_dumps fs xs (normalize_entries-SamePairs s xs m))
  normalize-SameDumps (in_set {vs} {ws} s) j n =
      let (xs, m, e) = bind-eq-ok (normalize_values vs) (λ xs. ok (array (sort_items nil xs))) n in
      let all : array (sort_items nil xs) ≡ j = cc e in
      subst (SameDumps (set_value ws)) all (set_dumps ws xs (normalize_values-SameSorted s xs m))
  normalize-SameDumps (in_sequence {vs} {ws} s) j n =
      let (xs, m, e) = bind-eq-ok (normalize_values vs) (λ xs. ok (array xs)) n in
      let all : array xs ≡ j = cc e in
      subst (SameDumps (sequence ws)) all (sequence_dumps ws xs (normalize_values-SameTexts s xs m))

  normalize_values-SameTexts :
      {vs ws : Values}
      → SameSequence vs ws
      → (xs : Items) → normalize_values vs ≡ ok xs
      → SameTexts ws xs
  normalize_values-SameTexts none_left xs n = (xs, n, refl)
  normalize_values-SameTexts (one_more {v} {w} {vs} {ws} s t) xs n =
      let (x, others, first, rest, all) = values_inverse v vs n in
      let (y, n_y, same_first) = normalize-SameDumps s x first in
      let (ys, n_ys, same_rest) = normalize_values-SameTexts t others rest in
      (cons y ys, values_ok w ws n_y n_ys, ap texts (sym all) ∙ cc (same_first, same_rest))

  normalize_values-SameSorted :
      {vs ws : Values}
      → SameSet vs ws
      → (xs : Items) → normalize_values vs ≡ ok xs
      → SameSorted ws xs
  normalize_values-SameSorted no_member xs n = (xs, n, λ ts. refl)
  normalize_values-SameSorted (member {v} {w} {vs} {ws} s t) xs n =
      let (x, others, first, rest, all) = values_inverse v vs n in
      let (y, n_y, same_first) = normalize-SameDumps s x first in
      let (ys, n_ys, same_rest) = normalize_values-SameSorted t others rest in
      (
        cons y ys,
        values_ok w ws n_y n_ys,
        λ ts.
            ap (λ zs. sort codes_less ts (texts zs)) (sym all)
            ∙ (same_rest (insert codes_less (dumps x) ts)
                ∙ ap (λ d. sort codes_less (insert codes_less d ts) (texts ys)) same_first),
      )
  normalize_values-SameSorted (other_way v w vs) xs n =
      let (x, behind, n_x, n_behind, all) = values_inverse v (value w vs) n in
      let (y, others, n_y, rest, all_behind) = values_inverse w vs n_behind in
      (
        cons y (cons x others),
        values_ok w (value v vs) n_y (values_ok v vs n_x rest),
        λ ts.
            ap (λ zs. sort codes_less ts (texts zs)) (sym all ∙ ap (cons x) (sym all_behind))
            ∙ ap (λ us. sort codes_less us (texts others)) (insert-swap (dumps y) (dumps x) ts),
      )
  normalize_values-SameSorted (then_set s t) xs n =
      let (ys, n_ys, same_ys) = normalize_values-SameSorted s xs n in
      let (zs, n_zs, same_zs) = normalize_values-SameSorted t ys n_ys in
      (zs, n_zs, λ ts. same_ys ts ∙ same_zs ts)

  normalize_entries-SamePairs :
      {es fs : Entries}
      → SameEntries es fs
      → (xs : Fields) → normalize_entries es ≡ ok xs
      → SamePairs fs xs
  normalize_entries-SamePairs no_entry xs n = (xs, n, refl)
  normalize_entries-SamePairs (same_key other_key s t) xs n = cc n
  normalize_entries-SamePairs (same_key (text_key k) {v} {w} {es} {fs} s t) xs n =
      let (x, others, first, rest, all) = entries_inverse k v es n in
      let (y, n_y, same_first) = normalize-SameDumps s x first in
      let (ys, n_ys, same_rest) = normalize_entries-SamePairs t others rest in
      (
        field k y ys,
        entries_ok k w fs n_y n_ys,
        ap (λ zs. sort_pairs (pairs zs)) (sym all) ∙ cc (same_first, same_rest),
      )
  normalize_entries-SamePairs (swapped k l v w es d) xs n =
      let (x, behind, n_x, n_behind, all) = entries_inverse k v (entry (text_key l) w es) n in
      let (y, others, n_y, rest, all_behind) = entries_inverse l w es n_behind in
      (
        field l y (field k x others),
        entries_ok l w (entry (text_key k) v es) n_y (entries_ok k v es n_x rest),
        ap (λ zs. sort_pairs (pairs zs)) (sym all ∙ ap (field k x) (sym all_behind))
            ∙ insert_pair-swap k l (dumps x) (dumps y) (sort_pairs (pairs others)) d,
      )
  normalize_entries-SamePairs (then_entries s t) xs n =
      let (ys, n_ys, same_ys) = normalize_entries-SamePairs s xs n in
      let (zs, n_zs, same_zs) = normalize_entries-SamePairs t ys n_ys in
      (zs, n_zs, same_ys ∙ same_zs)

-- Of two values that differ, at any depth, in the order in which their sets and mappings are iterated,
-- the second has the canonical JSON of the first when the first has one.
pub canonical_json-SameValue :
    (v w : Value) (bytes : List ℕ)
    → SameValue v w
    → canonical_json v ≡ ok bytes
    → canonical_json w ≡ ok bytes
canonical_json-SameValue v w bytes s h =
    let (j, n, written) = canonical_json-inverse v h in
    let (k, m, alike) = normalize-SameDumps s j n in
    canonical_json-dumps w k m ∙ ap ok (sym alike ∙ written)
