-- ===== src/Canonical/Compose.antt =====
-- The canonical JSON of a container of src/fieldtrue/canonical.py, from the texts of what it contains.
use inbar.Prelude.{
  ℕ, List, [], ◌∷◌, ◌++◌, ◌≡◌, ◌≢◌, refl, sym, ap, ◌∙◌, arith, Bool, true, false, if◌then◌else◌,
  Bool-cases, inl, inr, ◌⊎◌, ltb, ◌==◌,
}
use inbar.Sorting.{codes_less, codes_less-irreflexive, codes_less-transitive, insert, sort}
use inbar.Canonical.{Normal, array, object, Items, nil, cons, Fields, end, field}
use inbar.Canonical.Text.{encode_text}
use inbar.Canonical.Encode.{
  insert_field, in_key_order, items_in_order, fields_in_order, separator, encode, encode_items,
  encode_fields, dumps, insert_item, sort_items,
}

abbrev pub texts : Items → List (List ℕ)
texts nil = []
texts (cons x xs) = dumps x ∷ texts xs

abbrev pub join : Bool → List (List ℕ) → List ℕ
join first [] = b']' ∷ []
join first (t ∷ ts) = separator first ++ (t ++ join false ts)

encode_items-texts :
    (first : Bool) (xs : Items) → encode_items first (items_in_order xs) ≡ join first (texts xs)
unfolding encode dumps in_key_order
encode_items-texts first nil = refl
encode_items-texts first (cons x xs) =
    ap (λ ts. separator first ++ (dumps x ++ ts)) (encode_items-texts false xs)

pub dumps-array : (xs : Items) → dumps (array xs) ≡ b'[' ∷ join true (texts xs)
unfolding dumps encode in_key_order
dumps-array xs = ap (λ ts. b'[' ∷ ts) (encode_items-texts true xs)

texts-insert_item :
    (x : Normal) (ys : Items) → texts (insert_item x ys) ≡ insert codes_less (dumps x) (texts ys)
unfolding insert_item insert
texts-insert_item x nil = refl
texts-insert_item x (cons y ys) = elim (Bool-cases (codes_less (dumps x) (dumps y))) [
  | inl before ↦ rw before refl
  | inr after ↦ rw after (ap (λ ts. dumps y ∷ ts) (texts-insert_item x ys))
]

pub texts-sort_items :
    (sorted xs : Items) → texts (sort_items sorted xs) ≡ sort codes_less (texts sorted) (texts xs)
unfolding sort_items sort
texts-sort_items sorted nil = refl
texts-sort_items sorted (cons x xs) =
    texts-sort_items (insert_item x sorted) xs
    ∙ ap (λ ts. sort codes_less ts (texts xs)) (texts-insert_item x sorted)

-- The text of each field behind its key
abbrev pub Pairs : Type 0
Pairs = List (List ℕ × List ℕ)

abbrev pub pairs : Fields → Pairs
pairs end = []
pairs (field k v fs) = (k, dumps v) ∷ pairs fs

abbrev encoded : Fields → Pairs
encoded end = []
encoded (field k v fs) = (k, encode v) ∷ encoded fs

unfoldable pub insert_pair : List ℕ → List ℕ → Pairs → Pairs
insert_pair k t [] = (k, t) ∷ []
insert_pair k t ((l, u) ∷ ps) =
    let rest = insert_pair k t ps in if codes_less l k then (l, u) ∷ rest else (k, t) ∷ (l, u) ∷ ps

unfoldable pub sort_pairs : Pairs → Pairs
unfolding insert_pair
sort_pairs [] = []
sort_pairs ((k, t) ∷ ps) = insert_pair k t (sort_pairs ps)

abbrev pub join_pairs : Bool → Pairs → List ℕ
join_pairs first [] = b'}' ∷ []
join_pairs first ((k, t) ∷ ps) =
    separator first ++ (encode_text k ++ (b':' ∷ t ++ join_pairs false ps))

encoded-insert_field :
    (k : List ℕ) (v : Normal) (fs : Fields)
    → encoded (insert_field k v fs) ≡ insert_pair k (encode v) (encoded fs)
unfolding insert_field insert_pair
encoded-insert_field k v end = refl
encoded-insert_field k v (field l w fs) = elim (Bool-cases (codes_less l k)) [
  | inl before ↦ rw before (ap (λ ps. (l, encode w) ∷ ps) (encoded-insert_field k v fs))
  | inr after ↦ rw after refl
]

encoded-fields_in_order : (fs : Fields) → encoded (fields_in_order fs) ≡ sort_pairs (pairs fs)
unfolding in_key_order sort_pairs dumps
encoded-fields_in_order end = refl
encoded-fields_in_order (field k v fs) =
    encoded-insert_field k (in_key_order v) (fields_in_order fs)
    ∙ ap (insert_pair k (dumps v)) (encoded-fields_in_order fs)

encode_fields-encoded :
    (first : Bool) (fs : Fields) → encode_fields first fs ≡ join_pairs first (encoded fs)
unfolding encode
encode_fields-encoded first end = refl
encode_fields-encoded first (field k v fs) =
    ap (λ ts. separator first ++ (encode_text k ++ (b':' ∷ encode v ++ ts)))
      (encode_fields-encoded false fs)

pub dumps-object :
    (fs : Fields) → dumps (object fs) ≡ b'{' ∷ join_pairs true (sort_pairs (pairs fs))
unfolding dumps encode in_key_order
dumps-object fs =
    ap (λ ts. b'{' ∷ ts)
      (encode_fields-encoded true (fields_in_order fs)
        ∙ ap (join_pairs true) (encoded-fields_in_order fs))

codes_less-cases :
    (xs ys : List ℕ) → (xs ≡ ys) ⊎ ((codes_less xs ys ≡ true) ⊎ (codes_less ys xs ≡ true))
unfolding codes_less
codes_less-cases [] [] = inl refl
codes_less-cases [] (y ∷ ys) = inr (inl refl)
codes_less-cases (x ∷ xs) [] = inr (inr refl)
codes_less-cases (x ∷ xs) (y ∷ ys) = elim (codes_less-cases xs ys) [
  | inl same ↦ elim (Bool-cases (x == y)) [
    | inl equal ↦ let first : x ≡ y = ground arith in inl (cc (first, same))
    | inr other ↦ elim (Bool-cases (ltb x y)) [
      | inl smaller ↦ inr (inl (ground arith))
      | inr larger ↦ inr (inr (ground arith))
    ]
  ]
  | inr (inl less) ↦ elim (Bool-cases (ltb y x)) [
    | inl larger ↦ inr (inr (ground arith))
    | inr smaller ↦ inr (inl (ground arith))
  ]
  | inr (inr more) ↦ elim (Bool-cases (ltb x y)) [
    | inl smaller ↦ inr (inl (ground arith))
    | inr larger ↦ inr (inr (ground arith))
  ]
]

codes_less-asymmetric : (xs ys : List ℕ) → codes_less xs ys ≡ true → codes_less ys xs ≡ false
codes_less-asymmetric xs ys h = elim (Bool-cases (codes_less ys xs)) [
  | inl back ↦
      let loop : codes_less xs xs ≡ true = codes_less-transitive xs ys xs h back in
      cc (loop, codes_less-irreflexive xs)
  | inr not_back ↦ not_back
]

insert-before :
    (t u : List ℕ) (ts : List (List ℕ))
    → codes_less t u ≡ true
    → insert codes_less t (insert codes_less u ts) ≡ insert codes_less u (insert codes_less t ts)
unfolding insert
insert-before t u [] h = rw (h, codes_less-asymmetric t u h) refl
insert-before t u (x ∷ ts) h =
    let back = codes_less-asymmetric t u h in
    elim (Bool-cases (codes_less u x)) [
      | inl before ↦ rw (before, codes_less-transitive t u x h before, h, back, before) refl
      | inr after ↦ elim (Bool-cases (codes_less t x)) [
        | inl first ↦ rw (after, first, back, after) refl
        | inr last ↦ rw (after, last, after) (ap (λ us. x ∷ us) (insert-before t u ts h))
      ]
    ]

-- Two texts are inserted in either order.
pub insert-swap :
    (t u : List ℕ) (ts : List (List ℕ))
    → insert codes_less t (insert codes_less u ts) ≡ insert codes_less u (insert codes_less t ts)
insert-swap t u ts = elim (codes_less-cases t u) [
  | inl same ↦ rw same refl
  | inr (inl before) ↦ insert-before t u ts before
  | inr (inr after) ↦ sym (insert-before u t ts after)
]

insert_pair-before :
    (k l t u : List ℕ) (ps : Pairs)
    → codes_less k l ≡ true
    → insert_pair k t (insert_pair l u ps) ≡ insert_pair l u (insert_pair k t ps)
unfolding insert_pair
insert_pair-before k l t u [] h = rw (h, codes_less-asymmetric k l h) refl
insert_pair-before k l t u ((m, w) ∷ ps) h =
    let back = codes_less-asymmetric k l h in
    elim (Bool-cases (codes_less m k)) [
      | inl first ↦
          rw (first, codes_less-transitive m k l first h, first)
            (ap (λ qs. (m, w) ∷ qs) (insert_pair-before k l t u ps h))
      | inr after ↦ elim (Bool-cases (codes_less m l)) [
        | inl between ↦ rw (after, between, after, h) refl
        | inr last ↦ rw (after, last, back, h) refl
      ]
    ]

-- Two fields with different keys are inserted in either order.
pub insert_pair-swap :
    (k l t u : List ℕ) (ps : Pairs)
    → k ≢ l
    → insert_pair k t (insert_pair l u ps) ≡ insert_pair l u (insert_pair k t ps)
insert_pair-swap k l t u ps h = elim (codes_less-cases k l) [
  | inl same ↦ absurd (h same)
  | inr (inl before) ↦ insert_pair-before k l t u ps before
  | inr (inr after) ↦ sym (insert_pair-before l k u t ps after)
]
