-- ===== src/Canonical/Same.antt =====
-- Values of src/fieldtrue/canonical.py that are iterated in different orders, and what the steps of
-- `_normalize` over a container return.
use inbar.Prelude.{ℕ, List, ◌≡◌, ◌≢◌, refl, ok, ◌>>=◌, bind-eq-ok}
use inbar.Canonical.{
  Normal, Items, cons, Fields, field, Key, text_key, Value, model, enum, mapping, set_value,
  sequence, Values, no_values, value, Entries, no_entries, entry,
}
use inbar.Canonical.Encode.{normalize, normalize_values, normalize_entries}

-- Values that differ, at any depth, in the order in which their sets and mappings are iterated
mutual
  pub data SameValue : Value → Value → Type 0 where
    same : (v : Value) → SameValue v v
    in_model : {v w : Value} → SameValue v w → SameValue (model v) (model w)
    in_enum : {v w : Value} → SameValue v w → SameValue (enum v) (enum w)
    in_mapping : {es fs : Entries} → SameEntries es fs → SameValue (mapping es) (mapping fs)
    in_set : {vs ws : Values} → SameSet vs ws → SameValue (set_value vs) (set_value ws)
    in_sequence : {vs ws : Values} → SameSequence vs ws → SameValue (sequence vs) (sequence ws)

  pub data SameSequence : Values → Values → Type 0 where
    none_left : SameSequence no_values no_values
    one_more :
        {v w : Value} {vs ws : Values}
        → SameValue v w
        → SameSequence vs ws
        → SameSequence (value v vs) (value w ws)

  pub data SameSet : Values → Values → Type 0 where
    no_member : SameSet no_values no_values
    member :
        {v w : Value} {vs ws : Values}
        → SameValue v w
        → SameSet vs ws
        → SameSet (value v vs) (value w ws)
    other_way : (v w : Value) (vs : Values) → SameSet (value v (value w vs)) (value w (value v vs))
    then_set : {us vs ws : Values} → SameSet us vs → SameSet vs ws → SameSet us ws

  pub data SameEntries : Entries → Entries → Type 0 where
    no_entry : SameEntries no_entries no_entries
    same_key :
        (k : Key) {v w : Value} {es fs : Entries}
        → SameValue v w
        → SameEntries es fs
        → SameEntries (entry k v es) (entry k w fs)
    swapped :
        (k l : List ℕ) (v w : Value) (es : Entries)
        → k ≢ l
        → SameEntries
            (entry (text_key k) v (entry (text_key l) w es))
            (entry (text_key l) w (entry (text_key k) v es))
    then_entries : {es fs gs : Entries} → SameEntries es fs → SameEntries fs gs → SameEntries es gs

pub values_inverse :
    (v : Value) (vs : Values) {xs : Items}
    → normalize_values (value v vs) ≡ ok xs
    → (x : Normal) × (others : Items) × (normalize v ≡ ok x)
      × (normalize_values vs ≡ ok others)
      × (cons x others ≡ xs)
unfolding normalize
values_inverse v vs n =
    let (x, first, behind) =
      bind-eq-ok (normalize v) (λ x. normalize_values vs >>= (λ xs. ok (cons x xs))) n in
    let (others, rest, e) = bind-eq-ok (normalize_values vs) (λ xs. ok (cons x xs)) behind in
    (x, others, first, rest, cc e)

pub values_ok :
    (w : Value) (ws : Values) {y : Normal} {ys : Items}
    → normalize w ≡ ok y
    → normalize_values ws ≡ ok ys
    → normalize_values (value w ws) ≡ ok (cons y ys)
unfolding normalize
values_ok w ws h i = rw (h, i) refl

pub entries_inverse :
    (k : List ℕ) (v : Value) (es : Entries) {xs : Fields}
    → normalize_entries (entry (text_key k) v es) ≡ ok xs
    → (x : Normal) × (others : Fields) × (normalize v ≡ ok x)
      × (normalize_entries es ≡ ok others)
      × (field k x others ≡ xs)
unfolding normalize
entries_inverse k v es n =
    let (x, first, behind) =
      bind-eq-ok (normalize v) (λ x. normalize_entries es >>= (λ xs. ok (field k x xs))) n in
    let (others, rest, e) = bind-eq-ok (normalize_entries es) (λ xs. ok (field k x xs)) behind in
    (x, others, first, rest, cc e)

pub entries_ok :
    (k : List ℕ) (w : Value) (fs : Entries) {y : Normal} {ys : Fields}
    → normalize w ≡ ok y
    → normalize_entries fs ≡ ok ys
    → normalize_entries (entry (text_key k) w fs) ≡ ok (field k y ys)
unfolding normalize
entries_ok k w fs h i = rw (h, i) refl
