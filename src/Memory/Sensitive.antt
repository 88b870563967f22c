-- ===== src/Memory/Sensitive.antt =====
-- `_reject_sensitive_payload_keys` of src/fieldtrue/memory.py: no key of a payload, at any depth, may
-- name a secret.
use mathlib.Core.List.{reverse}
use inbar.Prelude.{
  ℕ, String, List, [], ◌∷◌, Bool, true, false, ◌≡◌, refl, ◌&&◌, ◌||◌, not, ◌==◌, codes, ok, err,
  Check, ◌>>◌, raise_if, Bool-cases, inl, inr, ◌⊎◌, subst, sym,
}
use inbar.Json.{
  Json, null, boolean, number, text, array, object, Items, nil, cons, Fields, end, field,
}
use inbar.Memory.{MemoryError, sensitive_field}

is_prefix : List ℕ → List ℕ → Bool
is_prefix [] s = true
is_prefix (c ∷ cs) [] = false
is_prefix (c ∷ cs) (d ∷ ds) = (c == d) && is_prefix cs ds

-- `needle in haystack`
is_infix : List ℕ → List ℕ → Bool
unfolding is_prefix
is_infix needle [] = is_prefix needle []
is_infix needle (c ∷ cs) = is_prefix needle (c ∷ cs) || is_infix needle cs

-- `text.endswith(suffix)`
is_suffix : List ℕ → List ℕ → Bool
unfolding is_prefix
is_suffix suffix s = is_prefix (reverse suffix) (reverse s)

any_infix : List String → List ℕ → Bool
unfolding is_infix
any_infix [] s = false
any_infix (t ∷ ts) s = is_infix (codes t) s || any_infix ts s

any_suffix : List String → List ℕ → Bool
unfolding is_suffix
any_suffix [] s = false
any_suffix (t ∷ ts) s = is_suffix (codes t) s || any_suffix ts s

abbrev pub sensitive_key_terms : List String
sensitive_key_terms =
    "credential" ∷ "hidden_label" ∷ "password" ∷ "private_key" ∷ "secret" ∷ "token" ∷ []

abbrev pub reference_suffixes : List String
reference_suffixes = "_ref" ∷ "_reference" ∷ "_hash" ∷ []

module _ (casefold : String → String) where
  unfoldable pub is_sensitive : String → Bool
  unfolding any_infix any_suffix
  is_sensitive key =
      let normalized = codes (casefold key) in
      not (any_suffix reference_suffixes normalized) && any_infix sensitive_key_terms normalized

  unfoldable mutual
    pub reject_sensitive_payload_keys : Json → Check MemoryError
    reject_sensitive_payload_keys (object fields) = reject_fields fields
    reject_sensitive_payload_keys (array items) = reject_items items
    reject_sensitive_payload_keys null = ok tt
    reject_sensitive_payload_keys (boolean b) = ok tt
    reject_sensitive_payload_keys (number n) = ok tt
    reject_sensitive_payload_keys (text s) = ok tt

    pub reject_items : Items → Check MemoryError
    reject_items nil = ok tt
    reject_items (cons item items) = do reject_sensitive_payload_keys item; reject_items items

    pub reject_fields : Fields → Check MemoryError
    reject_fields end = ok tt
    reject_fields (field key item fields) = do
      raise_if (is_sensitive key) sensitive_field
      reject_sensitive_payload_keys item
      reject_fields fields

-- `key` stands somewhere in the value.
mutual
  pub data Occurs (key : String) : Json → Type 0 where
    in_array : {xs : Items} → OccursItems key xs → Occurs key (array xs)
    in_object : {fs : Fields} → OccursFields key fs → Occurs key (object fs)

  pub data OccursItems (key : String) : Items → Type 0 where
    first : {x : Json} {xs : Items} → Occurs key x → OccursItems key (cons x xs)
    later : {x : Json} {xs : Items} → OccursItems key xs → OccursItems key (cons x xs)

  pub data OccursFields (key : String) : Fields → Type 0 where
    here : {k : String} {v : Json} {fs : Fields} → key ≡ k → OccursFields key (field k v fs)
    inside : {k : String} {v : Json} {fs : Fields} → Occurs key v → OccursFields key (field k v fs)
    behind :
        {k : String} {v : Json} {fs : Fields}
        → OccursFields key fs
        → OccursFields key (field k v fs)

from_array : {k : String} {xs : Items} → Occurs k (array xs) → OccursItems k xs
from_array (in_array o) = o

from_object : {k : String} {fs : Fields} → Occurs k (object fs) → OccursFields k fs
from_object (in_object o) = o

module _ {P : String → Type 0} where
  of_cons :
      {x : Json} {xs : Items} (k : String)
      → ((j : String) → Occurs j x → P j)
      → ((j : String) → OccursItems j xs → P j)
      → OccursItems k (cons x xs)
      → P k
  of_cons k at_first at_later (first o) = at_first k o
  of_cons k at_first at_later (later o) = at_later k o

  of_field :
      {key : String} {x : Json} {fs : Fields} (k : String)
      → P key
      → ((j : String) → Occurs j x → P j)
      → ((j : String) → OccursFields j fs → P j)
      → OccursFields k (field key x fs)
      → P k
  of_field k at_key at_inside at_behind (here e) = subst P (sym e) at_key
  of_field k at_key at_inside at_behind (inside o) = at_inside k o
  of_field k at_key at_inside at_behind (behind o) = at_behind k o

module _ (casefold : String → String) where
  -- The check returns and no occurring key is sensitive, or it raises and one is.
  abbrev pub Verdict : Check MemoryError → (String → Type 0) → Type 0
  Verdict check Occurring =
      ((check ≡ ok tt) × ((k : String) → Occurring k → is_sensitive casefold k ≡ false))
      ⊎ ((check ≡ err sensitive_field)
          × ((k : String) × Occurring k × (is_sensitive casefold k ≡ true)))

  mutual
    unfolding reject_sensitive_payload_keys reject_items reject_fields

    reject_json : (v : Json) → Verdict (reject_sensitive_payload_keys casefold v) (λ k. Occurs k v)
    reject_json null = inl (refl, λ k o. elim o [ ])
    reject_json (boolean b) = inl (refl, λ k o. elim o [ ])
    reject_json (number n) = inl (refl, λ k o. elim o [ ])
    reject_json (text s) = inl (refl, λ k o. elim o [ ])
    reject_json (array xs) = elim (reject_items_lem xs) [
      | inl (returned, clean) ↦ inl (returned, λ k o. clean k (from_array o))
      | inr (raised, (k, o, bad)) ↦ inr (raised, (k, in_array o, bad))
    ]
    reject_json (object fs) = elim (reject_fields_lem fs) [
      | inl (returned, clean) ↦ inl (returned, λ k o. clean k (from_object o))
      | inr (raised, (k, o, bad)) ↦ inr (raised, (k, in_object o, bad))
    ]

    reject_items_lem : (xs : Items) → Verdict (reject_items casefold xs) (λ k. OccursItems k xs)
    reject_items_lem nil = inl (refl, λ k o. elim o [ ])
    reject_items_lem (cons x xs) = elim (reject_json x) [
      | inr (raised, (k, o, bad)) ↦ inr (rw raised, (k, first o, bad))
      | inl (returned, clean) ↦ elim (reject_items_lem xs) [
        | inr (raised, (k, o, bad)) ↦ inr (rw returned raised, (k, later o, bad))
        | inl (rest, clean') ↦ inl (rw returned rest, λ k o. of_cons k clean clean' o)
      ]
    ]

    reject_fields_lem : (fs : Fields) → Verdict (reject_fields casefold fs) (λ k. OccursFields k fs)
    reject_fields_lem end = inl (refl, λ k o. elim o [ ])
    reject_fields_lem (field key x fs) = elim (Bool-cases (is_sensitive casefold key)) [
      | inl bad ↦ inr (rw bad, (key, here refl, bad))
      | inr good ↦ elim (reject_json x) [
        | inr (raised, (k, o, bad)) ↦ inr (rw (good, raised), (k, inside o, bad))
        | inl (returned, clean) ↦ elim (reject_fields_lem fs) [
          | inr (raised, (k, o, bad)) ↦ inr (rw (good, returned) raised, (k, behind o, bad))
          | inl (rest, clean') ↦
              inl (rw (good, returned) rest, λ k o. of_field k good clean clean' o)
        ]
      ]
    ]

  -- `_reject_sensitive_payload_keys` returns exactly if no key that occurs anywhere in the payload,
  -- through any nesting of objects and arrays, is sensitive; otherwise it raises, and such a key is
  -- exhibited.
  pub reject_sensitive_payload_keys_lem :
      (v : Json) → Verdict (reject_sensitive_payload_keys casefold v) (λ k. Occurs k v)
  reject_sensitive_payload_keys_lem v = reject_json v
