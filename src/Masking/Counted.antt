-- ===== src/Masking/Counted.antt =====
-- The grouping and the counts of src/fieldtrue/masking.py: no cell is lost and none counted twice.
use mathlib.Core.List.{append_assoc, append-nil}
use inbar.Prelude.{
  ◌+◌, ◌≤◌, String, List, [], ◌∷◌, ◌++◌, ◌≡◌, ◌≢◌, refl, sym, ap, ◌∙◌, arith, length, length-append,
  Bool, true, false, Bool-cases, inl, inr, same_text, same_text-eq, same_text-ne, same_text-apart,
}
use inbar.Masking.{MaskingCell, resolvable_pre, resolvable_post, masking_event}
use inbar.Masking.Recompute.{cells_where, ByMechanism, add_cell, group_cells, rows_of}

abbrev pub is_of : String → MaskingCell → Bool
is_of key c = same_text c.mechanism_key key

cells_where-append :
    (test : MaskingCell → Bool) (xs ys : List MaskingCell)
    → cells_where test (xs ++ ys) ≡ cells_where test xs ++ cells_where test ys
unfolding cells_where
cells_where-append test [] ys = refl
cells_where-append test (x ∷ xs) ys = elim (Bool-cases (test x)) [
  | inl e ↦ rw e (ap (λ zs. x ∷ zs) (cells_where-append test xs ys))
  | inr e ↦ rw e (cells_where-append test xs ys)
]

pub length-cells_where-append :
    (test : MaskingCell → Bool) (xs ys : List MaskingCell)
    → length (cells_where test (xs ++ ys))
      ≡ length (cells_where test xs) + length (cells_where test ys)
length-cells_where-append test xs ys =
    ap length (cells_where-append test xs ys)
    ∙ length-append (cells_where test xs) (cells_where test ys)

pub length-cells_where-le :
    (test : MaskingCell → Bool) (xs : List MaskingCell) → length (cells_where test xs) ≤ length xs
unfolding cells_where
length-cells_where-le test [] = omega arith
length-cells_where-le test (x ∷ xs) = elim (Bool-cases (test x)) [
  | inl e ↦ rw e (omega (arith, length-cells_where-le test xs))
  | inr e ↦ rw e (omega (arith, length-cells_where-le test xs))
]

pub events_were_resolvable :
    (xs : List MaskingCell)
    → length (cells_where masking_event xs) ≤ length (cells_where resolvable_pre xs)
unfolding cells_where masking_event
events_were_resolvable [] = omega arith
events_were_resolvable (x ∷ xs) = elim (Bool-cases (resolvable_pre x)) [
  | inl e ↦ elim (Bool-cases (resolvable_post x)) [
    | inl after ↦ rw (e, after) (omega (arith, events_were_resolvable xs))
    | inr not_after ↦ rw (e, not_after) (omega (arith, events_were_resolvable xs))
  ]
  | inr e ↦ rw e (events_were_resolvable xs)
]

rows_of-add_cell :
    (key : String) (c : MaskingCell) (groups : ByMechanism)
    → rows_of key (add_cell c groups) ≡ rows_of key groups ++ cells_where (is_of key) (c ∷ [])
unfolding rows_of add_cell cells_where
rows_of-add_cell key c [] = refl
rows_of-add_cell key c ((k, rows) ∷ others) = elim (Bool-cases (same_text k c.mechanism_key)) [
  | inl same ↦
      let e = same_text-eq k c.mechanism_key same in
      elim (Bool-cases (same_text k key)) [
        | inl here ↦
            let there : same_text c.mechanism_key key ≡ true = rw e at here in
            rw (same, here, there) refl
        | inr not_here ↦
            let not_there : same_text c.mechanism_key key ≡ false = rw e at not_here in
            rw (same, not_here, not_there) (sym (append-nil (rows_of key others)))
      ]
  | inr other ↦ elim (Bool-cases (same_text k key)) [
    | inl here ↦
        let apart : c.mechanism_key ≢ key =
          λ e. same_text-ne k c.mechanism_key other (same_text-eq k key here ∙ sym e) in
        rw (other, here, same_text-apart c.mechanism_key key apart) (sym (append-nil rows))
    | inr not_here ↦ rw (other, not_here) (rows_of-add_cell key c others)
  ]
]

rows_of-group_cells-append :
    (key : String) (groups : ByMechanism) (cells : List MaskingCell)
    → rows_of key (group_cells groups cells) ≡ rows_of key groups ++ cells_where (is_of key) cells
unfolding group_cells cells_where
rows_of-group_cells-append key groups [] = sym (append-nil (rows_of key groups))
rows_of-group_cells-append key groups (c ∷ cs) =
    rows_of-group_cells-append key (add_cell c groups) cs
    ∙ (ap (λ xs. xs ++ cells_where (is_of key) cs) (rows_of-add_cell key c groups)
        ∙ (append_assoc (rows_of key groups) (cells_where (is_of key) (c ∷ []))
              (cells_where (is_of key) cs)
            ∙ ap (λ xs. rows_of key groups ++ xs)
                (sym (cells_where-append (is_of key) (c ∷ []) cs))))

-- The rows of a key are the cells of that mechanism, in their order.
pub rows_of-group_cells :
    (key : String) (cells : List MaskingCell)
    → rows_of key (group_cells [] cells) ≡ cells_where (is_of key) cells
unfolding rows_of
rows_of-group_cells key cells = rows_of-group_cells-append key [] cells
