-- ===== src/Masking/Recompute.antt =====
-- The summaries of src/fieldtrue/masking.py: a result recomputed from its cells.
use inbar.Prelude.{
  ℕ, zero, suc, ◌+◌, ◌-◌, ◌/◌, ◌%◌, String, Bool, not, ◌==◌, ltb, if◌then◌else◌, List, [], ◌∷◌,
  ◌++◌, length, map, codes, same_text, is_identifier, is_hex, Check, Result, ok, ◌>>=◌, ◌>>◌,
  raise_if,
}
use inbar.Domain.{ℤ, pos}
use inbar.Integer.{◌+ℤ◌, floor_div, less_ℤ}
use inbar.Sorting.{sort, codes_less}
use inbar.Laboratory.{GradedFaultConfig}
use inbar.Masking.{MaskingCell, resolvable_pre, masking_event, masking_index_permille}

pub record MechanismMaskingSummary : Type 0 where
  pub mechanism_key : String
  pub cells_total : ℕ
  pub cells_resolvable_pre : ℕ
  pub cells_excluded_unresolvable_pre : ℕ
  pub masking_events : ℕ
  pub median_masking_index_permille : ℤ

pub record MaskingResult : Type 0 where
  pub result_id : String
  pub adjudication_freeze_sha256 : String
  pub laboratory_config_sha256 : String
  pub compensator_gain : ℤ
  pub cells_total : ℕ
  pub cells_resolvable_pre : ℕ
  pub cells_excluded_unresolvable_pre : ℕ
  pub masking_events : ℕ
  pub per_mechanism : List MechanismMaskingSummary

pub data MaskingError : Type 0 where
  no_cells empty_key parts_not_total masked_unresolvable bad_id bad_hash no_mechanism : MaskingError
  totals_not_total events_not_total : MaskingError

-- The fields' bounds and `counts_are_consistent`
unfoldable pub validate_summary : MechanismMaskingSummary → Check MaskingError
validate_summary s = do
  raise_if (same_text s.mechanism_key "") empty_key
  raise_if (not (s.cells_resolvable_pre + s.cells_excluded_unresolvable_pre == s.cells_total))
      parts_not_total
  raise_if (ltb s.cells_resolvable_pre s.masking_events) masked_unresolvable

-- `sum(f(m) for m in summaries)`
unfoldable pub sum_of : (MechanismMaskingSummary → ℕ) → List MechanismMaskingSummary → ℕ
sum_of f [] = 0
sum_of f (s ∷ ss) = f s + sum_of f ss

-- The fields' bounds and `totals_are_consistent`
unfoldable pub validate_result : MaskingResult → Check MaskingError
unfolding is_identifier is_hex sum_of
validate_result r = do
  raise_if (not (is_identifier r.result_id)) bad_id
  raise_if (not (is_hex 64 r.adjudication_freeze_sha256)) bad_hash
  raise_if (not (is_hex 64 r.laboratory_config_sha256)) bad_hash
  raise_if (r.cells_total == 0) no_cells
  raise_if (length r.per_mechanism == 0) no_mechanism
  raise_if (not (r.cells_resolvable_pre + r.cells_excluded_unresolvable_pre == r.cells_total))
      parts_not_total
  raise_if (ltb r.cells_resolvable_pre r.masking_events) masked_unresolvable
  raise_if (not (sum_of (λ s. s.cells_total) r.per_mechanism == r.cells_total)) totals_not_total
  raise_if (not (sum_of (λ s. s.masking_events) r.per_mechanism == r.masking_events))
      events_not_total

-- `values[n]`, within the list
unfoldable pub nth : ℕ → List ℤ → ℤ
nth n [] = pos 0
nth zero (x ∷ xs) = x
nth (suc n) (x ∷ xs) = nth n xs

-- `_median`
unfoldable pub median : List ℤ → ℤ
unfolding sort nth floor_div ◌+ℤ◌
median values =
    let ordered = sort less_ℤ [] values in
    let mid = length ordered / 2 in
    if length ordered == 0
    then pos 0
    else (if length ordered % 2 == 1
        then nth mid ordered
        else floor_div (nth (mid - 1) ordered +ℤ nth mid ordered) 2)

-- `[c for c in cells if test(c)]`
unfoldable pub cells_where : (MaskingCell → Bool) → List MaskingCell → List MaskingCell
cells_where test [] = []
cells_where test (c ∷ cs) = let rest = cells_where test cs in if test c then c ∷ rest else rest

-- A dictionary of lists, by its keys in the order in which they came
abbrev pub ByMechanism : Type 0
ByMechanism = List (String × List MaskingCell)

-- `by_mechanism.setdefault(cell.mechanism_key, []).append(cell)`
unfoldable pub add_cell : MaskingCell → ByMechanism → ByMechanism
add_cell c [] = (c.mechanism_key, c ∷ []) ∷ []
add_cell c ((key, rows) ∷ others) =
    let rest = add_cell c others in
    if same_text key c.mechanism_key then (key, rows ++ c ∷ []) ∷ others else (key, rows) ∷ rest

unfoldable pub group_cells : ByMechanism → List MaskingCell → ByMechanism
unfolding add_cell
group_cells groups [] = groups
group_cells groups (c ∷ cs) = group_cells (add_cell c groups) cs

abbrev pub keys_of : ByMechanism → List String
keys_of [] = []
keys_of ((key, rows) ∷ others) = key ∷ keys_of others

-- `by_mechanism[key]`, of a key that is there
unfoldable pub rows_of : String → ByMechanism → List MaskingCell
rows_of key [] = []
rows_of key ((k, rows) ∷ others) =
    let rest = rows_of key others in if same_text k key then rows else rest

abbrev pub key_before : String → String → Bool
key_before a b = codes_less (codes a) (codes b)

-- The resolvable cells are among the rows, so the difference is exact.
unfoldable pub summary_of : String → List MaskingCell → MechanismMaskingSummary
unfolding cells_where masking_event median
summary_of key rows =
    let resolvable_rows = cells_where resolvable_pre rows in
    record {
      mechanism_key = key;
      cells_total = length rows;
      cells_resolvable_pre = length resolvable_rows;
      cells_excluded_unresolvable_pre = length rows - length resolvable_rows;
      masking_events = length (cells_where masking_event rows);
      median_masking_index_permille = median (map masking_index_permille rows);
    }

unfoldable pub summarize :
    ByMechanism → List String → Result MaskingError (List MechanismMaskingSummary)
unfolding rows_of summary_of validate_summary
summarize groups [] = ok []
summarize groups (key ∷ keys) = do
  let summary = summary_of key (rows_of key groups)
  validate_summary summary
  others ← summarize groups keys
  ok (summary ∷ others)

-- `config_sha256` is the canonical hash of a configuration.
unfoldable pub recompute_masking_result :
    (GradedFaultConfig → String)
    → String
    → List MaskingCell
    → String
    → GradedFaultConfig
    → ℤ
    → Result MaskingError MaskingResult
unfolding group_cells sort summarize cells_where masking_event validate_result
recompute_masking_result config_sha256 result_id cells freeze config gain = do
  raise_if (length cells == 0) no_cells
  let by_mechanism = group_cells [] cells
  summaries ← summarize by_mechanism (sort key_before [] (keys_of by_mechanism))
  let resolvable_total = length (cells_where resolvable_pre cells)
  let result : MaskingResult = record {
    result_id = result_id;
    adjudication_freeze_sha256 = freeze;
    laboratory_config_sha256 = config_sha256 config;
    compensator_gain = gain;
    cells_total = length cells;
    cells_resolvable_pre = resolvable_total;
    cells_excluded_unresolvable_pre = length cells - resolvable_total;
    masking_events = length (cells_where masking_event cells);
    per_mechanism = summaries;
  }
  validate_result result
  ok result
