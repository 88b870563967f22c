-- ===== src/Masking/Exact.antt =====
-- `recompute_masking_result` of src/fieldtrue/masking.py: its own validators accept what it counts.
use inbar.Prelude.{
  ℕ, suc, ◌+◌, ◌-◌, ◌≤◌, String, List, [], ◌∷◌, ◌≡◌, refl, ap, ◌∙◌, arith, length, length-append,
  true, false, ltb, ◌==◌, All, same_text, is_identifier, is_hex, ok,
}
use inbar.Domain.{ℤ}
use inbar.Sorting.{sort, sort-All}
use inbar.Laboratory.{GradedFaultConfig}
use inbar.Masking.{MaskingCell, resolvable_pre, masking_event}
use inbar.Masking.Recompute.{
  MechanismMaskingSummary, MaskingResult, validate_summary, validate_result, sum_of, cells_where,
  ByMechanism, group_cells, keys_of, rows_of, key_before, summary_of, summarize,
  recompute_masking_result,
}
use inbar.Masking.Counted.{
  is_of, length-cells_where-append, length-cells_where-le, events_were_resolvable,
  rows_of-group_cells,
}
use inbar.Masking.Totals.{sum_over, sum_over-group_cells, group_cells-All}

parts_sum : (r n : ℕ) → r ≤ n → (r + (n - r) == n) ≡ true
parts_sum r n h = ground arith

validate_summary-summary_of :
    (key : String) (rows : List MaskingCell)
    → same_text key "" ≡ false
    → validate_summary (summary_of key rows) ≡ ok tt
unfolding validate_summary summary_of
validate_summary-summary_of key rows named =
    let events_fit : ltb (length (cells_where resolvable_pre rows))
          (length (cells_where masking_event rows))
        ≡ false =
      ground (arith, events_were_resolvable rows) in
    rw (named, parts_sum _ _ (length-cells_where-le resolvable_pre rows), events_fit) refl

-- The summaries of the keys, without their validators
abbrev summaries : ByMechanism → List String → List MechanismMaskingSummary
summaries groups [] = []
summaries groups (k ∷ ks) = summary_of k (rows_of k groups) ∷ summaries groups ks

summarize-summaries :
    (groups : ByMechanism) (keys : List String)
    → All (λ k. same_text k "" ≡ false) keys
    → summarize groups keys ≡ ok (summaries groups keys)
unfolding summarize
summarize-summaries groups [] h = refl
summarize-summaries groups (k ∷ ks) (named, h) =
    rw (validate_summary-summary_of k (rows_of k groups) named, summarize-summaries groups ks h)
      refl

sum_of-summaries :
    (f : MechanismMaskingSummary → ℕ) (groups : ByMechanism) (keys : List String)
    → sum_of f (summaries groups keys) ≡ sum_over (λ k. f (summary_of k (rows_of k groups))) keys
unfolding sum_of sum_over
sum_of-summaries f groups [] = refl
sum_of-summaries f groups (k ∷ ks) =
    ap (λ (n : ℕ). f (summary_of k (rows_of k groups)) + n) (sum_of-summaries f groups ks)

-- A summary of exactly the cells of its mechanism
abbrev pub IsSummary : List MaskingCell → MechanismMaskingSummary → Type 0
IsSummary cells s = s ≡ summary_of s.mechanism_key (cells_where (is_of s.mechanism_key) cells)

summaries-IsSummary :
    (cells : List MaskingCell) (keys : List String)
    → All (IsSummary cells) (summaries (group_cells [] cells) keys)
unfolding summary_of
summaries-IsSummary cells [] = tt
summaries-IsSummary cells (k ∷ ks) =
    (ap (summary_of k) (rows_of-group_cells k cells), summaries-IsSummary cells ks)

total_of_summaries :
    (cells : List MaskingCell)
    → sum_of
        (λ s. s.cells_total)
        (summaries (group_cells [] cells) (sort key_before [] (keys_of (group_cells [] cells))))
      ≡ length cells
unfolding summary_of
total_of_summaries cells =
    sum_of-summaries (λ s. s.cells_total) (group_cells [] cells)
      (sort key_before [] (keys_of (group_cells [] cells)))
    ∙ sum_over-group_cells length length-append key_before cells

events_of_summaries :
    (cells : List MaskingCell)
    → sum_of
        (λ s. s.masking_events)
        (summaries (group_cells [] cells) (sort key_before [] (keys_of (group_cells [] cells))))
      ≡ length (cells_where masking_event cells)
unfolding summary_of
events_of_summaries cells =
    sum_of-summaries (λ s. s.masking_events) (group_cells [] cells)
      (sort key_before [] (keys_of (group_cells [] cells)))
    ∙ sum_over-group_cells (λ xs. length (cells_where masking_event xs))
        (length-cells_where-append masking_event) key_before cells

not_empty :
    (ss : List MechanismMaskingSummary) (n : ℕ)
    → sum_of (λ s. s.cells_total) ss ≡ suc n
    → (length ss == 0) ≡ false
unfolding sum_of
not_empty [] n h = absurd (omega arith)
not_empty (s ∷ ss) n h = ground arith

equal_test : (m n : ℕ) → m ≡ n → (m == n) ≡ true
equal_test m n h = ground arith

at_most_test : (m n : ℕ) → m ≤ n → ltb n m ≡ false
at_most_test m n h = ground arith

-- What the counts of a result over at least one cell satisfy
abbrev Fits : MaskingResult → Type 0
Fits r =
    ((n : ℕ) × (r.cells_total ≡ suc n))
    × (r.cells_resolvable_pre ≤ r.cells_total)
    × (r.cells_excluded_unresolvable_pre ≡ r.cells_total - r.cells_resolvable_pre)
    × (r.masking_events ≤ r.cells_resolvable_pre)
    × (sum_of (λ s. s.cells_total) r.per_mechanism ≡ r.cells_total)
    × (sum_of (λ s. s.masking_events) r.per_mechanism ≡ r.masking_events)

validate_result-Fits :
    (r : MaskingResult)
    → is_identifier r.result_id ≡ true
    → is_hex 64 r.adjudication_freeze_sha256 ≡ true
    → is_hex 64 r.laboratory_config_sha256 ≡ true
    → Fits r
    → validate_result r ≡ ok tt
unfolding validate_result
validate_result-Fits r id freeze hash ((n, some_cells), few, excluded, events, totals, all_events) =
    let counted : (r.cells_total == 0) ≡ false = ground arith in
    let parts : (r.cells_resolvable_pre + r.cells_excluded_unresolvable_pre == r.cells_total)
        ≡ true =
      equal_test _ _ (omega arith) in
    rw
      (
        id,
        freeze,
        hash,
        counted,
        not_empty r.per_mechanism n (totals ∙ some_cells),
        parts,
        at_most_test _ _ events,
        equal_test _ _ totals,
        equal_test _ _ all_events,
      )
      refl

-- Of at least one cell, each with a mechanism, a result under a valid identifier and valid hashes is
-- recomputed, and none of its validators refuses it; its totals are those of the cells, each of its
-- summaries is that of exactly the cells of its mechanism, and the summaries' totals add up to the number of cells.
pub recompute_masking_result-IsSummary :
    (config_sha256 : GradedFaultConfig → String) (result_id : String) (c : MaskingCell)
    (cs : List MaskingCell) (freeze : String) (config : GradedFaultConfig) (gain : ℤ)
    → is_identifier result_id ≡ true
    → is_hex 64 freeze ≡ true
    → is_hex 64 (config_sha256 config) ≡ true
    → All (λ d. same_text d.mechanism_key "" ≡ false) (c ∷ cs)
    → (r : MaskingResult) × (recompute_masking_result config_sha256 result_id
          (c ∷ cs)
          freeze
          config
          gain
        ≡ ok r)
      × (r.cells_total ≡ length (c ∷ cs))
      × (r.cells_resolvable_pre ≡ length (cells_where resolvable_pre (c ∷ cs)))
      × (r.masking_events ≡ length (cells_where masking_event (c ∷ cs)))
      × All (IsSummary (c ∷ cs)) r.per_mechanism
      × (sum_of (λ s. s.cells_total) r.per_mechanism ≡ length (c ∷ cs))
unfolding recompute_masking_result
recompute_masking_result-IsSummary config_sha256 result_id c cs freeze config gain id hex config_hex
      named =
    let cells = c ∷ cs in
    let keys = sort key_before [] (keys_of (group_cells [] cells)) in
    let all_named =
      sort-All key_before (λ k. same_text k "" ≡ false) [] (keys_of (group_cells [] cells)) tt
        (group_cells-All (λ k. same_text k "" ≡ false) [] cells tt named) in
    let result : MaskingResult = record {
      result_id = result_id;
      adjudication_freeze_sha256 = freeze;
      laboratory_config_sha256 = config_sha256 config;
      compensator_gain = gain;
      cells_total = length cells;
      cells_resolvable_pre = length (cells_where resolvable_pre cells);
      cells_excluded_unresolvable_pre = length cells - length (cells_where resolvable_pre cells);
      masking_events = length (cells_where masking_event cells);
      per_mechanism = summaries (group_cells [] cells) keys;
    } in
    let counted : (length cells == 0) ≡ false = ground arith in
    let fits : Fits result = (
      (length cs, refl),
      length-cells_where-le resolvable_pre cells,
      refl,
      events_were_resolvable cells,
      total_of_summaries cells,
      events_of_summaries cells,
    ) in
    (
      result,
      rw
          (
            summarize-summaries (group_cells [] cells) keys all_named,
            validate_result-Fits result id hex config_hex fits,
            counted,
          )
          refl,
      refl,
      refl,
      refl,
      summaries-IsSummary cells keys,
      total_of_summaries cells,
    )
