-- ===== src/Tree/Route.antt =====
-- Fitting and predicting agree: in a tree of src/fieldtrue/shortcut_v2_tree.py, a training row
-- reaches a leaf that lists it.
use mathlib.Core.List.{mem-cons_self, mem-cons_of_mem}
use inbar.Prelude.{
  ℕ, suc, ◌+◌, List, [], ◌∷◌, map, Mem, Bool, true, false, ◌≡◌, refl, ap, arith, Result, ok,
  bind-eq-ok, then-eq-ok, Option, none, some, Option-cases, Bool-cases, inl, inr, All, raise_if,
  length, if◌then◌else◌, not,
}
use inbar.Sorting.{sort, sort-All-back}
use inbar.Tree.{
  Hashes, TreePredicate, FeatureEntry, FeatureVector, FeatureDefinition, TreeElementState, TreeLeaf,
  TreeNode, Element, leaf, node, TreeRoot, DepthTwoExactGiniTree, ShortcutTreeError,
  not_prediction_key,
}
use inbar.Tree.Gini.{exact_gini}
use inbar.Tree.Counts.{counter}
use inbar.Tree.Predicates.{feature, predicate_matches, feature_definitions, validate_rows}
use inbar.Tree.Enumerate.{enumerate_predicates, row_less}
use inbar.Tree.Validate.{validate_leaf, is_prediction_key, maximum_depth, modal_key}
use inbar.Tree.Nodes.{validate_node, validate_tree, leaf_state, element_state}
use inbar.Tree.Fit.{
  TrainingExample, example_id, example_target, example_row, text_less, row_id, Targets, target_of,
  label, Parts, Candidate, to_part, divide, goes_true, element_statistics, make_leaf, best_split,
  improving, split_node, fit_element, fit_leaf, fit_child, fit_root, check_training, fitted_tree,
  fit_depth_two_exact_gini,
}
use inbar.Tree.Best.{IsCandidate, best_split-IsBestOf}
use inbar.Tree.Predict.{Descent, descend, at_leaf, descend_child, descend_root}

All_of-Mem : {A : Type 0} (Q : A → Type 0) (xs : List A) → ((x : A) → Mem x xs → Q x) → All Q xs
All_of-Mem Q [] h = tt
All_of-Mem Q (x ∷ xs) h = (h x mem-cons_self, All_of-Mem Q xs (λ y m. h y (mem-cons_of_mem x m)))

All_map :
    {A B : Type 0} (f : A → B) (Q : B → Type 0) (xs : List A)
    → All Q (map f xs)
    → All (λ x. Q (f x)) xs
All_map f Q [] h = tt
All_map f Q (x ∷ xs) (q, h) = (q, All_map f Q xs h)

All_mono :
    {A : Type 0} (P Q : A → Type 0) (xs : List A) → ((x : A) → P x → Q x) → All P xs → All Q xs
All_mono P Q [] f h = tt
All_mono P Q (x ∷ xs) f (p, h) = (f x p, All_mono P Q xs f h)

-- What holds of the examples of each part, told by the way they went, holds of all.
divide-All :
    (hashes : Hashes) (F T Q : TrainingExample → Type 0) (p : TreePredicate)
    (examples : List TrainingExample) (parts : Parts hashes)
    → divide hashes p examples ≡ ok parts
    → ((e : TrainingExample) → goes_true hashes p e ≡ ok false → F e → Q e)
    → ((e : TrainingExample) → goes_true hashes p e ≡ ok true → T e → Q e)
    → All F parts.false_examples
    → All T parts.true_examples
    → All Q examples
unfolding divide
divide-All hashes F T Q p [] parts h on_false on_true fs ts = tt
divide-All hashes F T Q p (e ∷ examples) parts h on_false on_true fs ts =
    let (matches, went, h1) = bind-eq-ok (goes_true hashes p e) _ h in
    let (rest, others, h2) = bind-eq-ok (divide hashes p examples) _ h1 in
    let made : to_part hashes matches e rest ≡ parts = cc h2 in
    elim (Bool-cases matches) [
      | inl yes_it_does ↦
          let parts_true : to_part hashes true e rest ≡ parts = rw yes_it_does at made in
          let fs' : All F rest.false_examples = rw (← parts_true) at fs in
          let (t, ts') : T e × All T rest.true_examples = rw (← parts_true) at ts in
          (
            on_true e (rw yes_it_does at went) t,
            divide-All hashes F T Q p examples rest others on_false on_true fs' ts',
          )
      | inr no_it_does_not ↦
          let parts_false : to_part hashes false e rest ≡ parts = rw no_it_does_not at made in
          let (f, fs') : F e × All F rest.false_examples = rw (← parts_false) at fs in
          let ts' : All T rest.true_examples = rw (← parts_false) at ts in
          (
            on_false e (rw no_it_does_not at went) f,
            divide-All hashes F T Q p examples rest others on_false on_true fs' ts',
          )
    ]

-- The example's row reaches a leaf that lists it, `level` levels and the trace's length deep.
abbrev pub IsRouted :
    {Child : Type 0}
    → (List FeatureEntry → Child → Result ShortcutTreeError Descent)
    → ℕ
    → Child
    → FeatureVector
    → Type 0
IsRouted below level child row =
    (d : Descent) × (below row.entries child ≡ ok d)
    × Mem row.incident_id d.reached.state.train_incident_ids
    × (d.reached.state.depth ≡ level + length d.trace)

element_statistics_lem :
    (hashes : Hashes) (examples : List TrainingExample) (depth : ℕ) (state : TreeElementState)
    → element_statistics hashes examples depth ≡ ok state
    → (state.train_incident_ids ≡ sort text_less [] (map example_id examples))
      × (state.depth ≡ depth)
unfolding element_statistics
element_statistics_lem hashes examples depth state h =
    let (impurity, known, h1) =
      bind-eq-ok (exact_gini (counter [] (map example_target examples))) _ h in
    (ground arith, ground arith)

make_leaf-lists :
    (hashes : Hashes) (examples : List TrainingExample) (depth : ℕ) (l : TreeLeaf)
    → make_leaf hashes examples depth ≡ ok l
    → All (λ e. Mem (example_id e) l.state.train_incident_ids) examples × (l.state.depth ≡ depth)
unfolding make_leaf
make_leaf-lists hashes examples depth l h =
    let (state, known, h1) = bind-eq-ok (element_statistics hashes examples depth) _ h in
    let (valid, h2) =
      then-eq-ok
        (validate_leaf hashes
          (record { state = state; prediction_key = modal_key state.class_counts }))
        h1 in
    let same : state ≡ l.state = ground arith in
    let (ids, level) = element_statistics_lem hashes examples depth state known in
    let all : All (λ i. Mem i (sort text_less [] (map example_id examples)))
        (map example_id examples) =
      (sort-All-back text_less (λ i. Mem i (sort text_less [] (map example_id examples))) [] _
        (All_of-Mem _ _ (λ i m. m))).1 in
    (
      rw (← same) (
          rw ids (
            All_map example_id (λ i. Mem i (sort text_less [] (map example_id examples))) examples
              all)),
      rw (← same) level,
    )

improving-some :
    (hashes : Hashes) (o : Option (Candidate hashes)) (impurity : inbar.Rational.Fraction)
    (c : Candidate hashes)
    → improving hashes o impurity ≡ some c
    → o ≡ some c
improving-some hashes none impurity c h = cc
improving-some hashes (some best) impurity c h = ground arith

module _ (hashes : Hashes) (definitions : List FeatureDefinition) where
  module _ {Child : Type 0} (state_of : Child → TreeElementState)
      (fit : List TrainingExample → Result ShortcutTreeError Child)
      (below : List FeatureEntry → Child → Result ShortcutTreeError Descent) (depth : ℕ)
      (routed : (examples : List TrainingExample) (child : Child)
        → fit examples ≡ ok child
        → All (λ e. IsRouted below (suc depth) child (example_row e)) examples) where
    descends :
        (n : TreeNode Child) (e : TrainingExample) (way : Bool)
        → goes_true hashes n.predicate e ≡ ok way
        → IsRouted below (suc depth) (if way then n.true_child else n.false_child) (example_row e)
        → IsRouted (λ entries. descend (below entries) entries) depth (node n) (example_row e)
    unfolding goes_true descend
    descends n e way h (d, went, listed, deep) =
        elim (Option-cases (feature n.predicate.feature_key e.row.entries)) [
          | inl absent ↦ cc (rw (goes_true, absent) at h)
          | inr (value, found) ↦
              let matched : predicate_matches n.predicate value ≡ ok way =
                rw (goes_true, found) at h in
              (
                record { reached = d.reached; trace = n.predicate ∷ d.trace },
                rw (descend, found, matched, went) refl,
                listed,
                omega (arith, deep),
              )
        ]

    at_a_leaf :
        (l : TreeLeaf) (e : TrainingExample)
        → Mem (example_id e) l.state.train_incident_ids
        → l.state.depth ≡ depth
        → IsRouted (λ entries. descend (below entries) entries) depth (leaf l) (example_row e)
    unfolding descend
    at_a_leaf l e m level = (record { reached = l; trace = [] }, refl, m, omega (arith, level))

    split_node-IsRouted :
        (examples : List TrainingExample) (state : TreeElementState) (best : Candidate hashes)
        (element : Element Child)
        → divide hashes best.predicate examples ≡ ok best.parts
        → split_node hashes definitions state_of fit depth state best ≡ ok element
        → All
            (λ e.
              IsRouted (λ entries. descend (below entries) entries) depth element (example_row e))
            examples
    unfolding split_node
    split_node-IsRouted examples state best element divided h =
        let (f, on_false, h1) = bind-eq-ok (fit best.parts.false_examples) _ h in
        let (t, on_true, h2) = bind-eq-ok (fit best.parts.true_examples) _ h1 in
        let (valid, h3) =
          then-eq-ok
            (validate_node hashes state_of depth (record {
              state = state;
              predicate = best.predicate;
              split_impurity = best.score;
              false_child = f;
              true_child = t;
            }))
            h2 in
        let made : TreeNode Child = record {
          state = state;
          predicate = best.predicate;
          split_impurity = best.score;
          false_child = f;
          true_child = t;
        } in
        let same : node made ≡ element = cc h3 in
        rw (← same) (
          divide-All hashes (λ e. IsRouted below (suc depth) f (example_row e))
            (λ e. IsRouted below (suc depth) t (example_row e)) _ best.predicate examples best.parts
            divided (λ e way r. descends made e false way r) (λ e way r. descends made e true way r)
            (routed best.parts.false_examples f on_false)
            (routed best.parts.true_examples t on_true))

    pub fit_element-IsRouted :
        (examples : List TrainingExample) (element : Element Child)
        → fit_element hashes definitions state_of fit depth examples ≡ ok element
        → All
            (λ e.
              IsRouted (λ entries. descend (below entries) entries) depth element (example_row e))
            examples
    unfolding fit_element
    fit_element-IsRouted examples element h =
        let (state, known, h1) = bind-eq-ok (element_statistics hashes examples depth) _ h in
        let (candidates, listed, h2) =
          bind-eq-ok (enumerate_predicates hashes (map example_row examples) (some definitions)) _
            h1 in
        let (best, chosen, h3) = bind-eq-ok (best_split hashes examples candidates none) _ h2 in
        elim (Option-cases (improving hashes best state.impurity)) [
          | inl none_improves ↦
              let (l, made, h4) =
                bind-eq-ok (make_leaf hashes examples depth) _ (rw none_improves at h3) in
              let same : leaf l ≡ element = cc h4 in
              let (lists, level) = make_leaf-lists hashes examples depth l made in
              rw (← same) (
                All_mono (λ e. Mem (example_id e) l.state.train_incident_ids)
                  (λ e.
                    IsRouted (λ entries. descend (below entries) entries) depth (leaf l)
                      (example_row e))
                  examples (λ e m. at_a_leaf l e m level) lists)
          | inr (split, improves) ↦
              let found = improving-some hashes best state.impurity split improves in
              let (is, least) = best_split-IsBestOf hashes examples candidates best chosen in
              let (_, candidate) : Mem split.predicate candidates
                  × IsCandidate hashes examples split =
                rw found at is in
              split_node-IsRouted examples state split element candidate.divided (rw improves at h3)
        ]

  fit_leaf-IsRouted :
      (examples : List TrainingExample) (l : TreeLeaf)
      → fit_leaf hashes definitions examples ≡ ok l
      → All (λ e. IsRouted (λ _. at_leaf) 2 l (example_row e)) examples
  unfolding fit_leaf
  fit_leaf-IsRouted examples l h =
      let (lists, level) = make_leaf-lists hashes examples maximum_depth l h in
      All_mono (λ e. Mem (example_id e) l.state.train_incident_ids) _ examples
        (λ e m. (record { reached = l; trace = [] }, refl, m, omega (arith, level))) lists

  fit_root-IsRouted :
      (examples : List TrainingExample) (root : TreeRoot)
      → fit_root hashes definitions examples ≡ ok root
      → All (λ e. IsRouted descend_root 0 root (example_row e)) examples
  unfolding fit_root fit_child descend_root descend_child
  fit_root-IsRouted =
      fit_element-IsRouted element_state (fit_child hashes definitions) descend_child 0 (
        fit_element-IsRouted leaf_state (fit_leaf hashes definitions) (λ _. at_leaf) 1
          fit_leaf-IsRouted)

label-All :
    (targets : Targets) (Q : FeatureVector → Type 0) (rows : List FeatureVector)
    (examples : List TrainingExample)
    → label targets rows ≡ ok examples
    → All (λ e. Q (example_row e)) examples
    → All Q rows
unfolding label
label-All targets Q [] examples h all = tt
label-All targets Q (row ∷ rows) examples h all =
    elim (Option-cases (target_of row.incident_id targets)) [
      | inl absent ↦ cc (rw (label, absent) at h)
      | inr (target, found) ↦
          let h1 = rw (label, found) at h in
          let (is_key, h2) =
            then-eq-ok (raise_if (not (is_prediction_key target)) not_prediction_key) h1 in
          let (rest, others, h3) = bind-eq-ok (label targets rows) _ h2 in
          let same : record { row = row; target = target } ∷ rest ≡ examples = cc h3 in
          let (q, all') : Q row × All (λ e. Q (example_row e)) rest = rw (← same) at all in
          (q, label-All targets Q rows rest others all')
    ]

-- If a tree was fitted to rows and targets, then each of the rows, put to the tree's predicates, is
-- answered without an error, ends in a leaf that lists the row's incident, and has been asked as many
-- predicates as that leaf is deep.
pub fit_depth_two_exact_gini-IsRouted :
    (hashes : Hashes) (rows : List FeatureVector) (targets : Targets) (tree : DepthTwoExactGiniTree)
    → fit_depth_two_exact_gini hashes rows targets ≡ ok tree
    → All (IsRouted descend_root 0 tree.root) rows
unfolding fit_depth_two_exact_gini
fit_depth_two_exact_gini-IsRouted hashes rows targets tree h =
    let ordered_rows = sort row_less [] rows in
    let (valid, h1) = then-eq-ok (validate_rows rows) h in
    let (allowed, h2) = then-eq-ok (check_training ordered_rows targets) h1 in
    let (definitions, shared, h3) = bind-eq-ok (feature_definitions ordered_rows) _ h2 in
    let (examples, labelled, h4) = bind-eq-ok (label targets ordered_rows) _ h3 in
    let (root, fitted, h5) = bind-eq-ok (fit_root hashes definitions examples) _ h4 in
    let made = fitted_tree hashes definitions (map row_id ordered_rows) root in
    let (bound, h6) = then-eq-ok (validate_tree hashes made) h5 in
    let same : root ≡ tree.root =
      let whole : made ≡ tree = cc h6 in ap (λ (t : DepthTwoExactGiniTree). t.root) whole in
    rw (← same)
      (sort-All-back row_less (IsRouted descend_root 0 root) [] rows (
        label-All targets (IsRouted descend_root 0 root) ordered_rows examples labelled
          (fit_root-IsRouted hashes definitions examples root fitted))).1
