-- ===== src/Ledger/Lifecycle.antt =====
-- The lifecycle table of `_verify_events` in src/fieldtrue/receipts.py.
use mathlib.Core.Bool.{decide, decide_iff}
use inbar.Prelude.{
  ℕ, String, Bool, true, ◌≡◌, refl, List, [], ◌∷◌, ◌&&◌, Mem, dec_mem, map, ite, if_pos, if_neg,
  ◌<◌, ◌≤◌, arith, string_discrete, ltb, ltb→lt, Mem-cases, if◌then◌else◌,
}
use mathlib.Core.List.{not-mem-nil}

abbrev Table : Type 0
Table = List (String × List String)

abbrev transitions : Table
transitions =
    ("run-started", "sources-verified" ∷ "source-invalid" ∷ "run-failed" ∷ [])
    ∷ ("sources-verified", "dataset-ingested" ∷ "ingestion-invalid" ∷ "run-failed" ∷ [])
    ∷ ("source-invalid", "readiness-adjudicated" ∷ "run-failed" ∷ [])
    ∷ ("ingestion-invalid", "readiness-adjudicated" ∷ "run-failed" ∷ [])
    ∷ ("dataset-ingested", "readiness-adjudicated" ∷ "run-failed" ∷ [])
    ∷ ("readiness-adjudicated", "run-completed" ∷ "run-failed" ∷ [])
    ∷ ("run-completed", [])
    ∷ ("run-failed", [])
    ∷ []

-- `table.get(key, set())`
get_or_empty : String → Table → List String
get_or_empty t [] = []
get_or_empty t ((k, vs) ∷ rest) = ite (string_discrete k t) vs (get_or_empty t rest)

unfoldable pub successors : String → List String
unfolding get_or_empty string_discrete
successors t = get_or_empty t transitions

abbrev pub event_types : List String
event_types = map (λ (row : String × List String). row.0) transitions

abbrev pub Edge : String → String → Type 0
Edge a b = Mem b (successors a)

-- A test passed by every entry of the table holds of every edge.
check_row : (String → String → Bool) → String → List String → Bool
check_row p k [] = true
check_row p k (v ∷ vs) = p k v && check_row p k vs

check_table : (String → String → Bool) → Table → Bool
unfolding check_row
check_table p [] = true
check_table p ((k, vs) ∷ rest) = check_row p k vs && check_table p rest

module _ (p : String → String → Bool) where
  check_row_sound :
      (k b : String) (vs : List String) → check_row p k vs ≡ true → Mem b vs → p k b ≡ true
  unfolding check_row
  check_row_sound k b [] h m = absurd (not-mem-nil m)
  check_row_sound k b (v ∷ vs) h m =
      Mem-cases (hlevel) m (λ e. ground (arith, e)) (check_row_sound k b vs (ground arith))

  check_table_sound :
      (a b : String) (table : Table)
      → check_table p table ≡ true
      → Mem b (get_or_empty a table)
      → p a b ≡ true
  unfolding check_table get_or_empty
  check_table_sound a b [] h m = absurd (not-mem-nil m)
  check_table_sound a b ((k, vs) ∷ rest) h m = elim (string_discrete k a) [
    | yes e ↦ rw (← e) (check_row_sound k b vs (ground arith) (rw (if_pos _ e) at m))
    | no n ↦ check_table_sound a b rest (ground arith) (rw (if_neg _ n) at m)
  ]

  Edge-sound : (a b : String) → check_table p transitions ≡ true → Edge a b → p a b ≡ true
  unfolding successors
  Edge-sound a b h m = check_table_sound a b transitions h m

-- How far along a run an event type stands.
unfoldable pub rank : String → ℕ
unfolding string_discrete
rank t = ite (string_discrete t "run-started") 0 (
    ite (string_discrete t "sources-verified") 1 (
      ite (string_discrete t "source-invalid") 1 (
        ite (string_discrete t "dataset-ingested") 2 (
          ite (string_discrete t "ingestion-invalid") 2
            (ite (string_discrete t "readiness-adjudicated") 3 4)))))

-- Every edge of the lifecycle goes forward, so a run has no cycle.
pub Edge-rank-lt : (a b : String) → Edge a b → rank a < rank b
unfolding check_table rank
Edge-rank-lt a b m = ltb→lt _ _ (Edge-sound (λ x y. ltb (rank x) (rank y)) a b refl m)

pub rank-le : (t : String) → rank t ≤ 4
unfolding rank
rank-le t = ground arith

-- Only an adjudicated run completes.
pub Edge-completed : (a : String) → Edge a "run-completed" → a ≡ "readiness-adjudicated"
unfolding check_table string_discrete decide
Edge-completed a m =
    (decide_iff (string_discrete a "readiness-adjudicated")).0
      (Edge-sound completes a "run-completed" refl m)
  where
    completes : String → String → Bool
    completes x y =
        if decide (string_discrete y "run-completed")
        then decide (string_discrete x "readiness-adjudicated")
        else true

-- Every target of an edge is a known type.
pub Edge-known : (a b : String) → Edge a b → Mem b event_types
unfolding check_table string_discrete decide
Edge-known a b m =
    (decide_iff (dec_mem string_discrete b event_types)).0
      (Edge-sound (λ x y. decide (dec_mem string_discrete y event_types)) a b refl m)
