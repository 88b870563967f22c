-- ===== src/Memory/Refinement.antt =====
-- `_verify_records` accepts exactly the memories of the specification.
use mathlib.Core.List.{append_assoc, append-nil}
use inbar.Prelude.{
  ℕ, suc, String, List, [], ◌∷◌, ◌++◌, ◌≡◌, refl, ap, ◌∙◌, arith, length, length-append, ok,
  bind-eq-ok,
}
use inbar.Memory.{ResearchMemoryRecord, Primitives}
use inbar.Memory.Verify.{
  Scan, memory_genesis_hash, verify_record, verify_loop, verify_records, start,
}
use inbar.Memory.Spec.{MayStandBehind, IsMemory, state, step_accepts, step_complete, last_hash}

module _ {Float : Type 0} (prims : Primitives Float) where
  -- The records `rs` may stand one after the other behind `before`.
  abbrev pub Stands : List (ResearchMemoryRecord Float) → List (ResearchMemoryRecord Float) → Type 0
  Stands before [] = Unit
  Stands before (r ∷ rs) = MayStandBehind prims before r × Stands (before ++ r ∷ []) rs

  Stands-at :
      (before xs : List (ResearchMemoryRecord Float)) (r : ResearchMemoryRecord Float)
      (ys : List (ResearchMemoryRecord Float))
      → Stands before (xs ++ r ∷ ys)
      → MayStandBehind prims (before ++ xs) r
  Stands-at before [] r ys h = rw append-nil h.0
  Stands-at before (x ∷ xs) r ys h = rw append_assoc at (Stands-at (before ++ x ∷ []) xs r ys h.1)

  pub Stands-intro :
      (before rs : List (ResearchMemoryRecord Float))
      → ((xs : List (ResearchMemoryRecord Float)) (r : ResearchMemoryRecord Float)
            (ys : List (ResearchMemoryRecord Float))
          → rs ≡ xs ++ r ∷ ys
          → MayStandBehind prims (before ++ xs) r)
      → Stands before rs
  Stands-intro before [] h = tt
  Stands-intro before (q ∷ rs) h = (
    rw append-nil at (h [] q rs refl),
    Stands-intro (before ++ q ∷ []) rs
        (λ xs r ys e. rw append_assoc (h (q ∷ xs) r ys (ap (λ l. q ∷ l) e))),
  )

  next_place :
      (before : List (ResearchMemoryRecord Float)) (r : ResearchMemoryRecord Float)
      → length (before ++ r ∷ []) ≡ suc (length before)
  next_place before r = omega (arith, length-append {0} before (r ∷ []))

  loop_accepts :
      (rs before : List (ResearchMemoryRecord Float)) (s : Scan)
      → verify_loop prims (state prims before) (length before) rs ≡ ok s
      → Stands before rs × (s ≡ state prims (before ++ rs))
  unfolding verify_loop
  loop_accepts [] before s h = (tt, rw append-nil cc)
  loop_accepts (x ∷ rs) before s h =
      let (s', stepped, rest) =
        bind-eq-ok (verify_record prims (state prims before) (length before) x) _ h in
      let (may, same) = step_accepts prims before x s' stepped in
      let (stands, final) =
        loop_accepts rs (before ++ x ∷ []) s (rw (next_place before x) (rw same at rest)) in
      ((may, stands), rw append_assoc at final)

  loop_complete :
      (rs before : List (ResearchMemoryRecord Float))
      → Stands before rs
      → verify_loop prims (state prims before) (length before) rs ≡ ok (state prims (before ++ rs))
  unfolding verify_loop
  loop_complete [] before h = rw append-nil
  loop_complete (x ∷ rs) before h =
      rw (step_complete prims before x h.0, ← next_place before x)
        (loop_complete rs (before ++ x ∷ []) h.1 ∙ rw append_assoc)

  -- `_verify_records` returns exactly on the memories of the specification: at every place the
  -- record is numbered by its place, has an identifier that no earlier record has, corrects and
  -- links only earlier records, names its predecessor's hash, carries its own, and is not of the
  -- former mission behind one of the present mission. It returns their number and the last hash.
  pub verify_records_lem :
      (records : List (ResearchMemoryRecord Float))
      → ((v : ℕ × String)
          → verify_records prims records ≡ ok v
          → IsMemory prims records × (v ≡ (length records, last_hash memory_genesis_hash records)))
        × (IsMemory prims records
            → verify_records prims records
              ≡ ok (length records, last_hash memory_genesis_hash records))
  unfolding verify_records
  verify_records_lem records = (
    λ v h.
        let (s, looped, done) = bind-eq-ok (verify_loop prims start 0 records) _ h in
        let (stands, final) = loop_accepts records [] s looped in
        (λ before r after e. Stands-at [] before r after (rw e at stands), ground arith),
    λ m. rw (loop_complete records [] (Stands-intro [] records m)),
  )
