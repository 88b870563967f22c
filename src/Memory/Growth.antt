-- ===== src/Memory/Growth.antt =====
-- What appending guarantees.
use mathlib.Core.List.{append_assoc}
use inbar.Prelude.{
  ℕ, ◌+◌, ◌≤◌, List, [], ◌∷◌, ◌++◌, ◌≡◌, ◌⊎◌, inl, inr, refl, ap, sym, ◌==◌, length, Result, ◌∙◌,
  arith, ok, err, bind-eq-ok, then-eq-ok, raise_if, not, ltb, ◌>>=◌, Result-cases,
}
use inbar.Memory.{
  ResearchMemoryRecord, Primitives, MemoryError, unavailable, byte_limit, changed_while_read,
  changed_while_appended, malformed_line, append_incomplete, write_failed,
}
use inbar.Memory.Validate.{validate_record}
use inbar.Memory.Verify.{verify_records, validate_all, load_memory_records}
use inbar.Memory.Spec.{IsMemory}
use inbar.Memory.Refinement.{verify_records_lem}
use inbar.Memory.Append.{
  Request, MemoryFile, Observations, Ending, settled, unsynced, short, broken, changed, gone,
  load_file, torn, write_line, prepare, append_memory, grown, max_memory_bytes, new_record, build,
}

no_tail : (bytes : List ℕ) → raise_if (not (length bytes == 0)) malformed_line ≡ ok tt → bytes ≡ []
no_tail [] h = refl
no_tail (b ∷ bytes) h = ground arith

module _ {Float : Type 0} (prims : Primitives Float) where
  -- The records load.
  pub record Loads (records : List (ResearchMemoryRecord Float)) : Type 0 where
    pub each : validate_all prims records ≡ ok tt
    pub memory : IsMemory prims records

  pub load-Loads :
      (records rs : List (ResearchMemoryRecord Float))
      → load_memory_records prims records ≡ ok rs
      → Loads records × (rs ≡ records)
  unfolding load_memory_records
  load-Loads records rs h =
      let (each, rest) = then-eq-ok (validate_all prims records) h in
      let (v, verified, done) = bind-eq-ok (verify_records prims records) _ rest in
      (
        record { each = each; memory = ((verify_records_lem prims records).0 v verified).0 },
        ground arith,
      )

  pub Loads-load :
      (records : List (ResearchMemoryRecord Float))
      → Loads records
      → load_memory_records prims records ≡ ok records
  unfolding load_memory_records
  Loads-load records l = rw (l.each, (verify_records_lem prims records).1 l.memory)

  validate_all-append :
      (xs : List (ResearchMemoryRecord Float)) (r : ResearchMemoryRecord Float)
      → validate_all prims xs ≡ ok tt
      → validate_record prims r ≡ ok tt
      → validate_all prims (xs ++ r ∷ []) ≡ ok tt
  unfolding validate_all
  validate_all-append [] r h v = rw v
  validate_all-append (x ∷ xs) r h v =
      let (one, rest) = then-eq-ok (validate_record prims x) h in
      rw one (validate_all-append xs r rest v)

  validate_all-prefix :
      (xs ys : List (ResearchMemoryRecord Float))
      → validate_all prims (xs ++ ys) ≡ ok tt
      → validate_all prims xs ≡ ok tt
  unfolding validate_all
  validate_all-prefix [] ys h = refl
  validate_all-prefix (x ∷ xs) ys h =
      let (one, rest) = then-eq-ok (validate_record prims x) h in
      rw one (validate_all-prefix xs ys rest)

  -- Every prefix of a loadable memory loads.
  pub Loads-prefix : (xs ys : List (ResearchMemoryRecord Float)) → Loads (xs ++ ys) → Loads xs
  Loads-prefix xs ys l = record {
    each = validate_all-prefix xs ys l.each;
    memory = λ before r after e.
        l.memory before r (after ++ ys)
          (ap (λ zs. zs ++ ys) e ∙ append_assoc before (r ∷ after) ys);
  }

  build_facts :
      (request : Request Float) (size : ℕ) (records : List (ResearchMemoryRecord Float))
      (r : ResearchMemoryRecord Float)
      → build prims request size records ≡ ok r
      → (r ≡ new_record prims request records)
        × (validate_record prims r ≡ ok tt)
        × IsMemory prims (records ++ r ∷ [])
        × (size + prims.line_length r ≤ max_memory_bytes)
  unfolding build
  build_facts request size records r h =
      let made = new_record prims request records in
      let valid : validate_record prims made ≡ ok tt = ground arith in
      let verified : (verify_records prims (records ++ made ∷ []) >>= λ _. ok made) ≡ ok made =
        ground arith in
      let (v, again, _) = bind-eq-ok (verify_records prims (records ++ made ∷ [])) _ verified in
      let same : made ≡ r = ground arith in
      rw (← same)
        (refl, valid, ((verify_records_lem prims (records ++ made ∷ [])).0 v again).0, ground arith)

  pub load_file-Loads :
      (file : MemoryFile Float) (rs : List (ResearchMemoryRecord Float))
      → load_file prims file ≡ ok rs
      → (file.tail ≡ []) × Loads file.records × (rs ≡ file.records)
  load_file-Loads file rs h =
      let (whole, loaded) = then-eq-ok (raise_if (not (length file.tail == 0)) malformed_line) h in
      let (loads, same) = load-Loads file.records rs loaded in
      (no_tail file.tail whole, loads, same)

  pub Loads-load_file :
      (file : MemoryFile Float)
      → file.tail ≡ []
      → Loads file.records
      → load_file prims file ≡ ok file.records
  Loads-load_file file whole l = rw whole (Loads-load file.records l)

  prepare-Loads :
      (seen : Observations) (request : Request Float) (file : MemoryFile Float)
      (r : ResearchMemoryRecord Float)
      → prepare prims seen request file ≡ ok r
      → (r ≡ new_record prims request file.records)
        × Loads (file.records ++ r ∷ [])
        × (file.size + prims.line_length r ≤ max_memory_bytes)
        × (file.tail ≡ [])
  unfolding prepare
  prepare-Loads seen request file r h =
      let (_, h1) = then-eq-ok (raise_if (not seen.opens) unavailable) h in
      let (_, h2) = then-eq-ok (raise_if (ltb max_memory_bytes file.size) byte_limit) h1 in
      let (_, h3) = then-eq-ok (raise_if (not seen.stable_read) changed_while_read) h2 in
      let (rs, loaded, built) = bind-eq-ok (load_file prims file) _ h3 in
      let (whole, before, same) = load_file-Loads file rs loaded in
      let (new, valid, memory, fits) =
        build_facts request file.size file.records r (rw same at built) in
      (
        new,
        record { each = validate_all-append file.records r before.each valid; memory = memory },
        fits,
        whole,
      )

  -- The file behind an append: the old records and the new one, which load, within the byte limit.
  pub record IsGrown (request : Request Float) (file file' : MemoryFile Float)
      (r : ResearchMemoryRecord Float) : Type 0 where
    pub new : r ≡ new_record prims request file.records
    pub records : file'.records ≡ file.records ++ r ∷ []
    pub whole : file'.tail ≡ []
    pub loads : load_file prims file' ≡ ok file'.records
    pub fits : file'.size ≤ max_memory_bytes

  -- The file behind a write that broke off: the old records, and some bytes where none were.
  pub record IsTorn (file file' : MemoryFile Float) (bytes : List ℕ) : Type 0 where
    pub before : file.tail ≡ []
    pub records : file'.records ≡ file.records
    pub bytes_added : file'.tail ≡ bytes
    pub size : file'.size ≡ file.size + length bytes

  torn_facts :
      (file : MemoryFile Float) (bytes : List ℕ)
      → file.tail ≡ []
      → IsTorn file (torn prims file bytes) bytes
  torn_facts file bytes whole = record {
    before = whole;
    records = refl;
    bytes_added = refl;
    size = refl;
  }

  -- What an append can return or raise, and how it then leaves the file.
  abbrev pub Outcome :
      Ending Float
      → Request Float
      → MemoryFile Float
      → Result MemoryError (ResearchMemoryRecord Float) × MemoryFile Float
      → Type 0
  Outcome ending request file p =
      ((r : ResearchMemoryRecord Float) × (p.0 ≡ ok r) × IsGrown request file p.1 r)
      ⊎ ((r : ResearchMemoryRecord Float) × (p.0 ≡ err write_failed) × IsGrown request file p.1 r)
      ⊎ ((bytes : List ℕ) × ((p.0 ≡ err append_incomplete) ⊎ (p.0 ≡ err write_failed))
          × IsTorn file p.1 bytes)
      ⊎ ((ending ≡ changed p.1) × (p.0 ≡ err changed_while_appended))
      ⊎ ((ending ≡ gone p.1) × (p.0 ≡ err changed_while_read))
      ⊎ ((e : MemoryError) × (p.0 ≡ err e) × (p.1 ≡ file))

  prepare-IsGrown :
      (seen : Observations) (request : Request Float) (file : MemoryFile Float)
      (r : ResearchMemoryRecord Float)
      → prepare prims seen request file ≡ ok r
      → IsGrown request file (grown prims file r) r
  prepare-IsGrown seen request file r prepared =
      let (new, loads, fits, _) = prepare-Loads seen request file r prepared in
      record {
        new = new;
        records = refl;
        whole = refl;
        loads = Loads-load_file (grown prims file r) refl loads;
        fits = fits;
      }

  write_line-Outcome :
      (ending : Ending Float) (request : Request Float) (file : MemoryFile Float)
      (r : ResearchMemoryRecord Float)
      → file.tail ≡ []
      → IsGrown request file (grown prims file r) r
      → Outcome ending request file (write_line prims ending file r)
  write_line-Outcome settled request file r whole grew = inl (r, refl, grew)
  write_line-Outcome unsynced request file r whole grew = inr (inl (r, refl, grew))
  write_line-Outcome (short bytes) request file r whole grew =
      inr (inr (inl (bytes, inl refl, torn_facts file bytes whole)))
  write_line-Outcome (broken bytes) request file r whole grew =
      inr (inr (inl (bytes, inr refl, torn_facts file bytes whole)))
  write_line-Outcome (changed other) request file r whole grew = inr (inr (inr (inl (refl, refl))))
  write_line-Outcome (gone other) request file r whole grew =
      inr (inr (inr (inr (inl (refl, refl)))))

  append_memory-prepared :
      (ending : Ending Float) (seen : Observations) (request : Request Float)
      (file : MemoryFile Float) (r : ResearchMemoryRecord Float)
      → prepare prims seen request file ≡ ok r
      → append_memory prims ending seen request file ≡ write_line prims ending file r
  unfolding append_memory
  append_memory-prepared ending seen request file r prepared = ground (arith, prepared)

  append_memory-refused :
      (ending : Ending Float) (seen : Observations) (request : Request Float)
      (file : MemoryFile Float) (e : MemoryError)
      → prepare prims seen request file ≡ err e
      → append_memory prims ending seen request file ≡ (err e, file)
  unfolding append_memory
  append_memory-refused ending seen request file e raised = ground (arith, raised)

  -- An append has one of six outcomes. It returns the new record, and the file has grown by it, loads
  -- again and is within the byte limit. It raises behind the write, with the file grown in the same
  -- way. It raises in a write that broke off: the file had no bytes behind its last line, and has the
  -- same records and the bytes that were written. It raises because the file was found changed behind
  -- the write, or gone, and the file is the other one. Or it raises, and the file is as it was.
  pub append_memory_outcomes :
      (ending : Ending Float) (seen : Observations) (request : Request Float)
      (file : MemoryFile Float)
      → Outcome ending request file (append_memory prims ending seen request file)
  append_memory_outcomes ending seen request file =
      elim (Result-cases (prepare prims seen request file)) [
        | inr (e, raised) ↦
            rw (append_memory-refused ending seen request file e raised)
              (inr (inr (inr (inr (inr (e, refl, refl))))))
        | inl (r, prepared) ↦
            let (_, _, _, whole) = prepare-Loads seen request file r prepared in
            rw (append_memory-prepared ending seen request file r prepared) (
              write_line-Outcome ending request file r whole
                (prepare-IsGrown seen request file r prepared))
      ]

  write_line-eq-ok :
      (ending : Ending Float) (file file' : MemoryFile Float) (made r : ResearchMemoryRecord Float)
      → write_line prims ending file made ≡ (ok r, file')
      → (made ≡ r) × (grown prims file made ≡ file')
  write_line-eq-ok settled file file' made r h = (cc, ap (λ p. p.1) h)
  write_line-eq-ok unsynced file file' made r h = cc
  write_line-eq-ok (short bytes) file file' made r h = cc
  write_line-eq-ok (broken bytes) file file' made r h = cc
  write_line-eq-ok (changed other) file file' made r h = cc
  write_line-eq-ok (gone other) file file' made r h = cc

  pub append_memory-IsGrown :
      (ending : Ending Float) (seen : Observations) (request : Request Float)
      (file file' : MemoryFile Float) (r : ResearchMemoryRecord Float)
      → append_memory prims ending seen request file ≡ (ok r, file')
      → IsGrown request file file' r
  append_memory-IsGrown ending seen request file file' r h =
      elim (Result-cases (prepare prims seen request file)) [
        | inr (e, raised) ↦
            let refused = append_memory-refused ending seen request file e raised in cc
        | inl (made, prepared) ↦
            let (same, left) =
              write_line-eq-ok ending file file' made r
                (sym (append_memory-prepared ending seen request file made prepared) ∙ h) in
            let grew = prepare-IsGrown seen request file made prepared in rw (← left, ← same) grew
      ]
