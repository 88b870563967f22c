-- ===== src/Memory/Reload.antt =====
-- Memory files read again: what an append leaves, and what continues a base file.
use inbar.Prelude.{
  ℕ, ◌+◌, ◌≤◌, Option, none, some, List, [], ◌∷◌, ◌++◌, true, false, ltb, ◌≡◌, ◌↔◌, refl, sym, ap,
  ◌∙◌, arith, length, length-append, ok, bind-eq-ok, then-eq-ok, require-eq-ok, require_holds,
}
use inbar.Memory.{ResearchMemoryRecord, Primitives, not_a_prefix}
use inbar.Memory.Verify.{memory_genesis_hash}
use inbar.Memory.Spec.{last_hash, last_hash-append}
use inbar.Memory.Append.{
  Request, MemoryFile, Observations, Ending, append_memory, load_file, max_memory_bytes,
}
use inbar.Memory.Growth.{append_memory-IsGrown, load_file-Loads, Loads-load_file, Loads-prefix}
use inbar.Memory.Read.{
  read_present, read_memory_file, verify_memory, check_prefix, compared, verify_memory_prefix,
}

module _ {Float : Type 0} (prims : Primitives Float) where
  -- The file can be read: it opens, is within the byte limit, and does not change meanwhile.
  pub record IsReadable (seen : Observations) (file : MemoryFile Float) : Type 0 where
    pub opens : seen.opens ≡ true
    pub small : file.size ≤ max_memory_bytes
    pub stable : seen.stable_read ≡ true

  present-IsReadable :
      (seen : Observations) (file got : MemoryFile Float)
      → read_present prims seen file ≡ ok got
      → IsReadable seen file × (got ≡ file)
  unfolding read_present
  present-IsReadable seen file got h =
      (record { opens = ground arith; small = ground arith; stable = ground arith }, ground arith)

  IsReadable-read :
      (seen : Observations) (file : MemoryFile Float)
      → IsReadable seen file
      → read_memory_file prims false seen (some file) ≡ ok (some file)
  unfolding read_memory_file read_present
  IsReadable-read seen file r =
      let small : ltb max_memory_bytes file.size ≡ false = ground (arith, r.small) in
      rw (r.opens, small, r.stable) refl

  read-IsReadable :
      (seen : Observations) (file read : Option (MemoryFile Float))
      → read_memory_file prims false seen file ≡ ok read
      → (found : MemoryFile Float) × (file ≡ some found)
        × (read ≡ some found)
        × IsReadable seen found
  unfolding read_memory_file
  read-IsReadable seen none read h = cc
  read-IsReadable seen (some file) read h =
      let (got, present, done) = bind-eq-ok (read_present prims seen file) _ h in
      let (readable, same) = present-IsReadable seen file got present in (file, refl, cc, readable)

  -- If an append returns, the file it left verifies whenever it is read without disturbance: one
  -- record more than before, and the new record's hash at the head.
  pub append-verify_memory :
      (ending : Ending Float) (seen later : Observations) (request : Request Float)
      (file file' : MemoryFile Float) (r : ResearchMemoryRecord Float)
      → append_memory prims ending seen request file ≡ (ok r, file')
      → later.opens ≡ true
      → later.stable_read ≡ true
      → verify_memory prims later (some file') ≡ ok (length file.records + 1, r.event_hash)
  unfolding verify_memory read_memory_file read_present
  append-verify_memory ending seen later request file file' r h opens stable =
      let g = append_memory-IsGrown prims ending seen request file file' r h in
      let count : length file'.records ≡ length file.records + 1 =
        ap length g.records ∙ length-append file.records (r ∷ []) in
      let head : last_hash memory_genesis_hash file'.records ≡ r.event_hash =
        ap (last_hash memory_genesis_hash) g.records
        ∙ last_hash-append prims memory_genesis_hash file.records r in
      let small : ltb max_memory_bytes file'.size ≡ false = ground (arith, g.fits) in
      rw (opens, small, stable, g.loads, count, head) refl

module _ {Float : Type 0} (prims : Primitives Float)
    (dec : Discrete (ResearchMemoryRecord Float)) where
  prefix_rest :
      (base current : List (ResearchMemoryRecord Float)) (t u : List ℕ)
      → check_prefix prims dec base t current u ≡ ok tt
      → (rest : List (ResearchMemoryRecord Float)) × (current ≡ base ++ rest)
  prefix_rest [] current t u h = (current, refl)
  prefix_rest (b ∷ base) [] t u h = cc
  prefix_rest (b ∷ base) (c ∷ current) t u h =
      let (same, more) = require-eq-ok (dec b c) not_a_prefix h in
      let (rest, e) = prefix_rest base current t u more in (rest, cc)

  rest_prefix :
      (base rest : List (ResearchMemoryRecord Float)) (u : List ℕ)
      → check_prefix prims dec base [] (base ++ rest) u ≡ ok tt
  rest_prefix [] rest u = refl
  rest_prefix (b ∷ base) rest u =
      rw (require_holds (dec b b) not_a_prefix refl) (rest_prefix base rest u)

  -- Both files are there and can be read, and the current one, which loads, continues the base one.
  pub record IsContinued (seen_base seen_current : Observations)
      (base_file current_file : Option (MemoryFile Float)) (v : ℕ × ℕ) : Type 0 where
    pub base : MemoryFile Float
    pub current : MemoryFile Float
    pub rest : List (ResearchMemoryRecord Float)
    pub base_present : base_file ≡ some base
    pub current_present : current_file ≡ some current
    pub base_readable : IsReadable prims seen_base base
    pub current_readable : IsReadable prims seen_current current
    pub base_whole : base.tail ≡ []
    pub continues : current.records ≡ base.records ++ rest
    pub loads : load_file prims current ≡ ok current.records
    pub counts : v ≡ (length base.records, length current.records)

  compared-eq-ok :
      (base current : MemoryFile Float) (v : ℕ × ℕ)
      → compared prims dec (some base) (some current) ≡ ok v
      → (rest : List (ResearchMemoryRecord Float)) × (base.tail ≡ [])
        × (current.records ≡ base.records ++ rest)
        × (load_file prims current ≡ ok current.records)
        × (v ≡ (length base.records, length current.records))
  compared-eq-ok base current v h =
      let (prefix, h1) =
        then-eq-ok (check_prefix prims dec base.records base.tail current.records current.tail) h in
      let (rest, e) = prefix_rest base.records current.records base.tail current.tail prefix in
      let (bs, based, h2) = bind-eq-ok (load_file prims base) _ h1 in
      let (cs, loaded, h3) = bind-eq-ok (load_file prims current) _ h2 in
      let (whole, _, one) = load_file-Loads prims base bs based in
      let (ended, loads, two) = load_file-Loads prims current cs loaded in
      (rest, whole, e, Loads-load_file prims current ended loads, ground arith)

  -- The prefix check returns exactly when both files are there and can be read, the base file ends with
  -- a line, and the current one loads and continues it; it returns the two numbers of records.
  pub verify_memory_prefix_lem :
      (seen_base seen_current : Observations) (base current : Option (MemoryFile Float)) (v : ℕ × ℕ)
      → (verify_memory_prefix prims dec seen_base seen_current base current ≡ ok v)
        ↔ IsContinued seen_base seen_current base current v
  unfolding verify_memory_prefix
  verify_memory_prefix_lem seen_base seen_current base current v = (
    λ h.
        let (read_base, got, h1) = bind-eq-ok (read_memory_file prims false seen_base base) _ h in
        let (read_current, got', h2) =
          bind-eq-ok (read_memory_file prims false seen_current current) _ h1 in
        let (b, there, eb, rb) = read-IsReadable prims seen_base base read_base got in
        let (c, there', ec, rc) = read-IsReadable prims seen_current current read_current got' in
        let (rest, whole, continues, loads, counts) = compared-eq-ok b c v (rw (eb, ec) at h2) in
        record {
          base = b;
          current = c;
          rest = rest;
          base_present = there;
          current_present = there';
          base_readable = rb;
          current_readable = rc;
          base_whole = whole;
          continues = continues;
          loads = loads;
          counts = counts;
        },
    λ k.
        let (_, loads, _) = load_file-Loads prims k.current k.current.records k.loads in
        let based =
          Loads-load_file prims k.base k.base_whole
            (Loads-prefix prims k.base.records k.rest (rw k.continues at loads)) in
        let prefix : check_prefix prims dec k.base.records k.base.tail k.current.records
              k.current.tail
            ≡ ok tt =
          rw (k.base_whole, k.continues) (rest_prefix k.base.records k.rest k.current.tail) in
        rw
          (
            k.base_present,
            k.current_present,
            IsReadable-read prims seen_base k.base k.base_readable,
            IsReadable-read prims seen_current k.current k.current_readable,
            prefix,
            based,
            k.loads,
          )
          (ap ok (sym k.counts)),
  )
