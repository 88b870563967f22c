-- ===== src/Memory/Spec.antt =====
-- What a research memory promises at every record, with no reference to the loop that checks it.
use mathlib.Core.List.{map-append}
use inbar.Prelude.{
  String, Option, none, some, List, [], ◌∷◌, ◌++◌, map, Mem, Bool, true, false, ◌≡◌, ◌↔◌, refl, ◌∙◌,
  arith, ◌||◌, length, All, ok, sym, require-eq-ok, require_iff, subst, require_holds, forbid_holds,
  forbid-eq-ok, then-eq-ok, string_discrete, ℕ_discrete, dec_mem,
}
use inbar.Memory.{
  ResearchMemoryRecord, Primitives, link_not_earlier, not_contiguous, duplicate_event_id,
  correction_not_earlier,
}
use inbar.Memory.Verify.{
  Scan, memory_genesis_hash, is_inbar, verify_record, check_links, check_correction, advance,
}

module _ {Float : Type 0} where
  abbrev pub event_ids : List (ResearchMemoryRecord Float) → List String
  event_ids = map (λ (r : ResearchMemoryRecord Float). r.event_id)

  abbrev pub last_hash : String → List (ResearchMemoryRecord Float) → String
  last_hash p [] = p
  last_hash p (r ∷ rs) = last_hash r.event_hash rs

  abbrev pub has_inbar : List (ResearchMemoryRecord Float) → Bool
  has_inbar [] = false
  has_inbar (r ∷ rs) = is_inbar r.mission_id || has_inbar rs

module _ {Float : Type 0} (prims : Primitives Float) where
  -- The record `r` may stand behind the records `before`.
  pub record MayStandBehind (before : List (ResearchMemoryRecord Float))
      (r : ResearchMemoryRecord Float) : Type 0 where
    pub numbered : r.sequence ≡ length before
    pub fresh : ¬ Mem r.event_id (event_ids before)
    pub corrects : (t : String) → r.corrects_event_id ≡ some t → Mem t (event_ids before)
    pub linked : All (λ (l : String × String). Mem l.1 (event_ids before)) r.links
    pub chained : r.previous_event_hash ≡ last_hash memory_genesis_hash before
    pub hashed : prims.record_digest r.record_body ≡ r.event_hash
    pub identity : has_inbar before ≡ true → is_inbar r.mission_id ≡ true

  -- Every record may stand behind those before it.
  abbrev pub IsMemory : List (ResearchMemoryRecord Float) → Type 0
  IsMemory records =
      (before : List (ResearchMemoryRecord Float)) (r : ResearchMemoryRecord Float)
      (after : List (ResearchMemoryRecord Float))
      → records ≡ before ++ r ∷ after
      → MayStandBehind before r

  -- The local variables after the records `before`.
  abbrev pub state : List (ResearchMemoryRecord Float) → Scan
  state before = record {
    previous = last_hash memory_genesis_hash before;
    identifiers = event_ids before;
    inbar_identity_started = has_inbar before;
  }

  pub last_hash-append :
      (p : String) (rs : List (ResearchMemoryRecord Float)) (r : ResearchMemoryRecord Float)
      → last_hash p (rs ++ r ∷ []) ≡ r.event_hash
  last_hash-append p [] r = refl
  last_hash-append p (x ∷ xs) r = last_hash-append x.event_hash xs r

  has_inbar-append :
      (rs : List (ResearchMemoryRecord Float)) (r : ResearchMemoryRecord Float)
      → has_inbar (rs ++ r ∷ []) ≡ (has_inbar rs || is_inbar r.mission_id)
  has_inbar-append [] r = ground arith
  has_inbar-append (x ∷ xs) r = ground (arith, has_inbar-append xs r)

  links_iff :
      (links : List (String × String)) (ids : List String)
      → (check_links links ids ≡ ok tt) ↔ All (λ (l : String × String). Mem l.1 ids) links
  unfolding check_links
  links_iff [] ids = (λ _. tt, λ _. refl)
  links_iff ((k, t) ∷ links) ids = (
    λ h.
        let (one, rest) = require-eq-ok (dec_mem string_discrete t ids) link_not_earlier h in
        (one, (links_iff links ids).0 rest),
    λ h.
        rw (require_holds (dec_mem string_discrete t ids) link_not_earlier h.0)
          ((links_iff links ids).1 h.1),
  )

  correction_iff :
      (o : Option String) (ids : List String)
      → (check_correction o ids ≡ ok tt) ↔ ((t : String) → o ≡ some t → Mem t ids)
  correction_iff none ids = (λ _ t e. cc, λ _. refl)
  correction_iff (some x) ids = (
    λ h t e.
        let same : x ≡ t = cc in
        subst (λ y. Mem y ids) same
          ((require_iff (dec_mem string_discrete x ids) correction_not_earlier).0 h),
    λ h. require_holds (dec_mem string_discrete x ids) correction_not_earlier (h x refl),
  )

  state-append :
      (before : List (ResearchMemoryRecord Float)) (r : ResearchMemoryRecord Float)
      → state (before ++ r ∷ []) ≡ advance prims (state before) r
  state-append before r = rw (last_hash-append, map-append, has_inbar-append)

  pub step_accepts :
      (before : List (ResearchMemoryRecord Float)) (r : ResearchMemoryRecord Float) (s : Scan)
      → verify_record prims (state before) (length before) r ≡ ok s
      → MayStandBehind before r × (s ≡ state (before ++ r ∷ []))
  unfolding verify_record
  step_accepts before r s h =
      let ids = event_ids before in
      let (numbered, h1) = require-eq-ok (ℕ_discrete r.sequence (length before)) not_contiguous h in
      let (fresh, h2) =
        forbid-eq-ok (dec_mem string_discrete r.event_id ids) duplicate_event_id h1 in
      let (corrected, h3) = then-eq-ok (check_correction r.corrects_event_id ids) h2 in
      let (linked, h4) = then-eq-ok (check_links r.links ids) h3 in
      let h5 : MayStandBehind before r × (s ≡ advance prims (state before) r) = (
        record {
          numbered = numbered;
          fresh = fresh;
          corrects = (correction_iff r.corrects_event_id ids).0 corrected;
          linked = (links_iff r.links ids).0 linked;
          chained = ground arith;
          hashed = ground arith;
          identity = ground arith;
        },
        ground arith,
      ) in
      (h5.0, h5.1 ∙ sym (state-append before r))

  pub step_complete :
      (before : List (ResearchMemoryRecord Float)) (r : ResearchMemoryRecord Float)
      → MayStandBehind before r
      → verify_record prims (state before) (length before) r ≡ ok (state (before ++ r ∷ []))
  unfolding verify_record
  step_complete before r m =
      let ids = event_ids before in
      rw
        (
          require_holds (ℕ_discrete r.sequence (length before)) not_contiguous m.numbered,
          forbid_holds (dec_mem string_discrete r.event_id ids) duplicate_event_id m.fresh,
          (correction_iff r.corrects_event_id ids).1 m.corrects,
          (links_iff r.links ids).1 m.linked,
          state-append before r,
        )
        (ground (arith, m.chained, m.hashed, m.identity))
