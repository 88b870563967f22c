-- ===== src/Memory/Anchors.antt =====
-- Which evidence the validator of MemoryEvidenceRef in src/fieldtrue/memory.py accepts.
use inbar.Prelude.{
  String, Option, none, some, Bool, true, false, ◌≡◌, ◌≢◌, ◌⊎◌, inl, inr, ◌↔◌, ◌<◌, refl, arith,
  ◌&&◌, ◌==◌, codes, length, is_hex, is_git_object_id, string_discrete, dec_mem, Mem, ok,
  then-eq-ok, require-eq-ok, require_holds, if_pos, if_neg,
}
use inbar.Memory.{
  public, sealed_heldout, MemoryEvidenceRef, SplitUrl, malformed_evidence, not_https,
}
use inbar.Memory.Evidence.{
  is_none, contains_code, roles, malformed_option, check_evidence_fields, check_external,
  check_repository, check_anchor, validate_evidence, IsRepositoryAnchor, IsExternalAnchor,
  repository_anchor, external_anchor, is_public, is_sealed,
}

-- The fields have their form.
pub record HasFields (e : MemoryEvidenceRef) : Type 0 where
  pub role : Mem e.role roles
  pub uri : 0 < length (codes e.uri)
  pub hash : (s : String) → e.sha256 ≡ some s → is_hex 64 s ≡ true
  pub commit : (s : String) → e.git_commit ≡ some s → is_git_object_id s ≡ true
  pub media : 0 < length (codes e.media_type)

-- A URL without a query and a fragment.
pub record IsPlain (uri : String) : Type 0 where
  pub no_query : contains_code b'?' (codes uri) ≡ false
  pub no_fragment : contains_code b'#' (codes uri) ≡ false

-- The evidence is in form, anchored in one of the two ways, and not both sealed and public.
pub record IsEvidence (urlsplit : String → SplitUrl) (e : MemoryEvidenceRef) : Type 0 where
  pub fields : HasFields e
  pub anchored :
      (((urlsplit e.uri).scheme ≡ "") × IsRepositoryAnchor e)
      ⊎ (IsExternalAnchor e (urlsplit e.uri) × IsPlain e.uri)
  pub not_exposed : e.label_access ≡ sealed_heldout → e.access ≢ public

pub malformed_option_lem :
    (p : String → Bool) (o : Option String)
    → (malformed_option p o ≡ false) ↔ ((s : String) → o ≡ some s → p s ≡ true)
malformed_option_lem p none = (λ _ s e. cc, λ _. refl)
malformed_option_lem p (some t) = (λ h s e. ground arith, λ f. rw (f t refl) refl)

fields_iff : (e : MemoryEvidenceRef) → (check_evidence_fields e ≡ ok tt) ↔ HasFields e
unfolding check_evidence_fields
fields_iff e = (
  λ h.
      let (role, rest) =
        require-eq-ok (dec_mem string_discrete e.role roles) malformed_evidence h in
      let hash : malformed_option (is_hex 64) e.sha256 ≡ false = ground arith in
      let commit : malformed_option is_git_object_id e.git_commit ≡ false = ground arith in
      record {
        role = role;
        uri = ground arith;
        hash = (malformed_option_lem (is_hex 64) e.sha256).0 hash;
        commit = (malformed_option_lem is_git_object_id e.git_commit).0 commit;
        media = ground arith;
      },
  λ f.
      let uri : (length (codes e.uri) == 0) ≡ false = ground (arith, f.uri) in
      let media : (length (codes e.media_type) == 0) ≡ false = ground (arith, f.media) in
      rw
        (
          require_holds (dec_mem string_discrete e.role roles) malformed_evidence f.role,
          uri,
          (malformed_option_lem (is_hex 64) e.sha256).1 f.hash,
          (malformed_option_lem is_git_object_id e.git_commit).1 f.commit,
          media,
        )
        refl,
)

repository_iff : (e : MemoryEvidenceRef) → IsRepositoryAnchor e → check_repository e ≡ ok tt
unfolding check_repository
repository_iff e a = rw (a.safe, a.at_commit) refl

external-IsPlain :
    (e : MemoryEvidenceRef) (parsed : SplitUrl) → check_external e parsed ≡ ok tt → IsPlain e.uri
unfolding check_external
external-IsPlain e parsed h = record { no_query = ground arith; no_fragment = ground arith }

external_iff :
    (e : MemoryEvidenceRef) (parsed : SplitUrl)
    → IsExternalAnchor e parsed
    → IsPlain e.uri
    → check_external e parsed ≡ ok tt
unfolding check_external
external_iff e parsed a p =
    rw
      (
        require_holds (string_discrete parsed.scheme "https") not_https a.https,
        a.host,
        a.no_username,
        a.no_password,
        p.no_query,
        p.no_fragment,
        a.hashed,
        a.no_commit,
      )
      refl

public_not_sealed :
    (e : MemoryEvidenceRef)
    → (e.label_access ≡ sealed_heldout → e.access ≢ public)
    → (is_public e.access && is_sealed e.label_access) ≡ false
public_not_sealed e apart = ground arith

https_not_empty : (s : String) → s ≡ "https" → s ≢ ""
https_not_empty s p q = cc

module _ (urlsplit : String → SplitUrl) (e : MemoryEvidenceRef) where
  anchor_forward :
      check_anchor e (urlsplit e.uri) ≡ ok tt
      → (((urlsplit e.uri).scheme ≡ "") × IsRepositoryAnchor e)
        ⊎ (IsExternalAnchor e (urlsplit e.uri) × IsPlain e.uri)
  anchor_forward h = elim (string_discrete (urlsplit e.uri).scheme "") [
    | yes p ↦ inl (p, repository_anchor e (rw (if_pos _ p) at h))
    | no n ↦
        let there : check_external e (urlsplit e.uri) ≡ ok tt = rw (if_neg _ n) at h in
        inr (external_anchor e (urlsplit e.uri) there, external-IsPlain e (urlsplit e.uri) there)
  ]

  anchor_back :
      (((urlsplit e.uri).scheme ≡ "") × IsRepositoryAnchor e)
        ⊎ (IsExternalAnchor e (urlsplit e.uri) × IsPlain e.uri)
      → (check_anchor e (urlsplit e.uri) ≡ ok tt)
        × ((is_none e.sha256 && is_none e.git_commit) ≡ false)
  anchor_back (inl (bare, a)) = (
    rw (if_pos (string_discrete (urlsplit e.uri).scheme "") bare) (repository_iff e a),
    rw (a.at_commit) (ground arith),
  )
  anchor_back (inr (a, p)) = (
    rw (if_neg (string_discrete (urlsplit e.uri).scheme "") (https_not_empty _ a.https))
        (external_iff e (urlsplit e.uri) a p),
    rw (a.hashed) refl,
  )

  -- Evidence validates exactly if it is in form, anchored and not exposed.
  pub validate_evidence_iff : (validate_evidence urlsplit e ≡ ok tt) ↔ IsEvidence urlsplit e
  unfolding validate_evidence
  validate_evidence_iff = (
    λ h.
        let (shaped, rest) = then-eq-ok (check_evidence_fields e) h in
        let (anchored, last) = then-eq-ok (check_anchor e (urlsplit e.uri)) rest in
        record {
          fields = (fields_iff e).0 shaped;
          anchored = anchor_forward anchored;
          not_exposed = ground arith;
        },
    λ v.
        let (anchor, some_anchor) = anchor_back v.anchored in
        rw ((fields_iff e).1 v.fields, anchor, some_anchor, public_not_sealed e v.not_exposed) refl,
  )
