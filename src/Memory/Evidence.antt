-- ===== src/Memory/Evidence.antt =====
-- The validator of MemoryEvidenceRef in src/fieldtrue/memory.py: evidence is anchored by content or
-- by a Git commit.
use inbar.Prelude.{
  ℕ, String, Option, none, some, List, [], ◌∷◌, Bool, true, false, ◌≡◌, ◌≢◌, ◌⊎◌, inl, inr, refl,
  arith, ◌&&◌, ◌||◌, not, ◌==◌, if◌then◌else◌, codes, length, is_hex, is_git_object_id,
  string_discrete, dec_mem, ok, Check, ◌>>◌, raise_if, require, then-eq-ok, ite, if_pos, if_neg,
}
use inbar.Memory.{
  AccessClass, public, LabelAccess, sealed_heldout, MemoryEvidenceRef, SplitUrl, MemoryError,
  not_https, credentials_in_uri, query_or_fragment, needs_content_hash, commit_on_external,
  unsafe_path, needs_git_commit, needs_anchor, sealed_public, malformed_evidence,
}

abbrev pub is_none : Option String → Bool
is_none none = true
is_none (some s) = false

-- `not s`, for a text that may be absent
abbrev pub is_blank : Option String → Bool
is_blank none = true
is_blank (some s) = length (codes s) == 0

unfoldable pub contains_code : ℕ → List ℕ → Bool
contains_code c [] = false
contains_code c (d ∷ ds) = (c == d) || contains_code c ds

abbrev push : ℕ → List (List ℕ) → List (List ℕ)
push c [] = (c ∷ []) ∷ []
push c (s ∷ ss) = (c ∷ s) ∷ ss

-- The text between the slashes.
segments : List ℕ → List (List ℕ)
segments [] = [] ∷ []
segments (c ∷ cs) = let rest = segments cs in if c == b'/' then [] ∷ rest else push c rest

is_parent : List ℕ → Bool
is_parent (c ∷ d ∷ []) = (c == b'.') && (d == b'.')
is_parent _ = false

any_parent : List (List ℕ) → Bool
unfolding is_parent
any_parent [] = false
any_parent (s ∷ ss) = is_parent s || any_parent ss

abbrev starts_with_slash : List ℕ → Bool
starts_with_slash [] = false
starts_with_slash (c ∷ cs) = c == b'/'

-- `PurePosixPath(uri)` is absolute, or has the part `..`.
unfoldable pub is_unsafe_path : String → Bool
unfolding segments any_parent
is_unsafe_path uri = starts_with_slash (codes uri) || any_parent (segments (codes uri))

abbrev pub roles : List String
roles = "input" ∷ "raw" ∷ "derived" ∷ "verifier" ∷ "source" ∷ "approval" ∷ []

abbrev pub is_public : AccessClass → Bool
is_public public = true
is_public _ = false

abbrev pub is_sealed : LabelAccess → Bool
is_sealed sealed_heldout = true
is_sealed _ = false

abbrev pub malformed_option : (String → Bool) → Option String → Bool
malformed_option p none = false
malformed_option p (some s) = not (p s)

-- The patterns of the fields.
unfoldable pub check_evidence_fields : MemoryEvidenceRef → Check MemoryError
check_evidence_fields e = do
  require (dec_mem string_discrete e.role roles) malformed_evidence
  raise_if (length (codes e.uri) == 0) malformed_evidence
  raise_if (malformed_option (is_hex 64) e.sha256) malformed_evidence
  raise_if (malformed_option is_git_object_id e.git_commit) malformed_evidence
  raise_if (length (codes e.media_type) == 0) malformed_evidence

-- The branch for a URI with a scheme.
unfoldable pub check_external : MemoryEvidenceRef → SplitUrl → Check MemoryError
unfolding contains_code
check_external e parsed = do
  require (string_discrete parsed.scheme "https") not_https
  raise_if (is_blank parsed.hostname) not_https
  raise_if (not (is_none parsed.username) || not (is_none parsed.password)) credentials_in_uri
  raise_if (contains_code b'?' (codes e.uri) || contains_code b'#' (codes e.uri)) query_or_fragment
  raise_if (is_none e.sha256) needs_content_hash
  raise_if (not (is_none e.git_commit)) commit_on_external

-- The branch for a path in the repository.
unfoldable pub check_repository : MemoryEvidenceRef → Check MemoryError
check_repository e = do
  raise_if (is_unsafe_path e.uri) unsafe_path
  raise_if (is_none e.git_commit) needs_git_commit

-- `if parsed.scheme: … else: …`
abbrev pub check_anchor : MemoryEvidenceRef → SplitUrl → Check MemoryError
check_anchor e parsed =
    ite (string_discrete parsed.scheme "") (check_repository e) (check_external e parsed)

unfoldable pub validate_evidence : (String → SplitUrl) → MemoryEvidenceRef → Check MemoryError
unfolding check_evidence_fields check_external check_repository
validate_evidence urlsplit e = do
  check_evidence_fields e
  let parsed = urlsplit e.uri
  check_anchor e parsed
  raise_if (is_none e.sha256 && is_none e.git_commit) needs_anchor
  raise_if (is_public e.access && is_sealed e.label_access) sealed_public

-- An anchor in the repository: a safe path at a commit.
pub record IsRepositoryAnchor (e : MemoryEvidenceRef) : Type 0 where
  pub commit : String
  pub at_commit : e.git_commit ≡ some commit
  pub safe : is_unsafe_path e.uri ≡ false

-- An external anchor: HTTPS with a host and no credentials, bound by its content hash alone.
pub record IsExternalAnchor (e : MemoryEvidenceRef) (parsed : SplitUrl) : Type 0 where
  pub hash : String
  pub https : parsed.scheme ≡ "https"
  pub host : is_blank parsed.hostname ≡ false
  pub no_username : parsed.username ≡ none
  pub no_password : parsed.password ≡ none
  pub hashed : e.sha256 ≡ some hash
  pub no_commit : e.git_commit ≡ none

present_of_not_none : (o : Option String) → is_none o ≡ false → (s : String) × (o ≡ some s)
present_of_not_none none h = cc
present_of_not_none (some s) h = (s, refl)

pub repository_anchor : (e : MemoryEvidenceRef) → check_repository e ≡ ok tt → IsRepositoryAnchor e
unfolding check_repository
repository_anchor e h =
    let there : is_none e.git_commit ≡ false = ground arith in
    let (commit, at_commit) = present_of_not_none e.git_commit there in
    record { commit = commit; at_commit = at_commit; safe = ground arith }

pub external_anchor :
    (e : MemoryEvidenceRef) (parsed : SplitUrl)
    → check_external e parsed ≡ ok tt
    → IsExternalAnchor e parsed
unfolding check_external
external_anchor e parsed h =
    let there : is_none e.sha256 ≡ false = ground arith in
    let (hash, hashed) = present_of_not_none e.sha256 there in
    record {
      hash = hash;
      https = ground arith;
      host = ground arith;
      no_username = ground arith;
      no_password = ground arith;
      hashed = hashed;
      no_commit = ground arith;
    }

module _ (urlsplit : String → SplitUrl) (e : MemoryEvidenceRef) where
  one_anchor :
      check_anchor e (urlsplit e.uri) ≡ ok tt
      → IsRepositoryAnchor e ⊎ IsExternalAnchor e (urlsplit e.uri)
  one_anchor h = elim (string_discrete (urlsplit e.uri).scheme "") [
    | yes p ↦ inl (repository_anchor e (rw (if_pos _ p) at h))
    | no n ↦ inr (external_anchor e (urlsplit e.uri) (rw (if_neg _ n) at h))
  ]

  -- Evidence that validates is anchored in one of two ways: a safe path at a Git commit, or
  -- an HTTPS URL with a host and without credentials, bound by its hash and no commit. And sealed
  -- held-out evidence that validates is not public.
  pub validate_evidence_anchors :
      validate_evidence urlsplit e ≡ ok tt
      → (IsRepositoryAnchor e ⊎ IsExternalAnchor e (urlsplit e.uri))
        × (e.label_access ≡ sealed_heldout → e.access ≢ public)
  unfolding validate_evidence
  validate_evidence_anchors h =
      let (_, rest) = then-eq-ok (check_evidence_fields e) h in
      let (anchored, last) = then-eq-ok (check_anchor e (urlsplit e.uri)) rest in
      (one_anchor anchored, ground arith)
