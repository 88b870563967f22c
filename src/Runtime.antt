-- ===== src/Runtime.antt =====
-- RuntimeIdentity of src/fieldtrue/runtime.py: the description of the process that a receipt
-- carries, its validator, and the refusal of the historical state.
use inbar.Prelude.{
  String, Bool, true, false, ◌≡◌, refl, List, [], ◌∷◌, Option, none, some, arith, Result, ok, ◌>>=◌,
  ◌>>◌, raise_if, require, is_hex, is_git_object_id, string_discrete, ◌&&◌, ◌||◌, not,
}

pub data ProvenanceState : Type 0 where
  legacy_unbound observed_v1 : ProvenanceState

unfoldable pub ProvenanceState-discrete : Discrete ProvenanceState
ProvenanceState-discrete legacy_unbound legacy_unbound = yes refl
ProvenanceState-discrete legacy_unbound observed_v1 = no (λ e. cc)
ProvenanceState-discrete observed_v1 legacy_unbound = no (λ e. cc)
ProvenanceState-discrete observed_v1 observed_v1 = yes refl

pub record RuntimeIdentity : Type 0 where
  pub git_commit : String
  pub git_tree : String
  pub repository_dirty : Bool
  pub dirty_state_hash : String
  pub lockfile_hash : String
  pub python_version : String
  pub platform : String
  pub command : List String
  pub provenance_state : ProvenanceState
  pub python_interpreter_provenance_sha256 : Option String
  pub startup_provenance_sha256 : Option String
  pub environment_provenance_sha256 : Option String
  pub fieldtrue_source_sha256 : Option String
  pub loaded_module_closure_sha256 : Option String
  pub dependency_closure_sha256 : Option String

unfoldable pub RuntimeIdentity-discrete : Discrete RuntimeIdentity
RuntimeIdentity-discrete = hlevel (string_discrete, ProvenanceState-discrete)

pub data RuntimeError : Type 0 where
  malformed_field legacy_claims_hashes observed_lacks_hash not_observed : RuntimeError

-- `_PROVENANCE_HASH_FIELDS`, read off one identity
abbrev pub provenance_hashes : RuntimeIdentity → List (Option String)
provenance_hashes r =
    r.python_interpreter_provenance_sha256 ∷ r.startup_provenance_sha256
    ∷ r.environment_provenance_sha256 ∷ r.fieldtrue_source_sha256 ∷ r.loaded_module_closure_sha256
    ∷ r.dependency_closure_sha256 ∷ []

abbrev pub is_none : Option String → Bool
is_none none = true
is_none (some h) = false

any_hash : (Option String → Bool) → List (Option String) → Bool
any_hash p [] = false
any_hash p (h ∷ hs) = p h || any_hash p hs

malformed_hash : Option String → Bool
malformed_hash none = false
malformed_hash (some h) = not (is_hex 64 h)

abbrev pub is_legacy : ProvenanceState → Bool
is_legacy legacy_unbound = true
is_legacy observed_v1 = false

well_formed_fields : RuntimeIdentity → Bool
unfolding any_hash malformed_hash
well_formed_fields r =
    is_git_object_id r.git_commit
    && is_git_object_id r.git_tree
    && is_hex 64 r.dirty_state_hash
    && is_hex 64 r.lockfile_hash
    && not (any_hash malformed_hash (provenance_hashes r))

-- `model_validate`: the fields' patterns, then `_consistent_provenance`
unfoldable pub validate_runtime : RuntimeIdentity → Result RuntimeError RuntimeIdentity
unfolding well_formed_fields any_hash
validate_runtime r = do
  raise_if (not (well_formed_fields r)) malformed_field
  raise_if (is_legacy r.provenance_state && any_hash (λ h. not (is_none h)) (provenance_hashes r))
      legacy_claims_hashes
  raise_if (not (is_legacy r.provenance_state) && any_hash is_none (provenance_hashes r))
      observed_lacks_hash
  ok r

unfoldable pub require_observed_provenance : RuntimeIdentity → Result RuntimeError (Unit {0})
unfolding validate_runtime
require_observed_provenance r = do
  validated ← validate_runtime r
  require (ProvenanceState-discrete validated.provenance_state observed_v1) not_observed

-- Every provenance hash is there.
abbrev pub HasAllHashes : RuntimeIdentity → Type 0
HasAllHashes r =
    (is_none r.python_interpreter_provenance_sha256 ≡ false)
    × (is_none r.startup_provenance_sha256 ≡ false)
    × (is_none r.environment_provenance_sha256 ≡ false)
    × (is_none r.fieldtrue_source_sha256 ≡ false)
    × (is_none r.loaded_module_closure_sha256 ≡ false)
    × (is_none r.dependency_closure_sha256 ≡ false)

-- An identity that passes the boundary check is in the observed state and binds all six hashes.
pub require_observed_provenance_binds :
    (r : RuntimeIdentity)
    → require_observed_provenance r ≡ ok tt
    → (r.provenance_state ≡ observed_v1) × HasAllHashes r
unfolding require_observed_provenance
require_observed_provenance_binds r h = ground arith
