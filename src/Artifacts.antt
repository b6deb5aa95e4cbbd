-- ===== src/Artifacts.antt =====
-- artifacts/validation.py: what an acceptance contract asks of the submitted artifact references.
use text.Mathlib.Text.{starts_with}
use ghostmesh.Prelude.{
  ℕ, String, Bool, false, not, Option, none, some, List, [], ◌∷◌, map, ltb, if◌then◌else◌, ◌==◌,
  string_eq, length, keep, any, is_text, lookup, is_empty,
}
use ghostmesh.Python.{ℤ, pos, negsuc, Json, null, arr, nil, num, Payload}
use ghostmesh.Python.{Conversions, is_str, iterate, is_negative}
use ghostmesh.Errors.{
  storage_ref_missing, hash_not_sha256, size_invalid, too_few_artifacts, roles_missing, bad_value,
}
use ghostmesh.Result.{Result, ok, ◌>>=◌, ◌>>◌, raise_if, or_raise}
use ghostmesh.Domain.Panel.{AcceptanceContract}
use ghostmesh.Domain.Work.{ArtifactReference}

-- The loop of `_validate_structure` raises at the first reference that fails.
pub validate_structure : List ArtifactReference → Result Unit
validate_structure [] = ok tt
validate_structure (ref ∷ refs) =
    let rest = validate_structure refs in
    do
      raise_if (not (is_text ref.storage_ref)) storage_ref_missing
      raise_if (not (starts_with ref.content_hash "sha256:")) (hash_not_sha256 ref.id)
      raise_if (is_negative ref.size_bytes) (size_invalid ref.id)
      rest

-- `value` of `d.get(key, default)`
abbrev get_or : Json → Option Json → Json
get_or default none = default
get_or default (some v) = v

-- `len(artifact_refs) < min_count`
abbrev fewer : ℕ → ℤ → Bool
fewer n (pos m) = ltb n m
fewer n (negsuc _) = false

module _ (py : Conversions) where
  pub role_of : ArtifactReference → String
  role_of ref = py.str_of (get_or null (lookup "role" ref.metadata))

  pub missing_roles : List ArtifactReference → List String → List String
  unfolding role_of
  missing_roles refs required = keep (λ role. not (any (λ r. role == role_of r) refs)) required

  pub validate_required_artifacts : List ArtifactReference → Payload → Result Unit
  validate_required_artifacts refs rule = do
    min_count ← or_raise (py.int_of (get_or (num (pos 1)) (lookup "min_count" rule))) bad_value
    raise_if (fewer (length refs) min_count) too_few_artifacts
    roles ← or_raise (iterate (get_or (arr nil) (lookup "roles" rule))) bad_value
    let missing = missing_roles refs (map py.str_of roles)
    raise_if (not (is_empty missing)) (roles_missing missing)

  pub apply_rule : List ArtifactReference → Payload → Result Unit
  apply_rule refs rule =
      if is_str "artifact_reference_structure" (lookup "type" rule)
      then validate_structure refs
      else if is_str "required_artifacts" (lookup "type" rule)
      then validate_required_artifacts refs rule
      else ok tt

  pub apply_rules : List ArtifactReference → List Payload → Result Unit
  apply_rules refs [] = ok tt
  apply_rules refs (rule ∷ rules) =
      let rest = apply_rules refs rules in apply_rule refs rule >> rest

  unfoldable pub validate_artifact_references :
      List ArtifactReference → Option AcceptanceContract → Result Unit
  unfolding apply_rules
  validate_artifact_references refs none = ok tt
  validate_artifact_references refs (some contract) = apply_rules refs contract.rules
