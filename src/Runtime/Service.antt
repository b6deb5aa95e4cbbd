-- ===== src/Runtime/Service.antt =====
-- runtime/service.py: the functions that every runtime shares.
use ghostmesh.Prelude.{
  ℕ, ◌+◌, ◌-◌, ◌*◌, suc, String, Bool, false, not, Option, none, some, List, [], ◌∷◌, leb,
  if◌then◌else◌, ◌==◌, string_eq, nat_eq, first, any, is_some, is_text, lookup,
}
use ghostmesh.Python.{ℤ, pos, negsuc, Conversions}
use ghostmesh.Errors.{
  panel_without_source, source_without_pipe, source_pipe_unbound, pipe_unbound,
  pipe_direction_differs, pipe_undeclared, bucket_undeclared, contract_unknown, no_artifacts,
  artifact_of_other_card, lease_already_released, lease_has_expired,
}
use ghostmesh.Result.{Result, ok, err, ◌>>=◌, ◌>>◌, raise_if, or_raise}
use ghostmesh.Domain.Panel.{
  source, NodeDefinition, Direction, input, output, PatchPanel, type_eq, direction_eq,
}
use ghostmesh.Domain.Work.{ArtifactReference, Card, Lease}
use ghostmesh.Artifacts.{validate_artifact_references}

first_pipe : List String → Option String
first_pipe [] = none
first_pipe (pipe ∷ _) = some pipe

unfoldable pub resolve_initial_bucket : PatchPanel → Result String
unfolding first_pipe
resolve_initial_bucket panel = do
  node ← or_raise (first (λ n. n.type == source) panel.nodes) panel_without_source
  pipe ← or_raise (first_pipe node.output_pipes) (source_without_pipe node.id)
  binding ← or_raise (lookup pipe panel.pipe_bindings) (source_pipe_unbound pipe)
  ok binding.bucket

abbrev pub pipes_of : Direction → NodeDefinition → List String
pipes_of input node = node.input_pipes
pipes_of output node = node.output_pipes

unfoldable pub find_node_for_pipe : List NodeDefinition → String → Direction → Result String
find_node_for_pipe [] pipe direction = err (pipe_undeclared pipe)
find_node_for_pipe (node ∷ nodes) pipe direction =
    if any (λ p. pipe == p) (pipes_of direction node)
    then ok node.id
    else find_node_for_pipe nodes pipe direction

-- `binding.direction and binding.direction != direction`
abbrev pub other_direction : Option Direction → Direction → Bool
other_direction none d = false
other_direction (some c) d = not (c == d)

-- `binding.node or _find_node_for_pipe(...)`
abbrev pub node_or : Option String → Result String → Result String
node_or none found = found
node_or (some node) found = if is_text node then ok node else found

unfoldable pub resolve_pipe_bucket : PatchPanel → String → Direction → Result (String × String)
unfolding find_node_for_pipe
resolve_pipe_bucket panel pipe direction = do
  binding ← or_raise (lookup pipe panel.pipe_bindings) (pipe_unbound pipe)
  raise_if (other_direction binding.direction direction) (pipe_direction_differs pipe)
  node_id ← node_or binding.node (find_node_for_pipe panel.nodes pipe direction)
  ok (binding.bucket, node_id)

abbrev pub has_bucket : PatchPanel → String → Bool
has_bucket panel bucket_id = any (λ b. bucket_id == b.id) panel.buckets

unfoldable pub ensure_bucket_exists : PatchPanel → String → Result Unit
ensure_bucket_exists panel bucket_id =
    raise_if (not (has_bucket panel bucket_id)) (bucket_undeclared bucket_id)

-- `now` is the reading of the clock in the call.
unfoldable pub ensure_active_lease : (now : ℕ) → Lease → Result Unit
ensure_active_lease now lease = do
  raise_if (is_some lease.released_at) (lease_already_released lease.id)
  raise_if (leb lease.expires_at now) (lease_has_expired lease.id)

-- `instant + timedelta(seconds=seconds)`
abbrev pub add_seconds : ℕ → ℤ → ℕ
add_seconds t (pos n) = t + 1_000_000 * n
add_seconds t (negsuc n) = t - 1_000_000 * suc n

-- `id` is the new `uuid4`; the clock reads `now` for `claimed_at` and `later` for the expiry.
unfoldable pub new_lease :
    (id now later : ℕ) → Card → (node_id worker_id input_pipe : String) → (seconds : ℤ) → Lease
new_lease id now later card node_id worker_id input_pipe seconds = record {
  id = id;
  card_id = card.id;
  node_id = node_id;
  worker_id = worker_id;
  input_pipe = input_pipe;
  claimed_at = now;
  expires_at = add_seconds later seconds;
  released_at = none;
}

unfoldable pub ensure_artifacts_accepted :
    Conversions → PatchPanel → String → List ArtifactReference → Result Unit
ensure_artifacts_accepted py panel destination refs = do
  bucket ← or_raise (first (λ b. b.id == destination) panel.buckets) (bucket_undeclared destination)
  elim bucket.acceptance_contract [
    | none ↦ ok tt
    | some contract_id ↦ do
      contract ←
          or_raise (first (λ c. c.id == contract_id) panel.acceptance_contracts)
            (contract_unknown destination contract_id)
      validate_artifact_references py refs (some contract)
  ]

unfoldable pub all_of_card : ℕ → List ArtifactReference → Result Unit
all_of_card card_id [] = ok tt
all_of_card card_id (ref ∷ refs) =
    if ref.card_id == card_id
    then all_of_card card_id refs
    else err (artifact_of_other_card ref.id ref.card_id)

unfoldable pub ensure_artifact_refs_belong_to_card : ℕ → List ArtifactReference → Result Unit
unfolding all_of_card
ensure_artifact_refs_belong_to_card card_id [] = err no_artifacts
ensure_artifact_refs_belong_to_card card_id (ref ∷ refs) = all_of_card card_id (ref ∷ refs)
