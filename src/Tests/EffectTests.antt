-- ===== src/Tests/EffectTests.antt =====
-- Tests of what the runtime's operations leave behind.
use ghostmesh.Prelude.{
  ℕ, ◌≡◌, ◌↔◌, refl, In, values, none, some, List, [], ◌∷◌, lookup, nat_eq, string_eq,
}
use ghostmesh.Errors.{lease_already_released, panel_not_registered}
use ghostmesh.Result.{Result, ok, err}
use ghostmesh.Domain.Panel.{PatchPanel}
use ghostmesh.Domain.Work.{ArtifactReference, Card, Lease}
use ghostmesh.PanelValidator.Toy.{toy}
use ghostmesh.Runtime.State.{Runtime, get_patch_panel_for_card, empty_runtime}
use ghostmesh.Runtime.Cards.{create_card, register_patch_panel}
use ghostmesh.Runtime.Leases.{Turn, submit_artifact, expire_leases}
use ghostmesh.Runtime.History.{Run-IsConsistent}
use ghostmesh.Runtime.Effects.{IsSubmitted, submit_artifact-IsSubmitted, submit_artifact_twice}
use ghostmesh.Runtime.Expiry.{IsTable, IsDue, IsLeft, expire_leases_exact}
use ghostmesh.Runtime.Versions.{create_card-get_patch_panel_for_card}
use ghostmesh.Tests.Samples.{py, panel, env, reference}
use ghostmesh.Tests.RuntimeTests.{registered, after_claim, after_submit, claimed-Run}
use ghostmesh.Tests.Running.{runtime_runs}

abbrev bound : List ArtifactReference
bound = record (reference 7 1) { card_id = 1; event_id = some 3 } ∷ []

submit_once :
    submit_artifact py (env 30 3) 2 "write_out" (reference 7 1 ∷ []) none after_claim
    ≡ (ok bound, after_submit)
unfolding runtime_runs
submit_once = refl

submit_artifact-IsSubmitted_example :
    IsSubmitted py (env 30 3) 2 "write_out" (reference 7 1 ∷ []) bound after_claim after_submit
submit_artifact-IsSubmitted_example =
    submit_artifact-IsSubmitted py (env 30 3) 2 "write_out" (reference 7 1 ∷ []) bound after_claim
      after_submit submit_once

submit_artifact_twice_example :
    submit_artifact py (env 31 4) 2 "write_out" [] none after_submit
    ≡ (err (lease_already_released 2), after_submit)
submit_artifact_twice_example =
    submit_artifact_twice py (env 30 3) (env 31 4) 2 "write_out" "write_out" (reference 7 1 ∷ []) []
      bound after_claim after_submit (Run-IsConsistent toy py claimed-Run) submit_once

abbrev turns : ℕ → Turn
turns i = record { event_id = 9; occurred_at = 300_000_021 }

abbrev at_expiry : List Lease × Runtime
at_expiry = expire_leases py (env 300_000_020 9) turns after_claim

one_lease : IsTable after_claim.leases
unfolding runtime_runs
one_lease = (refl, refl, tt)

expire_leases_exact_example :
    ((i : ℕ) (l : Lease)
      → lookup i after_claim.leases ≡ some l
      → IsDue 300_000_020 l
      → lookup i at_expiry.1.leases ≡ some (record l { released_at = some 300_000_020 }))
    × ((i : ℕ) (l : Lease)
        → lookup i after_claim.leases ≡ some l
        → IsLeft 300_000_020 l
        → lookup i at_expiry.1.leases ≡ some l)
    × ((i : ℕ) → lookup i after_claim.leases ≡ none → lookup i at_expiry.1.leases ≡ none)
    × ((r : Lease)
        → In r at_expiry.0 ↔ (
            (l : Lease) × In l (values after_claim.leases)
            × IsDue 300_000_020 l
            × (r ≡ record l { released_at = some 300_000_020 })))
expire_leases_exact_example = expire_leases_exact py (env 300_000_020 9) turns after_claim one_lease

abbrev ended : Lease
ended = record {
  id = 2;
  card_id = 1;
  node_id = "writer";
  worker_id = "ann";
  input_pipe = "write_in";
  claimed_at = 20;
  expires_at = 300_000_020;
  released_at = some 300_000_020;
}

-- At its expiry the lease ends, and not before.
ended_returned : at_expiry.0 ≡ ended ∷ []
unfolding runtime_runs
ended_returned = refl

none_early : (expire_leases py (env 300_000_019 9) turns after_claim).0 ≡ []
unfolding runtime_runs
none_early = refl

abbrev pub new_card : Card
new_card = record {
  id = 5;
  workflow_version = "hello:1.0";
  current_bucket = "todo";
  payload = [];
  metadata = [];
  created_at = 10;
}

abbrev pub with_card : Runtime
with_card = (create_card (env 10 5) "hello" [] [] none registered).1

created : create_card (env 10 5) "hello" [] [] none registered ≡ (ok new_card, with_card)
unfolding runtime_runs
created = refl

create_card-get_patch_panel_for_card_example :
    get_patch_panel_for_card new_card with_card ≡ ok panel
unfolding runtime_runs
create_card-get_patch_panel_for_card_example =
    create_card-get_patch_panel_for_card (env 10 5) [] [] panel registered with_card with_card
      new_card refl refl created refl

-- A version with a colon: the panel is valid, and its cards do not find it.
abbrev dated : PatchPanel
dated = record panel { version = "1:0" }

abbrev panel_of : Result Card × Runtime → Result PatchPanel
panel_of (ok c, rt) = get_patch_panel_for_card c rt
panel_of (err e, rt) = err e

colon_loses_panel :
    panel_of
      (create_card (env 10 5) "hello" [] [] none (register_patch_panel toy dated empty_runtime).1)
    ≡ err (panel_not_registered "hello:1")
unfolding runtime_runs
colon_loses_panel = refl
