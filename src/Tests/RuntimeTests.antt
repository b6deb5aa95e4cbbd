-- ===== src/Tests/RuntimeTests.antt =====
-- Tests of the runtime.
use ghostmesh.Prelude.{String, ◌≡◌, refl, Option, none, some, [], ◌∷◌, arith, lookup, nat_eq}
use ghostmesh.Python.{pos}
use ghostmesh.Errors.{nothing_claimable}
use ghostmesh.Result.{ok, err}
use ghostmesh.Domain.Work.{Card, Lease}
use ghostmesh.PanelValidator.{validate}
use ghostmesh.PanelValidator.Toy.{toy}
use ghostmesh.Runtime.State.{Runtime, lease, empty_runtime}
use ghostmesh.Runtime.Cards.{register_patch_panel}
use ghostmesh.Runtime.Calls.{create, claim, submit, perform, Run, start, registering, calling}
use ghostmesh.PanelValidator.Toy.{toy_laws}
use ghostmesh.PanelValidator.Meaning.{IsWellFormed}
use ghostmesh.PanelValidator.Soundness.{validate-IsWellFormed}
use ghostmesh.Runtime.Consistency.{IsConsistent}
use ghostmesh.Runtime.History.{Run-IsConsistent}
use ghostmesh.Runtime.Exclusion.{IsExclusive, Run-IsExclusive}
use ghostmesh.Runtime.Keyed.{perform_atomic}
use ghostmesh.Runtime.Replay.{perform_replay}
use ghostmesh.Tests.Samples.{py, panel, env, reference}
use ghostmesh.Tests.Running.{validator_runs, runtime_runs}

-- The sample panel is valid.
panel_valid : validate toy panel ≡ ok (record { node_count = 3; edge_count = 2; cycles = [] })
unfolding validator_runs
panel_valid = refl

validate-IsWellFormed_example : IsWellFormed panel
validate-IsWellFormed_example =
    validate-IsWellFormed toy toy_laws panel
      (record { node_count = 3; edge_count = 2; cycles = [] }) panel_valid

abbrev pub registered : Runtime
registered = (register_patch_panel toy panel empty_runtime).1

abbrev pub after_create : Runtime
after_create = (perform py (env 10 1) (create "hello" [] []) (some "k1") registered).1

abbrev pub after_claim : Runtime
after_claim = (perform py (env 20 2) (claim "write_in" "ann" (pos 300)) (some "k2") after_create).1

abbrev pub after_submit : Runtime
after_submit =
    (perform py (env 30 3) (submit 2 "write_out" (reference 7 1 ∷ [])) none after_claim).1

abbrev bucket_of : Option Card → Option String
bucket_of none = none
bucket_of (some c) = some c.current_bucket

-- Where the card stands after the worker's submission.
moved : bucket_of (lookup 1 after_submit.cards) ≡ some "done"
unfolding runtime_runs
moved = refl

pub claimed-Run : Run toy py 20 after_claim
claimed-Run =
    calling
      (calling (registering (start {t = 0}) panel) (env 10 1) (create "hello" [] []) (some "k1")
        (omega arith))
      (env 20 2) (claim "write_in" "ann" (pos 300)) (some "k2") (omega arith)

Run-IsConsistent_example : IsConsistent after_claim
Run-IsConsistent_example = Run-IsConsistent toy py claimed-Run

Run-IsExclusive_example : IsExclusive 25 after_claim.leases
Run-IsExclusive_example = Run-IsExclusive toy py claimed-Run 25 (omega arith)

-- A second worker finds nothing to claim.
second_claim :
    perform py (env 21 4) (claim "write_in" "bob" (pos 300)) none after_claim
    ≡ (err (nothing_claimable "todo"), after_claim)
unfolding runtime_runs
second_claim = refl

perform_atomic_example : after_claim ≡ after_claim
perform_atomic_example =
    perform_atomic py (env 21 4) (claim "write_in" "bob" (pos 300)) none after_claim after_claim
      (nothing_claimable "todo") second_claim

abbrev claimed : Lease
claimed = record {
  id = 2;
  card_id = 1;
  node_id = "writer";
  worker_id = "ann";
  input_pipe = "write_in";
  claimed_at = 20;
  expires_at = 300_000_020;
  released_at = none;
}

first_claim :
    perform py (env 20 2) (claim "write_in" "ann" (pos 300)) (some "k2") after_create
    ≡ (ok (lease claimed), after_claim)
unfolding runtime_runs
first_claim = refl

perform_replay_example :
    perform py (env 40 9) (claim "write_in" "ann" (pos 300)) (some "k2") after_claim
    ≡ (ok (lease claimed), after_claim)
perform_replay_example =
    perform_replay py (env 20 2) (env 40 9) (claim "write_in" "ann" (pos 300)) "k2" after_create
      after_claim (lease claimed) refl first_claim
