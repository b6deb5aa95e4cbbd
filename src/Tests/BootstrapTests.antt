-- ===== src/Tests/BootstrapTests.antt =====
-- Tests of the bootstrap of the system's panels.
use ghostmesh.Prelude.{ℕ, ◌≡◌, refl, true, false, [], ◌∷◌, Bool, List, map}
use ghostmesh.Result.{Result, ok, err}
use ghostmesh.Nodes.{refused}
use ghostmesh.PanelValidator.Toy.{toy}
use ghostmesh.Runtime.State.{empty_runtime}
use ghostmesh.Bootstrap.{System, BootstrapResult, EntryEnv, Files, install, bootstrap}
use ghostmesh.Bootstrap.Settled.{install_again}
use ghostmesh.Tests.Samples.{panel}
use ghostmesh.Tests.Running.{bootstrap_runs}

abbrev files : Files
files = record {
  load = λ path. ok panel;
  resolve = λ path. path;
  read_metadata = λ v. refused "unreadable";
}

abbrev entry_at : ℕ → EntryEnv
entry_at n = record { id = n; created_at = 10; updated_at = 10 }

abbrev blank : System
blank = record { runtime = empty_runtime; registry = [] }

abbrev installed : System
installed = (install toy files (entry_at 1) "hello.yaml" blank).1

abbrev both_new : BootstrapResult
both_new = record {
  patch_panel_id = "hello";
  version = "1.0";
  registered_runtime = true;
  registered_registry = true;
}

installs : install toy files (entry_at 1) "hello.yaml" blank ≡ (ok both_new, installed)
unfolding bootstrap_runs
installs = refl

install_again_example :
    install toy files (entry_at 2) "hello.yaml" installed
    ≡ (ok (record both_new { registered_runtime = false; registered_registry = false }), installed)
install_again_example =
    install_again toy files (entry_at 1) (entry_at 2) "hello.yaml" blank installed both_new installs

abbrev flags : Result (List BootstrapResult) → List Bool
flags (ok rs) = map (λ (r : BootstrapResult). r.registered_runtime) rs
flags (err e) = []

-- Two paths to one panel: the second finds it.
twice :
    flags (bootstrap toy files entry_at 1 ("a.yaml" ∷ "b.yaml" ∷ []) blank).0 ≡ true ∷ false ∷ []
unfolding bootstrap_runs
twice = refl
