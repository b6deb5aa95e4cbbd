-- ===== src/Tests/ShadowTests.antt =====
-- Tests of the shadow service.
use ghostmesh.Prelude.{◌≡◌, ◌≤◌, refl, none, [], ◌∷◌, true, length, nat_eq, string_eq}
use ghostmesh.Python.{pos, str}
use ghostmesh.Errors.{too_many_shadows}
use ghostmesh.Result.{ok, err}
use ghostmesh.Domain.Work.{Card}
use ghostmesh.Domain.Shadow.{ProposedMutation}
use ghostmesh.PanelValidator.Toy.{toy, toy_laws}
use ghostmesh.Runtime.Shadow.{
  Shadow, ShadowEnv, ShadowPolicy, ShadowRun, active_links, create_shadow_card, propose_mutation,
  validate_mutation, promote_mutation, judged, promoted_one, new_mutation, shadow_metadata_of,
  link_data, new_link,
}
use ghostmesh.Runtime.Shadow.Limits.{create_shadow_card-IsWithin}
use ghostmesh.Runtime.Shadow.Promotion.{IsPromoted, promote_mutation-IsPromoted}
use ghostmesh.Tests.Samples.{py, panel, env}
use ghostmesh.Tests.EffectTests.{with_card, new_card}
use ghostmesh.Tests.Running.{shadow_runs}

abbrev clock : ShadowEnv
clock = record { new_id = 40; now = 50; for_card = env 51 60; for_event = env 52 70 }

abbrev one_at_a_time : ShadowPolicy
one_at_a_time = record { sample_rate = pos 1; max_parallel = pos 1 }

abbrev start : Shadow
start = record { runtime = with_card; links = []; mutations = [] }

abbrev with_shadow : Shadow
with_shadow = (create_shadow_card py clock new_card "cand" one_at_a_time none start).1

abbrev shadow : Card
shadow = record new_card {
  id = 60;
  metadata = shadow_metadata_of py clock new_card "cand";
  created_at = 51;
}

abbrev first_run : ShadowRun
first_run = record {
  production_card = new_card;
  shadow_card = shadow;
  shadow_metadata =
      ("production_card_id", str (py.uuid_text 5))
      ∷ link_data py clock (new_link py clock new_card "cand" shadow);
}

shadowed :
    create_shadow_card py clock new_card "cand" one_at_a_time none start
    ≡ (ok first_run, with_shadow)
unfolding shadow_runs
shadowed = refl

create_shadow_card-IsWithin_example : length (active_links 5 with_shadow) ≤ 1
create_shadow_card-IsWithin_example =
    create_shadow_card-IsWithin py clock new_card "cand" one_at_a_time none start with_shadow
      first_run shadowed

-- The second shadow is refused.
refused :
    create_shadow_card py clock new_card "cand" one_at_a_time none with_shadow
    ≡ (err (too_many_shadows 5), with_shadow)
unfolding shadow_runs
refused = refl

abbrev accepted : ProposedMutation
accepted = judged py clock true "val" none (new_mutation py clock "panel" "ann" [])

abbrev with_mutation : Shadow
with_mutation =
    (validate_mutation py clock 40 true "val" none
      (propose_mutation py clock "panel" "ann" [] start).1).1

abbrev with_promotion : Shadow
with_promotion = (promote_mutation py clock toy 40 panel with_mutation).1

promotion :
    promote_mutation py clock toy 40 panel with_mutation
    ≡ (ok (promoted_one py clock accepted), with_promotion)
unfolding shadow_runs
promotion = refl

promote_mutation-IsPromoted_example :
    IsPromoted toy toy_laws py clock 40 panel
      (promoted_one py clock accepted)
      with_mutation
      with_promotion
promote_mutation-IsPromoted_example =
    promote_mutation-IsPromoted toy toy_laws py clock 40 panel with_mutation with_promotion
      (promoted_one py clock accepted) promotion
