-- ===== src/Bootstrap/Settled.antt =====
-- defaults/bootstrap.py: a path that has been installed.
use ghostmesh.Prelude.{
  String, ◌≡◌, refl, sym, ap, subst, ◌∙◌, Bool, true, false, ◌&&◌, List, any, In, In-keep,
  In-values, refuted_by_any, lookup, lookup-insert_self, values, arith, string_eq, nat_eq, beq_self,
  inl, inr, Bool-cases, ◌==◌,
}
use ghostmesh.Result.{ok, ok_injective}
use ghostmesh.Exec.{◌>>=◌, ◌>>◌, >>=-eq-returned, >>=-lift, >>=-gets, zoom_returned}
use ghostmesh.Domain.Panel.{PatchPanel}
use ghostmesh.Domain.Registry.{PatchPanelRegistryEntry, from_patch_panel}
use ghostmesh.PanelValidator.{GraphLibrary}
use ghostmesh.Registry.{Registry, register, search, entry_matches}
use ghostmesh.Runtime.State.{Runtime}
use ghostmesh.Runtime.Cards.{list_patch_panels, register_patch_panel}
use ghostmesh.Nodes.Sinks.{every_entry}
use ghostmesh.Nodes.Publication.{registered}
use ghostmesh.Bootstrap.{
  System, BootstrapResult, EntryEnv, Files, in_runtime, in_registry, install, unless, nothing,
  register_in_runtime, register_entry, new_entry, registry_metadata_for,
}

any_of_one :
    {A : Type 0} (p : A → Bool) (xs : List A) (a : A) → In a xs → p a ≡ true → any p xs ≡ true
any_of_one p xs a m h = elim (Bool-cases (any p xs)) [
  | inl found ↦ found
  | inr missing ↦ absurd (ground (arith, h, refuted_by_any p xs a missing m))
]

in_runtime-registered :
    (nx : GraphLibrary) (panel p : PatchPanel) (rt rt' : Runtime)
    → register_patch_panel nx panel rt ≡ (ok p, rt')
    → in_runtime panel rt' ≡ true
unfolding in_runtime list_patch_panels
in_runtime-registered nx panel p rt rt' h =
    let (_, there) = registered nx panel rt rt' p h in
    any_of_one _ (values rt'.patch_panels) panel (In-values panel.id panel _ there)
      (ground (arith, beq_self panel.id, beq_self panel.version))

in_registry-register :
    (panel : PatchPanel) (e : PatchPanelRegistryEntry) (reg : Registry)
    → e.patch_panel_id ≡ panel.id
    → e.version ≡ panel.version
    → in_registry panel (register e reg) ≡ true
unfolding in_registry search register entry_matches every_entry
in_registry-register panel e reg a b =
    any_of_one (λ x. x.patch_panel_id == panel.id && x.version == panel.version) _ e
      ((In-keep (λ x. entry_matches x every_entry) (values _) e).1
        (In-values e.id e _ (lookup-insert_self e.id e reg), refl))
      (ground (
        arith,
        (string_eq.beq_iff e.patch_panel_id panel.id).1 a,
        (string_eq.beq_iff e.version panel.version).1 b,
      ))

-- The panel of a path is in use and listed.
record IsInstalled (files : Files) (path : String) (panel : PatchPanel) (s : System) : Type 0 where
  pub loaded : files.load path ≡ ok panel
  pub used : in_runtime panel s.runtime ≡ true
  pub listed : in_registry panel s.registry ≡ true

module _ (nx : GraphLibrary) (files : Files) where
  -- Either part of the installation leaves its own test true, and the other part alone.
  first_part :
      (panel : PatchPanel) (s s1 : System) (u : Unit {0})
      → unless (in_runtime panel s.runtime) (register_in_runtime nx panel >> nothing) s ≡ (ok u, s1)
      → (in_runtime panel s1.runtime ≡ true)
  first_part panel s s1 u h = elim (Bool-cases (in_runtime panel s.runtime)) [
    | inl already ↦
        subst (λ x. in_runtime panel x.runtime ≡ true)
          (ap (λ x. x.1)
            (sym (ap (λ b. unless b (register_in_runtime nx panel >> nothing) s) already) ∙ h))
          already
    | inr not_yet ↦
        let registering =
          sym (ap (λ b. unless b (register_in_runtime nx panel >> nothing) s) not_yet) ∙ h in
        let (p, s2, call, ending) =
          >>=-eq-returned (register_in_runtime nx panel) _ s registering in
        let (rt, good, put_there) = zoom_returned _ _ (register_patch_panel nx panel) s s2 p call in
        subst (λ x. in_runtime panel x.runtime ≡ true) (put_there ∙ ap (λ x. x.1) ending)
          (in_runtime-registered nx panel p s.runtime rt good)
  ]

  second_part :
      (env : EntryEnv) (path : String) (panel : PatchPanel) (s s1 : System) (u : Unit {0})
      → unless (in_registry panel s.registry) (register_entry files env path panel) s ≡ (ok u, s1)
      → (in_registry panel s1.registry ≡ true) × (s1.runtime ≡ s.runtime)
  unfolding from_patch_panel
  second_part env path panel s s1 u h = elim (Bool-cases (in_registry panel s.registry)) [
    | inl already ↦
        let same =
          ap (λ x. x.1)
            (sym (ap (λ b. unless b (register_entry files env path panel) s) already) ∙ h) in
        (
          subst (λ x. in_registry panel x.registry ≡ true) same already,
          sym (ap (λ x. x.runtime) same),
        )
    | inr not_yet ↦
        let entering =
          sym (ap (λ b. unless b (register_entry files env path panel) s) not_yet) ∙ h in
        let (m, _, h1) =
          >>=-lift (registry_metadata_for files (lookup "registry" panel.metadata)) _ s entering in
        let same = ap (λ x. x.1) h1 in
        (
          subst (λ x. in_registry panel x.registry ≡ true) same
              (in_registry-register panel (new_entry files env path panel m) s.registry refl refl),
          sym (ap (λ x. x.runtime) same),
        )
  ]

  install-IsInstalled :
      (env : EntryEnv) (path : String) (s s' : System) (r : BootstrapResult)
      → install nx files env path s ≡ (ok r, s')
      → (panel : PatchPanel) × IsInstalled files path panel s'
        × (r.patch_panel_id ≡ panel.id)
        × (r.version ≡ panel.version)
  unfolding install
  install-IsInstalled env path s s' r h =
      let (panel, loaded, h1) = >>=-lift (files.load path) _ s h in
      let h2 = >>=-gets _ _ s h1 in
      let (u, s1, first_step, h3) =
        >>=-eq-returned
          (unless (in_runtime panel s.runtime) (register_in_runtime nx panel >> nothing)) _ s h2 in
      let h4 = >>=-gets _ _ s1 h3 in
      let (v, s2, second_step, h5) =
        >>=-eq-returned
          (unless (in_registry panel s1.registry) (register_entry files env path panel)) _ s1 h4 in
      let used = first_part panel s s1 u first_step in
      let (listed, same_runtime) = second_part env path panel s1 s2 v second_step in
      let result = ok_injective _ _ (ap (λ x. x.0) h5) in
      (
        panel,
        subst (IsInstalled files path panel) (ap (λ x. x.1) h5) (record {
          loaded = loaded;
          used = subst (λ rt. in_runtime panel rt ≡ true) (sym same_runtime) used;
          listed = listed;
        }),
        sym (ap (λ x. x.patch_panel_id) result),
        sym (ap (λ x. x.version) result),
      )

  installed_again :
      (env : EntryEnv) (path : String) (panel : PatchPanel) (s : System)
      → IsInstalled files path panel s
      → install nx files env path s ≡ (
        ok (record {
          patch_panel_id = panel.id;
          version = panel.version;
          registered_runtime = false;
          registered_registry = false;
        }),
        s,
      )
  unfolding install ◌>>=◌
  installed_again env path panel s i = rw (i.loaded, i.used, i.listed) refl

  -- When a path is installed again at once, in the state that its installation has left, the runtime
  -- and the registry stay as they are, and the result names the same panel and reports no
  -- registration.
  pub install_again :
      (env env' : EntryEnv) (path : String) (s s' : System) (r : BootstrapResult)
      → install nx files env path s ≡ (ok r, s')
      → install nx files env' path s'
        ≡ (ok (record r { registered_runtime = false; registered_registry = false }), s')
  install_again env env' path s s' r h =
      let (panel, i, a, b) = install-IsInstalled env path s s' r h in
      installed_again env' path panel s' i ∙ (λ j. (
        ok (record {
          patch_panel_id = sym a j;
          version = sym b j;
          registered_runtime = false;
          registered_registry = false;
        }),
        s',
      ))
