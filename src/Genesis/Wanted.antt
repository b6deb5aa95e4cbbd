-- ===== src/Genesis/Wanted.antt =====
-- genesis/service.py: which entries of the registry `GenesisService.search_candidates` looks for, told
-- apart from the searches that it makes.
use ghostmesh.Prelude.{
  String, ◌≡◌, ◌≢◌, ◌↔◌, ◌⊎◌, refl, sym, subst, inl, inr, Bool, true, false, Option, none, some,
  List, [], ◌∷◌, ◌++◌, map, In, In-mem, In-append, In-map, In-keep, of_In-map, nat_eq, string_eq,
  option_eq, arith, Bool-cases, is_text, values, if◌then◌else◌,
}
use ghostmesh.Domain.Registry.{
  GenesisIntent, PatchPanelRegistryEntry, archived, superseded, status_eq,
}
use ghostmesh.Registry.{Registry, PatchPanelRegistrySearch, no_filter, search, entry_matches}
use ghostmesh.Genesis.{filters_of}

abbrev pub Matched : Registry → List PatchPanelRegistrySearch → PatchPanelRegistryEntry → Type 0
Matched reg fs e = (f : PatchPanelRegistrySearch) × In f fs × In e (search f reg)

-- A text is among those of an entry; the empty text asks for nothing.
abbrev pub IsAmong : String → List String → Type 0
IsAmong s texts = (s ≡ "") ⊎ In s texts

-- What makes an entry a candidate of an intent.
pub record IsWanted (i : GenesisIntent) (reg : Registry) (e : PatchPanelRegistryEntry)
    : Type 0 where
  pub listed : In e (values reg)
  pub not_archived : e.status ≢ archived
  pub not_superseded : e.status ≢ superseded
  pub why :
      IsAmong i.input_type e.input_types
      ⊎ (((o : String) × In o i.desired_outputs × IsAmong o e.output_types)
          ⊎ (((t : String) × In t i.tags × IsAmong t e.tags)
              ⊎ ((r : String) × (i.constraints.risk_level ≡ some r)
                  × (r ≢ "")
                  × (e.risk_level ≡ some r))))

is_text-empty : (s : String) → (is_text s ≡ false) ↔ (s ≡ "")
is_text-empty String.[] = ((λ _. refl), (λ _. refl))
is_text-empty (String.◌∷◌ c s) = ((λ h. absurd (cc)), (λ h. absurd (cc)))

abbrev IsOpen : PatchPanelRegistryEntry → Type 0
IsOpen e = (e.status ≢ archived) × (e.status ≢ superseded)

module _ (e : PatchPanelRegistryEntry) (s : String) where
  by_input :
      (entry_matches e (record no_filter { input_type = some s }) ≡ true)
      ↔ (IsOpen e × IsAmong s e.input_types)
  unfolding entry_matches
  by_input = ground (
    arith,
    is_text-empty s,
    In-mem s e.input_types,
    status_eq.beq_iff e.status archived,
    status_eq.beq_iff e.status superseded,
  )

  by_output :
      (entry_matches e (record no_filter { output_type = some s }) ≡ true)
      ↔ (IsOpen e × IsAmong s e.output_types)
  unfolding entry_matches
  by_output = ground (
    arith,
    is_text-empty s,
    In-mem s e.output_types,
    status_eq.beq_iff e.status archived,
    status_eq.beq_iff e.status superseded,
  )

  by_tag :
      (entry_matches e (record no_filter { tag = some s }) ≡ true) ↔ (IsOpen e × IsAmong s e.tags)
  unfolding entry_matches
  by_tag = ground (
    arith,
    is_text-empty s,
    In-mem s e.tags,
    status_eq.beq_iff e.status archived,
    status_eq.beq_iff e.status superseded,
  )

  by_risk :
      is_text s ≡ true
      → (entry_matches e (record no_filter { risk_level = some s }) ≡ true)
        ↔ (IsOpen e × (e.risk_level ≡ some s))
  unfolding entry_matches
  by_risk t = ground (
    arith,
    t,
    (option_eq {A = String}).beq_iff (some s) e.risk_level,
    status_eq.beq_iff e.status archived,
    status_eq.beq_iff e.status superseded,
  )

-- The four kinds of search, one by one.
module _ (i : GenesisIntent) (e : PatchPanelRegistryEntry) where
  abbrev IsHit : PatchPanelRegistrySearch → Type 0
  IsHit f = entry_matches e f ≡ true

  abbrev Reason : Type 0
  Reason =
      IsAmong i.input_type e.input_types
      ⊎ (((o : String) × In o i.desired_outputs × IsAmong o e.output_types)
          ⊎ (((t : String) × In t i.tags × IsAmong t e.tags)
              ⊎ ((r : String) × (i.constraints.risk_level ≡ some r)
                  × (r ≢ "")
                  × (e.risk_level ≡ some r))))

  abbrev risk_filters : Option String → List PatchPanelRegistrySearch
  risk_filters risk = elim risk [
    | none ↦ []
    | some r ↦ if is_text r then record no_filter { risk_level = some r } ∷ [] else []
  ]

  abbrev risk_filter : String → Bool → List PatchPanelRegistrySearch
  risk_filter r b = if b then record no_filter { risk_level = some r } ∷ [] else []

  risk_hit :
      (risk : Option String) (f : PatchPanelRegistrySearch)
      → In f (risk_filters risk)
      → IsHit f
      → IsOpen e × ((r : String) × (risk ≡ some r) × (r ≢ "") × (e.risk_level ≡ some r))
  risk_hit none f m h = absurd m
  risk_hit (some r) f m h = elim (Bool-cases (is_text r)) [
    | inr empty ↦ absurd (subst (λ b. In f (risk_filter r b)) empty m)
    | inl t ↦ elim (subst (λ b. In f (risk_filter r b)) t m) [
      | inr b ↦ absurd b
      | inl p ↦
          let (is_open, at) = (by_risk e r t).0 (subst IsHit p h) in
          (is_open, (r, refl, (λ q. ground (arith, (is_text-empty r).1 q, t)), at))
    ]
  ]

  risk-IsHit :
      (risk : Option String) (r : String)
      → risk ≡ some r
      → r ≢ ""
      → IsOpen e
      → e.risk_level ≡ some r
      → (f : PatchPanelRegistrySearch) × In f (risk_filters risk) × IsHit f
  risk-IsHit risk r p ne is_open at = elim (Bool-cases (is_text r)) [
    | inr empty ↦ absurd (ne ((is_text-empty r).0 empty))
    | inl t ↦ (
      record no_filter { risk_level = some r },
      subst (λ x. In (record no_filter { risk_level = some r }) (risk_filters x)) (sym p)
          (rw t (inl refl)),
      (by_risk e r t).1 (is_open, at),
    )
  ]

  abbrev search_output : String → PatchPanelRegistrySearch
  search_output o = record no_filter { output_type = some o }

  abbrev search_tag : String → PatchPanelRegistrySearch
  search_tag t = record no_filter { tag = some t }

  abbrev of_outputs : List PatchPanelRegistrySearch
  of_outputs = map search_output i.desired_outputs

  abbrev of_tags : List PatchPanelRegistrySearch
  of_tags = map search_tag i.tags

  abbrev of_risk : List PatchPanelRegistrySearch
  of_risk = risk_filters i.constraints.risk_level

  hit_reason : (f : PatchPanelRegistrySearch) → In f (filters_of i) → IsHit f → IsOpen e × Reason
  hit_reason f (inl p) h =
      let (is_open, at) = (by_input e i.input_type).0 (subst IsHit p h) in (is_open, inl at)
  hit_reason f (inr m) h = elim ((In-append (of_outputs ++ of_tags) of_risk f).0 m) [
    | inr last ↦
        let (is_open, why) = risk_hit i.constraints.risk_level f last h in
        (is_open, inr (inr (inr why)))
    | inl m' ↦ elim ((In-append of_outputs of_tags f).0 m') [
      | inl among ↦
          let (o, there, p) = of_In-map search_output i.desired_outputs f among in
          let (is_open, at) = (by_output e o).0 (subst IsHit p h) in
          (is_open, inr (inl (o, there, at)))
      | inr among ↦
          let (t, there, p) = of_In-map search_tag i.tags f among in
          let (is_open, at) = (by_tag e t).0 (subst IsHit p h) in
          (is_open, inr (inr (inl (t, there, at))))
    ]
  ]

  reason-IsHit : IsOpen e → Reason → (f : PatchPanelRegistrySearch) × In f (filters_of i) × IsHit f
  reason-IsHit is_open (inl at) = (_, inl refl, (by_input e i.input_type).1 (is_open, at))
  reason-IsHit is_open (inr (inl (o, there, at))) = (
    search_output o,
    inr (
        (In-append (of_outputs ++ of_tags) of_risk (search_output o)).1 (
          inl (
            (In-append of_outputs of_tags (search_output o)).1
              (inl (In-map search_output i.desired_outputs o there))))),
    (by_output e o).1 (is_open, at),
  )
  reason-IsHit is_open (inr (inr (inl (t, there, at)))) = (
    search_tag t,
    inr (
        (In-append (of_outputs ++ of_tags) of_risk (search_tag t)).1 (
          inl (
            (In-append of_outputs of_tags (search_tag t)).1
              (inr (In-map search_tag i.tags t there))))),
    (by_tag e t).1 (is_open, at),
  )
  reason-IsHit is_open (inr (inr (inr (r, p, ne, at)))) =
      let (f, there, hit) = risk-IsHit i.constraints.risk_level r p ne is_open at in
      (f, inr ((In-append (of_outputs ++ of_tags) of_risk f).1 (inr there)), hit)

pub Matched-IsWanted :
    (i : GenesisIntent) (reg : Registry) (e : PatchPanelRegistryEntry)
    → Matched reg (filters_of i) e
    → IsWanted i reg e
unfolding search
Matched-IsWanted i reg e (f, m, found) =
    let (there, hit) = (In-keep (λ x. entry_matches x f) (values reg) e).0 found in
    let ((a, b), why) = hit_reason i e f m hit in
    record { listed = there; not_archived = a; not_superseded = b; why = why }

pub IsWanted-Matched :
    (i : GenesisIntent) (reg : Registry) (e : PatchPanelRegistryEntry)
    → IsWanted i reg e
    → Matched reg (filters_of i) e
unfolding search
IsWanted-Matched i reg e w =
    let (f, m, hit) = reason-IsHit i e (w.not_archived, w.not_superseded) w.why in
    (f, m, (In-keep (λ x. entry_matches x f) (values reg) e).1 (w.listed, hit))
