-- ===== src/Genesis/Candidates.antt =====
-- genesis/service.py: what `GenesisService.search_candidates` finds.
use ghostmesh.Prelude.{
  ℕ, ◌≡◌, ◌↔◌, ◌⊎◌, refl, sym, subst, ap, inl, inr, List, [], ◌∷◌, ◌++◌, map, mem, In, In-mem,
  In-append, In-map, of_In-map, nat_eq, string_eq, option_eq, arith, Bool-cases, if◌then◌else◌,
}
use ghostmesh.Domain.Registry.{GenesisIntent, PatchPanelRegistryEntry, status_eq}
use ghostmesh.Registry.{Registry, PatchPanelRegistrySearch, search}
use ghostmesh.Genesis.{filters_of, add_candidates, search_all, search_candidates}
use ghostmesh.Genesis.Wanted.{Matched, IsWanted, Matched-IsWanted, IsWanted-Matched}

abbrev pub Distinct : List ℕ → Type 0
Distinct [] = Unit
Distinct (x ∷ xs) = (In x xs → ⊥) × Distinct xs

Distinct-append_one : (xs : List ℕ) (x : ℕ) → Distinct xs → (In x xs → ⊥) → Distinct (xs ++ x ∷ [])
Distinct-append_one [] x d h = ((λ m. m), tt)
Distinct-append_one (y ∷ ys) x d h = (
  (λ m. ground (arith, (In-append ys (x ∷ []) y).0 m, d.0, h)),
  Distinct-append_one ys x d.1 (λ m. h (inr m)),
)

abbrev pub ids : List PatchPanelRegistryEntry → List ℕ
ids es = map (λ e. e.id) es

map-append_one :
    (es : List PatchPanelRegistryEntry) (e : PatchPanelRegistryEntry)
    → ids (es ++ e ∷ []) ≡ ids es ++ e.id ∷ []
map-append_one [] e = refl
map-append_one (x ∷ es) e = ap (λ l. x.id ∷ l) (map-append_one es e)

abbrev Found : Type 0
Found = List ℕ × List PatchPanelRegistryEntry

record IsExact (s : Found) : Type 0 where
  pub seen_ids : (n : ℕ) → In n s.0 ↔ In n (ids s.1)
  pub distinct : Distinct (ids s.1)

-- The second state has, besides the first one's candidates, those that the predicate says, up to ids.
record Gathers (From : PatchPanelRegistryEntry → Type 0) (s s' : Found) : Type 0 where
  pub exact : IsExact s'
  pub kept : (e : PatchPanelRegistryEntry) → In e s.1 → In e s'.1
  pub complete : (e : PatchPanelRegistryEntry) → From e → In e.id (ids s'.1)
  pub sound : (e : PatchPanelRegistryEntry) → In e s'.1 → In e s.1 ⊎ From e

abbrev step : PatchPanelRegistryEntry → Found → Found
step e (seen, candidates) =
    if mem e.id seen then (seen, candidates) else (e.id ∷ seen, candidates ++ e ∷ [])

step-Gathers :
    (e : PatchPanelRegistryEntry) (s : Found) → IsExact s → Gathers (λ x. x ≡ e) s (step e s)
step-Gathers e (seen, c) h = elim (Bool-cases (mem e.id seen)) [
  | inl t ↦
      let there = (h.seen_ids e.id).0 ((In-mem e.id seen).0 t) in
      rw t (record {
        exact = h;
        kept = λ x m. m;
        complete = λ x p. subst (λ y. In y.id (ids c)) (sym p) there;
        sound = λ x m. inl m;
      })
  | inr f ↦ rw f (record {
    exact = record {
      seen_ids = λ n.
          rw (map-append_one c e) (ground (arith, h.seen_ids n, In-append (ids c) (e.id ∷ []) n));
      distinct = rw (map-append_one c e) (
          Distinct-append_one (ids c) e.id h.distinct
            (λ m. ground (arith, (In-mem e.id seen).1 ((h.seen_ids e.id).1 m), f)));
    };
    kept = λ x m. (In-append c (e ∷ []) x).1 (inl m);
    complete = λ x p.
        In-map (λ (y : PatchPanelRegistryEntry). y.id) (c ++ e ∷ []) x
          ((In-append c (e ∷ []) x).1 (inr (inl p)));
    sound = λ x m. elim ((In-append c (e ∷ []) x).0 m) [
      | inl old ↦ inl old
      | inr new ↦ elim new [ inl p ↦ inr p | inr b ↦ absurd b ]
    ];
  })
]

-- One gathering after another.
Gathers-trans :
    (P Q R : PatchPanelRegistryEntry → Type 0) (s s' s'' : Found)
    → ((e : PatchPanelRegistryEntry) → R e ↔ (P e ⊎ Q e))
    → Gathers P s s'
    → Gathers Q s' s''
    → Gathers R s s''
Gathers-trans P Q R s s' s'' split g h = record {
  exact = h.exact;
  kept = λ e m. h.kept e (g.kept e m);
  complete = λ e r. elim ((split e).0 r) [
    | inl p ↦
        let (x, m, same) =
          of_In-map (λ (y : PatchPanelRegistryEntry). y.id) s'.1 e.id (g.complete e p) in
        subst (λ n. In n (ids s''.1)) (sym same)
          (In-map (λ (y : PatchPanelRegistryEntry). y.id) s''.1 x (h.kept x m))
    | inr q ↦ h.complete e q
  ];
  sound = λ e m. elim (h.sound e m) [
    | inr q ↦ inr ((split e).1 (inr q))
    | inl m' ↦ elim (g.sound e m') [ inl old ↦ inl old | inr p ↦ inr ((split e).1 (inl p)) ]
  ];
}

Gathers-none :
    (P : PatchPanelRegistryEntry → Type 0) (s : Found)
    → ((e : PatchPanelRegistryEntry) → P e → ⊥)
    → IsExact s
    → Gathers P s s
Gathers-none P s none_such h = record {
  exact = h;
  kept = λ e m. m;
  complete = λ e p. absurd (none_such e p);
  sound = λ e m. inl m;
}

add_candidates-Gathers :
    (es : List PatchPanelRegistryEntry) (s : Found)
    → IsExact s
    → Gathers (λ x. In x es) s (add_candidates es s)
unfolding add_candidates
add_candidates-Gathers [] s h = Gathers-none (λ x. In x []) s (λ e b. b) h
add_candidates-Gathers (e ∷ es) (seen, c) h =
    let first = step-Gathers e (seen, c) h in
    Gathers-trans (λ x. x ≡ e) (λ x. In x es) (λ x. In x (e ∷ es)) (seen, c) (step e (seen, c)) _
      (λ x. ((λ m. m), λ m. m)) first (add_candidates-Gathers es (step e (seen, c)) first.exact)

search_all-Gathers :
    (reg : Registry) (fs : List PatchPanelRegistrySearch) (s : Found)
    → IsExact s
    → Gathers (Matched reg fs) s (search_all reg fs s)
unfolding search_all
search_all-Gathers reg [] s h = Gathers-none (Matched reg []) s (λ e (f, b, m). b) h
search_all-Gathers reg (f ∷ fs) s h =
    let first = add_candidates-Gathers (search f reg) s h in
    Gathers-trans (λ x. In x (search f reg)) (Matched reg fs) (Matched reg (f ∷ fs)) s
      (add_candidates (search f reg) s) _
      (λ x. (
        (λ (g, m, r). elim m [
          | inl p ↦ inl (subst (λ y. In x (search y reg)) p r)
          | inr m' ↦ inr (g, m', r)
        ]),
        λ c. elim c [ inl r ↦ (f, inl refl, r) | inr (g, m, r) ↦ (g, inr m, r) ],
      ))
      first (search_all-Gathers reg fs (add_candidates (search f reg) s) first.exact)

-- The candidates of an intent have pairwise different ids; each is an entry of the registry that is
-- neither archived nor superseded and takes the intent's type of input, gives one of the desired
-- outputs, has one of the tags, or has the risk level, where the empty input, output or tag asks
-- for nothing and the empty risk level is not searched; and the id of each such entry is among the
-- candidates' ids.
pub search_candidates_exact :
    (i : GenesisIntent) (reg : Registry)
    → Distinct (ids (search_candidates i reg))
      × ((e : PatchPanelRegistryEntry) → In e (search_candidates i reg) → IsWanted i reg e)
      × ((e : PatchPanelRegistryEntry) → IsWanted i reg e → In e.id (ids (search_candidates i reg)))
unfolding search_candidates
search_candidates_exact i reg =
    let start : IsExact ([], []) = record { seen_ids = λ n. ((λ m. m), λ m. m); distinct = tt } in
    let g = search_all-Gathers reg (filters_of i) ([], []) start in
    (
      g.exact.distinct,
      (λ e m. elim (g.sound e m) [ inl b ↦ absurd b | inr f ↦ Matched-IsWanted i reg e f ]),
      (λ e w. g.complete e (IsWanted-Matched i reg e w)),
    )
