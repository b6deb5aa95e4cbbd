-- ===== src/Boundaries/Access.antt =====
-- boundaries.py: whom `_ensure_authorized` lets through.
use ghostmesh.Prelude.{
  String, ◌≡◌, ◌↔◌, ◌⊎◌, refl, sym, ap, subst, Bool, true, false, not, ◌&&◌, ◌||◌, Option, none,
  some, List, [], ◌∷◌, In, In-mem, arith, is_text, is_empty, inl, inr, string_eq, if◌then◌else◌,
}
use ghostmesh.Python.{Conversions}
use ghostmesh.Errors.{boundary_unauthorized}
use ghostmesh.Result.{ok, err, raise_if, raise_if-eq-ok}
use ghostmesh.Exec.{◌>>=◌}
use ghostmesh.Domain.Panel.{source, sink, NodeDefinition, PatchPanel}
use ghostmesh.PanelValidator.{GraphLibrary}
use ghostmesh.Runtime.State.{Runtime}
use ghostmesh.Nodes.{decoded, Models, node_of}
use ghostmesh.Boundaries.{
  BoundaryAuth, SourceBoundaryContract, SinkBoundaryContract, BoundarySourceRequest,
  BoundarySinkRequest, Adapters, BoundaryEnv, ensure_authorized, find_panel, contract_of, given,
  is_among,
}
use ghostmesh.Boundaries.Ingress as Ingress
use ghostmesh.Boundaries.Egress as Egress
use ghostmesh.Boundaries.Source.{execute_source}
use ghostmesh.Boundaries.Sink.{execute_sink}

-- A token of a contract: one of its list, or its single one, if that is not empty.
abbrev pub IsToken : BoundaryAuth → String → Type 0
IsToken auth t = In t auth.tokens ⊎ ((auth.token ≡ some t) × (is_text t ≡ true))

-- Nothing is asked, or there is no token, or one of them is shown.
abbrev pub IsAllowed : Option BoundaryAuth → Option String → Type 0
IsAllowed none actor_token = Unit
IsAllowed (some auth) actor_token =
    ((t : String) → ¬ IsToken auth t) ⊎ ((t : String) × (actor_token ≡ some t) × IsToken auth t)

cases :
    (a b c d : Bool)
    → (not (a && b) && not (c || d)) ≡ false
    → ((a ≡ true) × (b ≡ true)) ⊎ ((c ≡ true) ⊎ (d ≡ true))
cases true true c d h = inl (refl, refl)
cases true false c d h = ground arith
cases false b c d h = ground arith

some_injective : (s t : String) → some s ≡ some t → s ≡ t
some_injective s t h = cc

In-given :
    (token : Option String) (t : String)
    → In t (given token)
    → (token ≡ some t) × (is_text t ≡ true)
In-given none t m = absurd m
In-given (some String.[]) t m = absurd m
In-given (some (String.◌∷◌ c s)) t (inl e) = (ap some (sym e), ap is_text e)
In-given (some (String.◌∷◌ c s)) t (inr m) = absurd m

given-In :
    (token : Option String) (t : String) → token ≡ some t → is_text t ≡ true → In t (given token)
given-In none t e h = absurd (cc)
given-In (some s) t e h =
    let same = some_injective s t e in
    subst (λ x. In t (if is_text x then x ∷ [] else [])) (sym same) (rw h (inl refl))

none-In : (ts : List String) (t : String) → is_empty ts ≡ true → ¬ In t ts
none-In [] t h m = absurd m
none-In (x ∷ xs) t h m = absurd (cc)

of_is_among :
    (actor_token : Option String) (ts : List String)
    → is_among actor_token ts ≡ true
    → (t : String) × (actor_token ≡ some t) × In t ts
of_is_among none ts h = absurd (cc)
of_is_among (some t) ts h = (t, refl, (In-mem t ts).0 h)

is_among-of : (t : String) (ts : List String) → In t ts → is_among (some t) ts ≡ true
is_among-of t ts m = (In-mem t ts).1 m

token_of :
    (auth : BoundaryAuth) (t : String) → In t auth.tokens ⊎ In t (given auth.token) → IsToken auth t
token_of auth t (inl m) = inl m
token_of auth t (inr m) = inr (In-given auth.token t m)

token_In :
    (auth : BoundaryAuth) (t : String) → IsToken auth t → In t auth.tokens ⊎ In t (given auth.token)
token_In auth t (inl m) = inl m
token_In auth t (inr (e, h)) = inr (given-In auth.token t e h)

empty_of : (ts : List String) → ((t : String) → ¬ In t ts) → is_empty ts ≡ true
empty_of [] h = refl
empty_of (t ∷ ts) h = absurd (h t (inl refl))

IsAllowed-intro :
    (auth : BoundaryAuth) (actor_token : Option String)
    → ensure_authorized (some auth) actor_token ≡ ok tt
    → IsAllowed (some auth) actor_token
unfolding ensure_authorized
IsAllowed-intro auth actor_token h =
    elim (cases (is_empty auth.tokens) (is_empty (given auth.token))
      (is_among actor_token auth.tokens) (is_among actor_token (given auth.token))
      (raise_if-eq-ok _ boundary_unauthorized h)) [
        | inl (a, b) ↦ inl (λ t is. elim (token_In auth t is) [
          | inl m ↦ none-In auth.tokens t a m
          | inr m ↦ none-In (given auth.token) t b m
        ])
        | inr (inl c) ↦
            let (t, e, m) = of_is_among actor_token auth.tokens c in
            inr (t, e, token_of auth t (inl m))
        | inr (inr d) ↦
            let (t, e, m) = of_is_among actor_token (given auth.token) d in
            inr (t, e, token_of auth t (inr m))
      ]

shown :
    (auth : BoundaryAuth) (t : String)
    → In t auth.tokens ⊎ In t (given auth.token)
    → ensure_authorized (some auth) (some t) ≡ ok tt
unfolding ensure_authorized
shown auth t (inl m) = ground (arith, is_among-of t auth.tokens m)
shown auth t (inr m) = ground (arith, is_among-of t (given auth.token) m)

IsAllowed-elim :
    (auth : BoundaryAuth) (actor_token : Option String)
    → IsAllowed (some auth) actor_token
    → ensure_authorized (some auth) actor_token ≡ ok tt
unfolding ensure_authorized
IsAllowed-elim auth actor_token (inl free) = ground (
  arith,
  empty_of auth.tokens (λ t m. free t (token_of auth t (inl m))),
  empty_of (given auth.token) (λ t m. free t (token_of auth t (inr m))),
)
IsAllowed-elim auth actor_token (inr (t, e, is)) =
    subst (λ x. ensure_authorized (some auth) x ≡ ok tt) (sym e) (shown auth t (token_In auth t is))

-- The check passes exactly where the contract asks for no token or has none, or one of its tokens is
-- shown.
pub ensure_authorized-IsAllowed :
    (auth : Option BoundaryAuth) (actor_token : Option String)
    → (ensure_authorized auth actor_token ≡ ok tt) ↔ IsAllowed auth actor_token
unfolding ensure_authorized
ensure_authorized-IsAllowed none actor_token = ((λ h. tt), (λ h. refl))
ensure_authorized-IsAllowed (some auth) actor_token =
    (IsAllowed-intro auth actor_token, IsAllowed-elim auth actor_token)

answers :
    (b : Bool)
    → (raise_if b boundary_unauthorized ≡ ok tt)
      ⊎ (raise_if b boundary_unauthorized ≡ err boundary_unauthorized)
answers true = inr refl
answers false = inl refl

authorization_cases :
    (auth : Option BoundaryAuth) (actor_token : Option String)
    → (ensure_authorized auth actor_token ≡ ok tt)
      ⊎ (ensure_authorized auth actor_token ≡ err boundary_unauthorized)
unfolding ensure_authorized
authorization_cases none actor_token = inl refl
authorization_cases (some auth) actor_token = answers _

refused :
    (auth : Option BoundaryAuth) (actor_token : Option String)
    → ¬ IsAllowed auth actor_token
    → ensure_authorized auth actor_token ≡ err boundary_unauthorized
refused auth actor_token h = elim (authorization_cases auth actor_token) [
  | inl good ↦ absurd (h ((ensure_authorized-IsAllowed auth actor_token).0 good))
  | inr bad ↦ bad
]

module _ (py : Conversions) (adapters : Adapters) (env : BoundaryEnv) (panel : PatchPanel)
    (node : NodeDefinition) where
  -- A request for a source whose contract asks for a token that it does not show raises, and changes
  -- nothing.
  pub execute_source_refused :
      (request : BoundarySourceRequest) (rt : Runtime) (contract : SourceBoundaryContract)
      → find_panel request.patch_panel_id rt ≡ ok panel
      → node_of panel request.source_id source ≡ ok node
      → adapters.read_source (contract_of "ingress_contract" node) ≡ decoded contract
      → ¬ IsAllowed contract.auth request.actor_token
      → execute_source py adapters env request rt ≡ (err boundary_unauthorized, rt)
  unfolding execute_source Ingress.prepare ◌>>=◌
  execute_source_refused request rt contract a b c h =
      rw (a, b, c, refused contract.auth request.actor_token h) refl

  -- A request for a sink whose contract asks for a token that it does not show raises, and changes
  -- nothing.
  pub execute_sink_refused :
      (nx : GraphLibrary) (models : Models) (request : BoundarySinkRequest) (rt : Runtime)
      (contract : SinkBoundaryContract)
      → find_panel request.patch_panel_id rt ≡ ok panel
      → node_of panel request.sink_id sink ≡ ok node
      → adapters.read_sink (contract_of "egress_contract" node) ≡ decoded contract
      → ¬ IsAllowed contract.auth request.actor_token
      → execute_sink py nx models env adapters request rt ≡ (err boundary_unauthorized, rt)
  unfolding execute_sink Egress.prepare ◌>>=◌
  execute_sink_refused nx models request rt contract a b c h =
      rw (a, b, c, refused contract.auth request.actor_token h) refl
