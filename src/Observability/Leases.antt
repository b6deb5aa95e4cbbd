-- ===== src/Observability/Leases.antt =====
-- observability.py: what `active_leases` lists.
use ghostmesh.Prelude.{
  ℕ, ◌≡◌, ◌↔◌, sym, ap, Bool, true, ◌&&◌, List, arith, In, In-map, of_In-map, In-keep, keep, any,
  values, ◌==◌, nat_eq, witness_of_any, refuted_by_any, Bool-cases, inl, inr, ◌∙◌,
}
use ghostmesh.Domain.Work.{Lease}
use ghostmesh.Runtime.State.{Runtime, is_active_at, has_active_lease}
use ghostmesh.Observability.{ActiveLease, aged, is_current, active_leases}

any_of_witness :
    (p : Lease → Bool) (xs : List Lease) (l : Lease) → In l xs → p l ≡ true → any p xs ≡ true
any_of_witness p xs l m h = elim (Bool-cases (any p xs)) [
  | inl found ↦ found
  | inr missing ↦ absurd (ground (arith, h, refuted_by_any p xs l missing m))
]

active_of_listed :
    (now : ℕ) (rt : Runtime) (card_id : ℕ)
    → (a : ActiveLease) → In a (active_leases now rt)
    → a.lease.card_id ≡ card_id
    → has_active_lease now rt card_id ≡ true
unfolding active_leases has_active_lease
active_of_listed now rt card_id a m same =
    let (l, kept, is_aged) = of_In-map (aged now) (keep (is_current now) (values rt.leases)) a m in
    let (listed, active) = (In-keep (is_current now) (values rt.leases) l).0 kept in
    let of_card : l.card_id ≡ card_id = sym (ap (λ x. x.lease.card_id) is_aged) ∙ same in
    any_of_witness (λ x. x.card_id == card_id && is_active_at now x) (values rt.leases) l listed
      (ground (arith, active, (nat_eq.beq_iff l.card_id card_id).1 of_card))

both : (a b : Bool) → (a && b) ≡ true → (a ≡ true) × (b ≡ true)
both a b h = ground arith

-- A card is shown under an active lease exactly where the runtime holds it for claimed: the view
-- lists a lease of the card where the runtime finds one that is active at that instant.
pub active_leases-has_active_lease :
    (now : ℕ) (rt : Runtime) (card_id : ℕ)
    → ((a : ActiveLease) × In a (active_leases now rt) × (a.lease.card_id ≡ card_id))
      ↔ (has_active_lease now rt card_id ≡ true)
unfolding active_leases has_active_lease
active_leases-has_active_lease now rt card_id = (
  λ h. let (a, m, same) = h in active_of_listed now rt card_id a m same,
  λ h.
      let (l, m, t) =
        witness_of_any (λ x. x.card_id == card_id && is_active_at now x) (values rt.leases) h in
      let (same, active) = both _ _ t in
      (
        aged now l,
        In-map (aged now) _ l ((In-keep (is_current now) (values rt.leases) l).1 (m, active)),
        (nat_eq.beq_iff l.card_id card_id).0 same,
      ),
)
