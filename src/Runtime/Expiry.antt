-- ===== src/Runtime/Expiry.antt =====
-- What `expire_leases` of runtime/memory.py leaves behind.
use ghostmesh.Prelude.{
  ℕ, ◌≡◌, ◌⊎◌, ◌≤◌, ◌<◌, ◌↔◌, refl, ap, subst, ◌∙◌, Bool, if◌then◌else◌, inl, inr, true, false,
  none, some, List, [], ◌∷◌, In, All, Dict, values, lookup, insert, lookup-insert, nat_eq, arith,
  Bool-cases, is_some,
}
use ghostmesh.Python.{Conversions}
use ghostmesh.Domain.Work.{Lease}
use ghostmesh.Runtime.State.{Runtime, Env, record_in_log}
use ghostmesh.Runtime.Leases.{Turn, is_expired, released, expire_one, expire_each, expire_leases}

-- A table: each lease stands under its own id, and no two entries have one key.
abbrev pub IsTable : Dict ℕ Lease → Type 0
IsTable [] = Unit
IsTable ((k, l) ∷ d) = (l.id ≡ k) × (lookup k d ≡ none) × IsTable d

-- Not released, and at or past its expiry; and the two ways in which that fails.
abbrev pub IsDue : ℕ → Lease → Type 0
IsDue now l = (l.released_at ≡ none) × (l.expires_at ≤ now)

abbrev pub IsLeft : ℕ → Lease → Type 0
IsLeft now l = (is_some l.released_at ≡ true) ⊎ (now < l.expires_at)

IsTable-key : (d : Dict ℕ Lease) → IsTable d → (i : ℕ) (l : Lease) → lookup i d ≡ some l → l.id ≡ i
unfolding lookup
IsTable-key [] t i l h = absurd (cc)
IsTable-key ((k, x) ∷ d) (own, fresh, t) i l h =
    ground (arith, own, h, IsTable-key d t i l, nat_eq.beq_iff i k)

IsTable-values :
    (d : Dict ℕ Lease) → IsTable d → (l : Lease) → In l (values d) → lookup l.id d ≡ some l
unfolding lookup
IsTable-values [] t l m = absurd m
IsTable-values ((k, x) ∷ d) (own, fresh, t) l (inl e) =
    ground (arith, own, ap (λ (y : Lease). y.id) e, e, nat_eq.beq_iff l.id k)
IsTable-values ((k, x) ∷ d) (own, fresh, t) l (inr m) =
    ground (arith, fresh, IsTable-values d t l m, nat_eq.beq_iff l.id k)

lookup-values : (d : Dict ℕ Lease) (i : ℕ) (l : Lease) → lookup i d ≡ some l → In l (values d)
unfolding lookup
lookup-values [] i l h = absurd (cc)
lookup-values ((k, x) ∷ d) i l h = ground (arith, h, lookup-values d i l)

In-if :
    (b : Bool) (r x : Lease) (xs : List Lease)
    → In r (if b then x ∷ xs else xs) ↔ (((b ≡ true) × (r ≡ x)) ⊎ In r xs)
In-if true r x xs = ground arith
In-if false r x xs = ground arith

module _ (py : Conversions) (env : Env) (turns : ℕ → Turn) where
  expired-IsDue : (l : Lease) → (is_expired py env l ≡ true) ↔ IsDue env.now l
  expired-IsDue l = ground arith

  left_unexpired : (l : Lease) → IsLeft env.now l → is_expired py env l ≡ false
  left_unexpired l h = ground arith

  -- In the middle of the loop: the leases that are due lie ahead, or are released already.
  record IsHalfway (first : Dict ℕ Lease) (ahead : List Lease) (d : Dict ℕ Lease) : Type 0 where
    pub listed : All (λ l. lookup l.id first ≡ some l) ahead
    pub absent : (i : ℕ) → lookup i first ≡ none → lookup i d ≡ none
    pub due :
        (i : ℕ) (l : Lease)
        → lookup i first ≡ some l
        → IsDue env.now l
        → (In l ahead × (lookup i d ≡ some l)) ⊎ (lookup i d ≡ some (released env.now l))
    pub left :
        (i : ℕ) (l : Lease) → lookup i first ≡ some l → IsLeft env.now l → lookup i d ≡ some l

  module _ (first : Dict ℕ Lease) (table : IsTable first) where
    passed_over :
        (d : Dict ℕ Lease) (x : Lease) (ls : List Lease)
        → is_expired py env x ≡ false
        → IsHalfway first (x ∷ ls) d
        → IsHalfway first ls d
    passed_over d x ls live h = record {
      listed = h.listed.1;
      absent = h.absent;
      due = λ i l found old. ground (arith, h.due i l found old, live, (expired-IsDue l).1 old);
      left = h.left;
    }

    released_one :
        (d : Dict ℕ Lease) (x : Lease) (ls : List Lease)
        → is_expired py env x ≡ true
        → IsHalfway first (x ∷ ls) d
        → IsHalfway first ls (insert x.id (released env.now x) d)
    released_one d x ls old_x h = record {
      listed = h.listed.1;
      absent = λ i none_there. ground (
        arith,
        lookup-insert x.id i (released env.now x) d,
        h.absent i none_there,
        h.listed.0,
        nat_eq.beq_iff i x.id,
      );
      due = λ i l found old. ground (
        arith,
        lookup-insert x.id i (released env.now x) d,
        h.due i l found old,
        h.listed.0,
        IsTable-key first table i l found,
        nat_eq.beq_iff i x.id,
      );
      left = λ i l found still. ground (
        arith,
        lookup-insert x.id i (released env.now x) d,
        h.left i l found still,
        h.listed.0,
        left_unexpired l still,
        old_x,
        nat_eq.beq_iff i x.id,
      );
    }

    each-IsHalfway :
        (ls : List Lease) (rt : Runtime)
        → IsHalfway first ls rt.leases
        → IsHalfway first [] (expire_each py env turns ls rt).1.leases
    unfolding expire_each expire_one record_in_log
    each-IsHalfway [] rt h = h
    each-IsHalfway (x ∷ ls) rt h =
        each-IsHalfway ls (expire_one py env turns x rt) (elim (Bool-cases (is_expired py env x)) [
          | inl old ↦ rw old (released_one rt.leases x ls old h)
          | inr live ↦ rw live (passed_over rt.leases x ls live h)
        ])

  In-expired :
      (r : Lease) (ls : List Lease) (rt : Runtime)
      → In r (expire_each py env turns ls rt).0
        ↔ ((l : Lease) × In l ls × IsDue env.now l × (r ≡ released env.now l))
  unfolding expire_each
  In-expired r [] rt = ((λ m. absurd m), (λ (l, m, due, e). absurd m))
  In-expired r (x ∷ ls) rt =
      let rest = In-expired r ls (expire_one py env turns x rt) in
      let head =
        In-if (is_expired py env x) r (released env.now x)
          (expire_each py env turns ls (expire_one py env turns x rt)).0 in
      (
        (λ m. elim (head.0 m) [
          | inl (old, e) ↦ (x, inl refl, (expired-IsDue x).0 old, e)
          | inr m' ↦ let (l, there, due, e) = rest.0 m' in (l, inr there, due, e)
        ]),
        (λ (l, m, due, e). elim m [
          | inl same ↦ head.1 (
              inl (
                (expired-IsDue x).1 (subst (IsDue env.now) same due),
                e ∙ ap (released env.now) same,
              ))
          | inr there ↦ head.1 (inr (rest.1 (l, there, due, e)))
        ]),
      )

  listed_at :
      (d : Dict ℕ Lease) (table : IsTable d) (ls : List Lease)
      → ((l : Lease) → In l ls → In l (values d))
      → All (λ l. lookup l.id d ≡ some l) ls
  listed_at d table [] h = tt
  listed_at d table (l ∷ ls) h =
      (IsTable-values d table l (h l (inl refl)), listed_at d table ls (λ x m. h x (inr m)))

  -- In a runtime whose leases stand under their own ids, each key once: the expiry releases at its
  -- instant exactly the leases that are not released and have come to their expiry, and leaves every
  -- other one as it is; it adds no lease; and it returns exactly the leases that it released, with
  -- the instant of their release.
  pub expire_leases_exact :
      (rt : Runtime)
      → IsTable rt.leases
      → let (expired, rt') = expire_leases py env turns rt in
        ((i : ℕ) (l : Lease)
          → lookup i rt.leases ≡ some l
          → IsDue env.now l
          → lookup i rt'.leases ≡ some (record l { released_at = some env.now }))
        × ((i : ℕ) (l : Lease)
            → lookup i rt.leases ≡ some l
            → IsLeft env.now l
            → lookup i rt'.leases ≡ some l)
        × ((i : ℕ) → lookup i rt.leases ≡ none → lookup i rt'.leases ≡ none)
        × ((r : Lease)
            → In r expired ↔ (
                (l : Lease) × In l (values rt.leases)
                × IsDue env.now l
                × (r ≡ record l { released_at = some env.now })))
  unfolding expire_leases
  expire_leases_exact rt table =
      let start : IsHalfway rt.leases (values rt.leases) rt.leases = record {
        listed = listed_at rt.leases table (values rt.leases) (λ l m. m);
        absent = λ i h. h;
        due = λ i l found old. inl (lookup-values rt.leases i l found, found);
        left = λ i l found still. found;
      } in
      let done = each-IsHalfway rt.leases table (values rt.leases) rt start in
      (
        (λ i l found old. elim (done.due i l found old) [ inl (b, e) ↦ absurd b | inr e ↦ e ]),
        done.left,
        done.absent,
        (λ r. In-expired r (values rt.leases) rt),
      )
