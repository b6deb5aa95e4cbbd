-- ===== src/Runtime/Exclusion/Leases.antt =====
-- The table of leases under one write.
use ghostmesh.Prelude.{
  ℕ, ◌≤◌, ◌≡◌, true, some, arith, is_some, Dict, lookup, insert, lookup-insert, nat_eq,
}
use ghostmesh.Domain.Work.{Lease}
use ghostmesh.Runtime.State.{is_active_at}

-- At the instant `t`, and so at each later one, a card has at most one active lease.
pub record IsExclusive (t : ℕ) (ls : Dict ℕ Lease) : Type 0 where
  pub at_most_one :
      (i j : ℕ) (l m : Lease)
      → lookup i ls ≡ some l
      → lookup j ls ≡ some m
      → is_active_at t l ≡ true
      → is_active_at t m ≡ true
      → l.card_id ≡ m.card_id
      → i ≡ j

active_before : (t t' : ℕ) (l : Lease) → t ≤ t' → is_active_at t' l ≡ true → is_active_at t l ≡ true
active_before t t' l h a = ground arith

pub later-IsExclusive :
    (t t' : ℕ) (ls : Dict ℕ Lease) → t ≤ t' → IsExclusive t ls → IsExclusive t' ls
later-IsExclusive t t' ls h e = record {
  at_most_one = λ i j l m li lj al am same.
      e.at_most_one i j l m li lj (active_before t t' l h al) (active_before t t' m h am) same;
}

-- A lease whose card no other key has in an active lease may be written.
pub insert-IsExclusive :
    (t k : ℕ) (new : Lease) (ls : Dict ℕ Lease)
    → IsExclusive t ls
    → ((j : ℕ) (m : Lease)
        → lookup j ls ≡ some m
        → is_active_at t m ≡ true
        → m.card_id ≡ new.card_id
        → j ≡ k)
    → IsExclusive t (insert k new ls)
insert-IsExclusive t k new ls e alone = record {
  at_most_one = λ i j l m li lj al am same. ground (
    arith,
    lookup-insert k i new ls,
    lookup-insert k j new ls,
    alone i l,
    alone j m,
    e.at_most_one i j l m,
  );
}

-- A released lease may be written anywhere.
pub released-IsExclusive :
    (t k : ℕ) (l : Lease) (ls : Dict ℕ Lease)
    → is_some l.released_at ≡ true
    → IsExclusive t ls
    → IsExclusive t (insert k l ls)
released-IsExclusive t k new ls gone e = record {
  at_most_one = λ i j l m li lj al am same.
      ground (arith, lookup-insert k i new ls, lookup-insert k j new ls, e.at_most_one i j l m);
}
