-- ===== src/Observability/Loads.antt =====
-- observability.py: `bucket_load` counts the cards.
use ghostmesh.Prelude.{
  ℕ, zero, suc, String, ◌≡◌, refl, sym, ap, ◌∙◌, true, false, Option, none, some, List, [], ◌∷◌,
  ◌++◌, arith, keep, length, lookup, insert, values, Dict, ◌+◌, ◌==◌, string_eq, lookup-insert, inl,
  inr, Bool-cases,
}
use text.Mathlib.TextPositions.{compare_refl}
use ghostmesh.Prelude.Sorting.{sorted, place, text_leb}
use ghostmesh.Domain.Work.{Card}
use ghostmesh.Runtime.State.{Runtime}
use ghostmesh.Runtime.Cards.{list_cards}
use ghostmesh.Observability.{
  or_default, group, group_all, cards_by_bucket, by_key, lengths, bucket_load,
}

abbrev pub total : List ℕ → ℕ
total [] = 0
total (n ∷ ns) = n + total ns

-- A number that stands only where it is not 0.
abbrev pub positive : ℕ → Option ℕ
positive zero = none
positive (suc n) = some (suc n)

abbrev joined : Option (List Card) → List Card → Option (List Card)
joined none [] = none
joined none (c ∷ cs) = some (c ∷ cs)
joined (some ds) cs = some (ds ++ cs)

abbrev length_of : Option (List Card) → Option ℕ
length_of none = none
length_of (some cs) = some (length cs)

append_assoc : (xs ys zs : List Card) → (xs ++ ys) ++ zs ≡ xs ++ (ys ++ zs)
append_assoc [] ys zs = refl
append_assoc (x ∷ xs) ys zs = ap (◌∷◌ x) (append_assoc xs ys zs)

joined_one :
    (found : Option (List Card)) (c : Card) (cs : List Card)
    → joined (some (or_default [] found ++ c ∷ [])) cs ≡ joined found (c ∷ cs)
joined_one none c cs = refl
joined_one (some ds) c cs = ap some (append_assoc ds (c ∷ []) cs)

append_none : (xs : List Card) → xs ≡ xs ++ []
append_none [] = refl
append_none (x ∷ xs) = ap (◌∷◌ x) (append_none xs)

joined_none : (found : Option (List Card)) → found ≡ joined found []
joined_none none = refl
joined_none (some ds) = ap some (append_none ds)

grouped_one :
    (b : String) (c : Card) (cs : List Card) (grouped : Dict String (List Card))
    → joined (lookup b (group c grouped)) (keep (λ x. b == x.current_bucket) cs)
      ≡ joined (lookup b grouped) (keep (λ x. b == x.current_bucket) (c ∷ cs))
grouped_one b c cs grouped = elim (Bool-cases (b == c.current_bucket)) [
  | inl same ↦
      let here : b ≡ c.current_bucket = (string_eq.beq_iff b c.current_bucket).0 same in
      rw
        (
          lookup-insert c.current_bucket b
              (or_default [] (lookup c.current_bucket grouped) ++ c ∷ []) grouped,
          same,
          sym (ap (λ x. lookup x grouped) here),
        )
        (joined_one (lookup b grouped) c (keep (λ x. b == x.current_bucket) cs))
  | inr other ↦
      rw
        (
          lookup-insert c.current_bucket b
              (or_default [] (lookup c.current_bucket grouped) ++ c ∷ []) grouped,
          other,
        )
        refl
]

lookup-group_all :
    (b : String) (cs : List Card) (grouped : Dict String (List Card))
    → lookup b (group_all cs grouped)
      ≡ joined (lookup b grouped) (keep (λ c. b == c.current_bucket) cs)
unfolding group_all
lookup-group_all b [] grouped = joined_none (lookup b grouped)
lookup-group_all b (c ∷ cs) grouped =
    lookup-group_all b cs (group c grouped) ∙ grouped_one b c cs grouped

by_key_refl : (a : String) → text_leb a a ≡ true
unfolding text_leb
by_key_refl a = rw (text_leb, compare_refl a) refl

module _ {V : Type 0} where
  after-differs : (a b : String × V) → by_key a b ≡ false → (b.0 == a.0) ≡ false
  after-differs a b h = ground (arith, h, by_key_refl a.0, string_eq.beq_iff b.0 a.0)

  lookup-place :
      (k : String) (x : String × V) (d : Dict String V)
      → lookup k (place by_key x d) ≡ lookup k (x ∷ d)
  unfolding place lookup
  lookup-place k x [] = refl
  lookup-place k x (y ∷ d) = elim (Bool-cases (by_key x y)) [
    | inl first ↦ rw first refl
    | inr later ↦ ground (
      arith,
      later,
      lookup-place k x d,
      string_eq.beq_iff k x.0,
      string_eq.beq_iff k y.0,
      after-differs x y later,
      string_eq.beq_iff y.0 x.0,
    )
  ]

  lookup-sorted : (k : String) (d : Dict String V) → lookup k (sorted by_key d) ≡ lookup k d
  unfolding sorted lookup
  lookup-sorted k [] = refl
  lookup-sorted k (x ∷ d) = lookup-place k x (sorted by_key d) ∙ ground (arith, lookup-sorted k d)

lookup-lengths :
    (b : String) (d : Dict String (List Card)) → lookup b (lengths d) ≡ length_of (lookup b d)
unfolding lookup
lookup-lengths b [] = refl
lookup-lengths b ((k, cs) ∷ d) = ground (arith, lookup-lengths b d)

counted : (cs : List Card) → length_of (joined none cs) ≡ positive (length cs)
counted [] = refl
counted (c ∷ cs) = refl

-- The cards that a grouping has.
abbrev card_total : Dict String (List Card) → ℕ
card_total d = total (values (lengths d))

length-append_one : (cs : List Card) (c : Card) → length (cs ++ c ∷ []) ≡ suc (length cs)
length-append_one [] c = refl
length-append_one (d ∷ ds) c = ap suc (length-append_one ds c)

card_total-insert :
    (b : String) (c : Card) (d : Dict String (List Card))
    → card_total (insert b (or_default [] (lookup b d) ++ c ∷ []) d) ≡ suc (card_total d)
unfolding insert lookup
card_total-insert b c [] = refl
card_total-insert b c ((k, cs) ∷ d) =
    ground (arith, card_total-insert b c d, length-append_one cs c)

card_total-group_all :
    (cs : List Card) (d : Dict String (List Card))
    → card_total (group_all cs d) ≡ length cs + card_total d
unfolding group_all
card_total-group_all [] d = omega arith
card_total-group_all (c ∷ cs) d =
    ground (arith, card_total-group_all cs (group c d), card_total-insert c.current_bucket c d)

card_total-place :
    (x : String × List Card) (d : Dict String (List Card))
    → card_total (place by_key x d) ≡ length x.1 + card_total d
unfolding place
card_total-place x [] = refl
card_total-place x (y ∷ d) = ground (arith, card_total-place x d)

card_total-sorted : (d : Dict String (List Card)) → card_total (sorted by_key d) ≡ card_total d
unfolding sorted
card_total-sorted [] = refl
card_total-sorted (x ∷ d) =
    ground (arith, card_total-sorted d, card_total-place x (sorted by_key d))

-- The load has for each bucket the number of the cards that stand in it, and no entry for a bucket
-- without cards; and its numbers add up to the number of all cards.
pub bucket_load-counts :
    (rt : Runtime)
    → ((b : String)
        → lookup b (bucket_load rt)
          ≡ positive (length (keep (λ c. b == c.current_bucket) (list_cards rt))))
      × (total (values (bucket_load rt)) ≡ length (list_cards rt))
unfolding bucket_load cards_by_bucket lookup
bucket_load-counts rt = (
  λ b.
      lookup-lengths b (sorted by_key (group_all (list_cards rt) []))
      ∙ ap length_of
          (lookup-sorted b (group_all (list_cards rt) []) ∙ lookup-group_all b (list_cards rt) [])
      ∙ counted (keep (λ c. b == c.current_bucket) (list_cards rt)),
  card_total-sorted (group_all (list_cards rt) [])
      ∙ ground (arith, card_total-group_all (list_cards rt) []),
)
