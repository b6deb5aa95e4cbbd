-- ===== src/Registry/Archiving.antt =====
-- registry/service.py: what becomes of an entry that is archived or superseded.
use ghostmesh.Prelude.{
  ℕ, ◌≡◌, ◌≢◌, ◌⊎◌, refl, sym, ap, ◌∙◌, inl, inr, not, none, some, [], ◌∷◌, In, In-keep, lookup,
  insert, values, lookup-insert, ◌==◌, nat_eq, arith, if◌then◌else◌, false,
}
use ghostmesh.Errors.{entry_not_draft}
use ghostmesh.Result.{Result, ok, err, raise_if, >>=-eq-ok, raise_if-eq-ok, ok_injective}
use ghostmesh.Domain.Registry.{
  PatchPanelRegistryEntry, PatchPanelRegistryMetadata, draft, archived, superseded, status_eq,
}
use ghostmesh.Registry.{
  Registry, PatchPanelRegistrySearch, entry_matches, entry_with_metadata, register, get, search,
  stored, update_metadata, archive, supersede,
}

-- Every entry stands under its own id, once.
abbrev pub IsKeyed : Registry → Type 0
IsKeyed [] = Unit
IsKeyed ((k, e) ∷ reg) = (k ≡ e.id) × (lookup k reg ≡ none) × IsKeyed reg

pub insert-IsKeyed :
    (e : PatchPanelRegistryEntry) (reg : Registry) → IsKeyed reg → IsKeyed (insert e.id e reg)
unfolding lookup insert
insert-IsKeyed e [] h = (refl, refl, tt)
insert-IsKeyed e ((k, w) ∷ reg) h = ground (
  arith,
  insert-IsKeyed e reg,
  lookup-insert e.id k e reg,
  nat_eq.beq_iff e.id k,
  nat_eq.beq_iff k e.id,
)

pub lookup-IsKeyed :
    (e : PatchPanelRegistryEntry) (reg : Registry)
    → IsKeyed reg
    → In e (values reg)
    → lookup e.id reg ≡ some e
unfolding lookup
lookup-IsKeyed e [] h m = absurd m
lookup-IsKeyed e ((k, w) ∷ reg) h (inl p) = ground (arith, nat_eq.beq_iff e.id k, h, p)
lookup-IsKeyed e ((k, w) ∷ reg) h (inr m) =
    ground (arith, lookup-IsKeyed e reg h.2 m, nat_eq.beq_iff e.id k)

-- An entry that the default search leaves out.
abbrev pub IsRetired : ℕ → Registry → Type 0
IsRetired id reg =
    (e : PatchPanelRegistryEntry) × (lookup id reg ≡ some e)
    × ((e.status ≡ archived) ⊎ (e.status ≡ superseded))

-- One edit after another, none of which registers an entry under `id` anew.
pub data Edits (id : ℕ) : Registry → Registry → Type 0 where
  unchanged : {reg : Registry} → Edits id reg reg
  registered :
      {reg reg' : Registry}
      → Edits id reg reg'
      → (e : PatchPanelRegistryEntry) → e.id ≢ id
      → Edits id reg (register e reg')
  updated :
      {reg reg' : Registry}
      → Edits id reg reg'
      → (now other : ℕ) (m : PatchPanelRegistryMetadata)
      → Edits id reg (update_metadata now other m reg').1
  archived_one :
      {reg reg' : Registry}
      → Edits id reg reg'
      → (archived_at updated_at other : ℕ)
      → Edits id reg (archive archived_at updated_at other reg').1
  superseded_one :
      {reg reg' : Registry}
      → Edits id reg reg'
      → (now other by : ℕ) → Edits id reg (supersede now other by reg').1

abbrev IsGood : ℕ → Registry → Type 0
IsGood id reg = IsKeyed reg × IsRetired id reg

insert-IsGood :
    (id : ℕ) (e : PatchPanelRegistryEntry) (reg : Registry)
    → IsGood id reg
    → (e.id ≡ id → (e.status ≡ archived) ⊎ (e.status ≡ superseded))
    → IsGood id (insert e.id e reg)
insert-IsGood id e reg (keyed, (old, found, retired)) h = (
  insert-IsKeyed e reg keyed,
  (
    (if id == e.id then e else old),
    ground (arith, lookup-insert e.id id e reg, found),
    ground (arith, h, retired, nat_eq.beq_iff id e.id),
  ),
)

-- A lookup's entry stands under its own id.
id_of_found :
    (id : ℕ) (e : PatchPanelRegistryEntry) (reg : Registry)
    → IsKeyed reg
    → lookup id reg ≡ some e
    → e.id ≡ id
unfolding lookup
id_of_found id e [] h found = absurd (cc)
id_of_found id e ((k, w) ∷ reg) h found =
    ground (arith, id_of_found id e reg h.2, nat_eq.beq_iff id k, h)

stored-IsGood :
    (id : ℕ) (r : Result PatchPanelRegistryEntry) (reg : Registry)
    → ((e : PatchPanelRegistryEntry)
        → r ≡ ok e
        → e.id ≡ id
        → (e.status ≡ archived) ⊎ (e.status ≡ superseded))
    → IsGood id reg
    → IsGood id (stored r reg).1
stored-IsGood id (ok e) reg h good = insert-IsGood id e reg good (h e refl)
stored-IsGood id (err x) reg h good = good

got :
    (id : ℕ) (reg : Registry) (e : PatchPanelRegistryEntry)
    → get id reg ≡ ok e
    → lookup id reg ≡ some e
unfolding get
got id reg e h = ground (arith, h)

update-IsGood :
    (id now other : ℕ) (m : PatchPanelRegistryMetadata) (reg : Registry)
    → IsGood id reg
    → IsGood id (update_metadata now other m reg).1
unfolding update_metadata entry_with_metadata
update-IsGood id now other m reg good =
    stored-IsGood id _ reg
      (λ e h same.
        let (old, found, h1) = >>=-eq-ok (get other reg) _ h in
        let (_, is_draft, h2) =
          >>=-eq-ok (raise_if (not (old.status == draft)) entry_not_draft) _ h1 in
        let passed = raise_if-eq-ok (not (old.status == draft)) entry_not_draft is_draft in
        let there = got other reg old found in
        let own = id_of_found other old reg good.0 there in
        let kept : old.id ≡ e.id =
          ap (λ (x : PatchPanelRegistryEntry). x.id) (ok_injective _ _ h2) in
        let (held, at, retired) = good.1 in
        ground (arith, status_eq.beq_iff old.status draft, passed, retired))
      good

archive-IsGood :
    (id archived_at updated_at other : ℕ) (reg : Registry)
    → IsGood id reg
    → IsGood id (archive archived_at updated_at other reg).1
unfolding archive
archive-IsGood id archived_at updated_at other reg good =
    stored-IsGood id _ reg
      (λ e h same.
        let (old, found, h1) = >>=-eq-ok (get other reg) _ h in
        inl (sym (ap (λ (x : PatchPanelRegistryEntry). x.status) (ok_injective _ _ h1))))
      good

supersede-IsGood :
    (id now other by : ℕ) (reg : Registry)
    → IsGood id reg
    → IsGood id (supersede now other by reg).1
unfolding supersede
supersede-IsGood id now other by reg good =
    stored-IsGood id _ reg
      (λ e h same.
        let (old, found, h1) = >>=-eq-ok (get other reg) _ h in
        inr (sym (ap (λ (x : PatchPanelRegistryEntry). x.status) (ok_injective _ _ h1))))
      good

Edits-IsGood : (id : ℕ) {reg reg' : Registry} → Edits id reg reg' → IsGood id reg → IsGood id reg'
unfolding register
Edits-IsGood id unchanged good = good
Edits-IsGood id (registered edits e other) good =
    insert-IsGood id e _ (Edits-IsGood id edits good) (λ same. absurd (other same))
Edits-IsGood id (updated edits now other m) good =
    update-IsGood id now other m _ (Edits-IsGood id edits good)
Edits-IsGood id (archived_one edits a u other) good =
    archive-IsGood id a u other _ (Edits-IsGood id edits good)
Edits-IsGood id (superseded_one edits now other by) good =
    supersede-IsGood id now other by _ (Edits-IsGood id edits good)

-- In a registry where each entry stands under its own id: once an entry is archived or superseded, no
-- search that includes neither kind lists it, whatever
-- updates, archivings, replacements and registrations under other ids come in between.
pub Edits-search :
    (id : ℕ) (reg reg' : Registry) (filters : PatchPanelRegistrySearch)
    (e : PatchPanelRegistryEntry)
    → IsKeyed reg
    → IsRetired id reg
    → Edits id reg reg'
    → filters.include_archived ≡ false
    → filters.include_superseded ≡ false
    → In e (search filters reg')
    → e.id ≢ id
unfolding search entry_matches
Edits-search id reg reg' filters e keyed retired edits no_archived no_superseded m same =
    let (keyed', (held, at, status)) = Edits-IsGood id edits (keyed, retired) in
    let (listed, fits) = (In-keep _ (values reg') e).0 m in
    let found = lookup-IsKeyed e reg' keyed' listed in
    let same_entry : some e ≡ some held = sym found ∙ ap (λ i. lookup i reg') same ∙ at in
    ground (arith, status_eq.beq_iff e.status archived, status_eq.beq_iff e.status superseded)
