-- ===== src/Nefs/Find/Lookup.antt =====
-- FindCatalog of dev/ZKAKit/src/FS/NeFS.cc against a list of catalogs.
use zka.Common.{
  ℕ, zero, suc, ◌≤◌, ◌<◌, ◌≡◌, refl, inl, inr, true, false, Option, none, some, List, [], ◌∷◌,
  if◌then◌else◌, leb, length, Bool-cases, Option-cases, arith,
}
use zka.Storage.{Drive}
use zka.NewKit.Utils.{equals}
use zka.Nefs.{root_catalog_start_address, root}
use zka.Nefs.Path.{parent_name}
use zka.Nefs.Volume.{Result, ok, fault, out_of_fuel, ◌>>=◌, is_created, read_catalog, read_block}
use zka.Nefs.Find.{Entry, matches, scan, scan_again, find_below, find_catalog}

-- A catalog of a list, and the catalogs behind it.
pub record Place : Type 0 where
  pub entry : Entry
  pub behind : List Entry

-- The first allocated catalog of that name.
abbrev pub lookup : List ℕ → List Entry → Option Place
lookup name [] = none
lookup name (e ∷ es) =
    if matches name e.catalog then some (record { entry = e; behind = es }) else lookup name es

abbrev pub or_else : Option Place → Option Place → Option Place
or_else none o = o
or_else (some e) o = some e

-- Below a parent that is there, what stands behind it comes first.
abbrev pub resolve_below : List Entry → List ℕ → List ℕ → Option Place → Option Place
resolve_below es name p none = none
resolve_below es name p (some q) =
    if equals p root then lookup name es else or_else (lookup name q.behind) (lookup name es)

-- The search, over the catalogs as a list: a name's parent is searched first.
abbrev pub resolve : ℕ → List Entry → List ℕ → Result (Option Place)
resolve zero es name = out_of_fuel
resolve (suc depth) es name =
    if equals name root then ok (lookup name es) else elim (parent_name name) [
      | none ↦ fault
      | some p ↦ resolve depth es p >>= λ o. ok (resolve_below es name p o)
    ]

abbrev pub entry_of : Option Place → Option Entry
entry_of none = none
entry_of (some q) = some q.entry

module _ (v : Drive) (d : v.State) where
  abbrev pub entry_at : ℕ → Entry
  entry_at lba = record { lba = lba; catalog = read_catalog v d lba }

  -- The catalogs that `NextSibling` leads through from an address on, up to a free one without a sibling.
  pub data Chain : ℕ → List Entry → Type 0 where
    last :
        (lba : ℕ)
        → (read_catalog v d lba).next_sibling ≤ root_catalog_start_address
        → is_created (read_catalog v d lba) ≡ false
        → Chain lba (entry_at lba ∷ [])
    next :
        (lba : ℕ) (es : List Entry)
        → root_catalog_start_address < (read_catalog v d lba).next_sibling
        → Chain (read_catalog v d lba).next_sibling es
        → Chain lba (entry_at lba ∷ es)

  -- What is found stands before a chain.
  abbrev Leads : ℕ → Option Place → Type 0
  Leads fuel none = Unit
  Leads fuel (some q) = Chain q.entry.catalog.next_sibling q.behind × (length q.behind ≤ fuel)

le→leb : (a b : ℕ) → a ≤ b → leb a b ≡ true
le→leb a b h = ground arith

lt→leb_false : (a b : ℕ) → b < a → leb a b ≡ false
lt→leb_false a b h = ground arith

free_is_not_found :
    (name : List ℕ) (a : Entry) → is_created a.catalog ≡ false → lookup name (a ∷ []) ≡ none
free_is_not_found name a f = elim (Bool-cases (equals name a.catalog.name)) [
  | inl m ↦ rw (m, f) refl
  | inr m ↦ rw m refl
]

module _ (v : Drive) (d : v.State) where
  lookup-Leads :
      (fuel : ℕ) (name : List ℕ) {lba : ℕ} {es : List Entry}
      → Chain v d lba es
      → length es ≤ fuel
      → Leads v d fuel (lookup name es)
  lookup-Leads fuel name (last lba h f) k = rw (free_is_not_found name (entry_at v d lba) f) tt
  lookup-Leads fuel name (next lba es h c) k =
      elim (Bool-cases (matches name (read_catalog v d lba))) [
        | inl m ↦ rw m (c, omega arith)
        | inr m ↦ rw m (lookup-Leads fuel name c (omega arith))
      ]

  or_else-Leads :
      (fuel : ℕ) (o q : Option Place)
      → Leads v d fuel o
      → Leads v d fuel q
      → Leads v d fuel (or_else o q)
  or_else-Leads fuel none q h k = k
  or_else-Leads fuel (some o) q h k = h

  -- A loop over a chain comes to its first catalog of the name.
  scan-lookup :
      (fuel : ℕ) (name : List ℕ) {lba : ℕ} {es : List Entry}
      → Chain v d lba es
      → length es ≤ fuel
      → scan v d fuel lba name ≡ ok (entry_of (lookup name es))
  unfolding scan
  scan-lookup zero name (last lba h f) k = absurd (omega arith)
  scan-lookup zero name (next lba es h c) k = absurd (omega arith)
  scan-lookup (suc fuel) name (last lba h f) k =
      elim (Bool-cases (matches name (read_catalog v d lba))) [
        | inl m ↦ rw m refl
        | inr m ↦ rw (m, le→leb _ _ h) refl
      ]
  scan-lookup (suc fuel) name (next lba es h c) k =
      elim (Bool-cases (matches name (read_catalog v d lba))) [
        | inl m ↦ rw m refl
        | inr m ↦ rw (m, lt→leb_false _ _ h) (scan-lookup fuel name c (omega arith))
      ]

  scan_again-or_else :
      (fuel : ℕ) (name : List ℕ) {lba : ℕ} {es : List Entry}
      → Chain v d lba es
      → length es ≤ fuel
      → (o : Option Place)
      → scan_again v d fuel lba name (entry_of o) ≡ ok (entry_of (or_else o (lookup name es)))
  scan_again-or_else fuel name c k none = scan-lookup fuel name c k
  scan_again-or_else fuel name c k (some e) = refl

  find_below-resolve_below :
      (fuel : ℕ) (name p : List ℕ) (es : List Entry) (o : Option Place)
      → Chain v d (read_block v d).start_catalog es
      → length es ≤ fuel
      → Leads v d fuel o
      → (find_below v d fuel name p (entry_of o) ≡ ok (entry_of (resolve_below es name p o)))
        × Leads v d fuel (resolve_below es name p o)
  unfolding find_below
  find_below-resolve_below fuel name p es none c k l = (refl, tt)
  find_below-resolve_below fuel name p es (some q) c k l = elim (Bool-cases (equals p root)) [
    | inl r ↦ rw r (scan-lookup fuel name c k, lookup-Leads fuel name c k)
    | inr r ↦
        rw (r, scan-lookup fuel name l.0 l.1)
          (
            scan_again-or_else fuel name c k (lookup name q.behind),
            or_else-Leads fuel (lookup name q.behind) (lookup name es)
                (lookup-Leads fuel name l.0 l.1) (lookup-Leads fuel name c k),
          )
  ]

abbrev pub result_of : Result (Option Place) → Result (Option Entry)
result_of (ok o) = ok (entry_of o)
result_of fault = fault
result_of out_of_fuel = out_of_fuel

module _ (v : Drive) (d : v.State) where
  abbrev ResultLeads : ℕ → Result (Option Place) → Type 0
  ResultLeads fuel (ok o) = Leads v d fuel o
  ResultLeads fuel fault = Unit
  ResultLeads fuel out_of_fuel = Unit

  then_below :
      (fuel : ℕ) (name p : List ℕ) (es : List Entry) (r : Result (Option Place))
      → Chain v d (read_block v d).start_catalog es
      → length es ≤ fuel
      → ResultLeads fuel r
      → ((result_of r >>= find_below v d fuel name p)
          ≡ result_of (r >>= λ o. ok (resolve_below es name p o)))
        × ResultLeads fuel (r >>= λ o. ok (resolve_below es name p o))
  then_below fuel name p es (ok o) c k l = find_below-resolve_below v d fuel name p es o c k l
  then_below fuel name p es fault c k l = (refl, tt)
  then_below fuel name p es out_of_fuel c k l = (refl, tt)

  find_catalog-cases :
      (depth fuel : ℕ) (name : List ℕ) (es : List Entry)
      → Chain v d (read_block v d).start_catalog es
      → length es ≤ fuel
      → (find_catalog v d depth fuel name ≡ result_of (resolve depth es name))
        × ResultLeads fuel (resolve depth es name)
  unfolding find_catalog
  find_catalog-cases zero fuel name es c k = (refl, tt)
  find_catalog-cases (suc depth) fuel name es c k = elim (Bool-cases (equals name root)) [
    | inl r ↦ rw r (scan-lookup v d fuel name c k, lookup-Leads v d fuel name c k)
    | inr r ↦ elim (Option-cases (parent_name name)) [
      | inl e ↦ rw (r, e) (refl, tt)
      | inr e ↦
          let below = find_catalog-cases depth fuel e.0 es c k in
          rw (r, e.1, below.0) (then_below fuel name e.0 es (resolve depth es e.0) c k below.1)
    ]
  ]

  -- On a volume whose sibling links lead from the first catalog through a list of catalogs to a
  -- free one, FindCatalog is a search in that list, for every name, every bound on the depth and
  -- all fuel from the list's length on: it looks for the parent first, then among the catalogs
  -- behind the parent, then in the whole list.
  pub find_catalog-resolve :
      (depth fuel : ℕ) (name : List ℕ) (es : List Entry)
      → Chain v d (read_block v d).start_catalog es
      → length es ≤ fuel
      → find_catalog v d depth fuel name ≡ result_of (resolve depth es name)
  find_catalog-resolve depth fuel name es c k = (find_catalog-cases depth fuel name es c k).0
