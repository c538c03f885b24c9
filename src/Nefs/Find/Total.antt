-- ===== src/Nefs/Find/Total.antt =====
-- FindCatalog of dev/ZKAKit/src/FS/NeFS.cc comes to an end, and what it finds is on the disk.
use mathlib.Core.Path.{subst}
use zka.Common.{
  ℕ, zero, suc, ◌≤◌, ◌<◌, ◌≡◌, ◌≢◌, refl, inl, inr, true, Option, none, some, List, leb, ltb,
  length, Bool-cases, Option-cases, arith,
}
use zka.Storage.{Drive}
use zka.NewKit.Utils.{at, string_len, equals}
use zka.NewKit.Utils.Text.{string_len_pos}
use zka.Nefs.{root_catalog_start_address, root}
use zka.Nefs.Path.{parent_name}
use zka.Nefs.Path.Parent.{parent_name-shorter}
use zka.Nefs.Volume.{Result, ok, fault, out_of_fuel, ◌>>=◌, read_catalog, read_block}
use zka.Nefs.Find.{Entry, matches, scan, scan_again, find_below, find_catalog}
use zka.Nefs.Find.Lookup.{Place, Chain, resolve, resolve_below, result_of, find_catalog-resolve}

parent_name-short : (name p : List ℕ) → parent_name name ≡ some p → string_len name < 256
unfolding parent_name
parent_name-short name p e = elim (Bool-cases (ltb 255 (string_len name))) [
  | inl h ↦ absurd (ground (arith, rw h at e))
  | inr h ↦ ground arith
]

-- A result that came to an end.
abbrev Ends {ℓ} : {A : Type ℓ} → Result A → Type 0
Ends (ok a) = Unit
Ends fault = Unit
Ends out_of_fuel = ⊥

Ends-ne {ℓ} : {A : Type ℓ} (r : Result A) → Ends r → r ≢ out_of_fuel
Ends-ne r h e = elim (subst Ends e h) [ ]

then-Ends :
    (es : List Entry) (name p : List ℕ) (r : Result (Option Place))
    → Ends r
    → Ends (r >>= λ o. ok (resolve_below es name p o))
then-Ends es name p (ok o) h = tt
then-Ends es name p fault h = tt
then-Ends es name p out_of_fuel h = h

result_of-Ends : (r : Result (Option Place)) → Ends r → Ends (result_of r)
result_of-Ends (ok o) h = tt
result_of-Ends fault h = tt
result_of-Ends out_of_fuel h = h

resolve-Ends :
    (depth : ℕ) (es : List Entry) (name : List ℕ)
    → at name 0 ≢ 0
    → string_len name ≤ depth
    → Ends (resolve depth es name)
resolve-Ends zero es name n h = absurd (ground (arith, string_len_pos name))
resolve-Ends (suc depth) es name n h = elim (Bool-cases (equals name root)) [
  | inl r ↦ rw r tt
  | inr r ↦ elim (Option-cases (parent_name name)) [
    | inl e ↦ rw (r, e) tt
    | inr e ↦
        let shorter = parent_name-shorter name e.0 (parent_name-short name e.0 e.1) n e.1 in
        rw (r, e.1)
          (then-Ends es name e.0 (resolve depth es e.0)
            (resolve-Ends depth es e.0 shorter.1 (omega (arith, shorter.0))))
  ]
]

module _ (v : Drive) (d : v.State) where
  -- On a volume whose catalogs are such a list, FindCatalog comes to an end for every name that is
  -- not empty, within as many calls for a parent as the name has bytes and as many rounds of a loop
  -- as the list has catalogs.
  pub find_catalog-total :
      (depth fuel : ℕ) (name : List ℕ) (es : List Entry)
      → Chain v d (read_block v d).start_catalog es
      → at name 0 ≢ 0
      → string_len name ≤ depth
      → length es ≤ fuel
      → find_catalog v d depth fuel name ≢ out_of_fuel
  find_catalog-total depth fuel name es c n h k = Ends-ne (find_catalog v d depth fuel name) (
      rw (find_catalog-resolve v d depth fuel name es c k)
        (result_of-Ends (resolve depth es name) (resolve-Ends depth es name n h)))

  abbrev IsFound : List ℕ → Result (Option Entry) → Type 0
  IsFound name (ok (some e)) =
      (matches name e.catalog ≡ true) × (e.catalog ≡ read_catalog v d e.lba)
  IsFound name (ok none) = Unit
  IsFound name fault = Unit
  IsFound name out_of_fuel = Unit

  scan-IsFound : (fuel lba : ℕ) (name : List ℕ) → IsFound name (scan v d fuel lba name)
  unfolding scan
  scan-IsFound zero lba name = tt
  scan-IsFound (suc fuel) lba name =
      let c = read_catalog v d lba in
      elim (Bool-cases (matches name c)) [
        | inl m ↦ rw m (m, refl)
        | inr m ↦ elim (Bool-cases (leb c.next_sibling root_catalog_start_address)) [
          | inl l ↦ rw (m, l) tt
          | inr l ↦ rw (m, l) (scan-IsFound fuel c.next_sibling name)
        ]
      ]

  scan_again-IsFound :
      (fuel start : ℕ) (name : List ℕ) (r : Result (Option Entry))
      → IsFound name r
      → IsFound name (r >>= scan_again v d fuel start name)
  scan_again-IsFound fuel start name (ok none) h = scan-IsFound fuel start name
  scan_again-IsFound fuel start name (ok (some e)) h = h
  scan_again-IsFound fuel start name fault h = tt
  scan_again-IsFound fuel start name out_of_fuel h = tt

  find_below-IsFound :
      (fuel : ℕ) (name p : List ℕ) (r : Result (Option Entry))
      → IsFound name (r >>= find_below v d fuel name p)
  unfolding find_below
  find_below-IsFound fuel name p (ok none) = tt
  find_below-IsFound fuel name p (ok (some e)) = elim (Bool-cases (equals p root)) [
    | inl r ↦ rw r (scan-IsFound fuel (read_block v d).start_catalog name)
    | inr r ↦ rw r (
        scan_again-IsFound fuel (read_block v d).start_catalog name
          (scan v d fuel e.catalog.next_sibling name)
          (scan-IsFound fuel e.catalog.next_sibling name))
  ]
  find_below-IsFound fuel name p fault = tt
  find_below-IsFound fuel name p out_of_fuel = tt

  find_catalog-IsFound :
      (depth fuel : ℕ) (name : List ℕ) → IsFound name (find_catalog v d depth fuel name)
  unfolding find_catalog
  find_catalog-IsFound zero fuel name = tt
  find_catalog-IsFound (suc depth) fuel name = elim (Bool-cases (equals name root)) [
    | inl r ↦ rw r (scan-IsFound fuel (read_block v d).start_catalog name)
    | inr r ↦ elim (Option-cases (parent_name name)) [
      | inl e ↦ rw (r, e) tt
      | inr e ↦ rw (r, e.1) (find_below-IsFound fuel name e.0 (find_catalog v d depth fuel e.0))
    ]
  ]

  -- Whatever stands on the disk, a catalog that FindCatalog returns is allocated, has the name that
  -- was asked for, and is the one at the address that is returned with it.
  pub find_catalog-read_catalog :
      (depth fuel : ℕ) (name : List ℕ) (e : Entry)
      → find_catalog v d depth fuel name ≡ ok (some e)
      → (matches name e.catalog ≡ true) × (e.catalog ≡ read_catalog v d e.lba)
  find_catalog-read_catalog depth fuel name e h =
      subst (IsFound name) h (find_catalog-IsFound depth fuel name)
