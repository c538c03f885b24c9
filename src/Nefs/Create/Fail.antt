-- ===== src/Nefs/Create/Fail.antt =====
-- The branches of CreateCatalog of dev/ZKAKit/src/FS/NeFS.cc that create nothing.
use mathlib.Core.Path.{subst}
use zka.Common.{
  ℕ, zero, suc, ◌+◌, ◌%◌, ◌^◌, ◌≡◌, refl, inl, inr, not, ◌&&◌, Option, none, some, List, ltb, leb,
  ◌==◌, Bool-cases, Option-cases,
}
use zka.Storage.{Drive}
use zka.NewKit.Utils.{at, string_len, equals}
use zka.Nefs.{root_catalog_start_address, kind_dir, kind_file, separator, root}
use zka.Nefs.Structs.{Catalog}
use zka.Nefs.Path.{parent_name, clear_and_strip, fill}
use zka.Nefs.Volume.{
  Result, ok, fault, out_of_fuel, ◌>>=◌, Reply, is_created, read_catalog, read_block,
}
use zka.Nefs.Find.{Entry, find_catalog}
use zka.Nefs.Create.{
  padding, new_catalog, take_free, allocate, create_below, create_new, create_catalog, last_char,
}

module _ (v : Drive) (d : v.State) where
  -- A reply without a catalog has the disk as it was.
  abbrev Kept : Option Catalog → v.State → Type 0
  Kept none d' = d' ≡ d
  Kept (some c) d' = Unit

  abbrev IsKept : Result (Reply v (Option Catalog)) → Type 0
  IsKept (ok r) = Kept r.value r.disk
  IsKept fault = Unit
  IsKept out_of_fuel = Unit

  take_free-IsKept :
      (parent : List ℕ) (c : Catalog) (start : ℕ) → IsKept (take_free v parent c d start)
  unfolding take_free
  take_free-IsKept parent c start = elim (Bool-cases (ltb (read_block v d).free_catalog 1)) [
    | inl h ↦ rw h refl
    | inr h ↦ rw h tt
  ]

  allocate-IsKept :
      (fuel : ℕ) (parent name : List ℕ) (c : Catalog) (start : ℕ)
      → IsKept (allocate v fuel parent name c d start)
  unfolding allocate
  allocate-IsKept zero parent name c start = tt
  allocate-IsKept (suc fuel) parent name c start =
      elim (Bool-cases (leb start root_catalog_start_address)) [
        | inl h ↦ rw h refl
        | inr h ↦ elim (Bool-cases (is_created (read_catalog v d start))) [
          | inr n ↦ rw (h, n) (take_free-IsKept parent c start)
          | inl n ↦ elim (Bool-cases (equals (read_catalog v d start).name name)) [
            | inl s ↦ rw (h, n, s) tt
            | inr s ↦ rw (h, n, s) (allocate-IsKept fuel parent name c ((start + padding) % 2 ^ 64))
          ]
        ]
      ]

  create_below-IsKept :
      (fuel : ℕ) (parent name : List ℕ) (flags kind : ℕ) (o : Option Entry)
      → IsKept (create_below v fuel parent name flags kind d o)
  unfolding create_below
  create_below-IsKept fuel parent name flags kind none =
      let lba = (read_block v d).start_catalog in
      allocate-IsKept fuel parent name (new_catalog name flags kind lba)
        (read_catalog v d lba).next_sibling
  create_below-IsKept fuel parent name flags kind (some e) =
      elim (Bool-cases (e.catalog.kind == kind_file)) [
        | inl h ↦ rw h refl
        | inr h ↦ rw h (
            allocate-IsKept fuel parent name (new_catalog name flags kind e.lba)
              (read_catalog v d e.lba).next_sibling)
      ]

  then-IsKept :
      (fuel : ℕ) (parent name : List ℕ) (flags kind : ℕ) (r : Result (Option Entry))
      → IsKept (r >>= create_below v fuel parent name flags kind d)
  then-IsKept fuel parent name flags kind (ok o) = create_below-IsKept fuel parent name flags kind o
  then-IsKept fuel parent name flags kind fault = tt
  then-IsKept fuel parent name flags kind out_of_fuel = tt

  create_new-IsKept :
      (depth fuel : ℕ) (name : List ℕ) (flags kind : ℕ) (o : Option Entry)
      → IsKept (create_new v depth fuel name flags kind d o)
  unfolding create_new
  create_new-IsKept depth fuel name flags kind (some e) = tt
  create_new-IsKept depth fuel name flags kind none = elim (Bool-cases (at (fill name) 0 == 0)) [
    | inl h ↦ rw h refl
    | inr h ↦ elim (Option-cases (parent_name name)) [
      | inl e ↦ rw (h, e) tt
      | inr e ↦ rw (h, e.1) (then-IsKept fuel e.0 name flags kind (find_catalog v d depth fuel e.0))
    ]
  ]

  then_new-IsKept :
      (depth fuel : ℕ) (name : List ℕ) (flags kind : ℕ) (r : Result (Option Entry))
      → IsKept (r >>= create_new v depth fuel name flags kind d)
  then_new-IsKept depth fuel name flags kind (ok o) = create_new-IsKept depth fuel name flags kind o
  then_new-IsKept depth fuel name flags kind fault = tt
  then_new-IsKept depth fuel name flags kind out_of_fuel = tt

  create_catalog-IsKept :
      (depth fuel : ℕ) (name : List ℕ) (flags kind : ℕ)
      → IsKept (create_catalog v depth fuel d name flags kind)
  unfolding create_catalog
  create_catalog-IsKept depth fuel name flags kind =
      elim (Bool-cases (kind == kind_dir && not (last_char name == separator))) [
        | inl h ↦ rw h refl
        | inr h ↦ elim (Bool-cases (not (kind == kind_dir) && last_char name == separator)) [
          | inl g ↦ rw (h, g) refl
          | inr g ↦
              rw (h, g)
                (then_new-IsKept depth fuel name flags kind (find_catalog v d depth fuel name))
        ]
      ]

  -- A CreateCatalog that returns no catalog, on whichever branch, has left the disk as it was.
  pub create_catalog-none :
      (depth fuel : ℕ) (name : List ℕ) (flags kind : ℕ) (d' : v.State) (code : Option ℕ)
      → create_catalog v depth fuel d name flags kind
        ≡ ok (record { value = none; disk = d'; local_code = code })
      → d' ≡ d
  create_catalog-none depth fuel name flags kind d' code h =
      subst IsKept h (create_catalog-IsKept depth fuel name flags kind)

parent_name-root : parent_name root ≡ none
unfolding parent_name clear_and_strip fill string_len
parent_name-root = refl
