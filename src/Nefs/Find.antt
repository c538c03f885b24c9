-- ===== src/Nefs/Find.antt =====
-- NeFSParser::FindCatalog of dev/ZKAKit/src/FS/NeFS.cc.
pub mod Lookup
pub mod Total
use zka.Common.{ℕ, zero, suc, Bool, ◌&&◌, Option, none, some, List, if◌then◌else◌, leb}
use zka.Storage.{Drive}
use zka.NewKit.Utils.{equals}
use zka.Nefs.{root_catalog_start_address, root}
use zka.Nefs.Structs.{Catalog}
use zka.Nefs.Path.{parent_name}
use zka.Nefs.Volume.{Result, ok, fault, out_of_fuel, ◌>>=◌, is_created, read_catalog, read_block}

-- A catalog, and `out_lba`, where it stands; without one `out_lba` is 0.
pub record Entry : Type 0 where
  pub lba : ℕ
  pub catalog : Catalog

-- `Equals(catalogName, catalog->Name)`, and the catalog is allocated.
abbrev pub matches : List ℕ → Catalog → Bool
matches name c = equals name c.name && is_created c

module _ (v : Drive) (d : v.State) where
  -- The loop at `NeFSSearchThroughCatalogList`, from `startCatalogList` on.
  unfoldable pub scan : ℕ → ℕ → List ℕ → Result (Option Entry)
  scan zero lba name = out_of_fuel
  scan (suc fuel) lba name =
      let c = read_catalog v d lba in
      let rest = scan fuel c.next_sibling name in
      if matches name c
      then ok (some (record { lba = lba; catalog = c }))
      else if leb c.next_sibling root_catalog_start_address
      then ok none
      else rest

  -- Behind the label again, where the local search came first and found nothing.
  abbrev pub scan_again : ℕ → ℕ → List ℕ → Option Entry → Result (Option Entry)
  scan_again fuel start name none = scan fuel start name
  scan_again fuel start name (some e) = ok (some e)

  -- What follows the search for the parent, `p`.
  unfoldable pub find_below : ℕ → List ℕ → List ℕ → Option Entry → Result (Option Entry)
  find_below fuel name p none = ok none
  find_below fuel name p (some e) =
      let start = (read_block v d).start_catalog in
      if equals p root
      then scan fuel start name
      else (scan fuel e.catalog.next_sibling name >>= scan_again fuel start name)

  -- FindCatalog: `depth` bounds the calls for the parent's name, `fuel` the rounds of each loop.
  unfoldable pub find_catalog : ℕ → ℕ → List ℕ → Result (Option Entry)
  find_catalog zero fuel name = out_of_fuel
  find_catalog (suc depth) fuel name =
      if equals name root
      then scan fuel (read_block v d).start_catalog name
      else elim (parent_name name) [
        | none ↦ fault
        | some p ↦ find_catalog depth fuel p >>= find_below fuel name p
      ]
