-- ===== src/Nefs/Fork/Twice.antt =====
-- Two calls of CreateFork of dev/ZKAKit/src/FS/NeFS.cc for one catalog.
use zka.Common.{
  ℕ, suc, ◌+◌, ◌^◌, ◌≤◌, ◌<◌, ◌≡◌, ◌≢◌, ◌∙◌, ap, true, false, none, some, any_bits, arith,
}
use zka.Storage.{Drive, IsLawful, gap}
use zka.NewKit.Utils.{at, equals}
use zka.NewKit.Utils.Text.{equals_refl, equals_sym}
use zka.Nefs.{catalog_start_address, flag_created, fork_data_size}
use zka.Nefs.Structs.{Catalog, Fork}
use zka.Nefs.Layout.Forks.{IsFork}
use zka.Nefs.Volume.{ok, read_fork, write_fork}
use zka.Nefs.Volume.Frame.{read_fork-write_fork}
use zka.Nefs.Fork.{data_fork_kind, no_fork, placed_fork, fork_reply, create_fork, read_data}
use zka.Nefs.Fork.Created.{
  placed_fork-IsFork, placed_fork-names, create_fork-overwrites, create_fork-free, read_data-here,
}

-- A data fork that a catalog is to get.
pub record IsNew (c : Catalog) (f : Fork) : Type 0 where
  pub own_kind : f.kind ≡ data_fork_kind
  pub named : at f.fork_name 0 ≢ 0
  pub size : f.data_size ≤ 16777216
  pub fits : IsFork f
  pub own : equals f.catalog_name c.name ≡ true

small : (n : ℕ) → n ≤ 16777216 → n ≤ fork_data_size
unfolding fork_data_size
small n h = h

next_sibling-placed :
    (lba : ℕ) (f : Fork)
    → lba < 2 ^ 64
    → 1024 ≤ lba
    → f.data_size ≤ 16777216
    → f.data_size + 1024 ≢ lba
    → 0 < (placed_fork lba lba f).next_sibling
unfolding placed_fork
next_sibling-placed lba f h k n e = ground arith

module _ (v : Drive) (capacity : ℕ) (law : IsLawful v capacity) where
  read_fork-placed :
      (d : v.State) (c : Catalog) (f : Fork)
      → IsFork f
      → c.data_fork + gap ≤ capacity
      → c.data_fork < 2 ^ 64
      → read_fork v (write_fork v d c.data_fork (placed_fork c.data_fork c.data_fork f)) c.data_fork
        ≡ placed_fork c.data_fork c.data_fork f
  read_fork-placed d c f fits room bound =
      read_fork-write_fork v capacity law d c.data_fork _
        (placed_fork-IsFork c.data_fork c.data_fork f bound fits) room

  -- On a drive that keeps its sectors apart, for a catalog whose data fork's place is free, two
  -- data forks with a name each, of at most 16 MiB and with the catalog's name in them, are created
  -- one after the other at the same place, if the first one's size is not 1024 below that place:
  -- ReadCatalog finds the first one by its name until the second one is created, then it finds the
  -- second one by its name, and the place has the second one's name, whatever the two names are.
  pub create_fork_twice :
      (d : v.State) (c : Catalog) (f g : Fork)
      → IsNew c f
      → IsNew c g
      → catalog_start_address < c.data_fork
      → c.data_fork + gap ≤ capacity
      → c.data_fork < 2 ^ 64
      → f.data_size + 1024 ≢ c.data_fork
      → (read_fork v d c.data_fork).next_sibling ≡ 0
      → any_bits 32 (read_fork v d c.data_fork).flags flag_created ≡ false
      → let pf = placed_fork c.data_fork c.data_fork f in
        let pg = placed_fork c.data_fork c.data_fork g in
        (d' : v.State) × (d'' : v.State) × (create_fork v d (some c) f ≡ fork_reply v (some pf) d')
        × ((fuel : ℕ) → read_data v (suc fuel) d' (some c) false f.fork_name ≡ ok (some pf, none))
        × (create_fork v d' (some c) g ≡ fork_reply v (some pg) d'')
        × ((fuel : ℕ) → read_data v (suc fuel) d'' (some c) false g.fork_name ≡ ok (some pg, none))
        × ((read_fork v d'' c.data_fork).fork_name ≡ g.fork_name)
  create_fork_twice d c f g hf hg l room bound apart m a =
      let lba = c.data_fork in
      let linked = write_fork v d lba (record no_fork { next_sibling = lba }) in
      let d' = write_fork v linked lba (placed_fork lba lba f) in
      let d'' = write_fork v d' lba (placed_fork lba lba g) in
      let first = read_fork-placed linked c f hf.fits room bound in
      let second = read_fork-placed d' c g hg.fits room bound in
      let n = placed_fork-names lba lba f in
      let o = placed_fork-names lba lba g in
      let more : 0 < (read_fork v d' lba).next_sibling =
        rw first (next_sibling-placed lba f bound (omega (arith, l)) hf.size apart) in
      (
        d',
        d'',
        create_fork-free v d c f hf.own_kind hf.named (small f.data_size hf.size) l m a,
        λ fuel.
            read_data-here v d' c f fuel f.fork_name _ l first (rw n.0 (equals_refl f.fork_name))
              (rw n.1 (equals_sym f.catalog_name c.name hf.own)),
        create_fork-overwrites v d' c g hg.own_kind hg.named (small g.data_size hg.size) l more,
        λ fuel.
            read_data-here v d'' c g fuel g.fork_name _ l second (rw o.0 (equals_refl g.fork_name))
              (rw o.1 (equals_sym g.catalog_name c.name hg.own)),
        ap (λ (x : Fork). x.fork_name) second ∙ o.0,
      )
