-- ===== src/Nefs/Fork/Created.antt =====
-- What CreateFork of dev/ZKAKit/src/FS/NeFS.cc writes, and what ReadCatalog then finds.
use zka.Common.{
  ℕ, suc, ◌+◌, ◌^◌, ◌≤◌, ◌<◌, ◌≡◌, ◌≢◌, refl, ◌∙◌, true, false, ◌||◌, none, some, List, ltb, lt→ltb,
  leb, ◌==◌, or_bits_lt, any_bits, arith,
}
use zka.Storage.{Drive, IsLawful, gap}
use zka.NewKit.Utils.{at, equals}
use zka.NewKit.Utils.Text.{equals_refl, equals_sym}
use zka.Nefs.{catalog_start_address, flag_created, fork_data_size}
use zka.Nefs.Structs.{Catalog, Fork}
use zka.Nefs.Layout.Forks.{IsFork}
use zka.Nefs.Volume.{ok, read_fork, write_fork}
use zka.Nefs.Volume.Frame.{read_fork-write_fork}
use zka.Nefs.Fork.{
  data_fork_kind, no_fork, placed_fork, fork_reply, write_new_fork, fork_loop, create_fork,
  read_loop, read_data,
}

pub placed_fork-IsFork :
    (previous lba : ℕ) (f : Fork)
    → previous < 2 ^ 64
    → IsFork f
    → IsFork (placed_fork previous lba f)
unfolding placed_fork
placed_fork-IsFork previous lba f p h = (
  h.0,
  h.1,
  or_bits_lt 32 f.flags flag_created,
  h.3,
  h.4,
  h.5,
  h.6,
  omega arith,
  h.8,
  omega arith,
  p,
)

gt→leb_false : (a b : ℕ) → b < a → leb a b ≡ false
gt→leb_false a b h = ground arith

≢→==_false : (a : ℕ) → a ≢ 0 → (a == 0) ≡ false
≢→==_false a h = ground arith

≡→==_true : (a b : ℕ) → a ≡ b → (a == b) ≡ true
≡→==_true a b h = ground arith

ge→ltb_false : (a b : ℕ) → b ≤ a → ltb a b ≡ false
ge→ltb_false a b h = ground arith

asks :
    (f : Fork)
    → at f.fork_name 0 ≢ 0
    → f.data_size ≤ fork_data_size
    → (at f.fork_name 0 == 0 || ltb fork_data_size f.data_size) ≡ false
asks f n h = rw (≢→==_false (at f.fork_name 0) n) (ge→ltb_false fork_data_size f.data_size h)

module _ (v : Drive) (d : v.State) (c : Catalog) (f : Fork) where
  create_fork-loop :
      f.kind ≡ data_fork_kind
      → at f.fork_name 0 ≢ 0
      → f.data_size ≤ fork_data_size
      → catalog_start_address < c.data_fork
      → create_fork v d (some c) f ≡ fork_loop v 2 c f d no_fork c.data_fork c.data_fork
  unfolding create_fork
  create_fork-loop k n h l =
      rw (asks f n h, ≡→==_true f.kind data_fork_kind k) (rw (gt→leb_false c.data_fork _ l) refl)

  -- Where the data fork's place of a catalog holds a fork with a next sibling, CreateFork of a data
  -- fork with a name and at most 16 MiB writes over it, whatever the name of the fork that stands
  -- there.
  pub create_fork-overwrites :
      f.kind ≡ data_fork_kind
      → at f.fork_name 0 ≢ 0
      → f.data_size ≤ fork_data_size
      → catalog_start_address < c.data_fork
      → 0 < (read_fork v d c.data_fork).next_sibling
      → create_fork v d (some c) f
        ≡ fork_reply v
            (some (placed_fork c.data_fork c.data_fork f))
            (write_fork v d c.data_fork (placed_fork c.data_fork c.data_fork f))
  unfolding fork_loop write_new_fork
  create_fork-overwrites k n h l m =
      create_fork-loop k n h l
      ∙ rw (gt→leb_false c.data_fork _ l, lt→ltb 0 (read_fork v d c.data_fork).next_sibling m) refl

  fork_loop-free :
      catalog_start_address < c.data_fork
      → (read_fork v d c.data_fork).next_sibling ≡ 0
      → any_bits 32 (read_fork v d c.data_fork).flags flag_created ≡ false
      → fork_loop v 2 c f d no_fork c.data_fork c.data_fork
        ≡ write_new_fork v
            (write_fork v d c.data_fork (record no_fork { next_sibling = c.data_fork }))
            f
            c.data_fork
            c.data_fork
  unfolding fork_loop
  fork_loop-free l m a =
      rw
        (
          gt→leb_false c.data_fork _ l,
          ge→ltb_false 0 (read_fork v d c.data_fork).next_sibling (omega arith),
          a,
        )
        refl

  pub create_fork-free :
      f.kind ≡ data_fork_kind
      → at f.fork_name 0 ≢ 0
      → f.data_size ≤ fork_data_size
      → catalog_start_address < c.data_fork
      → (read_fork v d c.data_fork).next_sibling ≡ 0
      → any_bits 32 (read_fork v d c.data_fork).flags flag_created ≡ false
      → create_fork v d (some c) f
        ≡ fork_reply v (some (placed_fork c.data_fork c.data_fork f)) (
            write_fork v
              (write_fork v d c.data_fork (record no_fork { next_sibling = c.data_fork }))
              c.data_fork
              (placed_fork c.data_fork c.data_fork f))
  unfolding write_new_fork
  create_fork-free k n h l m a = create_fork-loop k n h l ∙ fork_loop-free l m a

  pub read_data-here :
      (fuel : ℕ) (name : List ℕ) (g : Fork)
      → catalog_start_address < c.data_fork
      → read_fork v d c.data_fork ≡ g
      → equals name g.fork_name ≡ true
      → equals c.name g.catalog_name ≡ true
      → read_data v (suc fuel) d (some c) false name ≡ ok (some g, none)
  unfolding read_data read_loop
  read_data-here fuel name g l h n m = rw (gt→leb_false c.data_fork _ l, h, n, m) refl

pub placed_fork-names :
    (previous lba : ℕ) (f : Fork)
    → ((placed_fork previous lba f).fork_name ≡ f.fork_name)
      × ((placed_fork previous lba f).catalog_name ≡ f.catalog_name)
unfolding placed_fork
placed_fork-names previous lba f = (refl, refl)

-- On a drive that keeps its sectors apart, a data fork with a name, of at most 16 MiB and with the
-- catalog's name in it, that CreateFork makes for a catalog whose data fork's place is free, is
-- what ReadCatalog then gives for the fork's name, as CreateFork has completed it.
pub create_fork-read_data :
    (v : Drive) (capacity : ℕ) (law : IsLawful v capacity) (d : v.State) (c : Catalog) (f : Fork)
    → f.kind ≡ data_fork_kind
    → at f.fork_name 0 ≢ 0
    → f.data_size ≤ fork_data_size
    → IsFork f
    → equals f.catalog_name c.name ≡ true
    → catalog_start_address < c.data_fork
    → c.data_fork + gap ≤ capacity
    → c.data_fork < 2 ^ 64
    → (read_fork v d c.data_fork).next_sibling ≡ 0
    → any_bits 32 (read_fork v d c.data_fork).flags flag_created ≡ false
    → (d' : v.State) × (create_fork v d (some c) f
        ≡ fork_reply v (some (placed_fork c.data_fork c.data_fork f)) d')
      × ((fuel : ℕ)
          → read_data v (suc fuel) d' (some c) false f.fork_name
            ≡ ok (some (placed_fork c.data_fork c.data_fork f), none))
create_fork-read_data v capacity law d c f k n h fits mine l room bound m a =
    let g = placed_fork c.data_fork c.data_fork f in
    let linked = write_fork v d c.data_fork (record no_fork { next_sibling = c.data_fork }) in
    let names = placed_fork-names c.data_fork c.data_fork f in
    let written = write_fork v linked c.data_fork g in
    (
      written,
      create_fork-free v d c f k n h l m a,
      λ fuel.
          read_data-here v written c f fuel f.fork_name g l
            (read_fork-write_fork v capacity law linked c.data_fork g
              (placed_fork-IsFork c.data_fork c.data_fork f bound fits) room)
            (rw names.0 (equals_refl f.fork_name))
            (rw names.1 (equals_sym f.catalog_name c.name mine)),
    )
