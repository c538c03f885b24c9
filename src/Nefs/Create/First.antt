-- ===== src/Nefs/Create/First.antt =====
-- CreateCatalog of dev/ZKAKit/src/FS/NeFS.cc takes the first free place, and what it creates is found.
use native.Mathlib.Nat.{zero-add}
use zka.Common.{
  ℕ, zero, suc, ◌+◌, ◌-◌, ◌%◌, ◌^◌, ◌≤◌, ◌<◌, ◌≡◌, ◌≢◌, refl, sym, ap, ◌∙◌, Bool, true, false, not,
  ◌&&◌, none, some, List, length, replicate, ltb, leb, ◌==◌, length-replicate, suc-add, and_bits,
  any_bits, any_bits-or_bits_left, arith,
}
use zka.Storage.{Drive, IsLawful}
use zka.NewKit.Utils.{at, string_len, equals, copy_loop, copy_memory}
use zka.Nefs.Path.Parent.{at-copy_blank, at-fill, get_or-replicate}
use zka.NewKit.Utils.Text.{string_len-first, string_len-first_nul, string_len_pos, equals_iff}
use zka.Nefs.{root_catalog_start_address, flag_created, kind_dir, kind_file, separator}
use zka.Nefs.Structs.{Catalog, Block}
use zka.Nefs.Path.{parent_name, fill}
use zka.Nefs.Volume.{ok, is_created, read_catalog, read_block}
use zka.Nefs.Volume.Frame.{IsPlaced}
use zka.Nefs.Find.{Entry, find_catalog, matches, scan}
use zka.Nefs.Create.{
  padding, new_catalog, place, reply, write_created, take_free, allocate, create_below, create_new,
  create_catalog, last_char,
}
use zka.Nefs.Create.Place.{
  AreBytes, Written, new_catalog-IsCatalog, place-IsCatalog, write_created-Written,
}

-- The place that the loop comes to behind `k` others.
abbrev pub nth_place : ℕ → ℕ → ℕ
nth_place zero start = start
nth_place (suc k) start = nth_place k ((start + padding) % 2 ^ 64)

-- The loop goes over a place that holds a catalog of another name.
pub record IsPassed (v : Drive) (d : v.State) (name : List ℕ) (lba : ℕ) : Type 0 where
  pub behind_root : root_catalog_start_address < lba
  pub created : is_created (read_catalog v d lba) ≡ true
  pub differs : equals (read_catalog v d lba).name name ≡ false

abbrev pub ArePassed : (v : Drive) → v.State → List ℕ → ℕ → ℕ → Type 0
ArePassed v d name zero start = Unit
ArePassed v d name (suc k) start =
    IsPassed v d name start × ArePassed v d name k ((start + padding) % 2 ^ 64)

ge→ltb_false : (a b : ℕ) → b ≤ a → ltb a b ≡ false
ge→ltb_false a b h = ground arith

gt→leb_false : (a b : ℕ) → b < a → leb a b ≡ false
gt→leb_false a b h = ground arith

allocate-passed :
    (v : Drive) (d : v.State) (k more : ℕ) (parent name : List ℕ) (c : Catalog) (start : ℕ)
    → ArePassed v d name k start
    → allocate v (k + more) parent name c d start
      ≡ allocate v more parent name c d (nth_place k start)
unfolding allocate
allocate-passed v d zero more parent name c start h = rw (zero-add more) refl
allocate-passed v d (suc k) more parent name c start h =
    rw (suc-add k more, gt→leb_false start _ h.0.behind_root, h.0.created, h.0.differs)
      (allocate-passed v d k more parent name c ((start + padding) % 2 ^ 64) h.1)

-- A place that can be taken.
pub record IsFree (v : Drive) (d : v.State) (lba : ℕ) : Type 0 where
  pub behind_root : root_catalog_start_address < lba
  pub unallocated : is_created (read_catalog v d lba) ≡ false
  pub left : 1 ≤ (read_block v d).free_catalog

abbrev placed : (v : Drive) → v.State → List ℕ → Catalog → ℕ → Catalog
placed v d parent c lba = place parent (read_catalog v d lba) (read_block v d) lba c

allocate-free :
    (v : Drive) (d : v.State) (more : ℕ) (parent name : List ℕ) (c : Catalog) (lba : ℕ)
    → IsFree v d lba
    → allocate v (suc more) parent name c d lba
      ≡ reply v (some (placed v d parent c lba)) (write_created v d lba (placed v d parent c lba))
unfolding allocate take_free
allocate-free v d more parent name c lba h =
    rw (gt→leb_false lba _ h.behind_root, h.unallocated) (rw (ge→ltb_false _ _ h.left) refl)

-- A name that was copied into an array is equal to it.
equals-copied :
    (name blank : List ℕ)
    → at name 0 ≢ 0
    → string_len name < length blank
    → ((j : ℕ) → at blank j ≡ 0)
    → equals name (copy_loop (string_len name) 0 name blank) ≡ true
equals-copied name blank n h b =
    let copied = copy_loop (string_len name) 0 name blank in
    let c = λ (j : ℕ). at-copy_blank name blank (string_len name) j (b j) (omega arith) in
    (equals_iff name copied).1 (
      sym (
          string_len-first copied (string_len name) (ground (arith, c 0, string_len_pos name))
            (ground (arith, c (string_len name)))
            (λ i k. ground (arith, c i, string_len-first_nul name i n k))),
      λ j k. ground (arith, c j),
    )

created_is_created : any_bits 16 flag_created flag_created ≡ true
unfolding any_bits and_bits
created_is_created = refl

matches-placed :
    (parent name : List ℕ) (next : Catalog) (b : Block) (lba flags kind out_lba : ℕ)
    → at name 0 ≢ 0
    → string_len name < 256
    → matches name (place parent next b lba (new_catalog name flags kind out_lba)) ≡ true
unfolding place new_catalog copy_memory is_created
matches-placed parent name next b lba flags kind out_lba n h =
    rw
      (equals-copied name (replicate 256 0) n (rw (length-replicate {A = ℕ} 256 0) h)
        (get_or-replicate 256))
      (any_bits-or_bits_left 16 flag_created flags flag_created created_is_created)

split : (k fuel : ℕ) → k < fuel → fuel ≡ k + suc (fuel - suc k)
split k fuel h = omega arith

kind-fits : (a b : Bool) → a ≡ b → ((a && not b) ≡ false) × ((not a && b) ≡ false)
kind-fits true b e = rw (← e) (refl, refl)
kind-fits false b e = rw (← e) (refl, refl)

at-fill_ne :
    (name : List ℕ) → at name 0 ≢ 0 → string_len name < 256 → (at (fill name) 0 == 0) ≡ false
at-fill_ne name n h = ground (arith, at-fill name 0 h, string_len_pos name)

create_catalog-allocates :
    (v : Drive) (d : v.State)
    → (depth fuel : ℕ) (name p : List ℕ) (flags kind : ℕ) (e : Entry)
    → (kind == kind_dir) ≡ (last_char name == separator)
    → at name 0 ≢ 0
    → string_len name < 256
    → find_catalog v d depth fuel name ≡ ok none
    → parent_name name ≡ some p
    → find_catalog v d depth fuel p ≡ ok (some e)
    → (e.catalog.kind == kind_file) ≡ false
    → create_catalog v depth fuel d name flags kind
      ≡ allocate v fuel p name
          (new_catalog name flags kind e.lba)
          d
          (read_catalog v d e.lba).next_sibling
unfolding create_catalog create_new create_below
create_catalog-allocates v d depth fuel name p flags kind e fits n short none_yet parent there
      no_file =
    let k = kind-fits (kind == kind_dir) (last_char name == separator) fits in
    rw (k.0, k.1, none_yet, at-fill_ne name n short, parent, there, no_file) refl

allocate-first :
    (v : Drive) (d : v.State) (fuel k : ℕ) (p name : List ℕ) (c : Catalog) (start : ℕ)
    → k < fuel
    → ArePassed v d name k start
    → IsFree v d (nth_place k start)
    → allocate v fuel p name c d start
      ≡ reply v
          (some (placed v d p c (nth_place k start)))
          (write_created v d (nth_place k start) (placed v d p c (nth_place k start)))
allocate-first v d fuel k p name c start h passed free =
    ap (λ f. allocate v f p name c d start) (split k fuel h)
    ∙ allocate-passed v d k (suc (fuel - suc k)) p name c start passed
    ∙ allocate-free v d (fuel - suc k) p name c (nth_place k start) free

scan-here :
    (v : Drive) (d : v.State) (more lba : ℕ) (name : List ℕ) (c : Catalog)
    → read_catalog v d lba ≡ c
    → matches name c ≡ true
    → scan v d (suc more) lba name ≡ ok (some (record { lba = lba; catalog = c }))
unfolding scan
scan-here v d more lba name c h m = rw (h, m) refl

-- On a drive that keeps its sectors apart, CreateCatalog of a new name, below 256 bytes and ending
-- as its kind wants, whose parent is found and is no file, takes the first free place in steps of
-- 2048 from the parent's next sibling, if the fuel is above the number of places before it, each of
-- which holds a catalog of another name, and if the partition has a catalog left. The catalog that
-- it returns stands at that place, the partition's counts have moved by one, every catalog apart
-- from it is untouched, and a search that comes to the place finds it by its name.
pub create_catalog-found :
    (v : Drive) (capacity : ℕ) (law : IsLawful v capacity) (d : v.State)
    → (depth fuel k : ℕ) (name p : List ℕ) (flags kind : ℕ) (e : Entry)
    → (kind == kind_dir) ≡ (last_char name == separator)
    → at name 0 ≢ 0
    → string_len name < 256
    → AreBytes name
    → kind < 2 ^ 32
    → e.lba < 2 ^ 64
    → find_catalog v d depth fuel name ≡ ok none
    → parent_name name ≡ some p
    → find_catalog v d depth fuel p ≡ ok (some e)
    → (e.catalog.kind == kind_file) ≡ false
    → k < fuel
    → ArePassed v d name k (read_catalog v d e.lba).next_sibling
    → IsFree v d (nth_place k (read_catalog v d e.lba).next_sibling)
    → IsPlaced capacity (nth_place k (read_catalog v d e.lba).next_sibling)
    → (c : Catalog) × (d' : v.State) × (create_catalog v depth fuel d name flags kind
        ≡ reply v (some c) d')
      × Written v capacity d d' (nth_place k (read_catalog v d e.lba).next_sibling) c
      × ((more : ℕ)
          → scan v d' (suc more) (nth_place k (read_catalog v d e.lba).next_sibling) name
            ≡ ok (
                some (record {
                  lba = nth_place k (read_catalog v d e.lba).next_sibling;
                  catalog = c;
                })))
create_catalog-found v capacity law d depth fuel k name p flags kind e fits n short bytes kind_fits
      lba_fits none_yet parent there no_file enough passed free at_place =
    let lba = nth_place k (read_catalog v d e.lba).next_sibling in
    let child = new_catalog name flags kind e.lba in
    let c = placed v d p child lba in
    let w =
      write_created-Written v capacity law d lba c
        (place-IsCatalog p (read_catalog v d lba) (read_block v d) lba child
          (new_catalog-IsCatalog name flags kind e.lba bytes kind_fits lba_fits))
        at_place in
    (
      c,
      write_created v d lba c,
      create_catalog-allocates v d depth fuel name p flags kind e fits n short none_yet parent there
            no_file
          ∙ allocate-first v d fuel k p name child (read_catalog v d e.lba).next_sibling enough
              passed free,
      w,
      λ more. scan-here v (write_created v d lba c) more lba name c w.here (
          matches-placed p name (read_catalog v d lba) (read_block v d) lba flags kind e.lba n
            short),
    )
