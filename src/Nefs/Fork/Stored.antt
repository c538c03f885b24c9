-- ===== src/Nefs/Fork/Stored.antt =====
-- What WriteCatalog of dev/ZKAKit/src/FS/NeFS.cc writes into a fork.
use mathlib.Core.Path.{subst}
use zka.Common.{
  ◌+◌, ◌-◌, ◌%◌, ◌^◌, or_bits, length, replicate, length-replicate, ap, sym, ◌∙◌, ℕ, ◌≤◌, ◌<◌, ◌≡◌,
  ◌≢◌, refl, true, List, if◌then◌else◌, ltb, arith,
}
use zka.Storage.{Drive}
use zka.NewKit.Utils.{equals, at, copy_memory}
use zka.NewKit.Utils.Copy.{copy_memory-at}
use zka.Nefs.Path.Parent.{get_or-replicate}
use zka.Nefs.{fork_data_size, flag_created, flag_unallocated, flag_deleted}
use zka.Nefs.Structs.{Catalog, Fork}
use zka.Nefs.Volume.{read_fork, write_fork}
use zka.Nefs.Fork.{takes_data, write_blob, padded_data}

takes_data-asks :
    (c : Catalog) (name : List ℕ) (size : ℕ) (f : Fork)
    → takes_data c name size f ≡ true
    → (f.flags ≢ flag_unallocated)
      × (f.flags ≢ flag_deleted)
      × (equals f.fork_name name ≡ true)
      × (equals f.catalog_name c.name ≡ true)
      × (f.data_size ≡ size)
unfolding takes_data
takes_data-asks c name size f h =
    (ground arith, ground arith, ground arith, ground arith, ground arith)

copy_memory-zeros :
    (content : List ℕ) (size n i : ℕ)
    → i < n
    → (at (copy_memory content (replicate n 0) size).0 i ≡ (if ltb i size then at content i else 0))
      × (length (copy_memory content (replicate n 0) size).0 ≡ n)
copy_memory-zeros content size n i h =
    let long = length-replicate n 0 in
    let (byte, same, _) =
      copy_memory-at content (replicate n 0) size i (subst (λ k. i < k) (sym long) h) in
    (byte ∙ ap (λ b. if ltb i size then at content i else b) (get_or-replicate n i), same ∙ long)

padded_data-at :
    (content : List ℕ) (size i : ℕ)
    → i < fork_data_size
    → (at (padded_data content size) i ≡ (if ltb i size then at content i else 0))
      × (length (padded_data content size) ≡ fork_data_size)
unfolding padded_data
padded_data-at content size = copy_memory-zeros content size fork_data_size

some_data : 0 < fork_data_size
unfolding fork_data_size
some_data = omega arith

module _ (v : Drive) (d : v.State) where
  -- One fork on the disk is in use, has the name and the catalog's name and holds `size` bytes. The
  -- disk is the one before, with 16 MiB at the fork's data, the `size` bytes and zeros behind them,
  -- and then with the fork's header, marked as created, 512 bytes in front of the fork.
  pub record Stored (c : Catalog) (content : List ℕ) (size : ℕ) (name : List ℕ) (d' : v.State)
      : Type 0 where
    pub lba : ℕ
    pub blob : List ℕ
    pub behind_start : 2560 ≤ lba
    pub data_behind_start : 2560 < (read_fork v d lba).data_offset
    pub allocated : (read_fork v d lba).flags ≢ flag_unallocated
    pub not_deleted : (read_fork v d lba).flags ≢ flag_deleted
    pub own_name : equals (read_fork v d lba).fork_name name ≡ true
    pub own_catalog : equals (read_fork v d lba).catalog_name c.name ≡ true
    pub own_size : (read_fork v d lba).data_size ≡ size
    pub fits : size ≤ fork_data_size
    pub blob_length : length blob ≡ fork_data_size
    pub bytes : (i : ℕ) → i < fork_data_size → at blob i ≡ (if ltb i size then at content i else 0)
    pub disk :
        d'
        ≡ write_fork v
            (v.output d (read_fork v d lba).data_offset blob)
            ((lba + 2 ^ 64 - 512) % 2 ^ 64)
            (record (read_fork v d lba) {
              flags = or_bits 32 (read_fork v d lba).flags flag_created;
            })

  pub write_blob-Stored :
      (c : Catalog) (content : List ℕ) (size : ℕ) (name : List ℕ) (lba : ℕ)
      → 2560 ≤ lba
      → 2560 < (read_fork v d lba).data_offset
      → size ≤ fork_data_size
      → takes_data c name size (read_fork v d lba) ≡ true
      → Stored c content size name (write_blob v d content size lba (read_fork v d lba))
  unfolding write_blob
  write_blob-Stored c content size name lba h g fits t =
      let (used, kept, n, m, e) = takes_data-asks c name size (read_fork v d lba) t in
      let padded = padded_data-at content size in
      record {
        lba = lba;
        blob = padded_data content size;
        behind_start = h;
        data_behind_start = g;
        allocated = used;
        not_deleted = kept;
        own_name = n;
        own_catalog = m;
        own_size = e;
        fits = fits;
        blob_length = (padded 0 some_data).1;
        bytes = λ i j. (padded i j).0;
        disk = refl;
      }
