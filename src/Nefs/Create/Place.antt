-- ===== src/Nefs/Create/Place.antt =====
-- Where CreateCatalog of dev/ZKAKit/src/FS/NeFS.cc puts a catalog, and what it leaves on the disk.
use zka.Common.{
  ℕ, zero, suc, ◌+◌, ◌%◌, ◌^◌, ◌<◌, ◌≡◌, ap, ◌∙◌, Bool, true, false, List, [], ◌∷◌, set, replicate,
  if◌then◌else◌, IsBytes, or_bits_lt, arith,
}
use zka.Storage.{Drive, IsLawful, Apart}
use zka.NewKit.Utils.{at, string_len, equals, copy_loop, copy_memory}
use zka.Nefs.{flag_created}
use zka.Nefs.Structs.{Catalog, Block}
use zka.Nefs.Layout.Catalogs.{IsCatalog}
use zka.Nefs.Layout.Blocks.{IsBlock}
use zka.Nefs.Volume.{read_catalog, read_block, write_catalog}
use zka.Nefs.Volume.Frame.{
  IsPlaced, read_block-IsBlock, read_catalog-write_catalog, read_catalog-write_catalog-Apart,
  read_block-write_catalog, read_block-write_block, read_catalog-write_block,
}
use zka.Nefs.Create.{padding, new_catalog, place, count_one, write_created}

-- The bytes of a string.
abbrev pub AreBytes : List ℕ → Type 0
AreBytes s = (i : ℕ) → at s i < 256

pub IsBytes-replicate : (n : ℕ) → IsBytes n (replicate n 0)
IsBytes-replicate zero = tt
IsBytes-replicate (suc n) = (omega arith, IsBytes-replicate n)

IsBytes-set : (n i b : ℕ) (s : List ℕ) → b < 256 → IsBytes n s → IsBytes n (set s i b)
IsBytes-set n i b [] h k = k
IsBytes-set zero zero b (c ∷ s) h k = elim k [ ]
IsBytes-set zero (suc i) b (c ∷ s) h k = elim k [ ]
IsBytes-set (suc n) zero b (c ∷ s) h k = (h, k.1)
IsBytes-set (suc n) (suc i) b (c ∷ s) h k = (k.0, IsBytes-set n i b s h k.1)

pub IsBytes-copy_loop :
    (n i w : ℕ) (src dst : List ℕ)
    → AreBytes src
    → IsBytes w dst
    → IsBytes w (copy_loop n i src dst)
unfolding copy_loop
IsBytes-copy_loop zero i w src dst h k = k
IsBytes-copy_loop (suc n) i w src dst h k =
    IsBytes-copy_loop n (i + 1) w src (set dst i (at src i)) h
      (IsBytes-set w i (at src i) dst (h i) k)

pub new_catalog-IsCatalog :
    (name : List ℕ) (flags kind out_lba : ℕ)
    → AreBytes name
    → kind < 2 ^ 32
    → out_lba < 2 ^ 64
    → IsCatalog (new_catalog name flags kind out_lba)
unfolding new_catalog copy_memory
new_catalog-IsCatalog name flags kind out_lba h k l = (
  IsBytes-copy_loop (string_len name) 0 256 name (replicate 256 0) h (IsBytes-replicate 256),
  IsBytes-replicate 200,
  or_bits_lt 16 flag_created flags,
  omega arith,
  k,
  omega arith,
  omega arith,
  omega arith,
  omega arith,
  l,
  l,
)

if_lt : (b : Bool) (m n w : ℕ) → m < w → n < w → (if b then m else n) < w
if_lt true m n w h k = h
if_lt false m n w h k = k

pub place-IsCatalog :
    (parent : List ℕ) (next : Catalog) (b : Block) (start : ℕ) (c : Catalog)
    → IsCatalog c
    → IsCatalog (place parent next b start c)
unfolding place
place-IsCatalog parent next b start c h = (
  h.0,
  h.1,
  h.2,
  h.3,
  h.4,
  h.5,
  h.6,
  omega arith,
  omega arith,
  if_lt (equals parent next.name) c.next_sibling ((start + padding) % 2 ^ 64) (256 ^ 8) h.9
      (omega arith),
  h.10,
)

count_one-IsBlock : (b : Block) → IsBlock b → IsBlock (count_one b)
count_one-IsBlock b h = (
  h.0,
  h.1,
  h.2,
  h.3,
  h.4,
  omega arith,
  h.6,
  omega arith,
  omega arith,
  h.9,
  h.10,
  h.11,
  h.12,
  h.13,
)

-- What a catalog's creation changes: the place, and the partition's counts.
pub record Written (v : Drive) (capacity : ℕ) (d d' : v.State) (lba : ℕ) (c : Catalog)
    : Type 0 where
  pub here : read_catalog v d' lba ≡ c
  pub counts : read_block v d' ≡ count_one (read_block v d)
  pub others :
      (a : ℕ) → IsPlaced capacity a → Apart lba a → read_catalog v d' a ≡ read_catalog v d a

pub write_created-Written :
    (v : Drive) (capacity : ℕ) (law : IsLawful v capacity) (d : v.State) (lba : ℕ) (c : Catalog)
    → IsCatalog c
    → IsPlaced capacity lba
    → Written v capacity d (write_created v d lba c) lba c
unfolding write_created
write_created-Written v capacity law d lba c h p =
    let w = write_catalog v d lba c in
    let b = count_one-IsBlock _ (read_block-IsBlock v capacity law w) in
    record {
      here =
          read_catalog-write_block v capacity law w lba _ b p.1 p.0
          ∙ read_catalog-write_catalog v capacity law d lba c h p.1;
      counts =
          read_block-write_block v capacity law w _ b (omega (arith, p.0, p.1))
          ∙ ap count_one (read_block-write_catalog v capacity law d lba c h p.1 p.0);
      others = λ a q r.
          read_catalog-write_block v capacity law w a _ b q.1 q.0
          ∙ read_catalog-write_catalog-Apart v capacity law d lba a c h p.1 q.1 r;
    }
