-- ===== src/Memory/Heap/New.antt =====
-- What mm_new_heap gives out.
use zka.Common.{
  ℕ, ◌+◌, ◌*◌, ◌<◌, ◌^◌, ◌≡◌, ◌≢◌, refl, arith, Bool, true, false, some, ◌==◌, leb, ◌&&◌,
  if◌then◌else◌,
}
use zka.Memory.{Memory, InfoBlock, store_block, zero_bytes, wrap64}
use zka.Memory.BitMap.{Machine, returns, alloc_bit_map}
use zka.Memory.Heap.{
  heap_magic, block_size, padding_offset, align_size, block_of, fresh_block, new_heap,
  is_valid_heap,
}

-- The memory that mm_new_heap leaves for a bitmap at `base`.
abbrev pub new_memory : Memory → ℕ → ℕ → Bool → Bool → Memory
new_memory m base size wr user =
    zero_bytes
      (store_block m (base + block_size)
        (fresh_block (m.block (base + block_size)) (base + block_size) size wr user))
      (base + block_size + padding_offset) (4 * align_size)

-- The block that describes an allocation of `size` bytes at `p`.
pub record Describes (b : InfoBlock) (p size : ℕ) (wr user : Bool) : Type 0 where
  pub magic : b.magic ≡ heap_magic
  pub present : b.present ≡ true
  pub wr_bit : b.wr ≡ wr
  pub user_bit : b.user ≡ user
  pub page : b.page ≡ false
  pub crc32 : b.crc32 ≡ 0
  pub heap_size : b.heap_size ≡ size + block_size
  pub heap_ptr : b.heap_ptr ≡ p

pub block_of_ptr :
    (base : ℕ)
    → base + 2 * block_size < 2 ^ 64
    → block_of (base + 2 * block_size) ≡ base + block_size
block_of_ptr base h = omega arith

module _ (k : Machine) (m : Memory) (size : ℕ) (wr user : Bool) {base : ℕ} {m' : Memory}
    (some_bytes : size ≢ 0) (fits : size + block_size < 2 ^ 64)
    (room : base + 2 * block_size < 2 ^ 64)
    (found : alloc_bit_map k m (size + block_size) ≡ returns base m') where
  pub new_heap-eq :
      new_heap k m size wr user
      ≡ some (base + 2 * block_size, new_memory m' base (size + block_size) wr user)
  unfolding new_heap
  new_heap-eq =
      let not_empty : (size == 0) ≡ false = ground arith in
      let whole : wrap64 (size + block_size) ≡ size + block_size = omega arith in
      let at : wrap64 (base + block_size) ≡ base + block_size = omega arith in
      let ptr : wrap64 (base + block_size + block_size) ≡ base + 2 * block_size = omega arith in
      rw (not_empty, whole, found, at, ptr, whole)

  -- A request for some bytes that finds a bitmap, in the address space, is given the address two
  -- blocks behind it. The block in front of that address describes the request: it is present, with
  -- the magic number, the bits that were asked for, no checksum and the size with a block added.
  -- The 64 bytes from the block's padding on are cleared; every other word is as the search left
  -- it, and so is every other block.
  pub new_heap-Describes :
      (m'' : Memory) × (new_heap k m size wr user ≡ some (base + 2 * block_size, m''))
      × Describes (m''.block (base + block_size)) (base + 2 * block_size) size wr user
      × ((a : ℕ)
          → m''.word a ≡ (if leb (base + 80) a && leb (a + 8) (base + 144) then 0 else m'.word a))
      × ((a : ℕ) → m''.block a ≡ (if a == base + block_size then m''.block a else m'.block a))
  new_heap-Describes = (
    new_memory m' base (size + block_size) wr user,
    new_heap-eq,
    ground arith,
    (λ a. ground arith),
    λ a. ground arith,
  )

  -- A pointer that mm_new_heap has just given out, for some bytes and in the address space, is not
  -- valid to mm_is_valid_heap: the check looks for a bitmap at the pointer itself, and clearing the
  -- padding has cleared the words there.
  pub new_heap-not_valid :
      (p : ℕ) (m'' : Memory)
      → new_heap k m size wr user ≡ some (p, m'')
      → is_valid_heap m'' p ≡ false
  unfolding is_valid_heap
  new_heap-not_valid p m'' e =
      let given = new_heap-eq in
      let pe : base + 2 * block_size ≡ p = ground arith in
      let me : new_memory m' base (size + block_size) wr user ≡ m'' = ground arith in
      rw (← pe, ← me) (ground arith)

-- A request for no bytes is given null, and changes nothing.
pub new_heap_empty :
    (k : Machine) (m : Memory) (wr user : Bool) → new_heap k m 0 wr user ≡ some (0, m)
unfolding new_heap
new_heap_empty k m wr user = refl
