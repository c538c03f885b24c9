-- ===== src/Memory/Heap/Delete.antt =====
-- What mm_delete_heap and mm_protect_heap do.
use native.Mathlib.Nat.{add-zero}
use zka.Common.{
  ℕ, suc, ◌+◌, ◌-◌, ◌*◌, ◌≤◌, ◌<◌, ◌^◌, ◌≡◌, ◌≢◌, ◌↔◌, refl, ◌∙◌, ap, arith, true, false, ◌==◌,
  if◌then◌else◌, ltb, update, update_self, ◌∷◌, zero, ◌%◌,
}
use zka.Memory.{Memory, InfoBlock, store_block, wrap64}
use zka.Memory.BitMap.{mm_free_bit_map}
use zka.Memory.BitMap.Free.{mm_free_bit_map-cases}
use zka.NewKit.Crc.{calculate_crc32}
use zka.Memory.Heap.{
  heap_magic, block_size, block_of, done, stopped, error_success, error_internal,
  error_heap_not_present, runtime_check_pointer, block_crc, is_corrupted, cleared_block,
  delete_heap, protect_heap, bytes, byte_at,
}

-- A pointer with room for its block and for the bitmap's block in front of it.
abbrev pub HasBlock : ℕ → Type 0
HasBlock p = (2 * block_size ≤ p) × (p < 2 ^ 64)

block_of_lem : (p : ℕ) → HasBlock p → block_of p ≡ p - block_size
block_of_lem p h = omega arith

-- The memory that a successful mm_delete_heap leaves.
abbrev pub freed_memory : Memory → ℕ → Memory
freed_memory m at =
    (mm_free_bit_map (store_block m at (cleared_block (m.block at))) (at - block_size)).0

module _ (outside : ℕ → ℕ) (m : Memory) (p : ℕ) (h : HasBlock p) where
  -- Freeing a pointer with room for its block: without the magic number the error is internal;
  -- with it but not present, the error says so; a present block of the kernel whose checksum is
  -- set and wrong halts the kernel; any other present block is cleared, and its bitmap freed.
  pub delete_heap_cases :
      let b = m.block (p - block_size) in
      delete_heap outside m p ≡ (
        if b.magic == heap_magic
        then if b.present
          then if is_corrupted outside m b
            then stopped runtime_check_pointer
            else done error_success (freed_memory m (p - block_size))
          else done error_heap_not_present m
        else done error_internal m)
  unfolding delete_heap
  delete_heap_cases =
      let at : block_of p ≡ p - block_size = omega arith in
      let bitmap : wrap64 (p - block_size + 2 ^ 64 - block_size) ≡ p - block_size - block_size =
        omega arith in
      let not_null : (p == 0) ≡ false = ground arith in
      let has_block : (p - block_size == 0) ≡ false = ground arith in
      let checked : ltb (p - block_size) 0 ≡ false = ground arith in
      rw (at, not_null, checked, has_block, bitmap)

  delete_heap_success :
      (m' : Memory)
      → delete_heap outside m p ≡ done error_success m'
      → m' ≡ freed_memory m (p - block_size)
  delete_heap_success m' e = ground (arith, delete_heap_cases)

freed_memory-block :
    (m : Memory) (at : ℕ)
    → (freed_memory m at).block ≡ update m.block at (cleared_block (m.block at))
freed_memory-block m at =
    (mm_free_bit_map-cases (store_block m at (cleared_block (m.block at))) (at - block_size)).1

-- A pointer with room for its block can be freed once: after a call of mm_delete_heap that
-- succeeds, a second one finds no magic number, and fails without a change.
pub delete_heap_twice :
    (outside : ℕ → ℕ) (m : Memory) (p : ℕ)
    → HasBlock p
    → (m' : Memory) → delete_heap outside m p ≡ done error_success m'
    → delete_heap outside m' p ≡ done error_internal m'
delete_heap_twice outside m p h m' e =
    let at = p - block_size in
    let same = delete_heap_success outside m p h m' e in
    let cleared : m'.block at ≡ cleared_block (m.block at) =
      ap (λ (n : Memory). n.block at) same
      ∙ ap (λ (g : ℕ → InfoBlock). g at) (freed_memory-block m at)
      ∙ update_self m.block at _ in
    let magic : (m'.block at).magic ≡ 0 = ap (λ (b : InfoBlock). b.magic) cleared in
    delete_heap_cases outside m' p h ∙ ground arith

bytes-block :
    (n : ℕ) (m : Memory) (g : ℕ → InfoBlock) (a : ℕ)
    → bytes n (record m { block = g }) a ≡ bytes n m a
bytes-block zero m g a = refl
bytes-block (suc n) m g a = ap (◌∷◌ (byte_at m a)) (bytes-block n m g (a + 1))

-- The checksum reads no block.
block_crc-block :
    (outside : ℕ → ℕ) (m : Memory) (g : ℕ → InfoBlock) (b : InfoBlock) (c : ℕ)
    → block_crc outside (record m { block = g }) (record b { crc32 = c }) ≡ block_crc outside m b
unfolding block_crc
block_crc-block outside m g b c =
    ap (calculate_crc32 outside) (bytes-block (b.heap_size % 2 ^ 32) m g b.heap_ptr)

bytes-same :
    (k : ℕ) (n m : Memory) (a : ℕ)
    → ((i : ℕ) → i < k → byte_at n (a + i) ≡ byte_at m (a + i))
    → bytes k n a ≡ bytes k m a
bytes-same zero n m a h = refl
bytes-same (suc k) n m a h =
    let first : byte_at n a ≡ byte_at m a = rw (add-zero a) at (h 0 (omega arith)) in
    let rest = bytes-same k n m (a + 1) λ i l. next i (h (i + 1) (omega (arith, l))) in
    rw (first, rest) refl
  where
    next :
        (i : ℕ)
        → byte_at n (a + (i + 1)) ≡ byte_at m (a + (i + 1))
        → byte_at n (a + 1 + i) ≡ byte_at m (a + 1 + i)
    next i e = let moved : a + (i + 1) ≡ a + 1 + i = omega arith in rw moved at e

-- The checksum is the one of the block's bytes.
block_crc-same :
    (outside : ℕ → ℕ) (n m : Memory) (b : InfoBlock)
    → ((i : ℕ) → i < b.heap_size % 2 ^ 32 → byte_at n (b.heap_ptr + i) ≡ byte_at m (b.heap_ptr + i))
    → block_crc outside n b ≡ block_crc outside m b
unfolding block_crc
block_crc-same outside n m b h =
    ap (calculate_crc32 outside) (bytes-same (b.heap_size % 2 ^ 32) n m b.heap_ptr h)

-- The block that mm_protect_heap leaves.
abbrev protected : (ℕ → ℕ) → Memory → ℕ → InfoBlock
protected outside m at = record (m.block at) { crc32 = block_crc outside m (m.block at) }

module _ (outside : ℕ → ℕ) (m : Memory) (p : ℕ) (h : HasBlock p) where
  protect_heap_success :
      (m' : Memory)
      → protect_heap outside m p ≡ (m', true)
      → (m' ≡ store_block m (p - block_size) (protected outside m (p - block_size)))
        × ((m.block (p - block_size)).present ≡ true)
        × ((m.block (p - block_size)).magic ≡ heap_magic)
  unfolding protect_heap
  protect_heap_success m' e =
      let at : block_of p ≡ p - block_size = omega arith in let e' = rw at at e in ground arith

  -- A block that mm_protect_heap has given its checksum can be freed as long as its information
  -- block and its bytes, as many as the information block tells, stay the same, whatever else
  -- changes in memory: mm_delete_heap does not halt, succeeds and frees the block.
  pub protect_heap-delete_heap :
      (m' n : Memory)
      → protect_heap outside m p ≡ (m', true)
      → n.block (p - block_size) ≡ m'.block (p - block_size)
      → ((i : ℕ)
          → i < (m'.block (p - block_size)).heap_size % 2 ^ 32
          → byte_at n ((m'.block (p - block_size)).heap_ptr + i)
            ≡ byte_at m' ((m'.block (p - block_size)).heap_ptr + i))
      → delete_heap outside n p ≡ done error_success (freed_memory n (p - block_size))
  protect_heap-delete_heap m' n e kept unchanged =
      let at = p - block_size in
      let (same, present, magic) = protect_heap_success m' e in
      let block : m'.block at ≡ protected outside m at =
        ap (λ (n : Memory). n.block at) same ∙ update_self m.block at _ in
      let crc : block_crc outside n (n.block at) ≡ block_crc outside m (m.block at) =
        ap (block_crc outside n) kept
        ∙ block_crc-same outside n m' (m'.block at) unchanged
        ∙ rw (block, same) (block_crc-block outside m _ (m.block at) _) in
      let whole = kept ∙ block in
      let own : (n.block at).crc32 ≡ block_crc outside m (m.block at) =
        ap (λ (b : InfoBlock). b.crc32) whole in
      let still : (n.block at).present ≡ true = ap (λ (b : InfoBlock). b.present) whole ∙ present in
      let tag : (n.block at).magic ≡ heap_magic = ap (λ (b : InfoBlock). b.magic) whole ∙ magic in
      delete_heap_cases outside n p h ∙ ground arith

  -- For a pointer with room for its block, mm_delete_heap halts the kernel exactly when the block
  -- has the magic number, is present and the kernel's own, and has a checksum that is not the one
  -- of its bytes.
  pub delete_heap-stopped :
      let b = m.block (p - block_size) in
      (delete_heap outside m p ≡ stopped runtime_check_pointer) ↔ (
        (b.magic ≡ heap_magic)
        × (b.present ≡ true)
        × (b.user ≡ false)
        × (b.crc32 ≢ 0)
        × (b.crc32 ≢ block_crc outside m b))
  delete_heap-stopped =
      let cases = delete_heap_cases outside m p h in
      ((λ e. ground arith), λ q. cases ∙ ground arith)
