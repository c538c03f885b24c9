-- ===== src/Memory/Heap/Cycle.antt =====
-- What becomes of an allocation: mm_new_heap, then mm_delete_heap.
use zka.Common.{
  ℕ, ◌+◌, ◌-◌, ◌*◌, ◌<◌, ◌^◌, ◌≡◌, ◌≢◌, refl, ◌∙◌, ap, arith, Bool, some, ◌==◌, if◌then◌else◌, true,
}
use zka.Memory.{Memory, store_block}
use zka.Memory.BitMap.{
  Machine, returns, alloc_bit_map, magic_at, size_at, used_at, bit_map_magic, mm_free_bit_map,
  is_bit_map,
}
use zka.Memory.BitMap.Free.{mm_free_bit_map-cases}
use zka.Memory.Heap.{
  heap_magic, block_size, cleared_block, done, error_success, new_heap, delete_heap,
}
use zka.Memory.Heap.New.{new_memory, new_heap-eq}
use zka.Memory.Heap.Delete.{freed_memory, delete_heap_cases}

-- The memory after a block that is present, in order and without a checksum has been freed.
record Freed (outside : ℕ → ℕ) (n : Memory) (base : ℕ) (m₂ : Memory) : Type 0 where
  succeeds : delete_heap outside n (base + 2 * block_size) ≡ done error_success m₂
  unused : used_at m₂ base ≡ 0
  still_magic : magic_at m₂ base ≡ bit_map_magic
  same_size : size_at m₂ base ≡ size_at n base

freed_word :
    (n : Memory) (base a : ℕ)
    → base ≢ 0
    → magic_at n base ≡ bit_map_magic
    → (freed_memory n (base + block_size)).word a ≡ (if a == base + 16 then 0 else n.word a)
unfolding is_bit_map
freed_word n base a not_null magic =
    let back : base + block_size - block_size ≡ base = omega arith in
    let at = base + block_size in
    let cleared = store_block n at (cleared_block (n.block at)) in
    let (_, _, word) = mm_free_bit_map-cases cleared base in
    let is_map : is_bit_map cleared base ≡ true = ground (arith, magic) in
    ap (λ (b : ℕ). (mm_free_bit_map cleared b).0.word a) back ∙ (word a ∙ ground (arith, is_map))

delete_clean :
    (outside : ℕ → ℕ) (n : Memory) (base : ℕ)
    → base + 2 * block_size < 2 ^ 64
    → base ≢ 0
    → magic_at n base ≡ bit_map_magic
    → (n.block (base + block_size)).magic ≡ heap_magic
    → (n.block (base + block_size)).present ≡ true
    → (n.block (base + block_size)).crc32 ≡ 0
    → Freed outside n base (freed_memory n (base + block_size))
delete_clean outside n base room not_null magic block_magic present crc =
    let at : base + 2 * block_size - block_size ≡ base + block_size = omega arith in
    let cases = delete_heap_cases outside n (base + 2 * block_size) (omega arith, room) in
    record {
      succeeds = cases ∙ rw (at, block_magic, present, crc) refl;
      unused = freed_word n base (base + 16) not_null magic ∙ ground arith;
      still_magic = freed_word n base base not_null magic ∙ ground arith;
      same_size = freed_word n base (base + 8) not_null magic ∙ ground arith;
    }

module _ (outside : ℕ → ℕ) (k : Machine) (m : Memory) (size : ℕ) (wr user : Bool) {base : ℕ}
    {m' : Memory} (some_bytes : size ≢ 0) (fits : size + block_size < 2 ^ 64)
    (room : base + 2 * block_size < 2 ^ 64) (not_null : base ≢ 0)
    (found : alloc_bit_map k m (size + block_size) ≡ returns base m')
    (magic : magic_at m' base ≡ bit_map_magic) where
  -- A pointer that mm_new_heap has given out, for some bytes, in the address space and behind a
  -- bitmap above null, can be freed at once: mm_delete_heap succeeds, and then the bitmap is
  -- unused, and still a bitmap of the same size.
  pub delete_heap-new_heap :
      (p : ℕ) (m₁ : Memory)
      → new_heap k m size wr user ≡ some (p, m₁)
      → (m₂ : Memory) × (delete_heap outside m₁ p ≡ done error_success m₂)
        × (used_at m₂ base ≡ 0)
        × (magic_at m₂ base ≡ bit_map_magic)
        × (size_at m₂ base ≡ size_at m' base)
  delete_heap-new_heap p m₁ e =
      let given = new_heap-eq k m size wr user some_bytes fits room found in
      let at : base + 2 * block_size ≡ p = ground arith in
      let n = new_memory m' base (size + block_size) wr user in
      let same : n ≡ m₁ = ground arith in
      let h =
        delete_clean outside n base room not_null (ground arith) (ground arith) (ground arith)
          (ground arith) in
      rw (← at, ← same)
        (
          freed_memory n (base + block_size),
          h.succeeds,
          h.unused,
          h.still_magic,
          h.same_size ∙ ground arith,
        )
