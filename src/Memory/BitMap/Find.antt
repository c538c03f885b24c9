-- ===== src/Memory/BitMap/Find.antt =====
-- What the search for a bitmap finds (IBitMapAllocator::FindBitMap).
use zka.Common.{
  ℕ, suc, ◌+◌, ◌<◌, ◌^◌, ◌≡◌, ◌≢◌, arith, inl, inr, true, false, ◌&&◌, Bool-cases, ap, ◌∙◌, lt→ltb,
  if◌then◌else◌, ltb, leb, ◌==◌,
}
use zka.Memory.{Memory, wrap64}
use zka.Memory.BitMap.{
  bit_map_magic, page_size, magic_at, size_at, used_at, take, make, Search, returns, find_loop,
  find_bit_map, Machine, alloc_bit_map,
}

-- The machine's bitmaps lie in the address space, with room for a block and the bitmaps' bytes.
pub record Fits (k : Machine) (m : Memory) : Type 0 where
  pub room : k.map_size ≢ 0
  pub page : k.start + page_size < 2 ^ 64
  pub last : k.start + size_at m (k.start + page_size) + k.map_size < 2 ^ 64

-- The outcome of the search by the first page behind the start.
abbrev pub outcome : Machine → Memory → ℕ → Search
outcome k m size =
    let page = k.start + page_size in
    if magic_at m page == bit_map_magic
    then if leb (size_at m page) size && used_at m page == 0
      then returns page (take m page size)
      else returns 0 m
    else returns k.start (make m k.start size)

wrap64_lt : (a : ℕ) → a < 2 ^ 64 → wrap64 a ≡ a
wrap64_lt a h = omega arith

Fits-make : (k : Machine) (m : Memory) (size : ℕ) → Fits k m → Fits k (make m k.start size)
Fits-make k m size f = ground arith

module _ (k : Machine) (m : Memory) (size : ℕ) (f : Fits k m) (some_bytes : size ≢ 0) where
  gives_up :
      (page : ℕ)
      → page ≡ k.start + page_size
      → ltb k.start (wrap64 (wrap64 (k.start + size_at m page) + k.map_size)) ≡ true
  gives_up page e =
      let at : size_at m page ≡ size_at m (k.start + page_size) = ap (size_at m) e in
      let last = f.last in
      let inner : wrap64 (k.start + size_at m page) ≡ k.start + size_at m page = omega arith in
      let outer : wrap64 (k.start + size_at m page + k.map_size)
          ≡ k.start + size_at m page + k.map_size =
        omega arith in
      rw (inner, outer) (lt→ltb _ _ (let room = f.room in omega arith))

  find_loop-outcome :
      (fuel page : ℕ)
      → page ≡ k.start + page_size
      → find_loop (suc fuel) k.map_size k.start size page m ≡ outcome k m size
  unfolding find_loop
  find_loop-outcome fuel page e =
      let not_null : (page == 0) ≡ false = ground arith in
      let not_empty : (size == 0) ≡ false = ground arith in
      rw (not_null, not_empty, ← e)
        (elim (Bool-cases (magic_at m page == bit_map_magic)) [
          | inl magic ↦
              rw magic (elim (Bool-cases (leb (size_at m page) size && used_at m page == 0)) [
                | inl free ↦ rw free
                | inr busy ↦ rw (busy, gives_up page e)
              ])
          | inr none ↦ rw none
        ])

  -- On a machine whose bitmaps lie in the address space, one round of the loop of FindBitMap
  -- decides a request for some bytes, whatever the fuel: the first page behind the start is
  -- returned, with the size of the request and marked as used, if it is an unused bitmap that is
  -- not larger than the request; if it is another bitmap, the result is null and nothing is
  -- written; and if it is no bitmap, the start itself is returned, with a new header.
  pub find_bit_map-outcome :
      (fuel : ℕ) → find_bit_map (suc fuel) k.map_size m k.start size ≡ outcome k m size
  unfolding find_bit_map
  find_bit_map-outcome fuel =
      let page = f.page in find_loop-outcome fuel (wrap64 (k.start + page_size)) (wrap64_lt _ page)

  pub alloc_bit_map-outcome : alloc_bit_map k m size ≡ outcome k m size
  unfolding alloc_bit_map
  alloc_bit_map-outcome = find_bit_map-outcome 1

-- Where the bitmaps lie in the address space and the first page behind the start is no bitmap, two
-- requests for some bytes in a row are both given the start: the second one overwrites the header
-- of the first, which is still in use.
pub alloc_bit_map_twice :
    (k : Machine) (m : Memory) (size size' : ℕ)
    → Fits k m
    → size ≢ 0
    → size' ≢ 0
    → magic_at m (k.start + page_size) ≢ bit_map_magic
    → (m₁ m₂ : Memory) × (alloc_bit_map k m size ≡ returns k.start m₁)
      × (used_at m₁ k.start ≡ 1)
      × (alloc_bit_map k m₁ size' ≡ returns k.start m₂)
      × (size_at m₂ k.start ≡ size')
alloc_bit_map_twice k m size size' f some_bytes some_more no_map =
    let m₁ : Memory = make m k.start size in
    (
      m₁,
      make m₁ k.start size',
      alloc_bit_map-outcome k m size f some_bytes ∙ ground arith,
      ground arith,
      alloc_bit_map-outcome k m₁ size' (Fits-make k m size f) some_more ∙ ground arith,
      ground arith,
    )
