-- ===== src/Memory/BitMap.antt =====
-- The bitmap allocator, dev/ZKAKit/src/BitMapMgr.cc. A bitmap begins with three words: its magic
-- number, its size and whether it is used. Logging and the mapping of pages (`mm_map_page`) change
-- none of them.
pub mod Find
pub mod Free
use zka.Common.{
  ℕ, zero, suc, ◌+◌, ◌*◌, ◌≤◌, Bool, true, false, ◌&&◌, not, Option, none, some, ltb, leb, ◌==◌,
  if◌then◌else◌,
}
use zka.Memory.{Memory, store, wrap64}

abbrev pub bit_map_magic : ℕ
bit_map_magic = 0x10210

-- `kPageSize` on AMD64.
abbrev pub page_size : ℕ
page_size = 0x100

-- `ptr_bit_set[kBitMapMagIdx]` and the two words behind it.
abbrev pub magic_at : Memory → ℕ → ℕ
magic_at m p = m.word p

abbrev pub size_at : Memory → ℕ → ℕ
size_at m p = m.word (p + 8)

abbrev pub used_at : Memory → ℕ → ℕ
used_at m p = m.word (p + 16)

-- IBitMapAllocator::IsBitMap.
unfoldable pub is_bit_map : Memory → ℕ → Bool
is_bit_map m p = if p == 0 then false else magic_at m p == bit_map_magic

-- IBitMapAllocator::FreeBitMap.
unfoldable pub free_bit_map : Memory → ℕ → Memory × Bool
unfolding is_bit_map
free_bit_map m p =
    if is_bit_map m p then (store (store m p bit_map_magic) (p + 16) 0, true) else (m, false)

abbrev pub mm_flags_present : ℕ
mm_flags_present = 1

-- The two writes of FindBitMap that take a bitmap that is there.
abbrev pub take : Memory → ℕ → ℕ → Memory
take m p size = store (store m (p + 8) size) (p + 16) 1

-- The three writes of FindBitMap that make a bitmap.
abbrev pub make : Memory → ℕ → ℕ → Memory
make m p size = store (store (store m p bit_map_magic) (p + 8) size) (p + 16) 1

pub data Search : Type 0 where
  -- The address that was found, and the memory with its header written.
  returns : ℕ → Memory → Search
  out_of_fuel : Search

-- The `while` loop of IBitMapAllocator::FindBitMap at `base`; `map_size` is the boot loader's
-- `f_BitMapSize`. Where the bitmap is not taken, the next base is `base_ptr` moved by the block's
-- size, and the search gives up as soon as `base_ptr` lies below that place and `map_size` more.
unfoldable pub find_loop : ℕ → ℕ → ℕ → ℕ → ℕ → Memory → Search
find_loop zero map_size base_ptr size base m = out_of_fuel
find_loop (suc fuel) map_size base_ptr size base m =
    let block = if magic_at m base == bit_map_magic then size_at m base else size in
    let next = wrap64 (base_ptr + block) in
    let again =
      if ltb base_ptr (wrap64 (next + map_size))
      then returns 0 m
      else find_loop fuel map_size base_ptr size next m in
    if base == 0
    then returns 0 m
    else if size == 0
    then returns 0 m
    else if magic_at m base == bit_map_magic
    then if leb (size_at m base) size && used_at m base == 0
      then returns base (take m base size)
      else again
    else returns base_ptr (make m base_ptr size)

unfoldable pub find_bit_map : ℕ → ℕ → Memory → ℕ → ℕ → Search
unfolding find_loop
find_bit_map fuel map_size m base_ptr size =
    find_loop fuel map_size base_ptr size (wrap64 (base_ptr + page_size)) m

-- What the rest of the kernel is given by the machine: where the bitmaps start
-- (`kKernelBitMpStart`) and how many bytes the boot loader gave them.
pub record Machine : Type 0 where
  pub start : ℕ
  pub map_size : ℕ

-- mm_alloc_bitmap. The fuel is two rounds of the loop; one decides a search as long as the bitmaps lie
-- in the address space, and a search that two do not decide is left open, as `out_of_fuel`.
unfoldable pub alloc_bit_map : Machine → Memory → ℕ → Search
unfolding find_bit_map
alloc_bit_map k m size = find_bit_map 2 k.map_size m k.start size

-- mm_free_bitmap.
unfoldable pub mm_free_bit_map : Memory → ℕ → Memory × Bool
unfolding free_bit_map
mm_free_bit_map m p = if p == 0 then (m, false) else free_bit_map m p
