-- ===== src/Memory/Heap.antt =====
-- The kernel heap, dev/ZKAKit/src/Heap.cc, in a build without `__DEBUG__`, where MUST_PASS evaluates
-- its argument and goes on. A pointer that the heap gives out lies behind an information block, and
-- that block one block's size behind a bitmap.
pub mod New
pub mod Delete
pub mod Flags
pub mod Cycle
use zka.Common.{
  ℕ, zero, suc, ◌+◌, ◌-◌, ◌*◌, ◌/◌, ◌%◌, ◌^◌, Bool, true, false, not, ◌&&◌, Option, none, some,
  List, [], ◌∷◌, ltb, ◌==◌, if◌then◌else◌,
}
use zka.Memory.{Memory, InfoBlock, store_block, zero_bytes, wrap64}
use zka.Memory.BitMap.{Machine, Search, returns, out_of_fuel, is_bit_map, mm_free_bit_map}
use zka.Memory.PageMgr.{PteWrapper, pte_wrapper, request, free}
use zka.NewKit.Crc.{calculate_crc32}

abbrev pub heap_magic : ℕ
heap_magic = 0xD4D7D5

-- `kKernelHeapAlignSz`, GCC's __BIGGEST_ALIGNMENT__ on AMD64, and the size of the packed block.
abbrev pub align_size : ℕ
align_size = 16

abbrev pub block_size : ℕ
block_size = 48

-- Where `fPadding` stands in the block.
abbrev pub padding_offset : ℕ
padding_offset = 32

-- Status codes of dev/ZKAKit/KernelKit/LPC.h.
abbrev pub error_success : ℕ
error_success = 0

abbrev pub error_internal : ℕ
error_internal = 49

abbrev pub error_heap_not_present : ℕ
error_heap_not_present = 52

-- The block that belongs to a pointer: `(UIntPtr)heap_ptr - sizeof(HEAP_INFORMATION_BLOCK)`.
abbrev pub block_of : ℕ → ℕ
block_of p = wrap64 (p + 2 ^ 64 - block_size)

-- mm_check_heap_address: `sizeof` is unsigned, so the difference is, and it is never below 0.
unfoldable pub check_heap_address : ℕ → Bool
check_heap_address p = if p == 0 then false else not (ltb (block_of p) 0)

-- What a call does: it ends with a result, or ke_stop halts the kernel with a code.
pub data Outcome (A : Type 0) : Type 0 where
  done : A → Memory → Outcome A
  stopped : ℕ → Outcome A

abbrev pub runtime_check_pointer : ℕ
runtime_check_pointer = 0

abbrev pub runtime_check_process : ℕ
runtime_check_process = 8

-- mm_realloc_heap.
unfoldable pub realloc_heap : Memory → ℕ → ℕ → Outcome ℕ
unfolding check_heap_address
realloc_heap m p size =
    if check_heap_address p
    then if ltb size 1 then done 0 m else stopped runtime_check_process
    else done 0 m

-- The block that mm_new_heap writes over the old one; `fFlags` is not written.
abbrev pub fresh_block : InfoBlock → ℕ → ℕ → Bool → Bool → InfoBlock
fresh_block old at size wr user = record old {
  heap_size = size;
  magic = heap_magic;
  crc32 = 0;
  heap_ptr = wrap64 (at + block_size);
  page = false;
  wr = wr;
  user = user;
  present = true;
}

-- mm_new_heap; `none` if the search for a bitmap is left open. The padding is cleared by
-- rt_set_memory, which writes `kKernelHeapAlignSz` words of four bytes each.
unfoldable pub new_heap : Machine → Memory → ℕ → Bool → Bool → Option (ℕ × Memory)
unfolding request
new_heap k m size wr user =
    let size_fix = wrap64 (size + block_size) in
    if size == 0 then some (0, m) else elim (request k m wr user false size_fix) [
      | none ↦ none
      | some (wrapper, m') ↦
          let at = wrap64 (wrapper.virt_addr + block_size) in
          let block = fresh_block (m'.block at) at size_fix wr user in
          some (
            block.heap_ptr,
            zero_bytes (store_block m' at block) (at + padding_offset) (4 * align_size),
          )
    ]

-- mm_make_page.
unfoldable pub make_page : Memory → ℕ → Memory × ℕ
unfolding check_heap_address
make_page m p =
    if check_heap_address p
    then (store_block m (block_of p) (record (m.block (block_of p)) { page = true }), error_success)
    else (m, error_heap_not_present)

-- mm_make_flags.
unfoldable pub make_flags : Memory → ℕ → ℕ → Memory × ℕ
unfolding check_heap_address
make_flags m p flags =
    if check_heap_address p
    then (
      store_block m (block_of p) (record (m.block (block_of p)) { flags = flags }),
      error_success,
    )
    else (m, error_heap_not_present)

-- mm_get_flags.
unfoldable pub get_flags : Memory → ℕ → ℕ
get_flags m p = if p == 0 then error_heap_not_present else (m.block (block_of p)).flags

-- The byte at an address, from the word that holds it; words lie at multiples of 8.
abbrev pub byte_at : Memory → ℕ → ℕ
byte_at m a = m.word (a - a % 8) / 256 ^ (a % 8) % 256

abbrev pub bytes : ℕ → Memory → ℕ → List ℕ
bytes zero m a = []
bytes (suc n) m a = byte_at m a ∷ bytes n m (a + 1)

-- The checksum that a block should have: the length is an `UInt`, of 32 bits.
unfoldable pub block_crc : (ℕ → ℕ) → Memory → InfoBlock → ℕ
block_crc outside m b = calculate_crc32 outside (bytes (b.heap_size % 2 ^ 32) m b.heap_ptr)

-- The block as mm_delete_heap leaves it; `fPage` and `fFlags` stay.
abbrev pub cleared_block : InfoBlock → InfoBlock
cleared_block b = record b {
  heap_size = 0;
  present = false;
  heap_ptr = 0;
  crc32 = 0;
  wr = false;
  user = false;
  magic = 0;
}

-- Whether mm_delete_heap halts: the checksum is set and wrong, and the block is the kernel's.
abbrev pub is_corrupted : (ℕ → ℕ) → Memory → InfoBlock → Bool
is_corrupted outside m b =
    not (b.crc32 == 0) && not (b.crc32 == block_crc outside m b) && not b.user

-- mm_delete_heap.
unfoldable pub delete_heap : (ℕ → ℕ) → Memory → ℕ → Outcome ℕ
unfolding check_heap_address block_crc pte_wrapper free
delete_heap outside m p =
    let at = block_of p in
    let b = m.block at in
    let wrapper = pte_wrapper false false false (wrap64 (at + 2 ^ 64 - block_size)) in
    let freed = (free (store_block m at (cleared_block b)) wrapper).0 in
    if check_heap_address p
    then if not (at == 0) && b.magic == heap_magic
      then if b.present
        then if is_corrupted outside m b
          then stopped runtime_check_pointer
          else done error_success freed
        else done error_heap_not_present m
      else done error_internal m
    else done error_heap_not_present m

-- mm_is_valid_heap: the pointer itself must look like a bitmap.
unfoldable pub is_valid_heap : Memory → ℕ → Bool
unfolding is_bit_map
is_valid_heap m p =
    let b = m.block (block_of p) in
    not (p == 0) && is_bit_map m p && not (block_of p == 0) && b.present && b.magic == heap_magic

-- mm_protect_heap.
unfoldable pub protect_heap : (ℕ → ℕ) → Memory → ℕ → Memory × Bool
unfolding block_crc
protect_heap outside m p =
    let b = m.block (block_of p) in
    if not (p == 0) && not (block_of p == 0) && b.present && b.magic == heap_magic
    then (store_block m (block_of p) (record b { crc32 = block_crc outside m b }), true)
    else (m, false)
