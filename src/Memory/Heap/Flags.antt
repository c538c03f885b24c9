-- ===== src/Memory/Heap/Flags.antt =====
-- mm_make_flags, mm_get_flags and mm_make_page.
use zka.Common.{ℕ, ◌≡◌, ◌≢◌, arith, true, not, ◌&&◌, ◌==◌, if◌then◌else◌}
use zka.Memory.{Memory}
use zka.Memory.Heap.{
  block_of, error_success, error_heap_not_present, make_flags, get_flags, make_page,
}

-- Flags that were set on a pointer that is not null are read back from it; on any other pointer
-- that is not null and has another block, and in every other field, setting them changes nothing.
pub get_flags-make_flags :
    (m : Memory) (p q flags : ℕ)
    → p ≢ 0
    → q ≢ 0
    → let (m', status) = make_flags m p flags in
      (status ≡ error_success)
      × (get_flags m' q ≡ (if block_of q == block_of p then flags else get_flags m q))
      × ((a : ℕ) → record (m'.block a) { flags = (m.block a).flags } ≡ m.block a)
unfolding make_flags get_flags
get_flags-make_flags m p q flags hp hq = (ground arith, ground arith, λ a. ground arith)

-- The page bit is set on the block of a pointer that is not null, and on no other; no word changes.
-- Null is refused, and no block changes.
make_page_lem :
    (m : Memory) (p : ℕ)
    → let (m', status) = make_page m p in
      (status ≡ (if p == 0 then error_heap_not_present else error_success))
      × (m'.word ≡ m.word)
      × ((a : ℕ)
          → m'.block a ≡ (
              if not (p == 0) && a == block_of p
              then record (m.block a) { page = true }
              else m.block a))
unfolding make_page
make_page_lem m p = (ground arith, ground arith, λ a. ground arith)
