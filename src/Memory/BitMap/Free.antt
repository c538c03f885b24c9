-- ===== src/Memory/BitMap/Free.antt =====
-- What freeing a bitmap does (IBitMapAllocator::FreeBitMap and mm_free_bitmap).
use zka.Common.{ℕ, ◌+◌, ◌≡◌, arith, if◌then◌else◌, ◌==◌}
use zka.Memory.{Memory}
use zka.Memory.BitMap.{is_bit_map, mm_free_bit_map}

-- Only a bitmap can be freed; freeing one keeps its magic number and size, marks it as unused and
-- changes no other word, and anything else is left alone.
pub mm_free_bit_map-cases :
    (m : Memory) (p : ℕ)
    → let (m', done) = mm_free_bit_map m p in
      (done ≡ is_bit_map m p)
      × (m'.block ≡ m.block)
      × ((a : ℕ)
          → m'.word a
            ≡ (if is_bit_map m p then (if a == p + 16 then 0 else m.word a) else m.word a))
unfolding mm_free_bit_map
mm_free_bit_map-cases m p = (ground arith, ground arith, λ a. ground arith)
