-- ===== src/NewKit/Utils/Copy.antt =====
-- What rt_copy_memory and rt_move_memory of dev/ZKAKit/src/Utils.cc do to their buffers.
use zka.Common.{
  ℕ, zero, suc, ◌+◌, ◌<◌, ◌≡◌, refl, ◌∙◌, List, some, arith, ltb, leb, ◌&&◌, if◌then◌else◌, set,
  length, length-set, get_or-set_self, get_or-set_ne,
}
use zka.NewKit.Utils.{at, copy_loop, copy_memory, Moved, move_loop, move_memory}

pub length-copy_loop : (n i : ℕ) (src dst : List ℕ) → length (copy_loop n i src dst) ≡ length dst
unfolding copy_loop
length-copy_loop zero i src dst = refl
length-copy_loop (suc n) i src dst =
    length-copy_loop n (i + 1) src (set dst i (at src i)) ∙ length-set dst i (at src i)

pub at-copy_loop :
    (n i : ℕ) (src dst : List ℕ) (j : ℕ)
    → j < length dst
    → at (copy_loop n i src dst) j ≡ (if leb i j && ltb j (i + n) then at src j else at dst j)
unfolding copy_loop
at-copy_loop zero i src dst j h = ground arith
at-copy_loop (suc n) i src dst j h = ground (
  arith,
  length-set dst i (at src i),
  at-copy_loop n (i + 1) src (set dst i (at src i)) j,
  get_or-set_self dst i (at src i) 0,
  get_or-set_ne dst i j (at src i) 0,
)

-- A copy keeps the destination's length, takes the first `len` bytes from the source, leaves every
-- later byte of the destination, and returns `len`.
pub copy_memory-at :
    (src dst : List ℕ) (len j : ℕ)
    → j < length dst
    → (at (copy_memory src dst len).0 j ≡ (if ltb j len then at src j else at dst j))
      × (length (copy_memory src dst len).0 ≡ length dst)
      × ((copy_memory src dst len).1 ≡ len)
unfolding copy_memory
copy_memory-at src dst len j h =
    (at-copy_loop len 0 src dst j h ∙ ground arith, length-copy_loop len 0 src dst, refl)

at-move_loop :
    (n i : ℕ) (m : Moved) (j : ℕ)
    → j < length m.src
    → j < length m.dst
    → (at (move_loop n i m).dst j ≡ (if leb i j && ltb j (i + n) then at m.src j else at m.dst j))
      × (at (move_loop n i m).src j ≡ (if leb i j && ltb j (i + n) then 0 else at m.src j))
unfolding move_loop
at-move_loop zero i m j hs hd = ground arith
at-move_loop (suc n) i m j hs hd = ground (
  arith,
  length-set m.src i 0,
  length-set m.dst i (at m.src i),
  at-move_loop n (i + 1) (record { src = set m.src i 0; dst = set m.dst i (at m.src i) }) j,
  get_or-set_self m.dst i (at m.src i) 0,
  get_or-set_ne m.dst i j (at m.src i) 0,
  get_or-set_self m.src i 0 0,
  get_or-set_ne m.src i j 0 0,
)

-- A move of at least one byte between two buffers that do not overlap succeeds: below `len` the
-- destination has the source's bytes and the source is cleared; from `len` on both are as before.
move_memory-at :
    (src dst : List ℕ) (len j : ℕ)
    → 0 < len
    → j < length src
    → j < length dst
    → (m : Moved) × (move_memory (some src) (some dst) len ≡ (some m, 0))
      × (at m.dst j ≡ (if ltb j len then at src j else at dst j))
      × (at m.src j ≡ (if ltb j len then 0 else at src j))
unfolding move_memory
move_memory-at src dst len j pos hs hd =
    let start : Moved = record { src = src; dst = dst } in
    (
      move_loop len 0 start,
      ground arith,
      (at-move_loop len 0 start j hs hd).0 ∙ ground arith,
      (at-move_loop len 0 start j hs hd).1 ∙ ground arith,
    )
