-- ===== src/Memory.antt =====
-- The kernel's memory, as far as its allocators see it: 64-bit words at addresses, which hold the
-- headers of bitmaps and the data of the user, and the heap's information blocks at theirs.
-- Addresses are 64-bit numbers; null is 0.
pub mod BitMap
pub mod PageMgr
pub mod Heap
use zka.Common.{ℕ, ◌+◌, ◌^◌, ◌%◌, Bool, update, if◌then◌else◌, leb, ◌&&◌}

-- HEAP_INFORMATION_BLOCK of dev/ZKAKit/src/Heap.cc, less its padding, whose bytes are words.
pub record InfoBlock : Type 0 where
  pub magic : ℕ
  pub present : Bool
  pub wr : Bool
  pub user : Bool
  pub page : Bool
  pub crc32 : ℕ
  pub flags : ℕ
  pub heap_size : ℕ
  pub heap_ptr : ℕ

pub record Memory : Type 0 where
  pub word : ℕ → ℕ
  pub block : ℕ → InfoBlock

-- `ptr[0] = value` for a `UIntPtr*`.
abbrev pub store : Memory → ℕ → ℕ → Memory
store m p v = record m { word = update m.word p v }

abbrev pub store_block : Memory → ℕ → InfoBlock → Memory
store_block m p b = record m { block = update m.block p b }

-- Zeroes the `n` bytes from `p` on: every word that lies among them.
abbrev pub zero_bytes : Memory → ℕ → ℕ → Memory
zero_bytes m p n = record m { word = λ a. if leb p a && leb (a + 8) (p + n) then 0 else m.word a }

-- Pointers wrap around at 64 bits.
abbrev pub wrap64 : ℕ → ℕ
wrap64 a = a % 2 ^ 64
