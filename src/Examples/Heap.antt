-- ===== src/Examples/Heap.antt =====
-- The heap and the bitmaps on a machine with 64 KiB of bitmaps from 0x1000 on, whose memory is empty.
use zka.Common.{
  ◌<◌, ℕ, ◌+◌, ◌≡◌, ◌≢◌, ◌↔◌, refl, arith, true, ◌==◌, ◌&&◌, leb, if◌then◌else◌, false, none, some,
  Option,
}
use zka.Memory.{Memory, InfoBlock, store}
use zka.Memory.BitMap.{
  Machine, returns, make, alloc_bit_map, find_bit_map, bit_map_magic, page_size,
}
use zka.Memory.BitMap.Find.{Fits, outcome, find_bit_map-outcome, alloc_bit_map_twice}
use zka.Memory.PageMgr.{PteWrapper, request_page, pte_wrapper}
use zka.Memory.Heap.{
  heap_magic, error_internal, error_success, block_crc, new_heap, delete_heap, protect_heap, done,
  stopped, byte_at,
}
use zka.Memory.Heap.New.{Describes, new_memory, new_heap-Describes}
use zka.Memory.Heap.Delete.{
  delete_heap_twice, protect_heap-delete_heap, delete_heap-stopped, freed_memory,
}
use zka.Memory.Heap.Cycle.{delete_heap-new_heap}

abbrev pub no_block : InfoBlock
no_block = record {
  magic = 0;
  present = false;
  wr = false;
  user = false;
  page = false;
  crc32 = 0;
  flags = 0;
  heap_size = 0;
  heap_ptr = 0;
}

abbrev pub zeros : Memory
zeros = record { word = λ a. 0; block = λ a. no_block }

abbrev pub machine : Machine
machine = record { start = 0x1000; map_size = 0x10000 }

abbrev pub nothing_outside : ℕ → ℕ
nothing_outside k = 0

zeros-Fits : Fits machine zeros
zeros-Fits = record { room = omega arith; page = omega arith; last = omega arith }

-- The memory after a request for 112 bytes, and for 64 bytes of the heap, which take that much.
abbrev one_map : Memory
one_map = make zeros 0x1000 112

abbrev pub one_block : Memory
one_block = new_memory one_map 0x1000 112 true false

one_map_found : alloc_bit_map machine zeros 112 ≡ returns 0x1000 one_map
unfolding alloc_bit_map
one_map_found = refl

one_block_given : new_heap machine zeros 64 true false ≡ some (0x1060, one_block)
unfolding new_heap alloc_bit_map
one_block_given = refl

find_bit_map-outcome_example : find_bit_map 1 0x10000 zeros 0x1000 64 ≡ outcome machine zeros 64
find_bit_map-outcome_example = find_bit_map-outcome machine zeros 64 zeros-Fits (omega arith) 0

alloc_bit_map_twice_example :
    (m₁ m₂ : Memory) × (alloc_bit_map machine zeros 64 ≡ returns 0x1000 m₁)
    × (m₁.word 0x1010 ≡ 1)
    × (alloc_bit_map machine m₁ 32 ≡ returns 0x1000 m₂)
    × (m₂.word 0x1008 ≡ 32)
alloc_bit_map_twice_example =
    alloc_bit_map_twice machine zeros 64 32 zeros-Fits (omega arith) (omega arith) (omega arith)

new_heap-Describes_example :
    (m : Memory) × (new_heap machine zeros 64 true false ≡ some (0x1060, m))
    × Describes (m.block 0x1030) 0x1060 64 true false
    × ((a : ℕ) → m.word a ≡ (if leb 0x1050 a && leb (a + 8) 0x1090 then 0 else one_map.word a))
    × ((a : ℕ) → m.block a ≡ (if a == 0x1030 then m.block a else one_map.block a))
new_heap-Describes_example =
    new_heap-Describes machine zeros 64 true false {base = 0x1000} {m' = one_map} (omega arith)
      (omega arith) (omega arith) one_map_found

delete_heap-new_heap_example :
    (m : Memory) × (delete_heap nothing_outside one_block 0x1060 ≡ done 0 m)
    × (m.word 0x1010 ≡ 0)
    × (m.word 0x1000 ≡ bit_map_magic)
    × (m.word 0x1008 ≡ 112)
delete_heap-new_heap_example =
    delete_heap-new_heap nothing_outside machine zeros 64 true false {base = 0x1000} {m' = one_map}
      (omega arith) (omega arith) (omega arith) (omega arith) one_map_found refl 0x1060 one_block
      one_block_given

-- The memory after the block has been freed.
abbrev pub freed : Memory
freed = freed_memory one_block 0x1030

pub freed_once : delete_heap nothing_outside one_block 0x1060 ≡ done error_success freed
unfolding delete_heap
freed_once = refl

delete_heap_twice_example : delete_heap nothing_outside freed 0x1060 ≡ done error_internal freed
delete_heap_twice_example =
    delete_heap_twice nothing_outside one_block 0x1060 (omega arith, omega arith) freed freed_once

-- The memory after the block has been given its checksum, with a change to a byte of the block since.
abbrev armed : Memory
armed = (protect_heap nothing_outside one_block 0x1060).0

abbrev changed : Memory
changed = store armed 0x10a0 1

delete_heap-stopped_example :
    let b = changed.block 0x1030 in
    (delete_heap nothing_outside changed 0x1060 ≡ stopped 0) ↔ (
      (b.magic ≡ heap_magic)
      × (b.present ≡ true)
      × (b.user ≡ false)
      × (b.crc32 ≢ 0)
      × (b.crc32 ≢ block_crc nothing_outside changed b))
delete_heap-stopped_example =
    delete_heap-stopped nothing_outside changed 0x1060 (omega arith, omega arith)

armed_ok : protect_heap nothing_outside one_block 0x1060 ≡ (armed, true)
unfolding protect_heap
armed_ok = refl

-- The memory after the block has been given its checksum, with a change behind the block's bytes.
abbrev elsewhere : Memory
elsewhere = store armed 0x2000 1

armed_bytes : (i : ℕ) → i < 112 → byte_at elsewhere (0x1060 + i) ≡ byte_at armed (0x1060 + i)
armed_bytes i l = ground arith

protect_heap-delete_heap_example :
    delete_heap nothing_outside elsewhere 0x1060
    ≡ done error_success (freed_memory elsewhere 0x1030)
unfolding protect_heap
protect_heap-delete_heap_example =
    protect_heap-delete_heap nothing_outside one_block 0x1060 (omega arith, omega arith) armed
      elsewhere armed_ok refl armed_bytes

abbrev no_page : Option PteWrapper
no_page = none

request_page-some : request_page machine zeros true true ≡ some (none, make zeros 0x1000 page_size)
unfolding request_page alloc_bit_map
request_page-some = refl

abbrev entry : PteWrapper
entry = pte_wrapper false false true 0x2000
