-- ===== src/Examples/Services.antt =====
-- Packets, semaphores, addresses, users and strings.
use zka.Common.{ℕ, ◌≡◌, ◌≢◌, ◌↔◌, refl, arith, Bool, true, false, Option, none, some, List, [], ◌∷◌}
use zka.NewKit.String.{KString}
use zka.Memory.BitMap.{alloc_bit_map}
use zka.Memory.Heap.{new_heap}
use zka.Sched.Process.{running, Kernel, Run, ok, fault, halted}
use zka.Services.User.{User, user, ring_std_user}
use zka.Services.Semaphore.{Semaphore, lock_or_wait, is_locked}
use zka.Services.Semaphore.Exclusion.{lock_or_wait_iff}
use zka.Services.Ipc.{IpcMessage, header_magic, int_sanitize_packet, construct_packet}
use zka.Services.Ipc.Sanitize.{Clean, int_sanitize_packet_iff}
use zka.Examples.Team.{new_process, kernel, platform}

-- The kernel while a process at 0x2000 runs.
abbrev busy_kernel : Kernel
busy_kernel = record kernel {
  current = 0x2000;
  processes = λ a. record new_process { status = running };
}

abbrev packet : IpcMessage
packet = record {
  header_magic = header_magic;
  endianess = 1;
  packet_size = 100;
  source = record { process_id = 1; process_team = 0 };
  target = record { process_id = 2; process_team = 0 };
  crc32 = 0;
  message = 0;
  message_size = 2;
  content = 7 ∷ 8 ∷ 9 ∷ [];
}

-- A packet of the process to which the first one goes, and one without the magic number.
abbrev answer : IpcMessage
answer = record packet {
  source = record { process_id = 2; process_team = 0 };
  target = record { process_id = 1; process_team = 0 };
  content = 0 ∷ 0 ∷ 0 ∷ [];
}

abbrev unsigned_packet : IpcMessage
unsigned_packet = record packet { header_magic = 0 }

int_sanitize_packet_iff_example :
    (int_sanitize_packet packet busy_kernel ≡ ok true busy_kernel) ↔ Clean packet
int_sanitize_packet_iff_example = int_sanitize_packet_iff packet busy_kernel

packet-Clean : Clean packet
packet-Clean = record {
  endian = omega arith;
  apart = refl;
  some_bytes = omega arith;
  fits = omega arith;
  magic = refl;
}

unsigned-Clean : ¬ Clean unsigned_packet
unsigned-Clean c = let magic = c.magic in omega arith

-- The packet that is made, and the kernel after it.
abbrev made_packet : Run (Option IpcMessage × Bool) → IpcMessage
made_packet (ok (some m, done) t) = m
made_packet (ok (none, done) t) = packet
made_packet fault = packet
made_packet (halted c) = packet

abbrev after : Run (Option IpcMessage × Bool) → Kernel
after (ok r t) = t
after fault = kernel
after (halted c) = kernel

abbrev making : Run (Option IpcMessage × Bool)
making = construct_packet platform 0 none busy_kernel

made : making ≡ ok (some (made_packet making), true) (after making)
unfolding construct_packet new_heap alloc_bit_map
made = refl

abbrev free_semaphore : Semaphore
free_semaphore = record { locking_process = 0 }

abbrev held_semaphore : Semaphore
held_semaphore = record { locking_process = 0x2000 }

abbrev process : ℕ
process = 0x2000

lock_or_wait_iff_example :
    ((lock_or_wait free_semaphore process (some (λ s. s))).1 ≡ true)
    ↔ ((process ≢ 0) × (is_locked held_semaphore ≡ false))
lock_or_wait_iff_example = lock_or_wait_iff free_semaphore process (λ s. s)

abbrev loopback : List ℕ
loopback = b'1' ∷ b'2' ∷ b'7' ∷ b'.' ∷ b'0' ∷ b'.' ∷ b'0' ∷ b'.' ∷ b'1' ∷ 0 ∷ []

abbrev here : List ℕ
here = 127 ∷ 0 ∷ 0 ∷ 1 ∷ []

abbrev there : List ℕ
there = 127 ∷ 0 ∷ 0 ∷ 2 ∷ []

abbrev ab : List ℕ
ab = b'a' ∷ b'b' ∷ 0 ∷ []

abbrev somebody : User
somebody = user ring_std_user ab

-- A text with a `%`, and a buffer.
abbrev text : List ℕ
text = b'x' ∷ b'%' ∷ b'y' ∷ 0 ∷ []

abbrev buffer : ℕ → ℕ
buffer i = 0

abbrev text_string : KString
text_string = record { chars = b'a' ∷ 0 ∷ 0 ∷ []; data_sz = 3; cur = 1 }
