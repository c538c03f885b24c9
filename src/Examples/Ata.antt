-- ===== src/Examples/Ata.antt =====
-- The drivers of ATA and the drive manager: a drive that is always ready and keeps the words of its last write, and a transfer of two bytes.
use zka.Common.{
  ℕ, ◌-◌, ◌^◌, ◌≡◌, refl, true, ◌&&◌, some, List, [], ◌∷◌, ◌++◌, if◌then◌else◌, ◌==◌, replicate,
  any_bits, and_bits, or_bits, arith,
}
use zka.Storage.Ata.{
  Ports, ◌then◌, read_pio, write_pio, primary_io, read_status, wait_busy, wait_ready, wait_io,
  select, send_address, begin_transfer, send_loop, std_read, std_write, identify_loop, init_loop,
  std_init, get_sector_count, get_size,
}
use zka.Storage.Ata.Transfer.{IsReady, Gives, words, std_read-std_write}
use zka.NewKit.Utils.{at}
use zka.Storage.DriveMgr.{Globals, construct_main_drive, epm_magic}
use zka.Storage.DriveMgr.Detect.{Detected, construct_main_drive-Detected}
use zka.Examples.Nefs.{tabulate, IsBytes-tabulate}

-- The words that are ready, and the words that were received.
abbrev pub Words : Type 0
Words = List ℕ × List ℕ

abbrev first_word : List ℕ → ℕ
first_word [] = 0
first_word (w ∷ ws) = w

abbrev other_words : List ℕ → List ℕ
other_words [] = []
other_words (w ∷ ws) = ws

-- The command's register, behind which the words change.
abbrev at_command : ℕ → ℕ → Words → Words
at_command r v s =
    if r == 503 && v == write_pio
    then (s.0, [])
    else if r == 503 && v == read_pio
    then (s.1, s.1)
    else s

abbrev drive : Ports
drive = record {
  State = Words;
  in8 = λ s r. (64, s);
  in16 = λ s r. (first_word s.0, (other_words s.0, s.1));
  out8 = λ s r v. at_command r v s;
  out16 = λ s r w. (s.0, s.1 ++ (w ∷ []));
}

abbrev given : Words → List ℕ
given s = s.0

abbrev received : Words → List ℕ
received s = s.1

drive-IsReady : IsReady drive primary_io given received
unfolding any_bits and_bits
drive-IsReady = record {
  not_busy = λ s. refl;
  no_error = λ s. refl;
  ready = λ s. refl;
  given-in8 = λ s. refl;
  received-in8 = λ s. refl;
  in16-given = λ s w ws e. rw e (refl, refl);
  received-out16 = λ s w. refl;
  received-out8_write = λ s. refl;
}

abbrev content : List ℕ
content = 65 ∷ 200 ∷ []

abbrev written : Words
written = ([], 65 ∷ 65480 ∷ [])

abbrev taken : Words
taken = (65 ∷ 65480 ∷ [], 65 ∷ 65480 ∷ [])

write_done : std_write drive 1 ([], 7 ∷ []) 1024 primary_io 0 content 512 2 ≡ some written
unfolding std_write begin_transfer wait_io wait_busy wait_ready read_status select send_address
    send_loop ◌then◌ any_bits and_bits or_bits
write_done = refl

read_begun : begin_transfer drive 1 written read_pio 1024 primary_io 0 512 2 ≡ some (true, taken)
unfolding begin_transfer wait_io wait_busy wait_ready read_status select send_address ◌then◌
    any_bits and_bits or_bits
read_begun = refl

std_read-std_write_example :
    Gives (λ r. r.0 ≡ content) (std_read drive 1 written 1024 primary_io 0 512 2)
std_read-std_write_example =
    std_read-std_write drive primary_io given received drive-IsReady 0 ([], 7 ∷ []) written written
      (true, taken) 1024 0 512 2 content (omega arith, (omega arith, tt)) write_done read_begun refl

-- The words 60 and 61 of a drive of 128 sectors are read as one byte each, with a sign.
sectors_of_128 : get_sector_count (replicate 60 0 ++ (128 ∷ 0 ∷ [])) ≡ 2 ^ 64 - 128
unfolding get_sector_count or_bits
sectors_of_128 = refl

size_of_5 : get_size (replicate 60 0 ++ (5 ∷ 0 ∷ [])) ≡ 2560
unfolding get_size get_sector_count or_bits
size_of_5 = refl

found :
    std_init drive 1 1 ([], []) primary_io
    ≡ some (
      some (record { ata_data = replicate 256 0; out_bus = primary_io; out_master = 0 }),
      ([], []),
    )
unfolding std_init init_loop identify_loop wait_io wait_busy wait_ready read_status select ◌then◌
    any_bits and_bits
found = refl

-- A drive whose first sector begins with the magic.
abbrev boot : List ℕ
boot = tabulate 512 (at epm_magic)

abbrev boot_command : ℕ → ℕ → Words → Words
boot_command r v s =
    if r == 503 && v == write_pio
    then (s.0, [])
    else if r == 503 && v == read_pio
    then (words boot, s.1)
    else s

abbrev boot_drive : Ports
boot_drive = record {
  State = Words;
  in8 = λ s r. (64, s);
  in16 = λ s r. (first_word s.0, (other_words s.0, s.1));
  out8 = λ s r v. boot_command r v s;
  out16 = λ s r w. (s.0, s.1 ++ (w ∷ []));
}

boot_drive-IsReady : IsReady boot_drive primary_io given received
unfolding any_bits and_bits
boot_drive-IsReady = record {
  not_busy = λ s. refl;
  no_error = λ s. refl;
  ready = λ s. refl;
  given-in8 = λ s. refl;
  received-in8 = λ s. refl;
  in16-given = λ s w ws e. rw e (refl, refl);
  received-out16 = λ s w. refl;
  received-out8_write = λ s. refl;
}

abbrev off : Globals boot_drive
off = record { ata_io = 0; ata_master = 0; machine = ([], []) }

construct_main_drive-Detected_example :
    Gives (λ r. Detected boot r.0) (construct_main_drive boot_drive 1 1 (replicate 32 0) 0 off)
construct_main_drive-Detected_example =
    construct_main_drive-Detected boot_drive given received boot_drive-IsReady 0 0 0
      (replicate 32 0) boot off (IsBytes-tabulate 512 (at epm_magic)) (λ s. refl)
