-- ===== src/Storage/Ata.antt =====
-- The driver of ATA drives by programmed input and output, dev/ZKAKit/HALKit/AMD64/Storage/ATA-PIO.cc, with the
-- numbers of dev/Modules/ATA/ATA.h. The ports are a parameter: rt_in8 and its like are assembly.
pub mod Transfer
use zka.Common.{
  ℕ, zero, suc, ◌+◌, ◌-◌, ◌/◌, ◌%◌, ◌^◌, Bool, true, false, Option, none, some, List, [], ◌∷◌, ◌*◌,
  if◌then◌else◌, ltb, ◌==◌, or_bits, any_bits,
}
use zka.NewKit.Utils.{at}

-- rt_in8, rt_in16, rt_out8 and rt_out16; reading a port may change the machine.
pub record Ports : Type 1 where
  pub State : Type 0
  pub in8 : State → ℕ → ℕ × State
  pub in16 : State → ℕ → ℕ × State
  pub out8 : State → ℕ → ℕ → State
  pub out16 : State → ℕ → ℕ → State

infixl 5 ◌then◌
unfoldable pub ◌then◌ {ℓ κ} : {A : Type ℓ} {B : Type κ} → Option A → (A → Option B) → Option B
none then k = none
some a then k = k a

-- A register of the bus: a port has 16 bits.
abbrev pub port : ℕ → ℕ → ℕ
port io register = (io + register) % 2 ^ 16

abbrev pub data_register : ℕ
data_register = 0

abbrev pub status_register : ℕ
status_register = 7

abbrev pub command_register : ℕ
command_register = 7

abbrev pub primary_io : ℕ
primary_io = 496

abbrev pub secondary_io : ℕ
secondary_io = 368

abbrev pub read_pio : ℕ
read_pio = 32

abbrev pub write_pio : ℕ
write_pio = 48

abbrev pub identify : ℕ
identify = 236

-- A `Char` put into 16 bits: it is signed.
abbrev pub widen : ℕ → ℕ
widen b = if ltb b 128 then b else b + 65280

-- A `Char` in a computation of 64 bits.
abbrev pub widen64 : ℕ → ℕ
widen64 b = if ltb b 128 then b else b + (2 ^ 64 - 256)

-- `(Size + SectorSz) / SectorSz`, in the register's 8 bits.
abbrev pub asked_sectors : ℕ → ℕ → ℕ
asked_sectors size sector = (size + sector) % 2 ^ 64 / sector % 256

-- `(Command) | (((Lba) >> 24) & 0x0F)`.
abbrev pub device_select : ℕ → ℕ → ℕ
device_select master lba = or_bits 8 (if master == 0 then 224 else 240) (lba / 2 ^ 24 % 16)

-- What the driver keeps of a drive that it has found.
pub record Identity : Type 0 where
  pub ata_data : List ℕ
  pub out_bus : ℕ
  pub out_master : ℕ

module _ (p : Ports) where
  -- The reads of the status that the drive is given time with.
  unfoldable pub read_status : ℕ → p.State → ℕ → p.State
  read_status zero s io = s
  read_status (suc n) s io = read_status n (p.in8 s (port io status_register)).1 io

  -- `ATAWaitForIO_Retry`: until the drive is not busy.
  unfoldable pub wait_busy : ℕ → p.State → ℕ → Option p.State
  wait_busy zero s io = none
  wait_busy (suc fuel) s io =
      let r = p.in8 s (port io status_register) in
      let rest = wait_busy fuel r.1 io in if any_bits 8 r.0 128 then rest else some r.1

  -- `ATAWaitForIO_Retry2`: until it has an error or is ready.
  unfoldable pub wait_ready : ℕ → p.State → ℕ → Option (Bool × p.State)
  wait_ready zero s io = none
  wait_ready (suc fuel) s io =
      let r = p.in8 s (port io status_register) in
      let rest = wait_ready fuel r.1 io in
      if any_bits 8 r.0 1
      then some (false, r.1)
      else if any_bits 8 r.0 64
      then some (true, r.1)
      else rest

  -- drv_std_wait_io; `fuel` bounds the rounds of both loops.
  unfoldable pub wait_io : ℕ → p.State → ℕ → Option (Bool × p.State)
  wait_io fuel s io = wait_busy fuel (read_status 400 s io) io then λ t. wait_ready fuel t io

  -- drv_std_select.
  unfoldable pub select : p.State → ℕ → p.State
  select s bus = p.out8 s (port bus 6) (if bus == primary_io then 160 else 176)

  -- The registers of a transfer, the command apart.
  unfoldable pub send_address : p.State → ℕ → ℕ → ℕ → ℕ → ℕ → p.State
  send_address s io master lba sector size =
      let s1 = p.out8 s (port io 6) (device_select master lba) in
      let s2 = p.out8 s1 (port io 2) (asked_sectors size sector) in
      let s3 = p.out8 s2 (port io 3) (lba % 256) in
      let s4 = p.out8 s3 (port io 4) (lba / 2 ^ 8 % 256) in
      let s5 = p.out8 s4 (port io 5) (lba / 2 ^ 16 % 256) in
      p.out8 s5 (port io 9) (lba / 2 ^ 24 % 256)

  -- What drv_std_read and drv_std_write begin with, up to the wait behind their command.
  unfoldable pub begin_transfer : ℕ → p.State → ℕ → ℕ → ℕ → ℕ → ℕ → ℕ → Option (Bool × p.State)
  begin_transfer fuel s command lba io master sector size = wait_io fuel s io then λ r.
      wait_io fuel
        (p.out8 (send_address (select r.1 io) io master (lba / sector) sector size)
          (port io command_register) command)
        io

  -- One word is read for each byte of the buffer, which keeps the word's low byte.
  unfoldable pub receive_loop : ℕ → ℕ → p.State → ℕ → Option (List ℕ × p.State)
  receive_loop fuel zero s io = some ([], s)
  receive_loop fuel (suc n) s io = wait_io fuel s io then λ a.
      let w = p.in16 a.1 (port io data_register) in
      (wait_io fuel w.1 io then λ b. receive_loop fuel n b.1 io) then λ r.
      some (w.0 % 256 ∷ r.0, r.1)

  -- And one word is written for each byte.
  unfoldable pub send_loop : ℕ → List ℕ → p.State → ℕ → Option p.State
  send_loop fuel [] s io = some s
  send_loop fuel (b ∷ content) s io = wait_io fuel s io then λ a.
      wait_io fuel (p.out16 a.1 (port io data_register) (widen b)) io then λ c.
      send_loop fuel content c.1 io

  -- drv_std_read and drv_std_write.
  unfoldable pub std_read : ℕ → p.State → ℕ → ℕ → ℕ → ℕ → ℕ → Option (List ℕ × p.State)
  std_read fuel s lba io master sector size =
      begin_transfer fuel s read_pio lba io master sector size then λ a.
      receive_loop fuel size a.1 io then λ r. wait_io fuel r.1 io then λ b. some (r.0, b.1)

  unfoldable pub std_write : ℕ → p.State → ℕ → ℕ → ℕ → List ℕ → ℕ → ℕ → Option p.State
  std_write fuel s lba io master content sector size =
      begin_transfer fuel s write_pio lba io master sector size then λ a.
      send_loop fuel content a.1 io then λ t. wait_io fuel t io then λ b. some b.1

  -- The loop that fills `kATAData`.
  unfoldable pub identify_loop : ℕ → p.State → ℕ → List ℕ × p.State
  identify_loop zero s io = ([], s)
  identify_loop (suc n) s io =
      let w = p.in16 s (port io data_register) in
      let rest = identify_loop n w.1 io in (w.0 % 256 ∷ rest.0, rest.1)

  -- `ATAInit_Retry`; no identity is the answer false.
  unfoldable pub init_loop : ℕ → ℕ → p.State → ℕ → Option (Option Identity × p.State)
  init_loop zero fuel s bus = none
  init_loop (suc tries) fuel s bus =
      let r = p.in8 (p.out8 s (port bus 1) 1) (port bus status_register) in
      let again = init_loop tries fuel r.1 bus in
      if any_bits 8 r.0 1
      then some (none, r.1)
      else if any_bits 8 r.0 128
      then again
      else (wait_io fuel (p.out8 r.1 (port bus command_register) identify) bus then λ a.
          let d = identify_loop 256 a.1 bus in
          some (
            some (record {
              ata_data = d.0;
              out_bus = if bus == primary_io then primary_io else secondary_io;
              out_master = if bus == primary_io then 0 else 1;
            }),
            d.1,
          ))

  -- drv_std_init.
  unfoldable pub std_init : ℕ → ℕ → p.State → ℕ → Option (Option Identity × p.State)
  std_init tries fuel s bus = init_loop tries fuel (select s bus) bus

-- drv_get_sector_count and drv_get_size, of `kATAData`; its entries are one byte each.
unfoldable pub get_sector_count : List ℕ → ℕ
get_sector_count data_words =
    or_bits 64 (widen64 (at data_words 61) * 2 ^ 16 % 2 ^ 64) (widen64 (at data_words 60))

unfoldable pub get_size : List ℕ → ℕ
unfolding get_sector_count
get_size data_words = get_sector_count data_words * 512 % 2 ^ 64
