-- ===== src/Hal/Pci.antt =====
-- PCI on AMD64: dev/ZKAKit/HALKit/AMD64/PCI/Device.cc and dev/ZKAKit/HALKit/AMD64/PCI/Iterator.cc, with
-- dev/ZKAKit/KernelKit/PCI/Device.h and dev/ZKAKit/KernelKit/PCI/Iterator.h. The ports are a parameter: rt_in8 and its
-- like are assembly.
pub mod Target
pub mod Probe
pub mod Iterator
use zka.Common.{
  ℕ, zero, suc, ◌+◌, ◌*◌, ◌/◌, ◌%◌, ◌^◌, Bool, not, Option, none, some, if◌then◌else◌, ◌==◌,
  or_bits, update,
}

pub record Ports : Type 1 where
  pub State : Type 0
  pub in8 : State → ℕ → ℕ × State
  pub in16 : State → ℕ → ℕ × State
  pub in32 : State → ℕ → ℕ × State
  pub out8 : State → ℕ → ℕ → State
  pub out16 : State → ℕ → ℕ → State
  pub out32 : State → ℕ → ℕ → State

-- PciConfigKind.
abbrev pub config_address : ℕ
config_address = 0xCF8

abbrev pub config_data : ℕ
config_data = 0xCFC

abbrev pub config_invalid : ℕ
config_invalid = 0xFFF

-- PCI::Device.
pub record Device : Type 0 where
  pub bus : ℕ
  pub device : ℕ
  pub function : ℕ
  pub bar : ℕ

-- The place of a function on its bus, with the bits of the register, in 32 bits.
unfoldable pub target_of : ℕ → (bus dev fun : ℕ) → ℕ
target_of register bus dev fun =
    or_bits 32
      (or_bits 32 (or_bits 32 (or_bits 32 (2 ^ 31) (bus * 2 ^ 16 % 2 ^ 32)) (dev * 2 ^ 11 % 2 ^ 32))
        (fun * 2 ^ 8 % 2 ^ 32))
      register

-- `bar & 0xFC`, and `bar & ~3`.
abbrev pub low_register : ℕ → ℕ
low_register bar = bar % 256 / 4 * 4

abbrev pub register : ℕ → ℕ
register bar = bar / 4 * 4

module _ (p : Ports) where
  -- ZKA_PCIReadRaw.
  unfoldable pub read_raw : ℕ → (bus dev fun : ℕ) → p.State → ℕ × p.State
  unfolding target_of
  read_raw bar bus dev fun s =
      p.in32 (p.out32 s config_address (target_of (low_register bar) bus dev fun)) config_data

  -- ZKA_PCISetCfgTarget.
  unfoldable pub set_cfg_target : ℕ → (bus dev fun : ℕ) → p.State → p.State
  unfolding target_of
  set_cfg_target bar bus dev fun s = p.out32 s config_address (target_of (register bar) bus dev fun)

  -- Device::Read.
  unfoldable pub read : Device → ℕ → ℕ → p.State → ℕ × p.State
  unfolding set_cfg_target
  read d bar sz s =
      let t = set_cfg_target bar d.bus d.device d.function s in
      if sz == 4
      then p.in32 t (config_data + bar % 4)
      else if sz == 2
      then p.in16 t (config_data + bar % 4)
      else if sz == 1
      then p.in8 t (config_data + bar % 4)
      else (0xFFFF, t)

  -- Device::Write: the port is the one of the device's own bar.
  unfoldable pub write : Device → (bar data_in sz : ℕ) → p.State → p.State
  unfolding set_cfg_target
  write d bar data_in sz s =
      let t = set_cfg_target bar d.bus d.device d.function s in
      if sz == 4
      then p.out32 t (config_data + d.bar % 4) (data_in % 2 ^ 32)
      else if sz == 2
      then p.out16 t (config_data + d.bar % 4) (data_in % 2 ^ 16)
      else if sz == 1
      then p.out8 t (config_data + d.bar % 4) (data_in % 2 ^ 8)
      else t

  -- What is read of a register of 32 bits: some of its bits.
  abbrev field : Device → (bar low size : ℕ) → p.State → ℕ × p.State
  field d bar low size s =
      let r = read_raw bar d.bus d.device d.function s in (r.0 / 2 ^ low % 2 ^ size, r.1)

  unfoldable pub device_id : Device → p.State → ℕ × p.State
  unfolding read_raw
  device_id d = field d 0 0 16

  unfoldable pub vendor_id : Device → p.State → ℕ × p.State
  unfolding read_raw
  vendor_id d = field d 0 16 16

  unfoldable pub interface_id : Device → p.State → ℕ × p.State
  unfolding read_raw
  interface_id d = field d 0 16 16

  unfoldable pub class_code : Device → p.State → ℕ × p.State
  unfolding read_raw
  class_code d = field d 8 24 8

  unfoldable pub subclass : Device → p.State → ℕ × p.State
  unfolding read_raw
  subclass d = field d 8 16 8

  unfoldable pub prog_if : Device → p.State → ℕ × p.State
  unfolding read_raw
  prog_if d = field d 8 8 8

  unfoldable pub header_type : Device → p.State → ℕ × p.State
  unfolding read_raw
  header_type d = field d 12 16 8

  -- EnableMmio and BecomeBusMaster: a value with a bit set is put into a `bool`, which is then 1.
  unfoldable pub enable_mmio : Device → ℕ → p.State → p.State
  unfolding read write
  enable_mmio d bar_in s = write d bar_in 1 2 (read d bar_in 1 s).1

  unfoldable pub become_bus_master : Device → ℕ → p.State → p.State
  unfolding read write
  become_bus_master d bar_in s = write d bar_in 1 2 (read d bar_in 2 s).1

  -- Bar.
  unfoldable pub bar_of : Device → ℕ → p.State → ℕ × p.State
  unfolding read_raw
  bar_of d bar_in s = read_raw bar_in d.bus d.device d.function s

  -- Vendor: the device's number becomes what is read, and is returned.
  unfoldable pub vendor : Device → p.State → ℕ × Device × p.State
  unfolding vendor_id read
  vendor d s =
      let v = vendor_id d s in
      let r = read d 0 2 v.1 in
      if not (v.0 == config_invalid)
      then (r.0 % 2 ^ 16, record d { device = r.0 % 2 ^ 16 }, r.1)
      else (d.device, d, v.1)

  -- The conversion to a truth value.
  unfoldable pub is_there : Device → p.State → Bool × p.State
  unfolding vendor_id
  is_there d s = let v = vendor_id d s in (not (v.0 == config_invalid), v.1)

  -- `fDevices`, one for each bus; without an assignment a device has no value. And the ports.
  abbrev pub Probed : Type 0
  Probed = (ℕ → Option Device) × p.State

  -- The loops of Iterator::Iterator, over `n` rounds that are left.
  unfoldable pub probe : ℕ → (bus dev fun : ℕ) → Probed → Probed
  unfolding class_code
  probe kind bus dev fun (ds, s) =
      let d : Device = record { bus = bus; device = dev; function = fun; bar = 0 } in
      let c = class_code d s in (if c.0 == kind then update ds bus (some d) else ds, c.1)

  unfoldable pub function_loop : ℕ → ℕ → (bus dev fun : ℕ) → Probed → Probed
  unfolding probe
  function_loop zero kind bus dev fun q = q
  function_loop (suc n) kind bus dev fun q =
      function_loop n kind bus dev (fun + 1) (probe kind bus dev fun q)

  unfoldable pub device_loop : ℕ → ℕ → (bus dev : ℕ) → Probed → Probed
  unfolding function_loop
  device_loop zero kind bus dev q = q
  device_loop (suc n) kind bus dev q =
      device_loop n kind bus (dev + 1) (function_loop 8 kind bus dev 0 q)

  unfoldable pub bus_loop : ℕ → ℕ → ℕ → Probed → Probed
  unfolding device_loop
  bus_loop zero kind bus q = q
  bus_loop (suc n) kind bus q = bus_loop n kind (bus + 1) (device_loop 33 kind bus 0 q)

  -- Iterator::Iterator.
  unfoldable pub iterator : ℕ → p.State → Probed
  unfolding bus_loop
  iterator kind s = bus_loop 256 kind 0 (λ b. none, s)
