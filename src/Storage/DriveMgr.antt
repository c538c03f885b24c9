-- ===== src/Storage/DriveMgr.antt =====
-- The drive manager, dev/ZKAKit/src/DriveMgr.cc with dev/ZKAKit/KernelKit/DriveMgr.h, in a build for ATA drives by programmed
-- input and output. The functions of a drive are those of the main drive; a blank drive's do nothing.
pub mod Detect
use zka.Common.{
  ℕ, ◌-◌, ◌^◌, Bool, true, false, Option, none, some, List, [], ◌∷◌, if◌then◌else◌, ◌==◌, replicate,
}
use zka.NewKit.Utils.{copy_memory, string_cmp}
use zka.Storage.Ata.{
  Ports, ◌then◌, Identity, primary_io, secondary_io, std_read, std_write, std_init,
}

pub record Packet : Type 0 where
  pub packet_content : Option (List ℕ)
  pub packet_mime : List ℕ
  pub packet_size : ℕ
  pub packet_good : Bool
  pub packet_lba : ℕ
  pub packet_read_only : Bool

-- A drive's name, kind and packet.
pub record Trait : Type 0 where
  pub name : List ℕ
  pub kind : ℕ
  pub packet : Packet

-- `kATAIO`, `kATAMaster` and the machine behind its ports.
pub record Globals (p : Ports) : Type 0 where
  pub ata_io : ℕ
  pub ata_master : ℕ
  pub machine : p.State

abbrev pub sector_size : ℕ
sector_size = 512

-- `sizeof(_BOOT_BLOCK_STRUCT)`.
abbrev pub boot_block_size : ℕ
boot_block_size = 512

abbrev any_mime : List ℕ
any_mime = b'*' ∷ b'/' ∷ b'*' ∷ []

abbrev detect_mime : List ℕ
detect_mime =
    b'f' ∷ b's' ∷ b'/' ∷ b'd' ∷ b'e' ∷ b't' ∷ b'e' ∷ b'c' ∷ b't' ∷ b'-' ∷ b'p' ∷ b'a' ∷ b'c' ∷ b'k'
    ∷ b'e' ∷ b't' ∷ []

-- `kEPMMagic86`.
abbrev pub epm_magic : List ℕ
epm_magic = b'E' ∷ b'P' ∷ b'M' ∷ b'A' ∷ b'M' ∷ []

-- `kMassStorageDisc | kEPMDrive`, `kMassStorageDisc | kUnformattedDrive | kReadOnlyDrive` and `kInvalidDisc`.
abbrev pub epm_disc : ℕ
epm_disc = 219

abbrev pub unformatted_disc : ℕ
unformatted_disc = 223

abbrev pub invalid_disc : ℕ
invalid_disc = 2 ^ 32 - 1

-- A packet as its initializers make it.
abbrev pub new_packet : Packet
new_packet = record {
  packet_content = none;
  packet_mime = b'*' ∷ b'/' ∷ b'*' ∷ replicate 29 0;
  packet_size = 0;
  packet_good = true;
  packet_lba = 0;
  packet_read_only = false;
}

-- io_construct_blank_drive; what the name's field holds behind the name is a parameter, like the field
-- of the main drive: it has no initializer.
unfoldable pub construct_blank_drive : List ℕ → Trait
construct_blank_drive field = record {
  name =
      (copy_memory (b'/' ∷ b'D' ∷ b'i' ∷ b's' ∷ b'k' ∷ b's' ∷ b'/' ∷ b'N' ∷ b'U' ∷ b'L' ∷ b':' ∷ [])
        field 11).0;
  kind = invalid_disc;
  packet = new_packet;
}

-- What ioi_detect_drive makes of the block that was read.
unfoldable pub recognize : Option (List ℕ) → Trait → Trait
recognize block t =
    if string_cmp block (some epm_magic) 5 == 0
    then record t { packet = record (t.packet) { packet_read_only = false }; kind = epm_disc }
    else record t {
      packet = record (t.packet) { packet_read_only = true };
      kind = unformatted_disc;
    }

-- The packet that asks for the boot block, its buffer apart, and the empty one that it is left with.
unfoldable pub ask : Packet → Packet
ask k = record k {
  packet_lba = 0;
  packet_size = boot_block_size;
  packet_mime = (copy_memory detect_mime k.packet_mime 16).0;
}

unfoldable pub clear : Packet → Packet
clear k = record k {
  packet_mime = (copy_memory any_mime k.packet_mime 3).0;
  packet_lba = 0;
  packet_size = 0;
  packet_content = none;
}

module _ (p : Ports) (tries fuel : ℕ) where
  -- io_drv_input, which fills the packet's content, and io_drv_output.
  unfoldable pub drv_input : Packet → Globals p → Option (Packet × Globals p)
  drv_input k g =
      std_read p fuel g.machine k.packet_lba g.ata_io g.ata_master sector_size k.packet_size
      then λ r. some (record k { packet_content = some r.0 }, record g { machine = r.1 })

  unfoldable pub drv_output : List ℕ → Packet → Globals p → Option (Globals p)
  drv_output content k g =
      std_write p fuel g.machine k.packet_lba g.ata_io g.ata_master content sector_size
        k.packet_size
      then λ s. some (record g { machine = s })

  -- What a drive that answers on a bus leaves.
  abbrev pub settled : Packet → Globals p → Identity → p.State → Packet × Globals p
  settled k g i s = (
    record k { packet_good = true },
    record g { ata_io = i.out_bus; ata_master = i.out_master; machine = s },
  )

  abbrev pub on_secondary : p.State → Globals p
  on_secondary s = record { ata_io = secondary_io; ata_master = 0; machine = s }

  -- The second attempt of io_drv_init, on the other bus.
  abbrev pub settled_secondary : Packet → Option Identity → p.State → Packet × Globals p
  settled_secondary k none s = (k, on_secondary s)
  settled_secondary k (some i) s = settled k (on_secondary s) i s

  unfoldable pub init_secondary : Packet → p.State → Option (Packet × Globals p)
  init_secondary k s =
      std_init p tries fuel s secondary_io then λ r. some (settled_secondary k r.0 r.1)

  -- io_drv_init.
  unfoldable pub drv_init : Packet → Globals p → Option (Packet × Globals p)
  drv_init k g = std_init p tries fuel g.machine primary_io then λ r. elim r.0 [
    | none ↦ init_secondary k r.1
    | some i ↦ some (settled k g i r.1)
  ]

  -- ioi_detect_drive.
  unfoldable pub detect_drive : Trait → Globals p → Option (Trait × Globals p)
  detect_drive t g = drv_init (ask t.packet) g then λ a. drv_input a.0 a.1 then λ b.
      let u = recognize b.0.packet_content (record t { packet = b.0 }) in
      some (record u { packet = clear u.packet }, b.1)

  -- io_construct_main_drive; the kind that is there before is a parameter.
  unfoldable pub construct_main_drive : List ℕ → ℕ → Globals p → Option (Trait × Globals p)
  construct_main_drive field kind g =
      detect_drive
        (record {
          name =
              (copy_memory
                (b'/' ∷ b'D' ∷ b'i' ∷ b's' ∷ b'k' ∷ b's' ∷ b'/' ∷ b'O' ∷ b'S' ∷ b':' ∷ []) field
                10).0;
          kind = kind;
          packet = new_packet;
        })
        g
