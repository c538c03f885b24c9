-- ===== src/Nefs/Volume.antt =====
-- The mounted volume as NeFSParser of dev/ZKAKit/src/FS/NeFS.cc reads and writes it, a structure at a time,
-- through the functions of drive A. That drive's `fPacketGood` is YES from its construction on, and no
-- code on the way clears it, so the loops `while (drive.fPacket.fPacketGood)` test nothing.
pub mod Frame
use zka.Common.{ℕ, Bool, any_bits, Option}
use zka.Storage.{Drive}
use zka.Nefs.{sector_size, root_catalog_start_address, flag_created}
use zka.Nefs.Structs.{Catalog, Fork, Block}
use zka.Nefs.Layout.Catalogs.{encode_catalog, decode_catalog}
use zka.Nefs.Layout.Forks.{encode_fork, decode_fork}
use zka.Nefs.Layout.Blocks.{encode_block, decode_block}

-- What a walk over the disk comes to: a value, an access outside an array or through null, or an end that
-- was not reached within the fuel.
pub data Result {ℓ} (A : Type ℓ) : Type ℓ where
  ok : A → Result A
  fault : Result A
  out_of_fuel : Result A

infixl 5 ◌>>=◌
abbrev pub ◌>>=◌ {ℓ κ} : {A : Type ℓ} {B : Type κ} → Result A → (A → Result B) → Result B
ok a >>= k = k a
fault >>= k = fault
out_of_fuel >>= k = out_of_fuel

-- `Flags & kNeFSFlagCreated`.
unfoldable pub is_created : Catalog → Bool
unfolding any_bits
is_created c = any_bits 16 c.flags flag_created

module _ (v : Drive) (d : v.State) where
  abbrev pub read_catalog : ℕ → Catalog
  read_catalog lba = decode_catalog (v.input d lba sector_size)

  abbrev pub read_fork : ℕ → Fork
  read_fork lba = decode_fork (v.input d lba sector_size)

  abbrev pub read_block : Block
  read_block = decode_block (v.input d root_catalog_start_address sector_size)

  abbrev pub write_catalog : ℕ → Catalog → v.State
  write_catalog lba c = v.output d lba (encode_catalog c)

  abbrev pub write_fork : ℕ → Fork → v.State
  write_fork lba f = v.output d lba (encode_fork f)

  abbrev pub write_block : Block → v.State
  write_block b = v.output d root_catalog_start_address (encode_block b)

-- What a function of the file system leaves: its value, the disk, and what it stored through err_local_get, if anything.
pub record Reply (v : Drive) (A : Type 0) : Type 0 where
  pub value : A
  pub disk : v.State
  pub local_code : Option ℕ
