-- ===== src/Loader/Pef/Magic.antt =====
-- The formats that PEFLoader of dev/ZKAKit/src/PEFCodeMgr.cc accepts.
use zka.Common.{ℕ, ◌≡◌, ◌↔◌, ◌⊎◌, true, false, List, arith}
use zka.NewKit.Utils.{at}
use zka.Loader.Pef.{
  Container, decode_container, pef_abi, platform, has_magic, has_fat_magic, check_container,
  is_loaded,
}

-- "Joy!" for this processor.
pub record IsThin (c : Container) : Type 0 where
  pub letter0 : at c.magic 0 ≡ b'J'
  pub letter1 : at c.magic 1 ≡ b'o'
  pub letter2 : at c.magic 2 ≡ b'y'
  pub letter3 : at c.magic 3 ≡ b'!'
  pub ending : at c.magic 4 ≡ 0
  pub abi : c.abi ≡ pef_abi
  pub cpu : c.cpu ≡ platform

-- The same from behind, with the NUL in front.
pub record IsFat (c : Container) : Type 0 where
  pub start : at c.magic 0 ≡ 0
  pub letter1 : at c.magic 1 ≡ b'!'
  pub letter2 : at c.magic 2 ≡ b'y'
  pub letter3 : at c.magic 3 ≡ b'o'
  pub letter4 : at c.magic 4 ≡ b'J'
  pub abi : c.abi ≡ pef_abi

-- A container is loaded exactly when it has this kernel's ABI, and either the magic `Joy!` and this
-- processor, or the magic from behind, with its NUL in front, whatever the processor.
pub check_container-is_loaded_iff :
    (blob : List ℕ)
    → (is_loaded (check_container blob) ≡ true)
      ↔ (IsThin (decode_container blob) ⊎ IsFat (decode_container blob))
unfolding check_container is_loaded has_magic has_fat_magic
check_container-is_loaded_iff blob = ground arith

-- `kPefMagicFat`, the magic that the header names for fat binaries, is refused.
pub fat_magic-refused :
    (blob : List ℕ)
    → at (decode_container blob).magic 0 ≡ b'y'
    → is_loaded (check_container blob) ≡ false
unfolding check_container is_loaded has_magic has_fat_magic
fat_magic-refused blob h = ground arith
