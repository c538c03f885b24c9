-- ===== src/Storage.antt =====
-- Drives as a file system sees them: the packet's functions `fInput` and `fOutput` of a DriveTrait,
-- dev/ZKAKit/KernelKit/DriveMgr.h.
pub mod Ata
pub mod DriveMgr
use zka.Common.{ℕ, ◌+◌, ◌≤◌, ◌≡◌, ◌⊎◌, List, IsBytes}

-- A drive that is read and written in packets: `input` takes `fPacketLba` and `fPacketSize` and gives
-- what `fPacketContent` then holds, `output` takes `fPacketLba` and the content.
pub record Drive : Type 1 where
  pub State : Type 0
  pub input : State → ℕ → ℕ → List ℕ
  pub output : State → ℕ → List ℕ → State

-- How far apart two structures of a sector stand that do not touch each other: a write of one sector
-- asks the driver for two.
abbrev pub gap : ℕ
gap = 1024

abbrev pub Apart : ℕ → ℕ → Type 0
Apart a b = (a + gap ≤ b) ⊎ (b + gap ≤ a)

-- What a file system relies on: a sector that was written is read back, and stands alone.
pub record IsLawful (v : Drive) (capacity : ℕ) : Type 0 where
  pub input-IsBytes : (d : v.State) (a : ℕ) → IsBytes 512 (v.input d a 512)
  pub input-output_self :
      (d : v.State) (a : ℕ) (s : List ℕ)
      → IsBytes 512 s
      → a + gap ≤ capacity
      → v.input (v.output d a s) a 512 ≡ s
  pub input-output_apart :
      (d : v.State) (a b : ℕ) (s : List ℕ)
      → IsBytes 512 s
      → a + gap ≤ capacity
      → b + gap ≤ capacity
      → Apart a b
      → v.input (v.output d a s) b 512 ≡ v.input d b 512
