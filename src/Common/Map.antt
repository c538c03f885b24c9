-- ===== src/Common/Map.antt =====
-- Memory and disks as functions of an address.
use Prim.Native.Nat.{ℕ}
use mathlib.Core.Path.{◌≡◌}
use mathlib.Core.Logic.{◌≢◌}
use native.Mathlib.Omega.{arith}
use zka.Common.Tests.{◌==◌, if◌then◌else◌}

module _ {ℓ} {A : Type ℓ} where
  -- The map with one address written.
  abbrev pub update : (ℕ → A) → ℕ → A → ℕ → A
  update m p v a = if a == p then v else m a

  pub update_self : (m : ℕ → A) (p : ℕ) (v : A) → update m p v p ≡ v
  update_self m p v = ground arith

  pub update_ne : (m : ℕ → A) (p a : ℕ) (v : A) → a ≢ p → update m p v a ≡ m a
  update_ne m p a v h = ground arith
