-- ===== src/Hal/Paging/Flags.antt =====
-- The flags that dev/ZKAKit/HALKit/AMD64/HalPagingMgrAMD64.cc gives an entry.
use zka.Common.{
  inl, inr, Bool-cases, any_bits-complement, ℕ, ◌^◌, ◌<◌, ◌≡◌, ◌≢◌, refl, inl, inr, Bool, true,
  any_bits, any_bits-complement, inl, inr, Bool-cases, Bool-cases, arith,
}
use zka.Hal.Paging.{Pte, flag_wr, flag_user, flag_nx, flagged, with_flags}

-- Flags that are not all the flag has another bit.
flagged-any_bits :
    (flags flag : ℕ) (old : Bool)
    → flags ≢ 0
    → flags < 2 ^ 32
    → flag < 2 ^ 32
    → flagged flags flag old ≡ any_bits 32 flags flag
unfolding flagged
flagged-any_bits flags flag old n h k = elim (Bool-cases (any_bits 32 flags flag)) [
  | inl e ↦ rw e refl
  | inr e ↦ rw (e, any_bits-complement 32 flags flag h k n e) refl
]

-- A present entry with the bits of the flags.
abbrev pub mapped_as : ℕ → Pte
mapped_as flags = record {
  present = true;
  wr = any_bits 32 flags flag_wr;
  user = any_bits 32 flags flag_user;
  exec_disable = any_bits 32 flags flag_nx;
}

pub with_flags-bits :
    (flags : ℕ) (e : Pte)
    → flags ≢ 0
    → flags < 2 ^ 32
    → with_flags flags e ≡ record {
      present = true;
      wr = any_bits 32 flags flag_wr;
      user = any_bits 32 flags flag_user;
      exec_disable = any_bits 32 flags flag_nx;
    }
unfolding with_flags
with_flags-bits flags e n h =
    rw
      (
        flagged-any_bits flags flag_wr e.wr n h (omega arith),
        flagged-any_bits flags flag_user e.user n h (omega arith),
        flagged-any_bits flags flag_nx e.exec_disable n h (omega arith),
      )
      refl
