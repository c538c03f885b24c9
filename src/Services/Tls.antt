-- ===== src/Services/Tls.antt =====
-- dev/ZKAKit/src/ThreadLocalStorage.cc: the check of a thread's information block, through a pointer or null, with
-- ICodec of dev/ZKAKit/NewKit/Defines.h. Without a result the code reads through null.
use zka.Common.{
  ℕ, ◌≡◌, ◌⊎◌, inl, inr, refl, Bool, true, false, ◌&&◌, Option, none, some, List, if◌then◌else◌,
  ◌==◌, Bool-cases,
}
use zka.NewKit.Utils.{at}

-- THREAD_INFORMATION_BLOCK.
pub record ThreadInformationBlock : Type 0 where
  pub cookie : List ℕ
  pub info : ℕ

-- ICodec::AsBytes, which returns null whatever it is given.
unfoldable pub as_bytes : ThreadInformationBlock → Option (List ℕ)
as_bytes tib = none

unfoldable pub tls_check_tib : Option ThreadInformationBlock → Option Bool
unfolding as_bytes
tls_check_tib none = some false
tls_check_tib (some tib) = if tib.info == 0 then some false else elim (as_bytes tib) [
  | none ↦ none
  | some s ↦ some (at s 0 == b'Z' && at s 1 == b'K' && at s 2 == b'A')
]

-- tls_check_syscall_impl.
unfoldable pub tls_check_syscall_impl : Option ThreadInformationBlock → Option Bool
unfolding tls_check_tib
tls_check_syscall_impl none = some false
tls_check_syscall_impl (some tib) = elim (tls_check_tib (some tib)) [
  | none ↦ none
  | some good ↦ some (if good then true else false)
]

-- No block passes the check: it says no, or reads through null.
pub tls_check_syscall_impl_never :
    (tib : Option ThreadInformationBlock)
    → (tls_check_syscall_impl tib ≡ some false) ⊎ (tls_check_syscall_impl tib ≡ none)
unfolding tls_check_syscall_impl
tls_check_syscall_impl_never none = inl refl
tls_check_syscall_impl_never (some tib) = elim (Bool-cases (tib.info == 0)) [
  | inl e ↦ inl (rw (tls_check_syscall_impl, e) refl)
  | inr e ↦ inr (rw (tls_check_syscall_impl, e) refl)
]
