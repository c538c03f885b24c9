-- ===== src/Services/Semaphore/Exclusion.antt =====
-- A semaphore has one holder at a time.
use zka.Common.{
  ℕ, ◌≡◌, ◌≢◌, ◌↔◌, refl, arith, Bool, Bool-cases, inl, inr, true, false, some, List, [], ◌∷◌, ◌==◌,
  if◌then◌else◌,
}
use zka.Services.Semaphore.{
  Semaphore, lock, unlock, is_locked, lock_or_wait, Call, lock_call, unlock_call, calls,
}

-- None of the calls is an unlock.
abbrev pub NoUnlock : List Call → Type 0
NoUnlock [] = Unit
NoUnlock (lock_call p ∷ cs) = NoUnlock cs
NoUnlock (unlock_call ∷ cs) = ⊥

-- Every one of the results is a refusal.
abbrev pub AllRefused : List Bool → Type 0
AllRefused [] = Unit
AllRefused (done ∷ rest) = (done ≡ false) × AllRefused rest

lock_held : (s : Semaphore) (p : ℕ) → s.locking_process ≢ 0 → lock s p ≡ (s, false)
unfolding lock
lock_held s p held = ground arith

-- While a semaphore is held and nobody unlocks it, it keeps its holder, and every process that
-- tries to lock it, the holder too, is refused.
pub calls-AllRefused :
    (s : Semaphore) (cs : List Call)
    → s.locking_process ≢ 0
    → NoUnlock cs
    → ((calls s cs).0 ≡ s) × AllRefused (calls s cs).1
unfolding calls
calls-AllRefused s [] held only = (refl, tt)
calls-AllRefused s (lock_call p ∷ cs) held only =
    let (same, refused) = calls-AllRefused s cs held only in
    rw (lock_held s p held) (same, (refl, refused))
calls-AllRefused s (unlock_call ∷ cs) held only = absurd only

-- A lock followed by an unlock of a free semaphore by a process leaves it free, and both succeed; and it
-- can then be locked by any process.
pub unlock-lock :
    (p q : ℕ)
    → p ≢ 0
    → q ≢ 0
    → calls (record { locking_process = 0 }) (lock_call p ∷ unlock_call ∷ lock_call q ∷ [])
      ≡ (record { locking_process = q }, true ∷ true ∷ true ∷ [])
unfolding calls lock unlock
unlock-lock p q hp hq = ground arith

lock-state :
    (s : Semaphore) (p : ℕ)
    → p ≢ 0
    → (lock s p).0
      ≡ record { locking_process = if s.locking_process == 0 then p else s.locking_process }
unfolding lock
lock-state s p h = ground arith

lock_iff : (s : Semaphore) (p : ℕ) → p ≢ 0 → ((lock s p).1 ≡ true) ↔ (is_locked s ≡ false)
unfolding lock is_locked
lock_iff s p h = ((λ e. ground arith), λ e. ground arith)

-- LockOrWait with a timer succeeds exactly when the process is not null and the semaphore is free
-- after the wait; and what it waits on is its own lock, if the semaphore was free before.
pub lock_or_wait_iff :
    (s : Semaphore) (p : ℕ) (during : Semaphore → Semaphore)
    → ((lock_or_wait s p (some during)).1 ≡ true) ↔ (
        (p ≢ 0)
        × (is_locked (
              during (record {
                locking_process = if s.locking_process == 0 then p else s.locking_process;
              }))
            ≡ false))
unfolding lock_or_wait
lock_or_wait_iff s p during = elim (Bool-cases (p == 0)) [
  | inl null ↦ rw null ((λ e. ground arith), λ (some_process, free). ground (arith, null))
  | inr there ↦
      let h : p ≢ 0 = ground arith in
      rw (there, lock-state s p h)
        (
          (λ e. (h, (lock_iff (during _) p h).0 e)),
          λ (some_process, free). (lock_iff (during _) p h).1 free,
        )
]
