-- ===== src/Services/Semaphore.antt =====
-- Semaphores, dev/ZKAKit/src/Semaphore.cc, and the software timer, dev/ZKAKit/src/Timer.cc.
pub mod Exclusion
pub mod Waiting
use zka.Common.{
  ℕ, zero, suc, ◌+◌, ◌^◌, Bool, true, false, not, ◌||◌, Option, none, some, List, [], ◌∷◌, ltb, leb,
  ◌==◌, if◌then◌else◌,
}

-- Semaphore: the process that holds it, or null.
pub record Semaphore : Type 0 where
  pub locking_process : ℕ

unfoldable pub unlock : Semaphore → Semaphore × Bool
unlock s = if s.locking_process == 0 then (s, false) else (record { locking_process = 0 }, true)

unfoldable pub lock : Semaphore → ℕ → Semaphore × Bool
lock s process =
    if process == 0 || not (s.locking_process == 0)
    then (s, false)
    else (record { locking_process = process }, true)

unfoldable pub is_locked : Semaphore → Bool
is_locked s = not (s.locking_process == 0)

-- Semaphore::LockOrWait. A timer is what the other processes do to the semaphore during its wait.
unfoldable pub lock_or_wait : Semaphore → ℕ → Option (Semaphore → Semaphore) → Semaphore × Bool
lock_or_wait s process none = (s, false)
lock_or_wait s process (some wait) =
    if process == 0 then (s, false) else lock (wait (lock s process).0) process

-- A call of the semaphore by some process.
pub data Call : Type 0 where
  lock_call : ℕ → Call
  unlock_call : Call

-- A sequence of calls: the semaphore after them, and what each returned.
unfoldable pub calls : Semaphore → List Call → Semaphore × List Bool
calls s [] = (s, [])
calls s (lock_call p ∷ cs) =
    let (t, done) = lock s p in let (u, rest) = calls t cs in (u, done ∷ rest)
calls s (unlock_call ∷ cs) =
    let (t, done) = unlock s in let (u, rest) = calls t cs in (u, done ∷ rest)

-- The outcome of a software timer's wait: it returns, its sum overflows, or it still counts.
pub data Waited : Type 0 where
  returned : ℕ → Waited
  overflows still_counting : Waited

-- The loop of SoftwareTimer::Wait; a signed sum from 2 ^ 63 on is not defined.
unfoldable pub wait_loop : ℕ → ℕ → ℕ → Waited
wait_loop zero digital wait_for = still_counting
wait_loop (suc fuel) digital wait_for =
    let rest = wait_loop fuel (digital + 1) wait_for in
    if leb (2 ^ 63) (digital + wait_for)
    then overflows
    else if ltb digital (digital + wait_for)
    then rest
    else returned 0

-- SoftwareTimer::Wait of a timer that waits for a number of seconds that is not negative.
unfoldable pub wait : ℕ → ℕ → ℕ → Waited
unfolding wait_loop
wait fuel digital wait_for = if ltb wait_for 1 then returned 1 else wait_loop fuel digital wait_for
