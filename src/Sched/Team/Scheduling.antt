-- ===== src/Sched/Team/Scheduling.antt =====
-- What the scheduler's run and its switch do (UserProcessScheduler::Run, UserProcessHelper::Switch).
use zka.Common.{
  ◌≢◌, ℕ, zero, suc, ◌+◌, ◌<◌, ◌≡◌, refl, arith, Bool, false, not, ◌||◌, ltb, ◌==◌, if◌then◌else◌,
  Bool-cases, inl, inr, Option, none, some,
}
use zka.Memory.Heap.{is_valid_heap}
use zka.Sched.Thread.{HardwareThread, is_invalid, is_boot, is_reserved, capacity, thread_at, max_ap}
use zka.Sched.Process.{Kernel, Run, ok, fault, halted, Cmd}
use zka.Sched.Team.{
  process_limit, count_slots, switch_loop, switch_process, switch_thread, run_slot, run_loop, run,
}

count_slots_zero : (n : ℕ) (slots : ℕ → ℕ) (i : ℕ) → count_slots n slots ≡ 0 → i < n → slots i ≡ 0
unfolding count_slots
count_slots_zero zero slots i e h = elim h [ ]
count_slots_zero (suc n) slots i e h = elim (Bool-cases (i == n)) [
  | inl same ↦ let q : i ≡ n = ground arith in rw q (ground arith)
  | inr other ↦ count_slots_zero n slots i (ground arith) (ground arith)
]

run_slot_null :
    (outside : ℕ → ℕ) (i : ℕ) (s : Kernel) → s.slots i ≡ 0 → run_slot outside i s ≡ fault
unfolding run_slot
run_slot_null outside i s e = rw e

run_loop_null :
    (outside : ℕ → ℕ) (n i : ℕ) (s : Kernel) → s.slots i ≡ 0 → run_loop outside (suc n) i s ≡ fault
unfolding run_loop
run_loop_null outside n i s e = rw (run_slot_null outside i s e)

-- A run of the scheduler schedules nothing: if the team has a process, the run returns 0 at once
-- and changes nothing, and if it has none, the run reads a process through null.
pub run_cases :
    (outside : ℕ → ℕ) (s : Kernel)
    → run outside s ≡ (if ltb 0 (count_slots process_limit s.slots) then ok 0 s else fault)
unfolding run
run_cases outside s = elim (Bool-cases (ltb 0 (count_slots process_limit s.slots))) [
  | inl busy ↦ rw busy
  | inr idle ↦
      let none_there : count_slots process_limit s.slots ≡ 0 = ground arith in
      let first = count_slots_zero process_limit s.slots 0 none_there (omega arith) in
      rw (idle, run_loop_null outside 31 0 s first)
]

-- What a run that returns ensures of its result and of the state.
abbrev pub Returning : {A : Type 0} → (A → Kernel → Type 0) → Run A → Type 0
Returning Q (ok a t) = Q a t
Returning Q fault = Unit
Returning Q (halted c) = Unit

-- The run returns false, and the processes, the team and the memory are as they were.
abbrev pub NoSwitch : Kernel → Run Bool → Type 0
NoSwitch s r =
    (t : Kernel) × (r ≡ ok false t)
    × (t.processes ≡ s.processes)
    × (t.memory ≡ s.memory)
    × (t.slots ≡ s.slots)
    × (t.process_count ≡ s.process_count)
    × (t.current ≡ s.current)

kept : (s : Kernel) → NoSwitch s (ok false s)
kept s = (s, refl, refl, refl, refl, refl, refl)

no_null : (a b : ℕ) → a ≢ 0 → b ≢ 0 → (a == 0 || b == 0) ≡ false
no_null a b h k = ground arith

switch_loop-NoSwitch :
    (n i image stack frame pid : ℕ) (s : Kernel)
    → s.current ≢ 0
    → s.slots pid ≢ 0
    → NoSwitch s (switch_loop n i image stack frame pid s)
unfolding switch_loop
switch_loop-NoSwitch zero i image stack frame pid s h k = kept s
switch_loop-NoSwitch (suc n) i image stack frame pid s h k =
    elim (Bool-cases (not (ltb i (capacity s.threads)))) [
      | inl past ↦ rw past (kept s)
      | inr within ↦ rw within (
          at (switch_loop n (i + 1) image stack frame pid)
            (switch_loop-NoSwitch n (i + 1) image stack frame pid) (thread_at s.threads i).1)
    ]
  where
    seen : Kernel
    seen = record s { threads = (thread_at s.threads i).0 }

    at :
        (rest : Cmd Bool)
        → ((t : Kernel) → t.current ≢ 0 → t.slots pid ≢ 0 → NoSwitch t (rest t))
        → (thread : Option HardwareThread)
        → NoSwitch s (elim thread [
          | none ↦ rest seen
          | some t ↦
              if is_invalid t.kind || is_boot t.kind || is_reserved t.kind
              then rest seen
              else if s.current == 0 || s.slots pid == 0
              then fault
              else rest (switch_thread seen (thread_at s.threads i).0 i t image stack frame pid)
        ])
    at rest ih none = ih seen h k
    at rest ih (some t) =
        elim (Bool-cases (is_invalid t.kind || is_boot t.kind || is_reserved t.kind)) [
          | inl other ↦ rw other (ih seen h k)
          | inr user ↦
              rw (user, no_null s.current (s.slots pid) h k)
                (ih (switch_thread seen (thread_at s.threads i).0 i t image stack frame pid) h k)
        ]

-- With a current process and a process in the id's slot, UserProcessHelper::Switch returns and
-- reports a failure, whatever the threads and on whatever threads it has put the process; it
-- changes no process, slot or count, no memory, and not which process is the current one.
pub switch_process-NoSwitch :
    (image stack frame pid : ℕ) (s : Kernel)
    → s.current ≢ 0
    → s.slots pid ≢ 0
    → NoSwitch s (switch_process image stack frame pid s)
unfolding switch_process
switch_process-NoSwitch image stack frame pid s h k =
    elim (Bool-cases (stack == 0 || frame == 0 || image == 0)) [
      | inl null ↦ rw null (kept s)
      | inr there ↦ rw there (elim (Bool-cases (not (is_valid_heap s.memory image))) [
        | inl bad ↦ rw bad (kept s)
        | inr good ↦ rw good (switch_loop-NoSwitch max_ap 0 image stack frame pid s h k)
      ])
    ]
