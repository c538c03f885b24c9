-- ===== src/Hal/Interrupts/Scheduler.antt =====
-- The interrupt of the timer, dev/ZKAKit/HALKit/AMD64/HalCoreInterruptHandlerAMD64.cc.
use zka.Common.{ℕ, inl, inr, Bool-cases, false, zero, suc, ◌≡◌, ◌≤◌, refl, true, some, ltb, arith}
use zka.Sched.Process.{Kernel, ok}
use zka.Sched.Team.{run, count_slots, process_limit}
use zka.Hal.Interrupts.{Ticks, try_limit, brute_loop, idt_handle_scheduler}

brute_loop-ends : (fuel n : ℕ) → n ≤ fuel → brute_loop (suc fuel) n ≡ some 0
unfolding brute_loop
brute_loop-ends zero n h = ground arith
brute_loop-ends (suc fuel) zero h = ground arith
brute_loop-ends (suc fuel) (suc n) h = ground (arith, brute_loop-ends fuel n (omega (arith, h)))

-- The interrupt of the timer comes to an end with one round of the wait more than its count; with a process in the
-- team it schedules nothing.
pub idt_handle_scheduler-ends :
    (fuel : ℕ) (outside : ℕ → ℕ) (t : Ticks) (s : Kernel)
    → t.try_count ≤ fuel
    → ltb 0 (count_slots process_limit s.slots) ≡ true
    → idt_handle_scheduler (suc fuel) outside t s
      ≡ some (ok 0 s, record { is_scheduling = false; try_count = try_limit })
unfolding idt_handle_scheduler run
idt_handle_scheduler-ends fuel outside t s h some_process = elim (Bool-cases t.is_scheduling) [
  | inl e ↦ rw (e, idt_handle_scheduler, brute_loop-ends fuel t.try_count h, some_process) refl
  | inr e ↦ rw (e, idt_handle_scheduler, some_process) refl
]
