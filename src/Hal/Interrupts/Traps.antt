-- ===== src/Hal/Interrupts/Traps.antt =====
-- The handlers of faults of dev/ZKAKit/HALKit/AMD64/HalCoreInterruptHandlerAMD64.cc, and the processes that fault.
use zka.Common.{neq-test, ℕ, ◌≡◌, ◌≢◌, refl, update_self}
use zka.Sched.Process.{Kernel, crash}
use zka.Hal.Interrupts.{
  Signal, Handled, stopped, sigkill, check_pointer, check_page, check_unexpected, signalled, freeze,
  handle_fault, idt_handle_gpf, idt_handle_pf, idt_handle_math, idt_handle_generic, idt_handle_ud,
}

-- The faults that have a handler, and the codes that the handlers end with.
pub data Trap : Type 0 where
  gpf pf math generic ud : Trap

abbrev pub stop_code : Trap → ℕ
stop_code gpf = check_pointer
stop_code pf = check_page
stop_code math = check_unexpected
stop_code generic = check_unexpected
stop_code ud = check_unexpected

abbrev pub handle : Trap → (ℕ → ℕ) → (ℕ → Signal) → Kernel → Handled
handle gpf = idt_handle_gpf
handle pf = idt_handle_pf
handle math = idt_handle_math
handle generic = idt_handle_generic
handle ud = idt_handle_ud

module _ (outside : ℕ → ℕ) (signals : ℕ → Signal) (s : Kernel) (some_current : s.current ≢ 0) where
  handle_fault-frozen :
      (code : ℕ)
      → handle_fault outside signals s code
        ≡ stopped code (signalled 0 sigkill signals s) (freeze s)
  unfolding handle_fault crash
  handle_fault-frozen code =
      rw (neq-test s.current 0 some_current, update_self s.processes s.current) refl

  -- Whenever a process is the current one, each of the five handlers of faults comes to ke_stop
  -- with its code, and the process is not ended: it is frozen and has the signal SIGKILL with its
  -- status before, and memory, team and every other process are as they were.
  pub handle-frozen :
      (trap : Trap)
      → handle trap outside signals s
        ≡ stopped (stop_code trap) (signalled 0 sigkill signals s) (freeze s)
  unfolding idt_handle_gpf idt_handle_pf idt_handle_math idt_handle_generic idt_handle_ud
  handle-frozen gpf = handle_fault-frozen check_pointer
  handle-frozen pf = handle_fault-frozen check_page
  handle-frozen math = handle_fault-frozen check_unexpected
  handle-frozen generic = handle_fault-frozen check_unexpected
  handle-frozen ud = handle_fault-frozen check_unexpected
