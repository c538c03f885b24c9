-- ===== src/Hal/Interrupts.antt =====
-- dev/ZKAKit/HALKit/AMD64/HalCoreInterruptHandlerAMD64.cc: the handlers of interrupts and the calls of the kernel, with
-- the tables of dev/ZKAKit/ArchKit/ArchKit.h. What is printed is left out.
pub mod Traps
pub mod Calls
pub mod Scheduler
use zka.Common.{
  ℕ, zero, suc, ◌+◌, ◌-◌, Bool, true, false, not, ◌&&◌, Option, none, some, List, [], ◌∷◌,
  if◌then◌else◌, ltb, ◌==◌, get_or, update,
}
use zka.Sched.Process.{
  Status, frozen, Process, Kernel, Run, ok, fault, halted, Cmd, skip, put, crash,
}
use zka.Sched.Team.{run}

-- UserProcessSignal; a process has one, and they stand in a map of their own.
pub record Signal : Type 0 where
  pub signal_ip : ℕ
  pub signal_id : ℕ
  pub previous_status : Status

-- SIGKILL and SIGTRAP.
abbrev pub sigkill : ℕ
sigkill = 0

abbrev pub sigtrap : ℕ
sigtrap = 3

-- The codes of RUNTIME_CHECK, dev/ZKAKit/NewKit/Stop.h.
abbrev pub check_pointer : ℕ
check_pointer = 0

abbrev pub check_unexpected : ℕ
check_unexpected = 11

abbrev pub check_page : ℕ
check_page = 14

-- What a handler comes to: it returns, ke_stop halts the kernel in it, a read through null, or a halt inside the
-- calls of the heap.
pub data Handled : Type 0 where
  returned : (ℕ → Signal) → Kernel → Handled
  stopped : ℕ → (ℕ → Signal) → Kernel → Handled
  faulted : Handled
  dead : ℕ → Handled

-- The signal and the status that a process is given.
abbrev pub signalled : ℕ → ℕ → (ℕ → Signal) → Kernel → ℕ → Signal
signalled ip id signals s =
    update signals s.current
      (record { signal_ip = ip; signal_id = id; previous_status = (s.processes s.current).status })

abbrev pub freeze : Kernel → Kernel
freeze s = record s {
  processes = update s.processes s.current (record (s.processes s.current) { status = frozen });
}

abbrev ends_with : ℕ → (ℕ → Signal) → Run (Unit {0}) → Handled
ends_with code signals (ok u s) = stopped code signals s
ends_with code signals fault = faulted
ends_with code signals (halted c) = dead c

module _ (outside : ℕ → ℕ) (signals : ℕ → Signal) (s : Kernel) where
  -- The handlers of faults, up to the code that they end with.
  unfoldable pub handle_fault : ℕ → Handled
  handle_fault code =
      if s.current == 0
      then stopped check_page signals s
      else ends_with code (signalled 0 sigkill signals s) (crash outside s.current (freeze s))

  unfoldable pub idt_handle_gpf : Handled
  unfolding handle_fault
  idt_handle_gpf = handle_fault check_pointer

  unfoldable pub idt_handle_pf : Handled
  unfolding handle_fault
  idt_handle_pf = handle_fault check_page

  unfoldable pub idt_handle_math : Handled
  unfolding handle_fault
  idt_handle_math = handle_fault check_unexpected

  unfoldable pub idt_handle_generic : Handled
  unfolding handle_fault
  idt_handle_generic = handle_fault check_unexpected

  unfoldable pub idt_handle_ud : Handled
  unfolding handle_fault
  idt_handle_ud = handle_fault check_unexpected

  unfoldable pub idt_handle_breakpoint : ℕ → Handled
  idt_handle_breakpoint rip =
      if s.current == 0
      then stopped check_page signals s
      else returned (signalled rip sigtrap signals s) (freeze s)

-- The variables of idt_handle_scheduler.
pub record Ticks : Type 0 where
  pub is_scheduling : Bool
  pub try_count : ℕ

abbrev pub try_limit : ℕ
try_limit = 100000

-- The wait for another scheduling to end: nothing in the loop changes `is_scheduling`.
unfoldable pub brute_loop : ℕ → ℕ → Option ℕ
brute_loop zero try_count = none
brute_loop (suc fuel) try_count =
    let rest = brute_loop fuel (try_count - 1) in
    if ltb (try_count - 1) 1 then some (try_count - 1) else rest

-- idt_handle_scheduler: the run of the scheduler, and the variables as they are if it returns.
unfoldable pub idt_handle_scheduler : ℕ → (ℕ → ℕ) → Ticks → Kernel → Option (Run ℕ × Ticks)
unfolding brute_loop
idt_handle_scheduler fuel outside t s =
    elim (if t.is_scheduling then brute_loop fuel t.try_count else some t.try_count) [
      | none ↦ none
      | some n ↦ some (run outside s, record { is_scheduling = false; try_count = try_limit })
    ]

-- HAL_SYSCALL_RECORD, its hash apart.
pub record SyscallRecord : Type 0 where
  pub hooked : Bool
  pub proc : ℕ

abbrev pub no_record : SyscallRecord
no_record = record { hooked = false; proc = 0 }

-- `kSyscalls.Count()`: Array::Count counts the records that are hooked.
unfoldable pub count_hooked : List SyscallRecord → ℕ
count_hooked [] = 0
count_hooked (r ∷ rs) = (if r.hooked then 1 else 0) + count_hooked rs

-- A call of a procedure, at an address, with its argument.
module _ (call : ℕ → ℕ → Cmd (Unit {0})) where
  unfoldable pub enter_record : SyscallRecord → ℕ → Cmd (Unit {0})
  enter_record r arg = if r.hooked && not (r.proc == 0) then call r.proc arg else skip

  -- hal_system_call_enter, over `kSyscalls`.
  unfoldable pub system_call_enter : List SyscallRecord → ℕ → ℕ → Cmd (Unit {0})
  unfolding enter_record count_hooked
  system_call_enter syscalls index arg =
      if ltb index (count_hooked syscalls)
      then enter_record (get_or syscalls index no_record) arg
      else skip

  -- hal_kernel_call_enter, over `kKerncalls`.
  unfoldable pub kernel_call_enter : List SyscallRecord → ℕ → ℕ → Cmd (Unit {0})
  unfolding enter_record count_hooked
  kernel_call_enter kerncalls index arg =
      if ltb index (count_hooked kerncalls)
      then enter_record (get_or kerncalls index no_record) arg
      else skip
