-- ===== src/Examples/Hal.antt =====
-- A page that is mapped twice, a process that faults, calls, a PCI device, and a table of ACPI.
use zka.Common.{
  ℕ, ◌+◌, ◌*◌, ◌/◌, ◌%◌, ◌^◌, ◌≡◌, ◌<◌, refl, true, false, some, is_some, List, [], ◌∷◌,
  if◌then◌else◌, ◌==◌, arith,
}
use zka.Sched.Process.{Kernel, Cmd, ok}
use zka.Hal.Paging.{Paging, map_page}
use zka.Hal.Paging.Flags.{mapped_as}
use zka.Hal.Paging.Alias.{IsCall, entry_for, map_page-shared}
use zka.Hal.Interrupts.{
  Signal, stopped, sigkill, signalled, freeze, SyscallRecord, no_record, system_call_enter,
  kernel_call_enter,
}
use zka.Hal.Interrupts.Traps.{pf, handle, handle-frozen}
use zka.Hal.Interrupts.Calls.{free_before, hooked_from, calls-cases}
use zka.Hal.Pci.{Ports, target_of, iterator}
use zka.Hal.Pci.Target.{target_of-fields}
use zka.Hal.Pci.Probe.{IsConfig}
use zka.Hal.Pci.Iterator.{IsEntry, class_of, iterator-cases}
use zka.Hal.Acpi.{find}
use zka.Hal.Acpi.Find.{IsFirst, find-IsFirst}
use zka.Examples.Team.{kernel, new_process}
use zka.Examples.Heap.{nothing_outside}

-- Every pointer of the tables leads to the entry at 0x5000.
abbrev paging : Paging
paging = record {
  cr3 = 0x1000;
  word = λ a. 0x5000;
  entry = λ a. record { present = false; wr = false; user = false; exec_disable = false };
  page_store = record { pde = 0; pte = 0; v_addr = 0; store_op = false };
}

paging-IsCall : IsCall paging 0x400000 3
paging-IsCall = record {
  some_address = λ e. omega arith;
  some_flags = λ e. omega arith;
  fit = omega arith;
  not_kept = λ e. omega arith;
  there = λ e. omega arith;
}

map_page-shared_example :
    ((map_page 0x400000 3 paging).0 ≡ 0)
    × ((map_page 0x600000 5 (map_page 0x400000 3 paging).1).0 ≡ 0)
    × ((map_page 0x400000 3 paging).1.entry (entry_for paging 0x400000) ≡ mapped_as 3)
    × ((map_page 0x600000 5 (map_page 0x400000 3 paging).1).1.entry (entry_for paging 0x400000)
        ≡ mapped_as 5)
map_page-shared_example =
    map_page-shared paging 0x400000 0x600000 3 5 (omega arith) paging-IsCall (λ e. omega arith)
      (λ e. omega arith) (omega arith) (λ e. omega arith) refl

abbrev no_signals : ℕ → Signal
no_signals p = record { signal_ip = 0; signal_id = 0; previous_status = new_process.status }

-- A kernel whose current process stands at 0x3000.
abbrev busy_kernel : Kernel
busy_kernel = record kernel { current = 0x3000; slots = λ i. 0x3000 }

handle-frozen_example :
    handle pf nothing_outside no_signals busy_kernel
    ≡ stopped 14 (signalled 0 sigkill no_signals busy_kernel) (freeze busy_kernel)
handle-frozen_example = handle-frozen nothing_outside no_signals busy_kernel (λ e. omega arith) pf

-- A procedure that leaves its argument as the kernel's last exit code.
abbrev procedure : ℕ → ℕ → Cmd (Unit {0})
procedure proc arg s = ok tt (record s { last_exit_code = arg })

-- One hooked record, behind one that is not.
abbrev late_table : List SyscallRecord
late_table = no_record ∷ record { hooked = true; proc = 0x8000 } ∷ []

calls-cases_example :
    (system_call_enter procedure late_table 1 7 kernel ≡ ok tt kernel)
    × (kernel_call_enter procedure late_table 1 7 kernel ≡ ok tt kernel)
unfolding free_before hooked_from
calls-cases_example = calls-cases procedure late_table 1 7 kernel

target_of-fields_example :
    (target_of 8 3 31 7 / 2 ^ 31 ≡ 1)
    × (target_of 8 3 31 7 / 2 ^ 16 % 2 ^ 8 ≡ 3)
    × (target_of 8 3 31 7 / 2 ^ 11 % 2 ^ 5 ≡ 31)
    × (target_of 8 3 31 7 / 2 ^ 8 % 2 ^ 3 ≡ 7)
    × (target_of 8 3 31 7 % 2 ^ 8 ≡ 8)
target_of-fields_example =
    target_of-fields 8 3 31 7 (omega arith) (omega arith) (omega arith) (omega arith)

-- A machine whose state is the place that was asked for last, with one storage controller, on bus 3.
abbrev controller : ℕ
controller = 2147483648 + 3 * 65536 + 8

abbrev config : ℕ → ℕ → ℕ
config s t = if t == controller then 16777216 else 4294967295

abbrev ports : Ports
ports = record {
  State = ℕ;
  in8 = λ s port. (255, s);
  in16 = λ s port. (65535, s);
  in32 = λ s port. (config s s, s);
  out8 = λ s port v. s;
  out16 = λ s port v. s;
  out32 = λ s port v. v;
}

ports-IsConfig : IsConfig ports config
ports-IsConfig = record { reads = λ s t. refl; keeps = λ s t u. refl }

iterator-cases_example :
    IsEntry (config 0) 1 3 ((iterator ports 1 0).0 3)
    × ((e f : ℕ)
        → e < 33
        → f < 8
        → class_of (config 0) 3 e f ≡ 1
        → is_some ((iterator ports 1 0).0 3) ≡ true)
iterator-cases_example = iterator-cases ports config 1 0 3 ports-IsConfig (omega arith)

-- An RSDP at 0x100, an RSDT at 0x200 with four entries, and tables of which the second one is an `FACP`.
abbrev bytes_of : List (ℕ × ℕ) → ℕ → ℕ
bytes_of [] a = 0
bytes_of ((b, v) ∷ m) a = if a == b then v else bytes_of m a

abbrev facp : List ℕ
facp = b'F' ∷ b'A' ∷ b'C' ∷ b'P' ∷ []

abbrev firmware : ℕ → ℕ
firmware = bytes_of (
    (0x108, 2)
    ∷ (0x125, 2)
    ∷ (0x204, 52)
    ∷ (0x225, 3)
    ∷ (0x229, 4)
    ∷ (0x400, b'F')
    ∷ (0x401, b'A')
    ∷ (0x402, b'C')
    ∷ (0x403, b'P')
    ∷ [])

find-IsFirst_example : IsFirst firmware 0x200 facp 0 2 (find firmware 0x100 (some facp))
find-IsFirst_example =
    find-IsFirst firmware 0x100 0x200 4 facp (λ e. omega arith) (λ e. omega arith) (omega arith)
      refl (λ e. omega arith) refl (omega arith) (omega arith)
