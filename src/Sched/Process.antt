-- ===== src/Sched/Process.antt =====
-- User processes, dev/ZKAKit/src/UserProcessScheduler.cc and KernelKit/UserProcessScheduler.h. A process
-- is the object at an address; the kernel's state holds all of them. Exit and the calls of the heap
-- that it makes run in the kernel's memory: switching page directories (`hal_write_cr3`) maps the same
-- memory, and is left out.
pub mod Effect
pub mod Exit
use zka.Common.{
  ℕ, zero, suc, ◌+◌, ◌-◌, ◌^◌, ◌%◌, Bool, true, false, not, ◌&&◌, ◌||◌, Option, none, some, List,
  [], ◌∷◌, ltb, ◌==◌, if◌then◌else◌, update,
}
use zka.Memory.{Memory}
use zka.Memory.BitMap.{mm_free_bit_map}
use zka.Memory.Heap.{Outcome, done, stopped, delete_heap, is_valid_heap}
use zka.Sched.Thread.{HardwareThread, Cores}

-- ProcessStatusKind.
pub data Status : Type 0 where
  invalid starting running killed frozen finished : Status

abbrev pub is_running : Status → Bool
is_running running = true
is_running _ = false

-- The kinds of an executable, kExectuableKind and kExectuableDLLKind, and the value 0, which is neither.
pub data Kind : Type 0 where
  executable executable_dll no_kind : Kind

-- UserProcessHeapList: the node's own address, and the allocation that it holds.
pub record HeapNode : Type 0 where
  pub node : ℕ
  pub entry : ℕ

-- UserProcess. Pointers are addresses and null is 0.
pub record Process : Type 0 where
  pub name : List ℕ
  pub stack_frame : ℕ
  pub affinity : ℕ
  pub status : Status
  pub stack_reserve : ℕ
  pub code : ℕ
  pub blob : ℕ
  pub stack_size : ℕ
  pub pef_dll_delegate : ℕ
  pub memory_heap : List HeapNode
  pub vm_register : ℕ
  pub ptime : ℕ
  pub process_id : ℕ
  pub kind : Kind
  pub last_exit_code : ℕ
  pub local_code : ℕ

-- What the scheduler's code reads and writes: the memory, the processes, the team (`mProcessList`,
-- whose slots from 32 on lie behind it, `mProcessCount` and `mCurrentProcess`), the exit code of the
-- process that ended last, the hardware threads and, for each DLL delegate, its traits.
pub record Kernel : Type 0 where
  pub memory : Memory
  pub processes : ℕ → Process
  pub slots : ℕ → ℕ
  pub process_count : ℕ
  pub current : ℕ
  pub last_exit_code : ℕ
  pub threads : List HardwareThread
  pub cores : Cores
  pub dll_traits : ℕ → ℕ

-- A run of kernel code: it returns, it reads or writes through null, or ke_stop halts the kernel.
pub data Run {ℓ} (A : Type ℓ) : Type ℓ where
  ok : A → Kernel → Run A
  fault : Run A
  halted : ℕ → Run A

abbrev pub Cmd {ℓ} : Type ℓ → Type ℓ
Cmd A = Kernel → Run A

abbrev pub pure {ℓ} : {A : Type ℓ} → A → Cmd A
pure = ok

module _ {ℓ κ} {A : Type ℓ} {B : Type κ} where
  abbrev pub and_then : Run A → (A → Cmd B) → Run B
  and_then (ok a s) k = k a s
  and_then fault k = fault
  and_then (halted c) k = halted c

  infixl 5 ◌>>=◌ ◌>>◌
  abbrev pub ◌>>=◌ : Cmd A → (A → Cmd B) → Cmd B
  m >>= k = λ s. and_then (m s) k

  abbrev pub ◌>>◌ : Cmd A → Cmd B → Cmd B
  m >> k = m >>= λ _. k

abbrev pub skip : Cmd (Unit {0})
skip = ok tt

-- Runs a command if a test holds.
abbrev pub when : Bool → Cmd (Unit {0}) → Cmd (Unit {0})
when true c = c
when false c = skip

abbrev pub get : ℕ → Cmd Process
get p = λ s. ok (s.processes p) s

abbrev pub put : ℕ → (Process → Process) → Cmd (Unit {0})
put p change = λ s. ok tt (record s { processes = update s.processes p (change (s.processes p)) })

abbrev pub modify : (Kernel → Kernel) → Cmd (Unit {0})
modify change = λ s. ok tt (change s)

-- A call of mm_delete_heap, whose status the callers drop.
unfoldable pub delete : (ℕ → ℕ) → ℕ → Cmd (Unit {0})
delete outside p s = elim (delete_heap outside s.memory p) [
  | done status m ↦ ok tt (record s { memory = m })
  | stopped code ↦ halted code
]

-- The deletion of an image or a stack frame, if it is set and the heap takes it for valid.
unfoldable pub delete_valid : (ℕ → ℕ) → ℕ → Cmd (Unit {0})
unfolding delete
delete_valid outside p s = when (not (p == 0) && is_valid_heap s.memory p) (delete outside p) s

-- The loop of UserProcess::Exit over the process's allocations.
unfoldable pub delete_nodes : (ℕ → ℕ) → List HeapNode → Cmd (Unit {0})
unfolding delete
delete_nodes outside [] = skip
delete_nodes outside (n ∷ rest) =
    when (not (n.entry == 0)) (delete outside n.entry)
    >> delete outside n.node
    >> delete_nodes outside rest

-- rtl_fini_dll of dev/ZKAKit/src/IPEFDLLObject.cc, for a process that is not running, so that Crash
-- does nothing: a null delegate is reported, and then read all the same.
unfoldable pub fini_dll : (ℕ → ℕ) → ℕ → Cmd (Unit {0})
unfolding delete
fini_dll outside dll s =
    if dll == 0
    then fault
    else (when (not (s.dll_traits dll == 0)) (delete outside (s.dll_traits dll))
          >> delete outside dll)
        s

abbrev pub is_dll : Kind → Bool
is_dll executable = false
is_dll executable_dll = true
is_dll no_kind = false

-- The parts of UserProcess::Exit, in order: the status and the exit codes; the allocations and the
-- page directory; the image and the stack frame; the DLL; the reserved stack; the process itself.
unfoldable pub mark : ℕ → ℕ → Cmd (Unit {0})
mark p exit_code =
    put p (λ q. record q {
      status = if ltb 0 exit_code then killed else frozen;
      last_exit_code = exit_code;
    })
    >> modify (λ s. record s { last_exit_code = exit_code })

unfoldable pub release : (ℕ → ℕ) → ℕ → Cmd (Unit {0})
unfolding delete_nodes
release outside p = do
  q ← get p
  delete_nodes outside q.memory_heap
  modify (λ s. record s { memory = (mm_free_bit_map s.memory q.vm_register).0 })

unfoldable pub unload : (ℕ → ℕ) → ℕ → Cmd (Unit {0})
unfolding delete_valid
unload outside p = get p >>= λ q.
    delete_valid outside q.code
    >> delete_valid outside q.blob
    >> delete_valid outside q.stack_frame
    >> put p (λ r. record r { blob = 0; code = 0; stack_frame = 0 })

unfoldable pub unlink_dll : (ℕ → ℕ) → ℕ → Cmd (Unit {0})
unfolding fini_dll
unlink_dll outside p = get p >>= λ q.
    when (is_dll q.kind)
      (fini_dll outside q.pef_dll_delegate >> put p (λ r. record r { pef_dll_delegate = 0 }))

unfoldable pub drop_stack : (ℕ → ℕ) → ℕ → Cmd (Unit {0})
unfolding delete
drop_stack outside p =
    get p >>= λ q. when (not (q.stack_reserve == 0)) (delete outside q.stack_reserve)

unfoldable pub retire : (ℕ → ℕ) → ℕ → Cmd (Unit {0})
unfolding delete
retire outside p =
    put p (λ q. record q { process_id = 0; status = finished })
    >> modify (λ s. record s { process_count = (s.process_count + 2 ^ 64 - 1) % 2 ^ 64 })
    >> delete outside p

-- UserProcess::Exit. The process's parent is the team; exit codes are not negative.
unfoldable pub exit : (ℕ → ℕ) → ℕ → ℕ → Cmd (Unit {0})
unfolding mark release unload unlink_dll drop_stack retire
exit outside p exit_code =
    mark p exit_code
    >> release outside p
    >> unload outside p
    >> unlink_dll outside p
    >> drop_stack outside p
    >> retire outside p

abbrev pub error_process_fault : ℕ
error_process_fault = 39

-- UserProcess::Crash: only a running process is ended.
unfoldable pub crash : (ℕ → ℕ) → ℕ → Cmd (Unit {0})
unfolding exit
crash outside p s =
    if is_running (s.processes p).status then exit outside p error_process_fault s else ok tt s

-- UserProcess::Wake.
unfoldable pub wake : ℕ → Bool → Cmd (Unit {0})
wake p should_wakeup = put p (λ q. record q { status = if should_wakeup then running else frozen })

abbrev pub may_run : Status → Bool
may_run starting = true
may_run running = true
may_run _ = false

-- `process->Name[0]`.
abbrev pub has_name : List ℕ → Bool
has_name [] = false
has_name (c ∷ _) = not (c == 0)

-- UserProcessHelper::CanBeScheduled.
unfoldable pub can_be_scheduled : Process → Bool
can_be_scheduled q = may_run q.status && not (q.code == 0) && has_name q.name && ltb q.ptime 1
