-- ===== src/Sched/Team.antt =====
-- The process team and its scheduler, dev/ZKAKit/src/UserProcessScheduler.cc. A process is spawned from
-- an executable; a DLL, whose delegate comes from rtl_init_dll, is left open, and its run is taken to fail.
pub mod Spawn
pub mod Reuse
pub mod Entries
pub mod Scheduling
use zka.Common.{
  ℕ, zero, suc, ◌+◌, ◌-◌, ◌^◌, ◌%◌, Bool, true, false, not, ◌&&◌, ◌||◌, Option, none, some, List,
  ltb, ◌==◌, if◌then◌else◌, update, set,
}
use zka.Memory.BitMap.{Machine}
use zka.Memory.Heap.{new_heap, is_valid_heap}
use zka.Sched.Thread
use zka.Sched.Thread.{
  HardwareThread, is_invalid, is_boot, is_reserved, switch, capacity, thread_at, max_ap,
}
use zka.Sched.Process.{
  Status, starting, Process, Kernel, Run, ok, fault, halted, Cmd, pure, and_then, ◌>>=◌, ◌>>◌, skip,
  put, get, modify, exit, crash, is_dll, can_be_scheduled, error_process_fault,
}

-- What the model is given: where the bitmaps are, and the sizes of two structures of the processor.
pub record Platform : Type 0 where
  pub machine : Machine
  pub pde_size : ℕ
  pub stack_frame_size : ℕ

-- The results of Spawn: a process id, kProcessInvalidID and -kErrorProcessFault.
pub data Spawned : Type 0 where
  assigned : ℕ → Spawned
  invalid_id process_fault : Spawned

-- `kSchedProcessLimitPerTeam`, and `AffinityKind::kStandard`.
abbrev pub process_limit : ℕ
process_limit = 32

abbrev pub standard_affinity : ℕ
standard_affinity = 1000

-- A call of mm_new_heap; where the search for a bitmap is left open, the run is taken to fail.
unfoldable pub allocate : Platform → ℕ → Bool → Bool → Cmd ℕ
allocate k size wr user s = elim (new_heap k.machine s.memory size wr user) [
  | none ↦ fault
  | some (p, m) ↦ ok p (record s { memory = m })
]

-- `mTeam.mProcessCount` is signed: from 2 ^ 63 on it is below every limit.
abbrev pub above_limit : ℕ → Bool
above_limit count = ltb process_limit count && ltb count (2 ^ 63)

-- The last part of Spawn, which gives the process its id and its slot.
unfoldable pub enlist : ℕ → Cmd Spawned
enlist p s =
    let id = s.process_count in
    let counted = record s { process_count = (id + 1) % 2 ^ 64 } in
    let q = record (s.processes p) {
      process_id = id;
      status = starting;
      ptime = standard_affinity;
    } in
    if above_limit id
    then ok invalid_id s
    else ok (assigned id)
        (record counted { processes = update s.processes p q; slots = update s.slots id p })

-- The failure of an allocation that Spawn makes.
unfoldable pub spawn_fails : (ℕ → ℕ) → ℕ → Cmd Spawned
spawn_fails outside p = crash outside p >> pure process_fault

-- UserProcessScheduler::Spawn. The reserved stack comes from `operator new[]`, which asks for at least
-- one byte. Where it comes to the delegate of a DLL (rtl_init_dll), the run is left open and taken to fail.
unfoldable pub spawn : (ℕ → ℕ) → Platform → ℕ → Cmd Spawned
unfolding allocate enlist spawn_fails
spawn outside k p =
    if p == 0
    then pure invalid_id
    else allocate k k.pde_size false true >>= λ vm.
        put p (λ q. record q { vm_register = vm })
        >> (if vm == 0
            then spawn_fails outside p
            else allocate k k.stack_frame_size true true >>= λ frame.
                put p (λ q. record q { stack_frame = frame })
                >> (if frame == 0
                    then spawn_fails outside p
                    else get p >>= λ q.
                        if is_dll q.kind
                        then (λ s. fault)
                        else allocate k (if q.stack_size == 0 then 1 else q.stack_size) true false
                          >>= λ stack.
                              put p (λ q. record q { stack_reserve = stack })
                              >> (if stack == 0 then spawn_fails outside p else enlist p)))

-- Array::Count over the team's 32 slots: how many are not null.
unfoldable pub count_slots : ℕ → (ℕ → ℕ) → ℕ
count_slots zero slots = 0
count_slots (suc n) slots = (if slots n == 0 then 0 else 1) + count_slots n slots

-- UserProcessScheduler::Remove. The list's count is compared with the id.
unfoldable pub remove : (ℕ → ℕ) → ℕ → Cmd Bool
remove outside id s =
    if ltb (count_slots process_limit s.slots) id
    then ok false s
    else if s.slots id == 0
    then fault
    else (exit outside (s.slots id) 0 >> pure true) s

-- The body of the loop of UserProcessHelper::Switch for a thread that is no boot thread, reserved or
-- invalid: the process's time goes to the thread, and back if the switch fails.
abbrev pub switch_thread :
    Kernel → List HardwareThread → ℕ → HardwareThread → (image stack frame pid : ℕ) → Kernel
switch_thread s ts i t image stack frame pid =
    let timed = record t { ptime = (s.processes (s.slots pid)).ptime } in
    let (c, t', ret) = switch s.cores timed image stack frame pid in
    let back = if ret then t' else record t' { ptime = t.ptime } in
    record s { threads = set ts i back; cores = c }

-- The loop of UserProcessHelper::Switch: `n` rounds are left, from thread `i` on. The id is written
-- through TheCurrentPID(), which is null without a current process and else leads to a copy of the
-- current process's id on the stack, which no code reads.
unfoldable pub switch_loop : ℕ → ℕ → (image stack frame pid : ℕ) → Cmd Bool
unfolding capacity thread_at
switch_loop zero i image stack frame pid s = ok false s
switch_loop (suc n) i image stack frame pid s =
    let (ts, thread) = thread_at s.threads i in
    let seen = record s { threads = ts } in
    let rest = switch_loop n (i + 1) image stack frame pid in
    if not (ltb i (capacity s.threads)) then ok false s else elim thread [
      | none ↦ rest seen
      | some t ↦
          if is_invalid t.kind || is_boot t.kind || is_reserved t.kind
          then rest seen
          else if s.current == 0 || s.slots pid == 0
          then fault
          else rest (switch_thread seen ts i t image stack frame pid)
    ]

-- UserProcessHelper::Switch; ids are not negative.
unfoldable pub switch_process : (image stack frame pid : ℕ) → Cmd Bool
switch_process image stack frame pid s =
    if stack == 0 || frame == 0 || image == 0
    then ok false s
    else if not (is_valid_heap s.memory image)
    then ok false s
    else switch_loop max_ap 0 image stack frame pid s

-- One slot of UserProcessScheduler::Run.
unfoldable pub run_slot : (ℕ → ℕ) → ℕ → Cmd (Unit {0})
run_slot outside i s =
    let p = s.slots i in
    let q = s.processes p in
    let stack = (q.stack_reserve + q.stack_size + 2 ^ 64 - 1) % 2 ^ 64 in
    let start =
      modify (λ s. record s { current = p })
      >> put p (λ q. record q { ptime = q.affinity })
      >> switch_process q.code stack q.stack_frame q.process_id in
    if not (p == 0) && can_be_scheduled q
    then (start >>= λ done. if done then skip else crash outside p) s
    else if p == 0
    then fault
    else put p (λ q. record q { ptime = (q.ptime + 2 ^ 64 - 1) % 2 ^ 64 }) s

unfoldable pub run_loop : (ℕ → ℕ) → ℕ → ℕ → Cmd (Unit {0})
unfolding run_slot
run_loop outside zero i = skip
run_loop outside (suc n) i = run_slot outside i >> run_loop outside n (i + 1)

-- UserProcessScheduler::Run, with Array::Empty as it is written: the list is called empty if it holds
-- a process.
unfoldable pub run : (ℕ → ℕ) → Cmd ℕ
run outside s =
    if ltb 0 (count_slots process_limit s.slots)
    then ok 0 s
    else (run_loop outside process_limit 0 >> pure process_limit) s
