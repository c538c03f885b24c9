-- ===== src/Sched/Thread.antt =====
-- Hardware threads and their pool, dev/ZKAKit/src/HardwareThreadScheduler.cc, with the registration of
-- a process on AMD64, dev/ZKAKit/HALKit/AMD64/HalCoreScheduler.cc and HalAP.cc. Pointers are numbers
-- and null is 0.
pub mod Switch
pub mod Pool
use zka.Common.{
  ℕ, zero, suc, ◌+◌, ◌%◌, Bool, true, false, not, ◌&&◌, ◌||◌, Option, none, some, List, [], ◌∷◌,
  ltb, leb, ◌==◌, if◌then◌else◌, length, get_or, set, update,
}

-- ThreadKind.
pub data ThreadKind : Type 0 where
  ap_system_reserved ap_standard ap_fallback ap_boot invalid_ap : ThreadKind

abbrev pub is_invalid : ThreadKind → Bool
is_invalid invalid_ap = true
is_invalid _ = false

abbrev pub is_boot : ThreadKind → Bool
is_boot ap_boot = true
is_boot _ = false

abbrev pub is_reserved : ThreadKind → Bool
is_reserved ap_system_reserved = true
is_reserved _ = false

-- The fields of HardwareThread; the process id is the one of a process that was switched to.
pub record HardwareThread : Type 0 where
  pub stack : ℕ
  pub kind : ThreadKind
  pub source_pid : ℕ
  pub wakeup : Bool
  pub busy : Bool
  pub ptime : ℕ

-- A default constructed thread; its process id is -1, which no test reads.
abbrev pub new_thread : HardwareThread
new_thread = record {
  stack = 0;
  kind = ap_standard;
  source_pid = 0;
  wakeup = false;
  busy = false;
  ptime = 0;
}

-- PROCESS_CONTROL_BLOCK.
pub record ControlBlock : Type 0 where
  pub frame : ℕ
  pub stack : ℕ
  pub image : ℕ

-- The machine: what the frames in memory hold, the control blocks, and the counter that all threads
-- share in IsBusy (a signed 64-bit number, which no run of the kernel brings to its end).
pub record Cores : Type 0 where
  -- `stack_ptr->SP` and `stack_ptr->BP` of a frame.
  pub sp : ℕ → ℕ
  pub bp : ℕ → ℕ
  pub process_blocks : ℕ → ControlBlock
  pub busy_timer : ℕ

-- hal_check_stack.
unfoldable pub check_stack : Cores → ℕ → Bool
check_stack c frame = if frame == 0 then false else not (c.sp frame == 0) && not (c.bp frame == 0)

abbrev pub process_limit : ℕ
process_limit = 32

-- mp_register_process, whose check of its arguments does nothing in a build without `__DEBUG__`.
unfoldable pub register_process : Cores → (image stack frame pid : ℕ) → Cores × Bool
register_process c image stack frame pid =
    let b : ControlBlock = record { frame = frame; stack = stack; image = image } in
    (record c { process_blocks = update c.process_blocks (pid % process_limit) b }, true)

-- mp_get_current_context.
unfoldable pub get_current_context : Cores → ℕ → ℕ
get_current_context c pid = (c.process_blocks (pid % process_limit)).frame

-- HardwareThread::IsBusy: the counter goes up by one with every call, and once it has passed the
-- thread's time the thread is free and the counter starts again.
unfoldable pub is_busy : Cores → HardwareThread → Cores × HardwareThread × Bool
is_busy c t =
    if ltb t.ptime c.busy_timer
    then (record c { busy_timer = 1 }, record t { busy = false }, false)
    else (record c { busy_timer = c.busy_timer + 1 }, t, t.busy)

-- HardwareThread::operator bool.
abbrev pub is_free : HardwareThread → Bool
is_free t = not (t.stack == 0) && not t.busy

-- HardwareThread::Switch, from its check of the stack on.
unfoldable pub enter :
    Cores → HardwareThread → (image stack frame pid : ℕ) → Cores × HardwareThread × Bool
unfolding check_stack register_process
enter c t image stack frame pid =
    let (c', ret) = register_process c image stack frame pid in
    if check_stack c frame
    then (
      c',
      record t { stack = frame; source_pid = pid; busy = if ret then true else t.busy },
      ret,
    )
    else (c, t, false)

-- HardwareThread::Switch.
unfoldable pub switch :
    Cores → HardwareThread → (image stack frame pid : ℕ) → Cores × HardwareThread × Bool
unfolding enter is_busy
switch c t image stack frame pid =
    let (c', t', busy) = is_busy c t in
    if frame == 0 || image == 0 || stack == 0
    then (c, t, false)
    else if not t.wakeup
    then (c, t, false)
    else if busy
    then (c', t', false)
    else enter c' t' image stack frame pid

abbrev pub max_ap : ℕ
max_ap = 8

-- Array::Count of dev/ZKAKit/NewKit/Array.h: how many elements are true.
unfoldable pub count : List HardwareThread → ℕ
count [] = 0
count (t ∷ ts) = (if is_free t then 1 else 0) + count ts

-- Array::Empty, as written.
unfoldable pub empty : List HardwareThread → Bool
unfolding count
empty ts = ltb 0 (count ts)

-- HardwareThreadScheduler::Capacity.
unfoldable pub capacity : List HardwareThread → ℕ
unfolding empty
capacity ts = if empty ts then 0 else max_ap

-- HardwareThreadScheduler::operator[]: the pool, where the first thread may become the boot thread,
-- and the thread; `none` is the null pointer behind the pool's end.
unfoldable pub thread_at : List HardwareThread → ℕ → List HardwareThread × Option HardwareThread
thread_at ts zero =
    let t = get_or ts 0 new_thread in
    if is_reserved t.kind
    then (ts, some t)
    else (set ts 0 (record t { kind = ap_boot }), some (record t { kind = ap_boot }))
thread_at ts (suc i) =
    if leb max_ap (suc i) then (ts, none) else (ts, some (get_or ts (suc i) new_thread))
