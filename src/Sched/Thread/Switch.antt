-- ===== src/Sched/Thread/Switch.antt =====
-- What HardwareThread::Switch does.
use zka.Common.{ℕ, ◌%◌, ◌≡◌, ◌≢◌, ◌↔◌, arith, true, false, not, ◌&&◌, ltb, ◌==◌, if◌then◌else◌}
use zka.Sched.Thread.{HardwareThread, Cores, switch, process_limit}

-- The thread can take a process: it is awake, and not busy or past its time.
abbrev pub IsReady : Cores → HardwareThread → Type 0
IsReady c t = (t.wakeup ≡ true) × ((t.busy && not (ltb t.ptime c.busy_timer)) ≡ false)

-- A switch of a hardware thread succeeds exactly when the image, the stack and the frame are not
-- null, the frame has both its stack pointers, and the thread is awake, and not busy or past its
-- time.
pub switch_iff :
    (c : Cores) (t : HardwareThread) (image stack frame pid : ℕ)
    → ((switch c t image stack frame pid).2 ≡ true) ↔ (
        (image ≢ 0)
        × (stack ≢ 0)
        × (frame ≢ 0)
        × (c.sp frame ≢ 0)
        × (c.bp frame ≢ 0)
        × (t.wakeup ≡ true)
        × ((t.busy && not (ltb t.ptime c.busy_timer)) ≡ false))
unfolding switch
switch_iff c t image stack frame pid = ((λ h. ground arith), λ h. ground arith)

-- A switch of a hardware thread that succeeds leaves the thread busy with the process on the new
-- frame, at its old kind and time, and the process's control block holds the frame, the stack and
-- the image; a switch that fails changes no control block, and neither the thread's frame nor its
-- process.
pub switch_lem :
    (c : Cores) (t : HardwareThread) (image stack frame pid : ℕ)
    → let (c', t', ret) = switch c t image stack frame pid in
      (t'.stack ≡ (if ret then frame else t.stack))
      × (t'.source_pid ≡ (if ret then pid else t.source_pid))
      × (t'.kind ≡ t.kind)
      × (t'.ptime ≡ t.ptime)
      × ((if ret then t'.busy else true) ≡ true)
      × ((a : ℕ)
          → c'.process_blocks a ≡ (
              if ret && a == pid % process_limit
              then record { frame = frame; stack = stack; image = image }
              else c.process_blocks a))
unfolding switch
switch_lem c t image stack frame pid =
    (ground arith, ground arith, ground arith, ground arith, ground arith, λ a. ground arith)
