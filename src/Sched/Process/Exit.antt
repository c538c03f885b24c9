-- ===== src/Sched/Process/Exit.antt =====
-- What the end of a process leaves behind (UserProcess::Exit and UserProcess::Crash).
use zka.Common.{
  ℕ, ◌+◌, ◌-◌, ◌%◌, ◌^◌, ◌≡◌, refl, sym, ap, arith, not, ltb, ◌==◌, if◌then◌else◌, update,
  Bool-cases, inl, inr,
}
use mathlib.Core.Path.{subst, fun_ext}
use zka.Memory.{Memory}
use zka.Memory.BitMap.{mm_free_bit_map}
use zka.Sched.Process.{
  killed, frozen, finished, Process, Kernel, Run, ok, fault, halted, ◌>>◌, is_dll, exit, mark,
  release, unload, unlink_dll, drop_stack, retire,
}
use zka.Sched.Process.Effect.{
  Ensures, Does, same, Does-then, delete-Does, when-Does, delete_valid-Does, then_same,
  delete_nodes-Does, fini_dll-Does,
}

-- What the parts of Exit do to a process.
abbrev change : ℕ → (Process → Process) → Kernel → Kernel
change p f s = record s { processes = update s.processes p (f (s.processes p)) }

abbrev marked : ℕ → ℕ → Kernel → Kernel
marked p code s =
    record (change p
      (λ q. record q { status = if ltb 0 code then killed else frozen; last_exit_code = code }) s) {
        last_exit_code = code;
      }

abbrev unloaded : ℕ → Kernel → Kernel
unloaded p = change p (λ r. record r { blob = 0; code = 0; stack_frame = 0 })

abbrev unlinked : ℕ → Kernel → Kernel
unlinked p =
    change p (λ r. record r { pef_dll_delegate = if is_dll r.kind then 0 else r.pef_dll_delegate })

abbrev retired : ℕ → Kernel → Kernel
retired p s = record (change p (λ q. record q { process_id = 0; status = finished }) s) {
  process_count = (s.process_count + 2 ^ 64 - 1) % 2 ^ 64;
}

update_own : (f : ℕ → Process) (p : ℕ) → update f p (f p) ≡ f
update_own f p = fun_ext (λ a. ground arith)

module _ (outside : ℕ → ℕ) (p : ℕ) where
  mark-Does : (code : ℕ) → Does (marked p code) (mark p code)
  unfolding mark
  mark-Does code s = refl

  release-Does : Does same (release outside p)
  unfolding release
  release-Does s =
      let vm = (s.processes p).vm_register in
      then_same outside _ (λ t. ok tt (record t { memory = (mm_free_bit_map t.memory vm).0 }))
        (delete_nodes-Does outside (s.processes p).memory_heap) (λ t. refl) s

  unload-Does : Does (unloaded p) (unload outside p)
  unfolding unload
  unload-Does s =
      let q = s.processes p in
      let images =
        then_same outside _ _ (delete_valid-Does outside q.code)
          (delete_valid-Does outside q.blob) in
      Does-then same (unloaded p) _ _ (λ t m. refl)
        (then_same outside _ _ images (delete_valid-Does outside q.stack_frame)) (λ t. refl) s

  unlink_dll-Does : Does (unlinked p) (unlink_dll outside p)
  unfolding unlink_dll
  unlink_dll-Does s = elim (Bool-cases (is_dll (s.processes p).kind)) [
    | inl dll ↦ rw dll (
        Does-then same (change p (λ r. record r { pef_dll_delegate = 0 })) _ _ (λ t m. refl)
          (fini_dll-Does outside (s.processes p).pef_dll_delegate) (λ t. refl) s)
    | inr other ↦ rw other (ap (λ g. record s { processes = g }) (sym (update_own s.processes p)))
  ]

  drop_stack-Does : Does same (drop_stack outside p)
  unfolding drop_stack
  drop_stack-Does s =
      let q = s.processes p in
      when-Does outside (not (q.stack_reserve == 0)) _ (delete-Does outside q.stack_reserve) s

  retire-Does : Does (retired p) (retire outside p)
  unfolding retire
  retire-Does s = delete-Does outside p (retired p s)

  exit-Does :
      (code : ℕ)
      → Does (λ s. retired p (unlinked p (unloaded p (marked p code s)))) (exit outside p code)
  unfolding exit
  exit-Does code =
      let f₁ = marked p code in
      let f₂ = λ (s : Kernel). unloaded p (f₁ s) in
      let f₃ = λ (s : Kernel). unlinked p (f₂ s) in
      let c₁ = mark p code >> release outside p in
      let c₂ = c₁ >> unload outside p in
      let c₃ = c₂ >> unlink_dll outside p in
      let c₄ = c₃ >> drop_stack outside p in
      let d₁ =
        Does-then f₁ same (mark p code) (release outside p) (λ t m. refl) (mark-Does code)
          release-Does in
      let d₂ = Does-then f₁ (unloaded p) c₁ (unload outside p) (λ t m. refl) d₁ unload-Does in
      let d₃ =
        Does-then f₂ (unlinked p) c₂ (unlink_dll outside p) (λ t m. refl) d₂ unlink_dll-Does in
      let d₄ = Does-then f₃ same c₃ (drop_stack outside p) (λ t m. refl) d₃ drop_stack-Does in
      Does-then f₃ (retired p) c₄ (retire outside p) (λ t m. refl) d₄ retire-Does

-- The state in which a process has ended with a code, but for the memory.
pub record Ended (s : Kernel) (p code : ℕ) (t : Kernel) : Type 0 where
  pub status : (t.processes p).status ≡ finished
  pub code_kept : (t.processes p).last_exit_code ≡ code
  pub image : ((t.processes p).code ≡ 0) × ((t.processes p).blob ≡ 0)
  pub frame : (t.processes p).stack_frame ≡ 0
  pub id : (t.processes p).process_id ≡ 0
  pub others : (a : ℕ) → t.processes a ≡ (if a == p then t.processes p else s.processes a)
  pub count : t.process_count ≡ (s.process_count + 2 ^ 64 - 1) % 2 ^ 64
  pub last : t.last_exit_code ≡ code
  pub slots : t.slots ≡ s.slots
  pub current : t.current ≡ s.current
  pub threads : t.threads ≡ s.threads
  pub cores : t.cores ≡ s.cores

Ended-effect :
    (s : Kernel) (p code : ℕ) (m : Memory)
    → Ended s p code (record (retired p (unlinked p (unloaded p (marked p code s)))) { memory = m })
Ended-effect s p code m = record {
  status = ground arith;
  code_kept = ground arith;
  image = (ground arith, ground arith);
  frame = ground arith;
  id = ground arith;
  others = λ a. ground arith;
  count = refl;
  last = refl;
  slots = refl;
  current = refl;
  threads = refl;
  cores = refl;
}

-- Whenever the end of a process returns, the process is finished, with its exit code in it and in
-- the kernel, and it has no image, stack frame or id; one process less is counted, modulo 2 ^ 64;
-- and every other process, the slots of the team (the process's own too), the current process and
-- the hardware threads are as before.
pub exit-Ended :
    (outside : ℕ → ℕ) (p code : ℕ) (s : Kernel) → Ensures (Ended s p code) (exit outside p code s)
exit-Ended outside p code s = ends (exit outside p code s) (exit-Does outside p code s)
  where
    ends :
        (r : Run (Unit {0}))
        → Ensures
            (λ t. t ≡ record (retired p (unlinked p (unloaded p (marked p code s)))) {
              memory = t.memory;
            })
            r
        → Ensures (Ended s p code) r
    ends (ok a t) e = subst (Ended s p code) (sym e) (Ended-effect s p code t.memory)
    ends fault e = tt
    ends (halted c) e = tt
