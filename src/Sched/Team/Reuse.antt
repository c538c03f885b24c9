-- ===== src/Sched/Team/Reuse.antt =====
-- What the team holds after a process has left it: UserProcess::Exit gives its count back, but not its
-- slot, and Spawn takes ids from the count.
use zka.Common.{ℕ, ◌≡◌, ◌≢◌, ◌∙◌, ap, arith}
use mathlib.Core.Path.{subst}
use zka.Sched.Process.{Kernel, ok, exit}
use zka.Sched.Process.Effect.{Ensures}
use zka.Sched.Process.Exit.{Ended, exit-Ended}
use zka.Sched.Team.{Platform, assigned, spawn}
use zka.Sched.Team.Scheduling.{Returning}
use zka.Sched.Team.Spawn.{Enlisted, SpawnedAs, spawn-SpawnedAs}

module _ (outside : ℕ → ℕ) where
  spawn-Enlisted :
      (k : Platform) (p id : ℕ) (s t : Kernel)
      → spawn outside k p s ≡ ok (assigned id) t
      → Enlisted s p id t
  spawn-Enlisted k p id s t e =
      (subst (Returning (SpawnedAs s p)) e (spawn-SpawnedAs outside k p s)).0

  exit-Ended_ok : (p code : ℕ) (s t : Kernel) → exit outside p code s ≡ ok tt t → Ended s p code t
  exit-Ended_ok p code s t e = subst (Ensures (Ended s p code)) e (exit-Ended outside p code s)

  -- Where two processes are spawned and then the first one ends, it keeps its slot, though it is
  -- finished and has given its id back; and the next process is given the id of the second one,
  -- which still has that id, and takes the second one's slot. The spawn of a DLL is left open in
  -- the model, and nothing is said of it.
  pub spawn_takes_id :
      (k : Platform) (p q r i j l code : ℕ) (s t u v w : Kernel)
      → spawn outside k p s ≡ ok (assigned i) t
      → spawn outside k q t ≡ ok (assigned j) u
      → exit outside p code u ≡ ok tt v
      → spawn outside k r v ≡ ok (assigned l) w
      → q ≢ p
      → q ≢ r
      → (v.slots i ≡ p)
        × ((v.processes p).process_id ≡ 0)
        × (l ≡ j)
        × ((w.processes q).process_id ≡ j)
        × (w.slots j ≡ r)
  spawn_takes_id k p q r i j l code s t u v w first second ends third hp hr =
      let a = spawn-Enlisted k p i s t first in
      let b = spawn-Enlisted k q j t u second in
      let c = exit-Ended_ok p code u v ends in
      let d = spawn-Enlisted k r l v w third in
      let b_id = b.id_count in
      let a_id = a.id_count in
      let a_count = a.count in
      let b_count = b.count in
      let c_count = c.count in
      let same : l ≡ j = d.id_count ∙ omega arith in
      let other : i ≢ j = omega arith in
      (
        ap (λ (g : ℕ → ℕ). g i) c.slots ∙ b.slot i ∙ ground (arith, a.slot i, other),
        c.id,
        same,
        ground (arith, d.others q, c.others q, b.own_id),
        d.slot j ∙ ground (arith, same),
      )
