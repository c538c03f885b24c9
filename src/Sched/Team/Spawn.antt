-- ===== src/Sched/Team/Spawn.antt =====
-- How a process enters the team (UserProcessScheduler::Spawn), and what follows when one has left it.
use zka.Common.{
  update_self, ℕ, ◌+◌, ◌%◌, ◌^◌, ◌≡◌, refl, ap, ◌∙◌, arith, Bool, true, false, ◌==◌, if◌then◌else◌,
  Bool-cases, inl, inr, update, Option, none, some,
}
use zka.Memory.{Memory}
use zka.Memory.Heap.{new_heap}
use zka.Sched.Process.{
  starting, Process, Kernel, Run, ok, fault, halted, Cmd, and_then, ◌>>◌, pure, put, exit, crash,
  is_running, is_dll, error_process_fault,
}
use zka.Sched.Process.Effect.{Ensures}
use zka.Sched.Process.Exit.{Ended, exit-Ended}
use zka.Sched.Team.Scheduling.{Returning}
use zka.Sched.Team.{
  Platform, Spawned, assigned, invalid_id, process_fault, standard_affinity, allocate, above_limit,
  enlist, spawn_fails, spawn,
}

-- The process at `p` has been given the team's count as its id, within the limit of 32, and the slot
-- of that number; the count has gone up by one, and no other slot has changed.
pub record Enlisted (s : Kernel) (p id : ℕ) (t : Kernel) : Type 0 where
  pub id_count : id ≡ s.process_count
  pub within : above_limit id ≡ false
  pub slot : (i : ℕ) → t.slots i ≡ (if i == id then p else s.slots i)
  pub count : t.process_count ≡ (s.process_count + 1) % 2 ^ 64
  pub own_id : (t.processes p).process_id ≡ id
  pub status : (t.processes p).status ≡ starting
  pub time : (t.processes p).ptime ≡ standard_affinity
  pub others : (a : ℕ) → t.processes a ≡ (if a == p then t.processes p else s.processes a)

-- Two processes with the same name, image, kind and size of the stack.
abbrev pub Kept : Process → Process → Type 0
Kept q r =
    (r.name ≡ q.name)
    × (r.code ≡ q.code)
    × (r.blob ≡ q.blob)
    × (r.kind ≡ q.kind)
    × (r.stack_size ≡ q.stack_size)

-- What a result of Spawn says of the state: a process that was given an id is enlisted, with its image, and one
-- that was not is in no slot that it was not in before.
abbrev pub SpawnedAs : Kernel → ℕ → Spawned → Kernel → Type 0
SpawnedAs s p (assigned id) t = Enlisted s p id t × Kept (s.processes p) (t.processes p)
SpawnedAs s p invalid_id t = (t.slots ≡ s.slots) × (t.process_count ≡ s.process_count)
SpawnedAs s p process_fault t = t.slots ≡ s.slots

-- Between `s` and `u` only the memory and the process at `p` have changed.
record Prepared (s : Kernel) (p : ℕ) (u : Kernel) : Type 0 where
  slots : u.slots ≡ s.slots
  count : u.process_count ≡ s.process_count
  others : (a : ℕ) → u.processes a ≡ (if a == p then u.processes p else s.processes a)
  image : Kept (s.processes p) (u.processes p)

Kept-trans : (q r x : Process) → Kept q r → Kept r x → Kept q x
Kept-trans q r x (a, b, c, d, e) (f, g, h, i, j) = (f ∙ a, g ∙ b, h ∙ c, i ∙ d, j ∙ e)

Kept-update :
    (processes : ℕ → Process) (p : ℕ) (q r : Process) → Kept q r → Kept q (update processes p r p)
Kept-update processes p q r h = rw (update_self processes p r) h

enlist-SpawnedAs :
    (s : Kernel) (p : ℕ) (u : Kernel) → Prepared s p u → Returning (SpawnedAs s p) (enlist p u)
unfolding enlist
enlist-SpawnedAs s p u h = elim (Bool-cases (above_limit u.process_count)) [
  | inl over ↦ rw over (h.slots, h.count)
  | inr under ↦ rw under (
    record {
      id_count = h.count;
      within = under;
      slot = λ i. ground (arith, ap (λ (g : ℕ → ℕ). g i) h.slots);
      count = ap (λ (n : ℕ). (n + 1) % 2 ^ 64) h.count;
      own_id = ground arith;
      status = ground arith;
      time = ground arith;
      others = λ a. ground (arith, h.others a);
    },
    Kept-update u.processes p (s.processes p) _ h.image,
  )
]

spawn_fails-SpawnedAs :
    (outside : ℕ → ℕ) (s : Kernel) (p : ℕ) (u : Kernel)
    → Prepared s p u
    → Returning (SpawnedAs s p) (spawn_fails outside p u)
unfolding spawn_fails crash
spawn_fails-SpawnedAs outside s p u h = elim (Bool-cases (is_running (u.processes p).status)) [
  | inl running ↦
      rw running
        (ended (exit outside p error_process_fault u) (exit-Ended outside p error_process_fault u))
  | inr other ↦ rw other h.slots
]
  where
    ended :
        (r : Run (Unit {0}))
        → Ensures (Ended u p error_process_fault) r
        → Returning (SpawnedAs s p) (and_then r (λ _. pure process_fault))
    ended (ok a t) e = e.slots ∙ h.slots
    ended fault e = tt
    ended (halted c) e = tt

pub allocate-bind :
    {A : Type 0} (k : Platform) (size : ℕ) (wr user : Bool) (s : Kernel) (Q : A → Kernel → Type 0)
    (f : ℕ → Cmd A)
    → ((v : ℕ) (m : Memory) → Returning Q (f v (record s { memory = m })))
    → Returning Q (and_then (allocate k size wr user s) f)
unfolding allocate
allocate-bind k size wr user s Q f h = outcome (new_heap k.machine s.memory size wr user)
  where
    outcome :
        (o : Option (ℕ × Memory))
        → Returning Q
            (and_then (elim o [ none ↦ fault | some (p, m) ↦ ok p (record s { memory = m }) ]) f)
    outcome none = tt
    outcome (some (p, m)) = h p m

if_null :
    (v : ℕ) (c d : Cmd Spawned) (u : Kernel) (Q : Spawned → Kernel → Type 0)
    → Returning Q (c u)
    → Returning Q (d u)
    → Returning Q ((if v == 0 then c else d) u)
if_null v c d u Q hc hd = elim (Bool-cases (v == 0)) [ inl e ↦ rw e hc | inr e ↦ rw e hd ]

module _ (s : Kernel) (p : ℕ) where
  Prepared-start : Prepared s p s
  Prepared-start = record {
    slots = refl;
    count = refl;
    others = λ a. ground arith;
    image = (refl, refl, refl, refl, refl);
  }

  Prepared-memory :
      (u : Kernel) (m : Memory) → Prepared s p u → Prepared s p (record u { memory = m })
  Prepared-memory u m h = record {
    slots = h.slots;
    count = h.count;
    others = h.others;
    image = h.image;
  }

  Prepared-put :
      (u : Kernel) (q : Process)
      → Kept (u.processes p) q
      → Prepared s p u
      → Prepared s p (record u { processes = update u.processes p q })
  Prepared-put u q kept h = record {
    slots = h.slots;
    count = h.count;
    others = λ a. ground (arith, h.others a);
    image =
        Kept-update u.processes p (s.processes p) q
          (Kept-trans (s.processes p) (u.processes p) q h.image kept);
  }

  -- One stage of Spawn: an allocation, kept in a field of the process, and what follows.
  stage :
      (outside : ℕ → ℕ) (k : Platform) (size : ℕ) (wr user : Bool) (keep : ℕ → Process → Process)
      (u : Kernel) (rest : Cmd Spawned)
      → ((a : ℕ) (q : Process) → Kept q (keep a q))
      → Prepared s p u
      → ((v : Kernel) → Prepared s p v → Returning (SpawnedAs s p) (rest v))
      → Returning (SpawnedAs s p) (
          and_then
            (allocate k size wr user u)
            (λ a. put p (keep a) >> (if a == 0 then spawn_fails outside p else rest)))
  stage outside k size wr user keep u rest same h next = allocate-bind k size wr user u _ _ λ a m.
      let w = record u { memory = m } in
      let h' =
        Prepared-put w (keep a (w.processes p)) (same a (w.processes p)) (Prepared-memory u m h) in
      if_null a (spawn_fails outside p) rest _ _ (spawn_fails-SpawnedAs outside s p _ h')
        (next _ h')

-- Whatever memory it runs in, Spawn, whenever it returns, gives a process that it accepts the
-- team's count as its id and the slot of that number, starting and at the standard time, with an id
-- of at most 32 (or from 2 ^ 63 on, where the signed id is negative), and keeps its name, image,
-- kind and size of the stack; a process that it refuses for want of room changes no slot and no
-- count, and one that it crashes changes no slot. The spawn of a DLL is left open in the model, and
-- nothing is said of it.
pub spawn-SpawnedAs :
    (outside : ℕ → ℕ) (k : Platform) (p : ℕ) (s : Kernel)
    → Returning (SpawnedAs s p) (spawn outside k p s)
unfolding spawn
spawn-SpawnedAs outside k p s =
    if_null p _ _ s _ (refl, refl)
      (stage s p outside k k.pde_size false true (λ a q. record q { vm_register = a }) s _
        (λ a q. (refl, refl, refl, refl, refl)) (Prepared-start s p)
        λ u hu.
          stage s p outside k k.stack_frame_size true true (λ a q. record q { stack_frame = a }) u _
            (λ a q. (refl, refl, refl, refl, refl)) hu
            λ v hv.
              let size =
                if (v.processes p).stack_size == 0 then 1 else (v.processes p).stack_size in
              elim (Bool-cases (is_dll (v.processes p).kind)) [
                | inl dll ↦ rw dll tt
                | inr other ↦ rw other (
                    stage s p outside k size true false (λ a q. record q { stack_reserve = a }) v _
                      (λ a q. (refl, refl, refl, refl, refl)) hv (enlist-SpawnedAs s p))
              ])
