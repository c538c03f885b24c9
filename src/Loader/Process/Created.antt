-- ===== src/Loader/Process/Created.antt =====
-- What rtl_create_process, of dev/ZKAKit/src/CodeMgr.cc and of dev/ZKAKit/src/PEFCodeMgr.cc, does to the team.
use mathlib.Core.Path.{subst}
use zka.Common.{
  sym, update_self, ◌-◌, ℕ, ◌+◌, ◌%◌, ◌^◌, ◌≡◌, refl, ap, ◌∙◌, inl, inr, true, false, Option, none,
  some, List, if◌then◌else◌, ◌==◌, Bool-cases, Option-cases, update, arith,
}
use zka.Memory.{zero_bytes}
use zka.NewKit.Utils.{at}
use zka.Memory.Heap.{Outcome, done, stopped, delete_heap}
use zka.Nefs.Volume.{Result}
use zka.Nefs.Volume
use zka.Sched.Process.{
  no_kind, can_be_scheduled, Kind, Process, Kernel, Run, ok, fault, halted, Cmd, and_then, delete,
}
use zka.Sched.Team.{Platform, Spawned, assigned, invalid_id, process_fault, spawn}
use zka.Sched.Team.Scheduling.{Returning}
use zka.Sched.Team.Spawn.{Enlisted, SpawnedAs, Kept, allocate-bind, spawn-SpawnedAs}
use zka.Loader.Pef.{Loader, find_symbol, find_start, pef_data}
use zka.Loader.Process.{
  cleared_size, cleared, name_of, Objects, drop_invalid, spawn_new, create_kernel_process,
  kernel_process, create_process, create_started, stack_size_symbol,
}

-- A process without an image, a blob and a kind, which the scheduler does not choose, with a size of the stack.
abbrev pub IsBlank : ℕ → Process → Type 0
IsBlank size q =
    (q.code ≡ 0)
    × (q.blob ≡ 0)
    × (q.kind ≡ no_kind)
    × (q.stack_size ≡ size)
    × (can_be_scheduled q ≡ false)

-- A process that was given an id is enlisted, at some address, and is blank; without an id no slot has changed, and
-- where the id is kProcessInvalidID the count has not either.
abbrev pub CreatedAs : ℕ → Kernel → Spawned → Kernel → Type 0
CreatedAs size s (assigned id) t = (p : ℕ) × Enlisted s p id t × IsBlank size (t.processes p)
CreatedAs size s invalid_id t = (t.slots ≡ s.slots) × (t.process_count ≡ s.process_count)
CreatedAs size s process_fault t = t.slots ≡ s.slots

-- What the size of the stack is and what is cleared, before the process is spawned.
abbrev IsCleared : ℕ → Process → Type 0
IsCleared size q = (q.code ≡ 0) × (q.blob ≡ 0) × (q.kind ≡ no_kind) × (q.stack_size ≡ size)

no_code : (q : Process) → q.code ≡ 0 → can_be_scheduled q ≡ false
unfolding can_be_scheduled
no_code q e = ground arith

IsBlank-kept : (size : ℕ) (q r : Process) → IsCleared size q → Kept q r → IsBlank size r
IsBlank-kept size q r (a, b, c, d) (_, f, g, h, i) = (f ∙ a, g ∙ b, h ∙ c, i ∙ d, no_code r (f ∙ a))

abbrev MayBeCleared : ℕ → Option Process → Type 0
MayBeCleared size none = Unit
MayBeCleared size (some q) = IsCleared size q

kernel_process-IsCleared :
    (outside : ℕ → ℕ) (k : Platform) (o : Objects) (main : ℕ) (text : List ℕ) (q : Process)
    → MayBeCleared 0 (kernel_process outside k o main text q)
unfolding kernel_process cleared
kernel_process-IsCleared outside k o main text q = elim (Option-cases (name_of text)) [
  | inl e ↦ rw (MayBeCleared, e) tt
  | inr e ↦ rw (MayBeCleared, e.1) (refl, refl, refl, refl)
]

Returning-bind :
    {A B : Type 0} (P : A → Kernel → Type 0) (Q : B → Kernel → Type 0) (r : Run A) (f : A → Cmd B)
    → Returning P r
    → ((a : A) (t : Kernel) → P a t → Returning Q (f a t))
    → Returning Q (and_then r f)
Returning-bind P Q (ok a t) f h k = k a t h
Returning-bind P Q fault f h k = tt
Returning-bind P Q (halted c) f h k = tt

delete-keeps :
    (outside : ℕ → ℕ) (p : ℕ) (s : Kernel)
    → Returning
        (λ _ t. (t.slots ≡ s.slots) × (t.process_count ≡ s.process_count))
        (delete outside p s)
unfolding delete
delete-keeps outside p s = outcome (delete_heap outside s.memory p)
  where
    outcome :
        (o : Outcome ℕ)
        → Returning
            (λ _ t. (t.slots ≡ s.slots) × (t.process_count ≡ s.process_count))
            (elim o [
              | done status m ↦ ok tt (record s { memory = m })
              | stopped code ↦ halted code
            ])
    outcome (done status m) = (refl, refl)
    outcome (stopped code) = tt

drop_invalid-CreatedAs :
    (outside : ℕ → ℕ) (size p : ℕ) (s w : Kernel)
    → IsCleared size (w.processes p)
    → (w.slots ≡ s.slots)
    → (w.process_count ≡ s.process_count)
    → ((a : ℕ) → w.processes a ≡ (if a == p then w.processes p else s.processes a))
    → (r : Spawned) (t : Kernel) → SpawnedAs w p r t
    → Returning (CreatedAs size s) (drop_invalid outside p r t)
unfolding drop_invalid
drop_invalid-CreatedAs outside size p s w clear slots count others (assigned id) t (h, same) = (
  p,
  record {
    id_count = h.id_count ∙ count;
    within = h.within;
    slot = λ i. h.slot i ∙ ap (λ (g : ℕ → ℕ). if i == id then p else g i) slots;
    count = h.count ∙ ap (λ (n : ℕ). (n + 1) % 2 ^ 64) count;
    own_id = h.own_id;
    status = h.status;
    time = h.time;
    others = λ a. ground (arith, h.others a, others a);
  },
  IsBlank-kept size (w.processes p) (t.processes p) clear same,
)
drop_invalid-CreatedAs outside size p s w clear slots count others invalid_id t h =
    Returning-bind _ (CreatedAs size s) (delete outside p t) _ (delete-keeps outside p t)
      λ a u k. (k.0 ∙ h.0 ∙ slots, k.1 ∙ h.1 ∙ count)
drop_invalid-CreatedAs outside size p s w clear slots count others process_fault t h = h ∙ slots

spawn_new-CreatedAs :
    (outside : ℕ → ℕ) (k : Platform) (o : Objects) (filled : Process → Option Process) (size : ℕ)
    (s : Kernel)
    → MayBeCleared size (filled o.made)
    → Returning (CreatedAs size s) (spawn_new outside k o filled s)
unfolding spawn_new
spawn_new-CreatedAs outside k o filled size s clear =
    allocate-bind k o.process_size true false s (CreatedAs size s) _ λ p m.
      elim (Option-cases (filled o.made)) [
        | inl e ↦ rw e tt
        | inr e ↦ elim (Bool-cases (p == 0)) [
          | inl z ↦ rw (e.1, z) tt
          | inr z ↦
              let w = record s {
                memory = zero_bytes m (p + o.process_size) (cleared_size - o.process_size);
                processes = update s.processes p e.0;
              } in
              let here = sym (update_self s.processes p e.0) in
              rw (e.1, z)
                (Returning-bind (SpawnedAs w p) (CreatedAs size s) (spawn outside k p w) _
                  (spawn-SpawnedAs outside k p w)
                  (drop_invalid-CreatedAs outside size p s w
                    (subst (IsCleared size) here (subst (MayBeCleared size) e.1 clear)) refl refl
                    (λ a. ground arith)))
        ]
      ]

-- A process is created from a function of the kernel, or none: whenever the call returns an id, it is the team's
-- count, and a process stands in the slot of that number; if it returns none, every slot is as before.
pub create_kernel_process-CreatedAs :
    (outside : ℕ → ℕ) (k : Platform) (o : Objects) (main : ℕ) (text : List ℕ) (s : Kernel)
    → Returning (CreatedAs 0 s) (create_kernel_process outside k o main text s)
unfolding create_kernel_process
create_kernel_process-CreatedAs outside k o main text s = elim (Bool-cases (at text 0 == 0)) [
  | inl e ↦ rw e (refl, refl)
  | inr e ↦ rw e (
      spawn_new-CreatedAs outside k o (kernel_process outside k o main text) 0 s
        (kernel_process-IsCleared outside k o main text o.made))
]

module _ (outside : ℕ → ℕ) (k : Platform) (o : Objects) (read : List ℕ → Result (Option (List ℕ)))
    (behind : List ℕ) (exec : Loader) (kind : Kind) (s : Kernel) where
  pub create_process-no_size :
      (code : List ℕ)
      → find_start read behind exec ≡ Volume.ok (some code)
      → find_symbol read behind exec (some stack_size_symbol) pef_data ≡ Volume.ok none
      → create_process outside k o read behind exec kind s ≡ fault
  unfolding create_process create_started
  create_process-no_size code start missing = rw (start, missing) refl
