-- ===== src/Sched/Team/Entries.antt =====
-- The allocations of a process: UserProcess::New of dev/ZKAKit/src/UserProcessScheduler.cc and
-- UserProcess::Delete of dev/ZKAKit/KernelKit/UserProcessScheduler.inl.
use zka.Common.{
  ℕ, ◌+◌, ◌%◌, ◌^◌, ◌≡◌, ◌≢◌, refl, arith, Bool, true, false, not, ◌||◌, Option, none, some, List,
  [], ◌∷◌, ◌==◌, if◌then◌else◌, update, Bool-cases, inl, inr,
}
use zka.Memory.{Memory}
use zka.Memory.Heap.{done, stopped, delete_heap, error_success, error_internal}
use zka.Memory.Heap.Delete.{HasBlock, delete_heap_twice}
use zka.Sched.Process.{HeapNode, Kernel, ok, fault, halted, Cmd, ◌>>=◌}
use zka.Sched.Team.{Platform, allocate}
use zka.Sched.Team.Scheduling.{Returning}
use zka.Sched.Team.Spawn.{allocate-bind}

-- The size of UserProcessHeapList.
abbrev pub heap_list_size : ℕ
heap_list_size = 40

-- Where New links a node: its loop runs while the entry is null, and the first never is, so that the node
-- always becomes the second.
abbrev pub add_entry : List HeapNode → HeapNode → List HeapNode
add_entry [] n = n ∷ []
add_entry (h ∷ rest) n = h ∷ n ∷ []

-- What New returns: the pointer, if it was the first, and else an empty ErrorOr.
abbrev pub new_result : List HeapNode → ℕ → Option ℕ
new_result [] ptr = some ptr
new_result (h ∷ rest) ptr = none

-- The last part of New: the node is linked; one that was not allocated is written through null.
unfoldable pub link_entry : (p node ptr : ℕ) → Cmd (Option ℕ)
link_entry p node ptr s =
    let q = s.processes p in
    let entries = add_entry q.memory_heap (record { node = node; entry = ptr }) in
    if node == 0
    then fault
    else ok (new_result q.memory_heap ptr)
        (record s { processes = update s.processes p (record q { memory_heap = entries }) })

-- UserProcess::New.
unfoldable pub process_new : Platform → ℕ → (size pad : ℕ) → Cmd (Option ℕ)
unfolding allocate link_entry
process_new k p size pad = allocate k ((size + pad) % 2 ^ 64) true true >>= λ ptr.
    allocate k heap_list_size true false >>= λ node. link_entry p node ptr

-- The loop of Delete: whether a node holds the pointer.
unfoldable pub has_entry : List HeapNode → ℕ → Bool
has_entry [] ptr = false
has_entry (n ∷ rest) ptr = n.entry == ptr || has_entry rest ptr

-- UserProcess::Delete on AMD64; the status of mm_delete_heap is returned as a Boolean.
unfoldable pub process_delete : (ℕ → ℕ) → ℕ → Option ℕ → ℕ → Cmd Bool
unfolding has_entry
process_delete outside p none size s = ok false s
process_delete outside p (some ptr) size s =
    if size == 0
    then ok false s
    else if has_entry (s.processes p).memory_heap ptr
    then elim (delete_heap outside s.memory ptr) [
      | done status m ↦ ok (not (status == 0)) (record s { memory = m })
      | stopped code ↦ halted code
    ]
    else ok false s

-- Of the nodes that a process had, only the first is left, and a new one stands behind it.
pub record Entered (s : Kernel) (p : ℕ) (r : Option ℕ) (t : Kernel) : Type 0 where
  pub added : HeapNode
  pub list : (t.processes p).memory_heap ≡ add_entry (s.processes p).memory_heap added
  pub result : r ≡ new_result (s.processes p).memory_heap added.entry
  pub others : (a : ℕ) → t.processes a ≡ (if a == p then t.processes p else s.processes a)

-- Whenever UserProcess::New returns, a new node stands behind the first node of the process, or
-- alone if it had none, and all other nodes are no longer linked; the result is the new node's
-- allocation if it is alone, and empty otherwise; and no other process has changed.
pub process_new-Entered :
    (k : Platform) (p size pad : ℕ) (s : Kernel)
    → Returning (Entered s p) (process_new k p size pad s)
unfolding process_new
process_new-Entered k p size pad s = allocate-bind k _ true true s _ _ λ ptr m.
    allocate-bind k heap_list_size true false _ _ _ λ node m'. elim (Bool-cases (node == 0)) [
      | inl null ↦ rw null tt
      | inr there ↦ rw there (record {
        added = record { node = node; entry = ptr };
        list = ground arith;
        result = refl;
        others = λ a. ground arith;
      })
    ]

process_delete_lem :
    (outside : ℕ → ℕ) (p ptr size status : ℕ) (s : Kernel) (m : Memory)
    → size ≢ 0
    → has_entry (s.processes p).memory_heap ptr ≡ true
    → delete_heap outside s.memory ptr ≡ done status m
    → process_delete outside p (some ptr) size s ≡ ok (not (status == 0)) (record s { memory = m })
unfolding process_delete
process_delete_lem outside p ptr size status s m h there e =
    let some_bytes : (size == 0) ≡ false = ground arith in rw (some_bytes, there, e) refl

-- Where UserProcess::Delete is given a size above 0 and a pointer of the process, with room for its
-- block, that mm_delete_heap frees with success, it frees it and returns No; and a second call with
-- the same pointer frees nothing and returns Yes.
pub process_delete_twice :
    (outside : ℕ → ℕ) (p ptr size : ℕ) (s : Kernel) (m : Memory)
    → HasBlock ptr
    → size ≢ 0
    → has_entry (s.processes p).memory_heap ptr ≡ true
    → delete_heap outside s.memory ptr ≡ done error_success m
    → let t = record s { memory = m } in
      (process_delete outside p (some ptr) size s ≡ ok false t)
      × (process_delete outside p (some ptr) size t ≡ ok true t)
process_delete_twice outside p ptr size s m block some_bytes there e =
    let t = record s { memory = m } in
    let again = delete_heap_twice outside s.memory ptr block m e in
    (
      process_delete_lem outside p ptr size error_success s m some_bytes there e,
      process_delete_lem outside p ptr size error_internal t m some_bytes there again,
    )
