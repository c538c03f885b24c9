-- ===== src/Sched/Process/Effect.antt =====
-- What the commands that end a process do to the state, but for the memory.
use zka.Common.{
  ℕ, ◌≡◌, refl, ap, ◌∙◌, Bool, true, false, not, ◌&&◌, List, [], ◌∷◌, ◌==◌, Bool-cases, inl, inr,
}
use zka.Memory.{Memory}
use zka.Memory.Heap.{Outcome, done, stopped, delete_heap, is_valid_heap}
use zka.Sched.Process.{
  HeapNode, Kernel, Run, ok, fault, halted, Cmd, and_then, ◌>>◌, when, delete, delete_valid,
  delete_nodes, fini_dll,
}

-- What a run that returns ensures of the state that it leaves.
abbrev pub Ensures {ℓ} : {A : Type 0} → (Kernel → Type ℓ) → Run A → Type ℓ
Ensures P (ok a s) = P s
Ensures P fault = Unit
Ensures P (halted c) = Unit

-- Whenever the command returns, it has changed the state by `f`, and the memory in some way.
abbrev pub Does : (Kernel → Kernel) → Cmd (Unit {0}) → Type 0
Does f c = (s : Kernel) → Ensures (λ t. t ≡ record (f s) { memory = t.memory }) (c s)

abbrev pub SparesMemory : (Kernel → Kernel) → Type 0
SparesMemory f =
    (s : Kernel) (m : Memory) → f (record s { memory = m }) ≡ record (f s) { memory = m }

abbrev pub same : Kernel → Kernel
same s = s

pub Does-then :
    (f g : Kernel → Kernel) (c d : Cmd (Unit {0}))
    → SparesMemory g
    → Does f c
    → Does g d
    → Does (λ s. g (f s)) (c >> d)
Does-then f g c d spares hc hd s = next (c s) (hc s)
  where
    ends :
        (t : Kernel) (r : Run (Unit {0}))
        → t ≡ record (f s) { memory = t.memory }
        → Ensures (λ u. u ≡ record (g t) { memory = u.memory }) r
        → Ensures (λ u. u ≡ record (g (f s)) { memory = u.memory }) r
    ends t (ok a u) e h =
        h ∙ ap (λ (k : Kernel). record k { memory = u.memory }) (ap g e ∙ spares (f s) t.memory)
    ends t fault e h = tt
    ends t (halted c) e h = tt

    next :
        (r : Run (Unit {0}))
        → Ensures (λ t. t ≡ record (f s) { memory = t.memory }) r
        → Ensures (λ u. u ≡ record (g (f s)) { memory = u.memory }) (and_then r (λ _. d))
    next (ok a t) e = ends t (d t) e (hd t)
    next fault e = tt
    next (halted c) e = tt

module _ (outside : ℕ → ℕ) where
  pub delete-Does : (p : ℕ) → Does same (delete outside p)
  unfolding delete
  delete-Does p s = outcome (delete_heap outside s.memory p)
    where
      outcome :
          (o : Outcome ℕ)
          → Ensures
              (λ t. t ≡ record s { memory = t.memory })
              (elim o [
                | done status m ↦ ok tt (record s { memory = m })
                | stopped code ↦ halted code
              ])
      outcome (done status m) = refl
      outcome (stopped code) = tt

  pub when-Does : (b : Bool) (c : Cmd (Unit {0})) → Does same c → Does same (when b c)
  when-Does true c h = h
  when-Does false c h = λ s. refl

  pub delete_valid-Does : (p : ℕ) → Does same (delete_valid outside p)
  unfolding delete_valid
  delete_valid-Does p s = when-Does (not (p == 0) && is_valid_heap s.memory p) _ (delete-Does p) s

  pub then_same : (c d : Cmd (Unit {0})) → Does same c → Does same d → Does same (c >> d)
  then_same c d = Does-then same same c d (λ s m. refl)

  pub delete_nodes-Does : (ns : List HeapNode) → Does same (delete_nodes outside ns)
  unfolding delete_nodes
  delete_nodes-Does [] = λ s. refl
  delete_nodes-Does (n ∷ rest) =
      then_same _ _
        (then_same _ _ (when-Does (not (n.entry == 0)) _ (delete-Does n.entry))
          (delete-Does n.node))
        (delete_nodes-Does rest)

  pub fini_dll-Does : (dll : ℕ) → Does same (fini_dll outside dll)
  unfolding fini_dll
  fini_dll-Does dll s = elim (Bool-cases (dll == 0)) [
    | inl null ↦ rw null tt
    | inr some ↦ rw some (
        then_same _ _ (when-Does (not (s.dll_traits dll == 0)) _ (delete-Does (s.dll_traits dll)))
          (delete-Does dll) s)
  ]
