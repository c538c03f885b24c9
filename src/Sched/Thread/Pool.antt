-- ===== src/Sched/Thread/Pool.antt =====
-- The pool of hardware threads.
use zka.Common.{◌≡◌, ◌≢◌, ◌↔◌, refl, arith, false, List, [], ◌∷◌}
use zka.Sched.Thread.{HardwareThread, is_free, count, capacity, max_ap}

-- No thread of the list is free.
abbrev pub NoneFree : List HardwareThread → Type 0
NoneFree [] = Unit {0}
NoneFree (t ∷ ts) = (is_free t ≡ false) × NoneFree ts

count-NoneFree : (ts : List HardwareThread) → (count ts ≡ 0) ↔ NoneFree ts
unfolding count
count-NoneFree [] = ((λ e. tt), λ n. refl)
count-NoneFree (t ∷ ts) = let ih = count-NoneFree ts in ((λ e. ground arith), λ n. ground arith)

-- The pool says that it has all its threads exactly when none of them is free, and otherwise that
-- it has none.
pub capacity-NoneFree :
    (ts : List HardwareThread)
    → ((capacity ts ≡ max_ap) ↔ NoneFree ts) × ((capacity ts ≢ max_ap) ↔ (capacity ts ≡ 0))
unfolding capacity
capacity-NoneFree ts =
    let n = count-NoneFree ts in
    (((λ e. ground arith), λ f. ground arith), ((λ e. ground arith), λ f. ground arith))
