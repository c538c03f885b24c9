-- ===== src/Services/Semaphore/Waiting.antt =====
-- How long a software timer waits.
use zka.Common.{ℕ, zero, suc, ◌+◌, ◌≢◌, ◌<◌, arith}
use zka.Services.Semaphore.{returned, wait_loop, wait}

wait_loop_never :
    (fuel digital wait_for r : ℕ) → 0 < wait_for → wait_loop fuel digital wait_for ≢ returned r
unfolding wait_loop
wait_loop_never zero digital wait_for r h = ground arith
wait_loop_never (suc fuel) digital wait_for r h =
    ground (arith, wait_loop_never fuel (digital + 1) wait_for r h)

-- A software timer that waits for at least one second never returns from its wait, however long it
-- counts.
pub wait_never :
    (fuel digital wait_for r : ℕ) → 0 < wait_for → wait fuel digital wait_for ≢ returned r
unfolding wait
wait_never fuel digital wait_for r h = ground (arith, wait_loop_never fuel digital wait_for r h)
