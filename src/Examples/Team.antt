-- ===== src/Examples/Team.antt =====
-- A team of three processes, and a thread.
use zka.Common.{ℕ, ◌≡◌, refl, arith, true, false, ◌&&◌, ltb, ◌==◌, if◌then◌else◌, [], ◌∷◌}
use zka.Memory.BitMap.{bit_map_magic, alloc_bit_map, mm_free_bit_map}
use zka.Memory.Heap.{heap_magic, new_heap, is_valid_heap, delete_heap}
use zka.Sched.Thread.{ap_standard, HardwareThread, Cores, switch, new_thread}
use zka.Sched.Thread.Switch.{switch_lem}
use zka.Sched.Process.{starting, executable, Process, Kernel, Run, ok, fault, halted, exit}
use zka.Sched.Process.Effect.{Ensures}
use zka.Sched.Process.Exit.{Ended, exit-Ended}
use zka.Sched.Team.{Platform, assigned, spawn, run, switch_process, count_slots, process_limit}
use zka.Sched.Team.Scheduling.{Returning, NoSwitch, run_cases, switch_process-NoSwitch}
use zka.Sched.Team.Spawn.{SpawnedAs, spawn-SpawnedAs}
use zka.Sched.Team.Reuse.{spawn_takes_id}
use zka.Memory.{InfoBlock}
use zka.Examples.Heap.{no_block, zeros, machine, nothing_outside, one_block}

abbrev pub new_process : Process
new_process = record {
  name = b'a' ∷ [];
  stack_frame = 0;
  affinity = 1000;
  status = starting;
  stack_reserve = 0;
  code = 0x400000;
  blob = 0;
  stack_size = 8192;
  pef_dll_delegate = 0;
  memory_heap = [];
  vm_register = 0;
  ptime = 0;
  process_id = 0;
  kind = executable;
  last_exit_code = 0;
  local_code = 0;
}

abbrev thread : HardwareThread
thread = record {
  stack = 0x9000;
  kind = ap_standard;
  source_pid = 0;
  wakeup = true;
  busy = false;
  ptime = 0;
}

abbrev cores : Cores
cores = record {
  sp = λ a. 0x7000;
  bp = λ a. 0x7100;
  process_blocks = λ i. record { frame = 0; stack = 0; image = 0 };
  busy_timer = 0;
}

abbrev pub kernel : Kernel
kernel = record {
  memory = zeros;
  processes = λ a. new_process;
  slots = λ i. 0;
  process_count = 0;
  current = 0;
  last_exit_code = 0;
  threads = thread ∷ new_thread ∷ [];
  cores = cores;
  dll_traits = λ a. 0;
}

abbrev pub platform : Platform
platform = record { machine = machine; pde_size = 4096; stack_frame_size = 96 }

abbrev image : ℕ
image = 0x400000

abbrev stack : ℕ
stack = 0x8000

abbrev frame : ℕ
frame = 0x6000

switch_lem_example :
    let (c, t, ret) = switch cores thread image stack frame 3 in
    (t.stack ≡ (if ret then 0x6000 else 0x9000))
    × (t.source_pid ≡ (if ret then 3 else 0))
    × (t.kind ≡ ap_standard)
    × (t.ptime ≡ 0)
    × ((if ret then t.busy else true) ≡ true)
    × ((a : ℕ)
        → c.process_blocks a ≡ (
            if ret && a == 3
            then record { frame = 0x6000; stack = 0x8000; image = 0x400000 }
            else cores.process_blocks a))
switch_lem_example = switch_lem cores thread image stack frame 3

exit-Ended_example : Ensures (Ended kernel 0x2000 3) (exit nothing_outside 0x2000 3 kernel)
exit-Ended_example = exit-Ended nothing_outside 0x2000 3 kernel

spawn-SpawnedAs_example :
    Returning (SpawnedAs kernel 0x2000) (spawn nothing_outside platform 0x2000 kernel)
spawn-SpawnedAs_example = spawn-SpawnedAs nothing_outside platform 0x2000 kernel

run_cases_example :
    run nothing_outside kernel
    ≡ (if ltb 0 (count_slots process_limit kernel.slots) then ok 0 kernel else fault)
run_cases_example = run_cases nothing_outside kernel

-- A kernel with a current process, whose heap takes every pointer for valid.
abbrev image_block : InfoBlock
image_block = record no_block { magic = heap_magic; present = true }

abbrev current_kernel : Kernel
current_kernel = record kernel {
  memory = record { word = λ a. bit_map_magic; block = λ a. image_block };
  slots = λ i. 0x3000;
  current = 0x3000;
}

image_is_valid : is_valid_heap current_kernel.memory image ≡ true
unfolding is_valid_heap
image_is_valid = refl

switch_process-NoSwitch_example :
    NoSwitch current_kernel (switch_process image stack frame 0 current_kernel)
switch_process-NoSwitch_example =
    switch_process-NoSwitch image stack frame 0 current_kernel (λ e. omega arith) (λ e. omega arith)

-- The states after two processes have been spawned, the first has ended, and a third is spawned.
abbrev state_of : {A : Type 0} → Run A → Kernel
state_of (ok a s) = s
state_of fault = kernel
state_of (halted c) = kernel

abbrev one : Kernel
one = state_of (spawn nothing_outside platform 0x2000 kernel)

abbrev two : Kernel
two = state_of (spawn nothing_outside platform 0x3000 one)

abbrev ended : Kernel
ended = state_of (exit nothing_outside 0x2000 0 two)

abbrev three : Kernel
three = state_of (spawn nothing_outside platform 0x4000 ended)

abbrev second : ℕ
second = 1

spawned_one : spawn nothing_outside platform 0x2000 kernel ≡ ok (assigned 0) one
unfolding spawn new_heap alloc_bit_map
spawned_one = refl

spawned_two : spawn nothing_outside platform 0x3000 one ≡ ok (assigned 1) two
unfolding spawn new_heap alloc_bit_map
spawned_two = refl

first_ended : exit nothing_outside 0x2000 0 two ≡ ok tt ended
unfolding exit spawn new_heap alloc_bit_map is_valid_heap mm_free_bit_map delete_heap
first_ended = refl

spawned_three : spawn nothing_outside platform 0x4000 ended ≡ ok (assigned 1) three
unfolding exit spawn new_heap alloc_bit_map is_valid_heap mm_free_bit_map delete_heap
spawned_three = refl

spawn_takes_id_example :
    (ended.slots 0 ≡ 0x2000)
    × ((ended.processes 0x2000).process_id ≡ 0)
    × (second ≡ 1)
    × ((three.processes 0x3000).process_id ≡ 1)
    × (three.slots 1 ≡ 0x4000)
spawn_takes_id_example =
    spawn_takes_id nothing_outside platform 0x2000 0x3000 0x4000 0 1 1 0 kernel one two ended three
      spawned_one spawned_two first_ended spawned_three (omega arith) (omega arith)

-- The kernel with a process that owns the block of the heap's tests.
abbrev owning : Kernel
owning = record kernel {
  memory = one_block;
  processes =
      λ a. record new_process { memory_heap = record { node = 0x9000; entry = 0x1060 } ∷ [] };
}
