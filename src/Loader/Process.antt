-- ===== src/Loader/Process.antt =====
-- The two functions rtl_create_process: of dev/ZKAKit/src/CodeMgr.cc, from a function of the kernel, and of
-- dev/ZKAKit/src/PEFCodeMgr.cc, from an executable. A process's memory limit, which nothing reads, is left out.
pub mod Created
use zka.Common.{
  ℕ, zero, suc, ◌-◌, ◌+◌, ◌*◌, Bool, true, false, Option, none, some, List, [], ◌∷◌, if◌then◌else◌,
  ltb, ◌==◌, replicate, take, number,
}
use zka.Memory.{zero_bytes}
use zka.NewKit.Utils.{at, string_len, copy_memory}
use zka.Nefs.Volume.{Result}
use zka.Nefs.Volume
use zka.Loader.Pef.{Loader, pef_data, find_symbol, find_start}
use zka.Sched.Process.{
  Kind, executable, no_kind, invalid, modify, Process, Kernel, Run, ok, fault, Cmd, pure, and_then,
  ◌>>=◌, ◌>>◌, put, delete,
}
use zka.Sched.Team.{Platform, Spawned, assigned, invalid_id, process_fault, allocate, spawn}

-- `kProcessNameLen`.
abbrev pub process_name_len : ℕ
process_name_len = 128

abbrev pub default_stack_size : ℕ
default_stack_size = 8 * 1024 * 1024

abbrev pub kernel_stack_size : ℕ
kernel_stack_size = 8 * 1024

-- `kPefStackSizeSymbol`, `kPefHeapSizeSymbol` and `kPefNameSymbol`.
abbrev pub stack_size_symbol : List ℕ
stack_size_symbol =
    b'S' ∷ b'i' ∷ b'z' ∷ b'e' ∷ b'O' ∷ b'f' ∷ b'R' ∷ b'e' ∷ b's' ∷ b'e' ∷ b'r' ∷ b'v' ∷ b'e' ∷ b'S'
    ∷ b't' ∷ b'a' ∷ b'c' ∷ b'k' ∷ []

abbrev pub heap_size_symbol : List ℕ
heap_size_symbol =
    b'S' ∷ b'i' ∷ b'z' ∷ b'e' ∷ b'O' ∷ b'f' ∷ b'R' ∷ b'e' ∷ b's' ∷ b'e' ∷ b'r' ∷ b'v' ∷ b'e' ∷ b'H'
    ∷ b'e' ∷ b'a' ∷ b'p' ∷ []

abbrev pub name_symbol : List ℕ
name_symbol = b'P' ∷ b'r' ∷ b'o' ∷ b'g' ∷ b'r' ∷ b'a' ∷ b'm' ∷ b'N' ∷ b'a' ∷ b'm' ∷ b'e' ∷ []

-- The cleared name with a text copied into it; a longer text leaves the array, and is taken for a fault.
unfoldable pub name_of : List ℕ → Option (List ℕ)
unfolding string_len copy_memory
name_of text =
    if ltb process_name_len (string_len text)
    then none
    else some (copy_memory text (replicate process_name_len 0) (string_len text)).0

-- `delete proc` where the id is kProcessInvalidID; another failure keeps the object.
unfoldable pub drop_invalid : (ℕ → ℕ) → ℕ → Spawned → Cmd Spawned
unfolding delete
drop_invalid outside p invalid_id = delete outside p >> pure invalid_id
drop_invalid outside p (assigned id) = pure (assigned id)
drop_invalid outside p process_fault = pure process_fault

-- What a walk over the disk comes to, in a run of the kernel; a search that is left open is taken to fail.
abbrev pub lift {ℓ} : {A : Type ℓ} → Result A → Cmd A
lift (Volume.ok a) = pure a
lift Volume.fault = λ s. fault
lift Volume.out_of_fuel = λ s. fault

-- `sizeof(UserProcess)`, which is not above 512, a process as its constructor leaves it, and where the blobs stand.
pub record Objects : Type 0 where
  pub process_size : ℕ
  pub made : Process
  pub address_of : List ℕ → ℕ

-- rt_set_memory(proc->Name, 0, kProcessNameLen) writes 128 words of four bytes from the name on, which is the
-- first field: every field of the object is cleared, and the words behind it. The blocks of the heap, which the
-- model keeps apart from the words, stay.
abbrev pub cleared_size : ℕ
cleared_size = 4 * process_name_len

unfoldable pub cleared : Process → Process
cleared q = record q {
  name = replicate process_name_len 0;
  stack_frame = 0;
  affinity = 0;
  status = invalid;
  stack_reserve = 0;
  code = 0;
  blob = 0;
  stack_size = 0;
  pef_dll_delegate = 0;
  memory_heap = [];
  vm_register = 0;
  ptime = 0;
  process_id = 0;
  kind = no_kind;
  last_exit_code = 0;
  local_code = 0;
}

module _ (outside : ℕ → ℕ) (k : Platform) (o : Objects) where
  -- `new UserProcess()`, its fields, the words behind it, and Spawn.
  unfoldable pub spawn_new : (Process → Option Process) → Cmd Spawned
  unfolding drop_invalid
  spawn_new filled = allocate k o.process_size true false >>= λ p. elim (filled o.made) [
    | none ↦ λ s. fault
    | some q ↦
        if p == 0
        then (λ s. fault)
        else (put p (λ r. q)
            >> modify (λ s. record s {
              memory = zero_bytes s.memory (p + o.process_size) (cleared_size - o.process_size);
            })
            >> (spawn outside k p >>= drop_invalid outside p))
  ]

  unfoldable pub kernel_process : ℕ → List ℕ → Process → Option Process
  unfolding cleared
  kernel_process main text q =
      let set = record q { code = main; kind = executable; stack_size = kernel_stack_size } in
      elim (name_of text) [ none ↦ none | some n ↦ some (record (cleared set) { name = n }) ]

  -- rtl_create_process(main, process_name).
  unfoldable pub create_kernel_process : ℕ → List ℕ → Cmd Spawned
  unfolding spawn_new kernel_process
  create_kernel_process main text =
      if at text 0 == 0 then pure invalid_id else spawn_new (kernel_process main text)

  -- What is read of an executable's symbols: a size through the pointer that was found, and the name, if there is one.
  abbrev pub size_of : Option (List ℕ) → Cmd ℕ
  size_of none = λ s. fault
  size_of (some c) = pure (number (take 8 c))

  abbrev pub program_name : Option (List ℕ) → Option (List ℕ)
  program_name none = some (replicate process_name_len 0)
  program_name (some c) = name_of c

  unfoldable pub pef_process :
      Kind → List ℕ → Option (List ℕ) → ℕ → Option (List ℕ) → Process → Option Process
  unfolding cleared
  pef_process kind code blob size name q =
      let set = record q {
        kind = kind;
        code = o.address_of code;
        blob = elim blob [ none ↦ 0 | some b ↦ o.address_of b ];
        stack_size = size;
        ptime = 0;
      } in
      let r = cleared set in
      elim (program_name name) [
        | none ↦ none
        | some n ↦ some (record r {
          name = n;
          stack_size = if r.stack_size == 0 then default_stack_size else r.stack_size;
        })
      ]

  -- Behind FindStart.
  unfoldable pub create_started :
      (List ℕ → Result (Option (List ℕ))) → List ℕ → Loader → Kind → Option (List ℕ) → Cmd Spawned
  unfolding spawn_new pef_process
  create_started read behind exec kind none = pure invalid_id
  create_started read behind exec kind (some code) =
      lift (find_symbol read behind exec (some stack_size_symbol) pef_data) >>= λ stack.
      size_of stack >>= λ size.
      lift (find_symbol read behind exec (some heap_size_symbol) pef_data) >>= λ heap.
      size_of heap >>= λ limit.
      lift (find_symbol read behind exec (some name_symbol) pef_data) >>= λ name.
      spawn_new (pef_process kind code exec.cached_blob size name)

  -- rtl_create_process(exec, procKind).
  unfoldable pub create_process :
      (List ℕ → Result (Option (List ℕ))) → List ℕ → Loader → Kind → Cmd Spawned
  unfolding create_started
  create_process read behind exec kind =
      lift (find_start read behind exec) >>= create_started read behind exec kind
