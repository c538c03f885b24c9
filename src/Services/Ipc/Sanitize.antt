-- ===== src/Services/Ipc/Sanitize.antt =====
-- Which packets are let through, and what happens to a process that sends another.
use zka.Common.{
  update, ℕ, ◌≤◌, ◌<◌, ◌≡◌, ◌≢◌, ◌↔◌, refl, arith, Bool, true, false, Option, none, some, ◌==◌,
  Bool-cases, inl, inr,
}
use zka.Sched.Process.{
  Kernel, Run, ok, fault, halted, and_then, pure, ◌>>◌, is_running, finished, error_process_fault,
  crash, exit,
}
use zka.Sched.Process.Effect.{Ensures}
use zka.Sched.Process.Exit.{Ended, exit-Ended}
use mathlib.Core.Path.{subst}
use zka.Sched.Team.{Platform}
use zka.Sched.Team.Spawn.{allocate-bind}
use zka.Sched.Team.Scheduling.{Returning}
use zka.Services.Ipc.{
  with_current, error_ipc, IpcMessage, same_address, has_failed, is_header, header_magic,
  content_size, little_endian, message_struct_size, int_sanitize_packet, sanitize_packet,
  construct_packet,
}

-- A packet that the sanitizer lets through.
pub record Clean (m : IpcMessage) : Type 0 where
  pub endian : m.endianess ≢ little_endian
  pub apart : same_address m.source m.target ≡ false
  pub some_bytes : 1 < m.packet_size
  pub fits : m.packet_size ≤ content_size
  pub magic : m.header_magic ≡ header_magic

refused_never : (r : Run (Unit {0})) (s : Kernel) → and_then r (λ _. pure false) ≢ ok true s
refused_never (ok a t) s = ground arith
refused_never fault s = ground arith
refused_never (halted c) s = ground arith

has_failed_iff :
    (m : IpcMessage)
    → (has_failed m ≡ false) ↔ (
        (m.endianess ≢ little_endian)
        × (same_address m.source m.target ≡ false)
        × (m.packet_size ≤ content_size))
unfolding has_failed
has_failed_iff m = ((λ e. ground arith), λ h. ground arith)

-- ipc_int_sanitize_packet lets a packet through, and changes nothing, exactly when it is clean: it
-- is not little endian, its two addresses are not the same, its size is above 1 and at most 6094,
-- and it has the magic number.
pub int_sanitize_packet_iff :
    (m : IpcMessage) (s : Kernel) → (int_sanitize_packet m s ≡ ok true s) ↔ Clean m
unfolding int_sanitize_packet
int_sanitize_packet_iff m s = elim (Bool-cases (has_failed m)) [
  | inl bad ↦ rw bad (
    (λ e. absurd (refused_never _ s e)),
    λ c.
        let fine = (has_failed_iff m).1 (c.endian, c.apart, c.fits) in
        absurd (ground (arith, fine, bad)),
  )
  | inr good ↦
      let (endian, apart, fits) = (has_failed_iff m).0 good in
      rw good (
        (λ e. record {
          endian = endian;
          apart = apart;
          some_bytes = ground (arith, e);
          fits = fits;
          magic = ground (arith, e);
        }),
        λ c. ground (arith, c.some_bytes, c.magic),
      )
]

-- The size of a packet that was made.
abbrev Sized : Option IpcMessage × Bool → Type 0
Sized (none, done) = Unit
Sized (some m, done) = m.packet_size ≡ message_struct_size

construct_packet-Sized :
    (k : Platform) (team : ℕ) (s : Kernel)
    → Returning (λ r t. Sized r) (construct_packet k team none s)
unfolding construct_packet
construct_packet-Sized k team s =
    allocate-bind k message_struct_size true false s (λ r t. Sized r) _
      λ address m. elim (Bool-cases (address == 0)) [
        | inl null ↦ rw null tt
        | inr there ↦ rw there (elim (Bool-cases (s.current == 0)) [
          | inl null ↦ rw null tt
          | inr process ↦ rw process refl
        ])
      ]

-- A packet that ipc_construct_packet has newly made is not clean: its size is the one of the whole
-- structure, which is larger than the largest size that is let through.
pub construct_packet-Clean :
    (k : Platform) (team : ℕ) (s t : Kernel) (m : IpcMessage) (done : Bool)
    → construct_packet k team none s ≡ ok (some m, done) t
    → ¬ Clean m
construct_packet-Clean k team s t m done e clean =
    let sized : m.packet_size ≡ message_struct_size =
      subst (Returning (λ r u. Sized r)) e (construct_packet-Sized k team s) in
    let fits = clean.fits in omega arith

-- The sanitizer has refused a packet and ended the process, with the code of a fault.
abbrev pub Punished : ℕ → Bool → Kernel → Type 0
Punished p good t =
    (good ≡ false)
    × ((t.processes p).status ≡ finished)
    × ((t.processes p).last_exit_code ≡ error_process_fault)

crash-Punished :
    (outside : ℕ → ℕ) (p : ℕ) (s : Kernel)
    → is_running (s.processes p).status ≡ true
    → Returning (Punished p) ((crash outside p >> pure false) s)
unfolding crash
crash-Punished outside p s running =
    rw running
      (ended (exit outside p error_process_fault s) (exit-Ended outside p error_process_fault s))
  where
    ended :
        (r : Run (Unit {0}))
        → Ensures (Ended s p error_process_fault) r
        → Returning (Punished p) (and_then r (λ _. pure false))
    ended (ok a t) e = (refl, e.status, e.code_kept)
    ended fault e = tt
    ended (halted c) e = tt

current-Punished :
    (outside : ℕ → ℕ) (s : Kernel)
    → s.current ≢ 0
    → is_running (s.processes s.current).status ≡ true
    → Returning (Punished s.current) ((with_current (crash outside) >> pure false) s)
current-Punished outside s here running =
    let there : (s.current == 0) ≡ false = ground arith in
    rw there (crash-Punished outside s.current s running)

-- Where a current process that runs sends a packet that is not clean, then whenever the sanitizer
-- returns, it has refused the packet, and the process is finished with the code of a fault.
pub sanitize_packet-Punished :
    (outside : ℕ → ℕ) (m : IpcMessage) (s : Kernel)
    → s.current ≢ 0
    → is_running (s.processes s.current).status ≡ true
    → ¬ Clean m
    → Returning (Punished s.current) (sanitize_packet outside (some m) s)
unfolding sanitize_packet int_sanitize_packet
sanitize_packet-Punished outside m s here running dirty =
    let there : (s.current == 0) ≡ false = ground arith in
    elim (Bool-cases (has_failed m)) [
      | inl bad ↦
          let coded = record s {
            processes =
                update s.processes s.current
                  (record (s.processes s.current) { local_code = error_ipc });
          } in
          rw (bad, there) (current-Punished outside coded here (ground (arith, running)))
      | inr good ↦ elim (Bool-cases (is_header m)) [
        | inl header ↦
            let made : int_sanitize_packet m s ≡ ok true s = rw (good, header) refl in
            absurd (dirty ((int_sanitize_packet_iff m s).0 made))
        | inr other ↦ rw (good, other) (current-Punished outside s here running)
      ]
    ]
