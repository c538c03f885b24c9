-- ===== src/Services/Ipc.antt =====
-- Packets between processes, dev/ZKAKit/NetworkKit/IPC.h and dev/ZKAKit/src/Network/IPC.cc.
pub mod Sanitize
pub mod Pass
use zka.Common.{
  ℕ, zero, suc, ◌+◌, ◌&&◌, ◌||◌, Bool, true, false, List, [], ◌∷◌, Option, none, some, ltb, ◌==◌,
  if◌then◌else◌, not, replicate,
}
use zka.NewKit.Utils.{copy_memory}
use zka.Sched.Process.{Process, Kernel, Run, ok, fault, Cmd, put, pure, ◌>>◌, ◌>>=◌, crash}
use zka.Sched.Team.{Platform, allocate}

-- IPCAddress and its operator==.
pub record IpcAddress : Type 0 where
  pub process_id : ℕ
  pub process_team : ℕ

abbrev pub same_address : IpcAddress → IpcAddress → Bool
same_address a b = b.process_id == a.process_id && b.process_team == a.process_team

-- IPCMessage.
pub record IpcMessage : Type 0 where
  pub header_magic : ℕ
  pub endianess : ℕ
  pub packet_size : ℕ
  pub source : IpcAddress
  pub target : IpcAddress
  pub crc32 : ℕ
  pub message : ℕ
  pub message_size : ℕ
  pub content : List ℕ

abbrev pub header_magic : ℕ
header_magic = 0x4950434

-- `kIPCMsgSize`, and the size of the packed structure: 57 bytes more.
abbrev pub content_size : ℕ
content_size = 6094

abbrev pub message_struct_size : ℕ
message_struct_size = 6151

abbrev pub little_endian : ℕ
little_endian = 0

abbrev pub error_ipc : ℕ
error_ipc = 59

-- The result of rtl_deduce_endianess, which compares the first byte of a packet with itself:
-- Endian::kEndianBig.
abbrev pub deduced_endianess : ℕ
deduced_endianess = 1

-- The tests of ipc_int_sanitize_packet: those that end in an error, and the last.
unfoldable pub has_failed : IpcMessage → Bool
has_failed m =
    m.endianess == little_endian || same_address m.source m.target || ltb content_size m.packet_size

abbrev pub is_header : IpcMessage → Bool
is_header m = ltb 1 m.packet_size && m.header_magic == header_magic

-- The current process, through the team's reference to it.
abbrev pub with_current : {A : Type 0} → (ℕ → Cmd A) → Cmd A
with_current f s = if s.current == 0 then fault else f s.current s

-- ipc_int_sanitize_packet; the error is the current process's local code.
unfoldable pub int_sanitize_packet : IpcMessage → Cmd Bool
unfolding has_failed
int_sanitize_packet m =
    if has_failed m
    then with_current (λ p. put p (λ q. record q { local_code = error_ipc })) >> pure false
    else pure (is_header m)

-- ipc_sanitize_packet; `none` is null.
unfoldable pub sanitize_packet : (ℕ → ℕ) → Option IpcMessage → Cmd Bool
unfolding int_sanitize_packet
sanitize_packet outside none = with_current (crash outside) >> pure false
sanitize_packet outside (some m) = int_sanitize_packet m >>= λ good.
    if good then pure true else with_current (crash outside) >> pure false

-- ipc_construct_packet, through a pointer that is not null: the packet behind it, and the result. A new
-- packet is cleared.
unfoldable pub construct_packet : Platform → ℕ → Option IpcMessage → Cmd (Option IpcMessage × Bool)
unfolding allocate
construct_packet k team (some m) = pure (some m, true)
construct_packet k team none = allocate k message_struct_size true false >>= λ address.
    if address == 0
    then pure (none, false)
    else with_current (λ p s.
      ok
        (
          some (record {
            header_magic = header_magic;
            endianess = deduced_endianess;
            packet_size = message_struct_size;
            source = record { process_id = (s.processes p).process_id; process_team = team };
            target = record { process_id = 0; process_team = 0 };
            crc32 = 0;
            message = 0;
            message_size = 0;
            content = replicate content_size 0;
          }),
          true,
        )
        s)

-- IPCMessage::Pass: the target's packet after it, and the result.
unfoldable pub pass : IpcMessage → Option IpcMessage → Option IpcMessage × Bool
unfolding copy_memory
pass m none = (none, false)
pass m (some t) =
    if same_address t.source m.target
    then if ltb t.message_size m.message_size
      then (some t, false)
      else (some (record t { content = (copy_memory m.content t.content m.message_size).0 }), true)
    else (some t, false)
