-- ===== src/Services/Ipc/Pass.antt =====
-- What IPCMessage::Pass copies.
use zka.Common.{
  ℕ, ◌<◌, ◌≡◌, refl, some, ltb, ◌&&◌, not, if◌then◌else◌, length, Bool-cases, inl, inr,
}
use zka.NewKit.Utils.{at, copy_memory}
use zka.NewKit.Utils.Copy.{copy_memory-at}
use zka.Services.Ipc.{IpcMessage, same_address, pass}

-- A packet is passed to a target exactly when the target's source is the packet's target and it has
-- room; then the target's bytes below the packet's message size are the packet's, and otherwise it
-- has not changed. Its other bytes, their number and every other field stay.
pub pass-at :
    (m t : IpcMessage) (j : ℕ)
    → j < length t.content
    → let moved = same_address t.source m.target && not (ltb t.message_size m.message_size) in
      (u : IpcMessage) × (pass m (some t) ≡ (some u, moved))
      × (at u.content j
          ≡ (if moved && ltb j m.message_size then at m.content j else at t.content j))
      × (length u.content ≡ length t.content)
      × (record u { content = t.content } ≡ t)
unfolding pass
pass-at m t j h =
    let (byte, size, _) = copy_memory-at m.content t.content m.message_size j h in
    elim (Bool-cases (same_address t.source m.target)) [
      | inl same ↦ rw same (elim (Bool-cases (ltb t.message_size m.message_size)) [
        | inl large ↦ rw large (t, refl, refl, refl, refl)
        | inr fits ↦ rw fits (
          record t { content = (copy_memory m.content t.content m.message_size).0 },
          refl,
          byte,
          size,
          refl,
        )
      ])
      | inr other ↦ rw other (t, refl, refl, refl, refl)
    ]
