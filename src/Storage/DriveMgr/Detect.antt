-- ===== src/Storage/DriveMgr/Detect.antt =====
-- The detection of the main drive, io_construct_main_drive of dev/ZKAKit/src/DriveMgr.cc, on a machine whose first bus has a
-- drive that is ready.
use zka.Common.{
  ℕ, suc, ◌≡◌, refl, ap, Bool, true, none, some, List, if◌then◌else◌, ◌==◌, IsBytes, not,
  Bool-cases, inl, inr,
}
use zka.NewKit.Utils.{string_cmp}
use zka.Storage.Ata.{
  Ports, ◌then◌, port, command_register, read_pio, primary_io, send_address, select, Identity,
  init_loop, std_init,
}
use zka.Storage.Ata.Transfer.{
  IsReady, Gives, Gives-then, Gives-some, words, std_read-given, wait_io-returns,
}
use zka.Storage.DriveMgr.{
  Packet, Trait, Globals, ask, clear, recognize, drv_input, drv_init, detect_drive,
  construct_main_drive, epm_magic, epm_disc, unformatted_disc,
}

-- Whether a block begins with the magic of the kernel's partition map.
abbrev pub is_epm : List ℕ → Bool
is_epm block = string_cmp (some block) (some epm_magic) 5 == 0

-- The main drive, as the first sector of the disk has it: an EPM drive that may be written, or an
-- unformatted one that may only be read; the packet is good and empty again.
pub record Detected (block : List ℕ) (t : Trait) : Type 0 where
  pub kind_by_magic : t.kind ≡ (if is_epm block then epm_disc else unformatted_disc)
  pub read_only_by_magic : t.packet.packet_read_only ≡ not (is_epm block)
  pub good : t.packet.packet_good ≡ true
  pub emptied : t.packet.packet_content ≡ none
  pub no_size : t.packet.packet_size ≡ 0

cleared-Detected :
    (block : List ℕ) (t : Trait)
    → t.packet.packet_good ≡ true
    → (let u = recognize (some block) t in Detected block (record u { packet = clear u.packet }))
unfolding recognize clear
cleared-Detected block t h = elim (Bool-cases (is_epm block)) [
  | inl e ↦ record {
    kind_by_magic = rw e refl;
    read_only_by_magic = rw e refl;
    good = rw e h;
    emptied = refl;
    no_size = refl;
  }
  | inr e ↦ record {
    kind_by_magic = rw e refl;
    read_only_by_magic = rw e refl;
    good = rw e h;
    emptied = refl;
    no_size = refl;
  }
]

module _ (p : Ports) (given : p.State → List ℕ) (received : p.State → List ℕ)
    (law : IsReady p primary_io given received) where
  std_init-found :
      (tries fuel : ℕ) (s : p.State)
      → Gives
          (λ r. (i : Identity) × (r.0 ≡ some i) × (i.out_bus ≡ primary_io) × (i.out_master ≡ 0))
          (std_init p (suc tries) (suc fuel) s primary_io)
  unfolding std_init init_loop
  std_init-found tries fuel s =
      let t = p.out8 (select p s primary_io) (port primary_io 1) 1 in
      rw (law.no_error t, law.not_busy t)
        (Gives-then (wait_io-returns p primary_io given received law fuel _)
          λ a u. Gives-some _ (_, refl, refl, refl))

  drv_init-Settled :
      (tries fuel : ℕ) (k : Packet) (g : Globals p)
      → Gives
          (λ r.
            (r.0 ≡ record k { packet_good = true })
            × (r.1.ata_io ≡ primary_io)
            × (r.1.ata_master ≡ 0))
          (drv_init p (suc tries) (suc fuel) k g)
  unfolding drv_init
  drv_init-Settled tries fuel k g =
      Gives-then (std_init-found tries fuel g.machine) λ r h. rw h.1 (Gives-some _ (refl, h.2, h.3))

  -- On a machine whose first bus has a drive that is ready, and that gives the words of a block of
  -- 512 bytes behind a read of two sectors from the first one on, io_construct_main_drive comes to
  -- an end with any fuel above zero. The drive is an EPM drive that may be written where the block
  -- begins with the magic of AMD64, and an unformatted one that may only be read where it does not;
  -- its packet is good, and has no content and no size.
  pub construct_main_drive-Detected :
      (tries fuel kind : ℕ) (field block : List ℕ) (g : Globals p)
      → IsBytes 512 block
      → ((s : p.State)
          → given (
              p.out8
                (send_address p s primary_io 0 0 512 512)
                (port primary_io command_register)
                read_pio)
            ≡ words block)
      → Gives (λ r. Detected block r.0) (construct_main_drive p (suc tries) (suc fuel) field kind g)
  unfolding construct_main_drive detect_drive drv_input ask
  construct_main_drive-Detected tries fuel kind field block g h holds =
      Gives-then (drv_init-Settled tries fuel _ g) λ a ha.
        rw (ha.0, ha.1, ha.2)
          (Gives-then {P = λ b. (b.0.packet_content ≡ some block) × (b.0.packet_good ≡ true)}
            (Gives-then
              (std_read-given p primary_io given received law fuel a.1.machine 0 0 512 512 block h
                holds)
              λ r hr. Gives-some _ (ap some hr, refl))
            λ b hb. Gives-some _ (rw hb.0 (cleared-Detected block _ hb.1)))
