-- ===== src/Storage/Ata/Transfer.antt =====
-- The transfers of drv_std_read and drv_std_write, dev/ZKAKit/HALKit/AMD64/Storage/ATA-PIO.cc, with a drive that is ready.
use zka.Common.{
  ℕ, ◌/◌, zero, suc, ◌%◌, ◌<◌, ◌≡◌, refl, ap, ◌∙◌, Bool, true, false, Option, some, List, [], ◌∷◌,
  ◌++◌, if◌then◌else◌, any_bits, IsBytes, arith,
}
use zka.Storage.Ata.{
  Ports, ◌then◌, port, status_register, data_register, command_register, write_pio, read_pio, widen,
  read_status, wait_busy, wait_ready, wait_io, send_address, begin_transfer, receive_loop,
  send_loop, std_read, std_write,
}

-- The words of a buffer.
abbrev pub words : List ℕ → List ℕ
words [] = []
words (b ∷ s) = widen b ∷ words s

-- A run that comes to an end, with a result of which `P` holds.
pub record Gives {A : Type 0} (P : A → Type 0) (o : Option A) : Type 0 where
  pub result : A
  pub returns : o ≡ some result
  pub holds : P result

-- What the driver relies on: the drive on a bus is never busy, has no error and is ready, whatever was
-- read from it; it gives the words that are ready one by one, and takes the words of a write one by one,
-- none of them before its command.
pub record IsReady (p : Ports) (io : ℕ) (given : p.State → List ℕ) (received : p.State → List ℕ)
    : Type 0 where
  pub not_busy : (s : p.State) → any_bits 8 (p.in8 s (port io status_register)).0 128 ≡ false
  pub no_error : (s : p.State) → any_bits 8 (p.in8 s (port io status_register)).0 1 ≡ false
  pub ready : (s : p.State) → any_bits 8 (p.in8 s (port io status_register)).0 64 ≡ true
  pub given-in8 : (s : p.State) → given (p.in8 s (port io status_register)).1 ≡ given s
  pub received-in8 : (s : p.State) → received (p.in8 s (port io status_register)).1 ≡ received s
  pub in16-given :
      (s : p.State) (w : ℕ) (ws : List ℕ)
      → given s ≡ w ∷ ws
      → ((p.in16 s (port io data_register)).0 ≡ w)
        × (given (p.in16 s (port io data_register)).1 ≡ ws)
  pub received-out16 :
      (s : p.State) (w : ℕ)
      → received (p.out16 s (port io data_register) w) ≡ received s ++ (w ∷ [])
  pub received-out8_write :
      (s : p.State) → received (p.out8 s (port io command_register) write_pio) ≡ []

pub Gives-then :
    {A B : Type 0} {P : A → Type 0} {Q : B → Type 0} {o : Option A} {k : A → Option B}
    → Gives P o
    → ((a : A) → P a → Gives Q (k a))
    → Gives Q (o then k)
unfolding ◌then◌
Gives-then h f =
    let q = f h.result h.holds in
    record { result = q.result; returns = rw h.returns q.returns; holds = q.holds }

pub Gives-some : {A : Type 0} {P : A → Type 0} (a : A) → P a → Gives P (some a)
Gives-some a h = record { result = a; returns = refl; holds = h }

pub Gives-map :
    {A : Type 0} {P Q : A → Type 0} {o : Option A} → Gives P o → ((a : A) → P a → Q a) → Gives Q o
Gives-map h f = record { result = h.result; returns = h.returns; holds = f h.result h.holds }

append_nil : (xs : List ℕ) → xs ≡ xs ++ []
append_nil [] = refl
append_nil (x ∷ xs) = ap (λ l. x ∷ l) (append_nil xs)

append_word : (xs ys : List ℕ) (w : ℕ) → (xs ++ (w ∷ [])) ++ ys ≡ xs ++ (w ∷ ys)
append_word [] ys w = refl
append_word (x ∷ xs) ys w = ap (λ l. x ∷ l) (append_word xs ys w)

widen_low : (b : ℕ) → b < 256 → widen b % 256 ≡ b
widen_low b h = ground arith

module _ (p : Ports) (io : ℕ) (given : p.State → List ℕ) (received : p.State → List ℕ)
    (law : IsReady p io given received) where
  Kept : p.State → p.State → Type 0
  Kept s t = (given t ≡ given s) × (received t ≡ received s)

  read_status-Kept : (n : ℕ) (s : p.State) → Kept s (read_status p n s io)
  unfolding read_status Kept
  read_status-Kept zero s = (refl, refl)
  read_status-Kept (suc n) s =
      let h = read_status-Kept n (p.in8 s (port io status_register)).1 in
      (h.0 ∙ law.given-in8 s, h.1 ∙ law.received-in8 s)

  -- One round of each loop is enough.
  wait_io-Kept : (fuel : ℕ) (s : p.State) → Gives (λ r. Kept s r.1) (wait_io p (suc fuel) s io)
  unfolding wait_io wait_busy wait_ready Kept ◌then◌
  wait_io-Kept fuel s =
      let t = read_status p 400 s io in
      let u = (p.in8 t (port io status_register)).1 in
      let h = read_status-Kept 400 s in
      rw (law.not_busy t, law.no_error u, law.ready u)
        (Gives-some _
          (law.given-in8 u ∙ law.given-in8 t ∙ h.0, law.received-in8 u ∙ law.received-in8 t ∙ h.1))

  send_loop-received :
      (fuel : ℕ) (content : List ℕ) (s : p.State)
      → Gives (λ t. received t ≡ received s ++ words content) (send_loop p (suc fuel) content s io)
  unfolding send_loop Kept
  send_loop-received fuel [] s = Gives-some s (append_nil (received s))
  send_loop-received fuel (b ∷ content) s = Gives-then (wait_io-Kept fuel s) λ a ha.
      Gives-then (wait_io-Kept fuel _) λ c hc.
        Gives-map (send_loop-received fuel content c.1) λ t ht.
          ht
          ∙ ap (λ l. l ++ words content)
              (hc.1 ∙ law.received-out16 a.1 _ ∙ ap (λ l. l ++ (widen b ∷ [])) ha.1)
          ∙ append_word (received s) (words content) (widen b)

  receive_loop-given :
      (fuel n : ℕ) (content : List ℕ) (s : p.State)
      → IsBytes n content
      → given s ≡ words content
      → Gives (λ r. r.0 ≡ content) (receive_loop p (suc fuel) n s io)
  unfolding receive_loop Kept
  receive_loop-given fuel zero [] s h e = Gives-some _ refl
  receive_loop-given fuel zero (b ∷ content) s h e = elim h [ ]
  receive_loop-given fuel (suc n) [] s h e = elim h [ ]
  receive_loop-given fuel (suc n) (b ∷ content) s h e = Gives-then (wait_io-Kept fuel s) λ a ha.
      let w = law.in16-given a.1 (widen b) (words content) (ha.0 ∙ e) in
      Gives-then {P = λ r. r.0 ≡ content}
        (Gives-then (wait_io-Kept fuel _)
          λ c hc. receive_loop-given fuel n content c.1 h.1 (hc.0 ∙ w.1))
        λ r hr. Gives-some _ (rw (w.0, hr) (ap (λ x. x ∷ content) (widen_low b h.0)))

  -- To a drive that is ready, and that takes the words of a write one by one from its command on,
  -- drv_std_write comes to an end with any fuel above zero, and the drive has then received exactly
  -- one word for each byte of the buffer, in order, whatever the address, the drive and the sizes:
  -- the byte with its sign.
  pub std_write-received :
      (fuel : ℕ) (s : p.State) (lba master sector size : ℕ) (content : List ℕ)
      → Gives
          (λ t. received t ≡ words content)
          (std_write p (suc fuel) s lba io master content sector size)
  unfolding std_write begin_transfer Kept
  std_write-received fuel s lba master sector size content =
      Gives-then {P = λ a. received a.1 ≡ []}
        (Gives-then (wait_io-Kept fuel s)
          λ a ha. Gives-map (wait_io-Kept fuel _) λ c hc. hc.1 ∙ law.received-out8_write _)
        λ a ha. Gives-then (send_loop-received fuel content a.1) λ t ht.
          Gives-then (wait_io-Kept fuel t)
            λ c hc. Gives-some c.1 (hc.1 ∙ ht ∙ ap (λ l. l ++ words content) ha)

  -- Where a drive that is ready has, behind the command of a read, the words that a call of
  -- drv_std_write left with it, drv_std_read of as many bytes comes to an end with any fuel above
  -- zero and gives back the bytes that were written.
  pub std_read-std_write :
      (fuel : ℕ) (s t u : p.State) (a : Bool × p.State) (lba master sector size : ℕ)
      (content : List ℕ)
      → IsBytes size content
      → std_write p (suc fuel) s lba io master content sector size ≡ some t
      → begin_transfer p (suc fuel) u read_pio lba io master sector size ≡ some a
      → given a.1 ≡ received t
      → Gives (λ r. r.0 ≡ content) (std_read p (suc fuel) u lba io master sector size)
  unfolding std_read Kept ◌then◌
  std_read-std_write fuel s t u a lba master sector size content h written begun e =
      let w = std_write-received fuel s lba master sector size content in
      rw begun (
        Gives-then
          (receive_loop-given fuel size content a.1 h (cc (e, written, w.returns, w.holds)))
          λ r hr. Gives-then (wait_io-Kept fuel r.1) λ d hd. Gives-some _ hr)

  -- drv_std_read, where the words behind its command are those of some bytes.
  pub std_read-given :
      (fuel : ℕ) (s : p.State) (lba master sector size : ℕ) (content : List ℕ)
      → IsBytes size content
      → ((s : p.State)
          → given (
              p.out8
                (send_address p s io master (lba / sector) sector size)
                (port io command_register)
                read_pio)
            ≡ words content)
      → Gives (λ r. r.0 ≡ content) (std_read p (suc fuel) s lba io master sector size)
  unfolding std_read begin_transfer Kept
  std_read-given fuel s lba master sector size content h law_given =
      Gives-then {P = λ a. given a.1 ≡ words content}
        (Gives-then (wait_io-Kept fuel s)
          λ a ha. Gives-map (wait_io-Kept fuel _) λ c hc. hc.0 ∙ law_given _)
        λ a ha.
          Gives-then (receive_loop-given fuel size content a.1 h ha)
            λ r hr. Gives-then (wait_io-Kept fuel r.1) λ d hd. Gives-some _ hr

  pub wait_io-returns : (fuel : ℕ) (s : p.State) → Gives (λ r. Unit) (wait_io p (suc fuel) s io)
  wait_io-returns fuel s = Gives-map (wait_io-Kept fuel s) λ r h. tt
