-- ===== src/Services/Ip/Version.antt =====
-- What IPFactory::IpCheckVersion4 accepts.
use zka.Common.{
  ℕ, zero, suc, ◌+◌, ◌-◌, ◌≤◌, ◌<◌, ◌≡◌, ◌≢◌, ◌↔◌, refl, arith, Bool-cases, inl, inr, true, List,
  ◌==◌,
}
use zka.NewKit.Utils.{at, string_len}
use zka.Services.Ip.{check_loop, ip_check_version4}

-- Four bytes in a row from `k` on, none of which is a dot.
abbrev pub LongPart : List ℕ → ℕ → Type 0
LongPart ip k =
    (at ip k ≢ b'.') × (at ip (k + 1) ≢ b'.') × (at ip (k + 2) ≢ b'.') × (at ip (k + 3) ≢ b'.')

-- Before `base` stand `cnter` bytes that are no dots, at most three; before them stands a dot or nothing,
-- unless they are three.
record Counted (ip : List ℕ) (base cnter : ℕ) : Type 0 where
  few : cnter ≤ 3
  inside : cnter ≤ base
  plain : (j : ℕ) → base ≤ j + cnter → j < base → at ip j ≢ b'.'
  stop : (k : ℕ) → k + cnter + 1 ≡ base → cnter ≢ 3 → at ip k ≡ b'.'

Counted-dot : (ip : List ℕ) (base cnter : ℕ) → at ip base ≡ b'.' → Counted ip (base + 1) 0
Counted-dot ip base cnter e = record {
  few = omega arith;
  inside = omega arith;
  plain = λ j lo hi. absurd (omega arith);
  stop = λ k same less. let here : k ≡ base = omega arith in rw here e;
}

Counted-byte :
    (ip : List ℕ) (base cnter : ℕ)
    → Counted ip base cnter
    → at ip base ≢ b'.'
    → cnter ≢ 3
    → Counted ip (base + 1) (cnter + 1)
Counted-byte ip base cnter c e less = record {
  few = let few = c.few in omega arith;
  inside = let inside = c.inside in omega arith;
  plain = λ j lo hi. elim (Bool-cases (j == base)) [
    | inl same ↦ let here : j ≡ base = ground arith in rw here e
    | inr other ↦ c.plain j (omega arith) (ground arith)
  ];
  stop = λ k same less'. c.stop k (omega arith) less;
}

check_loop_short :
    (n base cnter : ℕ) (ip : List ℕ)
    → Counted ip base cnter
    → check_loop n base cnter ip ≡ true
    → (k : ℕ) → base ≤ k + 3
    → k + 3 < base + n
    → ¬ LongPart ip k
unfolding check_loop
check_loop_short zero base cnter ip c e k lo hi = absurd (omega arith)
check_loop_short (suc n) base cnter ip c e k lo hi = elim (Bool-cases (at ip base == b'.')) [
  | inl dot ↦ elim (Bool-cases (k + 3 == base)) [
    | inl last ↦
        λ (_, _, _, d). let here : k + 3 ≡ base = ground arith in d (rw here (ground arith))
    | inr later ↦
        check_loop_short n (base + 1) 0 ip (Counted-dot ip base cnter (ground arith)) (ground arith)
          k (ground arith) (omega arith)
  ]
  | inr byte ↦
      let less : cnter ≢ 3 = ground arith in
      elim (Bool-cases (k + 3 == base)) [
        | inl last ↦ λ long. ground (arith, c.stop k, c.stop (k + 1), c.stop (k + 2), c.few, less)
        | inr later ↦
            check_loop_short n (base + 1) (cnter + 1) ip
              (Counted-byte ip base cnter c (ground arith) less) (ground arith) k (ground arith)
              (omega arith)
      ]
]

short_check_loop :
    (n base cnter : ℕ) (ip : List ℕ)
    → Counted ip base cnter
    → ((k : ℕ) → base ≤ k + 3 → k + 3 < base + n → ¬ LongPart ip k)
    → check_loop n base cnter ip ≡ true
unfolding check_loop
short_check_loop zero base cnter ip c h = refl
short_check_loop (suc n) base cnter ip c h = elim (Bool-cases (at ip base == b'.')) [
  | inl dot ↦ rw dot (
      short_check_loop n (base + 1) 0 ip (Counted-dot ip base cnter (ground arith))
        (λ k lo hi. h k (omega arith) (omega arith)))
  | inr byte ↦ rw byte (elim (Bool-cases (cnter == 3)) [
    | inl full ↦
        let three : cnter ≡ 3 = ground arith in
        let inside = c.inside in
        let last : base - 3 + 3 ≡ base = omega arith in
        let end : at ip (base - 3 + 3) ≢ b'.' = rw last (ground arith) in
        absurd (
          h (base - 3) (omega arith) (omega arith) (
            c.plain (base - 3) (omega arith) (omega arith),
            c.plain (base - 3 + 1) (omega arith) (omega arith),
            c.plain (base - 3 + 2) (omega arith) (omega arith),
            end,
          ))
    | inr less ↦ rw less (
        short_check_loop n (base + 1) (cnter + 1) ip
          (Counted-byte ip base cnter c (ground arith) (ground arith))
          (λ k lo hi. h k (omega arith) (omega arith)))
  ])
]

-- A text is accepted as an address of version 4 exactly when no four bytes in a row, below its
-- length, are without a dot: neither the number of its parts nor their digits are looked at.
pub ip_check_version4_iff :
    (ip : List ℕ)
    → (ip_check_version4 ip ≡ true) ↔ ((k : ℕ) → k + 3 < string_len ip → ¬ LongPart ip k)
unfolding ip_check_version4
ip_check_version4_iff ip =
    let start : Counted ip 0 0 = record {
      few = omega arith;
      inside = omega arith;
      plain = λ j lo hi. absurd (omega arith);
      stop = λ k e less. absurd (omega arith);
    } in
    (
      (λ e k h. check_loop_short (string_len ip) 0 0 ip start e k (omega arith) (omega arith)),
      λ h. short_check_loop (string_len ip) 0 0 ip start (λ k lo hi. h k (omega arith)),
    )
