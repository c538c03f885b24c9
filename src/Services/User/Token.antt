-- ===== src/Services/User/Token.antt =====
-- What tokens are made of, and what Save and Matches make of them.
use Prim.Native.Nat.{bit_or}
use zka.Common.{
  ℕ, zero, suc, ◌+◌, ◌<◌, ◌≡◌, refl, ◌∙◌, arith, false, List, Option, none, some, ltb, leb, ◌&&◌,
  ◌==◌, if◌then◌else◌, set, length, length-set, get_or-set_self, get_or-set_ne, Bool-cases, inl,
  inr,
}
use zka.NewKit.Utils.{at}
use zka.Services.User.{User, user_type, token_loop, construct_token, save, matches}

-- How many of the `n` bytes from `i` on stand before the first NUL.
abbrev pub filled : ℕ → ℕ → List ℕ → ℕ
filled zero i s = 0
filled (suc n) i s = let rest = filled n (i + 1) s in if at s i == 0 then 0 else suc rest

token_loop-at :
    (n i : ℕ) (u : User) (pw buffer : List ℕ) (j : ℕ)
    → j < length buffer
    → at (token_loop n i u pw buffer) j ≡ (
        if leb i j && ltb j (i + filled n i pw)
        then bit_or (at pw j) (user_type u)
        else at buffer j)
unfolding token_loop
token_loop-at zero i u pw buffer j h = ground arith
token_loop-at (suc n) i u pw buffer j h = elim (Bool-cases (at pw i == 0)) [
  | inl end ↦ rw end (ground arith)
  | inr more ↦
      let v = bit_or (at pw i) (user_type u) in
      let size = length-set buffer i v in
      let ih = token_loop-at n (i + 1) u pw (set buffer i v) j (omega arith) in
      rw more (
        ih ∙ elim (Bool-cases (j == i)) [
          | inl same ↦
              let here : j ≡ i = ground arith in
              rw here (ground (arith, get_or-set_self buffer i v 0))
          | inr other ↦ ground (arith, get_or-set_ne buffer i j v 0)
        ])
]

-- A token that is made in a buffer has, for every byte of the password before its first NUL and
-- below the length, that byte with the bits of the user's type set; the buffer's other bytes stay.
pub construct_token-at :
    (u : User) (pw buffer : List ℕ) (n j : ℕ)
    → j < length buffer
    → (token : List ℕ) × (construct_token (some buffer) pw u n ≡ (some token, 0))
      × (at token j
          ≡ (if ltb j (filled n 0 pw) then bit_or (at pw j) (user_type u) else at buffer j))
unfolding construct_token
construct_token-at u pw buffer n j h =
    (token_loop n 0 u pw buffer, refl, token_loop-at n 0 u pw buffer j h ∙ ground arith)

-- No password can be saved, and none matches: a token that was made is taken for a failure.
pub save-matches :
    (u : User) (pw : Option (List ℕ)) → (save u pw ≡ (u, false)) × (matches u pw ≡ false)
unfolding save matches construct_token
save-matches u none = (refl, refl)
save-matches u (some pw) = elim (Bool-cases (at pw 0 == 0)) [
  | inl end ↦ rw end (refl, refl)
  | inr more ↦ rw more (refl, refl)
]
