-- ===== src/Files/Restrict.antt =====
-- What a stream of dev/ZKAKit/KernelKit/FileMgr.h may do, and what is mounted.
use zka.Common.{
  ℕ, ◌+◌, ◌≡◌, refl, inl, inr, Bool, true, false, Option, none, some, List, [], ◌∷◌, if◌then◌else◌,
  ◌==◌, Bool-cases, arith,
}
use zka.NewKit.Utils.{at, run_length, string_len, string_cmp, string_cmp_loop}
use zka.Files.{
  get_mounted, unmount, mount, read_only, read_binary, write_only, find_restrict, file_restrict,
  may_write,
}

abbrev is_restrict : List ℕ → List ℕ → Bool
is_restrict s r = string_cmp (some s) (some r) (string_len r) == 0

one_more : (b : Bool) (n : ℕ) → b ≡ false → ((if b then 0 else 1) + n == 0) ≡ false
one_more b n e = rw e (ground arith)

is_restrict-differs :
    (s : List ℕ) (a : ℕ) (r : List ℕ) → (at s 0 == a) ≡ false → is_restrict s (a ∷ r) ≡ false
unfolding string_cmp string_cmp_loop string_len
is_restrict-differs s a r h = one_more (at s 0 == a) (string_cmp_loop (run_length r) 1 s (a ∷ r)) h

is_restrict-one : (s : List ℕ) (a : ℕ) → is_restrict s (a ∷ []) ≡ (at s 0 == a)
unfolding string_cmp string_cmp_loop string_len
is_restrict-one s a = elim (Bool-cases (at s 0 == a)) [ inl h ↦ rw h refl | inr h ↦ rw h refl ]

-- Only the first byte of the restriction decides what a stream may do: with an `r` it is opened for
-- reading, with a `w` for writing, with anything else for binary reading; it may be written exactly
-- when that byte is a `w`.
pub file_restrict-first_byte :
    (s : List ℕ)
    → (file_restrict (some s) ≡ (
        if at s 0 == b'r' then read_only else if at s 0 == b'w' then write_only else read_binary))
      × (may_write (file_restrict (some s)) ≡ (at s 0 == b'w'))
unfolding file_restrict find_restrict may_write
file_restrict-first_byte s = elim (Bool-cases (at s 0 == b'r')) [
  | inl r ↦ rw (is_restrict-one s b'r', r) (refl, ground arith)
  | inr r ↦
      rw (is_restrict-one s b'r', is_restrict-differs s b'r' (b'b' ∷ []) r)
        (rw
          (
            is_restrict-differs s b'r' (b'w' ∷ b'b' ∷ []) r,
            is_restrict-differs s b'r' (b'w' ∷ []) r,
          )
          (rw (is_restrict-one s b'w', r)
            (elim (Bool-cases (at s 0 == b'w')) [
              | inl w ↦ rw w (refl, refl)
              | inr w ↦ rw w (refl, refl)
            ])))
]

-- A filesystem that is mounted is the one that is used, until unmounting gives it back; then none is mounted. A null
-- pointer is never mounted, and leaves what was.
mount-unmount :
    {M : Type 0} (before : Option M) (m : M)
    → let (mounted, ok) = mount before (some m) in
      (ok ≡ true)
      × (get_mounted mounted ≡ some m)
      × (unmount mounted ≡ (none, some m))
      × (unmount (unmount mounted).0 ≡ (none, none))
      × (mount before none ≡ (before, false))
unfolding mount unmount get_mounted
mount-unmount before m = (refl, refl, refl, refl, refl)
