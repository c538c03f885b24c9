-- ===== src/Services/User.antt =====
-- Users and their tokens, dev/ZKAKit/src/User.cc and KernelKit/User.h. A `Char` is a byte.
pub mod Token
use Prim.Native.Nat.{bit_or}
use zka.Common.{
  ℕ, zero, suc, ◌+◌, ◌||◌, Bool, true, false, List, [], ◌∷◌, Option, none, some, ltb, ◌==◌,
  if◌then◌else◌, not, set, replicate,
}
use zka.NewKit.Utils.{at, string_len, string_cmp, copy_memory}

-- UserRingKind.
pub data UserRingKind : Type 0 where
  ring_invalid ring_std_user ring_super_user ring_guest_user : UserRingKind

abbrev pub is_std_user : UserRingKind → Bool
is_std_user ring_std_user = true
is_std_user _ = false

abbrev pub is_super_user : UserRingKind → Bool
is_super_user ring_super_user = true
is_super_user _ = false

pub record User : Type 0 where
  pub ring : UserRingKind
  pub user_name : List ℕ
  pub user_token : List ℕ

-- `kMaxUserNameLen` and `kMaxUserTokenLen`.
abbrev pub max_user_name_len : ℕ
max_user_name_len = 255

abbrev pub max_user_token_len : ℕ
max_user_token_len = 255

-- The constructor with a ring: a name that is longer than the buffer is written behind it.
unfoldable pub user : UserRingKind → List ℕ → User
unfolding copy_memory string_len
user ring name = record {
  ring = ring;
  user_name = (copy_memory name (replicate max_user_name_len 0) (string_len name)).0;
  user_token = replicate max_user_token_len 0;
}

-- `kStdUserType` or `kSuperUserType`.
abbrev pub user_type : User → ℕ
user_type u = if is_std_user u.ring then 0xce else 0xec

-- The loop of cred_construct_token: `n` rounds are left, from `i` on.
unfoldable pub token_loop : (n i : ℕ) → User → List ℕ → List ℕ → List ℕ
token_loop zero i u in_password password = password
token_loop (suc n) i u in_password password =
    let rest =
      token_loop n (i + 1) u in_password
        (set password i (bit_or (at in_password i) (user_type u))) in
    if at in_password i == 0 then password else rest

-- cred_construct_token of a user that is not null; it returns 0 if it succeeds.
unfoldable pub construct_token : Option (List ℕ) → List ℕ → User → ℕ → Option (List ℕ) × ℕ
unfolding token_loop
construct_token none in_password u length = (none, 1)
construct_token (some password) in_password u length =
    (some (token_loop length 0 u in_password password), 0)

-- The buffer of Save and Matches, once the password has been copied into it.
unfoldable pub password_buffer : List ℕ → List ℕ
unfolding copy_memory string_len
password_buffer password =
    (copy_memory password (replicate (string_len password) 0) (string_len password)).0

-- What Save does with the token.
unfoldable pub store_token : User → List ℕ → Option (List ℕ) → User × Bool
unfolding copy_memory string_len
store_token u password none = (u, false)
store_token u password (some token) =
    (record u { user_token = (copy_memory token u.user_token (string_len password)).0 }, true)

-- User::Save.
unfoldable pub save : User → Option (List ℕ) → User × Bool
unfolding construct_token password_buffer store_token string_len
save u none = (u, false)
save u (some password) =
    let (token, failed) =
      construct_token (some (password_buffer password)) password u (string_len password) in
    if at password 0 == 0
    then (u, false)
    else if failed == 0
    then (u, false)
    else store_token u password token

-- User::Matches.
unfoldable pub matches : User → Option (List ℕ) → Bool
unfolding construct_token password_buffer string_cmp string_len
matches u none = false
matches u (some password) =
    let (token, failed) =
      construct_token (some (password_buffer password)) password u (string_len password) in
    if not (at password 0 == 0)
    then false
    else if failed == 0
    then false
    else string_cmp token (some u.user_token) (string_len u.user_token) == 0
