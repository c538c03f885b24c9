-- ===== src/Examples/Text.antt =====
-- The text routines on short texts, and the checksum on the usual test text.
use zka.Common.{ℕ, ◌≡◌, refl, true, some, List, [], ◌∷◌}
use zka.NewKit.Crc.{calculate_crc32}
use zka.NewKit.Utils.{string_len, equals, to_lower, to_uppercase, string_has_char}

abbrev abc : List ℕ
abc = b'a' ∷ b'b' ∷ b'c' ∷ 0 ∷ []

abbrev bc : List ℕ
bc = b'b' ∷ b'c' ∷ 0 ∷ []

crc_check :
    calculate_crc32 (λ k. 0) (b'1' ∷ b'2' ∷ b'3' ∷ b'4' ∷ b'5' ∷ b'6' ∷ b'7' ∷ b'8' ∷ b'9' ∷ [])
    ≡ 0xe3069283
unfolding calculate_crc32
crc_check = refl

upper_lower : to_lower (to_uppercase b'q') ≡ b'q'
unfolding to_lower to_uppercase
upper_lower = refl

finds_char : string_has_char 0 abc b'c' ≡ some 2
unfolding string_has_char
finds_char = refl

abc_len : string_len abc ≡ 3
unfolding string_len
abc_len = refl

equals-abc : equals abc abc ≡ true
unfolding equals
equals-abc = refl
