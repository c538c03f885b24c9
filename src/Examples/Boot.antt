-- ===== src/Examples/Boot.antt =====
-- The boot loader formats a blank disk.
use zka.Common.{ℕ, zero, suc, ◌≡◌, true, some, List, [], ◌∷◌, IsBytes, arith}
use zka.Nefs.{root}
use zka.Nefs.Create.Place.{AreBytes}
use zka.Nefs.Volume.{ok}
use zka.Nefs.Find.{find_catalog}
use zka.Boot.{Literals, strlen, first_catalog, format_drive, is_partition_valid}
use zka.Boot.Written.{root_blob, IsText}
use zka.Boot.Root.{IsOrder, format_drive-find_catalog}
use zka.Examples.Nefs.{sparse, sparse-IsLawful, blank}

AreBytes-IsBytes : (n : ℕ) (s : List ℕ) → IsBytes n s → AreBytes s
AreBytes-IsBytes n [] h i = omega arith
AreBytes-IsBytes zero (b ∷ s) h i = elim h [ ]
AreBytes-IsBytes (suc n) (b ∷ s) h zero = h.0
AreBytes-IsBytes (suc n) (b ∷ s) h (suc i) = AreBytes-IsBytes n s h.1 i

-- Texts of four bytes and more, with another byte behind.
abbrev text : List ℕ
text = b'N' ∷ b'e' ∷ b'F' ∷ b'S' ∷ 0 ∷ 7 ∷ []

AreBytes-text : AreBytes text
AreBytes-text =
    AreBytes-IsBytes 6 text
      (omega arith, (omega arith, (omega arith, (omega arith, (omega arith, (omega arith, tt))))))

abbrev texts : Literals
texts = record {
  ident = b' ' ∷ b' ' ∷ text;
  fs_name = text;
  block_name = b'Z' ∷ b'K' ∷ b'A' ∷ b':' ∷ 0 ∷ [];
  magic = b'E' ∷ b'P' ∷ b'M' ∷ b'A' ∷ b'M' ∷ 0 ∷ [];
}

texts-IsText : IsText texts
texts-IsText = record {
  ident = AreBytes-IsBytes 8 (b' ' ∷ b' ' ∷ text) (
    omega arith,
    (
      omega arith,
      (omega arith, (omega arith, (omega arith, (omega arith, (omega arith, (omega arith, tt)))))),
    ),
  );
  fs_name = AreBytes-text;
  block_name =
      AreBytes-IsBytes 5 texts.block_name
        (omega arith, (omega arith, (omega arith, (omega arith, (omega arith, tt)))));
  magic =
      AreBytes-IsBytes 6 texts.magic (
        omega arith,
        (omega arith, (omega arith, (omega arith, (omega arith, (omega arith, tt))))),
      );
}

texts-IsOrder : IsOrder texts 8388608 4294967296 1 text []
unfolding strlen
texts-IsOrder = record {
  texts = texts-IsText;
  are_bytes = AreBytes-text;
  named = λ e. omega arith;
  fits = omega arith;
  rest_are_bytes = λ i. omega arith;
  large = omega arith;
  size_lt = omega arith;
  sectors_lt = omega arith;
  some_blob = λ e. omega arith;
  blobs_lt = omega arith;
}

format_drive-find_catalog_example :
    (d' : ℕ → ℕ → ℕ) × (format_drive sparse texts 8388608 4294967296 blank text
        (some (root_blob []))
        1
      ≡ some (true, d'))
    × (is_partition_valid sparse texts 4294967296 d' ≡ true)
    × (find_catalog sparse d' 1 1 root
        ≡ ok (some (record { lba = 2560; catalog = first_catalog (root_blob []) })))
format_drive-find_catalog_example =
    format_drive-find_catalog sparse 1048576 sparse-IsLawful (omega arith) texts 8388608 4294967296
      1 text [] texts-IsOrder blank 0 0
