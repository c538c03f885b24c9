-- ===== src/Files/Indexer.antt =====
-- dev/ZKAKit/src/IndexableProperty.cc with dev/ZKAKit/FSKit/IndexableProperty.h. The flags are 32 bits, and what is
-- asked for is 16 bits with a sign.
use zka.Common.{
  ℕ, zero, suc, ◌+◌, ◌-◌, ◌/◌, ◌%◌, ◌^◌, ◌≤◌, ◌≡◌, refl, inl, inr, not, true, false, List,
  if◌then◌else◌, ltb, ◌==◌, or_bits, and_bits, any_bits, any_bits-or_bits, Bool-cases, arith,
}
use zka.NewKit.Utils.{copy_memory}

-- IndexProperty and the flags of an IndexableProperty.
pub record IndexableProperty : Type 0 where
  pub path : List ℕ
  pub flags : ℕ

-- `kIndexerClaimed`.
abbrev pub indexer_claimed : ℕ
indexer_claimed = 0xCF

-- A flag of 16 bits, as a number of 32 bits.
abbrev pub extended : ℕ → ℕ
extended flag = if ltb flag (2 ^ 15) then flag else flag + (2 ^ 32 - 2 ^ 16)

unfoldable pub add_flag : IndexableProperty → ℕ → IndexableProperty
add_flag p flag = record p { flags = or_bits 32 p.flags (extended flag) }

-- RemoveFlag keeps the flag's bits, and clears all others.
unfoldable pub remove_flag : IndexableProperty → ℕ → IndexableProperty
remove_flag p flag = record p { flags = and_bits 32 p.flags (extended flag) }

unfoldable pub has_flag : IndexableProperty → ℕ → ℕ
has_flag p flag = and_bits 32 p.flags (extended flag) % 2 ^ 16

-- fs_index_file: the property, and the name, into which the path is copied.
unfoldable pub index_file : List ℕ → ℕ → IndexableProperty → IndexableProperty × List ℕ
index_file filename filename_len indexer =
    let claimed = add_flag indexer indexer_claimed in
    if has_flag indexer indexer_claimed == 0
    then (claimed, (copy_memory claimed.path filename filename_len).0)
    else (indexer, filename)

and_bits_le : (w a b : ℕ) → and_bits w a b ≤ b
unfolding and_bits
and_bits_le zero a b = omega arith
and_bits_le (suc w) a b = ground (arith, and_bits_le w (a / 2) (b / 2))

claimed_bits : any_bits 32 indexer_claimed indexer_claimed ≡ true
unfolding any_bits and_bits
claimed_bits = refl

some_bit : (x : ℕ) → not (x == 0) ≡ true → x ≤ indexer_claimed → (x % 2 ^ 16 == 0) ≡ false
some_bit x h k = ground arith

-- A property that was added to is claimed.
pub has_flag-add_flag :
    (p : IndexableProperty) → (has_flag (add_flag p indexer_claimed) indexer_claimed == 0) ≡ false
unfolding has_flag add_flag any_bits
has_flag-add_flag p =
    let x = and_bits 32 (or_bits 32 p.flags indexer_claimed) indexer_claimed in
    some_bit x (any_bits-or_bits 32 p.flags indexer_claimed indexer_claimed claimed_bits)
      (and_bits_le 32 (or_bits 32 p.flags indexer_claimed) indexer_claimed)

-- A file is indexed once: a second call changes neither the property nor the name.
pub index_file_twice :
    (filename other : List ℕ) (n m : ℕ) (p : IndexableProperty)
    → index_file other m (index_file filename n p).0 ≡ ((index_file filename n p).0, other)
unfolding index_file
index_file_twice filename other n m p = elim (Bool-cases (has_flag p indexer_claimed == 0)) [
  | inl e ↦ rw (e, has_flag-add_flag p) refl
  | inr e ↦ rw (e, e) refl
]
