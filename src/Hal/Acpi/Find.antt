-- ===== src/Hal/Acpi/Find.antt =====
-- Which tables Find of dev/ZKAKit/src/ACPIFactoryInterface.cc finds.
use native.Mathlib.Nat.{zero-add}
use mathlib.Core.Path.{subst}
use zka.Common.{
  sym, ==_iff, ℕ, zero, suc, ◌+◌, ◌-◌, ◌*◌, ◌/◌, ◌%◌, ◌^◌, ◌<◌, ◌≤◌, ◌≡◌, ◌≢◌, ◌⊎◌, refl, inl, inr,
  Bool, true, false, ◌&&◌, some, List, ltb, ◌==◌, neq-test, Bool-cases, arith,
}
use zka.NewKit.Utils.{at}
use zka.Hal.Acpi.{
  Found, found, faulted, error, length_at, revision_at, rsdt_address_at, address_arr_at, word32,
  signature_loop, entry_loop, entries, find,
}

-- A table with the signature's four bytes.
abbrev pub has_signature : (ℕ → ℕ) → ℕ → List ℕ → Bool
has_signature byte sdt signature =
    byte sdt == at signature 0
    && byte (sdt + 1) == at signature 1
    && byte (sdt + 2) == at signature 2
    && byte (sdt + 3) == at signature 3

-- The address of a table, from the array of the RSDT.
abbrev pub table_at : (ℕ → ℕ) → ℕ → ℕ → ℕ
table_at byte xsdt index = word32 byte (address_arr_at xsdt index)

signature_loop-has_signature :
    (byte : ℕ → ℕ) (sdt : ℕ) (signature : List ℕ)
    → signature_loop byte 4 0 sdt signature ≡ has_signature byte sdt signature
unfolding signature_loop
signature_loop-has_signature byte sdt signature = ground arith

-- A table that is there, without the signature.
abbrev pub IsOther : (ℕ → ℕ) → ℕ → List ℕ → ℕ → Type 0
IsOther byte xsdt signature j =
    (table_at byte xsdt j ≢ 0) × (has_signature byte (table_at byte xsdt j) signature ≡ false)

-- The first entry in a range that is no other table has the signature, or it is null, or there is no such entry.
abbrev pub IsFirst : (ℕ → ℕ) → ℕ → List ℕ → (from to : ℕ) → Found → Type 0
IsFirst byte xsdt signature from to r =
    ((i : ℕ) × (from ≤ i)
      × (i < to)
      × (r ≡ found (table_at byte xsdt i))
      × (table_at byte xsdt i ≢ 0)
      × (has_signature byte (table_at byte xsdt i) signature ≡ true)
      × ((j : ℕ) → from ≤ j → j < i → IsOther byte xsdt signature j))
    ⊎ ((i : ℕ) × (from ≤ i)
        × (i < to)
        × (r ≡ faulted)
        × (table_at byte xsdt i ≡ 0)
        × ((j : ℕ) → from ≤ j → j < i → IsOther byte xsdt signature j))
    ⊎ ((r ≡ error) × ((j : ℕ) → from ≤ j → j < to → IsOther byte xsdt signature j))

some_table : (a : ℕ) → (a == 0) ≡ false → a ≢ 0
some_table a h = ground arith

here_or_later : (i j : ℕ) → i ≤ j → (j ≡ i) ⊎ (i + 1 ≤ j)
here_or_later i j h = ground arith

from_here :
    (P : ℕ → Type 0) (i to : ℕ)
    → P i
    → ((j : ℕ) → i + 1 ≤ j → j < to → P j)
    → (j : ℕ) → i ≤ j
    → j < to
    → P j
from_here P i to h rest j a b = elim (here_or_later i j a) [
  | inl e ↦ subst P (sym e) h
  | inr l ↦ rest j l b
]

module _ (byte : ℕ → ℕ) (xsdt : ℕ) (signature : List ℕ) where
  abbrev Other : ℕ → Type 0
  Other = IsOther byte xsdt signature

  IsFirst-step :
      (index n : ℕ) (r : Found)
      → Other index
      → IsFirst byte xsdt signature (index + 1) (index + 1 + n) r
      → IsFirst byte xsdt signature index (index + suc n) r
  IsFirst-step index n r e h = elim h [
    | inl (i, l, k, same, there, signed, before) ↦ inl (
      i,
      omega (arith, l),
      omega (arith, k),
      same,
      there,
      signed,
      from_here Other index i e before,
    )
    | inr other ↦ elim other [
      | inl (i, l, k, same, null, before) ↦ inr (
          inl (i, omega (arith, l), omega (arith, k), same, null, from_here Other index i e before))
      | inr (same, before) ↦ inr (
          inr
            (same, λ j a b. from_here Other index (index + 1 + n) e before j a (omega (arith, b))))
    ]
  ]

  entry_loop-IsFirst :
      (n index : ℕ)
      → IsFirst byte xsdt signature index (index + n) (entry_loop byte n index xsdt signature)
  unfolding entry_loop
  entry_loop-IsFirst zero index = inr (inr (refl, λ j h k. absurd (omega (arith, h, k))))
  entry_loop-IsFirst (suc n) index =
      let table = table_at byte xsdt index in
      let here = signature_loop-has_signature byte table signature in
      elim (Bool-cases (table == 0)) [
        | inl null ↦ rw null (
            inr (
              inl (
                index,
                omega arith,
                omega arith,
                refl,
                (==_iff table 0).0 null,
                λ j h k. absurd (omega (arith, h, k)),
              )))
        | inr there ↦ rw there (elim (Bool-cases (has_signature byte table signature)) [
          | inl e ↦
              rw (here, e)
                (inl (
                  index,
                  omega arith,
                  omega arith,
                  refl,
                  some_table table there,
                  e,
                  λ j h k. absurd (omega (arith, h, k)),
                ))
          | inr e ↦
              rw (here, e)
                (IsFirst-step index n _ (some_table table there, e)
                  (entry_loop-IsFirst n (index + 1)))
        ])
      ]

half_entries :
    (n length : ℕ) → length ≡ 36 + 4 * n → n < 2 ^ 29 → (length + 2 ^ 64 - 36) % 2 ^ 64 / 8 ≡ n / 2
half_entries n length h k = omega (arith, h, k)

not_below : (a b : ℕ) → b ≤ a → ltb a b ≡ false
not_below a b h = ground arith

-- For a signature with a first byte, an RSDP of revision 2 at least and an RSDT with a number of
-- 32-bit entries, from two on and below 2 ^ 29, Find looks at the first half of the entries and not
-- at the second: it gives the first table there with the signature's four bytes, unless an entry in
-- front of it is null, which is read through; and if none has the signature and none is null, it
-- gives an error.
pub find-IsFirst :
    (byte : ℕ → ℕ) (rsdp xsdt n : ℕ) (signature : List ℕ)
    → at signature 0 ≢ 0
    → rsdp ≢ 0
    → 2 ≤ byte (revision_at rsdp)
    → word32 byte (rsdt_address_at rsdp) ≡ xsdt
    → xsdt ≢ 0
    → word32 byte (length_at xsdt) ≡ 36 + 4 * n
    → 2 ≤ n
    → n < 2 ^ 29
    → IsFirst byte xsdt signature 0 (n / 2) (find byte rsdp (some signature))
unfolding find entries
find-IsFirst byte rsdp xsdt n signature named there revised place table whole some_tables fits =
    rw
      (
        neq-test (at signature 0) 0 named,
        neq-test rsdp 0 there,
        not_below (byte (revision_at rsdp)) 2 revised,
        place,
        neq-test xsdt 0 table,
        half_entries n (word32 byte (length_at xsdt)) whole fits,
        not_below (n / 2) 1 (omega (arith, some_tables)),
      )
      (rw (zero-add (n / 2)) at (entry_loop-IsFirst byte xsdt signature (n / 2) 0))
