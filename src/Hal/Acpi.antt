-- ===== src/Hal/Acpi.antt =====
-- ACPIFactoryInterface of dev/ZKAKit/src/ACPIFactoryInterface.cc, with the tables of dev/Modules/ACPI/ACPI.h. Memory is
-- the bytes at addresses. What is printed is left out.
pub mod Find
pub mod Sum
use zka.Common.{
  ℕ, zero, suc, ◌+◌, ◌-◌, ◌*◌, ◌/◌, ◌%◌, ◌^◌, Bool, true, false, not, Option, none, some, List, [],
  ◌∷◌, if◌then◌else◌, ltb, ◌==◌, number,
}
use zka.NewKit.Utils.{at}

-- The result of Find: an address, an error, a halt by ke_stop or a read through null.
pub data Found : Type 0 where
  found : ℕ → Found
  error : Found
  halted : ℕ → Found
  faulted : Found

-- `sizeof(SDT)`, and the places of the fields: Length and Revision of a table, RsdtAddress of an RSDP and AddressArr of
-- an RSDT.
abbrev pub sdt_size : ℕ
sdt_size = 36

abbrev pub length_at : ℕ → ℕ
length_at a = a + 4

abbrev pub revision_at : ℕ → ℕ
revision_at a = a + 8

abbrev pub rsdt_address_at : ℕ → ℕ
rsdt_address_at a = a + 36

abbrev pub address_arr_at : ℕ → ℕ → ℕ
address_arr_at a index = (a + 36 + 4 * index) % 2 ^ 64

-- RUNTIME_CHECK_ACPI.
abbrev pub check_acpi : ℕ
check_acpi = 6

module _ (byte : ℕ → ℕ) where
  -- A `UInt32` in memory.
  abbrev pub word32 : ℕ → ℕ
  word32 a = number (byte a ∷ byte (a + 1) ∷ byte (a + 2) ∷ byte (a + 3) ∷ [])

  -- The loop over the four bytes of a signature: `n` rounds are left, from `i` on.
  unfoldable pub signature_loop : ℕ → ℕ → ℕ → List ℕ → Bool
  signature_loop zero i sdt signature = false
  signature_loop (suc n) i sdt signature =
      let rest = signature_loop n (i + 1) sdt signature in
      if not (byte (sdt + i) == at signature i) then false else if i == 3 then true else rest

  -- The loop over the entries; what is printed of a table is read of it, through null too.
  unfoldable pub entry_loop : ℕ → ℕ → ℕ → List ℕ → Found
  unfolding signature_loop
  entry_loop zero index xsdt signature = error
  entry_loop (suc n) index xsdt signature =
      let sdt = word32 (address_arr_at xsdt index) in
      let rest = entry_loop n (index + 1) xsdt signature in
      if sdt == 0 then faulted else if signature_loop 4 0 sdt signature then found sdt else rest

  -- The number of entries, which are counted as if they had 64 bits; the difference is computed without a sign.
  unfoldable pub entries : ℕ → ℕ
  entries xsdt = (word32 (length_at xsdt) + 2 ^ 64 - sdt_size) % 2 ^ 64 / 8

  -- Find; `rsdp` is `fRsdp`, and no signature is null.
  unfoldable pub find : ℕ → Option (List ℕ) → Found
  unfolding entry_loop entries
  find rsdp none = error
  find rsdp (some signature) =
      let xsdt = word32 (rsdt_address_at rsdp) in
      if at signature 0 == 0
      then error
      else if rsdp == 0
      then faulted
      else if ltb (byte (revision_at rsdp)) 2
      then error
      else if xsdt == 0
      then faulted
      else if ltb (entries xsdt) 1
      then halted check_acpi
      else entry_loop (entries xsdt) 0 xsdt signature

-- Checksum: the loop adds the bytes in 8 bits.
unfoldable pub sum_loop : ℕ → ℕ → List ℕ → ℕ → ℕ
sum_loop zero i checksum chr = chr
sum_loop (suc n) i checksum chr = sum_loop n (i + 1) checksum ((chr + at checksum i) % 256)

unfoldable pub checksum : List ℕ → ℕ → Bool
unfolding sum_loop
checksum s len = if len == 0 then true else sum_loop len 0 s 0 == 0
