-- ===== src/Hal/Paging.antt =====
-- mm_map_page of dev/ZKAKit/HALKit/AMD64/HalPagingMgrAMD64.cc. The tables are words at addresses and the entries stand at
-- theirs, in a map of their own. The flush of the TLB and the printing are left out.
pub mod Flags
pub mod Alias
use zka.Common.{
  ℕ, ◌+◌, ◌-◌, ◌*◌, ◌/◌, ◌%◌, ◌^◌, Bool, true, false, ◌||◌, if◌then◌else◌, ◌==◌, any_bits, update,
}

-- ZKA_PTE, as far as it is written here.
pub record Pte : Type 0 where
  pub present : Bool
  pub wr : Bool
  pub user : Bool
  pub exec_disable : Bool

-- ZKA_PAGE_STORE.
pub record PageStore : Type 0 where
  pub pde : ℕ
  pub pte : ℕ
  pub v_addr : ℕ
  pub store_op : Bool

pub record Paging : Type 0 where
  pub cr3 : ℕ
  pub word : ℕ → ℕ
  pub entry : ℕ → Pte
  pub page_store : PageStore

-- kMMFlagsWr, kMMFlagsUser and kMMFlagsNX.
abbrev pub flag_wr : ℕ
flag_wr = 2

abbrev pub flag_user : ℕ
flag_user = 4

abbrev pub flag_nx : ℕ
flag_nx = 8

-- A flag is set if it is among the flags, and cleared if any other one is.
unfoldable pub flagged : ℕ → ℕ → Bool → Bool
flagged flags flag old =
    if any_bits 32 flags flag
    then true
    else if any_bits 32 flags (2 ^ 32 - 1 - flag)
    then false
    else old

unfoldable pub with_flags : ℕ → Pte → Pte
unfolding flagged
with_flags flags e = record {
  present = true;
  wr = flagged flags flag_wr e.wr;
  user = flagged flags flag_user e.user;
  exec_disable = flagged flags flag_nx e.exec_disable;
}

-- mmi_map_page_table_entry, with its status.
unfoldable pub map_page_table_entry : ℕ → ℕ → ℕ → ℕ → Paging → ℕ × Paging
unfolding with_flags
map_page_table_entry virtual_address flags pt_entry pd_entry s = if pt_entry == 0 then (1, s) else (
  0,
  record s {
    entry = update s.entry pt_entry (with_flags flags (s.entry pt_entry));
    page_store = record {
      pde = pd_entry;
      pte = pt_entry;
      v_addr = virtual_address;
      store_op = false;
    };
  },
)

-- `& ~cPtIndexMask`, and the index of nine bits from `2 ^ shift` on.
abbrev pub table_base : ℕ → ℕ
table_base a = a / 4096 * 4096

abbrev pub index : ℕ → ℕ → ℕ
index virtual_address shift = virtual_address / 2 ^ shift % 512

-- The walk: an entry's address, from the address of the entry above it.
abbrev pub entry_in : ℕ → ℕ → ℕ
entry_in above i = (table_base above + i * 8) % 2 ^ 64

unfoldable pub pd_entry_of : ℕ → ℕ → ℕ
pd_entry_of cr3 virtual_address =
    let pml4_entry = entry_in cr3 (index virtual_address 39) in
    let pdpt_entry = entry_in pml4_entry (index virtual_address 30) in
    entry_in pdpt_entry (index virtual_address 21)

-- Where the pointer `pde_struct->fEntries[pt_entry]` stands.
unfoldable pub slot_of : ℕ → ℕ → ℕ
unfolding pd_entry_of
slot_of cr3 virtual_address =
    let pd_entry = pd_entry_of cr3 virtual_address in
    (table_base pd_entry + entry_in pd_entry (index virtual_address 12) * 8) % 2 ^ 64

-- mm_map_page, with its status.
unfoldable pub map_page : ℕ → ℕ → Paging → ℕ × Paging
unfolding map_page_table_entry slot_of
map_page virtual_address flags s =
    if virtual_address == 0 || flags == 0
    then (0, s)
    else if s.page_store.v_addr == virtual_address
    then map_page_table_entry s.page_store.v_addr flags s.page_store.pte s.page_store.pde
        (record s { page_store = record (s.page_store) { store_op = false } })
    else map_page_table_entry virtual_address flags (s.word (slot_of s.cr3 virtual_address))
        (table_base (pd_entry_of s.cr3 virtual_address))
        (record s { page_store = record (s.page_store) { store_op = true } })
