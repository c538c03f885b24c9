-- ===== src/Memory/PageMgr.antt =====
-- Page table entries, dev/ZKAKit/src/PageMgr.cc, and the physical memory manager on top of them,
-- dev/ZKAKit/src/Pmm.cc.
use zka.Common.{ℕ, ◌≡◌, refl, arith, Bool, true, false, if◌then◌else◌, Option, none, some}
use zka.Memory.{Memory}
use zka.Memory.BitMap.{Machine, returns, out_of_fuel, alloc_bit_map, mm_free_bit_map, page_size}

-- PTEWrapper.
pub record PteWrapper : Type 0 where
  pub rw_bit : Bool
  pub user : Bool
  pub exec_disable : Bool
  pub virt_addr : ℕ
  pub cache : Bool
  pub shareable : Bool
  pub wt : Bool
  pub present : Bool
  pub accessed : Bool

-- The constructor: a new entry is present.
unfoldable pub pte_wrapper : Bool → Bool → Bool → ℕ → PteWrapper
pte_wrapper rw_bit user exec_disable addr = record {
  rw_bit = rw_bit;
  user = user;
  exec_disable = exec_disable;
  virt_addr = addr;
  cache = false;
  shareable = false;
  wt = false;
  present = true;
  accessed = false;
}

-- PTEWrapper::Reclaim.
unfoldable pub reclaim : PteWrapper → PteWrapper × Bool
reclaim e = if e.present then (e, false) else (record e { present = true }, true)

-- PageMgr::Request; `none` if the search for a bitmap is left open.
unfoldable pub request : Machine → Memory → Bool → Bool → Bool → ℕ → Option (PteWrapper × Memory)
unfolding pte_wrapper
request k m rw_bit user exec_disable size = elim (alloc_bit_map k m size) [
  | returns p m' ↦ some (pte_wrapper rw_bit user exec_disable p, m')
  | out_of_fuel ↦ none
]

-- PageMgr::Free.
unfoldable pub free : Memory → PteWrapper → Memory × Bool
free m e = mm_free_bit_map m e.virt_addr

-- Pmm::RequestPage; the inner `none` is the empty reference that reports a failure.
unfoldable pub request_page : Machine → Memory → Bool → Bool → Option (Option PteWrapper × Memory)
unfolding request
request_page k m user read_write = elim (request k m user read_write false page_size) [
  | none ↦ none
  | some (e, m') ↦ some (if e.present then none else some e, m')
]

-- The operations of Pmm on a reference to an entry: each fails on an empty reference.
abbrev pub through : Option PteWrapper → (PteWrapper → PteWrapper) → Option PteWrapper × Bool
through none change = (none, false)
through (some e) change = (some (change e), true)

unfoldable pub free_page : Option PteWrapper → Option PteWrapper × Bool
free_page e = through e (λ e. record e { present = false })

unfoldable pub toggle_present : Option PteWrapper → Bool → Option PteWrapper × Bool
toggle_present e enable = through e (λ e. record e { present = enable })

-- As written: the field is `fRw`.
unfoldable pub toggle_user : Option PteWrapper → Bool → Option PteWrapper × Bool
toggle_user e enable = through e (λ e. record e { rw_bit = enable })

unfoldable pub toggle_rw : Option PteWrapper → Bool → Option PteWrapper × Bool
toggle_rw e enable = through e (λ e. record e { rw_bit = enable })

unfoldable pub toggle_share : Option PteWrapper → Bool → Option PteWrapper × Bool
toggle_share e enable = through e (λ e. record e { shareable = enable })

-- Whenever the search for a bitmap is decided, the page that the physical memory manager asks for
-- is present, which it takes for a failure: no request is given a page, though a bitmap has been
-- allocated for it.
pub request_page-none :
    (k : Machine) (m : Memory) (user read_write : Bool) {r : Option PteWrapper} {m' : Memory}
    → request_page k m user read_write ≡ some (r, m')
    → (r ≡ none) × ((p : ℕ) × (alloc_bit_map k m page_size ≡ returns p m'))
unfolding request_page
request_page-none k m user read_write h = ground arith

abbrev pub user_of : Option PteWrapper → Option Bool
user_of none = none
user_of (some e) = some e.user

-- Changing the user bit of an entry changes its write bit, and leaves the user bit as it was.
toggle_user_keeps :
    (e : PteWrapper) (enable : Bool)
    → (toggle_user (some e) enable ≡ toggle_rw (some e) enable)
      × (user_of (toggle_user (some e) enable).0 ≡ some e.user)
unfolding toggle_user toggle_rw
toggle_user_keeps e enable = (refl, refl)
