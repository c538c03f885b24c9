-- ===== src/Hal/Paging/Alias.antt =====
-- Which entry dev/ZKAKit/HALKit/AMD64/HalPagingMgrAMD64.cc takes for an address.
use zka.Common.{
  eq-test, neq-test, ℕ, ◌+◌, ◌*◌, ◌/◌, ◌%◌, ◌^◌, ◌<◌, ◌≡◌, ◌≢◌, refl, ap, ◌∙◌, sym, false, ◌||◌,
  ◌==◌, update, arith,
}
use zka.Hal.Paging.Flags.{mapped_as, with_flags-bits}
use zka.Hal.Paging.{
  Paging, map_page_table_entry, table_base, entry_in, index, pd_entry_of, slot_of, map_page,
}

-- The entries of a table stand in its page.
entry_in-base :
    (above i : ℕ) → above < 2 ^ 64 → i < 512 → table_base (entry_in above i) ≡ table_base above
entry_in-base above i h k = omega arith

entry_in_lt : (above i : ℕ) → entry_in above i < 2 ^ 64
entry_in_lt above i = omega arith

pd_entry_of-base : (cr3 v : ℕ) → cr3 < 2 ^ 64 → table_base (pd_entry_of cr3 v) ≡ table_base cr3
unfolding pd_entry_of
pd_entry_of-base cr3 v h =
    let i = index v 39 in
    let j = index v 30 in
    let k = index v 21 in
    let a = entry_in cr3 i in
    let b = entry_in a j in
    entry_in-base b k (entry_in_lt a j) (omega arith)
    ∙ entry_in-base a j (entry_in_lt cr3 i) (omega arith)
    ∙ entry_in-base cr3 i h (omega arith)

pub slot_of-index :
    (cr3 v : ℕ)
    → cr3 < 2 ^ 64
    → slot_of cr3 v ≡ (table_base cr3 + (table_base cr3 + v / 4096 % 512 * 8) % 2 ^ 64 * 8) % 2 ^ 64
unfolding slot_of
slot_of-index cr3 v h = rw (pd_entry_of-base cr3 v h) refl

-- What stands at an address.
abbrev pub entry_for : Paging → ℕ → ℕ
entry_for s v = s.word (slot_of s.cr3 v)

-- The state behind a call that has found an entry.
abbrev mapped : ℕ → ℕ → ℕ → Paging → Paging
mapped v flags pde s = record s {
  entry = update s.entry (entry_for s v) (mapped_as flags);
  page_store = record { pde = pde; pte = entry_for s v; v_addr = v; store_op = false };
}

or_zero : (a b : ℕ) → a ≢ 0 → b ≢ 0 → (a == 0 || b == 0) ≡ false
or_zero a b h k = ground arith

-- A call of mm_map_page for an address that is not the kept one, and that has an entry.
pub record IsCall (s : Paging) (v flags : ℕ) : Type 0 where
  pub some_address : v ≢ 0
  pub some_flags : flags ≢ 0
  pub fit : flags < 2 ^ 32
  pub not_kept : s.page_store.v_addr ≢ v
  pub there : entry_for s v ≢ 0

map_page-mapped :
    (v flags : ℕ) (s : Paging)
    → IsCall s v flags
    → map_page v flags s ≡ (0, mapped v flags (table_base (pd_entry_of s.cr3 v)) s)
unfolding map_page map_page_table_entry
map_page-mapped v flags s h =
    rw
      (
        or_zero v flags h.some_address h.some_flags,
        neq-test s.page_store.v_addr v h.not_kept,
        neq-test (entry_for s v) 0 h.there,
        with_flags-bits flags (s.entry (entry_for s v)) h.some_flags h.fit,
      )
      refl

slot_of-shared :
    (cr3 v w : ℕ) → cr3 < 2 ^ 64 → v / 4096 % 512 ≡ w / 4096 % 512 → slot_of cr3 v ≡ slot_of cr3 w
slot_of-shared cr3 v w h e =
    slot_of-index cr3 v h
    ∙ ap (λ (i : ℕ). (table_base cr3 + (table_base cr3 + i * 8) % 2 ^ 64 * 8) % 2 ^ 64) e
    ∙ sym (slot_of-index cr3 w h)

-- Where an address is not the kept one and has an entry, mm_map_page with some flags gives the
-- entry exactly these flags, and returns 0. But every other address with the same bits 12 to 20,
-- whatever its bits above, is then mapped through the same entry: mm_map_page of it returns 0 and
-- replaces the first address's flags.
pub map_page-shared :
    (s : Paging) (v w f g : ℕ)
    → s.cr3 < 2 ^ 64
    → IsCall s v f
    → w ≢ 0
    → g ≢ 0
    → g < 2 ^ 32
    → v ≢ w
    → v / 4096 % 512 ≡ w / 4096 % 512
    → ((map_page v f s).0 ≡ 0)
      × ((map_page w g (map_page v f s).1).0 ≡ 0)
      × ((map_page v f s).1.entry (entry_for s v) ≡ mapped_as f)
      × ((map_page w g (map_page v f s).1).1.entry (entry_for s v) ≡ mapped_as g)
map_page-shared s v w f g h c some_w some_g fit apart shared =
    let pde = table_base (pd_entry_of s.cr3 v) in
    let m = mapped v f pde s in
    let same = ap s.word (slot_of-shared s.cr3 v w h shared) in
    let d : IsCall m w g = record {
      some_address = some_w;
      some_flags = some_g;
      fit = fit;
      not_kept = apart;
      there = λ e. c.there (same ∙ e);
    } in
    rw (map_page-mapped v f s c, map_page-mapped w g m d)
      (
        refl,
        refl,
        ground arith,
        ap (λ (a : ℕ). update m.entry a (mapped_as g) (entry_for s v)) (sym same) ∙ ground arith,
      )

-- A call for the kept address.
map_page-kept :
    (v g : ℕ) (s : Paging)
    → v ≢ 0
    → g ≢ 0
    → g < 2 ^ 32
    → s.page_store.v_addr ≡ v
    → s.page_store.pte ≢ 0
    → ((map_page v g s).0 ≡ 0) × ((map_page v g s).1.entry s.page_store.pte ≡ mapped_as g)
unfolding map_page map_page_table_entry
map_page-kept v g s n k fit kept there =
    rw
      (
        or_zero v g n k,
        eq-test s.page_store.v_addr v kept,
        neq-test s.page_store.pte 0 there,
        with_flags-bits g (s.entry s.page_store.pte) k fit,
      )
      (refl, ground arith)

-- Where an address is not the kept one and has an entry, a second mm_map_page of it writes the
-- first call's entry, even if CR3 and the tables have changed in between.
pub map_page-stale :
    (s : Paging) (v f g c : ℕ) (tables : ℕ → ℕ)
    → IsCall s v f
    → g ≢ 0
    → g < 2 ^ 32
    → ((map_page v g (record (map_page v f s).1 { cr3 = c; word = tables })).0 ≡ 0)
      × ((map_page v g (record (map_page v f s).1 { cr3 = c; word = tables })).1.entry
            (entry_for s v)
          ≡ mapped_as g)
map_page-stale s v f g c tables k some_g fit =
    let m = mapped v f (table_base (pd_entry_of s.cr3 v)) s in
    rw (map_page-mapped v f s k) (
      map_page-kept v g (record m { cr3 = c; word = tables }) k.some_address some_g fit refl
        k.there)
