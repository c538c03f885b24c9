-- ===== src/Nefs/Remove/Still.antt =====
-- RemoveCatalog of dev/ZKAKit/src/FS/NeFS.cc, and the searches that follow it.
pub mod Touch
use mathlib.Core.Path.{subst}
use zka.Common.{
  ℕ, ◌+◌, ◌*◌, ◌%◌, ◌^◌, ◌≤◌, ◌<◌, ◌≡◌, ◌≢◌, refl, sym, ap, ◌∙◌, ◌⊎◌, inl, inr, Bool, ◌&&◌, true,
  false, Option, none, some, List, [], ◌∷◌, length, if◌then◌else◌, ◌==◌, ◌||◌, leb, or_bits,
  or_bits_lt, Bool-cases, arith,
}
use zka.Storage.{Drive, IsLawful, Apart, gap}
use zka.NewKit.Utils.{equals}
use zka.Nefs.{root_catalog_start_address, catalog_start_address, flag_deleted, root, sub64}
use zka.Nefs.Structs.{Catalog, Block}
use zka.Nefs.Layout.Catalogs.{IsCatalog}
use zka.Nefs.Layout.Blocks.{IsBlock}
use zka.Nefs.Volume.{
  Result, ok, fault, out_of_fuel, ◌>>=◌, Reply, is_created, read_catalog, read_block, write_catalog,
  write_block,
}
use zka.Nefs.Volume.Frame.{
  IsPlaced, read_catalog-IsCatalog, read_block-IsBlock, read_catalog-write_catalog,
  read_catalog-write_catalog-Apart, read_block-write_catalog, read_block-write_block,
  read_catalog-write_block,
}
use zka.Nefs.Find.{Entry, find_catalog, matches}
use zka.Nefs.Find.Lookup.{Chain, last, next, entry_at, result_of, resolve, find_catalog-resolve}
use zka.Nefs.Find.Total.{find_catalog-read_catalog}
use zka.Nefs.Remove.{mark_deleted, forget_one, write_removed, remove_found, remove_catalog}
use zka.Nefs.Remove.Still.Touch.{
  mark_deleted-is_created, touch, touch_all, touch_found, touch_result, length-touch_all,
  find-touch, touch_same, touch_other, touch_free, touch-next,
}

mark_deleted-IsCatalog : (c : Catalog) → IsCatalog c → IsCatalog (mark_deleted c)
mark_deleted-IsCatalog c h =
    (h.0, h.1, or_bits_lt 16 c.flags flag_deleted, h.3, h.4, h.5, h.6, h.7, h.8, h.9, h.10)

forget_one-IsBlock : (b : Block) → IsBlock b → IsBlock (forget_one b)
forget_one-IsBlock b h =
    (h.0, h.1, h.2, h.3, h.4, omega arith, h.6, h.7, omega arith, h.9, h.10, h.11, h.12, h.13)

-- Catalogs that stand at an address or apart from it.
abbrev pub AreSpaced : ℕ → ℕ → List Entry → Type 0
AreSpaced capacity x [] = Unit
AreSpaced capacity x (e ∷ es) =
    ((e.lba ≡ x) ⊎ Apart x e.lba) × IsPlaced capacity e.lba × AreSpaced capacity x es

Apart-ne : (x a : ℕ) → Apart x a → a ≢ x
Apart-ne x a (inl h) = λ e. absurd (omega arith)
Apart-ne x a (inr h) = λ e. absurd (omega arith)

module _ (v : Drive) (capacity : ℕ) (law : IsLawful v capacity) (d : v.State) (x : ℕ) where
  abbrev removed : v.State
  removed = write_removed v d (entry_at v d x)

  abbrev marked : v.State
  marked = write_catalog v d x (mark_deleted (read_catalog v d x))

  marked-IsCatalog : IsCatalog (mark_deleted (read_catalog v d x))
  marked-IsCatalog = mark_deleted-IsCatalog _ (read_catalog-IsCatalog v capacity law d x)

  forgotten : IsBlock (forget_one (read_block v marked))
  forgotten = forget_one-IsBlock _ (read_block-IsBlock v capacity law marked)

  read_block-removed : IsPlaced capacity x → read_block v removed ≡ forget_one (read_block v d)
  unfolding write_removed
  read_block-removed p =
      read_block-write_block v capacity law marked _ forgotten (omega (arith, p.0, p.1))
      ∙ ap forget_one (read_block-write_catalog v capacity law d x _ marked-IsCatalog p.1 p.0)

  read_catalog-removed :
      IsPlaced capacity x → read_catalog v removed x ≡ mark_deleted (read_catalog v d x)
  unfolding write_removed
  read_catalog-removed p =
      read_catalog-write_block v capacity law marked x _ forgotten p.1 p.0
      ∙ read_catalog-write_catalog v capacity law d x _ marked-IsCatalog p.1

  read_catalog-removed-Apart :
      (a : ℕ)
      → IsPlaced capacity x
      → IsPlaced capacity a
      → Apart x a
      → read_catalog v removed a ≡ read_catalog v d a
  unfolding write_removed
  read_catalog-removed-Apart a p q r =
      read_catalog-write_block v capacity law marked a _ forgotten q.1 q.0
      ∙ read_catalog-write_catalog-Apart v capacity law d x a _ marked-IsCatalog p.1 q.1 r

  entry_at-removed :
      (a : ℕ)
      → is_created (read_catalog v d x) ≡ true
      → IsPlaced capacity x
      → IsPlaced capacity a
      → (a ≡ x) ⊎ Apart x a
      → entry_at v removed a ≡ touch x (entry_at v d a)
  entry_at-removed a c p q (inl e) = rw e (
      ap (λ r. record { lba = x; catalog = r }) (read_catalog-removed p)
      ∙ sym (touch_same x (entry_at v d x) refl c))
  entry_at-removed a c p q (inr r) =
      ap (λ r. record { lba = a; catalog = r }) (read_catalog-removed-Apart a p q r)
      ∙ sym (touch_other x (entry_at v d a) (Apart-ne x a r))

  next-removed :
      (a : ℕ)
      → entry_at v removed a ≡ touch x (entry_at v d a)
      → (read_catalog v removed a).next_sibling ≡ (read_catalog v d a).next_sibling
  next-removed a e = ap (λ r. r.catalog.next_sibling) e ∙ touch-next x (entry_at v d a)

  Chain-removed :
      {a : ℕ} {es : List Entry}
      → is_created (read_catalog v d x) ≡ true
      → IsPlaced capacity x
      → Chain v d a es
      → AreSpaced capacity x es
      → Chain v removed a (touch_all x es)
  Chain-removed c p (last a h f) s =
      let e = entry_at-removed a c p s.1 s.0 in
      let same = e ∙ touch_free x (entry_at v d a) f in
      subst (λ r. Chain v removed a (r ∷ [])) e
        (last a (rw (next-removed a e) h) (ap (λ r. is_created r.catalog) same ∙ f))
  Chain-removed c p (next a es h k) s =
      let e = entry_at-removed a c p s.1 s.0 in
      subst (λ r. Chain v removed a (r ∷ touch_all x es)) e
        (next a (touch_all x es) (rw (next-removed a e) h) (
          subst (λ n. Chain v removed n (touch_all x es)) (sym (next-removed a e))
            (Chain-removed c p k s.2)))

  find_catalog-removed :
      (depth fuel : ℕ) (name : List ℕ) (es : List Entry)
      → is_created (read_catalog v d x) ≡ true
      → IsPlaced capacity x
      → Chain v d (read_block v d).start_catalog es
      → AreSpaced capacity x es
      → length es ≤ fuel
      → find_catalog v removed depth fuel name ≡ touch_result x (find_catalog v d depth fuel name)
  find_catalog-removed depth fuel name es c p k s l =
      find_catalog-resolve v removed depth fuel name (touch_all x es)
        (rw (read_block-removed p) (Chain-removed c p k s)) (rw (length-touch_all x es) l)
      ∙ find-touch x depth es name
      ∙ ap (touch_result x) (sym (find_catalog-resolve v d depth fuel name es k l))

and-right : (a b : Bool) → (a && b) ≡ true → b ≡ true
and-right true b h = h
and-right false b h = ground arith

remove_found-created :
    (v : Drive) (d : v.State) (e : Entry)
    → is_created e.catalog ≡ true
    → remove_found v d (some e)
      ≡ ok (record { value = true; disk = write_removed v d e; local_code = none })
unfolding remove_found
remove_found-created v d e c = elim (Bool-cases (leb catalog_start_address e.lba)) [
  | inl h ↦ rw h refl
  | inr h ↦ rw (h, c) refl
]

-- On a drive that keeps its sectors apart, and a volume whose catalogs are such a list and stand
-- apart, RemoveCatalog of a name that is found answers true and moves the partition's counts. But
-- the deleted flag leaves bits of the created one: every search, for any name, gives afterwards
-- what it gave before, the removed catalog too, with its flag added.
pub remove_catalog-still_found :
    (v : Drive) (capacity : ℕ) (law : IsLawful v capacity) (d : v.State)
    → (depth fuel : ℕ) (name : List ℕ) (e : Entry) (es : List Entry) → equals name root ≡ false
    → find_catalog v d depth fuel name ≡ ok (some e)
    → Chain v d (read_block v d).start_catalog es
    → AreSpaced capacity e.lba es
    → IsPlaced capacity e.lba
    → length es ≤ fuel
    → (d' : v.State) × (remove_catalog v depth fuel d (some name)
        ≡ ok (record { value = true; disk = d'; local_code = none }))
      × (read_block v d' ≡ forget_one (read_block v d))
      × ((depth' : ℕ) (name' : List ℕ)
          → find_catalog v d' depth' fuel name'
            ≡ touch_result e.lba (find_catalog v d depth' fuel name'))
unfolding remove_catalog
remove_catalog-still_found v capacity law d depth fuel name e es r f k s p l =
    let found = find_catalog-read_catalog v d depth fuel name e f in
    let same = ap (λ c. record { lba = e.lba; catalog = c }) (sym found.1) in
    let created = and-right (equals name e.catalog.name) (is_created e.catalog) found.0 in
    let kept = sym (ap is_created found.1) ∙ created in
    (
      write_removed v d (entry_at v d e.lba),
      rw (r, f)
          (remove_found-created v d e created
            ∙ ap (λ q. ok (record { value = true; disk = write_removed v d q; local_code = none }))
                (sym same)),
      read_block-removed v capacity law d e.lba p,
      λ depth' name'. find_catalog-removed v capacity law d e.lba depth' fuel name' es kept p k s l,
    )
