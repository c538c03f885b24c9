-- ===== src/Nefs/Remove/Still/Touch.antt =====
-- A list of catalogs one of which is marked as RemoveCatalog of dev/ZKAKit/src/FS/NeFS.cc marks it.
use zka.Common.{
  ℕ, zero, suc, ◌≡◌, ◌≢◌, refl, ap, ◌∙◌, inl, inr, true, false, ◌&&◌, Option, none, some, List, [],
  ◌∷◌, length, if◌then◌else◌, ◌==◌, and_bits, any_bits, any_bits-or_bits, Bool-cases, Option-cases,
  arith,
}
use zka.NewKit.Utils.{equals}
use zka.Nefs.{flag_deleted, flag_created, root}
use zka.Nefs.Structs.{Catalog}
use zka.Nefs.Path.{parent_name}
use zka.Nefs.Volume.{Result, ok, fault, out_of_fuel, ◌>>=◌, is_created}
use zka.Nefs.Find.{Entry, matches}
use zka.Nefs.Find.Lookup.{Place, lookup, or_else, resolve_below, resolve, result_of}
use zka.Nefs.Remove.{mark_deleted}

deleted_is_created : any_bits 16 flag_deleted flag_created ≡ true
unfolding any_bits and_bits
deleted_is_created = refl

-- Bits 1, 2 and 6 are in both flags.
pub mark_deleted-is_created : (c : Catalog) → is_created (mark_deleted c) ≡ true
unfolding is_created
mark_deleted-is_created c = any_bits-or_bits 16 c.flags flag_deleted flag_created deleted_is_created

abbrev pub touch : ℕ → Entry → Entry
touch x e =
    if e.lba == x && is_created e.catalog then record e { catalog = mark_deleted e.catalog } else e

abbrev pub touch_all : ℕ → List Entry → List Entry
touch_all x [] = []
touch_all x (e ∷ es) = touch x e ∷ touch_all x es

abbrev pub touch_found : ℕ → Option Entry → Option Entry
touch_found x none = none
touch_found x (some e) = some (touch x e)

abbrev pub touch_result : ℕ → Result (Option Entry) → Result (Option Entry)
touch_result x (ok o) = ok (touch_found x o)
touch_result x fault = fault
touch_result x out_of_fuel = out_of_fuel

pub length-touch_all : (x : ℕ) (es : List Entry) → length (touch_all x es) ≡ length es
length-touch_all x [] = refl
length-touch_all x (e ∷ es) = ap suc (length-touch_all x es)

abbrev touch_place : ℕ → Option Place → Option Place
touch_place x none = none
touch_place x (some q) = some (record { entry = touch x q.entry; behind = touch_all x q.behind })

abbrev touch_places : ℕ → Result (Option Place) → Result (Option Place)
touch_places x (ok o) = ok (touch_place x o)
touch_places x fault = fault
touch_places x out_of_fuel = out_of_fuel

≡→== : (a b : ℕ) → a ≡ b → (a == b) ≡ true
≡→== a b h = ground arith

≢→== : (a b : ℕ) → a ≢ b → (a == b) ≡ false
≢→== a b h = ground arith

matches-touch :
    (x : ℕ) (name : List ℕ) (e : Entry) → matches name (touch x e).catalog ≡ matches name e.catalog
matches-touch x name e = elim (Bool-cases (e.lba == x)) [
  | inl a ↦ elim (Bool-cases (is_created e.catalog)) [
    | inl c ↦
        rw (a, c) (ap (λ b. equals name e.catalog.name && b) (mark_deleted-is_created e.catalog))
    | inr c ↦ rw (a, c) (ap (λ b. equals name e.catalog.name && b) c)
  ]
  | inr a ↦ rw a refl
]

lookup-touch_all :
    (x : ℕ) (name : List ℕ) (es : List Entry)
    → lookup name (touch_all x es) ≡ touch_place x (lookup name es)
lookup-touch_all x name [] = refl
lookup-touch_all x name (e ∷ es) = elim (Bool-cases (matches name e.catalog)) [
  | inl m ↦ rw (matches-touch x name e, m) refl
  | inr m ↦ rw (matches-touch x name e, m) (lookup-touch_all x name es)
]

or_else-touch_place :
    (x : ℕ) (o q : Option Place)
    → or_else (touch_place x o) (touch_place x q) ≡ touch_place x (or_else o q)
or_else-touch_place x none q = refl
or_else-touch_place x (some o) q = refl

resolve_below-touch :
    (x : ℕ) (es : List Entry) (name p : List ℕ) (o : Option Place)
    → resolve_below (touch_all x es) name p (touch_place x o)
      ≡ touch_place x (resolve_below es name p o)
resolve_below-touch x es name p none = refl
resolve_below-touch x es name p (some q) = elim (Bool-cases (equals p root)) [
  | inl r ↦ rw r (lookup-touch_all x name es)
  | inr r ↦
      rw (r, lookup-touch_all x name q.behind, lookup-touch_all x name es)
        (or_else-touch_place x (lookup name q.behind) (lookup name es))
]

then_below-touch :
    (x : ℕ) (es : List Entry) (name p : List ℕ) (r : Result (Option Place))
    → (touch_places x r >>= λ o. ok (resolve_below (touch_all x es) name p o))
      ≡ touch_places x (r >>= λ o. ok (resolve_below es name p o))
then_below-touch x es name p (ok o) = ap ok (resolve_below-touch x es name p o)
then_below-touch x es name p fault = refl
then_below-touch x es name p out_of_fuel = refl

resolve-touch_all :
    (x depth : ℕ) (es : List Entry) (name : List ℕ)
    → resolve depth (touch_all x es) name ≡ touch_places x (resolve depth es name)
resolve-touch_all x zero es name = refl
resolve-touch_all x (suc depth) es name = elim (Bool-cases (equals name root)) [
  | inl r ↦ rw r (ap ok (lookup-touch_all x name es))
  | inr r ↦ elim (Option-cases (parent_name name)) [
    | inl e ↦ rw (r, e) refl
    | inr e ↦
        rw (r, e.1, resolve-touch_all x depth es e.0)
          (then_below-touch x es name e.0 (resolve depth es e.0))
  ]
]

result_of-touch_places :
    (x : ℕ) (r : Result (Option Place))
    → result_of (touch_places x r) ≡ touch_result x (result_of r)
result_of-touch_places x (ok none) = refl
result_of-touch_places x (ok (some q)) = refl
result_of-touch_places x fault = refl
result_of-touch_places x out_of_fuel = refl

-- A search in the marked list finds what it found before, marked.
pub find-touch :
    (x depth : ℕ) (es : List Entry) (name : List ℕ)
    → result_of (resolve depth (touch_all x es) name)
      ≡ touch_result x (result_of (resolve depth es name))
find-touch x depth es name =
    ap result_of (resolve-touch_all x depth es name)
    ∙ result_of-touch_places x (resolve depth es name)

pub touch_same :
    (x : ℕ) (e : Entry)
    → e.lba ≡ x
    → is_created e.catalog ≡ true
    → touch x e ≡ record e { catalog = mark_deleted e.catalog }
touch_same x e h c = rw (≡→== e.lba x h, c) refl

pub touch_other : (x : ℕ) (e : Entry) → e.lba ≢ x → touch x e ≡ e
touch_other x e h = rw (≢→== e.lba x h) refl

pub touch_free : (x : ℕ) (e : Entry) → is_created e.catalog ≡ false → touch x e ≡ e
touch_free x e c = elim (Bool-cases (e.lba == x)) [ inl a ↦ rw (a, c) refl | inr a ↦ rw a refl ]

pub touch-next : (x : ℕ) (e : Entry) → (touch x e).catalog.next_sibling ≡ e.catalog.next_sibling
touch-next x e = elim (Bool-cases (e.lba == x)) [
  | inl a ↦ elim (Bool-cases (is_created e.catalog)) [
    | inl c ↦ rw (a, c) refl
    | inr c ↦ rw (a, c) refl
  ]
  | inr a ↦ rw a refl
]
