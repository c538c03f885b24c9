-- ===== src/Nefs/Fork/Data.antt =====
-- What WriteCatalog and ReadCatalog of dev/ZKAKit/src/FS/NeFS.cc do along a catalog's forks.
use mathlib.Core.Path.{subst}
use zka.Common.{
  ℕ, zero, suc, ◌≤◌, ◌<◌, ◌≡◌, ◌≢◌, refl, inl, inr, Bool, true, false, ◌&&◌, ◌||◌, Option, none,
  some, List, if◌then◌else◌, ltb, leb, ◌==◌, Bool-cases, arith,
}
use zka.Storage.{Drive}
use zka.NewKit.Utils.{equals}
use zka.Nefs.{catalog_start_address, fork_data_size}
use zka.Nefs.Structs.{Catalog, Fork}
use zka.Nefs.Volume.{Result, ok, fault, out_of_fuel, ◌>>=◌, Reply, read_fork}
use zka.Nefs.Fork.Stored.{Stored, write_blob-Stored}
use zka.Nefs.Fork.{takes_data, write_loop, write_data, read_loop, read_data}

lt→true : (a b : ℕ) → a < b → ltb a b ≡ true
lt→true a b h = ground arith

lt→leb : (a b : ℕ) → a < b → leb a b ≡ true
lt→leb a b h = ground arith

ltb→≤ : (a b : ℕ) → ltb a b ≡ false → b ≤ a
ltb→≤ a b h = ground arith

leb→< : (a b : ℕ) → leb a b ≡ false → b < a
leb→< a b h = ground arith

within : (size : ℕ) → (ltb fork_data_size size || size == 0) ≡ false → size ≤ fork_data_size
within size h = ground arith

module _ (v : Drive) (d : v.State) where
  -- The forks that `NextSibling` leads through, `n` of them.
  pub data Forks : ℕ → ℕ → Type 0 where
    end : (lba : ℕ) → lba < catalog_start_address → Forks 0 lba
    fork : (n lba : ℕ) → Forks n (read_fork v d lba).next_sibling → Forks (suc n) lba

  -- The disk is as it was, or the data are stored.
  abbrev pub IsWritten : Catalog → List ℕ → ℕ → List ℕ → Bool → v.State → Type 0
  IsWritten c content size name false d' = d' ≡ d
  IsWritten c content size name true d' = Stored v d c content size name d'

  abbrev AnswersWrite : Catalog → List ℕ → ℕ → List ℕ → Result (Reply v Bool) → Type 0
  AnswersWrite c content size name (ok r) = IsWritten c content size name r.value r.disk
  AnswersWrite c content size name fault = Unit
  AnswersWrite c content size name out_of_fuel = Unit

  write_loop-AnswersWrite :
      (fuel : ℕ) (c : Catalog) (content : List ℕ) (size : ℕ) (name : List ℕ) (lba : ℕ)
      → size ≤ fork_data_size
      → AnswersWrite c content size name (write_loop v fuel d c content size name lba)
  unfolding write_loop
  write_loop-AnswersWrite zero c content size name lba fits = tt
  write_loop-AnswersWrite (suc fuel) c content size name lba fits =
      let f = read_fork v d lba in
      elim (Bool-cases (ltb lba catalog_start_address)) [
        | inl h ↦ rw h refl
        | inr h ↦ elim (Bool-cases (leb f.data_offset catalog_start_address)) [
          | inl g ↦ rw (h, g) refl
          | inr g ↦ elim (Bool-cases (takes_data c name size f)) [
            | inl t ↦
                rw (h, g, t)
                  (write_blob-Stored v d c content size name lba (ltb→≤ lba _ h) (leb→< _ _ g) fits
                    t)
            | inr t ↦
                rw (h, g, t) (write_loop-AnswersWrite fuel c content size name f.next_sibling fits)
          ]
        ]
      ]

  write_data-AnswersWrite :
      (fuel : ℕ) (c : Catalog) (rsrc : Bool) (content : List ℕ) (size : ℕ) (name : List ℕ)
      → AnswersWrite c content size name (write_data v fuel d c rsrc content size name)
  unfolding write_data
  write_data-AnswersWrite fuel c rsrc content size name =
      elim (Bool-cases (ltb fork_data_size size || size == 0)) [
        | inl h ↦ rw h refl
        | inr h ↦ rw h (
            write_loop-AnswersWrite fuel c content size name
              (if rsrc then c.resource_fork else c.data_fork) (within size h))
      ]

  -- Whenever WriteCatalog returns, it has either answered false and left the disk as it was, or
  -- answered true and found one fork on the disk that is in use, has the name and the catalog's
  -- name and holds as many bytes as are to be written, at most 16 MiB; and then it has written 16
  -- MiB at the fork's data, these bytes and zeros behind them, and the fork's header, marked as
  -- created, 512 bytes in front of the fork.
  pub write_data-cases :
      (fuel : ℕ) (c : Catalog) (rsrc : Bool) (content : List ℕ) (size : ℕ) (name : List ℕ)
      → (r : Reply v Bool) → write_data v fuel d c rsrc content size name ≡ ok r
      → IsWritten c content size name r.value r.disk
  write_data-cases fuel c rsrc content size name r h =
      subst (AnswersWrite c content size name) h
        (write_data-AnswersWrite fuel c rsrc content size name)

  -- A walk along forks whose links come to an end comes to an end.
  abbrev Ends {ℓ} : {A : Type ℓ} → Result A → Type 0
  Ends (ok a) = Unit
  Ends fault = Unit
  Ends out_of_fuel = ⊥

  Ends-ne {ℓ} : {A : Type ℓ} (r : Result A) → Ends r → r ≢ out_of_fuel
  Ends-ne r h e = elim (subst Ends e h) [ ]

  write_loop-Ends :
      (fuel : ℕ) (c : Catalog) (content : List ℕ) (size : ℕ) (name : List ℕ) {n lba : ℕ}
      → Forks n lba
      → n < fuel
      → Ends (write_loop v fuel d c content size name lba)
  unfolding write_loop
  write_loop-Ends zero c content size name h k = absurd (omega arith)
  write_loop-Ends (suc fuel) c content size name (end lba h) k = rw (lt→true lba _ h) tt
  write_loop-Ends (suc fuel) c content size name (fork n lba h) k =
      let f = read_fork v d lba in
      elim (Bool-cases (ltb lba catalog_start_address)) [
        | inl a ↦ rw a tt
        | inr a ↦ elim (Bool-cases (leb f.data_offset catalog_start_address)) [
          | inl g ↦ rw (a, g) tt
          | inr g ↦ elim (Bool-cases (takes_data c name size f)) [
            | inl t ↦ rw (a, g, t) tt
            | inr t ↦ rw (a, g, t) (write_loop-Ends fuel c content size name h (omega arith))
          ]
        ]
      ]

  read_loop-Ends :
      (fuel : ℕ) (c : Catalog) (name : List ℕ) (last : Option Fork) {n lba : ℕ}
      → Forks n lba
      → n < fuel
      → Ends (read_loop v fuel d c name last lba)
  unfolding read_loop
  read_loop-Ends zero c name last h k = absurd (omega arith)
  read_loop-Ends (suc fuel) c name last (end lba h) k = rw (lt→leb lba _ h) tt
  read_loop-Ends (suc fuel) c name last (fork n lba h) k =
      let f = read_fork v d lba in
      elim (Bool-cases (leb lba catalog_start_address)) [
        | inl a ↦ rw a tt
        | inr a ↦ elim (Bool-cases (equals name f.fork_name && equals c.name f.catalog_name)) [
          | inl s ↦ rw (a, s) tt
          | inr s ↦ rw (a, s) (read_loop-Ends fuel c name (some f) h (omega arith))
        ]
      ]

  then-Ends :
      (r : Result (Option Fork)) (code : Option ℕ)
      → Ends r
      → Ends {A = Option Fork × Option ℕ} (r >>= λ f. ok (f, code))
  then-Ends (ok o) code h = tt
  then-Ends fault code h = tt
  then-Ends out_of_fuel code h = h

  -- Along forks whose sibling links come to an end behind a number of them, WriteCatalog and
  -- ReadCatalog come to an end with any fuel above that number.
  pub data_loops-total :
      (fuel n : ℕ) (c : Catalog) (rsrc : Bool) (content : List ℕ) (size : ℕ) (name : List ℕ)
      → Forks n (if rsrc then c.resource_fork else c.data_fork)
      → n < fuel
      → (write_data v fuel d c rsrc content size name ≢ out_of_fuel)
        × (read_data v fuel d (some c) rsrc name ≢ out_of_fuel)
  unfolding write_data read_data
  data_loops-total fuel n c rsrc content size name h k = (
    Ends-ne (write_data v fuel d c rsrc content size name)
        (elim (Bool-cases (ltb fork_data_size size || size == 0)) [
          | inl g ↦ rw g tt
          | inr g ↦ rw g (write_loop-Ends fuel c content size name h k)
        ]),
    Ends-ne (read_data v fuel d (some c) rsrc name) (
        then-Ends (read_loop v fuel d c name none (if rsrc then c.resource_fork else c.data_fork))
          none (read_loop-Ends fuel c name none h k)),
  )
