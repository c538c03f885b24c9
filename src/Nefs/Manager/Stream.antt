-- ===== src/Nefs/Manager/Stream.antt =====
-- Streams of dev/ZKAKit/KernelKit/FileMgr.h over a mounted NeFS.
use mathlib.Core.Path.{subst}
use zka.Common.{
  ℕ, ◌≡◌, refl, ◌⊎◌, inl, inr, Bool, true, false, Option, none, some, List, ltb, ◌==◌, Bool-cases,
  any_bits,
}
use zka.Storage.{Drive}
use zka.Files.{FileStream, may_read, may_write, read_all, read_name, write_chunk}
use zka.Nefs.{kind_file}
use zka.Nefs.Structs.{Catalog}
use zka.Nefs.Volume.{Result, ok, fault, out_of_fuel, ◌>>=◌, Reply}
use zka.Nefs.Fork.{fork_struct_size, write_data}
use zka.Nefs.Fork.Stored.{Stored}
use zka.Nefs.Fork.Data.{IsWritten, write_data-cases}
use zka.Nefs.Manager.{
  main_data, file_flag_rsrc, ne_file_system_mgr, read_node, read_fork_named, write_node,
  write_fork_named,
}

read_node-nothing :
    (v : Drive) (depth fuel : ℕ) (d : v.State) (node : Option Catalog)
    → read_node v depth fuel d node 101 0 ≡ ok none
unfolding read_node
read_node-nothing v depth fuel d none = refl
read_node-nothing v depth fuel d (some c) = refl

-- ReadAll, and Read of a fork's name, return null for every stream over NeFS, whatever the disk
-- holds: they ask for 0 bytes.
pub streams_read_nothing :
    (v : Drive) (depth fuel : ℕ) (d : v.State) (s : FileStream (ne_file_system_mgr v depth fuel))
    (name : List ℕ)
    → (read_all (ne_file_system_mgr v depth fuel) d s ≡ ok none)
      × (read_name (ne_file_system_mgr v depth fuel) d s name ≡ ok none)
unfolding read_all read_name read_node read_fork_named
streams_read_nothing v depth fuel d s name = elim (Bool-cases (may_read s.restrict)) [
  | inl h ↦ rw (h, read_node-nothing v depth fuel d s.file) (refl, refl)
  | inr h ↦ rw h (refl, refl)
]

module _ (v : Drive) (d : v.State) where
  -- The disk is as it was, or `size` bytes are stored in a fork main_data.
  abbrev pub IsStored : List ℕ → ℕ → Option Catalog → v.State → Type 0
  IsStored content size none d' = d' ≡ d
  IsStored content size (some c) d' = (d' ≡ d) ⊎ Stored v d c content size main_data d'

  abbrev Stores : List ℕ → ℕ → Option Catalog → Result v.State → Type 0
  Stores content size node (ok d') = IsStored content size node d'
  Stores content size target fault = Unit
  Stores content size target out_of_fuel = Unit

  Stores-kept :
      (content : List ℕ) (size : ℕ) (node : Option Catalog) → Stores content size node (ok d)
  Stores-kept content size none = refl
  Stores-kept content size (some c) = inl refl

  IsStored-of :
      (content : List ℕ) (size : ℕ) (c : Catalog) (b : Bool) (d' : v.State)
      → IsWritten v d c content size main_data b d'
      → IsStored content size (some c) d'
  IsStored-of content size c false d' h = inl h
  IsStored-of content size c true d' h = inr h

  Stores-write_data :
      (fuel : ℕ) (c : Catalog) (rsrc : Bool) (content : List ℕ) (size : ℕ)
      → (r : Result (Reply v Bool)) → write_data v fuel d c rsrc content size main_data ≡ r
      → Stores content size (some c) (r >>= λ q. ok q.disk)
  Stores-write_data fuel c rsrc content size (ok q) e =
      IsStored-of content size c q.value q.disk
        (write_data-cases v d fuel c rsrc content size main_data q e)
  Stores-write_data fuel c rsrc content size fault e = tt
  Stores-write_data fuel c rsrc content size out_of_fuel e = tt

  write_node-Stores :
      (depth fuel : ℕ) (node : Option Catalog) (content : List ℕ) (flags size : ℕ)
      → Stores content size node (write_node v depth fuel d node (some content) flags size)
  unfolding write_node write_fork_named
  write_node-Stores depth fuel none content flags size = refl
  write_node-Stores depth fuel (some c) content flags size = elim (Bool-cases (size == 0)) [
    | inl z ↦ rw z (inl refl)
    | inr z ↦ elim (Bool-cases (ltb fork_struct_size size)) [
      | inl g ↦ rw (z, g) (inl refl)
      | inr g ↦ elim (Bool-cases (c.kind == kind_file)) [
        | inl f ↦
            rw (z, g, f)
              (Stores-write_data fuel c (any_bits 32 flags file_flag_rsrc) content size
                (write_data v fuel d c (any_bits 32 flags file_flag_rsrc) content size main_data)
                refl)
        | inr f ↦ rw (z, g, f) (inl refl)
      ]
    ]
  ]

  -- Whenever a write of a stream over NeFS returns, the disk is as it was, or the first 102 bytes
  -- of the data, with zeros behind them, are written as 16 MiB at the data of a fork `main_data` of
  -- the file that is in use and holds exactly 102 bytes, and then the fork's header, marked as
  -- created, whatever the size and the offset of the write.
  pub write_chunk-IsStored :
      (depth fuel : ℕ) (s : FileStream (ne_file_system_mgr v depth fuel))
      → (offset size : ℕ) (content : List ℕ) (d' : v.State)
      → write_chunk (ne_file_system_mgr v depth fuel) d s offset (some content) size ≡ ok d'
      → IsStored content 102 s.file d'
  unfolding write_chunk
  write_chunk-IsStored depth fuel s offset size content d' h =
      elim (Bool-cases (may_write s.restrict)) [
        | inl w ↦
            subst (Stores content 102 s.file) (rw w at h)
              (write_node-Stores depth fuel s.file content size 102)
        | inr w ↦ subst (Stores content 102 s.file) (rw w at h) (Stores-kept content 102 s.file)
      ]
