-- ===== src/Files.antt =====
-- The file manager, dev/ZKAKit/KernelKit/FileMgr.h and dev/ZKAKit/src/FileMgr.cc: the filesystem that is mounted, and
-- streams over files. A filesystem's answers are values of a type `Answer A`, which the manager passes on.
pub mod Restrict
pub mod Indexer
use zka.Common.{ℕ, Bool, true, false, ◌||◌, Option, none, some, List, [], ◌∷◌, if◌then◌else◌, ◌==◌}
use zka.NewKit.Utils.{string_len, string_cmp}

-- IFilesystemMgr, as far as streams call it.
pub record FilesystemMgr : Type 1 where
  pub State : Type 0
  pub Node : Type 0
  pub Content : Type 0
  pub Answer : Type 0 → Type 0
  pub returns : {A : Type 0} → A → Answer A
  pub open_node : State → Option (List ℕ) → Option (List ℕ) → Answer (Option Node)
  pub read : State → Option Node → ℕ → ℕ → Answer (Option Content)
  pub read_named : State → List ℕ → Option Node → ℕ → ℕ → Answer (Option Content)
  pub write : State → Option Node → Option (List ℕ) → ℕ → ℕ → Answer State
  pub seek_node : State → Option Node → ℕ → Bool

-- `kMountedFilesystem`: IFilesystemMgr::GetMounted, ::Unmount and ::Mount. Each gives the pointer that it leaves, and
-- what it returns.
module _ {ℓ} {M : Type ℓ} where
  unfoldable pub get_mounted : Option M → Option M
  get_mounted mounted = mounted

  unfoldable pub unmount : Option M → Option M × Option M
  unmount none = (none, none)
  unmount (some m) = (none, some m)

  unfoldable pub mount : Option M → Option M → Option M × Bool
  mount mounted none = (mounted, false)
  mount mounted (some m) = (some m, true)

-- `kFileMgrRestrict...`.
pub data RestrictKind : Type 0 where
  read_only read_binary write_only write_binary read_write read_write_binary : RestrictKind

pub record FileRestrictKind : Type 0 where
  pub restrict : List ℕ
  pub mapped_to : RestrictKind

-- `kRestrictList`.
abbrev pub restrict_list : List FileRestrictKind
restrict_list =
    record { restrict = b'r' ∷ []; mapped_to = read_only }
    ∷ record { restrict = b'r' ∷ b'b' ∷ []; mapped_to = read_binary }
    ∷ record { restrict = b'r' ∷ b'w' ∷ b'b' ∷ []; mapped_to = read_write_binary }
    ∷ record { restrict = b'w' ∷ []; mapped_to = write_only }
    ∷ record { restrict = b'r' ∷ b'w' ∷ []; mapped_to = read_write }
    ∷ []

-- The loop of FileStream's constructor over the list.
unfoldable pub find_restrict : Option (List ℕ) → List FileRestrictKind → RestrictKind
unfolding string_cmp string_len
find_restrict restrict_type [] = read_binary
find_restrict restrict_type (r ∷ rs) =
    if string_cmp restrict_type (some r.restrict) (string_len r.restrict) == 0
    then r.mapped_to
    else find_restrict restrict_type rs

-- `fFileRestrict` behind the constructor.
unfoldable pub file_restrict : Option (List ℕ) → RestrictKind
unfolding find_restrict
file_restrict restrict_type = find_restrict restrict_type restrict_list

unfoldable pub may_read : RestrictKind → Bool
may_read read_only = true
may_read read_binary = true
may_read read_write = true
may_read read_write_binary = true
may_read _ = false

unfoldable pub may_write : RestrictKind → Bool
may_write write_only = true
may_write write_binary = true
may_write read_write = true
may_write read_write_binary = true
may_write _ = false

abbrev pub file_read_all : ℕ
file_read_all = 101

abbrev pub file_read_chunk : ℕ
file_read_chunk = 102

-- A stream over a mounted filesystem's node.
pub record FileStream (m : FilesystemMgr) : Type 0 where
  pub file : Option m.Node
  pub restrict : RestrictKind

module _ (m : FilesystemMgr) (d : m.State) (s : FileStream m) where
  -- ReadAll.
  unfoldable pub read_all : m.Answer (Option m.Content)
  unfolding may_read
  read_all = if may_read s.restrict then m.read d s.file file_read_all 0 else m.returns none

  -- Read(fName).
  unfoldable pub read_name : List ℕ → m.Answer (Option m.Content)
  unfolding may_read
  read_name name =
      if may_read s.restrict then m.read_named d name s.file file_read_all 0 else m.returns none

  -- Read(offset, sz): what Seek answers is not looked at.
  unfoldable pub read_chunk : ℕ → ℕ → m.Answer (Option m.Content)
  unfolding may_read
  read_chunk offset size =
      if may_read s.restrict then m.read d s.file file_read_chunk size else m.returns none

  -- Write(offset, data, sz): the size stands where the flags belong.
  unfoldable pub write_chunk : ℕ → Option (List ℕ) → ℕ → m.Answer m.State
  unfolding may_write
  write_chunk offset content size =
      if may_write s.restrict then m.write d s.file content size file_read_chunk else m.returns d
