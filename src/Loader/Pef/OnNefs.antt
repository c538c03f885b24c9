-- ===== src/Loader/Pef/OnNefs.antt =====
-- PEFLoader of dev/ZKAKit/src/PEFCodeMgr.cc over a stream of dev/ZKAKit/KernelKit/FileMgr.h on a mounted NeFS.
use zka.Common.{ℕ, ◌≡◌, refl, Option, none, some, List}
use zka.Storage.{Drive}
use zka.Files.{FileStream, read_name}
use zka.Nefs.Structs.{Fork}
use zka.Nefs.Layout.Forks.{encode_fork}
use zka.Nefs.Volume.{Result, ok, fault, ◌>>=◌}
use zka.Nefs.Manager.{ne_file_system_mgr}
use zka.Nefs.Manager.Stream.{streams_read_nothing}
use zka.Loader.Pef.{pef_header, load_path}

abbrev bytes_of : Option Fork → Option (List ℕ)
bytes_of none = none
bytes_of (some f) = some (encode_fork f)

-- `fFile->Read(name)`.
unfoldable pub read_file :
    (v : Drive) (depth fuel : ℕ) (d : v.State) (s : FileStream (ne_file_system_mgr v depth fuel))
    → List ℕ
    → Result (Option (List ℕ))
read_file v depth fuel d s name =
    read_name (ne_file_system_mgr v depth fuel) d s name >>= λ o. ok (bytes_of o)

-- Over a mounted NeFS the loader's constructor from a path reads through null, for every disk and
-- every stream.
pub load_path-fault :
    (v : Drive) (depth fuel : ℕ) (d : v.State) (s : FileStream (ne_file_system_mgr v depth fuel))
    (behind : List ℕ)
    → load_path (read_file v depth fuel d s) behind ≡ fault
unfolding load_path read_file
load_path-fault v depth fuel d s behind =
    rw (streams_read_nothing v depth fuel d s pef_header).1 refl
