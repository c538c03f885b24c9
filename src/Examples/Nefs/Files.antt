-- ===== src/Examples/Nefs/Files.antt =====
-- Forks of the volume's file, and streams over it.
use zka.Common.{
  ℕ, suc, ◌^◌, ◌≤◌, ◌<◌, ◌≡◌, ◌≢◌, refl, true, false, ◌||◌, none, some, List, [], ◌∷◌, replicate,
  ltb, ◌==◌, and_bits, any_bits, arith,
}
use zka.NewKit.Utils.{string_len, equals, equals_loop}
use zka.Files.{
  FileStream, RestrictKind, read_only, write_only, may_write, read_all, read_name, write_chunk,
}
use zka.Nefs.{fork_data_size, flag_created}
use zka.Nefs.Structs.{Fork}
use zka.Nefs.Layout.Forks.{IsFork}
use zka.Nefs.Volume.{ok, out_of_fuel, read_fork, write_fork}
use zka.Nefs.Volume.Frame.{read_fork-write_fork}
use zka.Nefs.Fork.{
  no_fork, create_fork, fork_reply, placed_fork, read_data, write_data, write_loop, write_blob,
  takes_data,
}
use zka.Nefs.Fork.Created.{create_fork-read_data}
use zka.Nefs.Fork.Twice.{IsNew, create_fork_twice}
use zka.Nefs.Fork.Data.{fork, end, IsWritten, write_data-cases, data_loops-total}
use zka.Nefs.Manager.{ne_file_system_mgr, main_data, write_node, write_fork_named}
use zka.Nefs.Manager.Stream.{IsStored, streams_read_nothing, write_chunk-IsStored}
use zka.Examples.Nefs.{sparse, sparse-IsLawful, volume, file_catalog, IsBytes-zeros}

abbrev with_fork : Fork → ℕ → ℕ → ℕ
with_fork f = write_fork sparse volume 900000 f

abbrev forked : ℕ → ℕ → ℕ → ℕ → Fork
forked flags size offset following = record {
  fork_name = b'm' ∷ b'a' ∷ b'i' ∷ b'n' ∷ b'_' ∷ b'd' ∷ b'a' ∷ b't' ∷ b'a' ∷ replicate 191 0;
  catalog_name = b'/' ∷ b'a' ∷ b'b' ∷ replicate 253 0;
  flags = flags;
  kind = 1;
  resource_id = 0;
  resource_kind = 0;
  resourck_mm_flags = 0;
  data_offset = offset;
  data_size = size;
  next_sibling = following;
  previous_sibling = 0;
}

forked-IsFork :
    (flags size offset following : ℕ)
    → flags < 2 ^ 16
    → size < 2 ^ 32
    → offset < 2 ^ 32
    → following < 2 ^ 32
    → IsFork (forked flags size offset following)
forked-IsFork flags size offset following f s o n = (
  (
    omega arith,
    (
      omega arith,
      (
        omega arith,
        (
          omega arith,
          (
            omega arith,
            (omega arith, (omega arith, (omega arith, (omega arith, IsBytes-zeros 191)))),
          ),
        ),
      ),
    ),
  ),
  (omega arith, (omega arith, (omega arith, IsBytes-zeros 253))),
  omega arith,
  omega arith,
  omega arith,
  omega arith,
  omega arith,
  omega arith,
  omega arith,
  omega arith,
  omega arith,
)

no_fork-IsFork : IsFork no_fork
no_fork-IsFork = (
  IsBytes-zeros 200,
  IsBytes-zeros 256,
  omega arith,
  omega arith,
  omega arith,
  omega arith,
  omega arith,
  omega arith,
  omega arith,
  omega arith,
  omega arith,
)

read_forked : (f : Fork) → IsFork f → read_fork sparse (with_fork f) 900000 ≡ f
read_forked f h =
    read_fork-write_fork sparse 1048576 sparse-IsLawful volume 900000 f h (omega arith)

abbrev new_fork : Fork
new_fork = forked 0 102 0 0

small : 102 ≤ fork_data_size
unfolding fork_data_size
small = omega arith

same_names : equals new_fork.catalog_name file_catalog.name ≡ true
unfolding equals equals_loop string_len
same_names = refl

unused : any_bits 32 0 flag_created ≡ false
unfolding any_bits and_bits
unused = refl

create_fork-read_data_example :
    (d' : ℕ → ℕ → ℕ) × (create_fork sparse (with_fork no_fork) (some file_catalog) new_fork
      ≡ fork_reply sparse (some (placed_fork 900000 900000 new_fork)) d')
    × ((fuel : ℕ)
        → read_data sparse (suc fuel) d' (some file_catalog) false new_fork.fork_name
          ≡ ok (some (placed_fork 900000 900000 new_fork), none))
create_fork-read_data_example =
    create_fork-read_data sparse 1048576 sparse-IsLawful (with_fork no_fork) file_catalog new_fork
      refl (omega arith) small
      (forked-IsFork 0 102 0 0 (omega arith) (omega arith) (omega arith) (omega arith)) same_names
      (omega arith) (omega arith) (omega arith) (rw (read_forked no_fork no_fork-IsFork) refl)
      (rw (read_forked no_fork no_fork-IsFork) unused)

-- A fork in use, whose data stand at 700000 and which leads to 600.
abbrev used_fork : Fork
used_fork = forked 71 102 700000 600

read_used : read_fork sparse (with_fork used_fork) 900000 ≡ used_fork
read_used =
    read_forked used_fork
      (forked-IsFork 71 102 700000 600 (omega arith) (omega arith) (omega arith) (omega arith))

-- Another fork of the same catalog, by the name of `a`.
abbrev other_fork : Fork
other_fork = record new_fork { fork_name = b'a' ∷ replicate 199 0 }

new_fork-IsNew : IsNew file_catalog new_fork
new_fork-IsNew = record {
  own_kind = refl;
  named = λ e. omega arith;
  size = omega arith;
  fits = forked-IsFork 0 102 0 0 (omega arith) (omega arith) (omega arith) (omega arith);
  own = same_names;
}

other_fork-IsNew : IsNew file_catalog other_fork
other_fork-IsNew = record {
  own_kind = refl;
  named = λ e. omega arith;
  size = omega arith;
  fits = (
    (omega arith, IsBytes-zeros 199),
    new_fork-IsNew.fits.1,
    new_fork-IsNew.fits.2,
    new_fork-IsNew.fits.3,
    new_fork-IsNew.fits.4,
    new_fork-IsNew.fits.5,
    new_fork-IsNew.fits.6,
    new_fork-IsNew.fits.7,
    new_fork-IsNew.fits.8,
    new_fork-IsNew.fits.9,
    new_fork-IsNew.fits.10,
  );
  own = same_names;
}

create_fork_twice_example :
    let pf = placed_fork 900000 900000 new_fork in
    let pg = placed_fork 900000 900000 other_fork in
    (d' : ℕ → ℕ → ℕ) × (d'' : ℕ → ℕ → ℕ) × (create_fork sparse
        (with_fork no_fork)
        (some file_catalog)
        new_fork
      ≡ fork_reply sparse (some pf) d')
    × ((fuel : ℕ)
        → read_data sparse (suc fuel) d' (some file_catalog) false new_fork.fork_name
          ≡ ok (some pf, none))
    × (create_fork sparse d' (some file_catalog) other_fork ≡ fork_reply sparse (some pg) d'')
    × ((fuel : ℕ)
        → read_data sparse (suc fuel) d'' (some file_catalog) false other_fork.fork_name
          ≡ ok (some pg, none))
    × ((read_fork sparse d'' 900000).fork_name ≡ other_fork.fork_name)
create_fork_twice_example =
    create_fork_twice sparse 1048576 sparse-IsLawful (with_fork no_fork) file_catalog new_fork
      other_fork new_fork-IsNew other_fork-IsNew (omega arith) (omega arith) (omega arith)
      (λ e. omega arith) (rw (read_forked no_fork no_fork-IsFork) refl)
      (rw (read_forked no_fork no_fork-IsFork) unused)

abbrev text : List ℕ
text = b'h' ∷ b'i' ∷ []

takes : takes_data file_catalog main_data 102 used_fork ≡ true
unfolding takes_data equals equals_loop string_len
takes = refl

asks : (ltb fork_data_size 102 || 102 == 0) ≡ false
unfolding fork_data_size
asks = refl

abbrev stored : ℕ → ℕ → ℕ
stored =
    write_blob sparse (with_fork used_fork) text 102 900000
      (read_fork sparse (with_fork used_fork) 900000)

written :
    write_data sparse 2 (with_fork used_fork) file_catalog false text 102 main_data
    ≡ fork_reply sparse true stored
unfolding write_data write_loop
written = rw asks (rw read_used (rw takes refl))

write_data-cases_example :
    IsWritten sparse (with_fork used_fork) file_catalog text 102 main_data true stored
write_data-cases_example =
    write_data-cases sparse (with_fork used_fork) 2 file_catalog false text 102 main_data
      (record { value = true; disk = stored; local_code = none }) written

data_loops-total_example :
    (write_data sparse 2 (with_fork used_fork) file_catalog false text 102 main_data ≢ out_of_fuel)
    × (read_data sparse 2 (with_fork used_fork) (some file_catalog) false main_data ≢ out_of_fuel)
data_loops-total_example =
    data_loops-total sparse (with_fork used_fork) 2 1 file_catalog false text 102 main_data
      (fork 0 900000 (rw read_used (end 600 (omega arith)))) (omega arith)

abbrev stream : RestrictKind → FileStream (ne_file_system_mgr sparse 3 2)
stream r = record { file = some file_catalog; restrict = r }

streams_read_nothing_example :
    (read_all (ne_file_system_mgr sparse 3 2) (with_fork used_fork) (stream read_only) ≡ ok none)
    × (read_name (ne_file_system_mgr sparse 3 2) (with_fork used_fork) (stream read_only) main_data
        ≡ ok none)
streams_read_nothing_example =
    streams_read_nothing sparse 3 2 (with_fork used_fork) (stream read_only) main_data

no_rsrc : any_bits 32 7 104 ≡ false
unfolding any_bits and_bits
no_rsrc = refl

stream_written :
    write_chunk
      (ne_file_system_mgr sparse 3 2)
      (with_fork used_fork)
      (stream write_only)
      5
      (some text)
      7
    ≡ ok stored
unfolding write_chunk may_write write_node write_fork_named
stream_written = rw no_rsrc (rw written refl)

write_chunk-IsStored_example :
    IsStored sparse (with_fork used_fork) text 102 (some file_catalog) stored
write_chunk-IsStored_example =
    write_chunk-IsStored sparse (with_fork used_fork) 3 2 (stream write_only) 5 7 text stored
      stream_written

abbrev read_write_mode : List ℕ
read_write_mode = b'r' ∷ b'w' ∷ []

abbrev seven : ℕ
seven = 7
