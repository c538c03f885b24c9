-- ===== src/Examples/Nefs/Search.antt =====
-- Searches, a removal and a creation on the volume.
use zka.Common.{
  ℕ, zero, suc, ◌+◌, ◌≤◌, ◌<◌, ◌≡◌, ◌≢◌, ◌⊎◌, refl, ap, ◌∙◌, inl, inr, true, false, none, some,
  List, [], ◌∷◌, replicate, if◌then◌else◌, leb, ◌==◌, and_bits, any_bits, arith,
}
use zka.NewKit.Utils.{at, string_len, equals, equals_loop, copy_loop}
use zka.Nefs.{separator, kind_dir, kind_file, root}
use zka.Nefs.Structs.{Catalog}
use zka.Nefs.Path.{parent_name, strip, clear_and_strip, fill}
use zka.Nefs.Path.Parent.{parent_name-cases}
use zka.Nefs.Volume.{ok, out_of_fuel, read_catalog, read_block, is_created}
use zka.Nefs.Find.{Entry, find_catalog, scan}
use zka.Nefs.Find.Lookup.{resolve, result_of, find_catalog-resolve}
use zka.Nefs.Find.Total.{find_catalog-total}
use zka.Nefs.Remove.{remove_catalog, forget_one}
use zka.Nefs.Remove.Still.{AreSpaced, remove_catalog-still_found}
use zka.Nefs.Remove.Still.Touch.{touch_result}
use zka.Nefs.Create.{create_catalog, reply, last_char}
use zka.Nefs.Create.Place.{AreBytes, Written}
use zka.Nefs.Create.First.{IsFree, ArePassed, nth_place, create_catalog-found}
use zka.Nefs.Create.Fail.{create_catalog-none}
use zka.Examples.Nefs.{
  sparse, sparse-IsLawful, volume, ab, cd, file_entry, root_catalog, file_catalog, entries, chain,
  find_ab, find_cd, read_root, read_file, read_free, read_partition, free_is_free, entries-known,
  known,
}

find_catalog-resolve_example : find_catalog sparse volume 3 3 ab ≡ result_of (resolve 3 entries ab)
find_catalog-resolve_example = find_catalog-resolve sparse volume 3 3 ab entries chain (omega arith)

find_catalog-total_example : find_catalog sparse volume 3 3 cd ≢ out_of_fuel
unfolding string_len
find_catalog-total_example =
    find_catalog-total sparse volume 3 3 cd entries chain (omega arith) (omega arith) (omega arith)

parent_name-cases_example :
    ((parent_name ab ≡ none) × ((j : ℕ) → j + 3 ≤ string_len ab → at ab j ≢ separator))
    ⊎ ((k : ℕ) × (p : List ℕ) × (parent_name ab ≡ some p)
        × (k + 3 ≤ string_len ab)
        × (at ab k ≡ separator)
        × ((j : ℕ) → k < j → j + 3 ≤ string_len ab → at ab j ≢ separator)
        × ((j : ℕ) → at p j ≡ (if leb j k then at ab j else 0)))
unfolding string_len
parent_name-cases_example = parent_name-cases ab (omega arith) (omega arith)

abbrev parent_of_ab : List ℕ
parent_of_ab = b'/' ∷ replicate 255 0

parent_is_root : parent_name ab ≡ some parent_of_ab
unfolding string_len parent_name strip clear_and_strip fill copy_loop
parent_is_root = refl

spaced : AreSpaced 1048576 4608 entries
spaced = (
  inr (inr (omega arith)),
  (omega arith, omega arith),
  (inl refl, (omega arith, omega arith), (inr (inl (omega arith)), (omega arith, omega arith), tt)),
)

not_root : equals ab root ≡ false
unfolding equals equals_loop string_len
not_root = refl

remove_catalog-still_found_example :
    (d' : ℕ → ℕ → ℕ) × (remove_catalog sparse 3 3 volume (some ab)
      ≡ ok (record { value = true; disk = d'; local_code = none }))
    × (read_block sparse d' ≡ forget_one (read_block sparse volume))
    × ((depth' : ℕ) (name' : List ℕ)
        → find_catalog sparse d' depth' 3 name'
          ≡ touch_result 4608 (find_catalog sparse volume depth' 3 name'))
remove_catalog-still_found_example =
    remove_catalog-still_found sparse 1048576 sparse-IsLawful volume 3 3 ab file_entry entries
      not_root find_ab chain spaced (omega arith, omega arith) (omega arith)

cd_bytes : AreBytes cd
cd_bytes zero = omega arith
cd_bytes (suc zero) = omega arith
cd_bytes (suc (suc zero)) = omega arith
cd_bytes (suc (suc (suc i))) = omega arith

abbrev root_entry : Entry
root_entry = record { lba = 2560; catalog = root_catalog }

cd_short : string_len cd < 256
unfolding string_len
cd_short = omega arith

cd_is_file : (kind_file == kind_dir) ≡ (last_char cd == separator)
unfolding string_len
cd_is_file = refl

parent_is_root_too : parent_name cd ≡ some parent_of_ab
unfolding string_len parent_name strip clear_and_strip fill copy_loop
parent_is_root_too = refl

resolve_root : result_of (resolve 3 known parent_of_ab) ≡ ok (some root_entry)
unfolding equals equals_loop string_len is_created any_bits and_bits
resolve_root = refl

find_root : find_catalog sparse volume 3 3 parent_of_ab ≡ ok (some root_entry)
find_root =
    find_catalog-resolve sparse volume 3 3 parent_of_ab entries chain (omega arith)
    ∙ ap (λ es. result_of (resolve 3 es parent_of_ab)) entries-known
    ∙ resolve_root

file_created : is_created file_catalog ≡ true
unfolding is_created any_bits and_bits
file_created = refl

file_differs : equals file_catalog.name cd ≡ false
unfolding equals equals_loop string_len
file_differs = refl

passed : ArePassed sparse volume cd 1 (read_catalog sparse volume 2560).next_sibling
passed = rw read_root (
  record {
    behind_root = omega arith;
    created = rw read_file file_created;
    differs = rw read_file file_differs;
  },
  tt,
)

place-IsFree : IsFree sparse volume (nth_place 1 (read_catalog sparse volume 2560).next_sibling)
place-IsFree = rw read_root (record {
  behind_root = omega arith;
  unallocated = rw read_free free_is_free;
  left = rw read_partition (omega arith);
})

create_catalog-found_example :
    (c : Catalog) × (d' : ℕ → ℕ → ℕ) × (create_catalog sparse 3 3 volume cd 0 kind_file
      ≡ reply sparse (some c) d')
    × Written sparse 1048576 volume d'
        (nth_place 1 (read_catalog sparse volume 2560).next_sibling)
        c
    × ((more : ℕ)
        → scan sparse d' (suc more) (nth_place 1 (read_catalog sparse volume 2560).next_sibling) cd
          ≡ ok (
              some (record {
                lba = nth_place 1 (read_catalog sparse volume 2560).next_sibling;
                catalog = c;
              })))
create_catalog-found_example =
    create_catalog-found sparse 1048576 sparse-IsLawful volume 3 3 1 cd parent_of_ab 0 kind_file
      root_entry cd_is_file (omega arith) cd_short cd_bytes (omega arith) (omega arith) find_cd
      parent_is_root_too find_root refl (omega arith) passed place-IsFree
      (rw read_root (omega arith, omega arith))

no_parent :
    create_catalog sparse 3 3 volume (b'/' ∷ b'c' ∷ b'd' ∷ b'/' ∷ []) 0 kind_file
    ≡ ok (record { value = none; disk = volume; local_code = none })
unfolding create_catalog string_len
no_parent = refl

create_catalog-none_example : volume ≡ volume
create_catalog-none_example =
    create_catalog-none sparse volume 3 3 (b'/' ∷ b'c' ∷ b'd' ∷ b'/' ∷ []) 0 kind_file volume none
      no_parent
