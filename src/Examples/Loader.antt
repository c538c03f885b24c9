-- ===== src/Examples/Loader.antt =====
-- An executable with one symbol, and its loader.
use zka.Common.{
  Bool, ◌-◌, length, ◌==◌, if◌then◌else◌, ℕ, ◌≡◌, refl, true, false, Option, some, List, [], ◌∷◌,
  ◌++◌, replicate, bytes,
}
use zka.NewKit.Utils.{at, string_len, string_len_max, equals, equals_loop, copy_memory, copy_loop}
use zka.Nefs.Volume.{Result, ok}
use zka.Memory.BitMap.{alloc_bit_map}
use zka.Memory.Heap.{new_heap}
use zka.Sched.Team.{Spawned, assigned, spawn}
use zka.Sched.Process
use zka.Files.{FileStream, read_only}
use zka.Nefs.Manager.{ne_file_system_mgr}
use zka.Loader.Pef.{
  Loader, pef_magic, pef_start, pef_code, decode_container, decode_command, container_kind, mangle,
  mangle_loop, symbol_text, content_of, symbol_loop, find_in, find_cached, find_symbol, find_start,
  check_container, is_loaded, has_magic, has_fat_magic,
}
use zka.Loader.Pef.Symbol.{first_header, unless_zero, find_symbol-first_header}
use zka.Loader.Process.{
  Objects, create_process, create_started, spawn_new, drop_invalid, pef_process, cleared, name_of,
}
use zka.Sched.Process.{executable}
use zka.Examples.Heap.{nothing_outside}
use zka.Examples.Team.{new_process, kernel, platform}
use zka.Examples.Nefs.{sparse, file_catalog}

-- A container of some magic, for AMD64, with one header.
abbrev container_with : List ℕ → List ℕ
container_with magic =
    magic
    ++ (bytes 12 0
        ++ (bytes 4 0
            ++ (bytes 4 0x5046
                ++ (bytes 4 1 ++ (bytes 4 0 ++ (bytes 8 0 ++ (bytes 8 53 ++ bytes 8 1)))))))

abbrev container : List ℕ
container = container_with pef_magic

abbrev code_name : List ℕ
code_name = b'.' ∷ b'c' ∷ b'o' ∷ b'd' ∷ b'e' ∷ b'6' ∷ b'4' ∷ pef_start

-- The start, of two bytes.
abbrev code_blob : List ℕ
code_blob =
    code_name
    ++ (replicate 236 0
        ++ (bytes 4 1 ++ (bytes 8 0 ++ (bytes 2 12 ++ (bytes 8 0 ++ (bytes 8 2 ++ (5 ∷ 6 ∷ [])))))))

abbrev read_code : List ℕ → Result (Option (List ℕ))
read_code name = ok (some code_blob)

abbrev exec : Loader
exec = record { cached_blob = some container; bad = false; fat_binary = false; has_file = true }

find_symbol-first_header_example :
    find_symbol read_code [] exec (some pef_start) pef_code
    ≡ ok (
        unless_zero (decode_container container).count (
          first_header false
            (symbol_text
              (b'.' ∷ b'c' ∷ b'o' ∷ b'd' ∷ b'e' ∷ b'6' ∷ b'4' ∷ [])
              (mangle pef_start)
              [])
            pef_code
            code_blob))
unfolding container_kind
find_symbol-first_header_example =
    find_symbol-first_header read_code [] exec container pef_start code_blob _ pef_code refl refl
      refl refl refl

-- The two bytes are found.
start_found : find_start read_code [] exec ≡ ok (some (5 ∷ 6 ∷ []))
unfolding find_start find_symbol find_cached find_in symbol_loop container_kind mangle mangle_loop
    symbol_text content_of copy_memory copy_loop decode_container decode_command equals equals_loop
    string_len string_len_max
start_found = refl

-- The magic "yoJ!" is refused.
fat_is_refused :
    is_loaded (check_container (container_with (b'y' ∷ b'o' ∷ b'J' ∷ b'!' ∷ 0 ∷ []))) ≡ false
unfolding is_loaded check_container has_magic has_fat_magic decode_container
fat_is_refused = refl

abbrev stream : FileStream (ne_file_system_mgr sparse 3 2)
stream = record { file = some file_catalog; restrict = read_only }

abbrev objects : Objects
objects = record { process_size = 296; made = new_process; address_of = λ s. 0x400000 }

-- The symbols of an executable: its start, and any other one as eight bytes, 97 as a number and `a` as a text.
abbrev data_blob : List ℕ → List ℕ
data_blob name =
    (b'.' ∷ b'd' ∷ b'a' ∷ b't' ∷ b'a' ∷ b'6' ∷ b'4' ∷ name)
    ++ (replicate (248 - length name) 0
        ++ (bytes 4 1 ++ (bytes 8 0 ++ (bytes 2 13 ++ (bytes 8 0 ++ (bytes 8 8 ++ bytes 8 97))))))

abbrev read_program : List ℕ → Result (Option (List ℕ))
read_program name = ok (some (if at name 0 == b'_' then code_blob else data_blob name))

-- A run that gives the first id.
abbrev gives_id : Process.Run Spawned → Bool
gives_id (Process.ok (assigned id) s) = id == 0
gives_id _ = false

created :
    gives_id
      (create_process nothing_outside platform objects read_program [] exec executable kernel)
    ≡ true
unfolding create_process create_started spawn_new drop_invalid pef_process cleared name_of spawn
    new_heap alloc_bit_map find_start find_symbol find_cached find_in symbol_loop container_kind
    mangle mangle_loop symbol_text content_of copy_memory copy_loop decode_container decode_command
    equals equals_loop string_len string_len_max
created = refl
