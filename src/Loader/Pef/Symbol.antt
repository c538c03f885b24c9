-- ===== src/Loader/Pef/Symbol.antt =====
-- FindSymbol of dev/ZKAKit/src/PEFCodeMgr.cc against the one header that it looks at.
use native.Mathlib.Nat.{zero-add}
use zka.Common.{
  ℕ, zero, suc, ◌+◌, ◌<◌, ◌≡◌, refl, ap, ◌∙◌, inl, inr, Bool, true, false, not, ◌&&◌, Option, none,
  some, List, [], ◌∷◌, if◌then◌else◌, ◌==◌, length, replicate, length-replicate, suc-add,
  Bool-cases, lt→ltb,
}
use zka.NewKit.Utils.{at, drop, equals, copy_memory}
use zka.NewKit.Utils.Copy.{copy_memory-at, length-copy_loop}
use zka.Nefs.Volume.{Result, ok}
use zka.Loader.Pef.{
  Loader, platform, decode_container, decode_command, command_header_size, content_of,
  container_kind, symbol_text, mangle, symbol_loop, find_in, find_cached, find_symbol,
}

-- What the first header of a blob says of a symbol.
abbrev pub first_header : Bool → List ℕ → ℕ → List ℕ → Option (List ℕ)
first_header fat symbol kind blob =
    let h = decode_command blob in
    if equals blob symbol && h.kind == kind
    then (if not (h.cpu == platform) && not fat then none else some (content_of blob))
    else none

-- A loop over no header finds nothing.
abbrev pub unless_zero : ℕ → Option (List ℕ) → Option (List ℕ)
unless_zero zero o = none
unless_zero (suc n) o = o

unless_zero-none : (n : ℕ) → unless_zero n none ≡ none
unless_zero-none zero = refl
unless_zero-none (suc n) = refl

symbol_loop-first :
    (count : ℕ) (fat : Bool) (symbol : List ℕ) (kind : ℕ) (blob : List ℕ)
    → symbol_loop count fat symbol kind (some blob)
      ≡ ok (unless_zero count (first_header fat symbol kind blob))
unfolding symbol_loop
symbol_loop-first zero fat symbol kind blob = refl
symbol_loop-first (suc count) fat symbol kind blob =
    let h = decode_command blob in
    elim (Bool-cases (equals blob symbol && h.kind == kind)) [
      | inl m ↦ rw m refl
      | inr m ↦
          rw m
            (symbol_loop-first count fat symbol kind blob ∙ rw m (ap ok (unless_zero-none count)))
    ]

length-copy_memory : (src dst : List ℕ) (n : ℕ) → length (copy_memory src dst n).0 ≡ length dst
unfolding copy_memory
length-copy_memory src dst n = length-copy_loop n 0 src dst

at-drop : (n : ℕ) (s : List ℕ) (i : ℕ) → at (drop n s) i ≡ at s (n + i)
at-drop zero s i = rw (zero-add i) refl
at-drop (suc n) [] i = refl
at-drop (suc n) (b ∷ s) i = rw (suc-add n i) (at-drop n s i)

-- The bytes that a match gives are those behind the header, as many as the header says.
pub content_of-at :
    (blob : List ℕ)
    → (length (content_of blob) ≡ (decode_command blob).size)
      × ((i : ℕ)
          → i < (decode_command blob).size
          → at (content_of blob) i ≡ at blob (command_header_size + i))
unfolding content_of
content_of-at blob =
    let size = (decode_command blob).size in
    let blank = replicate size 0 in
    let whole = length-replicate {A = ℕ} size 0 in
    (
      length-copy_memory (drop command_header_size blob) blank size ∙ whole,
      λ i h.
          (copy_memory-at (drop command_header_size blob) blank size i (rw whole h)).0
          ∙ rw (lt→ltb i size h) (at-drop command_header_size blob i),
    )

module _ (read : List ℕ → Result (Option (List ℕ))) (behind : List ℕ) where
  -- For a loader that is not bad and has a file, a kind with a section's name and a symbol whose
  -- bytes can be read, FindSymbol is one look at one header, the one at the start of what was read:
  -- whatever the number of the container's headers, if it is not 0, that header decides, and with 0
  -- nothing is found.
  pub find_symbol-first_header :
      (l : Loader) (container name blob prefix : List ℕ) (kind : ℕ)
      → l.cached_blob ≡ some container
      → l.bad ≡ false
      → l.has_file ≡ true
      → container_kind kind ≡ some prefix
      → read name ≡ ok (some blob)
      → find_symbol read behind l (some name) kind
        ≡ ok (
            unless_zero
              (decode_container container).count
              (first_header l.fat_binary (symbol_text prefix (mangle name) behind) kind blob))
  unfolding find_symbol find_cached find_in
  find_symbol-first_header l container name blob prefix kind cached good file known there =
      rw (cached, good, file, there)
        (rw (known, find_in)
          (symbol_loop-first (decode_container container).count l.fat_binary
            (symbol_text prefix (mangle name) behind) kind blob))
