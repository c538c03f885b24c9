-- ===== src/Nefs/Layout/Forks.antt =====
-- NFS_FORK_STRUCT of dev/ZKAKit/FSKit/NeFS.h as the bytes of a sector.
use zka.Common.{
  ℕ, ◌^◌, ◌<◌, ◌≡◌, refl, ap, ◌∙◌, List, [], ◌∷◌, get_or, number, bytes, fields, join, IsBytes,
  HaveSizes, cons_eq, fields-join, join-fields, number-bytes, IsBytes-bytes, bytes-number,
  IsBytes-join, fields-HaveSizes, number_lt,
}
use zka.Nefs.Structs.{Fork}

-- The sizes of the fields.
abbrev fork_layout : List ℕ
fork_layout = 200 ∷ 256 ∷ 4 ∷ 4 ∷ 8 ∷ 4 ∷ 4 ∷ 8 ∷ 8 ∷ 8 ∷ 8 ∷ []

abbrev fork_fields : Fork → List (List ℕ)
fork_fields c =
    c.fork_name
    ∷ c.catalog_name
    ∷ bytes 4 c.flags
    ∷ bytes 4 c.kind
    ∷ bytes 8 c.resource_id
    ∷ bytes 4 c.resource_kind
    ∷ bytes 4 c.resourck_mm_flags
    ∷ bytes 8 c.data_offset
    ∷ bytes 8 c.data_size
    ∷ bytes 8 c.next_sibling
    ∷ bytes 8 c.previous_sibling
    ∷ []

abbrev field : List (List ℕ) → ℕ → List ℕ
field fs i = get_or fs i []

abbrev fork_from : List (List ℕ) → Fork
fork_from fs = record {
  fork_name = field fs 0;
  catalog_name = field fs 1;
  flags = number (field fs 2);
  kind = number (field fs 3);
  resource_id = number (field fs 4);
  resource_kind = number (field fs 5);
  resourck_mm_flags = number (field fs 6);
  data_offset = number (field fs 7);
  data_size = number (field fs 8);
  next_sibling = number (field fs 9);
  previous_sibling = number (field fs 10);
}

-- The bytes of the structure, and the cast of a sector's bytes to it.
unfoldable pub encode_fork : Fork → List ℕ
encode_fork c = join (fork_fields c)

unfoldable pub decode_fork : List ℕ → Fork
decode_fork s = fork_from (fields fork_layout s)

-- Each field fits its place.
abbrev pub IsFork : Fork → Type 0
IsFork c =
    IsBytes 200 c.fork_name
    × IsBytes 256 c.catalog_name
    × (c.flags < 256 ^ 4)
    × (c.kind < 256 ^ 4)
    × (c.resource_id < 256 ^ 8)
    × (c.resource_kind < 256 ^ 4)
    × (c.resourck_mm_flags < 256 ^ 4)
    × (c.data_offset < 256 ^ 8)
    × (c.data_size < 256 ^ 8)
    × (c.next_sibling < 256 ^ 8)
    × (c.previous_sibling < 256 ^ 8)

fork_fields-HaveSizes : (c : Fork) → IsFork c → HaveSizes fork_layout (fork_fields c)
fork_fields-HaveSizes c h = (
  h.0,
  (
    h.1,
    (
      IsBytes-bytes 4 c.flags,
      (
        IsBytes-bytes 4 c.kind,
        (
          IsBytes-bytes 8 c.resource_id,
          (
            IsBytes-bytes 4 c.resource_kind,
            (
              IsBytes-bytes 4 c.resourck_mm_flags,
              (
                IsBytes-bytes 8 c.data_offset,
                (
                  IsBytes-bytes 8 c.data_size,
                  (IsBytes-bytes 8 c.next_sibling, (IsBytes-bytes 8 c.previous_sibling, tt)),
                ),
              ),
            ),
          ),
        ),
      ),
    ),
  ),
)

pub encode_fork-IsBytes : (c : Fork) → IsFork c → IsBytes 512 (encode_fork c)
unfolding encode_fork
encode_fork-IsBytes c h = IsBytes-join fork_layout (fork_fields c) (fork_fields-HaveSizes c h)

fork_from-fork_fields : (c : Fork) → IsFork c → fork_from (fork_fields c) ≡ c
fork_from-fork_fields c h =
    rw
      (
        number-bytes 4 c.flags h.2,
        number-bytes 4 c.kind h.3,
        number-bytes 8 c.resource_id h.4,
        number-bytes 4 c.resource_kind h.5,
        number-bytes 4 c.resourck_mm_flags h.6,
        number-bytes 8 c.data_offset h.7,
        number-bytes 8 c.data_size h.8,
        number-bytes 8 c.next_sibling h.9,
        number-bytes 8 c.previous_sibling h.10,
      )
      refl

-- It is read as it was written.
pub decode_fork-encode_fork : (c : Fork) → IsFork c → decode_fork (encode_fork c) ≡ c
unfolding decode_fork encode_fork
decode_fork-encode_fork c h =
    ap fork_from (fields-join fork_layout (fork_fields c) (fork_fields-HaveSizes c h))
    ∙ fork_from-fork_fields c h

pub decode_fork-IsFork : (s : List ℕ) → IsBytes 512 s → IsFork (decode_fork s)
unfolding decode_fork
decode_fork-IsFork s b =
    let fs = fields fork_layout s in
    let h = fields-HaveSizes fork_layout s b in
    (
      h.0,
      h.1.0,
      number_lt 4 (field fs 2) h.1.1.0,
      number_lt 4 (field fs 3) h.1.1.1.0,
      number_lt 8 (field fs 4) h.1.1.1.1.0,
      number_lt 4 (field fs 5) h.1.1.1.1.1.0,
      number_lt 4 (field fs 6) h.1.1.1.1.1.1.0,
      number_lt 8 (field fs 7) h.1.1.1.1.1.1.1.0,
      number_lt 8 (field fs 8) h.1.1.1.1.1.1.1.1.0,
      number_lt 8 (field fs 9) h.1.1.1.1.1.1.1.1.1.0,
      number_lt 8 (field fs 10) h.1.1.1.1.1.1.1.1.1.1.0,
    )

fork_fields-fork_from :
    (s : List ℕ)
    → IsBytes 512 s
    → fork_fields (fork_from (fields fork_layout s)) ≡ fields fork_layout s
fork_fields-fork_from s b =
    let fs = fields fork_layout s in
    let h = fields-HaveSizes fork_layout s b in
    (cons_eq refl (
      cons_eq refl (
        cons_eq (bytes-number 4 (field fs 2) h.1.1.0) (
          cons_eq (bytes-number 4 (field fs 3) h.1.1.1.0) (
            cons_eq (bytes-number 8 (field fs 4) h.1.1.1.1.0) (
              cons_eq (bytes-number 4 (field fs 5) h.1.1.1.1.1.0) (
                cons_eq (bytes-number 4 (field fs 6) h.1.1.1.1.1.1.0) (
                  cons_eq (bytes-number 8 (field fs 7) h.1.1.1.1.1.1.1.0) (
                    cons_eq (bytes-number 8 (field fs 8) h.1.1.1.1.1.1.1.1.0) (
                      cons_eq (bytes-number 8 (field fs 9) h.1.1.1.1.1.1.1.1.1.0) (
                        cons_eq (bytes-number 8 (field fs 10) h.1.1.1.1.1.1.1.1.1.1.0)
                          refl)))))))))))

encode_fork-decode_fork : (s : List ℕ) → IsBytes 512 s → encode_fork (decode_fork s) ≡ s
unfolding decode_fork encode_fork
encode_fork-decode_fork s b = ap join (fork_fields-fork_from s b) ∙ join-fields fork_layout s b
