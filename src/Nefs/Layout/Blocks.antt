-- ===== src/Nefs/Layout/Blocks.antt =====
-- NFS_ROOT_PARTITION_BLOCK of dev/ZKAKit/FSKit/NeFS.h as the bytes of a sector.
use zka.Common.{
  ℕ, ◌^◌, ◌<◌, ◌≡◌, refl, ap, ◌∙◌, List, [], ◌∷◌, get_or, number, bytes, fields, join, IsBytes,
  HaveSizes, cons_eq, fields-join, join-fields, number-bytes, IsBytes-bytes, bytes-number,
  IsBytes-join, fields-HaveSizes, number_lt,
}
use zka.Nefs.Structs.{Block}

-- The sizes of the fields.
abbrev block_layout : List ℕ
block_layout = 8 ∷ 32 ∷ 4 ∷ 4 ∷ 8 ∷ 8 ∷ 8 ∷ 8 ∷ 8 ∷ 8 ∷ 8 ∷ 8 ∷ 8 ∷ 392 ∷ []

abbrev block_fields : Block → List (List ℕ)
block_fields c =
    c.ident
    ∷ c.partition_name
    ∷ bytes 4 c.flags
    ∷ bytes 4 c.kind
    ∷ bytes 8 c.start_catalog
    ∷ bytes 8 c.catalog_count
    ∷ bytes 8 c.disk_size
    ∷ bytes 8 c.free_catalog
    ∷ bytes 8 c.free_sectors
    ∷ bytes 8 c.sector_count
    ∷ bytes 8 c.sector_size
    ∷ bytes 8 c.version
    ∷ bytes 8 c.epm_block
    ∷ c.pad
    ∷ []

abbrev field : List (List ℕ) → ℕ → List ℕ
field fs i = get_or fs i []

abbrev block_from : List (List ℕ) → Block
block_from fs = record {
  ident = field fs 0;
  partition_name = field fs 1;
  flags = number (field fs 2);
  kind = number (field fs 3);
  start_catalog = number (field fs 4);
  catalog_count = number (field fs 5);
  disk_size = number (field fs 6);
  free_catalog = number (field fs 7);
  free_sectors = number (field fs 8);
  sector_count = number (field fs 9);
  sector_size = number (field fs 10);
  version = number (field fs 11);
  epm_block = number (field fs 12);
  pad = field fs 13;
}

-- The bytes of the structure, and the cast of a sector's bytes to it.
unfoldable pub encode_block : Block → List ℕ
encode_block c = join (block_fields c)

unfoldable pub decode_block : List ℕ → Block
decode_block s = block_from (fields block_layout s)

-- Each field fits its place.
abbrev pub IsBlock : Block → Type 0
IsBlock c =
    IsBytes 8 c.ident
    × IsBytes 32 c.partition_name
    × (c.flags < 256 ^ 4)
    × (c.kind < 256 ^ 4)
    × (c.start_catalog < 256 ^ 8)
    × (c.catalog_count < 256 ^ 8)
    × (c.disk_size < 256 ^ 8)
    × (c.free_catalog < 256 ^ 8)
    × (c.free_sectors < 256 ^ 8)
    × (c.sector_count < 256 ^ 8)
    × (c.sector_size < 256 ^ 8)
    × (c.version < 256 ^ 8)
    × (c.epm_block < 256 ^ 8)
    × IsBytes 392 c.pad

block_fields-HaveSizes : (c : Block) → IsBlock c → HaveSizes block_layout (block_fields c)
block_fields-HaveSizes c h = (
  h.0,
  (
    h.1,
    (
      IsBytes-bytes 4 c.flags,
      (
        IsBytes-bytes 4 c.kind,
        (
          IsBytes-bytes 8 c.start_catalog,
          (
            IsBytes-bytes 8 c.catalog_count,
            (
              IsBytes-bytes 8 c.disk_size,
              (
                IsBytes-bytes 8 c.free_catalog,
                (
                  IsBytes-bytes 8 c.free_sectors,
                  (
                    IsBytes-bytes 8 c.sector_count,
                    (
                      IsBytes-bytes 8 c.sector_size,
                      (IsBytes-bytes 8 c.version, (IsBytes-bytes 8 c.epm_block, (h.13, tt))),
                    ),
                  ),
                ),
              ),
            ),
          ),
        ),
      ),
    ),
  ),
)

pub encode_block-IsBytes : (c : Block) → IsBlock c → IsBytes 512 (encode_block c)
unfolding encode_block
encode_block-IsBytes c h = IsBytes-join block_layout (block_fields c) (block_fields-HaveSizes c h)

block_from-block_fields : (c : Block) → IsBlock c → block_from (block_fields c) ≡ c
block_from-block_fields c h =
    rw
      (
        number-bytes 4 c.flags h.2,
        number-bytes 4 c.kind h.3,
        number-bytes 8 c.start_catalog h.4,
        number-bytes 8 c.catalog_count h.5,
        number-bytes 8 c.disk_size h.6,
        number-bytes 8 c.free_catalog h.7,
        number-bytes 8 c.free_sectors h.8,
        number-bytes 8 c.sector_count h.9,
        number-bytes 8 c.sector_size h.10,
        number-bytes 8 c.version h.11,
        number-bytes 8 c.epm_block h.12,
      )
      refl

-- It is read as it was written.
pub decode_block-encode_block : (c : Block) → IsBlock c → decode_block (encode_block c) ≡ c
unfolding decode_block encode_block
decode_block-encode_block c h =
    ap block_from (fields-join block_layout (block_fields c) (block_fields-HaveSizes c h))
    ∙ block_from-block_fields c h

pub decode_block-IsBlock : (s : List ℕ) → IsBytes 512 s → IsBlock (decode_block s)
unfolding decode_block
decode_block-IsBlock s b =
    let fs = fields block_layout s in
    let h = fields-HaveSizes block_layout s b in
    (
      h.0,
      h.1.0,
      number_lt 4 (field fs 2) h.1.1.0,
      number_lt 4 (field fs 3) h.1.1.1.0,
      number_lt 8 (field fs 4) h.1.1.1.1.0,
      number_lt 8 (field fs 5) h.1.1.1.1.1.0,
      number_lt 8 (field fs 6) h.1.1.1.1.1.1.0,
      number_lt 8 (field fs 7) h.1.1.1.1.1.1.1.0,
      number_lt 8 (field fs 8) h.1.1.1.1.1.1.1.1.0,
      number_lt 8 (field fs 9) h.1.1.1.1.1.1.1.1.1.0,
      number_lt 8 (field fs 10) h.1.1.1.1.1.1.1.1.1.1.0,
      number_lt 8 (field fs 11) h.1.1.1.1.1.1.1.1.1.1.1.0,
      number_lt 8 (field fs 12) h.1.1.1.1.1.1.1.1.1.1.1.1.0,
      h.1.1.1.1.1.1.1.1.1.1.1.1.1.0,
    )

block_fields-block_from :
    (s : List ℕ)
    → IsBytes 512 s
    → block_fields (block_from (fields block_layout s)) ≡ fields block_layout s
block_fields-block_from s b =
    let fs = fields block_layout s in
    let h = fields-HaveSizes block_layout s b in
    (cons_eq refl (
      cons_eq refl (
        cons_eq (bytes-number 4 (field fs 2) h.1.1.0) (
          cons_eq (bytes-number 4 (field fs 3) h.1.1.1.0) (
            cons_eq (bytes-number 8 (field fs 4) h.1.1.1.1.0) (
              cons_eq (bytes-number 8 (field fs 5) h.1.1.1.1.1.0) (
                cons_eq (bytes-number 8 (field fs 6) h.1.1.1.1.1.1.0) (
                  cons_eq (bytes-number 8 (field fs 7) h.1.1.1.1.1.1.1.0) (
                    cons_eq (bytes-number 8 (field fs 8) h.1.1.1.1.1.1.1.1.0) (
                      cons_eq (bytes-number 8 (field fs 9) h.1.1.1.1.1.1.1.1.1.0) (
                        cons_eq (bytes-number 8 (field fs 10) h.1.1.1.1.1.1.1.1.1.1.0) (
                          cons_eq (bytes-number 8 (field fs 11) h.1.1.1.1.1.1.1.1.1.1.1.0) (
                            cons_eq (bytes-number 8 (field fs 12) h.1.1.1.1.1.1.1.1.1.1.1.1.0)
                              (cons_eq refl refl))))))))))))))

encode_block-decode_block : (s : List ℕ) → IsBytes 512 s → encode_block (decode_block s) ≡ s
unfolding decode_block encode_block
encode_block-decode_block s b = ap join (block_fields-block_from s b) ∙ join-fields block_layout s b
