-- ===== src/Nefs/Layout/Catalogs.antt =====
-- NFS_CATALOG_STRUCT of dev/ZKAKit/FSKit/NeFS.h as the bytes of a sector.
use zka.Common.{
  ℕ, ◌^◌, ◌<◌, ◌≡◌, refl, ap, ◌∙◌, List, [], ◌∷◌, get_or, number, bytes, fields, join, IsBytes,
  HaveSizes, cons_eq, fields-join, join-fields, number-bytes, IsBytes-bytes, bytes-number,
  IsBytes-join, fields-HaveSizes, number_lt,
}
use zka.Nefs.Structs.{Catalog}

-- The sizes of the fields.
abbrev catalog_layout : List ℕ
catalog_layout = 256 ∷ 200 ∷ 2 ∷ 2 ∷ 4 ∷ 8 ∷ 8 ∷ 8 ∷ 8 ∷ 8 ∷ 8 ∷ []

abbrev catalog_fields : Catalog → List (List ℕ)
catalog_fields c =
    c.name
    ∷ c.mime
    ∷ bytes 2 c.flags
    ∷ bytes 2 c.filk_mm_flags
    ∷ bytes 4 c.kind
    ∷ bytes 8 c.data_fork_size
    ∷ bytes 8 c.resource_fork_size
    ∷ bytes 8 c.data_fork
    ∷ bytes 8 c.resource_fork
    ∷ bytes 8 c.next_sibling
    ∷ bytes 8 c.prev_sibling
    ∷ []

abbrev field : List (List ℕ) → ℕ → List ℕ
field fs i = get_or fs i []

abbrev catalog_from : List (List ℕ) → Catalog
catalog_from fs = record {
  name = field fs 0;
  mime = field fs 1;
  flags = number (field fs 2);
  filk_mm_flags = number (field fs 3);
  kind = number (field fs 4);
  data_fork_size = number (field fs 5);
  resource_fork_size = number (field fs 6);
  data_fork = number (field fs 7);
  resource_fork = number (field fs 8);
  next_sibling = number (field fs 9);
  prev_sibling = number (field fs 10);
}

-- The bytes of the structure, and the cast of a sector's bytes to it.
unfoldable pub encode_catalog : Catalog → List ℕ
encode_catalog c = join (catalog_fields c)

unfoldable pub decode_catalog : List ℕ → Catalog
decode_catalog s = catalog_from (fields catalog_layout s)

-- Each field fits its place.
abbrev pub IsCatalog : Catalog → Type 0
IsCatalog c =
    IsBytes 256 c.name
    × IsBytes 200 c.mime
    × (c.flags < 256 ^ 2)
    × (c.filk_mm_flags < 256 ^ 2)
    × (c.kind < 256 ^ 4)
    × (c.data_fork_size < 256 ^ 8)
    × (c.resource_fork_size < 256 ^ 8)
    × (c.data_fork < 256 ^ 8)
    × (c.resource_fork < 256 ^ 8)
    × (c.next_sibling < 256 ^ 8)
    × (c.prev_sibling < 256 ^ 8)

catalog_fields-HaveSizes : (c : Catalog) → IsCatalog c → HaveSizes catalog_layout (catalog_fields c)
catalog_fields-HaveSizes c h = (
  h.0,
  (
    h.1,
    (
      IsBytes-bytes 2 c.flags,
      (
        IsBytes-bytes 2 c.filk_mm_flags,
        (
          IsBytes-bytes 4 c.kind,
          (
            IsBytes-bytes 8 c.data_fork_size,
            (
              IsBytes-bytes 8 c.resource_fork_size,
              (
                IsBytes-bytes 8 c.data_fork,
                (
                  IsBytes-bytes 8 c.resource_fork,
                  (IsBytes-bytes 8 c.next_sibling, (IsBytes-bytes 8 c.prev_sibling, tt)),
                ),
              ),
            ),
          ),
        ),
      ),
    ),
  ),
)

pub encode_catalog-IsBytes : (c : Catalog) → IsCatalog c → IsBytes 512 (encode_catalog c)
unfolding encode_catalog
encode_catalog-IsBytes c h =
    IsBytes-join catalog_layout (catalog_fields c) (catalog_fields-HaveSizes c h)

catalog_from-catalog_fields : (c : Catalog) → IsCatalog c → catalog_from (catalog_fields c) ≡ c
catalog_from-catalog_fields c h =
    rw
      (
        number-bytes 2 c.flags h.2,
        number-bytes 2 c.filk_mm_flags h.3,
        number-bytes 4 c.kind h.4,
        number-bytes 8 c.data_fork_size h.5,
        number-bytes 8 c.resource_fork_size h.6,
        number-bytes 8 c.data_fork h.7,
        number-bytes 8 c.resource_fork h.8,
        number-bytes 8 c.next_sibling h.9,
        number-bytes 8 c.prev_sibling h.10,
      )
      refl

-- A catalog whose fields fit their places is read from its 512 bytes as it was written.
pub decode_catalog-encode_catalog :
    (c : Catalog) → IsCatalog c → decode_catalog (encode_catalog c) ≡ c
unfolding decode_catalog encode_catalog
decode_catalog-encode_catalog c h =
    ap catalog_from (fields-join catalog_layout (catalog_fields c) (catalog_fields-HaveSizes c h))
    ∙ catalog_from-catalog_fields c h

pub decode_catalog-IsCatalog : (s : List ℕ) → IsBytes 512 s → IsCatalog (decode_catalog s)
unfolding decode_catalog
decode_catalog-IsCatalog s b =
    let fs = fields catalog_layout s in
    let h = fields-HaveSizes catalog_layout s b in
    (
      h.0,
      h.1.0,
      number_lt 2 (field fs 2) h.1.1.0,
      number_lt 2 (field fs 3) h.1.1.1.0,
      number_lt 4 (field fs 4) h.1.1.1.1.0,
      number_lt 8 (field fs 5) h.1.1.1.1.1.0,
      number_lt 8 (field fs 6) h.1.1.1.1.1.1.0,
      number_lt 8 (field fs 7) h.1.1.1.1.1.1.1.0,
      number_lt 8 (field fs 8) h.1.1.1.1.1.1.1.1.0,
      number_lt 8 (field fs 9) h.1.1.1.1.1.1.1.1.1.0,
      number_lt 8 (field fs 10) h.1.1.1.1.1.1.1.1.1.1.0,
    )

catalog_fields-catalog_from :
    (s : List ℕ)
    → IsBytes 512 s
    → catalog_fields (catalog_from (fields catalog_layout s)) ≡ fields catalog_layout s
catalog_fields-catalog_from s b =
    let fs = fields catalog_layout s in
    let h = fields-HaveSizes catalog_layout s b in
    (cons_eq refl (
      cons_eq refl (
        cons_eq (bytes-number 2 (field fs 2) h.1.1.0) (
          cons_eq (bytes-number 2 (field fs 3) h.1.1.1.0) (
            cons_eq (bytes-number 4 (field fs 4) h.1.1.1.1.0) (
              cons_eq (bytes-number 8 (field fs 5) h.1.1.1.1.1.0) (
                cons_eq (bytes-number 8 (field fs 6) h.1.1.1.1.1.1.0) (
                  cons_eq (bytes-number 8 (field fs 7) h.1.1.1.1.1.1.1.0) (
                    cons_eq (bytes-number 8 (field fs 8) h.1.1.1.1.1.1.1.1.0) (
                      cons_eq (bytes-number 8 (field fs 9) h.1.1.1.1.1.1.1.1.1.0) (
                        cons_eq (bytes-number 8 (field fs 10) h.1.1.1.1.1.1.1.1.1.1.0)
                          refl)))))))))))

encode_catalog-decode_catalog : (s : List ℕ) → IsBytes 512 s → encode_catalog (decode_catalog s) ≡ s
unfolding decode_catalog encode_catalog
encode_catalog-decode_catalog s b =
    ap join (catalog_fields-catalog_from s b) ∙ join-fields catalog_layout s b
