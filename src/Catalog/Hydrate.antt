-- ===== src/Catalog/Hydrate.antt =====
-- readDecmpfsAttr and hydrateCompressedRecord of attributes.go, and from catalog.go
-- hydrateCatalogRecord, OpenCNID and findChild.
use libhfs.Prelude.{
  ℕ, ◌+◌, Bool, true, not, ◌||◌, Option, none, some, [], ◌∷◌, ltb, ◌==◌, if◌then◌else◌, length,
}
use libhfs.Errors.{sentinel, is, stop_walk, missing_extent, Result, ok, err, panic}
use libhfs.Bytes.{Bytes, slice, field32}
use libhfs.Btree.Keys.{AttributesKey}
use libhfs.Btree.Search.{Scan}
use libhfs.Btree.Leaves.{LeafCallback}
use libhfs.Decmpfs.{DecmpfsHeader, parse_decmpfs_header}
use libhfs.Catalog.{file, CatalogRecord, CatalogTimes}
use libhfs.Catalog.Session.{Catalog, Session, Action, ◌>>=◌, pure, attributes_note}
use libhfs.Catalog.Lookup.{is_kind, lookup_cnid_raw, search_child}
use libhfs.Catalog.Links.{same_text, resolve_hard_link_record}

-- "com.apple.decmpfs"
abbrev pub decmpfs_attr_name : Bytes
decmpfs_attr_name =
    99 ∷ 111 ∷ 109 ∷ 46 ∷ 97 ∷ 112 ∷ 112 ∷ 108 ∷ 101 ∷ 46 ∷ 100 ∷ 101 ∷ 99 ∷ 109 ∷ 112 ∷ 102 ∷ 115
    ∷ []

-- A header of a compressed file and the payload behind it.
abbrev pub Decmpfs : Type 0
Decmpfs = DecmpfsHeader × Bytes

-- The attribute's value, of `size` bytes behind the 16 of the record's header.
unfoldable pub decmpfs_value : Bytes → ℕ → Result (Option Decmpfs)
decmpfs_value rec size = elim (slice rec 16 (16 + size)) [
  | err e ↦ err e
  | panic ↦ panic
  | ok attr ↦ elim (parse_decmpfs_header attr) [
    | err e ↦ err e
    | panic ↦ panic
    | ok none ↦ ok none
    | ok (some h) ↦ elim (slice attr 16 (length attr)) [
      | err e ↦ err e
      | panic ↦ panic
      | ok payload ↦ ok (some (h, payload))
    ]
  ]
]

-- The record of an inline attribute: `none` where the callback passes it over.
unfoldable pub inline_decmpfs : Bytes → Result (Option Decmpfs)
inline_decmpfs rec = if ltb (length rec) 16 then ok none else elim (field32 rec 0) [
  | err e ↦ err e
  | panic ↦ panic
  | ok t ↦ if not (t == 16) then ok none else elim (field32 rec 12) [
    | err e ↦ err e
    | panic ↦ panic
    | ok size ↦
        if ltb size 16 || ltb (length rec) (16 + size) then ok none else decmpfs_value rec size
  ]
]

unfoldable pub take_decmpfs : LeafCallback (Session × Option Decmpfs) AttributesKey
take_decmpfs (s, found) key rec =
    if not (key.start_block == 0) || not (same_text key.name decmpfs_attr_name)
    then ((s, found), ok tt)
    else elim (inline_decmpfs rec) [
      | err e ↦ ((s, found), err e)
      | panic ↦ ((s, found), panic)
      | ok none ↦ ((s, found), ok tt)
      | ok (some d) ↦ ((s, some d), err (sentinel stop_walk))
    ]

abbrev pub conclude_decmpfs : Scan (Session × Option Decmpfs) → Session × Result (Option Decmpfs)
conclude_decmpfs ((s, found), ok _) = (s, ok found)
conclude_decmpfs ((s, found), err e) =
    (s, if is e missing_extent then ok none else if is e stop_walk then ok found else err e)
conclude_decmpfs ((s, found), panic) = (s, panic)

module _ (c : Catalog) where
  -- `none` is the `false` of readDecmpfsAttr.
  unfoldable pub read_decmpfs_attr : ℕ → Action (Option Decmpfs)
  read_decmpfs_attr cnid s =
      if c.attributes_blocks == 0
      then (s, ok none)
      else conclude_decmpfs (
          c.attributes_of cnid (Session × Option Decmpfs) (attributes_note cnid) take_decmpfs
            (s, none))

  -- What a decmpfs header says of its file.
  abbrev pub compressed_as : CatalogRecord → Option Decmpfs → CatalogRecord
  compressed_as r none = r
  compressed_as r (some (h, payload)) = record r {
    compressed = true;
    compression_type = h.compression_type;
    data_fork = record r.data_fork { logical_size = h.uncompressed_size };
  }

  abbrev pub or_as_is :
      CatalogRecord → Session × Result (Option Decmpfs) → Session × Result CatalogRecord
  or_as_is r (s, ok d) = (s, ok (compressed_as r d))
  or_as_is r (s, err e) = (s, ok r)
  or_as_is r (s, panic) = (s, panic)

  unfoldable pub hydrate_compressed_record : CatalogRecord → Action CatalogRecord
  hydrate_compressed_record r s =
      if not (is_kind r.kind file) || not (r.data_fork.logical_size == 0)
      then (s, ok r)
      else or_as_is r (read_decmpfs_attr r.cnid s)

  unfoldable pub hydrate_catalog_record : CatalogRecord → Action CatalogRecord
  hydrate_catalog_record r = do
    resolved ← resolve_hard_link_record c r
    hydrate_compressed_record resolved

  unfoldable pub open_cnid : ℕ → Action CatalogRecord
  open_cnid cnid = do r ← lookup_cnid_raw c cnid; hydrate_catalog_record r

  unfoldable pub get_times : ℕ → Action CatalogTimes
  get_times cnid = do r ← open_cnid cnid; pure r.times

  unfoldable pub get_root_directory : Action CatalogRecord
  get_root_directory = open_cnid 2

  unfoldable pub find_child : ℕ → Bytes → (Bytes → Bytes → Bool) → Action CatalogRecord
  find_child parent name same_name = do
    r ← search_child c parent name same_name
    hydrate_catalog_record r
