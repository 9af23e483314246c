-- ===== src/Opening.antt =====
-- The opening of files: openFileFromRecord, openForkReader and the Open methods of file.go, with
-- decompressRecord of attributes.go, decodeResourceForkPayload of decmpfs.go, resolveForkExtents of
-- extents.go and ReadLink of links.go.
use libhfs.Prelude.{
  ℕ, ◌^◌, Bool, true, false, not, Option, none, some, List, [], ◌∷◌, ltb, ◌==◌, if◌then◌else◌,
  length, take,
}
use mathlib.Core.List.{reverse}
use libhfs.Errors.{
  sentinel, parse_error, is, corrupt, not_file, not_found, missing_extent, unsupported_compression,
  Result, ok, err,
}
use libhfs.Bytes.{Bytes}
use libhfs.Reader.{ReaderAt}
use libhfs.Extents.{ExtentDescriptor, resolve_fork_extents_from_fork}
use libhfs.Special.{ended}
use libhfs.File.{File, read_all}
use libhfs.Decmpfs.{
  Inflate, DecmpfsHeader, stored_in_resource_fork, check_alloc, inflate_zlib, decode_inline_payload,
  decode_decmpfs_resource_fork,
}
use libhfs.Catalog.{CatalogRecord, file, LinkKind, symbolic}
use libhfs.Catalog.Session.{Catalog, Action, ◌>>=◌, pure, raise, either}
use libhfs.Catalog.Lookup.{is_kind, lookup_cnid_raw}
use libhfs.Catalog.Hydrate.{Decmpfs, read_decmpfs_attr, open_cnid}

-- A step that neither reads nor changes the session.
abbrev pub lift : {A : Type 0} → Result A → Action A
lift r s = (s, r)

abbrev pub is_symbolic : LinkKind → Bool
is_symbolic symbolic = true
is_symbolic _ = false

-- The codec of stored chunks.
unfoldable pub raw_chunk : Inflate
raw_chunk src max_out = ok (take max_out src)

-- strings.TrimRight(s, "\x00")
unfoldable pub drop_zeros : Bytes → Bytes
drop_zeros [] = []
drop_zeros (b ∷ bs) = let rest = drop_zeros bs in if b == 0 then rest else b ∷ bs

unfoldable pub trim_right_zeros : Bytes → Bytes
trim_right_zeros text = reverse (drop_zeros (reverse text))

-- `overflow` is what the extents-overflow tree holds for a file and a type of fork, `limit` the
-- volume's allocation limit, `base` its baseOffset and `codecs` lookupDecompressor.
module _ (c : Catalog) (r : ReaderAt) (base limit : ℕ)
    (overflow : ℕ → ℕ → Result (List (ℕ × Bytes))) (zlib : Inflate)
    (codecs : ℕ → Option Inflate) where
  -- resolveForkExtents, of the resource fork or of the data fork.
  unfoldable pub resolve_fork_extents : ℕ → Bool → Action (List ExtentDescriptor)
  resolve_fork_extents cnid resource = do
    rec ← open_cnid c cnid
    (if resource
        then lift
            (ended (resolve_fork_extents_from_fork c.kind (overflow cnid 255) cnid rec.rsrc_fork))
        else lift
            (ended (resolve_fork_extents_from_fork c.kind (overflow cnid 0) cnid rec.data_fork)))

  -- The size of the record's fork.
  abbrev pub size_of : CatalogRecord → Bool → ℕ
  size_of rec true = rec.rsrc_fork.logical_size
  size_of rec false = rec.data_fork.logical_size

  unfoldable pub open_fork_reader : CatalogRecord → Bool → Action File
  open_fork_reader rec resource = do
    exts ← resolve_fork_extents rec.cnid resource
    (if ltb (2 ^ 62) (size_of rec resource)
        then raise (parse_error "open_fork" rec.cnid (sentinel corrupt))
        else pure (record { extents = exts; inline = none; size = size_of rec resource; off = 0 }))

  -- readAllBounded
  unfoldable pub read_all_bounded : File → Action Bytes
  read_all_bounded f = do
    _ ← lift (check_alloc limit "decmpfs_resource" f.size)
    lift (read_all r c.block_size base limit f)

  -- The codec of a type of compression in a resource fork.
  unfoldable pub chunk_codec : ℕ → Option Inflate
  chunk_codec t =
      if t == 4 then some (inflate_zlib zlib) else if t == 10 then some raw_chunk else codecs t

  unfoldable pub decode_resource_fork_payload : DecmpfsHeader → CatalogRecord → Action Bytes
  decode_resource_fork_payload h rec = do
    _ ← lift (check_alloc limit "decmpfs_fork" h.uncompressed_size)
    elim (chunk_codec h.compression_type) [
      | none ↦ raise (parse_error "decmpfs" h.compression_type (sentinel unsupported_compression))
      | some codec ↦ (do
        fork ← open_fork_reader rec true
        (if fork.size == 0
            then raise (parse_error "decmpfs_fork" 0 (sentinel missing_extent))
            else (read_all_bounded fork >>= λ raw.
                lift (decode_decmpfs_resource_fork raw h.uncompressed_size codec))))
    ]

  -- decompressRecord, from what readDecmpfsAttr gives.
  abbrev pub decompress_with : CatalogRecord → Option Decmpfs → Action Bytes
  decompress_with rec none = raise (sentinel not_found)
  decompress_with rec (some (h, payload)) =
      if stored_in_resource_fork h
      then decode_resource_fork_payload h rec
      else lift (decode_inline_payload zlib limit codecs h payload)

  unfoldable pub decompress_record : CatalogRecord → Action Bytes
  decompress_record rec = do found ← read_decmpfs_attr c rec.cnid; decompress_with rec found

  -- The File of decompressed contents.
  abbrev pub of_bytes : Bytes → File
  of_bytes data' = record { extents = []; inline = some data'; size = length data'; off = 0 }

  unfoldable pub open_file_from_record : CatalogRecord → Bool → Action File
  open_file_from_record rec resource s =
      if not (is_kind rec.kind file)
      then (s, err (sentinel not_file))
      else if resource
      then open_fork_reader rec true s
      else either (λ data'. pure (of_bytes data'))
          (λ e s'. if is e not_found then open_fork_reader rec false s' else (s', err e))
          (decompress_record rec s)

  unfoldable pub open_file_by_cnid : ℕ → Action File
  open_file_by_cnid cnid = do rec ← open_cnid c cnid; open_file_from_record rec false

  unfoldable pub open_resource_fork_by_cnid : ℕ → Action File
  open_resource_fork_by_cnid cnid = do rec ← open_cnid c cnid; open_file_from_record rec true

  unfoldable pub read_link : ℕ → Action Bytes
  read_link cnid = do
    rec ← lookup_cnid_raw c cnid
    (if not (is_symbolic rec.link)
        then raise (parse_error "read_link" cnid (sentinel not_found))
        else (open_file_from_record rec false >>= λ f.
            lift (read_all r c.block_size base limit f) >>= λ target.
            pure (trim_right_zeros target)))
