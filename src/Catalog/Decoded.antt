-- ===== src/Catalog/Decoded.antt =====
-- What decodeCatalogRecord of catalog.go returns for a key and a payload of either format.
use libhfs.Prelude.{
  ℕ, ◌+◌, ◌-◌, ◌≤◌, ◌≡◌, refl, sym, ◌∙◌, inl, inr, false, Bool-cases, arith, ltb, length, take,
  drop, Option, none, some, length-take, length-drop,
}
use libhfs.Errors.{Result, ok, err, panic, Holds}
use libhfs.Bytes.{Bytes, u8, u16, u32, slice-ok, index-ok, field16-ok, field32-ok}
use libhfs.Extents.{
  FileSystemKind, hfs, hfs_plus, hfsx, parse_extents_record_hfs, parse_extents_record_by_kind,
}
use libhfs.Extents.Blocks.{before_end}
use libhfs.Volume.{hfs_catalog_time}
use libhfs.Extents.Parse.{entries_hfs, extents_of, parse_extents_record_by_kind-extents_of}
use libhfs.Btree.Keys.{CatalogKey}
use mathlib.Core.Path.{subst}
use libhfs.Text.{TextEncoding, decode_hfs_name}
use libhfs.Catalog.{
  CatalogRecordType, CatalogTimes, hfs_local, folder, file, folder_thread, file_thread,
  CatalogRecord, decode_catalog_times_hfs_file, decode_catalog_times_hfs_dir, hfs_times_at,
}
use libhfs.Catalog.Decode.{
  decode_folder, decode_file, record_type, decode_as, decode_as_hfs, decode_catalog_record,
  hfs_fork_at, decode_folder_hfs, decode_file_hfs, decode_thread_hfs, decode_catalog_record_hfs,
  decode_by_kind, decode_thread,
}
use libhfs.Catalog.Fields.{
  blocks_for-rounded_up, Says, SaysHfs, SaysOf, OfType, IsThread, HasDatesHfs,
  hfs_catalog_time-IsDate, fork_of_hfs, tag_of, folder-Holds, file-Holds, decode_thread-Holds,
}

hfs_times_of : Bytes → ℕ → CatalogTimes
hfs_times_of payload at = record {
  created = hfs_catalog_time (u32 payload at);
  content_modified = hfs_catalog_time (u32 payload (at + 4));
  attr_modified = none;
  accessed = none;
  backup = hfs_catalog_time (u32 payload (at + 8));
  source = hfs_local;
}

hfs_times_of-HasDatesHfs :
    (payload : Bytes) (at : ℕ) → HasDatesHfs payload at (hfs_times_of payload at)
unfolding hfs_times_of
hfs_times_of-HasDatesHfs payload at = (
  hfs_catalog_time-IsDate (u32 payload at),
  hfs_catalog_time-IsDate (u32 payload (at + 4)),
  hfs_catalog_time-IsDate (u32 payload (at + 8)),
  refl,
  refl,
  refl,
)

hfs_times-ok :
    (payload : Bytes) (at : ℕ)
    → at + 12 ≤ length payload
    → hfs_times_at payload at ≡ ok (hfs_times_of payload at)
unfolding hfs_times_at hfs_times_of
hfs_times-ok payload at h =
    rw
      (
        field32-ok payload at (omega (arith, h)),
        field32-ok payload (at + 4) (omega (arith, h)),
        field32-ok payload (at + 8) (omega (arith, h)),
      )
      refl

extents-ok :
    (part : Bytes)
    → length part ≡ 12
    → parse_extents_record_hfs part ≡ ok (before_end (entries_hfs part 0 3))
unfolding extents_of parse_extents_record_by_kind
extents-ok part h =
    let q : ltb (length part) 12 ≡ false = ground (arith, h) in
    parse_extents_record_by_kind-extents_of hfs part ∙ rw (q) refl

hfs_fork-ok :
    (block_size : ℕ) (payload : Bytes) (sizes at : ℕ)
    → sizes + 8 ≤ length payload
    → at + 12 ≤ length payload
    → hfs_fork_at block_size payload sizes at ≡ ok (fork_of_hfs block_size payload sizes at)
unfolding hfs_fork_at
hfs_fork-ok block_size payload sizes at h k =
    let n : at + 12 - at ≡ 12 = omega arith in
    let l : length (take 12 (drop at payload)) ≡ 12 =
      omega (arith, k, length-take 12 (drop at payload), length-drop at payload) in
    rw
      (
        field32-ok payload sizes (omega (arith, h)),
        field32-ok payload (sizes + 4) (omega (arith, h)),
        slice-ok payload at (at + 12) (omega arith) k,
        n,
        extents-ok (take 12 (drop at payload)) l,
        blocks_for-rounded_up block_size (u32 payload (sizes + 4)),
      )
      refl

module _ (enc : TextEncoding) (block_size : ℕ) (key : CatalogKey) (payload : Bytes) where
  folder_hfs-Holds :
      Holds
        (OfType (SaysHfs enc block_size key payload) folder)
        (decode_folder_hfs enc block_size key payload)
  unfolding decode_folder_hfs decode_catalog_times_hfs_dir
  folder_hfs-Holds = elim (Bool-cases (ltb (length payload) 22)) [
    | inl q ↦ rw (q) tt
    | inr q ↦
        let h : 22 ≤ length payload = ground (arith, q) in
        rw
          (
            q,
            field16-ok payload 4 (omega (arith, h)),
            field32-ok payload 6 (omega (arith, h)),
            hfs_times-ok payload 10 (omega (arith, h)),
          )
          (refl, ((refl, refl, refl, refl, refl), hfs_times_of-HasDatesHfs payload 10, refl, refl))
  ]

  file_hfs-Holds :
      Holds
        (OfType (SaysHfs enc block_size key payload) file)
        (decode_file_hfs enc block_size key payload)
  unfolding decode_file_hfs decode_catalog_times_hfs_file
  file_hfs-Holds = elim (Bool-cases (ltb (length payload) 98)) [
    | inl q ↦ rw (q) tt
    | inr q ↦
        let h : 98 ≤ length payload = ground (arith, q) in
        rw
          (
            q,
            field32-ok payload 20 (omega (arith, h)),
            hfs_times-ok payload 44 (omega (arith, h)),
            field32-ok payload 4 (omega (arith, h)),
            field32-ok payload 8 (omega (arith, h)),
            hfs_fork-ok block_size payload 26 74 (omega (arith, h)) (omega (arith, h)),
            hfs_fork-ok block_size payload 36 86 (omega (arith, h)) (omega (arith, h)),
          )
          (
            refl,
            (
              (refl, refl, refl, refl, refl),
              hfs_times_of-HasDatesHfs payload 44,
              refl,
              refl,
              refl,
              refl,
              refl,
            ),
          )
  ]

  decode_thread_hfs-Holds :
      (t : CatalogRecordType)
      → Holds
          (λ r.
            (r.kind ≡ t)
            × IsThread key.parent_cnid
                (u32 payload 10)
                (decode_hfs_name enc (take (u8 payload 14) (drop 15 payload)))
                r)
          (decode_thread_hfs enc block_size key payload t)
  unfolding decode_thread_hfs
  decode_thread_hfs-Holds t = elim (Bool-cases (ltb (length payload) 15)) [
    | inl q ↦ rw (q) tt
    | inr q ↦
        let h : 15 ≤ length payload = ground (arith, q) in
        rw (q, field32-ok payload 10 (omega (arith, h)), index-ok payload 14 (omega (arith, h)))
          (elim (Bool-cases (ltb (length payload) (15 + u8 payload 14))) [
            | inl p ↦ rw (p) tt
            | inr p ↦
                let k : 15 + u8 payload 14 ≤ length payload = ground (arith, p) in
                let n : 15 + u8 payload 14 - 15 ≡ u8 payload 14 = omega arith in
                rw (p, slice-ok payload 15 (15 + u8 payload 14) (omega arith) k, n)
                  (refl, (refl, refl, refl, refl, refl))
          ])
  ]

-- A record of a type, from the number of the type on disk.
tagged :
    (says : CatalogRecordType → CatalogRecord → Type 0) (tag : ℕ) (t : CatalogRecordType)
    (r : Result CatalogRecord)
    → tag ≡ tag_of t
    → Holds (OfType says t) r
    → Holds (λ x. (tag ≡ tag_of x.kind) × says x.kind x) r
tagged says tag t (ok x) e h = subst (λ k. (tag ≡ tag_of k) × says k x) (sym h.0) (e, h.1)
tagged says tag t (err e') e h = tt
tagged says tag t panic e h = absurd h

record_type-tag_of : (tag : ℕ) (t : CatalogRecordType) → record_type tag ≡ some t → tag ≡ tag_of t
record_type-tag_of tag folder h = ground (arith, h)
record_type-tag_of tag file h = ground (arith, h)
record_type-tag_of tag folder_thread h = ground (arith, h)
record_type-tag_of tag file_thread h = ground (arith, h)

as-Holds :
    (key : CatalogKey) (payload : Bytes) (tag : ℕ) (t : Option CatalogRecordType)
    → record_type tag ≡ t
    → Holds (λ r. (tag ≡ tag_of r.kind) × Says key payload r.kind r) (decode_as key payload t)
as-Holds key payload tag none e = tt
as-Holds key payload tag (some folder) e =
    tagged (Says key payload) tag folder (decode_folder key payload)
      (record_type-tag_of tag folder e) (folder-Holds key payload)
as-Holds key payload tag (some file) e =
    tagged (Says key payload) tag file (decode_file key payload) (record_type-tag_of tag file e)
      (file-Holds key payload)
as-Holds key payload tag (some folder_thread) e =
    tagged (Says key payload) tag folder_thread (decode_thread folder_thread key payload)
      (record_type-tag_of tag folder_thread e) (decode_thread-Holds folder_thread key payload)
as-Holds key payload tag (some file_thread) e =
    tagged (Says key payload) tag file_thread (decode_thread file_thread key payload)
      (record_type-tag_of tag file_thread e) (decode_thread-Holds file_thread key payload)

module _ (enc : TextEncoding) (block_size : ℕ) (key : CatalogKey) (payload : Bytes) where
  plus-Holds :
      Holds (SaysOf hfs_plus enc block_size key payload) (decode_catalog_record key payload)
  unfolding decode_catalog_record
  plus-Holds = elim (Bool-cases (ltb (length payload) 2)) [
    | inl q ↦ rw (q) tt
    | inr q ↦
        let h : 2 ≤ length payload = ground (arith, q) in
        rw (q, field16-ok payload 0 (omega (arith, h)))
          (as-Holds key payload (u16 payload 0) (record_type (u16 payload 0)) refl)
  ]

  as_hfs-Holds :
      (tag : ℕ) (t : Option CatalogRecordType)
      → record_type tag ≡ t
      → Holds
          (λ r. (tag ≡ tag_of r.kind) × SaysHfs enc block_size key payload r.kind r)
          (decode_as_hfs enc block_size key payload t)
  as_hfs-Holds tag none e = tt
  as_hfs-Holds tag (some folder) e =
      tagged (SaysHfs enc block_size key payload) tag folder
        (decode_folder_hfs enc block_size key payload) (record_type-tag_of tag folder e)
        (folder_hfs-Holds enc block_size key payload)
  as_hfs-Holds tag (some file) e =
      tagged (SaysHfs enc block_size key payload) tag file
        (decode_file_hfs enc block_size key payload) (record_type-tag_of tag file e)
        (file_hfs-Holds enc block_size key payload)
  as_hfs-Holds tag (some folder_thread) e =
      tagged (SaysHfs enc block_size key payload) tag folder_thread
        (decode_thread_hfs enc block_size key payload folder_thread)
        (record_type-tag_of tag folder_thread e)
        (decode_thread_hfs-Holds enc block_size key payload folder_thread)
  as_hfs-Holds tag (some file_thread) e =
      tagged (SaysHfs enc block_size key payload) tag file_thread
        (decode_thread_hfs enc block_size key payload file_thread)
        (record_type-tag_of tag file_thread e)
        (decode_thread_hfs-Holds enc block_size key payload file_thread)

  classic-Holds :
      Holds
        (SaysOf hfs enc block_size key payload)
        (decode_catalog_record_hfs enc block_size key payload)
  unfolding decode_catalog_record_hfs
  classic-Holds = elim (Bool-cases (ltb (length payload) 1)) [
    | inl q ↦ rw (q) tt
    | inr q ↦
        let h : 1 ≤ length payload = ground (arith, q) in
        rw (q, index-ok payload 0 (omega (arith, h)))
          (as_hfs-Holds (u8 payload 0) (record_type (u8 payload 0)) refl)
  ]

-- decodeCatalogRecord never reads outside the payload of a catalog record, on any volume and for
-- any bytes, and a record that it returns has the type that the payload begins with, and says what
-- the payload and the key hold at the places of their format. A folder or a file has the CNID of the
-- payload, the name and the parent of its key, and its dates (none for 0, else seconds of the Unix
-- epoch; no more than three on classic HFS); a folder has its valence; a file has its Finder type
-- and creator and its forks (of HFS+ those that the record reaches, else the zero fork; of classic
-- HFS their sizes and extents, with the blocks that hold their physical size). On HFS+ both have their
-- permissions and Finder information, and a file is a hard link, a directory link (with its flag)
-- or a symbolic link exactly as these say, with the link reference as the target of a hard link and
-- 0 for any other; folders, threads and records of classic HFS are no links. A thread leads from
-- the CNID of its key to the parent and the name of the payload, and has no CNID.
pub decode_by_kind-Holds :
    (kind : FileSystemKind) (enc : TextEncoding) (block_size : ℕ) (key : CatalogKey)
    (payload : Bytes)
    → Holds
        (SaysOf kind enc block_size key payload)
        (decode_by_kind kind enc block_size key payload)
unfolding decode_by_kind
decode_by_kind-Holds hfs enc block_size key payload = classic-Holds enc block_size key payload
decode_by_kind-Holds hfs_plus enc block_size key payload = plus-Holds enc block_size key payload
decode_by_kind-Holds hfsx enc block_size key payload = plus-Holds enc block_size key payload
