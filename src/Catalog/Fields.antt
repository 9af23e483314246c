-- ===== src/Catalog/Fields.antt =====
-- What the decoders of catalog.go make of a record's bytes.
use libhfs.Prelude.{
  ℕ, ◌+◌, ◌-◌, ◌*◌, ◌/◌, ◌%◌, ◌^◌, ◌≤◌, ◌≡◌, ◌≢◌, ◌⊎◌, ◌==◌, ==_iff, Option, none, some, refl, inl,
  inr, Bool, true, false, Bool-cases, List, [], ◌∷◌, arith, ltb, leb, if◌then◌else◌, length, take,
  drop, leb→le, zero, suc,
}
use libhfs.Errors.{ok, Holds}
use libhfs.Bytes.{Bytes, u8, u16, u32, slice-ok, index-ok, field16-ok, field32-ok}
use libhfs.Extents.{FileSystemKind, hfs, ForkData}
use libhfs.Volume.Header.{fork_of, fork_at-ok}
use libhfs.Volume.{hfs_catalog_time}
use libhfs.Btree.Keys.{CatalogKey, units_from}
use libhfs.Extents.Blocks.{before_end}
use libhfs.Extents.Parse.{entries_hfs}
use libhfs.Text.{TextEncoding, name_string, decoded_name, decode_hfs_name}
use libhfs.Catalog.{
  CatalogRecordType, folder, file, folder_thread, file_thread, hfs_local, LinkKind, no_link,
  hard_file, hard_dir, symbolic, CatalogRecord, BsdInfo, CatalogTimes, new_record, no_fork,
  hfs_plus_gmt, classify_link, parse_bsd_info, decode_catalog_times_hfs_plus,
}
use libhfs.Catalog.Decode.{
  fork_if, blocks_for, in_eight, link_target_of, decode_node, decode_folder, decode_file,
  decode_thread,
}

abbrev times_of : Bytes → CatalogTimes
times_of payload = record {
  created = hfs_catalog_time (u32 payload 12);
  content_modified = hfs_catalog_time (u32 payload 16);
  attr_modified = hfs_catalog_time (u32 payload 20);
  accessed = hfs_catalog_time (u32 payload 24);
  backup = hfs_catalog_time (u32 payload 28);
  source = hfs_plus_gmt;
}

times-ok :
    (payload : Bytes)
    → 88 ≤ length payload
    → decode_catalog_times_hfs_plus payload ≡ ok (times_of payload)
unfolding decode_catalog_times_hfs_plus
times-ok payload h =
    rw
      (
        field32-ok payload 12 (omega (arith, h)),
        field32-ok payload 16 (omega (arith, h)),
        field32-ok payload 20 (omega (arith, h)),
        field32-ok payload 24 (omega (arith, h)),
        field32-ok payload 28 (omega (arith, h)),
      )
      refl

-- The permissions that a record of HFS+ holds.
abbrev pub perms_of : Bytes → BsdInfo
perms_of payload = record {
  owner_id = u32 payload 32;
  group_id = u32 payload 36;
  admin_flags = u8 payload 40;
  owner_flags = u8 payload 41;
  file_mode = u16 payload 42;
  special = u32 payload 44;
}

perms-ok : (payload : Bytes) → 88 ≤ length payload → parse_bsd_info payload ≡ ok (perms_of payload)
unfolding parse_bsd_info
perms-ok payload h =
    rw
      (
        field32-ok payload 32 (omega (arith, h)),
        field32-ok payload 36 (omega (arith, h)),
        index-ok payload 40 (omega (arith, h)),
        index-ok payload 41 (omega (arith, h)),
        field16-ok payload 42 (omega (arith, h)),
        field32-ok payload 44 (omega (arith, h)),
      )
      refl

-- A folder or file record of HFS+ without its forks.
node_of : CatalogRecordType → Bool → CatalogKey → Bytes → CatalogRecord
node_of t is_dir key payload = record (new_record t key.parent_cnid (name_string key.name_utf16)) {
  cnid = u32 payload 8;
  times = times_of payload;
  perms = perms_of payload;
  link_id = (perms_of payload).special;
  finder_type = u32 payload 48;
  finder_creator = u32 payload 52;
  finder_info = take 32 (drop 48 payload);
  link =
      classify_link (u32 payload 48) (u32 payload 52) (perms_of payload).file_mode (u16 payload 2)
        is_dir;
}

node-ok :
    (t : CatalogRecordType) (is_dir : Bool) (key : CatalogKey) (payload : Bytes)
    → 88 ≤ length payload
    → decode_node t is_dir key payload ≡ ok (node_of t is_dir key payload)
unfolding decode_node node_of
node-ok t is_dir key payload h =
    rw
      (
        field32-ok payload 8 (omega (arith, h)),
        times-ok payload h,
        perms-ok payload h,
        field32-ok payload 48 (omega (arith, h)),
        field32-ok payload 52 (omega (arith, h)),
        slice-ok payload 48 80 (omega arith) (omega (arith, h)),
        field16-ok payload 2 (omega (arith, h)),
      )
      refl

-- The fork that a record of HFS+ holds at a place, or the zero fork if it ends before it does.
abbrev pub fork_of_record : Bytes → ℕ → ForkData
fork_of_record payload at =
    if leb (at + 80) (length payload) then fork_of (take 80 (drop at payload)) else no_fork

fork_if-ok : (payload : Bytes) (at : ℕ) → fork_if payload at ≡ ok (fork_of_record payload at)
fork_if-ok payload at = elim (Bool-cases (leb (at + 80) (length payload))) [
  | inl q ↦ rw (q) (fork_at-ok payload at (leb→le (at + 80) (length payload) q))
  | inr q ↦ rw (q) refl
]

-- What a link's target is: the link reference of a hard link, and 0 otherwise.
abbrev pub TargetOf : LinkKind → CatalogRecord → ℕ → Type 0
TargetOf hard_file r special = r.link_target ≡ special
TargetOf hard_dir r special = r.link_target ≡ special
TargetOf _ r special = r.link_target ≡ 0

-- A date: none for 0, else the seconds from 1970 on as an int64 of the seconds from 1904 on.
abbrev pub IsDate : ℕ → Option ℕ → Type 0
IsDate raw none = raw ≡ 0
IsDate raw (some t) = (raw ≢ 0) × ((t + 2082844800) % 2 ^ 64 ≡ raw % 2 ^ 64)

pub hfs_catalog_time-IsDate : (raw : ℕ) → IsDate raw (hfs_catalog_time raw)
unfolding hfs_catalog_time
hfs_catalog_time-IsDate raw = elim (Bool-cases (raw == 0)) [
  | inl q ↦ rw (hfs_catalog_time, q) ((==_iff raw 0).0 q)
  | inr q ↦ rw (hfs_catalog_time, q) (ground (arith, q), omega arith)
]

-- The dates of HFS+.
abbrev pub HasDates : Bytes → CatalogTimes → Type 0
HasDates payload t =
    IsDate (u32 payload 12) t.created
    × IsDate (u32 payload 16) t.content_modified
    × IsDate (u32 payload 20) t.attr_modified
    × IsDate (u32 payload 24) t.accessed
    × IsDate (u32 payload 28) t.backup
    × (t.source ≡ hfs_plus_gmt)

-- The three dates of classic HFS, from a place on.
abbrev pub HasDatesHfs : Bytes → ℕ → CatalogTimes → Type 0
HasDatesHfs payload at t =
    IsDate (u32 payload at) t.created
    × IsDate (u32 payload (at + 4)) t.content_modified
    × IsDate (u32 payload (at + 8)) t.backup
    × (t.attr_modified ≡ none)
    × (t.accessed ≡ none)
    × (t.source ≡ hfs_local)

-- What a kind of link asks of a file's Finder type and creator ("hlnk" and "hfs+", "fdrp" and
-- "MACS" with the flag of a link chain, "slnk" and "rhap"), of its mode (0xA000) and its flags.
abbrev pub IsHardFile : ℕ → ℕ → Type 0
IsHardFile type creator = (type ≡ 1751936619) × (creator ≡ 1751544619)

abbrev pub IsHardDir : ℕ → ℕ → ℕ → Type 0
IsHardDir type creator flags = (type ≡ 1717859952) × (creator ≡ 1296122707) × (flags / 32 % 2 ≡ 1)

abbrev pub IsSymbolic : ℕ → ℕ → ℕ → Type 0
IsSymbolic type creator mode =
    ((type ≡ 1936486251) × (creator ≡ 1919443312)) ⊎ (mode / 4096 % 16 ≡ 10)

abbrev pub IsLink : ℕ → ℕ → ℕ → ℕ → LinkKind → Type 0
IsLink type creator mode flags hard_file = IsHardFile type creator
IsLink type creator mode flags hard_dir = IsHardDir type creator flags
IsLink type creator mode flags symbolic =
    IsSymbolic type creator mode × ¬ (IsHardFile type creator) × ¬ (IsHardDir type creator flags)
IsLink type creator mode flags no_link =
    ¬ (IsHardFile type creator)
    × ¬ (IsHardDir type creator flags)
    × ¬ (IsSymbolic type creator mode)

classify_link-IsLink :
    (type creator mode flags : ℕ)
    → IsLink type creator mode flags (classify_link type creator mode flags false)
unfolding classify_link
classify_link-IsLink type creator mode flags = ground arith

-- The numbers of the types of records on disk.
abbrev pub tag_of : CatalogRecordType → ℕ
tag_of folder = 1
tag_of file = 2
tag_of folder_thread = 3
tag_of file_thread = 4

-- A node lies in the folder of its key and has its name.
abbrev pub IsNode : ℕ → ℕ → Bytes → CatalogRecord → Type 0
IsNode cnid parent name r =
    (r.cnid ≡ cnid)
    × (r.parent_cnid ≡ parent)
    × (r.name ≡ name)
    × (r.thread_cnid ≡ 0)
    × (r.compressed ≡ false)

-- What folders and files of HFS+ have besides: dates, permissions and the Finder's information.
abbrev pub IsPlusNode : CatalogKey → Bytes → CatalogRecord → Type 0
IsPlusNode key payload r =
    IsNode (u32 payload 8) key.parent_cnid (name_string key.name_utf16) r
    × HasDates payload r.times
    × (r.perms ≡ perms_of payload)
    × (r.link_id ≡ u32 payload 44)
    × (r.finder_type ≡ u32 payload 48)
    × (r.finder_creator ≡ u32 payload 52)
    × (r.finder_info ≡ take 32 (drop 48 payload))

-- A thread's key names the node that it leads from, and its payload the node's parent and name.
abbrev pub IsThread : ℕ → ℕ → Bytes → CatalogRecord → Type 0
IsThread node parent name r =
    (r.thread_cnid ≡ node)
    × (r.parent_cnid ≡ parent)
    × (r.name ≡ name)
    × (r.cnid ≡ 0)
    × (r.link ≡ no_link)

-- The UTF-16 units from a place on.
abbrev pub units_at : Bytes → ℕ → ℕ → List ℕ
units_at payload at zero = []
units_at payload at (suc n) = u16 payload at ∷ units_at payload (at + 2) n

-- What the record of HFS+ with a payload says, by its type.
abbrev pub Says : CatalogKey → Bytes → CatalogRecordType → CatalogRecord → Type 0
Says key payload folder r =
    IsPlusNode key payload r
    × (r.valence ≡ u32 payload 4)
    × (r.link ≡ no_link)
    × (r.link_target ≡ 0)
Says key payload file r =
    IsPlusNode key payload r
    × (r.data_fork ≡ fork_of_record payload 88)
    × (r.rsrc_fork ≡ fork_of_record payload 168)
    × IsLink (u32 payload 48) (u32 payload 52) (u16 payload 42) (u16 payload 2) r.link
    × TargetOf r.link r (u32 payload 44)
Says key payload _ r =
    IsThread key.parent_cnid (u32 payload 4) (decoded_name (units_at payload 10 (u16 payload 8))) r

-- The blocks of a size that hold so many bytes, as a uint32, and 0 for no size; the sum is a uint64.
abbrev pub rounded_up : ℕ → ℕ → ℕ
rounded_up block_size bytes =
    if block_size == 0 then 0 else (bytes + (block_size - 1)) % 2 ^ 64 / block_size % 2 ^ 32

pub blocks_for-rounded_up :
    (block_size bytes : ℕ) → blocks_for block_size bytes ≡ rounded_up block_size bytes
blocks_for-rounded_up block_size bytes = elim (Bool-cases (block_size == 0)) [
  | inl q ↦ rw (q) refl
  | inr q ↦
      let z : block_size ≢ 0 = ground (arith, q) in
      let e : ((bytes + block_size) % 2 ^ 64 + 2 ^ 64 - 1) % 2 ^ 64
          ≡ (bytes + (block_size - 1)) % 2 ^ 64 =
        omega (arith, z) in
      rw (q, e) refl
]

-- The fork of a classic record, with its sizes and its extents at two places.
abbrev pub fork_of_hfs : ℕ → Bytes → ℕ → ℕ → ForkData
fork_of_hfs block_size payload sizes at = record {
  logical_size = u32 payload sizes;
  clump_size = 0;
  total_blocks = rounded_up block_size (u32 payload (sizes + 4));
  extents = in_eight (before_end (entries_hfs (take 12 (drop at payload)) 0 3));
}

-- The same for classic HFS, which has no links.
abbrev pub SaysHfs :
    TextEncoding → ℕ → CatalogKey → Bytes → CatalogRecordType → CatalogRecord → Type 0
SaysHfs enc block_size key payload folder r =
    IsNode (u32 payload 6) key.parent_cnid (decode_hfs_name enc key.name_bytes) r
    × HasDatesHfs payload 10 r.times
    × (r.valence ≡ u16 payload 4)
    × (r.link ≡ no_link)
SaysHfs enc block_size key payload file r =
    IsNode (u32 payload 20) key.parent_cnid (decode_hfs_name enc key.name_bytes) r
    × HasDatesHfs payload 44 r.times
    × (r.finder_type ≡ u32 payload 4)
    × (r.finder_creator ≡ u32 payload 8)
    × (r.data_fork ≡ fork_of_hfs block_size payload 26 74)
    × (r.rsrc_fork ≡ fork_of_hfs block_size payload 36 86)
    × (r.link ≡ no_link)
SaysHfs enc block_size key payload _ r =
    IsThread key.parent_cnid (u32 payload 10)
      (decode_hfs_name enc (take (u8 payload 14) (drop 15 payload))) r

-- The record is of the type that the payload begins with, and says what its type has.
abbrev pub SaysOf : FileSystemKind → TextEncoding → ℕ → CatalogKey → Bytes → CatalogRecord → Type 0
SaysOf hfs enc block_size key payload r =
    (u8 payload 0 ≡ tag_of r.kind) × SaysHfs enc block_size key payload r.kind r
SaysOf _ enc block_size key payload r = (u16 payload 0 ≡ tag_of r.kind) × Says key payload r.kind r

-- A record of a type, with what the type has.
abbrev pub OfType :
    (CatalogRecordType → CatalogRecord → Type 0) → CatalogRecordType → CatalogRecord → Type 0
OfType says t r = (r.kind ≡ t) × says t r

times_of-HasDates : (payload : Bytes) → HasDates payload (times_of payload)
times_of-HasDates payload = (
  hfs_catalog_time-IsDate (u32 payload 12),
  hfs_catalog_time-IsDate (u32 payload 16),
  hfs_catalog_time-IsDate (u32 payload 20),
  hfs_catalog_time-IsDate (u32 payload 24),
  hfs_catalog_time-IsDate (u32 payload 28),
  refl,
)

node_of-IsPlusNode :
    (t : CatalogRecordType) (is_dir : Bool) (key : CatalogKey) (payload : Bytes)
    → IsPlusNode key payload (node_of t is_dir key payload)
unfolding node_of
node_of-IsPlusNode t is_dir key payload =
    ((refl, refl, refl, refl, refl), times_of-HasDates payload, refl, refl, refl, refl, refl)

pub folder-Holds :
    (key : CatalogKey) (payload : Bytes)
    → Holds (OfType (Says key payload) folder) (decode_folder key payload)
unfolding decode_folder node_of classify_link
folder-Holds key payload = elim (Bool-cases (ltb (length payload) 88)) [
  | inl q ↦ rw (q) tt
  | inr q ↦
      let h : 88 ≤ length payload = ground (arith, q) in
      rw (q, field32-ok payload 4 (omega (arith, h)), node-ok folder true key payload h)
        (refl, (node_of-IsPlusNode folder true key payload, refl, refl, refl))
]

target-TargetOf :
    (l : LinkKind) (r : CatalogRecord) (special : ℕ)
    → r.link_target ≡ link_target_of l special
    → TargetOf l r special
target-TargetOf no_link r special e = e
target-TargetOf hard_file r special e = e
target-TargetOf hard_dir r special e = e
target-TargetOf symbolic r special e = e

pub file-Holds :
    (key : CatalogKey) (payload : Bytes)
    → Holds (OfType (Says key payload) file) (decode_file key payload)
unfolding decode_file node_of
file-Holds key payload = elim (Bool-cases (ltb (length payload) 88)) [
  | inl q ↦ rw (q) tt
  | inr q ↦
      let h : 88 ≤ length payload = ground (arith, q) in
      rw (q, node-ok file false key payload h, fork_if-ok payload 88, fork_if-ok payload 168)
        (
          refl,
          (
            node_of-IsPlusNode file false key payload,
            refl,
            refl,
            classify_link-IsLink (u32 payload 48) (u32 payload 52) (u16 payload 42) (u16 payload 2),
            target-TargetOf _ _ _ refl,
          ),
        )
]

units_from-ok :
    (payload : Bytes) (base n : ℕ)
    → base + n * 2 ≤ length payload
    → units_from payload base n ≡ ok (units_at payload base n)
unfolding units_from
units_from-ok payload base zero h = refl
units_from-ok payload base (suc n) h =
    rw
      (
        field16-ok payload base (omega (arith, h)),
        units_from-ok payload (base + 2) n (omega (arith, h)),
      )
      refl

pub decode_thread-Holds :
    (t : CatalogRecordType) (key : CatalogKey) (payload : Bytes)
    → Holds
        (λ r.
          (r.kind ≡ t)
          × IsThread key.parent_cnid
              (u32 payload 4)
              (decoded_name (units_at payload 10 (u16 payload 8)))
              r)
        (decode_thread t key payload)
unfolding decode_thread
decode_thread-Holds t key payload = elim (Bool-cases (ltb (length payload) 10)) [
  | inl q ↦ rw (q) tt
  | inr q ↦
      let h : 10 ≤ length payload = ground (arith, q) in
      rw (q, field32-ok payload 4 (omega (arith, h)), field16-ok payload 8 (omega (arith, h)))
        (elim (Bool-cases (ltb (length payload) (10 + u16 payload 8 * 2))) [
          | inl p ↦ rw (p) tt
          | inr p ↦
              rw (p, units_from-ok payload 10 (u16 payload 8) (ground (arith, p)))
                (refl, (refl, refl, refl, refl, refl))
        ])
]
