-- ===== src/Catalog.antt =====
-- The catalog records of types.go and links.go, and their decoding in catalog.go. A date is the
-- seconds of the Unix epoch as an int64 bit pattern, and `none` where it is unset.

pub mod Decode
pub mod Session
pub mod Lookup
pub mod Links
pub mod Hydrate
pub mod Dirs
pub mod Fields
pub mod Decoded
use libhfs.Prelude.{
  ℕ, ◌+◌, ◌-◌, ◌*◌, ◌/◌, ◌%◌, ◌^◌, Bool, true, false, ◌&&◌, not, Option, none, some, List, [], ◌∷◌,
  ◌++◌, ltb, leb, ◌==◌, if◌then◌else◌, length, replicate,
}
use libhfs.Errors.{corrupt, Result, ok, panic, ◌>>=◌, ◌>>◌, fail, reject_if}
use libhfs.Bytes.{Bytes, slice, index, field16, field32}
use libhfs.Extents.{
  ExtentDescriptor, ForkData, FileSystemKind, hfs, hfs_plus, hfsx, parse_extents_record_hfs,
}
use libhfs.Volume.{hfs_catalog_time, fork_at}
use libhfs.Volume.Master.{no_extent}
use libhfs.Btree.Keys.{CatalogKey, units_from}
use libhfs.Text.{TextEncoding, name_string, decoded_name, decode_hfs_name}

pub data CatalogRecordType : Type 0 where
  folder file folder_thread file_thread : CatalogRecordType

pub data TimeSource : Type 0 where
  unknown hfs_plus_gmt hfs_local : TimeSource

pub record CatalogTimes : Type 0 where
  pub created : Option ℕ
  pub content_modified : Option ℕ
  pub attr_modified : Option ℕ
  pub accessed : Option ℕ
  pub backup : Option ℕ
  pub source : TimeSource

pub data LinkKind : Type 0 where
  no_link hard_file hard_dir symbolic : LinkKind

pub record BsdInfo : Type 0 where
  pub owner_id : ℕ
  pub group_id : ℕ
  pub admin_flags : ℕ
  pub owner_flags : ℕ
  pub file_mode : ℕ
  pub special : ℕ

-- A name is a Go string, as its bytes.
pub record CatalogRecord : Type 0 where
  pub kind : CatalogRecordType
  pub parent_cnid : ℕ
  pub cnid : ℕ
  pub thread_cnid : ℕ
  pub name : Bytes
  pub valence : ℕ
  pub link_id : ℕ
  pub finder_type : ℕ
  pub finder_creator : ℕ
  pub compressed : Bool
  pub compression_type : ℕ
  pub data_fork : ForkData
  pub rsrc_fork : ForkData
  pub times : CatalogTimes
  pub link : LinkKind
  pub link_target : ℕ
  pub link_count : ℕ
  pub perms : BsdInfo
  pub finder_info : Bytes

-- The zero values.
abbrev pub no_fork : ForkData
no_fork = record {
  logical_size = 0;
  clump_size = 0;
  total_blocks = 0;
  extents = replicate 8 no_extent;
}

abbrev pub no_times : CatalogTimes
no_times = record {
  created = none;
  content_modified = none;
  attr_modified = none;
  accessed = none;
  backup = none;
  source = unknown;
}

abbrev pub no_perms : BsdInfo
no_perms = record {
  owner_id = 0;
  group_id = 0;
  admin_flags = 0;
  owner_flags = 0;
  file_mode = 0;
  special = 0;
}

-- `CatalogRecord{Type: t, ParentCNID: parent, Name: name}`
abbrev pub new_record : CatalogRecordType → ℕ → Bytes → CatalogRecord
new_record t parent name = record {
  kind = t;
  parent_cnid = parent;
  cnid = 0;
  thread_cnid = 0;
  name = name;
  valence = 0;
  link_id = 0;
  finder_type = 0;
  finder_creator = 0;
  compressed = false;
  compression_type = 0;
  data_fork = no_fork;
  rsrc_fork = no_fork;
  times = no_times;
  link = no_link;
  link_target = 0;
  link_count = 0;
  perms = no_perms;
  finder_info = replicate 32 0;
}

-- `mode & sIFMT == sIFLNK`
abbrev pub is_symlink_mode : ℕ → Bool
is_symlink_mode mode = mode / 4096 % 16 == 10

-- `flags & hfsHasLinkChainMask != 0`
abbrev pub has_link_chain : ℕ → Bool
has_link_chain flags = flags / 32 % 2 == 1

-- classifyLink: "hlnk" of "hfs+", "fdrp" of "MACS" in a link chain, "slnk" of "rhap".
unfoldable pub classify_link : ℕ → ℕ → ℕ → ℕ → Bool → LinkKind
classify_link finder_type finder_creator mode flags true = no_link
classify_link finder_type finder_creator mode flags false =
    if finder_type == 1751936619 && finder_creator == 1751544619
    then hard_file
    else if finder_type == 1717859952 && finder_creator == 1296122707 && has_link_chain flags
    then hard_dir
    else if finder_type == 1936486251 && finder_creator == 1919443312
    then symbolic
    else if is_symlink_mode mode
    then symbolic
    else no_link

unfoldable pub parse_bsd_info : Bytes → Result BsdInfo
parse_bsd_info payload = do
  owner ← field32 payload 32
  group ← field32 payload 36
  admin ← index payload 40
  flags ← index payload 41
  mode ← field16 payload 42
  special ← field32 payload 44
  ok (record {
    owner_id = owner;
    group_id = group;
    admin_flags = admin;
    owner_flags = flags;
    file_mode = mode;
    special = special;
  })

unfoldable pub decode_catalog_times_hfs_plus : Bytes → Result CatalogTimes
decode_catalog_times_hfs_plus payload = do
  created ← field32 payload 12
  modified ← field32 payload 16
  attr ← field32 payload 20
  accessed ← field32 payload 24
  backup ← field32 payload 28
  ok (record {
    created = hfs_catalog_time created;
    content_modified = hfs_catalog_time modified;
    attr_modified = hfs_catalog_time attr;
    accessed = hfs_catalog_time accessed;
    backup = hfs_catalog_time backup;
    source = hfs_plus_gmt;
  })

-- The three dates of classic HFS, at `at` and behind it.
unfoldable pub hfs_times_at : Bytes → ℕ → Result CatalogTimes
hfs_times_at payload at = do
  created ← field32 payload at
  modified ← field32 payload (at + 4)
  backup ← field32 payload (at + 8)
  ok (record {
    created = hfs_catalog_time created;
    content_modified = hfs_catalog_time modified;
    attr_modified = none;
    accessed = none;
    backup = hfs_catalog_time backup;
    source = hfs_local;
  })

unfoldable pub decode_catalog_times_hfs_file : Bytes → Result CatalogTimes
decode_catalog_times_hfs_file payload = hfs_times_at payload 44

unfoldable pub decode_catalog_times_hfs_dir : Bytes → Result CatalogTimes
decode_catalog_times_hfs_dir payload = hfs_times_at payload 10
