-- ===== src/Tests/Links.antt =====
-- A hard link and its inode in a private directory.
use libhfs.Prelude.{ℕ, ◌≢◌, none, some, [], ◌∷◌, ◌==◌, if◌then◌else◌, List, replicate}
use libhfs.Errors.{err, sentinel, not_found, ok, panic}
use libhfs.Bytes.{Bytes}
use libhfs.Extents.{hfs_plus}
use libhfs.Text.{mac_roman}
use libhfs.Btree.Keys.{CatalogKey}
use libhfs.Btree.Walks.Delivery.{Event, item, Delivers}
use libhfs.Catalog.{CatalogRecord, file, hard_file, new_record}
use libhfs.Catalog.Session.{Catalog}
use libhfs.Catalog.Links.{hard_link_target_cnid, find_inode_by_name, resolve_hard_link_record}
use libhfs.Catalog.Links.Stores.{inode_of, IsFaithful, Answers}
use libhfs.Catalog.Links.Inodes.{
  IsTarget, Resolves, find_inode_by_name-Answers, resolve_hard_link_record-Resolves,
}
use libhfs.Tests.Catalog.{playing, playing-Delivers, fresh}

-- The folder 20 "HFS+ Private" of the root, and the file 30 "iNode5" in it.
abbrev store_key : CatalogKey
store_key = record {
  key_length = 30;
  parent_cnid = 2;
  name_utf16 = 72 ∷ 70 ∷ 83 ∷ 43 ∷ 32 ∷ 80 ∷ 114 ∷ 105 ∷ 118 ∷ 97 ∷ 116 ∷ 101 ∷ [];
  name_bytes = [];
}

abbrev store_bytes : Bytes
store_bytes = 0 ∷ 1 ∷ 0 ∷ 0 ∷ 0 ∷ 0 ∷ 0 ∷ 0 ∷ 0 ∷ 0 ∷ 0 ∷ 20 ∷ replicate 76 0

abbrev inode_key : CatalogKey
inode_key = record {
  key_length = 18;
  parent_cnid = 20;
  name_utf16 = 105 ∷ 78 ∷ 111 ∷ 100 ∷ 101 ∷ 53 ∷ [];
  name_bytes = [];
}

abbrev inode_bytes : Bytes
inode_bytes = 0 ∷ 2 ∷ 0 ∷ 0 ∷ 0 ∷ 0 ∷ 0 ∷ 0 ∷ 0 ∷ 0 ∷ 0 ∷ 30 ∷ replicate 76 0

abbrev inside : ℕ → List (Event CatalogKey)
inside n = if n == 2 then item store_key store_bytes ∷ [] else item inode_key inode_bytes ∷ []

abbrev linked : Catalog
linked = record {
  kind = hfs_plus;
  encoding = mac_roman;
  block_size = 4096;
  header = err (sentinel not_found);
  children = λ n. playing (inside n, ok tt);
  records = playing ([], ok tt);
  leaf_chain = playing ([], ok tt);
  attributes_blocks = 0;
  attributes_of = λ cnid. playing ([], ok tt);
}

abbrev folders : (n : ℕ) → Delivers (linked.children n)
folders n = playing-Delivers (inside n, ok tt)

calm : (n : ℕ) → (folders n).trace.1 ≢ panic
calm n h = cc

fresh-IsFaithful : IsFaithful linked folders fresh
fresh-IsFaithful which a h = absurd (none-ne-some h)
  where
    none-ne-some : none ≢ some a
    none-ne-some q = cc

-- The file "l" of the root is a link to the inode 5.
abbrev link : CatalogRecord
link = record (new_record file 2 (108 ∷ [])) { cnid = 25; link = hard_file; link_target = 5 }

find_inode_by_name-Answers_example :
    Answers linked folders
      (inode_of linked folders 5 hard_file)
      (find_inode_by_name linked 5 hard_file fresh)
find_inode_by_name-Answers_example =
    find_inode_by_name-Answers linked folders calm 5 hard_file fresh fresh-IsFaithful

resolve_hard_link_record-Resolves_example :
    IsTarget linked folders calm hard_file file 5 (hard_link_target_cnid link)
    × Resolves linked folders calm link
        (hard_link_target_cnid link)
        fresh
        (resolve_hard_link_record linked link fresh)
resolve_hard_link_record-Resolves_example =
    resolve_hard_link_record-Resolves linked folders calm link fresh fresh-IsFaithful
