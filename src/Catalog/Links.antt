-- ===== src/Catalog/Links.antt =====
-- The hard links of catalog.go: the private directories, the inodes in them, and the record that a
-- link resolves to.
pub mod Stores
pub mod Inodes
use libhfs.Prelude.{
  ℕ, zero, suc, ◌+◌, ◌/◌, ◌%◌, Bool, true, false, not, ◌&&◌, ◌||◌, Option, none, some, [], ◌∷◌,
  ◌++◌, ltb, ◌==◌, if◌then◌else◌,
}
use libhfs.Errors.{sentinel, is, stop_walk, Result, ok, err, panic}
use libhfs.Bytes.{Bytes}
use libhfs.Btree.Keys.{CatalogKey}
use libhfs.Btree.Search.{Scan}
use libhfs.Btree.Leaves.{LeafCallback}
use libhfs.Text.{name_string}
use libhfs.Catalog.{CatalogRecordType, folder, file, CatalogRecord, LinkKind, hard_file, hard_dir}
use libhfs.Catalog.Session.{
  Catalog, HardLinkStore, file_links, dir_links, Session, Action, ◌>>=◌, pure, decode, catalog_note,
}
use libhfs.Catalog.Lookup.{is_kind, lookup_cnid_raw}

-- `a == b`, `strings.HasPrefix(name, prefix)` and `strings.Contains(name, part)` on Go strings.
abbrev pub same_text : Bytes → Bytes → Bool
same_text [] [] = true
same_text [] (b ∷ bs) = false
same_text (a ∷ as') [] = false
same_text (a ∷ as') (b ∷ bs) = a == b && same_text as' bs

unfoldable pub has_prefix : Bytes → Bytes → Bool
has_prefix name [] = true
has_prefix [] (p ∷ ps) = false
has_prefix (n ∷ ns) (p ∷ ps) = n == p && has_prefix ns ps

unfoldable pub contains : Bytes → Bytes → Bool
contains [] part = has_prefix [] part
contains (n ∷ ns) part = has_prefix (n ∷ ns) part || contains ns part

-- The decimal digits of a uint32, as strconv.FormatUint writes them: ten at most.
unfoldable pub decimal_from : ℕ → ℕ → Bytes
decimal_from zero n = []
decimal_from (suc digits) n =
    let more = decimal_from digits (n / 10) ++ ((48 + n % 10) ∷ []) in
    if ltb n 10 then (48 + n) ∷ [] else more

abbrev pub decimal : ℕ → Bytes
decimal n = decimal_from 10 n

-- "HFS+ Private"
abbrev pub private_data_dir_name_sub : Bytes
private_data_dir_name_sub = 72 ∷ 70 ∷ 83 ∷ 43 ∷ 32 ∷ 80 ∷ 114 ∷ 105 ∷ 118 ∷ 97 ∷ 116 ∷ 101 ∷ []

-- "HFS+ Private Directory Data"
abbrev pub dir_link_dir_name_sub : Bytes
dir_link_dir_name_sub =
    72 ∷ 70 ∷ 83 ∷ 43 ∷ 32 ∷ 80 ∷ 114 ∷ 105 ∷ 118 ∷ 97 ∷ 116 ∷ 101 ∷ 32 ∷ 68 ∷ 105 ∷ 114 ∷ 101 ∷ 99
    ∷ 116 ∷ 111 ∷ 114 ∷ 121 ∷ 32 ∷ 68 ∷ 97 ∷ 116 ∷ 97 ∷ []

-- "iNode" and "dir_"
abbrev pub inode_name_prefix : Bytes
inode_name_prefix = 105 ∷ 78 ∷ 111 ∷ 100 ∷ 101 ∷ []

abbrev pub dir_inode_name_prefix : Bytes
dir_inode_name_prefix = 100 ∷ 105 ∷ 114 ∷ 95 ∷ []

-- hardLinkTargetCNID
unfoldable pub hard_link_target_cnid : CatalogRecord → ℕ
hard_link_target_cnid r = elim r.link [
  | hard_file ↦ if is_kind r.kind file then r.link_target else 0
  | hard_dir ↦ if is_kind r.kind file then r.link_target else 0
  | _ ↦ 0
]

-- The name test of findPrivateDir.
abbrev pub is_store_name : HardLinkStore → Bytes → Bool
is_store_name dir_links name = contains name dir_link_dir_name_sub
is_store_name file_links name =
    not (contains name dir_link_dir_name_sub) && contains name private_data_dir_name_sub

module _ (c : Catalog) where
  -- The callback that takes the first record of a kind whose name passes a test.
  unfoldable pub take_named :
      (Bytes → Bool) → CatalogRecordType → LeafCallback (Session × Option CatalogRecord) CatalogKey
  take_named named want (s, found) key payload =
      if not (named (name_string key.name_utf16))
      then ((s, found), ok tt)
      else elim (decode c key payload) [
        | err e ↦ ((s, found), ok tt)
        | panic ↦ ((s, found), panic)
        | ok r ↦
            if is_kind r.kind want
            then ((s, some r), err (sentinel stop_walk))
            else ((s, found), ok tt)
      ]

  abbrev pub conclude_named :
      Scan (Session × Option CatalogRecord) → Session × Result (Option CatalogRecord)
  conclude_named ((s, found), ok _) = (s, ok found)
  conclude_named ((s, found), err e) = (s, ok (if is e stop_walk then found else none))
  conclude_named ((s, found), panic) = (s, panic)

  unfoldable pub find_named : ℕ → (Bytes → Bool) → CatalogRecordType → Action (Option CatalogRecord)
  find_named parent named want s = conclude_named (
      c.children parent (Session × Option CatalogRecord) (catalog_note parent)
        (take_named named want) (s, none))

  -- findPrivateDir, in the root folder.
  unfoldable pub find_private_dir : HardLinkStore → Action (Option ℕ)
  find_private_dir which = do
    found ← find_named 2 (is_store_name which) folder
    pure (elim found [ none ↦ none | some r ↦ some r.cnid ])

  abbrev pub same_store : HardLinkStore → HardLinkStore → Bool
  same_store file_links file_links = true
  same_store dir_links dir_links = true
  same_store _ _ = false

  -- privateDirCNID: what was found, or was not, is kept.
  unfoldable pub private_dir_cnid : HardLinkStore → Action (Option ℕ)
  private_dir_cnid which s = elim (s.priv_dir which) [
    | some answer ↦ (s, ok answer)
    | none ↦
        (find_private_dir which >>= λ answer s'. (
          record s' { priv_dir = λ x. if same_store x which then some answer else s'.priv_dir x },
          ok answer,
        ))
          s
  ]

  abbrev pub is_dir_link : LinkKind → Bool
  is_dir_link hard_dir = true
  is_dir_link _ = false

  -- findInodeByName
  unfoldable pub find_inode_by_name : ℕ → LinkKind → Action (Option CatalogRecord)
  find_inode_by_name inode_num kind = do
    parent ← private_dir_cnid (if is_dir_link kind then dir_links else file_links)
    elim parent [
      | none ↦ pure none
      | some p ↦
          if is_dir_link kind
          then find_named p (λ name. same_text name (dir_inode_name_prefix ++ decimal inode_num))
              folder
          else find_named p (λ name. same_text name (inode_name_prefix ++ decimal inode_num)) file
    ]

  unfoldable pub lookup_hard_link_inode : ℕ → LinkKind → Action CatalogRecord
  lookup_hard_link_inode inode_num kind = do
    found ← find_inode_by_name inode_num kind
    elim found [ some r ↦ pure r | none ↦ lookup_cnid_raw c inode_num ]

  -- The target's content under the link's name and place.
  abbrev pub under_link : CatalogRecord → CatalogRecord → CatalogRecord
  under_link r target = record target {
    name = r.name;
    parent_cnid = r.parent_cnid;
    link = r.link;
    link_target = target.cnid;
    link_count = target.perms.special;
  }

  unfoldable pub resolve_hard_link_record : CatalogRecord → Action CatalogRecord
  resolve_hard_link_record r =
      if hard_link_target_cnid r == 0 || hard_link_target_cnid r == r.cnid
      then pure r
      else (lookup_hard_link_inode (hard_link_target_cnid r) r.link >>= λ target.
          pure (under_link r target))
