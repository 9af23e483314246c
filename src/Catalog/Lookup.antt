-- ===== src/Catalog/Lookup.antt =====
-- The lookups of catalog.go: by CNID, through the thread record or a full walk, and of a child by
-- its name.
pub mod Choice
use libhfs.Prelude.{
  ℕ, Bool, true, false, not, ◌&&◌, ◌||◌, Option, none, some, List, [], ◌∷◌, ◌==◌, if◌then◌else◌,
}
use libhfs.Errors.{
  Error, sentinel, parse_error, is, stop_walk, not_found, corrupt, Result, ok, err, panic,
}
use libhfs.Bytes.{Bytes}
use libhfs.Extents.{FileSystemKind, hfs, hfs_plus, hfsx}
use libhfs.Anomalies.{note_decode_failure}
use libhfs.Cache.{lookup}
use libhfs.Btree.Keys.{CatalogKey}
use libhfs.Btree.Search.{Scan}
use libhfs.Btree.Leaves.{LeafCallback}
use libhfs.Btree.Walks.{Walk}
use libhfs.Catalog.{CatalogRecordType, folder, file, folder_thread, file_thread, CatalogRecord}
use libhfs.Catalog.Session.{
  Catalog, Session, Action, ◌>>=◌, pure, raise, on_error, store, decode, catalog_note,
}

abbrev pub is_kind : CatalogRecordType → CatalogRecordType → Bool
is_kind folder folder = true
is_kind file file = true
is_kind folder_thread folder_thread = true
is_kind file_thread file_thread = true
is_kind _ _ = false

abbrev pub is_node : CatalogRecord → Bool
is_node r = is_kind r.kind folder || is_kind r.kind file

abbrev pub is_thread : CatalogRecord → Bool
is_thread r = is_kind r.kind folder_thread || is_kind r.kind file_thread

abbrev pub is_classic : FileSystemKind → Bool
is_classic hfs = true
is_classic _ = false

-- isPlaceholderRecord
unfoldable pub is_placeholder_record : FileSystemKind → CatalogRecord → Bool
is_placeholder_record kind r =
    not (is_classic kind)
    && is_kind r.kind file
    && r.data_fork.logical_size == 0
    && r.data_fork.total_blocks == 0

-- The variables `out` and `lastCandidate` of a lookup.
pub record Found : Type 0 where
  pub out : Option CatalogRecord
  pub last_candidate : Option CatalogRecord

abbrev pub nothing : Found
nothing = record { out = none; last_candidate = none }

-- `if !lastCandidateFound { lastCandidate = r }`
abbrev pub remember : Option CatalogRecord → CatalogRecord → Option CatalogRecord
remember none r = some r
remember (some c) r = some c

module _ (c : Catalog) where
  -- The callback of a lookup of the first wanted record that is no placeholder.
  unfoldable pub seek :
      (CatalogRecord → Bool) → (CatalogRecord → Bool) → LeafCallback (Session × Found) CatalogKey
  seek wanted placeholder (s, f) key payload = elim (decode c key payload) [
    | err e ↦
        ((record s { log = note_decode_failure "catalog_decode" key.parent_cnid s.log }, f), ok tt)
    | panic ↦ ((s, f), panic)
    | ok r ↦
        if not (wanted r)
        then ((s, f), ok tt)
        else if placeholder r
        then ((s, record f { last_candidate = remember f.last_candidate r }), ok tt)
        else ((s, record f { out = some r }), err (sentinel stop_walk))
  ]

  -- What a lookup returns after its walk.
  abbrev pub pick_found : Found → Result CatalogRecord
  pick_found f = elim f.out [
    | some r ↦ ok r
    | none ↦ elim f.last_candidate [ some r ↦ ok r | none ↦ err (sentinel not_found) ]
  ]

  abbrev pub conclude : Scan (Session × Found) → Session × Result CatalogRecord
  conclude ((s, f), ok _) = (s, pick_found f)
  conclude ((s, f), err e) = (s, if is e stop_walk then pick_found f else err e)
  conclude ((s, f), panic) = (s, panic)

  -- A lookup over the children of a folder, and over the whole catalog.
  unfoldable pub seek_child :
      ℕ → (CatalogRecord → Bool) → (CatalogRecord → Bool) → Action CatalogRecord
  seek_child parent wanted placeholder s = conclude (
      c.children parent (Session × Found) (catalog_note parent) (seek wanted placeholder)
        (s, nothing))

  unfoldable pub find_thread_record : ℕ → Action CatalogRecord
  find_thread_record target =
      seek_child target (λ r. is_thread r && r.thread_cnid == target) (λ r. false)

  unfoldable pub lookup_cnid_via_thread : ℕ → Action CatalogRecord
  lookup_cnid_via_thread cnid = do
    thread ← find_thread_record cnid
    seek_child thread.parent_cnid (λ r. r.cnid == cnid && is_node r) (is_placeholder_record c.kind)

  unfoldable pub lookup_cnid_linear : ℕ → Action CatalogRecord
  lookup_cnid_linear cnid s = conclude (
      c.records (Session × Found) (λ x. x)
        (seek (λ r. r.cnid == cnid) (is_placeholder_record c.kind)) (s, nothing))

  -- The walk that lookupCNIDRaw falls back to.
  abbrev pub lookup_or_scan : ℕ → Action CatalogRecord
  lookup_or_scan cnid = on_error (lookup_cnid_via_thread cnid) pure (λ e. lookup_cnid_linear cnid)

  -- lookupCNIDRaw, OpenCNIDRaw: a record that is found is cached.
  unfoldable pub lookup_cnid_raw : ℕ → Action CatalogRecord
  lookup_cnid_raw cnid s = elim (lookup s.cache cnid) [
    | some r ↦ (s, ok r)
    | none ↦ (lookup_or_scan cnid >>= λ r s'. (store cnid r s', ok r)) s
  ]

  -- The search of findChild; `same_name` is its `cmp`.
  unfoldable pub search_child : ℕ → Bytes → (Bytes → Bytes → Bool) → Action CatalogRecord
  search_child parent name same_name =
      seek_child parent (λ r. r.parent_cnid == parent && same_name r.name name)
        (is_placeholder_record c.kind)
