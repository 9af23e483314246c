-- ===== src/Catalog/Dirs.antt =====
-- The traversal of catalog.go: WalkCatalog, OpenPath, and the entries of a directory. The order of
-- sort.Slice, strings.TrimSpace, strings.EqualFold and strings.ToLower are parameters.
use libhfs.Prelude.{ℕ, Bool, false, not, ◌&&◌, ◌||◌, List, [], ◌∷◌, ◌++◌, ◌==◌, if◌then◌else◌}
use libhfs.Errors.{sentinel, is, stop_walk, not_dir, Result, ok, err, panic}
use libhfs.Bytes.{Bytes}
use libhfs.Extents.{hfs, hfs_plus, hfsx}
use libhfs.Anomalies.{note_decode_failure}
use libhfs.Btree.Keys.{CatalogKey}
use libhfs.Btree.Search.{Scan}
use libhfs.Btree.Leaves.{LeafCallback}
use libhfs.Catalog.{CatalogRecordType, folder, CatalogRecord, CatalogTimes}
use libhfs.Catalog.Session.{Catalog, Session, Action, ◌>>=◌, pure, decode, catalog_note}
use libhfs.Catalog.Lookup.{is_kind, is_node}
use libhfs.Catalog.Links.{same_text, has_prefix, contains, private_data_dir_name_sub}
use libhfs.Catalog.Hydrate.{hydrate_catalog_record, open_cnid, get_root_directory, find_child}

pub record DirEntry : Type 0 where
  pub name : Bytes
  pub cnid : ℕ
  pub kind : CatalogRecordType
  pub is_directory : Bool
  pub is_system : Bool

abbrev pub is_folder : CatalogRecord → Bool
is_folder r = is_kind r.kind folder

-- ".HFS", ".journal" and ".journal_info_block"
abbrev pub dot_hfs : Bytes
dot_hfs = 46 ∷ 72 ∷ 70 ∷ 83 ∷ []

abbrev pub dot_journal : Bytes
dot_journal = 46 ∷ 106 ∷ 111 ∷ 117 ∷ 114 ∷ 110 ∷ 97 ∷ 108 ∷ []

abbrev pub dot_journal_info_block : Bytes
dot_journal_info_block =
    dot_journal ++ (95 ∷ 105 ∷ 110 ∷ 102 ∷ 111 ∷ 95 ∷ 98 ∷ 108 ∷ 111 ∷ 99 ∷ 107 ∷ [])

unfoldable pub is_system_file : Bytes → Bool
is_system_file [] = false
is_system_file (b ∷ name) =
    b == 0
    || b == 36
    || contains (b ∷ name) private_data_dir_name_sub
    || has_prefix (b ∷ name) dot_hfs
    || same_text (b ∷ name) dot_journal
    || same_text (b ∷ name) dot_journal_info_block

-- strings.Split(p, "/"): the first part, and those behind a slash.
unfoldable pub split_slash : Bytes → Bytes × List Bytes
split_slash [] = ([], [])
split_slash (b ∷ p) =
    let (part, parts) = split_slash p in if b == 47 then ([], part ∷ parts) else (b ∷ part, parts)

abbrev pub is_skipped : Bytes → Bool
is_skipped part = same_text part [] || same_text part (46 ∷ [])

unfoldable pub kept_parts : List Bytes → List Bytes
kept_parts [] = []
kept_parts (part ∷ parts) = if is_skipped part then kept_parts parts else part ∷ kept_parts parts

unfoldable pub split_path : (Bytes → Bytes) → Bytes → List Bytes
split_path trim_space p =
    let (part, parts) = split_slash (trim_space p) in kept_parts (part ∷ parts)

-- endWalk on what a walk leaves.
abbrev pub end_scan : {S : Type 0} → Scan S → Scan S
end_scan (s, ok _) = (s, ok tt)
end_scan (s, err e) = if is e stop_walk then (s, ok tt) else (s, err e)
end_scan (s, panic) = (s, panic)

-- A caller's callback on what it is walked over, with a state `U` of its own.
abbrev pub Callback : Type 0 → Type 0 → Type 0
Callback U A = U → A → U × Result (Unit {0})

abbrev pub with_session : {U : Type 0} → Session → U × Result (Unit {0}) → Scan (Session × U)
with_session s (u, r) = ((s, u), r)

module _ (c : Catalog) where
  -- The callback of WalkCatalog.
  unfoldable pub pass_record :
      {U : Type 0} → Callback U CatalogRecord → LeafCallback (Session × U) CatalogKey
  pass_record cb (s, u) key payload = elim (decode c key payload) [
    | err e ↦
        ((record s { log = note_decode_failure "catalog_decode" key.parent_cnid s.log }, u), ok tt)
    | panic ↦ ((s, u), panic)
    | ok r ↦ with_session s (cb u r)
  ]

  unfoldable pub walk_catalog :
      {U : Type 0} → Callback U CatalogRecord → Session × U → Scan (Session × U)
  walk_catalog {U} cb s = end_scan (c.leaf_chain (Session × U) (λ x. x) (pass_record cb) s)

  -- CatalogRecords: the records collected, unless the walk fails.
  abbrev pub collected : {A : Type 0} → Scan (Session × List A) → Session × Result (List A)
  collected ((s, out), ok _) = (s, ok out)
  collected ((s, out), err e) = (s, err e)
  collected ((s, out), panic) = (s, panic)

  unfoldable pub catalog_records_list : Action (List CatalogRecord)
  catalog_records_list s = collected (walk_catalog (λ out r. (out ++ (r ∷ []), ok tt)) (s, []))

  abbrev pub entry_of : CatalogRecord → CatalogRecord → DirEntry
  entry_of r resolved = record {
    name = r.name;
    cnid = resolved.cnid;
    kind = resolved.kind;
    is_directory = is_folder resolved;
    is_system = is_system_file r.name;
  }

  abbrev pub then_entry :
      {U : Type 0}
      → Callback U DirEntry
      → U
      → CatalogRecord
      → Session × Result CatalogRecord
      → Scan (Session × U)
  then_entry cb u r (s, ok resolved) = with_session s (cb u (entry_of r resolved))
  then_entry cb u r (s, err e) = ((s, u), err e)
  then_entry cb u r (s, panic) = ((s, u), panic)

  -- The callback of WalkDirCNID in the directory `parent`.
  unfoldable pub pass_entry :
      {U : Type 0} → ℕ → Callback U DirEntry → LeafCallback (Session × U) CatalogKey
  pass_entry parent cb (s, u) key payload = elim (decode c key payload) [
    | err e ↦
        ((record s { log = note_decode_failure "catalog_decode" key.parent_cnid s.log }, u), ok tt)
    | panic ↦ ((s, u), panic)
    | ok r ↦
        if not (r.parent_cnid == parent) || not (is_node r) || same_text r.name []
        then ((s, u), ok tt)
        else then_entry cb u r (hydrate_catalog_record c r s)
  ]

  abbrev pub walk_entries :
      {U : Type 0} → Callback U DirEntry → U → Session × Result CatalogRecord → Scan (Session × U)
  walk_entries {U} cb u (s, ok r) =
      if is_folder r
      then end_scan
          (c.children r.cnid (Session × U) (catalog_note r.cnid) (pass_entry r.cnid cb) (s, u))
      else ((s, u), err (sentinel not_dir))
  walk_entries cb u (s, err e) = ((s, u), err e)
  walk_entries cb u (s, panic) = ((s, u), panic)

  unfoldable pub walk_dir_cnid :
      {U : Type 0} → ℕ → Callback U DirEntry → Session × U → Scan (Session × U)
  walk_dir_cnid cnid cb (s, u) = walk_entries cb u (open_cnid c cnid s)

  abbrev pub same_entry : DirEntry → DirEntry → Bool
  same_entry a b =
      same_text a.name b.name
      && a.cnid == b.cnid
      && is_kind a.kind b.kind
      && not (not (a.is_directory && b.is_directory) && (a.is_directory || b.is_directory))
      && not (not (a.is_system && b.is_system) && (a.is_system || b.is_system))

  abbrev pub is_among : DirEntry → List DirEntry → Bool
  is_among a [] = false
  is_among a (b ∷ bs) = same_entry a b || is_among a bs

  -- The loop that drops what `seen` holds.
  unfoldable pub dedup : List DirEntry → List DirEntry → List DirEntry
  dedup seen [] = []
  dedup seen (a ∷ as') =
      let new = a ∷ dedup (a ∷ seen) as' in
      let old = dedup seen as' in if is_among a seen then old else new

  module _ (sort_entries : List DirEntry → List DirEntry) where
    abbrev pub sorted_entries : Session × Result (List DirEntry) → Session × Result (List DirEntry)
    sorted_entries (s, ok out) = (s, ok (sort_entries (dedup [] out)))
    sorted_entries (s, err e) = (s, err e)
    sorted_entries (s, panic) = (s, panic)

    unfoldable pub read_dir_cnid : ℕ → Action (List DirEntry)
    read_dir_cnid cnid s =
        sorted_entries (collected (walk_dir_cnid cnid (λ out e. (out ++ (e ∷ []), ok tt)) (s, [])))

  module _ (trim_space : Bytes → Bytes) (equal_fold unicode_equal : Bytes → Bytes → Bool) where
    -- catalogNameComparer
    unfoldable pub catalog_name_comparer : Result (Bytes → Bytes → Bool)
    catalog_name_comparer = elim c.kind [
      | hfs ↦ ok equal_fold
      | hfs_plus ↦ elim c.header [ err e ↦ err e | panic ↦ panic | ok h ↦ ok unicode_equal ]
      | hfsx ↦ elim c.header [
        | err e ↦ err e
        | panic ↦ panic
        | ok h ↦ ok (if h.comp_type == 188 then same_text else unicode_equal)
      ]
    ]

    -- The loop of OpenPath over the parts of the path.
    unfoldable pub open_parts :
        (Bytes → Bytes → Bool) → CatalogRecord → List Bytes → Action CatalogRecord
    open_parts same_name cur [] = pure cur
    open_parts same_name cur (p ∷ parts) = do
      next ← find_child c cur.cnid p same_name
      open_parts same_name next parts

    unfoldable pub open_path : Bytes → Action CatalogRecord
    open_path path s = elim catalog_name_comparer [
      | err e ↦ (s, err e)
      | panic ↦ (s, panic)
      | ok same_name ↦
          if same_text path [] || same_text path (47 ∷ [])
          then get_root_directory c s
          else (get_root_directory c >>= λ root.
                open_parts same_name root (split_path trim_space path))
              s
    ]

    unfoldable pub get_times_by_path : Bytes → Action CatalogTimes
    get_times_by_path path = do r ← open_path path; pure r.times

    unfoldable pub read_dir : (List DirEntry → List DirEntry) → Bytes → Action (List DirEntry)
    read_dir sort_entries path = do r ← open_path path; read_dir_cnid sort_entries r.cnid

    abbrev pub walk_opened :
        {U : Type 0} → Callback U DirEntry → U → Session × Result CatalogRecord → Scan (Session × U)
    walk_opened cb u (s, ok r) = walk_dir_cnid r.cnid cb (s, u)
    walk_opened cb u (s, err e) = ((s, u), err e)
    walk_opened cb u (s, panic) = ((s, u), panic)

    unfoldable pub walk_dir :
        {U : Type 0} → Bytes → Callback U DirEntry → Session × U → Scan (Session × U)
    walk_dir path cb (s, u) = walk_opened cb u (open_path path s)
