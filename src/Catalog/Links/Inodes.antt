-- ===== src/Catalog/Links/Inodes.antt =====
-- findInodeByName and resolveHardLinkRecord of catalog.go, over the private directories.
use libhfs.Prelude.{
  ◌⊎◌, ==_iff, ℕ, ◌≡◌, ◌≢◌, refl, inl, inr, Bool-cases, Option, none, some, ◌++◌, arith, ◌==◌,
  if◌then◌else◌,
}
use libhfs.Errors.{Result, ok, err, panic}
use libhfs.Btree.Walks.Delivery.{Delivers}
use libhfs.Catalog.{
  CatalogRecord, CatalogRecordType, folder, file, folder_thread, file_thread, LinkKind, no_link,
  hard_file, hard_dir, symbolic,
}
use libhfs.Catalog.Session.{Catalog, Session, file_links, dir_links, proceed, pure}
use libhfs.Catalog.Lookup.{lookup_cnid_raw}
use libhfs.Catalog.Links.{
  same_text, decimal, inode_name_prefix, dir_inode_name_prefix, hard_link_target_cnid, find_named,
  private_dir_cnid, is_dir_link, find_inode_by_name, lookup_hard_link_inode, under_link,
  resolve_hard_link_record,
}
use libhfs.Catalog.Links.Stores.{
  store_of, in_store, inode_of, IsFaithful, Answers, bind-Answers, private_dir_cnid-store_of,
  inode_in,
}

module _ (c : Catalog) (d : (n : ℕ) → Delivers (c.children n))
    (calm : (n : ℕ) → (d n).trace.1 ≢ panic) where
  search_of : ℕ → LinkKind → Option ℕ → Session → Session × Result (Option CatalogRecord)
  search_of num kind parent = elim parent [
    | none ↦ pure none
    | some p ↦
        if is_dir_link c kind
        then find_named c p (λ name. same_text name (dir_inode_name_prefix ++ decimal num)) folder
        else find_named c p (λ name. same_text name (inode_name_prefix ++ decimal num)) file
  ]

  search-Answers :
      (num : ℕ) (kind : LinkKind) (parent : Option ℕ) (s : Session)
      → IsFaithful c d s
      → Answers c d (in_store c d num kind parent) (search_of num kind parent s)
  unfolding search_of
  search-Answers num kind none s f = (refl, f)
  search-Answers num kind (some p) s f =
      let h = inode_in c d calm num kind p s f in
      elim (Bool-cases (is_dir_link c kind)) [
        | inl q ↦ rw (q) (rw (q) at h)
        | inr q ↦ rw (q) (rw (q) at h)
      ]

  -- On a catalog whose walks of folders go through fixed sequences of records and do not panic, and
  -- in a session in which a private directory that is remembered (as found or as missing) is the one
  -- that the root folder holds: findInodeByName gives, for a number and a kind of link, the first
  -- record in the private directory of its kind that decodes, has the type of the kind (a folder for
  -- a directory link, else a file) and is named "dir_" or "iNode" with the number; nothing without
  -- such a record or directory, a failed walk included; and the session remains such a one.
  pub find_inode_by_name-Answers :
      (num : ℕ) (kind : LinkKind) (s : Session)
      → IsFaithful c d s
      → Answers c d (inode_of c d num kind) (find_inode_by_name c num kind s)
  unfolding find_inode_by_name search_of
  find_inode_by_name-Answers num kind s f =
      let which = if is_dir_link c kind then dir_links else file_links in
      bind-Answers c d calm (store_of c d which) (inode_of c d num kind) (search_of num kind)
        (private_dir_cnid c which s) (private_dir_cnid-store_of c d calm which s f)
        (λ s' f'. search-Answers num kind (store_of c d which) s' f')

  -- The record that a link `r` to the inode `t` gives: the inode's own data and metadata under the
  -- link's name and parent.
  abbrev pub IsUnder : CatalogRecord → CatalogRecord → CatalogRecord → Type 0
  IsUnder r t out =
      (out.name ≡ r.name)
      × (out.parent_cnid ≡ r.parent_cnid)
      × (out.link ≡ r.link)
      × (out.link_target ≡ t.cnid)
      × (out.link_count ≡ t.perms.special)
      × (out.kind ≡ t.kind)
      × (out.cnid ≡ t.cnid)
      × (out.data_fork ≡ t.data_fork)
      × (out.rsrc_fork ≡ t.rsrc_fork)
      × (out.times ≡ t.times)
      × (out.perms ≡ t.perms)
      × (out.thread_cnid ≡ t.thread_cnid)
      × (out.valence ≡ t.valence)
      × (out.link_id ≡ t.link_id)
      × (out.finder_type ≡ t.finder_type)
      × (out.finder_creator ≡ t.finder_creator)
      × (out.finder_info ≡ t.finder_info)
      × (out.compressed ≡ t.compressed)
      × (out.compression_type ≡ t.compression_type)

  abbrev pub Shows : CatalogRecord → CatalogRecord → Result CatalogRecord → Type 0
  Shows r t res = (out : CatalogRecord) × (res ≡ ok out) × IsUnder r t out

  -- What follows a lookup of the target by its CNID.
  abbrev pub ByCnid :
      CatalogRecord → Session × Result CatalogRecord → Session × Result CatalogRecord → Type 0
  ByCnid r (s, ok t) x = (x.0 ≡ s) × Shows r t x.1
  ByCnid r (s, err e) x = x ≡ (s, err e)
  ByCnid r (s, panic) x = x ≡ (s, panic)

  -- The target of a record: only a file that is a hard link has one.
  abbrev pub IsTarget : LinkKind → CatalogRecordType → ℕ → ℕ → Type 0
  IsTarget hard_file file target num = num ≡ target
  IsTarget hard_dir file target num = num ≡ target
  IsTarget _ _ target num = num ≡ 0

  -- The three ways in which a record resolves: it names no other, its inode is found by its name, or
  -- the number is looked up as a CNID.
  abbrev pub Resolves : CatalogRecord → ℕ → Session → Session × Result CatalogRecord → Type 0
  Resolves r num s x =
      (((num ≡ 0) ⊎ (num ≡ r.cnid)) × (x ≡ (s, ok r)))
      ⊎ ((num ≢ 0)
          × (num ≢ r.cnid)
          × (((inode : CatalogRecord) × (inode_of c d num r.link ≡ some inode)
                × Shows r inode x.1
                × IsFaithful c d x.0)
              ⊎ ((inode_of c d num r.link ≡ none)
                  × ((s' : Session) × IsFaithful c d s' × ByCnid r (lookup_cnid_raw c num s') x))))

  hard_link_target_cnid-IsTarget :
      (r : CatalogRecord) (l : LinkKind) (k : CatalogRecordType)
      → r.link ≡ l
      → r.kind ≡ k
      → IsTarget l k r.link_target (hard_link_target_cnid r)
  unfolding hard_link_target_cnid
  hard_link_target_cnid-IsTarget r hard_file file e f = rw (hard_link_target_cnid, e, f) refl
  hard_link_target_cnid-IsTarget r hard_dir file e f = rw (hard_link_target_cnid, e, f) refl
  hard_link_target_cnid-IsTarget r hard_file folder e f = rw (hard_link_target_cnid, e, f) refl
  hard_link_target_cnid-IsTarget r hard_dir folder e f = rw (hard_link_target_cnid, e, f) refl
  hard_link_target_cnid-IsTarget r hard_file folder_thread e f =
      rw (hard_link_target_cnid, e, f) refl
  hard_link_target_cnid-IsTarget r hard_dir folder_thread e f =
      rw (hard_link_target_cnid, e, f) refl
  hard_link_target_cnid-IsTarget r hard_file file_thread e f = rw (hard_link_target_cnid, e, f) refl
  hard_link_target_cnid-IsTarget r hard_dir file_thread e f = rw (hard_link_target_cnid, e, f) refl
  hard_link_target_cnid-IsTarget r no_link k e f = rw (hard_link_target_cnid, e) refl
  hard_link_target_cnid-IsTarget r symbolic k e f = rw (hard_link_target_cnid, e) refl

  under_link-Shows : (r t : CatalogRecord) → Shows r t (ok (under_link c r t))
  under_link-Shows r t = (
    under_link c r t,
    refl,
    (
      refl, refl, refl, refl, refl, refl, refl, refl, refl, refl, refl, refl, refl, refl, refl,
      refl, refl, refl, refl,
    ),
  )

  -- The record under the link, from what a lookup gives.
  under : CatalogRecord → Session × Result CatalogRecord → Session × Result CatalogRecord
  under r x = proceed (λ target. pure (under_link c r target)) x

  under-ByCnid : (r : CatalogRecord) (x : Session × Result CatalogRecord) → ByCnid r x (under r x)
  unfolding under
  under-ByCnid r (s, ok t) = (refl, under_link-Shows r t)
  under-ByCnid r (s, err e) = refl
  under-ByCnid r (s, panic) = refl

  -- What follows the search by name.
  or_by_cnid : ℕ → Session × Result (Option CatalogRecord) → Session × Result CatalogRecord
  or_by_cnid num x = proceed (λ f. elim f [ some t ↦ pure t | none ↦ lookup_cnid_raw c num ]) x

  linked-Resolves :
      (r : CatalogRecord) (num : ℕ) (s : Session) (o : Option CatalogRecord)
      (x : Session × Result (Option CatalogRecord))
      → num ≢ 0
      → num ≢ r.cnid
      → inode_of c d num r.link ≡ o
      → Answers c d o x
      → Resolves r num s (under r (or_by_cnid num x))
  unfolding under or_by_cnid
  linked-Resolves r num s (some t) (s', res) z own q (e, f) =
      rw (e) (inr (z, own, inl (t, q, under_link-Shows r t, f)))
  linked-Resolves r num s none (s', res) z own q (e, f) =
      rw (e) (inr (z, own, inr (q, (s', f, under-ByCnid r (lookup_cnid_raw c num s')))))

  -- On such a catalog and in such a session, every record has as its target the number that it
  -- stores if it is a file and a hard link, and 0 otherwise, and resolves in one of three ways. If the
  -- target is 0 or the record's own CNID, it is returned as it is. If the private directory of its
  -- kind has an inode for the target, whatever has that CNID, the inode is returned under the
  -- record's name and parent, with the record's kind of link, the inode's CNID as its target, the
  -- inode's special field as its count of links and all else of the inode; and the session remains such a one. Otherwise the same is returned for the record
  -- with that CNID, or the error of its lookup.
  pub resolve_hard_link_record-Resolves :
      (r : CatalogRecord) (s : Session)
      → IsFaithful c d s
      → IsTarget r.link r.kind r.link_target (hard_link_target_cnid r)
        × Resolves r (hard_link_target_cnid r) s (resolve_hard_link_record c r s)
  unfolding resolve_hard_link_record lookup_hard_link_inode under or_by_cnid
  resolve_hard_link_record-Resolves r s f =
      let num = hard_link_target_cnid r in
      (
        hard_link_target_cnid-IsTarget r r.link r.kind refl refl,
        elim (Bool-cases (num == 0)) [
          | inl z ↦ rw (resolve_hard_link_record, z) (inl (inl ((==_iff num 0).0 z), refl))
          | inr z ↦ elim (Bool-cases (num == r.cnid)) [
            | inl o ↦
                rw (resolve_hard_link_record, z, o) (inl (inr ((==_iff num r.cnid).0 o), refl))
            | inr o ↦
                rw (resolve_hard_link_record, z, o)
                  (linked-Resolves r num s (inode_of c d num r.link)
                    (find_inode_by_name c num r.link s) (ground (arith, z)) (ground (arith, o)) refl
                    (find_inode_by_name-Answers num r.link s f))
          ]
        ],
      )
