-- ===== src/Xattrs.antt =====
-- xattr.go: the extended attributes of a node, read from the records of the attributes tree.
pub mod Values
pub mod Recursion
use libhfs.Prelude.{
  ℕ, ◌+◌, ◌-◌, ◌%◌, ◌^◌, Bool, true, false, not, ◌&&◌, ◌||◌, Option, none, some, List, [], ◌∷◌,
  ◌++◌, ltb, ◌==◌, if◌then◌else◌, length,
}
use libhfs.Errors.{Error, sentinel, not_found, Result, ok, err, panic}
use libhfs.Bytes.{Bytes, slice, field32}
use libhfs.Extents.{ExtentDescriptor, ForkData, compact_extents, parse_extents_record}
use libhfs.Volume.{fork_at}
use libhfs.Btree.Keys.{AttributesKey}
use libhfs.Btree.Search.{Scan}
use libhfs.Btree.Leaves.{LeafCallback}
use libhfs.Btree.Walks.{Walk}
use libhfs.Catalog.Session.{Session, Action, ◌>>=◌, pure, noted, attributes_note}
use libhfs.Catalog.Links.{same_text}

pub data XattrStorage : Type 0 where
  inline fork : XattrStorage

pub record Xattr : Type 0 where
  pub cnid : ℕ
  pub name : Bytes
  pub size : ℕ
  pub storage : XattrStorage
  pub extents : List ExtentDescriptor

-- What one record of the tree says: an inline value of so many bytes and whether it declares more,
-- a fork, more extents of one, or nothing.
pub data Content : Type 0 where
  value : ℕ → Bool → Content
  fork_data : ForkData → Content
  extension : Content
  passed_over : Content

-- The switch on the type of a record, and what each case reads first.
unfoldable pub content_of : Bytes → Result Content
content_of payload = if ltb (length payload) 4 then ok passed_over else elim (field32 payload 0) [
  | err e ↦ err e
  | panic ↦ panic
  | ok t ↦
      if t == 16
      then if ltb (length payload) 16 then ok passed_over else elim (field32 payload 12) [
        | err e ↦ err e
        | panic ↦ panic
        | ok size ↦
            if ltb (length payload - 16) size
            then ok (value ((length payload - 16) % 2 ^ 32) true)
            else ok (value size false)
      ]
      else if t == 32
      then if ltb (length payload) 88
        then ok passed_over
        else elim (fork_at payload 8) [ ok f ↦ ok (fork_data f) | err e ↦ err e | panic ↦ panic ]
      else if t == 48
      then ok extension
      else ok passed_over
]

-- The extents of an extension record; none where the record is passed over.
unfoldable pub more_extents : Bytes → Result (List ExtentDescriptor)
more_extents payload = if ltb (length payload) 72 then ok [] else elim (slice payload 8 72) [
  | err e ↦ err e
  | panic ↦ panic
  | ok part ↦ elim (parse_extents_record part) [
    | err e ↦ ok []
    | panic ↦ panic
    | ok es ↦ ok (compact_extents es)
  ]
]

-- `byName[a.Name] = a`, and the name at the end of `order` if it is new.
unfoldable pub set_by_name : Xattr → List Xattr → List Xattr
set_by_name a [] = a ∷ []
set_by_name a (b ∷ bs) = if same_text a.name b.name then a ∷ bs else b ∷ set_by_name a bs

-- `byName[name]`
unfoldable pub by_name : Bytes → List Xattr → Option Xattr
by_name name [] = none
by_name name (b ∷ bs) = if same_text name b.name then some b else by_name name bs

abbrev pub is_fork : XattrStorage → Bool
is_fork fork = true
is_fork inline = false

abbrev pub inline_xattr : ℕ → Bytes → ℕ → Xattr
inline_xattr cnid name size = record {
  cnid = cnid;
  name = name;
  size = size;
  storage = inline;
  extents = [];
}

abbrev pub fork_xattr : ℕ → Bytes → ForkData → Xattr
fork_xattr cnid name f = record {
  cnid = cnid;
  name = name;
  size = f.logical_size;
  storage = fork;
  extents = compact_extents f.extents;
}

abbrev pub extended : Xattr → List ExtentDescriptor → Xattr
extended a es = record a { extents = a.extents ++ es }

abbrev pub note_truncated : Bool → ℕ → Session → Session
note_truncated false cnid s = s
note_truncated true cnid s =
    noted "xattr_inline" cnid "inline attribute declares more data than its record holds" s

abbrev pub note_extension : ℕ → Session → Session
note_extension cnid s =
    noted "xattr_extension" cnid "extension record without a preceding fork-data record" s

-- The attributes so far, in the order in which their names were first seen.
abbrev pub Listing : Type 0
Listing = Session × List Xattr

-- An extension record of the attribute `existing`, if it is a fork.
abbrev pub extend : ℕ → Bytes → Session → List Xattr → Option Xattr → Scan Listing
extend cnid payload s found none = ((note_extension cnid s, found), ok tt)
extend cnid payload s found (some a) =
    if not (is_fork a.storage)
    then ((note_extension cnid s, found), ok tt)
    else elim (more_extents payload) [
      | err e ↦ ((s, found), err e)
      | panic ↦ ((s, found), panic)
      | ok es ↦ ((s, set_by_name (extended a es) found), ok tt)
    ]

-- The callback of ListXAttrs.
unfoldable pub list_record : ℕ → LeafCallback Listing AttributesKey
list_record cnid (s, found) key payload = elim (content_of payload) [
  | err e ↦ ((s, found), err e)
  | panic ↦ ((s, found), panic)
  | ok passed_over ↦ ((s, found), ok tt)
  | ok (value size truncated) ↦ (
    (note_truncated truncated cnid s, set_by_name (inline_xattr cnid key.name size) found),
    ok tt,
  )
  | ok (fork_data f) ↦ ((s, set_by_name (fork_xattr cnid key.name f) found), ok tt)
  | ok extension ↦ extend cnid payload s found (by_name key.name found)
]

-- `a < b` on Go strings.
unfoldable pub text_before : Bytes → Bytes → Bool
text_before [] [] = false
text_before [] (b ∷ bs) = true
text_before (a ∷ as') [] = false
text_before (a ∷ as') (b ∷ bs) = ltb a b || a == b && text_before as' bs

-- sort.SliceStable by name.
unfoldable pub insert_by_name : Xattr → List Xattr → List Xattr
insert_by_name a [] = a ∷ []
insert_by_name a (b ∷ bs) =
    if text_before b.name a.name then b ∷ insert_by_name a bs else a ∷ b ∷ bs

unfoldable pub sort_by_name : List Xattr → List Xattr
sort_by_name [] = []
sort_by_name (a ∷ as') = insert_by_name a (sort_by_name as')

abbrev pub listed : Scan Listing → Session × Result (List Xattr)
listed ((s, found), ok _) = (s, ok (sort_by_name found))
listed ((s, found), err e) = (s, err e)
listed ((s, found), panic) = (s, panic)

-- `walk` is walkAttributesForFile, and `present` is hasAttributes.
module _ (walk : ℕ → Walk AttributesKey) (present : Bool) where
  unfoldable pub list_xattrs : ℕ → Action (List Xattr)
  list_xattrs cnid s =
      if not present
      then (s, ok [])
      else listed (walk cnid Listing (attributes_note cnid) (list_record cnid) (s, []))

  abbrev pub or_not_found : Option Xattr → Action Xattr
  or_not_found (some a) s = (s, ok a)
  or_not_found none s = (s, err (sentinel not_found))

  unfoldable pub get_xattr : ℕ → Bytes → Action Xattr
  get_xattr cnid name = do attrs ← list_xattrs cnid; or_not_found (by_name name attrs)
