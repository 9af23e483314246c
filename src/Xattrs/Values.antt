-- ===== src/Xattrs/Values.antt =====
-- The values of extended attributes, and the walk over those of a volume: ReadXAttr, OpenXAttr and
-- WalkXAttrs of xattr.go.
use libhfs.Prelude.{
  ℕ, zero, suc, ◌+◌, ◌-◌, Bool, true, false, not, ◌||◌, Option, none, some, ltb, ◌==◌,
  if◌then◌else◌, length,
}
use libhfs.Errors.{
  sentinel, parse_error, not_found, missing_extent, stop_walk, Result, ok, err, panic,
}
use libhfs.Bytes.{Bytes, slice, field32}
use libhfs.File.{File}
use libhfs.Decmpfs.{check_alloc}
use libhfs.Btree.Keys.{AttributesKey}
use libhfs.Btree.Search.{Scan}
use libhfs.Btree.Leaves.{LeafCallback}
use libhfs.Btree.Walks.{Walk}
use libhfs.Catalog.Session.{Session, Action, ◌>>=◌, pure, attributes_note}
use libhfs.Catalog.Links.{same_text}
use libhfs.Catalog.Dirs.{Callback, end_scan}
use libhfs.Xattrs.{
  Xattr, is_fork, value, fork_data, extension, passed_over, content_of, more_extents, inline_xattr,
  fork_xattr, extended, get_xattr,
}

-- The value of an inline record, cut to what the record holds; `none` where it is passed over.
unfoldable pub inline_value : ℕ → Bytes → Result (Option Bytes)
inline_value limit payload = if ltb (length payload) 4 then ok none else elim (field32 payload 0) [
  | err e ↦ err e
  | panic ↦ panic
  | ok t ↦ if not (t == 16) || ltb (length payload) 16 then ok none else elim (field32 payload 12) [
    | err e ↦ err e
    | panic ↦ panic
    | ok declared ↦
        let size = if ltb (length payload - 16) declared then length payload - 16 else declared in
        elim (check_alloc limit "read_xattr" size) [
          | err e ↦ err e
          | panic ↦ panic
          | ok _ ↦ elim (slice payload 16 (16 + size)) [
            | err e ↦ err e
            | panic ↦ panic
            | ok bytes ↦ ok (some bytes)
          ]
        ]
  ]
]

-- The callback of ReadXAttr.
unfoldable pub take_value : ℕ → Bytes → LeafCallback (Session × Option Bytes) AttributesKey
take_value limit name (s, found) key payload =
    if not (same_text key.name name) || not (key.start_block == 0)
    then ((s, found), ok tt)
    else elim (inline_value limit payload) [
      | err e ↦ ((s, found), err e)
      | panic ↦ ((s, found), panic)
      | ok none ↦ ((s, found), ok tt)
      | ok (some bytes) ↦ ((s, some bytes), err (sentinel stop_walk))
    ]

abbrev pub value_found : Scan (Session × Option Bytes) → Session × Result (Option Bytes)
value_found ((s, found), ok _) = (s, ok found)
value_found ((s, found), err e) = (s, err e)
value_found ((s, found), panic) = (s, panic)

pub data Outcome : Type 0 where
  bytes_read : Bytes → Outcome
  again : Outcome

-- `read` is ReadAll of a file, and `limit` the volume's allocation limit.
module _ (walk : ℕ → Walk AttributesKey) (present : Bool) (limit : ℕ)
    (read : File → Result Bytes) where
  unfoldable pub read_inline : ℕ → Bytes → Action (Option Bytes)
  read_inline cnid name s = value_found (
      end_scan (
        walk cnid (Session × Option Bytes) (attributes_note cnid) (take_value limit name)
          (s, none)))

  -- The File of a fork-backed attribute.
  unfoldable pub open_fork : Xattr → Result File
  open_fork a =
      if length a.extents == 0
      then err (parse_error "open_xattr" a.cnid (sentinel missing_extent))
      else ok (record { extents = a.extents; inline = none; size = a.size; off = 0 })

  abbrev pub lift : {A : Type 0} → Result A → Action A
  lift r s = (s, r)

  -- What ReadXAttr finds: the value, or an attribute that the listing calls inline, for which the
  -- source calls itself again through OpenXAttr.
  unfoldable pub read_once : ℕ → Bytes → Action Outcome
  read_once cnid name s =
      if not present
      then (s, err (sentinel not_found))
      else (do
        found ← read_inline cnid name
        elim found [
          | some bytes ↦ pure (bytes_read bytes)
          | none ↦ (do
            a ← get_xattr walk present cnid name
            (if is_fork a.storage
                then (lift (open_fork a) >>= λ f. lift (read f) >>= λ b. pure (bytes_read b))
                else pure again))
        ])
          s

  abbrev pub after_once :
      Session × Result Outcome
      → (Session → Option (Session × Result Bytes))
      → Option (Session × Result Bytes)
  after_once (s, ok (bytes_read b)) retry = some (s, ok b)
  after_once (s, ok again) retry = retry s
  after_once (s, err e) retry = some (s, err e)
  after_once (s, panic) retry = some (s, panic)

  -- ReadXAttr, of at most so many calls of itself; `none` means that it does not return in them.
  unfoldable pub read_xattr : ℕ → ℕ → Bytes → Session → Option (Session × Result Bytes)
  read_xattr zero cnid name s = none
  read_xattr (suc calls) cnid name s =
      after_once (read_once cnid name s) (read_xattr calls cnid name)

-- The callback of WalkXAttrs: `current` is a fork whose extensions may follow.
abbrev pub Walking : Type 0 → Type 0
Walking U = Option Xattr × U

-- flush
abbrev pub flush : {U : Type 0} → Callback U Xattr → Walking U → Scan (Walking U)
flush cb (none, u) = ((none, u), ok tt)
flush cb (some a, u) = let (u', r) = cb u a in ((none, u'), r)

abbrev pub after_flush : {U : Type 0} → Scan (Walking U) → (U → Scan (Walking U)) → Scan (Walking U)
after_flush ((current, u), ok _) k = k u
after_flush ((current, u), err e) k = ((current, u), err e)
after_flush ((current, u), panic) k = ((current, u), panic)

abbrev pub give : {U : Type 0} → Callback U Xattr → Xattr → U → Scan (Walking U)
give cb a u = let (u', r) = cb u a in ((none, u'), r)

-- An extension of the current attribute, if it is that of the key.
abbrev pub stitch : {U : Type 0} → AttributesKey → Bytes → Option Xattr → U → Scan (Walking U)
stitch key payload none u = ((none, u), ok tt)
stitch key payload (some a) u =
    if not (a.cnid == key.file_id) || not (same_text a.name key.name)
    then ((some a, u), ok tt)
    else elim (more_extents payload) [
      | err e ↦ ((some a, u), err e)
      | panic ↦ ((some a, u), panic)
      | ok es ↦ ((some (extended a es), u), ok tt)
    ]

-- The type of a record that flushes though it is too short to read.
abbrev pub flushes : Bytes → Result Bool
flushes payload =
    if ltb (length payload) 4
    then ok false
    else elim (field32 payload 0) [ err e ↦ err e | panic ↦ panic | ok t ↦ ok (t == 16 || t == 32) ]

unfoldable pub pass_xattr : {U : Type 0} → Callback U Xattr → LeafCallback (Walking U) AttributesKey
pass_xattr cb (current, u) key payload = elim (content_of payload) [
  | err e ↦ ((current, u), err e)
  | panic ↦ ((current, u), panic)
  | ok (value size truncated) ↦
      after_flush (flush cb (current, u)) (give cb (inline_xattr key.file_id key.name size))
  | ok (fork_data f) ↦
      after_flush (flush cb (current, u))
        (λ u'. ((some (fork_xattr key.file_id key.name f), u'), ok tt))
  | ok extension ↦ stitch key payload current u
  | ok passed_over ↦ elim (flushes payload) [
    | err e ↦ ((current, u), err e)
    | panic ↦ ((current, u), panic)
    | ok true ↦ flush cb (current, u)
    | ok false ↦ ((current, u), ok tt)
  ]
]

abbrev pub finish : {U : Type 0} → Callback U Xattr → Scan (Walking U) → Scan U
finish cb ((current, u), ok _) = let ((current', u'), r) = flush cb (current, u) in (u', r)
finish cb ((current, u), err e) = end_scan (u, err e)
finish cb ((current, u), panic) = (u, panic)

-- WalkXAttrs, on the leaf chain of the attributes tree.
unfoldable pub walk_xattrs :
    {U : Type 0} → Walk AttributesKey → Bool → Callback U Xattr → U → Scan U
walk_xattrs {U} chain present cb u =
    if not present
    then (u, ok tt)
    else finish cb (chain (Walking U) (λ x. x) (pass_xattr cb) (none, u))
