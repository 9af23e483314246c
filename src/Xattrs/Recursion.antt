-- ===== src/Xattrs/Recursion.antt =====
-- ReadXAttr and OpenXAttr of xattr.go, which call one another.
use libhfs.Prelude.{
  ℕ, zero, suc, ◌≡◌, ◌≢◌, refl, ap, Bool, true, false, Option, none, some, [], ◌∷◌, arith, ◌==◌,
}
use libhfs.Errors.{Result, ok}
use libhfs.Bytes.{Bytes}
use libhfs.File.{File}
use libhfs.Btree.Keys.{AttributesKey}
use libhfs.Btree.Walks.{Walk}
use libhfs.Btree.Walks.Delivery.{item, play_events, Delivers}
use libhfs.Catalog.Session.{Session, attributes_note}
use libhfs.Catalog.Links.{same_text}
use libhfs.Xattrs.{
  value, content_of, list_record, list_xattrs, get_xattr, by_name, set_by_name, sort_by_name,
  insert_by_name, inline_xattr, note_truncated, Listing, or_not_found,
}
use libhfs.Xattrs.Values.{take_value, read_inline, read_once, read_xattr, again}

pub same_text_refl : (t : Bytes) → same_text t t ≡ true
same_text_refl [] = refl
same_text_refl (b ∷ t) = ground (arith, same_text_refl t)

module _ (walk : ℕ → Walk AttributesKey) (limit : ℕ) (read : File → Result Bytes) (cnid : ℕ)
    (key : AttributesKey) (payload : Bytes) (size : ℕ) (truncated : Bool) (d : Delivers (walk cnid))
    (single : d.trace ≡ (item key payload ∷ [], ok tt)) (later_block : key.start_block ≢ 0)
    (holds : content_of payload ≡ ok (value size truncated)) where
  inline-none : (s : Session) → read_inline walk true limit read cnid key.name s ≡ (s, ok none)
  unfolding read_inline take_value play_events
  inline-none s =
      let z : (key.start_block == 0) ≡ false = ground (arith, later_block) in
      rw
        (
          d.plays (Session × Option Bytes) (attributes_note cnid) (take_value limit key.name)
              (s, none),
          single,
          same_text_refl key.name,
          z,
        )
        refl

  listed-inline :
      (s : Session)
      → list_xattrs walk true cnid s
        ≡ (note_truncated truncated cnid s, ok (inline_xattr cnid key.name size ∷ []))
  unfolding list_xattrs list_record play_events set_by_name sort_by_name insert_by_name
  listed-inline s =
      rw
        (
          d.plays Listing (attributes_note cnid) (list_record cnid) (s, []),
          single,
          list_record,
          holds,
        )
        refl

  found-inline :
      (s : Session)
      → get_xattr walk true cnid key.name s
        ≡ (note_truncated truncated cnid s, ok (inline_xattr cnid key.name size))
  unfolding get_xattr by_name
  found-inline s =
      rw (listed-inline s)
        (ap (λ o. or_not_found walk true o (note_truncated truncated cnid s)) named)
    where
      named :
          by_name key.name (inline_xattr cnid key.name size ∷ [])
          ≡ some (inline_xattr cnid key.name size)
      named = rw (by_name, same_text_refl key.name) refl

  once-again :
      (s : Session)
      → read_once walk true limit read cnid key.name s ≡ (note_truncated truncated cnid s, ok again)
  unfolding read_once
  once-again s = rw (inline-none s, found-inline s) refl

  -- If the only record of a node in the attributes tree is one that declares an inline value, under
  -- a key whose start block is not 0, then ReadXAttr of its name never returns: whatever the session
  -- holds, no number of calls of itself gives a result, since ListXAttrs lists such a value as
  -- inline and ReadXAttr passes it over.
  pub read_xattr-none :
      (calls : ℕ) (s : Session) → read_xattr walk true limit read calls cnid key.name s ≡ none
  unfolding read_xattr
  read_xattr-none zero s = refl
  read_xattr-none (suc calls) s =
      rw (once-again s) (read_xattr-none calls (note_truncated truncated cnid s))
