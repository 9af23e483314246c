-- ===== src/Catalog/Lookup/Choice.antt =====
-- Which record a lookup of catalog.go returns, of those that its walk comes by.
use libhfs.Prelude.{
  ℕ, ◌≡◌, ◌≢◌, refl, ◌∙◌, ap, inl, inr, Bool, false, not, ◌&&◌, Bool-cases, Option, none, some,
  List, [], ◌∷◌, arith, ◌==◌, if◌then◌else◌,
}
use libhfs.Errors.{is, stop_walk, Result, ok, err, panic, Holds, Result-cases}
use libhfs.Bytes.{Bytes}
use libhfs.Anomalies.{note_decode_failure}
use libhfs.Btree.Keys.{CatalogKey}
use libhfs.Btree.Walks.Delivery.{Event, item, fell_back, Trace, play_events, Delivers}
use libhfs.Catalog.{CatalogRecord}
use libhfs.Catalog.Session.{Catalog, Session, decode, catalog_note, noted}
use libhfs.Catalog.Fields.{SaysOf}
use mathlib.Core.Bool.{decide}
use libhfs.Catalog.Decoded.{decode_by_kind-Holds}
use libhfs.Catalog.Lookup.{
  is_thread, is_placeholder_record, Found, nothing, remember, seek, pick_found, conclude,
  seek_child, find_thread_record, lookup_cnid_linear, search_child,
}

-- The first record that passes a test.
unfoldable pub first : (CatalogRecord → Bool) → List CatalogRecord → Option CatalogRecord
first test [] = none
first test (r ∷ rs) = if test r then some r else first test rs

abbrev pub with_ok : Result CatalogRecord → List CatalogRecord → List CatalogRecord
with_ok (ok r) rs = r ∷ rs
with_ok (err e) rs = rs
with_ok panic rs = rs

Holds-ne-panic : (P : CatalogRecord → Type 0) (r : Result CatalogRecord) → Holds P r → r ≢ panic
Holds-ne-panic P (ok r) h = ground arith
Holds-ne-panic P (err e) h = ground arith
Holds-ne-panic P panic h = absurd h

module _ (c : Catalog) where
  -- The records of a sequence of events that can be decoded.
  unfoldable pub records_in : List (Event CatalogKey) → List CatalogRecord
  records_in [] = []
  records_in (item k b ∷ es) = with_ok (decode c k b) (records_in es)
  records_in (fell_back ∷ es) = records_in es

  pub decode-ne-panic : (k : CatalogKey) (b : Bytes) → decode c k b ≢ panic
  decode-ne-panic k b =
      Holds-ne-panic (SaysOf c.kind c.encoding c.block_size k b) (decode c k b)
        (decode_by_kind-Holds c.kind c.encoding c.block_size k b)

  module _ (wanted placeholder : CatalogRecord → Bool) where
    -- A record that a lookup returns at once.
    abbrev pub is_real : CatalogRecord → Bool
    is_real r = wanted r && not (placeholder r)

    -- What is returned for the first record of that kind, the first placeholder and the walk's end.
    abbrev pub answered :
        Option CatalogRecord → Option CatalogRecord → Result (Unit {0}) → Result CatalogRecord
    answered (some r) candidate final = ok r
    answered none candidate panic = panic
    answered none candidate (err e) =
        if is e stop_walk
        then pick_found c (record { out = none; last_candidate = candidate })
        else err e
    answered none candidate (ok _) =
        pick_found c (record { out = none; last_candidate = candidate })

    abbrev or_first : Option CatalogRecord → Option CatalogRecord → Option CatalogRecord
    or_first (some r) o = some r
    or_first none o = o

    remember-or_first :
        (l : Option CatalogRecord) (r : CatalogRecord) (o : Option CatalogRecord)
        → or_first (remember l r) o ≡ or_first l (some r)
    remember-or_first (some x) r o = refl
    remember-or_first none r o = refl

    play-seek :
        (note : Session × Found → Session × Found) (keep : Session → Session)
        → ((s : Session) (f : Found) → note (s, f) ≡ (keep s, f))
        → (es : List (Event CatalogKey)) (final : Result (Unit {0})) (s : Session)
          (l : Option CatalogRecord)
        → (conclude c (
            play_events note
              (seek c wanted placeholder)
              es
              final
              (s, record { out = none; last_candidate = l }))).1
          ≡ answered
              (first is_real (records_in es))
              (or_first l (first wanted (records_in es)))
              final
    unfolding play_events seek first records_in is decide
    play-seek note keep keeps [] (ok _) s none = refl
    play-seek note keep keeps [] (ok _) s (some x) = refl
    play-seek note keep keeps [] (err e) s none = refl
    play-seek note keep keeps [] (err e) s (some x) = refl
    play-seek note keep keeps [] panic s none = refl
    play-seek note keep keeps [] panic s (some x) = refl
    play-seek note keep keeps (fell_back ∷ es) final s l =
        rw (keeps s (record { out = none; last_candidate = l }))
          (play-seek note keep keeps es final (keep s) l)
    play-seek note keep keeps (item k b ∷ es) final s l = elim (Result-cases (decode c k b)) [
      | inr (inr q) ↦ absurd (decode-ne-panic k b q)
      | inr (inl (e, q)) ↦
          rw (seek, q)
            (play-seek note keep keeps es final
              (record s { log = note_decode_failure "catalog_decode" k.parent_cnid s.log }) l)
      | inl (r, q) ↦ elim (Bool-cases (wanted r)) [
        | inr w ↦ rw (seek, q, w) (play-seek note keep keeps es final s l)
        | inl w ↦ elim (Bool-cases (placeholder r)) [
          | inl p ↦
              rw (seek, q, w, p)
                (play-seek note keep keeps es final s (remember l r)
                  ∙ ap (λ o. answered (first is_real (records_in es)) o final)
                      (remember-or_first l r (first wanted (records_in es))))
          | inr p ↦ rw (seek, q, w, p) refl
        ]
      ]
    ]

    -- What a lookup by a walk that plays a trace returns.
    abbrev pub answer : Trace CatalogKey → Result CatalogRecord
    answer (es, final) =
        answered (first is_real (records_in es)) (first wanted (records_in es)) final

    pub seek_child-answer :
        (parent : ℕ) (d : Delivers (c.children parent)) (s : Session)
        → (seek_child c parent wanted placeholder s).1 ≡ answer d.trace
    unfolding seek_child
    seek_child-answer parent d s =
        ap (λ r. (conclude c r).1)
          (d.plays (Session × Found) (catalog_note parent) (seek c wanted placeholder) (s, nothing))
        ∙ play-seek (catalog_note parent)
            (noted "catalog_search" parent "keyed descent failed; fell back to a full catalog scan")
            (λ s f. refl) d.trace.0 d.trace.1 s none

    pub seek_all-answer :
        (d : Delivers c.records) (s : Session)
        → (conclude c
            (c.records (Session × Found) (λ x. x) (seek c wanted placeholder) (s, nothing))).1
          ≡ answer d.trace
    seek_all-answer d s =
        ap (λ r. (conclude c r).1)
          (d.plays (Session × Found) (λ x. x) (seek c wanted placeholder) (s, nothing))
        ∙ play-seek (λ x. x) (λ x. x) (λ s f. refl) d.trace.0 d.trace.1 s none

  -- On a catalog whose walks go through fixed sequences of records: the lookup of a thread record,
  -- of a CNID in the whole catalog, and of a child by its name return, whatever the session holds,
  -- the first record of the sequence that is wanted (of the records that decode) and no
  -- placeholder; without one, the first wanted placeholder, or ErrNotFound if there is none,
  -- unless the walk itself failed, whose error they return then. Threads have no placeholders.
  pub lookups-answer :
      (parent cnid : ℕ) (name : Bytes) (same_name : Bytes → Bytes → Bool)
      (d : Delivers (c.children parent)) (whole : Delivers c.records) (s : Session)
      → ((find_thread_record c parent s).1
          ≡ answer (λ r. is_thread r && r.thread_cnid == parent) (λ r. false) d.trace)
        × ((lookup_cnid_linear c cnid s).1
            ≡ answer (λ r. r.cnid == cnid) (is_placeholder_record c.kind) whole.trace)
        × ((search_child c parent name same_name s).1
            ≡ answer
                (λ r. r.parent_cnid == parent && same_name r.name name)
                (is_placeholder_record c.kind)
                d.trace)
  unfolding find_thread_record lookup_cnid_linear search_child
  lookups-answer parent cnid name same_name d whole s = (
    seek_child-answer (λ r. is_thread r && r.thread_cnid == parent) (λ r. false) parent d s,
    seek_all-answer (λ r. r.cnid == cnid) (is_placeholder_record c.kind) whole s,
    seek_child-answer (λ r. r.parent_cnid == parent && same_name r.name name)
        (is_placeholder_record c.kind) parent d s,
  )
