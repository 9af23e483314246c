-- ===== src/Btree/Walks/Keyed.antt =====
-- The keyed scan of btree_search.go with its fallback, as a trace.
pub mod Kept
use libhfs.Prelude.{
  ℕ, zero, suc, ◌<◌, ◌≡◌, refl, sym, ◌∙◌, ap, inl, inr, Option, some, List, [], ◌∷◌, ◌++◌, arith,
  ltb, ◌==◌, ◌&&◌, not, if◌then◌else◌, length, Bool, true, false, Bool-cases,
}
use libhfs.Errors.{callback_error, Result, ok, err, panic, ◌>>=◌, Result-cases}
use libhfs.Bytes.{Bytes, slice}
use libhfs.Btree.Node.{BtreeHeaderRecord, member, ordered_node_records, node_type_leaf}
use libhfs.Btree.Search.{
  KeyOps, Scan, Visit, Step, next, over, degraded, or_degraded, is_before, deliver, read_node,
  is_empty, find_leaf, check_landing, scan_records, leaf_records, scan_leaves, scan_from,
}
use libhfs.Btree.Search.Fuel.{unvisited, unvisited-le, visit-lt}
use libhfs.Btree.Leaves.{LeafCallback, and_then, keyed}
use libhfs.Btree.Walks.Delivery.{Event, item, Trace, done, play_events, play_events-append, play}

module _ {K : Type 0} (node_at : ℕ → ℕ → Result Bytes) (header : BtreeHeaderRecord) (ops : KeyOps K)
    (past same : K → Bool) (target : K) where
  -- What a leaf's records lead to: the scan goes on with `started`, or it is over.
  data Outcome : Type 0 where
    onward : Bool → Outcome
    ends : Result (Unit {0}) → Outcome

  -- The events of a list of records, and their outcome.
  abbrev Part : Type 0
  Part = List (Event K) × Outcome

  abbrev first_then : Event K → Part → Part
  first_then e p = (e ∷ p.0, p.1)

  -- One record, with the part of those behind it.
  payload_part : Bytes → K → Part → Part
  payload_part b k later =
      if past k then ([], ends (ok tt)) else if same k then first_then (item k b) later else later

  records_part : Bool → List Bytes → Part
  records_part started [] = ([], onward started)
  records_part started (rec ∷ recs) = elim (or_degraded (ops.parse rec)) [
    | err e ↦ ([], ends (err e))
    | panic ↦ ([], ends panic)
    | ok (k, consumed) ↦
        let skip = records_part false recs in
        let later = records_part true recs in
        let payload = slice rec consumed (length rec) in
        if ltb (length rec) consumed
        then ([], ends degraded)
        else if not started && is_before (ops.compare k target)
        then skip
        else elim payload [
          | ok b ↦ payload_part b k later
          | err e ↦ ([], ends (err (callback_error e)))
          | panic ↦ ([], ends panic)
        ]
  ]

  -- A leaf's records and the next leaf, after the checks.
  leaf_read : ℕ → Bool → Result (List Bytes × ℕ)
  leaf_read leaf first = do
    (buf, desc) ← read_node node_at header ops leaf
    let records = ordered_node_records buf desc
    (if not (desc.node_type == node_type_leaf) then degraded else (do
      recs ← or_degraded records
      _ ← (if first then check_landing node_at header ops leaf recs target else ok tt)
      ok (recs, desc.forward_link)))

  leaf_read-lt :
      (leaf : ℕ) (first : Bool) {r : List Bytes × ℕ}
      → leaf_read leaf first ≡ ok r
      → leaf < header.total_nodes
  unfolding leaf_read read_node
  leaf_read-lt leaf first h = ground (arith, h)

  -- A part with those of the leaves behind it.
  chained : Part → (Bool → Trace K) → Trace K
  chained (es, ends r) rest = (es, r)
  chained (es, onward b) rest = (es ++ (rest b).0, (rest b).1)

  leaves_trace : ℕ → List ℕ → Bool → Bool → ℕ → Trace K
  leaves_trace zero visited started first leaf = done
  leaves_trace (suc fuel) visited started first leaf =
      if leaf == 0
      then done
      else if member leaf visited
      then ([], degraded)
      else elim (leaf_read leaf first) [
        | err e ↦ ([], err e)
        | panic ↦ ([], panic)
        | ok (recs, link) ↦
            chained (records_part started recs)
              (λ b. leaves_trace fuel (leaf ∷ visited) b false link)
      ]

  pub scan_trace : Trace K
  scan_trace =
      if is_empty node_at header ops then done else elim (find_leaf node_at header ops target) [
        | err e ↦ ([], err e)
        | panic ↦ ([], panic)
        | ok leaf ↦ leaves_trace (suc header.total_nodes) [] false true leaf
      ]

  module _ {S : Type 0} (note : S → S) (cb : LeafCallback S K) where
    -- How the scan goes on from the callbacks of a leaf.
    abbrev conclude : Outcome → S → Step S
    conclude (onward started) s = next s started
    conclude (ends r) s = over s r

    abbrev to_step : Scan S → Outcome → Step S
    to_step (s, ok _) o = conclude o s
    to_step (s, err e) o = over s (err (callback_error e))
    to_step (s, panic) o = over s panic

    abbrev pub visit : Visit S K
    visit = keyed node_at header ops past same cb (λ _ s. some (s, ok tt))

    -- How a scan goes on from the callback's answer to a record.
    abbrev resume : S × Result Bool → (S → Step S) → Step S
    resume (s, ok false) later = over s (ok tt)
    resume (s, ok true) later = later s
    resume (s, err e) later = over s (err (callback_error e))
    resume (s, panic) later = over s panic

    resume_lem :
        (d : S × Result Bool) (later : S → Step S)
        → elim d.1 as (λ _. Step S) [
          | ok x ↦ elim x as (λ _. Step S) [ false ↦ over d.0 (ok tt) | true ↦ later d.0 ]
          | err e ↦ over d.0 (err (callback_error e))
          | panic ↦ over d.0 panic
        ]
          ≡ resume d later
    resume_lem (s, ok false) later = refl
    resume_lem (s, ok true) later = refl
    resume_lem (s, err e) later = refl
    resume_lem (s, panic) later = refl

    -- The answer to a record of the run.
    resume_ok :
        (r : Scan S) (later : S → Step S) (rest : S → Scan S) (o : Outcome)
        → ((s : S) → later s ≡ to_step (rest s) o)
        → resume (r.0, r.1 >>= λ _. ok true) later ≡ to_step (and_then r rest) o
    resume_ok (s, ok _) later rest o h = h s
    resume_ok (s, err e) later rest o h = refl
    resume_ok (s, panic) later rest o h = refl

    payload-play :
        (s : S) (k : K) (b : Bytes) (later : S → Step S) (part : Part)
        → ((s : S) → later s ≡ to_step (play note cb (part.0, ok tt) s) part.1)
        → resume (visit s k b) later
          ≡ to_step (play note cb ((payload_part b k part).0, ok tt) s) (payload_part b k part).1
    unfolding payload_part play_events
    payload-play s k b later part h = elim (Bool-cases (past k)) [
      | inl pa ↦ rw (pa) refl
      | inr pa ↦ elim (Bool-cases (same k)) [
        | inr sa ↦ rw (pa, sa) (h s)
        | inl sa ↦
            rw (pa, sa) (resume_ok (cb s k b) later (play_events note cb part.0 (ok tt)) part.1 h)
      ]
    ]

    records-play :
        (s : S) (started : Bool) (recs : List Bytes)
        → scan_records node_at header ops visit target s started recs
          ≡ to_step
              (play note cb ((records_part started recs).0, ok tt) s)
              (records_part started recs).1
    unfolding scan_records records_part payload_part play_events
    records-play s started [] = refl
    records-play s started (rec ∷ recs) = elim (Result-cases (or_degraded (ops.parse rec))) [
      | inr (inl (e, q)) ↦ rw (scan_records, records_part, q) refl
      | inr (inr q) ↦ rw (scan_records, records_part, q) refl
      | inl ((k, consumed), q) ↦ elim (Bool-cases (ltb (length rec) consumed)) [
        | inl l ↦ rw (scan_records, records_part, q, l) refl
        | inr l ↦ elim (Bool-cases (not started && is_before (ops.compare k target))) [
          | inl b ↦ rw (scan_records, records_part, q, l, b) (records-play s false recs)
          | inr b ↦
              let later = λ (s' : S). scan_records node_at header ops visit target s' true recs in
              rw (scan_records, records_part, q, l, b)
                (resume_lem (deliver node_at header ops visit target s k rec consumed) later
                  ∙ elim (Result-cases (slice rec consumed (length rec))) [
                    | inr (inl (e, p)) ↦ rw (deliver, p) refl
                    | inr (inr p) ↦ rw (deliver, p) refl
                    | inl (bytes, p) ↦
                        rw (deliver, p)
                          (payload-play s k bytes later (records_part true recs)
                            (λ s'. records-play s' true recs))
                  ])
        ]
      ]
    ]

    -- How a scan whose callbacks leave `r` ends.
    abbrev pub wrap : Scan S → Result (Unit {0}) → Scan S
    wrap (s, ok _) r = (s, r)
    wrap (s, err e) r = (s, err (callback_error e))
    wrap (s, panic) r = (s, panic)

    abbrev follow : Step S → (S → Bool → Option (Scan S)) → Option (Scan S)
    follow (over s r) rest = some (s, r)
    follow (next s b) rest = rest s b

    follow_lem :
        (m : Step S) (rest : S → Bool → Option (Scan S))
        → elim m as (λ _. Option (Scan S)) [ over s r ↦ some (s, r) | next s b ↦ rest s b ]
          ≡ follow m rest
    follow_lem (over s r) rest = refl
    follow_lem (next s b) rest = refl

    follow-ends :
        (sc : Scan S) (r : Result (Unit {0})) (rest : S → Bool → Option (Scan S))
        → follow (to_step sc (ends r)) rest ≡ some (wrap sc r)
    follow-ends (s, ok _) r rest = refl
    follow-ends (s, err e) r rest = refl
    follow-ends (s, panic) r rest = refl

    follow-onward :
        (sc : Scan S) (b : Bool) (rest : S → Bool → Option (Scan S)) (f : S → Scan S)
        (r : Result (Unit {0}))
        → ((s : S) → rest s b ≡ some (wrap (f s) r))
        → follow (to_step sc (onward b)) rest ≡ some (wrap (and_then sc f) r)
    follow-onward (s, ok _) b rest f r h = h s
    follow-onward (s, err e) b rest f r h = refl
    follow-onward (s, panic) b rest f r h = refl

    follow-chained :
        (part : Part) (s : S) (rest : S → Bool → Option (Scan S)) (t : Bool → Trace K)
        → ((b : Bool) (s : S) → rest s b ≡ some (wrap (play note cb ((t b).0, ok tt) s) (t b).1))
        → follow (to_step (play note cb (part.0, ok tt) s) part.1) rest
          ≡ some (wrap (play note cb ((chained part t).0, ok tt) s) (chained part t).1)
    unfolding chained
    follow-chained (es, ends r) s rest t h = follow-ends (play_events note cb es (ok tt) s) r rest
    follow-chained (es, onward b) s rest t h =
        follow-onward (play_events note cb es (ok tt) s) b rest (play note cb ((t b).0, ok tt))
          (t b).1 (h b)
        ∙ ap (λ x. some (wrap x (t b).1)) (sym (play_events-append note cb es (t b).0 (ok tt) s))

    leaves-play :
        (fuel : ℕ) (visited : List ℕ) (s : S) (started first : Bool) (leaf : ℕ)
        → unvisited header.total_nodes visited < fuel
        → scan_leaves node_at header ops visit target fuel visited s started first leaf
          ≡ some (
              wrap
                (play note cb ((leaves_trace fuel visited started first leaf).0, ok tt) s)
                (leaves_trace fuel visited started first leaf).1)
    unfolding scan_leaves leaves_trace leaf_records leaf_read play_events
    leaves-play zero visited s started first leaf h = absurd (omega arith)
    leaves-play (suc fuel) visited s started first leaf h = elim (Bool-cases (leaf == 0)) [
      | inl z ↦ rw (scan_leaves, leaves_trace, z) refl
      | inr z ↦ elim (Bool-cases (member leaf visited)) [
        | inl m ↦ rw (scan_leaves, leaves_trace, z, m) refl
        | inr m ↦ elim (Result-cases (leaf_read leaf first)) [
          | inr (inl (e, q)) ↦ rw (scan_leaves, leaves_trace, z, m, q) refl
          | inr (inr q) ↦ rw (scan_leaves, leaves_trace, z, m, q) refl
          | inl ((recs, link), q) ↦
              let l = visit-lt header.total_nodes leaf visited m (leaf_read-lt leaf first q) in
              let rest = λ (s' : S) (b : Bool).
                scan_leaves node_at header ops visit target fuel (leaf ∷ visited) s' b false link in
              rw (scan_leaves, leaves_trace, z, m, q)
                (follow_lem (scan_records node_at header ops visit target s started recs) rest
                  ∙ ap (λ m'. follow m' rest) (records-play s started recs)
                  ∙ follow-chained (records_part started recs) s rest
                      (λ b. leaves_trace fuel (leaf ∷ visited) b false link)
                      (λ b s'.
                        leaves-play fuel (leaf ∷ visited) s' b false link (omega (arith, h, l))))
        ]
      ]
    ]

    pub scan-play :
        (s : S)
        → scan_from node_at header ops visit target s
          ≡ some (wrap (play note cb (scan_trace.0, ok tt) s) scan_trace.1)
    unfolding scan_from scan_trace play_events
    scan-play s = elim (Bool-cases (is_empty node_at header ops)) [
      | inl z ↦ rw (z) refl
      | inr z ↦ elim (Result-cases (find_leaf node_at header ops target)) [
        | inr (inl (e, q)) ↦ rw (z, q) refl
        | inr (inr q) ↦ rw (z, q) refl
        | inl (leaf, q) ↦
            rw (z, q)
              (leaves-play (suc header.total_nodes) [] s false true leaf
                (omega (arith, unvisited-le header.total_nodes [])))
      ]
    ]
