-- ===== src/Btree/Search.antt =====
-- Keyed search of btree_search.go: descent to a leaf and the scan of the leaf chain from there. A
-- node is read through a function; the node cache in front of it returns what it has read (see
-- Cache). The callback keeps a state `S`.
pub mod Fuel
use Prim.Native.Nat.{Ordering, lt, eq, gt}
use libhfs.Prelude.{
  ℕ, zero, suc, ◌+◌, ◌≤◌, ◌<◌, Bool, true, false, not, ◌&&◌, ◌||◌, Option, none, some, List, [],
  ◌∷◌, ltb, leb, ◌==◌, ◌≡◌, ◌⊎◌, refl, inl, inr, if◌then◌else◌, length,
}
use libhfs.Errors.{Error, sentinel, callback_error, search_degraded, Result, ok, err, panic, ◌>>=◌}
use libhfs.Bytes.{Bytes, slice, field32}
use libhfs.Btree.Node.{
  BtreeNodeDescriptor, node_type_leaf, node_type_idx, parse_btree_node_descriptor,
  BtreeHeaderRecord, ordered_node_records, member,
}

pub record KeyOps (K : Type 0) : Type 0 where
  pub parse : Bytes → Result (K × ℕ)
  pub compare : K → K → Ordering

-- A node and its descriptor.
abbrev pub Node : Type 0
Node = Bytes × BtreeNodeDescriptor

-- `return errSearchDegraded`
abbrev pub degraded : {A : Type 0} → Result A
degraded = err (sentinel search_degraded)

-- An error of a step turns into errSearchDegraded.
abbrev pub or_degraded : {A : Type 0} → Result A → Result A
or_degraded (ok a) = ok a
or_degraded (err e) = degraded
or_degraded panic = panic

abbrev pub is_after : Ordering → Bool
is_after gt = true
is_after _ = false

abbrev pub is_before : Ordering → Bool
is_before lt = true
is_before _ = false

-- What a callback answers: whether to continue, or an error.
abbrev pub Visit : Type 0 → Type 0 → Type 0
Visit S K = S → K → Bytes → S × Result Bool

-- How a scan ends: the callback's state, and what scanFrom returns.
abbrev pub Scan : Type 0 → Type 0
Scan S = S × Result (Unit {0})

-- What the records of a node leave: the scan goes on with `started`, or it is over.
pub data Step (S : Type 0) : Type 0 where
  next : S → Bool → Step S
  over : S → Result (Unit {0}) → Step S

pub Step-cases :
    {S : Type 0} (m : Step S)
    → ((s : S) × (b : Bool) × (m ≡ next s b)) ⊎ ((s : S) × (r : Result (Unit {0})) × (m ≡ over s r))
Step-cases (next s b) = inl (s, b, refl)
Step-cases (over s r) = inr (s, r, refl)

-- The leftmost child is taken whatever its key; a later one only below or at the target.
abbrev pub choose : Option ℕ → Bool → (ℕ → Result (Option ℕ)) → Result ℕ → Result (Option ℕ)
choose none true later child = child >>= λ c. ok (some c)
choose none false later child = child >>= later
choose (some b) true later child = child >>= λ c. ok (some b)
choose (some b) false later child = child >>= later

module _ {K : Type 0} (node_at : ℕ → ℕ → Result Bytes) (header : BtreeHeaderRecord)
    (ops : KeyOps K) where
  unfoldable pub read_node : ℕ → Result Node
  read_node node_num = if leb header.total_nodes node_num then degraded else (do
    node ← or_degraded (node_at node_num header.node_size)
    desc ← or_degraded (parse_btree_node_descriptor node)
    ok (node, desc))

  unfoldable pub is_empty : Bool
  is_empty = header.root_node == 0 || header.leaf_records == 0

  -- The loop of descendIndex; `best` is the child to follow so far.
  unfoldable pub descend_from : K → Option ℕ → List Bytes → Result (Option ℕ)
  descend_from target best [] = ok best
  descend_from target best (rec ∷ recs) = do
    (k, consumed) ← or_degraded (ops.parse rec)
    let child = field32 rec consumed
    let past = is_after (ops.compare k target)
    let later : ℕ → Result (Option ℕ) = λ c. descend_from target (some c) recs
    if ltb (length rec) (consumed + 4) then degraded else choose best past later child

  unfoldable pub descend_index : Bytes → BtreeNodeDescriptor → K → Result ℕ
  descend_index buf desc target = do
    recs ← or_degraded (ordered_node_records buf desc)
    child ← descend_from target none recs
    elim child [ none ↦ degraded | some c ↦ ok c ]

  -- The loop of findLeaf: a round for each level that is left.
  unfoldable pub find_leaf_from : ℕ → List ℕ → K → ℕ → Result ℕ
  find_leaf_from zero visited target node = degraded
  find_leaf_from (suc rounds) visited target node =
      let later = find_leaf_from rounds (node ∷ visited) target in
      if member node visited then degraded else (do
        (buf, desc) ← read_node node
        (if desc.node_type == node_type_leaf
            then ok node
            else if desc.node_type == node_type_idx
            then (descend_index buf desc target >>= later)
            else degraded))

  unfoldable pub find_leaf : K → Result ℕ
  find_leaf target = find_leaf_from (header.depth + 5) [] target header.root_node

  unfoldable pub check_landing : ℕ → List Bytes → K → Result (Unit {0})
  check_landing leaf [] target = ok tt
  check_landing leaf (rec ∷ recs) target = do
    (k0, consumed) ← or_degraded (ops.parse rec)
    (if is_after (ops.compare k0 target) && not (leaf == header.first_leaf_node)
        then degraded
        else ok tt)

  module _ {S : Type 0} (cb : Visit S K) (target : K) where
    -- The call of the callback: its new state and its answer.
    abbrev pub deliver : S → K → Bytes → ℕ → S × Result Bool
    deliver s k rec consumed = elim (slice rec consumed (length rec)) [
      | ok payload ↦ cb s k payload
      | err e ↦ (s, err e)
      | panic ↦ (s, panic)
    ]

    -- The loop over the records of a leaf.
    unfoldable pub scan_records : S → Bool → List Bytes → Step S
    scan_records s started [] = next s started
    scan_records s started (rec ∷ recs) = elim (or_degraded (ops.parse rec)) [
      | err e ↦ over s (err e)
      | panic ↦ over s panic
      | ok (k, consumed) ↦
          let skip = scan_records s false recs in
          let (s', answer) = deliver s k rec consumed in
          let later = scan_records s' true recs in
          if ltb (length rec) consumed
          then over s degraded
          else if not started && is_before (ops.compare k target)
          then skip
          else elim answer [
            | err e ↦ over s' (err (callback_error e))
            | panic ↦ over s' panic
            | ok false ↦ over s' (ok tt)
            | ok true ↦ later
          ]
    ]

    -- The records of one leaf, after its checks; `first` is `firstLeaf`.
    unfoldable pub leaf_records : ℕ → Bool → Result (List Bytes × ℕ)
    leaf_records leaf first = do
      (buf, desc) ← read_node leaf
      let records = ordered_node_records buf desc
      (if not (desc.node_type == node_type_leaf) then degraded else (do
        recs ← or_degraded records
        _ ← (if first then check_landing leaf recs target else ok tt)
        ok (recs, desc.forward_link)))

    -- The loop over the leaf chain, on fuel: `none` means that the fuel ran out.
    unfoldable pub scan_leaves : ℕ → List ℕ → S → Bool → Bool → ℕ → Option (Scan S)
    scan_leaves zero visited s started first leaf = none
    scan_leaves (suc fuel) visited s started first leaf =
        if leaf == 0
        then some (s, ok tt)
        else if member leaf visited
        then some (s, degraded)
        else elim (leaf_records leaf first) [
          | err e ↦ some (s, err e)
          | panic ↦ some (s, panic)
          | ok (recs, link) ↦ elim (scan_records s started recs) [
            | over s' r ↦ some (s', r)
            | next s' started' ↦ scan_leaves fuel (leaf ∷ visited) s' started' false link
          ]
        ]

    unfoldable pub scan_from : S → Option (Scan S)
    scan_from s = if is_empty then some (s, ok tt) else elim (find_leaf target) [
      | err e ↦ some (s, err e)
      | panic ↦ some (s, panic)
      | ok leaf ↦ scan_leaves (suc header.total_nodes) [] s false true leaf
    ]
