-- ===== src/Paths.antt =====
-- paths.go, with PathForCNID of catalog.go: paths by climbing thread records, and the memo of
-- directory paths that a walk keeps. A path is a Go string, as its bytes.
pub mod Chains
pub mod Memo
pub mod Climb
use libhfs.Prelude.{
  ℕ, zero, suc, ◌+◌, ◌^◌, not, ◌||◌, Option, none, some, List, [], ◌∷◌, ◌++◌, ltb, ◌==◌,
  if◌then◌else◌,
}
use mathlib.Core.List.{reverse}
use libhfs.Errors.{Error, sentinel, parse_error, is, not_found, corrupt, Result, ok, err, panic}
use libhfs.Bytes.{Bytes}
use libhfs.Anomalies.{note_decode_failure}
use libhfs.Cache.{Cache, update, evict_from, lookup}
use libhfs.Btree.Keys.{CatalogKey}
use libhfs.Btree.Node.{member}
use libhfs.Btree.Search.{Scan}
use libhfs.Btree.Leaves.{LeafCallback}
use libhfs.Catalog.{CatalogRecord}
use libhfs.Catalog.Session.{Catalog, Session, Action, ◌>>=◌, decode, noted, same_cnid}
use libhfs.Catalog.Lookup.{is_node, find_thread_record, lookup_cnid_raw}
use libhfs.Catalog.Links.{same_text}
use libhfs.Catalog.Hydrate.{open_cnid}
use libhfs.Catalog.Dirs.{end_scan, is_folder, collected}

-- pathMemoEntry: a path, or the error that resolving it gave.
pub data PathMemoEntry : Type 0 where
  known : Bytes → PathMemoEntry
  broken : Error → PathMemoEntry

-- pathMemo: `bound` is its `max`, `held` its `entries`.
abbrev pub PathMemo : Type 0
PathMemo = Cache ℕ PathMemoEntry

unfoldable pub new_path_memo : ℕ → PathMemo
new_path_memo max = record { bound = if max == 0 then 1 else max; held = λ _. none; order = [] }

abbrev pub with_key : Option PathMemoEntry → List ℕ → ℕ → List ℕ
with_key (some e) order cnid = order
with_key none order cnid = order ++ (cnid ∷ [])

-- put: the oldest entries go while there are too many.
unfoldable pub put : ℕ → PathMemoEntry → PathMemo → PathMemo
put cnid e m =
    evict_from same_cnid (λ n. ltb m.bound n) m.bound (update same_cnid m.held cnid (some e))
      (with_key (m.held cnid) m.order cnid)

-- A memo that may be nil.
abbrev pub get_if : Option PathMemo → ℕ → Option PathMemoEntry
get_if none cnid = none
get_if (some m) cnid = lookup m cnid

abbrev pub put_if : ℕ → PathMemoEntry → Option PathMemo → Option PathMemo
put_if cnid e none = none
put_if cnid e (some m) = some (put cnid e m)

-- A node on the way up and its name.
abbrev pub Hop : Type 0
Hop = ℕ × Bytes

-- The names from the highest node down to the lowest, which are memoised on the way.
unfoldable pub descend : Bytes → List Hop → Option PathMemo → Option PathMemo × Bytes
descend path [] memo = (memo, path)
descend path ((cnid, name) ∷ hops) memo =
    descend (path ++ (47 ∷ name)) hops (put_if cnid (known (path ++ (47 ∷ name))) memo)

-- failPath, on the nodes in the order in which they were climbed.
unfoldable pub put_broken : Error → List Hop → Option PathMemo → Option PathMemo
put_broken e [] memo = memo
put_broken e ((cnid, name) ∷ hops) memo = put_broken e hops (put_if cnid (broken e) memo)

unfoldable pub fail_path : ℕ → List Hop → Option PathMemo → Error → Option PathMemo
fail_path cnid hops memo e = put_broken e (reverse hops) (put_if cnid (broken e) memo)

-- What a climb gives: the session and the memo that it leaves, and a path.
abbrev pub Climb : Type 0
Climb = Session × Option PathMemo × Result Bytes

abbrev pub path_corrupt : ℕ → Error
path_corrupt cur = parse_error "path_for_cnid" cur (sentinel corrupt)

module _ (c : Catalog) where
  abbrev pub name_and_parent : CatalogRecord → Bytes × ℕ
  name_and_parent r = (r.name, r.parent_cnid)

  -- A record that stands in for a thread that is missing.
  abbrev pub instead : Error → Session × Result CatalogRecord → Session × Result (Bytes × ℕ)
  instead e (s, ok r) = (s, if same_text r.name [] then err e else ok (name_and_parent r))
  instead e (s, err _) = (s, err e)
  instead e (s, panic) = (s, panic)

  -- The thread of `cur`; only the node that the climb starts from may go without one.
  abbrev pub or_instead : ℕ → ℕ → Session × Result CatalogRecord → Session × Result (Bytes × ℕ)
  or_instead cnid cur (s, ok r) = (s, ok (name_and_parent r))
  or_instead cnid cur (s, panic) = (s, panic)
  or_instead cnid cur (s, err e) =
      if not (cur == cnid) || not (is e not_found)
      then (s, err e)
      else instead e (lookup_cnid_raw c cur s)

  unfoldable pub hop_from : ℕ → ℕ → Action (Bytes × ℕ)
  hop_from cnid cur s = or_instead cnid cur (find_thread_record c cur s)

  abbrev pub arrive : Session → Option PathMemo × Bytes → Climb
  arrive s (memo, path) = (s, memo, ok path)

  abbrev pub give_up : ℕ → List Hop → Option PathMemo → Session → Error → Climb
  give_up cnid hops memo s e = (s, fail_path cnid hops memo e, err e)

  -- How a climb goes on from the thread of a node.
  abbrev pub after_hop :
      Session × Result (Bytes × ℕ)
      → (Session → Error → Climb)
      → (Session → Bytes → ℕ → Climb)
      → (Session → Climb)
      → (Session → Climb)
      → Climb
  after_hop (s, ok (name, parent)) failed climbed stuck nameless =
      if same_text name [] then nameless s else climbed s name parent
  after_hop (s, err e) failed climbed stuck nameless = failed s e
  after_hop (s, panic) failed climbed stuck nameless = stuck s

  -- The loop of pathUp, of at most so many rounds (see Paths.Climb); the last node climbed is the
  -- first of `hops`.
  unfoldable pub climb : ℕ → List ℕ → List Hop → ℕ → ℕ → Option PathMemo → Session → Climb
  climb zero visited hops cnid cur memo s = (s, memo, panic)
  climb (suc rounds) visited hops cnid cur memo s =
      if cur == 2 then arrive s (descend [] hops memo) else elim (get_if memo cur) [
        | some (broken e) ↦ give_up cnid hops memo s e
        | some (known path) ↦ arrive s (descend path hops memo)
        | none ↦
            if member cur visited
            then give_up cnid hops memo s (path_corrupt cur)
            else after_hop (hop_from cnid cur s) (λ s' e. give_up cnid hops memo s' e)
                (λ s' name parent.
                  climb rounds (cur ∷ visited) ((cur, name) ∷ hops) cnid parent memo s')
                (λ s'. (s', memo, panic)) (λ s'. give_up cnid hops memo s' (path_corrupt cur))
      ]

  -- Room for every uint32, and one round more.
  unfoldable pub rounds : ℕ
  rounds = 2 ^ 32 + 1

  abbrev pub answer : Option PathMemo → Session → PathMemoEntry → Climb
  answer memo s (known path) = (s, memo, ok path)
  answer memo s (broken e) = (s, memo, err e)

  unfoldable pub path_up : ℕ → Option PathMemo → Session → Climb
  path_up cnid memo s = if cnid == 2 then (s, memo, ok (47 ∷ [])) else elim (get_if memo cnid) [
    | some e ↦ answer memo s e
    | none ↦ climb rounds [] [] cnid cnid memo s
  ]

  abbrev pub climb_without_memo : ℕ → Action Bytes
  climb_without_memo cnid s = let (s', memo, r) = path_up cnid none s in (s', r)

  unfoldable pub path_for_cnid : ℕ → Action Bytes
  path_for_cnid cnid s =
      if cnid == 2 then (s, ok (47 ∷ [])) else (open_cnid c cnid >>= λ r. climb_without_memo cnid) s

  -- dirPath, with what to do with its path and without one.
  unfoldable pub dir_path :
      {A : Type 0}
      → ℕ
      → Option PathMemo
      → Session
      → (Session → Option PathMemo → Bytes → A)
      → (Session → Option PathMemo → A)
      → (Session → A)
      → A
  dir_path cnid memo s found missing stuck =
      if cnid == 2
      then found s memo []
      else (let (s', memo', r) = path_up cnid memo s in
          elim r [ ok path ↦ found s' memo' path | err e ↦ missing s' memo' | panic ↦ stuck s' ])

  -- The state of the callback of WalkPaths: the session, the memo and the caller's.
  abbrev pub PathWalk : Type 0 → Type 0
  PathWalk U = Session × (Option PathMemo × U)

  abbrev pub PathCallback : Type 0 → Type 0
  PathCallback U = U → Bytes → CatalogRecord → U × Result (Unit {0})

  abbrev pub with_memo :
      {U : Type 0} → Session → Option PathMemo → U × Result (Unit {0}) → Scan (PathWalk U)
  with_memo s memo (u, r) = ((s, (memo, u)), r)

  abbrev pub put_folder : CatalogRecord → Bytes → Option PathMemo → Option PathMemo
  put_folder r path memo = if is_folder r then put_if r.cnid (known path) memo else memo

  unfoldable pub pass_path : {U : Type 0} → PathCallback U → LeafCallback (PathWalk U) CatalogKey
  pass_path cb (s, (memo, u)) key payload = elim (decode c key payload) [
    | err e ↦ (
      (record s { log = note_decode_failure "catalog_decode" key.parent_cnid s.log }, (memo, u)),
      ok tt,
    )
    | panic ↦ ((s, (memo, u)), panic)
    | ok r ↦
        if not (is_node r)
        then ((s, (memo, u)), ok tt)
        else if r.cnid == 2
        then with_memo s memo (cb u (47 ∷ []) r)
        else if same_text r.name []
        then ((s, (memo, u)), ok tt)
        else dir_path r.parent_cnid memo s
            (λ s' memo' base.
              with_memo s' (put_folder r (base ++ (47 ∷ r.name)) memo')
                (cb u (base ++ (47 ∷ r.name)) r))
            (λ s' memo'.
              with_memo
                (noted "walk_path" r.parent_cnid "record's parent chain does not reach the root" s')
                memo' (cb u [] r))
            (λ s'. ((s', (memo, u)), panic))
  ]

  abbrev pub walk_path_memo_max : ℕ
  walk_path_memo_max = 8192

  abbrev pub without_memo : {U : Type 0} → Scan (PathWalk U) → Scan (Session × U)
  without_memo ((s, (memo, u)), r) = ((s, u), r)

  unfoldable pub walk_paths : {U : Type 0} → PathCallback U → Session × U → Scan (Session × U)
  walk_paths {U} cb (s, u) =
      let memo = put 2 (known []) (new_path_memo walk_path_memo_max) in
      without_memo
        (end_scan (c.leaf_chain (PathWalk U) (λ x. x) (pass_path cb) (s, (some memo, u))))

  -- PathRecords; a PathRecord is a path with its record.
  unfoldable pub path_records : Action (List (Bytes × CatalogRecord))
  path_records s = collected c (walk_paths (λ out path r. (out ++ ((path, r) ∷ []), ok tt)) (s, []))
