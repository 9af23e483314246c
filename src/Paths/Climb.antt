-- ===== src/Paths/Climb.antt =====
-- pathUp of paths.go: the climb by thread records, with a memo or without.
use libhfs.Prelude.{
  ℕ, zero, suc, ◌^◌, ◌<◌, ◌≡◌, ◌≢◌, ◌↔◌, refl, sym, ◌∙◌, ap, true, false, Bool-cases, inl, inr,
  Option, List, [], ◌∷◌, ◌&&◌, arith, not, ◌||◌, ◌==◌, ==_iff, Option-cases,
}
use libhfs.Errors.{Error, is, not_found, Result, ok, err, panic}
use libhfs.Bytes.{Bytes}
use libhfs.Btree.Node.{member}
use libhfs.Btree.Search.Fuel.{unvisited, unvisited-le, visit-lt}
use libhfs.Btree.Walks.Delivery.{Delivers}
use libhfs.Catalog.{CatalogRecord}
use libhfs.Catalog.Session.{Catalog, Session}
use libhfs.Catalog.Lookup.{is_thread, find_thread_record}
use libhfs.Catalog.Lookup.Choice.{answer as lookup_answer, seek_child-answer}
use libhfs.Catalog.Links.{same_text}
use libhfs.Paths.{
  PathMemo, known, broken, Hop, get_if, descend, Climb, path_corrupt, or_instead, hop_from, arrive,
  give_up, after_hop, climb, rounds, path_up,
}
use libhfs.Paths.Chains.{
  HasPath, IsOrphan, IsAtDepth, AreHops, IsHop, climbed, cycle-IsOrphan, lost-IsOrphan,
  depth_unique,
}
use libhfs.Paths.Memo.{IsSound, descend-HasPath, fail_path-IsOrphan}

module _ (c : Catalog) (d : (n : ℕ) → Delivers (c.children n)) where
  -- The thread record of a node, as findThreadRecord looks it up.
  abbrev pub thread_of : ℕ → Result CatalogRecord
  thread_of n = lookup_answer c (λ r. is_thread r && r.thread_cnid == n) (λ r. false) (d n).trace

  found-thread_of : (n : ℕ) (s : Session) → (find_thread_record c n s).1 ≡ thread_of n
  unfolding find_thread_record
  found-thread_of n s =
      seek_child-answer c (λ r. is_thread r && r.thread_cnid == n) (λ r. false) n (d n) s

  -- What a climb for `cnid` may give: its path, or an error if it has none.
  abbrev IsResult : ℕ → Result Bytes → Type 0
  IsResult cnid (ok p) = HasPath thread_of cnid p
  IsResult cnid (err e) = IsOrphan thread_of cnid
  IsResult cnid panic = ⊥

  abbrev IsClimb : ℕ → Climb → Type 0
  IsClimb cnid (s, memo, r) = IsResult cnid r × IsSound thread_of memo

  module _ (cnid bound : ℕ) (reads : (n : ℕ) → thread_of n ≢ panic)
      (words : (n : ℕ) (r : CatalogRecord) → thread_of n ≡ ok r → r.parent_cnid < bound)
      (attached : (e : Error) → thread_of cnid ≡ err e → is e not_found ≡ false) where
    arrive-IsClimb :
        (hops : List Hop) (cur k : ℕ) (p : Bytes) (memo : Option PathMemo) (s : Session)
        → AreHops thread_of cnid hops cur
        → IsAtDepth thread_of k cur p
        → IsSound thread_of memo
        → IsClimb cnid (arrive c s (descend p hops memo))
    arrive-IsClimb hops cur k p memo s l h sound =
        descend-HasPath thread_of cnid hops cur k p memo l h sound

    give_up-IsClimb :
        (hops : List Hop) (cur : ℕ) (memo : Option PathMemo) (s : Session) (e : Error)
        → AreHops thread_of cnid hops cur
        → IsOrphan thread_of cur
        → IsSound thread_of memo
        → IsClimb cnid (give_up c cnid hops memo s e)
    give_up-IsClimb hops cur memo s e l o sound =
        fail_path-IsOrphan thread_of cnid hops cur memo e l o sound

    -- A hop from a node that is not the root, from what its lookup gives.
    after_hop-IsClimb :
        (hops : List Hop) (cur : ℕ) (memo : Option PathMemo) (next : Session → Bytes → ℕ → Climb)
        (x : Session × Result CatalogRecord)
        → cur ≢ 2
        → x.1 ≡ thread_of cur
        → AreHops thread_of cnid hops cur
        → IsSound thread_of memo
        → ((s : Session) (name : Bytes) (parent : ℕ)
            → IsHop thread_of cur name parent
            → parent < bound
            → IsClimb cnid (next s name parent))
        → IsClimb cnid (
            after_hop c
              (or_instead c cnid cur x)
              (λ s e. give_up c cnid hops memo s e)
              next
              (λ s. (s, memo, panic))
              (λ s. give_up c cnid hops memo s (path_corrupt cur)))
    after_hop-IsClimb hops cur memo next (s, panic) root found l sound go =
        absurd (reads cur (sym found))
    after_hop-IsClimb hops cur memo next (s, err e) root found l sound go =
        let lost : IsOrphan thread_of cur =
          lost-IsOrphan thread_of cur root (λ r h. absurd (err-ne-ok e r (found ∙ h))) in
        rw (or_instead, stays e found) (give_up-IsClimb hops cur memo s e l lost sound)
      where
        err-ne-ok : (e : Error) (r : CatalogRecord) → Result.err e ≢ ok r
        err-ne-ok e r h = cc

        stays :
            (e : Error) → err e ≡ thread_of cur → (not (cur == cnid) || not (is e not_found)) ≡ true
        stays e found = elim (Bool-cases (cur == cnid)) [
          | inr q ↦ rw (q) refl
          | inl q ↦
              let same : cur ≡ cnid = (==_iff cur cnid).0 q in
              let known_error : is e not_found ≡ false = attached e (rw (sym same) (sym found)) in
              rw (known_error) (ground arith)
        ]
    after_hop-IsClimb hops cur memo next (s, ok r) root found l sound go =
        elim (Bool-cases (same_text r.name [])) [
          | inl q ↦
              let lost : IsOrphan thread_of cur =
                lost-IsOrphan thread_of cur root (λ r' h. rw (sym (ok-injective (found ∙ h))) q) in
              rw (after_hop, q) (give_up-IsClimb hops cur memo s (path_corrupt cur) l lost sound)
          | inr q ↦
              rw (after_hop, q)
                (go s r.name r.parent_cnid
                  (record {
                    not_root = root;
                    link = r;
                    found = sym found;
                    named = q;
                    name_of = refl;
                    parent_of = refl;
                  })
                  (words cur r (sym found)))
        ]
      where
        ok-injective : {a b : CatalogRecord} → Result.ok a ≡ ok b → a ≡ b
        ok-injective h = cc

    climb-IsClimb :
        (r : ℕ) (hops : List Hop) (cur : ℕ) (memo : Option PathMemo) (s : Session)
        → AreHops thread_of cnid hops cur
        → cur < bound
        → IsSound thread_of memo
        → unvisited bound (climbed thread_of hops) < r
        → IsClimb cnid (climb c r (climbed thread_of hops) hops cnid cur memo s)
    unfolding climb hop_from
    climb-IsClimb zero hops cur memo s l word sound room = absurd (omega (arith, room))
    climb-IsClimb (suc r) hops cur memo s l word sound room = elim (Bool-cases (cur == 2)) [
      | inl q ↦
          rw (climb, q) (arrive-IsClimb hops cur 0 [] memo s l ((==_iff cur 2).0 q, refl) sound)
      | inr q ↦ elim (Option-cases (get_if memo cur)) [
        | inr (known p, m) ↦
            let (k, h) = sound cur (known p) m in
            rw (climb, q, m) (arrive-IsClimb hops cur k p memo s l h sound)
        | inr (broken e, m) ↦
            rw (climb, q, m) (give_up-IsClimb hops cur memo s e l (sound cur (broken e) m) sound)
        | inl m ↦ elim (Bool-cases (member cur (climbed thread_of hops))) [
          | inl v ↦
              rw (climb, q, m, v)
                (give_up-IsClimb hops cur memo s (path_corrupt cur) l
                  (cycle-IsOrphan thread_of cnid hops cur l v) sound)
          | inr v ↦
              rw (climb, q, m, v)
                (after_hop-IsClimb hops cur memo
                  (λ s' name parent.
                    climb c r (cur ∷ climbed thread_of hops) ((cur, name) ∷ hops) cnid parent memo
                      s')
                  (find_thread_record c cur s) (ground (arith, q)) (found-thread_of cur s) l sound
                  (λ s' name parent hop below.
                    climb-IsClimb r ((cur, name) ∷ hops) parent memo s' (hop, l) below sound
                      (omega (arith, room, visit-lt bound cur (climbed thread_of hops) v word))))
        ]
      ]
    ]

    start-IsClimb :
        (r : ℕ) (memo : Option PathMemo) (s : Session)
        → bound < r
        → cnid < bound
        → IsSound thread_of memo
        → IsClimb cnid (climb c r [] [] cnid cnid memo s)
    start-IsClimb r memo s room word sound =
        climb-IsClimb r [] cnid memo s refl word sound (omega (arith, room, unvisited-le bound []))

    path_up-IsClimb :
        (memo : Option PathMemo) (s : Session)
        → bound < rounds c
        → cnid ≢ 2
        → cnid < bound
        → IsSound thread_of memo
        → IsClimb cnid (path_up c cnid memo s)
    unfolding path_up
    path_up-IsClimb memo s room root word sound =
        let q : (cnid == 2) ≡ false = ground (arith, root) in
        elim (Option-cases (get_if memo cnid)) [
          | inr (known p, m) ↦ rw (path_up, q, m) (sound cnid (known p) m, sound)
          | inr (broken e, m) ↦ rw (path_up, q, m) (sound cnid (broken e) m, sound)
          | inl m ↦ rw (path_up, q, m) (start-IsClimb (rounds c) memo s room word sound)
        ]

  -- What a climb gives is the path of its node, if it has one.
  abbrev pub Gives : ℕ → Climb → Bytes → Type 0
  Gives cnid (s, memo, r) p =
      ((r ≡ ok p) ↔ HasPath thread_of cnid p) × (r ≢ panic) × IsSound thread_of memo

  IsClimb-Gives : (cnid : ℕ) (x : Climb) (p : Bytes) → IsClimb cnid x → Gives cnid x p
  IsClimb-Gives cnid (s, memo, panic) p (h, sound) = absurd h
  IsClimb-Gives cnid (s, memo, err e) p (h, sound) =
      (((λ q. absurd (err-ne-ok q)), λ (k, at). absurd (h k p at)), (λ q. cc), sound)
    where
      err-ne-ok : Result.err e ≢ ok p
      err-ne-ok q = cc
  IsClimb-Gives cnid (s, memo, ok p') p ((k, h), sound) = (
    (
      (λ q. (k, rw (sym (ok-injective q)) h)),
      λ (j, at). ap (λ x. ok x) (depth_unique thread_of k j cnid p' p h at).1,
    ),
    (λ q. cc),
    sound,
  )
    where
      ok-injective : {a b : Bytes} → Result.ok a ≡ ok b → a ≡ b
      ok-injective q = cc

  -- On a catalog whose walks go through fixed sequences of records, whose threads are looked up
  -- without a panic and lead to uint32 parents, and for a uint32 CNID that is not the root's and
  -- whose own thread is not missing: whatever the session holds, and with a memo that is nil or
  -- holds only paths of their nodes and errors of nodes without a path, pathUp returns a path
  -- exactly if the threads from the node on reach the root and their names make that path, returns
  -- without a panic (an error otherwise, for a cycle as well), and leaves such a memo again.
  pub path_up-HasPath :
      (cnid : ℕ) (memo : Option PathMemo) (s : Session) (p : Bytes)
      → ((n : ℕ) → thread_of n ≢ panic)
      → ((n : ℕ) (r : CatalogRecord) → thread_of n ≡ ok r → r.parent_cnid < 2 ^ 32)
      → ((e : Error) → thread_of cnid ≡ err e → is e not_found ≡ false)
      → cnid ≢ 2
      → cnid < 2 ^ 32
      → IsSound thread_of memo
      → Gives cnid (path_up c cnid memo s) p
  unfolding rounds
  path_up-HasPath cnid memo s p reads words attached root word sound =
      IsClimb-Gives cnid (path_up c cnid memo s) p
        (path_up-IsClimb cnid (2 ^ 32) reads words attached memo s (omega arith) root word sound)
