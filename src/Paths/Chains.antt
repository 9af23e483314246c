-- ===== src/Paths/Chains.antt =====
-- Chains of thread records up to the root folder, as pathUp of paths.go climbs them.
use libhfs.Prelude.{
  ℕ, zero, suc, ◌<◌, ◌≡◌, ◌≢◌, refl, sym, ◌∙◌, ap, true, false, Bool-cases, inl, inr, List, [], ◌∷◌,
  ◌++◌, map, arith, ◌==◌, ==_iff,
}
use libhfs.Errors.{Result, ok}
use libhfs.Bytes.{Bytes}
use libhfs.Btree.Node.{member}
use libhfs.Catalog.{CatalogRecord}
use libhfs.Catalog.Links.{same_text}
use libhfs.Paths.{Hop}

module _ (thread : ℕ → Result CatalogRecord) where
  -- The node has a thread with a name, which leads from the parent's path to its own.
  pub record IsBelow (At : ℕ → Bytes → Type 0) (n : ℕ) (p : Bytes) : Type 0 where
    pub not_root : n ≢ 2
    pub link : CatalogRecord
    pub found : thread n ≡ ok link
    pub named : same_text link.name [] ≡ false
    pub base : Bytes
    pub above : At link.parent_cnid base
    pub joined : p ≡ base ++ (47 ∷ link.name)

  -- The node is so many threads below the root, and the names of the threads make the path.
  abbrev pub IsAtDepth : ℕ → ℕ → Bytes → Type 0
  IsAtDepth zero n p = (n ≡ 2) × (p ≡ [])
  IsAtDepth (suc k) n p = IsBelow (IsAtDepth k) n p

  -- The threads from the node on reach the root, and their names make the path.
  abbrev pub HasPath : ℕ → Bytes → Type 0
  HasPath n p = (k : ℕ) × IsAtDepth k n p

  abbrev pub IsOrphan : ℕ → Type 0
  IsOrphan n = (k : ℕ) (p : Bytes) → ¬ (IsAtDepth k n p)

  ok-injective : {a b : CatalogRecord} → Result.ok a ≡ ok b → a ≡ b
  ok-injective h = cc

  -- A node is at one depth and has one path.
  pub depth_unique :
      (k j n : ℕ) (p q : Bytes) → IsAtDepth k n p → IsAtDepth j n q → (k ≡ j) × (p ≡ q)
  depth_unique zero zero n p q (a, b) (c, e) = (refl, b ∙ sym e)
  depth_unique zero (suc j) n p q (a, b) h = absurd (h.not_root a)
  depth_unique (suc k) zero n p q h (a, b) = absurd (h.not_root a)
  depth_unique (suc k) (suc j) n p q h i =
      let e : h.link ≡ i.link = ok-injective (sym h.found ∙ i.found) in
      let above : IsAtDepth k i.link.parent_cnid h.base = rw (sym e) h.above in
      let (same, bases) = depth_unique k j i.link.parent_cnid h.base i.base above i.above in
      (ap suc same, rw (h.joined, i.joined, e, bases) refl)

  -- The thread of `n` has this name and leads to `parent`.
  pub record IsHop (n : ℕ) (name : Bytes) (parent : ℕ) : Type 0 where
    pub not_root : n ≢ 2
    pub link : CatalogRecord
    pub found : thread n ≡ ok link
    pub named : same_text link.name [] ≡ false
    pub name_of : name ≡ link.name
    pub parent_of : parent ≡ link.parent_cnid

  pub hop_up :
      (k n parent : ℕ) (name p : Bytes)
      → IsHop n name parent
      → IsAtDepth k parent p
      → IsAtDepth (suc k) n (p ++ (47 ∷ name))
  hop_up k n parent name p h up = record {
    not_root = h.not_root;
    link = h.link;
    found = h.found;
    named = h.named;
    base = p;
    above = rw (sym h.parent_of) up;
    joined = rw (h.name_of) refl;
  }

  pub hop_down : (n parent : ℕ) (name : Bytes) → IsHop n name parent → IsOrphan parent → IsOrphan n
  hop_down n parent name h orphan zero p (a, b) = h.not_root a
  hop_down n parent name h orphan (suc k) p i =
      let e : i.link ≡ h.link = ok-injective (sym i.found ∙ h.found) in
      orphan k i.base (rw (h.parent_of, sym e) i.above)

  -- The hops of a climb from `cnid`, the last one first, up to `cur`.
  abbrev pub AreHops : ℕ → List Hop → ℕ → Type 0
  AreHops cnid [] cur = cur ≡ cnid
  AreHops cnid ((n, name) ∷ hops) cur = IsHop n name cur × AreHops cnid hops n

  abbrev pub climbed : List Hop → List ℕ
  climbed hops = map (λ h. h.0) hops

  deeper :
      (cnid : ℕ) (hops : List Hop) (cur x k : ℕ) (p : Bytes)
      → AreHops cnid hops cur
      → IsAtDepth k cur p
      → member x (climbed hops) ≡ true
      → (j : ℕ) × (q : Bytes) × (k < j) × IsAtDepth j x q
  deeper cnid [] cur x k p l h m = absurd (false-ne-true m)
    where
      false-ne-true : false ≢ true
      false-ne-true e = cc
  deeper cnid ((n, name) ∷ hops) cur x k p (hop, l) h m =
      let up = hop_up k n cur name p hop h in
      elim (Bool-cases (x == n)) [
        | inl q ↦
            let e : x ≡ n = (==_iff x n).0 q in (suc k, p ++ (47 ∷ name), omega arith, rw (e) up)
        | inr q ↦
            let (j, p', less, at) =
              deeper cnid hops n x (suc k) (p ++ (47 ∷ name)) l up (rw (q) at m) in
            (j, p', omega (arith, less), at)
      ]

  -- A climb that comes back to one of its nodes has left a node without a path.
  pub cycle-IsOrphan :
      (cnid : ℕ) (hops : List Hop) (cur : ℕ)
      → AreHops cnid hops cur
      → member cur (climbed hops) ≡ true
      → IsOrphan cur
  cycle-IsOrphan cnid hops cur l m k p h =
      let (j, q, less, at) = deeper cnid hops cur cur k p l h m in
      let same = (depth_unique k j cur p q h at).0 in omega (arith, less, same)

  -- A node whose thread cannot be read, or has no name, has no path.
  pub lost-IsOrphan :
      (n : ℕ)
      → n ≢ 2
      → ((r : CatalogRecord) → thread n ≡ ok r → same_text r.name [] ≡ true)
      → IsOrphan n
  lost-IsOrphan n root lost zero p (a, b) = root a
  lost-IsOrphan n root lost (suc k) p h = true-ne-false (sym (lost h.link h.found) ∙ h.named)
    where
      true-ne-false : true ≢ false
      true-ne-false e = cc
