-- ===== src/Btree/Order.antt =====
-- The key comparators of btree_search.go, as orders.
use Prim.Native.Nat.{Ordering, lt, eq, gt}
use libhfs.Prelude.{
  ℕ, ◌<◌, ◌⊎◌, ◌↔◌, ◌≡◌, ◌≢◌, refl, not, List, [], ◌∷◌, arith, ltb, ◌==◌, if◌then◌else◌,
}
use libhfs.Btree.Keys.{CatalogKey, ExtentsKey, AttributesKey}

-- A result below, at or above 0 is `lt`, `eq` or `gt`. Unequal words are ordered by `<`.
abbrev pub unequal : ℕ → ℕ → Ordering
unequal a b = if ltb a b then lt else gt

-- compareUTF16, and the order of Go strings.
unfoldable pub compare_utf16 : List ℕ → List ℕ → Ordering
compare_utf16 [] [] = eq
compare_utf16 [] (_ ∷ _) = lt
compare_utf16 (_ ∷ _) [] = gt
compare_utf16 (x ∷ xs) (y ∷ ys) =
    let rest = compare_utf16 xs ys in if not (x == y) then unequal x y else rest

unfoldable pub compare_catalog_keys : CatalogKey → CatalogKey → Ordering
compare_catalog_keys a b =
    if not (a.parent_cnid == b.parent_cnid)
    then unequal a.parent_cnid b.parent_cnid
    else compare_utf16 a.name_utf16 b.name_utf16

unfoldable pub compare_extents_keys : ExtentsKey → ExtentsKey → Ordering
compare_extents_keys a b =
    if not (a.file_id == b.file_id)
    then unequal a.file_id b.file_id
    else if not (a.fork_type == b.fork_type)
    then unequal a.fork_type b.fork_type
    else if not (a.start_block == b.start_block)
    then unequal a.start_block b.start_block
    else eq

-- Go compares the names as strings: first for equality, then by `<`.
unfoldable pub compare_attributes_keys : AttributesKey → AttributesKey → Ordering
compare_attributes_keys a b =
    if not (a.file_id == b.file_id)
    then unequal a.file_id b.file_id
    else elim (compare_utf16 a.name b.name) [
      | lt ↦ lt
      | gt ↦ gt
      | eq ↦
          if not (a.start_block == b.start_block) then unequal a.start_block b.start_block else eq
    ]

-- The opposite of a result.
abbrev pub flip : Ordering → Ordering
flip lt = gt
flip eq = eq
flip gt = lt

-- What a search needs of a comparator: swapping the keys flips the result, and `lt` and `eq` chain.
pub record IsTotal {K : Type 0} (cmp : K → K → Ordering) : Type 0 where
  pub same : (a : K) → cmp a a ≡ eq
  pub swaps : (a b : K) → cmp b a ≡ flip (cmp a b)
  pub chains : (a b c : K) → cmp a b ≡ lt → cmp b c ≢ gt → cmp a c ≡ lt
  pub replaces : (a b c : K) → cmp a b ≡ eq → cmp a c ≡ cmp b c

compare_utf16-same : (xs : List ℕ) → compare_utf16 xs xs ≡ eq
unfolding compare_utf16
compare_utf16-same [] = refl
compare_utf16-same (x ∷ xs) = ground (arith, compare_utf16-same xs)

compare_utf16-swaps : (xs ys : List ℕ) → compare_utf16 ys xs ≡ flip (compare_utf16 xs ys)
unfolding compare_utf16
compare_utf16-swaps [] [] = refl
compare_utf16-swaps [] (y ∷ ys) = refl
compare_utf16-swaps (x ∷ xs) [] = refl
compare_utf16-swaps (x ∷ xs) (y ∷ ys) = ground (arith, compare_utf16-swaps xs ys)

compare_utf16-eq : (xs ys : List ℕ) → compare_utf16 xs ys ≡ eq → xs ≡ ys
unfolding compare_utf16
compare_utf16-eq [] [] h = refl
compare_utf16-eq [] (y ∷ ys) h = cc
compare_utf16-eq (x ∷ xs) [] h = cc
compare_utf16-eq (x ∷ xs) (y ∷ ys) h = ground (arith, compare_utf16-eq xs ys)

compare_utf16-chains :
    (xs ys zs : List ℕ)
    → compare_utf16 xs ys ≡ lt
    → compare_utf16 ys zs ≢ gt
    → compare_utf16 xs zs ≡ lt
unfolding compare_utf16
compare_utf16-chains [] [] zs h k = cc
compare_utf16-chains [] (y ∷ ys) [] h k = absurd (k refl)
compare_utf16-chains [] (y ∷ ys) (z ∷ zs) h k = refl
compare_utf16-chains (x ∷ xs) [] zs h k = cc
compare_utf16-chains (x ∷ xs) (y ∷ ys) [] h k = absurd (k refl)
compare_utf16-chains (x ∷ xs) (y ∷ ys) (z ∷ zs) h k = ground (arith, compare_utf16-chains xs ys zs)

pub compare_catalog_keys-IsTotal : IsTotal compare_catalog_keys
unfolding compare_catalog_keys
compare_catalog_keys-IsTotal = record {
  same = λ a. ground (arith, compare_utf16-same a.name_utf16);
  swaps = λ a b. ground (arith, compare_utf16-swaps a.name_utf16 b.name_utf16);
  chains = λ a b c h k. ground (arith, compare_utf16-chains a.name_utf16 b.name_utf16 c.name_utf16);
  replaces = λ a b c h. ground (arith, compare_utf16-eq a.name_utf16 b.name_utf16);
}

pub compare_extents_keys-IsTotal : IsTotal compare_extents_keys
unfolding compare_extents_keys
compare_extents_keys-IsTotal = record {
  same = λ a. ground arith;
  swaps = λ a b. ground arith;
  chains = λ a b c h k. ground arith;
  replaces = λ a b c h. ground arith;
}

pub compare_attributes_keys-IsTotal : IsTotal compare_attributes_keys
unfolding compare_attributes_keys
compare_attributes_keys-IsTotal = record {
  same = λ a. ground (arith, compare_utf16-same a.name);
  swaps = λ a b. ground (arith, compare_utf16-swaps a.name b.name);
  chains = λ a b c h k. ground (
    arith,
    compare_utf16-chains a.name b.name c.name,
    compare_utf16-eq a.name b.name,
    compare_utf16-eq b.name c.name,
  );
  replaces = λ a b c h. ground (arith, compare_utf16-eq a.name b.name);
}

-- Lexicographic order, a list before its extensions.
abbrev pub IsBefore : List ℕ → List ℕ → Type 0
IsBefore xs [] = ⊥
IsBefore [] (y ∷ ys) = Unit
IsBefore (x ∷ xs) (y ∷ ys) = (x < y) ⊎ ((x ≡ y) × IsBefore xs ys)

-- A comparator that decides sameness and precedence of keys.
pub record IsOrder {K : Type 0} (Same Before : K → K → Type 0) (cmp : K → K → Ordering)
    : Type 0 where
  pub total : IsTotal cmp
  pub equal : (a b : K) → (cmp a b ≡ eq) ↔ Same a b
  pub below : (a b : K) → (cmp a b ≡ lt) ↔ Before a b

compare_utf16-below : (xs ys : List ℕ) → (compare_utf16 xs ys ≡ lt) ↔ IsBefore xs ys
unfolding compare_utf16
compare_utf16-below [] [] = ground arith
compare_utf16-below [] (y ∷ ys) = ((λ e. tt), λ h. refl)
compare_utf16-below (x ∷ xs) [] = ground arith
compare_utf16-below (x ∷ xs) (y ∷ ys) = ground (arith, compare_utf16-below xs ys)

compare_utf16-equal : (xs ys : List ℕ) → (compare_utf16 xs ys ≡ eq) ↔ (xs ≡ ys)
unfolding compare_utf16
compare_utf16-equal xs ys = (compare_utf16-eq xs ys, λ e. rw (e) (compare_utf16-same ys))

-- Catalog keys are the same if parent and name are, and go by the parent and then the name.
abbrev pub SameCatalogKey : CatalogKey → CatalogKey → Type 0
SameCatalogKey a b = (a.parent_cnid ≡ b.parent_cnid) × (a.name_utf16 ≡ b.name_utf16)

abbrev pub CatalogKeyBefore : CatalogKey → CatalogKey → Type 0
CatalogKeyBefore a b =
    (a.parent_cnid < b.parent_cnid)
    ⊎ ((a.parent_cnid ≡ b.parent_cnid) × IsBefore a.name_utf16 b.name_utf16)

-- Extents keys go by file, fork type and start block.
abbrev pub SameExtentsKey : ExtentsKey → ExtentsKey → Type 0
SameExtentsKey a b =
    (a.file_id ≡ b.file_id) × (a.fork_type ≡ b.fork_type) × (a.start_block ≡ b.start_block)

abbrev pub ExtentsKeyBefore : ExtentsKey → ExtentsKey → Type 0
ExtentsKeyBefore a b =
    (a.file_id < b.file_id)
    ⊎ ((a.file_id ≡ b.file_id)
        × ((a.fork_type < b.fork_type)
            ⊎ ((a.fork_type ≡ b.fork_type) × (a.start_block < b.start_block))))

-- Attribute keys go by file, name and start block.
abbrev pub SameAttributesKey : AttributesKey → AttributesKey → Type 0
SameAttributesKey a b =
    (a.file_id ≡ b.file_id) × (a.name ≡ b.name) × (a.start_block ≡ b.start_block)

abbrev pub AttributesKeyBefore : AttributesKey → AttributesKey → Type 0
AttributesKeyBefore a b =
    (a.file_id < b.file_id)
    ⊎ ((a.file_id ≡ b.file_id)
        × (IsBefore a.name b.name ⊎ ((a.name ≡ b.name) × (a.start_block < b.start_block))))

compare_catalog_keys-IsOrder : IsOrder SameCatalogKey CatalogKeyBefore compare_catalog_keys
unfolding compare_catalog_keys
compare_catalog_keys-IsOrder = record {
  total = compare_catalog_keys-IsTotal;
  equal = λ a b. ground (arith, compare_utf16-equal a.name_utf16 b.name_utf16);
  below = λ a b. ground (arith, compare_utf16-below a.name_utf16 b.name_utf16);
}

compare_extents_keys-IsOrder : IsOrder SameExtentsKey ExtentsKeyBefore compare_extents_keys
unfolding compare_extents_keys
compare_extents_keys-IsOrder = record {
  total = compare_extents_keys-IsTotal;
  equal = λ a b. ground arith;
  below = λ a b. ground arith;
}

compare_attributes_keys-IsOrder :
    IsOrder SameAttributesKey AttributesKeyBefore compare_attributes_keys
unfolding compare_attributes_keys
compare_attributes_keys-IsOrder = record {
  total = compare_attributes_keys-IsTotal;
  equal = λ a b. ground (arith, compare_utf16-equal a.name b.name);
  below =
      λ a b. ground (arith, compare_utf16-below a.name b.name, compare_utf16-equal a.name b.name);
}

-- The comparators of catalog keys, of extents-overflow keys and of attribute keys are total orders:
-- a key compares as equal exactly to those with its fields (parent and name; file, fork type and
-- start block; file, name and start block), and as below exactly those that come after it by these
-- fields in this order, names by their units; a swap flips the result, and results chain.
compare_keys-IsOrder :
    IsOrder SameCatalogKey CatalogKeyBefore compare_catalog_keys
    × IsOrder SameExtentsKey ExtentsKeyBefore compare_extents_keys
    × IsOrder SameAttributesKey AttributesKeyBefore compare_attributes_keys
compare_keys-IsOrder =
    (compare_catalog_keys-IsOrder, compare_extents_keys-IsOrder, compare_attributes_keys-IsOrder)
