-- ===== src/Cache.antt =====
-- cache.go: the caches of B-tree nodes and of catalog records, which evict in insertion order. A method runs as one step, since it holds the volume's lock.
pub mod Queue
use libhfs.Prelude.{
  ℕ, suc, ◌+◌, ◌≤◌, ◌<◌, Bool, true, false, ◌&&◌, ◌||◌, Option, none, some, List, [], ◌∷◌, ◌++◌,
  String, ltb, leb, ◌==◌, if◌then◌else◌, length, is_neg64,
}
use libhfs.Bytes.{Bytes}

pub record NodeCacheKey : Type 0 where
  pub tree : ℕ
  pub num : ℕ

abbrev pub same_key : NodeCacheKey → NodeCacheKey → Bool
same_key a b = a.tree == b.tree && a.num == b.num

-- The fields of one cache: its bound, its map (a nil map holds nothing) and its keys in the order
-- in which they were put.
pub record Cache (K V : Type 0) : Type 0 where
  pub bound : ℕ
  pub held : K → Option V
  pub order : List K

module _ {K V : Type 0} (same : K → K → Bool) where
  -- `m[k] = v` and `delete(m, k)`
  abbrev pub update : (K → Option V) → K → Option V → K → Option V
  update m k o x = if same x k then o else m x

  -- evictOldestNodeLocked and evictOldestLocked, while the number of keys is `over`: a round for
  -- each key that is there.
  unfoldable pub evict_from : (ℕ → Bool) → ℕ → (K → Option V) → List K → Cache K V
  evict_from over b m [] = record { bound = b; held = m; order = [] }
  evict_from over b m (k ∷ ks) =
      let c : Cache K V = record { bound = b; held = m; order = k ∷ ks } in
      let next = evict_from over b (update m k none) ks in
      if over (length (k ∷ ks)) then next else c

  -- SetNodeCacheSize and SetCacheSize; a negative size is ignored.
  unfoldable pub set_size : ℕ → Cache K V → Cache K V
  set_size n c =
      if is_neg64 n
      then c
      else if n == 0
      then record { bound = n; held = λ _. none; order = [] }
      else evict_from (λ l. ltb n l) n c.held c.order

  -- The evictions and the insertion of a key that is not held.
  abbrev pub insert : K → V → Cache K V → Cache K V
  insert k v c =
      let room = evict_from (λ l. leb c.bound l) c.bound c.held c.order in
      record {
        bound = room.bound;
        held = update room.held k (some v);
        order = room.order ++ (k ∷ []);
      }

  -- nodeCachePut: a node that is held stays.
  unfoldable pub node_cache_put : K → V → Cache K V → Cache K V
  node_cache_put k v c =
      if c.bound == 0 then c else elim (c.held k) [ some _ ↦ c | none ↦ insert k v c ]

  -- cacheStore: a record that is held is replaced.
  unfoldable pub cache_store : K → V → Cache K V → Cache K V
  cache_store k v c = if c.bound == 0 then c else elim (c.held k) [
    | some _ ↦ record { bound = c.bound; held = update c.held k (some v); order = c.order }
    | none ↦ insert k v c
  ]

-- nodeCacheGet and cacheLookup
unfoldable pub lookup : {K V : Type 0} → Cache K V → K → Option V
lookup c k = c.held k
