-- ===== src/Btree.antt =====
-- The B-tree files of a volume: keys (Keys), their order (Order), node records (Node), keyed
-- search (Search) and linear walks (Leaves).
pub mod Keys
pub mod Node
pub mod Order
pub mod Search
pub mod Leaves
pub mod Walks
