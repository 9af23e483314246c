-- ===== src/Btree/Node/Offsets.antt =====
-- The offset array, the descriptor and the header record of a node, of btree.go.
use libhfs.Prelude.{ℕ, zero, suc, ◌+◌, ◌-◌, ◌*◌, ◌≤◌, ◌<◌, ◌≡◌, refl, List, [], ◌∷◌, arith, length}
use libhfs.Errors.{Result, ok, err, panic}
use libhfs.Bytes.{Bytes, index-ok, field16-ok, field32-ok}
use libhfs.Btree.Node.{
  BtreeHeaderRecord, parse_btree_node_descriptor, parse_btree_header_record, offsets_from,
  parse_node_record_offsets,
}

abbrev pub AreAtMost : ℕ → List ℕ → Type 0
AreAtMost n [] = Unit
AreAtMost n (x ∷ xs) = (x ≤ n) × AreAtMost n xs

-- So many offsets, none past the node's end.
abbrev pub AreOffsets : Bytes → ℕ → Result (List ℕ) → Type 0
AreOffsets node n (ok offs) = (length offs ≡ n) × AreAtMost (length node) offs
AreOffsets node n (err e) = Unit
AreOffsets node n panic = ⊥

offsets_from-AreOffsets :
    (node : Bytes) (i n : ℕ) → (i + n) * 2 ≤ length node → AreOffsets node n (offsets_from node i n)
unfolding offsets_from
offsets_from-AreOffsets node i zero h = (refl, tt)
offsets_from-AreOffsets node i (suc n) h = ground (
  arith,
  field16-ok node (length node - 2 * (i + 1)),
  offsets_from-AreOffsets node (i + 1) n (omega arith),
)

-- On a node of any bytes the record offsets are read inside it; where they are returned there
-- is one more than the records asked for, and none lies past the node's end.
pub parse_node_record_offsets-AreOffsets :
    (node : Bytes) (n : ℕ) → AreOffsets node (suc n) (parse_node_record_offsets node n)
unfolding parse_node_record_offsets
parse_node_record_offsets-AreOffsets node n =
    let e : n + 1 ≡ suc n = omega arith in
    rw e (ground (arith, offsets_from-AreOffsets node 0 (suc n)))

abbrev pub IsNotPanic : {A : Type 0} → Result A → Type 0
IsNotPanic panic = ⊥
IsNotPanic _ = Unit

-- What a header record must be for its parse to succeed.
abbrev pub IsPlausible : Result BtreeHeaderRecord → Type 0
IsPlausible (ok h) = (512 ≤ h.node_size) × (h.node_size ≤ 32768) × (0 < h.total_nodes)
IsPlausible (err e) = Unit
IsPlausible panic = ⊥

-- Parsing a node descriptor or a header record reads nothing outside the bytes, and a header that
-- is returned has a node size from 512 to 32768 and at least one node.
pub parse_btree_headers :
    (node rec : Bytes)
    → IsNotPanic (parse_btree_node_descriptor node) × IsPlausible (parse_btree_header_record rec)
parse_btree_headers node rec = (descriptor, header)
  where
    descriptor : IsNotPanic (parse_btree_node_descriptor node)
    descriptor =
        unfold parse_btree_node_descriptor in
        ground (
          arith,
          field32-ok node 0,
          field32-ok node 4,
          index-ok node 8,
          index-ok node 9,
          field16-ok node 10,
        )

    header : IsPlausible (parse_btree_header_record rec)
    header =
        unfold parse_btree_header_record in
        ground (
          arith,
          field16-ok rec 0,
          field32-ok rec 2,
          field32-ok rec 6,
          field32-ok rec 10,
          field32-ok rec 14,
          field16-ok rec 18,
          field16-ok rec 20,
          field32-ok rec 22,
          field32-ok rec 26,
          field32-ok rec 32,
          index-ok rec 36,
          index-ok rec 37,
          field32-ok rec 38,
        )
