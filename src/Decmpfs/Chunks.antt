-- ===== src/Decmpfs/Chunks.antt =====
-- The chunk table of decodeDecmpfsResourceFork of decmpfs.go.
use libhfs.Prelude.{
  ℕ, zero, suc, ◌+◌, ◌-◌, ◌*◌, ◌≤◌, ◌≡◌, refl, inl, inr, Bool, true, false, not, [], ◌∷◌, arith,
  ltb, ◌==◌, String, ◌||◌, Bool-cases, length, take, drop, length-take, length-drop, ◌++◌,
}
use libhfs.Errors.{
  Holds, Sentinel, corrupt, reject_if, ◌>>◌, Result, ok, err, panic, ◌>>=◌, Result-cases,
}
use libhfs.Bytes.{Bytes, slice-ok, field32-ok, u32}
use libhfs.Decmpfs.{
  le32, le_field, Inflate, chunk_of, chunks_from, decode_decmpfs_resource_fork, want_of,
  data_offset_of,
}

-- A codec that returns or fails, whatever it gets.
abbrev pub IsSafe : Inflate → Type 0
IsSafe codec = (src : Bytes) (n : ℕ) → Holds (λ _. Unit) (codec src n)

le32-ok : (b : Bytes) → 4 ≤ length b → (n : ℕ) × (le32 b ≡ ok n)
unfolding le32
le32-ok [] h = absurd (omega (arith, h))
le32-ok (_ ∷ []) h = absurd (omega (arith, h))
le32-ok (_ ∷ _ ∷ []) h = absurd (omega (arith, h))
le32-ok (_ ∷ _ ∷ _ ∷ []) h = absurd (omega (arith, h))
le32-ok (_ ∷ _ ∷ _ ∷ _ ∷ _) h = (_, refl)

le_field-ok : (raw : Bytes) (at : ℕ) → at + 4 ≤ length raw → (n : ℕ) × (le_field raw at ≡ ok n)
unfolding le_field
le_field-ok raw at h =
    let b = take (at + 4 - at) (drop at raw) in
    let l : length b ≡ 4 =
      omega (arith, length-take (at + 4 - at) (drop at raw), length-drop at raw) in
    rw (slice-ok raw at (at + 4) (omega arith) h) (le32-ok b (omega (arith, l)))

module _ (codec : Inflate) (safe : IsSafe codec) (raw : Bytes) (size table_base : ℕ) where
  -- The rest of a round after its codec.
  after-Holds :
      (m : Result Bytes) (off : ℕ) (k : Bytes → Result Bytes)
      → Holds (λ _. Unit) m
      → ((chunk : Bytes) → Holds (λ _. Unit) (k chunk))
      → Holds (λ _. Unit) (do chunk ← chunk_of m off; rest ← k chunk; ok (chunk ++ rest))
  after-Holds (err e) off k h f = tt
  after-Holds panic off k h f = h
  after-Holds (ok chunk) off k h f = elim (Result-cases (k chunk)) [
    | inl (rest, q) ↦ rw (q) tt
    | inr (inl (e, q)) ↦ rw (q) tt
    | inr (inr q) ↦ rw (q) (rw (q) at (f chunk))
  ]

  chunks_from-Holds :
      (i n done : ℕ)
      → table_base + 4 + (i + n) * 8 ≤ length raw
      → Holds (λ _. Unit) (chunks_from codec raw size table_base i n done)
  unfolding chunks_from
  chunks_from-Holds i zero done h = tt
  chunks_from-Holds i (suc n) done h =
      let (rel, er) = le_field-ok raw (table_base + 4 + i * 8) (omega (arith, h)) in
      let (len, el) = le_field-ok raw (table_base + 4 + i * 8 + 4) (omega (arith, h)) in
      let off = table_base + rel in
      elim (Bool-cases (ltb (length raw) (off + len))) [
        | inl q ↦ rw (er, el, q) tt
        | inr q ↦ elim (Bool-cases (want_of size done == 0)) [
          | inl z ↦ rw (er, el, q, z) tt
          | inr z ↦
              rw (er, el, q, z, slice-ok raw off (off + len) (omega arith) (ground (arith, q)))
                (after-Holds (codec (take (off + len - off) (drop off raw)) (want_of size done)) off
                  _ (safe _ _)
                  (λ chunk. chunks_from-Holds (i + 1) n (done + length chunk) (omega (arith, h))))
        ]
      ]

-- Past a check.
guard-Holds :
    {A : Type 0} (P : A → Type 0) (b : Bool) (op : String) (off : ℕ) (s : Sentinel) (k : Result A)
    → (b ≡ false → Holds P k)
    → Holds P (reject_if b op off s >> k)
guard-Holds P true op off s k h = tt
guard-Holds P false op off s k h = h refl

-- From the chunk count on.
counted-Holds :
    (raw : Bytes) (size table_base n want : ℕ) (codec : Inflate)
    → IsSafe codec
    → Holds
        (λ out. length out ≡ size)
        (do
          reject_if (n == 0 || not (n == want)) "decmpfs_fork_chunks" n corrupt
          reject_if (ltb (length raw) (table_base + 4 + n * 8)) "decmpfs_fork_table" n corrupt
          out ← chunks_from codec raw size table_base 0 n 0
          reject_if (not (length out == size)) "decmpfs_fork_size" (length out) corrupt
          ok out)
counted-Holds raw size table_base n want codec safe =
    guard-Holds (λ out. length out ≡ size) (n == 0 || not (n == want)) _ _ _ _
      (λ _.
        guard-Holds (λ out. length out ≡ size) (ltb (length raw) (table_base + 4 + n * 8)) _ _ _ _
          (λ q.
            sized (chunks_from codec raw size table_base 0 n 0)
              (chunks_from-Holds codec safe raw size table_base 0 n 0 (ground (arith, q)))))
  where
    sized :
        (m : Result Bytes)
        → Holds (λ _. Unit) m
        → Holds
            (λ out. length out ≡ size)
            (do
              out ← m
              reject_if (not (length out == size)) "decmpfs_fork_size" (length out) corrupt
              ok out)
    sized (err e) h = tt
    sized panic h = h
    sized (ok out) h =
        guard-Holds (λ out. length out ≡ size) (not (length out == size)) _ _ _ _
          (λ q. ground (arith, q))

-- For a codec that never panics: decoding a fork of any length and content never reads outside it,
-- and what it returns has exactly the size that was asked for.
pub decode_decmpfs_resource_fork-Holds :
    (raw : Bytes) (size : ℕ) (codec : Inflate)
    → IsSafe codec
    → Holds (λ out. length out ≡ size) (decode_decmpfs_resource_fork raw size codec)
unfolding decode_decmpfs_resource_fork
decode_decmpfs_resource_fork-Holds raw size codec safe = elim (Bool-cases (ltb (length raw) 264)) [
  | inl q ↦ rw (q) tt
  | inr q ↦
      let word = u32 raw 0 in
      let data_offset = data_offset_of (length raw) word in
      let table_base = data_offset + 4 in
      rw (q, field32-ok raw 0 (ground (arith, q)))
        (elim (Bool-cases (ltb (length raw) (data_offset + 8))) [
          | inl a ↦ rw (a) tt
          | inr a ↦
              let (n, en) = le_field-ok raw table_base (ground (arith, a)) in
              let b : ltb (length raw) (table_base + 4) ≡ false = ground (arith, a) in
              rw (a, b, en) (counted-Holds raw size table_base n _ codec safe)
        ])
]
