-- ===== src/Decmpfs.antt =====
-- decmpfs.go, with checkAlloc of limits.go: the header of a compressed file, its inline payload, and
-- the chunk table of a payload in the resource fork. zlib and the codecs of other compression types
-- are parameters.
pub mod Chunks
use libhfs.Prelude.{
  ℕ, zero, suc, ◌+◌, ◌-◌, ◌*◌, ◌/◌, ◌%◌, ◌^◌, Bool, true, false, not, ◌&&◌, ◌||◌, Option, none,
  some, List, [], ◌∷◌, ◌++◌, String, ltb, leb, ◌==◌, if◌then◌else◌, length, take, drop, add64,
  sub64, is_neg64, slt64,
}
use libhfs.Errors.{
  Error, parse_error, corrupt, size_limit, unsupported_compression, Result, ok, err, panic, ◌>>=◌,
  ◌>>◌, fail, reject_if,
}
use libhfs.Bytes.{Bytes, slice, index, field32}

-- checkAlloc, under the limit of the volume.
unfoldable pub check_alloc : ℕ → String → ℕ → Result (Unit {0})
check_alloc limit op n =
    if is_neg64 n
    then fail op n corrupt
    else reject_if (slt64 0 limit && slt64 limit n) op n size_limit

-- Little-endian words.
unfoldable pub le32 : Bytes → Result ℕ
le32 (a ∷ b ∷ c ∷ d ∷ _) = ok (a + b * 2 ^ 8 + c * 2 ^ 16 + d * 2 ^ 24)
le32 _ = panic

-- `binary.LittleEndian.Uint32(raw[at:at+4])`
unfoldable pub le_field : Bytes → ℕ → Result ℕ
le_field raw at = do b ← slice raw at (at + 4); le32 b

pub record DecmpfsHeader : Type 0 where
  pub compression_type : ℕ
  pub uncompressed_size : ℕ

-- storedInResourceFork
unfoldable pub stored_in_resource_fork : DecmpfsHeader → Bool
stored_in_resource_fork h = h.compression_type % 2 == 0

-- The magic 'fpmc'.
abbrev is_magic : Bytes → Bool
is_magic (a ∷ b ∷ c ∷ d ∷ []) = a == 102 && b == 112 && c == 109 && d == 99
is_magic _ = false

-- parseDecmpfsHeader: `none` is its `false`.
unfoldable pub parse_decmpfs_header : Bytes → Result (Option DecmpfsHeader)
parse_decmpfs_header attr = if ltb (length attr) 16 then ok none else (do
  magic ← slice attr 0 4
  t ← le_field attr 4
  low ← le_field attr 8
  high ← le_field attr 12
  (if not (is_magic magic)
      then ok none
      else ok (some (record { compression_type = t; uncompressed_size = low + high * 2 ^ 32 }))))

-- zlib's reader with a limit on what it returns, and the codecs of other types: `codec dst_len src`.
abbrev pub Inflate : Type 0
Inflate = Bytes → ℕ → Result Bytes

module _ (zlib : Inflate) where
  -- inflateZlib; a first byte of 0x0F marks stored bytes.
  unfoldable pub inflate_zlib : Bytes → ℕ → Result Bytes
  inflate_zlib src max_out = do
    reject_if (length src == 0) "decmpfs_zlib" 0 corrupt
    first ← index src 0
    (if first == 15 then ok (take max_out (drop 1 src)) else elim (zlib src max_out) [
      | ok out ↦ ok out
      | err e ↦ fail "decmpfs_zlib" 0 corrupt
      | panic ↦ panic
    ])

  -- decodeInlinePayload, under an allocation limit; `codecs` is lookupDecompressor.
  unfoldable pub decode_inline_payload :
      ℕ → (ℕ → Option Inflate) → DecmpfsHeader → Bytes → Result Bytes
  decode_inline_payload limit codecs h raw = do
    check_alloc limit "decmpfs_inline" h.uncompressed_size
    let size = h.uncompressed_size
    let inflated = inflate_zlib raw size
    (if h.compression_type == 1 || h.compression_type == 9
        then (reject_if (ltb (length raw) size) "decmpfs_inline" 0 corrupt >> ok (take size raw))
        else if h.compression_type == 3
        then (do
          out ← inflated
          reject_if (not (length out == size)) "decmpfs_inline" (length out) corrupt
          ok out)
        else elim (codecs h.compression_type) [
          | none ↦ fail "decmpfs" h.compression_type unsupported_compression
          | some codec ↦ elim (codec raw size) [
            | ok out ↦ ok out
            | err e ↦ err (parse_error "decmpfs_inline" 0 e)
            | panic ↦ panic
          ]
        ])

abbrev pub chunk_size : ℕ
chunk_size = 65536

-- `dataOffset`: the header's word, or the conventional 256 when that is unhelpful.
abbrev pub data_offset_of : ℕ → ℕ → ℕ
data_offset_of len word = if word == 0 || ltb len (word + 8) then 256 else word

-- `want`, the size of the next chunk.
abbrev pub want_of : ℕ → ℕ → ℕ
want_of size done = if ltb (size - done) chunk_size then size - done else chunk_size

-- What a codec answers; its errors are of one kind to the caller.
abbrev pub chunk_of : Result Bytes → ℕ → Result Bytes
chunk_of (ok chunk) off = ok chunk
chunk_of (err e) off = fail "decmpfs_fork_chunk" off corrupt
chunk_of panic off = panic

module _ (codec : Inflate) (raw : Bytes) (size table_base : ℕ) where
  -- The loop over the chunk table, from entry `i`, with `n` entries left and `done` bytes out: the
  -- bytes that it appends.
  unfoldable pub chunks_from : ℕ → ℕ → ℕ → Result Bytes
  chunks_from i zero done = ok []
  chunks_from i (suc n) done = do
    let entry = table_base + 4 + i * 8
    rel ← le_field raw entry
    len ← le_field raw (entry + 4)
    let off = table_base + rel
    let want = want_of size done
    let src = slice raw off (off + len)
    reject_if (ltb (length raw) (off + len)) "decmpfs_fork_chunk" off corrupt
    (if want == 0 then ok [] else (do
      part ← src
      chunk ← chunk_of (codec part want) off
      rest ← chunks_from (i + 1) n (done + length chunk)
      ok (chunk ++ rest)))

-- decodeDecmpfsResourceFork, for a size that is a positive int64.
unfoldable pub decode_decmpfs_resource_fork : Bytes → ℕ → Inflate → Result Bytes
decode_decmpfs_resource_fork raw size codec = do
  reject_if (ltb (length raw) 264) "decmpfs_fork" (length raw) corrupt
  word ← field32 raw 0
  let data_offset = data_offset_of (length raw) word
  reject_if (ltb (length raw) (data_offset + 8)) "decmpfs_fork" data_offset corrupt
  let table_base = data_offset + 4
  reject_if (ltb (length raw) (table_base + 4)) "decmpfs_fork" table_base corrupt
  num_chunks ← le_field raw table_base
  let want_chunks = ((size + chunk_size - 1) % 2 ^ 64) / chunk_size
  reject_if (num_chunks == 0 || not (num_chunks == want_chunks)) "decmpfs_fork_chunks" num_chunks
      corrupt
  reject_if (ltb (length raw) (table_base + 4 + num_chunks * 8)) "decmpfs_fork_table" num_chunks
      corrupt
  out ← chunks_from codec raw size table_base 0 num_chunks 0
  reject_if (not (length out == size)) "decmpfs_fork_size" (length out) corrupt
  ok out
