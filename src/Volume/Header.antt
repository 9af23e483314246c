-- ===== src/Volume/Header.antt =====
-- The fields of a volume header, against parseVolumeHeader of volume.go.
use libhfs.Prelude.{
  ℕ, zero, suc, ◌+◌, ◌-◌, ◌*◌, ◌≤◌, ◌≡◌, ◌≢◌, refl, ◌||◌, inl, inr, List, [], ◌∷◌, arith, ltb, ◌==◌,
  Bool-cases, length, take, drop, length-take, length-drop, add64,
}
use libhfs.Errors.{Result, ok, err, panic, ◌>>=◌}
use libhfs.Bytes.{Bytes, slice-ok, field16-ok, field32-ok, field64-ok, u16, u32, u64}
use libhfs.Extents.{ExtentDescriptor, ForkData, FileSystemKind, hfs, hfs_plus, hfsx}
use libhfs.Volume.{
  VolumeHeader, hfs_time_to_unix, volume_header_offset, header_kind, kind_from_signature,
  validate_version, fork_extents_from, parse_fork_data, fork_at, words_from, header_from,
  parse_volume_header,
}

-- The `n` extents that the bytes from `base` on hold.
abbrev extents_at : Bytes → ℕ → ℕ → List ExtentDescriptor
extents_at buf base zero = []
extents_at buf base (suc n) =
    record { start_block = u32 buf base; block_count = u32 buf (base + 4) }
    ∷ extents_at buf (base + 8) n

abbrev words_at : Bytes → ℕ → ℕ → List ℕ
words_at buf off zero = []
words_at buf off (suc n) = u32 buf off ∷ words_at buf (off + 4) n

fork_extents_from-ok :
    (buf : Bytes) (base n : ℕ)
    → base + 8 * n ≤ length buf
    → fork_extents_from buf base n ≡ ok (extents_at buf base n)
unfolding fork_extents_from
fork_extents_from-ok buf base zero h = refl
fork_extents_from-ok buf base (suc n) h =
    rw
      (
        field32-ok buf base (omega arith),
        field32-ok buf (base + 4) (omega arith),
        fork_extents_from-ok buf (base + 8) n (omega arith),
      )
      refl

pub words_from-ok :
    (buf : Bytes) (off n : ℕ)
    → off + 4 * n ≤ length buf
    → words_from buf off n ≡ ok (words_at buf off n)
unfolding words_from
words_from-ok buf off zero h = refl
words_from-ok buf off (suc n) h =
    rw (field32-ok buf off (omega arith), words_from-ok buf (off + 4) n (omega arith)) refl

-- The fork that 80 bytes describe.
abbrev pub fork_of : Bytes → ForkData
fork_of part = record {
  logical_size = u64 part 0;
  clump_size = u32 part 8;
  total_blocks = u32 part 12;
  extents = extents_at part 16 8;
}

parse_fork_data-ok : (part : Bytes) → length part ≡ 80 → parse_fork_data part ≡ ok (fork_of part)
unfolding parse_fork_data
parse_fork_data-ok part h =
    rw
      (
        field64-ok part 0 (omega arith),
        field32-ok part 8 (omega arith),
        field32-ok part 12 (omega arith),
        fork_extents_from-ok part 16 8 (omega arith),
      )
      refl

pub fork_at-ok :
    (buf : Bytes) (at : ℕ)
    → at + 80 ≤ length buf
    → fork_at buf at ≡ ok (fork_of (take 80 (drop at buf)))
unfolding fork_at
fork_at-ok buf at h =
    let n : at + 80 - at ≡ 80 = omega arith in
    let l : length (take 80 (drop at buf)) ≡ 80 =
      omega (arith, length-take 80 (drop at buf), length-drop at buf) in
    rw (slice-ok buf at (at + 80) (omega arith) h, n, parse_fork_data-ok (take 80 (drop at buf)) l)
      refl

-- "H+" and version 4, or "HX" and version 5.
abbrev pub IsOfKind : FileSystemKind → ℕ → ℕ → Type 0
IsOfKind hfs sig ver = ⊥
IsOfKind hfs_plus sig ver = (sig ≡ 18475) × (ver ≡ 4)
IsOfKind hfsx sig ver = (sig ≡ 18520) × (ver ≡ 5)

-- What a header that parses holds; a date before 1970 becomes 0.
pub record IsHeader (buf : Bytes) (hdr : VolumeHeader) (kind : FileSystemKind) : Type 0 where
  pub signed : hdr.signature ≡ u16 buf 0
  pub blocks : hdr.block_size ≡ u32 buf 40
  pub total : hdr.total_blocks ≡ u32 buf 44
  pub has_blocks : hdr.block_size ≢ 0
  pub has_total : hdr.total_blocks ≢ 0
  pub words : hdr.finder_info ≡ words_at buf 80 8
  pub allocation : hdr.allocation_file ≡ fork_of (take 80 (drop 112 buf))
  pub extents : hdr.extents_file ≡ fork_of (take 80 (drop 192 buf))
  pub catalog : hdr.catalog_file ≡ fork_of (take 80 (drop 272 buf))
  pub attributes : hdr.attributes_file ≡ fork_of (take 80 (drop 352 buf))
  pub startup : hdr.startup_file ≡ fork_of (take 80 (drop 432 buf))
  pub versioned : hdr.version ≡ u16 buf 2
  pub flags : hdr.attributes ≡ u32 buf 4
  pub mounted : hdr.last_mounted_version ≡ u32 buf 8
  pub journal : hdr.journal_info_block ≡ u32 buf 12
  pub created : hdr.create_time ≡ u32 buf 16 - 2082844800
  pub modified : hdr.modify_time ≡ u32 buf 20 - 2082844800
  pub backed_up : hdr.backup_time ≡ u32 buf 24 - 2082844800
  pub checked : hdr.checked_time ≡ u32 buf 28 - 2082844800
  pub files : hdr.file_count ≡ u32 buf 32
  pub folders : hdr.folder_count ≡ u32 buf 36
  pub free : hdr.free_blocks ≡ u32 buf 48
  pub next : hdr.next_allocation ≡ u32 buf 52
  pub rsrc_clump : hdr.rsrc_clump_size ≡ u32 buf 56
  pub data_clump : hdr.data_clump_size ≡ u32 buf 60
  pub next_id : hdr.next_catalog_id ≡ u32 buf 64
  pub writes : hdr.write_count ≡ u32 buf 68
  pub encodings : hdr.encodings_bitmap ≡ u64 buf 72
  pub of_kind : IsOfKind kind (u16 buf 0) (u16 buf 2)

abbrev pub Parses : Bytes → Result (VolumeHeader × FileSystemKind) → Type 0
Parses buf (ok (hdr, kind)) = IsHeader buf hdr kind
Parses buf (err e) = Unit
Parses buf panic = ⊥

abbrev Allows : ℕ → ℕ → Result FileSystemKind → Type 0
Allows sig ver (ok kind) = IsOfKind kind sig ver
Allows sig ver (err e) = Unit
Allows sig ver panic = ⊥

header_kind-Allows : (sig ver at : ℕ) → Allows sig ver (header_kind sig ver at)
unfolding header_kind kind_from_signature validate_version
header_kind-Allows sig ver at = ground arith

hfs_time_to_unix_lem : (raw : ℕ) → hfs_time_to_unix raw ≡ raw - 2082844800
unfolding hfs_time_to_unix
hfs_time_to_unix_lem raw = ground arith

header_from-Parses :
    (buf : Bytes) (at : ℕ) (kind : FileSystemKind)
    → 512 ≤ length buf
    → IsOfKind kind (u16 buf 0) (u16 buf 2)
    → Parses buf (header_from buf at (u16 buf 0) (u16 buf 2) kind)
unfolding header_from
header_from-Parses buf at kind h of_kind =
    rw
      (
        field32-ok buf 4 (omega arith),
        field32-ok buf 8 (omega arith),
        field32-ok buf 12 (omega arith),
        field32-ok buf 16 (omega arith),
        field32-ok buf 20 (omega arith),
        field32-ok buf 24 (omega arith),
        field32-ok buf 28 (omega arith),
        field32-ok buf 32 (omega arith),
        field32-ok buf 36 (omega arith),
        field32-ok buf 40 (omega arith),
        field32-ok buf 44 (omega arith),
        field32-ok buf 48 (omega arith),
        field32-ok buf 52 (omega arith),
        field32-ok buf 56 (omega arith),
        field32-ok buf 60 (omega arith),
        field32-ok buf 64 (omega arith),
        field32-ok buf 68 (omega arith),
        field64-ok buf 72 (omega arith),
        words_from-ok buf 80 8 (omega arith),
        fork_at-ok buf 112 (omega arith),
        fork_at-ok buf 192 (omega arith),
        fork_at-ok buf 272 (omega arith),
        fork_at-ok buf 352 (omega arith),
        fork_at-ok buf 432 (omega arith),
      )
      (elim (Bool-cases (u32 buf 40 == 0 || u32 buf 44 == 0)) [
        | inl q ↦ rw (q) tt
        | inr q ↦ rw (q) (record {
          signed = refl;
          blocks = refl;
          total = refl;
          has_blocks = ground (arith, q);
          has_total = ground (arith, q);
          words = refl;
          allocation = refl;
          extents = refl;
          catalog = refl;
          attributes = refl;
          startup = refl;
          versioned = refl;
          flags = refl;
          mounted = refl;
          journal = refl;
          created = hfs_time_to_unix_lem (u32 buf 16);
          modified = hfs_time_to_unix_lem (u32 buf 20);
          backed_up = hfs_time_to_unix_lem (u32 buf 24);
          checked = hfs_time_to_unix_lem (u32 buf 28);
          files = refl;
          folders = refl;
          free = refl;
          next = refl;
          rsrc_clump = refl;
          data_clump = refl;
          next_id = refl;
          writes = refl;
          encodings = refl;
          of_kind = of_kind;
        })
      ])

-- The rest, on what the checks of the kind allow.
kinds :
    (buf : Bytes) (at : ℕ) (kind : Result FileSystemKind)
    → 512 ≤ length buf
    → Allows (u16 buf 0) (u16 buf 2) kind
    → Parses buf (kind >>= header_from buf at (u16 buf 0) (u16 buf 2))
kinds buf at (ok kind) h p = header_from-Parses buf at kind h p
kinds buf at (err e) h p = tt
kinds buf at panic h p = p

-- parseVolumeHeader reads nothing outside a buffer of any length. A header that it returns is that
-- of an HFS+ volume ("H+", version 4) or an HFSX volume ("HX", version 5) with blocks of a size that
-- is not 0 and at least one of them, and each of its fields (the signature and version, attributes,
-- counts, clump sizes, Finder words, the five forks) is what the buffer holds at its offset; a date
-- is that many seconds less those from 1904 to 1970, or 0 before 1970.
pub parse_volume_header-Parses :
    (buf : Bytes) (origin : ℕ) → Parses buf (parse_volume_header buf origin)
unfolding parse_volume_header
parse_volume_header-Parses buf origin = elim (Bool-cases (ltb (length buf) 512)) [
  | inl q ↦ rw (q) tt
  | inr q ↦
      let n : 512 ≤ length buf = ground (arith, q) in
      rw (q, field16-ok buf 0 (omega arith), field16-ok buf 2 (omega arith))
        (kinds buf (add64 origin volume_header_offset) _ n
          (header_kind-Allows (u16 buf 0) (u16 buf 2) (add64 origin volume_header_offset)))
]
