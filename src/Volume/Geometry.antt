-- ===== src/Volume/Geometry.antt =====
-- The geometry of a volume that openAt of hfs.go opens.
use libhfs.Prelude.{
  ℕ, zero, suc, ◌+◌, ◌≤◌, ◌≡◌, ◌≢◌, refl, not, false, ◌||◌, inl, inr, Option, some, none, List, [],
  arith, ltb, ◌==◌, Bool-cases, length, take, drop, add64, max_int64, is_neg64,
}
use libhfs.Errors.{Holds, Result, ok, err, panic, ◌>>=◌}
use libhfs.Bytes.{Bytes, slice-ok, field16-ok, field32-ok, u16, u32}
use libhfs.Reader.{ReaderAt, read_at_exact}
use libhfs.Extents.{ExtentDescriptor, ForkData, FileSystemKind}
use libhfs.Volume.{VolumeHeader, parse_volume_header, volume_header_size, signature_hfs}
use libhfs.Volume.Header.{words_from-ok, Parses, IsHeader, parse_volume_header-Parses}
use libhfs.Volume.Master.{
  hfs_extents_at, parse_hfs_fork_data, parse_hfs_wrapper_embedded_offset,
  parse_hfs_master_directory_block,
}
use libhfs.Volume.Open.{
  Volume, read_volume_start_header, check_base_offset_fits, open_classic, open_plus, open_embedded,
  open_embedded_or_classic, open_hfs, open_at,
}

-- Running a step whose result has a property, and then one that keeps to another.
bind :
    {A B : Type 0} (P : A → Type 0) (Q : B → Type 0) (m : Result A) (k : A → Result B)
    → Holds P m
    → ((a : A) → P a → Holds Q (k a))
    → Holds Q (m >>= k)
bind P Q (ok a) k h f = f a h
bind P Q (err e) k h f = tt
bind P Q panic k h f = h

hfs_extents_at-ok :
    (rec : Bytes) (base n : ℕ) → (es : List ExtentDescriptor) × (hfs_extents_at rec base n ≡ ok es)
unfolding hfs_extents_at
hfs_extents_at-ok rec base zero = ([], refl)
hfs_extents_at-ok rec base (suc n) =
    let (es, e) = hfs_extents_at-ok rec (base + 4) n in
    elim (Bool-cases (ltb (length rec) (base + 4))) [
      | inl q ↦ rw (q, e) (_, refl)
      | inr q ↦
          rw
            (
              q,
              field16-ok rec base (ground (arith, q)),
              field16-ok rec (base + 2) (ground (arith, q)),
              e,
            )
            (_, refl)
    ]

parse_hfs_fork_data-ok :
    (size : ℕ) (rec : Bytes) (b_size : ℕ)
    → (f : ForkData) × (parse_hfs_fork_data size rec b_size ≡ ok f)
unfolding parse_hfs_fork_data
parse_hfs_fork_data-ok size rec b_size =
    let (es, e) = hfs_extents_at-ok rec 0 3 in
    elim (Bool-cases (b_size == 0)) [ inl q ↦ rw (q) (_, refl) | inr q ↦ rw (q, e) (_, refl) ]

-- The sizes of a header that a volume can be read by.
abbrev pub HasBlocks : VolumeHeader → Type 0
HasBlocks hdr = (hdr.block_size ≢ 0) × (hdr.total_blocks ≢ 0)

nonzero : (a b : ℕ) → (a == 0 || b == 0) ≡ false → (a ≢ 0) × (b ≢ 0)
nonzero a b h = (ground (arith, h), ground (arith, h))

parse_hfs_master_directory_block-HasBlocks :
    (mdb : Bytes) (origin : ℕ)
    → Holds (λ r. HasBlocks r.0) (parse_hfs_master_directory_block mdb origin)
unfolding parse_hfs_master_directory_block
parse_hfs_master_directory_block-HasBlocks mdb origin = elim (Bool-cases (ltb (length mdb) 512)) [
  | inl q ↦ rw (q) tt
  | inr q ↦
      let n : 512 ≤ length mdb = ground (arith, q) in
      elim (Bool-cases (not (u16 mdb 0 == signature_hfs))) [
        | inl s ↦ rw (q, field16-ok mdb 0 (omega arith), s) tt
        | inr s ↦ elim (Bool-cases (u32 mdb 20 == 0 || u16 mdb 18 == 0)) [
          | inl z ↦
              rw
                (
                  q,
                  field16-ok mdb 0 (omega arith),
                  s,
                  field32-ok mdb 20 (omega arith),
                  field16-ok mdb 18 (omega arith),
                  z,
                )
                tt
          | inr z ↦
              let (f, ef) =
                parse_hfs_fork_data-ok (u32 mdb 130) (take 12 (drop 134 mdb)) (u32 mdb 20) in
              let (g, eg) =
                parse_hfs_fork_data-ok (u32 mdb 146) (take 12 (drop 150 mdb)) (u32 mdb 20) in
              rw
                (
                  q,
                  field16-ok mdb 0 (omega arith),
                  s,
                  field32-ok mdb 20 (omega arith),
                  field16-ok mdb 18 (omega arith),
                  z,
                  field16-ok mdb 28 (omega arith),
                  field16-ok mdb 10 (omega arith),
                  field32-ok mdb 2 (omega arith),
                  field32-ok mdb 6 (omega arith),
                  field32-ok mdb 64 (omega arith),
                  field32-ok mdb 84 (omega arith),
                  field32-ok mdb 88 (omega arith),
                  field16-ok mdb 34 (omega arith),
                  field16-ok mdb 16 (omega arith),
                  field32-ok mdb 30 (omega arith),
                  field32-ok mdb 70 (omega arith),
                  words_from-ok mdb 92 8 (omega arith),
                  field32-ok mdb 130 (omega arith),
                  slice-ok mdb 134 146 (omega arith) (omega arith),
                  field32-ok mdb 146 (omega arith),
                  slice-ok mdb 150 162 (omega arith) (omega arith),
                  field16-ok mdb 14 (omega arith),
                )
                (rw (ef, eg) (nonzero (u32 mdb 20) (u16 mdb 18) z))
        ]
      ]
]

parse_hfs_wrapper_embedded_offset-ok :
    (mdb : Bytes) → Holds (λ _. Unit) (parse_hfs_wrapper_embedded_offset mdb)
unfolding parse_hfs_wrapper_embedded_offset
parse_hfs_wrapper_embedded_offset-ok mdb = elim (Bool-cases (ltb (length mdb) 512)) [
  | inl q ↦ rw (q) tt
  | inr q ↦
      let n : 512 ≤ length mdb = ground (arith, q) in
      ground (
        arith,
        field16-ok mdb 0,
        field16-ok mdb 124,
        field32-ok mdb 20,
        field16-ok mdb 28,
        field16-ok mdb 126,
        field16-ok mdb 128,
      )
]

to-Holds :
    (buf : Bytes) (m : Result (VolumeHeader × FileSystemKind))
    → Parses buf m
    → Holds (λ a. IsHeader buf a.0 a.1) m
to-Holds buf (ok (hdr, kind)) p = p
to-Holds buf (err e) p = p
to-Holds buf panic p = p

read_at_exact-Holds :
    (r : ReaderAt) (off n : ℕ) → Holds (λ buf. length buf ≡ n) (read_at_exact r off n)
unfolding read_at_exact
read_at_exact-Holds r off n = ground arith

parse_volume_header-Holds :
    (buf : Bytes) (origin : ℕ) → Holds (λ a. IsHeader buf a.0 a.1) (parse_volume_header buf origin)
parse_volume_header-Holds buf origin =
    to-Holds buf (parse_volume_header buf origin) (parse_volume_header-Parses buf origin)

module _ (r : ReaderAt) (volume_start : ℕ) where
  -- The volume begins where it was asked for, allocation block 0 lies at or after that at an
  -- int64 offset, and there are blocks of a size that is not 0.
  pub record IsOpened (v : Volume) : Type 0 where
    pub started : v.volume_start ≡ volume_start
    pub after : volume_start ≤ v.base_offset
    pub based : v.base_offset ≤ max_int64
    pub has_blocks : HasBlocks v.header

  check_base_offset_fits-ok :
      (derived : ℕ)
      → volume_start ≤ max_int64
      → Holds
          (λ _. volume_start + derived ≤ max_int64)
          (check_base_offset_fits r volume_start derived)
  unfolding check_base_offset_fits
  check_base_offset_fits-ok derived h = ground arith

  open_plus-IsOpened :
      (derived : ℕ) (buf : Bytes)
      → volume_start + derived ≤ max_int64
      → Holds IsOpened (open_plus r volume_start derived buf)
  unfolding open_plus
  open_plus-IsOpened derived buf h =
      let w : add64 volume_start derived ≡ volume_start + derived = omega arith in
      bind (λ a. IsHeader buf a.0 a.1) IsOpened _ _
        (parse_volume_header-Holds buf (add64 volume_start derived))
        (λ a i. record {
          started = refl;
          after = rw (w) (omega arith);
          based = rw (w) h;
          has_blocks = (i.has_blocks, i.has_total);
        })

  open_classic-IsOpened :
      (buf : Bytes) → volume_start ≤ max_int64 → Holds IsOpened (open_classic r volume_start buf)
  unfolding open_classic
  open_classic-IsOpened buf h =
      bind (λ a. HasBlocks a.0) IsOpened _ _
        (parse_hfs_master_directory_block-HasBlocks buf volume_start)
        (λ a i.
          bind (λ _. volume_start + a.1 ≤ max_int64) IsOpened _ _ (check_base_offset_fits-ok a.1 h)
            (λ _ k.
              let w : add64 volume_start a.1 ≡ volume_start + a.1 = omega arith in
              record {
                started = refl;
                after = rw (w) (omega arith);
                based = rw (w) k;
                has_blocks = i;
              }))

  open_embedded-IsOpened :
      (derived : ℕ)
      → volume_start ≤ max_int64
      → Holds IsOpened (open_embedded r volume_start derived)
  unfolding open_embedded
  open_embedded-IsOpened derived h =
      bind (λ _. volume_start + derived ≤ max_int64) IsOpened _ _
        (check_base_offset_fits-ok derived h)
        (λ _ k.
          bind (λ buf. length buf ≡ volume_header_size) IsOpened _ _ (read_at_exact-Holds r _ _)
            (λ buf _. open_plus-IsOpened derived buf k))

  either-IsOpened :
      (buf : Bytes) (o : Option ℕ)
      → volume_start ≤ max_int64
      → Holds IsOpened (open_embedded_or_classic r volume_start buf o)
  either-IsOpened buf none h = open_classic-IsOpened buf h
  either-IsOpened buf (some offset) h = open_embedded-IsOpened offset h

  open_hfs-IsOpened :
      (buf : Bytes) → volume_start ≤ max_int64 → Holds IsOpened (open_hfs r volume_start buf)
  unfolding open_hfs
  open_hfs-IsOpened buf h =
      bind (λ _. Unit) IsOpened _ _ (parse_hfs_wrapper_embedded_offset-ok buf)
        (λ o _. either-IsOpened buf o h)

  read_volume_start_header-Holds :
      Holds (λ buf. length buf ≡ 512) (read_volume_start_header r volume_start)
  unfolding read_volume_start_header
  read_volume_start_header-Holds =
      ground (arith, read_at_exact-Holds r (add64 volume_start 1024) 512)

  -- Over any reader and at any offset, openAt never panics, and a volume that it opens begins at
  -- that offset, has its allocation block 0 at or after that, at an offset that an int64 holds, and
  -- has at least one block of a size that is not 0.
  pub open_at-IsOpened : Holds IsOpened (open_at r volume_start)
  unfolding open_at
  open_at-IsOpened = elim (Bool-cases (is_neg64 volume_start)) [
    | inl q ↦ rw (q) tt
    | inr q ↦
        let h : volume_start ≤ max_int64 = ground (arith, q) in
        rw (q) (
          bind (λ buf. length buf ≡ 512) IsOpened _ _ read_volume_start_header-Holds
            (λ buf l.
              rw (field16-ok buf 0 (omega (arith, l)))
                (elim (Bool-cases (u16 buf 0 == signature_hfs)) [
                  | inl s ↦ rw (s) (open_hfs-IsOpened buf h)
                  | inr s ↦ rw (s) (open_plus-IsOpened 0 buf (omega (arith, h)))
                ])))
  ]
