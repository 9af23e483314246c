-- ===== src/Special/Bits.antt =====
-- The bytes of the image that readBitmapAt of alloc.go reads.
use libhfs.Prelude.{
  ℕ, ◌+◌, ◌*◌, ◌/◌, ◌^◌, ◌≤◌, ◌<◌, ◌≡◌, ◌≢◌, refl, sym, ◌∙◌, ap, inl, inr, List, [], arith, ◌==◌,
  Bool-cases, false, length, take, drop, length-take, length-drop, take-drop-take, drop-drop, add64,
  is_neg64, le→leb,
}
use libhfs.Errors.{Result, ok}
use libhfs.Bytes.{Bytes}
use libhfs.Reader.{ReaderAt, IsImage, read_at_exact-IsImage}
use libhfs.Extents.{ExtentDescriptor, FileSystemKind, hfs, hfs_plus, hfsx}
use libhfs.ForkRead.{read_from_extents}
use libhfs.ForkRead.View.{fork_bytes, AreInside, piece_of, read_from_extents-fork_bytes}
use libhfs.Bitmap.Delivery.{Readable}
use libhfs.Volume.Open.{Volume}
use libhfs.Special.{fork_extents, hfs_bitmap_offset, read_bitmap_file, read_bitmap_at}

read_nothing :
    (r : ReaderAt) (b_size base : ℕ) (exts : List ExtentDescriptor) (off : ℕ)
    → off < 2 ^ 63
    → read_from_extents r b_size base exts off 0 ≡ ok []
unfolding read_from_extents
read_nothing r b_size base exts off h = let q : is_neg64 off ≡ false = ground arith in rw (q) refl

whole_piece :
    (n off m : ℕ) (f : Bytes)
    → off + n ≤ m
    → m ≤ length f
    → piece_of off f off n ≡ ok (take n (drop off (take m f)))
whole_piece n off m f h k =
    rw (le→leb (off + n) (length f) (omega arith)) (ap ok (sym (take-drop-take n off m f h)))

module _ {img : Bytes} {r : ReaderAt} (image : IsImage r img) (small : length img < 2 ^ 63)
    (v : Volume) (walk : ℕ → Result (List (ℕ × Bytes))) (total : ℕ) (few : total < 2 ^ 32) where
  -- On a classic HFS volume of fewer than 2 ^ 32 blocks, over a reader of an image below 2 ^ 63
  -- bytes: if the image holds one bit for each block from drVBMSt sectors after the volume's start
  -- on, readBitmapAt reads exactly those bytes.
  pub read_bitmap_at-Readable :
      v.kind ≡ hfs
      → v.volume_start + v.hfs_vbm_start * 512 + (total + 7) / 8 ≤ length img
      → Readable total
          (take ((total + 7) / 8) (drop (v.volume_start + v.hfs_vbm_start * 512) img))
          (read_bitmap_at r v walk)
  unfolding read_bitmap_at hfs_bitmap_offset
  read_bitmap_at-Readable k h =
      let at = v.volume_start + v.hfs_vbm_start * 512 in
      let m = (total + 7) / 8 in
      let l : length (take m (drop at img)) ≡ m =
        omega (arith, length-take m (drop at img), length-drop at img) in
      record {
        small = few;
        enough = l;
        reads = λ off n i.
            let a : add64 (add64 v.volume_start (v.hfs_vbm_start * 512)) off ≡ at + off =
              omega (arith, l, i, h) in
            rw (k, a)
              (read_at_exact-IsImage (at + off) n image (omega (arith, l, i, h))
                ∙ ap (λ b. ok (take n b)) (sym (drop-drop off at (at + off) img (omega arith)))
                ∙ ap ok (sym (take-drop-take n off m (drop at img) (omega (arith, l, i)))));
      }

  read_bitmap_file-Readable :
      (exts : List ExtentDescriptor)
      → fork_extents r v walk 6 v.header.allocation_file ≡ ok exts
      → length exts ≢ 0
      → AreInside img v.header.block_size v.base_offset exts
      → (total + 7) / 8 ≤ length (fork_bytes img v.header.block_size v.base_offset exts)
      → length (fork_bytes img v.header.block_size v.base_offset exts) < 2 ^ 63
      → Readable total
          (take ((total + 7) / 8) (fork_bytes img v.header.block_size v.base_offset exts))
          (read_bitmap_file r v walk)
  unfolding read_bitmap_file
  read_bitmap_file-Readable exts q some_extent inside h t =
      let f = fork_bytes img v.header.block_size v.base_offset exts in
      let m = (total + 7) / 8 in
      let l : length (take m f) ≡ m = omega (arith, length-take m f) in
      let z : (length exts == 0) ≡ false = ground (arith, some_extent) in
      record {
        small = few;
        enough = l;
        reads = λ off n i.
            rw (q, z)
              (elim (Bool-cases (n == 0)) [
                | inl e ↦
                    let e' : n ≡ 0 = ground (arith, e) in
                    rw (e') (
                      read_nothing r v.header.block_size v.base_offset exts off
                        (omega (arith, l, i, h)))
                | inr e ↦
                    read_from_extents-fork_bytes v.header.block_size v.base_offset image small exts
                      off n inside (omega (arith, l, i, h)) (ground (arith, e))
                      (omega (arith, l, i, h)) t
                    ∙ whole_piece n off m f (omega (arith, l, i)) h
              ]);
      }

  read_bitmap_at-read_bitmap_file :
      (kind : FileSystemKind) (off n : ℕ)
      → v.kind ≡ kind
      → kind ≢ hfs
      → read_bitmap_at r v walk off n ≡ read_bitmap_file r v walk off n
  unfolding read_bitmap_at
  read_bitmap_at-read_bitmap_file hfs off n k plus = absurd (plus refl)
  read_bitmap_at-read_bitmap_file hfs_plus off n k plus = rw (k) refl
  read_bitmap_at-read_bitmap_file hfsx off n k plus = rw (k) refl

  -- On an HFS+ or HFSX volume of fewer than 2 ^ 32 blocks, over a reader of an image below 2 ^ 63
  -- bytes: if its allocation file resolves to extents that lie inside the image and hold one bit for
  -- each block, readBitmapAt reads exactly the bytes of that file.
  pub read_bitmap_at_plus-Readable :
      (exts : List ExtentDescriptor)
      → v.kind ≢ hfs
      → fork_extents r v walk 6 v.header.allocation_file ≡ ok exts
      → length exts ≢ 0
      → AreInside img v.header.block_size v.base_offset exts
      → (total + 7) / 8 ≤ length (fork_bytes img v.header.block_size v.base_offset exts)
      → length (fork_bytes img v.header.block_size v.base_offset exts) < 2 ^ 63
      → Readable total
          (take ((total + 7) / 8) (fork_bytes img v.header.block_size v.base_offset exts))
          (read_bitmap_at r v walk)
  read_bitmap_at_plus-Readable exts plus q some_extent inside h t =
      let file = read_bitmap_file-Readable exts q some_extent inside h t in
      record {
        small = file.small;
        enough = file.enough;
        reads =
            λ off n i. read_bitmap_at-read_bitmap_file v.kind off n refl plus ∙ file.reads off n i;
      }
