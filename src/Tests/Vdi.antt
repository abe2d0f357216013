-- ===== src/Tests/Vdi.antt =====
-- vdi/vdi.go: runs and witnesses.
use udf.Prelude.{
  ◌-◌, ◌++◌, replicate, get_or, le32, le64, table, int64, ℕ, ◌+◌, ◌≡◌, refl, List, [], ◌∷◌, pos,
}
use udf.Reader.{ReaderAt, fetch, ok}
use udf.Reader.Memory.{memory}
use udf.Vdi.{open_disk, open_header, Disk}
use udf.Vdi.Flat.{IsVdi, open_disk-IsVdi}

-- Byte `i` of the file is `100 + i`.
abbrev content : ℕ → ℕ
content i = 100 + i

-- Three blocks of four bytes, the second one a hole, the third one short.
abbrev small : Disk
small = record {
  ra = memory 10 content;
  block_size = 4;
  disk_size = pos 10;
  offset_data = 2;
  bmap = 1 ∷ 0xffff_ffff ∷ 0 ∷ [];
}

-- A header of 512 bytes, with the block map after it: one block of 16 bytes at offset 516.
abbrev header : List ℕ
header =
    replicate 0x40 0
    ++ (0x7f ∷ 0x10 ∷ 0xda ∷ 0xbe ∷ [])
    ++ replicate (0x154 - 0x44) 0
    ++ (0 ∷ 2 ∷ 0 ∷ 0 ∷ 4 ∷ 2 ∷ 0 ∷ 0 ∷ [])
    ++ replicate (0x170 - 0x15c) 0
    ++ (16 ∷ 0 ∷ 0 ∷ 0 ∷ 0 ∷ 0 ∷ 0 ∷ 0 ∷ 16 ∷ 0 ∷ 0 ∷ 0 ∷ 0 ∷ 0 ∷ 0 ∷ 0 ∷ 1 ∷ 0 ∷ 0 ∷ 0 ∷ [])

abbrev image : ReaderAt
image = memory 532 (λ i. get_or header i 0)

abbrev opened : Disk
opened = record {
  ra = image;
  block_size = 16;
  disk_size = pos 16;
  offset_data = 516;
  bmap = 0 ∷ [];
}

open_image : open_disk image ≡ ok opened
unfolding open_disk open_header fetch le32 le64 table int64
open_image = refl

open_disk-IsVdi_example : (hdr : List ℕ) × IsVdi image opened hdr
open_disk-IsVdi_example = open_disk-IsVdi image opened open_image
