-- ===== src/Tests/Vmdk.antt =====
-- vmdk/vmdk.go: runs and witnesses.
use udf.Prelude.{
  ◌^◌, ℕ, zero, suc, ◌+◌, ◌-◌, ◌/◌, ◌*◌, ◌==◌, ◌≤◌, ◌<◌, ◌≡◌, refl, List, [], ◌∷◌, ◌++◌, length,
  some, none, pos, arith, replicate, get_or, le32, le64, int64, if◌then◌else◌, ltb, true, false,
  quot_int64, table, add_int64,
}
use udf.Reader.{ReaderAt, Result, ok, err, invalid, panic, fetch}
use udf.Reader.Memory.{memory, memory-Serves}
use udf.Vmdk.{
  load_grain, Disk, sector_size, read_disk, geometry, bad_grain, read_tables, read_gt, open_header,
  open_disk, extra, hdr_len, grain_size,
}
use udf.Vmdk.Grains.{IsGeometry, load_grain-panic}
use udf.Vmdk.Flat.{HeldBy, is_zeros, cmp_size, stream, read_disk-vmdk_byte}
use udf.Vmdk.Open.{open_disk-IsGeometry}

-- A decompressor of pairs of a count, which it passes over, and a byte.
abbrev inflate : List ℕ → ℕ → Result (List ℕ)
inflate (k ∷ (v ∷ [])) n = ok (replicate n v)
inflate [] n = err invalid
inflate (k ∷ []) n = err invalid
inflate (k ∷ (v ∷ (w ∷ rest))) n = err invalid

-- The third sector has a compressed grain of two bytes.
abbrev content : ℕ → ℕ
content i = if ltb i 1024 then 0 else get_or (2 ∷ 0 ∷ 0 ∷ 0 ∷ 0 ∷ 41 ∷ []) (i - 1024) 0

-- Two grains of one sector each, of which the first is a hole.
abbrev small : Disk
small = record {
  ra = memory 1536 content;
  size = 1024;
  grain_bytes = 512;
  grain_sectors = 1;
  last_grain = 2;
  last_grain_size = 0;
  is_compressed = true;
  embed_lba = false;
  gt = 0 ∷ 2 ∷ [];
}

small-IsGeometry : IsGeometry small 1024
small-IsGeometry = record {
  sized = refl;
  small = omega arith;
  some_bytes = omega arith;
  whole_sectors = refl;
  grains = refl;
  rest = refl;
  entries = omega arith;
}

small_packed :
    (grain : ℕ)
    → grain < 2
    → is_zeros (get_or small.gt grain 0) ≡ false
    → (get_or small.gt grain 0 * sector_size
          + sector_size
          + extra (hdr_len small + cmp_size small content (get_or small.gt grain 0))
        ≤ 1536)
      × (hdr_len small + cmp_size small content (get_or small.gt grain 0) ≤ 512 + sector_size)
      × (full : List ℕ) × (inflate (stream small content (get_or small.gt grain 0)) 512 ≡ ok full)
      × (grain_size small grain ≤ length full)
unfolding le32
small_packed zero h z = cc
small_packed (suc zero) h z = (omega arith, omega arith, replicate 512 41, refl, omega arith)
small_packed (suc (suc grain)) h z = absurd (omega arith)

small-HeldBy : HeldBy inflate small content 1024 1536
small-HeldBy = record {
  stored = λ i h z c. absurd cc;
  packed = λ i h z c. small_packed (i / 512) (omega arith) z;
}

-- From the hole into the compressed grain.
read_disk-vmdk_byte_example :
    read_disk inflate small (7 ∷ 7 ∷ 7 ∷ 7 ∷ 7 ∷ 7 ∷ 7 ∷ []) (pos 509)
    ≡ some (record { buf = 0 ∷ 0 ∷ 0 ∷ 41 ∷ 41 ∷ 41 ∷ 41 ∷ []; n = 7; fault = none })
unfolding le32
read_disk-vmdk_byte_example =
    read_disk-vmdk_byte inflate small 1024 1536 content small-IsGeometry
      (memory-Serves 1536 content) (omega arith) small-HeldBy (7 ∷ 7 ∷ 7 ∷ 7 ∷ 7 ∷ 7 ∷ 7 ∷ []) 509
      (omega arith)

-- A header of a disk of three sectors with grains of two, whose one table stands in the third sector.
abbrev header : List ℕ
header =
    (0x4b ∷ 0x44 ∷ 0x4d ∷ 0x56 ∷ [])
    ++ replicate 8 0
    ++ (3 ∷ 0 ∷ 0 ∷ 0 ∷ 0 ∷ 0 ∷ 0 ∷ 0 ∷ 2 ∷ 0 ∷ 0 ∷ 0 ∷ 0 ∷ 0 ∷ 0 ∷ 0 ∷ [])
    ++ replicate 16 0
    ++ (4 ∷ 0 ∷ 0 ∷ 0 ∷ 0 ∷ 0 ∷ 0 ∷ 0 ∷ 0 ∷ 0 ∷ 0 ∷ 0 ∷ 1 ∷ 0 ∷ 0 ∷ 0 ∷ 0 ∷ 0 ∷ 0 ∷ 0 ∷ [])
    ++ replicate 448 0

abbrev image : ReaderAt
image = memory 1536 (λ i.
    if ltb i 512 then get_or header i 0 else if i == 512 then 2 else if i == 1024 then 5 else 0)

abbrev opened : Disk
opened = geometry image header (5 ∷ 0 ∷ [])

open_image : open_disk image ≡ ok opened
unfolding open_disk open_header geometry bad_grain read_gt read_tables fetch le32 le64 int64
    quot_int64 table add_int64
open_image = refl

image_first : fetch image (pos 0) sector_size ≡ ok header
unfolding fetch
image_first = refl

open_disk-IsGeometry_example :
    (opened.ra ≡ image)
    × (opened.grain_sectors ≡ 2)
    × (opened.grain_sectors ≤ 128)
    × (n : ℕ) × (opened.grain_sectors ≡ 2 ^ n)
    × IsGeometry opened 1536
unfolding geometry le64
open_disk-IsGeometry_example =
    open_disk-IsGeometry image header opened image_first (omega arith) open_image

-- A sector whose grain claims 65535 bytes.
abbrev claims : Disk
claims = record small { ra = memory 1024 (λ i. if ltb i 2 then 255 else 0) }

abbrev first_claims : List ℕ
first_claims = 255 ∷ 255 ∷ replicate 510 0

claims_first : fetch claims.ra (int64 0) sector_size ≡ ok first_claims
unfolding fetch int64
claims_first = refl

load_grain-panic_example : load_grain inflate claims 0 [] ≡ err panic
unfolding le32
load_grain-panic_example =
    load_grain-panic inflate claims 0 [] first_claims refl claims_first (omega arith)
