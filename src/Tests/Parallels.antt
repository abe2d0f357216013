-- ===== src/Tests/Parallels.antt =====
-- parallels/parallels.go: runs and witnesses.
use udf.Prelude.{
  ℕ, ◌*◌, ◌%◌, ◌^◌, ◌≡◌, refl, List, [], ◌∷◌, ◌++◌, some, none, pos, arith, codes, replicate,
  get_or, le32, le64, table, int64, bytes_eq,
}
use udf.Reader.{ReaderAt, ok, err, panic, fetch}
use udf.Reader.Memory.{memory, memory-Serves, in_file-InFile}
use udf.Parallels.{Disk, variant, read_bat, open_disk, read_at}
use udf.Parallels.Flat.{IsParallels, open_disk-IsParallels, base, read_at-bat_byte, read_bat-panic}

-- A header of the plain variant with one-sector clusters, the second one mapped to sector 1.
abbrev header : List ℕ
header =
    codes "WithoutFreeSpace"
    ++ (2 ∷ 0 ∷ 0 ∷ 0 ∷ [])
    ++ replicate 8 0
    ++ (1 ∷ 0 ∷ 0 ∷ 0 ∷ 2 ∷ 0 ∷ 0 ∷ 0 ∷ 2 ∷ 0 ∷ 0 ∷ 0 ∷ 0 ∷ 0 ∷ 0 ∷ 0 ∷ [])
    ++ replicate 20 0
    ++ (0 ∷ 0 ∷ 0 ∷ 0 ∷ 1 ∷ 0 ∷ 0 ∷ 0 ∷ [])

-- Behind the header each byte is its own offset.
abbrev image : ReaderAt
image = memory 1024 (λ i. get_or header i i)

abbrev opened : Disk
opened = record {
  ra = image;
  tracks = 1;
  off_mult = 1;
  bat_size = 2;
  bat = 0 ∷ 1 ∷ [];
  disk_size = pos 1024;
}

open_image : open_disk image ≡ ok opened
unfolding open_disk variant read_bat bytes_eq fetch le32 le64 table int64
open_image = refl

open_disk-IsParallels_example : IsParallels image opened
open_disk-IsParallels_example = open_disk-IsParallels image opened open_image

-- The read runs over the end of the hole.
read_at-bat_byte_example :
    read_at opened (7 ∷ 7 ∷ 7 ∷ 7 ∷ []) (pos 510)
    ≡ some (record { buf = 0 ∷ 0 ∷ 512 ∷ 513 ∷ []; n = 4; fault = none })
read_at-bat_byte_example =
    read_at-bat_byte opened 1024 1024 (λ i. get_or header i i) refl (omega arith)
      (memory-Serves 1024 (λ i. get_or header i i)) (omega arith)
      (in_file-InFile 512 (base opened) 1024 1024 refl) (7 ∷ 7 ∷ 7 ∷ 7 ∷ []) 510 (omega arith)

fetch_nothing : fetch image (pos 64) (2 ^ 30 * 4 % 2 ^ 32) ≡ ok []
unfolding fetch
fetch_nothing = refl

read_bat-panic_example : read_bat image (2 ^ 30) ≡ err panic
read_bat-panic_example = read_bat-panic image (2 ^ 30) [] (omega arith) (omega arith) fetch_nothing
