-- ===== src/Tests/Qed.antt =====
-- qed/qed.go and its cache: runs and witnesses.
use udf.Prelude.{
  ℕ, zero, suc, ◌≤◌, ◌≡◌, refl, List, [], ◌∷◌, ◌++◌, some, none, pos, arith, true, codes, replicate,
  get_or, le32, le64, table, int64, bit_and-mask, length, trailing_zeros,
}
use udf.Reader.{ReaderAt, ok, fetch}
use udf.Reader.Memory.{memory, memory-Serves, in_file, in_file-InFile}
use udf.L2Cache
use udf.L2Cache.{Cache, look_up, cached, remember}
use udf.L2Cache.Sound.{IsSound, empty-IsSound, Reach, Step, cached-true}
use udf.L2Cache.Bounded.{Reach-hit}
use udf.Qed.{Disk, geometry, check_sizes, open_header, open_disk, read_disk, l2_max}
use udf.Qed.Geometry.{IsGeometry, IsQed, open_disk-IsQed}
use udf.Qed.Flat.{TablesInFile, table_at, base, read_disk-qed_byte}

-- Clusters of four bytes and tables of two entries. The second-level table stands at 8, and maps
-- the second cluster to offset 32.
abbrev content : ℕ → ℕ
content i =
    get_or
      (0 ∷ 0 ∷ 0 ∷ 0 ∷ 0 ∷ 0 ∷ 0 ∷ 0 ∷ 1 ∷ 0 ∷ 0 ∷ 0 ∷ 0 ∷ 0 ∷ 0 ∷ 0 ∷ 32 ∷ 0 ∷ 0 ∷ 0 ∷ 0 ∷ 0 ∷ 0
        ∷ 0 ∷ [])
      i i

abbrev small : Disk
small = record {
  ra = memory 36 content;
  cluster_size = 4;
  table_size = 1;
  table_bytes = 16;
  table_nelems = 2;
  cluster_bits = 2;
  l1_shift = 3;
  l2_mask = 1;
  disk_size = pos 12;
  l1 = 8 ∷ 0 ∷ [];
}

small-IsGeometry : IsGeometry small
small-IsGeometry = record {
  positive = omega arith;
  entries = omega arith;
  bytes = refl;
  shift = refl;
  mask = λ n. bit_and-mask 1 n;
}

small-TablesInFile : TablesInFile small 36
small-TablesInFile zero offset e n = ground arith
small-TablesInFile (suc zero) offset e n = ground arith
small-TablesInFile (suc (suc k)) offset e n = cc

small_mapped : in_file 4 (base small content) 12 36 ≡ true
unfolding table le64
small_mapped = refl

-- From the zero cluster into the data, and on into what no table maps.
read_disk-qed_byte_example :
    (c : Cache) × IsSound (table_at small content) l2_max c
    × (read_disk small L2Cache.empty (7 ∷ 7 ∷ 7 ∷ 7 ∷ 7 ∷ 7 ∷ 7 ∷ []) (pos 3)
        ≡ some (c, record { buf = 0 ∷ 32 ∷ 33 ∷ 34 ∷ 35 ∷ 0 ∷ 0 ∷ []; n = 7; fault = none }))
unfolding table le64
read_disk-qed_byte_example =
    read_disk-qed_byte small 12 36 content refl small-IsGeometry (memory-Serves 36 content)
      (omega arith) small-TablesInFile (in_file-InFile 4 (base small content) 12 36 small_mapped)
      L2Cache.empty (7 ∷ 7 ∷ 7 ∷ 7 ∷ 7 ∷ 7 ∷ 7 ∷ []) 3
      (empty-IsSound (table_at small content) l2_max) (omega arith)

-- Two goroutines miss the same table, and both remember it, in a cache of one.
abbrev double : ℕ → List ℕ
double n = n ∷ n ∷ []

abbrev raced : Cache
raced = remember 1 5 (double 5) (remember 1 5 (double 5) (look_up 5 (look_up 5 L2Cache.empty).1).1)

raced-Reach : Reach double 1 L2Cache.empty raced
raced-Reach =
    Reach.next
      (Reach.next
        (Reach.next (Reach.next Reach.start (Step.looked_up 5 L2Cache.empty))
          (Step.looked_up 5 (look_up 5 L2Cache.empty).1))
        (Step.remembered 5 _))
      (Step.remembered 5 _)

Reach-hit_example :
    (length raced.lru ≤ 1)
    × (length raced.index ≤ length raced.lru)
    × ((offset : ℕ) (entries : List ℕ)
        → (look_up offset raced).0 ≡ some entries
        → entries ≡ double offset)
Reach-hit_example = Reach-hit double 1 raced-Reach

cached-true_example :
    ((cached 2 (λ n. ok (double n)) 5 L2Cache.empty).0 ≡ ok (double 5))
    × IsSound double 2 (cached 2 (λ n. ok (double n)) 5 L2Cache.empty).1
cached-true_example =
    cached-true double 2 (λ n. ok (double n)) 5 L2Cache.empty refl (empty-IsSound double 2)

-- An image with 4 KiB clusters, whose first-level table at 4096 is empty.
abbrev header : List ℕ
header =
    codes "QED"
    ++ (0 ∷ 0 ∷ 16 ∷ 0 ∷ 0 ∷ 1 ∷ 0 ∷ 0 ∷ 0 ∷ 1 ∷ 0 ∷ 0 ∷ 0 ∷ [])
    ++ replicate 24 0
    ++ (0 ∷ 16 ∷ 0 ∷ 0 ∷ 0 ∷ 0 ∷ 0 ∷ 0 ∷ 12 ∷ 0 ∷ [])

abbrev image : ReaderAt
image = memory 8192 (λ i. get_or header i 0)

abbrev opened : Disk
opened = geometry image 4096 1 (pos 12) (replicate 512 0)

open_image : open_disk image ≡ ok opened
unfolding open_disk open_header check_sizes geometry fetch le32 le64 table int64 trailing_zeros
open_image = refl

open_disk-IsQed_example : IsQed image opened
open_disk-IsQed_example = open_disk-IsQed image opened open_image
