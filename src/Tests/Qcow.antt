-- ===== src/Tests/Qcow.antt =====
-- qcow/qcow.go: runs and witnesses.
use udf.Prelude.{
  ◌^◌, get_elem?, ◌≢◌, ◌/◌, ℕ, zero, suc, ◌+◌, ◌≤◌, ◌<◌, ◌≡◌, refl, List, [], ◌∷◌, ◌++◌, some, none,
  pos, arith, replicate, get_or, be16, be32, be64, table,
}
use udf.Reader.{ReaderAt, Result, ok, err, invalid}
use udf.Reader.Memory.{memory, memory-Serves}
use udf.L2Cache
use udf.L2Cache.{Cache}
use udf.L2Cache.Sound.{IsSound, empty-IsSound}
use udf.Qcow.{Disk, stored, compressed, l2_max, read_disk, geometry}
use udf.Qcow.Geometry.{IsGeometry}
use udf.Qcow.Flat.{HeldBy, table_at, place_at, read_disk-qcow_byte}

-- A decompressor of pairs of a count, which it passes over, and a byte.
abbrev inflate : List ℕ → ℕ → Result (List ℕ)
inflate (k ∷ (v ∷ [])) n = ok (replicate n v)
inflate [] n = err invalid
inflate (k ∷ []) n = err invalid
inflate (k ∷ (v ∷ (w ∷ rest))) n = err invalid

-- Clusters of four bytes and tables of two entries. The table at 8 has a cluster of two compressed
-- bytes at 40, and one that is stored at 32.
abbrev content : ℕ → ℕ
content i =
    get_or
      (0 ∷ 0 ∷ 0 ∷ 0 ∷ 0 ∷ 0 ∷ 0 ∷ 0 ∷ 192 ∷ 0 ∷ 0 ∷ 0 ∷ 0 ∷ 0 ∷ 0 ∷ 40 ∷ 0 ∷ 0 ∷ 0 ∷ 0 ∷ 0 ∷ 0 ∷ 0
        ∷ 32 ∷ [])
      i i

abbrev small : Disk
small = record {
  ra = memory 42 content;
  cluster_size = 4;
  cluster_bits = 2;
  l2_bits = 1;
  l2_size = 2;
  shift = 3;
  disk_size = pos 12;
  cluster_offset_mask = 2_305_843_009_213_693_951;
  l1 = 8 ∷ 0 ∷ [];
}

small-IsGeometry : IsGeometry small
small-IsGeometry = record {
  few_bits = omega arith;
  few_entries = omega arith;
  cluster = refl;
  entries = refl;
  both = refl;
  mask = refl;
}

small_tables : (k offset : ℕ) → get_elem? small.l1 k ≡ some offset → offset ≢ 0 → offset + 16 ≤ 42
small_tables zero offset e n = ground arith
small_tables (suc zero) offset e n = ground arith
small_tables (suc (suc k)) offset e n = cc

small_data : (cluster a : ℕ) → cluster < 3 → place_at small content cluster ≡ stored a → a + 4 ≤ 42
unfolding table be64 be32 be16
small_data zero a h e = cc
small_data (suc zero) a h e = ground arith
small_data (suc (suc zero)) a h e = cc
small_data (suc (suc (suc cluster))) a h e = absurd (omega arith)

small_packed :
    (cluster coffset csize : ℕ)
    → cluster < 3
    → place_at small content cluster ≡ compressed coffset csize
    → (coffset ≡ 40) × (csize ≡ 2)
unfolding table be64 be32 be16
small_packed zero coffset csize h e = ground arith
small_packed (suc zero) coffset csize h e = cc
small_packed (suc (suc zero)) coffset csize h e = cc
small_packed (suc (suc (suc cluster))) coffset csize h e = absurd (omega arith)

small-HeldBy : HeldBy inflate small content 12 42
small-HeldBy = record {
  tables = small_tables;
  data_ = λ i a h e. let fits = small_data (i / 4) a (omega arith) e in omega arith;
  packed = λ i coffset csize h e.
      let (x, y) = small_packed (i / 4) coffset csize (omega arith) e in
      (omega arith, omega arith, 41 ∷ 41 ∷ 41 ∷ 41 ∷ [], rw (x, y), refl);
}

-- From the compressed cluster into the stored one, and on into what no table maps.
read_disk-qcow_byte_example :
    (c : Cache) × IsSound (table_at small content) l2_max c
    × (read_disk inflate small L2Cache.empty (7 ∷ 7 ∷ 7 ∷ 7 ∷ 7 ∷ 7 ∷ 7 ∷ []) (pos 3)
        ≡ some (c, record { buf = 41 ∷ 32 ∷ 33 ∷ 34 ∷ 35 ∷ 0 ∷ 0 ∷ []; n = 7; fault = none }))
unfolding table be64 be32 be16
read_disk-qcow_byte_example =
    read_disk-qcow_byte inflate small 12 42 content refl small-IsGeometry (memory-Serves 42 content)
      (omega arith) small-HeldBy L2Cache.empty (7 ∷ 7 ∷ 7 ∷ 7 ∷ 7 ∷ 7 ∷ 7 ∷ []) 3 (omega arith)
      (empty-IsSound (table_at small content) l2_max) (omega arith)

-- A header of a disk of 12 bytes with the given number of cluster bits.
abbrev header : ℕ → List ℕ
header cluster_bits =
    (81 ∷ 70 ∷ 73 ∷ 251 ∷ 0 ∷ 0 ∷ 0 ∷ 1 ∷ [])
    ++ replicate 16 0
    ++ (0 ∷ 0 ∷ 0 ∷ 0 ∷ 0 ∷ 0 ∷ 0 ∷ 12 ∷ cluster_bits ∷ 6 ∷ 0 ∷ 0 ∷ 0 ∷ 0 ∷ 0 ∷ 0 ∷ [])
    ++ (0 ∷ 0 ∷ 0 ∷ 0 ∷ 0 ∷ 0 ∷ 0 ∷ 48 ∷ [])

abbrev image : ℕ → ReaderAt
image cluster_bits = memory 56 (λ i. get_or (header cluster_bits) i 0)

abbrev opened : Disk
opened = geometry (image 9) 9 6 (2 ^ 54) 12 (0 ∷ [])
