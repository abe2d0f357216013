-- ===== src/Qed.antt =====
-- qed/qed.go: QEMU Enhanced Disk images, a two-level table of clusters with a cache of its second
-- level.
pub mod Geometry
pub mod Flat
use udf.Prelude.{
  ℕ, ◌+◌, ◌-◌, ◌*◌, ◌/◌, ◌%◌, ◌^◌, Bool, not, ◌||◌, Option, none, some, List, length, get_or,
  replicate, ltb, ◌==◌, if◌then◌else◌, ℤ, pos, int64, le32, le64, table, bit_and, trailing_zeros,
}
use udf.Reader.{
  Error, eof, bad_magic, unsupported, invalid, Result, ok, err, ◌>>=◌, ◌>>◌, refuse, Read, ReaderAt,
  fetch,
}
use udf.Reader.Blocks.{block_chunk}
use udf.Reader.Chunks.{read_at}
use udf.L2Cache.{Cache, cached}

abbrev pub qed_magic : ℕ
qed_magic = 0x0044_4551

abbrev pub feature_backing_file : ℕ
feature_backing_file = 1

abbrev pub min_cluster_size : ℕ
min_cluster_size = 4 * 1024

abbrev pub max_cluster_size : ℕ
max_cluster_size = 64 * 1024 * 1024

abbrev pub min_table_size : ℕ
min_table_size = 1

abbrev pub max_table_size : ℕ
max_table_size = 16

-- `l2Max`
abbrev pub l2_max : ℕ
l2_max = 512

pub record Disk : Type 0 where
  pub ra : ReaderAt
  pub cluster_size : ℕ
  pub table_size : ℕ
  pub table_bytes : ℕ
  pub table_nelems : ℕ
  pub cluster_bits : ℕ
  pub l1_shift : ℕ
  pub l2_mask : ℕ
  pub disk_size : ℤ
  pub l1 : List ℕ

-- The fields that `Open` computes from the two sizes of the header.
unfoldable pub geometry : ReaderAt → ℕ → ℕ → ℤ → List ℕ → Disk
geometry ra cluster_size table_size disk_size l1 =
    let table_bytes = table_size * cluster_size in
    let table_nelems = table_bytes / 8 in
    let cluster_bits = trailing_zeros 32 cluster_size in
    record {
      ra = ra;
      cluster_size = cluster_size;
      table_size = table_size;
      table_bytes = table_bytes;
      table_nelems = table_nelems;
      cluster_bits = cluster_bits;
      l1_shift = cluster_bits + trailing_zeros 64 table_nelems;
      l2_mask = table_nelems - 1;
      disk_size = disk_size;
      l1 = l1;
    }

-- The checks of `Open` on the cluster size and on the table size.
unfoldable pub check_sizes : ℕ → ℕ → Result (Unit {0})
check_sizes cluster_size table_size = do
  refuse (ltb cluster_size min_cluster_size || ltb max_cluster_size cluster_size) invalid
  refuse (not (bit_and cluster_size (cluster_size - 1) == 0)) invalid
  refuse (ltb table_size min_table_size || ltb max_table_size table_size) invalid
  refuse (not (bit_and table_size (table_size - 1) == 0)) invalid

-- `Open` behind the reading of the header.
unfoldable pub open_header : ReaderAt → List ℕ → Result Disk
open_header ra hdr = do
  refuse (not (le32 hdr 0 == qed_magic)) bad_magic
  check_sizes (le32 hdr 4) (le32 hdr 8)
  refuse (ltb (le32 hdr 12) 1) invalid
  refuse (not (bit_and (le64 hdr 16) feature_backing_file == 0)) unsupported
  refuse (le64 hdr 40 == 0) invalid
  raw ← fetch ra (int64 (le64 hdr 40)) (le32 hdr 8 * le32 hdr 4)
  let l1 = table le64 8 raw (le32 hdr 8 * le32 hdr 4 / 8) 0
  ok (geometry ra (le32 hdr 4) (le32 hdr 8) (int64 (le64 hdr 48)) l1)

-- `Open`
unfoldable pub open_disk : ReaderAt → Result Disk
open_disk ra = do hdr ← fetch ra (pos 0) 512; open_header ra hdr

-- What `l2Table` reads from the file on a miss.
unfoldable pub read_table : Disk → ℕ → Result (List ℕ)
read_table d offset = do
  raw ← fetch d.ra (int64 offset) d.table_bytes
  ok (table le64 8 raw d.table_nelems 0)

unfoldable pub l2_table : Disk → ℕ → Cache → Result (List ℕ) × Cache
l2_table d offset c = cached l2_max (read_table d) offset c

-- The `switch` on a second-level entry: unallocated, a zero cluster, or the data's offset.
abbrev pub data_off : ℕ → ℕ → Option ℕ
data_off e in_cluster = if e == 0 then none else if e == 1 then none else some (e + in_cluster)

unfoldable pub in_table : Disk → ℕ → Result (List ℕ) × Cache → Result (Option ℕ) × Cache
in_table d off (err e, c) = (err e, c)
in_table d off (ok l2, c) =
    let l2_index = bit_and (off / d.cluster_size) d.l2_mask in
    if ltb l2_index (length l2)
    then (ok (data_off (get_or l2 l2_index 0) (off % d.cluster_size)), c)
    else (ok none, c)

-- Where the data of a byte stands, if it is allocated.
unfoldable pub locate : Disk → ℕ → Cache → Result (Option ℕ) × Cache
locate d off c =
    let l1_index = off / 2 ^ d.l1_shift in
    let l2_offset = get_or d.l1 l1_index 0 in
    if ltb l1_index (length d.l1)
    then (if l2_offset == 0 then (ok none, c) else in_table d off (l2_table d l2_offset c))
    else (ok none, c)

-- `err != nil && err != io.EOF`
abbrev pub tolerate : Option Error → Option Error
tolerate (some eof) = none
tolerate e = e

unfoldable pub serve : Disk → List ℕ → Result (Option ℕ) × Cache → Cache × List ℕ × Option Error
serve d q (err e, c) = (c, q, some e)
serve d q (ok none, c) = (c, replicate (length q) 0, none)
serve d q (ok (some a), c) = let r = d.ra (int64 a) q in (c, r.buf, tolerate r.fault)

-- One round of `ReadAt` on `p[:n]`.
unfoldable pub fill : Disk → Cache → ℕ → List ℕ → Cache × List ℕ × Option Error
fill d c off q = serve d q (locate d off c)

unfoldable pub read_disk : Disk → Cache → List ℕ → ℤ → Option (Cache × Read)
read_disk d c p off = read_at (block_chunk d.cluster_size) (fill d) d.disk_size c p off
