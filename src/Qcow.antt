-- ===== src/Qcow.antt =====
-- qcow/qcow.go: QCOW version 1 images, a two-level table of clusters that may be compressed, with a
-- cache of its second level.
pub mod Geometry
pub mod Flat
pub mod Open
use udf.Prelude.{
  ℕ, zero, suc, ◌+◌, ◌-◌, ◌*◌, ◌/◌, ◌%◌, ◌^◌, Bool, not, ◌||◌, Option, none, some, List, [], ◌∷◌,
  length, get_or, take, drop, replicate, ltb, leb, ◌==◌, if◌then◌else◌, ℤ, pos, negsuc, int64,
  sub_int64, lt_int64, be32, be64, table, bit_and,
}
use udf.Reader.{
  Error, eof, panic, device, bad_magic, unsupported, invalid, Result, ok, err, ◌>>=◌, ◌>>◌, refuse,
  Read, ReaderAt, fetch,
}
use udf.Reader.Chunks.{read_at}
use udf.L2Cache.{Cache, cached}

abbrev pub qcow_magic : ℕ
qcow_magic = 0x5146_49fb

abbrev pub qcow_version : ℕ
qcow_version = 1

abbrev pub qcow_oflag_compressed : ℕ
qcow_oflag_compressed = 2 ^ 63

abbrev pub max_l1_entries : ℕ
max_l1_entries = 2 ^ 22

-- `l2Max`
abbrev pub l2_max : ℕ
l2_max = 512

-- `cluster_size` and `l2_size` are the int64 fields' bit patterns.
pub record Disk : Type 0 where
  pub ra : ReaderAt
  pub cluster_size : ℕ
  pub cluster_bits : ℕ
  pub l2_bits : ℕ
  pub l2_size : ℕ
  pub shift : ℕ
  pub disk_size : ℤ
  pub cluster_offset_mask : ℕ
  pub l1 : List ℕ

-- `1 << n` of an int64, as a bit pattern.
abbrev pub one_shifted : ℕ → ℕ
one_shifted n = 2 ^ n % 2 ^ 64

-- `l1Size`, and `make`, which panics on a negative length: a negative sum stays negative when it is
-- shifted.
unfoldable pub l1_size : ℕ → ℕ → Result ℕ
l1_size disk_size shift =
    let sum = (disk_size + one_shifted shift + (2 ^ 64 - 1)) % 2 ^ 64 in
    do
      refuse (leb (2 ^ 63) sum) panic
      refuse (ltb max_l1_entries (sum / 2 ^ shift)) invalid
      ok (sum / 2 ^ shift)

-- The loop that reads the first-level table entry by entry, from entry `i` on.
unfoldable pub read_l1 : ReaderAt → ℕ → ℕ → ℕ → Result (List ℕ)
read_l1 ra l1_offset zero i = ok []
read_l1 ra l1_offset (suc n) i = do
  raw ← fetch ra (int64 (l1_offset + i * 8)) 8
  rest ← read_l1 ra l1_offset n (i + 1)
  ok (be64 raw 0 ∷ rest)

-- `x << count` of an uint64 by an int: a negative count panics.
unfoldable pub shl_uint64 : ℕ → ℤ → Result ℕ
shl_uint64 x (pos n) = ok (x * 2 ^ n % 2 ^ 64)
shl_uint64 x (negsuc n) = err panic

-- `63 - clusterBits`
abbrev pub mask_bits : ℕ → ℤ
mask_bits cluster_bits =
    if ltb 63 cluster_bits then negsuc (cluster_bits - 64) else pos (63 - cluster_bits)

-- The fields that `Open` computes from the header; `bit` is the shifted one of the offset mask.
unfoldable pub geometry : ReaderAt → ℕ → ℕ → ℕ → ℕ → List ℕ → Disk
geometry ra cluster_bits l2_bits bit disk_size l1 = record {
  ra = ra;
  cluster_size = one_shifted cluster_bits;
  cluster_bits = cluster_bits;
  l2_bits = l2_bits;
  l2_size = one_shifted l2_bits;
  shift = cluster_bits + l2_bits;
  disk_size = pos disk_size;
  cluster_offset_mask = bit - 1;
  l1 = l1;
}

-- `Open` behind the reading of the header.
unfoldable pub open_header : ReaderAt → List ℕ → Result Disk
open_header ra hdr = do
  refuse (not (be32 hdr 0 == qcow_magic) || not (be32 hdr 4 == qcow_version)) bad_magic
  refuse (ltb (get_or hdr 32 0) 9) invalid
  refuse (not (be32 hdr 36 == 0)) unsupported
  refuse (not (be32 hdr 16 == 0)) unsupported
  bit ← shl_uint64 1 (mask_bits (get_or hdr 32 0))
  refuse (be64 hdr 24 == 0 || leb (2 ^ 63) (be64 hdr 24)) invalid
  n ← l1_size (be64 hdr 24) (get_or hdr 32 0 + get_or hdr 33 0)
  l1 ← read_l1 ra (be64 hdr 40) n 0
  ok (geometry ra (get_or hdr 32 0) (get_or hdr 33 0) bit (be64 hdr 24) l1)

-- `Open`
unfoldable pub open_disk : ReaderAt → Result Disk
open_disk ra = do hdr ← fetch ra (pos 0) 48; open_header ra hdr

-- What `l2Table` reads from the file on a miss; `make` panics where a length is out of range.
unfoldable pub read_table : Disk → ℕ → Result (List ℕ)
read_table d offset = do
  refuse (d.l2_size == 2 ^ 60) panic
  raw ← fetch d.ra (int64 offset) (d.l2_size * 8 % 2 ^ 64)
  refuse (ltb (2 ^ 60) d.l2_size) panic
  ok (table be64 8 raw d.l2_size 0)

unfoldable pub l2_table : Disk → ℕ → Cache → Result (List ℕ) × Cache
l2_table d offset c = cached l2_max (read_table d) offset c

-- Where the data of a cluster stands: nowhere, in `csize` compressed bytes at `coffset`, or at an
-- offset of the file.
pub data Place : Type 0 where
  hole : Place
  compressed : (coffset csize : ℕ) → Place
  stored : (a : ℕ) → Place

-- The `switch` on a second-level entry.
unfoldable pub place : Disk → ℕ → Place
place d e =
    if e == 0
    then hole
    else if not (bit_and e qcow_oflag_compressed == 0)
    then compressed (bit_and e d.cluster_offset_mask)
        (bit_and (e / 2 ^ (63 - d.cluster_bits)) (d.cluster_size - 1))
    else stored e

unfoldable pub in_table : Disk → ℕ → Result (List ℕ) × Cache → Result Place × Cache
in_table d off (err e, c) = (err e, c)
in_table d off (ok l2, c) =
    let l2_index = bit_and (off / d.cluster_size) (d.l2_size - 1) in
    if ltb l2_index (length l2) then (ok (place d (get_or l2 l2_index 0)), c) else (ok hole, c)

unfoldable pub locate : Disk → ℕ → Cache → Result Place × Cache
locate d off c =
    let l1_index = off / 2 ^ d.shift in
    let l2_offset = get_or d.l1 l1_index 0 in
    if ltb l1_index (length d.l1)
    then (if l2_offset == 0 then (ok hole, c) else in_table d off (l2_table d l2_offset c))
    else (ok hole, c)

-- `err != nil && err != io.EOF`
abbrev pub tolerate : Option Error → Option Error
tolerate (some eof) = none
tolerate e = e

-- The `n` of a round, in int64 arithmetic.
abbrev pub room : Disk → ℕ → ℕ
room d off = sub_int64 d.cluster_size (off % d.cluster_size)

abbrev pub chunk : Disk → ℕ → ℕ → ℕ
chunk d off len = if lt_int64 (room d off) len then room d off else len

-- `inflate comp n` stands for `zlib.NewReader` on `comp` and `io.ReadFull` of `n` bytes from it.
module _ (inflate : List ℕ → ℕ → Result (List ℕ)) where
  unfoldable pub inflated : Disk → Read → Result (List ℕ)
  inflated d r = elim (tolerate r.fault) [
    | some e ↦ err device
    | none ↦ inflate r.buf d.cluster_size
  ]

  unfoldable pub decompress_cluster : Disk → ℕ → ℕ → Result (List ℕ)
  decompress_cluster d coffset csize = inflated d (d.ra (int64 coffset) (replicate csize 0))

  abbrev pub copied : ℕ → List ℕ → Result (List ℕ) → List ℕ × Option Error
  copied in_cluster q (err e) = (q, some e)
  copied in_cluster q (ok full) = (take (length q) (drop in_cluster full), none)

  -- The three ways in which a round fills `p[:n]`. `p[:n]` panics on a negative `n`.
  unfoldable pub serve_place : Disk → ℕ → List ℕ → Place → List ℕ × Option Error
  serve_place d off q hole =
      if leb (2 ^ 63) (room d off) then (q, some panic) else (replicate (length q) 0, none)
  serve_place d off q (compressed coffset csize) = copied (off % d.cluster_size) q (do
    full ← decompress_cluster d coffset csize
    refuse (leb (2 ^ 63) (room d off)) panic
    ok full)
  serve_place d off q (stored a) =
      let r = d.ra (int64 (a + off % d.cluster_size)) q in
      if leb (2 ^ 63) (room d off) then (q, some panic) else (r.buf, tolerate r.fault)

  unfoldable pub serve : Disk → ℕ → List ℕ → Result Place × Cache → Cache × List ℕ × Option Error
  serve d off q (err e, c) = (c, q, some e)
  serve d off q (ok at_, c) = let (b, fault) = serve_place d off q at_ in (c, b, fault)

  -- One round of `ReadAt` on `p[:n]`.
  unfoldable pub fill : Disk → Cache → ℕ → List ℕ → Cache × List ℕ × Option Error
  fill d c off q = serve d off q (locate d off c)

  unfoldable pub read_disk : Disk → Cache → List ℕ → ℤ → Option (Cache × Read)
  read_disk d c p off = read_at (chunk d) (fill d) d.disk_size c p off
