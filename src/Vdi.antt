-- ===== src/Vdi.antt =====
-- vdi/vdi.go: VirtualBox disk images, a header and one table of blocks.
pub mod Flat
use udf.Prelude.{
  ℕ, ◌+◌, ◌-◌, ◌*◌, ◌/◌, ◌%◌, Bool, not, Option, none, some, List, ◌∷◌, length, get_or, replicate,
  ltb, leb, ◌==◌, if◌then◌else◌, ℤ, pos, int64, le32, le64, table,
}
use udf.Reader.{
  Error, bad_magic, unsupported, invalid, Result, ok, ◌>>=◌, ◌>>◌, refuse, Read, ReaderAt, fetch,
}
use udf.Reader.Blocks.{block_chunk}
use udf.Reader.Chunks.{read}

abbrev pub vdi_signature : ℕ
vdi_signature = 0xbeda_107f

abbrev pub unallocated : ℕ
unallocated = 0xffff_ffff

abbrev pub discarded : ℕ
discarded = 0xffff_fffe

pub record Disk : Type 0 where
  pub ra : ReaderAt
  pub block_size : ℕ
  pub disk_size : ℤ
  pub offset_data : ℕ
  pub bmap : List ℕ

-- `Open` behind the reading of the header: it is checked before the block map is read.
unfoldable pub open_header : ReaderAt → List ℕ → Result Disk
open_header ra hdr = do
  refuse (not (le32 hdr 0x40 == vdi_signature)) bad_magic
  refuse (not (le32 hdr 0x17c == 0)) unsupported
  refuse (le32 hdr 0x178 == 0) invalid
  raw ← fetch ra (pos (le32 hdr 0x154)) (le32 hdr 0x180 * 4)
  ok (record {
    ra = ra;
    block_size = le32 hdr 0x178;
    disk_size = int64 (le64 hdr 0x170);
    offset_data = le32 hdr 0x158;
    bmap = table le32 4 raw (le32 hdr 0x180) 0;
  })

-- `Open`
unfoldable pub open_disk : ReaderAt → Result Disk
open_disk ra = do hdr ← fetch ra (pos 0) 512; open_header ra hdr

-- `entry`, which stays `unallocated` past the end of the map.
abbrev pub entry_at : Disk → ℕ → ℕ
entry_at d block = get_or d.bmap block unallocated

-- One round of `ReadAt` on `p[:n]`: zeros, or the bytes of the block that the file holds.
unfoldable pub fill : Disk → ℕ → List ℕ → List ℕ × Option Error
fill d off q =
    let entry = entry_at d (off / d.block_size) in
    let data_off = int64 (d.offset_data + entry * d.block_size + off % d.block_size) in
    let r = d.ra data_off q in
    if leb discarded entry then (replicate (length q) 0, none) else (r.buf, r.fault)

unfoldable pub read_at : Disk → List ℕ → ℤ → Option Read
read_at d p off = read (block_chunk d.block_size) (fill d) d.disk_size p off
