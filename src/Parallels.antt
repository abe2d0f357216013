-- ===== src/Parallels.antt =====
-- parallels/parallels.go: Parallels disk images, a header and one table of clusters.
pub mod Flat
use udf.Prelude.{
  ℕ, ◌+◌, ◌-◌, ◌*◌, ◌/◌, ◌%◌, ◌^◌, Bool, not, Option, none, some, List, length, get_or, take,
  replicate, ltb, ◌==◌, if◌then◌else◌, ℤ, pos, int64, le32, le64, table, bytes_eq, codes,
}
use udf.Reader.{
  Error, panic, bad_magic, unsupported, invalid, Result, ok, err, ◌>>=◌, ◌>>◌, refuse, Read,
  ReaderAt, fetch,
}
use udf.Reader.Chunks.{read}

abbrev pub sector_size : ℕ
sector_size = 512

abbrev pub header_size : ℕ
header_size = 64

abbrev pub header_ver : ℕ
header_ver = 2

pub record Disk : Type 0 where
  pub ra : ReaderAt
  pub tracks : ℕ
  pub off_mult : ℕ
  pub bat_size : ℕ
  pub bat : List ℕ
  pub disk_size : ℤ

-- The `switch` on the magic: `offMult` and `diskSize` of the two variants.
unfoldable pub variant : List ℕ → Result (ℕ × ℤ)
variant hdr =
    let magic = take 16 hdr in
    if bytes_eq magic (codes "WithoutFreeSpace")
    then ok (1, pos (le64 hdr 36 % 2 ^ 32 * sector_size))
    else if bytes_eq magic (codes "WithouFreSpacExt")
    then ok (le32 hdr 28, int64 (le64 hdr 36 * sector_size))
    else err bad_magic

-- `make([]byte, d.batSize*4)` in uint32 arithmetic, and the decoding loop, which slices out of
-- range where the product has wrapped.
unfoldable pub read_bat : ReaderAt → ℕ → Result (List ℕ)
read_bat ra bat_size = do
  buf ← fetch ra (pos header_size) (bat_size * 4 % 2 ^ 32)
  refuse (ltb (bat_size * 4 % 2 ^ 32) (bat_size * 4)) panic
  ok (table le32 4 buf bat_size 0)

-- `Open`
unfoldable pub open_disk : ReaderAt → Result Disk
open_disk ra = do
  hdr ← fetch ra (pos 0) header_size
  v ← variant hdr
  refuse (not (le32 hdr 16 == header_ver)) unsupported
  refuse (le32 hdr 28 == 0) invalid
  bat ← read_bat ra (le32 hdr 32)
  ok (record {
    ra = ra;
    tracks = le32 hdr 28;
    off_mult = v.0;
    bat_size = le32 hdr 32;
    bat = bat;
    disk_size = v.1;
  })

-- `bat`, which stays 0 past the end of the table.
abbrev pub entry_at : Disk → ℕ → ℕ
entry_at d cluster = if ltb cluster d.bat_size then get_or d.bat cluster 0 else 0

-- The `n` of a round: up to the end of the sector.
abbrev pub sector_chunk : ℕ → ℕ → ℕ
sector_chunk off len =
    if ltb len (sector_size - off % sector_size) then len else sector_size - off % sector_size

-- One round of `ReadAt` on `p[:n]`.
unfoldable pub fill : Disk → ℕ → List ℕ → List ℕ × Option Error
fill d off q =
    let sector = off / sector_size in
    let bat = entry_at d (sector / d.tracks) in
    let host_sector = bat * d.off_mult + sector % d.tracks in
    let r = d.ra (int64 (host_sector * sector_size + off % sector_size)) q in
    if bat == 0 then (replicate (length q) 0, none) else (r.buf, r.fault)

unfoldable pub read_at : Disk → List ℕ → ℤ → Option Read
read_at d p off = read sector_chunk (fill d) d.disk_size p off
