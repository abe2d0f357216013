-- ===== src/Vmdk.antt =====
-- vmdk/vmdk.go: VMware sparse extents, a table of grains that may be compressed.
pub mod Grains
pub mod Flat
pub mod Open
use udf.Prelude.{
  ℕ, zero, suc, ◌+◌, ◌-◌, ◌*◌, ◌/◌, ◌%◌, ◌^◌, Bool, true, false, not, ◌&&◌, ◌||◌, Option, none,
  some, List, [], ◌∷◌, ◌++◌, length, get_or, take, drop, replicate, ltb, leb, ◌==◌, if◌then◌else◌,
  ℤ, pos, int64, lt_int64, add_int64, quot_int64, le32, le64, table, bit_and,
}
use mathlib.Core.Option
use udf.Reader.{
  Error, panic, device, stopped, bad_magic, invalid, Result, ok, err, ◌>>=◌, ◌>>◌, refuse, Read,
  ReaderAt, fetch,
}
use udf.Reader.Chunks.{outcome, read_at}

abbrev pub sector_size : ℕ
sector_size = 512

abbrev pub sparse_magic : ℕ
sparse_magic = 0x564d_444b

abbrev pub flag_compress : ℕ
flag_compress = 2 ^ 16

abbrev pub flag_embed_lba : ℕ
flag_embed_lba = 2 ^ 17

-- `size`, `last_grain` and `last_grain_size` are the bit patterns of int64 fields.
pub record Disk : Type 0 where
  pub ra : ReaderAt
  pub size : ℕ
  pub grain_bytes : ℕ
  pub grain_sectors : ℕ
  pub last_grain : ℕ
  pub last_grain_size : ℕ
  pub is_compressed : Bool
  pub embed_lba : Bool
  pub gt : List ℕ

-- `gtes`: one entry more where the last grain is short.
abbrev pub entries : ℕ → ℕ → ℕ
entries last_grain last_grain_size =
    if last_grain_size == 0 then last_grain else add_int64 last_grain 1

-- `(n + unit - 1) / unit`
abbrev pub units : ℕ → ℕ → ℕ
units n unit = quot_int64 ((n + unit + (2 ^ 64 - 1)) % 2 ^ 64) unit

-- The bytes of a table of `n` 32-bit entries, in whole sectors.
abbrev pub sector_bytes : ℕ → ℕ
sector_bytes n = units (n * 4 % 2 ^ 64) sector_size * sector_size % 2 ^ 64

-- `make`, which panics on a negative length.
abbrev pub make_len : ℕ → Result (Unit {0})
make_len n = refuse (leb (2 ^ 63) n) panic

-- The entries of the grain tables from table `i` on, of which `left` entries are still to fill.
-- A table that the directory leaves open is zeros.
unfoldable pub read_tables : ReaderAt → List ℕ → ℕ → ℕ → ℕ → ℕ → Result (List ℕ)
read_tables ra gd per_gt zero i left = ok (replicate left 0)
read_tables ra gd per_gt (suc gts) i left =
    let n = if ltb left per_gt then left else per_gt in
    let gt_sector = le32 gd (i * 4) in
    let raw = fetch ra (int64 (gt_sector * sector_size)) (sector_bytes per_gt) in
    let rest = read_tables ra gd per_gt gts (i + 1) (left - n) in
    do
      entries ←
          if gt_sector == 0 || gt_sector == 1
          then ok (replicate n 0)
          else raw >>= λ buf. ok (table le32 4 buf n 0)
      more ← rest
      ok (entries ++ more)

-- The reading of the grain directory and of its tables.
unfoldable pub read_gt : ReaderAt → ℕ → ℕ → ℕ → Result (List ℕ)
read_gt ra gd_offset per_gt gtes = do
  let gts = units gtes per_gt
  make_len (sector_bytes gts)
  gd ← fetch ra (int64 (gd_offset * sector_size)) (sector_bytes gts)
  make_len gtes
  read_tables ra gd per_gt gts 0 gtes

abbrev pub last_grain : List ℕ → ℕ
last_grain hdr = quot_int64 (le64 hdr 12) (le64 hdr 20)

abbrev pub last_grain_size : List ℕ → ℕ
last_grain_size hdr = bit_and (le64 hdr 12) (le64 hdr 20 - 1) * sector_size

-- The `Disk` that `Open` fills in from the header.
unfoldable pub geometry : ReaderAt → List ℕ → List ℕ → Disk
geometry ra hdr gt = record {
  ra = ra;
  size = le64 hdr 12 * sector_size % 2 ^ 64;
  grain_bytes = le64 hdr 20 * sector_size;
  grain_sectors = le64 hdr 20;
  last_grain = last_grain hdr;
  last_grain_size = last_grain_size hdr;
  is_compressed = not (bit_and (le32 hdr 8) flag_compress == 0);
  embed_lba = not (bit_and (le32 hdr 8) flag_embed_lba == 0);
  gt = gt;
}

-- `grainSectors < 1 || grainSectors > 128 || grainSectors&(grainSectors-1) != 0`
unfoldable pub bad_grain : ℕ → Bool
bad_grain gs = gs == 0 || leb (2 ^ 63) gs || ltb 128 gs || not (bit_and gs (gs - 1) == 0)

-- `Open` behind the reading of the header.
unfoldable pub open_header : ReaderAt → List ℕ → Result Disk
open_header ra hdr = do
  refuse (not (le32 hdr 0 == sparse_magic)) bad_magic
  refuse (bad_grain (le64 hdr 20)) invalid
  let gtes = entries (last_grain hdr) (last_grain_size hdr)
  refuse (gtes == 0 || le32 hdr 44 == 0) invalid
  gt ← read_gt ra (le64 hdr 56) (le32 hdr 44) gtes
  ok (geometry ra hdr gt)

-- `Open`
unfoldable pub open_disk : ReaderAt → Result Disk
open_disk ra = do hdr ← fetch ra (pos 0) sector_size; open_header ra hdr

-- `grainSize` and `readLen`
abbrev pub is_last : Disk → ℕ → Bool
is_last d grain = grain == d.last_grain && not (d.last_grain_size == 0)

abbrev pub grain_size : Disk → ℕ → ℕ
grain_size d grain = if is_last d grain then d.last_grain_size else d.grain_bytes

abbrev pub read_len : Disk → ℕ → ℕ → ℕ
read_len d off len =
    let room = grain_size d (off / d.grain_bytes) - off % d.grain_bytes in
    if ltb len room then len else room

-- The three tests that break out of the loop.
unfoldable pub stops : Disk → ℕ → Bool
stops d off =
    let grain = off / d.grain_bytes in
    (not (is_last d grain) && lt_int64 d.last_grain grain)
    || leb (grain_size d grain) (off % d.grain_bytes)
    || leb (length d.gt) grain

abbrev pub hdr_len : Disk → ℕ
hdr_len d = if d.embed_lba then 12 else 4

-- `extra`: what the payload needs behind the first sector, in whole sectors.
abbrev pub extra : ℕ → ℕ
extra total =
    if ltb sector_size total
    then (total - sector_size + (sector_size - 1)) / sector_size * sector_size
    else 0

-- `inflate comp n` stands for `zlib.NewReader` on `comp` and `io.ReadFull` of `n` bytes from it: the
-- bytes read, also where the stream ends early, which is no error here.
module _ (inflate : List ℕ → ℕ → Result (List ℕ)) where
  -- The compressed payload behind the first sector's header. `readBuf` has room for a grain and a
  -- sector, and a slice of it past that panics.
  unfoldable pub payload : Disk → ℕ → List ℕ → ℕ → ℕ → Result (List ℕ)
  payload d sector first hdrlen cmp = do
    let total = hdrlen + cmp
    refuse (ltb d.grain_bytes (extra total)) panic
    more ←
        if ltb sector_size total
        then fetch d.ra (int64 ((sector + 1) * sector_size)) (extra total)
        else ok []
    refuse (ltb (d.grain_bytes + sector_size) total) panic
    ok (take cmp (drop hdrlen (first ++ more)))

  -- What a read of a grain leaves in `grainBuf`: bytes that the stream does not reach stay as the
  -- last grain left them.
  abbrev pub over : List ℕ → List ℕ → List ℕ
  over out grain_buf = out ++ drop (length out) grain_buf

  unfoldable pub load_grain : Disk → ℕ → List ℕ → Result (List ℕ)
  load_grain d sector grain_buf =
      if d.is_compressed
      then (do
        first ← fetch d.ra (int64 (sector * sector_size)) sector_size
        comp ← payload d sector first (hdr_len d) (le32 first (hdr_len d - 4))
        out ← inflate comp d.grain_bytes
        ok (over out grain_buf))
      else fetch d.ra (int64 (sector * sector_size)) d.grain_bytes

  -- `readGrain`: the new `grainBuf`, and `dst`.
  abbrev pub copied : ℕ → List ℕ → List ℕ → Result (List ℕ) → List ℕ × List ℕ × Option Error
  copied skip grain_buf q (err e) = (grain_buf, q, some e)
  copied skip grain_buf q (ok grain) = (grain, take (length q) (drop skip grain), none)

  unfoldable pub read_grain : Disk → ℕ → ℕ → List ℕ → List ℕ → List ℕ × List ℕ × Option Error
  read_grain d sector skip grain_buf q = copied skip grain_buf q (load_grain d sector grain_buf)

  -- One round of `ReadAt` on `p[:readLen]`.
  unfoldable pub fill : Disk → List ℕ → ℕ → List ℕ → List ℕ × List ℕ × Option Error
  fill d grain_buf off q =
      let sector = get_or d.gt (off / d.grain_bytes) 0 in
      if stops d off
      then (grain_buf, q, some stopped)
      else if sector == 0 || sector == 1
      then (grain_buf, replicate (length q) 0, none)
      else read_grain d sector (off % d.grain_bytes) grain_buf q

  -- A `break` ends the loop as its condition does.
  abbrev pub broken : Read → Read
  broken r = elim r.fault [ some stopped ↦ record r { fault = outcome none r.n } | _ ↦ r ]

  unfoldable pub read_disk : Disk → List ℕ → ℤ → Option Read
  read_disk d p off =
      Option.map (λ r. broken r.1)
        (read_at (read_len d) (fill d) (int64 d.size) (replicate d.grain_bytes 0) p off)
