-- ===== src/Vdi/Flat.antt =====
-- vdi/vdi.go: `Open` against the header, and `ReadAt` against the disk as a map of blocks.
use udf.Prelude.{
  le32, length-table, length, ℕ, ◌+◌, ◌*◌, ◌<◌, ◌≡◌, inl, inr, Option, none, some, List, length,
  leb, if◌then◌else◌, pos, arith,
}
use udf.Reader.{ok, ReaderAt, fetch, bind-inverse, Result-cases}
use udf.Reader.Blocks.{block_byte}
use udf.Vdi.{vdi_signature, open_header, Disk, open_disk, entry_at, discarded}

-- What `Open` has seen of the image that it accepts.
pub record IsVdi (ra : ReaderAt) (d : Disk) (hdr : List ℕ) : Type 0 where
  pub read : fetch ra (pos 0) 512 ≡ ok hdr
  pub signed : le32 hdr 0x40 ≡ vdi_signature
  pub plain : le32 hdr 0x17c ≡ 0
  pub reader : d.ra ≡ ra
  pub positive : 0 < d.block_size
  pub whole : length d.bmap ≡ le32 hdr 0x180

-- If `Open` returns a disk, it has read a header of 512 bytes with the signature and without
-- compressed blocks, the block size is positive, and the map has as many entries as the header says.
pub open_disk-IsVdi :
    (ra : ReaderAt) (d : Disk) → open_disk ra ≡ ok d → (hdr : List ℕ) × IsVdi ra d hdr
unfolding open_disk
open_disk-IsVdi ra d h =
    let (hdr, e, r) = bind-inverse (fetch ra (pos 0) 512) (open_header ra) h in
    elim (Result-cases (fetch ra (pos (le32 hdr 0x154)) (le32 hdr 0x180 * 4))) [
      | inl (raw, e') ↦
          (hdr, unfold open_header in ground (arith, length-table le32 4 raw (le32 hdr 0x180) 0))
      | inr (x, bad) ↦ absurd (unfold open_header in ground arith)
    ]

-- Where the format puts a block: not at all, or `entry` blocks behind the start of the data.
abbrev pub base : Disk → ℕ → Option ℕ
base d block =
    let entry = entry_at d block in
    if leb discarded entry then none else some (d.offset_data + entry * d.block_size)

abbrev pub vdi_byte : Disk → (ℕ → ℕ) → ℕ → ℕ
vdi_byte d = block_byte d.block_size (base d)
