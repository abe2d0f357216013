-- ===== src/Parallels/Flat.antt =====
-- parallels/parallels.go: `Open` against the header, and `ReadAt` against the disk as a map of
-- clusters.
use udf.Prelude.{
  table, ℕ, ◌+◌, ◌*◌, ◌/◌, ◌%◌, ◌^◌, ◌≤◌, ◌<◌, ◌≡◌, ap, sym, Bool-cases, true, inl, inr, Option,
  none, some, List, length, ltb, lt→ltb, ◌==◌, if◌then◌else◌, pos, le32, length-table, arith,
}
use native.Mathlib.Nat.{div-div-eq-div-mul, div-add-mod', mod-lt}
use udf.Reader.{
  Result-cases, panic, ok, err, ReaderAt, fetch, Serves, Serves-int64, slice, bind-inverse,
}
use udf.Reader.Blocks.{block_byte, InFile, chunk-mapped, chunk-unmapped, chunk-InFile}
use udf.Reader.Chunks.Total.{flat, read-flat}
use udf.Parallels.{
  header_ver, header_size, Disk, read_bat, open_disk, entry_at, sector_chunk, sector_size, fill,
  read_at,
}

-- What `Open` has seen of an image that it accepts: its header, and the bytes behind that.
pub record IsParallels (ra : ReaderAt) (d : Disk) : Type 0 where
  pub reader : d.ra ≡ ra
  pub header : List ℕ
  pub header_read : fetch ra (pos 0) header_size ≡ ok header
  pub version : le32 header 16 ≡ header_ver
  pub tracks_word : d.tracks ≡ le32 header 28
  pub positive : 0 < d.tracks
  pub size_word : d.bat_size ≡ le32 header 32
  pub no_wrap : d.bat_size < 2 ^ 30
  pub raw : List ℕ
  pub raw_read : fetch ra (pos header_size) (le32 header 32 * 4) ≡ ok raw
  pub words : d.bat ≡ table le32 4 raw (le32 header 32) 0
  pub whole : length d.bat ≡ le32 header 32

read_bat-whole :
    (ra : ReaderAt) (n : ℕ) (bat : List ℕ)
    → read_bat ra n ≡ ok bat
    → (n < 2 ^ 30)
      × (raw : List ℕ) × (fetch ra (pos header_size) (n * 4) ≡ ok raw)
      × (bat ≡ table le32 4 raw n 0)
unfolding read_bat
read_bat-whole ra n bat h =
    let (b, e, r) = bind-inverse (fetch ra (pos header_size) (n * 4 % 2 ^ 32)) _ h in
    let small : n < 2 ^ 30 = ground arith in
    let fits : n * 4 % 2 ^ 32 ≡ n * 4 = omega arith in (small, b, rw fits at e, ground arith)

-- If `Open` returns a disk, the header at the start of the file has version 2, the sectors of a
-- cluster are its word at 28 and not zero, and the table has as many entries as its word at 32 says,
-- fewer than 2 ^ 30, which are the words that stand behind the header.
pub open_disk-IsParallels : (ra : ReaderAt) (d : Disk) → open_disk ra ≡ ok d → IsParallels ra d
unfolding open_disk
open_disk-IsParallels ra d h =
    let (hdr, e, r) = bind-inverse (fetch ra (pos 0) header_size) _ h in
    elim (Result-cases (read_bat ra (le32 hdr 32))) [
      | inr (x, bad) ↦ absurd (ground arith)
      | inl (bat, read) ↦
          let (small, raw, f, words) = read_bat-whole ra (le32 hdr 32) bat read in
          record {
            reader = ground arith;
            header = hdr;
            header_read = e;
            version = ground arith;
            tracks_word = ground arith;
            positive = ground arith;
            size_word = ground arith;
            no_wrap = ground arith;
            raw = raw;
            raw_read = f;
            words = ground arith;
            whole = ground (arith, length-table le32 4 raw (le32 hdr 32) 0);
          }
    ]

-- Cluster and offset in the cluster, by way of the sector.
by_sectors :
    (tracks off : ℕ)
    → 0 < tracks
    → (off / sector_size / tracks ≡ off / (sector_size * tracks))
      × (off / sector_size % tracks * sector_size + off % sector_size
          ≡ off % (sector_size * tracks))
by_sectors tracks off h =
    let e = div-div-eq-div-mul off sector_size tracks in
    (
      e,
      omega (
        arith,
        div-add-mod' off 512,
        div-add-mod' (off / 512) tracks,
        div-add-mod' off (512 * tracks),
        ap (λ (t : ℕ). t * (512 * tracks)) e,
      ),
    )

sector_chunk_bounds :
    (tracks off len : ℕ)
    → 0 < tracks
    → 0 < len
    → (0 < sector_chunk off len)
      × (sector_chunk off len ≤ len)
      × (off % (sector_size * tracks) + sector_chunk off len ≤ sector_size * tracks)
sector_chunk_bounds tracks off len h l =
    let (d, m) = by_sectors tracks off h in let b = mod-lt (off / sector_size) h in ground arith

abbrev pub cluster_size : Disk → ℕ
cluster_size d = sector_size * d.tracks

-- Where the format puts a cluster: not at all, or at the entry's multiple of `off_mult` sectors.
abbrev pub base : Disk → ℕ → Option ℕ
base d cluster =
    let bat = entry_at d cluster in if bat == 0 then none else some (bat * d.off_mult * sector_size)

abbrev pub bat_byte : Disk → (ℕ → ℕ) → ℕ → ℕ
bat_byte d = block_byte (cluster_size d) (base d)

module _ (d : Disk) (limit file_size : ℕ) (content : ℕ → ℕ) (sized : d.disk_size ≡ pos limit)
    (positive : 0 < d.tracks) (served : Serves d.ra file_size content) (small : file_size < 2 ^ 63)
    (mapped : InFile (cluster_size d) (base d) limit file_size) where
  fill-bat_byte :
      (off len : ℕ) (q : List ℕ)
      → 0 < len
      → off + len ≤ limit
      → length q ≡ sector_chunk off len
      → fill d off q ≡ (slice (bat_byte d content) off (length q), none)
  unfolding fill
  fill-bat_byte off len q l le e =
      let bounds = sector_chunk_bounds d.tracks off len positive l in
      let (div, rest) = by_sectors d.tracks off positive in
      elim (Bool-cases (entry_at d (off / cluster_size d) == 0)) [
        | inl hole ↦
            rw (div, hole)
              (ap (λ b. (b, none))
                (sym (
                  chunk-unmapped (cluster_size d) (base d) content off (length q) (omega arith)
                    (rw hole))))
        | inr there ↦
            let a = entry_at d (off / cluster_size d) * d.off_mult * sector_size in
            let b : base d (off / cluster_size d) ≡ some a = rw there in
            let inside =
              chunk-InFile (cluster_size d) (base d) content limit file_size off (length q) a mapped
                (omega arith) (omega arith) (omega arith) b in
            let same : (entry_at d (off / cluster_size d) * d.off_mult
                      + off / sector_size % d.tracks)
                    * sector_size
                  + off % sector_size
                ≡ a + off % cluster_size d =
              omega arith in
            let r = Serves-int64 (a + off % cluster_size d) q served small (omega arith) inside in
            rw (div, there, same, r)
              (ap (λ b. (b, none))
                (sym (
                  chunk-mapped (cluster_size d) (base d) content off (length q) a (omega arith) b)))
      ]

  -- Inside a disk of `limit` bytes with positive clusters, whose file serves `content` and holds every
  -- mapped cluster, `ReadAt` goes sector by sector and fills `p` up to the end of the disk with the
  -- bytes that the table describes cluster by cluster: zeros where an entry is 0 or missing, and else
  -- the bytes of the file at `entry * offMult` sectors. It returns how many these are, and no error.
  pub read_at-bat_byte :
      (p : List ℕ) (off : ℕ)
      → off < limit
      → read_at d p (pos off) ≡ some (flat (bat_byte d content) limit off p)
  unfolding read_at
  read_at-bat_byte p off h = simp sized (
      read-flat sector_chunk (fill d) (bat_byte d content) limit
        (λ o len l le. let (a, b, c) = sector_chunk_bounds d.tracks o len positive l in (a, b))
        fill-bat_byte p off h)

-- Where a header promises between 2 ^ 30 and 2 ^ 32 clusters and the file can be read, the decoding
-- of the table panics: the size of its buffer wraps in uint32, and the loop slices past its end.
pub read_bat-panic :
    (ra : ReaderAt) (n : ℕ) (buf : List ℕ)
    → 2 ^ 30 ≤ n
    → n < 2 ^ 32
    → fetch ra (pos header_size) (n * 4 % 2 ^ 32) ≡ ok buf
    → read_bat ra n ≡ err panic
unfolding read_bat
read_bat-panic ra n buf l h e =
    let wrapped : ltb (n * 4 % 2 ^ 32) (n * 4) ≡ true = lt→ltb _ _ (omega arith) in rw (e, wrapped)
