-- ===== src/Vmdk/Flat.antt =====
-- vmdk/vmdk.go: `ReadAt` against the disk as a table of grains.
use udf.Prelude.{
  ℕ, zero, suc, ◌+◌, ◌-◌, ◌*◌, ◌/◌, ◌%◌, ◌^◌, ◌≤◌, ◌<◌, ◌≡◌, refl, ap, sym, ◌∙◌, Bool, true, false,
  ◌||◌, Bool-cases, inl, inr, none, some, List, [], ◌∷◌, ◌++◌, length, get_or, get_or-append_left,
  take, drop, length-append, replicate, ltb, ◌==◌, if◌then◌else◌, pos, int64, int64_of_lt, arith,
  le32,
}
use udf.Reader.{Result, ok, err, fetch-Serves, Serves, slice}
use udf.Reader.Blocks.{slice-cong, slice-zeros, slice-get_or, same_block}
use udf.Reader.Chunks.{outcome}
use udf.Reader.Chunks.Total.{flat, read_at-flat, slice-add, length-slice}
use udf.Vmdk.{
  Disk, sector_size, grain_size, read_len, hdr_len, extra, payload, over, load_grain, read_grain,
  fill, broken, read_disk,
}
use udf.Vmdk.Grains.{IsGeometry, grain_bounds, stops-false, read_len_bounds}

-- A sector number that stands for a grain of zeros.
abbrev pub is_zeros : ℕ → Bool
is_zeros sector = sector == 0 || sector == 1

-- The size of a compressed grain, which stands in front of it, and its bytes.
abbrev pub cmp_size : Disk → (ℕ → ℕ) → ℕ → ℕ
cmp_size d content sector = le32 (slice content (sector * sector_size) sector_size) (hdr_len d - 4)

abbrev pub stream : Disk → (ℕ → ℕ) → ℕ → List ℕ
stream d content sector =
    slice content (sector * sector_size + hdr_len d) (cmp_size d content sector)

abbrev pub inflation : Result (List ℕ) → List ℕ
inflation (ok full) = full
inflation (err e) = []

module _ (inflate : List ℕ → ℕ → Result (List ℕ)) (d : Disk) (content : ℕ → ℕ) where
  -- The byte at `j` of the grain at a sector.
  abbrev pub grain_byte : ℕ → ℕ → ℕ
  grain_byte sector j =
      if is_zeros sector
      then 0
      else if d.is_compressed
      then get_or (inflation (inflate (stream d content sector) d.grain_bytes)) j 0
      else content (sector * sector_size + j)

  abbrev pub vmdk_byte : ℕ → ℕ
  vmdk_byte i = grain_byte (get_or d.gt (i / d.grain_bytes) 0) (i % d.grain_bytes)

  -- The file holds every grain that the table gives a sector. A compressed grain fits the buffers,
  -- and its stream inflates to no less than the bytes of it that belong to the disk.
  pub record HeldBy (limit file_size : ℕ) : Type 0 where
    pub stored :
        (i : ℕ)
        → i < limit
        → is_zeros (get_or d.gt (i / d.grain_bytes) 0) ≡ false
        → d.is_compressed ≡ false
        → get_or d.gt (i / d.grain_bytes) 0 * sector_size + d.grain_bytes ≤ file_size
    pub packed :
        (i : ℕ)
        → i < limit
        → is_zeros (get_or d.gt (i / d.grain_bytes) 0) ≡ false
        → d.is_compressed ≡ true
        → (get_or d.gt (i / d.grain_bytes) 0 * sector_size
              + sector_size
              + extra (hdr_len d + cmp_size d content (get_or d.gt (i / d.grain_bytes) 0))
            ≤ file_size)
          × (hdr_len d + cmp_size d content (get_or d.gt (i / d.grain_bytes) 0)
              ≤ d.grain_bytes + sector_size)
          × (full : List ℕ) × (inflate
                (stream d content (get_or d.gt (i / d.grain_bytes) 0))
                d.grain_bytes
              ≡ ok full)
          × (grain_size d (i / d.grain_bytes) ≤ length full)

take-drop-slice :
    (content : ℕ → ℕ) (off skip n m : ℕ)
    → skip + n ≤ m
    → take n (drop skip (slice content off m)) ≡ slice content (off + skip) n
take-drop-slice content off zero zero m h = refl
take-drop-slice content off zero (suc n) zero h = absurd (omega arith)
take-drop-slice content off zero (suc n) (suc m) h =
    let o : off + zero ≡ off = omega arith in
    let rest = take-drop-slice content (off + 1) zero n m (omega arith) in
    let z : off + 1 + zero ≡ off + 1 = omega arith in
    rw (o) (ap (λ t. content off ∷ t) (rest ∙ ap (λ a. slice content a n) z))
take-drop-slice content off (suc skip) n zero h = absurd (omega arith)
take-drop-slice content off (suc skip) n (suc m) h =
    let o : off + 1 + skip ≡ off + suc skip = omega arith in
    take-drop-slice content (off + 1) skip n m (omega arith) ∙ ap (λ a. slice content a n) o

get_or-slice :
    (content : ℕ → ℕ) (off n j : ℕ) → j < n → get_or (slice content off n) j 0 ≡ content (off + j)
get_or-slice content off zero j h = absurd (omega arith)
get_or-slice content off (suc n) zero h = let e : off + zero ≡ off = omega arith in rw e
get_or-slice content off (suc n) (suc j) h =
    let e : off + 1 + j ≡ off + suc j = omega arith in
    get_or-slice content (off + 1) n j (omega arith) ∙ ap content e

-- Two reads that follow one another, and a part of both.
joined :
    (content : ℕ → ℕ) (off n m skip len : ℕ) {first more : List ℕ}
    → first ≡ slice content off n
    → more ≡ slice content (off + n) m
    → skip + len ≤ n + m
    → take len (drop skip (first ++ more)) ≡ slice content (off + skip) len
joined content off n m skip len {first} {more} e f h =
    let whole = slice-add content off n m in
    rw (e, f, sym whole) (take-drop-slice content off skip len (n + m) h)

hdr_len_bounds : (d : Disk) → (4 ≤ hdr_len d) × (hdr_len d ≤ 12)
hdr_len_bounds d = ground arith

module _ (inflate : List ℕ → ℕ → Result (List ℕ)) (d : Disk) (limit file_size : ℕ) (content : ℕ → ℕ)
    (g : IsGeometry d limit) (served : Serves d.ra file_size content) (small : file_size < 2 ^ 63)
    (held : HeldBy inflate d content limit file_size) where
  -- The payload of a compressed grain is read whole.
  payload-slice :
      (sector hdrlen cmp : ℕ) (first : List ℕ)
      → first ≡ slice content (sector * sector_size) sector_size
      → hdrlen ≤ 12
      → sector * sector_size + sector_size + extra (hdrlen + cmp) ≤ file_size
      → hdrlen + cmp ≤ d.grain_bytes + sector_size
      → payload inflate d sector first hdrlen cmp
        ≡ ok (slice content (sector * sector_size + hdrlen) cmp)
  unfolding payload
  payload-slice sector hdrlen cmp first e few h l =
      let ws = g.whole_sectors in
      let fits : ltb (d.grain_bytes + sector_size) (hdrlen + cmp) ≡ false = ground arith in
      let next : (sector + 1) * sector_size ≡ sector * sector_size + sector_size = omega arith in
      elim (Bool-cases (ltb sector_size (hdrlen + cmp))) [
        | inl more ↦
            let up = (hdrlen + cmp - sector_size + (sector_size - 1)) / sector_size * sector_size in
            let h' : sector * sector_size + sector_size + up ≤ file_size = rw more at h in
            let room : ltb d.grain_bytes up ≡ false = ground arith in
            let r =
              fetch-Serves (sector * sector_size + sector_size) up served small (ground arith) h' in
            rw (more, room, next, r, fits)
              (ap ok (
                joined content (sector * sector_size) sector_size up hdrlen cmp e refl
                  (ground arith)))
        | inr less ↦
            let none_more =
              joined content (sector * sector_size) sector_size 0 hdrlen cmp e refl
                (ground arith) in
            let room : ltb d.grain_bytes 0 ≡ false = ground arith in
            rw (less, room, fits) (ap ok none_more)
      ]

  -- What the loader leaves in the grain buffer, past the bytes it need not fill.
  abbrev Loads : ℕ → ℕ → Result (List ℕ) → Type 0
  Loads sector used r =
      (buf : List ℕ) × (r ≡ ok buf)
      × (used ≤ length buf)
      × ((j : ℕ) → j < used → get_or buf j 0 ≡ grain_byte inflate d content sector j)

  stored-Loads :
      (sector used : ℕ) (grain_buf : List ℕ)
      → used ≤ d.grain_bytes
      → is_zeros sector ≡ false
      → d.is_compressed ≡ false
      → sector * sector_size + d.grain_bytes ≤ file_size
      → Loads sector used (load_grain inflate d sector grain_buf)
  unfolding load_grain
  stored-Loads sector used grain_buf within z plain fits =
      let r = fetch-Serves (sector * sector_size) d.grain_bytes served small g.some_bytes fits in
      let buf = slice content (sector * sector_size) d.grain_bytes in
      let l = length-slice content (sector * sector_size) d.grain_bytes in
      (
        buf,
        rw (plain, r),
        rw l within,
        λ j k.
            rw (z, plain)
              (get_or-slice content (sector * sector_size) d.grain_bytes j (omega arith)),
      )

  packed-Loads :
      (sector used : ℕ) (grain_buf full : List ℕ)
      → is_zeros sector ≡ false
      → d.is_compressed ≡ true
      → sector * sector_size + sector_size + extra (hdr_len d + cmp_size d content sector)
        ≤ file_size
      → hdr_len d + cmp_size d content sector ≤ d.grain_bytes + sector_size
      → inflate (stream d content sector) d.grain_bytes ≡ ok full
      → used ≤ length full
      → Loads sector used (load_grain inflate d sector grain_buf)
  unfolding load_grain
  packed-Loads sector used grain_buf full z c fits l inflates whole =
      let (lo, hi) = hdr_len_bounds d in
      let first = slice content (sector * sector_size) sector_size in
      let r =
        fetch-Serves (sector * sector_size) sector_size served small (omega arith) (omega arith) in
      let p = payload-slice sector (hdr_len d) (cmp_size d content sector) first refl hi fits l in
      let buf = over inflate full grain_buf in
      let n = length-append full (drop (length full) grain_buf) in
      (
        buf,
        simp (c, r, p, inflates),
        omega arith,
        λ j k. rw (z, c, inflates) (get_or-append_left full _ j 0 (omega arith)),
      )

  load_grain-Loads :
      (off : ℕ) (grain_buf : List ℕ)
      → off < limit
      → is_zeros (get_or d.gt (off / d.grain_bytes) 0) ≡ false
      → Loads
          (get_or d.gt (off / d.grain_bytes) 0)
          (grain_size d (off / d.grain_bytes))
          (load_grain inflate d (get_or d.gt (off / d.grain_bytes) 0) grain_buf)
  unfolding load_grain
  load_grain-Loads off grain_buf h z =
      let sector = get_or d.gt (off / d.grain_bytes) 0 in
      elim (Bool-cases d.is_compressed) [
        | inr plain ↦
            let fits = held.stored off h z plain in
            stored-Loads sector _ grain_buf (grain_bounds d limit g off h).1 z plain fits
        | inl compressed ↦
            let (fits, l, full, inflates, whole) = held.packed off h z compressed in
            packed-Loads sector _ grain_buf full z compressed fits l inflates whole
      ]

  fill-vmdk_byte :
      (grain_buf : List ℕ) (off len : ℕ) (q : List ℕ)
      → 0 < len
      → off + len ≤ limit
      → length q ≡ read_len d off len
      → ((fill inflate d grain_buf off q).1 ≡ slice (vmdk_byte inflate d content) off (length q))
        × ((fill inflate d grain_buf off q).2 ≡ none)
  unfolding fill read_grain
  fill-vmdk_byte grain_buf off len q l le e =
      let sector = get_or d.gt (off / d.grain_bytes) 0 in
      let run = stops-false d limit g off (omega arith) in
      let (a, b) = grain_bounds d limit g off (omega arith) in
      let (x, y, z) = read_len_bounds d limit g off len l (omega arith) in
      elim (Bool-cases (is_zeros sector)) [
        | inl zeros ↦
            let bytes = slice-zeros (vmdk_byte inflate d content) off (length q) (λ j k.
              let (same, rest) = same_block d.grain_bytes off j (omega arith) in
              rw (same, rest, zeros)) in
            rw (run, zeros, bytes) (refl, refl)
        | inr there ↦
            let (buf, loads, whole, bytes) = load_grain-Loads off grain_buf (omega arith) there in
            let same =
              slice-cong (vmdk_byte inflate d content) (λ j. get_or buf j 0) off
                (off % d.grain_bytes) (length q)
                (λ j k.
                  let (same, rest) = same_block d.grain_bytes off j (omega arith) in
                  rw (same, rest) (sym (bytes (off % d.grain_bytes + j) (omega arith)))) in
            let part = slice-get_or buf (off % d.grain_bytes) (length q) (omega arith) in
            rw (run, there, loads) (sym (same ∙ part), refl)
      ]

  broken_done :
      (buf : List ℕ) (n : ℕ)
      → broken inflate (record { buf = buf; n = n; fault = outcome none n })
        ≡ record { buf = buf; n = n; fault = outcome none n }
  broken_done buf n = elim (Bool-cases (n == 0)) [ inl e ↦ rw e | inr e ↦ rw e ]

  -- Inside a disk of `limit` bytes with the geometry that `Open` computes, whose file holds every
  -- grain that the table names, with compressed grains that fit the code's buffers and inflate to no
  -- less than their share of the disk, `ReadAt` fills `p` up to the end of the disk with the bytes
  -- that the table describes: zeros for a sector number of 0 or 1, else the bytes of the file, or of
  -- the inflated stream. It returns how many bytes these are, and no error.
  pub read_disk-vmdk_byte :
      (p : List ℕ) (off : ℕ)
      → off < limit
      → read_disk inflate d p (pos off) ≡ some (flat (vmdk_byte inflate d content) limit off p)
  unfolding read_disk
  read_disk-vmdk_byte p off h =
      let e : int64 d.size ≡ pos limit = rw g.sized (int64_of_lt limit g.small) in
      let (s, v, r) =
        read_at-flat (read_len d) (fill inflate d) (λ _. Unit {0}) (vmdk_byte inflate d content)
          limit
          (λ o len l le. let (x, y, z) = read_len_bounds d limit g o len l (omega arith) in (x, y))
          (λ c o len q s l le e. let (x, y) = fill-vmdk_byte c o len q l le e in (tt, x, y))
          (replicate d.grain_bytes 0) p off tt h in
      rw (e, r) (ap some (broken_done _ _))
