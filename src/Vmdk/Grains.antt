-- ===== src/Vmdk/Grains.antt =====
-- vmdk/vmdk.go: the grains of a disk, of which the last may be short.
use udf.Prelude.{
  ℕ, suc, ◌+◌, ◌-◌, ◌*◌, ◌/◌, ◌%◌, ◌^◌, ◌≤◌, ◌<◌, ◌≡◌, refl, ap, Bool, true, false, not, ◌&&◌, ◌||◌,
  ◌⊎◌, inl, inr, List, length, le32, int64, ltb, leb, ◌==◌, arith, lt_int64_small,
}
use native.Mathlib.Nat.{div-lt_iff_lt-mul, div-add-mod', mod-lt, div-le_self}
use native.Mathlib.Decide.{dec_lt}
use udf.Reader.{Result, ok, err, panic, fetch}
use udf.Vmdk.{Disk, sector_size, hdr_len, load_grain, payload, is_last, grain_size, read_len, stops}

-- The geometry of a disk of `limit` bytes.
pub record IsGeometry (d : Disk) (limit : ℕ) : Type 0 where
  pub sized : d.size ≡ limit
  pub small : limit < 2 ^ 63
  pub some_bytes : 0 < d.grain_bytes
  pub whole_sectors : d.grain_bytes ≡ d.grain_sectors * sector_size
  pub grains : d.last_grain ≡ limit / d.grain_bytes
  pub rest : d.last_grain_size ≡ limit % d.grain_bytes
  pub entries : limit ≤ length d.gt * d.grain_bytes

and-false : (b : Bool) → (b && false || false || false) ≡ false
and-false true = refl
and-false false = refl

-- A place before another in blocks of `size`.
block_order :
    (size off limit : ℕ)
    → 0 < size
    → off < limit
    → (off / size < limit / size) ⊎ ((off / size ≡ limit / size) × (off % size < limit % size))
block_order size off limit p h = elim (dec_lt (off / size) (limit / size)) [
  | yes before ↦ inl before
  | no n ↦
      let d = div-add-mod' off size in
      let e = div-add-mod' limit size in
      let q : off < suc (limit / size) * size = omega (arith, mod-lt limit p) in
      let l = (div-lt_iff_lt-mul {k = size} {x = off} {y = suc (limit / size)} p).1 q in
      let same : off / size ≡ limit / size = omega arith in
      let prod = ap (λ (t : ℕ). t * size) same in inr (same, omega arith)
]

module _ (d : Disk) (limit : ℕ) (g : IsGeometry d limit) where
  pub grain_bounds :
      (off : ℕ)
      → off < limit
      → (off % d.grain_bytes < grain_size d (off / d.grain_bytes))
        × (grain_size d (off / d.grain_bytes) ≤ d.grain_bytes)
  grain_bounds off h =
      let m = mod-lt off g.some_bytes in
      let n = mod-lt limit g.some_bytes in
      let lg = g.grains in
      let lr = g.rest in
      elim (block_order d.grain_bytes off limit g.some_bytes h) [
        | inl before ↦
            let no : (off / d.grain_bytes == d.last_grain) ≡ false = ground arith in
            rw no (m, omega arith)
        | inr (same, less) ↦ ground arith
      ]

  grain_upto : (off : ℕ) → off < limit → off / d.grain_bytes ≤ d.last_grain
  grain_upto off h =
      let lg = g.grains in
      elim (block_order d.grain_bytes off limit g.some_bytes h) [
        | inl before ↦ omega arith
        | inr (same, less) ↦ omega arith
      ]

  pub grain_listed : (off : ℕ) → off < limit → off / d.grain_bytes < length d.gt
  grain_listed off h =
      let e = g.entries in
      (div-lt_iff_lt-mul {k = d.grain_bytes} {x = off} {y = length d.gt} g.some_bytes).1
        (omega arith)

  pub stops-false : (off : ℕ) → off < limit → stops d off ≡ false
  unfolding stops
  stops-false off h =
      let (a, b) = grain_bounds off h in
      let upto = grain_upto off h in
      let listed = grain_listed off h in
      let below = div-le_self limit d.grain_bytes in
      let lg = g.grains in
      let small = g.small in
      let order = lt_int64_small d.last_grain (off / d.grain_bytes) (omega arith) (omega arith) in
      let no : ltb d.last_grain (off / d.grain_bytes) ≡ false = ground arith in
      let in_grain : leb (grain_size d (off / d.grain_bytes)) (off % d.grain_bytes) ≡ false =
        ground arith in
      let in_table : leb (length d.gt) (off / d.grain_bytes) ≡ false = ground arith in
      rw (order, no, in_grain, in_table) (and-false (not (is_last d (off / d.grain_bytes))))

  pub read_len_bounds :
      (off len : ℕ)
      → 0 < len
      → off < limit
      → (0 < read_len d off len)
        × (read_len d off len ≤ len)
        × (off % d.grain_bytes + read_len d off len ≤ grain_size d (off / d.grain_bytes))
  read_len_bounds off len l h = let (a, b) = grain_bounds off h in ground arith

-- A compressed grain whose size, as it stands in front of it, runs past the code's buffers, which
-- hold a grain and a sector, ends the read with a panic.
pub load_grain-panic :
    (inflate : List ℕ → ℕ → Result (List ℕ)) (d : Disk) (sector : ℕ) (grain_buf first : List ℕ)
    → d.is_compressed ≡ true
    → fetch d.ra (int64 (sector * sector_size)) sector_size ≡ ok first
    → d.grain_bytes + sector_size < hdr_len d + le32 first (hdr_len d - 4)
    → load_grain inflate d sector grain_buf ≡ err panic
unfolding load_grain payload
load_grain-panic inflate d sector grain_buf first c e h =
    let total = hdr_len d + le32 first (hdr_len d - 4) in
    let more : ltb sector_size total ≡ true = ground arith in
    let over_ : ltb d.grain_bytes
          ((total - sector_size + (sector_size - 1)) / sector_size * sector_size)
        ≡ true =
      ground arith in
    simp (c, e, more, over_)
