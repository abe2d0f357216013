-- ===== src/Vmdk/Open.antt =====
-- vmdk/vmdk.go: what `Open` accepts.
use udf.Prelude.{
  ℕ, zero, suc, ◌+◌, ◌-◌, ◌*◌, ◌/◌, ◌%◌, ◌^◌, ◌≤◌, ◌<◌, ◌≡◌, refl, ap, sym, subst, ◌∙◌, Bool, true,
  false, ◌||◌, Bool-cases, inl, inr, List, ◌++◌, length, length-append, length-replicate,
  length-table, replicate, ltb, ◌==◌, if◌then◌else◌, pos, arith, le32, le64, table,
  quot_int64_small, add_int64, add_int64_small, bit_and, bit_and-mask, pow-trailing_zeros,
  trailing_zeros, int64,
}
use native.Mathlib.Nat.{mul-div-mul_right, mod-lt, div-add-mod', div-le_self}
use udf.Reader.{Result-cases, ok, err, Result, ReaderAt, fetch, bind-inverse, ◌>>=◌, ◌>>◌}
use udf.Vmdk.{
  Disk, units, make_len, sector_size, entries, sector_bytes, read_tables, read_gt, open_header,
  open_disk, geometry, bad_grain, last_grain, last_grain_size,
}
use udf.Vmdk.Grains.{IsGeometry}

-- One table's entries.
length-entries :
    (closed : Bool) (n : ℕ) (raw : Result (List ℕ)) {xs : List ℕ}
    → (if closed then ok (replicate n 0) else raw >>= λ buf. ok (table le32 4 buf n 0)) ≡ ok xs
    → length xs ≡ n
length-entries true n raw h = ground (arith, length-replicate n zero)
length-entries false n (err e) h = absurd cc
length-entries false n (ok buf) h = ground (arith, length-table le32 4 buf n 0)

-- The tables fill the grain table that the code allocates.
length-read_tables :
    (ra : ReaderAt) (gd : List ℕ) (per_gt gts i left : ℕ) {gt : List ℕ}
    → read_tables ra gd per_gt gts i left ≡ ok gt
    → length gt ≡ left
unfolding read_tables
length-read_tables ra gd per_gt zero i left h = ground (arith, length-replicate left zero)
length-read_tables ra gd per_gt (suc gts) i left {gt} h =
    let n = if ltb left per_gt then left else per_gt in
    let gt_sector = le32 gd (i * 4) in
    let raw = fetch ra (int64 (gt_sector * sector_size)) (sector_bytes per_gt) in
    let rest = read_tables ra gd per_gt gts (i + 1) (left - n) in
    let closed = gt_sector == 0 || gt_sector == 1 in
    let first = if closed then ok (replicate n 0) else raw >>= λ buf. ok (table le32 4 buf n 0) in
    let (xs, e, r) = bind-inverse first (λ xs. rest >>= λ more. ok (xs ++ more)) h in
    let (more, f, t) = bind-inverse rest (λ more. ok (xs ++ more)) r in
    let l = length-entries closed n raw {xs = xs} e in
    let ih = length-read_tables ra gd per_gt gts (i + 1) (left - n) {gt = more} f in
    let whole : xs ++ more ≡ gt = cc in rw⁻¹ whole (length-append xs more ∙ ground arith)

length-read_gt :
    (ra : ReaderAt) (gd_offset per_gt gtes : ℕ) {gt : List ℕ}
    → read_gt ra gd_offset per_gt gtes ≡ ok gt
    → length gt ≡ gtes
unfolding read_gt
length-read_gt ra gd_offset per_gt gtes {gt} h =
    let gts = units gtes per_gt in
    let n = sector_bytes gts in
    let (x, e, r) =
      bind-inverse (make_len n)
        (λ x. fetch ra (int64 (gd_offset * sector_size)) n >>= λ gd.
          make_len gtes >> read_tables ra gd per_gt gts 0 gtes)
        h in
    let (gd, f, r) =
      bind-inverse (fetch ra (int64 (gd_offset * sector_size)) n)
        (λ gd. make_len gtes >> read_tables ra gd per_gt gts 0 gtes) r in
    let (y, k, r) = bind-inverse (make_len gtes) (λ x. read_tables ra gd per_gt gts 0 gtes) r in
    length-read_tables ra gd per_gt gts 0 gtes r

-- A grain size that the header's tests accept is a power of two: the mask takes the remainder.
mask_remainder :
    (gs x : ℕ) → 0 < gs → gs ≤ 128 → bit_and gs (gs - 1) ≡ 0 → bit_and x (gs - 1) ≡ x % gs
mask_remainder gs x l h e =
    let p = pow-trailing_zeros 8 gs l (omega arith) e in
    ap (λ m. bit_and x (m - 1)) (sym p) ∙ bit_and-mask (trailing_zeros 8 gs) x ∙ ap (λ m. x % m) p

bad_grain-accepts :
    (gs : ℕ) → bad_grain gs ≡ false → (0 < gs) × (gs ≤ 128) × (bit_and gs (gs - 1) ≡ 0)
unfolding bad_grain
bad_grain-accepts gs h = ground arith

open_header-accepts :
    (ra : ReaderAt) (hdr : List ℕ) (d : Disk)
    → open_header ra hdr ≡ ok d
    → (bad_grain (le64 hdr 20) ≡ false)
      × (gt : List ℕ) × (read_gt ra
            (le64 hdr 56)
            (le32 hdr 44)
            (entries (last_grain hdr) (last_grain_size hdr))
          ≡ ok gt)
      × (geometry ra hdr gt ≡ d)
unfolding open_header
open_header-accepts ra hdr d h =
    elim (Result-cases
      (read_gt ra (le64 hdr 56) (le32 hdr 44) (entries (last_grain hdr) (last_grain_size hdr)))) [
        | inr (x, bad) ↦ absurd (ground arith)
        | inl (gt, read) ↦ let h' = rw read at h in (ground arith, gt, read, ground arith)
      ]

-- The entries that the code allocates reach to the end of the disk.
entries-cover :
    (capacity gs n : ℕ)
    → 0 < gs
    → n ≡ (if capacity % gs * sector_size == 0 then capacity / gs else capacity / gs + 1)
    → capacity ≤ n * gs
entries-cover capacity gs n l e =
    let d = div-add-mod' capacity gs in
    let m = mod-lt capacity l in
    elim (Bool-cases (capacity % gs * sector_size == 0)) [
      | inl whole ↦ let k : n ≡ capacity / gs = rw whole at e in rw k (ground arith)
      | inr part ↦ let k : n ≡ capacity / gs + 1 = rw part at e in rw k (omega arith)
    ]

sector_remainder :
    (capacity gs : ℕ) → capacity * sector_size % (gs * sector_size) ≡ capacity % gs * sector_size
sector_remainder capacity gs =
    let d = div-add-mod' capacity gs in
    let e = div-add-mod' (capacity * sector_size) (gs * sector_size) in
    let q = mul-div-mul_right {m = sector_size} capacity gs (omega arith) in
    omega (arith, ap (λ (t : ℕ). t * (gs * sector_size)) q)

geometry-IsGeometry :
    (ra : ReaderAt) (hdr gt : List ℕ)
    → le64 hdr 12 < 2 ^ 54
    → 0 < le64 hdr 20
    → le64 hdr 20 ≤ 128
    → bit_and (le64 hdr 20) (le64 hdr 20 - 1) ≡ 0
    → length gt ≡ entries (last_grain hdr) (last_grain_size hdr)
    → IsGeometry (geometry ra hdr gt) (le64 hdr 12 * sector_size)
unfolding geometry
geometry-IsGeometry ra hdr gt small some few power whole =
    let capacity = le64 hdr 12 in
    let gs = le64 hdr 20 in
    let masked = mask_remainder gs capacity some few power in
    let quotient = quot_int64_small capacity gs (omega arith) in
    let listed : length gt ≡ (
        if capacity % gs * sector_size == 0 then capacity / gs else add_int64 (capacity / gs) 1) =
      rw (masked, quotient) at whole in
    let below = div-le_self capacity gs in
    let one = add_int64_small (capacity / gs) 1 (omega arith) in
    let n = entries-cover capacity gs (length gt) some (rw one at listed) in
    record {
      sized = omega arith;
      small = omega arith;
      some_bytes = omega arith;
      whole_sectors = refl;
      grains = rw quotient (sym (mul-div-mul_right {m = sector_size} capacity gs (omega arith)));
      rest = rw masked (sym (sector_remainder capacity gs));
      entries = omega arith;
    }

-- A disk of fewer than 2 ^ 54 sectors that `Open` returns has grains of as many sectors as its header
-- says, which is a power of two and at most 128. Its last grain is what is left, and its grain table
-- reaches to its end.
pub open_disk-IsGeometry :
    (ra : ReaderAt) (hdr : List ℕ) (d : Disk)
    → fetch ra (pos 0) sector_size ≡ ok hdr
    → le64 hdr 12 < 2 ^ 54
    → open_disk ra ≡ ok d
    → (d.ra ≡ ra)
      × (d.grain_sectors ≡ le64 hdr 20)
      × (d.grain_sectors ≤ 128)
      × (n : ℕ) × (d.grain_sectors ≡ 2 ^ n)
      × IsGeometry d (le64 hdr 12 * sector_size)
unfolding open_disk geometry
open_disk-IsGeometry ra hdr d e small h =
    let (good, gt, read, made) = open_header-accepts ra hdr d (rw e at h) in
    let (some, few, power) = bad_grain-accepts (le64 hdr 20) good in
    let whole = length-read_gt ra (le64 hdr 56) (le32 hdr 44) _ {gt = gt} read in
    let gs = le64 hdr 20 in
    subst
      (λ d.
        (d.ra ≡ ra)
        × (d.grain_sectors ≡ gs)
        × (d.grain_sectors ≤ 128)
        × (n : ℕ) × (d.grain_sectors ≡ 2 ^ n)
        × IsGeometry d (le64 hdr 12 * sector_size))
      made
      (
        refl,
        refl,
        few,
        trailing_zeros 8 gs,
        sym (pow-trailing_zeros 8 gs some (omega arith) power),
        geometry-IsGeometry ra hdr gt small some few power whole,
      )
