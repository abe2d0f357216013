-- ===== src/Superlp/Mapping/Extents.antt =====
-- The bytes that a list of extents describes, and the extent that a search by start finds.
use udf.Prelude.{
  ℕ, zero, suc, ◌+◌, ◌-◌, ◌*◌, ◌≤◌, ◌<◌, ◌≡◌, refl, ap, false, List, [], ◌∷◌, length, get_or, ltb,
  ◌==◌, if◌then◌else◌, arith, lt→ltb,
}
use native.Mathlib.Decide.{dec_lt}
use udf.Superlp.{Extent, sector_size, target_zero}
use udf.Superlp.Mapping.{no_extent}

abbrev pub extent_len : Extent → ℕ
extent_len e = e.num_sectors * sector_size

abbrev pub total : List Extent → ℕ
total [] = 0
total (e ∷ es) = extent_len e + total es

-- The starts of the extents, the first at `b`.
abbrev pub prefixes : ℕ → List Extent → List ℕ
prefixes b [] = []
prefixes b (e ∷ es) = b ∷ prefixes (b + extent_len e) es

pub length-prefixes : (b : ℕ) (es : List Extent) → length (prefixes b es) ≡ length es
length-prefixes b [] = refl
length-prefixes b (e ∷ es) = ap suc (length-prefixes (b + extent_len e) es)

-- A byte of one extent: a zero, or a byte of the super partition at `origin`.
abbrev pub extent_byte : ℕ → (ℕ → ℕ) → Extent → ℕ → ℕ
extent_byte origin content e i =
    if e.target_type == target_zero then 0 else content (origin + e.target_data * sector_size + i)

-- A byte of the partition: the extents follow one another.
abbrev pub lp_byte : ℕ → (ℕ → ℕ) → List Extent → ℕ → ℕ
lp_byte origin content [] i = 0
lp_byte origin content (e ∷ es) i =
    if ltb i (extent_len e)
    then extent_byte origin content e i
    else lp_byte origin content es (i - extent_len e)

-- Extent `k` of `es` holds byte `i`, where the first starts at `b`.
pub record HeldBy (b : ℕ) (es : List Extent) (i k : ℕ) : Type 0 where
  pub inside : k < length es
  pub start : get_or (prefixes b es) k 0 ≤ i
  pub end : i < get_or (prefixes b es) k 0 + extent_len (get_or es k no_extent)

prefixes-ge : (b : ℕ) (es : List Extent) (k : ℕ) → k < length es → b ≤ get_or (prefixes b es) k 0
prefixes-ge b [] k h = absurd (omega arith)
prefixes-ge b (e ∷ es) zero h = omega arith
prefixes-ge b (e ∷ es) (suc k) h = omega (arith, prefixes-ge (b + extent_len e) es k (omega arith))

-- Every byte of the partition is held by some extent, the last one that starts at or before it.
pub HeldBy-exists :
    (b : ℕ) (es : List Extent) (i : ℕ)
    → b ≤ i
    → i < b + total es
    → (k : ℕ) × HeldBy b es i k
      × ((j : ℕ) → j < suc k → get_or (prefixes b es) j 0 ≤ i)
      × ((j : ℕ) → suc k ≤ j → j < length es → i < get_or (prefixes b es) j 0)
HeldBy-exists b [] i h l = absurd (omega arith)
HeldBy-exists b (e ∷ es) i h l = elim (dec_lt i (b + extent_len e)) [
  | yes here ↦ (0, record { inside = omega arith; start = h; end = here }, first, later here)
  | no there ↦
      let (k, held, low, high) =
        HeldBy-exists (b + extent_len e) es i (omega arith) (omega arith) in
      (
        suc k,
        record { inside = omega (arith, held.inside); start = held.start; end = held.end },
        shifted low,
        shifted_high high,
      )
]
  where
    first : (j : ℕ) → j < 1 → get_or (prefixes b (e ∷ es)) j 0 ≤ i
    first zero l = h
    first (suc j) l = absurd (omega arith)

    later :
        i < b + extent_len e
        → (j : ℕ) → 1 ≤ j
        → j < length (e ∷ es)
        → i < get_or (prefixes b (e ∷ es)) j 0
    later here zero l m = absurd (omega arith)
    later here (suc j) l m = omega (arith, prefixes-ge (b + extent_len e) es j (omega arith))

    shifted :
        {k : ℕ}
        → ((j : ℕ) → j < suc k → get_or (prefixes (b + extent_len e) es) j 0 ≤ i)
        → (j : ℕ) → j < suc (suc k)
        → get_or (prefixes b (e ∷ es)) j 0 ≤ i
    shifted low zero l = h
    shifted low (suc j) l = low j (omega arith)

    shifted_high :
        {k : ℕ}
        → ((j : ℕ) → suc k ≤ j → j < length es → i < get_or (prefixes (b + extent_len e) es) j 0)
        → (j : ℕ) → suc (suc k) ≤ j
        → j < length (e ∷ es)
        → i < get_or (prefixes b (e ∷ es)) j 0
    shifted_high high zero l m = absurd (omega arith)
    shifted_high high (suc j) l m = high j (omega arith) (omega arith)

-- The byte is that of the extent which holds it.
pub lp_byte-HeldBy :
    (origin : ℕ) (content : ℕ → ℕ) (b : ℕ) (es : List Extent) (i k : ℕ)
    → b ≤ i
    → HeldBy b es i k
    → lp_byte origin content es (i - b)
      ≡ extent_byte origin content (get_or es k no_extent) (i - get_or (prefixes b es) k 0)
lp_byte-HeldBy origin content b [] i k h held = absurd (omega (arith, held.inside))
lp_byte-HeldBy origin content b (e ∷ es) i zero h held =
    rw (lt→ltb (i - b) (extent_len e) (omega (arith, held.end)))
lp_byte-HeldBy origin content b (e ∷ es) i (suc k) h held =
    let g = prefixes-ge (b + extent_len e) es k (omega (arith, held.inside)) in
    let s = held.start in
    let skip : ltb (i - b) (extent_len e) ≡ false = ground arith in
    let same : i - b - extent_len e ≡ i - (b + extent_len e) = omega arith in
    rw (skip, same)
      (lp_byte-HeldBy origin content (b + extent_len e) es i k (omega arith)
        (record { inside = omega (arith, held.inside); start = held.start; end = held.end }))

pub prefixes-end :
    (b : ℕ) (es : List Extent) (k : ℕ)
    → k < length es
    → get_or (prefixes b es) k 0 + extent_len (get_or es k no_extent) ≤ b + total es
prefixes-end b [] k h = absurd (omega arith)
prefixes-end b (e ∷ es) zero h = omega arith
prefixes-end b (e ∷ es) (suc k) h =
    omega (arith, prefixes-end (b + extent_len e) es k (omega arith))
