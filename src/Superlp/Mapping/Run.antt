-- ===== src/Superlp/Mapping/Run.antt =====
-- `Partition.Contiguous` against `Mapping`: a contiguous partition is one range of the super
-- partition.
use udf.Prelude.{
  ℕ, ◌+◌, ◌-◌, ◌*◌, ◌^◌, ◌≤◌, ◌<◌, ◌≡◌, refl, ap, ◌∙◌, Bool-cases, true, inl, inr, Option, none,
  some, List, [], ◌∷◌, ltb, arith, pos, ℤ, int64_of_lt,
}
use udf.Superlp.{Extent, Partition, sector_size, is_run, contiguous, size_bytes, sectors}
use udf.Superlp.Mapping.Extents.{extent_len, total, lp_byte}
use udf.Superlp.Mapping.Build.{AllPlain}

total-sectors : (es : List Extent) → total es ≡ sectors es * sector_size
unfolding sectors
total-sectors [] = refl
total-sectors (e ∷ es) = omega (arith, total-sectors es)

is_run-AllPlain :
    (before : Option Extent) (es : List Extent) → is_run before es ≡ true → AllPlain es
unfolding is_run
is_run-AllPlain before [] h = tt
is_run-AllPlain before (e ∷ es) h =
    let rest : is_run (some e) es ≡ true = ground arith in
    ((ground arith, inl (ground arith)), is_run-AllPlain (some e) es rest)

run_byte :
    (origin : ℕ) (content : ℕ → ℕ) (before : Option Extent) (e : Extent) (es : List Extent) (i : ℕ)
    → is_run before (e ∷ es) ≡ true
    → (e.target_data + sectors (e ∷ es)) * sector_size < 2 ^ 63
    → i < total (e ∷ es)
    → lp_byte origin content (e ∷ es) i ≡ content (origin + e.target_data * sector_size + i)
unfolding is_run sectors
run_byte origin content before e [] i h s l = ground arith
run_byte origin content before e (f ∷ fs) i h s l = elim (Bool-cases (ltb i (extent_len e))) [
  | inl here ↦ ground arith
  | inr there ↦
      let past : extent_len e ≤ i = ground arith in
      let rest : is_run (some e) (f ∷ fs) ≡ true = ground arith in
      let next : f.target_data ≡ e.target_data + e.num_sectors = ground arith in
      let ih =
        run_byte origin content (some e) f fs (i - extent_len e) rest (omega arith) (omega arith) in
      let same : origin + f.target_data * sector_size + (i - extent_len e)
          ≡ origin + e.target_data * sector_size + i =
        omega arith in
      rw there (ih ∙ ap content same)
]

-- Where the extents end below 2 ^ 63 and `Contiguous` succeeds on them, they are of the kind that
-- `Mapping` accepts, and byte `i` of the partition is byte `i` of the range that `Contiguous` returns.
pub contiguous-lp_byte :
    (origin : ℕ) (content : ℕ → ℕ) (p : Partition) (off size : ℤ) (e : Extent) (es : List Extent)
    → (e.target_data + sectors (e ∷ es)) * sector_size < 2 ^ 63
    → contiguous (record p { extents = e ∷ es }) ≡ some (off, size)
    → AllPlain (e ∷ es)
      × (off ≡ pos (e.target_data * sector_size))
      × (size ≡ pos (total (e ∷ es)))
      × ((i : ℕ)
          → i < total (e ∷ es)
          → lp_byte origin content (e ∷ es) i ≡ content (origin + e.target_data * sector_size + i))
unfolding contiguous size_bytes
contiguous-lp_byte origin content p off size e es s h = elim (Bool-cases (is_run none (e ∷ es))) [
  | inr broken ↦ absurd (cc (rw broken at h))
  | inl run ↦
      let sum = total-sectors (e ∷ es) in
      let o = int64_of_lt (e.target_data * sector_size) (omega arith) in
      let z = int64_of_lt (sectors (e ∷ es) * sector_size) (omega arith) in
      let made = rw run at h in
      (
        is_run-AllPlain none (e ∷ es) run,
        cc,
        cc (ap pos sum),
        λ i l. run_byte origin content none e es i run s l,
      )
]
