-- ===== src/Qed/Geometry.antt =====
-- qed/qed.go: the sizes, shifts and masks of `Open` as arithmetic.
use udf.Prelude.{
  ℕ, ◌+◌, ◌-◌, ◌*◌, ◌/◌, ◌%◌, ◌^◌, ◌≤◌, ◌<◌, ◌≡◌, refl, ap, sym, subst, ◌∙◌, length, arith, le32,
  le64, table, length-table, int64, pos, bit_and, bit_and-mask, trailing_zeros, pow-trailing_zeros,
  trailing_zeros-pow, pow_two_add, pow_two_pos, ℤ, List, inl, inr, ap₂, pow_two_lt,
}
use udf.Reader.{ok, ReaderAt, fetch, bind-inverse, Result-cases}
use udf.Qed.{Disk, geometry, check_sizes, open_header, open_disk}

pub record IsGeometry (d : Disk) : Type 0 where
  pub positive : 0 < d.cluster_size
  pub entries : 0 < d.table_nelems
  pub bytes : d.table_bytes ≡ d.table_nelems * 8
  pub shift : 2 ^ d.l1_shift ≡ d.cluster_size * d.table_nelems
  pub mask : (n : ℕ) → bit_and n d.l2_mask ≡ n % d.table_nelems

-- An accepted size is a power of two.
record IsPowers (cluster_size table_size : ℕ) : Type 0 where
  cluster : 2 ^ trailing_zeros 32 cluster_size ≡ cluster_size
  table : 2 ^ trailing_zeros 32 table_size ≡ table_size
  lower : 4096 ≤ cluster_size
  upper : cluster_size ≤ 67_108_864
  few : table_size ≤ 16
  some_table : 1 ≤ table_size

check_sizes-IsPowers : (c t : ℕ) → check_sizes c t ≡ ok tt → IsPowers c t
unfolding check_sizes
check_sizes-IsPowers c t h = ground (arith, pow-trailing_zeros 32 c, pow-trailing_zeros 32 t)

module _ (ra : ReaderAt) (c t : ℕ) (size : ℤ) (l1 : List ℕ) (p : IsPowers c t) where
  abbrev bits : ℕ
  bits = trailing_zeros 32 c + trailing_zeros 32 t - 3

  exponents : (12 ≤ trailing_zeros 32 c) × (trailing_zeros 32 c < 27) × (trailing_zeros 32 t < 5)
  exponents = (
    pow_two_lt 11 (trailing_zeros 32 c) (omega (arith, p.cluster, p.lower)),
    pow_two_lt (trailing_zeros 32 c) 27 (omega (arith, p.cluster, p.upper)),
    pow_two_lt (trailing_zeros 32 t) 5 (omega (arith, p.table, p.few)),
  )

  product : t * c ≡ 2 ^ bits * 8
  product =
      let (a, b, d) = exponents in
      let split : trailing_zeros 32 t + trailing_zeros 32 c ≡ bits + 3 = omega arith in
      sym (ap₂ ◌*◌ p.table p.cluster)
      ∙ sym (pow_two_add (trailing_zeros 32 t) (trailing_zeros 32 c))
      ∙ ap (λ n. 2 ^ n) split
      ∙ pow_two_add bits 3

  nelems : t * c / 8 ≡ 2 ^ bits
  nelems = omega (arith, product)

  geometry-IsGeometry : IsGeometry (geometry ra c t size l1)
  unfolding geometry
  geometry-IsGeometry =
      let (a, b, d) = exponents in
      let zeros = ap (trailing_zeros 64) nelems ∙ trailing_zeros-pow 64 bits (omega arith) in
      record {
        positive = omega (arith, p.lower);
        entries = omega (arith, nelems, pow_two_pos bits);
        bytes = omega (arith, product);
        shift =
            ap (λ n. 2 ^ (trailing_zeros 32 c + n)) zeros
            ∙ pow_two_add (trailing_zeros 32 c) bits
            ∙ ap₂ ◌*◌ p.cluster (sym nelems);
        mask = λ n.
            ap (λ m. bit_and n (m - 1)) nelems ∙ bit_and-mask bits n ∙ ap (λ m. n % m) (sym nelems);
      }

-- `Open` accepts only sizes whose shifts and masks divide by them, reads the whole first-level
-- table, and keeps the reader.
pub record IsQed (ra : ReaderAt) (d : Disk) : Type 0 where
  pub reader : d.ra ≡ ra
  pub sound : IsGeometry d
  pub whole : length d.l1 ≡ d.table_nelems

open_header-sizes :
    (ra : ReaderAt) (hdr : List ℕ) (d : Disk)
    → open_header ra hdr ≡ ok d
    → check_sizes (le32 hdr 4) (le32 hdr 8) ≡ ok tt
unfolding open_header
open_header-sizes ra hdr d h = ground arith

open_header-geometry :
    (ra : ReaderAt) (hdr : List ℕ) (d : Disk)
    → open_header ra hdr ≡ ok d
    → (raw : List ℕ) × (geometry ra
          (le32 hdr 4)
          (le32 hdr 8)
          (int64 (le64 hdr 48))
          (table le64 8 raw (le32 hdr 8 * le32 hdr 4 / 8) 0)
        ≡ d)
unfolding open_header
open_header-geometry ra hdr d h =
    elim (Result-cases (fetch ra (int64 (le64 hdr 40)) (le32 hdr 8 * le32 hdr 4))) [
      | inl (raw, e) ↦ (raw, ground arith)
      | inr (e, bad) ↦ absurd (ground arith)
    ]

-- If `Open` returns a disk, the cluster size is positive, a table has entries of 8 bytes, the shift
-- of the first level divides by cluster size times entries, the mask of the second level is the
-- remainder by the number of entries, and the first table has that many entries.
pub open_disk-IsQed : (ra : ReaderAt) (d : Disk) → open_disk ra ≡ ok d → IsQed ra d
unfolding open_disk geometry
open_disk-IsQed ra d h =
    let (hdr, e, r) = bind-inverse (fetch ra (pos 0) 512) (open_header ra) h in
    let (raw, made) = open_header-geometry ra hdr d r in
    let sizes = check_sizes-IsPowers _ _ (open_header-sizes ra hdr d r) in
    subst (IsQed ra) made (record {
      reader = refl;
      sound = geometry-IsGeometry _ _ _ _ _ sizes;
      whole = length-table le64 8 raw (le32 hdr 8 * le32 hdr 4 / 8) 0;
    })
