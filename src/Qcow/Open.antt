-- ===== src/Qcow/Open.antt =====
-- qcow/qcow.go: what `Open` accepts.
use udf.Prelude.{
  ℕ, ◌+◌, ◌-◌, ◌*◌, ◌/◌, ◌%◌, ◌^◌, ◌≤◌, ◌<◌, ◌≡◌, List, length, get_or, ltb, leb, pos, arith, be64,
  pow_two_pos,
}
use native.Mathlib.Nat.{pow-le-pow_right, div-add-mod', mod-lt}
use udf.Reader.{refuse, invalid, ok, panic, ReaderAt, fetch, ◌>>◌}
use udf.Qcow.{Disk, max_l1_entries, l1_size, read_l1, one_shifted}
use udf.Qcow.Geometry.{IsGeometry}

accepted :
    (sum shift n : ℕ)
    → (do
      refuse (leb (2 ^ 63) sum) panic
      refuse (ltb max_l1_entries (sum / 2 ^ shift)) invalid
      ok (sum / 2 ^ shift))
      ≡ ok n
    → (sum / 2 ^ shift ≤ max_l1_entries) × (n ≡ sum / 2 ^ shift)
accepted sum shift n h = ground arith

-- A first-level table reaches exactly to the end of the disk.
pub l1_size-covers :
    (size shift n : ℕ)
    → shift ≤ 62
    → 0 < size
    → size < 2 ^ 63
    → l1_size size shift ≡ ok n
    → (n ≤ max_l1_entries) × (size ≤ n * 2 ^ shift) × (n * 2 ^ shift < size + 2 ^ shift)
unfolding l1_size
l1_size-covers size shift n few some_size small h =
    let p = pow_two_pos shift in
    let m = pow-le-pow_right {n = 2} (omega arith) {i = shift} {j = 62} few in
    let s = size + 2 ^ shift - 1 in
    let d = div-add-mod' s (2 ^ shift) in
    let l = mod-lt s p in
    let one : one_shifted shift ≡ 2 ^ shift = omega arith in
    let sum : (size + 2 ^ shift + (2 ^ 64 - 1)) % 2 ^ 64 ≡ s = omega arith in
    let (within, value) = accepted s shift n (rw (one, sum) at h) in
    rw value (omega arith, omega (arith, d, l), omega (arith, d, l))

-- What `Open` has seen of an image that it accepts, where the shift of the first level is below 63.
pub record IsQcow (ra : ReaderAt) (d : Disk) : Type 0 where
  pub reader : d.ra ≡ ra
  pub header : List ℕ
  pub header_read : fetch ra (pos 0) 48 ≡ ok header
  pub cluster_byte : d.cluster_bits ≡ get_or header 32 0
  pub l2_byte : d.l2_bits ≡ get_or header 33 0
  pub size_word : d.disk_size ≡ pos (be64 header 24)
  pub l1_words : read_l1 ra (be64 header 40) (length d.l1) 0 ≡ ok d.l1
  pub sound : IsGeometry d
  pub lower : 9 ≤ d.cluster_bits
  pub some_size : 0 < be64 header 24
  pub bounded : length d.l1 ≤ max_l1_entries
  pub covers : be64 header 24 ≤ length d.l1 * 2 ^ d.shift
  pub tight : length d.l1 * 2 ^ d.shift < be64 header 24 + 2 ^ d.shift
