-- ===== src/Qcow/Geometry.antt =====
-- qcow/qcow.go: the shifts and masks of a disk as arithmetic.
use udf.Prelude.{
  ℕ, zero, suc, ◌+◌, ◌-◌, ◌*◌, ◌/◌, ◌%◌, ◌^◌, ◌≤◌, ◌<◌, ◌≡◌, ap, sym, ◌∙◌, ◌==◌, if◌then◌else◌,
  arith, bit_and, bit_and-mask, bit_and-halves, pow_two_add, pow_two_pos, sub_int64_small,
  lt_int64_small,
}
use native.Mathlib.Nat.{pow-le-pow_right, pow-suc, div-div-eq-div-mul, mod-lt}
use udf.Reader.Blocks.{block_chunk}
use udf.Qcow.{Disk, Place, hole, compressed, stored, place, room, chunk}

pub record IsGeometry (d : Disk) : Type 0 where
  pub few_bits : d.cluster_bits ≤ 62
  pub few_entries : d.l2_bits ≤ 59
  pub cluster : d.cluster_size ≡ 2 ^ d.cluster_bits
  pub entries : d.l2_size ≡ 2 ^ d.l2_bits
  pub both : d.shift ≡ d.cluster_bits + d.l2_bits
  pub mask : d.cluster_offset_mask ≡ 2 ^ (63 - d.cluster_bits) - 1

-- One bit of a number.
pub bit_and-bit : (k x : ℕ) → bit_and x (2 ^ k) ≡ x / 2 ^ k % 2 * 2 ^ k
bit_and-bit zero x = omega (arith, bit_and-mask 1 x)
bit_and-bit (suc k) x =
    let e : 2 ^ suc k ≡ 2 ^ k * 2 = pow-suc 2 k in
    let half : 2 ^ k * 2 / 2 ≡ 2 ^ k = omega arith in
    let even : 2 ^ k * 2 % 2 ≡ 0 = omega arith in
    let h = bit_and-halves x (2 ^ k * 2) in
    let t : x / 2 / 2 ^ k ≡ x / (2 ^ k * 2) =
      div-div-eq-div-mul x 2 (2 ^ k) ∙ ap (λ n. x / n) (omega arith) in
    let ih = ap (λ m. bit_and (x / 2) m) half ∙ bit_and-bit k (x / 2) ∙ ap (λ n. n % 2 * 2 ^ k) t in
    rw e (omega (arith, h, ih, even))

-- The `switch` on an entry in arithmetic: the flag, the offset and the length are digits of it.
abbrev pub entry_place : Disk → ℕ → Place
entry_place d e =
    if e == 0
    then hole
    else if e / 2 ^ 63 % 2 == 0
    then stored e
    else compressed (e % 2 ^ (63 - d.cluster_bits)) (e / 2 ^ (63 - d.cluster_bits) % d.cluster_size)

module _ (d : Disk) (geometry : IsGeometry d) where
  pub place-entry_place : (e : ℕ) → place d e ≡ entry_place d e
  unfolding place
  place-entry_place e =
      let flag = bit_and-bit 63 e in
      let offset : bit_and e d.cluster_offset_mask ≡ e % 2 ^ (63 - d.cluster_bits) =
        rw geometry.mask (bit_and-mask (63 - d.cluster_bits) e) in
      let q = e / 2 ^ (63 - d.cluster_bits) in
      let size : bit_and q (d.cluster_size - 1) ≡ q % d.cluster_size =
        rw geometry.cluster (bit_and-mask d.cluster_bits q) in
      rw (offset, size, flag) (ground arith)

  pub cluster_pos : 0 < d.cluster_size
  cluster_pos = rw geometry.cluster (pow_two_pos d.cluster_bits)

  pub entries_pos : 0 < d.l2_size
  entries_pos = rw geometry.entries (pow_two_pos d.l2_bits)

  -- The two indices, as the code computes them by shift and mask.
  pub first_index : (off : ℕ) → off / 2 ^ d.shift ≡ off / d.cluster_size / d.l2_size
  first_index off =
      let e : 2 ^ d.shift ≡ d.cluster_size * d.l2_size =
        rw (geometry.both, geometry.cluster, geometry.entries)
          (pow_two_add d.cluster_bits d.l2_bits) in
      ap (λ n. off / n) e ∙ sym (div-div-eq-div-mul off d.cluster_size d.l2_size)

  pub second_index : (n : ℕ) → bit_and n (d.l2_size - 1) ≡ n % d.l2_size
  second_index n = rw geometry.entries (bit_and-mask d.l2_bits n)

  pub cluster_lt : d.cluster_size < 2 ^ 63
  cluster_lt =
      let low = geometry.few_bits in
      let m = pow-le-pow_right {n = 2} (omega arith) {i = d.cluster_bits} {j = 62} low in
      rw geometry.cluster (omega (arith, m))

  pub room_small : (off : ℕ) → room d off ≡ d.cluster_size - off % d.cluster_size
  room_small off =
      let m = mod-lt off cluster_pos in
      sub_int64_small d.cluster_size (off % d.cluster_size) (omega arith) cluster_lt

  pub chunk-block_chunk :
      (off len : ℕ) → len < 2 ^ 63 → chunk d off len ≡ block_chunk d.cluster_size off len
  chunk-block_chunk off len h =
      let t =
        lt_int64_small (d.cluster_size - off % d.cluster_size) len (omega (arith, cluster_lt)) h in
      rw (room_small off, t)
