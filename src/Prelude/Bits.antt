-- ===== src/Prelude/Bits.antt =====
-- Masks, shifts and `math/bits` on native numbers: what the table geometries rest on.
pub use Prim.Native.Nat.{bit_and}
use Prim.Native.Nat.{
  ℕ, zero, suc, ◌+◌, ◌-◌, ◌*◌, ◌/◌, ◌%◌, ◌^◌, ◌≤◌, ◌<◌, min, digits, bit_and-bitwise,
}
use mathlib.Core.Path.{◌≡◌, refl, ◌∙◌, ap}
use native.Mathlib.Nat.{pow-suc, div-div-eq-div-mul, div-add-mod'}
use native.Mathlib.Omega.{arith}
use native.Mathlib.Decide.{dec_lt}
use native.Mathlib.Nat.{pow-le-pow_right}
use mathlib.Core.Logic.{inl, inr}
use udf.Prelude.Tests.{if◌then◌else◌, ◌==◌, Bool-cases}

-- `bits.TrailingZeros32` and `bits.TrailingZeros64`: the width is the recursion's bound.
unfoldable pub trailing_zeros : ℕ → ℕ → ℕ
trailing_zeros zero x = 0
trailing_zeros (suc w) x = let more = trailing_zeros w (x / 2) in if x % 2 == 1 then 0 else suc more

abbrev pairwise : ℕ → ℕ → ℕ → ℕ
pairwise = digits (λ _. zero) min

-- The recursion behind `bit_and` does not depend on its bound once that is large enough.
pairwise_bound : (i j x y : ℕ) → x ≤ i → x ≤ j → pairwise i x y ≡ pairwise j x y
pairwise_bound zero zero x y hi hj = refl
pairwise_bound (suc i) zero zero y hi hj = refl
pairwise_bound (suc i) zero (suc x) y hi hj = absurd (omega arith)
pairwise_bound zero (suc j) zero y hi hj = refl
pairwise_bound zero (suc j) (suc x) y hi hj = absurd (omega arith)
pairwise_bound (suc i) (suc j) zero y hi hj = refl
pairwise_bound (suc i) (suc j) (suc x) y hi hj =
    let rest = pairwise_bound i j (suc x / 2) (y / 2) (omega arith) (omega arith) in omega arith

pub bit_and-halves : (x y : ℕ) → bit_and x y ≡ bit_and (x / 2) (y / 2) * 2 + min (x % 2) (y % 2)
bit_and-halves zero y = omega (arith, bit_and-bitwise 0 y, bit_and-bitwise 0 (y / 2))
bit_and-halves (suc x) y =
    let bound = pairwise_bound x (suc x / 2) (suc x / 2) (y / 2) (omega arith) (omega arith) in
    omega (arith, bit_and-bitwise (suc x) y, bit_and-bitwise (suc x / 2) (y / 2))

bit_and-zero_upto : (n x : ℕ) → x ≤ n → bit_and x 0 ≡ 0
bit_and-zero_upto n zero h = bit_and-bitwise 0 0
bit_and-zero_upto zero (suc x) h = absurd (omega arith)
bit_and-zero_upto (suc n) (suc x) h =
    let half = bit_and-zero_upto n (suc x / 2) (omega arith) in
    omega (arith, bit_and-halves (suc x) 0)

bit_and-same_upto : (n x : ℕ) → x ≤ n → bit_and x x ≡ x
bit_and-same_upto n zero h = bit_and-bitwise 0 0
bit_and-same_upto zero (suc x) h = absurd (omega arith)
bit_and-same_upto (suc n) (suc x) h =
    let half = bit_and-same_upto n (suc x / 2) (omega arith) in
    omega (arith, bit_and-halves (suc x) (suc x))

pub pow_two_pos : (k : ℕ) → 0 < 2 ^ k
pow_two_pos zero = omega arith
pow_two_pos (suc k) = omega (arith, pow-suc 2 k, pow_two_pos k)

pub pow_two_add : (a b : ℕ) → 2 ^ (a + b) ≡ 2 ^ a * 2 ^ b
pow_two_add zero b = let e : zero + b ≡ b = omega arith in ap (λ n. 2 ^ n) e ∙ omega arith
pow_two_add (suc a) b =
    let e : suc a + b ≡ suc (a + b) = omega arith in
    ap (λ n. 2 ^ n) e
    ∙ omega (
      arith,
      pow-suc 2 (a + b),
      pow-suc 2 a,
      pow_two_add a b,
      ap (λ (t : ℕ). t * 2 ^ b) (pow-suc 2 a),
    )

-- The low digit and the rest, modulo twice a number.
mod_double : (x p : ℕ) → 0 < p → x % (2 * p) ≡ x / 2 % p * 2 + x % 2
mod_double x p h =
    let e = div-div-eq-div-mul x 2 p in
    omega (
      arith,
      div-add-mod' x 2,
      div-add-mod' (x / 2) p,
      div-add-mod' x (2 * p),
      ap (λ (t : ℕ). t * (2 * p)) e,
    )

-- A mask of `k` ones takes the remainder.
pub bit_and-mask : (k x : ℕ) → bit_and x (2 ^ k - 1) ≡ x % 2 ^ k
bit_and-mask zero x = omega (arith, bit_and-zero_upto x x (omega arith))
bit_and-mask (suc k) x =
    let p = pow_two_pos k in
    let double = pow-suc 2 k in
    let half : (2 ^ suc k - 1) / 2 ≡ 2 ^ k - 1 = omega arith in
    let low : (2 ^ suc k - 1) % 2 ≡ 1 = omega arith in
    let ih = ap (λ m. bit_and (x / 2) m) half ∙ bit_and-mask k (x / 2) in
    let twice : 2 ^ suc k ≡ 2 * 2 ^ k = omega arith in
    let m = ap (λ t. x % t) twice ∙ mod_double x (2 ^ k) p in
    omega (arith, bit_and-halves x (2 ^ suc k - 1))

-- What `x & (x-1) == 0` means: the trailing zeros are the logarithm.
pub pow-trailing_zeros :
    (w x : ℕ) → 0 < x → x < 2 ^ w → bit_and x (x - 1) ≡ 0 → 2 ^ trailing_zeros w x ≡ x
unfolding trailing_zeros
pow-trailing_zeros zero x h l e = absurd (omega arith)
pow-trailing_zeros (suc w) x h l e = elim (Bool-cases (x % 2 == 1)) [
  | inl odd ↦
      let o : x % 2 ≡ 1 = ground arith in
      let half : (x - 1) / 2 ≡ x / 2 = omega arith in
      let s = ap (λ m. bit_and (x / 2) m) half ∙ bit_and-same_upto (x / 2) (x / 2) (omega arith) in
      rw odd (omega (arith, bit_and-halves x (x - 1)))
  | inr even ↦
      let o : x % 2 ≡ 0 = ground arith in
      let half : (x - 1) / 2 ≡ x / 2 - 1 = omega arith in
      let s = ap (λ m. bit_and (x / 2) m) half in
      let b : bit_and (x / 2) (x / 2 - 1) ≡ 0 = omega (arith, bit_and-halves x (x - 1)) in
      let ih = pow-trailing_zeros w (x / 2) (omega arith) (omega (arith, pow-suc 2 w)) b in
      rw even (omega (arith, pow-suc 2 (trailing_zeros w (x / 2))))
]

-- The trailing zeros of a power of two.
pub trailing_zeros-pow : (w k : ℕ) → k < w → trailing_zeros w (2 ^ k) ≡ k
unfolding trailing_zeros
trailing_zeros-pow zero k h = absurd (omega arith)
trailing_zeros-pow (suc w) zero h = refl
trailing_zeros-pow (suc w) (suc k) h =
    let double = pow-suc 2 k in
    let even : 2 ^ suc k % 2 ≡ 0 = omega arith in
    let half : 2 ^ suc k / 2 ≡ 2 ^ k = omega arith in
    rw (even, half) (ap suc (trailing_zeros-pow w k (omega arith)))

-- Powers of two are ordered as their exponents.
pub pow_two_lt : (a b : ℕ) → 2 ^ a < 2 ^ b → a < b
pow_two_lt a b h = elim (dec_lt a b) [
  | yes l ↦ l
  | no n ↦
      absurd (omega (arith, pow-le-pow_right {n = 2} (omega arith) {i = b} {j = a} (omega arith)))
]
