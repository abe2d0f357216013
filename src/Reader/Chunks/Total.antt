-- ===== src/Reader/Chunks/Total.antt =====
-- The loop of `ReadAt` ends, and reads a flat disk: one rule for every block-mapped format.
use udf.Prelude.{
  ℕ, zero, suc, ◌+◌, ◌-◌, ◌≤◌, ◌<◌, ◌≡◌, refl, ap, subst, ◌∙◌, false, Option, none, some, List, [],
  ◌∷◌, ◌++◌, length, take, drop, length-take, length-drop, pos, arith, min, leb,
}
use mathlib.Core.Option
use udf.Reader.{Error, Read, slice}
use udf.Reader.Chunks.{stateless, loop, read, read_at, settle, finish, outcome}

pub slice-add :
    (content : ℕ → ℕ) (off a b : ℕ)
    → slice content off (a + b) ≡ slice content off a ++ slice content (off + a) b
slice-add content off zero b = ground arith
slice-add content off (suc a) b =
    let e : suc a + b ≡ suc (a + b) = omega arith in
    let d : off + suc a ≡ off + 1 + a = omega arith in
    rw (e, d) (ap (λ l. content off ∷ l) (slice-add content (off + 1) a b))

pub length-slice : (content : ℕ → ℕ) (off n : ℕ) → length (slice content off n) ≡ n
length-slice content off zero = refl
length-slice content off (suc n) = ap suc (length-slice content (off + 1) n)

-- What a read of a flat disk of `size` bytes at `off < size` leaves and returns.
abbrev pub flat : (ℕ → ℕ) → ℕ → ℕ → List ℕ → Read
flat byte size off p = record {
  buf = slice byte off (min (size - off) (length p)) ++ drop (size - off) p;
  n = min (size - off) (length p);
  fault = outcome none (min (size - off) (length p));
}

module _ {S : Type 0} (chunk_size : ℕ → ℕ → ℕ) (fill : S → ℕ → List ℕ → S × List ℕ × Option Error)
    (P : S → Type 0) (byte : ℕ → ℕ) (limit : ℕ)
    (progress : (off len : ℕ)
      → 0 < len
      → off + len ≤ limit
      → (0 < chunk_size off len) × (chunk_size off len ≤ len))
    (serve : (s : S) (off len : ℕ) (q : List ℕ)
      → P s
      → 0 < len
      → off + len ≤ limit
      → length q ≡ chunk_size off len
      → P (fill s off q).0
        × ((fill s off q).1 ≡ slice byte off (length q))
        × ((fill s off q).2 ≡ none)) where
  -- The state and the bytes that a loop ends with.
  abbrev Ends : ℕ → ℕ → ℕ → Option (S × Read) → Type 0
  Ends off total len r =
      (s : S) × P s
      × (r ≡ some (s, record { buf = slice byte off len; n = total + len; fault = none }))

  settle-Ends :
      (off total k m : ℕ) (s : S) (b tail : List ℕ) (fault : Option Error)
      (rest : Option (S × Read))
      → b ≡ slice byte off k
      → fault ≡ none
      → Ends (off + k) (total + k) m rest
      → Ends off total (k + m) (settle fault s b tail total rest)
  settle-Ends off total k m s b tail fault rest eb ef (s', v, e) =
      (s', v, ground (arith, slice-add byte off k m))

  loop-Ends :
      (fuel : ℕ) (s : S) (off total : ℕ) (p : List ℕ)
      → length p < fuel
      → P s
      → off + length p ≤ limit
      → Ends off total (length p) (loop chunk_size fill fuel s off total p)
  unfolding loop
  loop-Ends zero s off total p h v l = absurd (omega arith)
  loop-Ends (suc fuel) s off total [] h v l = (s, v, ground arith)
  loop-Ends (suc fuel) s off total (x ∷ xs) h v l =
      let p = x ∷ xs in
      let k = chunk_size off (length p) in
      let pr = progress off (length p) (omega arith) l in
      let lt : length (take k p) ≡ k = omega (arith, length-take k p) in
      let ld : k + length (drop k p) ≡ length p = omega (arith, length-drop k p) in
      let (v', b, e) = serve s off (length p) (take k p) v (omega arith) l lt in
      subst (λ m. Ends off total m (loop chunk_size fill (suc fuel) s off total p)) ld
        (settle-Ends off total k (length (drop k p)) _ _ (drop k p) _ _ (b ∙ ap (slice byte off) lt)
          e (loop-Ends fuel _ (off + k) (total + k) (drop k p) (omega arith) v' (omega arith)))

  finish-Ends :
      (off len : ℕ) (tail : List ℕ) (r : Option (S × Read))
      → Ends off 0 len r
      → (s : S) × P s
        × (finish tail r
            ≡ some
                (s, record { buf = slice byte off len ++ tail; n = len; fault = outcome none len }))
  finish-Ends off len tail r (s, v, e) = (s, v, ground arith)

  pub read_at-flat :
      (s : S) (p : List ℕ) (off : ℕ)
      → P s
      → off < limit
      → (s' : S) × P s'
        × (read_at chunk_size fill (pos limit) s p (pos off) ≡ some (s', flat byte limit off p))
  unfolding read_at
  read_at-flat s p off v h =
      let q = take (limit - off) p in
      let l : length q ≡ min (limit - off) (length p) = length-take (limit - off) p in
      let w : leb limit off ≡ false = ground arith in
      rw w (
        subst
          (λ m.
            (s' : S) × P s'
            × (finish (drop (limit - off) p) (loop chunk_size fill (suc (length q)) s off 0 q)
                ≡ some (
                  s',
                  record {
                    buf = slice byte off m ++ drop (limit - off) p;
                    n = m;
                    fault = outcome none m;
                  },
                )))
          l
          (finish-Ends off (length q) (drop (limit - off) p) _
            (loop-Ends (suc (length q)) s off 0 q (omega arith) v (omega arith))))

module _ (chunk_size : ℕ → ℕ → ℕ) (fill : ℕ → List ℕ → List ℕ × Option Error) (byte : ℕ → ℕ)
    (limit : ℕ)
    (progress : (off len : ℕ)
      → 0 < len
      → off + len ≤ limit
      → (0 < chunk_size off len) × (chunk_size off len ≤ len))
    (serve : (off len : ℕ) (q : List ℕ)
      → 0 < len
      → off + len ≤ limit
      → length q ≡ chunk_size off len
      → fill off q ≡ (slice byte off (length q), none)) where
  pub read-flat :
      (p : List ℕ) (off : ℕ)
      → off < limit
      → read chunk_size fill (pos limit) p (pos off) ≡ some (flat byte limit off p)
  unfolding read
  read-flat p off h =
      let (s, v, e) =
        read_at-flat chunk_size (stateless chunk_size fill) (λ _. Unit {0}) byte limit progress
          (λ s off len q v l le e.
            (tt, ap (λ r. r.0) (serve off len q l le e), ap (λ r. r.1) (serve off len q l le e)))
          tt p off tt h in
      ap (Option.map (λ r. r.1)) e
