-- ===== src/Superlp/Mapping/Search.antt =====
-- `sort.Search` finds the boundary of a test that is false below it and true from it on.
use udf.Prelude.{
  ℕ, zero, suc, ◌+◌, ◌-◌, ◌/◌, ◌≤◌, ◌<◌, ◌≡◌, Bool, Bool-cases, true, false, inl, inr, ltb, arith,
  ltb→lt,
}
use native.Mathlib.Decide.{dec_lt}
use udf.Superlp.Mapping.{bisect, sort_search}

module _ (f : ℕ → Bool) (t n : ℕ) (below : (k : ℕ) → k < t → f k ≡ false)
    (above : (k : ℕ) → t ≤ k → k < n → f k ≡ true) where
  bisect-boundary : (fuel i j : ℕ) → i ≤ t → t ≤ j → j ≤ n → j - i ≤ fuel → bisect fuel f i j ≡ t
  unfolding bisect
  bisect-boundary zero i j a b c d = omega arith
  bisect-boundary (suc fuel) i j a b c d = elim (Bool-cases (ltb i j)) [
    | inr done ↦ rw done (ground arith)
    | inl more ↦
        let l = ltb→lt i j more in
        elim (dec_lt ((i + j) / 2) t) [
          | yes low ↦
              rw (more, below ((i + j) / 2) low)
                (bisect-boundary fuel ((i + j) / 2 + 1) j (omega arith) b c (omega arith))
          | no high ↦
              rw (more, above ((i + j) / 2) (omega arith) (omega arith))
                (bisect-boundary fuel i ((i + j) / 2) a (omega arith) (omega arith) (omega arith))
        ]
  ]

  pub sort_search-boundary : t ≤ n → sort_search n f ≡ t
  unfolding sort_search
  sort_search-boundary h = bisect-boundary n 0 n (omega arith) h (omega arith) (omega arith)
