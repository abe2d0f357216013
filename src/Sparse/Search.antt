-- ===== src/Sparse/Search.antt =====
-- image/sparse.go: `chunkAt` on a table whose chunks follow one another.
use udf.Prelude.{
  ℕ, zero, suc, ◌+◌, ◌/◌, ◌^◌, ◌≤◌, ◌<◌, ◌≡◌, refl, ap, sym, ◌∙◌, Bool-cases, true, inl, inr, some,
  List, [], ◌∷◌, length, get_or, get_elem?, get_elem?-get_or, ltb, if◌then◌else◌, arith,
  lt_int64_small, add_int64_small,
}
use native.Mathlib.Decide.{dec_lt}
use udf.Sparse.{Chunk, Device, no_chunk, search_chunks, chunk_at}

-- The chunks cover the range from `start` to `end` without gaps and in order.
abbrev pub Tiles : ℕ → List Chunk → ℕ → Type 0
Tiles start [] end = start ≡ end
Tiles start (c ∷ cs) end = (c.out ≡ start) × Tiles (start + c.n) cs end

-- The first chunk that ends behind an offset.
abbrev pub holder : List Chunk → ℕ → Chunk
holder [] off = no_chunk
holder (c ∷ cs) off = if ltb off (c.out + c.n) then c else holder cs off

abbrev pub Holds : Chunk → ℕ → Type 0
Holds c off = (c.out ≤ off) × (off < c.out + c.n)

Tiles-le : (start : ℕ) (cs : List Chunk) (end : ℕ) → Tiles start cs end → start ≤ end
Tiles-le start [] end t = omega arith
Tiles-le start (c ∷ cs) end (o, t) = let h = Tiles-le (start + c.n) cs end t in omega arith

Tiles-bounds :
    (start : ℕ) (cs : List Chunk) (end k : ℕ) {c : Chunk}
    → Tiles start cs end
    → get_elem? cs k ≡ some c
    → (start ≤ c.out) × (c.out + c.n ≤ end)
Tiles-bounds start [] end k t e = cc
Tiles-bounds start (c ∷ cs) end zero {c = found} (o, t) e =
    let l = Tiles-le (start + c.n) cs end t in ground arith
Tiles-bounds start (c ∷ cs) end (suc k) {c = found} (o, t) e =
    let (l, h) = Tiles-bounds (start + c.n) cs end k {c = found} t e in (omega arith, h)

Tiles-order :
    (start : ℕ) (cs : List Chunk) (end j k : ℕ) {a b : Chunk}
    → Tiles start cs end
    → get_elem? cs j ≡ some a
    → get_elem? cs k ≡ some b
    → j < k
    → a.out + a.n ≤ b.out
Tiles-order start [] end j k t e f h = cc
Tiles-order start (c ∷ cs) end j zero t e f h = absurd (omega arith)
Tiles-order start (c ∷ cs) end zero (suc k) {a} {b} (o, t) e f h =
    let (l, u) = Tiles-bounds (start + c.n) cs end k {c = b} t f in ground arith
Tiles-order start (c ∷ cs) end (suc j) (suc k) (o, t) e f h =
    Tiles-order (start + c.n) cs end j k t e f (omega arith)

pub holder-Holds :
    (start : ℕ) (cs : List Chunk) (end off : ℕ)
    → Tiles start cs end
    → start ≤ off
    → off < end
    → Holds (holder cs off) off
      × (k : ℕ) × (k < length cs)
      × (get_elem? cs k ≡ some (holder cs off))
holder-Holds start [] end off t l h = absurd (omega arith)
holder-Holds start (c ∷ cs) end off (o, t) l h = elim (Bool-cases (ltb off (c.out + c.n))) [
  | inl here ↦ rw here ((omega arith, ground arith), 0, omega arith, refl)
  | inr past ↦
      let (holds, k, inside, e) = holder-Holds (start + c.n) cs end off t (ground arith) h in
      rw past (holds, suc k, omega arith, e)
]

-- Where the chunk that holds an offset stands, by a comparison with another chunk.
module _ (cs : List Chunk) (end off : ℕ) (tiles : Tiles 0 cs end) (k j : ℕ) {b a : Chunk}
    (at_k : get_elem? cs k ≡ some b) (at_j : get_elem? cs j ≡ some a) (holds : Holds b off) where
  same_chunk : k ≡ j → a ≡ b
  same_chunk e = let one : some b ≡ some a = sym at_k ∙ ap (λ i. get_elem? cs i) e ∙ at_j in cc

  not_behind : off < a.out + a.n → k ≤ j
  not_behind h = elim (dec_lt j k) [
    | no n ↦ omega arith
    | yes y ↦
        let o = Tiles-order 0 cs end j k {a = a} {b = b} tiles at_j at_k y in absurd (ground arith)
  ]

  not_before : a.out ≤ off → j ≤ k
  not_before h = elim (dec_lt k j) [
    | no n ↦ omega arith
    | yes y ↦
        let o = Tiles-order 0 cs end k j {a = b} {b = a} tiles at_k at_j y in absurd (ground arith)
  ]

  held_before : off < a.out → k < j
  held_before h = elim (dec_lt k j) [
    | yes y ↦ y
    | no n ↦
        let l = not_behind (omega arith) in
        let e = ap (λ (c : Chunk). c.out) (same_chunk (omega arith)) in absurd (ground arith)
  ]

  held_behind : a.out + a.n ≤ off → j < k
  held_behind h = elim (dec_lt j k) [
    | yes y ↦ y
    | no n ↦
        let l = not_before (omega arith) in
        let s = same_chunk (omega arith) in
        let e = ap (λ (c : Chunk). c.out + c.n) s in absurd (ground arith)
  ]

  held_at : Holds a off → k ≡ j
  held_at h = let l = not_behind h.1 in let m = not_before h.0 in omega arith

module _ (cs : List Chunk) (end off t : ℕ) (c : Chunk) (tiles : Tiles 0 cs end)
    (small : end < 2 ^ 63) (e : get_elem? cs t ≡ some c) (holds : Holds c off) where
  search_chunks-found :
      (fuel lo hi : ℕ)
      → hi ≤ fuel + lo
      → lo ≤ t
      → t < hi
      → hi ≤ length cs
      → search_chunks cs off fuel lo hi ≡ some c
  unfolding search_chunks
  search_chunks-found zero lo hi f l h w = absurd (omega arith)
  search_chunks-found (suc fuel) lo hi f l h w =
      let mid = (lo + hi) / 2 in
      let m = get_or cs mid no_chunk in
      let em : get_elem? cs mid ≡ some m = get_elem?-get_or cs mid no_chunk (omega arith) in
      let (ml, mh) = Tiles-bounds 0 cs end mid {c = m} tiles em in
      let (cl, ch) = Tiles-bounds 0 cs end t {c = c} tiles e in
      let open_range : ltb lo hi ≡ true = ground arith in
      let before = lt_int64_small off m.out (omega arith) (omega arith) in
      let sum = add_int64_small m.out m.n (omega arith) in
      let behind = lt_int64_small off (m.out + m.n) (omega arith) (omega arith) in
      elim (Bool-cases (ltb off m.out)) [
        | inl left ↦
            let earlier =
              held_before cs end off tiles t mid {b = c} {a = m} e em holds (ground arith) in
            rw (open_range, before, left)
              (search_chunks-found fuel lo mid (omega arith) l earlier (omega arith))
        | inr right ↦ elim (Bool-cases (ltb off (m.out + m.n))) [
          | inr past ↦
              let later =
                held_behind cs end off tiles t mid {b = c} {a = m} e em holds (ground arith) in
              rw (open_range, before, right, sum, behind, past)
                (search_chunks-found fuel (mid + 1) hi (omega arith) (omega arith) h w)
          | inl here ↦
              let same : t ≡ mid =
                held_at cs end off tiles t mid {b = c} {a = m} e em holds (ground arith) in
              let one : some c ≡ some m = sym e ∙ ap (λ k. get_elem? cs k) same ∙ em in
              rw (open_range, before, right, sum, behind, here) (sym one)
        ]
      ]

-- On a table that covers a device of fewer than 2 ^ 63 bytes without gaps, the bisection of `chunkAt`
-- finds, for every offset inside the device, the first chunk that ends behind it, which holds it.
pub chunk_at-holder :
    (r : Device) (end off : ℕ)
    → Tiles 0 r.chunks end
    → end < 2 ^ 63
    → off < end
    → (chunk_at r off ≡ some (holder r.chunks off))
      × Holds (holder r.chunks off) off
      × ((holder r.chunks off).out + (holder r.chunks off).n ≤ end)
unfolding chunk_at
chunk_at-holder r end off tiles small h =
    let (holds, k, inside, e) = holder-Holds 0 r.chunks end off tiles (omega arith) h in
    let c = holder r.chunks off in
    (
      search_chunks-found r.chunks end off k c tiles small e holds (length r.chunks) 0
          (length r.chunks) (omega arith) (omega arith) inside (omega arith),
      holds,
      (Tiles-bounds 0 r.chunks end k {c = c} tiles e).1,
    )
