-- ===== src/Lz4/Blocks.antt =====
-- image/archive/lz4legacy.go: one block of a stream, and the buffer that it is decoded into.
use udf.Prelude.{
  ℕ, zero, suc, ◌+◌, ◌*◌, ◌/◌, ◌%◌, ◌^◌, ◌≤◌, ◌<◌, ◌≡◌, refl, ap, true, false, ◌||◌, Bool-cases,
  inl, inr, ◌⊎◌, none, List, [], ◌∷◌, ◌++◌, length, ltb, ◌==◌, le32, arith, ltb→lt,
}
use native.Mathlib.Nat.{pow-suc}
use udf.Reader.{Error, Result, ok, err, read_full-append}
use udf.Lz4.{max_blk, max_in, max_out, State, grow, first_try, decode, decoded, next}

-- The length in front of a block, as its four bytes.
abbrev pub put_le32 : ℕ → List ℕ
put_le32 n = n % 256 ∷ n / 2 ^ 8 % 256 ∷ n / 2 ^ 16 % 256 ∷ n / 2 ^ 24 % 256 ∷ []

put_le32-le32 : (n : ℕ) → n < 2 ^ 32 → le32 (put_le32 n) 0 ≡ n
unfolding le32
put_le32-le32 n h = omega arith

pub frame : List ℕ → List ℕ
frame comp = put_le32 (length comp) ++ comp

module _ (uncompress : List ℕ → ℕ → Result (List ℕ)) where
  -- A block that decodes to `out` wherever there is room for it.
  pub record Decodes (comp out : List ℕ) : Type 0 where
    pub some_in : 0 < length comp
    pub few_in : length comp ≤ max_in
    pub some_out : 0 < length out
    pub few_out : length out ≤ max_out
    pub fits : (n : ℕ) → length out ≤ n → uncompress comp n ≡ ok out
    pub small : (n : ℕ) → n < length out → (e : Error) × (uncompress comp n ≡ err e)

  -- The lengths that the buffer takes before it is full.
  pub record IsBuffer (dst : ℕ) : Type 0 where
    pub made : (dst ≡ 0) ⊎ (max_blk ≤ dst)

  grow-Decodes :
      (fuel dst : ℕ) (e : Error) {comp out : List ℕ}
      → Decodes comp out
      → max_blk ≤ dst
      → dst < length out
      → max_out ≤ dst * 2 ^ fuel
      → (dst' : ℕ) × (max_blk ≤ dst') × (grow uncompress fuel comp dst e ≡ (dst', ok out))
  unfolding grow
  grow-Decodes zero dst e d b l m = let few = d.few_out in absurd (omega arith)
  grow-Decodes (suc fuel) dst e {comp} {out} d b l m =
      let few = d.few_out in
      let below : ltb dst max_out ≡ true = ground arith in
      let twice = ap (λ (t : ℕ). dst * t) (pow-suc 2 fuel) in
      elim (Bool-cases (ltb (dst * 2) (length out))) [
        | inl more ↦
            let (e', bad) = d.small (dst * 2) (ltb→lt _ _ more) in
            let (dst', b', r) =
              grow-Decodes fuel (dst * 2) e' {comp = comp} {out = out} d (omega arith)
                (ltb→lt _ _ more) (omega (arith, twice)) in
            (dst', b', rw (grow, below, bad) r)
        | inr room ↦
            let good = d.fits (dst * 2) (ground arith) in
            (dst * 2, omega arith, rw (grow, below, good))
      ]

  first_try-Decodes :
      (dst : ℕ) {comp out : List ℕ}
      → Decodes comp out
      → max_blk ≤ dst
      → (dst' : ℕ) × (max_blk ≤ dst')
        × (first_try uncompress dst comp (uncompress comp dst) ≡ (dst', ok out))
  first_try-Decodes dst {comp} {out} d b = elim (Bool-cases (ltb dst (length out))) [
    | inl more ↦
        let (e, bad) = d.small dst (ltb→lt _ _ more) in
        let (dst', b', r) =
          grow-Decodes 3 dst e {comp = comp} {out = out} d b (ltb→lt _ _ more) (omega arith) in
        (dst', b', rw bad r)
    | inr room ↦ let good = d.fits dst (ground arith) in (dst, b, rw good)
  ]

  pub decode-Decodes :
      (dst : ℕ) {comp out : List ℕ}
      → Decodes comp out
      → IsBuffer dst
      → (dst' : ℕ) × (max_blk ≤ dst') × (decode uncompress comp dst ≡ (dst', ok out))
  unfolding decode
  decode-Decodes dst {comp} {out} d b = elim b.made [
    | inl zero_ ↦ rw zero_ (first_try-Decodes max_blk {comp = comp} {out = out} d (omega arith))
    | inr made ↦
        let n : (dst == 0) ≡ false = ground arith in
        rw n (first_try-Decodes dst {comp = comp} {out = out} d made)
  ]

  decoded-some :
      (l : State) (dst : ℕ) (out : List ℕ)
      → 0 < length out
      → decoded uncompress l (dst, ok out)
        ≡ (record l { dst = dst; block = out; produced = l.produced + length out }, none)
  decoded-some l dst [] h = absurd (omega arith)
  decoded-some l dst (c ∷ out) h = refl

  pub next-frame :
      (l : State) (rest : List ℕ) {comp out : List ℕ}
      → Decodes comp out
      → IsBuffer l.dst
      → l.src ≡ frame comp ++ rest
      → (dst : ℕ) × (max_blk ≤ dst)
        × (next uncompress l ≡ (
          record l { src = rest; dst = dst; block = out; produced = l.produced + length out },
          none,
        ))
  unfolding next frame
  next-frame l rest {comp} {out} d b h =
      let few = d.few_in in
      let some_in = d.some_in in
      let hdr = read_full-append (put_le32 (length comp)) (comp ++ rest) 4 refl in
      let size = put_le32-le32 (length comp) (omega arith) in
      let good : (length comp == 0 || ltb max_in (length comp)) ≡ false = ground arith in
      let body = read_full-append comp rest (length comp) refl in
      let (dst, made, r) = decode-Decodes l.dst {comp = comp} {out = out} d b in
      (
        dst,
        made,
        rw (h, hdr, size, good, body, r)
            (decoded-some (record l { src = rest }) dst out d.some_out),
      )
