-- ===== src/Sparse/Flat.antt =====
-- image/sparse.go: `ReadAt` against the bytes to which the chunks expand.
use udf.Prelude.{
  ℕ, zero, suc, ◌+◌, ◌-◌, ◌*◌, ◌/◌, ◌%◌, ◌^◌, ◌≤◌, ◌<◌, ◌≡◌, refl, ap, ap₂, sym, ◌∙◌, Bool-cases,
  true, false, inl, inr, none, some, List, [], ◌∷◌, ◌++◌, length, take, drop, length-take,
  length-drop, drop-drop, append_assoc, ltb, lt→ltb, ◌==◌, if◌then◌else◌, pos, arith, min, lt_int64,
  lt_int64_small, sub_int64_small,
}
use native.Mathlib.Decide.{dec_lt}
use udf.Reader.{eof, Read, Serves, Serves-int64, slice}
use udf.Reader.Blocks.{slice-cong, slice-zeros}
use udf.Reader.Chunks.Total.{slice-add, length-slice}
use udf.Sparse.{
  Chunk, Device, lesser, wanted, words, serve, prefixed, loop, read_at, sparse_chunk_raw,
  sparse_chunk_fill,
}
use udf.Sparse.Search.{Tiles, holder, Holds, chunk_at-holder}

-- Byte `off` of the device, which stands in the chunk `c`.
abbrev pub chunk_byte : (ℕ → ℕ) → Chunk → ℕ → ℕ
chunk_byte content c off =
    let into = off - c.out in
    if c.kind == sparse_chunk_raw
    then content (c.off + into)
    else if c.kind == sparse_chunk_fill
    then c.fill / 2 ^ (8 * (into % 4)) % 256
    else 0

abbrev pub sparse_byte : (ℕ → ℕ) → List Chunk → ℕ → ℕ
sparse_byte content chunks off = chunk_byte content (holder chunks off) off

-- The file holds the bytes of the raw chunks.
abbrev pub RawInFile : List Chunk → ℕ → ℕ → Type 0
RawInFile chunks limit file_size =
    (i : ℕ)
    → i < limit
    → (holder chunks i).kind ≡ sparse_chunk_raw
    → (holder chunks i).off + (i - (holder chunks i).out) < file_size

-- What a read of `p` at an offset inside the device leaves: `io.EOF` stands where it is cut short.
abbrev pub expanded : (ℕ → ℕ) → ℕ → ℕ → ℕ → List ℕ → Read
expanded byte limit off n p =
    let m = min (limit - off) (length p) in
    record {
      buf = slice byte off m ++ drop m p;
      n = n + m;
      fault = if ltb m (length p) then some eof else none;
    }

holder_same :
    (cs : List Chunk) (off j : ℕ)
    → off + j < (holder cs off).out + (holder cs off).n
    → holder cs (off + j) ≡ holder cs off
holder_same [] off j h = refl
holder_same (c ∷ cs) off j h = elim (Bool-cases (ltb off (c.out + c.n))) [
  | inl here ↦
      let l : ltb (off + j) (c.out + c.n) ≡ true = lt→ltb _ _ (rw here at h) in rw (here, l)
  | inr past ↦
      let l : ltb (off + j) (c.out + c.n) ≡ false = ground arith in
      rw (past, l) (holder_same cs off j (rw past at h))
]

words-slice :
    (f : ℕ → ℕ) (word at_ off n : ℕ)
    → ((j : ℕ) → j < n → f (off + j) ≡ word / 2 ^ (8 * ((at_ + j) % 4)) % 256)
    → words word at_ n ≡ slice f off n
unfolding words
words-slice f word at_ off zero h = refl
words-slice f word at_ off (suc n) h =
    let head = h 0 (omega arith) in
    let first : off + 0 ≡ off = omega arith in
    let first' : at_ + 0 ≡ at_ = omega arith in
    ap₂ ◌∷◌ (sym (rw (first, first') at head)) (
      words-slice f word (at_ + 1) (off + 1) n (λ j l.
        let e : off + 1 + j ≡ off + suc j = omega arith in
        let e' : at_ + 1 + j ≡ at_ + suc j = omega arith in rw (e, e') (h (suc j) (omega arith))))

take_left : (b ys : List ℕ) → take (length b) (b ++ ys) ≡ b
take_left [] ys = refl
take_left (x ∷ b) ys = ap (λ l. x ∷ l) (take_left b ys)

drop_left : (b ys : List ℕ) → drop (length b) (b ++ ys) ≡ ys
drop_left [] ys = refl
drop_left (x ∷ b) ys = drop_left b ys

lesser_small : (a b : ℕ) → a < 2 ^ 63 → b < 2 ^ 63 → lesser a b ≡ min a b
lesser_small a b h k = let e = lt_int64_small b a k h in rw e (ground arith)

-- A chunk and what the rest of a read leaves behind it.
expanded-prefixed :
    (byte : ℕ → ℕ) (limit off n k : ℕ) (p : List ℕ)
    → k ≤ length p
    → off + k ≤ limit
    → record (expanded byte limit (off + k) (n + k) (drop k p)) {
      buf = slice byte off k ++ (expanded byte limit (off + k) (n + k) (drop k p)).buf;
    }
      ≡ expanded byte limit off n p
expanded-prefixed byte limit off n k p h w =
    let left : length (drop k p) ≡ length p - k = length-drop k p in
    let m = min (limit - (off + k)) (length (drop k p)) in
    let whole : min (limit - off) (length p) ≡ k + m = omega arith in
    let bytes : slice byte off k ++ (slice byte (off + k) m ++ drop m (drop k p))
        ≡ slice byte off (k + m) ++ drop (k + m) p =
      sym (append_assoc (slice byte off k) (slice byte (off + k) m) (drop m (drop k p)))
      ∙ ap₂ ◌++◌ (sym (slice-add byte off k m)) (drop-drop m k p) in
    let count : n + k + m ≡ n + (k + m) = omega arith in
    let more : ltb m (length (drop k p)) ≡ ltb (k + m) (length p) = ground arith in
    rw (whole, bytes, count, more)

module _ (r : Device) (limit file_size : ℕ) (content : ℕ → ℕ) (sized : r.size ≡ limit)
    (fits : limit < 2 ^ 63) (tiles : Tiles 0 r.chunks limit) (served : Serves r.f file_size content)
    (small : file_size < 2 ^ 63) (raw : RawInFile r.chunks limit file_size) where
  wanted-min :
      (c : Chunk) (off len : ℕ)
      → Holds c off
      → c.out + c.n ≤ limit
      → off < limit
      → len < 2 ^ 63
      → wanted r c off len ≡ min (min (c.n - (off - c.out)) len) (limit - off)
  unfolding wanted
  wanted-min c off len h e l s =
      let a = sub_int64_small off c.out h.0 (omega arith) in
      let b = sub_int64_small c.n (off - c.out) (omega arith) (omega arith) in
      let d = sub_int64_small limit off (omega arith) fits in
      let m = lesser_small (c.n - (off - c.out)) len (omega arith) s in
      let m' =
        lesser_small (min (c.n - (off - c.out)) len) (limit - off) (omega arith) (omega arith) in
      rw (sized, a, b, d, m, m')

  serve-slice :
      (off : ℕ) (q : List ℕ)
      → Holds (holder r.chunks off) off
      → 0 < length q
      → off + length q ≤ limit
      → off + length q ≤ (holder r.chunks off).out + (holder r.chunks off).n
      → serve r (holder r.chunks off) off q ≡ record {
        buf = slice (sparse_byte content r.chunks) off (length q);
        n = length q;
        fault = none;
      }
  unfolding serve
  serve-slice off q h l w e =
      let c = holder r.chunks off in
      let a = sub_int64_small off c.out h.0 (omega arith) in
      let same = λ (j : ℕ) (k : j < length q). holder_same r.chunks off j (omega arith) in
      elim (Bool-cases (c.kind == sparse_chunk_raw)) [
        | inl is_raw ↦
            let kind : c.kind ≡ sparse_chunk_raw = ground arith in
            let j = length q - 1 in
            let k : j < length q = omega arith in
            let last : c.off + (off + j - c.out) < file_size =
              rw (same j k) at
                (raw (off + j) (omega arith) (ap (λ (c : Chunk). c.kind) (same j k) ∙ kind)) in
            let read =
              Serves-int64 (c.off + (off - c.out)) q served small l (omega (arith, h, last)) in
            let bytes =
              slice-cong (sparse_byte content r.chunks) content off (c.off + (off - c.out))
                (length q)
                (λ j k.
                  let moved : c.off + (off + j - c.out) ≡ c.off + (off - c.out) + j =
                    omega (arith, h) in
                  rw (same j k, is_raw, moved)) in
            rw (is_raw, a, read, bytes)
        | inr not_raw ↦ elim (Bool-cases (c.kind == sparse_chunk_fill)) [
          | inl is_fill ↦
              let bytes =
                words-slice (sparse_byte content r.chunks) c.fill (off - c.out) off (length q)
                  (λ j k.
                    let moved : off + j - c.out ≡ off - c.out + j = omega (arith, h) in
                    rw (same j k, not_raw, is_fill, moved)) in
              rw (not_raw, is_fill, a, bytes)
          | inr other ↦
              let bytes =
                slice-zeros (sparse_byte content r.chunks) off (length q)
                  (λ j k. rw (same j k, not_raw, other)) in
              rw (not_raw, other, bytes)
        ]
      ]

  loop-round :
      (fuel off n : ℕ) (x : ℕ) (xs : List ℕ)
      → off < limit
      → length (x ∷ xs) < 2 ^ 63
      → (k : ℕ) × (0 < k)
        × (k ≤ length (x ∷ xs))
        × (off + k ≤ limit)
        × (loop r (suc fuel) off n (x ∷ xs)
            ≡ prefixed
                (slice (sparse_byte content r.chunks) off k)
                (loop r fuel (off + k) (n + k) (drop k (x ∷ xs))))
  unfolding loop
  loop-round fuel off n x xs l s =
      let p = x ∷ xs in
      let (found, holds, last) = chunk_at-holder r limit off tiles fits l in
      let c = holder r.chunks off in
      let k = min (min (c.n - (off - c.out)) (length p)) (limit - off) in
      let want = wanted-min c off (length p) holds last l s in
      let q = take k p in
      let size : length q ≡ k = length-take k p ∙ omega arith in
      let some_bytes : lt_int64 0 k ≡ true =
        lt_int64_small 0 k (omega arith) (omega arith) ∙ lt→ltb _ _ (omega (arith, holds)) in
      let read =
        serve-slice off q holds (omega (arith, holds, size)) (omega (arith, size))
          (omega (arith, holds, size)) in
      let b = slice (sparse_byte content r.chunks) off k in
      let width = length-slice (sparse_byte content r.chunks) off k in
      let inside : lt_int64 off r.size ≡ true =
        ap (λ m. lt_int64 off m) sized
        ∙ lt_int64_small off limit (omega arith) fits
        ∙ lt→ltb _ _ l in
      (
        k,
        omega (arith, holds),
        omega arith,
        omega arith,
        rw (inside, found, want, some_bytes, read, size)
            (ap₂ (λ t d. prefixed t (loop r fuel (off + k) (n + k) d))
              (ap (λ m. take m (b ++ drop k p)) (sym width) ∙ take_left b (drop k p))
              (ap (λ m. drop m (b ++ drop k p)) (sym width) ∙ drop_left b (drop k p))),
      )

  loop-expanded :
      (fuel off n : ℕ) (p : List ℕ)
      → length p < fuel
      → length p < 2 ^ 63
      → off ≤ limit
      → loop r fuel off n p ≡ some (expanded (sparse_byte content r.chunks) limit off n p)
  unfolding loop
  loop-expanded zero off n p f s l = absurd (omega arith)
  loop-expanded (suc fuel) off n [] f s l =
      let none_left : min (limit - off) 0 ≡ 0 = omega arith in
      let same : n + 0 ≡ n = omega arith in rw (none_left, same)
  loop-expanded (suc fuel) off n (x ∷ xs) f s l = elim (dec_lt off limit) [
    | no end ↦
        let at_end : lt_int64 off r.size ≡ false =
          ap (λ m. lt_int64 off m) sized
          ∙ lt_int64_small off limit (omega arith) fits
          ∙ ground arith in
        let none_left : min (limit - off) (length (x ∷ xs)) ≡ 0 = omega arith in
        let some_left : ltb 0 (length (x ∷ xs)) ≡ true = lt→ltb _ _ (omega arith) in
        let same : n + 0 ≡ n = omega arith in rw (at_end, none_left, some_left, same)
    | yes inside ↦
        let p = x ∷ xs in
        let (k, some_bytes, few, within, round) = loop-round fuel off n x xs inside s in
        let left : length (drop k p) ≡ length p - k = length-drop k p in
        let ih =
          loop-expanded fuel (off + k) (n + k) (drop k p) (omega arith) (omega arith) within in
        let m = min (limit - (off + k)) (length (drop k p)) in
        round
        ∙ ap (prefixed (slice (sparse_byte content r.chunks) off k)) ih
        ∙ ap some (expanded-prefixed (sparse_byte content r.chunks) limit off n k p few within)
  ]

  -- On a device of `limit` bytes whose chunks follow one another without gaps, and whose file serves
  -- `content` and holds every raw chunk, `ReadAt` inside the device fills `p` up to its end with the
  -- bytes to which the chunks expand: those of the file, the fill word's, or zeros. It returns how
  -- many these are, and `io.EOF` exactly if they are fewer than asked for; no fuel runs out.
  pub read_at-sparse_byte :
      (p : List ℕ) (off : ℕ)
      → length p < 2 ^ 63
      → off < limit
      → read_at r p (pos off) ≡ some (expanded (sparse_byte content r.chunks) limit off 0 p)
  unfolding read_at
  read_at-sparse_byte p off s l =
      let inside : lt_int64 off r.size ≡ true =
        ap (λ m. lt_int64 off m) sized
        ∙ lt_int64_small off limit (omega arith) fits
        ∙ lt→ltb _ _ l in
      rw inside (loop-expanded (suc (length p)) off 0 p (omega arith) s (omega arith))
