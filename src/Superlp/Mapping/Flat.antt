-- ===== src/Superlp/Mapping/Flat.antt =====
-- `Mapping.ReadAt` reads the bytes that the partition's extents describe, one after another.
use udf.Prelude.{
  ℕ, zero, suc, ◌+◌, ◌-◌, ◌*◌, ◌^◌, ◌≤◌, ◌<◌, ◌≡◌, ◌≢◌, refl, ap, sym, subst, ◌∙◌, Bool-cases, true,
  false, inl, inr, Option, none, some, List, [], ◌∷◌, ◌++◌, length, take, drop, drop-drop,
  length-take, length-drop, get_or, leb, lt→ltb, ltb→lt, ◌==◌, arith, min, pos, lt_int64,
  lt_int64_small, sub_int64_small, add_int64_small, append_assoc,
}
use udf.Reader.{Error, Read, ReaderAt, Serves, Serves-int64, slice}
use udf.Reader.Blocks.{slice-cong, slice-zeros}
use udf.Reader.Chunks.Total.{flat, slice-add}
use udf.Superlp.{Extent, sector_size, target_zero}
use udf.Superlp.Mapping.{
  Mapping, byte_len, above, chunk_len, fill_extent, settle, loop, read_mapping, no_extent,
}
use udf.Superlp.Mapping.Search.{sort_search-boundary}
use udf.Superlp.Mapping.Extents.{
  extent_len, total, prefixes, length-prefixes, extent_byte, lp_byte, HeldBy, HeldBy-exists,
  lp_byte-HeldBy, prefixes-end,
}

-- The mapping of a list of extents whose bytes an int64 can count.
abbrev pub built : ReaderAt → ℕ → List Extent → Mapping
built ra origin es = record {
  ra = ra;
  origin = origin;
  extents = es;
  starts = prefixes 0 es;
  size = total es;
}

-- Every extent that is not of zeros lies inside the file.
abbrev pub ExtentsInFile : ℕ → List Extent → ℕ → Type 0
ExtentsInFile origin es file_size =
    (k : ℕ)
    → k < length es
    → (get_or es k no_extent).target_type ≢ target_zero
    → origin
        + (get_or es k no_extent).target_data * sector_size
        + extent_len (get_or es k no_extent)
      ≤ file_size

drop-nil : (n : ℕ) → drop {A = ℕ} n [] ≡ []
drop-nil zero = refl
drop-nil (suc n) = refl

module _ (ra : ReaderAt) (origin file_size : ℕ) (content : ℕ → ℕ) (es : List Extent)
    (served : Serves ra file_size content) (small : file_size < 2 ^ 63) (fits : total es < 2 ^ 63)
    (mapped : ExtentsInFile origin es file_size) where
  abbrev byte : ℕ → ℕ
  byte = lp_byte origin content es

  abbrev mp : Mapping
  mp = built ra origin es

  -- A byte of the extent that also holds byte `i`.
  byte_along :
      (i j k : ℕ)
      → HeldBy 0 es i k
      → i + j < get_or (prefixes 0 es) k 0 + extent_len (get_or es k no_extent)
      → byte (i + j)
        ≡ extent_byte origin content (get_or es k no_extent) (i - get_or (prefixes 0 es) k 0 + j)
  byte_along i j k h l =
      let s = h.start in
      let zero_left : i + j - 0 ≡ i + j = omega arith in
      let move : i + j - get_or (prefixes 0 es) k 0 ≡ i - get_or (prefixes 0 es) k 0 + j =
        omega arith in
      let r =
        lp_byte-HeldBy origin content 0 es (i + j) k (omega arith)
          (record { inside = h.inside; start = omega arith; end = l }) in
      subst
        (λ n.
          lp_byte origin content es n
          ≡ extent_byte origin content (get_or es k no_extent) (i - get_or (prefixes 0 es) k 0 + j))
        zero_left (r ∙ ap (extent_byte origin content (get_or es k no_extent)) move)

  fill_extent-slice :
      (i k : ℕ) (q : List ℕ)
      → i < 2 ^ 63
      → HeldBy 0 es i k
      → 0 < length q
      → i + length q ≤ get_or (prefixes 0 es) k 0 + extent_len (get_or es k no_extent)
      → fill_extent mp (get_or es k no_extent) (get_or (prefixes 0 es) k 0) i q
        ≡ (slice byte i (length q), none)
  unfolding fill_extent
  fill_extent-slice i k q s h l b =
      let e = get_or es k no_extent in
      let start = get_or (prefixes 0 es) k 0 in
      let into = sub_int64_small i start h.start s in
      elim (Bool-cases (e.target_type == target_zero)) [
        | inl zeros ↦ rw zeros (
            ap (λ b. (b, none))
              (sym (
                slice-zeros byte i (length q)
                  (λ j m. byte_along i j k h (omega arith) ∙ rw zeros))))
        | inr linear ↦
            let inside = mapped k h.inside (ground arith) in
            let st = h.start in
            let a = origin + e.target_data * sector_size + (i - start) in
            let r = Serves-int64 a q served small l (omega arith) in
            rw (linear, into, r)
              (ap (λ b. (b, none))
                (sym (
                  slice-cong byte content i a (length q) (λ j m.
                    byte_along i j k h (omega arith) ∙ rw linear (ap content (omega arith))))))
      ]

  -- What a loop leaves that starts at byte `i` with `done` bytes served.
  abbrev Ends : ℕ → ℕ → List ℕ → Option Read → Type 0
  Ends i done p r =
      r
      ≡ some (record {
        buf = slice byte i (min (total es - i) (length p)) ++ drop (total es - i) p;
        n = done + min (total es - i) (length p);
        fault = none;
      })

  settle-Ends :
      (i done n : ℕ) (p b : List ℕ) (fault : Option Error) (rest : Option Read)
      → n ≤ length p
      → i + n ≤ total es
      → b ≡ slice byte i n
      → fault ≡ none
      → Ends (i + n) (done + n) (drop n p) rest
      → Ends i done p (settle fault b (drop n p) done rest)
  settle-Ends i done n p b fault rest l h eb ef r =
      let m = min (total es - (i + n)) (length (drop n p)) in
      let split : min (total es - i) (length p) ≡ n + m = omega (arith, length-drop n p) in
      let gone : n + (total es - (i + n)) ≡ total es - i = omega arith in
      let tail = drop-drop (total es - (i + n)) n p ∙ ap (λ k. drop k p) gone in
      let assoc = append_assoc (slice byte i n) (slice byte (i + n) m) (drop (total es - i) p) in
      ground (arith, slice-add byte i n m)

  -- The search finds the extent that holds byte `i`.
  above-HeldBy : (i : ℕ) → i < total es → (k : ℕ) × HeldBy 0 es i k × (above mp i ≡ suc k)
  unfolding above
  above-HeldBy i h =
      let (k, held, low, high) = HeldBy-exists 0 es i (omega arith) (omega arith) in
      let f = λ (j : ℕ). lt_int64 i (get_or (prefixes 0 es) j 0) in
      (
        k,
        held,
        sort_search-boundary f (suc k) (length (prefixes 0 es)) (λ j l. low_false j (low j l))
            (λ j l m.
              high_true j (omega (arith, length-prefixes 0 es))
                (high j l (omega (arith, length-prefixes 0 es))))
            (omega (arith, held.inside, length-prefixes 0 es)),
      )
    where
      low_false :
          (j : ℕ) → get_or (prefixes 0 es) j 0 ≤ i → lt_int64 i (get_or (prefixes 0 es) j 0) ≡ false
      low_false j l =
          lt_int64_small i (get_or (prefixes 0 es) j 0) (omega arith) (omega arith) ∙ ground arith

      high_true :
          (j : ℕ)
          → j < length es
          → i < get_or (prefixes 0 es) j 0
          → lt_int64 i (get_or (prefixes 0 es) j 0) ≡ true
      high_true j m l =
          lt_int64_small i (get_or (prefixes 0 es) j 0) (omega arith)
            (omega (arith, prefixes-end 0 es j m))
          ∙ ground arith

  -- `n` is positive, within `p`, and within the extent.
  chunk_len_bounds :
      (i k want : ℕ)
      → HeldBy 0 es i k
      → 0 < want
      → want < 2 ^ 63
      → let n = chunk_len (get_or (prefixes 0 es) k 0) (get_or es k no_extent) i want in
        (0 < n)
        × (n ≤ want)
        × (i + n ≤ get_or (prefixes 0 es) k 0 + extent_len (get_or es k no_extent))
  unfolding chunk_len
  chunk_len_bounds i k want h p w =
      let e = get_or es k no_extent in
      let start = get_or (prefixes 0 es) k 0 in
      let below = prefixes-end 0 es k h.inside in
      let len : byte_len e ≡ extent_len e = omega arith in
      let s = h.start in
      let d = h.end in
      let end = add_int64_small start (extent_len e) (omega arith) in
      let room = sub_int64_small (start + extent_len e) i (omega arith) (omega arith) in
      let cmp = lt_int64_small (start + extent_len e - i) want (omega arith) w in
      rw (len, end, room, cmp) (ground arith)

  -- A round inside the partition, with the extent that the search has found.
  round-Ends :
      (i done k : ℕ) (p : List ℕ) (rest : Option Read)
      → 0 < length p
      → length p < 2 ^ 63
      → i < total es
      → HeldBy 0 es i k
      → let start = get_or (prefixes 0 es) k 0 in
        let e = get_or es k no_extent in
        let n = chunk_len start e i (length p) in
        let out = fill_extent mp e start i (take n p) in
        Ends (i + n) (done + n) (drop n p) rest
        → Ends i done p (settle out.1 out.0 (drop n p) done rest)
  round-Ends i done k p rest l s inside held r =
      let start = get_or (prefixes 0 es) k 0 in
      let e = get_or es k no_extent in
      let n = chunk_len start e i (length p) in
      let (pos_n, le_n, end_n) = chunk_len_bounds i k (length p) held l s in
      let last = prefixes-end 0 es k held.inside in
      let lt : length (take n p) ≡ n = omega (arith, length-take n p) in
      let f = fill_extent-slice i k (take n p) (omega arith) held (omega arith) (omega arith) in
      settle-Ends i done n p _ _ rest le_n (omega arith) (ap (λ x. x.0) f ∙ ap (slice byte i) lt)
        (ap (λ x. x.1) f) r

  loop-Ends :
      (fuel off done : ℕ) (p : List ℕ)
      → length p < fuel
      → length p < 2 ^ 63
      → off + done < 2 ^ 63
      → Ends (off + done) done p (loop mp fuel off done p)
  unfolding loop
  loop-Ends zero off done p h s o = absurd (omega arith)
  loop-Ends (suc fuel) off done [] h s o =
      let none_left : min (total es - (off + done)) 0 ≡ 0 = omega arith in
      let nothing = drop-nil (total es - (off + done)) in ground arith
  loop-Ends (suc fuel) off done (x ∷ xs) h s o =
      elim (Bool-cases (lt_int64 (off + done) (total es))) [
        | inr past ↦
            let stuck = lt_int64_small (off + done) (total es) o fits in
            let over : total es - (off + done) ≡ 0 = ground arith in rw (past, over) (ground arith)
        | inl inside ↦
            let l = ltb→lt _ _ (sym (lt_int64_small (off + done) (total es) o fits) ∙ inside) in
            let (k, held, found) = above-HeldBy (off + done) l in
            let p = x ∷ xs in
            let start = get_or (prefixes 0 es) k 0 in
            let e = get_or es k no_extent in
            let n = chunk_len start e (off + done) (length p) in
            let (pos_n, le_n, end_n) =
              chunk_len_bounds (off + done) k (length p) held (omega arith) s in
            let found_one : (suc k == 0) ≡ false = ground arith in
            let one_less : suc k - 1 ≡ k = omega arith in
            let no_panic : leb (2 ^ 63) n ≡ false = ground arith in
            let last = prefixes-end 0 es k held.inside in
            let ih =
              loop-Ends fuel off (done + n) (drop n p) (omega (arith, length-drop n p))
                (omega (arith, length-drop n p)) (omega arith) in
            let next : off + (done + n) ≡ off + done + n = omega arith in
            rw (inside, found, found_one, one_less, no_panic)
              (round-Ends (off + done) done k p _ (omega arith) s l held (
                subst (λ i. Ends i (done + n) (drop n p) (loop mp fuel off (done + n) (drop n p)))
                  next ih))
      ]

  -- `ReadAt` of the mapping at any offset in the partition.
  pub read-built :
      (p : List ℕ) (off : ℕ)
      → length p < 2 ^ 63
      → off < total es
      → read_mapping mp p (pos off) ≡ some (flat byte (total es) off p)
  unfolding read_mapping
  read-built p off s h =
      let inside = lt_int64_small off (total es) (omega arith) fits ∙ lt→ltb off (total es) h in
      let first : off + 0 ≡ off = omega arith in
      let none_done : 0 + min (total es - off) (length p) ≡ min (total es - off) (length p) =
        omega arith in
      let r =
        subst (λ i. Ends i 0 p (loop mp (suc (length p)) off 0 p)) first
          (loop-Ends (suc (length p)) off 0 p (omega arith) s (omega arith)) in
      rw (inside, r, none_done) refl
