-- ===== src/Lz4/Round.antt =====
-- image/archive/lz4legacy.go: a stream of blocks read back whole.
use udf.Prelude.{
  ℕ, zero, suc, ◌+◌, ◌≤◌, ◌<◌, ◌≡◌, refl, ap, sym, ◌∙◌, true, false, ◌||◌, inl, inr, ◌⊎◌, some,
  List, [], ◌∷◌, ◌++◌, length, take, drop, ltb, ◌==◌, le32, arith, length-append, length-drop,
  append_assoc, take-append-drop,
}
use udf.Reader.{eof, Result, ok, read_full}
use udf.Lz4.{max_in, State, opened, next, delivered, after_read, read, read_all}
use udf.Lz4.Blocks.{frame, Decodes, IsBuffer, next-frame}

-- A stream is its blocks, each with what it decodes to.
abbrev pub stream : List (List ℕ × List ℕ) → List ℕ → List ℕ
stream [] tail = tail
stream ((comp, out) ∷ blocks) tail = frame comp ++ stream blocks tail

abbrev pub contents : List (List ℕ × List ℕ) → List ℕ
contents [] = []
contents ((comp, out) ∷ blocks) = out ++ contents blocks

-- What may stand behind the last block: nothing, or four bytes that cannot be a length, and more.
abbrev pub Ends : List ℕ → Type 0
Ends tail =
    (tail ≡ [])
    ⊎ ((4 ≤ length tail)
        × ((le32 (take 4 tail) 0 == 0 || ltb max_in (le32 (take 4 tail) 0)) ≡ true))

module _ (uncompress : List ℕ → ℕ → Result (List ℕ)) where
  pub data AllDecode : List (List ℕ × List ℕ) → Type 0 where
    no_blocks : AllDecode []
    add_block :
        {comp out : List ℕ} {blocks : List (List ℕ × List ℕ)}
        → Decodes uncompress comp out
        → AllDecode blocks
        → AllDecode ((comp, out) ∷ blocks)

  -- The reader before `blocks`, with what is left of the block before them.
  abbrev before : List (List ℕ × List ℕ) → List ℕ → List ℕ → ℕ → ℕ → State
  before blocks tail block produced dst = record {
    src = stream blocks tail;
    block = block;
    done = false;
    produced = produced;
    dst = dst;
  }

  -- Behind the last block, the stream is over.
  next_end :
      (tail : List ℕ) (produced dst : ℕ)
      → 0 < produced
      → Ends tail
      → (l : State) × (next uncompress (before [] tail [] produced dst) ≡ (l, some eof))
  unfolding next read_full
  next_end tail produced dst p (inl e) =
      (record (before [] tail [] produced dst) { done = true }, rw e refl)
  next_end tail produced dst p (inr (long, bad)) =
      let enough : ltb (length tail) 4 ≡ false = ground arith in
      let some_made : ltb 0 produced ≡ true = ground arith in
      (
        record (before [] tail [] produced dst) { src = drop 4 tail; done = true },
        rw (enough, bad, some_made) refl,
      )

  module _ (room : ℕ → ℕ) (positive : (n : ℕ) → 0 < room n) where
    -- What the reads are to leave: all that is read so far, and all that is ahead.
    abbrev Leaves : ℕ → State → List ℕ → List ℕ → Type 0
    Leaves fuel l out ahead = read_all uncompress room fuel l out ≡ some (ok (out ++ ahead))

    split_again :
        (n : ℕ) (out block rest : List ℕ)
        → (out ++ take n block) ++ (drop n block ++ rest) ≡ out ++ (block ++ rest)
    split_again n out block rest =
        append_assoc out (take n block) (drop n block ++ rest)
        ∙ ap (λ t. out ++ t)
            (sym (append_assoc (take n block) (drop n block) rest)
              ∙ ap (λ t. t ++ rest) (take-append-drop n block))

    read_all-before :
        (fuel : ℕ) (blocks : List (List ℕ × List ℕ)) (tail block : List ℕ) (produced dst : ℕ)
        (out : List ℕ)
        → AllDecode blocks
        → Ends tail
        → IsBuffer uncompress dst
        → 0 < length blocks + produced
        → length (block ++ contents blocks) < fuel
        → Leaves fuel (before blocks tail block produced dst) out (block ++ contents blocks)
    unfolding read_all read
    read_all-before zero blocks tail block produced dst out d e b s h = absurd (omega arith)
    read_all-before (suc fuel) blocks tail (c ∷ block) produced dst out d e b s h =
        let n = room (length out) in
        let p = positive (length out) in
        let l = length-append (drop n (c ∷ block)) (contents blocks) in
        let m = length-append (c ∷ block) (contents blocks) in
        let k = length-drop n (c ∷ block) in
        read_all-before fuel blocks tail (drop n (c ∷ block)) produced dst
          (out ++ take n (c ∷ block)) d e b s (omega arith)
        ∙ ap (λ t. some (ok t)) (split_again n out (c ∷ block) (contents blocks))
    read_all-before (suc fuel) [] tail [] produced dst out d e b s h =
        let (l, over) = next_end tail produced dst (omega arith) e in
        ap
          (λ t.
            after_read uncompress out (λ l' out'. read_all uncompress room fuel l' out')
              (delivered uncompress (room (length out)) t))
          over
    read_all-before (suc fuel) ((comp, o) ∷ blocks) tail [] produced dst out (add_block d ds) e b s
          h =
        let (dst', made, r) =
          next-frame uncompress (before ((comp, o) ∷ blocks) tail [] produced dst)
            (stream blocks tail) {comp = comp} {out = o} d b refl in
        let n = room (length out) in
        let p = positive (length out) in
        let some_out = d.some_out in
        let l = length-append (drop n o) (contents blocks) in
        let m = length-append o (contents blocks) in
        let k = length-drop n o in
        let ih =
          read_all-before fuel blocks tail (drop n o) (produced + length o) dst' (out ++ take n o)
            ds e (record { made = inr made }) (omega arith) (omega arith) in
        (ap
            (λ t.
              after_read uncompress out (λ l' out'. read_all uncompress room fuel l' out')
                (delivered uncompress n t))
            r
          ∙ ih
          ∙ ap (λ t. some (ok t)) (split_again n out o (contents blocks)))

    -- A stream of one block or more, each of at most 16 MiB that decode to at most 64 MiB and to one
    -- byte or more, is read back whole, with no error, into buffers of any lengths but none, where
    -- nothing stands behind it or four bytes that cannot be a block's length do. The reads end: as
    -- many as there are bytes, and one more, are enough.
    pub read_all-stream :
        (fuel : ℕ) (blocks : List (List ℕ × List ℕ)) (tail : List ℕ)
        → AllDecode blocks
        → 0 < length blocks
        → Ends tail
        → length (contents blocks) < fuel
        → read_all uncompress room fuel (opened (stream blocks tail)) []
          ≡ some (ok (contents blocks))
    read_all-stream fuel blocks tail d s e h =
        read_all-before fuel blocks tail [] 0 0 [] d e (record { made = inl refl }) (omega arith) h
