-- ===== src/Tests/Lz4.antt =====
-- image/archive/lz4legacy.go: a run, and a witness.
use udf.Prelude.{
  ℕ, ◌≤◌, ◌<◌, ◌≡◌, refl, List, [], ◌∷◌, length, some, inr, arith, leb, if◌then◌else◌, codes, le32,
}
use udf.Reader.{Result, ok, err, invalid, unexpected_eof, read_full}
use udf.Lz4.{opened, next, read, read_all}
use udf.Lz4.Blocks.{Decodes}
use udf.Lz4.Round.{stream, AllDecode, no_blocks, add_block, read_all-stream}

-- A decoder that copies, where there is room.
abbrev uncompress : List ℕ → ℕ → Result (List ℕ)
uncompress comp n = if leb (length comp) n then ok comp else err invalid

copies : (comp : List ℕ) → 0 < length comp → length comp ≤ 100 → Decodes uncompress comp comp
copies comp h l = record {
  some_in = h;
  few_in = omega arith;
  some_out = h;
  few_out = omega arith;
  fits = λ n k. ground arith;
  small = λ n k. (invalid, ground arith);
}

abbrev blocks : List (List ℕ × List ℕ)
blocks = (codes "first", codes "first") ∷ (codes " one", codes " one") ∷ []

blocks-AllDecode : AllDecode uncompress blocks
blocks-AllDecode =
    add_block (copies (codes "first") (omega arith) (omega arith))
      (add_block (copies (codes " one") (omega arith) (omega arith)) no_blocks)

-- A boot configuration stands behind the blocks; reads of two bytes.
read_all-stream_example :
    read_all uncompress (λ n. 2) 10 (opened (stream blocks (codes "#BOOTCONFIG"))) []
    ≡ some (ok (codes "first one"))
unfolding le32
read_all-stream_example =
    read_all-stream uncompress (λ n. 2) (λ n. omega arith) 10 blocks (codes "#BOOTCONFIG")
      blocks-AllDecode (omega arith) (inr (omega arith, refl)) (omega arith)

-- A stream that breaks off in a block.
read_all_short :
    read_all uncompress (λ n. 2) 10 (opened (5 ∷ 0 ∷ 0 ∷ 0 ∷ 1 ∷ [])) [] ≡ some (err unexpected_eof)
unfolding read_all read next read_full le32
read_all_short = refl
