-- ===== src/Lz4.antt =====
-- image/archive/lz4legacy.go: the reader of LZ4's legacy frames, over a decoder of single blocks.
pub mod Blocks
pub mod Round
use udf.Prelude.{
  ℕ, zero, suc, ◌+◌, ◌*◌, ◌^◌, Bool, true, false, ◌||◌, ◌&&◌, Option, none, some, List, [], ◌∷◌,
  ◌++◌, length, take, drop, ltb, leb, ◌==◌, if◌then◌else◌, le32, bytes_eq,
}
use udf.Reader.{Error, eof, unexpected_eof, invalid, malformed, Result, ok, err, read_full}

abbrev pub legacy_magic : List ℕ
legacy_magic = 2 ∷ 33 ∷ 76 ∷ 24 ∷ []

abbrev pub max_blk : ℕ
max_blk = 8 * 2 ^ 20

abbrev pub max_in : ℕ
max_in = 16 * 2 ^ 20

abbrev pub max_out : ℕ
max_out = 64 * 2 ^ 20

unfoldable pub is_legacy_lz4 : List ℕ → Bool
is_legacy_lz4 b = leb 4 (length b) && bytes_eq (take 4 b) legacy_magic

-- `block` is `l.block[l.pos:]`, and `dst` the length of the buffer, 0 before it is made. `src` is
-- what is left of the source.
pub record State : Type 0 where
  pub src : List ℕ
  pub block : List ℕ
  pub done : Bool
  pub produced : ℕ
  pub dst : ℕ

abbrev pub opened : List ℕ → State
opened src = record { src = src; block = []; done = false; produced = 0; dst = 0 }

-- `uncompress comp n` stands for `lz4.UncompressBlock` into `n` bytes: what it writes.
module _ (uncompress : List ℕ → ℕ → Result (List ℕ)) where
  -- The loop that doubles the buffer, behind a first try that failed with `e`.
  unfoldable pub grow : ℕ → List ℕ → ℕ → Error → ℕ × Result (List ℕ)
  grow zero comp dst e = (dst, err e)
  grow (suc fuel) comp dst e = elim (ltb dst max_out) [
    | false ↦ (dst, err e)
    | true ↦ elim (uncompress comp (dst * 2)) [
      | ok out ↦ (dst * 2, ok out)
      | err e' ↦ grow fuel comp (dst * 2) e'
    ]
  ]

  abbrev pub first_try : ℕ → List ℕ → Result (List ℕ) → ℕ × Result (List ℕ)
  first_try dst comp (ok out) = (dst, ok out)
  first_try dst comp (err e) = grow 3 comp dst e

  unfoldable pub decode : List ℕ → ℕ → ℕ × Result (List ℕ)
  decode comp dst =
      let n = if dst == 0 then max_blk else dst in first_try n comp (uncompress comp n)

  -- The end of `next`: an empty block is an error.
  abbrev pub decoded : State → ℕ × Result (List ℕ) → State × Option Error
  decoded l (dst, err e) = (record l { dst = dst }, some e)
  decoded l (dst, ok []) = (record l { dst = dst }, some malformed)
  decoded l (dst, ok (c ∷ out)) =
      (record l { dst = dst; block = c ∷ out; produced = l.produced + length (c ∷ out) }, none)

  abbrev pub with_comp : State → Result (List ℕ × List ℕ) → State × Option Error
  with_comp l (err e) = (l, some unexpected_eof)
  with_comp l (ok (comp, rest)) = decoded (record l { src = rest }) (decode comp l.dst)

  abbrev pub with_hdr : State → Result (List ℕ × List ℕ) → State × Option Error
  with_hdr l (err eof) = (record l { done = true }, some eof)
  with_hdr l (err e) = (l, some unexpected_eof)
  with_hdr l (ok (hdr, rest)) =
      let size = le32 hdr 0 in
      if size == 0 || ltb max_in size
      then (if ltb 0 l.produced
          then (record l { src = rest; done = true }, some eof)
          else (record l { src = rest }, some invalid))
      else with_comp (record l { src = rest }) (read_full size rest)

  -- `next`
  unfoldable pub next : State → State × Option Error
  next l = with_hdr l (read_full 4 l.src)

  abbrev pub deliver : State → ℕ → State × List ℕ × Option Error
  deliver l n = (record l { block = drop n l.block }, take n l.block, none)

  abbrev pub delivered : ℕ → State × Option Error → State × List ℕ × Option Error
  delivered n (l, some e) = (l, [], some e)
  delivered n (l, none) = deliver l n

  -- `Read` into `n` bytes. A block that `next` decodes is not empty, so its loop has one round.
  unfoldable pub read : State → ℕ → State × List ℕ × Option Error
  read l n = elim l.block [
    | c ∷ block ↦ deliver l n
    | [] ↦ if l.done then (l, [], some eof) else delivered n (next l)
  ]

  -- `io.ReadAll`, which reads into `room` bytes at a time, as many as it has room for behind what it
  -- has read. `none` means that the fuel ran out.
  abbrev pub all_read : List ℕ → Error → Option (Result (List ℕ))
  all_read out eof = some (ok out)
  all_read out e = some (err e)

  abbrev pub after_read :
      List ℕ
      → (State → List ℕ → Option (Result (List ℕ)))
      → State × List ℕ × Option Error
      → Option (Result (List ℕ))
  after_read out rest (l, part, some e) = all_read (out ++ part) e
  after_read out rest (l, part, none) = rest l (out ++ part)

  unfoldable pub read_all : (ℕ → ℕ) → ℕ → State → List ℕ → Option (Result (List ℕ))
  read_all room zero l out = none
  read_all room (suc fuel) l out =
      after_read out (λ l' out'. read_all room fuel l' out') (read l (room (length out)))
