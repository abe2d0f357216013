-- ===== src/Reader/Chunks.antt =====
-- The shape that the block-mapped disks share: `ReadAt` clips `p` to the disk, and a loop serves
-- one block's worth at a time until `p` is used up.
pub mod Total
use udf.Prelude.{
  ℕ, zero, suc, ◌+◌, ◌-◌, Bool, true, Option, none, some, List, [], ◌∷◌, ◌++◌, length, take, drop,
  ℤ, pos, negsuc, leb, ◌==◌, if◌then◌else◌,
}
use mathlib.Core.Option
use udf.Reader.{Error, eof, negative_offset, Read}

-- `return 0, err`, with `p` untouched.
abbrev pub failed : Error → List ℕ → Read
failed e p = record { buf = p; n = 0; fault = some e }

-- `off >= size` and `size - off`, for an offset that is not negative.
abbrev pub past_end : ℤ → ℕ → Bool
past_end (pos size) off = leb size off
past_end (negsuc _) off = true

abbrev pub room : ℤ → ℕ → ℕ
room (pos size) off = size - off
room (negsuc _) off = 0

-- The end of `ReadAt`: an error of the loop, `io.EOF` where nothing was read, or nil.
abbrev pub outcome : Option Error → ℕ → Option Error
outcome (some e) total = some e
outcome none total = if total == 0 then some eof else none

module _ {S : Type 0} where
  -- The chunk `b` stands before what the later rounds leave.
  abbrev pub prefixed : List ℕ → Option (S × Read) → Option (S × Read)
  prefixed b none = none
  prefixed b (some (s, r)) = some (s, record r { buf = b ++ r.buf })

  -- The end of a round: on an error the later bytes of `p` stay as they were.
  abbrev pub settle : Option Error → S → List ℕ → List ℕ → ℕ → Option (S × Read) → Option (S × Read)
  settle (some e) s b tail total rest =
      some (s, record { buf = b ++ tail; n = total; fault = some e })
  settle none s b tail total rest = prefixed b rest

  -- The bytes of `p` past the clipped part stay as they were.
  abbrev pub finish : List ℕ → Option (S × Read) → Option (S × Read)
  finish tail none = none
  finish tail (some (s, r)) =
      some (s, record { buf = r.buf ++ tail; n = r.n; fault = outcome r.fault r.n })

-- `chunk_size off (len(p))` is the `n` of a round; `fill` is given `p[:n]`, and returns what it
-- leaves there and its error. A reader that caches has a state.
module _ {S : Type 0} (chunk_size : ℕ → ℕ → ℕ)
    (fill : S → ℕ → List ℕ → S × List ℕ × Option Error) where
  -- `for len(p) > 0 { … }`. `none` means that the fuel ran out.
  pub loop : ℕ → S → ℕ → ℕ → List ℕ → Option (S × Read)
  loop zero s off total p = none
  loop (suc fuel) s off total [] = some (s, record { buf = []; n = total; fault = none })
  loop (suc fuel) s off total (x ∷ xs) =
      let p = x ∷ xs in
      let k = chunk_size off (length p) in
      let (s', b, fault) = fill s off (take k p) in
      let rest = loop fuel s' (off + k) (total + k) (drop k p) in
      settle fault s' b (drop k p) total rest

  unfoldable pub read_at : ℤ → S → List ℕ → ℤ → Option (S × Read)
  unfolding loop
  read_at size s p (negsuc _) = some (s, failed negative_offset p)
  read_at size s p (pos off) =
      if past_end size off
      then some (s, failed eof p)
      else let q = take (room size off) p in
        finish (drop (room size off) p) (loop (suc (length q)) s off 0 q)

-- A reader with no cache.
module _ (chunk_size : ℕ → ℕ → ℕ) (fill : ℕ → List ℕ → List ℕ × Option Error) where
  abbrev pub stateless : Unit {0} → ℕ → List ℕ → Unit {0} × List ℕ × Option Error
  stateless s off q = let (b, fault) = fill off q in (s, b, fault)

  unfoldable pub read : ℤ → List ℕ → ℤ → Option Read
  unfolding read_at
  read size p off = Option.map (λ r. r.1) (read_at chunk_size stateless size tt p off)
