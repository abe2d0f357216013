-- ===== src/Lvm/Parse.antt =====
-- lvm2/lvm2.go: the numbers and the stripes of the metadata text, and its blocks. A parser's state
-- is what is left of the text. Its loops run on fuel, and `none` means that the fuel ran out.
pub mod Steps
pub mod Total
use udf.Prelude.{
  ℕ, zero, suc, ◌+◌, ◌-◌, ◌*◌, ◌%◌, ◌^◌, Bool, true, false, not, ◌||◌, ◌&&◌, Option, none, some,
  List, [], ◌∷◌, ◌++◌, ltb, leb, ◌==◌, if◌then◌else◌, ℤ, pos, negsuc, bytes_eq, codes,
}
use udf.Lvm.{Vg, LogicalVolume, Segment, build_logical_volume}
use udf.Lvm.Scanner.{
  open_brace, close_brace, open_bracket, close_bracket, quote, newline, consume_with_space,
  skip_space_and_comments, skip_to_line_end, read_ident, read_value, skip_block, trim_space,
}

abbrev pub sector_size : ℕ
sector_size = 512

-- `strings.TrimSpace` of an ASCII text.
unfoldable pub trim_left : List ℕ → List ℕ
trim_left [] = []
trim_left (c ∷ cs) = if c == 32 || (leb 9 c && leb c 13) then trim_left cs else c ∷ cs

abbrev pub trim : List ℕ → List ℕ
trim s = trim_space (trim_left s)

-- The digits of `strconv.ParseInt(s, 10, 64)`: a number, or one that no uint64 holds (`over`), or
-- none.
pub data Digits : Type 0 where
  number : ℕ → Digits
  over : Digits
  bad : Digits

unfoldable pub digits : ℕ → List ℕ → Digits
digits n [] = number n
digits n (c ∷ cs) =
    let more = digits (n * 10 + (c - 48)) cs in
    if leb 48 c && leb c 57 then (if leb (2 ^ 64) (n * 10 + (c - 48)) then over else more) else bad

abbrev pub some_digits : List ℕ → Digits
some_digits [] = bad
some_digits (c ∷ cs) = digits 0 (c ∷ cs)

-- The value's bit pattern, and whether there was no error. A number out of range is cut off.
abbrev pub signed : Bool → Digits → ℕ × Bool
signed negative bad = (0, false)
signed negative over = (if negative then 2 ^ 63 else 2 ^ 63 - 1, false)
signed true (number n) = if ltb (2 ^ 63) n then (2 ^ 63, false) else ((2 ^ 64 - n) % 2 ^ 64, true)
signed false (number n) = if leb (2 ^ 63) n then (2 ^ 63 - 1, false) else (n, true)

unfoldable pub parse_int : List ℕ → ℕ × Bool
parse_int [] = (0, false)
parse_int (c ∷ cs) =
    if c == 45
    then signed true (some_digits cs)
    else if c == 43
    then signed false (some_digits cs)
    else signed false (digits 0 (c ∷ cs))

-- `parseInt64`, which drops the error.
abbrev pub parse_int64 : List ℕ → ℕ
parse_int64 s = (parse_int (trim s)).0

-- `strings.FieldsFunc` on the separators of a list.
abbrev pub separator : ℕ → Bool
separator c = c == 44 || c == 32 || c == 9 || c == newline || c == quote

abbrev pub flush : List ℕ → List (List ℕ) → List (List ℕ)
flush [] fields = fields
flush (c ∷ cs) fields = (c ∷ cs) ∷ fields

pub fields_from : List ℕ → List ℕ → List (List ℕ)
fields_from word [] = flush word []
fields_from word (c ∷ cs) =
    let next = fields_from [] cs in
    let on = fields_from (word ++ c ∷ []) cs in if separator c then flush word next else on

abbrev pub trim_prefix : ℕ → List ℕ → List ℕ
trim_prefix b [] = []
trim_prefix b (c ∷ cs) = if c == b then cs else c ∷ cs

pub trim_suffix : ℕ → List ℕ → List ℕ
trim_suffix b [] = []
trim_suffix b (c ∷ []) = if c == b then [] else c ∷ []
trim_suffix b (c ∷ (d ∷ ds)) = c ∷ trim_suffix b (d ∷ ds)

-- `parseStripes`: the index and the offset, or `none` for an error.
abbrev pub stripe : List (List ℕ) → Option (ℤ × ℕ)
stripe [] = none
stripe (pv ∷ []) = none
stripe (pv ∷ (offset ∷ rest)) =
    if not (bytes_eq pv (codes "pv0"))
    then some (negsuc 0, 0)
    else if (parse_int offset).1
    then some (pos 0, (parse_int offset).0)
    else none

pub parse_stripes : List ℕ → Option (ℤ × ℕ)
parse_stripes val =
    stripe (fields_from [] (trim_suffix close_bracket (trim_prefix open_bracket (trim val))))

-- The `switch` on a key of a segment.
abbrev pub with_stripes : Option (ℤ × ℕ) → Segment → Segment
with_stripes none seg = record seg { pv_index = negsuc 0 }
with_stripes (some (pv, off)) seg = record seg { pv_index = pv; stripe_offset = off }

pub set_segment : List ℕ → List ℕ → Segment → Segment
set_segment key val seg =
    if bytes_eq key (codes "extent_count")
    then record seg { extent_count = parse_int64 val }
    else if bytes_eq key (codes "stripe_count")
    then record seg { stripe_count = parse_int64 val }
    else if bytes_eq key (codes "stripes")
    then with_stripes (parse_stripes val) seg
    else seg

-- Where an unterminated block leaves the scanner, if its error is dropped.
abbrev pub after_block : Option (List ℕ) → List ℕ
after_block none = []
after_block (some s) = s

abbrev pub no_segment : Segment
no_segment = record { stripe_offset = 0; extent_count = 0; stripe_count = 0; pv_index = pos 0 }

-- What follows a key: a block, a value, or neither. The state is behind the brace or the sign.
pub data Follows : Type 0 where
  block : List ℕ → Follows
  value : List ℕ → Follows
  neither : List ℕ → Follows

abbrev pub value_follows : Bool × List ℕ → Follows
value_follows (true, s) = value s
value_follows (false, s) = neither s

abbrev pub block_follows : Bool × List ℕ → Follows
block_follows (true, s) = block s
block_follows (false, s) = value_follows (consume_with_space 61 s)

abbrev pub follows : List ℕ → Follows
follows s = block_follows (consume_with_space open_brace s)

-- What stands behind white space: the end of the text, a closing brace, or a key.
pub data Start : Type 0 where
  ended : Start
  closed : List ℕ → Start
  keyed : List ℕ → Follows → Start

abbrev pub start_key : List ℕ × List ℕ → Start
start_key (key, s) = keyed key (follows s)

abbrev pub start_at : List ℕ → Start
start_at [] = ended
start_at (c ∷ cs) = if c == close_brace then closed cs else start_key (read_ident (c ∷ cs))

abbrev pub start : List ℕ → Start
start s = start_at (skip_space_and_comments s)

-- `parseSegmentBody`
pub parse_segment_body : ℕ → Segment → List ℕ → Option (Segment × List ℕ)
parse_segment_body zero seg s = none
parse_segment_body (suc fuel) seg s = elim (start s) [
  | ended ↦ some (seg, [])
  | closed s ↦ some (seg, s)
  | keyed key (block s) ↦ parse_segment_body fuel seg (after_block (skip_block 1 s))
  | keyed key (value s) ↦
      parse_segment_body fuel (set_segment key (read_value s).0 seg) (read_value s).1
  | keyed key (neither s) ↦ parse_segment_body fuel seg (skip_to_line_end s)
]

-- `parseLVBody`
pub parse_lv_body : ℕ → Vg → List ℕ → List Segment → List ℕ → Option (LogicalVolume × List ℕ)
parse_lv_body zero vg name segs s = none
parse_lv_body (suc fuel) vg name segs s = elim (start s) [
  | ended ↦ some (build_logical_volume vg name segs, [])
  | closed s ↦ some (build_logical_volume vg name segs, s)
  | keyed key (block s) ↦ elim (parse_segment_body fuel no_segment s) [
    | none ↦ none
    | some (seg, s) ↦ parse_lv_body fuel vg name (segs ++ seg ∷ []) s
  ]
  | keyed key (value s) ↦ parse_lv_body fuel vg name segs (read_value s).1
  | keyed key (neither s) ↦ parse_lv_body fuel vg name segs (skip_to_line_end s)
]
