-- ===== src/Tests/Scanner.antt =====
-- lvm2/lvm2.go: a run of the parser, and witnesses for the scanner.
use udf.Prelude.{
  ltb, ◌-◌, replicate, get_or, if◌then◌else◌, ℕ, ◌≡◌, refl, List, [], ◌∷◌, ◌++◌, some, none, codes,
  bytes_eq, lt_int64,
}
use udf.Reader.{ReaderAt, Result}
use udf.Reader.Memory.{memory}
use udf.Lvm.{Vg}
use udf.Lvm.Group.{
  parse_metadata, new_vg, newest, open_vg, strip_nul, parse_text, parse_vg_body, set_vg,
}
use udf.Lvm.Parse.{trim_left, digits, parse_int}
use udf.Lvm.Group.Total.{open_vg_total}
use udf.Lvm.Group.Newest.{NoneNewer, Among, newest-NoneNewer}
use udf.Lvm.Scanner.{
  quote, close_brace, read_value, skip_block, skip_from, value_at, trim_space, consume,
  skip_inline_space, consume_with_space, read_ident, skip_to_line_end,
}
use udf.Lvm.Scanner.Round.{quoted_rest, Balanced, read_value-quoted, skip_block-closed}

-- `  "a\"b"` and a line behind it.
read_value-quoted_example :
    read_value (32 ∷ 9 ∷ quote ∷ (quoted_rest (97 ∷ 34 ∷ 98 ∷ []) ++ 10 ∷ []))
    ≡ (97 ∷ 34 ∷ 98 ∷ [], 10 ∷ [])
read_value-quoted_example =
    read_value-quoted (32 ∷ 9 ∷ []) (97 ∷ 34 ∷ 98 ∷ []) (10 ∷ []) (refl, (refl, tt))

-- A byte, and a block with a byte in it.
abbrev text : List ℕ
text = 97 ∷ 123 ∷ 98 ∷ 125 ∷ []

text-Balanced : Balanced text
text-Balanced =
    Balanced.byte refl refl
      (Balanced.block (Balanced.byte refl refl Balanced.nothing) Balanced.nothing)

skip_block-closed_example : skip_block 1 (text ++ close_brace ∷ 99 ∷ []) ≡ some (99 ∷ [])
skip_block-closed_example = skip_block-closed (99 ∷ []) text-Balanced

-- A label in the second sector, and a metadata text behind it that breaks off in a block.
abbrev labelled : ReaderAt
labelled = memory 1024 (λ i.
    if ltb i 512
    then 0
    else get_or
        (codes "LABELONE" ++ replicate 16 0 ++ codes "LVM2 001" ++ codes "vg { seqno = 7 pv0 {")
        (i - 512) 0)

open_vg_total_example : (r : Result Vg) × (open_vg labelled 0 ≡ some r)
open_vg_total_example = open_vg_total labelled 0

-- Two snapshots, the newer one first, and a text that does not parse.
abbrev texts : List (List ℕ)
texts = codes "v { seqno = 7 }" ∷ codes "v { seqno = 6 }" ∷ codes "v" ∷ []

abbrev seventh : Vg
seventh = record (new_vg (codes "v")) { seqno = 7 }

newest_run : newest none texts ≡ some (some seventh)
unfolding newest parse_metadata parse_text parse_vg_body set_vg strip_nul skip_from value_at
    read_value trim_space trim_left digits parse_int bytes_eq lt_int64 consume skip_inline_space
    consume_with_space read_ident skip_to_line_end
newest_run = refl

newest-NoneNewer_example : Among seventh texts × NoneNewer seventh texts
newest-NoneNewer_example = newest-NoneNewer texts seventh newest_run
