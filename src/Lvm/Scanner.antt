-- ===== src/Lvm/Scanner.antt =====
-- lvm2/lvm2.go: the scanner of the metadata text. Its state is what is left of the text,
-- `data[pos:]`; each function returns what it reads, if anything, and the new state.
pub mod Round
pub mod Bounds
use udf.Prelude.{
  ℕ, zero, suc, ◌+◌, ◌-◌, Bool, true, false, not, ◌||◌, ◌&&◌, Option, none, some, List, [], ◌∷◌,
  ◌++◌, ltb, leb, ◌==◌, if◌then◌else◌,
}

abbrev pub newline : ℕ
newline = 10

abbrev pub hash : ℕ
hash = 35

abbrev pub quote : ℕ
quote = 34

abbrev pub backslash : ℕ
backslash = 92

abbrev pub open_brace : ℕ
open_brace = 123

abbrev pub close_brace : ℕ
close_brace = 125

abbrev pub open_bracket : ℕ
open_bracket = 91

abbrev pub close_bracket : ℕ
close_bracket = 93

-- `peek`, which is 0 at the end of the text.
abbrev pub peek : List ℕ → ℕ
peek [] = 0
peek (c ∷ cs) = c

-- `advance`
abbrev pub advance : List ℕ → List ℕ
advance [] = []
advance (c ∷ cs) = cs

unfoldable pub consume : ℕ → List ℕ → Bool × List ℕ
consume b s = if peek s == b then (true, advance s) else (false, s)

-- A blank or a tab, and white space of any kind.
abbrev pub inline_space : ℕ → Bool
inline_space c = c == 32 || c == 9

abbrev pub space : ℕ → Bool
space c = c == 32 || c == 9 || c == newline || c == 13

-- `skipSpaceAndComments`, whose io.EOF is an empty rest. In a comment, the newline that ends
-- `skipToLineEnd` is skipped as white space next.
unfoldable pub skip_from : Bool → List ℕ → List ℕ
skip_from comment [] = []
skip_from true (c ∷ cs) = if c == newline then skip_from false cs else skip_from true cs
skip_from false (c ∷ cs) =
    if c == hash then skip_from true cs else if space c then skip_from false cs else c ∷ cs

abbrev pub skip_space_and_comments : List ℕ → List ℕ
skip_space_and_comments s = skip_from false s

unfoldable pub skip_inline_space : List ℕ → List ℕ
skip_inline_space [] = []
skip_inline_space (c ∷ cs) = if inline_space c then skip_inline_space cs else c ∷ cs

unfoldable pub skip_to_line_end : List ℕ → List ℕ
skip_to_line_end [] = []
skip_to_line_end (c ∷ cs) = if c == newline then c ∷ cs else skip_to_line_end cs

unfoldable pub consume_with_space : ℕ → List ℕ → Bool × List ℕ
consume_with_space b s = consume b (skip_inline_space s)

abbrev pub is_ident_byte : ℕ → Bool
is_ident_byte c = not (c == 0 || space c || c == 61 || c == open_brace || c == close_brace)

unfoldable pub read_ident : List ℕ → List ℕ × List ℕ
read_ident [] = ([], [])
read_ident (c ∷ cs) =
    let (word, rest) = read_ident cs in if is_ident_byte c then (c ∷ word, rest) else ([], c ∷ cs)

-- The quoted string behind its first quote; `escaped` says that the last byte was a backslash. A
-- backslash at the end of the text is a byte like any other.
pub read_quoted : Bool → List ℕ → List ℕ × List ℕ
read_quoted escaped [] = (if escaped then backslash ∷ [] else [], [])
read_quoted true (c ∷ cs) = let (word, rest) = read_quoted false cs in (c ∷ word, rest)
read_quoted false (c ∷ cs) =
    let (word, rest) = read_quoted false cs in
    let escape = read_quoted true cs in
    if c == backslash then escape else if c == quote then ([], cs) else (c ∷ word, rest)

-- The bytes of a list up to the bracket that closes it, `depth` deep.
pub read_list : ℕ → List ℕ → List ℕ × List ℕ
read_list depth [] = ([], [])
read_list depth (c ∷ cs) =
    let deeper = read_list (depth + 1) cs in
    let higher = read_list (depth - 1) cs in
    let same = read_list depth cs in
    if c == open_bracket
    then (c ∷ deeper.0, deeper.1)
    else if c == close_bracket
    then (if depth == 1 then (c ∷ [], cs) else (c ∷ higher.0, higher.1))
    else (c ∷ same.0, same.1)

-- `strings.TrimSpace` at the end of an ASCII text. A list starts with its bracket.
abbrev pub trimmed : ℕ → List ℕ → List ℕ
trimmed c [] = if c == 32 || (leb 9 c && leb c 13) then [] else c ∷ []
trimmed c (d ∷ ds) = c ∷ d ∷ ds

unfoldable pub trim_space : List ℕ → List ℕ
trim_space [] = []
trim_space (c ∷ cs) = trimmed c (trim_space cs)

-- `readValue` at a first byte.
unfoldable pub value_at : List ℕ → List ℕ × List ℕ
value_at [] = ([], [])
value_at (c ∷ cs) =
    let (items, rest) = read_list 1 cs in
    if c == quote
    then read_quoted false cs
    else if c == open_bracket
    then (trim_space (c ∷ items), rest)
    else read_ident (c ∷ cs)

unfoldable pub read_value : List ℕ → List ℕ × List ℕ
read_value s = value_at (skip_space_and_comments s)

-- `skipBlock` at a depth; `none` is the error of an unterminated block.
pub skip_block : ℕ → List ℕ → Option (List ℕ)
skip_block depth [] = none
skip_block depth (c ∷ cs) =
    let deeper = skip_block (depth + 1) cs in
    let higher = skip_block (depth - 1) cs in
    let same = skip_block depth cs in
    if c == open_brace
    then deeper
    else if c == close_brace
    then (if depth == 1 then some cs else higher)
    else same
