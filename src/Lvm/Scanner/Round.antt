-- ===== src/Lvm/Scanner/Round.antt =====
-- lvm2/lvm2.go: what the scanner makes of quoted strings and of blocks.
use udf.Prelude.{
  ℕ, ◌+◌, ◌-◌, ◌<◌, ◌≡◌, refl, ap, ◌∙◌, Bool-cases, true, false, ◌||◌, inl, inr, some, List, [],
  ◌∷◌, ◌++◌, append_assoc, ◌==◌, if◌then◌else◌, arith,
}
use udf.Lvm.Scanner.{
  hash, quote, backslash, open_brace, close_brace, skip_from, space, read_quoted, value_at,
  read_value, skip_block,
}

-- A string in quotes, with a backslash before each quote and each backslash.
abbrev pub quoted_rest : List ℕ → List ℕ
quoted_rest [] = quote ∷ []
quoted_rest (c ∷ cs) =
    if c == quote || c == backslash then backslash ∷ c ∷ quoted_rest cs else c ∷ quoted_rest cs

read_quoted-quoted_rest : (v rest : List ℕ) → read_quoted false (quoted_rest v ++ rest) ≡ (v, rest)
unfolding read_quoted
read_quoted-quoted_rest [] rest = refl
read_quoted-quoted_rest (c ∷ cs) rest =
    let ih = read_quoted-quoted_rest cs rest in
    elim (Bool-cases (c == quote || c == backslash)) [
      | inl escape ↦ rw (escape, ih)
      | inr plain ↦
          let a : (c == backslash) ≡ false = ground arith in
          let b : (c == quote) ≡ false = ground arith in rw (plain, a, b, ih)
    ]

abbrev pub AllSpace : List ℕ → Type 0
AllSpace [] = Unit
AllSpace (c ∷ cs) = (space c ≡ true) × AllSpace cs

skip_blanks :
    (blanks rest : List ℕ)
    → AllSpace blanks
    → skip_from false (blanks ++ quote ∷ rest) ≡ quote ∷ rest
unfolding skip_from
skip_blanks [] rest h = refl
skip_blanks (c ∷ cs) rest h =
    let s = h.0 in
    let not_hash : (c == hash) ≡ false = ground arith in rw (not_hash, s) (skip_blanks cs rest h.1)

-- `readValue` reads back any string that is written in quotes with its quotes and backslashes
-- escaped, behind any white space, and leaves the text behind the closing quote.
pub read_value-quoted :
    (blanks v rest : List ℕ)
    → AllSpace blanks
    → read_value (blanks ++ quote ∷ (quoted_rest v ++ rest)) ≡ (v, rest)
unfolding read_value value_at
read_value-quoted blanks v rest h =
    rw (skip_blanks blanks (quoted_rest v ++ rest) h) (read_quoted-quoted_rest v rest)

-- A text whose braces match, with no look at quotes or comments.
pub data Balanced : List ℕ → Type 0 where
  nothing : Balanced []
  byte :
      {c : ℕ} {cs : List ℕ}
      → (c == open_brace) ≡ false
      → (c == close_brace) ≡ false
      → Balanced cs
      → Balanced (c ∷ cs)
  block :
      {inner cs : List ℕ}
      → Balanced inner
      → Balanced cs
      → Balanced (open_brace ∷ (inner ++ close_brace ∷ cs))

skip_block-Balanced :
    (depth : ℕ) {text : List ℕ} (rest : List ℕ)
    → 0 < depth
    → Balanced text
    → skip_block depth (text ++ rest) ≡ skip_block depth rest
unfolding skip_block
skip_block-Balanced depth rest h nothing = refl
skip_block-Balanced depth rest h (byte {c} {cs} o e b) =
    rw (o, e) (skip_block-Balanced depth rest h b)
skip_block-Balanced depth rest h (block {inner} {cs} a b) =
    let ih = skip_block-Balanced (depth + 1) (close_brace ∷ (cs ++ rest)) (omega arith) a in
    let ih' = skip_block-Balanced depth rest h b in
    let deep : (depth + 1 == 1) ≡ false = ground arith in
    let back : depth + 1 - 1 ≡ depth = omega arith in
    ap (skip_block (depth + 1)) (append_assoc inner (close_brace ∷ cs) rest)
    ∙ ih
    ∙ rw (deep, back) ih'

-- `skipBlock` behind an opening brace skips a text whose braces match up to the closing brace, and
-- leaves what follows.
pub skip_block-closed :
    {text : List ℕ} (rest : List ℕ)
    → Balanced text
    → skip_block 1 (text ++ close_brace ∷ rest) ≡ some rest
unfolding skip_block
skip_block-closed rest b = skip_block-Balanced 1 (close_brace ∷ rest) (omega arith) b
