-- ===== src/Lvm/Scanner/Bounds.antt =====
-- lvm2/lvm2.go: how much of the text each function of the scanner leaves.
use udf.Prelude.{
  ℕ, ◌+◌, ◌-◌, ◌<◌, ◌≤◌, ◌≡◌, ap, sym, ◌∙◌, Bool, Bool-cases, true, false, inl, inr, some, List, [],
  ◌∷◌, length, ◌==◌, arith,
}
use udf.Lvm.Scanner.{
  consume, skip_from, skip_inline_space, skip_to_line_end, read_ident, is_ident_byte, read_quoted,
  read_list, value_at, read_value, skip_block, space, hash, newline,
}

pub skip_from-le : (comment : Bool) (s : List ℕ) → length (skip_from comment s) ≤ length s
unfolding skip_from
skip_from-le true [] = omega arith
skip_from-le false [] = omega arith
skip_from-le true (c ∷ cs) = ground (arith, skip_from-le true cs, skip_from-le false cs)
skip_from-le false (c ∷ cs) = ground (arith, skip_from-le true cs, skip_from-le false cs)

-- What `skipSpaceAndComments` stops at.
pub skip_from-cons :
    (comment : Bool) (s : List ℕ) {c : ℕ} {cs : List ℕ}
    → skip_from comment s ≡ c ∷ cs
    → (space c ≡ false) × ((c == hash) ≡ false)
unfolding skip_from
skip_from-cons true [] {c} {cs} e = cc
skip_from-cons false [] {c} {cs} e = cc
skip_from-cons true (x ∷ xs) {c} {cs} e = elim (Bool-cases (x == newline)) [
  | inl end ↦ skip_from-cons false xs {c = c} {cs = cs} (rw end at e)
  | inr more ↦ skip_from-cons true xs {c = c} {cs = cs} (rw more at e)
]
skip_from-cons false (x ∷ xs) {c} {cs} e = elim (Bool-cases (x == hash)) [
  | inl opens ↦ skip_from-cons true xs {c = c} {cs = cs} (rw opens at e)
  | inr plain ↦ elim (Bool-cases (space x)) [
    | inl blank ↦ skip_from-cons false xs {c = c} {cs = cs} (rw (plain, blank) at e)
    | inr word ↦
        let same : x ∷ xs ≡ c ∷ cs = rw (plain, word) at e in
        let head : x ≡ c = cc in
        (ap space (sym head) ∙ word, ap (λ y. y == hash) (sym head) ∙ plain)
  ]
]

pub skip_inline_space-le : (s : List ℕ) → length (skip_inline_space s) ≤ length s
unfolding skip_inline_space
skip_inline_space-le [] = omega arith
skip_inline_space-le (c ∷ cs) = ground (arith, skip_inline_space-le cs)

pub skip_to_line_end-le : (s : List ℕ) → length (skip_to_line_end s) ≤ length s
unfolding skip_to_line_end
skip_to_line_end-le [] = omega arith
skip_to_line_end-le (c ∷ cs) = ground (arith, skip_to_line_end-le cs)

pub read_ident-le : (s : List ℕ) → length (read_ident s).1 ≤ length s
unfolding read_ident
read_ident-le [] = omega arith
read_ident-le (c ∷ cs) = elim (Bool-cases (is_ident_byte c)) [
  | inl word ↦ rw word (omega (arith, read_ident-le cs))
  | inr other ↦ rw other (omega arith)
]

read_quoted-le : (escaped : Bool) (s : List ℕ) → length (read_quoted escaped s).1 ≤ length s
unfolding read_quoted
read_quoted-le true [] = omega arith
read_quoted-le false [] = omega arith
read_quoted-le true (c ∷ cs) = omega (arith, read_quoted-le false cs)
read_quoted-le false (c ∷ cs) = ground (arith, read_quoted-le true cs, read_quoted-le false cs)

read_list-le : (depth : ℕ) (s : List ℕ) → length (read_list depth s).1 ≤ length s
unfolding read_list
read_list-le depth [] = omega arith
read_list-le depth (c ∷ cs) =
    ground (arith, read_list-le (depth + 1) cs, read_list-le (depth - 1) cs, read_list-le depth cs)

value_at-le : (s : List ℕ) → length (value_at s).1 ≤ length s
unfolding value_at
value_at-le [] = omega arith
value_at-le (c ∷ cs) =
    ground (arith, read_quoted-le false cs, read_list-le 1 cs, read_ident-le (c ∷ cs))

pub read_value-le : (s : List ℕ) → length (read_value s).1 ≤ length s
unfolding read_value
read_value-le s = omega (arith, value_at-le (skip_from false s), skip_from-le false s)

pub skip_block-lt :
    (depth : ℕ) (s : List ℕ) {rest : List ℕ}
    → skip_block depth s ≡ some rest
    → length rest < length s
unfolding skip_block
skip_block-lt depth [] {rest} h = cc
skip_block-lt depth (c ∷ cs) {rest} h = ground (
  arith,
  skip_block-lt (depth + 1) cs {rest = rest},
  skip_block-lt (depth - 1) cs {rest = rest},
  skip_block-lt depth cs {rest = rest},
)

-- A byte that is consumed is gone, and otherwise nothing is.
pub consume-lt :
    (b : ℕ) (s : List ℕ) → 0 < b → (consume b s).0 ≡ true → length (consume b s).1 < length s
unfolding consume
consume-lt b [] h e = ground arith
consume-lt b (c ∷ cs) h e = ground arith

pub consume-le : (b : ℕ) (s : List ℕ) → length (consume b s).1 ≤ length s
unfolding consume
consume-le b [] = ground arith
consume-le b (c ∷ cs) = ground arith
