-- ===== src/Lvm/Parse/Steps.antt =====
-- lvm2/lvm2.go: one round of the loops of `parseSegmentBody` and its like, as a step on the text.
use udf.Prelude.{
  ℕ, ◌<◌, ◌≤◌, ◌≡◌, refl, Bool, Bool-cases, true, false, inl, inr, List, [], ◌∷◌, length, ◌==◌,
  arith,
}
use udf.Lvm.Scanner.{
  consume, skip_from, skip_inline_space, skip_to_line_end, consume_with_space, read_ident,
  is_ident_byte, space, open_brace, close_brace, newline,
}
use udf.Lvm.Scanner.Bounds.{
  skip_from-le, skip_from-cons, skip_inline_space-le, skip_to_line_end-le, read_ident-le,
  consume-le,
}
use udf.Lvm.Parse.{
  Start, ended, closed, keyed, Follows, block, value, neither, value_follows, block_follows,
  follows, start_key, start_at, start,
}

-- What stands behind a key leaves less than `n` bytes; a line that is passed over does so at its end.
abbrev pub Leaves : ℕ → Follows → Type 0
Leaves n (block s) = length s < n
Leaves n (value s) = length s < n
Leaves n (neither s) = length (skip_to_line_end s) < n

abbrev pub Shrinks : ℕ → Start → Type 0
Shrinks n ended = Unit
Shrinks n (closed s) = length s < n
Shrinks n (keyed key f) = Leaves n f

value_follows-Leaves : (n : ℕ) (r : Bool × List ℕ) → length r.1 < n → Leaves n (value_follows r)
value_follows-Leaves n (true, s) h = h
value_follows-Leaves n (false, s) h = omega (arith, skip_to_line_end-le s)

block_follows-Leaves : (n : ℕ) (r : Bool × List ℕ) → length r.1 < n → Leaves n (block_follows r)
unfolding consume_with_space
block_follows-Leaves n (true, s) h = h
block_follows-Leaves n (false, s) h =
    value_follows-Leaves n (consume 61 (skip_inline_space s))
      (omega (arith, consume-le 61 (skip_inline_space s), skip_inline_space-le s))

follows-Leaves : (n : ℕ) (s : List ℕ) → length s < n → Leaves n (follows s)
unfolding consume_with_space
follows-Leaves n s h =
    block_follows-Leaves n (consume open_brace (skip_inline_space s))
      (omega (arith, consume-le open_brace (skip_inline_space s), skip_inline_space-le s))

-- A byte that ends a key at once opens a block or a value, or is a NUL.
stop-Leaves :
    (c : ℕ) (cs : List ℕ)
    → space c ≡ false
    → is_ident_byte c ≡ false
    → (c == close_brace) ≡ false
    → Leaves (length (c ∷ cs)) (follows (c ∷ cs))
unfolding consume_with_space consume skip_inline_space skip_to_line_end
stop-Leaves c cs s i h =
    let a : (c == 32) ≡ false = ground arith in
    let b : (c == 9) ≡ false = ground arith in
    elim (Bool-cases (c == open_brace)) [
      | inl opens ↦ rw (a, b, opens) (omega arith)
      | inr other ↦ elim (Bool-cases (c == 61)) [
        | inl sign ↦ rw (a, b, other, a, b, sign) (omega arith)
        | inr neither_one ↦
            let line : (c == newline) ≡ false = ground arith in
            rw (a, b, other, a, b, neither_one, line) (omega (arith, skip_to_line_end-le cs))
      ]
    ]

start_key-Shrinks :
    (c : ℕ) (cs : List ℕ)
    → space c ≡ false
    → (c == close_brace) ≡ false
    → Shrinks (length (c ∷ cs)) (start_key (read_ident (c ∷ cs)))
unfolding read_ident
start_key-Shrinks c cs s h = elim (Bool-cases (is_ident_byte c)) [
  | inl word ↦
      rw word (follows-Leaves (length (c ∷ cs)) (read_ident cs).1 (omega (arith, read_ident-le cs)))
  | inr stop ↦ rw stop (stop-Leaves c cs s stop h)
]

start_at-Shrinks : (s t : List ℕ) → skip_from false t ≡ s → Shrinks (length s) (start_at s)
start_at-Shrinks [] t e = tt
start_at-Shrinks (c ∷ cs) t e = elim (Bool-cases (c == close_brace)) [
  | inl closes ↦ rw closes (omega arith)
  | inr other ↦
      let (word, plain) = skip_from-cons false t {c = c} {cs = cs} e in
      rw other (start_key-Shrinks c cs word other)
]

Leaves-mono : (m n : ℕ) (f : Follows) → m ≤ n → Leaves m f → Leaves n f
Leaves-mono m n (block s) h l = omega arith
Leaves-mono m n (value s) h l = omega arith
Leaves-mono m n (neither s) h l = omega arith

Shrinks-mono : (m n : ℕ) (st : Start) → m ≤ n → Shrinks m st → Shrinks n st
Shrinks-mono m n ended h l = tt
Shrinks-mono m n (closed s) h l = omega arith
Shrinks-mono m n (keyed key f) h l = Leaves-mono m n f h l

pub start-Shrinks : (s : List ℕ) → Shrinks (length s) (start s)
start-Shrinks s =
    Shrinks-mono (length (skip_from false s)) (length s) (start s) (skip_from-le false s)
      (start_at-Shrinks (skip_from false s) s refl)

-- The cases of what stands next, with what each leaves.
pub data Next (n : ℕ) (st : Start) : Type 0 where
  at_end : st ≡ ended → Next n st
  at_close : (s : List ℕ) → st ≡ closed s → length s < n → Next n st
  at_block : (key s : List ℕ) → st ≡ keyed key (block s) → length s < n → Next n st
  at_value : (key s : List ℕ) → st ≡ keyed key (value s) → length s < n → Next n st
  at_neither :
      (key s : List ℕ) → st ≡ keyed key (neither s) → length (skip_to_line_end s) < n → Next n st

next_of : (n : ℕ) (st : Start) → Shrinks n st → Next n st
next_of n ended h = at_end refl
next_of n (closed s) h = at_close s refl h
next_of n (keyed key (block s)) h = at_block key s refl h
next_of n (keyed key (value s)) h = at_value key s refl h
next_of n (keyed key (neither s)) h = at_neither key s refl h

pub next : (s : List ℕ) → Next (length s) (start s)
next s = next_of (length s) (start s) (start-Shrinks s)
