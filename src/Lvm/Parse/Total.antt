-- ===== src/Lvm/Parse/Total.antt =====
-- lvm2/lvm2.go: the loops of the parser of a volume, and the fuel that they take.
use udf.Prelude.{
  ℕ, zero, suc, ◌<◌, ◌≤◌, ◌≡◌, refl, inl, inr, Option, none, some, Option-cases, List, [], ◌∷◌,
  ◌++◌, length, arith,
}
use udf.Lvm.{Vg, Segment}
use udf.Lvm.Scanner.{read_value, skip_block, skip_to_line_end}
use udf.Lvm.Scanner.Bounds.{read_value-le, skip_block-lt}
use udf.Lvm.Parse.{after_block, no_segment, set_segment, parse_segment_body, parse_lv_body}
use udf.Lvm.Parse.Steps.{next, at_end, at_close, at_block, at_value, at_neither}

module _ {A : Type 0} where
  -- A result, with no more than `n` bytes left.
  abbrev pub Within : ℕ → Option (A × List ℕ) → Type 0
  Within n none = ⊥
  Within n (some (a, s)) = length s ≤ n

  Within-mono : (m n : ℕ) (r : Option (A × List ℕ)) → m ≤ n → Within m r → Within n r
  Within-mono m n none h w = w
  Within-mono m n (some (a, s)) h w = omega arith

after_block-le : (s : List ℕ) → length (after_block (skip_block 1 s)) ≤ length s
after_block-le s = elim (Option-cases (skip_block 1 s)) [
  | inl open_ ↦ rw open_ (omega arith)
  | inr (rest, closes) ↦ rw closes (omega (arith, skip_block-lt 1 s {rest = rest} closes))
]

pub parse_segment_body-Within :
    (fuel : ℕ) (seg : Segment) (s : List ℕ)
    → length s < fuel
    → Within (length s) (parse_segment_body fuel seg s)
unfolding parse_segment_body
parse_segment_body-Within zero seg s h = absurd (omega arith)
parse_segment_body-Within (suc fuel) seg s h = elim (next s) [
  | at_end e ↦ rw (e, parse_segment_body) (omega arith)
  | at_close t e l ↦ rw (e, parse_segment_body) (omega arith)
  | at_block key t e l ↦
      let u = after_block (skip_block 1 t) in
      let b = after_block-le t in
      rw (e, parse_segment_body)
        (Within-mono (length u) (length s) _ (omega arith)
          (parse_segment_body-Within fuel seg u (omega arith)))
  | at_value key t e l ↦
      let u = (read_value t).1 in
      let b = read_value-le t in
      rw (e, parse_segment_body)
        (Within-mono (length u) (length s) _ (omega arith)
          (parse_segment_body-Within fuel (set_segment key (read_value t).0 seg) u (omega arith)))
  | at_neither key t e l ↦
      let u = skip_to_line_end t in
      rw (e, parse_segment_body)
        (Within-mono (length u) (length s) _ (omega arith)
          (parse_segment_body-Within fuel seg u (omega arith)))
]

-- A value of the type, for the case split.
module _ {A : Type 0} where
  pub Within-cases :
      (n : ℕ) (r : Option (A × List ℕ))
      → Within n r
      → (a : A) × (s : List ℕ) × (r ≡ some (a, s)) × (length s ≤ n)
  Within-cases n none w = absurd w
  Within-cases n (some (a, s)) w = (a, s, refl, w)

pub parse_lv_body-Within :
    (fuel : ℕ) (vg : Vg) (name : List ℕ) (segs : List Segment) (s : List ℕ)
    → length s < fuel
    → Within (length s) (parse_lv_body fuel vg name segs s)
unfolding parse_lv_body
parse_lv_body-Within zero vg name segs s h = absurd (omega arith)
parse_lv_body-Within (suc fuel) vg name segs s h = elim (next s) [
  | at_end e ↦ rw (e, parse_lv_body) (omega arith)
  | at_close t e l ↦ rw (e, parse_lv_body) (omega arith)
  | at_block key t e l ↦
      let (seg, u, r, b) =
        Within-cases (length t) (parse_segment_body fuel no_segment t)
          (parse_segment_body-Within fuel no_segment t (omega arith)) in
      rw (e, parse_lv_body, r)
        (Within-mono (length u) (length s) _ (omega arith)
          (parse_lv_body-Within fuel vg name (segs ++ seg ∷ []) u (omega arith)))
  | at_value key t e l ↦
      let u = (read_value t).1 in
      let b = read_value-le t in
      rw (e, parse_lv_body)
        (Within-mono (length u) (length s) _ (omega arith)
          (parse_lv_body-Within fuel vg name segs u (omega arith)))
  | at_neither key t e l ↦
      let u = skip_to_line_end t in
      rw (e, parse_lv_body)
        (Within-mono (length u) (length s) _ (omega arith)
          (parse_lv_body-Within fuel vg name segs u (omega arith)))
]
