-- ===== src/Lvm/Group/Total.antt =====
-- lvm2/lvm2.go: the loops of `parseMetadata` and `Open`, and the fuel that they take.
use udf.Prelude.{
  ℕ, zero, suc, ◌<◌, ◌≤◌, ◌≡◌, refl, ◌⊎◌, Bool-cases, inl, inr, Option, none, some, Option-cases,
  List, [], ◌∷◌, ◌++◌, length, arith, bytes_eq, codes, int64, replicate,
}
use udf.Reader.{malformed, missing, not_lvm, Error, Result, ok, err, ReaderAt, Result-cases}
use udf.Lvm.{Vg}
use udf.Lvm.Scanner.{read_value, skip_block}
use udf.Lvm.Scanner.Bounds.{read_value-le, skip_block-lt}
use udf.Lvm.Parse.{parse_lv_body}
use udf.Lvm.Parse.Steps.{next, at_end, at_close, at_block, at_value, at_neither}
use udf.Lvm.Parse.Total.{Within-cases, parse_lv_body-Within}
use udf.Lvm.Group.{
  set_pv, parse_pv_body, first_pv, parse_pv, parse_physical_volumes, parse_logical_volumes,
  parse_block, set_vg, parse_vg_body, new_vg, parse_text, parse_metadata, find_all, strip_nul,
  check_label, newer, newest, window, opened, open_vg, text_marker, scan_size,
}

module _ {A : Type 0} where
  -- An error, or a result with no more than `n` bytes left.
  abbrev Ends : ℕ → Option (Result (A × List ℕ)) → Type 0
  Ends n none = ⊥
  Ends n (some (err e)) = Unit
  Ends n (some (ok (a, s))) = length s ≤ n

  Ends-mono : (m n : ℕ) (r : Option (Result (A × List ℕ))) → m ≤ n → Ends m r → Ends n r
  Ends-mono m n none h w = w
  Ends-mono m n (some (err e)) h w = tt
  Ends-mono m n (some (ok (a, s))) h w = omega arith

  Ends-cases :
      (n : ℕ) (r : Option (Result (A × List ℕ)))
      → Ends n r
      → ((e : Error) × (r ≡ some (err e)))
        ⊎ ((a : A) × (s : List ℕ) × (r ≡ some (ok (a, s))) × (length s ≤ n))
  Ends-cases n none w = absurd w
  Ends-cases n (some (err e)) w = inl (e, refl)
  Ends-cases n (some (ok (a, s))) w = inr (a, s, refl, w)

parse_pv_body-Ends :
    (fuel : ℕ) (pe : ℕ × ℕ) (s : List ℕ)
    → length s < fuel
    → Ends (length s) (parse_pv_body fuel pe s)
unfolding parse_pv_body
parse_pv_body-Ends zero pe s h = absurd (omega arith)
parse_pv_body-Ends (suc fuel) pe s h = elim (next s) [
  | at_end e ↦ rw (e, parse_pv_body) tt
  | at_close t e l ↦ rw (e, parse_pv_body) (omega arith)
  | at_block key t e l ↦ elim (Option-cases (skip_block 1 t)) [
    | inl open_ ↦ rw (e, parse_pv_body, open_) tt
    | inr (u, closes) ↦
        let b = skip_block-lt 1 t {rest = u} closes in
        rw (e, parse_pv_body, closes)
          (Ends-mono (length u) (length s) _ (omega arith)
            (parse_pv_body-Ends fuel pe u (omega arith)))
  ]
  | at_value key t e l ↦
      let u = (read_value t).1 in
      let b = read_value-le t in
      rw (e, parse_pv_body)
        (Ends-mono (length u) (length s) _ (omega arith)
          (parse_pv_body-Ends fuel (set_pv key (read_value t).0 pe) u (omega arith)))
  | at_neither key t e l ↦ rw (e, parse_pv_body) tt
]

parse_pv-Ends :
    (fuel : ℕ) (vg : Vg) (s : List ℕ) → length s < fuel → Ends (length s) (parse_pv fuel vg s)
unfolding parse_pv
parse_pv-Ends fuel vg s h = elim (Bool-cases (first_pv vg)) [
  | inl first ↦
      elim (Ends-cases (length s) (parse_pv_body fuel (0, 0) s)
        (parse_pv_body-Ends fuel (0, 0) s h)) [
          | inl (x, bad) ↦ rw (first, parse_pv, bad) tt
          | inr (pe, u, good, b) ↦ rw (first, parse_pv, good) b
        ]
  | inr other ↦ elim (Option-cases (skip_block 1 s)) [
    | inl open_ ↦ rw (other, parse_pv, open_) tt
    | inr (u, closes) ↦
        let b = skip_block-lt 1 s {rest = u} closes in rw (other, parse_pv, closes) (omega arith)
  ]
]

parse_physical_volumes-Ends :
    (fuel : ℕ) (vg : Vg) (s : List ℕ)
    → length s < fuel
    → Ends (length s) (parse_physical_volumes fuel vg s)
unfolding parse_physical_volumes
parse_physical_volumes-Ends zero vg s h = absurd (omega arith)
parse_physical_volumes-Ends (suc fuel) vg s h = elim (next s) [
  | at_end e ↦ rw (e, parse_physical_volumes) tt
  | at_close t e l ↦ rw (e, parse_physical_volumes) (omega arith)
  | at_block key t e l ↦
      elim (Ends-cases (length t) (parse_pv fuel vg t) (parse_pv-Ends fuel vg t (omega arith))) [
        | inl (x, bad) ↦ rw (e, parse_physical_volumes, bad) tt
        | inr (vg', u, good, b) ↦
            rw (e, parse_physical_volumes, good)
              (Ends-mono (length u) (length s) _ (omega arith)
                (parse_physical_volumes-Ends fuel vg' u (omega arith)))
      ]
  | at_value key t e l ↦ rw (e, parse_physical_volumes) tt
  | at_neither key t e l ↦ rw (e, parse_physical_volumes) tt
]

parse_logical_volumes-Ends :
    (fuel : ℕ) (vg : Vg) (s : List ℕ)
    → length s < fuel
    → Ends (length s) (parse_logical_volumes fuel vg s)
unfolding parse_logical_volumes
parse_logical_volumes-Ends zero vg s h = absurd (omega arith)
parse_logical_volumes-Ends (suc fuel) vg s h = elim (next s) [
  | at_end e ↦ rw (e, parse_logical_volumes) tt
  | at_close t e l ↦ rw (e, parse_logical_volumes) (omega arith)
  | at_block key t e l ↦
      let (lv, u, r, b) =
        Within-cases (length t) (parse_lv_body fuel vg key [] t)
          (parse_lv_body-Within fuel vg key [] t (omega arith)) in
      rw (e, parse_logical_volumes, r)
        (Ends-mono (length u) (length s) _ (omega arith) (
          parse_logical_volumes-Ends fuel (record vg { volumes = vg.volumes ++ lv ∷ [] }) u
            (omega arith)))
  | at_value key t e l ↦ rw (e, parse_logical_volumes) tt
  | at_neither key t e l ↦ rw (e, parse_logical_volumes) tt
]

parse_block-Ends :
    (fuel : ℕ) (key : List ℕ) (vg : Vg) (s : List ℕ)
    → length s < fuel
    → Ends (length s) (parse_block fuel key vg s)
unfolding parse_block
parse_block-Ends fuel key vg s h = elim (Bool-cases (bytes_eq key (codes "physical_volumes"))) [
  | inl pvs ↦ rw (pvs, parse_block) (parse_physical_volumes-Ends fuel vg s h)
  | inr other ↦ elim (Bool-cases (bytes_eq key (codes "logical_volumes"))) [
    | inl lvs ↦ rw (other, lvs, parse_block) (parse_logical_volumes-Ends fuel vg s h)
    | inr rest ↦ elim (Option-cases (skip_block 1 s)) [
      | inl open_ ↦ rw (other, rest, parse_block, open_) tt
      | inr (u, closes) ↦
          let b = skip_block-lt 1 s {rest = u} closes in
          rw (other, rest, parse_block, closes) (omega arith)
    ]
  ]
]

module _ {A : Type 0} where
  abbrev Returns : Option A → Type 0
  Returns r = (a : A) × (r ≡ some a)

parse_vg_body_total :
    (fuel : ℕ) (vg : Vg) (s : List ℕ) → length s < fuel → Returns (parse_vg_body fuel vg s)
unfolding parse_vg_body
parse_vg_body_total zero vg s h = absurd (omega arith)
parse_vg_body_total (suc fuel) vg s h = elim (next s) [
  | at_end e ↦ (err malformed, rw (e, parse_vg_body))
  | at_close t e l ↦ (ok vg, rw (e, parse_vg_body))
  | at_block key t e l ↦
      elim (Ends-cases (length t) (parse_block fuel key vg t)
        (parse_block-Ends fuel key vg t (omega arith))) [
          | inl (x, bad) ↦ (err x, rw (e, parse_vg_body, bad))
          | inr (vg', u, good, b) ↦
              let (r, ih) = parse_vg_body_total fuel vg' u (omega arith) in
              (r, rw (e, parse_vg_body, good) ih)
        ]
  | at_value key t e l ↦
      let b = read_value-le t in
      let (r, ih) =
        parse_vg_body_total fuel (set_vg key (read_value t).0 vg) (read_value t).1 (omega arith) in
      (r, rw (e, parse_vg_body) ih)
  | at_neither key t e l ↦ (err malformed, rw (e, parse_vg_body))
]

parse_text_total : (fuel : ℕ) (s : List ℕ) → length s < fuel → Returns (parse_text fuel s)
unfolding parse_text
parse_text_total zero s h = absurd (omega arith)
parse_text_total (suc fuel) s h = elim (next s) [
  | at_end e ↦ (err missing, rw (e, parse_text))
  | at_close t e l ↦ (err malformed, rw (e, parse_text))
  | at_block key t e l ↦
      let (r, body) = parse_vg_body_total fuel (new_vg key) t (omega arith) in
      (r, rw (e, parse_text) body)
  | at_value key t e l ↦
      let b = read_value-le t in
      let (r, ih) = parse_text_total fuel (read_value t).1 (omega arith) in
      (r, rw (e, parse_text) ih)
  | at_neither key t e l ↦ (err malformed, rw (e, parse_text))
]

-- `parseMetadata` ends on every text, well formed or not, with a volume group or an error: no loop of
-- the parser runs out of fuel.
pub parse_metadata_total : (text : List ℕ) → (r : Result Vg) × (parse_metadata text ≡ some r)
unfolding parse_metadata
parse_metadata_total text = parse_text_total (suc (length text)) text (omega arith)

pub newest_total : (best : Option Vg) (texts : List (List ℕ)) → Returns (newest best texts)
unfolding newest
newest_total best [] = (best, refl)
newest_total best (text ∷ texts) =
    let (r, e) = parse_metadata_total (strip_nul text) in
    elim (Result-cases r) [
      | inl (vg, good) ↦
          let (b, ih) = newest_total (newer best vg) texts in (b, rw (e, newest, good) ih)
      | inr (x, bad) ↦ let (b, ih) = newest_total best texts in (b, rw (e, newest, bad) ih)
    ]

opened_total : (best : Option (Option Vg)) → Returns best → Returns (opened best)
opened_total none (b, e) = cc
opened_total (some none) h = (_, refl)
opened_total (some (some vg)) h = (_, refl)

-- `Open` returns a volume group or an error, whatever the file holds.
pub open_vg_total : (ra : ReaderAt) (origin : ℕ) → (r : Result Vg) × (open_vg ra origin ≡ some r)
unfolding open_vg
open_vg_total ra origin = elim (Bool-cases (check_label ra origin)) [
  | inr no_label ↦ (err not_lvm, rw (no_label, open_vg))
  | inl label ↦ elim (Result-cases (window (ra (int64 origin) (replicate scan_size 0)))) [
    | inr (x, bad) ↦ (err x, rw (label, bad, open_vg))
    | inl (buf, good) ↦
        let (r, e) = opened_total _ (newest_total none (find_all 0 text_marker buf)) in
        (r, rw (label, good, open_vg) e)
  ]
]
