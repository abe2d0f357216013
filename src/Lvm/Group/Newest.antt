-- ===== src/Lvm/Group/Newest.antt =====
-- lvm2/lvm2.go: which snapshot `Open` takes.
use udf.Prelude.{
  ℕ, ◌≡◌, ap, sym, ◌∙◌, ◌⊎◌, inl, inr, Bool-cases, true, false, Option, none, some, List, [], ◌∷◌,
  arith, lt_int64,
}
use udf.Reader.{ok, Result-cases}
use udf.Lvm.{Vg}
use udf.Lvm.Group.{newer, newest, parse_metadata, strip_nul}
use udf.Lvm.Group.Total.{parse_metadata_total}

abbrev pub Parses : List ℕ → Vg → Type 0
Parses text vg = parse_metadata (strip_nul text) ≡ some (ok vg)

-- No snapshot of the list that parses has a higher sequence number.
abbrev pub NoneNewer : Vg → List (List ℕ) → Type 0
NoneNewer best [] = Unit
NoneNewer best (text ∷ texts) =
    ((vg : Vg) → Parses text vg → lt_int64 best.seqno vg.seqno ≡ false) × NoneNewer best texts

abbrev pub Among : Vg → List (List ℕ) → Type 0
Among best [] = ⊥
Among best (text ∷ texts) = Parses text best ⊎ Among best texts

abbrev NotBelow : Vg → Option Vg → Type 0
NotBelow r none = Unit
NotBelow r (some b) = lt_int64 r.seqno b.seqno ≡ false

lt_trans_false : (a b c : ℕ) → lt_int64 a b ≡ false → lt_int64 b c ≡ false → lt_int64 a c ≡ false
unfolding lt_int64
lt_trans_false a b c h k = ground arith

lt_asym : (a b : ℕ) → lt_int64 a b ≡ true → lt_int64 b a ≡ false
unfolding lt_int64
lt_asym a b h = ground arith

lt_irrefl : (a : ℕ) → lt_int64 a a ≡ false
unfolding lt_int64
lt_irrefl a = ground arith

-- The better of two is above both, and is one of them.
newer_best :
    (best : Option Vg) (vg r : Vg)
    → NotBelow r (newer best vg)
    → NotBelow r best × (lt_int64 r.seqno vg.seqno ≡ false)
newer_best none vg r h = (tt, h)
newer_best (some b) vg r h = elim (Bool-cases (lt_int64 b.seqno vg.seqno)) [
  | inl above ↦
      let h' : lt_int64 r.seqno vg.seqno ≡ false = rw above at h in
      (lt_trans_false r.seqno vg.seqno b.seqno h' (lt_asym b.seqno vg.seqno above), h')
  | inr below ↦
      let h' : lt_int64 r.seqno b.seqno ≡ false = rw below at h in
      (h', lt_trans_false r.seqno b.seqno vg.seqno h' below)
]

newer_one : (best : Option Vg) (vg r : Vg) → newer best vg ≡ some r → (best ≡ some r) ⊎ (vg ≡ r)
newer_one none vg r e = inr (cc)
newer_one (some b) vg r e = elim (Bool-cases (lt_int64 b.seqno vg.seqno)) [
  | inl above ↦ let e' : some vg ≡ some r = rw above at e in inr (cc)
  | inr below ↦ let e' : some b ≡ some r = rw below at e in inl e'
]

newest_best :
    (best : Option Vg) (texts : List (List ℕ)) (r : Vg)
    → newest best texts ≡ some (some r)
    → NotBelow r best × NoneNewer r texts × ((best ≡ some r) ⊎ Among r texts)
unfolding newest
newest_best none [] r e = cc
newest_best (some b) [] r e =
    let same : b ≡ r = cc in
    (ap (λ (v : Vg). lt_int64 r.seqno v.seqno) same ∙ lt_irrefl r.seqno, tt, inl (cc))
newest_best best (text ∷ texts) r e =
    let (parsed, p) = parse_metadata_total (strip_nul text) in
    elim (Result-cases parsed) [
      | inl (vg, good) ↦
          let (above, later, source) =
            newest_best (newer best vg) texts r (rw (p, newest, good) at e) in
          let (a, b) = newer_best best vg r above in
          (
            a,
            (
              λ vg' q.
                  let same : vg ≡ vg' = cc in
                  ap (λ (v : Vg). lt_int64 r.seqno v.seqno) (sym same) ∙ b,
              later,
            ),
            elim source [
              | inl here ↦ elim (newer_one best vg r here) [
                | inl old ↦ inl old
                | inr new ↦ inr (inl (p ∙ ap some (good ∙ ap ok new)))
              ]
              | inr there ↦ inr (inr there)
            ],
          )
      | inr (x, bad) ↦
          let (above, later, source) = newest_best best texts r (rw (p, newest, bad) at e) in
          (
            above,
            (λ vg' q. cc, later),
            elim source [ inl here ↦ inl here | inr there ↦ inr (inr there) ],
          )
    ]

-- If the loop over the snapshots ends with a volume group, one of the snapshots parses to it, and no
-- snapshot that parses has a higher sequence number, whatever their order.
pub newest-NoneNewer :
    (texts : List (List ℕ)) (r : Vg)
    → newest none texts ≡ some (some r)
    → Among r texts × NoneNewer r texts
newest-NoneNewer texts r e =
    let (above, later, source) = newest_best none texts r e in
    (elim source [ inl bad ↦ cc | inr there ↦ there ], later)
