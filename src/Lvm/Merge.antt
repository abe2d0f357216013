-- ===== src/Lvm/Merge.antt =====
-- lvm2/lvm2.go: which bytes the merged extents cover, and in which order.
use udf.Prelude.{
  ℕ, ◌+◌, ◌-◌, ◌^◌, ◌≤◌, ◌<◌, ◌≡◌, refl, ap, ◌∙◌, Bool, Bool-cases, true, false, ◌&&◌, ◌||◌, inl,
  inr, List, [], ◌∷◌, ltb, leb, arith, lt_int64, lt_int64_small, add_int64_small, sub_int64_small,
}
use udf.Lvm.{Extent, insert, sort_stable, widen, merge, merge_sorted, merge_extents}

-- Whether an extent, or one of a list, holds a byte of the physical volume.
abbrev pub holds : ℕ → Extent → Bool
holds x e = leb e.start x && ltb x (e.start + e.size)

abbrev pub covers : ℕ → List Extent → Bool
covers x [] = false
covers x (e ∷ es) = holds x e || covers x es

-- No extent wraps around.
abbrev pub AllSmall : List Extent → Type 0
AllSmall [] = Unit
AllSmall (e ∷ es) = (e.start + e.size < 2 ^ 63) × AllSmall es

abbrev SortedFrom : ℕ → List Extent → Type 0
SortedFrom lo [] = Unit
SortedFrom lo (e ∷ es) = (lo ≤ e.start) × SortedFrom e.start es

-- Each extent starts behind the end of the one before, and not at it.
abbrev pub Behind : ℕ → List Extent → Type 0
Behind end [] = Unit
Behind end (e ∷ es) = (end < e.start) × Behind (e.start + e.size) es

abbrev pub Separated : List Extent → Type 0
Separated [] = Unit
Separated (e ∷ es) = Behind (e.start + e.size) es

swap : (a b c : Bool) → (a || (b || c)) ≡ (b || (a || c))
swap true true c = refl
swap true false c = refl
swap false true c = refl
swap false false c = refl

covers-insert :
    (x : ℕ) (e : Extent) (es : List Extent) → covers x (insert e es) ≡ (holds x e || covers x es)
unfolding insert
covers-insert x e [] = refl
covers-insert x e (f ∷ fs) = elim (Bool-cases (lt_int64 f.start e.start)) [
  | inl first ↦
      rw first (
        ap (λ b. holds x f || b) (covers-insert x e fs)
        ∙ swap (holds x f) (holds x e) (covers x fs))
  | inr here ↦ rw here
]

insert-AllSmall :
    (e : Extent) (es : List Extent)
    → e.start + e.size < 2 ^ 63
    → AllSmall es
    → AllSmall (insert e es)
unfolding insert
insert-AllSmall e [] h s = (h, tt)
insert-AllSmall e (f ∷ fs) h s = elim (Bool-cases (lt_int64 f.start e.start)) [
  | inl first ↦ rw first (s.0, insert-AllSmall e fs h s.1)
  | inr here ↦ rw here (h, s)
]

insert-SortedFrom :
    (lo : ℕ) (e : Extent) (es : List Extent)
    → e.start + e.size < 2 ^ 63
    → AllSmall es
    → lo ≤ e.start
    → SortedFrom lo es
    → SortedFrom lo (insert e es)
unfolding insert
insert-SortedFrom lo e [] h s l o = (l, tt)
insert-SortedFrom lo e (f ∷ fs) h s l o =
    let small = lt_int64_small f.start e.start (omega (arith, s.0)) (omega arith) in
    elim (Bool-cases (ltb f.start e.start)) [
      | inl first ↦ rw (small, first) (o.0, insert-SortedFrom f.start e fs h s.1 (ground arith) o.1)
      | inr here ↦ rw (small, here) (l, (ground arith, o.1))
    ]

covers-sort_stable : (x : ℕ) (es : List Extent) → covers x (sort_stable es) ≡ covers x es
unfolding sort_stable
covers-sort_stable x [] = refl
covers-sort_stable x (e ∷ es) =
    covers-insert x e (sort_stable es) ∙ ap (λ b. holds x e || b) (covers-sort_stable x es)

sort_stable-AllSmall : (es : List Extent) → AllSmall es → AllSmall (sort_stable es)
unfolding sort_stable
sort_stable-AllSmall [] s = tt
sort_stable-AllSmall (e ∷ es) s =
    insert-AllSmall e (sort_stable es) s.0 (sort_stable-AllSmall es s.1)

sort_stable-SortedFrom : (es : List Extent) → AllSmall es → SortedFrom 0 (sort_stable es)
unfolding sort_stable
sort_stable-SortedFrom [] s = tt
sort_stable-SortedFrom (e ∷ es) s =
    insert-SortedFrom 0 e (sort_stable es) s.0 (sort_stable-AllSmall es s.1) (omega arith)
      (sort_stable-SortedFrom es s.1)

-- Two ranges from `a` to `b` and from `c` to `d`, as one range.
join_longer :
    (a b c d x : ℕ)
    → a ≤ c
    → c ≤ b
    → b < d
    → (leb a x && ltb x d) ≡ ((leb a x && ltb x b) || (leb c x && ltb x d))
join_longer a b c d x h k l = ground arith

join_inside :
    (a b c d x : ℕ)
    → a ≤ c
    → d ≤ b
    → (leb a x && ltb x b) ≡ ((leb a x && ltb x b) || (leb c x && ltb x d))
join_inside a b c d x h k = ground arith

-- What `widen` makes of two extents that touch.
module _ (last e : Extent) (small : last.start + last.size < 2 ^ 63)
    (small' : e.start + e.size < 2 ^ 63) (ordered : last.start ≤ e.start)
    (touching : e.start ≤ last.start + last.size) where
  widen_bounds :
      ((widen last e).start ≡ last.start)
      × (last.start + last.size ≤ last.start + (widen last e).size)
      × (e.start + e.size ≤ last.start + (widen last e).size)
      × (last.start + (widen last e).size < 2 ^ 63)
  unfolding widen
  widen_bounds =
      let a = add_int64_small last.start last.size small in
      let b = add_int64_small e.start e.size small' in
      let l = lt_int64_small (last.start + last.size) (e.start + e.size) small small' in
      elim (Bool-cases (ltb (last.start + last.size) (e.start + e.size))) [
        | inl more ↦
            let d = sub_int64_small (e.start + e.size) last.start (omega arith) small' in
            rw (a, b, l, more, d) (refl, ground arith, omega arith, omega arith)
        | inr less ↦ rw (a, b, l, less) (refl, omega arith, ground arith, small)
      ]

  holds-widen : (x : ℕ) → holds x (widen last e) ≡ (holds x last || holds x e)
  unfolding widen
  holds-widen x =
      let a = add_int64_small last.start last.size small in
      let b = add_int64_small e.start e.size small' in
      let l = lt_int64_small (last.start + last.size) (e.start + e.size) small small' in
      elim (Bool-cases (ltb (last.start + last.size) (e.start + e.size))) [
        | inl more ↦
            let d = sub_int64_small (e.start + e.size) last.start (omega arith) small' in
            let sum : last.start + (e.start + e.size - last.start) ≡ e.start + e.size =
              omega arith in
            rw (a, b, l, more, d, sum)
              (join_longer last.start (last.start + last.size) e.start (e.start + e.size) x ordered
                touching (ground arith))
        | inr less ↦
            rw (a, b, l, less)
              (join_inside last.start (last.start + last.size) e.start (e.start + e.size) x ordered
                (ground arith))
      ]

or_assoc : (a b c : Bool) → ((a || b) || c) ≡ (a || (b || c))
or_assoc true b c = refl
or_assoc false b c = refl

SortedFrom-weaken :
    (lo lo' : ℕ) (es : List Extent) → lo ≤ lo' → SortedFrom lo' es → SortedFrom lo es
SortedFrom-weaken lo lo' [] h s = tt
SortedFrom-weaken lo lo' (e ∷ es) h s = (omega (arith, s.0), s.1)

covers-merge :
    (x : ℕ) (last : Extent) (es : List Extent)
    → last.start + last.size < 2 ^ 63
    → AllSmall es
    → SortedFrom last.start es
    → covers x (merge last es) ≡ (holds x last || covers x es)
unfolding merge
covers-merge x last [] h s o = refl
covers-merge x last (e ∷ es) h s o =
    let a = add_int64_small last.start last.size h in
    let l = lt_int64_small (last.start + last.size) e.start h (omega (arith, s.0)) in
    elim (Bool-cases (ltb (last.start + last.size) e.start)) [
      | inl apart ↦ rw (a, l, apart) (ap (λ b. holds x last || b) (covers-merge x e es s.0 s.1 o.1))
      | inr touch ↦
          let t : e.start ≤ last.start + last.size = ground arith in
          let (same, grown, past, small) = widen_bounds last e h s.0 o.0 t in
          let lower : (widen last e).start + (widen last e).size < 2 ^ 63 = omega arith in
          let ih =
            covers-merge x (widen last e) es lower s.1
              (SortedFrom-weaken (widen last e).start e.start es (omega (arith, o.0)) o.1) in
          let w = holds-widen last e h s.0 o.0 t x in
          rw (a, l, touch)
            (ih ∙ ap (λ b. b || covers x es) w ∙ or_assoc (holds x last) (holds x e) (covers x es))
    ]

merge-Behind :
    (end : ℕ) (last : Extent) (es : List Extent)
    → last.start + last.size < 2 ^ 63
    → AllSmall es
    → SortedFrom last.start es
    → end < last.start
    → Behind end (merge last es)
unfolding merge
merge-Behind end last [] h s o b = (b, tt)
merge-Behind end last (e ∷ es) h s o b =
    let a = add_int64_small last.start last.size h in
    let l = lt_int64_small (last.start + last.size) e.start h (omega (arith, s.0)) in
    elim (Bool-cases (ltb (last.start + last.size) e.start)) [
      | inl apart ↦
          rw (a, l, apart)
            (b, merge-Behind (last.start + last.size) e es s.0 s.1 o.1 (ground arith))
      | inr touch ↦
          let t : e.start ≤ last.start + last.size = ground arith in
          let (same, grown, past, small) = widen_bounds last e h s.0 o.0 t in
          let lower : (widen last e).start + (widen last e).size < 2 ^ 63 = omega arith in
          rw (a, l, touch)
            (merge-Behind end (widen last e) es lower s.1
              (SortedFrom-weaken (widen last e).start e.start es (omega (arith, o.0)) o.1)
              (omega arith))
    ]

merge-Separated :
    (last : Extent) (es : List Extent)
    → last.start + last.size < 2 ^ 63
    → AllSmall es
    → SortedFrom last.start es
    → Separated (merge last es)
unfolding merge
merge-Separated last [] h s o = tt
merge-Separated last (e ∷ es) h s o =
    let a = add_int64_small last.start last.size h in
    let l = lt_int64_small (last.start + last.size) e.start h (omega (arith, s.0)) in
    elim (Bool-cases (ltb (last.start + last.size) e.start)) [
      | inl apart ↦
          rw (a, l, apart) (merge-Behind (last.start + last.size) e es s.0 s.1 o.1 (ground arith))
      | inr touch ↦
          let t : e.start ≤ last.start + last.size = ground arith in
          let (same, grown, past, small) = widen_bounds last e h s.0 o.0 t in
          let lower : (widen last e).start + (widen last e).size < 2 ^ 63 = omega arith in
          rw (a, l, touch)
            (merge-Separated (widen last e) es lower s.1
              (SortedFrom-weaken (widen last e).start e.start es (omega (arith, o.0)) o.1))
    ]

merge_sorted_sound :
    (es : List Extent)
    → AllSmall es
    → SortedFrom 0 es
    → Separated (merge_sorted es) × ((x : ℕ) → covers x (merge_sorted es) ≡ covers x es)
merge_sorted_sound [] s o = (tt, λ x. refl)
merge_sorted_sound (e ∷ es) s o =
    (merge-Separated e es s.0 s.1 o.1, λ x. covers-merge x e es s.0 s.1 o.1)

-- Where no extent wraps around, `mergeExtents` returns extents in ascending order with a gap between
-- any two, and these hold exactly the bytes that the given ones held.
pub merge_extents-covers :
    (es : List Extent)
    → AllSmall es
    → Separated (merge_extents es) × ((x : ℕ) → covers x (merge_extents es) ≡ covers x es)
unfolding merge_extents
merge_extents-covers es s =
    let (apart, same) =
      merge_sorted_sound (sort_stable es) (sort_stable-AllSmall es s)
        (sort_stable-SortedFrom es s) in
    (apart, λ x. same x ∙ covers-sort_stable x es)
