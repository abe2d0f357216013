-- ===== src/Fsutil/Safe.antt =====
-- fsutil/path.go: what `ResolveSafePath` accepts, and where its results stand.
use udf.Prelude.{
  ℕ, ◌≡◌, ◌≢◌, refl, ap, sym, subst, ◌∙◌, true, Bool-cases, ◌⊎◌, inl, inr, some, none, List, [],
  ◌∷◌, ◌++◌, arith, if◌then◌else◌, bytes_eq, bytes_eq_iff, Option,
}
use udf.Reader.{ok, err, escapes_root}
use udf.Paths.{dot, is_rooted, parts, clean, join, rel}
use udf.Paths.Elements.{plain}
use udf.Paths.Walk.{names}
use udf.Paths.Clean.{
  parts-plain, clean-rooted, parts-clean, clean-clean, clean-cons, parts_nothing, join-parts,
  rel_parts-below,
}
use udf.Fsutil.Leads.{
  leads_out-names, stays, inside-names, inside-leads, outside-leads, leads_not_dot, dot_leads,
}
use udf.Fsutil.{trim_slash, checked, resolve_safe_path}

-- `root` itself, or a path below it, which is a clean path of its elements and further names.
abbrev pub Under : List ℕ → List ℕ → Type 0
Under root target =
    (target ≡ root)
    ⊎ ((es : List (List ℕ)) × (names es ≡ true)
        × (plain es ≡ true)
        × (clean target ≡ target)
        × (is_rooted target ≡ is_rooted root)
        × (parts target ≡ parts root ++ es))

checked_ok :
    (target : List ℕ) (way : Option (List ℕ)) {found : List ℕ}
    → checked target way ≡ ok found
    → target ≡ found
checked_ok target none h = absurd cc
checked_ok target (some way) h = ground arith

-- The second test finds nothing where the root is not empty.
rel-below :
    (root target : List ℕ) (es : List (List ℕ))
    → is_rooted target ≡ is_rooted root
    → parts target ≡ parts root ++ es
    → plain es ≡ true
    → names es ≡ true
    → checked target (rel root target) ≡ ok target
unfolding rel
rel-below root target es r p free h = elim (Bool-cases (bytes_eq (clean target) (clean root))) [
  | inl same ↦ rw (same, dot_leads)
  | inr differ ↦ elim (Bool-cases (is_rooted root)) [
    | inl rooted ↦
        rw (differ, r, rooted, p, rel_parts-below (parts root) es, leads_out-names es free h)
    | inr n ↦ rw (differ, r, n, p, rel_parts-below (parts root) es, leads_out-names es free h)
  ]
]

-- The path below a root that is not empty.
joined-Under :
    (c : ℕ) (root s : List ℕ)
    → names (parts s) ≡ true
    → (checked (join (c ∷ root) (clean s)) (rel (c ∷ root) (join (c ∷ root) (clean s)))
        ≡ ok (join (c ∷ root) (clean s)))
      × Under (c ∷ root) (join (c ∷ root) (clean s))
joined-Under c root s h =
    let (twice, r, p) = join-parts c root s h in
    (
      rel-below (c ∷ root) (join (c ∷ root) (clean s)) (parts s) r p (parts-plain s) h,
      inr (parts s, h, parts-plain s, twice, r, p),
    )

rel_empty_rooted : (target : List ℕ) → is_rooted target ≡ true → rel [] target ≡ none
unfolding rel
rel_empty_rooted target r = elim (Bool-cases (bytes_eq (clean target) (clean []))) [
  | inl e ↦
      let same = ap is_rooted ((bytes_eq_iff (clean target) (clean [])).0 e) in
      let rooted = sym r ∙ sym (clean-rooted target) ∙ same ∙ clean-rooted [] in absurd cc
  | inr n ↦ rw (n, r) refl
]

-- Below the empty root only a path that is not rooted is found.
empty-Under :
    (s : List ℕ) {found : List ℕ}
    → names (parts s) ≡ true
    → checked (join [] (clean s)) (rel [] (join [] (clean s))) ≡ ok found
    → Under [] found
unfolding join
empty-Under s {found} h e =
    let (c, rest, cons) = clean-cons s in
    let joined : join [] (clean s) ≡ clean s =
      rw cons (ap clean (sym cons) ∙ clean-clean s ∙ cons) in
    let same = sym joined ∙ checked_ok _ _ {found = found} e in
    elim (Bool-cases (is_rooted s)) [
      | inl r ↦
          let none_found = rel_empty_rooted (clean s) (clean-rooted s ∙ r) in
          let refused : checked (clean s) none ≡ ok found = rw (joined, none_found) at e in
          absurd cc
      | inr n ↦ subst (Under []) same (
          inr (
            parts s,
            h,
            parts-plain s,
            clean-clean s,
            clean-rooted s ∙ n,
            parts-clean s ∙ sym (ap (λ b. b ++ parts s) parts_nothing),
          ))
    ]

below :
    (root s target : List ℕ)
    → names (parts s) ≡ true
    → checked (join root (clean s)) (rel root (join root (clean s))) ≡ ok target
    → Under root target
below [] s target h e = empty-Under s {found = target} h e
below (c ∷ root) s target h e =
    subst (Under (c ∷ root)) (checked_ok _ _ {found = target} e) (joined-Under c root s h).1

-- What `ResolveSafePath` returns, whatever the root and the name: the root as it is given, or a clean
-- path that is rooted as the root is and has its elements, then further ones, of which none is
-- empty, `.` or `..`.
pub resolve_safe_path-Under :
    (root entry : List ℕ) (target : List ℕ)
    → resolve_safe_path root entry ≡ ok target
    → Under root target
unfolding resolve_safe_path
resolve_safe_path-Under root entry target h =
    let s = trim_slash entry in
    elim (Bool-cases (bytes_eq (clean s) dot)) [
      | inl here ↦ let e : ok root ≡ ok target = rw here at h in inl (ground arith)
      | inr there ↦ elim (Bool-cases (stays entry)) [
        | inr out ↦ let e = outside-leads s out in absurd (ground arith)
        | inl stay ↦
            let inside = inside-names s stay in
            let leads = inside-leads s inside in
            let rest : checked (join root (clean s)) (rel root (join root (clean s))) ≡ ok target =
              rw (there, leads) at h in
            below root s target inside rest
      ]
    ]

-- The path that an accepted name stands for.
abbrev pub place : List ℕ → List ℕ → List ℕ
place root entry =
    let s = trim_slash entry in if bytes_eq (clean s) dot then root else join root (clean s)

-- Under a root that is not empty, `ResolveSafePath` accepts the names that never climb above their
-- start, wherever their `..` stand, and takes each to its clean path below the root; it refuses all
-- others as ones that escape. Its second test, on the way from the root, refuses nothing there.
pub resolve_safe_path-stays :
    (root entry : List ℕ)
    → root ≢ []
    → resolve_safe_path root entry
      ≡ (if stays entry then ok (place root entry) else err escapes_root)
unfolding resolve_safe_path
resolve_safe_path-stays [] entry some_root = absurd (some_root refl)
resolve_safe_path-stays (c ∷ root) entry some_root =
    let s = trim_slash entry in
    elim (Bool-cases (stays entry)) [
      | inr out ↦ let e = outside-leads s out in let n = leads_not_dot (clean s) e in rw (n, e, out)
      | inl stay ↦
          let inside = inside-names s stay in
          let leads = inside-leads s inside in
          elim (Bool-cases (bytes_eq (clean s) dot)) [
            | inl here ↦ rw (here, stay)
            | inr there ↦ rw (there, leads, stay) (joined-Under c root s inside).0
          ]
    ]
