-- ===== src/Paths/Clean.antt =====
-- `path.Clean`, `filepath.Join` and `filepath.Rel` by the elements of their results.
use udf.Prelude.{
  ℕ, ◌≡◌, ◌≢◌, refl, ap, ap₂, ◌∙◌, Bool, true, false, not, some, List, [], ◌∷◌, ◌++◌, arith, all,
  all-reverse, and-true, ◌==◌, bytes_eq, bytes_eq_iff,
}
use mathlib.Core.List.{reverse, reverse-reverse, reverse-append}
use udf.Paths.{
  slash, is_rooted, blank, kind, walk, split, join_slash, parts, print, clean, join, rel_parts,
}
use udf.Paths.Elements.{slash_free, plain, split-plain, split-append, split-join_slash}
use udf.Paths.Walk.{
  is_name, names, normal, walk-append, walk-names, walk-plain, walk-normal, walk-reverse,
  walk_rooted_same, names-walk_rooted, normal_tail, names-normal,
}

pub parts-plain : (s : List ℕ) → plain (parts s) ≡ true
unfolding parts
parts-plain s =
    all-reverse slash_free (walk (is_rooted s) [] (split s))
      (walk-plain (is_rooted s) [] (split s) refl (split-plain s))

pub parts_rooted-names : (s : List ℕ) → is_rooted s ≡ true → names (parts s) ≡ true
unfolding parts
parts_rooted-names s r =
    all-reverse is_name (walk (is_rooted s) [] (split s))
      (rw r (names-walk_rooted [] (split s) refl))

-- An element that is kept has a first byte, which is not the slash.
abbrev opens : List ℕ → Bool
opens [] = false
opens (c ∷ e) = not (c == slash)

kept-opens : (e : List ℕ) → slash_free e ≡ true → kind e ≢ blank → opens e ≡ true
unfolding kind bytes_eq
kept-opens [] h k = absurd (k refl)
kept-opens (c ∷ e) h k = ground arith

abbrev kept_kind : List ℕ → Bool
kept_kind e = elim (kind e) [ blank ↦ false | _ ↦ true ]

normal-kept : (kept : List (List ℕ)) → normal kept ≡ true → all kept_kind kept ≡ true
normal-kept [] h = refl
normal-kept (e ∷ kept) h = let rest = normal-kept kept (normal_tail e kept h) in ground arith

walk_either-normal : (r : Bool) (es : List (List ℕ)) → normal (walk r [] es) ≡ true
walk_either-normal true es = names-normal _ (names-walk_rooted [] es refl)
walk_either-normal false es = walk-normal [] es refl

parts-kept : (s : List ℕ) → all kept_kind (parts s) ≡ true
unfolding parts
parts-kept s =
    all-reverse kept_kind (walk (is_rooted s) [] (split s))
      (normal-kept _ (walk_either-normal (is_rooted s) (split s)))

join_slash-opens :
    (e : List ℕ) (es : List (List ℕ)) → opens e ≡ true → is_rooted (join_slash (e ∷ es)) ≡ false
unfolding join_slash
join_slash-opens [] es h = absurd cc
join_slash-opens (c ∷ e) [] h = ground arith
join_slash-opens (c ∷ e) (f ∷ es) h = ground arith

print-rooted :
    (r : Bool) (es : List (List ℕ))
    → plain es ≡ true
    → all kept_kind es ≡ true
    → is_rooted (print r es) ≡ r
print-rooted true es p k = refl
print-rooted false [] p k = refl
print-rooted false (e ∷ es) p k =
    let (free, more) = and-true (slash_free e) (plain es) p in
    let n : kind e ≢ blank = λ b. absurd (ground arith) in
    join_slash-opens e es (kept-opens e free n)

pub clean-rooted : (s : List ℕ) → is_rooted (clean s) ≡ is_rooted s
unfolding clean
clean-rooted s = print-rooted (is_rooted s) (parts s) (parts-plain s) (parts-kept s)

-- A walk over a printed path is a walk over its elements.
pub walk-print :
    (r : Bool) (kept : List (List ℕ)) (rooted : Bool) (es : List (List ℕ))
    → plain es ≡ true
    → walk r kept (split (print rooted es)) ≡ walk r kept es
unfolding walk split kind bytes_eq join_slash
walk-print r kept true [] p = refl
walk-print r kept true (e ∷ es) p = ap (walk r kept) (split-join_slash e es p)
walk-print r kept false [] p = refl
walk-print r kept false (e ∷ es) p = ap (walk r kept) (split-join_slash e es p)

again : (r : Bool) (es : List (List ℕ)) → walk r [] (reverse (walk r [] es)) ≡ walk r [] es
again true es = walk_rooted_same (walk true [] es) (names-walk_rooted [] es refl)
again false es = walk-reverse (walk false [] es) (walk-normal [] es refl)

pub parts-clean : (s : List ℕ) → parts (clean s) ≡ parts s
unfolding parts clean
parts-clean s =
    let r = is_rooted s in
    let kept = walk r [] (split s) in
    let same = clean-rooted s in
    let printed = walk-print r [] r (reverse kept) (parts-plain s) in
    rw (same, printed) (ap reverse (again r (split s)))

-- Cleaning a path twice is cleaning it once.
pub clean-clean : (s : List ℕ) → clean (clean s) ≡ clean s
unfolding clean
clean-clean s = ap₂ print (clean-rooted s) (parts-clean s)

join_slash-cons :
    (e : List ℕ) (es : List (List ℕ))
    → opens e ≡ true
    → (c : ℕ) × (rest : List ℕ) × (join_slash (e ∷ es) ≡ c ∷ rest)
unfolding join_slash
join_slash-cons [] es h = absurd cc
join_slash-cons (c ∷ e) [] h = (c, e, refl)
join_slash-cons (c ∷ e) (f ∷ es) h = (c, e ++ slash ∷ join_slash (f ∷ es), refl)

print-cons :
    (r : Bool) (es : List (List ℕ))
    → plain es ≡ true
    → all kept_kind es ≡ true
    → (c : ℕ) × (rest : List ℕ) × (print r es ≡ c ∷ rest)
print-cons true es p k = (slash, join_slash es, refl)
print-cons false [] p k = (46, [], refl)
print-cons false (e ∷ es) p k =
    let (free, more) = and-true (slash_free e) (plain es) p in
    let n : kind e ≢ blank = λ b. absurd (ground arith) in
    join_slash-cons e es (kept-opens e free n)

pub clean-cons : (s : List ℕ) → (c : ℕ) × (rest : List ℕ) × (clean s ≡ c ∷ rest)
unfolding clean
clean-cons s = print-cons (is_rooted s) (parts s) (parts-plain s) (parts-kept s)

-- A walk over a clean path of names, from what a first walk kept.
walk-clean :
    (r : Bool) (kept : List (List ℕ)) (n : List ℕ)
    → names (parts n) ≡ true
    → reverse (walk r kept (split (clean n))) ≡ reverse kept ++ parts n
unfolding clean
walk-clean r kept n h =
    let printed = walk-print r kept (is_rooted n) (parts n) (parts-plain n) in
    ap reverse (printed ∙ walk-names r kept (parts n) h)
    ∙ reverse-append (reverse (parts n)) kept
    ∙ ap (λ es. reverse kept ++ es) (reverse-reverse (parts n))

parts-append :
    (c : ℕ) (root n : List ℕ)
    → names (parts n) ≡ true
    → parts ((c ∷ root) ++ slash ∷ clean n) ≡ parts (c ∷ root) ++ parts n
unfolding parts
parts-append c root n h =
    let r = is_rooted (c ∷ root) in
    rw (split-append (c ∷ root) (clean n), walk-append r [] (split (c ∷ root)) (split (clean n)))
      (walk-clean r (walk r [] (split (c ∷ root))) n h)

-- A path of names below another is cleaned to the other's elements and these.
pub join-parts :
    (c : ℕ) (root n : List ℕ)
    → names (parts n) ≡ true
    → (clean (join (c ∷ root) (clean n)) ≡ join (c ∷ root) (clean n))
      × (is_rooted (join (c ∷ root) (clean n)) ≡ is_rooted (c ∷ root))
      × (parts (join (c ∷ root) (clean n)) ≡ parts (c ∷ root) ++ parts n)
unfolding join
join-parts c root n h =
    let (d, b, e) = clean-cons n in
    let whole = (c ∷ root) ++ slash ∷ clean n in
    let joined : join (c ∷ root) (clean n) ≡ clean whole = rw e refl in
    rw joined (clean-clean whole, clean-rooted whole, parts-clean whole ∙ parts-append c root n h)

-- The way from a path to one below it is that of the elements between.
pub rel_parts-below : (bs es : List (List ℕ)) → rel_parts bs (bs ++ es) ≡ some (join_slash es)
rel_parts-below [] es = refl
rel_parts-below (b ∷ bs) es = let e = (bytes_eq_iff b b).1 refl in rw e (rel_parts-below bs es)

pub parts_nothing : parts [] ≡ []
unfolding parts walk kind split bytes_eq
parts_nothing = refl
