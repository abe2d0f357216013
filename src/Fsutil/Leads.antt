-- ===== src/Fsutil/Leads.antt =====
-- fsutil/path.go: which names `ResolveSafePath` refuses as leading out of the root.
use udf.Prelude.{
  ℕ, ◌≡◌, refl, ap, sym, ◌∙◌, Bool, true, false, not, ◌||◌, Bool-cases, inl, inr, List, [], ◌∷◌,
  ◌++◌, arith, all-reverse, and-true, bytes_eq, bytes_eq_iff,
}
use mathlib.Core.List.{reverse, reverse-append}
use udf.Paths.{
  slash, dot, dot_dot, has_prefix, is_rooted, up, kind, walk, split, join_slash, parts, print,
  clean,
}
use udf.Paths.Elements.{slash_free, plain}
use udf.Paths.Walk.{is_name, names, climbs, names-walk, climbs_away}
use udf.Paths.Clean.{parts-plain, parts_rooted-names}
use udf.Fsutil.{trim_slash, leads_out}

-- A path of elements leads out where its first one is `..`.
leads_out-one : (e : List ℕ) → slash_free e ≡ true → leads_out e ≡ bytes_eq e dot_dot
unfolding leads_out has_prefix bytes_eq
leads_out-one [] h = refl
leads_out-one (a ∷ []) h = ground arith
leads_out-one (a ∷ (b ∷ [])) h = ground arith
leads_out-one (a ∷ (b ∷ (c ∷ e))) h = ground arith

leads_out-more :
    (e rest : List ℕ) → slash_free e ≡ true → leads_out (e ++ slash ∷ rest) ≡ bytes_eq e dot_dot
unfolding leads_out has_prefix bytes_eq
leads_out-more [] rest h = ground arith
leads_out-more (a ∷ []) rest h = ground arith
leads_out-more (a ∷ (b ∷ [])) rest h = ground arith
leads_out-more (a ∷ (b ∷ (c ∷ e))) rest h = ground arith

pub leads_out-join_slash :
    (e : List ℕ) (es : List (List ℕ))
    → slash_free e ≡ true
    → leads_out (join_slash (e ∷ es)) ≡ bytes_eq e dot_dot
unfolding join_slash
leads_out-join_slash e [] h = leads_out-one e h
leads_out-join_slash e (f ∷ es) h = leads_out-more e (join_slash (f ∷ es)) h

up_bytes : (e : List ℕ) → kind e ≡ up → bytes_eq e dot_dot ≡ true
unfolding kind
up_bytes e h = ground arith

name_bytes : (e : List ℕ) → is_name e ≡ true → bytes_eq e dot_dot ≡ false
unfolding kind
name_bytes e h = ground arith

nothing_leads_out : leads_out [] ≡ false
unfolding leads_out has_prefix bytes_eq
nothing_leads_out = refl

pub leads_out-names :
    (es : List (List ℕ)) → plain es ≡ true → names es ≡ true → leads_out (join_slash es) ≡ false
unfolding join_slash
leads_out-names [] p h = nothing_leads_out
leads_out-names (e ∷ es) p h =
    let (free, rest) = and-true (slash_free e) (plain es) p in
    let (one, more) = and-true (is_name e) (names es) h in
    leads_out-join_slash e es free ∙ name_bytes e one

-- Whether a name stays below the directory that it is read in, by a walk over its elements: a name
-- that is still rooted without its first slash does, and one that never climbs above its start.
abbrev pub stays : List ℕ → Bool
stays entry = let s = trim_slash entry in is_rooted s || not (climbs 0 (split s))

pub inside-names :
    (s : List ℕ) → (is_rooted s || not (climbs 0 (split s))) ≡ true → names (parts s) ≡ true
unfolding parts
inside-names s h = elim (Bool-cases (is_rooted s)) [
  | inl r ↦ parts_rooted-names s r
  | inr n ↦
      let c : climbs 0 (split s) ≡ false = ground arith in
      rw n (all-reverse is_name (walk false [] (split s)) (names-walk [] (split s) refl c))
]

rooted_leads : (rest : List ℕ) → leads_out (slash ∷ rest) ≡ false
unfolding leads_out has_prefix bytes_eq
rooted_leads [] = refl
rooted_leads (c ∷ rest) = refl

pub dot_leads : leads_out dot ≡ false
unfolding leads_out has_prefix bytes_eq
dot_leads = refl

print-leads :
    (r : Bool) (es : List (List ℕ))
    → plain es ≡ true
    → names es ≡ true
    → leads_out (print r es) ≡ false
print-leads true es p h = rooted_leads (join_slash es)
print-leads false [] p h = dot_leads
print-leads false (e ∷ es) p h = leads_out-names (e ∷ es) p h

-- A name that stays cleans to a path that does not lead out.
pub inside-leads : (s : List ℕ) → names (parts s) ≡ true → leads_out (clean s) ≡ false
unfolding clean
inside-leads s h = print-leads (is_rooted s) (parts s) (parts-plain s) h

-- One that does not, to one that does.
outside-parts :
    (s : List ℕ)
    → is_rooted s ≡ false
    → climbs 0 (split s) ≡ true
    → (u : List ℕ) × (rest : List (List ℕ)) × (kind u ≡ up) × (parts s ≡ u ∷ rest)
unfolding parts
outside-parts s r c =
    let (more, u, k, out) = climbs_away [] (split s) refl c in
    (u, reverse more, k, rw r (ap reverse out ∙ reverse-append more (u ∷ [])))

pub outside-leads :
    (s : List ℕ) → (is_rooted s || not (climbs 0 (split s))) ≡ false → leads_out (clean s) ≡ true
unfolding clean
outside-leads s h =
    let r : is_rooted s ≡ false = ground arith in
    let c : climbs 0 (split s) ≡ true = ground arith in
    let (u, rest, k, first) = outside-parts s r c in
    let free : slash_free u ≡ true =
      (and-true (slash_free u) (plain rest) (ap plain (sym first) ∙ parts-plain s)).0 in
    rw (r, first) (leads_out-join_slash u rest free ∙ up_bytes u k)

pub leads_not_dot : (s : List ℕ) → leads_out s ≡ true → bytes_eq s dot ≡ false
leads_not_dot s h = elim (Bool-cases (bytes_eq s dot)) [
  | inl e ↦ let d = ap leads_out ((bytes_eq_iff s dot).0 e) ∙ dot_leads in absurd cc
  | inr n ↦ n
]
