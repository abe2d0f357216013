-- ===== src/Paths/Elements.antt =====
-- Go's `strings.Split` and `strings.Join` at `/`, which `path.Clean` reads and writes paths by.
use udf.Prelude.{
  ℕ, ◌≡◌, refl, ap, ◌∙◌, Bool, true, false, not, ◌&&◌, Bool-cases, inl, inr, List, [], ◌∷◌, ◌++◌,
  ◌==◌, arith, all,
}
use udf.Paths.{slash, split, join_slash}

-- An element of a path: it has no slash.
abbrev pub slash_free : List ℕ → Bool
slash_free = all (λ c. not (c == slash))

abbrev pub plain : List (List ℕ) → Bool
plain = all slash_free

pub split-cons : (s : List ℕ) → (e : List ℕ) × (es : List (List ℕ)) × (split s ≡ e ∷ es)
unfolding split
split-cons [] = ([], [], refl)
split-cons (c ∷ s) =
    let (e, es, h) = split-cons s in
    elim (Bool-cases (c == slash)) [
      | inl y ↦ ([], e ∷ es, rw (y, h))
      | inr n ↦ (c ∷ e, es, rw (n, h))
    ]

pub split-plain : (s : List ℕ) → plain (split s) ≡ true
unfolding split
split-plain [] = refl
split-plain (c ∷ s) =
    let (e, es, h) = split-cons s in
    let rest = split-plain s in
    let ih : (slash_free e && plain es) ≡ true = rw h at rest in
    elim (Bool-cases (c == slash)) [ inl y ↦ rw y rest | inr n ↦ rw (n, h) (rw n ih) ]

pub split-append : (a b : List ℕ) → split (a ++ slash ∷ b) ≡ split a ++ split b
unfolding split
split-append [] b = refl
split-append (c ∷ a) b =
    let (e, es, h) = split-cons a in
    let ih = split-append a b in
    elim (Bool-cases (c == slash)) [ inl y ↦ rw (y, ih) | inr n ↦ rw (n, ih, h) ]

pub split-one : (e : List ℕ) → slash_free e ≡ true → split e ≡ e ∷ []
unfolding split
split-one [] h = refl
split-one (c ∷ e) h =
    let n : (c == slash) ≡ false = ground arith in
    let rest : slash_free e ≡ true = ground arith in rw (n, split-one e rest)

pub split-join_slash :
    (e : List ℕ) (es : List (List ℕ)) → plain (e ∷ es) ≡ true → split (join_slash (e ∷ es)) ≡ e ∷ es
unfolding join_slash
split-join_slash e [] h = split-one e (ground arith)
split-join_slash e (f ∷ es) h =
    let one : slash_free e ≡ true = ground arith in
    let rest : plain (f ∷ es) ≡ true = ground arith in
    split-append e (join_slash (f ∷ es))
    ∙ rw (split-one e one) (ap (λ r. e ∷ r) (split-join_slash f es rest))
