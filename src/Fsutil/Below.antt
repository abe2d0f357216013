-- ===== src/Fsutil/Below.antt =====
-- fsutil/path.go: the paths below a root, from one directory to the next.
use udf.Prelude.{
  ℕ, ◌≡◌, refl, ap, sym, subst, ◌∙◌, true, false, List, [], ◌∷◌, ◌++◌, all-append, append_assoc,
  arith, inl, inr,
}
use udf.Paths.{is_rooted, walk, parts, clean, join, join_slash}
use udf.Paths.Elements.{slash_free, split-one}
use udf.Paths.Walk.{is_name, name_kind}
use udf.Paths.Clean.{join-parts, parts_nothing}
use udf.Fsutil.Safe.{Under}

-- A name is its own clean path.
name_rooted : (e : List ℕ) → slash_free e ≡ true → is_rooted e ≡ false
name_rooted [] h = refl
name_rooted (c ∷ e) h = ground arith

name-parts : (e : List ℕ) → is_name e ≡ true → slash_free e ≡ true → parts e ≡ e ∷ []
unfolding parts walk
name-parts e n h = rw (name_rooted e h, split-one e h, name_kind e n)

name-clean : (e : List ℕ) → is_name e ≡ true → slash_free e ≡ true → clean e ≡ e
unfolding clean join_slash
name-clean e n h = rw (name_rooted e h, name-parts e n h)

pub Under-trans : (root p q : List ℕ) → Under root p → Under p q → Under root q
Under-trans root p q (inl e) v = subst (λ r. Under r q) e v
Under-trans root p q u (inl e) = subst (Under root) (sym e) u
Under-trans root p q (inr (es, n, f, c, r, h)) (inr (es', n', f', c', r', h')) =
    let all_names = all-append is_name es es' ∙ rw (n, n') refl in
    let all_plain = all-append slash_free es es' ∙ rw (f, f') refl in
    let whole = h' ∙ ap (λ t. t ++ es') h ∙ append_assoc (parts root) es es' in
    inr (es ++ es', all_names, all_plain, c', r' ∙ r, whole)

pub join-Under : (p e : List ℕ) → is_name e ≡ true → slash_free e ≡ true → Under p (join p e)
unfolding join
join-Under [] [] n h = inl refl
join-Under [] (c ∷ e) n h =
    let c' = name-clean (c ∷ e) n h in
    let p = name-parts (c ∷ e) n h in
    rw c' (
      inr (
        (c ∷ e) ∷ [],
        rw n,
        rw h,
        c',
        name_rooted (c ∷ e) h,
        p ∙ sym (ap (λ b. b ++ ((c ∷ e) ∷ [])) parts_nothing),
      ))
join-Under (c ∷ p') e n h =
    let c' = name-clean e n h in
    let p = name-parts e n h in
    let (twice, r, whole) = join-parts c p' e (rw p (rw n)) in
    rw⁻¹ c' (inr (e ∷ [], rw n, rw h, twice, r, whole ∙ ap (λ es. parts (c ∷ p') ++ es) p))
