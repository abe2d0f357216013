-- ===== src/Fsutil/Dirs/Order.antt =====
-- fsutil/write.go: the order in which `ApplyDirMetadata` sets the directories.
use mathlib.Core.List.{Permᴰ}
use mathlib.Core.List.Permᴰ
use udf.Prelude.{
  ℕ, suc, ◌+◌, ◌<◌, ◌≤◌, ◌≡◌, refl, true, false, List, [], ◌∷◌, ◌++◌, Bool-cases, inl, inr, ◌⊎◌,
  arith, ap, ◌∙◌,
}
use udf.Paths.{slash, dot, clean, is_rooted}
use udf.Fsutil.Write.{DirMetadata}
use udf.Fsutil.Dirs.{slashes, depth, greater, goes_before, insert, sort}

-- The order is total: it is decided between two paths in one way only.
greater_back : (a b : List ℕ) → greater a b ≡ true → greater b a ≡ false
greater_back [] b h = absurd cc
greater_back (x ∷ a) [] h = refl
greater_back (x ∷ a) (y ∷ b) h = ground (arith, greater_back a b)

greater_chain : (a b c : List ℕ) → greater a b ≡ false → greater b c ≡ false → greater a c ≡ false
greater_chain [] b c h k = refl
greater_chain (x ∷ a) [] c h k = absurd cc
greater_chain (x ∷ a) (y ∷ b) [] h k = absurd cc
greater_chain (x ∷ a) (y ∷ b) (z ∷ c) h k = ground (arith, greater_chain a b c)

pub goes_before_back : (d e : DirMetadata) → goes_before d e ≡ true → goes_before e d ≡ false
unfolding goes_before
goes_before_back d e h = ground (arith, greater_back d.target e.target)

goes_before_chain :
    (d e f : DirMetadata)
    → goes_before d e ≡ false
    → goes_before e f ≡ false
    → goes_before d f ≡ false
unfolding goes_before
goes_before_chain d e f h k = ground (arith, greater_chain d.target e.target f.target)

-- No directory of the list has to go before `d`.
abbrev pub AllBehind : DirMetadata → List DirMetadata → Type 0
AllBehind d [] = Unit {0}
AllBehind d (e ∷ dirs) = (goes_before e d ≡ false) × AllBehind d dirs

abbrev pub InOrder : List DirMetadata → Type 0
InOrder [] = Unit {0}
InOrder (d ∷ dirs) = AllBehind d dirs × InOrder dirs

further_behind :
    (d e : DirMetadata) (dirs : List DirMetadata)
    → goes_before e d ≡ false
    → AllBehind e dirs
    → AllBehind d dirs
further_behind d e [] h u = tt
further_behind d e (f ∷ dirs) h (b, u) = (goes_before_chain f e d b h, further_behind d e dirs h u)

insert-AllBehind :
    (x d : DirMetadata) (dirs : List DirMetadata)
    → goes_before d x ≡ false
    → AllBehind x dirs
    → AllBehind x (insert d dirs)
insert-AllBehind x d [] h u = (h, tt)
insert-AllBehind x d (e ∷ dirs) h (b, u) = elim (Bool-cases (goes_before d e)) [
  | inl first ↦ rw first (h, (b, u))
  | inr later ↦ rw later (b, insert-AllBehind x d dirs h u)
]

insert-InOrder :
    (d : DirMetadata) (dirs : List DirMetadata) → InOrder dirs → InOrder (insert d dirs)
insert-InOrder d [] s = (tt, tt)
insert-InOrder d (e ∷ dirs) (u, s) = elim (Bool-cases (goes_before d e)) [
  | inl first ↦
      let b = goes_before_back d e first in rw first ((b, further_behind d e dirs b u), (u, s))
  | inr later ↦ rw later (insert-AllBehind e d dirs later u, insert-InOrder d dirs s)
]

pub sort-InOrder : (dirs : List DirMetadata) → InOrder (sort dirs)
unfolding sort
sort-InOrder [] = tt
sort-InOrder (d ∷ dirs) = insert-InOrder d (sort dirs) (sort-InOrder dirs)

insert-Perm : (d : DirMetadata) (dirs : List DirMetadata) → Permᴰ (d ∷ dirs) (insert d dirs)
insert-Perm d [] = Permᴰ.refl (d ∷ [])
insert-Perm d (e ∷ dirs) = elim (Bool-cases (goes_before d e)) [
  | inl first ↦ rw first (Permᴰ.refl (d ∷ e ∷ dirs))
  | inr later ↦ rw later (Permᴰ.trans (Permᴰ.swap refl refl) (Permᴰ.cons refl (insert-Perm d dirs)))
]

pub sort-Perm : (dirs : List DirMetadata) → Permᴰ dirs (sort dirs)
unfolding sort
sort-Perm [] = Permᴰ.nil
sort-Perm (d ∷ dirs) = Permᴰ.trans (Permᴰ.cons refl (sort-Perm dirs)) (insert-Perm d (sort dirs))

-- The path `p` is one of a file somewhere inside the directory `q`, both of them clean.
abbrev pub Inside : List ℕ → List ℕ → Type 0
Inside q p =
    ((rest : List ℕ) × (p ≡ q ++ slash ∷ rest))
    ⊎ ((q ≡ slash ∷ []) × (c : ℕ) × (rest : List ℕ) × (p ≡ slash ∷ c ∷ rest))
    ⊎ ((q ≡ dot) × (is_rooted p ≡ false))

slashes-append : (q rest : List ℕ) → slashes (q ++ slash ∷ rest) ≡ slashes q + 1 + slashes rest
slashes-append [] rest = ground arith
slashes-append (c ∷ q) rest = ground (arith, slashes-append q rest)

-- What is inside a directory goes before it.
pub goes_before-Inside :
    (d e : DirMetadata)
    → clean d.target ≡ d.target
    → clean e.target ≡ e.target
    → is_rooted e.target ≡ true
    → Inside d.target e.target
    → goes_before e d ≡ true
unfolding goes_before
goes_before-Inside d e h k r (inl (rest, p)) =
    let n = ap slashes p ∙ slashes-append d.target rest in
    let more : depth d < depth e = rw (h, k) (omega arith) in ground arith
goes_before-Inside d e h k r (inr (inl (q, c, rest, p))) =
    let one : depth d ≡ 1 = ap slashes (h ∙ q) in
    let more : depth e ≡ suc (slashes (c ∷ rest)) = ap slashes (k ∙ p) in
    let some : depth d ≤ depth e = omega arith in
    let above : greater e.target d.target ≡ true = rw (p, q) refl in ground arith
goes_before-Inside d e h k r (inr (inr (q, n))) = absurd cc
