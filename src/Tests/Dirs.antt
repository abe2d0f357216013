-- ===== src/Tests/Dirs.antt =====
-- fsutil/write.go: a run of `ApplyDirMetadata` on a file system where modes close directories.
use mathlib.Core.List.{Permᴰ}
use udf.Prelude.{
  ℕ, ◌≡◌, refl, Bool, true, false, ◌||◌, ◌&&◌, List, [], ◌∷◌, ◌++◌, ◌==◌, if◌then◌else◌, Bool-cases,
  inl, inr, arith, ap, codes, bytes_eq,
}
use udf.Reader.{missing, device, ok, err}
use udf.Paths.{slash, clean, parts, split, join_slash, walk, kind}
use udf.Fsutil.Write.{Info, DirMetadata, Call, Os, ◌>>=◌}
use udf.Fsutil.Dirs.{goes_before, sort, set_dir, set_dirs, apply_dir_metadata}
use udf.Fsutil.Dirs.Total.{
  Marks, AllOutside, Closing, mode_marks, time_marks, apply_dir_metadata_total,
}

abbrev Set : Type 0
Set = Marks × Marks

abbrev is_inside : List ℕ → List ℕ → Bool
is_inside [] [] = false
is_inside [] (c ∷ p) = c == slash
is_inside (x ∷ q) [] = false
is_inside (x ∷ q) (y ∷ p) = x == y && is_inside q p

abbrev is_closed : Marks → List ℕ → Bool
is_closed [] p = false
is_closed ((q, n) ∷ marks) p = is_inside q p || is_closed marks p

abbrev unless_closed : {A : Type 0} → List ℕ → (Set → Set) → A → Call Set A
unless_closed p f a s = if is_closed s.0 p then (s, err device) else (f s, ok a)

abbrev directory : Info
directory = record { is_dir = true; mode = 448; mod_time = 0 }

-- All paths are directories, and a mode that is set closes the paths that go on with a slash.
abbrev strict : Os Set (List ℕ)
strict = record {
  lstat = λ p. unless_closed p (λ s. s) directory;
  chmod = λ p n. unless_closed p (λ s. (s.0 ++ (p, n) ∷ [], s.1)) tt;
  chtimes = λ p n. unless_closed p (λ s. (s.0, s.1 ++ (p, n) ∷ [])) tt;
  remove_all = λ p s. (s, ok tt);
  mkdir_all = λ p n s. (s, ok tt);
  open_file = λ p n s. (s, ok tt);
  copy_into = λ p body s. (s, ok tt);
  close = λ p s. (s, ok tt);
  symlink = λ linkname p s. (s, ok tt);
  link = λ source p s. (s, ok tt);
  open_source = λ p s. (s, err missing);
  copy_from = λ source p s. (s, ok tt);
  read_dir = λ p s. (s, ok []);
}

is_inside-Inside : (q p : List ℕ) → is_inside q p ≡ true → (rest : List ℕ) × (p ≡ q ++ slash ∷ rest)
is_inside-Inside [] [] h = absurd cc
is_inside-Inside [] (c ∷ p) h = (p, ap (λ x. x ∷ p) (ground arith))
is_inside-Inside (x ∷ q) [] h = absurd cc
is_inside-Inside (x ∷ q) (y ∷ p) h =
    let (rest, e) = is_inside-Inside q p (ground arith) in
    let same : x ≡ y = ground arith in (rest, cc)

reachable : (marks : Marks) (p : List ℕ) → AllOutside marks p → is_closed marks p ≡ false
reachable [] p u = refl
reachable ((q, n) ∷ marks) p (out, u) = elim (Bool-cases (is_inside q p)) [
  | inl inside ↦ absurd (out (inl (is_inside-Inside q p inside)))
  | inr outside ↦ rw outside (reachable marks p u)
]

strict-Closing : Closing strict (λ s. s.0) (λ s. s.1)
strict-Closing = record {
  lstat = λ p s u. (s, directory, rw (reachable s.0 p u) refl, refl, refl, refl);
  chmod = λ p n s u. ((s.0 ++ (p, n) ∷ [], s.1), rw (reachable s.0 p u) refl, refl, refl);
  chtimes = λ p n s u. ((s.0, s.1 ++ (p, n) ∷ []), rw (reachable s.0 p u) refl, refl, refl);
}

abbrev at : List ℕ → DirMetadata
at path = record { target = path; mode = 64; mod_time = 5 }

-- A directory comes before those inside it, and the root before all.
abbrev dirs : List DirMetadata
dirs = at (codes "/") ∷ at (codes "/g") ∷ at (codes "/g/h") ∷ at (codes "/k") ∷ []

set_in_order : apply_dir_metadata strict dirs ([], []) ≡ (
  (
    (codes "/g/h", 64) ∷ (codes "/k", 64) ∷ (codes "/g", 64) ∷ (codes "/", 64) ∷ [],
    (codes "/g/h", 5) ∷ (codes "/k", 5) ∷ (codes "/g", 5) ∷ (codes "/", 5) ∷ [],
  ),
  ok tt,
)
unfolding apply_dir_metadata set_dirs set_dir sort goes_before ◌>>=◌ clean parts split join_slash
    walk kind bytes_eq
set_in_order = refl

-- Parents first, the call on what is inside the first directory fails.
closed_early :
    set_dirs strict (at (codes "/g") ∷ at (codes "/g/h") ∷ []) ([], [])
    ≡ (((codes "/g", 64) ∷ [], (codes "/g", 5) ∷ []), err device)
unfolding set_dirs set_dir ◌>>=◌
closed_early = refl

apply_dir_metadata_total_example :
    (t : Set) × (order : List DirMetadata) × (apply_dir_metadata strict dirs ([], []) ≡ (t, ok tt))
    × Permᴰ dirs order
    × (t.0 ≡ mode_marks order)
    × (t.1 ≡ time_marks order)
unfolding clean parts split join_slash walk kind bytes_eq
apply_dir_metadata_total_example =
    apply_dir_metadata_total strict (λ s. s.0) (λ s. s.1) strict-Closing dirs ([], [])
      ((refl, refl, (refl, refl, (refl, refl, (refl, refl, tt))))) refl refl
