-- ===== src/Fsutil/Dirs/Total.antt =====
-- fsutil/write.go: `ApplyDirMetadata` where a directory whose mode was set may close its inside.
use mathlib.Core.List.{Permᴰ}
use udf.Prelude.{
  ℕ, ◌≡◌, refl, true, false, List, [], ◌∷◌, ◌++◌, ap, sym, subst, ◌∙◌, append_assoc, append-nil,
  Bool-cases, inl, inr,
}
use udf.Reader.{ok}
use udf.Paths.{clean, is_rooted}
use udf.Fsutil.Write.{Info, DirMetadata, Os, ◌>>=◌, perm}
use udf.Fsutil.Dirs.{goes_before, sort, set_dir, set_dirs, apply_dir_metadata}
use udf.Fsutil.Dirs.Order.{
  Inside, InOrder, AllBehind, goes_before-Inside, goes_before_back, sort-InOrder, sort-Perm,
}

-- What is recorded of calls: a path, and the mode or the time that it was given.
abbrev pub Marks : Type 0
Marks = List (List ℕ × ℕ)

-- No path of the record has `p` inside.
abbrev pub AllOutside : Marks → List ℕ → Type 0
AllOutside [] p = Unit {0}
AllOutside ((q, n) ∷ marks) p = ¬ Inside q p × AllOutside marks p

-- A file system that records the modes and times it sets, in their order. The calls of
-- `ApplyDirMetadata` succeed on every directory, unless it is inside one whose mode was set, which
-- may have closed it.
pub record Closing {S Body : Type 0} (os : Os S Body) (modes times : S → Marks) : Type 0 where
  pub lstat :
      (p : List ℕ) (s : S)
      → AllOutside (modes s) p
      → (t : S) × (info : Info) × (os.lstat p s ≡ (t, ok info))
        × (info.is_dir ≡ true)
        × (modes t ≡ modes s)
        × (times t ≡ times s)
  pub chmod :
      (p : List ℕ) (n : ℕ) (s : S)
      → AllOutside (modes s) p
      → (t : S) × (os.chmod p n s ≡ (t, ok tt))
        × (modes t ≡ modes s ++ (p, n) ∷ [])
        × (times t ≡ times s)
  pub chtimes :
      (p : List ℕ) (n : ℕ) (s : S)
      → AllOutside (modes s) p
      → (t : S) × (os.chtimes p n s ≡ (t, ok tt))
        × (modes t ≡ modes s)
        × (times t ≡ times s ++ (p, n) ∷ [])

-- The paths of directories are clean and absolute.
abbrev pub Absolute : List DirMetadata → Type 0
Absolute [] = Unit {0}
Absolute (d ∷ dirs) = (clean d.target ≡ d.target) × (is_rooted d.target ≡ true) × Absolute dirs

abbrev pub mode_marks : List DirMetadata → Marks
mode_marks [] = []
mode_marks (d ∷ dirs) = (d.target, perm d.mode) ∷ mode_marks dirs

abbrev pub time_marks : List DirMetadata → Marks
time_marks [] = []
time_marks (d ∷ dirs) = (d.target, d.mod_time) ∷ time_marks dirs

abbrev AllOpen : Marks → List DirMetadata → Type 0
AllOpen marks [] = Unit {0}
AllOpen marks (d ∷ dirs) = AllOutside marks d.target × AllOpen marks dirs

AllOutside-append :
    (marks more : Marks) (p : List ℕ)
    → AllOutside marks p
    → AllOutside more p
    → AllOutside (marks ++ more) p
AllOutside-append [] more p u v = v
AllOutside-append (m ∷ marks) more p (n, u) v = (n, AllOutside-append marks more p u v)

behind-Inside :
    (d e : DirMetadata)
    → clean d.target ≡ d.target
    → clean e.target ≡ e.target
    → is_rooted e.target ≡ true
    → goes_before e d ≡ false
    → ¬ Inside d.target e.target
behind-Inside d e h k r b i = let f = goes_before-Inside d e h k r i in absurd cc

behind-AllOpen :
    (d : DirMetadata) (marks : Marks) (dirs : List DirMetadata)
    → clean d.target ≡ d.target
    → Absolute dirs
    → AllBehind d dirs
    → AllOpen marks dirs
    → AllOpen (marks ++ (d.target, perm d.mode) ∷ []) dirs
behind-AllOpen d marks [] h a b u = tt
behind-AllOpen d marks (e ∷ dirs) h (k, r, a) (f, b) (v, u) = (
  AllOutside-append marks _ e.target v (behind-Inside d e h k r f, tt),
  behind-AllOpen d marks dirs h a b u,
)

Absolute-Perm : {dirs more : List DirMetadata} → Permᴰ dirs more → Absolute dirs → Absolute more
Absolute-Perm Permᴰ.nil a = a
Absolute-Perm (Permᴰ.cons {l₁ = l} e p) (h, r, a) = (
  subst (λ d. clean d.target ≡ d.target) e h,
  subst (λ d. is_rooted d.target ≡ true) e r,
  Absolute-Perm p a,
)
Absolute-Perm (Permᴰ.swap e f) (h, r, (k, q, a)) = (
  subst (λ d. clean d.target ≡ d.target) f k,
  subst (λ d. is_rooted d.target ≡ true) f q,
  (subst (λ d. clean d.target ≡ d.target) e h, subst (λ d. is_rooted d.target ≡ true) e r, a),
)
Absolute-Perm (Permᴰ.trans p q) a = Absolute-Perm q (Absolute-Perm p a)

goes_before_self : (d : DirMetadata) → goes_before d d ≡ false
goes_before_self d = elim (Bool-cases (goes_before d d)) [
  | inl first ↦ goes_before_back d d first
  | inr later ↦ later
]

all_open : (dirs : List DirMetadata) → AllOpen [] dirs
all_open [] = tt
all_open (d ∷ dirs) = (tt, all_open dirs)

module _ {S Body : Type 0} (os : Os S Body) (modes times : S → Marks)
    (closing : Closing os modes times) where
  set_dir-marks :
      (d : DirMetadata) (s : S)
      → ¬ Inside d.target d.target
      → AllOutside (modes s) d.target
      → (t : S) × (set_dir os d s ≡ (t, ok tt))
        × (modes t ≡ modes s ++ (d.target, perm d.mode) ∷ [])
        × (times t ≡ times s ++ (d.target, d.mod_time) ∷ [])
  unfolding set_dir ◌>>=◌
  set_dir-marks d s n u =
      let (a, info, found, is_dir, ma, ta) = closing.lstat d.target s u in
      let (b, changed, mb, tb) = closing.chmod d.target (perm d.mode) a (rw ma u) in
      let mb' = mb ∙ ap (λ m. m ++ (d.target, perm d.mode) ∷ []) ma in
      let reach : AllOutside (modes b) d.target =
        rw mb' (AllOutside-append (modes s) _ d.target u (n, tt)) in
      let (c, touched, mc, tc) = closing.chtimes d.target d.mod_time b reach in
      (
        c,
        rw (found, is_dir, changed, touched) refl,
        mc ∙ mb',
        tc ∙ ap (λ m. m ++ (d.target, d.mod_time) ∷ []) (tb ∙ ta),
      )

  set_dirs-marks :
      (dirs : List DirMetadata) (s : S)
      → Absolute dirs
      → InOrder dirs
      → AllOpen (modes s) dirs
      → (t : S) × (set_dirs os dirs s ≡ (t, ok tt))
        × (modes t ≡ modes s ++ mode_marks dirs)
        × (times t ≡ times s ++ time_marks dirs)
  unfolding set_dirs ◌>>=◌
  set_dirs-marks [] s a o u = (s, refl, sym (append-nil (modes s)), sym (append-nil (times s)))
  set_dirs-marks (d ∷ dirs) s (h, r, a) (b, o) (v, u) =
      let n = behind-Inside d d h h r (goes_before_self d) in
      let (t, one, mt, tt') = set_dir-marks d s n v in
      let reach : AllOpen (modes t) dirs = rw mt (behind-AllOpen d (modes s) dirs h a b u) in
      let (end, rest, me, te) = set_dirs-marks dirs t a o reach in
      (
        end,
        rw (one, rest) refl,
        me ∙ ap (λ m. m ++ mode_marks dirs) mt ∙ append_assoc (modes s) _ _,
        te ∙ ap (λ m. m ++ time_marks dirs) tt' ∙ append_assoc (times s) _ _,
      )

  -- On a file system where every path is a directory and calls succeed but inside a directory whose
  -- mode was set before, where they may fail, and where none was set yet, `ApplyDirMetadata` on clean
  -- absolute paths returns no error, and sets the mode and the time of each directory as often as it
  -- was given, in one order for both, and of no other.
  pub apply_dir_metadata_total :
      (dirs : List DirMetadata) (s : S)
      → Absolute dirs
      → modes s ≡ []
      → times s ≡ []
      → (t : S) × (order : List DirMetadata) × (apply_dir_metadata os dirs s ≡ (t, ok tt))
        × Permᴰ dirs order
        × (modes t ≡ mode_marks order)
        × (times t ≡ time_marks order)
  unfolding apply_dir_metadata
  apply_dir_metadata_total dirs s a m n =
      let p = sort-Perm dirs in
      let reach : AllOpen (modes s) (sort dirs) = rw m (all_open (sort dirs)) in
      let (t, run, mt, nt) =
        set_dirs-marks (sort dirs) s (Absolute-Perm p a) (sort-InOrder dirs) reach in
      (
        t,
        sort dirs,
        run,
        p,
        mt ∙ ap (λ l. l ++ mode_marks (sort dirs)) m,
        nt ∙ ap (λ l. l ++ time_marks (sort dirs)) n,
      )
