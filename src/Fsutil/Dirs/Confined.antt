-- ===== src/Fsutil/Dirs/Confined.antt =====
-- fsutil/write.go: `ApplyDirMetadata` on directories below a root.
use udf.Prelude.{ℕ, List, [], ◌∷◌, Bool-cases, inl, inr}
use udf.Reader.{Result, ok, err}
use udf.Fsutil.Safe.{Under}
use udf.Fsutil.Write.{Info, DirMetadata, Os, perm}
use udf.Fsutil.Write.Confined.{Keeps, Keeps-bind, Confined}
use udf.Fsutil.Dirs.{goes_before, insert, sort, set_found, set_dir, set_dirs, apply_dir_metadata}

abbrev pub DirsUnder : List ℕ → List DirMetadata → Type 0
DirsUnder root [] = Unit {0}
DirsUnder root (d ∷ dirs) = Under root d.target × DirsUnder root dirs

insert-DirsUnder :
    (root : List ℕ) (d : DirMetadata) (dirs : List DirMetadata)
    → Under root d.target
    → DirsUnder root dirs
    → DirsUnder root (insert d dirs)
insert-DirsUnder root d [] u us = (u, us)
insert-DirsUnder root d (e ∷ dirs) u (v, us) = elim (Bool-cases (goes_before d e)) [
  | inl first ↦ rw first (u, (v, us))
  | inr later ↦ rw later (v, insert-DirsUnder root d dirs u us)
]

sort-DirsUnder :
    (root : List ℕ) (dirs : List DirMetadata) → DirsUnder root dirs → DirsUnder root (sort dirs)
unfolding sort
sort-DirsUnder root [] us = us
sort-DirsUnder root (d ∷ dirs) (u, us) =
    insert-DirsUnder root d (sort dirs) u (sort-DirsUnder root dirs us)

module _ {S Body : Type 0} (os : Os S Body) (I : S → Type 0) (root : List ℕ)
    (confined : Confined os I root) where
  set_found-Keeps :
      (d : DirMetadata) (r : S × Result Info) → Under root d.target → I r.0 → I (set_found os d r).0
  set_found-Keeps d (s, err e) u i = i
  set_found-Keeps d (s, ok info) u i = elim (Bool-cases info.is_dir) [
    | inl is_dir ↦ rw is_dir (
        (Keeps-bind (confined.chmod d.target (perm d.mode) u)
            (λ x. confined.chtimes d.target d.mod_time u)).after
          s i)
    | inr no_dir ↦ rw no_dir i
  ]

  set_dirs-Keeps : (dirs : List DirMetadata) → DirsUnder root dirs → Keeps I (set_dirs os dirs)
  unfolding set_dirs set_dir
  set_dirs-Keeps [] us = record { after = λ s i. i }
  set_dirs-Keeps (d ∷ dirs) (u, us) =
      Keeps-bind
        (record { after = λ s i. set_found-Keeps d _ u ((confined.lstat d.target u).after s i) })
        (λ x. set_dirs-Keeps dirs us)

  pub apply_dir_metadata-Keeps :
      (dirs : List DirMetadata) → DirsUnder root dirs → Keeps I (apply_dir_metadata os dirs)
  unfolding apply_dir_metadata
  apply_dir_metadata-Keeps dirs us = set_dirs-Keeps (sort dirs) (sort-DirsUnder root dirs us)
