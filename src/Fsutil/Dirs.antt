-- ===== src/Fsutil/Dirs.antt =====
-- fsutil/write.go: `ApplyDirMetadata`, which sets the modes and times of directories at the end.
-- `sort.Slice` is an insertion sort; of directories that its order does not tell apart, which have
-- the same path, it does not say which one it puts first.
pub mod Confined
pub mod Order
pub mod Total
use udf.Prelude.{ℕ, zero, suc, ◌+◌, Bool, true, false, List, [], ◌∷◌, ltb, ◌==◌, if◌then◌else◌}
use udf.Reader.{Error, Result, ok, err}
use udf.Paths.{slash, clean}
use udf.Fsutil.Write.{Info, DirMetadata, Call, Os, ◌>>=◌, ◌>>◌, returned, refused, perm, is_missing}

-- `strings.Count(s, "/")`
abbrev pub slashes : List ℕ → ℕ
slashes [] = 0
slashes (c ∷ s) = if c == slash then suc (slashes s) else slashes s

abbrev pub depth : DirMetadata → ℕ
depth d = slashes (clean d.target)

-- `a > b` of two strings.
abbrev pub greater : List ℕ → List ℕ → Bool
greater [] b = false
greater (x ∷ a) [] = true
greater (x ∷ a) (y ∷ b) = if x == y then greater a b else ltb y x

-- The order that `sort.Slice` is given.
unfoldable pub goes_before : DirMetadata → DirMetadata → Bool
goes_before a b = if depth a == depth b then greater a.target b.target else ltb (depth b) (depth a)

abbrev pub insert : DirMetadata → List DirMetadata → List DirMetadata
insert d [] = d ∷ []
insert d (e ∷ dirs) = if goes_before d e then d ∷ e ∷ dirs else e ∷ insert d dirs

unfoldable pub sort : List DirMetadata → List DirMetadata
sort [] = []
sort (d ∷ dirs) = insert d (sort dirs)

module _ {S Body : Type 0} (os : Os S Body) where
  -- What `os.Lstat` decides of one directory.
  abbrev pub set_found : DirMetadata → S × Result Info → S × Result (Unit {0})
  set_found d (s, err e) = (s, if is_missing e then ok tt else err e)
  set_found d (s, ok info) =
      if info.is_dir
      then (os.chmod d.target (perm d.mode) >> os.chtimes d.target d.mod_time) s
      else (s, ok tt)

  unfoldable pub set_dir : DirMetadata → Call S (Unit {0})
  set_dir d s = set_found d (os.lstat d.target s)

  unfoldable pub set_dirs : List DirMetadata → Call S (Unit {0})
  set_dirs [] = returned tt
  set_dirs (d ∷ dirs) = set_dir d >> set_dirs dirs

  unfoldable pub apply_dir_metadata : List DirMetadata → Call S (Unit {0})
  apply_dir_metadata dirs = set_dirs (sort dirs)
