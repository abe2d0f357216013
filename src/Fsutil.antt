-- ===== src/Fsutil.antt =====
-- fsutil/path.go: where the entries of an archive may be written.
pub mod Leads
pub mod Safe
pub mod Below
pub mod Write
pub mod Dirs
use udf.Prelude.{
  ℕ, Bool, true, ◌||◌, Option, none, some, List, [], ◌∷◌, bytes_eq, ◌==◌, if◌then◌else◌,
}
use udf.Reader.{Result, ok, err, escapes_root, unrelated}
use udf.Paths.{slash, dot, dot_dot, has_prefix, clean, join, rel}

-- `strings.TrimPrefix(name, "/")`
abbrev pub trim_slash : List ℕ → List ℕ
trim_slash [] = []
trim_slash (c ∷ s) = if c == slash then s else c ∷ s

-- `strings.HasPrefix(s, "../") || s == ".."`
unfoldable pub leads_out : List ℕ → Bool
leads_out s = has_prefix s (46 ∷ 46 ∷ slash ∷ []) || bytes_eq s dot_dot

-- The test of the path from `root` to `target`.
abbrev pub checked : List ℕ → Option (List ℕ) → Result (List ℕ)
checked target none = err unrelated
checked target (some way) = if leads_out way then err escapes_root else ok target

unfoldable pub resolve_safe_path : List ℕ → List ℕ → Result (List ℕ)
resolve_safe_path root name =
    let clean_name = clean (trim_slash name) in
    let target = join root clean_name in
    if bytes_eq clean_name dot
    then ok root
    else if leads_out clean_name
    then err escapes_root
    else checked target (rel root target)
