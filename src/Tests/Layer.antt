-- ===== src/Tests/Layer.antt =====
-- fsutil and layer: runs and witnesses.
use udf.Prelude.{ℕ, ◌≡◌, refl, subst, true, Option, none, List, [], ◌∷◌, codes, bytes_eq}
use udf.Reader.{Error, missing, escapes_root, Result, ok, err}
use udf.Paths.{clean, join, rel, base, dir, parts, split, join_slash, walk, kind, has_prefix}
use udf.Paths.Elements.{plain}
use udf.Paths.Walk.{climbs, names}
use udf.Fsutil.{leads_out, resolve_safe_path}
use udf.Fsutil.Safe.{Under, resolve_safe_path-Under, resolve_safe_path-stays}
use udf.Fsutil.Write.{
  TypeFlag, dir_entry, reg, symlink_entry, Header, Info, Call, Os, ◌>>=◌, ensure_parent_dir,
  replace_with_symlink,
}
use udf.Fsutil.Write.Confined.{Confined}
use udf.Layer.{
  resolved, remove_entries, clear_directory, handle_whiteout, apply_type, apply_unless, apply_layer,
}
use udf.Layer.Confined.{apply_layer-Keeps}
use udf.Layer.Image.{apply_image_per_layer}
use udf.Layer.Image.Confined.{apply_image_per_layer-Keeps}

abbrev out : List ℕ
out = codes "/out"

resolved_inside : resolve_safe_path out (codes "/a/./b/../c") ≡ ok (codes "/out/a/c")
unfolding resolve_safe_path leads_out clean join rel parts split join_slash walk kind has_prefix
    bytes_eq
resolved_inside = refl

resolve_safe_path-Under_example : Under out (codes "/out/a/c")
resolve_safe_path-Under_example =
    resolve_safe_path-Under out (codes "/a/./b/../c") (codes "/out/a/c") resolved_inside

resolve_safe_path-stays_example : resolve_safe_path out (codes "a/../../b") ≡ err escapes_root
unfolding climbs split kind bytes_eq
resolve_safe_path-stays_example = resolve_safe_path-stays out (codes "a/../../b") (λ e. cc)

-- A file system that remembers the paths it is called on, and where every file has the same state.
abbrev Log : Type 0
Log = List (List ℕ)

abbrev on : {A : Type 0} → List ℕ → A → Call Log A
on p a log = (p ∷ log, ok a)

abbrev log_on : Result Info → Os Log (List ℕ)
log_on found = record {
  lstat = λ p log. (log, found);
  chmod = λ p mode. on p tt;
  chtimes = λ p time. on p tt;
  remove_all = λ p. on p tt;
  mkdir_all = λ p mode log. (log, ok tt);
  open_file = λ p mode. on p tt;
  copy_into = λ p body. on p tt;
  close = λ p. on p tt;
  symlink = λ linkname p. on p tt;
  link = λ source p. on p tt;
  open_source = λ p log. (log, err missing);
  copy_from = λ source p. on p tt;
  read_dir = λ p log. (log, ok (codes "old" ∷ []));
}

abbrev log_os : Os Log (List ℕ)
log_os = log_on (err missing)

abbrev AllUnder : Log → Type 0
AllUnder [] = Unit {0}
AllUnder (p ∷ log) = Under out p × AllUnder log

old_names :
    (es : List (List ℕ)) → ok (codes "old" ∷ []) ≡ ok es → (names es ≡ true) × (plain es ≡ true)
unfolding kind bytes_eq
old_names es e =
    let h : codes "old" ∷ [] ≡ es = cc in
    subst (λ l. (names l ≡ true) × (plain l ≡ true)) h (refl, refl)

log_on-Confined : (found : Result Info) → Confined (log_on found) AllUnder out
log_on-Confined found = record {
  lstat = λ p u. record { after = λ s i. i };
  chmod = λ p mode u. record { after = λ s i. (u, i) };
  chtimes = λ p time u. record { after = λ s i. (u, i) };
  remove_all = λ p u. record { after = λ s i. (u, i) };
  mkdir_all = λ p mode u. record { after = λ s i. i };
  mkdir_parent = λ p mode u. record { after = λ s i. i };
  open_file = λ p mode u. record { after = λ s i. (u, i) };
  copy_into = λ p body u. record { after = λ s i. (u, i) };
  close = λ p u. record { after = λ s i. (u, i) };
  symlink = λ linkname p u. record { after = λ s i. (u, i) };
  link = λ source p v u. record { after = λ s i. (u, i) };
  open_source = λ p u. record { after = λ s i. i };
  copy_from = λ source p v u. record { after = λ s i. (u, i) };
  read_dir = λ p u. record { after = λ s i. i };
  read_names = λ p s es e. old_names es e;
}

abbrev entry : List ℕ → TypeFlag → Header × List ℕ
entry path flag = (
  record {
    entry_name = path;
    linkname = codes "../../etc";
    typeflag = flag;
    mode = 420;
    mod_time = 7;
  },
  codes "data",
)

-- A whiteout, an opaque one, a link, and a name that escapes, behind which nothing is applied.
abbrev entries : List (Header × List ℕ)
entries =
    entry (codes "a/.wh.b") reg
    ∷ entry (codes "c/.wh..wh..opq") reg
    ∷ entry (codes "d") symlink_entry
    ∷ entry (codes "../e") reg
    ∷ entry (codes "f") reg
    ∷ []

apply_layer_entries : apply_layer log_os out entries none [] [] ≡ (
  codes "/out/d" ∷ codes "/out/d" ∷ codes "/out/c/old" ∷ codes "/out/a/b" ∷ [],
  err escapes_root,
)
unfolding apply_layer handle_whiteout apply_unless apply_type resolved clear_directory
    remove_entries replace_with_symlink ensure_parent_dir ◌>>=◌ resolve_safe_path leads_out clean
    join rel parts split join_slash walk kind has_prefix bytes_eq base dir
apply_layer_entries = refl

apply_layer-Keeps_example : AllUnder (apply_layer log_os out entries none [] []).0
apply_layer-Keeps_example =
    apply_layer-Keeps log_os AllUnder out (log_on-Confined (err missing)) entries none [] [] tt

-- Two layers with the same directory, on a file system where all is a directory.
abbrev layers : List (Result (List (Header × List ℕ) × Option Error))
layers =
    ok (entry (codes "g") dir_entry ∷ entry (codes "g/h") dir_entry ∷ [], none)
    ∷ ok (entry (codes "g") dir_entry ∷ [], none)
    ∷ []

abbrev directory : Result Info
directory = ok (record { is_dir = true; mode = 493; mod_time = 0 })

apply_image_per_layer-Keeps_example :
    AllUnder (apply_image_per_layer (log_on directory) out layers []).0
apply_image_per_layer-Keeps_example =
    apply_image_per_layer-Keeps (log_on directory) AllUnder out (log_on-Confined directory) layers
      [] tt
