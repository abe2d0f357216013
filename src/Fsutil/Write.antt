-- ===== src/Fsutil/Write.antt =====
-- fsutil/write.go: what is done to the file system for an entry of an archive. The system calls are
-- a parameter: functions of a state, which a call leaves changed also where it fails.
pub mod Confined
use udf.Prelude.{ℕ, Bool, true, false, List, [], ◌∷◌, if◌then◌else◌, bit_and, ◌==◌}
use udf.Reader.{Error, missing, no_link, Result, ok, err}
use Prim.Native.Nat.{bit_or}
use udf.Paths.{dir}
use udf.Fsutil.{resolve_safe_path}

-- `os.FileInfo`, as far as it is read.
pub record Info : Type 0 where
  pub is_dir : Bool
  pub mode : ℕ
  pub mod_time : ℕ

-- `tar.Header`, as far as it is read; `mode` is that of `hdr.FileInfo()`.
pub data TypeFlag : Type 0 where
  dir_entry reg rega symlink_entry link_entry char_device block_device fifo other : TypeFlag

pub record Header : Type 0 where
  pub entry_name : List ℕ
  pub linkname : List ℕ
  pub typeflag : TypeFlag
  pub mode : ℕ
  pub mod_time : ℕ

pub record DirMetadata : Type 0 where
  pub target : List ℕ
  pub mode : ℕ
  pub mod_time : ℕ

-- A call that may change the state and then returns a result.
abbrev pub Call : Type 0 → Type 0 → Type 0
Call S A = S → S × Result A

infixl 10 ◌>>=◌ ◌>>◌
-- `if err != nil { return err }`
abbrev pub bound : {B : Type 0} {S A : Type 0} → S × Result A → (A → Call S B) → S × Result B
bound (s, err e) next = (s, err e)
bound (s, ok a) next = next a s

unfoldable pub ◌>>=◌ : {B : Type 0} {S A : Type 0} → Call S A → (A → Call S B) → Call S B
(call >>= next) s = bound (call s) next

abbrev pub ◌>>◌ : {B : Type 0} {S A : Type 0} → Call S A → Call S B → Call S B
call >> next = call >>= λ _. next

-- `os.IsNotExist` and `supportsHardlinkFallback`
abbrev pub is_missing : Error → Bool
is_missing missing = true
is_missing _ = false

abbrev pub is_no_link : Error → Bool
is_no_link no_link = true
is_no_link _ = false

-- The system calls. `copy_into` is `io.CopyBuffer` into the file that `open_file` opened, `close` its
-- `Close`, and `copy_from` an `io.Copy` from a file that `open_source` opened.
pub record Os (S Body : Type 0) : Type 0 where
  pub lstat : List ℕ → Call S Info
  pub chmod : List ℕ → ℕ → Call S (Unit {0})
  pub chtimes : List ℕ → ℕ → Call S (Unit {0})
  pub remove_all : List ℕ → Call S (Unit {0})
  pub mkdir_all : List ℕ → ℕ → Call S (Unit {0})
  pub open_file : List ℕ → ℕ → Call S (Unit {0})
  pub copy_into : List ℕ → Body → Call S (Unit {0})
  pub close : List ℕ → Call S (Unit {0})
  pub symlink : List ℕ → List ℕ → Call S (Unit {0})
  pub link : List ℕ → List ℕ → Call S (Unit {0})
  pub open_source : List ℕ → Call S Info
  pub copy_from : List ℕ → List ℕ → Call S (Unit {0})
  pub read_dir : List ℕ → Call S (List (List ℕ))

-- `mode.Perm()` and `ensureTraversableMode`
abbrev pub perm : ℕ → ℕ
perm mode = bit_and mode 511

abbrev pub ensure_traversable_mode : ℕ → ℕ
ensure_traversable_mode mode = bit_or mode 448

abbrev pub returned : {S A : Type 0} → A → Call S A
returned a s = (s, ok a)

abbrev pub refused : {S A : Type 0} → Error → Call S A
refused e s = (s, err e)

module _ {S Body : Type 0} (os : Os S Body) where
  unfoldable pub ensure_parent_dir : List ℕ → Call S (Unit {0})
  ensure_parent_dir target = os.mkdir_all (dir target) 493

  -- What `os.Lstat` decides in `ReplaceWithDir`.
  abbrev pub over_entry : List ℕ → ℕ → S × Result Info → S × Result (Unit {0})
  over_entry target mode (s, err e) =
      if is_missing e
      then os.mkdir_all target (ensure_traversable_mode (perm mode)) s
      else (s, err e)
  over_entry target mode (s, ok info) =
      if info.is_dir
      then os.chmod target (ensure_traversable_mode (perm mode)) s
      else (os.remove_all target >> os.mkdir_all target (ensure_traversable_mode (perm mode))) s

  unfoldable pub replace_with_dir : List ℕ → ℕ → Call S (Unit {0})
  replace_with_dir target mode s = over_entry target mode (os.lstat target s)

  -- `os.RemoveAll`, where a file that does not exist is no error.
  abbrev pub unless_missing : S × Result (Unit {0}) → S × Result (Unit {0})
  unless_missing (s, err e) = (s, if is_missing e then ok tt else err e)
  unless_missing (s, ok x) = (s, ok x)

  abbrev pub remove_target : List ℕ → Call S (Unit {0})
  remove_target target s = unless_missing (os.remove_all target s)

  unfoldable pub apply_file_metadata : List ℕ → Header → Call S (Unit {0})
  apply_file_metadata target hdr = os.chmod target (perm hdr.mode) >> os.chtimes target hdr.mod_time

  -- `defer f.Close()`: the file is closed on every way out.
  abbrev pub with_close : List ℕ → S × Result (Unit {0}) → S × Result (Unit {0})
  with_close target (s, r) = ((os.close target s).0, r)

  unfoldable pub deferred_close : List ℕ → Call S (Unit {0}) → Call S (Unit {0})
  deferred_close target call s = with_close target (call s)

  unfoldable pub replace_with_file : List ℕ → Header → Body → Call S (Unit {0})
  replace_with_file target hdr body = do
    ensure_parent_dir target
    remove_target target
    os.open_file target (perm hdr.mode)
    deferred_close target
        (do os.copy_into target body; os.close target; apply_file_metadata target hdr)

  unfoldable pub replace_with_symlink : List ℕ → Header → Call S (Unit {0})
  replace_with_symlink target hdr = do
    ensure_parent_dir target
    remove_target target
    os.symlink hdr.linkname target

  -- A failed copy closes the new file, and returns the error of the copy.
  abbrev pub closed_copy : List ℕ → S × Result (Unit {0}) → S × Result (Unit {0})
  closed_copy target (s, err e) = ((os.close target s).0, err e)
  closed_copy target (s, ok _) = os.close target s

  unfoldable pub copy_file : List ℕ → List ℕ → Call S (Unit {0})
  copy_file source target = do
    info ← os.open_source source
    deferred_close source (do
      os.open_file target (perm info.mode)
      λ s. closed_copy target (os.copy_from source target s)
      os.chtimes target info.mod_time)

  -- Where the file system does not link, the file is copied.
  abbrev pub or_copy : List ℕ → List ℕ → S × Result (Unit {0}) → S × Result (Unit {0})
  or_copy source target (s, err e) = if is_no_link e then copy_file source target s else (s, err e)
  or_copy source target (s, ok x) = (s, ok x)

  unfoldable pub replace_with_hardlink : List ℕ → List ℕ → Header → Call S (Unit {0})
  replace_with_hardlink root target hdr = do
    source ← λ s. (s, resolve_safe_path root hdr.linkname)
    ensure_parent_dir target
    remove_target target
    λ s. or_copy source target (os.link source target s)
