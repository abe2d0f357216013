-- ===== src/Layer.antt =====
-- layer/apply.go and layer/whiteout.go: the entries of one image layer, put into a directory.
pub mod Confined
pub mod Dirs
pub mod Image
use udf.Prelude.{
  ℕ, Bool, true, false, not, Option, none, some, List, [], ◌∷◌, ◌++◌, drop, bytes_eq, codes,
  if◌then◌else◌,
}
use udf.Reader.{Error, Result, ok, err, unsupported_entry}
use udf.Paths.{dot, has_prefix, base, dir, join}
use udf.Fsutil.{resolve_safe_path}
use udf.Fsutil.Write.{
  TypeFlag, dir_entry, reg, rega, symlink_entry, link_entry, char_device, block_device, fifo, other,
  Header, DirMetadata, Call, Os, ◌>>=◌, ◌>>◌, returned, refused, remove_target, replace_with_dir,
  replace_with_file, replace_with_symlink, replace_with_hardlink,
}

abbrev pub whiteout_prefix : List ℕ
whiteout_prefix = codes ".wh."

abbrev pub opaque_whiteout : List ℕ
opaque_whiteout = codes ".wh..wh..opq"

-- `dirName`, which is empty for `.`.
abbrev pub dir_name : List ℕ → List ℕ
dir_name entry = if bytes_eq (dir entry) dot then [] else dir entry

module _ {S Body : Type 0} (os : Os S Body) (output_dir : List ℕ) where
  unfoldable pub resolved : List ℕ → Call S (List ℕ)
  resolved entry s = (s, resolve_safe_path output_dir entry)

  unfoldable pub remove_entries : List ℕ → List (List ℕ) → Call S (Unit {0})
  remove_entries target [] = returned tt
  remove_entries target (e ∷ es) = os.remove_all (join target e) >> remove_entries target es

  unfoldable pub clear_directory : List ℕ → Call S (Unit {0})
  clear_directory target = do
    os.mkdir_all target 493
    entries ← os.read_dir target
    remove_entries target entries

  -- Whether the entry was a whiteout, which is then carried out.
  unfoldable pub handle_whiteout : List ℕ → Call S Bool
  handle_whiteout entry =
      let b = base entry in
      if not (has_prefix b whiteout_prefix)
      then returned false
      else if bytes_eq b opaque_whiteout
      then (do target ← resolved (dir_name entry); clear_directory target; returned true)
      else (do
        target ← resolved (join (dir_name entry) (drop 4 b))
        remove_target os target
        returned true)

  -- The `switch` on the type of an entry that is no whiteout.
  unfoldable pub apply_type : List ℕ → Header → Body → TypeFlag → Call S (List DirMetadata)
  apply_type target hdr body dir_entry = do
    replace_with_dir os target hdr.mode
    returned (record { target = target; mode = hdr.mode; mod_time = hdr.mod_time } ∷ [])
  apply_type target hdr body reg = replace_with_file os target hdr body >> returned []
  apply_type target hdr body rega = replace_with_file os target hdr body >> returned []
  apply_type target hdr body symlink_entry = replace_with_symlink os target hdr >> returned []
  apply_type target hdr body link_entry =
      replace_with_hardlink os output_dir target hdr >> returned []
  apply_type target hdr body char_device = returned []
  apply_type target hdr body block_device = returned []
  apply_type target hdr body fifo = returned []
  apply_type target hdr body other = refused unsupported_entry

  unfoldable pub apply_unless : Bool → Header → Body → Call S (List DirMetadata)
  apply_unless true hdr body = returned []
  apply_unless false hdr body = do
    target ← resolved hdr.entry_name
    apply_type target hdr body hdr.typeflag

  -- The loop of `ApplyLayer` over the entries that the tar reader finds, and the error that it ends
  -- with, where that is not the end of the archive.
  abbrev pub ended : Option Error → List DirMetadata → Call S (List DirMetadata)
  ended none dirs = returned dirs
  ended (some e) dirs = refused e

  unfoldable pub apply_layer :
      List (Header × Body) → Option Error → List DirMetadata → Call S (List DirMetadata)
  apply_layer [] at_end dirs = ended at_end dirs
  apply_layer ((hdr, body) ∷ entries) at_end dirs = do
    handled ← handle_whiteout hdr.entry_name
    made ← apply_unless handled hdr body
    apply_layer entries at_end (dirs ++ made)
