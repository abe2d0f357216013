-- ===== src/Layer/Image.antt =====
-- image/apply.go: `applyImagePerLayer`, the layers of an image one after the other.
pub mod Confined
use udf.Prelude.{ℕ, Bool, Option, none, some, List, [], ◌∷◌, bytes_eq, if◌then◌else◌}
use udf.Reader.{Error, Result, ok, err}
use udf.Fsutil.Write.{Header, DirMetadata, Call, Os, ◌>>=◌, returned, refused}
use udf.Fsutil.Dirs.{apply_dir_metadata}
use udf.Layer.{apply_layer}

-- `dirState[dir.Path] = dir`
abbrev pub set_state : List DirMetadata → DirMetadata → List DirMetadata
set_state [] d = d ∷ []
set_state (e ∷ state) d = if bytes_eq e.target d.target then d ∷ state else e ∷ set_state state d

abbrev pub set_states : List DirMetadata → List DirMetadata → List DirMetadata
set_states state [] = state
set_states state (d ∷ dirs) = set_states (set_state state d) dirs

module _ {S Body : Type 0} (os : Os S Body) (output_dir : List ℕ) where
  -- The loop over the layers: the entries of each and the error that they end with, or the error of
  -- its opening.
  unfoldable pub apply_layers :
      List (Result (List (Header × Body) × Option Error))
      → List DirMetadata
      → Call S (List DirMetadata)
  apply_layers [] state = returned state
  apply_layers (err e ∷ layers) state = refused e
  apply_layers (ok (entries, at_end) ∷ layers) state = do
    dirs ← apply_layer os output_dir entries at_end []
    apply_layers layers (set_states state dirs)

  abbrev pub finish : List DirMetadata → Call S (Unit {0})
  finish [] = returned tt
  finish (d ∷ dirs) = apply_dir_metadata os (d ∷ dirs)

  unfoldable pub apply_image_per_layer :
      List (Result (List (Header × Body) × Option Error)) → Call S (Unit {0})
  apply_image_per_layer layers = do state ← apply_layers layers []; finish state
