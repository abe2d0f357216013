-- ===== src/Layer/Image/Confined.antt =====
-- image/apply.go: what the layers of an image write is below the output directory.
use udf.Prelude.{ℕ, Option, List, [], ◌∷◌, bytes_eq, Bool-cases, inl, inr}
use udf.Reader.{Error, Result, ok, err}
use udf.Fsutil.Safe.{Under}
use udf.Fsutil.Write.{Header, DirMetadata, Os}
use udf.Fsutil.Write.Confined.{Keeps, Confined}
use udf.Fsutil.Dirs.Confined.{DirsUnder, apply_dir_metadata-Keeps}
use udf.Layer.{apply_layer}
use udf.Layer.Confined.{apply_layer-Keeps}
use udf.Layer.Dirs.{
  Gives, Gives-bind, Keeps-given, apply_layer-Gives, returned-Gives, refused-Gives,
}
use udf.Layer.Image.{set_state, set_states, apply_layers, finish, apply_image_per_layer}

set_state-DirsUnder :
    (root : List ℕ) (state : List DirMetadata) (d : DirMetadata)
    → DirsUnder root state
    → Under root d.target
    → DirsUnder root (set_state state d)
set_state-DirsUnder root [] d us u = (u, tt)
set_state-DirsUnder root (e ∷ state) d (v, us) u = elim (Bool-cases (bytes_eq e.target d.target)) [
  | inl same ↦ rw same (u, us)
  | inr other ↦ rw other (v, set_state-DirsUnder root state d us u)
]

set_states-DirsUnder :
    (root : List ℕ) (state dirs : List DirMetadata)
    → DirsUnder root state
    → DirsUnder root dirs
    → DirsUnder root (set_states state dirs)
set_states-DirsUnder root state [] us vs = us
set_states-DirsUnder root state (d ∷ dirs) us (v, vs) =
    set_states-DirsUnder root (set_state state d) dirs (set_state-DirsUnder root state d us v) vs

module _ {S Body : Type 0} (os : Os S Body) (I : S → Type 0) (output_dir : List ℕ)
    (confined : Confined os I output_dir) where
  one-Keeps :
      (entries : List (Header × Body)) (at_end : Option Error)
      → Keeps I (apply_layer os output_dir entries at_end [])
  one-Keeps entries at_end = record {
    after = apply_layer-Keeps os I output_dir confined entries at_end [];
  }

  layers-Gives :
      (layers : List (Result (List (Header × Body) × Option Error))) (state : List DirMetadata)
      → DirsUnder output_dir state
      → Gives (DirsUnder output_dir) (apply_layers os output_dir layers state)
  unfolding apply_layers
  layers-Gives [] state us = returned-Gives state us
  layers-Gives (err e ∷ layers) state us = refused-Gives e
  layers-Gives (ok (entries, at_end) ∷ layers) state us =
      Gives-bind (apply_layer-Gives os output_dir entries at_end [] tt) (λ dirs vs.
        layers-Gives layers (set_states state dirs)
          (set_states-DirsUnder output_dir state dirs us vs))

  layers-Keeps :
      (layers : List (Result (List (Header × Body) × Option Error))) (state : List DirMetadata)
      → Keeps I (apply_layers os output_dir layers state)
  unfolding apply_layers
  layers-Keeps [] state = record { after = λ s i. i }
  layers-Keeps (err e ∷ layers) state = record { after = λ s i. i }
  layers-Keeps (ok (entries, at_end) ∷ layers) state =
      Keeps-given (one-Keeps entries at_end) (apply_layer-Gives os output_dir entries at_end [] tt)
        (λ dirs vs. layers-Keeps layers (set_states state dirs))

  finish-Keeps :
      (state : List DirMetadata) → DirsUnder output_dir state → Keeps I (finish os output_dir state)
  finish-Keeps [] us = record { after = λ s i. i }
  finish-Keeps (d ∷ dirs) us = apply_dir_metadata-Keeps os I output_dir confined (d ∷ dirs) us

  -- What is true of the file system and stays true in calls on the output directory itself and on
  -- paths below it, and in the making of the parents of these, is still true after the layers of an image and the modes and
  -- times of their directories, be they all applied or up to an error.
  pub apply_image_per_layer-Keeps :
      (layers : List (Result (List (Header × Body) × Option Error))) (s : S)
      → I s
      → I (apply_image_per_layer os output_dir layers s).0
  unfolding apply_image_per_layer
  apply_image_per_layer-Keeps layers s i =
      (Keeps-given (layers-Keeps layers []) (layers-Gives layers [] tt) finish-Keeps).after s i
