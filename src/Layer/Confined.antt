-- ===== src/Layer/Confined.antt =====
-- layer/apply.go: a layer is written below its directory.
use udf.Prelude.{
  ℕ, ◌≡◌, Bool, true, false, Option, none, some, List, [], ◌∷◌, ◌++◌, drop, and-true, bytes_eq,
  Bool-cases, inl, inr,
}
use udf.Reader.{Error, unsupported_entry}
use udf.Paths.{join, base, has_prefix}
use udf.Paths.Elements.{slash_free, plain}
use udf.Paths.Walk.{is_name, names}
use udf.Fsutil.Safe.{Under}
use udf.Fsutil.Below.{Under-trans, join-Under}
use udf.Fsutil.Write.{
  TypeFlag, dir_entry, reg, rega, symlink_entry, link_entry, char_device, block_device, fifo, other,
  Header, DirMetadata, Os, ◌>>=◌, returned, refused,
}
use udf.Fsutil.Write.Confined.{
  Keeps, Keeps-bind, Keeps-bound_seen, Confined, resolved-Keeps, remove_target-Keeps,
  replace_with_dir-Keeps, replace_with_file-Keeps, replace_with_symlink-Keeps,
  replace_with_hardlink-Keeps,
}
use udf.Layer.{
  whiteout_prefix, opaque_whiteout, dir_name, resolved, remove_entries, clear_directory,
  handle_whiteout, apply_type, apply_unless, ended, apply_layer,
}

module _ {S Body : Type 0} (os : Os S Body) (I : S → Type 0) (output_dir : List ℕ)
    (confined : Confined os I output_dir) where
  returned-Keeps : {A : Type 0} (a : A) → Keeps {A = A} I (returned a)
  returned-Keeps a = record { after = λ s i. i }

  refused-Keeps : {A : Type 0} (e : Error) → Keeps {A = A} I (refused e)
  refused-Keeps e = record { after = λ s i. i }

  remove_entries-Keeps :
      (target : List ℕ) (es : List (List ℕ))
      → Under output_dir target
      → names es ≡ true
      → plain es ≡ true
      → Keeps I (remove_entries os output_dir target es)
  unfolding remove_entries
  remove_entries-Keeps target [] u n p = returned-Keeps tt
  remove_entries-Keeps target (e ∷ es) u n p =
      let (one, more) = and-true (is_name e) (names es) n in
      let (free, rest) = and-true (slash_free e) (plain es) p in
      Keeps-bind
        (confined.remove_all (join target e)
          (Under-trans output_dir target (join target e) u (join-Under target e one free)))
        (λ x. remove_entries-Keeps target es u more rest)

  -- The names that `os.ReadDir` lists are those of the directory's files.
  listed-Keeps :
      (target : List ℕ)
      → Under output_dir target
      → Keeps I (os.read_dir target >>= remove_entries os output_dir target)
  unfolding ◌>>=◌
  listed-Keeps target u = record {
    after = λ s i.
        Keeps-bound_seen I _ (os.read_dir target s)
          (λ es found.
            let (n, p) = confined.read_names target s es found in
            remove_entries-Keeps target es u n p)
          ((confined.read_dir target u).after s i);
  }

  clear_directory-Keeps :
      (target : List ℕ) → Under output_dir target → Keeps I (clear_directory os output_dir target)
  unfolding clear_directory
  clear_directory-Keeps target u =
      Keeps-bind (confined.mkdir_all target 493 u) (λ x. listed-Keeps target u)

  handle_whiteout-Keeps : (entry : List ℕ) → Keeps I (handle_whiteout os output_dir entry)
  unfolding handle_whiteout resolved
  handle_whiteout-Keeps entry =
      let b = base entry in
      elim (Bool-cases (has_prefix b whiteout_prefix)) [
        | inr n ↦ rw n (returned-Keeps false)
        | inl w ↦ elim (Bool-cases (bytes_eq b opaque_whiteout)) [
          | inl o ↦
              rw (w, o)
                (resolved-Keeps I output_dir (dir_name entry) _ (λ target u.
                  Keeps-bind (clear_directory-Keeps target u) (λ x. returned-Keeps true)))
          | inr o ↦
              rw (w, o)
                (resolved-Keeps I output_dir (join (dir_name entry) (drop 4 b)) _ (λ target u.
                  Keeps-bind (remove_target-Keeps os I output_dir confined target u)
                    (λ x. returned-Keeps true)))
        ]
      ]

  apply_type-Keeps :
      (target : List ℕ) (hdr : Header) (body : Body) (flag : TypeFlag)
      → Under output_dir target
      → Keeps I (apply_type os output_dir target hdr body flag)
  unfolding apply_type
  apply_type-Keeps target hdr body dir_entry u =
      Keeps-bind (replace_with_dir-Keeps os I output_dir confined target hdr.mode u)
        (λ x. returned-Keeps _)
  apply_type-Keeps target hdr body reg u =
      Keeps-bind (replace_with_file-Keeps os I output_dir confined target hdr body u)
        (λ x. returned-Keeps _)
  apply_type-Keeps target hdr body rega u =
      Keeps-bind (replace_with_file-Keeps os I output_dir confined target hdr body u)
        (λ x. returned-Keeps _)
  apply_type-Keeps target hdr body symlink_entry u =
      Keeps-bind (replace_with_symlink-Keeps os I output_dir confined target hdr u)
        (λ x. returned-Keeps _)
  apply_type-Keeps target hdr body link_entry u =
      Keeps-bind (replace_with_hardlink-Keeps os I output_dir confined target hdr u)
        (λ x. returned-Keeps _)
  apply_type-Keeps target hdr body char_device u = returned-Keeps []
  apply_type-Keeps target hdr body block_device u = returned-Keeps []
  apply_type-Keeps target hdr body fifo u = returned-Keeps []
  apply_type-Keeps target hdr body other u = refused-Keeps unsupported_entry

  apply_unless-Keeps :
      (handled : Bool) (hdr : Header) (body : Body)
      → Keeps I (apply_unless os output_dir handled hdr body)
  unfolding apply_unless resolved
  apply_unless-Keeps true hdr body = returned-Keeps []
  apply_unless-Keeps false hdr body =
      resolved-Keeps I output_dir hdr.entry_name _
        (λ target u. apply_type-Keeps target hdr body hdr.typeflag u)

  ended-Keeps :
      (at_end : Option Error) (dirs : List DirMetadata) → Keeps I (ended os output_dir at_end dirs)
  ended-Keeps none dirs = returned-Keeps dirs
  ended-Keeps (some e) dirs = refused-Keeps e

  layer-Keeps :
      (entries : List (Header × Body)) (at_end : Option Error) (dirs : List DirMetadata)
      → Keeps I (apply_layer os output_dir entries at_end dirs)
  unfolding apply_layer
  layer-Keeps [] at_end dirs = ended-Keeps at_end dirs
  layer-Keeps ((hdr, body) ∷ entries) at_end dirs =
      Keeps-bind (handle_whiteout-Keeps hdr.entry_name) (λ handled.
        Keeps-bind (apply_unless-Keeps handled hdr body)
          (λ made. layer-Keeps entries at_end (dirs ++ made)))

  -- What is true of the file system and stays true in calls on the output directory itself and on
  -- paths below it, and in the making of the parents of these, is still true after a layer, be it applied whole or up to an
  -- error, whatever its entries are named and its links refer to.
  pub apply_layer-Keeps :
      (entries : List (Header × Body)) (at_end : Option Error) (dirs : List DirMetadata) (s : S)
      → I s
      → I (apply_layer os output_dir entries at_end dirs s).0
  apply_layer-Keeps entries at_end dirs s i = (layer-Keeps entries at_end dirs).after s i
