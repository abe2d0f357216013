-- ===== src/Layer/Dirs.antt =====
-- layer/apply.go: the directories that `ApplyLayer` returns.
use udf.Prelude.{ℕ, ◌≡◌, refl, subst, Bool, true, false, Option, none, some, List, [], ◌∷◌, ◌++◌}
use udf.Reader.{Error, Result, ok, err}
use udf.Fsutil.Safe.{Under, resolve_safe_path-Under}
use udf.Fsutil.Write.{
  TypeFlag, dir_entry, reg, rega, symlink_entry, link_entry, char_device, block_device, fifo, other,
  Header, DirMetadata, Call, Os, bound, ◌>>=◌, returned, refused,
}
use udf.Fsutil.Write.Confined.{Keeps, Keeps-bound_seen}
use udf.Fsutil.Dirs.Confined.{DirsUnder}
use udf.Layer.{resolved, apply_type, apply_unless, ended, apply_layer}

-- A call that returns only what `P` is true of.
pub record Gives {S A : Type 0} (P : A → Type 0) (call : Call S A) : Type 0 where
  pub given : (s : S) (a : A) → (call s).1 ≡ ok a → P a

Gives-bound :
    {S A B : Type 0} (P : A → Type 0) (Q : B → Type 0) (next : A → Call S B) (r : S × Result A)
    → ((a : A) → r.1 ≡ ok a → P a)
    → ((a : A) → P a → Gives Q (next a))
    → (b : B) → (bound r next).1 ≡ ok b
    → Q b
Gives-bound P Q next (s, err e) g k b h = absurd cc
Gives-bound P Q next (s, ok a) g k b h = (k a (g a refl)).given s b h

pub Gives-bind :
    {S A B : Type 0} {P : A → Type 0} {Q : B → Type 0} {call : Call S A} {next : A → Call S B}
    → Gives P call
    → ((a : A) → P a → Gives Q (next a))
    → Gives Q (call >>= next)
unfolding ◌>>=◌
Gives-bind {P = P} {Q = Q} {call = call} {next = next} g k = record {
  given = λ s b h. Gives-bound P Q next (call s) (g.given s) k b h;
}

pub anything : {S A : Type 0} {call : Call S A} → Gives (λ a. Unit {0}) call
anything = record { given = λ s a h. tt }

pub Keeps-given :
    {S A B : Type 0} {I : S → Type 0} {P : A → Type 0} {call : Call S A} {next : A → Call S B}
    → Keeps I call
    → Gives P call
    → ((a : A) → P a → Keeps I (next a))
    → Keeps I (call >>= next)
unfolding ◌>>=◌
Keeps-given {I = I} {call = call} {next = next} k g l = record {
  after = λ s i. Keeps-bound_seen I next (call s) (λ a e. l a (g.given s a e)) (k.after s i);
}

pub returned-Gives : {S A : Type 0} {P : A → Type 0} (a : A) → P a → Gives {S = S} P (returned a)
returned-Gives {P = P} a p = record { given = λ s b h. let e : a ≡ b = cc in subst P e p }

pub refused-Gives :
    {S A : Type 0} {P : A → Type 0} (e : Error) → Gives {S = S} {A = A} P (refused e)
refused-Gives e = record { given = λ s b h. absurd cc }

pub append-DirsUnder :
    (root : List ℕ) (dirs more : List DirMetadata)
    → DirsUnder root dirs
    → DirsUnder root more
    → DirsUnder root (dirs ++ more)
append-DirsUnder root [] more u v = v
append-DirsUnder root (d ∷ dirs) more (u, us) v = (u, append-DirsUnder root dirs more us v)

module _ {S Body : Type 0} (os : Os S Body) (output_dir : List ℕ) where
  resolved-Gives : (entry : List ℕ) → Gives (Under output_dir) (resolved os output_dir entry)
  unfolding resolved
  resolved-Gives entry = record { given = λ s p h. resolve_safe_path-Under output_dir entry p h }

  apply_type-Gives :
      (target : List ℕ) (hdr : Header) (body : Body) (flag : TypeFlag)
      → Under output_dir target
      → Gives (DirsUnder output_dir) (apply_type os output_dir target hdr body flag)
  unfolding apply_type
  apply_type-Gives target hdr body dir_entry u =
      Gives-bind anything (λ x t. returned-Gives _ (u, tt))
  apply_type-Gives target hdr body reg u = Gives-bind anything (λ x t. returned-Gives [] tt)
  apply_type-Gives target hdr body rega u = Gives-bind anything (λ x t. returned-Gives [] tt)
  apply_type-Gives target hdr body symlink_entry u =
      Gives-bind anything (λ x t. returned-Gives [] tt)
  apply_type-Gives target hdr body link_entry u = Gives-bind anything (λ x t. returned-Gives [] tt)
  apply_type-Gives target hdr body char_device u = returned-Gives [] tt
  apply_type-Gives target hdr body block_device u = returned-Gives [] tt
  apply_type-Gives target hdr body fifo u = returned-Gives [] tt
  apply_type-Gives target hdr body other u = refused-Gives _

  apply_unless-Gives :
      (handled : Bool) (hdr : Header) (body : Body)
      → Gives (DirsUnder output_dir) (apply_unless os output_dir handled hdr body)
  unfolding apply_unless
  apply_unless-Gives true hdr body = returned-Gives [] tt
  apply_unless-Gives false hdr body =
      Gives-bind (resolved-Gives hdr.entry_name)
        (λ target u. apply_type-Gives target hdr body hdr.typeflag u)

  ended-Gives :
      (at_end : Option Error) (dirs : List DirMetadata)
      → DirsUnder output_dir dirs
      → Gives (DirsUnder output_dir) (ended os output_dir at_end dirs)
  ended-Gives none dirs us = returned-Gives dirs us
  ended-Gives (some e) dirs us = refused-Gives e

  pub apply_layer-Gives :
      (entries : List (Header × Body)) (at_end : Option Error) (dirs : List DirMetadata)
      → DirsUnder output_dir dirs
      → Gives (DirsUnder output_dir) (apply_layer os output_dir entries at_end dirs)
  unfolding apply_layer
  apply_layer-Gives [] at_end dirs us = ended-Gives at_end dirs us
  apply_layer-Gives ((hdr, body) ∷ entries) at_end dirs us = Gives-bind anything (λ handled t.
      Gives-bind (apply_unless-Gives handled hdr body) (λ made u.
        apply_layer-Gives entries at_end (dirs ++ made)
          (append-DirsUnder output_dir dirs made us u)))
