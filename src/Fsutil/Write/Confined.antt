-- ===== src/Fsutil/Write/Confined.antt =====
-- fsutil/write.go: which paths the writers hand to the system.
use udf.Prelude.{ℕ, ◌≡◌, refl, true, List, Bool-cases, inl, inr}
use udf.Reader.{Result, ok, err, Result-cases}
use udf.Paths.{dir}
use udf.Paths.Elements.{plain}
use udf.Paths.Walk.{names}
use udf.Fsutil.{resolve_safe_path}
use udf.Fsutil.Safe.{Under, resolve_safe_path-Under}
use udf.Fsutil.Write.{
  is_missing, is_no_link, Info, Header, Call, Os, bound, ◌>>=◌, ensure_parent_dir, over_entry,
  replace_with_dir, unless_missing, remove_target, apply_file_metadata, deferred_close,
  replace_with_file, replace_with_symlink, closed_copy, copy_file, or_copy, replace_with_hardlink,
}

-- A call after which `I` holds if it held before.
pub record Keeps {S A : Type 0} (I : S → Type 0) (call : Call S A) : Type 0 where
  pub after : (s : S) → I s → I (call s).0

Keeps-bound :
    {S A B : Type 0} (I : S → Type 0) (next : A → Call S B) (r : S × Result A)
    → ((a : A) → Keeps I (next a))
    → I r.0
    → I (bound r next).0
Keeps-bound I next (s, err e) l i = i
Keeps-bound I next (s, ok a) l i = (l a).after s i

-- The same, where the next call depends on what the first one returned.
pub Keeps-bound_seen :
    {S A B : Type 0} (I : S → Type 0) (next : A → Call S B) (r : S × Result A)
    → ((a : A) → r.1 ≡ ok a → Keeps I (next a))
    → I r.0
    → I (bound r next).0
Keeps-bound_seen I next (s, err e) l i = i
Keeps-bound_seen I next (s, ok a) l i = (l a refl).after s i

pub Keeps-bind :
    {S A B : Type 0} {I : S → Type 0} {call : Call S A} {next : A → Call S B}
    → Keeps I call
    → ((a : A) → Keeps I (next a))
    → Keeps I (call >>= next)
unfolding ◌>>=◌
Keeps-bind {I = I} {call = call} {next = next} k l = record {
  after = λ s i. Keeps-bound I next (call s) l (k.after s i);
}

-- A file system in which calls on `root` itself and on paths below it keep `I`, as `I` may be what is true of the
-- files elsewhere; for `os.MkdirAll`, also calls on the parents of all these. `os.ReadDir` lists
-- the names of files.
pub record Confined {S Body : Type 0} (os : Os S Body) (I : S → Type 0) (root : List ℕ)
    : Type 0 where
  pub lstat : (p : List ℕ) → Under root p → Keeps I (os.lstat p)
  pub chmod : (p : List ℕ) (mode : ℕ) → Under root p → Keeps I (os.chmod p mode)
  pub chtimes : (p : List ℕ) (time : ℕ) → Under root p → Keeps I (os.chtimes p time)
  pub remove_all : (p : List ℕ) → Under root p → Keeps I (os.remove_all p)
  pub mkdir_all : (p : List ℕ) (mode : ℕ) → Under root p → Keeps I (os.mkdir_all p mode)
  pub mkdir_parent : (p : List ℕ) (mode : ℕ) → Under root p → Keeps I (os.mkdir_all (dir p) mode)
  pub open_file : (p : List ℕ) (mode : ℕ) → Under root p → Keeps I (os.open_file p mode)
  pub copy_into : (p : List ℕ) (body : Body) → Under root p → Keeps I (os.copy_into p body)
  pub close : (p : List ℕ) → Under root p → Keeps I (os.close p)
  pub symlink : (linkname p : List ℕ) → Under root p → Keeps I (os.symlink linkname p)
  pub link : (source p : List ℕ) → Under root source → Under root p → Keeps I (os.link source p)
  pub open_source : (p : List ℕ) → Under root p → Keeps I (os.open_source p)
  pub copy_from :
      (source p : List ℕ) → Under root source → Under root p → Keeps I (os.copy_from source p)
  pub read_dir : (p : List ℕ) → Under root p → Keeps I (os.read_dir p)
  pub read_names :
      (p : List ℕ) (s : S) (es : List (List ℕ))
      → (os.read_dir p s).1 ≡ ok es
      → (names es ≡ true) × (plain es ≡ true)

-- What is done with a path that `ResolveSafePath` returns.
pub resolved-Keeps :
    {S B : Type 0} (I : S → Type 0) (root entry : List ℕ) (next : List ℕ → Call S B)
    → ((p : List ℕ) → Under root p → Keeps I (next p))
    → Keeps I ((λ s. (s, resolve_safe_path root entry)) >>= next)
unfolding ◌>>=◌
resolved-Keeps I root entry next k = elim (Result-cases (resolve_safe_path root entry)) [
  | inr (e, bad) ↦ record { after = λ s i. rw bad i }
  | inl (p, found) ↦
      let u = resolve_safe_path-Under root entry p found in
      record { after = λ s i. rw found ((k p u).after s i) }
]

module _ {S Body : Type 0} (os : Os S Body) (I : S → Type 0) (root : List ℕ)
    (confined : Confined os I root) where
  pub remove_target-Keeps : (p : List ℕ) → Under root p → Keeps I (remove_target os p)
  remove_target-Keeps p u = record {
    after = λ s i. unless (os.remove_all p s) ((confined.remove_all p u).after s i);
  }
    where
      unless : (r : S × Result (Unit {0})) → I r.0 → I (unless_missing os r).0
      unless (s, ok x) i = i
      unless (s, err e) i = i

  over_entry-Keeps :
      (p : List ℕ) (mode : ℕ) (r : S × Result Info)
      → Under root p
      → I r.0
      → I (over_entry os p mode r).0
  over_entry-Keeps p mode (s, err e) u i = elim (Bool-cases (is_missing e)) [
    | inl m ↦ rw m ((confined.mkdir_all p _ u).after s i)
    | inr n ↦ rw n i
  ]
  over_entry-Keeps p mode (s, ok info) u i = elim (Bool-cases info.is_dir) [
    | inl d ↦ rw d ((confined.chmod p _ u).after s i)
    | inr f ↦
        rw f ((Keeps-bind (confined.remove_all p u) (λ x. confined.mkdir_all p _ u)).after s i)
  ]

  pub replace_with_dir-Keeps :
      (p : List ℕ) (mode : ℕ) → Under root p → Keeps I (replace_with_dir os p mode)
  unfolding replace_with_dir
  replace_with_dir-Keeps p mode u = record {
    after = λ s i. over_entry-Keeps p mode (os.lstat p s) u ((confined.lstat p u).after s i);
  }

  deferred_close-Keeps :
      (p : List ℕ) (call : Call S (Unit {0}))
      → Under root p
      → Keeps I call
      → Keeps I (deferred_close os p call)
  unfolding deferred_close
  deferred_close-Keeps p call u k = record {
    after = λ s i. (confined.close p u).after (call s).0 (k.after s i);
  }

  pub replace_with_file-Keeps :
      (p : List ℕ) (hdr : Header) (body : Body)
      → Under root p
      → Keeps I (replace_with_file os p hdr body)
  unfolding replace_with_file ensure_parent_dir apply_file_metadata
  replace_with_file-Keeps p hdr body u = Keeps-bind (confined.mkdir_parent p _ u) (λ x.
      Keeps-bind (remove_target-Keeps p u) (λ x. Keeps-bind (confined.open_file p _ u) (λ x.
        deferred_close-Keeps p _ u (
          Keeps-bind (confined.copy_into p body u) (λ x.
            Keeps-bind (confined.close p u)
              (λ x. Keeps-bind (confined.chmod p _ u) (λ x. confined.chtimes p _ u)))))))

  pub replace_with_symlink-Keeps :
      (p : List ℕ) (hdr : Header) → Under root p → Keeps I (replace_with_symlink os p hdr)
  unfolding replace_with_symlink ensure_parent_dir
  replace_with_symlink-Keeps p hdr u =
      Keeps-bind (confined.mkdir_parent p _ u)
        (λ x. Keeps-bind (remove_target-Keeps p u) (λ x. confined.symlink hdr.linkname p u))

  closed_copy-Keeps :
      (p : List ℕ) (r : S × Result (Unit {0})) → Under root p → I r.0 → I (closed_copy os p r).0
  closed_copy-Keeps p (s, err e) u i = (confined.close p u).after s i
  closed_copy-Keeps p (s, ok x) u i = (confined.close p u).after s i

  copied-Keeps :
      (source p : List ℕ)
      → Under root source
      → Under root p
      → Keeps I (λ s. closed_copy os p (os.copy_from source p s))
  copied-Keeps source p v u = record {
    after = λ s i. closed_copy-Keeps p _ u ((confined.copy_from source p v u).after s i);
  }

  copy_file-Keeps :
      (source p : List ℕ) → Under root source → Under root p → Keeps I (copy_file os source p)
  unfolding copy_file
  copy_file-Keeps source p v u = Keeps-bind (confined.open_source source v) (λ info.
      deferred_close-Keeps source _ v (
        Keeps-bind (confined.open_file p _ u)
          (λ x. Keeps-bind (copied-Keeps source p v u) (λ x. confined.chtimes p _ u))))

  or_copy-Keeps :
      (source p : List ℕ) (r : S × Result (Unit {0}))
      → Under root source
      → Under root p
      → I r.0
      → I (or_copy os source p r).0
  or_copy-Keeps source p (s, ok x) v u i = i
  or_copy-Keeps source p (s, err e) v u i = elim (Bool-cases (is_no_link e)) [
    | inl m ↦ rw m ((copy_file-Keeps source p v u).after s i)
    | inr n ↦ rw n i
  ]

  link-Keeps :
      (source p : List ℕ)
      → Under root source
      → Under root p
      → Keeps I (λ s. or_copy os source p (os.link source p s))
  link-Keeps source p v u = record {
    after = λ s i. or_copy-Keeps source p _ v u ((confined.link source p v u).after s i);
  }

  -- The source of a hard link stands below the root, or the entry is refused.
  pub replace_with_hardlink-Keeps :
      (p : List ℕ) (hdr : Header) → Under root p → Keeps I (replace_with_hardlink os root p hdr)
  unfolding replace_with_hardlink ensure_parent_dir
  replace_with_hardlink-Keeps p hdr u = resolved-Keeps I root hdr.linkname _ (λ source v.
      Keeps-bind (confined.mkdir_parent p _ u)
        (λ x. Keeps-bind (remove_target-Keeps p u) (λ x. link-Keeps source p v u)))
