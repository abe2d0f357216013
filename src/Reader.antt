-- ===== src/Reader.antt =====
-- `io.ReaderAt` as the disk readers use it.
pub mod Chunks
pub mod Blocks
pub mod Memory
use udf.Prelude.{
  ℕ, zero, suc, ◌+◌, ◌-◌, ◌^◌, ◌≤◌, ◌<◌, ◌≡◌, refl, ◌⊎◌, inl, inr, Bool, true, false, Option, none,
  some, List, [], ◌∷◌, ◌++◌, length, take, drop, length-append, take-append, drop-append, sym, ltb,
  ◌==◌, if◌then◌else◌, replicate, length-replicate, ap, ◌∙◌, ℤ, pos, int64, int64_of_lt, arith,
}

-- What a reader or a parser reports. `device` is an error of the underlying file, `panic` a slice
-- expression out of range, `stopped` a `break` out of a loop, which ends it with no error, and
-- `os_failure` an error that a system call returns, with `missing` for a file that does not exist
-- and `no_link` for a link that the file system does not support.
pub data Error : Type 0 where
  eof unexpected_eof negative_offset device panic stopped : Error
  bad_magic unsupported invalid missing malformed not_lvm : Error
  escapes_root unrelated os_failure no_link unsupported_entry : Error

infixl 10 ◌>>=◌ ◌>>◌
pub data Result {ℓ} (A : Type ℓ) : Type ℓ where
  ok : A → Result A
  err : Error → Result A

-- `if cond { return nil, err }`
abbrev pub refuse : Bool → Error → Result (Unit {0})
refuse true e = err e
refuse false e = ok tt

pub Result-cases {ℓ} :
    {A : Type ℓ} (r : Result A) → ((a : A) × (r ≡ ok a)) ⊎ ((e : Error) × (r ≡ err e))
Result-cases (ok a) = inl (a, refl)
Result-cases (err e) = inr (e, refl)

-- `if err != nil { return nil, err }`
abbrev pub ◌>>=◌ {ℓ κ} : {B : Type κ} {A : Type ℓ} → Result A → (A → Result B) → Result B
err fault >>= rest = err fault
ok value >>= rest = rest value

abbrev pub ◌>>◌ {κ} : {B : Type κ} → Result (Unit {0}) → Result B → Result B
checked >> rest = checked >>= λ _. rest

-- A bind that succeeds has a first step that did.
pub bind-inverse {ℓ κ} :
    {B : Type κ} {A : Type ℓ} (first : Result A) (then_ : A → Result B) {last : B}
    → first >>= then_ ≡ ok last
    → (value : A) × (first ≡ ok value) × (then_ value ≡ ok last)
bind-inverse (ok a) f h = (a, refl, h)
bind-inverse (err e) f h = cc

-- What `ReadAt(p, off)` leaves in `p`, and the `n` and `err` that it returns.
pub record Read : Type 0 where
  pub buf : List ℕ
  pub n : ℕ
  pub fault : Option Error

-- A call is given the old contents of `p`, which a short read leaves in part.
abbrev pub ReaderAt : Type 0
ReaderAt = ℤ → List ℕ → Read

-- The bytes of `content` from an offset on.
abbrev pub slice : (ℕ → ℕ) → ℕ → ℕ → List ℕ
slice content off zero = []
slice content off (suc n) = content off ∷ slice content (off + 1) n

-- `buf := make([]byte, n)` and a read of it whose every error is returned.
abbrev pub fetched : Read → Result (List ℕ)
fetched r = elim r.fault [ none ↦ ok r.buf | some e ↦ err device ]

unfoldable pub fetch : ReaderAt → ℤ → ℕ → Result (List ℕ)
fetch ra off n = fetched (ra off (replicate n 0))

-- `io.ReadFull` of `n` bytes: they and what is left, or the error.
unfoldable pub read_full : ℕ → List ℕ → Result (List ℕ × List ℕ)
read_full n src =
    if ltb (length src) n
    then err (if length src == 0 then eof else unexpected_eof)
    else ok (take n src, drop n src)

pub read_full-append :
    (xs ys : List ℕ) (n : ℕ) → length xs ≡ n → read_full n (xs ++ ys) ≡ ok (xs, ys)
unfolding read_full
read_full-append xs ys n h =
    let l = length-append xs ys in
    let enough : ltb (length (xs ++ ys)) n ≡ false = ground arith in
    rw (enough, sym h, take-append xs ys, drop-append xs ys)

-- `ra` is a file of `size` bytes: a range inside it is read whole, and one that runs past the end
-- is read up to there, with `io.EOF`.
pub record Serves (ra : ReaderAt) (size : ℕ) (content : ℕ → ℕ) : Type 0 where
  pub inside :
      (off : ℕ) (p : List ℕ)
      → off + length p ≤ size
      → ra (pos off) p ≡ record { buf = slice content off (length p); n = length p; fault = none }
  pub across :
      (off : ℕ) (p : List ℕ)
      → size < off + length p
      → ra (pos off) p ≡ record {
        buf = slice content off (size - off) ++ drop (size - off) p;
        n = size - off;
        fault = some eof;
      }

-- A read of a range inside the file, at an offset that the code converts from a word.
pub Serves-int64 :
    {ra : ReaderAt} {size : ℕ} {content : ℕ → ℕ} (off : ℕ) (p : List ℕ)
    → Serves ra size content
    → size < 2 ^ 63
    → 0 < length p
    → off + length p ≤ size
    → ra (int64 off) p ≡ record { buf = slice content off (length p); n = length p; fault = none }
Serves-int64 off p s small l h = rw (int64_of_lt off (omega arith)) (s.inside off p h)

pub fetch-Serves :
    {ra : ReaderAt} {size : ℕ} {content : ℕ → ℕ} (off n : ℕ)
    → Serves ra size content
    → size < 2 ^ 63
    → 0 < n
    → off + n ≤ size
    → fetch ra (int64 off) n ≡ ok (slice content off n)
unfolding fetch
fetch-Serves {ra = ra} {content = content} off n s small l h =
    let e = length-replicate n (zero) in
    let r = Serves-int64 off (replicate n 0) s small (omega arith) (omega arith) in
    ap fetched r ∙ ap (λ k. ok (slice content off k)) e
