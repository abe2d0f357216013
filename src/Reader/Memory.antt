-- ===== src/Reader/Memory.antt =====
-- A file in memory: `io.ReaderAt` as `os.File` documents it, at a content that is given.
use udf.Prelude.{
  ℕ, suc, zero, ◌+◌, ◌-◌, ◌%◌, ◌/◌, ◌≡◌, Bool, true, ◌&&◌, Option, none, some, ◌++◌, length, drop,
  leb, ltb, if◌then◌else◌, pos, negsuc, arith, ap, ◌∙◌,
}
use native.Mathlib.Decide.{dec_lt}
use udf.Reader.{eof, negative_offset, ReaderAt, Serves, slice}
use udf.Reader.Blocks.{InFile}
use udf.Reader.Chunks.{failed}

abbrev pub memory : ℕ → (ℕ → ℕ) → ReaderAt
memory size content (negsuc _) p = failed negative_offset p
memory size content (pos off) p =
    if leb (off + length p) size
    then record { buf = slice content off (length p); n = length p; fault = none }
    else record {
      buf = slice content off (size - off) ++ drop (size - off) p;
      n = size - off;
      fault = some eof;
    }

pub memory-Serves : (size : ℕ) (content : ℕ → ℕ) → Serves (memory size content) size content
memory-Serves size content = record {
  inside = λ off p h. ground arith;
  across = λ off p h. ground arith;
}

abbrev byte_fits : ℕ → ℕ → Option ℕ → Bool
byte_fits file_size i none = true
byte_fits file_size i (some a) = ltb (a + i) file_size

-- A check of `InFile` by evaluation.
abbrev pub in_file : ℕ → (ℕ → Option ℕ) → ℕ → ℕ → Bool
in_file size base zero file_size = true
in_file size base (suc limit) file_size =
    byte_fits file_size (limit % size) (base (limit / size)) && in_file size base limit file_size

pub in_file-InFile :
    (size : ℕ) (base : ℕ → Option ℕ) (limit file_size : ℕ)
    → in_file size base limit file_size ≡ true
    → InFile size base limit file_size
in_file-InFile size base zero file_size h i a l e = absurd (omega arith)
in_file-InFile size base (suc limit) file_size h i a l e = elim (dec_lt i limit) [
  | yes below ↦ in_file-InFile size base limit file_size (ground arith) i a below e
  | no top ↦
      let same : limit ≡ i = omega arith in
      let there = ap (λ n. base (n / size)) same ∙ e in
      let rest = ap (λ n. n % size) same in ground arith
]
