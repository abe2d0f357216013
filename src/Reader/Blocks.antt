-- ===== src/Reader/Blocks.antt =====
-- Flat disks that a table maps block by block: what the formats promise of each byte, and what one
-- chunk inside a block then holds.
use udf.Prelude.{
  ℕ, zero, suc, ◌+◌, ◌-◌, ◌/◌, ◌%◌, ◌≤◌, ◌<◌, ◌≡◌, refl, ap, ap₂, sym, ◌∙◌, Option, none, some, ◌∷◌,
  replicate, List, [], length, take, drop, get_or, ltb, arith, if◌then◌else◌,
}
use native.Mathlib.Nat.{div-eq_of_lt-le, div-add-mod', mod-add-mod, mod-eq_of_lt}
use udf.Reader.{slice}

zero_right : (a : ℕ) → a + 0 ≡ a
zero_right a = omega arith

one_more : (a j : ℕ) → a + 1 + j ≡ a + suc j
one_more a j = omega arith

pub slice-cong :
    (f g : ℕ → ℕ) (a b n : ℕ)
    → ((j : ℕ) → j < n → f (a + j) ≡ g (b + j))
    → slice f a n ≡ slice g b n
slice-cong f g a b zero h = refl
slice-cong f g a b (suc n) h =
    let head : f a ≡ g b = rw (zero_right a, zero_right b) at (h 0 (omega arith)) in
    ap₂ ◌∷◌ head (
      slice-cong f g (a + 1) (b + 1) n
        (λ j l. rw (one_more a j, one_more b j) (h (suc j) (omega arith))))

pub slice-zeros :
    (f : ℕ → ℕ) (a n : ℕ) → ((j : ℕ) → j < n → f (a + j) ≡ 0) → slice f a n ≡ replicate n 0
slice-zeros f a zero h = refl
slice-zeros f a (suc n) h =
    ap₂ ◌∷◌ (rw (zero_right a) at (h 0 (omega arith)))
      (slice-zeros f (a + 1) n (λ j l. rw (one_more a j) (h (suc j) (omega arith))))

drop-get_or : (xs : List ℕ) (k : ℕ) → k < length xs → drop k xs ≡ get_or xs k 0 ∷ drop (suc k) xs
drop-get_or [] k h = absurd (omega arith)
drop-get_or (x ∷ xs) zero h = refl
drop-get_or (x ∷ xs) (suc k) h = drop-get_or xs k (omega arith)

pub slice-get_or :
    (xs : List ℕ) (k n : ℕ)
    → k + n ≤ length xs
    → slice (λ j. get_or xs j 0) k n ≡ take n (drop k xs)
slice-get_or xs k zero h = refl
slice-get_or xs k (suc n) h =
    let one : k + 1 ≡ suc k = omega arith in
    let rest = slice-get_or xs (k + 1) n (omega arith) ∙ ap (λ m. take n (drop m xs)) one in
    rw (drop-get_or xs k (omega arith)) (ap (λ t. get_or xs k 0 ∷ t) rest)

-- Bytes of one block have its index, and follow one another in it.
pub same_block :
    (size off j : ℕ)
    → off % size + j < size
    → ((off + j) / size ≡ off / size) × ((off + j) % size ≡ off % size + j)
same_block size off j h = (
  div-eq_of_lt-le size (omega (arith, div-add-mod' off size))
      (omega (arith, div-add-mod' off size)),
  sym (mod-add-mod off size j) ∙ mod-eq_of_lt h,
)

-- `a` is where the file holds a block; a block that it holds nowhere is zeros.
abbrev pub mapped_byte : (ℕ → ℕ) → Option ℕ → ℕ → ℕ
mapped_byte content none i = 0
mapped_byte content (some a) i = content (a + i)

-- A byte of a disk of blocks of `size` bytes, of which `base` says where the file holds them.
abbrev pub block_byte : ℕ → (ℕ → Option ℕ) → (ℕ → ℕ) → ℕ → ℕ
block_byte size base content i = mapped_byte content (base (i / size)) (i % size)

-- Every byte of the disk that the table maps lies inside the file.
abbrev pub InFile : ℕ → (ℕ → Option ℕ) → ℕ → ℕ → Type 0
InFile size base limit file_size =
    (i a : ℕ) → i < limit → base (i / size) ≡ some a → a + i % size < file_size

module _ (size : ℕ) (base : ℕ → Option ℕ) (content : ℕ → ℕ) where
  pub chunk-mapped :
      (off n a : ℕ)
      → off % size + n ≤ size
      → base (off / size) ≡ some a
      → slice (block_byte size base content) off n ≡ slice content (a + off % size) n
  chunk-mapped off n a h e = slice-cong _ content off (a + off % size) n (λ j l.
      let (d, m) = same_block size off j (omega arith) in
      let s : a + (off % size + j) ≡ a + off % size + j = omega arith in rw (d, m, e, s))

  pub chunk-unmapped :
      (off n : ℕ)
      → off % size + n ≤ size
      → base (off / size) ≡ none
      → slice (block_byte size base content) off n ≡ replicate n 0
  chunk-unmapped off n h e =
      slice-zeros _ off n (λ j l. let (d, m) = same_block size off j (omega arith) in rw (d, e))

  -- A chunk of a mapped block lies inside the file.
  pub chunk-InFile :
      (limit file_size off n a : ℕ)
      → InFile size base limit file_size
      → off % size + n ≤ size
      → 0 < n
      → off + n ≤ limit
      → base (off / size) ≡ some a
      → a + off % size + n ≤ file_size
  chunk-InFile limit file_size off n a f h p l e =
      let j = n - 1 in
      let (d, m) = same_block size off j (omega arith) in
      let r = f (off + j) a (omega arith) (ap base d ∙ e) in omega arith

-- `min(blockSize - inBlock, len(p))`, as the code writes it.
abbrev pub block_chunk : ℕ → ℕ → ℕ → ℕ
block_chunk size off len = if ltb (size - off % size) len then size - off % size else len

pub block_chunk_bounds :
    (size off len : ℕ)
    → 0 < size
    → 0 < len
    → (0 < block_chunk size off len)
      × (block_chunk size off len ≤ len)
      × (off % size + block_chunk size off len ≤ size)
block_chunk_bounds size off len h l = ground arith
