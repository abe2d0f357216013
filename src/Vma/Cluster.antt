-- ===== src/Vma/Cluster.antt =====
-- vma/vma.go: what a cluster of an extent leaves in the file of its device.
use udf.Prelude.{
  ℕ, zero, suc, ◌+◌, ◌-◌, ◌*◌, ◌/◌, ◌%◌, ◌≤◌, ◌<◌, ◌≡◌, refl, sym, ◌∙◌, Bool, true, false, ◌&&◌,
  Bool-cases, inl, inr, List, [], ◌∷◌, ◌++◌, length, get_or, ltb, leb, ◌==◌, if◌then◌else◌, ltb→lt,
  arith, append_assoc, and-true,
}
use udf.Reader.{Result, ok, read_full-append}
use udf.Vma.{cluster_size, chunk_size, has_chunk, write_chunks}

-- How many of `k` chunks from chunk `i` on a mask has data for.
abbrev pub count : ℕ → ℕ → ℕ → ℕ
count mask i zero = 0
count mask i (suc k) = if has_chunk mask i then suc (count mask (i + 1) k) else count mask (i + 1) k

-- The data of a cluster: a chunk for each that the mask has.
abbrev pub concat : List (List ℕ) → List ℕ
concat [] = []
concat (p ∷ ps) = p ++ concat ps

abbrev pub whole : List (List ℕ) → Bool
whole [] = true
whole (p ∷ ps) = (length p == chunk_size) && whole ps

-- A byte of a file that chunks from chunk `i` of the cluster at `pos` on are written to: of the data,
-- if the mask has the chunk that it stands in, else as it was.
abbrev pub chunk_byte : ℕ → ℕ → ℕ → List (List ℕ) → (ℕ → ℕ) → ℕ → ℕ
chunk_byte mask pos i chunks old x =
    let c = (x - pos) / chunk_size in
    if leb (pos + i * chunk_size) x && (ltb x (pos + cluster_size) && has_chunk mask c)
    then get_or (get_or chunks (count mask i (c - i)) []) ((x - pos) % chunk_size) 0
    else old x

abbrev pub cluster_byte : ℕ → ℕ → List (List ℕ) → (ℕ → ℕ) → ℕ → ℕ
cluster_byte mask pos chunks old x = chunk_byte mask pos 0 chunks old x

abbrev pub patched : (ℕ → ℕ) → List ℕ → ℕ → ℕ → ℕ
patched old p pos x = if leb pos x && ltb x (pos + length p) then get_or p (x - pos) 0 else old x

-- A file whose bytes `view` tells: a write takes place, and changes the bytes of its range.
pub record Stores {File : Type 0} (write_at : File → List ℕ → ℕ → Result File) (view : File → ℕ → ℕ)
    : Type 0 where
  pub writes :
      (file : File) (p : List ℕ) (pos : ℕ)
      → (file' : File) × (write_at file p pos ≡ ok file')
        × ((x : ℕ) → view file' x ≡ patched (view file) p pos x)

and-false : (a b : Bool) (x y : ℕ) → y ≡ (if a && (b && false) then x else y)
and-false true true x y = refl
and-false true false x y = refl
and-false false b x y = refl

-- Where a byte stands before the chunks that are left, in the first of them, or behind it.
module _ (mask pos i : ℕ) (x : ℕ) where
  chunk_byte_before :
      (chunks : List (List ℕ)) (old : ℕ → ℕ)
      → x < pos + i * chunk_size
      → chunk_byte mask pos i chunks old x ≡ old x
  chunk_byte_before chunks old h =
      let no : leb (pos + i * chunk_size) x ≡ false = ground arith in rw no

  chunk_byte_at :
      (p : List ℕ) (ps : List (List ℕ)) (old : ℕ → ℕ)
      → has_chunk mask i ≡ true
      → i < 16
      → pos + i * chunk_size ≤ x
      → x < pos + (i + 1) * chunk_size
      → chunk_byte mask pos i (p ∷ ps) old x ≡ get_or p (x - (pos + i * chunk_size)) 0
  chunk_byte_at p ps old h l a b =
      let c : (x - pos) / chunk_size ≡ i = omega arith in
      let r : (x - pos) % chunk_size ≡ x - (pos + i * chunk_size) = omega arith in
      let z : i - i ≡ 0 = omega arith in
      let lo : leb (pos + i * chunk_size) x ≡ true = ground arith in
      let hi : ltb x (pos + cluster_size) ≡ true = ground arith in rw (c, r, z, lo, hi, h)

  chunk_byte_later :
      (p : List ℕ) (ps : List (List ℕ)) (old : ℕ → ℕ)
      → has_chunk mask i ≡ true
      → pos + (i + 1) * chunk_size ≤ x
      → chunk_byte mask pos i (p ∷ ps) old x ≡ chunk_byte mask pos (i + 1) ps old x
  chunk_byte_later p ps old h a =
      let c = (x - pos) / chunk_size in
      let one : c - i ≡ suc (c - (i + 1)) = omega arith in
      let lo : leb (pos + i * chunk_size) x ≡ true = ground arith in
      let lo' : leb (pos + (i + 1) * chunk_size) x ≡ true = ground arith in rw (one, lo, lo', h)

  chunk_byte_past :
      (chunks : List (List ℕ)) (old : ℕ → ℕ)
      → has_chunk mask i ≡ false
      → chunk_byte mask pos (i + 1) chunks old x ≡ chunk_byte mask pos i chunks old x
  chunk_byte_past chunks old h = elim (Bool-cases (ltb x (pos + i * chunk_size))) [
    | inl before ↦
        let lo : leb (pos + i * chunk_size) x ≡ false = ground arith in
        let lo' : leb (pos + (i + 1) * chunk_size) x ≡ false = ground arith in rw (lo, lo')
    | inr behind ↦ elim (Bool-cases (ltb x (pos + (i + 1) * chunk_size))) [
      | inl inside ↦
          let a = ltb→lt _ _ inside in
          let b : pos + i * chunk_size ≤ x = ground arith in
          let c : (x - pos) / chunk_size ≡ i = omega arith in
          let lo' : leb (pos + (i + 1) * chunk_size) x ≡ false = ground arith in
          rw (lo', c, h)
            (and-false (leb (pos + i * chunk_size) x) (ltb x (pos + cluster_size)) _ (old x))
      | inr later ↦
          let a : pos + (i + 1) * chunk_size ≤ x = ground arith in
          let one : (x - pos) / chunk_size - i ≡ suc ((x - pos) / chunk_size - (i + 1)) =
            omega arith in
          let lo : leb (pos + i * chunk_size) x ≡ true = ground arith in
          let lo' : leb (pos + (i + 1) * chunk_size) x ≡ true = ground arith in rw (one, lo, lo', h)
    ]
  ]

-- The bytes of a file after the chunks from chunk `i` on depend on the bytes before them only.
pub chunk_byte-cong :
    (mask pos i : ℕ) (chunks : List (List ℕ)) (old old' : ℕ → ℕ) (x : ℕ)
    → old x ≡ old' x
    → chunk_byte mask pos i chunks old x ≡ chunk_byte mask pos i chunks old' x
chunk_byte-cong mask pos i chunks old old' x e = rw e

pub patched_out :
    (old : ℕ → ℕ) (p : List ℕ) (pos x : ℕ)
    → (leb pos x && ltb x (pos + length p)) ≡ false
    → patched old p pos x ≡ old x
patched_out old p pos x h = rw h

pub patched_in :
    (old : ℕ → ℕ) (p : List ℕ) (pos x : ℕ)
    → pos ≤ x
    → x < pos + length p
    → patched old p pos x ≡ get_or p (x - pos) 0
patched_in old p pos x a b =
    let lo : leb pos x ≡ true = ground arith in
    let hi : ltb x (pos + length p) ≡ true = ground arith in rw (lo, hi)

-- A chunk that the mask has, written in its place.
write_chunk :
    (mask pos i : ℕ) (p : List ℕ) (ps : List (List ℕ)) (old : ℕ → ℕ) (x : ℕ)
    → has_chunk mask i ≡ true
    → i < 16
    → length p ≡ chunk_size
    → chunk_byte mask pos (i + 1) ps (patched old p (pos + i * chunk_size)) x
      ≡ chunk_byte mask pos i (p ∷ ps) old x
write_chunk mask pos i p ps old x h l n = elim (Bool-cases (ltb x (pos + i * chunk_size))) [
  | inl before ↦
      let b : x < pos + i * chunk_size = ltb→lt _ _ before in
      chunk_byte_before mask pos (i + 1) x ps (patched old p (pos + i * chunk_size)) (omega arith)
      ∙ patched_out old p (pos + i * chunk_size) x (ground arith)
      ∙ sym (chunk_byte_before mask pos i x (p ∷ ps) old b)
  | inr behind ↦ elim (Bool-cases (ltb x (pos + (i + 1) * chunk_size))) [
    | inl inside ↦
        let b : x < pos + (i + 1) * chunk_size = ltb→lt _ _ inside in
        let a : pos + i * chunk_size ≤ x = ground arith in
        chunk_byte_before mask pos (i + 1) x ps (patched old p (pos + i * chunk_size)) b
        ∙ patched_in old p (pos + i * chunk_size) x a (omega arith)
        ∙ sym (chunk_byte_at mask pos i x p ps old h l a b)
    | inr later ↦
        let a : pos + (i + 1) * chunk_size ≤ x = ground arith in
        chunk_byte-cong mask pos (i + 1) ps (patched old p (pos + i * chunk_size)) old x
          (patched_out old p (pos + i * chunk_size) x (ground arith))
        ∙ sym (chunk_byte_later mask pos i x p ps old h a)
  ]
]

-- Behind the last chunk nothing is written.
pub chunks_over : (mask pos : ℕ) (old : ℕ → ℕ) (x : ℕ) → old x ≡ chunk_byte mask pos 16 [] old x
chunks_over mask pos old x = elim (Bool-cases (ltb x (pos + cluster_size))) [
  | inl before ↦ let lo : leb (pos + 16 * chunk_size) x ≡ false = ground arith in rw lo
  | inr behind ↦ rw behind (and-false (leb (pos + 16 * chunk_size) x) true _ (old x))
]

first_chunk :
    (chunks : List (List ℕ)) {k : ℕ}
    → length chunks ≡ suc k
    → (p : List ℕ) × (ps : List (List ℕ)) × (chunks ≡ p ∷ ps)
first_chunk [] h = absurd (omega arith)
first_chunk (p ∷ ps) h = (p, ps, refl)

module _ {File : Type 0} (write_at : File → List ℕ → ℕ → Result File) (view : File → ℕ → ℕ)
    (stores : Stores write_at view) (mask pos : ℕ) (tail : List ℕ) where
  -- What the writes of the chunks from `i` on leave.
  abbrev pub Leaves : ℕ → List (List ℕ) → File → Result (File × List ℕ) → Type 0
  Leaves i chunks file r =
      (file' : File) × (r ≡ ok (file', tail))
      × ((x : ℕ) → view file' x ≡ chunk_byte mask pos i chunks (view file) x)

  pub write_chunks-Leaves :
      (left i : ℕ) (chunks : List (List ℕ)) (file : File)
      → left + i ≡ 16
      → length chunks ≡ count mask i left
      → whole chunks ≡ true
      → Leaves i chunks file (write_chunks write_at left i mask file pos (concat chunks ++ tail))
  unfolding write_chunks
  write_chunks-Leaves zero i [] file s n w =
      let e : i ≡ 16 = omega arith in (file, refl, λ x. rw e (chunks_over mask pos (view file) x))
  write_chunks-Leaves zero i (p ∷ ps) file s n w = absurd (omega arith)
  write_chunks-Leaves (suc left) i chunks file s n w = elim (Bool-cases (has_chunk mask i)) [
    | inr lacks ↦
        let (file', e, bytes) =
          write_chunks-Leaves left (i + 1) chunks file (omega arith) (rw lacks at n) w in
        (
          file',
          rw (write_chunks, lacks) e,
          λ x. bytes x ∙ chunk_byte_past mask pos i x chunks (view file) lacks,
        )
    | inl has ↦
        let k : length chunks ≡ suc (count mask (i + 1) left) = rw has at n in
        let (p, ps, c) = first_chunk chunks k in
        let (lp, rest) = and-true (length p == chunk_size) (whole ps) (rw c at w) in
        let size : length p ≡ chunk_size = ground arith in
        let l : length ps ≡ count mask (i + 1) left = ground arith in
        let (written, e, bytes) = stores.writes file p (pos + i * chunk_size) in
        let (file', r, later) = write_chunks-Leaves left (i + 1) ps written (omega arith) l rest in
        let data_ = read_full-append p (concat ps ++ tail) chunk_size size in
        rw c (
          file',
          rw (write_chunks, has, append_assoc p (concat ps) tail, data_, e) r,
          λ x.
              later x
              ∙ chunk_byte-cong mask pos (i + 1) ps (view written)
                  (patched (view file) p (pos + i * chunk_size)) x (bytes x)
              ∙ write_chunk mask pos i p ps (view file) x has (omega arith) size,
        )
  ]
