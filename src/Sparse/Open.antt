-- ===== src/Sparse/Open.antt =====
-- image/sparse.go: the chunk table that `openSparse` builds.
use udf.Prelude.{
  ℕ, zero, suc, ◌+◌, ◌*◌, ◌^◌, ◌<◌, ◌≡◌, sym, subst, inl, inr, Option, none, some, List, [], ◌∷◌,
  ltb, pos, int64, le16, le32, arith, add_int64_small,
}
use udf.Reader.{ok, ReaderAt, fetch, bind-inverse, Result-cases, refuse, invalid}
use udf.Sparse.{
  Chunk, Device, chunk_of, fill_chunk, kept, grown, read_chunks, open_header, open_sparse,
  sparse_file_hdr_sz,
}
use udf.Sparse.Search.{Tiles}

-- The lengths of the chunks, unreduced.
abbrev pub total : List Chunk → ℕ
total [] = 0
total (c ∷ cs) = c.n + total cs

abbrev At : Option Chunk → ℕ → Type 0
At none out = Unit
At (some c) out = c.out ≡ out

chunk_of-At :
    (f : ReaderAt) (kind n out data_ : ℕ) {made : Option Chunk}
    → chunk_of f kind n out data_ ≡ ok made
    → At made out
unfolding chunk_of fill_chunk
chunk_of-At f kind n out data_ {made = none} h = tt
chunk_of-At f kind n out data_ {made = some c} h = elim (Result-cases (fetch f (int64 data_) 4)) [
  | inl (word, e) ↦ ground arith
  | inr (x, e) ↦ ground arith
]

grown-total :
    (made : Option Chunk) (cs : List Chunk) (out : ℕ)
    → out + total (kept made cs) < 2 ^ 63
    → grown made out + total cs < 2 ^ 63
grown-total none cs out s = s
grown-total (some c) cs out s = rw (add_int64_small out c.n (omega arith)) (omega arith)

kept-Tiles :
    (made : Option Chunk) (cs : List Chunk) (out end : ℕ)
    → At made out
    → out + total (kept made cs) < 2 ^ 63
    → Tiles (grown made out) cs end
    → Tiles out (kept made cs) end
kept-Tiles none cs out end a s t = t
kept-Tiles (some c) cs out end a s t =
    (a, subst (λ o. Tiles o cs end) (add_int64_small out c.n (omega arith)) t)

read_chunks-Tiles :
    (f : ReaderAt) (blk_sz chunk_hdr_sz count off out : ℕ) {cs : List Chunk} {end : ℕ}
    → read_chunks f blk_sz chunk_hdr_sz count off out ≡ ok (cs, end)
    → out + total cs < 2 ^ 63
    → Tiles out cs end
unfolding read_chunks
read_chunks-Tiles f blk_sz chunk_hdr_sz zero off out {cs} {end} h s =
    let none_left : [] ≡ cs = ground arith in
    let last : out ≡ end = ground arith in subst (λ cs. Tiles out cs end) none_left last
read_chunks-Tiles f blk_sz chunk_hdr_sz (suc count) off out {cs} {end} h s =
    let (buf, e, h1) = bind-inverse (fetch f (int64 off) chunk_hdr_sz) _ h in
    let (made, e1, h2) =
      bind-inverse (chunk_of f (le16 buf 0) (le32 buf 4 * blk_sz) out (off + chunk_hdr_sz)) _ h1 in
    let (u, e2, h3) = bind-inverse (refuse (ltb (le32 buf 8) chunk_hdr_sz) invalid) _ h2 in
    let (rest, e3, h4) =
      bind-inverse (read_chunks f blk_sz chunk_hdr_sz count (off + le32 buf 8) (grown made out)) _
        h3 in
    let all : kept made rest.0 ≡ cs = ground arith in
    let last : rest.1 ≡ end = ground arith in
    let a =
      chunk_of-At f (le16 buf 0) (le32 buf 4 * blk_sz) out (off + chunk_hdr_sz) {made = made} e1 in
    let s' : out + total (kept made rest.0) < 2 ^ 63 =
      subst (λ cs. out + total cs < 2 ^ 63) (sym all) s in
    let ih =
      read_chunks-Tiles f blk_sz chunk_hdr_sz count (off + le32 buf 8) (grown made out)
        {cs = rest.0} {end = rest.1} e3 (grown-total made rest.0 out s') in
    let t = kept-Tiles made rest.0 out rest.1 a s' ih in
    subst (λ cs. Tiles out cs end) all (subst (λ n. Tiles out (kept made rest.0) n) last t)

-- What `openSparse` has seen of the image that it accepts.
pub record IsSparse (f : ReaderAt) (r : Device) : Type 0 where
  pub reader : r.f ≡ f
  pub positive : 0 < r.blk
  pub tiles : Tiles 0 r.chunks r.size

open_header-IsSparse :
    (f : ReaderAt) (hdr : List ℕ) (r : Device)
    → open_header f hdr ≡ ok r
    → total r.chunks < 2 ^ 63
    → IsSparse f r
unfolding open_header
open_header-IsSparse f hdr r h s =
    elim (Result-cases (read_chunks f (le32 hdr 12) (le16 hdr 10) (le32 hdr 20) (le16 hdr 8) 0)) [
      | inr (x, bad) ↦ absurd (ground arith)
      | inl (read, e) ↦
          let chunks : read.0 ≡ r.chunks = ground arith in
          let size : read.1 ≡ r.size = ground arith in
          let fits = subst (λ cs. 0 + total cs < 2 ^ 63) (sym chunks) (omega arith) in
          let t =
            read_chunks-Tiles f (le32 hdr 12) (le16 hdr 10) (le32 hdr 20) (le16 hdr 8) 0
              {cs = read.0} {end = read.1} e fits in
          record {
            reader = ground arith;
            positive = ground arith;
            tiles = subst (λ cs. Tiles 0 cs r.size) chunks (subst (λ n. Tiles 0 read.0 n) size t);
          }
    ]

-- If `openSparse` returns a device whose chunks have less than 2 ^ 63 bytes in all, the block size is
-- positive and the chunks cover the device from 0 to its size, in order and without gaps.
pub open_sparse-IsSparse :
    (f : ReaderAt) (r : Device) → open_sparse f ≡ ok r → total r.chunks < 2 ^ 63 → IsSparse f r
unfolding open_sparse
open_sparse-IsSparse f r h s =
    let (hdr, e, k) = bind-inverse (fetch f (pos 0) sparse_file_hdr_sz) (open_header f) h in
    open_header-IsSparse f hdr r k s
