-- ===== src/Sparse.antt =====
-- image/sparse.go: Android sparse images, a table of chunks that expand to a flat device.
pub mod Search
pub mod Flat
pub mod Open
use udf.Prelude.{
  ℕ, zero, suc, ◌+◌, ◌-◌, ◌*◌, ◌/◌, ◌%◌, ◌^◌, Bool, not, ◌||◌, Option, none, some, List, [], ◌∷◌,
  ◌++◌, length, get_or, take, drop, replicate, ltb, leb, ◌==◌, if◌then◌else◌, ℤ, pos, negsuc, int64,
  sub_int64, add_int64, lt_int64, le16, le32, bytes_eq,
}
use udf.Reader.{
  Error, eof, unexpected_eof, negative_offset, bad_magic, unsupported, invalid, malformed, Result,
  ok, err, ◌>>=◌, ◌>>◌, refuse, Read, ReaderAt, fetch,
}
use udf.Reader.Chunks.{failed}

abbrev pub sparse_magic : List ℕ
sparse_magic = 0x3a ∷ 0xff ∷ 0x26 ∷ 0xed ∷ []

abbrev pub sparse_file_hdr_sz : ℕ
sparse_file_hdr_sz = 28

abbrev pub sparse_chunk_hdr : ℕ
sparse_chunk_hdr = 12

abbrev pub sparse_chunk_raw : ℕ
sparse_chunk_raw = 0xcac1

abbrev pub sparse_chunk_fill : ℕ
sparse_chunk_fill = 0xcac2

abbrev pub sparse_chunk_dont_ca : ℕ
sparse_chunk_dont_ca = 0xcac3

abbrev pub sparse_chunk_crc32 : ℕ
sparse_chunk_crc32 = 0xcac4

abbrev pub sparse_max_chunks : ℕ
sparse_max_chunks = 2 ^ 22

-- The int64 fields are bit patterns.
pub record Chunk : Type 0 where
  pub out : ℕ
  pub n : ℕ
  pub off : ℕ
  pub fill : ℕ
  pub kind : ℕ

pub record Device : Type 0 where
  pub f : ReaderAt
  pub blk : ℕ
  pub size : ℕ
  pub chunks : List Chunk

-- The entry of a fill chunk, whose word is read from the file.
unfoldable pub fill_chunk : ReaderAt → ℕ → ℕ → ℕ → ℕ → Result (Option Chunk)
fill_chunk f kind n out data_ = do
  word ← fetch f (int64 data_) 4
  ok (some (record { out = out; n = n; off = 0; fill = le32 word 0; kind = kind }))

-- The `switch` on a chunk's kind: its entry, or `none` for a checksum.
unfoldable pub chunk_of : ReaderAt → ℕ → ℕ → ℕ → ℕ → Result (Option Chunk)
chunk_of f kind n out data_ =
    if kind == sparse_chunk_raw
    then ok (some (record { out = out; n = n; off = data_; fill = 0; kind = kind }))
    else if kind == sparse_chunk_fill
    then fill_chunk f kind n out data_
    else if kind == sparse_chunk_dont_ca
    then ok (some (record { out = out; n = n; off = 0; fill = 0; kind = kind }))
    else if kind == sparse_chunk_crc32
    then ok none
    else err malformed

-- `append(r.chunks, …)` and `out += n`, and neither for a checksum.
abbrev pub kept : Option Chunk → List Chunk → List Chunk
kept none cs = cs
kept (some c) cs = c ∷ cs

abbrev pub grown : Option Chunk → ℕ → ℕ
grown none out = out
grown (some c) out = add_int64 out c.n

-- The loop over the chunk table: the entries of `count` headers from `off` on, and the final `out`.
unfoldable pub read_chunks : ReaderAt → ℕ → ℕ → ℕ → ℕ → ℕ → Result (List Chunk × ℕ)
read_chunks f blk_sz chunk_hdr_sz zero off out = ok ([], out)
read_chunks f blk_sz chunk_hdr_sz (suc count) off out = do
  buf ← fetch f (int64 off) chunk_hdr_sz
  made ← chunk_of f (le16 buf 0) (le32 buf 4 * blk_sz) out (off + chunk_hdr_sz)
  refuse (ltb (le32 buf 8) chunk_hdr_sz) invalid
  rest ← read_chunks f blk_sz chunk_hdr_sz count (off + le32 buf 8) (grown made out)
  ok (kept made rest.0, rest.1)

-- `openSparse` behind the reading of the header.
unfoldable pub open_header : ReaderAt → List ℕ → Result Device
open_header f hdr = do
  refuse (not (bytes_eq (take 4 hdr) sparse_magic)) bad_magic
  refuse (le32 hdr 12 == 0 || ltb sparse_max_chunks (le32 hdr 20)) invalid
  refuse (ltb (le16 hdr 8) sparse_file_hdr_sz || ltb (le16 hdr 10) sparse_chunk_hdr) unsupported
  read ← read_chunks f (le32 hdr 12) (le16 hdr 10) (le32 hdr 20) (le16 hdr 8) 0
  refuse (not (read.1 == le32 hdr 16 * le32 hdr 12)) invalid
  ok (record { f = f; blk = le32 hdr 12; size = le32 hdr 16 * le32 hdr 12; chunks = read.0 })

-- `openSparse`, from the opened file on.
unfoldable pub open_sparse : ReaderAt → Result Device
open_sparse f = do hdr ← fetch f (pos 0) sparse_file_hdr_sz; open_header f hdr

abbrev pub no_chunk : Chunk
no_chunk = record { out = 0; n = 0; off = 0; fill = 0; kind = 0 }

-- `chunkAt`: the bisection between `lo` and `hi`. The fuel is their distance.
unfoldable pub search_chunks : List Chunk → ℕ → ℕ → ℕ → ℕ → Option Chunk
search_chunks chunks off zero lo hi = none
search_chunks chunks off (suc fuel) lo hi =
    let mid = (lo + hi) / 2 in
    let c = get_or chunks mid no_chunk in
    let before = lt_int64 off c.out in
    let rest =
      search_chunks chunks off fuel (if before then lo else mid + 1) (if before then mid else hi) in
    if ltb lo hi
    then (if before || not (lt_int64 off (add_int64 c.out c.n)) then rest else some c)
    else none

unfoldable pub chunk_at : Device → ℕ → Option Chunk
chunk_at r off = search_chunks r.chunks off (length r.chunks) 0 (length r.chunks)

-- `want`: what is left of the chunk, of `p` and of the device.
abbrev pub lesser : ℕ → ℕ → ℕ
lesser a b = if lt_int64 b a then b else a

unfoldable pub wanted : Device → Chunk → ℕ → ℕ → ℕ
wanted r c off len =
    lesser (lesser (sub_int64 c.n (sub_int64 off c.out)) len) (sub_int64 r.size off)

-- `byte(word >> (8 * uint(pos%4)))`, for `want` bytes from `pos` on.
unfoldable pub words : ℕ → ℕ → ℕ → List ℕ
words word at_ zero = []
words word at_ (suc want) = (word / 2 ^ (8 * (at_ % 4)) % 256) ∷ words word (at_ + 1) want

-- `io.EOF` in the middle of a chunk is unexpected.
abbrev pub unexpected : Error → Error
unexpected eof = unexpected_eof
unexpected e = e

-- The `switch` of a round on `p[n : n+want]`: its new content, the count and the error.
unfoldable pub serve : Device → Chunk → ℕ → List ℕ → Read
serve r c off q =
    let into = sub_int64 off c.out in
    if c.kind == sparse_chunk_raw then r.f (int64 (c.off + into)) q else record {
      buf =
          if c.kind == sparse_chunk_fill
          then words c.fill into (length q)
          else replicate (length q) 0;
      n = length q;
      fault = none;
    }

-- What the rest of `p` becomes after a round.
abbrev pub prefixed : List ℕ → Option Read → Option Read
prefixed b none = none
prefixed b (some r) = some (record r { buf = b ++ r.buf })

abbrev pub settle : Read → List ℕ → ℕ → Option Read → Option Read
settle r tail n rest = elim r.fault [
  | some e ↦ some (record { buf = r.buf ++ tail; n = n + r.n; fault = some (unexpected e) })
  | none ↦ prefixed (take r.n (r.buf ++ tail)) rest
]

-- `for n < len(p) && off < r.size`, on what is left of `p`; `none` means that the fuel ran out.
unfoldable pub loop : Device → ℕ → ℕ → ℕ → List ℕ → Option Read
loop r zero off n p = none
loop r (suc fuel) off n [] = some (record { buf = []; n = n; fault = none })
loop r (suc fuel) off n (x ∷ xs) =
    let p = x ∷ xs in
    let stop : Option Read = some (record { buf = p; n = n; fault = none }) in
    if not (lt_int64 off r.size)
    then some (record { buf = p; n = n; fault = some eof })
    else elim (chunk_at r off) [
      | none ↦ stop
      | some c ↦
          let want = wanted r c off (length p) in
          let read = serve r c off (take want p) in
          let rest =
            loop r fuel (off + read.n) (n + read.n) (drop read.n (read.buf ++ drop want p)) in
          if not (lt_int64 0 want) then stop else settle read (drop want p) n rest
    ]

-- `ReadAt`
unfoldable pub read_at : Device → List ℕ → ℤ → Option Read
read_at r p (negsuc _) = some (failed negative_offset p)
read_at r p (pos off) =
    if not (lt_int64 off r.size) then some (failed eof p) else loop r (suc (length p)) off 0 p
