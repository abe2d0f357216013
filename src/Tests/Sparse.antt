-- ===== src/Tests/Sparse.antt =====
-- image/sparse.go: runs and witnesses.
use udf.Prelude.{
  ◌+◌, ◌≤◌, ◌≡◌, refl, [], ◌∷◌, some, pos, arith, get_or, le16, le32, int64, bytes_eq, add_int64,
}
use udf.Reader.{ReaderAt, eof, ok, fetch}
use udf.Reader.Memory.{memory, memory-Serves}
use udf.Sparse.{
  Device, chunk_of, read_chunks, open_header, open_sparse, chunk_at, read_at, sparse_chunk_raw,
  sparse_chunk_fill, sparse_chunk_dont_ca,
}
use udf.Sparse.Search.{Tiles, Holds, holder, chunk_at-holder}
use udf.Sparse.Flat.{RawInFile, read_at-sparse_byte}
use udf.Sparse.Open.{IsSparse, open_sparse-IsSparse}

-- Four raw bytes at 8 of the file, four bytes of a fill word, and two bytes of nothing.
abbrev device : Device
device = record {
  f = memory 12 (λ i. i);
  blk = 2;
  size = 10;
  chunks =
      (record { out = 0; n = 4; off = 8; fill = 0; kind = sparse_chunk_raw })
      ∷ (record { out = 4; n = 4; off = 0; fill = 67_305_985; kind = sparse_chunk_fill })
      ∷ (record { out = 8; n = 2; off = 0; fill = 0; kind = sparse_chunk_dont_ca })
      ∷ [];
}

device-Tiles : Tiles 0 device.chunks 10
device-Tiles = (refl, (refl, (refl, refl)))

device-RawInFile : RawInFile device.chunks 10 12
device-RawInFile i l e = ground arith

-- From the raw chunk over the fill word to the end of the device.
read_at-sparse_byte_example :
    read_at device (7 ∷ 7 ∷ 7 ∷ 7 ∷ 7 ∷ 7 ∷ 7 ∷ 7 ∷ 7 ∷ []) (pos 2)
    ≡ some (record { buf = 10 ∷ 11 ∷ 1 ∷ 2 ∷ 3 ∷ 4 ∷ 0 ∷ 0 ∷ 7 ∷ []; n = 8; fault = some eof })
read_at-sparse_byte_example =
    read_at-sparse_byte device 10 12 (λ i. i) refl (omega arith) device-Tiles
      (memory-Serves 12 (λ i. i)) (omega arith) device-RawInFile
      (7 ∷ 7 ∷ 7 ∷ 7 ∷ 7 ∷ 7 ∷ 7 ∷ 7 ∷ 7 ∷ []) 2 (omega arith) (omega arith)

chunk_at-holder_example :
    (chunk_at device 5 ≡ some (holder device.chunks 5))
    × Holds (holder device.chunks 5) 5
    × ((holder device.chunks 5).out + (holder device.chunks 5).n ≤ 10)
chunk_at-holder_example = chunk_at-holder device 10 5 device-Tiles (omega arith) (omega arith)

-- A sparse image of one block of four bytes that its only chunk leaves open.
abbrev image : ReaderAt
image = memory 40 (λ i.
    get_or
      (58 ∷ 255 ∷ 38 ∷ 237 ∷ 1 ∷ 0 ∷ 0 ∷ 0 ∷ 28 ∷ 0 ∷ 12 ∷ 0 ∷ 4 ∷ 0 ∷ 0 ∷ 0 ∷ 1 ∷ 0 ∷ 0 ∷ 0 ∷ 1 ∷ 0
        ∷ 0 ∷ 0 ∷ 0 ∷ 0 ∷ 0 ∷ 0 ∷ 195 ∷ 202 ∷ 0 ∷ 0 ∷ 1 ∷ 0 ∷ 0 ∷ 0 ∷ 12 ∷ 0 ∷ 0 ∷ 0 ∷ [])
      i 0)

abbrev opened : Device
opened = record {
  f = image;
  blk = 4;
  size = 4;
  chunks = (record { out = 0; n = 4; off = 0; fill = 0; kind = sparse_chunk_dont_ca }) ∷ [];
}

open_image : open_sparse image ≡ ok opened
unfolding open_sparse open_header read_chunks chunk_of fetch le16 le32 int64 bytes_eq add_int64
open_image = refl

open_sparse-IsSparse_example : IsSparse image opened
open_sparse-IsSparse_example = open_sparse-IsSparse image opened open_image (omega arith)
