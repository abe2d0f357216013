-- ===== src/Superlp/Mapping.antt =====
-- `Metadata.Mapping` and `Mapping.ReadAt` of superlp/superlp.go: a logical partition as a range of
-- bytes that its extents hold.
pub mod Search
pub mod Extents
pub mod Flat
pub mod Build
pub mod Run
use udf.Prelude.{
  ℕ, zero, suc, ◌+◌, ◌-◌, ◌*◌, ◌/◌, ◌%◌, ◌^◌, Bool, true, false, not, ◌&&◌, ◌||◌, Option, none,
  some, List, [], ◌∷◌, ◌++◌, length, take, drop, get_or, get_elem?, replicate, ltb, leb, ◌==◌,
  if◌then◌else◌, ℤ, pos, negsuc, int64, lt_int64, sub_int64, add_int64,
}
use udf.Reader.{
  Error, eof, panic, negative_offset, unsupported, invalid, Result, ok, err, ◌>>=◌, ◌>>◌, refuse,
  Read, ReaderAt,
}
use udf.Reader.Chunks.{failed, outcome}
use udf.Superlp.{Extent, Partition, Metadata, sector_size, target_linear, target_zero}

-- The int64 fields are bit patterns below 2 ^ 64.
pub record Mapping : Type 0 where
  pub ra : ReaderAt
  pub origin : ℕ
  pub extents : List Extent
  pub starts : List ℕ
  pub size : ℕ

-- `int64(e.NumSectors * SectorSize)`
abbrev pub byte_len : Extent → ℕ
byte_len e = e.num_sectors * sector_size % 2 ^ 64

-- The loop of `Metadata.Mapping`: the checks of each extent, and its start.
pub add_extents : Mapping → List Extent → Result Mapping
add_extents m [] = ok m
add_extents m (e ∷ es) = do
  refuse (not (e.target_source == 0)) invalid
  refuse (not (e.target_type == target_linear) && not (e.target_type == target_zero)) unsupported
  add_extents
      (record m {
        starts = m.starts ++ m.size ∷ [];
        extents = m.extents ++ e ∷ [];
        size = add_int64 m.size (byte_len e);
      })
      es

pub mapping : ReaderAt → ℕ → Partition → Result Mapping
mapping ra origin p =
    add_extents (record { ra = ra; origin = origin; extents = []; starts = []; size = 0 }) p.extents

-- `sort.Search(n, f)`: the bisection of the standard library. `i` and `j` are its bounds, and the
-- fuel their distance.
pub bisect : ℕ → (ℕ → Bool) → ℕ → ℕ → ℕ
bisect zero f i j = i
bisect (suc fuel) f i j =
    let h = (i + j) / 2 in
    let rest = bisect fuel f (if f h then i else h + 1) (if f h then h else j) in
    if ltb i j then rest else i

pub sort_search : ℕ → (ℕ → Bool) → ℕ
sort_search n f = bisect n f 0 n

-- `sort.Search(len(starts), starts[i] > pos)`: the extent of `pos` is the one before.
pub above : Mapping → ℕ → ℕ
above mp at_ = sort_search (length mp.starts) (λ i. lt_int64 at_ (get_or mp.starts i 0))

-- `min(want - done, extentEnd - pos)`
pub chunk_len : ℕ → Extent → ℕ → ℕ → ℕ
chunk_len start e at_ want =
    let room = sub_int64 (add_int64 start (byte_len e)) at_ in
    if lt_int64 room want then room else want

-- The bytes of one chunk: zeros, or those of the super partition.
pub fill_extent : Mapping → Extent → ℕ → ℕ → List ℕ → List ℕ × Option Error
fill_extent mp e start at_ q =
    let r = mp.ra (int64 (mp.origin + e.target_data * sector_size + sub_int64 at_ start)) q in
    if e.target_type == target_zero then (replicate (length q) 0, none) else (r.buf, r.fault)

-- What the rest of `p` becomes after a chunk.
abbrev pub prefixed : List ℕ → Option Read → Option Read
prefixed b none = none
prefixed b (some r) = some (record r { buf = b ++ r.buf })

abbrev pub settle : Option Error → List ℕ → List ℕ → ℕ → Option Read → Option Read
settle (some e) b tail done rest = some (record { buf = b ++ tail; n = done; fault = some e })
settle none b tail done rest = prefixed b rest

abbrev pub no_extent : Extent
no_extent = record { num_sectors = 0; target_type = 0; target_data = 0; target_source = 0 }

-- `for done < want && off+int64(done) < mp.size`. A negative `n`, of an
-- extent whose length overflows, ends the model's run. `none` means that the fuel ran out.
pub loop : Mapping → ℕ → ℕ → ℕ → List ℕ → Option Read
loop mp zero off done p = none
loop mp (suc fuel) off done [] = some (record { buf = []; n = done; fault = none })
loop mp (suc fuel) off done (x ∷ xs) =
    let p = x ∷ xs in
    let at_ = off + done in
    let i = above mp at_ in
    let start = get_or mp.starts (i - 1) 0 in
    let e = get_or mp.extents (i - 1) no_extent in
    let n = chunk_len start e at_ (length p) in
    let (b, fault) = fill_extent mp e start at_ (take n p) in
    let rest = loop mp fuel off (done + n) (drop n p) in
    if not (lt_int64 at_ mp.size)
    then some (record { buf = p; n = done; fault = none })
    else if i == 0
    then some (record { buf = p; n = done; fault = some invalid })
    else if leb (2 ^ 63) n
    then some (record { buf = p; n = done; fault = some panic })
    else settle fault b (drop n p) done rest

-- `ReadAt`
pub read_mapping : Mapping → List ℕ → ℤ → Option Read
read_mapping mp p (negsuc _) = some (failed negative_offset p)
read_mapping mp p (pos off) =
    let r = loop mp (suc (length p)) off 0 p in
    if not (lt_int64 off mp.size)
    then some (failed eof p)
    else elim r [ none ↦ none | some r ↦ some (record r { fault = outcome r.fault r.n }) ]
