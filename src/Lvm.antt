-- ===== src/Lvm.antt =====
-- lvm2/lvm2.go: from the segments of a logical volume to the byte ranges of the physical volume.
pub mod Merge
pub mod Volume
pub mod Scanner
pub mod Parse
pub mod Group
use udf.Prelude.{
  ℕ, ◌+◌, ◌*◌, ◌%◌, ◌^◌, ◌==◌, Bool, true, false, not, ◌||◌, Option, none, some, List, [], ◌∷◌,
  if◌then◌else◌, ℤ, pos, negsuc, lt_int64, add_int64, sub_int64,
}

-- The int64 fields of these records are bit patterns below 2 ^ 64.
pub record Extent : Type 0 where
  pub start : ℕ
  pub size : ℕ

pub record LogicalVolume : Type 0 where
  pub name : List ℕ
  pub size : ℕ
  pub extents : List Extent

pub record Vg : Type 0 where
  pub name : List ℕ
  pub seqno : ℕ
  pub extent_bytes : ℕ
  pub pe_start : ℕ
  pub pe_count : ℕ
  pub volumes : List LogicalVolume

-- `pv_index` is -1 where the segment is not on the first physical volume.
pub record Segment : Type 0 where
  pub stripe_offset : ℕ
  pub extent_count : ℕ
  pub stripe_count : ℕ
  pub pv_index : ℤ

abbrev pub extent_end : Extent → ℕ
extent_end e = add_int64 e.start e.size

-- `sort.SliceStable` by `Start`, as an insertion sort: equal starts keep their order.
pub insert : Extent → List Extent → List Extent
insert e [] = e ∷ []
insert e (f ∷ fs) =
    let rest = insert e fs in if lt_int64 f.start e.start then f ∷ rest else e ∷ f ∷ fs

pub sort_stable : List Extent → List Extent
sort_stable [] = []
sort_stable (e ∷ es) = insert e (sort_stable es)

-- `last` after it has taken in an extent that starts inside it or at its end.
pub widen : Extent → Extent → Extent
widen last e =
    if lt_int64 (extent_end last) (extent_end e)
    then record last { size = sub_int64 (extent_end e) last.start }
    else last

-- The loop of `mergeExtents`: `last` is the last element of `out`.
pub merge : Extent → List Extent → List Extent
merge last [] = last ∷ []
merge last (e ∷ es) =
    let joined = merge (widen last e) es in
    let apart = last ∷ merge e es in if lt_int64 (extent_end last) e.start then apart else joined

abbrev pub merge_sorted : List Extent → List Extent
merge_sorted [] = []
merge_sorted (e ∷ es) = merge e es

pub merge_extents : List Extent → List Extent
merge_extents es = merge_sorted (sort_stable es)

abbrev pub unmapped : Segment → Bool
unmapped seg = elim seg.pv_index [
  | pos n ↦ not (n == 0) || lt_int64 1 seg.stripe_count
  | negsuc n ↦ true
]

-- The first loop of `buildLogicalVolume`; `none` is its early return.
pub segment_extents : Vg → List Segment → Option (List Extent)
segment_extents vg [] = some []
segment_extents vg (seg ∷ segs) =
    let e : Extent = record {
      start = (vg.pe_start + seg.stripe_offset * vg.extent_bytes) % 2 ^ 64;
      size = seg.extent_count * vg.extent_bytes % 2 ^ 64;
    } in
    let rest = segment_extents vg segs in
    if unmapped seg then none else elim rest [ none ↦ none | some es ↦ some (e ∷ es) ]

-- `lv.Size += e.Size`
pub total_size : ℕ → List Extent → ℕ
total_size sum [] = sum
total_size sum (e ∷ es) = total_size (add_int64 sum e.size) es

pub build_logical_volume : Vg → List ℕ → List Segment → LogicalVolume
build_logical_volume vg name segs = elim (segment_extents vg segs) [
  | none ↦ record { name = name; size = 0; extents = [] }
  | some es ↦ record {
    name = name;
    size = total_size 0 (merge_extents es);
    extents = merge_extents es;
  }
]
