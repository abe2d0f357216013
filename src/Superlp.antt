-- ===== src/Superlp.antt =====
-- superlp/superlp.go: the LP metadata of Android super partitions, its records and the tests on a
-- partition's extents.
pub mod Parse
pub mod Mapping
use udf.Prelude.{
  ℕ, zero, suc, ◌+◌, ◌*◌, ◌%◌, ◌^◌, Bool, true, false, not, ◌&&◌, ◌||◌, Option, none, some, List,
  [], ◌∷◌, ◌==◌, if◌then◌else◌, ℤ, int64, bytes_eq,
}

abbrev pub sector_size : ℕ
sector_size = 512

abbrev pub target_linear : ℕ
target_linear = 0

abbrev pub target_zero : ℕ
target_zero = 1

pub record Geometry : Type 0 where
  pub max_metadata_size : ℕ
  pub slot_count : ℕ
  pub logical_block_sz : ℕ

pub record Extent : Type 0 where
  pub num_sectors : ℕ
  pub target_type : ℕ
  pub target_data : ℕ
  pub target_source : ℕ

pub record Partition : Type 0 where
  pub name : List ℕ
  pub attributes : ℕ
  pub extents : List Extent

pub record Metadata : Type 0 where
  pub geometry : Geometry
  pub partitions : List Partition

-- `Partition.Size`, whose uint64 sum and product wrap.
unfoldable pub sectors : List Extent → ℕ
sectors [] = 0
sectors (e ∷ es) = e.num_sectors + sectors es

unfoldable pub size_bytes : Partition → ℤ
size_bytes p = int64 (sectors p.extents * sector_size)

-- The loop of `Partition.Contiguous`, with the extent before the current one.
abbrev pub follows : Option Extent → Extent → Bool
follows none e = true
follows (some before) e = (before.target_data + before.num_sectors) % 2 ^ 64 == e.target_data

unfoldable pub is_run : Option Extent → List Extent → Bool
is_run before [] = true
is_run before (e ∷ es) =
    e.target_type == target_linear && e.target_source == 0 && follows before e && is_run (some e) es

-- `Partition.Contiguous`: the offset and the size, or `none` for `ok == false`.
unfoldable pub contiguous : Partition → Option (ℤ × ℤ)
contiguous p = elim p.extents [
  | [] ↦ none
  | first ∷ rest ↦
      if is_run none (first ∷ rest)
      then some (int64 (first.target_data * sector_size), size_bytes p)
      else none
]

-- `Metadata.Find`
pub find_name : List ℕ → List Partition → Option Partition
find_name name [] = none
find_name name (p ∷ ps) = if bytes_eq p.name name then some p else find_name name ps

pub find : Metadata → List ℕ → Option Partition
find m name = find_name name m.partitions
