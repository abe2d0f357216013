-- ===== src/Superlp/Parse.antt =====
-- `Detect`, `Open`, `readGeometry` and `readSlot` of superlp/superlp.go.
pub mod Slots
use udf.Prelude.{
  ℕ, zero, suc, ◌+◌, ◌*◌, ◌%◌, ◌^◌, Bool, true, false, not, ◌||◌, Option, none, some, List, [], ◌∷◌,
  ◌++◌, length, take, drop, ltb, ◌==◌, if◌then◌else◌, int64, le32, le64,
}
use udf.Reader.{
  Error, bad_magic, invalid, missing, Result, ok, err, ◌>>=◌, ◌>>◌, refuse, ReaderAt, fetch,
}
use udf.Superlp.{Geometry, Extent, Partition, Metadata}

abbrev pub geometry_magic : ℕ
geometry_magic = 0x616c_4467

abbrev pub header_magic : ℕ
header_magic = 0x414c_5030

abbrev pub geometry_offset : ℕ
geometry_offset = 4096

abbrev pub geometry_size : ℕ
geometry_size = 4096

abbrev pub geometry_struct_size : ℕ
geometry_struct_size = 52

abbrev pub metadata_header_size : ℕ
metadata_header_size = 128

abbrev pub max_metadata_size : ℕ
max_metadata_size = 16 * 2 ^ 20

abbrev pub max_slots : ℕ
max_slots = 8

abbrev pub max_entries : ℕ
max_entries = 2 ^ 20

abbrev pub name_len : ℕ
name_len = 36

-- `Detect`. An offset `origin` is that of a partition, and not negative.
pub detect : ReaderAt → ℕ → Bool
detect ra origin = elim (fetch ra (int64 (origin + geometry_offset)) 4) [
  | ok magic ↦ le32 magic 0 == geometry_magic
  | err e ↦ false
]

-- A slot count of 0 is read as 1.
abbrev pub slot_count : ℕ → ℕ
slot_count n = if n == 0 then 1 else n

unfoldable pub read_geometry : ReaderAt → ℕ → Result Geometry
read_geometry ra origin = do
  b ← fetch ra (int64 (origin + geometry_offset)) geometry_struct_size
  refuse (not (le32 b 0 == geometry_magic)) bad_magic
  refuse (ltb (le32 b 4) geometry_struct_size) invalid
  refuse (ltb max_slots (slot_count (le32 b 44))) invalid
  ok (record {
    max_metadata_size = le32 b 40;
    slot_count = slot_count (le32 b 44);
    logical_block_sz = le32 b 48;
  })

-- `tableDescriptor`
pub record Descriptor : Type 0 where
  pub offset : ℕ
  pub entries : ℕ
  pub entry_size : ℕ

unfoldable pub descriptor : List ℕ → ℕ → Descriptor
descriptor hdr i =
    let off = 80 + i * 12 in
    record { offset = le32 hdr off; entries = le32 hdr (off + 4); entry_size = le32 hdr (off + 8) }

-- A table must have entries of some size, not too many, and end within the tables area.
unfoldable pub check_table : ℕ → Descriptor → Result (Unit {0})
check_table tables_size d = if d.entries == 0 then ok tt else do
  refuse (d.entry_size == 0 || ltb max_entries d.entries) invalid
  refuse (ltb tables_size ((d.offset + d.entries * d.entry_size) % 2 ^ 64)) invalid

unfoldable pub parse_extent : List ℕ → Extent
parse_extent e = record {
  num_sectors = le64 e 0;
  target_type = le32 e 8;
  target_data = le64 e 12;
  target_source = le32 e 20;
}

-- The loop over the extent table, from entry `i` on.
unfoldable pub read_extents : ReaderAt → ℕ → Descriptor → ℕ → ℕ → Result (List Extent)
read_extents ra tables d zero i = ok []
read_extents ra tables d (suc n) i = do
  e ← fetch ra (int64 (tables + d.offset + i * d.entry_size)) 24
  rest ← read_extents ra tables d n (i + 1)
  ok (parse_extent e ∷ rest)

-- `cString`: a NUL-padded name.
unfoldable pub c_string : List ℕ → List ℕ
c_string [] = []
c_string (x ∷ xs) = if x == 0 then [] else x ∷ c_string xs

-- One entry of the partition table, and those after it. An entry with no name is passed over.
unfoldable pub keep_partition :
    List Extent → List ℕ → Result (List Partition) → Result (List Partition)
keep_partition extents buf rest =
    let first = le32 buf 40 in
    let count = le32 buf 44 in
    let p : Partition = record {
      name = c_string (take name_len buf);
      attributes = le32 buf 36;
      extents = take count (drop first extents);
    } in
    elim p.name [
      | [] ↦ rest
      | x ∷ xs ↦ do refuse (ltb (length extents) (first + count)) invalid; ps ← rest; ok (p ∷ ps)
    ]

unfoldable pub read_partitions :
    ReaderAt → ℕ → Descriptor → List Extent → ℕ → ℕ → Result (List Partition)
read_partitions ra tables d extents zero i = ok []
read_partitions ra tables d extents (suc n) i = do
  refuse (ltb d.entry_size 52) invalid
  buf ← fetch ra (int64 (tables + d.offset + i * d.entry_size)) d.entry_size
  keep_partition extents buf (read_partitions ra tables d extents n (i + 1))

abbrev pub some_partition : Geometry → List Partition → Result Metadata
some_partition geom [] = err missing
some_partition geom (p ∷ ps) = ok (record { geometry = geom; partitions = p ∷ ps })

-- `readSlot`
unfoldable pub read_slot : ReaderAt → ℕ → Geometry → Result Metadata
read_slot ra slot geom = do
  hdr ← fetch ra (int64 slot) metadata_header_size
  refuse (not (le32 hdr 0 == header_magic)) bad_magic
  refuse (ltb (le32 hdr 8) metadata_header_size || ltb geom.max_metadata_size (le32 hdr 8)) invalid
  check_table (le32 hdr 44) (descriptor hdr 0)
  check_table (le32 hdr 44) (descriptor hdr 1)
  check_table (le32 hdr 44) (descriptor hdr 2)
  check_table (le32 hdr 44) (descriptor hdr 3)
  let tables = slot + le32 hdr 8
  extents ← read_extents ra tables (descriptor hdr 1) (descriptor hdr 1).entries 0
  ps ← read_partitions ra tables (descriptor hdr 0) extents (descriptor hdr 0).entries 0
  some_partition geom ps

-- The offsets of `n` slots from slot `i` on.
unfoldable pub slots_from : ℕ → ℕ → ℕ → ℕ → List ℕ
slots_from base slot_size zero i = []
slots_from base slot_size (suc n) i = (base + i * slot_size) ∷ slots_from base slot_size n (i + 1)

-- The primary slots, then the backup ones.
unfoldable pub slot_offsets : ℕ → Geometry → List ℕ
slot_offsets origin geom =
    let primary = origin + geometry_offset + 2 * geometry_size in
    let backup = primary + geom.max_metadata_size * geom.slot_count in
    slots_from primary geom.max_metadata_size geom.slot_count 0
    ++ slots_from backup geom.max_metadata_size geom.slot_count 0

-- `firstErr` is the error of the first slot.
abbrev pub first_error : Option Error → Error → Error
first_error none e = e
first_error (some first) e = first

abbrev pub give_up : Option Error → Result Metadata
give_up none = err missing
give_up (some e) = err e

unfoldable pub first_readable : ReaderAt → Geometry → Option Error → List ℕ → Result Metadata
first_readable ra geom first [] = give_up first
first_readable ra geom first (slot ∷ slots) = elim (read_slot ra slot geom) [
  | ok md ↦ ok md
  | err e ↦ first_readable ra geom (some (first_error first e)) slots
]

-- `Open`
unfoldable pub open_super : ReaderAt → ℕ → Result Metadata
open_super ra origin = do
  geom ← read_geometry ra origin
  refuse (geom.max_metadata_size == 0 || ltb max_metadata_size geom.max_metadata_size) invalid
  first_readable ra geom none (slot_offsets origin geom)
