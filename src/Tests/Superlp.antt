-- ===== src/Tests/Superlp.antt =====
-- superlp/superlp.go: runs and witnesses.
use udf.Prelude.{
  ℕ, zero, suc, ◌+◌, ◌*◌, ◌<◌, ◌≡◌, ◌↔◌, refl, List, [], ◌∷◌, ◌++◌, some, none, pos, arith, inl,
  inr, length, get_elem?, get_or, replicate, int64, le32, le64, ltb, if◌then◌else◌, ◌-◌,
}
use udf.Reader.{bad_magic, ReaderAt, ok, err, fetch}
use udf.Reader.Memory.{memory, memory-Serves}
use udf.Superlp.{Extent, Partition, Geometry, Metadata, contiguous, is_run, size_bytes, sectors}
use udf.Superlp.Parse.{
  read_geometry, read_slot, descriptor, check_table, read_extents, parse_extent, read_partitions,
  keep_partition, c_string, slot_offsets, slots_from, open_super, first_readable,
}
use udf.Superlp.Parse.Slots.{open_super-fallback, open_super-fails, slot_offsets-get}
use udf.Superlp.Mapping.{mapping, read_mapping}
use udf.Superlp.Mapping.Extents.{total, lp_byte}
use udf.Superlp.Mapping.Flat.{built, ExtentsInFile}
use udf.Superlp.Mapping.Build.{AllPlain, mapping-built, read_mapping-lp_byte}
use udf.Superlp.Mapping.Run.{contiguous-lp_byte}

-- One sector of the super partition, a sector of zeros, and the sector before the first.
abbrev two : Extent
two = record { num_sectors = 1; target_type = 0; target_data = 2; target_source = 0 }

abbrev hole : Extent
hole = record { num_sectors = 1; target_type = 1; target_data = 0; target_source = 0 }

abbrev one : Extent
one = record { num_sectors = 1; target_type = 0; target_data = 1; target_source = 0 }

abbrev system : Partition
system = record { name = 115 ∷ []; attributes = 0; extents = two ∷ hole ∷ one ∷ [] }

-- Each byte of the file is its own offset.
abbrev content : ℕ → ℕ
content i = i

abbrev image : ReaderAt
image = memory 2048 content

system-AllPlain : AllPlain (two ∷ hole ∷ one ∷ [])
system-AllPlain = ((refl, inl refl), ((refl, inr refl), ((refl, inl refl), tt)))

system_made : mapping image 512 system ≡ ok (built image 512 (two ∷ hole ∷ one ∷ []))
system_made = (mapping-built image 512 system _ (omega arith)).1 (system-AllPlain, refl)

system-ExtentsInFile : ExtentsInFile 512 (two ∷ hole ∷ one ∷ []) 2048
system-ExtentsInFile zero l n = omega arith
system-ExtentsInFile (suc zero) l n = absurd (n refl)
system-ExtentsInFile (suc (suc zero)) l n = omega arith
system-ExtentsInFile (suc (suc (suc k))) l n = absurd (omega arith)

mapping-built_example :
    (mapping image 512 system ≡ ok (built image 512 (two ∷ hole ∷ one ∷ []))) ↔ (
      AllPlain (two ∷ hole ∷ one ∷ [])
      × (built image 512 (two ∷ hole ∷ one ∷ []) ≡ built image 512 (two ∷ hole ∷ one ∷ [])))
mapping-built_example =
    mapping-built image 512 system (built image 512 (two ∷ hole ∷ one ∷ [])) (omega arith)

-- The read begins in the last byte of the first sector.
read_mapping-lp_byte_example :
    read_mapping (built image 512 (two ∷ hole ∷ one ∷ [])) (7 ∷ 7 ∷ 7 ∷ []) (pos 511)
    ≡ some (record { buf = 2047 ∷ 0 ∷ 0 ∷ []; n = 3; fault = none })
read_mapping-lp_byte_example =
    read_mapping-lp_byte image 512 2048 content system (built image 512 (two ∷ hole ∷ one ∷ []))
      (7 ∷ 7 ∷ 7 ∷ []) 511 (memory-Serves 2048 content) (omega arith) (omega arith)
      system-ExtentsInFile system_made (omega arith) (omega arith)

-- Two sectors in a row.
run_found : contiguous (record system { extents = one ∷ two ∷ [] }) ≡ some (pos 512, pos 1024)
unfolding contiguous is_run size_bytes sectors int64
run_found = refl

contiguous-lp_byte_example :
    AllPlain (one ∷ two ∷ [])
    × (pos 512 ≡ pos (1 * 512))
    × (pos 1024 ≡ pos (total (one ∷ two ∷ [])))
    × ((i : ℕ) → i < 1024 → lp_byte 512 content (one ∷ two ∷ []) i ≡ content (512 + 1 * 512 + i))
unfolding sectors
contiguous-lp_byte_example =
    contiguous-lp_byte 512 content system (pos 512) (pos 1024) one (two ∷ []) (omega arith)
      run_found

-- A super partition of two metadata slots, of which the first primary one is blank.
abbrev geometry_bytes : List ℕ
geometry_bytes =
    (0x67 ∷ 0x44 ∷ 0x6c ∷ 0x61 ∷ 52 ∷ 0 ∷ 0 ∷ 0 ∷ [])
    ++ replicate 32 0
    ++ (0 ∷ 2 ∷ 0 ∷ 0 ∷ 2 ∷ 0 ∷ 0 ∷ 0 ∷ 0 ∷ 16 ∷ 0 ∷ 0 ∷ [])

abbrev slot_bytes : List ℕ
slot_bytes =
    (0x30 ∷ 0x50 ∷ 0x4c ∷ 0x41 ∷ 0 ∷ 0 ∷ 0 ∷ 0 ∷ 128 ∷ 0 ∷ 0 ∷ 0 ∷ [])
    ++ replicate 32 0
    ++ (76 ∷ 0 ∷ 0 ∷ 0 ∷ [])
    ++ replicate 32 0
    ++ (0 ∷ 0 ∷ 0 ∷ 0 ∷ 1 ∷ 0 ∷ 0 ∷ 0 ∷ 52 ∷ 0 ∷ 0 ∷ 0 ∷ [])
    ++ (52 ∷ 0 ∷ 0 ∷ 0 ∷ 1 ∷ 0 ∷ 0 ∷ 0 ∷ 24 ∷ 0 ∷ 0 ∷ 0 ∷ [])
    ++ replicate 24 0
    ++ (115 ∷ [])
    ++ replicate 43 0
    ++ (1 ∷ 0 ∷ 0 ∷ 0 ∷ 0 ∷ 0 ∷ 0 ∷ 0 ∷ 1 ∷ 0 ∷ 0 ∷ 0 ∷ 0 ∷ 0 ∷ 0 ∷ 0 ∷ 0 ∷ 0 ∷ 0 ∷ 0 ∷ 2 ∷ [])

abbrev super : ReaderAt
super = memory 16_384 (λ i.
    if ltb i 12_288
    then get_or geometry_bytes (i - 4096) 0
    else if ltb i 12_800
    then 0
    else get_or slot_bytes (i - 12_800) 0)

abbrev super_geometry : Geometry
super_geometry = record { max_metadata_size = 512; slot_count = 2; logical_block_sz = 4096 }

abbrev super_metadata : Metadata
super_metadata = record {
  geometry = super_geometry;
  partitions = record { name = 115 ∷ []; attributes = 0; extents = two ∷ [] } ∷ [];
}

parsing : Unit {0}
unfolding fetch le32 le64 int64 read_geometry read_slot descriptor check_table read_extents
    parse_extent read_partitions keep_partition c_string slot_offsets slots_from open_super
    first_readable
parsing = tt

super_located : read_geometry super 0 ≡ ok super_geometry
unfolding parsing
super_located = refl

super_slots : slot_offsets 0 super_geometry ≡ (12_288 ∷ []) ++ 12_800 ∷ (13_312 ∷ 13_824 ∷ [])
unfolding parsing
super_slots = refl

super_first : read_slot super 12_288 super_geometry ≡ err bad_magic
unfolding parsing
super_first = refl

super_second : read_slot super 12_800 super_geometry ≡ ok super_metadata
unfolding parsing
super_second = refl

open_super-fallback_example : open_super super 0 ≡ ok super_metadata
open_super-fallback_example =
    open_super-fallback super 0 super_geometry super_located (omega arith) (omega arith)
      (12_288 ∷ []) 12_800 (13_312 ∷ 13_824 ∷ []) super_metadata super_slots
      ((bad_magic, super_first), tt) super_second

-- The same image with its second slot blanked.
abbrev blank : ReaderAt
blank = memory 16_384 (λ i. if ltb i 12_288 then get_or geometry_bytes (i - 4096) 0 else 0)

blank_located : read_geometry blank 0 ≡ ok super_geometry
unfolding parsing
blank_located = refl

blank_slot :
    (read_slot blank 12_288 super_geometry ≡ err bad_magic)
    × (read_slot blank 12_800 super_geometry ≡ err bad_magic)
    × (read_slot blank 13_312 super_geometry ≡ err bad_magic)
    × (read_slot blank 13_824 super_geometry ≡ err bad_magic)
unfolding parsing
blank_slot = (refl, refl, refl, refl)

open_super-fails_example : open_super blank 0 ≡ err bad_magic
open_super-fails_example =
    open_super-fails blank 0 super_geometry blank_located (omega arith) (omega arith) 12_288
      (12_800 ∷ 13_312 ∷ 13_824 ∷ []) bad_magic super_slots blank_slot.0
      ((bad_magic, blank_slot.1), ((bad_magic, blank_slot.2), ((bad_magic, blank_slot.3), tt)))

slot_offsets-get_example :
    (length (slot_offsets 0 super_geometry) ≡ 4)
    × (get_elem? (slot_offsets 0 super_geometry) 3 ≡ some 13_824)
slot_offsets-get_example = slot_offsets-get 0 super_geometry 3 (omega arith)
