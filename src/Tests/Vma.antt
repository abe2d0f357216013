-- ===== src/Tests/Vma.antt =====
-- vma/vma.go: runs and witnesses.
use udf.Prelude.{
  ℕ, ◌≡◌, refl, true, List, [], ◌∷◌, ◌++◌, some, none, replicate, codes, be16, be32, bytes_eq,
}
use udf.Reader.{Result, ok, err, invalid, read_full}
use udf.Vma.{Disk, write_cluster, read_extent_header, apply_extent, read_extents, open_file}
use udf.Vma.Cluster.{concat, whole, cluster_byte, patched, Stores}
use udf.Vma.Full.{write_cluster-cluster_byte}
use udf.Vma.Total.{open_file_total}

-- A file in memory is its bytes.
abbrev write_memory : (ℕ → ℕ) → List ℕ → ℕ → Result (ℕ → ℕ)
write_memory file p pos = ok (patched file p pos)

memory-Stores : Stores write_memory (λ file. file)
memory-Stores = record { writes = λ file p pos. (patched file p pos, refl, λ x. refl) }

-- The first and the third chunk of a cluster.
abbrev chunks : List (List ℕ)
chunks = replicate 4096 7 ∷ replicate 4096 8 ∷ []

chunks_whole : whole chunks ≡ true
chunks_whole = refl

write_cluster-cluster_byte_example :
    (file : ℕ → ℕ) × (write_cluster write_memory 5 (λ x. 9) 65536 (concat chunks ++ 1 ∷ [])
      ≡ ok (file, 1 ∷ []))
    × ((x : ℕ) → file x ≡ cluster_byte 5 65536 chunks (λ x. 9) x)
write_cluster-cluster_byte_example =
    write_cluster-cluster_byte write_memory (λ file. file) memory-Stores 5 65536 (1 ∷ []) chunks
      (λ x. 9) refl chunks_whole

second_chunk : cluster_byte 5 65536 chunks (λ x. 9) 69633 ≡ 9
second_chunk = refl

-- An archive with no devices, and an extent whose block names one.
abbrev archive : List ℕ
archive =
    (86 ∷ 77 ∷ 65 ∷ 0 ∷ 0 ∷ 0 ∷ 0 ∷ 1 ∷ [])
    ++ replicate 50 0
    ++ (48 ∷ 1 ∷ [])
    ++ replicate 12229 0
    ++ codes "VMAE"
    ++ (0 ∷ 0 ∷ 0 ∷ 1 ∷ [])
    ++ replicate 32 0
    ++ (255 ∷ 255 ∷ 0 ∷ 1 ∷ [])
    ++ replicate 468 0

open_file_total_example :
    (r : Result (List (Disk (ℕ → ℕ)))) × (open_file write_memory (λ x. 0) archive ≡ some r)
open_file_total_example = open_file_total write_memory (λ x. 0) archive

abbrev extent : List ℕ
extent =
    codes "VMAE"
    ++ (0 ∷ 0 ∷ 0 ∷ 1 ∷ [])
    ++ replicate 32 0
    ++ (255 ∷ 255 ∷ 0 ∷ 1 ∷ [])
    ++ replicate 468 0

-- A block of a device that the archive does not have.
extent_refused : read_extents write_memory 2 (none ∷ none ∷ []) extent ≡ some (err invalid)
unfolding read_extents read_extent_header read_full apply_extent be16 be32 bytes_eq
extent_refused = refl
