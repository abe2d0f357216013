-- ===== src/Qed/Flat.antt =====
-- qed/qed.go: `ReadAt` against the disk as a map of clusters behind two levels of tables.
use udf.Prelude.{
  ℕ, ◌+◌, ◌/◌, ◌%◌, ◌^◌, ◌≤◌, ◌<◌, ◌≡◌, ◌≢◌, refl, ap, sym, subst, ◌∙◌, true, Option-cases,
  Bool-cases, inl, inr, Option, none, some, List, length, get_or, get_elem?, get_or_past,
  get_elem?-get_or, lt→ltb, ltb→lt, replicate, ltb, ◌==◌, if◌then◌else◌, pos, le64, table,
  length-table, arith,
}
use mathlib.Core.Option
use native.Mathlib.Nat.{div-div-eq-div-mul, mod-lt}
use udf.Reader.{Result, ok, fetch-Serves, Serves, Serves-int64, slice}
use udf.Reader.Blocks.{
  block_byte, InFile, block_chunk, block_chunk_bounds, chunk-mapped, chunk-unmapped, chunk-InFile,
}
use udf.Reader.Chunks.Total.{flat, read_at-flat}
use udf.L2Cache.{Cache, cached}
use udf.L2Cache.Sound.{IsSound, cached-true}
use udf.Qed.{Disk, l2_max, read_table, l2_table, data_off, in_table, locate, serve, fill, read_disk}
use udf.Qed.Geometry.{IsGeometry}

-- The second-level table at an offset of the file.
abbrev pub table_at : Disk → (ℕ → ℕ) → ℕ → List ℕ
table_at d content offset = table le64 8 (slice content offset d.table_bytes) d.table_nelems 0

-- Where the format puts a cluster, by its two table indices.
abbrev pub entry_base : ℕ → Option ℕ
entry_base e = if e == 0 then none else if e == 1 then none else some e

abbrev pub base : Disk → (ℕ → ℕ) → ℕ → Option ℕ
base d content cluster =
    let l2_offset = get_or d.l1 (cluster / d.table_nelems) 0 in
    if l2_offset == 0
    then none
    else entry_base (get_or (table_at d content l2_offset) (cluster % d.table_nelems) 0)

abbrev pub qed_byte : Disk → (ℕ → ℕ) → ℕ → ℕ
qed_byte d content = block_byte d.cluster_size (base d content) content

-- Every second-level table lies inside the file.
abbrev pub TablesInFile : Disk → ℕ → Type 0
TablesInFile d file_size =
    (k offset : ℕ)
    → get_elem? d.l1 k ≡ some offset
    → offset ≢ 0
    → offset + d.table_bytes ≤ file_size

module _ (d : Disk) (limit file_size : ℕ) (content : ℕ → ℕ) (sized : d.disk_size ≡ pos limit)
    (geometry : IsGeometry d) (served : Serves d.ra file_size content) (small : file_size < 2 ^ 63)
    (tables : TablesInFile d file_size)
    (mapped : InFile d.cluster_size (base d content) limit file_size) where
  read_table-table_at :
      (offset : ℕ)
      → offset + d.table_bytes ≤ file_size
      → read_table d offset ≡ ok (table_at d content offset)
  unfolding read_table
  read_table-table_at offset h =
      let r =
        fetch-Serves offset d.table_bytes served small
          (omega (arith, geometry.entries, geometry.bytes)) h in
      rw r

  -- The two indices, as the code computes them by shift and mask.
  first_index : (off : ℕ) → off / 2 ^ d.l1_shift ≡ off / d.cluster_size / d.table_nelems
  first_index off =
      ap (λ n. off / n) geometry.shift ∙ sym (div-div-eq-div-mul off d.cluster_size d.table_nelems)

  data_off-entry_base : (e n : ℕ) → data_off e n ≡ Option.map (λ a. a + n) (entry_base e)
  data_off-entry_base e n = ground arith

  in_table-entry_base :
      (off : ℕ) (r : Result (List ℕ)) (c : Cache) (l2 : List ℕ)
      → r ≡ ok l2
      → length l2 ≡ d.table_nelems
      → in_table d off (r, c) ≡ (
        ok (
            Option.map
              (λ a. a + off % d.cluster_size)
              (entry_base (get_or l2 (off / d.cluster_size % d.table_nelems) 0))),
        c,
      )
  unfolding in_table
  in_table-entry_base off r c l2 e l =
      let n = off / d.cluster_size in
      let inside : ltb (n % d.table_nelems) (length l2) ≡ true =
        rw l (lt→ltb _ _ (mod-lt n geometry.entries)) in
      rw (e, geometry.mask n, inside)
        (ap (λ o. (ok o, c)) (data_off-entry_base (get_or l2 (n % d.table_nelems) 0) _))

  locate-base :
      (off : ℕ) (c : Cache)
      → IsSound (table_at d content) l2_max c
      → ((locate d off c).0
          ≡ ok (Option.map (λ a. a + off % d.cluster_size) (base d content (off / d.cluster_size))))
        × IsSound (table_at d content) l2_max (locate d off c).1
  unfolding locate l2_table
  locate-base off c s =
      let k = off / d.cluster_size / d.table_nelems in
      let l2_offset = get_or d.l1 k 0 in
      elim (Bool-cases (ltb k (length d.l1))) [
        | inr past ↦
            let nothing : l2_offset ≡ 0 = get_or_past d.l1 k 0 (ground arith) in
            rw (first_index off, past, nothing) (refl, s)
        | inl inside ↦ elim (Bool-cases (l2_offset == 0)) [
          | inl unmapped ↦ rw (first_index off, inside, unmapped) (refl, s)
          | inr there ↦
              let fits =
                tables k l2_offset (get_elem?-get_or d.l1 k 0 (ltb→lt _ _ inside)) (ground arith) in
              let (hit, sound) =
                cached-true (table_at d content) l2_max (read_table d) l2_offset c
                  (read_table-table_at l2_offset fits) s in
              let e =
                in_table-entry_base off _ (cached l2_max (read_table d) l2_offset c).1
                  (table_at d content l2_offset) hit (length-table le64 8 _ d.table_nelems 0) in
              rw (first_index off, inside, there)
                (
                  ap (λ r. r.0) e,
                  subst (λ r. IsSound (table_at d content) l2_max r.1) (sym e) sound,
                )
        ]
      ]

  serve-hole :
      (q : List ℕ) (r : Result (Option ℕ)) (c : Cache)
      → r ≡ ok none
      → serve d q (r, c) ≡ (c, replicate (length q) 0, none)
  unfolding serve
  serve-hole q r c e = rw e

  serve-data :
      (q : List ℕ) (r : Result (Option ℕ)) (c : Cache) (a : ℕ)
      → r ≡ ok (some a)
      → 0 < length q
      → a + length q ≤ file_size
      → serve d q (r, c) ≡ (c, slice content a (length q), none)
  unfolding serve
  serve-data q r c a e l h = rw (e, Serves-int64 a q served small l h)

  -- One chunk of `ReadAt`, with the cache that the look-up of its tables leaves.
  fill-slice :
      (c : Cache) (off len : ℕ) (q : List ℕ)
      → IsSound (table_at d content) l2_max c
      → 0 < len
      → off + len ≤ limit
      → length q ≡ block_chunk d.cluster_size off len
      → fill d c off q ≡ ((locate d off c).1, slice (qed_byte d content) off (length q), none)
  unfolding fill
  fill-slice c off len q s l le e =
      let (found, sound) = locate-base off c s in
      let bounds = block_chunk_bounds d.cluster_size off len geometry.positive l in
      let b = base d content in
      let moved = λ (o : Option ℕ). ok (Option.map (λ a. a + off % d.cluster_size) o) in
      elim (Option-cases (b (off / d.cluster_size))) [
        | inl hole ↦
            serve-hole q _ (locate d off c).1 (found ∙ ap moved hole)
            ∙ ap (λ p. ((locate d off c).1, p, none))
                (sym (chunk-unmapped d.cluster_size b content off (length q) (omega arith) hole))
        | inr (a, there) ↦
            let inside =
              chunk-InFile d.cluster_size b content limit file_size off (length q) a mapped
                (omega arith) (omega arith) (omega arith) there in
            serve-data q _ (locate d off c).1 (a + off % d.cluster_size) (found ∙ ap moved there)
              (omega arith) inside
            ∙ ap (λ p. ((locate d off c).1, p, none))
                (sym (chunk-mapped d.cluster_size b content off (length q) a (omega arith) there))
      ]

  fill-qed_byte :
      (c : Cache) (off len : ℕ) (q : List ℕ)
      → IsSound (table_at d content) l2_max c
      → 0 < len
      → off + len ≤ limit
      → length q ≡ block_chunk d.cluster_size off len
      → IsSound (table_at d content) l2_max (fill d c off q).0
        × ((fill d c off q).1 ≡ slice (qed_byte d content) off (length q))
        × ((fill d c off q).2 ≡ none)
  fill-qed_byte c off len q s l le e =
      let f = fill-slice c off len q s l le e in
      let (found, sound) = locate-base off c s in
      (
        subst (λ r. IsSound (table_at d content) l2_max r.0) (sym f) sound,
        ap (λ r. r.1) f,
        ap (λ r. r.2) f,
      )

  -- Inside a disk of `limit` bytes with the geometry that `Open` computes, whose file serves `content`
  -- and holds every second-level table and every mapped cluster, and from any cache whose tables are
  -- those of the file, `ReadAt` fills `p` up to the end of the disk with the bytes that the two levels
  -- of tables describe, and leaves such a cache. It returns how many these are, and no error.
  pub read_disk-qed_byte :
      (c : Cache) (p : List ℕ) (off : ℕ)
      → IsSound (table_at d content) l2_max c
      → off < limit
      → (c' : Cache) × IsSound (table_at d content) l2_max c'
        × (read_disk d c p (pos off) ≡ some (c', flat (qed_byte d content) limit off p))
  unfolding read_disk
  read_disk-qed_byte c p off s h = simp sized (
      read_at-flat (block_chunk d.cluster_size) (fill d) (IsSound (table_at d content) l2_max)
        (qed_byte d content) limit
        (λ o len l le.
          let (x, y, z) = block_chunk_bounds d.cluster_size o len geometry.positive l in (x, y))
        fill-qed_byte c p off s h)
