-- ===== src/Qcow/Flat.antt =====
-- qcow/qcow.go: `ReadAt` against the disk as a map of clusters, of which some are compressed.
use udf.Prelude.{
  ℕ, zero, ◌+◌, ◌-◌, ◌*◌, ◌/◌, ◌%◌, ◌^◌, ◌≤◌, ◌<◌, ◌≡◌, ◌≢◌, refl, ap, sym, subst, ◌∙◌, true, false,
  Bool-cases, inl, inr, none, some, List, [], length, get_or, get_elem?, get_or_past,
  get_elem?-get_or, lt→ltb, ltb→lt, replicate, ltb, leb, ◌==◌, if◌then◌else◌, pos, be64, table,
  length-table, arith, length-replicate,
}
use native.Mathlib.Nat.{mod-lt}
use udf.Reader.{Result, ok, err, fetch-Serves, Serves, Serves-int64, slice}
use udf.Reader.Blocks.{
  slice-get_or, slice-cong, slice-zeros, same_block, block_chunk, block_chunk_bounds,
}
use udf.Reader.Chunks.Total.{flat, read_at-flat}
use udf.L2Cache.{Cache, cached}
use udf.L2Cache.Sound.{IsSound, cached-true}
use udf.Qcow.{
  Disk, Place, hole, compressed, stored, l2_max, read_table, l2_table, in_table, locate, chunk,
  room, inflated, decompress_cluster, serve_place, serve, fill, read_disk,
}
use udf.Qcow.Geometry.{
  IsGeometry, entry_place, place-entry_place, cluster_pos, entries_pos, first_index, second_index,
  room_small, chunk-block_chunk, cluster_lt,
}

-- The second-level table at an offset of the file.
abbrev pub table_at : Disk → (ℕ → ℕ) → ℕ → List ℕ
table_at d content offset = table be64 8 (slice content offset (d.l2_size * 8)) d.l2_size 0

-- Where the format puts a cluster, by its two table indices.
abbrev pub place_at : Disk → (ℕ → ℕ) → ℕ → Place
place_at d content cluster =
    let l2_offset = get_or d.l1 (cluster / d.l2_size) 0 in
    if l2_offset == 0
    then hole
    else entry_place d (get_or (table_at d content l2_offset) (cluster % d.l2_size) 0)

-- What a cluster that inflates holds.
abbrev pub inflation : Result (List ℕ) → List ℕ
inflation (ok full) = full
inflation (err e) = []

abbrev pub place_byte : (List ℕ → ℕ → Result (List ℕ)) → Disk → (ℕ → ℕ) → Place → ℕ → ℕ
place_byte inflate d content hole j = 0
place_byte inflate d content (stored a) j = content (a + j)
place_byte inflate d content (compressed coffset csize) j =
    get_or (inflation (inflate (slice content coffset csize) d.cluster_size)) j 0

abbrev pub qcow_byte : (List ℕ → ℕ → Result (List ℕ)) → Disk → (ℕ → ℕ) → ℕ → ℕ
qcow_byte inflate d content i =
    place_byte inflate d content (place_at d content (i / d.cluster_size)) (i % d.cluster_size)

-- The file holds the second-level tables and the data of every cluster of a disk of `limit` bytes,
-- and each compressed cluster inflates to its size.
pub record HeldBy (inflate : List ℕ → ℕ → Result (List ℕ)) (d : Disk) (content : ℕ → ℕ)
    (limit file_size : ℕ) : Type 0 where
  pub tables :
      (k offset : ℕ)
      → get_elem? d.l1 k ≡ some offset
      → offset ≢ 0
      → offset + d.l2_size * 8 ≤ file_size
  pub data_ :
      (i a : ℕ)
      → i < limit
      → place_at d content (i / d.cluster_size) ≡ stored a
      → a + i % d.cluster_size < file_size
  pub packed :
      (i coffset csize : ℕ)
      → i < limit
      → place_at d content (i / d.cluster_size) ≡ compressed coffset csize
      → (coffset + csize ≤ file_size)
        × (0 < csize)
        × (full : List ℕ) × (inflate (slice content coffset csize) d.cluster_size ≡ ok full)
        × (length full ≡ d.cluster_size)

module _ (inflate : List ℕ → ℕ → Result (List ℕ)) (d : Disk) (limit file_size : ℕ) (content : ℕ → ℕ)
    (sized : d.disk_size ≡ pos limit) (geometry : IsGeometry d)
    (served : Serves d.ra file_size content) (small : file_size < 2 ^ 63)
    (held : HeldBy inflate d content limit file_size) where
  read_table-table_at :
      (offset : ℕ)
      → offset + d.l2_size * 8 ≤ file_size
      → read_table d offset ≡ ok (table_at d content offset)
  unfolding read_table
  read_table-table_at offset h =
      let l = entries_pos d geometry in
      let r = fetch-Serves offset (d.l2_size * 8) served small (omega (arith, l)) h in
      let below : d.l2_size < 2 ^ 60 = omega arith in
      let whole : d.l2_size * 8 % 2 ^ 64 ≡ d.l2_size * 8 = omega arith in
      let first : (d.l2_size == 2 ^ 60) ≡ false = ground arith in
      let second : ltb (2 ^ 60) d.l2_size ≡ false = ground arith in rw (first, second, whole, r)

  in_table-place_at :
      (off : ℕ) (r : Result (List ℕ)) (c : Cache) (l2 : List ℕ)
      → r ≡ ok l2
      → length l2 ≡ d.l2_size
      → in_table d off (r, c)
        ≡ (ok (entry_place d (get_or l2 (off / d.cluster_size % d.l2_size) 0)), c)
  unfolding in_table
  in_table-place_at off r c l2 e l =
      let n = off / d.cluster_size in
      let inside : ltb (n % d.l2_size) (length l2) ≡ true =
        rw l (lt→ltb _ _ (mod-lt n (entries_pos d geometry))) in
      rw (e, second_index d geometry n, inside)
        (ap (λ o. (ok o, c)) (place-entry_place d geometry (get_or l2 (n % d.l2_size) 0)))

  locate-place_at :
      (off : ℕ) (c : Cache)
      → IsSound (table_at d content) l2_max c
      → ((locate d off c).0 ≡ ok (place_at d content (off / d.cluster_size)))
        × IsSound (table_at d content) l2_max (locate d off c).1
  unfolding locate l2_table
  locate-place_at off c s =
      let k = off / d.cluster_size / d.l2_size in
      let l2_offset = get_or d.l1 k 0 in
      let index = first_index d geometry off in
      elim (Bool-cases (ltb k (length d.l1))) [
        | inr past ↦
            let nothing : l2_offset ≡ 0 = get_or_past d.l1 k 0 (ground arith) in
            rw (index, past, nothing) (refl, s)
        | inl inside ↦ elim (Bool-cases (l2_offset == 0)) [
          | inl unmapped ↦ rw (index, inside, unmapped) (refl, s)
          | inr there ↦
              let fits =
                held.tables k l2_offset (get_elem?-get_or d.l1 k 0 (ltb→lt _ _ inside))
                  (ground arith) in
              let (hit, sound) =
                cached-true (table_at d content) l2_max (read_table d) l2_offset c
                  (read_table-table_at l2_offset fits) s in
              let e =
                in_table-place_at off _ (cached l2_max (read_table d) l2_offset c).1
                  (table_at d content l2_offset) hit (length-table be64 8 _ d.l2_size 0) in
              rw (index, inside, there)
                (
                  ap (λ r. r.0) e,
                  subst (λ r. IsSound (table_at d content) l2_max r.1) (sym e) sound,
                )
        ]
      ]

  not_negative : (off : ℕ) → leb (2 ^ 63) (room d off) ≡ false
  not_negative off =
      let l = cluster_lt d geometry in let r = room_small d geometry off in rw r (ground arith)

  -- A compressed cluster is read and inflated whole.
  decompress_cluster-full :
      (coffset csize : ℕ) (full : List ℕ)
      → coffset + csize ≤ file_size
      → 0 < csize
      → inflate (slice content coffset csize) d.cluster_size ≡ ok full
      → decompress_cluster inflate d coffset csize ≡ ok full
  unfolding decompress_cluster inflated
  decompress_cluster-full coffset csize full h l e =
      let n = length-replicate csize zero in
      let r =
        Serves-int64 coffset (replicate csize 0) served small (omega (arith, n))
          (omega (arith, n)) in
      rw (r, n, e)

  -- One chunk of a cluster, for each place where its data may stand.
  serve_place-slice :
      (off : ℕ) (q : List ℕ) (at_ : Place)
      → 0 < length q
      → off + length q ≤ limit
      → off % d.cluster_size + length q ≤ d.cluster_size
      → place_at d content (off / d.cluster_size) ≡ at_
      → serve_place inflate d off q at_ ≡ (slice (qcow_byte inflate d content) off (length q), none)
  unfolding serve_place
  serve_place-slice off q hole l h w e =
      let zeros = slice-zeros (qcow_byte inflate d content) off (length q) (λ j k.
        let (same, rest) = same_block d.cluster_size off j (omega arith) in rw (same, rest, e)) in
      rw (not_negative off, zeros)
  serve_place-slice off q (stored a) l h w e =
      let i = off + (length q - 1) in
      let (same, rest) = same_block d.cluster_size off (length q - 1) (omega arith) in
      let last = held.data_ i a (omega arith) (ap (place_at d content) same ∙ e) in
      let r = Serves-int64 (a + off % d.cluster_size) q served small l (omega arith) in
      let bytes =
        slice-cong (qcow_byte inflate d content) content off (a + off % d.cluster_size) (length q)
          (λ j k.
            let (same, rest) = same_block d.cluster_size off j (omega arith) in
            let moved : a + (off % d.cluster_size + j) ≡ a + off % d.cluster_size + j =
              omega arith in
            rw (same, rest, e, moved)) in
      rw (not_negative off, r, bytes)
  serve_place-slice off q (compressed coffset csize) l h w e =
      let (inside, some_bytes, full, inflates, whole) =
        held.packed off coffset csize (omega arith) e in
      let r = decompress_cluster-full coffset csize full inside some_bytes inflates in
      let bytes =
        slice-cong (qcow_byte inflate d content) (λ j. get_or full j 0) off (off % d.cluster_size)
          (length q)
          (λ j k.
            let (same, rest) = same_block d.cluster_size off j (omega arith) in
            rw (same, rest, e, inflates)) in
      let part = slice-get_or full (off % d.cluster_size) (length q) (omega arith) in
      rw (r, not_negative off, bytes, part)

  fill-qcow_byte :
      (c : Cache) (off len : ℕ) (q : List ℕ)
      → IsSound (table_at d content) l2_max c
      → 0 < len
      → off + len ≤ limit
      → length q ≡ block_chunk d.cluster_size off len
      → IsSound (table_at d content) l2_max (fill inflate d c off q).0
        × ((fill inflate d c off q).1 ≡ slice (qcow_byte inflate d content) off (length q))
        × ((fill inflate d c off q).2 ≡ none)
  unfolding fill serve
  fill-qcow_byte c off len q s l le e =
      let (found, sound) = locate-place_at off c s in
      let bounds = block_chunk_bounds d.cluster_size off len (cluster_pos d geometry) l in
      let at_ = place_at d content (off / d.cluster_size) in
      let r = serve_place-slice off q at_ (omega arith) (omega arith) (omega arith) refl in
      rw found (sound, ap (λ x. x.0) r, ap (λ x. x.1) r)

  -- Inside a disk of `limit` bytes with the geometry that `Open` computes, whose file holds every
  -- second-level table and the data of every cluster, with compressed clusters that inflate to a
  -- cluster's size, and from any cache whose tables are those of the file, `ReadAt` fills `p` up to
  -- the end of the disk with the bytes that the two levels of tables describe: zeros, the bytes of
  -- the file, or those of the inflated cluster. It leaves such a cache, and returns how many bytes
  -- these are, and no error.
  pub read_disk-qcow_byte :
      (c : Cache) (p : List ℕ) (off : ℕ)
      → limit < 2 ^ 63
      → IsSound (table_at d content) l2_max c
      → off < limit
      → (c' : Cache) × IsSound (table_at d content) l2_max c'
        × (read_disk inflate d c p (pos off)
            ≡ some (c', flat (qcow_byte inflate d content) limit off p))
  unfolding read_disk
  read_disk-qcow_byte c p off fits s h = simp sized (
      read_at-flat (chunk d) (fill inflate d) (IsSound (table_at d content) l2_max)
        (qcow_byte inflate d content) limit
        (λ o len l le.
          let same = chunk-block_chunk d geometry o len (omega arith) in
          let (x, y, z) = block_chunk_bounds d.cluster_size o len (cluster_pos d geometry) l in
          rw same (x, y))
        (λ c o len q s l le e.
          fill-qcow_byte c o len q s l le (e ∙ chunk-block_chunk d geometry o len (omega arith)))
        c p off s h)
