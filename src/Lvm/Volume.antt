-- ===== src/Lvm/Volume.antt =====
-- lvm2/lvm2.go: the extents of a logical volume, from its segments.
use udf.Prelude.{
  ℕ, ◌+◌, ◌*◌, ◌%◌, ◌^◌, ◌<◌, ◌≡◌, ◌∙◌, false, some, List, [], ◌∷◌, lt→ltb, arith, lt_int64_small,
  add_int64_small,
}
use udf.Lvm.{
  Extent, Vg, Segment, insert, sort_stable, merge, merge_extents, unmapped, segment_extents,
  build_logical_volume,
}

-- The bytes of a segment on the physical volume.
abbrev pub segment_extent : Vg → Segment → Extent
segment_extent vg seg = record {
  start = vg.pe_start + seg.stripe_offset * vg.extent_bytes;
  size = seg.extent_count * vg.extent_bytes;
}

two_segments :
    (vg : Vg) (a b : Segment)
    → unmapped a ≡ false
    → unmapped b ≡ false
    → (segment_extent vg a).start + (segment_extent vg a).size < 2 ^ 63
    → (segment_extent vg b).start + (segment_extent vg b).size < 2 ^ 63
    → segment_extents vg (a ∷ b ∷ []) ≡ some (segment_extent vg a ∷ segment_extent vg b ∷ [])
unfolding segment_extents
two_segments vg a b u v s t =
    let ea = segment_extent vg a in
    let eb = segment_extent vg b in
    let a1 : ea.start % 2 ^ 64 ≡ ea.start = omega arith in
    let a2 : ea.size % 2 ^ 64 ≡ ea.size = omega arith in
    let b1 : eb.start % 2 ^ 64 ≡ eb.start = omega arith in
    let b2 : eb.size % 2 ^ 64 ≡ eb.size = omega arith in rw (segment_extents, u, v, a1, a2, b1, b2)

swapped :
    (a b : Extent)
    → a.start + a.size < 2 ^ 63
    → b.start + b.size < a.start
    → merge_extents (a ∷ b ∷ []) ≡ b ∷ a ∷ []
unfolding merge_extents sort_stable insert merge
swapped a b s t =
    let sum = add_int64_small b.start b.size (omega arith) in
    let first =
      lt_int64_small b.start a.start (omega arith) (omega arith) ∙ lt→ltb _ _ (omega arith) in
    let gap =
      lt_int64_small (b.start + b.size) a.start (omega arith) (omega arith) ∙ lt→ltb _ _ t in
    rw (first, sum, gap)

-- Where two mapped segments do not wrap around and the second of them lies in front of the first on
-- the physical volume, with a gap between them, the volume's extents are the second segment's bytes
-- and then the first one's: the order of the segments, which is that of the volume's bytes, is lost.
pub build_logical_volume-swaps :
    (vg : Vg) (name : List ℕ) (a b : Segment)
    → unmapped a ≡ false
    → unmapped b ≡ false
    → (segment_extent vg a).start + (segment_extent vg a).size < 2 ^ 63
    → (segment_extent vg b).start + (segment_extent vg b).size < (segment_extent vg a).start
    → (build_logical_volume vg name (a ∷ b ∷ [])).extents
      ≡ segment_extent vg b ∷ segment_extent vg a ∷ []
unfolding build_logical_volume
build_logical_volume-swaps vg name a b u v s t =
    let two = two_segments vg a b u v s (omega arith) in
    let m = swapped (segment_extent vg a) (segment_extent vg b) s t in
    rw (two, m, build_logical_volume)
