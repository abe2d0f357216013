-- ===== src/Tests/Lvm.antt =====
-- lvm2/lvm2.go: witnesses.
use udf.Prelude.{ℕ, ◌≡◌, refl, List, [], ◌∷◌, arith, pos, negsuc, lt_int64, codes}
use udf.Lvm.{Extent, Vg, Segment, merge_extents, build_logical_volume}
use udf.Lvm.Merge.{AllSmall, Separated, covers, merge_extents-covers}
use udf.Lvm.Volume.{build_logical_volume-swaps}

-- Out of order, with two that touch and one that overlaps.
abbrev pieces : List Extent
pieces =
    (record { start = 8; size = 4 })
    ∷ (record { start = 0; size = 4 })
    ∷ (record { start = 4; size = 2 })
    ∷ (record { start = 10; size = 6 })
    ∷ []

pieces-AllSmall : AllSmall pieces
pieces-AllSmall = (omega arith, (omega arith, (omega arith, (omega arith, tt))))

merge_extents-covers_example :
    Separated (merge_extents pieces) × ((x : ℕ) → covers x (merge_extents pieces) ≡ covers x pieces)
merge_extents-covers_example = merge_extents-covers pieces pieces-AllSmall

abbrev group : Vg
group = record {
  name = codes "vg";
  seqno = 1;
  extent_bytes = 4;
  pe_start = 8;
  pe_count = 10;
  volumes = [];
}

abbrev front : Segment
front = record { stripe_offset = 1; extent_count = 2; stripe_count = 1; pv_index = pos 0 }

abbrev back : Segment
back = record { stripe_offset = 5; extent_count = 2; stripe_count = 1; pv_index = pos 0 }

abbrev elsewhere : Segment
elsewhere = record { stripe_offset = 5; extent_count = 2; stripe_count = 1; pv_index = negsuc 0 }

-- A volume that was extended into a hole in front of its first segment.
build_logical_volume-swaps_example :
    (build_logical_volume group (codes "root") (back ∷ front ∷ [])).extents
    ≡ (record { start = 12; size = 8 }) ∷ (record { start = 28; size = 8 }) ∷ []
unfolding lt_int64
build_logical_volume-swaps_example =
    build_logical_volume-swaps group (codes "root") back front refl refl (omega arith) (omega arith)
