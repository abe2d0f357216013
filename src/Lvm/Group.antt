-- ===== src/Lvm/Group.antt =====
-- lvm2/lvm2.go: the blocks of a volume group, and `Open`, which takes the newest snapshot. The loops
-- run on fuel, and an outer `none` means that the fuel ran out.
pub mod Total
pub mod Newest
use udf.Prelude.{
  ℕ, zero, suc, ◌+◌, ◌-◌, ◌*◌, ◌%◌, ◌^◌, Bool, true, false, ◌&&◌, Option, none, some, List, [], ◌∷◌,
  ◌++◌, ◌==◌, if◌then◌else◌, int64, lt_int64, bytes_eq, codes, length, take, drop, replicate,
}
use udf.Reader.{eof, device, malformed, missing, not_lvm, Result, ok, err, Read, ReaderAt, fetch}
use udf.Lvm.{Vg}
use udf.Lvm.Scanner.{read_value, skip_block}
use udf.Lvm.Parse.{
  sector_size, parse_int64, ended, closed, keyed, start, block, value, neither, parse_lv_body,
}

-- The `switch` on a key of a physical volume.
pub set_pv : List ℕ → List ℕ → ℕ × ℕ → ℕ × ℕ
set_pv key val (pe_start, pe_count) =
    if bytes_eq key (codes "pe_start")
    then (parse_int64 val, pe_count)
    else if bytes_eq key (codes "pe_count")
    then (pe_start, parse_int64 val)
    else (pe_start, pe_count)

-- `parsePVBody`
pub parse_pv_body : ℕ → ℕ × ℕ → List ℕ → Option (Result ((ℕ × ℕ) × List ℕ))
parse_pv_body zero pe s = none
parse_pv_body (suc fuel) pe s = elim (start s) [
  | ended ↦ some (err eof)
  | closed s ↦ some (ok (pe, s))
  | keyed key (block s) ↦ elim (skip_block 1 s) [
    | none ↦ some (err malformed)
    | some s ↦ parse_pv_body fuel pe s
  ]
  | keyed key (value s) ↦ parse_pv_body fuel (set_pv key (read_value s).0 pe) (read_value s).1
  | keyed key (neither s) ↦ some (err malformed)
]

-- Only the first physical volume is read.
abbrev pub first_pv : Vg → Bool
first_pv vg = vg.pe_start == 0 && vg.pe_count == 0

-- One block of `parsePhysicalVolumes`: the group behind it and what is left.
pub parse_pv : ℕ → Vg → List ℕ → Option (Result (Vg × List ℕ))
parse_pv fuel vg s = elim (first_pv vg) [
  | true ↦ elim (parse_pv_body fuel (0, 0) s) [
    | none ↦ none
    | some (err e) ↦ some (err e)
    | some (ok ((pe_start, pe_count), s)) ↦
        some (ok (record vg { pe_start = pe_start * sector_size % 2 ^ 64; pe_count = pe_count }, s))
  ]
  | false ↦ elim (skip_block 1 s) [ none ↦ some (err malformed) | some s ↦ some (ok (vg, s)) ]
]

-- `parsePhysicalVolumes`
pub parse_physical_volumes : ℕ → Vg → List ℕ → Option (Result (Vg × List ℕ))
parse_physical_volumes zero vg s = none
parse_physical_volumes (suc fuel) vg s = elim (start s) [
  | ended ↦ some (err eof)
  | closed s ↦ some (ok (vg, s))
  | keyed name (block s) ↦ elim (parse_pv fuel vg s) [
    | none ↦ none
    | some (err e) ↦ some (err e)
    | some (ok (vg, s)) ↦ parse_physical_volumes fuel vg s
  ]
  | keyed name (value s) ↦ some (err malformed)
  | keyed name (neither s) ↦ some (err malformed)
]

-- `parseLogicalVolumes`
pub parse_logical_volumes : ℕ → Vg → List ℕ → Option (Result (Vg × List ℕ))
parse_logical_volumes zero vg s = none
parse_logical_volumes (suc fuel) vg s = elim (start s) [
  | ended ↦ some (err eof)
  | closed s ↦ some (ok (vg, s))
  | keyed name (block s) ↦ elim (parse_lv_body fuel vg name [] s) [
    | none ↦ none
    | some (lv, s) ↦ parse_logical_volumes fuel (record vg { volumes = vg.volumes ++ lv ∷ [] }) s
  ]
  | keyed name (value s) ↦ some (err malformed)
  | keyed name (neither s) ↦ some (err malformed)
]

-- The `switch` on a block's key, and on a value's.
abbrev pub other_block : Vg → Option (List ℕ) → Result (Vg × List ℕ)
other_block vg none = err malformed
other_block vg (some s) = ok (vg, s)

pub parse_block : ℕ → List ℕ → Vg → List ℕ → Option (Result (Vg × List ℕ))
parse_block fuel key vg s = elim (bytes_eq key (codes "physical_volumes")) [
  | true ↦ parse_physical_volumes fuel vg s
  | false ↦ elim (bytes_eq key (codes "logical_volumes")) [
    | true ↦ parse_logical_volumes fuel vg s
    | false ↦ some (other_block vg (skip_block 1 s))
  ]
]

unfoldable pub set_vg : List ℕ → List ℕ → Vg → Vg
set_vg key val vg =
    if bytes_eq key (codes "seqno")
    then record vg { seqno = parse_int64 val }
    else if bytes_eq key (codes "extent_size")
    then record vg { extent_bytes = parse_int64 val * sector_size % 2 ^ 64 }
    else vg

-- `parseVGBody`
unfoldable pub parse_vg_body : ℕ → Vg → List ℕ → Option (Result Vg)
parse_vg_body zero vg s = none
parse_vg_body (suc fuel) vg s = elim (start s) [
  | ended ↦ some (err malformed)
  | closed s ↦ some (ok vg)
  | keyed key (block s) ↦ elim (parse_block fuel key vg s) [
    | none ↦ none
    | some (err e) ↦ some (err e)
    | some (ok (vg, s)) ↦ parse_vg_body fuel vg s
  ]
  | keyed key (value s) ↦ parse_vg_body fuel (set_vg key (read_value s).0 vg) (read_value s).1
  | keyed key (neither s) ↦ some (err malformed)
]

abbrev pub new_vg : List ℕ → Vg
new_vg name = record {
  name = name;
  seqno = 0;
  extent_bytes = 0;
  pe_start = 0;
  pe_count = 0;
  volumes = [];
}

-- `parseMetadata`
unfoldable pub parse_text : ℕ → List ℕ → Option (Result Vg)
parse_text zero s = none
parse_text (suc fuel) s = elim (start s) [
  | ended ↦ some (err missing)
  | closed s ↦ some (err malformed)
  | keyed key (block s) ↦ parse_vg_body fuel (new_vg key) s
  | keyed key (value s) ↦ parse_text fuel (read_value s).1
  | keyed key (neither s) ↦ some (err malformed)
]

unfoldable pub parse_metadata : List ℕ → Option (Result Vg)
parse_metadata text = parse_text (suc (length text)) text

abbrev pub text_marker : List ℕ
text_marker = codes "contents = \"Text Format Volume Group\""

-- `findAll`: the rests of the text at each marker; `past` bytes of the last one are still to be
-- passed over.
pub find_all : ℕ → List ℕ → List ℕ → List (List ℕ)
find_all past needle [] = []
find_all (suc past) needle (c ∷ cs) = find_all past needle cs
find_all zero needle (c ∷ cs) =
    let found = (c ∷ cs) ∷ find_all (length needle - 1) needle cs in
    let rest = find_all 0 needle cs in
    if bytes_eq (take (length needle) (c ∷ cs)) needle then found else rest

unfoldable pub strip_nul : List ℕ → List ℕ
strip_nul [] = []
strip_nul (c ∷ cs) = if c == 0 then strip_nul cs else c ∷ strip_nul cs

-- `checkLabel`, at the offset `origin` of a partition.
pub check_label : ReaderAt → ℕ → Bool
check_label ra origin = elim (fetch ra (int64 (origin + sector_size)) sector_size) [
  | err e ↦ false
  | ok label ↦
      bytes_eq (take 8 label) (codes "LABELONE")
      && bytes_eq (take 8 (drop 24 label)) (codes "LVM2 001")
]

-- `best`, with a snapshot that parses and is newer in its place.
abbrev pub newer : Option Vg → Vg → Option Vg
newer none vg = some vg
newer (some best) vg = if lt_int64 best.seqno vg.seqno then some vg else some best

-- The loop over the snapshots; one that does not parse is passed over.
unfoldable pub newest : Option Vg → List (List ℕ) → Option (Option Vg)
newest best [] = some best
newest best (text ∷ texts) = elim (parse_metadata (strip_nul text)) [
  | none ↦ none
  | some (err e) ↦ newest best texts
  | some (ok vg) ↦ newest (newer best vg) texts
]

abbrev pub scan_size : ℕ
scan_size = 8 * 2 ^ 20

-- What the read of the scan window leaves in `buf[:n]`.
abbrev pub window : Read → Result (List ℕ)
window r = elim r.fault [
  | none ↦ ok (take r.n r.buf)
  | some eof ↦ ok (take r.n r.buf)
  | some e ↦ err device
]

abbrev pub opened : Option (Option Vg) → Option (Result Vg)
opened none = none
opened (some none) = some (err missing)
opened (some (some vg)) = some (ok vg)

-- `Open`
pub open_vg : ReaderAt → ℕ → Option (Result Vg)
open_vg ra origin = elim (check_label ra origin) [
  | false ↦ some (err not_lvm)
  | true ↦ elim (window (ra (int64 origin) (replicate scan_size 0))) [
    | err e ↦ some (err e)
    | ok buf ↦ opened (newest none (find_all 0 text_marker buf))
  ]
]
