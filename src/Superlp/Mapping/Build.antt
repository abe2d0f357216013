-- ===== src/Superlp/Mapping/Build.antt =====
-- `Metadata.Mapping` accepts exactly the extents that it can read, and lays them out in order; a
-- contiguous partition reads as one range of the super partition.
use udf.Prelude.{
  ℕ, ◌+◌, ◌^◌, ◌<◌, ◌≡◌, ◌⊎◌, ◌↔◌, ap, sym, ◌∙◌, some, List, [], ◌∷◌, ◌++◌, length, arith, pos,
  add_int64_small, append_assoc, append-nil,
}
use udf.Reader.{ok, ReaderAt, Serves}
use udf.Reader.Chunks.Total.{flat}
use udf.Superlp.{Extent, Partition, target_linear, target_zero}
use udf.Superlp.Mapping.{Mapping, byte_len, add_extents, mapping, read_mapping}
use udf.Superlp.Mapping.Extents.{extent_len, total, prefixes, lp_byte}
use udf.Superlp.Mapping.Flat.{built, ExtentsInFile, read-built}

-- An extent on this device, of a known type.
abbrev pub IsPlain : Extent → Type 0
IsPlain e =
    (e.target_source ≡ 0) × ((e.target_type ≡ target_linear) ⊎ (e.target_type ≡ target_zero))

abbrev pub AllPlain : List Extent → Type 0
AllPlain [] = Unit
AllPlain (e ∷ es) = IsPlain e × AllPlain es

-- The mapping after some more extents.
abbrev extended : Mapping → List Extent → Mapping
extended m es = record m {
  starts = m.starts ++ prefixes m.size es;
  extents = m.extents ++ es;
  size = m.size + total es;
}

add_extents-step :
    (m : Mapping) (e : Extent) (es : List Extent)
    → IsPlain e
    → m.size + extent_len e < 2 ^ 63
    → add_extents m (e ∷ es) ≡ add_extents (extended m (e ∷ [])) es
unfolding add_extents
add_extents-step m e es (s, t) l =
    let len : byte_len e ≡ extent_len e = omega arith in
    let sum = add_int64_small m.size (extent_len e) l in
    let none_after : m.size + (extent_len e + 0) ≡ m.size + extent_len e = omega arith in
    rw (len, sum, none_after) (ground arith)

add_extents-refuses :
    (m : Mapping) (e : Extent) (es : List Extent) {m' : Mapping}
    → add_extents m (e ∷ es) ≡ ok m'
    → IsPlain e
unfolding add_extents
add_extents-refuses m e es h = ground arith

extended-cons :
    (m : Mapping) (e : Extent) (es : List Extent)
    → extended (extended m (e ∷ [])) es ≡ extended m (e ∷ es)
extended-cons m e es =
    let one : m.size + (extent_len e + 0) ≡ m.size + extent_len e = omega arith in
    let all : m.size + extent_len e + total es ≡ m.size + (extent_len e + total es) = omega arith in
    let starts = append_assoc m.starts (m.size ∷ []) (prefixes (m.size + extent_len e) es) in
    let extents = append_assoc m.extents (e ∷ []) es in rw (one, all, starts, extents)

add_extents-extended :
    (es : List Extent) (m : Mapping)
    → AllPlain es
    → m.size + total es < 2 ^ 63
    → add_extents m es ≡ ok (extended m es)
add_extents-extended [] m h l =
    let one : m.size + 0 ≡ m.size = omega arith in
    unfold add_extents in rw (append-nil, append-nil, one)
add_extents-extended (e ∷ es) m h l =
    add_extents-step m e es h.0 (omega arith)
    ∙ add_extents-extended es (extended m (e ∷ [])) h.1 (omega arith)
    ∙ ap ok (extended-cons m e es)

add_extents-AllPlain :
    (es : List Extent) (m : Mapping) {m' : Mapping}
    → m.size + total es < 2 ^ 63
    → add_extents m es ≡ ok m'
    → AllPlain es
add_extents-AllPlain [] m l h = tt
add_extents-AllPlain (e ∷ es) m {m'} l h =
    let plain = add_extents-refuses m e es h in
    let rest = sym (add_extents-step m e es plain (omega arith)) ∙ h in
    (plain, add_extents-AllPlain es (extended m (e ∷ [])) {m' = m'} (omega arith) rest)

-- Where the extents have less than 2 ^ 63 bytes in all, `Mapping` succeeds exactly if every extent is
-- on this device and of a known type, and it then returns the extents in order with the sums of the
-- lengths before each as their starts.
pub mapping-built :
    (ra : ReaderAt) (origin : ℕ) (p : Partition) (m : Mapping)
    → total p.extents < 2 ^ 63
    → (mapping ra origin p ≡ ok m) ↔ (AllPlain p.extents × (m ≡ built ra origin p.extents))
unfolding mapping
mapping-built ra origin p m l =
    let start : Mapping = record {
      ra = ra;
      origin = origin;
      extents = [];
      starts = [];
      size = 0;
    } in
    let none_before : 0 + total p.extents ≡ total p.extents = omega arith in
    let made : AllPlain p.extents → add_extents start p.extents ≡ ok (built ra origin p.extents) =
      λ a.
        add_extents-extended p.extents start a (omega arith)
        ∙ ap (λ n. ok (record (built ra origin p.extents) { size = n })) none_before in
    (
      λ h.
          let a = add_extents-AllPlain p.extents start {m' = m} (omega arith) h in (a, cc (made a)),
      λ (a, e). made a ∙ ap ok (sym e),
    )

-- Where the file serves `content`, the extents have less than 2 ^ 63 bytes in all and lie inside the
-- file, a mapping that `Mapping` returns reads the partition at every offset inside it: `ReadAt`
-- fills `p` up to the partition's end with the bytes of its extents, zeros for a zero extent, and
-- returns how many these are; no fuel runs out.
pub read_mapping-lp_byte :
    (ra : ReaderAt) (origin file_size : ℕ) (content : ℕ → ℕ) (part : Partition) (m : Mapping)
    (p : List ℕ) (off : ℕ)
    → Serves ra file_size content
    → file_size < 2 ^ 63
    → total part.extents < 2 ^ 63
    → ExtentsInFile origin part.extents file_size
    → mapping ra origin part ≡ ok m
    → length p < 2 ^ 63
    → off < total part.extents
    → read_mapping m p (pos off)
      ≡ some (flat (lp_byte origin content part.extents) (total part.extents) off p)
read_mapping-lp_byte ra origin file_size content part m p off served small fits mapped made s h =
    let (plain, e) = (mapping-built ra origin part m fits).0 made in
    ap (λ m. read_mapping m p (pos off)) e
    ∙ read-built ra origin file_size content part.extents served small fits mapped p off s h
