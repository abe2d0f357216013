-- ===== src/Superlp/Parse/Slots.antt =====
-- superlp/superlp.go: the slots of `Open`, and the order in which it tries them.
use udf.Prelude.{
  ℕ, zero, suc, ◌+◌, ◌-◌, ◌*◌, ◌≤◌, ◌<◌, ◌≡◌, refl, ap, ◌∙◌, false, Option, none, some, List, [],
  ◌∷◌, ◌++◌, length, length-append, get_elem?, get_elem?-append_left, get_elem?-append_right, ltb,
  ◌==◌, arith,
}
use native.Mathlib.Decide.{dec_lt}
use udf.Reader.{Error, ok, err, ReaderAt}
use udf.Superlp.{Geometry, Metadata}
use udf.Superlp.Parse.{
  read_geometry, read_slot, slots_from, slot_offsets, first_error, first_readable, open_super,
  max_metadata_size, geometry_offset, geometry_size,
}

-- Every slot of the list fails to read, with some error each.
abbrev pub AllFail : ReaderAt → Geometry → List ℕ → Type 0
AllFail ra geom [] = Unit
AllFail ra geom (slot ∷ slots) =
    ((e : Error) × (read_slot ra slot geom ≡ err e)) × AllFail ra geom slots

first_readable-append :
    (ra : ReaderAt) (geom : Geometry) (o : Option Error) (before : List ℕ) (slot : ℕ)
    (after : List ℕ) (md : Metadata)
    → AllFail ra geom before
    → read_slot ra slot geom ≡ ok md
    → first_readable ra geom o (before ++ slot ∷ after) ≡ ok md
unfolding first_readable
first_readable-append ra geom o [] slot after md f h = rw (h, first_readable)
first_readable-append ra geom o (s ∷ before) slot after md ((e, bad), f) h =
    rw (bad, first_readable)
      (first_readable-append ra geom (some (first_error o e)) before slot after md f h)

first_readable-fails :
    (ra : ReaderAt) (geom : Geometry) (first : Error) (slots : List ℕ)
    → AllFail ra geom slots
    → first_readable ra geom (some first) slots ≡ err first
unfolding first_readable
first_readable-fails ra geom first [] f = refl
first_readable-fails ra geom first (s ∷ slots) ((e, bad), f) =
    rw (bad, first_readable) (first_readable-fails ra geom first slots f)

module _ (ra : ReaderAt) (origin : ℕ) (geom : Geometry)
    (located : read_geometry ra origin ≡ ok geom) (sized : 0 < geom.max_metadata_size)
    (bounded : geom.max_metadata_size ≤ max_metadata_size) where
  open_super-slots : open_super ra origin ≡ first_readable ra geom none (slot_offsets origin geom)
  unfolding open_super
  open_super-slots =
      let some_size : (geom.max_metadata_size == 0) ≡ false = ground arith in
      let not_large : ltb max_metadata_size geom.max_metadata_size ≡ false = ground arith in
      rw (located, some_size, not_large)

  -- Where the geometry can be read and its metadata size is within bounds, slots that do not validate
  -- are passed over: `Open` returns the metadata of the first slot that does.
  pub open_super-fallback :
      (before : List ℕ) (slot : ℕ) (after : List ℕ) (md : Metadata)
      → slot_offsets origin geom ≡ before ++ slot ∷ after
      → AllFail ra geom before
      → read_slot ra slot geom ≡ ok md
      → open_super ra origin ≡ ok md
  open_super-fallback before slot after md s f h =
      open_super-slots
      ∙ ap (first_readable ra geom none) s
      ∙ first_readable-append ra geom none before slot after md f h

  -- Where the geometry can be read and its metadata size is within bounds, and no slot validates,
  -- `Open` returns the error of the first one.
  pub open_super-fails :
      (slot : ℕ) (after : List ℕ) (e : Error)
      → slot_offsets origin geom ≡ slot ∷ after
      → read_slot ra slot geom ≡ err e
      → AllFail ra geom after
      → open_super ra origin ≡ err e
  unfolding first_readable
  open_super-fails slot after e s h f =
      open_super-slots
      ∙ ap (first_readable ra geom none) s
      ∙ rw (h, first_readable) (first_readable-fails ra geom e after f)

slots_from-get :
    (base size n i k : ℕ)
    → k < n
    → get_elem? (slots_from base size n i) k ≡ some (base + (i + k) * size)
unfolding slots_from
slots_from-get base size zero i k h = absurd (omega arith)
slots_from-get base size (suc n) i zero h =
    let e : i ≡ i + 0 = omega arith in ap (λ j. some (base + j * size)) e
slots_from-get base size (suc n) i (suc k) h =
    let e : i + 1 + k ≡ i + suc k = omega arith in
    slots_from-get base size n (i + 1) k (omega arith) ∙ ap (λ j. some (base + j * size)) e

length-slots_from : (base size n i : ℕ) → length (slots_from base size n i) ≡ n
unfolding slots_from
length-slots_from base size zero i = refl
length-slots_from base size (suc n) i = ap suc (length-slots_from base size n (i + 1))

-- For `k` below twice the slot count, the slots that `Open` tries are that many, and slot `k` of them
-- lies `k` metadata sizes behind the reserved block and the two copies of the geometry: primary and
-- backup slots follow each other without a gap.
pub slot_offsets-get :
    (origin : ℕ) (geom : Geometry) (k : ℕ)
    → k < 2 * geom.slot_count
    → (length (slot_offsets origin geom) ≡ 2 * geom.slot_count)
      × (get_elem? (slot_offsets origin geom) k
          ≡ some (origin + geometry_offset + 2 * geometry_size + k * geom.max_metadata_size))
unfolding slot_offsets
slot_offsets-get origin geom k h =
    let n = geom.slot_count in
    let size = geom.max_metadata_size in
    let primary = origin + geometry_offset + 2 * geometry_size in
    let backup = primary + size * n in
    let len = length-append (slots_from primary size n 0) (slots_from backup size n 0) in
    let len_p = length-slots_from primary size n 0 in
    let len_b = length-slots_from backup size n 0 in
    (
      omega arith,
      elim (dec_lt k n) [
        | yes low ↦
            get_elem?-append_left (slots_from primary size n 0) (slots_from backup size n 0) k
              (omega arith)
            ∙ slots_from-get primary size n 0 k low
            ∙ ap some (omega arith)
        | no high ↦
            let e : k ≡ length (slots_from primary size n 0) + (k - n) = omega arith in
            let there : backup + (0 + (k - n)) * size ≡ primary + k * size =
              let s : n + (k - n) ≡ k = omega arith in omega (arith, ap (λ (t : ℕ). t * size) s) in
            ap (get_elem? (slots_from primary size n 0 ++ slots_from backup size n 0)) e
            ∙ get_elem?-append_right (slots_from primary size n 0) (slots_from backup size n 0)
                (k - n)
            ∙ slots_from-get backup size n 0 (k - n) (omega arith)
            ∙ ap some there
      ],
    )
