-- ===== src/L2Cache/Keys.antt =====
-- The cache of qed/qed.go and qcow/qcow.go: the entries of the map and the elements of the list.
use udf.Prelude.{
  ℕ, ◌+◌, ◌≤◌, ◌<◌, ◌≡◌, refl, Bool, Bool-cases, ◌||◌, true, false, inl, inr, none, List, [], ◌∷◌,
  length, ◌==◌, arith, ap, ◌∙◌,
}
use udf.L2Cache.{Element, find_index, delete, remove}

-- Whether an element of the list has this offset.
pub offers : ℕ → List Element → Bool
offers k [] = false
offers k (e ∷ es) = e.offset == k || offers k es

pub offers_first : (e : Element) (es : List Element) → offers e.offset (e ∷ es) ≡ true
unfolding offers
offers_first e es = ground arith

-- Pointers tell the elements apart: `place` is the offset of each that was made.
abbrev pub Listed : (ℕ → ℕ) → ℕ → List Element → Type 0
Listed place fresh [] = Unit {0}
Listed place fresh (e ∷ es) = (e.offset ≡ place e.id) × (e.id < fresh) × Listed place fresh es

-- Every entry of the map belongs to an element of the list.
abbrev pub Mapped : (ℕ → ℕ) → ℕ → List (ℕ × Element) → Type 0
Mapped place fresh [] = Unit {0}
Mapped place fresh ((k, e) ∷ m) =
    (e.offset ≡ k) × (place e.id ≡ k) × (e.id < fresh) × Mapped place fresh m

abbrev pub AllOffered : List Element → List (ℕ × Element) → Type 0
AllOffered es [] = Unit {0}
AllOffered es ((k, e) ∷ m) = (offers k es ≡ true) × AllOffered es m

-- The keys of a map are different.
abbrev pub Keyed : List (ℕ × Element) → Type 0
Keyed [] = Unit {0}
Keyed ((k, e) ∷ m) = (find_index k m ≡ none) × Keyed m

pub find_index-delete : (k : ℕ) (m : List (ℕ × Element)) → find_index k (delete k m) ≡ none
unfolding find_index delete
find_index-delete k [] = refl
find_index-delete k ((j, e) ∷ m) = elim (Bool-cases (j == k)) [
  | inl same ↦ rw same (find_index-delete k m)
  | inr other ↦ rw (other, other) (find_index-delete k m)
]

none_deleted :
    (j k : ℕ) (m : List (ℕ × Element)) → find_index j m ≡ none → find_index j (delete k m) ≡ none
unfolding find_index delete
none_deleted j k [] h = refl
none_deleted j k ((i, e) ∷ m) h = elim (Bool-cases (i == j)) [
  | inl same ↦ absurd (ground arith)
  | inr other ↦ elim (Bool-cases (i == k)) [
    | inl gone ↦ rw gone (none_deleted j k m (ground arith))
    | inr kept ↦ rw (kept, other) (none_deleted j k m (ground arith))
  ]
]

pub delete-Keyed : (k : ℕ) (m : List (ℕ × Element)) → Keyed m → Keyed (delete k m)
unfolding delete
delete-Keyed k [] h = tt
delete-Keyed k ((j, e) ∷ m) (n, h) = elim (Bool-cases (j == k)) [
  | inl same ↦ rw same (delete-Keyed k m h)
  | inr other ↦ rw other (none_deleted j k m n, delete-Keyed k m h)
]

pub delete-Mapped :
    (place : ℕ → ℕ) (fresh k : ℕ) (m : List (ℕ × Element))
    → Mapped place fresh m
    → Mapped place fresh (delete k m)
unfolding delete
delete-Mapped place fresh k [] h = tt
delete-Mapped place fresh k ((j, e) ∷ m) (a, b, l, h) = elim (Bool-cases (j == k)) [
  | inl same ↦ rw same (delete-Mapped place fresh k m h)
  | inr other ↦ rw other (a, b, l, delete-Mapped place fresh k m h)
]

pub remove-Listed :
    (place : ℕ → ℕ) (fresh id : ℕ) (es : List Element)
    → Listed place fresh es
    → Listed place fresh (remove id es)
unfolding remove
remove-Listed place fresh id [] h = tt
remove-Listed place fresh id (e ∷ es) (a, l, h) = elim (Bool-cases (e.id == id)) [
  | inl same ↦ rw same h
  | inr other ↦ rw other (a, l, remove-Listed place fresh id es h)
]

-- The removal of an element takes no other offset away.
offers-remove :
    (place : ℕ → ℕ) (fresh id k : ℕ) (es : List Element)
    → Listed place fresh es
    → (place id == k) ≡ false
    → offers k es ≡ true
    → offers k (remove id es) ≡ true
unfolding offers remove
offers-remove place fresh id k [] h n o = cc
offers-remove place fresh id k (e ∷ es) (a, l, h) n o = elim (Bool-cases (e.id == id)) [
  | inl same ↦
      let i : e.id ≡ id = ground arith in
      let at : e.offset ≡ place id = a ∙ ap place i in rw same (ground arith)
  | inr other ↦ elim (Bool-cases (e.offset == k)) [
    | inl here ↦ rw (other, here) refl
    | inr there ↦ rw (other, there) (offers-remove place fresh id k es h n (ground arith))
  ]
]

-- What an element that leaves the list takes with it.
pub dropped-AllOffered :
    (place : ℕ → ℕ) (fresh id : ℕ) (es : List Element) (m : List (ℕ × Element))
    → Listed place fresh es
    → AllOffered es m
    → AllOffered (remove id es) (delete (place id) m)
unfolding delete
dropped-AllOffered place fresh id es [] h o = tt
dropped-AllOffered place fresh id es ((j, e) ∷ m) h (f, o) = elim (Bool-cases (j == place id)) [
  | inl same ↦ rw same (dropped-AllOffered place fresh id es m h o)
  | inr other ↦ rw other (
    offers-remove place fresh id j es h (ground arith) f,
    dropped-AllOffered place fresh id es m h o,
  )
]

-- In front of the list again, it brings its offset back.
pub moved-AllOffered :
    (place : ℕ → ℕ) (fresh : ℕ) (e : Element) (es : List Element) (m : List (ℕ × Element))
    → Listed place fresh es
    → e.offset ≡ place e.id
    → AllOffered es m
    → AllOffered (e ∷ remove e.id es) m
unfolding offers
moved-AllOffered place fresh e es [] h a o = tt
moved-AllOffered place fresh e es ((j, f) ∷ m) h a (g, o) = (
  elim (Bool-cases (e.offset == j)) [
    | inl here ↦ rw here refl
    | inr there ↦ rw there (offers-remove place fresh e.id j es h (rw⁻¹ a there) g)
  ],
  moved-AllOffered place fresh e es m h a o,
)

-- A new element, whose offset had no other entry of the map.
pub pushed-AllOffered :
    (k : ℕ) (e : Element) (es : List Element) (m : List (ℕ × Element))
    → AllOffered es m
    → AllOffered (e ∷ es) (delete k m)
unfolding offers delete
pushed-AllOffered k e es [] o = tt
pushed-AllOffered k e es ((j, f) ∷ m) (g, o) = elim (Bool-cases (j == k)) [
  | inl same ↦ rw same (pushed-AllOffered k e es m o)
  | inr other ↦ rw other (ground arith, pushed-AllOffered k e es m o)
]

-- The offsets behind the first element.
rest-AllOffered :
    (e : Element) (es : List Element) (m : List (ℕ × Element))
    → AllOffered (e ∷ es) m
    → AllOffered es (delete e.offset m)
unfolding offers delete
rest-AllOffered e es [] o = tt
rest-AllOffered e es ((j, f) ∷ m) (g, o) = elim (Bool-cases (j == e.offset)) [
  | inl same ↦ rw same (rest-AllOffered e es m o)
  | inr other ↦ rw other (ground arith, rest-AllOffered e es m o)
]

length-none :
    (k : ℕ) (m : List (ℕ × Element)) → find_index k m ≡ none → length m ≤ length (delete k m)
unfolding find_index delete
length-none k [] h = omega arith
length-none k ((j, e) ∷ m) h = elim (Bool-cases (j == k)) [
  | inl same ↦ absurd (ground arith)
  | inr other ↦ rw other (let l = length-none k m (rw other at h) in omega arith)
]

length-delete : (k : ℕ) (m : List (ℕ × Element)) → Keyed m → length m ≤ length (delete k m) + 1
unfolding delete
length-delete k [] h = omega arith
length-delete k ((j, e) ∷ m) (n, h) = elim (Bool-cases (j == k)) [
  | inl same ↦
      let i : j ≡ k = ground arith in rw same (let l = length-none k m (rw i at n) in omega arith)
  | inr other ↦ rw other (let l = length-delete k m h in omega arith)
]

-- A map with different keys has no more entries than there are elements that offer them.
pub keys_bounded :
    (es : List Element) (m : List (ℕ × Element)) → Keyed m → AllOffered es m → length m ≤ length es
unfolding offers
keys_bounded [] [] h o = omega arith
keys_bounded [] ((k, e) ∷ m) h o = absurd cc
keys_bounded (e ∷ es) m h o =
    let l = length-delete e.offset m h in
    let r =
      keys_bounded es (delete e.offset m) (delete-Keyed e.offset m h) (rest-AllOffered e es m o) in
    omega arith
