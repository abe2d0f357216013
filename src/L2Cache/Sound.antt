-- ===== src/L2Cache/Sound.antt =====
-- The caches of qed/qed.go and qcow/qcow.go against the tables of the file, under calls in any
-- order.
use udf.Prelude.{
  ℕ, zero, suc, ◌+◌, ◌≤◌, ◌<◌, ◌≡◌, refl, Bool-cases, true, inl, inr, Option, none, some, List, [],
  ◌∷◌, length, ltb, ◌==◌, arith, ap, sym, ◌∙◌, Option-cases,
}
use udf.L2Cache.{
  Element, Cache, empty, find_index, delete, remove, holds, move_to_front, look_up, cached, last,
  drop_element, drop_last, evict, remember,
}
use udf.Reader.{Result, ok}

module _ (truth : ℕ → List ℕ) where
  -- Every element holds the table that stands at its offset, and every offset has its own element.
  abbrev pub AllTrue : List Element → Type 0
  AllTrue [] = Unit
  AllTrue (e ∷ es) = (e.entries ≡ truth e.offset) × AllTrue es

  abbrev pub AllIndexed : List (ℕ × Element) → Type 0
  AllIndexed [] = Unit
  AllIndexed ((k, e) ∷ m) = (e.offset ≡ k) × (e.entries ≡ truth k) × AllIndexed m

  find_index-true :
      (k : ℕ) (m : List (ℕ × Element)) {e : Element}
      → AllIndexed m
      → find_index k m ≡ some e
      → (e.offset ≡ k) × (e.entries ≡ truth k)
  unfolding find_index
  find_index-true k [] h f = cc
  find_index-true k ((j, e) ∷ m) {e = found} h f =
      ground (arith, find_index-true k m {e = found} h.2)

  delete-AllIndexed : (k : ℕ) (m : List (ℕ × Element)) → AllIndexed m → AllIndexed (delete k m)
  unfolding delete
  delete-AllIndexed k [] h = tt
  delete-AllIndexed k ((j, e) ∷ m) h = elim (Bool-cases (j == k)) [
    | inl same ↦ rw same (delete-AllIndexed k m h.2)
    | inr other ↦ rw other (h.0, h.1, delete-AllIndexed k m h.2)
  ]

  remove-AllTrue : (k : ℕ) (es : List Element) → AllTrue es → AllTrue (remove k es)
  unfolding remove
  remove-AllTrue k [] h = tt
  remove-AllTrue k (e ∷ es) h = elim (Bool-cases (e.id == k)) [
    | inl same ↦ rw same h.1
    | inr other ↦ rw other (h.0, remove-AllTrue k es h.1)
  ]

  move_to_front-AllTrue :
      (e : Element) (es : List Element)
      → e.entries ≡ truth e.offset
      → AllTrue es
      → AllTrue (move_to_front e es)
  unfolding move_to_front
  move_to_front-AllTrue e es t h = elim (Bool-cases (holds e.id es)) [
    | inl inside ↦ rw inside (t, remove-AllTrue e.id es h)
    | inr outside ↦ rw outside h
  ]

length-remove :
    (k : ℕ) (es : List Element) → holds k es ≡ true → length (remove k es) + 1 ≡ length es
unfolding remove holds
length-remove k [] h = cc
length-remove k (e ∷ es) h = elim (Bool-cases (e.id == k)) [
  | inl same ↦ rw same (omega arith)
  | inr other ↦ rw other (let r = length-remove k es (rw other at h) in omega arith)
]

length-move_to_front : (e : Element) (es : List Element) → length (move_to_front e es) ≡ length es
unfolding move_to_front
length-move_to_front e es = elim (Bool-cases (holds e.id es)) [
  | inl inside ↦ rw inside (omega (arith, length-remove e.id es inside))
  | inr outside ↦ rw outside
]

last-holds : (es : List Element) {e : Element} → last es ≡ some e → holds e.id es ≡ true
unfolding last holds
last-holds [] h = cc
last-holds (e ∷ []) h = ground arith
last-holds (e ∷ (f ∷ es)) {e = g} h = ground (arith, last-holds (f ∷ es) {e = g})

last-cons : (e : Element) (es : List Element) → (f : Element) × (last (e ∷ es) ≡ some f)
unfolding last
last-cons e [] = (e, refl)
last-cons e (f ∷ es) = last-cons f es

-- The eviction loop takes an element away in each round.
length-drop_last : (c : Cache) → 0 < length c.lru → length (drop_last c).lru + 1 ≡ length c.lru
unfolding drop_last
length-drop_last c h = go c.lru refl h
  where
    go :
        (es : List Element)
        → c.lru ≡ es
        → 0 < length es
        → length (drop_last c).lru + 1 ≡ length c.lru
    go [] e l = absurd (omega arith)
    go (x ∷ xs) e l =
        let (f, lf) = last-cons x xs in
        let lc : last c.lru ≡ some f = ap last e ∙ lf in
        rw lc (length-remove f.id c.lru (last-holds c.lru lc))

-- What the mutex protects: true tables, and no more of them than `l2Max`.
pub record IsSound (truth : ℕ → List ℕ) (max : ℕ) (c : Cache) : Type 0 where
  pub held : AllTrue truth c.lru
  pub indexed : AllIndexed truth c.index
  pub bounded : length c.lru ≤ max

module _ (truth : ℕ → List ℕ) where
  last-true :
      (es : List Element) {e : Element}
      → AllTrue truth es
      → last es ≡ some e
      → e.entries ≡ truth e.offset
  unfolding last
  last-true [] h f = cc
  last-true (e ∷ []) h f = ground arith
  last-true (e ∷ (f ∷ es)) {e = g} h l = last-true (f ∷ es) {e = g} h.1 l

  drop_element-true :
      (o : Option Element) (c : Cache)
      → AllTrue truth c.lru
      → AllIndexed truth c.index
      → AllTrue truth (drop_element o c).lru × AllIndexed truth (drop_element o c).index
  drop_element-true none c h i = (h, i)
  drop_element-true (some e) c h i =
      (remove-AllTrue truth e.id c.lru h, delete-AllIndexed truth e.offset c.index i)

  evict-IsSound :
      (fuel max : ℕ) (c : Cache)
      → length c.lru ≤ fuel + max
      → AllTrue truth c.lru
      → AllIndexed truth c.index
      → IsSound truth max (evict fuel max c)
  unfolding evict drop_last
  evict-IsSound zero max c l h i = record { held = h; indexed = i; bounded = omega arith }
  evict-IsSound (suc fuel) max c l h i = elim (Bool-cases (ltb max (length c.lru))) [
    | inl over ↦
        let (h', i') = drop_element-true (last c.lru) c h i in
        let s = length-drop_last c (ground arith) in
        rw over (evict-IsSound fuel max (drop_last c) (omega arith) h' i')
    | inr within ↦ rw within (record { held = h; indexed = i; bounded = ground arith })
  ]

  -- A hit returns the true table, and either way the cache stays sound.
  pub look_up-IsSound :
      (offset max : ℕ) (c : Cache) → IsSound truth max c → IsSound truth max (look_up offset c).1
  unfolding look_up
  look_up-IsSound offset max c s = elim (Option-cases (find_index offset c.index)) [
    | inl miss ↦ rw miss s
    | inr (e, found) ↦
        let (o, t) = find_index-true truth offset c.index s.indexed found in
        rw found (record {
          held = move_to_front-AllTrue truth e c.lru (t ∙ ap truth (sym o)) s.held;
          indexed = s.indexed;
          bounded = rw (length-move_to_front e c.lru) s.bounded;
        })
  ]

  pub look_up-true :
      (offset max : ℕ) (c : Cache) {entries : List ℕ}
      → IsSound truth max c
      → (look_up offset c).0 ≡ some entries
      → entries ≡ truth offset
  unfolding look_up
  look_up-true offset max c s h = elim (Option-cases (find_index offset c.index)) [
    | inl miss ↦ ground arith
    | inr (e, found) ↦
        let (o, t) = find_index-true truth offset c.index s.indexed found in ground arith
  ]

  -- A table that was read truly goes into the cache, and the oldest ones leave.
  pub remember-IsSound :
      (max offset : ℕ) (entries : List ℕ) (c : Cache)
      → IsSound truth max c
      → entries ≡ truth offset
      → IsSound truth max (remember max offset entries c)
  unfolding remember
  remember-IsSound max offset entries c s t =
      evict-IsSound (suc (length c.lru)) max _ (omega arith) (t, s.held)
        (refl, t, delete-AllIndexed truth offset c.index s.indexed)

-- A critical section of some goroutine; a table is remembered as it stands in the file.
pub data Step (truth : ℕ → List ℕ) (max : ℕ) : Cache → Cache → Type 0 where
  looked_up : (offset : ℕ) (c : Cache) → Step truth max c (look_up offset c).1
  remembered : (offset : ℕ) (c : Cache) → Step truth max c (remember max offset (truth offset) c)

pub data Reach (truth : ℕ → List ℕ) (max : ℕ) (c : Cache) : Cache → Type 0 where
  start : Reach truth max c c
  next : {d e : Cache} → Reach truth max c d → Step truth max d e → Reach truth max c e

Step-IsSound :
    (truth : ℕ → List ℕ) (max : ℕ) {c d : Cache}
    → Step truth max c d
    → IsSound truth max c
    → IsSound truth max d
Step-IsSound truth max (looked_up offset c) s = look_up-IsSound truth offset max c s
Step-IsSound truth max (remembered offset c) s =
    remember-IsSound truth max offset (truth offset) c s refl

pub empty-IsSound : (truth : ℕ → List ℕ) (max : ℕ) → IsSound truth max empty
empty-IsSound truth max = record { held = tt; indexed = tt; bounded = omega arith }

pub Reach-IsSound :
    (truth : ℕ → List ℕ) (max : ℕ) {c : Cache} → Reach truth max empty c → IsSound truth max c
Reach-IsSound truth max start = empty-IsSound truth max
Reach-IsSound truth max (next r s) = Step-IsSound truth max s (Reach-IsSound truth max r)

-- Where the table of an offset can be read and the cache is sound, `l2Table` returns the table of
-- the file and leaves the cache sound, on a hit and on a miss.
pub cached-true :
    (truth : ℕ → List ℕ) (max : ℕ) (read : ℕ → Result (List ℕ)) (offset : ℕ) (c : Cache)
    → read offset ≡ ok (truth offset)
    → IsSound truth max c
    → ((cached max read offset c).0 ≡ ok (truth offset))
      × IsSound truth max (cached max read offset c).1
unfolding cached
cached-true truth max read offset c e s =
    let s' = look_up-IsSound truth offset max c s in
    let c' = (look_up offset c).1 in
    elim (Option-cases (look_up offset c).0) [
      | inl miss ↦ rw (miss, e) (refl, remember-IsSound truth max offset (truth offset) c' s' refl)
      | inr (t, found) ↦ rw found (ap ok (look_up-true truth offset max c s found), s')
    ]
