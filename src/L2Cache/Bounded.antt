-- ===== src/L2Cache/Bounded.antt =====
-- The caches of qed/qed.go and qcow/qcow.go: the map holds no more tables than the list.
use udf.Prelude.{
  ℕ, zero, suc, ◌+◌, ◌≤◌, ◌<◌, ◌≡◌, refl, Bool-cases, inl, inr, some, List, [], ◌∷◌, length, ltb,
  ◌==◌, if◌then◌else◌, arith, sym, ◌∙◌, Option-cases, subst,
}
use mathlib.Core.Option.{some-injective}
use udf.L2Cache.{
  Element, Cache, empty, find_index, holds, move_to_front, look_up, last, drop_last, evict,
  remember,
}
use udf.L2Cache.Sound.{Reach, start, next, looked_up, remembered, Reach-IsSound, look_up-true}
use udf.L2Cache.Keys.{
  offers_first, Listed, Mapped, AllOffered, Keyed, find_index-delete, delete-Keyed, delete-Mapped,
  remove-Listed, dropped-AllOffered, moved-AllOffered, pushed-AllOffered, keys_bounded,
}

record IsTied (c : Cache) : Type 0 where
  place : ℕ → ℕ
  listed : Listed place c.fresh c.lru
  mapped : Mapped place c.fresh c.index
  offered : AllOffered c.lru c.index
  keyed : Keyed c.index

last-Listed :
    (place : ℕ → ℕ) (fresh : ℕ) (es : List Element) {e : Element}
    → Listed place fresh es
    → last es ≡ some e
    → e.offset ≡ place e.id
unfolding last
last-Listed place fresh [] h l = cc
last-Listed place fresh (e ∷ []) (a, i, h) l =
    let same = some-injective _ _ l in subst (λ e. e.offset ≡ place e.id) same a
last-Listed place fresh (e ∷ (f ∷ es)) (a, i, h) l = last-Listed place fresh (f ∷ es) h l

find_index-Mapped :
    (place : ℕ → ℕ) (fresh k : ℕ) (m : List (ℕ × Element)) {e : Element}
    → Mapped place fresh m
    → find_index k m ≡ some e
    → (e.offset ≡ place e.id) × (e.id < fresh)
unfolding find_index
find_index-Mapped place fresh k [] h f = absurd cc
find_index-Mapped place fresh k ((j, e) ∷ m) {e = found} (a, b, l, h) f =
    elim (Bool-cases (j == k)) [
      | inl same ↦
          let i = some-injective _ _ (rw same at f) in
          subst (λ e. (e.offset ≡ place e.id) × (e.id < fresh)) i (a ∙ sym b, l)
      | inr other ↦ find_index-Mapped place fresh k m h (rw other at f)
    ]

look_up-IsTied : (offset : ℕ) (c : Cache) → IsTied c → IsTied (look_up offset c).1
unfolding look_up move_to_front
look_up-IsTied offset c t = elim (Option-cases (find_index offset c.index)) [
  | inl miss ↦ rw miss t
  | inr (e, found) ↦
      let (a, l) = find_index-Mapped t.place c.fresh offset c.index t.mapped found in
      elim (Bool-cases (holds e.id c.lru)) [
        | inl inside ↦
            rw (found, inside)
              (record {
                place = t.place;
                listed = (a, l, remove-Listed t.place c.fresh e.id c.lru t.listed);
                mapped = t.mapped;
                offered = moved-AllOffered t.place c.fresh e c.lru c.index t.listed a t.offered;
                keyed = t.keyed;
              })
        | inr outside ↦ rw (found, outside) t
      ]
]

drop_last-IsTied : (c : Cache) → IsTied c → IsTied (drop_last c)
unfolding drop_last
drop_last-IsTied c t = elim (Option-cases (last c.lru)) [
  | inl none_left ↦ rw none_left t
  | inr (e, oldest) ↦
      let a = last-Listed t.place c.fresh c.lru t.listed oldest in
      rw oldest (record {
        place = t.place;
        listed = remove-Listed t.place c.fresh e.id c.lru t.listed;
        mapped = delete-Mapped t.place c.fresh e.offset c.index t.mapped;
        offered = rw a (dropped-AllOffered t.place c.fresh e.id c.lru c.index t.listed t.offered);
        keyed = delete-Keyed e.offset c.index t.keyed;
      })
]

evict-IsTied : (fuel max : ℕ) (c : Cache) → IsTied c → IsTied (evict fuel max c)
unfolding evict
evict-IsTied zero max c t = t
evict-IsTied (suc fuel) max c t = elim (Bool-cases (ltb max (length c.lru))) [
  | inl over ↦ rw over (evict-IsTied fuel max (drop_last c) (drop_last-IsTied c t))
  | inr within ↦ rw within t
]

-- The offsets when one more element is made.
abbrev placed : (ℕ → ℕ) → ℕ → ℕ → ℕ → ℕ
placed place fresh offset id = if id == fresh then offset else place id

placed-Listed :
    (place : ℕ → ℕ) (fresh offset : ℕ) (es : List Element)
    → Listed place fresh es
    → Listed (placed place fresh offset) (fresh + 1) es
placed-Listed place fresh offset [] h = tt
placed-Listed place fresh offset (e ∷ es) (a, l, h) =
    (ground arith, omega arith, placed-Listed place fresh offset es h)

placed-Mapped :
    (place : ℕ → ℕ) (fresh offset : ℕ) (m : List (ℕ × Element))
    → Mapped place fresh m
    → Mapped (placed place fresh offset) (fresh + 1) m
placed-Mapped place fresh offset [] h = tt
placed-Mapped place fresh offset ((k, e) ∷ m) (a, b, l, h) =
    (a, ground arith, omega arith, placed-Mapped place fresh offset m h)

remember-IsTied :
    (max offset : ℕ) (entries : List ℕ) (c : Cache)
    → IsTied c
    → IsTied (remember max offset entries c)
unfolding remember
remember-IsTied max offset entries c t =
    let place = placed t.place c.fresh offset in
    let e : Element = record { id = c.fresh; offset = offset; entries = entries } in
    let new : place c.fresh ≡ offset = ground arith in
    evict-IsTied (suc (length c.lru)) max _ (record {
      place = place;
      listed = (sym new, omega arith, placed-Listed t.place c.fresh offset c.lru t.listed);
      mapped = (
        refl,
        new,
        omega arith,
        delete-Mapped place (c.fresh + 1) offset c.index
            (placed-Mapped t.place c.fresh offset c.index t.mapped),
      );
      offered = (offers_first e c.lru, pushed-AllOffered offset e c.lru c.index t.offered);
      keyed = (find_index-delete offset c.index, delete-Keyed offset c.index t.keyed);
    })

Reach-IsTied : (truth : ℕ → List ℕ) (max : ℕ) {c : Cache} → Reach truth max empty c → IsTied c
Reach-IsTied truth max start = record {
  place = λ id. id;
  listed = tt;
  mapped = tt;
  offered = tt;
  keyed = tt;
}
Reach-IsTied truth max (next r (looked_up offset c)) =
    look_up-IsTied offset c (Reach-IsTied truth max r)
Reach-IsTied truth max (next r (remembered offset c)) =
    remember-IsTied max offset (truth offset) c (Reach-IsTied truth max r)

-- Goroutines interleave their critical sections in any order, a miss of one between the two
-- sections of another included. In every cache that is reached from the empty one a hit returns
-- the table that stands in the file, the list holds no more than `max` tables, and the map no more
-- than the list.
pub Reach-hit :
    (truth : ℕ → List ℕ) (max : ℕ) {c : Cache}
    → Reach truth max empty c
    → (length c.lru ≤ max)
      × (length c.index ≤ length c.lru)
      × ((offset : ℕ) (entries : List ℕ)
          → (look_up offset c).0 ≡ some entries
          → entries ≡ truth offset)
Reach-hit truth max {c} r =
    let s = Reach-IsSound truth max r in
    let t = Reach-IsTied truth max r in
    (
      s.bounded,
      keys_bounded c.lru c.index t.keyed t.offered,
      λ offset entries h. look_up-true truth offset max c s h,
    )
