-- ===== src/L2Cache.antt =====
-- The bounded cache of second-level tables of qed/qed.go and qcow/qcow.go: `container/list` and a
-- map from a table's offset to its list element.
pub mod Keys
pub mod Bounded
pub mod Sound
use udf.Prelude.{
  false, ◌||◌, ℕ, zero, suc, ◌+◌, Bool, Option, none, some, List, [], ◌∷◌, length, ltb, ◌==◌,
  if◌then◌else◌,
}
use udf.Reader.{Result, ok, err}

-- `*list.Element` with the `l2Entry` that it holds; `id` is the pointer's identity.
pub record Element : Type 0 where
  pub id : ℕ
  pub offset : ℕ
  pub entries : List ℕ

-- `l2LRU`, most recent first, and `l2Cache`. `fresh` is the next element's identity.
pub record Cache : Type 0 where
  pub lru : List Element
  pub index : List (ℕ × Element)
  pub fresh : ℕ

abbrev pub empty : Cache
empty = record { lru = []; index = []; fresh = 0 }

-- `l2Cache[k]`, `delete(l2Cache, k)` and `l2Cache[k] = e`
pub find_index : ℕ → List (ℕ × Element) → Option Element
find_index k [] = none
find_index k ((j, e) ∷ m) = if j == k then some e else find_index k m

pub delete : ℕ → List (ℕ × Element) → List (ℕ × Element)
delete k [] = []
delete k ((j, e) ∷ m) = let rest = delete k m in if j == k then rest else (j, e) ∷ rest

-- `Remove(e)`, for an element of the list
pub remove : ℕ → List Element → List Element
remove k [] = []
remove k (e ∷ es) = if e.id == k then es else e ∷ remove k es

pub holds : ℕ → List Element → Bool
holds k [] = false
holds k (e ∷ es) = e.id == k || holds k es

-- `MoveToFront(e)`, which leaves the list alone if `e` is not in it
pub move_to_front : Element → List Element → List Element
move_to_front e es = if holds e.id es then e ∷ remove e.id es else es

-- The first critical section of `l2Table`: a hit moves the element to the front.
abbrev pub hit : Option Element → Cache → Option (List ℕ) × Cache
hit none c = (none, c)
hit (some e) c = (some e.entries, record c { lru = move_to_front e c.lru })

pub look_up : ℕ → Cache → Option (List ℕ) × Cache
look_up offset c = hit (find_index offset c.index) c

-- `Back()`
pub last : List Element → Option Element
last [] = none
last (e ∷ []) = some e
last (e ∷ (f ∷ es)) = last (f ∷ es)

-- One round of the eviction loop: the last element goes, and its offset's entry of the map.
abbrev pub drop_element : Option Element → Cache → Cache
drop_element none c = c
drop_element (some e) c = record c { lru = remove e.id c.lru; index = delete e.offset c.index }

pub drop_last : Cache → Cache
drop_last c = drop_element (last c.lru) c

-- `for d.l2LRU.Len() > d.l2Max`; the fuel is the length of the list.
pub evict : ℕ → ℕ → Cache → Cache
evict zero max c = c
evict (suc fuel) max c =
    let rest = evict fuel max (drop_last c) in if ltb max (length c.lru) then rest else c

-- The second critical section: the new element goes to the front, and the oldest ones go.
pub remember : ℕ → ℕ → List ℕ → Cache → Cache
remember max offset entries c =
    let e : Element = record { id = c.fresh; offset = offset; entries = entries } in
    let c' : Cache = record {
      lru = e ∷ c.lru;
      index = (offset, e) ∷ delete offset c.index;
      fresh = c.fresh + 1;
    } in
    evict (length c'.lru) max c'

-- `l2Table`: the file is read outside the critical sections, on a miss.
abbrev pub keep_read : ℕ → ℕ → Result (List ℕ) → Cache → Result (List ℕ) × Cache
keep_read max offset (err e) c = (err e, c)
keep_read max offset (ok entries) c = (ok entries, remember max offset entries c)

abbrev pub after_look_up :
    ℕ → (ℕ → Result (List ℕ)) → ℕ → Option (List ℕ) × Cache → Result (List ℕ) × Cache
after_look_up max read offset (some entries, c) = (ok entries, c)
after_look_up max read offset (none, c) = keep_read max offset (read offset) c

pub cached : ℕ → (ℕ → Result (List ℕ)) → ℕ → Cache → Result (List ℕ) × Cache
cached max read offset c = after_look_up max read offset (look_up offset c)
