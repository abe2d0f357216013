-- ===== src/Paths/Walk.antt =====
-- `path.Clean` element by element: what the walk keeps, and where it leaves the directory that it
-- starts from.
use udf.Prelude.{
  ℕ, zero, suc, ◌≡◌, refl, sym, ◌∙◌, Bool, true, false, ◌&&◌, ◌||◌, Bool-cases, ◌⊎◌, inl, inr, List,
  [], ◌∷◌, ◌++◌, length, arith, all, all-reverse, append_assoc, append-nil, and-true,
}
use mathlib.Core.List.{reverse, reverse-cons, reverse-reverse}
use udf.Paths.{Kind, blank, up, name, kind, keep, climb, walk}
use udf.Paths.Elements.{slash_free, plain}

pub Kind-cases : (k : Kind) → (k ≡ name) ⊎ ((k ≡ up) ⊎ (k ≡ blank))
Kind-cases name = inl refl
Kind-cases up = inr (inl refl)
Kind-cases blank = inr (inr refl)

abbrev pub is_name : List ℕ → Bool
is_name e = elim (kind e) [ name ↦ true | _ ↦ false ]

abbrev pub is_up : List ℕ → Bool
is_up e = elim (kind e) [ up ↦ true | _ ↦ false ]

abbrev pub names : List (List ℕ) → Bool
names = all is_name

-- Whether a walk from `depth` directories below its start ever leaves it.
abbrev pub climbs_by : Kind → ℕ → (ℕ → Bool) → Bool
climbs_by blank depth rest = rest depth
climbs_by name depth rest = rest (suc depth)
climbs_by up zero rest = true
climbs_by up (suc depth) rest = rest depth

unfoldable pub climbs : ℕ → List (List ℕ) → Bool
climbs depth [] = false
climbs depth (e ∷ es) = climbs_by (kind e) depth (λ d. climbs d es)

-- What the walk keeps, last element first: names, above the `..` that lead out of the start.
abbrev pub normal : List (List ℕ) → Bool
normal [] = true
normal (e ∷ kept) = is_name e && normal kept || is_up e && all is_up kept

pub walk-append :
    (rooted : Bool) (kept es fs : List (List ℕ))
    → walk rooted kept (es ++ fs) ≡ walk rooted (walk rooted kept es) fs
unfolding walk
walk-append rooted kept [] fs = refl
walk-append rooted kept (e ∷ es) fs = walk-append rooted (keep rooted kept e (kind e)) es fs

pub name_kind : (e : List ℕ) → is_name e ≡ true → kind e ≡ name
name_kind e h = ground arith

-- A walk over names keeps them all.
pub walk-names :
    (rooted : Bool) (kept es : List (List ℕ))
    → names es ≡ true
    → walk rooted kept es ≡ reverse es ++ kept
unfolding walk
walk-names rooted kept [] h = refl
walk-names rooted kept (e ∷ es) h =
    let (one, rest) = and-true (is_name e) (names es) h in
    rw (name_kind e one, reverse-cons e es, append_assoc (reverse es) (e ∷ []) kept)
      (walk-names rooted (e ∷ kept) es rest)

keep-plain :
    (rooted : Bool) (kept : List (List ℕ)) (e : List ℕ) (k : Kind)
    → plain kept ≡ true
    → slash_free e ≡ true
    → plain (keep rooted kept e k) ≡ true
keep-plain rooted kept e blank h one = h
keep-plain rooted kept e name h one = rw (one, h)
keep-plain true [] e up h one = refl
keep-plain false [] e up h one = rw one
keep-plain true (f ∷ kept) e up h one = ground arith
keep-plain false (f ∷ kept) e up h one = ground arith

pub walk-plain :
    (rooted : Bool) (kept es : List (List ℕ))
    → plain kept ≡ true
    → plain es ≡ true
    → plain (walk rooted kept es) ≡ true
unfolding walk
walk-plain rooted kept [] h p = h
walk-plain rooted kept (e ∷ es) h p =
    let (one, rest) = and-true (slash_free e) (plain es) p in
    walk-plain rooted (keep rooted kept e (kind e)) es (keep-plain rooted kept e (kind e) h one)
      rest

keep-names :
    (kept : List (List ℕ)) (e : List ℕ) (k : Kind)
    → kind e ≡ k
    → names kept ≡ true
    → names (keep true kept e k) ≡ true
keep-names kept e blank c h = h
keep-names kept e name c h = ground arith
keep-names [] e up c h = refl
keep-names (f ∷ kept) e up c h = ground arith

-- A walk from the root keeps names only.
pub names-walk_rooted :
    (kept es : List (List ℕ)) → names kept ≡ true → names (walk true kept es) ≡ true
unfolding walk
names-walk_rooted kept [] h = h
names-walk_rooted kept (e ∷ es) h =
    names-walk_rooted (keep true kept e (kind e)) es (keep-names kept e (kind e) refl h)

-- A `..` inside the start takes a name away.
up_inside :
    (kept : List (List ℕ)) (e : List ℕ) (rest : ℕ → Bool)
    → names kept ≡ true
    → (kept ≡ [])
      ⊎ ((less : List (List ℕ)) × (climb false kept e ≡ less)
          × (names less ≡ true)
          × (climbs_by up (length kept) rest ≡ rest (length less)))
up_inside [] e rest h = inl refl
up_inside (f ∷ kept) e rest h =
    let (one, more) = and-true (is_name f) (names kept) h in
    let k = name_kind f one in inr (kept, rw (climb, k), more, refl)

-- Outside it, it stays.
up_outside :
    (u : List ℕ) (kept : List (List ℕ)) (e : List ℕ)
    → kind u ≡ up
    → (more : List (List ℕ)) × (climb false (kept ++ (u ∷ [])) e ≡ more ++ (u ∷ []))
up_outside u [] e h = (e ∷ [], rw (climb, h))
up_outside u (f ∷ kept) e h = elim (Kind-cases (kind f)) [
  | inl n ↦ (kept, rw (climb, n))
  | inr (inr b) ↦ (kept, rw (climb, b))
  | inr (inl k) ↦ (e ∷ f ∷ kept, rw (climb, k))
]

-- What a walk that starts inside keeps, where it does not leave: names only.
pub names-walk :
    (kept es : List (List ℕ))
    → names kept ≡ true
    → climbs (length kept) es ≡ false
    → names (walk false kept es) ≡ true
unfolding walk climbs
names-walk kept [] h c = h
names-walk kept (e ∷ es) h c = elim (Kind-cases (kind e)) [
  | inl n ↦ rw n (names-walk (e ∷ kept) es (ground arith) (rw n at c))
  | inr (inr b) ↦ rw b (names-walk kept es h (rw b at c))
  | inr (inl u) ↦ rw u (elim (up_inside kept e (λ d. climbs d es) h) [
    | inl none_kept ↦ absurd (ground arith)
    | inr (less, taken, inside, same) ↦
        rw taken (names-walk less es inside (sym same ∙ (rw u at c)))
  ])
]

-- Above a `..` that leads out of the start, the walk takes nothing away.
walk_out :
    (u : List ℕ) (kept es : List (List ℕ))
    → kind u ≡ up
    → (more : List (List ℕ)) × (walk false (kept ++ (u ∷ [])) es ≡ more ++ (u ∷ []))
unfolding walk
walk_out u kept [] h = (kept, refl)
walk_out u kept (e ∷ es) h = elim (Kind-cases (kind e)) [
  | inl n ↦ rw n (walk_out u (e ∷ kept) es h)
  | inr (inr b) ↦ rw b (walk_out u kept es h)
  | inr (inl k) ↦
      rw k (let (more, taken) = up_outside u kept e h in rw taken (walk_out u more es h))
]

pub climbs_away :
    (kept es : List (List ℕ))
    → names kept ≡ true
    → climbs (length kept) es ≡ true
    → (more : List (List ℕ)) × (u : List ℕ) × (kind u ≡ up)
      × (walk false kept es ≡ more ++ (u ∷ []))
unfolding walk climbs
climbs_away kept [] h c = absurd cc
climbs_away kept (e ∷ es) h c = elim (Kind-cases (kind e)) [
  | inl n ↦ rw n (climbs_away (e ∷ kept) es (ground arith) (rw n at c))
  | inr (inr b) ↦ rw b (climbs_away kept es h (rw b at c))
  | inr (inl k) ↦ rw k (elim (up_inside kept e (λ d. climbs d es) h) [
    | inl none_kept ↦ let (more, out) = walk_out e [] es k in rw none_kept (more, e, k, out)
    | inr (less, taken, inside, same) ↦
        rw taken (climbs_away less es inside (sym same ∙ (rw k at c)))
  ])
]

all_up-normal : (kept : List (List ℕ)) → all is_up kept ≡ true → normal kept ≡ true
all_up-normal [] h = refl
all_up-normal (e ∷ kept) h = let (one, rest) = and-true (is_up e) (all is_up kept) h in ground arith

pub normal_tail :
    (e : List ℕ) (kept : List (List ℕ)) → normal (e ∷ kept) ≡ true → normal kept ≡ true
normal_tail e kept h = elim (Bool-cases (all is_up kept)) [
  | inl ups ↦ all_up-normal kept ups
  | inr other ↦ ground arith
]

pub names-normal : (kept : List (List ℕ)) → names kept ≡ true → normal kept ≡ true
names-normal [] h = refl
names-normal (e ∷ kept) h =
    let (one, rest) = and-true (is_name e) (names kept) h in rw (one, names-normal kept rest)

climb-normal :
    (kept : List (List ℕ)) (e : List ℕ)
    → kind e ≡ up
    → normal kept ≡ true
    → normal (climb false kept e) ≡ true
climb-normal [] e k h = ground arith
climb-normal (f ∷ kept) e k h = elim (Kind-cases (kind f)) [
  | inl n ↦ ground arith
  | inr (inr b) ↦ absurd (ground arith)
  | inr (inl u) ↦ ground arith
]

pub walk-normal :
    (kept es : List (List ℕ)) → normal kept ≡ true → normal (walk false kept es) ≡ true
unfolding walk
walk-normal kept [] h = h
walk-normal kept (e ∷ es) h = elim (Kind-cases (kind e)) [
  | inl n ↦ rw n (walk-normal (e ∷ kept) es (ground arith))
  | inr (inr b) ↦ rw b (walk-normal kept es h)
  | inr (inl u) ↦ rw u (walk-normal (climb false kept e) es (climb-normal kept e u h))
]

climb_last :
    (kept : List (List ℕ)) (e : List ℕ) → all is_up kept ≡ true → climb false kept e ≡ e ∷ kept
climb_last [] e h = refl
climb_last (f ∷ kept) e h = ground arith

keep_last :
    (kept : List (List ℕ)) (e : List ℕ)
    → normal (e ∷ kept) ≡ true
    → keep false kept e (kind e) ≡ e ∷ kept
keep_last kept e h = elim (Kind-cases (kind e)) [
  | inl n ↦ ground arith
  | inr (inr b) ↦ absurd (ground arith)
  | inr (inl u) ↦ rw u (climb_last kept e (ground arith))
]

-- A walk over what a walk kept keeps it all.
pub walk-reverse : (kept : List (List ℕ)) → normal kept ≡ true → walk false [] (reverse kept) ≡ kept
unfolding walk
walk-reverse [] h = refl
walk-reverse (e ∷ kept) h =
    let rest = normal_tail e kept h in
    rw (reverse-cons e kept, walk-append false [] (reverse kept) (e ∷ []), walk-reverse kept rest)
      (keep_last kept e h)

pub walk_rooted_same :
    (kept : List (List ℕ)) → names kept ≡ true → walk true [] (reverse kept) ≡ kept
walk_rooted_same kept h =
    walk-names true [] (reverse kept) (all-reverse is_name kept h)
    ∙ append-nil _
    ∙ reverse-reverse kept
