-- ===== src/Paths.antt =====
-- Go's `path` and `path/filepath` on a system with `/` as separator, as the program uses them: slash
-- separated paths as lists of bytes, and their elements.
pub mod Elements
pub mod Walk
pub mod Clean
use udf.Prelude.{
  ℕ, ◌+◌, Bool, true, false, not, ◌&&◌, ◌||◌, Option, none, some, List, [], ◌∷◌, ◌++◌, length,
  replicate, bytes_eq, ◌==◌, if◌then◌else◌,
}
use mathlib.Core.List.{reverse}

abbrev pub slash : ℕ
slash = 47

abbrev pub dot : List ℕ
dot = 46 ∷ []

abbrev pub dot_dot : List ℕ
dot_dot = 46 ∷ 46 ∷ []

-- `strings.HasPrefix`
unfoldable pub has_prefix : List ℕ → List ℕ → Bool
has_prefix s [] = true
has_prefix [] (c ∷ prefix) = false
has_prefix (d ∷ s) (c ∷ prefix) = (d == c) && has_prefix s prefix

abbrev pub is_rooted : List ℕ → Bool
is_rooted [] = false
is_rooted (c ∷ s) = c == slash

-- What `path.Clean` makes of one element.
pub data Kind : Type 0 where
  blank up name : Kind

unfoldable pub kind : List ℕ → Kind
kind e = if bytes_eq e [] || bytes_eq e dot then blank else if bytes_eq e dot_dot then up else name

-- `strings.Split(s, "/")`
abbrev pub into_first : ℕ → List (List ℕ) → List (List ℕ)
into_first c [] = (c ∷ []) ∷ []
into_first c (e ∷ es) = (c ∷ e) ∷ es

unfoldable pub split : List ℕ → List (List ℕ)
split [] = [] ∷ []
split (c ∷ s) = let rest = split s in if c == slash then [] ∷ rest else into_first c rest

-- `strings.Join(es, "/")`
unfoldable pub join_slash : List (List ℕ) → List ℕ
join_slash [] = []
join_slash (e ∷ []) = e
join_slash (e ∷ (f ∷ es)) = e ++ slash ∷ join_slash (f ∷ es)

-- The elements that `path.Clean` keeps, the last one first: a `..` takes the one before it away, if
-- that is a name.
abbrev pub climb : Bool → List (List ℕ) → List ℕ → List (List ℕ)
climb true [] e = []
climb false [] e = e ∷ []
climb rooted (f ∷ kept) e = elim (kind f) [ up ↦ e ∷ f ∷ kept | _ ↦ kept ]

abbrev pub keep : Bool → List (List ℕ) → List ℕ → Kind → List (List ℕ)
keep rooted kept e blank = kept
keep rooted kept e name = e ∷ kept
keep rooted kept e up = climb rooted kept e

unfoldable pub walk : Bool → List (List ℕ) → List (List ℕ) → List (List ℕ)
walk rooted kept [] = kept
walk rooted kept (e ∷ es) = walk rooted (keep rooted kept e (kind e)) es

unfoldable pub parts : List ℕ → List (List ℕ)
parts s = reverse (walk (is_rooted s) [] (split s))

-- `path.Clean`, from the elements that it keeps.
abbrev pub print : Bool → List (List ℕ) → List ℕ
print true es = slash ∷ join_slash es
print false [] = dot
print false (e ∷ es) = join_slash (e ∷ es)

unfoldable pub clean : List ℕ → List ℕ
clean s = print (is_rooted s) (parts s)

-- `path.Join` and `filepath.Join` of two paths.
unfoldable pub join : List ℕ → List ℕ → List ℕ
join [] [] = []
join [] (d ∷ b) = clean (d ∷ b)
join (c ∷ a) [] = clean (c ∷ a)
join (c ∷ a) (d ∷ b) = clean ((c ∷ a) ++ slash ∷ d ∷ b)

-- `filepath.Rel`, on the elements of two clean paths behind those that they share.
abbrev pub rel_rest : List (List ℕ) → List (List ℕ) → Option (List ℕ)
rel_rest [] ts = some (join_slash ts)
rel_rest (b ∷ bs) ts =
    if bytes_eq b dot_dot
    then none
    else some (join_slash (replicate (length (b ∷ bs)) dot_dot ++ ts))

abbrev pub rel_parts : List (List ℕ) → List (List ℕ) → Option (List ℕ)
rel_parts [] ts = rel_rest [] ts
rel_parts (b ∷ bs) [] = rel_rest (b ∷ bs) []
rel_parts (b ∷ bs) (t ∷ ts) =
    let more = rel_parts bs ts in if bytes_eq b t then more else rel_rest (b ∷ bs) (t ∷ ts)

unfoldable pub rel : List ℕ → List ℕ → Option (List ℕ)
rel base target =
    if bytes_eq (clean target) (clean base)
    then some dot
    else if is_rooted base && not (is_rooted target) || not (is_rooted base) && is_rooted target
    then none
    else rel_parts (parts base) (parts target)

-- `path.Base`: the last element, behind any trailing slashes.
abbrev pub last_name : List (List ℕ) → List ℕ → List ℕ
last_name [] found = found
last_name (e ∷ es) found = last_name es (if bytes_eq e [] then found else e)

unfoldable pub base : List ℕ → List ℕ
base [] = dot
base (c ∷ s) = let e = last_name (split (c ∷ s)) [] in if bytes_eq e [] then slash ∷ [] else e

-- `path.Dir`: what stands up to the last slash, cleaned.
abbrev pub all_but_last : List (List ℕ) → List (List ℕ)
all_but_last [] = []
all_but_last (e ∷ []) = []
all_but_last (e ∷ (f ∷ es)) = e ∷ all_but_last (f ∷ es)

abbrev pub up_to_slash : List (List ℕ) → List ℕ
up_to_slash [] = []
up_to_slash (e ∷ es) = join_slash (e ∷ es) ++ slash ∷ []

unfoldable pub dir : List ℕ → List ℕ
dir s = clean (up_to_slash (all_but_last (split s)))
