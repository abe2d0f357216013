-- ===== src/Prelude/Bytes.antt =====
-- `encoding/binary` on a byte slice: fixed-width words at an offset, in either byte order.
use Prim.Native.Nat.{ℕ, zero, suc, ◌+◌, ◌*◌, ◌<◌}
use mathlib.Core.Path.{◌≡◌, refl, ap, ◌∙◌}
use mathlib.Core.Option.{some}
use mathlib.Core.List.{List, [], ◌∷◌}
use native.Mathlib.Omega.{arith}
use udf.Prelude.Lists.{length, get_elem?, get_or}

unfoldable pub le16 : List ℕ → ℕ → ℕ
le16 b i = get_or b i 0 + 256 * get_or b (i + 1) 0

unfoldable pub le32 : List ℕ → ℕ → ℕ
unfolding le16
le32 b i = le16 b i + 65_536 * le16 b (i + 2)

unfoldable pub le64 : List ℕ → ℕ → ℕ
unfolding le32
le64 b i = le32 b i + 4_294_967_296 * le32 b (i + 4)

unfoldable pub be16 : List ℕ → ℕ → ℕ
be16 b i = 256 * get_or b i 0 + get_or b (i + 1) 0

unfoldable pub be32 : List ℕ → ℕ → ℕ
unfolding be16
be32 b i = 65_536 * be16 b i + be16 b (i + 2)

unfoldable pub be64 : List ℕ → ℕ → ℕ
unfolding be32
be64 b i = 4_294_967_296 * be32 b i + be32 b (i + 4)

-- `for i := range tab { tab[i] = word(raw[i*width : …]) }`, from entry `i` on.
unfoldable pub table : (List ℕ → ℕ → ℕ) → ℕ → List ℕ → ℕ → ℕ → List ℕ
table word width raw zero i = []
table word width raw (suc n) i = word raw (i * width) ∷ table word width raw n (i + 1)

pub length-table :
    (word : List ℕ → ℕ → ℕ) (width : ℕ) (raw : List ℕ) (n i : ℕ)
    → length (table word width raw n i) ≡ n
unfolding table
length-table word width raw zero i = refl
length-table word width raw (suc n) i = ap suc (length-table word width raw n (i + 1))

pub get_elem?-table :
    (word : List ℕ → ℕ → ℕ) (width : ℕ) (raw : List ℕ) (n i k : ℕ)
    → k < n
    → get_elem? (table word width raw n i) k ≡ some (word raw ((i + k) * width))
unfolding table
get_elem?-table word width raw zero i k h = absurd (omega arith)
get_elem?-table word width raw (suc n) i zero h =
    ap (λ j. some (word raw (j * width))) (omega arith)
get_elem?-table word width raw (suc n) i (suc k) h =
    get_elem?-table word width raw n (i + 1) k (omega arith)
    ∙ ap (λ j. some (word raw (j * width))) (omega arith)
