-- ===== src/Vma/Full.antt =====
-- vma/vma.go: the `switch` on the mask of a cluster, which has a case for all of its chunks and one
-- for none of them.
use udf.Prelude.{
  ℕ, zero, suc, ◌+◌, ◌-◌, ◌*◌, ◌/◌, ◌%◌, ◌^◌, ◌≤◌, ◌<◌, ◌≡◌, refl, ap, ◌∙◌, Bool, true, false, ◌&&◌,
  Bool-cases, inl, inr, List, [], ◌∷◌, ◌++◌, length, get_or, get_or-append_left,
  get_or-append_right, length-append, ltb, leb, ◌==◌, if◌then◌else◌, ltb→lt, arith, and-true,
}
use Prim.Native.Nat.{bit_and, bit_and-bitwise}
use udf.Reader.{Result, ok, read_full-append}
use udf.Vma.{cluster_size, chunk_size, has_chunk, write_cluster}
use udf.Vma.Cluster.{
  count, concat, whole, cluster_byte, patched, Stores, Leaves, write_chunks-Leaves,
}

abbrev all_below : ℕ → (ℕ → Bool) → Bool
all_below zero test = true
all_below (suc n) test = test n && all_below n test

below_holds : (n : ℕ) (test : ℕ → Bool) (k : ℕ) → all_below n test ≡ true → k < n → test k ≡ true
below_holds zero test k h l = absurd (omega arith)
below_holds (suc n) test k h l =
    let (last, rest) = and-true (test n) (all_below n test) h in
    elim (Bool-cases (ltb k n)) [
      | inl less ↦ below_holds n test k rest (ltb→lt _ _ less)
      | inr not_less ↦ let e : k ≡ n = ground arith in rw e last
    ]

full_has : (k : ℕ) → k < 16 → has_chunk 65535 k ≡ true
full_has k h = below_holds 16 (has_chunk 65535) k refl h

count_full : (i k : ℕ) → i + k ≤ 16 → count 65535 i k ≡ k
count_full i zero h = refl
count_full i (suc k) h = rw (full_has i (omega arith)) (ap suc (count_full (i + 1) k (omega arith)))

none_has : (k : ℕ) → has_chunk 0 k ≡ false
none_has k = let e : bit_and 0 (2 ^ k) ≡ 0 = bit_and-bitwise 0 (2 ^ k) in rw e

length-concat :
    (chunks : List (List ℕ))
    → whole chunks ≡ true
    → length (concat chunks) ≡ length chunks * chunk_size
length-concat [] h = refl
length-concat (p ∷ ps) h =
    let (one, rest) = and-true (length p == chunk_size) (whole ps) h in
    let size : length p ≡ chunk_size = ground arith in
    omega (arith, length-append p (concat ps), length-concat ps rest)

get_or-concat :
    (chunks : List (List ℕ)) (k : ℕ)
    → whole chunks ≡ true
    → get_or (concat chunks) k 0 ≡ get_or (get_or chunks (k / chunk_size) []) (k % chunk_size) 0
get_or-concat [] k h = refl
get_or-concat (p ∷ ps) k h =
    let (one, rest) = and-true (length p == chunk_size) (whole ps) h in
    let size : length p ≡ chunk_size = ground arith in
    elim (Bool-cases (ltb k chunk_size)) [
      | inl here ↦
          let l = ltb→lt _ _ here in
          let c : k / chunk_size ≡ 0 = omega arith in
          let r : k % chunk_size ≡ k = omega arith in
          rw (c, r) (get_or-append_left p (concat ps) k 0 (omega arith))
      | inr later ↦
          let l : chunk_size ≤ k = ground arith in
          let c : k / chunk_size ≡ suc ((k - chunk_size) / chunk_size) = omega arith in
          let r : k % chunk_size ≡ (k - chunk_size) % chunk_size = omega arith in
          rw (c, r)
            (get_or-append_right p (concat ps) k 0 (omega arith)
              ∙ ap (λ n. get_or (concat ps) (k - n) 0) size
              ∙ get_or-concat ps (k - chunk_size) rest)
    ]

-- A cluster written in one piece is a cluster written chunk by chunk.
full_patch :
    (pos : ℕ) (chunks : List (List ℕ)) (old : ℕ → ℕ) (x : ℕ)
    → whole chunks ≡ true
    → length chunks ≡ 16
    → patched old (concat chunks) pos x ≡ cluster_byte 65535 pos chunks old x
full_patch pos chunks old x w n =
    let z : pos + 0 ≡ pos = omega arith in
    let l : length (concat chunks) ≡ cluster_size = omega (arith, length-concat chunks w) in
    elim (Bool-cases (leb pos x)) [
      | inr before ↦ rw (z, before)
      | inl behind ↦ elim (Bool-cases (ltb x (pos + cluster_size))) [
        | inr past ↦ rw (l, z, behind, past)
        | inl inside ↦
            let c = (x - pos) / chunk_size in
            let b = ltb→lt _ _ inside in
            let few : c < 16 = omega arith in
            let zc : c - 0 ≡ c = omega arith in
            rw (l, z, behind, inside, full_has c few, zc, count_full 0 c (omega arith))
              (get_or-concat chunks (x - pos) w)
      ]
    ]

no_byte : (a b : Bool) (y x : ℕ) → x ≡ (if a && (b && false) then y else x)
no_byte true true y x = refl
no_byte true false y x = refl
no_byte false b y x = refl

nothing_patch : (pos : ℕ) (old : ℕ → ℕ) (x : ℕ) → old x ≡ cluster_byte 0 pos [] old x
nothing_patch pos old x =
    rw (none_has ((x - pos) / chunk_size))
      (no_byte (leb (pos + 0) x) (ltb x (pos + cluster_size)) _ (old x))

module _ {File : Type 0} (write_at : File → List ℕ → ℕ → Result File) (view : File → ℕ → ℕ)
    (stores : Stores write_at view) (pos : ℕ) (tail : List ℕ) where
  no_chunks-Leaves :
      (chunks : List (List ℕ)) (file : File)
      → length chunks ≡ 0
      → Leaves write_at view stores 0 pos tail 0 chunks file
          (write_cluster write_at 0 file pos (concat chunks ++ tail))
  unfolding write_cluster
  no_chunks-Leaves [] file n = (file, refl, λ x. nothing_patch pos (view file) x)
  no_chunks-Leaves (p ∷ ps) file n = absurd (omega arith)

  all_chunks-Leaves :
      (chunks : List (List ℕ)) (file : File)
      → length chunks ≡ 16
      → whole chunks ≡ true
      → Leaves write_at view stores 65535 pos tail 0 chunks file
          (write_cluster write_at 65535 file pos (concat chunks ++ tail))
  unfolding write_cluster
  all_chunks-Leaves chunks file n w =
      let l : length (concat chunks) ≡ cluster_size = omega (arith, length-concat chunks w) in
      let data_ = read_full-append (concat chunks) tail cluster_size l in
      let (file', e, bytes) = stores.writes file (concat chunks) pos in
      (file', rw (data_, e), λ x. bytes x ∙ full_patch pos chunks (view file) x w n)

module _ {File : Type 0} (write_at : File → List ℕ → ℕ → Result File) (view : File → ℕ → ℕ)
    (stores : Stores write_at view) (mask pos : ℕ) (tail : List ℕ) where
  -- Where the file holds a chunk of 4 KiB for each of the 16 bits that a cluster's mask has, in
  -- order, the cluster is written with no error and leaves the reader behind its data. A byte of the
  -- device's file is then that of the chunk that it stands in, if the mask has it, and all other bytes
  -- are as they were. This is so for the masks of none and of all chunks, which have cases of their
  -- own, and for all others.
  pub write_cluster-cluster_byte :
      (chunks : List (List ℕ)) (file : File)
      → length chunks ≡ count mask 0 16
      → whole chunks ≡ true
      → (file' : File) × (write_cluster write_at mask file pos (concat chunks ++ tail)
          ≡ ok (file', tail))
        × ((x : ℕ) → view file' x ≡ cluster_byte mask pos chunks (view file) x)
  unfolding write_cluster
  write_cluster-cluster_byte chunks file n w = elim (Bool-cases (mask == 0)) [
    | inl empty ↦
        let e : mask ≡ 0 = ground arith in
        rw e (no_chunks-Leaves write_at view stores pos tail chunks file (rw e at n))
    | inr data_ ↦ elim (Bool-cases (mask == 65535)) [
      | inl full ↦
          let e : mask ≡ 65535 = ground arith in
          rw e (all_chunks-Leaves write_at view stores pos tail chunks file (rw e at n) w)
      | inr part ↦
          let (file', e, bytes) =
            write_chunks-Leaves write_at view stores mask pos tail 16 0 chunks file (omega arith) n
              w in
          (file', rw (data_, part) e, bytes)
    ]
  ]
