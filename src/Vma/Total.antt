-- ===== src/Vma/Total.antt =====
-- vma/vma.go: how much of the file an extent takes, and the loop over the extents.
use udf.Prelude.{
  ℕ, zero, suc, ◌+◌, ◌*◌, ◌≤◌, ◌<◌, ◌≡◌, ap, ◌∙◌, Bool, true, false, Bool-cases, inl, inr, Option,
  none, some, List, [], ◌∷◌, length, take, drop, length-drop, set, ltb, ◌==◌, if◌then◌else◌, arith,
  be16,
}
use udf.Reader.{
  bad_magic, invalid, Result, ok, err, Result-cases, refuse, ◌>>=◌, ◌>>◌, bind-inverse, read_full,
}
use udf.Vma.{
  BlockInfo, Disk, cluster_size, chunk_size, read_infos, read_main_header, read_blob_buffer,
  new_disks, read_extent_header, has_chunk, cut, write_chunks, write_cluster, disk_at, to_disk,
  apply_extent, next_extent, after_extent, is_eof, present, read_extents, opened, open_file,
}

read_full-shorter :
    (n : ℕ) (f : List ℕ) {r : List ℕ × List ℕ} → read_full n f ≡ ok r → length r.1 + n ≡ length f
unfolding read_full
read_full-shorter n f {r} h = elim (Bool-cases (ltb (length f) n)) [
  | inl short ↦ absurd (ground arith)
  | inr enough ↦
      let e : (take n f, drop n f) ≡ r = ground arith in
      let l = ap (λ (p : List ℕ × List ℕ). length p.1) e in
      let m : n ≤ length f = ground arith in omega (arith, length-drop n f)
]

cut-shorter :
    (n : ℕ) (f : List ℕ) {r : List ℕ × List ℕ} → cut (read_full n f) ≡ ok r → length r.1 ≤ length f
cut-shorter n f {r} h = elim (Result-cases (read_full n f)) [
  | inr (e, bad) ↦ absurd (ground arith)
  | inl (p, good) ↦
      let s = read_full-shorter n f {r = p} good in
      let same : p ≡ r = ground arith in
      let l = ap (λ (p : List ℕ × List ℕ). length p.1) same in omega arith
]

accepted :
    {A : Type 0} (a b : Bool) (x : A) {r : A}
    → (do refuse a bad_magic; refuse b invalid; ok x) ≡ ok r
    → x ≡ r
accepted true b x h = absurd cc
accepted false true x h = absurd cc
accepted false false x h = cc

read_extent_header-shorter :
    (f : List ℕ) {r : List BlockInfo × List ℕ} → read_extent_header f ≡ ok r → length r.1 < length f
unfolding read_extent_header
read_extent_header-shorter f {r} h = elim (Result-cases (read_full 512 f)) [
  | inr (e, bad) ↦ absurd (ground arith)
  | inl (p, good) ↦
      let s = read_full-shorter 512 f {r = p} good in
      let x : List BlockInfo × List ℕ = (read_infos p.0 (be16 p.0 6) 0, p.1) in
      let same = accepted _ _ x {r = r} (rw good at h) in
      let l = ap (λ (p : List BlockInfo × List ℕ). length p.1) same in omega arith
]

module _ {File : Type 0} (write_at : File → List ℕ → ℕ → Result File) where
  write_chunks-shorter :
      (left i mask : ℕ) (file : File) (pos : ℕ) (f : List ℕ) {r : File × List ℕ}
      → write_chunks write_at left i mask file pos f ≡ ok r
      → length r.1 ≤ length f
  unfolding write_chunks
  write_chunks-shorter zero i mask file pos f {r} h =
      let e : (file, f) ≡ r = ground arith in
      let l = ap (λ (p : File × List ℕ). length p.1) e in omega arith
  write_chunks-shorter (suc left) i mask file pos f {r} h = elim (Bool-cases (has_chunk mask i)) [
    | inr lacks ↦
        write_chunks-shorter left (i + 1) mask file pos f {r = r} (rw (write_chunks, lacks) at h)
    | inl has ↦
        let (read, e, more) =
          bind-inverse (cut (read_full chunk_size f))
            (λ read. write_at file read.0 (pos + i * chunk_size) >>= λ file'.
              write_chunks write_at left (i + 1) mask file' pos read.1)
            (rw (write_chunks, has) at h) in
        let (file', e', rest) =
          bind-inverse (write_at file read.0 (pos + i * chunk_size))
            (λ file'. write_chunks write_at left (i + 1) mask file' pos read.1) more in
        let a = cut-shorter chunk_size f {r = read} e in
        let b = write_chunks-shorter left (i + 1) mask file' pos read.1 {r = r} rest in omega arith
  ]

  write_cluster-shorter :
      (mask : ℕ) (file : File) (pos : ℕ) (f : List ℕ) {r : File × List ℕ}
      → write_cluster write_at mask file pos f ≡ ok r
      → length r.1 ≤ length f
  unfolding write_cluster
  write_cluster-shorter mask file pos f {r} h = elim (Bool-cases (mask == 0)) [
    | inl empty ↦
        let e : ok (file, f) ≡ ok r = rw empty at h in
        let same : (file, f) ≡ r = cc in
        let l = ap (λ (p : File × List ℕ). length p.1) same in omega arith
    | inr data_ ↦ elim (Bool-cases (mask == 65535)) [
      | inr part ↦ write_chunks-shorter 16 0 mask file pos f {r = r} (rw (data_, part) at h)
      | inl full ↦
          let (read, e, more) =
            bind-inverse (cut (read_full cluster_size f))
              (λ read. write_at file read.0 pos >>= λ file'. ok (file', read.1))
              (rw (data_, full) at h) in
          let (file', e', rest) =
            bind-inverse (write_at file read.0 pos) (λ file'. ok (file', read.1)) more in
          let a = cut-shorter cluster_size f {r = read} e in
          let same : (file', read.1) ≡ r = cc in
          let l = ap (λ (p : File × List ℕ). length p.1) same in omega arith
    ]
  ]

  to_disk-shorter :
      (disks : List (Option (Disk File))) (bi : BlockInfo) (d : Option (Disk File)) (f : List ℕ)
      {r : List (Option (Disk File)) × List ℕ}
      → to_disk write_at disks bi d f ≡ ok r
      → length r.1 ≤ length f
  to_disk-shorter disks bi none f {r} h = elim (Bool-cases (bi.mask == 0)) [
    | inr bad ↦ absurd (ground arith)
    | inl empty ↦
        let same : (disks, f) ≡ r = ground arith in
        let l = ap (λ (p : List (Option (Disk File)) × List ℕ). length p.1) same in omega arith
  ]
  to_disk-shorter disks bi (some d) f {r} h =
      let (w, e, t) =
        bind-inverse (write_cluster write_at bi.mask d.file (bi.cluster_num * cluster_size) f)
          (λ r. ok (set disks bi.dev_id (some (record d { file = r.0 })), r.1)) h in
      let a = write_cluster-shorter bi.mask d.file (bi.cluster_num * cluster_size) f {r = w} e in
      let same : (set disks bi.dev_id (some (record d { file = w.0 })), w.1) ≡ r = cc in
      let l = ap (λ (p : List (Option (Disk File)) × List ℕ). length p.1) same in omega arith

  apply_extent-shorter :
      (disks : List (Option (Disk File))) (infos : List BlockInfo) (f : List ℕ)
      {r : List (Option (Disk File)) × List ℕ}
      → apply_extent write_at disks infos f ≡ ok r
      → length r.1 ≤ length f
  unfolding apply_extent
  apply_extent-shorter disks [] f {r} h =
      let same : (disks, f) ≡ r = cc in
      let l = ap (λ (p : List (Option (Disk File)) × List ℕ). length p.1) same in omega arith
  apply_extent-shorter disks (bi ∷ infos) f {r} h =
      let d = if bi.dev_id == 0 then none else disk_at write_at disks bi.dev_id in
      let (w, e, t) =
        bind-inverse (to_disk write_at disks bi d f) (λ r. apply_extent write_at r.0 infos r.1) h in
      let a = to_disk-shorter disks bi d f {r = w} e in
      let b = apply_extent-shorter w.0 infos w.1 {r = r} t in omega arith

  -- The loop over the extents ends with disks or an error, within fuel of the length of the file.
  read_extents_total :
      (fuel : ℕ) (disks : List (Option (Disk File))) (f : List ℕ)
      → length f < fuel
      → (r : Result (List (Option (Disk File)))) × (read_extents write_at fuel disks f ≡ some r)
  unfolding read_extents
  read_extents_total zero disks f h = absurd (omega arith)
  read_extents_total (suc fuel) disks f h =
      let rest = λ (disks' : List (Option (Disk File))) (f' : List ℕ).
        read_extents write_at fuel disks' f' in
      elim (Result-cases (read_extent_header f)) [
        | inr (e, bad) ↦
            (if is_eof e then ok disks else err e, ap (next_extent write_at rest disks) bad)
        | inl (x, good) ↦ elim (Result-cases (apply_extent write_at disks x.0 x.1)) [
          | inr (e, bad) ↦ (
            err e,
            ap (next_extent write_at rest disks) good ∙ ap (after_extent write_at rest) bad,
          )
          | inl (w, applied) ↦
              let a = read_extent_header-shorter f {r = x} good in
              let b = apply_extent-shorter disks x.0 x.1 {r = w} applied in
              let (r, e) = read_extents_total fuel w.0 w.1 (omega arith) in
              (
                r,
                ap (next_extent write_at rest disks) good
                    ∙ ap (after_extent write_at rest) applied
                    ∙ e,
              )
        ]
      ]

  opened_total :
      (o : Option (Result (List (Option (Disk File))))) (r : Result (List (Option (Disk File))))
      → o ≡ some r
      → (s : Result (List (Disk File))) × (opened write_at o ≡ some s)
  opened_total o (err e) h = (err e, ap (opened write_at) h)
  opened_total o (ok disks) h = (ok (present write_at disks), ap (opened write_at) h)

  -- `OpenFile` returns the disks of an archive or an error, whatever the file holds.
  pub open_file_total :
      (temp : File) (f : List ℕ)
      → (r : Result (List (Disk File))) × (open_file write_at temp f ≡ some r)
  unfolding open_file
  open_file_total temp f = elim (Result-cases (read_main_header f)) [
    | inr (e, bad) ↦ (err e, rw (open_file, bad))
    | inl (hdr, good) ↦ elim (Result-cases (read_blob_buffer f hdr.blob_offset hdr.blob_size)) [
      | inr (e, bad) ↦ (err e, rw (open_file, good, bad))
      | inl (blobs, read) ↦
          let data_ = drop hdr.header_size f in
          let (r, e) =
            read_extents_total (suc (length data_)) (new_disks write_at temp blobs hdr.dev_info 0)
              data_ (omega arith) in
          let (s, e') = opened_total _ r e in (s, rw (open_file, good, read) e')
    ]
  ]
