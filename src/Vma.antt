-- ===== src/Vma.antt =====
-- vma/vma.go: Proxmox backup archives, extents of clusters of several devices.
pub mod Cluster
pub mod Full
pub mod Total
use udf.Prelude.{
  ℕ, zero, suc, ◌+◌, ◌*◌, ◌/◌, ◌%◌, ◌^◌, Bool, true, false, not, ◌&&◌, ◌||◌, Option, none, some,
  List, [], ◌∷◌, ◌++◌, length, take, drop, get_elem?, get_or, set, ltb, leb, ◌==◌, if◌then◌else◌,
  le16, be16, be32, be64, bytes_eq, codes, bit_and,
}
use udf.Reader.{
  Error, eof, unexpected_eof, device, bad_magic, unsupported, invalid, Result, ok, err, refuse,
  ◌>>=◌, ◌>>◌, read_full,
}

abbrev pub cluster_size : ℕ
cluster_size = 65536

abbrev pub chunk_size : ℕ
chunk_size = 4096

-- `size` is the bit pattern of an int64.
pub record DeviceInfo : Type 0 where
  pub name_off : ℕ
  pub size : ℕ

pub record MainHeader : Type 0 where
  pub blob_offset : ℕ
  pub blob_size : ℕ
  pub header_size : ℕ
  pub dev_info : List DeviceInfo

pub record BlockInfo : Type 0 where
  pub mask : ℕ
  pub dev_id : ℕ
  pub cluster_num : ℕ

abbrev pub read_devices : List ℕ → ℕ → ℕ → List DeviceInfo
read_devices buf zero i = []
read_devices buf (suc n) i =
    record { name_off = be32 buf (4096 + i * 32); size = be64 buf (4096 + i * 32 + 8) }
    ∷ read_devices buf n (i + 1)

unfoldable pub read_main_header : List ℕ → Result MainHeader
read_main_header f = do
  read ← read_full 12289 f
  let buf = read.0
  refuse (not (bytes_eq (take 4 buf) (86 ∷ 77 ∷ 65 ∷ 0 ∷ []))) bad_magic
  refuse (not (be32 buf 4 == 1)) unsupported
  ok (record {
    blob_offset = be32 buf 48;
    blob_size = be32 buf 52;
    header_size = be32 buf 56;
    dev_info = read_devices buf 256 0;
  })

-- The loop over the blobs, from `pos` on: their keys and data. Each takes three bytes or more, so
-- the length of the buffer is enough fuel.
unfoldable pub blobs_from : ℕ → List ℕ → ℕ → List (ℕ × List ℕ)
blobs_from zero buf pos = []
blobs_from (suc fuel) buf pos =
    let n = le16 buf pos in
    let rest = blobs_from fuel buf (pos + 2 + n) in
    if ltb (length buf) (pos + 2) || n == 0 || ltb (length buf) (pos + 2 + n)
    then []
    else (pos, take n (drop (pos + 2) buf)) ∷ rest

-- `ReadAt` of a range that the file does not hold whole is an error.
unfoldable pub read_blob_buffer : List ℕ → ℕ → ℕ → Result (List (ℕ × List ℕ))
read_blob_buffer f offset size = do
  refuse (ltb 0 size && ltb (length f) (offset + size)) device
  let buf = take size (drop offset f)
  ok (blobs_from (length buf) buf 1)

abbrev pub find_blob : List (ℕ × List ℕ) → ℕ → List ℕ
find_blob [] key = []
find_blob ((k, data_) ∷ blobs) key = if k == key then data_ else find_blob blobs key

-- `strings.SplitN(name, "\x00", 2)[0]`
abbrev pub until_nul : List ℕ → List ℕ
until_nul [] = []
until_nul (c ∷ s) = if c == 0 then [] else c ∷ until_nul s

-- `%d` of a number below 1000.
abbrev pub decimal : ℕ → List ℕ
decimal n =
    if ltb n 10
    then (48 + n) ∷ []
    else if ltb n 100
    then (48 + n / 10) ∷ (48 + n % 10) ∷ []
    else (48 + n / 100) ∷ (48 + n / 10 % 10) ∷ (48 + n % 10) ∷ []

abbrev pub disk_name : List (ℕ × List ℕ) → ℕ → ℕ → List ℕ
disk_name blobs name_off i =
    let name = until_nul (find_blob blobs name_off) in
    if bytes_eq name [] then codes "disk-" ++ decimal i else name

abbrev pub read_infos : List ℕ → ℕ → ℕ → List BlockInfo
read_infos buf zero i = []
read_infos buf (suc n) i =
    record {
      mask = be16 buf (40 + i * 8);
      dev_id = get_or buf (40 + i * 8 + 3) 0;
      cluster_num = be32 buf (40 + i * 8 + 4);
    }
    ∷ read_infos buf n (i + 1)

-- The infos of the next extent, and what is left of the file behind its header.
unfoldable pub read_extent_header : List ℕ → Result (List BlockInfo × List ℕ)
read_extent_header f = do
  read ← read_full 512 f
  let buf = read.0
  refuse (not (bytes_eq (take 4 buf) (codes "VMAE"))) bad_magic
  let block_count = be16 buf 6
  refuse (block_count == 0 || ltb 59 block_count) invalid
  ok (read_infos buf block_count 0, read.1)

-- `mask&(1<<i) != 0`
abbrev pub has_chunk : ℕ → ℕ → Bool
has_chunk mask i = not (bit_and mask (2 ^ i) == 0)

-- The data of a cluster that breaks off is an error, which does not pass for the end of the file.
abbrev pub cut : Result (List ℕ × List ℕ) → Result (List ℕ × List ℕ)
cut (err e) = err unexpected_eof
cut (ok r) = ok r

-- `err == io.EOF`
abbrev pub is_eof : Error → Bool
is_eof eof = true
is_eof _ = false

pub record Disk (File : Type 0) : Type 0 where
  pub name : List ℕ
  pub size : ℕ
  pub file : File

-- `write_at` is `WriteAt` of a temporary file, and `temp` a new one.
module _ {File : Type 0} (write_at : File → List ℕ → ℕ → Result File) where
  -- The loop over the chunks of a cluster, of which `left` from chunk `i` on are left.
  unfoldable pub write_chunks : ℕ → ℕ → ℕ → File → ℕ → List ℕ → Result (File × List ℕ)
  write_chunks zero i mask file pos f = ok (file, f)
  write_chunks (suc left) i mask file pos f = elim (has_chunk mask i) [
    | false ↦ write_chunks left (i + 1) mask file pos f
    | true ↦ cut (read_full chunk_size f) >>= λ read.
        write_at file read.0 (pos + i * chunk_size) >>= λ file'.
        write_chunks left (i + 1) mask file' pos read.1
  ]

  -- The `switch` on the mask.
  unfoldable pub write_cluster : ℕ → File → ℕ → List ℕ → Result (File × List ℕ)
  write_cluster mask file pos f =
      if mask == 0
      then ok (file, f)
      else if mask == 65535
      then (do
        read ← cut (read_full cluster_size f)
        file' ← write_at file read.0 pos
        ok (file', read.1))
      else write_chunks 16 0 mask file pos f

  abbrev pub disk_at : List (Option (Disk File)) → ℕ → Option (Disk File)
  disk_at disks id = elim (get_elem? disks id) [ some (some d) ↦ some d | _ ↦ none ]

  abbrev pub to_disk :
      List (Option (Disk File))
      → BlockInfo
      → Option (Disk File)
      → List ℕ
      → Result (List (Option (Disk File)) × List ℕ)
  to_disk disks bi none f = if bi.mask == 0 then ok (disks, f) else err invalid
  to_disk disks bi (some d) f =
      write_cluster bi.mask d.file (bi.cluster_num * cluster_size) f >>= λ r.
      ok (set disks bi.dev_id (some (record d { file = r.0 })), r.1)

  unfoldable pub apply_extent :
      List (Option (Disk File))
      → List BlockInfo
      → List ℕ
      → Result (List (Option (Disk File)) × List ℕ)
  apply_extent disks [] f = ok (disks, f)
  apply_extent disks (bi ∷ infos) f =
      to_disk disks bi (if bi.dev_id == 0 then none else disk_at disks bi.dev_id) f >>= λ r.
      apply_extent r.0 infos r.1

  -- The loop over the extents. An extent takes 512 bytes or more of the file, so that its length is
  -- enough fuel; `none` means that the fuel ran out.
  abbrev pub after_extent :
      (List (Option (Disk File)) → List ℕ → Option (Result (List (Option (Disk File)))))
      → Result (List (Option (Disk File)) × List ℕ)
      → Option (Result (List (Option (Disk File))))
  after_extent rest (err e) = some (err e)
  after_extent rest (ok (disks, f)) = rest disks f

  abbrev pub next_extent :
      (List (Option (Disk File)) → List ℕ → Option (Result (List (Option (Disk File)))))
      → List (Option (Disk File))
      → Result (List BlockInfo × List ℕ)
      → Option (Result (List (Option (Disk File))))
  next_extent rest disks (err e) = some (if is_eof e then ok disks else err e)
  next_extent rest disks (ok (infos, f)) = after_extent rest (apply_extent disks infos f)

  unfoldable pub read_extents :
      ℕ → List (Option (Disk File)) → List ℕ → Option (Result (List (Option (Disk File))))
  read_extents zero disks f = none
  read_extents (suc fuel) disks f =
      next_extent (λ disks' f'. read_extents fuel disks' f') disks (read_extent_header f)

  abbrev pub new_disks : File → List (ℕ × List ℕ) → List DeviceInfo → ℕ → List (Option (Disk File))
  new_disks temp blobs [] i = []
  new_disks temp blobs (di ∷ infos) i =
      let d : Disk File = record {
        name = disk_name blobs di.name_off i;
        size = di.size;
        file = temp;
      } in
      (if di.size == 0 then none else some d) ∷ new_disks temp blobs infos (i + 1)

  abbrev pub present : List (Option (Disk File)) → List (Disk File)
  present [] = []
  present (none ∷ disks) = present disks
  present (some d ∷ disks) = d ∷ present disks

  abbrev pub opened :
      Option (Result (List (Option (Disk File)))) → Option (Result (List (Disk File)))
  opened none = none
  opened (some (err e)) = some (err e)
  opened (some (ok disks)) = some (ok (present disks))

  -- `OpenFile`
  unfoldable pub open_file : File → List ℕ → Option (Result (List (Disk File)))
  open_file temp f = elim (read_main_header f) [
    | err e ↦ some (err e)
    | ok hdr ↦ elim (read_blob_buffer f hdr.blob_offset hdr.blob_size) [
      | err e ↦ some (err e)
      | ok blobs ↦
          let data_ = drop hdr.header_size f in
          opened (read_extents (suc (length data_)) (new_disks temp blobs hdr.dev_info 0) data_)
    ]
  ]
