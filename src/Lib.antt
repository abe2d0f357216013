-- ===== src/Lib.antt =====
-- udf opens disk images, archives and container images and reads files out of them. This library
-- models its readers of disk images, of Android super partitions and of LVM metadata: code that
-- turns a request for bytes of a virtual disk into requests on the image file, by tables that
-- the image holds. It also models the application of container layers to a directory: code that
-- turns names in an archive into paths that are written.
--
-- The program's parts. Each package opens an image from an `io.ReaderAt` (`Open`), checks the
-- header, keeps tables in a struct, and serves `ReadAt` from the tables and the file. The image
-- package finds the format, opens the disk with its package, and lays a partition table and a
-- file system over `ReadAt`. What follows is modelled of them:
--
--   Prelude    native numbers, lists, Go's int64 as an integer, encoding/binary, math/bits
--   Reader     errors, results and the file. `Reader.Chunks` is the loop that the `ReadAt` of vdi,
--              parallels, qed and qcow share, `Reader.Blocks` the flat disk that a table describes,
--              `Reader.Memory` a file in memory, for runs
--   Vdi        vdi/vdi.go: `open_disk` is `Open`, `read_at` is `ReadAt`
--   Parallels  parallels/parallels.go: `open_disk` is `Open`, `read_at` is `ReadAt`
--   L2Cache    the cache in qed/qed.go and qcow/qcow.go of `l2Table`: the list of elements, the map,
--              and the two critical sections, each one step on the state; `L2Cache.Keys` relates
--              the entries of the map to the elements of the list
--   Qed        qed/qed.go: `open_disk` is `Open`, `read_disk` is `ReadAt` with the cache as a state
--   Qcow       qcow/qcow.go: `open_disk` is `Open`, `read_disk` is `ReadAt`, over a decompressor that
--              is a parameter
--   Vmdk       vmdk/vmdk.go: `open_disk` is `Open`, `read_disk` is `ReadAt` with `grainBuf` as a
--              state, over a decompressor that is a parameter; `Vmdk.Grains` and `Vmdk.Flat` hold
--              the geometry and the flat disk
--   Vma        vma/vma.go: `open_file` is `OpenFile`, `apply_extent` is `applyExtent`, over a
--              temporary file that is a parameter; `Vma.Cluster` and `Vma.Full` are about one cluster
--   Sparse     image/sparse.go: `open_sparse` is `openSparse`, `chunk_at` is `chunkAt`, `read_at` is
--              `ReadAt`; `Sparse.Search` and `Sparse.Flat` hold their proofs
--   Lvm        lvm2/lvm2.go: `build_logical_volume` is `buildLogicalVolume`, `merge_extents` is
--              `mergeExtents`; `Lvm.Scanner` is the scanner, `Lvm.Parse` and `Lvm.Group` the parser,
--              `open_vg` is `Open`
--   Superlp    superlp/superlp.go: the records, `Size`, `Contiguous` and `Find`; `Superlp.Parse` is
--              `Detect` and `Open`, `Superlp.Mapping` is `Mapping` and its `ReadAt`
--   Lz4        image/archive/lz4legacy.go: `next` and `read` are the reader's `next` and `Read`,
--              `read_all` is `openLegacyLZ4`, over a decoder of blocks that is a parameter
--   Paths      Go's path and path/filepath, by the elements of a path: `clean`, `join`, `rel`,
--              `base` and `dir`; `Paths.Walk` is the walk over the elements that `path.Clean` is
--   Fsutil     fsutil/path.go: `resolve_safe_path` is `ResolveSafePath`. `Fsutil.Write` is
--              fsutil/write.go, over system calls that are a parameter, with
--              `apply_dir_metadata` of `Fsutil.Dirs` for `ApplyDirMetadata`
--   Layer      layer/whiteout.go and layer/apply.go: `handle_whiteout` is `HandleWhiteout`,
--              `apply_layer` the loop of `ApplyLayer` over the entries that the tar reader finds;
--              `Layer.Image` is `applyImagePerLayer` of image/apply.go, the layers of an image
--              one after the other
--   Tests      runs and witnesses
--
-- Numbers. An unsigned field is a native number, and its arithmetic is reduced modulo 2 ^ w
-- where it can wrap. An offset of the file or a size is an int64 that the code converts from a
-- word: `int64` keeps the bit pattern, and in `Superlp.Mapping`, `Sparse` and `Lvm` the int64
-- fields stay patterns below 2 ^ 64 with their own sum, difference and order. A length of a
-- slice is not bounded unless a theorem says so.
--
-- The file is a parameter, a function from an offset and a buffer to the buffer's new content,
-- the count and the error. `Serves` states what io.ReaderAt documents of a file with a given
-- content: a read inside the file returns its bytes and no error, and one that runs past the end
-- stops there with io.EOF. The error texts are constructors of one type. A Go panic that the
-- modelled code reaches is the error `panic`.
--
-- System calls that write are a parameter too: `Fsutil.Write.Os` is a record of functions on a
-- state, each of which may change the state and then returns a result. What the code relies on,
-- that a call touches no more than its path, is the record `Confined`. It speaks of paths by
-- their names, of the directory itself and of what is below it: where a path leads through
-- symbolic links is not modelled.
--
-- Loops. `ReadAt` serves at least one byte a round, so its fuel is one more than the length of
-- the buffer, also in image/sparse.go. `evict` has the length of the list as its fuel, a
-- bisection the distance of its bounds, and the parser of LVM metadata one more than the length
-- of the text, of which each round passes over a byte or more. An extent of
-- vma takes 512 bytes of the file or more, and the buffer of lz4legacy is full after three
-- doublings. Where the fuel can run out in the
-- model, that is an outer `none`, which is no result of the code.
--
-- Not modelled: the formats whose decoders are libraries, the file systems, the commands, the
-- cache of listings and the output; of layer, the choice of a decompressor, and of
-- image/apply.go, the ways that read only the entries that are kept. The mutex of a cache is the
-- granularity of its steps. Size and Close return a field or nothing.
pub mod Prelude
pub mod Reader
pub mod L2Cache
pub mod Vdi
pub mod Parallels
pub mod Qed
pub mod Qcow
pub mod Vmdk
pub mod Vma
pub mod Sparse
pub mod Lvm
pub mod Superlp
pub mod Lz4
pub mod Paths
pub mod Fsutil
pub mod Layer
pub mod Tests
