-- ===== src/Lib.antt =====
-- libhfs reads HFS, HFS+ and HFSX volumes out of an image without changing it. This library
-- models its core in the order in which a read uses it: an image is opened (hfs.go, volume.go),
-- the forks of its special files are resolved into extents (extents.go), bytes are read through
-- extents (attributes.go, binary.go, file.go), B-tree nodes are cut into records and searched
-- (btree.go, btree_search.go, btree_walk.go), the records of the catalog are decoded and looked
-- up (catalog.go, links.go, paths.go), extended attributes are read (xattr.go), and allocation
-- blocks are located and classified (ranges.go, alloc.go, workers.go).
--
-- Prelude holds the shared names, lists over native numbers and Go's fixed-width integers: a
-- uint32 is a number below 2 ^ 32, an int64 a number below 2 ^ 64 whose upper half is negative,
-- and every sum or product that can wrap is written with its modulus. Errors has the sentinels
-- of errors.go and the Result of a Go function: a value, an error or a run-time panic. Bytes
-- has slices and big-endian words, with their panics. Reader is readAtExact of binary.go; the
-- io.ReaderAt is a parameter, and IsImage is what its documentation says of one over an image.
-- Text has the names of records as Go strings: runes in UTF-8, UTF-16, and Mac Roman of
-- macroman.go; Text.Folding is unicode.go.
--
-- Extents is extents.go: parseExtentsRecord, compactExtents, trimExtentsToBlocks and
-- resolveForkExtentsFromFork, whose walk of the overflow tree is the list of records that it
-- delivers (children: Blocks, Parse, Resolve, Cover). ForkRead is readFromExtents of
-- attributes.go. File is file.go: Read, ReadAt and ReadAll on the fields of an open File.
-- Bitmap is alloc.go, over a function that reads the bitmap (children: Runs, Scan, Delivery).
-- Special is forkio.go and readBitmapAt of alloc.go. Ranges is ranges.go with BlockOffset of
-- volume.go. Workers is splitBlockRuns of workers.go. Volume is parseVolumeHeader of volume.go,
-- with the master directory block in Volume.Master and openAt of hfs.go in Volume.Open.
-- Btree.Keys, Btree.Order and Btree.Node are the keys, comparators and nodes of btree.go and
-- btree_search.go; Btree.Search is findLeaf and scanFrom; Btree.Leaves holds the linear walks
-- of btree_walk.go and the keyed walks that fall back to them; Btree.Walks composes them with
-- the trees of a volume. Cache is the node and record caches of cache.go, and Anomalies its
-- list of anomalies. Decmpfs is decmpfs.go, with zlib and the registered codecs as parameters,
-- and checkAlloc of limits.go.
--
-- Catalog is catalog.go: the records and their dates, permissions and links (links.go), with
-- decodeCatalogRecord in Catalog.Decode, the lookups by CNID and by name in Catalog.Lookup,
-- hard links and their private directories in Catalog.Links (children: Stores, Inodes),
-- hydration and OpenPath in Catalog.Hydrate, and directory listings and traversals in
-- Catalog.Dirs. Catalog.Session is what these methods share: they take the walks that they call
-- as functions, and change the anomalies, the cache of records and the private directories that
-- have been found. Paths is paths.go: the memo of paths, pathUp and WalkPaths (children:
-- Chains, Memo, Climb). Xattrs is xattr.go: the listing of attributes, with their values and
-- WalkXAttrs in Xattrs.Values. Opening is openFileFromRecord of file.go with the decompression
-- of files, and ReadLink of links.go. Tests applies the theorems to concrete inputs.
--
-- A callback of a walk is a function on a state of its own, so that the order and the number of
-- its calls can be seen. Loops that are not over a list run on fuel: the completion of a fork
-- on TotalBlocks + 1 rounds, each of which covers a block more; a walk of a tree on TotalNodes
-- + 1 rounds, since it enters a node only once and none but those of the header; the linear
-- walk of the attributes, which makes no such check, on 2 ^ 32 + 1 rounds, since the number of
-- a node is a uint32; the climb to the root on 2 ^ 32 + 1 rounds, since it enters a CNID only
-- once; the comparison of names on one round more than the units of the first; the split of a
-- run of blocks, and the calls of ReadXAttr by itself, on any fuel.
--
-- Not modelled: recovery (deleted.go), reports and identity (report.go, identity.go,
-- capabilities.go), volume identifiers (uuid.go), configuration (config.go) and the goroutine
-- pool of workers.go, for want of room; the variants of methods that take a context or a path
-- where the model has the one that takes a CNID. Of the standard library, errors.Is is a test
-- on sentinels, and sort.Slice, strings.EqualFold and strings.TrimSpace are parameters or
-- written out where the model says so. A nil receiver is left out everywhere; a method holds
-- the volume's lock for the whole of its step.
pub mod Prelude
pub mod Errors
pub mod Bytes
pub mod Reader
pub mod Extents
pub mod ForkRead
pub mod Bitmap
pub mod Btree
pub mod Ranges
pub mod Workers
pub mod Volume
pub mod Cache
pub mod Decmpfs
pub mod File
pub mod Tests
pub mod Special
pub mod Text
pub mod Anomalies
pub mod Catalog
pub mod Paths
pub mod Xattrs
pub mod Opening
