-- ===== src/Lib.antt =====
-- Verification of BAF, the Basic Archive Format: the library of crate-lib.
--
-- An archive is a stream of bytes: a header of 256 bytes, segments of a file table, and the
-- contents of files. `Archive` (crate-lib/src/archive.rs) keeps the decoded segments, indexes of
-- directories and files by id, a listing for each directory, and the coverage, which knows the
-- stretches of the stream that are in use. Its operations find a slot in a segment, ask the
-- coverage for room, write to the stream, and bring the indexes up to date.
--
-- Files, with what they model:
--   Base: names passed on from the libraries; tests, lists, results, `Vec`, maps and sets.
--   Bytes: bytes and little-endian integers.
--   Source (crate-lib/src/source.rs): the stream with its position. `Reader` is an operation on it.
--     Source.Reads has the rules for what an operation reads, Source.Overwrite those for writing.
--   Data (crate-lib/src/data): Utf8 (`str::from_utf8`), Name, Timestamp, Header, Directory, File,
--     FtSegment and PathInArchive, each with `encode` and `decode` or their like; children hold
--     the proofs.
--   Coverage (crate-lib/src/coverage.rs): the segments in use, the iterator over the free zones, the
--     choice of a zone, marking as used and as free.
--   Health (crate-lib/src/health.rs): the check of the file table when an archive is opened.
--   FileReader (crate-lib/src/file_reader.rs): reading a file's content with its checksum.
--   Archive (crate-lib/src/archive.rs): the state, errors and outcomes; Slots (searches for slots),
--     Write (writing where there is room, new segments), Create, Change (replace, rename), Remove,
--     Open and Read (listings and files). Archive.Disk says what the stream of an archive holds; its
--     children say which operations establish and keep that, and what opening makes of it.
--     Archive.Invariant ties the indexes and the listings to the slots and the coverage; its
--     children take it through the operations, and have the contents of files as a map from ids,
--     with a step relation for operations that are called one after another.
--   WithPaths (crate-lib/src/with_paths.rs) and WithPaths.Mut (crate-lib/src/with_paths_mut.rs):
--     the operations by path.
--   Iter (crate-lib/src/iter.rs): the iterator over all items below a directory. Iter.Order says in
--     which order, and Iter.Traversal compares it with a plain recursion.
--   HumanSize (crate-bin/src/utils.rs): how sizes are printed.
--   Tree (crate-bin/src/tree.rs): the tree of an archive's items, and how it is printed.
--
-- Text is the bytes of its UTF-8 encoding. Ids, timestamps and addresses are numbers; the ranges
-- of Rust's types are the predicates `IsDirectory`, `IsFile`, `IsItemName` and `IsSegment`. Sums of
-- addresses that may wrap are taken modulo 2^64. The stream is Rust's `Cursor<Vec<u8>>`, so that a
-- read past the end is the one error of input and output. The hash of the `sha3` package is a
-- parameter, from the bytes fed to a digest. A panic is a value: `none`, or `panicked` for the
-- operations of the archive; a listing has `none` for the panic that comes at one of its ids. The
-- clock is a parameter of the operations by path that read it. Maps and sets are lists, and where
-- the source iterates over one, in an order that Rust leaves open, the model takes the list's.
--
-- Fuel: the iterator over free zones is run for two rounds more than there are segments in use,
-- since each round but the last two takes one (`free_zones_lem`). The loop that copies data in
-- chunks of 4096 bytes gets one round more than there are full chunks (`copy_chunks_lem`). Reading a
-- file to its end gets a round for each byte and one more, since each round but the last reads a
-- byte at least (`read_to_vec_lem`). Printing a number gets as many rounds as its value and one more,
-- and takes one for each digit. A loop over the iterator takes its fuel as an argument, and
-- a call for each item and one more are enough (`collect-traverse`). The chain of segments, the
-- recursions of `remove_dir` and of the tree, and the way from an item up to the root take their
-- fuel as an argument, because the source runs for ever, or out of stack, on a chain or on
-- directories that come back to themselves.
--
-- Not modelled: the command line of crate-bin but for the tree and sizes, opening real files, and the
-- clock of the system. Allocations are taken to succeed: the capacity that crate-lib/src/file_reader.rs
-- reserves for a whole file, whose length an archive may give as anything, can panic above
-- `isize::MAX` or exhaust the memory, and is left out. The conversions of a number of slots to `u32`
-- in crate-lib/src/data/ft_segment.rs are left out too, since the segments that are decoded or
-- created have fewer than 2^32 slots.
pub mod Base
pub mod Bytes
pub mod Source
pub mod Data
pub mod Coverage
pub mod Health
pub mod FileReader
pub mod Archive
pub mod WithPaths
pub mod Iter
pub mod Tree
pub mod HumanSize
