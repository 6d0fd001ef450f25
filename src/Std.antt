-- ===== src/Std.antt =====
-- What the sources use of Rust's standard library: `Ord`, sorted slices, `BTreeSet`, `HashMap`.
pub mod Ord
pub mod BTreeSet
pub mod Ascending
pub mod HashMap
pub mod Shuffle
pub mod SortedVec
pub mod Keyed
