-- ===== src/Cache.antt =====
-- cache/: entries that expire, over the hash table of abs/ and a list in order of use.
pub mod Lru
pub mod Core
pub mod File
pub mod Attr
pub mod Symlink
pub mod Dir
