-- ===== src/Memfs.antt =====
-- samples/memfs: a file system in memory, an array of inodes with a list of free IDs.
pub mod Inode
pub mod Xattr
pub mod Store
pub mod Handlers
