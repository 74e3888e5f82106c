-- ===== src/Fs.antt =====
-- The file system of ass5/final_repo/fs.c, inside a transaction of the log.
pub mod Disk
pub mod Bits
pub mod Alloc
pub mod Used
pub mod Free
pub mod Inode
pub mod Layout
pub mod Extend
pub mod Map
pub mod Bmap
pub mod Write
pub mod Content
pub mod Read
pub mod Transfer
pub mod Update
pub mod Whole
pub mod Roundtrip
pub mod Path
pub mod Namex
pub mod Walk
pub mod Directory
pub mod Lookup
pub mod Found
pub mod Link
pub mod Ending
pub mod Linked
pub mod Dinode
pub mod Slot
pub mod Stored
pub mod Release
pub mod Clear
pub mod Emptying
pub mod Truncate
pub mod Icache
pub mod Scan
pub mod Iget
pub mod Iput
pub mod Blank
pub mod Ialloc
pub mod Fresh
