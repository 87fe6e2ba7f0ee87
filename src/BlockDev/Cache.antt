-- ===== src/BlockDev/Cache.antt =====
-- The block cache of kernel/blockdev.c against the disks behind it.
pub mod Find
pub mod Clock
pub mod Content
pub mod Steps
pub mod Evict
pub mod Slot
pub mod Read
pub mod Write
pub mod Flush
pub mod Service
