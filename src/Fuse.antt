-- ===== src/Fuse.antt =====
-- fuse_fs.py: `GateFuse`, over a lock service (client.py) and a kernel.
pub mod World
pub mod Locks
pub mod Operations
pub mod Handles
pub mod Keeps
pub mod Shapes
pub mod Sessions
pub mod Leaks
pub mod Returns
pub mod Closing
pub mod Service
