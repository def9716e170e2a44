-- ===== src/Tests.antt =====
-- Concrete histories, and the theorems at them.
mod Samples
mod Locking
mod Racing
mod Serving
mod Remoting
mod Refusing
mod Mounting
mod Commanding
mod Running
mod Splitting
