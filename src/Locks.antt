-- ===== src/Locks.antt =====
-- kernel/src/utils.rs: `IntLock`, the spin lock that keeps interrupts off while it is held, and
-- `SpinLock`, used by any number of processors that take and release them again and again; and
-- `Singleton`.
pub mod System
pub mod Invariant
pub mod Exclusion
pub mod Release
pub mod Singleton
pub mod Spin
pub mod SpinSafe
mod Examples
