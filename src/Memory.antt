-- ===== src/Memory.antt =====
-- kernel/src/mm/mod.rs: alignment of addresses, and `init`, with the ranges of the memory map that it
-- gives to the frame allocator.
pub mod Align
pub mod Regions
pub mod Frames
pub mod Given
pub mod Memmap
pub mod Boot
pub mod Init
mod Examples
