-- ===== src/Vmm.antt =====
-- kernel/src/mm/vmm.rs: the page tables, in frames that the frame allocator hands out.
pub mod Paging
pub mod Machine
pub mod Translate
pub mod Map
pub mod Tables
pub mod Frames
pub mod Added
pub mod Undo
pub mod Enter
pub mod Descend
pub mod Placed
pub mod Mapped
pub mod Reclaimed
pub mod Unmapping
pub mod Unmapped
pub mod Linked
pub mod Others
pub mod Examples
pub mod UnmapExamples
pub mod Unmap
pub mod Range
pub mod Clone
