-- ===== src/Heap.antt =====
-- kernel/src/mm/heap.rs: the global allocator, which cuts frames into objects of seven sizes.
pub mod Sizes
pub mod Slabs
pub mod Layouts
pub mod Objects
pub mod Geometry
pub mod Serving
pub mod Free
pub mod Buckets
pub mod Served
pub mod Taken
pub mod Refilled
pub mod Small
pub mod Large
mod Examples
