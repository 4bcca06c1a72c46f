-- ===== src/Pci.antt =====
-- kernel/src/pci.rs: addresses of configuration registers, the enumeration of devices, and
-- `init`.
pub mod Access
pub mod Functions
pub mod Enumerate
pub mod Listing
pub mod Visit
pub mod Confined
pub mod Found
pub mod Init
pub mod Addresses
pub mod Started
pub mod Examples
