-- ===== src/Acpi.antt =====
-- kernel/src/acpi: what the kernel offers the ACPI library, and the start of that library.
pub mod Status
pub mod Basics
pub mod Boxes
pub mod Devices
pub mod Ranges
pub mod Pages
pub mod Interrupts
pub mod Installed
pub mod Events
pub mod Signals
pub mod Waits
pub mod Clock
pub mod Sleeps
pub mod Mutex
pub mod Examples
