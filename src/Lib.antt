-- ===== src/Lib.antt =====
-- Models of the prometheos kernel (kernel/src) and theorems about them.
--
-- The kernel's memory management stands below the rest: mm/pmm.rs hands out physical frames,
-- mm/vmm.rs builds page tables in frames that it takes from there, and mm/heap.rs cuts single
-- frames into objects. Everything else asks these for memory.
--
-- Pmm models mm/pmm.rs. The record Pmm is the struct, with the memory behind its block pointers
-- as a function from addresses to blocks; list_push, list_remove, alloc_pages, free_pages and
-- add_range are the methods, from the state to a result that is the new state or a panic.
-- Overflow checks and debug assertions are on, as in the dev profile that kernel/GNUmakefile
-- selects. The loops of alloc_pages and free_pages run over the orders that are left, so they
-- need no fuel; add_range has fuel, one more than the number of frames, and each round takes at
-- least one. Pmm.Valid states the invariant, its children prove the pointer writes, the marks
-- and the methods.
--
-- Locks models utils.rs: IntLock, the lock around the allocators and the other shared state;
-- SpinLock, with the two functions of acpi/uacpi.rs that use it, on a handle that is not null
-- (Spin); and Singleton, as the holder of its lock sees it. Each processor has a program
-- counter and an interrupt flag; a step is one atomic access of lock or unlock, and an
-- interleaving is a list of processors. Interrupt handlers that run between two steps are not
-- part of it. The loop of lock is a step that changes nothing while the lock is taken;
-- SpinLock's exchange may fail without a reason.
--
-- Vmm models mm/vmm.rs. Machine holds the statics PMM, VMM and HHDM_OFFSET, the register CR3,
-- the TLB calls, and the memory of page tables: the entry at an index of the table at a
-- physical address, which the code reaches at that address plus the offset. Frames that hold no
-- table are not part of that memory, as map and clone_table clear a frame before they use it.
-- What the x86 crate says of addresses and entries is the parameter Paging. translate, map and
-- unmap are each cut at the levels of the walk; the recursion of clone_table and
-- free_cloned_table is on the level, the other loops are on the rounds that are left.
--
-- Heap models mm/heap.rs. The record Heap holds the buckets' active and partial slabs and, by
-- address, the links of slabs and of free objects; slabs and large blocks come from Pmm. The
-- loop of refill is on the objects that are left. The read of an object that may not be there,
-- which the code does unchecked, is a panic in the model.
--
-- Pci models pci.rs. A read or a write is a value that says which ports or which address it
-- uses, and the hardware is a function from reads to answers. enum_device and enum_bus add to a
-- vector, which is the state; the fuel of enum_bus is the depth of the buses, and 256 is enough
-- when each bridge leads to a bus after its own, as there are no more buses. init maps the
-- registers with Vmm's map_range; the table that it finds is a parameter, as the ACPI library
-- is not part of the repository. The hardware answers at every address: the page fault that a
-- read behind the mapped pages has is not modelled, and Confined shows which registers the
-- listing depends on.
--
-- Idt models idt.rs: the table of handlers, and isr_handler as a function from the frame and
-- the table, whose result is a return or the panic. A handler is a closure that may change what
-- it holds and the frame; what it does beyond that is not part of the model.
--
-- Tsc models tsc.rs: the measurement of the frequency with the timer's ports (Calibrate), whose
-- wait has fuel, which is enough if the timer's output is up within as many reads, and the time
-- since boot. What ports and the counter give at each read are arguments.
--
-- Serial models write_str of serial.rs, with critical_section of utils.rs. The line status is a
-- function from the number of the read; the wait of each byte has fuel, which is enough if the
-- line becomes ready within as many reads.
--
-- Memory models mm/mod.rs: align_up and align_down, and init. Frames cuts out the part that
-- sets up the frame allocator from the memory map, whose pieces go to Pmm's add_range, with its
-- own fuel; Init goes on to the page tables, the statics and the heap. The bootloader's answers
-- are arguments.
--
-- Acpi models acpi/, which is what the kernel offers the uACPI library, and the start of that
-- library. Ranges maps and unmaps ranges page by page with Vmm, with fuel for the pages;
-- Devices reads and writes configuration registers with Pci and ports; Basics has what keeps no
-- state, and the blocks from Heap; Boxes the objects behind handles. Events models the event's
-- counter twice: as atomic steps of many processors, and as one processor's wait, where the
-- signals of the others are an argument. Clock has the waits for the clock and for a mutex;
-- what the clock shows at each reading, and whether the lock is taken at each access, are
-- arguments, and loops have fuel, which is enough if the clock passes the end within as many
-- readings. Interrupts installs handlers with Idt: the closure holds the library's handler and
-- its context, and keeps, in the model only, the calls that it has made.
--
-- Apic models apic.rs: the search of the ACPI library's table, whose iteration is a parameter,
-- and init, which maps the registers with Vmm and installs a handler with Idt.
--
-- Gdt models gdt.rs, with the x86 crate's builder of descriptors as a parameter. Entry models
-- of main.rs the control registers and the line on the screen.
--
-- Not modelled are the calls of the parts' init functions in kmain, as each part's model has
-- its own state, the macros print and println and what they print, what the x86 and limine
-- crates and the uACPI library do, and the interrupt handlers that may run between two steps of
-- a lock.
mod Base
pub mod Heap
pub mod Locks
pub mod Memory
pub mod Pmm
pub mod Vmm
pub mod Pci
pub mod Idt
pub mod Tsc
pub mod Serial
pub mod Acpi
pub mod Apic
pub mod Gdt
pub mod Entry
