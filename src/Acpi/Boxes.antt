-- ===== src/Acpi/Boxes.antt =====
-- The objects behind the handles that kernel/src/acpi/uacpi.rs gives the ACPI library.
use prometheos.Base.{ℕ, Bool, false, Option, none, some, ◌==◌, if◌then◌else◌}

-- What is behind a handle, by its address.
abbrev pub Boxes : Type 0 → Type 0
Boxes T = ℕ → Option T

abbrev pub set_box : {T : Type 0} → Boxes T → (handle : ℕ) → Option T → Boxes T
set_box boxes handle value h = if h == handle then value else boxes h

-- `Box::into_raw(Box::new(value))`, where `handle` is the address of the new box.
unfoldable pub into_raw : {T : Type 0} → Boxes T → (handle : ℕ) → T → Boxes T × ℕ
into_raw boxes handle value = (set_box boxes handle (some value), handle)

-- `Box::from_raw` and the drop of the box, unless the handle is the null pointer, which is `none`.
unfoldable pub free_box : {T : Type 0} → Boxes T → Option ℕ → Boxes T
free_box boxes none = boxes
free_box boxes (some handle) = set_box boxes handle none

-- Whether a lock is taken.
unfoldable pub create_spinlock : Boxes Bool → (handle : ℕ) → Boxes Bool × ℕ
unfolding into_raw
create_spinlock boxes handle = into_raw boxes handle false

unfoldable pub free_spinlock : Boxes Bool → Option ℕ → Boxes Bool
unfolding free_box
free_spinlock boxes handle = free_box boxes handle

unfoldable pub create_mutex : Boxes Bool → (handle : ℕ) → Boxes Bool × ℕ
unfolding create_spinlock
create_mutex boxes handle = create_spinlock boxes handle

unfoldable pub free_mutex : Boxes Bool → Option ℕ → Boxes Bool
unfolding free_spinlock
free_mutex boxes handle = free_spinlock boxes handle

-- The counter of an event.
unfoldable pub kernel_create_event : Boxes ℕ → (handle : ℕ) → Boxes ℕ × ℕ
unfolding into_raw
kernel_create_event boxes handle = into_raw boxes handle 0

unfoldable pub kernel_free_event : Boxes ℕ → Option ℕ → Boxes ℕ
unfolding free_box
kernel_free_event boxes handle = free_box boxes handle
