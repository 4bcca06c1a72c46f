-- ===== src/Memory/Init.antt =====
-- `init` of kernel/src/mm/mod.rs: the frame allocator, the page tables and the heap, in this order.
use prometheos.Base.{ℕ, not, none, some, List, ◌==◌, Panic, ok, panic, check, is_some, mul64}
use prometheos.Base.Exec.{done, fail, ◌>>=◌, ◌>>◌, pure, raise, lift, attempt}
use prometheos.Pmm.{Pmm, FreeBlock, frame_size, free_frames_count}
use prometheos.Pmm.Static.{install}
use prometheos.Vmm.Paging.{Paging}
use prometheos.Vmm.Machine.{Kernel}
use prometheos.Vmm.Clone.{VmmError, take_ownership}
use prometheos.Memory.Regions.{Entry}
use prometheos.Memory.Frames.{set_up_frames}

-- `HeapError` has no values, so that there is no error of the heap. `cut` is `add_range` without fuel.
pub data MmError : Type 0 where
  vmm_error : VmmError → MmError
  cut : MmError

abbrev pub Setup : Type 0 → Type 0
Setup = Kernel MmError

unfoldable pub install_frames : Pmm → Setup (Unit {0})
unfolding install
install_frames pmm m = elim (install m.pmm pmm) [
  | ok installed ↦ ok (done tt, record m { pmm = installed })
  | panic why ↦ panic why
]

-- `Singleton::install` on `VMM`
unfoldable pub install_vmm : (top_level : ℕ) → Setup (Unit {0})
install_vmm top_level = do
  installed ← λ m. pure (is_some m.vmm) m
  lift (check (not installed) Panic.already_installed)
  λ m. pure tt (record m { vmm = some top_level })

unfoldable pub heap_init : Setup (Unit {0})
heap_init = do hhdm ← λ m. pure m.hhdm m; lift (check (not (hhdm == 0)) Panic.debug_assertion)

unfoldable pub init :
    Paging → List Entry → (hhdm_offset : ℕ) → (bytes : ℕ → ℕ) → (ℕ → FreeBlock) → Setup (Unit {0})
unfolding set_up_frames install_frames take_ownership install_vmm heap_init free_frames_count
init x entries hhdm_offset bytes memory = do
  frames ← lift (set_up_frames entries hhdm_offset bytes memory)
  elim frames [
    | none ↦ raise cut
    | some pmm ↦ (do
      install_frames pmm
      _ ← lift (mul64 (free_frames_count pmm) frame_size)
      owned ← attempt (take_ownership x hhdm_offset)
      elim owned [
        | fail e ↦ raise (vmm_error e)
        | done top_level ↦ (do
          λ m. pure tt (record m { hhdm = hhdm_offset })
          install_vmm top_level
          heap_init)
      ])
  ]
