-- ===== src/Vmm/Machine.antt =====
-- The state that kernel/src/mm/vmm.rs works on, and its access to tables and frames.
use prometheos.Base.{
  ℕ, ◌/◌, ◌^◌, Bool, ◌&&◌, ◌||◌, Option, none, some, List, ◌∷◌, ◌==◌, if◌then◌else◌, Result, ok,
  panic, Panic, add64,
}
use prometheos.Base.Exec.{Outcome, done, Exec, ◌>>=◌, pure, lift}
use prometheos.Pmm.{Pmm}
use prometheos.Pmm.Static

pub data Flush : Type 0 where
  page : ℕ → Flush
  all : Flush

-- `pmm`, `vmm` and `hhdm` are the statics `PMM`, `VMM` (its `top_level`) and `HHDM_OFFSET`. `table`
-- is the memory of page tables: the entry at an index of the table at a physical address, which the
-- kernel reaches at that address plus the offset. `cr3` is the register, and `flushes` are the calls
-- of the TLB instructions, the last one first.
pub record Machine : Type 0 where
  pub pmm : Option Pmm
  pub vmm : Option ℕ
  pub hhdm : ℕ
  pub table : ℕ → ℕ → ℕ
  pub cr3 : ℕ
  pub flushes : List Flush

abbrev pub Kernel : Type 0 → Type 0 → Type 0
Kernel = Exec Machine

abbrev pub set_entry : (ℕ → ℕ → ℕ) → (phys index entry : ℕ) → ℕ → ℕ → ℕ
set_entry table phys index entry a i = if a == phys && i == index then entry else table a i

abbrev pub clear_table : (ℕ → ℕ → ℕ) → (phys : ℕ) → ℕ → ℕ → ℕ
clear_table table phys a i = if a == phys then 0 else table a i

module _ {E : Type 0} where
  -- `table_mut(phys, hhdm)`: the pointer to the table, which is `phys` in this model.
  unfoldable pub table_mut : (phys hhdm : ℕ) → Kernel E ℕ
  table_mut phys hhdm = do _ ← lift (add64 phys hhdm); pure phys

  -- `HHDM_OFFSET.load(..)`
  abbrev pub hhdm_offset : Kernel E ℕ
  hhdm_offset m = ok (done m.hhdm, m)

  abbrev pub load : (phys index : ℕ) → Kernel E ℕ
  load phys index m = ok (done (m.table phys index), m)

  abbrev pub store : (phys index entry : ℕ) → Kernel E (Unit {0})
  store phys index entry m = ok (done tt, record m { table = set_entry m.table phys index entry })

  unfoldable pub zero_frame : (phys hhdm : ℕ) → Kernel E (Unit {0})
  zero_frame phys hhdm = do
    _ ← lift (add64 phys hhdm)
    λ m. pure tt (record m { table = clear_table m.table phys })

  abbrev pub flush : Flush → Kernel E (Unit {0})
  flush f m = ok (done tt, record m { flushes = f ∷ m.flushes })

  abbrev pub keep_frame :
      Machine → Result (Option ℕ × Option Pmm) → Result (Outcome E (Option ℕ) × Machine)
  keep_frame m (ok (frame, pmm)) = ok (done frame, record m { pmm = pmm })
  keep_frame m (panic why) = panic why

  -- `pmm::alloc_frame` and `pmm::free_frame`
  unfoldable pub alloc_frame : Kernel E (Option ℕ)
  alloc_frame m = keep_frame m (Static.alloc_frame m.pmm)

  abbrev pub keep_pmm : Machine → Result (Option Pmm) → Result (Outcome E (Unit {0}) × Machine)
  keep_pmm m (ok pmm) = ok (done tt, record m { pmm = pmm })
  keep_pmm m (panic why) = panic why

  unfoldable pub free_frame : ℕ → Kernel E (Unit {0})
  free_frame addr m = keep_pmm m (Static.free_frame m.pmm addr)

  -- `VMM.with(f)`
  abbrev pub with_vmm : {A : Type 0} → (ℕ → Kernel E A) → Kernel E A
  with_vmm f m = elim m.vmm [ some top_level ↦ f top_level m | none ↦ panic Panic.not_installed ]

-- Bits 47 to 63 of an address are equal.
unfoldable pub is_canonical : ℕ → Bool
is_canonical virt = let hi = virt / 2 ^ 47 in hi == 0 || hi == 0x1_ffff
