-- ===== src/Acpi/Ranges.antt =====
-- `uacpi_kernel_map` and `uacpi_kernel_unmap` of kernel/src/acpi/uacpi.rs.
use prometheos.Base.{ℕ, zero, suc, bit_or, Bool, true, false, Option, none, some, ltb, add64}
use prometheos.Base.Exec.{Outcome, done, fail, ◌>>=◌, pure, raise, lift, attempt}
use prometheos.Vmm.Paging.{Paging, base}
use prometheos.Vmm.Machine.{Kernel, hhdm_offset}
use prometheos.Vmm.Map.{MapError, already_mapped}
use prometheos.Vmm.Range.{map_static, unmap_static}
use prometheos.Memory.Align.{align_up, align_down}

-- The loops have fuel.
pub data Cut : Type 0 where
  no_fuel : Cut

-- The pointer that `uacpi_kernel_map` returns, where `none` is the null pointer.
abbrev pub pointer_after : (addr hhdm : ℕ) → (mapped : Bool) → Kernel Cut (Option ℕ)
pointer_after addr hhdm false = pure none
pointer_after addr hhdm true = do virt ← lift (add64 addr hhdm); pure (some virt)

module _ (x : Paging) where
  abbrev pub range_flags : ℕ
  range_flags = bit_or (bit_or (bit_or (bit_or x.p x.writable) x.xd) x.pcd) x.pwt

  -- Whether the loop of `uacpi_kernel_map` goes on after `map`.
  abbrev pub goes_on : Outcome MapError (Unit {0}) → Bool
  goes_on (done _) = true
  goes_on (fail already_mapped) = true
  goes_on (fail _) = false

  -- One turn of that loop.
  unfoldable pub map_page : (phys hhdm : ℕ) → Kernel Cut Bool
  unfolding map_static
  map_page phys hhdm = do
    virt ← lift (add64 phys hhdm)
    mapped ← attempt (map_static x virt phys range_flags base)
    pure (goes_on mapped)

  -- The loop; `false` is the return of the null pointer.
  unfoldable pub map_from : (fuel : ℕ) → (phys end hhdm : ℕ) → Kernel Cut Bool
  unfolding map_page
  map_from zero phys end hhdm = raise no_fuel
  map_from (suc fuel) phys end hhdm = elim (ltb phys end) [
    | false ↦ pure true
    | true ↦ (do
      more ← map_page phys hhdm
      elim more [
        | false ↦ pure false
        | true ↦ (do next ← lift (add64 phys 4096); map_from fuel next end hhdm)
      ])
  ]

  unfoldable pub kernel_map : (fuel : ℕ) → (addr len : ℕ) → Kernel Cut (Option ℕ)
  unfolding map_from align_down align_up
  kernel_map fuel addr len = do
    hhdm ← hhdm_offset
    phys ← lift (align_down addr 4096)
    last ← lift (add64 addr len)
    end ← lift (align_up last 4096)
    mapped ← map_from fuel phys end hhdm
    pointer_after addr hhdm mapped

  -- The loop of `uacpi_kernel_unmap`, which prints an error and goes on.
  unfoldable pub unmap_from : (fuel : ℕ) → (virt end : ℕ) → Kernel Cut (Unit {0})
  unfolding unmap_static
  unmap_from zero virt end = raise no_fuel
  unmap_from (suc fuel) virt end = elim (ltb virt end) [
    | false ↦ pure tt
    | true ↦ (do
      _ ← attempt (unmap_static x virt base)
      next ← lift (add64 virt 4096)
      unmap_from fuel next end)
  ]

  unfoldable pub kernel_unmap : (fuel : ℕ) → (addr len : ℕ) → Kernel Cut (Unit {0})
  unfolding unmap_from align_down align_up
  kernel_unmap fuel addr len = do
    virt ← lift (align_down addr 4096)
    last ← lift (add64 addr len)
    end ← lift (align_up last 4096)
    unmap_from fuel virt end
