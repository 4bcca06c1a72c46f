-- ===== src/Vmm/Translate.antt =====
-- `Vmm::translate` of kernel/src/mm/vmm.rs.
use prometheos.Base.{ℕ, ◌-◌, bit_and, not, Option, none, some, if◌then◌else◌, add64}
use prometheos.Base.Exec.{◌>>=◌, pure, lift}
use prometheos.Vmm.Paging.{Paging, pml4, pdpt, pd, pt}
use prometheos.Vmm.Machine.{Kernel, table_mut, hhdm_offset, load, is_canonical}

module _ {E : Type 0} (x : Paging) where
  -- A page of `size` bytes that an entry maps: the address in it, and the flags.
  unfoldable pub in_page : (virt size base flags : ℕ) → Kernel E (Option (ℕ × ℕ))
  in_page virt size base flags = do
    phys ← lift (add64 base (bit_and virt (size - 1)))
    pure (some (phys, flags))

  unfoldable pub translate_pt : (virt pt_phys : ℕ) → Kernel E (Option (ℕ × ℕ))
  unfolding in_page table_mut
  translate_pt virt pt_phys = do
    hhdm ← hhdm_offset
    table ← table_mut pt_phys hhdm
    pte ← load table (x.index pt virt)
    if not (x.is_present pt pte)
        then pure none
        else in_page virt x.base_page_size (x.address pt pte) (x.flags pte)

  unfoldable pub translate_pd : (virt pd_phys : ℕ) → Kernel E (Option (ℕ × ℕ))
  unfolding in_page table_mut translate_pt
  translate_pd virt pd_phys = do
    hhdm ← hhdm_offset
    table ← table_mut pd_phys hhdm
    pde ← load table (x.index pd virt)
    if not (x.is_present pd pde)
        then pure none
        else if x.is_page pd pde
        then in_page virt x.large_page_size (x.address pd pde) (x.truncate pt pde)
        else translate_pt virt (x.address pd pde)

  unfoldable pub translate_pdpt : (virt pdpt_phys : ℕ) → Kernel E (Option (ℕ × ℕ))
  unfolding in_page table_mut translate_pd
  translate_pdpt virt pdpt_phys = do
    hhdm ← hhdm_offset
    table ← table_mut pdpt_phys hhdm
    pdpte ← load table (x.index pdpt virt)
    if not (x.is_present pdpt pdpte)
        then pure none
        else if x.is_page pdpt pdpte
        then in_page virt x.huge_page_size (x.address pdpt pdpte) (x.truncate pt pdpte)
        else translate_pd virt (x.address pdpt pdpte)

  -- `translate` by a table at `top_level`: the physical address and the flags of the page.
  unfoldable pub translate : (top_level virt : ℕ) → Kernel E (Option (ℕ × ℕ))
  unfolding is_canonical table_mut translate_pdpt
  translate top_level virt = if not (is_canonical virt) then pure none else do
    hhdm ← hhdm_offset
    table ← table_mut top_level hhdm
    pml4e ← load table (x.index pml4 virt)
    if not (x.is_present pml4 pml4e) then pure none else translate_pdpt virt (x.address pml4 pml4e)
