-- ===== src/Vmm/Unmap.antt =====
-- `Vmm::unmap` of kernel/src/mm/vmm.rs, which gives back the tables that it leaves empty.
use prometheos.Base.{ℕ, zero, suc, ◌+◌, ◌%◌, bit_and, Bool, true, not, ◌&&◌, ◌==◌, if◌then◌else◌}
use prometheos.Base.Exec.{◌>>=◌, ◌>>◌, pure, require, when}
use prometheos.Vmm.Paging.{Paging, Level, pml4, pdpt, pd, pt, PageSize, large, huge, bytes}
use prometheos.Vmm.Machine.{
  Kernel, page, all, table_mut, hhdm_offset, load, store, free_frame, flush, is_canonical,
}

pub data UnmapError : Type 0 where
  not_mapped non_canonical misaligned : UnmapError

abbrev pub Unmapping : Type 0 → Type 0
Unmapping = Kernel UnmapError

module _ (x : Paging) where
  -- Whether the lowest bit of the `left` entries from an index on is 0.
  unfoldable pub all_absent : (left : ℕ) → (entries : ℕ → ℕ) → (index : ℕ) → Bool
  all_absent zero entries index = true
  all_absent (suc left) entries index =
      bit_and (entries index) 1 == 0 && all_absent left entries (index + 1)

  unfoldable pub is_empty : (phys hhdm : ℕ) → Unmapping Bool
  unfolding table_mut all_absent
  is_empty phys hhdm = do
    table ← table_mut phys hhdm
    λ m. pure (all_absent x.page_size_entries (m.table table) 0) m

  -- A table that is empty leaves its parent's entry, and its frame is given back.
  unfoldable pub reclaim_pdpt : (parent index phys hhdm : ℕ) → Unmapping (Unit {0})
  unfolding is_empty
  reclaim_pdpt parent index phys hhdm = do
    empty ← is_empty phys hhdm
    when empty (do store parent index 0; free_frame phys; flush all)

  -- `reclaim_pt` and `reclaim_pd`, by the level of the parent: the same, unless its entry is a page.
  unfoldable pub reclaim : Level → (parent index phys hhdm : ℕ) → Unmapping (Unit {0})
  unfolding reclaim_pdpt
  reclaim level parent index phys hhdm = do
    entry ← load parent index
    if x.is_page level entry then pure tt else reclaim_pdpt parent index phys hhdm

  -- A page leaves its entry.
  unfoldable pub take_page : (mapped : Bool) → (table index virt : ℕ) → Unmapping (Unit {0})
  take_page mapped table index virt = do
    require mapped not_mapped
    store table index 0
    flush (page virt)

  -- The table below an entry, which is no page.
  unfoldable pub child : Level → (table index : ℕ) → Unmapping ℕ
  child level table index = do
    entry ← load table index
    require (x.is_present level entry && not (x.is_page level entry)) not_mapped
    pure (x.address level entry)

  -- The part of `unmap` from the page table on.
  unfoldable pub unmap_pt : (virt pt_phys : ℕ) → Unmapping (Unit {0})
  unfolding table_mut take_page
  unmap_pt virt pt_phys = do
    hhdm ← hhdm_offset
    table ← table_mut pt_phys hhdm
    entry ← load table (x.index pt virt)
    take_page (x.is_present pt entry) table (x.index pt virt) virt

  unfoldable pub unmap_pd : (virt : ℕ) → PageSize → (pd_phys : ℕ) → Unmapping (Unit {0})
  unfolding table_mut take_page child unmap_pt reclaim
  unmap_pd virt size pd_phys = do
    hhdm ← hhdm_offset
    table ← table_mut pd_phys hhdm
    let index = x.index pd virt
    elim size [
      | large ↦ (do
        entry ← load table index
        take_page (x.is_present pd entry && x.is_page pd entry) table index virt)
      | _ ↦ (do
        pt_phys ← child pd table index
        unmap_pt virt pt_phys
        reclaim pd table index pt_phys hhdm)
    ]

  unfoldable pub unmap_pdpt : (virt : ℕ) → PageSize → (pdpt_phys : ℕ) → Unmapping (Unit {0})
  unfolding table_mut take_page child unmap_pd reclaim
  unmap_pdpt virt size pdpt_phys = do
    hhdm ← hhdm_offset
    table ← table_mut pdpt_phys hhdm
    let index = x.index pdpt virt
    elim size [
      | huge ↦ (do
        entry ← load table index
        take_page (x.is_present pdpt entry && x.is_page pdpt entry) table index virt)
      | smaller ↦ (do
        pd_phys ← child pdpt table index
        unmap_pd virt smaller pd_phys
        reclaim pdpt table index pd_phys hhdm)
    ]

  unfoldable pub unmap : (top_level virt : ℕ) → PageSize → Unmapping (Unit {0})
  unfolding is_canonical bytes table_mut unmap_pdpt reclaim_pdpt
  unmap top_level virt size = do
    require (is_canonical virt) non_canonical
    require (virt % bytes x size == 0) misaligned
    hhdm ← hhdm_offset
    table ← table_mut top_level hhdm
    let index = x.index pml4 virt
    entry ← load table index
    require (x.is_present pml4 entry) not_mapped
    let pdpt_phys = x.address pml4 entry
    unmap_pdpt virt size pdpt_phys
    reclaim_pdpt table index pdpt_phys hhdm
