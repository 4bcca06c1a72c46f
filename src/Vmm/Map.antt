-- ===== src/Vmm/Map.antt =====
-- `Vmm::map` of kernel/src/mm/vmm.rs: the walk down, the tables it adds, and what it takes back when
-- the frames run out.
use prometheos.Base.{
  ℕ, ◌%◌, bit_and, bit_or, Bool, true, false, not, ◌&&◌, none, some, ◌==◌, if◌then◌else◌,
}
use prometheos.Base.Exec.{◌>>=◌, ◌>>◌, pure, raise, require, when}
use prometheos.Vmm.Paging.{Paging, Level, pml4, pdpt, pd, pt, PageSize, large, huge, bytes}
use prometheos.Vmm.Machine.{
  Kernel, page, table_mut, hhdm_offset, load, store, alloc_frame, free_frame, flush, zero_frame,
  is_canonical,
}

pub data MapError : Type 0 where
  already_mapped out_of_memory non_canonical misaligned : MapError

abbrev pub Mapping : Type 0 → Type 0
Mapping = Kernel MapError

module _ (x : Paging) where
  -- `pml4_parent`, `pdpt_parent` and `pd_parent`
  unfoldable pub parent : ℕ
  parent = bit_or (bit_or x.p x.writable) x.us

  -- `pdpt_leaf` and `pd_leaf`
  unfoldable pub leaf : Level → ℕ → ℕ
  leaf level flags =
      let kept = bit_or (bit_or (bit_or (bit_or (bit_or x.writable x.us) x.pwt) x.pcd) x.g) x.xd in
      bit_or (bit_or (x.truncate level (bit_and flags kept)) x.p) x.ps

  -- A table in a new frame, for the entry of a table, and the frame.
  unfoldable pub add_table : Level → (table index frame : ℕ) → Mapping (ℕ × Bool)
  unfolding zero_frame parent
  add_table level table index frame = do
    hhdm ← hhdm_offset
    zero_frame frame hhdm
    store table index (x.new level frame parent)
    pure (frame, true)

  -- The table below an entry, and whether it was added; `undo` is what is taken back before the
  -- error when there is no frame for it.
  unfoldable pub enter :
      Level → (table index : ℕ) → (undo : Mapping (Unit {0})) → Mapping (ℕ × Bool)
  unfolding add_table
  enter level table index undo = do
    entry ← load table index
    if x.is_present level entry then pure (x.address level entry, false) else do
      frame ← alloc_frame
      elim frame [ some f ↦ add_table level table index f | none ↦ (do undo; raise out_of_memory) ]

  -- `if added { *slot = Entry(0); pmm::free_frame(phys) }`
  unfoldable pub undo_table : (added : Bool) → (table index phys : ℕ) → Mapping (Unit {0})
  undo_table added table index phys = when added (do store table index 0; free_frame phys)

  -- A page in an entry that must not be present.
  unfoldable pub put_page : Level → (table index entry virt : ℕ) → Mapping (Unit {0})
  put_page level table index entry virt = do
    old ← load table index
    require (not (x.is_present level old)) already_mapped
    store table index entry
    flush (page virt)

  -- `if slot.is_present() && slot.is_page() { return Err(MapError::AlreadyMapped) }`
  unfoldable pub no_page : Level → (table index : ℕ) → Mapping (Unit {0})
  no_page level table index = do
    entry ← load table index
    require (not (x.is_present level entry && x.is_page level entry)) already_mapped

  -- The part of `map` from the page table on.
  unfoldable pub map_pt : (virt phys flags pt_phys : ℕ) → Mapping (Unit {0})
  unfolding table_mut put_page
  map_pt virt phys flags pt_phys = do
    hhdm ← hhdm_offset
    table ← table_mut pt_phys hhdm
    put_page pt table (x.index pt virt) (x.new pt phys (bit_or flags x.p)) virt

  -- From the page directory on; `undo` takes back the PDPT and the page directory.
  unfoldable pub map_pd :
      (virt phys flags : ℕ)
      → PageSize
      → (pd_phys : ℕ) → (undo : Mapping (Unit {0})) → Mapping (Unit {0})
  unfolding table_mut put_page leaf no_page enter map_pt
  map_pd virt phys flags size pd_phys undo = do
    hhdm ← hhdm_offset
    table ← table_mut pd_phys hhdm
    let index = x.index pd virt
    elim size [
      | large ↦ put_page pd table index (x.new pd phys (leaf pd flags)) virt
      | _ ↦ (do
        no_page pd table index
        (pt_phys, _) ← enter pd table index undo
        map_pt virt phys flags pt_phys)
    ]

  -- From the PDPT on; `undo` takes the PDPT back.
  unfoldable pub map_pdpt :
      (virt phys flags : ℕ)
      → PageSize
      → (pdpt_phys : ℕ) → (undo : Mapping (Unit {0})) → Mapping (Unit {0})
  unfolding table_mut put_page leaf no_page enter undo_table map_pd
  map_pdpt virt phys flags size pdpt_phys undo = do
    hhdm ← hhdm_offset
    table ← table_mut pdpt_phys hhdm
    let index = x.index pdpt virt
    elim size [
      | huge ↦ put_page pdpt table index (x.new pdpt phys (leaf pdpt flags)) virt
      | smaller ↦ (do
        no_page pdpt table index
        (pd_phys, new_pd) ← enter pdpt table index undo
        map_pd virt phys flags smaller pd_phys (do undo_table new_pd table index pd_phys; undo))
    ]

  -- `map` in the tables below `top_level`.
  unfoldable pub map : (top_level virt phys flags : ℕ) → PageSize → Mapping (Unit {0})
  unfolding is_canonical bytes table_mut enter undo_table map_pdpt
  map top_level virt phys flags size = do
    require (is_canonical virt) non_canonical
    require (virt % bytes x size == 0 && phys % bytes x size == 0) misaligned
    hhdm ← hhdm_offset
    table ← table_mut top_level hhdm
    let index = x.index pml4 virt
    (pdpt_phys, new_pdpt) ← enter pml4 table index (pure tt)
    map_pdpt virt phys flags size pdpt_phys (undo_table new_pdpt table index pdpt_phys)
