-- ===== src/Vmm/Range.antt =====
-- The ranges of kernel/src/mm/vmm.rs, and the functions that go through the static `VMM`.
use prometheos.Base.{ℕ, zero, suc, ◌+◌, add64, mul64, Option}
use prometheos.Base.Exec.{done, fail, ◌>>=◌, ◌>>◌, pure, raise, lift, attempt}
use prometheos.Vmm.Paging.{Paging, PageSize, bytes}
use prometheos.Vmm.Machine.{Kernel, with_vmm, hhdm_offset}
use prometheos.Vmm.Translate
use prometheos.Vmm.Map
use prometheos.Vmm.Map.{Mapping}
use prometheos.Vmm.Unmap
use prometheos.Vmm.Unmap.{Unmapping}

module _ (x : Paging) (top_level : ℕ) where
  -- The loop of `map_range` that takes pages back: `left` are left, from page `j` on.
  unfoldable pub unmap_back : (left : ℕ) → (virt : ℕ) → PageSize → (j : ℕ) → Mapping (Unit {0})
  unfolding bytes
  unmap_back zero virt size j = pure tt
  unmap_back (suc left) virt size j = do
    back ← lift (mul64 j (bytes x size))
    page ← lift (add64 virt back)
    _ ← attempt (Unmap.unmap x top_level page size)
    unmap_back left virt size (j + 1)

  -- The loop of `map_range`: `left` pages are left, from page `i` on.
  unfoldable pub map_pages :
      (left : ℕ) → (virt phys flags : ℕ) → PageSize → (i : ℕ) → Mapping (Unit {0})
  unfolding bytes unmap_back
  map_pages zero virt phys flags size i = pure tt
  map_pages (suc left) virt phys flags size i = do
    step ← lift (mul64 i (bytes x size))
    to ← lift (add64 virt step)
    from ← lift (add64 phys step)
    mapped ← attempt (Map.map x top_level to from flags size)
    elim mapped [
      | done _ ↦ map_pages left virt phys flags size (i + 1)
      | fail e ↦ (do unmap_back i virt size 0; raise e)
    ]

  unfoldable pub map_range : (virt phys pages flags : ℕ) → PageSize → Mapping (Unit {0})
  unfolding map_pages
  map_range virt phys pages flags size = map_pages pages virt phys flags size 0

  -- The loop of `unmap_range`.
  unfoldable pub unmap_pages : (left : ℕ) → (virt : ℕ) → PageSize → (i : ℕ) → Unmapping (Unit {0})
  unfolding bytes
  unmap_pages zero virt size i = pure tt
  unmap_pages (suc left) virt size i = do
    step ← lift (mul64 i (bytes x size))
    page ← lift (add64 virt step)
    Unmap.unmap x top_level page size
    unmap_pages left virt size (i + 1)

  unfoldable pub unmap_range : (virt pages : ℕ) → PageSize → Unmapping (Unit {0})
  unfolding unmap_pages
  unmap_range virt pages size = unmap_pages pages virt size 0

-- The functions of the module, on the installed `VMM`.
module _ (x : Paging) where
  unfoldable pub translate_static : {E : Type 0} → (virt : ℕ) → Kernel E (Option (ℕ × ℕ))
  translate_static virt = with_vmm (λ top_level. Translate.translate x top_level virt)

  unfoldable pub map_static : (virt phys flags : ℕ) → PageSize → Mapping (Unit {0})
  map_static virt phys flags size = with_vmm (λ top_level. Map.map x top_level virt phys flags size)

  unfoldable pub map_hhdm : (phys flags : ℕ) → PageSize → Mapping ℕ
  unfolding map_static
  map_hhdm phys flags size = do
    hhdm ← hhdm_offset
    virt ← lift (add64 phys hhdm)
    map_static virt phys flags size
    pure virt

  unfoldable pub unmap_static : (virt : ℕ) → PageSize → Unmapping (Unit {0})
  unmap_static virt size = with_vmm (λ top_level. Unmap.unmap x top_level virt size)

  unfoldable pub map_range_static : (virt phys pages flags : ℕ) → PageSize → Mapping (Unit {0})
  unfolding map_range
  map_range_static virt phys pages flags size =
      with_vmm (λ top_level. map_range x top_level virt phys pages flags size)

  unfoldable pub unmap_range_static : (virt pages : ℕ) → PageSize → Unmapping (Unit {0})
  unfolding unmap_range
  unmap_range_static virt pages size =
      with_vmm (λ top_level. unmap_range x top_level virt pages size)
