-- ===== src/Pmm/Static.antt =====
-- The functions of kernel/src/mm/pmm.rs on the static `PMM`, which is empty until `install`.
use prometheos.Base.{
  ℕ, ◌/◌, Bool, true, false, Option, none, some, List, [], ◌∷◌, Panic, Result, ok, panic, ◌>>=◌,
  ◌>>◌, check, is_some, not, add64, mul64,
}
use prometheos.Pmm.{Pmm, frame_size, alloc_pages, free_pages, add_range}

unfoldable pub install : Option Pmm → Pmm → Result (Option Pmm)
install pmm p = do check (not (is_some pmm)) Panic.already_installed; ok (some p)

-- `g.as_mut().unwrap()`
abbrev pub unwrap : Option Pmm → Result Pmm
unwrap none = panic Panic.unwrap_none
unwrap (some p) = ok p

unfoldable pub alloc_pages_static : Option Pmm → (order : ℕ) → Result (Option ℕ × Option Pmm)
alloc_pages_static pmm order = do
  p ← unwrap pmm
  (addr, p') ← alloc_pages p order
  ok (addr, some p')

unfoldable pub free_pages_static : Option Pmm → (addr order : ℕ) → Result (Option Pmm)
free_pages_static pmm addr order = do p ← unwrap pmm; p' ← free_pages p addr order; ok (some p')

unfoldable pub alloc_frame : Option Pmm → Result (Option ℕ × Option Pmm)
alloc_frame pmm = do p ← unwrap pmm; (addr, p') ← alloc_pages p 0; ok (addr, some p')

unfoldable pub free_frame : Option Pmm → (addr : ℕ) → Result (Option Pmm)
free_frame pmm addr = do p ← unwrap pmm; p' ← free_pages p addr 0; ok (some p')

unfoldable pub stats : Option Pmm → Result (ℕ × ℕ)
stats pmm = do p ← unwrap pmm; ok (p.free_frames, p.total_frames)

-- An entry of the memory map; `reclaimable` stands for its type.
pub record Region : Type 0 where
  pub base : ℕ
  pub length : ℕ
  pub reclaimable : Bool

-- The loop of `reclaim_bootloader`, with the frames it has given back so far. `none` is `add_range`
-- without fuel.
unfoldable pub reclaim_regions : List Region → Pmm → (reclaimed : ℕ) → Result (Option (Pmm × ℕ))
reclaim_regions [] p reclaimed = ok (some (p, reclaimed))
reclaim_regions (entry ∷ entries) p reclaimed = elim entry.reclaimable [
  | false ↦ reclaim_regions entries p reclaimed
  | true ↦ do
    added ← add_range p (entry.base / frame_size) (entry.length / frame_size)
    elim added [
      | none ↦ ok none
      | some p' ↦ do
        total ← add64 reclaimed (entry.length / frame_size)
        reclaim_regions entries p' total
    ]
]

-- The number of bytes that is printed is computed with an overflow check.
unfoldable pub reclaim_bootloader : Option Pmm → List Region → Result (Option (Option Pmm))
unfolding reclaim_regions
reclaim_bootloader pmm entries = do
  p ← unwrap pmm
  reclaimed ← reclaim_regions entries p 0
  elim reclaimed [
    | none ↦ ok none
    | some (p', total) ↦ do _ ← mul64 total frame_size; ok (some (some p'))
  ]
