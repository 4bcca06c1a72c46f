-- ===== src/Vmm/Tables.antt =====
-- What the page tables of kernel/src/mm/vmm.rs rest on: the documented behaviour of the x86 crate,
-- and an invariant on the frames that hold tables.
use prometheos.Base.{
  ℕ, ◌+◌, ◌*◌, ◌^◌, ◌≤◌, ◌<◌, ◌≡◌, Bool, true, false, ◌&&◌, ◌||◌, some, ◌==◌, bit_or, u64_size,
}
use prometheos.Pmm.{Pmm, frame_size}
use prometheos.Pmm.Valid.{IsValid}
use prometheos.Pmm.Step.{is_free}
use prometheos.Vmm.Paging.{Paging, Level, pml4, pdpt, pd, pt}
use prometheos.Vmm.Machine.{Machine}
use prometheos.Vmm.Map.{parent}

-- Addresses of an entry have 52 bits.
abbrev pub max_frames : ℕ
max_frames = 2 ^ 40

-- The tables: a zero entry is not present, entries of a PML4 are no pages, and an entry made of a
-- frame's address and the flags of a table is present, is no page, and gives the address back.
pub record IsPaging (x : Paging) : Type 0 where
  pub page_size : x.base_page_size ≡ 4096
  pub zero_absent : (l : Level) → x.is_present l 0 ≡ false
  pub top_table : (e : ℕ) → x.is_page pml4 e ≡ false
  pub parent_present :
      (l : Level) (f : ℕ) → f < max_frames → x.is_present l (x.new l (f * 4096) (parent x)) ≡ true
  pub parent_table :
      (l : Level) (f : ℕ) → f < max_frames → x.is_page l (x.new l (f * 4096) (parent x)) ≡ false
  pub parent_address :
      (l : Level) (f : ℕ) → f < max_frames → x.address l (x.new l (f * 4096) (parent x)) ≡ f * 4096

-- Flags that a page table's entry holds beside an address, with the bit for present.
pub record IsPageFlags (x : Paging) (flags : ℕ) : Type 0 where
  pub present :
      (f : ℕ) → f < max_frames → x.is_present pt (x.new pt (f * 4096) (bit_or flags x.p)) ≡ true
  pub address :
      (f : ℕ) → f < max_frames → x.address pt (x.new pt (f * 4096) (bit_or flags x.p)) ≡ f * 4096
  pub same :
      (f : ℕ) → f < max_frames → x.flags (x.new pt (f * 4096) (bit_or flags x.p)) ≡ bit_or flags x.p

abbrev pub next : Level → Level
next pml4 = pdpt
next pdpt = pd
next pd = pt
next pt = pt

abbrev pub depth : Level → ℕ
depth pml4 = 0
depth pdpt = 1
depth pd = 2
depth pt = 3

-- `tables l a` says that the frame at `a` holds a table of the level. These frames are in use, hold
-- one table each, and the present entries that are no pages lead to tables of the next level.
pub record IsTables (x : Paging) (tables : Level → ℕ → Bool) (p : Pmm) (m : Machine) : Type 0 where
  pub installed : m.pmm ≡ some p
  pub valid : IsValid p
  pub physical : p.total_frames ≤ max_frames
  pub reachable : p.total_frames * frame_size + m.hhdm ≤ u64_size
  pub in_use :
      (l : Level) (a : ℕ)
      → tables l a ≡ true
      → (f : ℕ) × (a ≡ f * frame_size) × (f < p.total_frames) × (is_free p f ≡ false)
  pub apart : (l l' : Level) (a : ℕ) → tables l a ≡ true → tables l' a ≡ true → depth l ≡ depth l'
  pub below :
      (l : Level) (a i : ℕ)
      → depth l < 3
      → tables l a ≡ true
      → x.is_present l (m.table a i) ≡ true
      → x.is_page l (m.table a i) ≡ false
      → tables (next l) (x.address l (m.table a i)) ≡ true

-- One more table.
abbrev pub with_table : (Level → ℕ → Bool) → Level → ℕ → Level → ℕ → Bool
with_table tables l c l' a = tables l' a || (depth l' == depth l && a == c)
