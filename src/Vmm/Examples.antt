-- ===== src/Vmm/Examples.antt =====
-- The theorems about kernel/src/mm/vmm.rs on a machine of sixteen frames.
use prometheos.Base.{
  ℕ, ◌+◌, ◌*◌, ◌/◌, ◌%◌, ◌^◌, ◌<◌, ◌≡◌, refl, arith, Bool, true, false, some, [], ◌==◌,
}
use prometheos.Pmm.{frame_size}
use prometheos.Pmm.Step.{is_free}
use prometheos.Pmm.Examples.{base, booted, booted-IsValid, booted_total, booted_free}
use prometheos.Vmm.Paging.{Paging, Level, pml4, pdpt, pd, pt, PageSize}
use prometheos.Vmm.Machine.{Machine, is_canonical}
use prometheos.Vmm.Map.{MapError, map, parent}
use prometheos.Vmm.Translate.{translate}
use prometheos.Vmm.Tables.{IsPaging, IsPageFlags, IsTables, depth, max_frames}
use prometheos.Vmm.Descend.{Ends, IsMapped}
use prometheos.Vmm.Placed.{target}
use prometheos.Vmm.Mapped.{map_lem}

abbrev pub shift : Level → ℕ
shift pml4 = 2 ^ 39
shift pdpt = 2 ^ 30
shift pd = 2 ^ 21
shift pt = 2 ^ 12

-- Entries of the x86 layout, with flags in the low twelve bits.
abbrev pub paging : Paging
paging = record {
  base_page_size = 4096;
  large_page_size = 2 ^ 21;
  huge_page_size = 2 ^ 30;
  page_size_entries = 512;
  index = λ l virt. virt / shift l % 512;
  is_present = λ l e. e % 2 == 1;
  is_page = λ l e. elim l [ pml4 ↦ false | _ ↦ e / 128 % 2 == 1 ];
  address = λ l e. e / 4096 % 2 ^ 40 * 4096;
  new = λ l addr flags. addr + flags % 4096;
  flags = λ e. e % 4096;
  truncate = λ l flags. flags % 4096;
  p = 1;
  writable = 2;
  us = 4;
  pwt = 8;
  pcd = 16;
  g = 256;
  xd = 2 ^ 63;
  ps = 128;
}

pub paging-IsPaging : IsPaging paging
unfolding parent
paging-IsPaging = record {
  page_size = refl;
  zero_absent = λ l. refl;
  top_table = λ e. refl;
  parent_present = λ l f h. ground arith;
  parent_table = no_page;
  parent_address = λ l f h. omega arith;
}
  where
    no_page :
        (l : Level) (f : ℕ)
        → f < max_frames
        → paging.is_page l (paging.new l (f * 4096) (parent paging)) ≡ false
    no_page pml4 f h = refl
    no_page pdpt f h = ground arith
    no_page pd f h = ground arith
    no_page pt f h = ground arith

writable_flags : IsPageFlags paging 3
writable_flags = record {
  present = λ f h. ground arith;
  address = λ f h. omega arith;
  same = λ f h. omega arith;
}

-- Frame 0 holds an empty PML4, and the other frames are free.
abbrev pub fresh_machine : Machine
fresh_machine = record {
  pmm = some booted;
  vmm = some 0;
  hhdm = base;
  table = λ a i. 0;
  cr3 = 0;
  flushes = [];
}

abbrev root_only : Level → ℕ → Bool
root_only pml4 a = a == 0
root_only _ a = false

fresh_machine-IsTables : IsTables paging root_only booted fresh_machine
fresh_machine-IsTables = record {
  installed = refl;
  valid = booted-IsValid;
  physical = rw booted_total (omega arith);
  reachable = rw booted_total (omega arith);
  in_use = used;
  apart = same_level;
  below = λ l a i inner h present no_page. cc;
}
  where
    used :
        (l : Level) (a : ℕ)
        → root_only l a ≡ true
        → (f : ℕ) × (a ≡ f * frame_size) × (f < booted.total_frames) × (is_free booted f ≡ false)
    used pml4 a h = (0, ground arith, rw booted_total (omega arith), booted_free.0)
    used pdpt a h = cc
    used pd a h = cc
    used pt a h = cc

    same_level :
        (l l' : Level) (a : ℕ) → root_only l a ≡ true → root_only l' a ≡ true → depth l ≡ depth l'
    same_level pml4 pml4 a h h' = refl
    same_level pml4 pdpt a h h' = cc
    same_level pml4 pd a h h' = cc
    same_level pml4 pt a h h' = cc
    same_level pdpt l' a h h' = cc
    same_level pd l' a h h' = cc
    same_level pt l' a h h' = cc

-- The page at 0x40000000 is mapped to frame 9.
map_lem_example :
    Ends paging root_only booted fresh_machine
      (IsMapped {E = MapError} paging root_only fresh_machine pml4
        (translate paging 0 0x4000_0000)
        (target paging 9 3))
      (map paging 0 0x4000_0000 (9 * 4096) 3 PageSize.base fresh_machine)
map_lem_example =
    map_lem MapError paging paging-IsPaging root_only booted fresh_machine fresh_machine-IsTables 0
      refl 0x4000_0000 9 3 (unfold is_canonical in refl) refl (omega arith) writable_flags
