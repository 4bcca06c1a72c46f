-- ===== src/Vmm/UnmapExamples.antt =====
-- The theorems about `unmap` of kernel/src/mm/vmm.rs on a machine of sixteen frames.
use prometheos.Base.{
  ℕ, ◌+◌, ◌*◌, ◌<◌, ◌≡◌, ◌≢◌, refl, arith, Bool, true, false, some, none, ◌⊎◌, [], ◌==◌, ◌&&◌,
  add64, if◌then◌else◌, ok,
}
use prometheos.Base.Exec.{done}
use prometheos.Pmm.{Pmm, frame_size}
use prometheos.Pmm.Valid.{IsValid}
use prometheos.Pmm.Step.{is_free}
use prometheos.Pmm.Examples.{base, empty, empty-IsValid}
use prometheos.Vmm.Paging.{Level, pml4, pdpt, pd, pt, PageSize}
use prometheos.Vmm.Machine.{Machine, is_canonical}
use prometheos.Vmm.Unmap.{UnmapError, unmap}
use prometheos.Vmm.Translate.{translate}
use prometheos.Vmm.Tables.{IsTables, depth, next}
use prometheos.Vmm.Reclaimed.{Settled, Flushed}
use prometheos.Base.Bits.{bit_and-low}
use prometheos.Vmm.Linked.{IsBits}
use prometheos.Vmm.Others.{translate-unmap}
use prometheos.Vmm.Unmapping.{on_walk}
use prometheos.Vmm.Unmapped.{unmap_lem}
use prometheos.Vmm.Examples.{paging, paging-IsPaging}

-- Frames 0 to 3 hold the tables on the way to address 0, which is mapped to frame 5.
abbrev mapped_machine : Machine
mapped_machine = record {
  pmm = some empty;
  vmm = some 0;
  hhdm = base;
  table = λ a i.
      if i == 0
      then if a == 0
        then 4096 + 7
        else if a == 4096
        then 8192 + 7
        else if a == 8192
        then 12288 + 7
        else if a == 12288
        then 20480 + 3
        else 0
      else 0;
  cr3 = 0;
  flushes = [];
}

abbrev tables_of_zero : Level → ℕ → Bool
tables_of_zero l a = a == depth l * 4096

mapped_machine-IsTables : IsTables paging tables_of_zero empty mapped_machine
mapped_machine-IsTables = record {
  installed = refl;
  valid = empty-IsValid;
  physical = omega arith;
  reachable = omega arith;
  in_use = λ l a h. (depth l, ground arith, (depth_unused l).0, (depth_unused l).1);
  apart = λ l l' a h h'. ground arith;
  below = leads;
}
  where
    depth_unused : (l : Level) → (depth l < empty.total_frames) × (is_free empty (depth l) ≡ false)
    depth_unused pml4 = (omega arith, refl)
    depth_unused pdpt = (omega arith, refl)
    depth_unused pd = (omega arith, refl)
    depth_unused pt = (omega arith, refl)

    -- A present entry of a table is the first one.
    leads :
        (l : Level) (a i : ℕ)
        → depth l < 3
        → tables_of_zero l a ≡ true
        → paging.is_present l (mapped_machine.table a i) ≡ true
        → paging.is_page l (mapped_machine.table a i) ≡ false
        → tables_of_zero (next l) (paging.address l (mapped_machine.table a i)) ≡ true
    leads pml4 a i inner h present no_page = ground arith
    leads pdpt a i inner h present no_page = ground arith
    leads pd a i inner h present no_page = ground arith
    leads pt a i inner h present no_page = absurd (omega arith)

unmap_lem_example :
    (s : Machine) × (q : Pmm) × (unmap paging 0 0 PageSize.base mapped_machine ≡ ok (done tt, s))
    × (translate {E = UnmapError} paging 0 0 s ≡ ok (done none, s))
    × (s.pmm ≡ some q)
    × IsValid q
    × ((j : ℕ) → is_free empty j ≡ true → is_free q j ≡ true)
    × ((j : ℕ)
        → is_free empty j ≡ false
        → j * frame_size ≢ 12288
        → j * frame_size ≢ 8192
        → j * frame_size ≢ 4096
        → is_free q j ≡ false)
    × ((a i : ℕ)
        → (s.table a i ≡ mapped_machine.table a i)
          ⊎ ((s.table a i ≡ 0) × (on_walk paging 0 0 4096 8192 12288 a i ≡ true)))
    × Settled paging mapped_machine q s 8192 0 12288
    × Settled paging mapped_machine q s 4096 0 8192
    × Settled paging mapped_machine q s 0 0 4096
    × Flushed 0 mapped_machine s
unmap_lem_example =
    unmap_lem UnmapError paging paging-IsPaging tables_of_zero empty mapped_machine
      mapped_machine-IsTables 0 0 4096 8192 12288 refl
      (record {
        present4 = refl;
        address4 = refl;
        present3 = refl;
        table3 = refl;
        address3 = refl;
        present2 = refl;
        table2 = refl;
        address2 = refl;
        present1 = refl;
      })
      (unfold is_canonical in refl) refl

paging-IsBits : IsBits paging
paging-IsBits = record {
  low_bit = λ l e. let low = bit_and-low 1 e in rw low (ground arith);
  in_table = λ l virt. omega arith;
}

-- Address 4096 is mapped too, to frame 6.
abbrev two_pages : Machine
two_pages = record mapped_machine {
  table = λ a i. if a == 12288 && i == 1 then 24576 + 3 else mapped_machine.table a i;
}

two_pages-IsTables : IsTables paging tables_of_zero empty two_pages
two_pages-IsTables = record {
  installed = refl;
  valid = empty-IsValid;
  physical = omega arith;
  reachable = omega arith;
  in_use = mapped_machine-IsTables.in_use;
  apart = mapped_machine-IsTables.apart;
  below = leads;
}
  where
    leads :
        (l : Level) (a i : ℕ)
        → depth l < 3
        → tables_of_zero l a ≡ true
        → paging.is_present l (two_pages.table a i) ≡ true
        → paging.is_page l (two_pages.table a i) ≡ false
        → tables_of_zero (next l) (paging.address l (two_pages.table a i)) ≡ true
    leads pml4 a i inner h present no_page = ground arith
    leads pdpt a i inner h present no_page = ground arith
    leads pd a i inner h present no_page = ground arith
    leads pt a i inner h present no_page = absurd (omega arith)

translate-unmap_example :
    (s : Machine) × (unmap paging 0 0 PageSize.base two_pages ≡ ok (done tt, s))
    × (translate {E = UnmapError} paging 0 4096 s ≡ ok (done (some (24576, 3)), s))
unfolding translate is_canonical add64
translate-unmap_example =
    translate-unmap UnmapError paging paging-IsPaging paging-IsBits tables_of_zero empty two_pages
      two_pages-IsTables 0 0 4096 8192 12288 refl
      (record {
        present4 = refl;
        address4 = refl;
        present3 = refl;
        table3 = refl;
        address3 = refl;
        present2 = refl;
        table2 = refl;
        address2 = refl;
        present1 = refl;
      })
      refl refl 4096 4096 8192 12288
      (record {
        present4 = refl;
        address4 = refl;
        present3 = refl;
        table3 = refl;
        address3 = refl;
        present2 = refl;
        table2 = refl;
        address2 = refl;
        present1 = refl;
      })
      refl refl (some (24576, 3)) refl
