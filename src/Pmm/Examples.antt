-- ===== src/Pmm/Examples.antt =====
-- The theorems about kernel/src/mm/pmm.rs on a machine of sixteen frames, and runs of the code.
use prometheos.Base.{
  ℕ, ◌+◌, ◌*◌, ◌<◌, List, ◌≡◌, refl, ◌^◌, ltb, if◌then◌else◌, inr, subst, sym, true, false, Option,
  none, some, [], ◌∷◌, arith, Result, ok, panic, Panic, replicate, get_or-replicate, ap, add64,
  sub64, read, write,
}
use prometheos.Base.Words.{trailing_zeros, leading_zeros}
use prometheos.Pmm.{
  Pmm, FreeBlock, new, add_range, alloc_pages, free_pages, order_none, frame_index, frame_to_block,
  block_to_frame, fill_order, set_block_order, all_unused, assert_block_unused, set_prev, set_next,
  set_prev?, list_push, unlink_next, list_remove, split, take_block, alloc_from, coalesce,
  range_order, add_range_from,
}
use prometheos.Pmm.Valid.{IsValid}
use prometheos.Pmm.Step.{is_free}
use prometheos.Pmm.Init.{fresh, new-IsValid}
use prometheos.Pmm.Range.{IsNew, IsAdded, add_range-adds}
use prometheos.Pmm.Alloc.{AllocPost, alloc_pages_lem}
use prometheos.Pmm.Static.{Region, reclaim_bootloader}
use prometheos.Pmm.Reclaim.{
  IsRegions, IsReclaimed, is_reclaimable, reclaimable_count, reclaim_bootloader_lem,
}
use prometheos.Pmm.Push.{IsUnused}
use prometheos.Pmm.Free.{IsFreed, free_pages-frees}
use prometheos.Pmm.Errors.{free_pages-free_frame, free_pages-misplaced, free_pages-alloc_pages}

abbrev pub blank : ℕ → FreeBlock
blank _ = record { prev = none; next = none }

abbrev pub base : ℕ
base = 0x1000000

abbrev pub empty : Pmm
empty = fresh 16 base blank

new-IsValid_example :
    (p : Pmm) × (new (replicate 16 7) 16 base blank ≡ ok p)
    × IsValid p
    × ((j : ℕ) → is_free p j ≡ false)
    × (p.free_frames ≡ 0)
new-IsValid_example = new-IsValid 16 base blank (omega arith) (replicate 16 7) refl

abbrev pub stopped : Pmm → Result (Option Pmm) → Pmm
stopped p (ok (some q)) = q
stopped p (ok none) = p
stopped p (panic e) = p

-- All that a run of the allocator computes with.
abbrev run : {A : Type 0} → A → A
unfolding add64 sub64 read write frame_index new frame_to_block block_to_frame fill_order
    set_block_order all_unused assert_block_unused set_prev set_next set_prev? list_push unlink_next
    list_remove split take_block alloc_from alloc_pages coalesce free_pages range_order
    add_range_from add_range trailing_zeros leading_zeros
run a = a

-- Frames 1 to 15 are added, as the kernel leaves out frame 0.
abbrev pub booted : Pmm
booted = stopped empty (add_range empty 1 15)

pub empty-IsValid : IsValid empty
unfolding new
empty-IsValid =
    let (p, e, v, _, _) = new-IsValid 16 base blank (omega arith) (replicate 16 7) refl in
    let same : p ≡ empty = cc in subst IsValid same v

empty-IsNew : IsNew empty 1 15
empty-IsNew = record {
  fits = omega arith;
  unused = λ j inside. ground (arith, get_or-replicate {A = ℕ} 16 j order_none);
}

add_range-adds_example : (q : Pmm) × (add_range empty 1 15 ≡ ok (some q)) × IsAdded empty q 1 15
add_range-adds_example = add_range-adds empty 1 15 empty-IsValid empty-IsNew

pub booted-IsValid : IsValid booted
unfolding run
booted-IsValid =
    let (q, e, a) = add_range-adds empty 1 15 empty-IsValid empty-IsNew in
    let same : q ≡ booted = sym (ap (stopped empty) e) in subst IsValid same a.valid

booted_orders :
    booted.frame_order ≡ 255 ∷ 0 ∷ 1 ∷ 1 ∷ 2 ∷ 2 ∷ 2 ∷ 2 ∷ 3 ∷ 3 ∷ 3 ∷ 3 ∷ 3 ∷ 3 ∷ 3 ∷ 3 ∷ []
unfolding run
booted_orders = refl

pub booted_total : booted.total_frames ≡ 16
unfolding run
booted_total = refl

pub booted_free : (is_free booted 0 ≡ false) × (is_free booted 3 ≡ true)
unfolding run
booted_free = (refl, refl)

alloc_pages_lem_example :
    (r : Option ℕ × Pmm) × (alloc_pages booted 1 ≡ ok r) × AllocPost booted 1 r.0 r.1
alloc_pages_lem_example = alloc_pages_lem booted 1 booted-IsValid (omega arith)

-- The state after one allocation of order 0, which hands out frame 1.
abbrev taken : Pmm
taken = elim (alloc_pages booted 0) [ ok r ↦ r.1 | panic e ↦ booted ]

taken_address : alloc_pages booted 0 ≡ ok (some 0x1000, taken)
unfolding run
taken_address = refl

free_pages-alloc_pages_example :
    (r : Pmm) × (free_pages taken 0x1000 0 ≡ ok r)
    × IsValid r
    × ((j : ℕ) → is_free r j ≡ is_free booted j)
    × (r.free_frames ≡ booted.free_frames)
free_pages-alloc_pages_example =
    free_pages-alloc_pages booted taken 0 0x1000 booted-IsValid (omega arith) taken_address

free_pages-free_frame_example :
    free_pages booted (2 * 4096) 1
    ≡ panic (if is_free booted 2 then Panic.double_free else Panic.overlap)
free_pages-free_frame_example =
    free_pages-free_frame booted 2 1 3 booted-IsValid (omega arith) refl
      (omega (arith, booted_total)) refl booted_free.1

free_pages-misplaced_example :
    free_pages booted (3 * 4096) 1
    ≡ panic (
        if ltb booted.total_frames (3 + 2 ^ 1)
        then Panic.free_out_of_range
        else Panic.misaligned_block)
free_pages-misplaced_example =
    free_pages-misplaced booted 3 1 booted-IsValid (omega arith) (omega (arith, booted_total))
      (inr (λ e. cc))

frame_zero-IsUnused : IsUnused booted 0 0
frame_zero-IsUnused = record {
  order_in = omega arith;
  aligned = refl;
  fits = omega (arith, booted_total);
  unused = λ j lo hi. let first : j ≡ 0 = omega arith in rw first (ground (arith, booted_free.0));
}

free_pages-frees_example :
    (q : Pmm) × (free_pages booted (0 * 4096) 0 ≡ ok q) × IsFreed booted q 0 0
free_pages-frees_example = free_pages-frees booted booted-IsValid 0 0 frame_zero-IsUnused

-- Two regions of the bootloader's, with one of another type between them.
abbrev regions : List Region
regions =
    record { base = 0x2000; length = 0x3000; reclaimable = true }
    ∷ record { base = 0x5000; length = 0x1000; reclaimable = false }
    ∷ record { base = 0x8000; length = 0x8000; reclaimable = true }
    ∷ []

regions-IsRegions : IsRegions regions 16
unfolding is_reclaimable
regions-IsRegions = (
  λ e. omega arith,
  λ j h. ground (arith, h),
  (λ e. cc, λ j h. cc, (λ e. omega arith, λ j h. refl, tt)),
)

few : reclaimable_count regions * 4096 < 2 ^ 64
unfolding reclaimable_count
few = omega arith

frame_zero-kept : is_reclaimable regions 0 ≡ false
unfolding is_reclaimable
frame_zero-kept = refl

unused : (j : ℕ) → is_reclaimable regions j ≡ true → is_free empty j ≡ false
unused j inside = ground (arith, get_or-replicate {A = ℕ} 16 j order_none)

reclaim_bootloader_lem_example :
    (q : Pmm) × (reclaim_bootloader (some empty) regions ≡ ok (some (some q)))
    × IsReclaimed empty q regions
    × (is_free q 0 ≡ is_free empty 0)
reclaim_bootloader_lem_example =
    reclaim_bootloader_lem empty regions empty-IsValid regions-IsRegions frame_zero-kept few unused
