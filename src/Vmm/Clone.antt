-- ===== src/Vmm/Clone.antt =====
-- `take_ownership` of kernel/src/mm/vmm.rs, which copies the page tables that the bootloader left.
use prometheos.Base.{
  ℕ, zero, suc, ◌+◌, ◌-◌, ◌^◌, bit_and, bit_or, Bool, true, false, not, ◌&&◌, ◌||◌, Option, none,
  some, ◌==◌, leb, if◌then◌else◌, u64_size,
}
use prometheos.Base.Exec.{◌>>=◌, ◌>>◌, pure, raise}
use prometheos.Vmm.Paging.{Paging}
use prometheos.Vmm.Machine.{Kernel, table_mut, load, store, alloc_frame, free_frame, zero_frame}

abbrev pub entry_addr_mask : ℕ
entry_addr_mask = 0x000F_FFFF_FFFF_F000

-- `entry & !ENTRY_ADDR_MASK`
abbrev pub entry_flags : ℕ → ℕ
entry_flags entry = bit_and entry (u64_size - 1 - entry_addr_mask)

unfoldable pub is_leaf : (level entry : ℕ) → Bool
is_leaf level entry = level == 0 || leb level 2 && not (bit_and entry (2 ^ 7) == 0)

module _ {E : Type 0} where
  -- The loop of `free_cloned_table`; `free_child` is the call for the level below.
  unfoldable pub free_entries :
      (left level table : ℕ)
      → (free_child : ℕ → Kernel E (Unit {0})) → (i : ℕ) → Kernel E (Unit {0})
  unfolding is_leaf
  free_entries zero level table free_child i = pure tt
  free_entries (suc left) level table free_child i = do
    entry ← load table i
    if bit_and entry 1 == 0 || is_leaf level entry
        then pure tt
        else free_child (bit_and entry entry_addr_mask)
    free_entries left level table free_child (i + 1)

  -- A table of level 0 has leaves only, so nothing is called for it.
  unfoldable pub free_cloned_table : (level : ℕ) → Paging → (phys hhdm : ℕ) → Kernel E (Unit {0})
  unfolding free_entries table_mut
  free_cloned_table zero x phys hhdm = do
    table ← table_mut phys hhdm
    free_entries x.page_size_entries 0 table (λ _. pure tt) 0
    free_frame phys
  free_cloned_table (suc level) x phys hhdm = do
    table ← table_mut phys hhdm
    free_entries x.page_size_entries (suc level) table
        (λ child_phys. free_cloned_table level x child_phys hhdm) 0
    free_frame phys

  -- The loop of `clone_table`; `clone_child` is the call for the level below, and `give_back` frees
  -- what has been copied. `false` is a child that could not be copied.
  unfoldable pub clone_entries :
      (left level src dst : ℕ)
      → (clone_child : ℕ → Kernel E (Option ℕ)) → (give_back : Kernel E (Unit {0})) → (i : ℕ)
      → Kernel E Bool
  unfolding is_leaf
  clone_entries zero level src dst clone_child give_back i = pure true
  clone_entries (suc left) level src dst clone_child give_back i = do
    entry ← load src i
    elim (bit_and entry 1 == 0) [
      | true ↦ clone_entries left level src dst clone_child give_back (i + 1)
      | false ↦ elim (is_leaf level entry) [
        | true ↦ (do
          store dst i entry
          clone_entries left level src dst clone_child give_back (i + 1))
        | false ↦ (do
          new_child ← clone_child (bit_and entry entry_addr_mask)
          elim new_child [
            | none ↦ (do give_back; pure false)
            | some c ↦ (do
              store dst i (bit_or (bit_and c entry_addr_mask) (entry_flags entry))
              clone_entries left level src dst clone_child give_back (i + 1))
          ])
      ]
    ]

  -- The body of `clone_table`.
  unfoldable pub clone_into :
      (level : ℕ)
      → Paging
      → (src_phys hhdm : ℕ) → (clone_child : ℕ → Kernel E (Option ℕ)) → Kernel E (Option ℕ)
  unfolding clone_entries table_mut zero_frame free_cloned_table
  clone_into level x src_phys hhdm clone_child = do
    frame ← alloc_frame
    elim frame [
      | none ↦ pure none
      | some dst_frame ↦ (do
        zero_frame dst_frame hhdm
        src ← table_mut src_phys hhdm
        dst ← table_mut dst_frame hhdm
        copied ←
            clone_entries x.page_size_entries level src dst clone_child
              (free_cloned_table level x dst_frame hhdm) 0
        if copied then pure (some dst_frame) else pure none)
    ]

  unfoldable pub clone_table : (level : ℕ) → Paging → (src_phys hhdm : ℕ) → Kernel E (Option ℕ)
  unfolding clone_into
  clone_table zero x src_phys hhdm = clone_into 0 x src_phys hhdm (λ _. pure none)
  clone_table (suc level) x src_phys hhdm =
      clone_into (suc level) x src_phys hhdm (λ child_phys. clone_table level x child_phys hhdm)

pub data VmmError : Type 0 where
  out_of_frames : VmmError

abbrev pub write_cr3 : ℕ → Kernel VmmError (Unit {0})
write_cr3 cr3 m = pure tt (record m { cr3 = cr3 })

unfoldable pub take_ownership : Paging → (hhdm : ℕ) → Kernel VmmError ℕ
unfolding clone_table
take_ownership x hhdm = do
  old_cr3 ← λ m. pure m.cr3 m
  cloned ← clone_table 3 x (bit_and old_cr3 entry_addr_mask) hhdm
  elim cloned [
    | none ↦ raise out_of_frames
    | some new_pml4 ↦ (do
      write_cr3 (bit_or (bit_and new_pml4 entry_addr_mask) (entry_flags old_cr3))
      pure new_pml4)
  ]
