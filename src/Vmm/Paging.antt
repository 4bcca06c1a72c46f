-- ===== src/Vmm/Paging.antt =====
-- What kernel/src/mm/vmm.rs takes from the x86 crate: the layout of addresses and table entries.
use prometheos.Base.{ℕ, Bool}

pub data Level : Type 0 where
  pml4 pdpt pd pt : Level

-- An entry is its 64 bits, and flags are their bits.
pub record Paging : Type 0 where
  pub base_page_size : ℕ
  pub large_page_size : ℕ
  pub huge_page_size : ℕ
  pub page_size_entries : ℕ
  -- `pml4_index(virt)` and the others
  pub index : Level → ℕ → ℕ
  -- `is_present`, `is_page`, `address` and `new` of the entries of a level's tables
  pub is_present : Level → ℕ → Bool
  pub is_page : Level → ℕ → Bool
  pub address : Level → ℕ → ℕ
  pub new : Level → (addr flags : ℕ) → ℕ
  -- `PTEntry::flags`, and `from_bits_truncate` of a level's flags
  pub flags : ℕ → ℕ
  pub truncate : Level → ℕ → ℕ
  -- the flags' bits
  pub p : ℕ
  pub writable : ℕ
  pub us : ℕ
  pub pwt : ℕ
  pub pcd : ℕ
  pub g : ℕ
  pub xd : ℕ
  pub ps : ℕ

pub data PageSize : Type 0 where
  base large huge : PageSize

unfoldable pub bytes : Paging → PageSize → ℕ
bytes x base = x.base_page_size
bytes x large = x.large_page_size
bytes x huge = x.huge_page_size
