-- ===== src/Memory/Examples.antt =====
-- The theorem about kernel/src/mm/mod.rs on a memory map of 16 frames.
use prometheos.Base.{ℕ, ◌≡◌, refl, arith, true, false, List, [], ◌∷◌, ◌⊎◌, some, Panic, panic, ok}
use prometheos.Pmm.{Pmm}
use prometheos.Pmm.Examples.{base, blank}
use prometheos.Memory.Frames.{count_frames, set_up_frames}
use prometheos.Memory.Given.{is_usable}
use prometheos.Memory.Memmap.{IsMemmap, has_room}
use prometheos.Memory.Boot.{IsReady, set_up_frames_lem}
use prometheos.Memory.Align.{align_up}
use prometheos.Memory.Regions.{Entry}

-- Frame 0 is reserved, and frames 1 to 15 are usable: the metadata takes frame 1.
abbrev memory_map : List Entry
memory_map =
    record { base = 0; length = 0x1000; usable = false }
    ∷ record { base = 0x1000; length = 0xF000; usable = true }
    ∷ []

memory_map-IsMemmap : IsMemmap memory_map base
unfolding is_usable
memory_map-IsMemmap =
    (omega arith, λ e. cc, λ j h. cc, (omega arith, λ e. omega arith, λ j h. refl, omega arith))

set_up_frames_lem_example :
    (n : ℕ) × (b : ℕ) × (count_frames memory_map ≡ ok n)
    × (align_up n 4096 ≡ ok b)
    × ((has_room memory_map b ≡ false)
          × (set_up_frames memory_map base (λ a. 7) blank ≡ panic Panic.no_region)
        ⊎ (has_room memory_map b ≡ true)
          × (p : Pmm) × (set_up_frames memory_map base (λ a. 7) blank ≡ ok (some p))
          × IsReady base memory_map n b p)
set_up_frames_lem_example = set_up_frames_lem base memory_map memory_map-IsMemmap (λ a. 7) blank
