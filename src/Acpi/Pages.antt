-- ===== src/Acpi/Pages.antt =====
-- Which pages `uacpi_kernel_map` of kernel/src/acpi/uacpi.rs maps, and what it returns.
use prometheos.Base.{
  ℕ, zero, suc, ◌+◌, ◌-◌, ◌*◌, ◌/◌, ◌%◌, ◌≤◌, ◌<◌, ◌≡◌, ◌≢◌, refl, ap, ◌⊎◌, inl, inr, arith, Bool,
  true, false, Option, some, none, bit_or, u64_size, add64-ok, ltb, lt→ltb, le→ltb, Result, ok,
  panic, Panic,
}
use prometheos.Base.Exec.{Outcome, done, fail, continue, attempt, pure}
use prometheos.Vmm.Paging.{Paging, base}
use prometheos.Vmm.Machine.{Machine}
use prometheos.Vmm.Map.{MapError, already_mapped, non_canonical, misaligned, out_of_memory}
use prometheos.Vmm.Range.{map_static}
use prometheos.Memory.Align.{align_up_lem, align_down_lem}
use prometheos.Acpi.Ranges.{
  Cut, map_page, map_from, kernel_map, pointer_after, goes_on, range_flags,
}

-- How a run over pages ends: in a state with all of them mapped, in one after an error, or in a panic.
pub data Ending : Type 0 where
  mapped stopped : Machine → Ending
  panicked : Panic → Ending

-- What `uacpi_kernel_map` then gives: the pointer to the first byte, the null pointer, or the panic.
abbrev pub pointer : (addr hhdm : ℕ) → Ending → Result (Outcome Cut (Option ℕ) × Machine)
pointer addr hhdm (mapped m) = ok (done (some (addr + hhdm)), m)
pointer addr hhdm (stopped m) = ok (done none, m)
pointer addr hhdm (panicked why) = panic why

module _ (x : Paging) (hhdm : ℕ) where
  -- One page, with the flags of a device's registers, at its address plus the offset.
  abbrev pub map_device : (phys : ℕ) → Machine → Result (Outcome MapError (Unit {0}) × Machine)
  map_device phys m =
      map_static x (phys + hhdm) phys
        (bit_or (bit_or (bit_or (bit_or x.p x.writable) x.xd) x.pcd) x.pwt) base m

  -- A number of pages from an address on, one after the other: each is mapped, or is so already, until
  -- there is another error or a panic.
  pub data Run : (n phys : ℕ) → Machine → Ending → Type 0 where
    over : {phys : ℕ} {m : Machine} → Run 0 phys m (mapped m)
    next :
        {n phys : ℕ} {m m' : Machine} {ending : Ending}
        → (map_device phys m ≡ ok (done tt, m'))
          ⊎ (map_device phys m ≡ ok (fail already_mapped, m'))
        → Run n (phys + 4096) m' ending
        → Run (suc n) phys m ending
    refused :
        {n phys : ℕ} {m m' : Machine} (e : MapError)
        → e ≢ already_mapped
        → map_device phys m ≡ ok (fail e, m')
        → Run (suc n) phys m (stopped m')
    broken :
        {n phys : ℕ} {m : Machine} {why : Panic}
        → map_device phys m ≡ panic why
        → Run (suc n) phys m (panicked why)

-- What the loop gives.
abbrev looped : Ending → Result (Outcome Cut Bool × Machine)
looped (mapped m) = ok (done true, m)
looped (stopped m) = ok (done false, m)
looped (panicked why) = panic why

module _ (x : Paging) (hhdm : ℕ) where
  -- What the loop makes of a page.
  abbrev paged :
      Result (Outcome MapError (Unit {0}) × Machine) → Result (Outcome Cut Bool × Machine)
  paged (panic why) = panic why
  paged (ok (outcome, m)) = ok (done (goes_on x outcome), m)

  map_page-paged :
      (phys : ℕ) (m : Machine) (r : Result (Outcome MapError (Unit {0}) × Machine))
      → phys + hhdm < u64_size
      → map_device x hhdm phys m ≡ r
      → map_page x phys hhdm m ≡ paged r
  unfolding map_page
  map_page-paged phys m r fits is = rw (add64-ok phys hhdm fits) (attempted r is)
    where
      attempted :
          (r : Result (Outcome MapError (Unit {0}) × Machine))
          → map_device x hhdm phys m ≡ r
          → continue
              (attempt (map_static x (phys + hhdm) phys (range_flags x) base) m)
              (λ o. pure (goes_on x o))
            ≡ paged r
      attempted (panic why) is =
          ap (λ r. continue (attempt {S = Machine} (λ _. r) m) (λ o. pure (goes_on x o))) is
      attempted (ok (outcome, m')) is =
          ap (λ r. continue (attempt {S = Machine} (λ _. r) m) (λ o. pure (goes_on x o))) is

  abbrev Ran : (n fuel phys end : ℕ) → Machine → Type 0
  Ran n fuel phys end m =
      (ending : Ending) × Run x hhdm n phys m ending
      × (map_from x fuel phys end hhdm m ≡ looped ending)

  map_from-Run :
      (n fuel phys end : ℕ)
      → n < fuel
      → phys + n * 4096 ≡ end
      → end + hhdm + 4096 < u64_size
      → (m : Machine) → Ran n fuel phys end m
  unfolding map_from
  map_from-Run n zero phys end h e top m = absurd (omega arith)
  map_from-Run zero (suc fuel) phys end h e top m =
      (mapped m, over, rw (map_from, le→ltb phys end (omega arith)) refl)
  map_from-Run (suc n) (suc fuel) phys end h e top m =
      turn (map_from-Run n fuel (phys + 4096) end (omega arith) (omega arith) top)
        (map_device x hhdm phys m) refl
    where
      enters : ltb phys end ≡ true
      enters = lt→ltb phys end (omega arith)

      at :
          (r : Result (Outcome MapError (Unit {0}) × Machine))
          → map_device x hhdm phys m ≡ r
          → map_page x phys hhdm m ≡ paged r
      at r is = map_page-paged phys m r (omega arith) is

      goes :
          ((m' : Machine) → Ran n fuel (phys + 4096) end m')
          → (m' : Machine)
          → (map_device x hhdm phys m ≡ ok (done tt, m'))
            ⊎ (map_device x hhdm phys m ≡ ok (fail already_mapped, m'))
          → Ran (suc n) (suc fuel) phys end m
      goes rest m' is =
          let (ending, run, e') = rest m' in
          let step = add64-ok phys 4096 (omega arith) in
          (
            ending,
            next is run,
            elim is [
              | inl is ↦ rw (map_from, enters, at _ is, step) e'
              | inr is ↦ rw (map_from, enters, at _ is, step) e'
            ],
          )

      turn :
          ((m' : Machine) → Ran n fuel (phys + 4096) end m')
          → (r : Result (Outcome MapError (Unit {0}) × Machine)) → map_device x hhdm phys m ≡ r
          → Ran (suc n) (suc fuel) phys end m
      turn rest (panic why) is = (panicked why, broken is, rw (map_from, enters, at _ is) refl)
      turn rest (ok (done _, m')) is = goes rest m' (inl is)
      turn rest (ok (fail already_mapped, m')) is = goes rest m' (inr is)
      turn rest (ok (fail non_canonical, m')) is =
          (stopped m', refused non_canonical (λ c. cc) is, rw (map_from, enters, at _ is) refl)
      turn rest (ok (fail misaligned, m')) is =
          (stopped m', refused misaligned (λ c. cc) is, rw (map_from, enters, at _ is) refl)
      turn rest (ok (fail out_of_memory, m')) is =
          (stopped m', refused out_of_memory (λ c. cc) is, rw (map_from, enters, at _ is) refl)

returned :
    (addr hhdm : ℕ)
    → addr + hhdm < u64_size
    → (ending : Ending)
    → continue (looped ending) (pointer_after addr hhdm) ≡ pointer addr hhdm ending
returned addr hhdm fits (mapped m) = rw (add64-ok addr hhdm fits) refl
returned addr hhdm fits (stopped m) = refl
returned addr hhdm fits (panicked why) = refl

-- For a range that ends, with the offset added, at least two frames below 2^64, and fuel above the
-- number of pages, `uacpi_kernel_map` maps pages at their address plus the offset, one after the other
-- (`Run`). They are those from the one that holds the first byte on, as many as hold the last byte
-- of the range too. If each is mapped, or was already, it returns the pointer to the first byte; after
-- any other error it returns the null pointer and leaves the rest, and it panics only if mapping a page
-- does.
pub kernel_map_lem :
    (x : Paging) (addr len : ℕ) (m : Machine) (fits : addr + len + m.hhdm + 2 * 4096 < u64_size)
    → (first : ℕ) × (n : ℕ) × (first % 4096 ≡ 0)
      × (first ≤ addr)
      × (addr < first + 4096)
      × (addr + len ≤ first + n * 4096)
      × (first + n * 4096 < addr + len + 4096)
      × ((fuel : ℕ)
          → n < fuel
          → (ending : Ending) × Run x m.hhdm n first m ending
            × (kernel_map x fuel addr len m ≡ pointer addr m.hhdm ending))
unfolding kernel_map
kernel_map_lem x addr len m fits =
    let (first, e, low, close, whole) = align_down_lem 12 addr (omega arith) (omega arith) in
    let (end, e', up, close', whole') = align_up_lem 12 (addr + len) (omega arith) (omega arith) in
    let n = (end - first) / 4096 in
    let span : first + n * 4096 ≡ end = omega (arith, low, up, whole, whole') in
    (
      first,
      n,
      whole,
      low,
      close,
      omega (arith, span, up),
      omega (arith, span, close'),
      λ fuel enough.
          let (ending, run, ran) =
            map_from-Run x m.hhdm n fuel first end enough span (omega (arith, close', fits)) m in
          (
            ending,
            run,
            rw (e, add64-ok addr len (omega (arith, fits)), e', ran)
                (returned addr m.hhdm (omega (arith, fits)) ending),
          ),
    )
