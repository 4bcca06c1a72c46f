-- ===== src/Vmm/Enter.antt =====
-- One level of the walk of `map` of kernel/src/mm/vmm.rs: the table below an entry, found or added.
use prometheos.Base.{
  ℕ, ◌+◌, ◌<◌, ◌≡◌, ◌≢◌, refl, subst, arith, Bool, true, false, ◌&&◌, some, ◌⊎◌, inl, inr, ◌==◌,
  Bool-cases, ok, add64-ok, u64_size,
}
use prometheos.Base.Exec.{done, continue, raise}
use prometheos.Pmm.{Pmm}
use prometheos.Pmm.Alloc.{IsAlloc}
use prometheos.Vmm.Paging.{Paging, Level}
use prometheos.Vmm.Machine.{Machine, zero_frame, table_mut}
use prometheos.Vmm.Map.{MapError, out_of_memory, Mapping, undo_table, enter, add_table}
use prometheos.Vmm.Tables.{IsPaging, IsTables, next, depth, with_table}
use prometheos.Vmm.Frames.{alloc_frame_lem}
use prometheos.Vmm.Added.{
  added_state, added-IsTables, added_points, added_zero, added_other, table-ne, depth_injective,
}
use prometheos.Vmm.Undo.{Undoes, undo_table_lem}

-- The pointer to a table does not overflow.
pub table_mut-ok :
    {E : Type 0} (x : Paging) (tables : Level → ℕ → Bool) (p : Pmm) (m : Machine)
    → IsTables x tables p m
    → (l : Level) (a : ℕ) → tables l a ≡ true
    → table_mut {E = E} a m.hhdm m ≡ ok (done a, m)
unfolding table_mut
table_mut-ok x tables p m is l a here =
    let (f, at, fits, _) = is.in_use l a here in
    let small : a + m.hhdm < u64_size = omega (arith, is.reachable) in
    rw (add64-ok a m.hhdm small) refl

-- The state after the walk has gone from index `i` of the table at `a` to the table at `c`, with the
-- tables and the allocator as they are then.
pub record Entered (x : Paging) (tables : Level → ℕ → Bool) (p : Pmm) (m : Machine) (l : Level)
    (a i : ℕ) (c : ℕ) (added : Bool) (m' : Machine) : Type 0 where
  pub tables' : Level → ℕ → Bool
  pub pmm : Pmm
  pub is : IsTables x tables' pmm m'
  pub grows : (l' : Level) (a' : ℕ) → tables l' a' ≡ true → tables' l' a' ≡ true
  pub child : tables' (next l) c ≡ true
  pub present : x.is_present l (m'.table a i) ≡ true
  pub table : x.is_page l (m'.table a i) ≡ false
  pub address : x.address l (m'.table a i) ≡ c
  pub kept :
      (l' : Level) (a' j : ℕ)
      → tables l' a' ≡ true
      → depth l' ≢ depth l
      → m'.table a' j ≡ m.table a' j
  pub entries :
      (l' : Level) (a' j : ℕ)
      → tables l' a' ≡ true
      → (m'.table a' j ≡ m.table a' j) ⊎ (x.is_present l' (m.table a' j) ≡ false)
  pub fresh : (m' ≡ m) ⊎ ((j : ℕ) → m'.table c j ≡ 0)
  pub undoes : Undoes x tables p m tables' pmm m' (undo_table x added a i c)

module _ (x : Paging) (paging : IsPaging x) (tables : Level → ℕ → Bool) (p : Pmm) (m : Machine)
    (is : IsTables x tables p m) (l : Level) (a i : ℕ) (inner : depth l < 3)
    (here : tables l a ≡ true) where
  abbrev pub Entering : Mapping (Unit {0}) → Type 0
  Entering undo =
      ((c : ℕ) × (added : Bool) × (m' : Machine) × (enter x l a i undo m ≡ ok (done (c, added), m'))
        × Entered x tables p m l a i c added m')
      ⊎ (enter x l a i undo m ≡ continue (undo m) (λ _. raise out_of_memory))

  -- A table that is there.
  found :
      x.is_present l (m.table a i) ≡ true
      → x.is_page l (m.table a i) ≡ false
      → Entered x tables p m l a i (x.address l (m.table a i)) false m
  unfolding undo_table
  found present table = record {
    tables' = tables;
    pmm = p;
    is = is;
    grows = λ l' a' h. h;
    child = is.below l a i inner here present table;
    present = present;
    table = table;
    address = refl;
    kept = λ l' a' j h ne. refl;
    entries = λ l' a' j h. inl refl;
    fresh = inl refl;
    undoes = λ s like. (s, refl, like);
  }

  new_entries :
      (c : ℕ) (q : Pmm) (got : IsAlloc p q 0 c)
      → x.is_present l (m.table a i) ≡ false
      → (l' : Level) (a' j : ℕ) → tables l' a' ≡ true
      → ((added_state x q m l a i c).table a' j ≡ m.table a' j)
        ⊎ (x.is_present l' (m.table a' j) ≡ false)
  new_entries c q got absent l' a' j h = elim (Bool-cases (a' == a && j == i)) [
    | inl written ↦
        let same_a : a' ≡ a = ground arith in
        let same_i : j ≡ i = ground arith in
        let level : l' ≡ l =
          depth_injective l' l (is.apart l' l a (subst (λ t. tables l' t ≡ true) same_a h) here) in
        inr (rw (same_a, same_i, level) absent)
    | inr other ↦
        let apart = table-ne x paging tables p q m is l a i c inner here got l' a' h in
        inl (ground arith)
  ]

  new_table :
      (c : ℕ) (q : Pmm) (got : IsAlloc p q 0 c)
      → x.is_present l (m.table a i) ≡ false
      → Entered x tables p m l a i c true (added_state x q m l a i c)
  new_table c q got absent =
      let (present, table, address) =
        added_points x paging tables p q m is l a i c inner here got in
      let apart = table-ne x paging tables p q m is l a i c inner here got in
      record {
        tables' = with_table tables (next l) c;
        pmm = q;
        is = added-IsTables x paging tables p q m is l a i c inner here got;
        grows = λ l' a' h. rw h refl;
        child = ground arith;
        present = present;
        table = table;
        address = address;
        kept = λ l' a' j h ne.
            added_other x paging tables p q m is l a i c inner here got a' j (apart l' a' h)
              (λ e. ne (is.apart l' l a (subst (λ t. tables l' t ≡ true) e h) here));
        entries = new_entries c q got absent;
        fresh = inr (added_zero x paging tables p q m is l a i c inner here got);
        undoes =
            λ s like. undo_table_lem x paging tables p q m is l a i c inner here absent got s like;
      }

  enter_new :
      (c : ℕ) (q : Pmm) (got : IsAlloc p q 0 c)
      → add_table x l a i c (record m { pmm = some q })
        ≡ ok (done (c, true), added_state x q m l a i c)
  unfolding add_table zero_frame
  enter_new c q got =
      let small : c + m.hhdm < u64_size = omega (arith, got.at, got.fits, is.reachable) in
      rw (add64-ok c m.hhdm small) refl

  -- Below an entry that is no page, `enter` goes to a table as `Entered` says, or there is no frame
  -- for one, and it does what `undo` does and fails.
  pub enter_lem :
      (undo : Mapping (Unit {0}))
      → (x.is_present l (m.table a i) ≡ true → x.is_page l (m.table a i) ≡ false)
      → Entering undo
  unfolding enter
  enter_lem undo no_page = elim (Bool-cases (x.is_present l (m.table a i))) [
    | inl present ↦
        inl (x.address l (m.table a i), false, m, rw present refl, found present (no_page present))
    | inr absent ↦ elim (alloc_frame_lem {E = MapError} m p is.installed is.valid) [
      | inl none_left ↦ inr (rw (absent, none_left) refl)
      | inr (c, q, e, got) ↦ inl (
        c,
        true,
        added_state x q m l a i c,
        rw (absent, e) (enter_new c q got),
        new_table c q got absent,
      )
    ]
  ]
