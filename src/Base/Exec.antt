-- ===== src/Base/Exec.antt =====
-- Functions that return a Rust `Result`, change a state, and may panic.
use mathlib.Core.Path.{◌≡◌, refl}
use mathlib.Core.Bool.{Bool, true, false}
use prometheos.Base.Results.{Result, ok, panic}

-- The value of a Rust `Result<A, E>`.
pub data Outcome (E A : Type 0) : Type 0 where
  done : A → Outcome E A
  fail : E → Outcome E A

abbrev pub Exec : Type 0 → Type 0 → Type 0 → Type 0
Exec S E A = S → Result (Outcome E A × S)

module _ {S E A B : Type 0} where
  abbrev pub continue : Result (Outcome E A × S) → (A → Exec S E B) → Result (Outcome E B × S)
  continue (panic why) k = panic why
  continue (ok (fail e, s)) k = ok (fail e, s)
  continue (ok (done a, s)) k = k a s

  infixl 5 ◌>>=◌ ◌>>◌
  abbrev pub ◌>>=◌ : Exec S E A → (A → Exec S E B) → Exec S E B
  ◌>>=◌ f k s = continue (f s) k

  abbrev pub ◌>>◌ : Exec S E A → Exec S E B → Exec S E B
  ◌>>◌ f k s = continue (f s) (λ _. k)

module _ {S E : Type 0} where
  abbrev pub pure : {A : Type 0} → A → Exec S E A
  pure a s = ok (done a, s)

  abbrev pub raise : {A : Type 0} → E → Exec S E A
  raise e s = ok (fail e, s)

  -- An early return with an error, unless the test holds.
  abbrev pub require : Bool → E → Exec S E (Unit {0})
  require true e s = ok (done tt, s)
  require false e s = ok (fail e, s)

  abbrev pub when : Bool → Exec S E (Unit {0}) → Exec S E (Unit {0})
  when true body s = body s
  when false body s = ok (done tt, s)

  -- A computation that may panic and does not touch the state.
  abbrev pub lift : {A : Type 0} → Result A → Exec S E A
  lift (ok a) s = ok (done a, s)
  lift (panic why) s = panic why

-- `let result = f()`: an error becomes a value.
abbrev pub attempt : {S E F A : Type 0} → Exec S E A → Exec S F (Outcome E A)
attempt f s = elim (f s) [ ok (outcome, s') ↦ ok (done outcome, s') | panic why ↦ panic why ]

-- Blocks agree when their rests agree on every value and state.
pub continue-eq :
    {S E A B : Type 0} (r : Result (Outcome E A × S)) (k l : A → Exec S E B)
    → ((a : A) (s : S) → k a s ≡ l a s)
    → continue r k ≡ continue r l
continue-eq (panic why) k l h = refl
continue-eq (ok (fail e, s)) k l h = refl
continue-eq (ok (done a, s)) k l h = h a s
