-- ===== src/Locks/Singleton.antt =====
-- `Singleton` of kernel/src/utils.rs, as its holder sees it while it has the lock.
use prometheos.Base.{not, is_some, Option, none, some, Panic, Result, ok, panic, ◌>>◌, check}

module _ {T : Type 0} where
  abbrev pub new : Option T
  new = none

  unfoldable pub install : Option T → T → Result (Option T)
  install inner value = do check (not (is_some inner)) Panic.already_installed; ok (some value)

  -- `f` may change the value.
  unfoldable pub with_value : {R : Type 0} → (T → R × T) → Option T → Result (R × Option T)
  with_value f none = panic Panic.not_installed
  with_value f (some value) = let (result, value') = f value in ok (result, some value')
