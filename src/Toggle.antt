-- ===== src/Toggle.antt =====
-- `Toggle` of src/utils.rs: a value that is there also while it is switched off.
use screech.Base.{Bool, true, false, Option, none, some, if◌then◌else◌}

pub record Toggle (T : Type 0) : Type 0 where
  pub inner : T
  pub is_on : Bool

module _ {T : Type 0} where
  abbrev pub toggle_on : T → Toggle T
  toggle_on t = record { inner = t; is_on = true }

  abbrev pub toggle_off : T → Toggle T
  toggle_off t = record { inner = t; is_on = false }

  abbrev pub enable : Toggle T → Toggle T
  enable t = record t { is_on = true }

  abbrev pub get : Toggle T → Option T
  get t = if t.is_on then some t.inner else none

  -- a write through `DerefMut`
  abbrev pub write : T → Toggle T → Toggle T
  write v t = record t { inner = v }
