-- ===== src/Runtime/Uninit.antt =====
-- `MaybeUninit` of src/export.rs. `none` stands for `unreachable_unchecked`, which is undefined
-- behaviour.
use rtfm.Common.{Option, none, some}

pub record MaybeUninit (T : Type 0) : Type 0 where
  pub value : Option T

module _ {T : Type 0} where
  unfoldable pub uninitialized : MaybeUninit T
  uninitialized = record { value = none }

  unfoldable pub get_ref : MaybeUninit T → Option T
  get_ref self = self.value

  -- The value that the reference shows; a write through it is a `set`.
  unfoldable pub get_mut : MaybeUninit T → Option T
  get_mut self = self.value

  unfoldable pub set : T → MaybeUninit T → MaybeUninit T
  set val self = record { value = some val }
