-- ===== src/Input/State.antt =====
-- The data of input.c and input.h, and what SDL and the callbacks contribute.
--
-- HID values are the doubles 0, 1, r / 32768 for a negative and r / 32767 for a positive `Sint16` r.
-- They are kept as integers over the common denominator `unit` = 32767 * 32768: the tests of the
-- code against 0.12 and 0.000001 come out alike, since two different values of one control are at
-- least 1 / 32768 apart, and none is close to 0.12.
-- A finger's coordinates are of a type of floats that is a parameter.
-- `sent` is what the callbacks have been given, the newest first; it is no variable of the program.
use tasm2_nextos.Prelude.{ℕ, ◌*◌, Bool, Option, List, ◌∷◌, if◌then◌else◌}
use tasm2_nextos.Prelude.Int.{ℤ}

-- 1.0 as a HID value
abbrev pub unit : ℕ
unit = 32767 * 32768

-- `enum asm2_touch_action`
pub data Action : Type 0 where
  up down move : Action

-- A call of a callback, or an effect on the state file or an SDL handle.
pub data Output : Type 0 where
  connected : ℕ → Output
  disconnected : Output
  hid : ℕ → ℤ → Output
  key : ℕ → Bool → Output
  touch : Action → ℤ → ℤ → ℕ → Output
  -- `persist_first_run_touch_state` with the stage that it writes
  saved : ℕ → Output
  closed : ℕ → Output

-- `struct asm2_touch_slot`
pub record Slot (F : Type 0) : Type 0 where
  pub finger_id : ℕ
  pub active : Bool
  pub x : F
  pub y : F

-- Which callbacks are not NULL.
pub record Callbacks : Type 0 where
  pub controller_connected : Bool
  pub controller_disconnected : Bool
  pub hid : Bool
  pub key : Bool
  pub touch : Bool

-- `struct asm2_input`. A button number is SDL's, and `none` is SDL_CONTROLLER_BUTTON_INVALID.
-- `hid_sent` and `key_down` are the bits of a word and the bytes of an array. Extents are never
-- negative: `init` and the window events store positive ones only.
pub record Input (F : Type 0) : Type 0 where
  pub controller : Option ℕ
  pub instance_id : ℤ
  pub callbacks : Callbacks
  pub has_state_path : Bool
  pub hid_values : ℕ → ℤ
  pub hid_sent : ℕ → Bool
  pub drawable_width : ℕ
  pub drawable_height : ℕ
  pub first_run_touch_stage : ℕ
  pub first_run_touch_active : Bool
  pub first_run_touch_button : Option ℕ
  pub first_run_touch_x : ℕ
  pub first_run_touch_y : ℕ
  pub select_pressed : Bool
  pub start_pressed : Bool
  pub mouse_pressed : Bool
  pub mouse_x : ℕ
  pub mouse_y : ℕ
  pub key_down : ℕ → Bool
  pub fingers : List (Slot F)
  pub sent : List Output

-- What the code asks SDL while it handles an event: the devices by index, with the handle that
-- opening gives and its instance id, and the sizes of a window.
pub record Sdl : Type 0 where
  pub joystick_count : ℕ
  pub is_game_controller : ℕ → Bool
  pub open_handle : ℕ → Option ℕ
  pub instance_of : ℕ → ℤ
  pub window_size : ℕ → Option (ℤ × ℤ)
  pub drawable_size : ℕ → Option (ℤ × ℤ)

-- The C floats of finger coordinates, with the comparisons and the conversion that the code uses.
pub record Floats : Type 1 where
  pub F : Type 0
  pub zero : F
  pub one : F
  -- `v < 0.0f` and `v > 1.0f`
  pub negative : F → Bool
  pub above_one : F → Bool
  -- `(int)(v * (float)extent)`
  pub to_pixel : F → ℕ → ℤ

module _ {F : Type 0} where
  -- A call of a callback that may be NULL.
  unfoldable pub emit : Bool → Output → Input F → Input F
  emit present o i = if present then record i { sent = o ∷ i.sent } else i
