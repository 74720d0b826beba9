-- ===== src/Input/Tests.antt =====
-- A concrete run of the input pump, on which the theorems are applied.
use tasm2_nextos.Prelude.{
  none, All, ℕ, ◌*◌, ◌/◌, ◌==◌, ltb, ◌≡◌, refl, true, false, some, List, [], ◌∷◌,
}
use tasm2_nextos.Prelude.Int.{pos}
use tasm2_nextos.Input.State.{down, Callbacks, Input, Sdl, Floats}
use tasm2_nextos.Input.Pump.{
  a, left_x, space, Event, button, axis, finger, keyboard, init, pump, shutdown,
}
use tasm2_nextos.Input.Mirror.{game_hid, game_key, Mirror}
use tasm2_nextos.Input.Mirror.Events.{pump-Mirror}
use tasm2_nextos.Input.Mirror.Shutdown.{value_at_rest, shutdown_lem}
use tasm2_nextos.Input.Persist.{
  FileSystem, Answers, IsOldOrNew, persist_states, persist_states-IsOldOrNew,
}

-- Finger coordinates in thousandths.
abbrev thousandths : Floats
thousandths = record {
  F = ℕ;
  zero = 0;
  one = 1000;
  negative = λ v. false;
  above_one = λ v. ltb 1000 v;
  to_pixel = λ v extent. pos (v * extent / 1000);
}

-- One controller, with handle 5 and instance id 9, and windows of the drawable's size.
abbrev one_device : Sdl
one_device = record {
  joystick_count = 1;
  is_game_controller = λ index. index == 0;
  open_handle = λ index. some 5;
  instance_of = λ handle. pos 9;
  window_size = λ window. some (pos 1280, pos 720);
  drawable_size = λ window. some (pos 1280, pos 720);
}

abbrev all_callbacks : Callbacks
all_callbacks = record {
  controller_connected = true;
  controller_disconnected = true;
  hid = true;
  key = true;
  touch = true;
}

abbrev events : List (Sdl × Event ℕ)
events =
    (one_device, axis (pos 9) left_x (pos 20000))
    ∷ (one_device, keyboard true false space)
    ∷ (one_device, finger down 3 500 250)
    ∷ (one_device, button true (pos 9) a)
    ∷ []

abbrev pumped : Input ℕ
pumped =
    (pump thousandths events
      (init thousandths one_device all_callbacks (pos 1280) (pos 720) true (pos 3))).1

pumped_lem : Mirror pumped
pumped_lem =
    pump-Mirror thousandths one_device all_callbacks (pos 1280) (pos 720) true (pos 3) events refl
      refl

pump-Mirror_example : Mirror pumped
pump-Mirror_example =
    pump-Mirror thousandths one_device all_callbacks (pos 1280) (pos 720) true (pos 3) events refl
      refl

shutdown_lem_example :
    (game_key 108 (shutdown thousandths pumped).sent ≡ false)
    × (game_hid 3 (shutdown thousandths pumped).sent
        ≡ value_at_rest pumped.controller (pumped.hid_values 3))
shutdown_lem_example = shutdown_lem thousandths pumped 108 3 pumped_lem

-- A disk that takes only two bytes.
abbrev full_disk : Answers
full_disk = record { opens = true; writes = some 2; syncs = true; closes = true; renames = true }

abbrev saved_stage : FileSystem
saved_stage = record { temporary = none; target = some (49 ∷ []) }

persist_states-IsOldOrNew_example :
    All
      (IsOldOrNew saved_stage (50 ∷ 51 ∷ 52 ∷ []))
      (persist_states (some (47 ∷ [])) full_disk (50 ∷ 51 ∷ 52 ∷ []) saved_stage)
persist_states-IsOldOrNew_example =
    persist_states-IsOldOrNew (some (47 ∷ [])) full_disk (50 ∷ 51 ∷ 52 ∷ []) saved_stage
