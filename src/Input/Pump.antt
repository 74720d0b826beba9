-- ===== src/Input/Pump.antt =====
-- `asm2_input_init`, `asm2_input_pump` and `asm2_input_shutdown` of input.c.
use tasm2_nextos.Prelude.{
  ℕ, ◌==◌, ltb, Bool, true, false, not, ◌&&◌, ◌||◌, Option, none, some, List, [], ◌∷◌,
  if◌then◌else◌, replicate,
}
use tasm2_nextos.Prelude.Int.{ℤ, pos, negsuc, eqb_ℤ}
use tasm2_nextos.FirstAccept.{stage_complete}
use tasm2_nextos.Input.State.{Action, Callbacks, Input, Sdl, Floats, unit}
use tasm2_nextos.Input.Hid.{
  hid_start, hid_select, normalized_stick_axis, normalized_trigger_axis, is_first_run_touch_button,
  send_hid, begin_first_run_touch, finish_first_run_touch, release_controller_state,
  close_controller, open_controller, open_first_controller,
}
use tasm2_nextos.Input.Touch.{
  send_key, release_keyboard_state, handle_mouse_button, handle_mouse_motion, release_mouse_touch,
  release_all_touches, handle_finger_event,
}

-- `SDL_GameControllerButton`, by SDL's numbers 0 to 14
pub data Button : Type 0 where
  a b x y back guide start left_stick right_stick left_shoulder right_shoulder : Button
  dpad_up dpad_down dpad_left dpad_right : Button
  other : ℕ → Button

-- SDL's number of the button.
unfoldable pub button_number : Button → ℕ
button_number a = 0
button_number b = 1
button_number x = 2
button_number y = 3
button_number back = 4
button_number guide = 5
button_number start = 6
button_number left_stick = 7
button_number right_stick = 8
button_number left_shoulder = 9
button_number right_shoulder = 10
button_number dpad_up = 11
button_number dpad_down = 12
button_number dpad_left = 13
button_number dpad_right = 14
button_number (other n) = n

-- `hid_button`
unfoldable pub hid_button : Button → ℕ
hid_button a = 14
hid_button b = 16
hid_button x = 15
hid_button y = 13
hid_button back = 18
hid_button guide = 19
hid_button start = 17
hid_button left_stick = 20
hid_button right_stick = 21
hid_button left_shoulder = 11
hid_button right_shoulder = 12
hid_button dpad_up = 7
hid_button dpad_down = 8
hid_button dpad_left = 9
hid_button dpad_right = 10
hid_button (other n) = 0

-- The keys that `keyboard_android_key` knows.
pub data Key : Type 0 where
  return_key escape backspace up_key down_key left_key right_key : Key
  letter_z letter_x letter_a letter_s letter_q letter_w digit_1 digit_2 : Key
  left_shift right_shift tab space home unknown : Key

-- `keyboard_android_key`
unfoldable pub keyboard_android_key : Key → ℕ
keyboard_android_key return_key = 66
keyboard_android_key escape = 4
keyboard_android_key backspace = 4
keyboard_android_key up_key = 19
keyboard_android_key down_key = 20
keyboard_android_key left_key = 21
keyboard_android_key right_key = 22
keyboard_android_key letter_z = 96
keyboard_android_key letter_x = 97
keyboard_android_key letter_a = 99
keyboard_android_key letter_s = 100
keyboard_android_key letter_q = 102
keyboard_android_key letter_w = 103
keyboard_android_key digit_1 = 104
keyboard_android_key digit_2 = 105
keyboard_android_key left_shift = 106
keyboard_android_key right_shift = 107
keyboard_android_key tab = 109
keyboard_android_key space = 108
keyboard_android_key home = 110
keyboard_android_key unknown = 0

-- `SDL_GameControllerAxis`
pub data Axis : Type 0 where
  left_x left_y right_x right_y trigger_left trigger_right other_axis : Axis

-- The event id and the value that the switch of SDL_CONTROLLERAXISMOTION makes.
unfoldable pub axis_value : Axis → ℤ → ℕ × ℤ
axis_value left_x raw = (3, normalized_stick_axis raw)
axis_value left_y raw = (4, normalized_stick_axis raw)
axis_value right_x raw = (5, normalized_stick_axis raw)
axis_value right_y raw = (6, normalized_stick_axis raw)
axis_value trigger_left raw = (1, normalized_trigger_axis raw)
axis_value trigger_right raw = (2, normalized_trigger_axis raw)
axis_value other_axis raw = (0, pos 0)

-- `SDL_Event`, with the fields that the code reads
pub data Event (F : Type 0) : Type 0 where
  quit : Event F
  device_added : ℤ → Event F
  device_removed : ℤ → Event F
  button : Bool → ℤ → Button → Event F
  axis : ℤ → Axis → ℤ → Event F
  finger : Action → ℕ → F → F → Event F
  -- pressed, `which == SDL_TOUCH_MOUSEID`, left button, window, position
  mouse_button : Bool → Bool → Bool → ℕ → ℤ → ℤ → Event F
  mouse_motion : Bool → ℕ → ℤ → ℤ → Event F
  -- pressed, repeat, key
  keyboard : Bool → Bool → Key → Event F
  resized : ℕ → ℤ → ℤ → Event F
  focus_lost : Event F
  ignored : Event F

-- `(int)button == input->first_run_touch_button`
unfoldable pub is_held_button : ℕ → Option ℕ → Bool
is_held_button btn none = false
is_held_button btn (some held) = btn == held

-- A new size, where it is positive.
unfoldable pub positive_or : ℕ → ℤ → ℕ
positive_or old (pos n) = if n == 0 then old else n
positive_or old (negsuc n) = old

module _ {F : Type 0} where
  -- `select_pressed` and `start_pressed` after a button event.
  unfoldable pub note_combo : ℕ → Bool → Input F → Input F
  note_combo event_id pressed i =
      if event_id == hid_select
      then record i { select_pressed = pressed }
      else if event_id == hid_start
      then record i { start_pressed = pressed }
      else i

  -- A button event of the open controller that is no part of the first-run sequence. The result is
  -- whether the game goes on.
  unfoldable pub plain_button : Bool → Button → Input F → Bool × Input F
  plain_button pressed btn i =
      let event_id = hid_button btn in
      let i1 =
        note_combo event_id pressed (send_hid event_id (if pressed then pos unit else pos 0) i) in
      (not (i1.select_pressed && i1.start_pressed), i1)

  -- SDL_CONTROLLERBUTTONDOWN and SDL_CONTROLLERBUTTONUP of the open controller
  unfoldable pub handle_button : Bool → Button → Input F → Bool × Input F
  handle_button pressed btn i =
      if i.first_run_touch_active && is_held_button (button_number btn) i.first_run_touch_button
      then (true, if pressed then i else finish_first_run_touch i)
      else if pressed
          && ltb i.first_run_touch_stage stage_complete
          && is_first_run_touch_button (button_number btn)
      then (true, begin_first_run_touch (button_number btn) i)
      else plain_button pressed btn i

  -- Whether the event is from the open controller.
  unfoldable pub from_controller : ℤ → Input F → Bool
  from_controller which i = elim i.controller [
    | none ↦ false
    | some handle ↦ eqb_ℤ which i.instance_id
  ]

  -- SDL_WINDOWEVENT_SIZE_CHANGED and SDL_WINDOWEVENT_RESIZED
  unfoldable pub resize : Sdl → ℕ → ℤ → ℤ → Input F → Input F
  resize sdl window w h i =
      let (width, height) : ℤ × ℤ = elim (sdl.drawable_size window) [
        | none ↦ (w, h)
        | some size ↦ size
      ] in
      record i {
        drawable_width = positive_or i.drawable_width width;
        drawable_height = positive_or i.drawable_height height;
      }

module _ (fl : Floats) where
  open fl use {F}

  -- SDL_WINDOWEVENT_FOCUS_LOST
  unfoldable pub release_all : Input F → Input F
  release_all i =
      release_all_touches fl
        (release_mouse_touch (release_keyboard_state (release_controller_state i)))

  -- One round of `asm2_input_pump`'s loop: whether the game goes on, and the input after it.
  unfoldable pub handle : Sdl → Event F → Input F → Bool × Input F
  handle sdl quit i = (false, i)
  handle sdl (device_added index) i = (true, open_controller sdl index i)
  handle sdl (device_removed which) i = (
    true,
    if eqb_ℤ which i.instance_id then open_first_controller sdl (close_controller true i) else i,
  )
  handle sdl (button pressed which btn) i =
      if from_controller which i then handle_button pressed btn i else (true, i)
  handle sdl (axis which ax raw) i =
      if from_controller which i
      then (true, send_hid (axis_value ax raw).0 (axis_value ax raw).1 i)
      else (true, i)
  handle sdl (finger event id px py) i = (true, handle_finger_event fl event id px py i)
  handle sdl (mouse_button pressed from_touch left window px py) i =
      (true, handle_mouse_button sdl pressed from_touch left window px py i)
  handle sdl (mouse_motion from_touch window px py) i =
      (true, handle_mouse_motion sdl from_touch window px py i)
  handle sdl (keyboard pressed repeat k) i =
      (true, if repeat then i else send_key (keyboard_android_key k) pressed i)
  handle sdl (resized window w h) i = (true, resize sdl window w h i)
  handle sdl focus_lost i = (true, release_all i)
  handle sdl ignored i = (true, i)

  -- `asm2_input_pump` over the events that wait, each with what SDL answers meanwhile: whether the
  -- game goes on, the input, and the events that are left.
  unfoldable pub pump : List (Sdl × Event F) → Input F → Bool × Input F × List (Sdl × Event F)
  pump [] i = (true, i, [])
  pump ((sdl, event) ∷ events) i =
      let (goes_on, i1) = handle sdl event i in
      elim goes_on [ true ↦ pump events i1 | false ↦ (false, i1, events) ]

  -- `asm2_input_shutdown`
  unfoldable pub shutdown : Input F → Input F
  shutdown i =
      close_controller true
        (release_all_touches fl (release_mouse_touch (release_keyboard_state i)))

  -- The stage that `asm2_input_init` starts at.
  unfoldable pub initial_stage : Bool → ℤ → ℕ
  initial_stage has_state_path (pos n) =
      if not has_state_path || ltb stage_complete n then stage_complete else n
  initial_stage has_state_path (negsuc n) = stage_complete

  -- The fields that `asm2_input_init` sets.
  unfoldable pub cleared : Callbacks → ℤ → ℤ → Bool → ℤ → Input F
  cleared callbacks width height has_state_path stage = record {
    controller = none;
    instance_id = negsuc 0;
    callbacks = callbacks;
    has_state_path = has_state_path;
    hid_values = λ event_id. pos 0;
    hid_sent = λ event_id. false;
    drawable_width = positive_or 1 width;
    drawable_height = positive_or 1 height;
    first_run_touch_stage = initial_stage has_state_path stage;
    first_run_touch_active = false;
    first_run_touch_button = none;
    first_run_touch_x = 0;
    first_run_touch_y = 0;
    select_pressed = false;
    start_pressed = false;
    mouse_pressed = false;
    mouse_x = 0;
    mouse_y = 0;
    key_down = λ k. false;
    fingers = replicate 10 (record { finger_id = 0; active = false; x = fl.zero; y = fl.zero });
    sent = [];
  }

  -- `asm2_input_init`
  unfoldable pub init : Sdl → Callbacks → ℤ → ℤ → Bool → ℤ → Input F
  init sdl callbacks width height has_state_path stage =
      open_first_controller sdl (cleared callbacks width height has_state_path stage)
