-- ===== src/Input/Mirror/Events.antt =====
-- Every event keeps the game's view of the controls and the keys, and shutting down clears it.
use tasm2_nextos.Prelude.{
  ℕ, ◌==◌, ltb, ◌≡◌, refl, Bool, true, false, ◌&&◌, List, [], ◌∷◌, if◌then◌else◌,
}
use tasm2_nextos.Prelude.Int.{ℤ, pos, eqb_ℤ}
use tasm2_nextos.FirstAccept.{stage_complete}
use tasm2_nextos.Input.State.{Callbacks, Input, Sdl, Floats, unit}
use tasm2_nextos.Input.Hid.{is_first_run_touch_button, hid_start, hid_select}
use tasm2_nextos.Input.Pump.{
  Button, button_number, hid_button, keyboard_android_key, axis_value, Event, quit, device_added,
  device_removed, button, axis, finger, mouse_button, mouse_motion, keyboard, resized, focus_lost,
  ignored, is_held_button, note_combo, plain_button, handle_button, from_controller, resize, handle,
  pump, cleared, init,
}
use tasm2_nextos.Input.Mirror.View.{Mirror, send_hid-Mirror, send_key-Mirror}
use tasm2_nextos.Input.Mirror.Release.{
  if-Mirror, finish_first_run_touch-Mirror, begin_first_run_touch-Mirror,
}
use tasm2_nextos.Input.Mirror.Devices.{
  close_controller-Mirror, open_controller-Mirror, open_first_controller-Mirror,
  handle_mouse_button-Mirror, handle_mouse_motion-Mirror,
}
use tasm2_nextos.Input.Mirror.Fingers.{handle_finger_event-Mirror, release_all-Mirror}

module _ {F : Type 0} where
  -- A pair of a flag and an input that one test guards.
  if-Mirror_pair :
      (b : Bool) (r s : Bool × Input F) → Mirror r.1 → Mirror s.1 → Mirror (if b then r else s).1
  if-Mirror_pair true r s v w = v
  if-Mirror_pair false r s v w = w

  note_combo-Mirror : (e : ℕ) (p : Bool) (i : Input F) → Mirror i → Mirror (note_combo e p i)
  unfolding note_combo
  note_combo-Mirror e p i v = if-Mirror (e == hid_select) _ _ v (if-Mirror (e == hid_start) _ i v v)

  handle_button-Mirror :
      (p : Bool) (btn : Button) (i : Input F) → Mirror i → Mirror (handle_button p btn i).1
  unfolding handle_button plain_button
  handle_button-Mirror p btn i v =
      if-Mirror_pair
        (i.first_run_touch_active && is_held_button (button_number btn) i.first_run_touch_button) _
        _ (if-Mirror p i _ v (finish_first_run_touch-Mirror i v))
        (if-Mirror_pair
          (p
            && ltb i.first_run_touch_stage stage_complete
            && is_first_run_touch_button (button_number btn))
          _ _ (begin_first_run_touch-Mirror (button_number btn) i v)
          (note_combo-Mirror (hid_button btn) p _
            (send_hid-Mirror (hid_button btn) (if p then pos unit else pos 0) i v)))

module _ (fl : Floats) where
  open fl use {F}

  -- An event that the pump takes, of any kind, leaves the game's view of each control and each key
  -- equal to the input's fields, if it was before.
  pub handle-Mirror :
      (sdl : Sdl) (event : Event F) (i : Input F) → Mirror i → Mirror (handle fl sdl event i).1
  unfolding handle resize
  handle-Mirror sdl quit i v = v
  handle-Mirror sdl (device_added index) i v = open_controller-Mirror sdl index i v
  handle-Mirror sdl (device_removed which) i v =
      if-Mirror (eqb_ℤ which i.instance_id) _ i
        (open_first_controller-Mirror sdl _ (close_controller-Mirror true i v)) v
  handle-Mirror sdl (button pressed which btn) i v =
      if-Mirror_pair (from_controller which i) _ _ (handle_button-Mirror pressed btn i v) v
  handle-Mirror sdl (axis which ax raw) i v =
      if-Mirror_pair (from_controller which i) _ _
        (send_hid-Mirror (axis_value ax raw).0 (axis_value ax raw).1 i v) v
  handle-Mirror sdl (finger event id px py) i v = handle_finger_event-Mirror fl event id px py i v
  handle-Mirror sdl (mouse_button pressed from_touch left window px py) i v =
      handle_mouse_button-Mirror sdl pressed from_touch left window px py i v
  handle-Mirror sdl (mouse_motion from_touch window px py) i v =
      handle_mouse_motion-Mirror sdl from_touch window px py i v
  handle-Mirror sdl (keyboard pressed repeat k) i v =
      if-Mirror repeat i _ v (send_key-Mirror (keyboard_android_key k) pressed i v)
  handle-Mirror sdl (resized window w h) i v = v
  handle-Mirror sdl focus_lost i v = release_all-Mirror fl i v
  handle-Mirror sdl ignored i v = v

  goes_on-Mirror :
      (b : Bool) (r s : Bool × Input F × List (Sdl × Event F))
      → Mirror r.1
      → Mirror s.1
      → Mirror (elim b as (λ c. Bool × Input F × List (Sdl × Event F)) [ true ↦ r | false ↦ s ]).1
  goes_on-Mirror true r s v w = v
  goes_on-Mirror false r s v w = w

  pump-Mirror_from :
      (events : List (Sdl × Event F)) (i : Input F) → Mirror i → Mirror (pump fl events i).1
  unfolding pump
  pump-Mirror_from [] i v = v
  pump-Mirror_from ((sdl, event) ∷ events) i v =
      let w : Mirror (handle fl sdl event i).1 = handle-Mirror sdl event i v in
      goes_on-Mirror (handle fl sdl event i).0 _ _ (pump-Mirror_from events _ w) w

  cleared-Mirror :
      (cb : Callbacks) (w h : ℤ) (p : Bool) (s : ℤ)
      → cb.hid ≡ true
      → cb.key ≡ true
      → Mirror (cleared fl cb w h p s)
  unfolding cleared
  cleared-Mirror cb w h p s hid_on key_on = record {
    hid_on = hid_on;
    key_on = key_on;
    controls = λ e. refl;
    unsent = λ e n. refl;
    control_range = λ e n. cc;
    keys_down = λ k. refl;
    key_range = λ k n. cc;
  }

  -- After `asm2_input_init` with callbacks for controls and keys, and any events pumped after it,
  -- the value the game was last told for each control is the one in `hid_values`, and the state it
  -- was last told of each key is the one in `key_down`.
  pub pump-Mirror :
      (sdl : Sdl) (cb : Callbacks) (w h : ℤ) (p : Bool) (s : ℤ) (events : List (Sdl × Event F))
      → cb.hid ≡ true
      → cb.key ≡ true
      → Mirror (pump fl events (init fl sdl cb w h p s)).1
  unfolding init
  pump-Mirror sdl cb w h p s events hid_on key_on =
      pump-Mirror_from events _
        (open_first_controller-Mirror sdl _ (cleared-Mirror cb w h p s hid_on key_on))
