-- ===== src/Input/Hid.antt =====
-- The controller side of input.c: HID values, the first-run touches that the face buttons make, and
-- opening and closing a controller.
use tasm2_nextos.Prelude.{
  ℕ, zero, suc, ◌+◌, ◌-◌, ◌*◌, ◌==◌, ltb, leb, Bool, true, false, not, ◌&&◌, ◌||◌, none, some,
  if◌then◌else◌, update,
}
use tasm2_nextos.Prelude.Int.{ℤ, pos, negsuc, pos_part, neg_part, nat_abs, sub_ℕ, eqb_ℤ, ltb_ℤ}
use tasm2_nextos.FirstAccept.{stage_update_log, stage_complete, first_run_touch_position}
use tasm2_nextos.Input.State.{
  unit, Action, up, down, connected, disconnected, hid, touch, saved, closed, Input, Sdl, emit,
}

-- `ASM2_HID_A`, `ASM2_HID_START`, `ASM2_HID_SELECT` and `ASM2_HID_RIGHT_STICK`, the last event
abbrev pub hid_a : ℕ
hid_a = 14

abbrev pub hid_start : ℕ
hid_start = 17

abbrev pub hid_select : ℕ
hid_select = 18

abbrev pub hid_last : ℕ
hid_last = 21

-- `fabs(a - b) < 0.000001`
unfoldable pub close : ℤ → ℤ → Bool
close a b = ltb (nat_abs (sub_ℕ (pos_part a + neg_part b) (neg_part a + pos_part b)) * 1000000) unit

-- `normalized_stick_axis` of a `Sint16`; the dead zone is 12 / 100
unfoldable pub normalized_stick_axis : ℤ → ℤ
normalized_stick_axis raw =
    let value = sub_ℕ (pos_part raw * 32768) (neg_part raw * 32767) in
    if leb (nat_abs value * 100) (12 * unit) then pos 0 else value

-- `normalized_trigger_axis`
unfoldable pub normalized_trigger_axis : ℤ → ℤ
normalized_trigger_axis (pos n) = pos (n * 32768)
normalized_trigger_axis (negsuc n) = pos 0

-- `clamp_pixel_coordinate`
unfoldable pub clamp_pixel_coordinate : ℤ → ℕ → ℕ
clamp_pixel_coordinate (pos n) extent = if ltb n extent then n else extent - 1
clamp_pixel_coordinate (negsuc n) extent = 0

-- `is_first_run_touch_button`: SDL's A, B, X and Y are 0 to 3
unfoldable pub is_first_run_touch_button : ℕ → Bool
is_first_run_touch_button button = ltb button 4

module _ {F : Type 0} where
  -- `send_hid`
  unfoldable pub send_hid : ℕ → ℤ → Input F → Input F
  send_hid event_id value i =
      if ltb event_id 1
        || ltb hid_last event_id
        || i.hid_sent event_id && close (i.hid_values event_id) value
      then i
      else emit i.callbacks.hid (hid event_id value) (record i {
        hid_values = update i.hid_values event_id value;
        hid_sent = update i.hid_sent event_id true;
      })

  -- `send_touch_pixels`
  unfoldable pub send_touch_pixels : Action → ℤ → ℤ → ℕ → Input F → Input F
  send_touch_pixels action x y pointer_id i =
      emit i.callbacks.touch
        (touch action (pos (clamp_pixel_coordinate x i.drawable_width))
          (pos (clamp_pixel_coordinate y i.drawable_height)) pointer_id)
        i

  -- `send_touch_end_sentinel`
  unfoldable pub send_touch_end_sentinel : Input F → Input F
  send_touch_end_sentinel i = emit i.callbacks.touch (touch up (negsuc 1999) (negsuc 1999) 0) i

  -- `persist_first_run_touch_state`, an attempt that may fail without a trace in the state
  unfoldable pub persist_first_run_touch_state : Input F → Input F
  persist_first_run_touch_state i = emit i.has_state_path (saved i.first_run_touch_stage) i

  -- `asm2_first_run_touch_position` into the input's fields, and the touch there
  unfoldable pub touch_first_run : Input F → Input F
  touch_first_run i =
      let (x, y) =
        first_run_touch_position i.first_run_touch_stage (pos i.drawable_width)
          (pos i.drawable_height) in
      send_touch_pixels down (pos x) (pos y) 0
        (record i { first_run_touch_x = x; first_run_touch_y = y })

  -- `begin_first_run_touch`
  unfoldable pub begin_first_run_touch : ℕ → Input F → Input F
  begin_first_run_touch button i =
      let i1 = record i { first_run_touch_active = true; first_run_touch_button = some button } in
      if i.first_run_touch_stage == stage_update_log
      then send_hid hid_a (pos unit) i1
      else touch_first_run i1

  -- What `finish_first_run_touch` sends.
  unfoldable pub lift_first_run : Input F → Input F
  lift_first_run i =
      if i.first_run_touch_stage == stage_update_log
      then send_hid hid_a (pos 0) i
      else send_touch_end_sentinel
          (send_touch_pixels up (pos i.first_run_touch_x) (pos i.first_run_touch_y) 0 i)

  -- The stage and button fields after it.
  unfoldable pub next_stage : Input F → Input F
  next_stage i = record i {
    first_run_touch_active = false;
    first_run_touch_stage =
        if ltb i.first_run_touch_stage stage_complete
        then i.first_run_touch_stage + 1
        else i.first_run_touch_stage;
    first_run_touch_button = none;
  }

  -- `finish_first_run_touch`
  unfoldable pub finish_first_run_touch : Input F → Input F
  finish_first_run_touch i =
      if i.first_run_touch_active
      then persist_first_run_touch_state (next_stage (lift_first_run i))
      else i

  -- The body of `release_controller_state`'s loop.
  unfoldable pub release_hid : ℕ → Input F → Input F
  release_hid event_id i =
      if i.hid_sent event_id && not (eqb_ℤ (i.hid_values event_id) (pos 0))
      then emit i.callbacks.hid (hid event_id (pos 0))
          (record i { hid_values = update i.hid_values event_id (pos 0) })
      else i

  -- The loop, with the rounds that are left.
  unfoldable pub release_hids : ℕ → ℕ → Input F → Input F
  release_hids zero event_id i = i
  release_hids (suc rounds) event_id i = release_hids rounds (event_id + 1) (release_hid event_id i)

  -- `release_controller_state`
  unfoldable pub release_controller_state : Input F → Input F
  release_controller_state i = record (release_hids hid_last 1 (finish_first_run_touch i)) {
    hid_values = λ event_id. pos 0;
    hid_sent = λ event_id. false;
    select_pressed = false;
    start_pressed = false;
  }

  -- `close_controller` of the open controller `handle`
  unfoldable pub close_handle : ℕ → Bool → Input F → Input F
  close_handle handle notify i =
      let i1 = release_controller_state i in
      let i2 = emit (notify && i1.callbacks.controller_disconnected) disconnected i1 in
      record (emit true (closed handle) i2) { controller = none; instance_id = negsuc 0 }

  unfoldable pub close_controller : Bool → Input F → Input F
  close_controller notify i = elim i.controller [
    | none ↦ i
    | some handle ↦ close_handle handle notify i
  ]

  -- The rest of `open_controller` once SDL opened the device.
  unfoldable pub adopt_controller : ℕ → ℤ → Input F → Input F
  adopt_controller handle instance_id i =
      if ltb_ℤ instance_id (pos 0)
      then emit true (closed handle) i
      else emit i.callbacks.controller_connected (connected handle)
          (record i { controller = some handle; instance_id = instance_id })

  -- `open_controller`
  unfoldable pub open_device : Sdl → ℕ → Input F → Input F
  open_device sdl index i =
      if sdl.is_game_controller index
      then elim (sdl.open_handle index) [
        | none ↦ i
        | some handle ↦ adopt_controller handle (sdl.instance_of handle) i
      ]
      else i

  unfoldable pub open_controller : Sdl → ℤ → Input F → Input F
  open_controller sdl (negsuc n) i = i
  open_controller sdl (pos index) i = elim i.controller [
    | some handle ↦ i
    | none ↦ open_device sdl index i
  ]

  -- The loop of `open_first_controller`, with the devices that are left.
  unfoldable pub open_from : Sdl → ℕ → ℕ → Input F → Input F
  open_from sdl zero index i = i
  open_from sdl (suc left) index i =
      let i1 = open_controller sdl (pos index) i in
      elim i1.controller [ some handle ↦ i1 | none ↦ open_from sdl left (index + 1) i1 ]

  -- `open_first_controller`
  unfoldable pub open_first_controller : Sdl → Input F → Input F
  open_first_controller sdl i = elim i.controller [
    | some handle ↦ i
    | none ↦ open_from sdl sdl.joystick_count 0 i
  ]
