-- ===== src/Input/Touch.antt =====
-- The keyboard, the fingers and the mouse of input.c.
pub mod Bounds
use mathlib.Core.Bool.{xor}
use tasm2_nextos.Prelude.{
  ℕ, zero, suc, ◌+◌, ◌-◌, ◌*◌, ◌/◌, ◌==◌, leb, Bool, true, false, not, ◌&&◌, ◌||◌, Option, none,
  some, List, [], ◌∷◌, if◌then◌else◌, update, get_elem?, length,
}
use tasm2_nextos.Prelude.Int.{ℤ, pos, negsuc, sub_ℕ, ltb_ℤ}
use tasm2_nextos.Input.State.{Action, up, down, move, key, touch, Slot, Input, Sdl, Floats, emit}
use tasm2_nextos.Input.Hid.{clamp_pixel_coordinate, send_touch_pixels, send_touch_end_sentinel}

-- `sizeof(input->key_down)`
abbrev pub key_count : ℕ
key_count = 128

module _ {F : Type 0} where
  -- `send_key`
  unfoldable pub send_key : ℕ → Bool → Input F → Input F
  send_key k pressed i =
      if k == 0 || leb key_count k || not (xor (i.key_down k) pressed)
      then i
      else emit i.callbacks.key (key k pressed)
          (record i { key_down = update i.key_down k pressed })

  -- The body of `release_keyboard_state`'s loop, and the loop with the rounds that are left.
  unfoldable pub release_key : ℕ → Input F → Input F
  release_key k i =
      if i.key_down k
      then emit i.callbacks.key (key k false) (record i { key_down = update i.key_down k false })
      else i

  unfoldable pub release_keys : ℕ → ℕ → Input F → Input F
  release_keys zero k i = i
  release_keys (suc rounds) k i = release_keys rounds (k + 1) (release_key k i)

  -- `release_keyboard_state`
  unfoldable pub release_keyboard_state : Input F → Input F
  release_keyboard_state = release_keys (key_count - 1) 1

  -- `touch_slot_for_finger`, from the slot with number `slot` on
  unfoldable pub touch_slot_for_finger : ℕ → ℕ → List (Slot F) → Option ℕ
  touch_slot_for_finger finger_id slot [] = none
  touch_slot_for_finger finger_id slot (f ∷ fs) =
      if f.active && f.finger_id == finger_id
      then some slot
      else touch_slot_for_finger finger_id (slot + 1) fs

  -- The search of `allocate_touch_slot` for a slot that is not active.
  unfoldable pub free_slot : ℕ → List (Slot F) → Option ℕ
  free_slot slot [] = none
  free_slot slot (f ∷ fs) = if f.active then free_slot (slot + 1) fs else some slot

  -- A store into a slot.
  unfoldable pub modify_at : ℕ → (Slot F → Slot F) → List (Slot F) → List (Slot F)
  modify_at n g [] = []
  modify_at zero g (f ∷ fs) = g f ∷ fs
  modify_at (suc n) g (f ∷ fs) = f ∷ modify_at n g fs

  -- `allocate_touch_slot`: the slot, and the slots after it
  unfoldable pub allocate_touch_slot : ℕ → List (Slot F) → Option ℕ × List (Slot F)
  allocate_touch_slot finger_id fs = elim (touch_slot_for_finger finger_id 0 fs) [
    | some slot ↦ (some slot, fs)
    | none ↦ elim (free_slot 0 fs) [
      | none ↦ (none, fs)
      | some slot ↦
          (some slot, modify_at slot (λ f. record f { finger_id = finger_id; active = true }) fs)
    ]
  ]

  -- `active_touch_count`
  unfoldable pub active_touch_count : List (Slot F) → ℕ
  active_touch_count [] = 0
  active_touch_count (f ∷ fs) =
      if f.active then active_touch_count fs + 1 else active_touch_count fs

-- `coordinate * drawable_extent / window_extent` in doubles, truncated to an `int`. The product of
-- two sizes of a screen is below 2 ^ 53, so the quotient truncates as the exact one.
unfoldable pub scale_coordinate : ℤ → ℕ → ℕ → ℤ
scale_coordinate (pos n) drawable window = pos (n * drawable / window)
scale_coordinate (negsuc n) drawable window = sub_ℕ 0 ((n + 1) * drawable / window)

-- The scaling of `mouse_drawable_coordinate`, by the window's extent.
unfoldable pub rescale : ℤ → ℕ → ℤ → ℤ
rescale coordinate drawable (negsuc n) = coordinate
rescale coordinate drawable (pos window) =
    if window == 0 || window == drawable
    then coordinate
    else scale_coordinate coordinate drawable window

module _ {F : Type 0} where
  -- `mouse_drawable_coordinate` for the horizontal and for the vertical one
  unfoldable pub mouse_drawable_x : Sdl → ℕ → ℤ → Input F → ℕ
  mouse_drawable_x sdl window x i =
      let extent : ℤ = elim (sdl.window_size window) [
        | none ↦ pos i.drawable_width
        | some (w, h) ↦ w
      ] in
      clamp_pixel_coordinate (rescale x i.drawable_width extent) i.drawable_width

  unfoldable pub mouse_drawable_y : Sdl → ℕ → ℤ → Input F → ℕ
  mouse_drawable_y sdl window y i =
      let extent : ℤ = elim (sdl.window_size window) [
        | none ↦ pos i.drawable_height
        | some (w, h) ↦ h
      ] in
      clamp_pixel_coordinate (rescale y i.drawable_height extent) i.drawable_height

  -- The mouse is up at the position of the fields.
  unfoldable pub lift_mouse : ℕ → ℕ → Input F → Input F
  lift_mouse x y i =
      send_touch_end_sentinel
        (record (send_touch_pixels up (pos x) (pos y) 0 i) { mouse_pressed = false })

  -- `handle_mouse_button` for a left button event, `pressed` or not, that is not a touch's.
  unfoldable pub press_mouse : Bool → ℕ → ℕ → Input F → Input F
  press_mouse true x y i =
      if i.mouse_pressed
      then i
      else send_touch_pixels down (pos x) (pos y) 0 (record i { mouse_pressed = true })
  press_mouse false x y i = if i.mouse_pressed then lift_mouse x y i else i

  -- `handle_mouse_button`; `from_touch` is `which == SDL_TOUCH_MOUSEID`
  unfoldable pub handle_mouse_button : Sdl → Bool → Bool → Bool → ℕ → ℤ → ℤ → Input F → Input F
  handle_mouse_button sdl pressed from_touch left window x y i =
      if from_touch || not left
      then i
      else let px = mouse_drawable_x sdl window x i in
        let py = mouse_drawable_y sdl window y i in
        press_mouse pressed px py (record i { mouse_x = px; mouse_y = py })

  -- `handle_mouse_motion`
  unfoldable pub handle_mouse_motion : Sdl → Bool → ℕ → ℤ → ℤ → Input F → Input F
  handle_mouse_motion sdl from_touch window x y i =
      if from_touch || not i.mouse_pressed
      then i
      else let px = mouse_drawable_x sdl window x i in
        let py = mouse_drawable_y sdl window y i in
        send_touch_pixels move (pos px) (pos py) 0 (record i { mouse_x = px; mouse_y = py })

  -- `release_mouse_touch`
  unfoldable pub release_mouse_touch : Input F → Input F
  release_mouse_touch i = if i.mouse_pressed then lift_mouse i.mouse_x i.mouse_y i else i

module _ (fl : Floats) where
  open fl use {F}

  -- `pixel_coordinate`
  unfoldable pub pixel_coordinate : F → ℕ → ℤ
  pixel_coordinate v extent =
      if extent == 0
      then pos 0
      else let low = if fl.negative v then fl.zero else v in
        let normalized = if fl.above_one low then fl.one else low in
        let pixel = fl.to_pixel normalized extent in
        if ltb_ℤ pixel (pos extent) then pixel else pos (extent - 1)

  -- `send_touch`
  unfoldable pub send_touch : Action → F → F → ℕ → Input F → Input F
  send_touch action x y pointer_id i =
      emit i.callbacks.touch
        (touch action (pixel_coordinate x i.drawable_width) (pixel_coordinate y i.drawable_height)
          pointer_id)
        i

  -- The body of `release_all_touches`'s loop, and the loop with the slots that are left.
  unfoldable pub release_slot : ℕ → Input F → Input F
  release_slot slot i = elim (get_elem? i.fingers slot) [
    | none ↦ i
    | some f ↦
        if f.active
        then record (send_touch up f.x f.y slot i) {
          fingers = modify_at slot (λ g. record g { active = false }) i.fingers;
        }
        else i
  ]

  unfoldable pub release_slots : ℕ → ℕ → Input F → Input F
  release_slots zero slot i = i
  release_slots (suc rounds) slot i = release_slots rounds (slot + 1) (release_slot slot i)

  -- `release_all_touches`; the array has as many slots as the list
  unfoldable pub release_all_touches : Input F → Input F
  release_all_touches i =
      let i1 = release_slots (length i.fingers) 0 i in
      if active_touch_count i.fingers == 0 then i1 else send_touch_end_sentinel i1

  -- What `handle_finger_event` does for SDL_FINGERUP behind the touch.
  unfoldable pub lift_finger : ℕ → Input F → Input F
  lift_finger slot i =
      let fs = modify_at slot (λ f. record f { active = false }) i.fingers in
      let i1 = record i { fingers = fs } in
      if active_touch_count fs == 0 then send_touch_end_sentinel i1 else i1

  -- The position, the touch and the end of the touch, in the finger's slot.
  unfoldable pub touch_slot : Action → F → F → ℕ → Input F → Input F
  touch_slot event x y slot i =
      let i1 =
        send_touch event x y slot
          (record i { fingers = modify_at slot (λ f. record f { x = x; y = y }) i.fingers }) in
      elim event [ up ↦ lift_finger slot i1 | _ ↦ i1 ]

  -- The slot that `handle_finger_event` works on: a new one only for SDL_FINGERDOWN.
  unfoldable pub find_slot : Action → ℕ → List (Slot F) → Option ℕ × List (Slot F)
  find_slot down finger_id fs = allocate_touch_slot finger_id fs
  find_slot _ finger_id fs = (touch_slot_for_finger finger_id 0 fs, fs)

  -- `handle_finger_event`; the event's type is `down`, `move` or `up`
  unfoldable pub handle_finger_event : Action → ℕ → F → F → Input F → Input F
  handle_finger_event event finger_id x y i =
      let (found, fs) = find_slot event finger_id i.fingers in
      elim found [ none ↦ i | some slot ↦ touch_slot event x y slot (record i { fingers = fs }) ]
