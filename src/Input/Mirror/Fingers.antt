-- ===== src/Input/Mirror/Fingers.antt =====
-- The fingers, and releasing everything, keep the game's view of the controls and the keys.
use tasm2_nextos.Prelude.{
  ℕ, zero, suc, ◌+◌, ◌==◌, false, Option, none, some, if◌then◌else◌, length, get_elem?,
}
use tasm2_nextos.Input.State.{Action, up, down, move, Input, Floats, Slot}
use tasm2_nextos.Input.Touch.{
  active_touch_count, send_touch, modify_at, release_slot, release_slots, release_all_touches,
  lift_finger, touch_slot, find_slot, handle_finger_event,
}
use tasm2_nextos.Input.Pump.{release_all}
use tasm2_nextos.Input.Mirror.View.{Mirror, emit-Mirror}
use tasm2_nextos.Input.Mirror.Release.{
  if-Mirror, release_controller_state-Mirror, release_keyboard_state-Mirror,
}
use tasm2_nextos.Input.Mirror.Devices.{sentinel-Mirror, release_mouse_touch-Mirror}

module _ (fl : Floats) where
  open fl use {F}

  send_touch-Mirror :
      (a : Action) (x y : F) (p : ℕ) (i : Input F) → Mirror i → Mirror (send_touch fl a x y p i)
  unfolding send_touch
  send_touch-Mirror a x y p i v = emit-Mirror _ _ i tt v

  release_slot-Mirror : (n : ℕ) (i : Input F) → Mirror i → Mirror (release_slot fl n i)
  unfolding release_slot
  release_slot-Mirror n i v = slot-Mirror (get_elem? i.fingers n)
    where
      slot-Mirror :
          (o : Option (Slot F))
          → Mirror (elim o [
            | none ↦ i
            | some f ↦
                if f.active
                then record (send_touch fl up f.x f.y n i) {
                  fingers = modify_at n (λ g. record g { active = false }) i.fingers;
                }
                else i
          ])
      slot-Mirror none = v
      slot-Mirror (some f) = if-Mirror f.active _ i (send_touch-Mirror up f.x f.y n i v) v

  release_slots-Mirror : (r n : ℕ) (i : Input F) → Mirror i → Mirror (release_slots fl r n i)
  unfolding release_slots
  release_slots-Mirror zero n i v = v
  release_slots-Mirror (suc r) n i v =
      release_slots-Mirror r (n + 1) (release_slot fl n i) (release_slot-Mirror n i v)

  pub release_all_touches-Mirror : (i : Input F) → Mirror i → Mirror (release_all_touches fl i)
  unfolding release_all_touches
  release_all_touches-Mirror i v =
      let w : Mirror (release_slots fl (length i.fingers) 0 i) =
        release_slots-Mirror (length i.fingers) 0 i v in
      if-Mirror (active_touch_count i.fingers == 0) _ _ w (sentinel-Mirror _ w)

  lift_finger-Mirror : (n : ℕ) (i : Input F) → Mirror i → Mirror (lift_finger fl n i)
  unfolding lift_finger
  lift_finger-Mirror n i v =
      let fs = modify_at n (λ f. record f { active = false }) i.fingers in
      if-Mirror (active_touch_count fs == 0) _ _ (sentinel-Mirror (record i { fingers = fs }) v) v

  touch_slot-Mirror :
      (a : Action) (x y : F) (n : ℕ) (i : Input F) → Mirror i → Mirror (touch_slot fl a x y n i)
  unfolding touch_slot
  touch_slot-Mirror up x y n i v = lift_finger-Mirror n _ (
      send_touch-Mirror up x y n
        (record i { fingers = modify_at n (λ f. record f { x = x; y = y }) i.fingers }) v)
  touch_slot-Mirror down x y n i v =
      send_touch-Mirror down x y n
        (record i { fingers = modify_at n (λ f. record f { x = x; y = y }) i.fingers }) v
  touch_slot-Mirror move x y n i v =
      send_touch-Mirror move x y n
        (record i { fingers = modify_at n (λ f. record f { x = x; y = y }) i.fingers }) v

  pub handle_finger_event-Mirror :
      (a : Action) (id : ℕ) (x y : F) (i : Input F)
      → Mirror i
      → Mirror (handle_finger_event fl a id x y i)
  unfolding handle_finger_event
  handle_finger_event-Mirror a id x y i v = found-Mirror (find_slot fl a id i.fingers).0
    where
      found-Mirror :
          (o : Option ℕ)
          → Mirror (elim o [
            | none ↦ i
            | some n ↦
                touch_slot fl a x y n (record i { fingers = (find_slot fl a id i.fingers).1 })
          ])
      found-Mirror none = v
      found-Mirror (some n) =
          touch_slot-Mirror a x y n (record i { fingers = (find_slot fl a id i.fingers).1 }) v

  pub release_all-Mirror : (i : Input F) → Mirror i → Mirror (release_all fl i)
  unfolding release_all
  release_all-Mirror i v = release_all_touches-Mirror _ (
      release_mouse_touch-Mirror _
        (release_keyboard_state-Mirror _ (release_controller_state-Mirror i v)))
