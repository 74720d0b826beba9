-- ===== src/Input/Mirror/Shutdown.antt =====
-- What `asm2_input_shutdown` tells the game.
use tasm2_nextos.Prelude.{
  ℕ, zero, suc, ◌+◌, ◌==◌, ◌≡◌, refl, ◌∙◌, ap, ◌-◌, arith, Bool, true, false, Option, none, some,
  List, if◌then◌else◌, length, get_elem?,
}
use tasm2_nextos.Prelude.Int.{ℤ, pos}
use tasm2_nextos.Input.State.{up, Output, closed, Slot, Input, Floats, emit}
use tasm2_nextos.Input.Hid.{
  hid_last, hid_a, send_hid, send_touch_pixels, send_touch_end_sentinel,
  persist_first_run_touch_state, lift_first_run, next_stage, finish_first_run_touch, release_hid,
  release_hids, release_controller_state, close_handle, close_controller,
}
use tasm2_nextos.FirstAccept.{stage_update_log}
use tasm2_nextos.Input.Touch.{
  key_count, release_key, release_keys, release_keyboard_state, lift_mouse, release_mouse_touch,
  active_touch_count, modify_at, send_touch, release_slot, release_slots, release_all_touches,
}
use tasm2_nextos.Input.Pump.{shutdown}
use tasm2_nextos.Input.Mirror.View.{game_hid, game_key, Mirror}
use tasm2_nextos.Input.Mirror.Release.{release_keyboard_state-Mirror, release_keyboard_state-false}
use tasm2_nextos.Input.Mirror.Devices.{close_controller-Mirror, release_mouse_touch-Mirror}
use tasm2_nextos.Input.Mirror.Fingers.{release_all_touches-Mirror}

module _ {F : Type 0} where
  -- The fields that a step which only touches leaves alone.
  record Kept (i j : Input F) : Type 0 where
    keys : j.key_down ≡ i.key_down
    handles : j.controller ≡ i.controller
    values : j.hid_values ≡ i.hid_values

  Kept-same : (i : Input F) → Kept i i
  Kept-same i = record { keys = refl; handles = refl; values = refl }

  Kept-trans : (i j k : Input F) → Kept i j → Kept j k → Kept i k
  Kept-trans i j k p q = record {
    keys = q.keys ∙ p.keys;
    handles = q.handles ∙ p.handles;
    values = q.values ∙ p.values;
  }

  emit-Kept : (b : Bool) (o : Output) (i j : Input F) → Kept i j → Kept i (emit b o j)
  unfolding emit
  emit-Kept false o i j p = p
  emit-Kept true o i j p = record { keys = p.keys; handles = p.handles; values = p.values }

  if-Kept : (b : Bool) (i j k : Input F) → Kept i j → Kept i k → Kept i (if b then j else k)
  if-Kept true i j k p q = p
  if-Kept false i j k p q = q

  sentinel-Kept : (i j : Input F) → Kept i j → Kept i (send_touch_end_sentinel j)
  unfolding send_touch_end_sentinel
  sentinel-Kept i j p = emit-Kept _ _ i j p

  release_mouse_touch-Kept : (i : Input F) → Kept i (release_mouse_touch i)
  unfolding release_mouse_touch lift_mouse send_touch_pixels
  release_mouse_touch-Kept i =
      if-Kept i.mouse_pressed i _ i (sentinel-Kept i _ (lifted _ (emit-Kept _ _ i i (Kept-same i))))
        (Kept-same i)
    where
      lifted : (j : Input F) → Kept i j → Kept i (record j { mouse_pressed = false })
      lifted j p = record { keys = p.keys; handles = p.handles; values = p.values }

module _ (fl : Floats) where
  open fl use {F}

  release_slot-Kept : (n : ℕ) (i : Input F) → Kept i (release_slot fl n i)
  unfolding release_slot send_touch
  release_slot-Kept n i = slot-Kept (get_elem? i.fingers n)
    where
      freed : (fs : List (Slot F)) (j : Input F) → Kept i j → Kept i (record j { fingers = fs })
      freed fs j p = record { keys = p.keys; handles = p.handles; values = p.values }

      slot-Kept :
          (o : Option (Slot F))
          → Kept i (elim o [
            | none ↦ i
            | some f ↦
                if f.active
                then record (send_touch fl up f.x f.y n i) {
                  fingers = modify_at n (λ g. record g { active = false }) i.fingers;
                }
                else i
          ])
      slot-Kept none = Kept-same i
      slot-Kept (some f) =
          if-Kept f.active i _ i (freed _ _ (emit-Kept _ _ i i (Kept-same i))) (Kept-same i)

  release_slots-Kept : (r n : ℕ) (i : Input F) → Kept i (release_slots fl r n i)
  unfolding release_slots
  release_slots-Kept zero n i = Kept-same i
  release_slots-Kept (suc r) n i =
      Kept-trans i (release_slot fl n i) _ (release_slot-Kept n i)
        (release_slots-Kept r (n + 1) (release_slot fl n i))

  release_all_touches-Kept : (i : Input F) → Kept i (release_all_touches fl i)
  unfolding release_all_touches
  release_all_touches-Kept i =
      let w : Kept i (release_slots fl (length i.fingers) 0 i) =
        release_slots-Kept (length i.fingers) 0 i in
      if-Kept (active_touch_count i.fingers == 0) i _ _ w (sentinel-Kept i _ w)

module _ {F : Type 0} where
  emit-key_down : (b : Bool) (o : Output) (i : Input F) → (emit b o i).key_down ≡ i.key_down
  unfolding emit
  emit-key_down false o i = refl
  emit-key_down true o i = refl

  if-key_down :
      (b : Bool) (m : ℕ → Bool) (i j : Input F)
      → i.key_down ≡ m
      → j.key_down ≡ m
      → (if b then i else j).key_down ≡ m
  if-key_down true m i j p q = p
  if-key_down false m i j p q = q

  send_hid-key_down : (e : ℕ) (x : ℤ) (i : Input F) → (send_hid e x i).key_down ≡ i.key_down
  unfolding send_hid
  send_hid-key_down e x i = if-key_down _ i.key_down i _ refl (emit-key_down _ _ _)

  finish_first_run_touch-key_down : (i : Input F) → (finish_first_run_touch i).key_down ≡ i.key_down
  unfolding finish_first_run_touch persist_first_run_touch_state next_stage lift_first_run
      send_touch_end_sentinel send_touch_pixels
  finish_first_run_touch-key_down i =
      if-key_down i.first_run_touch_active i.key_down _ i
        (emit-key_down _ _ _
          ∙ if-key_down (i.first_run_touch_stage == stage_update_log) i.key_down _ _
              (send_hid-key_down hid_a (pos 0) i) (emit-key_down _ _ _ ∙ emit-key_down _ _ i))
        refl

  release_hids-key_down : (n e : ℕ) (i : Input F) → (release_hids n e i).key_down ≡ i.key_down
  unfolding release_hids release_hid
  release_hids-key_down zero e i = refl
  release_hids-key_down (suc n) e i =
      release_hids-key_down n (e + 1) _ ∙ if-key_down _ i.key_down _ i (emit-key_down _ _ _) refl

  close_handle-key_down :
      (h : ℕ) (n : Bool) (i : Input F) → (close_handle h n i).key_down ≡ i.key_down
  unfolding close_handle release_controller_state
  close_handle-key_down h n i =
      emit-key_down true (closed h) _
      ∙ (emit-key_down _ _ _
          ∙ (release_hids-key_down hid_last 1 _ ∙ finish_first_run_touch-key_down i))

  close_handle-hid_values :
      (h : ℕ) (n : Bool) (i : Input F) (e : ℕ) → (close_handle h n i).hid_values e ≡ pos 0
  unfolding close_handle release_controller_state emit
  close_handle-hid_values h n i e = ground arith

  release_keys-controller : (n k : ℕ) (i : Input F) → (release_keys n k i).controller ≡ i.controller
  unfolding release_keys release_key emit
  release_keys-controller zero k i = refl
  release_keys-controller (suc n) k i = release_keys-controller n (k + 1) _ ∙ (ground arith)

  release_keys-hid_values :
      (n k : ℕ) (i : Input F) (e : ℕ) → (release_keys n k i).hid_values e ≡ i.hid_values e
  unfolding release_keys release_key emit
  release_keys-hid_values zero k i e = refl
  release_keys-hid_values (suc n) k i e = release_keys-hid_values n (k + 1) _ e ∙ (ground arith)

-- A control's value after shutting down: 0, or the one it had where no controller was open.
unfoldable pub value_at_rest : Option ℕ → ℤ → ℤ
value_at_rest none value = value
value_at_rest (some handle) value = pos 0

module _ {F : Type 0} where
  closed_fields :
      (i : Input F) (k e : ℕ)
      → ((close_controller true i).key_down k ≡ i.key_down k)
        × ((close_controller true i).hid_values e ≡ value_at_rest i.controller (i.hid_values e))
  unfolding close_controller value_at_rest
  closed_fields i k e = by_handle i.controller
    where
      by_handle :
          (o : Option ℕ)
          → ((elim o as (λ c. Input F) [ none ↦ i | some h ↦ close_handle h true i ]).key_down k
              ≡ i.key_down k)
            × ((elim o as (λ c. Input F) [ none ↦ i | some h ↦ close_handle h true i ]).hid_values e
                ≡ value_at_rest o (i.hid_values e))
      by_handle none = (refl, refl)
      by_handle (some h) =
          (ap (λ f. f k) (close_handle-key_down h true i), close_handle-hid_values h true i e)

module _ (fl : Floats) where
  open fl use {F}

  -- Where the game's view agrees with the fields, `asm2_input_shutdown` leaves every key up in the
  -- game's view, and every control at 0 if a controller was open and as it was if none was.
  pub shutdown_lem :
      (i : Input F) (k e : ℕ)
      → Mirror i
      → (game_key k (shutdown fl i).sent ≡ false)
        × (game_hid e (shutdown fl i).sent ≡ value_at_rest i.controller (i.hid_values e))
  unfolding shutdown release_keyboard_state
  shutdown_lem i k e v =
      let a = release_keyboard_state i in
      let va : Mirror a = release_keyboard_state-Mirror i v in
      let b = release_mouse_touch a in
      let vb : Mirror b = release_mouse_touch-Mirror a va in
      let c = release_all_touches fl b in
      let vc : Mirror c = release_all_touches-Mirror fl b vb in
      let kept : Kept a c =
        Kept-trans a b c (release_mouse_touch-Kept a) (release_all_touches-Kept fl b) in
      let vd : Mirror (close_controller true c) = close_controller-Mirror true c vc in
      let handles : c.controller ≡ i.controller =
        kept.handles ∙ release_keys-controller (key_count - 1) 1 i in
      let fields = closed_fields c k e in
      (
        vd.keys_down k
            ∙ (fields.0 ∙ (ap (λ f. f k) kept.keys ∙ release_keyboard_state-false i v k)),
        vd.controls e
            ∙ (fields.1
                ∙ (ap (λ o. value_at_rest o (c.hid_values e)) handles
                    ∙ ap (value_at_rest i.controller) (
                        ap (λ f. f e) kept.values
                        ∙ release_keys-hid_values (key_count - 1) 1 i e))),
      )
