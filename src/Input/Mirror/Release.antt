-- ===== src/Input/Mirror/Release.antt =====
-- Releasing the controls and the keys tells the game that each is at rest.
use tasm2_nextos.Prelude.{
  ℕ, zero, suc, ◌+◌, ◌-◌, ◌≤◌, ◌<◌, ◌==◌, ◌≡◌, refl, ◌⊎◌, inl, inr, ◌∙◌, Bool, true, false, not,
  ◌&&◌, some, arith, if◌then◌else◌, update, Bool-cases,
}
use tasm2_nextos.Prelude.Int.{ℤ, pos, eqb_ℤ}
use tasm2_nextos.FirstAccept.{stage_update_log}
use tasm2_nextos.Input.State.{hid, Input, emit, unit}
use tasm2_nextos.Input.Hid.{
  hid_last, hid_a, send_touch_pixels, send_touch_end_sentinel, persist_first_run_touch_state,
  lift_first_run, next_stage, finish_first_run_touch, begin_first_run_touch, touch_first_run,
  release_hid, release_hids, release_controller_state,
}
use tasm2_nextos.Input.Touch.{key_count, release_key, release_keys, release_keyboard_state}
use tasm2_nextos.Input.Mirror.View.{Mirror, emit-true, emit-Mirror, send_hid-Mirror, key-Mirror}

zero_of : (x : ℤ) → eqb_ℤ x (pos 0) ≡ true → x ≡ pos 0
zero_of x e = ground arith

module _ {F : Type 0} where
  -- A step that one test guards.
  pub if-Mirror : (b : Bool) (i j : Input F) → Mirror i → Mirror j → Mirror (if b then i else j)
  if-Mirror true i j v w = v
  if-Mirror false i j v w = w

  pub lift_first_run-Mirror : (i : Input F) → Mirror i → Mirror (lift_first_run i)
  unfolding lift_first_run send_touch_pixels send_touch_end_sentinel
  lift_first_run-Mirror i v = elim (Bool-cases (i.first_run_touch_stage == stage_update_log)) [
    | inl e ↦ rw e (send_hid-Mirror hid_a (pos 0) i v)
    | inr e ↦ rw e (emit-Mirror _ _ _ tt (emit-Mirror _ _ i tt v))
  ]

  pub finish_first_run_touch-Mirror : (i : Input F) → Mirror i → Mirror (finish_first_run_touch i)
  unfolding finish_first_run_touch persist_first_run_touch_state next_stage
  finish_first_run_touch-Mirror i v =
      if-Mirror i.first_run_touch_active _ i (emit-Mirror _ _ _ tt (lift_first_run-Mirror i v)) v

  pub begin_first_run_touch-Mirror :
      (b : ℕ) (i : Input F) → Mirror i → Mirror (begin_first_run_touch b i)
  unfolding begin_first_run_touch touch_first_run send_touch_pixels
  begin_first_run_touch-Mirror b i v =
      elim (Bool-cases (i.first_run_touch_stage == stage_update_log)) [
        | inl e ↦ rw e (
            send_hid-Mirror hid_a (pos unit)
              (record i { first_run_touch_active = true; first_run_touch_button = some b }) v)
        | inr e ↦ rw e (emit-Mirror _ _ _ tt v)
      ]

  release_hid-Mirror : (e : ℕ) (i : Input F) → Mirror i → Mirror (release_hid e i)
  unfolding release_hid
  release_hid-Mirror e i v =
      elim (Bool-cases (i.hid_sent e && not (eqb_ℤ (i.hid_values e) (pos 0)))) [
        | inr skip ↦ rw skip v
        | inl held ↦
            rw
              (
                held,
                emit-true i.callbacks.hid (hid e (pos 0))
                    (record i { hid_values = update i.hid_values e (pos 0) }) v.hid_on,
              )
              (record {
                hid_on = v.hid_on;
                key_on = v.key_on;
                controls = λ d. ground (arith, v.controls d);
                unsent = λ d h. ground (arith, v.unsent d);
                control_range = v.control_range;
                keys_down = v.keys_down;
                key_range = v.key_range;
              })
      ]

  release_hid_self : (e : ℕ) (i : Input F) → Mirror i → (release_hid e i).hid_values e ≡ pos 0
  unfolding release_hid emit
  release_hid_self e i v = ground (arith, v.unsent e, zero_of (i.hid_values e))

  release_hid_zero :
      (e d : ℕ) (i : Input F) → i.hid_values d ≡ pos 0 → (release_hid e i).hid_values d ≡ pos 0
  unfolding release_hid emit
  release_hid_zero e d i z = ground arith

  release_hids-Mirror : (n e : ℕ) (i : Input F) → Mirror i → Mirror (release_hids n e i)
  unfolding release_hids
  release_hids-Mirror zero e i v = v
  release_hids-Mirror (suc n) e i v =
      release_hids-Mirror n (e + 1) (release_hid e i) (release_hid-Mirror e i v)

  release_hids_zero :
      (n e d : ℕ) (i : Input F)
      → Mirror i
      → (i.hid_values d ≡ pos 0) ⊎ ((e ≤ d) × (d < e + n))
      → (release_hids n e i).hid_values d ≡ pos 0
  unfolding release_hids
  release_hids_zero zero e d i v (inl z) = z
  release_hids_zero zero e d i v (inr (lo, hi)) = absurd (omega arith)
  release_hids_zero (suc n) e d i v (inl z) =
      release_hids_zero n (e + 1) d (release_hid e i) (release_hid-Mirror e i v)
        (inl (release_hid_zero e d i z))
  release_hids_zero (suc n) e d i v (inr (lo, hi)) = elim (Bool-cases (d == e)) [
    | inl q ↦
        release_hids_zero n (e + 1) d (release_hid e i) (release_hid-Mirror e i v)
          (inl (ground (arith, release_hid_self e i v)))
    | inr q ↦
        release_hids_zero n (e + 1) d (release_hid e i) (release_hid-Mirror e i v)
          (inr (ground arith, ground arith))
  ]

  all_released :
      (i : Input F) → Mirror i → (d : ℕ) → (release_hids hid_last 1 i).hid_values d ≡ pos 0
  all_released i v d = elim (Bool-cases (i.hid_sent d)) [
    | inl e ↦
        release_hids_zero hid_last 1 d i v
          (inr ((v.control_range d e).0, omega (arith, (v.control_range d e).1)))
    | inr e ↦ release_hids_zero hid_last 1 d i v (inl (v.unsent d e))
  ]

  -- The controls that were sent are told to be 0, and the fields agree with that.
  pub release_controller_state-Mirror :
      (i : Input F) → Mirror i → Mirror (release_controller_state i)
  unfolding release_controller_state
  release_controller_state-Mirror i v =
      let f = finish_first_run_touch i in
      let vf : Mirror f = finish_first_run_touch-Mirror i v in
      let w : Mirror (release_hids hid_last 1 f) = release_hids-Mirror hid_last 1 f vf in
      record {
        hid_on = w.hid_on;
        key_on = w.key_on;
        controls = λ d. w.controls d ∙ all_released f vf d;
        unsent = λ d h. refl;
        control_range = λ d h. cc;
        keys_down = w.keys_down;
        key_range = w.key_range;
      }

  release_key-Mirror : (k : ℕ) (i : Input F) → Mirror i → Mirror (release_key k i)
  unfolding release_key
  release_key-Mirror k i v = elim (Bool-cases (i.key_down k)) [
    | inl e ↦ rw e (key-Mirror k false i (v.key_range k e).0 (v.key_range k e).1 v)
    | inr e ↦ rw e v
  ]

  release_key_self : (k : ℕ) (i : Input F) → (release_key k i).key_down k ≡ false
  unfolding release_key emit
  release_key_self k i = ground arith

  release_key-false :
      (k j : ℕ) (i : Input F) → i.key_down j ≡ false → (release_key k i).key_down j ≡ false
  unfolding release_key emit
  release_key-false k j i z = ground arith

  release_keys-Mirror : (n k : ℕ) (i : Input F) → Mirror i → Mirror (release_keys n k i)
  unfolding release_keys
  release_keys-Mirror zero k i v = v
  release_keys-Mirror (suc n) k i v =
      release_keys-Mirror n (k + 1) (release_key k i) (release_key-Mirror k i v)

  release_keys-false :
      (n k j : ℕ) (i : Input F)
      → (i.key_down j ≡ false) ⊎ ((k ≤ j) × (j < k + n))
      → (release_keys n k i).key_down j ≡ false
  unfolding release_keys
  release_keys-false zero k j i (inl z) = z
  release_keys-false zero k j i (inr (lo, hi)) = absurd (omega arith)
  release_keys-false (suc n) k j i (inl z) =
      release_keys-false n (k + 1) j (release_key k i) (inl (release_key-false k j i z))
  release_keys-false (suc n) k j i (inr (lo, hi)) = elim (Bool-cases (j == k)) [
    | inl q ↦
        release_keys-false n (k + 1) j (release_key k i)
          (inl (ground (arith, release_key_self k i)))
    | inr q ↦ release_keys-false n (k + 1) j (release_key k i) (inr (ground arith, ground arith))
  ]

  pub release_keyboard_state-Mirror : (i : Input F) → Mirror i → Mirror (release_keyboard_state i)
  unfolding release_keyboard_state
  release_keyboard_state-Mirror i v = release_keys-Mirror (key_count - 1) 1 i v

  -- No key is down afterwards.
  pub release_keyboard_state-false :
      (i : Input F) → Mirror i → (j : ℕ) → (release_keyboard_state i).key_down j ≡ false
  unfolding release_keyboard_state
  release_keyboard_state-false i v j = elim (Bool-cases (i.key_down j)) [
    | inl e ↦
        release_keys-false (key_count - 1) 1 j i
          (inr ((v.key_range j e).0, omega (arith, (v.key_range j e).1)))
    | inr e ↦ release_keys-false (key_count - 1) 1 j i (inl e)
  ]
