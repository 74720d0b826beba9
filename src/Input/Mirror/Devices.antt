-- ===== src/Input/Mirror/Devices.antt =====
-- Opening and closing a controller and the mouse keep the game's view of the controls and the keys.
use tasm2_nextos.Prelude.{
  ℕ, zero, suc, ◌+◌, sym, subst, Bool, true, false, not, ◌||◌, Option, none, some, Option-cases,
  inl, inr,
}
use tasm2_nextos.Prelude.Int.{ℤ, pos, negsuc, ltb_ℤ}
use tasm2_nextos.Input.State.{Action, up, down, move, closed, Input, Sdl}
use tasm2_nextos.Input.Hid.{
  send_touch_pixels, send_touch_end_sentinel, close_handle, close_controller, adopt_controller,
  open_device, open_controller, open_from, open_first_controller,
}
use tasm2_nextos.Input.Touch.{
  mouse_drawable_x, mouse_drawable_y, lift_mouse, press_mouse, handle_mouse_button,
  handle_mouse_motion, release_mouse_touch,
}
use tasm2_nextos.Input.Mirror.View.{Mirror, emit-Mirror}
use tasm2_nextos.Input.Mirror.Release.{if-Mirror, release_controller_state-Mirror}

module _ {F : Type 0} where
  close_handle-Mirror : (h : ℕ) (n : Bool) (i : Input F) → Mirror i → Mirror (close_handle h n i)
  unfolding close_handle
  close_handle-Mirror h n i v =
      emit-Mirror true (closed h) _ tt (emit-Mirror _ _ _ tt (release_controller_state-Mirror i v))

  optional-Mirror :
      {A : Type 0} (o : Option A) (i : Input F) (f : A → Input F)
      → Mirror i
      → ((a : A) → Mirror (f a))
      → Mirror (elim o [ none ↦ i | some a ↦ f a ])
  optional-Mirror none i f v w = v
  optional-Mirror (some a) i f v w = w a

  pub close_controller-Mirror : (n : Bool) (i : Input F) → Mirror i → Mirror (close_controller n i)
  unfolding close_controller
  close_controller-Mirror n i v =
      optional-Mirror i.controller i (λ h. close_handle h n i) v (λ h. close_handle-Mirror h n i v)

  adopt_controller-Mirror :
      (h : ℕ) (k : ℤ) (i : Input F) → Mirror i → Mirror (adopt_controller h k i)
  unfolding adopt_controller
  adopt_controller-Mirror h k i v =
      if-Mirror (ltb_ℤ k (pos 0)) _ _ (emit-Mirror true (closed h) i tt v)
        (emit-Mirror _ _ (record i { controller = some h; instance_id = k }) tt v)

  open_device-Mirror : (sdl : Sdl) (n : ℕ) (i : Input F) → Mirror i → Mirror (open_device sdl n i)
  unfolding open_device
  open_device-Mirror sdl n i v =
      if-Mirror (sdl.is_game_controller n) _ i
        (optional-Mirror (sdl.open_handle n) i (λ h. adopt_controller h (sdl.instance_of h) i) v
          (λ h. adopt_controller-Mirror h (sdl.instance_of h) i v))
        v

  pub open_controller-Mirror :
      (sdl : Sdl) (n : ℤ) (i : Input F) → Mirror i → Mirror (open_controller sdl n i)
  unfolding open_controller
  open_controller-Mirror sdl (negsuc n) i v = v
  open_controller-Mirror sdl (pos n) i v = elim (Option-cases i.controller) [
    | inl e ↦
        subst (λ o. Mirror (elim o [ some h ↦ i | none ↦ open_device sdl n i ])) (sym e)
          (open_device-Mirror sdl n i v)
    | inr (h, e) ↦
        subst (λ o. Mirror (elim o [ some h ↦ i | none ↦ open_device sdl n i ])) (sym e) v
  ]

  settled-Mirror :
      {A : Type 0} (o : Option A) (i j : Input F)
      → Mirror i
      → Mirror j
      → Mirror (elim o [ some a ↦ i | none ↦ j ])
  settled-Mirror none i j v w = w
  settled-Mirror (some a) i j v w = v

  open_from-Mirror : (sdl : Sdl) (n k : ℕ) (i : Input F) → Mirror i → Mirror (open_from sdl n k i)
  unfolding open_from
  open_from-Mirror sdl zero k i v = v
  open_from-Mirror sdl (suc n) k i v =
      let w : Mirror (open_controller sdl (pos k) i) = open_controller-Mirror sdl (pos k) i v in
      settled-Mirror (open_controller sdl (pos k) i).controller _ _ w
        (open_from-Mirror sdl n (k + 1) _ w)

  pub open_first_controller-Mirror :
      (sdl : Sdl) (i : Input F) → Mirror i → Mirror (open_first_controller sdl i)
  unfolding open_first_controller
  open_first_controller-Mirror sdl i v =
      settled-Mirror i.controller i _ v (open_from-Mirror sdl sdl.joystick_count 0 i v)

  pub pixels-Mirror :
      (a : Action) (x y : ℤ) (p : ℕ) (i : Input F) → Mirror i → Mirror (send_touch_pixels a x y p i)
  unfolding send_touch_pixels
  pixels-Mirror a x y p i v = emit-Mirror _ _ i tt v

  pub sentinel-Mirror : (i : Input F) → Mirror i → Mirror (send_touch_end_sentinel i)
  unfolding send_touch_end_sentinel
  sentinel-Mirror i v = emit-Mirror _ _ i tt v

  lift_mouse-Mirror : (x y : ℕ) (i : Input F) → Mirror i → Mirror (lift_mouse x y i)
  unfolding lift_mouse
  lift_mouse-Mirror x y i v = sentinel-Mirror _ (pixels-Mirror up (pos x) (pos y) 0 i v)

  press_mouse-Mirror : (p : Bool) (x y : ℕ) (i : Input F) → Mirror i → Mirror (press_mouse p x y i)
  unfolding press_mouse
  press_mouse-Mirror true x y i v =
      if-Mirror i.mouse_pressed i _ v
        (pixels-Mirror down (pos x) (pos y) 0 (record i { mouse_pressed = true }) v)
  press_mouse-Mirror false x y i v = if-Mirror i.mouse_pressed _ i (lift_mouse-Mirror x y i v) v

  pub handle_mouse_button-Mirror :
      (sdl : Sdl) (p t l : Bool) (w : ℕ) (x y : ℤ) (i : Input F)
      → Mirror i
      → Mirror (handle_mouse_button sdl p t l w x y i)
  unfolding handle_mouse_button
  handle_mouse_button-Mirror sdl p t l w x y i v = if-Mirror (t || not l) i _ v (
      press_mouse-Mirror p _ _
        (record i { mouse_x = mouse_drawable_x sdl w x i; mouse_y = mouse_drawable_y sdl w y i }) v)

  pub handle_mouse_motion-Mirror :
      (sdl : Sdl) (t : Bool) (w : ℕ) (x y : ℤ) (i : Input F)
      → Mirror i
      → Mirror (handle_mouse_motion sdl t w x y i)
  unfolding handle_mouse_motion
  handle_mouse_motion-Mirror sdl t w x y i v = if-Mirror (t || not i.mouse_pressed) i _ v (
      pixels-Mirror move _ _ 0
        (record i { mouse_x = mouse_drawable_x sdl w x i; mouse_y = mouse_drawable_y sdl w y i }) v)

  pub release_mouse_touch-Mirror : (i : Input F) → Mirror i → Mirror (release_mouse_touch i)
  unfolding release_mouse_touch
  release_mouse_touch-Mirror i v =
      if-Mirror i.mouse_pressed _ i (lift_mouse-Mirror i.mouse_x i.mouse_y i v) v
