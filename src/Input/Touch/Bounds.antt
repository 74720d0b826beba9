-- ===== src/Input/Touch/Bounds.antt =====
-- The coordinates that `pixel_coordinate` and `mouse_drawable_coordinate` give lie on the screen.
use tasm2_nextos.Prelude.{
  ℕ, ◌-◌, ◌≤◌, ◌<◌, ◌==◌, ltb, ◌≡◌, false, arith, if◌then◌else◌, Bool-cases, inl, inr,
}
use tasm2_nextos.Prelude.Int.{ℤ, pos, negsuc, ltb_ℤ}
use tasm2_nextos.Input.State.{Floats, Input, Sdl}
use tasm2_nextos.Input.Hid.{clamp_pixel_coordinate}
use tasm2_nextos.Input.Touch.{pixel_coordinate, mouse_drawable_x, mouse_drawable_y}

clamp_pixel_coordinate_lt :
    (c : ℤ) (extent : ℕ) → 1 ≤ extent → clamp_pixel_coordinate c extent < extent
unfolding clamp_pixel_coordinate
clamp_pixel_coordinate_lt (pos n) extent h = ground arith
clamp_pixel_coordinate_lt (negsuc n) extent h = ground arith

-- On a drawable with positive sizes the mouse's coordinates are inside it, whatever the event and
-- the window's size are.
mouse_drawable_lt :
    {F : Type 0} (sdl : Sdl) (window : ℕ) (x y : ℤ) (i : Input F)
    → 1 ≤ i.drawable_width
    → 1 ≤ i.drawable_height
    → (mouse_drawable_x sdl window x i < i.drawable_width)
      × (mouse_drawable_y sdl window y i < i.drawable_height)
unfolding mouse_drawable_x mouse_drawable_y
mouse_drawable_lt sdl window x y i hw hh = (
  clamp_pixel_coordinate_lt _ i.drawable_width hw,
  clamp_pixel_coordinate_lt _ i.drawable_height hh,
)

below :
    (p : ℤ) (extent : ℕ)
    → 1 ≤ extent
    → ltb_ℤ p (pos 0) ≡ false
    → (n : ℕ) × (n < extent) × ((if ltb_ℤ p (pos extent) then p else pos (extent - 1)) ≡ pos n)
below (negsuc n) extent h e = absurd (ground arith)
below (pos n) extent h e = elim (Bool-cases (ltb n extent)) [
  | inl t ↦ (n, ground arith, ground arith)
  | inr t ↦ (extent - 1, omega (arith, h), ground arith)
]

module _ (fl : Floats) where
  open fl use {F}

  -- Neither of the code's comparisons with 0 and 1 holds.
  abbrev pub IsUnit : F → Type 0
  IsUnit v = (fl.negative v ≡ false) × (fl.above_one v ≡ false)

  capped-IsUnit :
      (v : F)
      → fl.negative v ≡ false
      → IsUnit fl.one
      → IsUnit (if fl.above_one v then fl.one else v)
  capped-IsUnit v n one = elim (Bool-cases (fl.above_one v)) [
    | inl e ↦ rw e one
    | inr e ↦ rw e (n, e)
  ]

  floored_negative :
      (v : F) → IsUnit fl.zero → fl.negative (if fl.negative v then fl.zero else v) ≡ false
  floored_negative v zero = elim (Bool-cases (fl.negative v)) [
    | inl e ↦ rw e zero.0
    | inr e ↦ rw e e
  ]

  -- On a positive extent a finger's coordinate becomes a pixel inside it, if 0 and 1 are neither
  -- below 0 nor above 1, and the product of a number between 0 and 1 with an extent, truncated, is
  -- not negative. For a NaN, which passes both comparisons, that is asked too.
  pixel_coordinate_lt :
      (v : F) (extent : ℕ)
      → 1 ≤ extent
      → IsUnit fl.zero
      → IsUnit fl.one
      → ((w : F) (e : ℕ) → IsUnit w → ltb_ℤ (fl.to_pixel w e) (pos 0) ≡ false)
      → (n : ℕ) × (n < extent) × (pixel_coordinate fl v extent ≡ pos n)
  unfolding pixel_coordinate
  pixel_coordinate_lt v extent h zero one sign = rw zero_test (
      below (fl.to_pixel normalized extent) extent h
        (sign normalized extent (capped-IsUnit low (floored_negative v zero) one)))
    where
      low : F
      low = if fl.negative v then fl.zero else v

      normalized : F
      normalized = if fl.above_one low then fl.one else low

      zero_test : (extent == 0) ≡ false
      zero_test = ground arith
