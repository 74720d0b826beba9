-- ===== src/FirstAccept/Bounds.antt =====
-- The positions that first_accept.c computes lie on the screen.
use tasm2_nextos.Prelude.{ℕ, ◌*◌, ◌/◌, ◌≤◌, ◌<◌, ◌≡◌, true, arith, ◌⊎◌, inr, ◌||◌, refl}
use tasm2_nextos.Prelude.Int.{ℤ, pos, negsuc, ltb_ℤ, leb_ℤ}
use tasm2_nextos.FirstAccept.{
  stage_legal, stage_complete, positive_extent, is_square_layout, vertical_thousandths,
  first_accept_position, first_run_touch_position, resume_stage,
}

positive_extent_pos : (n : ℤ) → 1 ≤ positive_extent n
unfolding positive_extent
positive_extent_pos (pos n) = ground arith
positive_extent_pos (negsuc n) = ground arith

thousandths_bounds : (w h : ℕ) → (675 ≤ vertical_thousandths w h) × (vertical_thousandths w h ≤ 883)
unfolding vertical_thousandths is_square_layout
thousandths_bounds w h = ground arith

scaled_lt : (h t : ℕ) → 1 ≤ h → t ≤ 883 → h * t / 1000 < h
scaled_lt h t hh ht = grind arith

-- On any drawable the point that accepts the terms is inside it, also if SDL gave no positive size.
first_accept_position_bounds :
    (w h : ℤ)
    → ((first_accept_position w h).0 < positive_extent w)
      × ((first_accept_position w h).1 < positive_extent h)
unfolding first_accept_position
first_accept_position_bounds w h = (
  omega (arith, positive_extent_pos w),
  scaled_lt (positive_extent h) (vertical_thousandths (positive_extent w) (positive_extent h))
      (positive_extent_pos h) (thousandths_bounds (positive_extent w) (positive_extent h)).1,
)

positive_extent_of_pos : (n : ℕ) → 1 ≤ n → positive_extent (pos n) ≡ n
unfolding positive_extent
positive_extent_of_pos n h = ground arith

-- Every first-run dialog's point is inside the drawable, if that is less than 16/3 times as wide as
-- high.
first_run_touch_position_bounds :
    (stage w h : ℕ)
    → 1 ≤ w
    → 2 ≤ h
    → w * 3 < h * 16
    → ((first_run_touch_position stage (pos w) (pos h)).0 < w)
      × ((first_run_touch_position stage (pos w) (pos h)).1 < h)
unfolding first_run_touch_position
first_run_touch_position_bounds stage w h hw hh aspect =
    rw (positive_extent_of_pos w hw, positive_extent_of_pos h (omega arith))
      (ground (arith, legal.0, legal.1))
  where
    legal :
        ((first_accept_position (pos w) (pos h)).0 < w)
        × ((first_accept_position (pos w) (pos h)).1 < h)
    legal =
        let b = first_accept_position_bounds (pos w) (pos h) in
        (
          omega (arith, b.0, positive_extent_of_pos w hw),
          omega (arith, b.1, positive_extent_of_pos h (omega arith)),
        )

-- The stage that a restart resumes is before COMPLETE, and is the stored one, or else LEGAL where
-- the stored one is negative or not before COMPLETE.
resume_stage_lem :
    (stored : ℤ)
    → (resume_stage stored < stage_complete)
      × ((stored ≡ pos (resume_stage stored))
          ⊎ ((resume_stage stored ≡ stage_legal)
              × (ltb_ℤ stored (pos 0) || leb_ℤ (pos stage_complete) stored) ≡ true))
unfolding resume_stage
resume_stage_lem (pos k) = ground arith
resume_stage_lem (negsuc k) = (ground arith, inr (refl, ground arith))
