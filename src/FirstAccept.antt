-- ===== src/FirstAccept.antt =====
-- asm2_127/src/first_accept.c: where the first-run dialogs are touched, and at which stage a
-- restarted sequence goes on. Extents are C ints; the products are in `int64_t` and do not overflow.
pub mod Bounds
use tasm2_nextos.Prelude.{ℕ, ◌+◌, ◌*◌, ◌/◌, ◌==◌, ltb, leb, Bool, if◌then◌else◌}
use tasm2_nextos.Prelude.Int.{ℤ, pos, negsuc}

-- `ASM2_FIRST_RUN_TOUCH_LEGAL` and its kin
abbrev pub stage_legal : ℕ
stage_legal = 0

abbrev pub stage_update_log : ℕ
stage_update_log = 1

abbrev pub stage_cloud_notice : ℕ
stage_cloud_notice = 2

abbrev pub stage_complete : ℕ
stage_complete = 3

-- `positive_extent`
unfoldable pub positive_extent : ℤ → ℕ
positive_extent (pos n) = if n == 0 then 1 else n
positive_extent (negsuc n) = 1

-- `is_square_layout`
unfoldable pub is_square_layout : ℕ → ℕ → Bool
is_square_layout width height = leb (width * 8) (height * 9)

-- `vertical_thousandths`
unfoldable pub vertical_thousandths : ℕ → ℕ → ℕ
unfolding is_square_layout
vertical_thousandths width height =
    if is_square_layout width height then 675 else if leb (width * 2) (height * 3) then 790 else 883

-- `asm2_first_accept_position` for two pointers that are not NULL
unfoldable pub first_accept_position : ℤ → ℤ → ℕ × ℕ
unfolding positive_extent vertical_thousandths
first_accept_position drawable_width drawable_height =
    let width = positive_extent drawable_width in
    let height = positive_extent drawable_height in
    (width / 2, height * vertical_thousandths width height / 1000)

-- `asm2_first_run_touch_position` for two pointers that are not NULL
unfoldable pub first_run_touch_position : ℕ → ℤ → ℤ → ℕ × ℕ
unfolding first_accept_position
first_run_touch_position stage drawable_width drawable_height =
    let width = positive_extent drawable_width in
    let height = positive_extent drawable_height in
    if stage == stage_cloud_notice
    then (width / 2, height / 2 + width * 3 / 32)
    else first_accept_position (pos width) (pos height)

-- `asm2_first_accept_legacy_marker_requires_retry`
unfoldable pub legacy_marker_requires_retry : ℤ → ℤ → Bool
unfolding positive_extent is_square_layout
legacy_marker_requires_retry drawable_width drawable_height =
    is_square_layout (positive_extent drawable_width) (positive_extent drawable_height)

-- `asm2_first_run_resume_stage`
unfoldable pub resume_stage : ℤ → ℕ
resume_stage (pos stored) = if ltb stored stage_complete then stored else stage_legal
resume_stage (negsuc n) = stage_legal
