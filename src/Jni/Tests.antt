-- ===== src/Jni/Tests.antt =====
-- The theorem at a string with a pair, a single surrogate and letters.
use tasm2_nextos.Prelude.{ℕ, ◌<◌, ◌≡◌, List, [], ◌∷◌, All, arith}
use tasm2_nextos.Jni.Text.{fill_utf16, utf16_to_utf8}
use tasm2_nextos.Jni.Codec.{fill_utf16-utf16_to_utf8}

abbrev some_units : List ℕ
some_units = 65 ∷ 55357 ∷ 56832 ∷ 55357 ∷ 8364 ∷ 233 ∷ []

units_valid : All (λ u. (0 < u) × (u < 65536)) some_units
units_valid = (
  (omega arith, omega arith),
  (
    (omega arith, omega arith),
    (
      (omega arith, omega arith),
      ((omega arith, omega arith), ((omega arith, omega arith), ((omega arith, omega arith), tt))),
    ),
  ),
)

fill_utf16-utf16_to_utf8_example : fill_utf16 0 (utf16_to_utf8 some_units) ≡ some_units
fill_utf16-utf16_to_utf8_example = fill_utf16-utf16_to_utf8 some_units units_valid
