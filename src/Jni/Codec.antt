-- ===== src/Jni/Codec.antt =====
-- UTF-16 survives the way through UTF-8.
use tasm2_nextos.Prelude.{
  ℕ, ◌+◌, ◌-◌, ◌*◌, ◌/◌, ◌%◌, ◌≤◌, ◌<◌, ◌==◌, ltb, leb, ltb→lt, ◌≡◌, refl, sym, ap, ◌∙◌, Bool, true,
  false, List, [], ◌∷◌, ◌++◌, append-nil, if◌then◌else◌, All, arith,
}
use tasm2_nextos.Jni.Text.{
  byte_at, is_continuation, leads_two, leads_three, leads_four, utf8_codepoint, utf16_units,
  fill_utf16, utf8_bytes, is_pair, utf16_to_utf8,
}

-- Decoding what a code point was encoded to.
module _ (c : ℕ) (text : List ℕ) where
  decode_one : c < 128 → utf8_codepoint (c ∷ text) ≡ (c, 1)
  unfolding utf8_codepoint byte_at
  decode_one h = ground arith

  decode_two : 128 ≤ c → c < 2048 → utf8_codepoint ((192 + c / 64) ∷ (128 + c % 64) ∷ text) ≡ (c, 2)
  unfolding utf8_codepoint byte_at leads_two is_continuation
  decode_two l h = rw (large, lead, next, value) refl
    where
      large : ltb (192 + c / 64) 128 ≡ false
      large = ground arith

      lead : ((192 + c / 64) / 32 == 6) ≡ true
      lead = ground (arith, h)

      next : ((128 + c % 64) / 64 == 2) ≡ true
      next = ground arith

      value : (192 + c / 64) % 32 * 64 + (128 + c % 64) % 64 ≡ c
      value = omega (arith, h)

  decode_three :
      2048 ≤ c
      → c < 65536
      → utf8_codepoint ((224 + c / 4096) ∷ (128 + c / 64 % 64) ∷ (128 + c % 64) ∷ text) ≡ (c, 3)
  unfolding utf8_codepoint byte_at leads_two leads_three is_continuation
  decode_three l h = rw (large, not_two, lead, next, last, value) refl
    where
      large : ltb (224 + c / 4096) 128 ≡ false
      large = ground arith

      not_two : ((224 + c / 4096) / 32 == 6) ≡ false
      not_two = ground (arith, h)

      lead : ((224 + c / 4096) / 16 == 14) ≡ true
      lead = ground (arith, h)

      next : ((128 + c / 64 % 64) / 64 == 2) ≡ true
      next = ground arith

      last : ((128 + c % 64) / 64 == 2) ≡ true
      last = ground arith

      value : (224 + c / 4096) % 16 * 4096 + (128 + c / 64 % 64) % 64 * 64 + (128 + c % 64) % 64 ≡ c
      value = omega (arith, h)

  decode_four :
      65536 ≤ c
      → c < 1114112
      → utf8_codepoint
          ((240 + c / 262144) ∷ (128 + c / 4096 % 64) ∷ (128 + c / 64 % 64) ∷ (128 + c % 64) ∷ text)
        ≡ (c, 4)
  unfolding utf8_codepoint byte_at leads_two leads_three leads_four is_continuation
  decode_four l h = rw (large, not_two, not_three, lead, next, third, last, value) refl
    where
      large : ltb (240 + c / 262144) 128 ≡ false
      large = ground arith

      not_two : ((240 + c / 262144) / 32 == 6) ≡ false
      not_two = ground (arith, h)

      not_three : ((240 + c / 262144) / 16 == 14) ≡ false
      not_three = ground (arith, h)

      lead : ((240 + c / 262144) / 8 == 30) ≡ true
      lead = ground (arith, h)

      next : ((128 + c / 4096 % 64) / 64 == 2) ≡ true
      next = ground arith

      third : ((128 + c / 64 % 64) / 64 == 2) ≡ true
      third = ground arith

      last : ((128 + c % 64) / 64 == 2) ≡ true
      last = ground arith

      value :
          (240 + c / 262144) % 8 * 262144
            + (128 + c / 4096 % 64) % 64 * 4096
            + (128 + c / 64 % 64) % 64 * 64
            + (128 + c % 64) % 64
          ≡ c
      value = omega (arith, h)

-- What the decoder does at the first byte of a text.
fill_step :
    (b : ℕ) (text : List ℕ) (q : ℕ × ℕ)
    → utf8_codepoint (b ∷ text) ≡ q
    → fill_utf16 0 (b ∷ text) ≡ utf16_units q.0 ++ fill_utf16 (q.1 - 1) text
unfolding fill_utf16
fill_step b text q e = ap (λ q. utf16_units q.0 ++ fill_utf16 (q.1 - 1) text) e

-- A code point that was encoded is decoded to its units.
fill_utf16-utf8_bytes :
    (c : ℕ) (rest : List ℕ)
    → c < 1114112
    → fill_utf16 0 (utf8_bytes c ++ rest) ≡ utf16_units c ++ fill_utf16 0 rest
unfolding utf8_bytes fill_utf16
fill_utf16-utf8_bytes c rest h = choose (ltb c 128) (ltb c 2048) (ltb c 65536) refl refl refl
  where
    choose :
        (x y z : Bool)
        → ltb c 128 ≡ x
        → ltb c 2048 ≡ y
        → ltb c 65536 ≡ z
        → fill_utf16 0 (
            (if x
              then c ∷ []
              else if y
              then (192 + c / 64) ∷ (128 + c % 64) ∷ []
              else if z
              then (224 + c / 4096) ∷ (128 + c / 64 % 64) ∷ (128 + c % 64) ∷ []
              else (240 + c / 262144)
                ∷ (128 + c / 4096 % 64)
                ∷ (128 + c / 64 % 64)
                ∷ (128 + c % 64)
                ∷ [])
            ++ rest)
          ≡ utf16_units c ++ fill_utf16 0 rest
    choose true y z e f g = fill_step c rest (c, 1) (decode_one c rest (ltb→lt c 128 e))
    choose false true z e f g =
        fill_step (192 + c / 64) _ (c, 2) (decode_two c rest (ground (arith, e)) (ltb→lt c 2048 f))
    choose false false true e f g =
        fill_step (224 + c / 4096) _ (c, 3)
          (decode_three c rest (ground (arith, f)) (ltb→lt c 65536 g))
    choose false false false e f g =
        fill_step (240 + c / 262144) _ (c, 4) (decode_four c rest (ground (arith, g)) h)

single_unit : (u : ℕ) → u < 65536 → utf16_units u ≡ u ∷ []
unfolding utf16_units
single_unit u h = rw (small) refl
  where
    small : leb u 65535 ≡ true
    small = ground (arith, h)

paired_units :
    (u v : ℕ)
    → is_pair u v ≡ true
    → utf16_units (65536 + (u - 55296) * 1024 + (v - 56320)) ≡ u ∷ v ∷ []
unfolding utf16_units is_pair
paired_units u v e = rw (large, high, low) refl
  where
    ranges : (u / 1024 ≡ 54) × (v / 1024 ≡ 55)
    ranges = ground (arith, e)

    large : leb (65536 + (u - 55296) * 1024 + (v - 56320)) 65535 ≡ false
    large = ground arith

    high : 55296 + (65536 + (u - 55296) * 1024 + (v - 56320) - 65536) / 1024 ≡ u
    high = omega (arith, ranges.0, ranges.1)

    low : 56320 + (65536 + (u - 55296) * 1024 + (v - 56320) - 65536) % 1024 ≡ v
    low = omega (arith, ranges.0, ranges.1)

paired_small : (u v : ℕ) → is_pair u v ≡ true → 65536 + (u - 55296) * 1024 + (v - 56320) < 1114112
unfolding is_pair
paired_small u v e = ground (arith, e)

single_fill :
    (u : ℕ) (rest : List ℕ)
    → u < 65536
    → fill_utf16 0 (utf8_bytes u ++ rest) ≡ u ∷ fill_utf16 0 rest
single_fill u rest h =
    fill_utf16-utf8_bytes u rest (omega (arith, h))
    ∙ ap (λ z. z ++ fill_utf16 0 rest) (single_unit u h)

paired_fill :
    (u v : ℕ) (rest : List ℕ)
    → is_pair u v ≡ true
    → fill_utf16 0 (utf8_bytes (65536 + (u - 55296) * 1024 + (v - 56320)) ++ rest)
      ≡ u ∷ v ∷ fill_utf16 0 rest
paired_fill u v rest e =
    fill_utf16-utf8_bytes (65536 + (u - 55296) * 1024 + (v - 56320)) rest (paired_small u v e)
    ∙ ap (λ z. z ++ fill_utf16 0 rest) (paired_units u v e)

-- Either way of going on after a unit.
branch_fill :
    (b : Bool) (u v : ℕ) (units : List ℕ)
    → is_pair u v ≡ b
    → u < 65536
    → fill_utf16 0 (utf16_to_utf8 units) ≡ units
    → fill_utf16 0 (utf16_to_utf8 (v ∷ units)) ≡ v ∷ units
    → fill_utf16 0 (
        if b
        then utf8_bytes (65536 + (u - 55296) * 1024 + (v - 56320)) ++ utf16_to_utf8 units
        else utf8_bytes u ++ utf16_to_utf8 (v ∷ units))
      ≡ u ∷ v ∷ units
branch_fill true u v units e h p q = paired_fill u v (utf16_to_utf8 units) e ∙ ap (λ z. u ∷ v ∷ z) p
branch_fill false u v units e h p q =
    single_fill u (utf16_to_utf8 (v ∷ units)) h ∙ ap (λ z. u ∷ z) q

-- A Java string that is made of UTF-16 units has these units again when the game reads them, whether
-- they are pairs, single surrogates or others, if none is 0, at which the C text would end.
pub fill_utf16-utf16_to_utf8 :
    (units : List ℕ)
    → All (λ u. (0 < u) × (u < 65536)) units
    → fill_utf16 0 (utf16_to_utf8 units) ≡ units
unfolding utf16_to_utf8 fill_utf16
fill_utf16-utf16_to_utf8 [] h = refl
fill_utf16-utf16_to_utf8 (u ∷ []) h =
    ap (fill_utf16 0) (sym (append-nil (utf8_bytes u))) ∙ single_fill u [] h.0.1
fill_utf16-utf16_to_utf8 (u ∷ v ∷ units) h =
    branch_fill (is_pair u v) u v units refl h.0.1 (fill_utf16-utf16_to_utf8 units h.1.1)
      (fill_utf16-utf16_to_utf8 (v ∷ units) h.1)
