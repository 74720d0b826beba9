-- ===== src/Jni/Text.antt =====
-- The codec of jni_bridge.c between UTF-8, as bytes without the 0 at the end, and UTF-16 units.
use tasm2_nextos.Prelude.{
  ℕ, zero, suc, ◌+◌, ◌-◌, ◌*◌, ◌/◌, ◌%◌, ◌==◌, ltb, leb, Bool, ◌&&◌, List, [], ◌∷◌, ◌++◌,
  if◌then◌else◌,
}

-- A byte of the text or, at its end, the 0.
unfoldable pub byte_at : ℕ → List ℕ → ℕ
byte_at i [] = 0
byte_at zero (b ∷ bytes) = b
byte_at (suc i) (b ∷ bytes) = byte_at i bytes

-- `(b & 0xc0) == 0x80`, and the like with three to five bits: a byte in a range
unfoldable pub is_continuation : ℕ → Bool
is_continuation b = b / 64 == 2

unfoldable pub leads_two : List ℕ → Bool
leads_two text = byte_at 0 text / 32 == 6 && is_continuation (byte_at 1 text)

unfoldable pub leads_three : List ℕ → Bool
leads_three text =
    byte_at 0 text / 16 == 14
    && is_continuation (byte_at 1 text)
    && is_continuation (byte_at 2 text)

unfoldable pub leads_four : List ℕ → Bool
leads_four text =
    byte_at 0 text / 8 == 30
    && is_continuation (byte_at 1 text)
    && is_continuation (byte_at 2 text)
    && is_continuation (byte_at 3 text)

-- `asm2_utf8_codepoint`: the code point, and how many bytes it takes
unfoldable pub utf8_codepoint : List ℕ → ℕ × ℕ
utf8_codepoint text =
    if ltb (byte_at 0 text) 128
    then (byte_at 0 text, 1)
    else if leads_two text
    then (byte_at 0 text % 32 * 64 + byte_at 1 text % 64, 2)
    else if leads_three text
    then (byte_at 0 text % 16 * 4096 + byte_at 1 text % 64 * 64 + byte_at 2 text % 64, 3)
    else if leads_four text
    then (
      byte_at 0 text % 8 * 262144
          + byte_at 1 text % 64 * 4096
          + byte_at 2 text % 64 * 64
          + byte_at 3 text % 64,
      4,
    )
    else (65533, 1)

-- The units of a code point: the pair's bits are put together with `|`, and lie apart up to 0x10ffff.
unfoldable pub utf16_units : ℕ → List ℕ
utf16_units codepoint =
    if leb codepoint 65535
    then codepoint ∷ []
    else (55296 + (codepoint - 65536) / 1024) ∷ (56320 + (codepoint - 65536) % 1024) ∷ []

-- The loop of `asm2_fill_utf16`; `skip` bytes of the last code point are left.
unfoldable pub fill_utf16 : ℕ → List ℕ → List ℕ
fill_utf16 skip [] = []
fill_utf16 (suc skip) (b ∷ text) = fill_utf16 skip text
fill_utf16 zero (b ∷ text) =
    let rest = fill_utf16 ((utf8_codepoint (b ∷ text)).1 - 1) text in
    utf16_units (utf8_codepoint (b ∷ text)).0 ++ rest

-- The bytes of a code point of `asm2_utf16_to_utf8`.
unfoldable pub utf8_bytes : ℕ → List ℕ
utf8_bytes codepoint =
    if ltb codepoint 128
    then codepoint ∷ []
    else if ltb codepoint 2048
    then (192 + codepoint / 64) ∷ (128 + codepoint % 64) ∷ []
    else if ltb codepoint 65536
    then (224 + codepoint / 4096) ∷ (128 + codepoint / 64 % 64) ∷ (128 + codepoint % 64) ∷ []
    else (240 + codepoint / 262144)
      ∷ (128 + codepoint / 4096 % 64)
      ∷ (128 + codepoint / 64 % 64)
      ∷ (128 + codepoint % 64)
      ∷ []

-- Whether two units are a pair.
unfoldable pub is_pair : ℕ → ℕ → Bool
is_pair high low = high / 1024 == 54 && low / 1024 == 55

-- `asm2_utf16_to_utf8` of units, when `malloc` gives the memory
unfoldable pub utf16_to_utf8 : List ℕ → List ℕ
utf16_to_utf8 [] = []
utf16_to_utf8 (u ∷ []) = utf8_bytes u
utf16_to_utf8 (u ∷ v ∷ units) =
    let paired = utf16_to_utf8 units in
    let single = utf16_to_utf8 (v ∷ units) in
    if is_pair u v
    then utf8_bytes (65536 + (u - 55296) * 1024 + (v - 56320)) ++ paired
    else utf8_bytes u ++ single
