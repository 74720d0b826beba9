-- ===== src/Jni/Strings.antt =====
-- The functions of jni_bridge.c on the characters of strings, in both encodings.
use tasm2_nextos.Prelude.{
  ℕ, ◌+◌, ◌*◌, ◌==◌, not, ◌&&◌, ◌||◌, Bool, true, false, Option, none, some, List, [], ◌∷◌, codes,
  length, take, drop, if◌then◌else◌,
}
use tasm2_nextos.Jni.Text.{utf16_to_utf8}
use tasm2_nextos.Jni.State.{string_kind, is_kind, Handle, State, Memory}
use tasm2_nextos.Jni.Handles.{lookup_handle}
use tasm2_nextos.Jni.Intern.{jni_string, jni_string_chars}
use tasm2_nextos.Jni.Throw.{negative, throw_named}
use tasm2_nextos.Jni.Arrays.{in_region, Access, copied, thrown}

-- The bytes up to the first 0, where a C text ends.
unfoldable pub c_text : List ℕ → List ℕ
c_text [] = []
c_text (b ∷ bytes) = let rest = c_text bytes in if b == 0 then [] else b ∷ rest

-- `item->utf16` with its length, which is 0 if it is NULL
unfoldable pub units_of : Option Handle → List ℕ
units_of none = []
units_of (some item) = elim item.utf16 [ none ↦ [] | some units ↦ units ]

unfoldable pub is_string : Option Handle → Bool
is_string none = false
is_string (some item) = is_kind item.kind string_kind

unfoldable pub string_region_valid : Option Handle → ℕ → ℕ → Bool
string_region_valid item start count =
    is_string item && in_region (length (units_of item)) start count

-- `asm2_get_string_length`, `asm2_get_string_chars`, `asm2_get_string_utf_length`
unfoldable get_string_length : State → ℕ → ℕ
get_string_length s string =
    let item = lookup_handle s string in if is_string item then length (units_of item) else 0

unfoldable pub string_units : Option Handle → Option (List ℕ)
string_units none = none
string_units (some item) = if is_kind item.kind string_kind then item.utf16 else none

unfoldable get_string_chars : State → ℕ → Option (List ℕ)
get_string_chars s string = string_units (lookup_handle s string)

unfoldable get_string_utf_length : State → ℕ → ℕ
get_string_utf_length s string = elim (jni_string_chars s string) [
  | none ↦ 0
  | some text ↦ length text
]

module _ (m : Memory) where
  unfoldable pub string_index_error : List ℕ → State → State
  string_index_error = throw_named m (codes "java/lang/StringIndexOutOfBoundsException")

  -- `asm2_get_string_region`
  unfoldable pub get_string_region : ℕ → ℕ → ℕ → ℕ → State → Access × State
  get_string_region string start count output s =
      let item = lookup_handle s string in
      if string_region_valid item start count && not (output == 0)
      then (copied (take count (drop start (units_of item))), s)
      else (thrown, string_index_error (codes "GetStringRegion") s)

  -- `asm2_get_string_utf_region`, without the copy where `malloc` fails
  unfoldable pub get_string_utf_region : ℕ → ℕ → ℕ → ℕ → State → Access × State
  get_string_utf_region string start count output s =
      let item = lookup_handle s string in
      if string_region_valid item start count && not (output == 0)
      then (
        copied (
            if m.enough s (count * 4 + 1)
            then c_text (utf16_to_utf8 (take count (drop start (units_of item))))
            else []),
        s,
      )
      else (thrown, string_index_error (codes "GetStringUTFRegion") s)

  -- `asm2_new_string`: the units are `none` for NULL
  unfoldable pub string_of_units : Option (List ℕ) → ℕ → State → ℕ × State
  string_of_units none count s =
      if m.enough s (count * 4 + 1) then jni_string m (some []) s else (0, s)
  string_of_units (some units) count s =
      if m.enough s (count * 4 + 1)
      then jni_string m (some (c_text (utf16_to_utf8 (take count units)))) s
      else (0, s)

  unfoldable pub is_missing : Option (List ℕ) → Bool
  is_missing none = true
  is_missing (some units) = false

  unfoldable pub new_string : Option (List ℕ) → ℕ → State → ℕ × State
  new_string units count s =
      if negative count || (is_missing units && not (count == 0))
      then (
        0,
        throw_named m (codes "java/lang/IllegalArgumentException") (codes "invalid NewString input")
            s,
      )
      else string_of_units units count s
