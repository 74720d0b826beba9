-- ===== src/Jni/Fields.antt =====
-- The fields of Java objects: `asm2_default_field`, `asm2_get_field` and `asm2_set_field`.
use tasm2_nextos.Prelude.{
  ℕ, ◌+◌, ◌-◌, ◌%◌, ◌^◌, ◌==◌, ◌&&◌, ◌||◌, Bool, true, false, Option, none, some, List, [], ◌∷◌,
  ◌++◌, codes, take, if◌then◌else◌,
}
use tasm2_nextos.Jni.State.{
  Text, field_kind, is_kind, Handle, State, Memory, text_or, modify_handle,
}
use tasm2_nextos.Jni.Handles.{lookup_handle}
use tasm2_nextos.Jni.Intern.{jni_string}
use tasm2_nextos.Jni.Returns.{return_object}
use tasm2_nextos.Jni.Methods.{Config, is_named}

-- A store of a 32-bit member into the union.
unfoldable pub with_word : ℕ → ℕ → ℕ
with_word v word = v - v % 2 ^ 32 + word

unfoldable pub with_pointer : ℕ → ℕ × State → ℕ × State
with_pointer v (a, s) = (with_word v a, s)

unfoldable pub is_class_type : Text → Bool
is_class_type none = false
is_class_type (some []) = false
is_class_type (some (c ∷ rest)) = c == b'L'

module _ (m : Memory) where
  -- The value of a field that was never set; `v` is what its handle holds.
  unfoldable pub unset_field : Config → List ℕ → List ℕ → Text → ℕ → State → ℕ × State
  unset_field config class_name name signature v s =
      if is_named class_name "android/os/Build$VERSION" && is_named name "SDK_INT"
      then (with_word v config.sdk_int, s)
      else if is_named class_name "android/os/Build$VERSION" && is_named name "RELEASE"
      then with_pointer v (jni_string m config.android_release s)
      else if is_named class_name "android/os/Build" && is_named name "MODEL"
      then with_pointer v (jni_string m config.device_model s)
      else if is_named class_name "android/os/Build" && is_named name "MANUFACTURER"
      then with_pointer v (jni_string m config.device_manufacturer s)
      else if is_named class_name "android/os/Build"
          && (is_named name "BRAND" || is_named name "DEVICE" || is_named name "PRODUCT")
      then with_pointer v (jni_string m (some (codes "NextOS")) s)
      else if is_named class_name "android/util/DisplayMetrics" && is_named name "widthPixels"
      then (with_word v config.screen_width, s)
      else if is_named class_name "android/util/DisplayMetrics" && is_named name "heightPixels"
      then (with_word v config.screen_height, s)
      else if is_named class_name "android/util/DisplayMetrics"
          && (is_named name "density" || is_named name "scaledDensity")
      then (with_word v config.screen_density, s)
      else if is_class_type signature && v % 2 ^ 32 == 0
      then with_pointer v (return_object m (some (take 511 (codes "()" ++ text_or [] signature))) s)
      else (v, s)

  -- `asm2_default_field`
  unfoldable pub default_field : Config → Handle → State → ℕ × State
  default_field config field s =
      if field.has_value
      then (field.value, s)
      else unset_field config (text_or [] field.class_name) (text_or [] field.name) field.signature
          field.value s

  -- `get` is the program's `field_get_callback`: its value, or `none` where it is NULL or returns 0.
  module _ (get : Handle → ℕ → State → Option ℕ × State) where
    unfoldable pub or_field : Config → Handle → Option ℕ × State → ℕ × State
    or_field config field (some v, s) = (v, s)
    or_field config field (none, s) = default_field config field s

    unfoldable pub field_of : Config → Option Handle → ℕ → State → ℕ × State
    field_of config none receiver s = (0, s)
    field_of config (some field) receiver s =
        if is_kind field.kind field_kind
        then or_field config field (get field receiver s)
        else (0, s)

    -- `asm2_get_field`
    unfoldable pub get_field : Config → ℕ → ℕ → State → ℕ × State
    get_field config receiver field_id s = field_of config (lookup_handle s field_id) receiver s

-- `put` is the program's `field_set_callback`, or nothing where that is NULL.
module _ (put : Handle → ℕ → ℕ → State → State) where
  unfoldable pub store_field : Option Handle → ℕ → ℕ → ℕ → State → State
  store_field none receiver field_id value s = s
  store_field (some field) receiver field_id value s =
      if is_kind field.kind field_kind
      then put field receiver value
          (modify_handle field_id (λ item. record item { value = value; has_value = true }) s)
      else s

  -- `asm2_set_field`
  unfoldable pub set_field : ℕ → ℕ → ℕ → State → State
  set_field receiver field_id value s =
      store_field (lookup_handle s field_id) receiver field_id value s
