-- ===== src/Jni/Methods.antt =====
-- The calls of Java methods: `asm2_default_method` and `asm2_dispatch_method`. A result is the
-- pattern that stands in the union, of which the member is the low bytes.
use tasm2_nextos.Prelude.{
  ℕ, ◌+◌, ◌*◌, ◌%◌, ◌^◌, ◌==◌, ◌&&◌, ◌||◌, Bool, true, false, Option, none, some, List, [], ◌∷◌,
  map, codes, length, same_text, if◌then◌else◌,
}
use Prim.Native.String.{String}
use tasm2_nextos.Jni.State.{
  Text, method_kind, is_kind, boolean_value, int_value, long_value, object_value, Entry, Handle,
  State, Memory, text_equal, text_or,
}
use tasm2_nextos.Jni.Handles.{duplicate, lookup_handle}
use tasm2_nextos.Jni.Intern.{
  java_object, class_name_or, receiver_class_name, jni_class, jni_object, jni_string, jni_activity,
  jni_string_chars,
}
use tasm2_nextos.Jni.Bundle.{bundle_set, bundle_get, bundle_clear, typed_value, read_word}
use tasm2_nextos.Jni.Returns.{return_object}

-- `asm2_jni_config`, without the callbacks.
pub record Config : Type 0 where
  pub package_name : Text
  pub external_storage : Text
  pub files_directory : Text
  pub cache_directory : Text
  pub locale_language : Text
  pub locale_country : Text
  pub device_model : Text
  pub device_manufacturer : Text
  pub android_release : Text
  pub sdk_int : ℕ
  pub screen_width : ℕ
  pub screen_height : ℕ
  pub screen_density : ℕ

-- The arguments of a call: their patterns in order, or none at all.
abbrev pub Arguments : Type 0
Arguments = Option (ℕ → ℕ)

unfoldable pub argument : ℕ → Arguments → ℕ
argument i none = 0
argument i (some at) = at i

abbrev pub is_named : List ℕ → String → Bool
is_named name text = same_text name (codes text)

-- `asm2_first_object_argument`
unfoldable pub takes_object : Text → Bool
takes_object none = false
takes_object (some []) = false
takes_object (some (c ∷ [])) = false
takes_object (some (c ∷ t ∷ rest)) = c == b'(' && (t == b'L' || t == b'[')

unfoldable pub first_object_argument : Text → Arguments → ℕ
first_object_argument signature args =
    if takes_object signature then read_word (argument 0 args) else 0

unfoldable pub value_or_zero : Option ℕ → ℕ
value_or_zero none = 0
value_or_zero (some v) = v

unfoldable pub is_found : Option Entry → Bool
is_found none = false
is_found (some entry) = true

abbrev pub flag : Bool → ℕ
flag b = if b then 1 else 0

module _ (m : Memory) where
  -- The methods of `android/os/Bundle` behind `<init>` and `clear`, which take a key.
  unfoldable pub keyed_method : List ℕ → ℕ → Text → Arguments → State → ℕ × State
  keyed_method name receiver key args s =
      let found = bundle_get s receiver key in
      if is_named name "putInt"
      then (0, (bundle_set m receiver key int_value (read_word (argument 1 args)) s).1)
      else if is_named name "putBoolean"
      then (0, (bundle_set m receiver key boolean_value (read_word (argument 1 args)) s).1)
      else if is_named name "putLong"
      then (0, (bundle_set m receiver key long_value (argument 1 args) s).1)
      else if is_named name "putString" || is_named name "putByteArray"
      then (0, (bundle_set m receiver key object_value (read_word (argument 1 args)) s).1)
      else if is_named name "getInt"
      then (value_or_zero (typed_value int_value read_word found), s)
      else if is_named name "getBoolean"
      then (value_or_zero (typed_value boolean_value (λ v. v % 2 ^ 8) found), s)
      else if is_named name "getLong"
      then (value_or_zero (typed_value long_value (λ v. v) found), s)
      else if is_named name "getString" || is_named name "getByteArray"
      then (value_or_zero (typed_value object_value read_word found), s)
      else if is_named name "containsKey"
      then (flag (is_found found), s)
      else (0, s)

  unfoldable pub bundle_method : List ℕ → ℕ → Arguments → State → ℕ × State
  bundle_method name receiver args s =
      if is_named name "<init>"
      then (0, s)
      else if is_named name "clear"
      then (0, bundle_clear receiver s)
      else keyed_method name receiver (jni_string_chars s (read_word (argument 0 args))) args s

  unfoldable pub receiver_or_string : Text → ℕ → List ℕ → State → ℕ × State
  receiver_or_string none receiver class_name s = jni_string m (some class_name) s
  receiver_or_string (some text) receiver class_name s = (receiver, s)

  -- `java/lang/Class.getName`
  unfoldable pub dotted_string : Text → State → ℕ × State
  dotted_string none s = (0, s)
  dotted_string (some name) s =
      jni_string m (some (map (λ c. if c == b'/' then b'.' else c) name)) s

  -- `java/lang/String.length` and `hashCode`
  unfoldable pub hash_code : ℕ → List ℕ → ℕ
  hash_code hash [] = hash
  hash_code hash (c ∷ text) = hash_code ((hash * 31 + c) % 2 ^ 32) text

  unfoldable pub is_empty : Text → Bool
  is_empty none = true
  is_empty (some []) = true
  is_empty (some (c ∷ text)) = false

  unfoldable pub same_object : Text → Text → ℕ → ℕ → Bool
  same_object none right receiver other = receiver == other
  same_object (some left) none receiver other = receiver == other
  same_object (some left) (some right) receiver other = same_text left right

  unfoldable pub system_property : Config → Text → State → ℕ × State
  system_property config key s =
      if text_equal key (some (codes "os.name"))
      then jni_string m (some (codes "Linux")) s
      else if text_equal key (some (codes "os.version"))
      then jni_string m config.android_release s
      else if text_equal key (some (codes "user.language"))
      then jni_string m config.locale_language s
      else jni_string m (some []) s

  unfoldable pub value_of : Option Handle → (ℕ → ℕ) → ℕ
  value_of none read = 0
  value_of (some item) read = read item.value

  -- The last part of the chain of tests: by the name alone.
  unfoldable pub named_method : Config → List ℕ → Text → ℕ → State → ℕ × State
  named_method config name signature receiver s =
      if is_named name "getWidth" || is_named name "getMeasuredWidth"
      then (config.screen_width, s)
      else if is_named name "getHeight" || is_named name "getMeasuredHeight"
      then (config.screen_height, s)
      else if is_named name "getResources"
      then jni_object m (some (codes "android/content/res/Resources")) s
      else if is_named name "getDisplayMetrics"
      then jni_object m (some (codes "android/util/DisplayMetrics")) s
      else if is_named name "getWindowManager"
      then jni_object m (some (codes "android/view/WindowManager")) s
      else if is_named name "getDefaultDisplay"
      then jni_object m (some (codes "android/view/Display")) s
      else if is_named name "getPackageManager"
      then jni_object m (some (codes "android/content/pm/PackageManager")) s
      else if is_named name "getApplicationInfo"
      then jni_object m (some (codes "android/content/pm/ApplicationInfo")) s
      else if is_named name "getAssets"
      then jni_object m (some (codes "android/content/res/AssetManager")) s
      else if is_named name "checkCallingOrSelfPermission" || is_named name "checkSelfPermission"
      then (0, s)
      else if is_named name "booleanValue"
      then (value_of (lookup_handle s receiver) (λ v. v % 2 ^ 8), s)
      else if is_named name "intValue" || is_named name "floatValue"
      then (value_of (lookup_handle s receiver) read_word, s)
      else if is_named name "doubleValue"
      then (value_of (lookup_handle s receiver) (λ v. v), s)
      else return_object m signature s

  -- The middle part: by the class and the name.
  unfoldable pub class_method : Config → List ℕ → List ℕ → Text → ℕ → Arguments → State → ℕ × State
  class_method config class_name name signature receiver args s =
      if is_named class_name "java/lang/Class" && is_named name "getName"
      then dotted_string
          (duplicate m s (some (class_name_or java_object (lookup_handle s receiver)))) s
      else if is_named class_name "java/lang/String" && is_named name "length"
      then (length (text_or [] (jni_string_chars s receiver)), s)
      else if is_named class_name "java/lang/String" && is_named name "hashCode"
      then (hash_code 0 (text_or [] (jni_string_chars s receiver)), s)
      else if is_named class_name "java/lang/String" && is_named name "isEmpty"
      then (flag (is_empty (jni_string_chars s receiver)), s)
      else if is_named name "equals"
      then (
        flag (
            same_object (jni_string_chars s receiver)
              (jni_string_chars s (first_object_argument signature args)) receiver
              (first_object_argument signature args)),
        s,
      )
      else if is_named class_name "java/lang/System" && is_named name "getProperty"
      then system_property config (jni_string_chars s (first_object_argument signature args)) s
      else if is_named class_name "java/util/Locale" && is_named name "getDefault"
      then jni_object m (some (codes "java/util/Locale")) s
      else if is_named class_name "java/util/Locale" && is_named name "getLanguage"
      then jni_string m config.locale_language s
      else if is_named class_name "java/util/Locale" && is_named name "getCountry"
      then jni_string m config.locale_country s
      else named_method config name signature receiver s

  -- The first part: the paths, the context and the class of the receiver.
  unfoldable pub context_method :
      Config → List ℕ → List ℕ → Text → ℕ → Arguments → State → ℕ × State
  context_method config class_name name signature receiver args s =
      if is_named name "getPackageName"
      then jni_string m config.package_name s
      else if is_named name "getFilesDir"
      then jni_string m config.files_directory s
      else if is_named name "getCacheDir"
      then jni_string m config.cache_directory s
      else if is_named name "getExternalStorageDirectory" || is_named name "getExternalFilesDir"
      then jni_string m config.external_storage s
      else if is_named name "getExternalStorageState"
      then jni_string m (some (codes "mounted")) s
      else if is_named name "getAbsolutePath"
          || is_named name "getCanonicalPath"
          || is_named name "getPath"
          || is_named name "toString"
      then receiver_or_string (jni_string_chars s receiver) receiver class_name s
      else if is_named name "getApplicationContext"
          || is_named name "getApplication"
          || is_named name "getBaseContext"
          || is_named name "getActivity"
      then jni_activity m s
      else if is_named name "getClass"
      then jni_class m (some (receiver_class_name s receiver)) s
      else class_method config class_name name signature receiver args s

  -- `asm2_default_method`
  unfoldable pub default_method : Config → Handle → ℕ → Arguments → State → ℕ × State
  default_method config method receiver args s =
      let class_name = text_or [] method.class_name in
      let name = text_or [] method.name in
      if is_named class_name "android/os/Bundle"
      then bundle_method name receiver args s
      else context_method config class_name name method.signature receiver args s

  -- `call` is the program's `method_callback`: its value, or `none` where it is NULL or returns 0.
  module _ (call : Handle → ℕ → Arguments → State → Option ℕ × State) where
    unfoldable pub or_default : Config → Handle → ℕ → Arguments → Option ℕ × State → ℕ × State
    or_default config method receiver args (some v, s) = (v, s)
    or_default config method receiver args (none, s) = default_method config method receiver args s

    unfoldable pub dispatch_on : Config → Option Handle → ℕ → Arguments → State → ℕ × State
    dispatch_on config none receiver args s = (0, s)
    dispatch_on config (some method) receiver args s =
        if is_kind method.kind method_kind
        then or_default config method receiver args (call method receiver args s)
        else (0, s)

    -- `asm2_dispatch_method`
    unfoldable pub dispatch_method : Config → ℕ → ℕ → Arguments → State → ℕ × State
    dispatch_method config receiver method_id args s =
        dispatch_on config (lookup_handle s method_id) receiver args s
