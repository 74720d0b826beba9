-- ===== src/Jni/Intern.antt =====
-- The `asm2_intern_*` functions of jni_bridge.c, with `asm2_new_object_handle` and the public
-- functions over them. A handle is 0 if the allocation failed.
use tasm2_nextos.Prelude.{
  ℕ, ◌+◌, ◌*◌, ◌==◌, ◌&&◌, Bool, true, false, Option, none, some, List, [], ◌∷◌, length, codes,
  if◌then◌else◌,
}
use tasm2_nextos.Jni.Text.{fill_utf16}
use tasm2_nextos.Jni.State.{
  Text, HandleKind, class_kind, object_kind, string_kind, is_kind, Handle, State, Memory,
  text_equal, text_or,
}
use tasm2_nextos.Jni.Handles.{
  duplicate, intern_bucket, publish_intern, lookup_handle, allocate_handle, first_fit,
}

-- "java/lang/Object"
abbrev pub java_object : List ℕ
java_object = codes "java/lang/Object"

-- `if (!class_name || !class_name[0]) class_name = "java/lang/Object";`
unfoldable pub or_object : Text → List ℕ
or_object none = java_object
or_object (some []) = java_object
or_object (some (c ∷ rest)) = c ∷ rest

-- `item->kind == kind && asm2_text_equal(item->class_name, class_name)`
unfoldable pub class_fits : HandleKind → List ℕ → Handle → Bool
class_fits kind class_name item =
    is_kind item.kind kind && text_equal item.class_name (some class_name)

unfoldable pub string_fits : List ℕ → Handle → Bool
string_fits text item = is_kind item.kind string_kind && text_equal item.text (some text)

unfoldable pub same_flag : Bool → Bool → Bool
same_flag true b = b
same_flag false true = false
same_flag false false = true

unfoldable pub id_fits : HandleKind → List ℕ → Text → Text → Bool → Handle → Bool
id_fits kind class_name name signature is_static item =
    is_kind item.kind kind
    && same_flag item.is_static is_static
    && text_equal item.class_name (some class_name)
    && text_equal item.name name
    && text_equal item.signature signature

-- `if (item) asm2_publish_intern_locked(item, bucket);`
unfoldable pub published : ℕ → ℕ × State → ℕ × State
published bucket (item, s) = if item == 0 then (item, s) else (item, publish_intern item bucket s)

-- The name and the signature of a new id.
unfoldable pub name_id : Memory → State → Text → Text → Bool → Handle → Handle
name_id m s name signature is_static item = record item {
  name = duplicate m s (some (text_or [] name));
  signature = duplicate m s (some (text_or [] signature));
  is_static = is_static;
}

-- `item->text = asm2_duplicate(text);` and `asm2_fill_utf16(item)`, which calls `calloc` for two
-- bytes for each unit there may be.
unfoldable pub fill_string : Memory → State → List ℕ → Handle → Handle
fill_string m s text item =
    let copy = duplicate m s (some text) in
    record item {
      text = copy;
      utf16 =
          if m.enough s (2 * (length (text_or [] copy) * 2 + 1))
          then some (fill_utf16 0 (text_or [] copy))
          else none;
    }

-- `class_item && class_item->class_name ? class_item->class_name : "java/lang/Object"`
unfoldable pub class_name_or : List ℕ → Option Handle → List ℕ
class_name_or other none = other
class_name_or other (some item) = text_or other item.class_name

module _ (m : Memory) where
  unfoldable pub found_or_made :
      Option ℕ → ℕ → HandleKind → List ℕ → (Handle → Handle) → State → ℕ × State
  found_or_made (some item) bucket kind class_name fill s = (item, s)
  found_or_made none bucket kind class_name fill s =
      published bucket (allocate_handle m kind (some class_name) fill s)

  -- The common text of the functions below: look for a handle that fits, or make one.
  unfoldable pub intern :
      ℕ → (Handle → Bool) → HandleKind → List ℕ → (Handle → Handle) → State → ℕ × State
  intern bucket fits kind class_name fill s =
      found_or_made (first_fit fits s.heap (s.intern_buckets bucket)) bucket kind class_name fill s

  unfoldable pub intern_named : HandleKind → Text → State → ℕ × State
  intern_named kind class_name s =
      let name = or_object class_name in
      intern (intern_bucket kind (some name) none none none false) (class_fits kind name) kind name
        (λ item. item) s

  unfoldable pub intern_class : Text → State → ℕ × State
  intern_class = intern_named class_kind

  unfoldable pub intern_object : Text → State → ℕ × State
  intern_object = intern_named object_kind

  -- `asm2_new_object_handle`
  unfoldable pub new_object_handle : Text → State → ℕ × State
  new_object_handle class_name =
      allocate_handle m object_kind (some (or_object class_name)) (λ item. item)

  unfoldable pub intern_id : HandleKind → ℕ → Text → Text → Bool → State → ℕ × State
  intern_id kind class_handle name signature is_static s =
      let class_name = class_name_or java_object (lookup_handle s class_handle) in
      intern (intern_bucket kind (some class_name) name signature none is_static)
        (id_fits kind class_name name signature is_static) kind class_name
        (name_id m s name signature is_static) s

  unfoldable pub intern_string : Text → State → ℕ × State
  intern_string text s =
      let t = text_or [] text in
      intern (intern_bucket string_kind none none none (some t) false) (string_fits t) string_kind
        (codes "java/lang/String") (fill_string m s t) s

  -- `asm2_jni_class`, `asm2_jni_object`, `asm2_jni_string`
  unfoldable pub jni_class : Text → State → ℕ × State
  jni_class = intern_class

  unfoldable pub jni_object : Text → State → ℕ × State
  jni_object = intern_object

  unfoldable pub jni_string : Text → State → ℕ × State
  jni_string = intern_string

  -- `asm2_jni_activity`
  unfoldable pub jni_activity : State → ℕ × State
  jni_activity = jni_object (some (codes "com/gameloft/glf/GL2JNIActivity"))

-- `asm2_jni_string_chars`
unfoldable pub string_chars_of : Option Handle → Text
string_chars_of none = none
string_chars_of (some item) = if is_kind item.kind string_kind then item.text else none

unfoldable pub jni_string_chars : State → ℕ → Text
jni_string_chars s string = string_chars_of (lookup_handle s string)

-- `asm2_receiver_class_name`
unfoldable pub receiver_class_name : State → ℕ → List ℕ
receiver_class_name s receiver = class_name_or java_object (lookup_handle s receiver)
