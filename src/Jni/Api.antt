-- ===== src/Jni/Api.antt =====
-- The functions of the JNI table that change the state, as operations, and histories of them.
use tasm2_nextos.Prelude.{ℕ, Bool, Option, some, List, [], ◌∷◌}
use tasm2_nextos.Jni.State.{Text, method_kind, field_kind, Handle, State, Memory}
use tasm2_nextos.Jni.Intern.{jni_class, jni_object, jni_string, intern_id}
use tasm2_nextos.Jni.Throw.{
  throw, throw_new, fatal_error, exception_clear, get_superclass, alloc_object, get_object_class,
  new_direct_byte_buffer,
}
use tasm2_nextos.Jni.Arrays.{
  jni_int_array, new_primitive_array, new_object_array, get_object_array_element,
  set_object_array_element, get_array_region, set_array_region,
}
use tasm2_nextos.Jni.Strings.{get_string_region, get_string_utf_region, new_string}
use tasm2_nextos.Jni.Bundle.{
  jni_bundle_put_boolean, jni_bundle_put_int, jni_bundle_put_long, jni_bundle_put_string,
  jni_bundle_put_byte_array, bundle_clear,
}
use tasm2_nextos.Jni.Natives.{register_natives, unregister_natives}
use tasm2_nextos.Jni.Methods.{Config, Arguments, dispatch_method}
use tasm2_nextos.Jni.Fields.{get_field, set_field}

-- `asm2_jni_config`: the callbacks are the program's, which may use the bridge themselves.
pub record Program : Type 0 where
  pub config : Config
  pub method_callback : Handle → ℕ → Arguments → State → Option ℕ × State
  pub field_get_callback : Handle → ℕ → State → Option ℕ × State
  pub field_set_callback : Handle → ℕ → ℕ → State → State
  pub native_callback : Text → List ℕ → List ℕ → ℕ → State → State

module _ (m : Memory) where
  -- `asm2_get_method_id`, `asm2_get_static_method_id` and those of fields
  unfoldable pub get_method_id : ℕ → Text → Text → Bool → State → ℕ × State
  get_method_id = intern_id m method_kind

  unfoldable pub get_field_id : ℕ → Text → Text → Bool → State → ℕ × State
  get_field_id = intern_id m field_kind

-- The ids are asked for with a name and a signature, which JNI requires.
pub data Op : Type 0 where
  find_class make_object new_string_utf : Text → Op
  ask_method ask_field : ℕ → List ℕ → List ℕ → Bool → Op
  make_instance ask_class ask_superclass raise_object : ℕ → Op
  raise_new : ℕ → Text → Op
  raise_fatal : Text → Op
  clear_exception : Op
  make_buffer : ℕ → ℕ → Op
  make_ints : Option (List ℕ) → ℕ → Op
  make_array : List ℕ → ℕ → ℕ → Op
  make_objects : ℕ → ℕ → ℕ → Op
  read_element : ℕ → ℕ → Op
  write_element : ℕ → ℕ → ℕ → Op
  read_region : ℕ → ℕ → ℕ → ℕ → ℕ → Op
  write_region : ℕ → ℕ → ℕ → ℕ → Option (List ℕ) → Op
  read_string read_string_utf : ℕ → ℕ → ℕ → ℕ → Op
  make_string : Option (List ℕ) → ℕ → Op
  put_boolean put_int put_long : ℕ → Text → ℕ → Op
  put_string : ℕ → Text → Text → Op
  put_bytes : ℕ → Text → Option (List ℕ) → ℕ → Op
  clear_bundle : ℕ → Op
  register : ℕ → Option (List (Text × Text × ℕ)) → ℕ → Op
  unregister : ℕ → Op
  call_method : ℕ → ℕ → Arguments → Op
  read_field : ℕ → ℕ → Op
  write_field : ℕ → ℕ → ℕ → Op

module _ (m : Memory) (p : Program) where
  unfoldable pub step : Op → State → State
  step (find_class name) s = (jni_class m name s).1
  step (make_object name) s = (jni_object m name s).1
  step (new_string_utf text) s = (jni_string m text s).1
  step (ask_method c n g b) s = (get_method_id m c (some n) (some g) b s).1
  step (ask_field c n g b) s = (get_field_id m c (some n) (some g) b s).1
  step (make_instance c) s = (alloc_object m c s).1
  step (ask_class object) s = (get_object_class m object s).1
  step (ask_superclass c) s = (get_superclass m c s).1
  step (raise_object object) s = (throw m object s).1
  step (raise_new c message) s = (throw_new m c message s).1
  step (raise_fatal message) s = fatal_error m message s
  step clear_exception s = exception_clear s
  step (make_buffer address capacity) s = (new_direct_byte_buffer m address capacity s).1
  step (make_ints values count) s = (jni_int_array m values count s).1
  step (make_array descriptor size count) s = (new_primitive_array m descriptor size count s).1
  step (make_objects count c initial) s = (new_object_array m count c initial s).1
  step (read_element array index) s = (get_object_array_element m array index s).1
  step (write_element array index value) s = (set_object_array_element m array index value s).1
  step (read_region size array start count out) s =
      (get_array_region m size array start count out s).1
  step (write_region size array start count input) s =
      (set_array_region m size array start count input s).1
  step (read_string string start count out) s = (get_string_region m string start count out s).1
  step (read_string_utf string start count out) s =
      (get_string_utf_region m string start count out s).1
  step (make_string units count) s = (new_string m units count s).1
  step (put_boolean bundle key value) s = (jni_bundle_put_boolean m bundle key value s).1
  step (put_int bundle key value) s = (jni_bundle_put_int m bundle key value s).1
  step (put_long bundle key value) s = (jni_bundle_put_long m bundle key value s).1
  step (put_string bundle key value) s = (jni_bundle_put_string m bundle key value s).1
  step (put_bytes bundle key bytes count) s =
      (jni_bundle_put_byte_array m bundle key bytes count s).1
  step (clear_bundle bundle) s = bundle_clear bundle s
  step (register c methods count) s = (register_natives m p.native_callback c methods count s).1
  step (unregister c) s = (unregister_natives c s).1
  step (call_method receiver id args) s =
      (dispatch_method m p.method_callback p.config receiver id args s).1
  step (read_field receiver id) s = (get_field m p.field_get_callback p.config receiver id s).1
  step (write_field receiver id value) s = set_field p.field_set_callback receiver id value s

  -- The calls of the game one after another, of whatever threads.
  unfoldable pub run : List Op → State → State
  run [] s = s
  run (op ∷ ops) s = run ops (step op s)
