-- ===== src/Jni/History.antt =====
-- Histories of calls: the tables stay right, and what was interned is found again.
use tasm2_nextos.Prelude.{ℕ, List, [], ◌∷◌}
use tasm2_nextos.Jni.State.{Text, Handle, State, Memory}
use tasm2_nextos.Jni.Handles.{lookup_handle}
use tasm2_nextos.Jni.Intern.{java_object, class_name_or, intern_id}
use tasm2_nextos.Jni.Throw.{exception_clear}
use tasm2_nextos.Jni.Bundle.{jni_bundle_put_boolean, jni_bundle_put_int, jni_bundle_put_long}
use tasm2_nextos.Jni.Methods.{Arguments}
use tasm2_nextos.Jni.Keys.{method_key, field_key}
use tasm2_nextos.Jni.Table.{Table, Changes, here, Changes-Table}
use tasm2_nextos.Jni.Steps.{
  IsFresh, both, intern_key-Changes, jni_class-Changes, jni_object-Changes, jni_string-Changes,
  raise-Changes, throw_new-Changes,
}
use tasm2_nextos.Jni.Steps.Data.{
  throw-Changes, fatal_error-Changes, get_superclass-Changes, alloc_object-Changes,
  get_object_class-Changes, new_direct_byte_buffer-Changes, jni_int_array-Changes,
  new_primitive_array-Changes, new_object_array-Changes, get_object_array_element-Changes,
  set_object_array_element-Changes, get_array_region-Changes, set_array_region-Changes,
  get_string_region-Changes, get_string_utf_region-Changes, new_string-Changes,
}
use tasm2_nextos.Jni.Steps.Bundles.{
  bundle_set-Changes, bundle_clear-Changes, jni_bundle_put_string-Changes,
  jni_bundle_put_byte_array-Changes, register_natives-Changes, unregister_natives-Changes,
}
use tasm2_nextos.Jni.Steps.Calls.{dispatch_method-Changes, get_field-Changes, set_field-Changes}
use tasm2_nextos.Jni.Api.{
  Program, get_method_id, get_field_id, Op, find_class, make_object, new_string_utf, ask_method,
  ask_field, make_instance, ask_class, ask_superclass, raise_object, raise_new, raise_fatal,
  clear_exception, make_buffer, make_ints, make_array, make_objects, read_element, write_element,
  read_region, write_region, read_string, read_string_utf, make_string, put_boolean, put_int,
  put_long, put_string, put_bytes, clear_bundle, register, unregister, call_method, read_field,
  write_field, step, run,
}

-- The callbacks use the bridge by its functions only.
pub record Uses (m : Memory) (p : Program) : Type 0 where
  pub calls :
      (f : Handle) (r : ℕ) (args : Arguments) (s : State)
      → Changes m s (p.method_callback f r args s).1
  pub gets : (f : Handle) (r : ℕ) (s : State) → Changes m s (p.field_get_callback f r s).1
  pub puts : (f : Handle) (r v : ℕ) (s : State) → Changes m s (p.field_set_callback f r v s)
  pub natives :
      (c : Text) (n g : List ℕ) (f : ℕ) (s : State) → Changes m s (p.native_callback c n g f s)

module _ (m : Memory) (p : Program) (fine : IsFresh m) (uses : Uses m p) where
  step-Changes : (op : Op) (s : State) → Changes m s (step m p op s)
  unfolding step get_method_id get_field_id intern_id exception_clear jni_bundle_put_boolean
      jni_bundle_put_int jni_bundle_put_long
  step-Changes (find_class name) s = jni_class-Changes m fine name s
  step-Changes (make_object name) s = jni_object-Changes m fine name s
  step-Changes (new_string_utf text) s = jni_string-Changes m fine text s
  step-Changes (ask_method c n g b) s =
      intern_key-Changes m fine (method_key (class_name_or java_object (lookup_handle s c)) n g b) s
  step-Changes (ask_field c n g b) s =
      intern_key-Changes m fine (field_key (class_name_or java_object (lookup_handle s c)) n g b) s
  step-Changes (make_instance c) s = alloc_object-Changes m fine c s
  step-Changes (ask_class object) s = get_object_class-Changes m fine object s
  step-Changes (ask_superclass c) s = get_superclass-Changes m fine c s
  step-Changes (raise_object object) s = throw-Changes m fine object s
  step-Changes (raise_new c message) s = throw_new-Changes m fine c message s
  step-Changes (raise_fatal message) s = fatal_error-Changes m fine message s
  step-Changes clear_exception s = raise-Changes m fine 0 s
  step-Changes (make_buffer address capacity) s =
      new_direct_byte_buffer-Changes m fine address capacity s
  step-Changes (make_ints values count) s = jni_int_array-Changes m fine values count s
  step-Changes (make_array descriptor size count) s =
      new_primitive_array-Changes m fine descriptor size count s
  step-Changes (make_objects count c initial) s = new_object_array-Changes m fine count c initial s
  step-Changes (read_element array index) s = get_object_array_element-Changes m fine array index s
  step-Changes (write_element array index value) s =
      set_object_array_element-Changes m fine array index value s
  step-Changes (read_region size array start count out) s =
      get_array_region-Changes m fine size array start count out s
  step-Changes (write_region size array start count input) s =
      set_array_region-Changes m fine size array start count input s
  step-Changes (read_string string start count out) s =
      get_string_region-Changes m fine string start count out s
  step-Changes (read_string_utf string start count out) s =
      get_string_utf_region-Changes m fine string start count out s
  step-Changes (make_string units count) s = new_string-Changes m fine units count s
  step-Changes (put_boolean bundle key value) s = bundle_set-Changes m bundle key _ _ s
  step-Changes (put_int bundle key value) s = bundle_set-Changes m bundle key _ value s
  step-Changes (put_long bundle key value) s = bundle_set-Changes m bundle key _ value s
  step-Changes (put_string bundle key value) s =
      jni_bundle_put_string-Changes m fine bundle key value s
  step-Changes (put_bytes bundle key bytes count) s =
      jni_bundle_put_byte_array-Changes m fine bundle key bytes count s
  step-Changes (clear_bundle bundle) s = bundle_clear-Changes m bundle s
  step-Changes (register c methods count) s =
      register_natives-Changes m p.native_callback uses.natives c methods count s
  step-Changes (unregister c) s = unregister_natives-Changes m c s
  step-Changes (call_method receiver id args) s =
      dispatch_method-Changes m fine p.method_callback uses.calls p.config receiver id args s
  step-Changes (read_field receiver id) s =
      get_field-Changes m fine p.field_get_callback uses.gets p.config receiver id s
  step-Changes (write_field receiver id value) s =
      set_field-Changes m p.field_set_callback uses.puts receiver id value s

  pub run-Changes : (ops : List Op) (s : State) → Changes m s (run m p ops s)
  unfolding run
  run-Changes [] s = here
  run-Changes (op ∷ ops) s = both (step-Changes op s) (run-Changes ops (step m p op s))

  -- After any history of calls the tables are right: NULL is no handle, the chains hold the handles
  -- that were made, each in the bucket of its address, and every chain of interned ones holds handles.
  pub run-Table : (ops : List Op) (s : State) → Table s → Table (run m p ops s)
  run-Table ops s v = Changes-Table (run-Changes ops s) v
