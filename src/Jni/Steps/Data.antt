-- ===== src/Jni/Steps/Data.antt =====
-- The functions on arrays, strings' regions, bundles and natives change the tables in those ways.
use tasm2_nextos.Prelude.{ℕ, ◌*◌, ◌==◌, refl, Option, none, some, List}
use tasm2_nextos.Jni.State.{Text, array_kind, Handle, Block, no_data, cells, foreign, State, Memory}
use tasm2_nextos.Jni.Handles.{lookup_handle}
use tasm2_nextos.Jni.Intern.{new_object_handle}
use tasm2_nextos.Jni.Throw.{
  throw, fatal_error, superclass_of, get_superclass, jni_bundle, object_of, alloc_object, class_of,
  get_object_class, new_direct_byte_buffer,
}
use tasm2_nextos.Jni.Arrays.{
  array_data, count_bytes, out_of_memory, settle_array, new_array, store_cells, filled_ints,
  jni_int_array, new_primitive_array, filled_objects, new_object_array, stored_element,
  get_object_array_element, set_object_array_element, get_array_region, stored_region,
  set_array_region,
}
use tasm2_nextos.Jni.Strings.{
  string_index_error, get_string_region, get_string_utf_region, string_of_units, new_string,
}
use tasm2_nextos.Jni.Table.{quiet, modified, Changes, here}
use tasm2_nextos.Jni.Steps.{
  IsFresh, both, one, either_Changes_of, allocate-Changes, jni_class-Changes, jni_object-Changes,
  jni_string-Changes, raise-Changes, throw_new-Changes, throw_named-Changes,
}

module _ (m : Memory) (fine : IsFresh m) where
  pub throw-Changes : (throwable : ℕ) (s : State) → Changes m s (throw m throwable s).1
  unfolding throw
  throw-Changes throwable s =
      either_Changes_of (throwable == 0) _ _
        (both (jni_object-Changes m fine _ s) (raise-Changes m fine _ _)) (raise-Changes m fine _ s)

  pub fatal_error-Changes : (message : Text) (s : State) → Changes m s (fatal_error m message s)
  unfolding fatal_error
  fatal_error-Changes message s =
      both (jni_class-Changes m fine _ s) (throw_new-Changes m fine _ message _)

  pub get_superclass-Changes :
      (class_handle : ℕ) (s : State) → Changes m s (get_superclass m class_handle s).1
  unfolding get_superclass superclass_of
  get_superclass-Changes class_handle s = go (lookup_handle s class_handle)
    where
      go : (o : Option Handle) → Changes m s (superclass_of m o s).1
      go none = jni_class-Changes m fine _ s
      go (some item) = search (either_Changes_of, jni_class-Changes m fine, here)

  pub alloc_object-Changes :
      (class_handle : ℕ) (s : State) → Changes m s (alloc_object m class_handle s).1
  unfolding alloc_object object_of jni_bundle new_object_handle
  alloc_object-Changes class_handle s = go (lookup_handle s class_handle)
    where
      go : (o : Option Handle) → Changes m s (object_of m o s).1
      go none = jni_object-Changes m fine _ s
      go (some item) =
          search (either_Changes_of, jni_object-Changes m fine, allocate-Changes m fine)

  pub get_object_class-Changes :
      (object : ℕ) (s : State) → Changes m s (get_object_class m object s).1
  unfolding get_object_class class_of
  get_object_class-Changes object s = go (lookup_handle s object)
    where
      go : (o : Option Handle) → Changes m s (class_of m o s).1
      go none = jni_class-Changes m fine _ s
      go (some item) = jni_class-Changes m fine _ s

  pub new_direct_byte_buffer-Changes :
      (address capacity : ℕ) (s : State)
      → Changes m s (new_direct_byte_buffer m address capacity s).1
  unfolding new_direct_byte_buffer
  new_direct_byte_buffer-Changes address capacity s =
      search (either_Changes_of, allocate-Changes m fine, here)

  count_bytes-Changes :
      (block : Block) (bytes : ℕ) (s : State) → Changes m s (count_bytes block bytes s)
  unfolding count_bytes
  count_bytes-Changes no_data bytes s = here
  count_bytes-Changes (cells xs) bytes s = one (quiet s _ refl)
  count_bytes-Changes (foreign a) bytes s = here

  settle_array-Changes :
      (block : Block) (count element_size : ℕ) (p : ℕ × State)
      → Changes m p.1 (settle_array m block count element_size p).1
  unfolding settle_array out_of_memory
  settle_array-Changes block count element_size (item, s) = either_Changes_of (item == 0) _ _ here (
      either_Changes_of _ _ _ (both (jni_object-Changes m fine _ s) (raise-Changes m fine _ _))
        (count_bytes-Changes block (count * element_size) s))

  pub new_array-Changes :
      (class_name : List ℕ) (count element_size : ℕ) (s : State)
      → Changes m s (new_array m class_name count element_size s).1
  unfolding new_array
  new_array-Changes class_name count element_size s =
      both (allocate-Changes m fine array_kind (some class_name) _ s)
        (settle_array-Changes (array_data m s count element_size) count element_size _)

  pub store_cells-Changes :
      (a start count : ℕ) (input : List ℕ) (s : State)
      → Changes m s (store_cells a start count input s)
  unfolding store_cells
  store_cells-Changes a start count input s = one (modified s a _ (λ h. refl))

  pub jni_int_array-Changes :
      (values : Option (List ℕ)) (count : ℕ) (s : State)
      → Changes m s (jni_int_array m values count s).1
  unfolding jni_int_array filled_ints
  jni_int_array-Changes none count s = new_array-Changes _ count 4 s
  jni_int_array-Changes (some values) count s =
      both (new_array-Changes _ count 4 s) (store_cells-Changes _ 0 count values _)

  pub new_primitive_array-Changes :
      (descriptor : List ℕ) (element_size count : ℕ) (s : State)
      → Changes m s (new_primitive_array m descriptor element_size count s).1
  unfolding new_primitive_array
  new_primitive_array-Changes descriptor element_size count s =
      search (either_Changes_of, new_array-Changes, here)

  filled_objects-Changes :
      (count initial : ℕ) (p : ℕ × State) → Changes m p.1 (filled_objects m count initial p).1
  unfolding filled_objects
  filled_objects-Changes count initial (item, s) =
      search (either_Changes_of, store_cells-Changes, here)

  pub new_object_array-Changes :
      (count class_handle initial : ℕ) (s : State)
      → Changes m s (new_object_array m count class_handle initial s).1
  unfolding new_object_array
  new_object_array-Changes count class_handle initial s =
      either_Changes_of _ _ _ here
        (both (new_array-Changes _ count _ s) (filled_objects-Changes count initial _))

  pub get_object_array_element-Changes :
      (array index : ℕ) (s : State) → Changes m s (get_object_array_element m array index s).1
  unfolding get_object_array_element
  get_object_array_element-Changes array index s =
      either_Changes_of _ _ _ here (throw_named-Changes m fine _ _ s)

  stored_element-Changes :
      (block : Block) (array index value : ℕ) (s : State)
      → Changes m s (stored_element m block array index value s).1
  unfolding stored_element
  stored_element-Changes no_data array index value s = here
  stored_element-Changes (cells xs) array index value s = store_cells-Changes array index 1 _ s
  stored_element-Changes (foreign a) array index value s = here

  pub set_object_array_element-Changes :
      (array index value : ℕ) (s : State)
      → Changes m s (set_object_array_element m array index value s).1
  unfolding set_object_array_element
  set_object_array_element-Changes array index value s =
      either_Changes_of _ _ _ (stored_element-Changes _ array index value s)
        (throw_named-Changes m fine _ _ s)

  pub get_array_region-Changes :
      (element_size array start count output : ℕ) (s : State)
      → Changes m s (get_array_region m element_size array start count output s).1
  unfolding get_array_region
  get_array_region-Changes element_size array start count output s =
      either_Changes_of _ _ _ here (throw_named-Changes m fine _ _ s)

  stored_region-Changes :
      (block : Block) (array start count : ℕ) (input : List ℕ) (s : State)
      → Changes m s (stored_region m block array start count input s).1
  unfolding stored_region
  stored_region-Changes no_data array start count input s = here
  stored_region-Changes (cells xs) array start count input s =
      store_cells-Changes array start count input s
  stored_region-Changes (foreign a) array start count input s = here

  pub set_array_region-Changes :
      (element_size array start count : ℕ) (input : Option (List ℕ)) (s : State)
      → Changes m s (set_array_region m element_size array start count input s).1
  unfolding set_array_region
  set_array_region-Changes element_size array start count none s = throw_named-Changes m fine _ _ s
  set_array_region-Changes element_size array start count (some input) s =
      either_Changes_of _ _ _ (stored_region-Changes _ array start count input s)
        (throw_named-Changes m fine _ _ s)

  pub get_string_region-Changes :
      (string start count output : ℕ) (s : State)
      → Changes m s (get_string_region m string start count output s).1
  unfolding get_string_region string_index_error
  get_string_region-Changes string start count output s =
      either_Changes_of _ _ _ here (throw_named-Changes m fine _ _ s)

  pub get_string_utf_region-Changes :
      (string start count output : ℕ) (s : State)
      → Changes m s (get_string_utf_region m string start count output s).1
  unfolding get_string_utf_region string_index_error
  get_string_utf_region-Changes string start count output s =
      either_Changes_of _ _ _ here (throw_named-Changes m fine _ _ s)

  string_of_units-Changes :
      (units : Option (List ℕ)) (count : ℕ) (s : State)
      → Changes m s (string_of_units m units count s).1
  unfolding string_of_units
  string_of_units-Changes none count s = search (either_Changes_of, jni_string-Changes m fine, here)
  string_of_units-Changes (some units) count s =
      search (either_Changes_of, jni_string-Changes m fine, here)

  pub new_string-Changes :
      (units : Option (List ℕ)) (count : ℕ) (s : State) → Changes m s (new_string m units count s).1
  unfolding new_string
  new_string-Changes units count s =
      either_Changes_of _ _ _ (throw_named-Changes m fine _ _ s)
        (string_of_units-Changes units count s)
