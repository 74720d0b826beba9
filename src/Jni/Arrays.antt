-- ===== src/Jni/Arrays.antt =====
-- Arrays of jni_bridge.c. An array of the program has elements of one
-- size, and `cells` is the list of their patterns.
pub mod Laws
use tasm2_nextos.Prelude.{
  ℕ, ◌+◌, ◌-◌, ◌*◌, ◌/◌, ◌%◌, ◌^◌, ◌==◌, ltb, leb, not, ◌&&◌, ◌||◌, Bool, true, false, Option, none,
  some, List, [], ◌∷◌, ◌++◌, codes, length, take, drop, get_elem?, set, replicate, if◌then◌else◌,
}
use tasm2_nextos.Jni.Text.{utf16_to_utf8}
use tasm2_nextos.Jni.State.{
  Text, string_kind, array_kind, is_kind, Block, no_data, cells, foreign, Handle, Stats, State,
  Memory, modify_handle,
}
use tasm2_nextos.Jni.Handles.{lookup_handle, allocate_handle}
use tasm2_nextos.Jni.Intern.{java_object, class_name_or, jni_object, jni_string, jni_string_chars}
use tasm2_nextos.Jni.Throw.{negative, raise, throw_named}

-- `SIZE_MAX` of a 32-bit guest, and the size of a pointer there
abbrev size_max : ℕ
size_max = 2 ^ 32 - 1

abbrev pub pointer_size : ℕ
pointer_size = 4

-- The data of a new array, if `calloc` is called and succeeds.
unfoldable pub array_data : Memory → State → ℕ → ℕ → Block
array_data m s count element_size =
    if not (count == 0) && leb element_size (size_max / count) && m.enough s (count * element_size)
    then cells (replicate count 0)
    else no_data

unfoldable pub count_bytes : Block → ℕ → State → State
count_bytes (cells xs) bytes s = record s {
  stats = record s.stats { array_bytes = (s.stats.array_bytes + bytes) % 2 ^ 64 };
}
count_bytes no_data bytes s = s
count_bytes (foreign a) bytes s = s

unfoldable pub is_null : Block → Bool
is_null no_data = true
is_null (cells xs) = false
is_null (foreign a) = false

-- The contents that a read through a pointer to a handle finds.
unfoldable pub contents_of : Option Handle → Block
contents_of none = no_data
contents_of (some item) = item.contents

-- `memcpy` of `count` elements from a list into the cells at `start`.
unfoldable pub put_cells : ℕ → ℕ → List ℕ → List ℕ → List ℕ
put_cells start count input xs = take start xs ++ (take count input ++ drop (start + count) xs)

unfoldable pub put_block : ℕ → ℕ → List ℕ → Block → Block
put_block start count input no_data = no_data
put_block start count input (cells xs) = cells (put_cells start count input xs)
put_block start count input (foreign a) = foreign a

unfoldable pub store_cells : ℕ → ℕ → ℕ → List ℕ → State → State
store_cells a start count input =
    modify_handle a (λ item. record item { contents = put_block start count input item.contents })

module _ (m : Memory) where
  -- The exception of an array of some length that has no data.
  unfoldable pub out_of_memory : ℕ × State → ℕ × State
  out_of_memory (item, s) =
      let (throwable, s1) = jni_object m (some (codes "java/lang/OutOfMemoryError")) s in
      (item, raise throwable s1)

  unfoldable pub settle_array : Block → ℕ → ℕ → ℕ × State → ℕ × State
  settle_array block count element_size (item, s) =
      if item == 0
      then (item, s)
      else if not (count == 0) && is_null block
      then out_of_memory (item, s)
      else (item, count_bytes block (count * element_size) s)

  -- `asm2_new_array`
  unfoldable pub new_array : List ℕ → ℕ → ℕ → State → ℕ × State
  new_array class_name count element_size s =
      let block = array_data m s count element_size in
      settle_array block count element_size (
        allocate_handle m array_kind (some class_name)
          (λ item. record item { contents = block; size = count; element_size = element_size }) s)

  -- `asm2_jni_int_array`: the values are `none` for NULL
  unfoldable pub filled_ints : ℕ → Option (List ℕ) → ℕ × State → ℕ × State
  filled_ints count none (item, s) = (item, s)
  filled_ints count (some values) (item, s) = (item, store_cells item 0 count values s)

  unfoldable pub jni_int_array : Option (List ℕ) → ℕ → State → ℕ × State
  jni_int_array values count s = filled_ints count values (new_array (codes "[I") count 4 s)

  -- `asm2_new_##stem##_array`
  unfoldable pub new_primitive_array : List ℕ → ℕ → ℕ → State → ℕ × State
  new_primitive_array descriptor element_size count s =
      if negative count then (0, s) else new_array descriptor count element_size s

  -- `asm2_new_object_array`: the descriptor is cut to the 511 characters that `snprintf` leaves
  unfoldable pub filled_objects : ℕ → ℕ → ℕ × State → ℕ × State
  filled_objects count initial (item, s) =
      if initial == 0
      then (item, s)
      else (item, store_cells item 0 count (replicate count initial) s)

  unfoldable pub new_object_array : ℕ → ℕ → ℕ → State → ℕ × State
  new_object_array count class_handle initial s =
      if negative count
      then (0, s)
      else let component = class_name_or java_object (lookup_handle s class_handle) in
        filled_objects count initial
          (new_array (take 511 (codes "[L" ++ component ++ codes ";")) count pointer_size s)

-- `asm2_array_index`, and the test of the element's size behind it
unfoldable pub array_index : Option Handle → ℕ → Bool
array_index none index = false
array_index (some array) index =
    is_kind array.kind array_kind && not (negative index) && ltb index array.size

unfoldable pub object_index : Option Handle → ℕ → Bool
object_index none index = false
object_index (some array) index =
    array_index (some array) index && array.element_size == pointer_size

-- What a call does with memory: it copies, it throws, or it uses NULL as an array.
pub data Access : Type 0 where
  copied : List ℕ → Access
  thrown : Access
  fault : Access

unfoldable pub element_at : ℕ → Block → Access
element_at index no_data = fault
element_at index (foreign a) = fault
element_at index (cells xs) = elim (get_elem? xs index) [ none ↦ fault | some x ↦ copied (x ∷ []) ]

-- A copy of no element does not touch the memory.
unfoldable pub region_at : ℕ → ℕ → Block → Access
region_at start count no_data = if count == 0 then copied [] else fault
region_at start count (foreign a) = if count == 0 then copied [] else fault
region_at start count (cells xs) = copied (take count (drop start xs))

-- The condition of the region functions, all but the test of the pointer.
unfoldable pub in_region : ℕ → ℕ → ℕ → Bool
in_region len start count =
    not (negative start) && not (negative count) && leb start len && leb count (len - start)

unfoldable pub region_valid : Option Handle → ℕ → ℕ → ℕ → Bool
region_valid none element_size start count = false
region_valid (some array) element_size start count =
    is_kind array.kind array_kind
    && in_region array.size start count
    && array.element_size == element_size

unfoldable size_of : Option Handle → ℕ
size_of none = 0
size_of (some item) = if is_kind item.kind array_kind then item.size else 0

-- `asm2_get_array_length`
unfoldable get_array_length : State → ℕ → ℕ
get_array_length s array = size_of (lookup_handle s array)

unfoldable elements_of : Option Handle → ℕ → Block
elements_of none element_size = no_data
elements_of (some array) element_size =
    if is_kind array.kind array_kind && array.element_size == element_size
    then array.contents
    else no_data

-- `asm2_get_##stem##_array_elements`
unfoldable get_array_elements : ℕ → ℕ → State → Block
get_array_elements element_size array s = elements_of (lookup_handle s array) element_size

module _ (m : Memory) where
  -- `asm2_get_object_array_element`
  unfoldable pub get_object_array_element : ℕ → ℕ → State → Access × State
  get_object_array_element array index s =
      let item = lookup_handle s array in
      if object_index item index then (element_at index (contents_of item), s) else (
        thrown,
        throw_named m (codes "java/lang/ArrayIndexOutOfBoundsException")
            (codes "GetObjectArrayElement") s,
      )

  -- `asm2_set_object_array_element`
  unfoldable pub stored_element : Block → ℕ → ℕ → ℕ → State → Access × State
  stored_element no_data array index value s = (fault, s)
  stored_element (foreign a) array index value s = (fault, s)
  stored_element (cells xs) array index value s =
      (copied [], store_cells array index 1 (value ∷ []) s)

  unfoldable pub set_object_array_element : ℕ → ℕ → ℕ → State → Access × State
  set_object_array_element array index value s =
      let item = lookup_handle s array in
      if object_index item index then stored_element (contents_of item) array index value s else (
        thrown,
        throw_named m (codes "java/lang/ArrayIndexOutOfBoundsException")
            (codes "SetObjectArrayElement") s,
      )

  -- `asm2_get_##stem##_array_region`; `output` is the pointer
  unfoldable pub get_array_region : ℕ → ℕ → ℕ → ℕ → ℕ → State → Access × State
  get_array_region element_size array start count output s =
      let item = lookup_handle s array in
      if region_valid item element_size start count && not (output == 0)
      then (region_at start count (contents_of item), s)
      else (
        thrown,
        throw_named m (codes "java/lang/ArrayIndexOutOfBoundsException") (codes "GetArrayRegion") s,
      )

  unfoldable pub stored_region : Block → ℕ → ℕ → ℕ → List ℕ → State → Access × State
  stored_region no_data array start count input s = (if count == 0 then copied [] else fault, s)
  stored_region (foreign a) array start count input s = (if count == 0 then copied [] else fault, s)
  stored_region (cells xs) array start count input s =
      (copied [], store_cells array start count input s)

  -- `asm2_set_##stem##_array_region`: the input is `none` for NULL
  unfoldable pub set_array_region : ℕ → ℕ → ℕ → ℕ → Option (List ℕ) → State → Access × State
  set_array_region element_size array start count none s = (
    thrown,
    throw_named m (codes "java/lang/ArrayIndexOutOfBoundsException") (codes "SetArrayRegion") s,
  )
  set_array_region element_size array start count (some input) s =
      let item = lookup_handle s array in
      if region_valid item element_size start count
      then stored_region (contents_of item) array start count input s
      else (
        thrown,
        throw_named m (codes "java/lang/ArrayIndexOutOfBoundsException") (codes "SetArrayRegion") s,
      )
