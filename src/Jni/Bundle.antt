-- ===== src/Jni/Bundle.antt =====
-- The bundles of jni_bridge.c: `asm2_bundle_*` and `asm2_jni_bundle_*`.
pub mod Laws
use tasm2_nextos.Prelude.{
  ℕ, ◌+◌, ◌-◌, ◌%◌, ◌^◌, ◌==◌, ◌&&◌, not, ◌||◌, Bool, true, false, Option, none, some, List, [],
  ◌∷◌, codes, length, same_text, inc64, if◌then◌else◌,
}
use tasm2_nextos.Jni.State.{
  Text, object_kind, is_kind, ValueKind, boolean_value, int_value, long_value, object_value,
  value_code, Entry, Handle, State, Memory, text_equal, modify_handle,
}
use tasm2_nextos.Jni.Handles.{find_handle, lookup_handle}
use tasm2_nextos.Jni.Intern.{jni_string, jni_string_chars}
use tasm2_nextos.Jni.Arrays.{new_array, is_null, contents_of, store_cells}

-- `asm2_is_bundle`
unfoldable pub is_bundle : Option Handle → Bool
is_bundle none = false
is_bundle (some item) =
    is_kind item.kind object_kind && text_equal item.class_name (some (codes "android/os/Bundle"))

-- The loop of `asm2_bundle_find_locked`.
unfoldable pub find_entry : List ℕ → List Entry → Option Entry
find_entry key [] = none
find_entry key (entry ∷ rest) = if same_text entry.key key then some entry else find_entry key rest

unfoldable pub entries_of : Option Handle → List Entry
entries_of none = []
entries_of (some item) = item.bundle_entries

-- `asm2_bundle_find_locked`
unfoldable pub bundle_find : Option Handle → Text → Option Entry
bundle_find bundle none = none
bundle_find bundle (some key) =
    if is_bundle bundle then find_entry key (entries_of bundle) else none

-- The stores through the entry that was found.
unfoldable pub store_entry : List ℕ → ValueKind → ℕ → List Entry → List Entry
store_entry key kind value [] = []
store_entry key kind value (entry ∷ rest) =
    if same_text entry.key key
    then record entry { kind = kind; value = value } ∷ rest
    else entry ∷ store_entry key kind value rest

unfoldable pub change_entries : ℕ → (List Entry → List Entry) → State → State
change_entries bundle f =
    modify_handle bundle (λ item. record item { bundle_entries = f item.bundle_entries })

-- The new entry in front of the others.
unfoldable pub add_entry : ℕ → Entry → State → State
add_entry bundle entry s = record (change_entries bundle (λ entries. entry ∷ entries) s) {
  stats = record s.stats { bundle_entries = inc64 s.stats.bundle_entries };
}

-- `sizeof(asm2_bundle_entry)`
abbrev pub entry_size : ℕ
entry_size = 24

module _ (m : Memory) where
  unfoldable pub set_in : Option Entry → ℕ → List ℕ → ValueKind → ℕ → State → Bool × State
  set_in (some found) bundle key kind value s =
      (true, change_entries bundle (store_entry key kind value) s)
  set_in none bundle key kind value s =
      if m.enough s entry_size && m.enough s (length key + 1)
      then (true, add_entry bundle (record { key = key; kind = kind; value = value }) s)
      else (false, s)

  unfoldable pub set_key : ℕ → List ℕ → ValueKind → ℕ → State → Bool × State
  set_key bundle key kind value s =
      let item = find_handle s bundle in
      if is_bundle item
      then set_in (bundle_find item (some key)) bundle key kind value s
      else (false, s)

  -- `asm2_bundle_set`
  unfoldable pub bundle_set : ℕ → Text → ValueKind → ℕ → State → Bool × State
  bundle_set bundle none kind value s = (false, s)
  bundle_set bundle (some []) kind value s = (false, s)
  bundle_set bundle (some (c ∷ key)) kind value s = set_key bundle (c ∷ key) kind value s

  -- `asm2_jni_bundle_put_boolean`, `_int`, `_long`: the value as it stands in the union
  unfoldable pub jni_bundle_put_boolean : ℕ → Text → ℕ → State → Bool × State
  jni_bundle_put_boolean bundle key value =
      bundle_set bundle key boolean_value (if value == 0 then 0 else 1)

  unfoldable pub jni_bundle_put_int : ℕ → Text → ℕ → State → Bool × State
  jni_bundle_put_int bundle key value = bundle_set bundle key int_value value

  unfoldable pub jni_bundle_put_long : ℕ → Text → ℕ → State → Bool × State
  jni_bundle_put_long bundle key value = bundle_set bundle key long_value value

  -- `asm2_jni_bundle_put_string`
  unfoldable pub jni_bundle_put_string : ℕ → Text → Text → State → Bool × State
  jni_bundle_put_string bundle key none s = bundle_set bundle key object_value 0 s
  jni_bundle_put_string bundle key (some value) s =
      let (string, s1) = jni_string m (some value) s in bundle_set bundle key object_value string s1

  unfoldable pub copied_bytes : ℕ → ℕ → Option (List ℕ) → State → State
  copied_bytes array count none s = s
  copied_bytes array count (some bytes) s = store_cells array 0 count bytes s

  unfoldable pub put_array : ℕ → Text → Option (List ℕ) → ℕ → ℕ × State → Bool × State
  put_array bundle key bytes count (array, s) =
      if (array == 0) || (not (count == 0) && is_null (contents_of (s.heap array)))
      then (false, s)
      else bundle_set bundle key object_value array (copied_bytes array count bytes s)

  -- `asm2_jni_bundle_put_byte_array`
  unfoldable pub jni_bundle_put_byte_array : ℕ → Text → Option (List ℕ) → ℕ → State → Bool × State
  jni_bundle_put_byte_array bundle key bytes count s =
      put_array bundle key bytes count (new_array m (codes "[B") count 1 s)

-- `asm2_bundle_get`
unfoldable pub bundle_get : State → ℕ → Text → Option Entry
bundle_get s bundle key = bundle_find (find_handle s bundle) key

abbrev pub is_value : ValueKind → ValueKind → Bool
is_value j k = value_code j == value_code k

-- The value of an entry of the kind, as the union's member reads it; `none` is the result 0.
unfoldable pub typed_value : ValueKind → (ℕ → ℕ) → Option Entry → Option ℕ
typed_value kind read none = none
typed_value kind read (some entry) =
    if is_value entry.kind kind then some (read entry.value) else none

-- `asm2_jni_bundle_get_boolean`, `_int`, `_long`: `out` is the pointer
unfoldable pub read_boolean : ℕ → ℕ
read_boolean v = if v % 2 ^ 8 == 0 then 0 else 1

unfoldable pub read_word : ℕ → ℕ
read_word v = v % 2 ^ 32

unfoldable pub jni_bundle_get_boolean : State → ℕ → Text → ℕ → Option ℕ
jni_bundle_get_boolean s bundle key out =
    if out == 0 then none else typed_value boolean_value read_boolean (bundle_get s bundle key)

unfoldable pub jni_bundle_get_int : State → ℕ → Text → ℕ → Option ℕ
jni_bundle_get_int s bundle key out =
    if out == 0 then none else typed_value int_value read_word (bundle_get s bundle key)

unfoldable pub jni_bundle_get_long : State → ℕ → Text → ℕ → Option ℕ
jni_bundle_get_long s bundle key out =
    if out == 0 then none else typed_value long_value (λ v. v) (bundle_get s bundle key)

-- `asm2_jni_bundle_get_string`
unfoldable pub chars_at : State → Option ℕ → Text
chars_at s none = none
chars_at s (some string) = jni_string_chars s string

unfoldable pub jni_bundle_get_string : State → ℕ → Text → Text
jni_bundle_get_string s bundle key =
    chars_at s (typed_value object_value read_word (bundle_get s bundle key))

-- The loop of `asm2_bundle_clear` over the count of the statistics, which stops at 0.
unfoldable pub uncount : List Entry → ℕ → ℕ
uncount [] n = n
uncount (entry ∷ rest) n = uncount rest (n - 1)

-- `asm2_bundle_clear`
unfoldable pub bundle_clear : ℕ → State → State
bundle_clear bundle s =
    let item = find_handle s bundle in
    if is_bundle item
    then record (change_entries bundle (λ entries. []) s) {
      stats = record s.stats { bundle_entries = uncount (entries_of item) s.stats.bundle_entries };
    }
    else s
