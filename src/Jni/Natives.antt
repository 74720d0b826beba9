-- ===== src/Jni/Natives.antt =====
-- The registered natives of jni_bridge.c. Records are never taken off the list: a record whose
-- function is NULL is free for the same name.
pub mod Records
pub mod Laws
pub mod Forget
use tasm2_nextos.Prelude.{
  ℕ, ◌+◌, ◌-◌, ◌%◌, ◌^◌, ◌==◌, not, ◌&&◌, ◌||◌, leb, Bool, true, false, Option, none, some, List,
  [], ◌∷◌, if◌then◌else◌,
}
use tasm2_nextos.Jni.State.{Text, Handle, Native, State, Memory, text_equal, text_or}
use tasm2_nextos.Jni.Handles.{duplicate, lookup_handle}
use tasm2_nextos.Jni.Throw.{Status, jni_ok, jni_err, negative}

-- The record is for the method.
unfoldable pub names : Text → Text → Text → Native → Bool
names class_name name signature item =
    text_equal item.class_name class_name
    && text_equal item.name name
    && text_equal item.signature signature

-- The first loop of `asm2_register_natives`: the function of the record that was found.
unfoldable pub find_record : Text → Text → Text → List Native → Option ℕ
find_record class_name name signature [] = none
find_record class_name name signature (item ∷ rest) =
    if names class_name name signature item
    then some item.function
    else find_record class_name name signature rest

-- `record->function = function;`
unfoldable pub store_function : Text → Text → Text → ℕ → List Native → List Native
store_function class_name name signature function [] = []
store_function class_name name signature function (item ∷ rest) =
    if names class_name name signature item
    then record item { function = function } ∷ rest
    else item ∷ store_function class_name name signature function rest

-- The count of active records, a `size_t` of 32 bits, from whether the record was active and is.
unfoldable pub settle_count : Bool → Bool → ℕ → ℕ
settle_count false true n = (n + 1) % 2 ^ 32
settle_count true false n = n - 1
settle_count false false n = n
settle_count true true n = n

abbrev pub is_set : ℕ → Bool
is_set function = not (function == 0)

-- `sizeof(asm2_registered_native)`
abbrev pub native_size : ℕ
native_size = 20

module _ (m : Memory) where
  unfoldable pub register_in : Option ℕ → Text → List ℕ → List ℕ → ℕ → State → Bool × State
  register_in (some old) class_name name signature function s = (
    true,
    record s {
      natives = store_function class_name (some name) (some signature) function s.natives;
      native_count = settle_count (is_set old) (is_set function) s.native_count;
    },
  )
  register_in none class_name name signature function s =
      if m.enough s native_size
      then (
        true,
        record s {
          natives =
              record {
                class_name = duplicate m s class_name;
                name = duplicate m s (some name);
                signature = duplicate m s (some signature);
                function = function;
              }
              ∷ s.natives;
          native_count = settle_count false (is_set function) s.native_count;
        },
      )
      else (false, s)

  -- The part of `asm2_register_natives` under the lock, for one method.
  unfoldable pub register_native : Text → List ℕ → List ℕ → ℕ → State → Bool × State
  register_native class_name name signature function s =
      register_in (find_record class_name (some name) (some signature) s.natives) class_name name
        signature function s

  -- `call_back` is the program's `native_callback`, or nothing if that is NULL.
  module _ (call_back : Text → List ℕ → List ℕ → ℕ → State → State) where
    unfoldable pub after_native : Text → List ℕ → List ℕ → ℕ → Bool × State → Bool × State
    after_native class_name name signature function (false, s) = (false, s)
    after_native class_name name signature function (true, s) =
        (true, call_back class_name name signature function s)

    -- The loop of `asm2_register_natives` over the table, which the first failure ends.
    unfoldable pub continue_natives : (State → Status × State) → Bool × State → Status × State
    continue_natives rest (false, s) = (jni_err, s)
    continue_natives rest (true, s) = rest s

    unfoldable pub register_each : Text → List (Text × Text × ℕ) → State → Status × State
    register_each class_name [] s = (jni_ok, s)
    register_each class_name ((name, signature, function) ∷ methods) s =
        continue_natives (register_each class_name methods) (
          after_native class_name (text_or [] name) (text_or [] signature) function
            (register_native class_name (text_or [] name) (text_or [] signature) function s))

    -- `asm2_register_natives`: the table is `none` for NULL, and else of `count` methods
    unfoldable pub register_all :
        Option Handle → Option (List (Text × Text × ℕ)) → ℕ → State → Status × State
    register_all none methods count s = (jni_err, s)
    register_all (some class_item) none count s = (jni_err, s)
    register_all (some class_item) (some methods) count s =
        if negative count then (jni_err, s) else register_each class_item.class_name methods s

    unfoldable pub register_natives :
        ℕ → Option (List (Text × Text × ℕ)) → ℕ → State → Status × State
    register_natives class_handle methods count s =
        register_all (lookup_handle s class_handle) methods count s

-- The loop of `asm2_unregister_natives`: the records and the count.
unfoldable pub forget_class : Text → List Native → ℕ → List Native × ℕ
forget_class class_name [] n = ([], n)
forget_class class_name (item ∷ rest) n =
    let gone = is_set item.function && text_equal item.class_name class_name in
    let (others, k) = forget_class class_name rest (if gone then n - 1 else n) in
    (record item { function = if gone then 0 else item.function } ∷ others, k)

unfoldable pub unregister_class : Option Handle → State → Status × State
unregister_class none s = (jni_err, s)
unregister_class (some class_item) s =
    let (rest, n) = forget_class class_item.class_name s.natives s.native_count in
    (jni_ok, record s { natives = rest; native_count = n })

-- `asm2_unregister_natives`
unfoldable pub unregister_natives : ℕ → State → Status × State
unregister_natives class_handle s = unregister_class (lookup_handle s class_handle) s

-- `asm2_jni_find_registered_native`
unfoldable pub find_function : Text → Text → Text → List Native → ℕ
find_function class_name name signature [] = 0
find_function class_name name signature (item ∷ rest) =
    if is_set item.function && names class_name name signature item
    then item.function
    else find_function class_name name signature rest

unfoldable pub find_registered_native : State → Text → Text → Text → ℕ
find_registered_native s class_name name signature =
    find_function class_name name signature s.natives

-- `asm2_jni_registered_native_count`
unfoldable pub registered_native_count : State → ℕ
registered_native_count s = s.native_count
