-- ===== src/Jni/Throw.antt =====
-- Exceptions of jni_bridge.c, and the functions of the JNI table on classes and objects.
use tasm2_nextos.Prelude.{
  ℕ, ◌^◌, ◌==◌, leb, ◌||◌, Bool, true, false, Option, none, some, List, [], codes, if◌then◌else◌,
}
use tasm2_nextos.Jni.State.{
  Text, class_kind, throwable_kind, direct_buffer_kind, is_kind, foreign, Block, no_data, cells,
  Handle, State, Memory, text_equal, text_or,
}
use tasm2_nextos.Jni.Handles.{duplicate, lookup_handle, allocate_handle}
use tasm2_nextos.Jni.Intern.{java_object, class_name_or, jni_class, jni_object, new_object_handle}

-- `ASM2_JNI_OK`, and `ASM2_JNI_ERR` for a call that fails
pub data Status : Type 0 where
  jni_ok jni_err jni_eversion : Status

-- A negative `asm2_jint`.
abbrev pub negative : ℕ → Bool
negative i = leb (2 ^ 31) i

unfoldable pub raise : ℕ → State → State
raise throwable s = record s { pending_exception = throwable }

-- `asm2_exception_occurred`, `asm2_exception_check` and `asm2_exception_clear`
unfoldable pub exception_occurred : State → ℕ
exception_occurred s = s.pending_exception

unfoldable pub exception_check : State → Bool
exception_check s = if s.pending_exception == 0 then false else true

unfoldable pub exception_clear : State → State
exception_clear s = raise 0 s

module _ (m : Memory) where
  -- `asm2_throw`
  unfoldable pub throw : ℕ → State → Status × State
  throw throwable s =
      if throwable == 0
      then (let (made, s1) = jni_object m (some (codes "java/lang/Throwable")) s in
          (jni_ok, raise made s1))
      else (jni_ok, raise throwable s)

  unfoldable pub raised : ℕ × State → Status × State
  raised (throwable, s) = ((if throwable == 0 then jni_err else jni_ok), raise throwable s)

  -- `asm2_throw_new`
  unfoldable pub throw_new : ℕ → Text → State → Status × State
  throw_new class_handle message s = raised (
      allocate_handle m throwable_kind
        (some (class_name_or (codes "java/lang/RuntimeException") (lookup_handle s class_handle)))
        (λ item. record item { text = duplicate m s (some (text_or [] message)) }) s)

  -- `asm2_throw_new(environment, asm2_jni_class(name), message)`
  unfoldable pub throw_named : List ℕ → List ℕ → State → State
  throw_named name message s =
      let (class_handle, s1) = jni_class m (some name) s in
      (throw_new class_handle (some message) s1).1

  -- `asm2_fatal_error`
  unfoldable pub fatal_error : Text → State → State
  fatal_error message s =
      let (class_handle, s1) = jni_class m (some (codes "java/lang/InternalError")) s in
      (throw_new class_handle message s1).1

  unfoldable pub superclass_of : Option Handle → State → ℕ × State
  superclass_of none s = jni_class m (some java_object) s
  superclass_of (some item) s =
      if text_equal item.class_name (some java_object)
      then (0, s)
      else jni_class m (some java_object) s

  -- `asm2_get_superclass`
  unfoldable pub get_superclass : ℕ → State → ℕ × State
  get_superclass class_handle s = superclass_of (lookup_handle s class_handle) s

  -- `asm2_jni_bundle`
  unfoldable pub jni_bundle : State → ℕ × State
  jni_bundle = new_object_handle m (some (codes "android/os/Bundle"))

  unfoldable pub object_of : Option Handle → State → ℕ × State
  object_of none s = jni_object m (some java_object) s
  object_of (some item) s =
      if text_equal item.class_name (some (codes "android/os/Bundle"))
      then jni_bundle s
      else jni_object m item.class_name s

  -- `asm2_alloc_object`
  unfoldable pub alloc_object : ℕ → State → ℕ × State
  alloc_object class_handle s = object_of (lookup_handle s class_handle) s

  unfoldable pub class_of : Option Handle → State → ℕ × State
  class_of none s = jni_class m (some java_object) s
  class_of (some item) s =
      jni_class m
        (if is_kind item.kind class_kind then some (codes "java/lang/Class") else item.class_name) s

  -- `asm2_get_object_class`
  unfoldable pub get_object_class : ℕ → State → ℕ × State
  get_object_class object s = class_of (lookup_handle s object) s

  -- `asm2_new_direct_byte_buffer`, where `capacity` is of 64 bits
  unfoldable pub new_direct_byte_buffer : ℕ → ℕ → State → ℕ × State
  new_direct_byte_buffer address capacity s =
      if (address == 0) || leb (2 ^ 63) capacity
      then (0, s)
      else allocate_handle m direct_buffer_kind (some (codes "java/nio/DirectByteBuffer"))
          (λ item. record item { contents = foreign address; capacity = capacity }) s

-- The same class, or a class below `java/lang/Object`.
unfoldable pub extends : Option Handle → Option Handle → Bool
extends none super = false
extends (some sub) none = false
extends (some sub) (some super) =
    text_equal sub.class_name super.class_name || text_equal super.class_name (some java_object)

-- `asm2_is_assignable`
unfoldable pub is_assignable : State → ℕ → ℕ → Bool
is_assignable s subclass superclass =
    extends (lookup_handle s subclass) (lookup_handle s superclass)

-- `asm2_is_instance_of`
unfoldable pub is_instance_of : State → ℕ → ℕ → Bool
is_instance_of s object class_handle =
    if object == 0 then true else extends (lookup_handle s object) (lookup_handle s class_handle)

-- `asm2_is_same_object`, `asm2_ensure_local_capacity`, `asm2_get_object_ref_type`
unfoldable pub is_same_object : ℕ → ℕ → Bool
is_same_object left right = left == right

unfoldable pub ensure_local_capacity : ℕ → Status
ensure_local_capacity capacity = if negative capacity then jni_err else jni_ok

unfoldable pub get_object_ref_type : ℕ → ℕ
get_object_ref_type object = if object == 0 then 0 else 1

-- `asm2_valid_jni_version` and `asm2_vm_get_env`: the status, and what is written through the pointer
unfoldable pub valid_jni_version : ℕ → Bool
valid_jni_version version =
    (version == 0x00010001)
    || (version == 0x00010002)
    || (version == 0x00010004)
    || (version == 0x00010006)

unfoldable pub vm_get_env : ℕ → ℕ → ℕ → Status × Option ℕ
vm_get_env functions environment version =
    if environment == 0
    then (jni_err, none)
    else if valid_jni_version version
    then (jni_ok, some functions)
    else (jni_eversion, some 0)

-- `asm2_get_direct_buffer_address` and `_capacity`: `none` is -1
unfoldable pub address_of : Block → ℕ
address_of no_data = 0
address_of (cells xs) = 0
address_of (foreign a) = a

unfoldable pub buffer_address_of : Option Handle → ℕ
buffer_address_of none = 0
buffer_address_of (some item) =
    if is_kind item.kind direct_buffer_kind then address_of item.contents else 0

unfoldable pub get_direct_buffer_address : State → ℕ → ℕ
get_direct_buffer_address s buffer = buffer_address_of (lookup_handle s buffer)

unfoldable pub buffer_capacity_of : Option Handle → Option ℕ
buffer_capacity_of none = none
buffer_capacity_of (some item) =
    if is_kind item.kind direct_buffer_kind then some item.capacity else none

unfoldable pub get_direct_buffer_capacity : State → ℕ → Option ℕ
get_direct_buffer_capacity s buffer = buffer_capacity_of (lookup_handle s buffer)
