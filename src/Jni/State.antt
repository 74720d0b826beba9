-- ===== src/Jni/State.antt =====
-- The data of jni_bridge.c: handles, bundles, registered natives and the static variables.
-- Addresses are numbers and NULL is 0. An `asm2_jint` and a value of the union `asm2_jni_value` are
-- their bit patterns, of 32 and 64 bits. A C string is its text, without the 0, or `none` for NULL.
use tasm2_nextos.Prelude.{ℕ, ◌==◌, Bool, true, false, Option, none, some, List, same_text, update}
use mathlib.Core.Option

abbrev pub Text : Type 0
Text = Option (List ℕ)

-- `asm2_handle_kind`. The constructors follow the source's words, `class_kind` for `ASM2_HANDLE_CLASS`.
pub data HandleKind : Type 0 where
  class_kind object_kind string_kind method_kind : HandleKind
  field_kind array_kind direct_buffer_kind throwable_kind : HandleKind

abbrev pub handle_code : HandleKind → ℕ
handle_code class_kind = 0
handle_code object_kind = 1
handle_code string_kind = 2
handle_code method_kind = 3
handle_code field_kind = 4
handle_code array_kind = 5
handle_code direct_buffer_kind = 6
handle_code throwable_kind = 7

abbrev pub is_kind : HandleKind → HandleKind → Bool
is_kind j k = handle_code j == handle_code k

-- `asm2_bundle_value_kind`
pub data ValueKind : Type 0 where
  boolean_value int_value long_value object_value : ValueKind

abbrev pub value_code : ValueKind → ℕ
value_code boolean_value = 0
value_code int_value = 1
value_code long_value = 2
value_code object_value = 3

-- `asm2_bundle_entry`: the link is the list's.
pub record Entry : Type 0 where
  pub key : List ℕ
  pub kind : ValueKind
  pub value : ℕ

-- What `data` points at: nothing, the elements of an array, or memory of the guest.
pub data Block : Type 0 where
  no_data : Block
  cells : List ℕ → Block
  foreign : ℕ → Block

-- `asm2_handle`, without its three links, which are the lists of the state.
pub record Handle : Type 0 where
  pub kind : HandleKind
  pub class_name : Text
  pub name : Text
  pub signature : Text
  pub text : Text
  pub utf16 : Option (List ℕ)
  pub is_static : Bool
  pub has_value : Bool
  pub value : ℕ
  pub contents : Block
  pub size : ℕ
  pub element_size : ℕ
  pub capacity : ℕ
  pub bundle_entries : List Entry

-- `asm2_registered_native`
pub record Native : Type 0 where
  pub class_name : Text
  pub name : Text
  pub signature : Text
  pub function : ℕ

-- `struct asm2_jni_stats`
pub record Stats : Type 0 where
  pub handles : ℕ
  pub classes : ℕ
  pub objects : ℕ
  pub strings : ℕ
  pub arrays : ℕ
  pub array_bytes : ℕ
  pub method_ids : ℕ
  pub field_ids : ℕ
  pub direct_buffers : ℕ
  pub throwables : ℕ
  pub bundle_entries : ℕ
  pub longest_handle_bucket : ℕ
  pub longest_intern_bucket : ℕ

-- The static variables, and the heap of handles. `pending_exception` is of one thread.
pub record State : Type 0 where
  pub heap : ℕ → Option Handle
  pub handles : List ℕ
  pub handle_buckets : ℕ → List ℕ
  pub intern_buckets : ℕ → List ℕ
  pub handle_bucket_lengths : ℕ → ℕ
  pub intern_bucket_lengths : ℕ → ℕ
  pub natives : List Native
  pub native_count : ℕ
  pub stats : Stats
  pub pending_exception : ℕ

-- The allocator: where `calloc` puts a handle, if it succeeds, and whether the other calls of
-- `malloc` and `calloc` do, for so many bytes.
pub record Memory : Type 0 where
  pub calloc_handle : State → Option ℕ
  pub enough : State → ℕ → Bool

-- `asm2_text_equal`
unfoldable pub text_equal : Text → Text → Bool
text_equal none none = true
text_equal none (some b) = false
text_equal (some a) none = false
text_equal (some a) (some b) = same_text a b

-- `name ? name : other`
unfoldable pub text_or : List ℕ → Text → List ℕ
text_or other none = other
text_or other (some t) = t

-- A store of fields through a pointer to a handle.
unfoldable pub modify_handle : ℕ → (Handle → Handle) → State → State
modify_handle a f s = record s { heap = update s.heap a (Option.map f (s.heap a)) }
