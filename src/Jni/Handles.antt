-- ===== src/Jni/Handles.antt =====
-- The table of handles and the table of interned ones: `asm2_allocate_handle_locked`,
-- `asm2_find_handle_locked` and the `asm2_intern_*` functions.
use tasm2_nextos.Prelude.{
  ℕ, ◌+◌, ◌*◌, ◌/◌, ◌%◌, ◌^◌, ◌==◌, ltb, bit_xor, Bool, true, false, Option, none, some, List, [],
  ◌∷◌, length, update, inc32, inc64, if◌then◌else◌,
}
use tasm2_nextos.Jni.State.{
  Text, HandleKind, class_kind, object_kind, string_kind, method_kind, field_kind, array_kind,
  direct_buffer_kind, throwable_kind, handle_code, no_data, Handle, Stats, State, Memory, text_or,
}

-- `asm2_duplicate`
unfoldable pub duplicate : Memory → State → Text → Text
duplicate m s none = none
duplicate m s (some text) = if m.enough s (length text + 1) then some text else none

-- `ASM2_HANDLE_BUCKETS`
abbrev pub handle_bucket_count : ℕ
handle_bucket_count = 1024

-- A round of the hash, of 32-bit words.
unfoldable pub mix : ℕ → ℕ
mix value = bit_xor (value / 2 ^ 16) value * 0x45d9f3b % 2 ^ 32

-- `asm2_handle_bucket`
unfoldable pub handle_bucket : ℕ → ℕ
handle_bucket pointer =
    let value = mix (mix (pointer / 2 ^ 4)) in bit_xor value (value / 2 ^ 16) % handle_bucket_count

-- `hash ^= byte; hash *= UINT32_C(16777619);`
unfoldable pub absorb : ℕ → ℕ → ℕ
absorb hash byte = bit_xor hash byte * 16777619 % 2 ^ 32

unfoldable pub hash_bytes : ℕ → List ℕ → ℕ
hash_bytes hash [] = hash
hash_bytes hash (b ∷ text) = hash_bytes (absorb hash b) text

-- `asm2_hash_text`
unfoldable pub hash_text : ℕ → Text → ℕ
hash_text hash text = absorb (hash_bytes hash (text_or [] text)) 0xff

-- `asm2_intern_bucket`
unfoldable pub intern_bucket : HandleKind → Text → Text → Text → Text → Bool → ℕ
intern_bucket kind class_name name signature text is_static =
    let started = absorb (absorb 2166136261 (handle_code kind)) (if is_static then 1 else 0) in
    let hash =
      hash_text (hash_text (hash_text (hash_text started class_name) name) signature) text in
    bit_xor hash (hash / 2 ^ 16) % handle_bucket_count

-- `asm2_publish_intern_locked`
unfoldable pub publish_intern : ℕ → ℕ → State → State
publish_intern item bucket s =
    let len = inc32 (s.intern_bucket_lengths bucket) in
    record s {
      intern_buckets = update s.intern_buckets bucket (item ∷ s.intern_buckets bucket);
      intern_bucket_lengths = update s.intern_bucket_lengths bucket len;
      stats = record s.stats {
        longest_intern_bucket =
            if ltb s.stats.longest_intern_bucket len then len else s.stats.longest_intern_bucket;
      };
    }

-- The loop of `asm2_find_handle_locked`.
unfoldable pub walk : ℕ → List ℕ → Bool
walk pointer [] = false
walk pointer (item ∷ chain) = if item == pointer then true else walk pointer chain

-- `asm2_find_handle_locked`: what is found is the handle at the pointer.
unfoldable pub find_handle : State → ℕ → Option Handle
find_handle s pointer =
    if walk pointer (s.handle_buckets (handle_bucket pointer)) then s.heap pointer else none

-- `asm2_lookup_handle`
unfoldable pub lookup_handle : State → ℕ → Option Handle
lookup_handle s pointer = if pointer == 0 then none else find_handle s pointer

-- The `switch` on the kind.
unfoldable pub count_kind : HandleKind → Stats → Stats
count_kind class_kind t = record t { classes = inc64 t.classes }
count_kind object_kind t = record t { objects = inc64 t.objects }
count_kind string_kind t = record t { strings = inc64 t.strings }
count_kind method_kind t = record t { method_ids = inc64 t.method_ids }
count_kind field_kind t = record t { field_ids = inc64 t.field_ids }
count_kind array_kind t = record t { arrays = inc64 t.arrays }
count_kind direct_buffer_kind t = record t { direct_buffers = inc64 t.direct_buffers }
count_kind throwable_kind t = record t { throwables = inc64 t.throwables }

-- What `calloc` and the first two stores make of a handle.
unfoldable pub blank : HandleKind → Text → Handle
blank kind class_name = record {
  kind = kind;
  class_name = class_name;
  name = none;
  signature = none;
  text = none;
  utf16 = none;
  is_static = false;
  has_value = false;
  value = 0;
  contents = no_data;
  size = 0;
  element_size = 0;
  capacity = 0;
  bundle_entries = [];
}

-- The handle goes in front of the list of all and of its bucket, and is counted.
unfoldable pub enter_handle : ℕ → Handle → State → State
enter_handle a item s =
    let bucket = handle_bucket a in
    let len = inc32 (s.handle_bucket_lengths bucket) in
    record s {
      heap = update s.heap a (some item);
      handles = a ∷ s.handles;
      handle_buckets = update s.handle_buckets bucket (a ∷ s.handle_buckets bucket);
      handle_bucket_lengths = update s.handle_bucket_lengths bucket len;
      stats = count_kind item.kind (record s.stats {
        handles = inc64 s.stats.handles;
        longest_handle_bucket =
            if ltb s.stats.longest_handle_bucket len then len else s.stats.longest_handle_bucket;
      });
    }

unfoldable pub entered_at : Option ℕ → Handle → State → ℕ × State
entered_at none item s = (0, s)
entered_at (some a) item s = (a, enter_handle a item s)

-- `asm2_allocate_handle_locked`, and the stores that follow it before the lock is given back.
unfoldable pub allocate_handle : Memory → HandleKind → Text → (Handle → Handle) → State → ℕ × State
allocate_handle m kind class_name fill s =
    entered_at (m.calloc_handle s) (fill (blank kind (duplicate m s class_name))) s

-- The loop of the `asm2_intern_*` functions: the first handle of the chain that fits.
unfoldable pub fits_at : (Handle → Bool) → Option Handle → Bool
fits_at fits none = false
fits_at fits (some item) = fits item

unfoldable pub first_fit : (Handle → Bool) → (ℕ → Option Handle) → List ℕ → Option ℕ
first_fit fits heap [] = none
first_fit fits heap (a ∷ chain) =
    if fits_at fits (heap a) then some a else first_fit fits heap chain
