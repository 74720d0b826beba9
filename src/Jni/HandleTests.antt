-- ===== src/Jni/HandleTests.antt =====
-- A concrete allocator, program and history, on which the theorems about handles are applied.
use tasm2_nextos.Prelude.{
  ℕ, ◌+◌, ◌*◌, ◌≡◌, ◌≢◌, ◌↔◌, refl, sym, ap, ◌∙◌, true, Option, none, some, List, [], ◌∷◌, codes,
  length, arith, some_eq,
}
use tasm2_nextos.Jni.State.{text_or, Handle, Stats, State, Memory}
use tasm2_nextos.Jni.Handles.{
  intern_bucket, hash_text, absorb, hash_bytes, publish_intern, enter_handle, entered_at,
  allocate_handle, first_fit,
}
use tasm2_nextos.Jni.Intern.{intern, found_or_made, published}
use tasm2_nextos.Jni.Methods.{Config}
use tasm2_nextos.Jni.Keys.{Key, class_key, string_key, intern_key}
use tasm2_nextos.Jni.Table.{Table, here}
use tasm2_nextos.Jni.Steps.{IsFresh}
use tasm2_nextos.Jni.Api.{Program, Op, find_class, new_string_utf, make_array, raise_new, run}
use tasm2_nextos.Jni.History.{Uses, run-Table}
use tasm2_nextos.Jni.Canonical.{intern_key-run, intern_key_iff}

-- The next address, if it is free; `malloc` never fails.
abbrev free_address : ℕ → Option Handle → Option ℕ
free_address a none = some a
free_address a (some h) = none

abbrev pub plain : Memory
plain = record {
  calloc_handle = λ s. let a = 16 * (length s.handles + 1) in free_address a (s.heap a);
  enough = λ s n. true;
}

plain-IsFresh : IsFresh plain
plain-IsFresh = record {
  fresh =
      λ s a e. address s.heap (length s.handles) a (s.heap (16 * (length s.handles + 1))) refl e;
}
  where
    address :
        (heap : ℕ → Option Handle) (n a : ℕ) (o : Option Handle)
        → heap (16 * (n + 1)) ≡ o
        → free_address (16 * (n + 1)) o ≡ some a
        → (a ≢ 0) × (heap a ≡ none)
    address heap n a none q e =
        let p : 16 * (n + 1) ≡ a = some_eq e in
        (λ z. absurd (omega (arith, p, z)), ap heap (sym p) ∙ q)
    address heap n a (some h) q e = cc

abbrev no_config : Config
no_config = record {
  package_name = none;
  external_storage = none;
  files_directory = none;
  cache_directory = none;
  locale_language = none;
  locale_country = none;
  device_model = none;
  device_manufacturer = none;
  android_release = none;
  sdk_int = 19;
  screen_width = 640;
  screen_height = 480;
  screen_density = 0;
}

-- A program without callbacks.
abbrev silent : Program
silent = record {
  config = no_config;
  method_callback = λ f r args s. (none, s);
  field_get_callback = λ f r s. (none, s);
  field_set_callback = λ f r v s. s;
  native_callback = λ c n g f s. s;
}

silent-Uses : Uses plain silent
silent-Uses = record {
  calls = λ f r args s. here;
  gets = λ f r s. here;
  puts = λ f r v s. here;
  natives = λ c n g f s. here;
}

abbrev no_stats : Stats
no_stats = record {
  handles = 0;
  classes = 0;
  objects = 0;
  strings = 0;
  arrays = 0;
  array_bytes = 0;
  method_ids = 0;
  field_ids = 0;
  direct_buffers = 0;
  throwables = 0;
  bundle_entries = 0;
  longest_handle_bucket = 0;
  longest_intern_bucket = 0;
}

abbrev pub empty : State
empty = record {
  heap = λ a. none;
  handles = [];
  handle_buckets = λ b. [];
  intern_buckets = λ b. [];
  handle_bucket_lengths = λ b. 0;
  intern_bucket_lengths = λ b. 0;
  natives = [];
  native_count = 0;
  stats = no_stats;
  pending_exception = 0;
}

empty-Table : Table empty
empty-Table = record {
  null = refl;
  sound = λ b a on. elim on [ ];
  complete = λ a h e. cc;
  interned = λ b a on. elim on [ ];
}

abbrev history : List Op
history =
    new_string_utf (some (codes "a/B"))
    ∷ make_array (codes "[I") 4 3
    ∷ raise_new 16 none
    ∷ find_class (some (codes "C"))
    ∷ []

run-Table_example : Table (run plain silent history empty)
run-Table_example = run-Table plain silent plain-IsFresh silent-Uses history empty empty-Table

-- The class is interned first, and then the string of the same text.
abbrev the_class : Key
the_class = class_key (codes "a/B")

abbrev pub with_class : State
with_class = (intern_key plain the_class empty).1

class_at : intern_key plain the_class empty ≡ (16, with_class)
unfolding intern found_or_made first_fit published allocate_handle entered_at
class_at = refl

intern_key-run_example :
    intern_key plain the_class (run plain silent history with_class)
    ≡ (16, run plain silent history with_class)
intern_key-run_example =
    intern_key-run plain silent plain-IsFresh silent-Uses the_class empty with_class 16 empty-Table
      (λ n. refl) class_at (λ e. absurd (omega (arith, e))) history

abbrev the_string : Key
the_string = string_key (codes "a/B")

abbrev with_string : State
with_string = (intern_key plain the_string (run plain silent [] with_class)).1

string_at : intern_key plain the_string (run plain silent [] with_class) ≡ (32, with_string)
unfolding intern found_or_made first_fit run published allocate_handle entered_at publish_intern
    intern_bucket hash_text absorb hash_bytes text_or enter_handle
string_at = refl

intern_key_iff_example : (◌≡◌ {A = ℕ} 16 32) ↔ (the_class ≡ the_string)
intern_key_iff_example =
    intern_key_iff plain silent plain-IsFresh silent-Uses the_class empty with_class 16 empty-Table
      (λ n. refl) class_at (λ e. absurd (omega (arith, e))) [] the_string 32 with_string (λ n. refl)
      string_at (λ e. absurd (omega (arith, e)))
