-- ===== src/Jni/DataTests.antt =====
-- The theorems about bundles, natives and arrays applied to concrete states.
use tasm2_nextos.Prelude.{
  ℕ, ◌==◌, ◌≡◌, refl, sym, ap, subst, ◌&&◌, true, some, List, [], ◌∷◌, codes, length, same_text,
  arith, if◌then◌else◌,
}
use tasm2_nextos.Jni.State.{text_equal, int_value, array_kind, class_kind, cells, Handle, State}
use tasm2_nextos.Jni.Handles.{
  handle_bucket, mix, duplicate, find_handle, walk, blank, lookup_handle, publish_intern,
  enter_handle, entered_at, allocate_handle, first_fit,
}
use tasm2_nextos.Jni.Intern.{intern, found_or_made, published, new_object_handle, or_object}
use tasm2_nextos.Jni.Throw.{jni_bundle}
use tasm2_nextos.Jni.Arrays.{
  settle_array, is_null, array_data, count_bytes, region_valid, in_region, stored_region,
  contents_of, copied, new_array, set_array_region, get_array_region,
}
use tasm2_nextos.Jni.Arrays.Laws.{IsSized, sized, get_array_region-set_array_region}
use tasm2_nextos.Jni.Bundle.{
  bundle_set, set_key, set_in, is_bundle, bundle_find, find_entry, entries_of, bundle_get,
}
use tasm2_nextos.Jni.Bundle.Laws.{bundle_get-bundle_set}
use tasm2_nextos.Jni.Natives.{
  register_in, find_record, find_registered_native, register_native, unregister_natives,
}
use tasm2_nextos.Jni.Natives.Records.{active, same_method}
use tasm2_nextos.Jni.Natives.Laws.{
  IsRegistered, register_native-IsRegistered, find_registered_native-register_native,
}
use tasm2_nextos.Jni.Natives.Forget.{find_registered_native-unregister_natives}
use tasm2_nextos.Jni.HandleTests.{plain, empty, with_class}

abbrev with_bundle : State
with_bundle = (jni_bundle plain empty).1

abbrev k_key : List ℕ
k_key = codes "k"

abbrev with_entry : State
with_entry = (bundle_set plain 16 (some k_key) int_value 5 with_bundle).1

entry_set : bundle_set plain 16 (some k_key) int_value 5 with_bundle ≡ (true, with_entry)
unfolding bundle_set set_key set_in is_bundle bundle_find find_entry entries_of jni_bundle
    new_object_handle or_object allocate_handle entered_at enter_handle handle_bucket mix duplicate
    blank find_handle walk text_equal same_text
entry_set = refl

bundle_get-bundle_set_example : bundle_get with_entry 16 (some k_key) ≡ (
    if (16 == 16) && same_text k_key k_key
    then some (record { key = k_key; kind = int_value; value = 5 })
    else bundle_get with_bundle 16 (some k_key))
bundle_get-bundle_set_example =
    bundle_get-bundle_set plain 16 k_key int_value 5 16 k_key with_bundle with_entry entry_set

empty-IsRegistered : IsRegistered empty
unfolding active
empty-IsRegistered = record { single = λ k. tt; counted = refl }

abbrev with_native : State
with_native = (register_native plain (some (codes "C")) (codes "f") (codes "()V") 4096 empty).1

native_set :
    register_native plain (some (codes "C")) (codes "f") (codes "()V") 4096 empty
    ≡ (true, with_native)
unfolding register_native register_in find_record
native_set = refl

find_registered_native-register_native_example :
    find_registered_native with_native (some (codes "C")) (some (codes "f")) (some (codes "()V"))
    ≡ (if same_method (codes "C", codes "f", codes "()V") (codes "C", codes "f", codes "()V")
        then 4096
        else find_registered_native empty
            (some (codes "C"))
            (some (codes "f"))
            (some (codes "()V")))
find_registered_native-register_native_example =
    find_registered_native-register_native plain (codes "C", codes "f", codes "()V") 4096 empty
      with_native (codes "C", codes "f", codes "()V") empty-IsRegistered (λ n. refl) native_set

-- A class with a registered method.
abbrev class_handle : Handle
class_handle = blank class_kind (some (codes "a/B"))

with_class-IsRegistered : IsRegistered with_class
unfolding active intern found_or_made first_fit published allocate_handle entered_at publish_intern
    enter_handle
with_class-IsRegistered = record { single = λ k. tt; counted = refl }

abbrev with_method : State
with_method =
    (register_native plain (some (codes "a/B")) (codes "f") (codes "()V") 4096 with_class).1

with_method-IsRegistered : IsRegistered with_method
unfolding active intern found_or_made first_fit published allocate_handle entered_at publish_intern
    enter_handle
with_method-IsRegistered =
    register_native-IsRegistered plain (codes "a/B", codes "f", codes "()V") 4096 with_class
      with_class-IsRegistered (omega arith)

class_found : lookup_handle with_method 16 ≡ some class_handle
unfolding register_native register_in find_record intern found_or_made first_fit published
    allocate_handle entered_at publish_intern enter_handle lookup_handle find_handle walk
    handle_bucket mix duplicate
class_found = refl

find_registered_native-unregister_natives_example :
    (find_registered_native
        (unregister_natives 16 with_method).1
        (some (codes "a/B"))
        (some (codes "f"))
        (some (codes "()V"))
      ≡ (if same_text (codes "a/B") (codes "a/B")
          then 0
          else find_registered_native with_method
              (some (codes "a/B"))
              (some (codes "f"))
              (some (codes "()V"))))
    × IsRegistered (unregister_natives 16 with_method).1
unfolding blank
find_registered_native-unregister_natives_example =
    find_registered_native-unregister_natives with_method 16 (codes "a/B") class_handle
      with_method-IsRegistered (codes "a/B", codes "f", codes "()V") class_found refl

abbrev with_array : State
with_array = (new_array plain (codes "[I") 4 4 empty).1

abbrev array_handle : Handle
array_handle = record (blank array_kind (some (codes "[I"))) {
  contents = cells (0 ∷ 0 ∷ 0 ∷ 0 ∷ []);
  size = 4;
  element_size = 4;
}

array_found : lookup_handle with_array 16 ≡ some array_handle
unfolding lookup_handle find_handle walk new_array settle_array allocate_handle entered_at is_null
    array_data count_bytes enter_handle handle_bucket mix duplicate blank
array_found = refl

array-IsSized : IsSized (some array_handle)
unfolding blank
array-IsSized =
    sized array_handle
      (λ xs e. let q : ◌≡◌ {A = List ℕ} (0 ∷ 0 ∷ 0 ∷ 0 ∷ []) xs = cc in ap length (sym q))

abbrev written : State
written = (set_array_region plain 4 16 1 2 (some (7 ∷ 8 ∷ [])) with_array).1

region_set : set_array_region plain 4 16 1 2 (some (7 ∷ 8 ∷ [])) with_array ≡ (copied [], written)
unfolding set_array_region region_valid in_region stored_region contents_of lookup_handle
    find_handle walk new_array settle_array allocate_handle entered_at is_null array_data
    count_bytes enter_handle handle_bucket mix duplicate blank
region_set = refl

get_array_region-set_array_region_example :
    get_array_region plain 4 16 1 2 64 written ≡ (copied (7 ∷ 8 ∷ []), written)
get_array_region-set_array_region_example =
    get_array_region-set_array_region plain 4 16 1 2 (7 ∷ 8 ∷ []) 64 with_array written refl
      (λ e. absurd (omega (arith, e))) (subst IsSized (sym array_found) array-IsSized) region_set
