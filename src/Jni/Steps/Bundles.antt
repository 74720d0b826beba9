-- ===== src/Jni/Steps/Bundles.antt =====
-- The functions on bundles and on registered natives change the tables in those ways.
use tasm2_nextos.Prelude.{ℕ, refl, Bool, true, false, Option, none, some, List, [], ◌∷◌}
use tasm2_nextos.Jni.State.{Text, ValueKind, Entry, Handle, State, Memory, text_or}
use tasm2_nextos.Jni.Handles.{lookup_handle}
use tasm2_nextos.Jni.Bundle.{
  change_entries, add_entry, set_in, set_key, bundle_set, jni_bundle_put_string, copied_bytes,
  put_array, jni_bundle_put_byte_array, bundle_clear,
}
use tasm2_nextos.Jni.Natives.{
  register_in, register_native, after_native, continue_natives, register_each, register_all,
  register_natives, unregister_class, unregister_natives,
}
use tasm2_nextos.Jni.Throw.{Status}
use tasm2_nextos.Jni.Table.{quiet, modified, Changes, here, next}
use tasm2_nextos.Jni.Steps.{
  IsFresh, both, one, either_Changes, either_Changes_of, jni_string-Changes,
}
use tasm2_nextos.Jni.Steps.Data.{new_array-Changes, store_cells-Changes}

change_entries-Changes :
    {m : Memory} (bundle : ℕ) (f : List Entry → List Entry) (s : State)
    → Changes m s (change_entries bundle f s)
unfolding change_entries
change_entries-Changes bundle f s = one (modified s bundle _ (λ h. refl))

add_entry-Changes :
    {m : Memory} (bundle : ℕ) (entry : Entry) (s : State) → Changes m s (add_entry bundle entry s)
unfolding add_entry
add_entry-Changes bundle entry s = next (change_entries-Changes bundle _ s) (quiet _ _ refl)

module _ (m : Memory) where
  set_in-Changes :
      (o : Option Entry) (bundle : ℕ) (key : List ℕ) (kind : ValueKind) (value : ℕ) (s : State)
      → Changes m s (set_in m o bundle key kind value s).1
  unfolding set_in
  set_in-Changes (some found) bundle key kind value s = change_entries-Changes bundle _ s
  set_in-Changes none bundle key kind value s =
      either_Changes_of _ _ _ (add_entry-Changes bundle _ s) here

  pub bundle_set-Changes :
      (bundle : ℕ) (key : Text) (kind : ValueKind) (value : ℕ) (s : State)
      → Changes m s (bundle_set m bundle key kind value s).1
  unfolding bundle_set set_key
  bundle_set-Changes bundle none kind value s = here
  bundle_set-Changes bundle (some []) kind value s = here
  bundle_set-Changes bundle (some (c ∷ key)) kind value s =
      either_Changes_of _ _ _ (set_in-Changes _ bundle (c ∷ key) kind value s) here

  pub bundle_clear-Changes : (bundle : ℕ) (s : State) → Changes m s (bundle_clear bundle s)
  unfolding bundle_clear
  bundle_clear-Changes bundle s =
      either_Changes _ _ _ (next (change_entries-Changes bundle _ s) (quiet _ _ refl)) here

  module _ (fine : IsFresh m) where
    pub jni_bundle_put_string-Changes :
        (bundle : ℕ) (key value : Text) (s : State)
        → Changes m s (jni_bundle_put_string m bundle key value s).1
    unfolding jni_bundle_put_string
    jni_bundle_put_string-Changes bundle key none s = bundle_set-Changes bundle key _ 0 s
    jni_bundle_put_string-Changes bundle key (some value) s =
        both (jni_string-Changes m fine (some value) s) (bundle_set-Changes bundle key _ _ _)

    copied_bytes-Changes :
        (array count : ℕ) (bytes : Option (List ℕ)) (s : State)
        → Changes m s (copied_bytes m array count bytes s)
    unfolding copied_bytes
    copied_bytes-Changes array count none s = here
    copied_bytes-Changes array count (some bytes) s =
        store_cells-Changes m fine array 0 count bytes s

    put_array-Changes :
        (bundle : ℕ) (key : Text) (bytes : Option (List ℕ)) (count : ℕ) (p : ℕ × State)
        → Changes m p.1 (put_array m bundle key bytes count p).1
    unfolding put_array
    put_array-Changes bundle key bytes count (array, s) =
        either_Changes_of _ _ _ here
          (both (copied_bytes-Changes array count bytes s) (bundle_set-Changes bundle key _ _ _))

    pub jni_bundle_put_byte_array-Changes :
        (bundle : ℕ) (key : Text) (bytes : Option (List ℕ)) (count : ℕ) (s : State)
        → Changes m s (jni_bundle_put_byte_array m bundle key bytes count s).1
    unfolding jni_bundle_put_byte_array
    jni_bundle_put_byte_array-Changes bundle key bytes count s =
        both (new_array-Changes m fine _ count 1 s) (put_array-Changes bundle key bytes count _)

  register_in-Changes :
      (o : Option ℕ) (class_name : Text) (name signature : List ℕ) (function : ℕ) (s : State)
      → Changes m s (register_in m o class_name name signature function s).1
  unfolding register_in
  register_in-Changes (some old) class_name name signature function s = one (quiet s _ refl)
  register_in-Changes none class_name name signature function s =
      either_Changes_of _ _ _ (one (quiet s _ refl)) here

  -- A callback that uses the bridge by its functions only.
  module _ (call_back : Text → List ℕ → List ℕ → ℕ → State → State)
      (calls : (c : Text) (n g : List ℕ) (f : ℕ) (s : State)
        → Changes m s (call_back c n g f s)) where
    after_native-Changes :
        (c : Text) (n g : List ℕ) (f : ℕ) (p : Bool × State)
        → Changes m p.1 (after_native m call_back c n g f p).1
    unfolding after_native
    after_native-Changes c n g f (false, s) = here
    after_native-Changes c n g f (true, s) = calls c n g f s

    continue_natives-Changes :
        (rest : State → Status × State)
        → ((s : State) → Changes m s (rest s).1)
        → (p : Bool × State) → Changes m p.1 (continue_natives m call_back rest p).1
    unfolding continue_natives
    continue_natives-Changes rest h (false, s) = here
    continue_natives-Changes rest h (true, s) = h s

    register_each-Changes :
        (c : Text) (methods : List (Text × Text × ℕ)) (s : State)
        → Changes m s (register_each m call_back c methods s).1
    unfolding register_each register_native
    register_each-Changes c [] s = here
    register_each-Changes c ((n, g, f) ∷ methods) s =
        both
          (both (register_in-Changes _ c (text_or [] n) (text_or [] g) f s)
            (after_native-Changes c (text_or [] n) (text_or [] g) f _))
          (continue_natives-Changes (register_each m call_back c methods)
            (λ u. register_each-Changes c methods u) _)

    pub register_natives-Changes :
        (class_handle : ℕ) (methods : Option (List (Text × Text × ℕ))) (count : ℕ) (s : State)
        → Changes m s (register_natives m call_back class_handle methods count s).1
    unfolding register_natives register_all
    register_natives-Changes class_handle methods count s =
        go (lookup_handle s class_handle) methods
      where
        go :
            (o : Option Handle) (methods : Option (List (Text × Text × ℕ)))
            → Changes m s (register_all m call_back o methods count s).1
        go none methods = here
        go (some item) none = here
        go (some item) (some methods) =
            either_Changes_of _ _ _ here (register_each-Changes item.class_name methods s)

  pub unregister_natives-Changes :
      (class_handle : ℕ) (s : State) → Changes m s (unregister_natives class_handle s).1
  unfolding unregister_natives unregister_class
  unregister_natives-Changes class_handle s = go (lookup_handle s class_handle)
    where
      go : (o : Option Handle) → Changes m s (unregister_class o s).1
      go none = here
      go (some item) = one (quiet s _ refl)
