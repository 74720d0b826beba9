-- ===== src/Jni/Steps/Calls.antt =====
-- The calls of methods and the reads and writes of fields change the tables in those ways.
use tasm2_nextos.Prelude.{ℕ, refl, Option, none, some, List, [], ◌∷◌}
use tasm2_nextos.Jni.State.{Text, Handle, State, Memory}
use tasm2_nextos.Jni.Handles.{lookup_handle}
use tasm2_nextos.Jni.Intern.{jni_activity}
use tasm2_nextos.Jni.Returns.{object_named, object_of_type, return_object, after_last}
use tasm2_nextos.Jni.Methods.{
  Config, Arguments, keyed_method, bundle_method, receiver_or_string, dotted_string,
  system_property, named_method, class_method, context_method, default_method, or_default,
  dispatch_on, dispatch_method,
}
use tasm2_nextos.Jni.Fields.{
  with_pointer, unset_field, default_field, or_field, field_of, get_field, store_field, set_field,
}
use tasm2_nextos.Jni.Table.{modified, Changes, here}
use tasm2_nextos.Jni.Steps.{
  IsFresh, both, one, either_Changes, either_Changes_of, jni_class-Changes, jni_object-Changes,
  jni_string-Changes,
}
use tasm2_nextos.Jni.Steps.Data.{new_array-Changes}
use tasm2_nextos.Jni.Steps.Bundles.{bundle_set-Changes, bundle_clear-Changes}

module _ (m : Memory) (fine : IsFresh m) where
  object_named-Changes :
      (name : Option (List ℕ)) (s : State) → Changes m s (object_named m name s).1
  unfolding object_named
  object_named-Changes none s = here
  object_named-Changes (some []) s = here
  object_named-Changes (some (c ∷ name)) s =
      search (either_Changes_of, jni_object-Changes m fine, jni_string-Changes m fine, here)

  return_object-Changes :
      (signature : Text) (s : State) → Changes m s (return_object m signature s).1
  unfolding return_object object_of_type
  return_object-Changes none s = here
  return_object-Changes (some signature) s = go (after_last b')' signature)
    where
      go : (o : Option (List ℕ)) → Changes m s (object_of_type m o s).1
      go none = here
      go (some []) = here
      go (some (c ∷ rest)) =
          search (either_Changes_of, object_named-Changes, new_array-Changes m fine, here)

  keyed_method-Changes :
      (name : List ℕ) (receiver : ℕ) (key : Text) (args : Arguments) (s : State)
      → Changes m s (keyed_method m name receiver key args s).1
  unfolding keyed_method
  keyed_method-Changes name receiver key args s =
      search (either_Changes_of, bundle_set-Changes m, here) depth 40

  bundle_method-Changes :
      (name : List ℕ) (receiver : ℕ) (args : Arguments) (s : State)
      → Changes m s (bundle_method m name receiver args s).1
  unfolding bundle_method
  bundle_method-Changes name receiver args s =
      search (either_Changes_of, keyed_method-Changes, bundle_clear-Changes m, here) depth 10

  named_method-Changes :
      (config : Config) (name : List ℕ) (signature : Text) (receiver : ℕ) (s : State)
      → Changes m s (named_method m config name signature receiver s).1
  unfolding named_method
  named_method-Changes config name signature receiver s =
      search (either_Changes_of, jni_object-Changes m fine, return_object-Changes, here) depth 40

  receiver_or_string-Changes :
      (o : Text) (receiver : ℕ) (class_name : List ℕ) (s : State)
      → Changes m s (receiver_or_string m o receiver class_name s).1
  unfolding receiver_or_string
  receiver_or_string-Changes none receiver class_name s = jni_string-Changes m fine _ s
  receiver_or_string-Changes (some text) receiver class_name s = here

  dotted_string-Changes : (o : Text) (s : State) → Changes m s (dotted_string m o s).1
  unfolding dotted_string
  dotted_string-Changes none s = here
  dotted_string-Changes (some name) s = jni_string-Changes m fine _ s

  system_property-Changes :
      (config : Config) (key : Text) (s : State) → Changes m s (system_property m config key s).1
  unfolding system_property
  system_property-Changes config key s =
      search (either_Changes_of, jni_string-Changes m fine) depth 10

  class_method-Changes :
      (config : Config) (class_name name : List ℕ) (signature : Text) (receiver : ℕ)
      (args : Arguments) (s : State)
      → Changes m s (class_method m config class_name name signature receiver args s).1
  unfolding class_method
  class_method-Changes config class_name name signature receiver args s =
      search
        (
          either_Changes_of,
          dotted_string-Changes,
          system_property-Changes,
          named_method-Changes,
          jni_object-Changes m fine,
          jni_string-Changes m fine,
          here,
        )
        depth 40

  activity-Changes : (s : State) → Changes m s (jni_activity m s).1
  unfolding jni_activity
  activity-Changes s = jni_object-Changes m fine _ s

  context_method-Changes :
      (config : Config) (class_name name : List ℕ) (signature : Text) (receiver : ℕ)
      (args : Arguments) (s : State)
      → Changes m s (context_method m config class_name name signature receiver args s).1
  unfolding context_method
  context_method-Changes config class_name name signature receiver args s =
      search
        (
          either_Changes_of,
          class_method-Changes,
          receiver_or_string-Changes,
          activity-Changes,
          jni_class-Changes m fine,
          jni_string-Changes m fine,
        )
        depth 40

  default_method-Changes :
      (config : Config) (method : Handle) (receiver : ℕ) (args : Arguments) (s : State)
      → Changes m s (default_method m config method receiver args s).1
  unfolding default_method
  default_method-Changes config method receiver args s =
      either_Changes_of _ _ _ (bundle_method-Changes _ receiver args s)
        (context_method-Changes config _ _ method.signature receiver args s)

  module _ (call : Handle → ℕ → Arguments → State → Option ℕ × State)
      (calls : (f : Handle) (r : ℕ) (args : Arguments) (s : State)
        → Changes m s (call f r args s).1) where
    or_default-Changes :
        (config : Config) (method : Handle) (receiver : ℕ) (args : Arguments) (p : Option ℕ × State)
        → Changes m p.1 (or_default m call config method receiver args p).1
    unfolding or_default
    or_default-Changes config method receiver args (some v, s) = here
    or_default-Changes config method receiver args (none, s) =
        default_method-Changes config method receiver args s

    pub dispatch_method-Changes :
        (config : Config) (receiver method_id : ℕ) (args : Arguments) (s : State)
        → Changes m s (dispatch_method m call config receiver method_id args s).1
    unfolding dispatch_method dispatch_on
    dispatch_method-Changes config receiver method_id args s = go (lookup_handle s method_id)
      where
        go : (o : Option Handle) → Changes m s (dispatch_on m call config o receiver args s).1
        go none = here
        go (some method) =
            either_Changes_of _ _ _
              (both (calls method receiver args s)
                (or_default-Changes config method receiver args _))
              here

  with_pointer-Changes :
      (v : ℕ) (s : State) (p : ℕ × State) → Changes m s p.1 → Changes m s (with_pointer v p).1
  unfolding with_pointer
  with_pointer-Changes v s (a, t) h = h

  unset_field-Changes :
      (config : Config) (class_name name : List ℕ) (signature : Text) (v : ℕ) (s : State)
      → Changes m s (unset_field m config class_name name signature v s).1
  unfolding unset_field
  unset_field-Changes config class_name name signature v s =
      search
        (
          either_Changes_of,
          with_pointer-Changes,
          jni_string-Changes m fine,
          return_object-Changes,
          here,
        )
        depth 40

  module _ (get : Handle → ℕ → State → Option ℕ × State)
      (gets : (f : Handle) (r : ℕ) (s : State) → Changes m s (get f r s).1) where
    or_field-Changes :
        (config : Config) (field : Handle) (p : Option ℕ × State)
        → Changes m p.1 (or_field m get config field p).1
    unfolding or_field default_field
    or_field-Changes config field (some v, s) = here
    or_field-Changes config field (none, s) =
        either_Changes_of _ _ _ here (unset_field-Changes config _ _ field.signature field.value s)

    pub get_field-Changes :
        (config : Config) (receiver field_id : ℕ) (s : State)
        → Changes m s (get_field m get config receiver field_id s).1
    unfolding get_field field_of
    get_field-Changes config receiver field_id s = go (lookup_handle s field_id)
      where
        go : (o : Option Handle) → Changes m s (field_of m get config o receiver s).1
        go none = here
        go (some field) =
            either_Changes_of _ _ _ (both (gets field receiver s) (or_field-Changes config field _))
              here

module _ (m : Memory) (put : Handle → ℕ → ℕ → State → State)
    (puts : (f : Handle) (r v : ℕ) (s : State) → Changes m s (put f r v s)) where
  pub set_field-Changes :
      (receiver field_id value : ℕ) (s : State)
      → Changes m s (set_field put receiver field_id value s)
  unfolding set_field store_field
  set_field-Changes receiver field_id value s = go (lookup_handle s field_id)
    where
      go : (o : Option Handle) → Changes m s (store_field put o receiver field_id value s)
      go none = here
      go (some field) =
          either_Changes _ _ _
            (both (one (modified s field_id _ (λ h. refl))) (puts field receiver value _)) here
