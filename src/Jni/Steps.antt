-- ===== src/Jni/Steps.antt =====
-- Every function of the bridge changes the tables only in the ways of `Change`.
pub mod Data
pub mod Bundles
pub mod Calls
use tasm2_nextos.Prelude.{
  ℕ, ◌==◌, ◌≡◌, ◌≢◌, refl, sym, ap, ◌∙◌, subst, Bool, true, false, Option, none, some, List, [],
  ◌∷◌, arith, if◌then◌else◌,
}
use tasm2_nextos.Jni.State.{
  Text, HandleKind, class_kind, object_kind, throwable_kind, array_kind, Handle, State, Memory,
  Block, no_data, cells, foreign, text_or, modify_handle,
}
use tasm2_nextos.Jni.Handles.{
  entered_at, enter_handle, allocate_handle, publish_intern, first_fit, blank, duplicate,
  lookup_handle,
}
use tasm2_nextos.Jni.Intern.{
  or_object, class_name_or, published, found_or_made, intern, intern_named, intern_class,
  intern_object, intern_string, new_object_handle, jni_class, jni_object, jni_string,
}
use tasm2_nextos.Jni.Throw.{raise, throw, raised, throw_new, throw_named}
use tasm2_nextos.Jni.Keys.{
  Key, class_key, object_key, string_key, key_kind, key_class, key_fits, key_bucket, key_fill,
  intern_key, made,
}
use tasm2_nextos.Jni.Table.{
  core, Table, Change, quiet, modified, entered, interned, Changes, here, next, identity,
}

-- `calloc` returns memory that is not in use.
pub record IsFresh (m : Memory) : Type 0 where
  pub fresh : (s : State) (a : ℕ) → m.calloc_handle s ≡ some a → (a ≢ 0) × (s.heap a ≡ none)

pub both : {m : Memory} {s t u : State} → Changes m s t → Changes m t u → Changes m s u
both r here = r
both r (next p c) = next (both r p) c

pub one : {m : Memory} {s t : State} → Change m s t → Changes m s t
one c = next here c

-- Either branch of a test.
pub either_Changes :
    {m : Memory} {s : State} (b : Bool) (t u : State)
    → Changes m s t
    → Changes m s u
    → Changes m s (if b then t else u)
either_Changes true t u p q = p
either_Changes false t u p q = q

pub either_Changes_of {ℓ} :
    {A : Type ℓ} {m : Memory} {s : State} (b : Bool) (t u : A × State)
    → Changes m s t.1
    → Changes m s u.1
    → Changes m s (if b then t else u).1
either_Changes_of true t u p q = p
either_Changes_of false t u p q = q

module _ (m : Memory) (fine : IsFresh m) where
  entered_at-Changes :
      (o : Option ℕ) (h : Handle) (s : State)
      → m.calloc_handle s ≡ o
      → Changes m s (entered_at o h s).1
  unfolding entered_at
  entered_at-Changes none h s e = here
  entered_at-Changes (some a) h s e =
      let (new, free) = fine.fresh s a e in one (entered s a h new free)

  pub allocate-Changes :
      (kind : HandleKind) (class_name : Text) (fill : Handle → Handle) (s : State)
      → Changes m s (allocate_handle m kind class_name fill s).1
  unfolding allocate_handle
  allocate-Changes kind class_name fill s =
      entered_at-Changes (m.calloc_handle s) (fill (blank kind (duplicate m s class_name))) s refl

  published_made :
      (o : Option ℕ) (k : Key) (s : State)
      → m.calloc_handle s ≡ o
      → first_fit (key_fits k) s.heap (s.intern_buckets (key_bucket k)) ≡ none
      → Changes m s (published (key_bucket k) (entered_at o (made m s k) s)).1
  unfolding published entered_at
  published_made none k s e miss = here
  published_made (some a) k s e miss =
      let (new, free) = fine.fresh s a e in
      either_Changes_of (a == 0) (a, enter_handle a (made m s k) s)
        (a, publish_intern a (key_bucket k) (enter_handle a (made m s k) s))
        (one (entered s a (made m s k) new free)) (one (interned s a k new free miss))

  found_or_made-Changes :
      (o : Option ℕ) (k : Key) (s : State)
      → first_fit (key_fits k) s.heap (s.intern_buckets (key_bucket k)) ≡ o
      → Changes m s
          (found_or_made m o (key_bucket k) (key_kind k) (key_class k) (key_fill m s k) s).1
  unfolding found_or_made allocate_handle
  found_or_made-Changes (some a) k s e = here
  found_or_made-Changes none k s e = published_made (m.calloc_handle s) k s refl e

  pub intern_key-Changes : (k : Key) (s : State) → Changes m s (intern_key m k s).1
  unfolding intern
  intern_key-Changes k s =
      found_or_made-Changes (first_fit (key_fits k) s.heap (s.intern_buckets (key_bucket k))) k s
        refl

  pub jni_class-Changes : (text : Text) (s : State) → Changes m s (jni_class m text s).1
  unfolding jni_class intern_class intern_named
  jni_class-Changes text s = intern_key-Changes (class_key (or_object text)) s

  pub jni_object-Changes : (text : Text) (s : State) → Changes m s (jni_object m text s).1
  unfolding jni_object intern_object intern_named
  jni_object-Changes text s = intern_key-Changes (object_key (or_object text)) s

  pub jni_string-Changes : (text : Text) (s : State) → Changes m s (jni_string m text s).1
  unfolding jni_string intern_string
  jni_string-Changes text s = intern_key-Changes (string_key (text_or [] text)) s

  pub raise-Changes : (a : ℕ) (s : State) → Changes m s (raise a s)
  unfolding raise
  raise-Changes a s = one (quiet s (record s { pending_exception = a }) refl)

  pub throw_new-Changes :
      (class_handle : ℕ) (message : Text) (s : State)
      → Changes m s (throw_new m class_handle message s).1
  unfolding throw_new raised
  throw_new-Changes class_handle message s = both (allocate-Changes _ _ _ s) (raise-Changes _ _)

  pub throw_named-Changes :
      (name message : List ℕ) (s : State) → Changes m s (throw_named m name message s)
  unfolding throw_named
  throw_named-Changes name message s =
      both (jni_class-Changes (some name) s) (throw_new-Changes _ (some message) _)
