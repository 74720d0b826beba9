-- ===== src/Jni/Natives/Forget.antt =====
-- What `asm2_unregister_natives` leaves.
use tasm2_nextos.Prelude.{
  ℕ, ◌+◌, ◌-◌, ◌≡◌, refl, sym, ap, ◌∙◌, subst, ◌&&◌, Bool, true, Option, none, some, List, [], ◌∷◌,
  same_text, same_text-eq, arith, if◌then◌else◌,
}
use tasm2_nextos.Jni.State.{Text, Handle, Native, State, text_equal}
use tasm2_nextos.Jni.Handles.{lookup_handle}
use tasm2_nextos.Jni.Natives.{
  names, is_set, find_record, find_function, find_registered_native, forget_class, unregister_class,
  unregister_natives,
}
use tasm2_nextos.Jni.Natives.Records.{
  Method, is_for, AtMostOne, lookup, function_of, active, is_for-record,
}
use tasm2_nextos.Jni.Natives.Laws.{IsRegistered}

abbrev forgotten : List ℕ → List Native → ℕ → List Native
forgotten c xs n = (forget_class (some c) xs n).0

-- The class of a method's record is the method's.
class_of_record :
    (c : List ℕ) (q : Method) (x : Native)
    → is_for q x ≡ true
    → text_equal x.class_name (some c) ≡ same_text q.0 c
unfolding names text_equal
class_of_record c q x h = go x.class_name (first _ _ _ h)
  where
    first : (a b c : Bool) → (a && b && c) ≡ true → a ≡ true
    first a b c h = ground arith

    go : (o : Text) → text_equal o (some q.0) ≡ true → text_equal o (some c) ≡ same_text q.0 c
    go none h = cc
    go (some t) h = ap (λ u. same_text u c) (same_text-eq t q.0 h)

function_of-forgotten :
    (c : List ℕ) (q : Method) (xs : List Native) (n : ℕ)
    → function_of q (forgotten c xs n) ≡ (if same_text q.0 c then 0 else function_of q xs)
unfolding forget_class find_function
function_of-forgotten c q [] n = ground arith
function_of-forgotten c q (x ∷ xs) n = ground (
  arith,
  is_for-record q (if is_set x.function && text_equal x.class_name (some c) then 0 else x.function)
      x,
  class_of_record c q x,
  function_of-forgotten c q xs
      (if is_set x.function && text_equal x.class_name (some c) then n - 1 else n),
)

lookup-forgotten :
    (c : List ℕ) (q : Method) (xs : List Native) (n : ℕ)
    → lookup q xs ≡ none
    → lookup q (forgotten c xs n) ≡ none
unfolding forget_class find_record
lookup-forgotten c q [] n e = refl
lookup-forgotten c q (x ∷ xs) n e = ground (
  arith,
  is_for-record q (if is_set x.function && text_equal x.class_name (some c) then 0 else x.function)
      x,
  lookup-forgotten c q xs
      (if is_set x.function && text_equal x.class_name (some c) then n - 1 else n),
)

AtMostOne-forgotten :
    (c : List ℕ) (q : Method) (xs : List Native) (n : ℕ)
    → AtMostOne q xs
    → AtMostOne q (forgotten c xs n)
unfolding forget_class
AtMostOne-forgotten c q [] n one = tt
AtMostOne-forgotten c q (x ∷ xs) n one = (
  λ h. lookup-forgotten c q xs _ (
      one.0 (
        sym (
          is_for-record q
            (if is_set x.function && text_equal x.class_name (some c) then 0 else x.function) x)
        ∙ h)),
  AtMostOne-forgotten c q xs _ one.1,
)

count-forgotten :
    (c : List ℕ) (xs : List Native) (n r : ℕ)
    → n ≡ active xs + r
    → (forget_class (some c) xs n).1 ≡ active (forgotten c xs n) + r
unfolding forget_class active
count-forgotten c [] n r e = omega (arith, e)
count-forgotten c (x ∷ xs) n r e = ground (
  arith,
  count-forgotten c xs (if is_set x.function && text_equal x.class_name (some c) then n - 1 else n)
      (if is_set x.function && text_equal x.class_name (some c)
        then r
        else (if is_set x.function then 1 else 0) + r),
)

module _ (s : State) (class_handle : ℕ) (c : List ℕ) (item : Handle) (v : IsRegistered s) where
  unregistered :
      (o : Option Handle)
      → o ≡ some item
      → (unregister_class o s).1 ≡ (unregister_class (some item) s).1
  unregistered o e = ap (λ x. (unregister_class x s).1) e

  abbrev left_over : State
  left_over = record s {
    natives = (forget_class (some c) s.natives s.native_count).0;
    native_count = (forget_class (some c) s.natives s.native_count).1;
  }

  left_over-IsRegistered : IsRegistered left_over
  left_over-IsRegistered = record {
    single = λ q. AtMostOne-forgotten c q s.natives s.native_count (v.single q);
    counted =
        omega (arith, count-forgotten c s.natives s.native_count 0 (omega (arith, v.counted)));
  }

  unregister_natives_left :
      lookup_handle s class_handle ≡ some item
      → item.class_name ≡ some c
      → (unregister_natives class_handle s).1 ≡ left_over
  unfolding unregister_natives unregister_class
  unregister_natives_left e p =
      unregistered (lookup_handle s class_handle) e
      ∙ ap
          (λ t. record s {
            natives = (forget_class t s.natives s.native_count).0;
            native_count = (forget_class t s.natives s.native_count).1;
          })
          p

  -- After the natives of a class were taken back, no method of the class has a function and every
  -- other method has what it had; the count is again that of the records with a function.
  pub find_registered_native-unregister_natives :
      (q : Method)
      → lookup_handle s class_handle ≡ some item
      → item.class_name ≡ some c
      → (find_registered_native
            (unregister_natives class_handle s).1
            (some q.0)
            (some q.1)
            (some q.2)
          ≡ (if same_text q.0 c
              then 0
              else find_registered_native s (some q.0) (some q.1) (some q.2)))
        × IsRegistered (unregister_natives class_handle s).1
  unfolding find_registered_native
  find_registered_native-unregister_natives q e p = (
    ap (λ t. function_of q t.natives) (unregister_natives_left e p)
        ∙ function_of-forgotten c q s.natives s.native_count,
    subst IsRegistered (sym (unregister_natives_left e p)) left_over-IsRegistered,
  )
