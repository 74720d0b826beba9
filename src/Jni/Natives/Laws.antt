-- ===== src/Jni/Natives/Laws.antt =====
-- The registered natives are a map from methods to functions, and are counted.
use tasm2_nextos.Prelude.{
  ℕ, ◌+◌, ◌^◌, ◌<◌, ◌≡◌, refl, ap, subst, Bool, true, false, Option, none, some, ◌∷◌, length, arith,
  if◌then◌else◌,
}
use tasm2_nextos.Jni.State.{Native, State, Memory}
use tasm2_nextos.Jni.Handles.{duplicate}
use tasm2_nextos.Jni.Natives.{
  names, settle_count, is_set, native_size, register_in, register_native, find_function,
  find_registered_native,
}
use tasm2_nextos.Jni.Keys.{duplicate-eq, copy_equal}
use tasm2_nextos.Jni.Natives.Records.{
  Method, is_for, same_method, and_three, same_method_iff, AtMostOne, lookup, function_of, stored,
  unused, function_of-stored, active, AtMostOne-stored, active-stored, active-le,
}

-- Every method of which the class is known has at most one record, and the count is that of the
-- records with a function.
pub record IsRegistered (s : State) : Type 0 where
  pub single : (k : Method) → AtMostOne k s.natives
  pub counted : s.native_count ≡ active s.natives

either_IsRegistered :
    (b : Bool) (t u : Bool × State)
    → IsRegistered t.1
    → IsRegistered u.1
    → IsRegistered (if b then t else u).1
either_IsRegistered true t u p q = p
either_IsRegistered false t u p q = q

module _ (m : Memory) (k : Method) (f : ℕ) (s : State) where
  -- The record that is made where there is none.
  abbrev new_record : Native
  new_record = record {
    class_name = duplicate m s (some k.0);
    name = duplicate m s (some k.1);
    signature = duplicate m s (some k.2);
    function = f;
  }

  is_for-new : (q : Method) → is_for q new_record ≡ true → k ≡ q
  unfolding names
  is_for-new q h =
      let (a, b, c) = and_three _ _ _ h in
      let e0 : k.0 ≡ q.0 = duplicate-eq m s k.0 q.0 a in
      let e1 : k.1 ≡ q.1 = duplicate-eq m s k.1 q.1 b in
      let e2 : k.2 ≡ q.2 = duplicate-eq m s k.2 q.2 c in cc

  new_is_for : ((n : ℕ) → m.enough s n ≡ true) → is_for k new_record ≡ true
  unfolding names
  new_is_for all = rw (copy_equal m s all k.0, copy_equal m s all k.1, copy_equal m s all k.2) refl

  function_of-new :
      ((n : ℕ) → m.enough s n ≡ true)
      → (q : Method) → lookup k s.natives ≡ none
      → function_of q (new_record ∷ s.natives)
        ≡ (if same_method k q then f else function_of q s.natives)
  unfolding find_function
  function_of-new all q e =
      ground (arith, new_is_for all, is_for-new q, same_method_iff k q, unused k s.natives)

  registered_law :
      (t : State) (o : Option ℕ) (q : Method)
      → IsRegistered s
      → ((n : ℕ) → m.enough s n ≡ true)
      → lookup k s.natives ≡ o
      → register_in m o (some k.0) k.1 k.2 f s ≡ (true, t)
      → function_of q t.natives ≡ (if same_method k q then f else function_of q s.natives)
  unfolding register_in
  registered_law t (some old) q v all e h =
      subst
        (λ u. function_of q u.natives ≡ (if same_method k q then f else function_of q s.natives))
        (ap (λ r. r.1) h) (function_of-stored k q f old s.natives (v.single k) e)
  registered_law t none q v all e h = made (m.enough s native_size) h
    where
      made :
          (b : Bool)
          → ◌≡◌ {A = Bool × State}
              (if b
                then (
                  true,
                  record s {
                    natives = new_record ∷ s.natives;
                    native_count = settle_count false (is_set f) s.native_count;
                  },
                )
                else (false, s))
              (true, t)
          → function_of q t.natives ≡ (if same_method k q then f else function_of q s.natives)
      made true h =
          subst
            (λ u.
              function_of q u.natives ≡ (if same_method k q then f else function_of q s.natives))
            (ap (λ r. r.1) h) (function_of-new all q e)
      made false h = cc (ap (λ r. r.0) h)

  settled :
      (a b : Bool) (n i j : ℕ)
      → i + (if a then 1 else 0) ≡ j + (if b then 1 else 0)
      → n ≡ j
      → j + 1 < 2 ^ 32
      → settle_count a b n ≡ i
  unfolding settle_count
  settled true true n i j e p l = omega (arith, e, p)
  settled true false n i j e p l = omega (arith, e, p)
  settled false true n i j e p l = ground (arith, e, p, l)
  settled false false n i j e p l = omega (arith, e, p)

  pushed :
      IsRegistered s
      → lookup k s.natives ≡ none
      → length s.natives + 1 < 2 ^ 32
      → IsRegistered (record s {
        natives = new_record ∷ s.natives;
        native_count = settle_count false (is_set f) s.native_count;
      })
  unfolding active
  pushed v e l = record {
    single = λ q. (λ h. subst (λ r. lookup r s.natives ≡ none) (is_for-new q h) e, v.single q);
    counted =
        settled false (is_set f) s.native_count (active (new_record ∷ s.natives)) (active s.natives)
          (omega arith) v.counted (omega (arith, active-le s.natives));
  }

  register_in-IsRegistered :
      (o : Option ℕ)
      → IsRegistered s
      → lookup k s.natives ≡ o
      → length s.natives + 1 < 2 ^ 32
      → IsRegistered (register_in m o (some k.0) k.1 k.2 f s).1
  unfolding register_in
  register_in-IsRegistered (some old) v e l = record {
    single = λ q. AtMostOne-stored k q f s.natives (v.single q);
    counted =
        settled (is_set old) (is_set f) s.native_count (active (stored k f s.natives))
          (active s.natives) (active-stored k f old s.natives e) v.counted
          (omega (arith, active-le s.natives));
  }
  register_in-IsRegistered none v e l =
      either_IsRegistered (m.enough s native_size) _ _ (pushed v e l) v

  pub register_native-IsRegistered :
      IsRegistered s
      → length s.natives + 1 < 2 ^ 32
      → IsRegistered (register_native m (some k.0) k.1 k.2 f s).1
  unfolding register_native
  register_native-IsRegistered v l = register_in-IsRegistered (lookup k s.natives) v refl l

-- After a method of a class was registered, memory not being short, a search finds its function, or
-- nothing if that is NULL; and for every other method what it found before.
pub find_registered_native-register_native :
    (m : Memory) (k : Method) (f : ℕ) (s t : State) (q : Method)
    → IsRegistered s
    → ((n : ℕ) → m.enough s n ≡ true)
    → register_native m (some k.0) k.1 k.2 f s ≡ (true, t)
    → find_registered_native t (some q.0) (some q.1) (some q.2)
      ≡ (if same_method k q then f else find_registered_native s (some q.0) (some q.1) (some q.2))
unfolding register_native find_registered_native
find_registered_native-register_native m k f s t q v all h =
    registered_law m k f s t (lookup k s.natives) q v all refl h
