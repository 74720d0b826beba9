-- ===== src/Jni/Canonical.antt =====
-- Interned handles are canonical: a key has one handle for good, and different keys different ones.
use tasm2_nextos.Prelude.{
  ℕ, ◌==◌, ◌≡◌, ◌≢◌, ◌↔◌, refl, sym, ap, ◌∙◌, subst, Bool, true, false, Option, none, some, List,
  update, update_self, ==_refl, ==_iff, if◌then◌else◌,
}
use tasm2_nextos.Jni.State.{State, Memory, text_or}
use tasm2_nextos.Jni.Handles.{
  entered_at, enter_handle, allocate_handle, publish_intern, fits_at, first_fit, blank,
}
use tasm2_nextos.Jni.Intern.{
  class_fits, string_fits, same_flag, id_fits, name_id, fill_string, published, found_or_made,
  intern,
}
use tasm2_nextos.Jni.Keys.{
  Key, class_key, object_key, string_key, method_key, field_key, key_kind, key_class, key_bucket,
  key_fits, key_fill, intern_key, made, copy_equal,
}
use tasm2_nextos.Jni.Table.{core, Table, Changes-Table}
use tasm2_nextos.Jni.Stable.{Answers, Changes-Answers, intern_key-Answers}
use tasm2_nextos.Jni.OneKey.{one_key}
use tasm2_nextos.Jni.Steps.{IsFresh, intern_key-Changes}
use tasm2_nextos.Jni.History.{Uses, run-Changes}
use tasm2_nextos.Jni.Api.{Program, Op, run}

module _ (m : Memory) (s : State) (all : (n : ℕ) → m.enough s n ≡ true) where
  flag_equal : (b : Bool) → same_flag b b ≡ true
  unfolding same_flag
  flag_equal true = refl
  flag_equal false = refl

  made_fits_self : (k : Key) → key_fits k (made m s k) ≡ true
  unfolding class_fits string_fits id_fits name_id fill_string blank text_or
  made_fits_self (class_key n) = copy_equal m s all n
  made_fits_self (object_key n) = copy_equal m s all n
  made_fits_self (string_key n) = copy_equal m s all n
  made_fits_self (method_key c n g b) =
      rw (flag_equal b, copy_equal m s all c, copy_equal m s all n, copy_equal m s all g) refl
  made_fits_self (field_key c n g b) =
      rw (flag_equal b, copy_equal m s all c, copy_equal m s all n, copy_equal m s all g) refl

  module _ (k : Key) (a : ℕ) (s1 : State) (ne : a ≢ 0) where
    front_answers :
        (a0 : ℕ)
        → Answers k a0 (core (publish_intern a0 (key_bucket k) (enter_handle a0 (made m s k) s)))
    unfolding publish_intern enter_handle first_fit fits_at
    front_answers a0 = rw (==_refl (key_bucket k)) (
        ap
          (λ o.
            if fits_at (key_fits k) o
            then some a0
            else first_fit (key_fits k) (update s.heap a0 (some (made m s k)))
                (s.intern_buckets (key_bucket k)))
          (update_self s.heap a0 (some (made m s k)))
        ∙ rw (made_fits_self k) refl)

    new_answers :
        (o : Option ℕ)
        → published (key_bucket k) (entered_at o (made m s k) s) ≡ (a, s1)
        → Answers k a (core s1)
    unfolding published entered_at
    new_answers none e = absurd (ne (sym (ap (λ q. q.0) e)))
    new_answers (some a0) e = split (a0 == 0) refl e
      where
        split :
            (b : Bool)
            → (a0 == 0) ≡ b
            → ◌≡◌ {A = ℕ × State}
                (if b
                  then (a0, enter_handle a0 (made m s k) s)
                  else (a0, publish_intern a0 (key_bucket k) (enter_handle a0 (made m s k) s)))
                (a, s1)
            → Answers k a (core s1)
        split true q e = absurd (ne (sym (ap (λ q. q.0) e) ∙ (==_iff a0 0).0 q))
        split false q e =
            subst (λ t. Answers k a (core t)) (ap (λ q. q.1) e)
              (front_answers a0 ∙ ap (λ q. some q.0) e)

    found_answers :
        (o : Option ℕ)
        → first_fit (key_fits k) s.heap (s.intern_buckets (key_bucket k)) ≡ o
        → found_or_made m o (key_bucket k) (key_kind k) (key_class k) (key_fill m s k) s ≡ (a, s1)
        → Answers k a (core s1)
    unfolding found_or_made allocate_handle
    found_answers (some a0) fit e =
        subst (λ t. Answers k a (core t)) (ap (λ q. q.1) e) (fit ∙ ap (λ q. some q.0) e)
    found_answers none fit e = new_answers (m.calloc_handle s) e

    -- Where a handle was interned for a key, the key gives it.
    interned-Answers : intern_key m k s ≡ (a, s1) → Answers k a (core s1)
    unfolding intern
    interned-Answers e =
        found_answers (first_fit (key_fits k) s.heap (s.intern_buckets (key_bucket k))) refl e

module _ (m : Memory) (p : Program) (fine : IsFresh m) (uses : Uses m p) (k : Key) (s s1 : State)
    (a : ℕ) (v : Table s) (all : (n : ℕ) → m.enough s n ≡ true) (e : intern_key m k s ≡ (a, s1))
    (ne : a ≢ 0) (ops : List Op) where
  first-Table : Table s1
  first-Table = subst Table (ap (λ q. q.1) e) (Changes-Table (intern_key-Changes m fine k s) v)

  later_answers : Answers k a (core (run m p ops s1))
  later_answers =
      Changes-Answers k a (run-Changes m p fine uses ops s1) first-Table
        (interned-Answers m s all k a s1 ne e)

  -- A handle that was interned while memory was not short is the one that the same class, object,
  -- string, method or field gets after any history of calls, and getting it changes nothing. The
  -- allocator hands out free memory, and callbacks use the bridge by its functions.
  pub intern_key-run : intern_key m k (run m p ops s1) ≡ (a, run m p ops s1)
  intern_key-run = intern_key-Answers m k a (run m p ops s1) later_answers

  -- If another handle is interned later, memory not being short, then it is the same handle exactly
  -- if it is for the same class, object, string, method or field.
  pub intern_key_iff :
      (k' : Key) (b : ℕ) (t : State)
      → ((n : ℕ) → m.enough (run m p ops s1) n ≡ true)
      → intern_key m k' (run m p ops s1) ≡ (b, t)
      → b ≢ 0
      → (a ≡ b) ↔ (k ≡ k')
  intern_key_iff k' b t enough f nb = (
    λ q. one_key k k' b t (subst (λ x. Answers k x (core t)) q at_end) other,
    λ q. ap (λ r. r.0) (sym intern_key-run ∙ ap (λ x. intern_key m x (run m p ops s1)) q ∙ f),
  )
    where
      other : Answers k' b (core t)
      other = interned-Answers m (run m p ops s1) enough k' b t nb f

      at_end : Answers k a (core t)
      at_end =
          subst (λ x. Answers k a (core x)) (ap (λ r. r.1) f)
            (Changes-Answers k a (intern_key-Changes m fine k' (run m p ops s1))
              (Changes-Table (run-Changes m p fine uses ops s1) first-Table) later_answers)
