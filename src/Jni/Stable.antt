-- ===== src/Jni/Stable.antt =====
-- What is interned stays: the first handle that fits a key is the same after any changes.
use tasm2_nextos.Prelude.{
  ℕ, ◌==◌, ◌≡◌, ◌≢◌, refl, sym, ap, ◌∙◌, subst, inl, inr, Bool, true, false, Option, none, some,
  List, [], ◌∷◌, On, update, update_self, ==_iff, if◌then◌else◌,
}
use mathlib.Core.Option
use tasm2_nextos.Jni.State.{Handle, State, Memory, modify_handle}
use tasm2_nextos.Jni.Handles.{enter_handle, publish_intern, fits_at, first_fit, blank}
use tasm2_nextos.Jni.Intern.{class_fits, string_fits, id_fits, found_or_made, intern}
use tasm2_nextos.Jni.Keys.{
  Key, class_key, object_key, string_key, method_key, field_key, key_kind, key_class, key_fits,
  key_bucket, key_fill, intern_key, made, made_fits,
}
use tasm2_nextos.Jni.Table.{
  Core, core, Table, Identity, identity, Change, quiet, modified, entered, interned, Changes, here,
  next, Carries, update-Carries, stays, Changes-Table,
}

-- A handle with the identity, and nothing else.
abbrev rebuilt : Identity → Handle
rebuilt (kind, class_name, name, signature, text, is_static) = record (blank kind class_name) {
  name = name;
  signature = signature;
  text = text;
  is_static = is_static;
}

fits_identity : (k : Key) (h : Handle) → key_fits k h ≡ key_fits k (rebuilt (identity h))
unfolding class_fits string_fits id_fits blank
fits_identity (class_key n) h = refl
fits_identity (object_key n) h = refl
fits_identity (string_key n) h = refl
fits_identity (method_key c n g b) h = refl
fits_identity (field_key c n g b) h = refl

same_fits : (k : Key) (h h' : Handle) → identity h' ≡ identity h → key_fits k h' ≡ key_fits k h
same_fits k h h' e =
    fits_identity k h' ∙ ap (λ i. key_fits k (rebuilt i)) e ∙ sym (fits_identity k h)

first_fit-Carries :
    (f g : ℕ → Option Handle) (k : Key) (chain : List ℕ)
    → Carries f g
    → ((a : ℕ) → On a chain → (h : Handle) × (f a ≡ some h))
    → first_fit (key_fits k) g chain ≡ first_fit (key_fits k) f chain
unfolding first_fit fits_at
first_fit-Carries f g k [] to all = refl
first_fit-Carries f g k (a ∷ chain) to all =
    let (h, e) = all a (inl refl) in
    let (h', e', i) = to a h e in
    ap (λ o. if fits_at (key_fits k) o then some a else first_fit (key_fits k) g chain) e'
    ∙ ap (λ b. if b then some a else first_fit (key_fits k) g chain) (same_fits k h h' i)
    ∙ ap (λ r. if key_fits k h then some a else r)
        (first_fit-Carries f g k chain to (λ x on. all x (inr on)))
    ∙ ap (λ o. if fits_at (key_fits k) o then some a else first_fit (key_fits k) f chain) (sym e)

-- A lookup of the key gives the handle.
abbrev pub Answers : Key → ℕ → Core → Type 0
Answers k a c = first_fit (key_fits k) c.0 (c.2 (key_bucket k)) ≡ some a

module _ (m : Memory) (s : State) (b : ℕ) (k' : Key) (new : b ≢ 0) (free : s.heap b ≡ none)
    (v : Table s) (k : Key) (a : ℕ) (h : Answers k a (core s)) where
  abbrev extended : ℕ → Option Handle
  extended = update s.heap b (some (made m s k'))

  extended_answer : first_fit (key_fits k) extended (s.intern_buckets (key_bucket k)) ≡ some a
  extended_answer =
      first_fit-Carries s.heap extended k (s.intern_buckets (key_bucket k))
        (λ x o e. (o, stays (core s) b (made m s k') new free x o e, refl))
        (v.interned (key_bucket k))
      ∙ h

  module _ (miss : first_fit (key_fits k') s.heap (s.intern_buckets (key_bucket k')) ≡ none) where
    fits_new :
        (t : Bool)
        → key_fits k (made m s k') ≡ t
        → (if t then some b else first_fit (key_fits k) extended (s.intern_buckets (key_bucket k)))
          ≡ some a
    fits_new true e = cc (
        sym miss
        ∙ ap (λ q. first_fit (key_fits q) s.heap (s.intern_buckets (key_bucket q)))
            (made_fits m s k k' e)
        ∙ h)
    fits_new false e = extended_answer

    behind_new : first_fit (key_fits k) extended (b ∷ s.intern_buckets (key_bucket k)) ≡ some a
    unfolding first_fit fits_at
    behind_new =
        ap
          (λ o.
            if fits_at (key_fits k) o
            then some b
            else first_fit (key_fits k) extended (s.intern_buckets (key_bucket k)))
          (update_self s.heap b (some (made m s k')))
        ∙ fits_new (key_fits k (made m s k')) refl

    published_answer :
        (t : Bool)
        → (key_bucket k == key_bucket k') ≡ t
        → first_fit
            (key_fits k)
            extended
            (if t then b ∷ s.intern_buckets (key_bucket k') else s.intern_buckets (key_bucket k))
          ≡ some a
    published_answer true e =
        ap (λ q. first_fit (key_fits k) extended (b ∷ s.intern_buckets q))
          (sym ((==_iff (key_bucket k) (key_bucket k')).0 e))
        ∙ behind_new
    published_answer false e = extended_answer

Change-Answers :
    {m : Memory} {s t : State} (k : Key) (a : ℕ)
    → Change m s t
    → Table s
    → Answers k a (core s)
    → Answers k a (core t)
unfolding modify_handle enter_handle publish_intern
Change-Answers k a (quiet s t e) v h = subst (Answers k a) (sym e) h
Change-Answers k a (modified s b f keeps) v h =
    first_fit-Carries s.heap (update s.heap b (Option.map f (s.heap b))) k
      (s.intern_buckets (key_bucket k)) (update-Carries f keeps s.heap b)
      (v.interned (key_bucket k))
    ∙ h
Change-Answers k a (entered s b item new free) v h =
    first_fit-Carries s.heap (update s.heap b (some item)) k (s.intern_buckets (key_bucket k))
      (λ x o e. (o, stays (core s) b item new free x o e, refl)) (v.interned (key_bucket k))
    ∙ h
Change-Answers {m} k a (interned s b k' new free miss) v h =
    published_answer m s b k' new free v k a h miss (key_bucket k == key_bucket k') refl

pub Changes-Answers :
    {m : Memory} {s t : State} (k : Key) (a : ℕ)
    → Changes m s t
    → Table s
    → Answers k a (core s)
    → Answers k a (core t)
Changes-Answers k a here v h = h
Changes-Answers k a (next r c) v h =
    Change-Answers k a c (Changes-Table r v) (Changes-Answers k a r v h)

-- An interned handle is what the key gives, and nothing is changed.
pub intern_key-Answers :
    (m : Memory) (k : Key) (a : ℕ) (s : State) → Answers k a (core s) → intern_key m k s ≡ (a, s)
unfolding intern found_or_made
intern_key-Answers m k a s h =
    ap (λ o. found_or_made m o (key_bucket k) (key_kind k) (key_class k) (key_fill m s k) s) h
