-- ===== src/Jni/OneKey.antt =====
-- A handle answers for one key: its kind and its texts tell the key.
use tasm2_nextos.Prelude.{
  ℕ, ◌≡◌, refl, sym, ap, ◌∙◌, subst, Bool, true, false, Option, none, some, List, [], ◌∷◌, arith,
  ==_iff, some_eq, ◌&&◌, if◌then◌else◌,
}
use tasm2_nextos.Jni.State.{
  Handle, HandleKind, method_kind, field_kind, State, handle_code, text_equal, is_kind,
}
use tasm2_nextos.Jni.Handles.{fits_at, first_fit}
use tasm2_nextos.Jni.Intern.{class_fits, string_fits, same_flag, id_fits}
use tasm2_nextos.Jni.Keys.{
  Key, class_key, object_key, string_key, method_key, field_key, key_kind, key_bucket, key_fits,
  text_equal-eq,
}
use tasm2_nextos.Jni.Table.{core}
use tasm2_nextos.Jni.Stable.{Answers}

and_two : (x y : Bool) → (x && y) ≡ true → (x ≡ true) × (y ≡ true)
and_two true y e = (refl, e)
and_two false y e = cc

and_five :
    (a b c d e : Bool)
    → (a && b && c && d && e) ≡ true
    → (a ≡ true) × (b ≡ true) × (c ≡ true) × (d ≡ true) × (e ≡ true)
and_five a b c d e h = ground arith

-- What the test of an id says.
record FitsId (kind : HandleKind) (c n g : List ℕ) (b : Bool) (h : Handle) : Type 0 where
  kind_equal : is_kind h.kind kind ≡ true
  flag_equals : same_flag h.is_static b ≡ true
  class_equal : text_equal h.class_name (some c) ≡ true
  name_equal : text_equal h.name (some n) ≡ true
  signature_equal : text_equal h.signature (some g) ≡ true

id_fits-FitsId :
    (kind : HandleKind) (c n g : List ℕ) (b : Bool) (h : Handle)
    → id_fits kind c (some n) (some g) b h ≡ true
    → FitsId kind c n g b h
unfolding id_fits
id_fits-FitsId kind c n g b h e =
    let (k, f, x, y, z) =
      and_five (is_kind h.kind kind) (same_flag h.is_static b) (text_equal h.class_name (some c))
        (text_equal h.name (some n)) (text_equal h.signature (some g)) e in
    record { kind_equal = k; flag_equals = f; class_equal = x; name_equal = y; signature_equal = z }

kind_parts : (k : Key) (h : Handle) → key_fits k h ≡ true → is_kind h.kind (key_kind k) ≡ true
unfolding class_fits string_fits
kind_parts (class_key n) h e = (and_two _ _ e).0
kind_parts (object_key n) h e = (and_two _ _ e).0
kind_parts (string_key n) h e = (and_two _ _ e).0
kind_parts (method_key c n g b) h e = (id_fits-FitsId method_kind c n g b h e).kind_equal
kind_parts (field_key c n g b) h e = (id_fits-FitsId field_kind c n g b h e).kind_equal

same_code :
    (k k' : Key) (h : Handle)
    → key_fits k h ≡ true
    → key_fits k' h ≡ true
    → handle_code (key_kind k) ≡ handle_code (key_kind k')
same_code k k' h p q =
    sym ((==_iff (handle_code h.kind) (handle_code (key_kind k))).0 (kind_parts k h p))
    ∙ (==_iff (handle_code h.kind) (handle_code (key_kind k'))).0 (kind_parts k' h q)

same_flag_trans : (x b c : Bool) → same_flag x b ≡ true → same_flag x c ≡ true → b ≡ c
unfolding same_flag
same_flag_trans true b c p q = p ∙ sym q
same_flag_trans false true c p q = cc
same_flag_trans false false true p q = cc
same_flag_trans false false false p q = refl

same_ids :
    (kind : HandleKind) (c n g : List ℕ) (b : Bool) (c' n' g' : List ℕ) (b' : Bool) (h : Handle)
    → FitsId kind c n g b h
    → FitsId kind c' n' g' b' h
    → ◌≡◌ {A = List ℕ × List ℕ × List ℕ × Bool} (c, n, g, b) (c', n', g', b')
same_ids kind c n g b c' n' g' b' h p q =
    let x : c ≡ c' = text_equal-eq h.class_name c c' p.class_equal q.class_equal in
    let y : n ≡ n' = text_equal-eq h.name n n' p.name_equal q.name_equal in
    let z : g ≡ g' = text_equal-eq h.signature g g' p.signature_equal q.signature_equal in
    let w : b ≡ b' = same_flag_trans h.is_static b b' p.flag_equals q.flag_equals in cc

-- A handle fits one key only.
fits_inj : (k k' : Key) (h : Handle) → key_fits k h ≡ true → key_fits k' h ≡ true → k ≡ k'
unfolding class_fits string_fits
fits_inj (class_key n) (class_key n') h p q =
    ap class_key (text_equal-eq h.class_name n n' (and_two _ _ p).1 (and_two _ _ q).1)
fits_inj (object_key n) (object_key n') h p q =
    ap object_key (text_equal-eq h.class_name n n' (and_two _ _ p).1 (and_two _ _ q).1)
fits_inj (string_key n) (string_key n') h p q =
    ap string_key (text_equal-eq h.text n n' (and_two _ _ p).1 (and_two _ _ q).1)
fits_inj (method_key c n g b) (method_key c' n' g' b') h p q =
    let e =
      same_ids method_kind c n g b c' n' g' b' h (id_fits-FitsId method_kind c n g b h p)
        (id_fits-FitsId method_kind c' n' g' b' h q) in
    ap (λ i. method_key i.0 i.1 i.2 i.3) e
fits_inj (field_key c n g b) (field_key c' n' g' b') h p q =
    let e =
      same_ids field_kind c n g b c' n' g' b' h (id_fits-FitsId field_kind c n g b h p)
        (id_fits-FitsId field_kind c' n' g' b' h q) in
    ap (λ i. field_key i.0 i.1 i.2 i.3) e
fits_inj k k' h p q = absurd (omega (arith, same_code k k' h p q))

module _ (fits : Handle → Bool) (heap : ℕ → Option Handle) (x a : ℕ) (rest : Option ℕ) where
  -- The handle at the address fits.
  abbrev Fitting : Type 0
  Fitting = (h : Handle) × (heap a ≡ some h) × (fits h ≡ true)

  from_test :
      (h : Handle) (b : Bool)
      → heap x ≡ some h
      → fits h ≡ b
      → (if b then some x else rest) ≡ some a
      → (rest ≡ some a → Fitting)
      → Fitting
  from_test h true q f e later = (h, ap heap (sym (some_eq e)) ∙ q, f)
  from_test h false q f e later = later e

  from_front :
      (o : Option Handle)
      → heap x ≡ o
      → (if fits_at fits o then some x else rest) ≡ some a
      → (rest ≡ some a → Fitting)
      → Fitting
  unfolding fits_at
  from_front none q e later = later e
  from_front (some h) q e later = from_test h (fits h) q refl e later

-- What a lookup gives is a handle that fits.
fitting :
    (fits : Handle → Bool) (heap : ℕ → Option Handle) (chain : List ℕ) (a : ℕ)
    → first_fit fits heap chain ≡ some a
    → (h : Handle) × (heap a ≡ some h) × (fits h ≡ true)
unfolding first_fit
fitting fits heap [] a e = cc
fitting fits heap (x ∷ chain) a e =
    from_front fits heap x a (first_fit fits heap chain) (heap x) refl e (fitting fits heap chain a)

-- One handle answers for one key.
pub one_key :
    (k k' : Key) (a : ℕ) (s : State) → Answers k a (core s) → Answers k' a (core s) → k ≡ k'
one_key k k' a s p q =
    let (h, e, f) = fitting (key_fits k) s.heap (s.intern_buckets (key_bucket k)) a p in
    let (h', e', f') = fitting (key_fits k') s.heap (s.intern_buckets (key_bucket k')) a q in
    fits_inj k k' h f (subst (λ x. key_fits k' x ≡ true) (some_eq (sym e' ∙ e)) f')
