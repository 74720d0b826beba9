-- ===== src/Jni/Table.antt =====
-- The invariant of the handle tables, and the ways in which the state changes.
use tasm2_nextos.Prelude.{
  ℕ, ◌==◌, ◌≡◌, ◌≢◌, refl, sym, ap, ◌∙◌, subst, inl, inr, Bool, true, false, Option, none, some,
  List, [], ◌∷◌, On, update, update_self, update_ne, arith, ==_iff, Bool-cases, some_eq, ==_refl,
  if◌then◌else◌,
}
use mathlib.Core.Option
use tasm2_nextos.Jni.State.{Text, HandleKind, Handle, State, Memory, modify_handle}
use tasm2_nextos.Jni.Handles.{
  handle_bucket, walk, find_handle, enter_handle, publish_intern, first_fit,
}
use tasm2_nextos.Jni.Keys.{Key, key_fits, key_bucket, made}

-- The parts of the state that find a handle.
abbrev pub Core : Type 0
Core = (ℕ → Option Handle) × (ℕ → List ℕ) × (ℕ → List ℕ)

abbrev pub core : State → Core
core s = (s.heap, s.handle_buckets, s.intern_buckets)

-- NULL is no handle; the buckets hold the handles, each in the bucket that its address has; and
-- what is interned is a handle.
pub record TableOf (c : Core) : Type 0 where
  pub null : c.0 0 ≡ none
  pub sound : (b a : ℕ) → On a (c.1 b) → (h : Handle) × (c.0 a ≡ some h) × (handle_bucket a ≡ b)
  pub complete : (a : ℕ) (h : Handle) → c.0 a ≡ some h → On a (c.1 (handle_bucket a))
  pub interned : (b a : ℕ) → On a (c.2 b) → (h : Handle) × (c.0 a ≡ some h)

abbrev pub Table : State → Type 0
Table s = TableOf (core s)

-- What identifies a handle.
abbrev pub Identity : Type 0
Identity = HandleKind × Text × Text × Text × Text × Bool

abbrev pub identity : Handle → Identity
identity h = (h.kind, h.class_name, h.name, h.signature, h.text, h.is_static)

-- A change of nothing in the tables, of a handle's other fields, by a new handle, or by a new handle
-- that is interned, since no handle of the bucket fits the key.
pub data Change (m : Memory) : State → State → Type 0 where
  quiet : (s t : State) → core t ≡ core s → Change m s t
  modified :
      (s : State) (a : ℕ) (f : Handle → Handle)
      → ((h : Handle) → identity (f h) ≡ identity h)
      → Change m s (modify_handle a f s)
  entered :
      (s : State) (a : ℕ) (h : Handle) → a ≢ 0 → s.heap a ≡ none → Change m s (enter_handle a h s)
  interned :
      (s : State) (a : ℕ) (k : Key)
      → a ≢ 0
      → s.heap a ≡ none
      → first_fit (key_fits k) s.heap (s.intern_buckets (key_bucket k)) ≡ none
      → Change m s (publish_intern a (key_bucket k) (enter_handle a (made m s k) s))

pub data Changes (m : Memory) (s : State) : State → Type 0 where
  here : Changes m s s
  next : {t u : State} → Changes m s t → Change m t u → Changes m s u

walk-On : (a : ℕ) (chain : List ℕ) → walk a chain ≡ true → On a chain
unfolding walk
walk-On a [] e = cc
walk-On a (x ∷ chain) e = elim (Bool-cases (x == a)) [
  | inl p ↦ inl (sym ((==_iff x a).0 p))
  | inr p ↦ inr (walk-On a chain (rw p at e))
]

On-walk : (a : ℕ) (chain : List ℕ) → On a chain → walk a chain ≡ true
unfolding walk
On-walk a [] h = elim h [ ]
On-walk a (x ∷ chain) (inl p) = rw (p, (==_iff x x).1 refl) refl
On-walk a (x ∷ chain) (inr h) = rw (On-walk a chain h) (ground arith)

walked :
    (o : Option Handle) (b : Bool)
    → ((h : Handle) → o ≡ some h → b ≡ true)
    → (if b then o else none) ≡ o
walked none true e = refl
walked none false e = refl
walked (some h) b e = rw (e h refl) refl

-- A lookup finds exactly the handles that were made.
pub find_handle_lem : (s : State) (a : ℕ) → Table s → find_handle s a ≡ s.heap a
unfolding find_handle
find_handle_lem s a v =
    walked (s.heap a) (walk a (s.handle_buckets (handle_bucket a)))
      (λ h e. On-walk a (s.handle_buckets (handle_bucket a)) (v.complete a h e))

-- Every handle of the one heap is in the other, with the same identity.
abbrev pub Carries : (ℕ → Option Handle) → (ℕ → Option Handle) → Type 0
Carries f g =
    (a : ℕ) (h : Handle) → f a ≡ some h → (k : Handle) × (g a ≡ some k) × (identity k ≡ identity h)

carried-TableOf :
    (f g : ℕ → Option Handle) (hb ib : ℕ → List ℕ)
    → Carries f g
    → Carries g f
    → TableOf (f, hb, ib)
    → TableOf (g, hb, ib)
carried-TableOf f g hb ib to from v = record {
  null = nothing (g 0) refl;
  sound = λ b a on. let (h, e, p) = v.sound b a on in let (k, e', q) = to a h e in (k, e', p);
  complete = λ a k e. let (h, e', q) = from a k e in v.complete a h e';
  interned = λ b a on. let (h, e) = v.interned b a on in let (k, e', q) = to a h e in (k, e');
}
  where
    nothing : (o : Option Handle) → g 0 ≡ o → o ≡ none
    nothing none e = refl
    nothing (some k) e = let (h, e', q) = from 0 k e in cc (v.null)

module _ (f : Handle → Handle) (keeps : (h : Handle) → identity (f h) ≡ identity h) where
  pub update-Carries : (g : ℕ → Option Handle) (a : ℕ) → Carries g (update g a (Option.map f (g a)))
  update-Carries g a j h e = elim (Bool-cases (j == a)) [
    | inl p ↦ (f h, rw (p, ap g (sym ((==_iff j a).0 p)) ∙ e) refl, keeps h)
    | inr p ↦ (h, rw p e, refl)
  ]

  unmapped :
      (o : Option Handle) (h : Handle)
      → Option.map f o ≡ some h
      → (k : Handle) × (o ≡ some k) × (identity k ≡ identity h)
  unmapped none h e = cc
  unmapped (some k) h e = (k, refl, sym (keeps k) ∙ ap identity (some_eq e))

  Carries-update : (g : ℕ → Option Handle) (a : ℕ) → Carries (update g a (Option.map f (g a))) g
  Carries-update g a j h e = elim (Bool-cases (j == a)) [
    | inl p ↦ let (k, q, i) = unmapped (g a) h (rw p at e) in (k, ap g ((==_iff j a).0 p) ∙ q, i)
    | inr p ↦ (h, rw p at e, refl)
  ]

-- A new handle in the heap, in its bucket, and in the chains of interned ones if it is interned.
module _ (c : Core) (a : ℕ) (h : Handle) (new : a ≢ 0) (free : c.0 a ≡ none) where
  abbrev pub grown : Core
  grown = (update c.0 a (some h), update c.1 (handle_bucket a) (a ∷ c.1 (handle_bucket a)), c.2)

  pub stays : (x : ℕ) (k : Handle) → c.0 x ≡ some k → grown.0 x ≡ some k
  stays x k e = elim (Bool-cases (x == a)) [
    | inl p ↦ cc (sym free ∙ ap c.0 (sym ((==_iff x a).0 p)) ∙ e)
    | inr p ↦ rw p e
  ]

  new_sound :
      TableOf c
      → (b x : ℕ) → handle_bucket a ≡ b
      → On x (a ∷ c.1 (handle_bucket a))
      → (k : Handle) × (grown.0 x ≡ some k) × (handle_bucket x ≡ b)
  new_sound v b x q (inl e) = (h, ap grown.0 e ∙ update_self c.0 a (some h), ap handle_bucket e ∙ q)
  new_sound v b x q (inr on) =
      let (k, e, p) = v.sound (handle_bucket a) x on in (k, stays x k e, p ∙ q)

  old_complete :
      TableOf c → (x : ℕ) (k : Handle) → c.0 x ≡ some k → On x (grown.1 (handle_bucket x))
  old_complete v x k e = elim (Bool-cases (handle_bucket x == handle_bucket a)) [
    | inl p ↦ rw p (
        inr (
          subst (λ b. On x (c.1 b)) ((==_iff (handle_bucket x) (handle_bucket a)).0 p)
            (v.complete x k e)))
    | inr p ↦ rw p (v.complete x k e)
  ]

  grown-TableOf : TableOf c → TableOf grown
  grown-TableOf v = record {
    null = update_ne c.0 a (some h) 0 (λ e. new (sym e)) ∙ v.null;
    sound = λ b x on. elim (Bool-cases (b == handle_bucket a)) [
      | inl p ↦ new_sound v b x (sym ((==_iff b (handle_bucket a)).0 p)) (rw p at on)
      | inr p ↦ let (k, e, q) = v.sound b x (rw p at on) in (k, stays x k e, q)
    ];
    complete = λ x k e. elim (Bool-cases (x == a)) [
      | inl p ↦
          subst (λ z. On z (grown.1 (handle_bucket z))) (sym ((==_iff x a).0 p))
            (rw (==_refl (handle_bucket a)) (inl refl))
      | inr p ↦ old_complete v x k (rw p at e)
    ];
    interned = λ b x on. let (k, e) = v.interned b x on in (k, stays x k e);
  }

-- A handle goes in front of a chain of interned ones.
published-TableOf :
    (f : ℕ → Option Handle) (hb ib : ℕ → List ℕ) (a b : ℕ) (h : Handle)
    → f a ≡ some h
    → TableOf (f, hb, ib)
    → TableOf (f, hb, update ib b (a ∷ ib b))
published-TableOf f hb ib a b h e v = record {
  null = v.null;
  sound = v.sound;
  complete = v.complete;
  interned = λ c x on. elim (Bool-cases (c == b)) [
    | inl p ↦ front x (rw p at on)
    | inr p ↦ v.interned c x (rw p at on)
  ];
}
  where
    front : (x : ℕ) → On x (a ∷ ib b) → (k : Handle) × (f x ≡ some k)
    front x (inl q) = (h, ap f q ∙ e)
    front x (inr on) = v.interned b x on

pub Change-Table : {m : Memory} {s t : State} → Change m s t → Table s → Table t
unfolding modify_handle enter_handle publish_intern
Change-Table (quiet s t e) v = subst TableOf (sym e) v
Change-Table (modified s a f keeps) v =
    carried-TableOf s.heap (update s.heap a (Option.map f (s.heap a))) s.handle_buckets
      s.intern_buckets (update-Carries f keeps s.heap a) (Carries-update f keeps s.heap a) v
Change-Table (entered s a h new free) v = grown-TableOf (core s) a h new free v
Change-Table {m} (interned s a k new free miss) v =
    published-TableOf (update s.heap a (some (made m s k)))
      (update s.handle_buckets (handle_bucket a) (a ∷ s.handle_buckets (handle_bucket a)))
      s.intern_buckets a (key_bucket k) (made m s k) (update_self s.heap a (some (made m s k)))
      (grown-TableOf (core s) a (made m s k) new free v)

pub Changes-Table : {m : Memory} {s t : State} → Changes m s t → Table s → Table t
Changes-Table here v = v
Changes-Table (next r c) v = Change-Table c (Changes-Table r v)
