-- ===== src/Pthread/Registry/Find.antt =====
-- Lookup in the registry: what `registry_find` returns, and what the updates do to a lookup.
use tasm2_nextos.Prelude.{
  ℕ, ◌==◌, ◌≡◌, refl, ◌≢◌, inl, inr, true, false, Option, none, some, List, [], ◌∷◌, arith,
  Bool-cases, ==_iff, some_eq, sym, ap, subst, ◌&&◌,
}
pub use tasm2_nextos.Prelude.{On}
use tasm2_nextos.Pthread.State.{
  bridge_magic, Kind, same_kind, attr, mutex_attr, mutex, cond, sem, Object, State,
}
use tasm2_nextos.Pthread.Registry.{
  matches, scan, unlink, registry_bucket, registry_find, object_publish, object_retire,
  publish_object, retire_object,
}

-- What `matches` says of an object.
pub record Fits (o : Object) (raw owner : ℕ) (k : Kind) : Type 0 where
  pub handle : o.raw_handle ≡ raw
  pub slot : o.owner ≡ owner
  pub magic : o.magic ≡ bridge_magic
  pub kind : o.kind ≡ k
  pub live : o.active ≡ true

pub matches-Fits :
    (p : Option Object) (raw owner : ℕ) (k : Kind)
    → matches p raw owner k ≡ true
    → (o : Object) × (p ≡ some o) × Fits o raw owner k
unfolding matches
matches-Fits none raw owner k e = cc
matches-Fits (some o) raw owner k e = (o, refl, ground arith)

pub Fits-matches :
    (o : Object) (raw owner : ℕ) (k : Kind)
    → Fits o raw owner k
    → matches (some o) raw owner k ≡ true
unfolding matches
Fits-matches o raw owner k f =
    rw (f.handle, f.slot, f.magic, f.kind, f.live) (self_test raw owner k)
  where
    self_test :
        (raw owner : ℕ) (k : Kind)
        → (raw == raw && owner == owner && bridge_magic == bridge_magic && same_kind k k && true)
          ≡ true
    self_test raw owner attr = ground arith
    self_test raw owner mutex_attr = ground arith
    self_test raw owner mutex = ground arith
    self_test raw owner cond = ground arith
    self_test raw owner sem = ground arith

module _ (heap : ℕ → Option Object) (raw owner : ℕ) (k : Kind) where
  pub scan_sound :
      (chain : List ℕ) (a : ℕ)
      → scan heap raw owner k chain ≡ some a
      → (matches (heap a) raw owner k ≡ true) × On a chain
  unfolding scan
  scan_sound [] a e = cc
  scan_sound (x ∷ chain) a e = elim (Bool-cases (matches (heap x) raw owner k)) [
    | inl hit ↦ found hit (some_eq (rw hit at e))
    | inr miss ↦ let r = scan_sound chain a (rw miss at e) in (r.0, inr r.1)
  ]
    where
      found :
          matches (heap x) raw owner k ≡ true
          → x ≡ a
          → (matches (heap a) raw owner k ≡ true) × On a (x ∷ chain)
      found hit q = (rw (← q) hit, inl (sym q))

  pub scan-none :
      (chain : List ℕ)
      → ((b : ℕ) → On b chain → matches (heap b) raw owner k ≡ false)
      → scan heap raw owner k chain ≡ none
  unfolding scan
  scan-none [] h = refl
  scan-none (x ∷ chain) h = rw (h x (inl refl)) (scan-none chain (λ b o. h b (inr o)))

  pub scan_complete :
      (chain : List ℕ) (a : ℕ)
      → On a chain
      → matches (heap a) raw owner k ≡ true
      → ((b : ℕ) → On b chain → matches (heap b) raw owner k ≡ true → b ≡ a)
      → scan heap raw owner k chain ≡ some a
  unfolding scan
  scan_complete [] a o m only = absurd o
  scan_complete (x ∷ chain) a o m only = elim (Bool-cases (matches (heap x) raw owner k)) [
    | inl hit ↦ rw hit (ap some (only x (inl refl) hit))
    | inr miss ↦ rw miss (later (λ o'. scan_complete chain a o' m (λ b ob. only b (inr ob))) miss o)
  ]
    where
      later :
          (On a chain → scan heap raw owner k chain ≡ some a)
          → matches (heap x) raw owner k ≡ false
          → On a (x ∷ chain)
          → scan heap raw owner k chain ≡ some a
      later rest miss (inl e) = cc (subst (λ y. matches (heap y) raw owner k ≡ true) e m)
      later rest miss (inr o') = rest o'

  pub scan-agree :
      (heap' : ℕ → Option Object) (chain : List ℕ)
      → ((b : ℕ) → matches (heap' b) raw owner k ≡ matches (heap b) raw owner k)
      → scan heap' raw owner k chain ≡ scan heap raw owner k chain
  unfolding scan
  scan-agree heap' [] h = refl
  scan-agree heap' (x ∷ chain) h = rw (h x, scan-agree heap' chain h)

  pub scan-unlink :
      (chain : List ℕ) (a : ℕ)
      → matches (heap a) raw owner k ≡ false
      → scan heap raw owner k (unlink a chain) ≡ scan heap raw owner k chain
  unfolding scan unlink
  scan-unlink [] a m = refl
  scan-unlink (x ∷ chain) a m = elim (Bool-cases (x == a)) [
    | inl e ↦ rw (e, (==_iff x a).0 e, m)
    | inr e ↦ rw (e, scan-unlink chain a m)
  ]

-- What a lookup returns is a live object with the asked handle, owner slot, kind and magic, on the
-- chain of the handle's bucket, and the handle is not NULL.
pub registry_find_sound :
    {W : Type 0} (s : State W) (raw owner : ℕ) (k : Kind) (a : ℕ)
    → registry_find s raw owner k ≡ some a
    → (o : Object) × (s.heap a ≡ some o)
      × Fits o raw owner k
      × On a (s.registry (registry_bucket raw))
      × (raw ≢ 0)
unfolding registry_find
registry_find_sound s raw owner k a e = elim (Bool-cases (raw == 0)) [
  | inl z ↦ cc (rw z at e)
  | inr nz ↦
      let r = scan_sound s.heap raw owner k (s.registry (registry_bucket raw)) a (rw nz at e) in
      let (o, p, f) = matches-Fits (s.heap a) raw owner k r.0 in (o, p, f, r.1, ground arith)
]

pub On-unlink : (a b : ℕ) (chain : List ℕ) → On b (unlink a chain) → On b chain
unfolding unlink
On-unlink a b [] o = o
On-unlink a b (x ∷ chain) o = elim (Bool-cases (x == a)) [
  | inl e ↦ inr (rw e at o)
  | inr e ↦ tail (On-unlink a b chain) (rw e at o)
]
  where
    tail : (On b (unlink a chain) → On b chain) → On b (x ∷ unlink a chain) → On b (x ∷ chain)
    tail rest (inl e) = inl e
    tail rest (inr o') = inr (rest o')

module _ {W : Type 0} (s : State W) (a : ℕ) where
  pub object_publish-some :
      (o : Object) → s.heap a ≡ some o → object_publish a s ≡ publish_object a o s
  unfolding object_publish
  object_publish-some o e = rw (e, object_publish)

  pub object_retire-some :
      (o : Object) → s.heap a ≡ some o → object_retire a s ≡ retire_object a o s
  unfolding object_retire
  object_retire-some o e = rw (e, object_retire)

  pub object_retire-none : s.heap a ≡ none → object_retire a s ≡ s
  unfolding object_retire
  object_retire-none e = rw (e, object_retire)
