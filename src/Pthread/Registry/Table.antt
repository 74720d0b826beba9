-- ===== src/Pthread/Registry/Table.antt =====
-- The well-formedness of the registry: heap, chains and retired list together, and that each
-- change the bridge makes to them keeps it.

use tasm2_nextos.Prelude.{
  ℕ, ◌≡◌, refl, ◌∙◌, true, false, Option, none, some, List, [], ◌∷◌, arith, sym,
}
use tasm2_nextos.Pthread.State.{bridge_magic, Kind, Object}
use tasm2_nextos.Pthread.Registry.{matches, registry_bucket}
use tasm2_nextos.Pthread.Registry.Find.{On}

abbrev pub Distinct : List ℕ → Type 0
Distinct [] = Unit
Distinct (x ∷ chain) = (On x chain → ⊥) × Distinct chain

-- A live object whose handle hashes to the bucket.
pub record Linked (heap : ℕ → Option Object) (b a : ℕ) : Type 0 where
  pub object : Object
  pub stored : heap a ≡ some object
  pub live : object.active ≡ true
  pub bucket : registry_bucket a ≡ b

-- A retired object: still on the heap, and not active.
pub record Dead (heap : ℕ → Option Object) (a : ℕ) : Type 0 where
  pub object : Object
  pub stored : heap a ≡ some object
  pub stale : object.active ≡ false

-- Every object's handle is its own address; a chain holds exactly the live objects of its bucket,
-- each once; and what was retired is on the heap and not active.
pub record Table (heap : ℕ → Option Object) (registry : ℕ → List ℕ) (retired : List ℕ)
    : Type 0 where
  pub nonnull : heap 0 ≡ none
  pub headers :
      (a : ℕ) (o : Object) → heap a ≡ some o → (o.raw_handle ≡ a) × (o.magic ≡ bridge_magic)
  pub linked : (b a : ℕ) → On a (registry b) → Linked heap b a
  pub complete :
      (a : ℕ) (o : Object) → heap a ≡ some o → o.active ≡ true → On a (registry (registry_bucket a))
  pub distinct : (b : ℕ) → Distinct (registry b)
  pub dead : (a : ℕ) → On a retired → Dead heap a

-- The two heaps differ at most in the mutex fields of objects.
abbrev pub Same : Option Object → Option Object → Type 0
Same none none = Unit
Same (some p) (some o) =
    (p.raw_handle ≡ o.raw_handle)
    × (p.magic ≡ o.magic)
    × (p.active ≡ o.active)
    × (p.owner ≡ o.owner)
    × (p.kind ≡ o.kind)
Same _ _ = ⊥

pub Same-back :
    (p q : Option Object) (o : Object)
    → Same p q
    → p ≡ some o
    → (o' : Object) × (q ≡ some o')
      × (o.raw_handle ≡ o'.raw_handle)
      × (o.magic ≡ o'.magic)
      × (o.active ≡ o'.active)
Same-back none none o h e = cc
Same-back none (some y) o h e = absurd h
Same-back (some x) none o h e = absurd h
Same-back (some x) (some y) o h e = (y, refl, ground arith, ground arith, ground arith)

pub Same-forth :
    (p q : Option Object) (o : Object)
    → Same p q
    → q ≡ some o
    → (o' : Object) × (p ≡ some o')
      × (o.raw_handle ≡ o'.raw_handle)
      × (o.magic ≡ o'.magic)
      × (o.active ≡ o'.active)
Same-forth none none o h e = cc
Same-forth none (some y) o h e = absurd h
Same-forth (some x) none o h e = absurd h
Same-forth (some x) (some y) o h e = (x, refl, ground arith, ground arith, ground arith)

pub Same-matches :
    (p q : Option Object) (raw owner : ℕ) (k : Kind)
    → Same p q
    → matches p raw owner k ≡ matches q raw owner k
unfolding matches
Same-matches none none raw owner k h = refl
Same-matches none (some y) raw owner k h = absurd h
Same-matches (some x) none raw owner k h = absurd h
Same-matches (some x) (some y) raw owner k h = rw (h.0, h.1, h.2, h.3, h.4)

pub Same-refl : (p : Option Object) → Same p p
Same-refl none = tt
Same-refl (some o) = (refl, refl, refl, refl, refl)

module _ {heap heap' : ℕ → Option Object} {registry : ℕ → List ℕ} {retired : List ℕ} where
  -- A change of the mutex fields alone.
  pub Table-Same :
      ((a : ℕ) → Same (heap' a) (heap a))
      → Table heap registry retired
      → Table heap' registry retired
  Table-Same same t = record {
    nonnull = none_of (heap' 0) (heap 0) (same 0) t.nonnull;
    headers = λ a o e.
        let (o', e', r, m, l) = Same-back (heap' a) (heap a) o (same a) e in
        let g = t.headers a o' e' in (r ∙ g.0, m ∙ g.1);
    linked = λ b a on.
        let k = t.linked b a on in
        let (o', e', r, m, l) = Same-forth (heap' a) (heap a) k.object (same a) k.stored in
        record { object = o'; stored = e'; live = sym l ∙ k.live; bucket = k.bucket };
    complete = λ a o e l.
        let (o', e', r, m, q) = Same-back (heap' a) (heap a) o (same a) e in
        t.complete a o' e' (sym q ∙ l);
    distinct = t.distinct;
    dead = λ a on.
        let k = t.dead a on in
        let (o', e', r, m, l) = Same-forth (heap' a) (heap a) k.object (same a) k.stored in
        record { object = o'; stored = e'; stale = sym l ∙ k.stale };
  }
    where
      none_of : (p q : Option Object) → Same p q → q ≡ none → p ≡ none
      none_of none q h e = refl
      none_of (some x) none h e = absurd h
      none_of (some x) (some y) h e = cc
