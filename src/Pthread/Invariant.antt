-- ===== src/Pthread/Invariant.antt =====
-- The registry of pthread_bridge.c is well formed after any history of calls.
use mathlib.Core.Option
use tasm2_nextos.Prelude.{
  ℕ, ◌==◌, ◌≡◌, refl, ◌≢◌, inl, inr, false, Option, none, some, List, ◌∷◌, arith, update,
  update_self, Bool-cases, Option-cases, ==_iff, sym, subst,
}
use tasm2_nextos.Pthread.State.{Kind, Object, State, Host, modify_object}
use tasm2_nextos.Pthread.Registry.{
  unlink, registry_bucket, object_publish, object_retire, publish_object, retire_object,
}
use tasm2_nextos.Pthread.Registry.Find.{object_publish-some, object_retire-some, object_retire-none}
use tasm2_nextos.Pthread.Registry.Table.{Table, Same, Same-refl, Table-Same}
use tasm2_nextos.Pthread.Registry.Publish.{Table-publish}
use tasm2_nextos.Pthread.Registry.Retire.{Table-retire}
use tasm2_nextos.Pthread.Create.{fresh_object}
use tasm2_nextos.Pthread.Api.{Op, run}
use tasm2_nextos.Pthread.Stable.{Keeps, Rely, Stable, run-Stable}

-- The registry of the state is well formed.
abbrev pub Inv : {W : Type 0} → State W → Type 0
Inv s = Table s.heap s.registry s.retired_objects

pub Keeps-Same : (f : Object → Object) → Keeps f → (p : Option Object) → Same (Option.map f p) p
Keeps-Same f keeps none = tt
Keeps-Same f keeps (some o) =
    (keeps.handle o, keeps.magic o, keeps.active o, keeps.owner o, keeps.kind o)

pub update-Same :
    (heap : ℕ → Option Object) (a : ℕ) (p : Option Object)
    → Same p (heap a)
    → (b : ℕ) → Same (update heap a p b) (heap b)
update-Same heap a p same b = elim (Bool-cases (b == a)) [
  | inl e ↦ rw (e, (==_iff b a).0 e) same
  | inr e ↦ rw e (Same-refl (heap b))
]

module _ {W : Type 0} (s : State W) (a : ℕ) where
  pub modify-Inv : (f : Object → Object) → Keeps f → Inv s → Inv (modify_object a f s)
  unfolding modify_object
  modify-Inv f keeps v =
      Table-Same (update-Same s.heap a (Option.map f (s.heap a)) (Keeps-Same f keeps (s.heap a))) v

  pub retire-Inv : Inv s → Inv (object_retire a s)
  unfolding retire_object
  retire-Inv v = elim (Option-cases (s.heap a)) [
    | inl e ↦ rw (object_retire-none s a e) v
    | inr (o, e) ↦ rw (object_retire-some s a o e) (retired o e)
  ]
    where
      retired : (o : Object) → s.heap a ≡ some o → Inv (retire_object a o s)
      retired o e =
          subst
            (λ r.
              Table (update s.heap a (some (record o { active = false })))
                (update s.registry (registry_bucket r) (unlink a (s.registry (registry_bucket r))))
                (a ∷ s.retired_objects))
            (sym (v.headers a o e).0) (Table-retire a o e v)

  -- The heap once the object at `a` is made, and `t` stored in its `guest_mutex_type`.
  abbrev pub made_heap : ℕ → Kind → ℕ → ℕ → Option Object
  made_heap owner k t =
      let heap = update s.heap a (some (fresh_object a owner k)) in
      update heap a (Option.map (λ (o : Object). record o { guest_mutex_type = t }) (heap a))

  abbrev pub made_object : ℕ → Kind → ℕ → Object
  made_object owner k t = record (fresh_object a owner k) { guest_mutex_type = t }

  pub made_here :
      (owner : ℕ) (k : Kind) (t : ℕ) → made_heap owner k t a ≡ some (made_object owner k t)
  made_here owner k t = rw (update_self, update_self)

  pub made_there : (owner : ℕ) (k : Kind) (t b : ℕ) → b ≢ a → made_heap owner k t b ≡ s.heap b
  made_there owner k t b ne = ground arith

  pub publish-Inv :
      (owner : ℕ) (k : Kind) (t : ℕ) (w : W)
      → s.heap a ≡ none
      → a ≢ 0
      → Inv s
      → Inv (
          object_publish a (
            modify_object a
              (λ o. record o { guest_mutex_type = t })
              (record s { heap = update s.heap a (some (fresh_object a owner k)); world = w })))
  unfolding publish_object modify_object
  publish-Inv owner k t w free nz v =
      rw
        (object_publish-some
          (modify_object a (λ o. record o { guest_mutex_type = t })
            (record s { heap = update s.heap a (some (fresh_object a owner k)); world = w }))
          a (made_object owner k t) (made_here owner k t))
        (Table-publish a (made_object owner k t) free nz (made_here owner k t)
          (made_there owner k t) refl refl refl v)

  pub free-Inv :
      (owner : ℕ) (k : Kind) (w : W)
      → s.heap a ≡ none
      → Inv s
      → Inv (record s {
        heap = update (update s.heap a (some (fresh_object a owner k))) a none;
        world = w;
      })
  free-Inv owner k w free v = Table-Same same v
    where
      same :
          (b : ℕ)
          → Same (update (update s.heap a (some (fresh_object a owner k))) a none b) (s.heap b)
      same b = elim (Bool-cases (b == a)) [
        | inl e ↦ rw (e, (==_iff b a).0 e, free) tt
        | inr e ↦ rw e (Same-refl (s.heap b))
      ]

module _ (h : Host) where
  open h use {World}

  pub Inv-Stable : Stable h Inv
  Inv-Stable = record {
    world = λ s w v. v;
    handoff = λ s n v. v;
    modify = λ s a f keeps v. modify-Inv s a f keeps v;
    publish = λ s a owner k t w free nz v. publish-Inv s a owner k t w free nz v;
    free = λ s a owner k w free v. free-Inv s a owner k w free v;
    retire = λ s a v. retire-Inv s a v;
  }

  -- Whatever calls the threads make, the registry stays well formed, if `calloc` returns memory
  -- that is not in use and the other threads keep it well formed while one waits: every object's
  -- handle is its address, each bucket's chain holds exactly the live objects that hash to it, each
  -- once, and the retired list holds inactive objects only.
  pub run-Inv : (ops : List (ℕ × Op)) (s : State World) → Rely h Inv → Inv s → Inv (run h ops s)
  run-Inv ops s rely v = run-Stable h Inv rely Inv-Stable ops s v
