-- ===== src/Pthread/Stable/Core.antt =====
-- The primitive changes, and the lookups, creations and destructions made of them.
use tasm2_nextos.Prelude.{
  ℕ, ◌==◌, ◌≡◌, ◌≢◌, inl, inr, none, some, arith, update, Bool-cases, Option-cases,
}
use tasm2_nextos.Pthread.State.{
  Kind, Object, State, Host, Result, ok, err, Call, Block, modify_object, host_call,
}
use tasm2_nextos.Pthread.Registry.{registry_find, object_publish, object_retire}
use tasm2_nextos.Pthread.Allocate.{object_allocate_cases}
use tasm2_nextos.Pthread.Create.{
  fresh_object, Init, publish_or_free, create, init_object, create_decoded, get_or_create,
  destroy_object, destroy_attr, mutex_get_or_create, cond_get_or_create, sem_get_or_create,
}

-- The function changes at most the mutex fields.
pub record Keeps (f : Object → Object) : Type 0 where
  pub handle : (o : Object) → (f o).raw_handle ≡ o.raw_handle
  pub magic : (o : Object) → (f o).magic ≡ o.magic
  pub active : (o : Object) → (f o).active ≡ o.active
  pub owner : (o : Object) → (f o).owner ≡ o.owner
  pub kind : (o : Object) → (f o).kind ≡ o.kind

-- What is assumed of the C library and of the other threads: `calloc` returns memory that is not
-- in use, and what other threads do while this one waits keeps the property.
pub record Rely (h : Host) (P : State h.World → Type 0) : Type 0 where
  pub fresh : (s : State h.World) (a : ℕ) → (h.calloc s).0 ≡ some a → s.heap a ≡ none
  pub enter : (s : State h.World) → P s → P (h.enter s)
  pub block : (self : ℕ) (b : Block) (s : State h.World) → P s → P (h.block self b s).1
  pub sem_block : (self a : ℕ) (s : State h.World) → P s → P (h.sem_block self a s).1

pub record Stable (h : Host) (P : State h.World → Type 0) : Type 0 where
  pub world : (s : State h.World) (w : h.World) → P s → P (record s { world = w })
  pub handoff : (s : State h.World) (n : ℕ) → P s → P (record s { mutex_handoff_count = n })
  pub modify :
      (s : State h.World) (a : ℕ) (f : Object → Object) → Keeps f → P s → P (modify_object a f s)
  pub publish :
      (s : State h.World) (a owner : ℕ) (k : Kind) (t : ℕ) (w : h.World)
      → s.heap a ≡ none
      → a ≢ 0
      → P s
      → P (
          object_publish a (
            modify_object a
              (λ o. record o { guest_mutex_type = t })
              (record s { heap = update s.heap a (some (fresh_object a owner k)); world = w })))
  pub free :
      (s : State h.World) (a owner : ℕ) (k : Kind) (w : h.World)
      → s.heap a ≡ none
      → P s
      → P (record s {
        heap = update (update s.heap a (some (fresh_object a owner k))) a none;
        world = w;
      })
  pub retire : (s : State h.World) (a : ℕ) → P s → P (object_retire a s)

module _ (h : Host) (P : State h.World → Type 0) (rely : Rely h P) (stable : Stable h P) where
  open h use {World}

  publish_or_free-Stable :
      (k : Kind) (owner : ℕ) (init : Init h) (t : ℕ) (s : State World) (a : ℕ) (w : World)
      → s.heap a ≡ none
      → a ≢ 0
      → P s
      → P
          (publish_or_free h init t a
            (record s { heap = update s.heap a (some (fresh_object a owner k)); world = w })).1
  unfolding publish_or_free
  publish_or_free-Stable k owner init t s a w free nz p = elim (Bool-cases ((init a w).0 == 0)) [
    | inl e ↦ rw e (stable.publish s a owner k t (init a w).1 free nz p)
    | inr e ↦ rw e (stable.free s a owner k (init a w).1 free p)
  ]

  -- What `create` does with the result of the allocation.
  abbrev published : Init h → ℕ → Result ℕ × State World → Result ℕ × State World
  published init t r = elim r.0 [ err e ↦ (err e, r.1) | ok a ↦ publish_or_free h init t a r.1 ]

  pub create-Stable :
      (k : Kind) (owner : ℕ) (init : Init h) (t : ℕ) (s : State World)
      → P s
      → P (create h k owner init t s).1
  unfolding create
  create-Stable k owner init t s p =
      object_allocate_cases h (λ r. P (published init t r).1) k owner s
        (λ e. stable.world s (h.calloc s).1 p)
        (λ a e nz. publish_or_free-Stable k owner init t s a (h.calloc s).1 (rely.fresh s a e) nz p)

  pub init_object-Stable :
      (k : Kind) (guest : ℕ) (init : Init h) (t : ℕ) (s : State World)
      → P s
      → P (init_object h k guest init t s).1
  unfolding init_object
  init_object-Stable k guest init t s p =
      ground (arith, rely.enter s p, create-Stable k guest init t (h.enter s) (rely.enter s p))

  create_decoded-Stable :
      (k : Kind) (init : ℕ → Init h) (t : ℕ → ℕ) (guest : ℕ) (s : State World) (r : Result ℕ)
      → P s
      → P (create_decoded h k init t guest s r).1
  unfolding create_decoded
  create_decoded-Stable k init t guest s (err e) p = p
  create_decoded-Stable k init t guest s (ok v) p = create-Stable k guest (init v) (t v) s p

  pub get_or_create-Stable :
      (k : Kind) (decode : ℕ → Result ℕ) (init : ℕ → Init h) (t : ℕ → ℕ) (guest : ℕ)
      (s : State World)
      → P s
      → P (get_or_create h k decode init t guest s).1
  unfolding get_or_create
  get_or_create-Stable k decode init t guest s p = elim (Bool-cases (guest == 0)) [
    | inl e ↦ rw e p
    | inr e ↦ rw e (elim (Option-cases (registry_find s (s.slots guest) guest k)) [
      | inr (a, q) ↦ rw q p
      | inl q ↦
          rw q (elim (Option-cases (registry_find (h.enter s) ((h.enter s).slots guest) guest k)) [
            | inr (a, r) ↦ rw r (rely.enter s p)
            | inl r ↦ rw r (
                create_decoded-Stable k init t guest (h.enter s) (decode ((h.enter s).slots guest))
                  (rely.enter s p))
          ])
    ])
  ]

  pub mutex_get_or_create-Stable :
      (self guest : ℕ) (s : State World) → P s → P (mutex_get_or_create h self guest s).1
  unfolding mutex_get_or_create
  mutex_get_or_create-Stable self guest s p = get_or_create-Stable _ _ _ _ guest s p

  pub cond_get_or_create-Stable :
      (self guest : ℕ) (s : State World) → P s → P (cond_get_or_create h self guest s).1
  unfolding cond_get_or_create
  cond_get_or_create-Stable self guest s p = get_or_create-Stable _ _ _ _ guest s p

  pub sem_get_or_create-Stable :
      (self guest : ℕ) (s : State World) → P s → P (sem_get_or_create h self guest s).1
  unfolding sem_get_or_create
  sem_get_or_create-Stable self guest s p = get_or_create-Stable _ _ _ _ guest s p

  pub host_call-Stable : (self : ℕ) (c : Call) (s : State World) → P s → P (host_call h self c s).1
  unfolding host_call
  host_call-Stable self c s p = stable.world s (h.call self c s.world).1 p

  pub destroy_object-Stable :
      (c : Call) (self a : ℕ) (s : State World) → P s → P (destroy_object h c self a s).1
  unfolding destroy_object
  destroy_object-Stable c self a s p =
      let q = host_call-Stable self c s p in
      ground (arith, q, stable.retire (host_call h self c s).1 a q)

  pub destroy_attr-Stable :
      (k : Kind) (destroy : ℕ → Call) (self guest : ℕ) (s : State World)
      → P s
      → P (destroy_attr h k destroy self guest s).1
  unfolding destroy_attr
  destroy_attr-Stable k destroy self guest s p =
      elim (Option-cases (registry_find (h.enter s) ((h.enter s).slots guest) guest k)) [
        | inl e ↦ ground (arith, rely.enter s p)
        | inr (a, e) ↦ ground (
          arith,
          rely.enter s p,
          destroy_object-Stable (destroy a) self a (h.enter s) (rely.enter s p),
        )
      ]
