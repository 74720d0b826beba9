-- ===== src/Pthread/Lazy.antt =====
-- The lazy creation of a host object for a guest's static object: `mutex_get_or_create` and its kin.
use tasm2_nextos.Prelude.{
  ℕ, ◌==◌, ◌≡◌, refl, ◌≢◌, inl, inr, false, some, arith, update, update_self, Bool-cases,
  Option-cases,
}
use tasm2_nextos.Pthread.State.{Kind, State, Host, Result, ok, err, modify_object}
use tasm2_nextos.Pthread.Registry.{registry_find, object_publish}
use tasm2_nextos.Pthread.Registry.Complete.{find-object_publish}
use tasm2_nextos.Pthread.Allocate.{object_allocate_cases}
use tasm2_nextos.Pthread.Create.{
  fresh_object, Init, publish_or_free, create, create_decoded, get_or_create,
}

-- If the result is an object, a lookup through the guest's word finds it.
abbrev pub Found : {W : Type 0} → Kind → ℕ → Result ℕ × State W → Type 0
Found k guest (err e, s) = Unit {0}
Found k guest (ok a, s) = registry_find s (s.slots guest) guest k ≡ some a

module _ (h : Host) (k : Kind) (guest : ℕ) where
  open h use {World}

  abbrev made : ℕ → ℕ → State World → World → State World
  made t a s w =
      modify_object a (λ o. record o { guest_mutex_type = t })
        (record s { heap = update s.heap a (some (fresh_object a guest k)); world = w })

  made-Found :
      (t a : ℕ) (s : State World) (w : World)
      → a ≢ 0
      → Found k guest (ok a, object_publish a (made t a s w))
  unfolding modify_object
  made-Found t a s w nz =
      find-object_publish (made t a s w) a
        (record (fresh_object a guest k) { guest_mutex_type = t }) stored refl nz refl refl
    where
      stored :
          (made t a s w).heap a ≡ some (record (fresh_object a guest k) { guest_mutex_type = t })
      stored = rw (update_self, update_self)

  publish_or_free-Found :
      (init : Init h) (t a : ℕ) (s : State World) (w : World)
      → a ≢ 0
      → Found k guest (
          publish_or_free h init t a
            (record s { heap = update s.heap a (some (fresh_object a guest k)); world = w }))
  unfolding publish_or_free
  publish_or_free-Found init t a s w nz = elim (Bool-cases ((init a w).0 == 0)) [
    | inl e ↦ rw e (made-Found t a s (init a w).1 nz)
    | inr e ↦ rw e tt
  ]

  abbrev published : Init h → ℕ → Result ℕ × State World → Result ℕ × State World
  published init t r = elim r.0 [ err e ↦ (err e, r.1) | ok a ↦ publish_or_free h init t a r.1 ]

  create-Found :
      (init : Init h) (t : ℕ) (s : State World) → Found k guest (create h k guest init t s)
  unfolding create
  create-Found init t s =
      object_allocate_cases h (λ r. Found k guest (published init t r)) k guest s (λ e. tt)
        (λ a e nz. publish_or_free-Found init t a s (h.calloc s).1 nz)

  create_decoded-Found :
      (init : ℕ → Init h) (t : ℕ → ℕ) (s : State World) (r : Result ℕ)
      → Found k guest (create_decoded h k init t guest s r)
  unfolding create_decoded
  create_decoded-Found init t s (err e) = tt
  create_decoded-Found init t s (ok v) = create-Found (init v) (t v) s

  module _ (decode : ℕ → Result ℕ) (init : ℕ → Init h) (t : ℕ → ℕ) where
    get_or_create-Found :
        (s : State World) → Found k guest (get_or_create h k decode init t guest s)
    unfolding get_or_create
    get_or_create-Found s = elim (Bool-cases (guest == 0)) [
      | inl e ↦ rw e tt
      | inr e ↦ rw e (elim (Option-cases (registry_find s (s.slots guest) guest k)) [
        | inr (a, q) ↦ rw q q
        | inl q ↦
            rw q
              (elim (Option-cases (registry_find (h.enter s) ((h.enter s).slots guest) guest k)) [
                | inr (a, r) ↦ rw r r
                | inl r ↦
                    rw r
                      (create_decoded-Found init t (h.enter s) (decode ((h.enter s).slots guest)))
              ])
      ])
    ]

    again :
        (r : Result ℕ × State World) (a : ℕ)
        → guest ≢ 0
        → Found k guest r
        → r.0 ≡ ok a
        → get_or_create h k decode init t guest r.1 ≡ (ok a, r.1)
    unfolding get_or_create
    again (err e, s) a nz found q = cc
    again (ok b, s) a nz found q = rw (zero_test, found) (ground arith)
      where
        zero_test : (guest == 0) ≡ false
        zero_test = ground arith

    -- For a guest pointer that is not NULL, if a lazy lookup found or made an object, the same lookup
    -- right behind it returns that object, and changes nothing.
    pub get_or_create_twice :
        (s : State World) (a : ℕ)
        → guest ≢ 0
        → (get_or_create h k decode init t guest s).0 ≡ ok a
        → get_or_create h k decode init t guest (get_or_create h k decode init t guest s).1
          ≡ (ok a, (get_or_create h k decode init t guest s).1)
    get_or_create_twice s a nz q =
        again (get_or_create h k decode init t guest s) a nz (get_or_create-Found s) q
