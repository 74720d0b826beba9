-- ===== src/Pthread/Handoff.antt =====
-- The handoff of a guest mutex: `asm2_pthread_mutex_handoff_begin` and `asm2_pthread_mutex_handoff_end`.
use tasm2_nextos.Prelude.{
  ℕ, ◌==◌, ◌≡◌, ◌≢◌, refl, ap, ◌∙◌, true, false, some, arith, if◌then◌else◌, update_self,
}
use mathlib.Core.Option
use tasm2_nextos.Prelude.Int.{pos}
use tasm2_nextos.Pthread.State.{Object, State, Host, modify_object, mutex_unlock, mutex_lock}
use tasm2_nextos.Pthread.Mutex.{
  Handoff, current_owner, acquired, released, may_release, owned_once, record_acquired,
  release_host, handoff_result, handoff_object, relocked, handoff_end,
}
use tasm2_nextos.Pthread.Tracking.{release_host_parts}

-- The structure that the guest passes, while the mutex at `a` is handed off.
abbrev pub handed_off : ℕ → Handoff
handed_off a = record { bridge_object = a; active = 1 }

abbrev pub handed_back : Handoff
handed_back = record { bridge_object = 0; active = 0 }

module _ (h : Host) (self a : ℕ) where
  open h use {World}

  owned_fields :
      (o : Object)
      → owned_once self (some o) ≡ true
      → (o.mutex_owner ≡ current_owner self) × (o.mutex_depth ≡ 1)
  unfolding owned_once
  owned_fields o e = ground arith

  owned_once-may_release :
      (o : Object) → owned_once self (some o) ≡ true → may_release self o ≡ true
  unfolding owned_once may_release
  owned_once-may_release o e = ground arith

  result_lem :
      (r : ℕ × State World)
      → r.0 ≡ 0
      → ((handoff_result h a r).0 ≡ (pos 1, some (handed_off a)))
        × ((handoff_result h a r).1.heap ≡ r.1.heap)
  unfolding handoff_result
  result_lem (e, s) z = rw z (refl, refl)

  begun :
      (s : State World) (o : Object)
      → s.heap a ≡ some o
      → owned_once self (some o) ≡ true
      → (h.call self (mutex_unlock a) s.world).0 ≡ 0
      → ((handoff_object h self a s).0 ≡ (pos 1, some (handed_off a)))
        × ((handoff_object h self a s).1.heap a ≡ some (released o))
  unfolding handoff_object
  begun s o stored owned done =
      rw (stored, owned)
        (let allowed : may_release self o ≡ true = owned_once-may_release o owned in
          let l = release_host_parts h self a s o stored in
          let free : (release_host h self a s).0 ≡ 0 =
            l.0
            ∙ (ap (λ b. if b then (h.call self (mutex_unlock a) s.world).0 else 1) allowed
                ∙ done) in
          let r = result_lem (release_host h self a s) free in
          (r.0, ap (λ m. m a) r.1 ∙ (l.1 ∙ ap some (ground (arith, allowed, done)))))

  relocked_lem :
      (r : ℕ × State World) (p : Object)
      → r.0 ≡ 0
      → r.1.heap a ≡ some p
      → ((relocked h self (handed_off a) r).0 ≡ (0, some handed_back))
        × ((relocked h self (handed_off a) r).1.heap a ≡ some (acquired self p))
  unfolding relocked record_acquired modify_object
  relocked_lem (e, s) p z stored = rw z (
    refl,
    update_self s.heap a (Option.map (acquired self) (s.heap a))
        ∙ ap (Option.map (acquired self)) stored,
  )

  -- A thread hands off a mutex that it owns at depth one, and the host unlocks it; then the result
  -- is 1, the structure names the object, and no owner is tracked. If it takes the mutex back while
  -- it is not tracked as the owner, and the host locks it, the result is 0, the structure is clear,
  -- and the owner and depth are those that it had before.
  pub handoff_lem :
      (s : State World) (o p : Object)
      → a ≢ 0
      → s.heap a ≡ some o
      → owned_once self (some o) ≡ true
      → (h.call self (mutex_unlock a) s.world).0 ≡ 0
      → (h.block self (mutex_lock a) (handoff_object h self a s).1).0 ≡ 0
      → (h.block self (mutex_lock a) (handoff_object h self a s).1).1.heap a ≡ some p
      → p.mutex_owner ≢ current_owner self
      → (((handoff_object h self a s).0 ≡ (pos 1, some (handed_off a)))
          × ((handoff_object h self a s).1.heap a
              ≡ some (record o { mutex_owner = 0; mutex_depth = 0 })))
        × (((handoff_end h self (some (handed_off a)) (handoff_object h self a s).1).0
              ≡ (0, some handed_back))
            × ((handoff_end h self (some (handed_off a)) (handoff_object h self a s).1).1.heap a
                ≡ some (record p { mutex_owner = o.mutex_owner; mutex_depth = o.mutex_depth })))
  unfolding handoff_end released acquired
  handoff_lem s o p nz stored owned done locked there free =
      let fields = owned_fields o owned in
      let b = begun s o stored owned done in
      let e =
        relocked_lem (h.block self (mutex_lock a) (handoff_object h self a s).1) p locked there in
      let zero_test : (a == 0) ≡ false = ground arith in
      let one : released o ≡ record o { mutex_owner = 0; mutex_depth = 0 } =
        ground (arith, fields) in
      let again : acquired self p
          ≡ record p { mutex_owner = o.mutex_owner; mutex_depth = o.mutex_depth } =
        ground (arith, fields, free) in
      ((b.0, b.1 ∙ ap some one), rw zero_test (e.0, e.1 ∙ ap some again))
