-- ===== src/Pthread/Stable/Mutexes.antt =====
-- The entry points of Mutex.antt keep a stable property.
use tasm2_nextos.Prelude.{ℕ, ◌+◌, ◌%◌, ◌^◌, Option, none, some, arith}
use tasm2_nextos.Pthread.State.{
  State, Host, mutex, mutex_lock, mutex_trylock, mutex_unlock, mutex_destroy, mutex_attr, or_fail,
  status_of,
}
use tasm2_nextos.Pthread.Registry.{object_get}
use tasm2_nextos.Pthread.Mutex
use tasm2_nextos.Pthread.Mutex.{
  Handoff, acquired, released, restored, releasing, record_acquired, record_releasing,
  record_restore, current_owner, may_release, owned_once,
}
use tasm2_nextos.Pthread.Stable.Core.{
  Rely, Stable, init_object-Stable, destroy_object-Stable, host_call-Stable,
  mutex_get_or_create-Stable,
}
use tasm2_nextos.Pthread.Stable.Records.{
  record_acquired-Stable, record_restore-Stable, record_releasing-Stable, or_fail-Stable,
}

module _ (h : Host) (P : State h.World → Type 0) (rely : Rely h P) (stable : Stable h P) where
  open h use {World}

  Mutex-init_typed :
      (self guest t : ℕ) (s : State World) → P s → P (Mutex.init_typed h self guest t s).1
  unfolding Mutex.init_typed
  Mutex-init_typed self guest t s p = init_object-Stable h P rely stable mutex guest _ t s p

  pub Mutex-init :
      (self guest template : ℕ) (s : State World) → P s → P (Mutex.init h self guest template s).1
  unfolding Mutex.init
  Mutex-init self guest template s p = ground (arith, Mutex-init_typed self guest 0 s p, typed)
    where
      typed :
          P
            (or_fail
              (object_get s template mutex_attr, s)
              status_of
              (λ a s1. Mutex.init_typed h self guest (Mutex.attr_type h s1 a) s1)).1
      typed = or_fail-Stable h P rely stable _ _ _ p λ a s1 p1. Mutex-init_typed self guest _ s1 p1

  pub Mutex-destroy : (self guest : ℕ) (s : State World) → P s → P (Mutex.destroy h self guest s).1
  unfolding Mutex.destroy
  Mutex-destroy self guest s p =
      or_fail-Stable h P rely stable _ _ _
        (mutex_get_or_create-Stable h P rely stable self guest s p)
        λ a s1 p1.
          destroy_object-Stable h P rely stable (mutex_destroy a) self a (h.enter s1)
            (rely.enter s1 p1)

  Mutex-note_acquired :
      (self a : ℕ) (r : ℕ × State World) → P r.1 → P (Mutex.note_acquired h self a r).1
  unfolding Mutex.note_acquired
  Mutex-note_acquired self a (e, s) p =
      ground (arith, record_acquired-Stable h P rely stable self a s p)

  pub Mutex-lock : (self guest : ℕ) (s : State World) → P s → P (Mutex.lock h self guest s).1
  unfolding Mutex.lock
  Mutex-lock self guest s p =
      or_fail-Stable h P rely stable _ _ _
        (mutex_get_or_create-Stable h P rely stable self guest s p)
        λ a s1 p1. Mutex-note_acquired self a _ (rely.block self (mutex_lock a) s1 p1)

  pub Mutex-trylock : (self guest : ℕ) (s : State World) → P s → P (Mutex.trylock h self guest s).1
  unfolding Mutex.trylock
  Mutex-trylock self guest s p =
      or_fail-Stable h P rely stable _ _ _
        (mutex_get_or_create-Stable h P rely stable self guest s p)
        λ a s1 p1.
          Mutex-note_acquired self a _
            (host_call-Stable h P rely stable self (mutex_trylock a) s1 p1)

  Mutex-settle_unlock :
      (self a depth : ℕ) (r : ℕ × State World) → P r.1 → P (Mutex.settle_unlock h self a depth r).1
  unfolding Mutex.settle_unlock
  Mutex-settle_unlock self a depth (e, s) p =
      ground (arith, record_restore-Stable h P rely stable self a depth s p)

  Mutex-release_host : (self a : ℕ) (s : State World) → P s → P (Mutex.release_host h self a s).1
  unfolding Mutex.release_host
  Mutex-release_host self a s p =
      or_fail-Stable h P rely stable _ _ _ (record_releasing-Stable h P rely stable self a s p)
        λ depth s1 p1.
          Mutex-settle_unlock self a depth _
            (host_call-Stable h P rely stable self (mutex_unlock a) s1 p1)

  pub Mutex-unlock : (self guest : ℕ) (s : State World) → P s → P (Mutex.unlock h self guest s).1
  unfolding Mutex.unlock
  Mutex-unlock self guest s p =
      or_fail-Stable h P rely stable _ _ _
        (mutex_get_or_create-Stable h P rely stable self guest s p)
        λ a s1 p1. Mutex-release_host self a s1 p1

  Mutex-handoff_result : (a : ℕ) (r : ℕ × State World) → P r.1 → P (Mutex.handoff_result h a r).1
  unfolding Mutex.handoff_result
  Mutex-handoff_result a (e, s) p =
      ground (arith, stable.handoff s ((s.mutex_handoff_count + 1) % 2 ^ 64) p)

  Mutex-handoff_object :
      (self a : ℕ) (s : State World) → P s → P (Mutex.handoff_object h self a s).1
  unfolding Mutex.handoff_object
  Mutex-handoff_object self a s p = ground (
    arith,
    Mutex-handoff_result a (Mutex.release_host h self a s) (Mutex-release_host self a s p),
  )

  pub Mutex-handoff_begin :
      (self guest : ℕ) (x : Option Handoff) (s : State World)
      → P s
      → P (Mutex.handoff_begin h self guest x s).1
  unfolding Mutex.handoff_begin
  Mutex-handoff_begin self guest none s p = p
  Mutex-handoff_begin self guest (some x) s p =
      or_fail-Stable h P rely stable _ _ _
        (mutex_get_or_create-Stable h P rely stable self guest s p)
        λ a s1 p1. Mutex-handoff_object self a s1 p1

  Mutex-relocked :
      (self : ℕ) (x : Handoff) (r : ℕ × State World) → P r.1 → P (Mutex.relocked h self x r).1
  unfolding Mutex.relocked
  Mutex-relocked self x (e, s) p =
      ground (arith, record_acquired-Stable h P rely stable self x.bridge_object s p)

  pub Mutex-handoff_end :
      (self : ℕ) (x : Option Handoff) (s : State World) → P s → P (Mutex.handoff_end h self x s).1
  unfolding Mutex.handoff_end
  Mutex-handoff_end self none s p = p
  Mutex-handoff_end self (some x) s p = ground (
    arith,
    Mutex-relocked self x (h.block self (mutex_lock x.bridge_object) s)
        (rely.block self (mutex_lock x.bridge_object) s p),
  )
