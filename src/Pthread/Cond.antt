-- ===== src/Pthread/Cond.antt =====
-- The guest's condition variables: `asm2_pthread_cond_*`.
-- `h.block` of a wait returns the state after the other threads ran and the mutex was taken again.
use tasm2_nextos.Prelude.{ℕ, ◌==◌, if◌then◌else◌}
use tasm2_nextos.Pthread.State.{
  or_fail, status_of, einval, cond, State, Host, Block, cond_destroy, cond_signal, cond_broadcast,
  Call, cond_wait, cond_timedwait, host_call,
}
use tasm2_nextos.Pthread.Create.{
  init_object, destroy_object, cond_host_init, cond_get_or_create, mutex_get_or_create,
}
use tasm2_nextos.Pthread.Mutex.{record_acquired, record_releasing, record_restore}

module _ (h : Host) where
  open h use {World}

  unfoldable pub init : ℕ → ℕ → State World → ℕ × State World
  init self guest s =
      if guest == 0 then (einval, s) else init_object h cond guest (cond_host_init h self) 0 s

  unfoldable pub destroy : ℕ → ℕ → State World → ℕ × State World
  destroy self guest s =
      or_fail (cond_get_or_create h self guest s) status_of
        (λ a s1. destroy_object h (cond_destroy a) self a (h.enter s1))

  -- `mutex_record_acquired` when the host's wait returns, whatever it returned.
  unfoldable pub reacquired : ℕ → ℕ → ℕ × State World → ℕ × State World
  reacquired self m (e, s) = (e, record_acquired self m s)

  -- The wait on the mutex at `m`: give up the record, and refuse a depth other than one.
  unfoldable pub wait_object : Block → ℕ → ℕ → State World → ℕ × State World
  wait_object b self m s = or_fail (record_releasing self m s) status_of λ previous_depth s1.
      if previous_depth == 1
      then reacquired self m (h.block self b s1)
      else (einval, record_restore self m previous_depth s1)

  -- The common text of the two waits, with the host's function and its addresses.
  unfoldable pub wait_for : (ℕ → ℕ → Block) → ℕ → ℕ → ℕ → State World → ℕ × State World
  wait_for b self guest_cond guest_mutex s =
      or_fail (cond_get_or_create h self guest_cond s) status_of (λ c s1.
        or_fail (mutex_get_or_create h self guest_mutex s1) status_of
          (λ m s2. wait_object (b c m) self m s2))

  unfoldable pub wait : ℕ → ℕ → ℕ → State World → ℕ × State World
  wait = wait_for cond_wait

  unfoldable pub timedwait : ℕ → ℕ → ℕ → ℕ → State World → ℕ × State World
  timedwait self guest_cond guest_mutex abstime s =
      if abstime == 0
      then (einval, s)
      else wait_for (λ c m. cond_timedwait c m abstime) self guest_cond guest_mutex s

  -- `pthread_cond_signal` or `pthread_cond_broadcast` of the object.
  unfoldable pub wake : (ℕ → Call) → ℕ → ℕ → State World → ℕ × State World
  wake c self guest s =
      or_fail (cond_get_or_create h self guest s) status_of (λ a s1. host_call h self (c a) s1)

  unfoldable pub signal : ℕ → ℕ → State World → ℕ × State World
  signal = wake cond_signal

  unfoldable pub broadcast : ℕ → ℕ → State World → ℕ × State World
  broadcast = wake cond_broadcast
