-- ===== src/Pthread/Stable/Conditions.antt =====
-- The entry points of Cond.antt keep a stable property.
use tasm2_nextos.Prelude.{ℕ, arith}
use tasm2_nextos.Pthread.State.{State, Host, Call, Block, cond, cond_destroy, cond_timedwait}
use tasm2_nextos.Pthread.Create.{cond_host_init}
use tasm2_nextos.Pthread.Cond
use tasm2_nextos.Pthread.Stable.Core.{
  Rely, Stable, init_object-Stable, destroy_object-Stable, host_call-Stable,
  mutex_get_or_create-Stable, cond_get_or_create-Stable,
}
use tasm2_nextos.Pthread.Stable.Records.{
  record_acquired-Stable, record_restore-Stable, record_releasing-Stable, or_fail-Stable,
}

module _ (h : Host) (P : State h.World → Type 0) (rely : Rely h P) (stable : Stable h P) where
  open h use {World}

  pub Cond-init : (self guest : ℕ) (s : State World) → P s → P (Cond.init h self guest s).1
  unfolding Cond.init
  Cond-init self guest s p =
      ground (arith, init_object-Stable h P rely stable cond guest (cond_host_init h self) 0 s p)

  pub Cond-destroy : (self guest : ℕ) (s : State World) → P s → P (Cond.destroy h self guest s).1
  unfolding Cond.destroy
  Cond-destroy self guest s p =
      or_fail-Stable h P rely stable _ _ _
        (cond_get_or_create-Stable h P rely stable self guest s p)
        λ a s1 p1.
          destroy_object-Stable h P rely stable (cond_destroy a) self a (h.enter s1)
            (rely.enter s1 p1)

  Cond-reacquired : (self m : ℕ) (r : ℕ × State World) → P r.1 → P (Cond.reacquired h self m r).1
  unfolding Cond.reacquired
  Cond-reacquired self m (e, s) p = record_acquired-Stable h P rely stable self m s p

  Cond-wait_object :
      (b : Block) (self m : ℕ) (s : State World) → P s → P (Cond.wait_object h b self m s).1
  unfolding Cond.wait_object
  Cond-wait_object b self m s p =
      or_fail-Stable h P rely stable _ _ _ (record_releasing-Stable h P rely stable self m s p)
        λ depth s1 p1. ground (
          arith,
          Cond-reacquired self m (h.block self b s1) (rely.block self b s1 p1),
          record_restore-Stable h P rely stable self m depth s1 p1,
        )

  pub Cond-wait_for :
      (b : ℕ → ℕ → Block) (self guest m : ℕ) (s : State World)
      → P s
      → P (Cond.wait_for h b self guest m s).1
  unfolding Cond.wait_for
  Cond-wait_for b self guest m s p =
      or_fail-Stable h P rely stable _ _ _
        (cond_get_or_create-Stable h P rely stable self guest s p)
        λ c s1 p1.
          or_fail-Stable h P rely stable _ _ _
            (mutex_get_or_create-Stable h P rely stable self m s1 p1)
            λ a s2 p2. Cond-wait_object (b c a) self a s2 p2

  pub Cond-timedwait :
      (self guest m t : ℕ) (s : State World) → P s → P (Cond.timedwait h self guest m t s).1
  unfolding Cond.timedwait
  Cond-timedwait self guest m t s p =
      ground (arith, Cond-wait_for (λ c a. cond_timedwait c a t) self guest m s p)

  pub Cond-wake :
      (c : ℕ → Call) (self guest : ℕ) (s : State World) → P s → P (Cond.wake h c self guest s).1
  unfolding Cond.wake
  Cond-wake c self guest s p =
      or_fail-Stable h P rely stable _ _ _
        (cond_get_or_create-Stable h P rely stable self guest s p)
        λ a s1 p1. host_call-Stable h P rely stable self (c a) s1 p1
