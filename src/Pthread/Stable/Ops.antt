-- ===== src/Pthread/Stable/Ops.antt =====
-- Every entry point keeps a stable property.
use tasm2_nextos.Prelude.{ℕ, List, [], ◌∷◌}
use tasm2_nextos.Pthread.State.{State, Host}
use tasm2_nextos.Pthread.Attr
use tasm2_nextos.Pthread.Cond
use tasm2_nextos.Pthread.Sem
use tasm2_nextos.Pthread.Api.{Op, step, run}
use tasm2_nextos.Pthread.Stable.Core.{Rely, Stable, destroy_attr-Stable}
use tasm2_nextos.Pthread.Stable.Attributes.{
  Attr-init, Attr-init_type, Attr-settype, Attr-setdetachstate, Attr-setstacksize,
}
use tasm2_nextos.Pthread.Stable.Mutexes.{
  Mutex-init, Mutex-destroy, Mutex-lock, Mutex-trylock, Mutex-unlock, Mutex-handoff_begin,
  Mutex-handoff_end,
}
use tasm2_nextos.Pthread.Stable.Conditions.{
  Cond-init, Cond-destroy, Cond-wait_for, Cond-timedwait, Cond-wake,
}
use tasm2_nextos.Pthread.Stable.Semaphores.{
  Sem-init, Sem-destroy, Sem-apply, Sem-wait, Sem-getvalue,
}

module _ (h : Host) (P : State h.World → Type 0) (rely : Rely h P) (stable : Stable h P) where
  open h use {World}

  -- Every entry point keeps a stable property.
  pub step-Stable : (self : ℕ) (op : Op) (s : State World) → P s → P (step h self op s)
  unfolding step Attr.destroy Attr.destroy_type Cond.wait Cond.signal Cond.broadcast Sem.post
      Sem.trywait
  step-Stable self (Op.attr_init g) s p = Attr-init h P rely stable self g s p
  step-Stable self (Op.attr_destroy g) s p = destroy_attr-Stable h P rely stable _ _ self g s p
  step-Stable self (Op.attr_setdetachstate g d) s p =
      Attr-setdetachstate h P rely stable self g d s p
  step-Stable self (Op.attr_setstacksize g n) s p = Attr-setstacksize h P rely stable self g n s p
  step-Stable self (Op.mutexattr_init g) s p = Attr-init_type h P rely stable self g s p
  step-Stable self (Op.mutexattr_destroy g) s p = destroy_attr-Stable h P rely stable _ _ self g s p
  step-Stable self (Op.mutexattr_settype g t) s p = Attr-settype h P rely stable self g t s p
  step-Stable self (Op.mutex_init g a) s p = Mutex-init h P rely stable self g a s p
  step-Stable self (Op.mutex_destroy g) s p = Mutex-destroy h P rely stable self g s p
  step-Stable self (Op.mutex_lock g) s p = Mutex-lock h P rely stable self g s p
  step-Stable self (Op.mutex_trylock g) s p = Mutex-trylock h P rely stable self g s p
  step-Stable self (Op.mutex_unlock g) s p = Mutex-unlock h P rely stable self g s p
  step-Stable self (Op.mutex_handoff_begin g x) s p =
      Mutex-handoff_begin h P rely stable self g x s p
  step-Stable self (Op.mutex_handoff_end x) s p = Mutex-handoff_end h P rely stable self x s p
  step-Stable self (Op.cond_init g) s p = Cond-init h P rely stable self g s p
  step-Stable self (Op.cond_destroy g) s p = Cond-destroy h P rely stable self g s p
  step-Stable self (Op.cond_signal g) s p = Cond-wake h P rely stable _ self g s p
  step-Stable self (Op.cond_broadcast g) s p = Cond-wake h P rely stable _ self g s p
  step-Stable self (Op.cond_wait g m) s p = Cond-wait_for h P rely stable _ self g m s p
  step-Stable self (Op.cond_timedwait g m t) s p = Cond-timedwait h P rely stable self g m t s p
  step-Stable self (Op.sem_init g x v) s p = Sem-init h P rely stable self g x v s p
  step-Stable self (Op.sem_destroy g) s p = Sem-destroy h P rely stable self g s p
  step-Stable self (Op.sem_post g) s p = Sem-apply h P rely stable _ self g s p
  step-Stable self (Op.sem_trywait g) s p = Sem-apply h P rely stable _ self g s p
  step-Stable self (Op.sem_wait g) s p = Sem-wait h P rely stable self g s p
  step-Stable self (Op.sem_getvalue g out) s p = Sem-getvalue h P rely stable self g out s p

  pub run-Stable : (ops : List (ℕ × Op)) (s : State World) → P s → P (run h ops s)
  unfolding run
  run-Stable [] s p = p
  run-Stable ((self, op) ∷ ops) s p = run-Stable ops (step h self op s) (step-Stable self op s p)
