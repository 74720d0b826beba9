-- ===== src/Pthread/Stable/Semaphores.antt =====
-- The entry points of Sem.antt keep a stable property.
use tasm2_nextos.Prelude.{ℕ, ◌==◌, inl, inr, Option, none, some, arith, Bool-cases}
use tasm2_nextos.Pthread.State.{State, Host, sem, sem_destroy, SemCall}
use tasm2_nextos.Pthread.Create.{sem_host_init}
use tasm2_nextos.Pthread.Sem
use tasm2_nextos.Pthread.Stable.Core.{Rely, Stable, init_object-Stable, sem_get_or_create-Stable}
use tasm2_nextos.Pthread.Stable.Records.{or_fail-Stable}

module _ (h : Host) (P : State h.World → Type 0) (rely : Rely h P) (stable : Stable h P) where
  open h use {World}

  pub Sem-init :
      (self guest pshared value : ℕ) (s : State World)
      → P s
      → P (Sem.init h self guest pshared value s).1
  unfolding Sem.init
  Sem-init self guest pshared value s p =
      ground
        (arith, init_object-Stable h P rely stable sem guest (sem_host_init h self value) 0 s p)

  sem_host_call-Stable :
      (self : ℕ) (c : SemCall) (s : State World) → P s → P (Sem.sem_host_call h self c s).1
  unfolding Sem.sem_host_call
  sem_host_call-Stable self c s p = stable.world s (h.sem_call self c s.world).1 p

  Sem-retire : (a : ℕ) (r : Option ℕ × State World) → P r.1 → P (Sem.retire_if_destroyed h a r).1
  unfolding Sem.retire_if_destroyed
  Sem-retire a (none, s) p = stable.retire s a p
  Sem-retire a (some e, s) p = p

  pub Sem-destroy : (self guest : ℕ) (s : State World) → P s → P (Sem.destroy h self guest s).1
  unfolding Sem.destroy
  Sem-destroy self guest s p =
      or_fail-Stable h P rely stable _ _ _ (sem_get_or_create-Stable h P rely stable self guest s p)
        λ a s1 p1.
          Sem-retire a _ (sem_host_call-Stable self (sem_destroy a) (h.enter s1) (rely.enter s1 p1))

  pub Sem-apply :
      (c : ℕ → SemCall) (self guest : ℕ) (s : State World) → P s → P (Sem.apply h c self guest s).1
  unfolding Sem.apply
  Sem-apply c self guest s p =
      or_fail-Stable h P rely stable _ _ _ (sem_get_or_create-Stable h P rely stable self guest s p)
        λ a s1 p1. sem_host_call-Stable self (c a) s1 p1

  pub Sem-wait : (self guest : ℕ) (s : State World) → P s → P (Sem.wait h self guest s).1
  unfolding Sem.wait
  Sem-wait self guest s p =
      or_fail-Stable h P rely stable _ _ _ (sem_get_or_create-Stable h P rely stable self guest s p)
        λ a s1 p1. rely.sem_block self a s1 p1

  pub Sem-getvalue :
      (self guest out : ℕ) (s : State World) → P s → P (Sem.getvalue h self guest out s).1
  unfolding Sem.getvalue
  Sem-getvalue self guest out s p = elim (Bool-cases (out == 0)) [
    | inl e ↦ rw e p
    | inr e ↦ rw e (
        or_fail-Stable h P rely stable _ _ _
          (sem_get_or_create-Stable h P rely stable self guest s p) λ a s1 p1. p1)
  ]
