-- ===== src/Pthread/Sem.antt =====
-- The guest's semaphores: `asm2_sem_*`. A result is `done` for 0 and `failed e` for -1 with `errno`.
use tasm2_nextos.Prelude.{ℕ, ◌==◌, not, Option, none, some, if◌then◌else◌}
use tasm2_nextos.Pthread.State.{
  or_fail, einval, enosys, sem, State, Host, SemCall, sem_destroy, sem_post, sem_trywait,
}
use tasm2_nextos.Pthread.Registry.{object_retire}
use tasm2_nextos.Pthread.Create.{init_object, sem_host_init, sem_get_or_create}

pub data SemResult : Type 0 where
  done : SemResult
  failed : ℕ → SemResult

-- `sem_result`
unfoldable pub sem_result : Option ℕ → SemResult
sem_result none = done
sem_result (some e) = failed (if e == 0 then einval else e)

module _ (h : Host) where
  open h use {World}

  -- The result of `asm2_sem_init` from an error number.
  abbrev pub errno_result : ℕ → SemResult
  errno_result e = if e == 0 then done else failed e

  -- A host's semaphore function, which changes the host's world only.
  unfoldable pub sem_host_call : ℕ → SemCall → State World → Option ℕ × State World
  sem_host_call self c s = let (r, w) = h.sem_call self c s.world in (r, record s { world = w })

  unfoldable pub init : ℕ → ℕ → ℕ → ℕ → State World → SemResult × State World
  init self guest pshared value s =
      if guest == 0
      then (failed einval, s)
      else if not (pshared == 0)
      then (failed enosys, s)
      else let (e, s1) = init_object h sem guest (sem_host_init h self value) 0 s in
        (errno_result e, s1)

  -- `sem_destroy` of the host object, and `object_retire_locked` if that succeeded.
  unfoldable pub retire_if_destroyed : ℕ → Option ℕ × State World → SemResult × State World
  retire_if_destroyed a (none, s) = (done, object_retire a s)
  retire_if_destroyed a (some e, s) = (sem_result (some e), s)

  unfoldable pub destroy : ℕ → ℕ → State World → SemResult × State World
  destroy self guest s =
      or_fail (sem_get_or_create h self guest s) (λ e. failed e)
        (λ a s1. retire_if_destroyed a (sem_host_call self (sem_destroy a) (h.enter s1)))

  -- The common text of `asm2_sem_post` and `asm2_sem_trywait`.
  unfoldable pub apply : (ℕ → SemCall) → ℕ → ℕ → State World → SemResult × State World
  apply c self guest s =
      or_fail (sem_get_or_create h self guest s) (λ e. failed e)
        (λ a s1. let (q, s2) = sem_host_call self (c a) s1 in (sem_result q, s2))

  unfoldable pub post : ℕ → ℕ → State World → SemResult × State World
  post = apply sem_post

  unfoldable pub trywait : ℕ → ℕ → State World → SemResult × State World
  trywait = apply sem_trywait

  unfoldable pub wait : ℕ → ℕ → State World → SemResult × State World
  wait self guest s =
      or_fail (sem_get_or_create h self guest s) (λ e. failed e)
        (λ a s1. let (q, s2) = h.sem_block self a s1 in (sem_result q, s2))

  -- The value is what the host writes through the pointer `out`, if it succeeds.
  unfoldable pub getvalue : ℕ → ℕ → ℕ → State World → (SemResult × ℕ) × State World
  getvalue self guest out s =
      if out == 0
      then ((failed einval, 0), s)
      else or_fail (sem_get_or_create h self guest s) (λ e. (failed e, 0))
          (λ a s1. let (q, value) = h.sem_getvalue a s1.world in ((sem_result q, value), s1))
