-- ===== src/Pthread/Once.antt =====
-- `asm2_pthread_once`, lines 1121 to 1179 of pthread_bridge.c: the calls for one control word, with
-- arguments that are not NULL, by any threads, as a step relation.
-- Calls are numbered. A step is what a call does while it holds `once_lock`, so that a wait on
-- `once_cond` may end at any time, as a spurious wakeup does; `init_routine` runs between two steps.
pub mod Safety
use tasm2_nextos.Prelude.{ℕ, ◌+◌, ◌==◌, ◌≡◌, if◌then◌else◌, update}
use tasm2_nextos.Pthread.State.{einval}

-- Where a call stands: not made, in `pthread_cond_wait`, in `init_routine`, back with a result, or
-- its thread was cancelled in `init_routine`.
pub data Phase : Type 0 where
  ready waiting running : Phase
  returned : ℕ → Phase
  cancelled : Phase

-- The control word, and the number of times that `init_routine` returned, which is no variable of
-- the program.
pub record Once : Type 0 where
  pub control : ℕ
  pub phase : ℕ → Phase
  pub completed : ℕ

-- The test of the loop and what follows it, up to the unlock.
unfoldable pub settle : ℕ → Once → Once
settle call s =
    if s.control == 1
    then record s { phase = update s.phase call waiting }
    else if s.control == 2
    then record s { phase = update s.phase call (returned 0) }
    else if s.control == 0
    then record s { control = 1; phase = update s.phase call running }
    else record s { phase = update s.phase call (returned einval) }

-- What follows `init_routine`.
unfoldable pub complete : ℕ → Once → Once
complete call s = record s {
  control = 2;
  phase = update s.phase call (returned 0);
  completed = s.completed + 1;
}

-- `once_init_cancelled`
unfoldable pub once_init_cancelled : ℕ → Once → Once
once_init_cancelled call s = record s {
  control = if s.control == 1 then 0 else s.control;
  phase = update s.phase call cancelled;
}

pub data Step : Once → Once → Type 0 where
  enters : (s : Once) (call : ℕ) → s.phase call ≡ ready → Step s (settle call s)
  wakes : (s : Once) (call : ℕ) → s.phase call ≡ waiting → Step s (settle call s)
  completes : (s : Once) (call : ℕ) → s.phase call ≡ running → Step s (complete call s)
  is_cancelled :
      (s : Once) (call : ℕ) → s.phase call ≡ running → Step s (once_init_cancelled call s)

pub data Reach (s : Once) : Once → Type 0 where
  here : Reach s s
  next : {t u : Once} → Reach s t → Step t u → Reach s u

-- PTHREAD_ONCE_INIT, and no call made.
abbrev pub fresh : Once
fresh = record { control = 0; phase = λ call. ready; completed = 0 }
