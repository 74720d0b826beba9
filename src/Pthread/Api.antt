-- ===== src/Pthread/Api.antt =====
-- The entry points of pthread_bridge.h that change the bridge's state, and a thread's history.
use tasm2_nextos.Prelude.{ℕ, List, [], ◌∷◌, Option}
use tasm2_nextos.Pthread.State.{State, Host}
use tasm2_nextos.Pthread.Attr
use tasm2_nextos.Pthread.Mutex
use tasm2_nextos.Pthread.Mutex.{Handoff}
use tasm2_nextos.Pthread.Cond
use tasm2_nextos.Pthread.Sem

-- A call, with its arguments.
pub data Op : Type 0 where
  attr_init attr_destroy : ℕ → Op
  attr_setdetachstate attr_setstacksize : ℕ → ℕ → Op
  mutexattr_init mutexattr_destroy : ℕ → Op
  mutexattr_settype : ℕ → ℕ → Op
  mutex_init : ℕ → ℕ → Op
  mutex_destroy mutex_lock mutex_trylock mutex_unlock : ℕ → Op
  mutex_handoff_begin : ℕ → Option Handoff → Op
  mutex_handoff_end : Option Handoff → Op
  cond_init cond_destroy cond_signal cond_broadcast : ℕ → Op
  cond_wait : ℕ → ℕ → Op
  cond_timedwait : ℕ → ℕ → ℕ → Op
  sem_init : ℕ → ℕ → ℕ → Op
  sem_destroy sem_post sem_trywait sem_wait : ℕ → Op
  sem_getvalue : ℕ → ℕ → Op

module _ (h : Host) where
  open h use {World}

  -- The state after a call by the thread `self`.
  unfoldable pub step : ℕ → Op → State World → State World
  step self (attr_init g) s = (Attr.init h self g s).1
  step self (attr_destroy g) s = (Attr.destroy h self g s).1
  step self (attr_setdetachstate g d) s = (Attr.setdetachstate h self g d s).1
  step self (attr_setstacksize g n) s = (Attr.setstacksize h self g n s).1
  step self (mutexattr_init g) s = (Attr.init_type h self g s).1
  step self (mutexattr_destroy g) s = (Attr.destroy_type h self g s).1
  step self (mutexattr_settype g t) s = (Attr.settype h self g t s).1
  step self (mutex_init g attr) s = (Mutex.init h self g attr s).1
  step self (mutex_destroy g) s = (Mutex.destroy h self g s).1
  step self (mutex_lock g) s = (Mutex.lock h self g s).1
  step self (mutex_trylock g) s = (Mutex.trylock h self g s).1
  step self (mutex_unlock g) s = (Mutex.unlock h self g s).1
  step self (mutex_handoff_begin g p) s = (Mutex.handoff_begin h self g p s).1
  step self (mutex_handoff_end p) s = (Mutex.handoff_end h self p s).1
  step self (cond_init g) s = (Cond.init h self g s).1
  step self (cond_destroy g) s = (Cond.destroy h self g s).1
  step self (cond_signal g) s = (Cond.signal h self g s).1
  step self (cond_broadcast g) s = (Cond.broadcast h self g s).1
  step self (cond_wait g m) s = (Cond.wait h self g m s).1
  step self (cond_timedwait g m t) s = (Cond.timedwait h self g m t s).1
  step self (sem_init g p v) s = (Sem.init h self g p v s).1
  step self (sem_destroy g) s = (Sem.destroy h self g s).1
  step self (sem_post g) s = (Sem.post h self g s).1
  step self (sem_trywait g) s = (Sem.trywait h self g s).1
  step self (sem_wait g) s = (Sem.wait h self g s).1
  step self (sem_getvalue g out) s = (Sem.getvalue h self g out s).1

  -- A history: calls with the threads that make them, in the order in which they return.
  unfoldable pub run : List (ℕ × Op) → State World → State World
  run [] s = s
  run ((self, op) ∷ ops) s = run ops (step self op s)
