-- ===== src/Pthread/State.antt =====
-- The data of pthread_bridge.c: bridge objects, the registry's variables and guest memory.
-- Addresses are numbers and NULL is 0. An `int` argument is its 32-bit pattern, so a negative one
-- is a number from 2 ^ 31 on. Error numbers are those of Linux.
use tasm2_nextos.Prelude.{ℕ, ◌^◌, ◌-◌, ◌==◌, Bool, Option, List, update}
use mathlib.Core.Option

abbrev pub eperm : ℕ
eperm = 1

abbrev pub enomem : ℕ
enomem = 12

abbrev pub ebusy : ℕ
ebusy = 16

abbrev pub einval : ℕ
einval = 22

abbrev pub enosys : ℕ
enosys = 38

abbrev pub eoverflow : ℕ
eoverflow = 75

abbrev pub u32_max : ℕ
u32_max = 2 ^ 32 - 1

-- `ASM2_BRIDGE_MAGIC`
abbrev pub bridge_magic : ℕ
bridge_magic = 0x41313237

-- `ASM2_REGISTRY_BUCKETS`
abbrev pub registry_buckets : ℕ
registry_buckets = 256

-- `enum asm2_object_kind`
pub data Kind : Type 0 where
  attr mutex_attr mutex cond sem : Kind

-- The number that the enumeration gives each kind.
abbrev pub kind_code : Kind → ℕ
kind_code attr = 1
kind_code mutex_attr = 2
kind_code mutex = 3
kind_code cond = 4
kind_code sem = 5

abbrev pub same_kind : Kind → Kind → Bool
same_kind j k = kind_code j == kind_code k

-- `struct asm2_bridge_object`. The links `active_next` and `retired_next` are the lists of the
-- state, and the union `host` is in the host's world, under the object's address.
pub record Object : Type 0 where
  pub magic : ℕ
  pub kind : Kind
  pub active : Bool
  pub owner : ℕ
  pub raw_handle : ℕ
  pub guest_mutex_type : ℕ
  pub mutex_owner : ℕ
  pub mutex_depth : ℕ

-- The static variables, the heap of bridge objects, and the guest's words that the bridge reads.
pub record State (W : Type 0) : Type 0 where
  pub heap : ℕ → Option Object
  pub registry : ℕ → List ℕ
  pub retired_objects : List ℕ
  pub created : ℕ
  pub active : ℕ
  pub retired : ℕ
  pub mutex_handoff_count : ℕ
  pub slots : ℕ → ℕ
  pub world : W

-- A C function that returns a pointer or a value, or an error number.
pub data Result {ℓ} (A : Type ℓ) : Type ℓ where
  ok : A → Result A
  err : ℕ → Result A

-- The host's functions that the bridge calls without waiting, at the addresses of its objects.
pub data Call : Type 0 where
  attr_init attr_destroy : ℕ → Call
  attr_setdetachstate attr_setstacksize : ℕ → ℕ → Call
  mutexattr_init mutexattr_destroy : ℕ → Call
  mutexattr_settype : ℕ → ℕ → Call
  -- the mutex, and the attribute object
  mutex_init : ℕ → ℕ → Call
  mutex_destroy mutex_trylock mutex_unlock : ℕ → Call
  cond_init cond_destroy cond_signal cond_broadcast : ℕ → Call

-- Those that return an error number and write a value.
pub data Query : Type 0 where
  attr_getdetachstate attr_getstacksize mutexattr_gettype : ℕ → Query

-- Those that wait, so that other threads run before they return.
pub data Block : Type 0 where
  mutex_lock : ℕ → Block
  cond_wait : ℕ → ℕ → Block
  cond_timedwait : ℕ → ℕ → ℕ → Block

-- The semaphore functions, which report through `errno`.
pub data SemCall : Type 0 where
  sem_init : ℕ → ℕ → SemCall
  sem_destroy sem_post sem_trywait : ℕ → SemCall

-- The C library and the other threads: what is not in this repository.
-- A thread is the word that `pthread_self` returns.
pub record Host : Type 1 where
  pub World : Type 0
  -- the state in which `registry_lock` has been taken: the other threads ran first
  pub enter : State World → State World
  -- `calloc` of one bridge object
  pub calloc : State World → Option ℕ × World
  pub call : ℕ → Call → World → ℕ × World
  pub query : Query → World → ℕ × ℕ
  pub block : ℕ → Block → State World → ℕ × State World
  -- `none` is the result 0, and `some e` the result -1 with `errno` e
  pub sem_call : ℕ → SemCall → World → Option ℕ × World
  pub sem_block : ℕ → ℕ → State World → Option ℕ × State World
  pub sem_getvalue : ℕ → World → Option ℕ × ℕ
  -- the mutex types of the host's header
  pub normal : ℕ
  pub recursive : ℕ
  pub errorcheck : ℕ
  pub default_type : ℕ
  -- `PTHREAD_CREATE_DETACHED` and `PTHREAD_CREATE_JOINABLE`
  pub detached : ℕ
  pub joinable : ℕ

module _ {W : Type 0} where
  -- A store of a field through a pointer to a bridge object.
  unfoldable pub modify_object : ℕ → (Object → Object) → State W → State W
  modify_object a f s = record s { heap = update s.heap a (Option.map f (s.heap a)) }

-- A call of the host that does not wait: it changes nothing but the host's world.
unfoldable pub host_call : (h : Host) → ℕ → Call → State h.World → ℕ × State h.World
host_call h self c s = let (e, w) = h.call self c s.world in (e, record s { world = w })

-- `if (!object) return error;` behind a lookup, and else the code that follows.
module _ {W B : Type 0} where
  unfoldable pub or_fail : Result ℕ × State W → (ℕ → B) → (ℕ → State W → B × State W) → B × State W
  or_fail (err e, s) fail k = (fail e, s)
  or_fail (ok a, s) fail k = k a s

-- The error number itself is the result of most functions.
abbrev pub status_of : ℕ → ℕ
status_of e = e
