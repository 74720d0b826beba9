-- ===== src/Pthread/Threads.antt =====
-- Thread ids and the calls that take one: `asm2_pthread_create` to `asm2_pthread_self`.
-- A `pthread_t` is the list of its bytes, lowest address first, and the guest's word its own four.
use tasm2_nextos.Prelude.{
  ℕ, ◌==◌, ltb, ◌-◌, ◌%◌, ◌^◌, ◌||◌, Option, none, some, List, [], ◌∷◌, ◌++◌, take, drop, length,
  replicate, if◌then◌else◌,
}
use tasm2_nextos.Pthread.State.{attr, einval, eoverflow, State, Result, ok, err}
use tasm2_nextos.Pthread.Registry.{object_get}

-- The host's thread functions. A value is what the function writes through its pointer.
pub record ThreadHost (W : Type 0) : Type 0 where
  -- `sizeof(pthread_t)`
  pub size : ℕ
  -- the attribute object or NULL, the routine and its argument
  pub create_thread : ℕ → ℕ → ℕ → State W → (ℕ × List ℕ) × State W
  pub detach_thread : List ℕ → State W → ℕ × State W
  pub equal_threads : List ℕ → List ℕ → ℕ
  -- the policy and the parameters
  pub get_param : List ℕ → State W → ℕ × (ℕ × ℕ)
  pub set_param : List ℕ → ℕ → ℕ → State W → ℕ × State W
  -- it waits, so the other threads run before it returns
  pub join_thread : List ℕ → State W → (ℕ × ℕ) × State W
  pub create_key : ℕ → State W → (ℕ × ℕ) × State W
  pub self_thread : List ℕ

unfoldable pub guest_thread_to_host : ℕ → List ℕ → Result (List ℕ)
guest_thread_to_host size guest =
    if ltb size 4 then err eoverflow else ok (guest ++ replicate (size - 4) 0)

-- The loop over the bytes that the guest's word has no room for.
unfoldable pub high_bytes_error : List ℕ → ℕ
high_bytes_error [] = 0
high_bytes_error (b ∷ bytes) =
    let rest = high_bytes_error bytes in if b == 0 then rest else eoverflow

-- The error number, and what is written through `guest_thread`.
unfoldable pub host_thread_to_guest : ℕ → List ℕ → ℕ × Option (List ℕ)
host_thread_to_guest out host =
    if (out == 0) || ltb (length host) 4
    then (eoverflow, none)
    else (high_bytes_error (drop 4 host), some (take 4 host))

module _ {W : Type 0} (h : ThreadHost W) where
  -- The text behind a successful `pthread_create`.
  unfoldable pub give_thread :
      List ℕ → ℕ × Option (List ℕ) → State W → (ℕ × Option (List ℕ)) × State W
  give_thread host (e, guest) s =
      if e == 0 then ((0, guest), s) else ((e, guest), (h.detach_thread host s).1)

  unfoldable pub created_thread : ℕ → (ℕ × List ℕ) × State W → (ℕ × Option (List ℕ)) × State W
  created_thread out ((e, host), s) =
      if e == 0 then give_thread host (host_thread_to_guest out host) s else ((e, none), s)

  unfoldable pub create_with : ℕ → ℕ → ℕ → Result ℕ → State W → (ℕ × Option (List ℕ)) × State W
  create_with out start arg (err e) s = ((e, none), s)
  create_with out start arg (ok a) s = created_thread out (h.create_thread a start arg s)

  unfoldable pub create : ℕ → ℕ → ℕ → ℕ → State W → (ℕ × Option (List ℕ)) × State W
  create out guest_attr start arg s =
      if (out == 0) || (start == 0)
      then ((einval, none), s)
      else create_with out start arg
          (if guest_attr == 0 then ok 0 else object_get s guest_attr attr) s

  unfoldable detach_host : Result (List ℕ) → State W → ℕ × State W
  detach_host (err e) s = (e, s)
  detach_host (ok t) s = h.detach_thread t s

  unfoldable detach : List ℕ → State W → ℕ × State W
  detach guest s = detach_host (guest_thread_to_host h.size guest) s

  unfoldable equal_hosts : Result (List ℕ) → Result (List ℕ) → ℕ
  equal_hosts (err e) second = 0
  equal_hosts (ok t) (err e) = 0
  equal_hosts (ok t) (ok u) = h.equal_threads t u

  unfoldable equal : List ℕ → List ℕ → ℕ
  equal first second =
      equal_hosts (guest_thread_to_host h.size first) (guest_thread_to_host h.size second)

  unfoldable get_host_param : Result (List ℕ) → State W → ℕ × (ℕ × ℕ)
  get_host_param (err e) s = (e, (0, 0))
  get_host_param (ok t) s = h.get_param t s

  -- The two values stand for what is written: nothing counts of them on an error.
  unfoldable getschedparam : List ℕ → ℕ → ℕ → State W → ℕ × (ℕ × ℕ)
  getschedparam guest policy param s =
      if (policy == 0) || (param == 0)
      then (einval, (0, 0))
      else get_host_param (guest_thread_to_host h.size guest) s

  unfoldable set_host_param : Result (List ℕ) → ℕ → ℕ → State W → ℕ × State W
  set_host_param (err e) policy param s = (e, s)
  set_host_param (ok t) policy param s = h.set_param t policy param s

  unfoldable setschedparam : List ℕ → ℕ → ℕ → State W → ℕ × State W
  setschedparam guest policy param s =
      if param == 0
      then (einval, s)
      else set_host_param (guest_thread_to_host h.size guest) policy param s

  unfoldable pub join_host : Result (List ℕ) → State W → (ℕ × ℕ) × State W
  join_host (err e) s = ((e, 0), s)
  join_host (ok t) s = h.join_thread t s

  unfoldable pub join : List ℕ → State W → (ℕ × ℕ) × State W
  join guest s = join_host (guest_thread_to_host h.size guest) s

  -- `*guest_key` is written on success only.
  unfoldable written_key : (ℕ × ℕ) × State W → (ℕ × Option ℕ) × State W
  written_key ((e, key), s) = ((e, (if e == 0 then some (key % 2 ^ 32) else none)), s)

  unfoldable key_create : ℕ → ℕ → State W → (ℕ × Option ℕ) × State W
  key_create out destructor s =
      if out == 0 then ((einval, none), s) else written_key (h.create_key destructor s)

  -- `asm2_pthread_self` drops the error, and returns the low bytes all the same.
  unfoldable self_word : ℕ × Option (List ℕ) → List ℕ
  self_word (e, none) = replicate 4 0
  self_word (e, some guest) = guest

  unfoldable self : List ℕ
  self = self_word (host_thread_to_guest 1 h.self_thread)
