-- ===== src/Pthread/Create.antt =====
-- How bridge objects come and go: `object_allocate_locked`, the pattern of allocation, host
-- initialisation and publication that seven functions of pthread_bridge.c share, and the lazy
-- `mutex_get_or_create`, `cond_get_or_create` and `sem_get_or_create`.
use tasm2_nextos.Prelude.{
  ℕ, ◌/◌, ◌%◌, ◌^◌, ◌==◌, ltb, true, not, ◌||◌, none, some, if◌then◌else◌, update,
}
use tasm2_nextos.Pthread.State.{
  enomem, einval, eoverflow, ebusy, u32_max, bridge_magic, Kind, mutex, cond, sem, Object, State,
  Host, Result, ok, err, mutexattr_init, mutexattr_settype, mutexattr_destroy, mutex_init,
  cond_init, sem_init, Call, modify_object, host_call,
}
use tasm2_nextos.Pthread.Registry.{
  registry_find, object_publish, object_retire, object_already_active,
}

-- What `calloc` and the assignments of `object_allocate_locked` leave in the object at `a`.
abbrev pub fresh_object : ℕ → ℕ → Kind → Object
fresh_object a owner k = record {
  magic = bridge_magic;
  kind = k;
  active = true;
  owner = owner;
  raw_handle = a;
  guest_mutex_type = 0;
  mutex_owner = 0;
  mutex_depth = 0;
}

module _ (h : Host) where
  open h use {World}

  -- `object_allocate_locked`
  unfoldable pub object_allocate : ℕ → Kind → State World → Result ℕ × State World
  object_allocate owner k s =
      let (p, w) = h.calloc s in
      let s1 : State World = record s { world = w } in
      elim p [
        | none ↦ (err enomem, s1)
        | some a ↦
            if a == 0 || ltb u32_max a
            then (err eoverflow, s1)
            else (ok a, record s1 { heap = update s1.heap a (some (fresh_object a owner k)) })
      ]

  -- A host initialisation: the address of the object, and the host's world.
  abbrev pub Init : Type 0
  Init = ℕ → World → ℕ × World

  -- Publish the object at `a` if its host object was initialised, and `free` it otherwise.
  unfoldable pub publish_or_free : Init → ℕ → ℕ → State World → Result ℕ × State World
  publish_or_free init guest_type a s =
      let (e, w) = init a s.world in
      let s1 : State World = record s { world = w } in
      if e == 0
      then (
        ok a,
        object_publish a (modify_object a (λ o. record o { guest_mutex_type = guest_type }) s1),
      )
      else (err e, record s1 { heap = update s1.heap a none })

  -- `object_allocate_locked`, the host's initialisation, then `object_publish_locked` or `free`.
  -- `guest_type` is what the caller stores in `guest_mutex_type`, and 0 where it stores nothing.
  unfoldable pub create : Kind → ℕ → Init → ℕ → State World → Result ℕ × State World
  create k owner init guest_type s =
      let (r, s1) = object_allocate owner k s in
      elim r [ err e ↦ (err e, s1) | ok a ↦ publish_or_free init guest_type a s1 ]

  -- The error number of a C function that returns 0 if it succeeds.
  abbrev pub status : Result ℕ → ℕ
  status (ok a) = 0
  status (err e) = e

  -- The common text of the `init` functions: EBUSY if the slot has a live object, else `create`.
  unfoldable pub init_object : Kind → ℕ → Init → ℕ → State World → ℕ × State World
  init_object k guest init guest_type s0 =
      let s = h.enter s0 in
      if object_already_active s guest k
      then (ebusy, s)
      else let (r, s1) = create k guest init guest_type s in (status r, s1)

  -- `create` from the value that the static initialiser decodes to, if it does.
  unfoldable pub create_decoded :
      Kind → (ℕ → Init) → (ℕ → ℕ) → ℕ → State World → Result ℕ → Result ℕ × State World
  create_decoded k init guest_type guest s (err e) = (err e, s)
  create_decoded k init guest_type guest s (ok v) = create k guest (init v) (guest_type v) s

  -- The common text of the lazy `get_or_create` functions: a lookup without the lock, a second one
  -- with it, and then an object made from the static initialiser that the guest's word holds.
  unfoldable pub get_or_create :
      Kind → (ℕ → Result ℕ) → (ℕ → Init) → (ℕ → ℕ) → ℕ → State World → Result ℕ × State World
  get_or_create k decode init guest_type guest s0 =
      if guest == 0 then (err einval, s0) else elim (registry_find s0 (s0.slots guest) guest k) [
        | some a ↦ (ok a, s0)
        | none ↦
            let s = h.enter s0 in
            elim (registry_find s (s.slots guest) guest k) [
              | some a ↦ (ok a, s)
              | none ↦ create_decoded k init guest_type guest s (decode (s.slots guest))
            ]
      ]

  -- `guest_mutex_type_to_host`
  unfoldable pub guest_mutex_type_to_host : ℕ → Result ℕ
  guest_mutex_type_to_host t =
      if t == 0
      then ok h.normal
      else if t == 1
      then ok h.recursive
      else if t == 2
      then ok h.errorcheck
      else err einval

  -- `host_mutex_type_to_guest`
  unfoldable pub host_mutex_type_to_guest : ℕ → Result ℕ
  host_mutex_type_to_guest t =
      if t == h.recursive
      then ok 1
      else if t == h.errorcheck
      then ok 2
      else if t == h.normal || t == h.default_type
      then ok 0
      else err einval

  -- The attribute object on the stack of `mutex_host_init`, at no object's address.
  abbrev local_attr : ℕ
  local_attr = 0

  -- `mutex_host_init` once the attribute object is there: set the type, make the mutex, and
  -- destroy the attribute object whatever came of that.
  unfoldable typed_mutex_init : ℕ → ℕ → Init
  typed_mutex_init self host_type a w =
      let (r1, w1) = h.call self (mutexattr_settype local_attr host_type) w in
      let (r2, w2) = if r1 == 0 then h.call self (mutex_init a local_attr) w1 else (r1, w1) in
      let (r3, w3) = h.call self (mutexattr_destroy local_attr) w2 in (r2, w3)

  -- `mutex_host_init`, but for the store of `guest_mutex_type`, which `create` makes.
  unfoldable pub mutex_host_init : ℕ → ℕ → Init
  unfolding guest_mutex_type_to_host typed_mutex_init
  mutex_host_init self guest_type a w = elim (guest_mutex_type_to_host guest_type) [
    | err e ↦ (e, w)
    | ok host_type ↦
        let (r, w1) = h.call self (mutexattr_init local_attr) w in
        if r == 0 then typed_mutex_init self host_type a w1 else (r, w1)
  ]

  -- `cond_host_init`
  unfoldable pub cond_host_init : ℕ → Init
  cond_host_init self a w = h.call self (cond_init a) w

  -- `sem_host_init`
  unfoldable pub sem_host_init : ℕ → ℕ → Init
  sem_host_init self value a w =
      let (r, w1) = h.sem_call self (sem_init a value) w in
      elim r [ none ↦ (0, w1) | some e ↦ (if e == 0 then einval else e, w1) ]

  -- `pthread_…_destroy` of the host object, and `object_retire_locked` if that succeeded.
  unfoldable pub destroy_object : Call → ℕ → ℕ → State World → ℕ × State World
  destroy_object c self a s =
      let (e, s1) = host_call h self c s in if e == 0 then (0, object_retire a s1) else (e, s1)

-- `static_mutex_type`: the bits outside 0xe000 are the bits below 13 and those from 16 on.
unfoldable pub static_mutex_type : ℕ → Result ℕ
static_mutex_type raw =
    if not (raw % 2 ^ 13 == 0) || not (raw / 2 ^ 16 == 0)
    then err einval
    else let encoded_type = raw / 2 ^ 14 % 4 in
      if ltb 2 encoded_type then err einval else ok encoded_type

-- The word of a static condition variable: only the two lowest bits may be set.
unfoldable pub static_cond : ℕ → Result ℕ
static_cond raw = if not (raw / 2 ^ 2 == 0) then err einval else ok 0

-- The word of a zeroed semaphore is its initial value.
unfoldable pub static_sem : ℕ → Result ℕ
static_sem raw = if ltb 0x7fff raw then err einval else ok raw

module _ (h : Host) where
  open h use {World}

  -- `mutex_get_or_create`
  unfoldable pub mutex_get_or_create : ℕ → ℕ → State World → Result ℕ × State World
  mutex_get_or_create self =
      get_or_create h mutex static_mutex_type (mutex_host_init h self) (λ t. t)

  -- `cond_get_or_create`
  unfoldable pub cond_get_or_create : ℕ → ℕ → State World → Result ℕ × State World
  cond_get_or_create self = get_or_create h cond static_cond (λ v. cond_host_init h self) (λ v. 0)

  -- `sem_get_or_create`
  unfoldable pub sem_get_or_create : ℕ → ℕ → State World → Result ℕ × State World
  sem_get_or_create self = get_or_create h sem static_sem (sem_host_init h self) (λ v. 0)

  -- The common text of `attr_destroy` and `mutexattr_destroy`.
  unfoldable pub destroy_attr : Kind → (ℕ → Call) → ℕ → ℕ → State World → ℕ × State World
  destroy_attr k destroy self guest s0 =
      if guest == 0
      then (einval, s0)
      else let s = h.enter s0 in
        elim (registry_find s (s.slots guest) guest k) [
          | none ↦ (einval, s)
          | some a ↦ destroy_object h (destroy a) self a s
        ]
