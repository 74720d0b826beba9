-- ===== src/Pthread/Mutex.antt =====
-- The guest's mutexes: `asm2_pthread_mutex_*` and the owner that the bridge tracks for each.
use tasm2_nextos.Prelude.{
  ℕ, ◌+◌, ◌-◌, ◌%◌, ◌^◌, ◌==◌, ltb, Bool, false, not, ◌&&◌, ◌||◌, Option, none, some, if◌then◌else◌,
}
use tasm2_nextos.Prelude.Int.{ℤ, pos, sub_ℕ}
use tasm2_nextos.Pthread.State.{
  or_fail, status_of, eperm, einval, u32_max, mutex, mutex_attr, Object, State, Host, Result, ok,
  err, mutex_destroy, mutex_trylock, mutex_unlock, mutex_lock, modify_object, host_call,
}
use tasm2_nextos.Pthread.Registry.{object_get}
use tasm2_nextos.Pthread.Create.{init_object, destroy_object, mutex_host_init, mutex_get_or_create}

-- `mutex_current_owner`: the thread's word, and UINTPTR_MAX for the word 0.
unfoldable pub current_owner : ℕ → ℕ
current_owner self = if self == 0 then u32_max else self

-- The fields that `mutex_record_acquired` leaves.
unfoldable pub acquired : ℕ → Object → Object
unfolding current_owner
acquired self o =
    if o.mutex_owner == current_owner self
    then record o { mutex_depth = (o.mutex_depth + 1) % 2 ^ 32 }
    else record o { mutex_owner = current_owner self; mutex_depth = 1 }

-- The test of `mutex_record_releasing`.
unfoldable pub may_release : ℕ → Object → Bool
unfolding current_owner
may_release self o = o.mutex_owner == current_owner self && not (o.mutex_depth == 0)

-- The fields that it leaves if the test passes.
unfoldable pub released : Object → Object
released o =
    if ltb 1 o.mutex_depth
    then record o { mutex_depth = o.mutex_depth - 1 }
    else record o { mutex_owner = 0; mutex_depth = 0 }

-- The fields that `mutex_record_restore` leaves.
unfoldable pub restored : ℕ → ℕ → Object → Object
unfolding current_owner
restored self depth o = record o { mutex_owner = current_owner self; mutex_depth = depth }

module _ {W : Type 0} where
  -- `mutex_record_acquired`
  unfoldable pub record_acquired : ℕ → ℕ → State W → State W
  record_acquired self a s = modify_object a (acquired self) s

  -- `mutex_record_releasing` of what the pointer `a` points to, with the previous depth. A pointer
  -- to no object, which a lookup never returns, is refused.
  unfoldable pub releasing : ℕ → ℕ → State W → Option Object → Result ℕ × State W
  releasing self a s none = (err eperm, s)
  releasing self a s (some o) =
      if may_release self o then (ok o.mutex_depth, modify_object a released s) else (err eperm, s)

  unfoldable pub record_releasing : ℕ → ℕ → State W → Result ℕ × State W
  record_releasing self a s = releasing self a s (s.heap a)

  -- `mutex_record_restore`
  unfoldable pub record_restore : ℕ → ℕ → ℕ → State W → State W
  record_restore self a depth s = modify_object a (restored self depth) s

-- The test of `asm2_pthread_mutex_handoff_begin`: tracked owner at depth one.
unfoldable pub owned_once : ℕ → Option Object → Bool
unfolding current_owner
owned_once self none = false
owned_once self (some o) = o.mutex_owner == current_owner self && o.mutex_depth == 1

-- `struct asm2_pthread_mutex_handoff`
pub record Handoff : Type 0 where
  pub bridge_object : ℕ
  pub active : ℕ

module _ (h : Host) where
  open h use {World}

  unfoldable pub init_typed : ℕ → ℕ → ℕ → State World → ℕ × State World
  init_typed self guest guest_type s =
      init_object h mutex guest (mutex_host_init h self guest_type) guest_type s

  -- The type that the attribute object at `attr` asks for.
  unfoldable pub attr_type : State World → ℕ → ℕ
  attr_type s attr = elim (s.heap attr) [ none ↦ 0 | some o ↦ o.guest_mutex_type ]

  unfoldable pub init : ℕ → ℕ → ℕ → State World → ℕ × State World
  init self guest guest_attr s =
      if guest == 0
      then (einval, s)
      else if guest_attr == 0
      then init_typed self guest 0 s
      else or_fail (object_get s guest_attr mutex_attr, s) status_of
          (λ attr s1. init_typed self guest (attr_type s1 attr) s1)

  unfoldable pub destroy : ℕ → ℕ → State World → ℕ × State World
  destroy self guest s =
      or_fail (mutex_get_or_create h self guest s) status_of
        (λ a s1. destroy_object h (mutex_destroy a) self a (h.enter s1))

  -- The record after the host's lock function returned `r`.
  unfoldable pub note_acquired : ℕ → ℕ → ℕ × State World → ℕ × State World
  note_acquired self a (e, s) = (e, if e == 0 then record_acquired self a s else s)

  unfoldable pub lock : ℕ → ℕ → State World → ℕ × State World
  lock self guest s =
      or_fail (mutex_get_or_create h self guest s) status_of
        (λ a s1. note_acquired self a (h.block self (mutex_lock a) s1))

  unfoldable pub trylock : ℕ → ℕ → State World → ℕ × State World
  trylock self guest s =
      or_fail (mutex_get_or_create h self guest s) status_of
        (λ a s1. note_acquired self a (host_call h self (mutex_trylock a) s1))

  -- `mutex_record_restore` if the host's unlock failed.
  unfoldable pub settle_unlock : ℕ → ℕ → ℕ → ℕ × State World → ℕ × State World
  settle_unlock self a depth (e, s) = (e, if e == 0 then s else record_restore self a depth s)

  -- `mutex_record_releasing`, then the host's unlock.
  unfoldable pub release_host : ℕ → ℕ → State World → ℕ × State World
  release_host self a s =
      or_fail (record_releasing self a s) status_of
        (λ depth s1. settle_unlock self a depth (host_call h self (mutex_unlock a) s1))

  unfoldable pub unlock : ℕ → ℕ → State World → ℕ × State World
  unlock self guest s =
      or_fail (mutex_get_or_create h self guest s) status_of (λ a s1. release_host self a s1)

  -- 1 handed off, 0 not the owner at depth one, or a negative error number. The structure is
  -- `none` for a NULL pointer.
  unfoldable pub handoff_result : ℕ → ℕ × State World → (ℤ × Option Handoff) × State World
  handoff_result a (e, s) =
      if e == 0
      then (
        (pos 1, some (record { bridge_object = a; active = 1 })),
        record s { mutex_handoff_count = (s.mutex_handoff_count + 1) % 2 ^ 64 },
      )
      else ((sub_ℕ 0 e, some (record { bridge_object = 0; active = 0 })), s)

  unfoldable pub handoff_object : ℕ → ℕ → State World → (ℤ × Option Handoff) × State World
  handoff_object self a s =
      if not (owned_once self (s.heap a))
      then ((pos 0, some (record { bridge_object = 0; active = 0 })), s)
      else handoff_result a (release_host self a s)

  unfoldable pub handoff_begin :
      ℕ → ℕ → Option Handoff → State World → (ℤ × Option Handoff) × State World
  handoff_begin self guest none s = ((sub_ℕ 0 einval, none), s)
  handoff_begin self guest (some _) s =
      or_fail (mutex_get_or_create h self guest s)
        (λ e. (sub_ℕ 0 e, some (record { bridge_object = 0; active = 0 })))
        (λ a s1. handoff_object self a s1)

  unfoldable pub relocked : ℕ → Handoff → ℕ × State World → (ℕ × Option Handoff) × State World
  relocked self handoff (e, s) =
      if e == 0
      then (
        (0, some (record { bridge_object = 0; active = 0 })),
        record_acquired self handoff.bridge_object s,
      )
      else ((e, some handoff), s)

  unfoldable pub handoff_end : ℕ → Option Handoff → State World → (ℕ × Option Handoff) × State World
  handoff_end self none s = ((einval, none), s)
  handoff_end self (some handoff) s =
      if handoff.active == 0 || handoff.bridge_object == 0
      then ((einval, some handoff), s)
      else relocked self handoff (h.block self (mutex_lock handoff.bridge_object) s)
