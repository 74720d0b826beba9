-- ===== src/Pthread/Attr.antt =====
-- The thread and mutex attributes of the guest: `asm2_pthread_attr_*` and `asm2_pthread_mutexattr_*`.
-- A getter's result is what it writes through its pointer, or the error number.
use tasm2_nextos.Prelude.{ℕ, ◌==◌, if◌then◌else◌}
use tasm2_nextos.Pthread.State.{
  or_fail, status_of, einval, attr, mutex_attr, State, Host, Result, ok, err, attr_init,
  attr_destroy, attr_setdetachstate, attr_setstacksize, mutexattr_init, mutexattr_destroy,
  mutexattr_settype, attr_getdetachstate, attr_getstacksize, mutexattr_gettype, modify_object,
  host_call,
}
use tasm2_nextos.Pthread.Registry.{object_get}
use tasm2_nextos.Pthread.Create.{
  init_object, destroy_attr, guest_mutex_type_to_host, host_mutex_type_to_guest,
}

module _ (h : Host) where
  open h use {World}

  unfoldable pub init : ℕ → ℕ → State World → ℕ × State World
  init self guest s =
      if guest == 0
      then (einval, s)
      else init_object h attr guest (λ a. h.call self (attr_init a)) 0 s

  unfoldable pub destroy : ℕ → ℕ → State World → ℕ × State World
  destroy = destroy_attr h attr attr_destroy

  unfoldable pub getdetachstate : ℕ → ℕ → State World → Result ℕ
  getdetachstate guest out s = if out == 0 then err einval else elim (object_get s guest attr) [
    | err e ↦ err e
    | ok a ↦
        let (e, host_state) = h.query (attr_getdetachstate a) s.world in
        if e == 0 then ok (if host_state == h.detached then 1 else 0) else err e
  ]

  unfoldable pub set_host_detachstate : ℕ → ℕ → ℕ → State World → ℕ × State World
  set_host_detachstate self guest host_state s =
      or_fail (object_get s guest attr, s) status_of
        (λ a s1. host_call h self (attr_setdetachstate a host_state) s1)

  unfoldable pub setdetachstate : ℕ → ℕ → ℕ → State World → ℕ × State World
  setdetachstate self guest detachstate s =
      if detachstate == 0
      then set_host_detachstate self guest h.joinable s
      else if detachstate == 1
      then set_host_detachstate self guest h.detached s
      else (einval, s)

  unfoldable pub getstacksize : ℕ → ℕ → State World → Result ℕ
  getstacksize guest out s = if out == 0 then err einval else elim (object_get s guest attr) [
    | err e ↦ err e
    | ok a ↦
        let (e, size) = h.query (attr_getstacksize a) s.world in if e == 0 then ok size else err e
  ]

  unfoldable pub setstacksize : ℕ → ℕ → ℕ → State World → ℕ × State World
  setstacksize self guest size s =
      or_fail (object_get s guest attr, s) status_of
        (λ a s1. host_call h self (attr_setstacksize a size) s1)

  unfoldable pub init_type : ℕ → ℕ → State World → ℕ × State World
  init_type self guest s =
      if guest == 0
      then (einval, s)
      else init_object h mutex_attr guest (λ a. h.call self (mutexattr_init a)) 0 s

  unfoldable pub destroy_type : ℕ → ℕ → State World → ℕ × State World
  destroy_type = destroy_attr h mutex_attr mutexattr_destroy

  unfoldable pub gettype : ℕ → ℕ → State World → Result ℕ
  gettype guest out s = if out == 0 then err einval else elim (object_get s guest mutex_attr) [
    | err e ↦ err e
    | ok a ↦
        let (e, host_type) = h.query (mutexattr_gettype a) s.world in
        if e == 0 then host_mutex_type_to_guest h host_type else err e
  ]

  -- The store of `guest_mutex_type` if the host took the type.
  unfoldable pub store_type : ℕ → ℕ → ℕ × State World → ℕ × State World
  store_type type a (e, s) =
      (e, if e == 0 then modify_object a (λ o. record o { guest_mutex_type = type }) s else s)

  unfoldable pub settype : ℕ → ℕ → ℕ → State World → ℕ × State World
  settype self guest type s =
      or_fail (guest_mutex_type_to_host h type, s) status_of
        λ host_type s1.
          or_fail (object_get s1 guest mutex_attr, s1) status_of
            λ a s2. store_type type a (host_call h self (mutexattr_settype a host_type) s2)
