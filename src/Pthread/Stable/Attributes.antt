-- ===== src/Pthread/Stable/Attributes.antt =====
-- The entry points of Attr.antt keep a stable property.
use tasm2_nextos.Prelude.{ℕ, arith}
use tasm2_nextos.Pthread.State.{
  State, Host, Call, mutexattr_settype, attr_setdetachstate, attr_setstacksize, attr, mutex_attr,
}
use tasm2_nextos.Pthread.Attr
use tasm2_nextos.Pthread.Stable.Core.{Rely, Stable, init_object-Stable, host_call-Stable}
use tasm2_nextos.Pthread.Stable.Records.{type-Keeps, or_fail-Stable}

module _ (h : Host) (P : State h.World → Type 0) (rely : Rely h P) (stable : Stable h P) where
  open h use {World}

  pub Attr-init : (self guest : ℕ) (s : State World) → P s → P (Attr.init h self guest s).1
  unfolding Attr.init
  Attr-init self guest s p = ground (
    arith,
    init_object-Stable h P rely stable attr guest (λ a. h.call self (Call.attr_init a)) 0 s p,
  )

  pub Attr-init_type :
      (self guest : ℕ) (s : State World) → P s → P (Attr.init_type h self guest s).1
  unfolding Attr.init_type
  Attr-init_type self guest s p = ground (
    arith,
    init_object-Stable h P rely stable mutex_attr guest (λ a. h.call self (Call.mutexattr_init a)) 0
        s p,
  )

  Attr-store_type : (t a : ℕ) (r : ℕ × State World) → P r.1 → P (Attr.store_type h t a r).1
  unfolding Attr.store_type
  Attr-store_type t a (e, s) p = ground (arith, stable.modify s a _ (type-Keeps t) p)

  pub Attr-settype :
      (self guest t : ℕ) (s : State World) → P s → P (Attr.settype h self guest t s).1
  unfolding Attr.settype
  Attr-settype self guest t s p = or_fail-Stable h P rely stable _ _ _ p λ host_type s1 p1.
      or_fail-Stable h P rely stable _ _ _ p1 λ a s2 p2.
        Attr-store_type t a _
          (host_call-Stable h P rely stable self (mutexattr_settype a host_type) s2 p2)

  pub Attr-setdetachstate :
      (self guest d : ℕ) (s : State World) → P s → P (Attr.setdetachstate h self guest d s).1
  unfolding Attr.setdetachstate Attr.set_host_detachstate
  Attr-setdetachstate self guest d s p = ground (arith, set h.joinable, set h.detached)
    where
      set : (d : ℕ) → P (Attr.set_host_detachstate h self guest d s).1
      set d =
          or_fail-Stable h P rely stable _ _ _ p
            λ a s1 p1. host_call-Stable h P rely stable self (attr_setdetachstate a d) s1 p1

  pub Attr-setstacksize :
      (self guest n : ℕ) (s : State World) → P s → P (Attr.setstacksize h self guest n s).1
  unfolding Attr.setstacksize
  Attr-setstacksize self guest n s p =
      or_fail-Stable h P rely stable _ _ _ p
        λ a s1 p1. host_call-Stable h P rely stable self (attr_setstacksize a n) s1 p1
