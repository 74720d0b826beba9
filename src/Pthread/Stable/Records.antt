-- ===== src/Pthread/Stable/Records.antt =====
-- The record of owner and depth, and the common pattern of a lookup and what follows it.
use tasm2_nextos.Prelude.{ℕ, refl, Option, none, some, arith}
use tasm2_nextos.Pthread.State.{Object, State, Host, Result, ok, err, or_fail}
use tasm2_nextos.Pthread.Mutex.{
  acquired, released, restored, releasing, record_acquired, record_releasing, record_restore,
}
use tasm2_nextos.Pthread.Stable.Core.{Keeps, Rely, Stable}

acquired-Keeps : (self : ℕ) → Keeps (acquired self)
unfolding acquired
acquired-Keeps self = record {
  handle = λ o. ground arith;
  magic = λ o. ground arith;
  active = λ o. ground arith;
  owner = λ o. ground arith;
  kind = λ o. ground arith;
}

released-Keeps : Keeps released
unfolding released
released-Keeps = record {
  handle = λ o. ground arith;
  magic = λ o. ground arith;
  active = λ o. ground arith;
  owner = λ o. ground arith;
  kind = λ o. ground arith;
}

pub type-Keeps : (t : ℕ) → Keeps (λ o. record o { guest_mutex_type = t })
type-Keeps t = record {
  handle = λ o. refl;
  magic = λ o. refl;
  active = λ o. refl;
  owner = λ o. refl;
  kind = λ o. refl;
}

restored-Keeps : (self depth : ℕ) → Keeps (restored self depth)
unfolding restored
restored-Keeps self depth = record {
  handle = λ o. refl;
  magic = λ o. refl;
  active = λ o. refl;
  owner = λ o. refl;
  kind = λ o. refl;
}

module _ (h : Host) (P : State h.World → Type 0) (rely : Rely h P) (stable : Stable h P) where
  open h use {World}

  pub record_acquired-Stable : (self a : ℕ) (s : State World) → P s → P (record_acquired self a s)
  unfolding record_acquired
  record_acquired-Stable self a s p = stable.modify s a (acquired self) (acquired-Keeps self) p

  pub record_restore-Stable :
      (self a depth : ℕ) (s : State World) → P s → P (record_restore self a depth s)
  unfolding record_restore
  record_restore-Stable self a depth s p =
      stable.modify s a (restored self depth) (restored-Keeps self depth) p

  releasing-Stable :
      (self a : ℕ) (s : State World) (x : Option Object) → P s → P (releasing self a s x).1
  unfolding releasing
  releasing-Stable self a s none p = p
  releasing-Stable self a s (some o) p = ground (arith, stable.modify s a released released-Keeps p)

  pub record_releasing-Stable :
      (self a : ℕ) (s : State World) → P s → P (record_releasing self a s).1
  unfolding record_releasing
  record_releasing-Stable self a s p = releasing-Stable self a s (s.heap a) p

  -- The pattern of most entry points: a lookup, and a function of the object that it found.
  pub or_fail-Stable :
      {B : Type 0} (r : Result ℕ × State World) (fail : ℕ → B)
      (k : ℕ → State World → B × State World)
      → P r.1
      → ((a : ℕ) (s : State World) → P s → P (k a s).1)
      → P (or_fail r fail k).1
  unfolding or_fail
  or_fail-Stable (err e, s) fail k p keep = p
  or_fail-Stable (ok a, s) fail k p keep = keep a s p
