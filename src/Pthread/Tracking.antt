-- ===== src/Pthread/Tracking.antt =====
-- The owner and depth that the bridge tracks for a mutex: `mutex_record_acquired`,
-- `mutex_record_releasing`, `mutex_record_restore`, and the functions made of them.
use mathlib.Core.Option
use tasm2_nextos.Prelude.{
  ℕ, zero, suc, ◌-◌, ◌^◌, ◌<◌, ◌==◌, ◌≡◌, ◌≢◌, refl, true, some, arith, ◌&&◌, ==_iff, if◌then◌else◌,
  update_self, update_ne, inl, inr, Bool-cases, ◌∙◌, ap, sym, subst, Bool, false,
}
use tasm2_nextos.Pthread.State.{
  Object, State, Host, Result, ok, err, eperm, modify_object, or_fail, status_of, host_call,
  mutex_unlock,
}
use tasm2_nextos.Pthread.Mutex.{
  current_owner, acquired, released, restored, may_release, releasing, record_releasing,
  record_restore, settle_unlock, release_host,
}

-- `n` locks in a row by the thread `self`, and `n` unlocks.
unfoldable pub acquired_times : ℕ → ℕ → Object → Object
acquired_times zero self o = o
acquired_times (suc n) self o = acquired self (acquired_times n self o)

unfoldable pub released_times : ℕ → Object → Object
released_times zero o = o
released_times (suc n) o = released_times n (released o)

-- No thread is tracked as the owner.
abbrev pub IsFree : Object → Type 0
IsFree o = (o.mutex_owner ≡ 0) × (o.mutex_depth ≡ 0)

pub current_owner-ne-zero : (self : ℕ) → current_owner self ≢ 0
unfolding current_owner
current_owner-ne-zero self = ground arith

module _ (self : ℕ) (o : Object) (free : IsFree o) where
  acquired_fields :
      (n : ℕ)
      → n < 2 ^ 32 - 1
      → acquired_times (suc n) self o
        ≡ record o { mutex_owner = current_owner self; mutex_depth = suc n }
  unfolding acquired_times acquired
  acquired_fields zero h = ground (arith, current_owner-ne-zero self)
  acquired_fields (suc n) h = rw (acquired_fields n (omega arith)) (ground arith)

  released_step :
      (n : ℕ)
      → released (record o { mutex_owner = current_owner self; mutex_depth = suc (suc n) })
        ≡ record o { mutex_owner = current_owner self; mutex_depth = suc n }
  unfolding released
  released_step n = ground arith

  released_held :
      (n : ℕ)
      → released_times (suc n) (record o { mutex_owner = current_owner self; mutex_depth = suc n })
        ≡ o
  unfolding released_times
  released_held zero = unfold released in ground arith
  released_held (suc n) = rw (released_step n) (released_held n)

  -- As many unlocks as locks, fewer than 2 ^ 32, leave the record of a mutex that was free as it was.
  pub released_times-acquired_times :
      (n : ℕ) → n < 2 ^ 32 → released_times n (acquired_times n self o) ≡ o
  unfolding released_times acquired_times
  released_times-acquired_times zero h = refl
  released_times-acquired_times (suc n) h = rw (acquired_fields n (omega arith)) (released_held n)

modify_object_self :
    {W : Type 0} (a : ℕ) (f : Object → Object) (s : State W) (o : Object)
    → s.heap a ≡ some o
    → (modify_object a f s).heap a ≡ some (f o)
unfolding modify_object
modify_object_self a f s o e = update_self s.heap a (Option.map f (s.heap a)) ∙ ap (Option.map f) e

-- What `mutex_record_restore` puts back is what `mutex_record_releasing` took away.
restored-released :
    (self : ℕ) (o : Object)
    → may_release self o ≡ true
    → restored self o.mutex_depth (released o) ≡ o
unfolding restored released may_release
restored-released self o e = ground arith

-- The thread is the tracked owner.
abbrev pub Owns : ℕ → Object → Type 0
Owns self o = (o.mutex_owner ≡ current_owner self) × (o.mutex_depth ≢ 0)

-- The state differs from an earlier one at most by the object at `a`, and by the host after its unlock.
pub record IsFrame (h : Host) (self a : ℕ) (s t : State h.World) : Type 0 where
  pub rest : t ≡ record s { heap = t.heap; world = (h.call self (mutex_unlock a) s.world).1 }
  pub others : (c : ℕ) → c ≢ a → t.heap c ≡ s.heap c

-- The ends of an unlock of the object `o` at `a`: the result and the state.
pub data Unlocks (h : Host) (self a : ℕ) (s : State h.World) (o : Object) (r : ℕ × State h.World)
    : Type 0 where
  refused_to : ¬ (Owns self o) → r ≡ (eperm, s) → Unlocks h self a s o r
  unlocks :
      Owns self o
      → (h.call self (mutex_unlock a) s.world).0 ≡ 0
      → r.0 ≡ 0
      → r.1.heap a ≡ some (released o)
      → IsFrame h self a s r.1
      → Unlocks h self a s o r
  fails :
      Owns self o
      → (h.call self (mutex_unlock a) s.world).0 ≢ 0
      → r.0 ≡ (h.call self (mutex_unlock a) s.world).0
      → r.1.heap a ≡ some o
      → IsFrame h self a s r.1
      → Unlocks h self a s o r

module _ (h : Host) (self a : ℕ) (s : State h.World) (o : Object) (stored : s.heap a ≡ some o) where
  abbrev by_host : ℕ × State h.World
  by_host = host_call h self (mutex_unlock a) (modify_object a released s)

  release_host_refused : may_release self o ≡ false → release_host h self a s ≡ (eperm, s)
  unfolding release_host record_releasing releasing or_fail
  release_host_refused refused = ap (continue_from) (ap (releasing self a s) stored ∙ branch)
    where
      continue_from : Result ℕ × State h.World → ℕ × State h.World
      continue_from r =
          or_fail r status_of
            (λ depth s1. settle_unlock h self a depth (host_call h self (mutex_unlock a) s1))

      branch : releasing self a s (some o) ≡ (err eperm, s)
      branch = rw refused

  release_host_allowed :
      may_release self o ≡ true
      → release_host h self a s ≡ settle_unlock h self a o.mutex_depth by_host
  unfolding release_host record_releasing releasing or_fail
  release_host_allowed allowed = ap (continue_from) (ap (releasing self a s) stored ∙ branch)
    where
      continue_from : Result ℕ × State h.World → ℕ × State h.World
      continue_from r =
          or_fail r status_of
            (λ depth s1. settle_unlock h self a depth (host_call h self (mutex_unlock a) s1))

      branch : releasing self a s (some o) ≡ (ok o.mutex_depth, modify_object a released s)
      branch = rw allowed

  unlocked_heap : by_host.1.heap a ≡ some (released o)
  unfolding host_call
  unlocked_heap = modify_object_self a released s o stored

  failed_heap :
      may_release self o ≡ true
      → by_host.0 ≢ 0
      → (settle_unlock h self a o.mutex_depth by_host).1.heap a ≡ some o
  unfolding settle_unlock record_restore
  failed_heap allowed failed = rw zero_test (
      modify_object_self a (restored self o.mutex_depth) by_host.1 (released o) unlocked_heap
      ∙ ap some (restored-released self o allowed))
    where
      zero_test : (by_host.0 == 0) ≡ false
      zero_test = ground arith

  done_heap :
      by_host.0 ≡ 0 → (settle_unlock h self a o.mutex_depth by_host).1.heap a ≡ some (released o)
  unfolding settle_unlock
  done_heap done = rw zero_test unlocked_heap
    where
      zero_test : (by_host.0 == 0) ≡ true
      zero_test = ground arith

  abbrev host_result : ℕ
  host_result = (h.call self (mutex_unlock a) s.world).0

  allowed_world :
      (settle_unlock h self a o.mutex_depth by_host).1.world
      ≡ (h.call self (mutex_unlock a) s.world).1
  unfolding settle_unlock host_call modify_object record_restore
  allowed_world = ground arith

  allowed_heap :
      may_release self o ≡ true
      → (settle_unlock h self a o.mutex_depth by_host).1.heap a
        ≡ some (if by_host.0 == 0 then released o else o)
  allowed_heap allowed = elim (Bool-cases (by_host.0 == 0)) [
    | inl e ↦ rw e (done_heap ((==_iff by_host.0 0).0 e))
    | inr e ↦ rw e (failed_heap allowed (ground arith))
  ]

  -- The result, the object and the host after an unlock.
  pub release_host_parts :
      ((release_host h self a s).0 ≡ (if may_release self o then host_result else eperm))
      × ((release_host h self a s).1.heap a
          ≡ some (if may_release self o && host_result == 0 then released o else o))
      × ((release_host h self a s).1.world
          ≡ (if may_release self o then (h.call self (mutex_unlock a) s.world).1 else s.world))
  unfolding settle_unlock host_call modify_object
  release_host_parts = elim (Bool-cases (may_release self o)) [
    | inl allowed ↦
        rw (allowed, release_host_allowed allowed) (refl, allowed_heap allowed, allowed_world)
    | inr refused ↦ rw (refused, release_host_refused refused) (refl, stored, refl)
  ]

  allowed-Owns : may_release self o ≡ true → Owns self o
  unfolding may_release
  allowed-Owns e = (ground arith, ground arith)

  may_release-refuses : may_release self o ≡ false → ¬ (Owns self o)
  unfolding may_release
  may_release-refuses e v = ground (arith, v.0, v.1)

  by_host-IsFrame : IsFrame h self a s by_host.1
  unfolding modify_object host_call
  by_host-IsFrame = record {
    rest = refl;
    others = λ c n. update_ne s.heap a (Option.map released (s.heap a)) c n;
  }

  restored-IsFrame : (depth : ℕ) → IsFrame h self a s (record_restore self a depth by_host.1)
  unfolding modify_object host_call record_restore
  restored-IsFrame depth = record {
    rest = refl;
    others = λ c n.
        update_ne by_host.1.heap a (Option.map (restored self depth) (by_host.1.heap a)) c n
        ∙ update_ne s.heap a (Option.map released (s.heap a)) c n;
  }

  settle_unlock-IsFrame : IsFrame h self a s (settle_unlock h self a o.mutex_depth by_host).1
  unfolding settle_unlock
  settle_unlock-IsFrame = choose (by_host.0 == 0)
    where
      choose :
          (b : Bool)
          → IsFrame h self a s
              (if b then by_host.1 else record_restore self a o.mutex_depth by_host.1)
      choose true = by_host-IsFrame
      choose false = restored-IsFrame o.mutex_depth

  release_host-IsFrame : may_release self o ≡ true → IsFrame h self a s (release_host h self a s).1
  release_host-IsFrame e =
      subst (λ r. IsFrame h self a s r.1) (sym (release_host_allowed e)) settle_unlock-IsFrame

  object_left :
      (b : Bool)
      → may_release self o ≡ true
      → (host_result == 0) ≡ b
      → (release_host h self a s).1.heap a ≡ some (if b then released o else o)
  object_left b e z =
      release_host_parts.1
      ∙ ap (λ c. some (if c && host_result == 0 then released o else o)) e
      ∙ ap (λ c. some (if c then released o else o)) z

  allowed-Unlocks :
      may_release self o ≡ true
      → (b : Bool) → (host_result == 0) ≡ b
      → Unlocks h self a s o (release_host h self a s)
  allowed-Unlocks e true z =
      let p = release_host_parts in
      let host_zero : host_result ≡ 0 = (==_iff host_result 0).0 z in
      unlocks (allowed-Owns e) host_zero
        (p.0 ∙ ap (λ b. if b then host_result else eperm) e ∙ host_zero) (object_left true e z)
        (release_host-IsFrame e)
  allowed-Unlocks e false z =
      let p = release_host_parts in
      fails (allowed-Owns e) (ground arith) (p.0 ∙ ap (λ b. if b then host_result else eperm) e)
        (object_left false e z) (release_host-IsFrame e)

  -- `mutex_record_releasing` and the host's unlock of the object: a thread that is not the tracked
  -- owner gets EPERM and nothing changes, in the bridge or in the host. The owner gets the host's
  -- result: one level of the lock is released if that is 0, and the object is as it was if it is an
  -- error; all else in the bridge is as it was.
  pub release_host_lem : Unlocks h self a s o (release_host h self a s)
  release_host_lem = elim (Bool-cases (may_release self o)) [
    | inl e ↦ allowed-Unlocks e (host_result == 0) refl
    | inr e ↦ refused_to (may_release-refuses e) (release_host_refused e)
  ]
