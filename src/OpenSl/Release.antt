-- ===== src/OpenSl/Release.antt =====
-- What a player takes of the host, it gives back.
use tasm2_nextos.Prelude.{
  ℕ, ◌+◌, ◌-◌, ◌==◌, ◌≡◌, ◌≢◌, refl, Bool, true, false, not, ◌&&◌, Option, none, some, List,
  if◌then◌else◌, arith, inc64, Bool-cases, inl, inr,
}
use tasm2_nextos.OpenSl.State.{success, Player}
use tasm2_nextos.OpenSl.Play.{worker_start, destroy_player, new_generation}
use tasm2_nextos.OpenSl.Device.{
  Host, Held, Opened, initialize_audio_subsystem, open_unsynchronized, open_unattended, open_silent,
  open_device, open_synchronized, open_player, release_player,
}
use tasm2_nextos.OpenSl.Object.{object_destroy, close_device, is_deferred, worker_exit}

-- A player that holds nothing of the host.
pub record IsClosed (p : Player) : Type 0 where
  pub unready : p.ready ≡ false
  pub unattended : p.worker ≡ false
  pub silent : p.device ≡ 0
  pub unacquired : p.audio_subsystem_acquired ≡ false

-- A player that holds its subsystem, its mutex and its condition, its worker and its device.
pub record IsOpen (p : Player) : Type 0 where
  pub ready : p.ready ≡ true
  pub attended : p.worker ≡ true
  pub sounding : (p.device == 0) ≡ false
  pub acquired : p.audio_subsystem_acquired ≡ true

-- What one open player holds, on top of `s`.
abbrev pub opened : Held → Held
opened s = record s {
  subsystems = s.subsystems + 1;
  mutexes = s.mutexes + 1;
  conditions = s.conditions + 1;
  threads = s.threads + 1;
  devices = s.devices + 1;
}

back : (n : ℕ) → n + 1 - 1 ≡ n
back n = omega arith

-- An outcome of opening a player: all of it or nothing.
pub record Opens (s : Held) (o : Opened) : Type 0 where
  pub complete : o.code ≡ success → IsOpen o.player × (o.held ≡ opened s)
  pub undone : o.code ≢ success → IsClosed o.player × (o.held ≡ s)

Opens-branch :
    (s : Held) (b : Bool) (x y : Opened)
    → (b ≡ true → Opens s x)
    → (b ≡ false → Opens s y)
    → Opens s (if b then x else y)
Opens-branch s true x y f g = f refl
Opens-branch s false x y f g = g refl

-- What one condition made, the same condition undoes.
undo :
    (b : Bool) (n : ℕ) → (if b then (if b then n + 1 else n) - 1 else (if b then n + 1 else n)) ≡ n
undo true n = back n
undo false n = refl

fails : (s : Held) (o : Opened) → o.code ≢ success → IsClosed o.player → o.held ≡ s → Opens s o
fails s o wrong c e = record { complete = λ z. absurd (wrong z); undone = λ z. (c, e) }

module _ (h : Host) (p : Player) (s : Held) (c : IsClosed p) where
  device-Opens :
      (q : Player)
      → q.ready ≡ true
      → q.worker ≡ true
      → q.device ≡ 0
      → q.audio_subsystem_acquired ≡ true
      → Opens s (
          open_device h q (record s {
            subsystems = s.subsystems + 1;
            mutexes = s.mutexes + 1;
            conditions = s.conditions + 1;
            threads = s.threads + 1;
          }))
  unfolding open_device open_silent
  device-Opens q r w d a =
      Opens-branch s (h.opens == 0) _ _
        (λ e.
          fails s _ (λ z. absurd (omega arith))
            (record { unready = refl; unattended = refl; silent = d; unacquired = refl })
            (rw (back s.subsystems, back s.mutexes, back s.conditions, back s.threads) refl))
        (λ e. record {
          complete = λ z. (record { ready = r; attended = w; sounding = e; acquired = a }, refl);
          undone = λ z. absurd (z refl);
        })

  -- With both of its objects made.
  attended-Opens :
      (q : Player)
      → q.ready ≡ true
      → q.worker ≡ true
      → q.device ≡ 0
      → q.audio_subsystem_acquired ≡ true
      → Opens s (
          if not h.makes_thread
          then open_unattended
              (record p { audio_subsystem_acquired = true })
              (record s {
                subsystems = s.subsystems + 1;
                mutexes = s.mutexes + 1;
                conditions = s.conditions + 1;
              })
          else open_device h q (record s {
            subsystems = s.subsystems + 1;
            mutexes = s.mutexes + 1;
            conditions = s.conditions + 1;
            threads = s.threads + 1;
          }))
  unfolding open_unattended
  attended-Opens q r w d a =
      Opens-branch s (not h.makes_thread) _ _
        (λ e.
          fails s _ (λ z. absurd (omega arith))
            (record {
              unready = refl;
              unattended = c.unattended;
              silent = c.silent;
              unacquired = refl;
            })
            (rw (back s.subsystems, back s.mutexes, back s.conditions) refl))
        (λ e. device-Opens q r w d a)

  made-Opens :
      (a b : Bool)
      → not (a && b) ≡ false
      → (q : Player) → q.ready ≡ true
      → q.worker ≡ true
      → q.device ≡ 0
      → q.audio_subsystem_acquired ≡ true
      → Opens s (
          if not h.makes_thread
          then open_unattended
              (record p { audio_subsystem_acquired = true })
              (record s {
                subsystems = s.subsystems + 1;
                mutexes = if a then s.mutexes + 1 else s.mutexes;
                conditions = if b then s.conditions + 1 else s.conditions;
              })
          else open_device h q (record s {
            subsystems = s.subsystems + 1;
            mutexes = if a then s.mutexes + 1 else s.mutexes;
            conditions = if b then s.conditions + 1 else s.conditions;
            threads = s.threads + 1;
          }))
  made-Opens true true e q r w d a = attended-Opens q r w d a
  made-Opens true false e q r w d a = absurd (ground arith)
  made-Opens false b e q r w d a = absurd (ground arith)

  synchronized-Opens : Opens s (
      open_synchronized h
        (record p { audio_subsystem_acquired = true })
        (record s { subsystems = s.subsystems + 1 }))
  unfolding open_synchronized open_unsynchronized worker_start
  synchronized-Opens =
      Opens-branch s (not (h.makes_mutex && h.makes_condition)) _ _
        (λ e.
          fails s _ (λ z. absurd (omega arith))
            (record {
              unready = refl;
              unattended = c.unattended;
              silent = c.silent;
              unacquired = refl;
            })
            (rw
              (back s.subsystems, undo h.makes_mutex s.mutexes, undo h.makes_condition s.conditions)
              refl))
        (λ e.
          made-Opens h.makes_mutex h.makes_condition e
            (worker_start h.worker_id
              (record p { audio_subsystem_acquired = true; ready = true; worker = true }))
            refl refl c.silent refl)

  -- A player that holds nothing takes either everything by an open, its device, worker, mutex,
  -- condition and subsystem, or, whatever fails, nothing: what was taken before is given back.
  pub open_player-Opens : (driver : Option (List ℕ)) → Opens s (open_player h driver p s)
  unfolding open_player
  open_player-Opens driver =
      Opens-branch s (initialize_audio_subsystem h driver).0 _ _ (λ e. synchronized-Opens)
        (λ e. fails s _ (λ z. absurd (omega arith)) c refl)

-- What is held once the player is released, by its worker where that is left to it.
abbrev pub settled : Option Player × Held → Held
settled (none, s) = s
settled (some p, s) = worker_exit p s

module _ (p : Player) (s : Held) (o : IsOpen p) (self : ℕ) where
  destroyed_now :
      is_deferred self p ≡ false
      → settled (object_destroy self p (opened s)) ≡ record s { released = inc64 s.released }
  unfolding object_destroy close_device release_player destroy_player new_generation is_deferred
  destroyed_now e =
      rw
        (
          o.ready,
          e,
          o.sounding,
          o.attended,
          o.acquired,
          back s.subsystems,
          back s.mutexes,
          back s.conditions,
          back s.threads,
          back s.devices,
        )
        refl

  destroyed_later :
      is_deferred self p ≡ true
      → settled (object_destroy self p (opened s)) ≡ record s { released = inc64 s.released }
  unfolding object_destroy close_device release_player destroy_player new_generation is_deferred
      worker_exit
  destroyed_later e =
      rw
        (
          o.ready,
          e,
          o.sounding,
          o.acquired,
          back s.subsystems,
          back s.mutexes,
          back s.conditions,
          back s.threads,
          back s.devices,
        )
        refl

  -- Destroying a player that holds its device, worker, mutex, condition and subsystem gives all of
  -- them back and releases it once, whether another thread destroys it or, by way of its exit, its
  -- own worker in a callback.
  pub settled-object_destroy :
      settled (object_destroy self p (opened s)) ≡ record s { released = inc64 s.released }
  settled-object_destroy = elim (Bool-cases (is_deferred self p)) [
    | inl e ↦ destroyed_later e
    | inr e ↦ destroyed_now e
  ]
