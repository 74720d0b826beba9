-- ===== src/OpenSl/Serving.antt =====
-- A callback that the worker runs, across what the other threads do to the player meanwhile.
use tasm2_nextos.Prelude.{
  ℕ, zero, suc, ◌+◌, ◌%◌, ◌^◌, ◌<◌, ◌≤◌, ◌==◌, ltb, ◌≡◌, ◌⊎◌, inl, inr, refl, sym, ap, ◌∙◌, subst,
  Bool, true, false, not, ◌||◌, Option, none, some, List, [], ◌∷◌, if◌then◌else◌, length, All,
  arith, inc32, replicate, sub32,
}
use tasm2_nextos.OpenSl.State.{Buffer, Player, stopped, playing, realized}
use tasm2_nextos.OpenSl.Queue.{
  recycle_buffer, recycle_buffers, clear_queued_buffers, Pull, complete_head, played, pull_head,
  pull, count_underrun, is_playing, sdl_audio_callback, finish_stream,
}
use tasm2_nextos.OpenSl.Enqueue.{
  Reservation, reserved, is_stale, is_refused, refuse, reserve_buffer, commit_buffer,
}
use tasm2_nextos.OpenSl.Play.{
  new_generation, play_set_state, buffer_clear, buffer_register_callback, recovery_ready,
  worker_wait, maybe_report, destroy_player,
}
use tasm2_nextos.OpenSl.Api.{
  Section, reserve, commit, give_back, audio, clear, set_state, register, start, wait, take_due,
  finish, report, destroy, act, after,
}

-- The sections that may come while the worker runs a callback: all but those in which the worker
-- starts, takes a callback and finishes one.
abbrev pub IsMeanwhile : Section → Type 0
IsMeanwhile (start self) = ⊥
IsMeanwhile take_due = ⊥
IsMeanwhile (finish before) = ⊥
IsMeanwhile (reserve self) = Unit
IsMeanwhile (commit self b peak) = Unit
IsMeanwhile (give_back b) = Unit
IsMeanwhile (audio n) = Unit
IsMeanwhile clear = Unit
IsMeanwhile (set_state state) = Unit
IsMeanwhile (register callback context) = Unit
IsMeanwhile wait = Unit
IsMeanwhile (report now) = Unit
IsMeanwhile (destroy self) = Unit

-- What tells whether a callback is stale, with a generation in place of the player's.
abbrev Core : Type 0
Core = ℕ × Bool × ℕ × ℕ × ℕ

abbrev core_at : Player → ℕ → Core
core_at p generation =
    (p.state, p.callback_in_flight, p.callback_thread_id, p.in_flight_generation, generation)

abbrev core : Player → Core
core p = core_at p p.callback_generation

-- Nothing of it changes but the generation, by one at most.
abbrev Keeps : Player → Player → Type 0
Keeps p q = (core q ≡ core p) ⊎ (core q ≡ core_at p (inc32 p.callback_generation))

core-recycle_buffers : (bs : List Buffer) (p : Player) → core (recycle_buffers bs p) ≡ core p
unfolding recycle_buffers recycle_buffer
core-recycle_buffers [] p = refl
core-recycle_buffers (b ∷ bs) p = core-recycle_buffers bs _

core-if :
    (b : Bool) (p x y : Player)
    → core x ≡ core p
    → core y ≡ core p
    → core (if b then x else y) ≡ core p
core-if true p x y e f = e
core-if false p x y e f = f

core-pull_head :
    (b : Buffer) (rest : List Buffer) (s : Pull) → core (pull_head b rest s).player ≡ core s.player
unfolding pull_head played complete_head recycle_buffer
core-pull_head b rest s = core-if _ s.player _ _ refl refl

core-loop :
    (fuel : ℕ) (ih : (t : Pull) → core (pull fuel t).player ≡ core t.player) (s : Pull)
    (q : List Buffer) (z : Bool)
    → core
        (elim q as (λ c. Pull) [
          | [] ↦ s
          | b ∷ rest ↦ elim z as (λ c. Pull) [ true ↦ s | false ↦ pull fuel (pull_head b rest s) ]
        ]).player
      ≡ core s.player
core-loop fuel ih s [] z = refl
core-loop fuel ih s (b ∷ rest) true = refl
core-loop fuel ih s (b ∷ rest) false = ih (pull_head b rest s) ∙ core-pull_head b rest s

core-pull : (fuel : ℕ) (s : Pull) → core (pull fuel s).player ≡ core s.player
unfolding pull
core-pull zero s = refl
core-pull (suc fuel) s = core-loop fuel (core-pull fuel) s s.player.queue (s.remaining == 0)

core-audio : (n : ℕ) (p : Player) → core (sdl_audio_callback n p).0 ≡ core p
unfolding sdl_audio_callback count_underrun
core-audio n p = choose (is_playing p)
  where
    s : Pull
    s = pull (length p.queue + 1) (record { player = p; output = []; remaining = n })

    same : core s.player ≡ core p
    same = core-pull (length p.queue + 1) (record { player = p; output = []; remaining = n })

    choose :
        (b : Bool)
        → core
            (if◌then◌else◌ {A = Player × List ℕ} b
              (count_underrun s, finish_stream s)
              (p, replicate n 0)).0
          ≡ core p
    choose true = core-if (s.remaining == 0) p _ _ same same
    choose false = refl

module _ (p : Player) where
  first-Keeps :
      {A : Type 0} (b : Bool) (x y : A × Player)
      → Keeps p x.1
      → Keeps p y.1
      → Keeps p (if b then x else y).1
  first-Keeps true x y e f = e
  first-Keeps false x y e f = f

  reserve-Keeps : (self : ℕ) → Keeps p (reserve_buffer self p).1
  unfolding reserve_buffer refuse
  reserve-Keeps self = first-Keeps (is_refused self p) _ _ (inl refl) (taken p.free_buffers)
    where
      taken :
          (free : List Buffer)
          → Keeps p
              (elim free as (λ c. Reservation × Player) [
                | [] ↦ (reserved none, p)
                | b ∷ rest ↦ (reserved (some b), record p { free_buffers = rest })
              ]).1
      taken [] = inl refl
      taken (b ∷ rest) = inl refl

  clear-Keeps : Keeps p (buffer_clear p).1
  unfolding buffer_clear new_generation clear_queued_buffers
  clear-Keeps =
      first-Keeps p.ready _ _
        (inr (ap (λ c. (c.0, c.1, c.2, c.3, inc32 c.4)) (core-recycle_buffers p.queue p)))
        (inl refl)

  state-Keeps : (state : ℕ) → Keeps p (play_set_state state p).1
  unfolding play_set_state new_generation
  state-Keeps state =
      first-Keeps (ltb state stopped || ltb playing state) _ _ (inl refl)
        (first-Keeps (not (p.state == realized)) _ _ (inl refl) (stops (state == stopped)))
    where
      stops :
          (b : Bool) → Keeps p (record (if b then new_generation p else p) { play_state = state })
      stops true = inr refl
      stops false = inl refl

  register-Keeps : (c : Option ℕ) (x : ℕ) → Keeps p (buffer_register_callback c x p).1
  unfolding buffer_register_callback new_generation
  register-Keeps c x = inr (renews p.ready)
    where
      renews :
          (b : Bool)
          → core (
              if b
              then new_generation p
              else record p { callback_generation = inc32 p.callback_generation })
            ≡ core_at p (inc32 p.callback_generation)
      renews true = refl
      renews false = refl

  -- What other threads do meanwhile keeps the callback, and the generation up to one step.
  act-Keeps : (section : Section) → IsMeanwhile section → Keeps p (act section p).player
  unfolding act recycle_buffer commit_buffer refuse worker_wait maybe_report destroy_player
      new_generation
  act-Keeps (reserve self) h = reserve-Keeps self
  act-Keeps (commit self b peak) h = first-Keeps (is_refused self p) _ _ (inl refl) (inl refl)
  act-Keeps (give_back b) h = inl refl
  act-Keeps (audio n) h = inl (core-audio n p)
  act-Keeps clear h = clear-Keeps
  act-Keeps (set_state state) h = state-Keeps state
  act-Keeps (register callback context) h = register-Keeps callback context
  act-Keeps (start self) h = absurd h
  act-Keeps wait h = inl (core-if (recovery_ready p) p _ _ refl refl)
  act-Keeps take_due h = absurd h
  act-Keeps (finish before) h = absurd h
  act-Keeps (report now) h =
      inl (core-if (ltb (sub32 now p.last_report_ticks) 5000) p _ _ refl refl)
  act-Keeps (destroy self) h = inr refl

-- The thread `self` runs a callback that is `j` generations old, at most `most`.
pub record Lags (self most : ℕ) (p : Player) : Type 0 where
  pub up : (p.state == realized) ≡ true
  pub running : p.callback_in_flight ≡ true
  pub thread : (p.callback_thread_id == self) ≡ true
  pub small : p.in_flight_generation < 2 ^ 32
  pub lag : ℕ
  pub positive : 1 ≤ lag
  pub bounded : lag ≤ most
  pub current : p.callback_generation ≡ (p.in_flight_generation + lag) % 2 ^ 32

pub is_stale-Lags :
    (self most : ℕ) (p : Player) → Lags self most p → most < 2 ^ 32 → is_stale self p ≡ true
unfolding is_stale
is_stale-Lags self most p v h = rw (v.running, v.thread, differs) refl
  where
    differs : (p.in_flight_generation == p.callback_generation) ≡ false
    differs = ground (arith, v.small, v.positive, v.bounded, v.current, h)

act-Lags :
    (self most : ℕ) (p : Player) (section : Section)
    → IsMeanwhile section
    → Lags self most p
    → Lags self (most + 1) (act section p).player
act-Lags self most p section h v = elim (act-Keeps p section h) [
  | inl e ↦ record {
    up = ap (λ c. c.0 == realized) e ∙ v.up;
    running = ap (λ c. c.1) e ∙ v.running;
    thread = ap (λ c. c.2 == self) e ∙ v.thread;
    small = subst (λ g. g < 2 ^ 32) (sym (ap (λ c. c.3) e)) v.small;
    lag = v.lag;
    positive = v.positive;
    bounded = omega (arith, v.bounded);
    current = ap (λ c. c.4) e ∙ v.current ∙ ap (λ g. (g + v.lag) % 2 ^ 32) (sym (ap (λ c. c.3) e));
  }
  | inr e ↦ record {
    up = ap (λ c. c.0 == realized) e ∙ v.up;
    running = ap (λ c. c.1) e ∙ v.running;
    thread = ap (λ c. c.2 == self) e ∙ v.thread;
    small = subst (λ g. g < 2 ^ 32) (sym (ap (λ c. c.3) e)) v.small;
    lag = v.lag + 1;
    positive = omega arith;
    bounded = omega (arith, v.bounded);
    current =
        ap (λ c. c.4) e
        ∙ omega (arith, v.current)
        ∙ ap (λ g. (g + (v.lag + 1)) % 2 ^ 32) (sym (ap (λ c. c.3) e));
  }
]

pub after-Lags :
    (self most : ℕ) (history : List Section) (p : Player)
    → All IsMeanwhile history
    → Lags self most p
    → Lags self (most + length history) (after history p)
unfolding after
after-Lags self most [] p h v = subst (λ n. Lags self n p) (omega arith) v
after-Lags self most (section ∷ history) p h v =
    subst (λ n. Lags self n (after history (act section p).player)) (omega arith)
      (after-Lags self (most + 1) history (act section p).player h.1
        (act-Lags self most p section h.0 v))
