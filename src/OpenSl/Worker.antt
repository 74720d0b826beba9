-- ===== src/OpenSl/Worker.antt =====
-- The callbacks: a dry player is served again, and a callback from before a stop is shut out.
use tasm2_nextos.Prelude.{
  ℕ, ◌+◌, ◌^◌, ◌<◌, ◌==◌, leb, ◌≡◌, ◌≢◌, refl, sym, ap, ◌∙◌, subst, Bool, true, false, ◌||◌, some,
  List, [], ◌∷◌, arith, length, All, inc32, inc64, ==_iff, if◌then◌else◌,
}
use tasm2_nextos.OpenSl.State.{
  preconditions_violated, buffer_insufficient, realized, stopped, playing, Buffer, Player,
}
use tasm2_nextos.OpenSl.Queue.{recycle_buffer}
use tasm2_nextos.OpenSl.Enqueue.{
  Between, is_stale, is_refused, refuse, refusal, reserve_buffer, commit_buffer, enqueue_reserved,
  buffer_enqueue, refused,
}
use tasm2_nextos.OpenSl.Play.{new_generation, play_set_state}
use tasm2_nextos.OpenSl.Api.{Section, after}
use tasm2_nextos.OpenSl.Serving.{IsMeanwhile, Lags, is_stale-Lags, after-Lags}

-- The player plays, has the callback `c`, and neither a buffer nor a callback that is due or running.
pub record IsDry (p : Player) (c : ℕ) : Type 0 where
  pub alive : p.shutdown ≡ false
  pub plays : p.play_state ≡ playing
  pub registered : p.callback ≡ some c
  pub empty : p.queue ≡ []
  pub uncounted : p.queued_count ≡ 0
  pub undue : p.pending_callbacks ≡ 0
  pub idle : p.callback_in_flight ≡ false

-- The player while the worker makes the callback `c` to recover it.
abbrev pub served : ℕ → Player → Player
served c p = record p {
  pending_callbacks = 0;
  pending_recovery_callbacks = 0;
  recovery_callbacks = inc64 p.recovery_callbacks;
  callback_in_flight = true;
  in_flight_generation = p.callback_generation;
  in_flight_callback = some c;
  in_flight_context = p.callback_context;
}

-- The thread `self` runs a callback of the current generation, of a realized player.
pub record IsServing (self : ℕ) (p : Player) : Type 0 where
  pub up : p.state ≡ realized
  pub running : p.callback_in_flight ≡ true
  pub thread : p.callback_thread_id ≡ self
  pub current : p.in_flight_generation ≡ p.callback_generation
  pub small : p.callback_generation < 2 ^ 32

-- The player after the game stopped it.
abbrev pub stopped_player : Player → Player
stopped_player p = (play_set_state stopped p).1

if_true {ℓ} : {A : Type ℓ} (b : Bool) (x y : A) → b ≡ true → (if b then x else y) ≡ x
if_true true x y e = refl
if_true false x y e = cc

play_set_state_stops :
    (p : Player)
    → (p.state == realized) ≡ true
    → stopped_player p ≡ record (new_generation p) { play_state = stopped }
unfolding play_set_state
play_set_state_stops p r = rw (stopped_player, r) refl

stopped-Lags : (self : ℕ) (p : Player) → IsServing self p → Lags self 1 (stopped_player p)
unfolding new_generation
stopped-Lags self p v = subst (Lags self 1) (sym (play_set_state_stops p up)) (record {
  up = up;
  running = v.running;
  thread = (==_iff p.callback_thread_id self).1 v.thread;
  small = omega (arith, v.small, v.current);
  lag = 1;
  positive = omega arith;
  bounded = omega arith;
  current = ap inc32 (sym v.current);
})
  where
    up : (p.state == realized) ≡ true
    up = (==_iff p.state realized).1 v.up

nonempty : (bytes : List ℕ) → bytes ≢ [] → (length bytes == 0) ≡ false
nonempty [] e = absurd (e refl)
nonempty (c ∷ bytes) e = ground arith

or_true : (a b : Bool) → ((a || true) ≡ true) × ((a || true || b) ≡ true)
or_true true b = (refl, refl)
or_true false b = (refl, refl)

-- The player with one more failed and stale enqueue.
abbrev pub counted : Player → Player
counted p = record p {
  enqueue_failures = inc64 p.enqueue_failures;
  stale_enqueues = inc64 p.stale_enqueues;
}

module _ (self : ℕ) (p : Player) (stale : is_stale self p ≡ true) where
  refuse_counts : refuse self p ≡ counted p
  unfolding refuse
  refuse_counts =
      ap
        (λ b. record p {
          enqueue_failures = inc64 p.enqueue_failures;
          stale_enqueues = if b then inc64 p.stale_enqueues else p.stale_enqueues;
        })
        stale

  refused_stale : is_refused self p ≡ true
  unfolding is_refused
  refused_stale =
      ap (λ b. p.shutdown || b || leb p.queue_capacity p.queued_count) stale
      ∙ (or_true p.shutdown (leb p.queue_capacity p.queued_count)).1

  refusal_stale : refusal self p ≡ preconditions_violated
  unfolding refusal
  refusal_stale =
      ap (λ b. if p.shutdown || b then preconditions_violated else buffer_insufficient) stale
      ∙ ap (λ b. if b then preconditions_violated else buffer_insufficient)
          (or_true p.shutdown true).0

  reserve_buffer_stale : reserve_buffer self p ≡ (refused preconditions_violated, counted p)
  unfolding reserve_buffer
  reserve_buffer_stale =
      if_true (is_refused self p) _ _ refused_stale
      ∙ ap (λ (e : ℕ). (refused e, refuse self p)) refusal_stale
      ∙ ap (λ (q : Player). (refused preconditions_violated, q)) refuse_counts

  -- Whatever the other threads do between its sections, a stale enqueue is refused.
  buffer_enqueue_stale :
      (m : Between) (bytes : List ℕ)
      → bytes ≢ []
      → (p.state == realized) ≡ true
      → buffer_enqueue m self (some bytes) p ≡ (preconditions_violated, counted p)
  unfolding buffer_enqueue enqueue_reserved
  buffer_enqueue_stale m bytes e up = rw (nonempty bytes e, up, reserve_buffer_stale) refl

  commit_buffer_stale :
      (b : Buffer) (peak : ℕ)
      → commit_buffer self b peak p ≡ (preconditions_violated, recycle_buffer b (counted p))
  unfolding commit_buffer
  commit_buffer_stale b peak =
      if_true (is_refused self p) _ _ refused_stale
      ∙ ap (λ (e : ℕ). (e, recycle_buffer b (refuse self p))) refusal_stale
      ∙ ap (λ (q : Player). (preconditions_violated, recycle_buffer b q)) refuse_counts

-- A callback that was running when the game stopped the player cannot put sound into the queue any
-- more, whatever the other threads do to the player while it runs, fewer than 2^32 - 1 sections: its
-- enqueues are refused as a violated precondition and change nothing but two counters. So is an
-- enqueue that was past its first section, which gives its buffer back.
pub buffer_enqueue-play_set_state :
    (m : Between) (self : ℕ) (bytes : List ℕ) (b : Buffer) (peak : ℕ) (p : Player)
    (history : List Section)
    → IsServing self p
    → bytes ≢ []
    → All IsMeanwhile history
    → 1 + length history < 2 ^ 32
    → (buffer_enqueue m self (some bytes) (after history (stopped_player p))
        ≡ (preconditions_violated, counted (after history (stopped_player p))))
      × (commit_buffer self b peak (after history (stopped_player p))
          ≡ (preconditions_violated, recycle_buffer b (counted (after history (stopped_player p)))))
buffer_enqueue-play_set_state m self bytes b peak p history v e h short =
    let w = after-Lags self 1 history (stopped_player p) h (stopped-Lags self p v) in
    let stale =
      is_stale-Lags self (1 + length history) (after history (stopped_player p)) w short in
    (
      buffer_enqueue_stale self (after history (stopped_player p)) stale m bytes e w.up,
      commit_buffer_stale self (after history (stopped_player p)) stale b peak,
    )
