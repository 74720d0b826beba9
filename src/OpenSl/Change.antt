-- ===== src/OpenSl/Change.antt =====
-- The sections that put bytes into the pipe, empty it, or change its mode.
use tasm2_nextos.Prelude.{
  ℕ, ◌+◌, ◌<◌, ◌==◌, ltb, ◌≡◌, refl, Bool, true, false, not, ◌||◌, List, [], ◌∷◌, ◌++◌, append-nil,
  arith, if◌then◌else◌, length, All-append, length-append, inc32,
}
use tasm2_nextos.OpenSl.State.{
  success, preconditions_violated, parameter_invalid, realized, stopped, playing, Buffer, Player,
}
use tasm2_nextos.OpenSl.Queue.{recycle_buffer, recycle_buffers, clear_queued_buffers}
use tasm2_nextos.OpenSl.Enqueue.{is_refused, refuse, refusal, commit_buffer}
use tasm2_nextos.OpenSl.Play.{new_generation, play_set_state, buffer_clear}
use tasm2_nextos.OpenSl.Stream.{unplayed, stream-append, Holds}
use tasm2_nextos.OpenSl.Pull.{Sound}
use tasm2_nextos.OpenSl.Api.{Section, commit, clear, set_state, act}
use tasm2_nextos.OpenSl.Pipe.{view, pipe_after, section_output}
use tasm2_nextos.OpenSl.Refine.{Refines}
use tasm2_nextos.OpenSl.Quiet.{Quiet, unchanged, Quiet-Sound, Quiet-view}

-- A result code and a player that a section may return.
record Meets (p : Player) (section : Section) (r : ℕ × Player) : Type 0 where
  pipe : view r.1 ≡ pipe_after section r.0 (view p)
  sound : Sound r.1

module _ (p : Player) (v : Sound p) where
  Meets_branch :
      (section : Section) (b : Bool) (x y : ℕ × Player)
      → (b ≡ true → Meets p section x)
      → (b ≡ false → Meets p section y)
      → Meets p section (if b then x else y)
  Meets_branch section true x y f g = f refl
  Meets_branch section false x y f g = g refl

  new_generation-Quiet : Quiet p (new_generation p)
  unfolding new_generation
  new_generation-Quiet = record {
    queue = refl;
    count = refl;
    capacity = refl;
    mode = refl;
    destroyed = refl;
  }

  settled :
      (state : ℕ) (q : Player)
      → Quiet p q
      → Meets p (set_state state) (success, record q { play_state = state })
  unfolding pipe_after view
  settled state q k = record {
    pipe = rw (k.queue, k.destroyed) refl;
    sound =
        let w : Sound q = Quiet-Sound p q v k in
        record { buffers = w.buffers; counted = w.counted; room = w.room; modest = w.modest };
  }

  set_state-Meets : (state : ℕ) → Meets p (set_state state) (play_set_state state p)
  unfolding play_set_state pipe_after
  set_state-Meets state =
      Meets_branch (set_state state) (ltb state stopped || ltb playing state) (parameter_invalid, p)
        (if not (p.state == realized) then (preconditions_violated, p) else (success, moved))
        (λ e. record { pipe = refl; sound = v })
        (λ e.
          Meets_branch (set_state state) (not (p.state == realized)) (preconditions_violated, p)
            (success, moved) (λ r. record { pipe = refl; sound = v })
            (λ r. moves (state == stopped)))
    where
      moved : Player
      moved = record (if state == stopped then new_generation p else p) { play_state = state }

      moves :
          (b : Bool)
          → Meets p
              (set_state state)
              (success, record (if b then new_generation p else p) { play_state = state })
      moves true = settled state (new_generation p) new_generation-Quiet
      moves false = settled state p unchanged

  cleared : (bs : List Buffer) (q : Player) → Quiet q (recycle_buffers bs q)
  unfolding recycle_buffers recycle_buffer
  cleared [] q = unchanged
  cleared (b ∷ bs) q = record {
    queue = (cleared bs _).queue;
    count = (cleared bs _).count;
    capacity = (cleared bs _).capacity;
    mode = (cleared bs _).mode;
    destroyed = (cleared bs _).destroyed;
  }

  clear-Meets : Meets p clear (buffer_clear p)
  unfolding pipe_after buffer_clear new_generation clear_queued_buffers view
  clear-Meets =
      Meets_branch clear p.ready _ _
        (λ e. record {
          pipe = rw ((cleared p.queue p).mode, (cleared p.queue p).destroyed) refl;
          sound = record {
            buffers = _;
            counted = refl;
            room = omega arith;
            modest = omega (arith, (cleared p.queue p).capacity, v.modest);
          };
        })
        (λ e. record { pipe = refl; sound = v })

  refused-Quiet : (self : ℕ) (b : Buffer) → Quiet p (recycle_buffer b (refuse self p))
  unfolding recycle_buffer refuse
  refused-Quiet self b = record {
    queue = refl;
    count = refl;
    capacity = refl;
    mode = refl;
    destroyed = refl;
  }

  not_full : (self : ℕ) → is_refused self p ≡ false → p.queued_count < p.queue_capacity
  unfolding is_refused
  not_full self e = ground arith

  refusal-not_success : (self : ℕ) → (refusal self p == success) ≡ false
  unfolding refusal
  refusal-not_success self = ground arith

  commit-Meets :
      (self : ℕ) (b : Buffer) (peak : ℕ)
      → Holds b
      → Meets p (commit self b peak) (commit_buffer self b peak p)
  unfolding commit_buffer pipe_after view
  commit-Meets self b peak h =
      Meets_branch (commit self b peak) (is_refused self p) _ _
        (λ e. record {
          pipe = rw (refusal-not_success self) (Quiet-view p _ (refused-Quiet self b));
          sound = Quiet-Sound p _ v (refused-Quiet self b);
        })
        (λ e. record {
          pipe = rw (stream-append p.queue (b ∷ []), append-nil (unplayed b)) refl;
          sound = record {
            buffers = All-append Holds p.queue (b ∷ []) v.buffers (h, tt);
            counted = room_for_one e;
            room = rw (one_more e) (omega (arith, not_full self e));
            modest = v.modest;
          };
        })
    where
      one_more : is_refused self p ≡ false → inc32 p.queued_count ≡ p.queued_count + 1
      one_more e = omega (arith, not_full self e, v.modest)

      room_for_one : is_refused self p ≡ false → inc32 p.queued_count ≡ length (p.queue ++ b ∷ [])
      room_for_one e = omega (arith, one_more e, v.counted, length-append p.queue (b ∷ []))

  pub set_state-Refines : (state : ℕ) → Refines (set_state state) p
  unfolding act section_output
  set_state-Refines state = record {
    pipe = (set_state-Meets state).pipe;
    sound_out = refl;
    sound = (set_state-Meets state).sound;
  }

  pub clear-Refines : Refines clear p
  unfolding act section_output
  clear-Refines = record { pipe = clear-Meets.pipe; sound_out = refl; sound = clear-Meets.sound }

  pub commit-Refines : (self : ℕ) (b : Buffer) (peak : ℕ) → Holds b → Refines (commit self b peak) p
  unfolding act section_output
  commit-Refines self b peak h = record {
    pipe = (commit-Meets self b peak h).pipe;
    sound_out = refl;
    sound = (commit-Meets self b peak h).sound;
  }
