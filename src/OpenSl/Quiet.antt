-- ===== src/OpenSl/Quiet.antt =====
-- The sections that neither play nor queue anything leave the pipe alone.
use tasm2_nextos.Prelude.{
  ℕ, ◌==◌, ltb, ◌≡◌, inl, inr, refl, sym, ap, subst, ◌∙◌, Bool, true, false, ◌||◌, Option, none,
  some, List, [], ◌∷◌, arith, if◌then◌else◌, length, All, sub32, Bool-cases,
}
use tasm2_nextos.OpenSl.State.{Buffer, Player}
use tasm2_nextos.OpenSl.Queue.{recycle_buffer}
use tasm2_nextos.OpenSl.Enqueue.{Reservation, reserved, is_refused, refuse, reserve_buffer}
use tasm2_nextos.OpenSl.Play.{
  new_generation, buffer_register_callback, recovery_ready, worker_start, worker_wait, worker_due,
  worker_mark, worker_take, worker_finish, maybe_report, destroy_player,
}
use tasm2_nextos.OpenSl.Stream.{Holds}
use tasm2_nextos.OpenSl.Pull.{Sound}
use tasm2_nextos.OpenSl.Api.{
  Section, reserve, give_back, register, start, wait, take_due, finish, report, destroy, act,
}
use tasm2_nextos.OpenSl.Pipe.{view, pipe_after, section_output}
use tasm2_nextos.OpenSl.Refine.{Refines}

-- What a section that plays and queues nothing leaves of the player.
pub record Quiet (p q : Player) : Type 0 where
  pub queue : q.queue ≡ p.queue
  pub count : q.queued_count ≡ p.queued_count
  pub capacity : q.queue_capacity ≡ p.queue_capacity
  pub mode : q.play_state ≡ p.play_state
  pub destroyed : q.shutdown ≡ p.shutdown

pub Quiet_refl : (p : Player) → Quiet p p
Quiet_refl p = record { queue = refl; count = refl; capacity = refl; mode = refl; destroyed = refl }

pub Quiet-Sound : (p q : Player) → Sound p → Quiet p q → Sound q
Quiet-Sound p q v k = record {
  buffers = subst (All Holds) (sym k.queue) v.buffers;
  counted = k.count ∙ (v.counted ∙ sym (ap length k.queue));
  room = omega (arith, v.room, k.count, k.capacity);
  modest = omega (arith, v.modest, k.capacity);
}

pub Quiet-view : (p q : Player) → Quiet p q → view q ≡ view p
unfolding view
Quiet-view p q k = rw (k.queue, k.mode, k.destroyed) refl

Quiet_if : (b : Bool) (p x y : Player) → Quiet p x → Quiet p y → Quiet p (if b then x else y)
Quiet_if true p x y k l = k
Quiet_if false p x y k l = l

Quiet_branch :
    {A : Type 0} (b : Bool) (p : Player) (x y : A × Player)
    → Quiet p x.1
    → Quiet p y.1
    → Quiet p (if b then x else y).1
Quiet_branch true p x y k l = k
Quiet_branch false p x y k l = l

-- Nothing that matters changed.
abbrev pub unchanged : {p : Player} → Quiet p p
unchanged {p} = Quiet_refl p

module _ (p : Player) (v : Sound p) where
  wait-Quiet : Quiet p (worker_wait p)
  unfolding worker_wait
  wait-Quiet =
      Quiet_if (recovery_ready p) p _ p
        (record { queue = refl; count = refl; capacity = refl; mode = refl; destroyed = refl })
        unchanged

  due-Quiet : Quiet p (worker_due p)
  unfolding worker_due
  due-Quiet =
      Quiet_if (p.pending_recovery_callbacks == 0) p _ _
        (record { queue = refl; count = refl; capacity = refl; mode = refl; destroyed = refl })
        (record { queue = refl; count = refl; capacity = refl; mode = refl; destroyed = refl })

  mark-Quiet : (c : ℕ) → Quiet p (worker_mark c (worker_due p))
  unfolding worker_mark
  mark-Quiet c = record {
    queue = due-Quiet.queue;
    count = due-Quiet.count;
    capacity = due-Quiet.capacity;
    mode = due-Quiet.mode;
    destroyed = due-Quiet.destroyed;
  }

  take-Quiet : Quiet p (worker_take p).1
  unfolding worker_take
  take-Quiet =
      Quiet_branch (p.shutdown || p.pending_callbacks == 0) p _ _ unchanged (made p.callback)
    where
      made :
          (c : Option ℕ)
          → Quiet p
              (elim c as (λ c. Option (ℕ × ℕ) × Player) [
                | none ↦ (none, worker_due p)
                | some c ↦ (some (c, p.callback_context), worker_mark c (worker_due p))
              ]).1
      made none = due-Quiet
      made (some c) = mark-Quiet c

  reserve-Quiet : (self : ℕ) → Quiet p (reserve_buffer self p).1
  unfolding reserve_buffer refuse
  reserve-Quiet self =
      Quiet_branch (is_refused self p) p _ _
        (record { queue = refl; count = refl; capacity = refl; mode = refl; destroyed = refl })
        (taken p.free_buffers)
    where
      taken :
          (free : List Buffer)
          → Quiet p
              (elim free as (λ c. Reservation × Player) [
                | [] ↦ (reserved none, p)
                | b ∷ rest ↦ (reserved (some b), record p { free_buffers = rest })
              ]).1
      taken [] = unchanged
      taken (b ∷ rest) = record {
        queue = refl;
        count = refl;
        capacity = refl;
        mode = refl;
        destroyed = refl;
      }

  register-Quiet : (c : Option ℕ) (x : ℕ) → Quiet p (buffer_register_callback c x p).1
  unfolding buffer_register_callback new_generation
  register-Quiet c x = elim (Bool-cases p.ready) [
    | inl e ↦ record {
      queue = rw e refl;
      count = rw e refl;
      capacity = rw e refl;
      mode = rw e refl;
      destroyed = rw e refl;
    }
    | inr e ↦ record {
      queue = rw e refl;
      count = rw e refl;
      capacity = rw e refl;
      mode = rw e refl;
      destroyed = rw e refl;
    }
  ]

  quiet_Refines :
      (section : Section)
      → Quiet p (act section p).player
      → pipe_after section (act section p).code (view p) ≡ view p
      → (act section p).output ≡ section_output section (view p)
      → Refines section p
  quiet_Refines section k idle silent = record {
    pipe = Quiet-view p (act section p).player k ∙ sym idle;
    sound_out = silent;
    sound = Quiet-Sound p (act section p).player v k;
  }

  pub reserve-Refines : (self : ℕ) → Refines (reserve self) p
  unfolding act pipe_after section_output
  reserve-Refines self = quiet_Refines (reserve self) (reserve-Quiet self) refl refl

  pub give_back-Refines : (b : Buffer) → Refines (give_back b) p
  unfolding act pipe_after section_output recycle_buffer
  give_back-Refines b =
      quiet_Refines (give_back b)
        (record { queue = refl; count = refl; capacity = refl; mode = refl; destroyed = refl }) refl
        refl

  pub register-Refines : (c : Option ℕ) (x : ℕ) → Refines (register c x) p
  unfolding act pipe_after section_output
  register-Refines c x = quiet_Refines (register c x) (register-Quiet c x) refl refl

  pub start-Refines : (self : ℕ) → Refines (start self) p
  unfolding act pipe_after section_output worker_start
  start-Refines self =
      quiet_Refines (start self)
        (record { queue = refl; count = refl; capacity = refl; mode = refl; destroyed = refl }) refl
        refl

  pub wait-Refines : Refines wait p
  unfolding act pipe_after section_output
  wait-Refines = quiet_Refines wait wait-Quiet refl refl

  pub take_due-Refines : Refines take_due p
  unfolding act pipe_after section_output
  take_due-Refines = quiet_Refines take_due take-Quiet refl refl

  pub finish-Refines : (e : ℕ) → Refines (finish e) p
  unfolding act pipe_after section_output worker_finish
  finish-Refines e =
      quiet_Refines (finish e)
        (record { queue = refl; count = refl; capacity = refl; mode = refl; destroyed = refl }) refl
        refl

  report-Quiet : (now : ℕ) → Quiet p (maybe_report now p)
  unfolding maybe_report
  report-Quiet now =
      Quiet_if (ltb (sub32 now p.last_report_ticks) 5000) p _ _ unchanged
        (record { queue = refl; count = refl; capacity = refl; mode = refl; destroyed = refl })

  pub report-Refines : (now : ℕ) → Refines (report now) p
  unfolding act pipe_after section_output
  report-Refines now = quiet_Refines (report now) (report-Quiet now) refl refl

  pub destroy-Refines : (self : ℕ) → Refines (destroy self) p
  unfolding act pipe_after section_output destroy_player new_generation view
  destroy-Refines self = record {
    pipe = refl;
    sound_out = refl;
    sound = record { buffers = v.buffers; counted = v.counted; room = v.room; modest = v.modest };
  }
