-- ===== src/OpenSl/Play.antt =====
-- The other calls on a player's interfaces, and the sections of `asm2_sl_callback_worker`.
use tasm2_nextos.Prelude.{
  ℕ, ◌-◌, ◌*◌, ◌/◌, ◌%◌, ◌^◌, ◌==◌, ltb, Bool, true, false, not, ◌&&◌, ◌||◌, Option, none, some, [],
  ◌∷◌, if◌then◌else◌, inc32, inc64, sub32,
}
use tasm2_nextos.OpenSl.State.{
  success, preconditions_violated, parameter_invalid, realized, stopped, playing, Player,
}
use tasm2_nextos.OpenSl.Queue.{clear_queued_buffers}

-- No callback of before is due or may enqueue.
unfoldable pub new_generation : Player → Player
new_generation p = record p {
  callback_generation = inc32 p.callback_generation;
  pending_callbacks = 0;
  pending_recovery_callbacks = 0;
}

-- `asm2_sl_play_set_state`
unfoldable pub play_set_state : ℕ → Player → ℕ × Player
play_set_state state p =
    if ltb state stopped || ltb playing state
    then (parameter_invalid, p)
    else if not (p.state == realized)
    then (preconditions_violated, p)
    else (success, record (if state == stopped then new_generation p else p) { play_state = state })

-- `asm2_sl_play_get_state` for a pointer that is not NULL: the error, or the state
unfoldable pub play_get_state : Player → ℕ × Option ℕ
play_get_state p = if p.ready then (success, some p.play_state) else (preconditions_violated, none)

-- `asm2_sl_play_get_position`, in milliseconds
unfoldable pub play_get_position : Player → ℕ × Option ℕ
play_get_position p =
    if p.ready
    then (success, some (p.played_frames * 1000 % 2 ^ 64 / p.frequency % 2 ^ 32))
    else (preconditions_violated, none)

-- `asm2_sl_buffer_clear`
unfoldable pub buffer_clear : Player → ℕ × Player
buffer_clear p =
    if p.ready
    then (
      success,
      new_generation (record (clear_queued_buffers p) { play_index = 0; played_frames = 0 }),
    )
    else (preconditions_violated, p)

-- `asm2_sl_buffer_get_state`: the count and the index
unfoldable pub buffer_get_state : Player → ℕ × Option (ℕ × ℕ)
buffer_get_state p =
    if p.ready
    then (success, some (p.queued_count, p.play_index))
    else (preconditions_violated, none)

-- `asm2_sl_buffer_register_callback`
unfoldable pub buffer_register_callback : Option ℕ → ℕ → Player → ℕ × Player
buffer_register_callback callback context p =
    let p1 =
      if p.ready
      then new_generation p
      else record p { callback_generation = inc32 p.callback_generation } in
    (success, record p1 { callback = callback; callback_context = context })

-- `asm2_sl_recovery_ready_locked`
unfoldable pub recovery_ready : Player → Bool
recovery_ready p =
    not p.shutdown
    && p.play_state == playing
    && (elim p.callback [ none ↦ false | some c ↦ true ])
    && (elim p.queue [ [] ↦ true | b ∷ rest ↦ false ])
    && p.queued_count == 0
    && p.pending_callbacks == 0
    && not p.callback_in_flight

-- The start of the worker, on the thread `self`.
unfoldable pub worker_start : ℕ → Player → Player
worker_start self p = record p { callback_thread_id = self }

-- A round of the worker's wait, once it has the mutex again.
unfoldable pub worker_wait : Player → Player
worker_wait p =
    if recovery_ready p
    then record p { pending_callbacks = 1; pending_recovery_callbacks = 1 }
    else p

-- The worker takes a callback that is due.
unfoldable pub worker_due : Player → Player
worker_due p =
    let p1 = record p { pending_callbacks = p.pending_callbacks - 1 } in
    if p.pending_recovery_callbacks == 0 then p1 else record p1 {
      pending_recovery_callbacks = p.pending_recovery_callbacks - 1;
      recovery_callbacks = inc64 p.recovery_callbacks;
    }

-- It marks the callback as running.
unfoldable pub worker_mark : ℕ → Player → Player
worker_mark callback p = record p {
  callback_in_flight = true;
  in_flight_generation = p.callback_generation;
  in_flight_callback = some callback;
  in_flight_context = p.callback_context;
}

-- The section after the wait: the callback to make, and the player.
unfoldable pub worker_take : Player → Option (ℕ × ℕ) × Player
worker_take p = if p.shutdown || p.pending_callbacks == 0 then (none, p) else elim p.callback [
  | none ↦ (none, worker_due p)
  | some c ↦ (some (c, p.callback_context), worker_mark c (worker_due p))
]

-- The section after the callback, with the serial number from before it.
unfoldable pub worker_finish : ℕ → Player → Player
worker_finish enqueue_before p = record p {
  callbacks = inc64 p.callbacks;
  callbacks_without_enqueue =
      if p.enqueue_serial == enqueue_before
      then inc64 p.callbacks_without_enqueue
      else p.callbacks_without_enqueue;
  callback_in_flight = false;
  in_flight_generation = 0;
  in_flight_callback = none;
  in_flight_context = 0;
}

-- The section of `asm2_sl_maybe_report`, which resets the peak every five seconds; the report itself
-- is left out.
unfoldable pub maybe_report : ℕ → Player → Player
maybe_report now p =
    if ltb (sub32 now p.last_report_ticks) 5000
    then p
    else record p { last_report_ticks = now; peak_pcm = 0 }

-- The section of `asm2_sl_object_destroy`, by the thread `self`.
unfoldable pub destroy_player : ℕ → Player → Player
destroy_player self p = record (new_generation p) {
  shutdown = true;
  play_state = stopped;
  callback = none;
  callback_context = 0;
  device = 0;
  destroy_on_worker_exit =
      if p.worker && p.callback_thread_id == self then true else p.destroy_on_worker_exit;
}
