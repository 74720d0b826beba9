-- ===== src/OpenSl/Tests.antt =====
-- Runs on a small player, and the theorems at concrete players.
use tasm2_nextos.Prelude.{
  ℕ, ◌≡◌, inr, refl, ap, Bool, true, false, none, some, List, [], ◌∷◌, ◌++◌, arith, All, inc64,
}
use tasm2_nextos.OpenSl.State.{
  success, preconditions_violated, realized, stopped, playing, Buffer, Player,
}
use tasm2_nextos.OpenSl.Queue.{Pull, pull, recycle_buffer}
use tasm2_nextos.OpenSl.Enqueue.{
  Between, buffer_enqueue, reserve_buffer, enqueue_reserved, is_refused, is_stale, obtain_buffer,
  enqueue_buffer, commit_buffer,
}
use tasm2_nextos.OpenSl.Stream.{Holds, stream}
use tasm2_nextos.OpenSl.Pull.{Sound, Ends, pull_lem}
use tasm2_nextos.OpenSl.Api.{Section, reserve, commit, audio, set_state, clear, heard, trace, after}
use tasm2_nextos.OpenSl.Pipe.{view, pipe_heard}
use tasm2_nextos.OpenSl.History.{Ready, heard-pipe_heard, after-Sound}
use tasm2_nextos.OpenSl.Fill.{stream-buffer_enqueue}
use tasm2_nextos.OpenSl.Worker.{IsServing, stopped_player, counted, buffer_enqueue-play_set_state}
use tasm2_nextos.OpenSl.Device.{Host, Held, open_player}
use tasm2_nextos.OpenSl.Object.{new_player, object_destroy, engine_create_audio_player, iid_play}
use tasm2_nextos.OpenSl.Release.{
  IsClosed, IsOpen, Opens, opened, settled, open_player-Opens, settled-object_destroy,
}
use tasm2_nextos.OpenSl.Create.{IsFresh, engine_create_audio_player-IsFresh}

abbrev four_bytes : Buffer
four_bytes = record { contents = 1 ∷ 2 ∷ 3 ∷ 4 ∷ []; size = 4; offset = 0; capacity = 4 }

four_bytes-Holds : Holds four_bytes
four_bytes-Holds = record { begun = omega arith; written = omega arith; small = omega arith }

abbrev running_player : Player
running_player = record new_player {
  state = realized;
  device = 2;
  ready = true;
  worker = true;
  audio_subsystem_acquired = true;
  callback_thread_id = 7;
  play_state = playing;
  callback = some 5;
  callback_context = 6;
}

running-Sound : Sound running_player
running-Sound = record { buffers = tt; counted = refl; room = omega arith; modest = omega arith }

abbrev full_player : Player
full_player = record running_player { queue = four_bytes ∷ []; queued_count = 1 }

full-Sound : Sound full_player
full-Sound = record {
  buffers = (four_bytes-Holds, tt);
  counted = refl;
  room = omega arith;
  modest = omega arith;
}

abbrev song : List Section
song = commit 1 four_bytes 513 ∷ audio 3 ∷ audio 3 ∷ set_state stopped ∷ audio 2 ∷ clear ∷ []

song-Ready : All Ready song
unfolding Ready
song-Ready = (four_bytes-Holds, (tt, (tt, (tt, (tt, (tt, tt))))))

heard-pipe_heard_example :
    heard song running_player ≡ pipe_heard (trace song running_player) (view running_player)
heard-pipe_heard_example = heard-pipe_heard song running_player running-Sound song-Ready

after-Sound_example : Sound (after song running_player)
after-Sound_example = after-Sound song running_player running-Sound song-Ready

abbrev full_pull : Pull
full_pull = record { player = full_player; output = []; remaining = 6 }

pull_lem_example : Ends full_pull (pull 1 full_pull)
pull_lem_example = pull_lem 1 full_pull full-Sound (inr (omega arith))

abbrev calm : Between
calm = record { allocates = true; grows = true; others = λ p. p }

abbrev two_bytes : List ℕ
two_bytes = 9 ∷ 10 ∷ []

accepted : (buffer_enqueue calm 1 (some two_bytes) full_player).0 ≡ success
unfolding buffer_enqueue enqueue_reserved reserve_buffer is_refused is_stale obtain_buffer
    enqueue_buffer commit_buffer
accepted = refl

stream-buffer_enqueue_example :
    stream (buffer_enqueue calm 1 (some two_bytes) full_player).1.queue
    ≡ stream (reserve_buffer 1 full_player).1.queue ++ two_bytes
stream-buffer_enqueue_example = stream-buffer_enqueue calm 1 two_bytes full_player accepted

abbrev serving_player : Player
serving_player = record running_player {
  callback_in_flight = true;
  callback_generation = 3;
  in_flight_generation = 3;
}

serving_player-IsServing : IsServing 7 serving_player
serving_player-IsServing = record {
  up = refl;
  running = refl;
  thread = refl;
  current = refl;
  small = omega arith;
}

-- The game plays again, clears the queue, and the callback has tried once already.
abbrev meanwhile : List Section
meanwhile = set_state playing ∷ clear ∷ reserve 7 ∷ audio 4 ∷ []

buffer_enqueue-play_set_state_example :
    (buffer_enqueue calm 7 (some two_bytes) (after meanwhile (stopped_player serving_player))
      ≡ (preconditions_violated, counted (after meanwhile (stopped_player serving_player))))
    × (commit_buffer 7 four_bytes 513 (after meanwhile (stopped_player serving_player)) ≡ (
      preconditions_violated,
      recycle_buffer four_bytes (counted (after meanwhile (stopped_player serving_player))),
    ))
buffer_enqueue-play_set_state_example =
    buffer_enqueue-play_set_state calm 7 two_bytes four_bytes 513 serving_player meanwhile
      serving_player-IsServing (λ e. absurd (true_is_false (ap is_empty e)))
      (tt, (tt, (tt, (tt, tt)))) (omega arith)
  where
    is_empty : List ℕ → Bool
    is_empty [] = true
    is_empty (b ∷ rest) = false

    true_is_false : false ≡ true → ⊥
    true_is_false e = cc e

abbrev deaf_host : Host
deaf_host = record {
  starts = true;
  restarts = true;
  sets = true;
  makes_mutex = true;
  makes_condition = true;
  makes_thread = true;
  opens = 0;
  worker_id = 7;
}

abbrev held_before : Held
held_before = record {
  subsystems = 1;
  mutexes = 4;
  conditions = 3;
  threads = 2;
  devices = 0;
  released = 0;
}

new_player-IsClosed : IsClosed new_player
new_player-IsClosed = record { unready = refl; unattended = refl; silent = refl; unacquired = refl }

open_player-Opens_example : Opens held_before (open_player deaf_host none new_player held_before)
open_player-Opens_example =
    open_player-Opens deaf_host new_player held_before new_player-IsClosed none

running-IsOpen : IsOpen running_player
running-IsOpen = record { ready = refl; attended = refl; sounding = refl; acquired = refl }

settled-object_destroy_example :
    settled (object_destroy 7 running_player (opened held_before))
    ≡ record held_before { released = inc64 0 }
settled-object_destroy_example = settled-object_destroy running_player held_before running-IsOpen 7

engine_create_audio_player-IsFresh_example : IsFresh (
    engine_create_audio_player true realized
      (record { locator = none; format = none })
      (some ((iid_play, true) ∷ [])))
engine_create_audio_player-IsFresh_example =
    engine_create_audio_player-IsFresh true realized (record { locator = none; format = none })
      (some ((iid_play, true) ∷ []))
