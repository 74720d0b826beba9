-- ===== src/OpenSl/Queue.antt =====
-- The buffers of a player: recycling, clearing, and `asm2_sl_sdl_audio_callback`, which plays them.
use tasm2_nextos.Prelude.{
  ℕ, zero, suc, ◌+◌, ◌-◌, ◌/◌, ◌%◌, ◌^◌, ◌==◌, ltb, Bool, true, false, not, List, [], ◌∷◌, ◌++◌,
  if◌then◌else◌, length, take, drop, replicate, inc32, inc64, sub32,
}
use tasm2_nextos.OpenSl.State.{playing, Buffer, Player}

-- `asm2_sl_recycle_buffer_locked` of a buffer that is not NULL
unfoldable pub recycle_buffer : Buffer → Player → Player
recycle_buffer b p = record p { free_buffers = record b { size = 0; offset = 0 } ∷ p.free_buffers }

-- The loop of `asm2_sl_clear_queued_buffers_locked`.
unfoldable pub recycle_buffers : List Buffer → Player → Player
recycle_buffers [] p = p
recycle_buffers (b ∷ rest) p = recycle_buffers rest (recycle_buffer b p)

-- `asm2_sl_clear_queued_buffers_locked`
unfoldable pub clear_queued_buffers : Player → Player
clear_queued_buffers p = record (recycle_buffers p.queue p) { queue = []; queued_count = 0 }

-- The variables of the loop of `asm2_sl_sdl_audio_callback`: the player, what was written to the
-- stream, and `remaining`.
pub record Pull : Type 0 where
  pub player : Player
  pub output : List ℕ
  pub remaining : ℕ

-- The buffer `b` at the head of the queue, before `rest`, has been played.
unfoldable pub complete_head : Buffer → List Buffer → Player → Player
complete_head b rest p = recycle_buffer b (record p {
  queue = rest;
  queued_count = if p.queued_count == 0 then 0 else p.queued_count - 1;
  play_index = inc32 p.play_index;
  pending_callbacks = inc32 p.pending_callbacks;
  completed_buffers = inc64 p.completed_buffers;
})

-- How many bytes a round takes from the buffer.
unfoldable pub pull_count : Buffer → ℕ → ℕ
pull_count b remaining =
    if ltb (sub32 b.size b.offset) remaining then sub32 b.size b.offset else remaining

-- The buffer after the round.
unfoldable pub advance : ℕ → Buffer → Buffer
advance count b = record b { offset = (b.offset + count) % 2 ^ 32 }

-- The player after the copy, with the buffer that it was from.
unfoldable pub played : ℕ → Buffer → List Buffer → Player → Player
played count b rest p =
    let p1 = record p {
      queue = b ∷ rest;
      played_frames = (p.played_frames + count / p.bytes_per_frame) % 2 ^ 64;
    } in
    if b.offset == b.size then complete_head b rest p1 else p1

-- The body of the loop.
unfoldable pub pull_head : Buffer → List Buffer → Pull → Pull
pull_head b rest s =
    let count = pull_count b s.remaining in
    record {
      player = played count (advance count b) rest s.player;
      output = s.output ++ take count (drop b.offset b.contents);
      remaining = s.remaining - count;
    }

-- The loop, with fuel for its rounds.
unfoldable pub pull : ℕ → Pull → Pull
pull zero s = s
pull (suc fuel) s = elim s.player.queue [
  | [] ↦ s
  | b ∷ rest ↦ elim (s.remaining == 0) [ true ↦ s | false ↦ pull fuel (pull_head b rest s) ]
]

-- What follows the loop.
unfoldable pub count_underrun : Pull → Player
count_underrun s = if s.remaining == 0 then s.player else record s.player {
  underruns = inc64 s.player.underruns;
  underrun_bytes = (s.player.underrun_bytes + s.remaining) % 2 ^ 64;
}

-- The stream that the callback leaves: `memset` to 0, with what was written at its front.
unfoldable pub finish_stream : Pull → List ℕ
finish_stream s = s.output ++ replicate s.remaining 0

-- Whether the callback plays anything.
unfoldable pub is_playing : Player → Bool
is_playing p = if p.play_state == playing then not p.shutdown else false

-- `asm2_sl_sdl_audio_callback` for a stream of `stream_length` bytes: the player, and the stream
unfoldable pub sdl_audio_callback : ℕ → Player → Player × List ℕ
sdl_audio_callback stream_length p =
    if is_playing p
    then (let s =
          pull (length p.queue + 1)
            (record { player = p; output = []; remaining = stream_length }) in
        (count_underrun s, finish_stream s))
    else (p, replicate stream_length 0)
