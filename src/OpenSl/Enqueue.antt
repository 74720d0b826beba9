-- ===== src/OpenSl/Enqueue.antt =====
-- `asm2_sl_buffer_enqueue`: two sections under the player's mutex, with the copy between them.
use tasm2_nextos.Prelude.{
  ℕ, ◌+◌, ◌-◌, ◌*◌, ◌^◌, ◌==◌, ltb, leb, Bool, not, ◌&&◌, ◌||◌, Option, none, some, List, [], ◌∷◌,
  ◌++◌, if◌then◌else◌, length, inc32, inc64,
}
use tasm2_nextos.OpenSl.State.{
  success, preconditions_violated, parameter_invalid, memory_failure, buffer_insufficient, realized,
  Buffer, empty_buffer, Player,
}
use tasm2_nextos.OpenSl.Queue.{recycle_buffer}

-- Whether the thread `self` calls from a callback that an older registration or queue made.
unfoldable pub is_stale : ℕ → Player → Bool
is_stale self p =
    p.callback_in_flight
    && p.callback_thread_id == self
    && not (p.in_flight_generation == p.callback_generation)

-- The test of both sections.
unfoldable pub is_refused : ℕ → Player → Bool
is_refused self p = p.shutdown || is_stale self p || leb p.queue_capacity p.queued_count

-- The result if it holds, and the counters.
unfoldable pub refusal : ℕ → Player → ℕ
refusal self p =
    if p.shutdown || is_stale self p then preconditions_violated else buffer_insufficient

unfoldable pub refuse : ℕ → Player → Player
refuse self p = record p {
  enqueue_failures = inc64 p.enqueue_failures;
  stale_enqueues = if is_stale self p then inc64 p.stale_enqueues else p.stale_enqueues;
}

-- The first section gives an error, or a free buffer if there is one.
pub data Reservation : Type 0 where
  refused : ℕ → Reservation
  reserved : Option Buffer → Reservation

unfoldable pub reserve_buffer : ℕ → Player → Reservation × Player
reserve_buffer self p =
    if is_refused self p then (refused (refusal self p), refuse self p) else elim p.free_buffers [
      | [] ↦ (reserved none, p)
      | b ∷ rest ↦ (reserved (some b), record p { free_buffers = rest })
    ]

-- The second section puts the buffer at the end of the queue, if the test still fails.
unfoldable pub commit_buffer : ℕ → Buffer → ℕ → Player → ℕ × Player
commit_buffer self b peak p =
    if is_refused self p then (refusal self p, recycle_buffer b (refuse self p)) else (
      success,
      record p {
        queue = p.queue ++ b ∷ [];
        queued_count = inc32 p.queued_count;
        enqueue_serial = inc64 p.enqueue_serial;
        enqueues = inc64 p.enqueues;
        peak_pcm = if ltb p.peak_pcm peak then peak else p.peak_pcm;
      },
    )

-- `memcpy` of the bytes to the front of the memory.
unfoldable pub copy_into : List ℕ → List ℕ → List ℕ
copy_into [] old = old
copy_into (b ∷ bytes) [] = b ∷ copy_into bytes []
copy_into (b ∷ bytes) (o ∷ old) = b ∷ copy_into bytes old

-- The buffer with the bytes in it, grown if it was too small.
unfoldable pub fill_buffer : List ℕ → Buffer → Buffer
fill_buffer bytes b = record {
  contents = copy_into bytes b.contents;
  size = length bytes;
  offset = 0;
  capacity = if ltb b.capacity (length bytes) then length bytes else b.capacity;
}

-- `magnitude` of the sample that two bytes make
unfoldable pub magnitude : ℕ → ℕ → ℕ
magnitude low high =
    let sample = low + 2 ^ 8 * high in if ltb sample (2 ^ 15) then sample else 2 ^ 16 - sample

-- The loop over the samples; an odd byte at the end is left.
unfoldable pub peak_from : ℕ → List ℕ → ℕ
peak_from peak [] = peak
peak_from peak (low ∷ []) = peak
peak_from peak (low ∷ high ∷ rest) =
    peak_from (if ltb peak (magnitude low high) then magnitude low high else peak) rest

-- What a call meets between the sections: the results of `calloc` and `realloc`, and what the other
-- threads do.
pub record Between : Type 0 where
  pub allocates : Bool
  pub grows : Bool
  pub others : Player → Player

-- The reserved buffer or a new one.
unfoldable pub obtain_buffer : Between → Option Buffer → Option Buffer
obtain_buffer m (some b) = some b
obtain_buffer m none = if m.allocates then some empty_buffer else none

-- Grow the buffer where that is needed, fill it, and put it in the queue.
unfoldable pub enqueue_buffer : Between → ℕ → List ℕ → Buffer → Player → ℕ × Player
enqueue_buffer m self bytes b p =
    if ltb b.capacity (length bytes) && not m.grows
    then (
      memory_failure,
      (let p1 = recycle_buffer b p in record p1 { enqueue_failures = inc64 p1.enqueue_failures }),
    )
    else commit_buffer self (fill_buffer bytes b) (peak_from 0 bytes) p

unfoldable pub enqueue_reserved : Between → ℕ → List ℕ → Reservation → Player → ℕ × Player
enqueue_reserved m self bytes (refused e) p = (e, p)
enqueue_reserved m self bytes (reserved taken) p = elim (obtain_buffer m taken) [
  | none ↦ (memory_failure, m.others p)
  | some b ↦ enqueue_buffer m self bytes b (m.others p)
]

-- `asm2_sl_buffer_enqueue` by the thread `self`; `none` is a NULL pointer
unfoldable pub buffer_enqueue : Between → ℕ → Option (List ℕ) → Player → ℕ × Player
buffer_enqueue m self none p = (parameter_invalid, p)
buffer_enqueue m self (some bytes) p =
    if length bytes == 0
    then (parameter_invalid, p)
    else if not (p.state == realized)
    then (preconditions_violated, p)
    else let (r, p1) = reserve_buffer self p in enqueue_reserved m self bytes r p1
