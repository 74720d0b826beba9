-- ===== src/OpenSl/Fill.antt =====
-- What `asm2_sl_buffer_enqueue` puts into a buffer, and what of it the queue then holds.
use tasm2_nextos.Prelude.{
  ℕ, ◌-◌, ◌^◌, ◌≤◌, ◌<◌, ◌==◌, ltb, ◌≡◌, ◌≢◌, refl, ap, ◌∙◌, Bool, true, false, not, ◌&&◌, none,
  some, List, [], ◌∷◌, ◌++◌, append-nil, arith, if◌then◌else◌, length, take, All,
}
use tasm2_nextos.OpenSl.State.{
  success, memory_failure, parameter_invalid, preconditions_violated, realized, Buffer,
  empty_buffer, Player,
}
use tasm2_nextos.OpenSl.Enqueue.{
  copy_into, fill_buffer, magnitude, peak_from, is_refused, refusal, refuse, commit_buffer, Between,
  obtain_buffer, enqueue_buffer, reserve_buffer, enqueue_reserved, buffer_enqueue, Reservation,
  refused, reserved,
}
use tasm2_nextos.OpenSl.Stream.{unplayed, stream, stream-append, Holds}

-- The bytes stand at the front.
take-copy_into : (bytes old : List ℕ) → take (length bytes) (copy_into bytes old) ≡ bytes
unfolding copy_into
take-copy_into [] old = refl
take-copy_into (b ∷ bytes) [] = ap (λ zs. b ∷ zs) (take-copy_into bytes [])
take-copy_into (b ∷ bytes) (o ∷ old) = ap (λ zs. b ∷ zs) (take-copy_into bytes old)

length-copy_into : (bytes old : List ℕ) → length bytes ≤ length (copy_into bytes old)
unfolding copy_into
length-copy_into [] old = omega arith
length-copy_into (b ∷ bytes) [] = omega (arith, length-copy_into bytes [])
length-copy_into (b ∷ bytes) (o ∷ old) = omega (arith, length-copy_into bytes old)

pub unplayed-fill_buffer : (bytes : List ℕ) (b : Buffer) → unplayed (fill_buffer bytes b) ≡ bytes
unfolding fill_buffer
unplayed-fill_buffer bytes b = rw whole (take-copy_into bytes b.contents)
  where
    whole : length bytes - 0 ≡ length bytes
    whole = omega arith

pub fill_buffer-Holds :
    (bytes : List ℕ) (b : Buffer) → length bytes < 2 ^ 32 → Holds (fill_buffer bytes b)
unfolding fill_buffer
fill_buffer-Holds bytes b h = record {
  begun = omega arith;
  written = length-copy_into bytes b.contents;
  small = h;
}

magnitude_le : (low high : ℕ) → low < 2 ^ 8 → high < 2 ^ 8 → magnitude low high ≤ 2 ^ 15
unfolding magnitude
magnitude_le low high l h = ground arith

-- Whatever bytes are sent, the peak stays within the largest magnitude of a 16 bit sample.
peak_from_le :
    (peak : ℕ) (bytes : List ℕ)
    → peak ≤ 2 ^ 15
    → All (λ b. b < 2 ^ 8) bytes
    → peak_from peak bytes ≤ 2 ^ 15
unfolding peak_from
peak_from_le peak [] le h = le
peak_from_le peak (low ∷ []) le h = le
peak_from_le peak (low ∷ high ∷ rest) le h =
    peak_from_le (if ltb peak (magnitude low high) then magnitude low high else peak) rest
      (ground (arith, magnitude_le low high h.0 h.1.0)) h.1.1

-- A result code that stands for success comes with the bytes at the end of the queue `before`.
abbrev Sent : List Buffer → List ℕ → ℕ × Player → Type 0
Sent before bytes r = r.0 ≡ success → stream r.1.queue ≡ stream before ++ bytes

Sent-branch :
    (before : List Buffer) (bytes : List ℕ) (b : Bool) (x y : ℕ × Player)
    → Sent before bytes x
    → Sent before bytes y
    → Sent before bytes (if b then x else y)
Sent-branch before bytes true x y f g = f
Sent-branch before bytes false x y f g = g

-- A refusal has an error for its code.
abbrev IsProper : Reservation → Type 0
IsProper (refused e) = e ≢ success
IsProper (reserved taken) = Unit

refusal_error : (self : ℕ) (p : Player) → refusal self p ≢ success
unfolding refusal
refusal_error self p e = ground arith

reserve_buffer-IsProper : (self : ℕ) (p : Player) → IsProper (reserve_buffer self p).0
unfolding reserve_buffer
reserve_buffer-IsProper self p = choose (is_refused self p) p.free_buffers
  where
    choose :
        (b : Bool) (free : List Buffer)
        → IsProper
            (if b
              then (refused (refusal self p), refuse self p)
              else elim free as (λ c. Reservation × Player) [
                | [] ↦ (reserved none, p)
                | b ∷ rest ↦ (reserved (some b), record p { free_buffers = rest })
              ]).0
    choose true free = refusal_error self p
    choose false [] = tt
    choose false (b ∷ rest) = tt

module _ (m : Between) (self : ℕ) (bytes : List ℕ) where
  commit-Sent :
      (b : Buffer) (peak : ℕ) (p : Player)
      → unplayed b ≡ bytes
      → Sent p.queue bytes (commit_buffer self b peak p)
  unfolding commit_buffer refusal
  commit-Sent b peak p e =
      Sent-branch p.queue bytes (is_refused self p) _ _ (λ r. absurd (refusal_error self p r))
        (λ r.
          stream-append p.queue (b ∷ [])
          ∙ ap (λ zs. stream p.queue ++ zs) (append-nil (unplayed b) ∙ e))

  enqueue-Sent : (b : Buffer) (p : Player) → Sent p.queue bytes (enqueue_buffer m self bytes b p)
  unfolding enqueue_buffer
  enqueue-Sent b p =
      Sent-branch p.queue bytes (ltb b.capacity (length bytes) && not m.grows) _ _
        (λ e. absurd (omega arith))
        (commit-Sent (fill_buffer bytes b) (peak_from 0 bytes) p (unplayed-fill_buffer bytes b))

  reserved-Sent :
      (r : Reservation) (p : Player)
      → IsProper r
      → Sent (m.others p).queue bytes (enqueue_reserved m self bytes r p)
  unfolding enqueue_reserved obtain_buffer
  reserved-Sent (refused e) p wrong = λ z. absurd (wrong z)
  reserved-Sent (reserved none) p ok = made m.allocates
    where
      made :
          (b : Bool)
          → Sent
              (m.others p).queue
              bytes
              (elim (if b then some empty_buffer else none) as (λ c. ℕ × Player) [
                | none ↦ (memory_failure, m.others p)
                | some c ↦ enqueue_buffer m self bytes c (m.others p)
              ])
      made true = enqueue-Sent empty_buffer (m.others p)
      made false = λ z. absurd (omega arith)
  reserved-Sent (reserved (some b)) p ok = enqueue-Sent b (m.others p)

-- An enqueue that reports success has put exactly its bytes at the end of what the queue holds,
-- as the other threads left it between the two sections, for any bytes, whether its buffer was
-- recycled, new or grown.
pub stream-buffer_enqueue :
    (m : Between) (self : ℕ) (bytes : List ℕ) (p : Player)
    → (buffer_enqueue m self (some bytes) p).0 ≡ success
    → stream (buffer_enqueue m self (some bytes) p).1.queue
      ≡ stream (m.others (reserve_buffer self p).1).queue ++ bytes
unfolding buffer_enqueue
stream-buffer_enqueue m self bytes p =
    Sent-branch (m.others (reserve_buffer self p).1).queue bytes (length bytes == 0)
      (parameter_invalid, p) _ (λ z. absurd (omega arith))
      (Sent-branch (m.others (reserve_buffer self p).1).queue bytes (not (p.state == realized))
        (preconditions_violated, p) _ (λ z. absurd (omega arith))
        (reserved-Sent m self bytes (reserve_buffer self p).0 (reserve_buffer self p).1
          (reserve_buffer-IsProper self p)))
