-- ===== src/OpenSl/Stream.antt =====
-- The bytes that a player's queue holds, and the buffers that hold them.
use tasm2_nextos.Prelude.{
  ℕ, ◌+◌, ◌-◌, ◌^◌, ◌≤◌, ◌<◌, ◌≡◌, ◌≢◌, refl, sym, ap, ◌∙◌, List, [], ◌∷◌, ◌++◌, append_assoc,
  arith, length, take, drop, length-drop, length-take, take_split, drop-drop, sub32,
}
use tasm2_nextos.OpenSl.State.{Buffer}
use tasm2_nextos.OpenSl.Queue.{pull_count, advance}

-- The bytes of a buffer that have not been played.
abbrev pub unplayed : Buffer → List ℕ
unplayed b = take (b.size - b.offset) (drop b.offset b.contents)

abbrev pub stream : List Buffer → List ℕ
stream [] = []
stream (b ∷ rest) = unplayed b ++ stream rest

-- A buffer whose bytes are there.
pub record Holds (b : Buffer) : Type 0 where
  pub begun : b.offset ≤ b.size
  pub written : b.size ≤ length b.contents
  pub small : b.size < 2 ^ 32

pub stream-append : (xs ys : List Buffer) → stream (xs ++ ys) ≡ stream xs ++ stream ys
stream-append [] ys = refl
stream-append (b ∷ xs) ys =
    ap (λ zs. unplayed b ++ zs) (stream-append xs ys)
    ∙ sym (append_assoc (unplayed b) (stream xs) (stream ys))

pub length-unplayed : (b : Buffer) → Holds b → length (unplayed b) ≡ b.size - b.offset
length-unplayed b h =
    length-take (b.size - b.offset) (drop b.offset b.contents)
      (omega (arith, length-drop b.offset b.contents, h.written, h.begun))

split_at :
    (size offset count offset' : ℕ) (xs : List ℕ)
    → offset + count ≤ size
    → offset' ≡ offset + count
    → take count (drop offset xs) ++ take (size - offset') (drop offset' xs)
      ≡ take (size - offset) (drop offset xs)
split_at size offset count offset' xs le e =
    rw (e, sym (drop-drop offset count xs), whole)
      (sym (take_split count (size - (offset + count)) (drop offset xs)))
  where
    whole : size - offset ≡ count + (size - (offset + count))
    whole = omega (arith, le)

module _ (b : Buffer) (remaining : ℕ) (h : Holds b) where
  available : sub32 b.size b.offset ≡ b.size - b.offset
  available = omega (arith, h.begun, h.small)

  -- A round takes as much as there is and as is asked for.
  pub pull_count_le :
      (pull_count b remaining ≤ b.size - b.offset) × (pull_count b remaining ≤ remaining)
  unfolding pull_count
  pull_count_le = rw available (ground arith)

  -- A round that leaves bytes in the buffer has taken all that was asked for.
  pub pull_count_all :
      b.offset + pull_count b remaining ≢ b.size → pull_count b remaining ≡ remaining
  unfolding pull_count
  pull_count_all = rw available (λ ne. ground (arith, ne, h.begun))

  pub advance-offset :
      (advance (pull_count b remaining) b).offset ≡ b.offset + pull_count b remaining
  unfolding advance
  advance-offset = omega (arith, pull_count_le.0, h.begun, h.small)

  pub advance-size : (advance (pull_count b remaining) b).size ≡ b.size
  unfolding advance
  advance-size = refl

  pub advance-Holds : Holds (advance (pull_count b remaining) b)
  unfolding advance
  advance-Holds = record {
    begun = omega (arith, advance-offset, pull_count_le.0, h.begun);
    written = h.written;
    small = h.small;
  }

  -- What a round copies, and what it leaves, is what the buffer held.
  pub unplayed-advance :
      take (pull_count b remaining) (drop b.offset b.contents)
        ++ unplayed (advance (pull_count b remaining) b)
      ≡ unplayed b
  unfolding advance
  unplayed-advance =
      split_at b.size b.offset (pull_count b remaining) _ b.contents
        (omega (arith, pull_count_le.0, h.begun)) advance-offset
