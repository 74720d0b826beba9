-- ===== src/Bionic/Refused.antt =====
-- Streams that are not open are refused, and the others are given back as they were.
use tasm2_nextos.Prelude.{
  ℕ, ◌+◌, ◌-◌, ◌^◌, ◌<◌, ◌==◌, ◌≡◌, ◌≢◌, ◌⊎◌, inl, inr, refl, sym, ap, ◌∙◌, Bool, false, none, some,
  List, [], ◌∷◌, length, On, arith, inc32, ==_iff, Bool-cases,
}
use tasm2_nextos.Bionic.Files.{Files, Wrapper, file_open, find_active_file}
use tasm2_nextos.Bionic.Chain.{==_ne, first_match}
use tasm2_nextos.Bionic.Close.{IsBucket, find_active_file_lem}
use tasm2_nextos.Bionic.Streams.{
  HostFile, HostIo, Io, standard_stream, acquire_wrapper, acquire_at, acquire_stream, acquire_found,
  acquire_either, release_wrapper, on_reference, on_stream, bad,
}
use tasm2_nextos.Bionic.Lifetime.{acquire-state}

not_standard :
    (base stream : ℕ)
    → stream ≢ base
    → stream ≢ base + 84
    → stream ≢ base + 168
    → standard_stream base stream ≡ none
unfolding standard_stream
not_standard base stream a b c = rw (==_ne _ _ a, ==_ne _ _ b, ==_ne _ _ c) refl

acquire_wrapper_shut : (w : Wrapper) → w.state ≢ file_open → acquire_wrapper w ≡ none
unfolding acquire_wrapper
acquire_wrapper_shut w n = rw (==_ne w.state file_open n) refl

-- What the list finds is the address itself, if the list has it.
first_match-On :
    (x : ℕ) (xs : List ℕ) → (first_match x xs ≡ none) ⊎ ((first_match x xs ≡ some x) × On x xs)
first_match-On x [] = inl refl
first_match-On x (y ∷ ys) = elim (Bool-cases (y == x)) [
  | inl e ↦ let p : y ≡ x = (==_iff y x).0 e in inr (rw e (ap some p), inl (sym p))
  | inr e ↦ elim (first_match-On x ys) [
    | inl q ↦ inl (rw e q)
    | inr q ↦ inr (rw e (q.0), inr (q.1))
  ]
]

module _ (fuel base stream : ℕ) (xs : List ℕ) (s : Files) where
  acquire_found_shut :
      (On stream xs → (s.wrapper stream).state ≢ file_open)
      → acquire_found (first_match stream xs) s ≡ (bad, s)
  unfolding acquire_found acquire_at
  acquire_found_shut shut = elim (first_match-On stream xs) [
    | inl q ↦ rw q refl
    | inr q ↦ rw (q.0, acquire_wrapper_shut (s.wrapper stream) (shut (q.1))) refl
  ]

  acquire_stream_stale :
      standard_stream base stream ≡ none
      → length xs < fuel
      → IsBucket s stream xs
      → (On stream xs → (s.wrapper stream).state ≢ file_open)
      → acquire_stream fuel base stream s ≡ (bad, s)
  unfolding acquire_stream acquire_either
  acquire_stream_stale e l c shut =
      ap (λ o. acquire_either o (find_active_file fuel stream s) s) e
      ∙ ap (λ o. acquire_found o s) (find_active_file_lem fuel stream xs s l c)
      ∙ acquire_found_shut shut

-- A call on a stream that is not open has the result for an error, does not reach the host, and
-- changes nothing: the stream is none of the three standard ones, and either its wrapper is not on
-- the chain of its bucket, or it is there and is closing or closed.
pub on_stream_stale :
    {W : Type 0} (h : HostIo W) {A : Type 0} (synced : Bool) (wrong : A)
    (call : HostFile → W → A × W) (fuel base stream : ℕ) (xs : List ℕ) (io : Io W)
    → stream ≢ base
    → stream ≢ base + 84
    → stream ≢ base + 168
    → length xs < fuel
    → IsBucket io.files stream xs
    → (On stream xs → (io.files.wrapper stream).state ≢ file_open)
    → on_stream h synced wrong call fuel base stream io ≡ (wrong, io)
unfolding on_stream on_reference
on_stream_stale h synced wrong call fuel base stream xs io a b c l chain shut =
    ap (λ q. on_reference h synced wrong call q.0 (record io { files = q.1 }))
      (acquire_stream_stale fuel base stream xs io.files (not_standard base stream a b c) l chain
        shut)

-- A reference that is given back leaves the counter of the wrapper as it was, if fewer than 2^32 - 1
-- operations were active.
release_wrapper-acquire_wrapper :
    (v w : Wrapper) (host : ℕ)
    → v.active_operations < 2 ^ 32 - 1
    → acquire_wrapper v ≡ some (host, w)
    → release_wrapper w ≡ v
unfolding release_wrapper
release_wrapper-acquire_wrapper v w host l e =
    ap release_wrapper (acquire-state v w host e).1 ∙ rw (busy, less) refl
  where
    busy : (inc32 v.active_operations == 0) ≡ false
    busy = ground (arith, l)

    less : inc32 v.active_operations - 1 ≡ v.active_operations
    less = omega (arith, l)
