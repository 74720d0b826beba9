-- ===== src/Pthread/Ids.antt =====
-- The guest's thread ids and the host's threads: an id that the bridge gives names its thread.
use tasm2_nextos.Prelude.{
  ℕ, zero, suc, ◌-◌, ◌<◌, ◌==◌, ◌≡◌, refl, sym, ap, ◌∙◌, Option, some, none, List, [], ◌∷◌, ◌++◌,
  length, replicate, take, drop, take-append_drop, length-drop, arith, if◌then◌else◌, ltb, ==_iff,
  ◌||◌, Bool, true, false,
}
use mathlib.Core.Bool.{true≢false}
use mathlib.Core.Option.{some-injective}
use tasm2_nextos.Pthread.State.{attr, einval, eoverflow, State, ok, err}
use tasm2_nextos.Pthread.Registry.{object_get}
use tasm2_nextos.Pthread.Threads.{
  ThreadHost, guest_thread_to_host, high_bytes_error, host_thread_to_guest, join_host, join, create,
  create_with, created_thread, give_thread,
}

high_bytes_zero : (xs : List ℕ) → high_bytes_error xs ≡ 0 → replicate (length xs) 0 ≡ xs
unfolding high_bytes_error
high_bytes_zero [] p = refl
high_bytes_zero (zero ∷ xs) p = ap (λ l. 0 ∷ l) (high_bytes_zero xs p)
high_bytes_zero (suc b ∷ xs) p = grind (arith, p)

-- What follows the guard of a call that succeeds, behind an error number that is not 0.
behind_guard :
    {A : Type 0} (b : Bool) (error : A → ℕ) (failed rest r : A)
    → 0 < error failed
    → error r ≡ 0
    → (if b then failed else rest) ≡ r
    → (b ≡ false) × (rest ≡ r)
behind_guard true error failed rest r f z p = absurd (omega (arith, f, ap error p, z))
behind_guard false error failed rest r f z p = (refl, p)

right_false : (b c : Bool) → (b || c) ≡ false → c ≡ false
right_false true c q = absurd (true≢false q)
right_false false c q = q

-- The bytes of the word, and zeros behind them, are the thread's bytes if the high ones are 0.
padded : (t : List ℕ) → high_bytes_error (drop 4 t) ≡ 0 → take 4 t ++ replicate (length t - 4) 0 ≡ t
padded t e = rw (sym (length-drop 4 t), high_bytes_zero (drop 4 t) e) (take-append_drop 4 t)

host_of_long :
    (t g : List ℕ)
    → ltb (length t) 4 ≡ false
    → take 4 t ≡ g
    → high_bytes_error (drop 4 t) ≡ 0
    → guest_thread_to_host (length t) g ≡ ok t
unfolding guest_thread_to_host
host_of_long t g short w e =
    ap (λ b. if b then err eoverflow else ok (g ++ replicate (length t - 4) 0)) short
    ∙ ap (λ v. ok (v ++ replicate (length t - 4) 0)) (sym w)
    ∙ ap ok (padded t e)

-- An id that `host_thread_to_guest` gives without an error is turned back into the thread.
guest_thread_to_host-host_thread_to_guest :
    (out : ℕ) (t g : List ℕ)
    → host_thread_to_guest out t ≡ (0, some g)
    → guest_thread_to_host (length t) g ≡ ok t
unfolding host_thread_to_guest
guest_thread_to_host-host_thread_to_guest out t g p =
    host_of_long t g (right_false (out == 0) (ltb (length t) 4) given.0)
      (some-injective (take 4 t) g (ap (λ q. q.1) given.1)) (ap (λ q. q.0) given.1)
  where
    given :
        ((out == 0) || ltb (length t) 4 ≡ false)
        × (◌≡◌ {A = ℕ × Option (List ℕ)} (high_bytes_error (drop 4 t), some (take 4 t)) (0, some g))
    given =
        behind_guard ((out == 0) || ltb (length t) 4) (λ q. q.0) (eoverflow, none)
          (high_bytes_error (drop 4 t), some (take 4 t)) (0, some g) (omega arith) refl p

module _ {W : Type 0} (h : ThreadHost W) where
  given_thread :
      (t g : List ℕ) (r : ℕ × Option (List ℕ)) (s1 s2 : State W)
      → give_thread h t r s1 ≡ ((0, some g), s2)
      → (r ≡ (0, some g)) × (s1 ≡ s2)
  unfolding give_thread
  given_thread t g (e, o) s1 s2 p = split (e == 0) refl p
    where
      split :
          (b : Bool)
          → (e == 0) ≡ b
          → ◌≡◌ {A = (ℕ × Option (List ℕ)) × State W}
              (if b then ((0, o), s1) else ((e, o), (h.detach_thread t s1).1))
              ((0, some g), s2)
          → (◌≡◌ {A = ℕ × Option (List ℕ)} (e, o) (0, some g)) × (s1 ≡ s2)
      split true q p = (ap (λ n. (n, o)) ((==_iff e 0).0 q) ∙ ap (λ r. r.0) p, ap (λ r. r.1) p)
      split false q p = absurd (grind (arith, ap (λ r. r.0.0) p, q))

  -- If `asm2_pthread_create` succeeds with an id, and the host made a thread whose representation
  -- has the size of a `pthread_t`, then the state is the one that the host left, so that the thread
  -- was not detached, and `asm2_pthread_join` with the id is the host's join of that very thread.
  -- The attribute is NULL or one that is registered.
  pub join-create :
      (out guest_attr start arg a : ℕ) (s s1 s2 : State W) (t g : List ℕ)
      → create h out guest_attr start arg s ≡ ((0, some g), s2)
      → (if guest_attr == 0 then ok 0 else object_get s guest_attr attr) ≡ ok a
      → h.create_thread a start arg s ≡ ((0, t), s1)
      → length t ≡ h.size
      → (s1 ≡ s2) × (join h g s2 ≡ h.join_thread t s2)
  unfolding create create_with created_thread join join_host
  join-create out guest_attr start arg a s s1 s2 t g p found made size = (
    given.1,
    ap (λ q. join_host h q s2)
        (ap (λ n. guest_thread_to_host n g) (sym size)
          ∙ guest_thread_to_host-host_thread_to_guest out t g given.0),
  )
    where
      passed :
          create_with h out start arg
            (if guest_attr == 0 then ok 0 else object_get s guest_attr attr)
            s
          ≡ ((0, some g), s2)
      passed =
          (behind_guard ((out == 0) || (start == 0)) (λ q. q.0.0) ((einval, none), s)
            (create_with h out start arg
              (if guest_attr == 0 then ok 0 else object_get s guest_attr attr) s)
            ((0, some g), s2) (omega arith) refl p).1

      given : (host_thread_to_guest out t ≡ (0, some g)) × (s1 ≡ s2)
      given = given_thread t g (host_thread_to_guest out t) s1 s2 (
          sym (ap (λ q. created_thread h out q) made)
          ∙ sym (ap (λ q. create_with h out start arg q s) found)
          ∙ passed)
