-- ===== src/Bionic/Close.antt =====
-- Opening and closing files: alone, and while another thread's close waits.
use tasm2_nextos.Prelude.{
  ℕ, suc, ◌<◌, ◌≡◌, ◌≢◌, refl, sym, ap, ◌∙◌, subst, Option, none, some, List, ◌∷◌, length, update,
  update_self, update_ne, ==_iff, ==_refl,
}
use tasm2_nextos.Bionic.Files.{
  Files, Wrapper, head_of, load, store, locate, set_wrapper, begin_at, begin_close, finish_close,
  wrap_file, new_wrapper, find_active_file, file_bucket, file_open, file_closing,
}
use tasm2_nextos.Bionic.Chain.{
  IsChain, IsOff, first_match, first_match_off, find_from_chain, IsChain-update, ==_ne,
}

-- The chain of the bucket of a stream.
abbrev pub IsBucket : Files → ℕ → List ℕ → Type 0
IsBucket s x xs = IsChain s.wrapper (s.heads (file_bucket x)) xs

-- With fuel for more steps than the chain of its bucket has wrappers, a stream is found exactly if
-- its wrapper is on that chain.
pub find_active_file_lem :
    (fuel x : ℕ) (xs : List ℕ) (s : Files)
    → length xs < fuel
    → IsBucket s x xs
    → find_active_file fuel x s ≡ first_match x xs
unfolding find_active_file
find_active_file_lem fuel x xs s l c = find_from_chain fuel x (s.heads (file_bucket x)) xs s l c

module _ (x : ℕ) (xs : List ℕ) (s : Files) (fresh : IsOff x xs) where
  -- A new file comes first on its chain.
  pub wrap_file-IsBucket :
      (host : ℕ) (mode : Option (List ℕ)) (fd : ℕ)
      → x ≢ 0
      → IsBucket s x xs
      → IsBucket (wrap_file (some x) host mode fd s).1 x (x ∷ xs)
  unfolding wrap_file set_wrapper new_wrapper
  wrap_file-IsBucket host mode fd nonzero c = (
    update_self s.heads (file_bucket x) x,
    nonzero,
    subst (λ z. IsChain (update s.wrapper x w) z xs)
        (sym (ap (λ v. v.hash_next) (update_self s.wrapper x w)))
        (IsChain-update s.wrapper x w (s.heads (file_bucket x)) xs fresh c),
  )
    where
      w : Wrapper
      w = new_wrapper host mode fd (s.heads (file_bucket x))

  -- The end of a close whose link is the bucket's head, whatever stands there by then.
  pub finish_close-IsBucket :
      IsChain s.wrapper (s.wrapper x).hash_next xs
      → IsBucket (finish_close (head_of (file_bucket x)) x s).1 x xs
  unfolding finish_close store set_wrapper
  finish_close-IsBucket c =
      subst (λ z. IsChain (finish_close (head_of (file_bucket x)) x s).1.wrapper z xs)
        (sym (update_self s.heads (file_bucket x) (s.wrapper x).hash_next))
        (IsChain-update _ x _ (s.wrapper x).hash_next xs fresh
          (IsChain-update s.wrapper x _ (s.wrapper x).hash_next xs fresh c))

module _ (x y : ℕ) (xs : List ℕ) (s : Files) (host : ℕ) (mode : Option (List ℕ)) (fd : ℕ) where
  -- The state when the close waits.
  abbrev pub waiting : Files
  waiting = set_wrapper x (record (s.wrapper x) { state = file_closing }) s

  -- The state when the other thread has opened its file and the close has ended.
  abbrev pub ended : Files
  ended = (finish_close (head_of (file_bucket x)) x (wrap_file (some y) host mode fd waiting).1).1

  located :
      (fuel : ℕ)
      → IsBucket s x (x ∷ xs)
      → locate (suc fuel) x (head_of (file_bucket x)) s ≡ head_of (file_bucket x)
  unfolding locate load
  located fuel c = rw (c.0, ==_ne x 0 c.1, ==_refl x) refl

  marked :
      IsBucket s x (x ∷ xs)
      → (s.wrapper x).state ≡ file_open
      → begin_at (head_of (file_bucket x)) s ≡ some (head_of (file_bucket x), waiting)
  unfolding begin_at load
  marked c o = rw (c.0, ==_ne x 0 c.1, (==_iff (s.wrapper x).state file_open).1 o) refl

  begins :
      (fuel : ℕ)
      → IsBucket s x (x ∷ xs)
      → (s.wrapper x).state ≡ file_open
      → begin_close (suc fuel) x s ≡ some (head_of (file_bucket x), waiting)
  unfolding begin_close
  begins fuel c o = ap (λ l. begin_at l s) (located fuel c) ∙ marked c o

  rest_kept :
      IsBucket s x (x ∷ xs)
      → y ≢ x
      → IsOff x xs
      → IsOff y xs
      → IsChain
          (wrap_file (some y) host mode fd waiting).1.wrapper
          ((wrap_file (some y) host mode fd waiting).1.wrapper x).hash_next
          xs
  unfolding wrap_file set_wrapper
  rest_kept c ne off_x off_y =
      subst (λ z. IsChain (wrap_file (some y) host mode fd waiting).1.wrapper z xs) (sym same_next)
        (IsChain-update waiting.wrapper y _ (s.wrapper x).hash_next xs off_y
          (IsChain-update s.wrapper x _ (s.wrapper x).hash_next xs off_x c.2))
    where
      same_next :
          ((wrap_file (some y) host mode fd waiting).1.wrapper x).hash_next
          ≡ (s.wrapper x).hash_next
      same_next =
          ap (λ v. v.hash_next)
            (update_ne waiting.wrapper y (new_wrapper host mode fd (waiting.heads (file_bucket y)))
              x (λ e. ne (sym e)))
          ∙ ap (λ v. v.hash_next) (update_self s.wrapper x _)

  -- A file that is opened while another file's close waits, for an operation of a third thread, is
  -- lost if the closing file came first on the same chain when its close began: the close has kept
  -- the address of the chain's head, and when it goes on it writes the rest of the chain there. The
  -- new file is then not found again, so that every operation on it, its close included, fails.
  pub finish_close-wrap_file :
      (fuel n : ℕ)
      → IsBucket s x (x ∷ xs)
      → (s.wrapper x).state ≡ file_open
      → y ≢ x
      → file_bucket y ≡ file_bucket x
      → IsOff x xs
      → IsOff y xs
      → length xs < n
      → (begin_close (suc fuel) x s ≡ some (head_of (file_bucket x), waiting))
        × (find_active_file n y ended ≡ none)
  finish_close-wrap_file fuel n c o ne same off_x off_y l = (
    begins fuel c o,
    find_active_file_lem n y xs ended l (
          subst (λ b. IsChain ended.wrapper (ended.heads b) xs) (sym same)
            (finish_close-IsBucket x xs (wrap_file (some y) host mode fd waiting).1 off_x
              (rest_kept c ne off_x off_y)))
        ∙ first_match_off y xs off_y,
  )
