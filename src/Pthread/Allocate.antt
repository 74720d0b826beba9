-- ===== src/Pthread/Allocate.antt =====
-- The outcomes of `object_allocate_locked`.
use tasm2_nextos.Prelude.{
  ℕ, ◌==◌, ltb, ◌≡◌, ◌≢◌, inl, inr, ◌||◌, some, arith, update, Bool-cases, Option-cases,
}
use tasm2_nextos.Pthread.State.{u32_max, enomem, eoverflow, Kind, State, Host, Result, ok, err}
use tasm2_nextos.Pthread.Create.{fresh_object, object_allocate}

module _ (h : Host) where
  open h use {World}

  -- `object_allocate_locked` fails, or makes a fresh object at an address that was not in use.
  pub object_allocate_cases :
      (Q : Result ℕ × State World → Type 0) (k : Kind) (owner : ℕ) (s : State World)
      → ((e : ℕ) → Q (err e, record s { world = (h.calloc s).1 }))
      → ((a : ℕ)
          → (h.calloc s).0 ≡ some a
          → a ≢ 0
          → Q (
            ok a,
            record s {
              heap = update s.heap a (some (fresh_object a owner k));
              world = (h.calloc s).1;
            },
          ))
      → Q (object_allocate h owner k s)
  unfolding object_allocate
  object_allocate_cases Q k owner s failed made = elim (Option-cases (h.calloc s).0) [
    | inl e ↦ rw (e, object_allocate) (failed enomem)
    | inr (a, e) ↦
        rw (e, object_allocate)
          (elim (Bool-cases (a == 0 || ltb u32_max a)) [
            | inl big ↦ rw big (failed eoverflow)
            | inr fits ↦ rw fits (made a e (ground arith))
          ])
  ]
