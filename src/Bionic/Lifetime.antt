-- ===== src/Bionic/Lifetime.antt =====
-- The life of one wrapper under any threads: the host's FILE outlives every reference to it.
use tasm2_nextos.Prelude.{
  ℕ, suc, ◌+◌, ◌-◌, ◌^◌, ◌<◌, ◌==◌, ◌≡◌, ◌≢◌, refl, sym, ap, ◌∙◌, Option, none, some, Bool, true,
  false, if◌then◌else◌, arith, inc32, some_eq, ==_iff, subst,
}
use tasm2_nextos.Bionic.Files.{
  Wrapper, file_open, file_closing, file_closed, mark_closing, mark_closed,
}
use tasm2_nextos.Bionic.Streams.{acquire_wrapper, release_wrapper}

-- A wrapper, the number of references that threads hold, and how often its FILE was handed to
-- `fclose`.
pub record Session : Type 0 where
  pub wrapper : Wrapper
  pub references : ℕ
  pub closes : ℕ

-- What a thread may do next: take a reference, while fewer than 2^32 - 1 threads have one, give one
-- back, begin a close, and end it when no operation is active.
pub data Move : Session → Session → Type 0 where
  acquire :
      (s : Session) (host : ℕ) (w : Wrapper)
      → s.references < 2 ^ 32 - 1
      → acquire_wrapper s.wrapper ≡ some (host, w)
      → Move s (record s { wrapper = w; references = s.references + 1 })
  release :
      (s : Session) (n : ℕ)
      → s.references ≡ suc n
      → Move s (record s { wrapper = release_wrapper s.wrapper; references = n })
  begin :
      (s : Session)
      → s.wrapper.state ≡ file_open
      → Move s (record s { wrapper = mark_closing s.wrapper })
  complete :
      (s : Session)
      → s.wrapper.state ≡ file_closing
      → s.wrapper.active_operations ≡ 0
      → Move s (record s { wrapper = mark_closed s.wrapper; closes = s.closes + 1 })

-- As `asm2_wrap_file` leaves it.
pub record IsNew (s : Session) : Type 0 where
  pub is_open : s.wrapper.state ≡ file_open
  pub idle : s.wrapper.active_operations ≡ 0
  pub unreferenced : s.references ≡ 0
  pub unclosed : s.closes ≡ 0
  pub present : s.wrapper.host ≢ none

-- Reachability from a session.
pub data Reach (start : Session) : Session → Type 0 where
  here : Reach start start
  there : (s t : Session) → Reach start s → Move s t → Reach start t

-- Whether the FILE is still there, and no reference outlives it.
pub record Alive (s : Session) : Type 0 where
  pub counted : s.wrapper.active_operations ≡ s.references
  pub small : s.references < 2 ^ 32
  pub present : s.wrapper.state ≢ file_closed → s.wrapper.host ≢ none
  pub before : s.wrapper.state ≢ file_closed → s.closes ≡ 0
  pub after : s.wrapper.state ≡ file_closed → (s.references ≡ 0) × (s.closes ≡ 1)

pub acquire-state :
    (v w : Wrapper) (host : ℕ)
    → acquire_wrapper v ≡ some (host, w)
    → (v.state ≡ file_open) × (w ≡ record v { active_operations = inc32 v.active_operations })
unfolding acquire_wrapper
acquire-state v w host e = choose (v.state == file_open) v.host refl e
  where
    taken :
        (o : Option ℕ)
        → (elim o as (λ c. Option (ℕ × Wrapper)) [
          | none ↦ none
          | some h ↦ some (h, record v { active_operations = inc32 v.active_operations })
        ])
          ≡ some (host, w)
        → w ≡ record v { active_operations = inc32 v.active_operations }
    taken none q = absurd (ground arith)
    taken (some h) q = sym (ap (λ z. z.1) (some_eq q))

    choose :
        (b : Bool) (o : Option ℕ)
        → (v.state == file_open) ≡ b
        → (if b
            then elim o as (λ c. Option (ℕ × Wrapper)) [
              | none ↦ none
              | some h ↦ some (h, record v { active_operations = inc32 v.active_operations })
            ]
            else none)
          ≡ some (host, w)
        → (v.state ≡ file_open) × (w ≡ record v { active_operations = inc32 v.active_operations })
    choose true o t q = ((==_iff v.state file_open).0 t, taken o q)
    choose false o t q = absurd (ground arith)

open_not_closed : (n : ℕ) → n ≡ file_open → n ≢ file_closed
open_not_closed n e f = omega arith

closing_not_closed : (n : ℕ) → n ≡ file_closing → n ≢ file_closed
closing_not_closed n e f = omega arith

acquired-Alive :
    (s : Session)
    → Alive s
    → s.wrapper.state ≡ file_open
    → s.references < 2 ^ 32 - 1
    → Alive (record s {
      wrapper = record s.wrapper { active_operations = inc32 s.wrapper.active_operations };
      references = s.references + 1;
    })
acquired-Alive s v o l = record {
  counted = omega (arith, v.counted, l);
  small = omega (arith, l);
  present = v.present;
  before = v.before;
  after = λ e. absurd (open_not_closed s.wrapper.state o e);
}

Move-Alive : (s t : Session) → Move s t → Alive s → Alive t
unfolding release_wrapper
Move-Alive _ _ (acquire s host w l e) v =
    let a = acquire-state s.wrapper w host e in
    subst (λ w. Alive (record s { wrapper = w; references = s.references + 1 })) (sym a.1)
      (acquired-Alive s v a.0 l)
Move-Alive _ _ (release s n e) v = record {
  counted = ground (arith, v.counted, e);
  small = omega (arith, v.small, e);
  present = v.present;
  before = v.before;
  after = λ c. absurd (omega (arith, e, (v.after c).0));
}
Move-Alive _ _ (begin s o) v = record {
  counted = v.counted;
  small = v.small;
  present = λ c. v.present (open_not_closed s.wrapper.state o);
  before = λ c. v.before (open_not_closed s.wrapper.state o);
  after = λ c. absurd (omega arith);
}
Move-Alive _ _ (complete s o z) v = record {
  counted = v.counted;
  small = v.small;
  present = λ c. absurd (c refl);
  before = λ c. absurd (c refl);
  after = λ c.
      (omega (arith, v.counted, z), omega (arith, v.before (closing_not_closed s.wrapper.state o)));
}

IsNew-Alive : (s : Session) → IsNew s → Alive s
IsNew-Alive s n = record {
  counted = n.idle ∙ sym n.unreferenced;
  small = omega (arith, n.unreferenced);
  present = λ c. n.present;
  before = λ c. n.unclosed;
  after = λ c. absurd (open_not_closed s.wrapper.state n.is_open c);
}

-- From a new wrapper on, in any order of the threads' acquires, releases and closes, the counter
-- of active operations is the number of references, the host's FILE is there until the close is
-- complete, and then no reference to it is left, and it was handed to `fclose` once.
pub Reach-Alive : (s t : Session) → IsNew s → Reach s t → Alive t
Reach-Alive s _ n here = IsNew-Alive s n
Reach-Alive s _ n (there u t r m) = Move-Alive u t m (Reach-Alive s u n r)
