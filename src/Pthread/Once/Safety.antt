-- ===== src/Pthread/Once/Safety.antt =====
-- `asm2_pthread_once` runs the routine for one call at a time, and completes it at most once.
use tasm2_nextos.Prelude.{ℕ, ◌==◌, ◌≤◌, ◌≡◌, refl, arith, if◌then◌else◌}
use tasm2_nextos.Pthread.Once.{
  running, returned, Once, settle, complete, once_init_cancelled, Step, enters, wakes, completes,
  is_cancelled, Reach, here, next, fresh,
}

-- At most one call runs the routine, and the word is 1 then; the word is 2 when the routine has
-- returned, which it did once, and only then has any call returned, with 0.
pub record Safe (s : Once) : Type 0 where
  pub range : s.control ≤ 2
  pub alone : (t u : ℕ) → s.phase t ≡ running → s.phase u ≡ running → t ≡ u
  pub busy : (t : ℕ) → s.phase t ≡ running → s.control ≡ 1
  pub once : s.completed ≡ (if s.control == 2 then 1 else 0)
  pub told : (t e : ℕ) → s.phase t ≡ returned e → (e ≡ 0) × (s.control ≡ 2)

settle-Safe : (s : Once) (c : ℕ) → Safe s → Safe (settle c s)
unfolding settle
settle-Safe s c v = record {
  range = ground (arith, v.range);
  alone = λ t u p q. ground (arith, v.alone t u, v.busy t, v.busy u, v.range);
  busy = λ t p. ground (arith, v.busy t, v.range);
  once = ground (arith, v.once, v.range);
  told = λ t e p. ground (arith, v.told t e, v.range);
}

complete-Safe : (s : Once) (c : ℕ) → s.phase c ≡ running → Safe s → Safe (complete c s)
unfolding complete
complete-Safe s c r v = record {
  range = ground arith;
  alone = λ t u p q. ground (arith, v.alone t u);
  busy = λ t p. ground (arith, v.alone t c);
  once = ground (arith, v.once, v.busy c);
  told = λ t e p. ground (arith, v.told t e);
}

once_init_cancelled-Safe :
    (s : Once) (c : ℕ) → s.phase c ≡ running → Safe s → Safe (once_init_cancelled c s)
unfolding once_init_cancelled
once_init_cancelled-Safe s c r v = record {
  range = ground (arith, v.range);
  alone = λ t u p q. ground (arith, v.alone t u);
  busy = λ t p. ground (arith, v.alone t c);
  once = ground (arith, v.once, v.busy c);
  told = λ t e p. ground (arith, v.told t e, v.busy c);
}

Step-Safe : {s t : Once} → Step s t → Safe s → Safe t
Step-Safe (enters s c e) v = settle-Safe s c v
Step-Safe (wakes s c e) v = settle-Safe s c v
Step-Safe (completes s c e) v = complete-Safe s c e v
Step-Safe (is_cancelled s c e) v = once_init_cancelled-Safe s c e v

Reach-Safe_from : {s t : Once} → Safe s → Reach s t → Safe t
Reach-Safe_from v here = v
Reach-Safe_from v (next r step) = Step-Safe step (Reach-Safe_from v r)

-- From PTHREAD_ONCE_INIT, in whatever order the calls for a control word run, wake, complete and
-- are cancelled, at most one of them is in the routine, and the word is 1 then; the word is 0, 1 or
-- 2; the routine has returned once if the word is 2, and not at all before; and a call that has
-- returned did so with 0 and after the routine had.
pub Reach-Safe : (s : Once) → Reach fresh s → Safe s
Reach-Safe s r =
    Reach-Safe_from
      (record {
        range = omega arith;
        alone = λ t u p q. cc;
        busy = λ t p. cc;
        once = refl;
        told = λ t e p. cc;
      })
      r
