-- ===== src/Pthread/Tests.antt =====
-- A concrete host and state, on which the theorems about the pthread bridge are applied.
use tasm2_nextos.Prelude.{
  ℕ, ◌+◌, ◌==◌, ◌≡◌, ◌≢◌, inl, inr, ◌∙◌, sym, ap, subst, refl, Bool, true, none, some, List, [],
  ◌∷◌, arith, update, if◌then◌else◌, Bool-cases, ==_iff, some_eq,
}
use tasm2_nextos.Pthread.State.{mutex, Object, State, Host, ok}
use tasm2_nextos.Pthread.Registry.{
  registry_bucket, matches, scan, registry_find, object_publish, object_retire,
}
use tasm2_nextos.Pthread.Registry.Find.{On, Fits, registry_find_sound}
use tasm2_nextos.Pthread.Registry.Table.{Distinct, Linked}
use tasm2_nextos.Pthread.Registry.Complete.{registry_find_complete, find-object_publish}
use tasm2_nextos.Pthread.Create.{
  fresh_object, object_allocate, publish_or_free, create, create_decoded, get_or_create,
  guest_mutex_type_to_host, mutex_host_init, static_mutex_type,
}
use tasm2_nextos.Pthread.Mutex.{may_release, released, release_host}
use tasm2_nextos.Pthread.Lazy.{get_or_create_twice}
use tasm2_nextos.Pthread.Tracking.{
  acquired_times, released_times, released_times-acquired_times, Unlocks, release_host_lem,
}
use tasm2_nextos.Pthread.Api.{Op, mutex_lock, mutex_unlock, mutex_destroy, sem_init, run}
use tasm2_nextos.Pthread.Stable.{Rely}
use tasm2_nextos.Pthread.Invariant.{Inv, run-Inv}
use tasm2_nextos.Pthread.Stale.{IsRetired, find-run-object_retire}
use tasm2_nextos.Prelude.Int.{pos}
use tasm2_nextos.Pthread.State.{or_fail, host_call, modify_object}
use tasm2_nextos.Pthread.Mutex.{
  current_owner, releasing, record_releasing, settle_unlock, owned_once, handoff_result,
  handoff_object, handoff_end,
}
use tasm2_nextos.Pthread.Handoff.{handed_off, handed_back, handoff_lem}
use tasm2_nextos.Pthread.Once.{
  ready, waiting, running, Once, settle, complete, enters, wakes, completes, here, next, fresh,
}
use tasm2_nextos.Pthread.Once.Safety.{Safe, Reach-Safe}

-- Objects follow one another from the world's number on, every call succeeds, and no other thread
-- runs.
abbrev plain : Host
plain = record {
  World = ℕ;
  enter = λ s. s;
  calloc =
      λ s. elim (s.heap s.world) [ none ↦ (some s.world, s.world + 72) | some _ ↦ (none, s.world) ];
  call = λ self c w. (0, w);
  query = λ q w. (0, 0);
  block = λ self b s. (0, s);
  sem_call = λ self c w. (none, w);
  sem_block = λ self a s. (none, s);
  sem_getvalue = λ a w. (none, 0);
  normal = 0;
  recursive = 1;
  errorcheck = 2;
  default_type = 0;
  detached = 1;
  joinable = 0;
}

abbrev empty : State ℕ
empty = record {
  heap = λ a. none;
  registry = λ b. [];
  retired_objects = [];
  created = 0;
  active = 0;
  retired = 0;
  mutex_handoff_count = 0;
  slots = λ a. 0;
  world = 4096;
}

empty-Inv : Inv empty
empty-Inv = record {
  nonnull = refl;
  headers = λ a o e. cc;
  linked = λ b a on. absurd on;
  complete = λ a o e l. cc;
  distinct = λ b. tt;
  dead = λ a on. absurd on;
}

plain-Rely : (P : State ℕ → Type 0) → Rely plain P
plain-Rely P = record {
  fresh = λ s a e. ground arith;
  enter = λ s p. p;
  block = λ self b s p. p;
  sem_block = λ self a s p. p;
}

-- The mutex that the guest's word at 64 names, before and after that.
abbrev a_mutex : Object
a_mutex = fresh_object 4096 64 mutex

abbrev one_mutex : State ℕ
one_mutex = record empty {
  heap = update (λ a. none) 4096 (some a_mutex);
  registry = update (λ b. []) 16 (4096 ∷ []);
  created = 1;
  active = 1;
  slots = update (λ a. 0) 64 4096;
  world = 4168;
}

only_mutex : (a : ℕ) (o : Object) → one_mutex.heap a ≡ some o → (a ≡ 4096) × (a_mutex ≡ o)
only_mutex a o e = elim (Bool-cases (a == 4096)) [
  | inl q ↦ ((==_iff a 4096).0 q, some_eq (sym (ap (λ b. if b then some a_mutex else none) q) ∙ e))
  | inr q ↦ absurd (nothing (sym (ap (λ b. if b then some a_mutex else none) q) ∙ e))
]
  where
    nothing : none ≡ some o → ⊥
    nothing e = cc

one_mutex-Inv : Inv one_mutex
unfolding registry_bucket
one_mutex-Inv = record {
  nonnull = refl;
  headers = λ a o e.
      let (q, same) = only_mutex a o e in
      (
        sym (ap (λ (x : Object). x.raw_handle) same) ∙ sym q,
        sym (ap (λ (x : Object). x.magic) same),
      );
  linked = λ b a on. on_chain b a on;
  complete = λ a o e live.
      let (q, same) = only_mutex a o e in
      subst (λ x. On x (one_mutex.registry (registry_bucket x))) (sym q) (inl refl);
  distinct = λ b. distinct_chain b;
  dead = λ a on. absurd on;
}
  where
    chain_of : Bool → List ℕ
    chain_of b = if b then 4096 ∷ [] else []

    distinct_chain : (b : ℕ) → Distinct (one_mutex.registry b)
    distinct_chain b = elim (Bool-cases (b == 16)) [
      | inl q ↦ subst (λ t. Distinct (if t then 4096 ∷ [] else [])) (sym q) (λ on. on, tt)
      | inr q ↦ subst (λ t. Distinct (if t then 4096 ∷ [] else [])) (sym q) tt
    ]

    linked_at : (b a : ℕ) → b ≡ 16 → On a (4096 ∷ []) → Linked one_mutex.heap b a
    linked_at b a q (inl e) =
        subst (λ x. Linked one_mutex.heap b x) (sym e)
          (record { object = a_mutex; stored = refl; live = refl; bucket = sym q })
    linked_at b a q (inr e) = absurd e

    on_chain : (b a : ℕ) → On a (one_mutex.registry b) → Linked one_mutex.heap b a
    on_chain b a on = elim (Bool-cases (b == 16)) [
      | inl q ↦
          linked_at b a ((==_iff b 16).0 q) (subst (λ t. On a (if t then 4096 ∷ [] else [])) q on)
      | inr q ↦ absurd (subst (λ t. On a (if t then 4096 ∷ [] else [])) q on)
    ]

abbrev history : List (ℕ × Op)
history =
    (7, mutex_lock 64) ∷ (7, mutex_unlock 64) ∷ (8, sem_init 96 0 2) ∷ (7, mutex_destroy 64) ∷ []

run-Inv_example : Inv (run plain history empty)
run-Inv_example = run-Inv plain history empty (plain-Rely Inv) empty-Inv

find-run-object_retire_example :
    registry_find (run plain history (object_retire 4096 one_mutex)) 4096 64 mutex ≡ none
find-run-object_retire_example =
    find-run-object_retire plain history one_mutex 4096 a_mutex 64 mutex (plain-Rely Inv)
      (plain-Rely (IsRetired 4096)) one_mutex-Inv refl

registry_find_complete_example : registry_find one_mutex 4096 64 mutex ≡ some 4096
registry_find_complete_example =
    registry_find_complete one_mutex 4096 a_mutex one_mutex-Inv refl refl

found_one : registry_find one_mutex 4096 64 mutex ≡ some 4096
unfolding registry_find registry_bucket scan matches
found_one = refl

registry_find_sound_example :
    (o : Object) × (one_mutex.heap 4096 ≡ some o)
    × Fits o 4096 64 mutex
    × On 4096 (one_mutex.registry (registry_bucket 4096))
    × (◌≢◌ {A = ℕ} 4096 0)
registry_find_sound_example = registry_find_sound one_mutex 4096 64 mutex 4096 found_one

find-object_publish_example :
    registry_find
      (object_publish 4096 one_mutex)
      ((object_publish 4096 one_mutex).slots 64)
      64
      mutex
    ≡ some 4096
find-object_publish_example =
    find-object_publish one_mutex 4096 a_mutex refl refl (λ e. ground arith) refl refl

made_once :
    (get_or_create plain mutex static_mutex_type (mutex_host_init plain 7) (λ t. t) 64 empty).0
    ≡ ok 4096
unfolding get_or_create registry_find create_decoded create object_allocate publish_or_free
    mutex_host_init guest_mutex_type_to_host static_mutex_type
made_once = refl

abbrev after_first : State ℕ
after_first =
    (get_or_create plain mutex static_mutex_type (mutex_host_init plain 7) (λ t. t) 64 empty).1

get_or_create_twice_example :
    get_or_create plain mutex static_mutex_type (mutex_host_init plain 7) (λ t. t) 64 after_first
    ≡ (ok 4096, after_first)
get_or_create_twice_example =
    get_or_create_twice plain mutex 64 static_mutex_type (mutex_host_init plain 7) (λ t. t) empty
      4096 (λ e. ground arith) made_once

released_times-acquired_times_example : released_times 3 (acquired_times 3 7 a_mutex) ≡ a_mutex
released_times-acquired_times_example =
    released_times-acquired_times 7 a_mutex (refl, refl) 3 (ground arith)

decoded_one : guest_mutex_type_to_host plain 1 ≡ ok 1
unfolding guest_mutex_type_to_host
decoded_one = refl

-- The mutex, held by thread 7 at depth one, and after it was handed off.
abbrev held_mutex : Object
held_mutex = record a_mutex { mutex_owner = 7; mutex_depth = 1 }

abbrev one_held : State ℕ
one_held = record one_mutex { heap = update (λ a. none) 4096 (some held_mutex) }

release_host_lem_example :
    Unlocks plain 7 4096 one_held held_mutex (release_host plain 7 4096 one_held)
release_host_lem_example = release_host_lem plain 7 4096 one_held held_mutex refl

abbrev freed_mutex : Object
freed_mutex = record a_mutex { mutex_owner = 0; mutex_depth = 0 }

abbrev held_state : State ℕ
held_state = record one_mutex { heap = update (λ a. none) 4096 (some held_mutex) }

held_owned : owned_once 7 (some held_mutex) ≡ true
unfolding owned_once current_owner
held_owned = refl

handed_off_stored : (handoff_object plain 7 4096 held_state).1.heap 4096 ≡ some freed_mutex
unfolding handoff_object handoff_result release_host record_releasing releasing may_release released
    owned_once current_owner settle_unlock or_fail host_call modify_object
handed_off_stored = refl

not_owner : freed_mutex.mutex_owner ≢ current_owner 7
unfolding current_owner
not_owner e = ground arith

handoff_lem_example :
    (((handoff_object plain 7 4096 held_state).0 ≡ (pos 1, some (handed_off 4096)))
      × ((handoff_object plain 7 4096 held_state).1.heap 4096 ≡ some freed_mutex))
    × (((handoff_end plain 7 (some (handed_off 4096)) (handoff_object plain 7 4096 held_state).1).0
          ≡ (0, some handed_back))
        × ((handoff_end plain 7
                (some (handed_off 4096))
                (handoff_object plain 7 4096 held_state).1).1.heap
              4096
            ≡ some held_mutex))
handoff_lem_example =
    handoff_lem plain 7 4096 held_state held_mutex freed_mutex (λ e. ground arith) refl held_owned
      refl refl handed_off_stored not_owner

-- Two calls of `asm2_pthread_once`: the first runs the routine, while the second waits.
abbrev both_called : Once
both_called = settle 4 (settle 3 fresh)

first_runs : both_called.phase 3 ≡ running
unfolding settle
first_runs = refl

second_waits : (complete 3 both_called).phase 4 ≡ waiting
unfolding settle complete
second_waits = refl

second_ready : (settle 3 fresh).phase 4 ≡ ready
unfolding settle
second_ready = refl

Reach-Safe_example : Safe (settle 4 (complete 3 both_called))
Reach-Safe_example = Reach-Safe (settle 4 (complete 3 both_called)) (
    next
      (next (next (next here (enters fresh 3 refl)) (enters (settle 3 fresh) 4 second_ready))
        (completes both_called 3 first_runs))
      (wakes (complete 3 both_called) 4 second_waits))
