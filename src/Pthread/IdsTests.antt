-- ===== src/Pthread/IdsTests.antt =====
-- The theorem on thread ids at a host of eight bytes, whose thread's id fits the guest's word.
use tasm2_nextos.Prelude.{ℕ, ◌≡◌, refl, some, none, List, [], ◌∷◌, ◌+◌}
use tasm2_nextos.Pthread.State.{State}
use tasm2_nextos.Pthread.Threads.{
  ThreadHost, host_thread_to_guest, high_bytes_error, give_thread, created_thread, create_with,
  create, join,
}
use tasm2_nextos.Pthread.Ids.{join-create}

abbrev no_objects : State ℕ
no_objects = record {
  heap = λ a. none;
  registry = λ b. [];
  retired_objects = [];
  created = 0;
  active = 0;
  retired = 0;
  mutex_handoff_count = 0;
  slots = λ a. 0;
  world = 0;
}

abbrev a_thread : List ℕ
a_thread = 16 ∷ 39 ∷ 0 ∷ 7 ∷ 0 ∷ 0 ∷ 0 ∷ 0 ∷ []

-- The world counts the calls, and a join returns the count.
abbrev eight_bytes : ThreadHost ℕ
eight_bytes = record {
  size = 8;
  create_thread = λ a start arg s. ((0, a_thread), record s { world = s.world + 1 });
  detach_thread = λ t s. (0, record s { world = s.world + 1 });
  equal_threads = λ t u. 1;
  get_param = λ t s. (0, (0, 0));
  set_param = λ t policy param s. (0, s);
  join_thread = λ t s. ((0, s.world), record s { world = s.world + 1 });
  create_key = λ destructor s. ((0, s.world), s);
  self_thread = a_thread;
}

abbrev after_create : State ℕ
after_create = record no_objects { world = 1 }

created_ok :
    create eight_bytes 64 0 4096 0 no_objects ≡ ((0, some (16 ∷ 39 ∷ 0 ∷ 7 ∷ [])), after_create)
unfolding create create_with created_thread give_thread host_thread_to_guest high_bytes_error
created_ok = refl

join-create_example :
    (after_create ≡ after_create)
    × (join eight_bytes (16 ∷ 39 ∷ 0 ∷ 7 ∷ []) after_create
        ≡ eight_bytes.join_thread a_thread after_create)
join-create_example =
    join-create eight_bytes 64 0 4096 0 0 no_objects after_create after_create a_thread
      (16 ∷ 39 ∷ 0 ∷ 7 ∷ []) created_ok refl refl refl
