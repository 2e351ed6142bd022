-- ===== src/ThreadPool/Tests.antt =====
-- Runs of common/thread_pool/thread_pool.c with two threads, and the theorems at them.
use armory.Common.{
  ◌↔◌, ℕ, ◌<◌, ◌≡◌, refl, pos, negsuc, List, [], ◌∷◌, ◌++◌, map, true, false, none, some, arith, ok,
  fault, Returns,
}
use armory.ThreadPool.{
  Pool, Params, pool_block, contexts_block, allocated, released, created, pushed, cancelled, Env,
  call_push, push_to_new_thread, get_thread_index, serve, thread_pool_push_data, create_thread_pool,
  check_params, allocate, build_pool, cancel_all_thread, destroy_thread_pool,
}
use armory.ThreadPool.Push.{
  IsValid, TurnServed, HasNext, thread_pool_push_data-TurnServed, thread_pool_push_data-HasNext,
}
use armory.ThreadPool.Rounds.{Running, push_all, push_all-starts_all}
use armory.ThreadPool.Life.{
  Accepted, CreateDone, both_blocks, running_ids, create_thread_pool-CreateDone,
  destroy_thread_pool_lem,
}
use armory.ThreadPool.Outside.{create_thread_pool-fault}
use armory.ThreadPool.Example.{main, main_balanced}

-- Memory is found, threads start with id 7, and `push_cb` succeeds.
abbrev willing : Env
willing = record { calloc = λ b t. true; create = λ t. (pos 0, 7); push = λ t. pos 0 }

-- No memory for the contexts, and no thread can be started.
abbrev stingy : Env
stingy = record {
  calloc = λ b t. elim b [ pool_block ↦ true | contexts_block ↦ false ];
  create = λ t. (pos 11, 0);
  push = λ t. pos 0;
}

abbrev params : Params
params = record { thread_cb = 1; pp_thread_params = 100 ∷ 200 ∷ []; push_cb = 2; thread_count = 2 }

abbrev half_running : Pool
half_running = record {
  curr_thread_index = 1;
  thread_cb = 1;
  push_cb = 2;
  p_contexts =
      record { id = 7; p_params = 100; is_running = true }
      ∷ record { id = 0; p_params = 200; is_running = false }
      ∷ [];
  thread_count = 2;
}

abbrev requests : List (ℕ × ℕ)
requests = (30, 4) ∷ (31, 4) ∷ []

half_running-IsValid : IsValid half_running
half_running-IsValid = record {
  positive = omega arith;
  small = omega arith;
  contexts = refl;
  index = omega arith;
}

accepted : Accepted params
accepted = (omega arith, omega arith, omega arith)

push_run :
    thread_pool_push_data willing (some half_running) 30 4 []
    ≡ ok (
      some (record half_running {
        curr_thread_index = 0;
        p_contexts =
            record { id = 7; p_params = 100; is_running = true }
            ∷ record { id = 7; p_params = 200; is_running = true }
            ∷ [];
      }),
      pos 0,
      created 1 200 ∷ pushed 2 200 30 4 ∷ [],
    )
unfolding thread_pool_push_data get_thread_index serve call_push push_to_new_thread
push_run = refl

push_no_pool : thread_pool_push_data willing none 30 4 [] ≡ ok (none, negsuc 0, [])
unfolding thread_pool_push_data
push_no_pool = refl

destroy_run :
    destroy_thread_pool (some half_running) []
    ≡ ok (cancelled 7 ∷ released contexts_block ∷ released pool_block ∷ [])
unfolding destroy_thread_pool cancel_all_thread
destroy_run = refl

thread_pool_push_data-TurnServed_example :
    Returns
      (TurnServed stingy half_running 30 4 [])
      (thread_pool_push_data stingy (some half_running) 30 4 [])
thread_pool_push_data-TurnServed_example =
    thread_pool_push_data-TurnServed stingy half_running 30 4 [] half_running-IsValid

thread_pool_push_data-HasNext_example :
    Returns (HasNext half_running) (thread_pool_push_data stingy (some half_running) 30 4 [])
thread_pool_push_data-HasNext_example =
    thread_pool_push_data-HasNext stingy half_running 30 4 [] half_running-IsValid

push_all-starts_all_example :
    Returns
      (λ r.
        (pool' : Pool) × (r.0 ≡ some pool') × IsValid pool' × ((i : ℕ) → i < 2 → Running pool' i))
      (push_all willing (some half_running) requests [])
push_all-starts_all_example =
    push_all-starts_all willing half_running requests [] (λ t. refl) half_running-IsValid
      (omega arith)

create_thread_pool-CreateDone_example :
    Returns (CreateDone params []) (create_thread_pool willing (some params) [])
create_thread_pool-CreateDone_example =
    create_thread_pool-CreateDone willing params [] accepted (omega arith) (omega arith) refl refl

create_thread_pool-fault_example :
    (let short = record params { pp_thread_params = [] } in
      (create_thread_pool willing (some short) [] ≡ fault) ↔ (
        Accepted short
        × (0 < 2)
        × (willing.calloc pool_block [] ≡ true)
        × (willing.calloc contexts_block (allocated pool_block ∷ []) ≡ true)))
create_thread_pool-fault_example =
    create_thread_pool-fault willing (record params { pp_thread_params = [] }) []

-- With memory for the pool only, the block is never released.
create_leak_run : create_thread_pool stingy (some params) [] ≡ ok (none, allocated pool_block ∷ [])
unfolding create_thread_pool check_params allocate build_pool
create_leak_run = refl

destroy_thread_pool_lem_example :
    destroy_thread_pool (some half_running) []
    ≡ ok (
        map cancelled (running_ids half_running.p_contexts)
        ++ released contexts_block ∷ released pool_block ∷ [])
destroy_thread_pool_lem_example = destroy_thread_pool_lem half_running [] half_running-IsValid

main_balanced_run :
    main willing true [] ≡ ok (both_blocks [] ++ released contexts_block ∷ released pool_block ∷ [])
main_balanced_run = main_balanced willing [] refl refl
