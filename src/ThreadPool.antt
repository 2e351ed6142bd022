-- ===== src/ThreadPool.antt =====
-- common/thread_pool/thread_pool.h and common/thread_pool/thread_pool.c. A pointer is a number,
-- 0 for NULL; the contexts stand in the pool as a list.
pub mod Push
pub mod Rounds
pub mod Life
pub mod Outside
pub mod Example
mod Tests
use armory.Common.{
  ℕ, zero, suc, ◌+◌, ◌%◌, ◌^◌, ℤ, pos, negsuc, List, [], ◌∷◌, ◌++◌, Bool, true, false, not, ◌&&◌,
  Option, none, some, Run, ok, fault, ◌>>=◌, length, get_elem?, set, ltb, leb, ◌==◌, if◌then◌else◌,
}

-- `thread_context_t`.
pub record Context : Type 0 where
  pub id : ℕ
  pub p_params : ℕ
  pub is_running : Bool

-- `struct thread_pool`.
pub record Pool : Type 0 where
  pub curr_thread_index : ℕ
  pub thread_cb : ℕ
  pub push_cb : ℕ
  pub p_contexts : List Context
  pub thread_count : ℕ

-- `pool_params_t`; a NULL `pp_thread_params` is the empty list.
pub record Params : Type 0 where
  pub thread_cb : ℕ
  pub pp_thread_params : List ℕ
  pub push_cb : ℕ
  pub thread_count : ℕ

pub data Block : Type 0 where
  pool_block contexts_block : Block

-- What the pool does to the outside: blocks of memory, threads, and calls of `push_cb`.
pub data Event : Type 0 where
  allocated released : Block → Event
  created : (thread_cb p_params : ℕ) → Event
  pushed : (push_cb p_params p_data data_len : ℕ) → Event
  cancelled : ℕ → Event

-- The outside answers each call by what has happened before.
pub record Env : Type 0 where
  -- whether `calloc` finds memory for the block
  pub calloc : Block → List Event → Bool
  -- the result of `pthread_create`, and what it leaves in the thread's id, which is arbitrary if
  -- it fails
  pub create : List Event → ℤ × ℕ
  -- the result of `push_cb`
  pub push : List Event → ℤ

-- What `==` of C says of a result and 0.
abbrev pub is_zero : ℤ → Bool
is_zero (pos n) = n == 0
is_zero (negsuc n) = false

-- `init_thread_contexts`: the loop from index `i` on, with `n` rounds left. The contexts are
-- fresh from `calloc`, so the id is 0.
unfoldable pub init_thread_contexts : ℕ → List ℕ → ℕ → Run (List Context)
init_thread_contexts zero params i = ok []
init_thread_contexts (suc n) params i = elim (get_elem? params i) [
  | none ↦ fault
  | some p ↦ do
    rest ← init_thread_contexts n params (i + 1)
    ok (record { id = 0; p_params = p; is_running = false } ∷ rest)
]

unfoldable pub check_params : Option Params → Bool
check_params none = false
check_params (some p) =
    not (p.thread_cb == 0)
    && (not (p.push_cb == 0) && (not (p.push_cb == 0) && ltb 0 p.thread_count))

-- `calloc` of one block: its event, if it succeeds.
unfoldable pub allocate : Env → Block → List Event → Bool × List Event
allocate env block trace =
    if env.calloc block trace then (true, trace ++ allocated block ∷ []) else (false, trace)

-- The part of `create_thread_pool` behind its two calls of `calloc`.
unfoldable pub build_pool : Params → Bool → Bool → Run (Option Pool)
build_pool p pool_found contexts_found =
    let build : Run (Option Pool) = do
      contexts ← init_thread_contexts p.thread_count p.pp_thread_params 0
      ok (
          some (record {
            curr_thread_index = 0;
            thread_cb = p.thread_cb;
            push_cb = p.push_cb;
            p_contexts = contexts;
            thread_count = p.thread_count;
          }))
    in if contexts_found && pool_found then build else ok none

unfoldable pub create_thread_pool :
    Env → Option Params → List Event → Run (Option Pool × List Event)
create_thread_pool env none trace = ok (none, trace)
create_thread_pool env (some p) trace =
    let (pool_found, trace1) = allocate env pool_block trace in
    let (contexts_found, trace2) = allocate env contexts_block trace1 in
    let body : Run (Option Pool × List Event) = do
      pool ← build_pool p pool_found contexts_found
      ok (pool, trace2)
    in if not (check_params (some p)) then ok (none, trace) else body

-- `push_cb(p_params, p_data, data_len)`.
unfoldable pub call_push : Env → ℕ → ℕ → ℕ → ℕ → List Event → ℤ × List Event
call_push env push_cb p_params p_data data_len trace =
    (env.push trace, trace ++ pushed push_cb p_params p_data data_len ∷ [])

-- The context, the result and the events. `pthread_create` writes to the id also where it fails.
unfoldable pub push_to_new_thread :
    Env → Pool → Context → ℕ → ℕ → List Event → Context × ℤ × List Event
push_to_new_thread env pool context p_data data_len trace =
    let (result, id) = env.create trace in
    let trace1 = trace ++ created pool.thread_cb context.p_params ∷ [] in
    let (result', trace2) = call_push env pool.push_cb context.p_params p_data data_len trace1 in
    if is_zero result
    then (record context { id = id; is_running = true }, result', trace2)
    else (record context { id = id }, result, trace1)

-- The index, and the pool with the next one. A count of 0 is a division by 0.
unfoldable pub get_thread_index : Pool → Run (ℕ × Pool)
get_thread_index pool =
    if pool.thread_count == 0
    then fault
    else ok (
      pool.curr_thread_index,
      record pool { curr_thread_index = (pool.curr_thread_index + 1) % 2 ^ 8 % pool.thread_count },
    )

-- The call of `push_cb`, or the start of a thread, for the context of the chosen index.
unfoldable pub serve : Env → Pool → ℕ → Context → ℕ → ℕ → List Event → Pool × ℤ × List Event
serve env pool thread_index context p_data data_len trace =
    let (result, trace1) = call_push env pool.push_cb context.p_params p_data data_len trace in
    let (context', result', trace2) = push_to_new_thread env pool context p_data data_len trace in
    if context.is_running
    then (pool, result, trace1)
    else (record pool { p_contexts = set pool.p_contexts thread_index context' }, result', trace2)

unfoldable pub thread_pool_push_data :
    Env → Option Pool → ℕ → ℕ → List Event → Run (Option Pool × ℤ × List Event)
thread_pool_push_data env none p_data data_len trace = ok (none, negsuc 0, trace)
thread_pool_push_data env (some pool) p_data data_len trace = do
  (thread_index, pool1) ← get_thread_index pool
  let act : Run (Option Pool × ℤ × List Event) = elim (get_elem? pool1.p_contexts thread_index) [
    | none ↦ fault
    | some context ↦
        let (pool2, result, trace1) = serve env pool1 thread_index context p_data data_len trace in
        ok (some pool2, result, trace1)
  ]
  if leb pool1.thread_count thread_index then ok (some pool1, negsuc 0, trace) else act

-- The loop of `cancel_all_thread` over the first `n` contexts that are left.
unfoldable pub cancel_all_thread : ℕ → List Context → List Event → Run (List Context × List Event)
cancel_all_thread zero contexts trace = ok (contexts, trace)
cancel_all_thread (suc n) [] trace = fault
cancel_all_thread (suc n) (c ∷ contexts) trace =
    let trace1 = if c.is_running then trace ++ cancelled c.id ∷ [] else trace in
    let c' = if c.is_running then record c { is_running = false } else c in
    do (rest, trace2) ← cancel_all_thread n contexts trace1; ok (c' ∷ rest, trace2)

unfoldable pub destroy_thread_pool : Option Pool → List Event → Run (List Event)
destroy_thread_pool none trace = ok trace
destroy_thread_pool (some pool) trace = do
  (contexts, trace1) ← cancel_all_thread pool.thread_count pool.p_contexts trace
  ok (trace1 ++ released contexts_block ∷ released pool_block ∷ [])
