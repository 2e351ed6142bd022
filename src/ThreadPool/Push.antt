-- ===== src/ThreadPool/Push.antt =====
-- `thread_pool_push_data`: what one call does, and that it keeps the pool well formed.
use armory.Common.{
  ℕ, ◌+◌, ◌%◌, ◌^◌, ◌<◌, ◌≡◌, refl, ap, ◌∙◌, ℤ, List, [], ◌∷◌, ◌++◌, true, false, Option, some,
  arith, ok, Returns, returns, Returns-map, length, get_elem?, set, length-set, get_elem?-some, inl,
  inr, leb, Bool-cases,
}
use native.Mathlib.Nat.{mod-lt}
use armory.ThreadPool.{
  Context, Pool, Event, created, pushed, Env, is_zero, call_push, push_to_new_thread,
  get_thread_index, serve, thread_pool_push_data,
}

pub record IsValid (pool : Pool) : Type 0 where
  pub positive : 0 < pool.thread_count
  pub small : pool.thread_count < 2 ^ 8
  pub contexts : length pool.p_contexts ≡ pool.thread_count
  pub index : pool.curr_thread_index < pool.thread_count

-- The pool with the turn passed on to the next context, round the circle.
abbrev pub advanced : Pool → Pool
advanced pool = record pool { curr_thread_index = (pool.curr_thread_index + 1) % pool.thread_count }

-- The context `c` whose turn it is gets the data, and no other is touched. A running one has
-- `push_cb` called. One that is not has a thread started first: with the thread, it is running
-- from now on, whatever `push_cb` says; without, only its id, which is of no use, has changed, and
-- the result is the code of `pthread_create`.
pub data Served (env : Env) (pool : Pool) (c : Context) (d n : ℕ) (t : List Event)
    : Option Pool × ℤ × List Event → Type 0 where
  running :
      {r : Option Pool × ℤ × List Event}
      → c.is_running ≡ true
      → r ≡ (some (advanced pool), env.push t, t ++ pushed pool.push_cb c.p_params d n ∷ [])
      → Served env pool c d n t r
  started :
      {r : Option Pool × ℤ × List Event}
      → c.is_running ≡ false
      → is_zero (env.create t).0 ≡ true
      → r ≡ (
        some (record (advanced pool) {
          p_contexts =
              set pool.p_contexts pool.curr_thread_index
                (record c { id = (env.create t).1; is_running = true });
        }),
        env.push (t ++ created pool.thread_cb c.p_params ∷ []),
        (t ++ created pool.thread_cb c.p_params ∷ []) ++ pushed pool.push_cb c.p_params d n ∷ [],
      )
      → Served env pool c d n t r
  failed :
      {r : Option Pool × ℤ × List Event}
      → c.is_running ≡ false
      → is_zero (env.create t).0 ≡ false
      → r ≡ (
        some (record (advanced pool) {
          p_contexts =
              set pool.p_contexts pool.curr_thread_index (record c { id = (env.create t).1 });
        }),
        (env.create t).0,
        t ++ created pool.thread_cb c.p_params ∷ [],
      )
      → Served env pool c d n t r

leb-false : (a b : ℕ) → b < a → leb a b ≡ false
leb-false a b h = ground arith

get_thread_index-ok :
    (pool : Pool)
    → IsValid pool
    → get_thread_index pool ≡ ok (pool.curr_thread_index, advanced pool)
unfolding get_thread_index
get_thread_index-ok pool v = ground (arith, v.positive, v.small, v.index)

serve-Served :
    (env : Env) (pool : Pool) (c : Context) (d n : ℕ) (t : List Event)
    → get_elem? pool.p_contexts pool.curr_thread_index ≡ some c
    → (let r = serve env (advanced pool) pool.curr_thread_index c d n t in
        Served env pool c d n t (some r.0, r.1, r.2))
unfolding serve call_push push_to_new_thread
serve-Served env pool c d n t here = elim (Bool-cases c.is_running) [
  | inl on ↦ running on (simp on)
  | inr off ↦ elim (Bool-cases (is_zero (env.create t).0)) [
    | inl fine ↦ started off fine (simp (off, fine))
    | inr bad ↦ failed off bad (simp (off, bad))
  ]
]

served :
    (env : Env) (pool : Pool) (c : Context) (d n : ℕ) (t : List Event)
    → IsValid pool
    → get_elem? pool.p_contexts pool.curr_thread_index ≡ some c
    → Returns (Served env pool c d n t) (thread_pool_push_data env (some pool) d n t)
unfolding thread_pool_push_data
served env pool c d n t v here =
    rw
      (get_thread_index-ok pool v, here, leb-false pool.thread_count pool.curr_thread_index v.index)
      (returns (serve-Served env pool c d n t here))

-- The outcome of a call: some context has the turn, and it is served.
abbrev pub TurnServed : Env → Pool → ℕ → ℕ → List Event → Option Pool × ℤ × List Event → Type 0
TurnServed env pool d n t r =
    (c : Context) × (get_elem? pool.p_contexts pool.curr_thread_index ≡ some c)
    × Served env pool c d n t r

-- A call on a well-formed pool returns, and serves exactly the context whose turn it is. If it runs,
-- that is one call of `push_cb`, whose result is returned. If not, a thread is created for it; if
-- that gives 0, the context is running from then on, and `push_cb` is called once, with its
-- result returned; otherwise there is no call, the context does not run, and the code that
-- `pthread_create` gave is returned as it is, not -1. The turn is passed on in each case.
pub thread_pool_push_data-TurnServed :
    (env : Env) (pool : Pool) (d n : ℕ) (t : List Event)
    → IsValid pool
    → Returns (TurnServed env pool d n t) (thread_pool_push_data env (some pool) d n t)
thread_pool_push_data-TurnServed env pool d n t v =
    let (c, here) =
      get_elem?-some pool.p_contexts pool.curr_thread_index (omega (arith, v.index, v.contexts)) in
    Returns-map (served env pool c d n t v here) (λ r s. (c, here, s))

-- What every later call can rely on.
pub record Next (pool pool' : Pool) : Type 0 where
  pub valid : IsValid pool'
  pub index : pool'.curr_thread_index ≡ (pool.curr_thread_index + 1) % pool.thread_count
  pub thread_count : pool'.thread_count ≡ pool.thread_count
  pub thread_cb : pool'.thread_cb ≡ pool.thread_cb
  pub push_cb : pool'.push_cb ≡ pool.push_cb

abbrev pub HasNext : Pool → Option Pool × ℤ × List Event → Type 0
HasNext pool r = (pool' : Pool) × (r.0 ≡ some pool') × Next pool pool'

pub advanced-Next : (pool : Pool) → IsValid pool → Next pool (advanced pool)
advanced-Next pool v = record {
  valid = record {
    positive = v.positive;
    small = v.small;
    contexts = v.contexts;
    index = mod-lt (pool.curr_thread_index + 1) v.positive;
  };
  index = refl;
  thread_count = refl;
  thread_cb = refl;
  push_cb = refl;
}

pub set-Next :
    (pool : Pool) (c : Context)
    → IsValid pool
    → Next pool
        (record (advanced pool) { p_contexts = set pool.p_contexts pool.curr_thread_index c })
set-Next pool c v = record {
  valid = record {
    positive = v.positive;
    small = v.small;
    contexts = length-set pool.p_contexts pool.curr_thread_index c ∙ v.contexts;
    index = mod-lt (pool.curr_thread_index + 1) v.positive;
  };
  index = refl;
  thread_count = refl;
  thread_cb = refl;
  push_cb = refl;
}

pub Served-HasNext :
    (env : Env) (pool : Pool) (c : Context) (d n : ℕ) (t : List Event)
    {r : Option Pool × ℤ × List Event}
    → IsValid pool
    → Served env pool c d n t r
    → HasNext pool r
Served-HasNext env pool c d n t v (running on e) =
    (advanced pool, ap (λ x. x.0) e, advanced-Next pool v)
Served-HasNext env pool c d n t v (started off fine e) = (_, ap (λ x. x.0) e, set-Next pool _ v)
Served-HasNext env pool c d n t v (failed off bad e) = (_, ap (λ x. x.0) e, set-Next pool _ v)

-- Every call keeps the pool well formed, passes the turn on by one round the circle, and leaves
-- the callbacks and the number of contexts alone, also when a thread cannot be started.
pub thread_pool_push_data-HasNext :
    (env : Env) (pool : Pool) (d n : ℕ) (t : List Event)
    → IsValid pool
    → Returns (HasNext pool) (thread_pool_push_data env (some pool) d n t)
thread_pool_push_data-HasNext env pool d n t v =
    Returns-map (thread_pool_push_data-TurnServed env pool d n t v)
      (λ r (c, here, s). Served-HasNext env pool c d n t v s)
