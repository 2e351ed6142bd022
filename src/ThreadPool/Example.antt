-- ===== src/ThreadPool/Example.antt =====
-- common/thread_pool/main.c: a pool of three threads is created and destroyed. Printing and the
-- array of parameters, which holds three NULL pointers, are the program's own.
use armory.Common.{
  ℕ, suc, ◌<◌, ◌≡◌, refl, ap, List, [], ◌∷◌, ◌++◌, Bool, true, false, Option, none, some, arith,
  Run, ok, ◌>>=◌, Returns-inv, length, get_elem?, if◌then◌else◌,
}
use mathlib.Core.List.{append-nil}
use armory.ThreadPool.{
  Context, Pool, Params, Event, pool_block, contexts_block, released, Env, create_thread_pool,
  destroy_thread_pool,
}
use armory.ThreadPool.Life.{
  fresh, Started, Accepted, PoolFound, ContextsFound, both_blocks, running_ids,
  create_thread_pool-CreateDone, destroy_thread_pool_lem,
}

-- The addresses of `thread_func` and `push_cb`.
abbrev pub main_params : List ℕ → Params
main_params pp_thread_params = record {
  thread_cb = 1;
  pp_thread_params = pp_thread_params;
  push_cb = 2;
  thread_count = 3;
}

-- `main`; `found` says whether `calloc` finds memory for the array of parameters.
unfoldable pub main : Env → Bool → List Event → Run (List Event)
main env found t = do
  (pool, t1) ← create_thread_pool env (some (main_params (if found then 0 ∷ 0 ∷ 0 ∷ [] else []))) t
  elim pool [ none ↦ ok t1 | some p ↦ destroy_thread_pool (some p) t1 ]

running_ids-fresh :
    (cs : List Context)
    → ((k : ℕ) → k < length cs → (p : ℕ) × (get_elem? cs k ≡ some (fresh p)))
    → running_ids cs ≡ []
running_ids-fresh [] h = refl
running_ids-fresh (c ∷ cs) h =
    let (p, e) = h 0 (omega arith) in
    let off : c.is_running ≡ false = ap (λ x. x.is_running) (first c (fresh p) e) in
    rw off (running_ids-fresh cs (λ k lt. h (suc k) (omega arith)))
  where
    first : (x y : Context) → some x ≡ some y → x ≡ y
    first x y e = ground arith

-- A pool that is destroyed with none of its threads started: no thread is cancelled, and both
-- blocks are released.
destroy-Started :
    (p : Params) (pool : Pool) (t : List Event)
    → Started p pool
    → destroy_thread_pool (some pool) t
      ≡ ok (t ++ released contexts_block ∷ released pool_block ∷ [])
destroy-Started p pool t s =
    let none' =
      running_ids-fresh pool.p_contexts
        (λ k lt. let (q, _, e) = s.contexts.entries k (omega (arith, s.contexts.size)) in (q, e)) in
    rw (destroy_thread_pool_lem pool t s.valid, none', append-nil t)

finish :
    (p : Params) (o : Option Pool) (t1 : List Event) {t : List Event} (q : Pool)
    → o ≡ some q
    → t1 ≡ t
    → Started p q
    → (elim o [ none ↦ ok t1 | some p' ↦ destroy_thread_pool (some p') t1 ])
      ≡ ok (t ++ released contexts_block ∷ released pool_block ∷ [])
finish p o t1 q e1 e2 s = rw (e1, e2) (destroy-Started p q _ s)

-- With memory for its three blocks the example creates no thread, and ends with both blocks of
-- the pool released.
pub main_balanced :
    (env : Env) (t : List Event)
    → PoolFound env t
    → ContextsFound env t
    → main env true t ≡ ok (both_blocks t ++ released contexts_block ∷ released pool_block ∷ [])
unfolding main
main_balanced env t pool contexts =
    let p = main_params (0 ∷ 0 ∷ 0 ∷ []) in
    let accepted : Accepted p = (omega arith, omega arith, omega arith) in
    let (r, e, (q, e1, e2, s)) =
      Returns-inv (
        create_thread_pool-CreateDone env p t accepted (omega arith) (omega arith) pool contexts) in
    rw e (finish p r.0 r.1 q e1 e2 s)
