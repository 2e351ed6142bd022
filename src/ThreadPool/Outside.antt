-- ===== src/ThreadPool/Outside.antt =====
-- When `create_thread_pool` reads outside the entries that it is given.
use armory.Common.{
  not_fault, none, ◌>>=◌, Bool, ◌&&◌, ◌≤◌, ◌<◌, ◌≡◌, ◌↔◌, refl, ap, List, [], ◌∷◌, ◌++◌, true,
  false, some, arith, ok, fault, length, inl, inr, Bool-cases, Returns-inv,
}
use armory.ThreadPool.{
  Context, Pool, Params, Event, pool_block, contexts_block, allocated, Env, check_params, allocate,
  build_pool, create_thread_pool,
}
use native.Mathlib.Decide.{dec_lt}
use armory.ThreadPool.Life.{
  init_thread_contexts-Fresh, init_thread_contexts-fault, check_params_iff, Accepted, PoolFound,
  ContextsFound,
}

build_pool-fault :
    (p : Params) → length p.pp_thread_params < p.thread_count → build_pool p true true ≡ fault
unfolding build_pool
build_pool-fault p short =
    rw
      (init_thread_contexts-fault p.thread_count p.pp_thread_params 0 (omega arith)
        (omega (arith, short)))
      refl

-- A new pool with these contexts.
abbrev pool_with : Params → List Context → Pool
pool_with p contexts = record {
  curr_thread_index = 0;
  thread_cb = p.thread_cb;
  push_cb = p.push_cb;
  p_contexts = contexts;
  thread_count = p.thread_count;
}

build_pool-ok :
    (p : Params)
    → p.thread_count ≤ length p.pp_thread_params
    → (pool : Pool) × (build_pool p true true ≡ ok (some pool))
unfolding build_pool
build_pool-ok p enough =
    let (contexts, e, f) =
      Returns-inv
        (init_thread_contexts-Fresh p.thread_count p.pp_thread_params 0 (omega (arith, enough))) in
    (pool_with p contexts, ap (λ m. m >>= λ contexts. ok (some (pool_with p contexts))) e)

and_false : (b : Bool) → b && false ≡ false
and_false true = refl
and_false false = refl

build_pool-none :
    (p : Params) (pool contexts : Bool)
    → contexts && pool ≡ false
    → build_pool p pool contexts ≡ ok none
unfolding build_pool
build_pool-none p pool contexts lacks = rw lacks refl

-- `create_thread_pool` reads outside `pp_thread_params` exactly if `check_params` accepts the
-- parameters, both blocks find memory, and there are fewer entries than threads, a NULL pointer
-- among them: `check_params` does not look at the entries.
pub create_thread_pool-fault :
    (env : Env) (p : Params) (t : List Event)
    → (create_thread_pool env (some p) t ≡ fault) ↔ (
        Accepted p
        × (length p.pp_thread_params < p.thread_count)
        × PoolFound env t
        × ContextsFound env t)
unfolding create_thread_pool allocate
create_thread_pool-fault env p t = (
  λ faults. elim (Bool-cases (check_params (some p))) [
    | inr refused ↦ absurd (not_fault (rw refused at faults))
    | inl accepted ↦ elim (Bool-cases (env.calloc pool_block t)) [
      | inr no_pool ↦
          absurd
            (not_fault (rw (accepted, no_pool, build_pool-none p false _ (and_false _)) at faults))
      | inl pool ↦ elim (Bool-cases (env.calloc contexts_block (t ++ allocated pool_block ∷ []))) [
        | inr no_contexts ↦ absurd (
            not_fault
              (rw (accepted, pool, no_contexts, build_pool-none p true false refl) at faults))
        | inl contexts ↦ elim (dec_lt (length p.pp_thread_params) p.thread_count) [
          | yes short ↦ ((check_params_iff p).0 accepted, short, pool, contexts)
          | no enough ↦
              let (made, e) = build_pool-ok p (omega (arith, enough)) in
              absurd (not_fault (rw (accepted, pool, contexts, e) at faults))
        ]
      ]
    ]
  ],
  λ (accepted, short, pool, contexts).
      rw ((check_params_iff p).1 accepted, pool, contexts, build_pool-fault p short) refl,
)
