-- ===== src/ThreadPool/Life.antt =====
-- `create_thread_pool` and `destroy_thread_pool`: what they allocate, start with, cancel and
-- release.
use armory.Common.{
  ℕ, zero, suc, ◌+◌, ◌^◌, ◌≤◌, ◌<◌, ◌≡◌, ◌≢◌, ◌↔◌, refl, sym, ap, ◌∙◌, List, [], ◌∷◌, ◌++◌, map,
  true, false, Option, some, arith, ok, fault, Returns, returns, Returns-bind, length, get_elem?,
  get_elem?-some, get_elem?-none, inl, inr, Bool-cases, Returns-inv, if◌then◌else◌,
}
use mathlib.Core.List.{append_assoc, append-nil}
use armory.ThreadPool.{
  Context, Pool, Params, Event, pool_block, contexts_block, allocated, released, cancelled, Env,
  init_thread_contexts, check_params, allocate, build_pool, create_thread_pool, cancel_all_thread,
  destroy_thread_pool,
}
use native.Mathlib.Decide.{dec_le}
use armory.ThreadPool.Push.{IsValid}

-- A context as `init_thread_contexts` leaves it.
abbrev pub fresh : ℕ → Context
fresh p = record { id = 0; p_params = p; is_running = false }

-- One fresh context for each of the first `n` entries from index `i` on.
pub record Fresh (n : ℕ) (params : List ℕ) (i : ℕ) (contexts : List Context) : Type 0 where
  pub size : length contexts ≡ n
  pub entries :
      (k : ℕ)
      → k < n
      → (p : ℕ) × (get_elem? params (i + k) ≡ some p) × (get_elem? contexts k ≡ some (fresh p))

pub init_thread_contexts-Fresh :
    (n : ℕ) (params : List ℕ) (i : ℕ)
    → i + n ≤ length params
    → Returns (Fresh n params i) (init_thread_contexts n params i)
unfolding init_thread_contexts
init_thread_contexts-Fresh zero params i h =
    returns (record { size = refl; entries = λ k lt. absurd (omega arith) })
init_thread_contexts-Fresh (suc n) params i h =
    let (p, e) = get_elem?-some params i (omega arith) in
    rw (e, init_thread_contexts)
      (Returns-bind (init_thread_contexts-Fresh n params (i + 1) (omega arith))
        λ rest f. returns (record { size = ap suc f.size; entries = entries p e rest f }))
  where
    entries :
        (p : ℕ)
        → get_elem? params i ≡ some p
        → (rest : List Context) → Fresh n params (i + 1) rest
        → (k : ℕ) → k < suc n
        → (q : ℕ) × (get_elem? params (i + k) ≡ some q)
          × (get_elem? (fresh p ∷ rest) k ≡ some (fresh q))
    entries p e rest f zero lt =
        let e' : i + 0 ≡ i = omega arith in (p, ap (get_elem? params) e' ∙ e, refl)
    entries p e rest f (suc k) lt =
        let (q, there, new) = f.entries k (omega arith) in
        let e' : i + suc k ≡ i + 1 + k = omega arith in (q, ap (get_elem? params) e' ∙ there, new)

pub init_thread_contexts-fault :
    (n : ℕ) (params : List ℕ) (i : ℕ)
    → i ≤ length params
    → length params < i + n
    → init_thread_contexts n params i ≡ fault
unfolding init_thread_contexts
init_thread_contexts-fault zero params i le h = absurd (omega arith)
init_thread_contexts-fault (suc n) params i le h = elim (dec_le (length params) i) [
  | yes past ↦ rw (get_elem?-none params i past, init_thread_contexts)
  | no inside ↦
      let (p, e) = get_elem?-some params i (omega arith) in
      rw (
        e,
        init_thread_contexts,
        init_thread_contexts-fault n params (i + 1) (omega arith) (omega arith),
      )
]

-- What `check_params` accepts.
abbrev pub Accepted : Params → Type 0
Accepted p = (p.thread_cb ≢ 0) × (p.push_cb ≢ 0) × (0 < p.thread_count)

pub check_params_iff : (p : Params) → (check_params (some p) ≡ true) ↔ Accepted p
unfolding check_params
check_params_iff p = ground arith

-- The pool starts with its first context, none of them runs, and each has its own parameter.
pub record Started (p : Params) (pool : Pool) : Type 0 where
  pub valid : IsValid pool
  pub first : pool.curr_thread_index ≡ 0
  pub thread_cb : pool.thread_cb ≡ p.thread_cb
  pub push_cb : pool.push_cb ≡ p.push_cb
  pub contexts : Fresh p.thread_count p.pp_thread_params 0 pool.p_contexts

-- The events of a creation whose two calls of `calloc` succeed.
abbrev pub both_blocks : List Event → List Event
both_blocks t = (t ++ allocated pool_block ∷ []) ++ allocated contexts_block ∷ []

-- `calloc` finds memory for the pool, or for the contexts after it.
abbrev pub PoolFound : Env → List Event → Type 0
PoolFound env t = env.calloc pool_block t ≡ true

abbrev pub ContextsFound : Env → List Event → Type 0
ContextsFound env t = env.calloc contexts_block (t ++ allocated pool_block ∷ []) ≡ true

abbrev pub CreateDone : Params → List Event → Option Pool × List Event → Type 0
CreateDone p t r = (pool : Pool) × (r.0 ≡ some pool) × (r.1 ≡ both_blocks t) × Started p pool

abbrev BuildDone : Params → Option Pool → Type 0
BuildDone p o = (pool : Pool) × (o ≡ some pool) × Started p pool

build_pool-BuildDone :
    (p : Params)
    → 0 < p.thread_count
    → p.thread_count < 2 ^ 8
    → p.thread_count ≤ length p.pp_thread_params
    → Returns (BuildDone p) (build_pool p true true)
unfolding build_pool
build_pool-BuildDone p positive small enough =
    Returns-bind (init_thread_contexts-Fresh p.thread_count p.pp_thread_params 0 (omega arith))
      λ cs f. returns (
        _,
        refl,
        record {
          valid = record {
            positive = positive;
            small = small;
            contexts = f.size;
            index = positive;
          };
          first = refl;
          thread_cb = refl;
          push_cb = refl;
          contexts = f;
        },
      )

-- With accepted parameters, one entry of `pp_thread_params` for each thread, a count that fits
-- `uint8_t` and memory for both blocks, `create_thread_pool` returns a well-formed pool whose
-- contexts hold those entries in order, none of them running, and allocates the two blocks.
pub create_thread_pool-CreateDone :
    (env : Env) (p : Params) (t : List Event)
    → Accepted p
    → p.thread_count < 2 ^ 8
    → p.thread_count ≤ length p.pp_thread_params
    → PoolFound env t
    → ContextsFound env t
    → Returns (CreateDone p t) (create_thread_pool env (some p) t)
unfolding create_thread_pool allocate
create_thread_pool-CreateDone env p t accepted small enough pool contexts =
    rw ((check_params_iff p).1 accepted, pool, contexts)
      (Returns-bind (build_pool-BuildDone p accepted.2 small enough)
        λ o (q, e, s). returns (q, e, refl, s))

-- The ids of the running contexts, in order.
abbrev pub running_ids : List Context → List ℕ
running_ids [] = []
running_ids (c ∷ cs) = if c.is_running then c.id ∷ running_ids cs else running_ids cs

cancel_all_thread_lem :
    (cs : List Context) (t : List Event)
    → Returns (λ r. r.1 ≡ t ++ map cancelled (running_ids cs)) (cancel_all_thread (length cs) cs t)
unfolding cancel_all_thread
cancel_all_thread_lem [] t = returns (sym (append-nil t))
cancel_all_thread_lem (c ∷ cs) t = elim (Bool-cases c.is_running) [
  | inl on ↦ rw on (
      Returns-bind (cancel_all_thread_lem cs (t ++ cancelled c.id ∷ []))
        λ (rest, t') e. returns (e ∙ append_assoc t (cancelled c.id ∷ []) _))
  | inr off ↦ rw off (Returns-bind (cancel_all_thread_lem cs t) λ (rest, t') e. returns e)
]

-- Destroying a well-formed pool cancels exactly the running threads, each once and in the order
-- of the contexts, and releases both blocks.
pub destroy_thread_pool_lem :
    (pool : Pool) (t : List Event)
    → IsValid pool
    → destroy_thread_pool (some pool) t
      ≡ ok (
          (t ++ map cancelled (running_ids pool.p_contexts))
          ++ released contexts_block ∷ released pool_block ∷ [])
unfolding destroy_thread_pool
destroy_thread_pool_lem pool t v =
    let (r, e, done) = Returns-inv (rw v.contexts at (cancel_all_thread_lem pool.p_contexts t)) in
    rw (e, done)
