-- ===== src/ThreadPool/Rounds.antt =====
-- Many calls of `thread_pool_push_data` in a row: the turn goes round, and the threads start.
use armory.Common.{
  ℕ, zero, suc, ◌+◌, ◌-◌, ◌%◌, ◌≤◌, ◌<◌, ◌≡◌, refl, ap, ◌∙◌, ℤ, List, [], ◌∷◌, Bool, true, false,
  Option, some, arith, Run, ok, ◌>>=◌, Returns, returns, Returns-bind, Returns-map, length,
  get_elem?, set, get_elem?-set,
}
use native.Mathlib.Nat.{mod-add-mod, mod-eq_of_lt, add-mod_right}
use native.Mathlib.Decide.{dec_le, ℕ_discrete}
use armory.ThreadPool.{Context, Pool, Event, Env, is_zero, thread_pool_push_data}
use armory.ThreadPool.Push.{
  IsValid, advanced, Served, Next, thread_pool_push_data-TurnServed, advanced-Next, set-Next,
}

-- The calls for a list of data and lengths, in order; the pool and the events at the end.
unfoldable pub push_all :
    Env → Option Pool → List (ℕ × ℕ) → List Event → Run (Option Pool × List Event)
push_all env pool [] t = ok (pool, t)
push_all env pool ((d, n) ∷ rest) t = do
  (pool', result, t') ← thread_pool_push_data env pool d n t
  push_all env pool' rest t'

-- The context at index `i` is running.
abbrev pub Running : Pool → ℕ → Type 0
Running pool i = (c : Context) × (get_elem? pool.p_contexts i ≡ some c) × (c.is_running ≡ true)

-- Every thread can be started.
abbrev pub CanStart : Env → Type 0
CanStart env = (t : List Event) → is_zero (env.create t).0 ≡ true

-- A call with the turn at `pool` leads to `pool'`: what runs goes on, and the one served runs.
record Grown (pool pool' : Pool) : Type 0 where
  next : Next pool pool'
  keeps : (i : ℕ) → Running pool i → Running pool' i
  starts : Running pool' pool.curr_thread_index

Grown-same :
    (pool : Pool) (c : Context)
    → get_elem? pool.p_contexts pool.curr_thread_index ≡ some c
    → c.is_running ≡ true
    → Next pool (advanced pool)
    → Grown pool (advanced pool)
Grown-same pool c here on next = record { next = next; keeps = λ i r. r; starts = (c, here, on) }

Grown-set :
    (pool : Pool) (c : Context)
    → IsValid pool
    → c.is_running ≡ true
    → (let pool' = record (advanced pool) {
      p_contexts = set pool.p_contexts pool.curr_thread_index c;
    } in
        Next pool pool' → Grown pool pool')
Grown-set pool c v on next =
    let k = pool.curr_thread_index in
    let at_k = get_elem?-set pool.p_contexts k in
    let inside : k < length pool.p_contexts = omega (arith, v.index, v.contexts) in
    record {
      next = next;
      keeps = λ i (x, there, r). elim (ℕ_discrete k i) [
        | yes e ↦ (c, ground (arith, at_k i c inside), on)
        | no n ↦ (x, ground (arith, at_k i c inside), r)
      ];
      starts = (c, ground (arith, at_k k c inside), on);
    }

clash : {b : Bool} → b ≡ true → b ≡ false → ⊥
clash p q = cc

Served-Grown :
    (env : Env) (pool : Pool) (c : Context) (d n : ℕ) (t : List Event)
    {r : Option Pool × ℤ × List Event}
    → CanStart env
    → IsValid pool
    → get_elem? pool.p_contexts pool.curr_thread_index ≡ some c
    → Served env pool c d n t r
    → (pool' : Pool) × (r.0 ≡ some pool') × Grown pool pool'
Served-Grown env pool c d n t can v here (Served.running on e) =
    (advanced pool, ap (λ x. x.0) e, Grown-same pool c here on (advanced-Next pool v))
Served-Grown env pool c d n t can v here (Served.started off fine e) =
    (_, ap (λ x. x.0) e, Grown-set pool _ v refl (set-Next pool _ v))
Served-Grown env pool c d n t can v here (Served.failed off bad e) = absurd (clash (can t) bad)

call-Grown :
    (env : Env) (pool : Pool) (d n : ℕ) (t : List Event)
    → CanStart env
    → IsValid pool
    → Returns
        (λ r. (pool' : Pool) × (r.0 ≡ some pool') × Grown pool pool')
        (thread_pool_push_data env (some pool) d n t)
call-Grown env pool d n t can v =
    Returns-map (thread_pool_push_data-TurnServed env pool d n t v)
      (λ r (c, here, s). Served-Grown env pool c d n t can v here s)

-- After some calls: what ran goes on, and the `m` contexts from the first turn on run.
record AllGrown (pool : Pool) (m : ℕ) (pool' : Pool) : Type 0 where
  valid : IsValid pool'
  keeps : (i : ℕ) → Running pool i → Running pool' i
  starts : (k : ℕ) → k < m → Running pool' ((pool.curr_thread_index + k) % pool.thread_count)

AllGrown-step :
    (pool pool1 pool2 : Pool) (m : ℕ)
    → IsValid pool
    → Grown pool pool1
    → AllGrown pool1 m pool2
    → AllGrown pool (suc m) pool2
AllGrown-step pool pool1 pool2 m v g a = record {
  valid = a.valid;
  keeps = λ i r. a.keeps i (g.keeps i r);
  starts = starts;
}
  where
    index :
        (k : ℕ)
        → (pool1.curr_thread_index + k) % pool1.thread_count
          ≡ (pool.curr_thread_index + suc k) % pool.thread_count
    index k =
        let e : pool.curr_thread_index + 1 + k ≡ pool.curr_thread_index + suc k = omega arith in
        rw (g.next.index, g.next.thread_count, mod-add-mod) (ap (λ x. x % pool.thread_count) e)

    starts : (k : ℕ) → k < suc m → Running pool2 ((pool.curr_thread_index + k) % pool.thread_count)
    starts zero h =
        let e : (pool.curr_thread_index + 0) % pool.thread_count ≡ pool.curr_thread_index =
          ap (λ x. x % pool.thread_count) (omega arith) ∙ mod-eq_of_lt v.index in
        rw e (a.keeps pool.curr_thread_index g.starts)
    starts (suc k) h = rw index at (a.starts k (omega arith))

abbrev AllDone : Pool → ℕ → Option Pool × List Event → Type 0
AllDone pool m r = (pool' : Pool) × (r.0 ≡ some pool') × AllGrown pool m pool'

push_all-AllGrown :
    (env : Env) (pool : Pool) (requests : List (ℕ × ℕ)) (t : List Event)
    → CanStart env
    → IsValid pool
    → Returns (AllDone pool (length requests)) (push_all env (some pool) requests t)
unfolding push_all
push_all-AllGrown env pool [] t can v =
    returns
      (pool, refl, record { valid = v; keeps = λ i r. r; starts = λ k h. absurd (omega arith) })
push_all-AllGrown env pool ((d, n) ∷ rest) t can v =
    Returns-bind (call-Grown env pool d n t can v) λ (o, result, t') (pool1, e, g). rw e (
      Returns-map (push_all-AllGrown env pool1 rest t' can g.next.valid)
        λ r (pool2, e', a). (pool2, e', AllGrown-step pool pool1 pool2 (length rest) v g a))

-- The number of calls from the turn at `j` to that of `i`.
distance : (i j n : ℕ) → i < n → j < n → (k : ℕ) × (k < n) × ((j + k) % n ≡ i)
distance i j n hi hj = elim (dec_le j i) [
  | yes le ↦
      let e : j + (i - j) ≡ i = omega arith in
      (i - j, omega arith, ap (λ x. x % n) e ∙ mod-eq_of_lt hi)
  | no lt ↦
      let e : j + (i + n - j) ≡ i + n = omega arith in
      (i + n - j, omega arith, ap (λ x. x % n) e ∙ add-mod_right i n ∙ mod-eq_of_lt hi)
]

-- If every thread can be started, then after at least as many calls as the pool has contexts,
-- from any well-formed pool, all contexts run, and the pool is well formed.
pub push_all-starts_all :
    (env : Env) (pool : Pool) (requests : List (ℕ × ℕ)) (t : List Event)
    → CanStart env
    → IsValid pool
    → pool.thread_count ≤ length requests
    → Returns
        (λ r.
          (pool' : Pool) × (r.0 ≡ some pool')
          × IsValid pool'
          × ((i : ℕ) → i < pool.thread_count → Running pool' i))
        (push_all env (some pool) requests t)
push_all-starts_all env pool requests t can v enough =
    Returns-map (push_all-AllGrown env pool requests t can v) λ r (pool', e, a). (
      pool',
      e,
      a.valid,
      λ i h.
          let (k, lt, e') = distance i pool.curr_thread_index pool.thread_count h v.index in
          rw e' at (a.starts k (omega arith)),
    )
