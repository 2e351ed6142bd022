-- ===== src/CasQueue/Refine.antt =====
-- Runs of common/cas_queue.hpp with one thread that enqueues are runs of a queue.
use armory.Common.{
  ℕ, zero, suc, ◌+◌, ◌^◌, ◌≤◌, ◌<◌, ◌≡◌, ◌≢◌, refl, sym, ◌∙◌, List, [], ◌∷◌, Bool, true, inl, inr,
  length, arith, u32_mod, ◌==◌, ==_iff, Bool-cases,
}
use armory.CasQueue.{
  CasQueue, Stage, idle, enqueue_start, enqueue_store, enqueue_publish, dequeue_start, Effect,
  nothing, advance, System, Action, enqueue, dequeue, tick, is_free, at_stage, call, act, run,
  start, cas_queue, size_for,
}
use armory.CasQueue.Indices.{IsSize, IsSize-bounds}
use armory.CasQueue.Rounding.{size_for-IsSize}
use armory.CasQueue.Fifo.{FifoStep, Fifo}
use armory.CasQueue.Invariant.{HoldsItems, ProducerOk, ThreadOk, Invariant}
use armory.CasQueue.Kept.{
  Kept, ConsumerOk-Kept, Untouched, ProducerOk-Untouched, settled, ProducerOk-settled,
}
use armory.CasQueue.Advance.{consumer_step}
use armory.CasQueue.Advance.Produce.{producer_step}

-- Only thread 0 calls `enqueue`.
abbrev pub OneProducer {ℓ} : {A : Type ℓ} → List (Action A) → Type 0
OneProducer [] = Unit
OneProducer (enqueue thread item ∷ actions) = (thread ≡ 0) × OneProducer actions
OneProducer (dequeue thread ∷ actions) = OneProducer actions
OneProducer (tick thread spurious ∷ actions) = OneProducer actions

module _ {ℓ} {A : Type ℓ} where
  -- What holds of the new stage of a thread and of the stages of all others holds of all.
  at_stage-all :
      (P : ℕ → Stage A → Type ℓ) (thread : ℕ) (stage : Stage A) (stages : ℕ → Stage A)
      → P thread stage
      → ((u : ℕ) → thread ≢ u → P u (stages u))
      → (u : ℕ) → P u (at_stage thread stage stages u)
  at_stage-all P thread stage stages own others u = elim (Bool-cases (thread == u)) [
    | inl e ↦ let same = (==_iff thread u).0 e in rw e (rw (← same) own)
    | inr e ↦ rw e (others u (λ same. absurd (ground arith)))
  ]

  -- The other threads behind a step.
  other-ThreadOk :
      (q q' : CasQueue A) (u : ℕ) (stage : Stage A)
      → Kept q q'
      → (u ≡ 0 → Untouched q q')
      → ThreadOk q u stage
      → ThreadOk q' u stage
  other-ThreadOk q q' zero stage k un d =
      (ProducerOk-Untouched q q' stage (un refl) d.0, ConsumerOk-Kept q q' stage k d.1)
  other-ThreadOk q q' (suc u) stage k un d = (d.0, ConsumerOk-Kept q q' stage k d.1)

  -- One step of a thread.
  abbrev Outcome : ℕ → ℕ → CasQueue A → List A → CasQueue A × Stage A × Effect A → Type ℓ
  Outcome n thread q items (q', stage', effect) =
      (items' : List A) × FifoStep q.size effect items items'
      × HoldsItems (suc n) q' items'
      × Kept q q'
      × (thread ≢ 0 → Untouched q q')
      × ThreadOk q' thread stage'

  step-Outcome :
      (n : ℕ) (q : CasQueue A) (items : List A) (thread : ℕ) (spurious : Bool) (stage : Stage A)
      → suc n < u32_mod
      → HoldsItems n q items
      → ThreadOk q thread stage
      → Outcome n thread q items (advance spurious q stage)
  step-Outcome n q items (suc t) spurious stage few h d =
      let ((items', fifo, h', k, c), un, s) =
        consumer_step n few q items h spurious stage d.0 d.1 in
      (items', fifo, h', k, λ e. un, (s, c))
  step-Outcome n q items zero spurious stage few h d =
      elim (producer_step n few q items h spurious stage d.0 d.1) [
        | inl stranger ↦
            let ((items', fifo, h', k, c), un, s) =
              consumer_step n few q items h spurious stage stranger d.1 in
            let (q', stage', effect) = advance spurious q stage in
            let even : q'.write_idx ≡ q'.last_write_idx =
              un.same_write ∙ settled q stage stranger d.0 ∙ sym un.same_last in
            (items', fifo, h', k, λ e. un, (ProducerOk-settled q' stage' s even, c))
        | inr ((items', fifo, h', k, c), p) ↦ (items', fifo, h', k, λ e. absurd (e refl), (p, c))
      ]

  HoldsItems-later :
      (n : ℕ) (q : CasQueue A) (items : List A) → HoldsItems n q items → HoldsItems (suc n) q items
  HoldsItems-later n q items h = record {
    size_fits = h.size_fits;
    few_steps = omega (arith, h.few_steps);
    claimed = h.claimed;
    ordered = h.ordered;
    room = h.room;
    holds = h.holds;
  }

  pub free-settled :
      (q : CasQueue A) (stage : Stage A)
      → is_free stage ≡ true
      → ProducerOk q stage
      → q.write_idx ≡ q.last_write_idx
  free-settled q (enqueue_store item w) f p = absurd (ground arith)
  free-settled q (enqueue_publish item w) f p = absurd (ground arith)
  free-settled q _ f p = p.0

  -- What a free thread may begin with.
  may_enqueue :
      (q : CasQueue A) (thread : ℕ) (stage : Stage A) (item : A)
      → thread ≡ 0
      → is_free stage ≡ true
      → ThreadOk q thread stage
      → ThreadOk q thread (enqueue_start item)
  may_enqueue q zero stage item z f d = ((free-settled q stage f d.0, tt), tt)
  may_enqueue q (suc t) stage item z f d = absurd (omega arith)

  may_dequeue :
      (q : CasQueue A) (thread : ℕ) (stage : Stage A)
      → is_free stage ≡ true
      → ThreadOk q thread stage
      → ThreadOk q thread dequeue_start
  may_dequeue q zero stage f d = ((free-settled q stage f d.0, tt), tt)
  may_dequeue q (suc t) stage f d = (tt, tt)

  -- What an action does.
  abbrev ActOk : ℕ → System A → List A → System A × Effect A → Type ℓ
  ActOk n s items (s', effect) =
      (items' : List A) × FifoStep s.queue.size effect items items'
      × Invariant (suc n) s' items'
      × (s'.queue.size ≡ s.queue.size)

  call-Invariant :
      (n : ℕ) (s : System A) (items : List A) (thread : ℕ) (stage : Stage A)
      → Invariant n s items
      → (is_free (s.stages thread) ≡ true → ThreadOk s.queue thread stage)
      → ActOk n s items (call thread stage s, nothing)
  unfolding call
  call-Invariant n s items thread stage d fits =
      let held = HoldsItems-later n s.queue items d.queue_holds in
      elim (Bool-cases (is_free (s.stages thread))) [
        | inl free ↦ rw free (
          items,
          refl,
          record {
            queue_holds = held;
            threads =
                at_stage-all (ThreadOk s.queue) thread stage s.stages (fits free)
                  (λ u ne. d.threads u);
          },
          refl,
        )
        | inr busy ↦ rw busy (items, refl, record { queue_holds = held; threads = d.threads }, refl)
      ]

  act-Invariant :
      (n : ℕ) (s : System A) (items : List A) (action : Action A)
      → suc n < u32_mod
      → Invariant n s items
      → OneProducer (action ∷ [])
      → ActOk n s items (act action s)
  unfolding act
  act-Invariant n s items (enqueue thread item) few d one =
      call-Invariant n s items thread (enqueue_start item) d
        (λ f. may_enqueue s.queue thread (s.stages thread) item one.0 f (d.threads thread))
  act-Invariant n s items (dequeue thread) few d one =
      call-Invariant n s items thread dequeue_start d
        (λ f. may_dequeue s.queue thread (s.stages thread) f (d.threads thread))
  act-Invariant n s items (tick thread spurious) few d one =
      let (items', fifo, h', k, un, own) =
        step-Outcome n s.queue items thread spurious (s.stages thread) few d.queue_holds
          (d.threads thread) in
      let (q', stage', effect) = advance spurious s.queue (s.stages thread) in
      (
        items',
        fifo,
        record {
          queue_holds = h';
          threads = at_stage-all (ThreadOk q') thread stage' s.stages own (λ u ne.
              other-ThreadOk s.queue q' u (s.stages u) k (λ z. un (λ e. ne (e ∙ sym z)))
                (d.threads u));
        },
        k.same_size,
      )

  one_first :
      (action : Action A) (actions : List (Action A))
      → OneProducer (action ∷ actions)
      → OneProducer (action ∷ [])
  one_first (enqueue thread item) actions one = (one.0, tt)
  one_first (dequeue thread) actions one = tt
  one_first (tick thread spurious) actions one = tt

  one_rest :
      (action : Action A) (actions : List (Action A))
      → OneProducer (action ∷ actions)
      → OneProducer actions
  one_rest (enqueue thread item) actions one = one.1
  one_rest (dequeue thread) actions one = one
  one_rest (tick thread spurious) actions one = one

  Fifo-size :
      (size size' : ℕ) (effects : List (Effect A)) (items : List A)
      → size ≡ size'
      → Fifo size effects items
      → Fifo size' effects items
  Fifo-size size size' effects items e h = rw (← e) h

  run-Invariant :
      (actions : List (Action A)) (n : ℕ) (s : System A) (items : List A)
      → n + length actions < u32_mod
      → Invariant n s items
      → OneProducer actions
      → Fifo s.queue.size (run actions s).1 items
  unfolding run
  run-Invariant [] n s items few d one = tt
  run-Invariant (action ∷ actions) n s items few d one =
      let (items', fifo, d', same) =
        act-Invariant n s items action (omega (arith, few)) d (one_first action actions one) in
      let (s', effect) = act action s in
      (
        items',
        fifo,
        Fifo-size s'.queue.size s.queue.size (run actions s').1 items' same (
            run-Invariant actions (suc n) s' items' (omega (arith, few)) d'
              (one_rest action actions one)),
      )

  pub start-Invariant :
      (size : ℕ) (initial : ℕ → A) → IsSize (size_for size) → Invariant 0 (start size initial) []
  unfolding cas_queue
  start-Invariant size initial d = record {
    queue_holds = record {
      size_fits = d;
      few_steps = omega arith;
      claimed = omega arith;
      ordered = omega arith;
      room = omega (arith, (IsSize-bounds (size_for size) d).0);
      holds = tt;
    };
    threads = all_idle;
  }
    where
      all_idle : (t : ℕ) → ThreadOk (cas_queue size initial) t idle
      all_idle zero = ((refl, tt), tt)
      all_idle (suc t) = (tt, tt)

  -- In every run of fewer than 2 ^ 32 steps from an empty queue for a size from 1 to 2 ^ 31, in which
  -- thread 0 alone calls `enqueue` and any threads call `dequeue`, interleaved in any way and
  -- with spurious failures of the weak exchanges, the items become visible and are taken as in a
  -- queue: each is taken once and in the order in which they became visible, and at most one less
  -- than the rounded size is held.
  pub run-Fifo :
      (size : ℕ) (initial : ℕ → A) (actions : List (Action A))
      → 0 < size
      → size ≤ 2 ^ 31
      → OneProducer actions
      → length actions < u32_mod
      → Fifo (size_for size) (run actions (start size initial)).1 []
  unfolding cas_queue
  run-Fifo size initial actions low high one few =
      run-Invariant actions 0 (start size initial) [] (omega (arith, few))
        (start-Invariant size initial (size_for-IsSize size low high).0) one
