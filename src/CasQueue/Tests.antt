-- ===== src/CasQueue/Tests.antt =====
-- Runs of the queue, and examples of its results.
use armory.Common.{
  ℕ, ◌+◌, ◌*◌, ◌≤◌, ◌-◌, ◌^◌, ◌≡◌, refl, true, List, [], ◌∷◌, ◌++◌, false, none, arith, add32,
  sub32,
}
use armory.CasQueue.{
  power_of_two, ceil_power_of_two, roundup_power_of_two, size_for, index_of_queue, cas_queue,
  advance, call, act, run, start, empty, size_of, Action, enqueue, dequeue, Effect, nothing, pushed,
  popped, enqueued, dequeued,
}
use armory.CasQueue.Indices.{IsSize}
use armory.CasQueue.Rounding.{size_for-IsSize}
use armory.CasQueue.Fifo.{Fifo}
use armory.CasQueue.Refine.{run-Fifo, start-Invariant}
use armory.CasQueue.Alone.{ticks, outcome_of, alone-returns}

-- Sizes: rounded up, none for 0 and for more than 2 ^ 31.
size_for_runs :
    (size_for 1 ≡ 2)
    × (size_for 4 ≡ 4)
    × (size_for 5 ≡ 8)
    × (size_for 0 ≡ 2 ^ 31)
    × (size_for (2 ^ 31 + 1) ≡ 0)
unfolding size_for power_of_two roundup_power_of_two ceil_power_of_two sub32
size_for_runs = (refl, refl, refl, refl, refl)

-- The effects other than `nothing`.
visible_effects : List (Effect ℕ) → List (Effect ℕ)
visible_effects [] = []
visible_effects (nothing ∷ effects) = visible_effects effects
visible_effects (pushed item ∷ effects) = pushed item ∷ visible_effects effects
visible_effects (popped item ∷ effects) = popped item ∷ visible_effects effects

abbrev put_and_take : List (Action ℕ)
put_and_take = enqueue 0 7 ∷ ticks 0 6 ++ dequeue 1 ∷ ticks 1 5

delivered_run : visible_effects (run put_and_take (start 4 (λ i. 0))).1 ≡ pushed 7 ∷ popped 7 ∷ []
unfolding visible_effects run act call advance cas_queue index_of_queue size_for power_of_two sub32
    add32
delivered_run = refl

-- Two threads enqueue. The second is told by its failed exchange to wait for the place of the
-- first, and publishes that: the third takes an item that nobody has put.
two_producers_run :
    visible_effects
      (run
        (enqueue 0 7 ∷ ticks 0 3 ++ enqueue 1 8 ∷ ticks 1 6 ++ dequeue 2 ∷ ticks 2 4)
        (start 4 (λ i. 0))).1
    ≡ pushed 8 ∷ popped 0 ∷ []
unfolding visible_effects run act call advance cas_queue index_of_queue size_for power_of_two sub32
    add32
two_producers_run = refl

-- An item is counted out before it is counted in: the empty queue has 2 ^ 32 - 1 items.
length_run :
    (let q =
        (run {A = ℕ}
          (enqueue 0 7 ∷ ticks 0 5 ++ dequeue 1 ∷ ticks 1 5)
          (start 4 (λ i. 0))).0.queue in
      (size_of q ≡ 2 ^ 32 - 1) × (empty q ≡ false))
unfolding run act call advance cas_queue index_of_queue size_for power_of_two sub32 add32 size_of
    empty
length_run = (refl, refl)

-- Between the two loads of a `dequeue` the queue goes round once: an item is there, and the call
-- says that the queue is empty.
stale_run :
    (let (s, effects) =
        run {A = ℕ}
          (dequeue 1 ∷ ticks 1 1
            ++ enqueue 0 7 ∷ ticks 0 6
            ++ dequeue 2 ∷ ticks 2 5
            ++ enqueue 0 8 ∷ ticks 0 6
            ++ ticks 1 1)
          (start 2 (λ i. 0)) in
      (s.stages 1 ≡ dequeued none)
      × (visible_effects effects ≡ pushed 7 ∷ popped 7 ∷ pushed 8 ∷ []))
unfolding visible_effects run act call advance cas_queue index_of_queue size_for power_of_two sub32
    add32
stale_run = (refl, refl)

run-Fifo_example : Fifo (size_for 4) (run put_and_take (start 4 (λ i. 0))).1 []
run-Fifo_example =
    run-Fifo 4 (λ i. 0) put_and_take (omega arith) (omega arith) (refl, tt) (omega arith)

size_for-IsSize_example :
    IsSize (size_for 1000) × (1000 ≤ size_for 1000) × (size_for 1000 ≤ 2 * 1000)
size_for-IsSize_example = size_for-IsSize 1000 (omega arith) (omega arith)

alone-returns_example :
    (outcome_of 0 (run {A = ℕ} (enqueue 0 7 ∷ ticks 0 6) (start 4 (λ i. 0)))
      ≡ (enqueued true, nothing ∷ nothing ∷ nothing ∷ nothing ∷ nothing ∷ pushed 7 ∷ nothing ∷ []))
    × (outcome_of 1 (run {A = ℕ} (dequeue 1 ∷ ticks 1 5) (start 4 (λ i. 0)))
        ≡ (dequeued none, nothing ∷ nothing ∷ nothing ∷ nothing ∷ nothing ∷ nothing ∷ []))
unfolding cas_queue size_for power_of_two sub32
alone-returns_example =
    alone-returns 0 (start 4 (λ i. 0)) [] (omega arith)
      (start-Invariant 4 (λ i. 0) (size_for-IsSize 4 (omega arith) (omega arith)).0) 7 refl 1 refl
