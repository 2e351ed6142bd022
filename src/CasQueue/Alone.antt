-- ===== src/CasQueue/Alone.antt =====
-- Calls of common/cas_queue.hpp that no other thread and no spurious failure disturbs return, with
-- the result that the items give.
use armory.Common.{
  ℕ, zero, suc, ◌+◌, ◌≤◌, ◌<◌, ◌≡◌, refl, sym, ap, ◌∙◌, List, [], ◌∷◌, true, false, Option, none,
  some, length, arith, add32, add32_small, u32_mod, ltb, lt→ltb, le→ltb-false, ◌==◌, ==_iff,
  if◌then◌else◌,
}
use native.Mathlib.Decide.{dec_lt}
use armory.CasQueue.{
  CasQueue, Stage, enqueue_start, dequeue_start, enqueued, dequeued, Effect, nothing, pushed,
  popped, index_of_queue, advance, System, Action, enqueue, dequeue, tick, is_free, at_stage, call,
  act, run,
}
use armory.CasQueue.Indices.{index_of_queue-apart, index_of_queue-round}
use armory.CasQueue.Invariant.{HoldsItems, Holds, Invariant}
use armory.CasQueue.Advance.{Holds-items}
use armory.CasQueue.Refine.{free-settled}

==_self : (a : ℕ) → (a == a) ≡ true
==_self a = ground arith

-- `n` steps of a thread without spurious failures, as actions and as accesses of the queue.
abbrev pub ticks {ℓ} : {A : Type ℓ} → ℕ → ℕ → List (Action A)
ticks thread zero = []
ticks thread (suc n) = tick thread false ∷ ticks thread n

abbrev accesses {ℓ} : {A : Type ℓ} → ℕ → CasQueue A → Stage A → Stage A × List (Effect A)
accesses zero q stage = (stage, [])
accesses (suc n) q stage =
    let (q', stage', effect) = advance false q stage in
    let (last, effects) = accesses n q' stage' in (last, effect ∷ effects)

-- The first of the items, and the effect of taking it.
abbrev pub first {ℓ} : {A : Type ℓ} → List A → Option A
first [] = none
first (item ∷ items) = some item

abbrev pub taken {ℓ} : {A : Type ℓ} → List A → Effect A
taken [] = nothing
taken (item ∷ items) = popped item

-- Where a thread is after a run, and the effects of the run.
abbrev pub outcome_of {ℓ} :
    {A : Type ℓ} → ℕ → System A × List (Effect A) → Stage A × List (Effect A)
outcome_of thread (s, effects) = (s.stages thread, effects)

run-ticks {ℓ} :
    {A : Type ℓ} (thread n : ℕ) (s : System A)
    → outcome_of thread (run (ticks thread n) s) ≡ accesses n s.queue (s.stages thread)
unfolding run act
run-ticks thread zero s = refl
run-ticks {A = A} thread (suc n) s =
    let r = advance false s.queue (s.stages thread) in
    let next : System A = record { queue = r.0; stages = at_stage thread r.1 s.stages } in
    ap (λ o. (o.0, r.2 ∷ o.1))
      (run-ticks thread n next
        ∙ ap (λ b. accesses n r.0 (if b then r.1 else s.stages thread)) (==_self thread))

run-call {ℓ} :
    {A : Type ℓ} (thread n : ℕ) (stage : Stage A) (s : System A)
    → is_free (s.stages thread) ≡ true
    → outcome_of thread (run (ticks thread n) (call thread stage s)) ≡ accesses n s.queue stage
unfolding call
run-call thread n stage s free = rw free (
    run-ticks thread n (record s { stages = at_stage thread stage s.stages })
    ∙ ap (λ b. accesses n s.queue (if b then stage else s.stages thread)) (==_self thread))

module _ {ℓ} {A : Type ℓ} (n : ℕ) (q : CasQueue A) (items : List A) (few : suc n < u32_mod)
    (d : HoldsItems n q items) where
  not_full :
      (w : ℕ)
      → w ≡ q.last_write_idx
      → suc (length items) < q.size
      → (index_of_queue q.size (add32 w 1) == index_of_queue q.size q.read_idx) ≡ false
  not_full w e room =
      let next : add32 w 1 ≡ w + 1 = add32_small w 1 (omega (arith, e, d.claimed, d.few_steps)) in
      let apart =
        index_of_queue-apart q.size q.read_idx (w + 1) d.size_fits (omega (arith, e, d.ordered))
          (omega (arith, e, d.ordered)) in
      rw next (ground arith)

  full :
      (w : ℕ)
      → w ≡ q.last_write_idx
      → q.size ≤ suc (length items)
      → (index_of_queue q.size (add32 w 1) == index_of_queue q.size q.read_idx) ≡ true
  full w e room =
      let next : add32 w 1 ≡ q.read_idx + q.size =
        add32_small w 1 (omega (arith, e, d.claimed, d.few_steps))
        ∙ omega (arith, e, d.ordered, d.room) in
      rw (next, index_of_queue-round q.size q.read_idx d.size_fits) (==_self _)

  not_empty :
      0 < length items
      → (index_of_queue q.size q.last_write_idx == index_of_queue q.size q.read_idx) ≡ false
  not_empty held =
      let apart =
        index_of_queue-apart q.size q.read_idx q.last_write_idx d.size_fits
          (omega (arith, d.ordered)) (omega (arith, d.ordered, d.room)) in
      ground arith

  is_empty :
      length items ≡ 0
      → (index_of_queue q.size q.last_write_idx == index_of_queue q.size q.read_idx) ≡ true
  is_empty none_left =
      let same : q.last_write_idx ≡ q.read_idx = omega (arith, d.ordered) in
      ap (λ k. index_of_queue q.size k == index_of_queue q.size q.read_idx) same ∙ ==_self _

  -- The two runs of `enqueue`.
  enqueue-room :
      (item : A)
      → q.write_idx ≡ q.last_write_idx
      → suc (length items) < q.size
      → accesses 6 q (enqueue_start item)
        ≡ (enqueued true, nothing ∷ nothing ∷ nothing ∷ nothing ∷ pushed item ∷ nothing ∷ [])
  unfolding advance
  enqueue-room item even room =
      rw (not_full q.write_idx even room, ==_self q.write_idx)
        (let published : (q.last_write_idx == q.write_idx) ≡ true =
            (==_iff q.last_write_idx q.write_idx).1 (sym even) in
          rw published refl)

  enqueue-full :
      (item : A)
      → q.write_idx ≡ q.last_write_idx
      → q.size ≤ suc (length items)
      → accesses 6 q (enqueue_start item)
        ≡ (enqueued false, nothing ∷ nothing ∷ nothing ∷ nothing ∷ nothing ∷ nothing ∷ [])
  unfolding advance
  enqueue-full item even room = rw (full q.write_idx even room) refl

  enqueue-accesses :
      (item : A)
      → q.write_idx ≡ q.last_write_idx
      → (let room = ltb (suc (length items)) q.size in
          accesses 6 q (enqueue_start item) ≡ (
            enqueued room,
            nothing
                ∷ nothing
                ∷ nothing
                ∷ nothing
                ∷ (if room then pushed item else nothing)
                ∷ nothing
                ∷ [],
          ))
  enqueue-accesses item even = elim (dec_lt (suc (length items)) q.size) [
    | yes room ↦ rw (lt→ltb (suc (length items)) q.size room) (enqueue-room item even room)
    | no more ↦
        rw (le→ltb-false (suc (length items)) q.size (omega arith))
          (enqueue-full item even (omega arith))
  ]

  -- The two runs of `dequeue`.
  dequeue-accesses :
      (items' : List A)
      → items ≡ items'
      → accesses 5 q dequeue_start
        ≡ (dequeued (first items'), nothing ∷ nothing ∷ nothing ∷ taken items' ∷ nothing ∷ [])
  unfolding advance
  dequeue-accesses [] e = rw (is_empty (ap length e)) refl
  dequeue-accesses (item ∷ items') e =
      let some_held = ap length e in
      let held : Holds q.size q.slots q.read_idx (item ∷ items') =
        Holds-items q.size q.slots q.read_idx items (item ∷ items') e d.holds in
      rw (not_empty (omega (arith, some_held)), ==_self q.read_idx, held.0) refl

module _ {ℓ} {A : Type ℓ} (n : ℕ) (s : System A) (items : List A) (few : suc n < u32_mod)
    (d : Invariant n s items) where
  open s use {queue, stages}

  -- The queue has held its invariants for fewer than 2 ^ 32 - 1 steps, and holds `items`. If thread 0 calls `enqueue` and only it steps, without spurious
  -- failures, its call returns within six steps: true, with the item made visible, if one item more
  -- is less than the size, otherwise false with no effect. If any thread calls `dequeue` likewise, its
  -- call returns within five steps: the first item, which it takes, or nothing, if there is none.
  pub alone-returns :
      (item : A)
      → is_free (stages 0) ≡ true
      → (thread : ℕ) → is_free (stages thread) ≡ true
      → (let room = ltb (suc (length items)) queue.size in
          outcome_of 0 (run (enqueue 0 item ∷ ticks 0 6) s) ≡ (
            enqueued room,
            nothing
                ∷ nothing
                ∷ nothing
                ∷ nothing
                ∷ nothing
                ∷ (if room then pushed item else nothing)
                ∷ nothing
                ∷ [],
          ))
        × (outcome_of thread (run (dequeue thread ∷ ticks thread 5) s) ≡ (
          dequeued (first items),
          nothing ∷ nothing ∷ nothing ∷ nothing ∷ taken items ∷ nothing ∷ [],
        ))
  unfolding run act
  alone-returns item free thread free' =
      let held = d.queue_holds in
      let even = free-settled queue (stages 0) free (d.threads 0).0 in
      (
        ap (λ o. (o.0, nothing ∷ o.1))
            (run-call 0 6 (enqueue_start item) s free
              ∙ enqueue-accesses n queue items few held item even),
        ap (λ o. (o.0, nothing ∷ o.1))
            (run-call thread 5 dequeue_start s free'
              ∙ dequeue-accesses n queue items few held items refl),
      )
