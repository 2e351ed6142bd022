-- ===== src/CasQueue/Advance.antt =====
-- Each step of common/cas_queue.hpp keeps what holds between the steps, and acts on the items as
-- a step of a queue does.
pub mod Produce
use armory.Common.{
  ◌⊎◌, ℕ, zero, suc, ◌+◌, ◌≤◌, ◌<◌, ◌≡◌, ◌≢◌, refl, sym, ap, ◌∙◌, List, [], ◌∷◌, ◌++◌, Bool, true,
  false, not, ◌&&◌, inl, inr, length, arith, none, some, sub32, add32, add32_small, u32_mod, ◌==◌,
  ==_iff, Bool-cases, if◌then◌else◌,
}
use native.Mathlib.Decide.{dec_lt}
use armory.CasQueue.{
  CasQueue, Stage, idle, enqueue_start, enqueue_write, enqueue_claim, enqueue_store,
  enqueue_publish, enqueue_count, dequeue_start, dequeue_last, dequeue_load, dequeue_claim,
  dequeue_count, enqueued, dequeued, index_of_queue, put, Effect, nothing, pushed, popped, advance,
}
use armory.CasQueue.Indices.{IsSize, index_of_queue-apart, index_of_queue-round}
use armory.CasQueue.Fifo.{FifoStep}
use armory.CasQueue.Invariant.{Holds, HoldsItems, ProducerOk, ConsumerOk, Stranger}
use armory.CasQueue.Kept.{
  Kept, Kept-refl, Untouched, Untouched-refl, Holds-append, Holds-put, put_self, put-other,
}

-- A property of a conditional.
pub on_if {ℓ κ} :
    {X : Type ℓ} (P : X → Type κ) (b : Bool) {x y : X}
    → (b ≡ true → P x)
    → (b ≡ false → P y)
    → P (if b then x else y)
on_if P true yes' no' = yes' refl
on_if P false yes' no' = no' refl

pub both_true : (spurious b : Bool) → not spurious && b ≡ true → b ≡ true
both_true spurious b h = ground arith

pub length-append_end {ℓ} :
    {A : Type ℓ} (xs : List A) (x : A) → length (xs ++ x ∷ []) ≡ suc (length xs)
length-append_end [] x = refl
length-append_end (y ∷ xs) x = ap suc (length-append_end xs x)

pub Holds-items {ℓ} :
    {A : Type ℓ} (size : ℕ) (slots : ℕ → A) (i : ℕ) (xs ys : List A)
    → xs ≡ ys
    → Holds size slots i xs
    → Holds size slots i ys
Holds-items size slots i xs ys e h = rw (← e) h

Holds-from {ℓ} :
    {A : Type ℓ} (size : ℕ) (slots : ℕ → A) (i j : ℕ) (xs : List A)
    → i ≡ j
    → Holds size slots i xs
    → Holds size slots j xs
Holds-from size slots i j xs e h = rw (← e) h

module _ {ℓ} {A : Type ℓ} (n : ℕ) (few : suc n < u32_mod) (q : CasQueue A) (items : List A)
    (h : HoldsItems n q items) where
  -- The outcome of a step: the items change as the effect says, and the invariants are kept.
  abbrev pub StepOk : CasQueue A × Stage A × Effect A → Type ℓ
  StepOk (q', stage', effect) =
      (items' : List A) × FifoStep q.size effect items items'
      × HoldsItems (suc n) q' items'
      × Kept q q'
      × ConsumerOk q' stage'

  -- A step outside `enqueue`, and one inside.
  abbrev pub ConsumerStep : CasQueue A × Stage A × Effect A → Type ℓ
  ConsumerStep (q', stage', effect) = StepOk (q', stage', effect) × Untouched q q' × Stranger stage'

  abbrev pub ProducerStep : CasQueue A × Stage A × Effect A → Type ℓ
  ProducerStep (q', stage', effect) = StepOk (q', stage', effect) × ProducerOk q' stage'

  -- The same items a step later, also with another count.
  later : (m : ℕ) → HoldsItems (suc n) (record q { length = m }) items
  later m = record {
    size_fits = h.size_fits;
    few_steps = omega (arith, h.few_steps);
    claimed = h.claimed;
    ordered = h.ordered;
    room = h.room;
    holds = h.holds;
  }

  Kept-length : (m : ℕ) → Kept q (record q { length = m })
  Kept-length m = record {
    same_size = refl;
    not_back = omega arith;
    still = λ e. (omega arith, λ l. refl);
  }

  Untouched-length : (m : ℕ) → Untouched q (record q { length = m })
  Untouched-length m = record {
    same_write = refl;
    same_last = refl;
    same_slots = refl;
    size_kept = refl;
    further = omega arith;
  }

  -- A step that leaves the queue, up to its count, and has no effect on the items.
  pub quiet_step :
      (m : ℕ) (stage : Stage A)
      → ConsumerOk (record q { length = m }) stage
      → StepOk (record q { length = m }, stage, nothing)
  quiet_step m stage c = (items, refl, later m, Kept-length m, c)

  quiet_consumer :
      (m : ℕ) (stage : Stage A)
      → ConsumerOk (record q { length = m }) stage
      → Stranger stage
      → ConsumerStep (record q { length = m }, stage, nothing)
  quiet_consumer m stage c s = (quiet_step m stage c, Untouched-length m, s)

  -- What is loaded is not yet taken if the queue was seen not to be empty.
  unread_later :
      (r : ℕ)
      → (index_of_queue q.size q.last_write_idx == index_of_queue q.size r) ≡ false
      → q.read_idx ≡ r
      → r < q.last_write_idx
  unread_later r e same = elim (dec_lt r q.last_write_idx) [
    | yes less ↦ less
    | no more ↦
        let at_end : q.last_write_idx ≡ r = omega (arith, h.ordered, same) in
        let seen = ap (λ k. index_of_queue q.size k) at_end in absurd (ground arith)
  ]

  take_item :
      (r : ℕ) (item : A) (items' : List A)
      → q.read_idx ≡ r
      → items ≡ items'
      → r < q.last_write_idx
      → q.slots (index_of_queue q.size r) ≡ item
      → ConsumerStep (record q { read_idx = add32 r 1 }, dequeue_count item, popped item)
  take_item r item [] same e unread loaded = absurd (omega (arith, h.ordered, ap length e, same))
  take_item r item (x ∷ xs) same e unread loaded =
      let held : Holds q.size q.slots q.read_idx (x ∷ xs) =
        Holds-items q.size q.slots q.read_idx items (x ∷ xs) e h.holds in
      let first : x ≡ item =
        sym held.0 ∙ ap (λ k. q.slots (index_of_queue q.size k)) same ∙ loaded in
      let long = ap length e in
      let next : add32 r 1 ≡ suc q.read_idx =
        add32_small r 1 (omega (arith, unread, h.claimed, h.few_steps)) ∙ omega (arith, same) in
      (
        (
          xs,
          e ∙ ap (λ y. y ∷ xs) first,
          record {
            size_fits = h.size_fits;
            few_steps = omega (arith, h.few_steps);
            claimed = h.claimed;
            ordered = omega (arith, next, h.ordered, long);
            room = omega (arith, h.room, long);
            holds = Holds-from q.size q.slots (suc q.read_idx) (add32 r 1) xs (sym next) held.1;
          },
          record {
            same_size = refl;
            not_back = omega (arith, next);
            still = λ back. absurd (omega (arith, next, back));
          },
          tt,
        ),
        record {
          same_write = refl;
          same_last = refl;
          same_slots = refl;
          size_kept = refl;
          further = omega (arith, next);
        },
        tt,
      )

  pub consumer_step :
      (spurious : Bool) (stage : Stage A)
      → Stranger stage
      → ConsumerOk q stage
      → ConsumerStep (advance spurious q stage)
  unfolding advance
  consumer_step spurious idle s c = quiet_consumer q.length idle tt tt
  consumer_step spurious dequeue_start s c =
      quiet_consumer q.length (dequeue_last q.read_idx) (omega arith, tt) tt
  consumer_step spurious (dequeue_last r) s c =
      on_if ConsumerStep (index_of_queue q.size q.last_write_idx == index_of_queue q.size r)
        (λ e. quiet_consumer q.length (dequeued none) tt tt)
        (λ e. quiet_consumer q.length (dequeue_load r) (c.0, unread_later r e, tt) tt)
  consumer_step spurious (dequeue_load r) s c =
      quiet_consumer q.length (dequeue_claim r _) (c.0, λ e. (c.1 e, refl)) tt
  consumer_step spurious (dequeue_claim r item) s c =
      on_if ConsumerStep (not spurious && q.read_idx == r)
        (λ e.
          let same = (==_iff q.read_idx r).0 (both_true spurious (q.read_idx == r) e) in
          let now = c.1 same in take_item r item items same refl now.0 now.1)
        (λ e. quiet_consumer q.length dequeue_start tt tt)
  consumer_step spurious (dequeue_count item) s c =
      quiet_consumer (sub32 q.length 1) (dequeued (some item)) tt tt
  consumer_step spurious (enqueued result) s c = quiet_consumer q.length (enqueued result) tt tt
  consumer_step spurious (dequeued result) s c = quiet_consumer q.length (dequeued result) tt tt
  consumer_step spurious (enqueue_start item) s c = elim s [ ]
  consumer_step spurious (enqueue_write item r) s c = elim s [ ]
  consumer_step spurious (enqueue_claim item w) s c = elim s [ ]
  consumer_step spurious (enqueue_store item w) s c = elim s [ ]
  consumer_step spurious (enqueue_publish item w) s c = elim s [ ]
  consumer_step spurious enqueue_count s c = elim s [ ]
