-- ===== src/CasQueue/Invariant.antt =====
-- What holds between the steps of common/cas_queue.hpp if one thread, number 0, enqueues.
use armory.Common.{ℕ, zero, suc, ◌+◌, ◌≤◌, ◌<◌, ◌≡◌, List, [], ◌∷◌, length}
use armory.CasQueue.{
  CasQueue, Stage, enqueue_start, enqueue_write, enqueue_claim, enqueue_store, enqueue_publish,
  enqueue_count, dequeue_last, dequeue_load, dequeue_claim, index_of_queue, System,
}
use armory.CasQueue.Indices.{IsSize}

-- The items stand in the array from the index `i` on.
abbrev pub Holds {ℓ} : {A : Type ℓ} → ℕ → (ℕ → A) → ℕ → List A → Type ℓ
Holds size slots i [] = Unit
Holds size slots i (item ∷ items) =
    (slots (index_of_queue size i) ≡ item) × Holds size slots (suc i) items

module _ {ℓ} {A : Type ℓ} where
  -- The indices and the array of a queue that holds `items`, after at most `n` steps.
  pub record HoldsItems (n : ℕ) (q : CasQueue A) (items : List A) : Type ℓ where
    pub size_fits : IsSize q.size
    pub few_steps : q.write_idx ≤ n
    pub claimed : q.last_write_idx ≤ q.write_idx
    pub ordered : q.read_idx + length items ≡ q.last_write_idx
    pub room : length items < q.size
    pub holds : Holds q.size q.slots q.read_idx items

  -- The thread that enqueues.
  abbrev pub ProducerOk : CasQueue A → Stage A → Type ℓ
  ProducerOk q (enqueue_write item r) =
      (q.write_idx ≡ q.last_write_idx)
      × (r ≤ q.read_idx)
      × (q.last_write_idx < r + q.size)
      × Unit {ℓ}
  ProducerOk q (enqueue_claim item w) =
      (q.write_idx ≡ q.last_write_idx)
      × (w ≡ q.last_write_idx)
      × (q.last_write_idx + 1 < q.read_idx + q.size)
      × Unit {ℓ}
  ProducerOk q (enqueue_store item w) =
      (q.write_idx ≡ q.last_write_idx + 1)
      × (w ≡ q.last_write_idx)
      × (q.last_write_idx + 1 < q.read_idx + q.size)
      × Unit {ℓ}
  ProducerOk q (enqueue_publish item w) =
      (q.write_idx ≡ q.last_write_idx + 1)
      × (w ≡ q.last_write_idx)
      × (q.last_write_idx + 1 < q.read_idx + q.size)
      × (q.slots (index_of_queue q.size q.last_write_idx) ≡ item)
  ProducerOk q stage = (q.write_idx ≡ q.last_write_idx) × Unit {ℓ}

  -- Any thread that dequeues.
  abbrev pub ConsumerOk : CasQueue A → Stage A → Type ℓ
  ConsumerOk q (dequeue_last r) = (r ≤ q.read_idx) × Unit {ℓ}
  ConsumerOk q (dequeue_load r) =
      (r ≤ q.read_idx) × (q.read_idx ≡ r → r < q.last_write_idx) × Unit {ℓ}
  ConsumerOk q (dequeue_claim r item) =
      (r ≤ q.read_idx)
      × (q.read_idx ≡ r → (r < q.last_write_idx) × (q.slots (index_of_queue q.size r) ≡ item))
  ConsumerOk q stage = Unit

  -- A thread that does not enqueue.
  abbrev pub Stranger : Stage A → Type 0
  Stranger (enqueue_start item) = ⊥
  Stranger (enqueue_write item r) = ⊥
  Stranger (enqueue_claim item w) = ⊥
  Stranger (enqueue_store item w) = ⊥
  Stranger (enqueue_publish item w) = ⊥
  Stranger enqueue_count = ⊥
  Stranger stage = Unit

  abbrev pub ThreadOk : CasQueue A → ℕ → Stage A → Type ℓ
  ThreadOk q zero stage = ProducerOk q stage × ConsumerOk q stage
  ThreadOk q (suc t) stage = Stranger stage × ConsumerOk q stage

  pub record Invariant (n : ℕ) (s : System A) (items : List A) : Type ℓ where
    pub queue_holds : HoldsItems n s.queue items
    pub threads : (t : ℕ) → ThreadOk s.queue t (s.stages t)
