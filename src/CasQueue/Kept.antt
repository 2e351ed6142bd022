-- ===== src/CasQueue/Kept.antt =====
-- What a step of one thread in common/cas_queue.hpp leaves of what holds for the others.
use armory.Common.{
  ℕ, suc, ◌+◌, ◌≤◌, ◌<◌, ◌≡◌, ◌≢◌, refl, sym, ap, ◌∙◌, List, [], ◌∷◌, ◌++◌, length, arith,
}
use armory.CasQueue.{
  CasQueue, Stage, idle, enqueue_start, enqueue_write, enqueue_claim, enqueue_store,
  enqueue_publish, enqueue_count, dequeue_start, dequeue_last, dequeue_load, dequeue_claim,
  dequeue_count, enqueued, dequeued, index_of_queue, put,
}
use armory.CasQueue.Indices.{IsSize, index_of_queue-apart}
use armory.CasQueue.Invariant.{Holds, ProducerOk, ConsumerOk, Stranger}

module _ {ℓ} {A : Type ℓ} where
  -- What a step leaves for the threads that dequeue.
  pub record Kept (q q' : CasQueue A) : Type ℓ where
    pub same_size : q'.size ≡ q.size
    pub not_back : q.read_idx ≤ q'.read_idx
    pub still :
        q'.read_idx ≡ q.read_idx
        → (q.last_write_idx ≤ q'.last_write_idx)
          × (q.read_idx < q.last_write_idx
              → q'.slots (index_of_queue q.size q.read_idx)
                ≡ q.slots (index_of_queue q.size q.read_idx))

  pub Kept-refl : (q : CasQueue A) → Kept q q
  Kept-refl q = record {
    same_size = refl;
    not_back = omega arith;
    still = λ e. (omega arith, λ l. refl);
  }

  pub ConsumerOk-Kept :
      (q q' : CasQueue A) (stage : Stage A) → Kept q q' → ConsumerOk q stage → ConsumerOk q' stage
  ConsumerOk-Kept q q' (dequeue_last r) k c = (omega (arith, k.not_back, c.0), tt)
  ConsumerOk-Kept q q' (dequeue_load r) k c = (
    omega (arith, k.not_back, c.0),
    λ e.
        let same : q.read_idx ≡ r = omega (arith, e, k.not_back, c.0) in
        let now = k.still (omega (arith, e, same)) in omega (arith, now.0, c.1 same),
    tt,
  )
  ConsumerOk-Kept q q' (dequeue_claim r item) k c = (
    omega (arith, k.not_back, c.0),
    λ e.
        let same : q.read_idx ≡ r = omega (arith, e, k.not_back, c.0) in
        let now = k.still (omega (arith, e, same)) in
        let then' = c.1 same in
        let unread : q.read_idx < q.last_write_idx = omega (arith, then'.0, same) in
        (
          omega (arith, now.0, then'.0),
          ap (λ n. q'.slots (index_of_queue n r)) k.same_size
              ∙ ap (λ i. q'.slots (index_of_queue q.size i)) (sym same)
              ∙ now.1 unread
              ∙ ap (λ i. q.slots (index_of_queue q.size i)) same
              ∙ then'.1,
        ),
  )
  ConsumerOk-Kept q q' _ k c = tt

  -- What a step of another thread leaves for the one that enqueues.
  pub record Untouched (q q' : CasQueue A) : Type ℓ where
    pub same_write : q'.write_idx ≡ q.write_idx
    pub same_last : q'.last_write_idx ≡ q.last_write_idx
    pub same_slots : q'.slots ≡ q.slots
    pub size_kept : q'.size ≡ q.size
    pub further : q.read_idx ≤ q'.read_idx

  pub Untouched-refl : (q : CasQueue A) → Untouched q q
  Untouched-refl q = record {
    same_write = refl;
    same_last = refl;
    same_slots = refl;
    size_kept = refl;
    further = omega arith;
  }

  pub ProducerOk-Untouched :
      (q q' : CasQueue A) (stage : Stage A)
      → Untouched q q'
      → ProducerOk q stage
      → ProducerOk q' stage
  ProducerOk-Untouched q q' (enqueue_write item r) k c = (
    k.same_write ∙ c.0 ∙ sym k.same_last,
    omega (arith, k.further, c.1),
    omega (arith, k.same_last, k.size_kept, c.2),
    tt,
  )
  ProducerOk-Untouched q q' (enqueue_claim item w) k c = (
    k.same_write ∙ c.0 ∙ sym k.same_last,
    c.1 ∙ sym k.same_last,
    omega (arith, k.further, k.same_last, k.size_kept, c.2),
    tt,
  )
  ProducerOk-Untouched q q' (enqueue_store item w) k c = (
    omega (arith, k.same_write, k.same_last, c.0),
    c.1 ∙ sym k.same_last,
    omega (arith, k.further, k.same_last, k.size_kept, c.2),
    tt,
  )
  ProducerOk-Untouched q q' (enqueue_publish item w) k c = (
    omega (arith, k.same_write, k.same_last, c.0),
    c.1 ∙ sym k.same_last,
    omega (arith, k.further, k.same_last, k.size_kept, c.2),
    ap (λ n. q'.slots (index_of_queue n q'.last_write_idx)) k.size_kept
        ∙ ap (λ i. q'.slots (index_of_queue q.size i)) k.same_last
        ∙ ap (λ f. f (index_of_queue q.size q.last_write_idx)) k.same_slots
        ∙ c.3,
  )
  ProducerOk-Untouched q q' _ k c = (k.same_write ∙ c.0 ∙ sym k.same_last, tt)

  -- A thread in no `enqueue` has left no claim open.
  pub settled :
      (q : CasQueue A) (stage : Stage A)
      → Stranger stage
      → ProducerOk q stage
      → q.write_idx ≡ q.last_write_idx
  settled q (enqueue_start item) h c = elim h [ ]
  settled q (enqueue_write item r) h c = elim h [ ]
  settled q (enqueue_claim item w) h c = elim h [ ]
  settled q (enqueue_store item w) h c = elim h [ ]
  settled q (enqueue_publish item w) h c = elim h [ ]
  settled q enqueue_count h c = elim h [ ]
  settled q idle h c = c.0
  settled q dequeue_start h c = c.0
  settled q (dequeue_last r) h c = c.0
  settled q (dequeue_load r) h c = c.0
  settled q (dequeue_claim r item) h c = c.0
  settled q (dequeue_count item) h c = c.0
  settled q (enqueued result) h c = c.0
  settled q (dequeued result) h c = c.0

  pub ProducerOk-settled :
      (q : CasQueue A) (stage : Stage A)
      → Stranger stage
      → q.write_idx ≡ q.last_write_idx
      → ProducerOk q stage
  ProducerOk-settled q (enqueue_start item) h e = elim h [ ]
  ProducerOk-settled q (enqueue_write item r) h e = elim h [ ]
  ProducerOk-settled q (enqueue_claim item w) h e = elim h [ ]
  ProducerOk-settled q (enqueue_store item w) h e = elim h [ ]
  ProducerOk-settled q (enqueue_publish item w) h e = elim h [ ]
  ProducerOk-settled q enqueue_count h e = elim h [ ]
  ProducerOk-settled q idle h e = (e, tt)
  ProducerOk-settled q dequeue_start h e = (e, tt)
  ProducerOk-settled q (dequeue_last r) h e = (e, tt)
  ProducerOk-settled q (dequeue_load r) h e = (e, tt)
  ProducerOk-settled q (dequeue_claim r item) h e = (e, tt)
  ProducerOk-settled q (dequeue_count item) h e = (e, tt)
  ProducerOk-settled q (enqueued result) h e = (e, tt)
  ProducerOk-settled q (dequeued result) h e = (e, tt)

  -- Items behind which an item is put, and items that a write does not touch.
  pub Holds-append :
      (size : ℕ) (slots : ℕ → A) (i : ℕ) (items : List A) (item : A)
      → Holds size slots i items
      → slots (index_of_queue size (i + length items)) ≡ item
      → Holds size slots i (items ++ item ∷ [])
  Holds-append size slots i [] item h e =
      (ap (λ k. slots (index_of_queue size k)) (omega arith) ∙ e, tt)
  Holds-append size slots i (x ∷ items) item h e = (
    h.0,
    Holds-append size slots (suc i) items item h.1
        (ap (λ k. slots (index_of_queue size k)) (omega arith) ∙ e),
  )

  pub put-other : (k m : ℕ) (item : A) (slots : ℕ → A) → k ≢ m → put k item slots m ≡ slots m
  put-other k m item slots h = ground arith

  pub put_self : (k : ℕ) (item : A) (slots : ℕ → A) → put k item slots k ≡ item
  put_self k item slots = ground arith

  pub Holds-put :
      (size : ℕ) (slots : ℕ → A) (i j : ℕ) (items : List A) (item : A)
      → IsSize size
      → i + length items ≤ j
      → j < i + size
      → Holds size slots i items
      → Holds size (put (index_of_queue size j) item slots) i items
  Holds-put size slots i j [] item d l r h = tt
  Holds-put size slots i j (x ∷ items) item d l r h = (
    put-other (index_of_queue size j) (index_of_queue size i) item slots
          (λ e. index_of_queue-apart size i j d (omega arith) r (sym e))
        ∙ h.0,
    Holds-put size slots (suc i) j items item d (omega arith) (omega arith) h.1,
  )
