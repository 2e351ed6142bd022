-- ===== src/CasQueue/Advance/Produce.antt =====
-- The steps inside `enqueue` of common/cas_queue.hpp keep what holds between the steps.
use armory.Common.{
  ◌⊎◌, ℕ, suc, ◌+◌, ◌≤◌, ◌<◌, ◌≡◌, refl, sym, ap, ◌∙◌, List, [], ◌∷◌, ◌++◌, Bool, true, false, not,
  ◌&&◌, inl, inr, arith, add32, add32_small, u32_mod, ◌==◌,
}
use native.Mathlib.Decide.{dec_lt}
use armory.CasQueue.{
  CasQueue, Stage, enqueue_start, enqueue_write, enqueue_claim, enqueue_store, enqueue_publish,
  enqueue_count, enqueued, index_of_queue, put, nothing, pushed, advance,
}
use armory.CasQueue.Indices.{index_of_queue-apart, index_of_queue-round}
use armory.CasQueue.Invariant.{HoldsItems, ProducerOk, ConsumerOk, Stranger}
use armory.CasQueue.Kept.{Holds-append, Holds-put, put_self, put-other}
use armory.CasQueue.Advance.{on_if, length-append_end, ProducerStep, quiet_step}

module _ {ℓ} {A : Type ℓ} (n : ℕ) (few : suc n < u32_mod) (q : CasQueue A) (items : List A)
    (h : HoldsItems n q items) where
  -- The queue is not full: it has room for the claim.
  room_for :
      (r : ℕ)
      → (index_of_queue q.size (add32 q.write_idx 1) == index_of_queue q.size r) ≡ false
      → q.write_idx ≡ q.last_write_idx
      → r ≤ q.read_idx
      → q.last_write_idx < r + q.size
      → q.last_write_idx + 1 < q.read_idx + q.size
  room_for r e even old near = elim (dec_lt (q.last_write_idx + 1) (q.read_idx + q.size)) [
    | yes less ↦ less
    | no more ↦
        let next : add32 q.write_idx 1 ≡ r + q.size =
          add32_small q.write_idx 1 (omega (arith, h.few_steps)) ∙ omega (arith, even, old, near) in
        let seen =
          ap (λ k. index_of_queue q.size k) next ∙ index_of_queue-round q.size r h.size_fits in
        absurd (ground arith)
  ]

  claimed_step :
      (item : A) (w : ℕ)
      → add32 w 1 ≡ q.last_write_idx + 1
      → ProducerOk q (enqueue_claim item w)
      → ProducerStep n few q items h
          (record q { write_idx = add32 w 1 }, enqueue_store item w, nothing)
  claimed_step item w next p = (
    (
      items,
      refl,
      record {
        size_fits = h.size_fits;
        few_steps = omega (arith, next, h.claimed, h.few_steps);
        claimed = omega (arith, next);
        ordered = h.ordered;
        room = h.room;
        holds = h.holds;
      },
      record { same_size = refl; not_back = omega arith; still = λ e. (omega arith, λ l. refl) },
      tt,
    ),
    (next, p.1, p.2, tt),
  )

  stored_step :
      (item : A) (w : ℕ)
      → ProducerOk q (enqueue_store item w)
      → ProducerStep n few q items h (
        record q { slots = put (index_of_queue q.size w) item q.slots },
        enqueue_publish item w,
        nothing,
      )
  stored_step item w p = (
    (
      items,
      refl,
      record {
        size_fits = h.size_fits;
        few_steps = omega (arith, h.few_steps);
        claimed = h.claimed;
        ordered = h.ordered;
        room = h.room;
        holds =
            Holds-put q.size q.slots q.read_idx w items item h.size_fits
              (omega (arith, h.ordered, p.1)) (omega (arith, p.1, p.2)) h.holds;
      },
      record {
        same_size = refl;
        not_back = omega arith;
        still = λ e. (
          omega arith,
          λ l.
              put-other (index_of_queue q.size w) (index_of_queue q.size q.read_idx) item q.slots
                (λ same.
                  index_of_queue-apart q.size q.read_idx w h.size_fits (omega (arith, l, p.1))
                    (omega (arith, p.1, p.2)) (sym same)),
        );
      },
      tt,
    ),
    (
      p.0,
      p.1,
      p.2,
      ap (λ k. put (index_of_queue q.size w) item q.slots (index_of_queue q.size k)) (sym p.1)
          ∙ put_self (index_of_queue q.size w) item q.slots,
    ),
  )

  published_step :
      (item : A) (w : ℕ)
      → ProducerOk q (enqueue_publish item w)
      → ProducerStep n few q items h
          (record q { last_write_idx = add32 w 1 }, enqueue_count, pushed item)
  published_step item w p =
      let next : add32 w 1 ≡ q.last_write_idx + 1 =
        add32_small w 1 (omega (arith, p.1, p.0, h.few_steps)) ∙ omega (arith, p.1) in
      let long = length-append_end items item in
      (
        (
          items ++ item ∷ [],
          (omega (arith, h.ordered, p.2), refl),
          record {
            size_fits = h.size_fits;
            few_steps = omega (arith, h.few_steps);
            claimed = omega (arith, next, p.0);
            ordered = omega (arith, long, next, h.ordered);
            room = omega (arith, long, h.ordered, p.2);
            holds =
                Holds-append q.size q.slots q.read_idx items item h.holds
                  (ap (λ k. q.slots (index_of_queue q.size k)) h.ordered ∙ p.3);
          },
          record {
            same_size = refl;
            not_back = omega arith;
            still = λ e. (omega (arith, next), λ l. refl);
          },
          tt,
        ),
        (p.0 ∙ sym next, tt),
      )

  pub producer_step :
      (spurious : Bool) (stage : Stage A)
      → ProducerOk q stage
      → ConsumerOk q stage
      → Stranger stage ⊎ ProducerStep n few q items h (advance spurious q stage)
  unfolding advance
  producer_step spurious (enqueue_start item) p c = inr (
    quiet_step n few q items h q.length (enqueue_write item q.read_idx) tt,
    (p.0, omega arith, omega (arith, h.ordered, h.room), tt),
  )
  producer_step spurious (enqueue_write item r) p c = inr (
      on_if (ProducerStep n few q items h)
        (index_of_queue q.size (add32 q.write_idx 1) == index_of_queue q.size r)
        (λ e. (quiet_step n few q items h q.length (enqueued false) tt, (p.0, tt)))
        (λ e. (
          quiet_step n few q items h q.length (enqueue_claim item q.write_idx) tt,
          (p.0, p.0, room_for r e p.0 p.1 p.2, tt),
        )))
  producer_step spurious (enqueue_claim item w) p c = inr (
      on_if (ProducerStep n few q items h) (not spurious && q.write_idx == w)
        (λ e.
          let next : add32 w 1 ≡ q.last_write_idx + 1 =
            add32_small w 1 (omega (arith, p.1, h.claimed, h.few_steps)) ∙ omega (arith, p.1) in
          claimed_step item w next p)
        (λ e. (quiet_step n few q items h q.length (enqueue_start item) tt, (p.0, tt))))
  producer_step spurious (enqueue_store item w) p c = inr (stored_step item w p)
  producer_step spurious (enqueue_publish item w) p c = inr (
      on_if (ProducerStep n few q items h) (not spurious && q.last_write_idx == w)
        (λ e. published_step item w p)
        (λ e. (
          quiet_step n few q items h q.length (enqueue_publish item q.last_write_idx) tt,
          (p.0, refl, p.2, p.3),
        )))
  producer_step spurious enqueue_count p c =
      inr (quiet_step n few q items h (add32 q.length 1) (enqueued true) tt, (p.0, tt))
  producer_step spurious _ p c = inl tt
