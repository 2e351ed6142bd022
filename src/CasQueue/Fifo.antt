-- ===== src/CasQueue/Fifo.antt =====
-- What common/cas_queue.hpp promises: a queue of the items that are in it, first in, first out.
use armory.Common.{ℕ, suc, ◌<◌, ◌≡◌, List, [], ◌∷◌, ◌++◌, length}
use armory.CasQueue.{Effect, nothing, pushed, popped}

-- One effect on a queue with room for one item less than `size`.
abbrev pub FifoStep {ℓ} : {A : Type ℓ} → ℕ → Effect A → List A → List A → Type ℓ
FifoStep size nothing items items' = items' ≡ items
FifoStep size (pushed item) items items' =
    (suc (length items) < size) × (items' ≡ items ++ item ∷ [])
FifoStep size (popped item) items items' = items ≡ item ∷ items'

-- The effects, in order, are those of such a queue that holds `items` at first.
abbrev pub Fifo {ℓ} : {A : Type ℓ} → ℕ → List (Effect A) → List A → Type ℓ
Fifo {A} size [] items = Unit
Fifo {A} size (effect ∷ effects) items =
    (items' : List A) × FifoStep size effect items items' × Fifo size effects items'
