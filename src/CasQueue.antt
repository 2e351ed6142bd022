-- ===== src/CasQueue.antt =====
-- common/cas_queue.hpp: the queue, and what its threads do in steps. A step is one access of an
-- atomic or of the array, with the tests up to the next access; steps of threads interleave.
pub mod Indices
pub mod Rounding
pub mod Fifo
pub mod Invariant
pub mod Kept
pub mod Advance
pub mod Refine
pub mod Alone
mod Tests
use armory.Common.{
  ℕ, zero, suc, ◌+◌, ◌-◌, ◌*◌, ◌/◌, ◌%◌, ◌^◌, List, [], ◌∷◌, ◌++◌, Bool, true, false, not, ◌&&◌,
  ◌||◌, Option, none, some, add32, sub32, bit_and, bit_or, u32_mod, ◌==◌, if◌then◌else◌,
}

-- The private functions on sizes and indices.
unfoldable pub power_of_two : ℕ → Bool
power_of_two num = not (num == 0) && bit_and num (sub32 num 1) == 0

unfoldable pub ceil_power_of_two : ℕ → ℕ
ceil_power_of_two num =
    let num = bit_or num (num / 2) in
    let num = bit_or num (num / 2 ^ 2) in
    let num = bit_or num (num / 2 ^ 4) in
    let num = bit_or num (num / 2 ^ 8) in let num = bit_or num (num / 2 ^ 16) in sub32 num (num / 2)

unfoldable pub roundup_power_of_two : ℕ → ℕ
roundup_power_of_two num = ceil_power_of_two (sub32 num 1 * 2 % u32_mod)

-- `_size` as the constructor sets it.
unfoldable pub size_for : ℕ → ℕ
size_for size =
    if size == 1 then 2 else if power_of_two size then size else roundup_power_of_two size

unfoldable pub index_of_queue : ℕ → ℕ → ℕ
index_of_queue size index = bit_and index (sub32 size 1)

-- `cas_queue_t`. `_queue` is a function of the index.
pub record CasQueue {ℓ} (A : Type ℓ) : Type ℓ where
  pub size : ℕ
  pub length : ℕ
  pub read_idx : ℕ
  pub write_idx : ℕ
  pub last_write_idx : ℕ
  pub slots : ℕ → A

-- The constructor; `initial` is what `new T[]` leaves in the array.
unfoldable pub cas_queue {ℓ} : {A : Type ℓ} → ℕ → (ℕ → A) → CasQueue A
cas_queue size initial = record {
  size = size_for size;
  length = 0;
  read_idx = 0;
  write_idx = 0;
  last_write_idx = 0;
  slots = initial;
}

-- Where a thread is in its call, with its variables: in front of the access that is named.
pub data Stage {ℓ} (A : Type ℓ) : Type ℓ where
  idle : Stage A
  enqueue_start : (item : A) → Stage A
  enqueue_write : (item : A) (curr_read_idx : ℕ) → Stage A
  enqueue_claim : (item : A) (curr_write_idx : ℕ) → Stage A
  enqueue_store : (item : A) (curr_write_idx : ℕ) → Stage A
  enqueue_publish : (item : A) (curr_write_idx : ℕ) → Stage A
  enqueue_count : Stage A
  dequeue_start : Stage A
  dequeue_last : (curr_read_idx : ℕ) → Stage A
  dequeue_load : (curr_read_idx : ℕ) → Stage A
  dequeue_claim : (curr_read_idx : ℕ) (item : A) → Stage A
  dequeue_count : (item : A) → Stage A
  enqueued : (result : Bool) → Stage A
  dequeued : (result : Option A) → Stage A

-- What takes effect in a step: an item becomes visible, or is taken.
pub data Effect {ℓ} (A : Type ℓ) : Type ℓ where
  nothing : Effect A
  pushed : (item : A) → Effect A
  popped : (item : A) → Effect A

-- A write into the array.
abbrev pub put {ℓ} : {A : Type ℓ} → ℕ → A → (ℕ → A) → ℕ → A
put i item slots j = if i == j then item else slots j

-- One access of a thread. With `spurious` a weak exchange fails although the values are equal. A
-- failed exchange leaves the value that it found in `curr_write_idx` or `curr_read_idx`; the
-- loops of the two claims read these anew.
unfoldable pub advance {ℓ} :
    {A : Type ℓ} → Bool → CasQueue A → Stage A → CasQueue A × Stage A × Effect A
advance spurious q (enqueue_start item) = (q, enqueue_write item q.read_idx, nothing)
advance spurious q (enqueue_write item curr_read_idx) =
    let curr_write_idx = q.write_idx in
    if index_of_queue q.size (add32 curr_write_idx 1) == index_of_queue q.size curr_read_idx
    then (q, enqueued false, nothing)
    else (q, enqueue_claim item curr_write_idx, nothing)
advance spurious q (enqueue_claim item curr_write_idx) =
    if not spurious && q.write_idx == curr_write_idx
    then (
      record q { write_idx = add32 curr_write_idx 1 },
      enqueue_store item curr_write_idx,
      nothing,
    )
    else (q, enqueue_start item, nothing)
advance spurious q (enqueue_store item curr_write_idx) = (
  record q { slots = put (index_of_queue q.size curr_write_idx) item q.slots },
  enqueue_publish item curr_write_idx,
  nothing,
)
advance spurious q (enqueue_publish item curr_write_idx) =
    if not spurious && q.last_write_idx == curr_write_idx
    then (record q { last_write_idx = add32 curr_write_idx 1 }, enqueue_count, pushed item)
    else (q, enqueue_publish item q.last_write_idx, nothing)
advance spurious q enqueue_count = (record q { length = add32 q.length 1 }, enqueued true, nothing)
advance spurious q dequeue_start = (q, dequeue_last q.read_idx, nothing)
advance spurious q (dequeue_last curr_read_idx) =
    if index_of_queue q.size q.last_write_idx == index_of_queue q.size curr_read_idx
    then (q, dequeued none, nothing)
    else (q, dequeue_load curr_read_idx, nothing)
advance spurious q (dequeue_load curr_read_idx) =
    (q, dequeue_claim curr_read_idx (q.slots (index_of_queue q.size curr_read_idx)), nothing)
advance spurious q (dequeue_claim curr_read_idx item) =
    if not spurious && q.read_idx == curr_read_idx
    then (record q { read_idx = add32 curr_read_idx 1 }, dequeue_count item, popped item)
    else (q, dequeue_start, nothing)
advance spurious q (dequeue_count item) =
    (record q { length = sub32 q.length 1 }, dequeued (some item), nothing)
advance spurious q idle = (q, idle, nothing)
advance spurious q (enqueued result) = (q, enqueued result, nothing)
advance spurious q (dequeued result) = (q, dequeued result, nothing)

-- `empty` and `size`.
unfoldable pub empty {ℓ} : {A : Type ℓ} → CasQueue A → Bool
empty q = 0 == q.length

unfoldable pub size_of {ℓ} : {A : Type ℓ} → CasQueue A → ℕ
size_of q = q.length

-- The queue with its threads.
pub record System {ℓ} (A : Type ℓ) : Type ℓ where
  pub queue : CasQueue A
  pub stages : ℕ → Stage A

-- What the scheduler does next: a thread calls one of the two functions, or makes a step.
pub data Action {ℓ} (A : Type ℓ) : Type ℓ where
  enqueue : (thread : ℕ) (item : A) → Action A
  dequeue : (thread : ℕ) → Action A
  tick : (thread : ℕ) (spurious : Bool) → Action A

-- A thread in no call, whose next call may begin.
abbrev pub is_free {ℓ} : {A : Type ℓ} → Stage A → Bool
is_free idle = true
is_free (enqueued result) = true
is_free (dequeued result) = true
is_free _ = false

abbrev pub at_stage {ℓ} : {A : Type ℓ} → ℕ → Stage A → (ℕ → Stage A) → ℕ → Stage A
at_stage thread stage stages t = if thread == t then stage else stages t

-- A call of a thread that is in one already does not happen.
unfoldable pub call {ℓ} : {A : Type ℓ} → ℕ → Stage A → System A → System A
call thread stage s =
    if is_free (s.stages thread) then record s { stages = at_stage thread stage s.stages } else s

unfoldable pub act {ℓ} : {A : Type ℓ} → Action A → System A → System A × Effect A
act (enqueue thread item) s = (call thread (enqueue_start item) s, nothing)
act (dequeue thread) s = (call thread dequeue_start s, nothing)
act (tick thread spurious) s =
    let (q, stage, effect) = advance spurious s.queue (s.stages thread) in
    (record { queue = q; stages = at_stage thread stage s.stages }, effect)

-- A run, with its effects in order.
unfoldable pub run {ℓ} : {A : Type ℓ} → List (Action A) → System A → System A × List (Effect A)
run [] s = (s, [])
run (action ∷ actions) s =
    let (s', effect) = act action s in
    let (last, effects) = run actions s' in (last, effect ∷ effects)

abbrev pub start {ℓ} : {A : Type ℓ} → ℕ → (ℕ → A) → System A
start size initial = record { queue = cas_queue size initial; stages = λ t. idle }
