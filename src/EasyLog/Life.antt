-- ===== src/EasyLog/Life.antt =====
-- `init_easy_log` and `destroy_easy_log`: the memory and the lock of the logger are never leaked.
use armory.Common.{
  take, ℕ, ◌+◌, ◌≡◌, refl, List, [], ◌∷◌, ◌++◌, Bool, true, false, Option, none, some, arith, ◌⊎◌,
  inl, inr, Bool-cases, if◌then◌else◌,
}
use armory.EasyLog.{
  Log, append_mode, Event, allocated, released, lock_created, lock_destroyed, opened, closed, Env,
  destroy_easy_log, open_log, init_easy_log,
}

-- How many events of a kind there are.
unfoldable pub tally : (Event → ℕ) → List Event → ℕ
tally kind [] = 0
tally kind (e ∷ trace) = kind e + tally kind trace

tally-++ :
    (kind : Event → ℕ) (xs ys : List Event) → tally kind (xs ++ ys) ≡ tally kind xs + tally kind ys
unfolding tally
tally-++ kind [] ys = omega arith
tally-++ kind (x ∷ xs) ys = omega (arith, tally-++ kind xs ys)

abbrev is_allocated : Event → ℕ
is_allocated allocated = 1
is_allocated _ = 0

abbrev is_released : Event → ℕ
is_released released = 1
is_released _ = 0

abbrev is_lock_created : Event → ℕ
is_lock_created lock_created = 1
is_lock_created _ = 0

abbrev is_lock_destroyed : Event → ℕ
is_lock_destroyed lock_destroyed = 1
is_lock_destroyed _ = 0

abbrev loggers : Option Log → ℕ
loggers none = 0
loggers (some log) = 1

abbrev locks : Option Log → ℕ
locks none = 0
locks (some log) = if log.enable_lock then 1 else 0

-- What has been allocated and not released is the logger there is, and likewise its lock.
pub record Owned (g : Option Log) (trace : List Event) : Type 0 where
  pub memory : tally is_allocated trace ≡ tally is_released trace + loggers g
  pub lock : tally is_lock_created trace ≡ tally is_lock_destroyed trace + locks g

-- Four counts of one event more.
Owned-step :
    (g g' : Option Log) (trace : List Event) (e : Event)
    → Owned g trace
    → is_allocated e + loggers g ≡ is_released e + loggers g'
    → is_lock_created e + locks g ≡ is_lock_destroyed e + locks g'
    → Owned g' (trace ++ e ∷ [])
unfolding tally
Owned-step g g' trace e o m l = record {
  memory = omega (
    arith,
    tally-++ is_allocated trace (e ∷ []),
    tally-++ is_released trace (e ∷ []),
    o.memory,
    m,
  );
  lock = omega (
    arith,
    tally-++ is_lock_created trace (e ∷ []),
    tally-++ is_lock_destroyed trace (e ∷ []),
    o.lock,
    l,
  );
}

-- A logger whose lock has been destroyed already.
abbrev unlocked_log : Log → Log
unlocked_log log = record log { enable_lock = false }

-- `destroy_easy_log` leaves no logger, and releases what there was.
destroy_easy_log-Owned :
    (g : Option Log) (trace : List Event)
    → Owned g trace
    → (let (g', trace') = destroy_easy_log g trace in (g' ≡ none) × Owned none trace')
unfolding destroy_easy_log
destroy_easy_log-Owned none trace o = (refl, o)
destroy_easy_log-Owned (some log) trace o = (refl, rest log.fp)
  where
    after :
        (t : List Event)
        → Owned (some log) t
        → Owned none ((if log.enable_lock then t ++ lock_destroyed ∷ [] else t) ++ released ∷ [])
    after t h = elim (Bool-cases log.enable_lock) [
      | inl on ↦ rw on (
          Owned-step (some (unlocked_log log)) none _ released
            (Owned-step (some log) (some (unlocked_log log)) t lock_destroyed h refl (rw on refl))
            refl refl)
      | inr off ↦ rw off (Owned-step (some log) none t released h refl (rw off refl))
    ]

    rest :
        (fp : Option ℕ)
        → (let t : List Event = elim fp [ none ↦ trace | some f ↦ trace ++ closed f ∷ [] ] in
            Owned none ((if log.enable_lock then t ++ lock_destroyed ∷ [] else t) ++ released ∷ []))
    rest none = after trace o
    rest (some f) =
        after (trace ++ closed f ∷ [])
          (Owned-step (some log) (some log) trace (closed f) o refl refl)

open_log-Owned :
    (env : Env) (path : List ℕ) (level : ℕ) (log : Log) (trace : List Event)
    → Owned (some log) trace
    → (let r = open_log env path level log trace in Owned r.1 r.2)
unfolding open_log
open_log-Owned env path level log trace o = opens (env.fopen trace)
  where
    step : Owned (some log) (trace ++ opened path append_mode ∷ [])
    step = Owned-step (some log) (some log) trace (opened path append_mode) o refl refl

    opens :
        (fp : Option ℕ)
        → (let trace1 = trace ++ opened path append_mode ∷ [] in
            let r : Bool × Option Log × List Event = elim fp [
              | none ↦ let (g, trace2) = destroy_easy_log (some log) trace1 in (false, g, trace2)
              | some f ↦ (true, some (record log { fp = some f; level = level }), trace1)
            ] in
            Owned r.1 r.2)
    opens none = let (e, h) = destroy_easy_log-Owned (some log) _ step in rw e h
    opens (some f) = record { memory = step.memory; lock = step.lock }

init_easy_log-Owned :
    (env : Env) (path : List ℕ) (level : ℕ) (enable_lock : Bool) (g : Option Log)
    (trace : List Event)
    → Owned g trace
    → (let r = init_easy_log env path level enable_lock g trace in Owned r.1 r.2)
unfolding init_easy_log
init_easy_log-Owned env path level enable_lock g trace o = elim (Bool-cases (env.calloc trace1)) [
  | inl found ↦ rw found (open_log-Owned env path level log _ (locking (Bool-cases enable_lock)))
  | inr missing ↦ rw missing free
]
  where
    trace1 : List Event
    trace1 = (destroy_easy_log g trace).1

    log : Log
    log = record {
      fp = none;
      log_path = take env.path_max path;
      level = 0;
      enable_lock = enable_lock;
    }

    free : Owned none trace1
    free = (destroy_easy_log-Owned g trace o).1

    bare : Owned (some (unlocked_log log)) (trace1 ++ allocated ∷ [])
    bare = Owned-step none (some (unlocked_log log)) trace1 allocated free refl refl

    locking :
        (enable_lock ≡ true) ⊎ (enable_lock ≡ false)
        → (let trace2 = trace1 ++ allocated ∷ [] in
            Owned (some log) (if enable_lock then trace2 ++ lock_created ∷ [] else trace2))
    locking (inl on) = rw on (Owned-step (some (unlocked_log log)) _ _ lock_created bare refl refl)
    locking (inr off) = rw off bare

-- Whatever was there before and whatever fails, `init_easy_log` and `destroy_easy_log` keep it
-- that what has been allocated and not released is the logger there is, and its lock.
pub easy_log-Owned :
    (env : Env) (path : List ℕ) (level : ℕ) (enable_lock : Bool) (g : Option Log)
    (trace : List Event)
    → Owned g trace
    → (let r = init_easy_log env path level enable_lock g trace in Owned r.1 r.2)
      × (let r = destroy_easy_log g trace in Owned r.0 r.1)
easy_log-Owned env path level enable_lock g trace o = (
  init_easy_log-Owned env path level enable_lock g trace o,
  let (e, h) = destroy_easy_log-Owned g trace o in rw e h,
)
