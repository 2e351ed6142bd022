-- ===== src/EasyLog/Append.antt =====
-- `log_append`: what is written, and that the lock is given back.
use armory.Common.{
  not_fault, take, ℕ, ◌+◌, ◌-◌, ◌≤◌, ◌<◌, ◌≡◌, ◌≢◌, ◌↔◌, refl, sym, ap, ◌∙◌, pos, ltz, List, [],
  ◌∷◌, ◌++◌, Bool, true, false, not, Option, none, some, arith, inl, inr, Run, ok, fault, ◌>>=◌,
  length, ◌==◌, Bool-cases, if◌then◌else◌, lt→ltb, filled-end, length-filled, read_bytes-append,
  read_bytes-inside, read_bytes-outside, take-all,
}
use mathlib.Core.List.{append-nil}
use native.Mathlib.Decide.{dec_lt}
use armory.EasyLog.Format.{utc_format}
use armory.EasyLog.{
  log_use_limit, log_len_limit, utc_format_len, Log, write_mode, Event, locked, unlocked, opened,
  closed, renamed, wrote, flushed, Env, rotate, log_append_check, prefix, buffered, write_message,
  append_text, log_internal, log_append,
}

-- The lock's event, if the lock is enabled.
abbrev pub lock_event : Log → Event → List Event
lock_event log event = if log.enable_lock then event ∷ [] else []

-- The file is not full yet.
abbrev pub HasRoom : Env → ℕ → List Event → Type 0
HasRoom env f trace = ltz (env.ftell f trace) (pos log_use_limit) ≡ true

abbrev pub IsFull : Env → ℕ → List Event → Type 0
IsFull env f trace = ltz (env.ftell f trace) (pos log_use_limit) ≡ false

-- The time stamp, the level and the module in front of a message.
abbrev pub stamped : Env → List ℕ → Option (List ℕ) → List Event → List ℕ
stamped env level module' trace =
    prefix (utc_format (env.localtime trace) utc_format_len false) level module'

log_internal-ok :
    (event : Event) (log : Log) (trace : List Event)
    → log_internal event (some log) trace ≡ ok (trace ++ lock_event log event)
unfolding log_internal
log_internal-ok event log trace = elim (Bool-cases log.enable_lock) [
  | inl on ↦ rw on
  | inr off ↦ rw (off, append-nil trace)
]

write_message-ok :
    (env : Env) (f : ℕ) (text : List ℕ) (trace : List Event)
    → length text < log_len_limit
    → write_message env f text trace
      ≡ ok (length text == env.fwrite trace, trace ++ wrote f text ∷ flushed f ∷ [])
unfolding write_message buffered
write_message-ok env f text trace h =
    let whole : take (log_len_limit - 1) text ≡ text =
      take-all (log_len_limit - 1) text (omega (arith, h)) in
    rw (whole, filled-end log_len_limit text h, read_bytes-append text) refl

append_text-ok :
    (env : Env) (log : Log) (f : ℕ) (text c : List ℕ) (trace : List Event)
    → log.fp ≡ some f
    → length (text ++ c) < log_len_limit
    → append_text env (some log) text (some c) trace
      ≡ ok (length (text ++ c) == env.fwrite trace, trace ++ wrote f (text ++ c) ∷ flushed f ∷ [])
unfolding append_text
append_text-ok env log f text c trace is_open h =
    rw is_open (write_message-ok env f (text ++ c) trace h)

log_append_check-room :
    (env : Env) (log : Log) (f : ℕ) (trace : List Event)
    → log.fp ≡ some f
    → HasRoom env f trace
    → log_append_check env (some log) trace ≡ ok (true, some log, trace)
unfolding log_append_check
log_append_check-room env log f trace is_open room = checked log.fp is_open
  where
    checked :
        (o : Option ℕ)
        → o ≡ some f
        → (elim o [
          | none ↦ fault
          | some f ↦
              if not (ltz (env.ftell f trace) (pos log_use_limit))
              then rotate env log f trace
              else ok (true, some log, trace)
        ])
          ≡ ok (true, some log, trace)
    checked o e = rw (e, room)

-- Where a full file goes, and the events that move it there.
abbrev pub moved_path : Env → Log → ℕ → List Event → List ℕ
moved_path env log f trace =
    let utc_buf = utc_format (env.localtime (trace ++ closed f ∷ [])) utc_format_len true in
    take (env.path_max + utc_format_len - 1) (log.log_path ++ 95 ∷ utc_buf)

abbrev pub moved : Env → Log → ℕ → List Event → List Event
moved env log f trace =
    (trace ++ closed f ∷ []) ++ renamed log.log_path (moved_path env log f trace) ∷ []

log_append_check-full :
    (env : Env) (log : Log) (f : ℕ) (trace : List Event) (fp : Option ℕ)
    → log.fp ≡ some f
    → length log.log_path < env.path_max
    → IsFull env f trace
    → env.fopen (moved env log f trace) ≡ fp
    → log_append_check env (some log) trace
      ≡ ok (
        elim fp [ none ↦ false | some _ ↦ true ],
        some (record log { fp = fp }),
        moved env log f trace ++ opened log.log_path write_mode ∷ [],
      )
unfolding log_append_check rotate
log_append_check-full env log f trace fp is_open short full reopened = checked log.fp is_open
  where
    rotated :
        rotate env log f trace
        ≡ ok (
          elim fp [ none ↦ false | some _ ↦ true ],
          some (record log { fp = fp }),
          moved env log f trace ++ opened log.log_path write_mode ∷ [],
        )
    rotated = rw (lt→ltb (length log.log_path) env.path_max short, reopened)

    checked :
        (o : Option ℕ)
        → o ≡ some f
        → (elim o [
          | none ↦ fault
          | some f ↦
              if not (ltz (env.ftell f trace) (pos log_use_limit))
              then rotate env log f trace
              else ok (true, some log, trace)
        ])
          ≡ ok (
            elim fp [ none ↦ false | some _ ↦ true ],
            some (record log { fp = fp }),
            moved env log f trace ++ opened log.log_path write_mode ∷ [],
          )
    checked o e = rw (e, full, rotated)

module _ (env : Env) (level : List ℕ) (module' : Option (List ℕ)) (c : List ℕ) (log : Log) (f : ℕ)
    (trace : List Event) (is_open : log.fp ≡ some f)
    (short : length (stamped env level module' trace ++ c) < log_len_limit) where
  -- With an open file that is not full, and a line that fits its buffer, `log_append` writes the
  -- time stamp, the level, the module and the message to it, once and whole, flushes it, and gives
  -- the lock back if it took it. Its result says whether the file took all bytes.
  pub log_append-writes :
      HasRoom env f (trace ++ lock_event log locked)
      → (let text = stamped env level module' trace ++ c in
          let trace1 = trace ++ lock_event log locked in
          log_append env level module' (some c) (some log) trace
          ≡ ok (
            length text == env.fwrite trace1,
            some log,
            (trace1 ++ wrote f text ∷ flushed f ∷ []) ++ lock_event log unlocked,
          ))
  unfolding log_append
  log_append-writes room = rw (
    log_internal-ok locked log trace,
    log_append_check-room env log f (trace ++ lock_event log locked) is_open room,
    append_text-ok env log f (stamped env level module' trace) c (trace ++ lock_event log locked)
        is_open short,
    log_internal-ok unlocked log,
  )

  -- With an open file that is full, a path that fits its array and a line that fits its buffer,
  -- `log_append` closes the file, renames it to its path with the time added, opens the path anew
  -- and writes the line to the new file, all under the lock.
  pub log_append-rotates :
      (f' : ℕ)
      → IsFull env f (trace ++ lock_event log locked)
      → length log.log_path < env.path_max
      → env.fopen (moved env log f (trace ++ lock_event log locked)) ≡ some f'
      → (let text = stamped env level module' trace ++ c in
          let trace2 =
            moved env log f (trace ++ lock_event log locked)
            ++ opened log.log_path write_mode ∷ [] in
          log_append env level module' (some c) (some log) trace
          ≡ ok (
            length text == env.fwrite trace2,
            some (record log { fp = some f' }),
            (trace2 ++ wrote f' text ∷ flushed f' ∷ []) ++ lock_event log unlocked,
          ))
  unfolding log_append
  log_append-rotates f' full path reopened = rw (
    log_internal-ok locked log trace,
    log_append_check-full env log f (trace ++ lock_event log locked) (some f') is_open path full
        reopened,
    append_text-ok env (record log { fp = some f' }) f' (stamped env level module' trace) c
        (moved env log f (trace ++ lock_event log locked) ++ opened log.log_path write_mode ∷ [])
        refl short,
    log_internal-ok unlocked (record log { fp = some f' }),
  )

-- With a path that fits its array, an open file that is full, and no file when the path is
-- opened anew, the message is lost and the result is false, with the lock given back. The logger
-- stays without a file, and the next call asks for the position of NULL.
pub log_append-lost :
    (env : Env) (level : List ℕ) (module' content : Option (List ℕ)) (log : Log) (f : ℕ)
    (trace : List Event)
    → log.fp ≡ some f
    → IsFull env f (trace ++ lock_event log locked)
    → length log.log_path < env.path_max
    → env.fopen (moved env log f (trace ++ lock_event log locked)) ≡ none
    → (let trace2 =
          moved env log f (trace ++ lock_event log locked) ++ opened log.log_path write_mode ∷ [] in
        let log1 = record log { fp = none } in
        (log_append env level module' content (some log) trace
          ≡ ok (false, some log1, trace2 ++ lock_event log unlocked))
        × ((next : List Event) → log_append env level module' content (some log1) next ≡ fault))
unfolding log_append log_append_check
log_append-lost env level module' content log f trace is_open full path reopened = (
  rw (
    log_internal-ok locked log trace,
    log_append_check-full env log f (trace ++ lock_event log locked) none is_open path full
        reopened,
    log_internal-ok unlocked (record log { fp = none }),
  ),
  λ next. rw (log_internal-ok locked (record log { fp = none }) next, log_append_check),
)

length-buffered : (text : List ℕ) → length (buffered text) ≡ log_len_limit
unfolding buffered
length-buffered text = length-filled log_len_limit (take (log_len_limit - 1) text)

-- What `log_append` has left to do with the lock.
unlocked_after : (log : Log) (m : Run (Bool × List Event)) → Run (Bool × Option Log × List Event)
unlocked_after log m = do
  (result, trace1) ← m
  trace2 ← log_internal unlocked (some log) trace1
  ok (result, some log, trace2)

write_message-fits :
    (env : Env) (log : Log) (f : ℕ) (text : List ℕ) (trace : List Event)
    → length text ≤ log_len_limit
    → unlocked_after log (write_message env f text trace) ≢ fault
unfolding write_message unlocked_after
write_message-fits env log f text trace h =
    let (bytes, e) =
      read_bytes-inside (length text) (buffered text) (omega (arith, h, length-buffered text)) in
    rw (e, log_internal-ok unlocked log) not_fault

write_message-overruns :
    (env : Env) (f : ℕ) (text : List ℕ) (trace : List Event)
    → log_len_limit < length text
    → write_message env f text trace ≡ fault
unfolding write_message
write_message-overruns env f text trace h =
    rw (read_bytes-outside (length text) (buffered text) (omega (arith, h, length-buffered text)))
      refl

-- With an open file that is not full, `log_append` reads outside its buffer exactly if the line
-- is longer than the buffer: `vsnprintf` cuts such a line off but returns its whole length.
pub log_append-overruns :
    (env : Env) (level : List ℕ) (module' : Option (List ℕ)) (c : List ℕ) (log : Log) (f : ℕ)
    (trace : List Event)
    → log.fp ≡ some f
    → HasRoom env f (trace ++ lock_event log locked)
    → (log_append env level module' (some c) (some log) trace ≡ fault)
      ↔ (log_len_limit < length (stamped env level module' trace ++ c))
unfolding log_append append_text unlocked_after
log_append-overruns env level module' c log f trace is_open room =
    let text = stamped env level module' trace ++ c in
    let trace1 = trace ++ lock_event log locked in
    let body : log_append env level module' (some c) (some log) trace
        ≡ unlocked_after log (write_message env f text trace1) =
      rw
        (
          log_internal-ok locked log trace,
          log_append_check-room env log f trace1 is_open room,
          is_open,
        )
        refl in
    (
      λ faults. elim (dec_lt log_len_limit (length text)) [
        | yes long ↦ long
        | no short ↦
            absurd
              (write_message-fits env log f text trace1 (omega (arith, short)) (sym body ∙ faults))
      ],
      λ long. body ∙ ap (unlocked_after log) (write_message-overruns env f text trace1 long),
    )
