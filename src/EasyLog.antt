-- ===== src/EasyLog.antt =====
-- common/easy_log/easy_log.h and common/easy_log/easy_log.c. A text is a list of bytes, a `FILE *`
-- a number, or none for NULL, and `g_log` is passed and returned.
pub mod Format
pub mod Append
pub mod Life
mod Tests
use armory.Common.{
  take, filled, read_bytes, ℕ, zero, suc, ◌+◌, ◌-◌, ◌*◌, ℤ, pos, ltz, List, [], ◌∷◌, ◌++◌, Bool,
  true, false, not, Option, none, some, Run, ok, fault, ◌>>=◌, length, leb, ltb, ◌==◌,
  if◌then◌else◌,
}
use armory.EasyLog.Format.{Tm, utc_format}

-- `LOG_USE_LIMIT`, `LOG_LEN_LIMIT` and `UTC_FORMAT_LEN`.
abbrev pub log_use_limit : ℕ
log_use_limit = 1024 * 1024 * 100

abbrev pub log_len_limit : ℕ
log_len_limit = 4 * 1024

abbrev pub utc_format_len : ℕ
utc_format_len = 24

-- `easy_log_t` without its lock, which is known by its events, and its buffer, which
-- `log_append` fills before each use.
pub record Log : Type 0 where
  pub fp : Option ℕ
  pub log_path : List ℕ
  pub level : ℕ
  pub enable_lock : Bool

pub data Mode : Type 0 where
  append_mode write_mode : Mode

-- What the logger does to the outside.
pub data Event : Type 0 where
  allocated released lock_created lock_destroyed locked unlocked : Event
  opened : List ℕ → Mode → Event
  closed : ℕ → Event
  renamed : (old_path new_path : List ℕ) → Event
  wrote : ℕ → List ℕ → Event
  flushed : ℕ → Event

-- The outside answers each call by what has happened before.
pub record Env : Type 0 where
  pub path_max : ℕ
  pub calloc : List Event → Bool
  pub fopen : List Event → Option ℕ
  pub ftell : ℕ → List Event → ℤ
  pub localtime : List Event → Tm
  pub fwrite : List Event → ℕ

unfoldable pub destroy_easy_log : Option Log → List Event → Option Log × List Event
destroy_easy_log none trace = (none, trace)
destroy_easy_log (some log) trace =
    let trace1 : List Event = elim log.fp [ none ↦ trace | some f ↦ trace ++ closed f ∷ [] ] in
    let trace2 = if log.enable_lock then trace1 ++ lock_destroyed ∷ [] else trace1 in
    (none, trace2 ++ released ∷ [])

-- `init_easy_log` from `fopen` on, for a logger that is not open yet.
unfoldable pub open_log : Env → List ℕ → ℕ → Log → List Event → Bool × Option Log × List Event
open_log env log_path level log trace =
    let trace1 = trace ++ opened log_path append_mode ∷ [] in
    elim (env.fopen trace) [
      | none ↦ let (g, trace2) = destroy_easy_log (some log) trace1 in (false, g, trace2)
      | some f ↦ (true, some (record log { fp = some f; level = level }), trace1)
    ]

unfoldable pub init_easy_log :
    Env → List ℕ → ℕ → Bool → Option Log → List Event → Bool × Option Log × List Event
init_easy_log env log_path level enable_lock g trace =
    let (_, trace1) = destroy_easy_log g trace in
    let trace2 = trace1 ++ allocated ∷ [] in
    let trace3 = if enable_lock then trace2 ++ lock_created ∷ [] else trace2 in
    let log : Log = record {
      fp = none;
      log_path = take env.path_max log_path;
      level = 0;
      enable_lock = enable_lock;
    } in
    if env.calloc trace1 then open_log env log_path level log trace3 else (false, none, trace1)

-- `LOG_LEVEL_FATAL` is 1, and each level after it one more.
unfoldable pub log_get_level : Option Log → ℕ
log_get_level none = 1
log_get_level (some log) = log.level

-- The part of `log_append_check` that moves a full file away. A path that fills its array has no
-- terminator, and is read behind its end.
unfoldable pub rotate : Env → Log → ℕ → List Event → Run (Bool × Option Log × List Event)
rotate env log f trace =
    let trace1 = trace ++ closed f ∷ [] in
    let utc_buf = utc_format (env.localtime trace1) utc_format_len true in
    let new_path = take (env.path_max + utc_format_len - 1) (log.log_path ++ 95 ∷ utc_buf) in
    let trace2 = trace1 ++ renamed log.log_path new_path ∷ [] in
    let fp = env.fopen trace2 in
    let is_open : Bool = elim fp [ none ↦ false | some _ ↦ true ] in
    if ltb (length log.log_path) env.path_max
    then ok (is_open, some (record log { fp = fp }), trace2 ++ opened log.log_path write_mode ∷ [])
    else fault

-- `log_append_check`; `ftell` of NULL is undefined.
unfoldable pub log_append_check :
    Env → Option Log → List Event → Run (Bool × Option Log × List Event)
log_append_check env none trace = ok (false, none, trace)
log_append_check env (some log) trace = elim log.fp [
  | none ↦ fault
  | some f ↦
      let full = rotate env log f trace in
      if not (ltz (env.ftell f trace) (pos log_use_limit)) then full else ok (true, some log, trace)
]

-- The text in front of a message.
unfoldable pub prefix : List ℕ → List ℕ → Option (List ℕ) → List ℕ
prefix utc_buf level none = utc_buf ++ 32 ∷ level ++ 32 ∷ []
prefix utc_buf level (some module') = utc_buf ++ 32 ∷ level ++ 32 ∷ 91 ∷ module' ++ 93 ∷ 32 ∷ []

-- `log_buf` after both calls of `snprintf`, which cut a text that is too long off and end it with a 0.
-- Behind that, where the source has rests of older messages, there are zeros.
unfoldable pub buffered : List ℕ → List ℕ
buffered text = filled log_len_limit (take (log_len_limit - 1) text)

-- `fwrite` and `fflush` of a message: as many bytes of the buffer as the whole text has.
unfoldable pub write_message : Env → ℕ → List ℕ → List Event → Run (Bool × List Event)
write_message env f text trace = do
  bytes ← read_bytes (length text) (buffered text)
  ok (length text == env.fwrite trace, trace ++ wrote f bytes ∷ flushed f ∷ [])

-- `log_append` behind its check. `content` is what `vsnprintf` prints, none for an error.
unfoldable pub append_text :
    Env → Option Log → List ℕ → Option (List ℕ) → List Event → Run (Bool × List Event)
append_text env none text content trace = fault
append_text env (some log) text content trace = elim log.fp [
  | none ↦ fault
  | some f ↦ elim content [
    | none ↦ if leb (length text) log_len_limit then ok (false, trace) else fault
    | some c ↦ write_message env f (text ++ c) trace
  ]
]

-- `LOG_INTERNAL_LOCK` and `LOG_INTERNAL_UNLOCK`, which look at the fields of `*g_log`.
unfoldable pub log_internal : Event → Option Log → List Event → Run (List Event)
log_internal event none trace = fault
log_internal event (some log) trace = ok (if log.enable_lock then trace ++ event ∷ [] else trace)

unfoldable pub log_append :
    Env
    → List ℕ
    → Option (List ℕ)
    → Option (List ℕ)
    → Option Log
    → List Event
    → Run (Bool × Option Log × List Event)
log_append env level module' content g trace = do
  let text = prefix (utc_format (env.localtime trace) utc_format_len false) level module'
  trace1 ← log_internal locked g trace
  (good, g1, trace2) ← log_append_check env g trace1
  (result, trace3) ← if good then append_text env g1 text content trace2 else ok (false, trace2)
  trace4 ← log_internal unlocked g1 trace3
  ok (result, g1, trace4)

-- The levels of the macros, with the level that each asks for and its tag.
pub data Severity : Type 0 where
  fatal error warn info debug trace_level : Severity

abbrev pub threshold : Severity → ℕ
threshold fatal = 1
threshold error = 2
threshold warn = 3
threshold info = 4
threshold debug = 5
threshold trace_level = 6

-- `[FATAL]`, `[ERROR]`, `[WARN]`, `[INFO]`, `[DEBUG]` and `[TRACE]`.
abbrev pub tag : Severity → List ℕ
tag fatal = 91 ∷ 70 ∷ 65 ∷ 84 ∷ 65 ∷ 76 ∷ 93 ∷ []
tag error = 91 ∷ 69 ∷ 82 ∷ 82 ∷ 79 ∷ 82 ∷ 93 ∷ []
tag warn = 91 ∷ 87 ∷ 65 ∷ 82 ∷ 78 ∷ 93 ∷ []
tag info = 91 ∷ 73 ∷ 78 ∷ 70 ∷ 79 ∷ 93 ∷ []
tag debug = 91 ∷ 68 ∷ 69 ∷ 66 ∷ 85 ∷ 71 ∷ 93 ∷ []
tag trace_level = 91 ∷ 84 ∷ 82 ∷ 65 ∷ 67 ∷ 69 ∷ 93 ∷ []

-- A macro that tests the level; its value is not used.
unfoldable pub gated :
    Env
    → Severity
    → Option (List ℕ)
    → Option (List ℕ)
    → Option Log
    → List Event
    → Run (Option Log × List Event)
gated env severity module' content g trace =
    let call : Run (Option Log × List Event) = do
      (result, g1, trace1) ← log_append env (tag severity) module' content g trace
      ok (g1, trace1)
    in if leb (threshold severity) (log_get_level g) then call else ok (g, trace)

-- `MODLOG_FATAL` does not test the level, and `MODLOG_ERROR` passes no module.
unfoldable pub modlog :
    Env
    → Severity
    → Option (List ℕ)
    → Option (List ℕ)
    → Option Log
    → List Event
    → Run (Option Log × List Event)
modlog env fatal module' content g trace = do
  (result, g1, trace1) ← log_append env (tag fatal) module' content g trace
  ok (g1, trace1)
modlog env error module' content g trace = gated env error none content g trace
modlog env warn module' content g trace = gated env warn module' content g trace
modlog env info module' content g trace = gated env info module' content g trace
modlog env debug module' content g trace = gated env debug module' content g trace
modlog env trace_level module' content g trace = gated env trace_level module' content g trace
