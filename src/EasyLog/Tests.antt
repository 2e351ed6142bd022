-- ===== src/EasyLog/Tests.antt =====
-- Runs of the logger, and examples of its results.
use armory.Common.{
  ◌↔◌, ◌<◌, print_int, take, zero, suc, ltz, ℕ, ◌^◌, ◌≡◌, refl, pos, List, [], ◌∷◌, ◌++◌, true,
  false, Option, none, some, arith, ok, fault, length, ◌==◌,
}
use armory.EasyLog.Format.{Tm, print_two, utc_format}
use armory.EasyLog.{
  Log, append_mode, write_mode, Event, locked, unlocked, opened, wrote, flushed, lock_created,
  allocated, Env, destroy_easy_log, open_log, init_easy_log, prefix, log_append, log_internal,
  log_len_limit, modlog, fatal,
}
use armory.EasyLog.Append.{
  stamped, moved, log_append-writes, log_append-overruns, log_append-rotates, log_append-lost,
}
use armory.EasyLog.Life.{tally, Owned, easy_log-Owned}

-- 2024/01/02 03:04:05
abbrev new_year : Tm
new_year = record { tm_year = 124; tm_mon = 0; tm_mday = 2; tm_hour = 3; tm_min = 4; tm_sec = 5 }

-- Files are found, their position is `used`, and every write takes 24 bytes.
abbrev disk : ℕ → Option ℕ → Env
disk used file = record {
  path_max = 4096;
  calloc = λ t. true;
  fopen = λ t. file;
  ftell = λ f t. pos used;
  localtime = λ t. new_year;
  fwrite = λ t. 24;
}

-- A logger to the file `a`.
abbrev sample : Log
sample = record { fp = some 3; log_path = 97 ∷ []; level = 4; enable_lock = true }

utc_run :
    utc_format new_year 24 false
    ≡ 50 ∷ 48 ∷ 50 ∷ 52 ∷ 47 ∷ 48 ∷ 49 ∷ 47 ∷ 48 ∷ 50 ∷ 32 ∷ 48 ∷ 51 ∷ 58 ∷ 48 ∷ 52 ∷ 58 ∷ 48 ∷ 53
      ∷ []
unfolding utc_format print_two print_int take
utc_run = refl

init_run :
    init_easy_log (disk 0 (some 3)) (97 ∷ []) 4 true none []
    ≡ (true, some sample, allocated ∷ lock_created ∷ opened (97 ∷ []) append_mode ∷ [])
unfolding init_easy_log open_log destroy_easy_log take
init_run = refl

abbrev line : List ℕ
line = stamped (disk 0 (some 3)) (91 ∷ 93 ∷ []) none []

log_append-writes_example :
    log_append (disk 0 (some 3)) (91 ∷ 93 ∷ []) none (some (10 ∷ [])) (some sample) []
    ≡ ok (
      length (line ++ 10 ∷ []) == 24,
      some sample,
      locked ∷ wrote 3 (line ++ 10 ∷ []) ∷ flushed 3 ∷ unlocked ∷ [],
    )
unfolding utc_format print_two print_int take prefix ltz
log_append-writes_example =
    log_append-writes (disk 0 (some 3)) (91 ∷ 93 ∷ []) none (10 ∷ []) sample 3 [] refl (omega arith)
      refl

log_append-rotates_example :
    (let env = disk (2 ^ 30) (some 5) in
      let trace = moved env sample 3 (locked ∷ []) ++ opened (97 ∷ []) write_mode ∷ [] in
      log_append env (91 ∷ 93 ∷ []) none (some (10 ∷ [])) (some sample) []
      ≡ ok (
        length (line ++ 10 ∷ []) == 24,
        some (record sample { fp = some 5 }),
        (trace ++ wrote 5 (line ++ 10 ∷ []) ∷ flushed 5 ∷ []) ++ unlocked ∷ [],
      ))
unfolding utc_format print_two print_int take prefix ltz
log_append-rotates_example =
    log_append-rotates (disk (2 ^ 30) (some 5)) (91 ∷ 93 ∷ []) none (10 ∷ []) sample 3 [] refl
      (omega arith) 5 refl (omega arith) refl

log_append-lost_example :
    (let env = disk (2 ^ 30) none in
      let trace = moved env sample 3 (locked ∷ []) ++ opened (97 ∷ []) write_mode ∷ [] in
      let log1 = record sample { fp = none } in
      (log_append env (91 ∷ 93 ∷ []) none (some (10 ∷ [])) (some sample) []
        ≡ ok (false, some log1, trace ++ unlocked ∷ []))
      × ((next : List Event)
          → log_append env (91 ∷ 93 ∷ []) none (some (10 ∷ [])) (some log1) next ≡ fault))
unfolding ltz
log_append-lost_example =
    log_append-lost (disk (2 ^ 30) none) (91 ∷ 93 ∷ []) none (some (10 ∷ [])) sample 3 [] refl refl
      (omega arith) refl

-- Without a logger `MODLOG_FATAL` reads a field of NULL in front of the test for it.
fatal_run : modlog (disk 0 none) fatal none (some []) none [] ≡ fault
unfolding modlog log_append log_internal
fatal_run = refl

easy_log-Owned_example :
    (let r = init_easy_log (disk 0 none) (97 ∷ []) 4 true none [] in Owned r.1 r.2)
    × (let r = destroy_easy_log none [] in Owned r.0 r.1)
unfolding tally
easy_log-Owned_example =
    easy_log-Owned (disk 0 none) (97 ∷ []) 4 true none [] (record { memory = refl; lock = refl })

-- `n` bytes.
long_text : ℕ → List ℕ
long_text zero = []
long_text (suc n) = 120 ∷ long_text n

log_append-overruns_example :
    (log_append (disk 0 (some 3)) (91 ∷ 93 ∷ []) none (some (long_text 4090)) (some sample) []
      ≡ fault)
    ↔ (log_len_limit < length (line ++ long_text 4090))
unfolding ltz
log_append-overruns_example =
    log_append-overruns (disk 0 (some 3)) (91 ∷ 93 ∷ []) none (long_text 4090) sample 3 [] refl refl
