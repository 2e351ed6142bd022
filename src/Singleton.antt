-- ===== src/Singleton.antt =====
-- common/utils_singleton.c: a process locks the file with its id, or kills the one that has.
pub mod Takes
mod Tests
use armory.Common.{
  ℕ, zero, suc, ◌+◌, ◌-◌, ◌^◌, ◌%◌, ℤ, pos, negsuc, List, [], ◌∷◌, ◌++◌, Bool, true, false, not,
  ◌&&◌, Option, none, some, Run, ok, fault, ◌>>=◌, to_int, u32_mod, take, filled, length, print_int,
  atol, ltb, ◌==◌, if◌then◌else◌,
}

-- The system around one pid file: whether it opens, its bytes and the process that has the lock on it;
-- the process groups, the processes that the caller may kill, and those that have got SIGKILL.
pub record World : Type 0 where
  pub can_open : Bool
  pub text : List ℕ
  pub holder : Option ℕ
  pub group : ℕ → ℕ
  pub may_kill : ℕ → Bool
  pub killed : ℕ → Bool

-- What a lock request of `self` meets.
abbrev pub held_by_other : ℕ → Option ℕ → Bool
held_by_other self none = false
held_by_other self (some pid) = not (pid == self)

-- `close`, which gives up a lock of the caller on the file.
abbrev pub release : ℕ → Option ℕ → Option ℕ
release self none = none
release self (some pid) = if pid == self then none else some pid

unfoldable pub is_proc_running : ℕ → World → Bool × World
is_proc_running self w =
    if not w.can_open
    then (false, w)
    else if held_by_other self w.holder
    then (true, record w { holder = release self w.holder })
    else (false, record w { holder = some self; text = print_int self })

-- Whether `kill` means a process, by the number that it is given: one process, the group of
-- the caller, all others but the first, or a group.
unfoldable pub targeted : ℤ → ℕ → (ℕ → ℕ) → ℕ → Bool
targeted (pos zero) self group pid = group pid == group self
targeted (pos (suc n)) self group pid = pid == suc n
targeted (negsuc zero) self group pid = not (pid == 1) && not (pid == self)
targeted (negsuc (suc n)) self group pid = group pid == suc (suc n)

-- The locks of a killed process stay until the system has ended it.
unfoldable pub kill : ℤ → ℕ → World → World
kill target self w = record w {
  killed = λ pid. if targeted target self w.group pid && w.may_kill pid then true else w.killed pid;
}

-- `(pid_t)` of a `long`.
unfoldable pub to_pid : ℤ → ℤ
to_pid (pos n) = to_int (n % u32_mod)
to_pid (negsuc n) = to_int (u32_mod - 1 - n % u32_mod)

-- `snprintf(pid_file, PATH_MAX, "%s/.%s.pid", getenv("HOME"), proc_name)`.
unfoldable pub pid_file_path : ℕ → Option (List ℕ) → List ℕ → Run (List ℕ)
pid_file_path path_max none proc_name = fault
pid_file_path path_max (some home) proc_name =
    ok (take (path_max - 1) (home ++ 47 ∷ 46 ∷ proc_name ++ 46 ∷ 112 ∷ 105 ∷ 100 ∷ []))

-- The first half of `proc_usurpation`, with `char buf[32] = { 0 }` behind `read`: the process whose id is in the file gets SIGKILL.
unfoldable pub kill_recorded : ℕ → World → Run World
kill_recorded self w =
    let target = atol (filled 32 w.text) in
    if length w.text == 0 then ok w else target >>= λ n. ok (kill (to_pid n) self w)

-- The function returns, or its own SIGKILL ends it, or it still waits when the fuel is used up.
pub data Fate : Type 0 where
  returned : (result : Bool) → Fate
  died waiting : Fate

-- The loop; `others` is what happens in the system in its n-th `sched_yield`.
unfoldable pub wait_turn : ℕ → (ℕ → World → World) → ℕ → ℕ → World → Fate × World
wait_turn zero others n self w = (waiting, w)
wait_turn (suc fuel) others n self w =
    let (running, w') = is_proc_running self w in
    let rest = wait_turn fuel others (suc n) self (others n w') in
    if running then rest else (returned true, w')

unfoldable pub usurp : ℕ → (ℕ → World → World) → ℕ → World → Run (Fate × World)
usurp fuel others self w =
    if not w.can_open
    then ok (returned false, w)
    else kill_recorded self w >>= λ w1. ok (
        if w1.killed self
        then (died, w1)
        else wait_turn fuel others 0 self (record w1 { holder = release self w1.holder }))

-- `proc_usurpation`; `system` has the world around each path.
unfoldable pub proc_usurpation :
    ℕ
    → (ℕ → World → World)
    → ℕ
    → Option (List ℕ)
    → (List ℕ → World)
    → ℕ
    → List ℕ
    → Run (Fate × World)
proc_usurpation fuel others path_max home system self proc_name =
    pid_file_path path_max home proc_name >>= λ path. usurp fuel others self (system path)
