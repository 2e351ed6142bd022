-- ===== src/Singleton/Tests.antt =====
-- Runs of common/utils_singleton.c, and an example of its result.
use armory.Common.{
  filled, ℕ, zero, suc, ◌≡◌, refl, List, [], ◌∷◌, true, false, none, some, ok, fault, arith,
  print_int, atol, to_int, ◌==◌, if◌then◌else◌,
}
use armory.Singleton.{
  World, is_proc_running, targeted, kill, to_pid, pid_file_path, kill_recorded, returned, died,
  waiting, wait_turn, usurp, proc_usurpation,
}
use armory.Singleton.Takes.{after, taken, struck, proc_usurpation-takes}

-- Process 7 has the lock, and the file has the text; all may be killed, and all are in one group.
world : List ℕ → World
world text = record {
  can_open = true;
  text = text;
  holder = some 7;
  group = λ pid. 1;
  may_kill = λ pid. true;
  killed = λ pid. false;
}

-- The lock of a process is given up in the second `sched_yield`.
ended_later : ℕ → World → World
ended_later n w = if n == 0 then w else record w { holder = none }

-- A text that is no number stands for 0: the whole group of the caller gets SIGKILL.
own_group_run :
    (let r = usurp 3 ended_later 9 (world (120 ∷ [])) in
      r ≡ ok (died, record (world (120 ∷ [])) { killed = λ pid. true }))
unfolding usurp kill_recorded atol filled to_pid to_int kill targeted world
own_group_run = refl

-- While the holder has emptied the file and not written its id, it is not killed, and is waited for.
no_text_run : usurp 3 (λ n w. w) 9 (world []) ≡ ok (waiting, world [])
unfolding usurp kill_recorded wait_turn is_proc_running world
no_text_run = refl

-- If the file does not open any more, the result is true without a lock.
no_lock_run :
    usurp 3 (λ n w. record w { can_open = false }) 9 (world [])
    ≡ ok (returned true, record (world []) { can_open = false })
unfolding usurp kill_recorded wait_turn is_proc_running world
no_lock_run = refl

spaces : ℕ → List ℕ
spaces zero = []
spaces (suc n) = 32 ∷ spaces n

-- A text of 32 bytes leaves no byte 0 in the buffer.
no_end_run : usurp 3 ended_later 9 (world (spaces 32)) ≡ fault
unfolding usurp kill_recorded atol filled world spaces
no_end_run = refl

proc_usurpation-takes_example :
    proc_usurpation 5 ended_later 1024
      (some (47 ∷ 104 ∷ []))
      (λ path. world (print_int 7))
      9
      (120 ∷ [])
    ≡ ok (returned true, taken 9 (after ended_later 0 2 (struck 7 (world (print_int 7)))))
unfolding pid_file_path world ended_later
proc_usurpation-takes_example =
    proc_usurpation-takes ended_later 1024 (some (47 ∷ 104 ∷ [])) (λ path. world (print_int 7)) 9
      (120 ∷ []) _ 7 2 5 refl refl refl refl (omega arith) (omega arith) (omega arith) refl
      (refl, refl, (refl, refl, (refl, refl))) (omega arith)
