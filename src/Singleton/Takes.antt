-- ===== src/Singleton/Takes.antt =====
-- What `proc_usurpation` of common/utils_singleton.c does to the process that has the lock.
use armory.Common.{
  filled, filled-end, ℕ, zero, suc, ◌^◌, ◌<◌, ◌≡◌, ◌≢◌, refl, sym, ap, ◌∙◌, pos, List, Bool, true,
  false, not, ◌&&◌, Option, none, some, Run, ok, ◌>>=◌, arith, to_int, to_int-pos, print_int,
  print_int-some, length-print_int, atol, atol-print_int, ◌==◌, if◌then◌else◌,
}
use armory.Singleton.{
  World, held_by_other, release, is_proc_running, targeted, kill, to_pid, pid_file_path,
  kill_recorded, Fate, returned, died, wait_turn, usurp, proc_usurpation,
}

to_pid-pos : (n : ℕ) → n < 2 ^ 31 → to_pid (pos n) ≡ pos n
unfolding to_pid
to_pid-pos n h = ap to_int (omega (arith, h)) ∙ to_int-pos n h

-- The file with the id of a process leads to that process.
kill_recorded-print_int :
    (self pid : ℕ) (w : World)
    → w.text ≡ print_int pid
    → pid < 2 ^ 31
    → kill_recorded self w ≡ ok (kill (pos pid) self w)
unfolding kill_recorded
kill_recorded-print_int self pid w e h =
    let short = length-print_int pid in
    let digits : atol (filled 32 (print_int pid)) ≡ ok (pos pid) =
      ap atol (filled-end 32 (print_int pid) (omega (arith, short)))
      ∙ atol-print_int pid _ (omega (arith, h)) in
    rw (e, print_int-some pid, digits, to_pid-pos pid h) refl

-- What `others` make of the world in `k` times `sched_yield`, from the n-th on.
abbrev pub after : (ℕ → World → World) → ℕ → ℕ → World → World
after others n zero w = w
after others n (suc k) w = after others (suc n) k (others n w)

-- The lock stays with the process for `k` times, and is free then; the file can be opened.
abbrev pub FreedAfter : (ℕ → World → World) → ℕ → ℕ → ℕ → World → Type 0
FreedAfter others pid n zero w = (w.can_open ≡ true) × (w.holder ≡ none)
FreedAfter others pid n (suc k) w =
    (w.can_open ≡ true) × (w.holder ≡ some pid) × FreedAfter others pid (suc n) k (others n w)

-- The caller has the lock, and its id is in the file.
abbrev pub taken : ℕ → World → World
taken self w = record w { holder = some self; text = print_int self }

past_open {ℓ} :
    {A : Type ℓ} (opens : Bool) (x : A) {y t : A}
    → opens ≡ true
    → y ≡ t
    → (if not opens then x else y) ≡ t
past_open opens x o e = rw o e

release-other : (self pid : ℕ) → pid ≢ self → release self (some pid) ≡ some pid
release-other self pid other =
    let differs : (pid == self) ≡ false = ground (arith, other) in rw differs refl

is_proc_running-held :
    (self pid : ℕ) (w : World)
    → pid ≢ self
    → w.can_open ≡ true
    → w.holder ≡ some pid
    → is_proc_running self w ≡ (true, w)
unfolding is_proc_running
is_proc_running-held self pid w other opens held =
    let differs : (pid == self) ≡ false = ground (arith, other) in
    let kept : release self w.holder ≡ w.holder =
      ap (release self) held ∙ release-other self pid other ∙ sym held in
    let b : held_by_other self w.holder ≡ true = ap (held_by_other self) held ∙ ap not differs in
    past_open w.can_open (false, w) opens
      (ap
          (λ held.
            if held
            then (true, record w { holder = release self w.holder })
            else (false, taken self w))
          b
        ∙ ap (λ h. (true, record w { holder = h })) kept)

is_proc_running-free :
    (self : ℕ) (w : World)
    → w.can_open ≡ true
    → w.holder ≡ none
    → is_proc_running self w ≡ (false, taken self w)
unfolding is_proc_running
is_proc_running-free self w opens free =
    let b : held_by_other self w.holder ≡ false = ap (held_by_other self) free in rw (opens, b) refl

wait_turn-taken :
    (others : ℕ → World → World) (self pid k fuel n : ℕ) (w : World)
    → k < fuel
    → pid ≢ self
    → FreedAfter others pid n k w
    → wait_turn fuel others n self w ≡ (returned true, taken self (after others n k w))
unfolding wait_turn
wait_turn-taken others self pid k zero n w h other f = absurd (omega (arith, h))
wait_turn-taken others self pid zero (suc fuel) n w h other f =
    rw (is_proc_running-free self w f.0 f.1) refl
wait_turn-taken others self pid (suc k) (suc fuel) n w h other f =
    rw (is_proc_running-held self pid w other f.0 f.1)
      (wait_turn-taken others self pid k fuel (suc n) (others n w) (omega (arith, h)) other f.2)

-- The process has got SIGKILL, if the caller may kill it, and no other.
abbrev pub struck : ℕ → World → World
struck pid w = record w { killed = λ q. if (q == pid) && w.may_kill q then true else w.killed q }

kill-struck : (self pid : ℕ) (w : World) → 0 < pid → kill (pos pid) self w ≡ struck pid w
unfolding kill targeted
kill-struck self zero w h = absurd (omega (arith, h))
kill-struck self (suc n) w h = refl

struck_self :
    (self pid : ℕ) (w : World)
    → pid ≢ self
    → w.killed self ≡ false
    → (struck pid w).killed self ≡ false
struck_self self pid w other lives =
    let differs : (self == pid) ≡ false = ground (arith, other) in rw (differs, lives) refl

-- The end of `usurp`, in the world that the signal leaves.
abbrev closing : ℕ → (ℕ → World → World) → ℕ → World → Run (Fate × World)
closing fuel others self w1 = ok (
    if w1.killed self
    then (died, w1)
    else wait_turn fuel others 0 self (record w1 { holder = release self w1.holder }))

closing-taken :
    (others : ℕ → World → World) (self pid k fuel : ℕ) (w : World)
    → w.killed self ≡ false
    → w.holder ≡ some pid
    → pid ≢ self
    → FreedAfter others pid 0 k w
    → k < fuel
    → closing fuel others self w ≡ ok (returned true, taken self (after others 0 k w))
closing-taken others self pid k fuel w lives held other freed enough =
    let kept : release self w.holder ≡ w.holder =
      ap (release self) held ∙ release-other self pid other ∙ sym held in
    ap
      (λ b. ok (
        if b
        then (died, w)
        else wait_turn fuel others 0 self (record w { holder = release self w.holder })))
      lives
    ∙ ap (λ h. ok (wait_turn fuel others 0 self (record w { holder = h }))) kept
    ∙ ap ok (wait_turn-taken others self pid k fuel 0 w enough other freed)

-- The pid file opens, another process has the lock on it, and its text is the id of that process,
-- which fits `pid_t`. Then the one signal of `proc_usurpation` goes to that process. If the lock is
-- free after the caller has given up the CPU `k` times, and not before, and the file still opens,
-- `proc_usurpation` returns true after as many rounds: the caller has the lock then, and its id
-- is the text of the file.
pub proc_usurpation-takes :
    (others : ℕ → World → World) (path_max : ℕ) (home : Option (List ℕ)) (system : List ℕ → World)
    (self : ℕ) (proc_name path : List ℕ) (pid k fuel : ℕ)
    → pid_file_path path_max home proc_name ≡ ok path
    → (let w = system path in
        w.can_open ≡ true
        → w.holder ≡ some pid
        → w.text ≡ print_int pid
        → 0 < pid
        → pid < 2 ^ 31
        → pid ≢ self
        → w.killed self ≡ false
        → FreedAfter others pid 0 k (struck pid w)
        → k < fuel
        → proc_usurpation fuel others path_max home system self proc_name
          ≡ ok (returned true, taken self (after others 0 k (struck pid w))))
unfolding proc_usurpation usurp
proc_usurpation-takes others path_max home system self proc_name path pid k fuel found opens held
      text some_pid fits other lives freed enough =
    let w = system path in
    let signal =
      kill_recorded-print_int self pid w text fits ∙ ap ok (kill-struck self pid w some_pid) in
    ap (λ m. m >>= λ place. usurp fuel others self (system place)) found
    ∙ past_open w.can_open (ok (returned false, w)) opens (
        ap (λ m. m >>= closing fuel others self) signal
        ∙ closing-taken others self pid k fuel (struck pid w) (struck_self self pid w other lives)
            held other freed enough)
