-- ===== src/Daemon/Outcomes.antt =====
-- The outcomes of `become_daemon` of common/utils_daemon.c.
use armory.Common.{
  ℕ, ◌≡◌, refl, ap, ℤ, pos, negsuc, List, [], ◌∷◌, Bool, true, false, ◌&&◌, ◌||◌, Option, none,
  some, if◌then◌else◌, ◌⊎◌, inl, inr, arith,
}
use armory.Daemon.{
  Forked, parent, child, no_child, File, null_read, null_write, ignored, Process, Answers,
  become_child, new_session, ignore_signal, close_fd, close_standard, open_standard, open_file,
  open_as, detach, redirect, become_daemon,
}

abbrev pub is_child : Forked → Bool
is_child child = true
is_child _ = false

-- The descriptors 0, 1 and 2 are open.
abbrev pub has_standard : List (Option File) → Bool
has_standard (some a ∷ some b ∷ some c ∷ table) = true
has_standard _ = false

-- They are closed and opened on /dev/null, the first to read, the others to write.
abbrev pub on_null : List (Option File) → List (Option File)
on_null (a ∷ b ∷ c ∷ table) = some null_read ∷ some null_write ∷ some null_write ∷ table
on_null table = table

-- The calls of `redirect` work, and every call works.
abbrev standard_works : Answers → List (Option File) → Bool
standard_works answers table =
    has_standard table
    && (answers.close 0 && answers.close 1 && answers.close 2)
    && (answers.open_null 0 && answers.open_null 1 && answers.open_null 2)

abbrev pub all_work : Answers → Process → Bool
all_work answers p =
    is_child answers.first_fork
    && answers.setsid
    && answers.sigaction
    && is_child answers.second_fork
    && standard_works answers p.descriptors

-- A call of `fork` makes the process a parent.
abbrev pub is_parent : Forked → Bool
is_parent parent = true
is_parent _ = false

abbrev pub has_ended : Answers → Bool
has_ended answers =
    is_parent answers.first_fork
    || is_child answers.first_fork
      && (answers.setsid && answers.sigaction && is_parent answers.second_fork)

abbrev pub daemon_of : Process → Process
daemon_of p = record {
  descriptors = on_null p.descriptors;
  group_leader = false;
  session_leader = false;
  terminal = false;
  hangup = ignored false;
}

-- On an outcome: the process has ended as the parent of a child, or the result is 0, all calls have
-- worked and the process is a daemon, or the result is -1 and some call has failed.
abbrev pub DaemonDone : Answers → Process → Option (ℤ × Process) → Type 0
DaemonDone answers p none = has_ended answers ≡ true
DaemonDone answers p (some (result, p')) =
    (has_ended answers ≡ false)
    × ((result ≡ pos 0) × (all_work answers p ≡ true) × (p' ≡ daemon_of p)
        ⊎ (result ≡ negsuc 0) × (all_work answers p ≡ false))

-- A table that has the standard descriptors, and one that has not.
close_standard-some :
    (c0 c1 c2 : Bool) (a b c : File) (table : List (Option File))
    → close_standard c0 c1 c2 (some a ∷ some b ∷ some c ∷ table)
      ≡ (c0 && c1 && c2, none ∷ none ∷ none ∷ table)
unfolding close_standard close_fd
close_standard-some c0 c1 c2 a b c table = refl

close_standard-none :
    (c0 c1 c2 : Bool) (table : List (Option File))
    → has_standard table ≡ false
    → (close_standard c0 c1 c2 table).0 ≡ false
unfolding close_standard close_fd
close_standard-none c0 c1 c2 [] h = refl
close_standard-none c0 c1 c2 (none ∷ table) h = refl
close_standard-none false c1 c2 (some a ∷ table) h = refl
close_standard-none true c1 c2 (some a ∷ []) h = refl
close_standard-none true c1 c2 (some a ∷ none ∷ table) h = refl
close_standard-none true false c2 (some a ∷ some b ∷ table) h = refl
close_standard-none true true c2 (some a ∷ some b ∷ []) h = refl
close_standard-none true true c2 (some a ∷ some b ∷ none ∷ table) h = refl
close_standard-none true true c2 (some a ∷ some b ∷ some c ∷ table) h = absurd (ground arith)

open_standard-some :
    (o0 o1 o2 : Bool) (table : List (Option File))
    → ((open_standard o0 o1 o2 (none ∷ none ∷ none ∷ table)).0 ≡ (o0 && o1 && o2))
      × (o0 && o1 && o2 ≡ true
          → (open_standard o0 o1 o2 (none ∷ none ∷ none ∷ table)).1
            ≡ some null_read ∷ some null_write ∷ some null_write ∷ table)
unfolding open_standard open_as open_file
open_standard-some false o1 o2 table = (refl, λ h. absurd (ground arith))
open_standard-some true false o2 table = (refl, λ h. absurd (ground arith))
open_standard-some true true false table = (refl, λ h. absurd (ground arith))
open_standard-some true true true table = (refl, λ h. refl)

-- The outcome of `redirect` if all has worked so far.
abbrev RedirectedIf : Bool → List (Option File) → Process → ℤ × Process → Type 0
RedirectedIf works table p (result, p') =
    (result ≡ pos 0) × (works ≡ true) × (p' ≡ record p { descriptors = table })
    ⊎ (result ≡ negsuc 0) × (works ≡ false)

abbrev Redirected : Answers → Process → ℤ × Process → Type 0
Redirected answers p = RedirectedIf (standard_works answers p.descriptors) (on_null p.descriptors) p

on_tests :
    (closed opened : Bool) (r : Bool × List (Option File)) (p : Process)
    (table failed : List (Option File))
    → r.0 ≡ opened
    → (opened ≡ true → r.1 ≡ table)
    → RedirectedIf (closed && opened) table p (
        if closed
        then (if r.0 then pos 0 else negsuc 0, record p { descriptors = r.1 })
        else (negsuc 0, record p { descriptors = failed }))
on_tests false opened r p table failed e f = inr (refl, refl)
on_tests true false r p table failed e f = inr (ap (λ b. if b then pos 0 else negsuc 0) e, refl)
on_tests true true r p table failed e f = inl (
  ap (λ b. if b then pos 0 else negsuc 0) e,
  refl,
  ap (λ t. record p { descriptors = t }) (f refl),
)

redirect-none :
    (answers : Answers) (p : Process)
    → has_standard p.descriptors ≡ false
    → Redirected answers p (redirect answers true p)
unfolding redirect
redirect-none answers p h =
    let closed =
      close_standard-none (answers.close 0) (answers.close 1) (answers.close 2) p.descriptors h in
    inr (rw closed refl, rw h refl)

redirect-some :
    (answers : Answers) (p : Process) (a b c : File) (table : List (Option File))
    → (let q = record p { descriptors = some a ∷ some b ∷ some c ∷ table } in
        Redirected answers q (redirect answers true q))
unfolding redirect close_standard close_fd
redirect-some answers p a b c table =
    let opened =
      open_standard-some (answers.open_null 0) (answers.open_null 1) (answers.open_null 2) table in
    on_tests (answers.close 0 && answers.close 1 && answers.close 2) _ _ p _ _ opened.0 opened.1

redirect-at :
    (answers : Answers) (p : Process) (table : List (Option File))
    → (let q = record p { descriptors = table } in Redirected answers q (redirect answers true q))
redirect-at answers p (some a ∷ some b ∷ some c ∷ table) = redirect-some answers p a b c table
redirect-at answers p [] = redirect-none answers (record p { descriptors = [] }) refl
redirect-at answers p (none ∷ table) =
    redirect-none answers (record p { descriptors = none ∷ table }) refl
redirect-at answers p (some a ∷ []) =
    redirect-none answers (record p { descriptors = some a ∷ [] }) refl
redirect-at answers p (some a ∷ none ∷ table) =
    redirect-none answers (record p { descriptors = some a ∷ none ∷ table }) refl
redirect-at answers p (some a ∷ some b ∷ []) =
    redirect-none answers (record p { descriptors = some a ∷ some b ∷ [] }) refl
redirect-at answers p (some a ∷ some b ∷ none ∷ table) =
    redirect-none answers (record p { descriptors = some a ∷ some b ∷ none ∷ table }) refl

daemon_at :
    (first second : Forked) (setsid sigaction : Bool) (close open_null : ℕ → Bool) (p : Process)
    → (let answers : Answers = record {
      first_fork = first;
      setsid = setsid;
      sigaction = sigaction;
      second_fork = second;
      close = close;
      open_null = open_null;
    } in
        DaemonDone answers p (become_daemon answers p))
unfolding become_daemon detach become_child new_session ignore_signal redirect
daemon_at parent second s a close opens p = refl
daemon_at no_child second s a close opens p = (refl, inr (refl, refl))
daemon_at child second false a close opens p = (refl, inr (refl, refl))
daemon_at child second true false close opens p = (refl, inr (refl, refl))
daemon_at child parent true true close opens p = refl
daemon_at child no_child true true close opens p = (refl, inr (refl, refl))
daemon_at child child true true close opens p =
    let answers : Answers = record {
      first_fork = child;
      setsid = true;
      sigaction = true;
      second_fork = child;
      close = close;
      open_null = opens;
    } in
    (refl, redirect-at answers (daemon_of p) p.descriptors)

-- On any process, and whatever the calls answer: `become_daemon` ends the process with `exit`
-- exactly as the parent in one of the two forks. It returns 0 exactly if all calls work, and then
-- the process leads neither a session nor a group, has no terminal, ignores SIGHUP for good, and has
-- /dev/null as its descriptors 0, to read, and 1 and 2, to write, and its other descriptors as
-- before. Otherwise it returns -1.
pub become_daemon-DaemonDone :
    (answers : Answers) (p : Process) → DaemonDone answers p (become_daemon answers p)
become_daemon-DaemonDone answers p =
    daemon_at answers.first_fork answers.second_fork answers.setsid answers.sigaction answers.close
      answers.open_null p
