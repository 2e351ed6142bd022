-- ===== src/Daemon.antt =====
-- common/utils_daemon.c: a process leaves its terminal. The state is what the calls change of the
-- process; `Answers` says which calls of the system work.
pub mod Outcomes
mod Tests
use armory.Common.{
  ℕ, zero, suc, ◌+◌, ℤ, pos, negsuc, List, [], ◌∷◌, Bool, true, false, not, ◌&&◌, Option, none,
  some, get_elem?, set, ◌==◌, if◌then◌else◌,
}

-- What `fork` is: the caller goes on as the parent or as the child, or there is no child.
pub data Forked : Type 0 where
  parent child no_child : Forked

pub data File : Type 0 where
  null_read null_write : File
  other : ℕ → File

pub data Disposition : Type 0 where
  default_action : Disposition
  ignored : (once : Bool) → Disposition

pub record Process : Type 0 where
  pub descriptors : List (Option File)
  pub group_leader : Bool
  pub session_leader : Bool
  pub terminal : Bool
  pub hangup : Disposition

pub record Answers : Type 0 where
  pub first_fork : Forked
  pub setsid : Bool
  pub sigaction : Bool
  pub second_fork : Forked
  pub close : ℕ → Bool
  pub open_null : ℕ → Bool

-- `none`: the process has ended by `exit(0)`. Otherwise what `fork` has returned.
unfoldable pub become_child : Forked → Process → Option (Bool × Process)
become_child parent p = none
become_child child p = some (true, record p { group_leader = false; session_leader = false })
become_child no_child p = some (false, p)

-- `setsid`, which a group leader may not call.
unfoldable pub new_session : Bool → Process → Bool × Process
new_session works p =
    if works && not p.group_leader
    then (true, record p { group_leader = true; session_leader = true; terminal = false })
    else (false, p)

-- `ignore_signal` for SIGHUP.
unfoldable pub ignore_signal : Bool → Bool → Process → Bool × Process
ignore_signal works is_once p =
    if works then (true, record p { hangup = ignored is_once }) else (false, p)

-- `close`: the descriptor is free afterwards, whatever is returned.
abbrev pub is_open : ℕ → List (Option File) → Bool
is_open fd [] = false
is_open zero (none ∷ table) = false
is_open zero (some file ∷ table) = true
is_open (suc fd) (entry ∷ table) = is_open fd table

unfoldable pub close_fd : Bool → ℕ → List (Option File) → Bool × List (Option File)
close_fd works fd table = (is_open fd table && works, set table fd none)

-- `open` takes the lowest descriptor that is free.
unfoldable pub open_file : File → List (Option File) → ℕ × List (Option File)
open_file file [] = (0, some file ∷ [])
open_file file (none ∷ table) = (0, some file ∷ table)
open_file file (some entry ∷ table) =
    let (fd, table') = open_file file table in (suc fd, some entry ∷ table')

-- One of the three tests on `open`, with what is tested behind it.
unfoldable pub open_as :
    Bool
    → ℕ
    → File
    → (List (Option File) → Bool × List (Option File))
    → List (Option File)
    → Bool × List (Option File)
open_as works fd file next table =
    let (opened, table') = open_file file table in
    let rest = next table' in
    if not works then (false, table) else if opened == fd then rest else (false, table')

-- Go on unless the process has ended.
infixl 40 ◌>>=◌
abbrev pub ◌>>=◌ {ℓ ℓ'} : {A : Type ℓ} {B : Type ℓ'} → Option A → (A → Option B) → Option B
none >>= next = none
some x >>= next = next x

-- The first test of `become_daemon`: `none` if the process has ended.
unfoldable pub detach : Answers → Process → Option (Bool × Process)
detach answers p = do
  (forked, p1) ← become_child answers.first_fork p
  let (apart, p2) = new_session answers.setsid p1
  let (quiet, p3) = ignore_signal answers.sigaction false p2
  if not forked
      then some (false, p1)
      else if not apart
      then some (false, p2)
      else if not quiet
      then some (false, p3)
      else become_child answers.second_fork p3

-- The three calls of `close`, with what `temp` is 0 for, and the three tests on `open`.
unfoldable pub close_standard : Bool → Bool → Bool → List (Option File) → Bool × List (Option File)
close_standard works0 works1 works2 table =
    let (closed0, table0) = close_fd works0 0 table in
    let (closed1, table1) = close_fd works1 1 table0 in
    let (closed2, table2) = close_fd works2 2 table1 in (closed0 && closed1 && closed2, table2)

unfoldable pub open_standard : Bool → Bool → Bool → List (Option File) → Bool × List (Option File)
open_standard works0 works1 works2 =
    open_as works0 0 null_read
      (open_as works1 1 null_write (open_as works2 2 null_write (λ table. (true, table))))

-- The rest of `become_daemon`.
unfoldable pub redirect : Answers → Bool → Process → ℤ × Process
redirect answers detached p =
    let (closed, table) =
      close_standard (answers.close 0) (answers.close 1) (answers.close 2) p.descriptors in
    let (opened, table') =
      open_standard (answers.open_null 0) (answers.open_null 1) (answers.open_null 2) table in
    if detached && closed
    then (if opened then pos 0 else negsuc 0, record p { descriptors = table' })
    else (negsuc 0, record p { descriptors = table })

unfoldable pub become_daemon : Answers → Process → Option (ℤ × Process)
become_daemon answers p = do (detached, p') ← detach answers p; some (redirect answers detached p')
