-- ===== src/Daemon/Tests.antt =====
-- Runs of common/utils_daemon.c.
use armory.Common.{◌≡◌, refl, pos, negsuc, [], ◌∷◌, true, false, none, some}
use armory.Daemon.{
  child, null_read, null_write, other, default_action, ignored, Process, Answers, become_child,
  new_session, ignore_signal, close_fd, close_standard, open_file, open_as, open_standard, detach,
  redirect, become_daemon,
}
use armory.Daemon.Outcomes.{DaemonDone, become_daemon-DaemonDone}

abbrev shell_job : Process
shell_job = record {
  descriptors = some (other 5) ∷ some (other 5) ∷ some (other 5) ∷ some (other 8) ∷ [];
  group_leader = true;
  session_leader = false;
  terminal = true;
  hangup = default_action;
}

abbrev all_well : Answers
all_well = record {
  first_fork = child;
  setsid = true;
  sigaction = true;
  second_fork = child;
  close = λ fd. true;
  open_null = λ fd. true;
}

daemon_run :
    become_daemon all_well shell_job
    ≡ some (
      pos 0,
      record {
        descriptors = some null_read ∷ some null_write ∷ some null_write ∷ some (other 8) ∷ [];
        group_leader = false;
        session_leader = false;
        terminal = false;
        hangup = ignored false;
      },
    )
unfolding become_daemon detach become_child new_session ignore_signal redirect close_standard
    close_fd open_standard open_as open_file
daemon_run = refl

-- A process without a descriptor 1 does not become a daemon, though all else works.
closed_run :
    (become_daemon all_well (record shell_job { descriptors = some (other 5) ∷ none ∷ [] }))
    ≡ some (
      negsuc 0,
      record {
        descriptors = none ∷ none ∷ [];
        group_leader = false;
        session_leader = false;
        terminal = false;
        hangup = ignored false;
      },
    )
unfolding become_daemon detach become_child new_session ignore_signal redirect close_standard
    close_fd open_standard open_as open_file
closed_run = refl

become_daemon-DaemonDone_example : DaemonDone all_well shell_job (become_daemon all_well shell_job)
become_daemon-DaemonDone_example = become_daemon-DaemonDone all_well shell_job
