-- ===== src/FormattedText/Frame/Ends.antt =====
-- The entry points of formatted_text/src/formatted_text.cpp come to an end on every input.
use armory.Common.{
  ℕ, List, Bool, false, not, ◌&&◌, ◌||◌, Option, none, some, arith, Returns, returns,
  Returns-unless,
}
use armory.FormattedText.Files.{World, Env, Officer, same_path}
use armory.FormattedText.{
  has_flag, format_undisplay, format_to_backup, format_fmt_check, check_file, formatting_check,
  backup_path,
}
use armory.FormattedText.Runs.{target}
use armory.FormattedText.Frame.{Muted, Near-refl, AllDone, WorksOn, on_valid_path-Near}
use armory.FormattedText.Frame.Steps.{check_file-Near}

-- The files that `formatting_file` may write.
abbrev pub may_write : Option (List ℕ) → Option (List ℕ) → ℕ → List ℕ → Bool
may_write none p_save_path flags p = false
may_write (some path) p_save_path flags p =
    same_path p (target p_save_path path)
    || (has_flag flags format_to_backup && same_path p (backup_path path))

-- The officers that the two entry points work with.
abbrev file_officer : Officer → ℕ → Officer
file_officer officer flags = record officer {
  backup = has_flag flags format_to_backup;
  dispaly = not (has_flag flags format_undisplay);
}

abbrev check_officer : Officer → ℕ → Officer
check_officer officer flags = record officer { dispaly = not (has_flag flags format_undisplay) }

check-works :
    (env : Env) (officer : Officer) (p_path : Option (List ℕ)) (flags : ℕ)
    → ((officer : Officer) → Muted (λ p. false) false officer)
    → WorksOn
        (λ p. false)
        false
        p_path
        (λ path world. check_file env (check_officer officer flags) path flags world)
check-works env officer none flags loud = tt
check-works env officer (some path) flags loud = λ world.
    check_file-Near (λ p. false) false env (check_officer officer flags) path flags world
      (loud (check_officer officer flags))

-- `formatting_check` comes to an end on every input, whatever the system answers, and has written no
-- file; it ends the process in the same case only.
pub formatting_check-ends :
    (env : Env) (officer : Officer) (p_path : Option (List ℕ)) (flags : ℕ) (world : World)
    → Returns
        (AllDone (λ p. false) false env p_path world)
        (formatting_check env officer p_path flags world)
unfolding formatting_check
formatting_check-ends env officer p_path flags world =
    let loud : (officer : Officer) → Muted (λ p. false) false officer =
      λ officer q. absurd (ground arith) in
    Returns-unless (has_flag flags format_fmt_check)
      (λ chosen.
        on_valid_path-Near (λ p. false) false env officer p_path world
          (λ path world. check_file env (check_officer officer flags) path flags world)
          (loud officer) (check-works env officer p_path flags loud))
      (λ other. returns (Near-refl (λ p. false) false world))
