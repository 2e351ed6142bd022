-- ===== src/FormattedText/Command.antt =====
-- Every run of `main` in formatted_text/src/main_test.cpp.
use armory.Common.{Option, none, ℕ, ◌≡◌, ℤ, List, Bool, false, if◌then◌else◌}
use armory.FormattedText.Files.{World, Env, Ended, exited, returned}
use armory.FormattedText.{has_flag, format_fmt_check}
use armory.FormattedText.Main.{Args, Parsed, parsed, leave}
use armory.FormattedText.Frame.{Untestable}
use armory.FormattedText.Frame.Ends.{may_write}

-- The files that a run with these options may write.
abbrev pub args_write : Args → List ℕ → Bool
args_write args p =
    if has_flag args.flags format_fmt_check
    then false
    else may_write args.p_path args.p_save_path args.flags p

abbrev pub options_write : Parsed → List ℕ → Bool
options_write (leave result) p = false
options_write (parsed args) p = args_write args p

-- The process ends, or the files are as before up to those that may be written.
abbrev pub Spares : (List ℕ → Bool) → World → World → Type 0
Spares may world world' = (p : List ℕ) → may p ≡ false → world'.disk p ≡ world.disk p

abbrev RunSpares : Env → Args → World → Ended World → Type 0
RunSpares env args world (exited world') =
    Untestable env args.p_path world × Spares (args_write args) world world'
RunSpares env args world (returned world') = Spares (args_write args) world world'

-- The path that a run with these options works on.
abbrev pub options_path : Parsed → Option (List ℕ)
options_path (leave result) = none
options_path (parsed args) = args.p_path

abbrev pub MainSpares : Env → Parsed → World → Ended (ℤ × World) → Type 0
MainSpares env options world (exited world') =
    Untestable env (options_path options) world × Spares (options_write options) world world'
MainSpares env options world (returned (result, world')) =
    Spares (options_write options) world world'
