-- ===== src/FormattedText/Main.antt =====
-- formatted_text/src/main_test.cpp: the options, collected, and the call they choose.
use Prim.Native.Nat.{bit_or}
use armory.Common.{
  ℕ, ℤ, pos, negsuc, List, [], ◌∷◌, Bool, true, false, Option, none, some, Run, ok, ◌>>=◌,
  if◌then◌else◌,
}
use armory.FormattedText.Files.{World, Env, Officer, format_officer_create, Ended, exited, returned}
use armory.FormattedText.{
  format_undefined, format_add_space, format_eat_space, format_fmt_check, format_undisplay,
  format_to_backup, has_flag, formatting_check, formatting_file,
}

-- What `getopt_long` returns, with `optarg`.
pub data Opt : Type 0 where
  file : (path : List ℕ) → Opt
  output : (path : List ℕ) → Opt
  eat : Opt
  insert : Opt
  check : Opt
  backup : Opt
  undisplay : Opt
  help : Opt
  unknown : Opt

-- The variables of `main` that the options set.
pub record Args : Type 0 where
  pub p_path : Option (List ℕ)
  pub p_save_path : Option (List ℕ)
  pub flags : ℕ

-- The loop on the options ends with them, or `main` returns in it.
pub data Parsed : Type 0 where
  parsed : (args : Args) → Parsed
  leave : (result : ℤ) → Parsed

-- `flags |= flag`.
abbrev pub with_flag : Args → ℕ → Args
with_flag args flag = record args { flags = bit_or args.flags flag }

unfoldable pub parse_options : List Opt → Args → Parsed
parse_options [] args = parsed args
parse_options (file path ∷ opts) args = parse_options opts (record args { p_path = some path })
parse_options (output path ∷ opts) args =
    parse_options opts (record args { p_save_path = some path })
parse_options (eat ∷ opts) args = parse_options opts (with_flag args format_eat_space)
parse_options (insert ∷ opts) args = parse_options opts (with_flag args format_add_space)
parse_options (check ∷ opts) args = parse_options opts (with_flag args format_fmt_check)
parse_options (backup ∷ opts) args = parse_options opts (with_flag args format_to_backup)
parse_options (undisplay ∷ opts) args = parse_options opts (with_flag args format_undisplay)
parse_options (help ∷ opts) args = leave (pos 0)
parse_options (unknown ∷ opts) args = leave (negsuc 0)

abbrev pub no_args : Args
no_args = record { p_path = none; p_save_path = none; flags = format_undefined }

abbrev pub world_of : Ended (Bool × Officer × World) → Ended World
world_of (exited world) = exited world
world_of (returned (result, officer, world)) = returned world

-- The two calls of `main`; the officer is created in front of them and deleted behind.
unfoldable pub run_format : Env → Args → World → Run (Ended World)
run_format env args world = do
  done ←
      (if has_flag args.flags format_fmt_check
        then formatting_check env format_officer_create args.p_path args.flags world
        else formatting_file env format_officer_create args.p_path args.p_save_path args.flags
            world)
  ok (world_of done)

abbrev pub with_result : ℤ → Ended World → Ended (ℤ × World)
with_result result (exited world) = exited world
with_result result (returned world) = returned (result, world)

abbrev pub is_none : Option (List ℕ) → Bool
is_none none = true
is_none (some path) = false

-- `main` behind the loop on the options.
unfoldable pub main_parsed : Env → Parsed → World → Run (Ended (ℤ × World))
main_parsed env (leave result) world = ok (returned (result, world))
main_parsed env (parsed args) world =
    if is_none args.p_path
    then ok (returned (negsuc 0, world))
    else do done ← run_format env args world; ok (with_result (pos 0) done)

unfoldable pub main : Env → List Opt → World → Run (Ended (ℤ × World))
main env opts world = main_parsed env (parse_options opts no_args) world
