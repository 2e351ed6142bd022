-- ===== src/FormattedText.antt =====
-- formatted_text/inc/formatted_text.h, and the two entry points of
-- formatted_text/src/formatted_text.cpp with what they call.
pub mod Line
pub mod Spacing
pub mod Trailing
pub mod Files
pub mod Lines
pub mod Main
pub mod Each
pub mod Twice
pub mod Stable
pub mod Runs
pub mod Frame
pub mod RoundTrip
pub mod Command
mod Tests
use Prim.Native.Nat.{bit_and}
use armory.Common.{
  ℕ, zero, suc, ◌+◌, ◌^◌, ℤ, pos, negsuc, List, [], ◌∷◌, ◌++◌, Bool, true, false, not, ◌&&◌, ◌||◌,
  Option, none, some, Run, ok, fault, ◌>>=◌, length, ◌==◌, if◌then◌else◌,
}
use armory.FormattedText.Line.{add_line_space, eat_trailing_space}
use armory.FormattedText.Files.{
  read_error, no_type, needs_format, no_format, backup_to, input_path, save_to, shown_path, plain,
  red, green, World, Env, DealWithLine, Officer, format_officer_create, show, load_target_file,
  save_to_file, Ended, exited, returned, is_invalid_path,
}

-- `fomat_flags_t`.
abbrev pub format_undefined : ℕ
format_undefined = 0

abbrev pub format_add_space : ℕ
format_add_space = 2 ^ 1

abbrev pub format_eat_space : ℕ
format_eat_space = 2 ^ 2

abbrev pub format_fmt_check : ℕ
format_fmt_check = 2 ^ 29

abbrev pub format_undisplay : ℕ
format_undisplay = 2 ^ 30

abbrev pub format_to_backup : ℕ
format_to_backup = 2 ^ 31

-- `flags & flag` as a test.
unfoldable pub has_flag : ℕ → ℕ → Bool
has_flag flags flag = not (bit_and flags flag == 0)

unfoldable pub get_format_func_array : Officer → ℕ → Officer
get_format_func_array officer flags =
    let adding = if has_flag flags format_add_space then add_line_space ∷ [] else [] in
    let eating = if has_flag flags format_eat_space then eat_trailing_space ∷ [] else [] in
    record officer { func_vec = adding ++ eating }

-- The inner loop of `format_check_each_line`: whether it returns, `result`, and the line.
unfoldable pub each_func : List DealWithLine → List ℕ → Bool → Bool → Run (Bool × Bool × List ℕ)
each_func [] line is_check result = ok (false, result, line)
each_func (func ∷ funcs) line is_check result =
    let next : Bool → List ℕ → Run (Bool × Bool × List ℕ) =
      λ result line. each_func funcs line is_check result in
    do
      (result, line) ← func line is_check
      if result && is_check then ok (true, result, line) else next result line

-- The outer loop, with `result` and the lines.
unfoldable pub each_line :
    List DealWithLine → List (List ℕ) → Bool → Bool → Run (Bool × List (List ℕ))
each_line funcs [] is_check result = ok (result, [])
each_line funcs (line ∷ lines) is_check result =
    let next : Bool → Run (Bool × List (List ℕ)) =
      λ result. each_line funcs lines is_check result in
    do
      (stop, result, line) ← each_func funcs line is_check result
      if stop
          then ok (result, line ∷ lines)
          else do (result, lines) ← next result; ok (result, line ∷ lines)

unfoldable pub format_check_each_line : Officer → Bool → Run (Bool × Officer)
format_check_each_line officer is_check =
    if length officer.func_vec == 0 then ok (false, officer) else do
      (result, lines) ← each_line officer.func_vec officer.line_vec is_check false
      ok (result, record officer { line_vec = lines })

-- `formatting_check` behind `load_target_file`, by the result of it.
unfoldable pub check_loaded : ℤ → Officer → List ℕ → ℕ → World → Run (Bool × Officer × World)
check_loaded (negsuc n) officer path flags world =
    ok (false, officer, show officer (red read_error) world)
check_loaded (pos (suc n)) officer path flags world =
    ok (false, officer, show officer (red read_error) world)
check_loaded (pos zero) officer path flags world =
    let officer = get_format_func_array officer flags in
    if length officer.func_vec == 0
    then ok (false, officer, show officer (red no_type) world)
    else do
      (result, officer) ← format_check_each_line officer true
      let output = if result then red (needs_format path) else green (no_format path)
      ok (result, officer, show officer output world)

-- `formatting_check` from `load_target_file` on.
unfoldable pub check_file : Env → Officer → List ℕ → ℕ → World → Run (Bool × Officer × World)
check_file env officer path flags world = do
  (result, officer, world) ← load_target_file env officer path world
  check_loaded result officer path flags world

-- An entry point behind `is_invalid_path`: `work` is done on a path that is valid.
unfoldable pub on_valid_path :
    Env
    → Officer
    → Option (List ℕ)
    → World
    → (List ℕ → World → Run (Bool × Officer × World))
    → Run (Ended (Bool × Officer × World))
on_valid_path env officer p_path world work = elim (is_invalid_path env officer p_path world) [
  | exited world ↦ ok (exited world)
  | returned (true, world) ↦ ok (returned (false, officer, world))
  | returned (false, world) ↦ elim p_path [
    | none ↦ fault
    | some path ↦ do done ← work path world; ok (returned done)
  ]
]

unfoldable pub formatting_check :
    Env → Officer → Option (List ℕ) → ℕ → World → Run (Ended (Bool × Officer × World))
formatting_check env officer p_path flags world =
    if not (has_flag flags format_fmt_check)
    then ok (returned (false, officer, world))
    else on_valid_path env officer p_path world (λ path world.
      check_file env (record officer { dispaly = not (has_flag flags format_undisplay) }) path flags
        world)

-- `".bak"`.
abbrev pub backup_path : List ℕ → List ℕ
backup_path path = path ++ 46 ∷ 98 ∷ 97 ∷ 107 ∷ []

-- `read_and_backup` behind `load_target_file`, by the result of it.
unfoldable pub backup_loaded : Env → ℤ → Officer → List ℕ → World → Run (Bool × Officer × World)
backup_loaded env (negsuc n) officer path world =
    ok (false, officer, show officer (red read_error) world)
backup_loaded env (pos (suc n)) officer path world =
    ok (false, officer, show officer (red read_error) world)
backup_loaded env (pos zero) officer path world =
    let (stored, after) = save_to_file env officer (backup_path path) world in
    let told =
      show officer (green (shown_path (backup_path path))) (show officer (plain backup_to) after) in
    if not officer.backup
    then ok (true, officer, world)
    else if stored
    then ok (true, officer, told)
    else ok (false, officer, after)

unfoldable pub read_and_backup : Env → Officer → List ℕ → World → Run (Bool × Officer × World)
read_and_backup env officer path world = do
  (result, officer, world) ← load_target_file env officer path world
  backup_loaded env result officer path world

-- `formatting_file` from the message on the path on.
unfoldable pub format_valid :
    Env → Officer → Option (List ℕ) → ℕ → List ℕ → World → Run (Bool × Officer × World)
format_valid env officer p_save_path flags path world =
    let world = show officer (green (shown_path path)) (show officer (plain input_path) world) in
    let save_path : List ℕ = elim p_save_path [ none ↦ path | some save_path ↦ save_path ] in
    do
      (done, officer, world) ← read_and_backup env officer path world
      if not done then ok (false, officer, world) else do
        (result, officer) ← format_check_each_line (get_format_func_array officer flags) false
        let (stored, after) = save_to_file env officer save_path world in
            let told =
              show officer (green (shown_path save_path)) (show officer (plain save_to) after) in
            if stored then ok (true, officer, told) else ok (false, officer, after)

unfoldable pub formatting_file :
    Env
    → Officer
    → Option (List ℕ)
    → Option (List ℕ)
    → ℕ
    → World
    → Run (Ended (Bool × Officer × World))
formatting_file env officer p_path p_save_path flags world =
    let officer = record officer {
      backup = has_flag flags format_to_backup;
      dispaly = not (has_flag flags format_undisplay);
    } in
    if flags == format_undefined
    then ok (returned (false, officer, show officer (red no_type) world))
    else on_valid_path env officer p_path world (format_valid env officer p_save_path flags)
