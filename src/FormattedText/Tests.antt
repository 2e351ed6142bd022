-- ===== src/FormattedText/Tests.antt =====
-- Runs of the formatter, and examples of its results.
use armory.Common.{
  ℕ, ◌+◌, ◌≡◌, ◌↔◌, refl, pos, List, [], ◌∷◌, ◌++◌, true, false, map, none, some, arith, ok, length,
  if◌then◌else◌,
}
use armory.FormattedText.Line.{add_line_space, eat_trailing_space, is_ch, is_blank}
use armory.FormattedText.Spacing.{spaced, spaced_line, is_border, after}
use armory.FormattedText.Spacing.Loop.{add_line_space-Spaced}
use armory.FormattedText.Spacing.Settled.{visible}
use armory.FormattedText.Trailing.{trimmed, eat_trailing_space-Trimmed}
use armory.FormattedText.Files.{
  World, regular, Env, Officer, format_officer_create, load_target_file, same_path, write_file,
  saved, save_to_file, returned,
}
use armory.FormattedText.{format_check_each_line, has_flag, formatting_file}
use armory.FormattedText.Each.{with_functions}
use armory.FormattedText.Stable.{
  formatted_officer, format_check_each_line-settles, format_check_each_line-exact,
  format_check_each_line-restless,
}
use armory.FormattedText.Lines.{lines_of, ended, AllOneLine}
use armory.FormattedText.Runs.{IsFormattable, formatting_file-saves}
use armory.FormattedText.RoundTrip.{load_target_file-save_to_file, save_to_file-load_target_file}

-- `x(ab`
abbrev sample_line : List ℕ
sample_line = 120 ∷ 40 ∷ 97 ∷ 98 ∷ []

add_line_space-Spaced_example :
    add_line_space sample_line false ≡ ok (false, 120 ∷ 40 ∷ 32 ∷ 97 ∷ 98 ∷ 32 ∷ [])
unfolding spaced_line spaced is_border after is_ch
add_line_space-Spaced_example = add_line_space-Spaced sample_line false

eat_trailing_space-Trimmed_example :
    eat_trailing_space (97 ∷ 32 ∷ 98 ∷ 9 ∷ 32 ∷ []) false ≡ ok (false, 97 ∷ 32 ∷ 98 ∷ [])
unfolding trimmed is_blank
eat_trailing_space-Trimmed_example = eat_trailing_space-Trimmed (97 ∷ 32 ∷ 98 ∷ 9 ∷ 32 ∷ []) false

abbrev loaded : Officer
loaded = record format_officer_create { line_vec = sample_line ∷ [] }

abbrev spaces_added : List ℕ
spaces_added = 120 ∷ 40 ∷ 32 ∷ 97 ∷ 98 ∷ 32 ∷ []

format_check_each_line-settles_example :
    (let done = formatted_officer true false loaded in
      (format_check_each_line (with_functions true false loaded) false ≡ ok (false, done))
      × (map visible done.line_vec ≡ map visible loaded.line_vec)
      × (format_check_each_line done false ≡ ok (false, done))
      × (false ≡ false → format_check_each_line done true ≡ ok (false, done)))
format_check_each_line-settles_example = format_check_each_line-settles true false loaded

format_check_each_line-exact_example :
    (let chosen = with_functions true false loaded in
      (format_check_each_line chosen true ≡ ok (false, chosen))
      ↔ (format_check_each_line chosen false ≡ ok (false, chosen)))
format_check_each_line-exact_example = format_check_each_line-exact true false loaded refl

format_check_each_line-restless_example :
    (let done = formatted_officer true true loaded in
      format_check_each_line done true ≡ ok (true, done))
unfolding is_ch
format_check_each_line-restless_example =
    format_check_each_line-restless 120 (40 ∷ 97 ∷ []) 98 [] format_officer_create refl

-- A disk with one file, whose path is `f`, that holds the line.
abbrev one_file : World
one_file = record {
  disk = λ p. if same_path p (102 ∷ []) then sample_line ++ 10 ∷ [] else [];
  printed = [];
}

-- All that is asked of the system is granted.
abbrev granted : Env
granted = record {
  access = λ p d. true;
  stat = λ p d. regular;
  open_read = λ p d. true;
  open_write = λ p d. true;
}

sample_lines : lines_of (one_file.disk (102 ∷ [])) ≡ sample_line ∷ []
unfolding lines_of same_path
sample_lines = refl

sample_length : length (one_file.disk (102 ∷ [])) ≡ 5
unfolding same_path
sample_length = refl

sample_valid : IsFormattable granted (102 ∷ []) one_file.disk
sample_valid = record {
  accessible = refl;
  is_regular = refl;
  small = omega (arith, sample_length);
  no_elf = λ printed l. absurd (omega (arith, sample_length));
}

formatting_file-saves_example :
    (officer' : Officer) × (world' : World) × (formatting_file granted format_officer_create
        (some (102 ∷ []))
        none
        (2 + 2147483648)
        one_file
      ≡ ok (returned (true, officer', world')))
    × (world'.disk
        ≡ write_file
            (102 ∷ [])
            (spaces_added ++ 10 ∷ [])
            (write_file (102 ∷ 46 ∷ 98 ∷ 97 ∷ 107 ∷ []) (sample_line ++ 10 ∷ []) one_file.disk))
unfolding has_flag saved spaced_line spaced is_border after is_ch
formatting_file-saves_example =
    formatting_file-saves granted format_officer_create (102 ∷ []) none (2 + 2147483648) one_file
      sample_line [] refl sample_valid refl sample_lines (λ w. refl) refl

load_target_file-save_to_file_example :
    (let (stored, after) = save_to_file granted loaded (103 ∷ []) one_file in
      (stored ≡ true)
      × (load_target_file granted format_officer_create (103 ∷ []) after
          ≡ ok (pos 0, loaded, after)))
load_target_file-save_to_file_example =
    load_target_file-save_to_file granted loaded sample_line [] (103 ∷ []) one_file
      ((refl, (refl, (refl, (refl, tt)))), tt) refl refl

save_to_file-load_target_file_example :
    (let (stored, after) = save_to_file granted loaded (103 ∷ []) one_file in
      (load_target_file granted format_officer_create (102 ∷ []) one_file
        ≡ ok (pos 0, loaded, one_file))
      × AllOneLine loaded.line_vec
      × (stored ≡ true)
      × (after.disk (103 ∷ []) ≡ sample_line ++ 10 ∷ []))
unfolding ended same_path
save_to_file-load_target_file_example =
    save_to_file-load_target_file granted (102 ∷ []) (103 ∷ []) sample_line [] one_file refl
      sample_lines refl
