-- ===== src/FormattedText/RoundTrip.antt =====
-- Saving and loading in formatted_text/src/formatted_text.cpp.
use armory.Common.{ℕ, ◌≡◌, sym, ap, ◌∙◌, pos, List, ◌∷◌, true, ok}
use armory.FormattedText.Files.{
  World, Env, Officer, format_officer_create, load_target_file, write_file, saved, save_to_file,
}
use armory.FormattedText.Lines.{
  lines_of, AllOneLine, ended, load_target_file-reads, lines_of-saved, lines_of-AllOneLine,
  saved-lines_of, write_file_same,
}

AllOneLine-eq : (xs ys : List (List ℕ)) → xs ≡ ys → AllOneLine xs → AllOneLine ys
AllOneLine-eq xs ys e h = rw (← e) h

-- The lines of an officer that has some, none of which holds a newline, are written to a path that
-- opens, and a new officer that can open the path then reads the same lines.
pub load_target_file-save_to_file :
    (env : Env) (officer : Officer) (line : List ℕ) (lines : List (List ℕ)) (path : List ℕ)
    (world : World)
    → AllOneLine (line ∷ lines)
    → env.open_write path world.disk ≡ true
    → env.open_read path (write_file path (saved (line ∷ lines)) world.disk) ≡ true
    → (let (stored, after) =
          save_to_file env (record officer { line_vec = line ∷ lines }) path world in
        (stored ≡ true)
        × (load_target_file env format_officer_create path after
            ≡ ok (pos 0, record format_officer_create { line_vec = line ∷ lines }, after)))
unfolding save_to_file
load_target_file-save_to_file env officer line lines path world whole opens reads =
    let bytes = saved (line ∷ lines) in
    let after : World = record world { disk = write_file path bytes world.disk } in
    let same : lines_of (after.disk path) ≡ line ∷ lines =
      ap lines_of (write_file_same path bytes world.disk) ∙ lines_of-saved (line ∷ lines) whole in
    (
      rw opens,
      rw opens (
          load_target_file-reads env format_officer_create path after reads
          ∙ ap (λ l. ok (pos 0, record format_officer_create { line_vec = l }, after)) same),
    )

-- A new officer that loads a file which opens and has a byte, and saves it to a path that opens,
-- leaves there what the file held, with a newline added where it did not end with one. No line that
-- it holds in between has a newline.
pub save_to_file-load_target_file :
    (env : Env) (path target line : List ℕ) (lines : List (List ℕ)) (world : World)
    → env.open_read path world.disk ≡ true
    → lines_of (world.disk path) ≡ line ∷ lines
    → env.open_write target world.disk ≡ true
    → (let officer : Officer = record format_officer_create { line_vec = line ∷ lines } in
        let (stored, after) = save_to_file env officer target world in
        (load_target_file env format_officer_create path world ≡ ok (pos 0, officer, world))
        × AllOneLine officer.line_vec
        × (stored ≡ true)
        × (after.disk target ≡ ended (world.disk path)))
unfolding save_to_file
save_to_file-load_target_file env path target line lines world reads e opens = (
  load_target_file-reads env format_officer_create path world reads
      ∙ ap (λ l. ok (pos 0, record format_officer_create { line_vec = l }, world)) e,
  AllOneLine-eq (lines_of (world.disk path)) (line ∷ lines) e
      (lines_of-AllOneLine (world.disk path)),
  rw opens,
  rw opens (
      write_file_same target (saved (line ∷ lines)) world.disk
      ∙ ap saved (sym e)
      ∙ saved-lines_of (world.disk path)),
)
