-- ===== src/FormattedText/Runs.antt =====
-- Whole runs of `formatting_file` in formatted_text/src/formatted_text.cpp: the backup and the
-- formatted file that they leave.
use armory.Common.{
  ℕ, ◌≤◌, ◌<◌, ◌≡◌, sym, ap, ◌∙◌, List, ◌∷◌, ◌++◌, Bool, true, false, not, Option, none, some, map,
  inl, inr, Run, ok, ◌>>=◌, length, ltb, ltb→lt, le→ltb-false, ◌==◌, Bool-cases, if◌then◌else◌,
}
use armory.FormattedText.Files.{
  maximum_file_size, elf_header_size, plain, green, shown_path, backup_to, save_to, input_path,
  Output, Disk, World, regular, Env, Officer, show, write_file, saved, save_to_file, returned,
  file_is_elf, is_invalid_file, is_invalid_path,
}
use armory.FormattedText.Lines.{lines_of, load_target_file-reads}
use armory.FormattedText.{
  format_undefined, format_add_space, format_eat_space, format_undisplay, format_to_backup,
  has_flag, get_format_func_array, on_valid_path, backup_path, backup_loaded, read_and_backup,
  format_valid, formatting_file,
}
use armory.FormattedText.Each.{formatted, with_functions, format_check_each_line-all}

-- A path that `is_invalid_path` lets pass.
pub record IsFormattable (env : Env) (path : List ℕ) (disk : Disk) : Type 0 where
  pub accessible : env.access path disk ≡ true
  pub is_regular : env.stat path disk ≡ regular
  pub small : length (disk path) ≤ maximum_file_size
  pub no_elf :
      (printed : List Output)
      → elf_header_size < length (disk path)
      → file_is_elf env path (record { disk = disk; printed = printed }) ≡ returned false

is_invalid_file-passes :
    (env : Env) (officer : Officer) (path : List ℕ) (world : World)
    → IsFormattable env path world.disk
    → is_invalid_file env officer path world ≡ returned (false, world)
unfolding is_invalid_file
is_invalid_file-passes env officer path world f =
    let fits = le→ltb-false maximum_file_size (length (world.disk path)) f.small in
    elim (Bool-cases (ltb elf_header_size (length (world.disk path)))) [
      | inl long ↦
          rw (is_invalid_file, f.is_regular, fits, long, f.no_elf world.printed (ltb→lt _ _ long))
      | inr short ↦ rw (is_invalid_file, f.is_regular, fits, short)
    ]

pub is_invalid_path-passes :
    (env : Env) (officer : Officer) (path : List ℕ) (world : World)
    → IsFormattable env path world.disk
    → is_invalid_path env officer (some path) world ≡ returned (false, world)
unfolding is_invalid_path
is_invalid_path-passes env officer path world f =
    rw f.accessible (is_invalid_file-passes env officer path world f)

pub on_valid_path-passes :
    (env : Env) (officer : Officer) (path : List ℕ) (world : World)
    (work : List ℕ → World → Run (Bool × Officer × World))
    → IsFormattable env path world.disk
    → on_valid_path env officer (some path) world work
      ≡ (do done ← work path world; ok (returned done))
unfolding on_valid_path
on_valid_path-passes env officer path world work f =
    rw (on_valid_path, is_invalid_path-passes env officer path world f)

pub disk-show :
    (officer : Officer) (output : Output) (world : World)
    → (show officer output world).disk ≡ world.disk
unfolding show
disk-show officer output world = elim (Bool-cases officer.dispaly) [ inl e ↦ rw e | inr e ↦ rw e ]

-- Saving the lines of an officer that has some.
save_to_file-writes :
    (env : Env) (officer : Officer) (line : List ℕ) (lines : List (List ℕ)) (path : List ℕ)
    (world : World)
    → env.open_write path world.disk ≡ true
    → save_to_file env (record officer { line_vec = line ∷ lines }) path world
      ≡ (true, record world { disk = write_file path (saved (line ∷ lines)) world.disk })
unfolding save_to_file
save_to_file-writes env officer line lines path world opens = rw opens

-- The disk behind the backup.
abbrev pub with_backup : Bool → List ℕ → List (List ℕ) → Disk → Disk
with_backup wanted path lines disk =
    if wanted then write_file (backup_path path) (saved lines) disk else disk

-- `read_and_backup` on a file with a line.
read_and_backup-stores :
    (env : Env) (officer : Officer) (path : List ℕ) (world : World) (line : List ℕ)
    (lines : List (List ℕ))
    → env.open_read path world.disk ≡ true
    → officer.line_vec ++ lines_of (world.disk path) ≡ line ∷ lines
    → (officer.backup ≡ true → env.open_write (backup_path path) world.disk ≡ true)
    → (world' : World) × (read_and_backup env officer path world
        ≡ ok (true, record officer { line_vec = line ∷ lines }, world'))
      × (world'.disk ≡ with_backup officer.backup path (line ∷ lines) world.disk)
unfolding read_and_backup backup_loaded
read_and_backup-stores env officer path world line lines opens e stores =
    let loaded = load_target_file-reads env officer path world opens in
    let reader : Officer = record officer { line_vec = line ∷ lines } in
    let disk = write_file (backup_path path) (saved (line ∷ lines)) world.disk in
    let world' : World =
      show reader (green (shown_path (backup_path path)))
        (show reader (plain backup_to) (record world { disk = disk })) in
    elim (Bool-cases officer.backup) [
      | inl wanted ↦ (
        world',
        rw (
          loaded,
          e,
          save_to_file-writes env officer line lines (backup_path path) world (stores wanted),
          wanted,
        ),
        disk-show reader _ _
            ∙ disk-show reader _ _
            ∙ ap (λ b. with_backup b path (line ∷ lines) world.disk) (sym wanted),
      )
      | inr unwanted ↦ (world, rw (loaded, e, unwanted), rw unwanted)
    ]

-- The flags that choose the functions.
abbrev pub adds : ℕ → Bool
adds flags = has_flag flags format_add_space

abbrev pub eats : ℕ → Bool
eats flags = has_flag flags format_eat_space

abbrev pub target : Option (List ℕ) → List ℕ → List ℕ
target p_save_path path = elim p_save_path [ none ↦ path | some save_path ↦ save_path ]

-- What a run leaves on the disk.
abbrev pub disk_after : Bool → List ℕ → Option (List ℕ) → ℕ → List (List ℕ) → Disk → Disk
disk_after wanted path p_save_path flags lines disk =
    write_file (target p_save_path path) (saved (map (formatted (adds flags) (eats flags)) lines))
      (with_backup wanted path lines disk)

module _ (env : Env) (officer : Officer) (path : List ℕ) (p_save_path : Option (List ℕ)) (flags : ℕ)
    (world : World) (line : List ℕ) (lines : List (List ℕ)) where
  format_valid-saves :
      env.open_read path world.disk ≡ true
      → officer.line_vec ++ lines_of (world.disk path) ≡ line ∷ lines
      → (officer.backup ≡ true → env.open_write (backup_path path) world.disk ≡ true)
      → env.open_write
          (target p_save_path path)
          (with_backup officer.backup path (line ∷ lines) world.disk)
        ≡ true
      → (officer' : Officer) × (world' : World) × (format_valid env officer p_save_path flags path
            world
          ≡ ok (true, officer', world'))
        × (world'.disk ≡ disk_after officer.backup path p_save_path flags (line ∷ lines) world.disk)
  unfolding format_valid get_format_func_array
  format_valid-saves opens e stores saves =
      let told = show officer (plain input_path) world in
      let start = show officer (green (shown_path path)) told in
      let same : start.disk ≡ world.disk = disk-show officer _ told ∙ disk-show officer _ world in
      let (world2, done, left) =
        read_and_backup-stores env officer path start line lines (rw same opens) (rw same e)
          (λ b. rw same (stores b)) in
      let reader : Officer = record officer { line_vec = line ∷ lines } in
      let writer = with_functions (adds flags) (eats flags) reader in
      let save_path = target p_save_path path in
      let formats = map (formatted (adds flags) (eats flags)) lines in
      let left' : world2.disk ≡ with_backup officer.backup path (line ∷ lines) world.disk =
        left ∙ ap (with_backup officer.backup path (line ∷ lines)) same in
      let written =
        save_to_file-writes env writer (formatted (adds flags) (eats flags) line) formats save_path
          world2 (rw left' saves) in
      let bytes = saved (formatted (adds flags) (eats flags) line ∷ formats) in
      let owner : Officer = record writer {
        line_vec = formatted (adds flags) (eats flags) line ∷ formats;
      } in
      let world3 : World = record world2 { disk = write_file save_path bytes world2.disk } in
      let told3 = show owner (plain save_to) world3 in
      (
        owner,
        show owner (green (shown_path save_path)) told3,
        rw (done, format_check_each_line-all (adds flags) (eats flags) false reader, written),
        disk-show owner _ told3 ∙ disk-show owner _ world3 ∙ ap (write_file save_path bytes) left',
      )

module _ (env : Env) (officer : Officer) (path : List ℕ) (p_save_path : Option (List ℕ)) (flags : ℕ)
    (world : World) (line : List ℕ) (lines : List (List ℕ)) where
  -- A run on a path that passes the tests, with flags, a file that opens and a line to write: if the
  -- backup is not wanted or can be written, and the target can be written then, the run ends with true.
  -- It writes the unformatted lines to the path with `.bak` added if the backup is wanted, then
  -- the formatted lines to the target, and no other file. The target is the path itself if none is given.
  pub formatting_file-saves :
      (flags == format_undefined) ≡ false
      → IsFormattable env path world.disk
      → env.open_read path world.disk ≡ true
      → officer.line_vec ++ lines_of (world.disk path) ≡ line ∷ lines
      → (let wanted = has_flag flags format_to_backup in
          (wanted ≡ true → env.open_write (backup_path path) world.disk ≡ true)
          → env.open_write
              (target p_save_path path)
              (with_backup wanted path (line ∷ lines) world.disk)
            ≡ true
          → (officer' : Officer) × (world' : World) × (formatting_file env officer
                (some path)
                p_save_path
                flags
                world
              ≡ ok (returned (true, officer', world')))
            × (world'.disk ≡ disk_after wanted path p_save_path flags (line ∷ lines) world.disk))
  unfolding formatting_file
  formatting_file-saves chosen valid opens e stores saves =
      let chooser : Officer = record officer {
        backup = has_flag flags format_to_backup;
        dispaly = not (has_flag flags format_undisplay);
      } in
      let (officer', world', run, left) =
        format_valid-saves env chooser path p_save_path flags world line lines opens e stores
          saves in
      (
        officer',
        world',
        rw (
          chosen,
          on_valid_path-passes env chooser path world (format_valid env chooser p_save_path flags)
              valid,
          run,
        ),
        left,
      )
