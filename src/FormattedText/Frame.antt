-- ===== src/FormattedText/Frame.antt =====
-- What no run of formatted_text/src/formatted_text.cpp does, whatever the path, the flags and the
-- answers of the system: the files that stay, and that nothing is printed where that is asked for.
pub mod Steps
pub mod Ends
use armory.Common.{
  ℕ, zero, suc, ℤ, ◌+◌, ◌≡◌, refl, sym, ap, ◌∙◌, pos, negsuc, List, [], ◌∷◌, ◌++◌, Bool, true,
  false, not, ◌&&◌, ◌||◌, Option, none, some, map, arith, inl, inr, ◌<◌, ◌≤◌, ltb→lt, ltb-false→le,
  Run, ok, ◌>>=◌, Returns, returns, Returns-bind, Returns-if, Returns-unless, Returns-map, length,
  ltb, ◌==◌, Bool-cases, if◌then◌else◌,
}
use armory.FormattedText.Files.{
  maximum_file_size, elf_header_size, FileKind, Message, nothing_to_write, write_open_error,
  is_directory, not_regular, too_large, not_supported, Output, World, directory, regular,
  other_kind, Env, Officer, show, red, green, plain, shown_path, backup_to, input_path, save_to,
  load_target_file, same_path, write_file, saved, save_to_file, Ended, exited, returned,
  file_is_elf, is_invalid_file, is_invalid_path,
}
use armory.FormattedText.Lines.{lines_of, load_target_file-reads}
use armory.FormattedText.{
  has_flag, format_undisplay, format_to_backup, format_undefined, format_fmt_check,
  get_format_func_array, format_check_each_line, check_loaded, check_file, on_valid_path,
  formatting_check, backup_path, backup_loaded, read_and_backup, format_valid, formatting_file,
}
use armory.FormattedText.Runs.{adds, eats, target}
use armory.FormattedText.Each.{with_functions, format_check_each_line-all}

-- The one reason to end the process: a regular file that can be accessed, of a size for which the
-- test for an executable file is made, does not open for it.
abbrev pub Untestable : Env → Option (List ℕ) → World → Type 0
Untestable env none world = ⊥
Untestable env (some path) world =
    (env.access path world.disk ≡ true)
    × (env.stat path world.disk ≡ regular)
    × (elf_header_size < length (world.disk path))
    × (length (world.disk path) ≤ maximum_file_size)
    × (env.open_read path world.disk ≡ false)

world_at_exit : Ended Bool → World → World
world_at_exit (exited world) other = world
world_at_exit (returned result) other = other

is_exit : Ended Bool → Bool
is_exit (exited world) = true
is_exit (returned result) = false

exits :
    (b : Bool) (result : Bool) (world world1 : World)
    → (if b then exited world else returned result) ≡ exited world1
    → (b ≡ true) × (world ≡ world1)
unfolding is_exit world_at_exit
exits true result world world1 e = (refl, ap (λ x. world_at_exit x world) e)
exits false result world world1 e = let b : false ≡ true = ap is_exit e in absurd (ground arith)

-- A file with a byte ends the process only if it does not open, and nothing has happened then.
file_is_elf-exited :
    (env : Env) (path : List ℕ) (world world1 : World)
    → 0 < length (world.disk path)
    → file_is_elf env path world ≡ exited world1
    → (env.open_read path world.disk ≡ false) × (world ≡ world1)
unfolding file_is_elf
file_is_elf-exited env path world world1 some_byte e =
    let (b, same) =
      exits (not (env.open_read path world.disk) || length (world.disk path) == 0) _ world world1
        e in
    (ground (arith, some_byte), same)

module _ (may : List ℕ → Bool) (quiet : Bool) where
  -- Files that may not be written are as before, and a quiet run has printed nothing.
  pub record Near (world world' : World) : Type 0 where
    pub kept : (p : List ℕ) → may p ≡ false → world'.disk p ≡ world.disk p
    pub silent : quiet ≡ true → world'.printed ≡ world.printed

  -- The officer does not print in a quiet run.
  abbrev pub Muted : Officer → Type 0
  Muted officer = quiet ≡ true → officer.dispaly ≡ false

  pub Near-refl : (world : World) → Near world world
  Near-refl world = record { kept = λ p h. refl; silent = λ q. refl }

  Near-from : (world w1 w2 : World) → w1 ≡ w2 → Near world w1 → Near world w2
  Near-from world w1 w2 e near = rw (← e) near

  pub Near-trans : {w1 w2 w3 : World} → Near w1 w2 → Near w2 w3 → Near w1 w3
  Near-trans a b = record {
    kept = λ p h. b.kept p h ∙ a.kept p h;
    silent = λ q. b.silent q ∙ a.silent q;
  }

  printed-Near :
      (dispaly : Bool) (output : Output) (world : World)
      → (quiet ≡ true → dispaly ≡ false)
      → Near world
          (if not dispaly then world else record world { printed = world.printed ++ output ∷ [] })
  printed-Near false output world muted = Near-refl world
  printed-Near true output world muted = record {
    kept = λ p h. refl;
    silent = λ q. let e = muted q in absurd (ground arith);
  }

  pub show-Near :
      (officer : Officer) (output : Output) (world : World)
      → Muted officer
      → Near world (show officer output world)
  unfolding show
  show-Near officer output world muted = printed-Near officer.dispaly output world muted

  -- A path that may be written.
  abbrev pub Writable : List ℕ → Type 0
  Writable path = (p : List ℕ) → may p ≡ false → same_path p path ≡ false

  write_file-Near :
      (path bytes : List ℕ) (world : World)
      → Writable path
      → Near world (record world { disk = write_file path bytes world.disk })
  unfolding write_file
  write_file-Near path bytes world other = record {
    kept = λ p h. rw (other p h);
    silent = λ q. refl;
  }

  pub save_to_file-Near :
      (env : Env) (officer : Officer) (path : List ℕ) (world : World)
      → Muted officer
      → Writable path
      → Near world (save_to_file env officer path world).1
  unfolding save_to_file
  save_to_file-Near env officer path world muted other = saving officer.line_vec
    where
      saving :
          (line_vec : List (List ℕ))
          → Near world
              (elim line_vec as (λ l. Bool × World) [
                | [] ↦ (false, show officer (red nothing_to_write) world)
                | line ∷ lines ↦
                    if not (env.open_write path world.disk)
                    then (false, show officer (red (write_open_error path)) world)
                    else (
                      true,
                      record world { disk = write_file path (saved officer.line_vec) world.disk },
                    )
              ]).1
      saving [] = show-Near officer _ world muted
      saving (line ∷ lines) = elim (Bool-cases (env.open_write path world.disk)) [
        | inl opens ↦ rw opens (write_file-Near path (saved officer.line_vec) world other)
        | inr fails ↦ rw fails (show-Near officer _ world muted)
      ]

  -- The verdict of a test of a path.
  abbrev pub Verdict : Env → Option (List ℕ) → World → Ended (Bool × World) → Type 0
  Verdict env p_path world (exited world') = Untestable env p_path world × Near world world'
  Verdict env p_path world (returned (invalid, world')) = Near world world'

  is_invalid_file-Near :
      (env : Env) (officer : Officer) (path : List ℕ) (world : World)
      → Muted officer
      → env.access path world.disk ≡ true
      → Verdict env (some path) world (is_invalid_file env officer path world)
  unfolding is_invalid_file
  is_invalid_file-Near env officer path world muted accessed =
      tested (env.stat path world.disk) (ltb maximum_file_size (length (world.disk path)))
        (ltb elf_header_size (length (world.disk path))) (file_is_elf env path world) refl refl refl
        refl
    where
      tested :
          (kind : FileKind) (large long : Bool) (elf : Ended Bool)
          → env.stat path world.disk ≡ kind
          → ltb maximum_file_size (length (world.disk path)) ≡ large
          → ltb elf_header_size (length (world.disk path)) ≡ long
          → file_is_elf env path world ≡ elf
          → Verdict env (some path) world (elim kind as (λ k. Ended (Bool × World)) [
            | directory ↦ returned (true, show officer (red (is_directory path)) world)
            | other_kind ↦ returned (true, show officer (red not_regular) world)
            | regular ↦
                if large
                then returned (true, show officer (red too_large) world)
                else if long
                then (elim elf as (λ k. Ended (Bool × World)) [
                  | exited world ↦ exited world
                  | returned is_elf ↦
                      if is_elf
                      then returned (true, show officer (red not_supported) world)
                      else returned (false, world)
                ])
                else returned (false, world)
          ])
      tested directory large long elf k l h e = show-Near officer _ world muted
      tested other_kind large long elf k l h e = show-Near officer _ world muted
      tested regular true long elf k l h e = show-Near officer _ world muted
      tested regular false false elf k l h e = Near-refl world
      tested regular false true (exited world1) k l h e =
          let size = ltb→lt elf_header_size (length (world.disk path)) h in
          let ends = file_is_elf-exited env path world world1 (omega (arith, size)) e in
          (
            (
              accessed,
              k,
              size,
              ltb-false→le maximum_file_size (length (world.disk path)) l,
              ends.0,
            ),
            Near-from world world world1 ends.1 (Near-refl world),
          )
      tested regular false true (returned true) k l h e = show-Near officer _ world muted
      tested regular false true (returned false) k l h e = Near-refl world

  pub is_invalid_path-Near :
      (env : Env) (officer : Officer) (p_path : Option (List ℕ)) (world : World)
      → Muted officer
      → Verdict env p_path world (is_invalid_path env officer p_path world)
  unfolding is_invalid_path
  is_invalid_path-Near env officer none world muted = show-Near officer _ world muted
  is_invalid_path-Near env officer (some path) world muted =
      elim (Bool-cases (env.access path world.disk)) [
        | inl opens ↦ rw opens (is_invalid_file-Near env officer path world muted opens)
        | inr fails ↦ rw fails (show-Near officer _ world muted)
      ]

  -- What `work` on a valid path does.
  abbrev pub Done : World → Bool × Officer × World → Type 0
  Done world (result, officer, world') = Muted officer × Near world world'

  abbrev pub AllDone : Env → Option (List ℕ) → World → Ended (Bool × Officer × World) → Type 0
  AllDone env p_path world (exited world') = Untestable env p_path world × Near world world'
  AllDone env p_path world (returned (result, officer, world')) = Near world world'

  abbrev pub WorksOn : Option (List ℕ) → (List ℕ → World → Run (Bool × Officer × World)) → Type 0
  WorksOn none work = Unit
  WorksOn (some path) work = (world : World) → Returns (Done world) (work path world)

  pub on_valid_path-Near :
      (env : Env) (officer : Officer) (p_path : Option (List ℕ)) (world : World)
      (work : List ℕ → World → Run (Bool × Officer × World))
      → Muted officer
      → WorksOn p_path work
      → Returns (AllDone env p_path world) (on_valid_path env officer p_path world work)
  unfolding on_valid_path is_invalid_path
  on_valid_path-Near env officer none world work muted works =
      returns (show-Near officer _ world muted)
  on_valid_path-Near env officer (some path) world work muted works =
      decided (is_invalid_path env officer (some path) world)
        (is_invalid_path-Near env officer (some path) world muted)
    where
      decided :
          (verdict : Ended (Bool × World))
          → Verdict env (some path) world verdict
          → Returns
              (AllDone env (some path) world)
              (elim verdict as (λ v. Run (Ended (Bool × Officer × World))) [
                | exited world ↦ ok (exited world)
                | returned (true, world) ↦ ok (returned (false, officer, world))
                | returned (false, world) ↦ do done ← work path world; ok (returned done)
              ])
      decided (exited world1) near = returns near
      decided (returned (true, world1)) near = returns near
      decided (returned (false, world1)) near =
          Returns-bind (works world1)
            (λ (result, officer2, world2) (muted2, near2). returns (Near-trans near near2))
