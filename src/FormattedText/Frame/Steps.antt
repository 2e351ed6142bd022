-- ===== src/FormattedText/Frame/Steps.antt =====
-- The parts of `formatting_check` and `formatting_file` in formatted_text/src/formatted_text.cpp
-- come to an end, write no other file, and print nothing in a quiet run.
use armory.Common.{
  ℕ, zero, suc, ℤ, ◌≡◌, refl, sym, ◌∙◌, pos, negsuc, List, Bool, true, false, Option, inl, inr,
  Returns, returns, Returns-bind, Returns-if, Returns-unless, Returns-map, length, ◌==◌, Bool-cases,
}
use armory.FormattedText.Files.{
  World, Env, Officer, show, green, plain, shown_path, backup_to, input_path, save_to,
  load_target_file, save_to_file,
}
use armory.FormattedText.Lines.{load_target_file-reads}
use armory.FormattedText.{
  get_format_func_array, format_check_each_line, check_loaded, check_file, backup_path,
  backup_loaded, read_and_backup, format_valid,
}
use armory.FormattedText.Runs.{adds, eats, target}
use armory.FormattedText.Each.{format_check_each_line-all}
use armory.FormattedText.Frame.{
  Near, Muted, Near-refl, Near-trans, show-Near, Writable, save_to_file-Near, Done,
}

module _ (may : List ℕ → Bool) (quiet : Bool) where
  -- The officer, too, is as quiet as before.
  pub load_target_file-Near :
      (env : Env) (officer : Officer) (path : List ℕ) (world : World)
      → Muted may quiet officer
      → Returns
          (λ (result, officer', world').
            Muted may quiet officer'
            × (officer'.backup ≡ officer.backup)
            × Near may quiet world world')
          (load_target_file env officer path world)
  unfolding load_target_file
  load_target_file-Near env officer path world muted =
      elim (Bool-cases (env.open_read path world.disk)) [
        | inl opens ↦
            rw (load_target_file-reads env officer path world opens)
              (returns (muted, refl, Near-refl may quiet world))
        | inr fails ↦ rw fails (returns (muted, refl, show-Near may quiet officer _ world muted))
      ]

  -- The loops on the lines leave the officer's other fields.
  pub format_check_each_line-Muted :
      (officer : Officer) (flags : ℕ) (is_check : Bool)
      → Muted may quiet officer
      → Returns
          (λ (result, officer'). Muted may quiet officer')
          (format_check_each_line (get_format_func_array officer flags) is_check)
  unfolding get_format_func_array
  format_check_each_line-Muted officer flags true muted =
      rw (format_check_each_line-all (adds flags) (eats flags) true officer) (returns muted)
  format_check_each_line-Muted officer flags false muted =
      rw (format_check_each_line-all (adds flags) (eats flags) false officer) (returns muted)

  pub check_loaded-Near :
      (result : ℤ) (officer : Officer) (path : List ℕ) (flags : ℕ) (world : World)
      → Muted may quiet officer
      → Returns (Done may quiet world) (check_loaded result officer path flags world)
  unfolding check_loaded get_format_func_array
  check_loaded-Near (negsuc n) officer path flags world muted =
      returns (muted, show-Near may quiet officer _ world muted)
  check_loaded-Near (pos (suc n)) officer path flags world muted =
      returns (muted, show-Near may quiet officer _ world muted)
  check_loaded-Near (pos zero) officer path flags world muted =
      Returns-if (length (get_format_func_array officer flags).func_vec == 0)
        (λ none. returns (muted', show-Near may quiet _ _ world muted'))
        (λ chosen.
          Returns-bind (format_check_each_line-Muted officer flags true muted)
            (λ (result, officer1) muted1.
              returns (muted1, show-Near may quiet officer1 _ world muted1)))
    where
      muted' : Muted may quiet (get_format_func_array officer flags)
      muted' = muted

  pub check_file-Near :
      (env : Env) (officer : Officer) (path : List ℕ) (flags : ℕ) (world : World)
      → Muted may quiet officer
      → Returns (Done may quiet world) (check_file env officer path flags world)
  unfolding check_file
  check_file-Near env officer path flags world muted =
      Returns-bind (load_target_file-Near env officer path world muted)
        (λ (result, officer1, world1) (muted1, same, near1).
          Returns-map (check_loaded-Near result officer1 path flags world1 muted1)
            (λ (b, officer2, world2) (muted2, near2). (muted2, Near-trans may quiet near1 near2)))

  pub backup_loaded-Near :
      (env : Env) (result : ℤ) (officer : Officer) (path : List ℕ) (world : World)
      → Muted may quiet officer
      → (officer.backup ≡ true → Writable may quiet (backup_path path))
      → Returns (Done may quiet world) (backup_loaded env result officer path world)
  unfolding backup_loaded
  backup_loaded-Near env (negsuc n) officer path world muted other =
      returns (muted, show-Near may quiet officer _ world muted)
  backup_loaded-Near env (pos (suc n)) officer path world muted other =
      returns (muted, show-Near may quiet officer _ world muted)
  backup_loaded-Near env (pos zero) officer path world muted other =
      let (stored, after) = save_to_file env officer (backup_path path) world in
      let told = show officer (plain backup_to) after in
      Returns-unless officer.backup
        (λ wanted.
          let near =
            save_to_file-Near may quiet env officer (backup_path path) world muted (other wanted) in
          let shown =
            Near-trans may quiet (show-Near may quiet officer (plain backup_to) after muted)
              (show-Near may quiet officer (green (shown_path (backup_path path))) told muted) in
          Returns-if stored (λ s. returns (muted, Near-trans may quiet near shown))
            (λ s. returns (muted, near)))
        (λ unwanted. returns (muted, Near-refl may quiet world))

  pub read_and_backup-Near :
      (env : Env) (officer : Officer) (path : List ℕ) (world : World)
      → Muted may quiet officer
      → (officer.backup ≡ true → Writable may quiet (backup_path path))
      → Returns (Done may quiet world) (read_and_backup env officer path world)
  unfolding read_and_backup
  read_and_backup-Near env officer path world muted other =
      Returns-bind (load_target_file-Near env officer path world muted)
        (λ (result, officer1, world1) (muted1, same, near1).
          Returns-map
            (backup_loaded-Near env result officer1 path world1 muted1 (λ e. other (sym same ∙ e)))
            (λ (b, officer2, world2) (muted2, near2). (muted2, Near-trans may quiet near1 near2)))

  pub format_valid-Near :
      (env : Env) (officer : Officer) (p_save_path : Option (List ℕ)) (flags : ℕ) (path : List ℕ)
      (world : World)
      → Muted may quiet officer
      → (officer.backup ≡ true → Writable may quiet (backup_path path))
      → Writable may quiet (target p_save_path path)
      → Returns (Done may quiet world) (format_valid env officer p_save_path flags path world)
  unfolding format_valid
  format_valid-Near env officer p_save_path flags path world muted other other2 =
      let told = show officer (plain input_path) world in
      let near =
        Near-trans may quiet (show-Near may quiet officer (plain input_path) world muted)
          (show-Near may quiet officer (green (shown_path path)) told muted) in
      let save_path = target p_save_path path in
      Returns-bind
        (read_and_backup-Near env officer path (show officer (green (shown_path path)) told) muted
          other)
        (λ (done, officer1, world1) (muted1, near1).
          Returns-unless done
            (λ ready.
              Returns-bind (format_check_each_line-Muted officer1 flags false muted1)
                (λ (result, officer2) muted2.
                  let (stored, after) = save_to_file env officer2 save_path world1 in
                  let near2 =
                    Near-trans may quiet (Near-trans may quiet near near1)
                      (save_to_file-Near may quiet env officer2 save_path world1 muted2 other2) in
                  let shown = show-Near may quiet officer2 (plain save_to) after muted2 in
                  let shown2 =
                    show-Near may quiet officer2 (green (shown_path save_path))
                      (show officer2 (plain save_to) after) muted2 in
                  Returns-if stored
                    (λ s.
                      returns
                        (muted2, Near-trans may quiet near2 (Near-trans may quiet shown shown2)))
                    (λ s. returns (muted2, near2))))
            (λ failed. returns (muted1, Near-trans may quiet near near1)))
