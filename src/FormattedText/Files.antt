-- ===== src/FormattedText/Files.antt =====
-- The files of formatted_text/src/formatted_text.cpp: the officer with its messages, what it
-- reads and writes, and the test of a path. A path and a file are lists of bytes.
use armory.Common.{
  ℕ, zero, suc, ◌+◌, ℤ, pos, negsuc, List, [], ◌∷◌, ◌++◌, Bool, true, false, not, ◌&&◌, ◌||◌,
  Option, none, some, Run, ok, out_of_fuel, ◌>>=◌, length, at, ltb, ◌==◌, if◌then◌else◌,
}

-- `MAXIMUM_FILE_SIZE` and `sizeof(Elf64_Ehdr)`.
abbrev pub maximum_file_size : ℕ
maximum_file_size = 10485760

abbrev pub elf_header_size : ℕ
elf_header_size = 64

-- What is printed; the texts of `strerror` are left out.
pub data Message : Type 0 where
  open_error : Message
  nothing_to_write : Message
  write_open_error : (path : List ℕ) → Message
  empty_path : Message
  access_error : (path : List ℕ) → Message
  is_directory : (path : List ℕ) → Message
  not_regular : Message
  too_large : Message
  not_supported : Message
  read_error : Message
  no_type : Message
  needs_format : (path : List ℕ) → Message
  no_format : (path : List ℕ) → Message
  backup_to : Message
  input_path : Message
  save_to : Message
  shown_path : (path : List ℕ) → Message

-- A message as it stands, and in one of the two colours.
pub data Output : Type 0 where
  plain : (message : Message) → Output
  red : (message : Message) → Output
  green : (message : Message) → Output

abbrev pub Disk : Type 0
Disk = List ℕ → List ℕ

pub record World : Type 0 where
  pub disk : Disk
  pub printed : List Output

-- `S_ISDIR`, `S_ISREG` and neither.
pub data FileKind : Type 0 where
  directory : FileKind
  regular : FileKind
  other_kind : FileKind

-- The answers of the system: whether a path can be accessed, what it names, and whether it opens
-- for reading and for writing.
pub record Env : Type 0 where
  pub access : List ℕ → Disk → Bool
  pub stat : List ℕ → Disk → FileKind
  pub open_read : List ℕ → Disk → Bool
  pub open_write : List ℕ → Disk → Bool

-- `deal_with_line_t`.
abbrev pub DealWithLine : Type 0
DealWithLine = List ℕ → Bool → Run (Bool × List ℕ)

-- `format_officer`. The buffer `fmt` holds a format string during one call only.
pub record Officer : Type 0 where
  pub func_vec : List DealWithLine
  pub line_vec : List (List ℕ)
  pub backup : Bool
  pub dispaly : Bool

-- `format_officer_create`, with the constructor.
abbrev pub format_officer_create : Officer
format_officer_create = record { func_vec = []; line_vec = []; backup = true; dispaly = true }

-- `show`, `show_red` and `show_green`, by the output they are called for.
unfoldable pub show : Officer → Output → World → World
show officer output world =
    if not officer.dispaly then world else record world { printed = world.printed ++ output ∷ [] }

-- The bytes up to the next newline, and those behind it.
unfoldable pub until_newline : List ℕ → List ℕ × List ℕ
until_newline [] = ([], [])
until_newline (c ∷ stream) =
    let (line, rest) = until_newline stream in if c == 10 then ([], stream) else (c ∷ line, rest)

-- `getline(file_stream, line, '\n')`: it fails where no byte is left.
unfoldable pub getline : List ℕ → Option (List ℕ × List ℕ)
getline [] = none
getline (c ∷ stream) = some (until_newline (c ∷ stream))

-- The loop of `load_target_file`. Each round reads a byte.
unfoldable pub read_lines : ℕ → List ℕ → List (List ℕ) → Run (List (List ℕ))
read_lines zero stream line_vec = out_of_fuel
read_lines (suc fuel) stream line_vec = elim (getline stream) [
  | none ↦ ok line_vec
  | some (line, rest) ↦ read_lines fuel rest (line_vec ++ line ∷ [])
]

unfoldable pub load_target_file : Env → Officer → List ℕ → World → Run (ℤ × Officer × World)
load_target_file env officer path world =
    let stream = world.disk path in
    if not (env.open_read path world.disk)
    then ok (negsuc 0, officer, show officer (red open_error) world)
    else do
      lines ← read_lines (length stream + 1) stream officer.line_vec
      ok (pos 0, record officer { line_vec = lines }, world)

-- Two paths are one.
unfoldable pub same_path : List ℕ → List ℕ → Bool
same_path [] [] = true
same_path [] (y ∷ q) = false
same_path (x ∷ p) [] = false
same_path (x ∷ p) (y ∷ q) = x == y && same_path p q

-- A file written anew.
unfoldable pub write_file : List ℕ → List ℕ → Disk → Disk
write_file path bytes disk p = if same_path p path then bytes else disk p

-- The bytes that the loop of `save_to_file` writes.
unfoldable pub saved : List (List ℕ) → List ℕ
saved [] = []
saved (line ∷ lines) = line ++ 10 ∷ saved lines

unfoldable pub save_to_file : Env → Officer → List ℕ → World → Bool × World
save_to_file env officer path world = elim officer.line_vec [
  | [] ↦ (false, show officer (red nothing_to_write) world)
  | line ∷ lines ↦
      if not (env.open_write path world.disk)
      then (false, show officer (red (write_open_error path)) world)
      else (true, record world { disk = write_file path (saved officer.line_vec) world.disk })
]

-- A call that comes back, or that ends the process by `exit` and leaves a world.
pub data Ended {ℓ} (A : Type ℓ) : Type ℓ where
  exited : (world : World) → Ended A
  returned : A → Ended A

-- The process is ended where nothing can be read.
unfoldable pub file_is_elf : Env → List ℕ → World → Ended Bool
file_is_elf env path world =
    let disk = world.disk in
    if not (env.open_read path disk) || length (disk path) == 0
    then exited world
    else returned (
        at (disk path) 0 == 127
        && at (disk path) 1 == 69
        && at (disk path) 2 == 76
        && at (disk path) 3 == 70)

-- The tests of `is_invalid_path` behind `stat`.
unfoldable pub is_invalid_file : Env → Officer → List ℕ → World → Ended (Bool × World)
is_invalid_file env officer path world =
    let size = length (world.disk path) in
    let refused : Message → Ended (Bool × World) =
      λ message. returned (true, show officer (red message) world) in
    elim (env.stat path world.disk) [
      | directory ↦ refused (is_directory path)
      | other_kind ↦ refused not_regular
      | regular ↦
          if ltb maximum_file_size size
          then refused too_large
          else if ltb elf_header_size size
          then (elim (file_is_elf env path world) [
            | exited world ↦ exited world
            | returned is_elf ↦ if is_elf then refused not_supported else returned (false, world)
          ])
          else returned (false, world)
    ]

unfoldable pub is_invalid_path : Env → Officer → Option (List ℕ) → World → Ended (Bool × World)
is_invalid_path env officer none world = returned (true, show officer (red empty_path) world)
is_invalid_path env officer (some path) world =
    if not (env.access path world.disk)
    then returned (true, show officer (red (access_error path)) world)
    else is_invalid_file env officer path world
