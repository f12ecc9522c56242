-- ===== src/Logger/Files.antt =====
-- logger/logger.go: the log file, and where the messages go. `open_file` is `os.OpenFile`: the number
-- of a file that is opened, or `none` for an error. A line is what is written after the time stamp
-- of the package `log`; the formats of the messages are applied by the caller.
pub mod Lines
use nodare_db_dev.Prelude.{
  Bool, Bytes, List, Option, Run, [], bytes_eq, exit, false, fault, if◌then◌else◌, none, some, true,
  ℕ, ◌++◌, ◌==◌, ◌∷◌,
}
use nodare_db_dev.Logger.{shows_debug, shows_info}
use nodare_db_dev.Server.Profile.{print_digits}

-- The output of the package `log`: the standard error output at first, then the console, or the
-- console and then a file.
pub data Writer : Type 0 where
  to_stderr to_stdout : Writer
  to_both : ℕ → Writer

-- The logger with the package's output, the lines on the console and in the files, and which files
-- are open.
pub record Log : Type 0 where
  pub level : Option ℕ
  pub log_file : Option ℕ
  pub writer : Writer
  pub console : List Bytes
  pub contents : ℕ → List Bytes
  pub opened : ℕ → Bool

abbrev pub replace_at {ℓ} : {A : Type ℓ} → (ℕ → A) → ℕ → A → ℕ → A
replace_at f n a m = if n == m then a else f m

-- "Error opening log file:" and "Could not ConfigureFileAndConsoleOutput: LogFile is nil".
unfoldable pub open_error : Bytes
open_error =
    69 ∷ 114 ∷ 114 ∷ 111 ∷ 114 ∷ 32 ∷ 111 ∷ 112 ∷ 101 ∷ 110 ∷ 105 ∷ 110 ∷ 103 ∷ 32 ∷ 108 ∷ 111 ∷ 103
    ∷ 32 ∷ 102 ∷ 105 ∷ 108 ∷ 101 ∷ 58 ∷ []

unfoldable pub nil_error : Bytes
nil_error =
    67 ∷ 111 ∷ 117 ∷ 108 ∷ 100 ∷ 32 ∷ 110 ∷ 111 ∷ 116 ∷ 32 ∷ 67 ∷ 111 ∷ 110 ∷ 102 ∷ 105 ∷ 103 ∷ 117
    ∷ 114 ∷ 101 ∷ 70 ∷ 105 ∷ 108 ∷ 101 ∷ 65 ∷ 110 ∷ 100 ∷ 67 ∷ 111 ∷ 110 ∷ 115 ∷ 111 ∷ 108 ∷ 101
    ∷ 79 ∷ 117 ∷ 116 ∷ 112 ∷ 117 ∷ 116 ∷ 58 ∷ 32 ∷ 76 ∷ 111 ∷ 103 ∷ 70 ∷ 105 ∷ 108 ∷ 101 ∷ 32 ∷ 105
    ∷ 115 ∷ 32 ∷ 110 ∷ 105 ∷ 108 ∷ []

-- The write to a file, which fails on one that is closed; `log` ignores the error.
abbrev pub write_file : ℕ → Bytes → Log → Log
write_file h line l =
    if l.opened h
    then record l { contents = replace_at l.contents h (l.contents h ++ line ∷ []) }
    else l

abbrev pub write_to : Writer → Bytes → Log → Log
write_to to_stderr line l = record l { console = l.console ++ line ∷ [] }
write_to to_stdout line l = record l { console = l.console ++ line ∷ [] }
write_to (to_both h) line l = write_file h line (record l { console = l.console ++ line ∷ [] })

-- `log.Printf`.
unfoldable pub print_line : Bytes → Log → Log
print_line line l = write_to l.writer line l

abbrev pub configure_by : Option ℕ → Log → Log
configure_by none l = print_line nil_error (record l { writer = to_stdout })
configure_by (some h) l = record l { writer = to_both h }

-- `ConfigureFileAndConsoleOutput`.
unfoldable pub configure_output : Log → Log
configure_output l = configure_by l.log_file l

-- `SetOutput`.
unfoldable pub set_output : Writer → Log → Log
set_output writer l = record l { writer = writer }

abbrev pub close_by : Option ℕ → Log → Log
close_by none l = l
close_by (some h) l = record l { opened = replace_at l.opened h false; log_file = none }

unfoldable pub log_close : Log → Log
log_close l = close_by l.log_file l

module _ (open_file : Bytes → Option ℕ) where
  abbrev pub start_by : Option ℕ → Log → Log
  start_by none l =
      configure_output (record l { console = l.console ++ open_error ∷ []; log_file = none })
  start_by (some h) l =
      configure_output (record l { opened = replace_at l.opened h true; log_file = some h })

  abbrev pub start_unless : Option ℕ → Bytes → Log → Log
  start_unless none filename l = start_by (open_file filename) l
  start_unless (some h) filename l = l

  unfoldable pub log_start : Bytes → Log → Log
  log_start filename l = start_unless l.log_file filename l

  -- `NewLogger` in a process with the console, the files and the output `l`.
  unfoldable pub new_logger : Option ℕ → Bytes → Log → Log
  new_logger lvl logfile l =
      if bytes_eq logfile []
      then record l { level = lvl; log_file = none }
      else log_start logfile (record l { level = lvl; log_file = none })

-- "[INFO] ", "[WARN] ", "[ERROR] ", "[DEBUG] " and "[FATAL] ".
abbrev pub info_tag : Bytes
info_tag = 91 ∷ 73 ∷ 78 ∷ 70 ∷ 79 ∷ 93 ∷ 32 ∷ []

abbrev pub warn_tag : Bytes
warn_tag = 91 ∷ 87 ∷ 65 ∷ 82 ∷ 78 ∷ 93 ∷ 32 ∷ []

abbrev pub error_tag : Bytes
error_tag = 91 ∷ 69 ∷ 82 ∷ 82 ∷ 79 ∷ 82 ∷ 93 ∷ 32 ∷ []

abbrev pub debug_tag : Bytes
debug_tag = 91 ∷ 68 ∷ 69 ∷ 66 ∷ 85 ∷ 71 ∷ 93 ∷ 32 ∷ []

abbrev pub fatal_tag : Bytes
fatal_tag = 91 ∷ 70 ∷ 65 ∷ 84 ∷ 65 ∷ 76 ∷ 93 ∷ 32 ∷ []

unfoldable pub log_info : Bytes → Log → Log
log_info text l = if shows_info l.level then print_line (info_tag ++ text) l else l

unfoldable pub log_warn : Bytes → Log → Log
log_warn text l = print_line (warn_tag ++ text) l

unfoldable pub log_error : Bytes → Log → Log
log_error text l = print_line (error_tag ++ text) l

unfoldable pub log_debug : Bytes → Log → Log
log_debug text l = if shows_debug l.level then print_line (debug_tag ++ text) l else l

-- `log.Fatalf` prints and ends the process; what it prints is not kept.
unfoldable pub log_fatal : Bytes → Log → Run Log
log_fatal text l = fault exit

-- "%d" of a level.
abbrev pub level_text : Option ℕ → Bytes
level_text none = 45 ∷ 49 ∷ []
level_text (some lvl) = print_digits 20 lvl []

-- "LOGLEVEL=", "SetLOGLEVEL " and "SetLOGLEVEL = ".
abbrev pub level_name : Bytes
level_name = 76 ∷ 79 ∷ 71 ∷ 76 ∷ 69 ∷ 86 ∷ 69 ∷ 76 ∷ 61 ∷ []

abbrev pub set_level_name : Bytes
set_level_name = 83 ∷ 101 ∷ 116 ∷ 76 ∷ 79 ∷ 71 ∷ 76 ∷ 69 ∷ 86 ∷ 69 ∷ 76 ∷ 32 ∷ []

-- The methods `GetLOGLEVEL` and `SetLOGLEVEL`.
unfoldable pub read_level : Log → Log × Option ℕ
read_level l = (log_info (level_name ++ level_text l.level) l, l.level)

unfoldable pub set_level : Option ℕ → Log → Log
set_level lvl l =
    let changed =
      log_info (set_level_name ++ (level_name ++ level_text lvl)) (record l { level = lvl }) in
    print_line (set_level_name ++ (61 ∷ 32 ∷ level_text lvl)) changed
