-- ===== src/Server/Profile.antt =====
-- server/socket.go: `handleSocketConn` on a connection of the Unix socket, which has the commands of
-- the profiler besides those of every connection, and no welcome. Whether the profiler starts a
-- CPU profile is a parameter, by the number of the try. Its methods write to the profiler, so that a
-- call on nil, which `Prof` is unless main.go has the flag `-pprof`, ends the process; that of a memory
-- profile is made by a goroutine, whose panic is taken here as the command's own.
pub mod Total
pub mod Print
use nodare_db_dev.Prelude.{
  Bool, Bytes, List, Run, [], bytes_eq, false, fault, get_or, if◌then◌else◌, length, ltb,
  nil_dereference, none, not, ok, some, suc, true, zero, ℕ, ◌%◌, ◌&&◌, ◌++◌, ◌+◌, ◌/◌, ◌==◌, ◌>>=◌,
  ◌||◌, ◌∷◌,
}
use nodare_db_dev.Database.Dick.{XDatabase}
use nodare_db_dev.Server.Listen.{split_comma}
use nodare_db_dev.Server.Session.{
  Next, Session, after_bar, bar, crlf, leave, made, mode_add, mode_del, mode_get, mode_set, no_mode,
  stay, until_bar,
}
use nodare_db_dev.Server.Socket.{command_line, handle_line, send}
use nodare_db_dev.Utils.{str2int}

abbrev pub magic_1 : ℕ
magic_1 = 49

abbrev pub magic_2 : ℕ
magic_2 = 50

-- `Prof` is not nil; `CPUfile` is not nil; the tries to start a CPU profile; and the memory profiles that were queued,
-- with their run and their wait in seconds, the latest first.
pub record Profiles : Type 0 where
  pub has_prof : Bool
  pub cpu_open : Bool
  pub cpu_tries : ℕ
  pub mem_runs : List (ℕ × ℕ)

-- The two numbers of a memory profile, from the text after the bar: 30 and 0 where there is no
-- comma, or the first is not a positive number.
abbrev pub mem_pair : List Bytes → ℕ × ℕ
mem_pair (a ∷ b ∷ rest) = let run = str2int a in if ltb 0 run then (run, str2int b) else (30, 0)
mem_pair _ = (30, 0)

unfoldable pub mem_args : Bytes → ℕ × ℕ
mem_args text = mem_pair (split_comma [] text)

-- `%d`, for a number of at most 20 digits.
unfoldable pub print_digits : ℕ → ℕ → Bytes → Bytes
print_digits zero n acc = acc
print_digits (suc fuel) n acc =
    let more = print_digits fuel (n / 10) ((48 + n % 10) ∷ acc) in
    if n / 10 == 0 then (48 + n % 10) ∷ acc else more

-- "200 StartMemProfile run=", " wait=", "200 StopCPUProfile", "200 StartCPUProfile" and
-- "400 ERR StartCPUProfile".
abbrev pub mem_reply : ℕ × ℕ → Bytes
mem_reply (run, wait) =
    ((50 ∷ 48 ∷ 48 ∷ 32 ∷ 83 ∷ 116 ∷ 97 ∷ 114 ∷ 116 ∷ 77 ∷ 101 ∷ 109 ∷ 80 ∷ 114 ∷ 111 ∷ 102 ∷ 105
        ∷ 108 ∷ 101 ∷ 32 ∷ 114 ∷ 117 ∷ 110 ∷ 61 ∷ [])
      ++ print_digits 20 run [])
    ++ (((32 ∷ 119 ∷ 97 ∷ 105 ∷ 116 ∷ 61 ∷ []) ++ print_digits 20 wait []) ++ crlf)

abbrev pub stop_reply : Bytes
stop_reply =
    50 ∷ 48 ∷ 48 ∷ 32 ∷ 83 ∷ 116 ∷ 111 ∷ 112 ∷ 67 ∷ 80 ∷ 85 ∷ 80 ∷ 114 ∷ 111 ∷ 102 ∷ 105 ∷ 108 ∷ 101
    ∷ crlf

abbrev pub start_reply : Bytes
start_reply =
    50 ∷ 48 ∷ 48 ∷ 32 ∷ 83 ∷ 116 ∷ 97 ∷ 114 ∷ 116 ∷ 67 ∷ 80 ∷ 85 ∷ 80 ∷ 114 ∷ 111 ∷ 102 ∷ 105 ∷ 108
    ∷ 101 ∷ crlf

abbrev pub error_reply : Bytes
error_reply =
    52 ∷ 48 ∷ 48 ∷ 32 ∷ 69 ∷ 82 ∷ 82 ∷ 32 ∷ 83 ∷ 116 ∷ 97 ∷ 114 ∷ 116 ∷ 67 ∷ 80 ∷ 85 ∷ 80 ∷ 114
    ∷ 111 ∷ 102 ∷ 105 ∷ 108 ∷ 101 ∷ crlf

-- The line is one of these commands.
abbrev pub is_command : ℕ → Bytes → Bool
is_command c line =
    not (ltb (length line) 3 || not (get_or line 1 0 == bar)) && bytes_eq (until_bar line) (c ∷ [])

-- The session as a command finds it.
abbrev pub cleared : Session → Session
cleared s = record s { keys = []; vals = made s.vals; state = none }

-- `continue readlines` after a command of the profiler.
abbrev pub after_profile : XDatabase → Run (Session × Profiles) → Run (Next × Profiles)
after_profile db run = do (s, p) ← run; ok (stay s db, p)

-- In a mode, a line leaves the profiles as they are.
abbrev pub other_line : Profiles → Run Next → Run (Next × Profiles)
other_line p run = do n ← run; ok (n, p)

module _ (accepts : ℕ → Bool) (starts : ℕ → Bool) where
  -- `PrintfLine` without a look at its error.
  unfoldable pub say : Session → Bytes → Session
  say s text = elim (send accepts s text) [ some t ↦ t | none ↦ s ]

  unfoldable pub mem_profile : Bytes → Session → Profiles → Run (Session × Profiles)
  mem_profile text s p =
      if p.has_prof
      then ok
          (say s (mem_reply (mem_args text)), record p { mem_runs = mem_args text ∷ p.mem_runs })
      else fault nil_dereference

  unfoldable pub cpu_profile : Session → Profiles → Run (Session × Profiles)
  cpu_profile s p =
      if not p.has_prof
      then fault nil_dereference
      else if p.cpu_open
      then ok (say s stop_reply, record p { cpu_open = false })
      else if starts p.cpu_tries
      then ok (say s start_reply, record p { cpu_open = true; cpu_tries = p.cpu_tries + 1 })
      else ok (say s error_reply, record p { cpu_tries = p.cpu_tries + 1 })

  module _ (hash : Bytes → Run ℕ) (pcas : Bytes → ℕ) where
    unfoldable pub unix_command : Profiles → Session → XDatabase → Bytes → Run (Next × Profiles)
    unix_command p s db line =
        if is_command magic_1 line
        then after_profile db (mem_profile (until_bar (after_bar line)) (cleared s) p)
        else if is_command magic_2 line
        then after_profile db (cpu_profile (cleared s) p)
        else ok (command_line accepts hash pcas s db line, p)

    unfoldable pub unix_line : Profiles → Session → XDatabase → Bytes → Run (Next × Profiles)
    unix_line p s db line = elim s.mode [
      | no_mode ↦ unix_command p s db line
      | mode_add ↦ other_line p (handle_line accepts hash pcas s db line)
      | mode_set ↦ other_line p (handle_line accepts hash pcas s db line)
      | mode_get ↦ other_line p (handle_line accepts hash pcas s db line)
      | mode_del ↦ other_line p (handle_line accepts hash pcas s db line)
    ]

    unfoldable pub unix_lines : List Bytes → Next × Profiles → Run (Next × Profiles)
    unix_lines [] (n, p) = ok (n, p)
    unix_lines (line ∷ rest) (leave s db, p) = ok (leave s db, p)
    unix_lines (line ∷ rest) (stay s db, p) = do next ← unix_line p s db line; unix_lines rest next
