-- ===== src/Logger/Files/Lines.antt =====
-- logger/logger.go: the lines of a log file, from `LogStart` to `LogClose`.
use mathlib.Core.Path.{subst}
use nodare_db_dev.Prelude.{
  ==_iff, ==_refl, Bool, Bool-cases, Bytes, List, Option, [], ap, append-nil, append_assoc, false,
  if◌then◌else◌, inl, inr, none, refl, some, sym, true, ℕ, ◌++◌, ◌==◌, ◌∙◌, ◌∷◌, ◌≡◌, ◌≢◌,
}
use nodare_db_dev.Logger.{shows_debug, shows_info}
use nodare_db_dev.Logger.Files.{
  Log, close_by, configure_output, debug_tag, error_tag, info_tag, log_close, log_debug, log_error,
  log_info, log_start, log_warn, print_line, replace_at, start_unless, to_both, warn_tag, write_to,
}

-- A call of one of the four methods.
pub data Message : Type 0 where
  info_call warn_call error_call debug_call : Bytes → Message

unfoldable pub log_message : Message → Log → Log
log_message (info_call text) l = log_info text l
log_message (warn_call text) l = log_warn text l
log_message (error_call text) l = log_error text l
log_message (debug_call text) l = log_debug text l

unfoldable pub log_messages : List Message → Log → Log
log_messages [] l = l
log_messages (m ∷ ms) l = log_messages ms (log_message m l)

-- The lines of some calls at a level.
abbrev pub lines_of : Option ℕ → Message → List Bytes
lines_of level (info_call text) = if shows_info level then (info_tag ++ text) ∷ [] else []
lines_of level (warn_call text) = (warn_tag ++ text) ∷ []
lines_of level (error_call text) = (error_tag ++ text) ∷ []
lines_of level (debug_call text) = if shows_debug level then (debug_tag ++ text) ∷ [] else []

abbrev pub shown : Option ℕ → List Message → List Bytes
shown level [] = []
shown level (m ∷ ms) = lines_of level m ++ shown level ms

-- The logger after some more lines, which leaves the rest as it was.
pub record IsLogged (h : ℕ) (l m : Log) (to_console to_file : List Bytes) : Type 0 where
  pub console_lines : m.console ≡ l.console ++ to_console
  pub file_lines : m.contents h ≡ l.contents h ++ to_file
  pub others : (k : ℕ) → k ≢ h → m.contents k ≡ l.contents k
  pub same_level : m.level ≡ l.level
  pub same_file : m.log_file ≡ l.log_file
  pub same_writer : m.writer ≡ l.writer
  pub same_opened : m.opened ≡ l.opened

-- What a list of lines becomes in the file: all of it where the file is open.
abbrev kept : Bool → List Bytes → List Bytes
kept true lines = lines
kept false lines = []

IsLogged-refl : (h : ℕ) (l : Log) → IsLogged h l l [] []
IsLogged-refl h l = record {
  console_lines = sym (append-nil l.console);
  file_lines = sym (append-nil (l.contents h));
  others = λ k ne. refl;
  same_level = refl;
  same_file = refl;
  same_writer = refl;
  same_opened = refl;
}

IsLogged-then :
    (h : ℕ) (l m n : Log) (cs fs cs' fs' : List Bytes)
    → IsLogged h l m cs fs
    → IsLogged h m n cs' fs'
    → IsLogged h l n (cs ++ cs') (fs ++ fs')
IsLogged-then h l m n cs fs cs' fs' v w = record {
  console_lines =
      w.console_lines ∙ (ap (λ t. t ++ cs') v.console_lines ∙ append_assoc l.console cs cs');
  file_lines =
      w.file_lines ∙ (ap (λ t. t ++ fs') v.file_lines ∙ append_assoc (l.contents h) fs fs');
  others = λ k ne. w.others k ne ∙ v.others k ne;
  same_level = w.same_level ∙ v.same_level;
  same_file = w.same_file ∙ v.same_file;
  same_writer = w.same_writer ∙ v.same_writer;
  same_opened = w.same_opened ∙ v.same_opened;
}

write_file-IsLogged :
    (h : ℕ) (line : Bytes) (l : Log) (b : Bool)
    → l.opened h ≡ b
    → IsLogged h l (write_to (to_both h) line l) (line ∷ []) (kept b (line ∷ []))
write_file-IsLogged h line l true e = rw e (record {
  console_lines = refl;
  file_lines = rw (==_refl h) refl;
  others = λ k ne. elim (Bool-cases (h == k)) [
    | inl same ↦ absurd (ne (sym ((==_iff h k).0 same)))
    | inr other ↦ rw other refl
  ];
  same_level = refl;
  same_file = refl;
  same_writer = refl;
  same_opened = refl;
})
write_file-IsLogged h line l false e = rw e (record {
  console_lines = refl;
  file_lines = sym (append-nil (l.contents h));
  others = λ k ne. refl;
  same_level = refl;
  same_file = refl;
  same_writer = refl;
  same_opened = refl;
})

print_line-IsLogged :
    (h : ℕ) (line : Bytes) (l : Log) (b : Bool)
    → l.writer ≡ to_both h
    → l.opened h ≡ b
    → IsLogged h l (print_line line l) (line ∷ []) (kept b (line ∷ []))
unfolding print_line
print_line-IsLogged h line l b both e =
    subst (λ w. IsLogged h l (write_to w line l) (line ∷ []) (kept b (line ∷ []))) (sym both)
      (write_file-IsLogged h line l b e)

kept-append : (b : Bool) (xs ys : List Bytes) → kept b (xs ++ ys) ≡ kept b xs ++ kept b ys
kept-append true xs ys = refl
kept-append false xs ys = refl

-- A message with a guard.
guarded-IsLogged :
    (h : ℕ) (line : Bytes) (l : Log) (b shows : Bool)
    → l.writer ≡ to_both h
    → l.opened h ≡ b
    → IsLogged h l
        (if shows then print_line line l else l)
        (if shows then line ∷ [] else [])
        (kept b (if shows then line ∷ [] else []))
guarded-IsLogged h line l b true both e = print_line-IsLogged h line l b both e
guarded-IsLogged h line l true false both e = IsLogged-refl h l
guarded-IsLogged h line l false false both e = IsLogged-refl h l

log_message-IsLogged :
    (h : ℕ) (m : Message) (l : Log) (b : Bool)
    → l.writer ≡ to_both h
    → l.opened h ≡ b
    → IsLogged h l (log_message m l) (lines_of l.level m) (kept b (lines_of l.level m))
unfolding log_message log_info log_warn log_error log_debug
log_message-IsLogged h (info_call text) l b both e =
    guarded-IsLogged h (info_tag ++ text) l b (shows_info l.level) both e
log_message-IsLogged h (warn_call text) l b both e =
    print_line-IsLogged h (warn_tag ++ text) l b both e
log_message-IsLogged h (error_call text) l b both e =
    print_line-IsLogged h (error_tag ++ text) l b both e
log_message-IsLogged h (debug_call text) l b both e =
    guarded-IsLogged h (debug_tag ++ text) l b (shows_debug l.level) both e

log_messages-IsLogged :
    (h : ℕ) (ms : List Message) (l : Log) (b : Bool)
    → l.writer ≡ to_both h
    → l.opened h ≡ b
    → IsLogged h l (log_messages ms l) (shown l.level ms) (kept b (shown l.level ms))
unfolding log_messages
log_messages-IsLogged h [] l true both e = IsLogged-refl h l
log_messages-IsLogged h [] l false both e = IsLogged-refl h l
log_messages-IsLogged h (m ∷ ms) l b both e =
    let v = log_message-IsLogged h m l b both e in
    let w =
      log_messages-IsLogged h ms (log_message m l) b (v.same_writer ∙ both)
        (ap (λ f. f h) v.same_opened ∙ e) in
    let lines : shown (log_message m l).level ms ≡ shown l.level ms =
      ap (λ lvl. shown lvl ms) v.same_level in
    let w' =
      subst (λ xs. IsLogged h (log_message m l) (log_messages ms (log_message m l)) xs (kept b xs))
        lines w in
    subst (IsLogged h l (log_messages ms (log_message m l)) (shown l.level (m ∷ ms)))
      (sym (kept-append b (lines_of l.level m) (shown l.level ms)))
      (IsLogged-then h l (log_message m l) (log_messages ms (log_message m l)) _ _ _ _ v w')

module _ (open_file : Bytes → Option ℕ) where
  log_start-opens :
      (name : Bytes) (h : ℕ) (l : Log)
      → l.log_file ≡ none
      → open_file name ≡ some h
      → log_start open_file name l
        ≡ record l { opened = replace_at l.opened h true; log_file = some h; writer = to_both h }
  unfolding log_start configure_output
  log_start-opens name h l no_file opens =
      ap (λ o. start_unless open_file o name l) no_file ∙ rw opens refl

  log_close-closes :
      (h : ℕ) (l : Log)
      → l.log_file ≡ some h
      → log_close l ≡ record l { opened = replace_at l.opened h false; log_file = none }
  unfolding log_close
  log_close-closes h l has = ap (λ o. close_by o l) has

  -- Where no log file is open and the file of `LogStart` can be opened: another `LogStart`
  -- changes nothing; the messages that the level lets through, and no others, are appended to the
  -- file and to the console, in their order; and after `LogClose` the messages go to the console
  -- alone.
  pub log_start-log_close :
      (name other : Bytes) (h : ℕ) (l : Log) (before after : List Message)
      → l.log_file ≡ none
      → open_file name ≡ some h
      → (log_start open_file other (log_start open_file name l) ≡ log_start open_file name l)
        × ((log_messages after
                (log_close (log_messages before (log_start open_file name l)))).contents
              h
            ≡ l.contents h ++ shown l.level before)
        × ((log_messages after
              (log_close (log_messages before (log_start open_file name l)))).console
            ≡ l.console ++ (shown l.level before ++ shown l.level after))
  unfolding log_start
  log_start-log_close name other h l before after no_file opens =
      let started : Log = record l {
        opened = replace_at l.opened h true;
        log_file = some h;
        writer = to_both h;
      } in
      let logged : Log = log_messages before started in
      let closed : Log = record logged {
        opened = replace_at logged.opened h false;
        log_file = none;
      } in
      let v : IsLogged h started logged (shown l.level before) (shown l.level before) =
        log_messages-IsLogged h before started true refl (rw (==_refl h) refl) in
      let w : IsLogged h closed (log_messages after closed) (shown logged.level after) [] =
        log_messages-IsLogged h after closed false v.same_writer (rw (==_refl h) refl) in
      let first = log_start-opens name h l no_file opens in
      let last : log_close logged ≡ closed = log_close-closes h logged v.same_file in
      rw (first, last)
        (
          refl,
          w.file_lines ∙ (append-nil (logged.contents h) ∙ v.file_lines),
          w.console_lines
              ∙ (ap (λ xs. xs ++ shown logged.level after) v.console_lines
                  ∙ (append_assoc l.console (shown l.level before) (shown logged.level after)
                      ∙ ap (λ lvl. l.console ++ (shown l.level before ++ shown lvl after))
                          v.same_level)),
        )
