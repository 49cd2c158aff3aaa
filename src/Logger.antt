-- ===== src/Logger.antt =====
-- pkg/utils/logger.go: the levels, the filters on them, the rotation of the log file. A file is known by
-- its path; what the operating system answers is an argument.
pub mod Rotation
use clipman_daemon.Prelude.{
  ℕ, zero, suc, ◌+◌, ◌-◌, ◌≤◌, ◌<◌, ◌≡◌, refl, Bool, true, false, not, ◌&&◌, ◌||◌, Option, none,
  some, List, [], ◌∷◌, ◌++◌, Bytes, codes, bytes_equal, length, ltb, leb, if◌then◌else◌, arith, ◌∙◌,
  Bool-cases, inl, inr, ltb→lt,
}
use clipman_daemon.Prelude.Int.{ℤ, pos, negsuc}

pub data LogLevel : Type 0 where
  debug info warn error fatal : LogLevel

-- The order of the constants.
abbrev pub rank : LogLevel → ℕ
rank debug = 0
rank info = 1
rank warn = 2
rank error = 3
rank fatal = 4

unfoldable pub level_to_string : LogLevel → Bytes
level_to_string debug = codes "DEBUG"
level_to_string info = codes "INFO"
level_to_string warn = codes "WARN"
level_to_string error = codes "ERROR"
level_to_string fatal = codes "FATAL"

-- strings.ToLower is an argument.
unfoldable pub parse_log_level : (Bytes → Bytes) → Bytes → LogLevel
parse_log_level to_lower level =
    let l = to_lower level in
    if bytes_equal l (codes "debug")
    then debug
    else if bytes_equal l (codes "info")
    then info
    else if bytes_equal l (codes "warn")
    then warn
    else if bytes_equal l (codes "error")
    then error
    else if bytes_equal l (codes "fatal")
    then fatal
    else info

-- The log file: open, or closed by a rotation that failed.
pub data LogFile : Type 0 where
  no_file opened closed : LogFile

-- The console and the file as the messages that they received.
pub record Logger : Type 0 where
  pub level : LogLevel
  pub file_level : LogLevel
  pub log_file : LogFile
  pub file_size : ℕ
  pub max_size : ℕ
  pub max_files : ℕ
  pub enable_console : Bool
  pub console : List Bytes
  pub messages : List Bytes

pub record LoggerOptions : Type 0 where
  pub option_level : Bytes
  pub option_file_level : Bytes
  pub log_dir : Bytes
  pub option_max_size : ℤ
  pub option_max_files : ℤ
  pub disable_console : Bool

abbrev positive_or : ℤ → ℕ → ℕ
positive_or (pos zero) d = d
positive_or (pos (suc n)) d = suc n
positive_or (negsuc n) d = d

-- `NewLogger`. `found` is the size of the log file, or none if it cannot be made or opened.
unfoldable pub new_logger : (Bytes → Bytes) → LoggerOptions → Option ℕ → Logger
unfolding parse_log_level
new_logger to_lower o found =
    let level = parse_log_level to_lower o.option_level in
    let plain : Logger = record {
      level = level;
      file_level =
          if bytes_equal o.option_file_level []
          then level
          else parse_log_level to_lower o.option_file_level;
      log_file = no_file;
      file_size = 0;
      max_size = positive_or o.option_max_size 10485760;
      max_files = positive_or o.option_max_files 5;
      enable_console = not o.disable_console;
      console = [];
      messages = [];
    } in
    if bytes_equal o.log_dir [] then plain else elim found [
      | none ↦ plain
      | some size ↦ record plain {
        log_file = opened;
        file_size = size;
        messages = codes "Log file opened, logging started at log level" ∷ [];
      }
    ]

abbrev pub has_file : Logger → Bool
has_file l = elim l.log_file [ no_file ↦ false | opened ↦ true | closed ↦ true ]

-- A closed file takes no message; the error is not looked at.
unfoldable pub write_message : Bytes → Logger → Logger
write_message msg l = record l {
  messages = elim l.log_file [
    | no_file ↦ l.messages
    | opened ↦ l.messages ++ (msg ∷ [])
    | closed ↦ l.messages
  ];
}

-- `rotateLog` without the message that announces it; `renames` and `opens` are the answers of Rename
-- and OpenFile. False is the error. The old messages stand in the renamed file.
unfoldable pub rotate_log : Bool → Bool → Logger → Logger × Bool
rotate_log renames opens l =
    if not (has_file l) || ltb l.file_size l.max_size
    then (l, true)
    else if not renames
    then (record l { log_file = closed }, false)
    else if not opens
    then (record l { log_file = closed }, false)
    else (
      record l {
        log_file = opened;
        file_size = 0;
        messages = codes "New log file created after rotation" ∷ [];
      },
      true,
    )

-- A message with its keys and values; a key without a value is dropped.
unfoldable pub pairs_text : List Bytes → Bytes
pairs_text [] = []
pairs_text (k ∷ []) = []
pairs_text (k ∷ v ∷ keyvals) = codes " " ++ k ++ codes "=" ++ v ++ pairs_text keyvals

unfoldable pub full_message : LogLevel → Bytes → List Bytes → Bytes
unfolding level_to_string pairs_text
full_message level msg [] = codes "[" ++ level_to_string level ++ codes "] " ++ msg
full_message level msg (k ∷ keyvals) =
    codes "["
    ++ level_to_string level
    ++ codes "] "
    ++ msg
    ++ codes " |"
    ++ pairs_text (k ∷ keyvals)

unfoldable pub to_console : LogLevel → Bytes → Logger → Logger
to_console level msg l = record l {
  console =
      if l.enable_console && leb (rank l.level) (rank level)
      then l.console ++ (msg ∷ [])
      else l.console;
}

-- `log`, on the text of the message.
unfoldable pub log : Bool → Bool → LogLevel → Bytes → Logger → Logger
unfolding write_message rotate_log to_console
log renames opens level msg l =
    let l' = to_console level msg l in
    if has_file l && leb (rank l.file_level) (rank level)
    then (rotate_log renames opens
        (record (write_message msg l') { file_size = l.file_size + length msg + 1 })).0
    else l'

abbrev is_logged : Logger → LogLevel → Bool
is_logged l level = has_file l && leb (rank l.file_level) (rank level)

logged_both :
    (l : Logger) (level : LogLevel)
    → is_logged l level ≡ true
    → (has_file l ≡ true) × (leb (rank l.file_level) (rank level) ≡ true)
logged_both l level logged = ground (arith, logged)

-- A message that goes to the file leaves the file below its bound, if files can be renamed and opened and
-- the bound is not 0.
pub log-file_size :
    (l : Logger) (level : LogLevel) (msg : Bytes)
    → 0 < l.max_size
    → is_logged l level ≡ true
    → (log true true level msg l).file_size < l.max_size
unfolding log rotate_log write_message to_console
log-file_size l level msg positive logged =
    elim (Bool-cases (ltb (l.file_size + length msg + 1) l.max_size)) [
      | inl room ↦
          let both = logged_both l level logged in
          simp (both.0, both.1, room) (ltb→lt (l.file_size + length msg + 1) l.max_size room)
      | inr full ↦ let both = logged_both l level logged in simp (both.0, both.1, full) positive
    ]

-- Messages one after the other, while no file can be renamed.
abbrev pub log_all : Bool → List (LogLevel × Bytes) → Logger → Logger
log_all opens [] l = l
log_all opens ((level, msg) ∷ later) l = log_all opens later (log false opens level msg l)

rotate_log-closed :
    (x : Logger) (opens : Bool)
    → x.log_file ≡ closed
    → ((rotate_log false opens x).0.log_file ≡ closed)
      × ((rotate_log false opens x).0.messages ≡ x.messages)
unfolding rotate_log
rotate_log-closed x opens shut =
    elim (Bool-cases (not (has_file x) || ltb x.file_size x.max_size)) [
      | inl stays ↦ simp (stays) (shut, refl)
      | inr rotates ↦ simp (rotates) (refl, refl)
    ]

messages-write_message :
    (x : Logger) (msg : Bytes) → x.log_file ≡ closed → (write_message msg x).messages ≡ x.messages
unfolding write_message
messages-write_message x msg shut = rw shut refl

log-closed :
    (l : Logger) (level : LogLevel) (msg : Bytes) (opens : Bool)
    → l.log_file ≡ closed
    → ((log false opens level msg l).log_file ≡ closed)
      × ((log false opens level msg l).messages ≡ l.messages)
unfolding log write_message to_console
log-closed l level msg opens shut =
    elim (Bool-cases (has_file l && leb (rank l.file_level) (rank level))) [
      | inl passes ↦
          let x = record (write_message msg (to_console level msg l)) {
            file_size = l.file_size + length msg + 1;
          } in
          let r = rotate_log-closed x opens shut in
          simp (passes) (r.0, r.1 ∙ messages-write_message (to_console level msg l) msg shut)
      | inr stops ↦ simp (stops) (shut, refl)
    ]

log_all-closed :
    (later : List (LogLevel × Bytes)) (l : Logger) (opens : Bool)
    → l.log_file ≡ closed
    → (log_all opens later l).messages ≡ l.messages
log_all-closed [] l opens shut = refl
log_all-closed ((level, msg) ∷ later) l opens shut =
    let r = log-closed l level msg opens shut in
    log_all-closed later (log false opens level msg l) opens r.0 ∙ r.1

closes :
    (l : Logger) (level : LogLevel) (msg : Bytes) (opens : Bool)
    → is_logged l level ≡ true
    → l.max_size ≤ l.file_size + length msg + 1
    → (log false opens level msg l).log_file ≡ closed
unfolding log rotate_log write_message to_console
closes l level msg opens logged full =
    let both = logged_both l level logged in
    let full' : ltb (l.file_size + length msg + 1) l.max_size ≡ false = ground (arith, full) in
    simp (both.0, both.1, full') refl

-- When a message fills the file and the rename fails, the file takes none of the messages that follow,
-- as long as renames fail.
pub log_all-log :
    (l : Logger) (level : LogLevel) (msg : Bytes) (opens : Bool) (later : List (LogLevel × Bytes))
    → is_logged l level ≡ true
    → l.max_size ≤ l.file_size + length msg + 1
    → (log_all opens later (log false opens level msg l)).messages
      ≡ (log false opens level msg l).messages
log_all-log l level msg opens later logged full =
    log_all-closed later (log false opens level msg l) opens (closes l level msg opens logged full)
