-- ===== src/ErrorLog.antt =====
-- error_logs/errno_logs.h and error_logs/errno_logs.c: the log file and the messages on the terminal.
-- The log file, stdout and stderr are lists of what was written, the last one last. The mutex is not
-- part of the model: the line is written between its lock and unlock.
pub mod Lines
use concurrent_server.Base.{
  ℕ, suc, ◌+◌, Bool, true, false, Option, none, some, List, [], ◌∷◌, ◌++◌, length, take, ◌==◌,
  if◌then◌else◌, ltb, Outcome, ok, fault, ◌-◌,
}
use concurrent_server.Text.{Bytes, codes, snprintf}

abbrev pub time_buz : ℕ
time_buz = 40

abbrev pub buff_def_str : ℕ
buff_def_str = 150

pub data ErrorType : Type 0 where
  mysql_errors std_errors : ErrorType

pub data DoExit : Type 0 where
  do_exit dont_exit : DoExit

pub data LogsLevel : Type 0 where
  logs_warning logs_info logs_fatal_errors : LogsLevel

pub data WriteOps : Type 0 where
  write_stdder write_stdout write_both_stdout_stderr no_write : WriteOps

pub record Logs : Type 0 where
  pub stdlog : List Bytes
  pub stdout : List Bytes
  pub stderr : List Bytes
  -- the objects that were handed to their destructors
  pub destroyed : List ℕ

-- What becomes of the caller. With DO_EXIT the process exits; or, in a thread, `pthread_cancel` asks for
-- the cancellation, and the caller goes on until a point where that takes effect.
pub data Ending : Type 0 where
  goes_on exits cancel_pending : Ending

-- What the C library says at the time: `ctime_r`, with its newline, and the texts of `mysql_error` and
-- of `strerror_r`.
pub record Clock : Type 0 where
  pub ctime_r : Option Bytes
  pub mysql_error : Bytes
  pub strerror_r : Bytes

-- All but the last byte.
abbrev pub chop : Bytes → Bytes
chop s = take (length s - 1) s

unfoldable pub get_ascii_time : Option Bytes → Bytes
get_ascii_time (some t) = chop t
get_ascii_time none = codes "Mon Jan 29 00:00:00 2018"

abbrev pub level_name : LogsLevel → Bytes
level_name logs_warning = codes "WARNING"
level_name logs_info = codes "INFO"
level_name logs_fatal_errors = codes "FATAL"

-- "[%s] [%s] [%s] %s ('%s')\n"
abbrev pub format : Bytes → Bytes → Bytes → Bytes → Bytes → Bytes
format time level who errstr why =
    codes "["
    ++ (time
        ++ (codes "] ["
            ++ (level
                ++ (codes "] ["
                    ++ (who
                        ++ (codes "] "
                            ++ (errstr ++ (codes " ('" ++ (why ++ (codes "')" ++ 10 ∷ []))))))))))

abbrev pub default_str : Clock → ErrorType → Bytes
default_str c mysql_errors = snprintf buff_def_str c.mysql_error
default_str c std_errors = snprintf buff_def_str c.strerror_r

abbrev pub thread_name : Bool → Bytes
thread_name true = codes "Threads"
thread_name false = codes "Main Thread"

-- The `switch` on the streams.
unfoldable pub write_line : WriteOps → Bytes → Logs → Logs
write_line write_stdder line l = record l { stderr = l.stderr ++ line ∷ [] }
write_line write_stdout line l = record l { stdout = l.stdout ++ line ∷ [] }
write_line write_both_stdout_stderr line l = record l {
  stderr = l.stderr ++ line ∷ [];
  stdout = l.stdout ++ line ∷ [];
}
write_line no_write line l = l

abbrev pub ending : DoExit → Bool → Ending
ending dont_exit thread = goes_on
ending do_exit false = exits
ending do_exit true = cancel_pending

-- The call `dtor(Object)`.
abbrev pub destroy_object : DoExit → ℕ → Logs → Logs
destroy_object dont_exit object l = l
destroy_object do_exit object l = record l { destroyed = l.destroyed ++ object ∷ [] }

-- `thread` is whether `thread_id` is not NULL. A failed `ctime_r` is not noticed: the unwritten
-- buffer is then read.
unfoldable pub log_errors :
    Clock
    → Bool
    → ErrorType
    → DoExit
    → WriteOps
    → LogsLevel
    → Bytes
    → (object : ℕ) → Logs
    → Outcome (Ending × Logs)
unfolding write_line
log_errors c thread errtype ex op lev errstr object l = elim c.ctime_r [
  | none ↦ fault
  | some t ↦
      let line =
        format (chop t) (level_name lev) (thread_name thread) errstr (default_str c errtype) in
      let l' = write_line op line l in
      ok
        (ending ex thread, destroy_object ex object (record l' { stdlog = l'.stdlog ++ line ∷ [] }))
]

-- `text` is what the format and its arguments print. The buffer for the format has `9 + TIME_BUZ`
-- bytes more than the format has.
unfoldable pub server_msg : Option Bytes → Bytes → Logs → Logs
unfolding get_ascii_time
server_msg ctime text l = record l {
  stderr =
      l.stderr
      ++ (codes "(msg) [" ++ (get_ascii_time ctime ++ (codes "] " ++ text))) ∷ (10 ∷ []) ∷ [];
}

-- The name of the log file, from the variable HOME; it stays empty without one.
abbrev pub log_filename : Option Bytes → Bytes
log_filename none = []
log_filename (some home) = snprintf buff_def_str (home ++ codes "/concurrent_chat_2018-01-29.log")

-- The file opened; `none` is that the process exits. `fopen` is whether the file can be opened.
unfoldable pub init_logs_object : Option Bytes → (Bytes → Bool) → Option Bytes
init_logs_object home fopen =
    let name = log_filename home in
    if length name == 0 then none else (if fopen name then some name else none)
