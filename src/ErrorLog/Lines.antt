-- ===== src/ErrorLog/Lines.antt =====
-- What a call of `log_errors` writes.
use concurrent_server.Base.{ℕ, ◌-◌, Bool, List, [], ◌∷◌, ◌++◌, length, take, if◌then◌else◌}
use concurrent_server.Text.{Bytes, codes}
use concurrent_server.Text.Printf.{printf}
use concurrent_server.ErrorLog.{
  ErrorType, mysql_errors, std_errors, DoExit, do_exit, dont_exit, LogsLevel, logs_warning,
  logs_info, logs_fatal_errors, WriteOps, write_stdder, write_stdout, write_both_stdout_stderr,
  no_write, Clock,
}

-- What the `switch` adds to a stream.
abbrev pub on_stderr : WriteOps → Bytes → List Bytes
on_stderr write_stdder line = line ∷ []
on_stderr write_stdout line = []
on_stderr write_both_stdout_stderr line = line ∷ []
on_stderr no_write line = []

abbrev pub on_stdout : WriteOps → Bytes → List Bytes
on_stdout write_stdder line = []
on_stdout write_stdout line = line ∷ []
on_stdout write_both_stdout_stderr line = line ∷ []
on_stdout no_write line = []

-- What the line says of the level, of the caller and of the reason.
abbrev pub level_text : LogsLevel → Bytes
level_text logs_warning = codes "WARNING"
level_text logs_info = codes "INFO"
level_text logs_fatal_errors = codes "FATAL"

abbrev pub caller_text : Bool → Bytes
caller_text thread = if thread then codes "Threads" else codes "Main Thread"

abbrev pub reason : Clock → ErrorType → Bytes
reason c mysql_errors = take 149 c.mysql_error
reason c std_errors = take 149 c.strerror_r

-- The object, where it is destroyed.
abbrev pub on_exit : DoExit → ℕ → List ℕ
on_exit dont_exit object = []
on_exit do_exit object = object ∷ []

-- The line, by the format of the source.
abbrev pub line_text : Clock → Bytes → Bool → ErrorType → LogsLevel → Bytes → Bytes
line_text c time thread errtype lev errstr = printf (codes "[%s] [%s] [%s] %s ('%s')" ++ 10 ∷ []) (
    take (length time - 1) time
    ∷ level_text lev
    ∷ caller_text thread
    ∷ errstr
    ∷ reason c errtype
    ∷ [])
