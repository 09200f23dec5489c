-- ===== src/Examples/Log.antt =====
-- A call of the log.
use concurrent_server.Base.{some, [], ◌∷◌, ◌++◌}
use concurrent_server.Text.{Bytes, codes}
use concurrent_server.ErrorLog.{Clock, Logs}

abbrev noon_text : Bytes
noon_text = codes "Mon Jan 29 12:00:00 2018" ++ 10 ∷ []

abbrev noon : Clock
noon = record { ctime_r = some noon_text; mysql_error = []; strerror_r = codes "Success" }

abbrev empty_logs : Logs
empty_logs = record { stdlog = []; stdout = []; stderr = []; destroyed = [] }
