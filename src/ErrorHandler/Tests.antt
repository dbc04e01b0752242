-- ===== src/ErrorHandler/Tests.antt =====
-- The logger and the error handler at concrete entries.
use simple_snmpd.Base.{◌≡◌, refl, true, false, List, [], ◌∷◌}
use simple_snmpd.Base.Text.{chars}
use simple_snmpd.Config.Decimal.{decimal}
use simple_snmpd.Logger.{
  debug, info, error, writable, broken, Logger, new_logger, initialize, formatted, log,
}
use simple_snmpd.Logger.Entries.{Entry, log_all}
use simple_snmpd.ErrorHandler.{ErrorHandler, new_handler, handle_error, get_summary}

abbrev logger : Logger
logger = record new_logger { initialized = true; log_file = writable }

logger-initialized : initialize info (chars "/var/log/snmpd.log") true new_logger ≡ logger
unfolding initialize
logger-initialized = refl

-- A file that cannot be opened is reported; one that is opened over another breaks the stream.
opened_badly :
    (initialize info (chars "x") false new_logger ≡ record new_logger {
      initialized = true;
      cerr = chars "Warning: Could not open log file: x" ∷ [];
    })
    × ((initialize info (chars "x") true logger).log_file ≡ broken)
unfolding initialize
opened_badly = (refl, refl)

abbrev entries : List Entry
entries =
    record { level = debug; timestamp = chars "12:00"; message = chars "a" }
    ∷ record { level = info; timestamp = chars "12:01"; message = chars "b" }
    ∷ record { level = error; timestamp = chars "12:02"; message = chars "c" }
    ∷ []

entries_logged : log_all entries logger ≡ record logger {
  cout = chars "[12:01] [INFO ] b" ∷ [];
  cerr = chars "[12:02] [ERROR] c" ∷ [];
  file = chars "[12:01] [INFO ] b" ∷ chars "[12:02] [ERROR] c" ∷ [];
}
unfolding log_all log formatted
entries_logged = refl

abbrev handler : ErrorHandler
handler = new_handler logger

first_error : handle_error (chars "no socket") (chars "a.cpp") 12 (chars "12:00") handler ≡ record {
  error_count = 1;
  warning_count = 0;
  logger = log error (chars "12:00") (chars "ERROR [000001] (a.cpp:12) no socket") logger;
}
unfolding handle_error log decimal
first_error = refl

summary :
    get_summary (record handler { error_count = 12 }) ≡ chars "Error Summary: 12 errors, 0 warnings"
unfolding get_summary decimal
summary = refl
