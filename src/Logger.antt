-- ===== src/Logger.antt =====
-- Logger of HTTP SERVER/HTTP Server/include/logger.hpp and src/logger.cpp. spdlog is a parameter: which
-- files it opens, how it reads a level and prints a number; what it holds is a Spdlog.
pub mod Lines
mod Tests
use http_storm.Common.{
  is_empty, ℕ, ◌*◌, Bool, true, false, ◌&&◌, not, Bytes, codes, equal, List, [], ◌∷◌, ◌++◌,
  if◌then◌else◌, Option, none, some, to_string, leb,
}
use http_storm.Middleware.{AccessEntry}

-- A pattern that is not set is spdlog's own.
pub data Sink : Type 0 where
  stdout_color_sink : Option Bytes → Sink
  -- the file, its greatest size, and how many files are kept
  rotating_file_sink : Bytes → ℕ → ℕ → Option Bytes → Sink

pub record SpdLogger : Type 0 where
  pub name : Bytes
  pub sinks : List Sink
  -- spdlog::level, from trace = 0 to off
  pub level : ℕ
  pub flush_level : Option ℕ

pub record Spdlog : Type 0 where
  pub level_from_str : Bytes → ℕ
  -- whether a sink can be made on a file; otherwise spdlog throws
  pub opens : Bytes → Bool
  -- `{:.2f}` of the milliseconds that a number of nanoseconds is
  pub print_ms : ℕ → Bytes

-- The members, and the names that spdlog has in its registry.
pub record Logger : Type 0 where
  pub logger : Option SpdLogger
  pub access_logger : Option SpdLogger
  pub registered : List Bytes

abbrev pub new_logger : Logger
new_logger = record { logger = none; access_logger = none; registered = [] }

abbrev pub level_info : ℕ
level_info = 2

abbrev pub level_warn : ℕ
level_warn = 3

abbrev pub stdout_sink : Sink
stdout_sink = stdout_color_sink (some (codes "[%Y-%m-%d %H:%M:%S.%e] [%^%l%$] [%t] %v"))

abbrev pub file_sink : Bytes → Sink
file_sink log_file =
    rotating_file_sink log_file (50 * 1024 * 1024) 5
      (some (codes "[%Y-%m-%d %H:%M:%S.%e] [%l] [%t] %v"))

abbrev pub access_stdout : Sink
access_stdout = stdout_color_sink (some (codes "%v"))

abbrev pub access_name : Bytes → Bytes
access_name log_file = log_file ++ codes ".access"

abbrev pub access_file_sink : Bytes → Sink
access_file_sink log_file = rotating_file_sink (access_name log_file) (100 * 1024 * 1024) 10 none

abbrev pub is_registered : Bytes → List Bytes → Bool
is_registered name [] = false
is_registered name (n ∷ ns) = if equal name n then true else is_registered name ns

-- spdlog::register_logger; it throws on a name that is there
abbrev pub register_logger : Bytes → Logger → Option Logger
register_logger name l =
    if is_registered name l.registered
    then none
    else some (record l { registered = name ∷ l.registered })

-- `if (!log_file.empty())` around the making of a sink on a file, which can throw
abbrev pub with_file : {A : Type 0} → Spdlog → Bytes → Bytes → Option A → Option A
with_file spdlog log_file name made =
    if is_empty log_file then made else if spdlog.opens name then made else none

-- logger_, from the sinks that `init` makes first
abbrev pub main_logger : Spdlog → Bytes → Bytes → SpdLogger
main_logger spdlog level log_file = record {
  name = codes "hphttp";
  sinks = if is_empty log_file then stdout_sink ∷ [] else stdout_sink ∷ file_sink log_file ∷ [];
  level = spdlog.level_from_str level;
  flush_level = some level_warn;
}

abbrev pub access_of : Bytes → SpdLogger
access_of log_file = record {
  name = codes "access";
  sinks =
      if is_empty log_file
      then access_stdout ∷ []
      else access_stdout ∷ access_file_sink log_file ∷ [];
  level = level_info;
  flush_level = none;
}

-- the second half of `init`
abbrev pub init_access : Spdlog → Bytes → Logger → Option Logger
init_access spdlog log_file l =
    with_file spdlog log_file (access_name log_file)
      (register_logger (codes "access") (record l { access_logger = some (access_of log_file) }))

abbrev pub init_main : Spdlog → Bytes → Bytes → Logger → Option Logger
init_main spdlog level log_file l = with_file spdlog log_file log_file (
    register_logger (codes "hphttp")
      (record l { logger = some (main_logger spdlog level log_file) }))

-- `init`; none is an exception.
unfoldable pub init : Spdlog → Bytes → Bytes → Logger → Option Logger
init spdlog level log_file l = elim (init_main spdlog level log_file l) [
  | none ↦ none
  | some l' ↦ init_access spdlog log_file l'
]

-- What is sent to a sink.
abbrev pub SinkLine : Type 0
SinkLine = Sink × Bytes

abbrev pub to_sinks : List Sink → Bytes → List SinkLine
to_sinks [] text = []
to_sinks (s ∷ ss) text = (s, text) ∷ to_sinks ss text

-- a call of a spdlog logger at a level
abbrev pub log_at : SpdLogger → ℕ → Bytes → List SinkLine
log_at l level text = if leb l.level level then to_sinks l.sinks text else []

-- `logger_->info(...)` and the like; none is a call on a null pointer
abbrev pub log : ℕ → Bytes → Logger → Option (List SinkLine)
log level text l = elim l.logger [ none ↦ none | some spd ↦ some (log_at spd level text) ]

-- "{} {} {} {} {}B {:.2f}ms"
abbrev pub access_line : Spdlog → AccessEntry → Bytes
access_line spdlog entry =
    entry.remote_addr
    ++ b' ' ∷ entry.method
    ++ b' ' ∷ entry.path
    ++ b' ' ∷ to_string entry.status_code
    ++ b' ' ∷ to_string entry.response_size
    ++ b'B' ∷ b' ' ∷ spdlog.print_ms entry.latency
    ++ b'm' ∷ b's' ∷ []

unfoldable pub log_access : Spdlog → AccessEntry → Logger → List SinkLine
log_access spdlog entry l = elim l.access_logger [
  | none ↦ []
  | some spd ↦ log_at spd level_info (access_line spdlog entry)
]
