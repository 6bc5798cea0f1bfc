-- ===== src/Log.antt =====
-- src/Log.h, and `setLogger` of src/Client.cpp: which messages get to the logger of the user. The logger
-- is the list of the calls that are made of it. The build sets MIN_LOGGER_LEVEL.
pub mod Levels
mod Examples
use true_mqtt_cpp.Base.{ℕ, Bool, true, false, ◌&&◌, List, [], ◌∷◌, ◌++◌, Text, leb, if◌then◌else◌}

-- `Client::LogLevel`
pub data LogLevel : Type 0 where
  none error warning info debug trace : LogLevel

-- The value of the enumerator, by which `>=` compares.
unfoldable pub rank : LogLevel → ℕ
rank LogLevel.none = 0
rank LogLevel.error = 1
rank LogLevel.warning = 2
rank LogLevel.info = 3
rank LogLevel.debug = 4
rank LogLevel.trace = 5

-- The macros, by their level.
pub data Macro : Type 0 where
  log_error log_warning log_info log_debug log_trace : Macro

-- LOGGER_LEVEL_ERROR and the like, which MIN_LOGGER_LEVEL is compared with.
unfoldable pub logger_level : Macro → ℕ
logger_level Macro.log_error = 0
logger_level Macro.log_warning = 1
logger_level Macro.log_info = 2
logger_level Macro.log_debug = 3
logger_level Macro.log_trace = 4

-- The level that the expansion of the macro tests for and passes on.
unfoldable pub level_of : Macro → LogLevel
level_of Macro.log_error = LogLevel.error
level_of Macro.log_warning = LogLevel.warning
level_of Macro.log_info = LogLevel.info
level_of Macro.log_debug = LogLevel.debug
level_of Macro.log_trace = LogLevel.trace

-- `m_log_level`, and the calls of `m_logger`.
pub record Logger : Type 0 where
  pub level : LogLevel
  pub calls : List (LogLevel × Text)

abbrev pub passed_on : LogLevel → Text → Logger → Logger
passed_on level x logger = record logger { calls = logger.calls ++ ((level, x) ∷ []) }

-- The expansion of a macro that is not empty.
unfoldable pub expansion : Macro → Text → Logger → Logger
unfolding rank level_of
expansion m x logger =
    if leb (rank (level_of m)) (rank logger.level) then passed_on (level_of m) x logger else logger

-- A macro, in a build with this MIN_LOGGER_LEVEL.
unfoldable pub log : ℕ → Macro → Text → Logger → Logger
unfolding logger_level expansion
log min_logger_level m x logger =
    if leb (logger_level m) min_logger_level then expansion m x logger else logger

-- `setLogger`, with its own two messages.
unfoldable pub set_logger : ℕ → LogLevel → Text → Text → Logger → Logger
unfolding log
set_logger min_logger_level level before after logger =
    log min_logger_level Macro.log_debug after
      (record (log min_logger_level Macro.log_trace before logger) { level = level })
