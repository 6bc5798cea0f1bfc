-- ===== src/Log/Examples.antt =====
-- A logger at level INFO in a build at level DEBUG.
use true_mqtt_cpp.Base.{◌≡◌, refl, List, [], ◌∷◌, Text}
use true_mqtt_cpp.Log.{LogLevel, Macro, Logger, set_logger}
use true_mqtt_cpp.Log.Levels.{wanted, log_all, log_all-wanted}

abbrev text : Text
text = 120 ∷ []

abbrev quiet : Logger
quiet = record { level = LogLevel.none; calls = [] }

-- `setLogger(DEBUG)` is heard of at the level that it sets.
sets_level : (set_logger 3 LogLevel.debug text text quiet).calls ≡ (LogLevel.debug, text) ∷ []
unfolding set_logger
sets_level = refl

abbrev messages : List (Macro × Text)
messages = (Macro.log_error, text) ∷ (Macro.log_trace, text) ∷ (Macro.log_info, text) ∷ []

log_all-wanted_example :
    log_all 3 messages (record quiet { level = LogLevel.info })
    ≡ record quiet { level = LogLevel.info; calls = wanted 3 LogLevel.info messages }
log_all-wanted_example = log_all-wanted 3 messages (record quiet { level = LogLevel.info })
