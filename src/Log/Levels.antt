-- ===== src/Log/Levels.antt =====
-- What the logger is called with.
use true_mqtt_cpp.Base.{
  ℕ, suc, ◌≡◌, refl, Bool, List, [], ◌∷◌, ◌++◌, Text, leb, if◌then◌else◌, arith, ap, ◌∙◌,
  Bool-cases, inl, inr, min,
}
use mathlib.Core.List.{append_assoc, append-nil}
use true_mqtt_cpp.Log.{LogLevel, rank, Macro, logger_level, level_of, Logger, passed_on, log}

-- One scale for the two: the level of a macro against the lower of the levels of the build and of the
-- user.
abbrev pub is_wanted : ℕ → LogLevel → Macro → Bool
is_wanted min_logger_level level m =
    leb (rank (level_of m)) (min (suc min_logger_level) (rank level))

-- The messages of a run of the macros that are wanted, oldest first.
abbrev pub wanted : ℕ → LogLevel → List (Macro × Text) → List (LogLevel × Text)
wanted b level [] = []
wanted b level ((m, x) ∷ ms) =
    let rest = wanted b level ms in if is_wanted b level m then (level_of m, x) ∷ rest else rest

unfoldable pub log_all : ℕ → List (Macro × Text) → Logger → Logger
log_all b [] logger = logger
log_all b ((m, x) ∷ ms) logger = log_all b ms (log b m x logger)

scales : (m : Macro) → rank (level_of m) ≡ suc (logger_level m)
unfolding rank level_of logger_level
scales m = ground arith

log_one :
    (b : ℕ) (m : Macro) (x : Text) (logger : Logger)
    → log b m x logger
      ≡ (if is_wanted b logger.level m then passed_on (level_of m) x logger else logger)
unfolding log
log_one b m x logger = ground (arith, scales m)

-- Of all messages, the logger gets those whose level is at most both the level of the build and that
-- of the user, in order, each with its level; the level of the user stays.
pub log_all-wanted :
    (b : ℕ) (ms : List (Macro × Text)) (logger : Logger)
    → log_all b ms logger ≡ record logger { calls = logger.calls ++ wanted b logger.level ms }
unfolding log_all
log_all-wanted b [] logger = rw (append-nil logger.calls) refl
log_all-wanted b ((m, x) ∷ ms) logger = elim (Bool-cases (is_wanted b logger.level m)) [
  | inl w ↦
      rw (log_one b m x logger, w)
        (log_all-wanted b ms (passed_on (level_of m) x logger)
          ∙ ap (λ (cs : List (LogLevel × Text)). record logger { calls = cs })
              (append_assoc logger.calls ((level_of m, x) ∷ []) (wanted b logger.level ms)))
  | inr w ↦ rw (log_one b m x logger, w) (log_all-wanted b ms logger)
]
