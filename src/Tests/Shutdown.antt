-- ===== src/Tests/Shutdown.antt =====
-- Two signals, and a close step that fails.
use express_core.Base.{none, some, [], ◌∷◌, ◌≡◌}
use express_core.Shutdown.{
  ShutdownStep, sigterm, uncaught_exception, handle_signals, handle_signals_lem,
}

abbrev http : ShutdownStep
http = record { name = "http"; error = some "busy" }

abbrev redis : ShutdownStep
redis = record { name = "redis"; error = none }

handle_signals_lem_example :
    handle_signals
      (http ∷ redis ∷ [])
      (sigterm ∷ uncaught_exception ∷ [])
      none
      (record { running = none; ran = [] })
    ≡ (some 1, record { running = some 1; ran = "http" ∷ "redis" ∷ [] })
handle_signals_lem_example =
    handle_signals_lem (http ∷ redis ∷ []) sigterm (uncaught_exception ∷ [])
