-- ===== src/Examples/OfOptimizer.antt =====
-- src/jit/JITOptimizer.cpp on short histories.
use hyperion_euntime_environ.Base.{◌≡◌, ◌⊎◌, true, false, some, List, [], ◌∷◌, arith}
use hyperion_euntime_environ.Optimizer.History.{
  Event, monitor, outcome, run, outcomes, WentCold, patches,
}
use hyperion_euntime_environ.Optimizer.Patching.{patched_once_cold}
use hyperion_euntime_environ.Optimizer.Coherence.{replay, replay-run}

-- Two branches, one of them taken once.
abbrev history : List Event
history = outcome 64 true ∷ outcome 128 false ∷ outcome 64 false ∷ monitor 128 ∷ monitor 64 ∷ []

patched_once_cold_example :
    ((patches (run history).effects 64 ≡ 1) × WentCold (outcomes history 64))
    ⊎ ((patches (run history).effects 64 ≡ 0) × ¬ WentCold (outcomes history 64))
patched_once_cold_example = patched_once_cold history 64 (omega arith)

replay-run_example : replay (run history).effects ≡ some (record { protected = true; stale = [] })
replay-run_example = replay-run history
