-- ===== src/Tests/Trackers.antt =====
-- Samples that the user of a proxy may hold (sample_reference_tracker.cpp), on concrete uses.
use inc_mw_com.Base.{List, [], ◌∷◌, arith}
use inc_mw_com.SampleReferenceTracker.{sample_reference_tracker}
use inc_mw_com.SampleReferenceTracker.Balance.{
  Use, allocates, drops_factory, takes_guard, drops_guard, moves_guard, assigns_guard,
}
use inc_mw_com.SampleReferenceTracker.Conservation.{KeepsBalance, apply_uses, apply_uses-Balanced}

-- Of five samples three are allocated and then more than are left; one guard is taken, moved and
-- assigned over, and a factory is dropped with its guards.
abbrev uses : List Use
uses =
    allocates 3
    ∷ takes_guard 0
    ∷ allocates 4
    ∷ takes_guard 0
    ∷ moves_guard 0
    ∷ assigns_guard 0 2
    ∷ drops_factory 1
    ∷ drops_guard 0
    ∷ []

apply_uses-Balanced_example :
    KeepsBalance 5 (
      apply_uses uses
        (record { tracker = sample_reference_tracker 5; factories = []; guards = [] }))
apply_uses-Balanced_example = apply_uses-Balanced 5 uses (omega arith)
