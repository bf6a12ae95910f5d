-- ===== src/Optimizer/History.antt =====
-- The histories of calls on a `JITOptimizer`, and what they say of one branch.
use hyperion_euntime_environ.Base.{
  ℕ, suc, ◌<◌, ◌≡◌, ◌⊎◌, Bool, true, false, ◌&&◌, List, [], ◌∷◌, ◌==◌, if◌then◌else◌, length,
}
use hyperion_euntime_environ.Optimizer.{
  JitOptimizer, Effect, write_protect, store, invalidate, created, monitor_branch, threshold,
  record_branch_outcome,
}

-- The calls of the public operations. A history lists them with the newest first.
pub data Event : Type 0 where
  monitor : ℕ → Event
  outcome : ℕ → Bool → Event

abbrev pub step : Event → JitOptimizer → JitOptimizer
step (monitor addr) o = monitor_branch o addr
step (outcome addr taken) o = record_branch_outcome o addr taken

abbrev pub run : List Event → JitOptimizer
run [] = created
run (e ∷ older) = step e (run older)

-- Whether a history watches a branch, and what it records of it: the outcomes since the branch is
-- watched, the newest first.
abbrev pub watches : List Event → ℕ → Bool
watches [] a = false
watches (monitor b ∷ older) a = let before = watches older a in if b == a then true else before
watches (outcome b taken ∷ older) a = watches older a

abbrev pub outcomes : List Event → ℕ → List Bool
outcomes [] a = []
outcomes (monitor b ∷ older) a = outcomes older a
outcomes (outcome b taken ∷ older) a =
    let before = outcomes older a in if (b == a) && watches older a then taken ∷ before else before

abbrev pub takens : List Bool → ℕ
takens [] = 0
takens (true ∷ h) = suc (takens h)
takens (false ∷ h) = takens h

-- At some moment more than 10000 outcomes had been recorded, and all of them were not taken.
abbrev pub WentCold : List Bool → Type 0
WentCold [] = ⊥
WentCold (b ∷ h) = (takens (b ∷ h) ≡ 0 × (threshold < length (b ∷ h))) ⊎ WentCold h

-- How often a branch was overwritten.
abbrev pub patches : List Effect → ℕ → ℕ
patches [] a = 0
patches (write_protect on ∷ older) a = patches older a
patches (store b opcode ∷ older) a =
    let earlier = patches older a in if b == a then suc earlier else earlier
patches (invalidate start len ∷ older) a = patches older a
