-- ===== src/Optimizer/Coherence.antt =====
-- The code patches of src/jit/JITOptimizer.cpp: page protection and the instruction cache.
use hyperion_euntime_environ.Base.{
  ℕ, ◌+◌, ◌≡◌, refl, sym, subst, Bool, true, ◌&&◌, Option, none, some, List, [], ◌∷◌, leb, ltb,
  ◌==◌, inl, inr, if◌then◌else◌, arith, Option-cases, Bool-cases,
}
use hyperion_euntime_environ.Optimizer.{
  BranchStats, JitOptimizer, Effect, write_protect, store, invalidate, find, monitor_branch,
  record_counted, count_outcome, threshold, optimize_hot_path, patch_instruction, arm64_nop,
}
use hyperion_euntime_environ.Optimizer.History.{Event, monitor, outcome, step, run}
use hyperion_euntime_environ.Optimizer.Steps.{outcome-unwatched, outcome-optimized, outcome-counted}

-- The code pages: whether they are protected, and the addresses written since they were last
-- invalidated.
pub record Pages : Type 0 where
  pub protected : Bool
  pub stale : List ℕ

abbrev outside : ℕ → ℕ → List ℕ → List ℕ
outside start len [] = []
outside start len (a ∷ rest) =
    let kept = outside start len rest in
    if leb start a && ltb a (start + len) then kept else a ∷ kept

-- A store to protected pages kills the process.
abbrev perform : Effect → Pages → Option Pages
perform (write_protect on) p = some (record p { protected = on })
perform (store a opcode) p = if p.protected then none else some (record p { stale = a ∷ p.stale })
perform (invalidate start len) p = some (record p { stale = outside start len p.stale })

-- Effects listed with the newest first.
abbrev pub replay : List Effect → Option Pages
replay [] = some (record { protected = true; stale = [] })
replay (e ∷ older) = elim (replay older) [ none ↦ none | some p ↦ perform e p ]

abbrev settled : Pages
settled = record { protected = true; stale = [] }

patch-replay :
    (o : JitOptimizer) (a opcode : ℕ)
    → replay o.effects ≡ some settled
    → replay (patch_instruction o a opcode).effects ≡ some settled
unfolding patch_instruction
patch-replay o a opcode e = rw (e, patch_instruction) (ground arith)

record_counted-replay :
    (o : JitOptimizer) (a : ℕ) (st : BranchStats)
    → replay o.effects ≡ some settled
    → replay (record_counted o a st).effects ≡ some settled
unfolding record_counted optimize_hot_path
record_counted-replay o a st e =
    elim (Bool-cases (ltb threshold st.not_taken_count && (st.taken_count == 0))) [
      | inl hot ↦ rw (hot, record_counted) (patch-replay o a arm64_nop e)
      | inr warm ↦ rw (warm, record_counted) e
    ]

step-replay :
    (e : Event) (o : JitOptimizer)
    → replay o.effects ≡ some settled
    → replay (step e o).effects ≡ some settled
unfolding monitor_branch
step-replay (monitor a) o h = elim (Option-cases (find o.watched_branches a)) [
  | inl e ↦ rw (e, monitor_branch) h
  | inr (st, e) ↦ rw (e, monitor_branch) h
]
step-replay (outcome a taken) o h = elim (Option-cases (find o.watched_branches a)) [
  | inl e ↦ keeps (sym (outcome-unwatched o a taken e)) h
  | inr (st, e) ↦ elim (Bool-cases st.is_optimized) [
    | inl opt ↦ keeps (sym (outcome-optimized o a taken st e opt)) h
    | inr unopt ↦
        keeps (sym (outcome-counted o a taken st e unopt))
          (record_counted-replay o a (count_outcome st taken) h)
  ]
]
  where
    keeps :
        {p q : JitOptimizer}
        → p ≡ q
        → replay p.effects ≡ some settled
        → replay q.effects ≡ some settled
    keeps {p} {q} e = subst (λ (r : JitOptimizer). replay r.effects ≡ some settled) e

-- Whatever the calls are, replaying the effects never stores to a protected page, and between two
-- calls the code pages are protected and every address that was written has been invalidated since.
pub replay-run :
    (evs : List Event) → replay (run evs).effects ≡ some (record { protected = true; stale = [] })
replay-run [] = refl
replay-run (e ∷ older) = step-replay e (run older) (replay-run older)
