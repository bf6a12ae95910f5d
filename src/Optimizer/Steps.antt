-- ===== src/Optimizer/Steps.antt =====
-- What one call does to the branch it names and to the others.
use hyperion_euntime_environ.Base.{
  ℕ, ◌≡◌, refl, sym, ap, subst, ◌∙◌, inl, inr, Bool, true, false, ◌&&◌, none, some, List, [], ◌∷◌,
  ltb, ◌==◌, if◌then◌else◌, arith, Option-cases, Bool-cases,
}
use hyperion_euntime_environ.Optimizer.{
  BranchStats, JitOptimizer, find, update, monitor_branch, threshold, count_outcome, record_counted,
  record_branch_outcome,
}
use hyperion_euntime_environ.Optimizer.History.{patches}

pub find-update_self :
    (w : List (ℕ × BranchStats)) (a : ℕ) (old new : BranchStats)
    → find w a ≡ some old
    → find (update w a new) a ≡ some new
find-update_self [] a old new e = ground (arith, e)
find-update_self ((b, st) ∷ w) a old new e = ground (arith, find-update_self w a old new)

find-update_ne :
    (w : List (ℕ × BranchStats)) (a b : ℕ) (new : BranchStats)
    → (b == a) ≡ false
    → find (update w b new) a ≡ find w a
find-update_ne [] a b new h = refl
find-update_ne ((c, st) ∷ w) a b new h = ground (arith, find-update_ne w a b new)

-- An operation on one branch leaves the others as they were.
abbrev pub Same : JitOptimizer → JitOptimizer → ℕ → Type 0
Same o p a =
    (find p.watched_branches a ≡ find o.watched_branches a)
    × (patches p.effects a ≡ patches o.effects a)

record_counted-Same :
    (o : JitOptimizer) (a b : ℕ) (st : BranchStats)
    → (b == a) ≡ false
    → Same o (record_counted o b st) a
unfolding record_counted
record_counted-Same o a b st h =
    elim (Bool-cases (ltb threshold st.not_taken_count && (st.taken_count == 0))) [
      | inl hot ↦
          rw (hot, record_counted)
            (
              find-update_ne o.watched_branches a b (record st { is_optimized = true }) h,
              ground arith,
            )
      | inr warm ↦ rw (warm, record_counted) (find-update_ne o.watched_branches a b st h, refl)
    ]

-- The three cases of an outcome, and what a counted outcome does.
module _ (o : JitOptimizer) (b : ℕ) (taken : Bool) where
  pub outcome-unwatched : find o.watched_branches b ≡ none → record_branch_outcome o b taken ≡ o
  unfolding record_branch_outcome
  outcome-unwatched e = rw (e, record_branch_outcome) refl

  outcome-if :
      (st : BranchStats)
      → find o.watched_branches b ≡ some st
      → record_branch_outcome o b taken
        ≡ (if st.is_optimized then o else record_counted o b (count_outcome st taken))
  unfolding record_branch_outcome
  outcome-if st e = rw (e, record_branch_outcome) refl

  pub outcome-optimized :
      (st : BranchStats)
      → find o.watched_branches b ≡ some st
      → st.is_optimized ≡ true
      → record_branch_outcome o b taken ≡ o
  outcome-optimized st e opt =
      outcome-if st e
      ∙ ap (λ (c : Bool). if c then o else record_counted o b (count_outcome st taken)) opt

  pub outcome-counted :
      (st : BranchStats)
      → find o.watched_branches b ≡ some st
      → st.is_optimized ≡ false
      → record_branch_outcome o b taken ≡ record_counted o b (count_outcome st taken)
  outcome-counted st e unopt =
      outcome-if st e
      ∙ ap (λ (c : Bool). if c then o else record_counted o b (count_outcome st taken)) unopt

pub record-Same :
    (o : JitOptimizer) (a b : ℕ) (taken : Bool)
    → (b == a) ≡ false
    → Same o (record_branch_outcome o b taken) a
record-Same o a b taken h = elim (Option-cases (find o.watched_branches b)) [
  | inl e ↦ subst (λ p. Same o p a) (sym (outcome-unwatched o b taken e)) (refl, refl)
  | inr (st, e) ↦ elim (Bool-cases st.is_optimized) [
    | inl opt ↦ subst (λ p. Same o p a) (sym (outcome-optimized o b taken st e opt)) (refl, refl)
    | inr unopt ↦
        subst (λ p. Same o p a) (sym (outcome-counted o b taken st e unopt))
          (record_counted-Same o a b (count_outcome st taken) h)
  ]
]

pub monitor-Same : (o : JitOptimizer) (a b : ℕ) → (b == a) ≡ false → Same o (monitor_branch o b) a
unfolding monitor_branch
monitor-Same o a b h = elim (Option-cases (find o.watched_branches b)) [
  | inl e ↦ rw (e, monitor_branch) (ground arith, refl)
  | inr (st, e) ↦ rw (e, monitor_branch) (refl, refl)
]
