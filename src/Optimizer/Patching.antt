-- ===== src/Optimizer/Patching.antt =====
-- When src/jit/JITOptimizer.cpp patches a branch, by the outcomes that were recorded of it.
use hyperion_euntime_environ.Base.{
  ℕ, ◌+◌, ◌^◌, ◌<◌, ◌≤◌, ◌≡◌, refl, sym, subst, ◌∙◌, ◌⊎◌, inl, inr, Bool, true, false, ◌&&◌, none,
  some, List, [], ◌∷◌, ltb, ◌==◌, ==_iff, if◌then◌else◌, length, arith, Bool-cases,
}
use hyperion_euntime_environ.Optimizer.{
  BranchStats, JitOptimizer, find, monitor_branch, threshold, count_outcome, record_counted,
  record_branch_outcome,
}
use hyperion_euntime_environ.Optimizer.History.{
  Event, monitor, outcome, run, watches, outcomes, takens, WentCold, patches,
}
use hyperion_euntime_environ.Optimizer.Steps.{
  find-update_self, Same, outcome-unwatched, outcome-optimized, outcome-counted, record-Same,
  monitor-Same,
}

-- What is known of a watched branch: still counted, with the counters right, or patched.
record Counting (o : JitOptimizer) (a : ℕ) (h : List Bool) : Type 0 where
  stats : BranchStats
  found : find o.watched_branches a ≡ some stats
  unoptimized : stats.is_optimized ≡ false
  counts_taken : stats.taken_count ≡ takens h
  counts_all : stats.taken_count + stats.not_taken_count ≡ length h
  not_cold : ¬ WentCold h
  unpatched : patches o.effects a ≡ 0

record Patched (o : JitOptimizer) (a : ℕ) (h : List Bool) : Type 0 where
  stats : BranchStats
  found : find o.watched_branches a ≡ some stats
  optimized : stats.is_optimized ≡ true
  cold : WentCold h
  once : patches o.effects a ≡ 1

record Unwatched (o : JitOptimizer) (a : ℕ) (h : List Bool) : Type 0 where
  missing : find o.watched_branches a ≡ none
  no_outcomes : h ≡ []
  untouched : patches o.effects a ≡ 0

abbrev Tracks : JitOptimizer → ℕ → Bool → List Bool → Type 0
Tracks o a true h = Counting o a h ⊎ Patched o a h
Tracks o a false h = Unwatched o a h

Tracks-Same :
    (o p : JitOptimizer) (a : ℕ) (w : Bool) (h : List Bool)
    → Same o p a
    → Tracks o a w h
    → Tracks p a w h
Tracks-Same o p a false h (f, n) u = record {
  missing = f ∙ u.missing;
  no_outcomes = u.no_outcomes;
  untouched = n ∙ u.untouched;
}
Tracks-Same o p a true h (f, n) (inl c) = inl (record {
  stats = c.stats;
  found = f ∙ c.found;
  unoptimized = c.unoptimized;
  counts_taken = c.counts_taken;
  counts_all = c.counts_all;
  not_cold = c.not_cold;
  unpatched = n ∙ c.unpatched;
})
Tracks-Same o p a true h (f, n) (inr c) = inr (record {
  stats = c.stats;
  found = f ∙ c.found;
  optimized = c.optimized;
  cold = c.cold;
  once = n ∙ c.once;
})

-- The counters put back: the branch is patched now or is counted on.
record_counted-Tracks :
    (o : JitOptimizer) (a : ℕ) (old st : BranchStats) (b : Bool) (h : List Bool)
    → find o.watched_branches a ≡ some old
    → st.is_optimized ≡ false
    → st.taken_count ≡ takens (b ∷ h)
    → st.taken_count + st.not_taken_count ≡ length (b ∷ h)
    → ¬ WentCold h
    → patches o.effects a ≡ 0
    → Tracks (record_counted o a st) a true (b ∷ h)
unfolding record_counted
record_counted-Tracks o a old st b h found unopt ct ca not_cold unpatched =
    elim (Bool-cases (ltb threshold st.not_taken_count && (st.taken_count == 0))) [
      | inl hot ↦ inr (
          rw (hot, record_counted)
            (record {
              stats = record st { is_optimized = true };
              found = find-update_self o.watched_branches a old _ found;
              optimized = refl;
              cold = inl (ground arith, ground arith);
              once = ground arith;
            }))
      | inr warm ↦ inl (
          rw (warm, record_counted)
            (record {
              stats = st;
              found = find-update_self o.watched_branches a old st found;
              unoptimized = unopt;
              counts_taken = ct;
              counts_all = ca;
              not_cold = λ cold. elim cold [
                | inl (none_taken, long) ↦ ground arith
                | inr earlier ↦ not_cold earlier
              ];
              unpatched = unpatched;
            }))
    ]

-- One more outcome.
counted-Tracks :
    (o : JitOptimizer) (a : ℕ) (taken : Bool) (h : List Bool) (c : Counting o a h)
    → length h + 1 < 2 ^ 64
    → Tracks (record_counted o a (count_outcome c.stats taken)) a true (taken ∷ h)
counted-Tracks o a true h c bound =
    record_counted-Tracks o a c.stats (count_outcome c.stats true) true h c.found c.unoptimized
      (ground (arith, c.counts_taken, c.counts_all)) (ground (arith, c.counts_taken, c.counts_all))
      c.not_cold c.unpatched
counted-Tracks o a false h c bound =
    record_counted-Tracks o a c.stats (count_outcome c.stats false) false h c.found c.unoptimized
      c.counts_taken (ground (arith, c.counts_taken, c.counts_all)) c.not_cold c.unpatched

outcome-Tracks :
    (o : JitOptimizer) (a : ℕ) (taken : Bool) (h : List Bool)
    → length h + 1 < 2 ^ 64
    → Tracks o a true h
    → Tracks (record_branch_outcome o a taken) a true (taken ∷ h)
outcome-Tracks o a taken h bound (inl c) =
    subst (λ p. Tracks p a true (taken ∷ h))
      (sym (outcome-counted o a taken c.stats c.found c.unoptimized))
      (counted-Tracks o a taken h c bound)
outcome-Tracks o a taken h bound (inr p) =
    subst (λ p. Tracks p a true (taken ∷ h))
      (sym (outcome-optimized o a taken p.stats p.found p.optimized))
      (inr (record {
        stats = p.stats;
        found = p.found;
        optimized = p.optimized;
        cold = inr p.cold;
        once = p.once;
      }))

monitor-Tracks :
    (o : JitOptimizer) (a : ℕ) (w : Bool) (h : List Bool)
    → Tracks o a w h
    → Tracks (monitor_branch o a) a true h
unfolding monitor_branch
monitor-Tracks o a false h u =
    rw (u.missing, monitor_branch, u.no_outcomes)
      (inl (record {
        stats = record { taken_count = 0; not_taken_count = 0; is_optimized = false };
        found = ground arith;
        unoptimized = refl;
        counts_taken = refl;
        counts_all = refl;
        not_cold = λ cold. cold;
        unpatched = u.untouched;
      }))
monitor-Tracks o a true h (inl c) = rw (c.found, monitor_branch) (inl c)
monitor-Tracks o a true h (inr p) = rw (p.found, monitor_branch) (inr p)

length-outcomes : (evs : List Event) (a : ℕ) → length (outcomes evs a) ≤ length evs
length-outcomes [] a = ground arith
length-outcomes (monitor b ∷ older) a = ground (arith, length-outcomes older a)
length-outcomes (outcome b taken ∷ older) a = ground (arith, length-outcomes older a)

monitor_step :
    (o : JitOptimizer) (a b : ℕ) (w same : Bool) (h : List Bool)
    → (b == a) ≡ same
    → Tracks o a w h
    → Tracks (monitor_branch o b) a (if same then true else w) h
monitor_step o a b w true h e k =
    subst (λ (c : ℕ). Tracks (monitor_branch o c) a true h) (sym ((==_iff b a).0 e))
      (monitor-Tracks o a w h k)
monitor_step o a b w false h e k = Tracks-Same o (monitor_branch o b) a w h (monitor-Same o a b e) k

outcome_step :
    (o : JitOptimizer) (a b : ℕ) (taken w same : Bool) (h : List Bool)
    → length h + 1 < 2 ^ 64
    → (b == a) ≡ same
    → Tracks o a w h
    → Tracks (record_branch_outcome o b taken) a w (if same && w then taken ∷ h else h)
outcome_step o a b taken true true h bound e k =
    subst (λ (c : ℕ). Tracks (record_branch_outcome o c taken) a true (taken ∷ h))
      (sym ((==_iff b a).0 e)) (outcome-Tracks o a taken h bound k)
outcome_step o a b taken false true h bound e k =
    subst (λ (c : ℕ). Tracks (record_branch_outcome o c taken) a false h) (sym ((==_iff b a).0 e))
      (subst (λ p. Tracks p a false h) (sym (outcome-unwatched o a taken k.missing)) k)
outcome_step o a b taken w false h bound e k =
    Tracks-Same o (record_branch_outcome o b taken) a w h (record-Same o a b taken e) k

run-Tracks :
    (evs : List Event) (a : ℕ)
    → length evs < 2 ^ 64
    → Tracks (run evs) a (watches evs a) (outcomes evs a)
run-Tracks [] a bound = record { missing = refl; no_outcomes = refl; untouched = refl }
run-Tracks (monitor b ∷ older) a bound =
    monitor_step (run older) a b (watches older a) (b == a) (outcomes older a) refl
      (run-Tracks older a (omega arith))
run-Tracks (outcome b taken ∷ older) a bound =
    outcome_step (run older) a b taken (watches older a) (b == a) (outcomes older a)
      (omega (arith, length-outcomes older a)) refl (run-Tracks older a (omega arith))

tracked-patches :
    (o : JitOptimizer) (a : ℕ) (w : Bool) (h : List Bool)
    → Tracks o a w h
    → ((patches o.effects a ≡ 1) × WentCold h) ⊎ ((patches o.effects a ≡ 0) × ¬ WentCold h)
tracked-patches o a false h u =
    inr (u.untouched, subst (λ l. ¬ WentCold l) (sym u.no_outcomes) (λ c. c))
tracked-patches o a true h (inl c) = inr (c.unpatched, c.not_cold)
tracked-patches o a true h (inr p) = inl (p.once, p.cold)

-- After any history of fewer than 2 ^ 64 calls, a branch that at some moment had more than 10000
-- outcomes recorded, all of them not taken, was overwritten exactly once, and any other branch
-- never.
pub patched_once_cold :
    (evs : List Event) (a : ℕ)
    → length evs < 2 ^ 64
    → ((patches (run evs).effects a ≡ 1) × WentCold (outcomes evs a))
      ⊎ ((patches (run evs).effects a ≡ 0) × ¬ WentCold (outcomes evs a))
patched_once_cold evs a bound =
    tracked-patches (run evs) a (watches evs a) (outcomes evs a) (run-Tracks evs a bound)
