-- ===== src/Optimizer.antt =====
-- include/jit/JITOptimizer.hpp and src/jit/JITOptimizer.cpp: the branches that are watched, and the
-- patch that overwrites a branch never taken.
pub mod History
pub mod Steps
pub mod Patching
pub mod Coherence
use hyperion_euntime_environ.Base.{
  ℕ, ◌+◌, ◌%◌, ◌^◌, Bool, true, false, ◌&&◌, Option, none, some, List, [], ◌∷◌, ltb, ◌==◌,
  if◌then◌else◌,
}

abbrev pub arm64_nop : ℕ
arm64_nop = 0xD503201F

-- `BranchStats`
pub record BranchStats : Type 0 where
  pub taken_count : ℕ
  pub not_taken_count : ℕ
  pub is_optimized : Bool

-- What the optimizer does outside its own memory, in order: the calls of
-- `pthread_jit_write_protect_np` and `sys_icache_invalidate`, and the 32-bit store to code.
pub data Effect : Type 0 where
  write_protect : Bool → Effect
  store : ℕ → ℕ → Effect
  invalidate : ℕ → ℕ → Effect

-- `JITOptimizer`, with the effects up to now, the newest first.
pub record JitOptimizer : Type 0 where
  pub watched_branches : List (ℕ × BranchStats)
  pub effects : List Effect

abbrev pub created : JitOptimizer
created = record { watched_branches = []; effects = [] }

-- `std::unordered_map`, as an association list with one entry for a key.
abbrev pub find : List (ℕ × BranchStats) → ℕ → Option BranchStats
find [] a = none
find ((b, st) ∷ rest) a = let found = find rest a in if b == a then some st else found

abbrev pub update : List (ℕ × BranchStats) → ℕ → BranchStats → List (ℕ × BranchStats)
update [] a new = []
update ((b, st) ∷ rest) a new =
    let updated = update rest a new in if b == a then (b, new) ∷ rest else (b, st) ∷ updated

unfoldable pub monitor_branch : JitOptimizer → ℕ → JitOptimizer
monitor_branch o addr = elim (find o.watched_branches addr) [
  | none ↦ record o {
    watched_branches =
        (addr, record { taken_count = 0; not_taken_count = 0; is_optimized = false })
        ∷ o.watched_branches;
  }
  | some st ↦ o
]

abbrev flush_cache : JitOptimizer → ℕ → ℕ → JitOptimizer
flush_cache o start len = record o { effects = invalidate start len ∷ o.effects }

unfoldable pub patch_instruction : JitOptimizer → ℕ → ℕ → JitOptimizer
patch_instruction o address new_opcode =
    let unlocked = record o { effects = write_protect false ∷ o.effects } in
    let written = record unlocked { effects = store address new_opcode ∷ unlocked.effects } in
    let locked = record written { effects = write_protect true ∷ written.effects } in
    flush_cache locked address 4

unfoldable pub optimize_hot_path : JitOptimizer → ℕ → JitOptimizer
unfolding patch_instruction
optimize_hot_path o address = patch_instruction o address arm64_nop

abbrev pub threshold : ℕ
threshold = 10000

-- The counters are uint64_t.
abbrev pub count_outcome : BranchStats → Bool → BranchStats
count_outcome st taken =
    if taken
    then record st { taken_count = (st.taken_count + 1) % 2 ^ 64 }
    else record st { not_taken_count = (st.not_taken_count + 1) % 2 ^ 64 }

-- The stats of a watched branch that is not optimized yet, counted and put back; a branch that went
-- over the threshold is patched.
unfoldable pub record_counted : JitOptimizer → ℕ → BranchStats → JitOptimizer
unfolding optimize_hot_path
record_counted o addr st =
    let counted = record o { watched_branches = update o.watched_branches addr st } in
    let patched = optimize_hot_path o addr in
    if ltb threshold st.not_taken_count && (st.taken_count == 0)
    then record patched {
      watched_branches = update o.watched_branches addr (record st { is_optimized = true });
    }
    else counted

unfoldable pub record_branch_outcome : JitOptimizer → ℕ → Bool → JitOptimizer
unfolding record_counted
record_branch_outcome o addr taken = elim (find o.watched_branches addr) [
  | none ↦ o
  | some st ↦ if st.is_optimized then o else record_counted o addr (count_outcome st taken)
]
