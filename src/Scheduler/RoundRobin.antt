-- ===== src/Scheduler/RoundRobin.antt =====
-- `Yield` of src/kernel/Scheduler.cpp over several turns, and the operations between.
use native.Mathlib.Nat.{mod-add-mod, mod-eq_of_lt, mod-lt, mod-eq-sub-mod}
use hyperion_euntime_environ.Base.{
  ℕ, zero, suc, ◌+◌, ◌-◌, ◌%◌, ◌<◌, ◌≡◌, refl, sym, ap, ◌∙◌, true, Option, none, some, List, [],
  ◌∷◌, ◌++◌, if◌then◌else◌, arith, subst, length, get_elem?, length-set, length-append, ◌==◌,
  Option-cases, dec_lt, inl, inr, Bool-cases,
}
use hyperion_euntime_environ.Scheduler.{
  Processor, verify_cpu_features, Fiber, Scheduler, switch_context, saved_sp, save_sp, complete,
  next_idx, switch_to, yield, finish, init, spawn, make_fiber,
}
use mathlib.Core.Option.{some-injective, none-ne-some}
use Prim.Native.String.{String}
use hyperion_euntime_environ.Scheduler.Spawn.{spawned-eq}

-- The index is that of the current fiber, and there is one.
pub record IsValid (s : Scheduler) : Type 0 where
  pub inside : s.current_idx < length s.fibers
  pub current : s.current_fiber ≡ some s.current_idx

length-save_sp : (fs : List Fiber) (i sp : ℕ) → length (save_sp fs i sp) ≡ length fs
length-save_sp fs i sp = elim (Option-cases (get_elem? fs i)) [
  | inl e ↦ rw (e, save_sp)
  | inr (f, e) ↦ rw (e, save_sp) (length-set fs i (record f { stack_ptr = sp }))
]

switch_to-shape :
    (s : Scheduler) (prev : Option ℕ) (next : ℕ)
    → (length (switch_to s prev next).fibers ≡ length s.fibers)
      × ((switch_to s prev next).current_idx ≡ s.current_idx)
      × ((switch_to s prev next).current_fiber ≡ s.current_fiber)
unfolding switch_to
switch_to-shape s none next = (refl, refl, refl)
switch_to-shape s (some prev) next = elim (Bool-cases (prev == next)) [
  | inl same ↦ rw same (refl, refl, refl)
  | inr other ↦ rw other (
    length-save_sp s.fibers prev (switch_context s.cpu s.memory (saved_sp s.fibers next)).0,
    refl,
    refl,
  )
]

-- With at least one fiber, `Yield` makes the next index current, modulo the number of fibers,
-- whatever fiber was current before, and loses no fiber.
pub yield-IsValid :
    (s : Scheduler)
    → 0 < length s.fibers
    → IsValid (yield s)
      × ((yield s).current_idx ≡ (s.current_idx + 1) % length s.fibers)
      × (length (yield s).fibers ≡ length s.fibers)
unfolding yield
yield-IsValid s h =
    let moved = record s { current_idx = next_idx s; current_fiber = some (next_idx s) } in
    let (len, idx, cur) = switch_to-shape moved s.current_fiber (next_idx s) in
    (
      record {
        inside = omega (arith, len, idx, mod-lt (s.current_idx + 1) h);
        current = cur ∙ ap some (sym idx);
      },
      idx,
      len,
    )

abbrev pub yields : ℕ → Scheduler → Scheduler
yields zero s = s
yields (suc n) s = yields n (yield s)

yields-idx :
    (n : ℕ) (s : Scheduler)
    → IsValid s
    → IsValid (yields n s)
      × ((yields n s).current_idx ≡ (s.current_idx + n) % length s.fibers)
      × (length (yields n s).fibers ≡ length s.fibers)
yields-idx zero s v =
    (v, sym (ap (λ (i : ℕ). i % length s.fibers) (omega arith) ∙ mod-eq_of_lt v.inside), refl)
yields-idx (suc n) s v =
    let (v1, idx1, len1) = yield-IsValid s (omega (arith, v.inside)) in
    let (v2, idx2, len2) = yields-idx n (yield s) v1 in
    (
      v2,
      idx2
          ∙ ap (λ (l : ℕ). ((yield s).current_idx + n) % l) len1
          ∙ ap (λ (i : ℕ). (i + n) % length s.fibers) idx1
          ∙ mod-add-mod (s.current_idx + 1) (length s.fibers) n
          ∙ ap (λ (i : ℕ). i % length s.fibers) (omega arith),
      len2 ∙ len1,
    )

-- The number of steps round the circle from the index to `j`.
steps_to :
    (i j l : ℕ) → i < l → j < l → (n : ℕ) × (n < l) × ((i + n) % l ≡ j) × ((i + (n + l)) % l ≡ j)
steps_to i j l hi hj = elim (dec_lt j i) [
  | yes back ↦ (
    j + l - i,
    omega arith,
    round (i + (j + l - i)) (omega arith),
    two_rounds (i + (j + l - i + l)) (omega arith),
  )
  | no ahead ↦ (
    j - i,
    omega arith,
    ap (λ (n : ℕ). n % l) (omega arith) ∙ mod-eq_of_lt hj,
    round (i + (j - i + l)) (omega arith),
  )
]
  where
    round : (n : ℕ) → n ≡ j + l → n % l ≡ j
    round n e =
        mod-eq-sub-mod {n = n} {m = l} (omega arith)
        ∙ ap (λ (k : ℕ). k % l) (omega arith)
        ∙ mod-eq_of_lt hj

    two_rounds : (n : ℕ) → n ≡ j + l + l → n % l ≡ j
    two_rounds n e = mod-eq-sub-mod {n = n} {m = l} (omega arith) ∙ round (n - l) (omega arith)

-- No fiber starves: where the current index is that of the current fiber, each fiber is current
-- after some number of yields below the number of fibers, and again after a full round more.
pub yields_fair :
    (s : Scheduler) (j : ℕ)
    → IsValid s
    → j < length s.fibers
    → (n : ℕ) × (n < length s.fibers)
      × ((yields n s).current_fiber ≡ some j)
      × ((yields (n + length s.fibers) s).current_fiber ≡ some j)
yields_fair s j v h =
    let (n, lt, first, again) = steps_to s.current_idx j (length s.fibers) v.inside h in
    let (v1, idx1, len1) = yields-idx n s v in
    let (v2, idx2, len2) = yields-idx (n + length s.fibers) s v in
    (n, lt, v1.current ∙ ap some (idx1 ∙ first), v2.current ∙ ap some (idx2 ∙ again))

abbrev started : Scheduler → Scheduler
started s = record s {
  fibers = s.fibers ++ make_fiber 0 "Main" 0 0 ∷ [];
  current_fiber = some (length s.fibers);
}

-- A first `Init` makes the index and the current fiber agree; `Spawn` adds behind them and gives the
-- new fiber the next id; what a finished fiber does is a `Yield` that keeps the fibers.
init-IsValid :
    (cpu : Processor) (s t : Scheduler)
    → init cpu s ≡ some t
    → s.fibers ≡ []
    → s.current_idx ≡ 0
    → IsValid t
unfolding init
init-IsValid cpu s t made no_fibers zero_idx = elim (Bool-cases (verify_cpu_features cpu)) [
  | inl verified ↦
      subst IsValid
        (some-injective (started s) t
          (sym (ap (λ b. if b then some (started s) else none) verified) ∙ made))
        (record {
          inside = omega (arith, zero_idx, length-append s.fibers (make_fiber 0 "Main" 0 0 ∷ []));
          current = ap some (ap length no_fibers ∙ sym zero_idx);
        })
  | inr trapped ↦
      absurd (none-ne-some t (sym (ap (λ b. if b then some (started s) else none) trapped) ∙ made))
]

-- Where the current index is that of the current fiber, a successful `Spawn` keeps it so, adds one
-- fiber and keeps the index.
pub spawn-IsValid :
    (s t : Scheduler) (name : String) (mmap_result s_entry task : ℕ)
    → IsValid s
    → spawn s name mmap_result s_entry (some task) ≡ some t
    → IsValid t × (length t.fibers ≡ length s.fibers + 1) × (t.current_idx ≡ s.current_idx)
spawn-IsValid s t name mmap_result s_entry task v e =
    let same = spawned-eq s name mmap_result s_entry task t e in
    let len = sym (ap (λ (u : Scheduler). length u.fibers) same) ∙ length-append s.fibers _ in
    let idx = sym (ap (λ (u : Scheduler). u.current_idx) same) in
    (
      record {
        inside = omega (arith, len, idx, v.inside);
        current =
            sym (ap (λ (u : Scheduler). u.current_fiber) same) ∙ v.current ∙ ap some (sym idx);
      },
      len,
      idx,
    )

length-complete : (fs : List Fiber) (i : ℕ) → length (complete fs i) ≡ length fs
length-complete fs i = elim (Option-cases (get_elem? fs i)) [
  | inl e ↦ rw (e, complete)
  | inr (f, e) ↦ rw (e, complete) (length-set fs i (record f { is_completed = true }))
]

finish-eq :
    (s : Scheduler) (i : ℕ)
    → s.current_fiber ≡ some i
    → finish s ≡ yield (record s { fibers = complete s.fibers i })
unfolding finish
finish-eq s i e =
    ap
      (λ (o : Option ℕ). elim o [
        | none ↦ yield s
        | some j ↦ yield (record s { fibers = complete s.fibers j })
      ])
      e

-- Where the current index is that of the current fiber, a finished fiber's turn in the loop of
-- `S_Entry` makes the next index current as a `Yield` does, and loses no fiber.
pub finish-IsValid :
    (s : Scheduler)
    → IsValid s
    → IsValid (finish s)
      × ((finish s).current_idx ≡ (s.current_idx + 1) % length s.fibers)
      × (length (finish s).fibers ≡ length s.fibers)
unfolding finish
finish-IsValid s v =
    let i = s.current_idx in
    let len = length-complete s.fibers i in
    let done = record s { fibers = complete s.fibers i } in
    let (valid, idx, kept) = yield-IsValid done (omega (arith, len, v.inside)) in
    let same = finish-eq s i v.current in
    (
      subst IsValid (sym same) valid,
      ap (λ (u : Scheduler). u.current_idx) same ∙ idx ∙ ap (λ (n : ℕ). (i + 1) % n) len,
      ap (λ (u : Scheduler). length u.fibers) same ∙ kept ∙ len,
    )
