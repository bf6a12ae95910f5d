-- ===== src/Program/Boot.antt =====
-- `main` of src/main.cpp from a granted region to the fibers: the set-up and any turns after it.
use Prim.Native.String.{String}
use hyperion_euntime_environ.Canvas.{blank}
use hyperion_euntime_environ.Base.{
  ◌<◌, ◌^◌, ℕ, ◌+◌, ◌*◌, ◌%◌, ◌≤◌, ◌≡◌, ◌≢◌, refl, ap, sym, ◌∙◌, subst, Bool, true, false, Option,
  none, some, List, [], if◌then◌else◌, length, replicate, arith, Option-cases, inl, inr,
}
use hyperion_euntime_environ.MemoryManager.{
  Os, Manager, Outcome, done, crashed, ◌>>=◌, Expected, ok, unexpected, nullptr, ghost_space_size,
  header_size, head_offset_at, vector_count_at, map_failed, touch, load, store, get_ghost_ptr,
  run_self_test,
}
use hyperion_euntime_environ.MemoryManager
use hyperion_euntime_environ.MemoryManager.Lifecycle.{Grants, initialize_lem}
use hyperion_euntime_environ.ProcessingUnit.{ProcessingUnit, start}
use hyperion_euntime_environ.Monitor
use hyperion_euntime_environ.Frame.Session.{
  IsInStep, FitsInt, initialize-IsInStep, initialize-scroll, initialize-input,
}
use hyperion_euntime_environ.InputIngest.Printable.{Printable}
use hyperion_euntime_environ.Scheduler.{Processor, verify_cpu_features, Scheduler, init, spawn}
use hyperion_euntime_environ.Document.{Arithmetic, entry_size}
use hyperion_euntime_environ.Document.Bytes.{IsServed, same-IsServed}
use hyperion_euntime_environ.Program.{
  World, Turn, turns, Given, empty_scheduler, fresh_unit, spawn_fibers, launch, boot_from, boot,
}
use hyperion_euntime_environ.Program.Turns.{IsRunning, AllTyped, turns-IsRunning}
use hyperion_euntime_environ.Program.SelfTest.{self_test_passes}

module _ (os : Os) where
  start-offset : (u : ProcessingUnit) → (start u).ghost_offset ≡ u.ghost_offset
  unfolding start
  start-offset u = ground arith

  initialize-running :
      (t : Manager) → t.running ≡ true → MemoryManager.initialize os t ≡ done (Expected.ok tt, t)
  unfolding MemoryManager.initialize
  initialize-running t runs = rw runs refl

  spawn-ne-none :
      (k : Scheduler) (name : String) (stack s_entry task : ℕ)
      → stack ≢ map_failed
      → spawn k name stack s_entry (some task) ≢ none
  unfolding spawn
  spawn-ne-none k name stack s_entry task h e = ground arith

  fibers_spawned :
      (g : Given) (k : Scheduler)
      → g.ui_stack ≢ map_failed
      → g.clip_stack ≢ map_failed
      → (k' : Scheduler) × (spawn_fibers g k ≡ some k')
  unfolding spawn_fibers
  fibers_spawned g k h l =
      let second : Option Scheduler → Option Scheduler = λ o. elim o [
        | none ↦ none
        | some k1 ↦ spawn k1 "Clip_Fib" g.clip_stack g.s_entry (some g.clip_task)
      ] in
      elim (Option-cases (spawn k "UI_Fiber" g.ui_stack g.s_entry (some g.ui_task))) [
        | inl lost ↦ absurd (spawn-ne-none k "UI_Fiber" g.ui_stack g.s_entry g.ui_task h lost)
        | inr (k1, e1) ↦
            elim (Option-cases (spawn k1 "Clip_Fib" g.clip_stack g.s_entry (some g.clip_task))) [
              | inl lost ↦
                  absurd (spawn-ne-none k1 "Clip_Fib" g.clip_stack g.s_entry g.clip_task l lost)
              | inr (k2, e2) ↦ (k2, ap second e1 ∙ e2)
            ]
      ]

  launch-IsRunning :
      (n : ℕ) (g : Given) (k : Scheduler) (m : Manager)
      → g.ui_stack ≢ map_failed
      → g.clip_stack ≢ map_failed
      → FitsInt g.window
      → n < 2 ^ 31
      → IsServed os m
      → m.memory (m.base_addr + head_offset_at) ≡ header_size
      → header_size + n * entry_size ≤ ghost_space_size
      → (w : World) × (launch g k m ≡ some w) × IsRunning os n w
  unfolding launch
  launch-IsRunning n g k m h l fits few served head room =
      let (k', e) = fibers_spawned g k h l in
      let u = start (fresh_unit g.args) in
      let offset : u.ghost_offset ≡ 0 = start-offset (fresh_unit g.args) in
      let w : World = world_of k' in
      (
        w,
        ap (λ (o : Option Scheduler). elim o [ none ↦ none | some k1 ↦ some (world_of k1) ]) e,
        record {
          region = record {
            served = served;
            header_kept = omega (arith, head);
            room = omega (arith, head);
            probe_inside = omega (arith, offset);
            probe_page = omega (arith, offset);
          };
          in_step = initialize-IsInStep g.now g.window fits;
          frames = omega (arith, few, initialize-scroll g.now g.window);
          printable = subst Printable (sym (initialize-input g.now g.window)) tt;
        },
      )
    where
      world_of : Scheduler → World
      world_of k' =
          let monitor = Monitor.initialize g.window (Monitor.make_monitor g.now) in
          record {
            g_running = true;
            scheduler = k';
            ghost = m;
            unit = start (fresh_unit g.args);
            monitor = monitor;
            clipboard = record { last_clip = []; last_check = g.now };
            terminal = record {
              row = 1;
              column = 1;
              shown = replicate (monitor.width * monitor.height) blank;
            };
          }

  boot_from-IsRunning :
      (n : ℕ) (g : Given) (k : Scheduler) (ghost : Manager)
      → Grants os
      → os.mmap_result % 8 ≡ 0
      → ghost.running ≡ false
      → g.ui_stack ≢ map_failed
      → g.clip_stack ≢ map_failed
      → FitsInt g.window
      → n < 2 ^ 31
      → header_size + n * entry_size ≤ ghost_space_size
      → (w : World) × (boot_from os g k ghost ≡ done (some w)) × IsRunning os n w
  unfolding boot_from
  boot_from-IsRunning n g k ghost grants aligned idle h l fits few room =
      let (t1, e1, run1, base1, magic, count, head1, pages, faults, again) =
        initialize_lem os grants ghost idle in
      let served1 : IsServed os t1 = record {
        mapped = subst (λ (b : ℕ). b ≢ nullptr) (sym base1) grants.placed;
        fits = omega (arith, base1, grants.fits);
        aligned = ap (λ (b : ℕ). b % 8) base1 ∙ aligned;
        opens = grants.opens;
      } in
      let (t2, e2, base2, run2, rest2) = self_test_passes os t1 served1 in
      let head2 : t2.memory (t2.base_addr + head_offset_at) ≡ header_size =
        ap (λ (b : ℕ). t2.memory (b + head_offset_at)) base2
        ∙ rest2 (t1.base_addr + head_offset_at) (ground arith)
        ∙ ap (λ (b : ℕ). t1.memory (b + head_offset_at)) base1
        ∙ head1 in
      let (w, e4, r) =
        launch-IsRunning n g k t2 h l fits few (same-IsServed os t1 t2 base2 served1) head2 room in
      (
        w,
        ap (λ (o : Outcome (Expected (Unit {0}) × Manager)). o >>= after_first) e1
            ∙ ap (λ (o : Outcome (Bool × Manager)). o >>= after_test) e2
            ∙ ap (λ (o : Outcome (Expected (Unit {0}) × Manager)). o >>= after_second)
                (initialize-running t2 (run2 ∙ run1))
            ∙ ap (λ (o : Option World). done o) e4,
        r,
      )
    where
      after_second : Expected (Unit {0}) × Manager → Outcome (Option World)
      after_second q = elim (q.0) [ unexpected e ↦ done none | ok _ ↦ done (launch g k (q.1)) ]

      after_test : Bool × Manager → Outcome (Option World)
      after_test t = if t.0 then MemoryManager.initialize os (t.1) >>= after_second else done none

      after_first : Expected (Unit {0}) × Manager → Outcome (Option World)
      after_first r = elim (r.0) [
        | unexpected e ↦ done none
        | ok _ ↦ run_self_test os (r.1) >>= after_test
      ]

  init-ne-none :
      (cpu : Processor) (k : Scheduler) → verify_cpu_features cpu ≡ true → init cpu k ≢ none
  unfolding init
  init-ne-none cpu k verified e = ground (arith, verified, e)

  init-verified :
      (cpu : Processor) (k : Scheduler)
      → verify_cpu_features cpu ≡ true
      → (k' : Scheduler) × (init cpu k ≡ some k')
  init-verified cpu k verified = elim (Option-cases (init cpu k)) [
    | inl trapped ↦ absurd (init-ne-none cpu k verified trapped)
    | inr made ↦ made
  ]

-- Where the processor passes `verify_cpu_features`, the operating system grants a start, at an
-- address that is a multiple of 8, the manager does not run and both fibers' stacks are mapped, in
-- a window of which 32 rows and columns more still have fewer than 2 ^ 31 cells, `main` comes as
-- far as `Run`; and any turns of the two fibers and the analysis thread after that, in any order
-- and with any keys and random numbers and with clipboard texts of printable ASCII, fewer than 2 ^
-- 31 in all, go through without a crash, as many as the region has room for entries, and leave the
-- terminal showing the monitor's cells, the text in the input box printable and the frame counter
-- below 2 ^ 31.
pub boot-turns :
    (f : Arithmetic) (os : Os) (g : Given) (k : Scheduler) (ghost : Manager) (ts : List (Turn f os))
    → verify_cpu_features g.processor ≡ true
    → Grants os
    → os.mmap_result % 8 ≡ 0
    → ghost.running ≡ false
    → g.ui_stack ≢ map_failed
    → g.clip_stack ≢ map_failed
    → FitsInt g.window
    → length ts < 2 ^ 31
    → AllTyped os f ts
    → header_size + length ts * entry_size ≤ ghost_space_size
    → (w : World) × (w' : World) × (boot os g k ghost ≡ done (some w))
      × (turns f os ts w ≡ done w')
      × IsInStep w'.monitor w'.terminal
      × (w'.monitor.scroll_offset < 2 ^ 31)
      × Printable w'.monitor.input_text
unfolding boot
boot-turns f os g k ghost ts verified grants aligned idle h l fits few typed room =
    let (k', made) = init-verified os g.processor (empty_scheduler k) verified in
    let (w, e, r) =
      boot_from-IsRunning os (length ts) g k' ghost grants aligned idle h l fits few room in
    let (w', e', r') =
      turns-IsRunning os f 0 ts w typed (subst (λ n. IsRunning os n w) (omega arith) r) in
    (
      w,
      w',
      ap (λ (o : Option Scheduler). elim o [ none ↦ crashed | some k1 ↦ boot_from os g k1 ghost ])
            made
          ∙ e,
      e',
      r'.in_step,
      omega (arith, r'.frames),
      r'.printable,
    )
