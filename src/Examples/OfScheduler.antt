-- ===== src/Examples/OfScheduler.antt =====
-- src/kernel/Scheduler.cpp with three fibers, and one switch from a stack at 4096.
use hyperion_euntime_environ.Base.{
  ℕ, ◌+◌, ◌*◌, ◌%◌, ◌<◌, ◌≤◌, ◌≡◌, refl, false, inl, inr, some, [], ◌∷◌, ◌++◌, arith, length,
}
use hyperion_euntime_environ.Scheduler.{
  Memory, Fiber, Cpu, Scheduler, make_fiber, spawn, switch_context, saved_sp, stack_bytes,
  forge_stack,
}
use hyperion_euntime_environ.Scheduler.Switch.{switch_back}
use hyperion_euntime_environ.Scheduler.Spawn.{spawn-switch}
use hyperion_euntime_environ.Scheduler.RoundRobin.{IsValid, yields, yields_fair}

abbrev cpu : Cpu
cpu = record { rbx = 1; rbp = 2; r12 = 3; r13 = 4; r14 = 5; r15 = 6; rsp = 4096; rip = 7 }

abbrev zeros : Memory
zeros a = 0

abbrev fiber : ℕ → Fiber
fiber id = record {
  id = id;
  stack_ptr = 65536 * (id + 1);
  stack_base = 65536 * id;
  stack_size = 65536;
  name = "Worker";
  is_completed = false;
}

abbrev three : Scheduler
three = record {
  fibers = fiber 0 ∷ fiber 1 ∷ fiber 2 ∷ [];
  current_fiber = some 1;
  current_idx = 1;
  cpu = cpu;
  memory = zeros;
}

three-IsValid : IsValid three
three-IsValid = record { inside = omega arith; current = refl }

yields_fair_example :
    (n : ℕ) × (n < length three.fibers)
    × ((yields n three).current_fiber ≡ some 0)
    × ((yields (n + length three.fibers) three).current_fiber ≡ some 0)
yields_fair_example = yields_fair three 0 three-IsValid (omega arith)

-- The frame that a switch at 4096 leaves is at 4048; the other fiber's stack is at 8192.
switch_back_example :
    (switch_context
      (record (cpu) { rsp = 8192 })
      (switch_context cpu zeros 8000).2
      (switch_context cpu zeros 8000).0).1
    ≡ record (cpu) { rsp = cpu.rsp + 8; rip = zeros cpu.rsp }
unfolding switch_context
switch_back_example =
    switch_back cpu (record (cpu) { rsp = 8192 }) zeros (switch_context cpu zeros 8000).2 8000
      (omega arith) (omega arith) (λ i h. refl) (omega arith, omega arith, inr (omega arith))

abbrev spawned : Scheduler
spawned = record (three) {
  fibers =
      three.fibers
      ++ record {
        id = 3;
        stack_ptr = (forge_stack 99 77 0x1010_0000 zeros).0;
        stack_base = 0x1000_0000;
        stack_size = stack_bytes;
        name = "Analysis";
        is_completed = false;
      }
        ∷ [];
  memory = (forge_stack 99 77 0x1010_0000 zeros).1;
}

spawn-switch_example :
    let d = (switch_context cpu spawned.memory (saved_sp spawned.fibers (length three.fibers))).1 in
    (d.rip ≡ 99)
    × (d.r12 ≡ 77)
    × (d.rsp % 16 ≡ 0)
    × (0x1000_0000 < d.rsp)
    × (d.rsp ≤ 0x1000_0000 + stack_bytes)
unfolding spawn make_fiber forge_stack
spawn-switch_example =
    spawn-switch three spawned "Analysis" 0x1000_0000 99 77 cpu (omega arith) refl
      (omega arith, omega arith, inl (omega arith))
