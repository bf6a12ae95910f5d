-- ===== src/Scheduler.antt =====
-- include/kernel/Scheduler.hpp and src/kernel/Scheduler.cpp, with the x86_64 context switch of
-- src/kernel/arch/x86_64/switch.S: fibers, their stacks, and the round-robin `Yield`.
pub mod Switch
pub mod Spawn
pub mod RoundRobin
use Prim.Native.String.{String}
use hyperion_euntime_environ.Base.{
  ℕ, ◌+◌, ◌-◌, ◌*◌, ◌%◌, ◌^◌, bit_and, Bool, true, false, Option, none, some, List, [], ◌∷◌, ◌++◌,
  ◌==◌, if◌then◌else◌, length, get_elem?, set, Option-cases,
}

-- Stack words by address. Every access of a switch is to one 8-byte word.
abbrev pub Memory : Type 0
Memory = ℕ → ℕ

unfoldable pub write : Memory → ℕ → ℕ → Memory
write m a v x = if x == a then v else m x

abbrev pub below : ℕ → ℕ → ℕ
below a n = (a + 2 ^ 64 - n) % 2 ^ 64

abbrev pub above : ℕ → ℕ → ℕ
above a n = (a + n) % 2 ^ 64

-- `Fiber`. A stack that the constructor does not allocate has base and pointer null.
pub record Fiber : Type 0 where
  pub id : ℕ
  pub stack_ptr : ℕ
  pub stack_base : ℕ
  pub stack_size : ℕ
  pub name : String
  pub is_completed : Bool

-- The registers that a switch saves, with the stack pointer and where execution goes on.
pub record Cpu : Type 0 where
  pub rbx : ℕ
  pub rbp : ℕ
  pub r12 : ℕ
  pub r13 : ℕ
  pub r14 : ℕ
  pub r15 : ℕ
  pub rsp : ℕ
  pub rip : ℕ

-- The end of the block, aligned to 16 bytes: `sp_addr &= ~0xF`.
unfoldable pub make_fiber : ℕ → String → ℕ → ℕ → Fiber
make_fiber id name stack_size mmap_result =
    if stack_size == 0
    then record {
      id = id;
      stack_ptr = 0;
      stack_base = 0;
      stack_size = 0;
      name = name;
      is_completed = false;
    }
    else record {
      id = id;
      stack_ptr = bit_and (above mmap_result stack_size) (2 ^ 64 - 16);
      stack_base = mmap_result;
      stack_size = stack_size;
      name = name;
      is_completed = false;
    }

-- `Push` of an 8-byte value, and `pushq`.
unfoldable pub push : ℕ × Memory → ℕ → ℕ × Memory
unfolding write
push (sp, m) v = (below sp 8, write m (below sp 8) v)

-- The frame that `Spawn` forges on x86_64, for `switch_context` to pop: the entry point below the
-- stack's end, then the six registers, R12 holding the task.
unfoldable pub forge_stack : ℕ → ℕ → ℕ → Memory → ℕ × Memory
unfolding push
forge_stack entry task_ptr sp m =
    push (push (push (push (push (push (push (sp, m) entry) 0) 0) task_ptr) 0) 0) 0

-- `switch_context(&old_sp, new_sp)`, entered by a call: the old stack pointer that it stores, and the
-- registers and the memory at its `ret`.
unfoldable pub switch_context : Cpu → Memory → ℕ → ℕ × Cpu × Memory
unfolding push
switch_context c m new_sp =
    let (old_sp, m') =
      push (push (push (push (push (push (c.rsp, m) c.rbx) c.rbp) c.r12) c.r13) c.r14) c.r15 in
    (
      old_sp,
      record {
        r15 = m' new_sp;
        r14 = m' (above new_sp 8);
        r13 = m' (above new_sp 16);
        r12 = m' (above new_sp 24);
        rbp = m' (above new_sp 32);
        rbx = m' (above new_sp 40);
        rip = m' (above new_sp 48);
        rsp = above new_sp 56;
      },
      m',
    )

-- `Scheduler`. A `Fiber*` is the fiber's place in `fibers`, where every fiber stands that was made.
pub record Scheduler : Type 0 where
  pub fibers : List Fiber
  pub current_fiber : Option ℕ
  pub current_idx : ℕ
  pub cpu : Cpu
  pub memory : Memory

-- The processor: an x86_64 with AVX2 or without, or an ARM64.
pub data Processor : Type 0 where
  x86_64 : Bool → Processor
  arm64 : Processor

-- `verify_cpu_features`: whether it returns. Without AVX2 an x86_64 traps, and on ARM64 nothing is
-- asked for.
abbrev pub verify_cpu_features : Processor → Bool
verify_cpu_features (x86_64 has_avx2) = has_avx2
verify_cpu_features arm64 = true

-- `Init`. `none` is for the trap.
unfoldable pub init : Processor → Scheduler → Option Scheduler
unfolding make_fiber
init cpu s =
    if verify_cpu_features cpu
    then some (record s {
      fibers = s.fibers ++ make_fiber 0 "Main" 0 0 ∷ [];
      current_fiber = some (length s.fibers);
    })
    else none

abbrev pub stack_bytes : ℕ
stack_bytes = 1024 * 1024

abbrev pub map_failed : ℕ
map_failed = 2 ^ 64 - 1

-- `Spawn`, given what `mmap` returns, the address of `S_Entry` and that of the task, or no entry
-- point. `none` is for the process's exit: the fiber's constructor found no stack, or there is no
-- entry point.
unfoldable pub spawn : Scheduler → String → ℕ → ℕ → Option ℕ → Option Scheduler
spawn s name mmap_result s_entry none = none
spawn s name mmap_result s_entry (some task_ptr) =
    let f = make_fiber (length s.fibers) name stack_bytes mmap_result in
    let (sp, m) = forge_stack s_entry task_ptr f.stack_ptr s.memory in
    if mmap_result == map_failed
    then none
    else some (record s { fibers = s.fibers ++ record f { stack_ptr = sp } ∷ []; memory = m })

-- The stack pointer of the fiber at an index.
abbrev pub saved_sp : List Fiber → ℕ → ℕ
saved_sp fibers i = elim (get_elem? fibers i) [ none ↦ 0 | some f ↦ f.stack_ptr ]

abbrev pub save_sp : List Fiber → ℕ → ℕ → List Fiber
save_sp fibers i sp = elim (get_elem? fibers i) [
  | none ↦ fibers
  | some f ↦ set fibers i (record f { stack_ptr = sp })
]

-- Which fiber is next.
abbrev pub next_idx : Scheduler → ℕ
next_idx s = (s.current_idx + 1) % length s.fibers

-- The switch from one fiber to another, unless they are the same.
unfoldable pub switch_to : Scheduler → Option ℕ → ℕ → Scheduler
unfolding switch_context
switch_to s none next = s
switch_to s (some prev) next =
    let (old_sp, c, m) = switch_context s.cpu s.memory (saved_sp s.fibers next) in
    if prev == next
    then s
    else record s { fibers = save_sp s.fibers prev old_sp; cpu = c; memory = m }

unfoldable pub yield : Scheduler → Scheduler
unfolding switch_to
yield s =
    switch_to (record s { current_idx = next_idx s; current_fiber = some (next_idx s) })
      s.current_fiber (next_idx s)

abbrev pub complete : List Fiber → ℕ → List Fiber
complete fibers i = elim (get_elem? fibers i) [
  | none ↦ fibers
  | some f ↦ set fibers i (record f { is_completed = true })
]

-- What a finished fiber does in the loop of `S_Entry`: it says so, and yields.
unfoldable pub finish : Scheduler → Scheduler
unfolding yield
finish s = elim (s.current_fiber) [
  | none ↦ yield s
  | some i ↦ yield (record s { fibers = complete s.fibers i })
]
