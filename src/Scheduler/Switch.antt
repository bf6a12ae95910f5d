-- ===== src/Scheduler/Switch.antt =====
-- The frames of src/kernel/arch/x86_64/switch.S: what a switch saves and what it takes.
use hyperion_euntime_environ.Base.{
  ℕ, ◌+◌, ◌-◌, ◌*◌, ◌^◌, ◌<◌, ◌≤◌, ◌≡◌, sym, ap, ◌∙◌, subst, ◌⊎◌, arith,
}
use hyperion_euntime_environ.Scheduler.{Memory, Cpu, forge_stack, switch_context}

-- The seven words that a suspended fiber's stack pointer points at.
pub record Frame (m : Memory) (sp : ℕ) (r15 r14 r13 r12 rbp rbx ret : ℕ) : Type 0 where
  pub at_r15 : m sp ≡ r15
  pub at_r14 : m (sp + 8) ≡ r14
  pub at_r13 : m (sp + 16) ≡ r13
  pub at_r12 : m (sp + 24) ≡ r12
  pub at_rbp : m (sp + 32) ≡ rbp
  pub at_rbx : m (sp + 40) ≡ rbx
  pub at_ret : m (sp + 48) ≡ ret

-- A switch leaves a frame of the old registers, with the return address of its call, and nothing
-- else changes.
pub switch-Frame :
    (c : Cpu) (m : Memory) (new_sp : ℕ)
    → 48 ≤ c.rsp
    → c.rsp + 8 < 2 ^ 64
    → ((switch_context c m new_sp).0 ≡ c.rsp - 48)
      × Frame
          (switch_context c m new_sp).2
          (c.rsp - 48)
          c.r15
          c.r14
          c.r13
          c.r12
          c.rbp
          c.rbx
          (m c.rsp)
unfolding switch_context
switch-Frame c m new_sp h lt = ground arith

switch_elsewhere :
    (c : Cpu) (m : Memory) (new_sp a : ℕ)
    → 48 ≤ c.rsp
    → c.rsp + 8 < 2 ^ 64
    → (a < c.rsp - 48) ⊎ (c.rsp ≤ a)
    → (switch_context c m new_sp).2 a ≡ m a
unfolding switch_context
switch_elsewhere c m new_sp a h lt apart = ground arith

-- The words that a switch pushes lie apart from a frame.
abbrev pub Apart : Cpu → ℕ → Type 0
Apart c sp = (48 ≤ c.rsp) × (c.rsp + 8 < 2 ^ 64) × ((c.rsp ≤ sp) ⊎ (sp + 56 ≤ c.rsp - 48))

-- A switch to a frame takes the registers from it and goes on at its return address.
pub switch_to_Frame :
    (c : Cpu) (m : Memory) (sp r15 r14 r13 r12 rbp rbx ret : ℕ)
    → Frame m sp r15 r14 r13 r12 rbp rbx ret
    → sp + 56 < 2 ^ 64
    → Apart c sp
    → (switch_context c m sp).1 ≡ record {
      rbx = rbx;
      rbp = rbp;
      r12 = r12;
      r13 = r13;
      r14 = r14;
      r15 = r15;
      rsp = sp + 56;
      rip = ret;
    }
unfolding switch_context
switch_to_Frame c m sp r15 r14 r13 r12 rbp rbx ret f lt apart = ground arith

-- Two memories agree on a frame's words.
abbrev pub SameFrame : Memory → Memory → ℕ → Type 0
SameFrame m m' sp = (i : ℕ) → i < 7 → m' (sp + 8 * i) ≡ m (sp + 8 * i)

Frame-same :
    (m m' : Memory) (sp r15 r14 r13 r12 rbp rbx ret : ℕ)
    → SameFrame m m' sp
    → Frame m sp r15 r14 r13 r12 rbp rbx ret
    → Frame m' sp r15 r14 r13 r12 rbp rbx ret
Frame-same m m' sp r15 r14 r13 r12 rbp rbx ret same f = record {
  at_r15 = ground (arith, same 0, f);
  at_r14 = same 1 (omega arith) ∙ f.at_r14;
  at_r13 = same 2 (omega arith) ∙ f.at_r13;
  at_r12 = same 3 (omega arith) ∙ f.at_r12;
  at_rbp = same 4 (omega arith) ∙ f.at_rbp;
  at_rbx = same 5 (omega arith) ∙ f.at_rbx;
  at_ret = same 6 (omega arith) ∙ f.at_ret;
}

-- A fiber whose stack pointer is at least 48 and more than 8 below 2 ^ 64 switches away, other code
-- runs that leaves its saved frame alone, and that code's CPU, whose pushes lie apart from the
-- frame, switches back: the fiber has its six registers again, its stack pointer is past the return
-- address of its call, and it goes on at that address.
pub switch_back :
    (c d : Cpu) (m m' : Memory) (new_sp : ℕ)
    → 48 ≤ c.rsp
    → c.rsp + 8 < 2 ^ 64
    → SameFrame (switch_context c m new_sp).2 m' (switch_context c m new_sp).0
    → Apart d (switch_context c m new_sp).0
    → (switch_context d m' (switch_context c m new_sp).0).1
      ≡ record c { rsp = c.rsp + 8; rip = m c.rsp }
switch_back c d m m' new_sp h lt same apart =
    let (old, frame) = switch-Frame c m new_sp h lt in
    let sp = (switch_context c m new_sp).0 in
    let kept =
      subst
        (λ p. Frame (switch_context c m new_sp).2 p c.r15 c.r14 c.r13 c.r12 c.rbp c.rbx (m c.rsp))
        (sym old) frame in
    switch_to_Frame d m' sp c.r15 c.r14 c.r13 c.r12 c.rbp c.rbx (m c.rsp)
      (Frame-same (switch_context c m new_sp).2 m' sp c.r15 c.r14 c.r13 c.r12 c.rbp c.rbx (m c.rsp)
        same kept)
      (omega (arith, old)) apart
    ∙ ap (λ (n : ℕ). record c { rsp = n; rip = m c.rsp }) (omega (arith, old))

pub forge-Frame :
    (m : Memory) (entry task_ptr sp : ℕ)
    → 56 ≤ sp
    → sp + 8 < 2 ^ 64
    → ((forge_stack entry task_ptr sp m).0 ≡ sp - 56)
      × Frame (forge_stack entry task_ptr sp m).1 (sp - 56) 0 0 0 task_ptr 0 0 entry
unfolding forge_stack
forge-Frame m entry task_ptr sp h lt = ground arith

-- The frame that `Spawn` forges below an aligned stack end starts the new fiber at its entry point,
-- with the task in R12, its other registers 0, and the stack pointer at the stack's end.
pub forge-switch :
    (c : Cpu) (m : Memory) (entry task_ptr sp : ℕ)
    → 56 ≤ sp
    → sp + 8 < 2 ^ 64
    → Apart c (sp - 56)
    → (switch_context c (forge_stack entry task_ptr sp m).1 (forge_stack entry task_ptr sp m).0).1
      ≡ record {
        rbx = 0;
        rbp = 0;
        r12 = task_ptr;
        r13 = 0;
        r14 = 0;
        r15 = 0;
        rsp = sp;
        rip = entry;
      }
forge-switch c m entry task_ptr sp h lt apart =
    let (low, frame) = forge-Frame m entry task_ptr sp h lt in
    ap (λ (p : ℕ). (switch_context c (forge_stack entry task_ptr sp m).1 p).1) low
    ∙ switch_to_Frame c (forge_stack entry task_ptr sp m).1 (sp - 56) 0 0 0 task_ptr 0 0 entry frame
        (omega arith) apart
    ∙ ap
        (λ (n : ℕ). record {
          rbx = 0;
          rbp = 0;
          r12 = task_ptr;
          r13 = 0;
          r14 = 0;
          r15 = 0;
          rsp = n;
          rip = entry;
        })
        (omega arith)
