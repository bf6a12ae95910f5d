-- ===== src/Arm64.antt =====
-- src/kernel/arch/arm64/switch.S and the ARM64 half of `Spawn` in src/kernel/Scheduler.cpp: the context
-- switch and the frame that is forged for it.
pub mod Frames
pub mod Spawn
use hyperion_euntime_environ.Base.{
  ℕ, ◌+◌, ◌-◌, ◌*◌, ◌%◌, ◌^◌, Bool, true, false, Option, none, some, ◌==◌, if◌then◌else◌,
}
use hyperion_euntime_environ.Scheduler.{Memory, write, below, above, push}

-- The registers that the switch saves, with the stack pointer and where execution goes on.
pub record Registers : Type 0 where
  pub x19 : ℕ
  pub x20 : ℕ
  pub x21 : ℕ
  pub x22 : ℕ
  pub x23 : ℕ
  pub x24 : ℕ
  pub x25 : ℕ
  pub x26 : ℕ
  pub x27 : ℕ
  pub x28 : ℕ
  pub x29 : ℕ
  pub x30 : ℕ
  pub sp : ℕ
  pub pc : ℕ

-- `stp a, b, [sp, #-16]!`
unfoldable pub stp : ℕ × Memory → ℕ → ℕ → ℕ × Memory
unfolding write
stp (sp, m) a b = (below sp 16, write (write m (below sp 16) a) (above (below sp 16) 8) b)

-- The callee-saved registers are pushed in pairs.
unfoldable pub save_registers : Registers → Memory → ℕ × Memory
unfolding stp
save_registers c m =
    stp
      (stp (stp (stp (stp (stp (c.sp, m) c.x19 c.x20) c.x21 c.x22) c.x23 c.x24) c.x25 c.x26) c.x27
        c.x28)
      c.x29 c.x30

-- And popped from the new stack. `none` is for the panic at a link register of 0.
unfoldable pub restore_registers : Memory → ℕ → Option Registers
restore_registers m sp =
    let restored : Registers = record {
      x29 = m sp;
      x30 = m (above sp 8);
      x27 = m (above sp 16);
      x28 = m (above sp 24);
      x25 = m (above sp 32);
      x26 = m (above sp 40);
      x23 = m (above sp 48);
      x24 = m (above sp 56);
      x21 = m (above sp 64);
      x22 = m (above sp 72);
      x19 = m (above sp 80);
      x20 = m (above sp 88);
      sp = above sp 96;
      pc = m (above sp 8);
    } in
    if m (above sp 8) == 0 then none else some restored

-- `_switch_context`, entered by a call: the old stack pointer that it stores, the memory, and the
-- registers at its `ret`.
unfoldable pub switch_context : Registers → Memory → ℕ → ℕ × Memory × Option Registers
switch_context c m new_sp =
    let (old_sp, m') = save_registers c m in (old_sp, m', restore_registers m' new_sp)

-- The frame that `Spawn` forges on ARM64.
unfoldable pub forge_stack : ℕ → ℕ → ℕ → Memory → ℕ × Memory
unfolding push
forge_stack entry task_ptr sp m =
    push
      (push
        (push
          (push
            (push (push (push (push (push (push (push (push (sp, m) 0) task_ptr) 0) 0) 0) 0) 0) 0)
            0)
          0)
        entry)
      0
