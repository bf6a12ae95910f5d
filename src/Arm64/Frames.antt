-- ===== src/Arm64/Frames.antt =====
-- The frames of src/kernel/arch/arm64/switch.S: what a switch saves and what it takes.
use hyperion_euntime_environ.Base.{
  ℕ, ◌+◌, ◌-◌, ◌*◌, ◌^◌, ◌<◌, ◌≤◌, ◌≡◌, ◌≢◌, sym, ap, ◌∙◌, subst, ◌⊎◌, some, arith,
}
use hyperion_euntime_environ.Scheduler.{Memory}
use hyperion_euntime_environ.Arm64.{Registers, save_registers, restore_registers, switch_context}

-- The twelve words that a suspended fiber's stack pointer points at.
pub record Frame (m : Memory) (sp : ℕ) (c : Registers) : Type 0 where
  pub at_x29 : m sp ≡ c.x29
  pub at_x30 : m (sp + 8) ≡ c.x30
  pub at_x27 : m (sp + 16) ≡ c.x27
  pub at_x28 : m (sp + 24) ≡ c.x28
  pub at_x25 : m (sp + 32) ≡ c.x25
  pub at_x26 : m (sp + 40) ≡ c.x26
  pub at_x23 : m (sp + 48) ≡ c.x23
  pub at_x24 : m (sp + 56) ≡ c.x24
  pub at_x21 : m (sp + 64) ≡ c.x21
  pub at_x22 : m (sp + 72) ≡ c.x22
  pub at_x19 : m (sp + 80) ≡ c.x19
  pub at_x20 : m (sp + 88) ≡ c.x20

-- The words that a switch pushes lie apart from a frame.
abbrev pub Apart : Registers → ℕ → Type 0
Apart c sp = (96 ≤ c.sp) × (c.sp + 8 < 2 ^ 64) × ((c.sp ≤ sp) ⊎ (sp + 96 ≤ c.sp - 96))

-- The registers that a frame is taken into.
abbrev pub resumed : Registers → ℕ → Registers
resumed r sp = record r { sp = sp + 96; pc = r.x30 }

save-Frame :
    (c : Registers) (m : Memory)
    → 96 ≤ c.sp
    → c.sp + 8 < 2 ^ 64
    → ((save_registers c m).0 ≡ c.sp - 96) × Frame (save_registers c m).1 (c.sp - 96) c
unfolding save_registers
save-Frame c m h lt = ground arith

save_elsewhere :
    (c : Registers) (m : Memory) (a : ℕ)
    → 96 ≤ c.sp
    → c.sp + 8 < 2 ^ 64
    → (a < c.sp - 96) ⊎ (c.sp ≤ a)
    → (save_registers c m).1 a ≡ m a
unfolding save_registers
save_elsewhere c m a h lt apart = ground arith

restore-Frame :
    (r : Registers) (m : Memory) (sp : ℕ)
    → Frame m sp r
    → sp + 96 < 2 ^ 64
    → r.x30 ≢ 0
    → restore_registers m sp ≡ some (resumed r sp)
unfolding restore_registers
restore-Frame r m sp f lt link = ground (arith, link)

-- Two memories agree on a frame's words.
abbrev pub SameFrame : Memory → Memory → ℕ → Type 0
SameFrame m m' sp = (i : ℕ) → i < 12 → m' (sp + 8 * i) ≡ m (sp + 8 * i)

Frame-same :
    (m m' : Memory) (sp : ℕ) (r : Registers) → SameFrame m m' sp → Frame m sp r → Frame m' sp r
Frame-same m m' sp r same f = record {
  at_x29 =
      ap m' {x = sp} {y = sp + 8 * 0} (omega arith)
      ∙ same 0 (omega arith)
      ∙ ap m {x = sp + 8 * 0} {y = sp} (omega arith)
      ∙ f.at_x29;
  at_x30 = same 1 (omega arith) ∙ f.at_x30;
  at_x27 = same 2 (omega arith) ∙ f.at_x27;
  at_x28 = same 3 (omega arith) ∙ f.at_x28;
  at_x25 = same 4 (omega arith) ∙ f.at_x25;
  at_x26 = same 5 (omega arith) ∙ f.at_x26;
  at_x23 = same 6 (omega arith) ∙ f.at_x23;
  at_x24 = same 7 (omega arith) ∙ f.at_x24;
  at_x21 = same 8 (omega arith) ∙ f.at_x21;
  at_x22 = same 9 (omega arith) ∙ f.at_x22;
  at_x19 = same 10 (omega arith) ∙ f.at_x19;
  at_x20 = same 11 (omega arith) ∙ f.at_x20;
}

-- The pushes of a switch leave a frame alone that lies apart from them.
saved-SameFrame :
    (c : Registers) (m : Memory) (sp : ℕ) → Apart c sp → SameFrame m (save_registers c m).1 sp
saved-SameFrame c m sp (h, lt, away) i k = save_elsewhere c m (sp + 8 * i) h lt (ground arith)

-- A switch to a frame takes the registers from it and goes on at its link register.
pub switch_to_Frame :
    (c r : Registers) (m : Memory) (sp : ℕ)
    → Frame m sp r
    → sp + 96 < 2 ^ 64
    → Apart c sp
    → r.x30 ≢ 0
    → (switch_context c m sp).2 ≡ some (resumed r sp)
unfolding switch_context
switch_to_Frame c r m sp f lt apart link =
    restore-Frame r (save_registers c m).1 sp
      (Frame-same m (save_registers c m).1 sp r (saved-SameFrame c m sp apart) f) lt link

switch-Frame :
    (c : Registers) (m : Memory) (new_sp : ℕ)
    → 96 ≤ c.sp
    → c.sp + 8 < 2 ^ 64
    → ((switch_context c m new_sp).0 ≡ c.sp - 96)
      × Frame (switch_context c m new_sp).1 (c.sp - 96) c
unfolding switch_context
switch-Frame c m new_sp h lt = save-Frame c m h lt

-- On ARM64 a fiber whose stack pointer is at least 96 and more than 8 below 2 ^ 64 and whose link
-- register is not 0 switches away, other code runs that leaves its saved frame alone, and that
-- code's registers, whose pushes lie apart from the frame, switch back: the fiber goes on at its
-- link register with all the registers that are saved and its stack pointer as they were.
pub arm_switch_back :
    (c d : Registers) (m m' : Memory) (new_sp : ℕ)
    → 96 ≤ c.sp
    → c.sp + 8 < 2 ^ 64
    → c.x30 ≢ 0
    → SameFrame (switch_context c m new_sp).1 m' (switch_context c m new_sp).0
    → Apart d (switch_context c m new_sp).0
    → (switch_context d m' (switch_context c m new_sp).0).2 ≡ some (record c { pc = c.x30 })
arm_switch_back c d m m' new_sp h lt link same apart =
    let old = (switch_context c m new_sp).0 in
    let left = (switch_context c m new_sp).1 in
    let (low, frame) = switch-Frame c m new_sp h lt in
    switch_to_Frame d c m' old
      (Frame-same left m' old c same (subst (λ p. Frame left p c) (sym low) frame))
      (omega (arith, low)) apart link
    ∙ ap (λ (n : ℕ). some (record c { sp = n; pc = c.x30 })) {x = old + 96} {y = c.sp}
        (omega (arith, low))
