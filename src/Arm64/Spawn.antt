-- ===== src/Arm64/Spawn.antt =====
-- The frame that `Spawn` of src/kernel/Scheduler.cpp forges on ARM64.
use hyperion_euntime_environ.Base.{
  ℕ, ◌+◌, ◌-◌, ◌^◌, ◌<◌, ◌≤◌, ◌≡◌, ◌≢◌, sym, ap, ap₂, ◌∙◌, subst, some, arith,
}
use hyperion_euntime_environ.Scheduler.{Memory, push, write}
use hyperion_euntime_environ.Arm64.{Registers, switch_context, forge_stack}
use hyperion_euntime_environ.Arm64.Frames.{Frame, Apart, switch_to_Frame}

-- The registers of a fiber that has not run yet.
abbrev pub fresh : ℕ → ℕ → Registers
fresh entry task_ptr = record {
  x19 = task_ptr;
  x20 = 0;
  x21 = 0;
  x22 = 0;
  x23 = 0;
  x24 = 0;
  x25 = 0;
  x26 = 0;
  x27 = 0;
  x28 = 0;
  x29 = 0;
  x30 = entry;
  sp = 0;
  pc = 0;
}

-- Two pushes on a stack that has room, and the pushes of a frame.
abbrev pair : Memory → ℕ → ℕ → ℕ → Memory
pair m sp b a = write (write m (sp - 8) b) (sp - 16) a

push-pair :
    (sp : ℕ) (m : Memory) (b a : ℕ)
    → 16 ≤ sp
    → sp < 2 ^ 64
    → push (push (sp, m) b) a ≡ (sp - 16, pair m sp b a)
unfolding push
push-pair sp m b a h lt =
    ap₂ (λ (p q : ℕ). (q, write (write m p b) q a)) (omega arith) (omega arith)

abbrev forged : ℕ → ℕ → ℕ → Memory → Memory
forged entry task_ptr sp m =
    pair
      (pair
        (pair (pair (pair (pair m sp 0 task_ptr) (sp - 16) 0 0) (sp - 16 - 16) 0 0)
          (sp - 16 - 16 - 16) 0 0)
        (sp - 16 - 16 - 16 - 16) 0 0)
      (sp - 16 - 16 - 16 - 16 - 16) entry 0

forge_stack-eq :
    (m : Memory) (entry task_ptr sp : ℕ)
    → 96 ≤ sp
    → sp < 2 ^ 64
    → forge_stack entry task_ptr sp m
      ≡ (sp - 16 - 16 - 16 - 16 - 16 - 16, forged entry task_ptr sp m)
unfolding forge_stack
forge_stack-eq m entry task_ptr sp h lt =
    let pushed = λ (b a : ℕ) (s : ℕ × Memory). push (push s b) a in
    let m1 = pair m sp 0 task_ptr in
    let m2 = pair m1 (sp - 16) 0 0 in
    let m3 = pair m2 (sp - 16 - 16) 0 0 in
    let m4 = pair m3 (sp - 16 - 16 - 16) 0 0 in
    let m5 = pair m4 (sp - 16 - 16 - 16 - 16) 0 0 in
    ap (λ s. pushed entry 0 (pushed 0 0 (pushed 0 0 (pushed 0 0 (pushed 0 0 s)))))
      (push-pair sp m 0 task_ptr (omega arith) lt)
    ∙ ap (λ s. pushed entry 0 (pushed 0 0 (pushed 0 0 (pushed 0 0 s))))
        (push-pair (sp - 16) m1 0 0 (omega arith) (omega arith))
    ∙ ap (λ s. pushed entry 0 (pushed 0 0 (pushed 0 0 s)))
        (push-pair (sp - 16 - 16) m2 0 0 (omega arith) (omega arith))
    ∙ ap (λ s. pushed entry 0 (pushed 0 0 s))
        (push-pair (sp - 16 - 16 - 16) m3 0 0 (omega arith) (omega arith))
    ∙ ap (λ s. pushed entry 0 s)
        (push-pair (sp - 16 - 16 - 16 - 16) m4 0 0 (omega arith) (omega arith))
    ∙ push-pair (sp - 16 - 16 - 16 - 16 - 16) m5 entry 0 (omega arith) (omega arith)

forged-Frame :
    (m : Memory) (entry task_ptr sp : ℕ)
    → 96 ≤ sp
    → Frame (forged entry task_ptr sp m) (sp - 96) (fresh entry task_ptr)
unfolding write
forged-Frame m entry task_ptr sp h = record {
  at_x29 = ground arith;
  at_x30 = ground arith;
  at_x27 = ground arith;
  at_x28 = ground arith;
  at_x25 = ground arith;
  at_x26 = ground arith;
  at_x23 = ground arith;
  at_x24 = ground arith;
  at_x21 = ground arith;
  at_x22 = ground arith;
  at_x19 = ground arith;
  at_x20 = ground arith;
}

pub forge-Frame :
    (m : Memory) (entry task_ptr sp : ℕ)
    → 96 ≤ sp
    → sp < 2 ^ 64
    → ((forge_stack entry task_ptr sp m).0 ≡ sp - 96)
      × Frame (forge_stack entry task_ptr sp m).1 (sp - 96) (fresh entry task_ptr)
forge-Frame m entry task_ptr sp h lt =
    let e = forge_stack-eq m entry task_ptr sp h lt in
    (
      ap (λ s. s.0) e ∙ omega arith,
      subst (λ s. Frame s.1 (sp - 96) (fresh entry task_ptr)) (sym e)
          (forged-Frame m entry task_ptr sp h),
    )

-- A fiber that is spawned starts at its entry point with the task in X19.
pub forge-switch :
    (c : Registers) (m : Memory) (entry task_ptr sp : ℕ)
    → 96 ≤ sp
    → sp + 8 < 2 ^ 64
    → Apart c (sp - 96)
    → entry ≢ 0
    → (switch_context c (forge_stack entry task_ptr sp m).1 (forge_stack entry task_ptr sp m).0).2
      ≡ some (record (fresh entry task_ptr) { sp = sp; pc = entry })
forge-switch c m entry task_ptr sp h lt apart link =
    let (low, frame) = forge-Frame m entry task_ptr sp h (omega arith) in
    let forged_memory = (forge_stack entry task_ptr sp m).1 in
    ap (λ (p : ℕ). (switch_context c forged_memory p).2) low
    ∙ switch_to_Frame c (fresh entry task_ptr) forged_memory (sp - 96) frame (omega arith) apart
        link
    ∙ ap (λ (n : ℕ). some (record (fresh entry task_ptr) { sp = n; pc = entry })) {x = sp - 96 + 96}
        {y = sp} (omega arith)
