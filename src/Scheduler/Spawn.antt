-- ===== src/Scheduler/Spawn.antt =====
-- How the fibers that `Spawn` makes start.
use Prim.Native.String.{String}
use hyperion_euntime_environ.Base.{
  ℕ, ◌+◌, ◌-◌, ◌%◌, ◌^◌, ◌<◌, ◌≤◌, ◌≡◌, sym, ap, ◌∙◌, subst, length, none, some, of_some, Bool,
  Bool-cases, ◌==◌, if◌then◌else◌, ◌≢◌, inl, inr, [], ◌∷◌, ◌++◌, get_elem?-append_last, arith,
}
use hyperion_euntime_environ.Scheduler.{
  Memory, above, Cpu, forge_stack, switch_context, make_fiber, Fiber, Scheduler, spawn, saved_sp,
  stack_bytes, map_failed,
}
use hyperion_euntime_environ.Base.Bits.{bit_and_high}
use hyperion_euntime_environ.Scheduler.Switch.{Apart, forge-Frame, forge-switch}

none-ne-some {ℓ} : {A : Type ℓ} {a : A} → none ≢ some a
none-ne-some e = ground (arith, e)

module _ (s : Scheduler) (name : String) (mmap_result s_entry task_ptr : ℕ) where
  abbrev pub made : Fiber
  made = make_fiber (length s.fibers) name stack_bytes mmap_result

  abbrev pub forged : ℕ × Memory
  forged = forge_stack s_entry task_ptr made.stack_ptr s.memory

  abbrev pub spawned : Scheduler
  spawned = record s {
    fibers = s.fibers ++ record (made) { stack_ptr = forged.0 } ∷ [];
    memory = forged.1;
  }

  -- Where `Spawn` returns, this is what it leaves.
  pub spawned-eq :
      (t : Scheduler) → spawn s name mmap_result s_entry (some task_ptr) ≡ some t → spawned ≡ t
  unfolding spawn
  spawned-eq t e = elim (Bool-cases (mmap_result == map_failed)) [
    | inl failed ↦
        absurd (none-ne-some (sym (ap (λ (b : Bool). if b then none else some spawned) failed) ∙ e))
    | inr placed ↦ of_some (sym (ap (λ (b : Bool). if b then none else some spawned) placed) ∙ e)
  ]

  spawned_sp : saved_sp (spawned.fibers) (length s.fibers) ≡ forged.0
  spawned_sp =
      rw (get_elem?-append_last s.fibers (record (made) { stack_ptr = forged.0 }), saved_sp)

stack_end :
    (id : ℕ) (name : String) (mmap_result : ℕ)
    → mmap_result + stack_bytes + 16 < 2 ^ 64
    → (make_fiber id name stack_bytes mmap_result).stack_ptr
      ≡ mmap_result + stack_bytes - (mmap_result + stack_bytes) % 16
unfolding make_fiber
stack_end id name mmap_result h =
    bit_and_high 60 4 (above mmap_result stack_bytes) (omega arith) ∙ omega arith

-- What is claimed of the state after `Spawn` when the CPU `c` switches to the new fiber.
abbrev Starts : Cpu → ℕ → ℕ → ℕ → ℕ → Scheduler → Type 0
Starts c n mmap_result s_entry task_ptr t =
    let d = (switch_context c t.memory (saved_sp t.fibers n)).1 in
    (d.rip ≡ s_entry)
    × (d.r12 ≡ task_ptr)
    × (d.rsp % 16 ≡ 0)
    × (mmap_result < d.rsp)
    × (d.rsp ≤ mmap_result + stack_bytes)

spawned-Starts :
    (s : Scheduler) (name : String) (mmap_result s_entry task_ptr : ℕ) (c : Cpu)
    → mmap_result + stack_bytes + 16 < 2 ^ 64
    → Apart c (saved_sp ((spawned s name mmap_result s_entry task_ptr).fibers) (length s.fibers))
    → Starts c
        (length s.fibers)
        mmap_result
        s_entry
        task_ptr
        (spawned s name mmap_result s_entry task_ptr)
spawned-Starts s name mmap_result s_entry task_ptr c h apart = ground (arith, first, top)
  where
    sp : ℕ
    sp = (make_fiber (length s.fibers) name stack_bytes mmap_result).stack_ptr

    top :
        (make_fiber (length s.fibers) name stack_bytes mmap_result).stack_ptr
        ≡ mmap_result + stack_bytes - (mmap_result + stack_bytes) % 16
    top = stack_end (length s.fibers) name mmap_result h

    low :
        saved_sp ((spawned s name mmap_result s_entry task_ptr).fibers) (length s.fibers) ≡ sp - 56
    low =
        spawned_sp s name mmap_result s_entry task_ptr
        ∙ (forge-Frame s.memory s_entry task_ptr sp (omega (arith, top)) (omega (arith, top))).0

    first :
        (switch_context c
          (spawned s name mmap_result s_entry task_ptr).memory
          (saved_sp ((spawned s name mmap_result s_entry task_ptr).fibers) (length s.fibers))).1
        ≡ record {
          rbx = 0;
          rbp = 0;
          r12 = task_ptr;
          r13 = 0;
          r14 = 0;
          r15 = 0;
          rsp = (make_fiber (length s.fibers) name stack_bytes mmap_result).stack_ptr;
          rip = s_entry;
        }
    first =
        ap (λ (p : ℕ). (switch_context c (spawned s name mmap_result s_entry task_ptr).memory p).1)
          (spawned_sp s name mmap_result s_entry task_ptr)
        ∙ forge-switch c s.memory s_entry task_ptr sp (omega (arith, top)) (omega (arith, top))
            (subst (Apart c) low apart)

-- A fiber spawned with a task, on a stack more than 16 bytes below the end of the address space,
-- starts by a switch whose pushes lie apart from its frame at `S_Entry`, with the task in R12 and
-- the stack pointer at a multiple of 16, inside the fiber's own stack or at its end.
pub spawn-switch :
    (s t : Scheduler) (name : String) (mmap_result s_entry task_ptr : ℕ) (c : Cpu)
    → mmap_result + stack_bytes + 16 < 2 ^ 64
    → spawn s name mmap_result s_entry (some task_ptr) ≡ some t
    → Apart c (saved_sp t.fibers (length s.fibers))
    → let d = (switch_context c t.memory (saved_sp t.fibers (length s.fibers))).1 in
      (d.rip ≡ s_entry)
      × (d.r12 ≡ task_ptr)
      × (d.rsp % 16 ≡ 0)
      × (mmap_result < d.rsp)
      × (d.rsp ≤ mmap_result + stack_bytes)
spawn-switch s t name mmap_result s_entry task_ptr c h e apart =
    let same : spawned s name mmap_result s_entry task_ptr ≡ t =
      spawned-eq s name mmap_result s_entry task_ptr t e in
    subst
      (λ u.
        Apart c (saved_sp u.fibers (length s.fibers))
        → Starts c (length s.fibers) mmap_result s_entry task_ptr u)
      same (spawned-Starts s name mmap_result s_entry task_ptr c h) apart
