-- ===== src/ProcessingUnit/Frame.antt =====
-- One frame of `Update`, on a region that the memory manager serves.
use hyperion_euntime_environ.Base.{
  ℕ, ◌+◌, ◌-◌, ◌%◌, ◌^◌, ◌<◌, ◌≡◌, ◌≢◌, refl, sym, ap, ◌∙◌, subst, Bool, true, false, not, Option,
  none, some, ltb, ◌==◌, if◌then◌else◌, Bool-cases, inl, inr, arith,
}
use hyperion_euntime_environ.MemoryManager.{
  Os, Manager, Outcome, done, ◌>>=◌, nullptr, vector_count_at, ghost_space_size, touch, load,
  contains, page_of,
}
use hyperion_euntime_environ.MemoryManager.Fault.{InRegion, materialize, touch-InRegion}
use hyperion_euntime_environ.ProcessingUnit.{
  ProcessingUnit, Shown, MemoryView, probe_span, read_doc_count, probe, shown, cool_down, update,
}

-- The region is in place, every page of it can be opened, and the next probe lies in its first 64 MB
-- at a page's start.
pub record Served (os : Os) (u : ProcessingUnit) (m : Manager) : Type 0 where
  pub mapped : m.base_addr ≢ nullptr
  pub fits : m.base_addr + ghost_space_size < 2 ^ 64
  pub opens : (page : ℕ) → os.mprotect_succeeds page ≡ true
  pub offset_inside : u.ghost_offset < probe_span
  pub offset_page : u.ghost_offset % 4096 ≡ 0

-- What a touch leaves of the region: its place and its contents.
abbrev SameRegion : Manager → Manager → Type 0
SameRegion m m' = (m'.base_addr ≡ m.base_addr) × (m'.memory ≡ m.memory)

touched :
    (os : Os) (m : Manager) (addr : ℕ)
    → InRegion m addr
    → os.mprotect_succeeds (page_of os addr) ≡ true
    → (m' : Manager) × (touch os m addr ≡ done m') × SameRegion m m'
touched os m addr inside ok = elim (Bool-cases (contains m.open_pages (page_of os addr))) [
  | inl opened ↦ (m, touch-InRegion os m addr inside ok ∙ rw opened refl, (refl, refl))
  | inr shut ↦
      (materialize os m addr, touch-InRegion os m addr inside ok ∙ rw shut refl, (refl, refl))
]

present : {a : ℕ} → a ≢ nullptr → (a == nullptr) ≡ false
present {a} h = ground (arith, h)

module _ (os : Os) (u : ProcessingUnit) (m : Manager) (s : Served os u m) where
  address : (offset : ℕ) → offset < ghost_space_size → InRegion m ((m.base_addr + offset) % 2 ^ 64)
  address offset h = record {
    mapped = s.mapped;
    fits = s.fits;
    above = omega (arith, s.fits);
    below = omega (arith, s.fits);
  }

  read-Served :
      (m' : Manager) × (read_doc_count os m
        ≡ done (m.memory ((m.base_addr + vector_count_at) % 2 ^ 64), m'))
      × SameRegion m m'
  unfolding read_doc_count load
  read-Served =
      let at = (m.base_addr + vector_count_at) % 2 ^ 64 in
      let (m', e, same) =
        touched os m at (address vector_count_at (omega arith)) (s.opens (page_of os at)) in
      (
        m',
        ap (λ (b : Bool). if b then done (0, m) else load os m at) (present s.mapped)
            ∙ ap (λ (o : Outcome Manager). o >>= (λ n. done (n.memory at, n))) e
            ∙ ap (λ (f : ℕ → ℕ). done (f at, m')) same.1,
        same,
      )

  probe-Served :
      (rand : ℕ)
      → (u' : ProcessingUnit) × (m' : Manager) × (probe os rand u m ≡ done (u', m'))
        × SameRegion m m'
        × Served os u' m'
        × (u' ≡ record u { ghost_offset = u'.ghost_offset })
  unfolding probe
  probe-Served rand =
      let at = (m.base_addr + u.ghost_offset) % 2 ^ 64 in
      let (m', e, same) =
        touched os m at (address u.ghost_offset (omega (arith, s.offset_inside)))
          (s.opens (page_of os at)) in
      let moved = record u { ghost_offset = (u.ghost_offset + 4096) % probe_span } in
      elim (Bool-cases (rand % 10 == 0)) [
        | inl hit ↦ (
          moved,
          m',
          rw (hit, present s.mapped, probe)
              (ap (λ (o : Outcome Manager). o >>= (λ n. done (moved, n))) e),
          same,
          record {
            mapped = subst (λ (b : ℕ). b ≢ nullptr) (sym same.0) s.mapped;
            fits = omega (arith, same.0, s.fits);
            opens = s.opens;
            offset_inside = omega arith;
            offset_page = omega (arith, s.offset_page);
          },
          refl,
        )
        | inr miss ↦ (u, m, rw (miss, probe) refl, (refl, refl), s, refl)
      ]

-- A frame on a region that is served, with all that it leaves.
pub update-SameRegion :
    (os : Os) (u : ProcessingUnit) (m : Manager) (rand : ℕ)
    → Served os u m
    → u.running ≡ true
    → (frame : Shown) × (u' : ProcessingUnit) × (m' : Manager) × (update os rand u m
        ≡ done (some frame, u', m'))
      × (frame.doc_count ≡ m.memory (m.base_addr + vector_count_at))
      × (frame.view
          ≡ (if ltb 0 u.processing_cooldown then MemoryView.active_ops else MemoryView.idle_ops))
      × (u'.processing_cooldown ≡ u.processing_cooldown - 1)
      × Served os u' m'
      × (m'.memory ≡ m.memory)
      × (m'.base_addr ≡ m.base_addr)
unfolding update
update-SameRegion os u m rand s runs =
    let (m1, read, same1) = read-Served os u m s in
    let s1 : Served os u m1 = record {
      mapped = subst (λ (b : ℕ). b ≢ nullptr) (sym same1.0) s.mapped;
      fits = omega (arith, same1.0, s.fits);
      opens = s.opens;
      offset_inside = s.offset_inside;
      offset_page = s.offset_page;
    } in
    let (u2, m2, probed, same2, s2, only) = probe-Served os u m1 s1 rand in
    let count = m.memory ((m.base_addr + vector_count_at) % 2 ^ 64) in
    let frame = shown u count m1 in
    (
      frame,
      cool_down u2,
      m2,
      ap (λ (b : Bool). if not b then done (none, u, m) else running_frame) runs
          ∙ ap
              (λ (o : Outcome (ℕ × Manager)). o >>= (λ r.
                probe os rand u (r.1)
                >>= (λ q. done (some (shown u (r.0) (r.1)), cool_down (q.0), q.1))))
              read
          ∙ ap
              (λ (o : Outcome (ProcessingUnit × Manager)).
                o >>= (λ q. done (some frame, cool_down (q.0), q.1)))
              probed,
      ap m.memory (omega (arith, s.fits)),
      refl,
      ap (λ (v : ProcessingUnit). v.processing_cooldown - 1) only,
      record {
        mapped = s2.mapped;
        fits = s2.fits;
        opens = s2.opens;
        offset_inside = s2.offset_inside;
        offset_page = s2.offset_page;
      },
      same2.1 ∙ same1.1,
      same2.0 ∙ same1.0,
    )
  where
    running_frame : Outcome (Option Shown × ProcessingUnit × Manager)
    running_frame = read_doc_count os m >>= (λ r.
        probe os rand u (r.1) >>= (λ q. done (some (shown u (r.0) (r.1)), cool_down (q.0), q.1)))

-- Where the unit runs on a region that is in place, below the end of the address space, and whose
-- pages can all be opened, with the next probe at a page's start in its first 64 MB, `Update` does
-- not crash, whatever `rand` returns: it shows the header's vector count and the active opcodes
-- exactly while the cooldown is not 0, counts the cooldown down, and leaves such a region with the
-- same contents and such a next probe.
pub update-Served :
    (os : Os) (u : ProcessingUnit) (m : Manager) (rand : ℕ)
    → Served os u m
    → u.running ≡ true
    → (frame : Shown) × (u' : ProcessingUnit) × (m' : Manager) × (update os rand u m
        ≡ done (some frame, u', m'))
      × (frame.doc_count ≡ m.memory (m.base_addr + vector_count_at))
      × (frame.view
          ≡ (if ltb 0 u.processing_cooldown then MemoryView.active_ops else MemoryView.idle_ops))
      × (u'.processing_cooldown ≡ u.processing_cooldown - 1)
      × Served os u' m'
      × (m'.memory ≡ m.memory)
update-Served os u m rand s runs =
    let (frame, u', m', e, count, view, cool, served, memory, base) =
      update-SameRegion os u m rand s runs in
    (frame, u', m', e, count, view, cool, served, memory)

-- A unit that does not run leaves everything alone.
pub update-stopped :
    (os : Os) (u : ProcessingUnit) (m : Manager) (rand : ℕ)
    → u.running ≡ false
    → update os rand u m ≡ done (none, u, m)
unfolding update
update-stopped os u m rand stopped = rw stopped refl
