-- ===== src/Program/Room.antt =====
-- The region under the turns of src/main.cpp: an entry at most is taken by each turn.
use hyperion_euntime_environ.Base.{
  ℕ, suc, ◌+◌, ◌*◌, ◌%◌, ◌<◌, ◌≤◌, ◌≡◌, ◌≢◌, refl, ap, ◌∙◌, Option, none, some, List, [], ◌∷◌,
  arith, Bool-cases, Option-cases, inl, inr, ◌⊎◌,
}
use hyperion_euntime_environ.MemoryManager.{
  Os, Manager, Outcome, done, ◌>>=◌, ghost_space_size, head_offset_at,
}
use hyperion_euntime_environ.ProcessingUnit.{
  ProcessingUnit, Shown, Text, probe_span, update, ingest, next_document,
}
use hyperion_euntime_environ.ProcessingUnit.Frame.{Served, update-SameRegion, update-stopped}
use hyperion_euntime_environ.Tokenizer.{Counts, tokenize}
use hyperion_euntime_environ.Document.{
  Arithmetic, entry_size, process_counts, process_document, analysis_turn,
}
use hyperion_euntime_environ.Document.Bytes.{IsServed, same-IsServed}
use hyperion_euntime_environ.Document.Commit.{process_document-IsAppended}

-- The region is served and has room for n more entries, and the unit's next probe lies in it.
pub record HasRoom (os : Os) (n : ℕ) (u : ProcessingUnit) (m : Manager) : Type 0 where
  pub served : IsServed os m
  pub header_kept : 24 ≤ m.memory (m.base_addr + head_offset_at)
  pub room : m.memory (m.base_addr + head_offset_at) + n * entry_size ≤ ghost_space_size
  pub probe_inside : u.ghost_offset < probe_span
  pub probe_page : u.ghost_offset % 4096 ≡ 0

List-cases {ℓ} : {A : Type ℓ} (xs : List A) → (xs ≡ []) ⊎ (xs ≢ [])
List-cases [] = inl refl
List-cases (x ∷ xs) = inr (λ e. cc)

module _ (os : Os) where
  -- A region that stands as it stood, with as much room or less asked of it.
  pub same-HasRoom :
      (n k : ℕ) (u u' : ProcessingUnit) (m m' : Manager)
      → k ≤ n
      → m'.base_addr ≡ m.base_addr
      → m'.memory ≡ m.memory
      → u'.ghost_offset < probe_span
      → u'.ghost_offset % 4096 ≡ 0
      → HasRoom os n u m
      → HasRoom os k u' m'
  same-HasRoom n k u u' m m' less base memory inside page r =
      let head : m'.memory (m'.base_addr + head_offset_at)
          ≡ m.memory (m.base_addr + head_offset_at) =
        ap (λ (b : ℕ). m'.memory (b + head_offset_at)) base
        ∙ ap (λ (g : ℕ → ℕ). g (m.base_addr + head_offset_at)) memory in
      record {
        served = same-IsServed os m m' base r.served;
        header_kept = omega (arith, head, r.header_kept);
        room = omega (arith, head, r.room);
        probe_inside = inside;
        probe_page = page;
      }

  pub update-HasRoom :
      (n rand : ℕ) (u : ProcessingUnit) (m : Manager)
      → HasRoom os n u m
      → (shown : Option Shown) × (u' : ProcessingUnit) × (m' : Manager) × (update os rand u m
          ≡ done (shown, u', m'))
        × HasRoom os n u' m'
  update-HasRoom n rand u m r = elim (Bool-cases u.running) [
    | inl runs ↦
        let s : Served os u m = record {
          mapped = r.served.mapped;
          fits = r.served.fits;
          opens = r.served.opens;
          offset_inside = r.probe_inside;
          offset_page = r.probe_page;
        } in
        let (frame, u', m', e, count, view, cool, served, memory, base) =
          update-SameRegion os u m rand s runs in
        (
          some frame,
          u',
          m',
          e,
          same-HasRoom n n u u' m m' (omega arith) base memory served.offset_inside
              served.offset_page r,
        )
    | inr stopped ↦ (none, u, m, update-stopped os u m rand stopped, r)
  ]

  -- A document takes the room of one entry, or none if it has no terms.
  process_document-HasRoom :
      (f : Arithmetic) (n : ℕ) (content : Text) (u : ProcessingUnit) (m : Manager)
      → HasRoom os (suc n) u m
      → (u' : ProcessingUnit) × (m' : Manager) × (process_document f os content u m ≡ done (u', m'))
        × HasRoom os n u' m'
  unfolding process_document
  process_document-HasRoom f n content u m r = elim (List-cases (tokenize u.tokenizer content).0) [
    | inl empty ↦
        let u' = record u { tokenizer = (tokenize u.tokenizer content).1 } in
        (
          u',
          m,
          ap (λ (counts : Counts). process_counts f os counts m >>= (λ m'. done (u', m'))) empty,
          same-HasRoom (suc n) n u u' m m (omega arith) refl refl r.probe_inside r.probe_page r,
        )
    | inr full ↦
        let (m', e, len, appended) =
          process_document-IsAppended f os content u m r.served full r.header_kept
            (omega (arith, r.room)) in
        let old = m.memory (m.base_addr + head_offset_at) in
        let head : m'.memory (m'.base_addr + head_offset_at) ≡ old + entry_size =
          ap (λ (b : ℕ). m'.memory (b + head_offset_at)) appended.same_base
          ∙ appended.head
          ∙ ap (λ (l : ℕ). old + l) len in
        (
          record u { tokenizer = (tokenize u.tokenizer content).1 },
          m',
          e,
          record {
            served = same-IsServed os m m' appended.same_base r.served;
            header_kept = omega (arith, head, r.header_kept);
            room = omega (arith, head, r.room);
            probe_inside = r.probe_inside;
            probe_page = r.probe_page;
          },
        )
  ]

  next_document-offset : (u : ProcessingUnit) → (next_document u).1.ghost_offset ≡ u.ghost_offset
  unfolding next_document
  next_document-offset u = ground arith

  pub analysis_turn-HasRoom :
      (f : Arithmetic) (n : ℕ) (u : ProcessingUnit) (m : Manager)
      → HasRoom os (suc n) u m
      → (u' : ProcessingUnit) × (m' : Manager) × (analysis_turn f os u m ≡ done (u', m'))
        × HasRoom os n u' m'
  unfolding analysis_turn
  analysis_turn-HasRoom f n u m r =
      let v = (next_document u).1 in
      let same = next_document-offset u in
      let rv : HasRoom os (suc n) v m =
        same-HasRoom (suc n) (suc n) u v m m (omega arith) refl refl
          (omega (arith, same, r.probe_inside)) (omega (arith, same, r.probe_page)) r in
      let Next : Option Text → Outcome (ProcessingUnit × Manager) =
        λ o. elim o [ none ↦ done (v, m) | some content ↦ process_document f os content v m ] in
      elim (Option-cases (next_document u).0) [
        | inl nothing ↦ (
          v,
          m,
          ap Next nothing,
          same-HasRoom (suc n) n v v m m (omega arith) refl refl rv.probe_inside rv.probe_page rv,
        )
        | inr (content, found) ↦
            let (u', m', e, r') = process_document-HasRoom f n content v m rv in
            (u', m', ap Next found ∙ e, r')
      ]

  pub ingest-offset :
      (u : ProcessingUnit) (text : Text) → (ingest u text).ghost_offset ≡ u.ghost_offset
  unfolding ingest
  ingest-offset u text = ground arith
