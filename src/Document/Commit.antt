-- ===== src/Document/Commit.antt =====
-- `ProcessDocument` of src/core/ProcessingUnit.cpp appends one entry to the region and commits it in
-- the header.
use hyperion_euntime_environ.Base.{
  ℕ, ◌+◌, ◌-◌, ◌%◌, ◌^◌, ◌<◌, ◌≤◌, ◌≡◌, ◌≢◌, refl, ap, sym, ◌∙◌, List, [], ◌∷◌, ltb, leb, ◌&&◌,
  ◌==◌, if◌then◌else◌, length, length-replicate, get_or, replicate, arith,
}
use hyperion_euntime_environ.MemoryManager.{
  Os, Manager, Outcome, done, ◌>>=◌, nullptr, ghost_space_size, load, store, vector_count_at,
  head_offset_at,
}
use hyperion_euntime_environ.Tokenizer.{Counts, tokenize}
use hyperion_euntime_environ.ProcessingUnit.{ProcessingUnit, Text}
use hyperion_euntime_environ.Document.{
  Arithmetic, byte_of, vector_dim, entry_size, vectorize, min_max, write_entry, update_header,
  append_vector, process_counts, process_document,
}
use hyperion_euntime_environ.Document.Bytes.{
  byte_at, IsServed, touched, same-IsServed, store_bytes-Served,
}
use hyperion_euntime_environ.Document.Append.{
  entry, write_entry-eq, entry_between-AllBytes, length-entry_between, length-vectorize, >>=_assoc,
}

-- A word of the region that starts at `base` is read, changed and written back.
module _ (os : Os) (base : ℕ) (m : Manager) (at : ℕ) (s : IsServed os m) (here : m.base_addr ≡ base)
    (inside : at < ghost_space_size) where
  pub load-Served :
      (m' : Manager) × (load os m (base + at) ≡ done (m.memory (base + at), m'))
      × (m'.base_addr ≡ base)
      × (m'.memory ≡ m.memory)
  unfolding load
  load-Served =
      let (t, e, same, mem) = touched os m (base + at) s (omega arith) (omega arith) in
      (
        t,
        ap (λ (o : Outcome Manager). o >>= (λ n. done (n.memory (base + at), n))) e
            ∙ ap (λ (g : ℕ → ℕ). done (g (base + at), t)) mem,
        same ∙ here,
        mem,
      )

  pub store-Served :
      (v : ℕ)
      → (m' : Manager) × (store os m (base + at) v ≡ done m')
        × (m'.base_addr ≡ base)
        × ((w : ℕ) → m'.memory w ≡ (if w == base + at then v else m.memory w))
  unfolding store
  store-Served v =
      let (t, e, same, mem) = touched os m (base + at) s (omega arith) (omega arith) in
      (
        record t { memory = λ a. if a == base + at then v else t.memory a },
        ap
            (λ (o : Outcome Manager).
              o
              >>= (λ n. done (record n { memory = λ a. if a == base + at then v else n.memory a })))
            e,
        same ∙ here,
        λ w. ap (λ (g : ℕ → ℕ). if w == base + at then v else g w) mem,
      )

module _ (os : Os) (base : ℕ) (at : ℕ) (g : ℕ → ℕ) where
  abbrev change_word : Manager → Outcome Manager
  change_word m = load os m (base + at) >>= (λ r. store os (r.1) (base + at) (g (r.0)))

  change_word-Served :
      (m : Manager)
      → IsServed os m
      → m.base_addr ≡ base
      → at < ghost_space_size
      → (m' : Manager) × (change_word m ≡ done m')
        × (m'.base_addr ≡ base)
        × ((w : ℕ)
            → m'.memory w ≡ (if w == base + at then g (m.memory (base + at)) else m.memory w))
  change_word-Served m s here inside =
      let (m1, e1, b1, w1) = load-Served os base m at s here inside in
      let (m2, e2, b2, w2) =
        store-Served os base m1 at (same-IsServed os m m1 (b1 ∙ sym here) s) b1 inside
          (g (m.memory (base + at))) in
      (
        m2,
        ap (λ (o : Outcome (ℕ × Manager)). o >>= (λ r. store os (r.1) (base + at) (g (r.0)))) e1
            ∙ e2,
        b2,
        λ w. w2 w ∙ ap (λ (h : ℕ → ℕ). if w == base + at then g (m.memory (base + at)) else h w) w1,
      )

-- What the two header words are after the commit; the rest of the region is left alone.
record IsCommitted (m m' : Manager) : Type 0 where
  same_base : m'.base_addr ≡ m.base_addr
  head :
      m'.memory (m.base_addr + head_offset_at)
      ≡ (m.memory (m.base_addr + head_offset_at) + entry_size) % 2 ^ 64
  count :
      m'.memory (m.base_addr + vector_count_at)
      ≡ (m.memory (m.base_addr + vector_count_at) + 1) % 2 ^ 64
  rest : (w : ℕ) → m.base_addr + 24 ≤ w → m'.memory w ≡ m.memory w

update_header-IsCommitted :
    (f : Arithmetic) (os : Os) (m : Manager)
    → IsServed os m
    → (m' : Manager) × (update_header f os m ≡ done m') × IsCommitted m m'
unfolding update_header
update_header-IsCommitted f os m s =
    let base = m.base_addr in
    let next = λ (x : ℕ). (x + entry_size) % 2 ^ 64 in
    let more = λ (x : ℕ). (x + 1) % 2 ^ 64 in
    let (m1, e1, b1, w1) = change_word-Served os base head_offset_at next m s refl (omega arith) in
    let (m2, e2, b2, w2) =
      change_word-Served os base vector_count_at more m1 (same-IsServed os m m1 b1 s) b1
        (omega arith) in
    (
      m2,
      sym (
            >>=_assoc (load os m (base + head_offset_at))
              (λ r. store os (r.1) (base + head_offset_at) (next (r.0)))
              (change_word os base vector_count_at more))
          ∙ ap (λ (o : Outcome Manager). o >>= change_word os base vector_count_at more) e1
          ∙ e2,
      record {
        same_base = b2;
        head = ground (arith, w2 (base + head_offset_at), w1 (base + head_offset_at));
        count = ground (arith, w2 (base + vector_count_at), w1 (base + vector_count_at));
        rest = λ w h. ground (arith, w2 w, w1 w);
      },
    )

-- What appending an entry does to the region.
pub record IsAppended (m m' : Manager) (vs : List ℕ) : Type 0 where
  pub same_base : m'.base_addr ≡ m.base_addr
  pub head :
      m'.memory (m.base_addr + head_offset_at) ≡ m.memory (m.base_addr + head_offset_at) + length vs
  pub count :
      m'.memory (m.base_addr + vector_count_at)
      ≡ (m.memory (m.base_addr + vector_count_at) + 1) % 2 ^ 64
  pub bytes :
      (b : ℕ)
      → m.base_addr + 24 ≤ b
      → let dest = m.base_addr + m.memory (m.base_addr + head_offset_at) in
        byte_at m'.memory b ≡ (
          if leb dest b && ltb b (dest + length vs)
          then get_or vs (b - dest) 0
          else byte_at m.memory b)

committed-IsAppended :
    (m m2 m3 : Manager) (vs : List ℕ)
    → m2.base_addr ≡ m.base_addr
    → m.base_addr % 8 ≡ 0
    → 24 ≤ m.memory (m.base_addr + head_offset_at)
    → m.memory (m.base_addr + head_offset_at) + entry_size < 2 ^ 64
    → length vs ≡ entry_size
    → (let dest = m.base_addr + m.memory (m.base_addr + head_offset_at) in
        (w : ℕ) → w % 8 ≡ 0 → w + 8 ≤ dest → m2.memory w ≡ m.memory w)
    → (let dest = m.base_addr + m.memory (m.base_addr + head_offset_at) in
        (b : ℕ)
        → byte_at m2.memory b ≡ (
            if leb dest b && ltb b (dest + length vs)
            then get_or vs (b - dest) 0
            else byte_at m.memory b))
    → IsCommitted m2 m3
    → IsAppended m m3 vs
committed-IsAppended m m2 m3 vs base aligned low high len words bytes c =
    let head_at = m.base_addr + head_offset_at in
    let count_at = m.base_addr + vector_count_at in
    record {
      same_base = c.same_base ∙ base;
      head =
          ap (λ (b : ℕ). m3.memory (b + head_offset_at)) (sym base)
          ∙ c.head
          ∙ ap (λ (b : ℕ). (m2.memory (b + head_offset_at) + entry_size) % 2 ^ 64) base
          ∙ ap (λ (x : ℕ). (x + entry_size) % 2 ^ 64) (words head_at (omega arith) (omega arith))
          ∙ omega arith;
      count =
          ap (λ (b : ℕ). m3.memory (b + vector_count_at)) (sym base)
          ∙ c.count
          ∙ ap (λ (b : ℕ). (m2.memory (b + vector_count_at) + 1) % 2 ^ 64) base
          ∙ ap (λ (x : ℕ). (x + 1) % 2 ^ 64) (words count_at (omega arith) (omega arith));
      bytes = λ b h. ap (λ (x : ℕ). byte_of x (b % 8)) (c.rest (b - b % 8) (omega arith)) ∙ bytes b;
    }

append_vector-IsAppended :
    (f : Arithmetic) (os : Os) (dense_vec : List (f.Float)) (m : Manager)
    → IsServed os m
    → length dense_vec ≡ 256
    → 24 ≤ m.memory (m.base_addr + head_offset_at)
    → m.memory (m.base_addr + head_offset_at) + entry_size ≤ ghost_space_size
    → (m' : Manager) × (append_vector f os dense_vec m ≡ done m')
      × IsAppended m m' (entry f os dense_vec)
unfolding append_vector
append_vector-IsAppended f os dense_vec m s len low high =
    let base = m.base_addr in
    let offset = m.memory (base + head_offset_at) in
    let dest = base + offset in
    let first = get_or dense_vec 0 (f.of_ℕ 0) in
    let bounds = min_max f dense_vec first first in
    let vs = entry f os dense_vec in
    let vs_len : length vs ≡ entry_size =
      length-entry_between f os (bounds.0) (bounds.1) dense_vec ∙ omega arith in
    let (m1, e1, b1, mem1) = load-Served os base m head_offset_at s refl (omega arith) in
    let s1 = same-IsServed os m m1 b1 s in
    let (m2, e2, b2, bytes2, words2) =
      store_bytes-Served os vs m1 dest s1 (omega arith) (omega arith)
        (entry_between-AllBytes f os (bounds.0) (bounds.1) dense_vec) in
    let s2 = same-IsServed os m1 m2 b2 s1 in
    let (m3, e3, c) = update_header-IsCommitted f os m2 s2 in
    (
      m3,
      ap
            (λ (o : Outcome (ℕ × Manager)). o >>= (λ r.
              write_entry f os (bounds.0) (bounds.1) dense_vec (r.1) (base + r.0)
              >>= update_header f os))
            e1
          ∙ ap (λ (o : Outcome Manager). o >>= update_header f os)
              (write_entry-eq f os (bounds.0) (bounds.1) dense_vec m1 dest ∙ e2)
          ∙ e3,
      committed-IsAppended m m2 m3 vs (b2 ∙ b1) s.aligned low (omega arith) (omega arith)
          (λ w a h. words2 w a h ∙ ap (λ (g : ℕ → ℕ). g w) mem1)
          (λ b.
            bytes2 b
            ∙ ap
                (λ (g : ℕ → ℕ).
                  if leb dest b && ltb b (dest + length vs)
                  then get_or vs (b - dest) 0
                  else byte_at g b)
                mem1)
          c,
    )

process_counts-some :
    (f : Arithmetic) (os : Os) (counts : Counts) (m : Manager)
    → counts ≢ []
    → m.base_addr ≢ nullptr
    → process_counts f os counts m
      ≡ append_vector f os (vectorize f counts (replicate vector_dim (f.of_ℕ 0))) m
process_counts-some f os [] m h n = absurd (h refl)
process_counts-some f os (c ∷ counts) m h n = ground (arith, n)

-- On a region that is in place and aligned, below the end of the address space, and whose pages can
-- all be opened, with its header's offset at 24 or more and room for one more entry,
-- `ProcessDocument` of a text with some terms goes through: it writes one entry of 264 bytes, the
-- scale, the minimum and the quantized vector of the term counts, where the header says the next
-- entry goes, moves the header's offset by its length, counts it, modulo 2 ^ 64, and leaves every
-- other byte after the header as it was; the unit gets the vocabulary and keeps the rest.
pub process_document-IsAppended :
    (f : Arithmetic) (os : Os) (content : Text) (u : ProcessingUnit) (m : Manager)
    → IsServed os m
    → (tokenize u.tokenizer content).0 ≢ []
    → 24 ≤ m.memory (m.base_addr + head_offset_at)
    → m.memory (m.base_addr + head_offset_at) + entry_size ≤ ghost_space_size
    → let counts = (tokenize u.tokenizer content).0 in
      let vs = entry f os (vectorize f counts (replicate vector_dim (f.of_ℕ 0))) in
      (m' : Manager) × (process_document f os content u m
        ≡ done (record u { tokenizer = (tokenize u.tokenizer content).1 }, m'))
      × (length vs ≡ entry_size)
      × IsAppended m m' vs
unfolding process_document
process_document-IsAppended f os content u m s some_term low high =
    let counts = (tokenize u.tokenizer content).0 in
    let tokenizer = (tokenize u.tokenizer content).1 in
    let dense = vectorize f counts (replicate vector_dim (f.of_ℕ 0)) in
    let dense_len : length dense ≡ 256 =
      length-vectorize f os counts (replicate vector_dim (f.of_ℕ 0))
      ∙ length-replicate vector_dim (f.of_ℕ 0) in
    let first = get_or dense 0 (f.of_ℕ 0) in
    let bounds = min_max f dense first first in
    let (m', e, appended) = append_vector-IsAppended f os dense m s dense_len low high in
    (
      m',
      ap (λ (o : Outcome Manager). o >>= (λ n. done (record u { tokenizer = tokenizer }, n)))
          (process_counts-some f os counts m some_term s.mapped ∙ e),
      length-entry_between f os (bounds.0) (bounds.1) dense ∙ omega (arith, dense_len),
      appended,
    )
