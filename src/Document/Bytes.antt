-- ===== src/Document/Bytes.antt =====
-- Stores of single bytes by src/core/ProcessingUnit.cpp in a region of 64-bit words.
use hyperion_euntime_environ.Base.{
  ℕ, zero, suc, ◌+◌, ◌-◌, ◌*◌, ◌/◌, ◌%◌, ◌^◌, ◌<◌, ◌≤◌, ◌≡◌, ◌≢◌, refl, ap, sym, ◌∙◌, subst, true,
  List, [], ◌∷◌, ltb, leb, ◌&&◌, ◌==◌, if◌then◌else◌, length, get_or, arith, inl, inr, Bool-cases,
}
use hyperion_euntime_environ.MemoryManager.{
  Os, Manager, Outcome, done, ◌>>=◌, nullptr, ghost_space_size, touch, contains, page_of,
}
use hyperion_euntime_environ.MemoryManager.Fault.{InRegion, materialize, touch-InRegion}
use hyperion_euntime_environ.Document.{byte_of, with_byte, store_byte, store_bytes}

byte_of-with_byte :
    (word k j v : ℕ)
    → v < 256
    → byte_of (with_byte word k v) j ≡ (if k == j then v else byte_of word j)
unfolding byte_of with_byte
byte_of-with_byte word zero zero v h = ground arith
byte_of-with_byte word zero (suc j) v h =
    ap (λ (w : ℕ). byte_of w j) {x = (word / 256 * 256 + v) / 256} {y = word / 256} (omega arith)
    ∙ ground arith
byte_of-with_byte word (suc k) zero v h = ground arith
byte_of-with_byte word (suc k) (suc j) v h =
    ap (λ (w : ℕ). byte_of w j) {x = (with_byte (word / 256) k v * 256 + word % 256) / 256}
      {y = with_byte (word / 256) k v} (omega arith)
    ∙ byte_of-with_byte (word / 256) k j v h
    ∙ ground arith

-- The byte at an address.
abbrev pub byte_at : (ℕ → ℕ) → ℕ → ℕ
byte_at memory a = byte_of (memory (a - a % 8)) (a % 8)

-- A memory with a byte replaced.
abbrev written : (ℕ → ℕ) → ℕ → ℕ → ℕ → ℕ
written memory addr v a =
    if a == addr - addr % 8 then with_byte (memory (addr - addr % 8)) (addr % 8) v else memory a

byte_at-written :
    (memory : ℕ → ℕ) (addr v b : ℕ)
    → v < 256
    → byte_at (written memory addr v) b ≡ (if b == addr then v else byte_at memory b)
byte_at-written memory addr v b h = ground (
  arith,
  byte_of-with_byte (memory (addr - addr % 8)) (addr % 8) (b % 8) v h,
  ap memory {x = b - b % 8} {y = addr - addr % 8},
)

-- The region is in place, ends before the address space, starts at a word, and every page of it can
-- be opened.
pub record IsServed (os : Os) (m : Manager) : Type 0 where
  pub mapped : m.base_addr ≢ nullptr
  pub fits : m.base_addr + ghost_space_size < 2 ^ 64
  pub aligned : m.base_addr % 8 ≡ 0
  pub opens : (page : ℕ) → os.mprotect_succeeds page ≡ true

-- A byte in front of others, read among them.
byte_cons :
    (v : ℕ) (vs : List ℕ) (addr b old : ℕ)
    → (if leb (suc addr) b && ltb b (suc addr + length vs)
        then get_or vs (b - suc addr) 0
        else if b == addr
        then v
        else old)
      ≡ (if leb addr b && ltb b (addr + suc (length vs)) then get_or (v ∷ vs) (b - addr) 0 else old)
byte_cons v vs addr b old = ground (
  arith,
  ap (λ (i : ℕ). get_or (v ∷ vs) i 0) {x = b - addr} {y = 0},
  ap (λ (i : ℕ). get_or (v ∷ vs) i 0) {x = b - addr} {y = suc (b - suc addr)},
)

-- Bytes are below 256.
abbrev pub AllBytes : List ℕ → Type 0
AllBytes [] = Unit {0}
AllBytes (v ∷ vs) = (v < 256) × AllBytes vs

module _ (os : Os) where
  pub touched :
      (m : Manager) (addr : ℕ)
      → IsServed os m
      → m.base_addr ≤ addr
      → addr < m.base_addr + ghost_space_size
      → (m' : Manager) × (touch os m addr ≡ done m')
        × (m'.base_addr ≡ m.base_addr)
        × (m'.memory ≡ m.memory)
  touched m addr s l h =
      let inside : InRegion m addr = record {
        mapped = s.mapped;
        fits = s.fits;
        above = l;
        below = h;
      } in
      let went = touch-InRegion os m addr inside (s.opens (page_of os addr)) in
      elim (Bool-cases (contains m.open_pages (page_of os addr))) [
        | inl opened ↦ (m, went ∙ rw opened refl, refl, refl)
        | inr shut ↦ (materialize os m addr, went ∙ rw shut refl, refl, refl)
      ]

  pub same-IsServed : (m m' : Manager) → m'.base_addr ≡ m.base_addr → IsServed os m → IsServed os m'
  same-IsServed m m' e s = record {
    mapped = subst (λ (b : ℕ). b ≢ nullptr) (sym e) s.mapped;
    fits = omega (arith, e, s.fits);
    aligned = ap (λ (b : ℕ). b % 8) e ∙ s.aligned;
    opens = s.opens;
  }

  -- What a store of one byte leaves.
  store_byte-Served :
      (m : Manager) (addr v : ℕ)
      → IsServed os m
      → m.base_addr ≤ addr
      → addr < m.base_addr + ghost_space_size
      → v < 256
      → (m' : Manager) × (store_byte os m addr v ≡ done m')
        × (m'.base_addr ≡ m.base_addr)
        × ((b : ℕ) → byte_at m'.memory b ≡ (if b == addr then v else byte_at m.memory b))
        × ((w : ℕ) → w ≢ addr - addr % 8 → m'.memory w ≡ m.memory w)
  unfolding store_byte
  store_byte-Served m addr v s l h vb =
      let (t, e, base, mem) = touched m addr s l h in
      (
        record t { memory = written t.memory addr v },
        ap
            (λ (o : Outcome Manager).
              o >>= (λ n. done (record n { memory = written n.memory addr v })))
            e,
        base,
        λ b.
            byte_at-written t.memory addr v b vb
            ∙ ap (λ (f : ℕ → ℕ). if b == addr then v else byte_at f b) mem,
        λ w ne. ground (arith, ne, ap (λ (f : ℕ → ℕ). f w) mem),
      )

  -- What stores of bytes one behind the other leave.
  pub store_bytes-Served :
      (vs : List ℕ) (m : Manager) (addr : ℕ)
      → IsServed os m
      → m.base_addr ≤ addr
      → addr + length vs ≤ m.base_addr + ghost_space_size
      → AllBytes vs
      → (m' : Manager) × (store_bytes os m addr vs ≡ done m')
        × (m'.base_addr ≡ m.base_addr)
        × ((b : ℕ)
            → byte_at m'.memory b ≡ (
                if leb addr b && ltb b (addr + length vs)
                then get_or vs (b - addr) 0
                else byte_at m.memory b))
        × ((w : ℕ) → w % 8 ≡ 0 → w + 8 ≤ addr → m'.memory w ≡ m.memory w)
  unfolding store_bytes
  store_bytes-Served [] m addr s l h vb = (m, refl, refl, λ b. ground arith, λ w a k. refl)
  store_bytes-Served (v ∷ vs) m addr s l h vb =
      let (m1, e1, base1, bytes1, words1) = store_byte-Served m addr v s l (omega arith) vb.0 in
      let (m2, e2, base2, bytes2, words2) =
        store_bytes-Served vs m1 (suc addr) (same-IsServed m m1 base1 s) (omega arith) (omega arith)
          vb.1 in
      (
        m2,
        ap (λ (o : Outcome Manager). o >>= (λ n. store_bytes os n (suc addr) vs)) e1 ∙ e2,
        base2 ∙ base1,
        λ b.
            bytes2 b
            ∙ ap
                (λ (o : ℕ).
                  if leb (suc addr) b && ltb b (suc addr + length vs)
                  then get_or vs (b - suc addr) 0
                  else o)
                (bytes1 b)
            ∙ byte_cons v vs addr b (byte_at m.memory b),
        λ w a k. words2 w a (omega arith) ∙ words1 w (ground arith),
      )
