-- ===== src/MemoryManager/Fault.antt =====
-- Page faults in the region: which accesses go through, and what they leave behind.
use hyperion_euntime_environ.Base.{
  ℕ, bit_and, ◌+◌, ◌-◌, ◌%◌, ◌^◌, ◌<◌, ◌≤◌, ◌≡◌, refl, ◌≢◌, ◌⊎◌, inl, inr, true, false, List, [],
  ◌∷◌, arith, length, if◌then◌else◌, subst,
}
use hyperion_euntime_environ.Base.Bits.{bit_and_high}
use hyperion_euntime_environ.MemoryManager.{
  Os, Manager, Outcome, done, crashed, ghost_space_size, nullptr, contains, page_of, touch, ◌>>=◌,
}

width : (k : ℕ) → k ≤ 64 → 64 - k + k ≡ 64
width k h = omega arith

-- The start of the page: the address without its offset in the page.
pub page_of-eq :
    (os : Os) (addr : ℕ)
    → os.page_bits ≤ 64
    → addr < 2 ^ 64
    → page_of os addr ≡ addr - addr % 2 ^ os.page_bits
unfolding page_of
page_of-eq os addr h lt =
    subst
      (λ (n : ℕ).
        addr < 2 ^ n
        → bit_and addr (2 ^ n - 1 - (2 ^ os.page_bits - 1)) ≡ addr - addr % 2 ^ os.page_bits)
      (width os.page_bits h) (bit_and_high (64 - os.page_bits) os.page_bits addr) lt

-- The address lies in the region, which does not run over the end of the address space.
pub record InRegion (s : Manager) (addr : ℕ) : Type 0 where
  pub mapped : s.base_addr ≢ nullptr
  pub fits : s.base_addr + ghost_space_size < 2 ^ 64
  pub above : s.base_addr ≤ addr
  pub below : addr < s.base_addr + ghost_space_size

-- What the handler makes of a fault that `mprotect` resolves: the page is open, and counted twice.
abbrev pub materialize : Os → Manager → ℕ → Manager
materialize os s addr = record s {
  open_pages = page_of os addr ∷ s.open_pages;
  fault_count = (s.fault_count + 1) % 2 ^ 64;
  resident_pages = (s.resident_pages + 1) % 2 ^ 64;
}

module _ (os : Os) (s : Manager) (addr : ℕ) where
  -- An access in the region goes through if `mprotect` succeeds at its page: at an open page
  -- nothing changes, and else just that page is opened and both counters go up by one.
  pub touch-InRegion :
      InRegion s addr
      → os.mprotect_succeeds (page_of os addr) ≡ true
      → touch os s addr
        ≡ done (if contains s.open_pages (page_of os addr) then s else materialize os s addr)
  unfolding touch
  touch-InRegion r ok = ground arith

  -- In a region that does not run over the end of the address space, an access to a page that is
  -- not open ends the process if it lies below or above the region, or if `mprotect` fails at its
  -- page.
  pub touch-crashed :
      contains s.open_pages (page_of os addr) ≡ false
      → s.base_addr + ghost_space_size < 2 ^ 64
      → (addr < s.base_addr)
        ⊎ ((s.base_addr + ghost_space_size ≤ addr)
            ⊎ (os.mprotect_succeeds (page_of os addr) ≡ false))
      → touch os s addr ≡ crashed
  unfolding touch
  touch-crashed shut fits (inl h) = ground arith
  touch-crashed shut fits (inr (inl h)) = ground arith
  touch-crashed shut fits (inr (inr h)) = ground arith

pub >>=-eq-done {ℓ κ} :
    {A : Type ℓ} {B : Type κ} (m : Outcome A) (f : A → Outcome B) {b : B}
    → (m >>= f) ≡ done b
    → (a : A) × (m ≡ done a) × (f a ≡ done b)
>>=-eq-done (done a) f h = (a, refl, h)
>>=-eq-done crashed f h = cc

-- No page twice.
abbrev pub Distinct : List ℕ → Type 0
Distinct [] = Unit
Distinct (p ∷ ps) = (contains ps p ≡ false) × Distinct ps

-- The counters count the open pages, each once.
pub record IsCounted (s : Manager) : Type 0 where
  pub faults : s.fault_count ≡ length s.open_pages % 2 ^ 64
  pub resident : s.resident_pages ≡ length s.open_pages % 2 ^ 64
  pub distinct : Distinct s.open_pages

-- Accesses at any addresses, in the region or not, one after the other.
abbrev touch_all : Os → Manager → List ℕ → Outcome Manager
touch_all os s [] = done s
touch_all os s (addr ∷ addrs) = touch os s addr >>= λ s'. touch_all os s' addrs

touch-IsCounted :
    (os : Os) (s t : Manager) (addr : ℕ) → touch os s addr ≡ done t → IsCounted s → IsCounted t
unfolding touch
touch-IsCounted os s t addr e v = ground arith

-- Accesses at any addresses, one after the other, that all go through keep no page open twice and
-- both counters equal to the number of open pages, modulo 2 ^ 64.
pub touch_all-IsCounted :
    (os : Os) (addrs : List ℕ) (s t : Manager)
    → IsCounted s
    → touch_all os s addrs ≡ done t
    → IsCounted t
touch_all-IsCounted os [] s t v e = ground arith
touch_all-IsCounted os (addr ∷ addrs) s t v e =
    let (s', p, q) = >>=-eq-done (touch os s addr) (λ u. touch_all os u addrs) e in
    touch_all-IsCounted os addrs s' t (touch-IsCounted os s s' addr p v) q
