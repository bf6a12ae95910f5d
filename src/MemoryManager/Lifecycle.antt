-- ===== src/MemoryManager/Lifecycle.antt =====
-- `initialize` of src/mm/MemoryManager.cpp, where the system grants it and where `mmap` fails.
use native.Mathlib.Nat.{mod-add-mod, mod-eq_of_lt}
use Prim.Native.Nat.add
use hyperion_euntime_environ.Base.{
  ℕ, ◌+◌, ◌%◌, ◌^◌, ◌<◌, ◌≤◌, ◌≡◌, refl, sym, ap, ◌∙◌, ◌≢◌, true, false, ◌&&◌, [], ◌∷◌, arith, ltb,
  leb, ◌==◌, if◌then◌else◌,
}
use hyperion_euntime_environ.MemoryManager.{
  Os, Manager, Expected, RuntimeError, Outcome, done, ◌>>=◌, ghost_space_size, ghost_magic,
  header_size, magic_at, vector_count_at, head_offset_at, map_failed, nullptr, page_of, touch, load,
  store, get_ghost_ptr, ok, unexpected, reserve_address_space, install_signal_handlers, map_region,
  write_header, check_header, initialize_header, initialize,
}
use hyperion_euntime_environ.MemoryManager.Fault.{InRegion, materialize, touch-InRegion, page_of-eq}

>>=-done {ℓ κ} :
    {A : Type ℓ} {B : Type κ} {m : Outcome A} {a : A} (f : A → Outcome B)
    → m ≡ done a
    → (m >>= f) ≡ f a
>>=-done f e = ap (λ n. n >>= f) e

ne→== : (a b : ℕ) → a ≢ b → (a == b) ≡ false
ne→== a b h = ground arith

-- What the operating system promises of a successful start: an address at a page's start, with room
-- for the region, pages of at least 64 bytes, and every page of it can be opened.
pub record Grants (os : Os) : Type 0 where
  pub page_small : os.page_bits ≤ 64
  pub page_large : 24 ≤ 2 ^ os.page_bits
  pub placed : os.mmap_result ≢ nullptr
  pub fits : os.mmap_result + ghost_space_size < 2 ^ 64
  pub page_start : os.mmap_result % 2 ^ os.page_bits ≡ 0
  pub opens : (page : ℕ) → os.mprotect_succeeds page ≡ true
  pub installs : (os.sigbus_installs ≡ true) × (os.sigsegv_installs ≡ true)

-- Where the manager does not run and `mmap` fails, `initialize` reports the failed reservation and
-- the manager does not run, but `get_ghost_ptr` at an offset in the region then hands out a pointer
-- computed from MAP_FAILED.
pub failed_reservation :
    (os : Os) (s : Manager) (offset : ℕ)
    → os.mmap_result ≡ map_failed
    → s.running ≡ false
    → offset < ghost_space_size
    → (t : Manager) × (initialize os s
        ≡ done (Expected.unexpected RuntimeError.memory_reservation_failed, t))
      × (t.running ≡ false)
      × (get_ghost_ptr t offset ≡ Expected.ok ((map_failed + offset) % 2 ^ 64))
unfolding initialize map_region get_ghost_ptr
failed_reservation os s offset failed idle inside =
    (record s { base_addr = map_failed }, ground arith, ground arith, ground arith)

-- A word of the header lies in the header's page.
module _ (os : Os) (g : Grants os) where
  header_page : (at : ℕ) → at < 24 → page_of os (os.mmap_result + at) ≡ os.mmap_result
  header_page at h =
      page_of-eq os (os.mmap_result + at) g.page_small (omega (arith, g.fits))
      ∙ omega (arith, offset)
    where
      offset : (os.mmap_result + at) % 2 ^ os.page_bits ≡ at
      offset =
          sym (mod-add-mod os.mmap_result (2 ^ os.page_bits) at)
          ∙ ap (λ (n : ℕ). (n + at) % 2 ^ os.page_bits) g.page_start
          ∙ ap (λ (n : ℕ). n % 2 ^ os.page_bits) (add.zero at)
          ∙ mod-eq_of_lt (omega (arith, g.page_large))

  module _ (s : Manager) (based : s.base_addr ≡ os.mmap_result) (at addr : ℕ) (inside : at < 24)
      (e : addr ≡ os.mmap_result + at) where
    in_region : InRegion s addr
    in_region = record {
      mapped = λ z. g.placed (sym based ∙ z);
      fits = omega (arith, g.fits);
      above = omega arith;
      below = omega arith;
    }

    at_page : page_of os addr ≡ os.mmap_result
    at_page = ap (page_of os) e ∙ header_page at inside

    -- The first access opens the header's page.
    touch_first : s.open_pages ≡ [] → touch os s addr ≡ done (materialize os s addr)
    touch_first none =
        ground (arith, touch-InRegion os s addr in_region (g.opens (page_of os addr)), none)

    touch_again : s.open_pages ≡ os.mmap_result ∷ [] → touch os s addr ≡ done s
    touch_again opened =
        ground
          (arith, touch-InRegion os s addr in_region (g.opens (page_of os addr)), at_page, opened)

-- The manager once the region is reserved and the handlers are in place.
mapped : Os → Manager → Manager
mapped os s = record s {
  base_addr = os.mmap_result;
  running = true;
  open_pages = [];
  memory = λ a.
      if leb os.mmap_result a && ltb a (os.mmap_result + ghost_space_size) then 0 else s.memory a;
}

module _ (os : Os) (g : Grants os) (s : Manager) where
  load_magic :
      load os (mapped os s) ((os.mmap_result + 0) % 2 ^ 64 + magic_at)
      ≡ done (0, materialize os (mapped os s) ((os.mmap_result + 0) % 2 ^ 64 + magic_at))
  unfolding load mapped
  load_magic = ground (
    arith,
    g.fits,
    touch_first os g (mapped os s) refl 0 ((os.mmap_result + 0) % 2 ^ 64 + magic_at) (omega arith)
        (omega (arith, g.fits)) refl,
  )

  -- Where the code finds the header, as it computes the address.
  abbrev header : ℕ
  header = (os.mmap_result + 0) % 2 ^ 64

  opened : Manager
  opened = materialize os (mapped os s) (header + magic_at)

  abbrev put : (ℕ → ℕ) → ℕ → ℕ → ℕ → ℕ
  put m at v a = if a == at then v else m a

  store-header :
      (t : Manager) (at v : ℕ)
      → t.base_addr ≡ os.mmap_result
      → t.open_pages ≡ os.mmap_result ∷ []
      → at < 24
      → store os t (header + at) v ≡ done (record t { memory = put t.memory (header + at) v })
  unfolding store
  store-header t at v based one inside =
      rw (touch_again os g t based at (header + at) inside (omega (arith, g.fits)) one)

  opened-pages : (opened.base_addr ≡ os.mmap_result) × (opened.open_pages ≡ os.mmap_result ∷ [])
  unfolding opened mapped
  opened-pages = (
    refl,
    ap (λ (p : ℕ). p ∷ [])
        (at_page os g (mapped os s) refl 0 (header + magic_at) (omega arith)
          (omega (arith, g.fits))),
  )

  with_header : Manager
  with_header = record (opened) {
    memory =
        put (put (put opened.memory (header + magic_at) ghost_magic) (header + vector_count_at) 0)
          (header + head_offset_at) header_size;
  }

  header_ptr : get_ghost_ptr (mapped os s) 0 ≡ Expected.ok header
  unfolding get_ghost_ptr mapped
  header_ptr = ground (arith, g.placed)

  with_magic : Manager
  with_magic = record (opened) { memory = put opened.memory (header + magic_at) ghost_magic }

  with_count : Manager
  with_count = record (with_magic) { memory = put with_magic.memory (header + vector_count_at) 0 }

  write_header-eq : write_header os header opened ≡ done with_header
  unfolding write_header with_header with_count with_magic
  write_header-eq =
      >>=-done (λ t. _)
        (store-header opened magic_at ghost_magic opened-pages.0 opened-pages.1 (omega arith))
      ∙ >>=-done (λ t. _)
          (store-header with_magic vector_count_at 0 opened-pages.0 opened-pages.1 (omega arith))
      ∙ store-header with_count head_offset_at header_size opened-pages.0 opened-pages.1
          (omega arith)

  abbrev header_branch : Expected ℕ → Outcome Manager
  header_branch p = elim p [
    | unexpected e ↦ done (mapped os s)
    | ok at ↦ check_header os at (mapped os s)
  ]

  initialize_header-eq : initialize_header os (mapped os s) ≡ done with_header
  unfolding initialize_header check_header opened
  initialize_header-eq =
      ap header_branch header_ptr ∙ >>=-done (λ p. _) load_magic ∙ write_header-eq

  -- The two branches on the operating system's answers.
  abbrev reserved_branch : Expected (Unit {0}) × Manager → Expected (Unit {0}) × Manager
  reserved_branch r = elim (r.0) [
    | unexpected e ↦ (Expected.unexpected e, r.1)
    | ok _ ↦ elim (install_signal_handlers os) [
      | unexpected e ↦ (Expected.unexpected e, r.1)
      | ok _ ↦ (Expected.ok tt, record (r.1) { running = true })
    ]
  ]

  reserved-eq :
      reserve_address_space os s ≡ (Expected.ok tt, record (mapped os s) { running = s.running })
  unfolding reserve_address_space mapped
  reserved-eq = rw (ne→== os.mmap_result map_failed (omega (arith, g.fits)))

  installed-eq : install_signal_handlers os ≡ Expected.ok tt
  unfolding install_signal_handlers
  installed-eq = ground (arith, g.installs)

  map_region-eq : map_region os s ≡ (Expected.ok tt, mapped os s)
  unfolding map_region mapped
  map_region-eq = ap reserved_branch reserved-eq ∙ rw (installed-eq, reserved_branch) refl

  initialize_again : (t : Manager) → t.running ≡ true → initialize os t ≡ done (Expected.ok tt, t)
  unfolding initialize
  initialize_again t runs = rw runs

  abbrev mapped_branch : Expected (Unit {0}) × Manager → Outcome (Expected (Unit {0}) × Manager)
  mapped_branch r = elim (r.0) [
    | unexpected e ↦ done (Expected.unexpected e, r.1)
    | ok _ ↦ do t ← initialize_header os (r.1); done (Expected.ok tt, t)
  ]

  initialize-eq : s.running ≡ false → initialize os s ≡ done (Expected.ok tt, with_header)
  unfolding initialize
  initialize-eq idle =
      ap (λ b. if b then done (Expected.ok tt, s) else mapped_branch (map_region os s)) idle
      ∙ ap mapped_branch map_region-eq
      ∙ >>=-done (λ t. _) initialize_header-eq

  header-eq : header ≡ os.mmap_result
  header-eq = omega (arith, g.fits)

  -- Where the operating system grants what a start needs and the manager does not run, `initialize`
  -- succeeds: the manager runs, the header at the start of the region has the magic number, no
  -- vectors and its own size as the first free offset, just its page is open, by one fault, and a
  -- second `initialize` changes nothing.
  pub initialize_lem :
      s.running ≡ false
      → (t : Manager) × (initialize os s ≡ done (Expected.ok tt, t))
        × (t.running ≡ true)
        × (t.base_addr ≡ os.mmap_result)
        × (t.memory os.mmap_result ≡ ghost_magic)
        × (t.memory (os.mmap_result + vector_count_at) ≡ 0)
        × (t.memory (os.mmap_result + head_offset_at) ≡ header_size)
        × (t.open_pages ≡ os.mmap_result ∷ [])
        × (t.fault_count ≡ (s.fault_count + 1) % 2 ^ 64)
        × (initialize os t ≡ done (Expected.ok tt, t))
  unfolding with_header opened mapped
  initialize_lem idle = (
    with_header,
    initialize-eq idle,
    refl,
    refl,
    ground (arith, header-eq),
    ground (arith, header-eq),
    ground (arith, header-eq),
    opened-pages.1,
    refl,
    initialize_again with_header refl,
  )
