-- ===== src/MemoryManager.antt =====
-- include/mm/MemoryManager.hpp and src/mm/MemoryManager.cpp: the 1 TB region, its pages that the
-- signal handler makes accessible one by one, and the header at its start.
pub mod Fault
pub mod Lifecycle
use hyperion_euntime_environ.Base.{
  ℕ, ◌+◌, ◌-◌, ◌*◌, ◌/◌, ◌%◌, ◌^◌, bit_and, Bool, true, false, not, ◌&&◌, ◌||◌, List, [], ◌∷◌, ltb,
  leb, ◌==◌, if◌then◌else◌,
}

pub data RuntimeError : Type 0 where
  none initialization_failed port_allocation_failed thread_spawn_failed : RuntimeError
  memory_reservation_failed invalid_access operating_system_error : RuntimeError

-- `std::expected<A, RuntimeError>`
pub data Expected {ℓ} (A : Type ℓ) : Type ℓ where
  ok : A → Expected A
  unexpected : RuntimeError → Expected A

abbrev pub ghost_space_size : ℕ
ghost_space_size = 1099511627776

abbrev pub ghost_magic : ℕ
ghost_magic = 0xC06D_FEED_DEAD_BEEF

-- sizeof(MemoryHeader), and the offsets of `magic`, `vector_count` and `head_offset` in it
abbrev pub header_size : ℕ
header_size = 24

abbrev pub magic_at : ℕ
magic_at = 0

abbrev pub vector_count_at : ℕ
vector_count_at = 8

abbrev pub head_offset_at : ℕ
head_offset_at = 16

-- What the operating system answers: it is not part of the program. A page has 2 ^ page_bits bytes;
-- `mmap` gives an address or MAP_FAILED; `mprotect` succeeds or not at each page.
pub record Os : Type 0 where
  pub page_bits : ℕ
  pub mmap_result : ℕ
  pub sigbus_installs : Bool
  pub sigsegv_installs : Bool
  pub mprotect_succeeds : ℕ → Bool

abbrev pub map_failed : ℕ
map_failed = 2 ^ 64 - 1

abbrev pub nullptr : ℕ
nullptr = 0

-- `MemoryManager`, with the pages that `mprotect` has opened, newest first, and the 64-bit words of
-- memory by address.
pub record Manager : Type 0 where
  pub base_addr : ℕ
  pub running : Bool
  pub fault_count : ℕ
  pub resident_pages : ℕ
  pub open_pages : List ℕ
  pub memory : ℕ → ℕ

-- An access that the handler cannot resolve ends the process by the default action.
pub data Outcome {ℓ} (A : Type ℓ) : Type ℓ where
  done : A → Outcome A
  crashed : Outcome A

infixl 5 ◌>>=◌ ◌>>◌
abbrev pub ◌>>=◌ {ℓ κ} : {A : Type ℓ} {B : Type κ} → Outcome A → (A → Outcome B) → Outcome B
done a >>= f = f a
crashed >>= f = crashed

abbrev pub ◌>>◌ {ℓ κ} : {A : Type ℓ} {B : Type κ} → Outcome A → Outcome B → Outcome B
m >> k = m >>= λ _. k

abbrev pub contains : List ℕ → ℕ → Bool
contains [] page = false
contains (p ∷ ps) page = p == page || contains ps page

pub data Signal : Type 0 where
  sigsegv sigbus other : Signal

module _ (os : Os) where
  -- `addr & ~(page_size - 1)`
  unfoldable pub page_of : ℕ → ℕ
  page_of addr = bit_and addr (2 ^ 64 - 1 - (2 ^ os.page_bits - 1))

  unfoldable handle_fault : Manager → ℕ → Bool × Manager
  handle_fault s fault_addr =
      let page_addr = page_of fault_addr in
      if os.mprotect_succeeds page_addr
      then (
        true,
        record s {
          open_pages = page_addr ∷ s.open_pages;
          fault_count = (s.fault_count + 1) % 2 ^ 64;
          resident_pages = (s.resident_pages + 1) % 2 ^ 64;
        },
      )
      else (false, s)

  -- `ghost_signal_handler`: whether the access is to be tried again. Otherwise the default action is
  -- restored, and trying again ends the process. Another signal is none of its business.
  unfoldable ghost_signal_handler : Signal → Manager → ℕ → Bool × Manager
  unfolding handle_fault
  ghost_signal_handler Signal.other s fault_addr = (true, s)
  ghost_signal_handler _ s fault_addr =
      let end_val = (s.base_addr + ghost_space_size) % 2 ^ 64 in
      if not (s.base_addr == nullptr) && leb s.base_addr fault_addr && ltb fault_addr end_val
      then handle_fault s fault_addr
      else (false, s)

  -- A load or store at an address of the region: it goes through if the page is open, and else traps
  -- and is tried again.
  unfoldable pub touch : Manager → ℕ → Outcome Manager
  unfolding ghost_signal_handler
  touch s addr =
      let (resumed, s') = ghost_signal_handler Signal.sigsegv s addr in
      if contains s.open_pages (page_of addr)
      then done s
      else if resumed
      then (if contains s'.open_pages (page_of addr) then done s' else crashed)
      else crashed

  unfoldable pub load : Manager → ℕ → Outcome (ℕ × Manager)
  load s addr = do s' ← touch s addr; done (s'.memory addr, s')

  unfoldable pub store : Manager → ℕ → ℕ → Outcome Manager
  store s addr v = do
    s' ← touch s addr
    done (record s' { memory = λ a. if a == addr then v else s'.memory a })

unfoldable pub get_ghost_ptr : Manager → ℕ → Expected ℕ
get_ghost_ptr s offset =
    if leb ghost_space_size offset
    then Expected.unexpected RuntimeError.invalid_access
    else if s.base_addr == nullptr
    then Expected.unexpected RuntimeError.initialization_failed
    else Expected.ok ((s.base_addr + offset) % 2 ^ 64)

module _ (os : Os) where
  -- A fresh mapping has no open page and reads as zeros.
  unfoldable pub reserve_address_space : Manager → Expected (Unit {0}) × Manager
  reserve_address_space s =
      if os.mmap_result == map_failed
      then (
        Expected.unexpected RuntimeError.memory_reservation_failed,
        record s { base_addr = map_failed },
      )
      else (
        Expected.ok tt,
        record s {
          base_addr = os.mmap_result;
          open_pages = [];
          memory = λ a.
              if leb os.mmap_result a && ltb a (os.mmap_result + ghost_space_size)
              then 0
              else s.memory a;
        },
      )

  unfoldable pub install_signal_handlers : Expected (Unit {0})
  install_signal_handlers =
      if os.sigbus_installs && os.sigsegv_installs
      then Expected.ok tt
      else Expected.unexpected RuntimeError.initialization_failed

  -- The three stores that make a header.
  unfoldable pub write_header : ℕ → Manager → Outcome Manager
  write_header header s1 = do
    s2 ← store os s1 (header + magic_at) ghost_magic
    s3 ← store os s2 (header + vector_count_at) 0
    store os s3 (header + head_offset_at) header_size

  -- The first access, to `magic`, is the first page fault.
  unfoldable pub check_header : ℕ → Manager → Outcome Manager
  check_header header s = do
    (magic, s1) ← load os s (header + magic_at)
    if magic == ghost_magic then done s1 else write_header header s1

  unfoldable pub initialize_header : Manager → Outcome Manager
  initialize_header s = elim (get_ghost_ptr s 0) [
    | unexpected e ↦ done s
    | ok header ↦ check_header header s
  ]

  -- Both steps before the header, in their order.
  unfoldable pub map_region : Manager → Expected (Unit {0}) × Manager
  unfolding reserve_address_space install_signal_handlers
  map_region s =
      let (reserved, s1) = reserve_address_space s in
      elim reserved [
        | unexpected e ↦ (Expected.unexpected e, s1)
        | ok _ ↦ elim install_signal_handlers [
          | unexpected e ↦ (Expected.unexpected e, s1)
          | ok _ ↦ (Expected.ok tt, record s1 { running = true })
        ]
      ]

  unfoldable pub initialize : Manager → Outcome (Expected (Unit {0}) × Manager)
  initialize s =
      let (result, s1) = map_region s in
      if s.running then done (Expected.ok tt, s) else elim result [
        | unexpected e ↦ done (Expected.unexpected e, s1)
        | ok _ ↦ do s2 ← initialize_header s1; done (Expected.ok tt, s2)
      ]

-- `run_self_test`: an `int` is the low half of its word. The result is whether the test passed; if
-- not the program exits.
module _ (os : Os) where
  unfoldable pub run_self_test : Manager → Outcome (Bool × Manager)
  run_self_test s = elim (get_ghost_ptr s (512 * 1024 * 1024 * 1024)) [
    | unexpected e ↦ done (false, s)
    | ok magic_ptr ↦ do
      (old, s1) ← load os s magic_ptr
      s2 ← store os s1 magic_ptr (old / 2 ^ 32 * 2 ^ 32 + 9999)
      (new, s3) ← load os s2 magic_ptr
      done (new % 2 ^ 32 == 9999, s3)
  ]

-- `shutdown`: unmapping closes every page. The base address stays.
unfoldable pub shutdown : Manager → Manager
shutdown s =
    if not s.running
    then s
    else if not (s.base_addr == map_failed) && not (s.base_addr == nullptr)
    then record s { running = false; open_pages = [] }
    else record s { running = false }
