-- ===== src/Program/SelfTest.antt =====
-- `run_self_test` of src/mm/MemoryManager.cpp, which src/main.cpp calls, on a region that is served.
use hyperion_euntime_environ.Base.{
  ℕ, ◌+◌, ◌*◌, ◌/◌, ◌%◌, ◌^◌, ◌≡◌, ◌≢◌, refl, ap, ◌∙◌, Bool, true, false, ◌==◌, if◌then◌else◌,
  arith,
}
use hyperion_euntime_environ.MemoryManager.{
  Os, Manager, Outcome, done, ◌>>=◌, Expected, ok, unexpected, touch, load, store, get_ghost_ptr,
  run_self_test,
}
use hyperion_euntime_environ.MemoryManager.Fault.{>>=-eq-done}
use hyperion_euntime_environ.Document.Bytes.{IsServed, same-IsServed}
use hyperion_euntime_environ.Document.Commit.{load-Served, store-Served}

module _ (os : Os) where
  touch-running : (s t : Manager) (addr : ℕ) → touch os s addr ≡ done t → t.running ≡ s.running
  unfolding touch
  touch-running s t addr e = ground arith

  load-running : (s t : Manager) (addr v : ℕ) → load os s addr ≡ done (v, t) → t.running ≡ s.running
  unfolding load
  load-running s t addr v e =
      let (u, p, q) = >>=-eq-done (touch os s addr) (λ n. done (n.memory addr, n)) e in
      ground (arith, touch-running s u addr p)

  store-running : (s t : Manager) (addr v : ℕ) → store os s addr v ≡ done t → t.running ≡ s.running
  unfolding store
  store-running s t addr v e =
      let (u, p, q) =
        >>=-eq-done (touch os s addr)
          (λ n. done (record n { memory = λ a. if a == addr then v else n.memory a })) e in
      ground (arith, touch-running s u addr p)

  abbrev half : ℕ
  half = 512 * 1024 * 1024 * 1024

  wrapped : (s : Manager) → IsServed os s → (s.base_addr + half) % 2 ^ 64 ≡ s.base_addr + half
  wrapped s v = omega (arith, v.fits)

  pointer-eq :
      (s : Manager) → IsServed os s → get_ghost_ptr s half ≡ Expected.ok (s.base_addr + half)
  unfolding get_ghost_ptr
  pointer-eq s v = ground (arith, v.mapped, wrapped s v)

  pub self_test_passes :
      (s : Manager)
      → IsServed os s
      → (t : Manager) × (run_self_test os s ≡ done (true, t))
        × (t.base_addr ≡ s.base_addr)
        × (t.running ≡ s.running)
        × ((w : ℕ) → w ≢ s.base_addr + half → t.memory w ≡ s.memory w)
  unfolding run_self_test
  self_test_passes s v =
      let b = s.base_addr in
      let p = b + half in
      let rewritten = s.memory p / 2 ^ 32 * 2 ^ 32 + 9999 in
      let (s1, e1, b1, w1) = load-Served os b s half v refl (omega arith) in
      let v1 = same-IsServed os s s1 b1 v in
      let (s2, e2, b2, w2) = store-Served os b s1 half v1 b1 (omega arith) rewritten in
      let v2 = same-IsServed os s s2 b2 v in
      let (s3, e3, b3, w3) = load-Served os b s2 half v2 b2 (omega arith) in
      let passed : (s2.memory p % 2 ^ 32 == 9999) ≡ true = ground (arith, w2 p) in
      (
        s3,
        ap from_pointer (pointer-eq s v)
            ∙ ap (λ (o : Outcome (ℕ × Manager)). o >>= after_load p) e1
            ∙ ap (λ (o : Outcome Manager). o >>= last_load p) e2
            ∙ ap (λ (o : Outcome (ℕ × Manager)). o >>= verdict) e3
            ∙ ap (λ (q : Bool). done (q, s3)) passed,
        b3,
        load-running s2 s3 p (s2.memory p) e3
            ∙ store-running s1 s2 p rewritten e2
            ∙ load-running s s1 p (s.memory p) e1,
        λ w ne. ap (λ (g : ℕ → ℕ). g w) w3 ∙ ground (arith, w2 w, ne) ∙ ap (λ (g : ℕ → ℕ). g w) w1,
      )
    where
      verdict : ℕ × Manager → Outcome (Bool × Manager)
      verdict r = done (r.0 % 2 ^ 32 == 9999, r.1)

      last_load : ℕ → Manager → Outcome (Bool × Manager)
      last_load p n = load os n p >>= verdict

      after_load : ℕ → ℕ × Manager → Outcome (Bool × Manager)
      after_load p r = store os (r.1) p (r.0 / 2 ^ 32 * 2 ^ 32 + 9999) >>= last_load p

      from_pointer : Expected ℕ → Outcome (Bool × Manager)
      from_pointer x = elim x [
        | unexpected e ↦ done (false, s)
        | ok p ↦ load os s p >>= after_load p
      ]
