-- ===== src/Panel/Heat.antt =====
-- The heat of the blocks in `draw_ghost_map` of src/monitor/SystemMonitor.cpp, from one frame to the
-- next.
use hyperion_euntime_environ.Base.{
  dec_lt, ℕ, zero, suc, ◌-◌, ◌%◌, ◌^◌, ◌<◌, ◌≤◌, ◌≡◌, refl, ap, ◌∙◌, List, [], ◌∷◌, ltb, length,
  set, get_or, arith, ◌⊎◌, inl, inr, Bool-cases, length-set, length-map, get_or-set_self,
  get_or-set_ne, ℕ_discrete,
}
use hyperion_euntime_environ.Monitor.{fast_rand}
use hyperion_euntime_environ.Monitor.Random.{fast_rand_bound}
use hyperion_euntime_environ.Panel.{decay, ping, simmer_one, simmer, update_heat}

decay_at : (heats : List ℕ) (i : ℕ) → get_or (decay heats) i 0 ≡ get_or heats i 0 - 1
unfolding decay
decay_at [] i = refl
decay_at (h ∷ heats) zero = ground arith
decay_at (h ∷ heats) (suc i) = decay_at heats i

length-decay : (heats : List ℕ) → length (decay heats) ≡ length heats
unfolding decay
length-decay heats = length-map _ heats

length-ping : (seed : ℕ) (heats : List ℕ) → length (ping seed heats).0 ≡ length heats
unfolding ping
length-ping seed heats =
    ground (arith, length-set {0} heats (fast_rand (fast_rand seed) % length heats) 5)

ping_at :
    (seed : ℕ) (heats : List ℕ) (i : ℕ)
    → i < length heats
    → (get_or (ping seed heats).0 i 0 ≡ get_or heats i 0) ⊎ (get_or (ping seed heats).0 i 0 ≡ 5)
unfolding ping
ping_at seed heats i h =
    let j = fast_rand (fast_rand seed) % length heats in
    elim (Bool-cases (ltb (fast_rand seed % 100) 10)) [
      | inl t ↦ rw t (elim (ℕ_discrete j i) [
        | yes e ↦ inr (ap (λ (k : ℕ). get_or (set heats k 5) i 0) e ∙ get_or-set_self heats i 5 0 h)
        | no n ↦ inl (get_or-set_ne heats j i 5 0 n)
      ])
      | inr t ↦ rw t (inl refl)
    ]

simmer_one_bounds :
    (seed h : ℕ)
    → h ≤ 5
    → (1 ≤ (simmer_one seed h).0)
      × ((simmer_one seed h).0 ≤ 5)
      × (2 ≤ h → (simmer_one seed h).0 ≡ h)
unfolding simmer_one
simmer_one_bounds seed h k = (ground arith, ground arith, λ l. ground arith)

length-simmer : (n seed : ℕ) (heats : List ℕ) → length (simmer n seed heats).0 ≡ length heats
unfolding simmer
length-simmer zero seed heats = refl
length-simmer (suc n) seed [] = refl
length-simmer (suc n) seed (h ∷ heats) = ap suc (length-simmer n (simmer_one seed h).1 heats)

-- A block below the resident count stays warm, and the others keep their heat.
simmer_at :
    (n seed : ℕ) (heats : List ℕ) (i : ℕ)
    → i < length heats
    → get_or heats i 0 ≤ 5
    → (get_or (simmer n seed heats).0 i 0 ≤ 5)
      × (i < n → 1 ≤ get_or (simmer n seed heats).0 i 0)
      × (n ≤ i → get_or (simmer n seed heats).0 i 0 ≡ get_or heats i 0)
      × (2 ≤ get_or heats i 0 → get_or (simmer n seed heats).0 i 0 ≡ get_or heats i 0)
unfolding simmer
simmer_at zero seed heats i h k = (k, λ l. absurd (omega arith), λ l. refl, λ l. refl)
simmer_at (suc n) seed [] i h k = absurd (omega arith)
simmer_at (suc n) seed (x ∷ heats) zero h k =
    let (warm, bounded, hot) = simmer_one_bounds seed x k in
    (bounded, λ l. warm, λ l. absurd (omega arith), hot)
simmer_at (suc n) seed (x ∷ heats) (suc i) h k =
    let (bounded, warm, cold, hot) = simmer_at n (simmer_one seed x).1 heats i (omega arith) k in
    (bounded, λ l. warm (omega arith), λ l. cold (omega arith), hot)

-- A block's heat of 5 at most stays so over a frame, is at least 1 for a resident block, and goes
-- down by one, to 0 at least, or to 5 where the block is not resident or its heat was 3 or more.
pub update_heat_at :
    (resident seed : ℕ) (heats : List ℕ) (i : ℕ)
    → i < length heats
    → get_or heats i 0 ≤ 5
    → (get_or (update_heat resident seed heats).0 i 0 ≤ 5)
      × (i < resident → 1 ≤ get_or (update_heat resident seed heats).0 i 0)
      × (resident ≤ i
          → (get_or (update_heat resident seed heats).0 i 0 ≡ get_or heats i 0 - 1)
            ⊎ (get_or (update_heat resident seed heats).0 i 0 ≡ 5))
      × (3 ≤ get_or heats i 0
          → (get_or (update_heat resident seed heats).0 i 0 ≡ get_or heats i 0 - 1)
            ⊎ (get_or (update_heat resident seed heats).0 i 0 ≡ 5))
unfolding update_heat
update_heat_at resident seed heats i h k =
    let cooled = decay heats in
    let pinged = ping seed cooled in
    let inside : i < length cooled = omega (arith, length-decay heats) in
    let now = ping_at seed cooled i inside in
    let before = decay_at heats i in
    let (bounded, warm, cold, hot) =
      simmer_at resident pinged.1 pinged.0 i
        (omega (arith, length-ping seed cooled, length-decay heats))
        (ground (arith, now, before)) in
    (
      bounded,
      warm,
      λ l. ground (arith, cold l, now, before),
      λ l. ground (arith, hot (ground (arith, now, before)), now, before),
    )

pub length-update_heat :
    (resident seed : ℕ) (heats : List ℕ) → length (update_heat resident seed heats).0 ≡ length heats
unfolding update_heat
length-update_heat resident seed heats =
    length-simmer resident (ping seed (decay heats)).1 (ping seed (decay heats)).0
    ∙ length-ping seed (decay heats)
    ∙ length-decay heats

-- The seed stays a 32-bit word.
ping_seed : (seed : ℕ) (heats : List ℕ) → seed < 2 ^ 32 → (ping seed heats).1 < 2 ^ 32
unfolding ping
ping_seed seed heats h =
    ground
      (arith, fast_rand_bound (fast_rand seed) (fast_rand_bound seed h), fast_rand_bound seed h)

simmer_one_seed : (seed h : ℕ) → seed < 2 ^ 32 → (simmer_one seed h).1 < 2 ^ 32
unfolding simmer_one
simmer_one_seed seed h l = ground (arith, fast_rand_bound seed l)

simmer_seed : (n seed : ℕ) (heats : List ℕ) → seed < 2 ^ 32 → (simmer n seed heats).1 < 2 ^ 32
unfolding simmer
simmer_seed zero seed heats h = h
simmer_seed (suc n) seed [] h = h
simmer_seed (suc n) seed (x ∷ heats) h =
    simmer_seed n (simmer_one seed x).1 heats (simmer_one_seed seed x h)

pub update_heat_seed :
    (resident seed : ℕ) (heats : List ℕ)
    → seed < 2 ^ 32
    → (update_heat resident seed heats).1 < 2 ^ 32
unfolding update_heat
update_heat_seed resident seed heats h =
    simmer_seed resident (ping seed (decay heats)).1 (ping seed (decay heats)).0
      (ping_seed seed (decay heats) h)

-- A block's heat of 5 at most stays so over a frame and is at least 1 for a resident block; it goes
-- down by one, stopping at 0, or to 5, unless the block is resident and its heat was 2 at most.
pub update_heat-bounds :
    (resident seed : ℕ) (heats : List ℕ) (i : ℕ)
    → i < length heats
    → get_or heats i 0 ≤ 5
    → let heat = get_or (update_heat resident seed heats).0 i 0 in
      (heat ≤ 5)
      × ((resident ≤ i) ⊎ (1 ≤ heat))
      × ((heat ≡ get_or heats i 0 - 1) ⊎ ((heat ≡ 5) ⊎ ((i < resident) × (get_or heats i 0 ≤ 2))))
update_heat-bounds resident seed heats i h bound =
    let (low, lit, outside, warm) = update_heat_at resident seed heats i h bound in
    (
      low,
      elim (dec_lt i resident) [ yes r ↦ inr (lit r) | no n ↦ inl (omega (arith, n)) ],
      elim (dec_lt i resident) [
        | yes r ↦ elim (dec_lt 2 (get_or heats i 0)) [
          | yes w ↦ elim (warm (omega (arith, w))) [ inl e ↦ inl e | inr e ↦ inr (inl e) ]
          | no c ↦ inr (inr (r, omega (arith, c)))
        ]
        | no n ↦ elim (outside (omega (arith, n))) [ inl e ↦ inl e | inr e ↦ inr (inl e) ]
      ],
    )
