-- ===== src/InputIngest/Changes.antt =====
-- The texts that src/core/InputIngest.cpp hands on, over many calls.
use hyperion_euntime_environ.Base.{
  ℕ, ◌+◌, ◌-◌, ◌*◌, ◌/◌, ◌≤◌, ◌≡◌, ◌≢◌, refl, ap, sym, ◌∙◌, subst, true, false, Option, none, some,
  List, [], ◌∷◌, ltb, ◌==◌, length, arith, Bool-cases, inl, inr, ◌⊎◌,
}
use hyperion_euntime_environ.Monitor.{same_bytes}
use hyperion_euntime_environ.InputIngest.{Clipboard, read_all, changed, ask, check}

-- A call: the time, and what the child process writes.
abbrev pub Call : Type 0
Call = ℕ × Option (List (List ℕ))

-- What some calls hand on, each text with the time of its call.
abbrev hand_on : ℕ → Option (List ℕ) → List (ℕ × List ℕ) → List (ℕ × List ℕ)
hand_on now none rest = rest
hand_on now (some t) rest = (now, t) ∷ rest

unfoldable pub texts : List Call → Clipboard → List (ℕ × List ℕ)
texts [] s = []
texts ((now, pipe) ∷ calls) s =
    let (text, s') = check now pipe s in hand_on now text (texts calls s')

-- Each text is not empty, is another than the one before it, and comes 200 ms after it or later.
abbrev pub AreChanges : ℕ → List ℕ → List (ℕ × List ℕ) → Type 0
AreChanges before last [] = Unit {0}
AreChanges before last ((now, t) ∷ rest) =
    (before + 200 * 1000000 ≤ now) × (t ≢ []) × (t ≢ last) × AreChanges now t rest

-- The changes of texts that come after a later time.
later-AreChanges :
    (early late : ℕ) (last : List ℕ) (ts : List (ℕ × List ℕ))
    → early ≤ late
    → AreChanges late last ts
    → AreChanges early last ts
later-AreChanges early late last [] h c = tt
later-AreChanges early late last ((now, t) ∷ rest) h c = (omega (arith, c.0), c.1, c.2, c.3)

same_bytes_refl : (xs : List ℕ) → same_bytes xs xs ≡ true
same_bytes_refl [] = refl
same_bytes_refl (x ∷ xs) = ground (arith, same_bytes_refl xs)

-- What one call does.
abbrev Quiet : Clipboard → Option (List ℕ) × Clipboard → Type 0
Quiet s r = (r.0 ≡ none) × (r.1.last_clip ≡ s.last_clip) × (s.last_check ≤ r.1.last_check)

abbrev Told : ℕ → Clipboard → Option (List ℕ) × Clipboard → Type 0
Told now s r =
    (t : List ℕ) × (r.0 ≡ some t)
    × (r.1.last_clip ≡ t)
    × (r.1.last_check ≡ now)
    × (s.last_check + 200 * 1000000 ≤ now)
    × (t ≢ [])
    × (t ≢ s.last_clip)

not_empty : (xs : List ℕ) → (length xs == 0) ≡ false → xs ≢ []
not_empty [] h e = cc
not_empty (x ∷ xs) h e = cc

not_same : (xs ys : List ℕ) → same_bytes xs ys ≡ false → xs ≢ ys
not_same xs ys h e =
    let same : same_bytes xs ys ≡ true =
      ap (λ (zs : List ℕ). same_bytes xs zs) (sym e) ∙ same_bytes_refl xs in
    cc

module _ (now : ℕ) (s : Clipboard) where
  abbrev asked : Clipboard
  asked = record s { last_check = now }

  changed-outcome :
      (result : List ℕ)
      → s.last_check + 200 * 1000000 ≤ now
      → Quiet s (changed result asked) ⊎ Told now s (changed result asked)
  unfolding changed
  changed-outcome result late = elim (Bool-cases (length result == 0)) [
    | inl e ↦ rw e (inl (refl, refl, omega arith))
    | inr n ↦ rw n (elim (Bool-cases (same_bytes result s.last_clip)) [
      | inl e ↦ rw e (inl (refl, refl, omega arith))
      | inr m ↦
          rw m (
            inr (result, refl, refl, refl, late, not_empty result n, not_same result s.last_clip m))
    ])
  ]

  ask-outcome :
      (pipe : Option (List (List ℕ)))
      → s.last_check + 200 * 1000000 ≤ now
      → Quiet s (ask pipe asked) ⊎ Told now s (ask pipe asked)
  unfolding ask
  ask-outcome none late = inl (refl, refl, omega arith)
  ask-outcome (some buffers) late = changed-outcome (read_all buffers) late

  check-outcome :
      (pipe : Option (List (List ℕ))) → Quiet s (check now pipe s) ⊎ Told now s (check now pipe s)
  unfolding check
  check-outcome pipe = elim (Bool-cases (ltb ((now - s.last_check) / 1000000) 200)) [
    | inl early ↦ rw early (inl (refl, refl, omega arith))
    | inr late ↦ rw late (ask-outcome pipe (ground arith))
  ]

-- Over any calls of `check`, each text that is handed on is not empty, is another than the one
-- before it, and comes 200 ms after it or later.
pub texts-AreChanges :
    (calls : List Call) (s : Clipboard) → AreChanges s.last_check s.last_clip (texts calls s)
unfolding texts
texts-AreChanges [] s = tt
texts-AreChanges ((now, pipe) ∷ calls) s =
    let s' = (check now pipe s).1 in
    let rest = texts-AreChanges calls s' in
    let Goal = λ (o : Option (List ℕ)).
      AreChanges s.last_check s.last_clip (hand_on now o (texts calls s')) in
    elim (check-outcome now s pipe) [
      | inl (silent, clip, later) ↦ subst Goal (sym silent) (
          later-AreChanges s.last_check s'.last_check s.last_clip (texts calls s') later
            (subst (λ l. AreChanges s'.last_check l (texts calls s')) clip rest))
      | inr (t, told, clip, time, late, full, other) ↦ subst Goal (sym told) (
        late,
        full,
        other,
        subst (λ l. AreChanges now l (texts calls s')) clip
            (subst (λ n. AreChanges n s'.last_clip (texts calls s')) time rest),
      )
    ]
