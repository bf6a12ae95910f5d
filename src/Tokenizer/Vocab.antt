-- ===== src/Tokenizer/Vocab.antt =====
-- `GetTermID` of src/core/Tokenizer.cpp and the two directions of the vocabulary.
use hyperion_euntime_environ.Base.{
  ℕ, zero, suc, ◌+◌, ◌^◌, ◌<◌, ◌≤◌, ◌≡◌, refl, ap, ap₂, sym, subst, ◌∙◌, ◌⊎◌, ◌↔◌, inl, inr, true,
  false, Option, none, some, of_some, List, [], ◌∷◌, leb, if◌then◌else◌, length, get_elem?, set,
  length-replicate, get_elem?-set_self, get_elem?-set_ne, Bool-cases, Option-cases, arith,
}
use hyperion_euntime_environ.Tokenizer.{
  Token, Vocab, Tokenizer, token_eq, find, assign, term_id, resize_up, add_term, lookup,
  get_term_id, get_term_string, unknown,
}

pub token_eq_refl : (s : Token) → token_eq s s ≡ true
token_eq_refl [] = refl
token_eq_refl (c ∷ s) = ground (arith, token_eq_refl s)

pub token_eq-eq : (s u : Token) → token_eq s u ≡ true → s ≡ u
token_eq-eq [] [] h = refl
token_eq-eq [] (d ∷ u) h = ground (arith, h)
token_eq-eq (c ∷ s) [] h = ground (arith, h)
token_eq-eq (c ∷ s) (d ∷ u) h =
    ap₂ (λ (x : ℕ) (r : Token). x ∷ r) (ground arith) (token_eq-eq s u (ground arith))

pub find-assign_self : (v : Vocab) (s : Token) (id : ℕ) → find (assign v s id) s ≡ some id
find-assign_self [] s id = rw (token_eq_refl s) refl
find-assign_self ((t, old) ∷ v) s id = ground (arith, find-assign_self v s id)

pub find-assign_ne :
    (v : Vocab) (s u : Token) (id : ℕ) → token_eq s u ≡ false → find (assign v s id) u ≡ find v u
find-assign_ne [] s u id h = rw h refl
find-assign_ne ((t, old) ∷ v) s u id h = elim (Bool-cases (token_eq t s)) [
  | inl same ↦ rw (same, ap (λ (x : Token). token_eq x u) (token_eq-eq t s same) ∙ h) refl
  | inr other ↦
      rw other
        (ap (λ (o : Option ℕ). if token_eq t u then some old else o) (find-assign_ne v s u id h))
]

get_elem?-resize_up :
    (l : List Token) (n i : ℕ) (s : Token)
    → get_elem? l i ≡ some s
    → get_elem? (resize_up l n) i ≡ some s
get_elem?-resize_up [] n i s h = ground (arith, h)
get_elem?-resize_up (t ∷ l) zero i s h = h
get_elem?-resize_up (t ∷ l) (suc n) zero s h = h
get_elem?-resize_up (t ∷ l) (suc n) (suc i) s h = get_elem?-resize_up l n i s h

length-resize_up : (l : List Token) (n : ℕ) → n ≤ length (resize_up l n)
length-resize_up [] n = omega (arith, length-replicate {A = Token} n [])
length-resize_up (t ∷ l) zero = omega arith
length-resize_up (t ∷ l) (suc n) = omega (arith, length-resize_up l n)

-- Every number the vocabulary gives out is below the next one, and names its term.
pub record IsValid (t : Tokenizer) : Type 0 where
  pub below : (s : Token) (id : ℕ) → find t.vocab s ≡ some id → id < t.next_term_id
  pub named :
      (s : Token) (id : ℕ) → find t.vocab s ≡ some id → get_elem? t.inverse_vocab id ≡ some s

module _ (t : Tokenizer) (s : Token) (v : IsValid t) (room : t.next_term_id + 100 < 2 ^ 32) where
  abbrev room_for : List Token
  room_for =
      if leb (length t.inverse_vocab) t.next_term_id
      then resize_up t.inverse_vocab (term_id (t.next_term_id + 100))
      else t.inverse_vocab

  room-length : t.next_term_id < length room_for
  room-length =
      ground (arith, room, length-resize_up t.inverse_vocab (term_id (t.next_term_id + 100)))

  room-get :
      (i : ℕ) (u : Token) → get_elem? t.inverse_vocab i ≡ some u → get_elem? room_for i ≡ some u
  room-get i u h = elim (Bool-cases (leb (length t.inverse_vocab) t.next_term_id)) [
    | inl full ↦ rw full (get_elem?-resize_up t.inverse_vocab _ i u h)
    | inr fits ↦ rw fits h
  ]

  -- The new term gets the next number, and the others keep theirs.
  find-add_self : find (add_term t s).vocab s ≡ some t.next_term_id
  unfolding add_term
  find-add_self = find-assign_self t.vocab s t.next_term_id

  find-add_old :
      (u : Token) (id : ℕ)
      → find (add_term t s).vocab u ≡ some id
      → ((s ≡ u) × (id ≡ t.next_term_id)) ⊎ ((find t.vocab u ≡ some id) × (id < t.next_term_id))
  unfolding add_term
  find-add_old u id h = elim (Bool-cases (token_eq s u)) [
    | inl same ↦
        let e = token_eq-eq s u same in
        inl (
          e,
          sym (
              of_some (
                sym (
                  subst (λ (x : Token). find (add_term t s).vocab x ≡ some t.next_term_id) e
                    find-add_self)
                ∙ h)),
        )
    | inr other ↦
        let old = sym (find-assign_ne t.vocab s u t.next_term_id other) ∙ h in
        inr (old, v.below u id old)
  ]

  add_term-IsValid : IsValid (add_term t s)
  unfolding add_term
  add_term-IsValid = record {
    below = λ u id h. elim (find-add_old u id h) [
      | inl (e, new) ↦ ground (arith, new, room)
      | inr (old, lt) ↦ ground (arith, lt, room)
    ];
    named = λ u id h. elim (find-add_old u id h) [
      | inl (e, new) ↦
          ap (get_elem? (set room_for t.next_term_id s)) new
          ∙ get_elem?-set_self room_for t.next_term_id s room-length
          ∙ ap some e
      | inr (old, lt) ↦
          get_elem?-set_ne room_for t.next_term_id id s
            (λ (e : t.next_term_id ≡ id). omega (arith, lt))
          ∙ room-get id u (v.named u id old)
    ];
  }

  add_term-keeps :
      (u : Token) (id : ℕ)
      → find t.vocab s ≡ none
      → find t.vocab u ≡ some id
      → find (add_term t s).vocab u ≡ some id
  unfolding add_term
  add_term-keeps u id fresh h = elim (Bool-cases (token_eq s u)) [
    | inl same ↦
        let old = ap (find t.vocab) (token_eq-eq s u same) ∙ h in
        absurd (ground (arith, old, fresh))
    | inr other ↦ find-assign_ne t.vocab s u t.next_term_id other ∙ h
  ]

get_term_id-new :
    (t : Tokenizer) (s : Token)
    → find t.vocab s ≡ none
    → get_term_id t s ≡ (lookup (add_term t s).vocab s, add_term t s)
unfolding get_term_id
get_term_id-new t s e = rw (e, get_term_id) refl

get_term_id-old :
    (t : Tokenizer) (s : Token) (id : ℕ) → find t.vocab s ≡ some id → get_term_id t s ≡ (id, t)
unfolding get_term_id
get_term_id-old t s id e = rw (e, get_term_id) refl

-- On a valid vocabulary, while there is room for 100 more 32-bit numbers, `GetTermID` keeps the
-- vocabulary valid and answers with the number that the vocabulary gives the token from then on.
pub get_term_id-IsValid :
    (t : Tokenizer) (s : Token)
    → IsValid t
    → t.next_term_id + 100 < 2 ^ 32
    → IsValid (get_term_id t s).1 × (find (get_term_id t s).1.vocab s ≡ some (get_term_id t s).0)
get_term_id-IsValid t s v room = elim (Option-cases (find t.vocab s)) [
  | inl e ↦ rw (get_term_id-new t s e) (add_term-IsValid t s v room, answered)
  | inr (id, e) ↦ rw (get_term_id-old t s id e) (v, e)
]
  where
    answered : find (add_term t s).vocab s ≡ some (lookup (add_term t s).vocab s)
    answered =
        let e = find-add_self t s v room in
        e ∙ sym (ap (λ (o : Option ℕ). some (elim o [ none ↦ 0 | some id ↦ id ])) e)

-- On a valid vocabulary with room for 100 more 32-bit numbers, `GetTermString` of what `GetTermID`
-- answers is the token.
pub get_term_string-get_term_id :
    (t : Tokenizer) (s : Token)
    → IsValid t
    → t.next_term_id + 100 < 2 ^ 32
    → get_term_string (get_term_id t s).1 (get_term_id t s).0 ≡ s
unfolding get_term_string
get_term_string-get_term_id t s v room =
    let (valid, found) = get_term_id-IsValid t s v room in
    ap (λ (o : Option Token). elim o [ none ↦ unknown | some u ↦ u ]) (valid.named s _ found)

-- On a valid vocabulary with room for 100 more 32-bit numbers, a term's number stays that term's
-- over a `GetTermID` of any token, and no other term has it.
pub get_term_id-keeps :
    (t : Tokenizer) (s u w : Token) (id : ℕ)
    → IsValid t
    → t.next_term_id + 100 < 2 ^ 32
    → find t.vocab u ≡ some id
    → (find (get_term_id t s).1.vocab u ≡ some id)
      × ((find (get_term_id t s).1.vocab w ≡ some id) ↔ (w ≡ u))
get_term_id-keeps t s u w id v room h =
    let (valid, found) = get_term_id-IsValid t s v room in
    (
      kept,
      (
        λ same. of_some (sym (valid.named w id same) ∙ valid.named u id kept),
        λ e. subst (λ (x : Token). find (get_term_id t s).1.vocab x ≡ some id) (sym e) kept,
      ),
    )
  where
    kept : find (get_term_id t s).1.vocab u ≡ some id
    kept = elim (Option-cases (find t.vocab s)) [
      | inl e ↦ rw (get_term_id-new t s e) (add_term-keeps t s v room u id e h)
      | inr (old, e) ↦ rw (get_term_id-old t s old e) h
    ]
