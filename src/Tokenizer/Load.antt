-- ===== src/Tokenizer/Load.antt =====
-- What `SetVocab` makes of a list of terms.
use hyperion_euntime_environ.Base.{
  ℕ, suc, ◌+◌, ◌^◌, ◌<◌, ◌≤◌, ◌≡◌, ◌⊎◌, refl, ap, sym, subst, ◌∙◌, inl, inr, true, false, some,
  of_some, List, [], ◌∷◌, leb, if◌then◌else◌, length, get_elem?, get_elem?-inside, Bool-cases,
  dec_lt, arith,
}
use hyperion_euntime_environ.Tokenizer.{
  Token, Tokenizer, token_eq, is_empty, find, assign, term_id, set_vocab_from, set_vocab,
}
use hyperion_euntime_environ.Tokenizer.Vocab.{
  IsValid, token_eq_refl, token_eq-eq, find-assign_self, find-assign_ne,
}

-- The terms of the list before an index are loaded.
record Loaded (l : List Token) (i : ℕ) (t : Tokenizer) : Type 0 where
  inverse : t.inverse_vocab ≡ l
  next_le : t.next_term_id ≤ i
  below : (s : Token) (id : ℕ) → find t.vocab s ≡ some id → id < t.next_term_id
  named : (s : Token) (id : ℕ) → find t.vocab s ≡ some id → get_elem? l id ≡ some s
  latest :
      (s : Token) (j : ℕ)
      → 1 ≤ j
      → j < i
      → get_elem? l j ≡ some s
      → is_empty s ≡ false
      → (id : ℕ) × (find t.vocab s ≡ some id) × (j ≤ id)

abbrev load_one : Tokenizer → ℕ → Token → Tokenizer
load_one t i s = record t {
  vocab = assign t.vocab s (term_id i);
  next_term_id = if leb t.next_term_id i then term_id (i + 1) else t.next_term_id;
}

module _ (l : List Token) (i : ℕ) (t : Tokenizer) (s : Token) (k : Loaded l i t)
    (here : get_elem? l i ≡ some s) (small : i + 1 < 2 ^ 32) where
  find_loaded :
      (u : Token) (id : ℕ)
      → find (load_one t i s).vocab u ≡ some id
      → ((s ≡ u) × (id ≡ i)) ⊎ (find t.vocab u ≡ some id)
  find_loaded u id h = elim (Bool-cases (token_eq s u)) [
    | inl same ↦
        let e = token_eq-eq s u same in
        inl (
          e,
          of_some (
                sym h
                ∙ ap (find (load_one t i s).vocab) (sym e)
                ∙ find-assign_self t.vocab s (term_id i))
              ∙ omega (arith, small),
        )
    | inr other ↦ inr (sym (find-assign_ne t.vocab s u (term_id i) other) ∙ h)
  ]

  load_one-Loaded : Loaded l (suc i) (load_one t i s)
  load_one-Loaded = record {
    inverse = k.inverse;
    next_le = ground (arith, k.next_le, small);
    below = λ u id h. elim (find_loaded u id h) [
      | inl (e, at) ↦ ground (arith, k.next_le, small, at)
      | inr old ↦ ground (arith, k.next_le, small, k.below u id old)
    ];
    named = λ u id h. elim (find_loaded u id h) [
      | inl (e, at) ↦ ap (get_elem? l) at ∙ here ∙ ap some e
      | inr old ↦ k.named u id old
    ];
    latest = λ u j one lt at full. elim (Bool-cases (token_eq s u)) [
      | inl same ↦ (
        i,
        ap (find (load_one t i s).vocab) (sym (token_eq-eq s u same))
            ∙ find-assign_self t.vocab s (term_id i)
            ∙ ap some (omega (arith, small)),
        omega (arith, lt),
      )
      | inr other ↦ elim (dec_lt j i) [
        | yes before ↦
            let (id, found, le) = k.latest u j one before at full in
            (id, find-assign_ne t.vocab s u (term_id i) other ∙ found, le)
        | no last ↦
            let e = of_some (sym here ∙ ap (get_elem? l) (omega arith) ∙ at) in
            let same = ap (token_eq s) (sym e) ∙ token_eq_refl s in
            absurd (ground (arith, same, other))
      ]
    ];
  }

skip_empty :
    (l : List Token) (i : ℕ) (t : Tokenizer) (s : Token)
    → Loaded l i t
    → get_elem? l i ≡ some s
    → is_empty s ≡ true
    → Loaded l (suc i) t
skip_empty l i t s k here empty = record {
  inverse = k.inverse;
  next_le = omega (arith, k.next_le);
  below = k.below;
  named = k.named;
  latest = λ u j one lt at full. elim (dec_lt j i) [
    | yes before ↦ k.latest u j one before at full
    | no last ↦
        let e = of_some (sym here ∙ ap (get_elem? l) (omega arith) ∙ at) in
        absurd (ground (arith, ap is_empty e, empty, full))
  ];
}

-- The loop loads the rest of the list.
set_vocab_from-Loaded :
    (l : List Token) (i : ℕ) (rest : List Token) (t : Tokenizer)
    → ((j : ℕ) → get_elem? l (i + j) ≡ get_elem? rest j)
    → i + length rest < 2 ^ 32
    → Loaded l i t
    → Loaded l (i + length rest) (set_vocab_from i rest t)
set_vocab_from-Loaded l i [] t tail small k = subst (λ (n : ℕ). Loaded l n t) (omega arith) k
set_vocab_from-Loaded l i (s ∷ rest) t tail small k =
    subst (λ (n : ℕ). Loaded l n (set_vocab_from i (s ∷ rest) t)) (omega arith)
      (set_vocab_from-Loaded l (suc i) rest (if is_empty s then t else load_one t i s)
        (λ j. ap (get_elem? l) (omega arith) ∙ tail (suc j)) (omega arith) one)
  where
    here : get_elem? l i ≡ some s
    here = ap (get_elem? l) (omega arith) ∙ tail 0

    one : Loaded l (suc i) (if is_empty s then t else load_one t i s)
    one = elim (Bool-cases (is_empty s)) [
      | inl empty ↦ rw empty (skip_empty l i t s k here empty)
      | inr full ↦ rw full (load_one-Loaded l i t s k here (omega arith))
    ]

set_vocab-Loaded :
    (t : Tokenizer) (l : List Token)
    → length l + 1 < 2 ^ 32
    → (n : ℕ) × (length l ≤ n) × Loaded l n (set_vocab t l)
unfolding set_vocab
set_vocab-Loaded t [] small = (
  1,
  omega arith,
  record {
    inverse = refl;
    next_le = omega arith;
    below = λ s id h. ground (arith, h);
    named = λ s id h. ground (arith, h);
    latest = λ s j one lt at full. absurd (omega (arith, one, lt));
  },
)
set_vocab-Loaded t (s ∷ rest) small = (
  1 + length rest,
  omega arith,
  set_vocab_from-Loaded (s ∷ rest) 1 rest
      (record t { inverse_vocab = s ∷ rest; vocab = []; next_term_id = 1 })
      (λ j. ap (get_elem? (s ∷ rest)) {y = suc j} (omega arith)) (omega arith)
      (record {
        inverse = refl;
        next_le = omega arith;
        below = λ u id h. ground (arith, h);
        named = λ u id h. ground (arith, h);
        latest = λ u j one lt at full. absurd (omega (arith, one, lt));
      }),
)

-- `SetVocab` of a list of fewer than 2 ^ 32 - 1 terms makes a valid vocabulary, whatever it was
-- before.
pub set_vocab-IsValid :
    (t : Tokenizer) (l : List Token) → length l + 1 < 2 ^ 32 → IsValid (set_vocab t l)
set_vocab-IsValid t l small =
    let (n, le, k) = set_vocab-Loaded t l small in
    record {
      below = k.below;
      named = λ s id h. ap (λ (inv : List Token). get_elem? inv id) k.inverse ∙ k.named s id h;
    }

-- After `SetVocab` of a list of fewer than 2 ^ 32 - 1 terms, each nonempty term at an index from 1
-- on has a number, which is an index where the list has this term, no earlier than the given one.
pub set_vocab-find :
    (t : Tokenizer) (l : List Token) (j : ℕ) (s : Token)
    → length l + 1 < 2 ^ 32
    → get_elem? l (suc j) ≡ some s
    → is_empty s ≡ false
    → (id : ℕ) × (find (set_vocab t l).vocab s ≡ some id) × (get_elem? l id ≡ some s) × (suc j ≤ id)
set_vocab-find t l j s small at full =
    let (n, le, k) = set_vocab-Loaded t l small in
    let (id, found, later) = k.latest s (suc j) (omega arith) (omega (arith, inside, le)) at full in
    (id, found, k.named s id found, later)
  where
    inside : suc j < length l
    inside = get_elem?-inside l (suc j) s at
