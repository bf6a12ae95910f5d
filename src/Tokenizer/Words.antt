-- ===== src/Tokenizer/Words.antt =====
-- The scanner of `Tokenize` against the words of a text.
use hyperion_euntime_environ.Base.{
  ℕ, ◌≡◌, refl, ap, sym, ◌∙◌, List, [], ◌∷◌, ◌++◌, map, append-nil, append_assoc, if◌then◌else◌,
  inl, inr, Bool-cases,
}
use hyperion_euntime_environ.Tokenizer.{
  Token, State, Tokenizer, is_empty, is_alnum, to_lower, process_token, scan, tokenize,
}

-- The pieces of the text between the other characters, at least one. An empty piece stands between
-- two of them that are adjacent.
abbrev push_head : ℕ → List Token → List Token
push_head c [] = (c ∷ []) ∷ []
push_head c (piece ∷ rest) = (c ∷ piece) ∷ rest

abbrev pub pieces : List ℕ → List Token
pieces [] = [] ∷ []
pieces (c ∷ text) = let later = pieces text in if is_alnum c then push_head c later else [] ∷ later

abbrev pub nonempty : List Token → List Token
nonempty [] = []
nonempty (s ∷ rest) = let later = nonempty rest in if is_empty s then later else s ∷ later

abbrev pub words : List ℕ → List Token
words text = map (map to_lower) (nonempty (pieces text))

abbrev pub process_all : State → List Token → State
process_all st [] = st
process_all st (s ∷ rest) = process_all (process_token st s) rest

-- What is left to process when a token was begun: the first piece continues it.
abbrev resume : Token → List Token → List Token
resume token [] = nonempty (token ∷ [])
resume token (piece ∷ rest) = nonempty ((token ++ map to_lower piece) ∷ map (map to_lower) rest)

nonempty-map : (l : List Token) → map (map to_lower) (nonempty l) ≡ nonempty (map (map to_lower) l)
nonempty-map [] = refl
nonempty-map ([] ∷ l) = nonempty-map l
nonempty-map ((c ∷ s) ∷ l) = ap (λ (r : List Token). map to_lower (c ∷ s) ∷ r) (nonempty-map l)

resume-nil : (l : List Token) → resume [] l ≡ nonempty (map (map to_lower) l)
resume-nil [] = refl
resume-nil (s ∷ l) = refl

resume-push :
    (token : Token) (c : ℕ) (l : List Token)
    → resume token (push_head c l) ≡ resume (token ++ to_lower c ∷ []) l
resume-push token c [] = refl
resume-push token c (s ∷ l) =
    ap (λ (t : Token). nonempty (t ∷ map (map to_lower) l))
      (sym (append_assoc token (to_lower c ∷ []) (map to_lower s)))

process_nonempty :
    (st : State) (token : Token) (l : List Token)
    → process_all st (nonempty (token ∷ l))
      ≡ process_all (if is_empty token then st else process_token st token) (nonempty l)
process_nonempty st [] l = refl
process_nonempty st (c ∷ s) l = refl

scan-eq :
    (st : State) (token : Token) (text : List ℕ)
    → scan st token text ≡ process_all st (resume token (pieces text))
unfolding scan
scan-eq st token [] =
    sym (process_nonempty st token [])
    ∙ ap (λ (s : Token). process_all st (nonempty (s ∷ []))) (sym (append-nil token))
scan-eq st token (c ∷ text) = elim (Bool-cases (is_alnum c)) [
  | inl word ↦
      rw (word, scan, pieces)
        (scan-eq st (token ++ to_lower c ∷ []) text
          ∙ ap (process_all st) (sym (resume-push token c (pieces text))))
  | inr gap ↦
      rw (gap, scan, pieces)
        (scan-eq (if is_empty token then st else process_token st token) [] text
          ∙ ap (process_all (if is_empty token then st else process_token st token))
              (resume-nil (pieces text))
          ∙ sym (process_nonempty st token (map (map to_lower) (pieces text)))
          ∙ ap (λ (s : Token). process_all st (nonempty (s ∷ map (map to_lower) (pieces text))))
              (sym (append-nil token)))
]

-- `Tokenize` processes the words of the text in order, for any text and vocabulary: the runs of
-- letters and digits between the other characters, in lower case.
pub tokenize-words :
    (t : Tokenizer) (text : List ℕ) → tokenize t text ≡ process_all ([], t) (words text)
unfolding tokenize
tokenize-words t text =
    scan-eq ([], t) [] text
    ∙ ap (process_all ([], t)) (resume-nil (pieces text) ∙ sym (nonempty-map (pieces text)))
