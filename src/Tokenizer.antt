-- ===== src/Tokenizer.antt =====
-- include/core/Tokenizer.hpp and src/core/Tokenizer.cpp: text into counted terms, and the vocabulary
-- that numbers them. A character is its byte; a map is an association list with one entry for a key.
pub mod Vocab
pub mod Words
pub mod Load
use hyperion_euntime_environ.Base.{
  ℕ, zero, suc, ◌+◌, ◌%◌, ◌^◌, Bool, true, false, ◌&&◌, ◌||◌, not, Option, none, some, List, [],
  ◌∷◌, ◌++◌, leb, ltb, ◌==◌, if◌then◌else◌, length, get_elem?, set, replicate,
}

abbrev pub Token : Type 0
Token = List ℕ

abbrev pub token_eq : Token → Token → Bool
token_eq [] [] = true
token_eq [] (d ∷ t) = false
token_eq (c ∷ s) [] = false
token_eq (c ∷ s) (d ∷ t) = (c == d) && token_eq s t

abbrev pub is_empty : Token → Bool
is_empty [] = true
is_empty (c ∷ s) = false

-- `std::isalnum` and `std::tolower` in the C locale.
abbrev is_upper : ℕ → Bool
is_upper c = leb 65 c && leb c 90

unfoldable pub is_alnum : ℕ → Bool
is_alnum c = (leb 48 c && leb c 57) || (is_upper c || (leb 97 c && leb c 122))

unfoldable pub to_lower : ℕ → ℕ
to_lower c = if is_upper c then c + 32 else c

-- `m_vocab`
abbrev pub Vocab : Type 0
Vocab = List (Token × ℕ)

abbrev pub find : Vocab → Token → Option ℕ
find [] s = none
find ((t, id) ∷ rest) s = let found = find rest s in if token_eq t s then some id else found

-- `m[s] = id`
abbrev pub assign : Vocab → Token → ℕ → Vocab
assign [] s id = (s, id) ∷ []
assign ((t, old) ∷ rest) s id =
    let assigned = assign rest s id in if token_eq t s then (t, id) ∷ rest else (t, old) ∷ assigned

-- `TermID`, a uint32_t.
abbrev pub term_id : ℕ → ℕ
term_id n = n % 2 ^ 32

-- `Tokenizer`
pub record Tokenizer : Type 0 where
  pub stopwords : List Token
  pub vocab : Vocab
  pub inverse_vocab : List Token
  pub next_term_id : ℕ

-- The basic stop words, "the" to "i".
abbrev stops : List Token
stops =
    (116 ∷ 104 ∷ 101 ∷ [])
    ∷ (111 ∷ 102 ∷ [])
    ∷ (97 ∷ 110 ∷ 100 ∷ [])
    ∷ (97 ∷ [])
    ∷ (116 ∷ 111 ∷ [])
    ∷ (105 ∷ 110 ∷ [])
    ∷ (105 ∷ 115 ∷ [])
    ∷ (121 ∷ 111 ∷ 117 ∷ [])
    ∷ (116 ∷ 104 ∷ 97 ∷ 116 ∷ [])
    ∷ (105 ∷ 116 ∷ [])
    ∷ (104 ∷ 101 ∷ [])
    ∷ (119 ∷ 97 ∷ 115 ∷ [])
    ∷ (102 ∷ 111 ∷ 114 ∷ [])
    ∷ (111 ∷ 110 ∷ [])
    ∷ (97 ∷ 114 ∷ 101 ∷ [])
    ∷ (97 ∷ 115 ∷ [])
    ∷ (119 ∷ 105 ∷ 116 ∷ 104 ∷ [])
    ∷ (104 ∷ 105 ∷ 115 ∷ [])
    ∷ (116 ∷ 104 ∷ 101 ∷ 121 ∷ [])
    ∷ (105 ∷ [])
    ∷ []

-- The constructor.
abbrev pub created : Tokenizer
created = record { stopwords = stops; vocab = []; inverse_vocab = []; next_term_id = 1 }

abbrev pub contains : List Token → Token → Bool
contains [] s = false
contains (t ∷ rest) s = token_eq t s || contains rest s

unfoldable is_stop_word : Tokenizer → Token → Bool
is_stop_word t s = contains t.stopwords s

-- `resize` to a size that is not smaller: the new strings are empty.
abbrev pub resize_up : List Token → ℕ → List Token
resize_up [] n = replicate n []
resize_up (s ∷ rest) zero = s ∷ rest
resize_up (s ∷ rest) (suc n) = s ∷ resize_up rest n

-- The term gets the next id, in both directions.
unfoldable pub add_term : Tokenizer → Token → Tokenizer
add_term t s =
    let id = t.next_term_id in
    let room =
      if leb (length t.inverse_vocab) id
      then resize_up t.inverse_vocab (term_id (id + 100))
      else t.inverse_vocab in
    record t {
      vocab = assign t.vocab s id;
      inverse_vocab = set room id s;
      next_term_id = term_id (id + 1);
    }

-- `m_vocab[s]`: a missing key would get the id 0.
abbrev pub lookup : Vocab → Token → ℕ
lookup v s = elim (find v s) [ none ↦ 0 | some id ↦ id ]

unfoldable pub get_term_id : Tokenizer → Token → ℕ × Tokenizer
unfolding add_term
get_term_id t s = elim (find t.vocab s) [
  | none ↦ (lookup (add_term t s).vocab s, add_term t s)
  | some id ↦ (id, t)
]

-- "UNKNOWN"
abbrev pub unknown : Token
unknown = 85 ∷ 78 ∷ 75 ∷ 78 ∷ 79 ∷ 87 ∷ 78 ∷ []

unfoldable pub get_term_string : Tokenizer → ℕ → Token
get_term_string t id = elim (get_elem? t.inverse_vocab id) [ none ↦ unknown | some s ↦ s ]

-- The loop of `SetVocab` from index `i` on.
abbrev pub set_vocab_from : ℕ → List Token → Tokenizer → Tokenizer
set_vocab_from i [] t = t
set_vocab_from i (s ∷ rest) t = set_vocab_from (suc i) rest (
    if is_empty s then t else record t {
      vocab = assign t.vocab s (term_id i);
      next_term_id = if leb t.next_term_id i then term_id (i + 1) else t.next_term_id;
    })

-- Index 0 is passed over.
unfoldable pub set_vocab : Tokenizer → List Token → Tokenizer
set_vocab t [] = record t { inverse_vocab = []; vocab = []; next_term_id = 1 }
set_vocab t (s ∷ rest) =
    set_vocab_from 1 rest (record t { inverse_vocab = s ∷ rest; vocab = []; next_term_id = 1 })

-- `counts`, and `counts[id]++` on an int that stays below 2 ^ 31.
abbrev pub Counts : Type 0
Counts = List (ℕ × ℕ)

abbrev increment : Counts → ℕ → Counts
increment [] id = (id, 1) ∷ []
increment ((k, n) ∷ rest) id =
    let incremented = increment rest id in
    if k == id then (k, n + 1) ∷ rest else (k, n) ∷ incremented

abbrev pub State : Type 0
State = Counts × Tokenizer

unfoldable pub process_token : State → Token → State
unfolding get_term_id is_stop_word
process_token (counts, t) s =
    let (id, t') = get_term_id t s in
    if is_stop_word t s then (counts, t) else (increment counts id, t')

-- The loop over the characters, with the token read so far.
unfoldable pub scan : State → Token → List ℕ → State
unfolding process_token
scan st token [] = if is_empty token then st else process_token st token
scan st token (c ∷ text) =
    if is_alnum c
    then scan st (token ++ to_lower c ∷ []) text
    else scan (if is_empty token then st else process_token st token) [] text

unfoldable pub tokenize : Tokenizer → List ℕ → State
unfolding scan
tokenize t text = scan ([], t) [] text
