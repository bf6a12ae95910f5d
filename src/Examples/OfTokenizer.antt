-- ===== src/Examples/OfTokenizer.antt =====
-- src/core/Tokenizer.cpp on a vocabulary of two terms and a text of two words.
use hyperion_euntime_environ.Base.{ℕ, ◌≡◌, List, [], ◌∷◌, arith}
use hyperion_euntime_environ.Tokenizer.{
  Token, Tokenizer, created, get_term_id, get_term_string, set_vocab, tokenize,
}
use hyperion_euntime_environ.Tokenizer.Vocab.{IsValid, get_term_string-get_term_id}
use hyperion_euntime_environ.Tokenizer.Load.{set_vocab-IsValid}
use hyperion_euntime_environ.Tokenizer.Words.{process_all, words, tokenize-words}

abbrev cpu_term : Token
cpu_term = 99 ∷ 112 ∷ 117 ∷ []

abbrev new_term : Token
new_term = 106 ∷ 105 ∷ 116 ∷ []

-- The term at 1 comes again at 3.
abbrev saved : List Token
saved = [] ∷ cpu_term ∷ [] ∷ cpu_term ∷ []

abbrev loaded : Tokenizer
loaded = record (created) { vocab = (cpu_term, 3) ∷ []; inverse_vocab = saved; next_term_id = 4 }

loaded-IsValid : IsValid loaded
unfolding set_vocab
loaded-IsValid = set_vocab-IsValid created saved (omega arith)

get_term_string-get_term_id_example :
    get_term_string (get_term_id loaded new_term).1 (get_term_id loaded new_term).0 ≡ new_term
get_term_string-get_term_id_example =
    get_term_string-get_term_id loaded new_term loaded-IsValid (omega arith)

-- "The CPU."
abbrev text : List ℕ
text = 84 ∷ 104 ∷ 101 ∷ 32 ∷ 67 ∷ 80 ∷ 85 ∷ 46 ∷ []

tokenize-words_example : tokenize loaded text ≡ process_all ([], loaded) (words text)
tokenize-words_example = tokenize-words loaded text
