-- ===== src/ProcessingUnit/CommandLine.antt =====
-- What the command line sets.
use hyperion_euntime_environ.Base.{
  ◌≡◌, refl, sym, ap, ap₂, ◌∙◌, Bool, true, false, ◌||◌, List, [], ◌∷◌, Bool-cases, inl, inr,
}
use hyperion_euntime_environ.Tokenizer.{token_eq, contains}
use hyperion_euntime_environ.Tokenizer.Vocab.{token_eq-eq}
use hyperion_euntime_environ.ProcessingUnit.{
  Text, Config, reset_flag, status_flag, parse_arguments, parse_engine_cli,
}

or_true : (b : Bool) → b || true ≡ true
or_true true = refl
or_true false = refl

or_false : (b : Bool) → b || false ≡ b
or_false true = refl
or_false false = refl

-- The two flags are different arguments.
reset-ne-status : (arg : Text) → token_eq arg reset_flag ≡ true → token_eq arg status_flag ≡ false
reset-ne-status arg h = ap (λ (t : Text). token_eq t status_flag) (token_eq-eq arg reset_flag h)

abbrev flags : Config → Bool → Bool → Config
flags config r s = record config { reset_db = r; show_status = s }

parse_arguments-eq :
    (config : Config) (args : List Text)
    → parse_arguments config args ≡ record config {
      reset_db = config.reset_db || contains args reset_flag;
      show_status = config.show_status || contains args status_flag;
    }
parse_arguments-eq config [] =
    ap₂ (flags config) (sym (or_false config.reset_db)) (sym (or_false config.show_status))
parse_arguments-eq config (arg ∷ rest) = elim (Bool-cases (token_eq arg reset_flag)) [
  | inl reset ↦
      rw (reset, reset-ne-status arg reset)
        (parse_arguments-eq (record config { reset_db = true }) rest
          ∙ ap (λ (r : Bool). flags config r (config.show_status || contains rest status_flag))
              (sym (or_true config.reset_db)))
  | inr other ↦ elim (Bool-cases (token_eq arg status_flag)) [
    | inl status ↦
        rw (other, status)
          (parse_arguments-eq (record config { show_status = true }) rest
            ∙ ap (flags config (config.reset_db || contains rest reset_flag))
                (sym (or_true config.show_status)))
    | inr neither ↦ rw (other, neither) (parse_arguments-eq config rest)
  ]
]

-- The command line resets the database exactly if some argument is --reset and shows the status
-- exactly if some argument is --status, whatever the order and the other arguments; debug mode
-- stays off.
pub parse_engine_cli-eq :
    (args : List Text)
    → parse_engine_cli args ≡ record {
      reset_db = contains args reset_flag;
      show_status = contains args status_flag;
      debug_mode = false;
    }
unfolding parse_engine_cli
parse_engine_cli-eq args =
    parse_arguments-eq (record { reset_db = false; show_status = false; debug_mode = false }) args
