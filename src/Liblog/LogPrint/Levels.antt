-- ===== src/Liblog/LogPrint/Levels.antt =====
-- What the filter rules of liblog/logprint.cpp mean: a table of the least priorities that are printed.
use android_system_logging.Common.{
  ℕ, Bool, true, false, Option, none, some, List, [], ◌∷◌, length, ◌==◌, if◌then◌else◌, same_bytes,
  ◌>>=◌,
}
use android_system_logging.Liblog.LogPrint.{
  AndroidLogFormat, AndroidLogPrintFormat, set_print_format, log_unknown, log_default, log_verbose,
  log_debug, rule_pri, span_until, is_separator, add_filter_string,
}

pub data Rule : Type 0 where
  every : ℕ → Rule
  one : List ℕ → ℕ → Rule

pub record Levels : Type 0 where
  pub own : List ℕ → Option ℕ
  pub others : ℕ

abbrev pub unset : Levels
unset = record { own = λ name. none; others = log_verbose }

abbrev pub or_else : Option ℕ → ℕ → ℕ
or_else none g = g
or_else (some p) g = p

abbrev pub level : Levels → List ℕ → ℕ
level m name = or_else (m.own name) m.others

-- A later rule takes the place of an earlier one.
abbrev pub obey : Rule → Levels → Levels
obey (every p) m = record m { others = p }
obey (one name p) m = record m {
  own = λ other. if same_bytes other name then some p else m.own other;
}

abbrev pub given : ℕ → ℕ → ℕ
given p unstated = if p == log_default then unstated else p

-- `name`, or `name:p` with a letter or a digit for the priority.
unfoldable pub rule_of : List ℕ → Option Rule
rule_of word =
    let (name, rest) = span_until (λ c. c == b':') word in
    let p = rule_pri rest in
    if length name == 0
    then none
    else if p == log_unknown
    then none
    else some (
        if same_bytes name (b'*' ∷ [])
        then every (given p log_debug)
        else one name (given p log_verbose))

-- The words between the separators.
unfoldable pub add_front : ℕ → List (List ℕ) → List (List ℕ)
add_front c [] = (c ∷ []) ∷ []
add_front c (word ∷ words) = (c ∷ word) ∷ words

unfoldable pub words : List ℕ → List (List ℕ)
words [] = [] ∷ []
words (c ∷ s) = let more = words s in if is_separator c then [] ∷ more else add_front c more

-- Empty words are passed by, and the first word that is no rule ends the list.
unfoldable pub obey_words : List (List ℕ) → Levels → Bool × Levels
obey_words [] m = (true, m)
obey_words (word ∷ rest) m =
    let skipped = obey_words rest m in
    if length word == 0
    then skipped
    else elim (rule_of word) [ none ↦ (false, m) | some r ↦ obey_words rest (obey r m) ]

-- The calls of a client.
pub data Call : Type 0 where
  filter_string : List ℕ → Call
  print_format : AndroidLogPrintFormat → Call

unfoldable pub run : List Call → AndroidLogFormat → Option AndroidLogFormat
run [] f = some f
run (filter_string s ∷ calls) f = do (done, f') ← add_filter_string s f; run calls f'
run (print_format p ∷ calls) f = run calls (set_print_format p f).1

unfoldable pub replay : List Call → Levels → Levels
replay [] m = m
replay (filter_string s ∷ calls) m = replay calls (obey_words (words s) m).1
replay (print_format p ∷ calls) m = replay calls m
