-- ===== src/Liblog/LogPrint/Rules.antt =====
-- The list of filters of liblog/logprint.cpp stands for a table of levels.
use android_system_logging.Common.{
  ℕ, zero, suc, ◌≤◌, ◌<◌, ◌≡◌, refl, Bool, true, false, Option, none, some, List, [], ◌∷◌, length,
  leb, ◌==◌, if◌then◌else◌, same_bytes, arith, inl, inr, Bool-cases, Option-cases,
}
use android_system_logging.Liblog.LogPrint.{
  AndroidLogFormat, AndroidLogPrintFormat, verb, color, time_usec, time_nsec, printable, year, zone,
  epoch, monotonic, uid, descript, format_new, set_print_format, log_unknown, log_default,
  log_verbose, log_debug, rule_pri, span_until, is_separator, behind, strsep, filter_pri_for_tag,
  should_print_line, store_rule, add_filter_rule, filter_string_loop, add_filter_string,
}
use android_system_logging.Liblog.LogPrint.Levels.{
  Rule, every, one, Levels, unset, or_else, level, obey, given, rule_of, add_front, words,
  obey_words, Call, filter_string, print_format, run, replay,
}

-- The format prints what the table says.
pub record Represents (f : AndroidLogFormat) (m : Levels) : Type 0 where
  pub others : f.global_pri ≡ m.others
  pub own : (g : ℕ) (name : List ℕ) → filter_pri_for_tag g name f.filters ≡ or_else (m.own name) g

-- The rule that add_filter_rule makes of a word.
abbrev IsObeyed : Option Rule → AndroidLogFormat → Levels → Bool × AndroidLogFormat → Type 0
IsObeyed none f m (done, f') = (done ≡ false) × Represents f' m
IsObeyed (some r) f m (done, f') = (done ≡ true) × Represents f' (obey r m)

given-default :
    (p unstated : ℕ) → (unstated == log_default) ≡ false → (given p unstated == log_default) ≡ false
given-default p unstated h = elim (Bool-cases (p == log_default)) [
  | inl e ↦ rw e h
  | inr e ↦ rw e e
]

store_rule-Represents :
    (name : List ℕ) (p : ℕ) (f : AndroidLogFormat) (m : Levels)
    → Represents f m
    → Represents (store_rule name p f) (
        obey
          (if same_bytes name (b'*' ∷ [])
            then every (given p log_debug)
            else one name (given p log_verbose))
          m)
unfolding store_rule filter_pri_for_tag
store_rule-Represents name p f m h = elim (Bool-cases (same_bytes name (b'*' ∷ []))) [
  | inl e ↦ rw e (record { others = refl; own = h.own })
  | inr e ↦ rw e (record {
    others = h.others;
    own = λ g other. elim (Bool-cases (same_bytes other name)) [
      | inl same ↦ rw (same, given-default p log_verbose refl) refl
      | inr apart ↦ rw apart (h.own g other)
    ];
  })
]

add_filter_rule-IsObeyed :
    (word : List ℕ) (f : AndroidLogFormat) (m : Levels)
    → Represents f m
    → IsObeyed (rule_of word) f m (add_filter_rule word f)
unfolding add_filter_rule rule_of
add_filter_rule-IsObeyed word f m h =
    let name = (span_until (λ c. c == b':') word).0 in
    let p = rule_pri (span_until (λ c. c == b':') word).1 in
    elim (Bool-cases (length name == 0)) [
      | inl e ↦ rw e (refl, h)
      | inr e ↦ elim (Bool-cases (p == log_unknown)) [
        | inl u ↦ rw (e, u) (refl, h)
        | inr u ↦ rw (e, u) (refl, store_rule-Represents name p f m h)
      ]
    ]

abbrev words_behind : Option (List ℕ) → List (List ℕ)
words_behind none = []
words_behind (some s) = words s

abbrev rounds : Option (List ℕ) → ℕ
rounds none = 0
rounds (some s) = suc (length s)

words-strsep : (s : List ℕ) → words s ≡ (strsep s).0 ∷ words_behind (strsep s).1
unfolding words strsep span_until behind add_front
words-strsep [] = refl
words-strsep (c ∷ s) = elim (Bool-cases (is_separator c)) [
  | inl e ↦ rw e refl
  | inr e ↦ rw (e, words-strsep s) refl
]

rounds-strsep : (s : List ℕ) → rounds (strsep s).1 ≤ length s
unfolding strsep span_until behind
rounds-strsep [] = omega arith
rounds-strsep (c ∷ s) = elim (Bool-cases (is_separator c)) [
  | inl e ↦ rw e (omega arith)
  | inr e ↦ rw e (omega (arith, rounds-strsep s))
]

-- What a filter string makes of a format that stands for a table.
abbrev Obeyed : List (List ℕ) → Levels → Option (Bool × AndroidLogFormat) → Type 0
Obeyed ws m r =
    (f' : AndroidLogFormat) × (r ≡ some ((obey_words ws m).0, f'))
    × Represents f' (obey_words ws m).1

filter_string_loop-Obeyed :
    (fuel : ℕ) (cur : Option (List ℕ)) (f : AndroidLogFormat) (m : Levels)
    → rounds cur < fuel
    → Represents f m
    → Obeyed (words_behind cur) m (filter_string_loop fuel cur f)
unfolding filter_string_loop obey_words
filter_string_loop-Obeyed zero cur f m lt h = absurd (omega arith)
filter_string_loop-Obeyed (suc fuel) none f m lt h = (f, refl, h)
filter_string_loop-Obeyed (suc fuel) (some s) f m lt h =
    let token = (strsep s).0 in
    let rest = (strsep s).1 in
    let enough : rounds rest < fuel = omega (arith, rounds-strsep s) in
    rw (words-strsep s) (elim (Bool-cases (length token == 0)) [
      | inl e ↦ rw e (filter_string_loop-Obeyed fuel rest f m enough h)
      | inr e ↦ rw e (elim (Option-cases (rule_of token)) [
        | inl none_of ↦
            let done = rw none_of at (add_filter_rule-IsObeyed token f m h) in
            rw (none_of, done.0) ((add_filter_rule token f).1, refl, done.1)
        | inr (r, rule) ↦
            let done = rw rule at (add_filter_rule-IsObeyed token f m h) in
            rw (rule, done.0)
              (filter_string_loop-Obeyed fuel rest (add_filter_rule token f).1 (obey r m) enough
                done.1)
      ])
    ])

-- A filter string is read to its end or to its first word that is no rule, and the format stands for
-- the table that the words before it make; the result tells which.
add_filter_string-Obeyed :
    (s : List ℕ) (f : AndroidLogFormat) (m : Levels)
    → Represents f m
    → Obeyed (words s) m (add_filter_string s f)
unfolding add_filter_string
add_filter_string-Obeyed s f m h =
    filter_string_loop-Obeyed (suc (suc (length s))) (some s) f m (omega arith) h

set_print_format-Represents :
    (p : AndroidLogPrintFormat) (f : AndroidLogFormat) (m : Levels)
    → Represents f m
    → Represents (set_print_format p f).1 m
unfolding set_print_format
set_print_format-Represents (verb v) f m h = record { others = h.others; own = h.own }
set_print_format-Represents color f m h = record { others = h.others; own = h.own }
set_print_format-Represents time_usec f m h = record { others = h.others; own = h.own }
set_print_format-Represents time_nsec f m h = record { others = h.others; own = h.own }
set_print_format-Represents printable f m h = record { others = h.others; own = h.own }
set_print_format-Represents year f m h = record { others = h.others; own = h.own }
set_print_format-Represents zone f m h = record { others = h.others; own = h.own }
set_print_format-Represents epoch f m h = record { others = h.others; own = h.own }
set_print_format-Represents monotonic f m h = record { others = h.others; own = h.own }
set_print_format-Represents uid f m h = record { others = h.others; own = h.own }
set_print_format-Represents descript f m h = record { others = h.others; own = h.own }

run-Represents :
    (calls : List Call) (f : AndroidLogFormat) (m : Levels)
    → Represents f m
    → (f' : AndroidLogFormat) × (run calls f ≡ some f') × Represents f' (replay calls m)
unfolding run replay
run-Represents [] f m h = (f, refl, h)
run-Represents (filter_string s ∷ calls) f m h =
    let (f', e, h') = add_filter_string-Obeyed s f m h in
    rw e (run-Represents calls f' (obey_words (words s) m).1 h')
run-Represents (print_format p ∷ calls) f m h =
    run-Represents calls (set_print_format p f).1 m (set_print_format-Represents p f m h)

-- After any calls of addFilterString and setPrintFormat on a new format, a line is printed if its
-- priority is not below the level of its tag in the table that the words of the filters make, where a
-- later rule takes the place of an earlier one, and a string is read up to its first word that is no
-- rule. The calls end.
pub run-replay :
    (calls : List Call)
    → (f : AndroidLogFormat) × (run calls format_new ≡ some f)
      × ((name : List ℕ) (pri : ℕ)
          → should_print_line f name pri ≡ leb (level (replay calls unset) name) pri)
unfolding should_print_line
run-replay calls =
    let start : Represents format_new unset = record {
      others = refl;
      own = λ g name. unfold filter_pri_for_tag in refl;
    } in
    let (f, e, h) = run-Represents calls format_new unset start in
    (f, e, λ name pri. rw (h.own f.global_pri name, h.others) refl)
