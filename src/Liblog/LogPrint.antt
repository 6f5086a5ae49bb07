-- ===== src/Liblog/LogPrint.antt =====
-- The filter rules of liblog/logprint.cpp. Texts are the bytes of a string without its NUL; a
-- priority is its number in android/log.h. The time zone of a format and the file's own copy of
-- descriptive_output are left out.
use android_system_logging.Common.{
  ℕ, zero, suc, ◌+◌, ◌-◌, Bool, true, false, ◌&&◌, ◌||◌, Option, none, some, List, [], ◌∷◌, length,
  ltb, leb, ◌==◌, if◌then◌else◌, same_bytes,
}
pub mod Levels
pub mod Rules
pub mod Splitting
pub mod Within
pub mod Formats
pub mod Printable
pub mod Escapes
mod Tests

abbrev pub log_unknown : ℕ
log_unknown = 0

abbrev pub log_default : ℕ
log_default = 1

abbrev pub log_verbose : ℕ
log_verbose = 2

abbrev pub log_debug : ℕ
log_debug = 3

abbrev log_silent : ℕ
log_silent = 8

pub record FilterInfo : Type 0 where
  pub tag : List ℕ
  pub pri : ℕ

-- The verbs of AndroidLogPrintFormat; its adverbs are the fields of AndroidLogFormat.
pub data Verb : Type 0 where
  off brief process tag thread raw time threadtime long : Verb

pub data AndroidLogPrintFormat : Type 0 where
  verb : Verb → AndroidLogPrintFormat
  color time_usec time_nsec printable year zone epoch monotonic uid descript : AndroidLogPrintFormat

pub record AndroidLogFormat : Type 0 where
  pub global_pri : ℕ
  pub filters : List FilterInfo
  pub format : Verb
  pub colored_output : Bool
  pub usec_time_output : Bool
  pub nsec_time_output : Bool
  pub printable_output : Bool
  pub year_output : Bool
  pub zone_output : Bool
  pub epoch_output : Bool
  pub monotonic_output : Bool
  pub uid_output : Bool
  pub descriptive_output : Bool

abbrev pub format_new : AndroidLogFormat
format_new = record {
  global_pri = log_verbose;
  filters = [];
  format = Verb.brief;
  colored_output = false;
  usec_time_output = false;
  nsec_time_output = false;
  printable_output = false;
  year_output = false;
  zone_output = false;
  epoch_output = false;
  monotonic_output = false;
  uid_output = false;
  descriptive_output = false;
}

-- 1 for a verb and 0 for an adverb, and the changed format.
unfoldable pub set_print_format : AndroidLogPrintFormat → AndroidLogFormat → ℕ × AndroidLogFormat
set_print_format color f = (0, record f { colored_output = true })
set_print_format time_usec f = (0, record f { usec_time_output = true })
set_print_format time_nsec f = (0, record f { nsec_time_output = true })
set_print_format printable f = (0, record f { printable_output = true })
set_print_format year f = (0, record f { year_output = true })
set_print_format zone f = (0, record f { zone_output = if f.zone_output then false else true })
set_print_format epoch f = (0, record f { epoch_output = true })
set_print_format monotonic f = (0, record f { monotonic_output = true })
set_print_format uid f = (0, record f { uid_output = true })
set_print_format descript f = (0, record f { descriptive_output = true })
set_print_format (verb v) f = (1, record f { format = v })

unfoldable pub to_lower : ℕ → ℕ
to_lower c = if leb b'A' c && leb c b'Z' then c + 32 else c

unfoldable pub filter_char_to_pri : ℕ → ℕ
filter_char_to_pri char =
    let c = to_lower char in
    if leb b'0' c && leb c b'9'
    then (if leb (b'0' + log_silent) c then log_verbose else c - b'0')
    else if c == b'v'
    then log_verbose
    else if c == b'd'
    then log_debug
    else if c == b'i'
    then 4
    else if c == b'w'
    then 5
    else if c == b'e'
    then 6
    else if c == b'f'
    then 7
    else if c == b's'
    then log_silent
    else if c == b'*'
    then log_default
    else log_unknown

unfoldable pub filter_pri_for_tag : ℕ → List ℕ → List FilterInfo → ℕ
filter_pri_for_tag global_pri name [] = global_pri
filter_pri_for_tag global_pri name (f ∷ fs) =
    if same_bytes name f.tag
    then (if f.pri == log_default then global_pri else f.pri)
    else filter_pri_for_tag global_pri name fs

unfoldable pub should_print_line : AndroidLogFormat → List ℕ → ℕ → Bool
should_print_line f name pri = leb (filter_pri_for_tag f.global_pri name f.filters) pri

-- The text before the first of a kind of characters, and what follows it: strcspn.
unfoldable pub span_until : (ℕ → Bool) → List ℕ → List ℕ × List ℕ
span_until stop [] = ([], [])
span_until stop (c ∷ s) =
    let (before, rest) = span_until stop s in if stop c then ([], c ∷ s) else (c ∷ before, rest)

-- The character behind the colon, or NUL.
unfoldable pub first_char : List ℕ → ℕ
first_char [] = 0
first_char (c ∷ s) = c

-- The priority that stands behind the name; log_default where there is no colon.
unfoldable pub rule_pri : List ℕ → ℕ
rule_pri [] = log_default
rule_pri (colon ∷ s) = filter_char_to_pri (first_char s)

unfoldable pub store_rule : List ℕ → ℕ → AndroidLogFormat → AndroidLogFormat
store_rule name pri f =
    if same_bytes name (b'*' ∷ [])
    then record f { global_pri = if pri == log_default then log_debug else pri }
    else record f {
      filters =
          record { tag = name; pri = if pri == log_default then log_verbose else pri } ∷ f.filters;
    }

-- false stands for -1.
unfoldable pub add_filter_rule : List ℕ → AndroidLogFormat → Bool × AndroidLogFormat
add_filter_rule expression f =
    let (name, rest) = span_until (λ c. c == b':') expression in
    if length name == 0
    then (false, f)
    else if rule_pri rest == log_unknown
    then (false, f)
    else (true, store_rule name (rule_pri rest) f)

unfoldable pub is_separator : ℕ → Bool
is_separator c = c == 32 || (c == 9 || c == b',')

-- What the pointer of strsep is set to: NULL behind the last token.
unfoldable pub behind : List ℕ → Option (List ℕ)
behind [] = none
behind (c ∷ s) = some s

unfoldable pub strsep : List ℕ → List ℕ × Option (List ℕ)
strsep s = let (token, rest) = span_until is_separator s in (token, behind rest)

unfoldable pub filter_string_loop :
    ℕ → Option (List ℕ) → AndroidLogFormat → Option (Bool × AndroidLogFormat)
filter_string_loop zero cur f = none
filter_string_loop (suc fuel) none f = some (true, f)
filter_string_loop (suc fuel) (some s) f =
    let (token, rest) = strsep s in
    let skipped = filter_string_loop fuel rest f in
    let (is_rule, f') = add_filter_rule token f in
    let added = filter_string_loop fuel rest f' in
    if length token == 0 then skipped else if is_rule then added else some (false, f')

-- A round for each character, one for the last token and one that finds no more.
unfoldable pub add_filter_string : List ℕ → AndroidLogFormat → Option (Bool × AndroidLogFormat)
add_filter_string s f = filter_string_loop (suc (suc (length s))) (some s) f
