-- ===== src/Liblog/LogPrint/Tests.antt =====
-- Runs of the filters, and their theorem at concrete calls.
use android_system_logging.Common.{
  ℕ, ◌+◌, ◌≤◌, ◌≡◌, ◌⊎◌, refl, true, false, Option, none, some, List, [], ◌∷◌, take, drop, length,
  leb, arith, ltb, ◌==◌, ◌&&◌, if◌then◌else◌, All, suc,
}
use android_system_logging.Liblog.LogPrint.{
  AndroidLogFormat, Verb, verb, color, format_new, span_until, behind, first_char, is_separator,
  strsep, to_lower, filter_char_to_pri, rule_pri, filter_pri_for_tag, should_print_line, store_rule,
  add_filter_rule, filter_string_loop, add_filter_string,
}
use android_system_logging.Liblog.LogPrint.Levels.{
  Call, filter_string, print_format, run, replay, level, unset,
}
use android_system_logging.Liblog.LogPrint.Splitting.{
  LoggerEntry, AndroidLogEntry, find_text, is_odd, find_odd, put_nul, split_odd, split_tag,
  end_text, first_byte, process_log_buffer, process_log_buffer-read,
}
use android_system_logging.Liblog.LogPrint.Within.{NulAt, process_log_buffer-Within}
use android_system_logging.Liblog.LogPrint.Rules.{run-replay}
use android_system_logging.Liblog.LogPrint.Printable.{
  Multibyte, MultibyteLaws, convert_printable, print_loop, character, escape, hex, hex_digit,
}
use android_system_logging.Common.Bytes.{c_string}
use android_system_logging.Liblog.LogPrint.Escapes.{Reads, convert_printable-Reads}

-- "AT:d *:W"
abbrev rules : List ℕ
rules = b'A' ∷ b'T' ∷ b':' ∷ b'd' ∷ 32 ∷ b'*' ∷ b':' ∷ b'W' ∷ []

-- ",B:0,AT": the priority 0 is refused.
abbrev refused : List ℕ
refused = b',' ∷ b'B' ∷ b':' ∷ b'0' ∷ b',' ∷ b'A' ∷ b'T' ∷ []

abbrev filtered : AndroidLogFormat
filtered = record format_new {
  global_pri = 5;
  filters = record { tag = b'A' ∷ b'T' ∷ []; pri = 3 } ∷ [];
}

add_rules : add_filter_string rules format_new ≡ some (true, filtered)
unfolding add_filter_string filter_string_loop strsep span_until is_separator behind add_filter_rule
    rule_pri first_char filter_char_to_pri to_lower store_rule
add_rules = refl

add_refused : add_filter_string refused filtered ≡ some (false, filtered)
unfolding add_filter_string filter_string_loop strsep span_until is_separator behind add_filter_rule
    rule_pri first_char filter_char_to_pri to_lower store_rule
add_refused = refl

prints_debug : should_print_line filtered (b'A' ∷ b'T' ∷ []) 3 ≡ true
unfolding should_print_line filter_pri_for_tag
prints_debug = refl

prints_no_debug : should_print_line filtered (b'B' ∷ []) 3 ≡ false
unfolding should_print_line filter_pri_for_tag
prints_no_debug = refl

abbrev calls : List Call
calls =
    filter_string rules
    ∷ print_format color
    ∷ filter_string refused
    ∷ print_format (verb Verb.long)
    ∷ []

run-replay_example :
    (f : AndroidLogFormat) × (run calls format_new ≡ some f)
    × ((name : List ℕ) (pri : ℕ)
        → should_print_line f name pri ≡ leb (level (replay calls unset) name) pri)
run-replay_example = run-replay calls

-- A warning with the tag "AT" and the text "hi".
abbrev an_entry : LoggerEntry
an_entry = record {
  len = 7;
  hdr_size = 28;
  pid = 20;
  tid = 21;
  sec = 0;
  nsec = 0;
  lid = 0;
  uid = 1000;
  msg = 5 ∷ b'A' ∷ b'T' ∷ 0 ∷ b'h' ∷ b'i' ∷ 0 ∷ [];
}

-- A message without a NUL: the space ends the tag.
abbrev an_odd_entry : LoggerEntry
an_odd_entry = record an_entry { msg = 5 ∷ b'A' ∷ 32 ∷ b'h' ∷ b'i' ∷ b'h' ∷ b'i' ∷ [] }

abbrev places : Option (AndroidLogEntry × List ℕ) → Option (ℕ × ℕ × ℕ × ℕ × List ℕ)
places none = none
places (some (e, msg)) = some (e.tag, e.tag_len, e.message, e.message_len, msg)

process-odd :
    places (process_log_buffer an_odd_entry)
    ≡ some (1, 2, 3, 3, 5 ∷ b'A' ∷ 0 ∷ b'h' ∷ b'i' ∷ b'h' ∷ 0 ∷ [])
unfolding process_log_buffer find_text split_tag split_odd find_odd is_odd put_nul end_text
    first_byte
process-odd = refl

process_log_buffer-read_example :
    (e : AndroidLogEntry) × (process_log_buffer an_entry ≡ some (e, an_entry.msg))
    × (e.priority ≡ 5)
    × (take e.tag_len (drop e.tag an_entry.msg) ≡ b'A' ∷ b'T' ∷ 0 ∷ [])
    × (take e.message_len (drop e.message an_entry.msg) ≡ b'h' ∷ b'i' ∷ [])
process_log_buffer-read_example =
    process_log_buffer-read an_entry 5 (b'A' ∷ b'T' ∷ []) (b'h' ∷ b'i' ∷ []) [] refl refl
      (omega arith) (omega arith) (omega arith)

process_log_buffer-Within_example :
    (e : AndroidLogEntry) × (msg : List ℕ) × (process_log_buffer an_odd_entry ≡ some (e, msg))
    × (length msg ≡ 7)
    × (e.tag + e.tag_len ≤ 7)
    × ((j : ℕ) × (e.tag ≤ j) × NulAt msg j)
    × (e.message + e.message_len ≤ 7)
    × ((e.message_len ≡ 0) ⊎ NulAt msg (e.message + e.message_len))
process_log_buffer-Within_example =
    process_log_buffer-Within an_odd_entry refl (omega arith) (omega arith)

-- ASCII and the characters of two bytes in UTF-8.
unfoldable two_byte_char : List ℕ → Option ℕ
two_byte_char [] = none
two_byte_char (c ∷ []) = if c == 0 then some 0 else if ltb c 128 then some 1 else none
two_byte_char (c ∷ d ∷ s) =
    if c == 0
    then some 0
    else if ltb c 128
    then some 1
    else if leb 192 c && (leb 128 d && ltb d 192)
    then some 2
    else none

abbrev two_bytes : Multibyte
two_bytes = record { State = ℕ; initial = 0; mbrtowc = λ st s. (two_byte_char s, st) }

two_bytes-MultibyteLaws : MultibyteLaws two_bytes
unfolding two_byte_char
two_bytes-MultibyteLaws = record { taken = λ st s. taken s; not_ascii = λ st s. not_ascii s }
  where
    taken : (s : List ℕ) (n : ℕ) → two_byte_char s ≡ some n → n ≤ length s
    taken [] n e = absurd (let c : none ≡ some n = e in cc)
    taken (c ∷ []) n e = ground arith
    taken (c ∷ d ∷ s) n e = ground arith

    not_ascii :
        (s : List ℕ) (n : ℕ)
        → two_byte_char s ≡ some (suc (suc n))
        → All (λ c. 128 ≤ c) (take (suc (suc n)) s)
    not_ascii [] n e = absurd (let c : none ≡ some (suc (suc n)) = e in cc)
    not_ascii (c ∷ []) n e = absurd (ground arith)
    not_ascii (c ∷ d ∷ s) n e =
        let two : n ≡ 0 = ground arith in
        let high : (128 ≤ c) × (128 ≤ d) = ground arith in rw two (high.0, (high.1, tt))

-- "A", a backslash, a tab, the character 1, e with an acute accent, and a byte that is no character.
abbrev unprintable : List ℕ
unprintable = b'A' ∷ b'\\' ∷ 9 ∷ 1 ∷ 195 ∷ 169 ∷ 255 ∷ []

convert_printable-Reads_example : Reads unprintable (convert_printable two_bytes unprintable)
convert_printable-Reads_example =
    convert_printable-Reads two_bytes two_bytes-MultibyteLaws unprintable (
      omega arith,
      (omega arith, (omega arith, (omega arith, (omega arith, (omega arith, (omega arith, tt)))))),
    )

-- A\\, a tab, \x01, the accented letter as it is, and \xFF.
printed :
    convert_printable two_bytes unprintable
    ≡ some (b'A' ∷ 92 ∷ 92 ∷ 9 ∷ 92 ∷ b'x' ∷ b'0' ∷ b'1' ∷ 195 ∷ 169 ∷ 92 ∷ b'x' ∷ b'F' ∷ b'F' ∷ [])
unfolding two_byte_char convert_printable print_loop character escape hex hex_digit c_string
printed = refl
