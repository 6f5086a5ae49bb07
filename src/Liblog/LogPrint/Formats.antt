-- ===== src/Liblog/LogPrint/Formats.antt =====
-- The names of formats and the letters and colors of priorities (liblog/logprint.cpp).
use android_system_logging.Common.{
  ℕ, ◌≤◌, ◌≡◌, Bool, List, [], ◌∷◌, ◌==◌, if◌then◌else◌, same_bytes, ◌||◌, arith,
}
use android_system_logging.Liblog.LogPrint.{
  brief, process, tag, thread, raw, time, threadtime, long, off, AndroidLogPrintFormat, verb, color,
  time_usec, time_nsec, printable, year, zone, epoch, monotonic, uid, descript, filter_char_to_pri,
  to_lower,
}

abbrev format_names : List (List ℕ × AndroidLogPrintFormat)
format_names =
    ((b'b' ∷ b'r' ∷ b'i' ∷ b'e' ∷ b'f' ∷ []), verb brief)
    ∷ ((b'p' ∷ b'r' ∷ b'o' ∷ b'c' ∷ b'e' ∷ b's' ∷ b's' ∷ []), verb process)
    ∷ ((b't' ∷ b'a' ∷ b'g' ∷ []), verb tag)
    ∷ ((b't' ∷ b'h' ∷ b'r' ∷ b'e' ∷ b'a' ∷ b'd' ∷ []), verb thread)
    ∷ ((b'r' ∷ b'a' ∷ b'w' ∷ []), verb raw)
    ∷ ((b't' ∷ b'i' ∷ b'm' ∷ b'e' ∷ []), verb time)
    ∷ ((b't' ∷ b'h' ∷ b'r' ∷ b'e' ∷ b'a' ∷ b'd' ∷ b't' ∷ b'i' ∷ b'm' ∷ b'e' ∷ []), verb threadtime)
    ∷ ((b'l' ∷ b'o' ∷ b'n' ∷ b'g' ∷ []), verb long)
    ∷ ((b'c' ∷ b'o' ∷ b'l' ∷ b'o' ∷ b'r' ∷ []), color)
    ∷ ((b'c' ∷ b'o' ∷ b'l' ∷ b'o' ∷ b'u' ∷ b'r' ∷ []), color)
    ∷ ((b'u' ∷ b's' ∷ b'e' ∷ b'c' ∷ []), time_usec)
    ∷ ((b'n' ∷ b's' ∷ b'e' ∷ b'c' ∷ []), time_nsec)
    ∷ ((b'p' ∷ b'r' ∷ b'i' ∷ b'n' ∷ b't' ∷ b'a' ∷ b'b' ∷ b'l' ∷ b'e' ∷ []), printable)
    ∷ ((b'y' ∷ b'e' ∷ b'a' ∷ b'r' ∷ []), year)
    ∷ ((b'z' ∷ b'o' ∷ b'n' ∷ b'e' ∷ []), zone)
    ∷ ((b'e' ∷ b'p' ∷ b'o' ∷ b'c' ∷ b'h' ∷ []), epoch)
    ∷ ((b'm' ∷ b'o' ∷ b'n' ∷ b'o' ∷ b't' ∷ b'o' ∷ b'n' ∷ b'i' ∷ b'c' ∷ []), monotonic)
    ∷ ((b'u' ∷ b'i' ∷ b'd' ∷ []), uid)
    ∷ ((b'd' ∷ b'e' ∷ b's' ∷ b'c' ∷ b'r' ∷ b'i' ∷ b'p' ∷ b't' ∷ b'i' ∷ b'v' ∷ b'e' ∷ []), descript)
    ∷ []

unfoldable named :
    (List ℕ → Bool) → List ℕ → List (List ℕ × AndroidLogPrintFormat) → AndroidLogPrintFormat
named is_zone s [] = if is_zone s then zone else verb off
named is_zone s ((name, format) ∷ rows) = if same_bytes s name then format else named is_zone s rows

-- The parameter `is_zone` tells whether tzset knows a time zone of that name.
unfoldable format_from_string : (List ℕ → Bool) → List ℕ → AndroidLogPrintFormat
format_from_string is_zone s = named is_zone s format_names

unfoldable filter_pri_to_char : ℕ → ℕ
filter_pri_to_char pri =
    if pri == 2
    then b'V'
    else if pri == 3
    then b'D'
    else if pri == 4
    then b'I'
    else if pri == 5
    then b'W'
    else if pri == 6
    then b'E'
    else if pri == 7
    then b'F'
    else if pri == 8
    then b'S'
    else b'?'

unfoldable color_from_pri : ℕ → ℕ
color_from_pri pri =
    if pri == 3
    then 34
    else if pri == 4
    then 32
    else if pri == 5
    then 33
    else if pri == 6 || pri == 7
    then 31
    else 39

-- The letter that is printed for a priority from verbose to silent is read back as it, whatever its
-- case.
filter_char_to_pri-filter_pri_to_char :
    (pri : ℕ)
    → 2 ≤ pri
    → pri ≤ 8
    → (filter_char_to_pri (filter_pri_to_char pri) ≡ pri)
      × (filter_char_to_pri (to_lower (filter_pri_to_char pri)) ≡ pri)
unfolding filter_char_to_pri filter_pri_to_char to_lower
filter_char_to_pri-filter_pri_to_char pri low high = ground arith
