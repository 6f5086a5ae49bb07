-- ===== src/Logd/Chatty.antt =====
-- Identical and LogInternal of logd/ChattyLogBuffer.cpp: what is made of identical messages. The calls
-- to LogInternal of the simple log buffer and to the statistics are a list, in order. Messages of
-- events have the packed layout. LIBLOG_LOG_TAG is generated, and an argument.
use android_system_logging.Common.{
  ℕ, zero, suc, ◌+◌, ◌-◌, ◌*◌, ◌%◌, ◌^◌, Bool, true, false, ◌&&◌, ◌||◌, not, Option, none, some,
  List, [], ◌∷◌, ◌++◌, length, take, drop, ltb, leb, ◌==◌, if◌then◌else◌, update, same_bytes,
}
use android_system_logging.Common.Bytes.{to_le, of_le}
use android_system_logging.Liblog.LogId.{log_id_events, log_id_security}
use android_system_logging.Liblog.LogTime.{ns_per_sec, nsec}
use android_system_logging.Logd.Serialized.Entry.{is_binary}
use android_system_logging.Logd.Element.{
  LogBufferElement, Body, kept, dropped, get_tag, set_dropped, msg_len, dropped_count,
}
pub mod Counting
pub mod Saved
pub mod Buffer
pub mod Scan
pub mod Prune
pub mod Watermarks
pub mod Dropping
pub mod Marking
pub mod Scanning
pub mod Erasing
pub mod Offenders
pub mod Steps
pub mod Passes
pub mod Pruned
pub mod Calls
mod Tests
mod Runs

pub data MatchType : Type 0 where
  different same same_liblog : MatchType

-- The text from the needle on; the needle is a character and `needle`.
unfoldable pub strnstr : ℕ → List ℕ → List ℕ → Option (List ℕ)
strnstr c needle [] = none
strnstr c needle (x ∷ s) =
    let later = strnstr c needle s in
    if leb (suc (length s)) (length needle)
    then none
    else if x == c && same_bytes (take (length needle) s) needle
    then some (x ∷ s)
    else later

-- "): avc: " without its first character.
abbrev avc : List ℕ
avc = b':' ∷ 32 ∷ b'a' ∷ b'v' ∷ b'c' ∷ b':' ∷ 32 ∷ []

-- sizeof(android_log_event_int_t) and sizeof(android_log_event_string_t).
abbrev sizeof_event : ℕ
sizeof_event = 9

-- What follows "): avc: " in both messages is the same.
unfoldable pub same_audit : Option (List ℕ) → Option (List ℕ) → MatchType
same_audit none r = different
same_audit (some l) none = different
same_audit (some l) (some r) =
    if length l == length r && same_bytes (drop 8 l) (drop 8 r) then same else different

unfoldable pub identical_audit : ℕ → List ℕ → List ℕ → MatchType
identical_audit last_id l r =
    let is_string =
      is_binary last_id && (ltb sizeof_event (length l) && ltb sizeof_event (length r)) in
    let skip = if is_string then sizeof_event else 0 in
    if is_string && not (same_bytes (take 5 l) (take 5 r))
    then different
    else same_audit (strnstr b')' avc (drop skip l)) (strnstr b')' avc (drop skip r))

unfoldable pub identical_messages :
    ℕ → LogBufferElement → LogBufferElement → List ℕ → List ℕ → MatchType
identical_messages liblog_log_tag e last l r =
    let is_liblog =
      e.log_id == log_id_events
      && (length l == sizeof_event
          && (same_bytes (take 5 l) (take 5 r) && get_tag e == liblog_log_tag)) in
    if length l == 0 || length r == 0
    then different
    else if not (e.uid == last.uid) || (not (e.pid == last.pid) || not (e.tid == last.tid))
    then different
    else if ltb ((nsec last.realtime + 60 * ns_per_sec) % 2 ^ 64) (nsec e.realtime)
    then different
    else if length l == length r && same_bytes l r
    then same
    else if length l == length r && is_liblog
    then same_liblog
    else identical_audit last.log_id l r

unfoldable pub identical : ℕ → LogBufferElement → LogBufferElement → MatchType
identical liblog_log_tag e last = elim e.body [
  | dropped tag count ↦ different
  | kept l ↦ elim last.body [
    | dropped tag count ↦ different
    | kept r ↦ identical_messages liblog_log_tag e last l r
  ]
]

-- LogInternal of the simple log buffer, and AddTotal of the statistics.
pub data LogCall : Type 0 where
  log_internal : LogBufferElement → LogCall
  add_total : ℕ → ℕ → LogCall

pub record ChattyLogs : Type 0 where
  pub last_logged : ℕ → Option LogBufferElement
  pub duplicate : ℕ → Option LogBufferElement

unfoldable pub set_last : LogBufferElement → ChattyLogs → ChattyLogs
set_last e c = record c { last_logged = update c.last_logged e.log_id (some e) }

unfoldable pub set_duplicate : ℕ → Option LogBufferElement → ChattyLogs → ChattyLogs
set_duplicate id d c = record c { duplicate = update c.duplicate id d }

-- The saved elements that are logged when another message comes.
unfoldable pub flush_saved : LogBufferElement → Option LogBufferElement → List LogCall
flush_saved last none = []
flush_saved last (some d) =
    (if ltb 0 (dropped_count d) then log_internal d ∷ [] else []) ++ (log_internal last ∷ [])

-- The number in the payload, as 32 bits.
unfoldable pub payload : LogBufferElement → ℕ
payload e = elim e.body [ kept msg ↦ of_le (take 4 (drop 5 msg)) | dropped tag count ↦ 0 ]

unfoldable pub set_payload : ℕ → LogBufferElement → LogBufferElement
set_payload n e = record e {
  body = elim e.body [
    | kept msg ↦ kept (take 5 msg ++ (to_le 4 n ++ drop 9 msg))
    | dropped tag count ↦ dropped tag count
  ];
}

-- A number of 32 bits, from -2^31 on.
unfoldable pub biased : ℕ → ℕ
biased n = (n + 2 ^ 31) % 2 ^ 32

unfoldable pub log_liblog :
    LogBufferElement → LogBufferElement → ChattyLogs → List LogCall × ChattyLogs
log_liblog e last c =
    let total = (payload last + payload e) % 2 ^ 32 in
    if ltb (2 ^ 32 + 2 ^ 31 - 1) (biased (payload last) + biased (payload e))
    then (log_internal last ∷ [], set_last e c)
    else (add_total last.log_id (msg_len last) ∷ [], set_last (set_payload total e) c)

unfoldable pub log_third :
    LogBufferElement → LogBufferElement → LogBufferElement → ChattyLogs → List LogCall × ChattyLogs
log_third e last d c =
    let is_full = dropped_count d == 2 ^ 16 - 1 in
    let dropped = if is_full then 0 else dropped_count d in
    (
      (if is_full then log_internal d ∷ [] else []) ++ (add_total last.log_id (msg_len last) ∷ []),
      set_last e (set_duplicate e.log_id (some (set_dropped (dropped + 1) last)) c),
    )

unfoldable pub log_duplicate :
    MatchType
    → LogBufferElement
    → LogBufferElement
    → Option LogBufferElement
    → ChattyLogs
    → List LogCall × ChattyLogs
log_duplicate different e last d c =
    (flush_saved last d ++ (log_internal e ∷ []), set_last e (set_duplicate e.log_id none c))
log_duplicate same e last none c = ([], set_last e (set_duplicate e.log_id (some last) c))
log_duplicate same_liblog e last none c = ([], set_last e (set_duplicate e.log_id (some last) c))
log_duplicate same e last (some d) c = log_third e last d c
log_duplicate same_liblog e last (some d) c = log_liblog e last c

-- LogInternal.
unfoldable pub chatty_log : ℕ → LogBufferElement → ChattyLogs → List LogCall × ChattyLogs
chatty_log liblog_log_tag e c =
    if e.log_id == log_id_security
    then (log_internal e ∷ [], c)
    else elim (c.last_logged e.log_id) [
      | none ↦ (log_internal e ∷ [], set_last e c)
      | some last ↦ log_duplicate (identical liblog_log_tag e last) e last (c.duplicate e.log_id) c
    ]
