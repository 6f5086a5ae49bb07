-- ===== src/Logd/Serialized/Write.antt =====
-- ShouldLog and Log of logd/SerializedLogBuffer.cpp. The tag map and the log levels that the
-- properties set are the caller's.
pub mod Logs
pub mod Outcomes
use android_system_logging.Common.{
  ℕ, zero, suc, ◌+◌, ◌-◌, ◌%◌, ◌^◌, Bool, true, false, ◌||◌, Option, none, some, List, [], ◌∷◌,
  length, take, ltb, leb, ◌==◌, if◌then◌else◌, ◌>>=◌, update,
}
use android_system_logging.Liblog.LogId.{log_id_max, log_id_security, logger_entry_max_payload}
use android_system_logging.Common.Bytes.{c_string}
use android_system_logging.Liblog.LogTime.{LogTime}
use android_system_logging.Logd.Statistics.{add, add_total}
use android_system_logging.Logd.Serialized.Entry.{
  SerializedLogEntry, is_binary, msg_to_tag, to_log_statistics_element,
}
use android_system_logging.Logd.Serialized.Chunk.{Zstd}
use android_system_logging.Logd.Serialized.Buffer.{
  Shared, SerializedLogBuffer, stats_call, log_to_log_buffer, maybe_prune,
}

-- LogTags::tagToName, and __android_log_is_loggable_len with its default ANDROID_LOG_VERBOSE.
pub record Levels : Type 0 where
  pub tag_to_name : ℕ → Option (List ℕ)
  pub is_loggable : ℕ → Option (List ℕ) → Bool

abbrev pub android_log_info : ℕ
android_log_info = 4

-- A text message is its priority, its tag up to a NUL, and more. An empty message has no byte to
-- read: `log` never asks for one.
unfoldable pub should_log : Levels → ℕ → List ℕ → Bool
should_log l log_id msg =
    if log_id == log_id_security
    then true
    else if is_binary log_id
    then l.is_loggable android_log_info (l.tag_to_name (msg_to_tag msg))
    else elim msg [ [] ↦ false | prio ∷ rest ↦ l.is_loggable prio (some (c_string rest)) ]

-- What Log returns: -EINVAL, -EACCES, or the length.
pub data LogResult : Type 0 where
  einval eacces : LogResult
  logged : ℕ → LogResult

pub record Message : Type 0 where
  pub log_id : ℕ
  pub realtime : LogTime
  pub uid : ℕ
  pub pid : ℕ
  pub tid : ℕ
  pub msg : List ℕ

unfoldable pub make_entry : ℕ → Message → List ℕ → SerializedLogEntry
make_entry sequence m msg = record {
  uid = m.uid;
  pid = m.pid;
  tid = m.tid;
  sequence = sequence;
  realtime = m.realtime;
  msg = msg;
}

-- From the sequence number on: the entry is stored and counted, and the log is pruned. The readers
-- that are notified of the new entry are woken outside of this state.
unfoldable pub store : Zstd → Message → List ℕ → SerializedLogBuffer → Option SerializedLogBuffer
store z m msg b = do
  let e = make_entry b.sequence m msg
  (nodes, next) ←
      log_to_log_buffer z (b.max_size m.log_id) e (b.logs m.log_id, b.shared.next_address)
  let counted = stats_call (add (to_log_statistics_element e m.log_id)) b.shared
  maybe_prune z m.log_id (record b {
    logs = update b.logs m.log_id nodes;
    sequence = (b.sequence + 1) % 2 ^ 64;
    shared = record counted { next_address = next };
  })

unfoldable pub log :
    Zstd → Levels → Message → SerializedLogBuffer → Option (LogResult × SerializedLogBuffer)
log z l m b =
    let msg = take logger_entry_max_payload m.msg in
    let dropped = stats_call (add_total m.log_id (length msg)) b.shared in
    let stored = do b' ← store z m msg b; some (logged (length msg), b')
    in if leb log_id_max m.log_id || length m.msg == 0
      then some (einval, b)
      else if should_log l m.log_id msg
      then stored
      else some (eacces, record b { shared = dropped })
