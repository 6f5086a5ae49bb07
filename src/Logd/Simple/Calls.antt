-- ===== src/Logd/Simple/Calls.antt =====
-- Init, Log, Clear, GetSize and SetSize of logd/SimpleLogBuffer.cpp. What other threads do while Clear
-- sleeps is the caller's, like the sizes that the properties set.
use android_system_logging.Common.{
  ℕ, zero, suc, ◌+◌, ◌-◌, ◌%◌, ◌^◌, Bool, true, false, Option, none, some, List, [], ◌∷◌, map,
  length, leb, ◌==◌, if◌then◌else◌, ◌>>=◌, update,
}
use android_system_logging.Common.Bytes.{c_string}
use android_system_logging.Liblog.LogId.{log_id_max, log_id_security}
use android_system_logging.Liblog.LogTime.{LogTime}
use android_system_logging.Logd.LogSize.{is_valid_buffer_size, log_buffer_min_size}
use android_system_logging.Logd.Element.{LogBufferElement, kept}
use android_system_logging.Logd.Serialized.Entry.{is_binary, msg_to_tag}
use android_system_logging.Logd.Serialized.Write.{
  Levels, Message, LogResult, einval, eacces, logged, android_log_info,
}
use android_system_logging.Logd.Statistics.Entries.{Names}
use android_system_logging.Logd.Statistics.Tables.{add_total}
use android_system_logging.Logd.Simple.{
  SimpleLogBuffer, Reader, is_watching, release_reader, trigger_reader, prune, log_internal,
}

-- `none` is a read of the priority of an empty text message.
unfoldable pub should_log : Levels → ℕ → List ℕ → Option Bool
should_log l log_id msg =
    if log_id == log_id_security
    then some true
    else if is_binary log_id
    then some (l.is_loggable android_log_info (l.tag_to_name (msg_to_tag msg)))
    else elim msg [ [] ↦ none | prio ∷ rest ↦ some (l.is_loggable prio (some (c_string rest))) ]

-- The time slips by 1 nsec if it lands on xxxxxx000 ns.
unfoldable pub slipped : LogTime → LogTime
slipped t = if t.tv_nsec % 1000 == 0 then record t { tv_nsec = (t.tv_nsec + 1) % 2 ^ 32 } else t

unfoldable pub make_element : ℕ → Message → LogBufferElement
make_element sequence m = record {
  uid = m.uid;
  pid = m.pid;
  tid = m.tid;
  sequence = sequence;
  realtime = slipped m.realtime;
  log_id = m.log_id;
  body = kept m.msg;
}

unfoldable pub get_size : ℕ → SimpleLogBuffer → ℕ
get_size id b = b.max_size id

unfoldable pub set_size : ℕ → ℕ → SimpleLogBuffer → Bool × SimpleLogBuffer
set_size id size b =
    if is_valid_buffer_size size
    then (true, record b { max_size = update b.max_size id size })
    else (false, b)

-- Init for the logs from `id` on, of which there are `n`.
unfoldable pub init_sizes : (ℕ → ℕ) → ℕ → ℕ → SimpleLogBuffer → SimpleLogBuffer
init_sizes from_properties zero id b = b
init_sizes from_properties (suc n) id b =
    let (is_set, b') = set_size id (from_properties id) b in
    init_sizes from_properties n (suc id)
      (if is_set then b' else (set_size id log_buffer_min_size b').1)

unfoldable pub init : (ℕ → ℕ) → SimpleLogBuffer → SimpleLogBuffer
init from_properties b =
    let sized = init_sizes from_properties log_id_max 0 b in
    record sized { readers = map trigger_reader sized.readers }

module _ (names : Names) where
  unfoldable pub log : Levels → Message → SimpleLogBuffer → Option (LogResult × SimpleLogBuffer)
  log l m b =
      let counted = record b { stats = add_total m.log_id (length m.msg) b.stats } in
      let stored =
        log_internal names (make_element b.sequence m)
          (record b { sequence = (b.sequence + 1) % 2 ^ 64 }) in
      if leb log_id_max m.log_id
      then some (einval, b)
      else (should_log l m.log_id m.msg >>= (λ should.
          if should then some (logged (length m.msg), stored) else some (eacces, counted)))

  unfoldable pub disconnect : ℕ → SimpleLogBuffer → SimpleLogBuffer
  disconnect id b = record b {
    readers = map (λ (r : Reader). if is_watching id r then release_reader r else r) b.readers;
  }

  -- With `tries` tries left before the readers are disconnected.
  unfoldable pub clear_tries :
      (SimpleLogBuffer → SimpleLogBuffer) → ℕ → ℕ → ℕ → SimpleLogBuffer → Bool × SimpleLogBuffer
  clear_tries meanwhile zero id uid b =
      let (is_free, b') = prune names id 1 uid b in
      prune names id (2 ^ 64 - 1) uid (if is_free then b' else disconnect id b')
  clear_tries meanwhile (suc tries) id uid b =
      let (is_done, b') = prune names id (2 ^ 64 - 1) uid b in
      elim is_done [ true ↦ (true, b') | false ↦ clear_tries meanwhile tries id uid (meanwhile b') ]

  unfoldable pub clear :
      (SimpleLogBuffer → SimpleLogBuffer) → ℕ → ℕ → SimpleLogBuffer → Bool × SimpleLogBuffer
  clear meanwhile id uid b = clear_tries meanwhile 3 id uid b
