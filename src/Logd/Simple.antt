-- ===== src/Logd/Simple.antt =====
-- SimpleLogBuffer of logd/SimpleLogBuffer.{h,cpp}: one list for all the logs. Prune and LogInternal are
-- those of the class itself; the chatty log buffer has its own. An iterator is the number of
-- elements before its node: erasing one of these lowers it, and the list's length is end().
pub mod Oldest
pub mod Taking
pub mod Pruning
pub mod Readers
pub mod Counted
pub mod Invariant
pub mod Clearing
pub mod Resuming
pub mod Sending
pub mod Sequence
mod Tests
pub mod Calls
pub mod Flush
use android_system_logging.Common.{
  ℕ, zero, suc, ◌+◌, ◌-◌, ◌*◌, ◌%◌, ◌^◌, Bool, true, false, ◌&&◌, ◌||◌, not, Option, none, some,
  List, [], ◌∷◌, ◌++◌, map, length, drop, remove_at, modify_at, ltb, leb, ◌==◌, if◌then◌else◌,
  ◌>>=◌, update,
}
use android_system_logging.Common.Bytes.{c_string}
use android_system_logging.Liblog.LogId.{log_id_max, log_id_security}
use android_system_logging.Logd.LogSize.{is_valid_buffer_size, log_buffer_min_size}
use android_system_logging.Logd.Element.{LogBufferElement, kept, to_log_statistics_element}
use android_system_logging.Logd.Serialized.Entry.{is_binary, msg_to_tag}
use android_system_logging.Logd.Serialized.FlushState.{in_mask}
use android_system_logging.Logd.Serialized.Write.{
  Levels, Message, LogResult, einval, eacces, logged, android_log_info,
}
use android_system_logging.Logd.Statistics.Entries.{Names, minus64}
use android_system_logging.Logd.Statistics.Tables.{LogStatistics, sizes, should_prune, add_total}
use android_system_logging.Logd.Statistics.Calls.{add, subtract}

-- What the buffer asks of a reader thread, and does to it: `triggers` counts the wake-ups.
pub record Reader : Type 0 where
  pub log_mask : ℕ
  pub start : ℕ
  pub has_deadline : Bool
  pub release : Bool
  pub triggers : ℕ
  pub skip_ahead : ℕ → ℕ

unfoldable pub is_watching : ℕ → Reader → Bool
is_watching id r = in_mask id r.log_mask

unfoldable pub trigger_reader : Reader → Reader
trigger_reader r = record r { triggers = r.triggers + 1 }

unfoldable pub trigger_skip : ℕ → ℕ → Reader → Reader
trigger_skip id skip r = record r { skip_ahead = update r.skip_ahead id (skip % 2 ^ 32) }

unfoldable pub release_reader : Reader → Reader
release_reader r = record r { release = true; triggers = r.triggers + 1 }

pub record SimpleLogBuffer : Type 0 where
  pub logs : List LogBufferElement
  pub oldest : ℕ → Option ℕ
  pub max_size : ℕ → ℕ
  pub sequence : ℕ
  pub stats : LogStatistics
  pub readers : List Reader

-- How many elements stand before the first of the log, or how many there are.
unfoldable pub find_log : ℕ → List LogBufferElement → ℕ
find_log id [] = 0
find_log id (e ∷ es) = let rest = find_log id es in if e.log_id == id then 0 else suc rest

unfoldable pub first_place : Option ℕ → ℕ
first_place none = 0
first_place (some k) = k

unfoldable pub get_oldest : ℕ → SimpleLogBuffer → ℕ × SimpleLogBuffer
get_oldest id b =
    let from = first_place (b.oldest id) in
    let it = from + find_log id (drop from b.logs) in
    (it, if it == length b.logs then b else record b { oldest = update b.oldest id (some it) })

-- The iterators behind the erased node.
unfoldable pub moved : ℕ → ℕ → Option ℕ → Option ℕ
moved it len none = none
moved it len (some k) =
    if k == it
    then if it == len then none else some it
    else if ltb it k
    then some (k - 1)
    else some k

unfoldable pub erase : ℕ → SimpleLogBuffer → SimpleLogBuffer
erase it b =
    let logs = remove_at it b.logs in
    record b { logs = logs; oldest = λ i. moved it (length logs) (b.oldest i) }

-- The reader that Prune must not overtake, with its place in the list.
unfoldable pub older_reader : ℕ → Reader → Option (ℕ × Reader) → Option (ℕ × Reader)
older_reader k r none = some (k, r)
older_reader k r (some (j, oldest)) =
    if ltb r.start oldest.start || oldest.start == r.start && r.has_deadline
    then some (k, r)
    else some (j, oldest)

unfoldable pub oldest_reader : ℕ → ℕ → Option (ℕ × Reader) → List Reader → Option (ℕ × Reader)
oldest_reader id k oldest [] = oldest
oldest_reader id k oldest (r ∷ rs) =
    oldest_reader id (suc k) (if is_watching id r then older_reader k r oldest else oldest) rs

unfoldable pub kick_reader : ℕ → Reader → ℕ → ℕ → SimpleLogBuffer → SimpleLogBuffer
kick_reader k reader id prune_rows b =
    let kick = λ (f : Reader → Reader). record b { readers = modify_at k f b.readers } in
    if ltb (2 * b.max_size id % 2 ^ 64) (sizes id b.stats)
    then kick release_reader
    else if reader.has_deadline
    then kick trigger_reader
    else kick (trigger_skip id prune_rows)

-- Whether the loop of Prune passes an element by.
unfoldable pub is_other : ℕ → ℕ → LogBufferElement → Bool
is_other id caller_uid e =
    not (e.log_id == id) || not (caller_uid == 0) && not (e.uid == caller_uid)

unfoldable pub is_blocked : Option (ℕ × Reader) → LogBufferElement → Bool
is_blocked none e = false
is_blocked (some (k, reader)) e = leb reader.start e.sequence

unfoldable pub kick_oldest : Option (ℕ × Reader) → ℕ → ℕ → SimpleLogBuffer → SimpleLogBuffer
kick_oldest none id prune_rows b = b
kick_oldest (some (k, reader)) id prune_rows b = kick_reader k reader id prune_rows b

module _ (names : Names) where
  unfoldable pub subtract_and_erase : ℕ → LogBufferElement → SimpleLogBuffer → SimpleLogBuffer
  subtract_and_erase it e b =
      erase it (record b { stats = subtract names (to_log_statistics_element e) b.stats })

  -- The loop at the iterator `it`; the list holds the elements from there on.
  unfoldable pub prune_loop :
      ℕ
      → ℕ
      → Option (ℕ × Reader)
      → List LogBufferElement
      → ℕ
      → ℕ
      → SimpleLogBuffer
      → Bool × SimpleLogBuffer
  prune_loop id caller_uid oldest [] it prune_rows b = (true, b)
  prune_loop id caller_uid oldest (e ∷ es) it prune_rows b = elim (is_other id caller_uid e) [
    | true ↦ prune_loop id caller_uid oldest es (suc it) prune_rows b
    | false ↦ elim (is_blocked oldest e) [
      | true ↦ (false, kick_oldest oldest id prune_rows b)
      | false ↦
          let erased = subtract_and_erase it e b in
          elim (minus64 prune_rows 1 == 0) [
            | true ↦ (true, erased)
            | false ↦ prune_loop id caller_uid oldest es it (minus64 prune_rows 1) erased
          ]
    ]
  ]

  unfoldable pub prune : ℕ → ℕ → ℕ → SimpleLogBuffer → Bool × SimpleLogBuffer
  prune id prune_rows caller_uid b =
      let (it, b') = get_oldest id b in
      prune_loop id caller_uid (oldest_reader id 0 none b.readers) (drop it b'.logs) it prune_rows
        b'

  unfoldable pub maybe_prune : ℕ → SimpleLogBuffer → SimpleLogBuffer
  maybe_prune id b = elim (should_prune id (b.max_size id) b.stats) [
    | none ↦ b
    | some prune_rows ↦ (prune id prune_rows 0 b).1
  ]

  -- NotifyNewLog of LogReaderList.
  unfoldable pub notify_new_log : ℕ → List Reader → List Reader
  notify_new_log id readers =
      map (λ (r : Reader). if is_watching id r && not r.has_deadline then trigger_reader r else r)
        readers

  unfoldable pub log_internal : LogBufferElement → SimpleLogBuffer → SimpleLogBuffer
  log_internal e b =
      let added = record b {
        logs = b.logs ++ (e ∷ []);
        stats = add names (to_log_statistics_element e) b.stats;
      } in
      let pruned = maybe_prune e.log_id added in
      record pruned { readers = notify_new_log e.log_id pruned.readers }
