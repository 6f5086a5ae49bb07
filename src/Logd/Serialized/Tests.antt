-- ===== src/Logd/Serialized/Tests.antt =====
-- Runs of the serialized buffer of logd, and its theorems at concrete inputs.
use android_system_logging.Common.{
  ℕ, ◌*◌, ◌≤◌, ◌<◌, ◌≡◌, refl, ◌⊎◌, true, false, none, some, List, [], ◌∷◌, ◌++◌, arith, length,
  Succeeds, update, ◌>>=◌, if◌then◌else◌, ◌==◌, ◌&&◌,
}
use android_system_logging.Liblog.LogId.{log_id_max}
use android_system_logging.Liblog.LogTime.{epoch}
use android_system_logging.Logd.LogSize.{is_valid_buffer_size}
use android_system_logging.Logd.Statistics.{add_total}
use android_system_logging.Logd.Serialized.Entry.{
  SerializedLogEntry, IsEntry, to_bytes, from_bytes, from_bytes-to_bytes,
}
use android_system_logging.Logd.Serialized.Chunk.{
  SerializedLogChunk, Zstd, ZstdLaws, entries, finish_writing, inc_reader_ref_count,
}
use android_system_logging.Logd.Serialized.Chunk.Contents.{Holds, image}
use android_system_logging.Logd.Serialized.Chunk.Packing.{entries_reopened}
use android_system_logging.Logd.Serialized.Nodes.{ChunkNode}
use android_system_logging.Logd.Serialized.FlushState.{SerializedFlushToState, LogPosition}
use android_system_logging.Logd.Serialized.Buffer.{
  Shared, SerializedLogBuffer, stats_call, size_used, log_to_log_buffer, prune_loop, set_size,
}
use android_system_logging.Logd.Serialized.Buffer.Stores.{IsStored}
use android_system_logging.Logd.Serialized.Buffer.Append.{Contains, log_to_log_buffer-Contains}
use android_system_logging.Logd.Serialized.Buffer.Links.{Linked, NoDangling}
use android_system_logging.Logd.Serialized.Buffer.Outline.{
  IsLinked, log_to_log_buffer-Contains-IsLinked,
}
use android_system_logging.Logd.Serialized.Buffer.Front.{Pruned, subtractions}
use android_system_logging.Logd.Serialized.Buffer.Pruning.{prune_loop-Pruned}
use android_system_logging.Logd.Serialized.Clear.{clear_logs_by_uid}
use android_system_logging.Logd.Serialized.Clear.Users.{clear_logs_by_uid-Cleared}
use android_system_logging.Logd.Serialized.Clear.Opening.{without, of_user}
use android_system_logging.Logd.Serialized.Write.{
  Levels, Message, log, logged, einval, eacces, make_entry, should_log,
}
use android_system_logging.Logd.Serialized.Write.Logs.{IsLog, Trimmed}
use android_system_logging.Logd.Serialized.Write.Outcomes.{
  IsMessage, payload, log_outcomes, set_size_outcomes,
}

-- A frame of one byte before the input.
abbrev stored_frame : Zstd
stored_frame = record {
  compress = λ bs. 1 ∷ bs;
  decompress = elim [ [] ↦ none | _ ∷ bs ↦ some bs ];
}

stored_frame-ZstdLaws : ZstdLaws stored_frame
stored_frame-ZstdLaws = record {
  decompress-compress = λ bs. refl;
  compress_nonempty = λ bs. omega arith;
}

abbrev entry_of : ℕ → ℕ → SerializedLogEntry
entry_of uid sequence = record {
  uid = uid;
  pid = 11;
  tid = 12;
  sequence = sequence;
  realtime = epoch;
  msg = 4 ∷ 65 ∷ 0 ∷ 66 ∷ 0 ∷ [];
}

entry_of-IsEntry : IsEntry (entry_of 1000 1)
entry_of-IsEntry = record {
  uid_fits = omega arith;
  pid_fits = omega arith;
  tid_fits = omega arith;
  sequence_fits = omega arith;
  sec_fits = omega arith;
  nsec_fits = omega arith;
  msg_fits = omega arith;
}

two_entries-IsEntry : IsEntry (entry_of 2000 2)
two_entries-IsEntry = record {
  uid_fits = omega arith;
  pid_fits = omega arith;
  tid_fits = omega arith;
  sequence_fits = omega arith;
  sec_fits = omega arith;
  nsec_fits = omega arith;
  msg_fits = omega arith;
}

abbrev two_entries : List SerializedLogEntry
two_entries = entry_of 1000 1 ∷ entry_of 2000 2 ∷ []

-- A full chunk with two entries, which the reader at address 7 reads.
two_chunk : ℕ → List ℕ → SerializedLogChunk
two_chunk count readers = record {
  contents = image two_entries ++ [];
  write_offset = length (image two_entries);
  reader_ref_count = count;
  writer_active = true;
  highest_sequence_number = 2;
  compressed_log = [];
  readers = readers;
}

two_chunk-Holds :
    (count : ℕ) (readers : List ℕ) → Holds stored_frame (two_chunk count readers) two_entries
unfolding two_chunk
two_chunk-Holds count readers = record {
  entries_fit = (entry_of-IsEntry, (two_entries-IsEntry, tt));
  offset = refl;
  in_memory = λ _. ([], refl);
  freed = λ e. cc;
  packed = λ e. cc;
  unpacked = λ _. refl;
}

two_node : ChunkNode
two_node = record { address = 3; chunk = two_chunk 1 (7 ∷ []) }

two_node-IsStored : IsStored stored_frame two_node.chunk two_entries
unfolding two_node two_chunk
two_node-IsStored = record { holds = two_chunk-Holds 1 (7 ∷ []); counted = refl; few = omega arith }

abbrev at_three : LogPosition
at_three = record { buffer_it = 3; read_offset = 0 }

abbrev flush_at : ℕ → SerializedFlushToState
flush_at r = record {
  start = 1;
  log_mask = 1;
  log_positions = λ i. if r == 7 && i == 0 then some at_three else none;
  logs_needed_from_next_position = λ _. false;
}

abbrev shared_state : Shared
shared_state = record {
  flush_states = flush_at;
  reader_threads = record { flush_state = 7; has_deadline = true } ∷ [];
  stats_calls = [];
  woken = [];
  next_address = 4;
}

two_node-Linked : Linked 0 flush_at (two_node ∷ [])
unfolding two_node two_chunk
two_node-Linked = (((at_three, refl, refl), refl, tt), tt, tt)

two_node-NoDangling : NoDangling 0 flush_at (two_node ∷ [])
unfolding two_node two_chunk
two_node-NoDangling r p e = ground arith

abbrev buffer : SerializedLogBuffer
buffer = record {
  max_size = λ _. 64 * 1024;
  logs = λ i. if i == 0 then two_node ∷ [] else [];
  sequence = 3;
  shared = shared_state;
}

buffer-IsLog : IsLog stored_frame 0 buffer two_entries
unfolding two_node two_chunk
buffer-IsLog = record {
  valid = omega arith;
  contains = (two_entries ∷ [], (two_node-IsStored, tt), refl, refl);
  links = record {
    linked = two_node-Linked;
    safe = two_node-NoDangling;
    fresh = (omega arith, tt);
  };
}

abbrev all_levels : Levels
all_levels = record { tag_to_name = λ _. none; is_loggable = λ _ _. true }

abbrev message : Message
message = record {
  log_id = 0;
  realtime = epoch;
  uid = 1000;
  pid = 11;
  tid = 12;
  msg = 4 ∷ 65 ∷ 0 ∷ 66 ∷ 0 ∷ [];
}

message-IsMessage : IsMessage message
message-IsMessage = record {
  uid_fits = omega arith;
  pid_fits = omega arith;
  tid_fits = omega arith;
  sec_fits = omega arith;
  nsec_fits = omega arith;
}

log_outcomes_example : Succeeds (log stored_frame all_levels message buffer) (λ r.
    ((log_id_max ≤ 0) ⊎ (◌≡◌ {A = ℕ} 5 0)) × (r.0 ≡ einval) × (r.1 ≡ buffer)
    ⊎ (0 < log_id_max)
      × (0 < 5)
      × (should_log all_levels 0 (payload message) ≡ false)
      × (r.0 ≡ eacces)
      × (r.1 ≡ record buffer { shared = stats_call (add_total 0 5) shared_state })
    ⊎ (0 < log_id_max)
      × (0 < 5)
      × (should_log all_levels 0 (payload message) ≡ true)
      × (r.0 ≡ logged 5)
      × Trimmed stored_frame 0 buffer
          (two_entries ++ make_entry 3 message (payload message) ∷ [])
          r.1)
log_outcomes_example =
    log_outcomes stored_frame stored_frame-ZstdLaws all_levels message buffer two_entries
      message-IsMessage (omega arith) buffer-IsLog

log_to_log_buffer-Contains_example :
    Succeeds
      (log_to_log_buffer stored_frame (64 * 1024) (entry_of 1000 1) (two_node ∷ [], 4))
      (λ cs. Contains stored_frame (two_entries ++ entry_of 1000 1 ∷ []) cs.0)
unfolding two_node two_chunk
log_to_log_buffer-Contains_example =
    log_to_log_buffer-Contains stored_frame (entry_of 1000 1) entry_of-IsEntry (64 * 1024) 4
      (two_node ∷ []) two_entries (omega arith)
      (two_entries ∷ [], (two_node-IsStored, tt), refl, refl)

prune_loop-Pruned_example :
    Succeeds
      (prune_loop stored_frame 1 0 100 (two_node ∷ []) shared_state)
      (Pruned stored_frame 0 100 (two_node ∷ []) (two_entries ∷ []) shared_state)
prune_loop-Pruned_example =
    prune_loop-Pruned stored_frame stored_frame-ZstdLaws 0 1 100 (two_node ∷ []) (two_entries ∷ [])
      shared_state (omega arith) (two_node-IsStored, tt) two_node-Linked two_node-NoDangling

clear_logs_by_uid-Cleared_example :
    Succeeds (clear_logs_by_uid stored_frame 0 1000 (64 * 1024) (two_node ∷ []) shared_state) (λ s.
      Contains stored_frame (without 1000 two_entries) s.0
      × (s.1.stats_calls ≡ subtractions 0 (of_user 1000 two_entries) [])
      × NoDangling 0 s.1.flush_states [])
unfolding two_node two_chunk
clear_logs_by_uid-Cleared_example =
    clear_logs_by_uid-Cleared stored_frame stored_frame-ZstdLaws 0 1000 (64 * 1024) (omega arith)
      (two_node ∷ []) (two_entries ∷ []) shared_state (two_node-IsStored, tt) refl two_node-Linked
      two_node-NoDangling

set_size_outcomes_example : Succeeds (set_size stored_frame 0 (128 * 1024) buffer) (λ r.
    (r.0 ≡ false) × (is_valid_buffer_size (128 * 1024) ≡ false) × (r.1 ≡ buffer)
    ⊎ (r.0 ≡ true)
      × (is_valid_buffer_size (128 * 1024) ≡ true)
      × Trimmed stored_frame 0
          (record buffer { max_size = update buffer.max_size 0 (128 * 1024) })
          two_entries
          r.1
      × (size_used (r.1.logs 0) ≤ 128 * 1024))
set_size_outcomes_example =
    set_size_outcomes stored_frame 0 (128 * 1024) buffer two_entries stored_frame-ZstdLaws
      buffer-IsLog

entries_reopened_example :
    (finish_writing stored_frame (two_chunk 0 []) >>= λ d.
    inc_reader_ref_count stored_frame d >>= λ o. entries o)
    ≡ some two_entries
unfolding two_chunk
entries_reopened_example =
    entries_reopened stored_frame (two_chunk 0 []) two_entries stored_frame-ZstdLaws
      (two_chunk-Holds 0 []) refl refl

from_bytes-to_bytes_example :
    from_bytes (to_bytes (entry_of 1000 1) ++ 9 ∷ []) ≡ some (entry_of 1000 1, 9 ∷ [])
from_bytes-to_bytes_example = from_bytes-to_bytes (entry_of 1000 1) (9 ∷ []) entry_of-IsEntry

log_to_log_buffer-Contains-IsLinked_example :
    Succeeds
      (log_to_log_buffer stored_frame (64 * 1024) (entry_of 1000 1) (two_node ∷ [], 4))
      (λ ds.
        Contains stored_frame (two_entries ++ entry_of 1000 1 ∷ []) ds.0 × IsLinked 0 flush_at ds)
unfolding two_node two_chunk
log_to_log_buffer-Contains-IsLinked_example =
    log_to_log_buffer-Contains-IsLinked 0 flush_at stored_frame (64 * 1024) 4 (entry_of 1000 1)
      (two_node ∷ []) two_entries entry_of-IsEntry (omega arith)
      (two_entries ∷ [], (two_node-IsStored, tt), refl, refl)
      (record { linked = two_node-Linked; safe = two_node-NoDangling; fresh = (omega arith, tt) })
