-- ===== src/Logd/Serialized/Clear.antt =====
-- ClearLogsByUid, UidClear and Clear of logd/SerializedLogBuffer.cpp.
pub mod Opening
pub mod Users
use android_system_logging.Common.{
  ℕ, zero, suc, ◌-◌, ◌^◌, Bool, true, false, ◌||◌, ◌&&◌, Option, none, some, List, [], ◌∷◌, ◌++◌,
  length, ◌==◌, if◌then◌else◌, ◌>>=◌, ◌>>◌, check, update,
}
use android_system_logging.Logd.Statistics.{subtract}
use android_system_logging.Logd.Serialized.Entry.{SerializedLogEntry, to_log_statistics_element}
use android_system_logging.Logd.Serialized.Chunk.{
  SerializedLogChunk, Zstd, entries, inc_reader_ref_count, dec_reader_ref_count,
}
use android_system_logging.Logd.Serialized.Nodes.{ChunkNode}
use android_system_logging.Logd.Serialized.Buffer.{
  Shared, SerializedLogBuffer, stats_call, fresh_node, log_to_log_buffer, notify_readers_of_prune,
  wake, contains_uid, prune,
}

-- A node of the old list that its readers have left: they are notified, and a reference of the
-- loop keeps its contents in memory. The result is the node, what follows it, and the entries.
abbrev Opened : Type 0
Opened = ChunkNode × List ChunkNode × List SerializedLogEntry × Shared

-- With the first entry of the user found, the new list gets a chunk to write to.
unfoldable pub first_new_chunk : ℕ → Bool → List ChunkNode → Shared → List ChunkNode × Shared
first_new_chunk max_size true new_logs sh = (new_logs, sh)
first_new_chunk max_size false new_logs sh = (
  new_logs ++ (fresh_node sh.next_address max_size ∷ []),
  record sh { next_address = suc sh.next_address },
)

module _ (z : Zstd) (log_id : ℕ) where
  unfoldable pub open_chunk : ChunkNode → List ChunkNode → Shared → Option Opened
  open_chunk n rest sh = do
    (nodes, flush) ← notify_readers_of_prune log_id n.chunk.readers (n ∷ rest) sh.flush_states
    elim nodes [
      | [] ↦ none
      | m ∷ left ↦ do
        c ← inc_reader_ref_count z m.chunk
        es ← entries c
        some (record m { chunk = c }, left, es, record sh { flush_states = flush })
    ]

  -- The entries of the user leave the statistics; the others are logged anew.
  unfoldable pub rewrite_entries :
      ℕ → ℕ → List SerializedLogEntry → List ChunkNode → Shared → Option (List ChunkNode × Shared)
  rewrite_entries uid max_size [] new_logs sh = some (new_logs, sh)
  rewrite_entries uid max_size (e ∷ es) new_logs sh = elim (e.uid == uid) [
    | true ↦
        rewrite_entries uid max_size es new_logs
          (stats_call (subtract (to_log_statistics_element e log_id)) sh)
    | false ↦ do
      (new_logs', next) ← log_to_log_buffer z max_size e (new_logs, sh.next_address)
      rewrite_entries uid max_size es new_logs' (record sh { next_address = next })
  ]

  -- Chunks before the first entry of the user are kept as they are; from then on, the entries that
  -- stay are logged into new chunks. The first argument bounds the rounds, one for each chunk.
  unfoldable pub clear_loop :
      ℕ → ℕ → ℕ → Bool → List ChunkNode → List ChunkNode → Shared → Option (List ChunkNode × Shared)
  clear_loop fuel uid max_size contains [] new_logs sh = some (new_logs, sh)
  clear_loop zero uid max_size contains (n ∷ ns) new_logs sh = none
  clear_loop (suc fuel) uid max_size contains (n ∷ ns) new_logs sh = do
    (m, left, es, sh1) ← open_chunk n ns sh
    let keep = do
      c ← dec_reader_ref_count m.chunk
      clear_loop fuel uid max_size false left (new_logs ++ (record m { chunk = c } ∷ [])) sh1
    let start = first_new_chunk max_size contains new_logs sh1
    let rewritten = do
      (new_logs', sh2) ← rewrite_entries uid max_size es start.0 start.1
      c ← dec_reader_ref_count m.chunk
      check (c.reader_ref_count == 0)
      clear_loop fuel uid max_size true left new_logs' sh2
    if contains || contains_uid uid es then rewritten else keep

  unfoldable pub clear_logs_by_uid :
      ℕ → ℕ → List ChunkNode → Shared → Option (List ChunkNode × Shared)
  clear_logs_by_uid uid max_size nodes sh = clear_loop (length nodes) uid max_size false nodes [] sh

  unfoldable pub uid_clear : ℕ → SerializedLogBuffer → Option SerializedLogBuffer
  uid_clear uid b = do
    let awake = wake log_id b.shared.reader_threads b.shared
    (nodes, sh) ← clear_logs_by_uid uid (b.max_size log_id) (b.logs log_id) awake
    some (record b { logs = update b.logs log_id nodes; shared = sh })

  -- ULONG_MAX bytes are more than any log has.
  unfoldable pub clear : ℕ → SerializedLogBuffer → Option SerializedLogBuffer
  clear uid b = elim (uid == 0) [ true ↦ prune z log_id (2 ^ 64 - 1) b | false ↦ uid_clear uid b ]
