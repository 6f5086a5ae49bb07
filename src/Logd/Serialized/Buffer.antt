-- ===== src/Logd/Serialized/Buffer.antt =====
-- logd/SerializedLogBuffer.{h,cpp}. The readers, the statistics calls and the wake-ups are part of
-- the state; the warnings that logd prints are not.
pub mod Stores
pub mod Append
pub mod Readers
pub mod Links
pub mod Outline
pub mod Front
pub mod Pruning
use android_system_logging.Common.{
  ℕ, zero, suc, ◌+◌, ◌-◌, ◌/◌, Bool, true, false, ◌||◌, ◌&&◌, Option, none, some, List, [], ◌∷◌,
  ◌++◌, length, ltb, leb, ◌==◌, if◌then◌else◌, ◌>>=◌, ◌>>◌, check, update,
}
use android_system_logging.Logd.LogSize.{is_valid_buffer_size}
use android_system_logging.Logd.Statistics.{StatsCall, subtract, set_overhead}
use android_system_logging.Logd.Serialized.Entry.{
  SerializedLogEntry, sizeof_entry, to_log_statistics_element,
}
use android_system_logging.Logd.Serialized.Chunk.{
  SerializedLogChunk, Zstd, new_chunk, can_log, log, prune_size, entries, finish_writing,
  inc_reader_ref_count, dec_reader_ref_count,
}
use android_system_logging.Logd.Serialized.Nodes.{ChunkNode, modify_back, back}
use android_system_logging.Logd.Serialized.FlushState.{SerializedFlushToState, in_mask}
use android_system_logging.Logd.Serialized.FlushState

-- What Prune and Clear ask of a reader thread: its flush state, and whether it waits for a wrap.
pub record ReaderThread : Type 0 where
  pub flush_state : ℕ
  pub has_deadline : Bool

-- What the logs share: the flush states by address, the list of reader threads, the calls to the
-- statistics (newest first), the threads woken (newest first), and the next free node address.
pub record Shared : Type 0 where
  pub flush_states : ℕ → SerializedFlushToState
  pub reader_threads : List ReaderThread
  pub stats_calls : List StatsCall
  pub woken : List ReaderThread
  pub next_address : ℕ

pub record SerializedLogBuffer : Type 0 where
  pub max_size : ℕ → ℕ
  pub logs : ℕ → List ChunkNode
  pub sequence : ℕ
  pub shared : Shared

abbrev chunk_size_divisor : ℕ
chunk_size_divisor = 4

unfoldable pub fresh_node : ℕ → ℕ → ChunkNode
fresh_node address max_size = record {
  address = address;
  chunk = new_chunk (max_size / chunk_size_divisor);
}

unfoldable pub stats_call : StatsCall → Shared → Shared
stats_call call sh = record sh { stats_calls = call ∷ sh.stats_calls }

abbrev pub Chunks : Type 0
Chunks = List ChunkNode × ℕ

-- "If the log is empty, give it a chunk."
unfoldable pub ensure_chunk : ℕ → Chunks → Chunks
ensure_chunk max_size ([], next) = (fresh_node next max_size ∷ [], suc next)
ensure_chunk max_size (n ∷ ns, next) = (n ∷ ns, next)

module _ (z : Zstd) where
  -- If the last chunk has no room, it is closed and a new one follows it.
  unfoldable pub ensure_room : ℕ → ℕ → Chunks → Option Chunks
  ensure_room max_size total_len (nodes, next) = do
    last ← back nodes
    if can_log last total_len then some (nodes, next) else do
      closed ← modify_back (finish_writing z) nodes
      some (closed ++ (fresh_node next max_size ∷ []), suc next)

  unfoldable pub log_to_log_buffer : ℕ → SerializedLogEntry → Chunks → Option Chunks
  log_to_log_buffer max_size e cs = do
    (nodes, next) ← ensure_room max_size (sizeof_entry + length e.msg) (ensure_chunk max_size cs)
    nodes' ← modify_back (λ c. log c e) nodes
    some (nodes', next)

-- NotifyReadersOfPrune: each reader of the copied list lets go of its position in the log.
unfoldable pub notify_readers_of_prune :
    ℕ
    → List ℕ
    → List ChunkNode
    → (ℕ → SerializedFlushToState)
    → Option (List ChunkNode × (ℕ → SerializedFlushToState))
notify_readers_of_prune log_id [] nodes flush = some (nodes, flush)
notify_readers_of_prune log_id (r ∷ rs) nodes flush = do
  (nodes', st) ← FlushState.prune log_id r nodes (flush r)
  notify_readers_of_prune log_id rs nodes' (update flush r st)

-- The watching threads that wait for a wrap are woken.
unfoldable pub wake : ℕ → List ReaderThread → Shared → Shared
wake log_id [] sh = sh
wake log_id (t ∷ ts) sh =
    let watching = in_mask log_id (sh.flush_states t.flush_state).log_mask in
    wake log_id ts (if watching && t.has_deadline then record sh { woken = t ∷ sh.woken } else sh)

unfoldable pub subtract_all : ℕ → List SerializedLogEntry → Shared → Shared
subtract_all log_id [] sh = sh
subtract_all log_id (e ∷ es) sh =
    subtract_all log_id es (stats_call (subtract (to_log_statistics_element e log_id)) sh)

unfoldable pub size_used : List ChunkNode → ℕ
size_used [] = 0
size_used (n ∷ ns) = prune_size n.chunk + size_used ns

unfoldable pub contains_uid : ℕ → List SerializedLogEntry → Bool
contains_uid uid [] = false
contains_uid uid (e ∷ es) = e.uid == uid || contains_uid uid es

module _ (z : Zstd) where
  unfoldable pub remove_chunk_from_stats :
      ℕ → SerializedLogChunk → Shared → Option (SerializedLogChunk × Shared)
  remove_chunk_from_stats log_id c sh = do
    opened ← inc_reader_ref_count z c
    es ← entries opened
    closed ← dec_reader_ref_count opened
    some (closed, subtract_all log_id es sh)

  -- The body of the loop of Prune for the first chunk: the readers of the chunk are notified, its
  -- entries are taken out of the statistics, and the chunk is destroyed, which checks that nobody
  -- refers to it. The result is the size that it had, and the chunks that are left.
  unfoldable pub prune_front :
      ℕ → ChunkNode → List ChunkNode → Shared → Option (ℕ × List ChunkNode × Shared)
  prune_front log_id n rest sh = do
    let awake = wake log_id sh.reader_threads sh
    (nodes, flush) ← notify_readers_of_prune log_id n.chunk.readers (n ∷ rest) awake.flush_states
    elim nodes [
      | [] ↦ none
      | m ∷ left ↦ do
        (c, sh') ← remove_chunk_from_stats log_id m.chunk (record awake { flush_states = flush })
        check (c.reader_ref_count == 0)
        some (prune_size m.chunk, left, sh')
    ]

  -- Each round destroys a chunk, so as many rounds as there are chunks are enough.
  unfoldable pub prune_loop : ℕ → ℕ → ℕ → List ChunkNode → Shared → Option (List ChunkNode × Shared)
  prune_loop fuel log_id bytes_to_free [] sh = some ([], sh)
  prune_loop zero log_id bytes_to_free (n ∷ ns) sh = none
  prune_loop (suc fuel) log_id bytes_to_free (n ∷ ns) sh = do
    (buffer_size, left, sh') ← prune_front log_id n ns sh
    let more = prune_loop fuel log_id (bytes_to_free - buffer_size) left sh'
    if leb bytes_to_free buffer_size then some (left, sh') else more

  unfoldable pub prune : ℕ → ℕ → SerializedLogBuffer → Option SerializedLogBuffer
  prune log_id bytes_to_free b = do
    (nodes, sh) ← prune_loop (length (b.logs log_id)) log_id bytes_to_free (b.logs log_id) b.shared
    some (record b { logs = update b.logs log_id nodes; shared = sh })

  -- MaybePrune: a log over its limit is pruned, and its size is reported.
  unfoldable pub maybe_prune : ℕ → SerializedLogBuffer → Option SerializedLogBuffer
  maybe_prune log_id b = do
    let total_size = size_used (b.logs log_id)
    let excess = total_size - b.max_size log_id
    pruned ← (if ltb (b.max_size log_id) total_size then prune log_id excess b else some b)
    let after_size = size_used (pruned.logs log_id)
    some (record pruned { shared = stats_call (set_overhead log_id after_size) pruned.shared })

  -- SetSize: a size out of the limits is refused.
  unfoldable pub set_size : ℕ → ℕ → SerializedLogBuffer → Option (Bool × SerializedLogBuffer)
  set_size id size b =
      let resized = maybe_prune id (record b { max_size = update b.max_size id size }) in
      if is_valid_buffer_size size then (resized >>= λ b'. some (true, b')) else some (false, b)
