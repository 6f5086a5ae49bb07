-- ===== src/Logd/Serialized/Buffer/Front.antt =====
-- One round of Prune of logd/SerializedLogBuffer.cpp: the first chunk, its entries and its readers.
use android_system_logging.Common.{
  ℕ, ◌+◌, ◌-◌, ◌≤◌, ◌<◌, ◌≡◌, refl, ap, ◌∙◌, inl, inr, ◌⊎◌, ◌&&◌, some, List, [], ◌∷◌, ◌++◌, arith,
  length, flatten, ◌>>=◌, Succeeds, Succeeds-result, Bool-cases,
}
use android_system_logging.Logd.Statistics.{StatsCall, subtract}
use android_system_logging.Logd.Serialized.Entry.{SerializedLogEntry, to_log_statistics_element}
use android_system_logging.Logd.Serialized.Chunk.{
  SerializedLogChunk, Zstd, ZstdLaws, prune_size, entries, inc_reader_ref_count,
  dec_reader_ref_count,
}
use android_system_logging.Logd.Serialized.Chunk.Contents.{entries-Holds}
use android_system_logging.Logd.Serialized.Chunk.Packing.{
  inc_reader_ref_count-Holds, dec_reader_ref_count-Holds,
}
use android_system_logging.Logd.Serialized.Nodes.{ChunkNode}
use android_system_logging.Logd.Serialized.FlushState.{in_mask}
use android_system_logging.Logd.Serialized.Buffer.{
  Shared, wake, subtract_all, stats_call, size_used, remove_chunk_from_stats, prune_front,
  ReaderThread, notify_readers_of_prune,
}
use android_system_logging.Logd.Serialized.Buffer.Stores.{IsStored, Stores}
use android_system_logging.Logd.Serialized.Buffer.Links.{Linked, NoDangling, Released}
use android_system_logging.Logd.Serialized.Buffer.Readers.{
  Flush, Attached, notify_readers_of_prune-IsStored,
}

-- The calls that take the entries out of the statistics, newest first, before the earlier ones.
unfoldable pub subtractions : ℕ → List SerializedLogEntry → List StatsCall → List StatsCall
subtractions log_id [] calls = calls
subtractions log_id (e ∷ es) calls =
    subtractions log_id es (subtract (to_log_statistics_element e log_id) ∷ calls)

pub subtractions-append :
    (log_id : ℕ) (es fs : List SerializedLogEntry) (calls : List StatsCall)
    → subtractions log_id (es ++ fs) calls ≡ subtractions log_id fs (subtractions log_id es calls)
unfolding subtractions
subtractions-append log_id [] fs calls = refl
subtractions-append log_id (e ∷ es) fs calls = subtractions-append log_id es fs _

subtract_all_lem :
    (log_id : ℕ) (es : List SerializedLogEntry) (sh : Shared)
    → subtract_all log_id es sh ≡ record sh { stats_calls = subtractions log_id es sh.stats_calls }
unfolding subtract_all subtractions stats_call
subtract_all_lem log_id [] sh = refl
subtract_all_lem log_id (e ∷ es) sh = subtract_all_lem log_id es _

-- Waking threads changes nothing else.
wake_lem :
    (log_id : ℕ) (ts : List ReaderThread) (sh : Shared)
    → (w : List ReaderThread) × (wake log_id ts sh ≡ record sh { woken = w })
unfolding wake
wake_lem log_id [] sh = (sh.woken, refl)
wake_lem log_id (t ∷ ts) sh =
    elim (Bool-cases (in_mask log_id (sh.flush_states t.flush_state).log_mask && t.has_deadline)) [
      | inl on ↦ rw on (wake_lem log_id ts (record sh { woken = t ∷ sh.woken }))
      | inr off ↦ rw off (wake_lem log_id ts sh)
    ]

module _ (z : Zstd) (laws : ZstdLaws z) where
  remove_chunk_from_stats-IsStored :
      (log_id : ℕ) (c : SerializedLogChunk) (es : List SerializedLogEntry) (sh : Shared)
      → IsStored z c es
      → c.readers ≡ []
      → Succeeds (remove_chunk_from_stats z log_id c sh) (λ s.
        (s.0.reader_ref_count ≡ 0)
        × (s.1 ≡ record sh { stats_calls = subtractions log_id es sh.stats_calls }))
  unfolding remove_chunk_from_stats
  remove_chunk_from_stats-IsStored log_id c es sh s e =
      let (opened, e1, (v, count, _, _, _)) =
        Succeeds-result _ (inc_reader_ref_count z c) (
          inc_reader_ref_count-Holds s.holds laws (omega (arith, s.counted, s.few, ap length e))) in
      let (closed, e2, (_, count', _, _, _, _)) =
        Succeeds-result _ (dec_reader_ref_count opened)
          (dec_reader_ref_count-Holds v (omega arith)) in
      let all : entries opened ≡ some es = entries-Holds v (ground arith) in
      rw (e1, ◌>>=◌, all, e2) (omega (arith, s.counted, ap length e), subtract_all_lem log_id es sh)

  prune_front_step :
      (log_id : ℕ) (n m : ChunkNode) (rest : List ChunkNode) (sh sh1 sh2 : Shared) (flush : Flush)
      (closed : SerializedLogChunk)
      → wake log_id sh.reader_threads sh ≡ sh1
      → notify_readers_of_prune log_id n.chunk.readers (n ∷ rest) sh1.flush_states
        ≡ some (m ∷ rest, flush)
      → remove_chunk_from_stats z log_id m.chunk (record sh1 { flush_states = flush })
        ≡ some (closed, sh2)
      → closed.reader_ref_count ≡ 0
      → prune_front z log_id n rest sh ≡ some (prune_size m.chunk, rest, sh2)
  unfolding prune_front
  prune_front_step log_id n m rest sh sh1 sh2 flush closed e0 e1 e2 e3 =
      rw (e0, e1, ◌>>=◌, e0, e2, ◌>>=◌, e3)

  -- One round of the loop: the first chunk goes, and only that.
  pub prune_front-IsStored :
      (log_id : ℕ) (n : ChunkNode) (rest : List ChunkNode) (es : List SerializedLogEntry)
      (sh : Shared)
      → IsStored z n.chunk es
      → Attached log_id n.address sh.flush_states n.chunk.readers
      → Succeeds (prune_front z log_id n rest sh) (λ s.
        (s.0 ≡ prune_size n.chunk)
        × (s.1 ≡ rest)
        × Released log_id n.chunk.readers sh.flush_states s.2.flush_states
        × (s.2.stats_calls ≡ subtractions log_id es sh.stats_calls)
        × (s.2.next_address ≡ sh.next_address))
  unfolding prune_front
  prune_front-IsStored log_id n rest es sh s h =
      let (w, awake) = wake_lem log_id sh.reader_threads sh in
      let ((nodes, flush), e1, (c, left, s', alone, size, _, states)) =
        Succeeds-result _
          (notify_readers_of_prune log_id n.chunk.readers (n ∷ rest) sh.flush_states)
          (notify_readers_of_prune-IsStored z laws log_id n.chunk.readers n rest sh.flush_states es
            s refl h) in
      let ((closed, sh'), e2, (unread, shared)) =
        Succeeds-result _
          (remove_chunk_from_stats z log_id c (record sh { woken = w; flush_states = flush }))
          (remove_chunk_from_stats-IsStored log_id c es _ s' alone) in
      let m : ChunkNode = record n { chunk = c } in
      rw
        (prune_front_step log_id n m rest sh (record sh { woken = w }) sh' flush closed awake
          (e1 ∙ ap (λ (l : List ChunkNode). some (l, flush)) left) e2 unread)
        (size, refl, rw shared states, rw shared, rw shared)

-- What Prune leaves: the chunks behind a front that it destroyed, which store what is left of the
-- entries, with every link between readers and chunks intact.
pub record Pruned (z : Zstd) (log_id bytes : ℕ) (nodes : List ChunkNode)
    (ess : List (List SerializedLogEntry)) (sh : Shared) (s : List ChunkNode × Shared)
    : Type 0 where
  pub front : List ChunkNode
  pub dead : List (List SerializedLogEntry)
  pub kept : List (List SerializedLogEntry)
  pub nodes_split : nodes ≡ front ++ s.0
  pub entries_split : ess ≡ dead ++ kept
  pub stored : Stores z s.0 kept
  pub linked : Linked log_id s.1.flush_states s.0
  pub safe : NoDangling log_id s.1.flush_states s.0
  pub stats : s.1.stats_calls ≡ subtractions log_id (flatten dead) sh.stats_calls
  pub next : s.1.next_address ≡ sh.next_address
  pub enough : (bytes + size_used s.0 ≤ size_used nodes) ⊎ (s.0 ≡ [])
  pub no_more :
      (init : List ChunkNode) (last : ChunkNode)
      → front ≡ init ++ last ∷ []
      → (init ≡ []) ⊎ (size_used init < bytes)

pub only :
    (n : ChunkNode) (init : List ChunkNode) (last : ChunkNode)
    → n ∷ [] ≡ init ++ last ∷ []
    → init ≡ []
only n [] last e = refl
only n (m ∷ []) last e = absurd (omega (arith, ap length e))
only n (m ∷ k ∷ init) last e = absurd (omega (arith, ap length e))

abbrev Thrifty : List ChunkNode → ℕ → Type 0
Thrifty front bytes =
    (init : List ChunkNode) (last : ChunkNode)
    → front ≡ init ++ last ∷ []
    → (init ≡ []) ⊎ (size_used init < bytes)

pub longer_front :
    (n : ChunkNode) (front : List ChunkNode) (bytes : ℕ)
    → prune_size n.chunk < bytes
    → Thrifty front (bytes - prune_size n.chunk)
    → Thrifty (n ∷ front) bytes
unfolding size_used
longer_front n front bytes more h [] last e = inl refl
longer_front n front bytes more h (k ∷ init) last e =
    let head : n ≡ k = cc in
    let size : prune_size k.chunk < bytes = rw head at more in
    elim (h init last cc) [
      | inl empty ↦ inr (rw empty (omega arith))
      | inr fewer ↦
          inr (rw head at (let s : prune_size n.chunk + size_used init < bytes = omega arith in s))
    ]
