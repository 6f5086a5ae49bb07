-- ===== src/Logd/Serialized/Clear/Opening.antt =====
-- A chunk opened by ClearLogsByUid of logd/SerializedLogBuffer.cpp, and its entries logged again.
use android_system_logging.Common.{
  ℕ, ◌*◌, ◌≤◌, ◌≡◌, refl, ap, ◌∙◌, subst, inl, inr, true, false, some, List, [], ◌∷◌, ◌++◌,
  append_assoc, append-nil, arith, length, All, ◌==◌, if◌then◌else◌, ◌>>=◌, Succeeds,
  Succeeds-result, Bool-cases,
}
use android_system_logging.Logd.Statistics.{subtract}
use android_system_logging.Logd.Serialized.Entry.{
  SerializedLogEntry, IsEntry, to_log_statistics_element,
}
use android_system_logging.Logd.Serialized.Chunk.{
  SerializedLogChunk, Zstd, ZstdLaws, entries, inc_reader_ref_count, dec_reader_ref_count,
}
use android_system_logging.Logd.Serialized.Chunk.Contents.{Holds, entries-Holds}
use android_system_logging.Logd.Serialized.Chunk.Packing.{
  inc_reader_ref_count-Holds, dec_reader_ref_count-Holds,
}
use android_system_logging.Logd.Serialized.Nodes.{ChunkNode}
use android_system_logging.Logd.Serialized.Buffer.{
  Shared, stats_call, log_to_log_buffer, contains_uid, notify_readers_of_prune,
}
use android_system_logging.Logd.Serialized.Buffer.Stores.{IsStored, LastActive}
use android_system_logging.Logd.Serialized.Buffer.Append.{Contains, log_to_log_buffer-Contains}
use android_system_logging.Logd.Serialized.Buffer.Readers.{
  Flush, Attached, notify_readers_of_prune-IsStored,
}
use android_system_logging.Logd.Serialized.Buffer.Links.{Released}
use android_system_logging.Logd.Serialized.Buffer.Front.{subtractions}
use android_system_logging.Logd.Serialized.Clear.{open_chunk, rewrite_entries}

-- The entries of the other users, and those of the user.
unfoldable pub without : ℕ → List SerializedLogEntry → List SerializedLogEntry
without uid [] = []
without uid (e ∷ es) = if e.uid == uid then without uid es else e ∷ without uid es

unfoldable pub of_user : ℕ → List SerializedLogEntry → List SerializedLogEntry
of_user uid [] = []
of_user uid (e ∷ es) = if e.uid == uid then e ∷ of_user uid es else of_user uid es

pub without-append :
    (uid : ℕ) (es fs : List SerializedLogEntry)
    → without uid (es ++ fs) ≡ without uid es ++ without uid fs
unfolding without
without-append uid [] fs = refl
without-append uid (e ∷ es) fs = ground (arith, without-append uid es fs)

pub of_user-append :
    (uid : ℕ) (es fs : List SerializedLogEntry)
    → of_user uid (es ++ fs) ≡ of_user uid es ++ of_user uid fs
unfolding of_user
of_user-append uid [] fs = refl
of_user-append uid (e ∷ es) fs = ground (arith, of_user-append uid es fs)

pub without_absent :
    (uid : ℕ) (es : List SerializedLogEntry)
    → contains_uid uid es ≡ false
    → (without uid es ≡ es) × (of_user uid es ≡ [])
unfolding without of_user contains_uid
without_absent uid [] out = (refl, refl)
without_absent uid (e ∷ es) out = ground (arith, without_absent uid es)

module _ (z : Zstd) (laws : ZstdLaws z) (log_id uid max_size : ℕ)
    (valid : 64 * 1024 ≤ max_size) where
  -- Logging the entries that stay appends them, and the others leave the statistics.
  pub rewrite_entries-Contains :
      (es fs : List SerializedLogEntry) (new_logs : List ChunkNode) (sh : Shared)
      → All IsEntry es
      → Contains z fs new_logs
      → Succeeds (rewrite_entries z log_id uid max_size es new_logs sh) (λ s.
        Contains z (fs ++ without uid es) s.0
        × (s.1.stats_calls ≡ subtractions log_id (of_user uid es) sh.stats_calls)
        × (s.1.flush_states ≡ sh.flush_states))
  unfolding rewrite_entries without of_user subtractions stats_call
  rewrite_entries-Contains [] fs new_logs sh fits h = (rw append-nil h, refl, refl)
  rewrite_entries-Contains (e ∷ es) fs new_logs sh fits h = elim (Bool-cases (e.uid == uid)) [
    | inl mine ↦
        rw (mine, rewrite_entries)
          (rewrite_entries-Contains es fs new_logs
            (stats_call (subtract (to_log_statistics_element e log_id)) sh) fits.1 h)
    | inr other ↦
        let ((new_logs', next), e1, h') =
          Succeeds-result _ (log_to_log_buffer z max_size e (new_logs, sh.next_address))
            (log_to_log_buffer-Contains z e fits.0 max_size sh.next_address new_logs fs valid h) in
        rw (other, rewrite_entries, e1, ◌>>=◌)
          (subst
            (λ (l : List SerializedLogEntry).
              Succeeds
                (rewrite_entries z log_id uid max_size es new_logs'
                  (record sh { next_address = next }))
                (λ s.
                  Contains z l s.0
                  × (s.1.stats_calls ≡ subtractions log_id (of_user uid es) sh.stats_calls)
                  × (s.1.flush_states ≡ sh.flush_states)))
            (append_assoc fs (e ∷ []) (without uid es))
            (rewrite_entries-Contains es (fs ++ e ∷ []) new_logs'
              (record sh { next_address = next }) fits.1 h'))
  ]

  -- A chunk of the old list, opened: nobody else refers to it, and its entries are all read.
  pub open_chunk-IsStored :
      (n : ChunkNode) (rest : List ChunkNode) (es : List SerializedLogEntry) (sh : Shared)
      → IsStored z n.chunk es
      → Attached log_id n.address sh.flush_states n.chunk.readers
      → (m : ChunkNode) × (flush : Flush) × (open_chunk z log_id n rest sh
          ≡ some (m, rest, es, record sh { flush_states = flush }))
        × Released log_id n.chunk.readers sh.flush_states flush
        × Holds z m.chunk es
        × (m.chunk.reader_ref_count ≡ 1)
        × (m.chunk.readers ≡ [])
        × (m.chunk.writer_active ≡ n.chunk.writer_active)
  unfolding open_chunk
  open_chunk-IsStored n rest es sh s h =
      let ((nodes, flush), e1, (c, left, s', alone, _, active, states)) =
        Succeeds-result _
          (notify_readers_of_prune log_id n.chunk.readers (n ∷ rest) sh.flush_states)
          (notify_readers_of_prune-IsStored z laws log_id n.chunk.readers n rest sh.flush_states es
            s refl h) in
      let (d, e2, (v, count, readers, active', _)) =
        Succeeds-result _ (inc_reader_ref_count z c)
          (inc_reader_ref_count-Holds s'.holds laws (omega (arith, s'.counted, s'.few))) in
      let all : entries d ≡ some es = entries-Holds v (ground arith) in
      (
        record n { chunk = d },
        flush,
        rw (e1, ◌>>=◌, left, e2, ◌>>=◌, all),
        states,
        v,
        omega (arith, count, s'.counted, ap length alone),
        readers ∙ alone,
        active' ∙ active,
      )

  pub LastActive-tail : (n : ChunkNode) (ns : List ChunkNode) → LastActive (n ∷ ns) → LastActive ns
  LastActive-tail n [] active = tt
  LastActive-tail n (m ∷ ns) active = active

  pub LastActive-single :
      (n : ChunkNode) (ns : List ChunkNode)
      → LastActive (n ∷ ns)
      → ns ≡ []
      → n.chunk.writer_active ≡ true
  LastActive-single n [] active e = active
  LastActive-single n (m ∷ ns) active e = cc

  -- After a chunk has been opened, closing it again leaves it as it was, with no readers.
  pub close_chunk :
      (c : SerializedLogChunk) (es : List SerializedLogEntry)
      → Holds z c es
      → c.reader_ref_count ≡ 1
      → c.readers ≡ []
      → (d : SerializedLogChunk) × (dec_reader_ref_count c ≡ some d)
        × IsStored z d es
        × (d.reader_ref_count ≡ 0)
        × (d.writer_active ≡ c.writer_active)
  close_chunk c es v count alone =
      let (d, e, (v', count', readers, active, _, _)) =
        Succeeds-result _ (dec_reader_ref_count c) (dec_reader_ref_count-Holds v (omega arith)) in
      (
        d,
        e,
        record {
          holds = v';
          counted = omega (arith, ap length (readers ∙ alone));
          few = omega (arith, ap length (readers ∙ alone));
        },
        omega arith,
        active,
      )
