-- ===== src/Logd/Serialized/Write/Logs.antt =====
-- The invariant of one log of logd/SerializedLogBuffer.cpp, and the parts of Log and SetSize that touch it.
use android_system_logging.Common.{
  ℕ, ◌+◌, ◌-◌, ◌*◌, ◌%◌, ◌^◌, ◌≤◌, ◌<◌, ◌≡◌, refl, sym, ap, ◌∙◌, subst, inl, inr, ◌≢◌, List, [],
  ◌∷◌, ◌++◌, arith, length, All, flatten, flatten-append, ltb, ltb→lt, ◌>>=◌, Succeeds,
  Succeeds-result, Succeeds-map, Bool-cases, update, ==_self, ne→==_false,
}
use android_system_logging.Logd.Statistics.{StatsCall, add}
use android_system_logging.Logd.Serialized.Entry.{
  SerializedLogEntry, IsEntry, to_log_statistics_element,
}
use android_system_logging.Logd.Serialized.Chunk.{Zstd, ZstdLaws}
use android_system_logging.Logd.Serialized.Nodes.{ChunkNode}
use android_system_logging.Logd.Serialized.Buffer.{
  SerializedLogBuffer, stats_call, size_used, log_to_log_buffer, prune_loop, prune, maybe_prune,
}
use android_system_logging.Logd.Serialized.Buffer.Stores.{LastActive}
use android_system_logging.Logd.Serialized.Buffer.Append.{Contains, log_to_log_buffer-Contains}
use android_system_logging.Logd.Serialized.Buffer.Outline.{IsLinked, log_to_log_buffer-IsLinked}
use android_system_logging.Logd.Serialized.Buffer.Pruning.{prune_loop-Pruned, size-Pruned}
use android_system_logging.Logd.Serialized.Write.{Message, make_entry, store}

-- The log holds these entries, its size is a valid one, and its readers are linked both ways.
pub record IsLog (z : Zstd) (log_id : ℕ) (b : SerializedLogBuffer) (es : List SerializedLogEntry)
    : Type 0 where
  pub valid : 64 * 1024 ≤ b.max_size log_id
  pub contains : Contains z es (b.logs log_id)
  pub links : IsLinked log_id b.shared.flush_states (b.logs log_id, b.shared.next_address)

-- Some of the oldest entries went, and the rest is in the log, within its limit. No other log was
-- touched.
pub record Trimmed (z : Zstd) (log_id : ℕ) (b : SerializedLogBuffer) (es : List SerializedLogEntry)
    (b' : SerializedLogBuffer) : Type 0 where
  pub dropped : List SerializedLogEntry
  pub kept : List SerializedLogEntry
  pub split : es ≡ dropped ++ kept
  pub is_log : IsLog z log_id b' kept
  pub within : size_used (b'.logs log_id) ≤ b.max_size log_id
  pub sizes : b'.max_size ≡ b.max_size
  pub others : (j : ℕ) → j ≢ log_id → b'.logs j ≡ b.logs j

LastActive-suffix : (front rest : List ChunkNode) → LastActive (front ++ rest) → LastActive rest
LastActive-suffix [] rest h = h
LastActive-suffix (n ∷ []) [] h = tt
LastActive-suffix (n ∷ []) (m ∷ ms) h = h
LastActive-suffix (n ∷ k ∷ front) rest h = LastActive-suffix (k ∷ front) rest h

All-suffix :
    (P : ChunkNode → Type 0) (front rest : List ChunkNode) → All P (front ++ rest) → All P rest
All-suffix P [] rest h = h
All-suffix P (n ∷ front) rest h = All-suffix P front rest h.1

abbrev reported : StatsCall → SerializedLogBuffer → SerializedLogBuffer
reported call b = record b {
  shared = record (b.shared) { stats_calls = call ∷ b.shared.stats_calls };
}

reported-IsLog :
    {z : Zstd} {log_id : ℕ} (call : StatsCall) (b : SerializedLogBuffer)
    (es : List SerializedLogEntry)
    → IsLog z log_id b es
    → IsLog z log_id (reported call b) es
reported-IsLog call b es h = record {
  valid = h.valid;
  contains = h.contains;
  links = record { linked = h.links.linked; safe = h.links.safe; fresh = h.links.fresh };
}

module _ (z : Zstd) (laws : ZstdLaws z) (log_id : ℕ) where
  prune-Trimmed :
      (bytes : ℕ) (b : SerializedLogBuffer) (es : List SerializedLogEntry)
      → IsLog z log_id b es
      → Succeeds (prune z log_id bytes b) (λ b'.
        (dropped : List SerializedLogEntry) × (kept : List SerializedLogEntry) × (es
          ≡ dropped ++ kept)
        × IsLog z log_id b' kept
        × (b'.max_size ≡ b.max_size)
        × ((j : ℕ) → j ≢ log_id → b'.logs j ≡ b.logs j)
        × (bytes ≤ size_used (b.logs log_id)
            → size_used (b'.logs log_id) + bytes ≤ size_used (b.logs log_id)))
  unfolding prune
  prune-Trimmed bytes b es h =
      let (ess, s, active, e) = h.contains in
      let ((nodes, sh), e1, p) =
        Succeeds-result _
          (prune_loop z (length (b.logs log_id)) log_id bytes (b.logs log_id) b.shared)
          (prune_loop-Pruned z laws log_id (length (b.logs log_id)) bytes (b.logs log_id) ess
            b.shared (omega arith) s h.links.linked h.links.safe) in
      rw (e1, ◌>>=◌)
        (
          flatten p.dead,
          flatten p.kept,
          sym e ∙ ap flatten p.entries_split ∙ flatten-append p.dead p.kept,
          record {
            valid = h.valid;
            contains = rw (==_self log_id) (
              p.kept,
              p.stored,
              LastActive-suffix p.front nodes (subst LastActive p.nodes_split active),
              refl,
            );
            links = rw (==_self log_id) (record {
              linked = p.linked;
              safe = p.safe;
              fresh = rw p.next (
                  All-suffix (λ n. n.address < b.shared.next_address) p.front nodes
                    (subst (All (λ (n : ChunkNode). n.address < b.shared.next_address))
                      p.nodes_split h.links.fresh));
            });
          },
          refl,
          (λ j ne. rw (ne→==_false log_id j (λ q. ne (sym q)))),
          λ big. rw (==_self log_id) (size-Pruned p big),
        )

  -- MaybePrune brings the log within its limit.
  pub maybe_prune-Trimmed :
      (b : SerializedLogBuffer) (es : List SerializedLogEntry)
      → IsLog z log_id b es
      → Succeeds (maybe_prune z log_id b) (Trimmed z log_id b es)
  unfolding maybe_prune stats_call
  maybe_prune-Trimmed b es h =
      elim (Bool-cases (ltb (b.max_size log_id) (size_used (b.logs log_id)))) [
        | inl over ↦
            let (b', e, (dropped, kept, split, is_log, sizes, others, size)) =
              Succeeds-result _ (prune z log_id (size_used (b.logs log_id) - b.max_size log_id) b)
                (prune-Trimmed (size_used (b.logs log_id) - b.max_size log_id) b es h) in
            rw (over, e, ◌>>=◌)
              (record {
                dropped = dropped;
                kept = kept;
                split = split;
                is_log = reported-IsLog _ b' kept is_log;
                within = omega (arith, ltb→lt _ _ over, size (omega arith));
                sizes = sizes;
                others = others;
              })
        | inr fits ↦
            rw (fits, ◌>>=◌)
              (record {
                dropped = [];
                kept = es;
                split = refl;
                is_log = reported-IsLog _ b es h;
                within = ground arith;
                sizes = refl;
                others = λ j ne. refl;
              })
      ]

-- An entry that is stored stands last in its log, which is then brought within its limit.
pub store-Trimmed :
    (z : Zstd) (m : Message) (msg : List ℕ) (b : SerializedLogBuffer) (es : List SerializedLogEntry)
    → ZstdLaws z
    → IsEntry (make_entry b.sequence m msg)
    → IsLog z m.log_id b es
    → Succeeds (store z m msg b) (Trimmed z m.log_id b (es ++ make_entry b.sequence m msg ∷ []))
unfolding store stats_call
store-Trimmed z m msg b es laws fits h =
    let i = m.log_id in
    let e = make_entry b.sequence m msg in
    let ((nodes, next), e1, contains) =
      Succeeds-result _ (log_to_log_buffer z (b.max_size i) e (b.logs i, b.shared.next_address)) (
        log_to_log_buffer-Contains z e fits (b.max_size i) b.shared.next_address (b.logs i) es
          h.valid h.contains) in
    let linked =
      log_to_log_buffer-IsLinked i b.shared.flush_states z (b.max_size i) e
        (b.logs i, b.shared.next_address) (nodes, next) e1 h.links in
    let b1 : SerializedLogBuffer = record b {
      logs = update b.logs i nodes;
      sequence = (b.sequence + 1) % 2 ^ 64;
      shared = record (b.shared) {
        stats_calls = add (to_log_statistics_element e i) ∷ b.shared.stats_calls;
        next_address = next;
      };
    } in
    let h1 : IsLog z i b1 (es ++ e ∷ []) = record {
      valid = h.valid;
      contains = rw (==_self i) contains;
      links =
          rw (==_self i)
            (record { linked = linked.linked; safe = linked.safe; fresh = linked.fresh });
    } in
    rw (e1, ◌>>=◌)
      (Succeeds-map (Trimmed z i b1 (es ++ e ∷ [])) (Trimmed z i b (es ++ e ∷ []))
        (maybe_prune z i b1)
        (λ b' t. record {
          dropped = t.dropped;
          kept = t.kept;
          split = t.split;
          is_log = t.is_log;
          within = t.within;
          sizes = t.sizes;
          others = λ j ne. t.others j ne ∙ rw (ne→==_false i j (λ q. ne (sym q)));
        })
        (maybe_prune-Trimmed z laws i b1 (es ++ e ∷ []) h1))
