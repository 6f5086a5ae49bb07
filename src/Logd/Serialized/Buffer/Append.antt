-- ===== src/Logd/Serialized/Buffer/Append.antt =====
-- LogToLogBuffer of logd/SerializedLogBuffer.cpp and the entries of the log.
use android_system_logging.Common.{
  ℕ, ◌+◌, ◌≤◌, ◌≡◌, refl, ap, ◌∙◌, inl, inr, true, some, List, [], ◌∷◌, ◌++◌, append_assoc,
  append-nil, arith, length, subst, length-append, flatten, flatten-append, Bool-cases, ◌>>=◌,
  Succeeds, Succeeds-result, ◌*◌, suc,
}
use android_system_logging.Logd.Serialized.Entry.{SerializedLogEntry, IsEntry, sizeof_entry}
use android_system_logging.Logd.Serialized.Chunk.{new_chunk, Zstd, can_log, log, finish_writing}
use android_system_logging.Logd.Serialized.Chunk.Contents.{log-Holds}
use android_system_logging.Logd.Serialized.Chunk.Packing.{finish_writing-Holds}
use android_system_logging.Logd.Serialized.Nodes.{ChunkNode, modify_back, back}
use android_system_logging.Logd.Serialized.Buffer.{
  fresh_node, ensure_chunk, ensure_room, log_to_log_buffer,
}
use android_system_logging.Logd.Serialized.Buffer.Stores.{
  IsStored, Stores, LastActive, fresh_node-IsStored, fresh_node_room, Stores-append,
  LastActive-append,
}

-- The chunks store these entries, and the last takes more.
abbrev pub Contains : Zstd → List SerializedLogEntry → List ChunkNode → Type 0
Contains z es nodes =
    (ess : List (List SerializedLogEntry)) × Stores z nodes ess
    × LastActive nodes
    × (flatten ess ≡ es)

pub fresh_node_active :
    (address max_size : ℕ) → (fresh_node address max_size).chunk.writer_active ≡ true
unfolding fresh_node new_chunk
fresh_node_active address max_size = refl

ensure_chunk-Contains :
    {z : Zstd} (max_size next : ℕ) (nodes : List ChunkNode) (es : List SerializedLogEntry)
    → Contains z es nodes
    → (n : ChunkNode) × (ns : List ChunkNode) × (next' : ℕ) × (ensure_chunk max_size (nodes, next)
        ≡ (n ∷ ns, next'))
      × Contains z es (n ∷ ns)
unfolding ensure_chunk
ensure_chunk-Contains {z} max_size next [] es ([], s, active, eq) = (
  fresh_node next max_size,
  [],
  suc next,
  refl,
  ([] ∷ [], (fresh_node-IsStored z next max_size, tt), fresh_node_active next max_size, eq),
)
ensure_chunk-Contains max_size next [] es (fs ∷ ess, s, active, eq) = absurd s
ensure_chunk-Contains max_size next (n ∷ ns) es h = (n, ns, next, refl, h)

module _ (z : Zstd) (e : SerializedLogEntry) (fits : IsEntry e) where
  abbrev HasRoom : List ChunkNode → Type 0
  HasRoom nodes = Succeeds (back nodes) (λ c. can_log c (sizeof_entry + length e.msg) ≡ true)

  cons-Contains :
      (n : ChunkNode) (es fs : List SerializedLogEntry) (rest : List ChunkNode)
      → IsStored z n.chunk es
      → Contains z (fs ++ e ∷ []) rest
      → Contains z ((es ++ fs) ++ e ∷ []) (n ∷ rest)
  cons-Contains n es fs [] h ([], s, active, eq) =
      absurd (omega (arith, ap length eq, length-append fs (e ∷ [])))
  cons-Contains n es fs [] h (gs ∷ gss, s, active, eq) = absurd s
  cons-Contains n es fs (m ∷ ms) h (gss, s, active, eq) =
      (es ∷ gss, (h, s), active, rw (eq, append_assoc es fs (e ∷ [])))

  log_back-Contains :
      (nodes : List ChunkNode) (ess : List (List SerializedLogEntry))
      → Stores z nodes ess
      → LastActive nodes
      → HasRoom nodes
      → Succeeds (modify_back (λ c. log c e) nodes) (Contains z (flatten ess ++ e ∷ []))
  unfolding modify_back back
  log_back-Contains [] ess s active room = absurd room
  log_back-Contains (n ∷ ns) [] s active room = absurd s
  log_back-Contains (n ∷ []) (es ∷ []) s active room =
      let (c, logged, (holds, open_c, readers, count, _)) =
        Succeeds-result _ (log n.chunk e) (log-Holds s.0.holds e fits active room) in
      rw (logged, ◌>>=◌)
        (
          (es ++ e ∷ []) ∷ [],
          (
            record {
              holds = holds;
              counted = rw (count, readers) s.0.counted;
              few = rw readers s.0.few;
            },
            tt,
          ),
          open_c,
          rw (append-nil (es ++ e ∷ []), append-nil es),
        )
  log_back-Contains (n ∷ []) (es ∷ fs ∷ ess) s active room = absurd s.1
  log_back-Contains (n ∷ m ∷ ns) (es ∷ ess) s active room =
      let (rest, logged, h) =
        Succeeds-result _ (modify_back (λ c. log c e) (m ∷ ns))
          (log_back-Contains (m ∷ ns) ess s.1 active room) in
      rw (logged, ◌>>=◌) (cons-Contains n es (flatten ess) rest s.0 h)

  close_back-Stores :
      (nodes : List ChunkNode) (ess : List (List SerializedLogEntry))
      → Stores z nodes ess
      → LastActive nodes
      → Succeeds (back nodes) (λ _. Unit {0})
      → Succeeds (modify_back (finish_writing z) nodes) (λ closed. Stores z closed ess)
  unfolding modify_back back
  close_back-Stores [] ess s active some_back = absurd some_back
  close_back-Stores (n ∷ ns) [] s active some_back = absurd s
  close_back-Stores (n ∷ []) (es ∷ []) s active some_back =
      let (c, closed, (holds, _, readers, count, _)) =
        Succeeds-result _ (finish_writing z n.chunk) (finish_writing-Holds s.0.holds active) in
      rw (closed, ◌>>=◌)
        (
          record {
            holds = holds;
            counted = rw (count, readers) s.0.counted;
            few = rw readers s.0.few;
          },
          tt,
        )
  close_back-Stores (n ∷ []) (es ∷ fs ∷ ess) s active some_back = absurd s.1
  close_back-Stores (n ∷ m ∷ ns) (es ∷ ess) s active some_back =
      let (rest, closed, h) =
        Succeeds-result _ (modify_back (finish_writing z) (m ∷ ns))
          (close_back-Stores (m ∷ ns) ess s.1 active some_back) in
      rw (closed, ◌>>=◌) (s.0, h)

  back-append : (nodes : List ChunkNode) (n : ChunkNode) → back (nodes ++ n ∷ []) ≡ some n.chunk
  unfolding back
  back-append [] n = refl
  back-append (m ∷ []) n = refl
  back-append (m ∷ k ∷ nodes) n = back-append (k ∷ nodes) n

  back-cons : (n : ChunkNode) (ns : List ChunkNode) → Succeeds (back (n ∷ ns)) (λ _. Unit {0})
  unfolding back
  back-cons n [] = tt
  back-cons n (m ∷ ns) = back-cons m ns

  -- Either the last chunk has room, or it is closed and a new one has.
  ensure_room-Stores :
      (max_size next : ℕ) (n : ChunkNode) (ns : List ChunkNode)
      (ess : List (List SerializedLogEntry))
      → 64 * 1024 ≤ max_size
      → Stores z (n ∷ ns) ess
      → LastActive (n ∷ ns)
      → Succeeds (ensure_room z max_size (sizeof_entry + length e.msg) (n ∷ ns, next)) (λ cs.
        (fss : List (List SerializedLogEntry)) × Stores z cs.0 fss
        × LastActive cs.0
        × HasRoom cs.0
        × (flatten fss ≡ flatten ess))
  unfolding ensure_room
  ensure_room-Stores max_size next n ns ess valid s active =
      let (c, last, _) = Succeeds-result (λ _. Unit {0}) (back (n ∷ ns)) (back-cons n ns) in
      elim (Bool-cases (can_log c (sizeof_entry + length e.msg))) [
        | inl room ↦ rw (last, ◌>>=◌, room) (ess, s, active, rw last room, refl)
        | inr full ↦
            let (closed, e1, h) =
              Succeeds-result _ (modify_back (finish_writing z) (n ∷ ns))
                (close_back-Stores (n ∷ ns) ess s active (back-cons n ns)) in
            let new = fresh_node next max_size in
            rw (last, ◌>>=◌, full, e1)
              (
                ess ++ [] ∷ [],
                Stores-append z closed (new ∷ []) ess ([] ∷ []) h
                    (fresh_node-IsStored z next max_size, tt),
                LastActive-append closed new (fresh_node_active next max_size),
                rw (back-append closed new) (fresh_node_room next max_size e fits valid),
                flatten-append ess ([] ∷ []) ∙ append-nil (flatten ess),
              )
      ]

  -- In a log with a valid size, an entry that fits its fields finds room, no CHECK fails, nothing is
  -- written out of bounds, and the log is afterwards what it was with the entry behind it.
  pub log_to_log_buffer-Contains :
      (max_size next : ℕ) (nodes : List ChunkNode) (es : List SerializedLogEntry)
      → 64 * 1024 ≤ max_size
      → Contains z es nodes
      → Succeeds
          (log_to_log_buffer z max_size e (nodes, next))
          (λ cs. Contains z (es ++ e ∷ []) cs.0)
  unfolding log_to_log_buffer
  log_to_log_buffer-Contains max_size next nodes es valid h =
      let (n, ns, next', e0, (ess, s, active, eq)) =
        ensure_chunk-Contains max_size next nodes es h in
      let ((nodes', next''), e1, (fss, s', active', room, eq')) =
        Succeeds-result _ (ensure_room z max_size (sizeof_entry + length e.msg) (n ∷ ns, next'))
          (ensure_room-Stores max_size next' n ns ess valid s active) in
      let (logged, e2, h') =
        Succeeds-result _ (modify_back (λ c. log c e) nodes')
          (log_back-Contains nodes' fss s' active' room) in
      rw (e0, e1, ◌>>=◌, e2)
        (subst (λ (l : List SerializedLogEntry). Contains z (l ++ e ∷ []) logged) (eq' ∙ eq) h')
