-- ===== src/Logd/Serialized/Buffer/Pruning.antt =====
-- The loop of Prune of logd/SerializedLogBuffer.cpp, with the entries, the readers and the sizes.
use android_system_logging.Common.{
  ℕ, zero, suc, ◌+◌, ◌-◌, ◌≤◌, ◌<◌, ◌≡◌, refl, ap, ◌∙◌, inl, inr, some, List, [], ◌∷◌, append-nil,
  leb→le, arith, length, length-append, flatten, leb, ◌>>=◌, Succeeds, Succeeds-result, Bool-cases,
}
use android_system_logging.Logd.Serialized.Entry.{SerializedLogEntry}
use android_system_logging.Logd.Serialized.Chunk.{Zstd, ZstdLaws, prune_size}
use android_system_logging.Logd.Serialized.Nodes.{ChunkNode}
use android_system_logging.Logd.Serialized.Buffer.{Shared, size_used, prune_front, prune_loop}
use android_system_logging.Logd.Serialized.Buffer.Stores.{IsStored, Stores}
use android_system_logging.Logd.Serialized.Buffer.Links.{
  Linked, NoDangling, Released, Linked-Released, NoDangling-Released,
}
use android_system_logging.Logd.Serialized.Buffer.Readers.{Attached}
use android_system_logging.Logd.Serialized.Buffer.Front.{
  subtractions, subtractions-append, prune_front-IsStored, Pruned, only, longer_front,
}

module _ (z : Zstd) (laws : ZstdLaws z) (log_id : ℕ) where
  prune_front_result :
      (n : ChunkNode) (rest : List ChunkNode) (es : List SerializedLogEntry) (sh : Shared)
      → IsStored z n.chunk es
      → Attached log_id n.address sh.flush_states n.chunk.readers
      → (sh' : Shared) × (prune_front z log_id n rest sh ≡ some (prune_size n.chunk, rest, sh'))
        × Released log_id n.chunk.readers sh.flush_states sh'.flush_states
        × (sh'.stats_calls ≡ subtractions log_id es sh.stats_calls)
        × (sh'.next_address ≡ sh.next_address)
  prune_front_result n rest es sh s h =
      let ((size, left, sh'), e, (e0, e1, free, stats, next)) =
        Succeeds-result _ (prune_front z log_id n rest sh)
          (prune_front-IsStored z laws log_id n rest es sh s h) in
      (sh', e ∙ (λ i. some (e0 i, e1 i, sh')), free, stats, next)

  module _ (n : ChunkNode) (ns : List ChunkNode) (es : List SerializedLogEntry)
      (ess : List (List SerializedLogEntry)) (sh sh' : Shared) (bytes : ℕ)
      (s : Stores z (n ∷ ns) (es ∷ ess)) (h : Linked log_id sh.flush_states (n ∷ ns))
      (safe : NoDangling log_id sh.flush_states (n ∷ ns))
      (free : Released log_id n.chunk.readers sh.flush_states sh'.flush_states)
      (stats : sh'.stats_calls ≡ subtractions log_id es sh.stats_calls)
      (next : sh'.next_address ≡ sh.next_address) where
    rest-Linked : Linked log_id sh'.flush_states ns
    rest-Linked =
        Linked-Released log_id n.address sh.flush_states sh'.flush_states n.chunk.readers h.0 free
          ns h.1 h.2

    rest_safe : NoDangling log_id sh'.flush_states ns
    rest_safe = NoDangling-Released log_id sh.flush_states sh'.flush_states n ns free safe

    last_round : bytes ≤ prune_size n.chunk → Pruned z log_id bytes (n ∷ ns) (es ∷ ess) sh (ns, sh')
    unfolding size_used
    last_round done = record {
      front = n ∷ [];
      dead = es ∷ [];
      kept = ess;
      nodes_split = refl;
      entries_split = refl;
      stored = s.1;
      linked = rest-Linked;
      safe = rest_safe;
      stats = rw append-nil stats;
      next = next;
      enough = inl (omega arith);
      no_more = λ init last e. inl (only n init last e);
    }

    next_round :
        (t : List ChunkNode × Shared)
        → prune_size n.chunk < bytes
        → Pruned z log_id (bytes - prune_size n.chunk) ns ess sh' t
        → Pruned z log_id bytes (n ∷ ns) (es ∷ ess) sh t
    unfolding size_used
    next_round t more p = record {
      front = n ∷ p.front;
      dead = es ∷ p.dead;
      kept = p.kept;
      nodes_split = ap (◌∷◌ n) p.nodes_split;
      entries_split = ap (◌∷◌ es) p.entries_split;
      stored = p.stored;
      linked = p.linked;
      safe = p.safe;
      stats = p.stats ∙ rw (stats, subtractions-append log_id es (flatten p.dead) sh.stats_calls);
      next = p.next ∙ next;
      enough = elim p.enough [ inl q ↦ inl (omega arith) | inr q ↦ inr q ];
      no_more = λ init last e. longer_front n p.front bytes more p.no_more init last e;
    }

  -- On chunks that store entries and are linked with their readers, with lawful compression and a
  -- round for each chunk, Prune fails no CHECK. It destroys chunks from the front until the bytes
  -- are freed or none is left, and none beyond, takes their entries out of the statistics, and
  -- leaves no reader in them.
  pub prune_loop-Pruned :
      (fuel bytes : ℕ) (nodes : List ChunkNode) (ess : List (List SerializedLogEntry)) (sh : Shared)
      → length nodes ≤ fuel
      → Stores z nodes ess
      → Linked log_id sh.flush_states nodes
      → NoDangling log_id sh.flush_states nodes
      → Succeeds (prune_loop z fuel log_id bytes nodes sh) (Pruned z log_id bytes nodes ess sh)
  unfolding prune_loop
  prune_loop-Pruned fuel bytes [] [] sh hf s h safe = record {
    front = [];
    dead = [];
    kept = [];
    nodes_split = refl;
    entries_split = refl;
    stored = tt;
    linked = tt;
    safe = safe;
    stats = unfold subtractions in refl;
    next = refl;
    enough = inr refl;
    no_more = λ init last e. absurd (omega (arith, ap length e, length-append init (last ∷ [])));
  }
  prune_loop-Pruned fuel bytes [] (es ∷ ess) sh hf s h safe = absurd s
  prune_loop-Pruned fuel bytes (n ∷ ns) [] sh hf s h safe = absurd s
  prune_loop-Pruned zero bytes (n ∷ ns) (es ∷ ess) sh hf s h safe = absurd (omega arith)
  prune_loop-Pruned (suc fuel) bytes (n ∷ ns) (es ∷ ess) sh hf s h safe =
      let (sh', e, free, stats, next) = prune_front_result n ns es sh s.0 h.0 in
      elim (Bool-cases (leb bytes (prune_size n.chunk))) [
        | inl done ↦
            rw (e, ◌>>=◌, done)
              (last_round n ns es ess sh sh' bytes s h safe free stats next (leb→le _ _ done))
        | inr more ↦
            let (t, e', p) =
              Succeeds-result _ (prune_loop z fuel log_id (bytes - prune_size n.chunk) ns sh') (
                prune_loop-Pruned fuel (bytes - prune_size n.chunk) ns ess sh' (omega arith) s.1
                  (rest-Linked n ns es ess sh sh' bytes s h safe free stats next)
                  (rest_safe n ns es ess sh sh' bytes s h safe free stats next)) in
            rw (e, ◌>>=◌, more, e')
              (next_round n ns es ess sh sh' bytes s h safe free stats next t (ground arith) p)
      ]

-- A log with that many bytes loses them.
pub size-Pruned :
    {z : Zstd} {log_id bytes : ℕ} {nodes : List ChunkNode} {ess : List (List SerializedLogEntry)}
    {sh : Shared} {s : List ChunkNode × Shared}
    → Pruned z log_id bytes nodes ess sh s
    → bytes ≤ size_used nodes
    → size_used s.0 + bytes ≤ size_used nodes
unfolding size_used
size-Pruned p h = elim p.enough [ inl q ↦ omega arith | inr empty ↦ rw empty (omega arith) ]
