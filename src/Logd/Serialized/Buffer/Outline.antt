-- ===== src/Logd/Serialized/Buffer/Outline.antt =====
-- Writing to a log of logd/SerializedLogBuffer.cpp, and the links between its chunks and the readers.
use android_system_logging.Common.{
  Succeeds, Succeeds-result, ◌*◌, ◌≤◌, ℕ, suc, ◌+◌, ◌<◌, ◌≡◌, refl, sym, ◌∙◌, subst, inl, inr, ◌≢◌,
  true, Option, some, List, [], ◌∷◌, ◌++◌, arith, length, All, >>=-eq-some, some-eq-some,
  Bool-cases,
}
use android_system_logging.Logd.Serialized.Entry.{SerializedLogEntry, IsEntry, sizeof_entry}
use android_system_logging.Logd.Serialized.Chunk.{
  SerializedLogChunk, Zstd, new_chunk, can_log, log, finish_writing,
}
use android_system_logging.Logd.Serialized.Nodes.{ChunkNode, modify_back, back}
use android_system_logging.Logd.Serialized.Buffer.{
  Chunks, fresh_node, ensure_chunk, ensure_room, log_to_log_buffer,
}
use android_system_logging.Logd.Serialized.Buffer.Append.{Contains, log_to_log_buffer-Contains}
use android_system_logging.Logd.Serialized.Buffer.Readers.{Flush}
use android_system_logging.Logd.Serialized.Buffer.Links.{Linked, NoDangling, held}

-- The addresses and the readers, which are all that links speak of.
abbrev SameOutline : List ChunkNode → List ChunkNode → Type 0
SameOutline [] [] = Unit {0}
SameOutline [] (m ∷ ms) = ⊥
SameOutline (n ∷ ns) [] = ⊥
SameOutline (n ∷ ns) (m ∷ ms) =
    (m.address ≡ n.address) × (m.chunk.readers ≡ n.chunk.readers) × SameOutline ns ms

SameOutline-refl : (ns : List ChunkNode) → SameOutline ns ns
SameOutline-refl [] = tt
SameOutline-refl (n ∷ ns) = (refl, refl, SameOutline-refl ns)

SameOutline-All :
    (P : ℕ → Type 0) (ns ms : List ChunkNode)
    → SameOutline ns ms
    → All (λ (n : ChunkNode). P n.address) ns
    → All (λ (n : ChunkNode). P n.address) ms
SameOutline-All P [] [] o h = tt
SameOutline-All P [] (m ∷ ms) o h = absurd o
SameOutline-All P (n ∷ ns) [] o h = absurd o
SameOutline-All P (n ∷ ns) (m ∷ ms) o h = (subst P (sym o.0) h.0, SameOutline-All P ns ms o.2 h.1)

SameOutline-Linked :
    (log_id : ℕ) (flush : Flush) (ns ms : List ChunkNode)
    → SameOutline ns ms
    → Linked log_id flush ns
    → Linked log_id flush ms
SameOutline-Linked log_id flush [] [] o h = tt
SameOutline-Linked log_id flush [] (m ∷ ms) o h = absurd o
SameOutline-Linked log_id flush (n ∷ ns) [] o h = absurd o
SameOutline-Linked log_id flush (n ∷ ns) (m ∷ ms) o h = (
  rw (o.0, o.1) h.0,
  rw (o.0) (SameOutline-All (λ a. a ≢ n.address) ns ms o.2 h.1),
  SameOutline-Linked log_id flush ns ms o.2 h.2,
)

SameOutline-held :
    (r a : ℕ) (ns ms : List ChunkNode) → SameOutline ns ms → held r a ms ≡ held r a ns
SameOutline-held r a [] [] o = refl
SameOutline-held r a [] (m ∷ ms) o = absurd o
SameOutline-held r a (n ∷ ns) [] o = absurd o
SameOutline-held r a (n ∷ ns) (m ∷ ms) o = rw (o.0, o.1, SameOutline-held r a ns ms o.2)

modify_back-SameOutline :
    (f : SerializedLogChunk → Option SerializedLogChunk) (ns ms : List ChunkNode)
    → ((c d : SerializedLogChunk) → f c ≡ some d → d.readers ≡ c.readers)
    → modify_back f ns ≡ some ms
    → SameOutline ns ms
unfolding modify_back
modify_back-SameOutline f [] ms keep e = cc
modify_back-SameOutline f (n ∷ []) ms keep e =
    let (c, e1, e2) = >>=-eq-some (f n.chunk) _ e in
    subst (SameOutline (n ∷ [])) (some-eq-some e2) (refl, keep n.chunk c e1, tt)
modify_back-SameOutline f (n ∷ k ∷ ns) ms keep e =
    let (rest, e1, e2) = >>=-eq-some (modify_back f (k ∷ ns)) _ e in
    subst (SameOutline (n ∷ k ∷ ns)) (some-eq-some e2)
      (refl, refl, modify_back-SameOutline f (k ∷ ns) rest keep e1)

log-readers :
    (e : SerializedLogEntry) (c d : SerializedLogChunk) → log c e ≡ some d → d.readers ≡ c.readers
unfolding log
log-readers e c d h = ground arith

finish_writing-readers :
    (z : Zstd) (c d : SerializedLogChunk) → finish_writing z c ≡ some d → d.readers ≡ c.readers
unfolding finish_writing
finish_writing-readers z c d h = ground arith

-- The links of a log: both ways, and every address in use is below the next one.
pub record IsLinked (log_id : ℕ) (flush : Flush) (cs : Chunks) : Type 0 where
  pub linked : Linked log_id flush cs.0
  pub safe : NoDangling log_id flush cs.0
  pub fresh : All (λ (n : ChunkNode). n.address < cs.1) cs.0

module _ (log_id : ℕ) (flush : Flush) where
  SameOutline-IsLinked :
      (ns ms : List ChunkNode) (next : ℕ)
      → SameOutline ns ms
      → IsLinked log_id flush (ns, next)
      → IsLinked log_id flush (ms, next)
  SameOutline-IsLinked ns ms next o h = record {
    linked = SameOutline-Linked log_id flush ns ms o h.linked;
    safe = λ r p e. SameOutline-held r p.buffer_it ns ms o ∙ h.safe r p e;
    fresh = SameOutline-All (λ a. a < next) ns ms o h.fresh;
  }

  Linked-snoc :
      (ns : List ChunkNode) (m : ChunkNode)
      → All (λ (n : ChunkNode). n.address < m.address) ns
      → m.chunk.readers ≡ []
      → Linked log_id flush ns
      → Linked log_id flush (ns ++ m ∷ [])
  Linked-snoc [] m below none_yet h = (rw none_yet tt, tt, tt)
  Linked-snoc (n ∷ ns) m below none_yet h = (h.0, far ns h.1, Linked-snoc ns m below.1 none_yet h.2)
    where
      far :
          (ks : List ChunkNode)
          → All (λ (k : ChunkNode). k.address ≢ n.address) ks
          → All (λ (k : ChunkNode). k.address ≢ n.address) (ks ++ m ∷ [])
      far [] g = ((λ (e : m.address ≡ n.address). absurd (omega arith)), tt)
      far (k ∷ ks) g = (g.0, far ks g.1)

  held-append : (r a : ℕ) (ns ms : List ChunkNode) → held r a ns ≡ true → held r a (ns ++ ms) ≡ true
  held-append r a [] ms h = cc
  held-append r a (n ∷ ns) ms h = ground (arith, held-append r a ns ms)

  below-snoc :
      (ns : List ChunkNode) (next : ℕ) (m : ChunkNode)
      → m.address ≡ next
      → All (λ (n : ChunkNode). n.address < next) ns
      → All (λ (n : ChunkNode). n.address < suc next) (ns ++ m ∷ [])
  below-snoc [] next m e h = (omega arith, tt)
  below-snoc (n ∷ ns) next m e h = (omega arith, below-snoc ns next m e h.1)

  snoc-IsLinked :
      (ns : List ChunkNode) (next max_size : ℕ)
      → IsLinked log_id flush (ns, next)
      → IsLinked log_id flush (ns ++ fresh_node next max_size ∷ [], suc next)
  unfolding fresh_node new_chunk
  snoc-IsLinked ns next max_size h = record {
    linked = Linked-snoc ns (fresh_node next max_size) h.fresh refl h.linked;
    safe = λ r p e. held-append r p.buffer_it ns (fresh_node next max_size ∷ []) (h.safe r p e);
    fresh = below-snoc ns next (fresh_node next max_size) refl h.fresh;
  }

  ensure_chunk-IsLinked :
      (max_size next : ℕ) (nodes : List ChunkNode)
      → IsLinked log_id flush (nodes, next)
      → IsLinked log_id flush (ensure_chunk max_size (nodes, next))
  unfolding ensure_chunk
  ensure_chunk-IsLinked max_size next [] h = snoc-IsLinked [] next max_size h
  ensure_chunk-IsLinked max_size next (n ∷ ns) h = h

  ensure_room-IsLinked :
      (z : Zstd) (max_size len : ℕ) (cs ds : Chunks)
      → ensure_room z max_size len cs ≡ some ds
      → IsLinked log_id flush cs
      → IsLinked log_id flush ds
  unfolding ensure_room
  ensure_room-IsLinked z max_size len (nodes, next) ds e h =
      let (last, e1, e2) = >>=-eq-some (back nodes) _ e in
      elim (Bool-cases (can_log last len)) [
        | inl room ↦ subst (IsLinked log_id flush) (some-eq-some (rw room at e2)) h
        | inr full ↦
            let (closed, e3, e4) =
              >>=-eq-some (modify_back (finish_writing z) nodes) _ (rw full at e2) in
            subst (IsLinked log_id flush) (some-eq-some e4) (
              snoc-IsLinked closed next max_size (
                SameOutline-IsLinked nodes closed next
                  (modify_back-SameOutline (finish_writing z) nodes closed
                    (finish_writing-readers z) e3)
                  h))
      ]

  pub log_to_log_buffer-IsLinked :
      (z : Zstd) (max_size : ℕ) (e : SerializedLogEntry) (cs ds : Chunks)
      → log_to_log_buffer z max_size e cs ≡ some ds
      → IsLinked log_id flush cs
      → IsLinked log_id flush ds
  unfolding log_to_log_buffer
  log_to_log_buffer-IsLinked z max_size e (nodes, next) ds logged h =
      let ((ns, next'), e1, e2) =
        >>=-eq-some
          (ensure_room z max_size (sizeof_entry + length e.msg)
            (ensure_chunk max_size (nodes, next)))
          _ logged in
      let (ms, e3, e4) = >>=-eq-some (modify_back (λ c. log c e) ns) _ e2 in
      subst (IsLinked log_id flush) (some-eq-some e4) (
        SameOutline-IsLinked ns ms next'
          (modify_back-SameOutline (λ c. log c e) ns ms (log-readers e) e3)
          (ensure_room-IsLinked z max_size _ (ensure_chunk max_size (nodes, next)) (ns, next') e1
            (ensure_chunk-IsLinked max_size next nodes h)))

  -- In a log of valid size, an entry that fits its fields is logged behind the others, and every
  -- reader's iterator into the log is still the address of a chunk, with chunks and readers referring
  -- to each other.
  pub log_to_log_buffer-Contains-IsLinked :
      (z : Zstd) (max_size next : ℕ) (e : SerializedLogEntry) (nodes : List ChunkNode)
      (es : List SerializedLogEntry)
      → IsEntry e
      → 64 * 1024 ≤ max_size
      → Contains z es nodes
      → IsLinked log_id flush (nodes, next)
      → Succeeds
          (log_to_log_buffer z max_size e (nodes, next))
          (λ ds. Contains z (es ++ e ∷ []) ds.0 × IsLinked log_id flush ds)
  log_to_log_buffer-Contains-IsLinked z max_size next e nodes es v valid c h =
      let (ds, logged, c') =
        Succeeds-result _ (log_to_log_buffer z max_size e (nodes, next))
          (log_to_log_buffer-Contains z e v max_size next nodes es valid c) in
      rw logged (c', log_to_log_buffer-IsLinked z max_size e (nodes, next) ds logged h)
