-- ===== src/Logd/Serialized/Buffer/Readers.antt =====
-- The links between readers and chunks of logd/SerializedLogBuffer.cpp: a chunk lists its readers,
-- and each of those holds an iterator to the chunk. NotifyReadersOfPrune undoes the links.
use android_system_logging.Common.{
  ℕ, ◌≡◌, refl, ap, ◌∙◌, inl, inr, Bool, true, false, ◌||◌, none, some, List, [], ◌∷◌, arith,
  length, ◌==◌, if◌then◌else◌, ◌>>=◌, Succeeds, Succeeds-result, Bool-cases, update, ==_self, ==→eq,
}
use android_system_logging.Logd.Serialized.Entry.{SerializedLogEntry}
use android_system_logging.Logd.Serialized.Chunk.{
  SerializedLogChunk, Zstd, ZstdLaws, detach_reader, erase_reader, prune_size, dec_reader_ref_count,
}
use android_system_logging.Logd.Serialized.Chunk.Contents.{image, Holds, Holds-readers}
use android_system_logging.Logd.Serialized.Chunk.Packing.{dec_reader_ref_count-Holds}
use android_system_logging.Logd.Serialized.Nodes.{ChunkNode, modify_node}
use android_system_logging.Logd.Serialized.FlushState.{SerializedFlushToState, LogPosition}
use android_system_logging.Logd.Serialized.FlushState
use android_system_logging.Logd.Serialized.Buffer.{notify_readers_of_prune}
use android_system_logging.Logd.Serialized.Buffer.Stores.{IsStored}

abbrev pub Flush : Type 0
Flush = ℕ → SerializedFlushToState

abbrev pub elem : ℕ → List ℕ → Bool
elem r [] = false
elem r (x ∷ xs) = r == x || elem r xs

-- The reader stands in the chunk at the address.
abbrev pub Points : ℕ → ℕ → SerializedFlushToState → Type 0
Points log_id a st = (p : LogPosition) × (st.log_positions log_id ≡ some p) × (p.buffer_it ≡ a)

-- The listed readers are distinct, and each stands in the chunk at the address.
abbrev pub Attached : ℕ → ℕ → Flush → List ℕ → Type 0
Attached log_id a flush [] = Unit {0}
Attached log_id a flush (r ∷ rs) =
    Points log_id a (flush r) × (elem r rs ≡ false) × Attached log_id a flush rs

-- What SerializedFlushToState::Prune leaves of a reader's position.
abbrev pub cleared : ℕ → SerializedFlushToState → SerializedFlushToState
cleared log_id st = record st {
  log_positions = update st.log_positions log_id none;
  logs_needed_from_next_position = update st.logs_needed_from_next_position log_id true;
}

Attached-update :
    (log_id a r : ℕ) (st : SerializedFlushToState) (flush : Flush) (rs : List ℕ)
    → elem r rs ≡ false
    → Attached log_id a flush rs
    → Attached log_id a (update flush r st) rs
Attached-update log_id a r st flush [] out h = tt
Attached-update log_id a r st flush (x ∷ xs) out h = elim (Bool-cases (r == x)) [
  | inl same ↦ absurd (ground arith)
  | inr other ↦ (rw other h.0, h.1, Attached-update log_id a r st flush xs (ground arith) h.2)
]

cleared_once :
    (log_id r q : ℕ) (rs : List ℕ) (flush : Flush)
    → elem r rs ≡ false
    → (let flush' = update flush r (cleared log_id (flush r)) in
        if elem q rs then cleared log_id (flush' q) else flush' q)
      ≡ (if elem q (r ∷ rs) then cleared log_id (flush q) else flush q)
cleared_once log_id r q rs flush out = elim (Bool-cases (q == r)) [
  | inl same ↦ rw (==→eq q r same, out, ==_self r)
  | inr other ↦ let other' : (r == q) ≡ false = ground arith in rw (other, other')
]

module _ (z : Zstd) (laws : ZstdLaws z) where
  same_prune_size :
      (c d : SerializedLogChunk) (es : List SerializedLogEntry)
      → Holds z c es
      → d.writer_active ≡ c.writer_active
      → d.compressed_log ≡ c.compressed_log
      → (d.writer_active ≡ true → d.contents ≡ c.contents)
      → prune_size d ≡ prune_size c
  unfolding prune_size
  same_prune_size c d es v active packed contents = elim (Bool-cases c.writer_active) [
    | inl on ↦ rw (packed, contents (active ∙ on))
    | inr off ↦ ground (arith, packed, v.packed off, laws.compress_nonempty (image es))
  ]

  -- A reader that leaves a chunk changes neither its entries nor its size.
  detach_reader-IsStored :
      (c : SerializedLogChunk) (es : List SerializedLogEntry) (r : ℕ) (rs : List ℕ)
      → IsStored z c es
      → c.readers ≡ r ∷ rs
      → Succeeds (detach_reader c r) (λ d.
        IsStored z d es
        × (d.readers ≡ rs)
        × (prune_size d ≡ prune_size c)
        × (d.writer_active ≡ c.writer_active))
  unfolding detach_reader erase_reader prune_size
  detach_reader-IsStored c es r rs s e =
      let c' : SerializedLogChunk = record c { readers = rs } in
      let (d, dec, (holds, count, readers, active, packed, contents)) =
        Succeeds-result _ (dec_reader_ref_count c') (
          dec_reader_ref_count-Holds (Holds-readers rs s.holds)
            (omega (arith, s.counted, ap length e))) in
      rw (e, ==_self r, ◌>>=◌, dec)
        (
          record {
            holds = holds;
            counted = omega (arith, count, s.counted, ap length e, ap length readers);
            few = omega (arith, s.few, ap length e, ap length readers);
          },
          readers,
          same_prune_size c d es s.holds active packed contents,
          active,
        )

  -- Prune of a reader that stands in the first chunk.
  prune_first :
      (log_id r : ℕ) (n : ChunkNode) (rest : List ChunkNode) (st : SerializedFlushToState)
      (c : SerializedLogChunk)
      → Points log_id n.address st
      → detach_reader n.chunk r ≡ some c
      → FlushState.prune log_id r (n ∷ rest) st
        ≡ some (record n { chunk = c } ∷ rest, cleared log_id st)
  unfolding FlushState.prune modify_node
  prune_first log_id r n rest st c (p, e, at) detached =
      rw (e, ◌>>=◌, at, ==_self n.address, detached)

  -- When the first chunk, whose readers all point to it, notifies them, with lawful compression, no
  -- CHECK fails, each of them lets go of it, the chunk keeps its entries and its size, and no other
  -- reader is touched.
  pub notify_readers_of_prune-IsStored :
      (log_id : ℕ) (rs : List ℕ) (n : ChunkNode) (rest : List ChunkNode) (flush : Flush)
      (es : List SerializedLogEntry)
      → IsStored z n.chunk es
      → n.chunk.readers ≡ rs
      → Attached log_id n.address flush rs
      → Succeeds (notify_readers_of_prune log_id rs (n ∷ rest) flush) (λ s.
        (c : SerializedLogChunk) × (s.0 ≡ record n { chunk = c } ∷ rest)
        × IsStored z c es
        × (c.readers ≡ [])
        × (prune_size c ≡ prune_size n.chunk)
        × (c.writer_active ≡ n.chunk.writer_active)
        × ((r : ℕ) → s.1 r ≡ (if elem r rs then cleared log_id (flush r) else flush r)))
  unfolding notify_readers_of_prune
  notify_readers_of_prune-IsStored log_id [] n rest flush es s e h =
      (n.chunk, refl, s, e, refl, refl, λ r. refl)
  notify_readers_of_prune-IsStored log_id (r ∷ rs) n rest flush es s e h =
      let (c, detached, (s', readers, size, active)) =
        Succeeds-result _ (detach_reader n.chunk r) (detach_reader-IsStored n.chunk es r rs s e) in
      let n' : ChunkNode = record n { chunk = c } in
      let flush' = update flush r (cleared log_id (flush r)) in
      let (t, notified, (d, nodes, s'', none_left, size', active', states)) =
        Succeeds-result _ (notify_readers_of_prune log_id rs (n' ∷ rest) flush') (
          notify_readers_of_prune-IsStored log_id rs n' rest flush' es s' readers
            (Attached-update log_id n.address r (cleared log_id (flush r)) flush rs h.1 h.2)) in
      rw (prune_first log_id r n rest (flush r) c h.0 detached, ◌>>=◌, notified)
        (
          d,
          nodes,
          s'',
          none_left,
          size' ∙ size,
          active' ∙ active,
          λ q. states q ∙ cleared_once log_id r q rs flush h.1,
        )
