-- ===== src/Logd/Serialized/Buffer/Stores.antt =====
-- The chunks of a log of logd/SerializedLogBuffer.cpp seen as the entries that each stores.
use android_system_logging.Common.{
  ℕ, ◌+◌, ◌^◌, ◌<◌, ◌≡◌, refl, true, List, [], ◌∷◌, ◌++◌, arith, length, length-replicate, le→leb,
  ◌≤◌, ◌/◌, ◌*◌,
}
use android_system_logging.Logd.Serialized.Entry.{SerializedLogEntry, IsEntry, sizeof_entry}
use android_system_logging.Logd.Serialized.Chunk.{SerializedLogChunk, Zstd, new_chunk, can_log}
use android_system_logging.Logd.Serialized.Chunk.Contents.{Holds, new_chunk-Holds}
use android_system_logging.Logd.Serialized.Nodes.{ChunkNode}
use android_system_logging.Logd.Serialized.Buffer.{fresh_node}

-- A chunk with its entries, whose count is that of its readers.
pub record IsStored (z : Zstd) (c : SerializedLogChunk) (es : List SerializedLogEntry)
    : Type 0 where
  pub holds : Holds z c es
  pub counted : c.reader_ref_count ≡ length c.readers
  pub few : length c.readers + 1 < 2 ^ 32

abbrev pub Stores : Zstd → List ChunkNode → List (List SerializedLogEntry) → Type 0
Stores z [] [] = Unit {0}
Stores z [] (es ∷ ess) = ⊥
Stores z (n ∷ ns) [] = ⊥
Stores z (n ∷ ns) (es ∷ ess) = IsStored z n.chunk es × Stores z ns ess

-- The last chunk of the log, if any, takes entries.
abbrev pub LastActive : List ChunkNode → Type 0
LastActive [] = Unit {0}
LastActive (n ∷ []) = n.chunk.writer_active ≡ true
LastActive (n ∷ m ∷ ns) = LastActive (m ∷ ns)

pub fresh_node-IsStored :
    (z : Zstd) (address max_size : ℕ) → IsStored z (fresh_node address max_size).chunk []
unfolding fresh_node new_chunk
fresh_node-IsStored z address max_size = record {
  holds = new_chunk-Holds z _;
  counted = refl;
  few = omega arith;
}

-- A new chunk of a log with a valid size has room for the largest entry.
pub fresh_node_room :
    (address max_size : ℕ) (e : SerializedLogEntry)
    → IsEntry e
    → 64 * 1024 ≤ max_size
    → can_log (fresh_node address max_size).chunk (sizeof_entry + length e.msg) ≡ true
unfolding fresh_node new_chunk can_log
fresh_node_room address max_size e fits h =
    le→leb _ _ (omega (arith, length-replicate {0} {A = ℕ} (max_size / 4) 0))

pub Stores-append :
    (z : Zstd) (ns ms : List ChunkNode) (ess fss : List (List SerializedLogEntry))
    → Stores z ns ess
    → Stores z ms fss
    → Stores z (ns ++ ms) (ess ++ fss)
Stores-append z [] ms [] fss s t = t
Stores-append z [] ms (es ∷ ess) fss s t = absurd s
Stores-append z (n ∷ ns) ms [] fss s t = absurd s
Stores-append z (n ∷ ns) ms (es ∷ ess) fss s t = (s.0, Stores-append z ns ms ess fss s.1 t)

pub LastActive-append :
    (ns : List ChunkNode) (m : ChunkNode) → m.chunk.writer_active ≡ true → LastActive (ns ++ m ∷ [])
LastActive-append [] m active = active
LastActive-append (n ∷ []) m active = active
LastActive-append (n ∷ k ∷ ns) m active = LastActive-append (k ∷ ns) m active
