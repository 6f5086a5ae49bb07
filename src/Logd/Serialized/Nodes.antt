-- ===== src/Logd/Serialized/Nodes.antt =====
-- std::list<SerializedLogChunk>: nodes with stable addresses, oldest chunk first. An iterator is
-- the address of its node; `none` is the use of an iterator that is not in the list.
use android_system_logging.Common.{ℕ, true, false, Option, none, some, List, [], ◌∷◌, ◌==◌, ◌>>=◌}
use android_system_logging.Logd.Serialized.Chunk.{SerializedLogChunk}

pub record ChunkNode : Type 0 where
  pub address : ℕ
  pub chunk : SerializedLogChunk

unfoldable pub find_node : ℕ → List ChunkNode → Option ChunkNode
find_node a [] = none
find_node a (n ∷ ns) = elim (n.address == a) [ true ↦ some n | false ↦ find_node a ns ]

-- An operation on the chunk that an iterator points to.
unfoldable pub modify_node :
    (SerializedLogChunk → Option SerializedLogChunk) → ℕ → List ChunkNode → Option (List ChunkNode)
modify_node f a [] = none
modify_node f a (n ∷ ns) = elim (n.address == a) [
  | true ↦ do c ← f n.chunk; some (record n { chunk = c } ∷ ns)
  | false ↦ do rest ← modify_node f a ns; some (n ∷ rest)
]

-- An operation on `back()`, which must exist.
unfoldable pub modify_back :
    (SerializedLogChunk → Option SerializedLogChunk) → List ChunkNode → Option (List ChunkNode)
modify_back f [] = none
modify_back f (n ∷ []) = do c ← f n.chunk; some (record n { chunk = c } ∷ [])
modify_back f (n ∷ m ∷ ns) = do rest ← modify_back f (m ∷ ns); some (n ∷ rest)

unfoldable pub back : List ChunkNode → Option SerializedLogChunk
back [] = none
back (n ∷ []) = some n.chunk
back (n ∷ m ∷ ns) = back (m ∷ ns)
