-- ===== src/Logd/Serialized/FlushState.antt =====
-- logd/SerializedFlushToState.{h,cpp}: how far a reader has come in each log.
use android_system_logging.Common.{
  ℕ, zero, suc, ◌+◌, ◌-◌, not, ◌||◌, ◌/◌, ◌%◌, ◌^◌, Bool, true, false, ◌&&◌, Option, none, some,
  List, [], ◌∷◌, ltb, leb, ◌==◌, if◌then◌else◌, ◌>>=◌, update,
}
use android_system_logging.Liblog.LogId.{log_id_max}
use android_system_logging.Logd.Serialized.Entry.{SerializedLogEntry, total_len}
use android_system_logging.Logd.Serialized.Chunk.{
  SerializedLogChunk, Zstd, attach_reader, detach_reader, log_entry,
}
use android_system_logging.Logd.Serialized.Nodes.{ChunkNode, find_node, modify_node}

-- `buffer_it` is the address of a node in the list of the log.
pub record LogPosition : Type 0 where
  pub buffer_it : ℕ
  pub read_offset : ℕ

pub record SerializedFlushToState : Type 0 where
  pub start : ℕ
  pub log_mask : ℕ
  pub log_positions : ℕ → Option LogPosition
  pub logs_needed_from_next_position : ℕ → Bool

-- `((1 << i) & log_mask) != 0`
unfoldable pub in_mask : ℕ → ℕ → Bool
in_mask i log_mask = log_mask / 2 ^ i % 2 == 1

unfoldable pub create : ℕ → ℕ → SerializedFlushToState
create start log_mask = record {
  start = start;
  log_mask = log_mask;
  log_positions = λ _. none;
  logs_needed_from_next_position = λ i. ltb i log_id_max && in_mask i log_mask;
}

-- SerializedFlushToState::Prune, for the reader at the address `r`: it lets go of its chunk.
unfoldable pub prune :
    ℕ
    → ℕ
    → List ChunkNode
    → SerializedFlushToState
    → Option (List ChunkNode × SerializedFlushToState)
prune log_id r nodes st = do
  position ← st.log_positions log_id
  nodes' ← modify_node (λ c. detach_reader c r) position.buffer_it nodes
  some (
    nodes',
    record st {
      log_positions = update st.log_positions log_id none;
      logs_needed_from_next_position = update st.logs_needed_from_next_position log_id true;
    },
  )

-- The first chunk that reaches `start`, or the last one.
unfoldable pub chunk_from : ℕ → List ChunkNode → Option ChunkNode
chunk_from start [] = none
chunk_from start (n ∷ []) = some n
chunk_from start (n ∷ m ∷ ns) =
    if ltb n.chunk.highest_sequence_number start then chunk_from start (m ∷ ns) else some n

-- The offset of the first entry from `read_offset` on whose sequence number is at least `start`.
unfoldable pub offset_from : ℕ → ℕ → SerializedLogChunk → ℕ → Option ℕ
offset_from zero start c read_offset = none
offset_from (suc fuel) start c read_offset = elim (ltb read_offset c.write_offset) [
  | false ↦ some read_offset
  | true ↦ do
    e ← log_entry c read_offset
    let rest = offset_from fuel start c (read_offset + total_len e)
    elim (leb start e.sequence) [ true ↦ some read_offset | false ↦ rest ]
]

-- The node behind the one at the address.
unfoldable pub next_node : ℕ → List ChunkNode → Option ChunkNode
next_node a [] = none
next_node a (n ∷ []) = none
next_node a (n ∷ m ∷ ns) = if n.address == a then some m else next_node a (m ∷ ns)

-- `log_id_for_each`.
abbrev all_log_ids : List ℕ
all_log_ids = 0 ∷ 1 ∷ 2 ∷ 3 ∷ 4 ∷ 5 ∷ 6 ∷ 7 ∷ []

abbrev has_position : Option LogPosition → Bool
has_position none = false
has_position (some _) = true

unfoldable pub any_unread : SerializedFlushToState → List ℕ → Bool
any_unread st [] = false
any_unread st (i ∷ is) =
    has_position (st.log_positions i) && not (st.logs_needed_from_next_position i)
    || any_unread st is

module _ (z : Zstd) where
  unfoldable pub create_log_position :
      ℕ
      → ℕ
      → List ChunkNode
      → SerializedFlushToState
      → Option (List ChunkNode × SerializedFlushToState)
  create_log_position log_id r nodes st = do
    it ← chunk_from st.start nodes
    nodes' ← modify_node (λ c. attach_reader z c r) it.address nodes
    node ← find_node it.address nodes'
    read_offset ← offset_from (suc node.chunk.write_offset) st.start node.chunk 0
    some (
      nodes',
      record st {
        log_positions =
            update st.log_positions log_id
              (some (record { buffer_it = it.address; read_offset = read_offset }));
      },
    )

  -- The reader leaves its chunk for the next one, and stands at the front of that.
  unfoldable pub move_to_next :
      ℕ
      → ℕ
      → List ChunkNode
      → SerializedFlushToState
      → ℕ
      → ChunkNode
      → Option (List ChunkNode × SerializedFlushToState)
  move_to_next log_id r nodes st buffer_it next = do
    detached ← modify_node (λ c. detach_reader c r) buffer_it nodes
    attached ← modify_node (λ c. attach_reader z c r) next.address detached
    some (
      attached,
      record st {
        log_positions =
            update st.log_positions log_id
              (some (record { buffer_it = next.address; read_offset = 0 }));
        logs_needed_from_next_position =
            update st.logs_needed_from_next_position log_id (next.chunk.write_offset == 0);
      },
    )

  -- Whether the position stands before an unread entry; at the end of a chunk that is not the
  -- last it moves on to the next. A position behind the end is a LOG(FATAL).
  unfoldable pub update_logs_needed :
      ℕ
      → ℕ
      → List ChunkNode
      → SerializedFlushToState
      → Option (List ChunkNode × SerializedFlushToState)
  update_logs_needed log_id r nodes st = do
    position ← st.log_positions log_id
    node ← find_node position.buffer_it nodes
    let write_offset = node.chunk.write_offset
    let needed = λ (b : Bool). record st {
      logs_needed_from_next_position = update st.logs_needed_from_next_position log_id b;
    }
    let move = move_to_next log_id r nodes st position.buffer_it
    if ltb position.read_offset write_offset
        then some (nodes, needed false)
        else if position.read_offset == write_offset
        then elim (next_node position.buffer_it nodes) [
          | none ↦ some (nodes, needed true)
          | some next ↦ move next
        ]
        else none

  abbrev Reading : Type 0
  Reading = (ℕ → List ChunkNode) × SerializedFlushToState

  -- One round of CheckForNewLogs for the log `i`, with the reader at the address `r`.
  unfoldable pub check_log : ℕ → ℕ → Reading → Option Reading
  check_log r i (logs, st) =
      if not (st.logs_needed_from_next_position i)
      then some (logs, st)
      else elim (st.log_positions i) [
        | some _ ↦ do
          (nodes, st') ← update_logs_needed i r (logs i) st
          some (update logs i nodes, st')
        | none ↦ elim (logs i) [
          | [] ↦ some (logs, st)
          | _ ∷ _ ↦ do
            (nodes, st') ← create_log_position i r (logs i) st
            (nodes', st'') ← update_logs_needed i r nodes st'
            some (update logs i nodes', st'')
        ]
      ]

  unfoldable pub check_logs : List ℕ → ℕ → Reading → Option Reading
  check_logs [] r s = some s
  check_logs (i ∷ is) r s = do s' ← check_log r i s; check_logs is r s'

  unfoldable pub check_for_new_logs : ℕ → Reading → Option Reading
  check_for_new_logs = check_logs all_log_ids

  unfoldable pub has_unread_logs : ℕ → Reading → Option (Bool × Reading)
  has_unread_logs r s = do s' ← check_for_new_logs r s; some (any_unread s'.1 all_log_ids, s')

-- A candidate of PopNextUnreadLog: the log, the entry at its position, and the position.
pub record Candidate : Type 0 where
  pub log_id : ℕ
  pub entry : SerializedLogEntry
  pub position : LogPosition

-- The loop of PopNextUnreadLog: the unread entry with the least sequence number, and of equal ones
-- the one of the first log.
unfoldable pub next_candidate :
    List ℕ
    → (ℕ → List ChunkNode)
    → SerializedFlushToState
    → ℕ
    → Option Candidate
    → Option (Option Candidate)
next_candidate [] logs st min_sequence best = some best
next_candidate (i ∷ is) logs st min_sequence best =
    let skip = next_candidate is logs st min_sequence best in
    elim (st.log_positions i) [
      | none ↦ skip
      | some position ↦ if st.logs_needed_from_next_position i then skip else do
        node ← find_node position.buffer_it (logs i)
        e ← log_entry node.chunk position.read_offset
        let found : Candidate = record { log_id = i; entry = e; position = position }
        let better = next_candidate is logs st e.sequence (some found)
        if ltb e.sequence min_sequence then better else skip
    ]

unfoldable pub pop_next_unread_log :
    (ℕ → List ChunkNode) → SerializedFlushToState → Option (Candidate × SerializedFlushToState)
pop_next_unread_log logs st = do
  best ← next_candidate all_log_ids logs st (2 ^ 64 - 1) none
  top ← best
  let position = top.position
  some (
    top,
    record st {
      log_positions =
          update st.log_positions top.log_id
            (some (record position { read_offset = position.read_offset + total_len top.entry }));
      logs_needed_from_next_position = update st.logs_needed_from_next_position top.log_id true;
    },
  )
