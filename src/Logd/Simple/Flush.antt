-- ===== src/Logd/Simple/Flush.antt =====
-- FlushTo of logd/SimpleLogBuffer.cpp, while no other thread gets the lock. The filter and the writer
-- are the caller's, with a state of their own.
use android_system_logging.Common.{
  ℕ, ◌+◌, ◌%◌, ◌^◌, Bool, true, false, ◌&&◌, ◌||◌, not, Option, none, some, List, [], ◌∷◌, ◌++◌,
  ltb, leb, ◌==◌, if◌then◌else◌, update,
}
use android_system_logging.Logd.Element.{LogBufferElement, dropped_count}
use android_system_logging.Logd.ReaderThread.{FilterResult, k_skip, k_stop, k_write}
use android_system_logging.Logd.Serialized.FlushState.{in_mask}

-- ChattyFlushToState.
pub record ChattyFlushToState : Type 0 where
  pub start : ℕ
  pub log_mask : ℕ
  pub last_tid : ℕ → ℕ
  pub drop_chatty_messages : Bool

unfoldable pub create_flush_to_state : ℕ → ℕ → ChattyFlushToState
create_flush_to_state start log_mask = record {
  start = start;
  log_mask = log_mask;
  last_tid = λ _. 0;
  drop_chatty_messages = true;
}

-- The writer, and the filter, if there is one; `write` is FlushTo of the element, and tells
-- whether it succeeded.
pub record Client (S : Type 0) : Type 0 where
  pub privileged : Bool
  pub uid : ℕ
  pub filter : Option (LogBufferElement → S → FilterResult × S)
  pub write : LogBufferElement → Bool → S → Bool × S

-- The search from the end of the list: the elements from the iterator on. The first list is what
-- stands before it, backwards.
unfoldable pub search_back :
    ℕ → List LogBufferElement → List LogBufferElement → List LogBufferElement
search_back start [] behind = behind
search_back start (e ∷ es) behind =
    if e.sequence == start
    then e ∷ behind
    else if ltb e.sequence start
    then behind
    else search_back start es (e ∷ behind)

abbrev pub backwards : List LogBufferElement → List LogBufferElement
backwards [] = []
backwards (e ∷ es) = backwards es ++ (e ∷ [])

unfoldable pub from_start : ℕ → List LogBufferElement → List LogBufferElement
from_start start logs = if leb start 1 then logs else search_back start (backwards logs) []

module _ {S : Type 0} (client : Client S) where
  abbrev pub ask :
      Option (LogBufferElement → S → FilterResult × S) → LogBufferElement → S → FilterResult × S
  ask none e s = (k_write, s)
  ask (some filter) e s = filter e s

  unfoldable pub may_see : ChattyFlushToState → LogBufferElement → Bool
  may_see t e = (client.privileged || e.uid == client.uid) && in_mask e.log_id t.log_mask

  unfoldable pub with_tid : Bool → LogBufferElement → ChattyFlushToState → ChattyFlushToState
  with_tid same_tid e t = record t {
    drop_chatty_messages = false;
    last_tid =
        update t.last_tid e.log_id
          (if not (dropped_count e == 0) && not same_tid then 0 else e.tid);
  }

  -- The loop from an iterator on, and what FlushTo returns.
  unfoldable pub flush_loop :
      List LogBufferElement → ChattyFlushToState → S → Bool × ChattyFlushToState × S
  flush_loop [] t s = (true, record t { start = (t.start + 1) % 2 ^ 64 }, s)
  flush_loop (e ∷ es) t s =
      let here = record t { start = e.sequence } in
      let same_tid = t.last_tid e.log_id == e.tid in
      elim (may_see here e) [
        | false ↦ flush_loop es here s
        | true ↦
            let (ret, s1) = ask client.filter e s in
            elim ret [
              | k_skip ↦ flush_loop es here s1
              | k_stop ↦ (true, record here { start = (e.sequence + 1) % 2 ^ 64 }, s1)
              | k_write ↦ elim (t.drop_chatty_messages && not (dropped_count e == 0)) [
                | true ↦ flush_loop es here s1
                | false ↦
                    let t' = with_tid same_tid e here in
                    let (is_written, s2) = client.write e same_tid s1 in
                    elim is_written [ false ↦ (false, t', s2) | true ↦ flush_loop es t' s2 ]
              ]
            ]
      ]

  unfoldable pub flush_to :
      List LogBufferElement → ChattyFlushToState → S → Bool × ChattyFlushToState × S
  flush_to logs t s = flush_loop (from_start t.start logs) t s
