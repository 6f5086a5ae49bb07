-- ===== src/Logd/Chatty/Calls.antt =====
-- LogInternal of logd/ChattyLogBuffer.cpp on the buffer: it calls LogInternal of
-- logd/SimpleLogBuffer.cpp, which calls MaybePrune, and so the Prune of the chatty log buffer.
use android_system_logging.Common.{
  ℕ, ◌≡◌, refl, Bool, Option, none, some, List, [], ◌∷◌, ◌++◌, length, ltb, Succeeds-lt,
  Succeeds-result, get_elem?-front, ◌>>=◌, Ends, Ends-bind,
}
use android_system_logging.Logd.Element.{LogBufferElement, to_log_statistics_element}
use android_system_logging.Logd.PruneList.{PruneList}
use android_system_logging.Logd.Simple.{notify_new_log}
use android_system_logging.Logd.Simple.Oldest.{IsCached, append-IsCached}
use android_system_logging.Logd.Simple.Sequence.{should_prune-rows}
use android_system_logging.Logd.Statistics.Entries.{Names}
use android_system_logging.Logd.Statistics.Tables.{should_prune, add_total}
use android_system_logging.Logd.Statistics.Calls.{add}
use android_system_logging.Logd.Chatty.{ChattyLogs, LogCall, chatty_log}
use android_system_logging.Logd.Chatty.Buffer.{ChattyLogBuffer, at, stale, Watermarks}
use android_system_logging.Logd.Chatty.Prune.{prune}
use android_system_logging.Logd.Chatty.Watermarks.{IsMarked, IsChattyBuffer}
use android_system_logging.Logd.Chatty.Pruned.{prune-IsChattyBuffer}

module _ (names : Names) (list : PruneList) where
  -- A Prune that would not end is `none`, too.
  unfoldable pub prune_by : ℕ → Option ℕ → ChattyLogBuffer → Option ChattyLogBuffer
  prune_by id none b = some b
  prune_by id (some rows) b = do ended ← prune names list id rows 0 b; r ← ended; some r.1

  unfoldable pub maybe_prune : ℕ → ChattyLogBuffer → Option ChattyLogBuffer
  maybe_prune id b = prune_by id (should_prune id (b.simple.max_size id) b.simple.stats) b

  -- LogInternal of the simple log buffer.
  unfoldable pub insert : LogBufferElement → ChattyLogBuffer → Option ChattyLogBuffer
  insert e b = do
    pruned ← maybe_prune e.log_id (record b {
      simple = record b.simple {
        logs = b.simple.logs ++ (e ∷ []);
        stats = add names (to_log_statistics_element e) b.simple.stats;
      };
    })
    some (record pruned {
      simple = record pruned.simple {
        readers = notify_new_log names e.log_id pruned.simple.readers;
      };
    })

  unfoldable pub make_calls : List LogCall → ChattyLogBuffer → Option ChattyLogBuffer
  make_calls [] b = some b
  make_calls (LogCall.log_internal e ∷ calls) b = do b' ← insert e b; make_calls calls b'
  make_calls (LogCall.add_total id n ∷ calls) b =
      make_calls calls
        (record b { simple = record b.simple { stats = add_total id n b.simple.stats } })

  -- LogInternal of the chatty log buffer.
  unfoldable pub log_internal :
      ℕ → LogBufferElement → ChattyLogs → ChattyLogBuffer → Option (ChattyLogs × ChattyLogBuffer)
  log_internal liblog_log_tag e c b = do
    b' ← make_calls (chatty_log liblog_log_tag e c).0 b
    some ((chatty_log liblog_log_tag e c).1, b')

append-IsMarked :
    (key_of : LogBufferElement → ℕ) (marks : Watermarks) (logs : List LogBufferElement)
    (e : LogBufferElement)
    → IsMarked key_of marks logs
    → IsMarked key_of marks (logs ++ (e ∷ []))
unfolding IsMarked
append-IsMarked key_of marks logs e v id key (at k) h =
    let found = v id key (at k) h in
    rw (get_elem?-front k logs (e ∷ []) (Succeeds-lt _ k logs found)) found
append-IsMarked key_of marks logs e v id key stale h = v id key stale h

append-IsChattyBuffer :
    (names : Names) (e : LogBufferElement) (b : ChattyLogBuffer)
    → IsChattyBuffer b
    → IsChattyBuffer (record b {
      simple = record b.simple {
        logs = b.simple.logs ++ (e ∷ []);
        stats = add names (to_log_statistics_element e) b.simple.stats;
      };
    })
append-IsChattyBuffer names e b v = record {
  cached = unfold IsCached in (append-IsCached b.simple e v.cached);
  worst = append-IsMarked _ b.last_worst b.simple.logs e v.worst;
  worst_pid = append-IsMarked _ b.last_worst_pid_of_system b.simple.logs e v.worst_pid;
}

module _ (names : Names) (list : PruneList) where
  abbrev has_high : Bool
  has_high = ltb 0 (length list.high_priority_prune)

  prune_by-IsChattyBuffer :
      (id : ℕ) (rows : Option ℕ) (b : ChattyLogBuffer)
      → should_prune id (b.simple.max_size id) b.simple.stats ≡ rows
      → IsChattyBuffer b
      → Ends has_high (prune_by names list id rows b) IsChattyBuffer
  unfolding prune_by
  prune_by-IsChattyBuffer id none b e v = v
  prune_by-IsChattyBuffer id (some rows) b e v =
      let (some_rows, few) = should_prune-rows id (b.simple.max_size id) b.simple.stats rows e in
      Ends-bind has_high _ IsChattyBuffer (prune names list id rows 0 b) _
        (prune-IsChattyBuffer names list id rows 0 b few v)
        (λ m p. let (r, is, q) = Succeeds-result _ m p in rw is q.0)

  maybe_prune-IsChattyBuffer :
      (id : ℕ) (b : ChattyLogBuffer)
      → IsChattyBuffer b
      → Ends has_high (maybe_prune names list id b) IsChattyBuffer
  unfolding maybe_prune
  maybe_prune-IsChattyBuffer id b v = prune_by-IsChattyBuffer id _ b refl v

  insert-IsChattyBuffer :
      (e : LogBufferElement) (b : ChattyLogBuffer)
      → IsChattyBuffer b
      → Ends has_high (insert names list e b) IsChattyBuffer
  unfolding insert
  insert-IsChattyBuffer e b v =
      Ends-bind has_high IsChattyBuffer IsChattyBuffer _ _
        (maybe_prune-IsChattyBuffer e.log_id _ (append-IsChattyBuffer names e b v))
        (λ c w. record {
          cached = unfold IsCached in w.cached;
          worst = w.worst;
          worst_pid = w.worst_pid;
        })

  make_calls-IsChattyBuffer :
      (calls : List LogCall) (b : ChattyLogBuffer)
      → IsChattyBuffer b
      → Ends has_high (make_calls names list calls b) IsChattyBuffer
  unfolding make_calls
  make_calls-IsChattyBuffer [] b v = v
  make_calls-IsChattyBuffer (LogCall.log_internal e ∷ calls) b v =
      Ends-bind has_high IsChattyBuffer IsChattyBuffer _ _ (insert-IsChattyBuffer e b v)
        (λ c w. make_calls-IsChattyBuffer calls c w)
  make_calls-IsChattyBuffer (LogCall.add_total id n ∷ calls) b v =
      make_calls-IsChattyBuffer calls _
        (record { cached = unfold IsCached in v.cached; worst = v.worst; worst_pid = v.worst_pid })

  -- LogInternal of any element keeps the iterators of the chatty log buffer right, through every Prune
  -- that it leads to; where there is no rule of high priority, it fails no CHECK, follows no stale
  -- iterator and reads no element that it has erased.
  pub log_internal-IsChattyBuffer :
      (liblog_log_tag : ℕ) (e : LogBufferElement) (c : ChattyLogs) (b : ChattyLogBuffer)
      → IsChattyBuffer b
      → Ends has_high (log_internal names list liblog_log_tag e c b) (λ r. IsChattyBuffer r.1)
  unfolding log_internal
  log_internal-IsChattyBuffer liblog_log_tag e c b v =
      Ends-bind has_high IsChattyBuffer (λ r. IsChattyBuffer r.1) _ _
        (make_calls-IsChattyBuffer (chatty_log liblog_log_tag e c).0 b v) (λ b' w. w)
