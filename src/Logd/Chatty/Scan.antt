-- ===== src/Logd/Chatty/Scan.antt =====
-- The loop of the first pass of ChattyLogBuffer::Prune (logd/ChattyLogBuffer.cpp), from an iterator to
-- the end of the list. A read of an element that has been erased is a fault, `none`.
use android_system_logging.Common.{
  ℕ, suc, ◌*◌, Bool, true, false, ◌&&◌, ◌||◌, not, Option, none, some, List, [], ◌∷◌, modify_at,
  ltb, ◌==◌, if◌then◌else◌, ◌>>=◌, update,
}
use android_system_logging.Liblog.LogTime.{LogTime, time_lt, time_gt, time_sub}
use android_system_logging.Logd.Element.{
  LogBufferElement, set_dropped, dropped_count, msg_len, to_log_statistics_element,
}
use android_system_logging.Logd.PruneList.{PruneList, is_high_priority}
use android_system_logging.Logd.Simple.{Reader, is_blocked}
use android_system_logging.Logd.Statistics.Entries.{Names, minus64}
use android_system_logging.Logd.Statistics.Calls.{drop_element}
use android_system_logging.Logd.Chatty.Buffer.{
  ChattyLogBuffer, Iterator, at, Watermarks, LogBufferElementLast, worst_key, erase, coalesce,
  add_last, clear_expired,
}

-- EXPIRE_HOUR_THRESHOLD in seconds.
abbrev pub too_old : LogTime
too_old = record { tv_sec = 24 * 60 * 60; tv_nsec = 0 }

-- What does not change in the loop: `newest` is the time of the last element.
pub record Pass : Type 0 where
  pub id : ℕ
  pub worst : ℕ
  pub worst_pid : ℕ
  pub second_worst_sizes : ℕ
  pub gc : Bool
  pub check_high_priority : Bool
  pub prune_list : PruneList
  pub oldest : Option (ℕ × Reader)
  pub newest : LogTime

pub record Scan : Type 0 where
  pub it : ℕ
  pub buffer : ChattyLogBuffer
  pub last : LogBufferElementLast
  pub prune_rows : ℕ
  pub worst_sizes : ℕ
  pub kick : Bool
  pub leading : Bool

-- How a round ends: by break, with the element erased, or with the iterator moved on.
pub data Flow : Type 0 where
  stopped erased passed : Flow

abbrev is_unmarked : Option Iterator → Bool
is_unmarked none = true
is_unmarked (some i) = false

unfoldable pub mark : ℕ → ℕ → ℕ → Watermarks → Watermarks
mark id key it marks = update marks id (update (marks id) key (some (at it)))

unfoldable pub mark_worst : ℕ → ℕ → ℕ → ChattyLogBuffer → ChattyLogBuffer
mark_worst id key it b = record b { last_worst = mark id key it b.last_worst }

unfoldable pub mark_worst_pid : ℕ → ℕ → ℕ → ChattyLogBuffer → ChattyLogBuffer
mark_worst_pid id pid it b = record b {
  last_worst_pid_of_system = mark id pid it b.last_worst_pid_of_system;
}

-- The watermarks that a dropped element sets.
unfoldable pub mark_dropped : Pass → LogBufferElement → ℕ → ChattyLogBuffer → ChattyLogBuffer
mark_dropped p e it b =
    let is_worst_pid =
      not (p.worst_pid == 0)
      && (not p.gc && e.pid == p.worst_pid
          || is_unmarked (b.last_worst_pid_of_system p.id e.pid)) in
    let is_worst =
      not p.gc && (p.worst_pid == 0 && worst_key e == p.worst)
      || is_unmarked (b.last_worst p.id (worst_key e)) in
    let b' = if is_worst_pid then mark_worst_pid p.id e.pid it b else b in
    if is_worst then mark_worst p.id (worst_key e) it b' else b'

-- The watermarks that an element of the worst user sets when it becomes a dropped one.
unfoldable pub mark_offender : Pass → ℕ → ChattyLogBuffer → ChattyLogBuffer
mark_offender p it b =
    let is_worst_pid =
      not (p.worst_pid == 0)
      && (not p.gc || is_unmarked (b.last_worst_pid_of_system p.id p.worst_pid)) in
    let is_worst = not p.gc && p.worst_pid == 0 || is_unmarked (b.last_worst p.id p.worst) in
    let b' = if is_worst_pid then mark_worst_pid p.id p.worst_pid it b else b in
    if is_worst then mark_worst p.id p.worst it b' else b'

unfoldable pub with_logs : List LogBufferElement → ChattyLogBuffer → ChattyLogBuffer
with_logs logs b = record b { simple = record b.simple { logs = logs } }

module _ (names : Names) where
  unfoldable pub erase_step : Bool → LogBufferElement → Scan → Option (Flow × Scan)
  erase_step coalesced e s = do
    b ← erase names coalesced s.it e s.buffer
    some (erased, record s { buffer = b })

  -- The count goes to an earlier element, and this one is erased; or what is to be done otherwise.
  unfoldable pub coalesce_step :
      LogBufferElement → ℕ → Scan → (Scan → Option (Flow × Scan)) → Option (Flow × Scan)
  coalesce_step e dropped s otherwise = do
    (coalesced, last, logs) ← coalesce e dropped s.last s.buffer.simple.logs
    let s' : Scan = record s { last = last; buffer = with_logs logs s.buffer }
    if coalesced then erase_step true e s' else otherwise s'

  -- An element of high priority has been erased. Its length is read again where the loop goes on.
  unfoldable pub count_high : Pass → LogBufferElement → Scan → Option (Flow × Scan)
  count_high p e s =
      let counted = record s { prune_rows = minus64 s.prune_rows 1 } in
      if ltb 0 (dropped_count e)
      then some (erased, s)
      else if counted.prune_rows == 0
      then some (stopped, counted)
      else if not (worst_key e == p.worst)
      then some (erased, counted)
      else if ltb s.worst_sizes p.second_worst_sizes
      then some (stopped, record counted { kick = true })
      else none

  unfoldable pub high_step : Pass → LogBufferElement → Scan → Option (Flow × Scan)
  high_step p e s = do
    last ← clear_expired e s.last s.buffer.simple.logs
    (flow, s') ← erase_step false e (record s { last = last })
    count_high p e s'

  unfoldable pub drop_step : Pass → LogBufferElement → Scan → Option (Flow × Scan)
  drop_step p e s = do
    stats ← drop_element names (to_log_statistics_element e) s.buffer.simple.stats
    let b : ChattyLogBuffer = record s.buffer {
      simple = record s.buffer.simple {
        stats = stats;
        logs = modify_at s.it (set_dropped 1) s.buffer.simple.logs;
      };
    }
    coalesce_step (set_dropped 1 e) 1 (record s { buffer = b })
        (λ s'. some (
          passed,
          record s' { last = add_last e s'.it s'.last; buffer = mark_offender p s'.it s'.buffer },
        ))

  unfoldable pub offender_step : Pass → LogBufferElement → Scan → Option (Flow × Scan)
  offender_step p e s =
      let counted = record s { prune_rows = minus64 s.prune_rows 1 } in
      let kicked = record counted { kick = true } in
      if counted.prune_rows == 0
      then some (stopped, counted)
      else ((if s.leading then erase_step false e kicked else drop_step p e kicked) >>= (λ r. some (
          if ltb s.worst_sizes p.second_worst_sizes
          then (stopped, r.1)
          else (r.0, record r.1 { worst_sizes = minus64 s.worst_sizes (msg_len e) }))))

  -- No rule of high priority matches.
  unfoldable pub worst_step : Pass → LogBufferElement → Scan → Option (Flow × Scan)
  worst_step p e s =
      if time_lt e.realtime (time_sub p.newest too_old) || time_gt e.realtime p.newest
      then some (stopped, s)
      else if ltb 0 (dropped_count e)
      then some (
        passed,
        record s { last = add_last e s.it s.last; buffer = mark_dropped p e s.it s.buffer },
      )
      else if not (worst_key e == p.worst) || not (p.worst_pid == 0) && not (e.pid == p.worst_pid)
      then (clear_expired e s.last s.buffer.simple.logs
          >>= (λ last. some (passed, record s { leading = false; last = last })))
      else offender_step p e s

  unfoldable pub rule_step : Pass → LogBufferElement → Scan → Option (Flow × Scan)
  rule_step p e s =
      if p.check_high_priority && is_high_priority e p.prune_list
      then high_step p e s
      else worst_step p e s

  -- One round of the loop, at the element `e`.
  unfoldable pub scan_step : Pass → LogBufferElement → Scan → Option (Flow × Scan)
  scan_step p e s =
      if is_blocked p.oldest e
      then some (stopped, s)
      else if not (e.log_id == p.id)
      then some (passed, s)
      else if s.leading && ltb 0 (dropped_count e)
      then erase_step false e s
      else if ltb 0 (dropped_count e)
      then coalesce_step e (dropped_count e) s (rule_step p e)
      else rule_step p e s

  -- The list has the elements from the iterator on.
  unfoldable pub scan : Pass → List LogBufferElement → Scan → Option Scan
  scan p [] s = some s
  scan p (e ∷ es) s = do
    (flow, s') ← scan_step p e s
    elim flow [
      | stopped ↦ some s'
      | erased ↦ scan p es s'
      | passed ↦ scan p es (record s' { it = suc s'.it })
    ]
