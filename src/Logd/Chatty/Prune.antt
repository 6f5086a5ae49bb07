-- ===== src/Logd/Chatty/Prune.antt =====
-- ChattyLogBuffer::Prune (logd/ChattyLogBuffer.cpp). `none` is a failed CHECK, or an access by a stale
-- iterator or to an element that has been erased; `some none` is a first pass that has run out of fuel.
use android_system_logging.Common.{
  ℕ, zero, suc, ◌-◌, ◌/◌, ◌^◌, Bool, true, false, ◌&&◌, ◌||◌, not, Option, none, some, List, [],
  ◌∷◌, length, drop, ltb, leb, ◌==◌, if◌then◌else◌, ◌>>=◌,
}
use android_system_logging.Liblog.LogId.{
  log_id_main, log_id_radio, log_id_events, log_id_system, log_id_security,
}
use android_system_logging.Liblog.LogTime.{LogTime, epoch}
use android_system_logging.Logd.Element.{LogBufferElement, dropped_count}
use android_system_logging.Logd.PruneList.{PruneList, is_low_priority}
use android_system_logging.Logd.Simple.{
  SimpleLogBuffer, Reader, get_oldest, is_blocked, kick_oldest, oldest_reader,
}
use android_system_logging.Logd.Statistics.Entries.{Names, minus64}
use android_system_logging.Logd.Statistics.Tables.{LogStatistics, aid_system}
use android_system_logging.Logd.Statistics.Worst.{
  Worst, worst_two_uids, worst_two_tags, worst_two_system_pids,
}
use android_system_logging.Logd.Chatty.Buffer.{ChattyLogBuffer, Iterator, at, stale, erase}
use android_system_logging.Logd.Chatty.Scan.{Pass, Scan, scan}

unfoldable pub worst_uid_enabled_for_logid : ℕ → Bool
worst_uid_enabled_for_logid id =
    id == log_id_main || (id == log_id_system || (id == log_id_radio || id == log_id_events))

-- The worst user or tag, or -1 as an `int`; its process, or 0; and their sizes.
abbrev pub Offender : Type 0
Offender = ℕ × ℕ × ℕ × ℕ

abbrev pub no_worst : ℕ
no_worst = 2 ^ 32 - 1

unfoldable pub worst_pid_of_system : PruneList → ℕ → LogStatistics → Worst → Offender
worst_pid_of_system list id st w =
    let w' =
      worst_two_system_pids id w.worst_sizes st
        (record { worst = 0; worst_sizes = 0; second_worst_sizes = w.second_worst_sizes }) in
    if w.worst == aid_system && list.worst_pid_of_system_enabled
    then (w.worst, w'.worst, w.worst_sizes, w'.second_worst_sizes)
    else (w.worst, 0, w.worst_sizes, w.second_worst_sizes)

unfoldable pub worst_offender : PruneList → ℕ → SimpleLogBuffer → Offender
worst_offender list id b =
    let threshold = b.max_size id / 8 in
    let unknown : Worst = record { worst = no_worst; worst_sizes = 0; second_worst_sizes = 0 } in
    let w = worst_two_tags threshold b.stats unknown in
    if not (worst_uid_enabled_for_logid id && list.worst_uid_enabled)
    then (no_worst, 0, 0, 0)
    else if id == log_id_events || id == log_id_security
    then (w.worst, 0, w.worst_sizes, w.second_worst_sizes)
    else worst_pid_of_system list id b.stats (worst_two_uids id threshold b.stats unknown)

-- A watermark that is there and is not end().
unfoldable pub started_at : Option Iterator → ℕ → Option Iterator
started_at none len = none
started_at (some (at k)) len = if k == len then none else some (at k)
started_at (some stale) len = some stale

unfoldable pub or_mark : Option Iterator → Option Iterator → Option Iterator
or_mark none j = j
or_mark (some i) j = some i

-- The iterator that the first pass starts from, if it is not the oldest element.
unfoldable pub starting_mark : Bool → ℕ → Offender → ChattyLogBuffer → Option Iterator
starting_mark gc id (worst, worst_pid, worst_sizes, second_worst_sizes) b =
    let len = length b.simple.logs in
    let of_pid =
      if worst_pid == 0 then none else started_at (b.last_worst_pid_of_system id worst_pid) len in
    if gc || worst == no_worst
    then none
    else or_mark of_pid (started_at (b.last_worst id worst) len)

-- The start, whether it is the oldest element, and the buffer after GetOldest.
unfoldable pub starting_place :
    ℕ → Option Iterator → ChattyLogBuffer → Option (ℕ × Bool × ChattyLogBuffer)
starting_place id none b =
    let (it, simple) = get_oldest id b.simple in some (it, true, record b { simple = simple })
starting_place id (some (at k)) b = some (k, false, b)
starting_place id (some stale) b = none

unfoldable pub newest_time : List LogBufferElement → LogTime
newest_time [] = epoch
newest_time (e ∷ []) = e.realtime
newest_time (e ∷ f ∷ es) = newest_time (f ∷ es)

module _ (names : Names) where
  -- The loop for a caller that is not root.
  unfoldable pub user_loop :
      ℕ
      → ℕ
      → Option (ℕ × Reader)
      → List LogBufferElement
      → ℕ
      → ℕ
      → ChattyLogBuffer
      → Option (Bool × ChattyLogBuffer)
  user_loop id caller_uid oldest [] it prune_rows b = some (true, b)
  user_loop id caller_uid oldest (e ∷ es) it prune_rows b =
      let other = user_loop id caller_uid oldest es (suc it) prune_rows b in
      let taken : Option (Bool × ChattyLogBuffer) =
        (erase names false it e b >>= (λ b'.
          let more = user_loop id caller_uid oldest es it (minus64 prune_rows 1) b' in
          if minus64 prune_rows 1 == 0 then some (true, b') else more)) in
      if not (e.log_id == id) || not (e.uid == caller_uid)
      then other
      else if is_blocked oldest e
      then some (false, record b { simple = kick_oldest oldest id prune_rows b.simple })
      else taken

  unfoldable pub prune_user :
      ℕ → ℕ → Option (ℕ × Reader) → ℕ → ChattyLogBuffer → Option (Bool × ChattyLogBuffer)
  prune_user id caller_uid oldest prune_rows b =
      let (it, simple) = get_oldest id b.simple in
      user_loop id caller_uid oldest (drop it simple.logs) it prune_rows
        (record b { simple = simple })

module _ (names : Names) (list : PruneList) where
  -- The loop of a round of the first pass.
  unfoldable pub first_scan :
      Bool → ℕ → Option (ℕ × Reader) → Offender → ℕ → ℕ × Bool × ChattyLogBuffer → Option Scan
  first_scan check_high_priority id oldest offender prune_rows (it, leading, b) =
      let (worst, worst_pid, worst_sizes, second_worst_sizes) = offender in
      let pass : Pass = record {
        id = id;
        worst = worst;
        worst_pid = worst_pid;
        second_worst_sizes = second_worst_sizes;
        gc = leb prune_rows 1;
        check_high_priority = check_high_priority;
        prune_list = list;
        oldest = oldest;
        newest = newest_time b.simple.logs;
      } in
      scan names pass (drop it b.simple.logs) (record {
        it = it;
        buffer = b;
        last = [];
        prune_rows = prune_rows;
        worst_sizes = worst_sizes;
        kick = false;
        leading = leading;
      })

  -- A round of the first pass: whether it has kicked anything out, and the rows that are left.
  unfoldable pub first_round :
      Bool
      → ℕ
      → Option (ℕ × Reader)
      → Offender
      → ℕ
      → ChattyLogBuffer
      → Option (Bool × ℕ × ChattyLogBuffer)
  first_round check_high_priority id oldest offender prune_rows b = do
    placed ← starting_place id (starting_mark (leb prune_rows 1) id offender b) b
    s ← first_scan check_high_priority id oldest offender prune_rows placed
    some (s.kick, s.prune_rows, s.buffer)

  -- The first pass, where not all is to be cleared.
  unfoldable pub first_pass :
      ℕ
      → Bool
      → ℕ
      → Option (ℕ × Reader)
      → ℕ
      → ChattyLogBuffer
      → Option (Option (ℕ × ChattyLogBuffer))
  first_pass zero check_high_priority id oldest prune_rows b = some none
  first_pass (suc fuel) check_high_priority id oldest prune_rows b =
      let offender = worst_offender list id b.simple in
      let round : Option (Option (ℕ × ChattyLogBuffer)) =
        (first_round check_high_priority id oldest offender prune_rows b >>= (λ r.
          let again = first_pass fuel check_high_priority id oldest r.1 r.2 in
          if not r.0 || not list.worst_uid_enabled then some (some (r.1, r.2)) else again)) in
      if prune_rows == 0
      then some (some (prune_rows, b))
      else if offender.0 == no_worst && not check_high_priority
      then some (some (prune_rows, b))
      else round

  -- The second pass, and the third, which checks no rules of low priority. The results are whether
  -- an element was skipped, whether the end of the list was reached, and the rows that are left.
  unfoldable pub rest_pass :
      Bool
      → ℕ
      → Option (ℕ × Reader)
      → List LogBufferElement
      → ℕ
      → Bool
      → ℕ
      → ChattyLogBuffer
      → Option (Bool × Bool × ℕ × ChattyLogBuffer)
  rest_pass check_low id oldest [] it skipped prune_rows b = some (skipped, true, prune_rows, b)
  rest_pass check_low id oldest (e ∷ es) it skipped prune_rows b =
      let is_kept = check_low && (dropped_count e == 0 && is_low_priority e list) in
      let kicked =
        if skipped then b else record b { simple = kick_oldest oldest id prune_rows b.simple } in
      let other = rest_pass check_low id oldest es (suc it) skipped prune_rows b in
      let kept = rest_pass check_low id oldest es (suc it) true prune_rows b in
      let taken : Option (Bool × Bool × ℕ × ChattyLogBuffer) =
        (erase names false it e b
          >>= (λ b'. rest_pass check_low id oldest es it skipped (prune_rows - 1) b')) in
      if prune_rows == 0
      then some (skipped, false, prune_rows, b)
      else if not (e.log_id == id)
      then other
      else if is_blocked oldest e
      then some (skipped, false, prune_rows, kicked)
      else if is_kept
      then kept
      else taken

  unfoldable pub from_oldest :
      Bool
      → ℕ
      → Option (ℕ × Reader)
      → ℕ
      → ChattyLogBuffer
      → Option (Bool × Bool × ℕ × ChattyLogBuffer)
  from_oldest check_low id oldest prune_rows b =
      let (it, simple) = get_oldest id b.simple in
      rest_pass check_low id oldest (drop it simple.logs) it false prune_rows
        (record b { simple = simple })

  -- The passes behind the first one, which leaves the rows and the buffer.
  unfoldable pub later_passes :
      Bool
      → ℕ
      → Option (ℕ × Reader)
      → Option (ℕ × ChattyLogBuffer)
      → Option (Option (Bool × ChattyLogBuffer))
  later_passes check_low id oldest none = some none
  later_passes check_low id oldest (some (rows, b)) = do
    (skipped, ended, rows2, b2) ← from_oldest check_low id oldest rows b
    (skipped3, ended3, rows3, b3) ←
        if skipped && ltb 0 rows2
        then from_oldest false id oldest rows2 b2
        else some (skipped, ended, rows2, b2)
    some (some (rows3 == 0 || ended3, b3))

  unfoldable pub prune_all :
      ℕ → Option (ℕ × Reader) → ℕ → ChattyLogBuffer → Option (Option (Bool × ChattyLogBuffer))
  prune_all id oldest prune_rows b = do
    let clear_all : Bool = prune_rows == 2 ^ 64 - 1
    let has_rules : Bool = not (id == log_id_security)
    let check_high : Bool = has_rules && ltb 0 (length list.high_priority_prune)
    let check_low : Bool = has_rules && (ltb 0 (length list.low_priority_prune) && not clear_all)
    first ←
        if clear_all
        then some (some (prune_rows, b))
        else first_pass (suc prune_rows) check_high id oldest prune_rows b
    later_passes check_low id oldest first

  unfoldable pub prune : ℕ → ℕ → ℕ → ChattyLogBuffer → Option (Option (Bool × ChattyLogBuffer))
  prune id prune_rows caller_uid b =
      let oldest = oldest_reader id 0 none b.simple.readers in
      if caller_uid == 0
      then prune_all id oldest prune_rows b
      else (prune_user names id caller_uid oldest prune_rows b >>= (λ r. some (some r)))
