-- ===== src/Logd/ReaderThread.antt =====
-- logd/LogReaderThread.{h,cpp}: what a reader is sent of the logs that FlushTo pops for it. The
-- thread, its socket and its waiting are not modelled.
pub mod Filters
pub mod Tail
pub mod Tests
use android_system_logging.Common.{
  ℕ, ◌+◌, ◌-◌, ◌%◌, ◌^◌, Bool, true, false, ◌&&◌, ◌||◌, not, List, [], ◌∷◌, ltb, leb, ◌==◌,
  if◌then◌else◌, update,
}
use android_system_logging.Liblog.LogTime.{LogTime, epoch, time_eq, time_le}

pub data FilterResult : Type 0 where
  k_skip k_stop k_write : FilterResult

pub record LogReaderThread : Type 0 where
  pub release : Bool
  pub pid : ℕ
  pub skip_ahead : ℕ → ℕ
  pub tail : ℕ
  pub count : ℕ
  pub index : ℕ
  pub start_time : LogTime
  pub non_block : Bool

-- The arguments of a filter, which come from an entry and its log.
pub record Popped : Type 0 where
  pub log_id : ℕ
  pub pid : ℕ
  pub realtime : LogTime

abbrev pub Filter : Type 0
Filter = Popped → LogReaderThread → FilterResult × LogReaderThread

unfoldable pub is_counted : LogReaderThread → Popped → Bool
is_counted t p =
    (t.pid == 0 || t.pid == p.pid)
    && (time_eq t.start_time epoch || time_le t.start_time p.realtime)

unfoldable pub filter_first_pass : Filter
filter_first_pass p t =
    (k_skip, if is_counted t p then record t { count = (t.count + 1) % 2 ^ 64 } else t)

-- The label `ok`.
unfoldable pub ok : Popped → LogReaderThread → FilterResult
ok p t = if t.skip_ahead p.log_id == 0 then k_write else k_skip

unfoldable pub filter_second_pass : Filter
filter_second_pass p t =
    let skipped = record t {
      skip_ahead = update t.skip_ahead p.log_id (t.skip_ahead p.log_id - 1);
    } in
    let counted = record t { index = (t.index + 1) % 2 ^ 64 } in
    let following = if t.non_block then counted else record counted { tail = 0 } in
    if not (t.skip_ahead p.log_id == 0)
    then (k_skip, skipped)
    else if t.non_block && (not (t.tail == 0) && leb t.count t.index)
    then (k_stop, t)
    else if not (t.pid == 0) && not (t.pid == p.pid)
    then (k_skip, t)
    else if not (time_eq t.start_time epoch) && time_le p.realtime t.start_time
    then (k_skip, t)
    else if t.release
    then (k_stop, t)
    else if t.tail == 0
    then (ok p t, t)
    else if ltb t.tail t.count && leb counted.index (t.count - t.tail)
    then (k_skip, counted)
    else (ok p following, following)

-- FlushTo over the logs that it pops and may show to the reader: what the filter lets through is
-- written. Every write succeeds.
unfoldable pub flush_to : Filter → List Popped → LogReaderThread → List Popped × LogReaderThread
flush_to filter [] t = ([], t)
flush_to filter (p ∷ ps) t =
    let (ret, t') = filter p t in
    let (written, t'') = flush_to filter ps t' in
    elim ret [ k_skip ↦ (written, t'') | k_stop ↦ ([], t') | k_write ↦ (p ∷ written, t'') ]

-- One round of ThreadFunction, while no other thread gets the lock: a first pass counts, where there
-- is a tail, the second one writes, and the start time is forgotten.
unfoldable pub thread_round : List Popped → LogReaderThread → List Popped × LogReaderThread
thread_round ps t =
    let counted = if t.tail == 0 then t else (flush_to filter_first_pass ps t).1 in
    let (written, t') = flush_to filter_second_pass ps counted in
    (written, record t' { start_time = epoch })
