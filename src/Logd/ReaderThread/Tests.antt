-- ===== src/Logd/ReaderThread/Tests.antt =====
-- Runs of the filters of logd/LogReaderThread.cpp, and the theorems on the tail at concrete inputs.
use android_system_logging.Common.{
  ℕ, ◌-◌, ◌≡◌, refl, true, false, List, [], ◌∷◌, arith, drop, length,
}
use android_system_logging.Liblog.LogTime.{time_eq, time_le, time_gt}
use android_system_logging.Logd.ReaderThread.{
  LogReaderThread, Popped, is_counted, filter_first_pass, filter_second_pass, ok, flush_to,
  thread_round,
}
use android_system_logging.Logd.ReaderThread.Filters.{IsReading, select, is_wanted}
use android_system_logging.Logd.ReaderThread.Tail.{thread_round-written, thread_round-last}

-- `logcat -t 2` from second 10 on.
abbrev dump_two : LogReaderThread
dump_two = record {
  release = false;
  pid = 0;
  skip_ahead = λ _. 0;
  tail = 2;
  count = 0;
  index = 0;
  start_time = record { tv_sec = 10; tv_nsec = 0 };
  non_block = true;
}

dump_two-IsReading : IsReading dump_two
dump_two-IsReading = record { held = refl; none_skipped = λ i. refl }

abbrev logged_at : ℕ → Popped
logged_at sec = record { log_id = 0; pid = 11; realtime = record { tv_sec = sec; tv_nsec = 0 } }

abbrev later_logs : List Popped
later_logs = logged_at 9 ∷ logged_at 11 ∷ logged_at 12 ∷ logged_at 13 ∷ []

abbrev logs_from_start : List Popped
logs_from_start = logged_at 9 ∷ logged_at 10 ∷ logged_at 11 ∷ []

-- The last two of the later logs.
last_two : (thread_round later_logs dump_two).0 ≡ logged_at 12 ∷ logged_at 13 ∷ []
unfolding thread_round flush_to filter_first_pass filter_second_pass is_counted ok time_eq time_le
    time_gt
last_two = refl

thread_round-written_example :
    (thread_round logs_from_start dump_two).0
    ≡ drop
        (length (select (is_counted dump_two) logs_from_start) - 2)
        (select (is_wanted dump_two) logs_from_start)
thread_round-written_example =
    thread_round-written dump_two logs_from_start dump_two-IsReading (omega arith) (omega arith)

thread_round-last_example :
    (thread_round later_logs dump_two).0
    ≡ drop
        (length (select (is_wanted dump_two) later_logs) - 2)
        (select (is_wanted dump_two) later_logs)
unfolding time_eq
thread_round-last_example =
    thread_round-last dump_two later_logs dump_two-IsReading (omega arith) (omega arith)
      (refl, (refl, (refl, (refl, tt))))
