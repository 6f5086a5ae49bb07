-- ===== src/Logd/Statistics.antt =====
-- The element that the log buffers report to the statistics (logd/LogStatistics.h), and the calls
-- that they make, in order. Statistics.Calls has what the calls do.
pub mod Entries
pub mod Table
pub mod Tables
pub mod Calls
pub mod Worst
pub mod Counters
use android_system_logging.Common.{ℕ, Option, List}
use android_system_logging.Liblog.LogTime.{LogTime}

-- `msg` is none for a null pointer.
pub record LogStatisticsElement : Type 0 where
  pub uid : ℕ
  pub pid : ℕ
  pub tid : ℕ
  pub tag : ℕ
  pub realtime : LogTime
  pub msg : Option (List ℕ)
  pub msg_len : ℕ
  pub dropped_count : ℕ
  pub log_id : ℕ
  pub total_len : ℕ

pub data StatsCall : Type 0 where
  add subtract : LogStatisticsElement → StatsCall
  add_total set_overhead : ℕ → ℕ → StatsCall
