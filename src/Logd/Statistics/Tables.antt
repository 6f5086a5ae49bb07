-- ===== src/Logd/Statistics/Tables.antt =====
-- The state of LogStatistics in logd/LogStatistics.{h,cpp}: the counters and the tables, and which of
-- them an element is in. An early return of a call is a condition on the tables that come after it.
-- The formatted reports are not modelled.
use android_system_logging.Common.{
  ℕ, ◌-◌, ◌*◌, ◌/◌, ◌%◌, ◌^◌, Bool, ◌&&◌, not, Option, none, some, List, [], ◌∷◌, ◌++◌, length,
  drop, take, ltb, leb, ◌==◌, if◌then◌else◌, update, nat_key, bytes_key,
}
use android_system_logging.Common.Bytes.{c_string}
use android_system_logging.Common.Text.{decimal}
use android_system_logging.Logd.Serialized.Entry.{is_binary}
use android_system_logging.Liblog.LogId.{log_id_kernel, log_id_security}
use android_system_logging.Liblog.LogTime.{LogTime, time_lt, time_gt, time_le, time_add, time_sub}
use android_system_logging.Logd.Statistics.{LogStatisticsElement}
use android_system_logging.Logd.Statistics.Entries.{
  UidEntry, PidEntry, TidEntry, TagEntry, TagNameEntry, Names, plus64, minus64,
}
use android_system_logging.Logd.Statistics.Table.{LogHashtable}

abbrev pub aid_system : ℕ
aid_system = 1000

abbrev pub hour_sec : ℕ
hour_sec = 60 * 60

pub record LogStatistics : Type 0 where
  pub m_sizes : ℕ → ℕ
  pub m_elements : ℕ → ℕ
  pub m_dropped_elements : ℕ → ℕ
  pub m_sizes_total : ℕ → ℕ
  pub m_elements_total : ℕ → ℕ
  pub m_oldest : ℕ → LogTime
  pub m_newest : ℕ → LogTime
  pub m_newest_dropped : ℕ → LogTime
  pub sizes_total : ℕ
  pub enable : Bool
  pub uid_table : ℕ → LogHashtable ℕ UidEntry
  pub pid_system_table : ℕ → LogHashtable ℕ PidEntry
  pub pid_table : LogHashtable ℕ PidEntry
  pub tid_table : LogHashtable ℕ TidEntry
  pub tag_table : LogHashtable ℕ TagEntry
  pub security_tag_table : LogHashtable ℕ TagEntry
  pub tag_name_table : LogHashtable (List ℕ) TagNameEntry
  pub track_total_size : Bool
  pub overhead : ℕ → Option ℕ

-- The constructor, at the time `now`. SizesTotal is static, and keeps what it has.
unfoldable pub new_statistics : Bool → Bool → Option LogTime → LogTime → ℕ → LogStatistics
new_statistics enable track_total_size start_time now sizes_total =
    let first : LogTime = elim start_time [ none ↦ now | some t ↦ t ] in
    record {
      m_sizes = λ _. 0;
      m_elements = λ _. 0;
      m_dropped_elements = λ _. 0;
      m_sizes_total = λ _. 0;
      m_elements_total = λ _. 0;
      m_oldest = λ _. first;
      m_newest = λ _. first;
      m_newest_dropped = λ _. now;
      sizes_total = sizes_total;
      enable = enable;
      uid_table = λ _. [];
      pid_system_table = λ _. [];
      pid_table = [];
      tid_table = [];
      tag_table = [];
      security_tag_table = [];
      tag_name_table = [];
      track_total_size = track_total_size;
      overhead = λ _. none;
    }

-- TagNameKey.
unfoldable pub tag_name_key : Names → LogStatisticsElement → List ℕ
tag_name_key names e =
    let numbered = b'[' ∷ (decimal e.tag ++ b']' ∷ []) in
    let named : List ℕ = elim (names.tag_to_name e.tag) [ none ↦ numbered | some name ↦ name ] in
    let text = λ (msg : List ℕ). c_string (take (e.msg_len - 1) (drop 1 msg)) in
    if is_binary e.log_id then if e.tag == 0 then numbered else named else elim e.msg [
      | none ↦ b'c' ∷ b'h' ∷ b'a' ∷ b't' ∷ b't' ∷ b'y' ∷ []
      | some msg ↦
          if length (text msg) == 0 then b'<' ∷ b'N' ∷ b'U' ∷ b'L' ∷ b'L' ∷ b'>' ∷ [] else text msg
    ]

unfoldable pub count_total : ℕ → ℕ → LogStatistics → LogStatistics
count_total log_id size st = record st {
  m_sizes_total = update st.m_sizes_total log_id (plus64 (st.m_sizes_total log_id) size);
  sizes_total = plus64 st.sizes_total size;
  m_elements_total = update st.m_elements_total log_id (plus64 (st.m_elements_total log_id) 1);
}

unfoldable pub add_total : ℕ → ℕ → LogStatistics → LogStatistics
add_total = count_total

-- The times of a log whose newest entry is older than the stamp: a jump of more than an hour moves
-- the oldest time along.
unfoldable pub new_time : ℕ → LogTime → LogStatistics → LogStatistics
new_time i stamp st =
    let diff = time_sub stamp (st.m_newest i) in
    let ahead = time_add diff (st.m_oldest i) in
    let fixed =
      if time_gt ahead stamp && ltb (time_sub ahead stamp).tv_sec hour_sec then stamp else ahead in
    let newer = record st { m_newest = update st.m_newest i stamp } in
    let shifted = record newer {
      m_oldest = update st.m_oldest i fixed;
      m_newest_dropped =
          if time_lt (st.m_newest_dropped i) fixed
          then update st.m_newest_dropped i fixed
          else st.m_newest_dropped;
    } in
    if not (time_lt (st.m_newest i) stamp)
    then st
    else if ltb hour_sec diff.tv_sec && time_le fixed stamp
    then shifted
    else newer

-- Which of the tables an element is in.
unfoldable pub in_uid_table : LogStatisticsElement → Bool
in_uid_table e = not (e.log_id == log_id_kernel)

unfoldable pub in_pid_system_table : LogStatisticsElement → Bool
in_pid_system_table e = in_uid_table e && e.uid == aid_system

unfoldable pub is_detailed : LogStatistics → LogStatisticsElement → Bool
is_detailed st e = st.enable && in_uid_table e

unfoldable pub has_plain_tag : LogStatisticsElement → Bool
has_plain_tag e = not (e.tag == 0) && not (e.log_id == log_id_security)

unfoldable pub has_security_tag : LogStatisticsElement → Bool
has_security_tag e = not (e.tag == 0) && e.log_id == log_id_security

unfoldable pub in_tag_table : LogStatistics → LogStatisticsElement → Bool
in_tag_table st e = is_detailed st e && has_plain_tag e

unfoldable pub in_security_tag_table : LogStatistics → LogStatisticsElement → Bool
in_security_tag_table st e = is_detailed st e && has_security_tag e

-- The size that counts: without the overhead of the list if that is not tracked.
unfoldable pub tracked : LogStatistics → LogStatisticsElement → LogStatisticsElement
tracked st e = if st.track_total_size then e else record e { total_len = e.msg_len }

-- Sizes and SizeReadable.
unfoldable pub sizes : ℕ → LogStatistics → ℕ
sizes id st = elim (st.overhead id) [ none ↦ st.m_sizes id | some size ↦ size ]

unfoldable pub size_readable : ℕ → LogStatistics → ℕ
size_readable id st = st.m_sizes id

unfoldable pub set_overhead : ℕ → ℕ → LogStatistics → LogStatistics
set_overhead id size st = record st { overhead = update st.overhead id (some size) }

-- ShouldPrune: the rows to prune; at most 10% of the entries, in most cases.
unfoldable pub should_prune : ℕ → ℕ → LogStatistics → Option ℕ
should_prune id max_size st =
    let total = st.m_sizes id in
    let size_over = minus64 total (max_size * 9 % 2 ^ 64 / 10) in
    let elements = minus64 (st.m_elements id) (st.m_dropped_elements id) in
    let min_elements = if ltb (elements / 100) 4 then 4 else elements / 100 in
    let part = elements * size_over % 2 ^ 64 / total in
    let rows = if ltb part min_elements then min_elements else part in
    if leb total max_size then none else some (if ltb 256 rows then 256 else rows)
