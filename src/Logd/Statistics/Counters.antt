-- ===== src/Logd/Statistics/Counters.antt =====
-- The counters of each log in LogStatistics (logd/LogStatistics.cpp): what its calls make of them.
use android_system_logging.Common.{
  ℕ, ◌≡◌, refl, ◌∙◌, Bool, ◌&&◌, ltb, ◌==◌, if◌then◌else◌, update, inl, inr, Bool-cases,
}
use android_system_logging.Liblog.LogTime.{LogTime, time_lt, time_gt, time_le, time_add, time_sub}
use android_system_logging.Logd.Statistics.{LogStatisticsElement}
use android_system_logging.Logd.Statistics.Entries.{Names, plus64, minus64}
use android_system_logging.Logd.Statistics.Tables.{
  LogStatistics, count_total, new_time, tracked, hour_sec,
}
use android_system_logging.Logd.Statistics.Calls.{add, subtract}

-- The sizes, the elements, the dropped elements, and whether the total size counts.
abbrev pub Counters : Type 0
Counters = (ℕ → ℕ) × (ℕ → ℕ) × (ℕ → ℕ) × Bool

abbrev pub counters : LogStatistics → Counters
counters st = (st.m_sizes, st.m_elements, st.m_dropped_elements, st.track_total_size)

new_time-counters :
    (i : ℕ) (t : LogTime) (st : LogStatistics) → counters (new_time i t st) ≡ counters st
unfolding new_time
new_time-counters i t st = elim (Bool-cases (time_lt (st.m_newest i) t)) [
  | inr e ↦ rw e refl
  | inl e ↦
      let diff = time_sub t (st.m_newest i) in
      let ahead = time_add diff (st.m_oldest i) in
      let fixed = if time_gt ahead t && ltb (time_sub ahead t).tv_sec hour_sec then t else ahead in
      elim (Bool-cases (ltb hour_sec diff.tv_sec && time_le fixed t)) [
        | inl f ↦ rw (e, f) refl
        | inr f ↦ rw (e, f) refl
      ]
]

pub add-counters :
    (names : Names) (e : LogStatisticsElement) (st : LogStatistics)
    → counters (add names e st) ≡ (
      update st.m_sizes e.log_id (plus64 (st.m_sizes e.log_id) (tracked st e).total_len),
      update st.m_elements e.log_id (plus64 (st.m_elements e.log_id) 1),
      if e.dropped_count == 0
          then st.m_dropped_elements
          else update st.m_dropped_elements e.log_id (plus64 (st.m_dropped_elements e.log_id) 1),
      st.track_total_size,
    )
unfolding add tracked count_total
add-counters names e st = new_time-counters _ _ _ ∙ elim (Bool-cases st.track_total_size) [
  | inl f ↦ elim (Bool-cases (e.dropped_count == 0)) [
    | inl g ↦ rw (f, g) refl
    | inr g ↦ rw (f, g) refl
  ]
  | inr f ↦ elim (Bool-cases (e.dropped_count == 0)) [
    | inl g ↦ rw (f, g) refl
    | inr g ↦ rw (f, g) refl
  ]
]

pub subtract-counters :
    (names : Names) (e : LogStatisticsElement) (st : LogStatistics)
    → counters (subtract names e st) ≡ (
      update st.m_sizes e.log_id (minus64 (st.m_sizes e.log_id) (tracked st e).total_len),
      update st.m_elements e.log_id (minus64 (st.m_elements e.log_id) 1),
      if e.dropped_count == 0
          then st.m_dropped_elements
          else update st.m_dropped_elements e.log_id (minus64 (st.m_dropped_elements e.log_id) 1),
      st.track_total_size,
    )
unfolding subtract tracked
subtract-counters names e st = elim (Bool-cases st.track_total_size) [
  | inl f ↦ rw f refl
  | inr f ↦ rw f refl
]
