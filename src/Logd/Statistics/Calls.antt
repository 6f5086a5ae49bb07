-- ===== src/Logd/Statistics/Calls.antt =====
-- The calls of LogStatistics in logd/LogStatistics.cpp that the log buffers make.
use android_system_logging.Common.{
  ◌&&◌, Option, some, ltb, ◌==◌, if◌then◌else◌, ◌>>◌, check, update, nat_key, bytes_key,
}
use android_system_logging.Liblog.LogTime.{time_lt}
use android_system_logging.Logd.Statistics.{LogStatisticsElement}
use android_system_logging.Logd.Statistics.Entries.{
  uid_entry, pid_entry, tid_entry, tag_entry, tag_name_entry, Names, plus64, minus64,
}
use android_system_logging.Logd.Statistics.Table.{
  table_add, table_subtract, table_drop, table_erase,
}
use android_system_logging.Logd.Statistics.Tables.{
  LogStatistics, count_total, new_time, in_uid_table, in_pid_system_table, is_detailed,
  in_tag_table, in_security_tag_table, tracked, tag_name_key, aid_system, has_plain_tag,
  has_security_tag,
}

module _ (names : Names) where
  unfoldable pub add : LogStatisticsElement → LogStatistics → LogStatistics
  add element st =
      let e = tracked st element in
      let i = e.log_id in
      let counted = record st {
        m_sizes = update st.m_sizes i (plus64 (st.m_sizes i) e.total_len);
        m_elements = update st.m_elements i (plus64 (st.m_elements i) 1);
      } in
      let summed =
        if e.dropped_count == 0 then count_total i e.total_len counted else record counted {
          m_dropped_elements = update st.m_dropped_elements i (plus64 (st.m_dropped_elements i) 1);
        } in
      let timed = new_time i e.realtime summed in
      record timed {
        uid_table =
            if in_uid_table e
            then update st.uid_table i (table_add uid_entry e.uid e (st.uid_table i))
            else st.uid_table;
        pid_system_table =
            if in_pid_system_table e
            then update st.pid_system_table i
                (table_add (pid_entry names) e.pid e (st.pid_system_table i))
            else st.pid_system_table;
        pid_table =
            if is_detailed st e
            then table_add (pid_entry names) e.pid e st.pid_table
            else st.pid_table;
        tid_table =
            if is_detailed st e
            then table_add (tid_entry names) e.tid e st.tid_table
            else st.tid_table;
        tag_table =
            if in_tag_table st e then table_add tag_entry e.tag e st.tag_table else st.tag_table;
        security_tag_table =
            if in_security_tag_table st e
            then table_add tag_entry e.tag e st.security_tag_table
            else st.security_tag_table;
        tag_name_table =
            if is_detailed st e && e.dropped_count == 0
            then table_add tag_name_entry (tag_name_key names e) e st.tag_name_table
            else st.tag_name_table;
      }

  unfoldable pub subtract : LogStatisticsElement → LogStatistics → LogStatistics
  subtract element st =
      let e = tracked st element in
      let i = e.log_id in
      record st {
        m_sizes = update st.m_sizes i (minus64 (st.m_sizes i) e.total_len);
        m_elements = update st.m_elements i (minus64 (st.m_elements i) 1);
        m_dropped_elements =
            if e.dropped_count == 0
            then st.m_dropped_elements
            else update st.m_dropped_elements i (minus64 (st.m_dropped_elements i) 1);
        m_oldest =
            if time_lt (st.m_oldest i) e.realtime
            then update st.m_oldest i e.realtime
            else st.m_oldest;
        uid_table =
            if in_uid_table e
            then update st.uid_table i (table_subtract uid_entry e.uid e (st.uid_table i))
            else st.uid_table;
        pid_system_table =
            if in_pid_system_table e
            then update st.pid_system_table i
                (table_subtract (pid_entry names) e.pid e (st.pid_system_table i))
            else st.pid_system_table;
        pid_table =
            if is_detailed st e
            then table_subtract (pid_entry names) e.pid e st.pid_table
            else st.pid_table;
        tid_table =
            if is_detailed st e
            then table_subtract (tid_entry names) e.tid e st.tid_table
            else st.tid_table;
        tag_table =
            if in_tag_table st e
            then table_subtract tag_entry e.tag e st.tag_table
            else st.tag_table;
        security_tag_table =
            if in_security_tag_table st e
            then table_subtract tag_entry e.tag e st.security_tag_table
            else st.security_tag_table;
        tag_name_table =
            if is_detailed st e && e.dropped_count == 0
            then table_subtract tag_name_entry (tag_name_key names e) e st.tag_name_table
            else st.tag_name_table;
      }

  -- The caller makes the element a dropped one after this call.
  unfoldable pub drop_element : LogStatisticsElement → LogStatistics → Option LogStatistics
  drop_element e st =
      let i = e.log_id in
      check (e.dropped_count == 0)
      >> some (record st {
        m_sizes = update st.m_sizes i (minus64 (st.m_sizes i) e.msg_len);
        m_dropped_elements = update st.m_dropped_elements i (plus64 (st.m_dropped_elements i) 1);
        m_newest_dropped =
            if time_lt (st.m_newest_dropped i) e.realtime
            then update st.m_newest_dropped i e.realtime
            else st.m_newest_dropped;
        uid_table = update st.uid_table i (table_drop uid_entry e.uid e (st.uid_table i));
        pid_system_table =
            if e.uid == aid_system
            then update st.pid_system_table i
                (table_drop (pid_entry names) e.pid e (st.pid_system_table i))
            else st.pid_system_table;
        pid_table =
            if st.enable then table_drop (pid_entry names) e.pid e st.pid_table else st.pid_table;
        tid_table =
            if st.enable then table_drop (tid_entry names) e.tid e st.tid_table else st.tid_table;
        tag_table =
            if st.enable && has_plain_tag e
            then table_drop tag_entry e.tag e st.tag_table
            else st.tag_table;
        security_tag_table =
            if st.enable && has_security_tag e
            then table_drop tag_entry e.tag e st.security_tag_table
            else st.security_tag_table;
        tag_name_table =
            if st.enable
            then table_subtract tag_name_entry (tag_name_key names e) e st.tag_name_table
            else st.tag_name_table;
      })

  -- Two dropped elements become one, and the second is erased.
  unfoldable pub erase_element : LogStatisticsElement → LogStatistics → Option LogStatistics
  erase_element element st =
      let e = if st.track_total_size then element else record element { total_len = 0 } in
      let i = e.log_id in
      check (ltb 0 element.dropped_count)
      >> (check (element.msg_len == 0)
          >> some (record st {
            m_sizes = update st.m_sizes i (minus64 (st.m_sizes i) e.total_len);
            m_elements = update st.m_elements i (minus64 (st.m_elements i) 1);
            m_dropped_elements =
                update st.m_dropped_elements i (minus64 (st.m_dropped_elements i) 1);
            uid_table = update st.uid_table i (table_erase uid_entry e.uid e (st.uid_table i));
            pid_system_table =
                if e.uid == aid_system
                then update st.pid_system_table i
                    (table_erase (pid_entry names) e.pid e (st.pid_system_table i))
                else st.pid_system_table;
            pid_table =
                if st.enable
                then table_erase (pid_entry names) e.pid e st.pid_table
                else st.pid_table;
            tid_table =
                if st.enable
                then table_erase (tid_entry names) e.tid e st.tid_table
                else st.tid_table;
            tag_table =
                if st.enable && has_plain_tag e
                then table_erase tag_entry e.tag e st.tag_table
                else st.tag_table;
            security_tag_table =
                if st.enable && has_security_tag e
                then table_erase tag_entry e.tag e st.security_tag_table
                else st.security_tag_table;
          }))
