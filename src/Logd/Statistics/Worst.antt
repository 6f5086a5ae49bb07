-- ===== src/Logd/Statistics/Worst.antt =====
-- LogHashtable::MaxEntries of logd/LogStatistics.h, and the worst two of logd/LogStatistics.cpp. The
-- entries that are not found are left out of the list, and are null in the source.
use android_system_logging.Common.{
  ℕ, zero, suc, ◌+◌, ◌-◌, ◌*◌, ◌%◌, ◌^◌, Bool, true, false, ◌&&◌, ◌||◌, not, List, [], ◌∷◌, ◌++◌,
  take, drop, ltb, leb, ◌==◌, if◌then◌else◌,
}
use android_system_logging.Logd.Statistics.Entries.{
  EntryBaseDropped, UidEntry, PidEntry, TagEntry, plus64, minus64,
}
use android_system_logging.Logd.Statistics.Table.{LogHashtable}
use android_system_logging.Logd.Statistics.Tables.{LogStatistics, aid_system}
pub mod Greatest
mod Tests

-- What MaxEntries asks of an entry and its key: the user, the process and the size.
pub record Listed (K E : Type 0) : Type 0 where
  pub uid : K → E → ℕ
  pub pid : K → E → ℕ
  pub base : E → EntryBaseDropped

module _ {K E : Type 0} (l : Listed K E) where
  abbrev pub size_of : K × E → ℕ
  size_of x = (l.base x.1).size

  unfoldable pub is_listed : ℕ → ℕ → K × E → Bool
  is_listed uid pid x =
      (uid == 0 || uid == l.uid x.0 x.1)
      && (pid == 0 || (l.pid x.0 x.1 == 0 || pid == l.pid x.0 x.1))

  -- The index behind the last entry that is not smaller.
  unfoldable pub place : ℕ → LogHashtable K E → ℕ
  place size [] = 0
  place size (x ∷ xs) =
      let rest = place size xs in
      if ltb 0 rest then suc rest else if ltb (size_of x) size then 0 else 1

  unfoldable pub put_entry : ℕ → K × E → LogHashtable K E → LogHashtable K E
  put_entry len x out =
      let index = place (size_of x) out in
      if ltb index len then take len (take index out ++ (x ∷ drop index out)) else out

  unfoldable pub max_entries_loop :
      ℕ → ℕ → ℕ → LogHashtable K E → LogHashtable K E → LogHashtable K E
  max_entries_loop len uid pid [] out = out
  max_entries_loop len uid pid (x ∷ xs) out =
      max_entries_loop len uid pid xs (if is_listed uid pid x then put_entry len x out else out)

  unfoldable pub max_entries : ℕ → ℕ → ℕ → LogHashtable K E → LogHashtable K E
  max_entries len uid pid table = max_entries_loop len uid pid table []

abbrev pub listed_uids : Listed ℕ UidEntry
listed_uids = record { uid = λ k e. k; pid = λ k e. e.pid; base = λ e. e.base }

abbrev listed_pids : Listed ℕ PidEntry
listed_pids = record { uid = λ k e. e.uid; pid = λ k e. k; base = λ e. e.base }

abbrev listed_tags : Listed ℕ TagEntry
listed_tags = record { uid = λ k e. e.uid; pid = λ k e. e.pid; base = λ e. e.base }

-- What the calls write through their pointers.
pub record Worst : Type 0 where
  pub worst : ℕ
  pub worst_sizes : ℕ
  pub second_worst_sizes : ℕ

module _ {E : Type 0} (l : Listed ℕ E) where
  unfoldable pub worst_of : ℕ → LogHashtable ℕ E → Worst → Worst
  worst_of threshold [] w = w
  worst_of threshold (a ∷ []) w = w
  worst_of threshold (a ∷ b ∷ rest) w =
      let sizes = size_of l a in
      let second = if ltb (size_of l b) threshold then threshold else size_of l b in
      if ltb threshold sizes && ltb (10 * (l.base a.1).dropped % 2 ^ 64) sizes
      then record { worst = a.0; worst_sizes = sizes; second_worst_sizes = second }
      else record w { worst_sizes = sizes }

  unfoldable pub worst_two_with_threshold : LogHashtable ℕ E → ℕ → Worst → Worst
  worst_two_with_threshold table threshold w = worst_of threshold (max_entries l 2 0 0 table) w

unfoldable pub worst_two_uids : ℕ → ℕ → LogStatistics → Worst → Worst
worst_two_uids id threshold st w =
    worst_two_with_threshold listed_uids (st.uid_table id) threshold w

unfoldable pub worst_two_tags : ℕ → LogStatistics → Worst → Worst
worst_two_tags threshold st w = worst_two_with_threshold listed_tags st.tag_table threshold w

unfoldable pub worst_pid_of : ℕ → LogHashtable ℕ PidEntry → Worst → Worst
worst_pid_of worst_uid_sizes [] w = w
worst_pid_of worst_uid_sizes (a ∷ []) w = w
worst_pid_of worst_uid_sizes (a ∷ b ∷ rest) w = record w {
  worst = a.0;
  second_worst_sizes =
      plus64 (minus64 worst_uid_sizes (size_of listed_pids a)) (size_of listed_pids b);
}

unfoldable pub worst_two_system_pids : ℕ → ℕ → LogStatistics → Worst → Worst
worst_two_system_pids id worst_uid_sizes st w =
    worst_pid_of worst_uid_sizes (max_entries listed_pids 2 aid_system 0 (st.pid_system_table id)) w
