-- ===== src/Logd/Statistics/Worst/Tests.antt =====
-- Runs of MaxEntries and of the worst two, and the theorem at a concrete table.
use android_system_logging.Common.{ℕ, ◌≡◌, refl, Bool, [], ◌∷◌, take, filter}
use android_system_logging.Logd.Statistics.Entries.{UidEntry}
use android_system_logging.Logd.Statistics.Table.{LogHashtable}
use android_system_logging.Logd.Statistics.Worst.{
  Worst, is_listed, listed_uids, max_entries, max_entries_loop, put_entry, place, worst_of,
  worst_two_with_threshold,
}
use android_system_logging.Logd.Statistics.Worst.Greatest.{Descending, count, max_entries_lem}

abbrev user : ℕ → ℕ → ℕ × UidEntry
user uid size = (uid, record { base = record { size = size; dropped = 3 }; pid = 5 })

abbrev users : LogHashtable ℕ UidEntry
users = user 1000 40 ∷ user 10001 90 ∷ user 0 15 ∷ user 10002 70 ∷ []

max_entries-users : max_entries listed_uids 2 0 0 users ≡ user 10001 90 ∷ user 10002 70 ∷ []
unfolding max_entries max_entries_loop put_entry place is_listed
max_entries-users = refl

abbrev unset : Worst
unset = record { worst = 0; worst_sizes = 0; second_worst_sizes = 0 }

worst_two-users :
    worst_two_with_threshold listed_uids users 80 unset
    ≡ record { worst = 10001; worst_sizes = 90; second_worst_sizes = 80 }
unfolding worst_two_with_threshold worst_of max_entries max_entries_loop put_entry place is_listed
worst_two-users = refl

max_entries_lem_example :
    (sorted : LogHashtable ℕ UidEntry) × (max_entries listed_uids 2 0 0 users ≡ take 2 sorted)
    × Descending listed_uids sorted
    × ((p : ℕ × UidEntry → Bool)
        → count listed_uids p sorted
          ≡ count listed_uids p (filter (is_listed listed_uids 0 0) users))
max_entries_lem_example = max_entries_lem listed_uids 2 0 0 users
