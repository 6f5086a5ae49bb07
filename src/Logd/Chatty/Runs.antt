-- ===== src/Logd/Chatty/Runs.antt =====
-- Runs of the chatty log buffer's Prune, and its theorems at a concrete buffer.
use android_system_logging.Common.{
  ℕ, ◌≡◌, refl, Bool, true, Option, none, some, List, [], ◌∷◌, length, filter, ltb, not, arith,
  Ends, Succeeds, replicate, ◌>>=◌,
}
use android_system_logging.Liblog.LogTime.{epoch, time_lt, time_sub}
use android_system_logging.Logd.Element.{LogBufferElement, kept, to_log_statistics_element}
use android_system_logging.Logd.PruneList.{PruneList, no_rules, matches, is_high_priority}
use android_system_logging.Logd.Simple.{
  oldest_reader, find_log, first_place, get_oldest, is_blocked,
}
use android_system_logging.Logd.Simple.Oldest.{IsCached}
use android_system_logging.Logd.Statistics.Entries.{Names, base_of, base_add}
use android_system_logging.Logd.Statistics.Tables.{
  LogStatistics, new_statistics, count_total, new_time, in_uid_table, tracked,
}
use android_system_logging.Logd.Statistics.Calls.{add}
use android_system_logging.Logd.Chatty.{ChattyLogs}
use android_system_logging.Logd.Chatty.Buffer.{
  ChattyLogBuffer, element_key, worst_key, count_erased, erase, clear_before, clear_expired,
}
use android_system_logging.Logd.Chatty.Prune.{
  prune, worst_uid_enabled_for_logid, worst_pid_of_system, worst_offender, started_at, or_mark,
  starting_mark, starting_place, newest_time, first_scan, first_round, first_pass, prune_all,
  from_oldest, rest_pass, later_passes,
}
use android_system_logging.Logd.Chatty.Watermarks.{IsChattyBuffer, IsMarked}
use android_system_logging.Logd.Chatty.Pruned.{prunable, prune-IsChattyBuffer}
use android_system_logging.Logd.Chatty.Calls.{log_internal, log_internal-IsChattyBuffer}
use android_system_logging.Logd.Chatty.Scan.{
  erase_step, count_high, high_step, worst_step, rule_step, scan_step, scan, offender_step,
}
use android_system_logging.Logd.Statistics.Worst.{
  is_listed, place, put_entry, max_entries_loop, max_entries, worst_of, worst_two_with_threshold,
  worst_two_uids,
}
use android_system_logging.Logd.Statistics.Table.{table_add}

abbrev no_names : Names
no_names = record { pid_to_name = λ _. none; tid_to_name = λ _. none; tag_to_name = λ _. none }

abbrev line : ℕ → ℕ → ℕ → LogBufferElement
line uid sequence size = record {
  uid = uid;
  pid = 20;
  tid = 21;
  sequence = sequence;
  realtime = epoch;
  log_id = 0;
  body = kept (replicate size 65);
}

abbrev lines : List LogBufferElement
lines = line 10001 1 10 ∷ line 10002 2 90 ∷ line 10002 3 90 ∷ line 10001 4 10 ∷ line 10002 5 90 ∷ []

abbrev counted : List LogBufferElement → LogStatistics
counted [] = new_statistics true true none epoch 0
counted (e ∷ es) = add no_names (to_log_statistics_element e) (counted es)

abbrev full : ChattyLogBuffer
full = record {
  simple = record {
    logs = lines;
    oldest = λ _. none;
    max_size = λ _. 800;
    sequence = 6;
    stats = counted lines;
    readers = [];
  };
  last_worst = λ _ _. none;
  last_worst_pid_of_system = λ _ _. none;
}

abbrev worst_list : PruneList
worst_list = record no_rules { worst_uid_enabled = true }

abbrev high_list : PruneList
high_list = record worst_list { high_priority_prune = record { uid = 10002; pid = 20 } ∷ [] }

abbrev still : Option (Bool × ChattyLogBuffer) → Option (Bool × ℕ)
still ended = ended >>= (λ r. some (r.0, length r.1.simple.logs))

-- The worst user's second element is erased and then read; without the high priority rule one
-- row is asked for, none is taken, and the result is true.
prune_runs :
    (prune no_names high_list 0 3 0 full ≡ none)
    × ((prune no_names worst_list 0 1 0 full >>= still) ≡ some (true, 5))
unfolding worst_uid_enabled_for_logid worst_pid_of_system worst_offender started_at or_mark
    starting_mark starting_place newest_time first_scan first_round first_pass prune_all prune
    erase_step count_high high_step worst_step rule_step scan_step scan worst_key count_erased erase
    clear_before clear_expired is_listed place put_entry max_entries_loop max_entries worst_of
    worst_two_with_threshold worst_two_uids add new_statistics count_total new_time in_uid_table
    tracked table_add base_of base_add to_log_statistics_element find_log first_place get_oldest
    oldest_reader is_blocked matches is_high_priority time_lt time_sub offender_step from_oldest
    rest_pass later_passes
prune_runs = (refl, refl)

-- Threads whose numbers need more than 16 bits are taken for one another.
element_key-shared :
    element_key (record (line 10001 1 10) { pid = 2; tid = 65541 })
    ≡ element_key (record (line 10001 1 10) { pid = 3; tid = 65541 })
unfolding element_key
element_key-shared = refl

full-IsChattyBuffer : IsChattyBuffer full
unfolding IsCached IsMarked
full-IsChattyBuffer = record {
  cached = λ i k h. absurd (let c : none ≡ some k = h in cc);
  worst = λ id key i h. absurd (let c : none ≡ some i = h in cc);
  worst_pid = λ id key i h. absurd (let c : none ≡ some i = h in cc);
}

prune-IsChattyBuffer_example :
    let kept = λ (c : ChattyLogBuffer).
      filter
        (λ e. not (prunable 0 0 (oldest_reader 0 0 none full.simple.readers) e))
        c.simple.logs in
    Ends
      (ltb 0 (length worst_list.high_priority_prune))
      (prune no_names worst_list 0 3 0 full)
      (λ m. Succeeds m (λ r. IsChattyBuffer r.1 × (kept r.1 ≡ kept full)))
prune-IsChattyBuffer_example =
    prune-IsChattyBuffer no_names worst_list 0 3 0 full (omega arith) full-IsChattyBuffer

abbrev nothing_saved : ChattyLogs
nothing_saved = record { last_logged = λ _. none; duplicate = λ _. none }

log_internal-IsChattyBuffer_example :
    Ends
      (ltb 0 (length worst_list.high_priority_prune))
      (log_internal no_names worst_list 1006 (line 10002 6 90) nothing_saved full)
      (λ r. IsChattyBuffer r.1)
log_internal-IsChattyBuffer_example =
    log_internal-IsChattyBuffer no_names worst_list 1006 (line 10002 6 90) nothing_saved full
      full-IsChattyBuffer
