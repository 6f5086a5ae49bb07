-- ===== src/Logd/Chatty/Tests.antt =====
-- Runs of the chatty log buffer's LogInternal, and the theorems at concrete messages.
use android_system_logging.Common.{ℕ, ◌⊎◌, ◌≡◌, ◌≢◌, refl, some, [], ◌∷◌, subst, some-eq-some}
use android_system_logging.Liblog.LogTime.{epoch, nsec}
use android_system_logging.Liblog.LogId.{log_id_security}
use android_system_logging.Logd.Element.{LogBufferElement, kept, get_tag}
use android_system_logging.Logd.Serialized.Entry.{is_binary}
use android_system_logging.Logd.Chatty.{
  ChattyLogs, log_internal, same, same_liblog, identical, identical_messages, chatty_log,
}
use android_system_logging.Logd.Chatty.Counting.{
  IsChatty, IsKept, IsDuplicate, Accounted, chatty_log-Accounted,
}
use android_system_logging.Logd.Chatty.Saved.{chatty_log-IsChatty}

abbrev a_line : ℕ → LogBufferElement
a_line sequence = record {
  uid = 1000;
  pid = 20;
  tid = 21;
  sequence = sequence;
  realtime = epoch;
  log_id = 3;
  body = kept (4 ∷ b't' ∷ 0 ∷ b'm' ∷ 0 ∷ []);
}

-- The same line was logged twice before.
abbrev two_lines : ChattyLogs
two_lines = record { last_logged = λ _. some (a_line 2); duplicate = λ _. some (a_line 1) }

a_line-IsKept : (n : ℕ) → IsKept (a_line n).body
unfolding IsKept
a_line-IsKept n = tt

two_lines-IsChatty : IsChatty two_lines
unfolding IsKept IsDuplicate
two_lines-IsChatty = record {
  last_kept = λ i e h. subst (λ (x : LogBufferElement). IsKept x.body) (some-eq-some h) tt;
  duplicate_fits =
      λ i e h. subst (λ (x : LogBufferElement). IsDuplicate x.body) (some-eq-some h) tt;
  duplicate_last = λ i h. cc;
}

a_line-same : identical 1006 (a_line 3) (a_line 2) ≡ same
unfolding identical identical_messages nsec get_tag is_binary
a_line-same = refl

a_line-same_liblog :
    (last : LogBufferElement)
    → some (a_line 2) ≡ some last
    → identical 1006 (a_line 3) last ≢ same_liblog
a_line-same_liblog last h =
    subst (λ (x : LogBufferElement). identical 1006 (a_line 3) x ≢ same_liblog) (some-eq-some h)
      (λ e. cc (e, a_line-same))

chatty_log-Accounted_example :
    ((3 ≡ log_id_security)
      × (chatty_log 1006 (a_line 3) two_lines ≡ (log_internal (a_line 3) ∷ [], two_lines)))
    ⊎ ((3 ≢ log_id_security)
        × Accounted 1006 (a_line 3) two_lines (chatty_log 1006 (a_line 3) two_lines))
chatty_log-Accounted_example =
    chatty_log-Accounted 1006 (a_line 3) two_lines two_lines-IsChatty a_line-same_liblog

chatty_log-IsChatty_example : IsChatty (chatty_log 1006 (a_line 3) two_lines).1
chatty_log-IsChatty_example =
    chatty_log-IsChatty 1006 (a_line 3) two_lines (a_line-IsKept 3) two_lines-IsChatty
