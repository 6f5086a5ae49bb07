-- ===== src/Logd/Chatty/Dropping.antt =====
-- An element of the chatty log buffer becomes a dropped one (SetDropped of
-- logd/LogBufferElement.cpp): its key stays, and so do the iterators to it.
use android_system_logging.Common.{
  ℕ, zero, suc, ◌≡◌, refl, ◌∙◌, List, [], ◌∷◌, modify_at, inl, inr, Bool-cases, Succeeds-modify_at,
  length-modify_at,
}
use android_system_logging.Logd.Element.{
  LogBufferElement, Body, kept, dropped, get_tag, set_dropped, dropped_count,
}
use android_system_logging.Logd.Serialized.Entry.{is_binary}
use android_system_logging.Logd.Simple.{find_log}
use android_system_logging.Logd.Simple.Oldest.{IsCached}
use android_system_logging.Logd.Chatty.Buffer.{ChattyLogBuffer, at, stale, Watermarks, worst_key}
use android_system_logging.Logd.Chatty.Scan.{with_logs}
use android_system_logging.Logd.Chatty.Watermarks.{IsMarked, IsChattyBuffer}

module _ (key_of : LogBufferElement → ℕ) where
  -- An element becomes a dropped one, which has the same key.
  modify_at-IsMarked :
      (marks : Watermarks) (logs : List LogBufferElement) (place n : ℕ)
      → ((e : LogBufferElement) → key_of (set_dropped n e) ≡ key_of e)
      → IsMarked key_of marks logs
      → IsMarked key_of marks (modify_at place (set_dropped n) logs)
  unfolding IsMarked set_dropped
  modify_at-IsMarked marks logs place n same v id key (at k) h =
      Succeeds-modify_at _ place k (set_dropped n) logs (λ e p. (p.0, same e ∙ p.1))
        (v id key (at k) h)
  modify_at-IsMarked marks logs place n same v id key stale h = v id key stale h

get_tag-set_dropped : (n : ℕ) (e : LogBufferElement) → get_tag (set_dropped n e) ≡ get_tag e
unfolding get_tag set_dropped
get_tag-set_dropped n e = tag e.body
  where
    tag :
        (b : Body)
        → get_tag (set_dropped n (record e { body = b })) ≡ get_tag (record e { body = b })
    tag (kept msg) = elim (Bool-cases (is_binary e.log_id)) [
      | inl b ↦ rw b refl
      | inr b ↦ rw b refl
    ]
    tag (dropped t c) = refl

pub worst_key-set_dropped :
    (n : ℕ) (e : LogBufferElement) → worst_key (set_dropped n e) ≡ worst_key e
unfolding worst_key
worst_key-set_dropped n e = unfold set_dropped in rw (get_tag-set_dropped n e) refl

pub dropped_count-set_dropped : (n : ℕ) (e : LogBufferElement) → dropped_count (set_dropped n e) ≡ n
unfolding set_dropped
dropped_count-set_dropped n e = count e.body
  where
    count : (b : Body) → dropped_count (set_dropped n (record e { body = b })) ≡ n
    count (kept msg) = refl
    count (dropped t c) = refl

find_log-modify_at :
    (i place n : ℕ) (es : List LogBufferElement)
    → find_log i (modify_at place (set_dropped n) es) ≡ find_log i es
unfolding find_log set_dropped
find_log-modify_at i place n [] = refl
find_log-modify_at i zero n (e ∷ es) = refl
find_log-modify_at i (suc place) n (e ∷ es) = rw (find_log-modify_at i place n es) refl

-- Any element may become a dropped one.
pub modify_at-IsChattyBuffer :
    (b : ChattyLogBuffer) (place n : ℕ)
    → IsChattyBuffer b
    → IsChattyBuffer (with_logs (modify_at place (set_dropped n) b.simple.logs) b)
unfolding with_logs IsCached
modify_at-IsChattyBuffer b place n v =
    let logs = b.simple.logs in
    record {
      cached = λ i k h.
          rw (find_log-modify_at i place n logs, length-modify_at place (set_dropped n) logs)
            (v.cached i k h);
      worst =
          modify_at-IsMarked worst_key b.last_worst logs place n (worst_key-set_dropped n) v.worst;
      worst_pid =
          modify_at-IsMarked (λ e. e.pid) b.last_worst_pid_of_system logs place n
            (λ e. unfold set_dropped in refl) v.worst_pid;
    }
