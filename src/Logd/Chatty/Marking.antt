-- ===== src/Logd/Chatty/Marking.antt =====
-- The watermarks of ChattyLogBuffer (logd/ChattyLogBuffer.cpp) that Prune sets.
use android_system_logging.Common.{
  ℕ, ◌≡◌, sym, ap, ◌∙◌, filter-without, refl, Bool, true, ◌&&◌, not, Option, List, ◌∷◌, ◌++◌,
  length, filter, ◌==◌, if◌then◌else◌, nat_key, if-either, and-first,
}
use android_system_logging.Logd.Element.{LogBufferElement}
use android_system_logging.Logd.Simple.{Reader, is_blocked}
use android_system_logging.Logd.Simple.Oldest.{IsCached}
use android_system_logging.Logd.Chatty.Buffer.{ChattyLogBuffer, worst_key}
use android_system_logging.Logd.Chatty.Scan.{
  Pass, mark_worst, mark_worst_pid, mark_dropped, mark_offender,
}
use android_system_logging.Logd.Chatty.Watermarks.{IsChattyBuffer, mark-IsMarked}

-- The elements that a pass may take: those of the log that no reader has still to read.
unfoldable pub may_take : ℕ → Option (ℕ × Reader) → LogBufferElement → Bool
may_take id oldest e = e.log_id == id && not (is_blocked oldest e)

-- The iterators are right, and the elements that may not be taken are still those.
pub record Holds (may : LogBufferElement → Bool) (held : List LogBufferElement)
    (b : ChattyLogBuffer) : Type 0 where
  pub valid : IsChattyBuffer b
  pub keeps : filter (λ e. not (may e)) b.simple.logs ≡ held

module _ (may : LogBufferElement → Bool) (held : List LogBufferElement) where
  -- An element that may be taken goes.
  pub take-Holds :
      (e : LogBufferElement) (before es : List LogBufferElement) (b b' : ChattyLogBuffer)
      → may e ≡ true
      → b.simple.logs ≡ before ++ (e ∷ es)
      → b'.simple.logs ≡ before ++ es
      → Holds may held b
      → IsChattyBuffer b'
      → Holds may held b'
  take-Holds e before es b b' m split split' h v = record {
    valid = v;
    keeps = rw split' (
        sym (filter-without (λ f. not (may f)) before es e (rw m refl))
        ∙ sym (ap (filter (λ f. not (may f))) split)
        ∙ h.keeps);
  }

  if-Holds :
      (c : Bool) (x y : ChattyLogBuffer) (logs : List LogBufferElement)
      → (c ≡ true → Holds may held x × (x.simple.logs ≡ logs))
      → Holds may held y × (y.simple.logs ≡ logs)
      → Holds may held (if c then x else y) × ((if c then x else y).simple.logs ≡ logs)
  if-Holds c x y logs p q =
      if-either (λ (b : ChattyLogBuffer). Holds may held b × (b.simple.logs ≡ logs)) c x y p
        (λ _. q)

  module _ (e : LogBufferElement) (before es : List LogBufferElement) where
    mark_worst-Holds :
        (id key : ℕ) (b : ChattyLogBuffer)
        → e.log_id ≡ id
        → worst_key e ≡ key
        → Holds may held b × (b.simple.logs ≡ before ++ (e ∷ es))
        → Holds may held (mark_worst id key (length before) b)
          × ((mark_worst id key (length before) b).simple.logs ≡ before ++ (e ∷ es))
    unfolding mark_worst
    mark_worst-Holds id key b same_id same_key (h, split) = (
      record {
        valid = record {
          cached = unfold IsCached in h.valid.cached;
          worst = rw split (
              mark-IsMarked worst_key b.last_worst before es e id key same_id same_key
                (rw split at h.valid.worst));
          worst_pid = h.valid.worst_pid;
        };
        keeps = h.keeps;
      },
      split,
    )

    mark_worst_pid-Holds :
        (id pid : ℕ) (b : ChattyLogBuffer)
        → e.log_id ≡ id
        → e.pid ≡ pid
        → Holds may held b × (b.simple.logs ≡ before ++ (e ∷ es))
        → Holds may held (mark_worst_pid id pid (length before) b)
          × ((mark_worst_pid id pid (length before) b).simple.logs ≡ before ++ (e ∷ es))
    unfolding mark_worst_pid
    mark_worst_pid-Holds id pid b same_id same_pid (h, split) = (
      record {
        valid = record {
          cached = unfold IsCached in h.valid.cached;
          worst = h.valid.worst;
          worst_pid = rw split (
              mark-IsMarked (λ f. f.pid) b.last_worst_pid_of_system before es e id pid same_id
                same_pid (rw split at h.valid.worst_pid));
        };
        keeps = h.keeps;
      },
      split,
    )

    pub mark_dropped-Holds :
        (p : Pass) (b : ChattyLogBuffer)
        → e.log_id ≡ p.id
        → Holds may held b × (b.simple.logs ≡ before ++ (e ∷ es))
        → Holds may held (mark_dropped p e (length before) b)
          × ((mark_dropped p e (length before) b).simple.logs ≡ before ++ (e ∷ es))
    unfolding mark_dropped
    mark_dropped-Holds p b same_id h =
        let logs = before ++ (e ∷ es) in
        let h' =
          if-Holds _ (mark_worst_pid p.id e.pid (length before) b) b logs
            (λ _. mark_worst_pid-Holds p.id e.pid b same_id refl h) h in
        if-Holds _ _ _ logs (λ _. mark_worst-Holds p.id (worst_key e) _ same_id refl h') h'

    pub mark_offender-Holds :
        (p : Pass) (b : ChattyLogBuffer)
        → e.log_id ≡ p.id
        → worst_key e ≡ p.worst
        → (not (p.worst_pid == 0) ≡ true → e.pid ≡ p.worst_pid)
        → Holds may held b × (b.simple.logs ≡ before ++ (e ∷ es))
        → Holds may held (mark_offender p (length before) b)
          × ((mark_offender p (length before) b).simple.logs ≡ before ++ (e ∷ es))
    unfolding mark_offender
    mark_offender-Holds p b same_id same_key same_pid h =
        let logs = before ++ (e ∷ es) in
        let h' =
          if-Holds _ (mark_worst_pid p.id p.worst_pid (length before) b) b logs
            (λ c. mark_worst_pid-Holds p.id p.worst_pid b same_id (same_pid (and-first _ _ c)) h)
            h in
        if-Holds _ _ _ logs (λ _. mark_worst-Holds p.id p.worst _ same_id same_key h') h'
