-- ===== src/Logd/Chatty/Saved.antt =====
-- What LogInternal of logd/ChattyLogBuffer.cpp keeps true of the elements that it saves.
use android_system_logging.Common.{
  ℕ, ◌+◌, ◌^◌, ◌<◌, ◌≡◌, refl, subst, Option, none, some, ◌++◌, ◌-◌, take, drop, ltb, ◌==◌, arith,
  inl, inr, Bool-cases, Option-cases, some-eq-some,
}
use android_system_logging.Common.Bytes.{to_le}
use android_system_logging.Liblog.LogId.{log_id_security}
use android_system_logging.Logd.Element.{
  LogBufferElement, Body, kept, dropped, get_tag, set_dropped, dropped_count,
}
use android_system_logging.Logd.Chatty.{
  MatchType, different, same, same_liblog, identical, ChattyLogs, set_last, set_duplicate, payload,
  set_payload, biased, log_liblog, log_third, log_duplicate, chatty_log,
}
use android_system_logging.Logd.Chatty.Counting.{IsKept, IsDuplicate, IsChatty, duplicate-messages}

set_last-IsChatty :
    (e : LogBufferElement) (c : ChattyLogs) → IsKept e.body → IsChatty c → IsChatty (set_last e c)
unfolding set_last
set_last-IsChatty e c k v = record {
  last_kept = λ i f h. elim (Bool-cases (e.log_id == i)) [
    | inl g ↦ subst (λ (x : LogBufferElement). IsKept x.body) (some-eq-some (rw g at h)) k
    | inr g ↦ v.last_kept i f (rw g at h)
  ];
  duplicate_fits = v.duplicate_fits;
  duplicate_last = λ i h. elim (Bool-cases (e.log_id == i)) [
    | inl g ↦ absurd (let a : some e ≡ none = rw g at h in cc)
    | inr g ↦ v.duplicate_last i (rw g at h)
  ];
}

-- A duplicate is saved where a last message is.
set_both-IsChatty :
    (e d : LogBufferElement) (c : ChattyLogs)
    → IsKept e.body
    → IsDuplicate d.body
    → IsChatty c
    → IsChatty (set_last e (set_duplicate e.log_id (some d) c))
unfolding set_last set_duplicate
set_both-IsChatty e d c k h v = record {
  last_kept = (set_last-IsChatty e c k v).last_kept;
  duplicate_fits = λ i f a. elim (Bool-cases (e.log_id == i)) [
    | inl g ↦ subst (λ (x : LogBufferElement). IsDuplicate x.body) (some-eq-some (rw g at a)) h
    | inr g ↦ v.duplicate_fits i f (rw g at a)
  ];
  duplicate_last = λ i a. elim (Bool-cases (e.log_id == i)) [
    | inl g ↦ absurd (let b : some e ≡ none = rw g at a in cc)
    | inr g ↦ rw g (v.duplicate_last i (rw g at a))
  ];
}

reset-IsChatty :
    (e : LogBufferElement) (c : ChattyLogs) → IsChatty c → IsChatty (set_duplicate e.log_id none c)
unfolding set_duplicate
reset-IsChatty e c v = record {
  last_kept = v.last_kept;
  duplicate_fits = λ i f a. elim (Bool-cases (e.log_id == i)) [
    | inl g ↦ absurd (let b : none ≡ some f = rw g at a in cc)
    | inr g ↦ v.duplicate_fits i f (rw g at a)
  ];
  duplicate_last = λ i a. elim (Bool-cases (e.log_id == i)) [
    | inl g ↦ rw g refl
    | inr g ↦ rw g (v.duplicate_last i a)
  ];
}

IsKept-IsDuplicate : (b : Body) → IsKept b → IsDuplicate b
unfolding IsKept IsDuplicate
IsKept-IsDuplicate (kept msg) k = tt
IsKept-IsDuplicate (dropped tag count) k = absurd k

set_dropped-IsDuplicate :
    (n : ℕ) (e : LogBufferElement) → 0 < n → n < 2 ^ 16 → IsDuplicate (set_dropped n e).body
unfolding IsDuplicate set_dropped
set_dropped-IsDuplicate n e p w = go e.body
  where
    go :
        (b : Body)
        → IsDuplicate
            (elim b [ kept msg ↦ dropped (get_tag e) n | dropped tag count ↦ dropped tag n ])
    go (kept msg) = (p, w)
    go (dropped tag count) = (p, w)

set_payload-IsKept : (n : ℕ) (e : LogBufferElement) → IsKept e.body → IsKept (set_payload n e).body
unfolding IsKept set_payload
set_payload-IsKept n e k = go e.body k
  where
    go :
        (b : Body)
        → IsKept b
        → IsKept (elim b [
          | kept msg ↦ kept (take 5 msg ++ (to_le 4 n ++ drop 9 msg))
          | dropped tag count ↦ dropped tag count
        ])
    go (kept msg) k = tt
    go (dropped tag count) k = k

log_third-IsChatty :
    (e last d : LogBufferElement) (c : ChattyLogs)
    → IsKept e.body
    → IsDuplicate d.body
    → IsChatty c
    → IsChatty (log_third e last d c).1
unfolding log_third
log_third-IsChatty e last d c k h v =
    let (cases, fits) = duplicate-messages d h in
    elim (Bool-cases (dropped_count d == 2 ^ 16 - 1)) [
      | inl f ↦ rw f (
          set_both-IsChatty e _ c k
            (set_dropped-IsDuplicate (0 + 1) last (omega arith) (omega arith)) v)
      | inr f ↦ rw f (
          set_both-IsChatty e _ c k
            (set_dropped-IsDuplicate (dropped_count d + 1) last (omega arith) (ground arith)) v)
    ]

log_liblog-IsChatty :
    (e last : LogBufferElement) (c : ChattyLogs)
    → IsKept e.body
    → IsChatty c
    → IsChatty (log_liblog e last c).1
unfolding log_liblog
log_liblog-IsChatty e last c k v =
    elim (Bool-cases (ltb (2 ^ 32 + 2 ^ 31 - 1) (biased (payload last) + biased (payload e)))) [
      | inl f ↦ rw f (set_last-IsChatty e c k v)
      | inr f ↦ rw f (set_last-IsChatty _ c (set_payload-IsKept _ e k) v)
    ]

log_duplicate-IsChatty :
    (m : MatchType) (e last : LogBufferElement) (d : Option LogBufferElement) (c : ChattyLogs)
    → IsKept e.body
    → IsKept last.body
    → ((f : LogBufferElement) → d ≡ some f → IsDuplicate f.body)
    → IsChatty c
    → IsChatty (log_duplicate m e last d c).1
unfolding log_duplicate
log_duplicate-IsChatty different e last d c k l h v = set_last-IsChatty e _ k (reset-IsChatty e c v)
log_duplicate-IsChatty same e last none c k l h v =
    set_both-IsChatty e last c k (IsKept-IsDuplicate last.body l) v
log_duplicate-IsChatty same_liblog e last none c k l h v =
    set_both-IsChatty e last c k (IsKept-IsDuplicate last.body l) v
log_duplicate-IsChatty same e last (some d) c k l h v = log_third-IsChatty e last d c k (h d refl) v
log_duplicate-IsChatty same_liblog e last (some d) c k l h v = log_liblog-IsChatty e last c k v

-- LogInternal of a message keeps the saved elements right: the last message of a log is no dropped
-- element, a duplicate is saved only with a last message, and its count of dropped messages is not 0
-- and fits 16 bits.
pub chatty_log-IsChatty :
    (liblog_log_tag : ℕ) (e : LogBufferElement) (c : ChattyLogs)
    → IsKept e.body
    → IsChatty c
    → IsChatty (chatty_log liblog_log_tag e c).1
unfolding chatty_log
chatty_log-IsChatty t e c k v = elim (Bool-cases (e.log_id == log_id_security)) [
  | inl f ↦ rw (chatty_log, f) v
  | inr f ↦ elim (Option-cases (c.last_logged e.log_id)) [
    | inl g ↦ rw (chatty_log, f, g) (set_last-IsChatty e c k v)
    | inr (last, g) ↦
        rw (chatty_log, f, g)
          (log_duplicate-IsChatty (identical t e last) e last (c.duplicate e.log_id) c k
            (v.last_kept e.log_id last g) (v.duplicate_fits e.log_id) v)
  ]
]
