-- ===== src/Logd/Chatty/Counting.antt =====
-- Which messages LogInternal of logd/ChattyLogBuffer.cpp has logged and saved.
use android_system_logging.Common.{
  ℕ, ◌+◌, ◌-◌, ◌^◌, ◌<◌, ◌≡◌, ◌≢◌, ◌⊎◌, refl, true, false, Option, none, some, List, [], ◌∷◌, ◌++◌,
  ltb, ◌==◌, arith, inl, inr, Bool-cases, Option-cases, ==_self, if◌then◌else◌, lt→ltb, append-nil,
  ◌∙◌, ==→eq,
}
use android_system_logging.Liblog.LogId.{log_id_security}
use android_system_logging.Logd.Element.{
  LogBufferElement, Body, kept, dropped, set_dropped, dropped_count, body_count,
}
use android_system_logging.Logd.Chatty.Dropping.{dropped_count-set_dropped}
use android_system_logging.Logd.Chatty.{
  MatchType, different, same, same_liblog, identical, LogCall, log_internal, add_total, ChattyLogs,
  set_last, set_duplicate, flush_saved, log_third, log_duplicate, chatty_log,
}

-- A message counts as one, and a dropped element as those that it stands for.
abbrev body_messages : Body → ℕ
body_messages (kept msg) = 1
body_messages (dropped tag count) = count

-- The last message of a log is no dropped element, and a duplicate stands for at least one message
-- if it is one.
unfoldable pub IsKept : Body → Type 0
IsKept (kept msg) = Unit {0}
IsKept (dropped tag count) = ⊥

unfoldable pub IsDuplicate : Body → Type 0
IsDuplicate (kept msg) = Unit {0}
IsDuplicate (dropped tag count) = (0 < count) × (count < 2 ^ 16)

pub record IsChatty (c : ChattyLogs) : Type 0 where
  pub last_kept : (i : ℕ) (e : LogBufferElement) → c.last_logged i ≡ some e → IsKept e.body
  pub duplicate_fits : (i : ℕ) (e : LogBufferElement) → c.duplicate i ≡ some e → IsDuplicate e.body
  pub duplicate_last : (i : ℕ) → c.last_logged i ≡ none → c.duplicate i ≡ none

pub duplicate-messages :
    (d : LogBufferElement)
    → IsDuplicate d.body
    → ((dropped_count d ≡ 0) ⊎ ((0 < dropped_count d) × (body_messages d.body ≡ dropped_count d)))
      × (dropped_count d < 2 ^ 16)
unfolding IsDuplicate
duplicate-messages d h = go d.body h
  where
    go :
        (b : Body)
        → IsDuplicate b
        → ((body_count b ≡ 0) ⊎ ((0 < body_count b) × (body_messages b ≡ body_count b)))
          × (body_count b < 2 ^ 16)
    go (kept msg) h = (inl refl, omega arith)
    go (dropped tag count) h = (inr (h.0, refl), h.1)

-- What LogInternal hands to the simple log buffer.
unfoldable pub logged : List LogCall → List LogBufferElement
logged [] = []
logged (log_internal e ∷ calls) = e ∷ logged calls
logged (add_total id size ∷ calls) = logged calls

-- What is saved of a log and not logged yet: behind a duplicate, the last message, and the duplicate
-- itself if it stands for messages.
unfoldable pub pending : Option LogBufferElement → Option LogBufferElement → List LogBufferElement
pending none d = []
pending (some last) none = []
pending (some last) (some d) = (if ltb 0 (dropped_count d) then d ∷ [] else []) ++ (last ∷ [])

-- The messages that elements stand for.
unfoldable pub messages : List LogBufferElement → ℕ
messages [] = 0
messages (e ∷ es) = body_messages e.body + messages es

-- The last of the pending messages becomes a dropped element, which stands for it and for those of
-- the dropped elements before it that go.
abbrev pub Coalesced : List LogBufferElement → List LogBufferElement → LogBufferElement → Type 0
Coalesced before after last =
    (fs : List LogBufferElement) × (gs : List LogBufferElement) × (n : ℕ) × (before
      ≡ fs ++ (last ∷ []))
    × (after ≡ gs ++ (set_dropped n last ∷ []))
    × ((gs ≡ fs) ⊎ (gs ≡ []))
    × (messages gs + n ≡ messages fs + 1)
    × (n < 2 ^ 16)

-- The new message is logged or pending, whole and behind everything else; before it stands what was
-- pending, or, where the message is the same as the last one, that with the last one coalesced.
unfoldable pub Accounted : ℕ → LogBufferElement → ChattyLogs → List LogCall × ChattyLogs → Type 0
Accounted t e c (calls, c') =
    let before = pending (c.last_logged e.log_id) (c.duplicate e.log_id) in
    (front : List LogBufferElement) × (logged calls
        ++ pending (c'.last_logged e.log_id) (c'.duplicate e.log_id)
      ≡ front ++ (e ∷ []))
    × ((front ≡ before)
        ⊎ ((last : LogBufferElement) × (c.last_logged e.log_id ≡ some last)
            × (identical t e last ≡ same)
            × Coalesced before front last))

kept-count : (e : LogBufferElement) → IsKept e.body → dropped_count e ≡ 0
unfolding IsKept
kept-count e h = go e.body h
  where
    go : (b : Body) → IsKept b → body_count b ≡ 0
    go (kept msg) h = refl
    go (dropped tag count) h = absurd h

-- When another message comes, what is pending is logged before it.
logged-flush_saved :
    (last e : LogBufferElement) (d : Option LogBufferElement)
    → logged (flush_saved last d ++ (log_internal e ∷ [])) ≡ pending (some last) d ++ (e ∷ [])
unfolding logged flush_saved pending
logged-flush_saved last e none = refl
logged-flush_saved last e (some d) = elim (Bool-cases (ltb 0 (dropped_count d))) [
  | inl p ↦ rw p refl
  | inr p ↦ rw p refl
]

-- The last message becomes a dropped one.
log_third-Coalesced :
    (e last d : LogBufferElement) (c : ChattyLogs)
    → IsDuplicate d.body
    → let r = log_third e last d c in
      (front : List LogBufferElement) × (logged r.0
          ++ pending (r.1.last_logged e.log_id) (r.1.duplicate e.log_id)
        ≡ front ++ (e ∷ []))
      × Coalesced (pending (some last) (some d)) front last
unfolding logged log_third set_last set_duplicate pending messages
log_third-Coalesced e last d c h =
    let (cases, fits) = duplicate-messages d h in
    elim (Bool-cases (dropped_count d == 2 ^ 16 - 1)) [
      | inl full ↦
          let some_dropped : ltb 0 (dropped_count d) ≡ true = ground arith in
          rw (full, some_dropped, ==_self e.log_id, dropped_count-set_dropped (0 + 1) last)
            (
              d ∷ set_dropped (0 + 1) last ∷ [],
              refl,
              (d ∷ [], d ∷ [], 0 + 1, refl, refl, inl refl, refl, omega arith),
            )
      | inr more ↦
          rw
            (
              more,
              ==_self e.log_id,
              dropped_count-set_dropped (dropped_count d + 1) last,
              lt→ltb 0 (dropped_count d + 1) (omega arith),
            )
            (elim cases [
              | inl z ↦
                  let nothing : ltb 0 (dropped_count d) ≡ false = ground arith in
                  rw nothing (
                    set_dropped (dropped_count d + 1) last ∷ [],
                    refl,
                    ([], [], dropped_count d + 1, refl, refl, inl refl, ground arith, ground arith),
                  )
              | inr (q, z) ↦ rw (lt→ltb 0 (dropped_count d) q) (
                set_dropped (dropped_count d + 1) last ∷ [],
                refl,
                (
                  d ∷ [],
                  [],
                  dropped_count d + 1,
                  refl,
                  refl,
                  inr refl,
                  omega (arith, z),
                  ground arith,
                ),
              )
            ])
    ]

MatchType-cases : (m : MatchType) → (m ≡ different) ⊎ (m ≡ same) ⊎ (m ≡ same_liblog)
MatchType-cases different = inl refl
MatchType-cases same = inr (inl refl)
MatchType-cases same_liblog = inr (inr refl)

log_duplicate-Accounted :
    (t : ℕ) (e last : LogBufferElement) (c : ChattyLogs)
    → c.last_logged e.log_id ≡ some last
    → identical t e last ≢ same_liblog
    → IsChatty c
    → Accounted t e c (log_duplicate (identical t e last) e last (c.duplicate e.log_id) c)
unfolding Accounted log_duplicate set_last set_duplicate logged pending
log_duplicate-Accounted t e last c is n v = elim (MatchType-cases (identical t e last)) [
  | inl m ↦
      rw (m, is, set_last, set_duplicate, ==_self e.log_id)
        (
          pending (some last) (c.duplicate e.log_id),
          (append-nil _ ∙ logged-flush_saved last e (c.duplicate e.log_id)),
          inl refl,
        )
  | inr (inl m) ↦ elim (Option-cases (c.duplicate e.log_id)) [
    | inl g ↦
        let whole = kept-count last (v.last_kept e.log_id last is) in
        rw (m, is, g, set_last, set_duplicate, ==_self e.log_id, whole, logged, pending)
          ([], refl, inl refl)
    | inr (d, g) ↦
        let (front, split, coalesced) =
          log_third-Coalesced e last d c (v.duplicate_fits e.log_id d g) in
        rw (m, is, g) (front, split, inr (last, refl, m, coalesced))
  ]
  | inr (inr m) ↦ absurd (n m)
]

-- LogInternal of a message, which is no number that is summed up, loses nothing and keeps the order.
-- In a log that is not the security log, the message is logged or saved, whole and behind everything
-- else; what was saved and not logged stands before it as it was, or, where the message is the same as
-- the last one, with the last one turned into a dropped element that counts itself and the elements
-- that go for it. A message of the security log is logged, and nothing else changes. The saved
-- elements are right.
pub chatty_log-Accounted :
    (liblog_log_tag : ℕ) (e : LogBufferElement) (c : ChattyLogs)
    → IsChatty c
    → ((last : LogBufferElement)
        → c.last_logged e.log_id ≡ some last
        → identical liblog_log_tag e last ≢ same_liblog)
    → ((e.log_id ≡ log_id_security) × (chatty_log liblog_log_tag e c ≡ (log_internal e ∷ [], c)))
      ⊎ ((e.log_id ≢ log_id_security)
          × Accounted liblog_log_tag e c (chatty_log liblog_log_tag e c))
unfolding chatty_log
chatty_log-Accounted t e c v n = elim (Bool-cases (e.log_id == log_id_security)) [
  | inl f ↦ rw f (inl (==→eq e.log_id log_id_security f, refl))
  | inr f ↦ rw f (
      inr (
        λ q. (ground arith),
        elim (Option-cases (c.last_logged e.log_id)) [
          | inl g ↦
              unfold Accounted set_last logged pending in
              (rw (g, v.duplicate_last e.log_id g, ==_self e.log_id, logged, pending)
                ([], refl, inl refl))
          | inr (last, g) ↦ rw g (log_duplicate-Accounted t e last c g (n last g) v)
        ],
      ))
]
