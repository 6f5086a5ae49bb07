-- ===== src/Logd/Chatty/Steps.antt =====
-- A round of the first pass of ChattyLogBuffer::Prune (logd/ChattyLogBuffer.cpp) keeps the iterators
-- right, and takes none of the elements that it must not.
use android_system_logging.Common.{
  ℕ, suc, ◌^◌, ◌<◌, ◌≡◌, refl, Bool, true, false, ◌&&◌, ◌||◌, not, Option, some, List, [], ◌∷◌, ltb,
  ◌==◌, arith, inl, inr, Bool-cases, ltb→lt, ==→eq, Ends, Ends-bind, and-first, or-false, if-either,
}
use android_system_logging.Liblog.LogTime.{time_lt, time_gt, time_sub}
use android_system_logging.Logd.Element.{LogBufferElement, set_dropped, dropped_count}
use android_system_logging.Logd.PruneList.{is_high_priority}
use android_system_logging.Logd.Simple.{is_blocked}
use android_system_logging.Logd.Statistics.Entries.{Names, minus64}
use android_system_logging.Logd.Chatty.Buffer.{worst_key}
use android_system_logging.Logd.Chatty.Scan.{
  Pass, Scan, Flow, stopped, erased, passed, too_old, mark_dropped, count_high, high_step,
  worst_step, rule_step, scan_step, scan,
}
use android_system_logging.Logd.Chatty.Marking.{may_take, Holds, mark_dropped-Holds}
use android_system_logging.Logd.Chatty.Scanning.{
  Counts, Scanning, After, clear_expired-Scanning, advance,
}
use android_system_logging.Logd.Chatty.Erasing.{erase_step-After, coalesce_step-After}
use android_system_logging.Logd.Chatty.Offenders.{
  may_take-set_dropped, counted-Counts, kicked-Counts, counted-Here, marked-Here,
  offender_step-Then,
}

module _ (names : Names) (p : Pass) (held : List LogBufferElement) (rows : ℕ)
    (bound : rows < 2 ^ 64) where
  abbrev may : LogBufferElement → Bool
  may = may_take p.id p.oldest

  abbrev same : (n : ℕ) (e : LogBufferElement) → may (set_dropped n e) ≡ may e
  same = may_take-set_dropped p.id p.oldest

  abbrev Here : List LogBufferElement → Scan → Type 0
  Here es s = Scanning may held same rows es s

  abbrev Then : List LogBufferElement → Option (Flow × Scan) → Type 0
  Then es r = Ends p.check_high_priority r (After may held same rows es)

  count_high-Then :
      (e : LogBufferElement) (es : List LogBufferElement) (s : Scan)
      → p.check_high_priority ≡ true
      → Here es s
      → Then es (count_high names p e s)
  unfolding count_high
  count_high-Then e es s high h = elim (Bool-cases (ltb 0 (dropped_count e))) [
    | inl a ↦ rw a h
    | inr a ↦ elim (Bool-cases (minus64 s.prune_rows 1 == 0)) [
      | inl z ↦ rw (a, z) (h.holds, counted-Counts names p held rows bound es s h)
      | inr z ↦ elim (Bool-cases (worst_key e == p.worst)) [
        | inr w ↦
            rw (a, z, w)
              (counted-Here names p held rows bound es s s.kick s.worst_sizes z
                (counted-Counts names p held rows bound es s h) h)
        | inl w ↦ elim (Bool-cases (ltb s.worst_sizes p.second_worst_sizes)) [
          | inl l ↦ rw (a, z, w, l) (h.holds, kicked-Counts names p held rows bound es s h)
          | inr l ↦ rw (a, z, w, l) high
        ]
      ]
    ]
  ]

  high_step-Then :
      (e : LogBufferElement) (es : List LogBufferElement) (s : Scan)
      → p.check_high_priority ≡ true
      → may e ≡ true
      → Here (e ∷ es) s
      → Then es (high_step names p e s)
  unfolding high_step
  high_step-Then e es s high m h =
      let (last, is, h') = clear_expired-Scanning may held same rows e (e ∷ es) s h in
      let (s', done, scanning) =
        erase_step-After may held same names p.check_high_priority rows false e es
          (record s { last = last }) m (λ f. absurd (let g : false ≡ true = f in cc)) h' in
      rw (is, done) (count_high-Then e es s' high scanning)

  with_leading :
      (es : List LogBufferElement) (s : Scan) (l : Bool)
      → Here es s
      → Here es (record s { leading = l })
  with_leading es s l h = record {
    before = h.before;
    place = h.place;
    split = h.split;
    holds = h.holds;
    taken = h.taken;
    counts = h.counts;
    positive = h.positive;
  }

  worst_step-Then :
      (e : LogBufferElement) (es : List LogBufferElement) (s : Scan)
      → may e ≡ true
      → e.log_id ≡ p.id
      → Here (e ∷ es) s
      → Then es (worst_step names p e s)
  unfolding worst_step
  worst_step-Then e es s m same_id h =
      elim (Bool-cases
        (time_lt e.realtime (time_sub p.newest too_old) || time_gt e.realtime p.newest)) [
          | inl t ↦ rw t (h.holds, h.counts)
          | inr t ↦ elim (Bool-cases (ltb 0 (dropped_count e))) [
            | inl d ↦
                rw (t, d)
                  (marked-Here names p held rows bound e e es s (mark_dropped p e s.it s.buffer) m h
                    (rw h.place (
                      mark_dropped-Holds may held e h.before es p s.buffer same_id
                        (h.holds, h.split))))
            | inr d ↦
                elim (Bool-cases (
                  not (worst_key e == p.worst)
                  || not (p.worst_pid == 0) && not (e.pid == p.worst_pid))) [
                    | inl o ↦
                        let (last, is, h') =
                          clear_expired-Scanning may held same rows e (e ∷ es) s h in
                        rw (t, d, o, is)
                          (with_leading es _ false (advance may held same rows e es _ h'))
                    | inr o ↦
                        let (same_key, same_pid) =
                          or-false (not (worst_key e == p.worst))
                            (not (p.worst_pid == 0) && not (e.pid == p.worst_pid)) o in
                        rw (t, d, o)
                          (offender_step-Then names p held rows bound e es s m d same_id
                            (ground arith) (λ w. ground arith) h)
                  ]
          ]
        ]

  rule_step-Then :
      (e : LogBufferElement) (es : List LogBufferElement) (s : Scan)
      → may e ≡ true
      → e.log_id ≡ p.id
      → Here (e ∷ es) s
      → Then es (rule_step names p e s)
  unfolding rule_step
  rule_step-Then e es s m same_id h =
      if-either (Then es) (p.check_high_priority && is_high_priority e p.prune_list) _ _
        (λ c. high_step-Then e es s (and-first _ _ c) m h) (λ c. worst_step-Then e es s m same_id h)

  scan_step-Then :
      (e : LogBufferElement) (es : List LogBufferElement) (s : Scan)
      → Here (e ∷ es) s
      → Then es (scan_step names p e s)
  unfolding scan_step
  scan_step-Then e es s h = elim (Bool-cases (is_blocked p.oldest e)) [
    | inl b ↦ rw b (h.holds, h.counts)
    | inr b ↦ elim (Bool-cases (e.log_id == p.id)) [
      | inr i ↦ rw (b, i) (advance may held same rows e es s h)
      | inl i ↦
          let m : may e ≡ true = unfold may_take in (rw (b, i) refl) in
          let same_id = ==→eq e.log_id p.id i in
          rw (b, i)
            (if-either (Then es) (s.leading && ltb 0 (dropped_count e)) _ _
              (λ c.
                let (s', done, scanning) =
                  erase_step-After may held same names p.check_high_priority rows false e es s m
                    (λ f. absurd (let g : false ≡ true = f in cc)) h in
                rw done scanning)
              (λ c.
                if-either (Then es) (ltb 0 (dropped_count e)) _ _
                  (λ d.
                    coalesce_step-After may held same names p.check_high_priority rows
                      (dropped_count e) e es s (rule_step names p e) m (ltb→lt 0 _ d) h
                      (λ s' h'. rule_step-Then e es s' m same_id h'))
                  (λ d. rule_step-Then e es s m same_id h)))
    ]
  ]

  abbrev Ended : Option Scan → Type 0
  Ended r =
      Ends p.check_high_priority r
        (λ s'. Holds may held s'.buffer × Counts may held same rows s'.kick s'.prune_rows)

  scan-next :
      (es : List LogBufferElement) (r : Flow × Scan)
      → ((s : Scan) → Here es s → Ended (scan names p es s))
      → After may held same rows es r
      → Ended (elim r.0 [
        | stopped ↦ some r.1
        | erased ↦ scan names p es r.1
        | passed ↦ scan names p es (record r.1 { it = suc r.1.it })
      ])
  scan-next es (stopped, s) f h = h
  scan-next es (erased, s) f h = f s h
  scan-next es (passed, s) f h = f _ h

  -- The loop goes to its end, or is broken off, unless a rule of high priority matches.
  pub scan-Ended : (es : List LogBufferElement) (s : Scan) → Here es s → Ended (scan names p es s)
  unfolding scan
  scan-Ended [] s h = (h.holds, h.counts)
  scan-Ended (e ∷ es) s h =
      Ends-bind p.check_high_priority (After may held same rows es) _ _ _ (scan_step-Then e es s h)
        (λ r a. scan-next es r (λ s' h'. scan-Ended es s' h') a)
