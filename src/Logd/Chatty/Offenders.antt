-- ===== src/Logd/Chatty/Offenders.antt =====
-- A round of the first pass of ChattyLogBuffer::Prune (logd/ChattyLogBuffer.cpp) at an element of
-- the worst offender keeps the iterators right, and takes none of the elements that it must not.
use android_system_logging.Common.{
  ℕ, suc, ◌^◌, ◌≤◌, ◌<◌, ◌≡◌, refl, sym, ap, ◌∙◌, Bool, true, false, not, Option, none, some, List,
  ◌∷◌, ◌++◌, modify_at, ltb, ◌==◌, if◌then◌else◌, arith, inl, inr, Bool-cases, Ends, Ends-bind,
  if-either, modify_at-middle, filter-modify_at, get_elem?-middle,
}
use android_system_logging.Logd.Element.{
  LogBufferElement, set_dropped, dropped_count, to_log_statistics_element,
}
use android_system_logging.Logd.Simple.{Reader, is_blocked}
use android_system_logging.Logd.Simple.Oldest.{IsCached}
use android_system_logging.Logd.Statistics.Entries.{Names, minus64}
use android_system_logging.Logd.Statistics.Tables.{LogStatistics}
use android_system_logging.Logd.Statistics.Calls.{drop_element}
use android_system_logging.Logd.Chatty.Buffer.{ChattyLogBuffer, worst_key, add_last}
use android_system_logging.Logd.Chatty.Scan.{
  Pass, Scan, Flow, stopped, erased, passed, mark_offender, with_logs, erase_step, drop_step,
  offender_step,
}
use android_system_logging.Logd.Chatty.Dropping.{
  modify_at-IsChattyBuffer, dropped_count-set_dropped, worst_key-set_dropped,
}
use android_system_logging.Logd.Chatty.Marking.{may_take, Holds, mark_offender-Holds}
use android_system_logging.Logd.Chatty.Scanning.{
  Counts, Scanning, After, advance-add_last, with_buffer,
}
use android_system_logging.Logd.Chatty.Erasing.{erase_step-After, coalesce_step-After}

pub may_take-set_dropped :
    (id : ℕ) (o : Option (ℕ × Reader)) (n : ℕ) (e : LogBufferElement)
    → may_take id o (set_dropped n e) ≡ may_take id o e
unfolding may_take set_dropped is_blocked
may_take-set_dropped id none n e = refl
may_take-set_dropped id (some (k, r)) n e = refl

minus64_one : (n rows : ℕ) → n ≤ rows → rows < 2 ^ 64 → 0 < n → suc (minus64 n 1) ≡ n
minus64_one n rows h b p = omega arith

drop_element-some :
    (names : Names) (e : LogBufferElement) (st : LogStatistics)
    → ltb 0 (dropped_count e) ≡ false
    → (st' : LogStatistics) × (drop_element names (to_log_statistics_element e) st ≡ some st')
unfolding drop_element to_log_statistics_element
drop_element-some names e st h =
    let z : (dropped_count e == 0) ≡ true = ground arith in rw z (_, refl)

module _ (names : Names) (p : Pass) (held : List LogBufferElement) (rows : ℕ)
    (bound : rows < 2 ^ 64) where
  abbrev pub may : LogBufferElement → Bool
  may = may_take p.id p.oldest

  abbrev pub same : (n : ℕ) (e : LogBufferElement) → may (set_dropped n e) ≡ may e
  same = may_take-set_dropped p.id p.oldest

  abbrev pub Here : List LogBufferElement → Scan → Type 0
  Here es s = Scanning may held same rows es s

  abbrev pub Then : List LogBufferElement → Option (Flow × Scan) → Type 0
  Then es r = Ends p.check_high_priority r (After may held same rows es)

  abbrev pub counted : Scan → Scan
  counted s = record s { prune_rows = minus64 s.prune_rows 1 }

  abbrev pub kicked : Scan → Scan
  kicked s = record (counted s) { kick = true }

  Counts-le : (k : Bool) (n : ℕ) → Counts may held same rows k n → n ≤ rows
  Counts-le true n h = omega arith
  Counts-le false n h = h

  Counts-less :
      (k : Bool) (n m : ℕ) → m ≤ n → Counts may held same rows k n → Counts may held same rows k m
  Counts-less true n m l h = omega arith
  Counts-less false n m l h = omega arith

  one_less :
      (es : List LogBufferElement) (s : Scan)
      → Here es s
      → suc (minus64 s.prune_rows 1) ≡ s.prune_rows
  one_less es s h =
      minus64_one s.prune_rows rows (Counts-le s.kick s.prune_rows h.counts) bound h.positive

  pub counted-Counts :
      (es : List LogBufferElement) (s : Scan)
      → Here es s
      → Counts may held same rows s.kick (minus64 s.prune_rows 1)
  counted-Counts es s h =
      Counts-less s.kick s.prune_rows (minus64 s.prune_rows 1) (omega (arith, one_less es s h))
        h.counts

  pub kicked-Counts :
      (es : List LogBufferElement) (s : Scan) → Here es s → minus64 s.prune_rows 1 < rows
  kicked-Counts es s h = omega (arith, one_less es s h, Counts-le s.kick s.prune_rows h.counts)

  -- A row is counted, and there is one left.
  pub counted-Here :
      (es : List LogBufferElement) (s : Scan) (k : Bool) (worst_sizes : ℕ)
      → (minus64 s.prune_rows 1 == 0) ≡ false
      → Counts may held same rows k (minus64 s.prune_rows 1)
      → Here es s
      → Here es (record (counted s) { kick = k; worst_sizes = worst_sizes })
  counted-Here es s k w z c h = record {
    before = h.before;
    place = h.place;
    split = h.split;
    holds = h.holds;
    taken = h.taken;
    counts = c;
    positive = ground arith;
  }

  -- The element at the iterator becomes a dropped one.
  dropped-Here :
      (e : LogBufferElement) (es : List LogBufferElement) (s : Scan) (stats : LogStatistics)
      → may e ≡ true
      → Here (e ∷ es) s
      → Here (set_dropped 1 e ∷ es) (record s {
        buffer = record s.buffer {
          simple = record s.buffer.simple {
            stats = stats;
            logs = modify_at s.it (set_dropped 1) s.buffer.simple.logs;
          };
        };
      })
  dropped-Here e es s stats m h =
      let at_it = get_elem?-middle h.before es e in
      let valid = modify_at-IsChattyBuffer s.buffer s.it 1 h.holds.valid in
      record {
        before = h.before;
        place = h.place;
        split =
            ap (modify_at s.it (set_dropped 1)) h.split
            ∙ rw h.place (modify_at-middle (set_dropped 1) h.before es e);
        holds = record {
          valid = record {
            cached = unfold IsCached with_logs in valid.cached;
            worst = unfold with_logs in valid.worst;
            worst_pid = unfold with_logs in valid.worst_pid;
          };
          keeps =
              filter-modify_at (λ x. not (may x)) s.it (set_dropped 1) s.buffer.simple.logs
                (λ x. ap not (same 1 x)) (rw (h.split, h.place, at_it, m) refl)
              ∙ h.holds.keeps;
        };
        taken = h.taken;
        counts = h.counts;
        positive = h.positive;
      }

  -- The iterator moves on behind an element that sets watermarks.
  pub marked-Here :
      (e f : LogBufferElement) (es : List LogBufferElement) (s : Scan) (b : ChattyLogBuffer)
      → may e ≡ true
      → (h : Here (e ∷ es) s) → Holds may held b × (b.simple.logs ≡ h.before ++ (e ∷ es))
      → Here es (record s { it = suc s.it; last = add_last f s.it s.last; buffer = b })
  marked-Here e f es s b m h (holds, split) =
      let next = with_buffer may held same rows (e ∷ es) s b holds (split ∙ sym h.split) h in
      advance-add_last may held same rows e f es (record s { buffer = b }) m next

  drop_step-Then :
      (e : LogBufferElement) (es : List LogBufferElement) (s : Scan)
      → may e ≡ true
      → ltb 0 (dropped_count e) ≡ false
      → e.log_id ≡ p.id
      → worst_key e ≡ p.worst
      → (not (p.worst_pid == 0) ≡ true → e.pid ≡ p.worst_pid)
      → Here (e ∷ es) s
      → Then es (drop_step names p e s)
  unfolding drop_step
  drop_step-Then e es s m d same_id same_key same_pid h =
      let (stats, done) = drop_element-some names e s.buffer.simple.stats d in
      let m' : may (set_dropped 1 e) ≡ true = same 1 e ∙ m in
      rw done (
        coalesce_step-After may held same names p.check_high_priority rows 1 (set_dropped 1 e) es _
          _ m' (rw (dropped_count-set_dropped 1 e) (omega arith)) (dropped-Here e es s stats m h)
          (λ s' h'. marked-Here (set_dropped 1 e) e es s' (mark_offender p s'.it s'.buffer) m' h' (
            rw h'.place (
              mark_offender-Holds may held (set_dropped 1 e) h'.before es p s'.buffer
                (unfold set_dropped in same_id) (worst_key-set_dropped 1 e ∙ same_key)
                (unfold set_dropped in same_pid) (h'.holds, h'.split)))))

  -- What happens to the size that is left to take changes nothing else.
  with_worst_sizes :
      (es : List LogBufferElement) (r : Flow × Scan) (n : ℕ)
      → After may held same rows es r
      → After may held same rows es (r.0, record r.1 { worst_sizes = n })
  with_worst_sizes es (stopped, s) n h = h
  with_worst_sizes es (erased, s) n h = record {
    before = h.before;
    place = h.place;
    split = h.split;
    holds = h.holds;
    taken = h.taken;
    counts = h.counts;
    positive = h.positive;
  }
  with_worst_sizes es (passed, s) n h = record {
    before = h.before;
    place = h.place;
    split = h.split;
    holds = h.holds;
    taken = h.taken;
    counts = h.counts;
    positive = h.positive;
  }

  After-stopped :
      (es : List LogBufferElement) (r : Flow × Scan)
      → After may held same rows es r
      → After may held same rows es (stopped, r.1)
  After-stopped es (stopped, s) h = h
  After-stopped es (erased, s) h = (h.holds, h.counts)
  After-stopped es (passed, s) h = (h.holds, h.counts)

  pub offender_step-Then :
      (e : LogBufferElement) (es : List LogBufferElement) (s : Scan)
      → may e ≡ true
      → ltb 0 (dropped_count e) ≡ false
      → e.log_id ≡ p.id
      → worst_key e ≡ p.worst
      → (not (p.worst_pid == 0) ≡ true → e.pid ≡ p.worst_pid)
      → Here (e ∷ es) s
      → Then es (offender_step names p e s)
  unfolding offender_step
  offender_step-Then e es s m d same_id same_key same_pid h =
      elim (Bool-cases (minus64 s.prune_rows 1 == 0)) [
        | inl z ↦ rw z (h.holds, counted-Counts (e ∷ es) s h)
        | inr z ↦
            let k = counted-Here (e ∷ es) s true s.worst_sizes z (kicked-Counts (e ∷ es) s h) h in
            let step : Then es (
                if s.leading
                then erase_step names false e (kicked s)
                else drop_step names p e (kicked s)) =
              if-either (Then es) s.leading _ _
                (λ l.
                  let (s', done, scanning) =
                    erase_step-After may held same names p.check_high_priority rows false e es
                      (kicked s) m (λ f. absurd (let g : false ≡ true = f in cc)) k in
                  rw done scanning)
                (λ l. drop_step-Then e es (kicked s) m d same_id same_key same_pid k) in
            rw z (
              Ends-bind p.check_high_priority (After may held same rows es)
                (After may held same rows es) _ _ step
                (λ r a.
                  if-either (After may held same rows es) (ltb s.worst_sizes p.second_worst_sizes) _
                    _ (λ l. After-stopped es r a) (λ l. with_worst_sizes es r _ a)))
      ]
