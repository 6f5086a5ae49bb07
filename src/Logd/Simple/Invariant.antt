-- ===== src/Logd/Simple/Invariant.antt =====
-- What the calls of SimpleLogBuffer keep true of its state (logd/SimpleLogBuffer.cpp).
use android_system_logging.Common.{
  ℕ, zero, suc, ◌+◌, ◌-◌, ◌%◌, ◌^◌, ◌<◌, ◌≡◌, refl, subst, Bool, true, some, List, [], ◌∷◌, ◌++◌,
  append-nil, length, length-append, leb, ◌==◌, arith, inl, inr, Bool-cases, Option-cases, Succeeds,
}
use android_system_logging.Logd.Element.{LogBufferElement, to_log_statistics_element}
use android_system_logging.Logd.Statistics.Entries.{Names}
use android_system_logging.Logd.Statistics.Tables.{add_total, count_total, should_prune}
use android_system_logging.Logd.Statistics.Calls.{add, subtract}
use android_system_logging.Logd.Statistics.Counters.{counters}
use android_system_logging.Logd.Simple.{
  SimpleLogBuffer, get_oldest, erase, subtract_and_erase, prune, maybe_prune, log_internal,
}
use android_system_logging.Logd.Simple.Oldest.{
  IsCached, get_oldest-logs, get_oldest-stats, get_oldest-IsCached, erase-IsCached, append-IsCached,
}
use android_system_logging.Logd.Simple.Counted.{
  CountersOf, IsCounted, add-CountersOf, subtract-CountersOf,
}
use android_system_logging.Logd.Simple.Calls.{
  log, should_log, make_element, disconnect, clear_tries, clear,
}
use android_system_logging.Common.Bytes.{c_string}
use android_system_logging.Liblog.LogId.{log_id_max, log_id_security}
use android_system_logging.Logd.Serialized.Entry.{is_binary, msg_to_tag}
use android_system_logging.Logd.Serialized.Write.{android_log_info, Levels, Message}
use android_system_logging.Logd.Simple.Pruning.{prune-keeps, remove_at-append}

-- The iterators are right, and the counters.
pub record IsSimpleLogBuffer (b : SimpleLogBuffer) : Type 0 where
  pub cached : IsCached b
  pub counted : IsCounted b

module _ (names : Names) where
  subtract_and_erase-IsSimpleLogBuffer :
      (before es : List LogBufferElement) (e : LogBufferElement) (b : SimpleLogBuffer)
      → b.logs ≡ before ++ (e ∷ es)
      → IsSimpleLogBuffer b
      → IsSimpleLogBuffer (subtract_and_erase names (length before) e b)
  unfolding subtract_and_erase erase IsCached
  subtract_and_erase-IsSimpleLogBuffer before es e b h v =
      let inside : length before < length b.logs =
        rw h (omega (arith, length-append before (e ∷ es))) in
      record {
        cached =
            erase-IsCached (length before)
              (record b { stats = subtract names (to_log_statistics_element e) b.stats }) inside
              v.cached;
        counted =
            rw (h, remove_at-append before e es)
              (subtract-CountersOf names e before es b.stats (
                subst (λ (l : List LogBufferElement). CountersOf l (counters b.stats)) h
                  v.counted));
      }

  get_oldest-IsSimpleLogBuffer :
      (id : ℕ) (b : SimpleLogBuffer) → IsSimpleLogBuffer b → IsSimpleLogBuffer (get_oldest id b).1
  get_oldest-IsSimpleLogBuffer id b v = record {
    cached = get_oldest-IsCached id b v.cached;
    counted = rw (get_oldest-logs id b, get_oldest-stats id b) v.counted;
  }

  pub prune-IsSimpleLogBuffer :
      (id rows uid : ℕ) (b : SimpleLogBuffer)
      → IsSimpleLogBuffer b
      → IsSimpleLogBuffer (prune names id rows uid b).1
  unfolding IsCached
  prune-IsSimpleLogBuffer id rows uid b v =
      prune-keeps names IsSimpleLogBuffer subtract_and_erase-IsSimpleLogBuffer
        (λ c rs w. record { cached = w.cached; counted = w.counted }) id rows uid b v.cached
        (get_oldest-IsSimpleLogBuffer id b v)

  maybe_prune-IsSimpleLogBuffer :
      (id : ℕ) (b : SimpleLogBuffer)
      → IsSimpleLogBuffer b
      → IsSimpleLogBuffer (maybe_prune names id b)
  unfolding maybe_prune
  maybe_prune-IsSimpleLogBuffer id b v =
      elim (Option-cases (should_prune id (b.max_size id) b.stats)) [
        | inl e ↦ rw (maybe_prune, e) v
        | inr (rows, e) ↦ rw (maybe_prune, e) (prune-IsSimpleLogBuffer id rows 0 b v)
      ]

  log_internal-IsSimpleLogBuffer :
      (e : LogBufferElement) (b : SimpleLogBuffer)
      → IsSimpleLogBuffer b
      → IsSimpleLogBuffer (log_internal names e b)
  unfolding log_internal IsCached
  log_internal-IsSimpleLogBuffer e b v =
      let added : SimpleLogBuffer = record b {
        logs = b.logs ++ (e ∷ []);
        stats = add names (to_log_statistics_element e) b.stats;
      } in
      let counted : CountersOf b.logs (counters b.stats) = v.counted in
      let w : IsSimpleLogBuffer added = record {
        cached = append-IsCached b e v.cached;
        counted = add-CountersOf names e b.logs [] b.stats (rw append-nil counted);
      } in
      let p = maybe_prune-IsSimpleLogBuffer e.log_id added w in
      record { cached = p.cached; counted = p.counted }

  pub should_log-some :
      (l : Levels) (id : ℕ) (msg : List ℕ)
      → 0 < length msg
      → (x : Bool) × (should_log l id msg ≡ some x)
  unfolding should_log
  should_log-some l id [] h = absurd (omega arith)
  should_log-some l id (c ∷ msg) h = elim (Bool-cases (id == log_id_security)) [
    | inl e ↦ rw e (true, refl)
    | inr e ↦ elim (Bool-cases (is_binary id)) [
      | inl f ↦
          rw (e, f) (l.is_loggable android_log_info (l.tag_to_name (msg_to_tag (c ∷ msg))), refl)
      | inr f ↦ rw (e, f) (l.is_loggable c (some (c_string msg)), refl)
    ]
  ]

  -- Log, of a message of at least one byte, returns, and it keeps the iterators to the oldest
  -- elements right, and the counters of the statistics those of the stored elements, modulo 2^64.
  pub log-IsSimpleLogBuffer :
      (l : Levels) (m : Message) (b : SimpleLogBuffer)
      → 0 < length m.msg
      → IsSimpleLogBuffer b
      → Succeeds (log names l m b) (λ r. IsSimpleLogBuffer r.1)
  unfolding log count_total add_total IsCached
  log-IsSimpleLogBuffer l m b h v =
      let (should, e) = should_log-some l m.log_id m.msg h in
      let same : IsSimpleLogBuffer (record b { sequence = (b.sequence + 1) % 2 ^ 64 }) = record {
        cached = v.cached;
        counted = v.counted;
      } in
      elim (Bool-cases (leb log_id_max m.log_id)) [
        | inl f ↦ rw f v
        | inr f ↦
            rw (f, e)
              (elim (Bool-cases should) [
                | inl g ↦ rw g (
                    log_internal-IsSimpleLogBuffer (make_element b.sequence m)
                      (record b { sequence = (b.sequence + 1) % 2 ^ 64 }) same)
                | inr g ↦ rw g (record { cached = v.cached; counted = v.counted })
              ])
      ]

  pub disconnect-IsSimpleLogBuffer :
      (id : ℕ) (b : SimpleLogBuffer)
      → IsSimpleLogBuffer b
      → IsSimpleLogBuffer (disconnect names id b)
  unfolding disconnect IsCached
  disconnect-IsSimpleLogBuffer id b v = record { cached = v.cached; counted = v.counted }

  clear_tries-IsSimpleLogBuffer :
      (meanwhile : SimpleLogBuffer → SimpleLogBuffer) (tries id uid : ℕ) (b : SimpleLogBuffer)
      → ((c : SimpleLogBuffer) → IsSimpleLogBuffer c → IsSimpleLogBuffer (meanwhile c))
      → IsSimpleLogBuffer b
      → IsSimpleLogBuffer (clear_tries names meanwhile tries id uid b).1
  unfolding clear_tries
  clear_tries-IsSimpleLogBuffer meanwhile zero id uid b f v =
      let p = prune-IsSimpleLogBuffer id 1 uid b v in
      elim (Bool-cases (prune names id 1 uid b).0) [
        | inl e ↦ rw (clear_tries, e) (prune-IsSimpleLogBuffer id (2 ^ 64 - 1) uid _ p)
        | inr e ↦
            rw (clear_tries, e)
              (prune-IsSimpleLogBuffer id (2 ^ 64 - 1) uid _ (disconnect-IsSimpleLogBuffer id _ p))
      ]
  clear_tries-IsSimpleLogBuffer meanwhile (suc tries) id uid b f v =
      let p = prune-IsSimpleLogBuffer id (2 ^ 64 - 1) uid b v in
      elim (Bool-cases (prune names id (2 ^ 64 - 1) uid b).0) [
        | inl e ↦ rw (clear_tries, e) p
        | inr e ↦
            rw (clear_tries, e) (clear_tries-IsSimpleLogBuffer meanwhile tries id uid _ f (f _ p))
      ]

  -- Clear keeps the iterators to the oldest elements right, and the counters of the statistics those
  -- of the stored elements, modulo 2^64, if the other threads do while it sleeps.
  pub clear-IsSimpleLogBuffer :
      (meanwhile : SimpleLogBuffer → SimpleLogBuffer) (id uid : ℕ) (b : SimpleLogBuffer)
      → ((c : SimpleLogBuffer) → IsSimpleLogBuffer c → IsSimpleLogBuffer (meanwhile c))
      → IsSimpleLogBuffer b
      → IsSimpleLogBuffer (clear names meanwhile id uid b).1
  unfolding clear
  clear-IsSimpleLogBuffer meanwhile id uid b f v =
      clear_tries-IsSimpleLogBuffer meanwhile 3 id uid b f v
