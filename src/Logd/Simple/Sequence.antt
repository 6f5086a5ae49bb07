-- ===== src/Logd/Simple/Sequence.antt =====
-- The sequence numbers of the elements that SimpleLogBuffer stores (logd/SimpleLogBuffer.cpp).
use android_system_logging.Common.{
  ℕ, zero, suc, ◌+◌, ◌*◌, ◌/◌, ◌%◌, ◌^◌, ◌<◌, ◌≡◌, refl, sym, subst, ◌∙◌, none, some, List, [], ◌∷◌,
  ◌++◌, All, All-append, length, ltb, leb, if◌then◌else◌, arith, inl, inr, Bool-cases, Option-cases,
  some-eq-some, Succeeds,
}
use android_system_logging.Liblog.LogId.{log_id_max}
use android_system_logging.Logd.Element.{LogBufferElement, to_log_statistics_element}
use android_system_logging.Logd.Serialized.Write.{Levels, Message}
use android_system_logging.Logd.Statistics.Entries.{Names, minus64}
use android_system_logging.Logd.Statistics.Tables.{
  LogStatistics, add_total, count_total, should_prune,
}
use android_system_logging.Logd.Statistics.Calls.{add}
use android_system_logging.Logd.Simple.{
  SimpleLogBuffer, is_other, erase, subtract_and_erase, prune, maybe_prune, log_internal,
}
use android_system_logging.Logd.Simple.Calls.{log, make_element}
use android_system_logging.Logd.Simple.Oldest.{IsCached, get_oldest-sequence, append-IsCached}
use android_system_logging.Logd.Simple.Pruning.{prune_lem, prune-keeps}
use android_system_logging.Logd.Simple.Taking.{without}
use android_system_logging.Logd.Simple.Invariant.{should_log-some}
use android_system_logging.Logd.Simple.Resuming.{Above, Below, Ascending, Below-weaken}

-- The numbers go up, from 1 to the last one given out.
pub record IsSequenced (logs : List LogBufferElement) (next : ℕ) : Type 0 where
  pub ascending : Ascending logs
  pub positive : Above 0 logs
  pub below : Below next logs
  pub begun : 0 < next

clamped :
    (part hundredth : ℕ)
    → let min = if ltb hundredth 4 then 4 else hundredth in
      let rows = if ltb part min then min else part in
      (0 < (if ltb 256 rows then 256 else rows)) × ((if ltb 256 rows then 256 else rows) < 2 ^ 64)
clamped part hundredth = (ground arith, ground arith)

pub should_prune-rows :
    (id max : ℕ) (st : LogStatistics) (rows : ℕ)
    → should_prune id max st ≡ some rows
    → (0 < rows) × (rows < 2 ^ 64)
unfolding should_prune
should_prune-rows id max st rows h = elim (Bool-cases (leb (st.m_sizes id) max)) [
  | inl e ↦ absurd (let c : none ≡ some rows = rw e at h in cc)
  | inr e ↦
      subst (λ (n : ℕ). (0 < n) × (n < 2 ^ 64)) (some-eq-some (rw e at h))
        (clamped
          (minus64 (st.m_elements id) (st.m_dropped_elements id)
            * minus64 (st.m_sizes id) (max * 9 % 2 ^ 64 / 10)
            % 2 ^ 64
            / st.m_sizes id)
          (minus64 (st.m_elements id) (st.m_dropped_elements id) / 100))
]

module _ (id uid : ℕ) where
  All-without :
      (P : LogBufferElement → Type 0) (es : List LogBufferElement) (n : ℕ)
      → All P es
      → All P (without id uid n es)
  unfolding without
  All-without P es zero a = a
  All-without P [] (suc n) a = tt
  All-without P (e ∷ es) (suc n) a = elim (Bool-cases (is_other id uid e)) [
    | inl f ↦ rw f (a.0, All-without P es (suc n) a.1)
    | inr f ↦ rw f (All-without P es n a.1)
  ]

  without-Ascending :
      (es : List LogBufferElement) (n : ℕ) → Ascending es → Ascending (without id uid n es)
  unfolding without Ascending
  without-Ascending es zero a = a
  without-Ascending [] (suc n) a = tt
  without-Ascending (e ∷ es) (suc n) a = elim (Bool-cases (is_other id uid e)) [
    | inl f ↦ rw f (All-without _ es (suc n) a.0, without-Ascending es (suc n) a.1)
    | inr f ↦ rw f (without-Ascending es n a.1)
  ]

  without-IsSequenced :
      (es : List LogBufferElement) (n next : ℕ)
      → IsSequenced es next
      → IsSequenced (without id uid n es) next
  without-IsSequenced es n next v = record {
    ascending = without-Ascending es n v.ascending;
    positive = All-without _ es n v.positive;
    below = All-without _ es n v.below;
    begun = v.begun;
  }

Ascending-snoc :
    (es : List LogBufferElement) (e : LogBufferElement)
    → Ascending es
    → Below e.sequence es
    → Ascending (es ++ (e ∷ []))
unfolding Ascending
Ascending-snoc [] e a b = (tt, tt)
Ascending-snoc (x ∷ es) e a b =
    (All-append _ es (e ∷ []) a.0 (b.0, tt), Ascending-snoc es e a.1 b.1)

append-IsSequenced :
    (es : List LogBufferElement) (e : LogBufferElement)
    → IsSequenced es e.sequence
    → IsSequenced (es ++ (e ∷ [])) (e.sequence + 1)
append-IsSequenced es e v = record {
  ascending = Ascending-snoc es e v.ascending v.below;
  positive = All-append _ es (e ∷ []) v.positive (v.begun, tt);
  below =
      All-append _ es (e ∷ []) (Below-weaken e.sequence _ es (omega arith) v.below)
        (omega arith, tt);
  begun = omega arith;
}

module _ (names : Names) where
  maybe_prune-IsSequenced :
      (id : ℕ) (b : SimpleLogBuffer) (next : ℕ)
      → IsCached b
      → IsSequenced b.logs next
      → IsSequenced (maybe_prune names id b).logs next
  unfolding maybe_prune
  maybe_prune-IsSequenced id b next c v =
      elim (Option-cases (should_prune id (b.max_size id) b.stats)) [
        | inl e ↦ rw (maybe_prune, e) v
        | inr (rows, e) ↦
            let (p, w) = should_prune-rows id (b.max_size id) b.stats rows e in
            rw (maybe_prune, e, (prune_lem names id rows 0 b c p w).0)
              (without-IsSequenced id 0 b.logs _ next v)
      ]

  prune-sequence :
      (id rows uid : ℕ) (b : SimpleLogBuffer)
      → IsCached b
      → (prune names id rows uid b).1.sequence ≡ b.sequence
  unfolding subtract_and_erase erase
  prune-sequence id rows uid b c =
      prune-keeps names (λ (d : SimpleLogBuffer). d.sequence ≡ b.sequence) (λ before es e d h p. p)
        (λ d rs p. p) id rows uid b c (get_oldest-sequence id b)

  maybe_prune-sequence :
      (id : ℕ) (b : SimpleLogBuffer) → IsCached b → (maybe_prune names id b).sequence ≡ b.sequence
  unfolding maybe_prune
  maybe_prune-sequence id b c = elim (Option-cases (should_prune id (b.max_size id) b.stats)) [
    | inl e ↦ rw (maybe_prune, e) refl
    | inr (rows, e) ↦ rw (maybe_prune, e) (prune-sequence id rows 0 b c)
  ]

  log_internal-IsSequenced :
      (e : LogBufferElement) (b : SimpleLogBuffer)
      → IsCached b
      → IsSequenced b.logs e.sequence
      → b.sequence ≡ e.sequence + 1
      → IsSequenced (log_internal names e b).logs (log_internal names e b).sequence
  unfolding log_internal IsCached
  log_internal-IsSequenced e b c v i =
      let added : SimpleLogBuffer = record b {
        logs = b.logs ++ (e ∷ []);
        stats = add names (to_log_statistics_element e) b.stats;
      } in
      subst (IsSequenced (maybe_prune names e.log_id added).logs)
        (sym (maybe_prune-sequence e.log_id added (append-IsCached b e c) ∙ i))
        (maybe_prune-IsSequenced e.log_id added (e.sequence + 1) (append-IsCached b e c)
          (append-IsSequenced b.logs e v))

  -- Log, of a message of at least one byte, returns, and the sequence numbers of the stored elements
  -- still go up, from 1 to the last one given out. There is a number left to give, and the iterators
  -- to the oldest elements are right.
  pub log-IsSequenced :
      (l : Levels) (m : Message) (b : SimpleLogBuffer)
      → 0 < length m.msg
      → IsCached b
      → b.sequence + 1 < 2 ^ 64
      → IsSequenced b.logs b.sequence
      → Succeeds (log names l m b) (λ r. IsSequenced r.1.logs r.1.sequence)
  unfolding log add_total count_total make_element IsCached
  log-IsSequenced l m b h c w v =
      let (should, e) = should_log-some names l m.log_id m.msg h in
      let elem = make_element b.sequence m in
      let next : (b.sequence + 1) % 2 ^ 64 ≡ b.sequence + 1 = omega arith in
      elim (Bool-cases (leb log_id_max m.log_id)) [
        | inl f ↦ rw f v
        | inr f ↦
            rw (f, e)
              (elim (Bool-cases should) [
                | inl g ↦ rw g (
                    log_internal-IsSequenced elem
                      (record b { sequence = (b.sequence + 1) % 2 ^ 64 }) c v next)
                | inr g ↦ rw g v
              ])
      ]
