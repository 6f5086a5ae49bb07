-- ===== src/Logd/Simple/Counted.antt =====
-- The counters of the statistics are those of the elements that SimpleLogBuffer stores
-- (logd/SimpleLogBuffer.cpp, logd/LogStatistics.cpp).
use android_system_logging.Common.{
  ℕ, ◌+◌, ◌%◌, ◌^◌, ◌≡◌, refl, sym, ap, ◌∙◌, subst, Bool, true, List, [], ◌∷◌, ◌++◌, ◌==◌,
  if◌then◌else◌, update, arith, inl, inr, Bool-cases, ==→eq,
}
use android_system_logging.Logd.Element.{
  LogBufferElement, msg_len, dropped_count, to_log_statistics_element,
}
use android_system_logging.Logd.Statistics.Entries.{Names, plus64, minus64}
use android_system_logging.Logd.Statistics.Tables.{LogStatistics, tracked}
use android_system_logging.Logd.Statistics.Calls.{add, subtract}
use android_system_logging.Logd.Statistics.Counters.{
  Counters, counters, add-counters, subtract-counters,
}
use android_system_logging.Logd.Simple.{SimpleLogBuffer}

-- The sum over the elements of a log.
unfoldable pub total : (LogBufferElement → ℕ) → ℕ → List LogBufferElement → ℕ
total f i [] = 0
total f i (e ∷ es) = let rest = total f i es in if e.log_id == i then f e + rest else rest

unfoldable pub counted_len : Bool → LogBufferElement → ℕ
counted_len track e = if track then (to_log_statistics_element e).total_len else msg_len e

abbrev one_dropped : LogBufferElement → ℕ
one_dropped e = if dropped_count e == 0 then 0 else 1

-- The function has the sums, as size_t counts.
unfoldable pub Sums : (LogBufferElement → ℕ) → List LogBufferElement → (ℕ → ℕ) → Type 0
Sums f es s = (i : ℕ) → s i ≡ total f i es % 2 ^ 64

unfoldable pub CountersOf : List LogBufferElement → Counters → Type 0
CountersOf es (s, n, d, track) =
    Sums (counted_len track) es s × Sums (λ e. 1) es n × Sums one_dropped es d

abbrev pub IsCounted : SimpleLogBuffer → Type 0
IsCounted b = CountersOf b.logs (counters b.stats)

total-append :
    (f : LogBufferElement → ℕ) (i : ℕ) (es fs : List LogBufferElement)
    → total f i (es ++ fs) ≡ total f i es + total f i fs
unfolding total
total-append f i [] fs = omega arith
total-append f i (e ∷ es) fs = elim (Bool-cases (e.log_id == i)) [
  | inl h ↦ rw h (omega (arith, total-append f i es fs))
  | inr h ↦ rw h (total-append f i es fs)
]

total-insert :
    (f : LogBufferElement → ℕ) (i : ℕ) (e : LogBufferElement) (es fs : List LogBufferElement)
    → total f i (es ++ (e ∷ fs)) ≡ (if e.log_id == i then f e else 0) + total f i (es ++ fs)
unfolding total
total-insert f i e es fs = elim (Bool-cases (e.log_id == i)) [
  | inl h ↦ rw (h, total-append, h) (omega (arith, total-append f i es fs))
  | inr h ↦ rw (h, total-append, h) (omega (arith, total-append f i es fs))
]

module _ (f : LogBufferElement → ℕ) (e : LogBufferElement) (es fs : List LogBufferElement)
    (s : ℕ → ℕ) where
  Sums-insert :
      Sums f (es ++ fs) s → Sums f (es ++ (e ∷ fs)) (update s e.log_id (plus64 (s e.log_id) (f e)))
  unfolding Sums
  Sums-insert h i = elim (Bool-cases (e.log_id == i)) [
    | inl g ↦
        let j = ==→eq e.log_id i g in
        let k : s e.log_id ≡ total f i (es ++ fs) % 2 ^ 64 = ap s j ∙ h i in
        rw (g, total-insert f i e es fs, k) (rw g (omega arith))
    | inr g ↦ rw (g, total-insert f i e es fs) (rw g (omega (arith, h i)))
  ]

  Sums-remove :
      Sums f (es ++ (e ∷ fs)) s → Sums f (es ++ fs) (update s e.log_id (minus64 (s e.log_id) (f e)))
  unfolding Sums
  Sums-remove h i = elim (Bool-cases (e.log_id == i)) [
    | inl g ↦
        let j = ==→eq e.log_id i g in
        let k : s e.log_id ≡ total f i (es ++ (e ∷ fs)) % 2 ^ 64 = ap s j ∙ h i in
        rw (g, k, total-insert f i e es fs) (rw g (omega arith))
    | inr g ↦
        let k : s i ≡ (0 + total f i (es ++ fs)) % 2 ^ 64 =
          rw (total-insert f i e es fs, g) at (h i) in
        rw g (omega (arith, k))
  ]

tracked-counted_len :
    (st : LogStatistics) (e : LogBufferElement)
    → (tracked st (to_log_statistics_element e)).total_len ≡ counted_len st.track_total_size e
unfolding tracked counted_len to_log_statistics_element
tracked-counted_len st e = elim (Bool-cases st.track_total_size) [
  | inl h ↦ rw h refl
  | inr h ↦ rw h refl
]

-- One that is not dropped does not count.
Sums-kept :
    (e : LogBufferElement) (es fs : List LogBufferElement)
    → (dropped_count e == 0) ≡ true
    → (i : ℕ) → total one_dropped i (es ++ (e ∷ fs)) ≡ total one_dropped i (es ++ fs)
Sums-kept e es fs z i = elim (Bool-cases (e.log_id == i)) [
  | inl g ↦ rw (total-insert one_dropped i e es fs, g, z) (omega arith)
  | inr g ↦ rw (total-insert one_dropped i e es fs, g) (omega arith)
]

module _ (e : LogBufferElement) (es fs : List LogBufferElement) (s : ℕ → ℕ) where
  dropped-insert :
      Sums one_dropped (es ++ fs) s
      → Sums one_dropped
          (es ++ (e ∷ fs))
          (if dropped_count e == 0 then s else update s e.log_id (plus64 (s e.log_id) 1))
  unfolding Sums
  dropped-insert h = elim (Bool-cases (dropped_count e == 0)) [
    | inl z ↦ λ i. simp z (h i ∙ ap (λ (n : ℕ). n % 2 ^ 64) (sym (Sums-kept e es fs z i)))
    | inr z ↦ λ i. simp z (simp z at (Sums-insert one_dropped e es fs s h i))
  ]

  dropped-remove :
      Sums one_dropped (es ++ (e ∷ fs)) s
      → Sums one_dropped
          (es ++ fs)
          (if dropped_count e == 0 then s else update s e.log_id (minus64 (s e.log_id) 1))
  unfolding Sums
  dropped-remove h = elim (Bool-cases (dropped_count e == 0)) [
    | inl z ↦ λ i. simp z (h i ∙ ap (λ (n : ℕ). n % 2 ^ 64) (Sums-kept e es fs z i))
    | inr z ↦ λ i. simp z (simp z at (Sums-remove one_dropped e es fs s h i))
  ]

module _ (names : Names) where
  pub add-CountersOf :
      (e : LogBufferElement) (es fs : List LogBufferElement) (st : LogStatistics)
      → CountersOf (es ++ fs) (counters st)
      → CountersOf (es ++ (e ∷ fs)) (counters (add names (to_log_statistics_element e) st))
  unfolding CountersOf to_log_statistics_element
  add-CountersOf e es fs st (h1, h2, h3) =
      subst (CountersOf (es ++ (e ∷ fs)))
        (sym (add-counters names (to_log_statistics_element e) st))
        (rw (tracked-counted_len st e) (
          Sums-insert (counted_len st.track_total_size) e es fs st.m_sizes h1,
          Sums-insert (λ e. 1) e es fs st.m_elements h2,
          dropped-insert e es fs st.m_dropped_elements h3,
        ))

  pub subtract-CountersOf :
      (e : LogBufferElement) (es fs : List LogBufferElement) (st : LogStatistics)
      → CountersOf (es ++ (e ∷ fs)) (counters st)
      → CountersOf (es ++ fs) (counters (subtract names (to_log_statistics_element e) st))
  unfolding CountersOf to_log_statistics_element
  subtract-CountersOf e es fs st (h1, h2, h3) =
      subst (CountersOf (es ++ fs)) (sym (subtract-counters names (to_log_statistics_element e) st))
        (rw (tracked-counted_len st e) (
          Sums-remove (counted_len st.track_total_size) e es fs st.m_sizes h1,
          Sums-remove (λ e. 1) e es fs st.m_elements h2,
          dropped-remove e es fs st.m_dropped_elements h3,
        ))
