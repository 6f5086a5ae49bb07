-- ===== src/Logd/ReaderThread/Tail.antt =====
-- The tail that a reader is sent, as logd/LogReaderThread.cpp filters it.
use android_system_logging.Common.{
  ℕ, zero, suc, ◌+◌, ◌-◌, ◌^◌, ◌≤◌, ◌<◌, ◌≡◌, refl, sym, ◌∙◌, ap, inl, inr, Bool, true, false, ◌&&◌,
  ◌||◌, not, List, [], ◌∷◌, All, length, drop, arith, ltb, leb, ◌==◌, if◌then◌else◌, Bool-cases,
}
use android_system_logging.Liblog.LogTime.{epoch, time_eq, time_gt, time_le}
use android_system_logging.Logd.ReaderThread.{
  FilterResult, k_skip, k_stop, k_write, LogReaderThread, Popped, Filter, is_counted,
  filter_first_pass, filter_second_pass, flush_to, thread_round,
}
use android_system_logging.Logd.ReaderThread.Filters.{
  is_wanted, select, select-same, All-always, All-imply, select-le, is_wanted-is_counted,
  first_pass-count, IsReading, filter-unwanted, filter-stop, filter-all, filter-early, filter-late,
}

either :
    (b : Bool) (x y : LogReaderThread) (P : LogReaderThread → Type 0)
    → P x
    → P y
    → P (if b then x else y)
either true x y P p q = p
either false x y P p q = q

module _ (filter : Filter) (p : Popped) (ps : List Popped) (t u : LogReaderThread) where
  flush-skip : filter p t ≡ (k_skip, u) → (flush_to filter (p ∷ ps) t).0 ≡ (flush_to filter ps u).0
  unfolding flush_to
  flush-skip e =
      rw (e, flush_to) (ap (λ (r : FilterResult × LogReaderThread). (flush_to filter ps r.1).0) e)

  flush-stop : filter p t ≡ (k_stop, u) → (flush_to filter (p ∷ ps) t).0 ≡ []
  unfolding flush_to
  flush-stop e = rw (e, flush_to) refl

  flush-write :
      filter p t ≡ (k_write, u) → (flush_to filter (p ∷ ps) t).0 ≡ p ∷ (flush_to filter ps u).0
  unfolding flush_to
  flush-write e =
      rw (e, flush_to)
        (ap (λ (r : FilterResult × LogReaderThread). p ∷ (flush_to filter ps r.1).0) e)

module _ (t : LogReaderThread) (h : IsReading t) where
  -- Without a tail, all that is wanted is written.
  second_pass-all :
      (ps : List Popped) (i : ℕ)
      → (flush_to filter_second_pass ps (record t { tail = 0; index = i })).0
        ≡ select (is_wanted t) ps
  unfolding flush_to select
  second_pass-all [] i = refl
  second_pass-all (p ∷ ps) i = elim (Bool-cases (is_wanted t p)) [
    | inl wanted ↦ rw wanted (
        flush-write filter_second_pass p ps _ _ (filter-all t h p i wanted)
        ∙ ap (◌∷◌ p) (second_pass-all ps i))
    | inr other ↦
        let go : (t.non_block && false) ≡ false = ground arith in
        rw other (
          flush-skip filter_second_pass p ps _ _ (filter-unwanted t h p 0 i go other)
          ∙ second_pass-all ps i)
  ]

  drop-nil : (n : ℕ) → drop {A = Popped} n [] ≡ []
  drop-nil zero = refl
  drop-nil (suc n) = refl

  none_left : (f : Popped → Bool) (ps : List Popped) → length (select f ps) ≤ 0 → select f ps ≡ []
  unfolding select
  none_left f [] e = refl
  none_left f (p ∷ ps) e = elim (Bool-cases (f p)) [
    | inl wanted ↦ absurd (let l : suc (length (select f ps)) ≤ 0 = rw wanted at e in omega arith)
    | inr other ↦ rw other (none_left f ps (rw other at e))
  ]

  second_pass-last :
      (ps : List Popped) (i : ℕ)
      → 0 < t.tail
      → i + length (select (is_wanted t) ps) ≤ t.count
      → i + length ps < 2 ^ 64
      → (flush_to filter_second_pass ps (record t { index = i })).0
        ≡ drop (t.count - t.tail - i) (select (is_wanted t) ps)
  unfolding flush_to select
  second_pass-last [] i some_tail counted fits = sym (drop-nil (t.count - t.tail - i))
  second_pass-last (p ∷ ps) i some_tail counted fits = elim (Bool-cases (is_wanted t p)) [
    | inl wanted ↦
        let counted' : i + suc (length (select (is_wanted t) ps)) ≤ t.count =
          rw wanted at counted in
        elim (Bool-cases (ltb i (t.count - t.tail))) [
          | inl early ↦
              let one_less : t.count - t.tail - i ≡ suc (t.count - t.tail - (i + 1)) =
                ground arith in
              rw (wanted, one_less)
                (flush-skip filter_second_pass p ps _ _ (
                    filter-early t h p i some_tail (omega arith) (omega arith) wanted
                      (ground arith))
                  ∙ second_pass-last ps (i + 1) some_tail (omega arith) (omega arith))
          | inr late ↦
              let none_less : t.count - t.tail - i ≡ 0 = ground arith in
              let then_none : t.count - t.tail - (i + 1) ≡ 0 = ground arith in
              rw (wanted, none_less)
                (flush-write filter_second_pass p ps _ _ (
                    filter-late t h p i some_tail (omega arith) (omega arith) wanted (ground arith))
                  ∙ ap (◌∷◌ p) (
                      either t.non_block _ _
                        (λ (u : LogReaderThread).
                          (flush_to filter_second_pass ps u).0 ≡ select (is_wanted t) ps)
                        (second_pass-last ps (i + 1) some_tail (omega arith) (omega arith)
                          ∙ ap (λ (n : ℕ). drop n (select (is_wanted t) ps)) then_none)
                        (second_pass-all ps (i + 1))))
        ]
    | inr other ↦ elim (Bool-cases (t.non_block && (not (t.tail == 0) && leb t.count i))) [
      | inl stop ↦
          let empty : select (is_wanted t) ps ≡ [] = none_left (is_wanted t) ps (
            let c : i + length (select (is_wanted t) ps) ≤ t.count = rw other at counted in
            ground arith) in
          let done : (t.non_block ≡ true) × (leb t.count i ≡ true) × ((t.tail == 0) ≡ false) =
            ground arith in
          rw (other, empty)
            (flush-stop filter_second_pass p ps _ _ (filter-stop t h p i done)
              ∙ sym (drop-nil (t.count - t.tail - i)))
      | inr go ↦ rw other (
          flush-skip filter_second_pass p ps _ _ (filter-unwanted t h p t.tail i go other)
          ∙ second_pass-last ps i some_tail (rw other at counted) (omega arith))
    ]
  ]

-- A reader that starts with a tail, and is neither released nor told to skip, is written what it wants, less as many of the first as the logs
-- counted exceed the tail. Those counted are at the start time too, those wanted only after it.
pub thread_round-written :
    (t : LogReaderThread) (ps : List Popped)
    → IsReading t
    → 0 < t.tail
    → length ps < 2 ^ 64
    → (thread_round ps (record t { count = 0; index = 0 })).0
      ≡ drop (length (select (is_counted t) ps) - t.tail) (select (is_wanted t) ps)
unfolding thread_round is_wanted is_counted
thread_round-written t ps h some_tail fits =
    let n = length (select (is_counted t) ps) in
    let has_tail : (t.tail == 0) ≡ false = ground arith in
    let start : LogReaderThread = record t { count = 0; index = 0 } in
    let u : LogReaderThread = record t { count = n; index = 0 } in
    let counts : select (is_counted start) ps ≡ select (is_counted t) ps =
      select-same (is_counted start) (is_counted t) ps (All-always _ ps (λ p. refl)) in
    let counted : (flush_to filter_first_pass ps start).1 ≡ record start { count = n } =
      first_pass-count start ps 0 (omega arith)
      ∙ ap (λ (m : ℕ). record start { count = m }) (omega (arith, ap length counts)) in
    let wants : select (is_wanted u) ps ≡ select (is_wanted t) ps =
      select-same (is_wanted u) (is_wanted t) ps (All-always _ ps (λ p. refl)) in
    simp (has_tail, counted)
      (second_pass-last u (record { held = h.held; none_skipped = h.none_skipped }) ps 0 some_tail
          (omega (arith, select-le (is_wanted u) (is_counted t) ps (is_wanted-is_counted t)))
          (omega arith)
        ∙ ap (λ (k : ℕ). drop k (select (is_wanted u) ps)) (omega arith)
        ∙ ap (drop (n - t.tail)) wants)

-- A log that is not exactly at the start time is counted where it is wanted.
abbrev Apart : LogReaderThread → Popped → Type 0
Apart t p = (time_eq t.start_time epoch || not (time_eq t.start_time p.realtime)) ≡ true

is_counted-is_wanted :
    (t : LogReaderThread) (p : Popped) → Apart t p → is_counted t p ≡ is_wanted t p
unfolding is_counted is_wanted time_le time_gt time_eq
is_counted-is_wanted t p h = ground arith

-- Where no log is exactly at the start time, or no start time is given, a reader that starts with a
-- tail, and is neither released nor told to skip, is written the last logs that it wants, as many as the tail says.
pub thread_round-last :
    (t : LogReaderThread) (ps : List Popped)
    → IsReading t
    → 0 < t.tail
    → length ps < 2 ^ 64
    → All (Apart t) ps
    → (thread_round ps (record t { count = 0; index = 0 })).0
      ≡ drop (length (select (is_wanted t) ps) - t.tail) (select (is_wanted t) ps)
thread_round-last t ps h some_tail fits apart =
    thread_round-written t ps h some_tail fits
    ∙ ap (λ (l : List Popped). drop (length l - t.tail) (select (is_wanted t) ps))
        (select-same (is_counted t) (is_wanted t) ps
          (All-imply (Apart t) _ ps (is_counted-is_wanted t) apart))
