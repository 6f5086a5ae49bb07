-- ===== src/Logd/ReaderThread/Filters.antt =====
-- What the filters of logd/LogReaderThread.cpp count and let through.
use android_system_logging.Common.{
  ℕ, ◌+◌, ◌-◌, ◌%◌, ◌^◌, ◌≤◌, ◌<◌, ◌≡◌, refl, ◌∙◌, ap, inl, inr, Bool, true, false, ◌&&◌, ◌||◌, not,
  List, [], ◌∷◌, All, length, arith, ltb, leb, ◌==◌, if◌then◌else◌, Bool-cases,
}
use android_system_logging.Liblog.LogTime.{epoch, time_eq, time_gt, time_le}
use android_system_logging.Logd.ReaderThread.{
  k_skip, k_stop, k_write, LogReaderThread, Popped, is_counted, filter_first_pass,
  filter_second_pass, ok, flush_to,
}

-- What a reader asks for: its process, if it names one, and a time after its start.
unfoldable pub is_wanted : LogReaderThread → Popped → Bool
is_wanted t p =
    (t.pid == 0 || t.pid == p.pid)
    && (time_eq t.start_time epoch || not (time_le p.realtime t.start_time))

unfoldable pub select : (Popped → Bool) → List Popped → List Popped
select f [] = []
select f (p ∷ ps) = if f p then p ∷ select f ps else select f ps

length-select : (f : Popped → Bool) (ps : List Popped) → length (select f ps) ≤ length ps
unfolding select
length-select f [] = omega arith
length-select f (p ∷ ps) = ground (arith, length-select f ps)

pub select-same :
    (f g : Popped → Bool) (ps : List Popped)
    → All (λ (p : Popped). f p ≡ g p) ps
    → select f ps ≡ select g ps
unfolding select
select-same f g [] h = refl
select-same f g (p ∷ ps) h = rw (h.0, select-same f g ps h.1) refl

pub All-always : (P : Popped → Type 0) (ps : List Popped) → ((p : Popped) → P p) → All P ps
All-always P [] h = tt
All-always P (p ∷ ps) h = (h p, All-always P ps h)

pub All-imply :
    (P Q : Popped → Type 0) (ps : List Popped) → ((p : Popped) → P p → Q p) → All P ps → All Q ps
All-imply P Q [] h a = tt
All-imply P Q (p ∷ ps) h a = (h p a.0, All-imply P Q ps h a.1)

-- What is wanted was counted.
pub select-le :
    (f g : Popped → Bool) (ps : List Popped)
    → ((p : Popped) → f p ≡ true → g p ≡ true)
    → length (select f ps) ≤ length (select g ps)
unfolding select
select-le f g [] h = omega arith
select-le f g (p ∷ ps) h = elim (Bool-cases (f p)) [
  | inl wanted ↦ rw (wanted, h p wanted) (omega (arith, select-le f g ps h))
  | inr other ↦ rw other (ground (arith, select-le f g ps h))
]

pub is_wanted-is_counted :
    (t : LogReaderThread) (p : Popped) → is_wanted t p ≡ true → is_counted t p ≡ true
unfolding is_wanted is_counted time_le time_gt time_eq
is_wanted-is_counted t p h = ground arith

-- The first pass counts, and changes nothing else.
pub first_pass-count :
    (t : LogReaderThread) (ps : List Popped) (n : ℕ)
    → n + length ps < 2 ^ 64
    → (flush_to filter_first_pass ps (record t { count = n })).1
      ≡ record t { count = n + length (select (is_counted t) ps) }
unfolding flush_to filter_first_pass select is_counted
first_pass-count t [] n h = ap (λ (m : ℕ). record t { count = m }) (omega arith)
first_pass-count t (p ∷ ps) n h = elim (Bool-cases (is_counted t p)) [
  | inl wanted ↦
      let next : (n + 1) % 2 ^ 64 ≡ n + 1 = omega arith in
      simp (wanted, next)
        (first_pass-count t ps (n + 1) (omega arith)
          ∙ ap (λ (m : ℕ). record t { count = m }) (omega arith))
  | inr other ↦ simp other (first_pass-count t ps n (omega arith))
]

-- A reader that is neither released nor told to skip.
pub record IsReading (t : LogReaderThread) : Type 0 where
  pub held : t.release ≡ false
  pub none_skipped : (i : ℕ) → t.skip_ahead i ≡ 0

module _ (t : LogReaderThread) (h : IsReading t) (p : Popped) where
  -- The two tests of the second pass together.
  wanted_tests :
      is_wanted t p ≡ true
      → ((not (t.pid == 0) && not (t.pid == p.pid)) ≡ false)
        × ((not (time_eq t.start_time epoch) && time_le p.realtime t.start_time) ≡ false)
  unfolding is_wanted
  wanted_tests e = ground arith

  no_skip : (t.skip_ahead p.log_id == 0) ≡ true
  no_skip = rw (h.none_skipped p.log_id) refl

  pub filter-unwanted :
      (tail i : ℕ)
      → (t.non_block && (not (tail == 0) && leb t.count i)) ≡ false
      → is_wanted t p ≡ false
      → filter_second_pass p (record t { tail = tail; index = i })
        ≡ (k_skip, record t { tail = tail; index = i })
  unfolding filter_second_pass is_wanted
  filter-unwanted tail i go e = elim (Bool-cases (not (t.pid == 0) && not (t.pid == p.pid))) [
    | inl pid ↦ simp (no_skip, go, pid) refl
    | inr pid ↦
        let time : (not (time_eq t.start_time epoch) && time_le p.realtime t.start_time) ≡ true =
          ground arith in
        simp (no_skip, go, pid, time) refl
  ]

  pub filter-stop :
      (i : ℕ)
      → (t.non_block ≡ true) × (leb t.count i ≡ true) × ((t.tail == 0) ≡ false)
      → filter_second_pass p (record t { index = i }) ≡ (k_stop, record t { index = i })
  unfolding filter_second_pass
  filter-stop i (dump, behind, tail) = simp (no_skip, dump, behind, tail) refl

  pub filter-all :
      (i : ℕ)
      → is_wanted t p ≡ true
      → filter_second_pass p (record t { tail = 0; index = i })
        ≡ (k_write, record t { tail = 0; index = i })
  unfolding filter_second_pass ok
  filter-all i e =
      let (pid, time) = wanted_tests e in
      let go : (t.non_block && false) ≡ false = ground arith in
      simp (no_skip, go, pid, time, h.held) refl

  module _ (i : ℕ) (some_tail : 0 < t.tail) (fits : i + 1 < 2 ^ 64) (more : i < t.count)
      (e : is_wanted t p ≡ true) where
    pub filter-early :
        i < t.count - t.tail
        → filter_second_pass p (record t { index = i }) ≡ (k_skip, record t { index = i + 1 })
    unfolding filter_second_pass
    filter-early early =
        let (pid, time) = wanted_tests e in
        let ahead : leb t.count i ≡ false = ground arith in
        let tail : (t.tail == 0) ≡ false = ground arith in
        let next : (i + 1) % 2 ^ 64 ≡ i + 1 = omega arith in
        let wait : (ltb t.tail t.count && leb (i + 1) (t.count - t.tail)) ≡ true = ground arith in
        elim (Bool-cases t.non_block) [
          | inl dump ↦ simp (no_skip, ahead, pid, time, h.held, tail, next, wait, dump) refl
          | inr follow ↦ simp (no_skip, pid, time, h.held, tail, next, wait, follow) refl
        ]

    pub filter-late :
        t.count - t.tail ≤ i
        → filter_second_pass p (record t { index = i }) ≡ (
          k_write,
          if t.non_block then record t { index = i + 1 } else record t { tail = 0; index = i + 1 },
        )
    unfolding filter_second_pass ok
    filter-late late =
        let (pid, time) = wanted_tests e in
        let ahead : leb t.count i ≡ false = ground arith in
        let tail : (t.tail == 0) ≡ false = ground arith in
        let next : (i + 1) % 2 ^ 64 ≡ i + 1 = omega arith in
        let sent : (ltb t.tail t.count && leb (i + 1) (t.count - t.tail)) ≡ false = ground arith in
        elim (Bool-cases t.non_block) [
          | inl dump ↦ simp (no_skip, ahead, pid, time, h.held, tail, next, sent, dump) refl
          | inr follow ↦ simp (no_skip, pid, time, h.held, tail, next, sent, follow) refl
        ]
