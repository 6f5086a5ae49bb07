-- ===== src/Liblog/LogPrint/Within.antt =====
-- android_log_processLogBuffer of liblog/logprint.cpp on messages that are not well-formed.
use android_system_logging.Common.{
  ℕ, zero, suc, ◌+◌, ◌-◌, ◌≤◌, ◌<◌, ◌≡◌, ◌⊎◌, refl, sym, ◌∙◌, true, false, Option, none, some, List,
  [], ◌∷◌, ◌++◌, length, length-append, drop, get_elem?, get_elem?-middle, Succeeds, Succeeds-lt,
  length-modify_at, ltb, ◌==◌, if◌then◌else◌, arith, inl, inr, Bool-cases, ==→eq, some-eq-some,
  snoc-append, length-snoc,
}
use android_system_logging.Liblog.LogPrint.Splitting.{
  LoggerEntry, AndroidLogEntry, sizeof_logger_entry, find_text, is_odd, find_odd, put_nul,
  split_odd, split_tag, end_text, process_log_buffer,
}

-- There is a NUL at the place.
abbrev pub NulAt : List ℕ → ℕ → Type 0
NulAt msg i = Succeeds (get_elem? msg i) (λ c. c ≡ 0)

nul-middle :
    (before s : List ℕ) (c : ℕ) → (c == 0) ≡ true → NulAt (before ++ (c ∷ s)) (length before)
nul-middle before s c z = rw (get_elem?-middle before s c) (==→eq c 0 z)

-- The end of the text is not before `start`.
abbrev EndFound : ℕ → List ℕ → Option ℕ → Type 0
EndFound start msg end = (end ≡ none) ⊎ ((k : ℕ) × (end ≡ some k) × (start ≤ k) × NulAt msg k)

abbrev Found : ℕ → List ℕ → Option ℕ × Option ℕ → Type 0
Found from msg (start, end) =
    ((start ≡ none) × (end ≡ none))
    ⊎ ((j : ℕ) × (start ≡ some (suc j)) × (from ≤ j) × NulAt msg j × EndFound (suc j) msg end)

find_text-end :
    (start : ℕ) (before s : List ℕ)
    → start ≤ length before
    → ((find_text (length before) s (some start)).0 ≡ some start)
      × EndFound start (before ++ s) (find_text (length before) s (some start)).1
unfolding find_text
find_text-end start before [] h = (refl, inl refl)
find_text-end start before (c ∷ s) h = elim (Bool-cases (c == 0)) [
  | inl z ↦ rw z (refl, inr (length before, refl, h, nul-middle before s c z))
  | inr z ↦
      rw (find_text, z)
        (rw (length-snoc before c, snoc-append before c s) at
          (find_text-end start (before ++ (c ∷ [])) s
            (omega (arith, length-append before (c ∷ [])))))
]

find_text-Found :
    (from : ℕ) (before s : List ℕ)
    → from ≤ length before
    → Found from (before ++ s) (find_text (length before) s none)
unfolding find_text
find_text-Found from before [] h = inl (refl, refl)
find_text-Found from before (c ∷ s) h = elim (Bool-cases (c == 0)) [
  | inl z ↦
      let (start, end) =
        rw (length-snoc before c, snoc-append before c s) at
          (find_text-end (suc (length before)) (before ++ (c ∷ [])) s
            (omega (arith, length-append before (c ∷ [])))) in
      rw (find_text, z) (inr (length before, start, h, nul-middle before s c z, end))
  | inr z ↦
      rw (find_text, z)
        (rw (length-snoc before c, snoc-append before c s) at
          (find_text-Found from (before ++ (c ∷ [])) s
            (omega (arith, length-append before (c ∷ [])))))
]

find_odd-lt : (i : ℕ) (s : List ℕ) (k : ℕ) → find_odd i s ≡ some k → (i ≤ k) × (k < i + length s)
unfolding find_odd
find_odd-lt i [] k h = absurd (let c : none ≡ some k = h in cc)
find_odd-lt i (c ∷ s) k h = elim (Bool-cases (is_odd c)) [
  | inl o ↦
      let e : some i ≡ some k = rw (find_odd, o) at h in
      let f = some-eq-some e in (omega arith, omega arith)
  | inr o ↦
      let (a, b) = find_odd-lt (suc i) s k (rw (find_odd, o) at h) in (omega arith, omega arith)
]

put_nul-NulAt : (i : ℕ) (msg : List ℕ) → i < length msg → NulAt (put_nul i msg) i
unfolding put_nul
put_nul-NulAt i [] h = absurd (omega arith)
put_nul-NulAt zero (c ∷ msg) h = refl
put_nul-NulAt (suc i) (c ∷ msg) h = put_nul-NulAt i msg (omega arith)

length-put_nul : (i : ℕ) (msg : List ℕ) → length (put_nul i msg) ≡ length msg
unfolding put_nul
length-put_nul i msg = length-modify_at i (λ c. 0) msg

abbrev text_len : ℕ → ℕ → ℕ
text_len start end = if ltb end start then 0 else end - start

text_len-within :
    (len start end : ℕ) (msg : List ℕ)
    → start ≤ len
    → end < len
    → NulAt msg end
    → (start + text_len start end ≤ len)
      × ((text_len start end ≡ 0) ⊎ NulAt msg (start + text_len start end))
text_len-within len start end msg h k z = elim (Bool-cases (ltb end start)) [
  | inl l ↦ rw l (omega arith, inl refl)
  | inr l ↦ let e : start + (end - start) ≡ end = ground arith in rw l (omega arith, inr (rw e z))
]

-- The tag and the text that an entry has.
abbrev Within : ℕ → List ℕ → ℕ → ℕ → Type 0
Within len msg start end =
    (length msg ≡ len)
    × (start ≤ len)
    × ((j : ℕ) × (1 ≤ j) × NulAt msg j)
    × (start + text_len start end ≤ len)
    × ((text_len start end ≡ 0) ⊎ NulAt msg (start + text_len start end))

-- Where no end is found, the last character is made NUL.
forced-Within :
    (len start : ℕ) (msg : List ℕ)
    → length msg ≡ len
    → 2 ≤ len
    → start ≤ len
    → Within len (put_nul (len - 1) msg) start (len - 1)
forced-Within len start msg e two h =
    let z = put_nul-NulAt (len - 1) msg (omega arith) in
    let (a, b) = text_len-within len start (len - 1) (put_nul (len - 1) msg) h (omega arith) z in
    (length-put_nul (len - 1) msg ∙ e, h, (len - 1, omega arith, z), a, b)

split_odd-le :
    (len : ℕ) (msg : List ℕ) (o : Option ℕ)
    → length msg ≡ len
    → 2 ≤ len
    → ((k : ℕ) → o ≡ some k → k < len)
    → (length (split_odd len msg o).0 ≡ len)
      × ((split_odd len msg o).1 ≤ len)
      × (1 ≤ (split_odd len msg o).1)
unfolding split_odd
split_odd-le len msg none e h f = (e, omega arith, omega arith)
split_odd-le len msg (some i) e h f =
    (length-put_nul i msg ∙ e, omega (arith, f i refl), omega arith)

split-Within :
    (len : ℕ) (msg : List ℕ)
    → len ≡ length msg
    → 3 ≤ len
    → let found = find_text 1 (drop 1 msg) none in
      let split = split_tag len msg found.0 in
      let ended = end_text len split.0 found.1 in Within len ended.0 split.1 ended.1 × (1 ≤ split.1)
unfolding split_tag end_text
split-Within len [] e h = absurd (omega arith)
split-Within len (c ∷ s) e h = elim (find_text-Found 1 (c ∷ []) s (omega arith)) [
  | inl (no_start, no_end) ↦
      let (n, le, one) =
        split_odd-le len (c ∷ s) (find_odd 1 s) (sym e) (omega arith)
          (λ k f. let (a, b) = find_odd-lt 1 s k f in omega arith) in
      rw (no_start, no_end) (forced-Within len _ _ n (omega arith) le, one)
  | inr (j, start, le, nul, inl no_end) ↦
      rw (start, no_end)
        (
          forced-Within len (suc j) (c ∷ s) (sym e) (omega arith)
              (omega (arith, Succeeds-lt _ j (c ∷ s) nul)),
          omega arith,
        )
  | inr (j, start, le, nul, inr (k, end, before, nul_end)) ↦
      let inside = Succeeds-lt _ j (c ∷ s) nul in
      let (a, b) =
        text_len-within len (suc j) k (c ∷ s) (omega arith)
          (omega (arith, Succeeds-lt _ k (c ∷ s) nul_end)) nul_end in
      rw (start, end) ((sym e, omega arith, (j, le, nul), a, b), omega arith)
]

-- Whatever the message is, if it has the length that its header says, three bytes at least, and the
-- header has its size, the entry is accepted; its tag and its text lie in the message, there is a NUL
-- in the message behind the start of the tag, and one right behind the text, unless the text is empty.
pub process_log_buffer-Within :
    (buf : LoggerEntry)
    → buf.len ≡ length buf.msg
    → 3 ≤ buf.len
    → sizeof_logger_entry ≤ buf.hdr_size
    → (e : AndroidLogEntry) × (msg : List ℕ) × (process_log_buffer buf ≡ some (e, msg))
      × (length msg ≡ buf.len)
      × (e.tag + e.tag_len ≤ buf.len)
      × ((j : ℕ) × (e.tag ≤ j) × NulAt msg j)
      × (e.message + e.message_len ≤ buf.len)
      × ((e.message_len ≡ 0) ⊎ NulAt msg (e.message + e.message_len))
unfolding process_log_buffer
process_log_buffer-Within buf len long hdr =
    let found = find_text 1 (drop 1 buf.msg) none in
    let split = split_tag buf.len buf.msg found.0 in
    let ended = end_text buf.len split.0 found.1 in
    let ((e, start, nul, text, end), one) = split-Within buf.len buf.msg len long in
    let enough : ltb buf.len 3 ≡ false = ground arith in
    let sized : ltb buf.hdr_size sizeof_logger_entry ≡ false = ground arith in
    rw (enough, sized) (_, _, refl, e, omega arith, nul, text, end)
