-- ===== src/Logd/Simple/Readers.antt =====
-- What SimpleLogBuffer::Prune leaves to the readers and to the other logs (logd/SimpleLogBuffer.cpp).
use android_system_logging.Common.{
  ℕ, zero, suc, ◌^◌, ◌≤◌, ◌<◌, ◌≡◌, refl, ap, ◌∙◌, Bool, true, false, ◌&&◌, ◌||◌, Option, none,
  some, List, [], ◌∷◌, ◌++◌, filter, not, ltb, leb, ◌==◌, arith, inl, inr, Bool-cases,
}
use android_system_logging.Logd.Element.{LogBufferElement}
use android_system_logging.Logd.Statistics.Entries.{Names}
use android_system_logging.Logd.Simple.{
  SimpleLogBuffer, Reader, is_watching, is_other, is_blocked, older_reader, oldest_reader, prune,
}
use android_system_logging.Logd.Simple.Oldest.{IsCached}
use android_system_logging.Logd.Simple.Pruning.{prune_lem}
use android_system_logging.Logd.Simple.Taking.{free, without, min}

-- The reader that Prune minds starts no later.
NoLater : Option (ℕ × Reader) → ℕ → Type 0
NoLater none start = ⊥
NoLater (some (k, o)) start = o.start ≤ start

older_reader-NoLater :
    (k : ℕ) (r : Reader) (o : Option (ℕ × Reader)) → NoLater (older_reader k r o) r.start
unfolding NoLater older_reader
older_reader-NoLater k r none = omega arith
older_reader-NoLater k r (some (j, o)) =
    elim (Bool-cases (ltb r.start o.start || o.start == r.start && r.has_deadline)) [
      | inl e ↦ rw e (omega arith)
      | inr e ↦ rw e (ground arith)
    ]

older_reader-keeps :
    (k : ℕ) (r : Reader) (o : Option (ℕ × Reader)) (start : ℕ)
    → NoLater o start
    → NoLater (older_reader k r o) start
unfolding NoLater older_reader
older_reader-keeps k r none start h = absurd h
older_reader-keeps k r (some (j, o)) start h =
    elim (Bool-cases (ltb r.start o.start || o.start == r.start && r.has_deadline)) [
      | inl e ↦ rw e (ground arith)
      | inr e ↦ rw e h
    ]

oldest_reader-keeps :
    (id : ℕ) (rs : List Reader) (k : ℕ) (o : Option (ℕ × Reader)) (start : ℕ)
    → NoLater o start
    → NoLater (oldest_reader id k o rs) start
unfolding oldest_reader
oldest_reader-keeps id [] k o start h = h
oldest_reader-keeps id (r ∷ rs) k o start h = elim (Bool-cases (is_watching id r)) [
  | inl e ↦ rw e (
      oldest_reader-keeps id rs (suc k) (older_reader k r o) start
        (older_reader-keeps k r o start h))
  | inr e ↦ rw e (oldest_reader-keeps id rs (suc k) o start h)
]

oldest_reader-NoLater :
    (id : ℕ) (qs rs : List Reader) (r : Reader) (k : ℕ) (o : Option (ℕ × Reader))
    → is_watching id r ≡ true
    → NoLater (oldest_reader id k o (qs ++ (r ∷ rs))) r.start
unfolding oldest_reader
oldest_reader-NoLater id [] rs r k o w =
    rw (oldest_reader, w)
      (oldest_reader-keeps id rs (suc k) (older_reader k r o) r.start (older_reader-NoLater k r o))
oldest_reader-NoLater id (q ∷ qs) rs r k o w = oldest_reader-NoLater id qs rs r (suc k) _ w

-- What Prune takes, the reader has read.
is_blocked-start :
    (o : Option (ℕ × Reader)) (start : ℕ) (e : LogBufferElement)
    → NoLater o start
    → is_blocked o e ≡ false
    → leb start e.sequence ≡ false
unfolding NoLater is_blocked
is_blocked-start none start e h f = absurd h
is_blocked-start (some (k, r)) start e h f = ground arith

module _ (id uid : ℕ) (o : Option (ℕ × Reader)) where
  filter-without :
      (p : LogBufferElement → Bool) (es : List LogBufferElement) (n : ℕ)
      → ((e : LogBufferElement) → is_other id uid e ≡ false → is_blocked o e ≡ false → p e ≡ false)
      → n ≤ free id uid o es
      → filter p (without id uid n es) ≡ filter p es
  unfolding free without
  filter-without p es zero f h = refl
  filter-without p [] (suc n) f h = refl
  filter-without p (e ∷ es) (suc n) f h = elim (Bool-cases (is_other id uid e)) [
    | inl g ↦ rw g (rw (filter-without p es (suc n) f (rw g at h)) refl)
    | inr g ↦ elim (Bool-cases (is_blocked o e)) [
      | inl l ↦ absurd (let c : suc n ≤ 0 = rw (g, l) at h in omega arith)
      | inr l ↦
          let c : suc n ≤ suc (free id uid o es) = rw (g, l) at h in
          rw (g, f e g l) (filter-without p es n f (omega arith))
    ]
  ]

min-le : (m n : ℕ) → min m n ≤ n
unfolding min
min-le zero n = omega arith
min-le (suc m) zero = omega arith
min-le (suc m) (suc n) = omega (arith, min-le m n)

-- Prune leaves what a reader of the log has still to read: every element from its start on stays,
-- in the same order. It is for one row or more, where the iterators to the oldest elements are right.
pub prune-readers :
    (names : Names) (id rows uid : ℕ) (b : SimpleLogBuffer) (qs rs : List Reader) (r : Reader)
    → IsCached b
    → 0 < rows
    → rows < 2 ^ 64
    → b.readers ≡ qs ++ (r ∷ rs)
    → is_watching id r ≡ true
    → filter (λ e. leb r.start e.sequence) (prune names id rows uid b).1.logs
      ≡ filter (λ e. leb r.start e.sequence) b.logs
prune-readers names id rows uid b qs rs r v p w i t =
    let o = oldest_reader id 0 none b.readers in
    let later : NoLater o r.start = rw i (oldest_reader-NoLater id qs rs r 0 none t) in
    ap (filter (λ (e : LogBufferElement). leb r.start e.sequence))
      ((prune_lem names id rows uid b v p w).0)
    ∙ filter-without id uid o (λ e. leb r.start e.sequence) b.logs (min rows (free id uid o b.logs))
        (λ e g l. is_blocked-start o r.start e later l) (min-le rows (free id uid o b.logs))

-- Prune takes no element of another log, and none of another user if its caller is not root; these
-- stay in the same order. It is for one row or more, where the iterators to the oldest elements are
-- right.
pub prune-others :
    (names : Names) (id rows uid : ℕ) (b : SimpleLogBuffer)
    → IsCached b
    → 0 < rows
    → rows < 2 ^ 64
    → (filter (λ e. not (e.log_id == id)) (prune names id rows uid b).1.logs
        ≡ filter (λ e. not (e.log_id == id)) b.logs)
      × (filter (λ e. not (uid == 0) && not (e.uid == uid)) (prune names id rows uid b).1.logs
          ≡ filter (λ e. not (uid == 0) && not (e.uid == uid)) b.logs)
unfolding is_other
prune-others names id rows uid b v p w =
    let o = oldest_reader id 0 none b.readers in
    let stays =
      λ (q : LogBufferElement → Bool)
          (f : (e : LogBufferElement) → is_other id uid e ≡ false → q e ≡ false).
        ap (filter q) ((prune_lem names id rows uid b v p w).0)
        ∙ filter-without id uid o q b.logs (min rows (free id uid o b.logs)) (λ e g l. f e g)
            (min-le rows (free id uid o b.logs)) in
    (stays _ (λ e g. ground arith), stays _ (λ e g. ground arith))
