-- ===== src/Logd/Simple/Clearing.antt =====
-- What Clear leaves of a log (logd/SimpleLogBuffer.cpp).
use android_system_logging.Common.{
  ℕ, zero, suc, ◌+◌, ◌-◌, ◌^◌, ◌≤◌, ◌<◌, ◌≡◌, refl, sym, ap, ◌∙◌, true, false, ◌||◌, Option, none,
  List, [], ◌∷◌, length, leb, ◌==◌, arith, inl, inr, Bool-cases, All,
}
use android_system_logging.Logd.Element.{LogBufferElement}
use android_system_logging.Logd.Statistics.Entries.{Names}
use android_system_logging.Logd.Simple.{
  SimpleLogBuffer, Reader, is_other, is_blocked, is_watching, oldest_reader, prune,
}
use android_system_logging.Logd.Simple.Calls.{disconnect, clear_tries, clear}
use android_system_logging.Logd.Simple.Pruning.{prune_lem}
use android_system_logging.Logd.Simple.Taking.{free, candidates, without, min}
use android_system_logging.Logd.Simple.Invariant.{
  IsSimpleLogBuffer, prune-IsSimpleLogBuffer, disconnect-IsSimpleLogBuffer,
}

module _ (id uid : ℕ) where
  free-le :
      (o : Option (ℕ × Reader)) (es : List LogBufferElement)
      → (free id uid o es ≤ candidates id uid es) × (candidates id uid es ≤ length es)
  unfolding free candidates
  free-le o [] = (omega arith, omega arith)
  free-le o (e ∷ es) =
      let (h, l) = free-le o es in
      elim (Bool-cases (is_other id uid e)) [
        | inl f ↦ rw f (h, omega arith)
        | inr f ↦ elim (Bool-cases (is_blocked o e)) [
          | inl g ↦ rw (f, g) (omega arith, omega arith)
          | inr g ↦ rw (f, g) (omega arith, omega arith)
        ]
      ]

  candidates-without :
      (es : List LogBufferElement) (n : ℕ)
      → n ≤ candidates id uid es
      → candidates id uid (without id uid n es) + n ≡ candidates id uid es
  unfolding candidates without
  candidates-without es zero h = omega arith
  candidates-without [] (suc n) h = absurd (omega arith)
  candidates-without (e ∷ es) (suc n) h = elim (Bool-cases (is_other id uid e)) [
    | inl f ↦ rw (f, f) (candidates-without es (suc n) (rw f at h))
    | inr f ↦
        let c : suc n ≤ suc (candidates id uid es) = rw f at h in
        rw f (omega (arith, candidates-without es n (omega arith)))
  ]

  length-without : (es : List LogBufferElement) (n : ℕ) → length (without id uid n es) ≤ length es
  unfolding without
  length-without es zero = omega arith
  length-without [] (suc n) = omega arith
  length-without (e ∷ es) (suc n) = elim (Bool-cases (is_other id uid e)) [
    | inl f ↦ rw f (omega (arith, length-without es (suc n)))
    | inr f ↦ rw f (omega (arith, length-without es n))
  ]

min-large : (m n : ℕ) → n ≤ m → min m n ≡ n
unfolding min
min-large zero n h = omega arith
min-large (suc m) zero h = refl
min-large (suc m) (suc n) h = ap suc (min-large m n (omega arith))

-- The buffer is right, and the memory holds no more elements than ULONG_MAX.
pub record Fits (b : SimpleLogBuffer) : Type 0 where
  pub simple : IsSimpleLogBuffer b
  pub short : length b.logs < 2 ^ 64 - 1

module _ (names : Names) (id uid : ℕ) where
  prune-Fits :
      (rows : ℕ) (b : SimpleLogBuffer)
      → 0 < rows
      → rows < 2 ^ 64
      → Fits b
      → Fits (prune names id rows uid b).1
  prune-Fits rows b p w v =
      let (l, r) = prune_lem names id rows uid b v.simple.cached p w in
      record {
        simple = prune-IsSimpleLogBuffer names id rows uid b v.simple;
        short = rw l (
            omega (
              arith,
              v.short,
              length-without id uid b.logs
                  (min rows (free id uid (oldest_reader id 0 none b.readers) b.logs)),
            ));
      }

  prune-empties :
      (b : SimpleLogBuffer)
      → Fits b
      → (prune names id (2 ^ 64 - 1) uid b).0 ≡ true
      → candidates id uid (prune names id (2 ^ 64 - 1) uid b).1.logs ≡ 0
  prune-empties b v h =
      let o = oldest_reader id 0 none b.readers in
      let (l, r) =
        prune_lem names id (2 ^ 64 - 1) uid b v.simple.cached (omega arith) (omega arith) in
      let (f, c) = free-le id uid o b.logs in
      let short = v.short in
      let done : (leb (2 ^ 64 - 1) (free id uid o b.logs)
            || free id uid o b.logs == candidates id uid b.logs)
          ≡ true =
        sym r ∙ h in
      let whole : free id uid o b.logs ≡ candidates id uid b.logs = ground arith in
      rw (l, min-large (2 ^ 64 - 1) (free id uid o b.logs) (omega arith))
        (omega (arith, whole, candidates-without id uid b.logs (free id uid o b.logs) f))

  disconnect-Fits : (b : SimpleLogBuffer) → Fits b → Fits (disconnect names id b)
  unfolding disconnect
  disconnect-Fits b v = record {
    simple = disconnect-IsSimpleLogBuffer names id b v.simple;
    short = v.short;
  }

  clear_tries-empties :
      (meanwhile : SimpleLogBuffer → SimpleLogBuffer) (tries : ℕ) (b : SimpleLogBuffer)
      → ((c : SimpleLogBuffer) → Fits c → Fits (meanwhile c))
      → Fits b
      → (clear_tries names meanwhile tries id uid b).0 ≡ true
      → candidates id uid (clear_tries names meanwhile tries id uid b).1.logs ≡ 0
  unfolding clear_tries
  clear_tries-empties meanwhile zero b f v h =
      let p = prune-Fits 1 b (omega arith) (omega arith) v in
      elim (Bool-cases (prune names id 1 uid b).0) [
        | inl e ↦ rw (clear_tries, e) (prune-empties _ p (rw (clear_tries, e) at h))
        | inr e ↦
            rw (clear_tries, e) (prune-empties _ (disconnect-Fits _ p) (rw (clear_tries, e) at h))
      ]
  clear_tries-empties meanwhile (suc tries) b f v h =
      let p = prune-Fits (2 ^ 64 - 1) b (omega arith) (omega arith) v in
      elim (Bool-cases (prune names id (2 ^ 64 - 1) uid b).0) [
        | inl e ↦ rw (clear_tries, e) (prune-empties b v e)
        | inr e ↦
            rw (clear_tries, e)
              (clear_tries-empties meanwhile tries _ f (f _ p) (rw (clear_tries, e) at h))
      ]

  -- If Clear returns true, no element of the log is left, or none of the user, where it is not
  -- root. The buffer is right and holds fewer elements than ULONG_MAX, and the other threads keep it
  -- so while Clear sleeps.
  pub clear-empties :
      (meanwhile : SimpleLogBuffer → SimpleLogBuffer) (b : SimpleLogBuffer)
      → ((c : SimpleLogBuffer) → Fits c → Fits (meanwhile c))
      → Fits b
      → (clear names meanwhile id uid b).0 ≡ true
      → candidates id uid (clear names meanwhile id uid b).1.logs ≡ 0
  unfolding clear
  clear-empties meanwhile b f v h = clear_tries-empties meanwhile 3 b f v h

  unwatched-oldest :
      (rs : List Reader) (k : ℕ)
      → All (λ r. is_watching id r ≡ false) rs
      → oldest_reader id k none rs ≡ none
  unfolding oldest_reader
  unwatched-oldest [] k a = refl
  unwatched-oldest (r ∷ rs) k a = rw (oldest_reader, a.0) (unwatched-oldest rs (suc k) a.1)

  free-none : (es : List LogBufferElement) → free id uid none es ≡ candidates id uid es
  unfolding free candidates is_blocked
  free-none [] = refl
  free-none (e ∷ es) = elim (Bool-cases (is_other id uid e)) [
    | inl f ↦ rw f (free-none es)
    | inr f ↦ rw f (ap suc (free-none es))
  ]

  -- Where no reader is watching the log, Clear returns true, and leaves none of the elements that it
  -- is to take. The buffer is right and holds fewer elements than ULONG_MAX.
  pub clear-unwatched :
      (meanwhile : SimpleLogBuffer → SimpleLogBuffer) (b : SimpleLogBuffer)
      → Fits b
      → All (λ r. is_watching id r ≡ false) b.readers
      → ((clear names meanwhile id uid b).0 ≡ true)
        × (candidates id uid (clear names meanwhile id uid b).1.logs ≡ 0)
  unfolding clear clear_tries
  clear-unwatched meanwhile b v a =
      let (l, r) =
        prune_lem names id (2 ^ 64 - 1) uid b v.simple.cached (omega arith) (omega arith) in
      let q : (prune names id (2 ^ 64 - 1) uid b).0 ≡ true =
        r ∙ (rw (unwatched-oldest b.readers 0 a, free-none b.logs) (ground arith)) in
      rw (clear_tries, q) (refl, prune-empties b v q)
