-- ===== src/Logd/Simple/Sending.antt =====
-- What a reader is sent by FlushTo of logd/SimpleLogBuffer.cpp, called again and again.
use android_system_logging.Common.{
  ℕ, suc, ◌+◌, ◌%◌, ◌^◌, ◌≤◌, ◌<◌, ◌≡◌, refl, sym, ap, ◌∙◌, true, false, List, [], ◌∷◌, ◌++◌,
  All-front, All-middle, leb, arith, inl, inr, Bool-cases,
}
use android_system_logging.Logd.Element.{LogBufferElement}
use android_system_logging.Logd.Simple.Flush.{
  ChattyFlushToState, Client, from_start, flush_loop, flush_to,
}
use android_system_logging.Logd.Simple.Resuming.{
  Above, Below, Ascending, Below-weaken, from_sequence, from_sequence-append, from_sequence-Above,
  from_sequence-Below, from_start-from_sequence, last_sequence, started, GoesOn, flush_loop-append,
}

last_sequence-Above :
    (n : ℕ) (es : List LogBufferElement) → Above n es → Ascending es → n ≤ last_sequence n es
unfolding last_sequence Ascending
last_sequence-Above n [] a h = omega arith
last_sequence-Above n (e ∷ es) a h = omega (arith, a.0, last_sequence-Above e.sequence es h.0 h.1)

Ascending-Below :
    (n : ℕ) (es : List LogBufferElement) → Ascending es → Below (suc (last_sequence n es)) es
unfolding last_sequence Ascending
Ascending-Below n [] h = tt
Ascending-Below n (e ∷ es) h =
    (omega (arith, last_sequence-Above e.sequence es h.0 h.1), Ascending-Below e.sequence es h.1)

Ascending-append :
    (xs ys : List LogBufferElement) → Ascending (xs ++ ys) → Ascending xs × Ascending ys
unfolding Ascending
Ascending-append [] ys h = (tt, h)
Ascending-append (e ∷ xs) ys h =
    let (p, q) = Ascending-append xs ys h.1 in ((All-front _ xs ys h.0, p), q)

last_sequence-append :
    (n : ℕ) (xs ys : List LogBufferElement) (y : LogBufferElement)
    → n < y.sequence
    → Ascending (xs ++ (y ∷ ys))
    → last_sequence n xs < y.sequence
unfolding last_sequence Ascending
last_sequence-append n [] ys y l h = l
last_sequence-append n (e ∷ xs) ys y l h =
    last_sequence-append e.sequence xs ys y (All-middle _ xs ys y h.0) h.1

-- The last of those from a number on is the last of all.
last_sequence-from_sequence :
    (k n m : ℕ) (es more : List LogBufferElement) (a : LogBufferElement)
    → Ascending es
    → from_sequence k es ≡ a ∷ more
    → last_sequence n (a ∷ more) ≡ last_sequence m es
unfolding last_sequence Ascending from_sequence
last_sequence-from_sequence k n m [] more a h e = absurd cc
last_sequence-from_sequence k n m (x ∷ es) more a h e = elim (Bool-cases (leb k x.sequence)) [
  | inl f ↦
      let same : x ∷ from_sequence k es ≡ a ∷ more = rw f at e in
      ap (last_sequence n)
        (sym (rw (from_sequence-Above k x.sequence es (ground arith) h.0) at same))
  | inr f ↦ last_sequence-from_sequence k n x.sequence es more a h.1 (rw f at e)
]

-- Something is found from `k` on, so all that comes later is from `k` on.
from_sequence-later :
    (k : ℕ) (es ys more : List LogBufferElement) (y a : LogBufferElement)
    → Ascending (es ++ (y ∷ ys))
    → from_sequence k es ≡ a ∷ more
    → k ≤ y.sequence
unfolding Ascending from_sequence
from_sequence-later k [] ys more y a h e = absurd cc
from_sequence-later k (x ∷ es) ys more y a h e = elim (Bool-cases (leb k x.sequence)) [
  | inl f ↦ let l = All-middle _ es ys y h.0 in ground arith
  | inr f ↦ from_sequence-later k es ys more y a h.1 (rw f at e)
]

from_sequence-cons :
    (k : ℕ) (y : LogBufferElement) (ys : List LogBufferElement)
    → k ≤ y.sequence
    → Ascending (y ∷ ys)
    → from_sequence k (y ∷ ys) ≡ y ∷ ys
unfolding from_sequence Ascending
from_sequence-cons k y ys l h =
    let here : leb k y.sequence ≡ true = ground arith in
    rw here (ap (◌∷◌ y) (from_sequence-Above k y.sequence ys (omega arith) h.0))

from_sequence-after :
    (k : ℕ) (y : LogBufferElement) (ys : List LogBufferElement)
    → k ≡ y.sequence + 1
    → Ascending (y ∷ ys)
    → from_sequence k (y ∷ ys) ≡ ys
unfolding from_sequence Ascending
from_sequence-after k y ys l h =
    let here : leb k y.sequence ≡ false = ground arith in
    rw here (from_sequence-Above k y.sequence ys (omega arith) h.0)

Ascending-before :
    (xs ys : List LogBufferElement) (y : LogBufferElement)
    → Ascending (xs ++ (y ∷ ys))
    → Below y.sequence xs
unfolding Ascending
Ascending-before [] ys y h = tt
Ascending-before (e ∷ xs) ys y h = (All-middle _ xs ys y h.0, Ascending-before xs ys y h.1)

module _ {S : Type 0} (client : Client S) where
  flush_loop-started :
      (y : LogBufferElement) (ys : List LogBufferElement) (k : ℕ) (t : ChattyFlushToState) (s : S)
      → flush_loop client (y ∷ ys) (started k t) s ≡ flush_loop client (y ∷ ys) t s
  unfolding flush_loop
  flush_loop-started y ys k t s = refl

  -- Flushing now and again when more elements have been logged sends the same, in the same order,
  -- as one flush then: nothing is lost, and nothing is sent twice. The sequence numbers go up from
  -- 1, the first flush finds an element and succeeds, no filter stops it, and there is a new element.
  pub flush_to-again :
      (xs ys more : List LogBufferElement) (y a : LogBufferElement) (t t' : ChattyFlushToState)
      (s s' : S)
      → Ascending (xs ++ (y ∷ ys))
      → Above 0 (xs ++ (y ∷ ys))
      → y.sequence < 2 ^ 64
      → GoesOn client
      → from_start t.start xs ≡ a ∷ more
      → flush_to client xs t s ≡ (true, t', s')
      → flush_to client (xs ++ (y ∷ ys)) t' s' ≡ flush_to client (xs ++ (y ∷ ys)) t s
  unfolding flush_to
  flush_to-again xs ys more y a t t' s s' h p w g e r =
      let (hx, hy) = Ascending-append xs (y ∷ ys) h in
      let found : from_sequence t.start xs ≡ a ∷ more =
        sym (from_start-from_sequence t.start xs hx (All-front _ xs (y ∷ ys) p)) ∙ e in
      let (u, is, last, run) =
        flush_loop-append client (a ∷ more) (y ∷ ys) t t' s s' g (rw e at r) in
      let lastx : last_sequence t.start (a ∷ more) ≡ last_sequence 0 xs =
        last_sequence-from_sequence t.start t.start 0 xs more a hx found in
      let before : last_sequence 0 xs < y.sequence =
        last_sequence-append 0 xs ys y (All-middle _ xs ys y p) h in
      let start : t'.start ≡ suc (last_sequence 0 xs) =
        ap (λ (v : ChattyFlushToState). v.start) is ∙ omega arith in
      let lists = λ (k : ℕ).
        from_start-from_sequence k (xs ++ (y ∷ ys)) h p ∙ from_sequence-append k xs (y ∷ ys) in
      let once : from_start t.start (xs ++ (y ∷ ys)) ≡ (a ∷ more) ++ (y ∷ ys) =
        lists t.start
        ∙ rw
            (
              found,
              from_sequence-cons t.start y ys (from_sequence-later t.start xs ys more y a h found)
                  hy,
            )
            refl in
      let again : from_start (suc (last_sequence 0 xs)) (xs ++ (y ∷ ys)) ≡ y ∷ ys =
        lists (suc (last_sequence 0 xs))
        ∙ rw
            (
              from_sequence-Below (suc (last_sequence 0 xs)) xs (Ascending-Below 0 xs hx),
              from_sequence-cons (suc (last_sequence 0 xs)) y ys before hy,
            )
            refl in
      ap (λ (k : ℕ). flush_loop client (from_start k (xs ++ (y ∷ ys))) t' s') start
      ∙ ap (λ (l : List LogBufferElement). flush_loop client l t' s') again
      ∙ ap (λ (v : ChattyFlushToState). flush_loop client (y ∷ ys) v s') is
      ∙ flush_loop-started y ys _ u s'
      ∙ sym run
      ∙ ap (λ (l : List LogBufferElement). flush_loop client l t s) (sym once)

  -- A flush that finds nothing new moves the start on, past the sequence number that comes next:
  -- of what is logged after it, the element with this number is found by no later flush. The sequence
  -- numbers go up from 1, and all of the elements were sent before.
  pub flush_to-idle :
      (xs ys : List LogBufferElement) (y : LogBufferElement) (t : ChattyFlushToState) (s : S)
      → Ascending (xs ++ (y ∷ ys))
      → Above 0 (xs ++ (y ∷ ys))
      → y.sequence + 1 < 2 ^ 64
      → t.start ≡ y.sequence
      → (flush_to client xs t s ≡ (true, started (t.start + 1) t, s))
        × (from_start (t.start + 1) (xs ++ (y ∷ ys)) ≡ ys)
  unfolding flush_to flush_loop
  flush_to-idle xs ys y t s h p w e =
      let (hx, hy) = Ascending-append xs (y ∷ ys) h in
      let older : Below y.sequence xs = Ascending-before xs ys y h in
      let nothing : from_start t.start xs ≡ [] =
        from_start-from_sequence t.start xs hx (All-front _ xs (y ∷ ys) p)
        ∙ from_sequence-Below t.start xs (rw e older) in
      let next : (t.start + 1) % 2 ^ 64 ≡ t.start + 1 = omega (arith, e) in
      (
        rw (nothing, flush_loop, next) refl,
        from_start-from_sequence (t.start + 1) (xs ++ (y ∷ ys)) h p
            ∙ from_sequence-append (t.start + 1) xs (y ∷ ys)
            ∙ rw
                (from_sequence-Below (t.start + 1) xs
                  (Below-weaken y.sequence _ xs (omega (arith, e)) older))
                (from_sequence-after (t.start + 1) y ys (omega (arith, e)) hy),
      )
