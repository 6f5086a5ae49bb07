-- ===== src/Logd/Simple/Resuming.antt =====
-- FlushTo of logd/SimpleLogBuffer.cpp, one call after another.
use android_system_logging.Common.{
  ℕ, suc, ◌+◌, ◌%◌, ◌^◌, ◌≤◌, ◌<◌, ◌≡◌, ◌≢◌, ◌⊎◌, refl, sym, ap, ◌∙◌, Bool, true, false, ◌&&◌, not,
  List, [], ◌∷◌, ◌++◌, append_assoc, append-nil, filter, All, All-append, ltb, leb, ◌==◌, arith,
  inl, inr, Bool-cases,
}
use android_system_logging.Logd.Element.{LogBufferElement, dropped_count}
use android_system_logging.Logd.ReaderThread.{FilterResult, k_skip, k_stop, k_write}
use android_system_logging.Logd.Simple.Flush.{
  ChattyFlushToState, Client, search_back, backwards, from_start, ask, may_see, with_tid,
  flush_loop,
}

-- The sequence numbers go up, from one on.
abbrev pub Above : ℕ → List LogBufferElement → Type 0
Above n = All (λ e. n < e.sequence)

abbrev pub Below : ℕ → List LogBufferElement → Type 0
Below n = All (λ e. e.sequence < n)

unfoldable pub Ascending : List LogBufferElement → Type 0
Ascending [] = Unit {0}
Ascending (e ∷ es) = Above e.sequence es × Ascending es

unfoldable Descending : List LogBufferElement → Type 0
Descending [] = Unit {0}
Descending (e ∷ es) = Below e.sequence es × Descending es

unfoldable pub from_sequence : ℕ → List LogBufferElement → List LogBufferElement
from_sequence k es = filter (λ e. leb k e.sequence) es

pub from_sequence-append :
    (k : ℕ) (es fs : List LogBufferElement)
    → from_sequence k (es ++ fs) ≡ from_sequence k es ++ from_sequence k fs
unfolding from_sequence
from_sequence-append k [] fs = refl
from_sequence-append k (e ∷ es) fs = elim (Bool-cases (leb k e.sequence)) [
  | inl h ↦ rw h (ap (◌∷◌ e) (from_sequence-append k es fs))
  | inr h ↦ rw h (from_sequence-append k es fs)
]

pub from_sequence-Below :
    (k : ℕ) (es : List LogBufferElement) → Below k es → from_sequence k es ≡ []
unfolding from_sequence
from_sequence-Below k [] h = refl
from_sequence-Below k (e ∷ es) h =
    let later : leb k e.sequence ≡ false = ground (arith, h.0) in
    rw later (from_sequence-Below k es h.1)

-- All of them are from `n` on, where that is no more than one above `m`.
pub from_sequence-Above :
    (n m : ℕ) (es : List LogBufferElement) → n ≤ suc m → Above m es → from_sequence n es ≡ es
unfolding from_sequence
from_sequence-Above n m [] l h = refl
from_sequence-Above n m (e ∷ es) l h =
    let later : leb n e.sequence ≡ true = ground (arith, h.0) in
    rw later (ap (◌∷◌ e) (from_sequence-Above n m es l h.1))

pub Below-weaken : (m n : ℕ) (es : List LogBufferElement) → m ≤ n → Below m es → Below n es
Below-weaken m n [] l h = tt
Below-weaken m n (e ∷ es) l h = (omega (arith, h.0), Below-weaken m n es l h.1)

All-backwards :
    (P : LogBufferElement → Type 0) (es : List LogBufferElement) → All P es → All P (backwards es)
All-backwards P [] h = tt
All-backwards P (e ∷ es) h = All-append P (backwards es) (e ∷ []) (All-backwards P es h.1) (h.0, tt)

search_back_lem :
    (start : ℕ) (rs behind : List LogBufferElement)
    → Descending rs
    → search_back start rs behind ≡ from_sequence start (backwards rs) ++ behind
unfolding search_back Descending from_sequence
search_back_lem start [] behind h = refl
search_back_lem start (e ∷ es) behind h =
    rw (from_sequence-append start (backwards es) (e ∷ []))
      (elim (Bool-cases (e.sequence == start)) [
        | inl f ↦
            let here : leb start e.sequence ≡ true = ground arith in
            rw
              (
                f,
                here,
                from_sequence-Below start (backwards es)
                    (All-backwards _ es (Below-weaken e.sequence start es (ground arith) h.0)),
              )
              refl
        | inr f ↦ elim (Bool-cases (ltb e.sequence start)) [
          | inl g ↦
              let here : leb start e.sequence ≡ false = ground arith in
              rw
                (
                  f,
                  g,
                  here,
                  from_sequence-Below start (backwards es)
                      (All-backwards _ es (Below-weaken e.sequence start es (ground arith) h.0)),
                )
                refl
          | inr g ↦
              let here : leb start e.sequence ≡ true = ground arith in
              rw (f, g, here, append_assoc) (search_back_lem start es (e ∷ behind) h.1)
        ]
      ])

backwards-append :
    (es : List LogBufferElement) (e : LogBufferElement)
    → backwards (es ++ (e ∷ [])) ≡ e ∷ backwards es
backwards-append [] e = refl
backwards-append (x ∷ es) e =
    ap (λ (l : List LogBufferElement). l ++ (x ∷ [])) (backwards-append es e)

backwards-backwards : (es : List LogBufferElement) → backwards (backwards es) ≡ es
backwards-backwards [] = refl
backwards-backwards (e ∷ es) =
    backwards-append (backwards es) e ∙ ap (◌∷◌ e) (backwards-backwards es)

Descending-append :
    (es : List LogBufferElement) (e : LogBufferElement)
    → Descending es
    → Above e.sequence es
    → Descending (es ++ (e ∷ []))
unfolding Descending
Descending-append [] e h a = (tt, tt)
Descending-append (x ∷ es) e h a =
    (All-append _ es (e ∷ []) h.0 (a.0, tt), Descending-append es e h.1 a.1)

Ascending-Descending : (es : List LogBufferElement) → Ascending es → Descending (backwards es)
unfolding Ascending Descending
Ascending-Descending [] h = tt
Ascending-Descending (e ∷ es) h =
    Descending-append (backwards es) e (Ascending-Descending es h.1) (All-backwards _ es h.0)

-- The search from the end of the list finds the first element from the start on, and all of them
-- are after it, where the sequence numbers go up from 1.
pub from_start-from_sequence :
    (start : ℕ) (logs : List LogBufferElement)
    → Ascending logs
    → Above 0 logs
    → from_start start logs ≡ from_sequence start logs
unfolding from_start
from_start-from_sequence start logs h a = elim (Bool-cases (leb start 1)) [
  | inl e ↦ rw e (sym (from_sequence-Above start 0 logs (ground arith) a))
  | inr e ↦ rw e (
      search_back_lem start (backwards logs) [] (Ascending-Descending logs h)
      ∙ append-nil _
      ∙ ap (from_sequence start) (backwards-backwards logs))
]

result-cases : (r : FilterResult) → (r ≡ k_skip) ⊎ (r ≡ k_stop) ⊎ (r ≡ k_write)
result-cases k_skip = inl refl
result-cases k_stop = inr (inl refl)
result-cases k_write = inr (inr refl)

unfoldable pub last_sequence : ℕ → List LogBufferElement → ℕ
last_sequence n [] = n
last_sequence n (e ∷ es) = last_sequence e.sequence es

abbrev pub started : ℕ → ChattyFlushToState → ChattyFlushToState
started start t = record t { start = start }

Parts : Type 0 → Type 0
Parts S = Bool × ChattyFlushToState × S

module _ {S : Type 0} (client : Client S) where
  -- The filter lets every element through or skips it.
  unfoldable pub GoesOn : Type 0
  GoesOn = (e : LogBufferElement) (s : S) → (ask client client.filter e s).0 ≢ k_stop

  -- The loop goes on behind an element, or a write fails there.
  flush_loop-step :
      (e : LogBufferElement) (t : ChattyFlushToState) (s : S)
      → GoesOn
      → ((u : ChattyFlushToState) × (s1 : S) × (u.start ≡ e.sequence)
          × ((es : List LogBufferElement)
              → flush_loop client (e ∷ es) t s ≡ flush_loop client es u s1))
        ⊎ ((es : List LogBufferElement) → (flush_loop client (e ∷ es) t s).0 ≡ false)
  unfolding flush_loop GoesOn with_tid
  flush_loop-step e t s g =
      let here = started e.sequence t in
      let s1 = (ask client client.filter e s).1 in
      elim (Bool-cases (may_see client here e)) [
        | inr f ↦ inl (here, s, refl, λ es. rw (flush_loop, f) refl)
        | inl f ↦ elim (result-cases (ask client client.filter e s).0) [
          | inl r ↦ inl (here, s1, refl, λ es. rw (flush_loop, f, r) refl)
          | inr (inl r) ↦ absurd (g e s r)
          | inr (inr r) ↦ elim (Bool-cases (t.drop_chatty_messages && not (dropped_count e == 0))) [
            | inl d ↦ inl (here, s1, refl, λ es. rw (flush_loop, f, r, d) refl)
            | inr d ↦
                let same_tid = t.last_tid e.log_id == e.tid in
                elim (Bool-cases (client.write e same_tid s1).0) [
                  | inl w ↦ inl (
                    with_tid client same_tid e here,
                    (client.write e same_tid s1).1,
                    refl,
                    λ es. rw (flush_loop, f, r, d, w) refl,
                  )
                  | inr w ↦ inr (λ es. rw (flush_loop, f, r, d, w) refl)
                ]
          ]
        ]
      ]

  -- A loop that succeeds can be cut in two.
  pub flush_loop-append :
      (xs ys : List LogBufferElement) (t t' : ChattyFlushToState) (s s' : S)
      → GoesOn
      → flush_loop client xs t s ≡ (true, t', s')
      → (u : ChattyFlushToState) × (t' ≡ started ((u.start + 1) % 2 ^ 64) u)
        × (u.start ≡ last_sequence t.start xs)
        × (flush_loop client (xs ++ ys) t s ≡ flush_loop client ys u s')
  unfolding flush_loop last_sequence Parts
  flush_loop-append [] ys t t' s s' g h = (
    t,
    sym (ap (λ (r : Parts S). r.1) h),
    refl,
    ap (flush_loop client ys t) (ap (λ (r : Parts S). r.2) h),
  )
  flush_loop-append (e ∷ xs) ys t t' s s' g h = elim (flush_loop-step e t s g) [
    | inl (u, s1, start, k) ↦
        let (v, p, l, q) = flush_loop-append xs ys u t' s1 s' g (sym (k xs) ∙ h) in
        (v, p, l ∙ ap (λ (n : ℕ). last_sequence n xs) start, k (xs ++ ys) ∙ q)
    | inr k ↦ absurd (let c : false ≡ true = sym (k xs) ∙ ap (λ (r : Parts S). r.0) h in cc)
  ]
