-- ===== src/Logd/Chatty/Scanning.antt =====
-- The loop of the first pass of ChattyLogBuffer::Prune (logd/ChattyLogBuffer.cpp): what is true at its
-- iterator, when an element is erased or passed by.
use android_system_logging.Common.{
  ℕ, suc, ◌*◌, ◌≤◌, ◌<◌, ◌≡◌, refl, sym, ◌∙◌, Bool, true, false, some, List, [], ◌∷◌, ◌++◌,
  append_assoc, length, length-append, get_elem?, All, Succeeds, Succeeds-result, arith, inl, inr,
  Bool-cases, nat_key, All-map, assign-All, get_elem?-front, get_elem?-middle, Succeeds-lt,
}
use android_system_logging.Liblog.LogTime.{nsec, ns_per_sec}
use android_system_logging.Logd.Element.{LogBufferElement, set_dropped}
use android_system_logging.Logd.Statistics.Entries.{minus64}
use android_system_logging.Logd.Chatty.Buffer.{
  ChattyLogBuffer, LogBufferElementLast, element_key, add_last, is_expired, clear_before,
  clear_expired,
}
use android_system_logging.Logd.Chatty.Scan.{Scan, Flow, stopped, erased, passed}
use android_system_logging.Logd.Chatty.Marking.{Holds}

module _ (may : LogBufferElement → Bool) (held : List LogBufferElement)
    (same : (n : ℕ) (e : LogBufferElement) → may (set_dropped n e) ≡ may e) where
  abbrev pub MayTake : LogBufferElement → Type 0
  MayTake e = may e ≡ true

  -- The elements that the map of the last places leads to may be taken, and stand before the iterator.
  abbrev LastTaken : LogBufferElementLast → List LogBufferElement → Type 0
  LastTaken last before = All (λ (x : ℕ × ℕ). Succeeds (get_elem? before x.1) MayTake) last

  -- At most as many rows are left, and fewer if something has been kicked out.
  abbrev pub Counts : ℕ → Bool → ℕ → Type 0
  Counts rows true n = n < rows
  Counts rows false n = n ≤ rows

  pub record Scanning (rows : ℕ) (es : List LogBufferElement) (s : Scan) : Type 0 where
    pub before : List LogBufferElement
    pub place : s.it ≡ length before
    pub split : s.buffer.simple.logs ≡ before ++ es
    pub holds : Holds may held s.buffer
    pub taken : LastTaken s.last before
    pub counts : Counts rows s.kick s.prune_rows
    pub positive : 0 < s.prune_rows

  abbrev pub After : ℕ → List LogBufferElement → Flow × Scan → Type 0
  After rows es (stopped, s) = Holds may held s.buffer × Counts rows s.kick s.prune_rows
  After rows es (erased, s) = Scanning rows es s
  After rows es (passed, s) = Scanning rows es (record s { it = suc s.it })

  clear_before-taken :
      (current : ℕ) (last : LogBufferElementLast) (before es : List LogBufferElement)
      → LastTaken last before
      → (last' : LogBufferElementLast) × (clear_before current last (before ++ es) ≡ some last')
        × LastTaken last' before
  unfolding clear_before
  clear_before-taken current [] before es h = ([], refl, tt)
  clear_before-taken current ((key, place) ∷ last) before es h =
      let (e, is, m) = Succeeds-result MayTake (get_elem? before place) h.0 in
      let (last', rest, taken) = clear_before-taken current last before es h.1 in
      let inside = Succeeds-lt MayTake place before h.0 in
      rw (get_elem?-front place before es inside, is, rest)
        (elim (Bool-cases (is_expired current e)) [
          | inl x ↦ rw x (last', refl, taken)
          | inr x ↦ rw x ((key, place) ∷ last', refl, (h.0, taken))
        ])

  pub clear_expired-Scanning :
      (rows : ℕ) (e : LogBufferElement) (es : List LogBufferElement) (s : Scan)
      → Scanning rows es s
      → (last : LogBufferElementLast) × (clear_expired e s.last s.buffer.simple.logs ≡ some last)
        × Scanning rows es (record s { last = last })
  unfolding clear_expired
  clear_expired-Scanning rows e es s h =
      let (last, is, taken) =
        clear_before-taken (minus64 (nsec e.realtime) (10 * ns_per_sec)) s.last h.before es
          h.taken in
      (
        last,
        rw h.split is,
        record {
          before = h.before;
          place = h.place;
          split = h.split;
          holds = h.holds;
          taken = taken;
          counts = h.counts;
          positive = h.positive;
        },
      )

  LastTaken-snoc :
      (last : LogBufferElementLast) (before : List LogBufferElement) (e : LogBufferElement)
      → LastTaken last before
      → LastTaken last (before ++ (e ∷ []))
  LastTaken-snoc last before e h =
      All-map _ _ last
        (λ x p. rw (get_elem?-front x.1 before (e ∷ []) (Succeeds-lt MayTake x.1 before p)) p) h

  -- The iterator moves on.
  pub advance :
      (rows : ℕ) (e : LogBufferElement) (es : List LogBufferElement) (s : Scan)
      → Scanning rows (e ∷ es) s
      → Scanning rows es (record s { it = suc s.it })
  advance rows e es s h = record {
    before = h.before ++ (e ∷ []);
    place = omega (arith, h.place, length-append h.before (e ∷ []));
    split = h.split ∙ sym (append_assoc h.before (e ∷ []) es);
    holds = h.holds;
    taken = LastTaken-snoc s.last h.before e h.taken;
    counts = h.counts;
    positive = h.positive;
  }

  -- It moves on behind an element that is a last one.
  pub advance-add_last :
      (rows : ℕ) (e f : LogBufferElement) (es : List LogBufferElement) (s : Scan)
      → may e ≡ true
      → Scanning rows (e ∷ es) s
      → Scanning rows es (record s { it = suc s.it; last = add_last f s.it s.last })
  unfolding add_last
  advance-add_last rows e f es s m h =
      let here : Succeeds (get_elem? (h.before ++ (e ∷ [])) s.it) MayTake =
        rw (h.place, get_elem?-middle h.before [] e) m in
      record {
        before = h.before ++ (e ∷ []);
        place = omega (arith, h.place, length-append h.before (e ∷ []));
        split = h.split ∙ sym (append_assoc h.before (e ∷ []) es);
        holds = h.holds;
        taken =
            assign-All (λ p. Succeeds (get_elem? (h.before ++ (e ∷ [])) p) MayTake) (element_key f)
              s.it s.last here (LastTaken-snoc s.last h.before e h.taken);
        counts = h.counts;
        positive = h.positive;
      }

  pub with_buffer :
      (rows : ℕ) (es : List LogBufferElement) (s : Scan) (b : ChattyLogBuffer)
      → Holds may held b
      → b.simple.logs ≡ s.buffer.simple.logs
      → Scanning rows es s
      → Scanning rows es (record s { buffer = b })
  with_buffer rows es s b v l h = record {
    before = h.before;
    place = h.place;
    split = l ∙ h.split;
    holds = v;
    taken = h.taken;
    counts = h.counts;
    positive = h.positive;
  }
