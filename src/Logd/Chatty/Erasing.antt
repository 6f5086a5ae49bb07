-- ===== src/Logd/Chatty/Erasing.antt =====
-- An element is erased or coalesced in the first pass of ChattyLogBuffer::Prune
-- (logd/ChattyLogBuffer.cpp).
use android_system_logging.Common.{
  ℕ, ◌+◌, ◌-◌, ◌^◌, ◌<◌, ◌≡◌, refl, sym, ap, ◌∙◌, Bool, true, not, Option, some, List, ◌∷◌,
  get_elem?, modify_at, ltb, Succeeds, Succeeds-result, inl, inr, Bool-cases, Option-cases, lookup,
  nat_key, All-map, lookup-All, remove-All, Ends, get_elem?-front, Succeeds-lt, Succeeds-modify_at,
  length-modify_at, modify_at-front, filter-modify_at,
}
use android_system_logging.Logd.Element.{LogBufferElement, set_dropped, dropped_count}
use android_system_logging.Logd.Statistics.Entries.{Names}
use android_system_logging.Logd.Chatty.Buffer.{
  LogBufferElementLast, element_key, erase, coalesce_at, coalesce,
}
use android_system_logging.Logd.Chatty.Scan.{
  Scan, Flow, erased, with_logs, erase_step, coalesce_step,
}
use android_system_logging.Logd.Chatty.Watermarks.{erase-IsChattyBuffer}
use android_system_logging.Logd.Chatty.Dropping.{modify_at-IsChattyBuffer}
use android_system_logging.Logd.Chatty.Marking.{take-Holds}
use android_system_logging.Logd.Chatty.Scanning.{MayTake, Scanning, After}

module _ (may : LogBufferElement → Bool) (held : List LogBufferElement)
    (same : (n : ℕ) (e : LogBufferElement) → may (set_dropped n e) ≡ may e) where
  coalesce-Scanning :
      (rows n : ℕ) (f : LogBufferElement) (es : List LogBufferElement) (s : Scan)
      → Scanning may held same rows es s
      → (r : Bool × LogBufferElementLast × List LogBufferElement) × (coalesce f n s.last
            s.buffer.simple.logs
          ≡ some r)
        × Scanning may held same rows es (record s { last = r.1; buffer = with_logs r.2 s.buffer })
  unfolding coalesce coalesce_at with_logs
  coalesce-Scanning rows n f es s h = elim (Option-cases (lookup (element_key f) s.last)) [
    | inl e ↦ rw e (_, refl, h)
    | inr (place, e) ↦
        let at_place : Succeeds (get_elem? h.before place) (MayTake may held same) =
          lookup-All (λ p. Succeeds (get_elem? h.before p) (MayTake may held same)) (element_key f)
            place s.last h.taken e in
        let inside = Succeeds-lt (MayTake may held same) place h.before at_place in
        let (found, is, m) =
          Succeeds-result (MayTake may held same) (get_elem? h.before place) at_place in
        let is' : get_elem? s.buffer.simple.logs place ≡ some found =
          rw h.split (get_elem?-front place h.before es inside ∙ is) in
        elim (Bool-cases (ltb (2 ^ 16 - 1) (n + dropped_count found))) [
          | inl full ↦
              rw (e, is', full)
                (
                  _,
                  refl,
                  record {
                    before = h.before;
                    place = h.place;
                    split = h.split;
                    holds = h.holds;
                    taken =
                        remove-All (λ p. Succeeds (get_elem? h.before p) (MayTake may held same))
                          (element_key f) s.last h.taken;
                    counts = h.counts;
                    positive = h.positive;
                  },
                )
          | inr room ↦
              let change = set_dropped (n + dropped_count found) in
              rw (e, is', room)
                (
                  _,
                  refl,
                  record {
                    before = modify_at place change h.before;
                    place = h.place ∙ sym (length-modify_at place change h.before);
                    split =
                        ap (modify_at place change) h.split
                        ∙ modify_at-front place change h.before es inside;
                    holds = record {
                      valid =
                          unfold with_logs in
                          (modify_at-IsChattyBuffer s.buffer place (n + dropped_count found)
                            h.holds.valid);
                      keeps =
                          filter-modify_at (λ x. not (may x)) place change s.buffer.simple.logs
                            (λ x. ap not (same (n + dropped_count found) x)) (rw (is', m) refl)
                          ∙ h.holds.keeps;
                    };
                    taken =
                        All-map _ _ s.last
                          (λ x p.
                            Succeeds-modify_at (MayTake may held same) place x.1 change h.before
                              (λ y q. same (n + dropped_count found) y ∙ q) p)
                          h.taken;
                    counts = h.counts;
                    positive = h.positive;
                  },
                )
        ]
  ]

  module _ (names : Names) (c : Bool) where
    pub erase_step-After :
        (rows : ℕ) (coalesced : Bool) (e : LogBufferElement) (es : List LogBufferElement) (s : Scan)
        → may e ≡ true
        → (coalesced ≡ true → 0 < dropped_count e)
        → Scanning may held same rows (e ∷ es) s
        → (s' : Scan) × (erase_step names coalesced e s ≡ some (erased, s'))
          × Scanning may held same rows es s'
    unfolding erase_step
    erase_step-After rows coalesced e es s m d h =
        let (b, done, split, valid) =
          erase-IsChattyBuffer names coalesced h.before es e s.buffer h.split d h.holds.valid in
        let done' : erase names coalesced s.it e s.buffer ≡ some b = rw h.place done in
        rw done' (
          _,
          refl,
          record {
            before = h.before;
            place = h.place;
            split = split;
            holds = take-Holds may held e h.before es s.buffer b m h.split split h.holds valid;
            taken = h.taken;
            counts = h.counts;
            positive = h.positive;
          },
        )

    pub coalesce_step-After :
        (rows n : ℕ) (e : LogBufferElement) (es : List LogBufferElement) (s : Scan)
        (otherwise : Scan → Option (Flow × Scan))
        → may e ≡ true
        → 0 < dropped_count e
        → Scanning may held same rows (e ∷ es) s
        → ((s' : Scan)
            → Scanning may held same rows (e ∷ es) s'
            → Ends c (otherwise s') (After may held same rows es))
        → Ends c (coalesce_step names e n s otherwise) (After may held same rows es)
    unfolding coalesce_step
    coalesce_step-After rows n e es s otherwise m d h k =
        let (r, is, h') = coalesce-Scanning rows n e (e ∷ es) s h in
        rw is (elim (Bool-cases r.0) [
          | inl t ↦
              let (s', done, scanning) = erase_step-After rows true e es _ m (λ _. d) h' in
              rw (t, done) scanning
          | inr f ↦ rw f (k _ h')
        ])
