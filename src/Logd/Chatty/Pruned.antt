-- ===== src/Logd/Chatty/Pruned.antt =====
-- The second and the third pass, the loop of a user, and the whole Prune of logd/ChattyLogBuffer.cpp.
use android_system_logging.Common.{
  ℕ, suc, ◌-◌, ◌^◌, ◌≤◌, ◌<◌, ◌≡◌, refl, sym, ◌∙◌, subst, Bool, true, false, ◌&&◌, ◌||◌, not,
  Option, none, List, [], ◌∷◌, ◌++◌, length-snoc, snoc-append, length, length-take, take,
  take-append-drop, drop, filter, ltb, ◌==◌, arith, Succeeds, Succeeds-map, Succeeds-result, some,
  if◌then◌else◌, Ends, Ends-bind, Ends-weaken, Ends-monotone, Succeeds-Ends, if-either, and-second,
}
use android_system_logging.Logd.Element.{LogBufferElement, dropped_count}
use android_system_logging.Logd.PruneList.{PruneList, is_low_priority}
use android_system_logging.Logd.Simple.{Reader, get_oldest, is_blocked, oldest_reader}
use mathlib.Core.Path.{fun_ext}
use android_system_logging.Liblog.LogId.{log_id_security}
use android_system_logging.Logd.Statistics.Entries.{Names, minus64}
use android_system_logging.Logd.Chatty.Buffer.{ChattyLogBuffer}
use android_system_logging.Logd.Chatty.Prune.{
  first_pass, rest_pass, from_oldest, user_loop, prune_user, later_passes, prune_all, prune,
}
use android_system_logging.Logd.Chatty.Watermarks.{IsChattyBuffer}
use android_system_logging.Logd.Chatty.Marking.{may_take, Holds}
use android_system_logging.Logd.Chatty.Passes.{
  get_oldest-Placed, kick_oldest-Holds, Placed-Holds, erase-Holds, HoldsRest, EndsFirst,
  first_pass-Holds,
}

-- The elements that Prune may take for its caller.
unfoldable pub prunable : ℕ → ℕ → Option (ℕ × Reader) → LogBufferElement → Bool
prunable id uid oldest e = (uid == 0 || e.uid == uid) && may_take id oldest e

module _ (names : Names) (list : PruneList) (id : ℕ) (oldest : Option (ℕ × Reader))
    (held : List LogBufferElement) where
  abbrev may : LogBufferElement → Bool
  may = may_take id oldest

  -- A pass from the oldest element on fails nothing.
  rest_pass-Holds :
      (check_low : Bool) (es before : List LogBufferElement) (skipped : Bool) (rows : ℕ)
      (b : ChattyLogBuffer)
      → b.simple.logs ≡ before ++ es
      → Holds may held b
      → Succeeds
          (rest_pass names list check_low id oldest es (length before) skipped rows b)
          (λ r. Holds may held r.3)
  unfolding rest_pass
  rest_pass-Holds check_low [] before skipped rows b split h = h
  rest_pass-Holds check_low (e ∷ es) before skipped rows b split h =
      let ends =
        λ (m : Option (Bool × Bool × ℕ × ChattyLogBuffer)). Succeeds m (λ r. Holds may held r.3) in
      let on = λ (s : Bool). rw (length-snoc before e) at (
        rest_pass-Holds check_low es (before ++ (e ∷ [])) s rows b
          (split ∙ sym (snoc-append before e es)) h) in
      if-either ends (rows == 0) _ _ (λ z. h)
        (λ z.
          if-either ends (not (e.log_id == id)) _ _ (λ i. on skipped)
            (λ i.
              if-either ends (is_blocked oldest e) _ _
                (λ k.
                  if-either (Holds may held) skipped _ _ (λ s. h)
                    (λ s. kick_oldest-Holds may held oldest id rows b h))
                (λ k.
                  if-either ends (check_low && (dropped_count e == 0 && is_low_priority e list)) _ _
                    (λ l. on true)
                    (λ l.
                      let m : may e ≡ true = unfold may_take in (rw k (ground arith)) in
                      let (b', done, split', h') =
                        erase-Holds may held names e before es b m split h in
                      rw done
                        (rest_pass-Holds check_low es before skipped (rows - 1) b' split' h')))))

  from_oldest-Holds :
      (check_low : Bool) (rows : ℕ) (b : ChattyLogBuffer)
      → Holds may held b
      → Succeeds (from_oldest names list check_low id oldest rows b) (λ r. Holds may held r.3)
  unfolding from_oldest
  from_oldest-Holds check_low rows b h =
      let it = (get_oldest id b.simple).0 in
      let logs = (get_oldest id b.simple).1.logs in
      let p = get_oldest-Placed id b h.valid in
      let inside : it ≤ length logs = rw (p.1) (p.2) in
      rw (length-take it logs inside) at (
        rest_pass-Holds check_low (drop it logs) (take it logs) false rows _
          (sym (take-append-drop it logs)) (Placed-Holds may held b _ it p h))

  -- No rule of high priority, no fault in the first pass.
  first_pass-Ends :
      (has_rules : Bool) (rows : ℕ) (b : ChattyLogBuffer)
      → rows < 2 ^ 64
      → Holds may held b
      → let c = ltb 0 (length list.high_priority_prune) in
        Ends c
          (first_pass names list (suc rows) (has_rules && c) id oldest rows b)
          (λ m. Succeeds m (λ r. Holds may held r.1))
  first_pass-Ends has_rules rows b bound h =
      let c = ltb 0 (length list.high_priority_prune) in
      let m = first_pass names list (suc rows) (has_rules && c) id oldest rows b in
      let done = λ (m : Option (ℕ × ChattyLogBuffer)). Succeeds m (λ r. Holds may held r.1) in
      Ends-weaken (has_rules && c) c done m (and-second has_rules c) (
        Ends-monotone {P = EndsFirst names list id oldest held rows} (has_rules && c) m
          (λ r p. Succeeds-map (HoldsRest names list id oldest held rows) _ r (λ q h. h.0) p)
          (first_pass-Holds names list id oldest held (suc rows) (has_rules && c) rows b
            (omega arith) bound h))

  abbrev EndsAll : Option (Bool × ChattyLogBuffer) → Type 0
  EndsAll m = Succeeds m (λ r. Holds may held r.1)

  later_passes-Holds :
      (check_low : Bool) (first : Option (ℕ × ChattyLogBuffer))
      → Succeeds first (λ r. Holds may held r.1)
      → Succeeds (later_passes names list check_low id oldest first) EndsAll
  unfolding later_passes
  later_passes-Holds check_low none p = absurd p
  later_passes-Holds check_low (some (rows, b)) p =
      let rested = λ (r : Bool × Bool × ℕ × ChattyLogBuffer). Holds may held r.3 in
      let (s, e, q) = Succeeds-result rested _ (from_oldest-Holds check_low rows b p) in
      let third : Succeeds
          (if s.0 && ltb 0 s.2 then from_oldest names list false id oldest s.2 s.3 else some s)
          rested =
        if-either (λ m. Succeeds m rested) (s.0 && ltb 0 s.2) _ _
          (λ c. from_oldest-Holds false s.2 s.3 q) (λ c. q) in
      let (t, f, g) = Succeeds-result rested _ third in rw (e, f) g

  prune_all-Holds :
      (rows : ℕ) (b : ChattyLogBuffer)
      → rows < 2 ^ 64
      → Holds may held b
      → Ends
          (ltb 0 (length list.high_priority_prune))
          (prune_all names list id oldest rows b)
          EndsAll
  unfolding prune_all
  prune_all-Holds rows b bound h =
      let c = ltb 0 (length list.high_priority_prune) in
      let first = λ (m : Option (ℕ × ChattyLogBuffer)). Succeeds m (λ r. Holds may held r.1) in
      Ends-bind c first EndsAll _ _
        (if-either (λ m. Ends c m first) (rows == 2 ^ 64 - 1) _ _ (λ e. h)
          (λ e. first_pass-Ends (not (id == log_id_security)) rows b bound h))
        (λ m p. Succeeds-Ends c EndsAll _ (later_passes-Holds _ m p))

module _ (names : Names) (id uid : ℕ) (oldest : Option (ℕ × Reader))
    (held : List LogBufferElement) where
  abbrev may_user : LogBufferElement → Bool
  may_user = prunable id uid oldest

  user_loop-Holds :
      (es before : List LogBufferElement) (rows : ℕ) (b : ChattyLogBuffer)
      → b.simple.logs ≡ before ++ es
      → Holds may_user held b
      → Succeeds
          (user_loop names id uid oldest es (length before) rows b)
          (λ r. Holds may_user held r.1)
  unfolding user_loop
  user_loop-Holds [] before rows b split h = h
  user_loop-Holds (e ∷ es) before rows b split h =
      let ends =
        λ (m : Option (Bool × ChattyLogBuffer)). Succeeds m (λ r. Holds may_user held r.1) in
      if-either ends (not (e.log_id == id) || not (e.uid == uid)) _ _
        (λ i. rw (length-snoc before e) at (
          user_loop-Holds es (before ++ (e ∷ [])) rows b (split ∙ sym (snoc-append before e es)) h))
        (λ i.
          if-either ends (is_blocked oldest e) _ _
            (λ k. kick_oldest-Holds may_user held oldest id rows b h)
            (λ k.
              let m : may_user e ≡ true = unfold prunable may_take in (rw k (ground arith)) in
              let (b', done, split', h') =
                erase-Holds may_user held names e before es b m split h in
              rw done (
                if-either ends (minus64 rows 1 == 0) _ _ (λ z. h')
                  (λ z. user_loop-Holds es before (minus64 rows 1) b' split' h'))))

  prune_user-Holds :
      (rows : ℕ) (b : ChattyLogBuffer)
      → Holds may_user held b
      → Succeeds (prune_user names id uid oldest rows b) (λ r. Holds may_user held r.1)
  unfolding prune_user
  prune_user-Holds rows b h =
      let it = (get_oldest id b.simple).0 in
      let logs = (get_oldest id b.simple).1.logs in
      let p = get_oldest-Placed id b h.valid in
      let inside : it ≤ length logs = rw (p.1) (p.2) in
      rw (length-take it logs inside) at (
        user_loop-Holds (drop it logs) (take it logs) rows _ (sym (take-append-drop it logs))
          (Placed-Holds may_user held b _ it p h))

-- Prune of the chatty buffer ends, whatever it is asked for: it does not run out of fuel, but where
-- there is a rule of high priority it may be broken off by a fault. Where there is none, it fails no
-- CHECK, follows no stale iterator and reads no element that it has erased. Wherever it gets through,
-- no iterator that it keeps is stale, each is at an element of its log with its key, and what it may
-- not take is there as it was, in the same order: the elements of other logs, those of other users if
-- its caller is not root, and those that a reader of the log has still to read. The iterators were
-- right before.
pub prune-IsChattyBuffer :
    (names : Names) (list : PruneList) (id rows uid : ℕ) (b : ChattyLogBuffer)
    → rows < 2 ^ 64
    → IsChattyBuffer b
    → let kept = λ (c : ChattyLogBuffer).
      filter
        (λ e. not (prunable id uid (oldest_reader id 0 none b.simple.readers) e))
        c.simple.logs in
      Ends
        (ltb 0 (length list.high_priority_prune))
        (prune names list id rows uid b)
        (λ m. Succeeds m (λ r. IsChattyBuffer r.1 × (kept r.1 ≡ kept b)))
unfolding prune
prune-IsChattyBuffer names list id rows uid b bound v =
    let oldest = oldest_reader id 0 none b.simple.readers in
    let c = ltb 0 (length list.high_priority_prune) in
    let may = prunable id uid oldest in
    let held = λ (may : LogBufferElement → Bool). filter (λ e. not (may e)) b.simple.logs in
    let done = λ (may : LogBufferElement → Bool) (m : Option (Bool × ChattyLogBuffer)).
      Succeeds m (λ r. Holds may (held may) r.1) in
    let ends = λ (may : LogBufferElement → Bool) (m : Option (Option (Bool × ChattyLogBuffer))).
      Ends c m (done may) in
    Ends-monotone {P = done may} c _
      (λ m p. Succeeds-map (λ r. Holds may (held may) r.1) _ m (λ r h. (h.valid, h.keeps)) p)
      (if-either (ends may) (uid == 0) _ _
        (λ root.
          let same : prunable id uid oldest ≡ may_take id oldest =
            fun_ext (λ e. unfold prunable in (rw root refl)) in
          subst (λ may. ends may (prune_all names list id oldest rows b)) (sym same)
            (prune_all-Holds names list id oldest (held (may_take id oldest)) rows b bound
              (record { valid = v; keeps = refl })))
        (λ user.
          let (r, e, h) =
            Succeeds-result (λ r. Holds may (held may) r.1) _
              (prune_user-Holds names id uid oldest (held may) rows b
                (record { valid = v; keeps = refl })) in
          rw e h))
