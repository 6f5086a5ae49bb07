-- ===== src/Logd/Simple/Pruning.antt =====
-- What the loop of SimpleLogBuffer::Prune does to the list (logd/SimpleLogBuffer.cpp).
use android_system_logging.Common.{
  ℕ, zero, suc, ◌*◌, ◌%◌, ◌^◌, ◌<◌, ◌≡◌, refl, sym, ap, ◌∙◌, true, false, ◌||◌, Option, none, some,
  List, [], ◌∷◌, ◌++◌, length-snoc, snoc-append, length, length-take, take, take-append-drop, drop,
  remove_at, ltb, leb, ◌==◌, arith, inl, inr, Bool-cases, ==→eq,
}
use android_system_logging.Logd.Element.{LogBufferElement}
use android_system_logging.Logd.Statistics.Entries.{Names, minus64}
use android_system_logging.Logd.Statistics.Tables.{sizes}
use android_system_logging.Logd.Simple.{
  SimpleLogBuffer, Reader, find_log, get_oldest, erase, is_other, is_blocked, oldest_reader,
  kick_reader, kick_oldest, subtract_and_erase, prune_loop, prune,
}
use android_system_logging.Logd.Simple.Oldest.{
  IsCached, get_oldest-find_log, get_oldest-logs, find_log-le,
}
use android_system_logging.Logd.Simple.Taking.{
  free, candidates, without, min, without-nil, without-skip, free-drop, candidates-drop,
  without-drop,
}

kick_oldest-logs :
    (o : Option (ℕ × Reader)) (id rows : ℕ) (b : SimpleLogBuffer)
    → (kick_oldest o id rows b).logs ≡ b.logs
unfolding kick_oldest kick_reader
kick_oldest-logs none id rows b = refl
kick_oldest-logs (some (k, r)) id rows b =
    elim (Bool-cases (ltb (2 * b.max_size id % 2 ^ 64) (sizes id b.stats))) [
      | inl e ↦ rw e refl
      | inr e ↦ elim (Bool-cases r.has_deadline) [ inl f ↦ rw (e, f) refl | inr f ↦ rw (e, f) refl ]
    ]

pub kick_oldest-keeps :
    (P : SimpleLogBuffer → Type 0) (o : Option (ℕ × Reader)) (id rows : ℕ) (b : SimpleLogBuffer)
    → ((rs : List Reader) → P (record b { readers = rs }))
    → P b
    → P (kick_oldest o id rows b)
unfolding kick_oldest kick_reader
kick_oldest-keeps P none id rows b f p = p
kick_oldest-keeps P (some (k, r)) id rows b f p =
    elim (Bool-cases (ltb (2 * b.max_size id % 2 ^ 64) (sizes id b.stats))) [
      | inl e ↦ rw e (f _)
      | inr e ↦ elim (Bool-cases r.has_deadline) [
        | inl g ↦ rw (e, g) (f _)
        | inr g ↦ rw (e, g) (f _)
      ]
    ]

pub remove_at-append :
    (before : List LogBufferElement) (e : LogBufferElement) (es : List LogBufferElement)
    → remove_at (length before) (before ++ (e ∷ es)) ≡ before ++ es
remove_at-append [] e es = refl
remove_at-append (x ∷ before) e es = ap (◌∷◌ x) (remove_at-append before e es)

minus64-suc : (r : ℕ) → suc r < 2 ^ 64 → minus64 (suc r) 1 ≡ r
minus64-suc r h = omega arith

module _ (names : Names) where
  subtract_and_erase-logs :
      (before es : List LogBufferElement) (e : LogBufferElement) (b : SimpleLogBuffer)
      → b.logs ≡ before ++ (e ∷ es)
      → (subtract_and_erase names (length before) e b).logs ≡ before ++ es
  unfolding subtract_and_erase erase
  subtract_and_erase-logs before es e b h = rw h (remove_at-append before e es)

  -- The loop keeps what erasing an element and a call of KickReader keep.
  prune_loop-keeps :
      (P : SimpleLogBuffer → Type 0)
      → ((before es : List LogBufferElement) (e : LogBufferElement) (b : SimpleLogBuffer)
          → b.logs ≡ before ++ (e ∷ es)
          → P b
          → P (subtract_and_erase names (length before) e b))
      → ((o : Option (ℕ × Reader)) (id rows : ℕ) (b : SimpleLogBuffer)
          → P b
          → P (kick_oldest o id rows b))
      → (es before : List LogBufferElement) (id uid : ℕ) (o : Option (ℕ × Reader)) (rows : ℕ)
        (b : SimpleLogBuffer)
      → b.logs ≡ before ++ es
      → P b
      → P (prune_loop names id uid o es (length before) rows b).1
  unfolding prune_loop
  prune_loop-keeps P erases kicks [] before id uid o rows b h p = p
  prune_loop-keeps P erases kicks (e ∷ es) before id uid o rows b h p =
      elim (Bool-cases (is_other id uid e)) [
        | inl f ↦
            rw (prune_loop, f)
              (rw (length-snoc before e) at (
                prune_loop-keeps P erases kicks es (before ++ (e ∷ [])) id uid o rows b
                  (h ∙ sym (snoc-append before e es)) p))
        | inr f ↦ elim (Bool-cases (is_blocked o e)) [
          | inl g ↦ rw (prune_loop, f, g) (kicks o id rows b p)
          | inr g ↦
              let erased = erases before es e b h p in
              elim (Bool-cases (minus64 rows 1 == 0)) [
                | inl l ↦ rw (prune_loop, f, g, l) erased
                | inr l ↦
                    rw (prune_loop, f, g, l)
                      (prune_loop-keeps P erases kicks es before id uid o (minus64 rows 1) _
                        (subtract_and_erase-logs before es e b h) erased)
              ]
        ]
      ]

  -- From the iterator on, the loop takes the first `rows` elements that it may, and it tells whether
  -- there was none of the others that a reader holds.
  prune_loop_lem :
      (es before : List LogBufferElement) (id uid : ℕ) (o : Option (ℕ × Reader)) (rows : ℕ)
      (b : SimpleLogBuffer)
      → b.logs ≡ before ++ es
      → 0 < rows
      → rows < 2 ^ 64
      → ((prune_loop names id uid o es (length before) rows b).1.logs
          ≡ before ++ without id uid (min rows (free id uid o es)) es)
        × ((prune_loop names id uid o es (length before) rows b).0
            ≡ (leb rows (free id uid o es) || free id uid o es == candidates id uid es))
  unfolding prune_loop without free candidates min
  prune_loop_lem [] before id uid o rows b h p w = (rw without-nil h, ground arith)
  prune_loop_lem (e ∷ es) before id uid o zero b h p w = absurd (omega arith)
  prune_loop_lem (e ∷ es) before id uid o (suc r) b h p w = elim (Bool-cases (is_other id uid e)) [
    | inl f ↦
        let (l, k) =
          prune_loop_lem es (before ++ (e ∷ [])) id uid o (suc r) b
            (h ∙ sym (snoc-append before e es)) p w in
        (
          rw (prune_loop, free, f, without-skip id uid _ e es f)
              (rw (length-snoc before e, snoc-append before e) at l),
          rw (prune_loop, free, candidates, f) (rw (length-snoc before e) at k),
        )
    | inr f ↦ elim (Bool-cases (is_blocked o e)) [
      | inl g ↦ (
        rw (prune_loop, free, f, g) (kick_oldest-logs o id (suc r) b ∙ h),
        rw (prune_loop, free, candidates, f, g) (ground arith),
      )
      | inr g ↦
          let erased = subtract_and_erase-logs before es e b h in
          elim (Bool-cases (r == 0)) [
            | inl l ↦
                let q : (minus64 (suc r) 1 == 0) ≡ true = rw (minus64-suc r w) l in
                let z : r ≡ 0 = ==→eq r 0 l in
                (
                  rw (prune_loop, free, f, g, q) (rw (z, f) erased),
                  rw (prune_loop, free, candidates, f, g, q) (ground arith),
                )
            | inr l ↦
                let (m, k) =
                  prune_loop_lem es before id uid o r (subtract_and_erase names (length before) e b)
                    erased (ground arith) (omega arith) in
                let q : (minus64 (suc r) 1 == 0) ≡ false = rw (minus64-suc r w) l in
                (
                  rw (prune_loop, free, f, g, q, minus64-suc r w) (rw f m),
                  rw (prune_loop, free, candidates, f, g, q, minus64-suc r w) (k ∙ ground arith),
                )
          ]
    ]
  ]

-- Prune, of one row or more, where the iterators to the oldest elements are right. It takes the first
-- elements of the log, and of the caller if it is not root: as many as asked for, but none from the
-- first on that the oldest reader has still to read. It returns false if that one is why there were
-- not enough of them.
pub prune_lem :
    (names : Names) (id rows uid : ℕ) (b : SimpleLogBuffer)
    → IsCached b
    → 0 < rows
    → rows < 2 ^ 64
    → ((prune names id rows uid b).1.logs
        ≡ without id uid (min rows (free id uid (oldest_reader id 0 none b.readers) b.logs)) b.logs)
      × ((prune names id rows uid b).0 ≡ (
          leb rows (free id uid (oldest_reader id 0 none b.readers) b.logs)
          || free id uid (oldest_reader id 0 none b.readers) b.logs == candidates id uid b.logs))
unfolding prune
prune_lem names id rows uid b v p w =
    let o = oldest_reader id 0 none b.readers in
    let it = find_log id b.logs in
    let (l, r) =
      prune_loop_lem names (drop it b.logs) (take it b.logs) id uid o rows (get_oldest id b).1
        (get_oldest-logs id b ∙ sym (take-append-drop it b.logs)) p w in
    let size = length-take it b.logs (find_log-le id b.logs) in
    let fewer = free-drop id uid o b.logs it (omega arith) in
    rw (get_oldest-find_log id b v, get_oldest-logs id b)
      (
        rw size at l ∙ rw fewer (sym (without-drop id uid o b.logs it _ (omega arith))),
        rw size at r ∙ rw (fewer, candidates-drop id uid o b.logs it (omega arith)) refl,
      )

-- Prune keeps what GetOldest, erasing an element and a call of KickReader keep.
pub prune-keeps :
    (names : Names) (P : SimpleLogBuffer → Type 0)
    → ((before es : List LogBufferElement) (e : LogBufferElement) (b : SimpleLogBuffer)
        → b.logs ≡ before ++ (e ∷ es)
        → P b
        → P (subtract_and_erase names (length before) e b))
    → ((b : SimpleLogBuffer) (rs : List Reader) → P b → P (record b { readers = rs }))
    → (id rows uid : ℕ) (b : SimpleLogBuffer) → IsCached b
    → P (get_oldest id b).1
    → P (prune names id rows uid b).1
unfolding prune
prune-keeps names P erases readers id rows uid b v p =
    let it = find_log id b.logs in
    rw (get_oldest-find_log id b v, get_oldest-logs id b)
      (rw (length-take it b.logs (find_log-le id b.logs)) at (
        prune_loop-keeps names P erases
          (λ o i n c q. kick_oldest-keeps P o i n c (λ rs. readers c rs q) q) (drop it b.logs)
          (take it b.logs) id uid (oldest_reader id 0 none b.readers) rows (get_oldest id b).1
          (get_oldest-logs id b ∙ sym (take-append-drop it b.logs)) p))
