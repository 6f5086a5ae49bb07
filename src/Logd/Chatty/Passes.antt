-- ===== src/Logd/Chatty/Passes.antt =====
-- Prune of logd/ChattyLogBuffer.cpp keeps its iterators right and takes none of the elements that it
-- must not.
use android_system_logging.Common.{
  ℕ, zero, suc, ◌^◌, ◌≤◌, ◌<◌, ◌≡◌, refl, sym, Bool, true, false, ◌&&◌, ◌||◌, not, Option, none,
  some, List, ◌∷◌, ◌++◌, length, length-take, take, take-append-drop, drop, leb, ◌==◌,
  if◌then◌else◌, arith, Succeeds, Succeeds-map, Succeeds-lt, Ends, Ends-bind, Ends-monotone,
  Succeeds-Ends, if-either,
}
use android_system_logging.Logd.Element.{LogBufferElement, set_dropped}
use android_system_logging.Logd.PruneList.{PruneList}
use android_system_logging.Logd.Simple.{Reader, get_oldest, kick_oldest}
use android_system_logging.Logd.Simple.Oldest.{
  IsCached, get_oldest-find_log, get_oldest-logs, get_oldest-IsCached, find_log-le,
}
use android_system_logging.Logd.Simple.Pruning.{kick_oldest-keeps}
use native.Mathlib.Nat.{le_refl}
use android_system_logging.Logd.Statistics.Entries.{Names}
use android_system_logging.Logd.Chatty.Buffer.{
  ChattyLogBuffer, Iterator, at, stale, Watermarks, erase,
}
use android_system_logging.Logd.Chatty.Prune.{
  Offender, no_worst, worst_offender, started_at, or_mark, starting_mark, starting_place,
  first_scan, first_round, first_pass,
}
use android_system_logging.Logd.Chatty.Watermarks.{IsMarked, IsChattyBuffer, erase-IsChattyBuffer}
use android_system_logging.Logd.Chatty.Marking.{may_take, Holds, take-Holds}
use android_system_logging.Logd.Chatty.Scanning.{Counts}
use android_system_logging.Logd.Chatty.Offenders.{may_take-set_dropped}
use android_system_logging.Logd.Chatty.Steps.{scan-Ended}

-- The place is in the list.
abbrev Inside : List LogBufferElement → Option Iterator → Type 0
Inside logs none = Unit {0}
Inside logs (some (at k)) = k ≤ length logs
Inside logs (some stale) = ⊥

started_at-Inside :
    (key_of : LogBufferElement → ℕ) (marks : Watermarks) (logs : List LogBufferElement) (id key : ℕ)
    (o : Option Iterator)
    → IsMarked key_of marks logs
    → marks id key ≡ o
    → Inside logs (started_at o (length logs))
unfolding started_at IsMarked
started_at-Inside key_of marks logs id key none v h = tt
started_at-Inside key_of marks logs id key (some (at k)) v h =
    if-either (Inside logs) (k == length logs) none (some (at k)) (λ e. tt)
      (λ e. omega (arith, Succeeds-lt _ k logs (v id key (at k) h)))
started_at-Inside key_of marks logs id key (some stale) v h = v id key stale h

or_mark-Inside :
    (logs : List LogBufferElement) (i j : Option Iterator)
    → Inside logs i
    → Inside logs j
    → Inside logs (or_mark i j)
unfolding or_mark
or_mark-Inside logs none j p q = q
or_mark-Inside logs (some i) j p q = p

starting_mark-Inside :
    (gc : Bool) (id : ℕ) (o : Offender) (b : ChattyLogBuffer)
    → IsChattyBuffer b
    → Inside b.simple.logs (starting_mark gc id o b)
unfolding starting_mark
starting_mark-Inside gc id (worst, worst_pid, n, m) b v =
    let logs = b.simple.logs in
    if-either (Inside logs) (gc || worst == no_worst) none _ (λ e. tt)
      (λ e.
        or_mark-Inside logs _ _
          (if-either (Inside logs) (worst_pid == 0) none _ (λ f. tt)
            (λ f.
              started_at-Inside _ b.last_worst_pid_of_system logs id worst_pid _ v.worst_pid refl))
          (started_at-Inside _ b.last_worst logs id worst _ v.worst refl))

-- The buffer after GetOldest, and the place.
abbrev Placed : ChattyLogBuffer → ℕ → ChattyLogBuffer → Type 0
Placed b it b' = IsChattyBuffer b' × (b'.simple.logs ≡ b.simple.logs) × (it ≤ length b.simple.logs)

pub get_oldest-Placed :
    (id : ℕ) (b : ChattyLogBuffer)
    → IsChattyBuffer b
    → Placed b (get_oldest id b.simple).0 (record b { simple = (get_oldest id b.simple).1 })
get_oldest-Placed id b v =
    let same = get_oldest-logs id b.simple in
    (
      record {
        cached = get_oldest-IsCached id b.simple v.cached;
        worst = rw same v.worst;
        worst_pid = rw same v.worst_pid;
      },
      same,
      rw (get_oldest-find_log id b.simple v.cached) (find_log-le id b.simple.logs),
    )

starting_place-Placed :
    (id : ℕ) (o : Option Iterator) (b : ChattyLogBuffer)
    → IsChattyBuffer b
    → Inside b.simple.logs o
    → Succeeds (starting_place id o b) (λ r. Placed b r.0 r.2)
unfolding starting_place
starting_place-Placed id none b v h = get_oldest-Placed id b v
starting_place-Placed id (some (at k)) b v h = (v, refl, h)
starting_place-Placed id (some stale) b v h = h

module _ (may : LogBufferElement → Bool) (held : List LogBufferElement) where
  pub kick_oldest-Holds :
      (o : Option (ℕ × Reader)) (id rows : ℕ) (b : ChattyLogBuffer)
      → Holds may held b
      → Holds may held (record b { simple = kick_oldest o id rows b.simple })
  kick_oldest-Holds o id rows b h =
      kick_oldest-keeps (λ s. Holds may held (record b { simple = s })) o id rows b.simple
        (λ rs. record {
          valid = record {
            cached = unfold IsCached in h.valid.cached;
            worst = h.valid.worst;
            worst_pid = h.valid.worst_pid;
          };
          keeps = h.keeps;
        })
        h

  pub Placed-Holds :
      (b b' : ChattyLogBuffer) (it : ℕ) → Placed b it b' → Holds may held b → Holds may held b'
  Placed-Holds b b' it p h = record { valid = p.0; keeps = rw (p.1) (h.keeps) }

  -- An element that may be taken is erased.
  pub erase-Holds :
      (names : Names) (e : LogBufferElement) (before es : List LogBufferElement)
      (b : ChattyLogBuffer)
      → may e ≡ true
      → b.simple.logs ≡ before ++ (e ∷ es)
      → Holds may held b
      → (b' : ChattyLogBuffer) × (erase names false (length before) e b ≡ some b')
        × (b'.simple.logs ≡ before ++ es)
        × Holds may held b'
  erase-Holds names e before es b m split h =
      let (b', done, split', valid) =
        erase-IsChattyBuffer names false before es e b split
          (λ f. absurd (let g : false ≡ true = f in cc)) h.valid in
      (b', done, split', take-Holds may held e before es b b' m split split' h valid)

module _ (names : Names) (list : PruneList) (id : ℕ) (oldest : Option (ℕ × Reader))
    (held : List LogBufferElement) where
  abbrev may : LogBufferElement → Bool
  may = may_take id oldest

  abbrev same : (n : ℕ) (e : LogBufferElement) → may (set_dropped n e) ≡ may e
  same = may_take-set_dropped id oldest

  abbrev HoldsFewer : ℕ → Bool × ℕ × ChattyLogBuffer → Type 0
  HoldsFewer rows (kick, n, b) = Holds may held b × Counts may held same rows kick n

  abbrev pub HoldsRest : ℕ → ℕ × ChattyLogBuffer → Type 0
  HoldsRest rows (n, b) = Holds may held b × (n ≤ rows)

  first_scan-Ended :
      (check : Bool) (offender : Offender) (rows : ℕ) (b : ChattyLogBuffer)
      (r : ℕ × Bool × ChattyLogBuffer)
      → 0 < rows
      → rows < 2 ^ 64
      → Holds may held b
      → Placed b r.0 r.2
      → Ends check
          (first_scan names list check id oldest offender rows r)
          (λ s. Holds may held s.buffer × Counts may held same rows s.kick s.prune_rows)
  unfolding first_scan
  first_scan-Ended check (worst, worst_pid, worst_sizes, second) rows b (it, leading, b') pos bound
        h p =
      let logs = b'.simple.logs in
      let inside : it ≤ length logs = rw (p.1) (p.2) in
      scan-Ended names _ held rows bound (drop it logs) _ (record {
        before = take it logs;
        place = sym (length-take it logs inside);
        split = sym (take-append-drop it logs);
        holds = Placed-Holds may held b b' it p h;
        taken = tt;
        counts = le_refl rows;
        positive = pos;
      })

  -- A round of the first pass: fewer rows are left where it has kicked anything out.
  first_round-Holds :
      (check : Bool) (offender : Offender) (rows : ℕ) (b : ChattyLogBuffer)
      → 0 < rows
      → rows < 2 ^ 64
      → Holds may held b
      → Ends check (first_round names list check id oldest offender rows b) (HoldsFewer rows)
  unfolding first_round
  first_round-Holds check offender rows b pos bound h =
      let mark = starting_mark (leb rows 1) id offender b in
      let inside = starting_mark-Inside (leb rows 1) id offender b h.valid in
      Ends-bind check (λ r. Placed b r.0 r.2) (HoldsFewer rows) (starting_place id mark b) _
        (Succeeds-Ends check (λ r. Placed b r.0 r.2) _
          (starting_place-Placed id mark b h.valid inside))
        (λ r p.
          Ends-bind check
            (λ s. Holds may held s.buffer × Counts may held same rows s.kick s.prune_rows)
            (HoldsFewer rows) _ _ (first_scan-Ended check offender rows b r pos bound h p)
            (λ s q. q))

  -- The first pass has ended, and holds.
  abbrev pub EndsFirst : ℕ → Option (ℕ × ChattyLogBuffer) → Type 0
  EndsFirst rows m = Succeeds m (HoldsRest rows)

  -- It goes on with fewer rows, or not.
  goes_on :
      (check : Bool) (rows : ℕ) (r : Bool × ℕ × ChattyLogBuffer)
      (again : ℕ → ChattyLogBuffer → Option (Option (ℕ × ChattyLogBuffer)))
      → HoldsFewer rows r
      → ((n : ℕ) (b : ChattyLogBuffer)
          → n < rows
          → Holds may held b
          → Ends check (again n b) (EndsFirst n))
      → Ends check
          (if not r.0 || not list.worst_uid_enabled then some (some (r.1, r.2)) else again r.1 r.2)
          (EndsFirst rows)
  goes_on check rows (false, n, b) again h f = h
  goes_on check rows (true, n, b) again (h, fewer) f =
      if-either (λ m. Ends check m (EndsFirst rows)) (not list.worst_uid_enabled) _ _
        (λ e. (h, omega arith))
        (λ e.
          Ends-monotone check (again n b)
            (λ r p. Succeeds-map (HoldsRest n) (HoldsRest rows) r (λ q k. (k.0, omega arith)) p)
            (f n b fewer h))

  -- One round more than there are rows is enough fuel.
  pub first_pass-Holds :
      (fuel : ℕ) (check : Bool) (rows : ℕ) (b : ChattyLogBuffer)
      → rows < fuel
      → rows < 2 ^ 64
      → Holds may held b
      → Ends check (first_pass names list fuel check id oldest rows b) (EndsFirst rows)
  unfolding first_pass
  first_pass-Holds zero check rows b enough bound h = absurd (omega arith)
  first_pass-Holds (suc fuel) check rows b enough bound h =
      let offender = worst_offender list id b.simple in
      let ends = λ (m : Option (Option (ℕ × ChattyLogBuffer))). Ends check m (EndsFirst rows) in
      if-either ends (rows == 0) _ _ (λ z. (h, le_refl rows))
        (λ z.
          if-either ends (offender.0 == no_worst && not check) _ _ (λ e. (h, le_refl rows))
            (λ e.
              Ends-bind check (HoldsFewer rows) (EndsFirst rows)
                (first_round names list check id oldest offender rows b) _
                (first_round-Holds check offender rows b (ground arith) bound h)
                (λ r less. goes_on check rows r _ less (λ n b' fewer h'.
                  first_pass-Holds fuel check n b' (omega arith) (omega arith) h'))))
