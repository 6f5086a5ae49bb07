-- ===== src/Logd/Chatty/Watermarks.antt =====
-- The iterators that ChattyLogBuffer keeps into its list (logd/ChattyLogBuffer.{h,cpp}), when an
-- element is marked or erased.
use android_system_logging.Common.{
  ℕ, suc, ◌-◌, ◌≤◌, ◌<◌, ◌≡◌, ◌≢◌, ◌⊎◌, refl, sym, ap, ◌∙◌, Bool, true, false, Option, none, some,
  List, ◌∷◌, ◌++◌, length, length-append, get_elem?, remove_at, ltb, ◌==◌, Succeeds, arith, inl,
  inr, Bool-cases, some-eq-some, ==→eq, ==_self, lt→ltb, get_elem?-front, get_elem?-behind,
  get_elem?-middle,
}
use android_system_logging.Logd.Element.{
  LogBufferElement, Body, kept, dropped, body_count, dropped_count, to_log_statistics_element,
}
use android_system_logging.Logd.Simple.{SimpleLogBuffer, find_log}
use android_system_logging.Logd.Simple
use android_system_logging.Logd.Simple.Oldest.{IsCached, erase-IsCached}
use android_system_logging.Logd.Simple.Pruning.{remove_at-append}
use android_system_logging.Logd.Statistics.Entries.{Names}
use android_system_logging.Logd.Statistics.Calls.{erase_element}
use android_system_logging.Logd.Statistics.Tables.{LogStatistics}
use android_system_logging.Logd.Chatty.Buffer.{
  ChattyLogBuffer, Iterator, at, stale, Watermarks, worst_key, is_at, forget, shifted, count_erased,
  erase,
}
use android_system_logging.Logd.Chatty.Scan.{mark}

-- The iterator is at an element of the log with the key.
abbrev Marks : (LogBufferElement → ℕ) → List LogBufferElement → ℕ → ℕ → Iterator → Type 0
Marks key_of logs id key (at k) =
    Succeeds (get_elem? logs k) (λ e. (e.log_id ≡ id) × (key_of e ≡ key))
Marks key_of logs id key stale = ⊥

unfoldable pub IsMarked : (LogBufferElement → ℕ) → Watermarks → List LogBufferElement → Type 0
IsMarked key_of marks logs =
    (id key : ℕ) (i : Iterator) → marks id key ≡ some i → Marks key_of logs id key i

-- No iterator of the buffer is stale.
pub record IsChattyBuffer (b : ChattyLogBuffer) : Type 0 where
  pub cached : IsCached b.simple
  pub worst : IsMarked worst_key b.last_worst b.simple.logs
  pub worst_pid : IsMarked (λ e. e.pid) b.last_worst_pid_of_system b.simple.logs

forget-some :
    (id key it : ℕ) (marks : Watermarks) (i k : ℕ) (j : Iterator)
    → forget id key it marks i k ≡ some j
    → marks i k ≡ some j
unfolding forget
forget-some id key it marks i k j h = elim (Bool-cases (is_at it (marks id key))) [
  | inr a ↦ rw a at h
  | inl a ↦ elim (Bool-cases (id == i)) [
    | inr d ↦ rw (a, d) at h
    | inl d ↦ elim (Bool-cases (key == k)) [
      | inl f ↦ absurd (let c : none ≡ some j = rw (a, d, f) at h in cc)
      | inr f ↦
          let c : marks id k ≡ some j = rw (a, d, f) at h in
          ap (λ (l : ℕ). marks l k) (sym (==→eq id i d)) ∙ c
    ]
  ]
]

forget_self :
    (id key it : ℕ) (marks : Watermarks) (i k : ℕ)
    → id ≡ i
    → key ≡ k
    → forget id key it marks i k ≢ some (at it)
unfolding forget is_at
forget_self id key it marks i k same_id same_key g =
    let h : forget id key it marks id key ≡ some (at it) = rw (sym same_id, sym same_key) at g in
    elim (Bool-cases (is_at it (marks id key))) [
      | inl a ↦ let c : none ≡ some (at it) = rw (a, ==_self id, ==_self key) at h in cc
      | inr a ↦
          let c : marks id key ≡ some (at it) = rw (forget, a) at h in
          let d : (it == it) ≡ false = rw c at a in let f = ==_self it in cc
    ]

shifted-at :
    (it : ℕ) (o : Option Iterator) (j : Iterator)
    → shifted it o ≡ some j
    → o ≢ some (at it)
    → (o ≡ some stale)
      ⊎ ((k : ℕ) × (o ≡ some (at k)) × (k < it) × (j ≡ at k))
      ⊎ ((k : ℕ) × (o ≡ some (at (suc k))) × (it ≤ k) × (j ≡ at k))
unfolding shifted
shifted-at it none j h ne = absurd (let c : none ≡ some j = h in cc)
shifted-at it (some stale) j h ne = inl refl
shifted-at it (some (at k)) j h ne = elim (Bool-cases (k == it)) [
  | inl d ↦ absurd (ne (ap (λ (n : ℕ). some (at n)) (==→eq k it d)))
  | inr d ↦ elim (Bool-cases (ltb it k)) [
    | inl f ↦
        let c : some (at (k - 1)) ≡ some j = rw (d, f) at h in
        inr (
          inr
            (k - 1, ap (λ (n : ℕ). some (at n)) (ground arith), ground arith, sym (some-eq-some c)))
    | inr f ↦
        let c : some (at k) ≡ some j = rw (d, f) at h in
        inr (inl (k, refl, ground arith, sym (some-eq-some c)))
  ]
]

module _ (key_of : LogBufferElement → ℕ) where
  -- The element goes, and its iterator with it.
  forget-IsMarked :
      (marks : Watermarks) (before es : List LogBufferElement) (e : LogBufferElement)
      → IsMarked key_of marks (before ++ (e ∷ es))
      → IsMarked key_of
          (λ id key.
            shifted (length before) (forget e.log_id (key_of e) (length before) marks id key))
          (before ++ es)
  unfolding IsMarked
  forget-IsMarked marks before es e v id key j h =
      let it = length before in
      let o = forget e.log_id (key_of e) it marks id key in
      let gone : o ≢ some (at it) = λ c.
        let m = v id key (at it) (forget-some e.log_id (key_of e) it marks id key (at it) c) in
        let (same_id, same_key) = rw (get_elem?-middle before es e) at m in
        forget_self e.log_id (key_of e) it marks id key same_id same_key c in
      elim (shifted-at it o j h gone) [
        | inl c ↦ absurd (v id key stale (forget-some e.log_id (key_of e) it marks id key stale c))
        | inr (inl (k, c, lt, is)) ↦
            let m = v id key (at k) (forget-some e.log_id (key_of e) it marks id key (at k) c) in
            rw (is, get_elem?-front k before es lt) (rw (get_elem?-front k before (e ∷ es) lt) at m)
        | inr (inr (k, c, le, is)) ↦
            let m =
              v id key (at (suc k))
                (forget-some e.log_id (key_of e) it marks id key (at (suc k)) c) in
            rw (is, get_elem?-behind k before es e le) m
      ]

  -- An element is marked.
  pub mark-IsMarked :
      (marks : Watermarks) (before es : List LogBufferElement) (e : LogBufferElement) (id key : ℕ)
      → e.log_id ≡ id
      → key_of e ≡ key
      → IsMarked key_of marks (before ++ (e ∷ es))
      → IsMarked key_of (mark id key (length before) marks) (before ++ (e ∷ es))
  unfolding IsMarked mark
  mark-IsMarked marks before es e id key same_id same_key v i k j h = elim (Bool-cases (id == i)) [
    | inr d ↦ v i k j (rw d at h)
    | inl d ↦ elim (Bool-cases (key == k)) [
      | inr f ↦
          let c : marks id k ≡ some j = rw (d, f) at h in
          v i k j (ap (λ (l : ℕ). marks l k) (sym (==→eq id i d)) ∙ c)
      | inl f ↦
          let c : some (at (length before)) ≡ some j = rw (d, f) at h in
          rw (sym (some-eq-some c), get_elem?-middle before es e)
            (same_id ∙ ==→eq id i d, same_key ∙ ==→eq key k f)
    ]
  ]

module _ (names : Names) where
  count_erased-some :
      (coalesced : Bool) (e : LogBufferElement) (b : SimpleLogBuffer)
      → (coalesced ≡ true → 0 < dropped_count e)
      → (stats : LogStatistics) × (count_erased names coalesced e b
          ≡ some (record b { stats = stats }))
  unfolding count_erased erase_element to_log_statistics_element
  count_erased-some false e b h = (_, refl)
  count_erased-some true e b h = counted e.body (h refl)
    where
      counted :
          (body : Body)
          → 0 < body_count body
          → (stats : LogStatistics) × (count_erased names true (record e { body = body }) b
              ≡ some (record b { stats = stats }))
      counted (kept msg) p = absurd (omega arith)
      counted (dropped tag n) p = rw (lt→ltb 0 n p) (_, refl)

  -- Erasing an element leaves no iterator to it.
  pub erase-IsChattyBuffer :
      (coalesced : Bool) (before es : List LogBufferElement) (e : LogBufferElement)
      (b : ChattyLogBuffer)
      → b.simple.logs ≡ before ++ (e ∷ es)
      → (coalesced ≡ true → 0 < dropped_count e)
      → IsChattyBuffer b
      → (b' : ChattyLogBuffer) × (erase names coalesced (length before) e b ≡ some b')
        × (b'.simple.logs ≡ before ++ es)
        × IsChattyBuffer b'
  unfolding erase
  erase-IsChattyBuffer coalesced before es e b split counts v =
      let (stats, counted) = count_erased-some coalesced e b.simple counts in
      let logs : remove_at (length before) b.simple.logs ≡ before ++ es =
        ap (remove_at (length before)) split ∙ remove_at-append before e es in
      let inside : length before < length b.simple.logs =
        rw split (omega (arith, length-append before (e ∷ es))) in
      rw counted (
        _,
        refl,
        unfold Simple.erase in logs,
        record {
          cached =
              erase-IsCached (length before) (record b.simple { stats = stats }) inside
                (unfold IsCached in v.cached);
          worst =
              unfold Simple.erase in
              (rw logs (forget-IsMarked worst_key b.last_worst before es e (rw split at v.worst)));
          worst_pid =
              unfold Simple.erase in
              (rw logs (
                forget-IsMarked (λ e. e.pid) b.last_worst_pid_of_system before es e
                  (rw split at v.worst_pid)));
        },
      )
