-- ===== src/Logd/Simple/Oldest.antt =====
-- The iterators that SimpleLogBuffer keeps to the oldest element of a log (logd/SimpleLogBuffer.cpp).
use native.Mathlib.Nat.{zero-add}
use android_system_logging.Common.{
  ℕ, zero, suc, ◌+◌, ◌-◌, ◌≤◌, ◌<◌, ◌≡◌, ◌≢◌, ◌⊎◌, refl, sym, ap, none, some, List, [], ◌∷◌, ◌++◌,
  length, length-append, drop, remove_at, ltb, ◌==◌, arith, inl, inr, Bool-cases, Option-cases,
  some-eq-some, ==→eq,
}
use android_system_logging.Logd.Element.{LogBufferElement}
use android_system_logging.Logd.Simple.{
  SimpleLogBuffer, find_log, first_place, get_oldest, moved, erase,
}

-- Each iterator stands in the list, and no element of its log is before it.
unfoldable pub IsCached : SimpleLogBuffer → Type 0
IsCached b = (i k : ℕ) → b.oldest i ≡ some k → (k < length b.logs) × (k ≤ find_log i b.logs)

pub find_log-le : (i : ℕ) (es : List LogBufferElement) → find_log i es ≤ length es
unfolding find_log
find_log-le i [] = omega arith
find_log-le i (e ∷ es) = elim (Bool-cases (e.log_id == i)) [
  | inl h ↦ rw h (omega arith)
  | inr h ↦ rw h (omega (arith, find_log-le i es))
]

find_log-drop :
    (i : ℕ) (es : List LogBufferElement) (k : ℕ)
    → k ≤ find_log i es
    → k + find_log i (drop k es) ≡ find_log i es
unfolding find_log
find_log-drop i es zero h = omega arith
find_log-drop i [] (suc k) h = absurd (omega arith)
find_log-drop i (e ∷ es) (suc k) h = elim (Bool-cases (e.log_id == i)) [
  | inl g ↦ absurd (let c : suc k ≤ 0 = rw g at h in omega arith)
  | inr g ↦
      let c : suc k ≤ suc (find_log i es) = rw g at h in
      rw g (omega (arith, find_log-drop i es k (omega arith)))
]

-- Where the iterators are right, GetOldest gives the first element of the log, as a search of the
-- whole list does.
pub get_oldest-find_log :
    (id : ℕ) (b : SimpleLogBuffer) → IsCached b → (get_oldest id b).0 ≡ find_log id b.logs
unfolding get_oldest first_place IsCached
get_oldest-find_log id b v = elim (Option-cases (b.oldest id)) [
  | inl e ↦ rw e (zero-add _)
  | inr (k, e) ↦ rw e (find_log-drop id b.logs k (v id k e).1)
]

pub get_oldest-logs : (id : ℕ) (b : SimpleLogBuffer) → (get_oldest id b).1.logs ≡ b.logs
unfolding get_oldest
get_oldest-logs id b =
    elim (Bool-cases (
      first_place (b.oldest id) + find_log id (drop (first_place (b.oldest id)) b.logs)
      == length b.logs)) [ inl e ↦ rw e refl | inr e ↦ rw e refl ]

pub get_oldest-sequence : (id : ℕ) (b : SimpleLogBuffer) → (get_oldest id b).1.sequence ≡ b.sequence
unfolding get_oldest
get_oldest-sequence id b =
    elim (Bool-cases (
      first_place (b.oldest id) + find_log id (drop (first_place (b.oldest id)) b.logs)
      == length b.logs)) [ inl e ↦ rw e refl | inr e ↦ rw e refl ]

pub get_oldest-stats : (id : ℕ) (b : SimpleLogBuffer) → (get_oldest id b).1.stats ≡ b.stats
unfolding get_oldest
get_oldest-stats id b =
    elim (Bool-cases (
      first_place (b.oldest id) + find_log id (drop (first_place (b.oldest id)) b.logs)
      == length b.logs)) [ inl e ↦ rw e refl | inr e ↦ rw e refl ]

pub get_oldest-IsCached : (id : ℕ) (b : SimpleLogBuffer) → IsCached b → IsCached (get_oldest id b).1
unfolding get_oldest IsCached
get_oldest-IsCached id b v =
    let same : first_place (b.oldest id) + find_log id (drop (first_place (b.oldest id)) b.logs)
        ≡ find_log id b.logs =
      get_oldest-find_log id b v in
    rw same (elim (Bool-cases (find_log id b.logs == length b.logs)) [
      | inl e ↦ rw e v
      | inr e ↦ rw e (λ i k h. elim (Bool-cases (id == i)) [
        | inl g ↦
            let found : some (find_log id b.logs) ≡ some k = rw g at h in
            let is : find_log id b.logs ≡ k = some-eq-some found in
            rw (sym (==→eq id i g)) (ground (arith, find_log-le id b.logs))
        | inr g ↦ v i k (rw g at h)
      ])
    ])

-- Behind the iterator, an element goes.
remove_at-behind :
    (i : ℕ) (es : List LogBufferElement) (k it : ℕ)
    → k ≤ find_log i es
    → k ≤ it
    → it < length es
    → k ≤ find_log i (remove_at it es)
unfolding find_log
remove_at-behind i [] k it h l r = absurd (omega arith)
remove_at-behind i (e ∷ es) zero it h l r = omega arith
remove_at-behind i (e ∷ es) (suc k) zero h l r = absurd (omega arith)
remove_at-behind i (e ∷ es) (suc k) (suc it) h l r = elim (Bool-cases (e.log_id == i)) [
  | inl g ↦ absurd (let c : suc k ≤ 0 = rw g at h in omega arith)
  | inr g ↦
      let c : suc k ≤ suc (find_log i es) = rw g at h in
      rw g (omega (arith, remove_at-behind i es k it (omega arith) (omega arith) (omega arith)))
]

-- Before the iterator, an element goes.
remove_at-before :
    (i : ℕ) (es : List LogBufferElement) (k it : ℕ)
    → suc k ≤ find_log i es
    → it ≤ k
    → k ≤ find_log i (remove_at it es)
unfolding find_log
remove_at-before i [] k it h l = absurd (omega arith)
remove_at-before i (e ∷ es) k zero h l = elim (Bool-cases (e.log_id == i)) [
  | inl g ↦ absurd (let c : suc k ≤ 0 = rw g at h in omega arith)
  | inr g ↦ let c : suc k ≤ suc (find_log i es) = rw g at h in omega arith
]
remove_at-before i (e ∷ es) zero (suc it) h l = omega arith
remove_at-before i (e ∷ es) (suc k) (suc it) h l = elim (Bool-cases (e.log_id == i)) [
  | inl g ↦ absurd (let c : suc (suc k) ≤ 0 = rw g at h in omega arith)
  | inr g ↦
      let c : suc (suc k) ≤ suc (find_log i es) = rw g at h in
      rw g (omega (arith, remove_at-before i es k it (omega arith) (omega arith)))
]

length-remove_at :
    (es : List LogBufferElement) (it : ℕ)
    → it < length es
    → suc (length (remove_at it es)) ≡ length es
length-remove_at [] it h = absurd (omega arith)
length-remove_at (e ∷ es) zero h = refl
length-remove_at (e ∷ es) (suc it) h = ap suc (length-remove_at es it (omega arith))

-- Where an iterator that was at `j` is now.
moved-cases :
    (it len j k : ℕ)
    → moved it len (some j) ≡ some k
    → ((j ≡ it) × (k ≡ it) × (it ≢ len)) ⊎ ((it < j) × (suc k ≡ j)) ⊎ ((j < it) × (k ≡ j))
unfolding moved
moved-cases it len j k h = elim (Bool-cases (j == it)) [
  | inl e ↦ elim (Bool-cases (it == len)) [
    | inl f ↦ absurd (let c : none ≡ some k = rw (e, f) at h in cc)
    | inr f ↦
        let c : some it ≡ some k = rw (e, f) at h in
        inl (==→eq j it e, sym (some-eq-some c), λ g. ground arith)
  ]
  | inr e ↦ elim (Bool-cases (ltb it j)) [
    | inl f ↦
        let c : some (j - 1) ≡ some k = rw (e, f) at h in
        let d = some-eq-some c in inr (inl (ground arith, ground arith))
    | inr f ↦
        let c : some j ≡ some k = rw (e, f) at h in inr (inr (ground arith, sym (some-eq-some c)))
  ]
]

pub erase-IsCached :
    (it : ℕ) (b : SimpleLogBuffer) → it < length b.logs → IsCached b → IsCached (erase it b)
unfolding erase IsCached moved
erase-IsCached it b l v i k h =
    let len = length-remove_at b.logs it l in
    elim (Option-cases (b.oldest i)) [
      | inl e ↦ absurd (let c : none ≡ some k = rw e at h in cc)
      | inr (j, e) ↦
          let (inside, first) = v i j e in
          elim (moved-cases it (length (remove_at it b.logs)) j k (rw e at h)) [
            | inl (same, here, inner) ↦
                (omega arith, remove_at-behind i b.logs k it (omega arith) (omega arith) l)
            | inr (inl (behind, lower)) ↦
                (omega arith, remove_at-before i b.logs k it (omega arith) (omega arith))
            | inr (inr (before, same)) ↦
                (omega arith, remove_at-behind i b.logs k it (omega arith) (omega arith) l)
          ]
    ]

find_log-append : (i : ℕ) (es fs : List LogBufferElement) → find_log i es ≤ find_log i (es ++ fs)
unfolding find_log
find_log-append i [] fs = omega arith
find_log-append i (e ∷ es) fs = elim (Bool-cases (e.log_id == i)) [
  | inl h ↦ rw h (omega arith)
  | inr h ↦ rw h (omega (arith, find_log-append i es fs))
]

pub append-IsCached :
    (b : SimpleLogBuffer) (e : LogBufferElement)
    → IsCached b
    → IsCached (record b { logs = b.logs ++ (e ∷ []) })
unfolding IsCached
append-IsCached b e v i k h =
    let (inside, first) = v i k h in
    (omega (arith, length-append b.logs (e ∷ [])), omega (arith, find_log-append i b.logs (e ∷ [])))
