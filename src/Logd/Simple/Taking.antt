-- ===== src/Logd/Simple/Taking.antt =====
-- The elements that Prune of logd/SimpleLogBuffer.cpp may take.
use android_system_logging.Common.{
  ℕ, zero, suc, ◌≤◌, ◌≡◌, refl, ap, ◌∙◌, true, false, Option, List, [], ◌∷◌, ◌++◌, take, drop, ◌==◌,
  if◌then◌else◌, arith, inl, inr, Bool-cases,
}
use android_system_logging.Logd.Element.{LogBufferElement}
use android_system_logging.Logd.Simple.{Reader, find_log, is_other, is_blocked}

-- The elements that Prune may take, in order, before the first one that a reader holds.
unfoldable pub free : ℕ → ℕ → Option (ℕ × Reader) → List LogBufferElement → ℕ
free id uid oldest [] = 0
free id uid oldest (e ∷ es) =
    let rest = free id uid oldest es in
    if is_other id uid e then rest else if is_blocked oldest e then 0 else suc rest

-- All the elements of the log, and of the caller if it is not root.
unfoldable pub candidates : ℕ → ℕ → List LogBufferElement → ℕ
candidates id uid [] = 0
candidates id uid (e ∷ es) =
    let rest = candidates id uid es in if is_other id uid e then rest else suc rest

-- The list without the first `n` of these.
unfoldable pub without : ℕ → ℕ → ℕ → List LogBufferElement → List LogBufferElement
without id uid zero es = es
without id uid (suc n) [] = []
without id uid (suc n) (e ∷ es) =
    if is_other id uid e then e ∷ without id uid (suc n) es else without id uid n es

unfoldable pub min : ℕ → ℕ → ℕ
min zero n = 0
min (suc m) zero = 0
min (suc m) (suc n) = suc (min m n)

pub without-nil : (id uid n : ℕ) → without id uid n [] ≡ []
unfolding without
without-nil id uid zero = refl
without-nil id uid (suc n) = refl

pub without-skip :
    (id uid n : ℕ) (e : LogBufferElement) (es : List LogBufferElement)
    → is_other id uid e ≡ true
    → without id uid n (e ∷ es) ≡ e ∷ without id uid n es
unfolding without
without-skip id uid zero e es h = refl
without-skip id uid (suc n) e es h = rw h refl

-- The elements before the first of the log are not candidates.
module _ (id uid : ℕ) (o : Option (ℕ × Reader)) where
  other_log : (e : LogBufferElement) → (e.log_id == id) ≡ false → is_other id uid e ≡ true
  unfolding is_other
  other_log e h = rw h refl

  pub free-drop :
      (es : List LogBufferElement) (k : ℕ)
      → k ≤ find_log id es
      → free id uid o es ≡ free id uid o (drop k es)
  unfolding free find_log
  free-drop es zero h = refl
  free-drop [] (suc k) h = refl
  free-drop (e ∷ es) (suc k) h = elim (Bool-cases (e.log_id == id)) [
    | inl f ↦ absurd (let c : suc k ≤ 0 = rw f at h in omega arith)
    | inr f ↦
        let c : suc k ≤ suc (find_log id es) = rw f at h in
        rw (other_log e f) (free-drop es k (omega arith))
  ]

  pub candidates-drop :
      (es : List LogBufferElement) (k : ℕ)
      → k ≤ find_log id es
      → candidates id uid es ≡ candidates id uid (drop k es)
  unfolding candidates find_log
  candidates-drop es zero h = refl
  candidates-drop [] (suc k) h = refl
  candidates-drop (e ∷ es) (suc k) h = elim (Bool-cases (e.log_id == id)) [
    | inl f ↦ absurd (let c : suc k ≤ 0 = rw f at h in omega arith)
    | inr f ↦
        let c : suc k ≤ suc (find_log id es) = rw f at h in
        rw (other_log e f) (candidates-drop es k (omega arith))
  ]

  pub without-drop :
      (es : List LogBufferElement) (k n : ℕ)
      → k ≤ find_log id es
      → without id uid n es ≡ take k es ++ without id uid n (drop k es)
  unfolding find_log
  without-drop es zero n h = refl
  without-drop [] (suc k) n h = refl
  without-drop (e ∷ es) (suc k) n h = elim (Bool-cases (e.log_id == id)) [
    | inl f ↦ absurd (let c : suc k ≤ 0 = rw f at h in omega arith)
    | inr f ↦
        let c : suc k ≤ suc (find_log id es) = rw f at h in
        without-skip id uid n e es (other_log e f) ∙ ap (◌∷◌ e) (without-drop es k n (omega arith))
  ]
