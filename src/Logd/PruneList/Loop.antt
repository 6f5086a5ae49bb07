-- ===== src/Logd/PruneList/Loop.antt =====
-- The loop of PruneList::Init (logd/PruneList.cpp) comes to its end.
use android_system_logging.Common.{
  ℕ, zero, suc, subst, ◌+◌, ◌-◌, ◌*◌, ◌%◌, ◌^◌, ◌≤◌, ◌<◌, ◌≡◌, refl, ◌==◌, Bool, true, false, ◌&&◌,
  ◌||◌, Option, none, some, List, [], ◌∷◌, arith, length, ◌⊎◌, inl, inr, Bool-cases, Option-cases,
}
use native.Mathlib.Nat.{suc-add}
use android_system_logging.Common.Text.{is_digit, is_space, read_digits}
use android_system_logging.Logd.PruneList.{
  PruneList, Round, stop, next, ended, after_prefix, worst_system_pid, number, after_slash,
  read_rule, read_high, round, rounds, resolved, from_argument, init, no_rules, all,
}

-- The round goes on, if it does, with less than `n` characters.
Shortens : ℕ → Round → Type 0
Shortens n (stop ok list) = Unit {0}
Shortens n (next list s) = length s < n

read_digits-shortens : (s : List ℕ) (n : ℕ) → length (read_digits n s).1 ≤ length s
unfolding read_digits
read_digits-shortens [] n = omega arith
read_digits-shortens (c ∷ s) n = elim (Bool-cases (is_digit c)) [
  | inl e ↦ rw e (omega (arith, read_digits-shortens s ((n * 10 + (c - b'0')) % 2 ^ 32)))
  | inr e ↦ rw e (omega arith)
]

number-shortens : (s : List ℕ) → length (number s).1 ≤ length s
unfolding number
number-shortens [] = omega arith
number-shortens (c ∷ s) = elim (Bool-cases (is_digit c)) [
  | inl e ↦ rw e (read_digits-shortens (c ∷ s) 0)
  | inr e ↦ rw e (omega arith)
]

after_slash-shortens : (s : List ℕ) → length (after_slash s).1 ≤ length s
unfolding after_slash
after_slash-shortens [] = omega arith
after_slash-shortens (c ∷ s) = elim (Bool-cases (c == b'/')) [
  | inl e ↦ rw e (omega (arith, number-shortens s))
  | inr e ↦ rw e (omega arith)
]

after_prefix-shortens : (p s rest : List ℕ) → after_prefix p s ≡ some rest → length rest ≤ length s
unfolding after_prefix
after_prefix-shortens [] s rest h = let e : s ≡ rest = cc in rw e (omega arith)
after_prefix-shortens (p ∷ ps) [] rest h = cc
after_prefix-shortens (p ∷ ps) (c ∷ s) rest h = elim (Bool-cases (p == c)) [
  | inl e ↦ omega (arith, after_prefix-shortens ps s rest (rw e at h))
  | inr e ↦ absurd (let g : none ≡ some rest = rw e at h in cc)
]

ended-Shortens :
    (list bad : PruneList) (s : List ℕ) (n : ℕ) → length s ≤ n → Shortens n (ended list bad s)
unfolding Shortens ended
ended-Shortens list bad [] n h = tt
ended-Shortens list bad (c ∷ s) n h = elim (Bool-cases (is_space c)) [
  | inl e ↦ rw e (omega arith)
  | inr e ↦ rw e tt
]

read_rule-Shortens :
    (high : Bool) (s : List ℕ) (list : PruneList) → Shortens (length s) (read_rule high s list)
unfolding read_rule Shortens
read_rule-Shortens high s list =
    let (uid, s1) = number s in
    let (pid, s2) = after_slash (number s).1 in
    elim (Bool-cases ((number s).0 == all && (after_slash (number s).1).0 == all)) [
      | inl e ↦ rw e tt
      | inr e ↦ rw e (
          ended-Shortens _ list (after_slash (number s).1).1 (length s)
            (omega (arith, number-shortens s, after_slash-shortens (number s).1)))
    ]

read_high-Shortens : (s : List ℕ) (list : PruneList) → Shortens (length s) (read_high s list)
unfolding read_high Shortens
read_high-Shortens [] list = tt
read_high-Shortens (c ∷ s) list = elim (Bool-cases (c == b'!')) [
  | inl e ↦ rw e (ended-Shortens _ _ s (suc (length s)) (omega arith))
  | inr e ↦ elim (Option-cases (after_prefix worst_system_pid (c ∷ s))) [
    | inl f ↦ rw (e, f) (read_rule-Shortens true (c ∷ s) list)
    | inr (rest, f) ↦
        rw (e, f)
          (ended-Shortens _ _ rest (suc (length s))
            (after_prefix-shortens worst_system_pid (c ∷ s) rest f))
  ]
]

Shortens-le : (r : Round) (m n : ℕ) → m ≤ n → Shortens m r → Shortens n r
unfolding Shortens
Shortens-le (stop ok list) m n h p = tt
Shortens-le (next list s) m n h p = omega arith

round-Shortens :
    (c : ℕ) (s : List ℕ) (list : PruneList) → Shortens (suc (length s)) (round c s list)
unfolding round Shortens
round-Shortens c s list = elim (Bool-cases (is_space c)) [
  | inl e ↦ rw e (omega arith)
  | inr e ↦ elim (Bool-cases (c == b'~' || c == b'!')) [
    | inl f ↦
        rw (e, f)
          (Shortens-le (read_high s list) (length s) _ (omega arith) (read_high-Shortens s list))
    | inr f ↦ rw (e, f) (read_rule-Shortens false (c ∷ s) list)
  ]
]

pub round-cases :
    (r : Round)
    → ((ok : Bool) × (list : PruneList) × (r ≡ stop ok list))
      ⊎ ((list : PruneList) × (s : List ℕ) × (r ≡ next list s))
round-cases (stop ok list) = inl (ok, list, refl)
round-cases (next list s) = inr (list, s, refl)

-- As much fuel as there are characters is enough, and more changes nothing.
rounds-terminate :
    (n : ℕ) (s : List ℕ) (list : PruneList)
    → length s ≤ n
    → (r : Bool × PruneList) × ((more : ℕ) → rounds (n + more) s list ≡ some r)
unfolding rounds Shortens
rounds-terminate n [] list h = ((true, list), λ more. refl)
rounds-terminate zero (c ∷ s) list h = absurd (omega arith)
rounds-terminate (suc n) (c ∷ s) list h = elim (round-cases (round c s list)) [
  | inl (ok, list', e) ↦ ((ok, list'), λ more. rw (suc-add, rounds, e) refl)
  | inr (list', s', e) ↦
      let short : length s' < suc (length s) = rw e at (round-Shortens c s list) in
      let (r, p) = rounds-terminate n s' list' (omega arith) in
      (r, λ more. rw (suc-add, rounds, e) (p more))
]

-- Init ends, and running its loop with more fuel gives the same result.
pub init_lem :
    (ro persist : List ℕ) (str : Option (List ℕ))
    → (r : Bool × PruneList) × (init ro persist str ≡ some r)
      × ((more : ℕ)
          → rounds
              (length (resolved (from_argument ro persist str)) + more)
              (resolved (from_argument ro persist str))
              no_rules
            ≡ some r)
unfolding init
init_lem ro persist str =
    let filter = resolved (from_argument ro persist str) in
    let (r, p) = rounds-terminate (length filter) filter no_rules (omega arith) in
    (r, subst (λ k. rounds k filter no_rules ≡ some r) (omega arith) (p 1), p)
