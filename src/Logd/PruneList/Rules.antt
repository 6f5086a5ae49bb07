-- ===== src/Logd/PruneList/Rules.antt =====
-- The rules that PruneList::Init makes (logd/PruneList.cpp).
use android_system_logging.Common.{
  ℕ, zero, suc, ◌≡◌, subst, ◌==◌, Bool, true, false, ◌&&◌, ◌||◌, Option, some, List, [], ◌∷◌, All,
  All-append, inl, inr, Bool-cases, Option-cases, some-eq-some, Succeeds,
}
use android_system_logging.Common.Text.{is_space}
use android_system_logging.Logd.PruneList.{
  Prune, PruneList, Round, stop, next, ended, after_prefix, worst_system_pid, number, after_slash,
  push_rule, read_rule, read_high, round, rounds, resolved, from_argument, init, no_rules, all,
}
use android_system_logging.Logd.PruneList.Loop.{init_lem, round-cases}

-- The rule is not for every uid and every pid at once.
unfoldable pub IsNarrow : Prune → Type 0
IsNarrow rule = (rule.uid == all && rule.pid == all) ≡ false

abbrev pub IsNarrowList : PruneList → Type 0
IsNarrowList list = All IsNarrow list.low_priority_prune × All IsNarrow list.high_priority_prune

Keeps : Round → Type 0
Keeps (stop ok list) = IsNarrowList list
Keeps (next list s) = IsNarrowList list

push_rule-IsNarrowList :
    (high : Bool) (rule : Prune) (list : PruneList)
    → IsNarrow rule
    → IsNarrowList list
    → IsNarrowList (push_rule high rule list)
unfolding push_rule
push_rule-IsNarrowList true rule list r v =
    (v.0, All-append IsNarrow list.high_priority_prune _ v.1 (r, tt))
push_rule-IsNarrowList false rule list r v =
    (All-append IsNarrow list.low_priority_prune _ v.0 (r, tt), v.1)

ended-Keeps :
    (list bad : PruneList) (s : List ℕ)
    → IsNarrowList list
    → IsNarrowList bad
    → Keeps (ended list bad s)
unfolding ended Keeps
ended-Keeps list bad [] v w = v
ended-Keeps list bad (c ∷ s) v w = elim (Bool-cases (is_space c)) [
  | inl e ↦ rw e v
  | inr e ↦ rw e w
]

read_rule-Keeps :
    (high : Bool) (s : List ℕ) (list : PruneList)
    → IsNarrowList list
    → Keeps (read_rule high s list)
unfolding read_rule Keeps IsNarrow
read_rule-Keeps high s list v =
    let made : Prune = record { uid = (number s).0; pid = (after_slash (number s).1).0 } in
    elim (Bool-cases ((number s).0 == all && (after_slash (number s).1).0 == all)) [
      | inl e ↦ rw e v
      | inr e ↦ rw e (ended-Keeps _ list _ (push_rule-IsNarrowList high made list e v) v)
    ]

read_high-Keeps : (s : List ℕ) (list : PruneList) → IsNarrowList list → Keeps (read_high s list)
unfolding read_high Keeps
read_high-Keeps [] list v = v
read_high-Keeps (c ∷ s) list v = elim (Bool-cases (c == b'!')) [
  | inl e ↦ rw e (ended-Keeps _ _ s v v)
  | inr e ↦ elim (Option-cases (after_prefix worst_system_pid (c ∷ s))) [
    | inl f ↦ rw (e, f) (read_rule-Keeps true (c ∷ s) list v)
    | inr (rest, f) ↦ rw (e, f) (ended-Keeps _ _ rest v v)
  ]
]

round-Keeps : (c : ℕ) (s : List ℕ) (list : PruneList) → IsNarrowList list → Keeps (round c s list)
unfolding round Keeps
round-Keeps c s list v = elim (Bool-cases (is_space c)) [
  | inl e ↦ rw e v
  | inr e ↦ elim (Bool-cases (c == b'~' || c == b'!')) [
    | inl f ↦ rw (e, f) (read_high-Keeps s list v)
    | inr f ↦ rw (e, f) (read_rule-Keeps false (c ∷ s) list v)
  ]
]

rounds-IsNarrowList :
    (n : ℕ) (s : List ℕ) (list : PruneList) {r : Bool × PruneList}
    → IsNarrowList list
    → rounds n s list ≡ some r
    → IsNarrowList r.1
unfolding rounds Keeps
rounds-IsNarrowList n [] list v h = subst (λ r. IsNarrowList r.1) (some-eq-some h) v
rounds-IsNarrowList zero (c ∷ s) list v h = cc
rounds-IsNarrowList (suc n) (c ∷ s) list v h = elim (round-cases (round c s list)) [
  | inl (ok, list', e) ↦
      let k : IsNarrowList list' = rw e at (round-Keeps c s list v) in
      subst (λ r. IsNarrowList r.1) (some-eq-some (rw (rounds, e) at h)) k
  | inr (list', s', e) ↦
      let k : IsNarrowList list' = rw e at (round-Keeps c s list v) in
      rounds-IsNarrowList n s' list' k (rw (rounds, e) at h)
]

-- Whatever Init is given, it returns, and no rule that it leaves is for all uids and all pids, not
-- even where it reports an error.
pub init-IsNarrowList :
    (ro persist : List ℕ) (str : Option (List ℕ))
    → Succeeds (init ro persist str) (λ r. IsNarrowList r.1)
unfolding init
init-IsNarrowList ro persist str =
    let (r, e, more) = init_lem ro persist str in
    rw e (rounds-IsNarrowList _ (resolved (from_argument ro persist str)) no_rules (tt, tt) e)
